-- ===== src/Semver/RoundTrip.antt =====
-- `parseSemver` of runtime/semver.go reads back the versions that are written in the usual form.
use serv_lang.Prelude.{
  ℕ, zero, suc, ◌+◌, ◌*◌, ◌-◌, ◌/◌, ◌%◌, ◌^◌, ◌≤◌, ◌<◌, ◌≡◌, ◌⊎◌, inl, inr, refl, ap, sym, subst,
  ◌∙◌, Bool, true, false, ◌||◌, [], ◌∷◌, ◌++◌, some, Bytes, codes, ◌==◌, ltb, All, if-elim, arith,
}
use serv_lang.Prelude.Int.{pos}
use serv_lang.GoStrings.{
  trim_space, trim_prefix, has_prefix, before_any, split, push_byte, digits_value,
}
use serv_lang.GoInt.{decimal, format_int}
use serv_lang.Semver.Version.{
  SemverParts, in_range, atoi, assemble, numbers, strip_labels, parse_semver,
}

abbrev pub IsDigit : ℕ → Type 0
IsDigit c = (b'0' ≤ c) × (c ≤ b'9')

digits_value_step :
    (a c : ℕ) (cs : Bytes)
    → IsDigit c
    → digits_value a (c ∷ cs) ≡ digits_value (a * 10 + (c - b'0')) cs
unfolding digits_value
digits_value_step a c cs h = ground arith

pub digits_value-decimal :
    (f n : ℕ) (acc : Bytes) → n < f → digits_value 0 (decimal f n acc) ≡ digits_value n acc
unfolding decimal
digits_value-decimal (suc f) n acc h =
    if-elim (λ s. digits_value 0 s ≡ digits_value n acc) (ltb n 10)
      (λ small.
        digits_value_step 0 (b'0' + n) acc (ground arith)
        ∙ ap (λ k. digits_value k acc) (omega arith))
      (λ large.
        let last : IsDigit (b'0' + n % 10) = omega arith in
        digits_value-decimal f (n / 10) ((b'0' + n % 10) ∷ acc) (ground arith)
        ∙ digits_value_step (n / 10) (b'0' + n % 10) acc last
        ∙ ap (λ k. digits_value k acc) (omega arith))
digits_value-decimal zero n acc h = ground arith

pub decimal-IsDigit : (f n : ℕ) (acc : Bytes) → All IsDigit acc → All IsDigit (decimal f n acc)
unfolding decimal
decimal-IsDigit zero n acc h = h
decimal-IsDigit (suc f) n acc h =
    if-elim (All IsDigit) (ltb n 10) (λ small. (ground arith, h))
      (λ large. decimal-IsDigit f (n / 10) _ (omega arith, h))

-- Behind its first digit a number is there.
pub decimal_cons :
    (f n : ℕ) (acc : Bytes)
    → n < f
    → (c : ℕ) × (cs : Bytes) × IsDigit c × (decimal f n acc ≡ c ∷ cs)
unfolding decimal
decimal_cons (suc f) n acc h =
    if-elim (λ s. (c : ℕ) × (cs : Bytes) × IsDigit c × (s ≡ c ∷ cs)) (ltb n 10)
      (λ small. (b'0' + n, acc, ground arith, refl))
      (λ large. decimal_cons f (n / 10) _ (ground arith))
decimal_cons zero n acc h = ground arith

in_range_small : (n : ℕ) → n < 2 ^ 63 → in_range (some n) ≡ some n
unfolding in_range
in_range_small n h = ground arith

atoi-format_int : (n : ℕ) → n < 2 ^ 63 → atoi (format_int (pos n)) ≡ some n
unfolding atoi format_int digits_value
atoi-format_int n h =
    let (c, cs, digit, e) = decimal_cons (suc n) n [] (omega arith) in
    let value = ap (digits_value 0) (sym e) ∙ digits_value-decimal (suc n) n [] (omega arith) in
    rw (e, value) (in_range_small n h)

-- Texts of digits and dots hold no sign and no `v`.
abbrev pub IsPlain : ℕ → Type 0
IsPlain c = IsDigit c ⊎ (c ≡ b'.')

digit-IsPlain : (s : Bytes) → All IsDigit s → All IsPlain s
digit-IsPlain [] h = tt
digit-IsPlain (c ∷ cs) (d, ds) = (inl d, digit-IsPlain cs ds)

All-append : (s t : Bytes) → All IsPlain s → All IsPlain t → All IsPlain (s ++ t)
All-append [] t hs ht = ht
All-append (c ∷ s) t (h, hs) ht = (h, All-append s t hs ht)

split_digits :
    (s rest : Bytes) → All IsDigit s → split b'.' (s ++ (b'.' ∷ rest)) ≡ s ∷ split b'.' rest
unfolding split push_byte
split_digits [] rest h = refl
split_digits (c ∷ s) rest (d, ds) =
    let other_byte : (c == b'.') ≡ false = ground arith in
    rw (other_byte, split_digits s rest ds) refl

split_last : (s : Bytes) → All IsDigit s → split b'.' s ≡ s ∷ []
unfolding split push_byte
split_last [] h = refl
split_last (c ∷ s) (d, ds) =
    let other_byte : (c == b'.') ≡ false = ground arith in rw (other_byte, split_last s ds) refl

-- Nothing, or a label behind its sign.
pub data Label : Type 0 where
  no_label : Label
  pre_release build : Bytes → Label

abbrev pub written : Label → Bytes
written no_label = []
written (pre_release s) = b'-' ∷ s
written (build s) = b'+' ∷ s

strip_labels_plain :
    (s : Bytes) (label : Label) → All IsPlain s → strip_labels (s ++ written label) ≡ s
unfolding strip_labels before_any
strip_labels_plain [] no_label h = refl
strip_labels_plain [] (pre_release t) h = refl
strip_labels_plain [] (build t) h = refl
strip_labels_plain (c ∷ s) label (d, ds) =
    let stays : (c == b'-' || c == b'+') ≡ false = ground arith in
    rw (stays, strip_labels_plain s label ds) refl

abbrev pub print_parts : SemverParts → Bytes
print_parts p =
    format_int (pos p.major)
    ++ (b'.' ∷ (format_int (pos p.minor) ++ (b'.' ∷ format_int (pos p.patch))))

format_int-IsDigit : (n : ℕ) → All IsDigit (format_int (pos n))
unfolding format_int
format_int-IsDigit n = decimal-IsDigit (suc n) n [] tt

print_parts-IsPlain : (p : SemverParts) → All IsPlain (print_parts p)
print_parts-IsPlain p =
    let plain_number = λ (n : ℕ). digit-IsPlain (format_int (pos n)) (format_int-IsDigit n) in
    All-append (format_int (pos p.major)) _ (plain_number p.major) (
      inr refl,
      All-append (format_int (pos p.minor)) _ (plain_number p.minor)
          (inr refl, plain_number p.patch),
    )

split-print_parts :
    (p : SemverParts)
    → split b'.' (print_parts p)
      ≡ format_int (pos p.major) ∷ format_int (pos p.minor) ∷ format_int (pos p.patch) ∷ []
split-print_parts p =
    split_digits (format_int (pos p.major)) _ (format_int-IsDigit p.major)
    ∙ ap (λ parts. format_int (pos p.major) ∷ parts)
        (split_digits (format_int (pos p.minor)) _ (format_int-IsDigit p.minor)
          ∙ ap (λ parts. format_int (pos p.minor) ∷ parts)
              (split_last (format_int (pos p.patch)) (format_int-IsDigit p.patch)))

numbers-print_parts :
    (p : SemverParts)
    → p.major < 2 ^ 63
    → p.minor < 2 ^ 63
    → p.patch < 2 ^ 63
    → numbers (split b'.' (print_parts p)) ≡ some p
unfolding numbers assemble
numbers-print_parts p h₁ h₂ h₃ =
    rw
      (
        split-print_parts p,
        atoi-format_int p.major h₁,
        atoi-format_int p.minor h₂,
        atoi-format_int p.patch h₃,
      )
      refl

-- The `v` that may stand in front.
abbrev pub lead : Bool → Bytes
lead true = codes "v"
lead false = []

trim_prefix-lead :
    (with_v : Bool) (c : ℕ) (cs : Bytes)
    → IsDigit c
    → trim_prefix (lead with_v ++ (c ∷ cs)) (codes "v") ≡ c ∷ cs
unfolding trim_prefix has_prefix
trim_prefix-lead true c cs d = refl
trim_prefix-lead false c cs d =
    let other_byte : (c == b'v') ≡ false = ground arith in rw other_byte refl

print_parts_cons : (p : SemverParts) → (c : ℕ) × (cs : Bytes) × IsDigit c × (print_parts p ≡ c ∷ cs)
unfolding format_int
print_parts_cons p =
    let (c, cs, digit, e) = decimal_cons (suc p.major) p.major [] (omega arith) in
    (
      c,
      cs ++ (b'.' ∷ (format_int (pos p.minor) ++ (b'.' ∷ format_int (pos p.patch)))),
      digit,
      rw e refl,
    )

strip-print_parts :
    (with_v : Bool) (p : SemverParts) (label : Label)
    → strip_labels (trim_prefix (lead with_v ++ (print_parts p ++ written label)) (codes "v"))
      ≡ print_parts p
strip-print_parts with_v p label =
    let (c, cs, digit, e) = print_parts_cons p in
    let trimmed : trim_prefix (lead with_v ++ (print_parts p ++ written label)) (codes "v")
        ≡ print_parts p ++ written label =
      subst
        (λ s. trim_prefix (lead with_v ++ (s ++ written label)) (codes "v") ≡ s ++ written label)
        (sym e) (trim_prefix-lead with_v c (cs ++ written label) digit) in
    ap strip_labels trimmed ∙ strip_labels_plain (print_parts p) label (print_parts-IsPlain p)

-- A text that is, without its outer white space, a version in decimal, with or without a `v` in
-- front and a label behind, is read as that version; its numbers are no larger than an `int`.
pub parse_semver-print_parts :
    (with_v : Bool) (p : SemverParts) (label : Label) (text : Bytes)
    → trim_space text ≡ lead with_v ++ (print_parts p ++ written label)
    → p.major < 2 ^ 63
    → p.minor < 2 ^ 63
    → p.patch < 2 ^ 63
    → parse_semver text ≡ some p
unfolding parse_semver
parse_semver-print_parts with_v p label text e h₁ h₂ h₃ =
    rw (e, strip-print_parts with_v p label) (numbers-print_parts p h₁ h₂ h₃)

-- ===== src/Diagnostics/Location.antt =====
-- `parseErrorLocation` reads what `addError` of the parser writes.
use serv_lang.Prelude.{
  ℕ, suc, ◌+◌, ◌^◌, ◌<◌, ◌≡◌, ◌≢◌, refl, sym, ap, ◌∙◌, subst, true, [], ◌∷◌, ◌++◌, some, Bytes,
  codes, length, take, drop, All, arith, lt→ltb,
}
use serv_lang.GoStrings.{has_prefix, trim_space, digits_value}
use serv_lang.Lexer.Cursor.{is_digit}
use serv_lang.Semver.RoundTrip.{IsDigit, digits_value-decimal, decimal-IsDigit, decimal_cons}
use serv_lang.Diagnostics.Hints.{index_of}
use serv_lang.Diagnostics.Format.{
  scan_digits, scan_number, scan_col, scan_location, located, parse_error_location, print_number,
  error_text,
}

digit_is : (c : ℕ) → IsDigit c → is_digit c ≡ true
unfolding is_digit
digit_is c h = ground arith

scan_digits_whole :
    (ds rest : Bytes)
    → All IsDigit ds
    → scan_digits rest ≡ ([], rest)
    → scan_digits (ds ++ rest) ≡ (ds, rest)
unfolding scan_digits
scan_digits_whole [] rest h stop = stop
scan_digits_whole (c ∷ ds) rest (d, h) stop = simp (digit_is c d, scan_digits_whole ds rest h stop)

take-append : (s t : Bytes) → take (length s) (s ++ t) ≡ s
take-append [] t = refl
take-append (c ∷ s) t = ap (λ r. c ∷ r) (take-append s t)

drop-append : (s t : Bytes) → drop (length s) (s ++ t) ≡ t
drop-append [] t = refl
drop-append (c ∷ s) t = drop-append s t

index_of-append :
    (s t : Bytes) (d : ℕ) → All (λ c. c ≢ d) s → index_of (s ++ (d ∷ t)) (d ∷ []) ≡ some (length s)
unfolding index_of has_prefix
index_of-append [] t d h = ground arith
index_of-append (c ∷ s) t d (other, h) = let further = index_of-append s t d h in ground arith

append_assoc : (r s t : Bytes) → (r ++ s) ++ t ≡ r ++ (s ++ t)
append_assoc [] s t = refl
append_assoc (c ∷ r) s t = ap (λ x. c ∷ x) (append_assoc r s t)

scan_number-print_number :
    (n : ℕ) (rest : Bytes)
    → n < 2 ^ 63
    → scan_digits rest ≡ ([], rest)
    → scan_number (print_number n ++ rest) ≡ some (n, rest)
unfolding scan_number print_number digits_value
scan_number-print_number n rest small stop =
    let (c, cs, digit, e) = decimal_cons (suc n) n [] (omega arith) in
    let digits = decimal-IsDigit (suc n) n [] tt in
    let value : digits_value 0 (c ∷ cs) ≡ some n =
      ap (digits_value 0) (sym e) ∙ digits_value-decimal (suc n) n [] (omega arith) in
    let scanned : scan_digits ((c ∷ cs) ++ rest) ≡ (c ∷ cs, rest) =
      scan_digits_whole (c ∷ cs) rest (subst (λ ds. All IsDigit ds) e digits) stop in
    ap (λ ds. scan_number (ds ++ rest)) e ∙ (simp (scanned, value, lt→ltb n (2 ^ 63) small))

-- What stands between the brackets, with the opening one.
abbrev opening : ℕ → ℕ → Bytes
opening line col = codes "[Line " ++ (print_number line ++ (codes ", Col " ++ print_number col))

opening-append :
    (line col rest : Bytes)
    → codes "[Line " ++ (line ++ (codes ", Col " ++ (col ++ rest)))
      ≡ (codes "[Line " ++ (line ++ (codes ", Col " ++ col))) ++ rest
opening-append line col rest =
    ap (λ s. codes "[Line " ++ s) (sym (append_assoc line (codes ", Col " ++ col) rest))

error_text-opening :
    (line col : ℕ) (msg : Bytes) → error_text line col msg ≡ opening line col ++ (b']' ∷ b' ' ∷ msg)
unfolding error_text
error_text-opening line col msg =
    opening-append (print_number line) (print_number col) (b']' ∷ b' ' ∷ msg)

All-append : (P : ℕ → Type 0) (s t : Bytes) → All P s → All P t → All P (s ++ t)
All-append P [] t hs ht = ht
All-append P (c ∷ s) t (h, hs) ht = (h, All-append P s t hs ht)

abbrev IsNoBracket : ℕ → Type 0
IsNoBracket c = c ≢ b']'

digits-IsNoBracket : (s : Bytes) → All IsDigit s → All IsNoBracket s
digits-IsNoBracket [] h = tt
digits-IsNoBracket (c ∷ s) (d, h) = (λ e. omega (d, e, arith), digits-IsNoBracket s h)

print_number-IsNoBracket : (n : ℕ) → All IsNoBracket (print_number n)
unfolding print_number
print_number-IsNoBracket n = digits-IsNoBracket _ (decimal-IsDigit (suc n) n [] tt)

opening-IsNoBracket : (line col : ℕ) → All IsNoBracket (opening line col)
opening-IsNoBracket line col = (
  (λ e. omega (e, arith)),
  (
    (λ e. omega (e, arith)),
    (
      (λ e. omega (e, arith)),
      (
        (λ e. omega (e, arith)),
        (
          (λ e. omega (e, arith)),
          (
            (λ e. omega (e, arith)),
            All-append IsNoBracket (print_number line) _ (print_number-IsNoBracket line) (
              (λ e. omega (e, arith)),
              (
                (λ e. omega (e, arith)),
                (
                  (λ e. omega (e, arith)),
                  (
                    (λ e. omega (e, arith)),
                    (
                      (λ e. omega (e, arith)),
                      ((λ e. omega (e, arith)), print_number-IsNoBracket col),
                    ),
                  ),
                ),
              ),
            ),
          ),
        ),
      ),
    ),
  ),
)

append_nil : (s : Bytes) → s ++ [] ≡ s
append_nil [] = refl
append_nil (c ∷ s) = ap (λ r. c ∷ r) (append_nil s)

scan_location-opening :
    (line col : ℕ)
    → line < 2 ^ 63
    → col < 2 ^ 63
    → scan_location (drop 1 (opening line col)) ≡ (line, col)
unfolding scan_location scan_col has_prefix
scan_location-opening line col small_line small_col =
    let stop : scan_digits (codes ", Col " ++ print_number col)
        ≡ ([], codes ", Col " ++ print_number col) =
      unfold scan_digits is_digit in refl in
    let last =
      ap scan_number (sym (append_nil (print_number col)))
      ∙ scan_number-print_number col [] small_col (unfold scan_digits in refl) in
    simp (scan_number-print_number line (codes ", Col " ++ print_number col) small_line stop, last)

drop_past : (s : Bytes) (d : ℕ) (t : Bytes) → drop (length s + 1) (s ++ (d ∷ t)) ≡ t
drop_past s d t =
    let next : length s + 1 ≡ suc (length s) = omega arith in
    ap (λ n. drop n (s ++ (d ∷ t))) next ∙ drop_next s
  where
    drop_next : (s : Bytes) → drop (suc (length s)) (s ++ (d ∷ t)) ≡ t
    drop_next [] = refl
    drop_next (c ∷ s) = drop_next s

located-append :
    (c : ℕ) (front rest : Bytes) (line col : ℕ)
    → scan_location front ≡ (line, col)
    → located ((c ∷ front) ++ (b']' ∷ rest)) (some (length (c ∷ front)))
      ≡ (line, col, trim_space rest)
unfolding located
located-append c front rest line col scanned = simp (
  take-append front (b']' ∷ rest),
  scanned,
  lt→ltb 0 (length (c ∷ front)) (omega arith),
  drop_past (c ∷ front) b']' rest,
)

starts_location :
    (err : Bytes)
    → has_prefix err (codes "[Line ") ≡ true
    → parse_error_location err ≡ located err (index_of err (codes "]"))
unfolding parse_error_location
starts_location err h = simp h

-- The line and the column that `addError` writes in front of a message are read back, and the rest is
-- the message without the white space around it. Both are in the range of `int`.
pub parse_error_location-error_text :
    (line col : ℕ) (msg : Bytes)
    → line < 2 ^ 63
    → col < 2 ^ 63
    → parse_error_location (error_text line col msg) ≡ (line, col, trim_space (b' ' ∷ msg))
parse_error_location-error_text line col msg small_line small_col =
    let found =
      index_of-append (opening line col) (b' ' ∷ msg) b']' (opening-IsNoBracket line col) in
    ap parse_error_location (error_text-opening line col msg)
    ∙ (starts_location (opening line col ++ (b']' ∷ b' ' ∷ msg)) (unfold has_prefix in refl)
        ∙ (ap (located (opening line col ++ (b']' ∷ b' ' ∷ msg))) found
            ∙ located-append b'[' _ (b' ' ∷ msg) line col
                (scan_location-opening line col small_line small_col)))

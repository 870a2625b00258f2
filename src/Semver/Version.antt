-- ===== src/Semver/Version.antt =====
-- The functions of runtime/semver.go, on texts: `toString` gives a string as it is.
use serv_lang.Prelude.{
  ℕ, ◌+◌, ◌^◌, Bool, true, false, not, ◌&&◌, ◌||◌, List, [], ◌∷◌, Option, none, some, Bytes, codes,
  equal, ◌==◌, ltb, leb, if◌then◌else◌,
}
use serv_lang.Prelude.Int.{ℤ, pos, negsuc, ltb_ℤ}
use serv_lang.GoStrings.{trim_space, trim_prefix, has_prefix, before_any, split, digits_value}

pub record SemverParts : Type 0 where
  pub major : ℕ
  pub minor : ℕ
  pub patch : ℕ

unfoldable pub in_range : Option ℕ → Option ℕ
in_range none = none
in_range (some n) = if ltb n (2 ^ 63) then some n else none

-- `strconv.Atoi` of a text that has lost its signs, as every text has behind `strip_labels`.
unfoldable pub atoi : Bytes → Option ℕ
unfolding in_range digits_value
atoi [] = none
atoi (c ∷ cs) = in_range (digits_value 0 (c ∷ cs))

unfoldable pub assemble : Option ℕ → Option ℕ → Option ℕ → Option SemverParts
assemble (some a) (some b) (some c) = some (record { major = a; minor = b; patch = c })
assemble _ _ _ = none

-- The first three parts; further ones are ignored.
unfoldable pub numbers : List Bytes → Option SemverParts
unfolding assemble atoi
numbers (a ∷ b ∷ c ∷ more) = assemble (atoi a) (atoi b) (atoi c)
numbers _ = none

-- `v[:idx]` for the first of the bytes `-` and `+`
unfoldable pub strip_labels : Bytes → Bytes
unfolding before_any
strip_labels = before_any (λ c. c == b'-' || c == b'+')

unfoldable pub parse_semver : Bytes → Option SemverParts
unfolding numbers split strip_labels trim_prefix trim_space
parse_semver v = numbers (split b'.' (strip_labels (trim_prefix (trim_space v) (codes "v"))))

-- The comparison of `SemverCompare`, and `compareParts` of `SemverSatisfies`.
unfoldable pub compare_parts : SemverParts → SemverParts → ℤ
compare_parts a b =
    if not (a.major == b.major)
    then if ltb a.major b.major then negsuc 0 else pos 1
    else if not (a.minor == b.minor)
    then if ltb a.minor b.minor then negsuc 0 else pos 1
    else if not (a.patch == b.patch)
    then if ltb a.patch b.patch then negsuc 0 else pos 1
    else pos 0

unfoldable pub compare_options : Option SemverParts → Option SemverParts → Option ℤ
unfolding compare_parts
compare_options (some a) (some b) = some (compare_parts a b)
compare_options _ _ = none

-- `SemverCompare`; `none` stands for the pair of nil and an error.
unfoldable pub semver_compare : Bytes → Bytes → Option ℤ
unfolding compare_options parse_semver
semver_compare v1 v2 = compare_options (parse_semver v1) (parse_semver v2)

-- `vp.major >= tp.major+1`, where the sum wraps to the least integer.
unfoldable pub reaches_next : ℕ → ℕ → Bool
reaches_next a b = b + 1 == 2 ^ 63 || leb (b + 1) a

unfoldable pub at_least : SemverParts → SemverParts → Bool
unfolding compare_parts
at_least a b = not (ltb_ℤ (compare_parts a b) (pos 0))

unfoldable pub at_most : SemverParts → SemverParts → Bool
unfolding compare_parts
at_most a b = not (ltb_ℤ (pos 0) (compare_parts a b))

unfoldable pub same_parts : SemverParts → SemverParts → Bool
unfolding at_least at_most
same_parts a b = at_least a b && at_most a b

unfoldable pub caret : SemverParts → SemverParts → Bool
unfolding at_least reaches_next
caret vp tp = at_least vp tp && not (reaches_next vp.major tp.major)

unfoldable pub tilde : SemverParts → SemverParts → Bool
unfolding at_least reaches_next
tilde vp tp = at_least vp tp && not (not (vp.major == tp.major) || reaches_next vp.minor tp.minor)

-- `ok && …` on a parsed target
unfoldable pub against : (SemverParts → Bool) → Option SemverParts → Bool
against test none = false
against test (some tp) = test tp

-- `SemverSatisfies` behind the parsing of the version, on the trimmed range.
unfoldable pub in_semver_range : Bytes → SemverParts → Bool
unfolding has_prefix trim_prefix parse_semver against caret tilde at_least at_most same_parts equal
in_semver_range r vp =
    let target = λ (op : Bytes). parse_semver (trim_prefix r op) in
    if equal r (codes "*") || equal r []
    then true
    else if has_prefix r (codes "^")
    then against (caret vp) (target (codes "^"))
    else if has_prefix r (codes "~")
    then against (tilde vp) (target (codes "~"))
    else if has_prefix r (codes ">=")
    then against (at_least vp) (target (codes ">="))
    else if has_prefix r (codes "<=")
    then against (at_most vp) (target (codes "<="))
    else if has_prefix r (codes ">")
    then against (λ tp. not (at_most vp tp)) (target (codes ">"))
    else if has_prefix r (codes "<")
    then against (λ tp. not (at_least vp tp)) (target (codes "<"))
    else if has_prefix r (codes "=")
    then against (same_parts vp) (target (codes "="))
    else against (same_parts vp) (parse_semver r)

unfoldable pub semver_satisfies : Bytes → Bytes → Bool
unfolding in_semver_range parse_semver against trim_space
semver_satisfies range version =
    against (in_semver_range (trim_space range)) (parse_semver (trim_space version))

unfoldable pub as_map : {F : Type 0} → (ℕ → F) → Option SemverParts → Option (List (Bytes × F))
as_map float none = none
as_map float (some p) = some (
    (codes "major", float p.major)
    ∷ (codes "minor", float p.minor)
    ∷ (codes "patch", float p.patch)
    ∷ [])

-- `SemverParse`, over the conversion to floats; `none` stands for the pair of nil and an error.
unfoldable pub semver_parse : {F : Type 0} → (ℕ → F) → Bytes → Option (List (Bytes × F))
unfolding as_map parse_semver
semver_parse float version = as_map float (parse_semver version)

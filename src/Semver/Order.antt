-- ===== src/Semver/Order.antt =====
-- `SemverCompare` of runtime/semver.go orders versions lexicographically.
use serv_lang.Prelude.{◌<◌, ◌≡◌, ◌↔◌, ◌⊎◌, Option, none, some, Bytes, arith}
use serv_lang.Prelude.Int.{ℤ, pos, negsuc}
use serv_lang.Semver.Version.{
  SemverParts, compare_parts, compare_options, parse_semver, semver_compare,
}

-- The order of the parts, by the first in which they differ.
abbrev pub Precedes : SemverParts → SemverParts → Type 0
Precedes a b =
    (a.major < b.major)
    ⊎ (a.major ≡ b.major) × ((a.minor < b.minor) ⊎ (a.minor ≡ b.minor) × (a.patch < b.patch))

pub parts_ext :
    (a b : SemverParts) → a.major ≡ b.major → a.minor ≡ b.minor → a.patch ≡ b.patch → a ≡ b
parts_ext a b p q r = λ i. record { major = p i; minor = q i; patch = r i }

pub compare_parts_before : (a b : SemverParts) → (compare_parts a b ≡ negsuc 0) ↔ Precedes a b
unfolding compare_parts
compare_parts_before a b = ground arith

pub compare_parts_after : (a b : SemverParts) → (compare_parts a b ≡ pos 1) ↔ Precedes b a
unfolding compare_parts
compare_parts_after a b = ground arith

pub compare_parts_same : (a b : SemverParts) → (compare_parts a b ≡ pos 0) ↔ (a ≡ b)
unfolding compare_parts
compare_parts_same a b = ground (arith, parts_ext a b)

iff_trans : {A B C : Type 0} → A ↔ B → B ↔ C → A ↔ C
iff_trans f g = (λ a. g.0 (f.0 a), λ c. f.1 (g.1 c))

compare_options_iff :
    (a b : SemverParts) (z : ℤ)
    → (compare_options (some a) (some b) ≡ some z) ↔ (compare_parts a b ≡ z)
unfolding compare_options
compare_options_iff a b z = ground arith

-- Of two texts that parse, the comparison is -1 where the first version precedes the second, 0
-- where they are equal and 1 where the second precedes the first.
pub semver_compare_lem :
    (v1 v2 : Bytes) (a b : SemverParts)
    → parse_semver v1 ≡ some a
    → parse_semver v2 ≡ some b
    → ((semver_compare v1 v2 ≡ some (negsuc 0)) ↔ Precedes a b)
      × ((semver_compare v1 v2 ≡ some (pos 0)) ↔ (a ≡ b))
      × ((semver_compare v1 v2 ≡ some (pos 1)) ↔ Precedes b a)
unfolding semver_compare
semver_compare_lem v1 v2 a b p q =
    rw (p, q)
      (
        iff_trans (compare_options_iff a b (negsuc 0)) (compare_parts_before a b),
        iff_trans (compare_options_iff a b (pos 0)) (compare_parts_same a b),
        iff_trans (compare_options_iff a b (pos 1)) (compare_parts_after a b),
      )

compare_options_flip :
    (a b : Option SemverParts)
    → (compare_options a b ≡ some (negsuc 0)) ↔ (compare_options b a ≡ some (pos 1))
unfolding compare_options
compare_options_flip (some a) (some b) =
    let before = iff_trans (compare_options_iff a b (negsuc 0)) (compare_parts_before a b) in
    let after = iff_trans (compare_options_iff b a (pos 1)) (compare_parts_after b a) in
    (λ e. after.1 (before.0 e), λ e. before.1 (after.0 e))
compare_options_flip none none = ground arith
compare_options_flip none (some b) = ground arith
compare_options_flip (some a) none = ground arith

-- Whatever the texts are, the first comes before the second just where the comparison the other way
-- round says that it comes after it.
pub semver_compare_flip :
    (v1 v2 : Bytes)
    → (semver_compare v1 v2 ≡ some (negsuc 0)) ↔ (semver_compare v2 v1 ≡ some (pos 1))
unfolding semver_compare
semver_compare_flip v1 v2 = compare_options_flip (parse_semver v1) (parse_semver v2)

-- ===== src/Semver/Ranges.antt =====
-- What the ranges of `SemverSatisfies` admit.
use serv_lang.Prelude.{
  ℕ, ◌+◌, ◌^◌, ◌≤◌, ◌<◌, ◌≡◌, ◌↔◌, refl, Bool, true, false, not, ◌&&◌, ◌||◌, [], ◌∷◌, ◌++◌, some,
  Bytes, codes, equal, ◌==◌, arith,
}
use serv_lang.GoStrings.{trim_space, trim_prefix, has_prefix}
use serv_lang.Semver.Version.{
  SemverParts, compare_parts, parse_semver, reaches_next, at_least, at_most, same_parts, caret,
  tilde, against, in_semver_range, semver_satisfies,
}
use serv_lang.Semver.Order.{Precedes, parts_ext}

-- The requirements that a range can make, and how each is written in front of a version.
pub data Requirement : Type 0 where
  compatible close not_below not_above above below exactly bare : Requirement

abbrev pub spelled : Requirement → Bytes
spelled compatible = codes "^"
spelled close = codes "~"
spelled not_below = codes ">="
spelled not_above = codes "<="
spelled above = codes ">"
spelled below = codes "<"
spelled exactly = codes "="
spelled bare = []

-- The versions `p` that a requirement admits for the version `q` it names.
abbrev pub Admits : Requirement → SemverParts → SemverParts → Type 0
Admits compatible p q = (¬ Precedes p q) × (p.major ≡ q.major)
Admits close p q = (p.major ≡ q.major) × (p.minor ≡ q.minor) × (q.patch ≤ p.patch)
Admits not_below p q = ¬ Precedes p q
Admits not_above p q = ¬ Precedes q p
Admits above p q = Precedes q p
Admits below p q = Precedes p q
Admits exactly p q = p ≡ q
Admits bare p q = p ≡ q

-- A version text begins with none of the bytes that begin a requirement.
unfoldable pub plain : Bytes → Bool
plain [] = false
plain (c ∷ cs) = not (c == b'^' || c == b'~' || c == b'>' || c == b'<' || c == b'=' || c == b'*')

abbrev test_of : Requirement → SemverParts → SemverParts → Bool
test_of compatible p q = caret p q
test_of close p q = tilde p q
test_of not_below p q = at_least p q
test_of not_above p q = at_most p q
test_of above p q = not (at_most p q)
test_of below p q = not (at_least p q)
test_of exactly p q = same_parts p q
test_of bare p q = same_parts p q

and_false : (b : Bool) → b && false ≡ false
and_false b = ground arith

not_equals : (c : ℕ) (cs : Bytes) → plain (c ∷ cs) ≡ true → (c == b'=') ≡ false
unfolding plain
not_equals c cs h = ground arith

no_operator :
    (c : ℕ) (cs : Bytes)
    → plain (c ∷ cs) ≡ true
    → ((c == b'^') ≡ false)
      × ((c == b'~') ≡ false)
      × ((c == b'>') ≡ false)
      × ((c == b'<') ≡ false)
      × ((c == b'*') ≡ false)
unfolding plain
no_operator c cs h = ground arith

in_semver_range_lem :
    (op : Requirement) (t : Bytes) (p : SemverParts)
    → plain t ≡ true
    → in_semver_range (spelled op ++ t) p ≡ against (test_of op p) (parse_semver t)
unfolding in_semver_range plain has_prefix trim_prefix equal
in_semver_range_lem op [] p h = ground arith
in_semver_range_lem compatible (c ∷ cs) p h = refl
in_semver_range_lem close (c ∷ cs) p h = refl
in_semver_range_lem not_below (c ∷ cs) p h = refl
in_semver_range_lem not_above (c ∷ cs) p h = refl
in_semver_range_lem above (c ∷ cs) p h = rw (not_equals c cs h) refl
in_semver_range_lem below (c ∷ cs) p h = rw (not_equals c cs h) refl
in_semver_range_lem exactly (c ∷ cs) p h = refl
in_semver_range_lem bare (c ∷ cs) p h =
    let (caret_no, tilde_no, above_no, below_no, star_no) = no_operator c cs h in
    rw (caret_no, tilde_no, above_no, below_no, star_no, and_false (equal cs []))
      (rw (not_equals c cs h) refl)

at_least_iff : (p q : SemverParts) → (at_least p q ≡ true) ↔ ¬ Precedes p q
unfolding at_least compare_parts
at_least_iff p q = ground arith

at_most_iff : (p q : SemverParts) → (at_most p q ≡ true) ↔ ¬ Precedes q p
unfolding at_most compare_parts
at_most_iff p q = ground arith

reaches_next_iff : (a b : ℕ) → b + 1 < 2 ^ 63 → (reaches_next a b ≡ false) ↔ (a ≤ b)
unfolding reaches_next
reaches_next_iff a b h = ground arith

test_of_iff :
    (op : Requirement) (p q : SemverParts)
    → q.major + 1 < 2 ^ 63
    → q.minor + 1 < 2 ^ 63
    → (test_of op p q ≡ true) ↔ Admits op p q
unfolding caret tilde same_parts reaches_next at_least at_most compare_parts
test_of_iff compatible p q h g = ground arith
test_of_iff close p q h g = ground arith
test_of_iff not_below p q h g = at_least_iff p q
test_of_iff not_above p q h g = at_most_iff p q
test_of_iff above p q h g = ground arith
test_of_iff below p q h g = ground arith
test_of_iff exactly p q h g = ground (arith, parts_ext p q)
test_of_iff bare p q h g = ground (arith, parts_ext p q)

-- A range that is, without its outer white space, a requirement's sign and a plain version text
-- admits a version just where the two versions stand as the requirement says: `^` asks for the same
-- major number and no earlier version, `~` also for the same minor number, a comparison for itself,
-- and `=` or no sign for the same version. The numbers of the target lie below the largest integer.
pub semver_satisfies_iff :
    (op : Requirement) (range t version : Bytes) (p q : SemverParts)
    → trim_space range ≡ spelled op ++ t
    → plain t ≡ true
    → parse_semver (trim_space version) ≡ some p
    → parse_semver t ≡ some q
    → q.major + 1 < 2 ^ 63
    → q.minor + 1 < 2 ^ 63
    → (semver_satisfies range version ≡ true) ↔ Admits op p q
unfolding semver_satisfies against
semver_satisfies_iff op range t version p q r h e f g k =
    rw (e, r, in_semver_range_lem op t p h, f) (test_of_iff op p q g k)

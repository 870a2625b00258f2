-- ===== src/Semver/Tests.antt =====
-- Versions and ranges of runtime/semver.go at concrete texts.
use serv_lang.Prelude.{◌≡◌, ◌↔◌, refl, true, some, codes, arith}
use serv_lang.Prelude.Int.{pos, negsuc}
use serv_lang.GoStrings.{trim_space, has_prefix}
use serv_lang.GoInt.{format_int}
use serv_lang.Semver.Version.{
  SemverParts, in_range, atoi, assemble, numbers, parse_semver, semver_compare, semver_satisfies,
}
use serv_lang.Semver.Order.{Precedes, semver_compare_lem}
use serv_lang.Semver.Ranges.{compatible, Admits, plain, semver_satisfies_iff}
use serv_lang.Semver.RoundTrip.{pre_release, parse_semver-print_parts}

abbrev v120 : SemverParts
v120 = record { major = 1; minor = 2; patch = 0 }

abbrev v1100 : SemverParts
v1100 = record { major = 1; minor = 10; patch = 0 }

parse_semver-print_parts_example : parse_semver (codes " v1.10.0-rc\n") ≡ some v1100
unfolding trim_space format_int
parse_semver-print_parts_example =
    parse_semver-print_parts true v1100 (pre_release (codes "rc")) (codes " v1.10.0-rc\n") refl
      (omega arith) (omega arith) (omega arith)

semver_satisfies_iff_example :
    (semver_satisfies (codes " ^1.2.0") (codes "1.10.0") ≡ true) ↔ Admits compatible v1100 v120
unfolding trim_space plain parse_semver numbers assemble atoi in_range has_prefix
semver_satisfies_iff_example =
    semver_satisfies_iff compatible (codes " ^1.2.0") (codes "1.2.0") (codes "1.10.0") v1100 v120
      refl refl refl refl (omega arith) (omega arith)

semver_compare_lem_example :
    ((semver_compare (codes "1.2.0") (codes "1.10.0") ≡ some (negsuc 0)) ↔ Precedes v120 v1100)
    × ((semver_compare (codes "1.2.0") (codes "1.10.0") ≡ some (pos 0)) ↔ (v120 ≡ v1100))
    × ((semver_compare (codes "1.2.0") (codes "1.10.0") ≡ some (pos 1)) ↔ Precedes v1100 v120)
unfolding parse_semver numbers assemble atoi in_range has_prefix
semver_compare_lem_example =
    semver_compare_lem (codes "1.2.0") (codes "1.10.0") v120 v1100 refl refl

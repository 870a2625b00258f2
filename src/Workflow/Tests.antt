-- ===== src/Workflow/Tests.antt =====
-- Workflows on a database that is a list of rows.
use serv_lang.Prelude.{
  ℕ, suc, ◌≡◌, ◌≢◌, refl, subst, true, false, ◌&&◌, List, [], ◌∷◌, Option, none, some, Bytes, codes,
  equal, equal_iff, ◌==◌, ==_iff, if◌then◌else◌, arith, Bool-cases, inl, inr,
}
use mathlib.Core.Option.{some-injective}
use serv_lang.Workflow.Step.{
  Database, IsLawful, Json, Flow, returns, takes, Run, stored_value, record_step, step, run,
  run_until,
}
use serv_lang.Workflow.Replay.{IsFresh, StepsKeep, run-run_until, step-replayed}

abbrev Rows : Type 0
Rows = List (Bytes × ℕ × Bytes)

find_row : Rows → Bytes → ℕ → Option Bytes
find_row [] id i = none
find_row ((id', i', r) ∷ rows) id i =
    let further = find_row rows id i in if equal id' id && i' == i then some r else further

abbrev add_row : Rows → Bytes → ℕ → Bytes → Option Bytes → Rows
add_row rows id i r none = (id, i, r) ∷ rows
add_row rows id i r (some q) = rows

-- The tables of the tests: instances are counted only.
abbrev rows : Database
rows = record {
  State = Rows × ℕ;
  select_step = λ s id i. find_row s.0 id i;
  insert_step = λ s id i r. (add_row s.0 id i r (find_row s.0 id i), s.1);
  count_instances = λ s. s.1;
  insert_instance = λ s id name param. (s.0, suc s.1);
  update_status = λ s id status. s;
}

equal_refl : (s : Bytes) → equal s s ≡ true
equal_refl s = (equal_iff s s).1 refl

not_equal : (s t : Bytes) → s ≢ t → equal s t ≡ false
not_equal s t apart = elim (Bool-cases (equal s t)) [
  | inl same ↦ absurd (apart ((equal_iff s t).0 same))
  | inr other ↦ other
]

find_row-add_row :
    (db : Rows) (id other : Bytes) (i j : ℕ) (r : Bytes) (found : Option Bytes)
    → (equal id other && i == j) ≡ false
    → find_row (add_row db id i r found) other j ≡ find_row db other j
unfolding find_row
find_row-add_row db id other i j r none apart = simp apart
find_row-add_row db id other i j r (some q) apart = refl

rows-IsLawful : IsLawful rows
unfolding find_row
rows-IsLawful = record {
  select_new = λ s id i r new. simp (new, equal_refl id, (==_iff i i).1 refl);
  select_kept = λ s id i r q old. simp old;
  select_other_step = λ s id i j r apart. find_row-add_row s.0 id id i j r _ (ground arith);
  select_other_instance = λ s id other i j r apart.
      find_row-add_row s.0 id other i j r _ (rw (not_equal id other apart) refl);
}

-- Numbers, of which JSON makes floats.
data Number : Type 0 where
  integer float : ℕ → Number

abbrev numbers : Json Number
numbers = record { encode = digits; decode = first; raw_value = λ s. float 0 }
  where
    digits : Number → Bytes
    digits (integer n) = n ∷ []
    digits (float n) = n ∷ []

    first : Bytes → Option Number
    first [] = none
    first (n ∷ _) = some (float n)

-- A workflow of two steps, each of which counts the world up and returns what it found there.
abbrev count_float : ℕ → Option Number × ℕ
count_float w = (some (float w), suc w)

abbrev count_integer : ℕ → Option Number × ℕ
count_integer w = (some (integer w), suc w)

abbrev two_steps : Flow Number ℕ
two_steps = takes count_float (λ a. takes count_float (λ b. returns a))

count-keeps :
    (w : ℕ) (v : Number) → (count_float w).0 ≡ some v → stored_value numbers (numbers.encode v) ≡ v
unfolding stored_value
count-keeps w v e =
    subst (λ u. stored_value numbers (numbers.encode u) ≡ u) (some-injective _ _ e) refl

two_steps-StepsKeep : StepsKeep numbers two_steps
unfolding StepsKeep
two_steps-StepsKeep = (count-keeps, λ a. (count-keeps, λ b. tt))

abbrev at_start : Run rows ℕ
at_start = record { db = ([], 0); world = 5 }

at_start-IsFresh : IsFresh rows (codes "pay-1") 0 at_start.db
unfolding find_row
at_start-IsFresh j h = refl

-- What the process left behind the first step.
abbrev behind_one : Run rows ℕ
behind_one = (step rows numbers (codes "pay-1") 0 count_float at_start).1

run-run_until_example :
    run rows numbers (codes "pay-1") 0 two_steps behind_one
    ≡ run rows numbers (codes "pay-1") 0 two_steps at_start
unfolding run_until step record_step find_row
run-run_until_example =
    run-run_until rows rows-IsLawful numbers 1 (codes "pay-1") 0 two_steps at_start behind_one
      two_steps-StepsKeep at_start-IsFresh refl

step-replayed_example :
    step rows numbers
      (codes "pay-1")
      0
      count_integer
      ((step rows numbers (codes "pay-1") 0 count_integer at_start).1)
    ≡ (
      some (stored_value numbers (numbers.encode (integer 5))),
      (step rows numbers (codes "pay-1") 0 count_integer at_start).1,
    )
unfolding step record_step find_row
step-replayed_example =
    step-replayed rows rows-IsLawful numbers (codes "pay-1") 0 count_integer count_integer at_start
      (integer 5) refl refl

-- An integer is a float on the replay.
integer_becomes_float : stored_value numbers (numbers.encode (integer 5)) ≡ float 5
unfolding stored_value
integer_becomes_float = refl

-- ===== src/Workflow/Step.antt =====
-- `WorkflowCtx`, `Step`, the registry and `StartWorkflow` of runtime/workflow.go. The database and JSON
-- are parameters; a database that refuses a statement is left out, since its errors are dropped.
use serv_lang.Prelude.{
  ℕ, zero, suc, ◌+◌, ◌≡◌, ◌≢◌, List, [], ◌∷◌, ◌++◌, Option, none, some, Bytes, codes, equal,
  if◌then◌else◌,
}
use serv_lang.GoInt.{decimal}

pub data Status : Type 0 where
  running completed failed : Status

-- The two tables of the database.
pub record Database : Type 1 where
  pub State : Type 0
  pub select_step : State → Bytes → ℕ → Option Bytes
  pub insert_step : State → Bytes → ℕ → Bytes → State
  pub count_instances : State → ℕ
  pub insert_instance : State → Bytes → Bytes → Bytes → State
  pub update_status : State → Bytes → Status → State

-- What the steps rely on: `(instance_id, step_index)` is a primary key, and `INSERT OR IGNORE` keeps a
-- row that is there.
pub record IsLawful (D : Database) : Type 0 where
  pub select_new :
      (s : D.State) (id : Bytes) (i : ℕ) (r : Bytes)
      → D.select_step s id i ≡ none
      → D.select_step (D.insert_step s id i r) id i ≡ some r
  pub select_kept :
      (s : D.State) (id : Bytes) (i : ℕ) (r q : Bytes)
      → D.select_step s id i ≡ some q
      → D.select_step (D.insert_step s id i r) id i ≡ some q
  pub select_other_step :
      (s : D.State) (id : Bytes) (i j : ℕ) (r : Bytes)
      → i ≢ j
      → D.select_step (D.insert_step s id i r) id j ≡ D.select_step s id j
  pub select_other_instance :
      (s : D.State) (id other : Bytes) (i j : ℕ) (r : Bytes)
      → id ≢ other
      → D.select_step (D.insert_step s id i r) other j ≡ D.select_step s other j

-- `json.Marshal` and `json.Unmarshal`; `raw_value` is a text as a value.
pub record Json (Value : Type 0) : Type 0 where
  pub encode : Value → Bytes
  pub decode : Bytes → Option Value
  pub raw_value : Bytes → Value

-- What a step runs, in a world that it changes; `none` is a panic.
abbrev pub StepFn : Type 0 → Type 0 → Type 0
StepFn Value World = World → Option Value × World

-- What a workflow does between its steps is the step that it takes next, by the results so far.
pub data Flow (Value World : Type 0) : Type 0 where
  returns : Value → Flow Value World
  panics : Flow Value World
  takes : StepFn Value World → (Value → Flow Value World) → Flow Value World

-- The database and the world that a workflow runs in.
pub record Run (D : Database) (World : Type 0) : Type 0 where
  pub db : D.State
  pub world : World

-- A value that is read back, or its text where it is no JSON.
unfoldable pub stored_value : {Value : Type 0} → Json Value → Bytes → Value
stored_value {Value = Value} J raw = or_raw (J.decode raw)
  where
    or_raw : Option Value → Value
    or_raw (some v) = v
    or_raw none = J.raw_value raw

-- `WorkflowFn`, and the registry.
abbrev pub WorkflowFn : Type 0 → Type 0 → Type 0
WorkflowFn Value World = Value → Flow Value World

abbrev pub Registry : Type 0 → Type 0 → Type 0
Registry Value World = List (Bytes × WorkflowFn Value World)

module _ {Value World : Type 0} where
  -- `RegisterWorkflow`: a later function takes the place of an earlier one.
  unfoldable pub register_workflow :
      Bytes → WorkflowFn Value World → Registry Value World → Registry Value World
  register_workflow name fn registry = (name, fn) ∷ registry

  unfoldable pub find_workflow : Bytes → Registry Value World → Option (WorkflowFn Value World)
  unfolding equal
  find_workflow name [] = none
  find_workflow name ((n, fn) ∷ rest) =
      let further = find_workflow name rest in if equal n name then some fn else further

-- `%s-%d`
unfoldable pub instance_id : Bytes → ℕ → Bytes
unfolding decimal
instance_id name n = name ++ (codes "-" ++ decimal (suc n) n [])

abbrev pub status_of : {Value : Type 0} → Option Value → Status
status_of none = failed
status_of (some v) = completed

module _ (D : Database) {Value World : Type 0} (J : Json Value) where
  -- A step whose function has run: its result is stored, unless the function has panicked.
  unfoldable pub record_step :
      Bytes → ℕ → D.State → Option Value → World → Option Value × Run D World
  record_step id i db (some v) w =
      (some v, record { db = D.insert_step db id i (J.encode v); world = w })
  record_step id i db none w = (none, record { db = db; world = w })

  -- `Step` at the index `i`; `none` is a panic.
  unfoldable pub step : Bytes → ℕ → StepFn Value World → Run D World → Option Value × Run D World
  unfolding stored_value record_step
  step id i fn r = by_row (D.select_step (r.db) id i)
    where
      by_row : Option Bytes → Option Value × Run D World
      by_row (some raw) = (some (stored_value J raw), r)
      by_row none = record_step id i (r.db) (fn (r.world)).0 (fn (r.world)).1

  -- A workflow from the step `i` on; `none` is a panic.
  unfoldable pub run : Bytes → ℕ → Flow Value World → Run D World → Option Value × Run D World
  unfolding step
  run id i (returns v) r = (some v, r)
  run id i panics r = (none, r)
  run id i (takes fn k) r =
      let r₁ = (step id i fn r).1 in
      elim (step id i fn r).0 [ none ↦ (none, r₁) | some v ↦ run id (suc i) (k v) r₁ ]

  -- What a process leaves that ends behind `n` steps; `none` where the workflow has panicked by then.
  unfoldable pub run_until : ℕ → Bytes → ℕ → Flow Value World → Run D World → Option (Run D World)
  unfolding step
  run_until zero id i flow r = some r
  run_until (suc n) id i (returns v) r = some r
  run_until (suc n) id i panics r = none
  run_until (suc n) id i (takes fn k) r =
      let r₁ = (step id i fn r).1 in
      elim (step id i fn r).0 [ none ↦ none | some v ↦ run_until n id (suc i) (k v) r₁ ]

  -- The goroutine of an instance, to its end.
  unfoldable pub run_instance : Bytes → WorkflowFn Value World → Value → Run D World → Run D World
  unfolding run
  run_instance id fn param r =
      let (result, r₁) = run id 0 (fn param) r in
      record r₁ { db = D.update_status (r₁.db) id (status_of result) }

  -- `StartWorkflow` up to its goroutine: the instance that it makes, with its function.
  unfoldable pub start_workflow :
      Registry Value World
      → Bytes
      → Value
      → D.State
      → Option (Bytes × WorkflowFn Value World) × D.State
  unfolding find_workflow instance_id
  start_workflow registry name param db = started (find_workflow name registry)
    where
      started : Option (WorkflowFn Value World) → Option (Bytes × WorkflowFn Value World) × D.State
      started none = (none, db)
      started (some fn) =
          let id = instance_id name (D.count_instances db + 1) in
          (some (id, fn), D.insert_instance db id name (J.encode param))

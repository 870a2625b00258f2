-- ===== src/Workflow/Replay.antt =====
-- What a workflow does when it is run again.
use serv_lang.Prelude.{
  ℕ, zero, suc, ◌≤◌, ◌<◌, ◌≡◌, ◌≢◌, refl, ap, sym, ◌∙◌, Option, none, some, Bytes, arith,
  Option-cases, inl, inr,
}
use mathlib.Core.Option.{some-injective}
use serv_lang.Workflow.Step.{
  Database, IsLawful, Json, StepFn, Flow, returns, panics, takes, Run, stored_value, record_step,
  step, run, run_until,
}

-- No step from `i` on has a row.
abbrev pub IsFresh : (D : Database) → Bytes → ℕ → D.State → Type 0
IsFresh D id i db = (j : ℕ) → i ≤ j → D.select_step db id j ≡ none

-- What the steps of a workflow may return is read back as it was written. Texts, truth values, floats and
-- lists of them are, integers are not: they come back as floats.
unfoldable pub StepsKeep : {Value World : Type 0} → Json Value → Flow Value World → Type 0
StepsKeep J (returns v) = Unit
StepsKeep J panics = Unit
StepsKeep {Value} {World} J (takes fn k) =
    ((w : World) (v : Value) → (fn w).0 ≡ some v → stored_value J (J.encode v) ≡ v)
    × ((v : Value) → StepsKeep J (k v))

module _ (D : Database) (law : IsLawful D) {Value World : Type 0} (J : Json Value) where
  step-new :
      (id : Bytes) (i : ℕ) (fn : StepFn Value World) (r : Run D World)
      → D.select_step (r.db) id i ≡ none
      → step D J id i fn r ≡ record_step D J id i (r.db) (fn (r.world)).0 (fn (r.world)).1
  unfolding step
  step-new id i fn r e = simp e

  step-old :
      (id : Bytes) (i : ℕ) (fn : StepFn Value World) (r : Run D World) (raw : Bytes)
      → D.select_step (r.db) id i ≡ some raw
      → step D J id i fn r ≡ (some (stored_value J raw), r)
  unfolding step
  step-old id i fn r raw e = simp e

  record_step-other :
      (id : Bytes) (i j : ℕ) (db : D.State) (o : Option Value) (w : World)
      → i ≢ j
      → D.select_step ((record_step D J id i db o w).1.db) id j ≡ D.select_step db id j
  unfolding record_step
  record_step-other id i j db none w other = refl
  record_step-other id i j db (some v) w other = law.select_other_step db id i j _ other

  record_step-result :
      (id : Bytes) (i : ℕ) (db : D.State) (o : Option Value) (w : World)
      → (record_step D J id i db o w).0 ≡ o
  unfolding record_step
  record_step-result id i db none w = refl
  record_step-result id i db (some v) w = refl

  -- A step leaves the rows of all others.
  step-other :
      (id : Bytes) (i j : ℕ) (fn : StepFn Value World) (r : Run D World)
      → i ≢ j
      → D.select_step ((step D J id i fn r).1.db) id j ≡ D.select_step (r.db) id j
  step-other id i j fn r other = elim (Option-cases (D.select_step (r.db) id i)) [
    | inl new ↦ rw (step-new id i fn r new) (record_step-other id i j (r.db) _ _ other)
    | inr (raw, old) ↦ rw (step-old id i fn r raw old) refl
  ]

  step-IsFresh :
      (id : Bytes) (i : ℕ) (fn : StepFn Value World) (r : Run D World)
      → IsFresh D id i (r.db)
      → IsFresh D id (suc i) ((step D J id i fn r).1.db)
  step-IsFresh id i fn r fresh j after =
      step-other id i j fn r (λ e. omega (e, after, arith)) ∙ fresh j (omega arith)

  -- A new step returns what its function does.
  step-result :
      (id : Bytes) (i : ℕ) (fn : StepFn Value World) (r : Run D World) (v : Value)
      → D.select_step (r.db) id i ≡ none
      → (step D J id i fn r).0 ≡ some v
      → (fn (r.world)).0 ≡ some v
  step-result id i fn r v new e =
      sym (record_step-result id i (r.db) (fn (r.world)).0 (fn (r.world)).1)
      ∙ (ap (λ s. s.0) (sym (step-new id i fn r new)) ∙ e)

  -- The row of a step that has run.
  step-row :
      (id : Bytes) (i : ℕ) (fn : StepFn Value World) (r : Run D World) (v : Value)
      → D.select_step (r.db) id i ≡ none
      → (step D J id i fn r).0 ≡ some v
      → D.select_step ((step D J id i fn r).1.db) id i ≡ some (J.encode v)
  unfolding record_step
  step-row id i fn r v new e =
      ap (λ s. D.select_step (s.1.db) id i) (step-new id i fn r new)
      ∙ (ap (λ o. D.select_step ((record_step D J id i (r.db) o (fn (r.world)).1).1.db) id i)
            (step-result id i fn r v new e)
          ∙ law.select_new (r.db) id i (J.encode v) new)

  run-takes :
      (id : Bytes) (i : ℕ) (fn : StepFn Value World) (k : Value → Flow Value World)
      (r : Run D World) (v : Value)
      → (step D J id i fn r).0 ≡ some v
      → run D J id i (takes fn k) r ≡ run D J id (suc i) (k v) ((step D J id i fn r).1)
  unfolding run
  run-takes id i fn k r v e = rw (run, e) refl

  run_until-takes :
      (n : ℕ) (id : Bytes) (i : ℕ) (fn : StepFn Value World) (k : Value → Flow Value World)
      (r : Run D World) (v : Value)
      → (step D J id i fn r).0 ≡ some v
      → run_until D J (suc n) id i (takes fn k) r
        ≡ run_until D J n id (suc i) (k v) ((step D J id i fn r).1)
  unfolding run_until
  run_until-takes n id i fn k r v e = rw (run_until, e) refl

  run_until-failed :
      (n : ℕ) (id : Bytes) (i : ℕ) (fn : StepFn Value World) (k : Value → Flow Value World)
      (r : Run D World)
      → (step D J id i fn r).0 ≡ none
      → run_until D J (suc n) id i (takes fn k) r ≡ none
  unfolding run_until
  run_until-failed n id i fn k r e = rw (run_until, e) refl

  -- The first of the steps that a process has taken gave a value, and the others followed.
  first_step :
      (n : ℕ) (id : Bytes) (i : ℕ) (fn : StepFn Value World) (k : Value → Flow Value World)
      (r left : Run D World)
      → run_until D J (suc n) id i (takes fn k) r ≡ some left
      → (v : Value) × ((step D J id i fn r).0 ≡ some v)
        × (run_until D J n id (suc i) (k v) ((step D J id i fn r).1) ≡ some left)
  first_step n id i fn k r left e = elim (Option-cases (step D J id i fn r).0) [
    | inl failed ↦ let stuck = run_until-failed n id i fn k r failed in ground arith
    | inr (v, went) ↦ (v, went, sym (run_until-takes n id i fn k r v went) ∙ e)
  ]

  run_until-earlier :
      (n : ℕ) (id : Bytes) (i j : ℕ) (flow : Flow Value World) (r left : Run D World)
      → j < i
      → run_until D J n id i flow r ≡ some left
      → D.select_step (left.db) id j ≡ D.select_step (r.db) id j
  unfolding run_until
  run_until-earlier zero id i j flow r left before e =
      ap (λ s. D.select_step (s.db) id j) (sym (some-injective _ _ e))
  run_until-earlier (suc n) id i j (returns v) r left before e =
      ap (λ s. D.select_step (s.db) id j) (sym (some-injective _ _ e))
  run_until-earlier (suc n) id i j panics r left before e = ground arith
  run_until-earlier (suc n) id i j (takes fn k) r left before e =
      let (v, went, rest) = first_step n id i fn k r left e in
      run_until-earlier n id (suc i) j (k v) ((step D J id i fn r).1) left (omega arith) rest
      ∙ step-other id i j fn r (λ e. omega (e, before, arith))

  -- A step that is taken again does not run: it returns what JSON makes of its value, and leaves the world
  -- and the rows as they are.
  pub step-replayed :
      (id : Bytes) (i : ℕ) (fn again : StepFn Value World) (r : Run D World) (v : Value)
      → D.select_step (r.db) id i ≡ none
      → (step D J id i fn r).0 ≡ some v
      → step D J id i again ((step D J id i fn r).1)
        ≡ (some (stored_value J (J.encode v)), (step D J id i fn r).1)
  step-replayed id i fn again r v new went =
      step-old id i again ((step D J id i fn r).1) (J.encode v) (step-row id i fn r v new went)

  -- A process that ends between two steps of a fresh instance, without a panic, loses nothing: run again
  -- from its first step on what it left, the workflow gives the result, the world and the rows that it
  -- would have given without the interruption, so that no function of a step runs twice. What the steps
  -- may return has to survive JSON, as integers do not.
  pub run-run_until :
      (n : ℕ) (id : Bytes) (i : ℕ) (flow : Flow Value World) (r left : Run D World)
      → StepsKeep J flow
      → IsFresh D id i (r.db)
      → run_until D J n id i flow r ≡ some left
      → run D J id i flow left ≡ run D J id i flow r
  unfolding run_until StepsKeep
  run-run_until zero id i flow r left keeps fresh e =
      ap (λ s. run D J id i flow s) (sym (some-injective _ _ e))
  run-run_until (suc n) id i (returns v) r left keeps fresh e =
      ap (λ s. run D J id i (returns v) s) (sym (some-injective _ _ e))
  run-run_until (suc n) id i panics r left keeps fresh e = ground arith
  run-run_until (suc n) id i (takes fn k) r left (keeps, later) fresh e =
      let (v, went, rest) = first_step n id i fn k r left e in
      let new = fresh i (omega arith) in
      let r₁ = (step D J id i fn r).1 in
      let row =
        run_until-earlier n id (suc i) i (k v) r₁ left (omega arith) rest
        ∙ step-row id i fn r v new went in
      let kept = keeps (r.world) v (step-result id i fn r v new went) in
      let again = step-old id i fn left (J.encode v) row ∙ ap (λ u. (some u, left)) kept in
      run-takes id i fn k left v (ap (λ t. t.0) again)
      ∙ (ap (λ t. run D J id (suc i) (k v) t.1) again
          ∙ (run-run_until n id (suc i) (k v) r₁ left (later v) (step-IsFresh id i fn r fresh) rest
              ∙ sym (run-takes id i fn k r v went)))

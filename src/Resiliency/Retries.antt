-- ===== src/Resiliency/Retries.antt =====
-- How often `ResilientCall` runs its function, and what it returns.
use serv_lang.Prelude.{
  ℕ, zero, suc, ◌+◌, ◌≤◌, ◌<◌, ◌≡◌, ◌∙◌, ap, subst, refl, Bool, true, false, Option, none, some,
  Bytes, arith, if-elim, Bool-cases, inl, inr,
}
use serv_lang.Prelude.Int.{pos}
use serv_lang.Resiliency.Breaker.{
  closed, CircuitBreaker, Breakers, find_breaker, found_or_new, get_breaker, is_open, try_recovery,
  on_failure,
}
use serv_lang.Resiliency.Call.{
  Value, Attempt, value, failed, returns, gives_up, Called, one_more, settle, admit, refuses,
  rounds_of, attempts, resilient_call,
}
use serv_lang.Resiliency.Rounds.{outcome, ended, Fails, value_round, failed_round, no_round}

-- Where the call has a breaker, it is closed and lets `n` failures pass without opening.
abbrev pub Tolerates : Bool → ℕ → CircuitBreaker → Type 0
Tolerates has_cb n cb = has_cb ≡ true → (cb.state ≡ closed) × (cb.failures + n < cb.threshold)

on_failure_tolerant :
    (n now : ℕ) (cb : CircuitBreaker)
    → cb.state ≡ closed
    → cb.failures + suc n < cb.threshold
    → ((on_failure now cb).state ≡ closed)
      × ((on_failure now cb).failures + n < (on_failure now cb).threshold)
unfolding on_failure
on_failure_tolerant n now cb shut below = ground arith

module _ (show : Value → Bytes) (limit : ℕ) (has_cb : Bool) (world : ℕ → Attempt) where
  admit_tolerant :
      (n now : ℕ) (cb : CircuitBreaker)
      → Tolerates has_cb n cb
      → admit show limit has_cb world now cb ≡ cb
  unfolding admit try_recovery is_open
  admit_tolerant n now cb h = if-elim (λ c. c ≡ cb) has_cb (λ on. rw (h on).0 refl) (λ _. refl)

  refuses_tolerant :
      (n now : ℕ) (cb : CircuitBreaker)
      → Tolerates has_cb n cb
      → refuses show limit has_cb world (admit show limit has_cb world now cb) ≡ false
  unfolding refuses is_open
  refuses_tolerant n now cb h = elim (Bool-cases has_cb) [
    | inl on ↦ rw (admit_tolerant n now cb h, (h on).0, on) refl
    | inr off ↦ rw off refl
  ]

  settle_tolerant :
      (n now : ℕ) (e : Bytes) (cb : CircuitBreaker)
      → Tolerates has_cb (suc n) cb
      → Tolerates has_cb n (settle show limit has_cb world (failed e, now) cb)
  unfolding settle
  settle_tolerant n now e cb h on = rw on (on_failure_tolerant n now cb (h on).0 (h on).1)

  pub lost_round :
      (n left k : ℕ) (last : Option Bytes) (cb : CircuitBreaker) (x : Bytes)
      → Tolerates has_cb n cb
      → outcome show limit has_cb world k ≡ failed x
      → attempts show limit has_cb world (suc left) k last cb
        ≡ one_more (
            attempts show limit has_cb world left
              (suc k)
              (some x)
              (settle show limit has_cb world (failed x, ended show limit has_cb world k) cb))
  lost_round n left k last cb x tol lost =
      subst
        (λ c.
          attempts show limit has_cb world (suc left) k last cb
          ≡ one_more (
              attempts show limit has_cb world left (suc k) (some x)
                (settle show limit has_cb world (failed x, ended show limit has_cb world k) c)))
        (admit_tolerant n (world k).started cb tol)
        (failed_round show limit has_cb world left k last cb x
          (refuses_tolerant n (world k).started cb tol) lost)

  -- The rounds before round `n`, counted from `k` on.
  abbrev pub FailBefore : ℕ → ℕ → Type 0
  FailBefore n k = (i : ℕ) → i < n → Fails show limit has_cb world (i + k)

  pub fail_first : (n k : ℕ) → FailBefore (suc n) k → Fails show limit has_cb world k
  fail_first n k fails =
      let first : 0 + k ≡ k = omega arith in
      subst (Fails show limit has_cb world) first (fails 0 (omega arith))

  pub fail_rest : (n k : ℕ) → FailBefore (suc n) k → FailBefore n (suc k)
  fail_rest n k fails i below =
      let same : suc i + k ≡ i + suc k = omega arith in
      subst (Fails show limit has_cb world) same (fails (suc i) (omega arith))

  pub fail_from_start :
      (n : ℕ) → ((i : ℕ) → i < n → Fails show limit has_cb world i) → FailBefore n 0
  fail_from_start n fails i below =
      let same : i ≡ i + 0 = omega arith in
      subst (Fails show limit has_cb world) same (fails i below)

  attempts-first_value :
      (n left k : ℕ) (last : Option Bytes) (cb : CircuitBreaker) (v : Value)
      → n < left
      → FailBefore n k
      → outcome show limit has_cb world (n + k) ≡ value v
      → Tolerates has_cb n cb
      → ((attempts show limit has_cb world left k last cb).returned ≡ returns v)
        × ((attempts show limit has_cb world left k last cb).runs ≡ suc n)
  unfolding one_more
  attempts-first_value n zero k last cb v below fails won tol = ground arith
  attempts-first_value zero (suc left) k last cb v below fails won tol =
      let won_here = subst (λ j. outcome show limit has_cb world j ≡ value v) (omega arith) won in
      let runs_it = refuses_tolerant 0 (world k).started cb tol in
      let e = value_round show limit has_cb world left k last cb v runs_it won_here in
      (ap Called.returned e, ap Called.runs e)
  attempts-first_value (suc n) (suc left) k last cb v below fails won tol =
      let (x, lost) = fail_first n k fails in
      let e = lost_round (suc n) left k last cb x tol lost in
      let same : suc n + k ≡ n + suc k = omega arith in
      let won_later = subst (λ j. outcome show limit has_cb world j ≡ value v) same won in
      let tol_later = settle_tolerant n (ended show limit has_cb world k) x cb tol in
      let (r, c) =
        attempts-first_value n left (suc k) (some x) _ v (omega arith) (fail_rest n k fails)
          won_later tol_later in
      (ap Called.returned e ∙ r, ap Called.runs e ∙ ap suc c)

  attempts-last_failure :
      (n k : ℕ) (last : Option Bytes) (cb : CircuitBreaker) (x : Bytes)
      → FailBefore n k
      → outcome show limit has_cb world (n + k) ≡ failed x
      → Tolerates has_cb n cb
      → ((attempts show limit has_cb world (suc n) k last cb).returned ≡ gives_up (some x))
        × ((attempts show limit has_cb world (suc n) k last cb).runs ≡ suc n)
  unfolding one_more
  attempts-last_failure zero k last cb x fails lost tol =
      let lost_here =
        subst (λ j. outcome show limit has_cb world j ≡ failed x) (omega arith) lost in
      let e = lost_round 0 0 k last cb x tol lost_here in
      let out = no_round show limit has_cb world (suc k) (some x) _ in
      (
        ap Called.returned e ∙ ap Called.returned out,
        ap Called.runs e ∙ ap suc (ap Called.runs out),
      )
  attempts-last_failure (suc n) k last cb x fails lost tol =
      let (y, lost_first) = fail_first n k fails in
      let e = lost_round (suc n) (suc n) k last cb y tol lost_first in
      let lost_later =
        subst (λ j. outcome show limit has_cb world j ≡ failed x) (omega arith) lost in
      let tol_later = settle_tolerant n (ended show limit has_cb world k) y cb tol in
      let (r, c) =
        attempts-last_failure n (suc k) (some y) _ x (fail_rest n k fails) lost_later tol_later in
      (ap Called.returned e ∙ r, ap Called.runs e ∙ ap suc c)

-- The breaker that a call of `name` works on.
abbrev pub breaker_of : Bytes → Breakers → CircuitBreaker
breaker_of name all = found_or_new (find_breaker name all)

module _ (show : Value → Bytes) (limit : ℕ) (has_cb : Bool) (world : ℕ → Attempt) (name : Bytes)
    (all : Breakers) where
  abbrev call : ℕ → Called
  call retries = (resilient_call show name world (pos retries) limit has_cb all).0

  -- Where the first `n` rounds fail and round `n` gives `v`, with `n` no more than the retries, the
  -- call returns `v` and has run its function `n + 1` times. A breaker, if the call has one, must be
  -- closed and let `n` more failures pass.
  pub resilient_call-first_value :
      (n retries : ℕ) (v : Value)
      → n ≤ retries
      → ((i : ℕ) → i < n → Fails show limit has_cb world i)
      → outcome show limit has_cb world n ≡ value v
      → Tolerates has_cb n (breaker_of name all)
      → ((call retries).returned ≡ returns v) × ((call retries).runs ≡ suc n)
  unfolding resilient_call rounds_of get_breaker
  resilient_call-first_value n retries v le fails won tol =
      let same : n ≡ n + 0 = omega arith in
      attempts-first_value show limit has_cb world n (suc retries) 0 none _ v (omega arith)
        (fail_from_start show limit has_cb world n fails)
        (subst (λ j. outcome show limit has_cb world j ≡ value v) same won) tol

  -- Where every round fails, and a breaker, if the call has one, is closed and lets as many failures
  -- pass as there are retries, the call runs its function once more often than there are retries and
  -- returns the error of the last round.
  pub resilient_call-last_failure :
      (retries : ℕ) (x : Bytes)
      → ((i : ℕ) → i < retries → Fails show limit has_cb world i)
      → outcome show limit has_cb world retries ≡ failed x
      → Tolerates has_cb retries (breaker_of name all)
      → ((call retries).returned ≡ gives_up (some x)) × ((call retries).runs ≡ suc retries)
  unfolding resilient_call rounds_of get_breaker
  resilient_call-last_failure retries x fails lost tol =
      let same : retries ≡ retries + 0 = omega arith in
      attempts-last_failure show limit has_cb world retries 0 none _ x
        (fail_from_start show limit has_cb world retries fails)
        (subst (λ j. outcome show limit has_cb world j ≡ failed x) same lost) tol

-- ===== src/Resiliency/Trips.antt =====
-- A breaker that opens, refuses and recovers in the rounds of `ResilientCall`.
use serv_lang.Prelude.{
  ℕ, zero, suc, ◌+◌, ◌-◌, ◌≤◌, ◌<◌, ◌≡◌, ap, sym, subst, refl, true, Option, none, some, Bytes,
  arith,
}
use serv_lang.Prelude.Int.{pos}
use serv_lang.Resiliency.Breaker.{
  closed, open_state, half_open, CircuitBreaker, Breakers, get_breaker, is_open, try_recovery,
  on_failure,
}
use serv_lang.Resiliency.Call.{
  Value, Attempt, breaker_open, Called, one_more, settle, admit, refuses, rounds_of, attempts,
  resilient_call,
}
use serv_lang.Resiliency.Retries.{
  Tolerates, FailBefore, lost_round, fail_first, fail_rest, fail_from_start, breaker_of,
}
use serv_lang.Resiliency.Rounds.{ended, Fails}

try_recovery_early :
    (now : ℕ) (cb : CircuitBreaker)
    → cb.state ≡ open_state
    → now - cb.last_change ≤ cb.timeout
    → try_recovery now cb ≡ cb
unfolding try_recovery is_open
try_recovery_early now cb shut early = ground arith

pub try_recovery_late :
    (now : ℕ) (cb : CircuitBreaker)
    → cb.state ≡ open_state
    → cb.timeout < now - cb.last_change
    → try_recovery now cb ≡ record cb { state = half_open; last_change = now }
unfolding try_recovery is_open
try_recovery_late now cb shut late = ground arith

pub on_failure_trips :
    (now : ℕ) (cb : CircuitBreaker)
    → cb.threshold ≤ suc cb.failures
    → on_failure now cb
      ≡ record cb { failures = suc cb.failures; state = open_state; last_change = now }
unfolding on_failure
on_failure_trips now cb full = ground arith

-- A closed breaker that opens with the failure after the next `n`.
abbrev pub OpensAfter : ℕ → CircuitBreaker → Type 0
OpensAfter n cb = (cb.state ≡ closed) × (cb.failures + suc n ≡ cb.threshold)

on_failure_counts :
    (n now : ℕ) (cb : CircuitBreaker)
    → OpensAfter (suc n) cb
    → OpensAfter n (on_failure now cb) × ((on_failure now cb).timeout ≡ cb.timeout)
unfolding on_failure
on_failure_counts n now cb (shut, full) = ground arith

OpensAfter-Tolerates : (n : ℕ) (cb : CircuitBreaker) → OpensAfter n cb → Tolerates true n cb
OpensAfter-Tolerates n cb (shut, full) on = (shut, omega arith)

module _ (show : Value → Bytes) (limit : ℕ) (world : ℕ → Attempt) where
  -- An open breaker refuses the round that starts within its timeout.
  pub attempts-refused :
      (left k : ℕ) (last : Option Bytes) (cb : CircuitBreaker)
      → cb.state ≡ open_state
      → (world k).started - cb.last_change ≤ cb.timeout
      → attempts show limit true world (suc left) k last cb
        ≡ record { returned = breaker_open; breaker = cb; runs = 0 }
  unfolding attempts admit refuses is_open
  attempts-refused left k last cb shut early =
      rw (try_recovery_early (world k).started cb shut early, shut) refl

  -- The call has run its function `n` times, then found its breaker open.
  abbrev pub TrippedBy : ℕ → Called → Type 0
  TrippedBy n c = (c.returned ≡ breaker_open) × (c.runs ≡ n) × (c.breaker.state ≡ open_state)

  pub one_more_tripped : (n : ℕ) (c : Called) → TrippedBy n c → TrippedBy (suc n) (one_more c)
  unfolding one_more
  one_more_tripped n c (r, e, shut) = (r, ap suc e, shut)

  -- The failure that opens the breaker, and the round behind it.
  attempts-opened :
      (left k : ℕ) (last : Option Bytes) (cb : CircuitBreaker)
      → Fails show limit true world k
      → OpensAfter 0 cb
      → (world (suc k)).started - ended show limit true world k ≤ cb.timeout
      → TrippedBy 1 (attempts show limit true world (suc (suc left)) k last cb)
  unfolding settle
  attempts-opened left k last cb (x, lost) opens early =
      let now = ended show limit true world k in
      let full : cb.threshold ≤ suc cb.failures = ground arith in
      let e =
        lost_round show limit true world 0 (suc left) k last cb x (OpensAfter-Tolerates 0 cb opens)
          lost in
      let opened = record cb {
        failures = suc cb.failures;
        state = open_state;
        last_change = now;
      } in
      let r = attempts-refused left (suc k) (some x) opened refl early in
      rw (e, on_failure_trips now cb full, r) (one_more_tripped 0 _ (refl, refl, refl))

  -- Round `k + 1` starts within a breaker's timeout of the end of round `k`.
  abbrev pub InTime : ℕ → ℕ → Type 0
  InTime k timeout = (world (suc k)).started - ended show limit true world k ≤ timeout

  attempts-trips :
      (n left k : ℕ) (last : Option Bytes) (cb : CircuitBreaker)
      → n ≤ left
      → FailBefore show limit true world (suc n) k
      → OpensAfter n cb
      → InTime (n + k) cb.timeout
      → TrippedBy (suc n) (attempts show limit true world (suc (suc left)) k last cb)
  unfolding settle
  attempts-trips zero left k last cb le fails opens early =
      let same : 0 + k ≡ k = omega arith in
      let lost = fail_first show limit true world 0 k fails in
      attempts-opened left k last cb lost opens (subst (λ j. InTime j cb.timeout) same early)
  attempts-trips (suc n) zero k last cb le fails opens early = ground arith
  attempts-trips (suc n) (suc left) k last cb le fails opens early =
      let (x, lost) = fail_first show limit true world (suc n) k fails in
      let now = ended show limit true world k in
      let tol = OpensAfter-Tolerates (suc n) cb opens in
      let e = lost_round show limit true world (suc n) (suc (suc left)) k last cb x tol lost in
      let round : suc n + k ≡ n + suc k = omega arith in
      let in_time = subst (λ j. InTime j cb.timeout) round early in
      let (opens_later, same) = on_failure_counts n now cb opens in
      rw e (
        one_more_tripped (suc n) _ (
          attempts-trips n left (suc k) (some x) (on_failure now cb) (omega arith)
            (fail_rest show limit true world (suc n) k fails) opens_later
            (subst (InTime (n + suc k)) (sym same) in_time)))

module _ (show : Value → Bytes) (limit : ℕ) (world : ℕ → Attempt) (name : Bytes)
    (all : Breakers) where
  abbrev guarded_call : ℕ → Called
  guarded_call retries = (resilient_call show name world (pos retries) limit true all).0

  -- Where the breaker of the call is closed and opens with its `n + 1`st failure from now on, the
  -- first `n + 1` rounds fail, more retries than `n` are allowed and the next round starts within
  -- the breaker's timeout of the end of round `n`, the call runs its function `n + 1` times and no
  -- more, returns the breaker's error and leaves it open.
  pub resilient_call-trips :
      (n retries : ℕ)
      → n < retries
      → ((i : ℕ) → i < suc n → Fails show limit true world i)
      → OpensAfter n (breaker_of name all)
      → InTime show limit world n (breaker_of name all).timeout
      → TrippedBy show limit world (suc n) (guarded_call retries)
  unfolding resilient_call rounds_of get_breaker
  resilient_call-trips n (suc retries) lt fails opens early =
      let same : n ≡ n + 0 = omega arith in
      attempts-trips show limit world n retries 0 none (breaker_of name all) (omega arith)
        (fail_from_start show limit true world (suc n) fails) opens
        (subst (λ j. InTime show limit world j (breaker_of name all).timeout) same early)
  resilient_call-trips n zero lt fails opens early = ground arith

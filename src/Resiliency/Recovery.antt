-- ===== src/Resiliency/Recovery.antt =====
-- What a call does that finds its breaker open.
use serv_lang.Prelude.{
  ℕ, zero, suc, ◌-◌, ◌≤◌, ◌<◌, ◌≡◌, ◌∙◌, refl, true, false, none, some, Bytes, arith,
}
use serv_lang.Prelude.Int.{pos}
use serv_lang.Resiliency.Breaker.{
  closed, open_state, half_open, CircuitBreaker, Breakers, get_breaker, is_open, is_half_open,
  on_success,
}
use serv_lang.Resiliency.Call.{
  Value, Attempt, value, failed, returns, breaker_open, Called, settle, admit, refuses, rounds_of,
  resilient_call,
}
use serv_lang.Resiliency.Rounds.{outcome, ended, value_round, failed_round}
use serv_lang.Resiliency.Retries.{breaker_of}
use serv_lang.Resiliency.Trips.{
  try_recovery_late, on_failure_trips, attempts-refused, TrippedBy, one_more_tripped, InTime,
}

module _ (show : Value → Bytes) (limit : ℕ) (world : ℕ → Attempt) where
  -- An open breaker whose time is over.
  abbrev pub Due : CircuitBreaker → Type 0
  Due cb = (cb.state ≡ open_state) × (cb.timeout < (world 0).started - cb.last_change)

  Due-admit :
      (cb : CircuitBreaker)
      → Due cb
      → admit show limit true world (world 0).started cb
        ≡ record cb { state = half_open; last_change = (world 0).started }
  unfolding admit
  Due-admit cb (shut, late) = try_recovery_late (world 0).started cb shut late

  Due-refuses :
      (cb : CircuitBreaker)
      → Due cb
      → refuses show limit true world (admit show limit true world (world 0).started cb) ≡ false
  unfolding refuses is_open
  Due-refuses cb due = rw (Due-admit cb due) refl

module _ (show : Value → Bytes) (limit : ℕ) (world : ℕ → Attempt) (name : Bytes)
    (all : Breakers) where
  abbrev probing_call : ℕ → Called
  probing_call retries = (resilient_call show name world (pos retries) limit true all).0

  -- Where the breaker of a call is open and its first round starts within the breaker's timeout of
  -- the change that opened it, the call returns the breaker's error, never runs its function and
  -- leaves the breaker as it is.
  pub resilient_call-refused :
      (retries : ℕ)
      → (breaker_of name all).state ≡ open_state
      → (world 0).started - (breaker_of name all).last_change ≤ (breaker_of name all).timeout
      → probing_call retries
        ≡ record { returned = breaker_open; breaker = breaker_of name all; runs = 0 }
  unfolding resilient_call rounds_of get_breaker
  resilient_call-refused retries shut early =
      attempts-refused show limit world retries 0 none (breaker_of name all) shut early

  -- Where the breaker of a call is open, its time is over and the first round gives a value, the
  -- call returns it after this one run, and the breaker is closed again with no failure counted.
  pub resilient_call-recovers :
      (retries : ℕ) (v : Value)
      → Due show limit world (breaker_of name all)
      → outcome show limit true world 0 ≡ value v
      → probing_call retries ≡ record {
        returned = returns v;
        breaker = record (breaker_of name all) {
          state = closed;
          failures = 0;
          last_change = ended show limit true world 0;
        };
        runs = 1;
      }
  unfolding resilient_call rounds_of get_breaker settle on_success is_half_open
  resilient_call-recovers retries v due won =
      let cb = breaker_of name all in
      value_round show limit true world retries 0 none cb v (Due-refuses show limit world cb due)
        won
      ∙ (rw (Due-admit show limit world cb due) refl)

  -- Where the breaker of a call is open, its time is over, its count is not below its threshold by
  -- two or more, the first round fails and the next one starts within the timeout of that failure,
  -- the call with at least one retry runs its function once, returns the breaker's error, and leaves
  -- the breaker open.
  pub resilient_call-reopens :
      (retries : ℕ) (x : Bytes)
      → 0 < retries
      → Due show limit world (breaker_of name all)
      → (breaker_of name all).threshold ≤ suc (breaker_of name all).failures
      → outcome show limit true world 0 ≡ failed x
      → InTime show limit world 0 (breaker_of name all).timeout
      → TrippedBy show limit world 1 (probing_call retries)
  unfolding resilient_call rounds_of get_breaker settle
  resilient_call-reopens zero x lt due full lost early = ground arith
  resilient_call-reopens (suc retries) x lt due full lost early =
      let cb = breaker_of name all in
      let now = ended show limit true world 0 in
      let probe = record cb { state = half_open; last_change = (world 0).started } in
      let e =
        failed_round show limit true world (suc retries) 0 none cb x
          (Due-refuses show limit world cb due) lost in
      let opened = record cb {
        failures = suc cb.failures;
        state = open_state;
        last_change = now;
      } in
      let r = attempts-refused show limit world retries 1 (some x) opened refl early in
      rw (e, Due-admit show limit world cb due, on_failure_trips now probe full, r)
        (one_more_tripped show limit world 0
          (record { returned = breaker_open; breaker = opened; runs = 0 }) (refl, refl, refl))

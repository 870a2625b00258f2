-- ===== src/Resiliency/Interleaving.antt =====
-- The critical sections of many callers of `ResilientCall` on one breaker, in any order.
use serv_lang.Prelude.{ℕ, suc, ◌-◌, ◌<◌, ◌≡◌, true, false, arith}
use serv_lang.Resiliency.Breaker.{
  closed, open_state, half_open, CircuitBreaker, is_open, is_half_open, try_recovery, on_success,
  on_failure,
}

-- The breaker, and how many callers run their functions: they have passed the first section and not
-- reached another.
pub record Shared : Type 0 where
  pub breaker : CircuitBreaker
  pub running : ℕ

-- One critical section of one caller.
pub data Step : Shared → Shared → Type 0 where
  enter :
      (now : ℕ) (cb : CircuitBreaker) (n : ℕ)
      → is_open (try_recovery now cb).state ≡ false
      → Step
          (record { breaker = cb; running = n })
          (record { breaker = try_recovery now cb; running = suc n })
  refuse :
      (now : ℕ) (cb : CircuitBreaker) (n : ℕ)
      → is_open (try_recovery now cb).state ≡ true
      → Step
          (record { breaker = cb; running = n })
          (record { breaker = try_recovery now cb; running = n })
  succeed :
      (now : ℕ) (cb : CircuitBreaker) (n : ℕ)
      → Step
          (record { breaker = cb; running = suc n })
          (record { breaker = on_success now cb; running = n })
  fail :
      (now : ℕ) (cb : CircuitBreaker) (n : ℕ)
      → Step
          (record { breaker = cb; running = suc n })
          (record { breaker = on_failure now cb; running = n })

pub data Steps : Shared → Shared → Type 0 where
  done : (s : Shared) → Steps s s
  then_step : (s t u : Shared) → Steps s t → Step t u → Steps s u

-- A breaker that is not open has a count below its threshold.
pub record IsCounted (cb : CircuitBreaker) : Type 0 where
  pub positive : 0 < cb.threshold
  pub below : cb.state ≡ closed → cb.failures < cb.threshold

pub try_recovery-IsCounted :
    (now : ℕ) (cb : CircuitBreaker) → IsCounted cb → IsCounted (try_recovery now cb)
unfolding try_recovery is_open
try_recovery-IsCounted now cb h = ground arith

pub on_success-IsCounted :
    (now : ℕ) (cb : CircuitBreaker) → IsCounted cb → IsCounted (on_success now cb)
unfolding on_success is_half_open
on_success-IsCounted now cb h = ground arith

pub on_failure-IsCounted :
    (now : ℕ) (cb : CircuitBreaker) → IsCounted cb → IsCounted (on_failure now cb)
unfolding on_failure
on_failure-IsCounted now cb h = ground arith

Step-IsCounted : (s t : Shared) → Step s t → IsCounted s.breaker → IsCounted t.breaker
Step-IsCounted _ _ (enter now cb n e) h = try_recovery-IsCounted now cb h
Step-IsCounted _ _ (refuse now cb n e) h = try_recovery-IsCounted now cb h
Step-IsCounted _ _ (succeed now cb n) h = on_success-IsCounted now cb h
Step-IsCounted _ _ (fail now cb n) h = on_failure-IsCounted now cb h

-- In whatever order the sections of the callers of one breaker run, with clocks that may disagree, a
-- closed breaker keeps its count of failures below its threshold, if it begins so.
pub Steps-IsCounted : (s t : Shared) → Steps s t → IsCounted s.breaker → IsCounted t.breaker
Steps-IsCounted s _ (done _) h = h
Steps-IsCounted s u (then_step _ t _ before last) h =
    Step-IsCounted t u last (Steps-IsCounted s t before h)

-- Where a call that entered before the breaker opened succeeds while it is open, the breaker's next
-- probe, after its time is over, may fail and yet not open it: the count was reset to 0, so that the
-- breaker stays half open, which admits every caller. Its threshold must be above 1.
pub late_success-half_open :
    (t1 t2 t3 : ℕ) (cb : CircuitBreaker)
    → cb.state ≡ open_state
    → 1 < cb.threshold
    → cb.timeout < t2 - cb.last_change
    → on_failure t3 (try_recovery t2 (on_success t1 cb))
      ≡ record cb { state = half_open; failures = 1; last_change = t2 }
unfolding try_recovery on_success on_failure is_open is_half_open
late_success-half_open t1 t2 t3 cb shut above late = ground arith

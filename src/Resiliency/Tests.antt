-- ===== src/Resiliency/Tests.antt =====
-- The theorems on circuit breakers at concrete calls.
use serv_lang.Prelude.{ℕ, zero, suc, ◌<◌, ◌≡◌, refl, true, [], ◌∷◌, Bytes, arith, some}
use serv_lang.Prelude.Int.{pos}
use serv_lang.Resiliency.Nested.{
  AllCounted, put_breaker-AllCounted, resilient_call_nested, resilient_call_nested-AllCounted,
}
use serv_lang.Resiliency.Breaker.{
  put_breaker, closed, open_state, half_open, CircuitBreaker, new_breaker, Breakers, find_breaker,
  found_or_new, is_open, try_recovery, on_success, on_failure,
}
use serv_lang.Resiliency.Call.{
  Value, nothing, error, Attempt, gives, returns, gives_up, run_result, is_error_value, classify,
  execute, resilient_call,
}
use serv_lang.Resiliency.Sound.{AllSound, new_breaker-IsSound, resilient_call-AllSound}
use serv_lang.Resiliency.Retries.{resilient_call-first_value, resilient_call-last_failure}
use serv_lang.Resiliency.Rounds.{Fails}
use serv_lang.Resiliency.Trips.{TrippedBy, resilient_call-trips}
use serv_lang.Resiliency.Recovery.{resilient_call-recovers}
use serv_lang.Resiliency.Interleaving.{
  Shared, enter, succeed, fail, Steps, done, then_step, IsCounted, Steps-IsCounted,
  late_success-half_open,
}

abbrev blank : Value → Bytes
blank v = []

-- Two rounds fail, by an error and by running for too long; the third gives nil.
abbrev third_time : ℕ → Attempt
third_time zero = record { started = 100; took = 5; run = gives (error []) }
third_time (suc zero) = record { started = 200; took = 50; run = gives nothing }
third_time (suc (suc k)) = record { started = 300; took = 5; run = gives nothing }

abbrev always_lost : ℕ → Attempt
always_lost k = record { started = 9; took = 0; run = gives (error []) }

abbrev nil_at : ℕ → ℕ → Attempt
nil_at now k = record { started = now; took = 3; run = gives nothing }

abbrev lost_at : ℕ → ℕ → Attempt
lost_at now k = record { started = now; took = 3; run = gives (error []) }

abbrev opened_breaker : CircuitBreaker
opened_breaker = record {
  state = open_state;
  failures = 3;
  threshold = 3;
  timeout = 20;
  last_change = 50;
}

abbrev one_open : Breakers
one_open = ([], opened_breaker) ∷ []

resilient_call-AllSound_example :
    AllSound (resilient_call blank [] third_time (pos 2) 20 true (([], new_breaker) ∷ [])).1
resilient_call-AllSound_example =
    resilient_call-AllSound blank [] third_time (pos 2) 20 true (([], new_breaker) ∷ [])
      (new_breaker-IsSound, tt)

third_time-Fails : (i : ℕ) → i < 2 → Fails blank 20 true third_time i
unfolding execute run_result is_error_value classify
third_time-Fails zero lt = ([], refl)
third_time-Fails (suc zero) lt = (_, refl)
third_time-Fails (suc (suc i)) lt = ground arith

resilient_call-first_value_example :
    ((resilient_call blank [] third_time (pos 5) 20 true []).0.returned ≡ returns nothing)
    × ((resilient_call blank [] third_time (pos 5) 20 true []).0.runs ≡ 3)
unfolding execute run_result is_error_value classify found_or_new find_breaker
resilient_call-first_value_example =
    resilient_call-first_value blank 20 true third_time [] [] 2 5 nothing (omega arith)
      third_time-Fails refl (λ on. (refl, omega arith))

always_lost-Fails : (i : ℕ) → Fails blank 0 true always_lost i
unfolding execute run_result is_error_value classify
always_lost-Fails i = ([], refl)

resilient_call-last_failure_example :
    ((resilient_call blank [] always_lost (pos 2) 0 true []).0.returned ≡ gives_up (some []))
    × ((resilient_call blank [] always_lost (pos 2) 0 true []).0.runs ≡ 3)
unfolding found_or_new find_breaker execute run_result is_error_value classify
resilient_call-last_failure_example =
    resilient_call-last_failure blank 0 true always_lost [] [] 2 [] (λ i lt. always_lost-Fails i)
      refl (λ on. (refl, omega arith))

resilient_call-trips_example :
    TrippedBy blank 0 always_lost 3 (resilient_call blank [] always_lost (pos 9) 0 true []).0
unfolding execute found_or_new find_breaker
resilient_call-trips_example =
    resilient_call-trips blank 0 always_lost [] [] 2 9 (omega arith) (λ i lt. always_lost-Fails i)
      (refl, refl) (omega arith)

resilient_call-recovers_example :
    (resilient_call blank [] (nil_at 90) (pos 1) 0 true one_open).0 ≡ record {
      returned = returns nothing;
      breaker = record {
        state = closed;
        failures = 0;
        threshold = 3;
        timeout = 20;
        last_change = 93;
      };
      runs = 1;
    }
unfolding found_or_new find_breaker execute run_result is_error_value classify
resilient_call-recovers_example =
    resilient_call-recovers blank 0 (nil_at 90) [] one_open 1 nothing (refl, omega arith) refl

-- Two callers enter one after the other; the second fails, the first succeeds.
abbrev shared_at : CircuitBreaker → ℕ → Shared
shared_at cb n = record { breaker = cb; running = n }

two_callers :
    Steps
      (shared_at new_breaker 0)
      (shared_at (on_success 9 (on_failure 8 (try_recovery 7 (try_recovery 6 new_breaker)))) 0)
unfolding try_recovery is_open
two_callers =
    then_step _ _ _
      (then_step _ _ _
        (then_step _ _ _ (then_step _ _ _ (done _) (enter 6 new_breaker 0 refl))
          (enter 7 (try_recovery 6 new_breaker) 1 refl))
        (fail 8 (try_recovery 7 (try_recovery 6 new_breaker)) 1))
      (succeed 9 (on_failure 8 (try_recovery 7 (try_recovery 6 new_breaker))) 0)

Steps-IsCounted_example :
    IsCounted (on_success 9 (on_failure 8 (try_recovery 7 (try_recovery 6 new_breaker))))
Steps-IsCounted_example =
    Steps-IsCounted (shared_at new_breaker 0)
      (shared_at (on_success 9 (on_failure 8 (try_recovery 7 (try_recovery 6 new_breaker)))) 0)
      two_callers (ground arith)

late_success-half_open_example :
    on_failure 95 (try_recovery 90 (on_success 60 opened_breaker))
    ≡ record opened_breaker { state = half_open; failures = 1; last_change = 90 }
late_success-half_open_example =
    late_success-half_open 60 90 95 opened_breaker refl (omega arith) (omega arith)

-- "30", which has no unit.

-- A function whose runs open the breaker behind the call's back.
abbrev opening : ℕ → Breakers → Attempt × Breakers
opening k all = (third_time k, put_breaker [] opened_breaker all)

opened_breaker-IsCounted : IsCounted opened_breaker
opened_breaker-IsCounted = ground arith

resilient_call_nested-AllCounted_example :
    AllCounted (resilient_call_nested blank 20 true [] (λ k. k) opening (pos 2) []).1
resilient_call_nested-AllCounted_example =
    resilient_call_nested-AllCounted blank 20 true [] (λ k. k) opening
      (λ k all h. put_breaker-AllCounted [] opened_breaker all opened_breaker-IsCounted h) (pos 2)
      [] tt

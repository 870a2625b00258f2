-- ===== src/Resiliency/Nested.antt =====
-- `ResilientCall` where the wrapped function may call it again, and so change the breakers.
use serv_lang.Prelude.{
  ℕ, zero, suc, Bool, ◌&&◌, [], ◌∷◌, Option, none, some, Bytes, equal, All, if◌then◌else◌, if-elim,
  arith,
}
use serv_lang.Prelude.Int.{ℤ}
use serv_lang.Resiliency.Breaker.{
  CircuitBreaker, Breakers, find_breaker, put_breaker, found_or_new, get_breaker, new_breaker,
  is_open, try_recovery, on_success, on_failure,
}
use serv_lang.Resiliency.Call.{
  Value, Attempt, Result, value, failed, execute, Returned, returns, breaker_open, gives_up,
  rounds_of,
}
use serv_lang.Resiliency.Interleaving.{
  IsCounted, try_recovery-IsCounted, on_success-IsCounted, on_failure-IsCounted,
}

-- The breaker behind the pointer that the call holds: no entry of the map is ever replaced.
abbrev pub held : Bytes → Breakers → CircuitBreaker
held name all = found_or_new (find_breaker name all)

-- The rounds that are left, from round `k` on, which begins at the time `starts k`; `world` says how it
-- goes and what the run makes of the breakers.
module _ (show : Value → Bytes) (limit : ℕ) (has_cb : Bool) (name : Bytes) (starts : ℕ → ℕ)
    (world : ℕ → Breakers → Attempt × Breakers) where
  -- The lock and the test in front of the round `k`.
  unfoldable pub admitted : ℕ → Breakers → CircuitBreaker
  unfolding try_recovery found_or_new find_breaker
  admitted k all = if has_cb then try_recovery (starts k) (held name all) else held name all

  -- The breakers behind a run.
  unfoldable pub settled : Result × ℕ → Breakers → Breakers
  unfolding on_success on_failure put_breaker found_or_new find_breaker
  settled (value v, now) all =
      if has_cb then put_breaker name (on_success now (held name all)) all else all
  settled (failed e, now) all =
      if has_cb then put_breaker name (on_failure now (held name all)) all else all

  -- A success is returned; behind a failure `rest` goes on, with its error.
  unfoldable pub concluded : Result → Breakers → (Bytes → Returned × Breakers) → Returned × Breakers
  concluded (value v) all rest = (returns v, all)
  concluded (failed e) all rest = rest e

  unfoldable pub attempts_nested : ℕ → ℕ → Option Bytes → Breakers → Returned × Breakers
  unfolding admitted settled concluded execute is_open put_breaker
  attempts_nested zero k last all = (gives_up last, all)
  attempts_nested (suc left) k last all =
      let ready = put_breaker name (admitted k all) all in
      let (attempt, touched) = world k ready in
      let outcome = execute show limit attempt in
      let after = settled outcome touched in
      let went = concluded outcome.0 after (λ e. attempts_nested left (suc k) (some e) after) in
      if has_cb && is_open (admitted k all).state then (breaker_open, ready) else went

  unfoldable pub resilient_call_nested : ℤ → Breakers → Returned × Breakers
  unfolding attempts_nested get_breaker
  resilient_call_nested retries all =
      attempts_nested (rounds_of retries) 0 none (get_breaker name all).1

abbrev pub AllCounted : Breakers → Type 0
AllCounted = All (λ entry. IsCounted entry.1)

new_breaker-IsCounted : IsCounted new_breaker
new_breaker-IsCounted = ground arith

held-IsCounted : (name : Bytes) (all : Breakers) → AllCounted all → IsCounted (held name all)
unfolding found_or_new find_breaker
held-IsCounted name [] h = new_breaker-IsCounted
held-IsCounted name ((key, cb) ∷ rest) (h, hs) =
    if-elim (λ o. IsCounted (found_or_new o)) (equal key name) (λ _. h)
      (λ _. held-IsCounted name rest hs)

pub put_breaker-AllCounted :
    (name : Bytes) (cb : CircuitBreaker) (all : Breakers)
    → IsCounted cb
    → AllCounted all
    → AllCounted (put_breaker name cb all)
unfolding put_breaker
put_breaker-AllCounted name cb [] h hs = (h, tt)
put_breaker-AllCounted name cb ((key, old) ∷ rest) h (g, hs) =
    if-elim AllCounted (equal key name) (λ _. (h, hs))
      (λ _. (g, put_breaker-AllCounted name cb rest h hs))

module _ (show : Value → Bytes) (limit : ℕ) (has_cb : Bool) (name : Bytes) (starts : ℕ → ℕ)
    (world : ℕ → Breakers → Attempt × Breakers)
    (keeps : (k : ℕ) (all : Breakers) → AllCounted all → AllCounted (world k all).1) where
  admitted-AllCounted :
      (k : ℕ) (all : Breakers)
      → AllCounted all
      → AllCounted (put_breaker name (admitted show limit has_cb name starts world k all) all)
  unfolding admitted
  admitted-AllCounted k all h =
      put_breaker-AllCounted name _ all
        (if-elim IsCounted has_cb
          (λ _. try_recovery-IsCounted (starts k) (held name all) (held-IsCounted name all h))
          (λ _. held-IsCounted name all h))
        h

  settled-AllCounted :
      (r : Result × ℕ) (all : Breakers)
      → AllCounted all
      → AllCounted (settled show limit has_cb name starts world r all)
  unfolding settled
  settled-AllCounted (value v, now) all h =
      if-elim AllCounted has_cb
        (λ _.
          put_breaker-AllCounted name _ all
            (on_success-IsCounted now (held name all) (held-IsCounted name all h)) h)
        (λ _. h)
  settled-AllCounted (failed e, now) all h =
      if-elim AllCounted has_cb
        (λ _.
          put_breaker-AllCounted name _ all
            (on_failure-IsCounted now (held name all) (held-IsCounted name all h)) h)
        (λ _. h)

  concluded-AllCounted :
      (r : Result) (all : Breakers) (rest : Bytes → Returned × Breakers)
      → AllCounted all
      → ((e : Bytes) → AllCounted (rest e).1)
      → AllCounted (concluded show limit has_cb name starts world r all rest).1
  unfolding concluded
  concluded-AllCounted (value v) all rest h g = h
  concluded-AllCounted (failed e) all rest h g = g e

  attempts_nested-AllCounted :
      (left k : ℕ) (last : Option Bytes) (all : Breakers)
      → AllCounted all
      → AllCounted (attempts_nested show limit has_cb name starts world left k last all).1
  unfolding attempts_nested
  attempts_nested-AllCounted zero k last all h = h
  attempts_nested-AllCounted (suc left) k last all h =
      let ready = put_breaker name (admitted show limit has_cb name starts world k all) all in
      let ready_counted = admitted-AllCounted k all h in
      let after_counted =
        settled-AllCounted (execute show limit (world k ready).0) (world k ready).1
          (keeps k ready ready_counted) in
      if-elim (λ (r : Returned × Breakers). AllCounted r.1)
        (has_cb && is_open (admitted show limit has_cb name starts world k all).state)
        (λ _. ready_counted)
        (λ _.
          concluded-AllCounted _ _ _ after_counted
            (λ e. attempts_nested-AllCounted left (suc k) (some e) _ after_counted))

  -- A call keeps the count of every closed breaker below its threshold, whatever its function does to the
  -- breakers, if only it keeps them so itself, as one does that makes such calls again.
  pub resilient_call_nested-AllCounted :
      (retries : ℤ) (all : Breakers)
      → AllCounted all
      → AllCounted (resilient_call_nested show limit has_cb name starts world retries all).1
  unfolding resilient_call_nested get_breaker
  resilient_call_nested-AllCounted retries all h =
      attempts_nested-AllCounted (rounds_of retries) 0 none _
        (put_breaker-AllCounted name (held name all) all (held-IsCounted name all h) h)

-- ===== src/Resiliency/Sound.antt =====
-- What the state of a breaker says about its count, through the calls of one caller at a time.
use serv_lang.Prelude.{
  ℕ, zero, suc, ◌≤◌, ◌<◌, ◌≡◌, ◌≢◌, Bool, false, ◌&&◌, [], ◌∷◌, Option, none, Bytes, equal, arith,
  subst, All, if-elim,
}
use serv_lang.Prelude.Int.{ℤ}
use serv_lang.Resiliency.Breaker.{
  closed, CircuitBreaker, new_breaker, Breakers, find_breaker, put_breaker, found_or_new,
  get_breaker, is_open, is_half_open, try_recovery, on_success, on_failure,
}
use serv_lang.Resiliency.Call.{
  Value, Attempt, Result, value, failed, execute, Called, one_more, settle, admit, refuses, finish,
  error_of, attempts, rounds_of, resilient_call,
}

-- A closed breaker has counted fewer failures than its threshold, any other at least as many.
pub record IsSound (cb : CircuitBreaker) : Type 0 where
  pub positive : 0 < cb.threshold
  pub below : cb.state ≡ closed → cb.failures < cb.threshold
  pub tripped : cb.state ≢ closed → cb.threshold ≤ cb.failures

try_recovery-IsSound : (now : ℕ) (cb : CircuitBreaker) → IsSound cb → IsSound (try_recovery now cb)
unfolding try_recovery is_open
try_recovery-IsSound now cb h = ground arith

on_success-IsSound :
    (now : ℕ) (cb : CircuitBreaker)
    → is_open cb.state ≡ false
    → IsSound cb
    → IsSound (on_success now cb)
unfolding on_success is_open is_half_open
on_success-IsSound now cb ne h = ground arith

on_failure-IsSound : (now : ℕ) (cb : CircuitBreaker) → IsSound cb → IsSound (on_failure now cb)
unfolding on_failure
on_failure-IsSound now cb h = ground arith

pub new_breaker-IsSound : IsSound new_breaker
new_breaker-IsSound = ground arith

module _ (show : Value → Bytes) (limit : ℕ) (has_cb : Bool) (world : ℕ → Attempt) where
  admit-IsSound :
      (now : ℕ) (cb : CircuitBreaker) → IsSound cb → IsSound (admit show limit has_cb world now cb)
  unfolding admit
  admit-IsSound now cb h = if-elim IsSound has_cb (λ _. try_recovery-IsSound now cb h) (λ _. h)

  settle-IsSound :
      (r : Result × ℕ) (cb : CircuitBreaker)
      → refuses show limit has_cb world cb ≡ false
      → IsSound cb
      → IsSound (settle show limit has_cb world r cb)
  unfolding settle refuses
  settle-IsSound (value v, now) cb e h =
      if-elim IsSound has_cb
        (λ on. on_success-IsSound now cb (subst (λ b. (b && is_open cb.state) ≡ false) on e) h)
        (λ _. h)
  settle-IsSound (failed x, now) cb e h =
      if-elim IsSound has_cb (λ _. on_failure-IsSound now cb h) (λ _. h)

  finish-IsSound :
      (r : Result) (cb : CircuitBreaker) (rest : Called)
      → IsSound cb
      → IsSound rest.breaker
      → IsSound (finish show limit has_cb world r cb rest).breaker
  unfolding finish one_more
  finish-IsSound (value v) cb rest h g = h
  finish-IsSound (failed e) cb rest h g = g

  attempts-IsSound :
      (left k : ℕ) (last : Option Bytes) (cb : CircuitBreaker)
      → IsSound cb
      → IsSound (attempts show limit has_cb world left k last cb).breaker
  unfolding attempts
  attempts-IsSound zero k last cb h = h
  attempts-IsSound (suc left) k last cb h =
      let ready = admit show limit has_cb world (world k).started cb in
      let ready_sound = admit-IsSound (world k).started cb h in
      let (result, now) = execute show limit (world k) in
      let after = settle show limit has_cb world (result, now) ready in
      let rest =
        attempts show limit has_cb world left (suc k) (error_of show limit has_cb world result last)
          after in
      if-elim (λ c. IsSound (Called.breaker c)) (refuses show limit has_cb world ready)
        (λ _. ready_sound)
        (λ admitted.
          let after_sound = settle-IsSound (result, now) ready admitted ready_sound in
          finish-IsSound result after rest after_sound
            (attempts-IsSound left (suc k) _ after after_sound))

abbrev pub AllSound : Breakers → Type 0
AllSound = All (λ entry. IsSound entry.1)

found_or_new-IsSound :
    (name : Bytes) (all : Breakers) → AllSound all → IsSound (found_or_new (find_breaker name all))
unfolding found_or_new find_breaker
found_or_new-IsSound name [] h = new_breaker-IsSound
found_or_new-IsSound name ((key, cb) ∷ rest) (h, hs) =
    if-elim (λ o. IsSound (found_or_new o)) (equal key name) (λ _. h)
      (λ _. found_or_new-IsSound name rest hs)

put_breaker-AllSound :
    (name : Bytes) (cb : CircuitBreaker) (all : Breakers)
    → IsSound cb
    → AllSound all
    → AllSound (put_breaker name cb all)
unfolding put_breaker
put_breaker-AllSound name cb [] h hs = (h, tt)
put_breaker-AllSound name cb ((key, old) ∷ rest) h (g, hs) =
    if-elim AllSound (equal key name) (λ _. (h, hs))
      (λ _. (g, put_breaker-AllSound name cb rest h hs))

-- Whatever the runs of a wrapped function return that makes no resilient call itself, a call without
-- others beside it leaves every breaker of the map sound where every one was: a closed breaker has counted
-- fewer failures than its threshold, an open or half-open one at least as many.
pub resilient_call-AllSound :
    (show : Value → Bytes) (name : Bytes) (world : ℕ → Attempt) (retries : ℤ) (limit : ℕ)
    (has_cb : Bool) (all : Breakers)
    → AllSound all
    → AllSound (resilient_call show name world retries limit has_cb all).1
unfolding resilient_call get_breaker
resilient_call-AllSound show name world retries limit has_cb all h =
    let cb = found_or_new (find_breaker name all) in
    let sound = found_or_new-IsSound name all h in
    put_breaker-AllSound name _ (put_breaker name cb all)
      (attempts-IsSound show limit has_cb world (rounds_of retries) 0 none cb sound)
      (put_breaker-AllSound name cb all sound h)

-- ===== src/Resiliency/Rounds.antt =====
-- The rounds of `ResilientCall` one by one, and how many of them a call runs.
use serv_lang.Prelude.{ℕ, suc, ◌≡◌, refl, Bool, true, false, Option, some, Bytes}
use serv_lang.Resiliency.Breaker.{CircuitBreaker}
use serv_lang.Resiliency.Call.{
  Value, Attempt, Result, value, failed, execute, returns, breaker_open, gives_up, one_more, settle,
  admit, refuses, finish, error_of, attempts,
}

module _ (show : Value → Bytes) (limit : ℕ) (has_cb : Bool) (world : ℕ → Attempt) where
  -- What round `k` ends with, and when.
  abbrev pub outcome : ℕ → Result
  outcome k = (execute show limit (world k)).0

  abbrev pub ended : ℕ → ℕ
  ended k = (execute show limit (world k)).1

  abbrev pub Fails : ℕ → Type 0
  Fails k = (e : Bytes) × outcome k ≡ failed e

  pub refused_round :
      (left k : ℕ) (last : Option Bytes) (cb : CircuitBreaker)
      → refuses show limit has_cb world (admit show limit has_cb world (world k).started cb) ≡ true
      → attempts show limit has_cb world (suc left) k last cb ≡ record {
        returned = breaker_open;
        breaker = admit show limit has_cb world (world k).started cb;
        runs = 0;
      }
  unfolding attempts
  refused_round left k last cb e = rw e

  pub value_round :
      (left k : ℕ) (last : Option Bytes) (cb : CircuitBreaker) (v : Value)
      → refuses show limit has_cb world (admit show limit has_cb world (world k).started cb) ≡ false
      → outcome k ≡ value v
      → attempts show limit has_cb world (suc left) k last cb ≡ record {
        returned = returns v;
        breaker =
            settle show limit has_cb world
              (value v, ended k)
              (admit show limit has_cb world (world k).started cb);
        runs = 1;
      }
  unfolding attempts finish
  value_round left k last cb v e o = rw (e, o)

  pub failed_round :
      (left k : ℕ) (last : Option Bytes) (cb : CircuitBreaker) (x : Bytes)
      → refuses show limit has_cb world (admit show limit has_cb world (world k).started cb) ≡ false
      → outcome k ≡ failed x
      → attempts show limit has_cb world (suc left) k last cb
        ≡ one_more (
            attempts show limit has_cb world left (suc k) (some x) (
              settle show limit has_cb world
                (failed x, ended k)
                (admit show limit has_cb world (world k).started cb)))
  unfolding attempts finish error_of
  failed_round left k last cb x e o = rw (e, o)

  pub no_round :
      (k : ℕ) (last : Option Bytes) (cb : CircuitBreaker)
      → attempts show limit has_cb world 0 k last cb
        ≡ record { returned = gives_up last; breaker = cb; runs = 0 }
  unfolding attempts
  no_round k last cb = refl

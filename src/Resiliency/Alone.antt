-- ===== src/Resiliency/Alone.antt =====
-- A call of `ResilientCall` whose function leaves the breakers alone.
use serv_lang.Prelude.{ℕ, Bool, Bytes}
use serv_lang.Resiliency.Breaker.{Breakers, put_breaker}
use serv_lang.Resiliency.Call.{Value, Attempt, Returned, Called}

module _ (show : Value → Bytes) (limit : ℕ) (has_cb : Bool) (name : Bytes)
    (world : ℕ → Attempt) where
  -- When the rounds of such a function begin, and that it leaves the breakers alone.
  abbrev begins : ℕ → ℕ
  begins k = (world k).started

  abbrev alone : ℕ → Breakers → Attempt × Breakers
  alone k all = (world k, all)

  -- What a call returns and leaves, of the two.
  abbrev result_of : Breakers → Called → Returned × Breakers
  result_of all c = (c.returned, put_breaker name c.breaker all)

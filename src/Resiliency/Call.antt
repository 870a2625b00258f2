-- ===== src/Resiliency/Call.antt =====
-- `ResilientCall` and `isErrorValue` of runtime/resiliency.go, run by one caller. The wrapped
-- function is the caller's: what its runs return, and when, is an argument. It makes no resilient call
-- itself, so that the breakers are the call's own.
use serv_lang.Prelude.{
  ℕ, zero, suc, ◌+◌, Bool, ◌&&◌, ◌++◌, Option, none, some, Bytes, codes, equal, ltb, if◌then◌else◌,
}
use serv_lang.Prelude.Int.{ℤ, pos, negsuc}
use serv_lang.Resiliency.Breaker.{
  CircuitBreaker, is_open, try_recovery, on_success, on_failure, Breakers, get_breaker, put_breaker,
}

-- Dynamic values, as far as `isErrorValue` looks into them; an error is its text.
mutual
  pub data Value : Type 0 where
    nothing : Value
    error : Bytes → Value
    pair : Value → Value → Value
    map_value : Fields → Value
    safe_map : Fields → Value
    scalar : Bytes → Value

  pub data Fields : Type 0 where
    no_fields : Fields
    field : Bytes → Value → Fields → Fields

unfoldable pub get_field : Bytes → Fields → Value
unfolding equal
get_field key no_fields = nothing
get_field key (field k v rest) = if equal k key then v else get_field key rest

-- `fmt.Errorf("%v", v)` where `v` is not nil; the text of a value that is no error and no scalar is
-- left open.
unfoldable pub field_error : (Value → Bytes) → Value → Option Bytes
field_error show nothing = none
field_error show v = some (show v)

unfoldable pub is_error_value : (Value → Bytes) → Value → Option Bytes
unfolding get_field field_error
is_error_value show nothing = none
is_error_value show (error e) = some e
is_error_value show (pair _ (error e)) = some e
is_error_value show (pair _ _) = none
is_error_value show (map_value fs) = field_error show (get_field (codes "error") fs)
is_error_value show (safe_map fs) = field_error show (get_field (codes "error") fs)
is_error_value show (scalar s) = none

-- How a run of the function ends.
pub data Run : Type 0 where
  gives : Value → Run
  panics : Bytes → Run

-- One round: the clock at its start, how long the function runs, and how that ends.
pub record Attempt : Type 0 where
  pub started : ℕ
  pub took : ℕ
  pub run : Run

pub data Result : Type 0 where
  value : Value → Result
  failed : Bytes → Result

unfoldable pub classify : Value → Option Bytes → Result
classify v none = value v
classify v (some e) = failed e

unfoldable pub run_result : (Value → Bytes) → Run → Result
unfolding is_error_value classify
run_result show (gives v) = classify v (is_error_value show v)
run_result show (panics e) = failed (codes "panic: " ++ e)

-- `executeWithTimeout`, and the clock behind it; a timeout of 0 waits for the function.
unfoldable pub execute : (Value → Bytes) → ℕ → Attempt → Result × ℕ
unfolding run_result
execute show limit a =
    if ltb 0 limit && ltb limit a.took
    then (failed (codes "timeout exceeded"), a.started + limit)
    else (run_result show a.run, a.started + a.took)

-- What a call returns: the value, or the pair of nil and an error, which is nil where no attempt
-- was made.
pub data Returned : Type 0 where
  returns : Value → Returned
  breaker_open : Returned
  gives_up : Option Bytes → Returned

-- The breaker behind a call, and how often the function has run.
pub record Called : Type 0 where
  pub returned : Returned
  pub breaker : CircuitBreaker
  pub runs : ℕ

unfoldable pub one_more : Called → Called
one_more c = record c { runs = suc c.runs }

-- The rounds that are left, from round `k` on; `world` says how each one goes.
module _ (show : Value → Bytes) (limit : ℕ) (has_cb : Bool) (world : ℕ → Attempt) where
  -- The breaker behind a round that has run the function.
  unfoldable pub settle : Result × ℕ → CircuitBreaker → CircuitBreaker
  settle (value v, now) cb = if has_cb then on_success now cb else cb
  settle (failed e, now) cb = if has_cb then on_failure now cb else cb

  unfoldable pub admit : ℕ → CircuitBreaker → CircuitBreaker
  admit now cb = if has_cb then try_recovery now cb else cb

  unfoldable pub refuses : CircuitBreaker → Bool
  refuses cb = has_cb && is_open cb.state

  -- A success is returned; behind a failure `rest` goes on.
  unfoldable pub finish : Result → CircuitBreaker → Called → Called
  unfolding one_more
  finish (value v) cb rest = record { returned = returns v; breaker = cb; runs = 1 }
  finish (failed e) cb rest = one_more rest

  unfoldable pub error_of : Result → Option Bytes → Option Bytes
  error_of (value v) last = last
  error_of (failed e) last = some e

  unfoldable pub attempts : ℕ → ℕ → Option Bytes → CircuitBreaker → Called
  unfolding settle admit refuses finish error_of
  attempts zero k last cb = record { returned = gives_up last; breaker = cb; runs = 0 }
  attempts (suc left) k last cb =
      let ready = admit (world k).started cb in
      let (result, now) = execute show limit (world k) in
      let after = settle (result, now) ready in
      let rest = attempts left (suc k) (error_of result last) after in
      if refuses ready
      then record { returned = breaker_open; breaker = ready; runs = 0 }
      else finish result after rest

-- `for attempt := 0; attempt <= retries; attempt++`
unfoldable pub rounds_of : ℤ → ℕ
rounds_of (pos n) = suc n
rounds_of (negsuc n) = 0

-- `ResilientCall` behind the parsing of its timeout: the map of breakers with the new one in it.
unfoldable pub resilient_call :
    (Value → Bytes) → Bytes → (ℕ → Attempt) → ℤ → ℕ → Bool → Breakers → Called × Breakers
unfolding attempts rounds_of get_breaker
resilient_call show name world retries limit has_cb all =
    let (cb, known) = get_breaker name all in
    let called = attempts show limit has_cb world (rounds_of retries) 0 none cb in
    (called, put_breaker name called.breaker known)

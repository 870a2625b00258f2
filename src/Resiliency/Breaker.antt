-- ===== src/Resiliency/Breaker.antt =====
-- The circuit breakers of runtime/resiliency.go and the three critical sections of `ResilientCall`
-- on them. Times are nanoseconds of one clock, durations likewise.
use serv_lang.Prelude.{
  ℕ, ◌+◌, ◌-◌, Bool, true, false, ◌&&◌, List, [], ◌∷◌, Option, none, some, Bytes, equal, ltb, leb,
  if◌then◌else◌,
}

pub data CbState : Type 0 where
  closed open_state half_open : CbState

pub record CircuitBreaker : Type 0 where
  pub state : CbState
  pub failures : ℕ
  pub threshold : ℕ
  pub timeout : ℕ
  pub last_change : ℕ

-- `&CircuitBreaker{…}` of `getBreaker`; the zero `time.Time` lies before every other time.
abbrev pub new_breaker : CircuitBreaker
new_breaker = record {
  state = closed;
  failures = 0;
  threshold = 3;
  timeout = 2_000_000_000;
  last_change = 0;
}

abbrev pub Breakers : Type 0
Breakers = List (Bytes × CircuitBreaker)

-- `breakers[name]`
unfoldable pub find_breaker : Bytes → Breakers → Option CircuitBreaker
unfolding equal
find_breaker name [] = none
find_breaker name ((key, cb) ∷ rest) = if equal key name then some cb else find_breaker name rest

-- `breakers[name] = cb`
unfoldable pub put_breaker : Bytes → CircuitBreaker → Breakers → Breakers
unfolding equal
put_breaker name cb [] = (name, cb) ∷ []
put_breaker name cb ((key, old) ∷ rest) =
    if equal key name then (key, cb) ∷ rest else (key, old) ∷ put_breaker name cb rest

unfoldable pub found_or_new : Option CircuitBreaker → CircuitBreaker
found_or_new none = new_breaker
found_or_new (some cb) = cb

-- `getBreaker`: the breaker, and the map with it.
unfoldable pub get_breaker : Bytes → Breakers → CircuitBreaker × Breakers
unfolding find_breaker put_breaker found_or_new
get_breaker name all =
    let cb = found_or_new (find_breaker name all) in (cb, put_breaker name cb all)

unfoldable pub is_open : CbState → Bool
is_open open_state = true
is_open _ = false

unfoldable pub is_half_open : CbState → Bool
is_half_open half_open = true
is_half_open _ = false

-- The first section: an open breaker whose time is over becomes half open.
unfoldable pub try_recovery : ℕ → CircuitBreaker → CircuitBreaker
unfolding is_open
try_recovery now cb =
    if is_open cb.state && ltb cb.timeout (now - cb.last_change)
    then record cb { state = half_open; last_change = now }
    else cb

-- The second section, behind a success.
unfoldable pub on_success : ℕ → CircuitBreaker → CircuitBreaker
unfolding is_half_open
on_success now cb =
    if is_half_open cb.state
    then record cb { state = closed; failures = 0; last_change = now }
    else record cb { failures = 0 }

-- The third section, behind a failure.
unfoldable pub on_failure : ℕ → CircuitBreaker → CircuitBreaker
on_failure now cb =
    if leb cb.threshold (cb.failures + 1)
    then record cb { failures = cb.failures + 1; state = open_state; last_change = now }
    else record cb { failures = cb.failures + 1 }

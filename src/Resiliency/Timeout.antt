-- ===== src/Resiliency/Timeout.antt =====
-- The timeout of `ResilientCall`, and `strconvAtoi`, of runtime/resiliency.go. `time.ParseDuration`
-- is a parameter: the nanoseconds of a text, or none where it returns an error and 0.
use serv_lang.Prelude.{
  ℕ, ◌+◌, ◌-◌, ◌*◌, ◌^◌, ◌≤◌, ◌<◌, ◌≡◌, ◌∙◌, ap, Bool, true, ◌&&◌, [], ◌∷◌, Option, none, some,
  Bytes, leb, if◌then◌else◌, arith,
}
use serv_lang.Prelude.Int.{ℤ, pos, negsuc, ◌+ℤ◌, ◌*ℤ◌}
use serv_lang.GoStrings.{digits_value}
use serv_lang.Resiliency.Breaker.{Breakers}
use serv_lang.Resiliency.Call.{Value, Attempt, Called, resilient_call}
use serv_lang.GoInt.{wrap, wrap-id, add64, mul64}

-- The loop over the bytes; a byte of a longer character is no digit, as the character is none.
unfoldable pub atoi_loop : ℤ → Bytes → Option ℤ
unfolding add64 mul64
atoi_loop res [] = some res
atoi_loop res (c ∷ cs) =
    let rest = atoi_loop (add64 (mul64 res (pos 10)) (pos (c - b'0'))) cs in
    if leb b'0' c && leb c b'9' then rest else none

-- `strconvAtoi`
unfoldable pub strconv_atoi : Bytes → Option ℤ
unfolding atoi_loop
strconv_atoi s = atoi_loop (pos 0) s

-- A number without a unit counts seconds.
unfoldable pub seconds_or_none : Option ℤ → ℤ
unfolding mul64
seconds_or_none none = pos 0
seconds_or_none (some v) = mul64 v (pos 1_000_000_000)

unfoldable pub duration_or : Option ℤ → Option ℤ → ℤ
unfolding seconds_or_none
duration_or (some d) v = d
duration_or none v = seconds_or_none v

-- The nanoseconds of `timeoutStr`.
unfoldable pub timeout_of : (Bytes → Option ℤ) → Bytes → ℤ
unfolding duration_or strconv_atoi
timeout_of parse_duration [] = pos 0
timeout_of parse_duration (c ∷ cs) = duration_or (parse_duration (c ∷ cs)) (strconv_atoi (c ∷ cs))

-- `timeout > 0`: any other waits for the function, which `execute` knows as 0.
unfoldable pub limit_of : ℤ → ℕ
limit_of (pos n) = n
limit_of (negsuc n) = 0

-- `ResilientCall` with the text of its timeout.
unfoldable pub resilient_call_within :
    (Bytes → Option ℤ)
    → (Value → Bytes)
    → Bytes
    → (ℕ → Attempt)
    → ℤ
    → Bytes
    → Bool
    → Breakers
    → Called × Breakers
unfolding limit_of timeout_of resilient_call
resilient_call_within parse_duration show name world retries timeout has_cb all =
    resilient_call show name world retries (limit_of (timeout_of parse_duration timeout)) has_cb all

times_ten : (a : ℕ) → pos a *ℤ pos 10 ≡ pos (a * 10)
unfolding ◌*ℤ◌
times_ten a = ground arith

times_second : (a : ℕ) → pos a *ℤ pos 1_000_000_000 ≡ pos (a * 1_000_000_000)
unfolding ◌*ℤ◌
times_second a = ground arith

plus_pos : (a b : ℕ) → pos a +ℤ pos b ≡ pos (a + b)
unfolding ◌+ℤ◌
plus_pos a b = ground arith

wrap-pos : (n : ℕ) → n < 2 ^ 63 → wrap (pos n) ≡ pos n
wrap-pos n h = wrap-id (pos n) (omega arith)

shift_small :
    (a d : ℕ) → a * 10 + d < 2 ^ 63 → add64 (mul64 (pos a) (pos 10)) (pos d) ≡ pos (a * 10 + d)
unfolding add64 mul64
shift_small a d h =
    let product = ap wrap (times_ten a) ∙ wrap-pos (a * 10) (omega arith) in
    ap (λ x. wrap (x +ℤ pos d)) product ∙ ap wrap (plus_pos (a * 10) d) ∙ wrap-pos (a * 10 + d) h

digits_value_step :
    (a c v : ℕ) (cs : Bytes)
    → digits_value a (c ∷ cs) ≡ some v
    → (b'0' ≤ c) × (c ≤ b'9') × (digits_value (a * 10 + (c - b'0')) cs ≡ some v)
unfolding digits_value
digits_value_step a c v cs h = ground arith

digits_value_grows : (a v : ℕ) (s : Bytes) → digits_value a s ≡ some v → a ≤ v
unfolding digits_value
digits_value_grows a v [] h = ground arith
digits_value_grows a v (c ∷ cs) h =
    let grows = digits_value_grows (a * 10 + (c - b'0')) v cs (digits_value_step a c v cs h).2 in
    omega arith

digits_value_nil : (a v : ℕ) → digits_value a [] ≡ some v → a ≡ v
unfolding digits_value
digits_value_nil a v h = ground arith

atoi_loop-digits_value :
    (a v : ℕ) (s : Bytes)
    → digits_value a s ≡ some v
    → v < 2 ^ 63
    → atoi_loop (pos a) s ≡ some (pos v)
unfolding atoi_loop
atoi_loop-digits_value a v [] h small = ap (λ n. some (pos n)) (digits_value_nil a v h)
atoi_loop-digits_value a v (c ∷ cs) h small =
    let (low, high, rest) = digits_value_step a c v cs h in
    let grows = digits_value_grows (a * 10 + (c - b'0')) v cs rest in
    let step = shift_small a (c - b'0') (omega arith) in
    let later = atoi_loop-digits_value (a * 10 + (c - b'0')) v cs rest small in
    let digit : leb b'0' c && leb c b'9' ≡ true = ground arith in
    rw digit (ap (λ z. atoi_loop z cs) step ∙ later)

mul64_second :
    (n : ℕ)
    → n * 1_000_000_000 < 2 ^ 63
    → mul64 (pos n) (pos 1_000_000_000) ≡ pos (n * 1_000_000_000)
unfolding mul64
mul64_second n h = ap wrap (times_second n) ∙ wrap-pos (n * 1_000_000_000) h

timeout_of-digits_value :
    (parse_duration : Bytes → Option ℤ) (c : ℕ) (cs : Bytes) (n : ℕ)
    → parse_duration (c ∷ cs) ≡ none
    → digits_value 0 (c ∷ cs) ≡ some n
    → n * 1_000_000_000 < 2 ^ 63
    → timeout_of parse_duration (c ∷ cs) ≡ pos (n * 1_000_000_000)
unfolding timeout_of duration_or strconv_atoi seconds_or_none
timeout_of-digits_value parse_duration c cs n refused digits small =
    rw (refused, atoi_loop-digits_value 0 n (c ∷ cs) digits (omega arith)) (mul64_second n small)

-- A timeout text that `time.ParseDuration` refuses and that writes a number in decimal digits stands
-- for as many seconds: the call goes as with a limit of that many times a billion nanoseconds, which
-- must be an `int64`.
pub resilient_call_within-digits_value :
    (parse_duration : Bytes → Option ℤ) (show : Value → Bytes) (name : Bytes) (world : ℕ → Attempt)
    (retries : ℤ) (c : ℕ) (cs : Bytes) (n : ℕ) (has_cb : Bool) (all : Breakers)
    → parse_duration (c ∷ cs) ≡ none
    → digits_value 0 (c ∷ cs) ≡ some n
    → n * 1_000_000_000 < 2 ^ 63
    → resilient_call_within parse_duration show name world retries (c ∷ cs) has_cb all
      ≡ resilient_call show name world retries (n * 1_000_000_000) has_cb all
unfolding resilient_call_within limit_of
resilient_call_within-digits_value parse_duration show name world retries c cs n has_cb all refused
      digits small =
    ap (λ t. resilient_call show name world retries (limit_of t) has_cb all)
      (timeout_of-digits_value parse_duration c cs n refused digits small)

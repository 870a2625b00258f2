-- ===== src/GoInt.antt =====
-- Go's `int64`: integers that wrap to 64 bits, with truncated division, and their decimal text.
use serv_lang.Prelude.{
  ℕ, zero, suc, ◌+◌, ◌-◌, ◌/◌, ◌%◌, ◌^◌, ◌<◌, ◌≡◌, Bool, false, [], ◌∷◌, Bytes, ltb, ◌==◌,
  if◌then◌else◌, arith,
}
use serv_lang.Prelude.Int.{ℤ, pos, negsuc, ◌+ℤ◌, ◌-ℤ◌, ◌*ℤ◌, ◌≤ℤ◌}

-- The residue of an integer modulo 2^64.
unfoldable pub residue : ℤ → ℕ
residue (pos n) = n % 2 ^ 64
residue (negsuc n) = 2 ^ 64 - 1 - n % 2 ^ 64

-- The `int64` with the bits of a residue.
unfoldable pub of_bits : ℕ → ℤ
of_bits r = if ltb r (2 ^ 63) then pos r else negsuc (2 ^ 64 - 1 - r)

unfoldable pub wrap : ℤ → ℤ
unfolding residue of_bits
wrap z = of_bits (residue z)

unfoldable pub add64 : ℤ → ℤ → ℤ
unfolding wrap ◌+ℤ◌
add64 a b = wrap (a +ℤ b)

unfoldable pub sub64 : ℤ → ℤ → ℤ
unfolding wrap ◌-ℤ◌
sub64 a b = wrap (a -ℤ b)

unfoldable pub mul64 : ℤ → ℤ → ℤ
unfolding wrap ◌*ℤ◌
mul64 a b = wrap (a *ℤ b)

unfoldable pub neg64 : ℤ → ℤ
unfolding sub64
neg64 a = sub64 (pos 0) a

-- `-n` for a natural number.
unfoldable pub minus : ℕ → ℤ
minus zero = pos 0
minus (suc n) = negsuc n

-- Division rounds to zero; it is used only where the divisor is not 0.
unfoldable pub quo64 : ℤ → ℤ → ℤ
unfolding wrap minus
quo64 (pos a) (pos b) = wrap (pos (a / b))
quo64 (pos a) (negsuc b) = wrap (minus (a / suc b))
quo64 (negsuc a) (pos b) = wrap (minus (suc a / b))
quo64 (negsuc a) (negsuc b) = wrap (pos (suc a / suc b))

-- The remainder has the sign of the dividend.
unfoldable pub rem64 : ℤ → ℤ → ℤ
unfolding minus
rem64 (pos a) (pos b) = pos (a % b)
rem64 (pos a) (negsuc b) = pos (a % suc b)
rem64 (negsuc a) (pos b) = minus (suc a % b)
rem64 (negsuc a) (negsuc b) = minus (suc a % suc b)

unfoldable pub eqb_ℤ : ℤ → ℤ → Bool
eqb_ℤ (pos a) (pos b) = a == b
eqb_ℤ (negsuc a) (negsuc b) = a == b
eqb_ℤ (pos a) (negsuc b) = false
eqb_ℤ (negsuc a) (pos b) = false

abbrev pub IsInt64 : ℤ → Type 0
IsInt64 z = (negsuc (2 ^ 63 - 1) ≤ℤ z) × (z ≤ℤ pos (2 ^ 63 - 1))

residue-lt : (z : ℤ) → residue z < 2 ^ 64
unfolding residue
residue-lt (pos n) = omega arith
residue-lt (negsuc n) = omega arith

of_bits-IsInt64 : (r : ℕ) → r < 2 ^ 64 → IsInt64 (of_bits r)
unfolding of_bits
of_bits-IsInt64 r h = ground arith

pub wrap-IsInt64 : (z : ℤ) → IsInt64 (wrap z)
unfolding wrap
wrap-IsInt64 z = of_bits-IsInt64 (residue z) (residue-lt z)

pub wrap-id : (z : ℤ) → IsInt64 z → wrap z ≡ z
unfolding wrap residue of_bits
wrap-id (pos n) h = ground arith
wrap-id (negsuc n) h = ground arith

-- `strconv.FormatInt(n, 10)`
unfoldable pub decimal : ℕ → ℕ → Bytes → Bytes
decimal zero n acc = acc
decimal (suc f) n acc =
    let rest = decimal f (n / 10) ((b'0' + n % 10) ∷ acc) in
    if ltb n 10 then (b'0' + n) ∷ acc else rest

unfoldable pub format_int : ℤ → Bytes
unfolding decimal
format_int (pos n) = decimal (suc n) n []
format_int (negsuc n) = b'-' ∷ decimal (suc (suc n)) (suc n) []

-- ===== src/GoStrings.antt =====
-- The functions of Go's `strings` and `strconv` packages that the modelled code calls, over the
-- bytes of UTF-8 text.
use Prim.Native.Nat.{ℕ, zero, suc, ◌+◌, ◌-◌, ◌*◌}
use mathlib.Core.List.{reverse}
use serv_lang.Prelude.{
  Bool, true, false, ◌&&◌, ◌||◌, List, [], ◌∷◌, ◌++◌, Option, none, some, Bytes, ◌==◌, leb,
  if◌then◌else◌,
}

-- The front of a list with one more byte on its first part.
unfoldable pub push_byte : ℕ → List Bytes → List Bytes
push_byte c [] = (c ∷ []) ∷ []
push_byte c (part ∷ parts) = (c ∷ part) ∷ parts

-- `strings.Split(s, sep)` for a separator of one byte.
unfoldable pub split : ℕ → Bytes → List Bytes
unfolding push_byte
split sep [] = [] ∷ []
split sep (c ∷ cs) = let rest = split sep cs in if c == sep then [] ∷ rest else push_byte c rest

-- `strings.Join(parts, sep)` for a separator of one byte.
unfoldable pub join : ℕ → List Bytes → Bytes
join sep [] = []
join sep (part ∷ []) = part
join sep (part ∷ more ∷ parts) = part ++ (sep ∷ join sep (more ∷ parts))

-- `strings.HasPrefix`
unfoldable pub has_prefix : Bytes → Bytes → Bool
has_prefix s [] = true
has_prefix [] (p ∷ ps) = false
has_prefix (c ∷ s) (p ∷ ps) = c == p && has_prefix s ps

-- `strings.TrimPrefix`
unfoldable pub trim_prefix : Bytes → Bytes → Bytes
trim_prefix s [] = s
trim_prefix [] (p ∷ ps) = []
trim_prefix (c ∷ s) (p ∷ ps) = if has_prefix (c ∷ s) (p ∷ ps) then cut s ps else c ∷ s
  where
    cut : Bytes → Bytes → Bytes
    cut s [] = s
    cut [] (p ∷ ps) = []
    cut (c ∷ s) (p ∷ ps) = cut s ps

-- The white space of `unicode.IsSpace` in one byte.
unfoldable pub is_ascii_space : ℕ → Bool
is_ascii_space c = leb b'\t' c && leb c b'\r' || c == b' '

-- U+0085 and U+00A0, in two bytes.
unfoldable pub is_space₂ : ℕ → ℕ → Bool
is_space₂ a b = a == 0xc2 && (b == 0x85 || b == 0xa0)

-- U+1680, U+2000 to U+200A, U+2028, U+2029, U+202F, U+205F and U+3000, in three bytes.
unfoldable pub is_space₃ : ℕ → ℕ → ℕ → Bool
is_space₃ a b c =
    a == 0xe1 && (b == 0x9a && c == 0x80)
    || a == 0xe2 && (b == 0x80 && (leb 0x80 c && leb c 0x8a || c == 0xa8 || c == 0xa9 || c == 0xaf))
    || a == 0xe2 && (b == 0x81 && c == 0x9f)
    || a == 0xe3 && (b == 0x80 && c == 0x80)

-- The width of the white space that a text begins with, 0 where it begins with none.
unfoldable pub space_width : Bytes → ℕ
unfolding is_ascii_space is_space₂ is_space₃
space_width [] = 0
space_width (a ∷ []) = if is_ascii_space a then 1 else 0
space_width (a ∷ b ∷ []) = if is_ascii_space a then 1 else if is_space₂ a b then 2 else 0
space_width (a ∷ b ∷ c ∷ _) =
    if is_ascii_space a then 1 else if is_space₂ a b then 2 else if is_space₃ a b c then 3 else 0

-- The same for a text that is read from its end.
unfoldable pub space_width_back : Bytes → ℕ
unfolding is_ascii_space is_space₂ is_space₃
space_width_back [] = 0
space_width_back (a ∷ []) = if is_ascii_space a then 1 else 0
space_width_back (a ∷ b ∷ []) = if is_ascii_space a then 1 else if is_space₂ b a then 2 else 0
space_width_back (a ∷ b ∷ c ∷ _) =
    if is_ascii_space a then 1 else if is_space₂ b a then 2 else if is_space₃ c b a then 3 else 0

-- White space is dropped from the front; the number counts bytes of a character begun before.
unfoldable pub trim_front : (Bytes → ℕ) → ℕ → Bytes → Bytes
trim_front width k [] = []
trim_front width (suc k) (c ∷ cs) = trim_front width k cs
trim_front width zero (c ∷ cs) =
    let w = width (c ∷ cs) in
    let rest = trim_front width (w - 1) cs in if w == 0 then c ∷ cs else rest

-- `strings.TrimSpace`
unfoldable pub trim_space : Bytes → Bytes
unfolding trim_front space_width space_width_back
trim_space s = reverse (trim_front space_width_back 0 (reverse (trim_front space_width 0 s)))

-- `s[:strings.IndexAny(s, chars)]`, the whole text where no byte of `chars` is in it.
unfoldable pub before_any : (ℕ → Bool) → Bytes → Bytes
before_any stops [] = []
before_any stops (c ∷ cs) = let rest = before_any stops cs in if stops c then [] else c ∷ rest

-- The digits of `strconv.Atoi`, behind its sign; `none` at a byte that is no digit.
unfoldable pub digits_value : ℕ → Bytes → Option ℕ
digits_value acc [] = some acc
digits_value acc (c ∷ cs) =
    let rest = digits_value (acc * 10 + (c - b'0')) cs in
    if leb b'0' c && leb c b'9' then rest else none

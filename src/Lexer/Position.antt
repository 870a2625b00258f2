-- ===== src/Lexer/Position.antt =====
-- What a lexer state means: its place in the input, and the line and column of that place.
use serv_lang.Prelude.{
  ℕ, zero, suc, ◌+◌, ◌≡◌, ◌≢◌, refl, [], ◌∷◌, Bytes, get_or, ◌==◌, if◌then◌else◌, arith,
  get_or-beyond,
}
use serv_lang.Lexer.Cursor.{Lexer, read_char, skip_char, peek_char}

-- The byte at a place, 0 past the end.
abbrev pub byte_at : Bytes → ℕ → ℕ
byte_at xs p = get_or xs p 0

-- The line that holds place `p`, counted from `n`.
abbrev pub line_from : ℕ → Bytes → ℕ → ℕ
line_from n xs zero = n
line_from n [] (suc p) = n
line_from n (x ∷ xs) (suc p) = line_from (if x == b'\n' then n + 1 else n) xs p

-- The column of place `p`, where `c` is the column of the first byte.
abbrev pub col_from : ℕ → Bytes → ℕ → ℕ
col_from c xs zero = c
col_from c [] (suc p) = col_from (c + 1) [] p
col_from c (x ∷ xs) (suc p) = col_from (if x == b'\n' then 1 else c + 1) xs p

pub line_from-suc :
    (n : ℕ) (xs : Bytes) (p : ℕ)
    → line_from n xs (suc p)
      ≡ (if byte_at xs p == b'\n' then line_from n xs p + 1 else line_from n xs p)
line_from-suc n [] zero = refl
line_from-suc n [] (suc p) = refl
line_from-suc n (x ∷ xs) zero = refl
line_from-suc n (x ∷ xs) (suc p) = line_from-suc (if x == b'\n' then n + 1 else n) xs p

pub col_from-suc :
    (c : ℕ) (xs : Bytes) (p : ℕ)
    → col_from c xs (suc p) ≡ (if byte_at xs p == b'\n' then 1 else col_from c xs p + 1)
col_from-suc c [] zero = refl
col_from-suc c [] (suc p) = col_from-suc (c + 1) [] p
col_from-suc c (x ∷ xs) zero = refl
col_from-suc c (x ∷ xs) (suc p) = col_from-suc (if x == b'\n' then 1 else c + 1) xs p

-- `ch` is the byte at `position`, and the next one to read is behind it.
pub record IsPlaced (l : Lexer) : Type 0 where
  pub next : l.read_position ≡ suc l.position
  pub current : l.ch ≡ byte_at l.input l.position

-- The counters say where that is.
pub record IsCounted (l : Lexer) : Type 0 where
  pub line_is : l.line ≡ line_from 1 l.input l.position
  pub col_is : l.col ≡ col_from 1 l.input l.position

pub peek_char_lem : (l : Lexer) → IsPlaced l → peek_char l ≡ byte_at l.input (suc l.position)
unfolding peek_char
peek_char_lem l h = ground (arith, get_or-beyond l.input (suc l.position) 0)

pub read_char-ch : (l : Lexer) → (read_char l).ch ≡ byte_at l.input l.read_position
unfolding read_char
read_char-ch l = ground (arith, get_or-beyond l.input l.read_position 0)

pub read_char-IsPlaced : (l : Lexer) → IsPlaced (read_char l)
unfolding read_char
read_char-IsPlaced l = record { next = omega arith; current = unfold read_char in read_char-ch l }

pub read_char-IsCounted :
    (l : Lexer) → IsPlaced l → IsCounted l → l.ch ≢ b'\n' → IsCounted (read_char l)
unfolding read_char
read_char-IsCounted l p h ne =
    ground (arith, line_from-suc 1 l.input l.position, col_from-suc 1 l.input l.position)

pub skip_char-IsCounted : (l : Lexer) → IsPlaced l → IsCounted l → IsCounted (skip_char l)
unfolding skip_char
skip_char-IsCounted l p h =
    ground (arith, line_from-suc 1 l.input l.position, col_from-suc 1 l.input l.position)

-- No two dots stand in front of a line end.
abbrev pub NoSpreadBreak : Bytes → Type 0
NoSpreadBreak xs =
    (p : ℕ) → byte_at xs p ≡ b'.' → byte_at xs (suc p) ≡ b'.' → byte_at xs (suc (suc p)) ≢ b'\n'

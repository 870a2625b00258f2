-- ===== src/Lexer/Cursor.antt =====
-- The lexer's state and its one-character moves: `Lexer`, `NewLexer`, `readChar`, `peekChar`, the
-- line bookkeeping of its loops, and the loops themselves, which run on fuel.
use serv_lang.Prelude.{
  ℕ, zero, suc, ◌+◌, ◌-◌, Bool, ◌&&◌, ◌||◌, Bytes, length, get_or, take, drop, leb, ◌==◌,
  if◌then◌else◌,
}

pub record Lexer : Type 0 where
  pub input : Bytes
  pub position : ℕ
  pub read_position : ℕ
  pub ch : ℕ
  pub line : ℕ
  pub col : ℕ

unfoldable pub read_char : Lexer → Lexer
read_char l = record l {
  position = l.read_position;
  read_position = l.read_position + 1;
  ch = if leb (length l.input) l.read_position then 0 else get_or l.input l.read_position 0;
  col = l.col + 1;
}

unfoldable pub new_lexer : Bytes → Lexer
new_lexer input =
    read_char (record { input = input; position = 0; read_position = 0; ch = 0; line = 1; col = 0 })

unfoldable pub peek_char : Lexer → ℕ
peek_char l = if leb (length l.input) l.read_position then 0 else get_or l.input l.read_position 0

-- `if l.ch == '\n' { l.line++; l.col = 0 }`, as the loops write it before `readChar`.
unfoldable pub bump_line : Lexer → Lexer
bump_line l = if l.ch == b'\n' then record l { line = l.line + 1; col = 0 } else l

unfoldable pub skip_char : Lexer → Lexer
unfolding bump_line read_char
skip_char l = read_char (bump_line l)

-- `l.input[from:to]`
unfoldable pub slice : Bytes → ℕ → ℕ → Bytes
slice input from to = take (to - from) (drop from input)

-- One round for each byte that is left, and one to see the end.
unfoldable pub rounds : Lexer → ℕ
rounds l = suc (length l.input - l.position)

-- `for test(l.ch) { body }`
unfoldable pub loop : ℕ → (ℕ → Bool) → (Lexer → Lexer) → Lexer → Lexer
loop zero test body l = l
loop (suc n) test body l = let rest = loop n test body (body l) in if test l.ch then rest else l

unfoldable pub for_char : (ℕ → Bool) → (Lexer → Lexer) → Lexer → Lexer
unfolding loop rounds
for_char test body l = loop (rounds l) test body l

unfoldable pub is_letter : ℕ → Bool
is_letter ch = leb b'a' ch && leb ch b'z' || leb b'A' ch && leb ch b'Z' || ch == b'_'

unfoldable pub is_digit : ℕ → Bool
is_digit ch = leb b'0' ch && leb ch b'9'

unfoldable pub is_blank : ℕ → Bool
is_blank ch = ch == b' ' || ch == b'\t' || ch == b'\n' || ch == b'\r'

unfoldable pub is_ident_char : ℕ → Bool
unfolding is_letter is_digit
is_ident_char ch = is_letter ch || is_digit ch || ch == b'_'

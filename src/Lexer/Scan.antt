-- ===== src/Lexer/Scan.antt =====
-- The readers of compiler/lexer.go for blanks, comments, identifiers, numbers and strings.
use serv_lang.Prelude.{ℕ, zero, suc, Bool, not, ◌&&◌, ◌||◌, [], ◌∷◌, Bytes, ◌==◌, if◌then◌else◌}
use serv_lang.Lexer.Token.{TokenType}
use serv_lang.Lexer.Cursor.{
  Lexer, read_char, peek_char, skip_char, slice, rounds, for_char, is_digit, is_blank,
  is_ident_char,
}
use serv_lang.Lexer.Dedent.{dedent}

unfoldable pub skip_whitespace : Lexer → Lexer
skip_whitespace l = for_char is_blank skip_char l

unfoldable pub in_line : ℕ → Bool
in_line ch = not (ch == b'\n') && not (ch == 0)

unfoldable pub skip_comment : Lexer → Lexer
unfolding in_line
skip_comment l =
    let l₁ = for_char in_line read_char (read_char (read_char l)) in
    if l₁.ch == b'\n' then skip_char l₁ else l₁

-- What a reader returns, and the lexer behind it.
unfoldable pub read_identifier : Lexer → Bytes × Lexer
read_identifier l =
    let l₁ = for_char is_ident_char read_char l in (slice l.input l.position l₁.position, l₁)

unfoldable pub read_digits : Lexer → Lexer
read_digits l = for_char is_digit read_char l

-- `readNumberOrDurationOrFloat`, behind the first run of digits.
unfoldable pub read_suffix : Lexer → TokenType × Lexer
unfolding is_digit
read_suffix l =
    if l.ch == b'.' && is_digit (peek_char l)
    then (TokenType.float, read_digits (read_char l))
    else if l.ch == b'm' && peek_char l == b's'
    then (TokenType.duration, read_char (read_char l))
    else if l.ch == b's' || l.ch == b'm' || l.ch == b'h'
    then (TokenType.duration, read_char l)
    else (TokenType.int, l)

unfoldable pub read_number_or_duration_or_float : Lexer → Bytes × TokenType × Lexer
read_number_or_duration_or_float l =
    let (t, l₁) = read_suffix (read_digits l) in (slice l.input l.position l₁.position, t, l₁)

-- The byte that `\next` stands for, 0 where it is no escape.
unfoldable pub escaped : ℕ → ℕ
escaped next =
    if next == b'"'
    then b'"'
    else if next == b'\\'
    then b'\\'
    else if next == b'n'
    then b'\n'
    else if next == b'r'
    then b'\r'
    else if next == b't'
    then b'\t'
    else 0

-- One round of the loop in `readString`: the byte appended, and the lexer behind it.
unfoldable pub string_step : Lexer → ℕ × Lexer
unfolding escaped
string_step l =
    let next = escaped (peek_char l) in
    if l.ch == b'\\' && not (next == 0)
    then (next, read_char (read_char l))
    else (l.ch, skip_char l)

unfoldable pub in_string : ℕ → Bool
in_string ch = not (ch == b'"') && not (ch == 0)

unfoldable pub string_loop : ℕ → Lexer → Bytes × Lexer
unfolding in_string string_step
string_loop zero l = ([], l)
string_loop (suc n) l =
    let (b, l₁) = string_step l in
    let rest = string_loop n l₁ in if in_string l.ch then (b ∷ rest.0, rest.1) else ([], l)

-- `if l.ch == quote { l.readChar() }`
unfoldable pub close_quote : ℕ → Lexer → Lexer
close_quote quote l = if l.ch == quote then read_char l else l

unfoldable pub read_string : Lexer → Bytes × Lexer
unfolding string_loop close_quote
read_string l =
    let l₁ = read_char l in let (buf, l₂) = string_loop (rounds l₁) l₁ in (buf, close_quote b'"' l₂)

unfoldable pub in_raw_string : ℕ → Bool
in_raw_string ch = not (ch == b'`') && not (ch == 0)

unfoldable pub raw_loop : ℕ → Lexer → Bytes × Lexer
unfolding in_raw_string
raw_loop zero l = ([], l)
raw_loop (suc n) l =
    let rest = raw_loop n (skip_char l) in
    if in_raw_string l.ch then (l.ch ∷ rest.0, rest.1) else ([], l)

unfoldable pub read_raw_string : Lexer → Bytes × Lexer
unfolding raw_loop close_quote
read_raw_string l =
    let l₁ = read_char l in
    let (buf, l₂) = raw_loop (rounds l₁) l₁ in (dedent buf, close_quote b'`' l₂)

-- ===== src/Lexer/Next.antt =====
-- `NextToken`: its switch on the current byte, in groups of cases, each of which hands the bytes
-- that it does not know to the next.
use serv_lang.Prelude.{
  ℕ, zero, suc, ◌+◌, ◌/◌, ◌%◌, Bool, ◌&&◌, [], ◌∷◌, Bytes, codes, ◌==◌, ltb, if◌then◌else◌, length,
  get_or,
}
use serv_lang.Lexer.Token.{TokenType, Token, lookup_ident}
use serv_lang.Lexer.Cursor.{Lexer, read_char, peek_char, rounds, is_letter, is_digit}
use serv_lang.Lexer.Scan.{
  skip_whitespace, skip_comment, read_identifier, read_number_or_duration_or_float, read_string,
  read_raw_string,
}

-- `string(b)` of a byte: the UTF-8 text of that code point.
unfoldable pub string_of_byte : ℕ → Bytes
string_of_byte b = if ltb b 0x80 then b ∷ [] else (0xc0 + b / 64) ∷ (0x80 + b % 64) ∷ []

-- A token that begins where `l` stands.
abbrev pub token_at : Lexer → TokenType → Bytes → Token
token_at l t literal = record { type_of = t; literal = literal; line = l.line; col = l.col }

-- The end of the switch: the token is the current byte, which `readChar` leaves behind.
unfoldable pub one : Lexer → TokenType → Bytes → Token × Lexer
one l t literal = (token_at l t literal, read_char l)

unfoldable pub two : Lexer → TokenType → Bytes → Token × Lexer
two l t literal = (token_at l t literal, read_char (read_char l))

unfoldable pub three : Lexer → TokenType → Bytes → Token × Lexer
three l t literal = (token_at l t literal, read_char (read_char (read_char l)))

-- The cases that a reader serves.
unfoldable pub scan_word : Lexer → Token × Lexer
scan_word l = let (word, l₁) = read_identifier l in (token_at l (lookup_ident word) word, l₁)

unfoldable pub scan_number : Lexer → Token × Lexer
scan_number l = let (word, t, l₁) = read_number_or_duration_or_float l in (token_at l t word, l₁)

-- A string behind `start`, the lexer at its opening quote.
unfoldable pub scan_string : Lexer → TokenType → Lexer → Token × Lexer
scan_string l t start = let (text, l₁) = read_string start in (token_at l t text, l₁)

unfoldable pub scan_raw_string : Lexer → TokenType → Lexer → Token × Lexer
scan_raw_string l t start = let (text, l₁) = read_raw_string start in (token_at l t text, l₁)

-- The switch in the last `else` of `default`.
unfoldable pub scan_comparison : Lexer → Token × Lexer
scan_comparison l =
    if l.ch == b'!'
    then if peek_char l == b'='
      then two l TokenType.neq (codes "!=")
      else one l TokenType.bang (codes "!")
    else if l.ch == b'<'
    then if peek_char l == b'='
      then two l TokenType.lte (codes "<=")
      else if peek_char l == b'<'
      then two l TokenType.shift_left (codes "<<")
      else one l TokenType.lt (codes "<")
    else if l.ch == b'>'
    then if peek_char l == b'='
      then two l TokenType.gte (codes ">=")
      else if peek_char l == b'>'
      then two l TokenType.shift_right (codes ">>")
      else one l TokenType.gt (codes ">")
    else one l TokenType.illegal (string_of_byte l.ch)

-- `case 'f'` to `default`.
unfoldable pub scan_text : Lexer → Token × Lexer
scan_text l =
    if l.ch == b'f'
    then if peek_char l == b'"'
      then scan_string l TokenType.fstring (read_char l)
      else if peek_char l == b'`'
      then scan_raw_string l TokenType.fstring (read_char l)
      else scan_word l
    else if l.ch == b'`'
    then scan_raw_string l TokenType.string l
    else if l.ch == b'"'
    then scan_string l TokenType.string l
    else if l.ch == 0
    then one l TokenType.eof []
    else if is_letter l.ch
    then scan_word l
    else if is_digit l.ch
    then scan_number l
    else scan_comparison l

-- `case ':'` to `case ']'`, and `'^'` and `','`.
unfoldable pub scan_bracket : Lexer → Token × Lexer
scan_bracket l =
    if l.ch == b':'
    then one l TokenType.colon (codes ":")
    else if l.ch == b'@'
    then one l TokenType.macro (codes "@")
    else if l.ch == b'('
    then one l TokenType.lparen (codes "(")
    else if l.ch == b')'
    then one l TokenType.rparen (codes ")")
    else if l.ch == b'{'
    then one l TokenType.lbrace (codes "{")
    else if l.ch == b'}'
    then one l TokenType.rbrace (codes "}")
    else if l.ch == b'['
    then one l TokenType.lbracket (codes "[")
    else if l.ch == b']'
    then one l TokenType.rbracket (codes "]")
    else scan_text l

-- `case '^'` to `case '?'`. The second test of `...` reads `l.input[l.readPosition]`, which is the
-- byte that `peekChar` has just returned.
unfoldable pub scan_dot : Lexer → Token × Lexer
scan_dot l =
    if l.ch == b'^'
    then one l TokenType.caret (codes "^")
    else if l.ch == b','
    then one l TokenType.comma (codes ",")
    else if l.ch == b'.'
    then if peek_char l == b'.'
        && (ltb l.read_position (length l.input) && get_or l.input l.read_position 0 == b'.')
      then three l TokenType.spread (codes "...")
      else one l TokenType.dot (codes ".")
    else if l.ch == b'?'
    then if peek_char l == b'.'
      then two l TokenType.question_dot (codes "?.")
      else one l TokenType.question (codes "?")
    else scan_bracket l

-- `case '%'` to `case '|'`.
unfoldable pub scan_bitwise : Lexer → Token × Lexer
scan_bitwise l =
    if l.ch == b'%'
    then if peek_char l == b'='
      then two l TokenType.percent_assign (codes "%=")
      else one l TokenType.percent (codes "%")
    else if l.ch == b'&'
    then if peek_char l == b'&'
      then two l TokenType.and (codes "&&")
      else one l TokenType.ampersand (codes "&")
    else if l.ch == b'|'
    then if peek_char l == b'>'
      then two l TokenType.pipe_arrow (codes "|>")
      else if peek_char l == b'|'
      then two l TokenType.or (codes "||")
      else one l TokenType.pipe (codes "|")
    else scan_dot l

-- `case '*'` and `case '/'` without the comment.
unfoldable pub scan_star : Lexer → Token × Lexer
scan_star l =
    if l.ch == b'*'
    then if peek_char l == b'='
      then two l TokenType.asterisk_assign (codes "*=")
      else one l TokenType.asterisk (codes "*")
    else if l.ch == b'/'
    then if peek_char l == b'='
      then two l TokenType.slash_assign (codes "/=")
      else one l TokenType.slash (codes "/")
    else scan_bitwise l

-- `case '+'` to `case '='`.
unfoldable pub scan_token : Lexer → Token × Lexer
scan_token l =
    if l.ch == b'+'
    then if peek_char l == b'='
      then two l TokenType.plus_assign (codes "+=")
      else one l TokenType.plus (codes "+")
    else if l.ch == b'-'
    then if peek_char l == b'>'
      then two l TokenType.ret_arrow (codes "->")
      else if peek_char l == b'='
      then two l TokenType.minus_assign (codes "-=")
      else one l TokenType.minus (codes "-")
    else if l.ch == b'='
    then if peek_char l == b'>'
      then two l TokenType.arrow (codes "=>")
      else if peek_char l == b'='
      then two l TokenType.eq (codes "==")
      else one l TokenType.assign (codes "=")
    else scan_star l

unfoldable pub at_comment : Lexer → Bool
at_comment l = l.ch == b'/' && peek_char l == b'/'

-- `NextToken`, which calls itself behind a comment; each comment takes one round.
unfoldable pub next_round : ℕ → Lexer → Token × Lexer
unfolding at_comment
next_round zero l = scan_token (skip_whitespace l)
next_round (suc n) l =
    let l₁ = skip_whitespace l in
    let again = next_round n (skip_comment l₁) in if at_comment l₁ then again else scan_token l₁

unfoldable pub next_token : Lexer → Token × Lexer
unfolding next_round
next_token l = next_round (rounds l) l

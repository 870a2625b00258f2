-- ===== src/Lexer/Tests.antt =====
-- The lexer on concrete texts.
use serv_lang.Prelude.{
  ℕ, zero, suc, ◌+◌, ◌≢◌, All, ◌<◌, ◌≡◌, refl, true, List, [], ◌∷◌, Bytes, codes, String, map,
  take_while, arith, ◌↔◌,
}
use serv_lang.Lexer.Token.{TokenType, Token, lookup_ident, is_keyword_token, same_type}
use serv_lang.GoStrings.{split, join, push_byte, trim_space, has_prefix, trim_prefix}
use serv_lang.Lexer.Dedent.{dedent}
use serv_lang.Lexer.Cursor.{
  Lexer, new_lexer, read_char, peek_char, rounds, for_char, skip_char, slice, is_letter, is_digit,
  is_blank, is_ident_char,
}
use serv_lang.Lexer.Position.{line_from, col_from, IsPlaced, IsCounted, NoSpreadBreak}
use serv_lang.Lexer.Scan.{
  skip_whitespace, skip_comment, read_identifier, read_digits, read_suffix,
  read_number_or_duration_or_float, read_string, read_raw_string,
}
use serv_lang.Lexer.Next.{
  token_at, scan_token, next_token, scan_star, scan_bitwise, scan_dot, scan_bracket, scan_text,
  scan_comparison, scan_word, scan_number, scan_string, scan_raw_string, one, two, three,
  string_of_byte,
}
use serv_lang.Lexer.Gaps.{Begins}
use serv_lang.Lexer.Tokens.{next_token-forward, next_token-counts}
use serv_lang.Lexer.Ending.{drain, drain-eof, new_lexer-IsPlaced, new_lexer-IsCounted}
use serv_lang.Lexer.Keywords.{is_keyword_token_iff}
use serv_lang.Lexer.Ahead.{Ahead, drop_while}
use serv_lang.Lexer.Literals.{quoted, escape_byte}
use serv_lang.Lexer.Cases.{next_token-quoted, next_token-word, next_token-two_dots}

abbrev two_lines : Bytes
two_lines = codes "// one\n let x = 5"

abbrev at_start : Lexer
at_start = new_lexer two_lines

-- `NextToken` with everything that it calls open, for tests by evaluation.
run : Lexer → Token × Lexer
unfolding next_token new_lexer peek_char skip_whitespace skip_comment scan_token scan_star
    scan_bitwise scan_dot scan_bracket scan_text scan_comparison scan_word scan_number scan_string
    scan_raw_string one two three string_of_byte read_char rounds for_char is_blank is_letter
    is_digit is_ident_char skip_char read_identifier read_digits read_suffix
    read_number_or_duration_or_float read_string read_raw_string lookup_ident slice dedent split
    join push_byte trim_space has_prefix trim_prefix
run l = next_token l

-- The tokens of a text, as many as asked for.
run_all : ℕ → Lexer → List Token
unfolding run
run_all zero l = []
run_all (suc n) l = let (t, l₁) = run l in t ∷ run_all n l₁

abbrev token : TokenType → String → ℕ → ℕ → Token
token t s line col = record { type_of = t; literal = codes s; line = line; col = col }

tokens_two_lines :
    run_all 5 at_start
    ≡ token TokenType.let_kw "let" 2 2
      ∷ token TokenType.ident "x" 2 6
      ∷ token TokenType.assign "=" 2 8
      ∷ token TokenType.int "5" 2 10
      ∷ token TokenType.eof "" 2 11
      ∷ []
unfolding run_all
tokens_two_lines = refl

tokens_kinds :
    map Token.literal (run_all 8 (new_lexer (codes "f\"a\\n\" 3.5 50ms 2h <<= ?. \"q\\\"r\"")))
    ≡ codes "a\n"
      ∷ codes "3.5"
      ∷ codes "50ms"
      ∷ codes "2h"
      ∷ codes "<<"
      ∷ codes "="
      ∷ codes "?."
      ∷ codes "q\"r"
      ∷ []
unfolding run_all
tokens_kinds = refl

tokens_raw : (run (new_lexer (codes "`\n    ab\n      c\n`"))).0.literal ≡ codes "\nab\n  c\n"
unfolding run
tokens_raw = refl

at_start-IsPlaced : IsPlaced at_start
at_start-IsPlaced = new_lexer-IsPlaced two_lines

at_start-IsCounted : IsCounted at_start
at_start-IsCounted = new_lexer-IsCounted two_lines

-- A text with no dot in it.
no_spread : (xs : Bytes) → All (λ c. c ≢ b'.') xs → NoSpreadBreak xs
no_spread [] h p a b = absurd (omega arith)
no_spread (x ∷ xs) h zero a b = absurd (h.0 a)
no_spread (x ∷ xs) h (suc p) a b = no_spread xs h.1 p a b

at_start-no_spread : NoSpreadBreak at_start.input
unfolding new_lexer read_char
at_start-no_spread = no_spread two_lines (omega arith)

next_token-counts_example :
    ((start : ℕ) × Begins at_start.input at_start.position start
      × (start < (next_token at_start).1.position)
      × ((next_token at_start).0.line ≡ line_from 1 at_start.input start)
      × ((next_token at_start).0.col ≡ col_from 1 at_start.input start))
    × IsCounted (next_token at_start).1
next_token-counts_example =
    next_token-counts at_start at_start-IsPlaced at_start-IsCounted at_start-no_spread

next_token-forward_example :
    (at_start.position < (next_token at_start).1.position)
    × IsPlaced (next_token at_start).1
    × ((next_token at_start).1.input ≡ at_start.input)
next_token-forward_example = next_token-forward at_start at_start-IsPlaced

drain-eof_example : (next_token (drain 17 at_start)).0.type_of ≡ TokenType.eof
drain-eof_example = drain-eof two_lines 17 (omega arith)

abbrev quote_text : Bytes
quote_text = codes "\"a\\\"b\\n\" + 1"

quote_start : Ahead (new_lexer quote_text) (b'"' ∷ quoted (codes "a\"b\n") (codes " + 1"))
unfolding new_lexer read_char quoted escape_byte
quote_start = record { is_placed = new_lexer-IsPlaced quote_text; left = refl }

next_token-quoted_example :
    ((next_token (new_lexer quote_text)).0
      ≡ token_at (new_lexer quote_text) TokenType.string (codes "a\"b\n"))
    × Ahead (next_token (new_lexer quote_text)).1 (codes " + 1")
next_token-quoted_example =
    next_token-quoted (codes "a\"b\n") (codes " + 1") (new_lexer quote_text) (omega arith)
      quote_start

abbrev word_text : Bytes
word_text = codes "return_x1(y)"

word_start : Ahead (new_lexer word_text) word_text
unfolding new_lexer read_char
word_start = record { is_placed = new_lexer-IsPlaced word_text; left = refl }

next_token-word_example :
    ((next_token (new_lexer word_text)).0
      ≡ token_at
          (new_lexer word_text)
          (lookup_ident (take_while is_ident_char word_text))
          (take_while is_ident_char word_text))
    × Ahead (next_token (new_lexer word_text)).1 (drop_while is_ident_char word_text)
next_token-word_example =
    next_token-word b'r' (codes "eturn_x1(y)") (new_lexer word_text) r_letter (omega arith)
      word_start
  where
    r_letter : is_letter b'r' ≡ true
    r_letter = unfold is_letter in refl

abbrev dots_text : Bytes
dots_text = codes "..b"

next_token-two_dots_example :
    ((next_token (new_lexer dots_text)).0
      ≡ token_at (new_lexer dots_text) TokenType.spread (codes "..."))
    × ((next_token (new_lexer dots_text)).1.position ≡ (new_lexer dots_text).position + 3)
next_token-two_dots_example =
    next_token-two_dots (new_lexer dots_text) (new_lexer-IsPlaced dots_text)
      (unfold new_lexer read_char in refl) (unfold new_lexer read_char peek_char in refl)

is_keyword_token_iff_example : (is_keyword_token TokenType.let_kw ≡ true) ↔ (
    (word : Bytes) × (same_type (lookup_ident word) TokenType.let_kw ≡ true)
    × (lookup_ident word ≢ TokenType.ident))
is_keyword_token_iff_example = is_keyword_token_iff TokenType.let_kw

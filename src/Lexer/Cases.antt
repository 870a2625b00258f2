-- ===== src/Lexer/Cases.antt =====
-- `NextToken` at a place where a given kind of token begins.
use serv_lang.Prelude.{
  ℕ, ◌+◌, ◌≤◌, ◌⊎◌, ◌≡◌, ◌≢◌, refl, sym, ap, ◌∙◌, true, false, ◌&&◌, ◌∷◌, Bytes, codes, arith, ◌==◌,
  length, get_or, ltb, take_while, All,
}
use serv_lang.Lexer.Token.{TokenType, lookup_ident}
use serv_lang.Lexer.Cursor.{
  Lexer, read_char, peek_char, rounds, loop, for_char, is_blank, is_letter, is_ident_char,
}
use serv_lang.Lexer.Position.{IsPlaced, read_char-IsPlaced}
use serv_lang.Lexer.Loops.{read_char-position}
use serv_lang.Lexer.Scan.{skip_whitespace}
use serv_lang.Lexer.Next.{
  token_at, three, scan_word, scan_string, scan_text, scan_bracket, scan_dot, scan_bitwise,
  scan_star, scan_token, at_comment, next_token,
}
use serv_lang.Lexer.Tokens.{next_token-unfold}
use serv_lang.Lexer.Ahead.{Ahead, Ahead-ch, drop_while}
use serv_lang.Lexer.Literals.{quoted, read_identifier_lem, read_string-quoted}

skip_whitespace-id : (l : Lexer) → is_blank l.ch ≡ false → skip_whitespace l ≡ l
unfolding skip_whitespace for_char rounds loop
skip_whitespace-id l e = rw e

at_comment-false : (l : Lexer) → l.ch ≢ b'/' → at_comment l ≡ false
unfolding at_comment
at_comment-false l ne = ground arith

-- The bytes of letters.
ascii_letter :
    (c : ℕ)
    → is_letter c ≡ true
    → ((b'a' ≤ c) × (c ≤ b'z')) ⊎ (((b'A' ≤ c) × (c ≤ b'Z')) ⊎ (c ≡ b'_'))
unfolding is_letter
ascii_letter c h = ground arith

-- Where no blank and no comment begins, a token is read at once.
pub next_token-scan :
    (l : Lexer) → IsPlaced l → is_blank l.ch ≡ false → l.ch ≢ b'/' → next_token l ≡ scan_token l
next_token-scan l p b ne =
    next_token-unfold l p ∙ (rw (skip_whitespace-id l b) (rw (at_comment-false l ne) refl))

-- At a quoted string `NextToken` returns a `STRING` token whose literal is the string, and stops
-- behind the closing quote.
pub next_token-quoted :
    (s rest : Bytes) (l : Lexer)
    → All (λ c. c ≢ 0) s
    → Ahead l (b'"' ∷ quoted s rest)
    → ((next_token l).0 ≡ token_at l TokenType.string s) × Ahead (next_token l).1 rest
unfolding scan_token scan_star scan_bitwise scan_dot scan_bracket scan_text scan_string
next_token-quoted s rest l a h =
    let here = Ahead-ch h in
    let (text, behind) = read_string-quoted s rest l a h in
    let scanned : next_token l ≡ scan_string l TokenType.string l =
      next_token-scan l h.is_placed (unfold is_blank in ground arith) (λ e. ground arith)
      ∙ (rw here) in
    rw scanned (ap (token_at l TokenType.string) text, behind)

scan_token-letter : (l : Lexer) → is_letter l.ch ≡ true → l.ch ≢ b'f' → scan_token l ≡ scan_word l
unfolding scan_token scan_star scan_bitwise scan_dot scan_bracket scan_text
scan_token-letter l letter ne = ground (arith, ascii_letter l.ch letter)

-- At a word whose first byte is a letter other than `f`, `NextToken` returns the longest match, as
-- the type that `lookupIdent` gives it.
pub next_token-word :
    (c : ℕ) (text : Bytes) (l : Lexer)
    → is_letter c ≡ true
    → c ≢ b'f'
    → Ahead l (c ∷ text)
    → (let word = take_while is_ident_char (c ∷ text) in
        (next_token l).0 ≡ token_at l (lookup_ident word) word)
      × Ahead (next_token l).1 (drop_while is_ident_char (c ∷ text))
unfolding scan_word
next_token-word c text l letter ne h =
    let here = Ahead-ch h in
    let (word, behind) = read_identifier_lem l (c ∷ text) h in
    let scanned : next_token l ≡ scan_word l =
      next_token-scan l h.is_placed (unfold is_blank is_letter in ground arith)
        (λ e. unfold is_letter in ground arith)
      ∙ scan_token-letter l (rw here letter) (λ e. ne (sym here ∙ e)) in
    rw scanned (ap (λ w. token_at l (lookup_ident w) w) word, behind)

-- The second test of the spread is the first one again.
dots_again :
    (l : Lexer)
    → peek_char l ≡ b'.'
    → (peek_char l == b'.'
        && (ltb l.read_position (length l.input) && get_or l.input l.read_position 0 == b'.'))
      ≡ true
unfolding peek_char
dots_again l b = ground arith

scan_token-dots :
    (l : Lexer)
    → l.ch ≡ b'.'
    → peek_char l ≡ b'.'
    → scan_token l ≡ three l TokenType.spread (codes "...")
unfolding scan_token scan_star scan_bitwise scan_dot
scan_token-dots l a b = ground (arith, dots_again l b)

position-three :
    (l : Lexer) → IsPlaced l → (read_char (read_char (read_char l))).position ≡ l.position + 3
position-three l p = omega (
  arith,
  read_char-position l p,
  read_char-position (read_char l) (read_char-IsPlaced l),
  read_char-position (read_char (read_char l)) (read_char-IsPlaced (read_char l)),
)

-- Two dots are read as the three of a spread, whatever byte stands behind them: that byte is lost.
pub next_token-two_dots :
    (l : Lexer)
    → IsPlaced l
    → l.ch ≡ b'.'
    → peek_char l ≡ b'.'
    → ((next_token l).0 ≡ token_at l TokenType.spread (codes "..."))
      × ((next_token l).1.position ≡ l.position + 3)
unfolding three
next_token-two_dots l p a b =
    let scanned : next_token l ≡ three l TokenType.spread (codes "...") =
      next_token-scan l p (unfold is_blank in ground arith) (λ e. ground arith)
      ∙ scan_token-dots l a b in
    rw scanned (refl, position-three l p)

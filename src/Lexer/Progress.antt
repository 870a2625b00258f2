-- ===== src/Lexer/Progress.antt =====
-- `NextToken` always moves forward, from a well placed lexer to a well placed lexer.
use serv_lang.Prelude.{
  ℕ, suc, ◌<◌, ◌≡◌, ◌≢◌, refl, sym, ap, ◌∙◌, true, false, ◌&&◌, Bytes, arith, if◌then◌else◌,
  if-elim, ◌==◌, ltb, length, get_or,
}
use serv_lang.Lexer.Token.{TokenType, Token}
use serv_lang.Lexer.Cursor.{Lexer, read_char, peek_char, is_letter, is_digit}
use serv_lang.Lexer.Position.{
  byte_at, IsPlaced, peek_char_lem, read_char-IsPlaced, read_char-ch, read_char-IsCounted,
}
use serv_lang.Lexer.Loops.{
  Moves, Moves-refl, Moves-trans, read_char-Moves, read_char-position, read_char-input,
}
use serv_lang.Lexer.Readers.{
  read_char-peek, read_two-Moves, read_two-lt, read_identifier-Moves, read_identifier-lt,
  read_number-Moves, read_number-lt, read_string-Moves, read_string-lt, read_raw_string-Moves,
  read_raw_string-lt,
}
use serv_lang.Lexer.Next.{
  one, two, three, scan_word, scan_number, scan_string, scan_raw_string, scan_comparison, scan_text,
  scan_bracket, scan_dot, scan_bitwise, scan_star, scan_token,
}

-- A token that was read from `l`: it carries the place of `l`, and the lexer has moved on.
pub record Reads (l : Lexer) (r : Token × Lexer) : Type 0 where
  pub moves : Moves l r.1
  pub forward : l.position < r.1.position
  pub at_line : r.0.line ≡ l.line
  pub at_col : r.0.col ≡ l.col

module _ (l : Lexer) (p : IsPlaced l) (ne : l.ch ≢ b'\n') where
  one-Reads : (t : TokenType) (s : Bytes) → Reads l (one l t s)
  unfolding one
  one-Reads t s = record {
    moves = read_char-Moves l p ne;
    forward = omega (arith, read_char-position l p);
    at_line = refl;
    at_col = refl;
  }

  two-Reads : (t : TokenType) (s : Bytes) → peek_char l ≢ b'\n' → Reads l (two l t s)
  unfolding two
  two-Reads t s h = record {
    moves = read_two-Moves l p ne h;
    forward = read_two-lt l p;
    at_line = refl;
    at_col = refl;
  }

  scan_word-Reads : is_letter l.ch ≡ true → Reads l (scan_word l)
  unfolding scan_word
  scan_word-Reads h = record {
    moves = (read_identifier-Moves l p).0;
    forward = read_identifier-lt l p h;
    at_line = refl;
    at_col = refl;
  }

  scan_number-Reads : is_digit l.ch ≡ true → Reads l (scan_number l)
  unfolding scan_number
  scan_number-Reads h = record {
    moves = read_number-Moves l p;
    forward = read_number-lt l p h;
    at_line = refl;
    at_col = refl;
  }

  scan_string-Reads :
      (t : TokenType) (k : Lexer) → Moves l k → k.ch ≢ b'\n' → Reads l (scan_string l t k)
  unfolding scan_string
  scan_string-Reads t k m h = record {
    moves = Moves-trans m (read_string-Moves k m.placed h);
    forward = omega (arith, m.onward, read_string-lt k m.placed);
    at_line = refl;
    at_col = refl;
  }

  scan_raw_string-Reads :
      (t : TokenType) (k : Lexer) → Moves l k → k.ch ≢ b'\n' → Reads l (scan_raw_string l t k)
  unfolding scan_raw_string
  scan_raw_string-Reads t k m h = record {
    moves = Moves-trans m (read_raw_string-Moves k m.placed h);
    forward = omega (arith, m.onward, read_raw_string-lt k m.placed);
    at_line = refl;
    at_col = refl;
  }

  -- The two tests of the switch: on the current byte, and on the one behind it.
  if_ch :
      (c : ℕ) {x y : Token × Lexer}
      → (l.ch ≡ c → Reads l x)
      → Reads l y
      → Reads l (if l.ch == c then x else y)
  if_ch c h k = if-elim (Reads l) (l.ch == c) (λ e. h (ground arith)) (λ _. k)

  if_peek :
      (c : ℕ) (t : TokenType) (s : Bytes) {y : Token × Lexer}
      → (c == b'\n') ≡ false
      → Reads l y
      → Reads l (if peek_char l == c then two l t s else y)
  if_peek c t s line k =
      if-elim (Reads l) (peek_char l == c) (λ e. two-Reads t s (λ h. ground arith)) (λ _. k)

  ruleset switch = (one-Reads, if_ch, if_peek)

  scan_comparison-Reads : Reads l (scan_comparison l)
  unfolding scan_comparison
  scan_comparison-Reads = search switch depth 12

  scan_text-Reads : Reads l (scan_text l)
  unfolding scan_text
  scan_text-Reads =
      if_ch b'f'
        (λ e.
          let m = read_char-Moves l p ne in
          if-elim (Reads l) (peek_char l == b'"')
            (λ q. scan_string-Reads _ _ m (λ h. ground (arith, read_char-peek l p)))
            (λ _.
              if-elim (Reads l) (peek_char l == b'`')
                (λ q. scan_raw_string-Reads _ _ m (λ h. ground (arith, read_char-peek l p)))
                (λ _. scan_word-Reads (unfold is_letter in ground arith))))
        (if_ch b'`' (λ e. scan_raw_string-Reads _ l (Moves-refl l p) ne)
          (if_ch b'"' (λ e. scan_string-Reads _ l (Moves-refl l p) ne)
            (if_ch 0 (λ e. one-Reads _ _)
              (if-elim (Reads l) (is_letter l.ch) (λ e. scan_word-Reads e)
                (λ _.
                  if-elim (Reads l) (is_digit l.ch) (λ e. scan_number-Reads e)
                    (λ _. scan_comparison-Reads))))))

  scan_bracket-Reads : Reads l (scan_bracket l)
  unfolding scan_bracket
  scan_bracket-Reads = search (switch, scan_text-Reads) depth 12

  second-ch : (read_char (read_char l)).ch ≡ byte_at l.input (suc (suc l.position))
  second-ch =
      read_char-ch (read_char l)
      ∙ ap (λ xs. byte_at xs (read_char l).read_position) (read_char-input l)
      ∙ ap (byte_at l.input) (omega (arith, (read_char-IsPlaced l).next, read_char-position l p))

  three-Reads :
      (t : TokenType) (s : Bytes) → l.ch ≡ b'.' → peek_char l ≡ b'.' → Reads l (three l t s)
  unfolding three
  three-Reads t s a b =
      let m = read_two-Moves l p ne (λ h. ground arith) in
      let k = read_char (read_char l) in
      record {
        moves = record {
          placed = read_char-IsPlaced k;
          same_input = read_char-input k ∙ m.same_input;
          onward = omega (arith, m.onward, read_char-position k m.placed);
          counted = λ spread c. read_char-IsCounted k m.placed (m.counted spread c) (λ e.
              spread l.position (sym p.current ∙ a) (sym (peek_char_lem l p) ∙ b)
                (sym second-ch ∙ e));
        };
        forward = omega (arith, m.onward, read_two-lt l p, read_char-position k m.placed);
        at_line = refl;
        at_col = refl;
      }

  scan_dot-Reads : Reads l (scan_dot l)
  unfolding scan_dot
  scan_dot-Reads =
      if_ch b'^' (λ _. one-Reads _ _)
        (if_ch b',' (λ _. one-Reads _ _)
          (if_ch b'.'
            (λ e.
              if-elim (Reads l)
                (peek_char l == b'.'
                  && (ltb l.read_position (length l.input)
                      && get_or l.input l.read_position 0 == b'.'))
                (λ q. three-Reads _ _ e (ground arith)) (λ _. one-Reads _ _))
            (search (switch, scan_bracket-Reads) depth 6)))

  scan_bitwise-Reads : Reads l (scan_bitwise l)
  unfolding scan_bitwise
  scan_bitwise-Reads = search (switch, scan_dot-Reads) depth 12

  scan_star-Reads : Reads l (scan_star l)
  unfolding scan_star
  scan_star-Reads = search (switch, scan_bitwise-Reads) depth 12

  pub scan_token-Reads : Reads l (scan_token l)
  unfolding scan_token
  scan_token-Reads = search (switch, scan_star-Reads) depth 12

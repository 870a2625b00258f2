-- ===== src/Lexer/Readers.antt =====
-- Each reader of the lexer moves on over the same input and keeps the counters right.
use serv_lang.Prelude.{
  ℕ, zero, suc, ◌-◌, ◌<◌, ◌≡◌, ◌≢◌, refl, sym, ap, ◌∙◌, true, false, not, ◌&&◌, ◌||◌, arith,
  Bool-cases, if-elim, inl, inr, ◌==◌, length,
}
use serv_lang.Lexer.Token.{TokenType}
use serv_lang.Lexer.Cursor.{
  Lexer, read_char, skip_char, peek_char, rounds, for_char, is_letter, is_digit, is_blank,
  is_ident_char,
}
use serv_lang.Lexer.Position.{byte_at, IsPlaced, peek_char_lem, read_char-IsPlaced, read_char-ch}
use serv_lang.Lexer.Loops.{
  Moves, Moves-refl, Moves-trans, read_char-Moves, read_char-position, skip_char-Moves,
  skip_char-position, inside, for_read_char, for_skip_char,
}
use serv_lang.Lexer.Scan.{
  skip_whitespace, in_line, skip_comment, read_identifier, read_digits, read_suffix,
  read_number_or_duration_or_float, escaped, string_step, in_string, string_loop, close_quote,
  read_string, in_raw_string, raw_loop, read_raw_string,
}

-- The byte behind the current one is what `peekChar` has shown.
pub read_char-peek : (l : Lexer) → IsPlaced l → (read_char l).ch ≡ peek_char l
read_char-peek l p = read_char-ch l ∙ ap (λ k. byte_at l.input k) p.next ∙ sym (peek_char_lem l p)

pub read_two-Moves :
    (l : Lexer)
    → IsPlaced l
    → l.ch ≢ b'\n'
    → peek_char l ≢ b'\n'
    → Moves l (read_char (read_char l))
read_two-Moves l p a b =
    let m = read_char-Moves l p a in
    Moves-trans m (read_char-Moves (read_char l) m.placed (λ e. b (sym (read_char-peek l p) ∙ e)))

-- A move to another byte is a move forward.
pub Moves-lt : {l m : Lexer} → Moves l m → IsPlaced l → l.ch ≢ m.ch → l.position < m.position
Moves-lt {l} {m} h p ne = elim (Bool-cases (l.position == m.position)) [
  | inl same ↦ absurd (
      ne (
        p.current
        ∙ ap (λ xs. byte_at xs l.position) (sym h.same_input)
        ∙ ap (byte_at m.input) (ground arith)
        ∙ sym h.placed.current))
  | inr other ↦ ground arith
]

pub skip_whitespace-Moves :
    (l : Lexer)
    → IsPlaced l
    → Moves l (skip_whitespace l) × (is_blank (skip_whitespace l).ch ≡ false)
unfolding skip_whitespace is_blank
skip_whitespace-Moves l p = unfold is_blank in for_skip_char is_blank refl l p

pub read_identifier-Moves :
    (l : Lexer)
    → IsPlaced l
    → Moves l (read_identifier l).1 × (is_ident_char (read_identifier l).1.ch ≡ false)
unfolding read_identifier is_ident_char
read_identifier-Moves l p = for_read_char is_ident_char refl l refl p

pub read_digits-Moves :
    (l : Lexer) → IsPlaced l → Moves l (read_digits l) × (is_digit (read_digits l).ch ≡ false)
unfolding read_digits is_digit
read_digits-Moves l p = for_read_char is_digit refl l refl p

pub skip_comment-Moves :
    (l : Lexer) → IsPlaced l → l.ch ≡ b'/' → peek_char l ≡ b'/' → Moves l (skip_comment l)
unfolding skip_comment in_line
skip_comment-Moves l p a b =
    let m = read_two-Moves l p (λ e. ground arith) (λ e. ground arith) in
    let h = (for_read_char in_line refl (read_char (read_char l)) refl m.placed).0 in
    let l₁ = for_char in_line read_char (read_char (read_char l)) in
    if-elim (Moves l) (l₁.ch == b'\n')
      (λ _. Moves-trans m (Moves-trans h (skip_char-Moves l₁ h.placed))) (λ _. Moves-trans m h)

-- The string loops.
string_step-Moves : (l : Lexer) → IsPlaced l → Moves l (string_step l).1
unfolding string_step escaped
string_step-Moves l p = elim (Bool-cases (l.ch == b'\\' && not (escaped (peek_char l) == 0))) [
  | inl esc ↦ rw esc (read_two-Moves l p (λ e. ground arith) (λ e. ground arith))
  | inr plain ↦ rw plain (skip_char-Moves l p)
]

pub read_two-lt : (l : Lexer) → IsPlaced l → l.position < (read_char (read_char l)).position
read_two-lt l p =
    omega (arith, read_char-position l p, read_char-position (read_char l) (read_char-IsPlaced l))

string_step-lt : (l : Lexer) → IsPlaced l → l.position < (string_step l).1.position
unfolding string_step escaped
string_step-lt l p = elim (Bool-cases (l.ch == b'\\' && not (escaped (peek_char l) == 0))) [
  | inl esc ↦ rw esc (read_two-lt l p)
  | inr plain ↦ rw plain (omega (arith, skip_char-position l p))
]

-- A step over the same input that moves forward leaves less to read.
pub left-lt :
    (l m : Lexer) (n : ℕ)
    → Moves l m
    → l.position < m.position
    → l.position < length l.input
    → length l.input - l.position < suc n
    → length m.input - m.position < n
left-lt l m n h a b c = omega (arith, ap (length {0}) h.same_input)

string_loop-Moves :
    (n : ℕ) (l : Lexer)
    → IsPlaced l
    → length l.input - l.position < n
    → Moves l (string_loop n l).1 × (in_string (string_loop n l).1.ch ≡ false)
unfolding string_loop
string_loop-Moves zero l p h = absurd (omega arith)
string_loop-Moves (suc n) l p h = elim (Bool-cases (in_string l.ch)) [
  | inl go ↦
      let m = string_step-Moves l p in
      let fewer =
        left-lt l (string_step l).1 n m (string_step-lt l p) (inside l p (λ e. ground arith)) h in
      let rest = string_loop-Moves n (string_step l).1 m.placed fewer in
      rw go (Moves-trans m rest.0, rest.1)
  | inr stop ↦ rw stop (Moves-refl l p, stop)
]

raw_loop-Moves :
    (n : ℕ) (l : Lexer)
    → IsPlaced l
    → length l.input - l.position < n
    → Moves l (raw_loop n l).1 × (in_raw_string (raw_loop n l).1.ch ≡ false)
unfolding raw_loop
raw_loop-Moves zero l p h = absurd (omega arith)
raw_loop-Moves (suc n) l p h = elim (Bool-cases (in_raw_string l.ch)) [
  | inl go ↦
      let m = skip_char-Moves l p in
      let fewer =
        left-lt l (skip_char l) n m (omega (arith, skip_char-position l p))
          (inside l p (λ e. ground arith)) h in
      let rest = raw_loop-Moves n (skip_char l) m.placed fewer in
      rw go (Moves-trans m rest.0, rest.1)
  | inr stop ↦ rw stop (Moves-refl l p, stop)
]

close_quote-Moves :
    (quote : ℕ) (l : Lexer) → quote ≢ b'\n' → IsPlaced l → Moves l (close_quote quote l)
unfolding close_quote
close_quote-Moves quote l ne p = elim (Bool-cases (l.ch == quote)) [
  | inl at_end ↦ rw at_end (read_char-Moves l p (λ e. ground arith))
  | inr other ↦ rw other (Moves-refl l p)
]

-- From an opening quote, a string is read to a place beyond it.
pub read_string-Moves : (l : Lexer) → IsPlaced l → l.ch ≢ b'\n' → Moves l (read_string l).1
unfolding read_string rounds
read_string-Moves l p ne =
    let a = read_char-Moves l p ne in
    let b = (string_loop-Moves (rounds (read_char l)) (read_char l) a.placed (omega arith)).0 in
    Moves-trans a (Moves-trans b (close_quote-Moves b'"' _ (λ e. ground arith) b.placed))

pub read_raw_string-Moves : (l : Lexer) → IsPlaced l → l.ch ≢ b'\n' → Moves l (read_raw_string l).1
unfolding read_raw_string rounds
read_raw_string-Moves l p ne =
    let a = read_char-Moves l p ne in
    let b = (raw_loop-Moves (rounds (read_char l)) (read_char l) a.placed (omega arith)).0 in
    Moves-trans a (Moves-trans b (close_quote-Moves b'`' _ (λ e. ground arith) b.placed))

pub read_suffix-Moves : (l : Lexer) → IsPlaced l → Moves l (read_suffix l).1
unfolding read_suffix
read_suffix-Moves l p =
    if-elim (λ (r : TokenType × Lexer). Moves l r.1) (l.ch == b'.' && is_digit (peek_char l))
      (λ a.
        let m = read_char-Moves l p (λ e. ground arith) in
        Moves-trans m (read_digits-Moves (read_char l) m.placed).0)
      (λ _.
        if-elim (λ (r : TokenType × Lexer). Moves l r.1) (l.ch == b'm' && peek_char l == b's')
          (λ a. read_two-Moves l p (λ e. ground arith) (λ e. ground arith))
          (λ _.
            if-elim (λ (r : TokenType × Lexer). Moves l r.1)
              (l.ch == b's' || l.ch == b'm' || l.ch == b'h')
              (λ a. read_char-Moves l p (λ e. ground arith)) (λ _. Moves-refl l p)))

pub read_number-Moves : (l : Lexer) → IsPlaced l → Moves l (read_number_or_duration_or_float l).2
unfolding read_number_or_duration_or_float
read_number-Moves l p =
    let m = (read_digits-Moves l p).0 in Moves-trans m (read_suffix-Moves (read_digits l) m.placed)

pub read_char-lt : {l m : Lexer} → IsPlaced l → Moves (read_char l) m → l.position < m.position
read_char-lt {l} p h = omega (arith, read_char-position l p)

pub read_string-lt : (l : Lexer) → IsPlaced l → l.position < (read_string l).1.position
unfolding read_string rounds
read_string-lt l p =
    let a = read_char-IsPlaced l in
    let b = (string_loop-Moves (rounds (read_char l)) (read_char l) a (omega arith)).0 in
    read_char-lt p (Moves-trans b (close_quote-Moves b'"' _ (λ e. ground arith) b.placed))

pub read_raw_string-lt : (l : Lexer) → IsPlaced l → l.position < (read_raw_string l).1.position
unfolding read_raw_string rounds
read_raw_string-lt l p =
    let a = read_char-IsPlaced l in
    let b = (raw_loop-Moves (rounds (read_char l)) (read_char l) a (omega arith)).0 in
    read_char-lt p (Moves-trans b (close_quote-Moves b'`' _ (λ e. ground arith) b.placed))

pub read_identifier-lt :
    (l : Lexer) → IsPlaced l → is_letter l.ch ≡ true → l.position < (read_identifier l).1.position
unfolding is_ident_char
read_identifier-lt l p h =
    let m = read_identifier-Moves l p in Moves-lt m.0 p (λ e. ground (arith, m.1))

pub read_number-lt :
    (l : Lexer)
    → IsPlaced l
    → is_digit l.ch ≡ true
    → l.position < (read_number_or_duration_or_float l).2.position
unfolding read_number_or_duration_or_float
read_number-lt l p h =
    let m = read_digits-Moves l p in
    let k = read_suffix-Moves (read_digits l) m.0.placed in
    omega (arith, Moves-lt m.0 p (λ e. ground (arith, m.1)), k.onward)

pub skip_comment-lt :
    (l : Lexer)
    → IsPlaced l
    → l.ch ≡ b'/'
    → peek_char l ≡ b'/'
    → l.position < (skip_comment l).position
unfolding skip_comment in_line
skip_comment-lt l p a b =
    let m = read_two-Moves l p (λ e. ground arith) (λ e. ground arith) in
    let l₁ = for_char in_line read_char (read_char (read_char l)) in
    let h = (for_read_char in_line refl (read_char (read_char l)) refl m.placed).0 in
    if-elim (λ (k : Lexer). l.position < k.position) (l₁.ch == b'\n')
      (λ _. omega (arith, read_two-lt l p, h.onward, (skip_char-Moves l₁ h.placed).onward))
      (λ _. omega (arith, read_two-lt l p, h.onward))

-- ===== src/Lexer/Literals.antt =====
-- What the lexer reads from a text: identifiers by longest match, and strings by their escapes.
use serv_lang.Prelude.{
  ℕ, zero, suc, ◌<◌, ◌≡◌, ◌≢◌, refl, ap, ◌∙◌, true, false, not, ◌&&◌, ◌||◌, [], ◌∷◌, ◌++◌, Bytes,
  arith, if◌then◌else◌, ◌==◌, length, length-append, take_while, All, if-elim,
}
use serv_lang.Lexer.Cursor.{Lexer, read_char, peek_char, rounds, is_ident_char}
use serv_lang.Lexer.Scan.{
  read_identifier, escaped, string_step, in_string, string_loop, close_quote, read_string,
}
use serv_lang.Lexer.Ahead.{
  Ahead, Ahead-ch, Ahead-read_char, Ahead-skip_char, Ahead-peek_char, rounds-left, drop_while,
  for_read_char-Ahead, slice-Ahead, take-take_while,
}

-- From any text ahead, `readIdentifier` returns the longest prefix of identifier bytes and stops
-- behind it.
pub read_identifier_lem :
    (l : Lexer) (text : Bytes)
    → Ahead l text
    → ((read_identifier l).0 ≡ take_while is_ident_char text)
      × Ahead (read_identifier l).1 (drop_while is_ident_char text)
unfolding read_identifier is_ident_char
read_identifier_lem l text h =
    let (a, p) = for_read_char-Ahead is_ident_char refl h in
    (
      slice-Ahead _ (length (take_while is_ident_char text)) h p
          ∙ take-take_while is_ident_char text,
      a,
    )

-- The letter behind the backslash that stands for a byte, 0 for a byte that is written as it is.
unfoldable pub escape_letter : ℕ → ℕ
escape_letter c =
    if c == b'"' || c == b'\\'
    then c
    else if c == b'\t'
    then b't'
    else if c == b'\r'
    then b'r'
    else if c == b'\n'
    then b'n'
    else 0

-- How a byte is written inside double quotes.
unfoldable pub escape_byte : ℕ → Bytes
unfolding escape_letter
escape_byte c = let letter = escape_letter c in if letter == 0 then c ∷ [] else b'\\' ∷ letter ∷ []

escape_byte_pos : (c : ℕ) → 0 < length (escape_byte c)
unfolding escape_byte
escape_byte_pos c = ground arith

-- The text of a string literal behind its opening quote, with what follows it.
unfoldable pub quoted : Bytes → Bytes → Bytes
quoted [] rest = b'"' ∷ rest
quoted (c ∷ cs) rest = escape_byte c ++ quoted cs rest

-- What a round of the loop does that reads the byte `c`, with `rest` behind it.
record StepsTo (l : Lexer) (c : ℕ) (rest : Bytes) : Type 0 where
  goes_on : in_string l.ch ≡ true
  byte_is : (string_step l).0 ≡ c
  behind : Ahead (string_step l).1 rest

step-escape :
    (d c : ℕ) (l : Lexer) (rest : Bytes)
    → escaped d ≡ c
    → c ≢ 0
    → Ahead l (b'\\' ∷ d ∷ rest)
    → StepsTo l c rest
unfolding string_step in_string
step-escape d c l rest e ne h =
    let slash = Ahead-ch h in
    let next = ap escaped (Ahead-peek_char h) ∙ e in
    let test : (l.ch == b'\\' && not (escaped (peek_char l) == 0)) ≡ true = ground arith in
    record {
      goes_on = ground arith;
      byte_is = rw test next;
      behind = rw test (Ahead-read_char (Ahead-read_char h));
    }

step_plain :
    (c : ℕ) (l : Lexer) (rest : Bytes)
    → c ≢ 0
    → c ≢ b'"'
    → c ≢ b'\\'
    → Ahead l (c ∷ rest)
    → StepsTo l c rest
unfolding string_step in_string
step_plain c l rest n₀ n₁ n₂ h =
    let here = Ahead-ch h in
    let test : (l.ch == b'\\' && not (escaped (peek_char l) == 0)) ≡ false = ground arith in
    record { goes_on = ground arith; byte_is = rw test here; behind = rw test (Ahead-skip_char h) }

-- The letter of an escape stands for its byte.
escaped-escape_letter : (c : ℕ) → escape_letter c ≢ 0 → escaped (escape_letter c) ≡ c
unfolding escape_letter escaped
escaped-escape_letter c h = ground arith

plain-escape_letter : (c : ℕ) → escape_letter c ≡ 0 → c ≢ 0 → (c ≢ b'"') × (c ≢ b'\\')
unfolding escape_letter
plain-escape_letter c h ne = (λ e. ground arith, λ e. ground arith)

-- One round of the loop reads one byte of the string back.
step-escape_byte :
    (c : ℕ) (l : Lexer) (rest : Bytes) → c ≢ 0 → Ahead l (escape_byte c ++ rest) → StepsTo l c rest
unfolding escape_byte
step-escape_byte c l rest ne =
    if-elim (λ (text : Bytes). Ahead l (text ++ rest) → StepsTo l c rest) (escape_letter c == 0)
      (λ e.
        let (a, b) = plain-escape_letter c (unfold escape_letter in ground arith) ne in
        step_plain c l rest ne a b)
      (λ e. step-escape (escape_letter c) c l rest (escaped-escape_letter c (λ z. ground arith)) ne)

string_loop-quoted :
    (s : Bytes) (n : ℕ) (l : Lexer) (rest : Bytes)
    → All (λ c. c ≢ 0) s
    → Ahead l (quoted s rest)
    → length s < n
    → ((string_loop n l).0 ≡ s) × Ahead (string_loop n l).1 (b'"' ∷ rest)
unfolding string_loop quoted
string_loop-quoted s zero l rest a h fuel = absurd (omega arith)
string_loop-quoted [] (suc n) l rest a h fuel =
    let stop : in_string l.ch ≡ false = unfold in_string in ground (arith, Ahead-ch h) in
    rw stop (refl, h)
string_loop-quoted (c ∷ cs) (suc n) l rest a h fuel =
    let step = step-escape_byte c l (quoted cs rest) a.0 h in
    let (text, behind) =
      string_loop-quoted cs n (string_step l).1 rest a.1 step.behind (omega arith) in
    rw step.goes_on ((λ i. step.byte_is i ∷ text i), behind)

length-quoted : (s rest : Bytes) → length s < length (quoted s rest)
unfolding quoted escape_byte
length-quoted [] rest = omega arith
length-quoted (c ∷ cs) rest = omega (
  arith,
  length-append {0} (escape_byte c) (quoted cs rest),
  escape_byte_pos c,
  length-quoted cs rest,
)

-- Reading a quoted string gives the string back, whatever bytes but 0 it holds, and stops behind
-- its closing quote.
pub read_string-quoted :
    (s rest : Bytes) (l : Lexer)
    → All (λ c. c ≢ 0) s
    → Ahead l (b'"' ∷ quoted s rest)
    → ((read_string l).0 ≡ s) × Ahead (read_string l).1 rest
unfolding read_string close_quote
read_string-quoted s rest l a h =
    let h₁ = Ahead-read_char h in
    let (text, h₂) =
      string_loop-quoted s (rounds (read_char l)) (read_char l) rest a h₁
        (omega (arith, rounds-left h₁, length-quoted s rest)) in
    let closed : ((string_loop (rounds (read_char l)) (read_char l)).1.ch == b'"') ≡ true =
      ground (arith, Ahead-ch h₂) in
    (text, rw closed (Ahead-read_char h₂))

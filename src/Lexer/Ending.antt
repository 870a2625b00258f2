-- ===== src/Lexer/Ending.antt =====
-- The end of the input: which tokens are `EOF`, and that calling `NextToken` gets there.
use serv_lang.Prelude.{
  ℕ, zero, suc, ◌+◌, ◌≤◌, ◌≡◌, refl, ap, ◌∙◌, false, [], Bytes, arith, length, get_or-beyond,
}
use serv_lang.Lexer.Token.{TokenType, Token}
use serv_lang.Lexer.Cursor.{Lexer, new_lexer, read_char, rounds, loop, for_char, is_blank}
use serv_lang.Lexer.Position.{byte_at, IsPlaced, IsCounted, read_char-IsPlaced}
use serv_lang.Lexer.Scan.{skip_whitespace}
use serv_lang.Lexer.Next.{
  one, scan_text, scan_bracket, scan_dot, scan_bitwise, scan_star, scan_token, at_comment,
  next_token,
}
use serv_lang.Lexer.Tokens.{next_token-unfold, next_token-forward}

-- The lexer behind `n` calls of `NextToken`.
unfoldable pub drain : ℕ → Lexer → Lexer
drain zero l = l
drain (suc n) l = drain n (next_token l).1

pub new_lexer-IsPlaced : (input : Bytes) → IsPlaced (new_lexer input)
unfolding new_lexer
new_lexer-IsPlaced input = read_char-IsPlaced _

pub new_lexer-input : (input : Bytes) → (new_lexer input).input ≡ input
unfolding new_lexer read_char
new_lexer-input input = refl

pub new_lexer-IsCounted : (input : Bytes) → IsCounted (new_lexer input)
unfolding new_lexer read_char
new_lexer-IsCounted input = record { line_is = refl; col_is = refl }

drain-forward :
    (n : ℕ) (l : Lexer)
    → IsPlaced l
    → (n + l.position ≤ (drain n l).position) × IsPlaced (drain n l) × ((drain n l).input ≡ l.input)
unfolding drain
drain-forward zero l p = (omega arith, p, refl)
drain-forward (suc n) l p =
    let (further, placed, same) = next_token-forward l p in
    let (a, b, c) = drain-forward n (next_token l).1 placed in (omega arith, b, c ∙ same)

skip_whitespace-zero : (l : Lexer) → l.ch ≡ 0 → skip_whitespace l ≡ l
unfolding skip_whitespace for_char rounds loop is_blank
skip_whitespace-zero l e = ground arith

scan_token-zero : (l : Lexer) → l.ch ≡ 0 → scan_token l ≡ one l TokenType.eof []
unfolding scan_token scan_star scan_bitwise scan_dot scan_bracket scan_text
scan_token-zero l e = rw e

at_comment-zero : (l : Lexer) → l.ch ≡ 0 → at_comment l ≡ false
unfolding at_comment
at_comment-zero l e = rw e

-- At a zero byte, or past the end, the token is `EOF`.
pub next_token-zero : (l : Lexer) → IsPlaced l → l.ch ≡ 0 → next_token l ≡ one l TokenType.eof []
next_token-zero l p e =
    next_token-unfold l p
    ∙ (rw (skip_whitespace-zero l e) (rw (at_comment-zero l e) (scan_token-zero l e)))

-- The calls come to the end of every input: behind as many tokens as the input has bytes, each
-- further token is `EOF`.
pub drain-eof :
    (input : Bytes) (n : ℕ)
    → length input ≤ n
    → (next_token (drain n (new_lexer input))).0.type_of ≡ TokenType.eof
unfolding one
drain-eof input n h =
    let l = drain n (new_lexer input) in
    let (far, placed, same) = drain-forward n (new_lexer input) (new_lexer-IsPlaced input) in
    let beyond : l.ch ≡ 0 =
      placed.current
      ∙ ap (λ xs. byte_at xs l.position) (same ∙ new_lexer-input input)
      ∙ get_or-beyond input l.position 0 (omega arith) in
    ap (λ (r : Token × Lexer). r.0.type_of) (next_token-zero l placed beyond)

-- ===== src/Parser/State.antt =====
-- `Parser` of compiler/parser.go: its tokens, its errors and the steps that read them.
use serv_lang.Prelude.{ℕ, zero, suc, Bool, true, false, ◌&&◌, not, List, [], ◌∷◌, ◌++◌, Bytes}
use serv_lang.Lexer.Token.{
  Token, TokenType, ident, eof, comma, rparen, lbrace, same_type, is_keyword_token,
}
use serv_lang.Lexer.Cursor.{Lexer}
use serv_lang.Lexer.Next.{next_token}

-- The texts of errors, by what they are made of.
pub data Message : Type 0 where
  expected_next : TokenType → TokenType → Message
  no_prefix : TokenType → Message
  not_integer not_float : Bytes → Message
  expected_field expected_key expected_struct_field expected_fn : TokenType → Message
  bad_assignment bad_compound_assignment : Message
  expected_arrow expected_case_body expected_version_end : Message
  expected_route_method expected_module_item expected_middleware : TokenType → Message
  expected_origins bad_origins expected_inline_fn : Message
  inline_error : Bytes → Message

-- `[Line %d, Col %d] %s`; at line 0 the message alone, which some statements append without a place
pub record Error : Type 0 where
  pub line : ℕ
  pub col : ℕ
  pub message : Message

-- The maps of parse functions never change behind `NewParser`: they are functions of a token type.
pub record Parser : Type 0 where
  pub lexer : Lexer
  pub cur : Token
  pub peek : Token
  pub errors : List Error
  pub version_prefix : Bytes

-- A run of a parse function: its result and the parser behind it, a Go panic, or no fuel left.
pub data Result {ℓ} (A : Type ℓ) : Type ℓ where
  done : A → Parser → Result A
  panics : Result A
  out_of_fuel : Result A

abbrev pub P {ℓ} : Type ℓ → Type ℓ
P A = Parser → Result A

abbrev pub pure {ℓ} : {A : Type ℓ} → A → P A
pure a = λ p. done a p

abbrev pub continue {ℓ κ} : {A : Type ℓ} {B : Type κ} → Result A → (A → P B) → Result B
continue (done a p) f = f a p
continue panics f = panics
continue out_of_fuel f = out_of_fuel

module _ {ℓ κ} {A : Type ℓ} {B : Type κ} where
  infixl 1 ◌>>=◌ ◌>>◌
  abbrev pub ◌>>=◌ : P A → (A → P B) → P B
  m >>= f = λ p. continue (m p) f

  abbrev pub ◌>>◌ : P A → P B → P B
  m >> n = m >>= λ _. n

-- A conditional that runs the branch it takes.
abbrev pub choose {ℓ} : {A : Type ℓ} → Bool → P A → P A → P A
choose true m n = m
choose false m n = n

-- `nextToken`
unfoldable pub advance : Parser → Parser
advance p = let (tok, l) = next_token p.lexer in record p { cur = p.peek; peek = tok; lexer = l }

abbrev pub next : P (Unit {0})
next = λ p. done tt (advance p)

abbrev pub cur_token : P Token
cur_token = λ p. done p.cur p

abbrev pub literal_here : P Bytes
literal_here = λ p. done p.cur.literal p

abbrev pub cur_is : TokenType → P Bool
cur_is t = λ p. done (same_type p.cur.type_of t) p

abbrev pub peek_is : TokenType → P Bool
peek_is t = λ p. done (same_type p.peek.type_of t) p

-- `p.curToken.Type = t`
abbrev pub retype : TokenType → P (Unit {0})
retype t = λ p. done tt (record p { cur = record (p.cur) { type_of = t } })

-- `addError`
abbrev pub add_error : Message → P (Unit {0})
add_error m = λ p. done tt (record p {
  errors = p.errors ++ (record { line = p.cur.line; col = p.cur.col; message = m } ∷ []);
})

-- `p.errors = append(p.errors, …)`
abbrev pub add_bare_error : Message → P (Unit {0})
add_bare_error m = λ p.
    done tt (record p { errors = p.errors ++ (record { line = 0; col = 0; message = m } ∷ []) })

-- `peekError`
abbrev pub peek_error : TokenType → P (Unit {0})
peek_error t = λ p. done tt (record p {
  errors =
      p.errors
      ++ (record { line = p.peek.line; col = p.peek.col; message = expected_next t p.peek.type_of }
          ∷ []);
})

-- `expectPeek`
abbrev pub expect_peek : TokenType → P Bool
expect_peek t = λ p.
    choose (same_type p.peek.type_of t) (next >> pure true)
      (choose (same_type t ident && is_keyword_token p.peek.type_of)
        (next >> (retype ident >> pure true)) (peek_error t >> pure false))
      p

-- `if !p.expectPeek(t) { return nil }`
abbrev pub needs {ℓ} : {A : Type ℓ} → TokenType → A → P A → P A
needs t nil m = expect_peek t >>= λ found. choose found m (pure nil)

-- The tokens that a copy of the lexer gives, in order.
abbrev pub ahead : ℕ → Lexer → Token × Lexer
ahead zero l = next_token l
ahead (suc n) l = ahead n (next_token l).1

-- `isParamListFollowedByBrace`
unfoldable pub is_param_list_followed_by_brace : Parser → Bool
is_param_list_followed_by_brace p =
    same_type (ahead 0 p.lexer).0.type_of ident
    && (same_type (ahead 1 p.lexer).0.type_of rparen
        && same_type (ahead 2 p.lexer).0.type_of lbrace)

-- `for p.peekToken.Type != end && p.peekToken.Type != TOKEN_EOF`
abbrev pub more_until : TokenType → P Bool
more_until end =
    λ p. done (not (same_type p.peek.type_of end) && not (same_type p.peek.type_of eof)) p

-- `if p.peekToken.Type == TOKEN_COMMA { p.nextToken() }`
abbrev pub skip_comma : P (Unit {0})
skip_comma = peek_is comma >>= λ found. choose found next (pure tt)

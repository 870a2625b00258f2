-- ===== src/Parser/Expr.antt =====
-- `parseExpression` of compiler/parser_expr.go. Each level of expressions and each operator behind
-- an operand costs a unit of fuel.
use serv_lang.Prelude.{ℕ, zero, suc, Bool, not, ◌&&◌, Option, none, some, Bytes, ltb, if◌then◌else◌}
use serv_lang.Lexer.Token
use serv_lang.Lexer.Token.{Token, TokenType, same_type, is_keyword_token}
use serv_lang.Parser.Ast.{Expr, Block}
use serv_lang.Parser.State.{Parser, P, out_of_fuel, pure, ◌>>=◌, ◌>>◌, next}
use serv_lang.Parser.Operands.{parse_operand}
use serv_lang.Parser.Operators.{run_infix}
use serv_lang.Parser.Tables.{peek_precedence, InfixFn, infix_fn_of}

-- `p.peekToken.Type != TOKEN_EOF && precedence < p.peekPrecedence()`, with the function that the
-- token has.
unfoldable pub infix_ahead : ℕ → Parser → Option InfixFn
unfolding peek_precedence infix_fn_of
infix_ahead precedence p =
    if not (same_type p.peek.type_of Token.eof) && ltb precedence (peek_precedence p)
    then infix_fn_of p.peek.type_of
    else none

module _ (expr : ℕ → P Expr) where
  -- One round of the loop, with what follows it.
  unfoldable pub step_infix : ℕ → Expr → Option InfixFn → (Expr → P Expr) → P Expr
  unfolding run_infix
  step_infix f left none go_on = pure left
  step_infix f left (some fn) go_on = do next; more ← run_infix expr f fn left; go_on more

  unfoldable pub parse_infix_loop : ℕ → ℕ → Expr → P Expr
  unfolding infix_ahead step_infix
  parse_infix_loop zero precedence left = λ p. out_of_fuel
  parse_infix_loop (suc f) precedence left =
      λ p. step_infix f left (infix_ahead precedence p) (λ e. parse_infix_loop f precedence e) p

module _ (parse_block : P Block) (float_ok : Bytes → Bool) where
  unfoldable pub parse_expression : ℕ → ℕ → P Expr
  unfolding parse_operand parse_infix_loop
  parse_expression zero precedence = λ p. out_of_fuel
  parse_expression (suc f) precedence =
      parse_operand parse_block float_ok (λ q. parse_expression f q) f >>= λ left.
      parse_infix_loop (λ q. parse_expression f q) f precedence left

-- ===== src/Parser/Lists.antt =====
-- Arrays and argument lists of compiler/parser_expr.go, over the parser of expressions.
use serv_lang.Prelude.{ℕ, zero, suc}
use serv_lang.Lexer.Token
use serv_lang.Lexer.Token.{Token, TokenType, same_type, is_keyword_token}
use serv_lang.Parser.Ast.{Expr, nil_expr, array, spread, Exprs, no_exprs, cons_expr}
use serv_lang.Parser.State.{
  P, out_of_fuel, pure, ◌>>=◌, ◌>>◌, choose, next, cur_token, peek_is, needs,
}
use serv_lang.Parser.Tables.{lowest}

module _ (expr : ℕ → P Expr) where
  unfoldable pub parse_element : P Expr
  parse_element = do
    tok ← cur_token
    choose (same_type tok.type_of Token.spread) (do next; e ← expr lowest; pure (spread tok e))
        (expr lowest)

  unfoldable pub parse_elements : ℕ → P Exprs
  unfolding parse_element
  parse_elements zero = λ p. out_of_fuel
  parse_elements (suc f) = do
    e ← parse_element
    more ← peek_is Token.comma
    choose more (do next; next; rest ← parse_elements f; pure (cons_expr e rest))
        (pure (cons_expr e no_exprs))

  unfoldable pub parse_array : ℕ → P Expr
  unfolding parse_elements
  parse_array f = do
    tok ← cur_token
    closes ← peek_is Token.rbracket
    choose closes (next >> pure (array tok no_exprs))
        (do next; es ← parse_elements f; needs Token.rbracket nil_expr (pure (array tok es)))

  unfoldable pub parse_arguments : ℕ → P Exprs
  parse_arguments zero = λ p. out_of_fuel
  parse_arguments (suc f) = do
    e ← expr lowest
    more ← peek_is Token.comma
    choose more (do next; next; rest ← parse_arguments f; pure (cons_expr e rest))
        (pure (cons_expr e no_exprs))

  -- The list behind an error is nil, which is empty.
  unfoldable pub parse_expression_list : ℕ → TokenType → P Exprs
  unfolding parse_arguments
  parse_expression_list f end = do
    closes ← peek_is end
    choose closes (next >> pure no_exprs)
        (do next; es ← parse_arguments f; needs end no_exprs (pure es))

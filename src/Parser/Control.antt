-- ===== src/Parser/Control.antt =====
-- compiler/parser_controlflow.go, over the parsers of expressions and blocks. Loops and `else if`
-- run on fuel.
use serv_lang.Prelude.{
  ℕ, zero, suc, Bool, true, false, ◌&&◌, ◌||◌, [], Option, none, some, Bytes, equal, codes,
}
use serv_lang.Lexer.Token
use serv_lang.Lexer.Token.{Token, TokenType, same_type, is_keyword_token}
use serv_lang.Parser.Ast.{
  Expr, nil_expr, Block, nil_block, block, no_stmts, cons_stmt, Cases, no_cases, cons_case, Stmt,
  nil_stmt, if_stmt, for_stmt, match_stmt, try_stmt,
}
use serv_lang.Parser.State.{
  P, out_of_fuel, pure, ◌>>=◌, ◌>>◌, choose, next, cur_token, literal_here, cur_is, peek_is,
  add_error, needs, expected_arrow, expected_case_body,
}
use serv_lang.Parser.Tables.{lowest, assign_level}

-- The body of `else if`: none behind an error.
abbrev pub else_body : Token → Stmt → Block
else_body tok nil_stmt = nil_block
else_body tok s = block tok (cons_stmt s no_stmts)

abbrev pub cons_case_or : Expr → Block → Option Cases → Option Cases
cons_case_or v b none = none
cons_case_or v b (some cs) = some (cons_case v b cs)

abbrev pub match_or_nil : Token → Expr → Option Cases → Stmt
match_or_nil tok v none = nil_stmt
match_or_nil tok v (some cs) = match_stmt tok v cs

module _ (expr : ℕ → P Expr) (parse_block : P Block) where
  unfoldable pub parse_if : ℕ → P Stmt
  parse_if zero = λ p. out_of_fuel
  parse_if (suc f) = do
    tok ← cur_token
    next
    cond ← expr lowest
    needs Token.lbrace nil_stmt do
      body ← parse_block
      has_else ← peek_is Token.else_kw
      choose has_else
          (do
            next
            else_if ← peek_is Token.if_kw
            choose else_if
                (do
                  next
                  inner ← parse_if f
                  at ← cur_token
                  pure (if_stmt tok cond body (else_body at inner)))
                (needs Token.lbrace nil_stmt
                  do other ← parse_block; pure (if_stmt tok cond body other)))
          (pure (if_stmt tok cond body nil_block))

  -- The body of a loop whose head has been read.
  unfoldable pub parse_for_body : Token → Bool → Bytes → Bytes → Expr → P Stmt
  parse_for_body tok range key variable iterable =
      needs Token.lbrace nil_stmt
        do body ← parse_block; pure (for_stmt tok range key variable iterable body)

  unfoldable pub parse_for : P Stmt
  unfolding parse_for_body
  parse_for = do
    tok ← cur_token
    next
    named ← cur_is Token.ident
    first ← literal_here
    single ← peek_is Token.in_kw
    double ← peek_is Token.comma
    choose (named && single)
        (do next; next; iterable ← expr lowest; parse_for_body tok true [] first iterable)
        (choose (named && double)
          (do
            next
            needs Token.ident nil_stmt do
              second ← literal_here
              needs Token.in_kw nil_stmt
                  do next; iterable ← expr lowest; parse_for_body tok true first second iterable)
          (do cond ← expr lowest; parse_for_body tok false [] [] cond))

  -- The value of a case: nil at `_`.
  unfoldable pub parse_case_value : P Expr
  parse_case_value = do
    tok ← cur_token
    choose (same_type tok.type_of Token.ident && equal tok.literal (codes "_"))
        (do next; pure nil_expr) (do v ← expr assign_level; next; pure v)

  unfoldable pub parse_cases : ℕ → P (Option Cases)
  unfolding parse_case_value
  parse_cases zero = λ p. out_of_fuel
  parse_cases (suc f) = do
    closed ← cur_is Token.rbrace
    at_end ← cur_is Token.eof
    choose (closed || at_end) (pure (some no_cases)) (do
      v ← parse_case_value
      arrow_there ← cur_is Token.arrow
      choose arrow_there
          (do
            next
            opens ← cur_is Token.lbrace
            choose opens
                (do body ← parse_block; next; rest ← parse_cases f; pure (cons_case_or v body rest))
                (do add_error expected_case_body; pure none))
          (do add_error expected_arrow; pure none))

  unfoldable pub parse_match : ℕ → P Stmt
  unfolding parse_cases
  parse_match f = do
    tok ← cur_token
    next
    v ← expr lowest
    needs Token.lbrace nil_stmt do next; cases ← parse_cases f; pure (match_or_nil tok v cases)

  unfoldable pub parse_try : P Stmt
  parse_try = do
    tok ← cur_token
    needs Token.lbrace nil_stmt do
      body ← parse_block
      needs Token.catch nil_stmt (
          needs Token.lparen nil_stmt (
            needs Token.ident nil_stmt do
              param ← literal_here
              needs Token.rparen nil_stmt (
                  needs Token.lbrace nil_stmt
                    do handler ← parse_block; pure (try_stmt tok body param handler))))

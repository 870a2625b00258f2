-- ===== src/Parser/Operators.antt =====
-- Fields, indices, slices, assignments and `spawn` of compiler/parser_expr.go, and the operators
-- behind an operand, over the parser of expressions.
use serv_lang.Prelude.{ℕ, ◌||◌, List, [], ◌∷◌, Bytes, codes}
use serv_lang.Lexer.Token
use serv_lang.Lexer.Token.{Token, TokenType, same_type, is_keyword_token}
use serv_lang.Parser.Ast.{
  Expr, nil_expr, identifier, infix_expr, call, error_prop, member, optional_member, index,
  slice_expr, assign, member_assign, index_assign, compound_assign, spawn_expr, arrow, no_exprs,
  cons_expr,
}
use serv_lang.Parser.State.{
  P, done, pure, ◌>>=◌, ◌>>◌, choose, next, cur_token, literal_here, cur_is, peek_is, retype,
  add_error, peek_error, needs, bad_assignment, bad_compound_assignment,
}
use serv_lang.Parser.Lists.{parse_expression_list}
use serv_lang.Parser.Tables.{
  lowest, precedence_of, InfixFn, binary_fn, pipe_fn, call_fn, member_fn, optional_member_fn,
  index_fn, assign_fn, compound_assign_fn, arrow_fn, error_prop_fn,
}

-- The token that a call without parentheses gets.
abbrev pub call_token : Token → Token
call_token tok = record {
  type_of = Token.lparen;
  literal = codes "(";
  line = tok.line;
  col = tok.col;
}

-- The function and the arguments of `left |> right`.
abbrev pub piped : Token → Expr → Expr → Expr
piped tok left nil_expr = nil_expr
piped tok left (call t f types args) = call t f types (cons_expr left args)
piped tok left right = call (call_token tok) right [] (cons_expr left no_exprs)

-- The parameter of an arrow function.
abbrev pub arrow_params : Expr → List Bytes
arrow_params (identifier _ name) = name ∷ []
arrow_params _ = []

module _ (expr : ℕ → P Expr) where
  unfoldable pub parse_spawn : P Expr
  parse_spawn = do
    tok ← cur_token
    limited ← peek_is Token.lparen
    choose limited
        (do
          next
          next
          limit ← expr lowest
          needs Token.rparen nil_expr do next; e ← expr lowest; pure (spawn_expr tok limit e))
        (do next; e ← expr lowest; pure (spawn_expr tok nil_expr e))

  -- `parseMemberExpression` and `parseOptionalMemberExpression`
  unfoldable pub parse_field : Expr → (Token → Expr → Bytes → Expr) → P Expr
  parse_field left make = do
    tok ← cur_token
    is_name ←
        (λ p. done (same_type p.peek.type_of Token.ident || is_keyword_token p.peek.type_of) p)
    choose is_name (do next; retype Token.ident; name ← literal_here; pure (make tok left name))
        (peek_error Token.ident >> pure nil_expr)

  unfoldable pub parse_assignment : Expr → P Expr
  parse_assignment (identifier _ name) = do
    tok ← cur_token
    next
    e ← expr lowest
    pure (assign tok name e)
  parse_assignment (member _ object name) = do
    tok ← cur_token
    next
    e ← expr lowest
    pure (member_assign tok object name e)
  parse_assignment (index t object at) = do
    tok ← cur_token
    next
    e ← expr lowest
    pure (index_assign tok (index t object at) e)
  parse_assignment _ = add_error bad_assignment >> pure nil_expr

  unfoldable pub parse_compound : Expr → P Expr
  parse_compound (identifier _ name) = do
    tok ← cur_token
    next
    e ← expr lowest
    pure (compound_assign tok name tok.literal e)
  parse_compound _ = add_error bad_compound_assignment >> pure nil_expr

  unfoldable pub parse_slice_end : P Expr
  parse_slice_end = do closes ← cur_is Token.rbracket; choose closes (pure nil_expr) (expr lowest)

  unfoldable pub parse_index : Expr → P Expr
  unfolding parse_slice_end
  parse_index left = do
    tok ← cur_token
    next
    from_start ← cur_is Token.colon
    choose from_start
        (do
          next
          end ← parse_slice_end
          needs Token.rbracket nil_expr (pure (slice_expr tok left nil_expr end)))
        (do
          at ← expr lowest
          sliced ← peek_is Token.colon
          choose sliced
              (do
                next
                next
                open_end ← cur_is Token.rbracket
                choose open_end (pure (slice_expr tok left at nil_expr)) (do
                  end ← expr lowest
                  needs Token.rbracket nil_expr (pure (slice_expr tok left at end))))
              (needs Token.rbracket nil_expr (pure (index tok left at))))

  unfoldable pub run_infix : ℕ → InfixFn → Expr → P Expr
  unfolding parse_field parse_assignment parse_compound parse_index parse_expression_list
      precedence_of
  run_infix f binary_fn left = do
    tok ← cur_token
    next
    right ← expr (precedence_of tok.type_of)
    pure (infix_expr tok left tok.literal right)
  run_infix f pipe_fn left = do
    tok ← cur_token
    next
    right ← expr (precedence_of tok.type_of)
    pure (piped tok left right)
  run_infix f call_fn left = do
    tok ← cur_token
    args ← parse_expression_list expr f Token.rparen
    pure (call tok left [] args)
  run_infix f member_fn left = parse_field left member
  run_infix f optional_member_fn left = parse_field left optional_member
  run_infix f index_fn left = parse_index left
  run_infix f assign_fn left = parse_assignment left
  run_infix f compound_assign_fn left = parse_compound left
  run_infix f arrow_fn left = do
    tok ← cur_token
    next
    e ← expr lowest
    pure (arrow tok (arrow_params left) e)
  run_infix f error_prop_fn left = cur_token >>= λ tok. pure (error_prop tok left)

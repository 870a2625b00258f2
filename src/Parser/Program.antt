-- ===== src/Parser/Program.antt =====
-- `parseStatement`, `parseBlockStatement`, `ParseProgram` and `synchronize` of compiler/parser.go.
--
-- Each level of statements and each
-- round of a loop costs a unit of fuel.
use serv_lang.Prelude.{ℕ, zero, suc, Bool, ◌||◌, [], Bytes, ltb, length}
use serv_lang.Lexer.Token
use serv_lang.Lexer.Token.{Token, TokenType, same_type}
use serv_lang.Lexer.Cursor.{Lexer}
use serv_lang.Lexer.Next.{next_token}
use serv_lang.Parser.Ast.{
  Expr, Block, block, Stmts, no_stmts, Stmt, expr_stmt, return_stmt, yield_stmt, break_stmt,
  continue_stmt, before_each, after_each,
}
use serv_lang.Parser.State.{
  Parser, P, done, out_of_fuel, pure, ◌>>=◌, ◌>>◌, choose, next, cur_token, cur_is, peek_is,
}
use serv_lang.Parser.Expr.{parse_expression}
use serv_lang.Parser.Tables.{lowest}
use serv_lang.Parser.Modules.{Inline, parse_service}
use serv_lang.Parser.Control.{parse_if, parse_for, parse_match, parse_try}
use serv_lang.Parser.Decls.{parse_fn, parse_actor, parse_workflow}
use serv_lang.Parser.TypeDecls.{
  parse_struct, parse_interface, parse_alias, parse_validate, parse_enum,
}
use serv_lang.Parser.Dispatch.{
  StmtFn, stmt_fn_of, is_sync, import_fn, extern_fn, publish_fn, spawn_fn, let_fn, return_fn,
  yield_fn, version_fn, fn_fn, try_fn, match_fn, test_fn, mock_fn, enum_fn, if_fn, for_fn,
  struct_fn, actor_fn, workflow_fn, interface_fn, alias_fn, validate_fn, break_fn, continue_fn,
  before_fn, after_fn, service_fn, dotted_service_fn, expression_fn,
}
use serv_lang.Parser.Imports.{parse_import, parse_extern, cons_unless_nil}
use serv_lang.Parser.Simple.{
  parse_let, parse_value_stmt, parse_publish, parse_spawn_stmt, parse_test, parse_each, parse_mock,
  parse_version,
}

-- The loop of a block and of a version block.
module _ (statement : P Stmt) where
  unfoldable pub parse_stmts : ℕ → P Stmts
  parse_stmts zero = λ p. out_of_fuel
  parse_stmts (suc f) = do
    closed ← cur_is Token.rbrace
    at_end ← cur_is Token.eof
    choose (closed || at_end) (pure no_stmts)
        (do s ← statement; next; rest ← parse_stmts f; pure (cons_unless_nil s rest))

  unfoldable pub parse_block : ℕ → P Block
  unfolding parse_stmts
  parse_block f = do tok ← cur_token; next; ss ← parse_stmts f; pure (block tok ss)

module _ (service : P Stmt) (expr : ℕ → P Expr) (body : P Block) (stmts : P Stmts) where
  unfoldable pub parse_expression_statement : P Stmt
  parse_expression_statement = do tok ← cur_token; v ← expr lowest; pure (expr_stmt tok v)

  -- The statement that a token makes unless another follows it.
  abbrev pub unless_peek : TokenType → P Stmt → P Stmt
  unless_peek t m = peek_is t >>= λ there. choose there parse_expression_statement m

  unfoldable pub run_stmt : ℕ → StmtFn → P Stmt
  unfolding parse_expression_statement parse_import parse_extern parse_let parse_value_stmt
      parse_publish parse_spawn_stmt parse_test parse_each parse_mock parse_version parse_struct
      parse_interface parse_alias parse_validate parse_enum parse_fn parse_actor parse_workflow
      parse_if parse_for parse_match parse_try
  run_stmt f import_fn = parse_import f
  run_stmt f extern_fn = parse_extern f
  run_stmt f publish_fn = parse_publish expr
  run_stmt f spawn_fn = parse_spawn_stmt expr
  run_stmt f let_fn = parse_let expr f
  run_stmt f return_fn = parse_value_stmt expr return_stmt
  run_stmt f yield_fn = parse_value_stmt expr yield_stmt
  run_stmt f version_fn = parse_version expr body stmts
  run_stmt f fn_fn = parse_fn body f
  run_stmt f try_fn = parse_try expr body
  run_stmt f match_fn = parse_match expr body f
  run_stmt f test_fn = parse_test expr body stmts
  run_stmt f mock_fn = parse_mock expr body stmts
  run_stmt f enum_fn = parse_enum expr f
  run_stmt f if_fn = parse_if expr body f
  run_stmt f for_fn = parse_for expr body
  run_stmt f struct_fn = parse_struct f
  run_stmt f actor_fn = parse_actor body f
  run_stmt f workflow_fn = unless_peek Token.dot (parse_workflow body f)
  run_stmt f interface_fn = parse_interface f
  run_stmt f alias_fn = parse_alias f
  run_stmt f validate_fn = unless_peek Token.lparen (parse_validate f)
  run_stmt f break_fn = cur_token >>= λ tok. pure (break_stmt tok)
  run_stmt f continue_fn = cur_token >>= λ tok. pure (continue_stmt tok)
  run_stmt f before_fn = parse_each expr body stmts before_each
  run_stmt f after_fn = parse_each expr body stmts after_each
  run_stmt f service_fn = service
  run_stmt f dotted_service_fn = unless_peek Token.dot service
  run_stmt f expression_fn = parse_expression_statement

unfoldable pub synchronize : ℕ → P (Unit {0})
unfolding is_sync
synchronize zero = λ p. out_of_fuel
synchronize (suc f) = do
  at_end ← cur_is Token.eof
  tok ← cur_token
  choose (at_end || is_sync tok.type_of) (pure tt) (do next; synchronize f)

-- Parameters: `ReadGoInlineSignatureAndBody` of the lexer, `strings.ToLower`, and the test of
-- `strconv.ParseFloat`.
module _ (read_inline : Lexer → Inline × Lexer) (to_lower : Bytes → Bytes)
    (float_ok : Bytes → Bool) where
  unfoldable pub parse_statement : ℕ → P Stmt
  unfolding stmt_fn_of run_stmt parse_stmts parse_block parse_expression parse_service
  parse_statement zero = λ p. out_of_fuel
  parse_statement (suc f) = λ p.
      let body = parse_block (parse_statement f) f in
      let expr = λ (q : ℕ). parse_expression body float_ok f q in
      let service =
        parse_service read_inline to_lower expr body (parse_statement f) f p.cur.type_of in
      run_stmt service expr body (parse_stmts (parse_statement f) f) f (stmt_fn_of p.cur.type_of) p

  -- A statement, and whether it left an error.
  unfoldable pub parse_checked : ℕ → P (Stmt × Bool)
  unfolding parse_statement
  parse_checked f = do
    before ← (λ p. done (length p.errors) p)
    s ← parse_statement f
    after ← (λ p. done (length p.errors) p)
    pure (s, ltb before after)

  unfoldable pub parse_program : ℕ → P Stmts
  unfolding parse_checked synchronize
  parse_program zero = λ p. out_of_fuel
  parse_program (suc f) = do
    at_end ← cur_is Token.eof
    choose at_end (pure no_stmts) (do
      checked ← parse_checked f
      choose checked.1 (synchronize f) next
      rest ← parse_program f
      pure (cons_unless_nil checked.0 rest))

-- `NewParser`: two calls of `nextToken` on empty tokens leave the first two tokens of the lexer.
unfoldable pub new_parser : Lexer → Parser
new_parser l =
    let (first, behind) = next_token l in
    let (second, rest) = next_token behind in
    record { lexer = rest; cur = first; peek = second; errors = []; version_prefix = [] }

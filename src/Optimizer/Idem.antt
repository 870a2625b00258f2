-- ===== src/Optimizer/Idem.antt =====
-- A second run of the optimizer changes nothing.
use mathlib.Core.Path.{ap₂}
use serv_lang.Prelude.{◌≡◌, refl, ap, true, false, Option, none, some, Bool-cases, inl, inr}
use serv_lang.Lexer.Token.{Token}
use serv_lang.Optimizer.Ast.{
  Expr, boolean, infix_expr, prefix_expr, call, array, map_literal, struct_literal, member, index,
  slice_expr, await, error_prop, fn_literal, assert_expr, Exprs, no_exprs, cons_expr, Pairs,
  no_pairs, cons_pair, Spreads, no_spreads, cons_spread, Block, nil_block, block, Stmts, no_stmts,
  cons_stmt, Stmt, block_stmt, let_stmt, expr_stmt, return_stmt, if_stmt, for_stmt, fn_decl,
  route_stmt, tool_stmt, migration_stmt, every_stmt, cron_stmt, subscribe_stmt, publish_stmt,
  spawn_stmt, mock_stmt, test_stmt, try_stmt,
}
use serv_lang.Optimizer.Fold.{Floats}
use serv_lang.Optimizer.Pass.{
  is_terminator, as_stmt, keep, choose_branch, push_stmt, optimize_expression, optimize_exprs,
  optimize_pairs, optimize_spreads, optimize_block, optimize_stmts, optimize_statement, optimize,
}
use serv_lang.Optimizer.Fixed.{IsFixed, make_infix-IsFixed, make_prefix-IsFixed}

module _ (fl : Floats) where
  open fl use {F}

  FixedStmt : Option (Stmt F) → Type 0
  FixedStmt none = Unit
  FixedStmt (some s) = optimize_statement fl s ≡ some s

  keep-fixed :
      (o : Option (Stmt F)) (rest : Stmts F)
      → FixedStmt o
      → optimize_stmts fl rest ≡ rest
      → optimize_stmts fl (keep o rest) ≡ keep o rest
  unfolding FixedStmt keep optimize_expression
  keep-fixed none rest f h = h
  keep-fixed (some s) rest f h = elim (Bool-cases (is_terminator s)) [
    | inl ends ↦ rw (ends, f) (rw (ends, keep))
    | inr goes_on ↦ rw (goes_on, f) (rw (goes_on, keep) (ap (cons_stmt s) h))
  ]

  as_stmt-fixed : (b : Block F) → optimize_block fl b ≡ b → FixedStmt (as_stmt b)
  unfolding FixedStmt as_stmt optimize_expression
  as_stmt-fixed nil_block h = tt
  as_stmt-fixed (block tok ss) h = ap (λ b. as_stmt b) h

  choose_branch-fixed :
      (tok : Token) (c : Expr F) (b e : Block F)
      → IsFixed fl c
      → optimize_block fl b ≡ b
      → optimize_block fl e ≡ e
      → FixedStmt (choose_branch tok c b e)
  unfolding FixedStmt IsFixed choose_branch optimize_expression
  choose_branch-fixed tok (boolean _ true) b e hc hb he = as_stmt-fixed b hb
  choose_branch-fixed tok (boolean _ false) b e hc hb he = as_stmt-fixed e he
  choose_branch-fixed tok c b e hc hb he = λ i. choose_branch tok (hc i) (hb i) (he i)

  mutual
    unfolding optimize_expression IsFixed FixedStmt

    fixed :
        (e : Expr F) → optimize_expression fl (optimize_expression fl e) ≡ optimize_expression fl e
    fixed (infix_expr tok l op r) = make_infix-IsFixed fl tok _ _ op (fixed l) (fixed r)
    fixed (prefix_expr tok op r) = make_prefix-IsFixed fl tok op _ (fixed r)
    fixed (call tok f xs) = ap₂ (call tok) (fixed f) (fixed_exprs xs)
    fixed (array tok xs) = ap (array tok) (fixed_exprs xs)
    fixed (map_literal tok ps ss) = ap₂ (map_literal tok) (fixed_pairs ps) (fixed_spreads ss)
    fixed (struct_literal tok n ps) = ap (struct_literal tok n) (fixed_pairs ps)
    fixed (member tok o name) = ap (λ e. member tok e name) (fixed o)
    fixed (index tok l i) = ap₂ (index tok) (fixed l) (fixed i)
    fixed (slice_expr tok l s e) = λ i. slice_expr tok (fixed l i) (fixed s i) (fixed e i)
    fixed (await tok v) = ap (await tok) (fixed v)
    fixed (error_prop tok v) = ap (error_prop tok) (fixed v)
    fixed (fn_literal tok ps arrow body) = ap₂ (fn_literal tok ps) (fixed arrow) (fixed_block body)
    fixed (assert_expr tok c) = ap (assert_expr tok) (fixed c)
    fixed e = refl

    fixed_exprs : (es : Exprs F) → optimize_exprs fl (optimize_exprs fl es) ≡ optimize_exprs fl es
    fixed_exprs no_exprs = refl
    fixed_exprs (cons_expr e es) = ap₂ cons_expr (fixed e) (fixed_exprs es)

    fixed_pairs : (ps : Pairs F) → optimize_pairs fl (optimize_pairs fl ps) ≡ optimize_pairs fl ps
    fixed_pairs no_pairs = refl
    fixed_pairs (cons_pair k v ps) = ap₂ (cons_pair k) (fixed v) (fixed_pairs ps)

    fixed_spreads :
        (ss : Spreads F) → optimize_spreads fl (optimize_spreads fl ss) ≡ optimize_spreads fl ss
    fixed_spreads no_spreads = refl
    fixed_spreads (cons_spread n v ss) = ap₂ (cons_spread n) (fixed v) (fixed_spreads ss)

    fixed_block : (b : Block F) → optimize_block fl (optimize_block fl b) ≡ optimize_block fl b
    fixed_block nil_block = refl
    fixed_block (block tok ss) = ap (block tok) (fixed_stmts ss)

    fixed_stmts : (ss : Stmts F) → optimize_stmts fl (optimize_stmts fl ss) ≡ optimize_stmts fl ss
    fixed_stmts no_stmts = refl
    fixed_stmts (cons_stmt s ss) =
        keep-fixed (optimize_statement fl s) (optimize_stmts fl ss) (fixed_stmt s) (fixed_stmts ss)

    fixed_stmt : (s : Stmt F) → FixedStmt (optimize_statement fl s)
    fixed_stmt (block_stmt tok ss) = ap (λ b. some (block_stmt tok b)) (fixed_stmts ss)
    fixed_stmt (let_stmt tok ns v) = ap (λ e. some (let_stmt tok ns e)) (fixed v)
    fixed_stmt (expr_stmt tok v) = ap (λ e. some (expr_stmt tok e)) (fixed v)
    fixed_stmt (return_stmt tok v) = ap (λ e. some (return_stmt tok e)) (fixed v)
    fixed_stmt (if_stmt tok c b e) =
        choose_branch-fixed tok _ _ _ (fixed c) (fixed_block b) (fixed_block e)
    fixed_stmt (for_stmt tok x k i b) =
        ap₂ (λ e c. some (for_stmt tok x k e c)) (fixed i) (fixed_block b)
    fixed_stmt (fn_decl tok n ps b) = ap (λ c. some (fn_decl tok n ps c)) (fixed_block b)
    fixed_stmt (route_stmt tok mt p b) = ap (λ c. some (route_stmt tok mt p c)) (fixed_block b)
    fixed_stmt (tool_stmt tok n b) = ap (λ c. some (tool_stmt tok n c)) (fixed_block b)
    fixed_stmt (migration_stmt tok n b) = ap (λ c. some (migration_stmt tok n c)) (fixed_block b)
    fixed_stmt (every_stmt tok i b) =
        ap₂ (λ e c. some (every_stmt tok e c)) (fixed i) (fixed_block b)
    fixed_stmt (cron_stmt tok i b) = ap₂ (λ e c. some (cron_stmt tok e c)) (fixed i) (fixed_block b)
    fixed_stmt (subscribe_stmt tok t p b) =
        ap₂ (λ e c. some (subscribe_stmt tok e p c)) (fixed t) (fixed_block b)
    fixed_stmt (publish_stmt tok t v) = ap₂ (λ e c. some (publish_stmt tok e c)) (fixed t) (fixed v)
    fixed_stmt (spawn_stmt tok c l) = ap₂ (λ e d. some (spawn_stmt tok e d)) (fixed c) (fixed l)
    fixed_stmt (mock_stmt tok t b) = ap₂ (λ e c. some (mock_stmt tok e c)) (fixed t) (fixed_block b)
    fixed_stmt (test_stmt tok n b) = ap (λ c. some (test_stmt tok n c)) (fixed_block b)
    fixed_stmt (try_stmt tok t p c) =
        ap₂ (λ a b. some (try_stmt tok a p b)) (fixed_block t) (fixed_block c)
    fixed_stmt s = refl

  push_stmt-fixed :
      (o : Option (Stmt F)) (rest : Stmts F)
      → FixedStmt o
      → optimize fl rest ≡ rest
      → optimize fl (push_stmt o rest) ≡ push_stmt o rest
  unfolding FixedStmt push_stmt optimize
  push_stmt-fixed none rest f h = h
  push_stmt-fixed (some s) rest f h = λ i. push_stmt (f i) (h i)

  -- One run of the optimizer reaches all that it can do: optimizing the result again, of any
  -- program, changes nothing.
  pub optimize_idem : (p : Stmts F) → optimize fl (optimize fl p) ≡ optimize fl p
  unfolding optimize
  optimize_idem no_stmts = refl
  optimize_idem (cons_stmt s ss) =
      push_stmt-fixed (optimize_statement fl s) (optimize fl ss) (fixed_stmt s) (optimize_idem ss)

-- ===== src/Optimizer/Correct.antt =====
-- The optimizer keeps the meaning of every expression, block and program.
use mathlib.Core.Path.{ap₂}
use serv_lang.Prelude.{◌≡◌, refl, ap, ◌∙◌, ◌∷◌, if◌then◌else◌}
use serv_lang.Optimizer.Ast.{
  Expr, infix_expr, prefix_expr, call, array, map_literal, struct_literal, member, index,
  slice_expr, await, error_prop, fn_literal, assert_expr, Exprs, no_exprs, cons_expr, Pairs,
  no_pairs, cons_pair, Spreads, no_spreads, cons_spread, Block, nil_block, block, Stmts, no_stmts,
  cons_stmt, Stmt, block_stmt, let_stmt, expr_stmt, return_stmt, if_stmt, for_stmt, fn_decl,
  route_stmt, tool_stmt, migration_stmt, every_stmt, cron_stmt, subscribe_stmt, publish_stmt,
  spawn_stmt, mock_stmt, test_stmt, try_stmt,
}
use serv_lang.Optimizer.Fold.{Floats}
use serv_lang.Optimizer.Pass.{
  optimize_expression, optimize_exprs, optimize_pairs, optimize_spreads, optimize_block,
  optimize_stmts, optimize_statement,
}
use serv_lang.Optimizer.Exact.{
  ExactExpr, ExactExprs, ExactPairs, ExactSpreads, ExactBlock, ExactStmts, ExactStmt,
}
use serv_lang.Optimizer.Sound.{eval-make_infix, eval-make_prefix}
use serv_lang.Optimizer.Branch.{exec_option, exec_stmts-keep, exec-choose_branch}
use serv_lang.Optimizer.Machine.{
  finished, returned, ◌>>=◌, after, seq, Machine, truth, apply_prefix, infix_of, eval, eval_exprs,
  eval_pairs, eval_spreads, exec_block, exec_stmts, exec,
}

module _ (fl : Floats) (m : Machine fl) where
  open fl use {F}
  open m use {S}

  mutual
    unfolding optimize_expression eval exec_option ExactExpr

    keeps : (e : Expr F) → ExactExpr fl m e → eval fl m (optimize_expression fl e) ≡ eval fl m e
    keeps (infix_expr tok l op r) (hl, hr, here) =
        eval-make_infix fl m tok (optimize_expression fl l) (optimize_expression fl r) op here
        ∙ ap₂ (infix_of fl m op) (keeps l hl) (keeps r hr)
    keeps (prefix_expr tok op r) (hr, here) =
        eval-make_prefix fl m tok op (optimize_expression fl r) here
        ∙ ap (λ p. p >>= apply_prefix fl m op) (keeps r hr)
    keeps (call _ f xs) (hf, hxs) = ap₂ m.call_of (keeps f hf) (keeps_exprs xs hxs)
    keeps (array _ xs) h = ap m.array_of (keeps_exprs xs h)
    keeps (map_literal _ ps ss) (hps, hss) =
        ap₂ m.map_of (keeps_pairs ps hps) (keeps_spreads ss hss)
    keeps (struct_literal _ n ps) h = ap (m.struct_of n) (keeps_pairs ps h)
    keeps (member _ o name) h = ap (λ p. m.member_of p name) (keeps o h)
    keeps (index _ l i) (hl, hi) = ap₂ m.index_of (keeps l hl) (keeps i hi)
    keeps (slice_expr _ l s e) (hl, hs, he) =
        λ i. m.slice_of (keeps l hl i) (keeps s hs i) (keeps e he i)
    keeps (await _ v) h = ap m.await_of (keeps v h)
    keeps (error_prop _ v) h = ap m.error_prop_of (keeps v h)
    keeps (fn_literal _ ps arrow body) (ha, hb) =
        ap₂ (m.fn_of ps) (keeps arrow ha) (keeps_block body hb)
    keeps (assert_expr _ c) h = ap m.assert_of (keeps c h)
    keeps e h = refl

    keeps_exprs :
        (es : Exprs F)
        → ExactExprs fl m es
        → eval_exprs fl m (optimize_exprs fl es) ≡ eval_exprs fl m es
    keeps_exprs no_exprs h = refl
    keeps_exprs (cons_expr e es) (he, hes) = λ i. keeps e he i ∷ keeps_exprs es hes i

    keeps_pairs :
        (ps : Pairs F)
        → ExactPairs fl m ps
        → eval_pairs fl m (optimize_pairs fl ps) ≡ eval_pairs fl m ps
    keeps_pairs no_pairs h = refl
    keeps_pairs (cons_pair k v ps) (hv, hps) = λ i. (k, keeps v hv i) ∷ keeps_pairs ps hps i

    keeps_spreads :
        (ss : Spreads F)
        → ExactSpreads fl m ss
        → eval_spreads fl m (optimize_spreads fl ss) ≡ eval_spreads fl m ss
    keeps_spreads no_spreads h = refl
    keeps_spreads (cons_spread n v ss) (hv, hss) = λ i. (n, keeps v hv i) ∷ keeps_spreads ss hss i

    keeps_block :
        (b : Block F)
        → ExactBlock fl m b
        → exec_block fl m (optimize_block fl b) ≡ exec_block fl m b
    keeps_block nil_block h = refl
    keeps_block (block tok ss) h = keeps_stmts ss h

    keeps_stmts :
        (ss : Stmts F)
        → ExactStmts fl m ss
        → exec_stmts fl m (optimize_stmts fl ss) ≡ exec_stmts fl m ss
    keeps_stmts no_stmts h = refl
    keeps_stmts (cons_stmt s ss) (hs, hss) =
        exec_stmts-keep fl m (optimize_statement fl s) (optimize_stmts fl ss)
        ∙ ap₂ seq (keeps_stmt s hs) (keeps_stmts ss hss)

    keeps_stmt :
        (s : Stmt F) → ExactStmt fl m s → exec_option fl m (optimize_statement fl s) ≡ exec fl m s
    keeps_stmt (block_stmt tok ss) h = keeps_stmts ss h
    keeps_stmt (let_stmt _ ns v) h = ap (λ p. after p (m.bind_names ns)) (keeps v h)
    keeps_stmt (expr_stmt _ v) h = ap (λ p. after p (λ _. finished)) (keeps v h)
    keeps_stmt (return_stmt _ v) h = ap (λ p. after p returned) (keeps v h)
    keeps_stmt (if_stmt tok c b e) (hc, hb, he) =
        exec-choose_branch fl m tok (optimize_expression fl c) (optimize_block fl b)
          (optimize_block fl e)
        ∙ λ i.
            after (keeps c hc i)
              (λ v. if truth fl m v then keeps_block b hb i else keeps_block e he i)
    keeps_stmt (for_stmt _ x k i b) (hi, hb) = ap₂ (m.for_of x k) (keeps i hi) (keeps_block b hb)
    keeps_stmt (fn_decl _ n ps b) h = ap (m.fn_decl_of n ps) (keeps_block b h)
    keeps_stmt (route_stmt _ mt p b) h = ap (m.route_of mt p) (keeps_block b h)
    keeps_stmt (tool_stmt _ n b) h = ap (m.tool_of n) (keeps_block b h)
    keeps_stmt (migration_stmt _ n b) h = ap (m.migration_of n) (keeps_block b h)
    keeps_stmt (every_stmt _ i b) (hi, hb) = ap₂ m.every_of (keeps i hi) (keeps_block b hb)
    keeps_stmt (cron_stmt _ c b) (hc, hb) = ap₂ m.cron_of (keeps c hc) (keeps_block b hb)
    keeps_stmt (subscribe_stmt _ t p b) (ht, hb) =
        ap₂ (λ q. m.subscribe_of q p) (keeps t ht) (keeps_block b hb)
    keeps_stmt (publish_stmt _ t v) (ht, hv) = ap₂ m.publish_of (keeps t ht) (keeps v hv)
    keeps_stmt (spawn_stmt _ c l) (hc, hl) = ap₂ m.spawn_of (keeps c hc) (keeps l hl)
    keeps_stmt (mock_stmt _ t b) (ht, hb) = ap₂ m.mock_of (keeps t ht) (keeps_block b hb)
    keeps_stmt (test_stmt _ n b) h = ap (m.test_of n) (keeps_block b h)
    keeps_stmt (try_stmt _ t p c) (ht, hc) =
        ap₂ (λ q. m.try_of q p) (keeps_block t ht) (keeps_block c hc)
    keeps_stmt s h = refl

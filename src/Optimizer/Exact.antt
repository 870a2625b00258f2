-- ===== src/Optimizer/Exact.antt =====
-- Where the optimizer, which computes on `int64` and `float64`, computes what Go's exact arithmetic of
-- constants gives: no integer overflows, no float is rounded.
use serv_lang.Prelude.{◌≡◌, some}
use serv_lang.Prelude.Int.{ℤ, pos, ◌+ℤ◌, ◌-ℤ◌, ◌*ℤ◌}
use serv_lang.GoInt.{IsInt64}
use serv_lang.Lexer.Token.{Token}
use serv_lang.Optimizer.Ast.{
  Operator, plus, minus, times, divide, PrefixOperator, negate, Expr, integer, float, infix_expr,
  prefix_expr, call, array, map_literal, struct_literal, member, index, slice_expr, await,
  error_prop, fn_literal, assert_expr, Exprs, no_exprs, cons_expr, Pairs, no_pairs, cons_pair,
  Spreads, no_spreads, cons_spread, Block, nil_block, block, Stmts, no_stmts, cons_stmt, Stmt,
  block_stmt, let_stmt, expr_stmt, return_stmt, if_stmt, for_stmt, fn_decl, route_stmt, tool_stmt,
  migration_stmt, every_stmt, cron_stmt, subscribe_stmt, publish_stmt, spawn_stmt, mock_stmt,
  test_stmt, try_stmt,
}
use serv_lang.Optimizer.Fold.{Floats, fold_floats}
use serv_lang.Optimizer.Pass.{optimize_expression}
use serv_lang.Optimizer.Machine.{int, num, ret, exact_quo, Machine, V, eval}

-- The exact result of an operator on two integers is an `int64`.
unfoldable pub Fits : Operator → ℤ → ℤ → Type 0
Fits plus a b = IsInt64 (a +ℤ b)
Fits minus a b = IsInt64 (a -ℤ b)
Fits times a b = IsInt64 (a *ℤ b)
Fits divide a b = IsInt64 (exact_quo a b)
Fits op a b = Unit

module _ (fl : Floats) (m : Machine fl) where
  open fl use {F, of_int, neg}

  -- What is folded of an operator on two floats, `x` and `y`, is what it makes of the constants `v` and
  -- `w` that they stand for.
  abbrev pub Unrounded : Operator → V fl m → V fl m → F → F → Type 0
  Unrounded op v w x y =
      (e : Expr F) (tok : Token)
      → fold_floats fl x y op tok ≡ some e
      → eval fl m e ≡ m.infix_rest op v w

  -- An operator on two literals.
  unfoldable pub FoldsExact : Expr F → Expr F → Operator → Type 0
  FoldsExact (integer _ a) (integer _ b) op = Fits op a b
  FoldsExact (integer _ a) (float _ y) op = Unrounded op (int a) (num y) (of_int a) y
  FoldsExact (float _ x) (float _ y) op = Unrounded op (num x) (num y) x y
  FoldsExact (float _ x) (integer _ b) op = Unrounded op (num x) (int b) x (of_int b)
  FoldsExact l r op = Unit

  unfoldable pub NegatesExact : PrefixOperator → Expr F → Type 0
  NegatesExact negate (integer _ a) = IsInt64 (pos 0 -ℤ a)
  NegatesExact negate (float _ x) = ret (num (neg x)) ≡ m.prefix_rest negate (num x)
  NegatesExact op r = Unit

  -- So it is at every operator of a tree, on the operands that the optimizer has made.
  unfoldable mutual
    pub ExactExpr : Expr F → Type 0
    ExactExpr (infix_expr _ l op r) =
        ExactExpr l
        × ExactExpr r
        × FoldsExact (optimize_expression fl l) (optimize_expression fl r) op
    ExactExpr (prefix_expr _ op r) = ExactExpr r × NegatesExact op (optimize_expression fl r)
    ExactExpr (call _ f xs) = ExactExpr f × ExactExprs xs
    ExactExpr (array _ xs) = ExactExprs xs
    ExactExpr (map_literal _ ps ss) = ExactPairs ps × ExactSpreads ss
    ExactExpr (struct_literal _ n ps) = ExactPairs ps
    ExactExpr (member _ o name) = ExactExpr o
    ExactExpr (index _ l i) = ExactExpr l × ExactExpr i
    ExactExpr (slice_expr _ l s e) = ExactExpr l × ExactExpr s × ExactExpr e
    ExactExpr (await _ v) = ExactExpr v
    ExactExpr (error_prop _ v) = ExactExpr v
    ExactExpr (fn_literal _ ps arrow body) = ExactExpr arrow × ExactBlock body
    ExactExpr (assert_expr _ c) = ExactExpr c
    ExactExpr e = Unit

    pub ExactExprs : Exprs F → Type 0
    ExactExprs no_exprs = Unit
    ExactExprs (cons_expr e es) = ExactExpr e × ExactExprs es

    pub ExactPairs : Pairs F → Type 0
    ExactPairs no_pairs = Unit
    ExactPairs (cons_pair k v ps) = ExactExpr v × ExactPairs ps

    pub ExactSpreads : Spreads F → Type 0
    ExactSpreads no_spreads = Unit
    ExactSpreads (cons_spread n v ss) = ExactExpr v × ExactSpreads ss

    pub ExactBlock : Block F → Type 0
    ExactBlock nil_block = Unit
    ExactBlock (block _ ss) = ExactStmts ss

    pub ExactStmts : Stmts F → Type 0
    ExactStmts no_stmts = Unit
    ExactStmts (cons_stmt s ss) = ExactStmt s × ExactStmts ss

    pub ExactStmt : Stmt F → Type 0
    ExactStmt (block_stmt _ ss) = ExactStmts ss
    ExactStmt (let_stmt _ ns v) = ExactExpr v
    ExactStmt (expr_stmt _ v) = ExactExpr v
    ExactStmt (return_stmt _ v) = ExactExpr v
    ExactStmt (if_stmt _ c b e) = ExactExpr c × ExactBlock b × ExactBlock e
    ExactStmt (for_stmt _ x k i b) = ExactExpr i × ExactBlock b
    ExactStmt (fn_decl _ n ps b) = ExactBlock b
    ExactStmt (route_stmt _ mt p b) = ExactBlock b
    ExactStmt (tool_stmt _ n b) = ExactBlock b
    ExactStmt (migration_stmt _ n b) = ExactBlock b
    ExactStmt (every_stmt _ i b) = ExactExpr i × ExactBlock b
    ExactStmt (cron_stmt _ c b) = ExactExpr c × ExactBlock b
    ExactStmt (subscribe_stmt _ t p b) = ExactExpr t × ExactBlock b
    ExactStmt (publish_stmt _ t v) = ExactExpr t × ExactExpr v
    ExactStmt (spawn_stmt _ c l) = ExactExpr c × ExactExpr l
    ExactStmt (mock_stmt _ t b) = ExactExpr t × ExactBlock b
    ExactStmt (test_stmt _ n b) = ExactBlock b
    ExactStmt (try_stmt _ t p c) = ExactBlock t × ExactBlock c
    ExactStmt s = Unit

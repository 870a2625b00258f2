-- ===== src/Optimizer/Pass.antt =====
-- `optimizeExpression`, `optimizeStatement` and `Optimize` of compiler/optimizer.go. The pass
-- writes into the tree that it reads; nothing else holds those nodes, so the model returns the new
-- tree.
use serv_lang.Prelude.{Bool, true, false, not, Option, none, some, if◌then◌else◌}
use serv_lang.GoInt.{neg64}
use serv_lang.Lexer.Token.{Token}
use serv_lang.Optimizer.Ast.{
  Operator, PrefixOperator, negate, complement, Expr, integer, float, boolean, infix_expr,
  prefix_expr, call, array, map_literal, struct_literal, member, index, slice_expr, await,
  error_prop, fn_literal, assert_expr, Exprs, no_exprs, cons_expr, Pairs, no_pairs, cons_pair,
  Spreads, no_spreads, cons_spread, Block, nil_block, block, Stmts, no_stmts, cons_stmt, Stmt,
  block_stmt, let_stmt, expr_stmt, return_stmt, if_stmt, for_stmt, fn_decl, route_stmt, tool_stmt,
  migration_stmt, every_stmt, cron_stmt, subscribe_stmt, publish_stmt, spawn_stmt, mock_stmt,
  test_stmt, try_stmt, break_stmt, continue_stmt,
}
use serv_lang.Optimizer.Fold.{Floats, int_result, bool_result, float_result, fold_infix}

-- `isTerminator`
unfoldable pub is_terminator : {F : Type 0} → Stmt F → Bool
is_terminator (return_stmt _ _) = true
is_terminator (break_stmt _) = true
is_terminator (continue_stmt _) = true
is_terminator _ = false

-- What stands for a block statement: nil where there is no block.
unfoldable pub as_stmt : {F : Type 0} → Block F → Option (Stmt F)
as_stmt nil_block = none
as_stmt (block tok ss) = some (block_stmt tok ss)

-- A statement in front of the statements that are kept behind it.
unfoldable pub keep : {F : Type 0} → Option (Stmt F) → Stmts F → Stmts F
unfolding is_terminator
keep none rest = rest
keep (some s) rest = cons_stmt s (if is_terminator s then no_stmts else rest)

-- `if`: a literal condition chooses its branch, which takes the statement's place.
unfoldable pub choose_branch : {F : Type 0} → Token → Expr F → Block F → Block F → Option (Stmt F)
unfolding as_stmt
choose_branch tok (boolean _ true) body else_body = as_stmt body
choose_branch tok (boolean _ false) body else_body = as_stmt else_body
choose_branch tok cond body else_body = some (if_stmt tok cond body else_body)

-- A statement of the program, unless it was optimized away.
unfoldable pub push_stmt : {F : Type 0} → Option (Stmt F) → Stmts F → Stmts F
push_stmt none rest = rest
push_stmt (some s) rest = cons_stmt s rest

-- The first expression, if there is one.
unfoldable pub folded_or : {F : Type 0} → Option (Expr F) → Expr F → Expr F
folded_or none e = e
folded_or (some folded) e = folded

module _ (fl : Floats) where
  open fl use {F, neg}

  -- The folded literal, or the operands as they are.
  unfoldable pub make_infix : Token → Expr F → Operator → Expr F → Expr F
  unfolding fold_infix folded_or
  make_infix tok l op r = folded_or (fold_infix fl l r op tok) (infix_expr tok l op r)

  unfoldable pub make_prefix : Token → PrefixOperator → Expr F → Expr F
  unfolding int_result float_result bool_result
  make_prefix tok negate (integer _ v) = int_result tok (neg64 v)
  make_prefix tok negate (float _ v) = float_result fl tok (neg v)
  make_prefix tok complement (boolean _ v) = bool_result tok (not v)
  make_prefix tok op r = prefix_expr tok op r

  unfoldable mutual
    unfolding make_infix make_prefix choose_branch keep

    pub optimize_expression : Expr F → Expr F
    optimize_expression (infix_expr tok l op r) =
        make_infix tok (optimize_expression l) op (optimize_expression r)
    optimize_expression (prefix_expr tok op r) = make_prefix tok op (optimize_expression r)
    optimize_expression (call tok f xs) = call tok (optimize_expression f) (optimize_exprs xs)
    optimize_expression (array tok xs) = array tok (optimize_exprs xs)
    optimize_expression (map_literal tok ps ss) =
        map_literal tok (optimize_pairs ps) (optimize_spreads ss)
    optimize_expression (struct_literal tok n ps) = struct_literal tok n (optimize_pairs ps)
    optimize_expression (member tok o name) = member tok (optimize_expression o) name
    optimize_expression (index tok l i) = index tok (optimize_expression l) (optimize_expression i)
    optimize_expression (slice_expr tok l s e) =
        slice_expr tok (optimize_expression l) (optimize_expression s) (optimize_expression e)
    optimize_expression (await tok v) = await tok (optimize_expression v)
    optimize_expression (error_prop tok v) = error_prop tok (optimize_expression v)
    optimize_expression (fn_literal tok ps arrow body) =
        fn_literal tok ps (optimize_expression arrow) (optimize_block body)
    optimize_expression (assert_expr tok c) = assert_expr tok (optimize_expression c)
    optimize_expression e = e

    pub optimize_exprs : Exprs F → Exprs F
    optimize_exprs no_exprs = no_exprs
    optimize_exprs (cons_expr e es) = cons_expr (optimize_expression e) (optimize_exprs es)

    pub optimize_pairs : Pairs F → Pairs F
    optimize_pairs no_pairs = no_pairs
    optimize_pairs (cons_pair k v ps) = cons_pair k (optimize_expression v) (optimize_pairs ps)

    pub optimize_spreads : Spreads F → Spreads F
    optimize_spreads no_spreads = no_spreads
    optimize_spreads (cons_spread n v ss) =
        cons_spread n (optimize_expression v) (optimize_spreads ss)

    -- `if s.Body != nil { s.Body = optimizeStatement(s.Body).(*BlockStmt) }`
    pub optimize_block : Block F → Block F
    optimize_block nil_block = nil_block
    optimize_block (block tok ss) = block tok (optimize_stmts ss)

    -- The loop of `case *BlockStmt`.
    pub optimize_stmts : Stmts F → Stmts F
    optimize_stmts no_stmts = no_stmts
    optimize_stmts (cons_stmt s ss) = keep (optimize_statement s) (optimize_stmts ss)

    pub optimize_statement : Stmt F → Option (Stmt F)
    optimize_statement (block_stmt tok ss) = some (block_stmt tok (optimize_stmts ss))
    optimize_statement (let_stmt tok ns v) = some (let_stmt tok ns (optimize_expression v))
    optimize_statement (expr_stmt tok v) = some (expr_stmt tok (optimize_expression v))
    optimize_statement (return_stmt tok v) = some (return_stmt tok (optimize_expression v))
    optimize_statement (if_stmt tok c b e) =
        choose_branch tok (optimize_expression c) (optimize_block b) (optimize_block e)
    optimize_statement (for_stmt tok x k i b) =
        some (for_stmt tok x k (optimize_expression i) (optimize_block b))
    optimize_statement (fn_decl tok n ps b) = some (fn_decl tok n ps (optimize_block b))
    optimize_statement (route_stmt tok mt p b) = some (route_stmt tok mt p (optimize_block b))
    optimize_statement (tool_stmt tok n b) = some (tool_stmt tok n (optimize_block b))
    optimize_statement (migration_stmt tok n b) = some (migration_stmt tok n (optimize_block b))
    optimize_statement (every_stmt tok i b) =
        some (every_stmt tok (optimize_expression i) (optimize_block b))
    optimize_statement (cron_stmt tok c b) =
        some (cron_stmt tok (optimize_expression c) (optimize_block b))
    optimize_statement (subscribe_stmt tok t p b) =
        some (subscribe_stmt tok (optimize_expression t) p (optimize_block b))
    optimize_statement (publish_stmt tok t v) =
        some (publish_stmt tok (optimize_expression t) (optimize_expression v))
    optimize_statement (spawn_stmt tok c l) =
        some (spawn_stmt tok (optimize_expression c) (optimize_expression l))
    optimize_statement (mock_stmt tok t b) =
        some (mock_stmt tok (optimize_expression t) (optimize_block b))
    optimize_statement (test_stmt tok n b) = some (test_stmt tok n (optimize_block b))
    optimize_statement (try_stmt tok t p c) =
        some (try_stmt tok (optimize_block t) p (optimize_block c))
    optimize_statement s = some s

  -- `Optimize`, over the statements of a program: no statement is dropped behind a terminator here.
  unfoldable pub optimize : Stmts F → Stmts F
  unfolding optimize_statement push_stmt
  optimize no_stmts = no_stmts
  optimize (cons_stmt s ss) = push_stmt (optimize_statement s) (optimize ss)

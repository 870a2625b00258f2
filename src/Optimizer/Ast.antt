-- ===== src/Optimizer/Ast.antt =====
-- The nodes of compiler/ast.go that compiler/optimizer.go takes apart, over a type of floats.
--
-- A nil interface is `nil_expr`, a nil `*BlockStmt` is `nil_block`. Fields that the pass neither
-- reads nor writes are left out, and so are the nodes that it returns as they are: `other` and
-- `other_stmt` stand for those.
use serv_lang.Prelude.{ℕ, Bool, List, Bytes}
use serv_lang.Prelude.Int.{ℤ}
use serv_lang.Lexer.Token.{Token}

-- `InfixExpr.Operator`, a string.
pub data Operator : Type 0 where
  plus minus times divide modulo : Operator
  equals not_equals less greater at_most at_least : Operator
  both either : Operator
  other_operator : Bytes → Operator

-- `PrefixExpr.Operator`
pub data PrefixOperator : Type 0 where
  negate complement : PrefixOperator
  other_prefix : Bytes → PrefixOperator

mutual
  pub data Expr (F : Type 0) : Type 0 where
    nil_expr : Expr F
    integer : Token → ℤ → Expr F
    float : Token → F → Expr F
    text : Token → Bytes → Expr F
    boolean : Token → Bool → Expr F
    identifier : Token → Bytes → Expr F
    infix_expr : Token → Expr F → Operator → Expr F → Expr F
    prefix_expr : Token → PrefixOperator → Expr F → Expr F
    call : Token → Expr F → Exprs F → Expr F
    array : Token → Exprs F → Expr F
    map_literal : Token → Pairs F → Spreads F → Expr F
    struct_literal : Token → Bytes → Pairs F → Expr F
    member : Token → Expr F → Bytes → Expr F
    index : Token → Expr F → Expr F → Expr F
    slice_expr : Token → Expr F → Expr F → Expr F → Expr F
    await : Token → Expr F → Expr F
    error_prop : Token → Expr F → Expr F
    fn_literal : Token → List Bytes → Expr F → Block F → Expr F
    assert_expr : Token → Expr F → Expr F
    other : Token → Expr F

  pub data Exprs (F : Type 0) : Type 0 where
    no_exprs : Exprs F
    cons_expr : Expr F → Exprs F → Exprs F

  -- `map[string]Expression`, in key order.
  pub data Pairs (F : Type 0) : Type 0 where
    no_pairs : Pairs F
    cons_pair : Bytes → Expr F → Pairs F → Pairs F

  -- `SpreadEntry`s: a position and a value.
  pub data Spreads (F : Type 0) : Type 0 where
    no_spreads : Spreads F
    cons_spread : ℕ → Expr F → Spreads F → Spreads F

  pub data Block (F : Type 0) : Type 0 where
    nil_block : Block F
    block : Token → Stmts F → Block F

  pub data Stmts (F : Type 0) : Type 0 where
    no_stmts : Stmts F
    cons_stmt : Stmt F → Stmts F → Stmts F

  pub data Stmt (F : Type 0) : Type 0 where
    block_stmt : Token → Stmts F → Stmt F
    let_stmt : Token → List Bytes → Expr F → Stmt F
    expr_stmt : Token → Expr F → Stmt F
    return_stmt : Token → Expr F → Stmt F
    if_stmt : Token → Expr F → Block F → Block F → Stmt F
    for_stmt : Token → Bytes → Bytes → Expr F → Block F → Stmt F
    fn_decl : Token → Bytes → List Bytes → Block F → Stmt F
    route_stmt : Token → Bytes → Bytes → Block F → Stmt F
    tool_stmt : Token → Bytes → Block F → Stmt F
    migration_stmt : Token → Bytes → Block F → Stmt F
    every_stmt : Token → Expr F → Block F → Stmt F
    cron_stmt : Token → Expr F → Block F → Stmt F
    subscribe_stmt : Token → Expr F → Bytes → Block F → Stmt F
    publish_stmt : Token → Expr F → Expr F → Stmt F
    spawn_stmt : Token → Expr F → Expr F → Stmt F
    mock_stmt : Token → Expr F → Block F → Stmt F
    test_stmt : Token → Bytes → Block F → Stmt F
    try_stmt : Token → Block F → Bytes → Block F → Stmt F
    break_stmt continue_stmt : Token → Stmt F
    other_stmt : Token → Stmt F

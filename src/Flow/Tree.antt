-- ===== src/Flow/Tree.antt =====
-- The statements that compiler/analyze_flow.go tells apart, of compiler/ast.go.
use serv_lang.Prelude.{ℕ, Bool}

-- The token of a statement, as far as `stmtToken` serves here: its line and column, both 0 for a
-- statement that it does not know.
pub record Place : Type 0 where
  pub line : ℕ
  pub col : ℕ

mutual
  -- `*BlockStmt`, which may be nil.
  pub data Block : Type 0 where
    nil_block : Block
    block : Stmts → Block

  pub data Stmts : Type 0 where
    no_stmts : Stmts
    cons_stmt : Stmt → Stmts → Stmts

  pub data Stmt : Type 0 where
    return_stmt break_stmt continue_stmt : Place → Stmt
    if_stmt : Place → Block → Block → Stmt
    for_stmt : Place → Block → Stmt
    try_stmt : Place → Block → Block → Stmt
    match_stmt : Place → Cases → Stmt
    other_stmt : Place → Stmt

  -- `MatchCase`s; the flag says that the value is nil, which is the default.
  pub data Cases : Type 0 where
    no_cases : Cases
    cons_case : Bool → Block → Cases → Cases

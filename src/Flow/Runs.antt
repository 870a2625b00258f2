-- ===== src/Flow/Runs.antt =====
-- How the statements of a block may run: which of them end it, and how. Conditions, loop lengths and
-- match values are open, and so is every statement that compiler/analyze_flow.go does not tell apart.
use serv_lang.Prelude.{Bool, false, ◌≡◌, ◌≢◌}
use serv_lang.Flow.Tree.{
  Place, Block, nil_block, block, Stmts, no_stmts, cons_stmt, Stmt, return_stmt, break_stmt,
  continue_stmt, if_stmt, for_stmt, try_stmt, match_stmt, other_stmt, Cases, cons_case,
}
use serv_lang.Flow.Analysis.{has_default}

pub data Ending : Type 0 where
  falls_through returns breaks continues panics : Ending

-- How a loop ends whose body ends so: the loop takes `break` and `continue` for itself.
unfoldable pub out_of_loop : Ending → Ending
out_of_loop returns = returns
out_of_loop panics = panics
out_of_loop _ = falls_through

-- How a match ends one of whose cases ends so. It is generated as a `switch` of Go, which takes `break`
-- for itself, but not `continue`.
unfoldable pub out_of_switch : Ending → Ending
out_of_switch breaks = falls_through
out_of_switch e = e

mutual
  pub data BlockEnds : Block → Ending → Type 0 where
    nil_ends : BlockEnds nil_block falls_through
    block_ends : (ss : Stmts) (e : Ending) → StmtsEnd ss e → BlockEnds (block ss) e

  pub data StmtsEnd : Stmts → Ending → Type 0 where
    at_end : StmtsEnd no_stmts falls_through
    goes_on :
        (s : Stmt) (ss : Stmts) (e : Ending)
        → StmtEnds s falls_through
        → StmtsEnd ss e
        → StmtsEnd (cons_stmt s ss) e
    stops :
        (s : Stmt) (ss : Stmts) (e : Ending)
        → StmtEnds s e
        → e ≢ falls_through
        → StmtsEnd (cons_stmt s ss) e

  pub data StmtEnds : Stmt → Ending → Type 0 where
    return_ends : (p : Place) → StmtEnds (return_stmt p) returns
    return_panics : (p : Place) → StmtEnds (return_stmt p) panics
    break_ends : (p : Place) → StmtEnds (break_stmt p) breaks
    continue_ends : (p : Place) → StmtEnds (continue_stmt p) continues
    condition_panics : (p : Place) (b c : Block) → StmtEnds (if_stmt p b c) panics
    then_ends : (p : Place) (b c : Block) (e : Ending) → BlockEnds b e → StmtEnds (if_stmt p b c) e
    else_ends : (p : Place) (b c : Block) (e : Ending) → BlockEnds c e → StmtEnds (if_stmt p b c) e
    no_round : (p : Place) (b : Block) → StmtEnds (for_stmt p b) falls_through
    last_round :
        (p : Place) (b : Block) (e f : Ending)
        → BlockEnds b e
        → f ≡ out_of_loop e
        → StmtEnds (for_stmt p b) f
    try_ends :
        (p : Place) (b c : Block) (e : Ending)
        → BlockEnds b e
        → e ≢ panics
        → StmtEnds (try_stmt p b c) e
    catch_ends :
        (p : Place) (b c : Block) (e : Ending)
        → BlockEnds b panics
        → BlockEnds c e
        → StmtEnds (try_stmt p b c) e
    case_ends :
        (p : Place) (cases : Cases) (e f : Ending)
        → CaseEnds cases e
        → f ≡ out_of_switch e
        → StmtEnds (match_stmt p cases) f
    match_panics : (p : Place) (cases : Cases) → StmtEnds (match_stmt p cases) panics
    no_case :
        (p : Place) (cases : Cases)
        → has_default cases ≡ false
        → StmtEnds (match_stmt p cases) falls_through
    other_ends : (p : Place) (e : Ending) → StmtEnds (other_stmt p) e

  -- One of the cases runs.
  pub data CaseEnds : Cases → Ending → Type 0 where
    this_case :
        (d : Bool) (b : Block) (rest : Cases) (e : Ending)
        → BlockEnds b e
        → CaseEnds (cons_case d b rest) e
    later_case :
        (d : Bool) (b : Block) (rest : Cases) (e : Ending)
        → CaseEnds rest e
        → CaseEnds (cons_case d b rest) e

-- ===== src/Flow/Analysis.antt =====
-- `blockHasReturn` and `analyzeUnreachableCode` of compiler/analyze_flow.go.
use serv_lang.Prelude.{Bool, true, false, ◌&&◌, ◌||◌, List, [], ◌∷◌, ◌++◌, ltb, if◌then◌else◌}
use serv_lang.Flow.Tree.{
  Place, Block, nil_block, block, Stmts, no_stmts, cons_stmt, Stmt, return_stmt, break_stmt,
  continue_stmt, if_stmt, for_stmt, try_stmt, match_stmt, other_stmt, Cases, no_cases, cons_case,
}

-- `s.(*ReturnStmt)`
unfoldable pub is_return : Stmt → Bool
is_return (return_stmt _) = true
is_return _ = false

-- The loop over all statements of a block.
unfoldable pub any_return : Stmts → Bool
unfolding is_return
any_return no_stmts = false
any_return (cons_stmt s ss) = is_return s || any_return ss

unfoldable pub has_default : Cases → Bool
has_default no_cases = false
has_default (cons_case is_default body rest) = is_default || has_default rest

unfoldable mutual
  unfolding any_return has_default

  pub block_has_return : Block → Bool
  block_has_return nil_block = false
  block_has_return (block ss) = stmts_have_return ss ss

  -- The last of the statements decides; `all` are the statements of the block.
  pub stmts_have_return : Stmts → Stmts → Bool
  stmts_have_return all no_stmts = false
  stmts_have_return all (cons_stmt s no_stmts) = last_returns all s
  stmts_have_return all (cons_stmt s (cons_stmt t ss)) = stmts_have_return all (cons_stmt t ss)

  pub last_returns : Stmts → Stmt → Bool
  last_returns all (return_stmt _) = true
  last_returns all (if_stmt _ body nil_block) = false
  last_returns all (if_stmt _ body (block ss)) = block_has_return body && stmts_have_return ss ss
  last_returns all (match_stmt _ cases) = cases_return cases && has_default cases
  last_returns all s = any_return all

  -- Whether the bodies of all cases return.
  pub cases_return : Cases → Bool
  cases_return no_cases = true
  cases_return (cons_case is_default body rest) = block_has_return body && cases_return rest

-- `terminated = true`
unfoldable pub is_terminator : Stmt → Bool
is_terminator (return_stmt _) = true
is_terminator (break_stmt _) = true
is_terminator (continue_stmt _) = true
is_terminator _ = false

unfoldable pub place_of : Stmt → Place
place_of (return_stmt p) = p
place_of (break_stmt p) = p
place_of (continue_stmt p) = p
place_of (if_stmt p _ _) = p
place_of (for_stmt p _) = p
place_of (try_stmt p _ _) = p
place_of (match_stmt p _) = p
place_of (other_stmt p) = p

-- The warning on the first statement behind a terminator, at its place.
unfoldable pub unreachable : Stmts → List Place
unfolding place_of
unreachable no_stmts = []
unreachable (cons_stmt s ss) = if ltb 0 (place_of s).line then place_of s ∷ [] else []

-- The diagnostics all have one severity and message: they are their places.
unfoldable mutual
  unfolding is_terminator unreachable

  pub analyze_unreachable_code : Block → List Place
  analyze_unreachable_code nil_block = []
  analyze_unreachable_code (block ss) = analyze_stmts ss

  pub analyze_stmts : Stmts → List Place
  analyze_stmts no_stmts = []
  analyze_stmts (cons_stmt s ss) =
      let rest = analyze_stmts ss in
      analyze_nested s ++ (if is_terminator s then unreachable ss else rest)

  pub analyze_nested : Stmt → List Place
  analyze_nested (if_stmt _ body else_body) =
      analyze_unreachable_code body ++ analyze_unreachable_code else_body
  analyze_nested (for_stmt _ body) = analyze_unreachable_code body
  analyze_nested (try_stmt _ body handler) =
      analyze_unreachable_code body ++ analyze_unreachable_code handler
  analyze_nested (match_stmt _ cases) = analyze_cases cases
  analyze_nested s = []

  pub analyze_cases : Cases → List Place
  analyze_cases no_cases = []
  analyze_cases (cons_case is_default body rest) =
      analyze_unreachable_code body ++ analyze_cases rest

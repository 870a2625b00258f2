-- ===== src/Flow/CutRuns.antt =====
-- What is cut off as dead code never runs.
use serv_lang.Prelude.{
  ◌≡◌, ◌≢◌, ◌↔◌, refl, sym, ap, true, ◌||◌, if◌then◌else◌, arith, subst, Bool-cases, inl, inr, ◌∙◌,
}
use serv_lang.Flow.Tree.{
  Block, nil_block, block, Stmts, no_stmts, cons_stmt, Stmt, return_stmt, break_stmt, continue_stmt,
  if_stmt, for_stmt, try_stmt, match_stmt, other_stmt, Cases, no_cases, cons_case,
}
use serv_lang.Flow.Analysis.{has_default}
use serv_lang.Flow.Runs.{
  Ending, falls_through, panics, BlockEnds, nil_ends, block_ends, StmtsEnd, at_end, goes_on, stops,
  StmtEnds, return_ends, return_panics, break_ends, continue_ends, condition_panics, then_ends,
  else_ends, no_round, last_round, try_ends, catch_ends, case_ends, match_panics, no_case, CaseEnds,
  this_case, later_case,
}
use serv_lang.Flow.DeadCode.{leaves, cut, cut_stmts, cut_stmt, cut_cases}

leaves_stays : (s : Stmt) (e : Ending) → leaves s ≡ true → StmtEnds s e → e ≢ falls_through
unfolding leaves
leaves_stays (return_stmt _) _ h (return_ends _) f = ground arith
leaves_stays (return_stmt _) _ h (return_panics _) f = ground arith
leaves_stays (break_stmt _) _ h (break_ends _) f = ground arith
leaves_stays (continue_stmt _) _ h (continue_ends _) f = ground arith
leaves_stays (if_stmt _ _ _) e h g f = ground arith
leaves_stays (for_stmt _ _) e h g f = ground arith
leaves_stays (try_stmt _ _ _) e h g f = ground arith
leaves_stays (match_stmt _ _) e h g f = ground arith
leaves_stays (other_stmt _) e h g f = ground arith

has_default-cut_cases : (cases : Cases) → has_default (cut_cases cases) ≡ has_default cases
unfolding cut has_default
has_default-cut_cases no_cases = refl
has_default-cut_cases (cons_case d b rest) = ap (λ x. d || x) (has_default-cut_cases rest)

-- Behind a statement that falls through, what is kept is the rest.
kept_rest :
    (s : Stmt) (rest : Stmts)
    → StmtEnds s falls_through
    → (if leaves s then no_stmts else rest) ≡ rest
kept_rest s rest h = elim (Bool-cases (leaves s)) [
  | inl ends ↦ elim (leaves_stays s falls_through ends h refl) [ ]
  | inr on ↦ rw on refl
]

mutual
  unfolding cut

  runs_cut : (b : Block) (e : Ending) → BlockEnds b e → BlockEnds (cut b) e
  runs_cut nil_block _ nil_ends = nil_ends
  runs_cut (block ss) _ (block_ends _ e g) = block_ends (cut_stmts ss) e (runs_cut_stmts ss e g)

  runs_cut_stmts : (ss : Stmts) (e : Ending) → StmtsEnd ss e → StmtsEnd (cut_stmts ss) e
  runs_cut_stmts no_stmts _ at_end = at_end
  runs_cut_stmts (cons_stmt s ss) _ (goes_on _ _ e hs g) =
      subst (λ rest. StmtsEnd (cons_stmt (cut_stmt s) rest) e) (sym (kept_rest s (cut_stmts ss) hs))
        (goes_on (cut_stmt s) (cut_stmts ss) e (runs_cut_stmt s falls_through hs)
          (runs_cut_stmts ss e g))
  runs_cut_stmts (cons_stmt s ss) _ (stops _ _ e hs ne) =
      stops (cut_stmt s) _ e (runs_cut_stmt s e hs) ne

  runs_cut_stmt : (s : Stmt) (e : Ending) → StmtEnds s e → StmtEnds (cut_stmt s) e
  runs_cut_stmt (return_stmt p) e h = h
  runs_cut_stmt (break_stmt p) e h = h
  runs_cut_stmt (continue_stmt p) e h = h
  runs_cut_stmt (other_stmt p) e h = h
  runs_cut_stmt (if_stmt p b c) _ (condition_panics _ _ _) = condition_panics p (cut b) (cut c)
  runs_cut_stmt (if_stmt p b c) _ (then_ends _ _ _ e h) =
      then_ends p (cut b) (cut c) e (runs_cut b e h)
  runs_cut_stmt (if_stmt p b c) _ (else_ends _ _ _ e h) =
      else_ends p (cut b) (cut c) e (runs_cut c e h)
  runs_cut_stmt (for_stmt p b) _ (no_round _ _) = no_round p (cut b)
  runs_cut_stmt (for_stmt p b) _ (last_round _ _ e f h same) =
      last_round p (cut b) e f (runs_cut b e h) same
  runs_cut_stmt (try_stmt p b c) _ (try_ends _ _ _ e h ne) =
      try_ends p (cut b) (cut c) e (runs_cut b e h) ne
  runs_cut_stmt (try_stmt p b c) _ (catch_ends _ _ _ e h g) =
      catch_ends p (cut b) (cut c) e (runs_cut b panics h) (runs_cut c e g)
  runs_cut_stmt (match_stmt p cases) _ (case_ends _ _ e f h same) =
      case_ends p (cut_cases cases) e f (runs_cut_case cases e h) same
  runs_cut_stmt (match_stmt p cases) _ (match_panics _ _) = match_panics p (cut_cases cases)
  runs_cut_stmt (match_stmt p cases) _ (no_case _ _ none_there) =
      no_case p (cut_cases cases) (has_default-cut_cases cases ∙ none_there)

  runs_cut_case : (cases : Cases) (e : Ending) → CaseEnds cases e → CaseEnds (cut_cases cases) e
  runs_cut_case no_cases e h = elim h [ ]
  runs_cut_case (cons_case d b rest) _ (this_case _ _ _ e h) =
      this_case d (cut b) (cut_cases rest) e (runs_cut b e h)
  runs_cut_case (cons_case d b rest) _ (later_case _ _ _ e h) =
      later_case d (cut b) (cut_cases rest) e (runs_cut_case rest e h)

mutual
  unfolding cut

  runs_back : (b : Block) (e : Ending) → BlockEnds (cut b) e → BlockEnds b e
  runs_back nil_block e h = h
  runs_back (block ss) _ (block_ends _ e g) = block_ends ss e (runs_back_stmts ss e g)

  runs_back_stmts : (ss : Stmts) (e : Ending) → StmtsEnd (cut_stmts ss) e → StmtsEnd ss e
  runs_back_stmts no_stmts e h = h
  runs_back_stmts (cons_stmt s ss) _ (goes_on _ _ e hs g) =
      let falls = runs_back_stmt s falls_through hs in
      let kept = kept_rest s (cut_stmts ss) falls in
      goes_on s ss e falls (runs_back_stmts ss e (subst (λ rest. StmtsEnd rest e) kept g))
  runs_back_stmts (cons_stmt s ss) _ (stops _ _ e hs ne) = stops s ss e (runs_back_stmt s e hs) ne

  runs_back_stmt : (s : Stmt) (e : Ending) → StmtEnds (cut_stmt s) e → StmtEnds s e
  runs_back_stmt (return_stmt p) e h = h
  runs_back_stmt (break_stmt p) e h = h
  runs_back_stmt (continue_stmt p) e h = h
  runs_back_stmt (other_stmt p) e h = h
  runs_back_stmt (if_stmt p b c) _ (condition_panics _ _ _) = condition_panics p b c
  runs_back_stmt (if_stmt p b c) _ (then_ends _ _ _ e h) = then_ends p b c e (runs_back b e h)
  runs_back_stmt (if_stmt p b c) _ (else_ends _ _ _ e h) = else_ends p b c e (runs_back c e h)
  runs_back_stmt (for_stmt p b) _ (no_round _ _) = no_round p b
  runs_back_stmt (for_stmt p b) _ (last_round _ _ e f h same) =
      last_round p b e f (runs_back b e h) same
  runs_back_stmt (try_stmt p b c) _ (try_ends _ _ _ e h ne) = try_ends p b c e (runs_back b e h) ne
  runs_back_stmt (try_stmt p b c) _ (catch_ends _ _ _ e h g) =
      catch_ends p b c e (runs_back b panics h) (runs_back c e g)
  runs_back_stmt (match_stmt p cases) _ (case_ends _ _ e f h same) =
      case_ends p cases e f (runs_back_case cases e h) same
  runs_back_stmt (match_stmt p cases) _ (match_panics _ _) = match_panics p cases
  runs_back_stmt (match_stmt p cases) _ (no_case _ _ none_there) =
      no_case p cases (sym (has_default-cut_cases cases) ∙ none_there)

  runs_back_case : (cases : Cases) (e : Ending) → CaseEnds (cut_cases cases) e → CaseEnds cases e
  runs_back_case no_cases e h = h
  runs_back_case (cons_case d b rest) _ (this_case _ _ _ e h) =
      this_case d b rest e (runs_back b e h)
  runs_back_case (cons_case d b rest) _ (later_case _ _ _ e h) =
      later_case d b rest e (runs_back_case rest e h)

-- A block ends in the same ways with its dead code cut off.
pub BlockEnds-cut : (b : Block) (e : Ending) → BlockEnds b e ↔ BlockEnds (cut b) e
BlockEnds-cut b e = (runs_cut b e, runs_back b e)

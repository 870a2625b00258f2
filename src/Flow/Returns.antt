-- ===== src/Flow/Returns.antt =====
-- `blockHasReturn` against the ways in which a block may run.
use serv_lang.Prelude.{
  ◌≡◌, ◌≢◌, refl, sym, ◌∙◌, Bool, true, false, ◌&&◌, ◌||◌, arith, subst, Bool-cases, inl, inr,
}
use serv_lang.Flow.Tree.{
  Place, Block, nil_block, block, Stmts, no_stmts, cons_stmt, Stmt, return_stmt, break_stmt,
  continue_stmt, if_stmt, for_stmt, try_stmt, match_stmt, other_stmt, Cases, no_cases, cons_case,
}
use serv_lang.Flow.Analysis.{
  is_return, any_return, has_default, block_has_return, stmts_have_return, last_returns,
  cases_return,
}
use serv_lang.Flow.Runs.{
  Ending, falls_through, returns, breaks, continues, panics, out_of_switch, at_end, BlockEnds,
  block_ends, StmtsEnd, goes_on, stops, StmtEnds, return_ends, return_panics, condition_panics,
  then_ends, else_ends, case_ends, match_panics, no_case, CaseEnds, this_case, later_case,
}

-- A match whose only case is a default of two statements.
abbrev pub match_default : Place → Stmt → Stmt → Block
match_default p s t = block (
    cons_stmt (match_stmt p (cons_case true (block (cons_stmt s (cons_stmt t no_stmts))) no_cases))
      no_stmts)

both_true : (a b : Bool) → a && b ≡ true → (a ≡ true) × (b ≡ true)
both_true a b h = ground arith

-- A statement that is a return does not fall through.
is_return_stays : (s : Stmt) (e : Ending) → is_return s ≡ true → StmtEnds s e → e ≢ falls_through
unfolding is_return
is_return_stays (return_stmt _) _ h (return_ends _) f = ground arith
is_return_stays (return_stmt _) _ h (return_panics _) f = ground arith
is_return_stays (break_stmt _) e h g f = ground arith
is_return_stays (continue_stmt _) e h g f = ground arith
is_return_stays (if_stmt _ _ _) e h g f = ground arith
is_return_stays (for_stmt _ _) e h g f = ground arith
is_return_stays (try_stmt _ _ _) e h g f = ground arith
is_return_stays (match_stmt _ _) e h g f = ground arith
is_return_stays (other_stmt _) e h g f = ground arith

any_return_stays :
    (ss : Stmts) (e : Ending) → any_return ss ≡ true → StmtsEnd ss e → e ≢ falls_through
unfolding any_return
any_return_stays no_stmts e h g f = ground arith
any_return_stays (cons_stmt s ss) e h (goes_on _ _ _ hs rest) f = elim (Bool-cases (is_return s)) [
  | inl yes_it_is ↦ is_return_stays s falls_through yes_it_is hs refl
  | inr not_it ↦ any_return_stays ss e (subst (λ b. b || any_return ss ≡ true) not_it h) rest f
]
any_return_stays (cons_stmt s ss) e h (stops _ _ _ hs ne) f = ne f

-- No run of a case of a match ends in a break, which would leave the match: in the last statements of a
-- block and, where these hold blocks, of those.
unfoldable mutual
  pub Unbroken : Block → Type 0
  Unbroken nil_block = Unit
  Unbroken (block ss) = UnbrokenStmts ss

  pub UnbrokenStmts : Stmts → Type 0
  UnbrokenStmts no_stmts = Unit
  UnbrokenStmts (cons_stmt s ss) = UnbrokenStmt s × UnbrokenStmts ss

  pub UnbrokenStmt : Stmt → Type 0
  UnbrokenStmt (if_stmt _ b c) = Unbroken b × Unbroken c
  UnbrokenStmt (match_stmt _ cases) = UnbrokenCases cases
  UnbrokenStmt s = Unit

  pub UnbrokenCases : Cases → Type 0
  UnbrokenCases no_cases = Unit
  UnbrokenCases (cons_case _ b rest) = ¬ BlockEnds b breaks × Unbroken b × UnbrokenCases rest

-- A case that neither falls through nor breaks does not let its match fall through.
out_of_switch_stays :
    (e : Ending) → e ≢ falls_through → e ≢ breaks → out_of_switch e ≢ falls_through
unfolding out_of_switch
out_of_switch_stays falls_through no_fall no_break f = no_fall refl
out_of_switch_stays returns no_fall no_break f = ground arith
out_of_switch_stays breaks no_fall no_break f = no_break refl
out_of_switch_stays continues no_fall no_break f = ground arith
out_of_switch_stays panics no_fall no_break f = ground arith

mutual
  unfolding block_has_return Unbroken

  stays :
      (b : Block) (e : Ending)
      → Unbroken b
      → block_has_return b ≡ true
      → BlockEnds b e
      → e ≢ falls_through
  stays nil_block e u h g f = ground arith
  stays (block ss) _ u h (block_ends _ e g) f =
      stays_stmts ss ss e u h (λ some_return. any_return_stays ss e some_return g f) g f

  -- The statements from one on, in a block all of whose statements would contradict a return.
  stays_stmts :
      (all ss : Stmts) (e : Ending)
      → UnbrokenStmts ss
      → stmts_have_return all ss ≡ true
      → any_return all ≢ true
      → StmtsEnd ss e
      → e ≢ falls_through
  stays_stmts all no_stmts e u h none_in g f = ground arith
  stays_stmts all (cons_stmt s ss) e u h none_in (stops _ _ _ hs ne) f = ne f
  stays_stmts all (cons_stmt s no_stmts) e (u, _) h none_in (goes_on _ _ _ hs rest) f =
      stays_last all s falls_through u h none_in hs refl
  stays_stmts all (cons_stmt s (cons_stmt t ss)) e (_, u) h none_in (goes_on _ _ _ hs rest) f =
      stays_stmts all (cons_stmt t ss) e u h none_in rest f

  stays_last :
      (all : Stmts) (s : Stmt) (e : Ending)
      → UnbrokenStmt s
      → last_returns all s ≡ true
      → any_return all ≢ true
      → StmtEnds s e
      → e ≢ falls_through
  stays_last all (return_stmt p) e u h none_in g f = is_return_stays (return_stmt p) e refl g f
  stays_last all (if_stmt _ body nil_block) e u h none_in g f = ground arith
  stays_last all (if_stmt _ body (block ss)) _ u h none_in (condition_panics _ _ _) f = ground arith
  stays_last all (if_stmt _ body (block ss)) _ (u, _) h none_in (then_ends _ _ _ e g) f =
      stays body e u (both_true _ _ h).0 g f
  stays_last all (if_stmt _ body (block ss)) _ (_, u) h none_in (else_ends _ _ _ e g) f =
      stays (block ss) e u (both_true (block_has_return body) _ h).1 g f
  stays_last all (match_stmt _ cases) _ u h none_in (case_ends _ _ e _ g same) f =
      let (no_fall, no_break) = stays_case cases e u (both_true _ _ h).0 g in
      out_of_switch_stays e no_fall no_break (sym same ∙ f)
  stays_last all (match_stmt _ cases) _ u h none_in (match_panics _ _) f = ground arith
  stays_last all (match_stmt _ cases) _ u h none_in (no_case _ _ missing) f =
      let default = (both_true (cases_return cases) (has_default cases) h).1 in ground arith
  stays_last all (break_stmt _) e u h none_in g f = none_in h
  stays_last all (continue_stmt _) e u h none_in g f = none_in h
  stays_last all (for_stmt _ _) e u h none_in g f = none_in h
  stays_last all (try_stmt _ _ _) e u h none_in g f = none_in h
  stays_last all (other_stmt _) e u h none_in g f = none_in h

  stays_case :
      (cases : Cases) (e : Ending)
      → UnbrokenCases cases
      → cases_return cases ≡ true
      → CaseEnds cases e
      → (e ≢ falls_through) × (e ≢ breaks)
  stays_case no_cases e u h g = elim g [ ]
  stays_case (cons_case _ body rest) _ (no_break, u, _) h (this_case _ _ _ e g) =
      (stays body e u (both_true _ _ h).0 g, λ same. no_break (subst (BlockEnds body) same g))
  stays_case (cons_case _ body rest) _ (_, _, u) h (later_case _ _ _ e g) =
      stays_case rest e u (both_true (block_has_return body) _ h).1 g

-- A match whose only case is a default that may break and then returns is said to return on all paths,
-- and yet falls through in a run.
pub block_has_return-breaks :
    (p q r : Place) (body : Block)
    → BlockEnds body breaks
    → (block_has_return (match_default p (if_stmt q body nil_block) (return_stmt r)) ≡ true)
      × BlockEnds (match_default p (if_stmt q body nil_block) (return_stmt r)) falls_through
unfolding block_has_return has_default out_of_switch
block_has_return-breaks p q r body g =
    let branch = then_ends q body nil_block breaks g in
    let case_breaks =
      block_ends _ breaks (stops (if_stmt q body nil_block) _ breaks branch (ground arith)) in
    (
      refl,
      block_ends _ falls_through (
          goes_on _ no_stmts falls_through
            (case_ends p _ breaks falls_through (this_case true _ no_cases breaks case_breaks) refl)
            at_end),
    )

-- A block of a return and a final conditional without else is said not to return on all paths,
-- whatever the conditional holds, and yet no run of it falls through its end.
pub block_has_return_early :
    (p q : Place) (body : Block) (e : Ending)
    → BlockEnds
        (block (cons_stmt (return_stmt p) (cons_stmt (if_stmt q body nil_block) no_stmts)))
        e
    → (block_has_return
          (block (cons_stmt (return_stmt p) (cons_stmt (if_stmt q body nil_block) no_stmts)))
        ≡ false)
      × (e ≢ falls_through)
unfolding block_has_return any_return is_return
block_has_return_early p q body _ (block_ends ss e g) = (refl, any_return_stays ss e refl g)

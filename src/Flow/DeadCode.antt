-- ===== src/Flow/DeadCode.antt =====
-- `analyzeUnreachableCode` against a function that cuts dead code off.
use serv_lang.Prelude.{
  ◌≡◌, ◌<◌, refl, ap, sym, Bool, true, false, List, [], ◌∷◌, ◌++◌, if◌then◌else◌, arith, subst,
  Bool-cases, inl, inr,
}
use serv_lang.Flow.Tree.{
  Place, Block, nil_block, block, Stmts, no_stmts, cons_stmt, Stmt, return_stmt, break_stmt,
  continue_stmt, if_stmt, for_stmt, try_stmt, match_stmt, other_stmt, Cases, no_cases, cons_case,
}
use serv_lang.Flow.Analysis.{
  is_terminator, place_of, unreachable, analyze_unreachable_code, analyze_stmts, analyze_nested,
  analyze_cases,
}

-- Nothing behind a return, break or continue in a block runs.
unfoldable pub leaves : Stmt → Bool
leaves (return_stmt _) = true
leaves (break_stmt _) = true
leaves (continue_stmt _) = true
leaves (if_stmt _ _ _) = false
leaves (for_stmt _ _) = false
leaves (try_stmt _ _ _) = false
leaves (match_stmt _ _) = false
leaves (other_stmt _) = false

-- What the analysis takes for a terminator is just that.
pub is_terminator_lem : (s : Stmt) → is_terminator s ≡ leaves s
unfolding is_terminator leaves
is_terminator_lem (return_stmt _) = refl
is_terminator_lem (break_stmt _) = refl
is_terminator_lem (continue_stmt _) = refl
is_terminator_lem (if_stmt _ _ _) = refl
is_terminator_lem (for_stmt _ _) = refl
is_terminator_lem (try_stmt _ _ _) = refl
is_terminator_lem (match_stmt _ _) = refl
is_terminator_lem (other_stmt _) = refl

-- The block without what stands behind a statement that leaves it, inside the blocks that the analysis enters.
unfoldable mutual
  unfolding leaves

  pub cut : Block → Block
  cut nil_block = nil_block
  cut (block ss) = block (cut_stmts ss)

  pub cut_stmts : Stmts → Stmts
  cut_stmts no_stmts = no_stmts
  cut_stmts (cons_stmt s ss) =
      let rest = cut_stmts ss in cons_stmt (cut_stmt s) (if leaves s then no_stmts else rest)

  pub cut_stmt : Stmt → Stmt
  cut_stmt (if_stmt p b c) = if_stmt p (cut b) (cut c)
  cut_stmt (for_stmt p b) = for_stmt p (cut b)
  cut_stmt (try_stmt p b c) = try_stmt p (cut b) (cut c)
  cut_stmt (match_stmt p cases) = match_stmt p (cut_cases cases)
  cut_stmt s = s

  pub cut_cases : Cases → Cases
  cut_cases no_cases = no_cases
  cut_cases (cons_case d b rest) = cons_case d (cut b) (cut_cases rest)

both_empty {ℓ} : {A : Type ℓ} (xs ys : List A) → xs ++ ys ≡ [] → (xs ≡ []) × (ys ≡ [])
both_empty [] ys h = (refl, h)
both_empty (x ∷ xs) ys h = ground arith

is_terminator-cut_stmt : (s : Stmt) → is_terminator (cut_stmt s) ≡ is_terminator s
unfolding cut is_terminator
is_terminator-cut_stmt (return_stmt _) = refl
is_terminator-cut_stmt (break_stmt _) = refl
is_terminator-cut_stmt (continue_stmt _) = refl
is_terminator-cut_stmt (if_stmt _ _ _) = refl
is_terminator-cut_stmt (for_stmt _ _) = refl
is_terminator-cut_stmt (try_stmt _ _ _) = refl
is_terminator-cut_stmt (match_stmt _ _) = refl
is_terminator-cut_stmt (other_stmt _) = refl

mutual
  unfolding cut analyze_unreachable_code unreachable

  clean : (b : Block) → analyze_unreachable_code (cut b) ≡ []
  clean nil_block = refl
  clean (block ss) = clean_stmts ss

  clean_stmts : (ss : Stmts) → analyze_stmts (cut_stmts ss) ≡ []
  clean_stmts no_stmts = refl
  clean_stmts (cons_stmt s ss) = elim (Bool-cases (leaves s)) [
    | inl ends ↦ rw (clean_stmt s, is_terminator-cut_stmt s, is_terminator_lem s, ends) refl
    | inr goes_on ↦
        rw (clean_stmt s, is_terminator-cut_stmt s, is_terminator_lem s, goes_on) (clean_stmts ss)
  ]

  clean_stmt : (s : Stmt) → analyze_nested (cut_stmt s) ≡ []
  clean_stmt (return_stmt _) = refl
  clean_stmt (break_stmt _) = refl
  clean_stmt (continue_stmt _) = refl
  clean_stmt (if_stmt _ b c) = rw (clean b, clean c) refl
  clean_stmt (for_stmt _ b) = clean b
  clean_stmt (try_stmt _ b c) = rw (clean b, clean c) refl
  clean_stmt (match_stmt _ cases) = clean_cases cases
  clean_stmt (other_stmt _) = refl

  clean_cases : (cases : Cases) → analyze_cases (cut_cases cases) ≡ []
  clean_cases no_cases = refl
  clean_cases (cons_case d b rest) = rw (clean b, clean_cases rest) refl

-- Every statement stands on a line, as all do that a parser has made of a text.
unfoldable mutual
  pub Placed : Block → Type 0
  Placed nil_block = Unit
  Placed (block ss) = PlacedStmts ss

  pub PlacedStmts : Stmts → Type 0
  PlacedStmts no_stmts = Unit
  PlacedStmts (cons_stmt s ss) = (0 < (place_of s).line) × PlacedStmt s × PlacedStmts ss

  pub PlacedStmt : Stmt → Type 0
  PlacedStmt (if_stmt _ b c) = Placed b × Placed c
  PlacedStmt (for_stmt _ b) = Placed b
  PlacedStmt (try_stmt _ b c) = Placed b × Placed c
  PlacedStmt (match_stmt _ cases) = PlacedCases cases
  PlacedStmt s = Unit

  pub PlacedCases : Cases → Type 0
  PlacedCases no_cases = Unit
  PlacedCases (cons_case d b rest) = Placed b × PlacedCases rest

unreachable_none : (ss : Stmts) → PlacedStmts ss → unreachable ss ≡ [] → ss ≡ no_stmts
unfolding unreachable Placed
unreachable_none no_stmts h e = refl
unreachable_none (cons_stmt s ss) (h, _, _) e = ground arith

-- What the analysis says of the statements behind one, and what cutting makes of them.
rest_kept :
    (ends : Bool) (ss rest : Stmts) (found : List Place)
    → PlacedStmts ss
    → (if ends then unreachable ss else found) ≡ []
    → (found ≡ [] → rest ≡ ss)
    → (if ends then no_stmts else rest) ≡ ss
rest_kept true ss rest found h e k = sym (unreachable_none ss h e)
rest_kept false ss rest found h e k = k e

mutual
  unfolding cut analyze_unreachable_code Placed

  silent : (b : Block) → Placed b → analyze_unreachable_code b ≡ [] → cut b ≡ b
  silent nil_block h e = refl
  silent (block ss) h e = ap block (silent_stmts ss h e)

  silent_stmts : (ss : Stmts) → PlacedStmts ss → analyze_stmts ss ≡ [] → cut_stmts ss ≡ ss
  silent_stmts no_stmts h e = refl
  silent_stmts (cons_stmt s ss) (_, hs, hss) e =
      let (nested, rest) = both_empty (analyze_nested s) _ e in
      let behind =
        subst (λ b. (if b then unreachable ss else analyze_stmts ss) ≡ []) (is_terminator_lem s)
          rest in
      let kept = rest_kept (leaves s) ss (cut_stmts ss) _ hss behind (silent_stmts ss hss) in
      λ i. cons_stmt (silent_stmt s hs nested i) (kept i)

  silent_stmt : (s : Stmt) → PlacedStmt s → analyze_nested s ≡ [] → cut_stmt s ≡ s
  silent_stmt (return_stmt _) h e = refl
  silent_stmt (break_stmt _) h e = refl
  silent_stmt (continue_stmt _) h e = refl
  silent_stmt (if_stmt p b c) (hb, hc) e =
      let (eb, ec) = both_empty (analyze_unreachable_code b) _ e in
      λ i. if_stmt p (silent b hb eb i) (silent c hc ec i)
  silent_stmt (for_stmt p b) h e = ap (for_stmt p) (silent b h e)
  silent_stmt (try_stmt p b c) (hb, hc) e =
      let (eb, ec) = both_empty (analyze_unreachable_code b) _ e in
      λ i. try_stmt p (silent b hb eb i) (silent c hc ec i)
  silent_stmt (match_stmt p cases) h e = ap (match_stmt p) (silent_cases cases h e)
  silent_stmt (other_stmt _) h e = refl

  silent_cases :
      (cases : Cases) → PlacedCases cases → analyze_cases cases ≡ [] → cut_cases cases ≡ cases
  silent_cases no_cases h e = refl
  silent_cases (cons_case d b rest) (hb, hr) e =
      let (eb, er) = both_empty (analyze_unreachable_code b) _ e in
      λ i. cons_case d (silent b hb eb i) (silent_cases rest hr er i)

-- ===== src/Flow/Tests.antt =====
-- The analyses of control flow on concrete blocks.
use serv_lang.Prelude.{ℕ, ◌≡◌, ◌≢◌, refl, true, false, [], ◌∷◌, arith}
use serv_lang.Flow.Tree.{
  Place, Block, nil_block, block, no_stmts, cons_stmt, break_stmt, return_stmt, if_stmt, match_stmt,
  other_stmt, no_cases, cons_case,
}
use serv_lang.Flow.Analysis.{
  block_has_return, is_terminator, place_of, unreachable, analyze_unreachable_code,
}
use serv_lang.Flow.Runs.{
  falls_through, returns, breaks, break_ends, BlockEnds, block_ends, stops, return_ends,
}
use serv_lang.Flow.Returns.{match_default, block_has_return-breaks, block_has_return_early}

abbrev at_line : ℕ → Place
at_line n = record { line = n; col = 1 }

abbrev just_return : Block
just_return = block (cons_stmt (return_stmt (at_line 3)) no_stmts)

-- A statement and a match with a default, both of whose cases return.
abbrev matching : Block
matching = block (
    cons_stmt (other_stmt (at_line 1)) (
      cons_stmt
        (match_stmt (at_line 2) (cons_case false just_return (cons_case true just_return no_cases)))
        no_stmts))

abbrev just_break : Block
just_break = block (cons_stmt (break_stmt (at_line 5)) no_stmts)

abbrev broken : Block
broken =
    match_default (at_line 2) (if_stmt (at_line 4) just_break nil_block) (return_stmt (at_line 6))

block_has_return-breaks_example : (block_has_return broken ≡ true) × BlockEnds broken falls_through
block_has_return-breaks_example =
    block_has_return-breaks (at_line 2) (at_line 4) (at_line 6) just_break (
      block_ends _ breaks
        (stops (break_stmt (at_line 5)) no_stmts breaks (break_ends (at_line 5)) (ground arith)))

-- A return, and behind it a conditional without else.
abbrev early : Block
early = block (
    cons_stmt (return_stmt (at_line 1))
      (cons_stmt (if_stmt (at_line 2) just_return nil_block) no_stmts))

early_runs : BlockEnds early returns
early_runs =
    block_ends _ returns
      (stops (return_stmt (at_line 1)) _ returns (return_ends (at_line 1)) (ground arith))

block_has_return_early_example : (block_has_return early ≡ false) × (returns ≢ falls_through)
block_has_return_early_example =
    block_has_return_early (at_line 1) (at_line 2) just_return returns early_runs

early_reported : analyze_unreachable_code early ≡ at_line 2 ∷ []
unfolding analyze_unreachable_code unreachable is_terminator place_of
early_reported = refl

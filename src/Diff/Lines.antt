-- ===== src/Diff/Lines.antt =====
-- The two texts that the lines of a difference stand for.
use serv_lang.Prelude.{ℕ, suc, ◌+◌, ◌≡◌, refl, List, [], ◌∷◌, Bytes, arith}
use serv_lang.Grid.Rows.{onto}
use serv_lang.Diff.Text.{DiffLine, both, added, removed}

-- The lines of the old text, those of the new, and how many are in both.
unfoldable pub old_lines : List DiffLine → List Bytes
old_lines [] = []
old_lines (both s ∷ ds) = s ∷ old_lines ds
old_lines (added s ∷ ds) = old_lines ds
old_lines (removed s ∷ ds) = s ∷ old_lines ds

unfoldable pub new_lines : List DiffLine → List Bytes
new_lines [] = []
new_lines (both s ∷ ds) = s ∷ new_lines ds
new_lines (added s ∷ ds) = s ∷ new_lines ds
new_lines (removed s ∷ ds) = new_lines ds

unfoldable pub kept : List DiffLine → ℕ
kept [] = 0
kept (both s ∷ ds) = suc (kept ds)
kept (_ ∷ ds) = kept ds

pub old_lines-onto :
    (ds es : List DiffLine) → old_lines (onto ds es) ≡ onto (old_lines ds) (old_lines es)
unfolding old_lines
old_lines-onto [] es = refl
old_lines-onto (both s ∷ ds) es = old_lines-onto ds (both s ∷ es)
old_lines-onto (added s ∷ ds) es = old_lines-onto ds (added s ∷ es)
old_lines-onto (removed s ∷ ds) es = old_lines-onto ds (removed s ∷ es)

pub new_lines-onto :
    (ds es : List DiffLine) → new_lines (onto ds es) ≡ onto (new_lines ds) (new_lines es)
unfolding new_lines
new_lines-onto [] es = refl
new_lines-onto (both s ∷ ds) es = new_lines-onto ds (both s ∷ es)
new_lines-onto (added s ∷ ds) es = new_lines-onto ds (added s ∷ es)
new_lines-onto (removed s ∷ ds) es = new_lines-onto ds (removed s ∷ es)

pub kept-onto : (ds es : List DiffLine) → kept (onto ds es) ≡ kept ds + kept es
unfolding kept
kept-onto [] es = omega arith
kept-onto (both s ∷ ds) es = omega (kept-onto ds (both s ∷ es), arith)
kept-onto (added s ∷ ds) es = omega (kept-onto ds (added s ∷ es), arith)
kept-onto (removed s ∷ ds) es = omega (kept-onto ds (removed s ∷ es), arith)

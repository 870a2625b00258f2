-- ===== src/Grid.antt =====
-- Tables of dynamic programming, as compiler/errors.go and runtime/diff.go fill them: each row from
-- the row above it, from left to right.
pub mod Rows
use Prim.Native.Nat.{ℕ, zero, suc}
use serv_lang.Prelude.{◌≡◌, refl, ap, ◌∙◌, List, [], ◌∷◌, ◌++◌, length, Bool}

module _ {ℓ} {A : Type ℓ} (cell : A → A → ℕ → ℕ → ℕ → ℕ) where
  -- The row of `x`, whose first cell is `left`: a cell comes from those above, to the left and between.
  unfoldable pub fill_row : A → ℕ → List ℕ → List A → List ℕ
  fill_row x left (between ∷ above ∷ row) (y ∷ ys) =
      left ∷ fill_row x (cell x y above left between) (above ∷ row) ys
  fill_row x left _ _ = left ∷ []

  -- The rows of `xs` below a row, with the first cells that `edge` gives.
  unfoldable pub fill_rows : (ℕ → ℕ) → ℕ → List ℕ → List A → List A → List (List ℕ)
  unfolding fill_row
  fill_rows edge i row [] ys = row ∷ []
  fill_rows edge i row (x ∷ xs) ys =
      row ∷ fill_rows edge (suc i) (fill_row x (edge (suc i)) row ys) xs ys

  unfoldable pub last_row : (ℕ → ℕ) → ℕ → List ℕ → List A → List A → List ℕ
  unfolding fill_row
  last_row edge i row [] ys = row
  last_row edge i row (x ∷ xs) ys = last_row edge (suc i) (fill_row x (edge (suc i)) row ys) xs ys

  -- The recurrence itself, on prefixes from their last element to their first.
  unfoldable pub recurrence : (ℕ → ℕ) → List A → List A → ℕ
  recurrence edge [] ys = edge (length ys)
  recurrence edge (x ∷ xs) [] = edge (suc (length xs))
  recurrence edge (x ∷ xs) (y ∷ ys) =
      cell x y (recurrence edge xs (y ∷ ys)) (recurrence edge (x ∷ xs) ys) (recurrence edge xs ys)

-- ===== src/Diff/Common.antt =====
-- The table of runtime/diff.go holds the lengths of the longest common subsequences.
use serv_lang.Prelude.{ℕ, suc, ◌+◌, ◌≤◌, ◌≡◌, refl, subst, List, [], ◌∷◌, Bytes, equal_iff, arith}
use serv_lang.Grid.{recurrence}
use serv_lang.Grid.Rows.{onto}
use serv_lang.Diff.Text.{common_cell, always_zero}

-- `Common s t n`: a list of length `n` is part of both, in their order.
pub data Common : List Bytes → List Bytes → ℕ → Type 0 where
  empty : Common [] [] 0
  shared : (x : Bytes) {s t : List Bytes} {n : ℕ} → Common s t n → Common (x ∷ s) (x ∷ t) (suc n)
  skip_left : (x : Bytes) {s t : List Bytes} {n : ℕ} → Common s t n → Common (x ∷ s) t n
  skip_right : (y : Bytes) {s t : List Bytes} {n : ℕ} → Common s t n → Common s (y ∷ t) n

abbrev pub longest : List Bytes → List Bytes → ℕ
longest s t = recurrence common_cell always_zero s t

pub longest-nil : (s : List Bytes) → longest s [] ≡ 0
unfolding recurrence
longest-nil [] = refl
longest-nil (x ∷ s) = refl

-- One more line on a side adds at most one.
record Steps (s t : List Bytes) : Type 0 where
  left_more : (x : Bytes) → longest s t ≤ longest (x ∷ s) t
  left_one : (x : Bytes) → longest (x ∷ s) t ≤ suc (longest s t)
  right_more : (y : Bytes) → longest s t ≤ longest s (y ∷ t)
  right_one : (y : Bytes) → longest s (y ∷ t) ≤ suc (longest s t)

-- What a cell adds to the one above it, where the cells around it differ by one at most.
cell_above :
    (x y : Bytes) (above left between : ℕ)
    → above ≤ suc between
    → between ≤ above
    → left ≤ suc between
    → (above ≤ common_cell x y above left between)
      × (common_cell x y above left between ≤ suc above)
unfolding common_cell
cell_above x y above left between h k m = (ground arith, ground arith)

cell_left :
    (x y : Bytes) (above left between : ℕ)
    → left ≤ suc between
    → between ≤ left
    → above ≤ suc between
    → (left ≤ common_cell x y above left between) × (common_cell x y above left between ≤ suc left)
unfolding common_cell
cell_left x y above left between h k m = (ground arith, ground arith)

longest-Steps : (s t : List Bytes) → Steps s t
unfolding recurrence
longest-Steps [] [] = record {
  left_more = λ x. omega arith;
  left_one = λ x. omega arith;
  right_more = λ y. omega arith;
  right_one = λ y. omega arith;
}
longest-Steps [] (y ∷ t) =
    let below = longest-Steps [] t in
    let step = λ (x : Bytes).
      cell_above x y 0 (longest (x ∷ []) t) 0 (omega arith) (omega arith) (below.left_one x) in
    record {
      left_more = λ x. (step x).0;
      left_one = λ x. (step x).1;
      right_more = λ z. omega arith;
      right_one = λ z. omega arith;
    }
longest-Steps (x ∷ s) [] =
    let before = longest-Steps s [] in
    let none_there = longest-nil s in
    let step = λ (y : Bytes).
      cell_left x y (longest s (y ∷ [])) 0 (longest s []) (omega arith) (omega (none_there, arith))
        (before.right_one y) in
    record {
      left_more = λ z. omega arith;
      left_one = λ z. omega arith;
      right_more = λ y. (step y).0;
      right_one = λ y. (step y).1;
    }
longest-Steps (x ∷ s) (y ∷ t) =
    let below = longest-Steps (x ∷ s) t in
    let before = longest-Steps s (y ∷ t) in
    let up = λ (z : Bytes).
      cell_above z y (longest (x ∷ s) (y ∷ t)) (longest (z ∷ x ∷ s) t) (longest (x ∷ s) t)
        (below.right_one y) (below.right_more y) (below.left_one z) in
    let across = λ (z : Bytes).
      cell_left x z (longest s (z ∷ y ∷ t)) (longest (x ∷ s) (y ∷ t)) (longest s (y ∷ t))
        (before.left_one x) (before.left_more x) (before.right_one z) in
    record {
      left_more = λ z. (up z).0;
      left_one = λ z. (up z).1;
      right_more = λ z. (across z).0;
      right_one = λ z. (across z).1;
    }

longest-shared : (x : Bytes) (s t : List Bytes) → longest (x ∷ s) (x ∷ t) ≡ suc (longest s t)
unfolding recurrence common_cell
longest-shared x s t = rw ((equal_iff x x).1 refl) (omega arith)

-- No common subsequence is longer.
longest_most : {s t : List Bytes} {n : ℕ} → Common s t n → n ≤ longest s t
longest_most empty = omega arith
longest_most (shared x {s = s} {t = t} c) = omega (longest-shared x s t, longest_most c, arith)
longest_most (skip_left x {s = s} {t = t} c) =
    omega ((longest-Steps s t).left_more x, longest_most c, arith)
longest_most (skip_right y {s = s} {t = t} c) =
    omega ((longest-Steps s t).right_more y, longest_most c, arith)

onto-Common :
    {s t u v : List Bytes} {m n : ℕ}
    → Common s t m
    → Common u v n
    → Common (onto s u) (onto t v) (m + n)
onto-Common {u = u} {v = v} empty d = subst (λ k. Common u v k) (omega arith) d
onto-Common {u = u} {v = v} {n = n} (shared x {s = s} {t = t} {n = k} c) d =
    subst (λ size. Common (onto s (x ∷ u)) (onto t (x ∷ v)) size) (omega arith)
      (onto-Common c (shared x d))
onto-Common (skip_left x c) d = onto-Common c (skip_left x d)
onto-Common (skip_right y c) d = onto-Common c (skip_right y d)

-- The common subsequences of lists are as long as the recurrence on their reverses says, at most.
pub longest_reversed :
    {s t : List Bytes} {n : ℕ} → Common s t n → n ≤ longest (onto s []) (onto t [])
longest_reversed c = omega (longest_most (onto-Common c empty), arith)

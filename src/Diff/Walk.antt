-- ===== src/Diff/Walk.antt =====
-- What the loop of `DiffText` of runtime/diff.go collects.
use serv_lang.Prelude.{
  ℕ, zero, suc, ◌+◌, ◌-◌, ◌≤◌, ◌<◌, ◌≡◌, refl, sym, ap, ◌∙◌, true, false, List, [], ◌∷◌, Option,
  some, Bytes, equal, equal_iff, length, get_or, take, arith, ltb, leb, ◌==◌, Bool-cases, inl, inr,
}
use serv_lang.Grid.{recurrence, fill_rows}
use serv_lang.Grid.Rows.{onto, onto-take, values, fill_rows-cell}
use serv_lang.Diff.Text.{
  common_cell, always_zero, zeros, common_table, entry, DiffLine, both, added, removed, move,
  on_top, round, walk,
}
use serv_lang.Diff.Lines.{old_lines, new_lines, kept}
use serv_lang.Diff.Common.{longest, longest-nil}

positive : (n : ℕ) → ltb 0 (suc n) ≡ true
positive n = ground arith

not_zero : (n : ℕ) → (suc n == 0) ≡ false
not_zero n = ground arith

pred_suc : (n : ℕ) → suc n - 1 ≡ n
pred_suc n = omega arith

-- The cell of two different lines, by the larger of its neighbours.
common_cell-left :
    (x y : Bytes) (up across above left between : ℕ)
    → equal x y ≡ false
    → up ≡ above
    → across ≡ left
    → leb up across ≡ true
    → common_cell x y above left between ≡ left
unfolding common_cell
common_cell-left x y up across above left between other u v most = ground arith

common_cell-above :
    (x y : Bytes) (up across above left between : ℕ)
    → equal x y ≡ false
    → up ≡ above
    → across ≡ left
    → leb up across ≡ false
    → common_cell x y above left between ≡ above
unfolding common_cell
common_cell-above x y up across above left between other u v less = ground arith

module _ (a b : List Bytes) where
  -- The longest common subsequence of prefixes.
  abbrev longest_at : ℕ → ℕ → ℕ
  longest_at i j = longest (onto (take i a) []) (onto (take j b) [])

  -- A walk that begins behind `i` lines of the one and `j` of the other.
  pub record Walked (i j : ℕ) (r : Option (List DiffLine)) : Type 0 where
    pub lines : List DiffLine
    pub is : r ≡ some lines
    pub old : old_lines lines ≡ onto (take i a) []
    pub new : new_lines lines ≡ onto (take j b) []
    pub count : kept lines ≡ longest_at i j

  zeros-values :
      (rb ys : List Bytes)
      → zeros ys
        ≡ recurrence common_cell always_zero [] rb ∷ values common_cell always_zero [] rb ys
  unfolding zeros recurrence
  zeros-values rb [] = refl
  zeros-values rb (y ∷ ys) = ap (λ row. 0 ∷ row) (zeros-values (y ∷ rb) ys)

  entry-longest :
      (i j : ℕ) → i ≤ length a → j ≤ length b → entry (common_table a b) i j ≡ longest_at i j
  unfolding common_table
  entry-longest i j hi hj =
      ap (λ row. entry (fill_rows common_cell always_zero 0 row a b) i j) (zeros-values [] b)
      ∙ fill_rows-cell common_cell always_zero a b i j hi hj

  longest_at-both :
      (i j : ℕ)
      → i < length a
      → j < length b
      → longest_at (suc i) (suc j)
        ≡ common_cell
            (get_or a i [])
            (get_or b j [])
            (longest_at i (suc j))
            (longest_at (suc i) j)
            (longest_at i j)
  unfolding recurrence
  longest_at-both i j hi hj = rw (onto-take a [] i [] hi, onto-take b [] j [] hj) refl

  longest_at-no_old : (j : ℕ) → longest_at 0 j ≡ 0
  unfolding recurrence
  longest_at-no_old j = refl

  longest_at-no_new : (i : ℕ) → longest_at i 0 ≡ 0
  longest_at-no_new i = longest-nil (onto (take i a) [])

  keep-Walked :
      (i j : ℕ) (r : Option (List DiffLine))
      → i < length a
      → j < length b
      → equal (get_or a i []) (get_or b j []) ≡ true
      → Walked i j r
      → Walked (suc i) (suc j) (on_top (both (get_or a i [])) r)
  unfolding old_lines new_lines kept common_cell
  keep-Walked i j r hi hj same w =
      let same_line = (equal_iff (get_or a i []) (get_or b j [])).0 same in
      let longer : longest_at (suc i) (suc j) ≡ longest_at i j + 1 =
        longest_at-both i j hi hj ∙ (simp same) in
      record {
        lines = both (get_or a i []) ∷ w.lines;
        is = ap (on_top (both (get_or a i []))) w.is;
        old = ap (λ s. get_or a i [] ∷ s) w.old ∙ sym (onto-take a [] i [] hi);
        new =
            ap (λ s. s ∷ new_lines (w.lines)) same_line
            ∙ (ap (λ s. get_or b j [] ∷ s) w.new ∙ sym (onto-take b [] j [] hj));
        count = omega (w.count, longer, arith);
      }

  add-Walked :
      (i j : ℕ) (r : Option (List DiffLine))
      → j < length b
      → longest_at i (suc j) ≡ longest_at i j
      → Walked i j r
      → Walked i (suc j) (on_top (added (get_or b j [])) r)
  unfolding old_lines new_lines kept
  add-Walked i j r hj same w = record {
    lines = added (get_or b j []) ∷ w.lines;
    is = ap (on_top (added (get_or b j []))) w.is;
    old = w.old;
    new = ap (λ s. get_or b j [] ∷ s) w.new ∙ sym (onto-take b [] j [] hj);
    count = w.count ∙ sym same;
  }

  remove-Walked :
      (i j : ℕ) (r : Option (List DiffLine))
      → i < length a
      → longest_at (suc i) j ≡ longest_at i j
      → Walked i j r
      → Walked (suc i) j (on_top (removed (get_or a i [])) r)
  unfolding old_lines new_lines kept
  remove-Walked i j r hi same w = record {
    lines = removed (get_or a i []) ∷ w.lines;
    is = ap (on_top (removed (get_or a i []))) w.is;
    old = ap (λ s. get_or a i [] ∷ s) w.old ∙ sym (onto-take a [] i [] hi);
    new = w.new;
    count = w.count ∙ sym same;
  }

  module _ (dp : List (List ℕ)) (f : ℕ) where
    walk-end : walk a b dp (suc f) 0 0 ≡ some []
    unfolding walk
    walk-end = refl

    walk-keep :
        (i j : ℕ)
        → equal (get_or a i []) (get_or b j []) ≡ true
        → walk a b dp (suc f) (suc i) (suc j) ≡ on_top (both (get_or a i [])) (walk a b dp f i j)
    unfolding walk move round
    walk-keep i j same =
        simp (positive i, positive j, not_zero i, not_zero j, pred_suc i, pred_suc j, same)

    walk-all_new :
        (j : ℕ) → walk a b dp (suc f) 0 (suc j) ≡ on_top (added (get_or b j [])) (walk a b dp f 0 j)
    unfolding walk move round
    walk-all_new j = simp (positive j, pred_suc j)

    walk-all_old :
        (i : ℕ)
        → walk a b dp (suc f) (suc i) 0 ≡ on_top (removed (get_or a i [])) (walk a b dp f i 0)
    unfolding walk move round
    walk-all_old i = simp (positive i, pred_suc i)

    walk-add :
        (i j : ℕ)
        → equal (get_or a i []) (get_or b j []) ≡ false
        → leb (entry dp i (suc j)) (entry dp (suc i) j) ≡ true
        → walk a b dp (suc f) (suc i) (suc j)
          ≡ on_top (added (get_or b j [])) (walk a b dp f (suc i) j)
    unfolding walk move round
    walk-add i j other most =
        simp (positive i, positive j, not_zero i, not_zero j, pred_suc i, pred_suc j, other, most)

    walk-remove :
        (i j : ℕ)
        → equal (get_or a i []) (get_or b j []) ≡ false
        → leb (entry dp i (suc j)) (entry dp (suc i) j) ≡ false
        → walk a b dp (suc f) (suc i) (suc j)
          ≡ on_top (removed (get_or a i [])) (walk a b dp f i (suc j))
    unfolding walk move round
    walk-remove i j other less =
        let less' : ltb (entry dp (suc i) j) (entry dp i (suc j)) ≡ true = ground arith in
        simp (
          positive i,
          positive j,
          not_zero i,
          not_zero j,
          pred_suc i,
          pred_suc j,
          other,
          less,
          less',
        )

  pub walk-Walked :
      (f i j : ℕ)
      → i ≤ length a
      → j ≤ length b
      → i + j < f
      → Walked i j (walk a b (common_table a b) f i j)
  unfolding old_lines new_lines kept
  walk-Walked zero i j hi hj enough = absurd (omega arith)
  walk-Walked (suc f) zero zero hi hj enough = record {
    lines = [];
    is = walk-end (common_table a b) f;
    old = refl;
    new = refl;
    count = sym (longest_at-no_old 0);
  }
  walk-Walked (suc f) zero (suc j) hi hj enough = rw (walk-all_new (common_table a b) f j) (
      add-Walked 0 j _ (omega arith) (longest_at-no_old (suc j) ∙ sym (longest_at-no_old j))
        (walk-Walked f 0 j (omega arith) (omega arith) (omega arith)))
  walk-Walked (suc f) (suc i) zero hi hj enough = rw (walk-all_old (common_table a b) f i) (
      remove-Walked i 0 _ (omega arith) (longest_at-no_new (suc i) ∙ sym (longest_at-no_new i))
        (walk-Walked f i 0 (omega arith) (omega arith) (omega arith)))
  walk-Walked (suc f) (suc i) (suc j) hi hj enough =
      let dp = common_table a b in
      let above = entry-longest i (suc j) (omega arith) hj in
      let left = entry-longest (suc i) j hi (omega arith) in
      let cell = longest_at-both i j (omega arith) (omega arith) in
      elim (Bool-cases (equal (get_or a i []) (get_or b j []))) [
        | inl same ↦ rw (walk-keep dp f i j same) (
            keep-Walked i j _ (omega arith) (omega arith) same
              (walk-Walked f i j (omega arith) (omega arith) (omega arith)))
        | inr other ↦ elim (Bool-cases (leb (entry dp i (suc j)) (entry dp (suc i) j))) [
          | inl most ↦ rw (walk-add dp f i j other most) (
              add-Walked (suc i) j _ (omega arith)
                (cell ∙ common_cell-left _ _ _ _ _ _ _ other above left most)
                (walk-Walked f (suc i) j hi (omega arith) (omega arith)))
          | inr less ↦ rw (walk-remove dp f i j other less) (
              remove-Walked i (suc j) _ (omega arith)
                (cell ∙ common_cell-above _ _ _ _ _ _ _ other above left less)
                (walk-Walked f i (suc j) (omega arith) hj (omega arith)))
        ]
      ]

-- ===== src/Diff/Correct.antt =====
-- What `DiffText` of runtime/diff.go returns.
use serv_lang.Prelude.{
  ℕ, suc, ◌+◌, ◌≤◌, ◌≡◌, refl, ap, ◌∙◌, List, [], ◌∷◌, Option, some, Bytes, length, take, arith,
}
use serv_lang.Grid.Rows.{onto, onto_twice}
use serv_lang.Diff.Text.{DiffLine, reversed, diff_lines}
use serv_lang.Diff.Common.{Common, longest, longest_reversed}
use serv_lang.Diff.Lines.{old_lines, new_lines, kept, old_lines-onto, new_lines-onto, kept-onto}
use serv_lang.Diff.Walk.{Walked, walk-Walked}

-- What a difference of two texts promises.
pub record IsDiff (a b : List Bytes) (r : Option (List DiffLine)) : Type 0 where
  pub lines : List DiffLine
  pub result : r ≡ some lines
  pub gives_old : old_lines lines ≡ a
  pub gives_new : new_lines lines ≡ b
  pub keeps_most : (n : ℕ) → Common a b n → n ≤ kept lines

take_all : (xs : List Bytes) → take (length xs) xs ≡ xs
take_all [] = refl
take_all (x ∷ xs) = ap (λ ys. x ∷ ys) (take_all xs)

reversed-IsDiff :
    (a b : List Bytes) (r : Option (List DiffLine))
    → Walked a b (length a) (length b) r
    → IsDiff a b (reversed r)
unfolding old_lines new_lines kept
reversed-IsDiff a b r w =
    let all_old = w.old ∙ ap (λ xs. onto xs []) (take_all a) in
    let all_new = w.new ∙ ap (λ xs. onto xs []) (take_all b) in
    let size : kept w.lines ≡ longest (onto a []) (onto b []) =
      rw (take_all a, take_all b) at w.count in
    record {
      lines = onto w.lines [];
      result = ap reversed w.is;
      gives_old = old_lines-onto w.lines [] ∙ (ap (λ xs. onto xs []) all_old ∙ onto_twice a);
      gives_new = new_lines-onto w.lines [] ∙ (ap (λ xs. onto xs []) all_new ∙ onto_twice b);
      keeps_most = λ n c. omega (longest_reversed c, size, kept-onto w.lines [], arith);
    }

-- `DiffText` ends, and its lines are a shortest difference: without those that are added they are the
-- old lines, without those that are removed the new ones, and as many are kept as the two have in
-- common in any way.
pub diff_lines-IsDiff : (a b : List Bytes) → IsDiff a b (diff_lines a b)
unfolding diff_lines
diff_lines-IsDiff a b = reversed-IsDiff a b _ (
    walk-Walked a b (suc (length a + length b)) (length a) (length b) (omega arith) (omega arith)
      (omega arith))

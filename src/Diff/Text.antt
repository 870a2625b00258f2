-- ===== src/Diff/Text.antt =====
-- `DiffText` of runtime/diff.go.
use serv_lang.Prelude.{
  ℕ, zero, suc, ◌+◌, ◌-◌, ◌&&◌, ◌||◌, List, [], ◌∷◌, ◌++◌, Option, none, some, Bytes, codes, equal,
  length, get_or, ltb, leb, ◌==◌, if◌then◌else◌, map,
}
use serv_lang.GoStrings.{split, join}
use serv_lang.Grid.{fill_rows}
use serv_lang.Grid.Rows.{onto}

-- `strings.ReplaceAll(s, "\r\n", "\n")`
unfoldable pub replace_crlf : Bytes → Bytes
replace_crlf [] = []
replace_crlf (c ∷ []) = c ∷ []
replace_crlf (c ∷ d ∷ cs) =
    let one = replace_crlf (d ∷ cs) in
    let both = replace_crlf cs in if c == b'\r' && d == b'\n' then b'\n' ∷ both else c ∷ one

unfoldable pub lines_of : Bytes → List Bytes
unfolding replace_crlf split
lines_of s = split b'\n' (replace_crlf s)

unfoldable pub common_cell : Bytes → Bytes → ℕ → ℕ → ℕ → ℕ
unfolding equal
common_cell x y above left between =
    if equal x y then between + 1 else (if ltb above left then left else above)

abbrev pub always_zero : ℕ → ℕ
always_zero i = 0

unfoldable pub zeros : List Bytes → List ℕ
zeros [] = 0 ∷ []
zeros (y ∷ ys) = 0 ∷ zeros ys

-- `dp`
unfoldable pub common_table : List Bytes → List Bytes → List (List ℕ)
unfolding fill_rows common_cell zeros
common_table a b = fill_rows common_cell always_zero 0 (zeros b) a b

abbrev pub entry : List (List ℕ) → ℕ → ℕ → ℕ
entry dp i j = get_or (get_or dp i []) j 0

-- A line of the result, by its mark.
pub data DiffLine : Type 0 where
  both added removed : Bytes → DiffLine

-- What one round of the loop does: it appends a line and moves, or it does nothing.
pub data Move : Type 0 where
  keep add remove stay : Move

unfoldable pub move : List Bytes → List Bytes → List (List ℕ) → ℕ → ℕ → Move
unfolding equal
move a b dp i j =
    if ltb 0 i && (ltb 0 j && equal (get_or a (i - 1) []) (get_or b (j - 1) []))
    then keep
    else if ltb 0 j && (i == 0 || leb (entry dp (i - 1) j) (entry dp i (j - 1)))
    then add
    else if ltb 0 i && (j == 0 || ltb (entry dp i (j - 1)) (entry dp (i - 1) j))
    then remove
    else stay

abbrev pub on_top : DiffLine → Option (List DiffLine) → Option (List DiffLine)
on_top line none = none
on_top line (some lines) = some (line ∷ lines)

-- The line that a move appends, in front of what the loop goes on to append.
unfoldable pub round :
    List Bytes
    → List Bytes
    → Move
    → ℕ
    → ℕ
    → (ℕ → ℕ → Option (List DiffLine))
    → Option (List DiffLine)
round a b keep i j go_on = on_top (both (get_or a (i - 1) [])) (go_on (i - 1) (j - 1))
round a b add i j go_on = on_top (added (get_or b (j - 1) [])) (go_on i (j - 1))
round a b remove i j go_on = on_top (removed (get_or a (i - 1) [])) (go_on (i - 1) j)
round a b stay i j go_on = go_on i j

-- The loop from `i` and `j` on, last line first; `none` without fuel.
unfoldable pub walk : List Bytes → List Bytes → List (List ℕ) → ℕ → ℕ → ℕ → Option (List DiffLine)
unfolding move round
walk a b dp zero i j = none
walk a b dp (suc f) i j =
    let more = round a b (move a b dp i j) i j (λ i' j'. walk a b dp f i' j') in
    if ltb 0 i || ltb 0 j then more else some []

unfoldable pub print_line : DiffLine → Bytes
print_line (both s) = codes "  " ++ s
print_line (added s) = codes "+ " ++ s
print_line (removed s) = codes "- " ++ s

abbrev pub reversed : Option (List DiffLine) → Option (List DiffLine)
reversed none = none
reversed (some lines) = some (onto lines [])

-- The lines of the result, from the first to the last.
unfoldable pub diff_lines : List Bytes → List Bytes → Option (List DiffLine)
unfolding walk common_table
diff_lines a b =
    reversed (walk a b (common_table a b) (suc (length a + length b)) (length a) (length b))

unfoldable pub diff_text : Bytes → Bytes → Option Bytes
unfolding diff_lines lines_of print_line join
diff_text a b = joined (diff_lines (lines_of a) (lines_of b))
  where
    joined : Option (List DiffLine) → Option Bytes
    joined none = none
    joined (some lines) = some (join b'\n' (map print_line lines))

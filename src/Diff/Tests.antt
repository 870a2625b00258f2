-- ===== src/Diff/Tests.antt =====
-- Differences of concrete texts.
use serv_lang.Prelude.{◌≡◌, refl, some, List, [], ◌∷◌, Bytes, codes, equal}
use serv_lang.GoStrings.{split, join, push_byte}
use serv_lang.Grid.{fill_row, fill_rows}
use serv_lang.Diff.Text.{
  replace_crlf, lines_of, common_cell, zeros, common_table, move, round, walk, print_line,
  diff_lines, diff_text,
}
use serv_lang.Diff.Correct.{IsDiff, diff_lines-IsDiff}

diff_text-lines :
    diff_text (codes "a\r\nb\nc") (codes "a\nc\nd") ≡ some (codes "  a\n- b\n  c\n+ d")
unfolding diff_text diff_lines lines_of replace_crlf split push_byte join walk move round
    common_table fill_rows fill_row zeros common_cell print_line equal
diff_text-lines = refl

abbrev old_text : List Bytes
old_text = codes "a" ∷ codes "b" ∷ codes "c" ∷ []

abbrev new_text : List Bytes
new_text = codes "a" ∷ codes "c" ∷ codes "d" ∷ []

diff_lines-IsDiff_example : IsDiff old_text new_text (diff_lines old_text new_text)
diff_lines-IsDiff_example = diff_lines-IsDiff old_text new_text

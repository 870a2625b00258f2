-- ===== src/Diagnostics/Tests.antt =====
-- The diagnostics on concrete texts.
use serv_lang.Prelude.{ℕ, ◌≤◌, ◌≡◌, refl, [], ◌∷◌, ◌++◌, Bytes, codes, arith}
use serv_lang.GoStrings.{
  has_prefix, trim_space, split, push_byte, digits_value, is_ascii_space, is_space₂, is_space₃,
  space_width, space_width_back, trim_front,
}
use serv_lang.GoInt.{decimal}
use serv_lang.Prelude.{equal}
use serv_lang.Lexer.Cursor.{is_digit}
use serv_lang.Grid.{fill_row, last_row}
use serv_lang.Diagnostics.Distance.{
  min3, edit_cell, count_up, levenshtein, first_similar, find_similar_keyword,
}
use serv_lang.Diagnostics.Scripts.{Edits, levenshtein-Edits}
use serv_lang.Diagnostics.Keywords.{find_similar_keyword-one_byte}
use serv_lang.Diagnostics.Hints.{
  index_of, contains, cut_token, token_from, extract_token, token_hint, number_hint, suggest_fix,
  registry_code, get_error_registry_code,
}
use serv_lang.Diagnostics.Format.{
  scan_digits, scan_number, scan_col, scan_location, located, parse_error_location, spaces,
  print_number, source_lines, optional_line, headline, error_text, format_one, format_all,
  format_diagnostics,
}
use serv_lang.Diagnostics.Location.{parse_error_location-error_text}

-- `strings.ToLower` of a text in lower case.
lower : Bytes → Bytes
lower s = s

levenshtein-kitten : levenshtein (codes "kitten") (codes "sitting") ≡ 3
unfolding levenshtein last_row fill_row count_up edit_cell min3
levenshtein-kitten = refl

suggest_fix-servr :
    suggest_fix lower (codes "no prefix parse function for servr found")
    ≡ codes "did you mean 'server'?"
unfolding suggest_fix lower contains has_prefix index_of cut_token token_from extract_token
    token_hint find_similar_keyword first_similar equal levenshtein last_row fill_row count_up
    edit_cell min3 trim_space trim_front space_width space_width_back is_ascii_space is_space₂
    is_space₃
suggest_fix-servr = refl

-- A stray closing brace gets the hint of a typo.
suggest_fix-brace :
    suggest_fix lower (codes "no prefix parse function for } found") ≡ codes "did you mean 'fn'?"
unfolding suggest_fix lower contains has_prefix index_of cut_token token_from extract_token
    token_hint find_similar_keyword first_similar equal levenshtein last_row fill_row count_up
    edit_cell min3 trim_space trim_front space_width space_width_back is_ascii_space is_space₂
    is_space₃
suggest_fix-brace = refl

format_diagnostics-caret :
    format_diagnostics lower (codes "[Line 1, Col 5] unused variable x" ∷ []) (codes "let x = 1")
    ≡ codes "  error [SRV-E004]: unused variable x\n"
      ++ (codes "   1 | let x = 1\n"
          ++ (codes "           ^\n"
              ++ codes
                  "  reference: https://github.com/vyuvaraj/Serv-lang/blob/main/docs/errors.md#SRV-E004\n\n"))
unfolding format_diagnostics format_all format_one parse_error_location located scan_location
    scan_col scan_number scan_digits is_digit digits_value has_prefix index_of trim_space trim_front
    space_width space_width_back is_ascii_space is_space₂ is_space₃ get_error_registry_code
    registry_code contains source_lines spaces print_number decimal optional_line headline
    suggest_fix number_hint lower split push_byte
format_diagnostics-caret = refl

levenshtein-Edits_example :
    Edits (codes "fnn") (codes "fn") (levenshtein (codes "fnn") (codes "fn"))
    × ((n : ℕ) → Edits (codes "fnn") (codes "fn") n → levenshtein (codes "fnn") (codes "fn") ≤ n)
levenshtein-Edits_example = levenshtein-Edits (codes "fnn") (codes "fn")

find_similar_keyword-one_byte_example : find_similar_keyword lower (codes "}") ≡ codes "fn"
find_similar_keyword-one_byte_example =
    find_similar_keyword-one_byte lower (codes "}") b'}' (unfold lower in refl)

parse_error_location-error_text_example :
    parse_error_location (error_text 12 3 (codes "unreachable code"))
    ≡ (12, 3, trim_space (codes " unreachable code"))
parse_error_location-error_text_example =
    parse_error_location-error_text 12 3 (codes "unreachable code") (omega arith) (omega arith)

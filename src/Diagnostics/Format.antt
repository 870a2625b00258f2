-- ===== src/Diagnostics/Format.antt =====
-- `parseErrorLocation` and `FormatDiagnostics` of compiler/errors.go.
use serv_lang.Prelude.{
  ℕ, zero, suc, ◌+◌, ◌-◌, ◌^◌, ◌&&◌, List, [], ◌∷◌, ◌++◌, Option, none, some, Bytes, codes, length,
  take, drop, get_or, leb, ltb, if◌then◌else◌,
}
use serv_lang.GoStrings.{has_prefix, trim_space, split, digits_value}
use serv_lang.GoInt.{decimal}
use serv_lang.Lexer.Cursor.{is_digit}
use serv_lang.Diagnostics.Hints.{index_of, suggest_fix, get_error_registry_code}

-- The digits at the front of a text, and what is behind them.
unfoldable pub scan_digits : Bytes → Bytes × Bytes
unfolding is_digit
scan_digits [] = ([], [])
scan_digits (c ∷ cs) =
    let rest = scan_digits cs in if is_digit c then (c ∷ rest.0, rest.1) else ([], c ∷ cs)

-- `%d` of an `int` without a sign: the number, and what is behind it.
unfoldable pub scan_number : Bytes → Option (ℕ × Bytes)
unfolding scan_digits digits_value
scan_number s = found (scan_digits s)
  where
    found : Bytes × Bytes → Option (ℕ × Bytes)
    found ([], rest) = none
    found (c ∷ cs, rest) = numbered (digits_value 0 (c ∷ cs))
      where
        numbered : Option ℕ → Option (ℕ × Bytes)
        numbered none = none
        numbered (some n) = if ltb n (2 ^ 63) then some (n, rest) else none

-- `fmt.Sscanf(prefix, "Line %d, Col %d", &line, &col)` where line and column are 0, on a text that
-- begins with `Line `: what is not read stays 0.
unfoldable pub scan_col : ℕ → Bytes → ℕ × ℕ
unfolding scan_number has_prefix
scan_col line rest =
    if has_prefix rest (codes ", Col ") then read (scan_number (drop 6 rest)) else (line, 0)
  where
    read : Option (ℕ × Bytes) → ℕ × ℕ
    read none = (line, 0)
    read (some (col, _)) = (line, col)

unfoldable pub scan_location : Bytes → ℕ × ℕ
unfolding scan_number scan_col
scan_location prefix = read (scan_number (drop 5 prefix))
  where
    read : Option (ℕ × Bytes) → ℕ × ℕ
    read none = (0, 0)
    read (some (line, rest)) = scan_col line rest

-- The location and the message of an error, by the place of its first closing bracket.
unfoldable pub located : Bytes → Option ℕ → ℕ × ℕ × Bytes
unfolding scan_location trim_space
located err none = (0, 0, err)
located err (some close) =
    let (line, col) = scan_location (drop 1 (take close err)) in
    if ltb 0 close then (line, col, trim_space (drop (close + 1) err)) else (0, 0, err)

unfoldable pub parse_error_location : Bytes → ℕ × ℕ × Bytes
unfolding has_prefix index_of located
parse_error_location err =
    if has_prefix err (codes "[Line ") then located err (index_of err (codes "]")) else (0, 0, err)

-- `strings.Repeat(" ", n)`
unfoldable pub spaces : ℕ → Bytes
spaces zero = []
spaces (suc n) = b' ' ∷ spaces n

-- `%d`
unfoldable pub print_number : ℕ → Bytes
unfolding decimal
print_number n = decimal (suc n) n []

-- The line of the source with a caret below its column.
unfoldable pub source_lines : List Bytes → ℕ → ℕ → Bytes
unfolding spaces print_number
source_lines lines line col =
    if ltb 0 line && leb line (length lines)
    then (let number = codes " " ++ (print_number line ++ codes " | ") in
        codes "  "
        ++ (number
            ++ (get_or lines (line - 1) []
                ++ (codes "\n"
                    ++ (codes "  " ++ (spaces (length number + col - 1) ++ codes "^\n"))))))
    else []

-- A line of the report unless its text is empty.
unfoldable pub optional_line : Bytes → Bytes → Bytes
optional_line label [] = []
optional_line label (c ∷ cs) = label ++ ((c ∷ cs) ++ codes "\n")

unfoldable pub headline : Bytes → Bytes → Bytes
headline [] msg = codes "  error: " ++ (msg ++ codes "\n")
headline (c ∷ code) msg = codes "  error [" ++ ((c ∷ code) ++ (codes "]: " ++ (msg ++ codes "\n")))

-- The text of an error, as `addError` of the parser writes it.
unfoldable pub error_text : ℕ → ℕ → Bytes → Bytes
unfolding print_number
error_text line col msg =
    codes "[Line "
    ++ (print_number line ++ (codes ", Col " ++ (print_number col ++ (codes "] " ++ msg))))

module _ (to_lower : Bytes → Bytes) where
  unfoldable pub format_one : List Bytes → Bytes → Bytes
  unfolding parse_error_location get_error_registry_code source_lines suggest_fix headline
      optional_line
  format_one lines err =
      let (line, col, msg) = parse_error_location err in
      let (code, url) = get_error_registry_code to_lower msg in
      headline code msg
      ++ (source_lines lines line col
          ++ (optional_line (codes "  hint: ") (suggest_fix to_lower msg)
              ++ (optional_line (codes "  reference: ") url ++ codes "\n")))

  unfoldable pub format_all : List Bytes → List Bytes → Bytes
  unfolding format_one
  format_all lines [] = []
  format_all lines (err ∷ errs) = format_one lines err ++ format_all lines errs

  unfoldable pub format_diagnostics : List Bytes → Bytes → Bytes
  unfolding format_all split
  format_diagnostics errors source = format_all (split b'\n' source) errors

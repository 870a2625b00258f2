-- ===== src/Diagnostics/Distance.antt =====
-- `levenshtein` and `findSimilarKeyword` of compiler/errors.go.
use serv_lang.Prelude.{
  ℕ, suc, ◌+◌, not, ◌&&◌, List, [], ◌∷◌, Bytes, codes, equal, length, get_or, ltb, leb, ◌==◌,
  if◌then◌else◌, map,
}
use serv_lang.Grid.{last_row}

unfoldable pub min3 : ℕ → ℕ → ℕ → ℕ
min3 a b c = if ltb a b then (if ltb a c then a else c) else (if ltb b c then b else c)

-- The cell of two bytes: a deletion, an insertion, or a change that costs nothing between equal ones.
unfoldable pub edit_cell : ℕ → ℕ → ℕ → ℕ → ℕ → ℕ
unfolding min3
edit_cell x y above left between = min3 (above + 1) (left + 1) (between + (if x == y then 0 else 1))

-- The first row and the first cells of the others.
unfoldable pub count_up : ℕ → Bytes → List ℕ
count_up i [] = i ∷ []
count_up i (y ∷ ys) = i ∷ count_up (suc i) ys

abbrev pub own_number : ℕ → ℕ
own_number i = i

unfoldable pub levenshtein : Bytes → Bytes → ℕ
unfolding last_row edit_cell count_up
levenshtein [] b = length b
levenshtein (x ∷ xs) [] = length (x ∷ xs)
levenshtein (x ∷ xs) (y ∷ ys) =
    get_or (last_row edit_cell own_number 0 (count_up 0 (y ∷ ys)) (x ∷ xs) (y ∷ ys))
      (length (y ∷ ys)) 0

-- The local `keywords`
abbrev pub suggested : List Bytes
suggested = map codes (
    "server" ∷ "database" ∷ "cache" ∷ "broker" ∷ "route" ∷ "fn" ∷ "let" ∷ "return" ∷ "import"
    ∷ "export" ∷ "from" ∷ "try" ∷ "catch" ∷ "match" ∷ "test" ∷ "assert" ∷ "enum" ∷ "struct"
    ∷ "interface" ∷ "middleware" ∷ "if" ∷ "else" ∷ "for" ∷ "in" ∷ "spawn" ∷ "every" ∷ "cron"
    ∷ "subscribe" ∷ "publish" ∷ "true" ∷ "false" ∷ "nil" ∷ "self" ∷ "await" ∷ "ws" ∷ "validate"
    ∷ "type" ∷ "use" ∷ "limit" ∷ "tool" ∷ [])

unfoldable pub first_similar : Bytes → List Bytes → Bytes
unfolding levenshtein equal
first_similar token [] = []
first_similar token (kw ∷ kws) =
    if leb (levenshtein token kw) 2 && not (equal token kw) then kw else first_similar token kws

-- `strings.ToLower` is a parameter: beyond ASCII it is a table of the library.
module _ (to_lower : Bytes → Bytes) where
  unfoldable pub find_similar_keyword : Bytes → Bytes
  unfolding first_similar
  find_similar_keyword token = first_similar (to_lower token) suggested

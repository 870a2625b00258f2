-- ===== src/Lexer/Dedent.antt =====
-- `dedent`: the common indentation of the lines of a raw string is taken off.
use serv_lang.Prelude.{
  ℕ, Bool, ◌||◌, List, [], ◌∷◌, Option, none, some, Bytes, ◌==◌, leb, if◌then◌else◌, length,
  take_while, map,
}
use serv_lang.GoStrings.{split, join, has_prefix, trim_prefix, trim_space}

unfoldable pub is_indent : ℕ → Bool
is_indent c = c == b' ' || c == b'\t'

-- `len(strings.TrimSpace(line)) == 0`
unfoldable pub is_blank_line : Bytes → Bool
unfolding trim_space
is_blank_line line = length (trim_space line) == 0

unfoldable pub common : Bytes → Bytes → Bytes
common (a ∷ as₁) (b ∷ bs) = let rest = common as₁ bs in if a == b then a ∷ rest else []
common _ _ = []

-- The prefix so far, narrowed by the indentation of one more line.
unfoldable pub narrow : Option Bytes → Bytes → Option Bytes
unfolding common
narrow none leading = some leading
narrow (some sofar) leading = some (common sofar leading)

-- The loop over the lines; `none` is a `commonPrefix` that is still nil.
unfoldable pub common_prefix : Option Bytes → List Bytes → Option Bytes
unfolding is_blank_line is_indent narrow
common_prefix acc [] = acc
common_prefix acc (line ∷ lines) =
    common_prefix (if is_blank_line line then acc else narrow acc (take_while is_indent line)) lines

unfoldable pub drop_indent : Bytes → Bytes
unfolding is_indent
drop_indent [] = []
drop_indent (c ∷ cs) = let rest = drop_indent cs in if is_indent c then rest else c ∷ cs

unfoldable pub cut_line : Bytes → Bytes → Bytes
unfolding has_prefix trim_prefix drop_indent
cut_line prefix line = if has_prefix line prefix then trim_prefix line prefix else drop_indent line

-- The rest of `dedent`, where `commonPrefix` is known.
unfoldable pub shift : Option Bytes → Bytes → Bytes
unfolding split join cut_line
shift none s = s
shift (some []) s = s
shift (some (c ∷ prefix)) s = join b'\n' (map (cut_line (c ∷ prefix)) (split b'\n' s))

unfoldable pub dedent : Bytes → Bytes
unfolding common_prefix shift
dedent s =
    let lines = split b'\n' s in
    if leb (length lines) 1 then s else shift (common_prefix none lines) s

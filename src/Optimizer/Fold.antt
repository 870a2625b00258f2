-- ===== src/Optimizer/Fold.antt =====
-- Constant folding of compiler/optimizer.go: `foldIntegers`, `foldFloats`, `foldStrings`,
-- `foldBooleans`. `none` is a nil result: the expression is not folded.
use serv_lang.Prelude.{
  Bool, true, false, not, ◌&&◌, ◌||◌, [], ◌∷◌, ◌++◌, Option, none, some, Bytes, codes, equal, ltb,
  ◌==◌, if◌then◌else◌,
}
use serv_lang.Prelude.Int.{ℤ, pos, ltb_ℤ}
use serv_lang.GoInt.{add64, sub64, mul64, quo64, rem64, eqb_ℤ, format_int}
use serv_lang.Lexer.Token.{Token, TokenType}
use serv_lang.Optimizer.Ast.{
  Operator, plus, minus, times, divide, modulo, equals, not_equals, less, greater, at_most,
  at_least, both, either, Expr, integer, float, text, boolean,
}

-- Go's `float64`, which the language here does not have: its operations, the test against 0 among
-- them, and `fmt.Sprintf("%f", x)`.
pub record Floats : Type 1 where
  pub F : Type 0
  pub of_int : ℤ → F
  pub add : F → F → F
  pub sub : F → F → F
  pub mul : F → F → F
  pub div : F → F → F
  pub neg : F → F
  pub eqb : F → F → Bool
  pub lessb : F → F → Bool
  pub format : F → Bytes

-- `<` on Go strings: by bytes, a prefix first.
unfoldable pub bytes_less : Bytes → Bytes → Bool
bytes_less [] [] = false
bytes_less [] (y ∷ t) = true
bytes_less (x ∷ s) [] = false
bytes_less (x ∷ s) (y ∷ t) = ltb x y || (x == y && bytes_less s t)

-- `strconv.FormatBool`
unfoldable pub format_bool : Bool → Bytes
format_bool true = codes "true"
format_bool false = codes "false"

-- The token of a folded literal: at the old place, with the new type and text.
abbrev pub retoken : Token → TokenType → Bytes → Token
retoken tok t s = record tok { type_of = t; literal = s }

abbrev pub bool_type : Bool → TokenType
bool_type true = TokenType.true_kw
bool_type false = TokenType.false_kw

module _ {F : Type 0} where
  unfoldable pub bool_result : Token → Bool → Expr F
  unfolding format_bool
  bool_result tok res = boolean (retoken tok (bool_type res) (format_bool res)) res

  unfoldable pub int_result : Token → ℤ → Expr F
  unfolding format_int
  int_result tok val = integer (retoken tok TokenType.int (format_int val)) val

  unfoldable pub text_result : Token → Bytes → Expr F
  text_result tok s = text (retoken tok TokenType.string s) s

  unfoldable pub fold_integers : ℤ → ℤ → Operator → Token → Option (Expr F)
  unfolding int_result bool_result
  fold_integers l r plus tok = some (int_result tok (add64 l r))
  fold_integers l r minus tok = some (int_result tok (sub64 l r))
  fold_integers l r times tok = some (int_result tok (mul64 l r))
  fold_integers l r divide tok =
      if not (eqb_ℤ r (pos 0)) then some (int_result tok (quo64 l r)) else none
  fold_integers l r modulo tok =
      if not (eqb_ℤ r (pos 0)) then some (int_result tok (rem64 l r)) else none
  fold_integers l r equals tok = some (bool_result tok (eqb_ℤ l r))
  fold_integers l r not_equals tok = some (bool_result tok (not (eqb_ℤ l r)))
  fold_integers l r less tok = some (bool_result tok (ltb_ℤ l r))
  fold_integers l r greater tok = some (bool_result tok (ltb_ℤ r l))
  fold_integers l r at_most tok = some (bool_result tok (not (ltb_ℤ r l)))
  fold_integers l r at_least tok = some (bool_result tok (not (ltb_ℤ l r)))
  fold_integers l r _ tok = none

  unfoldable pub fold_strings : Bytes → Bytes → Operator → Token → Option (Expr F)
  unfolding text_result bool_result
  fold_strings l r plus tok = some (text_result tok (l ++ r))
  fold_strings l r equals tok = some (bool_result tok (equal l r))
  fold_strings l r not_equals tok = some (bool_result tok (not (equal l r)))
  fold_strings l r less tok = some (bool_result tok (bytes_less l r))
  fold_strings l r greater tok = some (bool_result tok (bytes_less r l))
  fold_strings l r at_most tok = some (bool_result tok (not (bytes_less r l)))
  fold_strings l r at_least tok = some (bool_result tok (not (bytes_less l r)))
  fold_strings l r _ tok = none

  unfoldable pub fold_booleans : Bool → Bool → Operator → Token → Option (Expr F)
  unfolding bool_result
  fold_booleans l r both tok = some (bool_result tok (l && r))
  fold_booleans l r either tok = some (bool_result tok (l || r))
  fold_booleans l r equals tok = some (bool_result tok (if l then r else not r))
  fold_booleans l r not_equals tok = some (bool_result tok (if l then not r else r))
  fold_booleans l r _ tok = none

module _ (fl : Floats) where
  open fl use {F, of_int, add, sub, mul, div, neg, eqb, lessb, format}

  unfoldable pub float_result : Token → F → Expr F
  float_result tok val = float (retoken tok TokenType.float (format val)) val

  -- `<=` and `>=` of floats are `<` or `==`, which differs from the negation at NaN.
  unfoldable pub fold_floats : F → F → Operator → Token → Option (Expr F)
  unfolding float_result bool_result
  fold_floats l r plus tok = some (float_result tok (add l r))
  fold_floats l r minus tok = some (float_result tok (sub l r))
  fold_floats l r times tok = some (float_result tok (mul l r))
  fold_floats l r divide tok =
      if not (eqb r (of_int (pos 0))) then some (float_result tok (div l r)) else none
  fold_floats l r equals tok = some (bool_result tok (eqb l r))
  fold_floats l r not_equals tok = some (bool_result tok (not (eqb l r)))
  fold_floats l r less tok = some (bool_result tok (lessb l r))
  fold_floats l r greater tok = some (bool_result tok (lessb r l))
  fold_floats l r at_most tok = some (bool_result tok (lessb l r || eqb l r))
  fold_floats l r at_least tok = some (bool_result tok (lessb r l || eqb l r))
  fold_floats l r _ tok = none

  -- `Constant Folding`, steps 1 to 4, on operands that are optimized already.
  unfoldable pub fold_infix : Expr F → Expr F → Operator → Token → Option (Expr F)
  unfolding fold_integers fold_floats fold_strings fold_booleans
  fold_infix (integer _ l) (integer _ r) op tok = fold_integers l r op tok
  fold_infix (integer _ l) (float _ r) op tok = fold_floats (of_int l) r op tok
  fold_infix (float _ l) (float _ r) op tok = fold_floats l r op tok
  fold_infix (float _ l) (integer _ r) op tok = fold_floats l (of_int r) op tok
  fold_infix (text _ l) (text _ r) op tok = fold_strings l r op tok
  fold_infix (boolean _ l) (boolean _ r) op tok = fold_booleans l r op tok
  fold_infix _ _ op tok = none

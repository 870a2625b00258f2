-- ===== src/Optimizer/Fixed.antt =====
-- What constant folding returns is not folded again.
use mathlib.Core.Path.{ap₂}
use serv_lang.Prelude.{
  ◌≡◌, refl, ap, ◌∙◌, Bool, true, false, not, Option, none, some, Bytes, if◌then◌else◌,
}
use serv_lang.Prelude.Int.{ℤ, pos}
use serv_lang.GoInt.{eqb_ℤ}
use serv_lang.Lexer.Token.{Token}
use serv_lang.Optimizer.Ast.{
  Operator, minus, times, divide, modulo, equals, not_equals, both, either, other_operator,
  PrefixOperator, negate, complement, Expr, integer, float, text, boolean, infix_expr,
}
use serv_lang.Optimizer.Fold.{
  Floats, fold_integers, fold_floats, fold_strings, fold_booleans, fold_infix,
}
use serv_lang.Optimizer.Pass.{folded_or, make_infix, make_prefix, optimize_expression}

module _ (fl : Floats) where
  open fl use {F}

  unfoldable pub IsFixed : Expr F → Type 0
  IsFixed e = optimize_expression fl e ≡ e

  -- What is folded is a literal, which the optimizer leaves alone.
  FixedOption : Option (Expr F) → Type 0
  FixedOption none = Unit
  FixedOption (some e) = IsFixed e

  guarded-FixedOption :
      (b : Bool) (e : Expr F) → IsFixed e → FixedOption (if b then some e else none)
  unfolding FixedOption
  guarded-FixedOption true e h = h
  guarded-FixedOption false e h = tt

  fold_integers-FixedOption :
      (l r : ℤ) (op : Operator) (tok : Token) → FixedOption (fold_integers l r op tok)
  unfolding FixedOption IsFixed fold_integers optimize_expression
  fold_integers-FixedOption l r divide tok = guarded-FixedOption (not (eqb_ℤ r (pos 0))) _ refl
  fold_integers-FixedOption l r modulo tok = guarded-FixedOption (not (eqb_ℤ r (pos 0))) _ refl
  fold_integers-FixedOption l r both tok = tt
  fold_integers-FixedOption l r either tok = tt
  fold_integers-FixedOption l r (other_operator s) tok = tt
  fold_integers-FixedOption l r op tok = refl

  fold_floats-FixedOption :
      (l r : F) (op : Operator) (tok : Token) → FixedOption (fold_floats fl l r op tok)
  unfolding FixedOption IsFixed fold_floats optimize_expression
  fold_floats-FixedOption l r divide tok =
      guarded-FixedOption (not (fl.eqb r (fl.of_int (pos 0)))) _ refl
  fold_floats-FixedOption l r modulo tok = tt
  fold_floats-FixedOption l r both tok = tt
  fold_floats-FixedOption l r either tok = tt
  fold_floats-FixedOption l r (other_operator s) tok = tt
  fold_floats-FixedOption l r op tok = refl

  fold_strings-FixedOption :
      (l r : Bytes) (op : Operator) (tok : Token) → FixedOption (fold_strings l r op tok)
  unfolding FixedOption IsFixed fold_strings optimize_expression
  fold_strings-FixedOption l r minus tok = tt
  fold_strings-FixedOption l r times tok = tt
  fold_strings-FixedOption l r divide tok = tt
  fold_strings-FixedOption l r modulo tok = tt
  fold_strings-FixedOption l r both tok = tt
  fold_strings-FixedOption l r either tok = tt
  fold_strings-FixedOption l r (other_operator s) tok = tt
  fold_strings-FixedOption l r op tok = refl

  fold_booleans-FixedOption :
      (l r : Bool) (op : Operator) (tok : Token) → FixedOption (fold_booleans l r op tok)
  unfolding FixedOption IsFixed fold_booleans optimize_expression
  fold_booleans-FixedOption l r both tok = refl
  fold_booleans-FixedOption l r either tok = refl
  fold_booleans-FixedOption l r equals tok = refl
  fold_booleans-FixedOption l r not_equals tok = refl
  fold_booleans-FixedOption l r op tok = tt

  fold_infix-FixedOption :
      (l r : Expr F) (op : Operator) (tok : Token) → FixedOption (fold_infix fl l r op tok)
  unfolding FixedOption fold_infix
  fold_infix-FixedOption (integer _ l) (integer _ r) op tok = fold_integers-FixedOption l r op tok
  fold_infix-FixedOption (integer _ l) (float _ r) op tok =
      fold_floats-FixedOption (fl.of_int l) r op tok
  fold_infix-FixedOption (float _ l) (float _ r) op tok = fold_floats-FixedOption l r op tok
  fold_infix-FixedOption (float _ l) (integer _ r) op tok =
      fold_floats-FixedOption l (fl.of_int r) op tok
  fold_infix-FixedOption (text _ l) (text _ r) op tok = fold_strings-FixedOption l r op tok
  fold_infix-FixedOption (boolean _ l) (boolean _ r) op tok = fold_booleans-FixedOption l r op tok
  fold_infix-FixedOption _ _ op tok = tt

  folded_or-IsFixed :
      (o : Option (Expr F)) (e : Expr F)
      → FixedOption o
      → (o ≡ none → IsFixed e)
      → IsFixed (folded_or o e)
  unfolding FixedOption folded_or
  folded_or-IsFixed none e f h = h refl
  folded_or-IsFixed (some folded) e f h = f

  pub make_infix-IsFixed :
      (tok : Token) (l r : Expr F) (op : Operator)
      → IsFixed l
      → IsFixed r
      → IsFixed (make_infix fl tok l op r)
  unfolding make_infix
  make_infix-IsFixed tok l r op hl hr =
      folded_or-IsFixed (fold_infix fl l r op tok) (infix_expr tok l op r)
        (fold_infix-FixedOption l r op tok) (λ unfolded. stays unfolded)
    where
      stays : fold_infix fl l r op tok ≡ none → IsFixed (infix_expr tok l op r)
      stays h =
          unfold IsFixed optimize_expression make_infix folded_or in
          ap₂ (λ x y. make_infix fl tok x op y) hl hr ∙ (rw h)

  pub make_prefix-IsFixed :
      (tok : Token) (op : PrefixOperator) (r : Expr F)
      → IsFixed r
      → IsFixed (make_prefix fl tok op r)
  unfolding make_prefix IsFixed optimize_expression
  make_prefix-IsFixed tok negate (integer _ v) h = refl
  make_prefix-IsFixed tok negate (float _ v) h = refl
  make_prefix-IsFixed tok complement (boolean _ v) h = refl
  make_prefix-IsFixed tok op r h = ap (make_prefix fl tok op) h

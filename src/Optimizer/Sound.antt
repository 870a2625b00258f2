-- ===== src/Optimizer/Sound.antt =====
-- Constant folding keeps the meaning of an operator: what a folded literal means.
use serv_lang.Prelude.{
  ◌≡◌, refl, ap, sym, subst, Bool, true, false, not, Option, none, some, Bytes, if◌then◌else◌,
}
use serv_lang.Prelude.Int.{ℤ, pos, negsuc, ◌+ℤ◌, ◌-ℤ◌, ◌*ℤ◌}
use serv_lang.GoInt.{eqb_ℤ, IsInt64, wrap-id, add64, sub64, mul64, neg64, quo64}
use serv_lang.Lexer.Token.{Token}
use serv_lang.Optimizer.Ast.{
  Operator, plus, minus, times, divide, modulo, equals, not_equals, both, either, other_operator,
  PrefixOperator, negate, complement, Expr, integer, float, text, boolean, infix_expr,
}
use serv_lang.Optimizer.Fold.{
  Floats, fold_integers, fold_floats, fold_strings, fold_booleans, fold_infix,
}
use serv_lang.Optimizer.Pass.{folded_or, make_infix, make_prefix}
use serv_lang.Optimizer.Exact.{Fits, Unrounded, FoldsExact, NegatesExact}
use serv_lang.Optimizer.Machine.{
  int, num, str, bool, Eval, crash, ret, ◌>>=◌, Machine, V, apply, apply_prefix, exact_quo,
  infix_of, eval,
}

quo64-exact : (a b : ℤ) → IsInt64 (exact_quo a b) → quo64 a b ≡ exact_quo a b
unfolding quo64 exact_quo
quo64-exact (pos a) (pos b) fits = wrap-id _ fits
quo64-exact (pos a) (negsuc b) fits = wrap-id _ fits
quo64-exact (negsuc a) (pos b) fits = wrap-id _ fits
quo64-exact (negsuc a) (negsuc b) fits = wrap-id _ fits

module _ (fl : Floats) (m : Machine fl) where
  open fl use {F}
  open m use {S}

  -- What a folded literal means is what the operator makes of its operands.
  Agrees : Option (Expr F) → Eval S (V fl m) → Type 0
  Agrees none p = Unit
  Agrees (some e) p = eval fl m e ≡ p

  -- A fold that is left out where the operation would panic, or for any other reason.
  guarded :
      (b : Bool) (e : Expr F) (p : Eval S (V fl m))
      → eval fl m e ≡ p
      → Agrees (if not b then some e else none) (if b then crash else p)
  unfolding Agrees
  guarded true e p h = tt
  guarded false e p h = h

  not_folded :
      (b : Bool) (e : Expr F) (p : Eval S (V fl m))
      → eval fl m e ≡ p
      → Agrees (if not b then some e else none) p
  unfolding Agrees
  not_folded true e p h = tt
  not_folded false e p h = h

  fold_integers-Agrees :
      (l r : ℤ) (op : Operator) (tok : Token)
      → Fits op l r
      → Agrees (fold_integers l r op tok) (infix_of fl m op (ret (int l)) (ret (int r)))
  unfolding Agrees fold_integers eval Fits add64 sub64 mul64
  fold_integers-Agrees l r plus tok fits = ap (λ z. ret (int z)) (wrap-id (l +ℤ r) fits)
  fold_integers-Agrees l r minus tok fits = ap (λ z. ret (int z)) (wrap-id (l -ℤ r) fits)
  fold_integers-Agrees l r times tok fits = ap (λ z. ret (int z)) (wrap-id (l *ℤ r) fits)
  fold_integers-Agrees l r divide tok fits =
      guarded (eqb_ℤ r (pos 0)) _ _ (ap (λ z. ret (int z)) (quo64-exact l r fits))
  fold_integers-Agrees l r modulo tok fits = guarded (eqb_ℤ r (pos 0)) _ _ refl
  fold_integers-Agrees l r both tok fits = tt
  fold_integers-Agrees l r either tok fits = tt
  fold_integers-Agrees l r (other_operator s) tok fits = tt
  fold_integers-Agrees l r op tok fits = refl

  folded-Agrees :
      (o : Option (Expr F)) (p : Eval S (V fl m))
      → ((e : Expr F) → o ≡ some e → eval fl m e ≡ p)
      → Agrees o p
  unfolding Agrees
  folded-Agrees none p h = tt
  folded-Agrees (some e) p h = h e refl

  -- `&&` and `||` are not folded between numbers.
  numbers-Agrees :
      (x y : F) (op : Operator) (tok : Token) (v w : V fl m)
      → ((op' : Operator) → apply fl m op' v w ≡ m.infix_rest op' v w)
      → Unrounded fl m op v w x y
      → Agrees (fold_floats fl x y op tok) (infix_of fl m op (ret v) (ret w))
  unfolding Agrees fold_floats
  numbers-Agrees x y both tok v w h exact = tt
  numbers-Agrees x y either tok v w h exact = tt
  numbers-Agrees x y op tok v w h exact =
      subst (Agrees (fold_floats fl x y op tok)) (sym (h op)) (
        folded-Agrees (fold_floats fl x y op tok) (m.infix_rest op v w)
          (λ e same. exact e tok same))

  fold_strings-Agrees :
      (l r : Bytes) (op : Operator) (tok : Token)
      → Agrees (fold_strings l r op tok) (infix_of fl m op (ret (str l)) (ret (str r)))
  unfolding Agrees fold_strings eval
  fold_strings-Agrees l r plus tok = refl
  fold_strings-Agrees l r minus tok = tt
  fold_strings-Agrees l r times tok = tt
  fold_strings-Agrees l r divide tok = tt
  fold_strings-Agrees l r modulo tok = tt
  fold_strings-Agrees l r both tok = tt
  fold_strings-Agrees l r either tok = tt
  fold_strings-Agrees l r (other_operator s) tok = tt
  fold_strings-Agrees l r op tok = refl

  fold_booleans-Agrees :
      (l r : Bool) (op : Operator) (tok : Token)
      → Agrees (fold_booleans l r op tok) (infix_of fl m op (ret (bool l)) (ret (bool r)))
  unfolding Agrees fold_booleans eval
  fold_booleans-Agrees true r both tok = refl
  fold_booleans-Agrees false r both tok = refl
  fold_booleans-Agrees true r either tok = refl
  fold_booleans-Agrees false r either tok = refl
  fold_booleans-Agrees l r equals tok = refl
  fold_booleans-Agrees l r not_equals tok = refl
  fold_booleans-Agrees l r op tok = tt

  fold_infix-Agrees :
      (l r : Expr F) (op : Operator) (tok : Token)
      → FoldsExact fl m l r op
      → Agrees (fold_infix fl l r op tok) (infix_of fl m op (eval fl m l) (eval fl m r))
  unfolding Agrees fold_infix eval FoldsExact
  fold_infix-Agrees (integer _ l) (integer _ r) op tok exact = fold_integers-Agrees l r op tok exact
  fold_infix-Agrees (integer _ l) (float _ r) op tok exact =
      numbers-Agrees (fl.of_int l) r op tok (int l) (num r) (λ _. refl) exact
  fold_infix-Agrees (float _ l) (float _ r) op tok exact =
      numbers-Agrees l r op tok (num l) (num r) (λ _. refl) exact
  fold_infix-Agrees (float _ l) (integer _ r) op tok exact =
      numbers-Agrees l (fl.of_int r) op tok (num l) (int r) (λ _. refl) exact
  fold_infix-Agrees (text _ l) (text _ r) op tok exact = fold_strings-Agrees l r op tok
  fold_infix-Agrees (boolean _ l) (boolean _ r) op tok exact = fold_booleans-Agrees l r op tok
  fold_infix-Agrees _ _ op tok exact = tt

  eval-folded_or :
      (o : Option (Expr F)) (e : Expr F)
      → Agrees o (eval fl m e)
      → eval fl m (folded_or o e) ≡ eval fl m e
  unfolding Agrees folded_or
  eval-folded_or none e h = refl
  eval-folded_or (some folded) e h = h

  pub eval-make_infix :
      (tok : Token) (l r : Expr F) (op : Operator)
      → FoldsExact fl m l r op
      → eval fl m (make_infix fl tok l op r) ≡ infix_of fl m op (eval fl m l) (eval fl m r)
  unfolding make_infix eval
  eval-make_infix tok l r op exact =
      eval-folded_or (fold_infix fl l r op tok) (infix_expr tok l op r)
        (fold_infix-Agrees l r op tok exact)

  pub eval-make_prefix :
      (tok : Token) (op : PrefixOperator) (r : Expr F)
      → NegatesExact fl m op r
      → eval fl m (make_prefix fl tok op r) ≡ (eval fl m r >>= apply_prefix fl m op)
  unfolding make_prefix eval NegatesExact neg64 sub64
  eval-make_prefix tok negate (integer _ v) exact =
      ap (λ z. ret (int z)) (wrap-id (pos 0 -ℤ v) exact)
  eval-make_prefix tok negate (float _ v) exact = exact
  eval-make_prefix tok complement (boolean _ v) exact = refl
  eval-make_prefix tok op r exact = refl

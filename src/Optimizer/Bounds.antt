-- ===== src/Optimizer/Bounds.antt =====
-- `foldIntegers` against the exact arithmetic of integers.
use mathlib.Core.Option.{some-injective}
use serv_lang.Prelude.{
  ℕ, suc, ◌%◌, ◌/◌, ◌^◌, ◌*◌, ◌-◌, ◌⊎◌, ◌∙◌, inl, inr, arith, ltb, not, true, false, Bool,
  Bool-cases, ◌≡◌, refl, ap, Option, none, some, if◌then◌else◌,
}
use serv_lang.Prelude.Int.{ℤ, pos, negsuc, ◌+ℤ◌, ◌-ℤ◌, ◌*ℤ◌}
use serv_lang.GoInt.{
  IsInt64, wrap, residue, of_bits, wrap-IsInt64, add64, sub64, mul64, quo64, eqb_ℤ,
}
use serv_lang.Lexer.Token.{Token}
use serv_lang.Optimizer.Ast.{Operator, plus, minus, times, divide}
use serv_lang.Optimizer.Fold.{fold_integers, int_result}
use serv_lang.Optimizer.Machine.{exact_quo}

-- The exact result of an operator that computes a number; a division by zero has none.
unfoldable pub exactly : Operator → ℤ → ℤ → Option ℤ
unfolding eqb_ℤ
exactly plus a b = some (a +ℤ b)
exactly minus a b = some (a -ℤ b)
exactly times a b = some (a *ℤ b)
exactly divide a b = if eqb_ℤ b (pos 0) then none else some (exact_quo a b)
exactly op a b = none

-- The two integers differ by a multiple of 2^64.
abbrev pub Congruent : ℤ → ℤ → Type 0
Congruent v z = (k : ℕ) × (z ≡ v +ℤ pos (k * 2 ^ 64) ⊎ v ≡ z +ℤ pos (k * 2 ^ 64))

wrap-Congruent : (z : ℤ) → Congruent (wrap z) z
unfolding wrap residue of_bits ◌+ℤ◌
wrap-Congruent (pos n) = elim (Bool-cases (ltb (n % 2 ^ 64) (2 ^ 63))) [
  | inl low ↦ (n / 2 ^ 64, inl (ground arith))
  | inr high ↦ (suc (n / 2 ^ 64), inl (ground arith))
]
wrap-Congruent (negsuc n) = elim (Bool-cases (ltb (2 ^ 64 - 1 - n % 2 ^ 64) (2 ^ 63))) [
  | inl low ↦ (suc (n / 2 ^ 64), inr (ground arith))
  | inr high ↦ (n / 2 ^ 64, inr (ground arith))
]

quo64-wrap : (a b : ℤ) → quo64 a b ≡ wrap (exact_quo a b)
unfolding quo64 exact_quo
quo64-wrap (pos a) (pos b) = refl
quo64-wrap (pos a) (negsuc b) = refl
quo64-wrap (negsuc a) (pos b) = refl
quo64-wrap (negsuc a) (negsuc b) = refl

guarded-wrap :
    (F : Type 0) (b : Bool) (x y z : ℤ) (tok : Token)
    → y ≡ wrap x
    → (if b then none else some x) ≡ some z
    → (if not b then some (int_result {F = F} tok y) else none) ≡ some (int_result tok (wrap z))
guarded-wrap F true x y z tok same e = ground arith
guarded-wrap F false x y z tok same e =
    ap (λ n. some (int_result tok n)) (same ∙ ap wrap (some-injective _ _ e))

fold_integers-wrap :
    (F : Type 0) (l r z : ℤ) (op : Operator) (tok : Token)
    → exactly op l r ≡ some z
    → fold_integers {F = F} l r op tok ≡ some (int_result tok (wrap z))
unfolding fold_integers exactly add64 sub64 mul64
fold_integers-wrap F l r z plus tok e =
    ap (λ x. some (int_result tok (wrap x))) (some-injective _ _ e)
fold_integers-wrap F l r z minus tok e =
    ap (λ x. some (int_result tok (wrap x))) (some-injective _ _ e)
fold_integers-wrap F l r z times tok e =
    ap (λ x. some (int_result tok (wrap x))) (some-injective _ _ e)
fold_integers-wrap F l r z divide tok e =
    guarded-wrap F (eqb_ℤ r (pos 0)) (exact_quo l r) (quo64 l r) z tok (quo64-wrap l r) e
fold_integers-wrap F l r z _ tok e = ground arith

-- Where `+`, `-`, `*` or `/` has an exact result on two integers, which a division by zero has not, it is
-- folded to a literal whose value is an `int64` that differs from that result by a multiple of 2^64.
pub fold_integers-exactly :
    (F : Type 0) (l r z : ℤ) (op : Operator) (tok : Token)
    → exactly op l r ≡ some z
    → (v : ℤ) × (fold_integers {F = F} l r op tok ≡ some (int_result tok v))
      × IsInt64 v
      × Congruent v z
fold_integers-exactly F l r z op tok e =
    (wrap z, fold_integers-wrap F l r z op tok e, wrap-IsInt64 z, wrap-Congruent z)

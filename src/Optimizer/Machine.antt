-- ===== src/Optimizer/Machine.antt =====
-- A meaning for the trees that the optimizer rewrites, independent of it. Literals and operators on
-- them mean what the generated Go code makes of them: they are constants of Go, whose arithmetic is exact.
-- All else is a parameter, given the meanings of its parts: the arithmetic of values that are no
-- constants, which are objects here, and that of float constants.
use serv_lang.Prelude.{
  ℕ, suc, ◌/◌, Bool, true, false, not, List, [], ◌∷◌, ◌++◌, Option, none, some, Bytes, equal,
  if◌then◌else◌,
}
use serv_lang.Prelude.Int.{ℤ, pos, negsuc, ltb_ℤ, ◌+ℤ◌, ◌-ℤ◌, ◌*ℤ◌}
use serv_lang.GoInt.{rem64, eqb_ℤ, minus as negated}
use serv_lang.Lexer.Token.{Token}
use serv_lang.Optimizer.Ast.{
  Operator, plus, minus, times, divide, modulo, equals, not_equals, less, greater, at_most,
  at_least, both, either, PrefixOperator, negate, complement, Expr, nil_expr, integer, float, text,
  boolean, identifier, infix_expr, prefix_expr, call, array, map_literal, struct_literal, member,
  index, slice_expr, await, error_prop, fn_literal, assert_expr, other, Exprs, no_exprs, cons_expr,
  Pairs, no_pairs, cons_pair, Spreads, no_spreads, cons_spread, Block, nil_block, block, Stmts,
  no_stmts, cons_stmt, Stmt, block_stmt, let_stmt, expr_stmt, return_stmt, if_stmt, for_stmt,
  fn_decl, route_stmt, tool_stmt, migration_stmt, every_stmt, cron_stmt, subscribe_stmt,
  publish_stmt, spawn_stmt, mock_stmt, test_stmt, try_stmt, break_stmt, continue_stmt, other_stmt,
}
use serv_lang.Optimizer.Fold.{Floats, bytes_less}

-- Integers, floats, texts and truth values are constants; whatever a program computes else is an object.
pub data Value (F O : Type 0) : Type 0 where
  nil : Value F O
  int : ℤ → Value F O
  num : F → Value F O
  str : Bytes → Value F O
  bool : Bool → Value F O
  object : O → Value F O

-- An expression runs from a state to a value and a state, or panics.
abbrev pub Eval : Type 0 → Type 0 → Type 0
Eval S A = S → Option (A × S)

pub data Outcome (S V : Type 0) : Type 0 where
  finished : S → Outcome S V
  returned : V → S → Outcome S V
  broke continued : S → Outcome S V
  panicked : Outcome S V

abbrev pub Exec : Type 0 → Type 0 → Type 0
Exec S V = S → Outcome S V

module _ {S : Type 0} where
  abbrev pub ret : {A : Type 0} → A → Eval S A
  ret a s = some (a, s)

  infixl 5 ◌>>=◌
  abbrev pub ◌>>=◌ : {A B : Type 0} → Eval S A → (A → Eval S B) → Eval S B
  ◌>>=◌ m f s = elim (m s) [ none ↦ none | some (a, t) ↦ f a t ]

  abbrev pub crash : {A : Type 0} → Eval S A
  crash s = none

  -- A statement that first runs an expression.
  abbrev pub after : {A V : Type 0} → Eval S A → (A → Exec S V) → Exec S V
  after m f s = elim (m s) [ none ↦ panicked | some (a, t) ↦ f a t ]

  -- One statement and then another, unless the first one leaves the block.
  abbrev pub then_run : {V : Type 0} → Exec S V → Outcome S V → Outcome S V
  then_run k (finished t) = k t
  then_run k (returned v t) = returned v t
  then_run k (broke t) = broke t
  then_run k (continued t) = continued t
  then_run k panicked = panicked

  abbrev pub seq : {V : Type 0} → Exec S V → Exec S V → Exec S V
  seq m k s = then_run k (m s)

-- What the rest of the language does, from the meanings of a node's parts.
pub record Machine (fl : Floats) : Type 1 where
  pub S : Type 0
  pub O : Type 0
  pub truthy : Value (fl.F) O → Bool
  pub variable : Bytes → Eval S (Value (fl.F) O)
  pub infix_rest : Operator → Value (fl.F) O → Value (fl.F) O → Eval S (Value (fl.F) O)
  pub prefix_rest : PrefixOperator → Value (fl.F) O → Eval S (Value (fl.F) O)
  pub call_of : Eval S (Value (fl.F) O) → List (Eval S (Value (fl.F) O)) → Eval S (Value (fl.F) O)
  pub array_of : List (Eval S (Value (fl.F) O)) → Eval S (Value (fl.F) O)
  pub map_of :
      List (Bytes × Eval S (Value (fl.F) O))
      → List (ℕ × Eval S (Value (fl.F) O))
      → Eval S (Value (fl.F) O)
  pub struct_of : Bytes → List (Bytes × Eval S (Value (fl.F) O)) → Eval S (Value (fl.F) O)
  pub member_of : Eval S (Value (fl.F) O) → Bytes → Eval S (Value (fl.F) O)
  pub index_of : Eval S (Value (fl.F) O) → Eval S (Value (fl.F) O) → Eval S (Value (fl.F) O)
  pub slice_of :
      Eval S (Value (fl.F) O)
      → Eval S (Value (fl.F) O)
      → Eval S (Value (fl.F) O)
      → Eval S (Value (fl.F) O)
  pub await_of : Eval S (Value (fl.F) O) → Eval S (Value (fl.F) O)
  pub error_prop_of : Eval S (Value (fl.F) O) → Eval S (Value (fl.F) O)
  pub assert_of : Eval S (Value (fl.F) O) → Eval S (Value (fl.F) O)
  pub fn_of :
      List Bytes → Eval S (Value (fl.F) O) → Exec S (Value (fl.F) O) → Eval S (Value (fl.F) O)
  pub other_of : Token → Eval S (Value (fl.F) O)
  pub bind_names : List Bytes → Value (fl.F) O → Exec S (Value (fl.F) O)
  pub for_of :
      Bytes → Bytes → Eval S (Value (fl.F) O) → Exec S (Value (fl.F) O) → Exec S (Value (fl.F) O)
  pub fn_decl_of : Bytes → List Bytes → Exec S (Value (fl.F) O) → Exec S (Value (fl.F) O)
  pub route_of : Bytes → Bytes → Exec S (Value (fl.F) O) → Exec S (Value (fl.F) O)
  pub tool_of : Bytes → Exec S (Value (fl.F) O) → Exec S (Value (fl.F) O)
  pub migration_of : Bytes → Exec S (Value (fl.F) O) → Exec S (Value (fl.F) O)
  pub every_of : Eval S (Value (fl.F) O) → Exec S (Value (fl.F) O) → Exec S (Value (fl.F) O)
  pub cron_of : Eval S (Value (fl.F) O) → Exec S (Value (fl.F) O) → Exec S (Value (fl.F) O)
  pub subscribe_of :
      Eval S (Value (fl.F) O) → Bytes → Exec S (Value (fl.F) O) → Exec S (Value (fl.F) O)
  pub publish_of : Eval S (Value (fl.F) O) → Eval S (Value (fl.F) O) → Exec S (Value (fl.F) O)
  pub spawn_of : Eval S (Value (fl.F) O) → Eval S (Value (fl.F) O) → Exec S (Value (fl.F) O)
  pub mock_of : Eval S (Value (fl.F) O) → Exec S (Value (fl.F) O) → Exec S (Value (fl.F) O)
  pub test_of : Bytes → Exec S (Value (fl.F) O) → Exec S (Value (fl.F) O)
  pub try_of : Exec S (Value (fl.F) O) → Bytes → Exec S (Value (fl.F) O) → Exec S (Value (fl.F) O)
  pub other_stmt_of : Token → Exec S (Value (fl.F) O)

-- Division rounds to zero.
unfoldable pub exact_quo : ℤ → ℤ → ℤ
unfolding negated
exact_quo (pos a) (pos b) = pos (a / b)
exact_quo (pos a) (negsuc b) = negated (a / suc b)
exact_quo (negsuc a) (pos b) = negated (suc a / b)
exact_quo (negsuc a) (negsuc b) = pos (suc a / suc b)

module _ (fl : Floats) (m : Machine fl) where
  open fl use {F}
  open m use {S, O}

  abbrev pub V : Type 0
  V = Value F O

  -- Whether a condition holds.
  abbrev pub truth : V → Bool
  truth (bool b) = b
  truth v = m.truthy v

  -- Go's operators on two integer constants; a division by zero is none.
  abbrev pub apply_ints : Operator → ℤ → ℤ → Eval S V
  apply_ints plus a b = ret (int (a +ℤ b))
  apply_ints minus a b = ret (int (a -ℤ b))
  apply_ints times a b = ret (int (a *ℤ b))
  apply_ints divide a b = if eqb_ℤ b (pos 0) then crash else ret (int (exact_quo a b))
  apply_ints modulo a b = if eqb_ℤ b (pos 0) then crash else ret (int (rem64 a b))
  apply_ints equals a b = ret (bool (eqb_ℤ a b))
  apply_ints not_equals a b = ret (bool (not (eqb_ℤ a b)))
  apply_ints less a b = ret (bool (ltb_ℤ a b))
  apply_ints greater a b = ret (bool (ltb_ℤ b a))
  apply_ints at_most a b = ret (bool (not (ltb_ℤ b a)))
  apply_ints at_least a b = ret (bool (not (ltb_ℤ a b)))
  apply_ints op a b = m.infix_rest op (int a) (int b)

  abbrev pub apply_strings : Operator → Bytes → Bytes → Eval S V
  apply_strings plus a b = ret (str (a ++ b))
  apply_strings equals a b = ret (bool (equal a b))
  apply_strings not_equals a b = ret (bool (not (equal a b)))
  apply_strings less a b = ret (bool (bytes_less a b))
  apply_strings greater a b = ret (bool (bytes_less b a))
  apply_strings at_most a b = ret (bool (not (bytes_less b a)))
  apply_strings at_least a b = ret (bool (not (bytes_less a b)))
  apply_strings op a b = m.infix_rest op (str a) (str b)

  abbrev pub apply_bools : Operator → Bool → Bool → Eval S V
  apply_bools equals a b = ret (bool (if a then b else not b))
  apply_bools not_equals a b = ret (bool (if a then not b else b))
  apply_bools op a b = m.infix_rest op (bool a) (bool b)

  -- An operator on two values.
  abbrev pub apply : Operator → V → V → Eval S V
  apply op (int a) (int b) = apply_ints op a b
  apply op (str a) (str b) = apply_strings op a b
  apply op (bool a) (bool b) = apply_bools op a b
  apply op v w = m.infix_rest op v w

  -- `&&` and `||` look at the right operand only if the left one does not decide.
  abbrev pub infix_of : Operator → Eval S V → Eval S V → Eval S V
  infix_of both l r =
      l >>= λ a. if truth a then (r >>= λ b. ret (bool (truth b))) else ret (bool false)
  infix_of either l r =
      l >>= λ a. if truth a then ret (bool true) else (r >>= λ b. ret (bool (truth b)))
  infix_of op l r = l >>= λ a. r >>= λ b. apply op a b

  abbrev pub apply_prefix : PrefixOperator → V → Eval S V
  apply_prefix negate (int a) = ret (int (pos 0 -ℤ a))
  apply_prefix complement (bool a) = ret (bool (not a))
  apply_prefix op v = m.prefix_rest op v

  unfoldable mutual
    pub eval : Expr F → Eval S V
    eval nil_expr = ret nil
    eval (integer _ n) = ret (int n)
    eval (float _ x) = ret (num x)
    eval (text _ s) = ret (str s)
    eval (boolean _ b) = ret (bool b)
    eval (identifier _ x) = m.variable x
    eval (infix_expr _ l op r) = infix_of op (eval l) (eval r)
    eval (prefix_expr _ op r) = eval r >>= apply_prefix op
    eval (call _ f xs) = m.call_of (eval f) (eval_exprs xs)
    eval (array _ xs) = m.array_of (eval_exprs xs)
    eval (map_literal _ ps ss) = m.map_of (eval_pairs ps) (eval_spreads ss)
    eval (struct_literal _ n ps) = m.struct_of n (eval_pairs ps)
    eval (member _ o name) = m.member_of (eval o) name
    eval (index _ l i) = m.index_of (eval l) (eval i)
    eval (slice_expr _ l s e) = m.slice_of (eval l) (eval s) (eval e)
    eval (await _ v) = m.await_of (eval v)
    eval (error_prop _ v) = m.error_prop_of (eval v)
    eval (fn_literal _ ps arrow body) = m.fn_of ps (eval arrow) (exec_block body)
    eval (assert_expr _ c) = m.assert_of (eval c)
    eval (other tok) = m.other_of tok

    pub eval_exprs : Exprs F → List (Eval S V)
    eval_exprs no_exprs = []
    eval_exprs (cons_expr e es) = eval e ∷ eval_exprs es

    pub eval_pairs : Pairs F → List (Bytes × Eval S V)
    eval_pairs no_pairs = []
    eval_pairs (cons_pair k v ps) = (k, eval v) ∷ eval_pairs ps

    pub eval_spreads : Spreads F → List (ℕ × Eval S V)
    eval_spreads no_spreads = []
    eval_spreads (cons_spread n v ss) = (n, eval v) ∷ eval_spreads ss

    pub exec_block : Block F → Exec S V
    exec_block nil_block = finished
    exec_block (block _ ss) = exec_stmts ss

    pub exec_stmts : Stmts F → Exec S V
    exec_stmts no_stmts = finished
    exec_stmts (cons_stmt s ss) = seq (exec s) (exec_stmts ss)

    pub exec : Stmt F → Exec S V
    exec (block_stmt _ ss) = exec_stmts ss
    exec (let_stmt _ ns v) = after (eval v) (m.bind_names ns)
    exec (expr_stmt _ v) = after (eval v) (λ _. finished)
    exec (return_stmt _ v) = after (eval v) returned
    exec (if_stmt _ c b e) = after (eval c) (λ v. if truth v then exec_block b else exec_block e)
    exec (for_stmt _ x k i b) = m.for_of x k (eval i) (exec_block b)
    exec (fn_decl _ n ps b) = m.fn_decl_of n ps (exec_block b)
    exec (route_stmt _ mt p b) = m.route_of mt p (exec_block b)
    exec (tool_stmt _ n b) = m.tool_of n (exec_block b)
    exec (migration_stmt _ n b) = m.migration_of n (exec_block b)
    exec (every_stmt _ i b) = m.every_of (eval i) (exec_block b)
    exec (cron_stmt _ c b) = m.cron_of (eval c) (exec_block b)
    exec (subscribe_stmt _ t p b) = m.subscribe_of (eval t) p (exec_block b)
    exec (publish_stmt _ t v) = m.publish_of (eval t) (eval v)
    exec (spawn_stmt _ c l) = m.spawn_of (eval c) (eval l)
    exec (mock_stmt _ t b) = m.mock_of (eval t) (exec_block b)
    exec (test_stmt _ n b) = m.test_of n (exec_block b)
    exec (try_stmt _ t p c) = m.try_of (exec_block t) p (exec_block c)
    exec (break_stmt _) = broke
    exec (continue_stmt _) = continued
    exec (other_stmt tok) = m.other_stmt_of tok

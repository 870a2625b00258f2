-- ===== src/Optimizer/Tests.antt =====
-- The optimizer on concrete trees, over a toy arithmetic for floats.
use serv_lang.Prelude.{ℕ, ◌≡◌, refl, true, false, some, codes, ◌+◌, ◌-◌, ◌^◌}
use serv_lang.Prelude.Int.{ℤ, pos, negsuc, ◌+ℤ◌, ◌-ℤ◌, ◌*ℤ◌, ltb_ℤ}
use serv_lang.GoInt.{eqb_ℤ, format_int, add64, mul64, IsInt64}
use serv_lang.Lexer.Token.{Token, TokenType}
use serv_lang.Optimizer.Ast.{
  plus, times, divide, less, both, Expr, integer, boolean, identifier, infix_expr, call, no_exprs,
  block, nil_block, Stmts, no_stmts, cons_stmt, expr_stmt, return_stmt, if_stmt, block_stmt,
}
use serv_lang.Optimizer.Fold.{Floats, fold_integers, int_result, retoken}
use serv_lang.Optimizer.Pass.{optimize, optimize_expression}
use serv_lang.Optimizer.Machine.{nil, int, Machine, finished, ret, crash}
use serv_lang.Optimizer.Idem.{optimize_idem}
use serv_lang.Optimizer.Bounds.{exactly, Congruent, fold_integers-exactly}

-- Integers in the place of floats.
abbrev whole : Floats
whole = record {
  F = ℤ;
  of_int = λ z. z;
  add = ◌+ℤ◌;
  sub = ◌-ℤ◌;
  mul = ◌*ℤ◌;
  div = λ a b. a;
  neg = λ a. pos 0 -ℤ a;
  eqb = eqb_ℤ;
  lessb = ltb_ℤ;
  format = format_int;
}

-- A machine whose state counts the calls, and in which little else runs.
abbrev counting : Machine whole
counting = record {
  S = ℕ;
  O = ℕ;
  truthy = λ v. false;
  variable = λ x. ret nil;
  infix_rest = λ op a b. crash;
  prefix_rest = λ op a. crash;
  call_of = λ f xs s. some (int (pos s), s + 1);
  array_of = λ xs. ret nil;
  map_of = λ ps ss. ret nil;
  struct_of = λ n ps. ret nil;
  member_of = λ o name. o;
  index_of = λ l i. l;
  slice_of = λ l s e. l;
  await_of = λ v. v;
  error_prop_of = λ v. v;
  assert_of = λ v. v;
  fn_of = λ ps arrow body. ret nil;
  other_of = λ tok. ret nil;
  bind_names = λ ns v. finished;
  for_of = λ x k i b. b;
  fn_decl_of = λ n ps b. finished;
  route_of = λ mt p b. finished;
  tool_of = λ n b. finished;
  migration_of = λ n b. finished;
  every_of = λ i b. finished;
  cron_of = λ c b. finished;
  subscribe_of = λ t p b. finished;
  publish_of = λ t v. finished;
  spawn_of = λ c l. finished;
  mock_of = λ t b. finished;
  test_of = λ n b. finished;
  try_of = λ t p c. t;
  other_stmt_of = λ tok. finished;
}

abbrev tok : Token
tok = record { type_of = TokenType.plus; literal = codes "+"; line = 1; col = 1 }

abbrev lit : ℕ → Expr ℤ
lit n = integer tok (pos n)

-- 2 + 3 * 4
abbrev sum : Expr ℤ
sum = infix_expr tok (lit 2) plus (infix_expr tok (lit 3) times (lit 4))

-- if 1 < 2 && true { return f() ; f() } else { f() } ; f()
abbrev program : Stmts ℤ
program =
    cons_stmt
      (if_stmt tok (infix_expr tok (infix_expr tok (lit 1) less (lit 2)) both (boolean tok true))
        (block tok (
          cons_stmt (return_stmt tok (call tok (identifier tok (codes "f")) no_exprs))
            (cons_stmt (expr_stmt tok sum) no_stmts)))
        nil_block)
      (cons_stmt (expr_stmt tok sum) no_stmts)

optimize_sum :
    optimize_expression whole sum ≡ integer (retoken tok TokenType.int (codes "14")) (pos 14)
unfolding optimize_expression add64 mul64
optimize_sum = refl

dead_branch_gone :
    optimize whole program
    ≡ cons_stmt
        (block_stmt tok
          (cons_stmt (return_stmt tok (call tok (identifier tok (codes "f")) no_exprs)) no_stmts))
        (cons_stmt
          (expr_stmt tok (integer (retoken tok TokenType.int (codes "14")) (pos 14)))
          no_stmts)
unfolding optimize add64 mul64
dead_branch_gone = refl

-- A division by zero is left to the program.
division_stays :
    optimize_expression whole (infix_expr tok (lit 1) divide (lit 0))
    ≡ infix_expr tok (lit 1) divide (lit 0)
unfolding optimize_expression eqb_ℤ
division_stays = refl

optimize_idem_example : optimize whole (optimize whole program) ≡ optimize whole program
optimize_idem_example = optimize_idem whole program

overflow :
    fold_integers {F = ℤ} (pos (2 ^ 63 - 1)) (pos 1) plus tok
    ≡ some
        (integer (retoken tok TokenType.int (codes "-9223372036854775808")) (negsuc (2 ^ 63 - 1)))
unfolding fold_integers add64
overflow = refl

fold_integers-exactly_example :
    (v : ℤ) × (fold_integers {F = ℤ} (pos (2 ^ 63 - 1)) (pos 1) plus tok ≡ some (int_result tok v))
    × IsInt64 v
    × Congruent v (pos (2 ^ 63))
unfolding exactly ◌+ℤ◌
fold_integers-exactly_example =
    fold_integers-exactly ℤ (pos (2 ^ 63 - 1)) (pos 1) (pos (2 ^ 63)) plus tok refl

-- ===== src/Optimizer/Branch.antt =====
-- What is left out of a block has no meaning there: dead branches, and statements behind a
-- terminator.
use mathlib.Core.Path.{fun_ext}
use serv_lang.Prelude.{
  ◌≡◌, refl, ◌∙◌, true, false, Option, none, some, if◌then◌else◌, Bool-cases, inl, inr,
}
use serv_lang.Lexer.Token.{Token}
use serv_lang.Optimizer.Ast.{
  Expr, boolean, Block, nil_block, block, Stmts, Stmt, return_stmt, break_stmt, continue_stmt,
}
use serv_lang.Optimizer.Fold.{Floats}
use serv_lang.Optimizer.Pass.{is_terminator, as_stmt, keep, choose_branch}
use serv_lang.Optimizer.Machine.{
  Exec, Outcome, finished, returned, broke, continued, panicked, then_run, after, seq, Machine, V,
  truth, eval, exec_block, exec_stmts, exec,
}

module _ (fl : Floats) (m : Machine fl) where
  open fl use {F}
  open m use {S}

  -- A statement that may have been optimized away.
  unfoldable pub exec_option : Option (Stmt F) → Exec S (V fl m)
  exec_option none = finished
  exec_option (some s) = exec fl m s

  terminator-seq :
      (s : Stmt F) (k : Exec S (V fl m))
      → is_terminator s ≡ true
      → exec fl m s ≡ seq (exec fl m s) k
  unfolding is_terminator exec
  terminator-seq (return_stmt _ v) k h = fun_ext λ t. return_stays (eval fl m v t)
    where
      return_stays :
          (o : Option (V fl m × S))
          → ◌≡◌ {A = Outcome S (V fl m)}
              (elim o [ none ↦ panicked | some (a, u) ↦ returned a u ])
              (then_run k (elim o [ none ↦ panicked | some (a, u) ↦ returned a u ]))
      return_stays none = refl
      return_stays (some (a, u)) = refl
  terminator-seq (break_stmt _) k h = refl
  terminator-seq (continue_stmt _) k h = refl
  terminator-seq _ k h = cc

  seq_finished : (p : Exec S (V fl m)) → seq p finished ≡ p
  seq_finished p = fun_ext λ t. stays (p t)
    where
      stays : (o : Outcome S (V fl m)) → then_run finished o ≡ o
      stays (finished u) = refl
      stays (returned a u) = refl
      stays (broke u) = refl
      stays (continued u) = refl
      stays panicked = refl

  pub exec_stmts-keep :
      (o : Option (Stmt F)) (rest : Stmts F)
      → exec_stmts fl m (keep o rest) ≡ seq (exec_option o) (exec_stmts fl m rest)
  unfolding keep exec_option exec
  exec_stmts-keep none rest = refl
  exec_stmts-keep (some s) rest = elim (Bool-cases (is_terminator s)) [
    | inl ends ↦ rw ends (seq_finished (exec fl m s) ∙ terminator-seq s (exec_stmts fl m rest) ends)
    | inr goes_on ↦ rw goes_on refl
  ]

  exec-as_stmt : (b : Block F) → exec_option (as_stmt b) ≡ exec_block fl m b
  unfolding as_stmt exec_option exec
  exec-as_stmt nil_block = refl
  exec-as_stmt (block tok ss) = refl

  pub exec-choose_branch :
      (tok : Token) (c : Expr F) (b e : Block F)
      → exec_option (choose_branch tok c b e)
        ≡ after (eval fl m c) (λ v. if truth fl m v then exec_block fl m b else exec_block fl m e)
  unfolding choose_branch exec_option exec
  exec-choose_branch tok (boolean _ true) b e = exec-as_stmt b
  exec-choose_branch tok (boolean _ false) b e = exec-as_stmt e
  exec-choose_branch tok c b e = refl

-- ===== src/Parser/RoundTrip.antt =====
-- `parseExpression` reads the trees of the grammar.
use serv_lang.Prelude.{
  ℕ, suc, ◌≤◌, ◌<◌, ◌≡◌, ◌≢◌, refl, sym, ap, subst, ◌∙◌, Bool, List, [], ◌∷◌, ◌++◌, some, arith,
  ◌⊎◌, Bytes, length, length-append,
}
use serv_lang.Lexer.Token
use serv_lang.Lexer.Token.{Token, TokenType, same_type, spelling}
use serv_lang.Parser.Ast.{Expr, nil_expr, Block, prefix_expr, member}
use serv_lang.Parser.State.{Parser, P, done, pure, advance}
use serv_lang.Parser.Tables.{
  lowest, product_level, precedence_of, infix_fn_of, prefix_fn_of, binary_fn, pipe_fn, call_fn,
  member_fn, InfixFn,
}
use serv_lang.Parser.Operands.{run_prefix}
use serv_lang.Parser.Operators.{run_infix, parse_field}
use serv_lang.Parser.Expr.{parse_expression}
use serv_lang.Parser.Grammar.{
  IsAtom, Derives, of_atom, of_group, of_prefix, of_member, of_infix, of_pipe, Reads, Follows,
  Behind, binary-Behind,
}
use serv_lang.Parser.Reads.{
  type, close-Behind, close-Follows, Reads-head, Reads-tail, Reads-nil, Reads-append, lands-peek,
  needs-next, prefix_fn_of-prefix, Behind-weaken, Behind-Follows, Follows-Behind, dot-Behind,
  pipe-Behind, retype-same,
}
use serv_lang.Parser.Loop.{
  parse, Reaches, CanRead, parse_operand-by, parse_operand-atom, Reaches-step, enter, inner,
}

module _ (parse_block : P Block) (float_ok : Bytes → Bool) where
  atom-CanRead :
      (n : ℕ) (t : Token) (e : Expr) → IsAtom t e → CanRead parse_block float_ok n e (t ∷ [])
  atom-CanRead n t e a m f p q le reads small near =
      let lands = Reads-nil (Reads-tail reads) in
      let at_end = lands-peek p q lands in
      let here = subst (λ u. IsAtom u e) (sym (Reads-head reads)) a in
      enter parse_block float_ok f m p p q e 1
        (parse_operand-atom parse_block float_ok f p here
          (ap (λ u. same_type u Token.lbrace) at_end ∙ near.brace_free)
          (ap (λ u. same_type u Token.lbracket) at_end ∙ near.bracket_free))
        lands (omega arith)

  group-CanRead :
      (n : ℕ) (open_paren close_paren : Token) (e : Expr) (ts : List Token)
      → open_paren.type_of ≡ Token.lparen
      → close_paren.type_of ≡ Token.rparen
      → CanRead parse_block float_ok lowest e ts
      → CanRead parse_block float_ok n e (open_paren ∷ ts ++ (close_paren ∷ []))
  unfolding run_prefix prefix_fn_of same_type
  group-CanRead n open_paren close_paren e ts opens closes can m f p q le reads small near =
      let (r, inside, rest) = Reads-append ts (Reads-tail reads) in
      let at_close = ap type (Reads-head rest) ∙ closes in
      let done_inside =
        inner parse_block float_ok can f (advance p) r inside
          (omega (small, arith, length-append ts (close_paren ∷ [])))
          (subst (λ t. Behind lowest t) (sym at_close) close-Behind)
          (subst (λ t. Follows lowest t) (sym at_close) close-Follows) in
      enter parse_block float_ok f m p r q e _
        (parse_operand-by parse_block float_ok f p
            (ap prefix_fn_of (ap type (Reads-head reads) ∙ opens))
          ∙ (simp (
            done_inside.result,
            needs-next Token.rparen nil_expr (pure e) done_inside.at r
                (ap (λ u. same_type u Token.rparen)
                  (lands-peek done_inside.at r done_inside.ends ∙ at_close))
                done_inside.ends,
          )))
        (Reads-nil (Reads-tail rest)) (omega arith)

  prefix-CanRead :
      (n : ℕ) (t : Token) (e : Expr) (ts : List Token)
      → (t.type_of ≡ Token.minus) ⊎ (t.type_of ≡ Token.bang)
      → n ≤ product_level
      → CanRead parse_block float_ok product_level e ts
      → CanRead parse_block float_ok n (prefix_expr t t.literal e) (t ∷ ts)
  unfolding run_prefix
  prefix-CanRead n t e ts is_prefix bound can m f p q le reads small near =
      let here = Reads-head reads in
      let far = Behind-weaken n q.cur.type_of bound near in
      let operand =
        inner parse_block float_ok can f (advance p) q (Reads-tail reads) (omega (small, arith)) far
          (record {
            weaker = omega (near.near, near.no_call, bound, arith);
            no_brace = near.brace_free;
            no_bracket = near.bracket_free;
          }) in
      enter parse_block float_ok f m p operand.at q _ _
        (parse_operand-by parse_block float_ok f p
            (ap (λ u. prefix_fn_of (type u)) here ∙ prefix_fn_of-prefix t is_prefix)
          ∙ (simp (operand.result, here)))
        operand.ends (omega arith)

  -- An operator between two operands, by what its function makes of them.
  operator-CanRead :
      (n k : ℕ) (fn : InfixFn) (op : Token) (l r e : Expr) (ls rs : List Token)
      → infix_fn_of op.type_of ≡ some fn
      → fn ≢ call_fn
      → precedence_of op.type_of ≡ suc k
      → Behind k op.type_of
      → n ≤ k
      → ((f g : ℕ) (s stop : Parser)
          → s.cur ≡ op
          → parse parse_block float_ok f (suc k) (advance s) ≡ done r stop
          → run_infix (parse parse_block float_ok f) g fn l s ≡ done e stop)
      → CanRead parse_block float_ok k l ls
      → CanRead parse_block float_ok (suc k) r rs
      → CanRead parse_block float_ok n e (ls ++ op ∷ rs)
  operator-CanRead n k fn op l r e ls rs is_fn no_call level behind_left bound runs can_left
        can_right m f p q le reads small near =
      let (s, left_reads, rest) = Reads-append ls reads in
      let at_op = Reads-head rest in
      let sizes = length-append ls (op ∷ rs) in
      let left =
        can_left m f p s (omega (le, bound, arith)) left_reads (omega (small, sizes, arith))
          (subst (λ t. Behind k (type t)) (sym at_op) behind_left) in
      let right =
        inner parse_block float_ok can_right f (advance s) q (Reads-tail rest)
          (omega (small, sizes, arith)) (Behind-weaken n q.cur.type_of (omega (bound, arith)) near)
          (Behind-Follows n q.cur.type_of (omega (bound, arith)) near) in
      subst (λ size. Reaches parse_block float_ok f m p q size e) (sym sizes)
        (Reaches-step parse_block float_ok (suc (length rs)) left
          (ap (λ t. infix_fn_of (type t)) at_op ∙ is_fn) no_call
          (omega (ap (λ t. precedence_of (type t)) at_op, level, le, bound, arith))
          (λ g. runs f g s right.at at_op right.result) right.ends (omega (small, sizes, arith))
          (omega arith))

  run_member :
      (f g : ℕ) (r : Parser) (dot_token name : Token) (e : Expr)
      → r.cur ≡ dot_token
      → (advance r).cur ≡ name
      → name.type_of ≡ Token.ident
      → run_infix (parse parse_block float_ok f) g member_fn e r
        ≡ done (member dot_token e name.literal) (advance r)
  unfolding run_infix parse_field same_type spelling
  run_member f g r dot_token name e at_dot at_name named =
      let at_peek = lands-peek r (advance r) refl ∙ ap type at_name ∙ named in
      simp (ap (λ t. same_type t Token.ident) at_peek, at_dot, at_name)
        (ap (done (member dot_token e name.literal)) (retype-same (advance r) name at_name named))

  member-CanRead :
      (n : ℕ) (dot_token name : Token) (e : Expr) (ts : List Token)
      → dot_token.type_of ≡ Token.dot
      → name.type_of ≡ Token.ident
      → n ≤ 8
      → CanRead parse_block float_ok 8 e ts
      → CanRead parse_block float_ok n
          (member dot_token e name.literal)
          (ts ++ (dot_token ∷ name ∷ []))
  unfolding infix_fn_of precedence_of
  member-CanRead n dot_token name e ts is_dot named bound can m f p q le reads small near =
      let (r, object, rest) = Reads-append ts reads in
      let at_dot = ap type (Reads-head rest) ∙ is_dot in
      let sizes = length-append ts (dot_token ∷ name ∷ []) in
      let left =
        can m f p r (omega (le, bound, arith)) object (omega (small, sizes, arith))
          (subst (λ t. Behind 8 t) (sym at_dot) dot-Behind) in
      subst (λ size. Reaches parse_block float_ok f m p q size (member dot_token e name.literal))
        (sym sizes)
        (Reaches-step parse_block float_ok 2 left (ap infix_fn_of at_dot) (λ h. cc)
          (omega (ap precedence_of at_dot, le, bound, arith))
          (λ g.
            run_member f g r dot_token name e (Reads-head rest) (Reads-head (Reads-tail rest))
              named)
          (Reads-nil (Reads-tail (Reads-tail rest))) (omega (small, sizes, arith)) (omega arith))

  parse_expression-CanRead :
      {n : ℕ} {e : Expr} {ts : List Token} → Derives n e ts → CanRead parse_block float_ok n e ts
  unfolding run_infix infix_fn_of precedence_of
  parse_expression-CanRead {n = n} (of_atom {t = t} {e = e} a) = atom-CanRead n t e a
  parse_expression-CanRead {n = n} (of_group {open_paren = o} c {e = e} {ts = ts} opens closes d) =
      group-CanRead n o c e ts opens closes (parse_expression-CanRead d)
  parse_expression-CanRead {n = n} (of_prefix {t = t} {e = e} {ts = ts} is_prefix le d) =
      prefix-CanRead n t e ts is_prefix le (parse_expression-CanRead d)
  parse_expression-CanRead {n = n} (of_member name {e = e} {ts = ts} is_dot named le d) =
      member-CanRead n _ name e ts is_dot named le (parse_expression-CanRead d)
  parse_expression-CanRead {n = n}
        (of_infix {k = k} op {l = l} {r = r} {ls = ls} {rs = rs} is_binary level le dl dr) =
      operator-CanRead n k binary_fn op l r _ ls rs is_binary (λ h. cc) level
        (binary-Behind op.type_of is_binary level) le
        (λ f g s stop at result. simp (at, level, result)) (parse_expression-CanRead dl)
        (parse_expression-CanRead dr)
  parse_expression-CanRead {n = n}
        (of_pipe op {l = l} {r = r} {ls = ls} {rs = rs} is_pipe le dl dr) =
      operator-CanRead n 2 pipe_fn op l r _ ls rs (ap infix_fn_of is_pipe) (λ h. cc)
        (ap precedence_of is_pipe) (subst (λ t. Behind 2 t) (sym is_pipe) pipe-Behind) le
        (λ f g s stop at result. simp (at, ap precedence_of is_pipe, result))
        (parse_expression-CanRead dl) (parse_expression-CanRead dr)

  -- A run of `parseExpression` at level `n` that stands in front of the tokens of a tree, with a token
  -- behind them that does not go on with it, and with more fuel than there are tokens, gives that
  -- tree, leaves no error and stops at its last token.
  pub parse_expression-Derives :
      {n : ℕ} {e : Expr} {ts : List Token}
      → Derives n e ts
      → n ≤ product_level
      → (f : ℕ) (p q : Parser) → Reads p ts q
      → Follows n q.cur.type_of
      → length ts < f
      → (stop : Parser) × (parse_expression parse_block float_ok f n p ≡ done e stop)
        × (advance stop ≡ q)
  parse_expression-Derives {n = n} d le f p q reads behind enough =
      let near = Follows-Behind n q.cur.type_of le behind in
      let run =
        inner parse_block float_ok (parse_expression-CanRead d) f p q reads enough near behind in
      (run.at, run.result, run.ends)

-- ===== src/Parser/Loop.antt =====
-- The loop of `parseExpression` behind its operand.
use serv_lang.Prelude.{
  ℕ, zero, suc, ◌+◌, ◌≤◌, ◌<◌, ◌≡◌, ◌≢◌, sym, ap, subst, ◌∙◌, Bool, false, List, none, some, arith,
  Bytes, length, lt→ltb,
}
use serv_lang.Lexer.Token
use serv_lang.Lexer.Token.{Token, TokenType, same_type, spelling}
use serv_lang.Parser.Ast.{Expr, Block, identifier}
use serv_lang.Parser.State.{Parser, P, done, continue, advance}
use serv_lang.Parser.Tables.{
  precedence_of, peek_precedence, infix_fn_of, prefix_fn_of, call_fn, InfixFn, PrefixFn,
}
use serv_lang.Parser.Operands.{
  parse_operand, choose_operand, run_prefix, parse_identifier, parse_name,
}
use serv_lang.Parser.Operators.{run_infix}
use serv_lang.Parser.Expr.{infix_ahead, step_infix, parse_infix_loop, parse_expression}
use serv_lang.Parser.Grammar.{
  IsAtom, is_name, is_text, is_f_string, is_duration, is_true, is_false, is_nil, is_self,
  is_integer, Reads, Follows, Behind, infix_fn_of-plain,
}
use serv_lang.Parser.Reads.{
  infix_ahead-none, struct_ahead-none, after_identifier-plain, lands-peek, pos-cases,
}

module _ (parse_block : P Block) (float_ok : Bytes → Bool) where
  abbrev pub parse : ℕ → ℕ → P Expr
  parse f n = parse_expression parse_block float_ok f n

  -- A run at level `n` that has read `e` and goes on with its loop in front of `q`.
  pub record Reaches (f n : ℕ) (p q : Parser) (size : ℕ) (e : Expr) : Type 0 where
    pub stop : Parser
    pub rounds : ℕ
    pub lands : advance stop ≡ q
    pub enough : f < rounds + size
    pub runs : parse (suc f) n p ≡ parse_infix_loop (parse f) rounds n e stop

  -- A run at level `n` that has read `e` and ends in front of `q`.
  pub record Ends (f n : ℕ) (p q : Parser) (e : Expr) : Type 0 where
    pub at : Parser
    pub ends : advance at ≡ q
    pub result : parse f n p ≡ done e at

  pub parse_identifier-plain :
      (f : ℕ) (p : Parser)
      → same_type p.peek.type_of Token.lbrace ≡ false
      → same_type p.peek.type_of Token.lbracket ≡ false
      → parse_identifier parse_block float_ok (parse f) f p
        ≡ done (identifier p.cur p.cur.literal) p
  unfolding parse_identifier parse_name
  parse_identifier-plain f p no_brace no_bracket =
      simp (after_identifier-plain p no_bracket, struct_ahead-none p no_brace)

  pub parse_operand-by :
      (f : ℕ) (p : Parser) {fn : PrefixFn}
      → prefix_fn_of p.cur.type_of ≡ some fn
      → parse_operand parse_block float_ok (parse f) f p
        ≡ run_prefix parse_block float_ok (parse f) f fn p
  unfolding parse_operand choose_operand
  parse_operand-by f p e = simp e

  pub parse_operand-atom :
      (f : ℕ) (p : Parser) {e : Expr}
      → IsAtom p.cur e
      → same_type p.peek.type_of Token.lbrace ≡ false
      → same_type p.peek.type_of Token.lbracket ≡ false
      → parse_operand parse_block float_ok (parse f) f p ≡ done e p
  unfolding run_prefix prefix_fn_of
  parse_operand-atom f p (is_name e) nb nk =
      parse_operand-by f p (ap prefix_fn_of e) ∙ parse_identifier-plain f p nb nk
  parse_operand-atom f p (is_integer e v) nb nk = parse_operand-by f p (ap prefix_fn_of e) ∙ simp v
  parse_operand-atom f p (is_text e) nb nk = parse_operand-by f p (ap prefix_fn_of e)
  parse_operand-atom f p (is_f_string e) nb nk = parse_operand-by f p (ap prefix_fn_of e)
  parse_operand-atom f p (is_duration e) nb nk = parse_operand-by f p (ap prefix_fn_of e)
  parse_operand-atom f p (is_true e) nb nk = parse_operand-by f p (ap prefix_fn_of e)
  parse_operand-atom f p (is_false e) nb nk = parse_operand-by f p (ap prefix_fn_of e)
  parse_operand-atom f p (is_nil e) nb nk = parse_operand-by f p (ap prefix_fn_of e)
  parse_operand-atom f p (is_self e) nb nk = parse_operand-by f p (ap prefix_fn_of e)

  -- The loop takes the operator in front of it.
  pub loop-step :
      (f g n : ℕ) (e : Expr) (p : Parser) {fn : InfixFn}
      → infix_fn_of p.peek.type_of ≡ some fn
      → fn ≢ call_fn
      → n < precedence_of p.peek.type_of
      → parse_infix_loop (parse f) (suc g) n e p
        ≡ continue
            (run_infix (parse f) g fn e (advance p))
            (λ e'. parse_infix_loop (parse f) g n e')
  unfolding parse_infix_loop infix_ahead step_infix peek_precedence
  loop-step f g n e p is_fn no_call bound =
      let (no_end, no_paren) = infix_fn_of-plain p.peek.type_of is_fn no_call in
      simp (no_end, no_paren, lt→ltb n (precedence_of p.peek.type_of) bound, is_fn)

  pub loop-stop :
      (f g n : ℕ) (e : Expr) (p : Parser)
      → infix_ahead n p ≡ none
      → parse_infix_loop (parse f) (suc g) n e p ≡ done e p
  unfolding parse_infix_loop step_infix
  loop-stop f g n e p stops = simp stops

  pub Reaches-step :
      {f n size : ℕ} {p r q stop : Parser} {e e' : Expr} {fn : InfixFn} (more : ℕ)
      → Reaches f n p r size e
      → infix_fn_of r.cur.type_of ≡ some fn
      → fn ≢ call_fn
      → n < precedence_of r.cur.type_of
      → ((g : ℕ) → run_infix (parse f) g fn e r ≡ done e' stop)
      → advance stop ≡ q
      → size ≤ f
      → 0 < more
      → Reaches f n p q (size + more) e'
  Reaches-step {f = f} {n = n} {r = r} {stop = stop} {e = e} {fn = fn} more h is_fn no_call bound
        runs ends small positive =
      let at_op = lands-peek h.stop r h.lands in
      let (g, some_round) = pos-cases h.rounds (omega (h.enough, small, arith)) in
      let step = loop-step f g n e h.stop (ap infix_fn_of at_op ∙ is_fn) no_call (rw at_op bound) in
      record {
        stop = stop;
        rounds = g;
        lands = ends;
        enough = omega (some_round, h.enough, positive, arith);
        runs = simp (h.runs, some_round, step, h.lands, runs g);
      }

  pub Reaches-Ends :
      {f n size : ℕ} {p q : Parser} {e : Expr}
      → Reaches f n p q size e
      → size ≤ f
      → Follows n q.cur.type_of
      → Ends (suc f) n p q e
  Reaches-Ends {f = f} {n = n} {q = q} {e = e} h small behind =
      let at_end = lands-peek h.stop q h.lands in
      let (g, some_round) = pos-cases h.rounds (omega (h.enough, small, arith)) in
      let stops = infix_ahead-none n h.stop (subst (λ t. Follows n t) (sym at_end) behind) in
      record {
        at = h.stop;
        ends = h.lands;
        result = h.runs ∙ (rw some_round (loop-stop f g n e h.stop stops));
      }

  -- What follows an operand keeps its loop for it alone.
  pub enter :
      (f n : ℕ) (p stop q : Parser) (e : Expr) (size : ℕ)
      → parse_operand parse_block float_ok (parse f) f p ≡ done e stop
      → advance stop ≡ q
      → 0 < size
      → Reaches f n p q size e
  unfolding parse_expression
  enter f n p stop q e size runs ends positive = record {
    stop = stop;
    rounds = f;
    lands = ends;
    enough = omega (positive, arith);
    runs = simp runs;
  }

  -- A parser that reads `ts` reaches the token behind them with the tree `e`, whose operators bind
  -- more tightly than `n`, at any level up to `n`.
  abbrev pub CanRead : ℕ → Expr → List Token → Type 0
  CanRead n e ts =
      (m f : ℕ) (p q : Parser)
      → m ≤ n
      → Reads p ts q
      → length ts ≤ f
      → Behind n q.cur.type_of
      → Reaches f m p q (length ts) e

  -- An operand inside another expression is a run with one unit of fuel less.
  pub inner :
      {n : ℕ} {e : Expr} {ts : List Token}
      → CanRead n e ts
      → (f : ℕ) (p q : Parser) → Reads p ts q
      → length ts < f
      → Behind n q.cur.type_of
      → Follows n q.cur.type_of
      → Ends f n p q e
  inner can zero p q reads small near behind = absurd (omega arith)
  inner {n = n} can (suc f) p q reads small near behind =
      Reaches-Ends (can n f p q (omega arith) reads (omega arith) near) (omega arith) behind

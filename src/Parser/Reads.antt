-- ===== src/Parser/Reads.antt =====
-- What a parser reads, and what may stand behind an expression.
use serv_lang.Prelude.{
  ℕ, zero, suc, ◌≤◌, ◌<◌, ◌≡◌, refl, sym, ap, ◌∙◌, true, false, List, [], ◌∷◌, ◌++◌, none, some,
  arith, ◌⊎◌, inl, inr, length, length-append,
}
use serv_lang.Lexer.Token
use serv_lang.Lexer.Token.{Token, TokenType, same_type, spelling}
use serv_lang.Parser.Ast.{Expr}
use serv_lang.Parser.State.{Parser, P, advance, needs}
use serv_lang.Parser.Tables.{
  lowest, product_level, precedence_of, peek_precedence, prefix_fn_of, prefix_fn,
}
use serv_lang.Parser.Operands.{after_identifier, struct_ahead, no_generic}
use serv_lang.Parser.Expr.{infix_ahead}
use serv_lang.Parser.Grammar.{
  Derives, of_atom, Reads, stays, moves, Follows, Behind, precedence_of-pos,
}

abbrev pub type : Token → TokenType
type t = t.type_of

pub close-Behind : Behind lowest Token.rparen
unfolding precedence_of same_type spelling
close-Behind = record {
  near = omega arith;
  no_call = λ h. omega (h, arith);
  brace_free = refl;
  bracket_free = refl;
}

pub close-Follows : Follows lowest Token.rparen
unfolding precedence_of same_type spelling
close-Follows = record { weaker = omega arith; no_brace = refl; no_bracket = refl }

-- Behind an expression, the loop stops.
pub peek_precedence-weaker : (n : ℕ) (p : Parser) → Follows n p.peek.type_of → peek_precedence p ≤ n
unfolding peek_precedence
peek_precedence-weaker n p h =
    let positive = precedence_of-pos p.peek.type_of in let weaker = h.weaker in ground arith

pub infix_ahead-none : (n : ℕ) (p : Parser) → Follows n p.peek.type_of → infix_ahead n p ≡ none
unfolding infix_ahead
infix_ahead-none n p h = let weaker = peek_precedence-weaker n p h in ground arith

pub struct_ahead-none :
    (p : Parser) → same_type p.peek.type_of Token.lbrace ≡ false → struct_ahead p ≡ false
unfolding struct_ahead
struct_ahead-none p h = rw h refl

pub after_identifier-plain :
    (p : Parser) → same_type p.peek.type_of Token.lbracket ≡ false → after_identifier p ≡ no_generic
unfolding after_identifier
after_identifier-plain p h = rw h refl

pub Reads-head : {p q : Parser} {t : Token} {ts : List Token} → Reads p (t ∷ ts) q → p.cur ≡ t
Reads-head (moves r) = refl

pub Reads-tail :
    {p q : Parser} {t : Token} {ts : List Token} → Reads p (t ∷ ts) q → Reads (advance p) ts q
Reads-tail (moves r) = r

pub Reads-nil : {p q : Parser} → Reads p [] q → p ≡ q
Reads-nil stays = refl

pub Reads-append :
    {p q : Parser} (ts : List Token) {us : List Token}
    → Reads p (ts ++ us) q
    → (r : Parser) × Reads p ts r × Reads r us q
Reads-append {p = p} [] r = (p, stays, r)
Reads-append {p = p} {q = q} (_ ∷ ts) (moves r) =
    let (m, a, b) = Reads-append {p = advance p} {q = q} ts r in (m, moves a, b)

pub lands-peek : (p q : Parser) → advance p ≡ q → p.peek.type_of ≡ q.cur.type_of
unfolding advance
lands-peek p q e = ap (λ r. r.cur.type_of) e

pub pos-cases : (n : ℕ) → 0 < n → (m : ℕ) × (n ≡ suc m)
pos-cases zero h = absurd (omega arith)
pos-cases (suc m) h = (m, refl)

pub Derives-pos : {n : ℕ} {e : Expr} {ts : List Token} → Derives n e ts → 0 < length ts
Derives-pos (of_atom _) = omega arith
Derives-pos _ = omega (arith, length-append {A = Token})

pub needs-next :
    (t : TokenType) (nil : Expr) (m : P Expr) (p q : Parser)
    → same_type p.peek.type_of t ≡ true
    → advance p ≡ q
    → needs t nil m p ≡ m q
needs-next t nil m p q found ends = simp (found, ends)

pub prefix_fn_of-prefix :
    (t : Token)
    → (t.type_of ≡ Token.minus) ⊎ (t.type_of ≡ Token.bang)
    → prefix_fn_of t.type_of ≡ some prefix_fn
unfolding prefix_fn_of
prefix_fn_of-prefix t (inl e) = ap prefix_fn_of e
prefix_fn_of-prefix t (inr e) = ap prefix_fn_of e

pub Behind-weaken : (n : ℕ) {k : ℕ} (t : TokenType) → n ≤ k → Behind n t → Behind k t
Behind-weaken n t le h = record {
  near = omega (le, h.near, arith);
  no_call = h.no_call;
  brace_free = h.brace_free;
  bracket_free = h.bracket_free;
}

pub Behind-Follows : (n : ℕ) {k : ℕ} (t : TokenType) → n < k → Behind n t → Follows k t
Behind-Follows n t le h = record {
  weaker = omega (le, h.near, arith);
  no_brace = h.brace_free;
  no_bracket = h.bracket_free;
}

pub Follows-Behind : (n : ℕ) (t : TokenType) → n ≤ product_level → Follows n t → Behind n t
Follows-Behind n t le h = record {
  near = omega (h.weaker, arith);
  no_call = λ e. omega (e, h.weaker, le, arith);
  brace_free = h.no_brace;
  bracket_free = h.no_bracket;
}

pub dot-Behind : Behind 8 Token.dot
unfolding precedence_of same_type spelling
dot-Behind = record {
  near = omega arith;
  no_call = λ h. omega (h, arith);
  brace_free = refl;
  bracket_free = refl;
}

pub pipe-Behind : Behind 2 Token.pipe_arrow
unfolding precedence_of same_type spelling
pipe-Behind = record {
  near = omega arith;
  no_call = λ h. omega (h, arith);
  brace_free = refl;
  bracket_free = refl;
}

pub retype-same :
    (p : Parser) (t : Token)
    → p.cur ≡ t
    → t.type_of ≡ Token.ident
    → record p { cur = record t { type_of = Token.ident } } ≡ p
retype-same p t at named =
    ap (λ type. record p { cur = record t { type_of = type } }) (sym named)
    ∙ ap (λ u. record p { cur = u }) (sym at)

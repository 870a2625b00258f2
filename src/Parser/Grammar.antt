-- ===== src/Parser/Grammar.antt =====
-- The grammar that the precedences of compiler/parser.go describe, and the tokens that a parser is
-- going to read.
use serv_lang.Prelude.{
  ℕ, suc, ◌≤◌, ◌≡◌, ◌≢◌, refl, true, false, List, [], ◌∷◌, ◌++◌, some, arith, ◌⊎◌,
}
use serv_lang.Prelude.Int.{ℤ}
use serv_lang.Lexer.Token
use serv_lang.Lexer.Token.{Token, TokenType, same_type, spelling}
use serv_lang.Parser.Ast.{
  Expr, identifier, text, f_string, duration, integer, boolean, nil_literal, self_expr, infix_expr,
  prefix_expr, member,
}
use serv_lang.Parser.State.{Parser, advance}
use serv_lang.Parser.Operators.{piped}
use serv_lang.Parser.Tables.{
  lowest, product_level, precedence_of, infix_fn_of, binary_fn, parse_int, InfixFn, call_fn,
}

-- One token that is an operand.
pub data IsAtom : Token → Expr → Type 0 where
  is_name : {t : Token} → t.type_of ≡ Token.ident → IsAtom t (identifier t t.literal)
  is_text : {t : Token} → t.type_of ≡ Token.string → IsAtom t (text t t.literal)
  is_f_string : {t : Token} → t.type_of ≡ Token.fstring → IsAtom t (f_string t t.literal)
  is_duration : {t : Token} → t.type_of ≡ Token.duration → IsAtom t (duration t t.literal)
  is_true : {t : Token} → t.type_of ≡ Token.true_kw → IsAtom t (boolean t true)
  is_false : {t : Token} → t.type_of ≡ Token.false_kw → IsAtom t (boolean t false)
  is_nil : {t : Token} → t.type_of ≡ Token.nil → IsAtom t (nil_literal t)
  is_self : {t : Token} → t.type_of ≡ Token.self → IsAtom t (self_expr t)
  is_integer :
      {t : Token} {n : ℤ}
      → t.type_of ≡ Token.int
      → parse_int t.literal ≡ some n
      → IsAtom t (integer t n)

-- `Derives n e ts`: the tokens `ts` write the tree `e`, whose outer operators bind more tightly than
-- the level `n`. Operators of one level group to the left, a prefix operator binds an operand of the
-- level above products, and parentheses begin again from the lowest level.
pub data Derives : ℕ → Expr → List Token → Type 0 where
  of_atom : {n : ℕ} {t : Token} {e : Expr} → IsAtom t e → Derives n e (t ∷ [])
  of_group :
      {n : ℕ} {open_paren : Token} (close_paren : Token) {e : Expr} {ts : List Token}
      → open_paren.type_of ≡ Token.lparen
      → close_paren.type_of ≡ Token.rparen
      → Derives lowest e ts
      → Derives n e (open_paren ∷ ts ++ (close_paren ∷ []))
  of_prefix :
      {n : ℕ} {t : Token} {e : Expr} {ts : List Token}
      → (t.type_of ≡ Token.minus) ⊎ (t.type_of ≡ Token.bang)
      → n ≤ product_level
      → Derives product_level e ts
      → Derives n (prefix_expr t t.literal e) (t ∷ ts)
  of_member :
      {n : ℕ} {dot_token : Token} (name : Token) {e : Expr} {ts : List Token}
      → dot_token.type_of ≡ Token.dot
      → name.type_of ≡ Token.ident
      → n ≤ 8
      → Derives 8 e ts
      → Derives n (member dot_token e name.literal) (ts ++ (dot_token ∷ name ∷ []))
  of_infix :
      {n k : ℕ} (op : Token) {l r : Expr} {ls rs : List Token}
      → infix_fn_of op.type_of ≡ some binary_fn
      → precedence_of op.type_of ≡ suc k
      → n ≤ k
      → Derives k l ls
      → Derives (suc k) r rs
      → Derives n (infix_expr op l op.literal r) (ls ++ op ∷ rs)
  of_pipe :
      {n : ℕ} (op : Token) {l r : Expr} {ls rs : List Token}
      → op.type_of ≡ Token.pipe_arrow
      → n ≤ 2
      → Derives 2 l ls
      → Derives 3 r rs
      → Derives n (piped op l r) (ls ++ op ∷ rs)

-- The tokens that a parser passes on its way to another.
pub data Reads : Parser → List Token → Parser → Type 0 where
  stays : {p : Parser} → Reads p [] p
  moves : {p q : Parser} {ts : List Token} → Reads (advance p) ts q → Reads p (p.cur ∷ ts) q

-- The tokens that may stand behind an expression of level `n`: none that goes on with it.
pub record Follows (n : ℕ) (t : TokenType) : Type 0 where
  pub weaker : precedence_of t ≤ n
  pub no_brace : same_type t Token.lbrace ≡ false
  pub no_bracket : same_type t Token.lbracket ≡ false

-- The tokens in front of which the loop of level `n` or below may stand behind an operand whose
-- operators bind more tightly than `n`.
pub record Behind (n : ℕ) (t : TokenType) : Type 0 where
  pub near : precedence_of t ≤ suc n
  pub no_call : precedence_of t ≢ 8
  pub brace_free : same_type t Token.lbrace ≡ false
  pub bracket_free : same_type t Token.lbracket ≡ false

binary-bounds :
    (t : TokenType)
    → infix_fn_of t ≡ some binary_fn
    → (precedence_of t ≤ 7)
      × (same_type t Token.lbrace ≡ false)
      × (same_type t Token.lbracket ≡ false)
unfolding infix_fn_of precedence_of same_type spelling
binary-bounds Token.lbrace e = cc
binary-bounds Token.lbracket e = cc
binary-bounds _ e = (ground arith, refl, refl)

pub binary-Behind :
    (t : TokenType) {k : ℕ} → infix_fn_of t ≡ some binary_fn → precedence_of t ≡ suc k → Behind k t
binary-Behind t e l =
    let (bound, brace, bracket) = binary-bounds t e in
    record {
      near = omega (l, arith);
      no_call = λ h. omega (l, h, bound, arith);
      brace_free = brace;
      bracket_free = bracket;
    }

pub precedence_of-pos : (t : TokenType) → lowest ≤ precedence_of t
unfolding precedence_of
precedence_of-pos Token.plus = omega arith
precedence_of-pos _ = omega arith

-- An operator that is no call is neither the end nor a parenthesis.
pub infix_fn_of-plain :
    (t : TokenType) {fn : InfixFn}
    → infix_fn_of t ≡ some fn
    → fn ≢ call_fn
    → (same_type t Token.eof ≡ false) × (same_type t Token.lparen ≡ false)
unfolding infix_fn_of same_type spelling
infix_fn_of-plain Token.lparen e h = absurd (h (cc))
infix_fn_of-plain Token.eof e h = cc
infix_fn_of-plain _ e h = (refl, refl)

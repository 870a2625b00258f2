-- ===== src/Parser/Recovery.antt =====
-- `synchronize` of compiler/parser.go, and what becomes of a `let` that names nothing.
use serv_lang.Prelude.{
  ℕ, zero, suc, ◌+◌, ◌≤◌, ◌<◌, ◌≡◌, refl, ap, ◌∙◌, Bool, true, false, ◌||◌, [], ◌∷◌, ◌++◌, arith,
  length, length-append, get_or-beyond, Bytes, Bool-cases, inl, inr, ltb, lt→ltb, List,
}
use serv_lang.Lexer.Token
use serv_lang.Lexer.Token.{Token, TokenType, same_type, spelling, is_keyword_token}
use serv_lang.Lexer.Cursor.{Lexer}
use serv_lang.Lexer.Position.{IsPlaced}
use serv_lang.Lexer.Next.{one}
use serv_lang.Lexer.Tokens.{next_token-forward}
use serv_lang.Lexer.Ending.{next_token-zero}
use serv_lang.Parser.Ast.{nil_stmt}
use serv_lang.Parser.State.{Parser, Error, done, out_of_fuel, advance, expected_next}
use serv_lang.Parser.Simple.{parse_let}
use serv_lang.Parser.Modules.{Inline}
use serv_lang.Lexer.Cursor.{Lexer}
use serv_lang.Parser.Dispatch.{stmt_fn_of, is_sync}
use serv_lang.Parser.Program.{synchronize, run_stmt, parse_statement, parse_checked, parse_program}

-- Where `synchronize` may stop.
abbrev pub stops_sync : TokenType → Bool
stops_sync t = same_type t Token.eof || is_sync t

-- Past the end of the input, the next token is the last.
advance-eof :
    (p : Parser)
    → IsPlaced p.lexer
    → length p.lexer.input ≤ p.lexer.position
    → (advance p).peek.type_of ≡ Token.eof
unfolding advance one
advance-eof p placed past =
    let beyond : p.lexer.ch ≡ 0 =
      placed.current ∙ get_or-beyond p.lexer.input p.lexer.position 0 past in
    ap (λ (r : Token × Lexer). r.0.type_of) (next_token-zero p.lexer placed beyond)

advance-cur : (p : Parser) → (advance p).cur ≡ p.peek
unfolding advance
advance-cur p = refl

advance-forward :
    (p : Parser)
    → IsPlaced p.lexer
    → (p.lexer.position < (advance p).lexer.position)
      × IsPlaced (advance p).lexer
      × ((advance p).lexer.input ≡ p.lexer.input)
unfolding advance
advance-forward p placed = next_token-forward p.lexer placed

advance-errors : (p : Parser) → (advance p).errors ≡ p.errors
unfolding advance
advance-errors p = refl

-- What `synchronize` promises.
pub record Synchronized (f : ℕ) (p : Parser) : Type 0 where
  pub after : Parser
  pub runs : synchronize f p ≡ done tt after
  pub at_stop : stops_sync after.cur.type_of ≡ true
  pub same_errors : after.errors ≡ p.errors

synchronize-here : (f : ℕ) (p : Parser) → stops_sync p.cur.type_of ≡ true → Synchronized (suc f) p
unfolding synchronize
synchronize-here f p h = record { after = p; runs = simp h; at_stop = h; same_errors = refl }

synchronize-next :
    (f : ℕ) (p : Parser)
    → stops_sync p.cur.type_of ≡ false
    → Synchronized f (advance p)
    → Synchronized (suc f) p
unfolding synchronize
synchronize-next f p h s = record {
  after = s.after;
  runs = simp (h, s.runs);
  at_stop = s.at_stop;
  same_errors = s.same_errors ∙ advance-errors p;
}

-- One step of the loop, whatever the current token is.
synchronize-step : (f : ℕ) (p : Parser) → Synchronized f (advance p) → Synchronized (suc f) p
synchronize-step f p s = elim (Bool-cases (stops_sync p.cur.type_of)) [
  | inl here ↦ synchronize-here f p here
  | inr on ↦ synchronize-next f p on s
]

synchronize-at_eof : (f : ℕ) (p : Parser) → p.cur.type_of ≡ Token.eof → Synchronized (suc f) p
unfolding same_type spelling
synchronize-at_eof f p e = synchronize-here f p (rw e refl)

-- From a parser whose lexer reads its input in order, `synchronize` ends: with a unit of fuel for each
-- byte that the lexer has left and three more, it stops at a token of its list or at the end of the
-- input, with the errors that were there.
pub synchronize-ends :
    (n : ℕ) (p : Parser)
    → IsPlaced p.lexer
    → length p.lexer.input ≤ n + p.lexer.position
    → Synchronized (suc (suc (suc n))) p
synchronize-ends zero p placed enough =
    let at_peek = advance-eof p placed (omega arith) in
    synchronize-step 2 p (
      synchronize-step 1 (advance p) (
        synchronize-at_eof 0 (advance (advance p))
          (ap (λ t. t.type_of) (advance-cur (advance p)) ∙ at_peek)))
synchronize-ends (suc n) p placed enough =
    let (further, still, same) = advance-forward p placed in
    synchronize-step (suc (suc (suc n))) p
      (synchronize-ends n (advance p) still (omega (ap length same, further, enough, arith)))

-- A `let` with no name behind it.
pub record IsBareLet (p : Parser) : Type 0 where
  pub at_let : p.cur.type_of ≡ Token.let_kw
  pub no_fields : same_type p.peek.type_of Token.lbrace ≡ false
  pub no_name : same_type p.peek.type_of Token.ident ≡ false
  pub no_keyword : is_keyword_token p.peek.type_of ≡ false

-- `peekError(TOKEN_IDENT)`
complain : Parser → Parser
complain p = record p {
  errors =
      p.errors
      ++ (record {
        line = p.peek.line;
        col = p.peek.col;
        message = expected_next Token.ident p.peek.type_of;
      }
          ∷ []);
}

complain-IsBareLet : (p : Parser) → IsBareLet p → IsBareLet (complain p)
unfolding complain
complain-IsBareLet p h = record {
  at_let = h.at_let;
  no_fields = h.no_fields;
  no_name = h.no_name;
  no_keyword = h.no_keyword;
}

bare_let-no_eof : (p : Parser) → IsBareLet p → same_type p.cur.type_of Token.eof ≡ false
unfolding same_type spelling
bare_let-no_eof p h = rw (h.at_let) refl

length-grows : (es : List Error) (e : Error) → ltb (length es) (length (es ++ (e ∷ []))) ≡ true
length-grows es e = lt→ltb _ _ (omega (length-append es (e ∷ []), arith))

module _ (read_inline : Lexer → Inline × Lexer) (to_lower : Bytes → Bytes)
    (float_ok : Bytes → Bool) where
  parse_statement-bare_let :
      (f : ℕ) (p : Parser)
      → IsBareLet p
      → parse_statement read_inline to_lower float_ok (suc f) p ≡ done nil_stmt (complain p)
  unfolding parse_statement complain stmt_fn_of run_stmt parse_let same_type
  parse_statement-bare_let f p h =
      simp (ap stmt_fn_of (h.at_let), h.no_fields, h.no_name, h.no_keyword)

  parse_checked-bare_let :
      (f : ℕ) (p : Parser)
      → IsBareLet p
      → parse_checked read_inline to_lower float_ok (suc f) p ≡ done (nil_stmt, true) (complain p)
  unfolding parse_checked complain
  parse_checked-bare_let f p h = simp (parse_statement-bare_let f p h, length-grows p.errors _)

  synchronize-bare_let : (f : ℕ) (p : Parser) → IsBareLet p → synchronize (suc f) p ≡ done tt p
  unfolding synchronize is_sync same_type spelling
  synchronize-bare_let f p h = simp (h.at_let)

  -- In front of a `let` with no name behind it, `ParseProgram` does not end: no fuel is enough. The
  -- statement fails where it stands, `let` is a token at which `synchronize` stops, and the next round
  -- begins at the same two tokens.
  pub parse_program-stuck :
      (f : ℕ) (p : Parser)
      → IsBareLet p
      → parse_program read_inline to_lower float_ok f p ≡ out_of_fuel
  unfolding parse_program parse_checked parse_statement
  parse_program-stuck zero p h = refl
  parse_program-stuck (suc zero) p h = simp (bare_let-no_eof p h)
  parse_program-stuck (suc (suc f)) p h = simp (
    bare_let-no_eof p h,
    parse_checked-bare_let f p h,
    synchronize-bare_let f (complain p) (complain-IsBareLet p h),
    parse_program-stuck (suc f) (complain p) (complain-IsBareLet p h),
  )

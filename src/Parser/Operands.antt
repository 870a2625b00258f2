-- ===== src/Parser/Operands.antt =====
-- The operands of compiler/parser_expr.go with function literals (compiler/parser_functions.go) and
-- `await` (compiler/parser_controlflow.go), over the parsers of expressions and blocks.
use serv_lang.Prelude.{
  ℕ, Bool, ◌&&◌, List, [], ◌∷◌, Option, none, some, Bytes, codes, if◌then◌else◌,
}
use serv_lang.Prelude.Int.{ℤ}
use serv_lang.Lexer.Token
use serv_lang.Lexer.Token.{Token, TokenType, same_type, is_keyword_token}
use serv_lang.Parser.Ast.{
  Expr, nil_expr, identifier, text, f_string, duration, integer, float, nil_literal, self_expr,
  boolean, prefix_expr, call, await, assert_expr, map_literal, struct_literal, fn_literal, no_exprs,
  cons_expr, Block,
}
use serv_lang.Parser.State.{
  Parser, P, done, panics, pure, ◌>>=◌, ◌>>◌, choose, next, cur_token, peek_is, retype, add_error,
  needs, no_prefix, not_integer, not_float,
}
use serv_lang.Parser.Lists.{parse_array, parse_expression_list}
use serv_lang.Parser.Entries.{parse_map_entries, parse_struct_literal, literal_or_nil}
use serv_lang.Parser.Operators.{parse_spawn, call_token}
use serv_lang.Parser.Types.{parse_params, parse_names}
use serv_lang.Parser.Tables.{
  lowest, product_level, PrefixFn, prefix_fn_of, identifier_fn, integer_fn, float_fn, string_fn,
  duration_fn, map_fn, array_fn, grouped_fn, f_string_fn, stream_fn, assert_fn, nil_fn, self_fn,
  await_fn, spawn_fn, fn_fn, prefix_fn, named_fn, boolean_fn, is_generic_ahead,
  is_struct_literal_ahead, parse_int,
}

-- The look ahead of `parseIdentifier`.
pub data Ahead : Type 0 where
  generic_call generic_struct no_generic : Ahead

-- The name that a keyword stands for in an expression, its own text where none is given.
abbrev pub named : Token → Bytes → Bytes
named tok [] = tok.literal
named tok (c ∷ cs) = c ∷ cs

unfoldable pub after_identifier : Parser → Ahead
unfolding is_generic_ahead
after_identifier p =
    if same_type p.peek.type_of Token.lbracket
    then if is_generic_ahead Token.lparen 20 0 p.lexer
      then generic_call
      else if is_generic_ahead Token.lbrace 20 0 p.lexer
      then generic_struct
      else no_generic
    else no_generic

unfoldable pub struct_ahead : Parser → Bool
unfolding is_struct_literal_ahead
struct_ahead p = same_type p.peek.type_of Token.lbrace && is_struct_literal_ahead p.lexer

abbrev pub by_ahead : Ahead → P Expr → P Expr → P Expr → P Expr
by_ahead generic_call m n k = m
by_ahead generic_struct m n k = n
by_ahead no_generic m n k = k

-- `.(*StructLiteral)` on a nil interface panics.
abbrev pub with_type_args : List Bytes → Expr → P Expr
with_type_args types (struct_literal tok name _ fields) =
    pure (struct_literal tok name types fields)
with_type_args types _ = λ p. panics

abbrev pub integer_or_error : Token → Option ℤ → P Expr
integer_or_error tok (some n) = pure (integer tok n)
integer_or_error tok none = add_error (not_integer tok.literal) >> pure nil_expr

module _ (parse_block : P Block) (float_ok : Bytes → Bool) (expr : ℕ → P Expr) where
  -- A name, or the struct literal that it begins.
  unfoldable pub parse_name : ℕ → Token → P Expr
  unfolding struct_ahead parse_struct_literal
  parse_name f tok = do
    begins ← (λ p. done (struct_ahead p) p)
    choose begins (do next; parse_struct_literal expr f tok.literal)
        (pure (identifier tok tok.literal))

  unfoldable pub parse_identifier : ℕ → P Expr
  unfolding after_identifier parse_names parse_name parse_struct_literal parse_expression_list
  parse_identifier f = do
    tok ← cur_token
    look ← (λ p. done (after_identifier p) p)
    by_ahead look
        (do
          next
          types ← parse_names Token.rbracket f
          next
          opens ← peek_is Token.lparen
          choose opens
              (do
                next
                at ← cur_token
                args ← parse_expression_list expr f Token.rparen
                pure (call at (identifier tok tok.literal) types args))
              (parse_name f tok))
        (do
          next
          types ← parse_names Token.rbracket f
          next
          opens ← peek_is Token.lbrace
          choose opens
              (do next; made ← parse_struct_literal expr f tok.literal; with_type_args types made)
              (parse_name f tok))
        (parse_name f tok)

  unfoldable pub run_prefix : ℕ → PrefixFn → P Expr
  unfolding parse_identifier parse_params parse_map_entries parse_array parse_spawn parse_int
  run_prefix f identifier_fn = parse_identifier f
  run_prefix f integer_fn = cur_token >>= λ tok. integer_or_error tok (parse_int tok.literal)
  run_prefix f float_fn = cur_token >>= λ tok.
      choose (float_ok tok.literal) (pure (float tok))
        (add_error (not_float tok.literal) >> pure nil_expr)
  run_prefix f string_fn = cur_token >>= λ tok. pure (text tok tok.literal)
  run_prefix f duration_fn = cur_token >>= λ tok. pure (duration tok tok.literal)
  run_prefix f f_string_fn = cur_token >>= λ tok. pure (f_string tok tok.literal)
  run_prefix f (named_fn name) = cur_token >>= λ tok. pure (identifier tok (named tok name))
  run_prefix f (boolean_fn b) = cur_token >>= λ tok. pure (boolean tok b)
  run_prefix f nil_fn = cur_token >>= λ tok. pure (nil_literal tok)
  run_prefix f self_fn = cur_token >>= λ tok. pure (self_expr tok)
  run_prefix f map_fn = do
    tok ← cur_token
    entries ← parse_map_entries expr f
    pure (literal_or_nil tok entries map_literal)
  run_prefix f array_fn = parse_array expr f
  run_prefix f grouped_fn = do next; e ← expr lowest; needs Token.rparen nil_expr (pure e)
  run_prefix f stream_fn = do
    tok ← cur_token
    next
    e ← expr product_level
    pure (call (call_token tok) (identifier tok (codes "stream")) [] (cons_expr e no_exprs))
  run_prefix f assert_fn = do tok ← cur_token; next; e ← expr lowest; pure (assert_expr tok e)
  run_prefix f await_fn = do tok ← cur_token; next; e ← expr lowest; pure (await tok e)
  run_prefix f spawn_fn = parse_spawn expr
  run_prefix f fn_fn = do
    tok ← cur_token
    needs Token.lparen nil_expr do
      params ← parse_params f
      needs Token.rparen nil_expr
          (needs Token.lbrace nil_expr do body ← parse_block; pure (fn_literal tok params body))
  run_prefix f prefix_fn = do
    tok ← cur_token
    next
    e ← expr product_level
    pure (prefix_expr tok tok.literal e)

  unfoldable pub choose_operand : ℕ → Token → Option PrefixFn → P Expr
  unfolding run_prefix parse_identifier
  choose_operand f tok (some fn) = run_prefix f fn
  choose_operand f tok none =
      choose (is_keyword_token tok.type_of) (retype Token.ident >> parse_identifier f)
        (add_error (no_prefix tok.type_of) >> pure nil_expr)

  -- The operand at the current token, by its prefix function; a keyword without one is a name.
  unfoldable pub parse_operand : ℕ → P Expr
  unfolding choose_operand prefix_fn_of
  parse_operand f = do tok ← cur_token; choose_operand f tok (prefix_fn_of tok.type_of)

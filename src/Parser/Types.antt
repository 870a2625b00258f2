-- ===== src/Parser/Types.antt =====
-- `parseTypeAnnotation` of compiler/parser_types.go, and the lists of names, parameters and type
-- parameters that the parser reads in several places. Each call costs a unit of fuel.
use serv_lang.Prelude.{ℕ, zero, suc, List, [], ◌∷◌, ◌++◌, Bytes, codes, if◌then◌else◌}
use serv_lang.Lexer.Token.{
  TokenType, ident, lbracket, rbracket, question, pipe, comma, colon, rparen,
}
use serv_lang.Parser.Ast.{Params}
use serv_lang.Parser.State.{
  P, out_of_fuel, pure, ◌>>=◌, ◌>>◌, choose, next, literal_here, cur_is, peek_is, expect_peek,
  more_until, skip_comma,
}

-- `strings.Join(args, ", ")`
unfoldable pub join_args : List Bytes → Bytes
join_args [] = []
join_args (a ∷ []) = a
join_args (a ∷ b ∷ rest) = a ++ (codes ", " ++ join_args (b ∷ rest))

unfoldable mutual
  unfolding join_args

  pub parse_type_annotation : ℕ → P Bytes
  parse_type_annotation zero = λ p. out_of_fuel
  parse_type_annotation (suc f) = do
    bracket ← cur_is lbracket
    array ← peek_is rbracket
    base ← literal_here
    named ←
        choose bracket
          (choose array
            (do next; next; element ← literal_here; parse_generic f (codes "[]" ++ element))
            (pure base))
          (parse_generic f base)
    optional ← peek_is question
    full ← choose optional (next >> pure (named ++ codes "?")) (pure named)
    union ← peek_is pipe
    choose union
        (do next; next; right ← parse_type_annotation f; pure (full ++ (codes "|" ++ right)))
        (pure full)

  -- The type arguments behind a name.
  pub parse_generic : ℕ → Bytes → P Bytes
  parse_generic zero base = λ p. out_of_fuel
  parse_generic (suc f) base = do
    generic ← peek_is lbracket
    choose generic
        (do
          next
          args ← parse_type_args f
          closed ← expect_peek rbracket
          pure (if closed then base ++ (codes "[" ++ (join_args args ++ codes "]")) else base))
        (pure base)

  pub parse_type_args : ℕ → P (List Bytes)
  parse_type_args zero = λ p. out_of_fuel
  parse_type_args (suc f) = do
    more ← more_until rbracket
    choose more
        (do
          next
          arg ← parse_type_annotation f
          skip_comma
          rest ← parse_type_args f
          pure (arg ∷ rest))
        (pure [])

-- Identifiers up to an end, with optional commas; other tokens are skipped.
unfoldable pub parse_names : TokenType → ℕ → P (List Bytes)
parse_names end zero = λ p. out_of_fuel
parse_names end (suc f) = do
  more ← more_until end
  choose more
      (do
        next
        named ← cur_is ident
        name ← literal_here
        skip_comma
        rest ← parse_names end f
        pure (if named then name ∷ rest else rest))
      (pure [])

-- `: type` behind a parameter, or nothing.
unfoldable pub parse_optional_type : ℕ → P Bytes
unfolding parse_type_annotation
parse_optional_type f = do
  typed ← peek_is colon
  choose typed (do next; next; parse_type_annotation f) (pure [])

-- The parameter at the current token and those behind commas.
unfoldable pub parse_params_from : ℕ → P Params
unfolding parse_optional_type
parse_params_from zero = λ p. out_of_fuel
parse_params_from (suc f) = do
  name ← literal_here
  type ← parse_optional_type f
  more ← peek_is comma
  choose more (do next; next; rest ← parse_params_from f; pure ((name, type) ∷ rest))
      (pure ((name, type) ∷ []))

-- Parameters, none in front of a closing parenthesis.
unfoldable pub parse_params : ℕ → P Params
unfolding parse_params_from
parse_params f = do
  none_there ← peek_is rparen
  choose none_there (pure []) (do next; parse_params_from f)

-- Type parameters with their constraints, empty where none is written, up to the bracket.
unfoldable pub parse_type_params : ℕ → P Params
parse_type_params zero = λ p. out_of_fuel
parse_type_params (suc f) = do
  more ← more_until rbracket
  choose more
      (do
        next
        named ← cur_is ident
        name ← literal_here
        constrained ← peek_is colon
        constraint ←
            choose named (choose constrained (do next; next; literal_here) (pure [])) (pure [])
        skip_comma
        rest ← parse_type_params f
        pure (if named then (name, constraint) ∷ rest else rest))
      (pure [])

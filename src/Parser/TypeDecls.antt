-- ===== src/Parser/TypeDecls.antt =====
-- The declarations of types of compiler/parser_types.go, over the parser of expressions. Loops run on
-- fuel.
use serv_lang.Prelude.{
  ℕ, zero, suc, ◌||◌, List, [], ◌∷◌, Option, none, some, Bytes, equal, codes, if◌then◌else◌,
}
use serv_lang.Lexer.Token
use serv_lang.Lexer.Token.{Token, TokenType, same_type, is_keyword_token}
use serv_lang.Parser.Ast.{
  Params, Expr, Entries, no_entries, pair_entry, Stmt, nil_stmt, struct_decl, interface_decl,
  enum_stmt, type_alias, validate_stmt,
}
use serv_lang.Parser.State.{
  P, out_of_fuel, pure, ◌>>=◌, ◌>>◌, choose, next, cur_token, literal_here, peek_is, retype,
  add_error, needs, more_until, skip_comma, expected_struct_field, expected_fn,
}
use serv_lang.Parser.Types.{parse_type_annotation}
use serv_lang.Parser.Tables.{lowest}
use serv_lang.Parser.Decls.{parse_type_param_list, given}

abbrev pub cons_or {ℓ} : {A : Type ℓ} → A → Option (List A) → Option (List A)
cons_or a none = none
cons_or a (some rest) = some (a ∷ rest)

-- The fields of a struct up to its closing brace; `none` behind an error.
unfoldable pub parse_decl_fields : ℕ → P (Option Params)
unfolding parse_type_annotation
parse_decl_fields zero = λ p. out_of_fuel
parse_decl_fields (suc f) = do
  more ← more_until Token.rbrace
  choose more
      (do
        next
        tok ← cur_token
        choose (same_type tok.type_of Token.ident || is_keyword_token tok.type_of)
            (do
              retype Token.ident
              needs Token.colon none do
                next
                type ← parse_type_annotation f
                skip_comma
                rest ← parse_decl_fields f
                pure (cons_or (tok.literal, type) rest))
            (do add_error (expected_struct_field tok.type_of); pure none))
      (needs Token.rbrace none (pure (some [])))

unfoldable pub parse_struct : ℕ → P Stmt
unfolding parse_decl_fields parse_type_param_list
parse_struct f = do
  tok ← cur_token
  needs Token.ident nil_stmt do
    name ← literal_here
    type_params ← parse_type_param_list f
    given type_params λ ts.
        needs Token.lbrace nil_stmt
          do fields ← parse_decl_fields f; given fields λ fs. pure (struct_decl tok name ts fs)

-- A word behind one of two tokens, or nothing: types in an interface are single words.
unfoldable pub parse_word_behind : TokenType → P Bytes
parse_word_behind t = do there ← peek_is t; choose there (do next; next; literal_here) (pure [])

unfoldable pub parse_method_params : ℕ → P Params
unfolding parse_word_behind
parse_method_params zero = λ p. out_of_fuel
parse_method_params (suc f) = do
  name ← literal_here
  type ← parse_word_behind Token.colon
  more ← peek_is Token.comma
  choose more (do next; next; rest ← parse_method_params f; pure ((name, type) ∷ rest))
      (pure ((name, type) ∷ []))

-- The methods of an interface up to its closing brace; `none` behind an error.
unfoldable pub parse_methods : ℕ → P (Option (List (Bytes × Params × Bytes)))
unfolding parse_method_params parse_word_behind
parse_methods zero = λ p. out_of_fuel
parse_methods (suc f) = do
  more ← more_until Token.rbrace
  choose more
      (do
        next
        tok ← cur_token
        choose (same_type tok.type_of Token.fn)
            (needs Token.ident none do
              name ← literal_here
              needs Token.lparen none do
                bare ← peek_is Token.rparen
                params ← choose bare (pure []) (do next; parse_method_params f)
                needs Token.rparen none do
                  type ← parse_word_behind Token.ret_arrow
                  rest ← parse_methods f
                  pure (cons_or (name, params, type) rest))
            (do add_error (expected_fn tok.type_of); pure none))
      (needs Token.rbrace none (pure (some [])))

unfoldable pub parse_interface : ℕ → P Stmt
unfolding parse_methods
parse_interface f = do
  tok ← cur_token
  needs Token.ident nil_stmt do
    name ← literal_here
    needs Token.lbrace nil_stmt
        do methods ← parse_methods f; given methods λ ms. pure (interface_decl tok name ms)

unfoldable pub parse_alias : ℕ → P Stmt
unfolding parse_type_annotation
parse_alias f = do
  tok ← cur_token
  needs Token.ident nil_stmt do
    name ← literal_here
    needs Token.assign nil_stmt
        do next; base ← parse_type_annotation f; pure (type_alias tok name base)

-- The keys that `validate { … }` requires, and those that it allows; `none` behind an error.
unfoldable pub add_key : Bytes → Bytes → List Bytes × List Bytes → List Bytes × List Bytes
unfolding equal
add_key kind key (required, allowed) =
    if equal kind (codes "required")
    then (key ∷ required, allowed)
    else if equal kind (codes "optional")
    then (required, key ∷ allowed)
    else (required, allowed)

abbrev pub add_key_or :
    Bytes → Bytes → Option (List Bytes × List Bytes) → Option (List Bytes × List Bytes)
add_key_or kind key none = none
add_key_or kind key (some ks) = some (add_key kind key ks)

unfoldable pub parse_keys : ℕ → P (Option (List Bytes × List Bytes))
unfolding add_key
parse_keys zero = λ p. out_of_fuel
parse_keys (suc f) = do
  more ← more_until Token.rbrace
  choose more
      (do
        next
        tok ← cur_token
        choose (same_type tok.type_of Token.ident)
            (needs Token.string none do
              key ← literal_here
              skip_comma
              rest ← parse_keys f
              pure (add_key_or tok.literal key rest))
            (do skip_comma; parse_keys f))
      (needs Token.rbrace none (pure (some ([], []))))

unfoldable pub parse_validate : ℕ → P Stmt
unfolding parse_keys
parse_validate f = do
  tok ← cur_token
  needs Token.lbrace nil_stmt
      do keys ← parse_keys f; given keys λ ks. pure (validate_stmt tok ks.0 ks.1)

-- The names of the members of an enum, and the values that are written.
abbrev pub Members : Type 0
Members = List Bytes × Entries

module _ (expr : ℕ → P Expr) where
  unfoldable pub parse_members : ℕ → P Members
  parse_members zero = λ p. out_of_fuel
  parse_members (suc f) = do
    more ← more_until Token.rbrace
    choose more
        (do
          next
          tok ← cur_token
          valued ← peek_is Token.assign
          choose (same_type tok.type_of Token.ident)
              (choose valued
                (do
                  next
                  next
                  v ← expr lowest
                  skip_comma
                  rest ← parse_members f
                  pure (tok.literal ∷ rest.0, pair_entry tok.literal v rest.1))
                (do skip_comma; rest ← parse_members f; pure (tok.literal ∷ rest.0, rest.1)))
              (do skip_comma; parse_members f))
        (pure ([], no_entries))

  unfoldable pub parse_enum : ℕ → P Stmt
  unfolding parse_members
  parse_enum f = do
    tok ← cur_token
    needs Token.ident nil_stmt do
      name ← literal_here
      needs Token.lbrace nil_stmt do
        members ← parse_members f
        needs Token.rbrace nil_stmt (pure (enum_stmt tok name members.0 members.1))

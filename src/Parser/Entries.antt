-- ===== src/Parser/Entries.antt =====
-- Struct and map literals of compiler/parser_expr.go, over the parser of expressions. Loops run on
-- fuel.
use serv_lang.Prelude.{ℕ, zero, suc, not, ◌&&◌, ◌||◌, [], Option, none, some, Bytes}
use serv_lang.Lexer.Token
use serv_lang.Lexer.Token.{Token, TokenType, same_type, is_keyword_token}
use serv_lang.Parser.Ast.{
  Expr, nil_expr, identifier, struct_literal, Entries, no_entries, pair_entry, spread_entry,
}
use serv_lang.Parser.State.{
  P, out_of_fuel, pure, ◌>>=◌, ◌>>◌, choose, next, cur_token, peek_is, add_error, needs, more_until,
  skip_comma, expected_field, expected_key,
}
use serv_lang.Parser.Tables.{lowest}

abbrev pub literal_or_nil : Token → Option Entries → (Token → Entries → Expr) → Expr
literal_or_nil tok none make = nil_expr
literal_or_nil tok (some es) make = make tok es

-- The rest of an entry list behind its first entry.
abbrev pub cons_pair : Bytes → Expr → Option Entries → Option Entries
cons_pair key e none = none
cons_pair key e (some es) = some (pair_entry key e es)

abbrev pub cons_spread : Expr → Option Entries → Option Entries
cons_spread e none = none
cons_spread e (some es) = some (spread_entry e es)

module _ (expr : ℕ → P Expr) where
  -- The fields, and the closing brace; `none` behind an error.
  unfoldable pub parse_struct_fields : ℕ → P (Option Entries)
  parse_struct_fields zero = λ p. out_of_fuel
  parse_struct_fields (suc f) = do
    more ← more_until Token.rbrace
    choose more
        (do
          next
          field ← cur_token
          choose (same_type field.type_of Token.ident)
              (needs Token.colon none do
                next
                e ← expr lowest
                skip_comma
                rest ← parse_struct_fields f
                pure (cons_pair field.literal e rest))
              (add_error (expected_field field.type_of) >> pure none))
        (needs Token.rbrace none (pure (some no_entries)))

  unfoldable pub parse_struct_literal : ℕ → Bytes → P Expr
  unfolding parse_struct_fields
  parse_struct_literal f name = do
    tok ← cur_token
    fields ← parse_struct_fields f
    pure (literal_or_nil tok fields (λ t. struct_literal t name []))

  unfoldable mutual
    pub parse_map_entries : ℕ → P (Option Entries)
    parse_map_entries zero = λ p. out_of_fuel
    parse_map_entries (suc f) = do
      more ← more_until Token.rbrace
      choose more (next >> parse_map_entry f) (needs Token.rbrace none (pure (some no_entries)))

    -- The entry at the current token, and those behind it.
    pub parse_map_entry : ℕ → P (Option Entries)
    parse_map_entry zero = λ p. out_of_fuel
    parse_map_entry (suc f) = do
      key ← cur_token
      colon_next ← peek_is Token.colon
      choose (same_type key.type_of Token.spread)
          (do
            next
            e ← expr lowest
            skip_comma
            rest ← parse_map_entries f
            pure (cons_spread e rest))
          (choose (same_type key.type_of Token.string || same_type key.type_of Token.ident)
            (choose (same_type key.type_of Token.ident && not colon_next)
              (do
                skip_comma
                rest ← parse_map_entries f
                pure (cons_pair key.literal (identifier key key.literal) rest))
              (needs Token.colon none do
                next
                e ← expr lowest
                skip_comma
                rest ← parse_map_entries f
                pure (cons_pair key.literal e rest)))
            (add_error (expected_key key.type_of) >> pure none))

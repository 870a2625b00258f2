-- ===== src/Parser/Schemas.antt =====
-- `cors` and `table` of compiler/parser_services.go. Loops run on fuel.
use serv_lang.Prelude.{
  ℕ, zero, suc, Bool, true, false, ◌&&◌, ◌||◌, List, [], ◌∷◌, Option, none, some, Bytes, codes,
  equal, if◌then◌else◌,
}
use serv_lang.Lexer.Token
use serv_lang.Lexer.Token.{Token, TokenType, same_type, is_keyword_token}
use serv_lang.Parser.Ast.{Column, Stmt, nil_stmt, table_decl, cors_stmt}
use serv_lang.Parser.State.{
  P, done, out_of_fuel, pure, ◌>>=◌, ◌>>◌, choose, next, cur_token, literal_here, cur_is, add_error,
  expect_peek, needs, more_until, skip_comma, expected_origins, bad_origins,
}
use serv_lang.Parser.Decls.{given}

-- `p.curToken.Type == TOKEN_RBRACE || p.curToken.Type == TOKEN_EOF`
abbrev pub at_close : P Bool
at_close = λ p. done (same_type p.cur.type_of Token.rbrace || same_type p.cur.type_of Token.eof) p

-- The names behind `cors { origins: … }`.
unfoldable pub parse_origin_list : ℕ → P (List Bytes)
parse_origin_list zero = λ p. out_of_fuel
parse_origin_list (suc f) = do
  more ← more_until Token.rbracket
  choose more
      (do
        next
        tok ← cur_token
        skip_comma
        rest ← parse_origin_list f
        pure (if same_type tok.type_of Token.string then tok.literal ∷ rest else rest))
      (pure [])

unfoldable pub parse_origins : ℕ → P (Option (List Bytes))
unfolding parse_origin_list
parse_origins f = do
  tok ← cur_token
  choose (same_type tok.type_of Token.lbracket)
      (do names ← parse_origin_list f; needs Token.rbracket none (pure (some names)))
      (choose (same_type tok.type_of Token.string) (pure (some (tok.literal ∷ [])))
        (add_error bad_origins >> pure none))

unfoldable pub parse_cors : ℕ → P Stmt
unfolding parse_origins equal
parse_cors f = do
  tok ← cur_token
  needs Token.lbrace nil_stmt do
    named ← expect_peek Token.ident
    word ← literal_here
    choose (named && equal word (codes "origins"))
        (needs Token.colon nil_stmt do
          next
          origins ← parse_origins f
          given origins λ names. needs Token.rbrace nil_stmt (pure (cors_stmt tok names)))
        (add_error expected_origins >> pure nil_stmt)

-- A column of a table before its annotations.
abbrev pub plain_column : Bytes → Bytes → Column
plain_column name type = record {
  column_name = name;
  column_type = type;
  primary = false;
  autoincrement = false;
  required = false;
  unique = false;
  default_value = none;
}

-- `strings.ToLower` is a parameter.
module _ (to_lower : Bytes → Bytes) where
  -- `@default(value)`, the current token behind `default`.
  unfoldable pub parse_default : Column → P Column
  parse_default col = do
    opens ← cur_is Token.lparen
    choose opens
        (do
          next
          value ← literal_here
          next
          closes ← cur_is Token.rparen
          choose closes next (pure tt)
          pure (record col { default_value = some value }))
        (pure col)

  unfoldable pub annotate : Bytes → Column → Column
  unfolding equal
  annotate word col =
      if equal word (codes "primary")
      then record col { primary = true }
      else if equal word (codes "autoincrement")
      then record col { autoincrement = true }
      else if equal word (codes "required")
      then record col { required = true }
      else if equal word (codes "unique")
      then record col { unique = true }
      else col

  unfoldable pub parse_annotations : ℕ → Column → P Column
  unfolding parse_default annotate equal
  parse_annotations zero col = λ p. out_of_fuel
  parse_annotations (suc f) col = do
    annotated ← cur_is Token.macro
    choose annotated
        (do
          next
          closed ← at_close
          word ← literal_here
          choose closed (pure col) (
              choose (equal (to_lower word) (codes "default"))
                (do next; changed ← parse_default col; parse_annotations f changed)
                (do next; parse_annotations f (annotate (to_lower word) col))))
        (pure col)

  unfoldable pub parse_columns : ℕ → P (List Column)
  unfolding parse_annotations
  parse_columns zero = λ p. out_of_fuel
  parse_columns (suc f) = do
    closed ← at_close
    choose closed (pure []) (do
      name ← literal_here
      next
      orphan ← at_close
      choose orphan (pure []) (do
        type ← literal_here
        next
        col ← parse_annotations f (plain_column name type)
        rest ← parse_columns f
        pure (col ∷ rest)))

  unfoldable pub parse_table : ℕ → P Stmt
  unfolding parse_columns
  parse_table f = do
    tok ← cur_token
    needs Token.ident nil_stmt do
      name ← literal_here
      needs Token.lbrace nil_stmt
          do next; columns ← parse_columns f; pure (table_decl tok name columns)

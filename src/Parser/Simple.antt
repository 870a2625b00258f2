-- ===== src/Parser/Simple.antt =====
-- The other statements of compiler/parser_stmt.go, over the parsers of expressions, blocks and statements. Loops run on fuel.
use serv_lang.Prelude.{
  ℕ, zero, suc, ◌-◌, not, ◌&&◌, ◌||◌, List, [], ◌∷◌, ◌++◌, Option, none, some, Bytes, equal, codes,
  length, take, drop, leb, ltb, if◌then◌else◌,
}
use serv_lang.Lexer.Token
use serv_lang.Lexer.Token.{Token, TokenType, same_type, is_keyword_token}
use serv_lang.Parser.Ast.{
  Expr, nil_expr, Block, Stmts, Stmt, nil_stmt, let_stmt, destructure_let, test_stmt, mock_stmt,
  publish_stmt, spawn_stmt, version_block,
}
use serv_lang.Parser.State.{
  P, done, out_of_fuel, pure, ◌>>=◌, ◌>>◌, choose, next, cur_token, literal_here, cur_is, peek_is,
  add_error, peek_error, needs, expected_version_end,
}
use serv_lang.Parser.Types.{parse_type_annotation, parse_names}
use serv_lang.Parser.Tables.{lowest}
use serv_lang.Parser.Decls.{given}
use serv_lang.Parser.TypeDecls.{cons_or}

-- The names behind the first of a `let`; `none` behind an error.
unfoldable pub parse_more_names : ℕ → P (Option (List Bytes))
parse_more_names zero = λ p. out_of_fuel
parse_more_names (suc f) = do
  more ← peek_is Token.comma
  choose more
      (do
        next
        needs Token.ident none
            do name ← literal_here; rest ← parse_more_names f; pure (cons_or name rest))
      (pure (some []))

-- The type of a `let` of one name.
unfoldable pub parse_let_type : ℕ → List Bytes → P Bytes
unfolding parse_type_annotation
parse_let_type f [] = do
  typed ← peek_is Token.colon
  choose typed (do next; next; parse_type_annotation f) (pure [])
parse_let_type f (_ ∷ _) = pure []

module _ (expr : ℕ → P Expr) where
  unfoldable pub parse_let : ℕ → P Stmt
  unfolding parse_names parse_more_names parse_let_type
  parse_let f = do
    tok ← cur_token
    destructures ← peek_is Token.lbrace
    choose destructures
        (do
          next
          fields ← parse_names Token.rbrace f
          needs Token.rbrace nil_stmt (
              needs Token.assign nil_stmt
                do next; v ← expr lowest; pure (destructure_let tok fields v)))
        (needs Token.ident nil_stmt do
          name ← literal_here
          more ← parse_more_names f
          given more λ names. do
            type ← parse_let_type f names
            needs Token.assign nil_stmt
                do next; v ← expr lowest; pure (let_stmt tok (name ∷ names) type v))

  -- `return` and `yield`
  unfoldable pub parse_value_stmt : (Token → Expr → Stmt) → P Stmt
  parse_value_stmt make = do tok ← cur_token; next; v ← expr lowest; pure (make tok v)

  unfoldable pub parse_publish : P Stmt
  parse_publish = do
    tok ← cur_token
    next
    topic ← expr lowest
    next
    v ← expr lowest
    pure (publish_stmt tok topic v)

  unfoldable pub parse_spawn_stmt : P Stmt
  parse_spawn_stmt = do
    tok ← cur_token
    limited ← peek_is Token.lparen
    choose limited
        (do
          next
          next
          limit ← expr lowest
          needs Token.rparen nil_stmt do next; e ← expr lowest; pure (spawn_stmt tok limit e))
        (do next; e ← expr lowest; pure (spawn_stmt tok nil_expr e))

-- The timeout of a test: a bare number counts seconds.
unfoldable pub parse_test_timeout : P Bytes
parse_test_timeout = do
  timed ← peek_is Token.timeout
  choose timed
      (do
        next
        bare ← peek_is Token.int
        next
        t ← literal_here
        pure (if bare then t ++ codes "s" else t))
      (pure [])

-- A version without the quotes that it may still have.
unfoldable pub unquote : Bytes → Bytes
unquote s =
    if leb 2 (length s)
      && equal (take 1 s) (codes "\"")
      && equal (drop (length s - 1) s) (codes "\"")
    then take (length s - 2) (drop 1 s)
    else s

-- The prefix of the routes in a version block.
unfoldable pub extended_prefix : Bytes → Bytes → Bytes
extended_prefix prefix version =
    if ltb 0 (length prefix) && not (equal (drop (length prefix - 1) prefix) (codes "/"))
    then prefix ++ (codes "/" ++ version)
    else prefix ++ version

module _ (expr : ℕ → P Expr) (parse_block : P Block) (parse_stmts : P Stmts) where
  unfoldable pub parse_test : P Stmt
  unfolding parse_test_timeout
  parse_test = do
    tok ← cur_token
    by_name ← peek_is Token.ident
    by_text ← peek_is Token.string
    choose (by_name || by_text)
        (do
          next
          name ← literal_here
          timeout ← parse_test_timeout
          needs Token.lbrace nil_stmt do body ← parse_block; pure (test_stmt tok name timeout body))
        (do peek_error Token.ident; pure nil_stmt)

  -- `beforeEach` and `afterEach`
  unfoldable pub parse_each : (Token → Block → Stmt) → P Stmt
  parse_each make = do
    tok ← cur_token
    needs Token.lbrace nil_stmt do body ← parse_block; pure (make tok body)

  unfoldable pub parse_mock : P Stmt
  parse_mock = do
    tok ← cur_token
    next
    target ← expr lowest
    needs Token.lbrace nil_stmt do body ← parse_block; pure (mock_stmt tok target body)

  abbrev set_prefix : Bytes → P (Unit {0})
  set_prefix prefix = λ p. done tt (record p { version_prefix = prefix })

  unfoldable pub parse_version : P Stmt
  unfolding unquote extended_prefix
  parse_version = do
    tok ← cur_token
    needs Token.string nil_stmt do
      version ← literal_here
      needs Token.lbrace nil_stmt do
        next
        old ← (λ p. done p.version_prefix p)
        set_prefix (extended_prefix old (unquote version))
        ss ← parse_stmts
        set_prefix old
        closed ← cur_is Token.rbrace
        choose closed (pure (version_block tok (unquote version) ss))
            (do add_error expected_version_end; pure nil_stmt)

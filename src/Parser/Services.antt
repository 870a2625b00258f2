-- ===== src/Parser/Services.antt =====
-- Statements of compiler/parser_services.go whose shape is a name, a value or a block, over the parsers
-- of expressions and blocks. Loops run on fuel.
use serv_lang.Prelude.{ℕ, Bool, true, false, not, ◌&&◌, [], Option, none, some, Bytes, codes, equal}
use serv_lang.Semver.Version.{atoi}
use serv_lang.Lexer.Token
use serv_lang.Lexer.Token.{Token, TokenType, same_type, is_keyword_token}
use serv_lang.Parser.Ast.{
  Expr, Block, Limit, Stmt, nil_stmt, app_stmt, mesh_stmt, job_stmt, middleware_decl,
  subscribe_stmt, tool_stmt, server_stmt, export_stmt, rate_limit_stmt, inject_stmt, emit_stmt,
}
use serv_lang.Parser.State.{
  P, done, pure, ◌>>=◌, ◌>>◌, choose, next, cur_token, literal_here, add_bare_error, expect_peek,
  needs, expected_middleware,
}
use serv_lang.Parser.Tables.{lowest}
use serv_lang.Parser.Decls.{given}

-- The value of `tls "cert" "key"` behind `server`; `none` behind an error.
unfoldable pub parse_tls : P (Option (Bool × Bytes × Bytes))
unfolding equal
parse_tls = do
  begins ←
      (λ p. done (same_type p.peek.type_of Token.ident && equal p.peek.literal (codes "tls")) p)
  choose begins
      (do
        next
        needs Token.string none do
          cert ← literal_here
          needs Token.string none do key ← literal_here; pure (some (true, cert, key)))
      (pure (some (false, [], [])))

-- `(name)` of a handler, and its block.
module _ (expr : ℕ → P Expr) (body : P Block) where
  abbrev pub block_behind : (Block → Stmt) → P Stmt
  block_behind make = needs Token.lbrace nil_stmt (body >>= λ b. pure (make b))

  -- `(param) { … }`
  unfoldable pub parse_handler : (Bytes → Block → Stmt) → P Stmt
  parse_handler make = needs Token.lparen nil_stmt (
      needs Token.ident nil_stmt
        do param ← literal_here; needs Token.rparen nil_stmt (block_behind (make param)))

  -- `broker`, `ai`, `auth`, `mail`, `notify`, `store`, `search`, `database` and `cache`
  unfoldable pub parse_value_service : (Token → Expr → Stmt) → P Stmt
  parse_value_service make = do tok ← cur_token; next; v ← expr lowest; pure (make tok v)

  -- `expectPeek(IDENT)`, and `expectPeek(STRING)` where that fails.
  unfoldable pub parse_app : P Stmt
  parse_app = do
    tok ← cur_token
    by_name ← expect_peek Token.ident
    named ← choose by_name (pure true) (expect_peek Token.string)
    choose named (do name ← literal_here; block_behind (app_stmt tok name)) (pure nil_stmt)

  -- A token of a kind that names a block: `migration`, `graphql`, `bucket`, `gate` and `rag`.
  unfoldable pub parse_named_block : TokenType → (Token → Bytes → Block → Stmt) → P Stmt
  parse_named_block t make = do
    tok ← cur_token
    needs t nil_stmt do name ← literal_here; block_behind (make tok name)

  unfoldable pub parse_mesh : P Stmt
  parse_mesh = do tok ← cur_token; block_behind (mesh_stmt tok)

  -- `every`, `cron` and `lock`
  unfoldable pub parse_value_block : (Token → Expr → Block → Stmt) → P Stmt
  parse_value_block make = do tok ← cur_token; next; v ← expr lowest; block_behind (make tok v)

  unfoldable pub parse_job : P Stmt
  parse_job = do
    tok ← cur_token
    needs Token.ident nil_stmt
        do name ← literal_here; next; spec ← literal_here; block_behind (job_stmt tok name spec)

  -- `ws` and `on`
  unfoldable pub parse_path_handler : (Token → Bytes → Bytes → Block → Stmt) → P Stmt
  unfolding parse_handler
  parse_path_handler make = do
    tok ← cur_token
    needs Token.string nil_stmt do path ← literal_here; parse_handler (make tok path)

  unfoldable pub parse_subscribe : P Stmt
  unfolding parse_handler
  parse_subscribe = do
    tok ← cur_token
    next
    topic ← expr lowest
    parse_handler (subscribe_stmt tok topic)

  unfoldable pub parse_tool : P Stmt
  unfolding parse_handler
  parse_tool = do
    tok ← cur_token
    needs Token.string nil_stmt do
      name ← literal_here
      needs Token.string nil_stmt
          do description ← literal_here; parse_handler (tool_stmt tok name description)

  unfoldable pub parse_middleware : P Stmt
  unfolding parse_handler
  parse_middleware = do
    tok ← cur_token
    next
    name ← cur_token
    choose (not (same_type name.type_of Token.ident) && not (is_keyword_token name.type_of))
        (add_bare_error (expected_middleware name.type_of) >> pure nil_stmt)
        (parse_handler (middleware_decl tok name.literal))

  unfoldable pub parse_server : P Stmt
  unfolding parse_tls
  parse_server = do
    tok ← cur_token
    next
    v ← expr lowest
    tls ← parse_tls
    given tls λ t. pure (server_stmt tok v t.0 t.1 t.2)

  unfoldable pub parse_emit : P Stmt
  parse_emit = do
    tok ← cur_token
    needs Token.string nil_stmt
        do event ← literal_here; next; payload ← expr lowest; pure (emit_stmt tok event payload)

-- `rate / period`; `none` behind an error.
unfoldable pub parse_limit : P (Option Limit)
unfolding atoi
parse_limit = needs Token.int none do rate ← literal_here; with_rate (atoi rate)
  where
    with_rate : Option ℕ → P (Option Limit)
    with_rate none = pure none
    with_rate (some n) =
        needs Token.slash none
          (needs Token.ident none do period ← literal_here; pure (some (n, period)))

unfoldable pub parse_rate_limit : P Stmt
unfolding parse_limit
parse_rate_limit = do
  tok ← cur_token
  limit ← parse_limit
  given limit λ l. pure (rate_limit_stmt tok l)

unfoldable pub parse_inject : P Stmt
parse_inject = do
  tok ← cur_token
  needs Token.ident nil_stmt do
    name ← literal_here
    needs Token.colon nil_stmt (
        needs Token.ident nil_stmt
          do interface ← literal_here; pure (inject_stmt tok name interface))

-- `export` and the statement behind it.
unfoldable pub parse_export : P Stmt → P Stmt
parse_export statement = do tok ← cur_token; next; inner ← statement; pure (exported tok inner)
  where
    exported : Token → Stmt → Stmt
    exported tok nil_stmt = nil_stmt
    exported tok s = export_stmt tok s

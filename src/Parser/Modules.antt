-- ===== src/Parser/Modules.antt =====
-- Declared modules and macros of compiler/parser_services.go, and what each service token calls.
use serv_lang.Prelude.{
  ℕ, zero, suc, not, ◌&&◌, ◌||◌, List, [], ◌∷◌, Option, none, some, Bytes, codes, equal,
}
use serv_lang.Lexer.Token
use serv_lang.Lexer.Token.{Token, TokenType, same_type, is_keyword_token}
use serv_lang.Lexer.Cursor.{Lexer}
use serv_lang.Lexer.Next.{next_token}
use serv_lang.Parser.Ast.{
  Params, Expr, Block, ModuleFn, ModuleRoute, Stmt, nil_stmt, broker_stmt, ai_stmt, auth_stmt,
  mail_stmt, notify_stmt, store_stmt, search_stmt, database_stmt, cache_stmt, migration_stmt,
  bucket_stmt, gate_stmt, rag_stmt, graphql_stmt, ws_stmt, on_stmt, every_stmt, cron_stmt,
  lock_stmt, declare_module, macro_stmt, go_inline_fn,
}
use serv_lang.Parser.State.{
  Parser, P, Result, done, out_of_fuel, pure, ◌>>=◌, ◌>>◌, choose, next, cur_token, literal_here,
  peek_is, add_error, add_bare_error, needs, more_until, expected_route_method,
  expected_module_item, expected_inline_fn, inline_error,
}
use serv_lang.Parser.Decls.{given}
use serv_lang.Parser.TypeDecls.{cons_or, parse_word_behind}
use serv_lang.Parser.Services.{
  parse_value_service, parse_app, parse_named_block, parse_mesh, parse_value_block, parse_job,
  parse_path_handler, parse_subscribe, parse_tool, parse_middleware, parse_server, parse_emit,
  parse_rate_limit, parse_inject, parse_export,
}
use serv_lang.Parser.Schemas.{parse_cors, parse_table}
use serv_lang.Parser.Routes.{parse_agent, parse_route, parse_event_store}

-- A name with the word behind a colon.
unfoldable pub parse_word_param : P (Bytes × Bytes)
unfolding parse_word_behind
parse_word_param = do name ← literal_here; type ← parse_word_behind Token.colon; pure (name, type)

-- The parameters behind the first; `none` behind an error.
unfoldable pub parse_more_params : ℕ → P (Option Params)
unfolding parse_word_param
parse_more_params zero = λ p. out_of_fuel
parse_more_params (suc f) = do
  more ← peek_is Token.comma
  choose more
      (do
        next
        needs Token.ident none
            do param ← parse_word_param; rest ← parse_more_params f; pure (cons_or param rest))
      (pure (some []))

-- The parameters up to the closing parenthesis; `none` behind an error.
unfoldable pub parse_module_params : ℕ → P (Option Params)
unfolding parse_more_params parse_word_param
parse_module_params f = do
  bare ← peek_is Token.rparen
  choose bare (pure (some []))
      (do next; param ← parse_word_param; rest ← parse_more_params f; pure (cons_or param rest))

abbrev pub given_or {ℓ κ} : {A : Type ℓ} {B : Type κ} → Option A → B → (A → P B) → P B
given_or none nil k = pure nil
given_or (some a) nil k = k a

unfoldable pub parse_module_fn : ℕ → P (Option ModuleFn)
unfolding parse_module_params parse_word_behind
parse_module_fn f = do
  failable ← peek_is Token.bang
  choose failable next (pure tt)
  needs Token.ident none do
    name ← literal_here
    needs Token.lparen none do
      params ← parse_module_params f
      given_or params none λ ps. needs Token.rparen none do
        type ← parse_word_behind Token.ret_arrow
        pure (
            some (record {
              fn_name = name;
              multi_return = failable;
              fn_params = ps;
              fn_return = type;
            }))

-- The type of the one parameter of a declared route, if it has one.
unfoldable pub parse_route_param : P (List Bytes)
unfolding parse_word_behind
parse_route_param = do
  bare ← peek_is Token.rparen
  choose bare (pure []) (do next; type ← parse_word_behind Token.colon; pure (type ∷ []))

unfoldable pub parse_module_route : P (Option ModuleRoute)
unfolding parse_route_param parse_word_behind
parse_module_route = do
  method_ahead ←
      (λ p. done (same_type p.peek.type_of Token.string || same_type p.peek.type_of Token.ident) p)
  found ← (λ p. done p.peek.type_of p)
  choose method_ahead
      (do
        next
        method ← literal_here
        needs Token.string none do
          path ← literal_here
          needs Token.lparen none do
            types ← parse_route_param
            needs Token.rparen none do
              type ← parse_word_behind Token.ret_arrow
              pure (
                  some (record {
                    method = method;
                    path = path;
                    param_types = types;
                    route_return = type;
                  })))
      (add_error (expected_route_method found) >> pure none)

abbrev pub Items : Type 0
Items = List ModuleFn × List ModuleRoute

abbrev pub with_fn : ModuleFn → Option Items → Option Items
with_fn fn none = none
with_fn fn (some r) = some (fn ∷ r.0, r.1)

abbrev pub with_route : ModuleRoute → Option Items → Option Items
with_route route none = none
with_route route (some r) = some (r.0, route ∷ r.1)

unfoldable pub parse_module_items : ℕ → P (Option Items)
unfolding parse_module_fn parse_module_route
parse_module_items zero = λ p. out_of_fuel
parse_module_items (suc f) = do
  more ← more_until Token.rbrace
  choose more
      (do
        next
        tok ← cur_token
        choose (same_type tok.type_of Token.fn)
            (do
              fn ← parse_module_fn f
              given_or fn none λ x. do rest ← parse_module_items f; pure (with_fn x rest))
            (choose (same_type tok.type_of Token.route)
              (do
                route ← parse_module_route
                given_or route none λ x. do rest ← parse_module_items f; pure (with_route x rest))
              (add_error (expected_module_item tok.type_of) >> pure none)))
      (needs Token.rbrace none (pure (some ([], []))))

unfoldable pub parse_declare : ℕ → P Stmt
unfolding parse_module_items
parse_declare f = do
  tok ← cur_token
  needs Token.module_kw nil_stmt (
      needs Token.string nil_stmt do
        path ← literal_here
        needs Token.lbrace nil_stmt do
          items ← parse_module_items f
          given items λ r. pure (declare_module tok path r.0 r.1))

-- The arguments of a macro behind its opening parenthesis.
unfoldable pub parse_macro_args : ℕ → P (List Bytes)
parse_macro_args zero = λ p. out_of_fuel
parse_macro_args (suc f) = do
  next
  arg ← literal_here
  more ← peek_is Token.comma
  choose more (do next; rest ← parse_macro_args f; pure (arg ∷ rest)) (pure (arg ∷ []))

unfoldable pub parse_macro_rest : ℕ → Token → Bytes → P Stmt
unfolding parse_macro_args
parse_macro_rest f tok name = do
  opens ← peek_is Token.lparen
  choose opens
      (do
        next
        bare ← peek_is Token.rparen
        args ← choose bare (pure []) (parse_macro_args f)
        needs Token.rparen nil_stmt (pure (macro_stmt tok name args)))
      (pure (macro_stmt tok name []))

-- What `ReadGoInlineSignatureAndBody` gives: an error, or a signature and a body.
pub data Inline : Type 0 where
  unreadable : Bytes → Inline
  readable : Bytes → Bytes → Inline

-- `ReadGoInlineSignatureAndBody` of the lexer is a parameter.
module _ (read_inline : Lexer → Inline × Lexer) where
  -- The parser behind a body in Go: a closing brace, and the token that the lexer reads next.
  unfoldable pub behind_inline : Token → Parser → Lexer → Parser
  behind_inline tok p l =
      let brace : Token = record {
        type_of = Token.rbrace;
        literal = codes "}";
        line = tok.line;
        col = tok.col;
      } in
      let (peeked, rest) = next_token l in record p { cur = brace; peek = peeked; lexer = rest }

  unfoldable pub parse_inline_body : Token → Bytes → P Stmt
  unfolding behind_inline
  parse_inline_body tok name = λ p. finish p (read_inline p.lexer)
    where
      finish : Parser → Inline × Lexer → Result Stmt
      finish p (unreadable why, l) =
          (add_bare_error (inline_error why) >> pure nil_stmt) (record p { lexer = l })
      finish p (readable signature go_body, l) =
          done (go_inline_fn tok name signature go_body) (behind_inline tok p l)

  unfoldable pub parse_inline : Token → P Stmt
  unfolding parse_inline_body equal
  parse_inline tok = do
    next
    no_fn ← (λ p.
        done (not (same_type p.peek.type_of Token.fn) && not (equal p.peek.literal (codes "fn"))) p)
    choose no_fn (add_bare_error expected_inline_fn >> pure nil_stmt)
        (do next; needs Token.ident nil_stmt do name ← literal_here; parse_inline_body tok name)

  unfoldable pub parse_macro : ℕ → P Stmt
  unfolding parse_inline parse_macro_rest equal
  parse_macro f = do
    tok ← cur_token
    needs Token.ident nil_stmt do
      name ← literal_here
      go_ahead ← (λ p. done (equal p.peek.literal (codes "go")) p)
      choose (equal name (codes "inline") && go_ahead) (parse_inline tok)
          (parse_macro_rest f tok name)

  module _ (to_lower : Bytes → Bytes) (expr : ℕ → P Expr) (body : P Block)
      (statement : P Stmt) where
    -- The cases of `parseStatement` that compiler/parser_services.go serves.
    unfoldable pub parse_service : ℕ → TokenType → P Stmt
    unfolding parse_value_service parse_app parse_named_block parse_mesh parse_value_block parse_job
        parse_path_handler parse_subscribe parse_tool parse_middleware parse_server parse_emit
        parse_rate_limit parse_inject parse_export parse_cors parse_table parse_agent parse_route
        parse_event_store parse_declare parse_macro
    parse_service f Token.broker = parse_value_service expr body broker_stmt
    parse_service f Token.ai = parse_value_service expr body ai_stmt
    parse_service f Token.auth = parse_value_service expr body auth_stmt
    parse_service f Token.mail = parse_value_service expr body mail_stmt
    parse_service f Token.notify = parse_value_service expr body notify_stmt
    parse_service f Token.store = parse_value_service expr body store_stmt
    parse_service f Token.search = parse_value_service expr body search_stmt
    parse_service f Token.database = parse_value_service expr body database_stmt
    parse_service f Token.cache = parse_value_service expr body cache_stmt
    parse_service f Token.server = parse_server expr body
    parse_service f Token.app = parse_app expr body
    parse_service f Token.agent = parse_agent expr body f
    parse_service f Token.route = parse_route expr body f
    parse_service f Token.tool = parse_tool expr body
    parse_service f Token.every = parse_value_block expr body every_stmt
    parse_service f Token.cron = parse_value_block expr body cron_stmt
    parse_service f Token.lock = parse_value_block expr body lock_stmt
    parse_service f Token.subscribe = parse_subscribe expr body
    parse_service f Token.migration = parse_named_block expr body Token.string migration_stmt
    parse_service f Token.graphql = parse_named_block expr body Token.string graphql_stmt
    parse_service f Token.rag = parse_named_block expr body Token.string rag_stmt
    parse_service f Token.bucket = parse_named_block expr body Token.ident bucket_stmt
    parse_service f Token.gate = parse_named_block expr body Token.ident gate_stmt
    parse_service f Token.table = parse_table to_lower f
    parse_service f Token.inject = parse_inject
    parse_service f Token.macro = parse_macro f
    parse_service f Token.middleware = parse_middleware expr body
    parse_service f Token.declare = parse_declare f
    parse_service f Token.ws = parse_path_handler expr body ws_stmt
    parse_service f Token.on = parse_path_handler expr body on_stmt
    parse_service f Token.mesh = parse_mesh expr body
    parse_service f Token.job = parse_job expr body
    parse_service f Token.event_store = parse_event_store expr body f
    parse_service f Token.emit = parse_emit expr body
    parse_service f Token.export = parse_export statement
    parse_service f Token.cors = parse_cors f
    parse_service f Token.rate_limit = parse_rate_limit
    parse_service f _ = pure nil_stmt

-- ===== src/Parser/Routes.antt =====
-- Agents, routes and event stores of compiler/parser_services.go, over the parsers of expressions and
-- blocks. Loops run on fuel.
use serv_lang.Prelude.{
  ℕ, zero, suc, ◌-◌, Bool, true, false, List, [], ◌∷◌, ◌++◌, Option, none, some, Bytes, codes,
  equal, length, take, drop, if◌then◌else◌,
}
use serv_lang.GoStrings.{has_prefix}
use serv_lang.Lexer.Token
use serv_lang.Lexer.Token.{Token, TokenType, same_type, is_keyword_token}
use serv_lang.Parser.Ast.{
  Expr, identifier, text, array, Exprs, no_exprs, cons_expr, nil_expr, Block, Limit, Agent,
  Commands, no_commands, cons_command, Stmts, no_stmts, cons_stmt, Stmt, nil_stmt, on_stmt,
  route_stmt, agent_decl, event_store_stmt,
}
use serv_lang.Parser.State.{
  P, done, out_of_fuel, pure, ◌>>=◌, ◌>>◌, choose, next, cur_token, literal_here, peek_is, needs,
  more_until, skip_comma,
}
use serv_lang.Parser.Types.{parse_type_annotation}
use serv_lang.Parser.Tables.{lowest}
use serv_lang.Parser.Decls.{given}
use serv_lang.Parser.Imports.{parse_bare_params}
use serv_lang.Parser.Services.{parse_limit, parse_path_handler, block_behind}
use serv_lang.Parser.Schemas.{at_close}

-- The path of a route under the prefix of its version block.
unfoldable pub with_slash : Bytes → Bytes
unfolding has_prefix
with_slash s = if has_prefix s (codes "/") then s else codes "/" ++ s

unfoldable pub trim_slash : Bytes → Bytes
unfolding equal
trim_slash s = if equal (drop (length s - 1) s) (codes "/") then take (length s - 1) s else s

unfoldable pub route_path : Bytes → Bytes → Bytes
unfolding with_slash trim_slash
route_path [] path = path
route_path (c ∷ cs) path = trim_slash (with_slash (c ∷ cs)) ++ with_slash path

unfoldable pub value_text : Expr → Bytes
value_text (text _ s) = s
value_text (identifier _ s) = s
value_text _ = []

unfoldable pub tool_names : Exprs → List Bytes
tool_names no_exprs = []
tool_names (cons_expr (identifier _ s) es) = s ∷ tool_names es
tool_names (cons_expr (text _ s) es) = s ∷ tool_names es
tool_names (cons_expr _ es) = tool_names es

unfoldable pub listed_tools : Expr → List Bytes
unfolding tool_names
listed_tools (array _ es) = tool_names es
listed_tools _ = []

-- An entry `key: value` of an agent.
unfoldable pub set_agent : Bytes → Expr → Agent → Agent
unfolding equal value_text listed_tools
set_agent key v a =
    let more = record a { tools = a.tools ++ listed_tools v } in
    if equal key (codes "system")
    then record more { system = value_text v }
    else if equal key (codes "model")
    then record more { model = value_text v }
    else more

abbrev pub no_agent : Agent
no_agent = record { system = []; model = []; tools = [] }

abbrev pub no_limit : Limit
no_limit = (0, [])

-- `stream` and `-> type` in any order, behind a route.
unfoldable pub parse_route_marks : ℕ → Bool → Bytes → P (Bool × Bytes)
unfolding parse_type_annotation
parse_route_marks zero stream type = λ p. out_of_fuel
parse_route_marks (suc f) stream type = do
  streams ← peek_is Token.stream
  typed ← peek_is Token.ret_arrow
  choose streams (do next; parse_route_marks f true type)
      (choose typed (do next; next; t ← parse_type_annotation f; parse_route_marks f stream t)
        (pure (stream, type)))

module _ (expr : ℕ → P Expr) (body : P Block) where
  unfoldable pub parse_agent_entries : ℕ → Agent → P (Option Agent)
  unfolding set_agent
  parse_agent_entries zero a = λ p. out_of_fuel
  parse_agent_entries (suc f) a = do
    closed ← at_close
    key ← cur_token
    choose closed (pure (some a)) (
        choose (same_type key.type_of Token.ident)
          (needs Token.colon none
            do next; v ← expr lowest; next; parse_agent_entries f (set_agent key.literal v a))
          (do next; parse_agent_entries f a))

  unfoldable pub parse_agent : ℕ → P Stmt
  unfolding parse_agent_entries
  parse_agent f = do
    tok ← cur_token
    needs Token.ident nil_stmt do
      name ← literal_here
      needs Token.lbrace nil_stmt do
        next
        agent ← parse_agent_entries f no_agent
        given agent λ a. pure (agent_decl tok name a)

  -- `use [ … ]` behind a route: the expressions, whose texts are the names.
  unfoldable pub parse_uses : ℕ → P Exprs
  parse_uses zero = λ p. out_of_fuel
  parse_uses (suc f) = do
    more ← more_until Token.rbracket
    choose more (do next; e ← expr lowest; skip_comma; rest ← parse_uses f; pure (used e rest))
        (pure no_exprs)
    where
      used : Expr → Exprs → Exprs
      used nil_expr rest = rest
      used e rest = cons_expr e rest

  unfoldable pub parse_route_limit : P (Option Limit)
  unfolding parse_limit
  parse_route_limit = do
    limited ← peek_is Token.limit
    choose limited (next >> parse_limit) (pure (some no_limit))

  unfoldable pub parse_route_uses : ℕ → P (Option Exprs)
  unfolding parse_uses
  parse_route_uses f = do
    uses ← peek_is Token.use_kw
    choose uses
        (do
          next
          needs Token.lbracket none
              do es ← parse_uses f; needs Token.rbracket none (pure (some es)))
        (pure (some no_exprs))

  unfoldable pub parse_route : ℕ → P Stmt
  unfolding route_path parse_route_limit parse_route_uses parse_route_marks
  parse_route f = do
    tok ← cur_token
    needs Token.string nil_stmt do
      method ← literal_here
      needs Token.string nil_stmt do
        written ← literal_here
        prefix ← (λ p. done p.version_prefix p)
        needs Token.lparen nil_stmt (
            needs Token.ident nil_stmt do
              param ← literal_here
              needs Token.rparen nil_stmt do
                limit ← parse_route_limit
                given limit λ l. do
                  uses ← parse_route_uses f
                  given uses λ es. do
                    marks ← parse_route_marks f false []
                    block_behind expr body (
                        route_stmt tok method (route_path prefix written) param l es marks.0
                          marks.1))

  unfoldable pub parse_command : ℕ → P (Option (Token × Bytes × List Bytes × Block))
  unfolding parse_bare_params
  parse_command f = do
    tok ← cur_token
    needs Token.ident none do
      name ← literal_here
      needs Token.lparen none do
        bare ← peek_is Token.rparen
        params ← choose bare (pure []) (next >> parse_bare_params f)
        needs Token.rparen none
            (needs Token.lbrace none do b ← body; pure (some (tok, name, params, b)))

  abbrev pub with_command :
      Option (Token × Bytes × List Bytes × Block) → Commands × Stmts → Commands × Stmts
  with_command none r = r
  with_command (some (tok, name, params, b)) r = (cons_command tok name params b r.0, r.1)

  abbrev pub with_handler : Stmt → Commands × Stmts → Commands × Stmts
  with_handler nil_stmt r = r
  with_handler s r = (r.0, cons_stmt s r.1)

  unfoldable pub parse_store_items : ℕ → P (Commands × Stmts)
  unfolding parse_command parse_path_handler
  parse_store_items zero = λ p. out_of_fuel
  parse_store_items (suc f) = do
    closed ← at_close
    tok ← cur_token
    choose closed (pure (no_commands, no_stmts)) (
        choose (same_type tok.type_of Token.command)
          (do
            command ← parse_command f
            next
            rest ← parse_store_items f
            pure (with_command command rest))
          (choose (same_type tok.type_of Token.on)
            (do
              handler ← parse_path_handler expr body on_stmt
              next
              rest ← parse_store_items f
              pure (with_handler handler rest))
            (do next; parse_store_items f)))

  unfoldable pub parse_event_store : ℕ → P Stmt
  unfolding parse_store_items
  parse_event_store f = do
    tok ← cur_token
    needs Token.string nil_stmt do
      name ← literal_here
      needs Token.lbrace nil_stmt
          do next; items ← parse_store_items f; pure (event_store_stmt tok name items.0 items.1)

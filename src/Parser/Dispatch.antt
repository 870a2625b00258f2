-- ===== src/Parser/Dispatch.antt =====
-- What `parseStatement` of compiler/parser.go does for each token, and where `synchronize` stops.
use serv_lang.Prelude.{Bool, true, false}
use serv_lang.Lexer.Token
use serv_lang.Lexer.Token.{Token, TokenType, same_type}

-- What `parseStatement` calls for a token; the services that a dot makes an expression are apart.
pub data StmtFn : Type 0 where
  import_fn extern_fn publish_fn spawn_fn let_fn return_fn yield_fn version_fn fn_fn try_fn
        match_fn :
      StmtFn
  test_fn mock_fn enum_fn if_fn for_fn struct_fn actor_fn workflow_fn interface_fn alias_fn : StmtFn
  validate_fn break_fn continue_fn before_fn after_fn service_fn dotted_service_fn expression_fn :
      StmtFn

unfoldable pub stmt_fn_of : TokenType → StmtFn
stmt_fn_of Token.import = import_fn
stmt_fn_of Token.extern = extern_fn
stmt_fn_of Token.publish = publish_fn
stmt_fn_of Token.spawn = spawn_fn
stmt_fn_of Token.let_kw = let_fn
stmt_fn_of Token.return = return_fn
stmt_fn_of Token.yield = yield_fn
stmt_fn_of Token.version = version_fn
stmt_fn_of Token.resilient = fn_fn
stmt_fn_of Token.cached = fn_fn
stmt_fn_of Token.fn = fn_fn
stmt_fn_of Token.try = try_fn
stmt_fn_of Token.match = match_fn
stmt_fn_of Token.test = test_fn
stmt_fn_of Token.mock = mock_fn
stmt_fn_of Token.enum = enum_fn
stmt_fn_of Token.if_kw = if_fn
stmt_fn_of Token.for = for_fn
stmt_fn_of Token.struct = struct_fn
stmt_fn_of Token.actor = actor_fn
stmt_fn_of Token.workflow = workflow_fn
stmt_fn_of Token.interface = interface_fn
stmt_fn_of Token.type_kw = alias_fn
stmt_fn_of Token.validate = validate_fn
stmt_fn_of Token.break = break_fn
stmt_fn_of Token.continue = continue_fn
stmt_fn_of Token.before_each = before_fn
stmt_fn_of Token.after_each = after_fn
stmt_fn_of Token.mail = dotted_service_fn
stmt_fn_of Token.notify = dotted_service_fn
stmt_fn_of Token.store = dotted_service_fn
stmt_fn_of Token.search = dotted_service_fn
stmt_fn_of Token.cache = dotted_service_fn
stmt_fn_of Token.broker = service_fn
stmt_fn_of Token.ai = service_fn
stmt_fn_of Token.server = service_fn
stmt_fn_of Token.app = service_fn
stmt_fn_of Token.agent = service_fn
stmt_fn_of Token.route = service_fn
stmt_fn_of Token.tool = service_fn
stmt_fn_of Token.every = service_fn
stmt_fn_of Token.cron = service_fn
stmt_fn_of Token.subscribe = service_fn
stmt_fn_of Token.auth = service_fn
stmt_fn_of Token.database = service_fn
stmt_fn_of Token.migration = service_fn
stmt_fn_of Token.table = service_fn
stmt_fn_of Token.inject = service_fn
stmt_fn_of Token.graphql = service_fn
stmt_fn_of Token.macro = service_fn
stmt_fn_of Token.middleware = service_fn
stmt_fn_of Token.declare = service_fn
stmt_fn_of Token.ws = service_fn
stmt_fn_of Token.mesh = service_fn
stmt_fn_of Token.on = service_fn
stmt_fn_of Token.lock = service_fn
stmt_fn_of Token.bucket = service_fn
stmt_fn_of Token.gate = service_fn
stmt_fn_of Token.job = service_fn
stmt_fn_of Token.rag = service_fn
stmt_fn_of Token.event_store = service_fn
stmt_fn_of Token.emit = service_fn
stmt_fn_of Token.export = service_fn
stmt_fn_of Token.cors = service_fn
stmt_fn_of Token.rate_limit = service_fn
stmt_fn_of _ = expression_fn

-- Whether `synchronize` stops at a token.
unfoldable pub is_sync : TokenType → Bool
is_sync Token.import = true
is_sync Token.extern = true
is_sync Token.broker = true
is_sync Token.ai = true
is_sync Token.server = true
is_sync Token.route = true
is_sync Token.tool = true
is_sync Token.fn = true
is_sync Token.let_kw = true
is_sync Token.every = true
is_sync Token.cron = true
is_sync Token.subscribe = true
is_sync Token.database = true
is_sync Token.cache = true
is_sync Token.struct = true
is_sync Token.interface = true
is_sync Token.middleware = true
is_sync Token.ws = true
is_sync Token.actor = true
is_sync Token.workflow = true
is_sync Token.event_store = true
is_sync _ = false

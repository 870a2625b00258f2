-- ===== src/Lexer/Token.antt =====
-- The token types, tokens and keywords of compiler/lexer.go.
use serv_lang.Prelude.{
  ℕ, Bool, false, ◌||◌, List, [], ◌∷◌, String, Bytes, codes, equal, if◌then◌else◌,
}
use text.Mathlib.Text.{◌==◌ as str_eq}

-- `TokenType`: one constructor for each `TOKEN_` constant.
pub data TokenType : Type 0 where
  eof illegal ident int float string duration auth mail search broker ai server route : TokenType
  every cron subscribe publish spawn fn let_kw return import extern from try catch : TokenType
  database cache match fstring and or enum tool limit migration if_kw else_kw for in_kw : TokenType
  true_kw false_kw nil struct self export interface middleware use_kw await declare : TokenType
  module_kw as_kw ws cors rate_limit mock actor workflow stream yield store version : TokenType
  resilient retries circuit_breaker inject graphql macro notify app agent table : TokenType
  event_store command emit cached assign arrow ret_arrow plus minus asterisk slash : TokenType
  percent comma lparen rparen lbrace rbrace lbracket rbracket dot colon test assert : TokenType
  plus_assign minus_assign asterisk_assign slash_assign percent_assign ampersand pipe : TokenType
  pipe_arrow caret shift_left shift_right eq neq lt gt lte gte bang question_dot : TokenType
  question spread type_kw validate break continue before_each after_each timeout mesh : TokenType
  on lock unlock bucket gate job rag : TokenType

-- The Go string that each constant stands for.
unfoldable pub spelling : TokenType → String
spelling eof = "EOF"
spelling illegal = "ILLEGAL"
spelling ident = "IDENT"
spelling int = "INT"
spelling float = "FLOAT"
spelling string = "STRING"
spelling duration = "DURATION"
spelling auth = "AUTH"
spelling mail = "MAIL"
spelling search = "SEARCH"
spelling broker = "BROKER"
spelling ai = "AI"
spelling server = "SERVER"
spelling route = "ROUTE"
spelling every = "EVERY"
spelling cron = "CRON"
spelling subscribe = "SUBSCRIBE"
spelling publish = "PUBLISH"
spelling spawn = "SPAWN"
spelling fn = "FN"
spelling let_kw = "LET"
spelling return = "RETURN"
spelling import = "IMPORT"
spelling extern = "EXTERN"
spelling from = "FROM"
spelling try = "TRY"
spelling catch = "CATCH"
spelling database = "DATABASE"
spelling cache = "CACHE"
spelling match = "MATCH"
spelling fstring = "FSTRING"
spelling and = "AND"
spelling or = "OR"
spelling enum = "ENUM"
spelling tool = "TOOL"
spelling limit = "LIMIT"
spelling migration = "MIGRATION"
spelling if_kw = "IF"
spelling else_kw = "ELSE"
spelling for = "FOR"
spelling in_kw = "IN"
spelling true_kw = "TRUE"
spelling false_kw = "FALSE"
spelling nil = "NIL"
spelling struct = "STRUCT"
spelling self = "SELF"
spelling export = "EXPORT"
spelling interface = "INTERFACE"
spelling middleware = "MIDDLEWARE"
spelling use_kw = "USE"
spelling await = "AWAIT"
spelling declare = "DECLARE"
spelling module_kw = "MODULE"
spelling as_kw = "AS"
spelling ws = "WS"
spelling cors = "CORS"
spelling rate_limit = "RATE_LIMIT"
spelling mock = "MOCK"
spelling actor = "ACTOR"
spelling workflow = "WORKFLOW"
spelling stream = "STREAM"
spelling yield = "YIELD"
spelling store = "STORE"
spelling version = "VERSION"
spelling resilient = "RESILIENT"
spelling retries = "RETRIES"
spelling circuit_breaker = "CIRCUIT_BREAKER"
spelling inject = "INJECT"
spelling graphql = "GRAPHQL"
spelling macro = "MACRO"
spelling notify = "NOTIFY"
spelling app = "APP"
spelling agent = "AGENT"
spelling table = "TABLE"
spelling event_store = "EVENT_STORE"
spelling command = "COMMAND"
spelling emit = "EMIT"
spelling cached = "CACHED"
spelling assign = "="
spelling arrow = "=>"
spelling ret_arrow = "->"
spelling plus = "+"
spelling minus = "-"
spelling asterisk = "*"
spelling slash = "/"
spelling percent = "%"
spelling comma = ","
spelling lparen = "("
spelling rparen = ")"
spelling lbrace = "{"
spelling rbrace = "}"
spelling lbracket = "["
spelling rbracket = "]"
spelling dot = "."
spelling colon = ":"
spelling test = "TEST"
spelling assert = "ASSERT"
spelling plus_assign = "+="
spelling minus_assign = "-="
spelling asterisk_assign = "*="
spelling slash_assign = "/="
spelling percent_assign = "%="
spelling ampersand = "&"
spelling pipe = "|"
spelling pipe_arrow = "|>"
spelling caret = "^"
spelling shift_left = "<<"
spelling shift_right = ">>"
spelling eq = "=="
spelling neq = "!="
spelling lt = "<"
spelling gt = ">"
spelling lte = "<="
spelling gte = ">="
spelling bang = "!"
spelling question_dot = "?."
spelling question = "?"
spelling spread = "..."
spelling type_kw = "TYPE"
spelling validate = "VALIDATE"
spelling break = "BREAK"
spelling continue = "CONTINUE"
spelling before_each = "BEFORE_EACH"
spelling after_each = "AFTER_EACH"
spelling timeout = "TIMEOUT"
spelling mesh = "MESH"
spelling on = "ON"
spelling lock = "LOCK"
spelling unlock = "UNLOCK"
spelling bucket = "BUCKET"
spelling gate = "GATE"
spelling job = "JOB"
spelling rag = "RAG"

-- `==` on token types compares those strings.
unfoldable pub same_type : TokenType → TokenType → Bool
unfolding spelling
same_type a b = str_eq (spelling a) (spelling b)

pub record Token : Type 0 where
  pub type_of : TokenType
  pub literal : Bytes
  pub line : ℕ
  pub col : ℕ

-- `keywords`
abbrev pub keywords : List (Bytes × TokenType)
keywords =
    (codes "auth", auth)
    ∷ (codes "mail", mail)
    ∷ (codes "search", search)
    ∷ (codes "broker", broker)
    ∷ (codes "ai", ai)
    ∷ (codes "server", server)
    ∷ (codes "route", route)
    ∷ (codes "every", every)
    ∷ (codes "cron", cron)
    ∷ (codes "subscribe", subscribe)
    ∷ (codes "publish", publish)
    ∷ (codes "spawn", spawn)
    ∷ (codes "fn", fn)
    ∷ (codes "let", let_kw)
    ∷ (codes "return", return)
    ∷ (codes "import", import)
    ∷ (codes "extern", extern)
    ∷ (codes "from", from)
    ∷ (codes "try", try)
    ∷ (codes "catch", catch)
    ∷ (codes "database", database)
    ∷ (codes "cache", cache)
    ∷ (codes "match", match)
    ∷ (codes "test", test)
    ∷ (codes "assert", assert)
    ∷ (codes "enum", enum)
    ∷ (codes "tool", tool)
    ∷ (codes "limit", limit)
    ∷ (codes "migration", migration)
    ∷ (codes "if", if_kw)
    ∷ (codes "else", else_kw)
    ∷ (codes "for", for)
    ∷ (codes "in", in_kw)
    ∷ (codes "true", true_kw)
    ∷ (codes "false", false_kw)
    ∷ (codes "nil", nil)
    ∷ (codes "struct", struct)
    ∷ (codes "self", self)
    ∷ (codes "export", export)
    ∷ (codes "interface", interface)
    ∷ (codes "middleware", middleware)
    ∷ (codes "use", use_kw)
    ∷ (codes "await", await)
    ∷ (codes "declare", declare)
    ∷ (codes "module", module_kw)
    ∷ (codes "as", as_kw)
    ∷ (codes "ws", ws)
    ∷ (codes "type", type_kw)
    ∷ (codes "validate", validate)
    ∷ (codes "break", break)
    ∷ (codes "continue", continue)
    ∷ (codes "beforeEach", before_each)
    ∷ (codes "afterEach", after_each)
    ∷ (codes "timeout", timeout)
    ∷ (codes "cors", cors)
    ∷ (codes "rate_limit", rate_limit)
    ∷ (codes "mock", mock)
    ∷ (codes "actor", actor)
    ∷ (codes "workflow", workflow)
    ∷ (codes "inject", inject)
    ∷ (codes "graphql", graphql)
    ∷ (codes "stream", stream)
    ∷ (codes "yield", yield)
    ∷ (codes "store", store)
    ∷ (codes "version", version)
    ∷ (codes "resilient", resilient)
    ∷ (codes "retries", retries)
    ∷ (codes "circuit_breaker", circuit_breaker)
    ∷ (codes "notify", notify)
    ∷ (codes "app", app)
    ∷ (codes "agent", agent)
    ∷ (codes "table", table)
    ∷ (codes "mesh", mesh)
    ∷ (codes "on", on)
    ∷ (codes "lock", lock)
    ∷ (codes "unlock", unlock)
    ∷ (codes "bucket", bucket)
    ∷ (codes "gate", gate)
    ∷ (codes "job", job)
    ∷ (codes "rag", rag)
    ∷ (codes "event_store", event_store)
    ∷ (codes "command", command)
    ∷ (codes "emit", emit)
    ∷ (codes "cached", cached)
    ∷ []

unfoldable pub find_keyword : Bytes → List (Bytes × TokenType) → TokenType
find_keyword word [] = ident
find_keyword word ((kw, t) ∷ rest) = if equal kw word then t else find_keyword word rest

unfoldable pub lookup_ident : Bytes → TokenType
unfolding find_keyword equal
lookup_ident word = find_keyword word keywords

unfoldable pub any_keyword : TokenType → List (Bytes × TokenType) → Bool
any_keyword t [] = false
any_keyword t ((_, kw) ∷ rest) = same_type kw t || any_keyword t rest

unfoldable pub is_keyword_token : TokenType → Bool
unfolding any_keyword same_type
is_keyword_token t = any_keyword t keywords

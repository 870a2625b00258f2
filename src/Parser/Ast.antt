-- ===== src/Parser/Ast.antt =====
-- The nodes of compiler/ast.go that the modelled part of the parser makes.
--
-- A nil interface is `nil_expr` or `nil_stmt`, a nil `*BlockStmt` is `nil_block`. A float literal
-- keeps its token alone, whose text gives its value.
use serv_lang.Prelude.{ℕ, Bool, List, Option, Bytes}
use serv_lang.Prelude.Int.{ℤ}
use serv_lang.Lexer.Token.{Token, TokenType}

-- Names with their types, empty where none is written.
abbrev pub Params : Type 0
Params = List (Bytes × Bytes)

-- What stands behind the parameters of a function declaration.
pub record Policy : Type 0 where
  pub retries : Bytes
  pub timeout : Bytes
  pub circuit_breaker : Bool

-- A rate and its period; 0 and nothing where none is given.
abbrev pub Limit : Type 0
Limit = ℕ × Bytes

-- The entries of an agent that are read.
pub record Agent : Type 0 where
  pub system : Bytes
  pub model : Bytes
  pub tools : List Bytes

-- `ColumnDef`
pub record Column : Type 0 where
  pub column_name : Bytes
  pub column_type : Bytes
  pub primary : Bool
  pub autoincrement : Bool
  pub required : Bool
  pub unique : Bool
  pub default_value : Option Bytes

-- `DeclareModuleFunc` and `DeclareModuleRoute`
pub record ModuleFn : Type 0 where
  pub fn_name : Bytes
  pub multi_return : Bool
  pub fn_params : Params
  pub fn_return : Bytes

pub record ModuleRoute : Type 0 where
  pub method : Bytes
  pub path : Bytes
  pub param_types : List Bytes
  pub route_return : Bytes

mutual
  pub data Expr : Type 0 where
    nil_expr : Expr
    identifier text f_string duration : Token → Bytes → Expr
    integer : Token → ℤ → Expr
    float nil_literal self_expr : Token → Expr
    boolean : Token → Bool → Expr
    infix_expr : Token → Expr → Bytes → Expr → Expr
    prefix_expr : Token → Bytes → Expr → Expr
    call : Token → Expr → List Bytes → Exprs → Expr
    array : Token → Exprs → Expr
    spread await assert_expr error_prop : Token → Expr → Expr
    map_literal : Token → Entries → Expr
    struct_literal : Token → Bytes → List Bytes → Entries → Expr
    member optional_member : Token → Expr → Bytes → Expr
    index : Token → Expr → Expr → Expr
    slice_expr : Token → Expr → Expr → Expr → Expr
    assign : Token → Bytes → Expr → Expr
    member_assign : Token → Expr → Bytes → Expr → Expr
    index_assign : Token → Expr → Expr → Expr
    compound_assign : Token → Bytes → Bytes → Expr → Expr
    spawn_expr : Token → Expr → Expr → Expr
    fn_literal : Token → Params → Block → Expr
    arrow : Token → List Bytes → Expr → Expr

  pub data Exprs : Type 0 where
    no_exprs : Exprs
    cons_expr : Expr → Exprs → Exprs

  -- The entries of a map or struct literal as they are written: they give `Pairs`, in which a later
  -- key overrides, `KeyOrder` and the positions of `Spreads`.
  pub data Entries : Type 0 where
    no_entries : Entries
    pair_entry : Bytes → Expr → Entries → Entries
    spread_entry : Expr → Entries → Entries

  pub data Block : Type 0 where
    nil_block : Block
    block : Token → Stmts → Block

  pub data Stmts : Type 0 where
    no_stmts : Stmts
    cons_stmt : Stmt → Stmts → Stmts

  -- `MatchCase`s: a nil value is the default.
  pub data Cases : Type 0 where
    no_cases : Cases
    cons_case : Expr → Block → Cases → Cases

  pub data Stmt : Type 0 where
    nil_stmt : Stmt
    expr_stmt return_stmt yield_stmt : Token → Expr → Stmt
    let_stmt : Token → List Bytes → Bytes → Expr → Stmt
    destructure_let : Token → List Bytes → Expr → Stmt
    if_stmt : Token → Expr → Block → Block → Stmt
    for_stmt : Token → Bool → Bytes → Bytes → Expr → Block → Stmt
    match_stmt : Token → Expr → Cases → Stmt
    try_stmt : Token → Block → Bytes → Block → Stmt
    break_stmt continue_stmt : Token → Stmt
    fn_decl : Token → Bool → Bool → Bytes → Params → Params → Bytes → Policy → Block → Stmt
    method_decl : Token → Bytes → Bytes → Params → Bytes → Block → Stmt
    test_stmt : Token → Bytes → Bytes → Block → Stmt
    before_each after_each : Token → Block → Stmt
    mock_stmt : Token → Expr → Block → Stmt
    publish_stmt spawn_stmt : Token → Expr → Expr → Stmt
    actor_decl : Token → Bytes → Params → Block → Stmt
    workflow_decl : Token → Bytes → Bytes → Block → Stmt
    version_block : Token → Bytes → Stmts → Stmt
    go_import : Token → Bytes → Bytes → Stmt
    import_stmt : TokenType → List Bytes → Bytes → Stmt
    extern_fn : Token → Bytes → List Bytes → Bytes → Stmt
    extern_block : Token → Stmts → Stmt
    struct_decl : Token → Bytes → Params → Params → Stmt
    interface_decl : Token → Bytes → List (Bytes × Params × Bytes) → Stmt
    enum_stmt : Token → Bytes → List Bytes → Entries → Stmt
    type_alias : Token → Bytes → Bytes → Stmt
    validate_stmt : Token → List Bytes → List Bytes → Stmt
    broker_stmt ai_stmt auth_stmt mail_stmt notify_stmt store_stmt : Token → Expr → Stmt
    search_stmt database_stmt cache_stmt : Token → Expr → Stmt
    app_stmt migration_stmt bucket_stmt gate_stmt rag_stmt graphql_stmt :
        Token → Bytes → Block → Stmt
    mesh_stmt : Token → Block → Stmt
    job_stmt ws_stmt on_stmt middleware_decl : Token → Bytes → Bytes → Block → Stmt
    every_stmt cron_stmt lock_stmt : Token → Expr → Block → Stmt
    subscribe_stmt : Token → Expr → Bytes → Block → Stmt
    tool_stmt : Token → Bytes → Bytes → Bytes → Block → Stmt
    server_stmt : Token → Expr → Bool → Bytes → Bytes → Stmt
    route_stmt : Token → Bytes → Bytes → Bytes → Limit → Exprs → Bool → Bytes → Block → Stmt
    agent_decl : Token → Bytes → Agent → Stmt
    table_decl : Token → Bytes → List Column → Stmt
    declare_module : Token → Bytes → List ModuleFn → List ModuleRoute → Stmt
    export_stmt : Token → Stmt → Stmt
    cors_stmt : Token → List Bytes → Stmt
    rate_limit_stmt : Token → Limit → Stmt
    inject_stmt : Token → Bytes → Bytes → Stmt
    macro_stmt : Token → Bytes → List Bytes → Stmt
    go_inline_fn : Token → Bytes → Bytes → Bytes → Stmt
    event_store_stmt : Token → Bytes → Commands → Stmts → Stmt
    emit_stmt : Token → Bytes → Expr → Stmt

  -- `CommandDecl`s
  pub data Commands : Type 0 where
    no_commands : Commands
    cons_command : Token → Bytes → List Bytes → Block → Commands → Commands

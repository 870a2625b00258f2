-- ===== src/Lib.antt =====
-- Serv-lang: a verification library for the compiler and the runtime.
--
-- The compiler turns a program of the language into Go: compiler/lexer.go cuts the text into
-- tokens, compiler/parser.go and the other files of the parser build the tree of compiler/ast.go and
-- collect errors, which compiler/errors.go formats; compiler/optimizer.go folds constants and drops
-- dead code, and the code generator prints Go that calls the package under runtime/. The library
-- models the lexer, the parser, the diagnostics, the optimizer, the warnings on control flow and the
-- symbol table of the code generator, and of the runtime the circuit breakers and retries, the
-- semantic versions, the differences of texts and the durable workflows.
--
-- Files and code:
--   Prelude          names of the libraries, passed on; Boolean tests on native numbers, lists, bytes
--                    and signed integers.
--   GoStrings, GoInt the functions of Go's strings and strconv packages and the int64 arithmetic that
--                    the modelled code uses, with wrap-around written out.
--   Lexer            compiler/lexer.go. Token holds TokenType, Token, keywords, lookupIdent and
--                    isKeywordToken; Cursor the state (Lexer), readChar, peekChar, skipWhitespace and
--                    skipComment; Dedent the function dedent; Scan the readers of identifiers,
--                    numbers and strings; Next the cases of NextToken. The other files hold proofs.
--   Parser           compiler/parser.go and compiler/parser_*.go. Ast holds the nodes of compiler/ast.go;
--                    State the type Parser, nextToken, expectPeek and the errors, and runs of parse
--                    functions as functions of a parser; Tables the precedences, the registered
--                    functions and the looks ahead; Types parser_types.go (annotations); Lists,
--                    Entries, Operators, Operands and Expr parser_expr.go, up to parseExpression;
--                    Control parser_controlflow.go; Decls parser_functions.go with actors and
--                    workflows; TypeDecls the declarations of parser_types.go; Imports and Simple
--                    parser_stmt.go; Services, Schemas, Routes and
--                    Modules parser_services.go; Dispatch and
--                    Program parseStatement, blocks, ParseProgram and synchronize. Grammar is the
--                    grammar of the precedences; Reads, Loop and RoundTrip prove about it, Recovery
--                    about ParseProgram.
--   Grid             the tables that levenshtein and DiffText fill row by row, and their recurrence.
--   Diagnostics      compiler/errors.go. Distance holds levenshtein and findSimilarKeyword; Hints
--                    extractToken, suggestFix and getErrorRegistryCode; Format parseErrorLocation
--                    and FormatDiagnostics. Scripts, Keywords and Location hold proofs.
--   Diff             DiffText of runtime/diff.go. Text holds its table and its walk back; Common the
--                    common subsequences; Walk, Lines and Correct the proofs.
--   Workflow         runtime/workflow.go. Step holds WorkflowCtx.Step, the registry and StartWorkflow on a
--                    database that is a parameter; Replay what a second run does.
--   Cache            runtime/cache.go without Redis, and runtime/mock.go. Local holds CacheSet, CacheGet,
--                    ClearCache and the mocks; Lookup what CacheGet finds.
--   Optimizer        compiler/optimizer.go. Ast holds the nodes of compiler/ast.go; Fold the functions
--                    foldIntegers to foldBooleans; Pass the functions Optimize, optimizeStatement and
--                    optimizeExpression; Machine a meaning for trees, in which operators on literals
--                    are those of Go on constants, which are exact, and all else is a parameter; Exact
--                    says where the optimizer, which computes on int64 and float64, agrees.
--   Flow             compiler/analyze_flow.go. Tree holds the statements that it tells apart; Analysis
--                    blockHasReturn and analyzeUnreachableCode; Runs a relation that says how a block
--                    may end, with a match as the switch of Go that it becomes; DeadCode a function that cuts dead code off.
--   Scopes           compiler/symbol_table.go. Table holds Scope and Symbol, NewScope, Insert, Lookup,
--                    LookupLocal and the declarations of Codegen, on a store of scopes; Heap the
--                    invariant on parents.
--   Resiliency       runtime/resiliency.go. Breaker holds CircuitBreaker, getBreaker and the critical
--                    sections of ResilientCall; Call the function itself with executeWithTimeout and
--                    isErrorValue, for one caller; Timeout the text of its timeout and strconvAtoi;
--                    Interleaving a step relation on one breaker for many callers; Nested the
--                    function where the wrapped one may change the breakers, and Alone where it does not.
--   Semver           runtime/semver.go. Version holds parseSemver, SemverParse, SemverCompare and
--                    SemverSatisfies.
--
-- Text is a list of bytes. A pointer to a struct that one caller owns is a record that is passed
-- on; scopes, which point at one another, stand in a list, and a pointer is a place in it. A map is an
-- association list. Floats are a parameter with the operations that the folds use. Map literals, which
-- Go iterates in any order, are lists in key order.
--
-- Loops of the lexer run on fuel, one round for each byte that is left and one more: each round reads
-- a byte. The parser's functions are structural in their fuel, which each level of expressions and
-- statements and each round of a loop costs; more fuel than there are tokens suffices for an
-- expression of the grammar. ParseProgram has no bound: on some inputs it does not end. DiffText has one
-- round for each line of either text and one more. The optimizer's functions are structural, and so are the rounds of ResilientCall, in the
-- number of rounds that are left. Lookup in the symbol table has fuel for as many scopes as
-- there are, since the scopes of a chain are older and older.
--
-- What a wrapped function returns and when, the clock and time.ParseDuration are arguments of
-- ResilientCall. Its
-- critical sections take no time, so one clock reading serves for both that stand in one. Parameters
-- of the parser are ReadGoInlineSignatureAndBody, strings.ToLower and the test of strconv.ParseFloat;
-- errors are what they are made of, in place of their text. strings.ToLower is a parameter of the
-- diagnostics too. The diagnostics read numbers without a sign, the only ones that errors have.
--
-- A workflow is the steps that it takes, by the results so far; the steps' functions and the world that
-- they change, the database and JSON are parameters. Statements that the database refuses are left out.
--
-- Not modelled: ReadGoInlineSignatureAndBody of the lexer; the schemas that the parser reads from the
-- SQL of a migration with regular expressions; DiffJSON, which walks Go maps in any order; the other
-- analyzers, the code generator, the other files of the runtime, the command line, the language server
-- and the debugger. Of the cache, the calls of Redis. Input and output and calls of libraries make up
-- most of these; the event store, the collections and the type checker are the parts of them that carry
-- logic of their own.
pub mod Prelude
pub mod GoStrings
pub mod GoInt
pub mod Lexer
pub mod Optimizer
pub mod Resiliency
pub mod Semver
pub mod Flow
pub mod Scopes
pub mod Parser
pub mod Grid
pub mod Diagnostics
pub mod Diff
pub mod Workflow
pub mod Cache

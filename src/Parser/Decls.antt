-- ===== src/Parser/Decls.antt =====
-- The declarations of compiler/parser_functions.go and compiler/parser_types.go, over the parsers of
-- expressions and blocks. Loops run on fuel.
use serv_lang.Prelude.{ℕ, zero, suc, Bool, true, false, ◌||◌, [], Option, none, some, Bytes}
use serv_lang.Lexer.Token
use serv_lang.Lexer.Token.{Token, TokenType, same_type, is_keyword_token}
use serv_lang.Parser.Ast.{
  Params, Policy, Block, Stmt, nil_stmt, fn_decl, method_decl, actor_decl, workflow_decl,
}
use serv_lang.Parser.State.{
  P, out_of_fuel, pure, ◌>>=◌, ◌>>◌, choose, next, cur_token, literal_here, cur_is, peek_is, needs,
}
use serv_lang.Parser.Types.{
  parse_type_annotation, parse_params, parse_type_params, parse_optional_type,
}

-- `-> type`, or nothing.
unfoldable pub parse_return_type : ℕ → P Bytes
unfolding parse_type_annotation
parse_return_type f = do
  typed ← peek_is Token.ret_arrow
  choose typed (do next; next; parse_type_annotation f) (pure [])

-- `[T: Constraint, …]`, or nothing; `none` behind an error.
unfoldable pub parse_type_param_list : ℕ → P (Option Params)
unfolding parse_type_params
parse_type_param_list f = do
  generic ← peek_is Token.lbracket
  choose generic
      (do next; params ← parse_type_params f; needs Token.rbracket none (pure (some params)))
      (pure (some []))

-- `(params)`; `none` behind an error.
unfoldable pub parse_param_list : ℕ → P (Option Params)
unfolding parse_params
parse_param_list f =
    needs Token.lparen none do params ← parse_params f; needs Token.rparen none (pure (some params))

-- The loop behind the return type; `none` behind an error. `Retries` is the number of the text.
unfoldable pub parse_policy : ℕ → Policy → P (Option Policy)
parse_policy zero policy = λ p. out_of_fuel
parse_policy (suc f) policy = do
  retried ← peek_is Token.retries
  timed ← peek_is Token.timeout
  guarded ← peek_is Token.circuit_breaker
  choose retried
      (do
        next
        needs Token.int none do n ← literal_here; parse_policy f (record policy { retries = n }))
      (choose timed
        (do next; next; t ← literal_here; parse_policy f (record policy { timeout = t }))
        (choose guarded (do next; parse_policy f (record policy { circuit_breaker = true }))
          (pure (some policy))))

abbrev no_policy : Policy
no_policy = record { retries = []; timeout = []; circuit_breaker = false }

-- What is there goes on, an error is nil.
abbrev pub given : {A : Type 0} → Option A → (A → P Stmt) → P Stmt
given none k = pure nil_stmt
given (some a) k = k a

module _ (parse_block : P Block) where
  -- `{ body }` for a statement that is otherwise read.
  unfoldable pub parse_body : (Block → Stmt) → P Stmt
  parse_body make = needs Token.lbrace nil_stmt do body ← parse_block; pure (make body)

  unfoldable pub parse_method : ℕ → Token → Bytes → Bytes → P Stmt
  unfolding parse_param_list parse_return_type parse_body
  parse_method f tok type_name name = do
    params ← parse_param_list f
    given params
        λ ps. do type ← parse_return_type f; parse_body (method_decl tok type_name name ps type)

  -- `resilient` and `cached` in front of `fn`.
  unfoldable pub parse_modifiers : ℕ → Bool → Bool → P (Bool × Bool)
  parse_modifiers zero resilient cached = λ p. out_of_fuel
  parse_modifiers (suc f) resilient cached = do
    is_resilient ← cur_is Token.resilient
    is_cached ← cur_is Token.cached
    choose (is_resilient || is_cached)
        (do next; parse_modifiers f (resilient || is_resilient) (cached || is_cached))
        (pure (resilient, cached))

  -- The declaration of a function behind its name.
  unfoldable pub parse_fn_rest : ℕ → Token → Bool → Bool → Bytes → P Stmt
  unfolding parse_type_param_list parse_param_list parse_return_type parse_policy parse_body
  parse_fn_rest f tok resilient cached name = do
    type_params ← parse_type_param_list f
    given type_params λ ts. do
      params ← parse_param_list f
      given params λ ps. do
        type ← parse_return_type f
        policy ← parse_policy f no_policy
        given policy λ po. parse_body (fn_decl tok resilient cached name ts ps type po)

  unfoldable pub parse_fn : ℕ → P Stmt
  unfolding parse_modifiers parse_method parse_fn_rest
  parse_fn f = do
    modifiers ← parse_modifiers f false false
    tok ← cur_token
    choose (same_type tok.type_of Token.fn)
        (needs Token.ident nil_stmt do
          first ← literal_here
          is_method ← peek_is Token.dot
          choose is_method
              (do
                next
                needs Token.ident nil_stmt do name ← literal_here; parse_method f tok first name)
              (parse_fn_rest f tok modifiers.0 modifiers.1 first))
        (pure nil_stmt)

  unfoldable pub parse_actor : ℕ → P Stmt
  unfolding parse_param_list parse_body
  parse_actor f = do
    tok ← cur_token
    needs Token.ident nil_stmt do
      name ← literal_here
      params ← parse_param_list f
      given params λ ps. parse_body (actor_decl tok name ps)

  unfoldable pub parse_workflow : ℕ → P Stmt
  unfolding parse_optional_type parse_body
  parse_workflow f = do
    tok ← cur_token
    needs Token.ident nil_stmt do
      name ← literal_here
      needs Token.lparen nil_stmt do
        bare ← peek_is Token.rparen
        param ←
            choose bare (pure []) (do next; param ← literal_here; parse_optional_type f; pure param)
        needs Token.rparen nil_stmt (parse_body (workflow_decl tok name param))

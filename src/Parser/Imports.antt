-- ===== src/Parser/Imports.antt =====
-- Imports and foreign functions of compiler/parser_stmt.go, with `capitalizeFirst` of
-- compiler/codegen_types.go. Loops run on fuel.
use serv_lang.Prelude.{
  ℕ, zero, suc, ◌-◌, ◌&&◌, ◌||◌, List, [], ◌∷◌, ◌++◌, Option, none, some, Bytes, codes, leb, ltb,
  if◌then◌else◌,
}
use serv_lang.Lexer.Token
use serv_lang.Lexer.Token.{Token, TokenType, same_type, is_keyword_token}
use serv_lang.Parser.Ast.{
  Stmts, no_stmts, cons_stmt, Stmt, nil_stmt, go_import, import_stmt, extern_fn, extern_block,
}
use serv_lang.Parser.State.{
  P, out_of_fuel, pure, ◌>>=◌, ◌>>◌, choose, next, cur_token, literal_here, cur_is, peek_is, needs,
}
use serv_lang.Parser.Types.{parse_names}
use serv_lang.Parser.Decls.{given}

unfoldable pub parse_import : ℕ → P Stmt
unfolding parse_names
parse_import f = do
  tok ← cur_token
  go_package ← peek_is Token.ident
  named ← peek_is Token.lbrace
  choose go_package
      (do
        next
        alias ← literal_here
        needs Token.from nil_stmt (
            needs Token.string nil_stmt
              do path ← cur_token; pure (go_import path alias path.literal)))
      (choose named
        (do
          next
          names ← parse_names Token.rbrace f
          needs Token.rbrace nil_stmt (
              needs Token.from nil_stmt (
                needs Token.string nil_stmt
                  do path ← literal_here; pure (import_stmt tok.type_of names path))))
        (needs Token.string nil_stmt
          do path ← literal_here; pure (import_stmt tok.type_of [] path)))

-- Parameter names of a foreign function from the current token on.
unfoldable pub parse_bare_params : ℕ → P (List Bytes)
parse_bare_params zero = λ p. out_of_fuel
parse_bare_params (suc f) = do
  name ← literal_here
  more ← peek_is Token.comma
  choose more (do next; next; rest ← parse_bare_params f; pure (name ∷ rest)) (pure (name ∷ []))

-- `name(params)`; `none` behind an error.
unfoldable pub parse_signature : ℕ → P (Option (Bytes × List Bytes))
unfolding parse_bare_params
parse_signature f = needs Token.ident none do
  name ← literal_here
  needs Token.lparen none do
    bare ← peek_is Token.rparen
    params ← choose bare (pure []) (do next; parse_bare_params f)
    needs Token.rparen none (pure (some (name, params)))

-- `strings.ToUpper` of one byte: a byte of no letter of ASCII stays, and one beyond ASCII is no text
-- by itself and becomes U+FFFD.
unfoldable pub upper_byte : ℕ → Bytes
upper_byte b =
    if leb 97 b && leb b 122
    then (b - 32) ∷ []
    else if ltb b 128
    then b ∷ []
    else 239 ∷ 191 ∷ 189 ∷ []

-- `capitalizeFirst`
unfoldable pub capitalize_first : Bytes → Bytes
unfolding upper_byte
capitalize_first [] = []
capitalize_first (b ∷ bs) = upper_byte b ++ bs

unfoldable pub parse_extern_block_fn : ℕ → Bytes → P Stmt
unfolding parse_signature capitalize_first
parse_extern_block_fn f pkg = do
  tok ← cur_token
  signature ← parse_signature f
  given signature λ sig. do
    renamed ← peek_is Token.from
    choose renamed
        (do
          next
          needs Token.string nil_stmt do
            go_name ← literal_here
            pure (extern_fn tok sig.0 sig.1 (pkg ++ (codes ":" ++ go_name))))
        (pure (extern_fn tok sig.0 sig.1 (pkg ++ (codes ":" ++ capitalize_first sig.0))))

abbrev pub cons_unless_nil : Stmt → Stmts → Stmts
cons_unless_nil nil_stmt rest = rest
cons_unless_nil s rest = cons_stmt s rest

unfoldable pub parse_extern_fns : ℕ → Bytes → P Stmts
unfolding parse_extern_block_fn
parse_extern_fns zero pkg = λ p. out_of_fuel
parse_extern_fns (suc f) pkg = do
  closed ← cur_is Token.rbrace
  at_end ← cur_is Token.eof
  function ← cur_is Token.fn
  choose (closed || at_end) (pure no_stmts) (do
    s ← choose function (parse_extern_block_fn f pkg) (pure nil_stmt)
    next
    rest ← parse_extern_fns f pkg
    pure (cons_unless_nil s rest))

unfoldable pub parse_extern : ℕ → P Stmt
unfolding parse_extern_fns parse_signature
parse_extern f = do
  tok ← cur_token
  from_package ← peek_is Token.from
  choose from_package
      (do
        next
        needs Token.string nil_stmt do
          pkg ← literal_here
          needs Token.lbrace nil_stmt
              do at ← cur_token; next; fns ← parse_extern_fns f pkg; pure (extern_block at fns))
      (needs Token.fn nil_stmt do
        signature ← parse_signature f
        given signature λ sig. needs Token.from nil_stmt (
            needs Token.string nil_stmt
              do source ← literal_here; pure (extern_fn tok sig.0 sig.1 source)))

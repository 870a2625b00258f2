-- ===== src/Parser/Tests.antt =====
-- The parser on concrete texts.
use serv_lang.Prelude.{ℕ, ◌≡◌, refl, true, false, List, [], ◌∷◌, Bytes, codes, String, arith}
use serv_lang.Lexer.Token.{TokenType, Token, lookup_ident, is_keyword_token, same_type}
use serv_lang.GoStrings.{split, join, push_byte, trim_space, has_prefix, trim_prefix}
use serv_lang.Lexer.Dedent.{dedent}
use serv_lang.Lexer.Cursor.{
  new_lexer, read_char, peek_char, rounds, for_char, skip_char, slice, is_letter, is_digit,
  is_blank, is_ident_char,
}
use serv_lang.Lexer.Position.{IsPlaced}
use serv_lang.Lexer.Scan.{
  skip_whitespace, skip_comment, read_identifier, read_digits, read_suffix,
  read_number_or_duration_or_float, read_string, read_raw_string,
}
use serv_lang.Lexer.Next.{
  scan_token, next_token, scan_star, scan_bitwise, scan_dot, scan_bracket, scan_text,
  scan_comparison, scan_word, scan_number, scan_string, scan_raw_string, one, two, three,
  string_of_byte,
}
use serv_lang.Parser.Control.{
  parse_if, parse_for_body, parse_for, parse_case_value, parse_cases, parse_match, parse_try,
}
use serv_lang.Parser.Decls.{
  parse_return_type, parse_type_param_list, parse_param_list, parse_policy, parse_body,
  parse_method, parse_modifiers, parse_fn_rest, parse_fn, parse_actor, parse_workflow,
}
use serv_lang.Parser.Entries.{parse_struct_fields, parse_struct_literal}
use serv_lang.Parser.Expr.{infix_ahead, step_infix, parse_infix_loop, parse_expression}
use serv_lang.Parser.Lists.{
  parse_element, parse_elements, parse_array, parse_arguments, parse_expression_list,
}
use serv_lang.Parser.Operands.{
  after_identifier, struct_ahead, parse_name, parse_identifier, run_prefix, choose_operand,
  parse_operand,
}
use serv_lang.Parser.Operators.{
  parse_spawn, parse_field, parse_assignment, parse_compound, parse_slice_end, parse_index,
  run_infix,
}
use serv_lang.Parser.Dispatch.{stmt_fn_of, is_sync}
use serv_lang.Parser.Imports.{
  parse_import, upper_byte, capitalize_first, parse_bare_params, parse_signature,
  parse_extern_block_fn, parse_extern_fns, parse_extern,
}
use serv_lang.Parser.Program.{
  parse_stmts, parse_block, parse_expression_statement, run_stmt, synchronize, parse_statement,
  parse_checked, parse_program, new_parser,
}
use serv_lang.Parser.Simple.{
  parse_more_names, parse_let_type, parse_let, parse_value_stmt, parse_publish, parse_spawn_stmt,
  parse_test_timeout, unquote, extended_prefix, parse_test, parse_each, parse_mock, parse_version,
}
use serv_lang.Parser.State.{advance, is_param_list_followed_by_brace}
use serv_lang.Parser.Tables.{
  precedence_of, peek_precedence, prefix_fn_of, infix_fn_of, look_at, is_generic_ahead,
  is_struct_literal_ahead, octal_value, in_int64, parse_int,
}
use serv_lang.Parser.TypeDecls.{
  parse_decl_fields, parse_struct, parse_word_behind, parse_method_params, parse_methods,
  parse_interface, parse_alias, add_key, parse_keys, parse_validate, parse_members, parse_enum,
}
use serv_lang.Parser.Types.{
  join_args, parse_names, parse_optional_type, parse_params_from, parse_params, parse_type_params,
}
use serv_lang.Prelude.{map, inl, Option, some, none, Bool}
use serv_lang.Prelude.Int.{pos}
use serv_lang.GoStrings.{digits_value}
use serv_lang.Lexer.Token.{spelling}
use serv_lang.Lexer.Token
use serv_lang.Parser.Ast.{
  version_block, route_stmt, return_stmt, block, no_exprs, Stmts, no_stmts, cons_stmt, expr_stmt,
  Expr, identifier, integer, infix_expr, prefix_expr, member,
}
use serv_lang.Parser.State.{Message, expected_next, Parser, Result, done, panics, out_of_fuel}
use serv_lang.Parser.Grammar.{
  Derives, of_atom, of_prefix, of_member, of_infix, Reads, stays, moves, Follows, is_name,
  is_integer,
}
use serv_lang.Parser.RoundTrip.{parse_expression-Derives}
use serv_lang.Parser.Services.{
  parse_tls, parse_handler, parse_value_service, parse_app, parse_named_block, parse_mesh,
  parse_value_block, parse_job, parse_path_handler, parse_subscribe, parse_tool, parse_middleware,
  parse_server, parse_emit, parse_limit, parse_rate_limit, parse_inject, parse_export,
}
use serv_lang.Parser.Schemas.{
  parse_origin_list, parse_origins, parse_cors, parse_default, annotate, parse_annotations,
  parse_columns, parse_table,
}
use serv_lang.Parser.Routes.{
  with_slash, trim_slash, route_path, value_text, tool_names, listed_tools, set_agent,
  parse_route_marks, parse_agent_entries, parse_agent, parse_uses, parse_route_limit,
  parse_route_uses, parse_route, parse_command, parse_store_items, parse_event_store,
}
use serv_lang.Parser.Modules.{
  parse_word_param, parse_more_params, parse_module_params, parse_module_fn, parse_route_param,
  parse_module_route, parse_module_items, parse_declare, parse_macro_args, parse_macro_rest,
  behind_inline, parse_inline_body, parse_inline, parse_macro, parse_service,
}
use serv_lang.Parser.Modules.{Inline, unreadable}
use serv_lang.GoStrings.{has_prefix}
use serv_lang.Semver.Version.{atoi, in_range}
use serv_lang.Lexer.Cursor.{Lexer}
use serv_lang.Parser.Recovery.{Synchronized, synchronize-ends, IsBareLet, parse_program-stuck}

-- The texts have no body in Go, are in lower case, and each text of a float is one.
no_inline : Lexer → Inline × Lexer
no_inline l = (unreadable [], l)

as_written : Bytes → Bytes
as_written s = s

every_float : Bytes → Bool
every_float s = true

-- The parser of a text, with everything that the lexer calls open.
start : String → Parser
unfolding next_token new_lexer peek_char skip_whitespace skip_comment scan_token scan_star
    scan_bitwise scan_dot scan_bracket scan_text scan_comparison scan_word scan_number scan_string
    scan_raw_string one two three string_of_byte read_char rounds for_char is_blank is_letter
    is_digit is_ident_char skip_char read_identifier read_digits read_suffix
    read_number_or_duration_or_float read_string read_raw_string lookup_ident slice dedent split
    join push_byte trim_space has_prefix trim_prefix new_parser
start s = new_parser (new_lexer (codes s))

-- `ParseProgram` with everything that it calls open.
program : ℕ → String → Result Stmts
unfolding start digits_value is_keyword_token same_type spelling no_inline as_written atoi in_range
    has_prefix parse_tls parse_handler parse_value_service parse_app parse_named_block parse_mesh
    parse_value_block parse_job parse_path_handler parse_subscribe parse_tool parse_middleware
    parse_server parse_emit parse_limit parse_rate_limit parse_inject parse_export with_slash
    trim_slash route_path value_text tool_names listed_tools set_agent parse_route_marks
    parse_origin_list parse_origins parse_cors parse_default annotate parse_annotations
    parse_columns parse_table parse_agent_entries parse_agent parse_uses parse_route_limit
    parse_route_uses parse_route parse_command parse_store_items parse_event_store parse_word_param
    parse_more_params parse_module_params parse_module_fn parse_route_param parse_module_route
    parse_module_items parse_declare parse_macro_args parse_macro_rest behind_inline
    parse_inline_body parse_inline parse_macro parse_service every_float advance parse_if
    parse_for_body parse_for parse_case_value parse_cases parse_match parse_try parse_return_type
    parse_type_param_list parse_param_list parse_policy parse_body parse_method parse_modifiers
    parse_fn_rest parse_fn parse_actor parse_workflow parse_struct_fields parse_struct_literal
    infix_ahead step_infix parse_infix_loop parse_expression parse_element parse_elements
    parse_array parse_arguments parse_expression_list after_identifier struct_ahead parse_name
    parse_identifier run_prefix choose_operand parse_operand parse_spawn parse_field
    parse_assignment parse_compound parse_slice_end parse_index run_infix stmt_fn_of parse_stmts
    parse_block parse_expression_statement run_stmt is_sync synchronize parse_statement
    parse_checked parse_program parse_import parse_bare_params parse_signature upper_byte
    capitalize_first parse_extern_block_fn parse_extern_fns parse_extern parse_more_names
    parse_let_type parse_let parse_value_stmt parse_publish parse_spawn_stmt parse_test_timeout
    unquote extended_prefix parse_test parse_each parse_mock parse_version
    is_param_list_followed_by_brace precedence_of peek_precedence prefix_fn_of infix_fn_of look_at
    is_generic_ahead is_struct_literal_ahead octal_value in_int64 parse_int parse_decl_fields
    parse_struct parse_word_behind parse_method_params parse_methods parse_interface parse_alias
    add_key parse_keys parse_validate parse_members parse_enum join_args parse_names
    parse_optional_type parse_params_from parse_params parse_type_params
program f s = parse_program no_inline as_written every_float f (start s)

abbrev token : TokenType → String → ℕ → ℕ → Token
token t s line col = record { type_of = t; literal = codes s; line = line; col = col }

-- What a program leaves: its statements where it ends.
unfoldable statements : Result Stmts → Option Stmts
statements (done ss p) = some ss
statements _ = none

-- Go panics on a generic literal whose fields are no pairs.
program-generic_panic : program 12 "Foo[T]{ 5 }" ≡ panics
unfolding program
program-generic_panic = refl

-- A loop that is cut off is not the end: `let` in front of a number.
program-bare_let : program 12 "let 5" ≡ out_of_fuel
unfolding program
program-bare_let = refl

-- The errors that a run leaves.
unfoldable errors_of : Result Stmts → List Message
errors_of (done ss p) = map (λ e. e.message) p.errors
errors_of _ = []

-- An application with a string for its name, which the statement accepts, leaves an error.
program-app_string :
    errors_of (program 12 "app \"x\" { }") ≡ expected_next Token.ident Token.string ∷ []
unfolding program errors_of
program-app_string = refl

-- A route under a version.
program-route :
    statements
      (program 20 "version \"v1\" { route \"GET\" \"/x\" (req) limit 5/minute { return 1 } }")
    ≡ some (
        cons_stmt
          (version_block (token Token.version "version" 1 1) (codes "v1") (
            cons_stmt
              (route_stmt
                (token Token.route "route" 1 16)
                (codes "GET")
                (codes "/v1/x")
                (codes "req")
                (5, codes "minute")
                no_exprs
                false
                []
                (block (token Token.lbrace "{" 1 54) (
                  cons_stmt
                    (return_stmt
                      (token Token.return "return" 1 56)
                      (integer (token Token.int "1" 1 63) (pos 1)))
                    no_stmts)))
              no_stmts))
          no_stmts)
unfolding program statements
program-route = refl

abbrev minus_c : Expr
minus_c =
    prefix_expr (token Token.minus "-" 1 11) (codes "-")
      (identifier (token Token.ident "c" 1 12) (codes "c"))

program-levels :
    statements (program 12 "a.b + 2 * -c")
    ≡ some (
        cons_stmt
          (expr_stmt (token Token.ident "a" 1 1) (
            infix_expr
              (token Token.plus "+" 1 5)
              (member
                (token Token.dot "." 1 2)
                (identifier (token Token.ident "a" 1 1) (codes "a"))
                (codes "b"))
              (codes "+")
              (infix_expr
                (token Token.asterisk "*" 1 9)
                (integer (token Token.int "2" 1 7) (pos 2))
                (codes "*")
                minus_c)))
          no_stmts)
unfolding program statements
program-levels = refl

-- A text of the grammar, the tokens that it has, and the parser behind them.
abbrev sums : Parser
sums = start "a.b + 2 * -c"

abbrev behind : Parser
behind = advance (advance (advance (advance (advance (advance (advance (advance sums)))))))

abbrev sum_tokens : List Token
sum_tokens =
    token Token.ident "a" 1 1
    ∷ token Token.dot "." 1 2
    ∷ token Token.ident "b" 1 3
    ∷ token Token.plus "+" 1 5
    ∷ token Token.int "2" 1 7
    ∷ token Token.asterisk "*" 1 9
    ∷ token Token.minus "-" 1 11
    ∷ token Token.ident "c" 1 12
    ∷ []

sums-Reads : Reads sums sum_tokens behind
unfolding start advance
sums-Reads = moves (moves (moves (moves (moves (moves (moves (moves stays)))))))

abbrev a_b : Expr
a_b =
    member (token Token.dot "." 1 2) (identifier (token Token.ident "a" 1 1) (codes "a"))
      (codes "b")

abbrev sum_tree : Expr
sum_tree = infix_expr (token Token.plus "+" 1 5) a_b (codes "+") (
    infix_expr (token Token.asterisk "*" 1 9) (integer (token Token.int "2" 1 7) (pos 2))
      (codes "*") minus_c)

sums-Derives : Derives 1 sum_tree sum_tokens
unfolding precedence_of infix_fn_of parse_int in_int64 digits_value
sums-Derives =
    of_infix (token Token.plus "+" 1 5) refl refl (omega arith)
      (of_member (token Token.ident "b" 1 3) refl refl (omega arith) (of_atom (is_name refl)))
      (of_infix (token Token.asterisk "*" 1 9) refl refl (omega arith)
        (of_atom (is_integer refl refl))
        (of_prefix (inl refl) (omega arith) (of_atom (is_name refl))))

behind-Follows : Follows 1 behind.cur.type_of
unfolding start advance precedence_of same_type spelling
behind-Follows = record { weaker = omega arith; no_brace = refl; no_bracket = refl }

parse_expression-Derives_example :
    (stop : Parser) × (parse_expression (λ p. panics) every_float 9 1 sums ≡ done sum_tree stop)
    × (advance stop ≡ behind)
parse_expression-Derives_example =
    parse_expression-Derives (λ p. panics) every_float sums-Derives (omega arith) 9 sums behind
      sums-Reads behind-Follows (omega arith)

let_five-IsBareLet : IsBareLet (start "let 5")
unfolding start is_keyword_token same_type spelling
let_five-IsBareLet = record { at_let = refl; no_fields = refl; no_name = refl; no_keyword = refl }

parse_program-stuck_example :
    parse_program no_inline as_written every_float 100 (start "let 5") ≡ out_of_fuel
parse_program-stuck_example =
    parse_program-stuck no_inline as_written every_float 100 (start "let 5") let_five-IsBareLet

start-IsPlaced : IsPlaced (start ") x; fn").lexer
unfolding start
start-IsPlaced = record { next = refl; current = refl }

synchronize-ends_example : Synchronized 10 (start ") x; fn")
synchronize-ends_example =
    synchronize-ends 7 (start ") x; fn") start-IsPlaced (unfold start in omega arith)

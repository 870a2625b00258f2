-- ===== src/Parser/Tables.antt =====
-- The tables of compiler/parser.go, and the looks ahead on a copy of the lexer.
use serv_lang.Prelude.{
  ℕ, zero, suc, ◌+◌, ◌-◌, ◌*◌, ◌^◌, Bool, true, false, ◌&&◌, ◌||◌, [], ◌∷◌, Option, none, some,
  Bytes, codes, ◌==◌, ltb, leb, if◌then◌else◌,
}
use serv_lang.Prelude.Int.{ℤ, pos}
use serv_lang.GoStrings.{digits_value}
use serv_lang.Lexer.Token
use serv_lang.Lexer.Token.{
  Token, TokenType, ident, eof, comma, colon, lparen, lbracket, rbracket, rbrace, same_type,
}
use serv_lang.Lexer.Cursor.{Lexer}
use serv_lang.Lexer.Next.{next_token}
use serv_lang.Parser.State.{Parser, ahead, is_param_list_followed_by_brace}

-- `LOWEST` to `INDEX`
abbrev pub lowest : ℕ
lowest = 1

abbrev pub assign_level : ℕ
assign_level = 2

abbrev pub product_level : ℕ
product_level = 7

-- `precedences`; a type that is not in the map has the lowest.
unfoldable pub precedence_of : TokenType → ℕ
precedence_of Token.pipe_arrow = 3
precedence_of Token.or = 4
precedence_of Token.and = 4
precedence_of Token.arrow = 2
precedence_of Token.assign = 2
precedence_of Token.plus_assign = 2
precedence_of Token.minus_assign = 2
precedence_of Token.asterisk_assign = 2
precedence_of Token.slash_assign = 2
precedence_of Token.percent_assign = 2
precedence_of Token.eq = 5
precedence_of Token.neq = 5
precedence_of Token.lt = 5
precedence_of Token.gt = 5
precedence_of Token.lte = 5
precedence_of Token.gte = 5
precedence_of Token.pipe = 6
precedence_of Token.caret = 6
precedence_of Token.plus = 6
precedence_of Token.minus = 6
precedence_of Token.ampersand = 7
precedence_of Token.shift_left = 7
precedence_of Token.shift_right = 7
precedence_of Token.asterisk = 7
precedence_of Token.slash = 7
precedence_of Token.percent = 7
precedence_of Token.lparen = 8
precedence_of Token.dot = 9
precedence_of Token.question_dot = 9
precedence_of Token.lbracket = 10
precedence_of Token.question = 8
precedence_of _ = 1

-- `peekPrecedence`
unfoldable pub peek_precedence : Parser → ℕ
unfolding precedence_of is_param_list_followed_by_brace
peek_precedence p =
    if same_type p.peek.type_of lparen && is_param_list_followed_by_brace p
    then lowest
    else precedence_of p.peek.type_of

-- The parse functions that `NewParser` registers in front of an operand.
pub data PrefixFn : Type 0 where
  identifier_fn integer_fn float_fn string_fn duration_fn map_fn array_fn grouped_fn : PrefixFn
  f_string_fn stream_fn assert_fn nil_fn self_fn await_fn spawn_fn fn_fn prefix_fn : PrefixFn
  named_fn : Bytes → PrefixFn
  boolean_fn : Bool → PrefixFn

unfoldable pub prefix_fn_of : TokenType → Option PrefixFn
prefix_fn_of Token.ident = some identifier_fn
prefix_fn_of Token.int = some integer_fn
prefix_fn_of Token.float = some float_fn
prefix_fn_of Token.string = some string_fn
prefix_fn_of Token.duration = some duration_fn
prefix_fn_of Token.lbrace = some map_fn
prefix_fn_of Token.lbracket = some array_fn
prefix_fn_of Token.lparen = some grouped_fn
prefix_fn_of Token.fstring = some f_string_fn
prefix_fn_of Token.cache = some (named_fn [])
prefix_fn_of Token.ai = some (named_fn (codes "ai"))
prefix_fn_of Token.auth = some (named_fn (codes "auth"))
prefix_fn_of Token.mail = some (named_fn (codes "mail"))
prefix_fn_of Token.store = some (named_fn (codes "store"))
prefix_fn_of Token.search = some (named_fn (codes "search"))
prefix_fn_of Token.workflow = some (named_fn [])
prefix_fn_of Token.stream = some stream_fn
prefix_fn_of Token.assert = some assert_fn
prefix_fn_of Token.true_kw = some (boolean_fn true)
prefix_fn_of Token.false_kw = some (boolean_fn false)
prefix_fn_of Token.nil = some nil_fn
prefix_fn_of Token.self = some self_fn
prefix_fn_of Token.await = some await_fn
prefix_fn_of Token.spawn = some spawn_fn
prefix_fn_of Token.fn = some fn_fn
prefix_fn_of Token.validate = some (named_fn (codes "validate"))
prefix_fn_of Token.minus = some prefix_fn
prefix_fn_of Token.bang = some prefix_fn
prefix_fn_of _ = none

-- Those that it registers between operands.
pub data InfixFn : Type 0 where
  binary_fn pipe_fn call_fn member_fn optional_member_fn index_fn assign_fn : InfixFn
  compound_assign_fn arrow_fn error_prop_fn : InfixFn

unfoldable pub infix_fn_of : TokenType → Option InfixFn
infix_fn_of Token.plus = some binary_fn
infix_fn_of Token.minus = some binary_fn
infix_fn_of Token.asterisk = some binary_fn
infix_fn_of Token.slash = some binary_fn
infix_fn_of Token.percent = some binary_fn
infix_fn_of Token.ampersand = some binary_fn
infix_fn_of Token.pipe = some binary_fn
infix_fn_of Token.pipe_arrow = some pipe_fn
infix_fn_of Token.caret = some binary_fn
infix_fn_of Token.shift_left = some binary_fn
infix_fn_of Token.shift_right = some binary_fn
infix_fn_of Token.eq = some binary_fn
infix_fn_of Token.neq = some binary_fn
infix_fn_of Token.lt = some binary_fn
infix_fn_of Token.gt = some binary_fn
infix_fn_of Token.lte = some binary_fn
infix_fn_of Token.gte = some binary_fn
infix_fn_of Token.lparen = some call_fn
infix_fn_of Token.dot = some member_fn
infix_fn_of Token.question_dot = some optional_member_fn
infix_fn_of Token.lbracket = some index_fn
infix_fn_of Token.assign = some assign_fn
infix_fn_of Token.plus_assign = some compound_assign_fn
infix_fn_of Token.minus_assign = some compound_assign_fn
infix_fn_of Token.asterisk_assign = some compound_assign_fn
infix_fn_of Token.slash_assign = some compound_assign_fn
infix_fn_of Token.percent_assign = some compound_assign_fn
infix_fn_of Token.arrow = some arrow_fn
infix_fn_of Token.question = some error_prop_fn
infix_fn_of Token.or = some binary_fn
infix_fn_of Token.and = some binary_fn
infix_fn_of _ = none

-- What a token of a type argument list leads to: an answer, or more tokens at some depth.
pub data Look : Type 0 where
  answer : Bool → Look
  go_on : ℕ → Look

unfoldable pub look_at : TokenType → TokenType → TokenType → ℕ → Look
look_at wanted behind t depth =
    if same_type t lbracket
    then go_on (depth + 1)
    else if same_type t rbracket
    then if ltb 0 depth then go_on (depth - 1) else answer (same_type behind wanted)
    else if same_type t eof
    then answer false
    else if same_type t ident || same_type t comma
    then go_on depth
    else answer false

abbrev pub follow : Look → (ℕ → Bool) → Bool
follow (answer b) k = b
follow (go_on depth) k = k depth

-- `isGenericCallAhead` and `isGenericStructLiteralAhead`, which differ in the token that must stand
-- behind the bracket; at most as many tokens are read as the first number says.
unfoldable pub is_generic_ahead : TokenType → ℕ → ℕ → Lexer → Bool
unfolding look_at
is_generic_ahead wanted zero depth l = false
is_generic_ahead wanted (suc n) depth l =
    let (tok, l₁) = next_token l in
    follow (look_at wanted (next_token l₁).0.type_of tok.type_of depth)
      (λ d. is_generic_ahead wanted n d l₁)

-- `isStructLiteralAhead`
unfoldable pub is_struct_literal_ahead : Lexer → Bool
is_struct_literal_ahead l =
    same_type (ahead 0 l).0.type_of rbrace
    || (same_type (ahead 0 l).0.type_of ident && same_type (ahead 1 l).0.type_of colon)

unfoldable pub octal_value : ℕ → Bytes → Option ℕ
octal_value acc [] = some acc
octal_value acc (c ∷ cs) =
    let rest = octal_value (acc * 8 + (c - b'0')) cs in
    if leb b'0' c && leb c b'7' then rest else none

unfoldable pub in_int64 : Option ℕ → Option ℤ
in_int64 none = none
in_int64 (some n) = if ltb n (2 ^ 63) then some (pos n) else none

-- `strconv.ParseInt(s, 0, 64)` of a text of digits, which every integer token has: a leading zero
-- in front of others makes it octal.
unfoldable pub parse_int : Bytes → Option ℤ
unfolding octal_value digits_value in_int64
parse_int [] = none
parse_int (c ∷ []) = in_int64 (digits_value 0 (c ∷ []))
parse_int (c ∷ d ∷ cs) =
    if c == b'0' then in_int64 (octal_value 0 (d ∷ cs)) else in_int64 (digits_value 0 (c ∷ d ∷ cs))

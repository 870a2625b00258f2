-- ===== src/Diagnostics/Hints.antt =====
-- `extractToken`, `suggestFix` and `getErrorRegistryCode` of compiler/errors.go.
use serv_lang.Prelude.{
  ℕ, suc, ◌+◌, Bool, ◌&&◌, ◌||◌, [], ◌∷◌, ◌++◌, Option, none, some, Bytes, codes, String, equal,
  length, take, drop, if◌then◌else◌,
}
use serv_lang.GoStrings.{has_prefix, trim_space}
use serv_lang.Diagnostics.Distance.{find_similar_keyword}

-- `strings.Index`, `none` for -1
unfoldable pub index_of : Bytes → Bytes → Option ℕ
unfolding has_prefix
index_of [] sub = if has_prefix [] sub then some 0 else none
index_of (c ∷ s) sub =
    let further = index_of s sub in if has_prefix (c ∷ s) sub then some 0 else one_more further
  where
    one_more : Option ℕ → Option ℕ
    one_more none = none
    one_more (some i) = some (suc i)

-- `strings.Contains`
unfoldable pub contains : Bytes → Bytes → Bool
unfolding has_prefix
contains [] sub = has_prefix [] sub
contains (c ∷ s) sub = has_prefix (c ∷ s) sub || contains s sub

abbrev pub says : Bytes → String → Bool
says msg words = contains msg (codes words)

unfoldable pub cut_token : Bytes → Option ℕ → Bytes
unfolding trim_space
cut_token rest none = trim_space rest
cut_token rest (some end) = trim_space (take end rest)

unfoldable pub token_from : Bytes → Bytes → Bytes → Option ℕ → Bytes
unfolding cut_token index_of
token_from msg prefix suffix none = []
token_from msg prefix suffix (some start) =
    let rest = drop (start + length prefix) msg in cut_token rest (index_of rest suffix)

unfoldable pub extract_token : Bytes → Bytes → Bytes → Bytes
unfolding token_from index_of
extract_token msg prefix suffix = token_from msg prefix suffix (index_of msg prefix)

abbrev pub or_else : Option Bytes → Bytes → Bytes
or_else none other = other
or_else (some hint) other = hint

-- The hint on a closing bracket, with the three bytes of a dash.
abbrev pub bracket_text : Bytes
bracket_text =
    codes "unexpected closing bracket "
    ++ (0xe2 ∷ 0x80 ∷ 0x94 ∷ codes " check for missing opening bracket or extra closing bracket")

module _ (to_lower : Bytes → Bytes) where
  -- The hint for a token that begins no expression; `none` goes on with the other kinds of errors.
  unfoldable pub token_hint : Bytes → Option Bytes
  unfolding find_similar_keyword equal
  token_hint [] = none
  token_hint (c ∷ cs) = similar (find_similar_keyword to_lower (c ∷ cs))
    where
      similar : Bytes → Option Bytes
      similar [] =
          if equal (c ∷ cs) (codes "}") || equal (c ∷ cs) (codes ")") || equal (c ∷ cs) (codes "]")
          then some bracket_text
          else none
      similar (k ∷ ks) = some (codes "did you mean '" ++ ((k ∷ ks) ++ codes "'?"))

  unfoldable pub next_token_hint : Bytes → Option Bytes
  unfolding contains
  next_token_hint msg =
      if says msg "got }" || says msg "got EOF"
      then some (codes "you might be missing a closing bracket or semicolon earlier in the block")
      else if says msg "expected next token to be ="
      then some (codes "variable declarations use: let name = value")
      else if says msg "expected next token to be {"
      then some (codes "block body requires opening brace '{'")
      else if says msg "expected next token to be ("
      then some (codes "function calls require parentheses: fn name(args)")
      else none

  unfoldable pub number_hint : Bytes → Bytes
  unfolding contains
  number_hint msg =
      if says msg "could not parse" && says msg "as integer"
      then codes "make sure the number is a valid integer (no decimals, no letters)"
      else []

  unfoldable pub suggest_fix : Bytes → Bytes
  unfolding contains token_hint extract_token next_token_hint number_hint
  suggest_fix msg =
      or_else
        (if says msg "no prefix parse function for"
          then token_hint
              (extract_token msg (codes "no prefix parse function for ") (codes " found"))
          else none)
        (or_else (if says msg "expected next token to be" then next_token_hint msg else none)
          (number_hint msg))

  unfoldable pub registry_code : Bytes → Bytes
  unfolding contains
  registry_code lower =
      if says lower "expected next token to be"
      then codes "SRV-E001"
      else if says lower "no prefix parse function for"
      then codes "SRV-E002"
      else if says lower "could not parse"
      then codes "SRV-E003"
      else if says lower "unused variable"
      then codes "SRV-E004"
      else if says lower "unreachable code"
      then codes "SRV-E005"
      else if says lower "expects type"
          || says lower "mismatched type"
          || says lower "type mismatch"
      then codes "SRV-E006"
      else if says lower "already declared"
          || says lower "duplicate declaration"
          || says lower "redefined"
      then codes "SRV-E007"
      else if says lower "undefined" || says lower "unknown identifier"
      then codes "SRV-E008"
      else if says lower "cyclic" || says lower "cycle"
      then codes "SRV-E009"
      else if says lower "missing required property" || says lower "schema validation"
      then codes "SRV-E010"
      else []

  -- `getErrorRegistryCode`: the code and the place of its description.
  unfoldable pub get_error_registry_code : Bytes → Bytes × Bytes
  unfolding registry_code
  get_error_registry_code msg = described (registry_code (to_lower msg))
    where
      described : Bytes → Bytes × Bytes
      described [] = ([], [])
      described (c ∷ cs) = (
        c ∷ cs,
        codes "https://github.com/vyuvaraj/Serv-lang/blob/main/docs/errors.md#" ++ (c ∷ cs),
      )

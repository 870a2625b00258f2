-- ===== src/Lexer/Keywords.antt =====
-- `lookupIdent` and `isKeywordToken` agree.
use serv_lang.Prelude.{
  ◌≡◌, ◌≢◌, ◌↔◌, ◌⊎◌, refl, sym, ap, ◌∙◌, Bool, true, false, not, ◌&&◌, List, [], ◌∷◌, Bytes, arith,
  Bool-cases, inl, inr, equal,
}
use mathlib.Core.Bool.{false≢true}
use text.Mathlib.TextEquality.{eq_iff}
use serv_lang.Lexer.Token.{
  TokenType, keywords, find_keyword, lookup_ident, any_keyword, same_type, is_keyword_token,
  spelling,
}

same_type_iff : (a b : TokenType) → (same_type a b ≡ true) ↔ (spelling a ≡ spelling b)
unfolding same_type
same_type_iff a b = unfold spelling in eq_iff (spelling a) (spelling b)

same_type_trans :
    (a b c : TokenType) → same_type a b ≡ true → same_type b c ≡ true → same_type a c ≡ true
same_type_trans a b c p q =
    (same_type_iff a c).1 ((same_type_iff a b).0 p ∙ (same_type_iff b c).0 q)

-- What a search finds is `IDENT`, or the type of an entry.
find_keyword-any :
    (word : Bytes) (kws : List (Bytes × TokenType))
    → (find_keyword word kws ≡ TokenType.ident) ⊎ (any_keyword (find_keyword word kws) kws ≡ true)
unfolding find_keyword any_keyword
find_keyword-any word [] = inl refl
find_keyword-any word ((kw, t) ∷ kws) = elim (Bool-cases (equal kw word)) [
  | inl here ↦ inr (rw here (rw (same_type_iff t t).1 refl))
  | inr further ↦ elim (find_keyword-any word kws) [
    | inl none_there ↦ inl (ground arith)
    | inr found ↦ inr (ground arith)
  ]
]

all_entries : (Bytes × TokenType → Bool) → List (Bytes × TokenType) → Bool
all_entries p [] = true
all_entries p (e ∷ es) = p e && all_entries p es

-- An entry that `isKeywordToken` finds passes what all entries pass.
any_keyword-entry :
    (p : Bytes × TokenType → Bool) (t : TokenType) (kws : List (Bytes × TokenType))
    → all_entries p kws ≡ true
    → any_keyword t kws ≡ true
    → (e : Bytes × TokenType) × (p e ≡ true) × (same_type e.1 t ≡ true)
unfolding all_entries any_keyword
any_keyword-entry p t [] a h = cc
any_keyword-entry p t ((kw, t') ∷ kws) a h = elim (Bool-cases (same_type t' t)) [
  | inl here ↦ ((kw, t'), ground arith, here)
  | inr further ↦ any_keyword-entry p t kws (ground arith) (ground arith)
]

any_keyword-same :
    (a b : TokenType) (kws : List (Bytes × TokenType))
    → same_type a b ≡ true
    → any_keyword a kws ≡ true
    → any_keyword b kws ≡ true
unfolding any_keyword
any_keyword-same a b [] s h = h
any_keyword-same a b ((kw, t) ∷ kws) s h =
    ground (arith, same_type_trans t a b, any_keyword-same a b kws)

-- The entry's word is looked up as its type, which is not `IDENT`.
abbrev is_own : Bytes × TokenType → Bool
is_own e = same_type (lookup_ident e.0) e.1 && not (same_type e.1 TokenType.ident)

keywords-is_own : all_entries is_own keywords ≡ true
unfolding all_entries lookup_ident same_type
keywords-is_own = refl

own_and_sound : (a b : Bool) → (a && not b) ≡ true → (a ≡ true) × (b ≡ false)
own_and_sound a b h = (ground arith, ground arith)

of_keyword_token :
    (t : TokenType)
    → is_keyword_token t ≡ true
    → (word : Bytes) × (same_type (lookup_ident word) t ≡ true)
      × (lookup_ident word ≢ TokenType.ident)
unfolding is_keyword_token
of_keyword_token t h =
    let (e, own, same) = any_keyword-entry is_own t keywords keywords-is_own h in
    let (looked, other) = own_and_sound (same_type (lookup_ident e.0) e.1) _ own in
    (
      e.0,
      same_type_trans (lookup_ident e.0) e.1 t looked same,
      λ bad. false≢true (
          sym other
          ∙ (same_type_iff e.1 TokenType.ident).1
              (sym ((same_type_iff (lookup_ident e.0) e.1).0 looked) ∙ ap spelling bad)),
    )

keyword_token-lookup_ident :
    (word : Bytes) (t : TokenType)
    → same_type (lookup_ident word) t ≡ true
    → lookup_ident word ≢ TokenType.ident
    → is_keyword_token t ≡ true
unfolding is_keyword_token lookup_ident
keyword_token-lookup_ident word t same ne = elim (find_keyword-any word keywords) [
  | inl unknown ↦ absurd (ne unknown)
  | inr found ↦ any_keyword-same (find_keyword word keywords) t keywords same found
]

-- `isKeywordToken` holds of exactly the types that `lookupIdent` returns for some word, `IDENT`
-- apart.
pub is_keyword_token_iff :
    (t : TokenType)
    → (is_keyword_token t ≡ true) ↔ (
        (word : Bytes) × (same_type (lookup_ident word) t ≡ true)
        × (lookup_ident word ≢ TokenType.ident))
is_keyword_token_iff t =
    (of_keyword_token t, λ found. keyword_token-lookup_ident found.0 t found.1 found.2)

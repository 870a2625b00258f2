-- ===== src/Diagnostics/Keywords.antt =====
-- What `findSimilarKeyword` suggests.
use serv_lang.Prelude.{
  ℕ, ◌+◌, ◌≤◌, ◌≡◌, refl, ap, ◌∙◌, false, List, [], ◌∷◌, Bytes, codes, length, drop, arith, equal,
}
use serv_lang.Diagnostics.Distance.{levenshtein, first_similar, find_similar_keyword, suggested}
use serv_lang.Diagnostics.Scripts.{nothing, changes, inserts, levenshtein-Edits, levenshtein-length}

-- A word that is longer by three bytes is passed.
first_similar-longer :
    (token kw : Bytes) (kws : List Bytes)
    → length token + 3 ≤ length kw
    → first_similar token (kw ∷ kws) ≡ first_similar token kws
unfolding first_similar
first_similar-longer token kw kws far = let apart = levenshtein-length token kw in ground arith

first_similar-near :
    (token kw : Bytes) (kws : List Bytes)
    → levenshtein token kw ≤ 2
    → equal token kw ≡ false
    → first_similar token (kw ∷ kws) ≡ kw
unfolding first_similar
first_similar-near token kw kws near other = ground arith

-- One byte and `fn` are two edits apart.
near_fn : (d : ℕ) → levenshtein (d ∷ []) (codes "fn") ≤ 2
near_fn d = (levenshtein-Edits (d ∷ []) (codes "fn")).1 2 (changes d b'f' (inserts b'n' nothing))

-- Whatever the one byte is that a token has in lower case, the suggestion is `fn`.
pub find_similar_keyword-one_byte :
    (to_lower : Bytes → Bytes) (token : Bytes) (d : ℕ)
    → to_lower token ≡ d ∷ []
    → find_similar_keyword to_lower token ≡ codes "fn"
unfolding find_similar_keyword
find_similar_keyword-one_byte to_lower token d one =
    ap (λ s. first_similar s suggested) one
    ∙ (first_similar-longer (d ∷ []) (codes "server") (drop 1 suggested) (omega arith)
        ∙ (first_similar-longer (d ∷ []) (codes "database") (drop 2 suggested) (omega arith)
            ∙ (first_similar-longer (d ∷ []) (codes "cache") (drop 3 suggested) (omega arith)
                ∙ (first_similar-longer (d ∷ []) (codes "broker") (drop 4 suggested) (omega arith)
                    ∙ (first_similar-longer (d ∷ []) (codes "route") (drop 5 suggested)
                          (omega arith)
                        ∙ first_similar-near (d ∷ []) (codes "fn") (drop 6 suggested) (near_fn d)
                            (unfold equal in refl))))))

-- ===== src/Cache/Lookup.antt =====
-- What `CacheGet` finds behind a `CacheSet`.
use serv_lang.Prelude.{
  ◌≡◌, ◌≢◌, refl, ap, ◌∙◌, false, Option, none, some, Bytes, codes, equal, equal_iff, ◌++◌,
  if◌then◌else◌, Bool-cases, inl, inr, ◌⊎◌,
}
use serv_lang.Prelude.Int.{ℤ, pos, ◌+ℤ◌, ltb_ℤ}
use serv_lang.Cache.Local.{
  Entry, Local, Mocks, put, remove, cache_set, cache_get, read_entry, is_expired, or_default,
}

not_equal : (key other : Bytes) → key ≢ other → equal key other ≡ false
not_equal key other apart = elim (Bool-cases (equal key other)) [
  | inl same ↦ absurd (apart ((equal_iff key other).0 same))
  | inr differ ↦ differ
]

or_default_lem :
    (read : Option ℤ) (lasts : ℤ)
    → read ≡ some lasts ⊎ (read ≡ none) × (lasts ≡ pos 600_000_000_000)
    → or_default read ≡ lasts
unfolding or_default
or_default_lem read lasts (inl found) = rw found refl
or_default_lem read lasts (inr (absent, same)) = rw (absent, same) refl

module _ {Value : Type 0} where
  pub put-same :
      (key : Bytes) (e : Entry Value) (cache : Local Value) → put key e cache key ≡ some e
  unfolding put
  put-same key e cache = rw ((equal_iff key key).1 refl) refl

  pub remove-same : (key : Bytes) (cache : Local Value) → remove key cache key ≡ none
  unfolding remove
  remove-same key cache = rw ((equal_iff key key).1 refl) refl

  put-other :
      (key other : Bytes) (e : Entry Value) (cache : Local Value)
      → key ≢ other
      → put key e cache other ≡ cache other
  unfolding put
  put-other key other e cache apart = rw (not_equal key other apart) refl

  cache_get-entry :
      (mocks : Mocks Value) (now : ℤ) (key : Bytes) (cache : Local Value)
      → mocks (codes "runtime.CacheGet:" ++ key) ≡ none
      → cache_get mocks now key cache ≡ read_entry now key (cache key) cache
  unfolding cache_get
  cache_get-entry mocks now key cache none_there = simp none_there

  cache_set-entry :
      (mocks : Mocks Value) (parse : Bytes → Option ℤ) (now : ℤ) (key : Bytes) (v : Value)
      (duration : Bytes) (cache : Local Value)
      → mocks (codes "runtime.CacheSet:" ++ key) ≡ none
      → cache_set mocks parse now key v duration cache
        ≡ put key (record { value = v; expiration = now +ℤ or_default (parse duration) }) cache
  unfolding cache_set
  cache_set-entry mocks parse now key v duration cache none_there = simp none_there

  read_entry-value :
      (now : ℤ) (key : Bytes) (e : Entry Value) (cache : Local Value)
      → (read_entry now key (some e) cache).0
        ≡ (if ltb_ℤ (e.expiration) now then none else some (e.value))
  unfolding read_entry is_expired
  read_entry-value now key e cache = elim (Bool-cases (ltb_ℤ (e.expiration) now)) [
    | inl past ↦ simp past
    | inr within ↦ simp within
  ]

  -- Without mocks for the key, a value that was set is found until its duration has passed and not after,
  -- where the duration is ten minutes if its text is none that is read; what any other key has stays.
  pub cache_get-cache_set :
      (mocks : Mocks Value) (parse : Bytes → Option ℤ) (now later : ℤ) (key : Bytes) (v : Value)
      (duration : Bytes) (cache : Local Value)
      → mocks (codes "runtime.CacheSet:" ++ key) ≡ none
      → mocks (codes "runtime.CacheGet:" ++ key) ≡ none
      → (lasts : ℤ)
      → parse duration ≡ some lasts ⊎ (parse duration ≡ none) × (lasts ≡ pos 600_000_000_000)
      → (other : Bytes) → key ≢ other
      → let stored = cache_set mocks parse now key v duration cache in
        ((cache_get mocks later key stored).0
          ≡ (if ltb_ℤ (now +ℤ lasts) later then none else some v))
        × (stored other ≡ cache other)
  cache_get-cache_set mocks parse now later key v duration cache no_set no_get lasts agrees other
        apart =
      let e : Entry Value = record { value = v; expiration = now +ℤ or_default (parse duration) } in
      let stored = cache_set-entry mocks parse now key v duration cache no_set in
      (
        ap (λ c. (cache_get mocks later key c).0) stored
            ∙ (ap (λ r. r.0) (cache_get-entry mocks later key (put key e cache) no_get)
                ∙ (ap (λ o. (read_entry later key o (put key e cache)).0) (put-same key e cache)
                    ∙ (read_entry-value later key e (put key e cache)
                        ∙ ap (λ d. if ltb_ℤ (now +ℤ d) later then none else some v)
                            (or_default_lem (parse duration) lasts agrees)))),
        ap (λ c. c other) stored ∙ put-other key other e cache apart,
      )

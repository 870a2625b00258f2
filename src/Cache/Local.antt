-- ===== src/Cache/Local.antt =====
-- `CacheSet`, `CacheGet` and `ClearCache` of runtime/cache.go where no Redis is connected, and the mocks
-- of runtime/mock.go. Times are nanoseconds.
use serv_lang.Prelude.{
  Bool, List, [], ◌∷◌, ◌++◌, Option, none, some, Bytes, codes, equal, if◌then◌else◌,
}
use serv_lang.Prelude.Int.{ℤ, pos, ◌+ℤ◌, ltb_ℤ}

-- `localCacheEntry`
pub record Entry (Value : Type 0) : Type 0 where
  pub value : Value
  pub expiration : ℤ

-- `localCache`: what each key has.
abbrev pub Local : Type 0 → Type 0
Local Value = Bytes → Option (Entry Value)

-- What a mock is called with.
pub data Argument (Value : Type 0) : Type 0 where
  text_argument : Bytes → Argument Value
  value_argument : Value → Argument Value

-- `activeMocks`
abbrev pub Mocks : Type 0 → Type 0
Mocks Value = Bytes → Option (List (Argument Value) → Option Value)

-- `10 * time.Minute`
abbrev pub default_duration : ℤ
default_duration = pos 600_000_000_000

unfoldable pub or_default : Option ℤ → ℤ
or_default none = default_duration
or_default (some d) = d

module _ {Value : Type 0} where
  unfoldable pub put : Bytes → Entry Value → Local Value → Local Value
  unfolding equal
  put key e cache k = if equal key k then some e else cache k

  -- `delete`
  unfoldable pub remove : Bytes → Local Value → Local Value
  unfolding equal
  remove key cache k = if equal key k then none else cache k

  -- `RegisterMock`
  unfoldable pub register_mock :
      Bytes → (List (Argument Value) → Option Value) → Mocks Value → Mocks Value
  unfolding equal
  register_mock key mock mocks k = if equal key k then some mock else mocks k

  -- `ClearMocks`
  unfoldable pub no_mocks : Mocks Value
  no_mocks key = none

  -- `ClearCache`
  unfoldable pub empty_cache : Local Value
  empty_cache key = none

  -- `time.ParseDuration` is an argument, and so is the clock.
  unfoldable pub cache_set :
      Mocks Value → (Bytes → Option ℤ) → ℤ → Bytes → Value → Bytes → Local Value → Local Value
  unfolding put ◌+ℤ◌
  cache_set mocks parse_duration now key v duration cache =
      unless_mocked (mocks (codes "runtime.CacheSet:" ++ key))
    where
      unless_mocked : Option (List (Argument Value) → Option Value) → Local Value
      unless_mocked (some mock) = cache
      unless_mocked none =
          put key (record { value = v; expiration = now +ℤ or_default (parse_duration duration) })
            cache

  -- An entry that is past its expiration.
  unfoldable pub is_expired : ℤ → Entry Value → Bool
  is_expired now e = ltb_ℤ (e.expiration) now

  -- What `CacheGet` makes of the entry that it has read.
  unfoldable pub read_entry :
      ℤ → Bytes → Option (Entry Value) → Local Value → Option Value × Local Value
  unfolding is_expired remove
  read_entry now key none cache = (none, cache)
  read_entry now key (some e) cache =
      if is_expired now e then (none, remove key cache) else (some (e.value), cache)

  unfoldable pub cache_get : Mocks Value → ℤ → Bytes → Local Value → Option Value × Local Value
  unfolding read_entry
  cache_get mocks now key cache = unless_mocked (mocks (codes "runtime.CacheGet:" ++ key))
    where
      unless_mocked : Option (List (Argument Value) → Option Value) → Option Value × Local Value
      unless_mocked (some mock) = (mock (text_argument key ∷ []), cache)
      unless_mocked none = read_entry now key (cache key) cache

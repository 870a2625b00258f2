-- ===== src/Cache/Tests.antt =====
-- The local cache at concrete times.
use serv_lang.Prelude.{ℕ, inl, arith, ◌≡◌, refl, Bytes, codes, Option, none, some, if◌then◌else◌}
use serv_lang.Prelude.Int.{ℤ, pos, ◌+ℤ◌, ltb_ℤ}
use serv_lang.Cache.Local.{Local, or_default, cache_set, cache_get, empty_cache, no_mocks}
use serv_lang.Cache.Lookup.{cache_get-cache_set}

-- The only duration that is read is a second.
abbrev seconds : Bytes → Option ℤ
seconds d = some (pos 1_000_000_000)

abbrev stored : Local ℕ
stored = cache_set no_mocks seconds (pos 5) (codes "k") 7 (codes "1s") empty_cache

found_in_time : (cache_get no_mocks (pos 1_000_000_005) (codes "k") stored).0 ≡ some 7
unfolding cache_set cache_get no_mocks empty_cache or_default
found_in_time = refl

gone_afterwards : (cache_get no_mocks (pos 1_000_000_006) (codes "k") stored).0 ≡ none
unfolding cache_set cache_get no_mocks empty_cache or_default
gone_afterwards = refl

-- A mock that answers nothing hides the cache.
mock_hides : (cache_get (λ k. some (λ arguments. none)) (pos 6) (codes "k") stored).0 ≡ none
unfolding cache_set cache_get empty_cache or_default
mock_hides = refl

cache_get-cache_set_example :
    ((cache_get no_mocks (pos 6) (codes "k") stored).0
      ≡ (if ltb_ℤ (pos 5 +ℤ pos 1_000_000_000) (pos 6) then none else some 7))
    × (stored (codes "j") ≡ empty_cache (codes "j"))
unfolding no_mocks
cache_get-cache_set_example =
    cache_get-cache_set no_mocks seconds (pos 5) (pos 6) (codes "k") 7 (codes "1s") empty_cache refl
      refl (pos 1_000_000_000) (inl refl) (codes "j") (λ e. ground arith)

-- ===== src/Util/LruCache/Tests.antt =====
-- The cache on keys and values that are numbers.
use busybee.Prelude.{ℕ, refl, Bool, List, [], ◌∷◌, ◌==◌, arith}
use busybee.Util.LruCache.{CacheEntry, Cache, new_lru_cache}
use busybee.Util.LruCache.Accounting.{
  Request, add_request, get_request, remove_request, IsCounted, run, run-IsCounted,
}

abbrev same : ℕ → ℕ → Bool
same a b = a == b

-- 60 bytes and 70 bytes do not fit 100 bytes, so the third addition evicts
abbrev requests : List (Request ℕ ℕ)
requests =
    add_request 1 10 60
    ∷ get_request 1
    ∷ add_request 2 20 30
    ∷ add_request 3 30 70
    ∷ remove_request 2
    ∷ []

run-IsCounted_example : IsCounted (run same requests (new_lru_cache 100))
unfolding new_lru_cache
run-IsCounted_example =
    run-IsCounted same requests (new_lru_cache 100) (ground arith) (record { sum = refl; fit = tt })

abbrev one_entry : CacheEntry ℕ ℕ
one_entry = record { key = 1; value = 10; size = 60 }

abbrev small : Cache ℕ ℕ
small = record { max_bytes = 100; current = 60; entries = one_entry ∷ [] }

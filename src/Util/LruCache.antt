-- ===== src/Util/LruCache.antt =====
-- pkg/util/lru_bm_cache.go: the cache of bitmaps. The source's map points to the elements of its
-- list, whose entries are all that the model keeps, most recent first; a cleared cache has neither
-- and behaves as an empty one. What `OnEvicted` is called with is the second part of a result. The
-- locks are left out: operations follow each other.
pub mod Accounting
mod Tests
use busybee.Prelude.{
  ℕ, ◌+◌, ◌-◌, ◌%◌, Bool, true, false, not, Option, none, some, List, [], ◌∷◌, ◌++◌, ◌&&◌, ltb,
  ◌==◌, length, if◌then◌else◌,
}

abbrev pub u64 : ℕ
u64 = 18446744073709551616

pub record CacheEntry (K V : Type 0) : Type 0 where
  pub key : K
  pub value : V
  pub size : ℕ

pub record Cache (K V : Type 0) : Type 0 where
  pub max_bytes : ℕ
  pub current : ℕ
  pub entries : List (CacheEntry K V)

-- `NewLRUCache`
unfoldable pub new_lru_cache : {K V : Type 0} → ℕ → Cache K V
new_lru_cache max_bytes = record { max_bytes = max_bytes; current = 0; entries = [] }

abbrev pub Evicted : Type 0 → Type 0 → Type 0
Evicted K V = List (CacheEntry K V)

-- `ll.Back()` and the rest of the list
unfoldable pub split_back :
    {K V : Type 0} → List (CacheEntry K V) → Option (CacheEntry K V × List (CacheEntry K V))
split_back [] = none
split_back (e ∷ es) = elim (split_back es) [
  | none ↦ some (e, [])
  | some (b, rest) ↦ some (b, e ∷ rest)
]

-- `removeOldest`
unfoldable pub remove_oldest : {K V : Type 0} → Cache K V → Cache K V × Evicted K V
unfolding split_back
remove_oldest c = elim (split_back c.entries) [
  | none ↦ (c, [])
  | some (e, rest) ↦
      (record c { entries = rest; current = (c.current + u64 - e.size) % u64 }, e ∷ [])
]

-- `same` is the equality of keys
module _ {K V : Type 0} (same : K → K → Bool) where
  -- the map's element for a key, and the list without it
  unfoldable pub take_out :
      K → List (CacheEntry K V) → Option (CacheEntry K V × List (CacheEntry K V))
  take_out key [] = none
  take_out key (e ∷ es) =
      let later = take_out key es in
      if same e.key key
      then some (e, es)
      else elim later [ none ↦ none | some (f, rest) ↦ some (f, e ∷ rest) ]

  unfoldable pub add : K → V → ℕ → Cache K V → Cache K V × Evicted K V
  unfolding take_out remove_oldest
  add key value size c = elim (take_out key c.entries) [
    | some (e, rest) ↦ (
      record c {
        current = ((c.current + u64 - e.size) % u64 + size) % u64;
        entries = record e { value = value; size = size } ∷ rest;
      },
      [],
    )
    | none ↦
        let grown = record c {
          current = (c.current + size) % u64;
          entries = record { key = key; value = value; size = size } ∷ c.entries;
        } in
        if not (c.max_bytes == 0) && ltb c.max_bytes grown.current
        then remove_oldest grown
        else (grown, [])
  ]

  unfoldable pub get : K → Cache K V → Cache K V × Option V
  unfolding take_out
  get key c = elim (take_out key c.entries) [
    | some (e, rest) ↦ (record c { entries = e ∷ rest }, some e.value)
    | none ↦ (c, none)
  ]

  unfoldable pub remove : K → Cache K V → Cache K V × Evicted K V
  unfolding take_out
  remove key c = elim (take_out key c.entries) [
    | some (e, rest) ↦
        (record c { entries = rest; current = (c.current + u64 - e.size) % u64 }, e ∷ [])
    | none ↦ (c, [])
  ]

-- `Len`
unfoldable pub len : {K V : Type 0} → Cache K V → ℕ
len c = length c.entries

-- `Clear`; the source's map gives the evicted entries in any order
unfoldable pub clear : {K V : Type 0} → Cache K V → Cache K V × Evicted K V
clear c = (record c { current = 0; entries = [] }, c.entries)

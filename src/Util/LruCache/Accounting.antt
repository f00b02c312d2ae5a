-- ===== src/Util/LruCache/Accounting.antt =====
-- What the cache of pkg/util/lru_bm_cache.go counts, and what it holds after an addition.
use busybee.Prelude.{
  ◌-◌, ℕ, ◌+◌, ◌%◌, ◌<◌, ◌≡◌, refl, Bool, true, false, Option, none, some, List, [], ◌∷◌, arith,
  All, Option-cases, Bool-cases, inl, inr, ◌==◌, ltb, not, ◌&&◌, if◌then◌else◌,
}
use busybee.Util.LruCache.{
  u64, CacheEntry, Cache, Evicted, split_back, remove_oldest, take_out, add, get, remove, clear,
}

abbrev pub total : {K V : Type 0} → List (CacheEntry K V) → ℕ
total [] = 0
total (e ∷ es) = e.size + total es

-- the counter is the sum of the sizes, and each size fits `uint64`
pub record IsCounted {K V : Type 0} (c : Cache K V) : Type 0 where
  pub sum : c.current ≡ total c.entries % u64
  pub fit : All (λ e. e.size < u64) c.entries

pub data Request (K V : Type 0) : Type 0 where
  add_request : K → V → ℕ → Request K V
  get_request : K → Request K V
  remove_request : K → Request K V
  clear_request : Request K V

abbrev pub FitsSize : {K V : Type 0} → Request K V → Type 0
FitsSize (add_request key value size) = size < u64
FitsSize _ = Unit

-- The element that is split off, and the rest, have the sizes of the whole.
pub data Splits {K V : Type 0} (es : List (CacheEntry K V))
    : Option (CacheEntry K V × List (CacheEntry K V)) → Type 0 where
  absent : Splits es none
  found :
      (e : CacheEntry K V) (rest : List (CacheEntry K V))
      → total es ≡ e.size + total rest
      → e.size < u64
      → All (λ x. x.size < u64) rest
      → Splits es (some (e, rest))

split_back-none : {K V : Type 0} (es : List (CacheEntry K V)) → split_back es ≡ none → es ≡ []
unfolding split_back
split_back-none [] h = refl
split_back-none (e ∷ es) h = ground arith

split_back-Splits :
    {K V : Type 0} (es : List (CacheEntry K V))
    → All (λ e. e.size < u64) es
    → Splits es (split_back es)
unfolding split_back
split_back-Splits [] h = absent
split_back-Splits {K} {V} (e ∷ es) h = go (split_back es) refl (split_back-Splits es h.1)
  where
    go :
        (o : Option (CacheEntry K V × List (CacheEntry K V)))
        → split_back es ≡ o
        → Splits es o
        → Splits (e ∷ es) (elim o [ none ↦ some (e, []) | some (b, rest) ↦ some (b, e ∷ rest) ])
    go none same absent = let empty = split_back-none es same in found e [] (rw empty refl) h.0 tt
    go (some _) same (found b rest t f a) = found b (e ∷ rest) (omega arith) f (h.0, a)

-- an eviction subtracts the size of the oldest entry
remove_oldest-IsCounted :
    {K V : Type 0} (c : Cache K V) → IsCounted c → IsCounted (remove_oldest c).0
unfolding remove_oldest
remove_oldest-IsCounted {K} {V} c h = go (split_back c.entries) (split_back-Splits c.entries h.fit)
  where
    go :
        (o : Option (CacheEntry K V × List (CacheEntry K V)))
        → Splits c.entries o
        → IsCounted
            (elim o as (λ _. Cache K V × Evicted K V) [
              | none ↦ (c, [])
              | some (e, rest) ↦
                  (record c { entries = rest; current = (c.current + u64 - e.size) % u64 }, e ∷ [])
            ]).0
    go none absent = h
    go (some _) (found e rest t f a) = record { sum = omega (arith, h.sum); fit = a }

module _ {K V : Type 0} (same : K → K → Bool) where
  take_out-Splits :
      (key : K) (es : List (CacheEntry K V))
      → All (λ e. e.size < u64) es
      → Splits es (take_out same key es)
  unfolding take_out
  take_out-Splits key [] h = absent
  take_out-Splits key (e ∷ es) h =
      go (same e.key key) (take_out same key es) (take_out-Splits key es h.1)
    where
      go :
          (b : Bool) (o : _)
          → Splits es o
          → Splits (e ∷ es) (
              if b
              then some (e, es)
              else elim o [ none ↦ none | some (f, rest) ↦ some (f, e ∷ rest) ])
      go true o sp = found e es refl h.0 h.1
      go false none sp = absent
      go false (some _) (found b rest t f a) = found b (e ∷ rest) (omega arith) f (h.0, a)

  pub serve : Request K V → Cache K V → Cache K V
  serve (add_request key value size) c = (add same key value size c).0
  serve (get_request key) c = (get same key c).0
  serve (remove_request key) c = (remove same key c).0
  serve clear_request c = (clear c).0

  serve-IsCounted :
      (q : Request K V) (c : Cache K V) → FitsSize q → IsCounted c → IsCounted (serve q c)
  unfolding serve add get remove clear
  serve-IsCounted (add_request key value size) c f h =
      go (take_out same key c.entries) (take_out-Splits key c.entries h.fit)
    where
      go :
          (o : Option (CacheEntry K V × List (CacheEntry K V)))
          → Splits c.entries o
          → IsCounted
              (elim o as (λ _. Cache K V × Evicted K V) [
                | some (e, rest) ↦ (
                  record c {
                    current = ((c.current + u64 - e.size) % u64 + size) % u64;
                    entries = record e { value = value; size = size } ∷ rest;
                  },
                  [],
                )
                | none ↦
                    let grown = record c {
                      current = (c.current + size) % u64;
                      entries = record { key = key; value = value; size = size } ∷ c.entries;
                    } in
                    if not (c.max_bytes == 0) && ltb c.max_bytes grown.current
                    then remove_oldest grown
                    else (grown, [])
              ]).0
      go none absent =
          let grown : Cache K V = record c {
            current = (c.current + size) % u64;
            entries = record { key = key; value = value; size = size } ∷ c.entries;
          } in
          let counted : IsCounted grown = record { sum = omega (arith, h.sum); fit = (f, h.fit) } in
          elim (Bool-cases (not (c.max_bytes == 0) && ltb c.max_bytes grown.current)) [
            | inl y ↦ rw y (remove_oldest-IsCounted grown counted)
            | inr n ↦ rw n counted
          ]
      go (some _) (found e rest t g a) = record { sum = omega (arith, h.sum); fit = (f, a) }
  serve-IsCounted (get_request key) c f h =
      go (take_out same key c.entries) (take_out-Splits key c.entries h.fit)
    where
      go :
          (o : Option (CacheEntry K V × List (CacheEntry K V)))
          → Splits c.entries o
          → IsCounted
              (elim o as (λ _. Cache K V × Option V) [
                | some (e, rest) ↦ (record c { entries = e ∷ rest }, some e.value)
                | none ↦ (c, none)
              ]).0
      go none absent = h
      go (some _) (found e rest t g a) = record { sum = omega (arith, h.sum); fit = (g, a) }
  serve-IsCounted (remove_request key) c f h =
      go (take_out same key c.entries) (take_out-Splits key c.entries h.fit)
    where
      go :
          (o : Option (CacheEntry K V × List (CacheEntry K V)))
          → Splits c.entries o
          → IsCounted
              (elim o as (λ _. Cache K V × Evicted K V) [
                | some (e, rest) ↦ (
                  record c { entries = rest; current = (c.current + u64 - e.size) % u64 },
                  e ∷ [],
                )
                | none ↦ (c, [])
              ]).0
      go none absent = h
      go (some _) (found e rest t g a) = record { sum = omega (arith, h.sum); fit = a }
  serve-IsCounted clear_request c f h = record { sum = refl; fit = tt }

  unfoldable pub run : List (Request K V) → Cache K V → Cache K V
  run [] c = c
  run (q ∷ qs) c = run qs (serve q c)

  -- After any sequence of additions (of sizes that fit `uint64`), lookups, removals and clears, the
  -- cache's counter is the sum of the sizes of its entries, modulo 2^64.
  pub run-IsCounted :
      (qs : List (Request K V)) (c : Cache K V)
      → All FitsSize qs
      → IsCounted c
      → IsCounted (run qs c)
  unfolding run
  run-IsCounted [] c f h = h
  run-IsCounted (q ∷ qs) c f h = run-IsCounted qs (serve q c) f.1 (serve-IsCounted q c f.0 h)

  take_out-same :
      (key : K) (es rest : List (CacheEntry K V)) (e : CacheEntry K V)
      → take_out same key es ≡ some (e, rest)
      → same e.key key ≡ true
  unfolding take_out
  take_out-same key [] rest e h = absurd (ground arith)
  take_out-same key (x ∷ es) rest e h = elim (Bool-cases (same x.key key)) [
    | inl y ↦ ground arith
    | inr n ↦ elim (Option-cases (take_out same key es)) [
      | inl z ↦ absurd (ground arith)
      | inr ((f, more), z) ↦ ground (arith, take_out-same key es more f z)
    ]
  ]

  -- A cache that is not empty finds the value that was added last under its key, whether the key
  -- was there or not and even where the addition evicts an entry.
  pub get-add :
      (key : K) (value : V) (size : ℕ) (c : Cache K V) (e : CacheEntry K V)
      (es : List (CacheEntry K V))
      → same key key ≡ true
      → c.entries ≡ e ∷ es
      → (get same key (add same key value size c).0).1 ≡ some value
  unfolding get add remove_oldest take_out split_back
  get-add key value size c e es r h = elim (Option-cases (take_out same key c.entries)) [
    | inl z ↦ elim (Option-cases (split_back es)) [
      | inl w ↦ ground (arith, h, r, z, w)
      | inr ((b, rest), w) ↦ ground (arith, h, r, z, w)
    ]
    | inr ((f, rest), z) ↦ ground (arith, take_out-same key c.entries rest f z)
  ]

-- ===== src/Storage/Kv/Ids/Ranges.antt =====
-- The ids that `allocID` of pkg/storage/cmd_handler_kv.go hands out, over any number of calls.
use busybee.Prelude.{
  map, ℕ, ◌+◌, ◌%◌, ◌<◌, ◌≡◌, refl, some, List, [], ◌∷◌, Bytes, is_empty, length, All, arith, false,
}
use busybee.Storage.Engine.{DataStorage, done, each, each-nil, each-cons}
use busybee.Storage.Wire.{Wire, u32_mod}
use busybee.Storage.Reply.{Reply, Response, id_range}
use busybee.Storage.Kv.Ids.{alloc_id}

-- consecutive ranges of the given sizes, above `n`
abbrev pub ranges : ℕ → List ℕ → List Response
ranges n [] = []
ranges n (b ∷ bs) = id_range (n + 1) (n + b) ∷ ranges (n + b) bs

abbrev pub response_of : Reply → Response
response_of r = r.response

abbrev pub sum : List ℕ → ℕ
sum [] = 0
sum (b ∷ bs) = b + sum bs

module _ {S : Type 0} (D : DataStorage S) (W : Wire) where
  -- the counter of a key: absent, or four bytes
  pub data Counts (s : S) (key : Bytes) (n : ℕ) : Type 0 where
    absent : D.get s key ≡ some [] → n ≡ 0 → Counts s key n
    stored : D.get s key ≡ some (W.uint32_to_bytes n) → n < u32_mod → Counts s key n

  is_empty-uint32 : (n : ℕ) → is_empty (W.uint32_to_bytes n) ≡ false
  is_empty-uint32 n = go (W.uint32_to_bytes n) (W.length-uint32 n)
    where
      go : (xs : Bytes) → length xs ≡ 4 → is_empty xs ≡ false
      go [] h = absurd (omega arith)
      go (x ∷ xs) h = refl

  -- One allocation answers with the `batch` ids above the counter, and moves the counter past them.
  pub alloc_id_next :
      (key : Bytes) (batch n : ℕ) (s t : S) (r : Reply)
      → Counts s key n
      → 0 < batch
      → n + batch < u32_mod
      → alloc_id D W key batch s ≡ done (r, t)
      → (r.response ≡ id_range (n + 1) (n + batch)) × Counts t key (n + batch)
  unfolding alloc_id
  alloc_id_next key batch n s t r c p h x =
      let end : (n + batch % u32_mod) % u32_mod ≡ n + batch = omega arith in
      let start : (n + 1) % u32_mod ≡ n + 1 = omega arith in
      elim c [
        | absent g z ↦ (
          ground arith,
          stored (ground (arith, D.get-set_self s t key (W.uint32_to_bytes (n + batch)))) h,
        )
        | stored g z ↦ (
          ground (arith, is_empty-uint32 n, W.uint32_roundtrip n z),
          stored
              (ground (
                arith,
                is_empty-uint32 n,
                W.uint32_roundtrip n z,
                D.get-set_self s t key (W.uint32_to_bytes (n + batch)),
              ))
              h,
        )
      ]

  -- Over any number of allocations of at least one id each that return and that stay below 2^32 the answers are consecutive ranges above
  -- the counter, of the sizes asked for, and the counter moves by the sum of the batches.
  pub alloc_ids_ascending :
      (key : Bytes) (batches : List ℕ) (n : ℕ) (s t : S) (rs : List Reply)
      → Counts s key n
      → All (λ b. 0 < b) batches
      → n + sum batches < u32_mod
      → each (alloc_id D W key) batches s ≡ done (rs, t)
      → (map response_of rs ≡ ranges n batches) × Counts t key (n + sum batches)
  alloc_ids_ascending key [] n s t rs c p h x =
      let (er, et) = each-nil (alloc_id D W key) x in
      let same : n + 0 ≡ n = omega arith in rw (er, et, same) (refl, c)
  alloc_ids_ascending key (b ∷ bs) n s t rs c p h x =
      let (r, u, rs', first, later, er) = each-cons (alloc_id D W key) b bs s x in
      let (answer, c') = alloc_id_next key b n s u r c p.0 (omega arith) first in
      let (rest, last) = alloc_ids_ascending key bs (n + b) u t rs' c' p.1 (omega arith) later in
      let total : n + (b + sum bs) ≡ n + b + sum bs = omega arith in rw (er, total) (cc, last)

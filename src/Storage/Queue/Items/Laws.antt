-- ===== src/Storage/Queue/Items/Laws.antt =====
-- What the items are that pkg/storage/cmd_handler_queue.go gives out for a range of offsets.
use busybee.Prelude.{
  ℕ, ◌+◌, ◌%◌, ◌<◌, ◌≤◌, ◌≡◌, ◌⊎◌, refl, ap, false, some, List, [], ◌∷◌, Bytes, length, ltb, leb,
  take, arith, Bool-cases, inl, inr,
}
use busybee.Storage.Engine.{DataStorage, done}
use busybee.Storage.Wire.{Wire, u64_mod}
use busybee.Storage.Keys.{queue_item_key}
use busybee.Storage.Queue.Items.{
  Ranges, max_bytes_in_buf, max_bytes_of, allow_write_to_buf, take_items, total_size, items_after,
}

abbrev pub values_of : List (Bytes × Bytes) → List Bytes
values_of [] = []
values_of ((k, v) ∷ es) = v ∷ values_of es

-- the size of all items but the last
abbrev pub size_before_last : List Bytes → ℕ
size_before_last [] = 0
size_before_last (x ∷ []) = 0
size_before_last (x ∷ (y ∷ ys)) = length x + size_before_last (y ∷ ys)

take_items-full :
    (write_index max_bytes size : ℕ) (es : List (Bytes × Bytes))
    → max_bytes ≤ size
    → take_items write_index max_bytes size es ≡ []
unfolding take_items
take_items-full w m size [] h = refl
take_items-full w m size ((k, v) ∷ es) h = ground (arith, h)

take_items-take :
    (write_index max_bytes size : ℕ) (es : List (Bytes × Bytes))
    → take_items write_index max_bytes size es
      ≡ take (length (take_items write_index max_bytes size es)) (values_of es)
unfolding take_items
take_items-take w m size [] = refl
take_items-take w m size ((k, v) ∷ es) = elim (Bool-cases (allow_write_to_buf w (length v))) [
  | inl y ↦ elim (Bool-cases (leb m size)) [
    | inl f ↦ rw (y, f) refl
    | inr n ↦ rw (y, n) (ap (λ xs. v ∷ xs) (take_items-take (w + length v) m (size + length v) es))
  ]
  | inr n ↦ rw n refl
]

take_items-fits :
    (write_index max_bytes size : ℕ) (es : List (Bytes × Bytes))
    → write_index < max_bytes_in_buf
    → write_index + total_size (take_items write_index max_bytes size es) < max_bytes_in_buf
unfolding take_items allow_write_to_buf
take_items-fits w m size [] h = omega arith
take_items-fits w m size ((k, v) ∷ es) h = elim (Bool-cases (ltb (w + length v) max_bytes_in_buf)) [
  | inl y ↦
      ground (arith, y, take_items-fits (w + length v) m (size + length v) es (ground (arith, y)))
  | inr n ↦ rw n (omega arith)
]

one_more :
    (v : Bytes) (xs : List Bytes) (size m : ℕ)
    → size < m
    → (xs ≡ []) ⊎ (size + length v + size_before_last xs < m)
    → size + size_before_last (v ∷ xs) < m
one_more v [] size m h e = omega arith
one_more v (x ∷ xs) size m h (inl e) = ground (arith, e)
one_more v (x ∷ xs) size m h (inr e) = omega arith

take_items-size :
    (write_index max_bytes size : ℕ) (es : List (Bytes × Bytes))
    → size < max_bytes
    → size + size_before_last (take_items write_index max_bytes size es) < max_bytes
unfolding take_items
take_items-size w m size [] h = omega arith
take_items-size w m size ((k, v) ∷ es) h = elim (Bool-cases (allow_write_to_buf w (length v))) [
  | inl y ↦
      let open' : leb m size ≡ false = ground (arith, h) in
      rw (y, open')
        (one_more v (take_items (w + length v) m (size + length v) es) size m h
          (elim (Bool-cases (leb m (size + length v))) [
            | inl f ↦
                inl (take_items-full (w + length v) m (size + length v) es (ground (arith, f)))
            | inr n ↦
                inr (take_items-size (w + length v) m (size + length v) es (ground (arith, n)))
          ]))
  | inr n ↦ rw n (omega arith)
]

max_bytes_of-positive : (n : ℕ) → 0 < max_bytes_of n
max_bytes_of-positive n = ground arith

module _ {S : Type 0} (D : DataStorage S) (G : Ranges S) (W : Wire) where
  -- Where the scan does not fail and the buffer is not full before, the items after an offset are the
  -- first values of the scan, as many as there are items; all of them go into the buffer, and all but
  -- the last are smaller together than the bytes asked for.
  pub items_after_bounded :
      (key : Bytes) (write_index completed count max_bytes : ℕ) (s : S) (es : List (Bytes × Bytes))
      → G.scan s
          (queue_item_key W key ((completed + 1) % u64_mod))
          (queue_item_key W key ((completed + 1 + count) % u64_mod))
        ≡ some es
      → write_index < max_bytes_in_buf
      → (items : List Bytes) × (items_after D G W key write_index completed count max_bytes s
          ≡ done (items, s))
        × (items ≡ take (length items) (values_of es))
        × (write_index + total_size items < max_bytes_in_buf)
        × (size_before_last items < max_bytes_of max_bytes)
  unfolding items_after
  items_after_bounded key w completed count m s es e h =
      let size = take_items-size w (max_bytes_of m) 0 es (max_bytes_of-positive m) in
      (
        take_items w (max_bytes_of m) 0 es,
        ground (arith, e),
        take_items-take w (max_bytes_of m) 0 es,
        take_items-fits w (max_bytes_of m) 0 es h,
        omega (arith, size),
      )

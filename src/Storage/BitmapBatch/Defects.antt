-- ===== src/Storage/BitmapBatch/Defects.antt =====
-- What pkg/storage/batch_bitmap.go makes of three batches that it is not meant for: the removal of
-- ids that a bitmap does not contain, a key without a value after another key, and an addition
-- that a clear follows.
use busybee.Prelude.{
  ℕ, ◌≡◌, ◌≢◌, false, some, List, [], ◌∷◌, ◌||◌, Bytes, bytes_compare, bytes_compare_self,
  bytes_compare→eq, is_eq, is_empty, arith,
}
use busybee.Util.Roaring.{Roaring, is_in, xor}
use busybee.Util.Bitmap.{bm_or, or_all, bm_xor, xor_all}
use busybee.Storage.Engine.{DataStorage, put}
use busybee.Storage.BitmapBatch.{
  bm_add, bm_remove, bm_clear, crashed, add_req, exec, exec_from, gather, run_batch, writes_of,
  write_entry, apply_ops, add_to, remove_from, clean, do_add, ends_in_del,
}

module _ {B : Type 0} (R : Roaring B) where
  -- The removal of ids from a stored bitmap writes the symmetric difference: ids that the bitmap
  -- did not contain are added.
  pub remove_toggles :
      {S : Type 0} (D : DataStorage S) (s : S) (key : Bytes) (b : B) (values : List ℕ)
      → D.get s key ≡ some (R.marshal b)
      → is_empty (R.marshal b) ≡ false
      → (c : B) × (writes_of R (run_batch R D s (bm_remove key values ∷ []))
          ≡ some (put key (R.marshal c) ∷ []))
        × ((x : ℕ) → R.contains c x ≡ xor (R.contains b x) (is_in x values))
  unfolding run_batch gather add_req remove_from exec exec_from ends_in_del write_entry apply_ops
      bm_xor xor_all
  remove_toggles D s key b values g h = (
    bm_xor R b (R.add_many R.new values ∷ []),
    ground (arith, R.roundtrip b),
    λ x. ground (
      arith,
      R.contains-xor b (R.add_many R.new values) x,
      R.contains-add_many R.new values x,
      R.contains-new x,
    ),
  )

  pub bm_or_pair :
      (a b : B) (x : ℕ) → R.contains (bm_or R (a ∷ b ∷ [])) x ≡ R.contains a x || R.contains b x
  unfolding bm_or or_all
  bm_or_pair a b x =
      ground (arith, R.contains-or (R.or R.new a) b x, R.contains-or R.new a x, R.contains-new x)

  -- A batch that adds ids under two keys, the second of which has no value, writes under the
  -- second key the first key's bitmap too.
  pub bitmap_leaks :
      {S : Type 0} (D : DataStorage S) (s : S) (k1 k2 : Bytes) (b : B) (v1 v2 : List ℕ)
      → k1 ≢ k2
      → D.get s k1 ≡ some (R.marshal b)
      → is_empty (R.marshal b) ≡ false
      → D.get s k2 ≡ some []
      → (c : B) × (d : B) × (writes_of R (run_batch R D s (bm_add k1 0 v1 ∷ bm_add k2 0 v2 ∷ []))
          ≡ some (put k1 (R.marshal c) ∷ put k2 (R.marshal d) ∷ []))
        × ((x : ℕ) → R.contains d x ≡ (R.contains b x || is_in x v1) || is_in x v2)
  unfolding run_batch gather add_req add_to do_add exec exec_from ends_in_del write_entry apply_ops
  bitmap_leaks D s k1 k2 b v1 v2 ne g h g' =
      let c = bm_or R (b ∷ R.add_many R.new v1 ∷ []) in
      let differ : is_eq (bytes_compare k1 k2) ≡ false = ground (arith, bytes_compare→eq k1 k2) in
      (
        c,
        bm_or R (c ∷ R.add_many R.new v2 ∷ []),
        ground (arith, differ, R.roundtrip b),
        λ x. ground (
          arith,
          bm_or_pair c (R.add_many R.new v2) x,
          bm_or_pair b (R.add_many R.new v1) x,
          R.contains-add_many R.new v1 x,
          R.contains-add_many R.new v2 x,
          R.contains-new x,
        ),
      )

  -- A batch that adds ids to a bitmap and then clears it ends the process, whatever value the key
  -- has.
  pub clear_crashes :
      {S : Type 0} (D : DataStorage S) (s : S) (key value : Bytes) (values : List ℕ)
      → D.get s key ≡ some value
      → run_batch R D s (bm_add key 0 values ∷ bm_clear key ∷ []) ≡ some crashed
  unfolding run_batch gather add_req add_to clean do_add exec exec_from ends_in_del write_entry
      apply_ops
  clear_crashes D s key value values g = rw (bytes_compare_self key) (ground arith)

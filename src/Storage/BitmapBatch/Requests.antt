-- ===== src/Storage/BitmapBatch/Requests.antt =====
-- What pkg/storage/batch_bitmap.go makes of additions to one bitmap.
use busybee.Prelude.{
  ℕ, ◌≡◌, refl, Bool, false, none, some, List, [], ◌∷◌, ◌++◌, ◌||◌, Bytes, bytes_compare_self,
  is_empty, arith, map, All,
}
use busybee.Util.Roaring.{Roaring, is_in}
use busybee.Util.Bitmap.{bm_or}
use busybee.Storage.Engine.{DataStorage, put}
use busybee.Storage.BitmapBatch.{
  BitmapRequest, bm_add, Entry, add_req, exec, exec_from, write_entry, apply_ops, add_to, do_add,
  ends_in_del, gather, run_batch, writes_of, BatchOp, op_add,
}
use busybee.Storage.BitmapBatch.Defects.{bm_or_pair}

abbrev pub in_some : ℕ → List (List ℕ) → Bool
in_some x [] = false
in_some x (vs ∷ vss) = is_in x vs || in_some x vss

abbrev pub additions : Bytes → List (List ℕ) → List BitmapRequest
additions key vss = map (λ vs. bm_add key 0 vs) vss

abbrev AllAdd : List BatchOp → Type 0
AllAdd ops = All (λ op. op ≡ op_add) ops

abbrev ops_of : List BatchOp → List (List ℕ) → List BatchOp
ops_of ops [] = ops
ops_of ops (vs ∷ vss) = ops_of (ops ++ (op_add ∷ [])) vss

AllAdd-snoc : (ops : List BatchOp) → AllAdd ops → AllAdd (ops ++ (op_add ∷ []))
AllAdd-snoc [] h = (refl, tt)
AllAdd-snoc (op ∷ ops) h = (h.0, AllAdd-snoc ops h.1)

AllAdd-ops_of : (ops : List BatchOp) (vss : List (List ℕ)) → AllAdd ops → AllAdd (ops_of ops vss)
AllAdd-ops_of ops [] h = h
AllAdd-ops_of ops (vs ∷ vss) h = AllAdd-ops_of (ops ++ (op_add ∷ [])) vss (AllAdd-snoc ops h)

ops_of-cons :
    (ops : List BatchOp) (vss : List (List ℕ)) → ops_of (op_add ∷ ops) vss ≡ op_add ∷ ops_of ops vss
ops_of-cons ops [] = refl
ops_of-cons ops (vs ∷ vss) = ops_of-cons (ops ++ (op_add ∷ [])) vss

ends_in_del-AllAdd : (ops : List BatchOp) → AllAdd ops → ends_in_del ops ≡ false
unfolding ends_in_del
ends_in_del-AllAdd [] h = refl
ends_in_del-AllAdd (op ∷ []) h = rw h.0 refl
ends_in_del-AllAdd (op ∷ (op2 ∷ ops)) h = rw h.0 (ends_in_del-AllAdd (op2 ∷ ops) h.1)

module _ {B : Type 0} (R : Roaring B) where
  sum_of : B → List (List ℕ) → B
  sum_of a [] = a
  sum_of a (vs ∷ vss) = sum_of (R.add_many a vs) vss

  sum_of-contains :
      (a : B) (vss : List (List ℕ)) (x : ℕ)
      → R.contains (sum_of a vss) x ≡ R.contains a x || in_some x vss
  unfolding sum_of
  sum_of-contains a [] x = ground arith
  sum_of-contains a (vs ∷ vss) x =
      ground (arith, sum_of-contains (R.add_many a vs) vss x, R.contains-add_many a vs x)

  -- the entry of a bitmap that was only added to
  abbrev adding : Bytes → List BatchOp → B → Entry B
  adding key ops a = record { key = key; ops = ops; adds = some a; removes = none }

  gather-additions :
      (key : Bytes) (ops : List BatchOp) (a : B) (vss : List (List ℕ))
      → gather R (additions key vss) (adding key ops a ∷ [])
        ≡ some (adding key (ops_of ops vss) (sum_of a vss) ∷ [])
  unfolding gather add_req add_to do_add sum_of
  gather-additions key ops a [] = refl
  gather-additions key ops a (vs ∷ vss) =
      rw (bytes_compare_self key, gather, add_req, add_to)
        (gather-additions key (ops ++ (op_add ∷ [])) (R.add_many a vs) vss)

  -- additions alone, at least one of them, add the sum of their ids
  apply_ops-AllAdd :
      (e : Entry B) (a : B) (ops : List BatchOp) (bm : B)
      → e.adds ≡ some a
      → AllAdd ops
      → (c : B) × (apply_ops R e (op_add ∷ ops) bm ≡ some c)
        × ((x : ℕ) → R.contains c x ≡ R.contains bm x || R.contains a x)
  unfolding apply_ops
  apply_ops-AllAdd e a [] bm h k = (bm_or R (bm ∷ a ∷ []), rw h refl, bm_or_pair R bm a)
  apply_ops-AllAdd e a (op ∷ ops) bm h k =
      let (c, run, sum) = apply_ops-AllAdd e a ops (bm_or R (bm ∷ a ∷ [])) h k.1 in
      (c, rw (h, k.0) (rw h at run), λ x. ground (arith, sum x, bm_or_pair R bm a x))

  -- A batch that adds ids to one stored bitmap, any number of times, writes that bitmap's union
  -- with all of them, once.
  pub additions_unite :
      {S : Type 0} (D : DataStorage S) (s : S) (key : Bytes) (b : B) (vs : List ℕ)
      (vss : List (List ℕ))
      → D.get s key ≡ some (R.marshal b)
      → is_empty (R.marshal b) ≡ false
      → (c : B) × (writes_of R (run_batch R D s (bm_add key 0 vs ∷ additions key vss))
          ≡ some (put key (R.marshal c) ∷ []))
        × ((x : ℕ) → R.contains c x ≡ (R.contains b x || in_some x (vs ∷ vss)))
  unfolding run_batch gather add_req add_to do_add exec exec_from write_entry
  additions_unite D s key b vs vss g h =
      let a = sum_of (R.add_many R.new vs) vss in
      let ops = ops_of [] vss in
      let all = AllAdd-ops_of [] vss tt in
      let (c, run, sum) = apply_ops-AllAdd (adding key (op_add ∷ ops) a) a ops b refl all in
      (
        c,
        ground (
          arith,
          gather-additions key (op_add ∷ []) (R.add_many R.new vs) vss,
          ops_of-cons [] vss,
          ends_in_del-AllAdd (op_add ∷ ops) (refl, all),
          R.roundtrip b,
          run,
        ),
        λ x. ground (
          arith,
          sum x,
          sum_of-contains (R.add_many R.new vs) vss x,
          R.contains-add_many R.new vs x,
          R.contains-new x,
        ),
      )

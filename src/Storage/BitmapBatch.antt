-- ===== src/Storage/BitmapBatch.antt =====
-- pkg/storage/batch_bitmap.go: the bitmap requests of one batch, gathered by key and carried out
-- together at its end.
pub mod Requests
pub mod Defects
mod Tests
use busybee.Prelude.{
  ℕ, zero, suc, ◌+◌, ◌-◌, ◌%◌, Bool, true, false, Option, none, some, List, [], ◌∷◌, ◌++◌, Bytes,
  is_empty, bytes_compare, is_eq, length, ltb, ◌==◌, if◌then◌else◌,
}
use busybee.Prelude.Int.{ℤ, pos, ◌+ℤ◌, ◌-ℤ◌}
use busybee.Util.Roaring.{Roaring}
use busybee.Util.Bitmap.{bm_or, bm_xor}
use busybee.Storage.Engine.{DataStorage, WriteOp, put, erase}
use busybee.Storage.Wire.{u32_mod, u64_mod}

-- the operations of `batch.go`; `opSet` is never queued
pub data BatchOp : Type 0 where
  op_add op_remove op_clear op_del : BatchOp

-- `ops[len(ops)-1] == opDel`
unfoldable pub ends_in_del : List BatchOp → Bool
ends_in_del [] = false
ends_in_del (op_del ∷ []) = true
ends_in_del (op ∷ ops) = ends_in_del ops

-- one index of the source's four parallel slices; `none` is a nil bitmap
pub record Entry (B : Type 0) : Type 0 where
  pub key : Bytes
  pub ops : List BatchOp
  pub adds : Option B
  pub removes : Option B

-- the request types that the batch supports
pub data BitmapRequest : Type 0 where
  -- `BMCreate` and `BMAdd`: `mod` and the values
  bm_add : Bytes → ℕ → List ℕ → BitmapRequest
  bm_remove : Bytes → List ℕ → BitmapRequest
  bm_clear : Bytes → BitmapRequest

module _ {B : Type 0} (R : Roaring B) where
  -- the loop of `doAdd`, `count` rounds from `i`
  unfoldable pub add_multiples : ℕ → ℕ → ℕ → B → B
  add_multiples modulus i zero bm = bm
  add_multiples modulus i (suc count) bm =
      add_multiples modulus (suc i) count (if i % modulus == 0 then R.add bm i else bm)

  -- `none`: fewer than two values, or a last value of 2^32 - 1, which the loop's counter never passes
  unfoldable pub do_add : B → ℕ → List ℕ → Option B
  unfolding add_multiples
  do_add bm zero values = some (R.add_many bm values)
  do_add bm (suc m) [] = none
  do_add bm (suc m) (first ∷ []) = none
  do_add bm (suc m) (first ∷ (last ∷ rest)) =
      if ltb (last + 1) u32_mod
      then some (add_multiples (suc m) first (last + 1 - first) bm)
      else none

  abbrev pub or_new : Option B → B
  or_new none = R.new
  or_new (some b) = b

  abbrev pub is_key : Bytes → Bytes → Bool
  is_key a b = is_eq (bytes_compare a b)

  -- `rb.add`
  unfoldable pub add_to : Bytes → ℕ → List ℕ → List (Entry B) → Option (List (Entry B))
  unfolding do_add
  add_to bm modulus values [] = elim (do_add R.new modulus values) [
    | none ↦ none
    | some b ↦ some (record { key = bm; ops = op_add ∷ []; adds = some b; removes = none } ∷ [])
  ]
  add_to bm modulus values (e ∷ es) =
      let later = add_to bm modulus values es in
      if is_key e.key bm
      then elim (do_add (or_new e.adds) modulus values) [
        | none ↦ none
        | some b ↦ some (record e { ops = e.ops ++ (op_add ∷ []); adds = some b } ∷ es)
      ]
      else elim later [ none ↦ none | some fs ↦ some (e ∷ fs) ]

  -- `rb.remove`
  unfoldable pub remove_from : Bytes → List ℕ → List (Entry B) → List (Entry B)
  remove_from bm values [] =
      record {
        key = bm;
        ops = op_remove ∷ [];
        adds = none;
        removes = some (R.add_many R.new values);
      }
      ∷ []
  remove_from bm values (e ∷ es) =
      let later = remove_from bm values es in
      if is_key e.key bm
      then record e {
        ops = e.ops ++ (op_remove ∷ []);
        removes = some (R.add_many (or_new e.removes) values);
      }
        ∷ es
      else e ∷ later

  -- `rb.clean`
  unfoldable pub clean : Bytes → BatchOp → List (Entry B) → List (Entry B)
  clean bm op [] = record { key = bm; ops = op ∷ []; adds = none; removes = none } ∷ []
  clean bm op (e ∷ es) =
      let later = clean bm op es in
      if is_key e.key bm
      then record e { ops = e.ops ++ (op ∷ []); adds = none; removes = none } ∷ es
      else e ∷ later

  -- `addReq`
  unfoldable pub add_req : BitmapRequest → List (Entry B) → Option (List (Entry B))
  unfolding add_to remove_from clean
  add_req (bm_add key modulus values) es = add_to key modulus values es
  add_req (bm_remove key values) es = some (remove_from key values es)
  add_req (bm_clear key) es = some (clean key op_clear es)

  -- One operation of `exec` on the bitmap at hand; a nil operand is a nil dereference.
  abbrev pub apply_op : Entry B → BatchOp → B → Option B
  apply_op e op_add bm = elim e.adds [ none ↦ none | some a ↦ some (bm_or R (bm ∷ a ∷ [])) ]
  apply_op e op_remove bm = elim e.removes [ none ↦ none | some r ↦ some (bm_xor R bm (r ∷ [])) ]
  apply_op e op_clear bm = some R.new
  apply_op e op_del bm = some R.new

  unfoldable pub apply_ops : Entry B → List BatchOp → B → Option B
  apply_ops e [] bm = some bm
  apply_ops e (op ∷ ops) bm = elim (apply_op e op bm) [ none ↦ none | some b ↦ apply_ops e ops b ]

  -- what `exec` carries from key to key, the bitmap included
  pub record Progress : Type 0 where
    pub bm : B
    pub wb : List WriteOp
    pub written_bytes : ℕ
    pub changed_bytes : ℤ

  pub data Execution : Type 0 where
    finished : Progress → Execution
    -- the engine's error is returned
    failed : Execution
    -- a panic or `log.Fatalf`
    crashed : Execution

  unfoldable pub write_entry : Bytes → Bytes → Entry B → Progress → B → Option Progress
  unfolding apply_ops
  write_entry key value e p bm = elim (apply_ops e e.ops bm) [
    | none ↦ none
    | some b ↦
        let data' = R.marshal b in
        some record {
          bm = b;
          wb = p.wb ++ (put key data' ∷ []);
          written_bytes = (p.written_bytes + (length data' + u64_mod - length value)) % u64_mod;
          changed_bytes = p.changed_bytes +ℤ (pos (length data') -ℤ pos (length value));
        }
  ]

  -- The loop of `exec`. A key without a value starts from the bitmap that the previous key left.
  unfoldable pub exec_from :
      {S : Type 0} → DataStorage S → S → List (Entry B) → Progress → Execution
  unfolding write_entry ends_in_del
  exec_from D s [] p = finished p
  exec_from D s (e ∷ es) p =
      let key = e.key in
      let deleted : Execution = exec_from D s es (record p {
        wb = p.wb ++ (erase key ∷ []);
        changed_bytes = p.changed_bytes -ℤ pos (length key);
      }) in
      let stored : Execution = elim (D.get s key) [
        | none ↦ failed
        | some value ↦ elim (if is_empty value then some p.bm else R.unmarshal value) [
          | none ↦ crashed
          | some bm ↦ elim (write_entry key value e p bm) [
            | none ↦ crashed
            | some q ↦ exec_from D s es q
          ]
        ]
      ] in
      if ends_in_del e.ops then deleted else stored

  unfoldable pub exec : {S : Type 0} → DataStorage S → S → List (Entry B) → List WriteOp → Execution
  unfolding exec_from
  exec D s es wb =
      exec_from D s es (record { bm = R.new; wb = wb; written_bytes = 0; changed_bytes = pos 0 })

  -- the requests of a batch, in the order in which they come
  unfoldable pub gather : List BitmapRequest → List (Entry B) → Option (List (Entry B))
  gather [] es = some es
  gather (q ∷ qs) es = elim (add_req q es) [ none ↦ none | some fs ↦ gather qs fs ]

  unfoldable pub run_batch :
      {S : Type 0} → DataStorage S → S → List BitmapRequest → Option (Execution)
  unfolding gather
  run_batch D s qs = elim (gather qs []) [ none ↦ none | some es ↦ some (exec D s es []) ]

  -- what a batch that succeeds adds to the write batch
  abbrev pub writes_of : Option (Execution) → Option (List WriteOp)
  writes_of (some (finished p)) = some p.wb
  writes_of _ = none

-- ===== src/Storage/Engine/Memory.antt =====
-- A store in memory that never fails: a concrete engine for examples.
use busybee.Prelude.{
  ◌≡◌, ◌≢◌, refl, Option, none, some, List, [], ◌∷◌, Bytes, bytes_equal, bytes_equal_self,
  bytes_equal→eq, Bool-cases, inl, inr, arith, if◌then◌else◌,
}
use busybee.Storage.Engine.{IsWorking, DataStorage, WriteOp, put, put_with_ttl, erase, overlay_all}

abbrev pub Memory : Type 0
Memory = Bytes → Bytes

abbrev pub nothing : Memory
nothing j = []

abbrev pub put_in : Memory → Bytes → Bytes → Memory
put_in s k v j = if bytes_equal k j then v else s j

abbrev pub or_empty : Option Bytes → Bytes
or_empty none = []
or_empty (some v) = v

abbrev pub written : Memory → List WriteOp → Memory
written s ops j = or_empty (overlay_all ops j (some (s j)))

pub put_in_self : (s : Memory) (k v : Bytes) → put_in s k v k ≡ v
put_in_self s k v = ground (arith, bytes_equal_self k)

pub put_in_ne : (s : Memory) (k v j : Bytes) → j ≢ k → put_in s k v j ≡ s j
put_in_ne s k v j h = ground (arith, bytes_equal→eq k j)

pub overlay-some :
    (ops : List WriteOp) (j v : Bytes)
    → some (or_empty (overlay_all ops j (some v))) ≡ overlay_all ops j (some v)
overlay-some [] j v = refl
overlay-some (put k w ∷ ops) j v = elim (Bool-cases (bytes_equal k j)) [
  | inl y ↦ rw y (overlay-some ops j w)
  | inr n ↦ rw n (overlay-some ops j v)
]
overlay-some (put_with_ttl k w ttl ∷ ops) j v = elim (Bool-cases (bytes_equal k j)) [
  | inl y ↦ rw y (overlay-some ops j w)
  | inr n ↦ rw n (overlay-some ops j v)
]
overlay-some (erase k ∷ ops) j v = elim (Bool-cases (bytes_equal k j)) [
  | inl y ↦ rw y (overlay-some ops j [])
  | inr n ↦ rw n (overlay-some ops j v)
]

unfoldable pub memory : DataStorage Memory
memory = record {
  get = λ s k. some (s k);
  set = λ s k v. some (put_in s k v);
  set_with_ttl = λ s k v ttl. some (put_in s k v);
  delete = λ s k. some (put_in s k []);
  write = λ s ops. some (written s ops);
  get-write = λ s t ops j h. ground (arith, overlay-some ops j (s j));
  get-set_self = λ s t k v h. ground (arith, put_in_self s k v);
  get-set_ne = λ s t k v j h n. ground (arith, put_in_ne s k v j);
  get-set_with_ttl_self = λ s t k v h. ground (arith, put_in_self s k v);
  get-set_with_ttl_ne = λ s t k v j ttl h n. ground (arith, put_in_ne s k v j);
  get-delete_self = λ s t k h. ground (arith, put_in_self s k []);
  get-delete_ne = λ s t k j h n. ground (arith, put_in_ne s k [] j);
}

pub memory-IsWorking : IsWorking memory
unfolding memory
memory-IsWorking = record {
  reads = λ s k. (s k, refl);
  sets = λ s k v. (put_in s k v, refl);
  deletes = λ s k. (put_in s k [], refl);
  writes = λ s ops. (written s ops, refl);
}

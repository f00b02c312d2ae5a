-- ===== src/Storage/Kv/Mapping/Laws.antt =====
-- What `updateMapping` of pkg/storage/cmd_handler_kv.go makes of a stored set.
use busybee.Prelude.{
  ◌≡◌, refl, false, Option, none, some, List, [], ◌∷◌, Bytes, is_empty, bytes_equal, bytes_equal→eq,
  bytes_equal_self, arith, if◌then◌else◌,
}
use busybee.Storage.Engine.{DataStorage, done}
use busybee.Storage.Codec.{Codec}
use busybee.Storage.Reply.{IdValue, Reply, id_set}
use busybee.Storage.Kv.Mapping.{put_value, put_values, update_mapping}

-- the value of a type, which is that of its first entry
abbrev pub value_of : Bytes → List IdValue → Option Bytes
value_of t [] = none
value_of t (x ∷ xs) = if bytes_equal t x.type then some x.value else value_of t xs

-- the value that the last entry of a type gives, or else the old one
abbrev pub latest : Bytes → List IdValue → Option Bytes → Option Bytes
latest t [] old = old
latest t (v ∷ vs) old = latest t vs (if bytes_equal t v.type then some v.value else old)

value_of-put_value :
    (t : Bytes) (v : IdValue) (xs : List IdValue)
    → value_of t (put_value v xs) ≡ (if bytes_equal t v.type then some v.value else value_of t xs)
unfolding put_value
value_of-put_value t v [] = refl
value_of-put_value t v (x ∷ xs) = ground (
  arith,
  value_of-put_value t v xs,
  bytes_equal→eq v.type x.type,
  bytes_equal→eq t v.type,
  bytes_equal→eq t x.type,
  bytes_equal_self t,
)

value_of-put_values :
    (t : Bytes) (vs xs : List IdValue) → value_of t (put_values vs xs) ≡ latest t vs (value_of t xs)
unfolding put_values
value_of-put_values t [] xs = refl
value_of-put_values t (v ∷ vs) xs =
    rw (value_of-put_values t vs (put_value v xs), value_of-put_value t v xs) refl

module _ {S : Type 0} (D : DataStorage S) (C : Codec (List IdValue)) where
  -- An update of a stored set that returns stores and answers with a set in which each type has the
  -- value that the request gives it last, or its old value if the request does not name it.
  pub update_mapping_merges :
      (key type : Bytes) (values old : List IdValue) (s t : S) (r : Reply)
      → is_empty (C.marshal old) ≡ false
      → D.get s key ≡ some (C.marshal old)
      → update_mapping D C key values s ≡ done (r, t)
      → (set : List IdValue) × (D.get t key ≡ some (C.marshal set))
        × (r.response ≡ id_set set)
        × (value_of type set ≡ latest type values (value_of type old))
  unfolding update_mapping
  update_mapping_merges key type values old s t r h g x = (
    put_values values old,
    ground (arith, h, C.roundtrip old, D.get-set_self s t key (C.marshal (put_values values old))),
    ground (arith, h, C.roundtrip old),
    value_of-put_values type values old,
  )

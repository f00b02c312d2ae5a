-- ===== src/Storage/Kv/Mapping.antt =====
-- `updateMapping` of pkg/storage/cmd_handler_kv.go: the ids that a user is known by, one value for
-- each type.
pub mod Laws
use busybee.Prelude.{
  ℕ, ◌+◌, Bool, true, false, List, [], ◌∷◌, Bytes, is_empty, bytes_equal, length, if◌then◌else◌,
}
use busybee.Prelude.Int.{ℤ, pos}
use busybee.Storage.Engine.{DataStorage, M, pure, load, save, ◌>>=◌, ◌>>◌}
use busybee.Storage.Codec.{Codec, decode}
use busybee.Storage.Reply.{IdValue, Reply, reply, id_set}

-- the inner loop: the value of the first entry with the type, or a new entry at the end
unfoldable pub put_value : IdValue → List IdValue → List IdValue
put_value v [] = v ∷ []
put_value v (x ∷ xs) =
    let rest = put_value v xs in
    if bytes_equal v.type x.type then record x { value = v.value } ∷ xs else x ∷ rest

-- the outer loop
unfoldable pub put_values : List IdValue → List IdValue → List IdValue
put_values [] set = set
put_values (v ∷ vs) set = put_values vs (put_value v set)

module _ {S : Type 0} (D : DataStorage S) (C : Codec (List IdValue)) where
  unfoldable pub update_mapping : Bytes → List IdValue → M S Reply
  unfolding put_values
  update_mapping key values = do
    data' ← load D key
    set ←
        if is_empty data'
        then pure values
        else (do old ← decode C data'; pure (put_values values old))
    save D key (C.marshal set)
    let written = length key + length (C.marshal set)
    pure (reply written (pos written) (id_set set))

-- ===== src/Storage/Queue/Attributes.antt =====
-- The states of consumer groups in the attributes that the requests of one log entry share, in
-- pkg/storage/cmd_handler_queue.go: they are loaded once, and written when the last request is done.
use busybee.Prelude.{
  ℕ, Bool, Option, none, some, List, [], ◌∷◌, ◌++◌, Bytes, is_empty, bytes_equal, if◌then◌else◌,
}
use busybee.Storage.Engine.{DataStorage, WriteOp, put, M, pure, load, write_batch, ◌>>=◌, ◌>>◌}
use busybee.Storage.Codec.{Codec, decode}
use busybee.Storage.Queue.Group.{QueueState}

-- The states by their keys, the write batch, and how much of the
-- request's buffer is written when items are put into it. A batch that was
-- written is empty again, as one that is not there.
pub record Attrs : Type 0 where
  pub states : List (Bytes × QueueState)
  pub wb : List WriteOp
  pub write_index : ℕ

abbrev pub find_state : Bytes → List (Bytes × QueueState) → Option QueueState
find_state k [] = none
find_state k ((j, st) ∷ m) = if bytes_equal k j then some st else find_state k m

unfoldable pub add_state_to_attr : Bytes → Option QueueState → Attrs → Attrs
add_state_to_attr key none attrs = attrs
add_state_to_attr key (some st) attrs = record attrs { states = (key, st) ∷ attrs.states }

unfoldable pub add_to_write_batch : Bytes → Bytes → Attrs → Attrs
add_to_write_batch key value attrs = record attrs { wb = attrs.wb ++ (put key value ∷ []) }

module _ {S : Type 0} (D : DataStorage S) (C : Codec QueueState) where
  -- `none` if there is neither a state nor the metadata of the queue
  unfoldable pub load_queue_state : Bytes → Bytes → Attrs → M S (Option QueueState)
  load_queue_state state_key meta_key attrs = elim (find_state state_key attrs.states) [
    | some st ↦ pure (some st)
    | none ↦ do
      value ← load D state_key
      if is_empty value
          then (do
            meta ← load D meta_key
            if is_empty meta then pure none else (do st ← decode C meta; pure (some st)))
          else (do st ← decode C value; pure (some st))
  ]

  -- at the last request
  unfoldable pub write_write_batch : Bool → Attrs → M S Attrs
  write_write_batch last attrs =
      if last
      then (do write_batch D attrs.wb; pure (record attrs { states = []; wb = [] }))
      else pure attrs

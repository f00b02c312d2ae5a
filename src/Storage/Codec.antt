-- ===== src/Storage/Codec.antt =====
-- The generated protobuf code of pkg/pb (`protoc.MustMarshal`, `protoc.MustUnmarshal`): an
-- interface with the round trip of a message.
pub mod Numbers
pub mod Words
use busybee.Prelude.{◌≡◌, Option, some, none, Bytes, is_empty, false}
use busybee.Storage.Engine.{M, unless_panic}

pub record Codec (A : Type 0) : Type 0 where
  pub marshal : A → Bytes
  pub unmarshal : Bytes → Option A
  pub roundtrip : (a : A) → unmarshal (marshal a) ≡ some a

-- A message with an embedded message that is not a pointer is written with at least that field's
-- tag and length, so its encoding is never empty.
abbrev pub HasField : {A : Type 0} → Codec A → Type 0
HasField {A} C = (a : A) → is_empty (C.marshal a) ≡ false

-- `MustUnmarshal` panics on malformed input
abbrev pub decode : {S A : Type 0} → Codec A → Bytes → M S A
decode C value = unless_panic (C.unmarshal value)

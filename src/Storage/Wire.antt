-- ===== src/Storage/Wire.antt =====
-- The fixed-width numbers of goetty and of fagongzi/util/format, which are not code of this
-- repository: encoders, decoders that fail on short input, and their documented round trips.
pub mod BigEndian
use Prim.Native.Nat.{compare}
use busybee.Prelude.{
  bytes_compare, ℕ, ◌+◌, ◌^◌, ◌<◌, ◌≤◌, ◌≡◌, ◌/◌, Option, some, ◌∷◌, ◌++◌, Bytes, length,
}
pub use busybee.Prelude.Int.{IsInt64}
use busybee.Prelude.Int.{ℤ, pos_part, neg_part}

abbrev pub u32_mod : ℕ
u32_mod = 4294967296

abbrev pub u64_mod : ℕ
u64_mod = 18446744073709551616

pub record Wire : Type 0 where
  -- `ByteBuf.WriteInt64`, `goetty.Byte2Int64`
  pub int64_to_bytes : ℤ → Bytes
  pub bytes_to_int64 : Bytes → Option ℤ
  -- `goetty.Uint64ToBytesTo`, `ByteBuf.WriteUint64`, `goetty.Byte2UInt64`
  pub uint64_to_bytes : ℕ → Bytes
  pub bytes_to_uint64 : Bytes → Option ℕ
  -- `goetty.Uint32ToBytesTo`, `format.Uint32ToBytes`, `format.BytesToUint32`
  pub uint32_to_bytes : ℕ → Bytes
  pub bytes_to_uint32 : Bytes → Option ℕ
  pub length-int64 : (x : ℤ) → length (int64_to_bytes x) ≡ 8
  pub length-uint64 : (n : ℕ) → length (uint64_to_bytes n) ≡ 8
  pub length-uint32 : (n : ℕ) → length (uint32_to_bytes n) ≡ 4
  pub int64_roundtrip :
      (x : ℤ) (rest : Bytes) → IsInt64 x → bytes_to_int64 (int64_to_bytes x ++ rest) ≡ some x
  pub uint64_roundtrip :
      (n : ℕ) (rest : Bytes) → n < u64_mod → bytes_to_uint64 (uint64_to_bytes n ++ rest) ≡ some n
  pub uint32_roundtrip : (n : ℕ) → n < u32_mod → bytes_to_uint32 (uint32_to_bytes n) ≡ some n
  -- most significant byte first, so keys sort as their numbers do
  pub uint64_order :
      (m n : ℕ)
      → m < u64_mod
      → n < u64_mod
      → bytes_compare (uint64_to_bytes m) (uint64_to_bytes n) ≡ compare m n
  pub uint32_head :
      (n : ℕ) → n < u32_mod → (rest : Bytes) × (uint32_to_bytes n ≡ (n / 16777216) ∷ rest)

-- ===== src/Storage/Wire/BigEndian.antt =====
-- Big-endian encodings, a value of the interface `Wire`.
use Prim.Native.Nat.{compare}
use busybee.Prelude.{
  bytes_compare, sym, ◌∙◌, bytes_compare-append, ℕ, ◌+◌, ◌-◌, ◌*◌, ◌/◌, ◌%◌, ◌<◌, ◌≡◌, refl, Option,
  none, some, [], ◌∷◌, ◌++◌, Bytes, length, ltb, ap, if◌then◌else◌, arith,
}
use busybee.Prelude.Int.{ℤ, pos, negsuc}
use busybee.Storage.Wire.{Wire, IsInt64, u32_mod, u64_mod}

encode32 : ℕ → Bytes
encode32 n = (n / 16777216 % 256) ∷ (n / 65536 % 256) ∷ (n / 256 % 256) ∷ (n % 256) ∷ []

decode32 : ℕ → ℕ → ℕ → ℕ → ℕ
decode32 a b c d = a * 16777216 + b * 65536 + c * 256 + d

-- refuses any length but 4
decode_uint32 : Bytes → Option ℕ
decode_uint32 (a ∷ b ∷ c ∷ d ∷ []) = some (decode32 a b c d)
decode_uint32 _ = none

encode64 : ℕ → Bytes
encode64 n = encode32 (n / u32_mod) ++ encode32 (n % u32_mod)

-- reads the first eight bytes
decode_uint64 : Bytes → Option ℕ
decode_uint64 (a ∷ b ∷ c ∷ d ∷ e ∷ f ∷ g ∷ h ∷ rest) =
    some (decode32 a b c d * u32_mod + decode32 e f g h)
decode_uint64 _ = none

-- two's complement
to_bits : ℤ → ℕ
to_bits (pos n) = n
to_bits (negsuc n) = u64_mod - 1 - n

of_bits : ℕ → ℤ
of_bits n = if ltb n 9223372036854775808 then pos n else negsuc (u64_mod - 1 - n)

decode_int64 : Bytes → Option ℤ
decode_int64 bs = elim (decode_uint64 bs) [ none ↦ none | some n ↦ some (of_bits n) ]

decode32-encode32 :
    (n : ℕ)
    → n < u32_mod
    → decode32 (n / 16777216 % 256) (n / 65536 % 256) (n / 256 % 256) (n % 256) ≡ n
unfolding decode32
decode32-encode32 n h = omega arith

uint32_law : (n : ℕ) → n < u32_mod → decode_uint32 (encode32 n) ≡ some n
unfolding decode_uint32 encode32
uint32_law n h = ap some (decode32-encode32 n h)

uint64_law : (n : ℕ) (rest : Bytes) → n < u64_mod → decode_uint64 (encode64 n ++ rest) ≡ some n
unfolding decode_uint64 encode64 encode32
uint64_law n rest h =
    rw (decode32-encode32 (n / u32_mod) (omega arith))
      (rw (decode32-encode32 (n % u32_mod) (omega arith)) (ap some (omega arith)))

of_bits-to_bits : (x : ℤ) → IsInt64 x → of_bits (to_bits x) ≡ x
unfolding of_bits to_bits
of_bits-to_bits (pos n) h = ground arith
of_bits-to_bits (negsuc n) h = ground arith

to_bits-lt : (x : ℤ) → IsInt64 x → to_bits x < u64_mod
unfolding to_bits
to_bits-lt (pos n) h = omega arith
to_bits-lt (negsuc n) h = omega arith

int64_law :
    (x : ℤ) (rest : Bytes) → IsInt64 x → decode_int64 (encode64 (to_bits x) ++ rest) ≡ some x
unfolding decode_int64
int64_law x rest h =
    rw (uint64_law (to_bits x) rest (to_bits-lt x h), decode_int64) (ap some (of_bits-to_bits x h))

length32 : (n : ℕ) → length (encode32 n) ≡ 4
unfolding encode32
length32 n = refl

length64 : (n : ℕ) → length (encode64 n) ≡ 8
unfolding encode64 encode32
length64 n = refl

order32 :
    (m n : ℕ) → m < u32_mod → n < u32_mod → bytes_compare (encode32 m) (encode32 n) ≡ compare m n
unfolding encode32 bytes_compare
order32 m n h k = ground arith

order64 :
    (m n : ℕ) → m < u64_mod → n < u64_mod → bytes_compare (encode64 m) (encode64 n) ≡ compare m n
unfolding encode64
order64 m n h k =
    let a = order32 (m / u32_mod) (n / u32_mod) (omega arith) (omega arith) in
    let b = order32 (m % u32_mod) (n % u32_mod) (omega arith) (omega arith) in
    rw
      (
        bytes_compare-append (encode32 (m / u32_mod)) (encode32 (n / u32_mod))
            (encode32 (m % u32_mod)) (encode32 (n % u32_mod))
            (length32 (m / u32_mod) ∙ sym (length32 (n / u32_mod))),
        a,
        b,
      )
      (ground arith)

head32 : (n : ℕ) → n < u32_mod → (rest : Bytes) × (encode32 n ≡ (n / 16777216) ∷ rest)
unfolding encode32
head32 n h =
    let rest = (n / 65536 % 256) ∷ (n / 256 % 256) ∷ (n % 256) ∷ [] in
    let small : n / 16777216 % 256 ≡ n / 16777216 = omega arith in (rest, ap (λ b. b ∷ rest) small)

unfoldable pub big_endian : Wire
unfolding encode32 decode32 decode_uint32 encode64 decode_uint64 to_bits of_bits decode_int64
    uint32_law uint64_law int64_law length32 length64 to_bits-lt of_bits-to_bits decode32-encode32
    order32 order64 head32
big_endian = record {
  int64_to_bytes = λ x. encode64 (to_bits x);
  bytes_to_int64 = decode_int64;
  uint64_to_bytes = encode64;
  bytes_to_uint64 = decode_uint64;
  uint32_to_bytes = encode32;
  bytes_to_uint32 = decode_uint32;
  length-int64 = λ x. length64 (to_bits x);
  length-uint64 = length64;
  length-uint32 = length32;
  uint64_order = order64;
  int64_roundtrip = int64_law;
  uint64_roundtrip = uint64_law;
  uint32_roundtrip = uint32_law;
  uint32_head = head32;
}

-- ===== src/Expr/Ops/Overflow.antt =====
-- How `+` and `-` of pkg/expr/cmp.go go over the range of `int64`.
use busybee.Prelude.{◌≡◌, ◌⊎◌, refl, ap, arith}
use busybee.Prelude.Int.{ℤ, pos, negsuc, ◌+ℤ◌, ◌-ℤ◌, wrap_int64, IsInt64, wrap_int64-IsInt64}
use busybee.Util.Roaring.{Roaring}
use busybee.Expr.Run.{Heap, ok, ret}
use busybee.Expr.Value.{Text, num, to_int64}
use busybee.Expr.Ops.{add, minus}

-- the number 2^64
abbrev pub full_turn : ℤ
full_turn = pos 18446744073709551616

-- an `int64` that is a number, or a number with a whole turn taken off or put on
abbrev pub IsWrapOf : ℤ → ℤ → Type 0
IsWrapOf x n = IsInt64 x × ((x ≡ n) ⊎ (x ≡ n -ℤ full_turn) ⊎ (x ≡ n +ℤ full_turn))

sum-IsWrapOf : (a b : ℤ) → IsInt64 a → IsInt64 b → IsWrapOf (wrap_int64 (a +ℤ b)) (a +ℤ b)
unfolding ◌+ℤ◌ ◌-ℤ◌
sum-IsWrapOf (pos a) (pos b) h k = (wrap_int64-IsInt64 (pos a +ℤ pos b), ground arith)
sum-IsWrapOf (pos a) (negsuc b) h k = (wrap_int64-IsInt64 (pos a +ℤ negsuc b), ground arith)
sum-IsWrapOf (negsuc a) (pos b) h k = (wrap_int64-IsInt64 (negsuc a +ℤ pos b), ground arith)
sum-IsWrapOf (negsuc a) (negsuc b) h k = (wrap_int64-IsInt64 (negsuc a +ℤ negsuc b), ground arith)

difference-IsWrapOf : (a b : ℤ) → IsInt64 a → IsInt64 b → IsWrapOf (wrap_int64 (a -ℤ b)) (a -ℤ b)
unfolding ◌+ℤ◌ ◌-ℤ◌
difference-IsWrapOf (pos a) (pos b) h k = (wrap_int64-IsInt64 (pos a -ℤ pos b), ground arith)
difference-IsWrapOf (pos a) (negsuc b) h k = (wrap_int64-IsInt64 (pos a -ℤ negsuc b), ground arith)
difference-IsWrapOf (negsuc a) (pos b) h k = (wrap_int64-IsInt64 (negsuc a -ℤ pos b), ground arith)
difference-IsWrapOf (negsuc a) (negsuc b) h k =
    (wrap_int64-IsInt64 (negsuc a -ℤ negsuc b), ground arith)

minus_undoes : (a b : ℤ) → IsInt64 a → IsInt64 b → wrap_int64 (wrap_int64 (a +ℤ b) -ℤ b) ≡ a
unfolding ◌+ℤ◌ ◌-ℤ◌
minus_undoes (pos a) (pos b) h k = ground arith
minus_undoes (pos a) (negsuc b) h k = ground arith
minus_undoes (negsuc a) (pos b) h k = ground arith
minus_undoes (negsuc a) (negsuc b) h k = ground arith

add_undoes : (a b : ℤ) → IsInt64 a → IsInt64 b → wrap_int64 (wrap_int64 (a -ℤ b) +ℤ b) ≡ a
unfolding ◌+ℤ◌ ◌-ℤ◌
add_undoes (pos a) (pos b) h k = ground arith
add_undoes (pos a) (negsuc b) h k = ground arith
add_undoes (negsuc a) (pos b) h k = ground arith
add_undoes (negsuc a) (negsuc b) h k = ground arith

module _ {Re B : Type 0} (T : Text Re) (R : Roaring B) where
  -- On two numbers of `int64`, `+` gives their sum and `-` their difference, with 2^64 taken off or
  -- put on if it is not an `int64`; and each of the two undoes the other, overflow included.
  pub sums_wrap :
      (a b : ℤ) (h : Heap B)
      → IsInt64 a
      → IsInt64 b
      → (s d : ℤ) × (add T R (num a) (ret (num b)) h ≡ ok (num s) h)
        × IsWrapOf s (a +ℤ b)
        × (minus T R (num s) (ret (num b)) h ≡ ok (num a) h)
        × (minus T R (num a) (ret (num b)) h ≡ ok (num d) h)
        × IsWrapOf d (a -ℤ b)
        × (add T R (num d) (ret (num b)) h ≡ ok (num a) h)
  unfolding add minus to_int64
  sums_wrap a b h i j = (
    wrap_int64 (a +ℤ b),
    wrap_int64 (a -ℤ b),
    refl,
    sum-IsWrapOf a b i j,
    ap (λ x. ok (num x) h) (minus_undoes a b i j),
    refl,
    difference-IsWrapOf a b i j,
    ap (λ x. ok (num x) h) (add_undoes a b i j),
  )

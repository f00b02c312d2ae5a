-- ===== src/Prelude/Text.antt =====
-- Byte strings, compared as `bytes.Equal` and `bytes.Compare` do.
use Prim.Native.Nat.{ℕ, compare, Ordering}
use mathlib.Core.Path.{◌≡◌, refl}
use mathlib.Core.Logic.{◌≢◌, inl, inr}
use mathlib.Core.Bool.{Bool, true, false, ◌&&◌}
use mathlib.Core.List.{List, [], ◌∷◌, ◌++◌}
use native.Mathlib.Omega.{arith}
use busybee.Prelude.Tests.{◌==◌, if◌then◌else◌, Bool-cases}
use busybee.Prelude.Lists.{length}

abbrev pub Bytes : Type 0
Bytes = List ℕ

-- `len(value) == 0`
abbrev pub is_empty : Bytes → Bool
is_empty [] = true
is_empty (b ∷ bs) = false

-- `bytes.Equal`
unfoldable pub bytes_equal : Bytes → Bytes → Bool
bytes_equal [] [] = true
bytes_equal [] (y ∷ ys) = false
bytes_equal (x ∷ xs) [] = false
bytes_equal (x ∷ xs) (y ∷ ys) = x == y && bytes_equal xs ys

-- `bytes.Compare`, lexicographic
unfoldable pub bytes_compare : Bytes → Bytes → Ordering
bytes_compare [] [] = Ordering.eq
bytes_compare [] (y ∷ ys) = Ordering.lt
bytes_compare (x ∷ xs) [] = Ordering.gt
bytes_compare (x ∷ xs) (y ∷ ys) =
    let rest = bytes_compare xs ys in
    elim (compare x y) [
      | Ordering.lt ↦ Ordering.lt
      | Ordering.gt ↦ Ordering.gt
      | Ordering.eq ↦ rest
    ]

-- tests on the answer of `bytes.Compare`
abbrev pub is_eq : Ordering → Bool
is_eq Ordering.eq = true
is_eq _ = false

abbrev pub is_gt : Ordering → Bool
is_gt Ordering.gt = true
is_gt _ = false

abbrev pub is_lt : Ordering → Bool
is_lt Ordering.lt = true
is_lt _ = false

pub bytes_equal_self : (xs : Bytes) → bytes_equal xs xs ≡ true
unfolding bytes_equal
bytes_equal_self [] = refl
bytes_equal_self (x ∷ xs) = ground (arith, bytes_equal_self xs)

pub bytes_equal→eq : (xs ys : Bytes) → bytes_equal xs ys ≡ true → xs ≡ ys
unfolding bytes_equal
bytes_equal→eq [] [] h = refl
bytes_equal→eq [] (y ∷ ys) h = ground arith
bytes_equal→eq (x ∷ xs) [] h = ground arith
bytes_equal→eq (x ∷ xs) (y ∷ ys) h = ground (arith, bytes_equal→eq xs ys)

pub bytes_compare_self : (xs : Bytes) → bytes_compare xs xs ≡ Ordering.eq
unfolding bytes_compare
bytes_compare_self [] = refl
bytes_compare_self (x ∷ xs) = ground (arith, bytes_compare_self xs)

pub bytes_compare→eq : (xs ys : Bytes) → bytes_compare xs ys ≡ Ordering.eq → xs ≡ ys
unfolding bytes_compare
bytes_compare→eq [] [] h = refl
bytes_compare→eq [] (y ∷ ys) h = ground arith
bytes_compare→eq (x ∷ xs) [] h = ground arith
bytes_compare→eq (x ∷ xs) (y ∷ ys) h = ground (arith, bytes_compare→eq xs ys)

-- a common prefix does not count
pub bytes_compare-prefix :
    (p xs ys : Bytes) → bytes_compare (p ++ xs) (p ++ ys) ≡ bytes_compare xs ys
unfolding bytes_compare
bytes_compare-prefix [] xs ys = refl
bytes_compare-prefix (x ∷ p) xs ys = ground (arith, bytes_compare-prefix p xs ys)

-- `first` decides, `second` where it leaves a tie
abbrev pub then_by : Ordering → Ordering → Ordering
then_by Ordering.lt second = Ordering.lt
then_by Ordering.gt second = Ordering.gt
then_by Ordering.eq second = second

pub bytes_compare-append :
    (xs ys xs' ys' : Bytes)
    → length xs ≡ length ys
    → bytes_compare (xs ++ xs') (ys ++ ys') ≡ then_by (bytes_compare xs ys) (bytes_compare xs' ys')
unfolding bytes_compare
bytes_compare-append [] [] xs' ys' h = refl
bytes_compare-append [] (y ∷ ys) xs' ys' h = absurd (omega arith)
bytes_compare-append (x ∷ xs) [] xs' ys' h = absurd (omega arith)
bytes_compare-append (x ∷ xs) (y ∷ ys) xs' ys' h =
    ground (arith, bytes_compare-append xs ys xs' ys' (omega arith))

-- A function of a key that is known at one key and elsewhere.
pub at_key :
    {A : Type 0} (f g : Bytes → A) (j key : Bytes) {a : A}
    → f key ≡ a
    → (j ≢ key → f j ≡ g j)
    → f j ≡ (if bytes_equal j key then a else g j)
at_key f g j key h k = elim (Bool-cases (bytes_equal j key)) [
  | inl y ↦ rw (y, bytes_equal→eq j key y) h
  | inr n ↦ rw n (k (λ e. ground (arith, bytes_equal_self key)))
]

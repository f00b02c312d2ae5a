-- ===== src/Storage/Kv/Bitmaps/Laws.antt =====
-- What `bmrange` of pkg/storage/cmd_handler_kv.go answers with.
use busybee.Prelude.{
  ℕ, zero, suc, ◌+◌, ◌-◌, ◌≤◌, ◌<◌, ◌≡◌, refl, sym, true, false, some, List, [], ◌∷◌, Bytes,
  is_empty, take, leb, ltb, All, arith, if◌then◌else◌, ap, Bool-cases, inl, inr,
}
use busybee.Util.Roaring.{Roaring, IsAscending}
use busybee.Storage.Engine.{DataStorage, done}
use busybee.Storage.Reply.{ids}
use busybee.Storage.Kv.Bitmaps.{advance, take_until, bmrange}

-- the ids from `start` on
abbrev pub from : ℕ → List ℕ → List ℕ
from start [] = []
from start (x ∷ xs) = if leb start x then x ∷ from start xs else from start xs

from-All : (start lo : ℕ) (xs : List ℕ) → start ≤ lo → All (λ y. lo < y) xs → from start xs ≡ xs
from-All start lo [] h a = refl
from-All start lo (x ∷ xs) h a = ground (arith, from-All start lo xs h a.1, a.0)

advance-from : (start : ℕ) (xs : List ℕ) → IsAscending xs → advance start xs ≡ from start xs
unfolding advance
advance-from start [] h = refl
advance-from start (x ∷ xs) h = elim (Bool-cases (ltb x start)) [
  | inl y ↦ ground (arith, advance-from start xs h.1)
  | inr n ↦ ground (arith, from-All start x xs (ground arith) h.0)
]

-- one at least
abbrev pub at_least_one : ℕ → ℕ
at_least_one zero = 1
at_least_one (suc n) = suc n

take-nil : (n : ℕ) → take {A = ℕ} n [] ≡ []
take-nil zero = refl
take-nil (suc n) = refl

one_left : (limit taken : ℕ) → taken < limit → leb limit (taken + 1) ≡ true → limit - taken ≡ 1
one_left limit taken h y = ground arith

more_left :
    (limit taken : ℕ)
    → taken < limit
    → leb limit (taken + 1) ≡ false
    → limit - taken ≡ suc (limit - (taken + 1))
more_left limit taken h n = ground arith

take_until-take :
    (limit taken : ℕ) (xs : List ℕ)
    → taken < limit
    → take_until limit taken xs ≡ take (limit - taken) xs
unfolding take_until
take_until-take limit taken [] h = sym (take-nil (limit - taken))
take_until-take limit taken (x ∷ xs) h = elim (Bool-cases (leb limit (taken + 1))) [
  | inl y ↦ rw (y, one_left limit taken h y) refl
  | inr n ↦
      rw (n, more_left limit taken h n)
        (ap (λ r. x ∷ r) (take_until-take limit (taken + 1) xs (ground arith)))
]

minus_zero : (n : ℕ) → n - 0 ≡ n
minus_zero n = omega arith

take_until_first : (limit : ℕ) (xs : List ℕ) → take_until limit 0 xs ≡ take (at_least_one limit) xs
unfolding take_until
take_until_first (suc n) xs =
    grind (arith, take_until-take (suc n) 0 xs (ground arith), minus_zero (suc n))
take_until_first zero [] = refl
take_until_first zero (x ∷ xs) = refl

module _ {S B : Type 0} (D : DataStorage S) (R : Roaring B) where
  -- On a stored bitmap `bmrange` answers with the smallest ids from `start` on, as many as the limit
  -- says, but one if the limit is 0; the store is as before.
  pub bmrange_takes :
      (key : Bytes) (start limit : ℕ) (b : B) (s : S)
      → D.get s key ≡ some (R.marshal b)
      → is_empty (R.marshal b) ≡ false
      → bmrange D R key start limit s
        ≡ done (ids (take (at_least_one limit) (from start (R.to_array b))), s)
  unfolding bmrange
  bmrange_takes key start limit b s g h = ground (
    arith,
    g,
    h,
    R.roundtrip b,
    advance-from start (R.to_array b) (R.to_array-IsAscending b),
    take_until_first limit (from start (R.to_array b)),
  )

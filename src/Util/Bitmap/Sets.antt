-- ===== src/Util/Bitmap/Sets.antt =====
-- The operations of pkg/util/bitmap.go as operations on sets.
use busybee.Prelude.{ℕ, ◌≡◌, Bool, true, false, not, ◌&&◌, ◌||◌, List, [], ◌∷◌, arith}
use busybee.Util.Roaring.{Roaring, xor}
use busybee.Util.Bitmap.{
  and_all, bm_and, or_all, bm_or, xor_all, bm_xor, bm_andnot, bm_minus, bm_remove,
}

module _ {B : Type 0} (R : Roaring B) where
  pub in_all : List B → ℕ → Bool
  in_all [] x = true
  in_all (b ∷ bs) x = R.contains b x && in_all bs x

  pub in_any : List B → ℕ → Bool
  in_any [] x = false
  in_any (b ∷ bs) x = R.contains b x || in_any bs x

  -- whether an odd number of the bitmaps contains `x`
  pub in_odd : List B → ℕ → Bool
  in_odd [] x = false
  in_odd (b ∷ bs) x = xor (R.contains b x) (in_odd bs x)

  and_all-contains :
      (v : B) (bs : List B) (x : ℕ) → R.contains (and_all R v bs) x ≡ R.contains v x && in_all bs x
  unfolding and_all in_all
  and_all-contains v [] x = ground arith
  and_all-contains v (b ∷ bs) x =
      ground (arith, and_all-contains (R.and v b) bs x, R.contains-and v b x)

  or_all-contains :
      (v : B) (bs : List B) (x : ℕ) → R.contains (or_all R v bs) x ≡ R.contains v x || in_any bs x
  unfolding or_all in_any
  or_all-contains v [] x = ground arith
  or_all-contains v (b ∷ bs) x =
      ground (arith, or_all-contains (R.or v b) bs x, R.contains-or v b x)

  xor_all-contains :
      (v : B) (bs : List B) (x : ℕ)
      → R.contains (xor_all R v bs) x ≡ xor (R.contains v x) (in_odd bs x)
  unfolding xor_all in_odd
  xor_all-contains v [] x = ground arith
  xor_all-contains v (b ∷ bs) x =
      ground (arith, xor_all-contains (R.xor_with v b) bs x, R.contains-xor v b x)

  -- The four variadic operations: an id is in the intersection if it is in every bitmap, in the
  -- union if it is in any, in the symmetric difference if it is in an odd number of them, and in
  -- the "and not" if it is in the first and not in all of them.
  pub variadic_sets :
      (first : B) (rest : List B) (x : ℕ)
      → (R.contains (bm_and R first rest) x ≡ R.contains first x && in_all rest x)
        × (R.contains (bm_or R (first ∷ rest)) x ≡ R.contains first x || in_any rest x)
        × (R.contains (bm_xor R first rest) x ≡ xor (R.contains first x) (in_odd rest x))
        × (R.contains (bm_andnot R first rest) x ≡ R.contains first x && not (in_all rest x))
  unfolding bm_or bm_andnot bm_and bm_xor or_all
  variadic_sets first rest x = (
    and_all-contains first rest x,
    ground (
      arith,
      or_all-contains (R.or R.new first) rest x,
      R.contains-or R.new first x,
      R.contains-new x,
    ),
    xor_all-contains first rest x,
    ground (arith, R.contains-xor first (and_all R first rest) x, and_all-contains first rest x),
  )

  -- `BMMinus` and `BMRemove` both take the second bitmap's ids out of the first.
  pub difference_sets :
      (a b : B) (x : ℕ)
      → (R.contains (bm_minus R a b) x ≡ R.contains a x && not (R.contains b x))
        × (R.contains (bm_remove R a b) x ≡ R.contains a x && not (R.contains b x))
  unfolding bm_minus bm_remove bm_xor xor_all
  difference_sets a b x = (
    ground (arith, R.contains-xor a (R.and a b) x, R.contains-and a b x),
    ground (arith, R.contains-xor a (R.and a b) x, R.contains-and a b x),
  )

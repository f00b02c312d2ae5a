-- ===== src/Util/Bitmap.antt =====
-- pkg/util/bitmap.go: operations on several bitmaps. The variadic functions index their first
-- argument, so it is an argument of its own here; `Clone` copies, so values serve for pointers. The
-- `...Interface` variants differ by a type assertion on each argument alone.
pub mod Sets
pub mod Split
use busybee.Prelude.{ℕ, List, [], ◌∷◌}
use busybee.Util.Roaring.{Roaring}

module _ {B : Type 0} (R : Roaring B) where
  -- the loop of `BMAnd` over the arguments after the first
  unfoldable pub and_all : B → List B → B
  and_all value [] = value
  and_all value (b ∷ bs) = and_all (R.and value b) bs

  unfoldable pub bm_and : B → List B → B
  unfolding and_all
  bm_and first rest = and_all first rest

  unfoldable pub or_all : B → List B → B
  or_all value [] = value
  or_all value (b ∷ bs) = or_all (R.or value b) bs

  unfoldable pub bm_or : List B → B
  unfolding or_all
  bm_or bms = or_all R.new bms

  unfoldable pub xor_all : B → List B → B
  xor_all value [] = value
  xor_all value (b ∷ bs) = xor_all (R.xor_with value b) bs

  unfoldable pub bm_xor : B → List B → B
  unfolding xor_all
  bm_xor first rest = xor_all first rest

  unfoldable pub bm_andnot : B → List B → B
  bm_andnot first rest = R.xor_with first (bm_and first rest)

  unfoldable pub bm_minus : B → B → B
  bm_minus bm1 bm2 = let v = R.and bm1 bm2 in bm_xor bm1 (v ∷ [])

  -- the new value of `bm1`
  unfoldable pub bm_remove : B → B → B
  bm_remove bm1 bm2 = let v = R.and bm1 bm2 in R.xor_with bm1 v

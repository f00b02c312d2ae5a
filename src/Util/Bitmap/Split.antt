-- ===== src/Util/Bitmap/Split.antt =====
-- `BMSplit` of pkg/util/bitmap.go: a bitmap in parts of some size.
use busybee.Prelude.{
  ℕ, ◌+◌, ◌≡◌, Bool, false, List, [], ◌∷◌, ◌||◌, leb, arith, Bool-cases, inl, inr, if◌then◌else◌,
}
use busybee.Util.Roaring.{Roaring, is_in}

module _ {B : Type 0} (R : Roaring B) where
  -- The loop over the ids, with the size of the part that is being filled: the parts from it on.
  unfoldable pub split_parts : ℕ → ℕ → B → List ℕ → List B
  split_parts max_size c sub [] = sub ∷ []
  split_parts max_size c sub (x ∷ xs) =
      let filled = split_parts max_size 1 (R.add R.new x) xs in
      let later = split_parts max_size (c + 1) (R.add sub x) xs in
      if leb max_size c then sub ∷ filled else later

  unfoldable pub bm_split : B → ℕ → List B
  unfolding split_parts
  bm_split bm max_size = split_parts max_size 0 R.new (R.to_array bm)

  abbrev pub in_part : ℕ → List B → Bool
  in_part x [] = false
  in_part x (b ∷ bs) = R.contains b x || in_part x bs

  in_part-split_parts :
      (x max_size c : ℕ) (sub : B) (xs : List ℕ)
      → in_part x (split_parts max_size c sub xs) ≡ R.contains sub x || is_in x xs
  unfolding split_parts
  in_part-split_parts x m c sub [] = ground arith
  in_part-split_parts x m c sub (y ∷ ys) = elim (Bool-cases (leb m c)) [
    | inl e ↦ rw e (
        ground (
          arith,
          in_part-split_parts x m 1 (R.add R.new y) ys,
          R.contains-add R.new y x,
          R.contains-new x,
        ))
    | inr e ↦
        rw e
          (ground (arith, in_part-split_parts x m (c + 1) (R.add sub y) ys, R.contains-add sub y x))
  ]

  -- An id is in some part of a bitmap just if it is in the bitmap.
  pub bm_split_covers :
      (bm : B) (max_size x : ℕ) → in_part x (bm_split bm max_size) ≡ R.contains bm x
  unfolding bm_split
  bm_split_covers bm m x = ground (
    arith,
    in_part-split_parts x m 0 R.new (R.to_array bm),
    R.contains-new x,
    R.is_in-to_array bm x,
  )

-- ===== src/Core/Holders.antt =====
-- In how many crowds a user is, for the proofs about pkg/core.
use busybee.Prelude.{
  ℕ, zero, suc, ◌+◌, ◌≡◌, Bool, true, false, not, none, some, List, [], ◌∷◌, ◌&&◌, ◌||◌, ◌==◌, ◌≤◌,
  get_elem?, set, arith, Option-cases, inl, inr,
}
use busybee.Util.Roaring.{Roaring}
use busybee.Core.Crowd.{Who, appended, removed}

abbrev pub bit : Bool → ℕ
bit true = 1
bit false = 0

module _ {B : Type 0} (R : Roaring B) where
  abbrev pub holders : ℕ → List B → ℕ
  holders x [] = 0
  holders x (c ∷ cs) = bit (R.contains c x) + holders x cs

  -- each user of the total crowd is in one crowd, and nobody else is in any
  abbrev pub IsPartition : B → List B → Type 0
  IsPartition total crowds = (x : ℕ) → holders x crowds ≡ bit (R.contains total x)

  abbrev pub is_among : Who B → ℕ → Bool
  is_among w x = elim w.users [ none ↦ w.user == x | some us ↦ R.contains us x ]

  pub contains-removed :
      (w : Who B) (b : B) (x : ℕ)
      → R.contains (removed R w b) x ≡ R.contains b x && not (is_among w x)
  contains-removed w b x = elim (Option-cases w.users) [
    | inl n ↦ ground (arith, n, R.contains-remove b w.user x)
    | inr (us, e) ↦ ground (arith, e, R.contains-and_not b us x)
  ]

  pub contains-appended :
      (w : Who B) (b : B) (x : ℕ) → R.contains (appended R w b) x ≡ is_among w x || R.contains b x
  contains-appended w b x = elim (Option-cases w.users) [
    | inl n ↦ ground (arith, n, R.contains-add b w.user x)
    | inr (us, e) ↦ ground (arith, e, R.contains-or b us x)
  ]

  pub holders-set :
      (x : ℕ) (cs : List B) (i : ℕ) (b b' : B)
      → get_elem? cs i ≡ some b
      → holders x (set cs i b') + bit (R.contains b x) ≡ holders x cs + bit (R.contains b' x)
  holders-set x [] i b b' e = ground (arith, e)
  holders-set x (c ∷ cs) zero b b' e = ground (arith, e)
  holders-set x (c ∷ cs) (suc i) b b' e = ground (arith, holders-set x cs i b b' e)

  pub holders-le :
      (x : ℕ) (cs : List B) (i : ℕ) (b : B)
      → get_elem? cs i ≡ some b
      → bit (R.contains b x) ≤ holders x cs
  holders-le x [] i b e = ground (arith, e)
  holders-le x (c ∷ cs) zero b e = ground (arith, e)
  holders-le x (c ∷ cs) (suc i) b e = ground (arith, holders-le x cs i b e)

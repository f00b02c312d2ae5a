-- ===== src/Util/Roaring.antt =====
-- RoaringBitmap, which is not code of this repository: sets of `uint32` by their operations, with
-- the documented meaning of each in terms of `Contains`. A bitmap of the source is a pointer;
-- `none` stands for nil where one may be.
pub mod Lists
use busybee.Prelude.{
  All, length, ℕ, ◌<◌, ◌≡◌, Bool, true, false, not, Option, some, List, [], ◌∷◌, Bytes, ◌&&◌, ◌||◌,
  ◌==◌,
}

abbrev pub xor : Bool → Bool → Bool
xor true b = not b
xor false b = b

abbrev pub is_in : ℕ → List ℕ → Bool
is_in x [] = false
is_in x (v ∷ vs) = v == x || is_in x vs

abbrev pub IsAscending : List ℕ → Type 0
IsAscending [] = Unit
IsAscending (x ∷ xs) = All (λ y. x < y) xs × IsAscending xs

pub record Roaring (B : Type 0) : Type 0 where
  -- `roaring.NewBitmap`
  pub new : B
  pub contains : B → ℕ → Bool
  pub add : B → ℕ → B
  pub remove : B → ℕ → B
  -- `AddMany`
  pub add_many : B → List ℕ → B
  -- `Or`, `And`, `Xor`, `AndNot`, as the value of the receiver afterwards
  pub or : B → B → B
  pub and : B → B → B
  pub xor_with : B → B → B
  pub and_not : B → B → B
  -- what `Iterator` visits, in order
  pub to_array : B → List ℕ
  -- `MarshalBinary`, `UnmarshalBinary`
  pub marshal : B → Bytes
  pub unmarshal : Bytes → Option B
  pub contains-new : (x : ℕ) → contains new x ≡ false
  pub contains-add : (b : B) (v x : ℕ) → contains (add b v) x ≡ v == x || contains b x
  pub contains-remove : (b : B) (v x : ℕ) → contains (remove b v) x ≡ contains b x && not (v == x)
  pub contains-add_many :
      (b : B) (vs : List ℕ) (x : ℕ) → contains (add_many b vs) x ≡ contains b x || is_in x vs
  pub contains-or : (a b : B) (x : ℕ) → contains (or a b) x ≡ contains a x || contains b x
  pub contains-and : (a b : B) (x : ℕ) → contains (and a b) x ≡ contains a x && contains b x
  pub contains-xor :
      (a b : B) (x : ℕ) → contains (xor_with a b) x ≡ xor (contains a x) (contains b x)
  pub contains-and_not :
      (a b : B) (x : ℕ) → contains (and_not a b) x ≡ contains a x && not (contains b x)
  pub roundtrip : (b : B) → unmarshal (marshal b) ≡ some b
  pub is_in-to_array : (b : B) (x : ℕ) → is_in x (to_array b) ≡ contains b x
  pub to_array-IsAscending : (b : B) → IsAscending (to_array b)

-- `GetCardinality`
abbrev pub cardinality : {B : Type 0} → Roaring B → B → ℕ
cardinality R b = length (R.to_array b)

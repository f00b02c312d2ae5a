-- ===== src/Util/Roaring/Lists.antt =====
-- Sets of numbers as lists: a concrete Roaring for examples.
use Prim.Native.Nat.{compare, Ordering}
use busybee.Prelude.{
  All, ◌<◌, ℕ, ◌≡◌, refl, Bool, not, some, List, [], ◌∷◌, ◌++◌, ◌&&◌, ◌||◌, ◌==◌, if◌then◌else◌,
  arith,
}
use busybee.Util.Roaring.{IsAscending, Roaring, is_in, xor}

-- the members that pass a test
abbrev pub keep : (ℕ → Bool) → List ℕ → List ℕ
keep f [] = []
keep f (v ∷ vs) = let rest = keep f vs in if f v then v ∷ rest else rest

abbrev pub differ : List ℕ → ℕ → Bool
differ vs x = not (is_in x vs)

pub is_in-append : (x : ℕ) (cs bs : List ℕ) → is_in x (cs ++ bs) ≡ is_in x cs || is_in x bs
is_in-append x [] bs = refl
is_in-append x (c ∷ cs) bs = ground (arith, is_in-append x cs bs)

pub is_in-keep : (x : ℕ) (f : ℕ → Bool) (vs : List ℕ) → is_in x (keep f vs) ≡ is_in x vs && f x
is_in-keep x f [] = refl
is_in-keep x f (v ∷ vs) = ground (arith, is_in-keep x f vs)

pub is_in-xor :
    (a b : List ℕ) (x : ℕ)
    → is_in x (keep (differ b) a ++ keep (differ a) b) ≡ xor (is_in x a) (is_in x b)
is_in-xor a b x = ground (
  arith,
  is_in-append x (keep (differ b) a) (keep (differ a) b),
  is_in-keep x (differ b) a,
  is_in-keep x (differ a) b,
)

pub is_in-and_not :
    (a b : List ℕ) (x : ℕ) → is_in x (keep (differ b) a) ≡ is_in x a && not (is_in x b)
is_in-and_not a b x = is_in-keep x (differ b) a

pub is_in-and : (a b : List ℕ) (x : ℕ) → is_in x (keep (λ v. is_in v b) a) ≡ is_in x a && is_in x b
is_in-and a b x = is_in-keep x (λ v. is_in v b) a

pub is_in-remove :
    (b : List ℕ) (v x : ℕ) → is_in x (keep (λ y. not (v == y)) b) ≡ is_in x b && not (v == x)
is_in-remove b v x = is_in-keep x (λ y. not (v == y)) b

-- into an ascending list, once
unfoldable pub insert : ℕ → List ℕ → List ℕ
insert v [] = v ∷ []
insert v (x ∷ xs) =
    let rest = insert v xs in
    elim (compare v x) [
      | Ordering.lt ↦ v ∷ (x ∷ xs)
      | Ordering.eq ↦ x ∷ xs
      | Ordering.gt ↦ x ∷ rest
    ]

unfoldable pub sort : List ℕ → List ℕ
unfolding insert
sort [] = []
sort (v ∷ vs) = insert v (sort vs)

is_in-insert : (x v : ℕ) (xs : List ℕ) → is_in x (insert v xs) ≡ v == x || is_in x xs
unfolding insert
is_in-insert x v [] = refl
is_in-insert x v (y ∷ ys) = ground (arith, is_in-insert x v ys)

pub is_in-sort : (xs : List ℕ) (x : ℕ) → is_in x (sort xs) ≡ is_in x xs
unfolding sort
is_in-sort [] x = refl
is_in-sort (v ∷ vs) x = ground (arith, is_in-insert x v (sort vs), is_in-sort vs x)

All-insert :
    (lo v : ℕ) (xs : List ℕ) → lo < v → All (λ y. lo < y) xs → All (λ y. lo < y) (insert v xs)
unfolding insert
All-insert lo v [] h a = (h, tt)
All-insert lo v (x ∷ xs) h a =
    elim (compare v x)
      as (λ c.
        All (λ y. lo < y)
          (elim c [
            | Ordering.lt ↦ v ∷ (x ∷ xs)
            | Ordering.eq ↦ x ∷ xs
            | Ordering.gt ↦ x ∷ insert v xs
          ])) [
            | Ordering.lt ↦ (h, a)
            | Ordering.eq ↦ a
            | Ordering.gt ↦ (a.0, All-insert lo v xs h a.1)
          ]

All-raise : (lo hi : ℕ) (xs : List ℕ) → lo < hi → All (λ y. hi < y) xs → All (λ y. lo < y) xs
All-raise lo hi [] h a = tt
All-raise lo hi (x ∷ xs) h a = (omega arith, All-raise lo hi xs h a.1)

insert-IsAscending : (v : ℕ) (xs : List ℕ) → IsAscending xs → IsAscending (insert v xs)
unfolding insert
insert-IsAscending v [] h = (tt, tt)
insert-IsAscending v (x ∷ xs) h = go (compare v x) refl (insert-IsAscending v xs h.1)
  where
    go :
        (c : Ordering)
        → compare v x ≡ c
        → IsAscending (insert v xs)
        → IsAscending (elim c [
          | Ordering.lt ↦ v ∷ (x ∷ xs)
          | Ordering.eq ↦ x ∷ xs
          | Ordering.gt ↦ x ∷ insert v xs
        ])
    go Ordering.lt e later =
        let lower : v < x = ground arith in ((lower, All-raise v x xs lower h.0), h)
    go Ordering.eq e later = h
    go Ordering.gt e later = (All-insert x v xs (ground arith) h.0, later)

pub sort-IsAscending : (xs : List ℕ) → IsAscending (sort xs)
unfolding sort
sort-IsAscending [] = tt
sort-IsAscending (v ∷ vs) = insert-IsAscending v (sort vs) (sort-IsAscending vs)

unfoldable pub lists : Roaring (List ℕ)
lists = record {
  new = [];
  contains = λ b x. is_in x b;
  add = λ b v. v ∷ b;
  remove = λ b v. keep (λ y. not (v == y)) b;
  add_many = λ b vs. b ++ vs;
  or = λ a b. a ++ b;
  and = λ a b. keep (λ v. is_in v b) a;
  xor_with = λ a b. keep (differ b) a ++ keep (differ a) b;
  and_not = λ a b. keep (differ b) a;
  to_array = sort;
  marshal = λ b. b;
  unmarshal = λ b. some b;
  contains-new = λ x. refl;
  contains-add = λ b v x. refl;
  contains-remove = is_in-remove;
  contains-add_many = λ b vs x. is_in-append x b vs;
  contains-or = λ a b x. is_in-append x a b;
  contains-and = is_in-and;
  contains-xor = is_in-xor;
  contains-and_not = is_in-and_not;
  roundtrip = λ b. refl;
  is_in-to_array = is_in-sort;
  to_array-IsAscending = sort-IsAscending;
}

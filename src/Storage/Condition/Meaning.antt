-- ===== src/Storage/Condition/Meaning.antt =====
-- What the comparisons of pkg/storage/condition.go are to mean, and that its tests decide it.
use Prim.Native.Nat.{Ordering}
use busybee.Prelude.{
  ◌<◌, ◌≡◌, ◌≢◌, ◌↔◌, ◌⊎◌, inl, inr, refl, true, List, [], ◌∷◌, Bytes, bytes_compare,
  bytes_compare_self, bytes_compare→eq, All, Any, arith, Bool-cases,
}
use busybee.Storage.Condition.{
  Cmp, Condition, ConditionGroup, match_condition, match_condition_group, match_condition_groups,
  compare_by,
}

-- the dictionary order of byte strings
abbrev pub Precedes : Bytes → Bytes → Type 0
Precedes [] [] = ⊥
Precedes [] (y ∷ ys) = Unit
Precedes (x ∷ xs) [] = ⊥
Precedes (x ∷ xs) (y ∷ ys) = (x < y) ⊎ ((x ≡ y) × Precedes xs ys)

abbrev pub Compares : Cmp → Bytes → Bytes → Type 0
Compares Cmp.exists value expect = value ≢ []
Compares Cmp.not_exists value expect = value ≡ []
Compares Cmp.equal value expect = value ≡ expect
Compares Cmp.not_equal value expect = value ≢ expect
Compares Cmp.gt value expect = Precedes expect value
Compares Cmp.ge value expect = ¬ Precedes value expect
Compares Cmp.lt value expect = Precedes value expect
Compares Cmp.le value expect = ¬ Precedes expect value
Compares Cmp.other value expect = ⊥

abbrev pub Holds : Bytes → Condition → Type 0
Holds value cond = Compares cond.cmp value cond.value

abbrev pub IsSupported : Condition → Type 0
IsSupported cond = cond.cmp ≢ Cmp.not_equal

lt→Precedes : (xs ys : Bytes) → bytes_compare xs ys ≡ Ordering.lt → Precedes xs ys
unfolding bytes_compare
lt→Precedes [] [] h = cc
lt→Precedes [] (y ∷ ys) h = tt
lt→Precedes (x ∷ xs) [] h = cc
lt→Precedes (x ∷ xs) (y ∷ ys) h = ground (arith, lt→Precedes xs ys)

Precedes→lt : (xs ys : Bytes) → Precedes xs ys → bytes_compare xs ys ≡ Ordering.lt
unfolding bytes_compare
Precedes→lt [] [] h = elim h [ ]
Precedes→lt [] (y ∷ ys) h = refl
Precedes→lt (x ∷ xs) [] h = elim h [ ]
Precedes→lt (x ∷ xs) (y ∷ ys) h = ground (arith, Precedes→lt xs ys)

-- swapping the sides of a comparison swaps its answer
pub compare_swap :
    (xs ys : Bytes) → (bytes_compare xs ys ≡ Ordering.gt) ↔ (bytes_compare ys xs ≡ Ordering.lt)
unfolding bytes_compare
compare_swap [] [] = (λ h. cc, λ h. cc)
compare_swap [] (y ∷ ys) = (λ h. cc, λ h. cc)
compare_swap (x ∷ xs) [] = (λ h. refl, λ h. refl)
compare_swap (x ∷ xs) (y ∷ ys) =
    (λ h. ground (arith, (compare_swap xs ys).0), λ h. ground (arith, (compare_swap xs ys).1))

gt→Precedes : (xs ys : Bytes) → bytes_compare xs ys ≡ Ordering.gt → Precedes ys xs
gt→Precedes xs ys h = lt→Precedes ys xs ((compare_swap xs ys).0 h)

Precedes→gt : (xs ys : Bytes) → Precedes ys xs → bytes_compare xs ys ≡ Ordering.gt
Precedes→gt xs ys h = (compare_swap xs ys).1 (Precedes→lt ys xs h)

eq→compare : (xs ys : Bytes) → xs ≡ ys → bytes_compare xs ys ≡ Ordering.eq
eq→compare xs ys e = rw e (bytes_compare_self ys)

is_supported_true :
    (c : Cmp) (value expect : Bytes)
    → c ≢ Cmp.not_equal
    → compare_by c value expect ≡ true
    → Compares c value expect
unfolding compare_by
is_supported_true Cmp.exists value expect n h = λ e. ground arith
is_supported_true Cmp.not_exists [] expect n h = refl
is_supported_true Cmp.not_exists (b ∷ bs) expect n h = cc
is_supported_true Cmp.equal value expect n h = bytes_compare→eq value expect (ground arith)
is_supported_true Cmp.not_equal value expect n h = absurd (n refl)
is_supported_true Cmp.gt value expect n h = gt→Precedes value expect (ground arith)
is_supported_true Cmp.ge value expect n h = λ p. ground (arith, Precedes→lt value expect p)
is_supported_true Cmp.lt value expect n h = lt→Precedes value expect (ground arith)
is_supported_true Cmp.le value expect n h = λ p. ground (arith, Precedes→gt value expect p)
is_supported_true Cmp.other value expect n h = cc

is_supported_holds :
    (c : Cmp) (value expect : Bytes)
    → c ≢ Cmp.not_equal
    → Compares c value expect
    → compare_by c value expect ≡ true
unfolding compare_by
is_supported_holds Cmp.exists [] expect n h = absurd (h refl)
is_supported_holds Cmp.exists (b ∷ bs) expect n h = refl
is_supported_holds Cmp.not_exists value expect n h = rw h
is_supported_holds Cmp.equal value expect n h = rw (eq→compare value expect h)
is_supported_holds Cmp.not_equal value expect n h = absurd (n refl)
is_supported_holds Cmp.gt value expect n h = rw (Precedes→gt value expect h)
is_supported_holds Cmp.ge value expect n h = ground (arith, lt→Precedes value expect)
is_supported_holds Cmp.lt value expect n h = rw (Precedes→lt value expect h)
is_supported_holds Cmp.le value expect n h = ground (arith, gt→Precedes value expect)
is_supported_holds Cmp.other value expect n h = absurd h

-- Every comparison but NotEqual decides its meaning.
pub match_condition_iff :
    (value : Bytes) (cond : Condition)
    → IsSupported cond
    → (match_condition value cond ≡ true) ↔ Holds value cond
unfolding match_condition
match_condition_iff value cond n =
    (is_supported_true cond.cmp value cond.value n, is_supported_holds cond.cmp value cond.value n)

match_condition_group_iff :
    (value : Bytes) (g : ConditionGroup)
    → All IsSupported g
    → (match_condition_group value g ≡ true) ↔ All (Holds value) g
unfolding match_condition_group
match_condition_group_iff value [] n = (λ h. tt, λ h. refl)
match_condition_group_iff value (c ∷ g) n =
    let (to, from) = match_condition_iff value c n.0 in
    let (tos, froms) = match_condition_group_iff value g n.1 in
    elim (Bool-cases (match_condition value c)) [
      | inl y ↦ (λ h. (to y, tos (ground arith)), λ h. rw y (froms h.1))
      | inr z ↦ (λ h. ground arith, λ h. ground (arith, from h.0))
    ]

-- The condition groups of a request are a disjunction of conjunctions: the test passes exactly
-- when all conditions of some group hold, where no condition is a NotEqual.
pub match_condition_groups_iff :
    (value : Bytes) (groups : List ConditionGroup)
    → All (All IsSupported) groups
    → (match_condition_groups value groups ≡ true) ↔ Any (All (Holds value)) groups
unfolding match_condition_groups
match_condition_groups_iff value [] n = (λ h. cc, λ h. absurd h)
match_condition_groups_iff value (g ∷ gs) n =
    let (to, from) = match_condition_group_iff value g n.0 in
    let (tos, froms) = match_condition_groups_iff value gs n.1 in
    elim (Bool-cases (match_condition_group value g)) [
      | inl y ↦ (λ h. inl (to y), λ h. rw y)
      | inr z ↦ (
        λ h. inr (tos (ground arith)),
        λ h. rw z (elim h [ inl a ↦ absurd (ground (arith, from a)) | inr b ↦ froms b ]),
      )
    ]

-- NotEqual is tested as Equal is: it passes exactly on the value that it should reject.
pub not_equal_iff_eq :
    (value : Bytes) (cond : Condition)
    → cond.cmp ≡ Cmp.not_equal
    → (match_condition value cond ≡ true) ↔ (value ≡ cond.value)
unfolding match_condition compare_by
not_equal_iff_eq value cond n = (
  λ h. bytes_compare→eq value cond.value (ground arith),
  λ h. ground (arith, eq→compare value cond.value h),
)

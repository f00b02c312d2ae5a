-- ===== src/Storage/Queue/Group/Assignment.antt =====
-- Which partitions `rebalanceConsumers` of pkg/storage/cmd_handler_queue.go gives to whom. It
-- limits the last partition of a consumer by the number of consumers, not of partitions.
use busybee.Prelude.{
  ℕ, zero, suc, ◌+◌, ◌*◌, ◌-◌, ◌%◌, ◌≤◌, ◌<◌, ◌≡◌, refl, some, List, [], ◌∷◌, length, get_elem?,
  map, arith, ◌==◌, Option-cases, Bool-cases, inl, inr, ◌⊎◌, ◌∙◌, sym, ap,
}
use busybee.Prelude.Int.{ℤ}
use busybee.Storage.Wire.{u32_mod}
use busybee.Storage.Queue.Group.{
  Partition, QueueState, give_range, give_all, range_start, range_size, share, rebalance_consumers,
  touch_own, owned_from, enter, join_group, joined,
}
use busybee.Storage.Queue.Group.Windows.{
  window, window_none, give_range_total, give_all_end, give_all_step,
}

get_elem?-window :
    (consumer i n j : ℕ) (ps : List Partition)
    → (n ≡ 0) ⊎ (i + n ≤ j)
    → get_elem? (window consumer i n ps) j ≡ get_elem? ps j
get_elem?-window consumer i n j [] h = refl
get_elem?-window consumer zero zero j (p ∷ ps) h = refl
get_elem?-window consumer zero (suc n) zero (p ∷ ps) h = absurd (omega arith)
get_elem?-window consumer zero (suc n) (suc j) (p ∷ ps) h =
    get_elem?-window consumer zero n j ps (inr (omega arith))
get_elem?-window consumer (suc i) n zero (p ∷ ps) h = refl
get_elem?-window consumer (suc i) n (suc j) (p ∷ ps) h =
    get_elem?-window consumer i n j ps (omega arith)

-- a range is empty, or ends at `max` at the latest
range_end :
    (m max consumer j : ℕ)
    → max < j
    → (range_size m max consumer ≡ 0) ⊎ (range_start m consumer + range_size m max consumer ≤ j)
range_end m max consumer j h = ground arith

give_all_tail :
    (m max consumer count j : ℕ) (ps qs : List Partition)
    → max < j
    → give_all m max consumer count ps ≡ some qs
    → get_elem? qs j ≡ get_elem? ps j
give_all_tail m max consumer zero j ps qs h e = rw (give_all_end m max consumer ps qs e)
give_all_tail m max consumer (suc count) j ps qs h e =
    let from = range_start m consumer in
    let n = range_size m max consumer in
    give_all_tail m max (consumer + 1) count j (window consumer from n ps) qs h
      (give_all_step m max consumer count ps qs e)
    ∙ get_elem?-window consumer from n j ps (range_end m max consumer j h)

-- Where the group has a consumer, a partition whose index is the number of consumers or more is not
-- assigned to anyone by a rebalancing that does not panic: it keeps
-- the consumer and the version that it had.
pub rebalance_leaves_tail :
    (st st' : QueueState) (j : ℕ)
    → 0 < st.consumers
    → st.consumers < u32_mod
    → st.consumers ≤ j
    → rebalance_consumers st ≡ some st'
    → get_elem? st'.states j ≡ get_elem? st.states j
unfolding rebalance_consumers
rebalance_leaves_tail st st' j p h k e =
    let m = share st.partitions st.consumers in
    let max = (st.consumers + u32_mod - 1) % u32_mod in
    elim (Option-cases (give_all m max 0 st.consumers st.states)) [
      | inl out ↦ absurd (ground arith)
      | inr (ps, f) ↦
          let eq : st'.states ≡ ps = ground arith in
          rw eq (give_all_tail m max 0 st.consumers j st.states ps (omega arith) f)
    ]

abbrev pub AllBelow : ℕ → List Partition → Type 0
AllBelow k [] = Unit
AllBelow k (p ∷ ps) = (p.consumer < k) × AllBelow k ps

window-AllBelow :
    (consumer i n k : ℕ) (ps : List Partition)
    → (n ≡ 0) ⊎ (consumer < k)
    → AllBelow k ps
    → AllBelow k (window consumer i n ps)
window-AllBelow consumer i n k [] h a = tt
window-AllBelow consumer zero zero k (p ∷ ps) h a = a
window-AllBelow consumer zero (suc n) k (p ∷ ps) h a =
    (ground arith, window-AllBelow consumer zero n k ps (inr (omega arith)) a.1)
window-AllBelow consumer (suc i) n k (p ∷ ps) h a = (a.0, window-AllBelow consumer i n k ps h a.1)

own_or_less :
    (consumer k m max : ℕ)
    → range_size m max k ≡ 0
    → consumer < suc k
    → (range_size m max consumer ≡ 0) ⊎ (consumer < k)
own_or_less consumer k m max z h = elim (Bool-cases (consumer == k)) [
  | inl y ↦ let same : consumer ≡ k = ground arith in inl (rw same z)
  | inr n ↦ inr (ground arith)
]

give_all-AllBelow :
    (m max consumer count k : ℕ) (ps qs : List Partition)
    → range_size m max k ≡ 0
    → consumer + count ≤ suc k
    → AllBelow k ps
    → give_all m max consumer count ps ≡ some qs
    → AllBelow k qs
give_all-AllBelow m max consumer zero k ps qs z h a e = rw (give_all_end m max consumer ps qs e) a
give_all-AllBelow m max consumer (suc count) k ps qs z h a e =
    let from = range_start m consumer in
    let n = range_size m max consumer in
    give_all-AllBelow m max (consumer + 1) count k (window consumer from n ps) qs z (omega arith)
      (window-AllBelow consumer from n k ps (own_or_less consumer k m max z (omega arith)) a)
      (give_all_step m max consumer count ps qs e)

owned_from-none :
    (consumer i : ℕ) (ps : List Partition) → AllBelow consumer ps → owned_from consumer i ps ≡ []
unfolding owned_from
owned_from-none consumer i [] a = refl
owned_from-none consumer i (p ∷ ps) a = ground (arith, owned_from-none consumer (i + 1) ps a.1)

touch_own-AllBelow :
    (now : ℤ) (consumer k : ℕ) (ps : List Partition)
    → AllBelow k ps
    → AllBelow k (map (touch_own now consumer) ps)
touch_own-AllBelow now consumer k [] a = tt
touch_own-AllBelow now consumer k (p ∷ ps) a =
    (ground arith, touch_own-AllBelow now consumer k ps a.1)

share-two : (partitions k : ℕ) → k + 1 < partitions → 2 ≤ share partitions (k + 1)
share-two partitions k h = grind arith

share_fits :
    (partitions k : ℕ)
    → partitions < 2147483648
    → k + 1 < partitions
    → share partitions (k + 1) * k < u32_mod
share_fits partitions k b h = grind arith

-- with more partitions than consumers, the last consumer's range begins after `max`
last_range_empty :
    (partitions k : ℕ)
    → 1 ≤ k
    → k + 1 < partitions
    → partitions < 2147483648
    → range_size (share partitions (k + 1)) k k ≡ 0
last_range_empty partitions k p h b =
    let m = share partitions (k + 1) in
    let two : 2 ≤ m = share-two partitions k h in
    let past : k + 1 ≤ m * k = grind arith in
    let fits : m * k < u32_mod = share_fits partitions k b h in
    let same : m * k % u32_mod ≡ m * k = omega arith in ground arith

length-window :
    (consumer i n : ℕ) (ps : List Partition) → length (window consumer i n ps) ≡ length ps
length-window consumer i n [] = refl
length-window consumer zero zero (p ∷ ps) = refl
length-window consumer zero (suc n) (p ∷ ps) = ap suc (length-window consumer zero n ps)
length-window consumer (suc i) n (p ∷ ps) = ap suc (length-window consumer i n ps)

give_range-some :
    (consumer i n : ℕ) (ps : List Partition)
    → (n ≡ 0) ⊎ (i + n ≤ length ps)
    → give_range consumer i n ps ≡ some (window consumer i n ps)
unfolding give_range
give_range-some consumer i n ps (inl z) = rw z (ap some (sym (window_none consumer i ps)))
give_range-some consumer i n ps (inr h) = give_range_total consumer i n ps h

give_all_total :
    (m max consumer count : ℕ) (ps : List Partition)
    → max < length ps
    → (qs : List Partition) × (give_all m max consumer count ps ≡ some qs)
unfolding give_all
give_all_total m max consumer zero ps h = (ps, refl)
give_all_total m max consumer (suc count) ps h =
    let from = range_start m consumer in
    let n = range_size m max consumer in
    let inner = give_range-some consumer from n ps (range_end m max consumer (length ps) h) in
    let (qs, e) =
      give_all_total m max (consumer + 1) count (window consumer from n ps)
        (omega (arith, length-window consumer from n ps)) in
    (qs, rw (inner, give_all) e)

-- Whoever joins a group that has a consumer, and more partitions (fewer than 2^31) than consumers
-- even with the new one, is taken in, under the next index, and is given no partition; the group
-- has a state for each partition, owned by one of its consumers.
pub joiner_starves :
    (now : ℤ) (st : QueueState)
    → length st.states ≡ st.partitions
    → AllBelow st.consumers st.states
    → 1 ≤ st.consumers
    → st.consumers + 1 < st.partitions
    → st.partitions < 2147483648
    → (st' : QueueState) × (join_group now st ≡ some (joined st.consumers [], st'))
unfolding join_group enter rebalance_consumers
joiner_starves now st len below one more small =
    let k = st.consumers in
    let m = share st.partitions (k + 1) in
    let (qs, e) = give_all_total m k 0 (k + 1) st.states (omega arith) in
    let kept =
      give_all-AllBelow m k 0 (k + 1) k st.states qs
        (last_range_empty st.partitions k one more small) (omega arith) below e in
    let none_owned =
      owned_from-none k 0 (map (touch_own now k) qs) (touch_own-AllBelow now k k qs kept) in
    let count : (k + 1) % u32_mod ≡ k + 1 = omega arith in
    let top : (k + 1 + u32_mod - 1) % u32_mod ≡ k = omega arith in
    (record st { consumers = k + 1; states = map (touch_own now k) qs }, ground arith)

-- ===== src/Storage/Queue/Group/Fencing.antt =====
-- Versions fence off consumers: in pkg/storage/cmd_handler_queue.go a partition changes hands only
-- together with its version.
use busybee.Prelude.{
  ℕ, zero, suc, ◌+◌, ◌-◌, ◌%◌, ◌≤◌, ◌<◌, ◌≡◌, ◌↔◌, get_elem?-lt, refl, true, false, some, List, [],
  ◌∷◌, get_elem?, set, map, arith, Bool-cases, inl, inr, ◌==◌, ◌&&◌, leb, ltb, Option-cases,
}
use busybee.Prelude.Int.{ℤ}
use busybee.Storage.Wire.{u32_mod, u64_mod}
use busybee.Storage.Queue.Group.Windows.{window, give_all_end, give_all_step}
use busybee.Storage.Queue.Group.{
  Partition, QueueState, release, clear_consumers, maybe_remove_timeout_consumers, give, give_all,
  rebalance_consumers, share, range_start, range_size, touch_own, join_group, JoinAnswer, enter,
  admit_fetch, any_late,
}

-- At most `n` new versions, and the same consumer if there is none.
pub record Fenced (n : ℕ) (p q : Partition) : Type 0 where
  pub bumps : ℕ
  pub few : bumps ≤ n
  pub version : q.version ≡ (p.version + bumps) % u64_mod
  pub same : bumps ≡ 0 → q.consumer ≡ p.consumer

-- the same, partition by partition
abbrev pub AllFenced : ℕ → List Partition → List Partition → Type 0
AllFenced n [] [] = Unit
AllFenced n [] (q ∷ qs) = ⊥
AllFenced n (p ∷ ps) [] = ⊥
AllFenced n (p ∷ ps) (q ∷ qs) = Fenced n p q × AllFenced n ps qs

-- versions fit `uint64`
abbrev pub AllFit : List Partition → Type 0
AllFit [] = Unit
AllFit (p ∷ ps) = (p.version < u64_mod) × AllFit ps

Fenced-refl : (n : ℕ) (p : Partition) → p.version < u64_mod → Fenced n p p
Fenced-refl n p h = record { bumps = 0; few = omega arith; version = omega arith; same = λ e. refl }

Fenced-trans : (m n : ℕ) (p q r : Partition) → Fenced m p q → Fenced n q r → Fenced (m + n) p r
Fenced-trans m n p q r f g = record {
  bumps = f.bumps + g.bumps;
  few = omega arith;
  version = omega arith;
  same = λ e. ground arith;
}

AllFenced-refl : (n : ℕ) (ps : List Partition) → AllFit ps → AllFenced n ps ps
AllFenced-refl n [] h = tt
AllFenced-refl n (p ∷ ps) h = (Fenced-refl n p h.0, AllFenced-refl n ps h.1)

AllFenced-trans :
    (m n : ℕ) (ps qs rs : List Partition)
    → AllFenced m ps qs
    → AllFenced n qs rs
    → AllFenced (m + n) ps rs
AllFenced-trans m n [] [] [] f g = tt
AllFenced-trans m n [] [] (r ∷ rs) f g = absurd g
AllFenced-trans m n [] (q ∷ qs) rs f g = absurd f
AllFenced-trans m n (p ∷ ps) [] rs f g = absurd f
AllFenced-trans m n (p ∷ ps) (q ∷ qs) [] f g = absurd g
AllFenced-trans m n (p ∷ ps) (q ∷ qs) (r ∷ rs) f g =
    (Fenced-trans m n p q r f.0 g.0, AllFenced-trans m n ps qs rs f.1 g.1)

AllFenced-fit : (n : ℕ) (ps qs : List Partition) → AllFenced n ps qs → AllFit qs
AllFenced-fit n [] [] f = tt
AllFenced-fit n [] (q ∷ qs) f = absurd f
AllFenced-fit n (p ∷ ps) [] f = absurd f
AllFenced-fit n (p ∷ ps) (q ∷ qs) f = (omega (arith, f.0), AllFenced-fit n ps qs f.1)

AllFenced-set :
    (n : ℕ) (ps : List Partition) (i : ℕ) (p q : Partition)
    → AllFit ps
    → get_elem? ps i ≡ some p
    → Fenced n p q
    → AllFenced n ps (set ps i q)
AllFenced-set n [] i p q h e f = tt
AllFenced-set n (x ∷ ps) zero p q h e f = (rw (some_eq x p e) f, AllFenced-refl n ps h.1)
  where
    some_eq : (a b : Partition) → some a ≡ some b → a ≡ b
    some_eq a b e = cc
AllFenced-set n (x ∷ ps) (suc i) p q h e f = (Fenced-refl n x h.0, AllFenced-set n ps i p q h.1 e f)

give-Fenced : (consumer : ℕ) (p : Partition) → p.version < u64_mod → Fenced 1 p (give consumer p)
give-Fenced consumer p h = elim (Bool-cases (p.consumer == consumer)) [
  | inl y ↦ rw y (Fenced-refl 1 p h)
  | inr n ↦
      rw n
        (record { bumps = 1; few = omega arith; version = refl; same = λ e. absurd (omega arith) })
]

release-AllFenced : (ps : List Partition) → AllFenced 1 ps (map release ps)
release-AllFenced [] = tt
release-AllFenced (p ∷ ps) = (
  record { bumps = 1; few = omega arith; version = refl; same = λ e. absurd (omega arith) },
  release-AllFenced ps,
)

Fenced-weaken : (m n : ℕ) (p q : Partition) → m ≤ n → Fenced m p q → Fenced n p q
Fenced-weaken m n p q h f = record {
  bumps = f.bumps;
  few = omega (arith, f.few);
  version = f.version;
  same = f.same;
}

AllFenced-weaken :
    (m n : ℕ) (ps qs : List Partition) → m ≤ n → AllFenced m ps qs → AllFenced n ps qs
AllFenced-weaken m n [] [] h f = tt
AllFenced-weaken m n [] (q ∷ qs) h f = absurd f
AllFenced-weaken m n (p ∷ ps) [] h f = absurd f
AllFenced-weaken m n (p ∷ ps) (q ∷ qs) h f =
    (Fenced-weaken m n p q h f.0, AllFenced-weaken m n ps qs h f.1)

window-AllFenced :
    (consumer i count : ℕ) (ps : List Partition)
    → AllFit ps
    → AllFenced 1 ps (window consumer i count ps)
window-AllFenced consumer i count [] h = tt
window-AllFenced consumer zero zero (p ∷ ps) h = AllFenced-refl 1 (p ∷ ps) h
window-AllFenced consumer zero (suc n) (p ∷ ps) h =
    (give-Fenced consumer p h.0, window-AllFenced consumer zero n ps h.1)
window-AllFenced consumer (suc i) n (p ∷ ps) h =
    (Fenced-refl 1 p h.0, window-AllFenced consumer i n ps h.1)

give_all-AllFenced :
    (m max consumer count : ℕ) (ps qs : List Partition)
    → AllFit ps
    → give_all m max consumer count ps ≡ some qs
    → AllFenced count ps qs
give_all-AllFenced m max consumer zero ps qs h e =
    rw (give_all_end m max consumer ps qs e) (AllFenced-refl 0 ps h)
give_all-AllFenced m max consumer (suc count) ps qs h e =
    let from = range_start m consumer in
    let n = range_size m max consumer in
    let e' = give_all_step m max consumer count ps qs e in
    let first = window-AllFenced consumer from n ps h in
    let rest =
      give_all-AllFenced m max (consumer + 1) count (window consumer from n ps) qs
        (AllFenced-fit 1 ps (window consumer from n ps) first) e' in
    AllFenced-weaken (1 + count) (suc count) ps qs (omega arith)
      (AllFenced-trans 1 count ps (window consumer from n ps) qs first rest)

touch_own-AllFenced :
    (now : ℤ) (consumer : ℕ) (ps : List Partition)
    → AllFit ps
    → AllFenced 0 ps (map (touch_own now consumer) ps)
touch_own-AllFenced now consumer [] h = tt
touch_own-AllFenced now consumer (p ∷ ps) h = (
  elim (Bool-cases (p.consumer == consumer)) [
    | inl y ↦
        rw y
          (record { bumps = 0; few = omega arith; version = omega (arith, h.0); same = λ e. refl })
    | inr n ↦ rw n (Fenced-refl 0 p h.0)
  ],
  touch_own-AllFenced now consumer ps h.1,
)

rebalance-AllFenced :
    (st st' : QueueState)
    → AllFit st.states
    → rebalance_consumers st ≡ some st'
    → AllFenced st.consumers st.states st'.states
unfolding rebalance_consumers
rebalance-AllFenced st st' h e =
    let m = share st.partitions st.consumers in
    let max = (st.consumers + u32_mod - 1) % u32_mod in
    elim (Option-cases (give_all m max 0 st.consumers st.states)) [
      | inl out ↦ absurd (ground arith)
      | inr (ps, f) ↦
          let eq : st'.states ≡ ps = ground arith in
          rw eq (give_all-AllFenced m max 0 st.consumers st.states ps h f)
    ]

enter-AllFenced :
    (now : ℤ) (st st' : QueueState) (a : JoinAnswer)
    → AllFit st.states
    → enter now st ≡ some (a, st')
    → AllFenced u32_mod st.states st'.states
unfolding enter
enter-AllFenced now st st' a h e =
    let index = st.consumers in
    let counted : QueueState = record st { consumers = (index + 1) % u32_mod } in
    elim (Option-cases (rebalance_consumers counted)) [
      | inl out ↦ absurd (ground arith)
      | inr (mid, f) ↦
          let eq : st'.states ≡ map (touch_own now index) mid.states = ground arith in
          let shared = rebalance-AllFenced counted mid h f in
          let touched =
            touch_own-AllFenced now index mid.states
              (AllFenced-fit counted.consumers st.states mid.states shared) in
          rw eq (
            AllFenced-weaken (counted.consumers + 0) u32_mod st.states
              (map (touch_own now index) mid.states) (omega arith)
              (AllFenced-trans counted.consumers 0 st.states mid.states
                (map (touch_own now index) mid.states) shared touched))
    ]

maybe_remove-AllFenced :
    (now : ℤ) (st : QueueState)
    → AllFit st.states
    → AllFenced 1 st.states (maybe_remove_timeout_consumers st now).0.states
unfolding maybe_remove_timeout_consumers
maybe_remove-AllFenced now st h =
    elim (Bool-cases (ltb 0 st.consumers && any_late now st.timeout st.states)) [
      | inl y ↦ rw y (release-AllFenced st.states)
      | inr n ↦ rw n (AllFenced-refl 1 st.states h)
    ]

join-AllFenced :
    (now : ℤ) (st st' : QueueState) (a : JoinAnswer)
    → AllFit st.states
    → join_group now st ≡ some (a, st')
    → AllFenced (1 + u32_mod) st.states st'.states
unfolding join_group
join-AllFenced now st st' a h e =
    let (mid, cleared) = maybe_remove_timeout_consumers st now in
    let first = maybe_remove-AllFenced now st h in
    elim (Bool-cases (leb st.partitions st.consumers)) [
      | inl full ↦ elim (Bool-cases cleared) [
        | inl y ↦
            let rest =
              enter-AllFenced now mid st' a (AllFenced-fit 1 st.states mid.states first)
                (ground arith) in
            AllFenced-trans 1 u32_mod st.states mid.states st'.states first rest
        | inr n ↦
            let eq : st'.states ≡ st.states = ground arith in
            rw eq (AllFenced-refl (1 + u32_mod) st.states h)
      ]
      | inr room ↦
          AllFenced-weaken u32_mod (1 + u32_mod) st.states st'.states (omega arith)
            (enter-AllFenced now st st' a h (ground arith))
    ]

Fenced-owner :
    (n i : ℕ) (ps qs : List Partition) (p q : Partition)
    → n < u64_mod
    → AllFit ps
    → AllFenced n ps qs
    → get_elem? ps i ≡ some p
    → get_elem? qs i ≡ some q
    → q.version ≡ p.version
    → q.consumer ≡ p.consumer
Fenced-owner n i [] [] p q h k f e e' v = cc
Fenced-owner n i [] (y ∷ qs) p q h k f e e' v = absurd f
Fenced-owner n i (x ∷ ps) [] p q h k f e e' v = absurd f
Fenced-owner n zero (x ∷ ps) (y ∷ qs) p q h k f e e' v = ground (arith, f.0)
Fenced-owner n (suc i) (x ∷ ps) (y ∷ qs) p q h k f e e' v =
    Fenced-owner n i ps qs p q h k.1 f.1 e e' v

-- Where all versions fit `uint64`: a partition that has the same version before and after a join has the same consumer: whoever
-- joins, a partition is never handed to another consumer under its old version.
pub join_fences :
    (now : ℤ) (st st' : QueueState) (a : JoinAnswer) (i : ℕ) (p q : Partition)
    → AllFit st.states
    → join_group now st ≡ some (a, st')
    → get_elem? st.states i ≡ some p
    → get_elem? st'.states i ≡ some q
    → q.version ≡ p.version
    → q.consumer ≡ p.consumer
join_fences now st st' a i p q h e =
    Fenced-owner (1 + u32_mod) i st.states st'.states p q (omega arith) h
      (join-AllFenced now st st' a h e)

get_elem?-map :
    (ps : List Partition) (i : ℕ) (p : Partition)
    → get_elem? ps i ≡ some p
    → get_elem? (map release ps) i ≡ some (release p)
get_elem?-map [] i p e = cc
get_elem?-map (x ∷ ps) zero p e = ground arith
get_elem?-map (x ∷ ps) (suc i) p e = get_elem?-map ps i p e

-- Where no timeout clears the group, a consumer of the group is let through exactly if it is the
-- partition's consumer and knows the partition's version.
pub admitted_iff_owner :
    (now : ℤ) (i consumer version : ℕ) (st : QueueState) (p : Partition)
    → (maybe_remove_timeout_consumers st now).1 ≡ false
    → consumer < st.consumers
    → get_elem? st.states i ≡ some p
    → ((admit_fetch now i consumer version st).removed ≡ false)
      ↔ ((p.consumer ≡ consumer) × (p.version ≡ version))
unfolding admit_fetch maybe_remove_timeout_consumers
admitted_iff_owner now i consumer version st p h c e =
    let inside = get_elem?-lt st.states i p e in (λ f. ground arith, λ f. ground arith)

-- Once a timeout clears the group, no consumer is let through under the version that its partition
-- had, and the cleared state is marked to be written.
pub cleared_refuses :
    (now : ℤ) (i consumer : ℕ) (st : QueueState) (p : Partition)
    → (maybe_remove_timeout_consumers st now).1 ≡ true
    → consumer < st.consumers
    → get_elem? st.states i ≡ some p
    → p.version < u64_mod
    → let a = admit_fetch now i consumer p.version st in
      (a.removed ≡ true) × (a.changed ≡ true) × (a.state ≡ clear_consumers st)
unfolding admit_fetch maybe_remove_timeout_consumers
cleared_refuses now i consumer st p h c e v =
    let inside = get_elem?-lt st.states i p e in
    let cleared = get_elem?-map st.states i p e in ground arith

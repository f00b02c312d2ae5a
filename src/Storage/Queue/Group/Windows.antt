-- ===== src/Storage/Queue/Group/Windows.antt =====
-- The loops of `rebalanceConsumers` in pkg/storage/cmd_handler_queue.go write one window of the
-- partitions for each consumer.
use busybee.Prelude.{
  ℕ, zero, suc, ◌+◌, ◌≤◌, ◌≡◌, refl, none, some, List, [], ◌∷◌, length, get_elem?, set, arith,
  Option-cases, inl, inr, ap, length-set, get_elem?-none,
}
use busybee.Storage.Queue.Group.{Partition, give, give_range, give_all, range_start, range_size}

-- `count` partitions from index `i` go to the consumer
abbrev pub window : ℕ → ℕ → ℕ → List Partition → List Partition
window consumer i count [] = []
window consumer zero zero (p ∷ ps) = p ∷ ps
window consumer zero (suc n) (p ∷ ps) = give consumer p ∷ window consumer zero n ps
window consumer (suc i) n (p ∷ ps) = p ∷ window consumer i n ps

pub window_none : (consumer i : ℕ) (ps : List Partition) → window consumer i 0 ps ≡ ps
window_none consumer i [] = refl
window_none consumer zero (p ∷ ps) = refl
window_none consumer (suc i) (p ∷ ps) = ap (λ r. p ∷ r) (window_none consumer i ps)

window-set :
    (consumer i n : ℕ) (ps : List Partition) (p : Partition)
    → get_elem? ps i ≡ some p
    → window consumer (suc i) n (set ps i (give consumer p)) ≡ window consumer i (suc n) ps
window-set consumer i n [] p e = refl
window-set consumer zero n (x ∷ ps) p e = ground arith
window-set consumer (suc i) n (x ∷ ps) p e = ap (λ r. x ∷ r) (window-set consumer i n ps p e)

pub give_range-window :
    (consumer i count : ℕ) (ps qs : List Partition)
    → give_range consumer i count ps ≡ some qs
    → qs ≡ window consumer i count ps
unfolding give_range
give_range-window consumer i zero ps qs e = ground (arith, window_none consumer i ps)
give_range-window consumer i (suc n) ps qs e = elim (Option-cases (get_elem? ps i)) [
  | inl out ↦ absurd (ground arith)
  | inr (p, there) ↦ ground (
    arith,
    give_range-window consumer (suc i) n (set ps i (give consumer p)) qs,
    window-set consumer i n ps p there,
  )
]

-- inside the list the inner loop does not panic
pub give_range_total :
    (consumer i count : ℕ) (ps : List Partition)
    → i + count ≤ length ps
    → give_range consumer i count ps ≡ some (window consumer i count ps)
unfolding give_range
give_range_total consumer i zero ps h = ground (arith, window_none consumer i ps)
give_range_total consumer i (suc n) ps h = elim (Option-cases (get_elem? ps i)) [
  | inl out ↦ absurd (omega (arith, get_elem?-none ps i out))
  | inr (p, there) ↦ ground (
    arith,
    give_range_total consumer (suc i) n (set ps i (give consumer p))
        (omega (arith, length-set ps i (give consumer p))),
    window-set consumer i n ps p there,
  )
]

none≢some : {A : Type 0} {a : A} → none ≡ some a → ⊥
none≢some e = cc

pub give_all_end :
    (m max consumer : ℕ) (ps qs : List Partition) → give_all m max consumer 0 ps ≡ some qs → qs ≡ ps
unfolding give_all
give_all_end m max consumer ps qs e = cc

-- one round of the outer loop
pub give_all_step :
    (m max consumer count : ℕ) (ps qs : List Partition)
    → give_all m max consumer (suc count) ps ≡ some qs
    → let ws = window consumer (range_start m consumer) (range_size m max consumer) ps in
      give_all m max (consumer + 1) count ws ≡ some qs
unfolding give_all
give_all_step m max consumer count ps qs e =
    let from = range_start m consumer in
    let n = range_size m max consumer in
    elim (Option-cases (give_range consumer from n ps)) [
      | inl out ↦ absurd (none≢some (rw (out, give_all) at e))
      | inr (ws, f) ↦ rw (← give_range-window consumer from n ps ws f) (rw (f, give_all) at e)
    ]

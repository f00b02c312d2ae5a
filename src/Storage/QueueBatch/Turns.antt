-- ===== src/Storage/QueueBatch/Turns.antt =====
-- The turns that the partitions of a queue take in pkg/storage/batch_queue.go.
use busybee.Prelude.{
  ℕ, zero, suc, ◌+◌, ◌%◌, ◌<◌, ◌≤◌, ◌≡◌, refl, ap, ◌∙◌, ◌==◌, arith, if◌then◌else◌,
}
use busybee.Storage.Wire.{u32_mod}
use busybee.Storage.QueueBatch.{next_partition}

-- the turn after some calls of `nextPartition`
abbrev pub turn_after : ℕ → ℕ → ℕ → ℕ
unfolding next_partition
turn_after partitions zero turn = turn
turn_after partitions (suc k) turn = turn_after partitions k (next_partition partitions turn).1

next_partition-lt :
    (partitions turn : ℕ)
    → turn < partitions
    → partitions < u32_mod
    → (next_partition partitions turn).1 ≡ (if turn + 1 == partitions then 0 else turn + 1)
unfolding next_partition
next_partition-lt partitions turn h l =
    let fits : (turn + 1) % u32_mod ≡ turn + 1 = omega arith in rw fits refl

turn_after-lt :
    (partitions k turn : ℕ)
    → turn + k < partitions
    → partitions < u32_mod
    → turn_after partitions k turn ≡ turn + k
unfolding turn_after
turn_after-lt partitions zero turn h l = omega arith
turn_after-lt partitions (suc k) turn h l =
    let next = next_partition-lt partitions turn (omega arith) l in
    let one : (next_partition partitions turn).1 ≡ turn + 1 = ground (arith, next) in
    ap (turn_after partitions k) one
    ∙ (turn_after-lt partitions k (turn + 1) (omega arith) l ∙ omega arith)

-- Some calls are one call more than some calls.
turn_after-suc :
    (partitions k turn : ℕ)
    → turn_after partitions (suc k) turn
      ≡ (next_partition partitions (turn_after partitions k turn)).1
unfolding turn_after
turn_after-suc partitions zero turn = refl
turn_after-suc partitions (suc k) turn =
    turn_after-suc partitions k (next_partition partitions turn).1

-- From turn 0 on, the partitions of a queue, fewer than 2^32, take turns in their order, and after the
-- last it is the first one's turn again.
pub turns_rotate :
    (last k : ℕ)
    → k ≤ last
    → last + 1 < u32_mod
    → (turn_after (suc last) k 0 ≡ k) × (turn_after (suc last) (suc last) 0 ≡ 0)
turns_rotate last k h l =
    let at_last = turn_after-lt (suc last) last 0 (omega arith) (omega arith) ∙ omega arith in
    let wraps : (next_partition (suc last) last).1 ≡ 0 =
      ground (arith, next_partition-lt (suc last) last (omega arith) (omega arith)) in
    (
      turn_after-lt (suc last) k 0 (omega arith) (omega arith) ∙ omega arith,
      turn_after-suc (suc last) last 0
          ∙ (ap (λ t. (next_partition (suc last) t).1) at_last ∙ wraps),
    )

-- ===== src/Storage/Queue/Group.antt =====
-- The consumer group of a queue in pkg/storage/cmd_handler_queue.go: who reads which partition, and
-- under which version. The group's state is `metapb.QueueState`; a panic of an index out of range
-- is `none`.
pub mod Windows
pub mod Fencing
pub mod Assignment
use busybee.Prelude.{
  ℕ, zero, suc, ◌+◌, ◌-◌, ◌*◌, ◌/◌, ◌%◌, Bool, true, false, not, Option, none, some, List, [], ◌∷◌,
  ◌&&◌, ◌||◌, length, get_elem?, set, ltb, leb, ◌==◌, map, if◌then◌else◌,
}
use busybee.Prelude.Int.{wrap_int64, ℤ, pos, negsuc, ◌-ℤ◌, ltb_ℤ}
use busybee.Storage.Wire.{u32_mod, u64_mod}

-- `metapb.Partiton`
pub record Partition : Type 0 where
  pub consumer : ℕ
  pub version : ℕ
  pub last_fetch_ts : ℤ

-- `metapb.QueueState`
pub record QueueState : Type 0 where
  pub partitions : ℕ
  pub consumers : ℕ
  pub states : List Partition
  pub timeout : ℤ
  pub max_alive : ℤ
  pub clean_batch : ℕ

-- `(now - p.LastFetchTS) > state.Timeout`
abbrev pub is_late : ℤ → ℤ → Partition → Bool
is_late now timeout p = ltb_ℤ timeout (wrap_int64 (now -ℤ p.last_fetch_ts))

unfoldable pub any_late : ℤ → ℤ → List Partition → Bool
any_late now timeout [] = false
any_late now timeout (p ∷ ps) = is_late now timeout p || any_late now timeout ps

abbrev pub release : Partition → Partition
release p = record p { version = (p.version + 1) % u64_mod; consumer = 0 }

unfoldable pub clear_consumers : QueueState → QueueState
clear_consumers state = record state { consumers = 0; states = map release state.states }

unfoldable pub maybe_remove_timeout_consumers : QueueState → ℤ → QueueState × Bool
unfolding any_late clear_consumers
maybe_remove_timeout_consumers state now =
    if ltb 0 state.consumers && any_late now state.timeout state.states
    then (clear_consumers state, true)
    else (state, false)

-- the body of the inner loop of `rebalanceConsumers`
abbrev pub give : ℕ → Partition → Partition
give consumer p =
    if p.consumer == consumer
    then p
    else record p { version = (p.version + 1) % u64_mod; consumer = consumer }

-- the inner loop, `count` rounds from index `i`
unfoldable pub give_range : ℕ → ℕ → ℕ → List Partition → Option (List Partition)
give_range consumer i zero ps = some ps
give_range consumer i (suc count) ps = elim (get_elem? ps i) [
  | none ↦ none
  | some p ↦ give_range consumer (suc i) count (set ps i (give consumer p))
]

-- The share of a consumer, `uint32(math.Ceil(float64(p) / float64(c)))`. A quotient of two `uint32`
-- that is no integer is further from one than a `float64` rounds, so the ceiling is exact.
abbrev pub share : ℕ → ℕ → ℕ
share partitions consumers = (partitions + consumers - 1) / consumers

-- `from`, and the number of rounds up to `to`
abbrev pub range_start : ℕ → ℕ → ℕ
range_start m consumer = m * consumer % u32_mod

abbrev pub range_size : ℕ → ℕ → ℕ → ℕ
range_size m max consumer =
    let last = ((consumer + 1) * m + u32_mod - 1) % u32_mod in
    (if ltb max last then max else last) + 1 - range_start m consumer

-- the outer loop, `count` consumers from `consumer`
unfoldable pub give_all : ℕ → ℕ → ℕ → ℕ → List Partition → Option (List Partition)
unfolding give_range
give_all m max consumer zero ps = some ps
give_all m max consumer (suc count) ps =
    elim (give_range consumer (range_start m consumer) (range_size m max consumer) ps) [
      | none ↦ none
      | some qs ↦ give_all m max (consumer + 1) count qs
    ]

unfoldable pub rebalance_consumers : QueueState → Option QueueState
unfolding give_all
rebalance_consumers state =
    let max = (state.consumers + u32_mod - 1) % u32_mod in
    elim (give_all (share state.partitions state.consumers) max 0 state.consumers state.states) [
      | none ↦ none
      | some ps ↦ some (record state { states = ps })
    ]

-- `state.States[idx].LastFetchTS = now` at the partitions of a consumer
abbrev pub touch_own : ℤ → ℕ → Partition → Partition
touch_own now consumer p = if p.consumer == consumer then record p { last_fetch_ts = now } else p

-- the partitions of a consumer with their versions, from index `i`
unfoldable pub owned_from : ℕ → ℕ → List Partition → List (ℕ × ℕ)
owned_from consumer i [] = []
owned_from consumer i (p ∷ ps) =
    let rest = owned_from consumer (i + 1) ps in
    if p.consumer == consumer then (i, p.version) ∷ rest else rest

-- `rpcpb.QueueJoinGroupResponse`; `emptyJoinBytes` is the refusal
pub data JoinAnswer : Type 0 where
  wait : JoinAnswer
  joined : ℕ → List (ℕ × ℕ) → JoinAnswer

-- the second half of `queueJoinGroup`: the new consumer takes the next index
unfoldable pub enter : ℤ → QueueState → Option (JoinAnswer × QueueState)
unfolding owned_from
enter now state =
    let index = state.consumers in
    let counted = record state { consumers = (index + 1) % u32_mod } in
    elim (rebalance_consumers counted) [
      | none ↦ none
      | some st ↦
          let ps = map (touch_own now index) st.states in
          some (joined index (owned_from index 0 ps), record st { states = ps })
    ]

-- The step of `queueJoinGroup` on the group's state. A full group is joined only after a timeout
-- has removed its consumers.
unfoldable pub join_group : ℤ → QueueState → Option (JoinAnswer × QueueState)
join_group now state =
    if leb state.partitions state.consumers
    then (let (st, cleared) = maybe_remove_timeout_consumers state now in
        if cleared then enter now st else some (wait, state))
    else enter now state

-- What `queueFetch` decides on the group's state: whether the consumer is told that it was removed,
-- whether the state is to be written, and the state.
pub record Admission : Type 0 where
  pub removed : Bool
  pub changed : Bool
  pub state : QueueState

-- the check of the partition's consumer and version, after the timeouts
unfoldable pub check_owner : ℤ → ℕ → ℕ → ℕ → Bool → QueueState → Admission
check_owner now partition consumer version cleared st = elim (get_elem? st.states partition) [
  | none ↦ record { removed = true; changed = cleared; state = st }
  | some p ↦
      if not (p.consumer == consumer) || not (p.version == version)
      then record { removed = true; changed = cleared; state = st }
      else record {
        removed = false;
        changed = true;
        state = record st { states = set st.states partition (record p { last_fetch_ts = now }) };
      }
]

unfoldable pub admit_fetch : ℤ → ℕ → ℕ → ℕ → QueueState → Admission
unfolding check_owner
admit_fetch now partition consumer version state =
    if state.consumers == 0 || (leb state.consumers consumer || leb (length state.states) partition)
    then record { removed = true; changed = false; state = state }
    else (let (st, cleared) = maybe_remove_timeout_consumers state now in
        check_owner now partition consumer version cleared st)

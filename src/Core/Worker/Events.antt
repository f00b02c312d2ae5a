-- ===== src/Core/Worker/Events.antt =====
-- Which events a worker of pkg/core/worker.go takes, and the offsets that it keeps of the queue's
-- partitions.
use busybee.Prelude.{
  ℕ, zero, suc, ◌+◌, Bool, true, false, not, Option, none, some, List, [], ◌∷◌, ◌&&◌, Bytes, ◌==◌,
  leb, if◌then◌else◌,
}
pub mod Laws
use busybee.Util.Roaring.{Roaring, cardinality}
use busybee.Core.Steps.{Step}
use busybee.Core.Transaction.{Acted, acted, panicked}
use busybee.Core.Worker.{StateWorker}
use busybee.Expr.Vars.{UserEvent}

-- `metapb.Event`, with the part that its type says
pub data Event (X : Type 0) : Type 0 where
  user_type : Option UserEvent → Event X
  -- the workflow, the index of its part and the new crowd
  update_crowd_type : ℕ → ℕ → Bytes → Event X
  -- the workflow and its new steps
  update_workflow_type : ℕ → List (Step X) → Event X
  other_type : Event X

-- `item`, by its action
pub data Item (X : Type 0) : Type 0 where
  timer_action : ℕ → Item X
  user_event_action : UserEvent → ℕ → ℕ → Item X
  update_workflow_action : List (Step X) → ℕ → ℕ → Item X
  update_crowd_action : Bytes → ℕ → ℕ → Item X
  check_ttl_event_action : ℕ → Item X
  change_offset_action : ℕ → ℕ → Item X

-- `eventsCacheSize`
abbrev pub events_cache_size : ℕ
events_cache_size = 4096

module _ {B X E : Type 0} (R : Roaring B) where
  unfoldable pub matches : StateWorker B X E → ℕ → Bool
  matches w uid = R.contains w.total_crowds uid

  -- whether an update is one of the worker's
  abbrev pub is_own_part : StateWorker B X E → ℕ → ℕ → Bool
  is_own_part w workflow part = workflow == w.workflow_id && part == w.index

  -- a panic on an empty worker, and on an event of a user that has none
  unfoldable pub belone_to : StateWorker B X E → Event X → Acted Bool
  unfolding matches
  belone_to w event = if cardinality R w.total_crowds == 0 then panicked else elim event [
    | user_type none ↦ panicked
    | user_type (some e) ↦ acted (matches w e.user_id)
    | update_crowd_type workflow part crowd ↦ acted (is_own_part w workflow part)
    | update_workflow_type workflow steps ↦ acted (workflow == w.workflow_id)
    | other_type ↦ acted false
  ]

  -- the item for an event of a partition at an offset
  unfoldable pub item_of : StateWorker B X E → ℕ → ℕ → Event X → Item X
  unfolding matches
  item_of w p offset (user_type none) = change_offset_action p offset
  item_of w p offset (user_type (some e)) =
      if matches w e.user_id then user_event_action e p offset else change_offset_action p offset
  item_of w p offset (update_crowd_type workflow part crowd) =
      if is_own_part w workflow part
      then update_crowd_action crowd p offset
      else change_offset_action p offset
  item_of w p offset (update_workflow_type workflow steps) =
      if workflow == w.workflow_id
      then update_workflow_action steps p offset
      else change_offset_action p offset
  item_of w p offset other_type = change_offset_action p offset

  -- `onEvent` with a queue of some length: the item to put, if there is room
  unfoldable pub on_event : StateWorker B X E → ℕ → ℕ → ℕ → Event X → Option (Item X)
  unfolding item_of
  on_event w len p offset event =
      if leb events_cache_size len then none else some (item_of w p offset event)

-- `offsets`, a map from partitions
abbrev pub offset_of : List (ℕ × ℕ) → ℕ → Option ℕ
offset_of [] p = none
offset_of ((q, v) ∷ m) p = if p == q then some v else offset_of m p

unfoldable pub set_offset : ℕ → ℕ → List (ℕ × ℕ) → List (ℕ × ℕ)
set_offset p zero m = m
set_offset p (suc n) m = elim (offset_of m p) [
  | none ↦ (p, suc n) ∷ m
  | some v ↦ if leb (suc n) v then m else (p, suc n) ∷ m
]

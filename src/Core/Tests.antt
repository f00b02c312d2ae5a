-- ===== src/Core/Tests.antt =====
-- A workflow of three steps, of which the second is direct, and events of its users.
use busybee.Prelude.{
  ℕ, ◌≡◌, ◌⊎◌, refl, Bool, true, Option, none, some, List, [], ◌∷◌, Bytes, bytes_equal, arith,
  Bool-cases, inl, inr, length, if◌then◌else◌,
}
use busybee.Prelude.Int.{pos}
use busybee.Util.Roaring.Lists.{lists, sort, insert}
use busybee.Core.Crowd.{Who, ChangedCtx}
use busybee.Core.Holders.{holders}
use busybee.Core.Steps.{Excution, branch_execution, moving, no_condition, more_conditions}
use busybee.Core.Transaction.{
  Routes, Transaction, Acted, acted, panicked, looping, find, step_changed, follow_directs,
  maybe_trigger_direct_steps, remove_from_step, move_to_step, add_changed, add_to_changes,
}
use busybee.Core.Transaction.Chain.{Descends, IsIndexed, step_changed_returns, cycle_hangs}
use busybee.Core.Transaction.Overlap.{overlap_doubles}
use busybee.Core.Execution.{execute}
use busybee.Core.Execution.Laws.{LeavesOnly, execute_keeps}
use busybee.Core.Execution.Errors.{error_changes_nothing}

abbrev s1 : Bytes
s1 = 1 ∷ []

abbrev s2 : Bytes
s2 = 2 ∷ []

abbrev s3 : Bytes
s3 = 3 ∷ []

-- the second step leads to the third
abbrev routes : Routes (List ℕ)
routes = record {
  total_crowds = 5 ∷ 6 ∷ 7 ∷ [];
  direct_nexts = (s2, s3) ∷ [];
  step_indexs = (s3, 2) ∷ (s2, 1) ∷ (s1, 0) ∷ [];
  ttls = pos 0 ∷ pos 0 ∷ pos 0 ∷ [];
}

abbrev begun : Transaction (List ℕ)
begun = record { step_crowds = (5 ∷ 6 ∷ []) ∷ (7 ∷ []) ∷ [] ∷ []; changes = [] }

abbrev one_user : ℕ → Who (List ℕ)
one_user user = record { user = user; users = none }

abbrev ending : Acted (Transaction (List ℕ) × Bool) → Transaction (List ℕ)
ending (acted r) = r.0
ending panicked = begun
ending looping = begun

abbrev changed : Acted (Transaction (List ℕ)) → Transaction (List ℕ)
changed (acted t) = t
changed panicked = begun
changed looping = begun

-- every expression is true, or every one is an error
abbrev holds : Unit {0} → Transaction (List ℕ) → Option (Bool × Option (List ℕ))
holds e tran = some (true, none)

abbrev fails : Unit {0} → Transaction (List ℕ) → Option (Bool × Option (List ℕ))
fails e tran = none

abbrev to_second : Excution (Unit {0})
to_second = branch_execution (more_conditions (moving (some tt) s1 s2) no_condition)

-- user 5 goes through the second step to the third
execute_keeps_example :
    holders lists 5 (ending (execute lists holds 2 routes to_second (one_user 5) begun)).step_crowds
    ≡ 1
unfolding execute LeavesOnly step_changed follow_directs maybe_trigger_direct_steps remove_from_step
    move_to_step add_changed add_to_changes lists bytes_equal sort insert
execute_keeps_example =
    execute_keeps lists holds 2 routes s1 begun 5 to_second (one_user 5)
      (ending (execute lists holds 2 routes to_second (one_user 5) begun)) true (refl, tt)
      (λ y. ((5 ∷ 6 ∷ [], refl, refl), refl)) (λ e m bm h. absurd (ground (arith, h))) refl

error_changes_nothing_example : begun ≡ begun
unfolding execute LeavesOnly
error_changes_nothing_example =
    error_changes_nothing lists fails 2 routes s1 begun begun to_second (one_user 5) (refl, tt) refl

abbrev height : Bytes → ℕ
height k = if bytes_equal k s2 then 1 else 0

descends : Descends routes.direct_nexts 1
unfolding bytes_equal
descends = record {
  rank = height;
  falls = λ k next h. elim (Bool-cases (bytes_equal k s2)) [
    | inl y ↦ let e : next ≡ s3 = ground (arith, y, h) in rw (y, e) (omega arith)
    | inr n ↦ let bad = rw n at h in cc
  ];
  fits = λ k. ground arith;
}

in_range : IsIndexed routes begun
in_range = record { in_crowds = λ k. ground arith; in_ttls = λ k. ground arith }

abbrev five_moves : ChangedCtx (List ℕ)
five_moves = record { from_step = s1; to_step = s2; who = one_user 5; ttl = pos 0 }

step_changed_returns_example :
    (t : Transaction (List ℕ)) × (step_changed lists 1 routes five_moves begun ≡ acted t)
    × (length t.step_crowds ≡ 3)
step_changed_returns_example =
    step_changed_returns lists routes 1 five_moves begun descends in_range

-- a crowd of 5 and 7 leaves the first step for the third, though 7 is in the second
abbrev crowd_moves : ChangedCtx (List ℕ)
crowd_moves = record {
  from_step = s1;
  to_step = s3;
  who = record { user = 0; users = some (5 ∷ 7 ∷ []) };
  ttl = pos 0;
}

overlap_doubles_example :
    holders lists 7 (changed (step_changed lists 1 routes crowd_moves begun)).step_crowds ≡ 2
unfolding step_changed maybe_trigger_direct_steps remove_from_step move_to_step add_changed
    add_to_changes lists bytes_equal sort insert
overlap_doubles_example =
    overlap_doubles lists 1 routes crowd_moves begun
      (changed (step_changed lists 1 routes crowd_moves begun)) 7 (5 ∷ 6 ∷ []) [] refl refl refl
      refl refl refl refl refl

-- the second step leads to the third, and the third back
abbrev cycle : Routes (List ℕ)
cycle = record routes { direct_nexts = (s2, s3) ∷ (s3, s2) ∷ [] }

abbrev OnCycle : Bytes → Type 0
OnCycle k = (k ≡ s2) ⊎ (k ≡ s3)

stays :
    (k : Bytes)
    → OnCycle k
    → (next : Bytes) × (find k cycle.direct_nexts ≡ some next) × OnCycle next
unfolding bytes_equal
stays k (inl e) = rw e (s3, refl, inr refl)
stays k (inr e) = rw e (s2, refl, inl refl)

cycle_hangs_example : follow_directs lists 9 cycle (one_user 5) s1 s2 begun ≡ looping
unfolding bytes_equal
cycle_hangs_example =
    cycle_hangs lists cycle 9 OnCycle (one_user 5) s1 s2 begun stays (inl refl)
      (record { in_crowds = in_range.in_crowds; in_ttls = in_range.in_ttls })

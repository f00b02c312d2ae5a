-- ===== src/Core/Transaction/Chain.antt =====
-- When the loop over direct steps of pkg/core/transcation.go ends.
use busybee.Prelude.{
  ℕ, zero, suc, ◌<◌, ◌≤◌, ◌≡◌, refl, some, List, [], ◌∷◌, Bytes, ◌∙◌, get_elem?, length, length-set,
  arith, Option-cases, Bool-cases, inl, inr,
}
use busybee.Util.Roaring.{Roaring}
use busybee.Core.Crowd.{Who, ChangedCtx}
use busybee.Core.Transaction.{
  Routes, Transaction, Acted, acted, looping, at, find, index_of, add_changed, follow_directs,
  remove_from_step, move_to_step, maybe_trigger_direct_steps, own_users, step_changed,
}

-- a number goes down along every direct step, and is at most the fuel
pub record Descends (nexts : List (Bytes × Bytes)) (fuel : ℕ) : Type 0 where
  pub rank : Bytes → ℕ
  pub falls : (k next : Bytes) → find k nexts ≡ some next → rank next < rank k
  pub fits : (k : Bytes) → rank k ≤ fuel

-- every index of a step is one of a crowd and of a state
pub record IsIndexed {B : Type 0} (w : Routes B) (tran : Transaction B) : Type 0 where
  pub in_crowds : (k : Bytes) → index_of w.step_indexs k < length tran.step_crowds
  pub in_ttls : (k : Bytes) → index_of w.step_indexs k < length w.ttls

get_elem?-some :
    {A : Type 0} (xs : List A) (i : ℕ) → i < length xs → (x : A) × (get_elem? xs i ≡ some x)
get_elem?-some [] i h = elim h [ ]
get_elem?-some (x ∷ xs) zero h = (x, refl)
get_elem?-some (x ∷ xs) (suc i) h = get_elem?-some xs i (omega arith)

at-some : {A : Type 0} (xs : List A) (i : ℕ) → i < length xs → (x : A) × (at xs i ≡ acted x)
at-some xs i h = let (x, e) = get_elem?-some xs i h in (x, ground (arith, e))

module _ {B : Type 0} (R : Roaring B) (w : Routes B) where
  -- an action on a transaction that returns, with as many crowds
  abbrev Returns : {A : Type 0} → Transaction B → (A → Transaction B) → Acted A → Type 0
  Returns {A} tran f m =
      (a : A) × (m ≡ acted a) × (length (f a).step_crowds ≡ length tran.step_crowds)

  remove_from_step-Returns :
      (i : ℕ) (who : Who B) (tran : Transaction B)
      → i < length tran.step_crowds
      → Returns tran (λ r. r.0) (remove_from_step R i who tran)
  unfolding remove_from_step
  remove_from_step-Returns i who tran h =
      let (b, e) = at-some tran.step_crowds i h in rw e (_, refl, length-set tran.step_crowds i _)

  move_to_step-Returns :
      (i : ℕ) (who : Who B) (tran : Transaction B)
      → i < length tran.step_crowds
      → Returns tran (λ r. r.0) (move_to_step R i who tran)
  unfolding move_to_step
  move_to_step-Returns i who tran h =
      let (b, e) = at-some tran.step_crowds i h in rw e (_, refl, length-set tran.step_crowds i _)

  follow_directs-Returns :
      (fuel all : ℕ) (d : Descends w.direct_nexts all) (who : Who B) (from_step to_step : Bytes)
      (tran : Transaction B)
      → d.rank to_step < fuel
      → IsIndexed w tran
      → Returns tran (λ r. r.1) (follow_directs R fuel w who from_step to_step tran)
  unfolding follow_directs add_changed
  follow_directs-Returns zero all d who from_step to_step tran h ix = absurd (omega arith)
  follow_directs-Returns (suc fuel) all d who from_step to_step tran h ix =
      let (ttl, e) = at-some w.ttls (index_of w.step_indexs to_step) (ix.in_ttls to_step) in
      elim (Option-cases (find to_step w.direct_nexts)) [
        | inl n ↦ rw (e, n) (_, refl, refl)
        | inr (next, y) ↦
            let falls = d.falls to_step next y in
            rw (e, y)
              (follow_directs-Returns fuel all d who to_step next _ (omega arith)
                (record { in_crowds = ix.in_crowds; in_ttls = ix.in_ttls }))
      ]

  maybe_trigger_direct_steps-Returns :
      (fuel current : ℕ) (d : Descends w.direct_nexts fuel) (ctx : ChangedCtx B)
      (tran : Transaction B)
      → current < length tran.step_crowds
      → IsIndexed w tran
      → Returns tran (λ t. t) (maybe_trigger_direct_steps R fuel w current ctx tran)
  unfolding maybe_trigger_direct_steps
  maybe_trigger_direct_steps-Returns fuel current d ctx tran h ix =
      elim (Option-cases (find ctx.to_step w.direct_nexts)) [
        | inl n ↦ rw (n, maybe_trigger_direct_steps) (tran, refl, refl)
        | inr (next, y) ↦
            let falls = d.falls ctx.to_step next y in
            let (last, e, l) =
              follow_directs-Returns fuel fuel d ctx.who ctx.to_step next tran
                (omega (arith, falls, d.fits ctx.to_step)) ix in
            let (left, e1, l1) = remove_from_step-Returns current ctx.who last.1 (rw l h) in
            let (moved, e2, l2) =
              move_to_step-Returns (index_of w.step_indexs last.0) ctx.who left.0
                (rw (l1, l) (ix.in_crowds last.0)) in
            rw (y, maybe_trigger_direct_steps, e, e1, e2) (moved.0, refl, l2 ∙ l1 ∙ l)
      ]

  -- A change returns, if every index is in range and if a number at most the fuel goes down along
  -- every direct step; no crowd is added or dropped.
  pub step_changed_returns :
      (fuel : ℕ) (given : ChangedCtx B) (tran : Transaction B)
      → Descends w.direct_nexts fuel
      → IsIndexed w tran
      → (t : Transaction B) × (step_changed R fuel w given tran ≡ acted t)
        × (length t.step_crowds ≡ length tran.step_crowds)
  unfolding step_changed add_changed
  step_changed_returns fuel given tran d ix =
      let who = own_users R w given.who in
      let from_idx = index_of w.step_indexs given.from_step in
      let to_idx = index_of w.step_indexs given.to_step in
      let (left, e1, l1) =
        remove_from_step-Returns from_idx who tran (ix.in_crowds given.from_step) in
      let (moved, e2, l2) =
        move_to_step-Returns to_idx who left.0 (rw l1 (ix.in_crowds given.to_step)) in
      let (ttl, e3) = at-some w.ttls to_idx (ix.in_ttls given.to_step) in
      elim (Bool-cases moved.1) [
        | inl y ↦
            let ctx : ChangedCtx B = record given { who = who; ttl = ttl } in
            let same = l2 ∙ l1 in
            let (t, e4, l4) =
              maybe_trigger_direct_steps-Returns fuel to_idx d ctx (add_changed R ctx moved.0)
                (rw same (ix.in_crowds given.to_step))
                (record { in_crowds = λ k. rw same (ix.in_crowds k); in_ttls = ix.in_ttls }) in
            rw (e1, e2, y, e3, e4) (t, refl, l4 ∙ same)
        | inr n ↦ rw (e1, e2, n) (moved.0, refl, l2 ∙ l1)
      ]

  -- If every step that is met has a direct next step, the loop never ends, whatever the fuel: a cycle
  -- of direct steps hangs the worker.
  pub cycle_hangs :
      (fuel : ℕ) (OnCycle : Bytes → Type 0) (who : Who B) (from_step to_step : Bytes)
      (tran : Transaction B)
      → ((k : Bytes)
          → OnCycle k
          → (next : Bytes) × (find k w.direct_nexts ≡ some next) × OnCycle next)
      → OnCycle to_step
      → IsIndexed w tran
      → follow_directs R fuel w who from_step to_step tran ≡ looping
  unfolding follow_directs add_changed
  cycle_hangs zero OnCycle who from_step to_step tran c on ix = refl
  cycle_hangs (suc fuel) OnCycle who from_step to_step tran c on ix =
      let (ttl, e) = at-some w.ttls (index_of w.step_indexs to_step) (ix.in_ttls to_step) in
      let (next, y, on') = c to_step on in
      rw (e, y)
        (cycle_hangs fuel OnCycle who to_step next _ c on'
          (record { in_crowds = ix.in_crowds; in_ttls = ix.in_ttls }))

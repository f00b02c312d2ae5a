-- ===== src/Core/Worker/Handling/Laws.antt =====
-- What handling a user's event in pkg/core leaves true of the crowds, retries included.
use busybee.Prelude.{
  All, ℕ, suc, ◌+◌, ◌≤◌, ◌≡◌, ◌≢◌, refl, sym, ap, ◌∙◌, Bool, true, none, some, List, [], ◌∷◌, Bytes,
  get_elem?, arith, Option-cases, Bool-cases, inl, inr,
}
use busybee.Util.Roaring.{Roaring}
use busybee.Core.Crowd.{Who}
use busybee.Core.Holders.{holders, holders-le}
use busybee.Core.Steps.{Step, Excution}
use busybee.Core.Transaction.{Transaction, acted, at, index_of, own_users}
use busybee.Core.Transaction.Laws.{bind-acted, acted-injective, at-acted, IsAt, IsTakenFrom}
use busybee.Core.Execution.{execute}
use busybee.Core.Execution.Laws.{LeavesOnly, execute_keeps}
use busybee.Core.Execution.Errors.{error_changes_nothing}
use busybee.Core.Worker.{StateWorker, routes_of}
use busybee.Core.Worker.Handling.{
  Attempt, execute_until_done, step_execution, crowd_of, do_user_event,
}

module _ {B X E : Type 0} (R : Roaring B) (fuel : ℕ) (w : StateWorker B X E) where
  -- no step runs a parallel execution or moves users out of another step, and names are unique
  abbrev pub IsSequential : Type 0
  IsSequential =
      (idx : ℕ) (step : Step X)
      → get_elem? w.states idx ≡ some step
      → LeavesOnly step.name (step_execution R fuel w step.name)
        × (index_of w.maps.step_indexs step.name ≡ idx)

  -- no expression has a crowd for its value, in any attempt
  abbrev pub FindNoCrowds : Transaction B → List (Attempt B E) → Type 0
  FindNoCrowds tran attempts =
      All (λ exec. (e : E) (m : Bool) (bm : B) → exec e tran ≢ some (m, some bm)) attempts

  crowd_of-some :
      (user i : ℕ) (cs : List B) {j : ℕ}
      → crowd_of R fuel w user i cs ≡ some j
      → (k : ℕ) × (c : B) × (j ≡ i + k) × (get_elem? cs k ≡ some c) × (R.contains c user ≡ true)
  unfolding crowd_of
  crowd_of-some user i [] h = cc
  crowd_of-some user i (c ∷ cs) h = elim (Bool-cases (R.contains c user)) [
    | inl y ↦ (0, c, ground (arith, y, h), refl, y)
    | inr n ↦
        let (k, d, e, g, y) = crowd_of-some user (i + 1) cs (rw (n, crowd_of) at h) in
        (suc k, d, omega (arith, e), g, y)
  ]

  execute_until_done-keeps :
      (attempts : List (Attempt B E)) (ex : Excution E) (s : Bytes) (target : Who B)
      (tran : Transaction B) (x : ℕ) {t : Transaction B}
      → LeavesOnly s ex
      → IsTakenFrom R
          (own_users R (routes_of w) target)
          tran.step_crowds
          (index_of w.maps.step_indexs s)
          x
      → FindNoCrowds tran attempts
      → execute_until_done R fuel w attempts ex target tran ≡ acted t
      → holders R x t.step_crowds ≡ holders R x tran.step_crowds
  unfolding execute_until_done
  execute_until_done-keeps [] ex s target tran x l m f h =
      ap (λ t. holders R x t.step_crowds) (sym (acted-injective h))
  execute_until_done-keeps (exec ∷ rest) ex s target tran x {t} l m f h =
      let ((u, ok), e, k) = bind-acted (execute R exec fuel (routes_of w) ex target tran) _ h in
      elim (Bool-cases ok) [
        | inl y ↦
            ap (λ t. holders R x t.step_crowds) (sym (acted-injective (rw y at k)))
            ∙ execute_keeps R exec fuel (routes_of w) s tran x ex target u ok l m
                (λ e m bm j. absurd (f.0 e m bm j)) e
        | inr n ↦
            let same =
              error_changes_nothing R exec fuel (routes_of w) s tran u ex target l
                (e ∙ ap (λ o. acted (u, o)) n) in
            execute_until_done-keeps rest ex s target tran x l m f.1 (rw (n, same) at k)
      ]

  taken :
      (i j user x : ℕ) (c : B) (crowds : List B)
      → get_elem? crowds i ≡ some c
      → R.contains c user ≡ true
      → holders R user crowds ≤ 1
      → j ≡ i
      → user ≡ x
      → IsAt R crowds j x × (holders R x crowds ≡ 1)
  taken i j user x c crowds g inside one same e =
      let most = holders-le R user crowds i c g in
      ((c, rw same g, rw (← e) inside), rw (← e) (ground (arith, inside, one, most)))

  zero_add : (i : ℕ) → 0 + i ≡ i
  zero_add i = omega arith

  -- In a worker whose step names are unique and whose executions have no parallel ones and move users
  -- out of their own step only, an undefined nested one counting as a move out of the step with the
  -- empty name, an event of a user that is in one step at most leaves each user in as many steps as
  -- before, whatever the number of attempts, if no expression has a crowd for its value or changes a
  -- crowd in place.
  pub user_event_keeps :
      (attempts : List (Attempt B E)) (user : ℕ) (tran t : Transaction B) (x : ℕ)
      → IsSequential
      → FindNoCrowds tran attempts
      → holders R user tran.step_crowds ≤ 1
      → do_user_event R fuel w attempts user tran ≡ acted t
      → holders R x t.step_crowds ≡ holders R x tran.step_crowds
  unfolding do_user_event
  user_event_keeps attempts user tran t x q f one h =
      elim (Option-cases (crowd_of R fuel w user 0 tran.step_crowds)) [
        | inl n ↦
            ap (λ t. holders R x t.step_crowds) (sym (acted-injective (rw (n, do_user_event) at h)))
        | inr (idx, y) ↦
            let (step, e, k) = bind-acted (at w.states idx) _ (rw (y, do_user_event) at h) in
            let (leaves, here) = q idx step (at-acted w.states idx e) in
            let (i, c, same, g, inside) = crowd_of-some user 0 tran.step_crowds y in
            let most = holders-le R user tran.step_crowds i c g in
            execute_until_done-keeps attempts (step_execution R fuel w step.name) step.name
              (record { user = user; users = none }) tran x leaves
              (λ among.
                taken i (index_of w.maps.step_indexs step.name) user x c tran.step_crowds g inside
                  one (here ∙ (same ∙ zero_add i)) (ground (arith, among)))
              f k
      ]

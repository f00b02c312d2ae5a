-- ===== src/Core/Worker/Laws.antt =====
-- What the updates of a worker in pkg/core/worker.go leave true of its crowds.
use busybee.Prelude.{
  All, ℕ, ◌+◌, ◌%◌, ◌≡◌, refl, sym, ap, ◌∙◌, Bool, true, false, not, Option, some, List, [], ◌∷◌,
  ◌&&◌, ◌||◌, Bytes, bytes_equal, bytes_equal→eq, map, arith, Bool-cases, inl, inr, if◌then◌else◌,
}
use busybee.Util.Roaring.{Roaring}
use busybee.Storage.Wire.{u64_mod}
use busybee.Core.Holders.{bit, holders, IsPartition}
use busybee.Core.Steps.{Step}
use busybee.Core.Transaction.{acted}
use busybee.Core.Transaction.Laws.{acted-injective}
use busybee.Core.Worker.{StateWorker, no_maps}
use busybee.Core.Worker.Crowds.{
  cut_crowds, update_crowds, do_update_crowd, old_crowds, kept_crowd, register_steps,
  do_update_workflow,
}

module _ {B : Type 0} (R : Roaring B) where
  -- in which of the crowds a user is
  abbrev pub whereabouts : ℕ → List B → List Bool
  whereabouts x [] = []
  whereabouts x (c ∷ cs) = R.contains c x ∷ whereabouts x cs

  holders-cut_crowds :
      (x : ℕ) (nt : B) (cs : List B)
      → holders R x (cut_crowds R nt cs) ≡ (if R.contains nt x then holders R x cs else 0)
  holders-cut_crowds x nt [] = ground arith
  holders-cut_crowds x nt (c ∷ cs) =
      ground (arith, holders-cut_crowds x nt cs, R.contains-and c nt x)

  whereabouts-cut_crowds :
      (x : ℕ) (nt : B) (cs : List B)
      → R.contains nt x ≡ true
      → whereabouts x (cut_crowds R nt cs) ≡ whereabouts x cs
  whereabouts-cut_crowds x nt [] h = refl
  whereabouts-cut_crowds x nt (c ∷ cs) h =
      ground (arith, h, whereabouts-cut_crowds x nt cs h, R.contains-and c nt x)

  -- the bitmap of the users that are new
  abbrev added_of : B → B → B
  added_of nt total = R.and_not (R.or R.new nt) total

  contains-added_of :
      (nt total : B) (x : ℕ)
      → R.contains (added_of nt total) x ≡ R.contains nt x && not (R.contains total x)
  contains-added_of nt total x = ground (
    arith,
    R.contains-and_not (R.or R.new nt) total x,
    R.contains-or R.new nt x,
    R.contains-new x,
  )

  first_step :
      (nt total sc : B) (x : ℕ)
      → R.contains (R.and (R.or sc (added_of nt total)) nt) x
        ≡ (R.contains sc x || (R.contains nt x && not (R.contains total x))) && R.contains nt x
  first_step nt total sc x = ground (
    arith,
    contains-added_of nt total x,
    R.contains-and (R.or sc (added_of nt total)) nt x,
    R.contains-or sc (added_of nt total) x,
  )

  update_crowds-IsPartition :
      (nt total sc : B) (scs : List B) (x : ℕ)
      → holders R x (sc ∷ scs) ≡ bit (R.contains total x)
      → holders R x (update_crowds R nt (added_of nt total) (sc ∷ scs))
        ≡ bit (R.contains (R.or R.new nt) x)
  unfolding update_crowds
  update_crowds-IsPartition nt total sc scs x h = ground (
    arith,
    h,
    first_step nt total sc x,
    holders-cut_crowds x nt scs,
    R.contains-or R.new nt x,
    R.contains-new x,
  )

  abbrev updated : {X E : Type 0} → B → StateWorker B X E → StateWorker B X E
  updated nt w = record w {
    total_crowds = R.or R.new nt;
    step_crowds = update_crowds R nt (added_of nt w.total_crowds) w.step_crowds;
    version = (w.version + 1) % u64_mod;
  }

  do_update_crowd-eq :
      {X E : Type 0} (crowd : Bytes) (nt : B) (w : StateWorker B X E)
      → R.unmarshal crowd ≡ some nt
      → do_update_crowd R crowd w ≡ acted (updated nt w)
  unfolding do_update_crowd
  do_update_crowd-eq crowd nt w u = ground (arith, u)

  -- A worker that has a step and whose crowds are a partition of its users takes a new crowd that can
  -- be read: its crowds are a partition of its users again, and its users are those of the new crowd.
  pub update_crowd_partitions :
      {X E : Type 0} (crowd : Bytes) (nt sc : B) (scs : List B) (w : StateWorker B X E)
      → R.unmarshal crowd ≡ some nt
      → w.step_crowds ≡ sc ∷ scs
      → IsPartition R w.total_crowds w.step_crowds
      → (w' : StateWorker B X E) × (do_update_crowd R crowd w ≡ acted w')
        × IsPartition R w'.total_crowds w'.step_crowds
        × ((x : ℕ) → R.contains w'.total_crowds x ≡ R.contains nt x)
  unfolding do_update_crowd
  update_crowd_partitions crowd nt sc scs w u e p = (
    updated nt w,
    do_update_crowd-eq crowd nt w u,
    λ x. rw e (update_crowds-IsPartition nt w.total_crowds sc scs x (rw e at p x)),
    λ x. ground (arith, R.contains-or R.new nt x, R.contains-new x),
  )

  -- A user of the worker that is in the new crowd too stays in the steps where it was.
  pub update_crowd_stays :
      {X E : Type 0} (crowd : Bytes) (nt : B) (w w' : StateWorker B X E) (x : ℕ)
      → R.unmarshal crowd ≡ some nt
      → do_update_crowd R crowd w ≡ acted w'
      → R.contains w.total_crowds x ≡ true
      → R.contains nt x ≡ true
      → whereabouts x w'.step_crowds ≡ whereabouts x w.step_crowds
  unfolding do_update_crowd
  update_crowd_stays crowd nt w w' x u h y z =
      let e = acted-injective (sym (do_update_crowd-eq crowd nt w u) ∙ h) in
      ap (λ v. whereabouts x v.step_crowds) (sym e) ∙ stays w.step_crowds
    where
      stays :
          (cs : List B)
          → whereabouts x (update_crowds R nt (added_of nt w.total_crowds) cs) ≡ whereabouts x cs
      stays [] = refl
      stays (sc ∷ scs) =
          ground (arith, y, z, first_step nt w.total_crowds sc x, whereabouts-cut_crowds x nt scs z)

  -- a crowd holds a user only if its step has some name
  abbrev pub IsOnlyIn : {X : Type 0} → Bytes → ℕ → List (Step X) → List B → Type 0
  IsOnlyIn n x [] cs = Unit
  IsOnlyIn n x (s ∷ ss) [] = Unit
  IsOnlyIn n x (s ∷ ss) (c ∷ cs) =
      (R.contains c x ≡ true → bytes_equal s.name n ≡ true) × IsOnlyIn n x ss cs

  -- an entry of the old crowds under another name does not hold the user
  abbrev IsClear : Bytes → ℕ → List (Bytes × B) → Type 0
  IsClear n x m = All (λ e. R.contains e.1 x ≡ true → bytes_equal e.0 n ≡ true) m

  old_crowds-IsClear :
      {X : Type 0} (n : Bytes) (x : ℕ) (ss : List (Step X)) (cs : List B) (m : List (Bytes × B))
      → IsOnlyIn n x ss cs
      → IsClear n x m
      → IsClear n x (old_crowds ss cs m)
  unfolding old_crowds
  old_crowds-IsClear n x [] cs m o c = c
  old_crowds-IsClear n x (s ∷ ss) [] m o c = c
  old_crowds-IsClear n x (s ∷ ss) (b ∷ cs) m o c = old_crowds-IsClear n x ss cs _ o.1 (o.0, c)

  kept_crowd-lacks :
      {X : Type 0} (n : Bytes) (x : ℕ) (m : List (Bytes × B)) (s : Step X)
      → IsClear n x m
      → bytes_equal s.name n ≡ false
      → R.contains (kept_crowd R m s) x ≡ false
  unfolding kept_crowd
  kept_crowd-lacks n x [] s c d = R.contains-new x
  kept_crowd-lacks n x ((k, b) ∷ m) s c d = elim (Bool-cases (bytes_equal s.name k)) [
    | inl y ↦ elim (Bool-cases (R.contains b x)) [
      | inl t ↦ ground (arith, d, c.0 t, bytes_equal→eq s.name k y)
      | inr f ↦ ground (arith, y, f, R.contains-or R.new b x, R.contains-new x)
    ]
    | inr f ↦ rw (f, kept_crowd) (kept_crowd-lacks n x m s c.1 d)
  ]

  kept_crowds-lack :
      {X : Type 0} (n : Bytes) (x : ℕ) (m : List (Bytes × B)) (ss : List (Step X))
      → IsClear n x m
      → All (λ s. bytes_equal s.name n ≡ false) ss
      → holders R x (map (kept_crowd R m) ss) ≡ 0
  kept_crowds-lack n x m [] c a = refl
  kept_crowds-lack n x m (s ∷ ss) c a =
      ground (arith, kept_crowd-lacks n x m s c a.0, kept_crowds-lack n x m ss c a.1)

  -- a user of the worker that is in no step is in none after a new crowd either
  update_crowd_strands :
      {X E : Type 0} (crowd : Bytes) (nt : B) (w w' : StateWorker B X E) (x : ℕ)
      → R.unmarshal crowd ≡ some nt
      → do_update_crowd R crowd w ≡ acted w'
      → R.contains w.total_crowds x ≡ true
      → R.contains nt x ≡ true
      → holders R x w.step_crowds ≡ 0
      → (holders R x w'.step_crowds ≡ 0) × (R.contains w'.total_crowds x ≡ true)
  unfolding update_crowds
  update_crowd_strands crowd nt w w' x u h y z none =
      let e = acted-injective (sym (do_update_crowd-eq crowd nt w u) ∙ h) in
      (
        ap (λ v. holders R x v.step_crowds) (sym e) ∙ go w.step_crowds none,
        ap (λ v. R.contains v.total_crowds x) (sym e) ∙ ground (arith, z, R.contains-or R.new nt x),
      )
    where
      go :
          (cs : List B)
          → holders R x cs ≡ 0
          → holders R x (update_crowds R nt (added_of nt w.total_crowds) cs) ≡ 0
      go [] k = refl
      go (sc ∷ scs) k =
          ground (arith, k, y, z, first_step nt w.total_crowds sc x, holders-cut_crowds x nt scs)

  -- A user of the worker that is only in a step whose name an updated workflow no longer has is in no
  -- step afterwards, though it still belongs to the worker; and so it is after a new crowd that can be
  -- read and has the user.
  pub update_workflow_strands :
      {X E : Type 0} (new_runtime : X → Option E) (add_cron_job : Bytes → Bool)
      (schedule : ℕ → Bool) (n : Bytes) (x : ℕ) (workflow : List (Step X)) (crowd : Bytes) (nt : B)
      (w w' w'' : StateWorker B X E)
      → do_update_workflow R new_runtime add_cron_job schedule workflow w ≡ (w', true)
      → IsOnlyIn n x w.states w.step_crowds
      → All (λ s. bytes_equal s.name n ≡ false) workflow
      → R.contains w.total_crowds x ≡ true
      → R.unmarshal crowd ≡ some nt
      → R.contains nt x ≡ true
      → do_update_crowd R crowd w' ≡ acted w''
      → (holders R x w'.step_crowds ≡ 0)
        × (R.contains w'.total_crowds x ≡ true)
        × (holders R x w''.step_crowds ≡ 0)
        × (R.contains w''.total_crowds x ≡ true)
  unfolding do_update_workflow
  update_workflow_strands new_runtime add_cron_job schedule n x workflow crowd nt w w' w'' h o a t u
        z g =
      elim (Bool-cases (register_steps R new_runtime add_cron_job schedule 0 workflow no_maps).1) [
        | inl y ↦
            let e = sym (rw (y, do_update_workflow) at h) in
            let c = old_crowds-IsClear n x w.states w.step_crowds [] o tt in
            let lost =
              ap (λ r. holders R x r.0.step_crowds) e ∙ kept_crowds-lack n x _ workflow c a in
            let own = ap (λ r. R.contains r.0.total_crowds x) e ∙ t in
            let later = update_crowd_strands crowd nt w' w'' x u g own z lost in
            (lost, own, later.0, later.1)
        | inr f ↦ let bad : false ≡ true = ap (λ r. r.1) (rw (f, do_update_workflow) at h) in cc
      ]

-- ===== src/Core/Worker/Crowds.antt =====
-- How the worker of pkg/core/worker.go sets up and replaces its crowds. A bitmap that cannot be read
-- (`MustParseBMTo`) ends the process.
use busybee.Prelude.{
  ℕ, ◌+◌, ◌%◌, Bool, true, false, Option, none, some, List, [], ◌∷◌, ◌++◌, Bytes, map,
  if◌then◌else◌,
}
use busybee.Prelude.Int.{pos, ltb_ℤ}
use busybee.Util.Roaring.{Roaring}
use busybee.Storage.Wire.{u64_mod}
use busybee.Core.Steps.{Step}
use busybee.Core.Transaction.{find, Acted, acted, panicked, ◌>>=◌}
use busybee.Core.Worker.{StateWorker, StepMaps, no_maps, register_step}

-- a panic on an unreadable bitmap
abbrev pub must_parse : {B : Type 0} → Roaring B → Bytes → Acted B
must_parse R meta = elim (R.unmarshal meta) [ none ↦ panicked | some bm ↦ acted bm ]

module _ {B : Type 0} (R : Roaring B) where
  -- `completeTransaction` copies the transaction's crowds
  unfoldable pub copy_crowds : List B → List B
  copy_crowds [] = []
  copy_crowds (c ∷ cs) = R.or R.new c ∷ copy_crowds cs

  -- The loop of `doUpdateCrowd`: the users that are new join the first step, and each step keeps
  -- the users of the new crowd.
  abbrev pub cut_crowds : B → List B → List B
  cut_crowds new_total [] = []
  cut_crowds new_total (sc ∷ scs) = R.and sc new_total ∷ cut_crowds new_total scs

  unfoldable pub update_crowds : B → B → List B → List B
  update_crowds new_total new_added [] = []
  update_crowds new_total new_added (sc ∷ scs) =
      R.and (R.or sc new_added) new_total ∷ cut_crowds new_total scs

  -- `doUpdateCrowd`, up to the request that stores the state
  unfoldable pub do_update_crowd :
      {X E : Type 0} → Bytes → StateWorker B X E → Acted (StateWorker B X E)
  unfolding update_crowds
  do_update_crowd crowd w = do
    new_total ← must_parse R crowd
    let new_added = R.and_not (R.or R.new new_total) w.total_crowds in
        acted (record w {
          total_crowds = R.or R.new new_total;
          step_crowds = update_crowds new_total new_added w.step_crowds;
          version = (w.version + 1) % u64_mod;
        })

module _ {B X : Type 0} where
  -- the crowds by the names of their steps
  unfoldable pub old_crowds : List (Step X) → List B → List (Bytes × B) → List (Bytes × B)
  old_crowds [] crowds m = m
  old_crowds (s ∷ ss) [] m = m
  old_crowds (s ∷ ss) (c ∷ cs) m = old_crowds ss cs ((s.name, c) ∷ m)

  -- the crowd of a step of the new workflow
  unfoldable pub kept_crowd : Roaring B → List (Bytes × B) → Step X → B
  kept_crowd R m step = elim (find step.name m) [ none ↦ R.new | some bm ↦ R.or R.new bm ]

module _ {B X E : Type 0} (R : Roaring B) (new_runtime : X → Option E) (add_cron_job : Bytes → Bool)
    (schedule : ℕ → Bool) where
  -- whether the check of a step's time to live could be registered
  abbrev pub adds_ttl : Step X → ℕ → Bool
  adds_ttl step idx = if ltb_ℤ (pos 0) step.ttl then schedule idx else true

  -- The loop over the steps from an index on: the maps, and whether there was no error.
  unfoldable pub register_steps : ℕ → List (Step X) → StepMaps E → StepMaps E × Bool
  unfolding register_step
  register_steps idx [] maps = (maps, true)
  register_steps idx (step ∷ steps) maps =
      elim (register_step new_runtime add_cron_job step idx maps) [
        | none ↦ (maps, false)
        | some maps' ↦
            let rest = register_steps (idx + 1) steps maps' in
            if adds_ttl step idx then rest else (maps', false)
      ]

  -- The worker after `doUpdateWorkflow`, up to the request that stores the state, and whether there
  -- was no error. An error leaves the maps of the steps before it.
  unfoldable pub do_update_workflow : List (Step X) → StateWorker B X E → StateWorker B X E × Bool
  unfolding register_steps old_crowds kept_crowd
  do_update_workflow workflow w =
      let m = old_crowds w.states w.step_crowds [] in
      let (maps, ok) = register_steps 0 workflow no_maps in
      if ok
      then (
        record w {
          maps = maps;
          step_crowds = map (kept_crowd R m) workflow;
          states = workflow;
          version = (w.version + 1) % u64_mod;
        },
        true,
      )
      else (record w { maps = maps }, false)

  -- The loop of `resetByState` over the steps and their bitmaps, from an index on: the worker, and
  -- whether there was no error.
  unfoldable pub reset_steps :
      ℕ → List (Step X × Bytes) → StateWorker B X E → Acted (StateWorker B X E × Bool)
  unfolding register_step
  reset_steps idx [] w = acted (w, true)
  reset_steps idx ((step, meta) ∷ rest) w = do
    bm ← must_parse R meta
    let w' = record w {
      step_crowds = w.step_crowds ++ (bm ∷ []);
      total_crowds = R.or w.total_crowds bm;
    } in
        elim (register_step new_runtime add_cron_job step idx w.maps) [
          | none ↦ acted (w', false)
          | some maps' ↦
              let w'' = record w' { maps = maps' } in
              let later = reset_steps (idx + 1) rest w'' in
              if adds_ttl step idx then later else acted (w'', false)
        ]

  unfoldable pub reset_by_state :
      List (Step X × Bytes) → StateWorker B X E → Acted (StateWorker B X E × Bool)
  unfolding reset_steps
  reset_by_state states w =
      reset_steps 0 states (record w { total_crowds = R.new; step_crowds = []; maps = no_maps })

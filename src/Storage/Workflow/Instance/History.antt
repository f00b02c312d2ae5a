-- ===== src/Storage/Workflow/Instance/History.antt =====
-- What a workflow instance that has reached a state must have gone through.
use busybee.Prelude.{
  ◌≡◌, ◌⊎◌, inl, inr, refl, Bool, Option, none, some, List, [], ◌∷◌, Bytes, map, arith,
}
use busybee.Storage.Engine.{DataStorage, done, each, each-nil, each-cons}
use busybee.Storage.Codec.{Codec, HasField}
use busybee.Storage.Workflow.Instance.{InstanceState, WorkflowInstance, Effect}
use busybee.Storage.Workflow.Instance.Lifecycle.{
  Command, start, update, mark_started, stop, mark_stopped, Step, begin, again, change, run, halt,
  end, apply, Stores, apply-Moves,
}

pub data Kind : Type 0 where
  start_kind update_kind started_kind stop_kind stopped_kind : Kind

abbrev pub kind : {Steps : Type 0} → Command Steps → Kind
kind (start i) = start_kind
kind (update w) = update_kind
kind (mark_started now) = started_kind
kind stop = stop_kind
kind (mark_stopped now) = stopped_kind

-- the first list is part of the second, in this order
abbrev pub IsPartOf : List Kind → List Kind → Type 0
IsPartOf [] ks = Unit
IsPartOf (p ∷ ps) [] = ⊥
IsPartOf (p ∷ ps) (k ∷ ks) = ((p ≡ k) × IsPartOf ps ks) ⊎ IsPartOf (p ∷ ps) ks

-- the commands that lead from a state to `stopped`
abbrev pub way_from : InstanceState → List Kind
way_from InstanceState.starting = started_kind ∷ stop_kind ∷ stopped_kind ∷ []
way_from InstanceState.running = stop_kind ∷ stopped_kind ∷ []
way_from InstanceState.stopping = stopped_kind ∷ []
way_from InstanceState.stopped = []

abbrev pub way : {Steps : Type 0} → Option (WorkflowInstance Steps) → List Kind
way none = start_kind ∷ way_from InstanceState.starting
way (some i) = way_from i.state

IsPartOf-skip : (ps : List Kind) (k : Kind) (ks : List Kind) → IsPartOf ps ks → IsPartOf ps (k ∷ ks)
IsPartOf-skip [] k ks h = tt
IsPartOf-skip (p ∷ ps) k ks h = inr h

Step-way :
    {Steps : Type 0} {leader : Bool} {c : Command Steps} {o o' : Option (WorkflowInstance Steps)}
    {ev : _} (ks : List Kind)
    → Step leader c o o' ev
    → IsPartOf (way o') ks
    → IsPartOf (way o) (kind c ∷ ks)
Step-way ks (begin i) h = inl (refl, h)
Step-way ks (again old i e) h = rw e tt
Step-way ks (change old w e) h = rw e (inr (rw e at h))
Step-way ks (run old now e) h = rw e (inl (refl, h))
Step-way ks (halt old e) h = rw e (inl (refl, h))
Step-way ks (end old now e) h = rw e (inl (refl, tt))

module _ {S Steps : Type 0} (D : DataStorage S) (C : Codec (WorkflowInstance Steps))
    (leader : Bool) where
  Stores-unique :
      (s : S) (key : Bytes) (o : Option (WorkflowInstance Steps)) (i : WorkflowInstance Steps)
      → HasField C
      → Stores D C leader s key o
      → Stores D C leader s key (some i)
      → o ≡ some i
  Stores-unique s key none i h g g' = absurd (ground (arith, h i))
  Stores-unique s key (some j) i h g g' = ground (arith, C.roundtrip i, C.roundtrip j)

  way_through :
      (key : Bytes) (cs : List (Command Steps)) (o : Option (WorkflowInstance Steps))
      (i : WorkflowInstance Steps) (s t : S) (es : List (Effect Steps))
      → HasField C
      → Stores D C leader s key o
      → each (apply D C leader key) cs s ≡ done (es, t)
      → Stores D C leader t key (some i)
      → i.state ≡ InstanceState.stopped
      → IsPartOf (way o) (map kind cs)
  way_through key [] o i s t es h g x g' e =
      let (_, et) = each-nil (apply D C leader key) x in
      rw (Stores-unique s key o i h g (rw et at g'), e) tt
  way_through key (c ∷ cs) o i s t es h g x g' e =
      let (r, u, rs', first, later, er) = each-cons (apply D C leader key) c cs s x in
      elim (apply-Moves D C leader key c o s u r h g first) [
        | inl (same, _) ↦
            IsPartOf-skip (way o) (kind c) (map kind cs)
              (way_through key cs o i u t rs' h same later g' e)
        | inr (o', g2, st) ↦
            Step-way (map kind cs) st (way_through key cs o' i u t rs' h g2 later g' e)
      ]

  -- Where no instance is encoded as the empty value: if the instance of a key that held none is stopped after a sequence of commands, the sequence
  -- has a start, a report that it started, a request to stop and a report that it stopped, in
  -- this order.
  pub stopped_needs_all :
      (key : Bytes) (cs : List (Command Steps)) (i : WorkflowInstance Steps) (s t : S)
      (es : List (Effect Steps))
      → HasField C
      → Stores D C leader s key none
      → each (apply D C leader key) cs s ≡ done (es, t)
      → Stores D C leader t key (some i)
      → i.state ≡ InstanceState.stopped
      → IsPartOf (start_kind ∷ started_kind ∷ stop_kind ∷ stopped_kind ∷ []) (map kind cs)
  stopped_needs_all key cs i s t es h g x g' e = way_through key cs none i s t es h g x g' e

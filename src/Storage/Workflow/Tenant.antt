-- ===== src/Storage/Workflow/Tenant.antt =====
-- `updateTenantInitState` of pkg/storage/cmd_handler_workflow.go: which queues and runners of a
-- tenant have been set up. The tenant's queue settings are opaque here.
use busybee.Prelude.{
  ℕ, ◌≡◌, ◌≢◌, refl, sym, Bool, true, false, Option, none, some, List, [], Bytes, is_empty, length,
  get_elem?, get_elem?-set_self, get_elem?-set_ne, set, ltb, if◌then◌else◌, arith,
}
use busybee.Prelude.Int.{ℤ, pos, negsuc}
use busybee.Storage.Engine.{DataStorage, M, pure, load, save, stop, unless_panic, done, ◌>>=◌, ◌>>◌}
use busybee.Storage.Codec.{Codec, decode}
use busybee.Storage.Reply.{Reply, empty, unchanged}

-- `metapb.Group`
pub data Group : Type 0 where
  default_group tenant_input_group tenant_output_group tenant_runner_group : Group

-- `metapb.Tenant`
pub record Tenant (Queues : Type 0) : Type 0 where
  pub id : ℕ
  pub queues : Queues
  pub runners : ℕ
  pub inputs_state : List Bool
  pub outputs_state : List Bool
  pub runners_state : List Bool

-- `rpcpb.TenantInitStateUpdateRequest`
pub record InitStateRequest : Type 0 where
  pub index : ℤ
  pub group : Group

-- `states[index] = true`; `none` is the panic of an index out of range
abbrev pub mark : List Bool → ℤ → Option (List Bool)
mark states (pos i) = if ltb i (length states) then some (set states i true) else none
mark states (negsuc i) = none

-- the `switch`
abbrev pub mark_group :
    {Queues : Type 0} → InitStateRequest → Tenant Queues → Option (Tenant Queues)
mark_group cmd t = elim cmd.group [
  | default_group ↦ some t
  | tenant_input_group ↦ elim (mark t.inputs_state cmd.index) [
    | none ↦ none
    | some xs ↦ some (record t { inputs_state = xs })
  ]
  | tenant_output_group ↦ elim (mark t.outputs_state cmd.index) [
    | none ↦ none
    | some xs ↦ some (record t { outputs_state = xs })
  ]
  | tenant_runner_group ↦ elim (mark t.runners_state cmd.index) [
    | none ↦ none
    | some xs ↦ some (record t { runners_state = xs })
  ]
]

-- the flags of a group
abbrev pub flags : {Queues : Type 0} → Group → Tenant Queues → List Bool
flags default_group t = []
flags tenant_input_group t = t.inputs_state
flags tenant_output_group t = t.outputs_state
flags tenant_runner_group t = t.runners_state

module _ {S Queues : Type 0} (D : DataStorage S) (C : Codec (Tenant Queues)) where
  unfoldable pub update_tenant_init_state : Bytes → InitStateRequest → M S Reply
  update_tenant_init_state key cmd = do
    value ← load D key
    if is_empty value then stop else (do
      metadata ← decode C value
      marked ← unless_panic (mark_group cmd metadata)
      save D key (C.marshal marked)
      pure (unchanged empty))

  -- A request for a group of queues or runners of a stored tenant that returns stores the tenant with the requested flag set, and with the group's
  -- other flags as they were.
  update_marks :
      (key : Bytes) (i j : ℕ) (g : Group) (old : Tenant Queues) (s t : S) (r : Reply)
      → g ≢ default_group
      → j ≢ i
      → is_empty (C.marshal old) ≡ false
      → D.get s key ≡ some (C.marshal old)
      → update_tenant_init_state key (record { index = pos i; group = g }) s ≡ done (r, t)
      → (new : Tenant Queues) × (D.get t key ≡ some (C.marshal new))
        × (get_elem? (flags g new) i ≡ some true)
        × (get_elem? (flags g new) j ≡ get_elem? (flags g old) j)
  unfolding update_tenant_init_state
  update_marks key i j default_group old s t r n ne h g x = absurd (n refl)
  update_marks key i j tenant_input_group old s t r n ne h g x =
      let new = record old { inputs_state = set old.inputs_state i true } in
      (
        new,
        ground (arith, C.roundtrip old, D.get-set_self s t key (C.marshal new)),
        get_elem?-set_self old.inputs_state i true (ground (arith, C.roundtrip old)),
        get_elem?-set_ne old.inputs_state true (λ e. ne (sym e)),
      )
  update_marks key i j tenant_output_group old s t r n ne h g x =
      let new = record old { outputs_state = set old.outputs_state i true } in
      (
        new,
        ground (arith, C.roundtrip old, D.get-set_self s t key (C.marshal new)),
        get_elem?-set_self old.outputs_state i true (ground (arith, C.roundtrip old)),
        get_elem?-set_ne old.outputs_state true (λ e. ne (sym e)),
      )
  update_marks key i j tenant_runner_group old s t r n ne h g x =
      let new = record old { runners_state = set old.runners_state i true } in
      (
        new,
        ground (arith, C.roundtrip old, D.get-set_self s t key (C.marshal new)),
        get_elem?-set_self old.runners_state i true (ground (arith, C.roundtrip old)),
        get_elem?-set_ne old.runners_state true (λ e. ne (sym e)),
      )

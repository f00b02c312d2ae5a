-- ===== src/Storage/Kv/Conditional/Laws.antt =====
-- `setIf` and `deleteIf` of pkg/storage/cmd_handler_kv.go as compare-and-swap.
use busybee.Prelude.{
  at_key, bytes_equal, bytes_equal_self, ◌≡◌, true, false, some, List, [], ◌∷◌, Bytes, is_empty,
  All, arith, if◌then◌else◌,
}
use busybee.Prelude.Int.{pos}
use busybee.Storage.Engine.{DataStorage, done, each, each-nil, each-cons}
use busybee.Storage.Condition.{
  Cmp, ConditionGroup, match_condition_groups, match_condition_group, match_condition,
}
use busybee.Storage.Reply.{Reply, boolean}
use busybee.Storage.Kv.Conditional.{SetIfRequest, set_if, delete_if, to_int32}

-- a write of a value, with no time to live, under the one condition that the key does not exist
pub record IsInitial (req : SetIfRequest) : Type 0 where
  pub operand : Bytes
  pub guard : req.conditions ≡ (record { cmp = Cmp.not_exists; value = operand } ∷ []) ∷ []
  pub value : is_empty req.value ≡ false
  pub lasts : to_int32 req.ttl ≡ pos 0

abbrev pub IsRefusedWrite : Reply → Type 0
IsRefusedWrite r = r.response ≡ boolean false

module _ {S : Type 0} (D : DataStorage S) where
  -- A conditional write with no time to live that returns answers whether its conditions hold of the old value, puts
  -- the new value in its place if so and keeps it if not, and leaves every other key as it was.
  pub set_if_swaps :
      (key j old : Bytes) (req : SetIfRequest) (s t : S) (r : Reply)
      → to_int32 req.ttl ≡ pos 0
      → D.get s key ≡ some old
      → set_if D key req s ≡ done (r, t)
      → let swapped = match_condition_groups old req.conditions in
        (r.response ≡ boolean swapped)
        × (D.get t j
            ≡ (if bytes_equal j key then some (if swapped then req.value else old) else D.get s j))
  unfolding set_if
  set_if_swaps key j old req s t r lasts g x = (
    ground arith,
    at_key (D.get t) (D.get s) j key
        (ground (arith, lasts, D.get-set_with_ttl_self s t key req.value))
        (λ ne. ground (arith, D.get-set_with_ttl_ne s t key req.value j (to_int32 req.ttl))),
  )

  -- A conditional delete that returns answers whether its conditions hold of the old value, and
  -- removes the key if so; the key is as it was if not, and every other key in both cases.
  pub delete_if_swaps :
      (key j old : Bytes) (conditions : List ConditionGroup) (s t : S) (r : Reply)
      → D.get s key ≡ some old
      → delete_if D key conditions s ≡ done (r, t)
      → let deleted = match_condition_groups old conditions in
        (r.response ≡ boolean deleted)
        × (D.get t j
            ≡ (if bytes_equal j key then some (if deleted then [] else old) else D.get s j))
  unfolding delete_if
  delete_if_swaps key j old conditions s t r g x = (
    ground arith,
    at_key (D.get t) (D.get s) j key (ground (arith, D.get-delete_self s t key))
        (λ ne. ground (arith, D.get-delete_ne s t key j)),
  )

  IsInitial-guard :
      (req : SetIfRequest) (old : Bytes)
      → IsInitial req
      → match_condition_groups old req.conditions ≡ is_empty old
  unfolding match_condition_groups match_condition_group match_condition
  IsInitial-guard req old h = ground arith

  refused_after :
      (key old : Bytes) (reqs : List SetIfRequest) (s t : S) (rs : List Reply)
      → is_empty old ≡ false
      → All IsInitial reqs
      → D.get s key ≡ some old
      → each (set_if D key) reqs s ≡ done (rs, t)
      → All IsRefusedWrite rs × (D.get t key ≡ some old)
  refused_after key old [] s t rs h a g x =
      let (er, et) = each-nil (set_if D key) x in rw (er, et) (tt, g)
  refused_after key old (q ∷ qs) s t rs h a g x =
      let (r, u, rs', first, later, er) = each-cons (set_if D key) q qs s x in
      let (e, kept) = set_if_swaps key key old q s u r a.0.lasts g first in
      let one : (r.response ≡ boolean false) × (D.get u key ≡ some old) =
        ground (arith, IsInitial-guard q old a.0, bytes_equal_self key) in
      let rest = refused_after key old qs u t rs' h a.1 one.1 later in
      rw er ((one.0, rest.0), rest.1)

  -- Of any number of writes without a time to live, guarded by "does not exist", on a key that does
  -- not exist, the first alone succeeds, and its value stays.
  pub set_if_once :
      (key : Bytes) (q : SetIfRequest) (qs : List SetIfRequest) (s t : S) (rs : List Reply)
      → All IsInitial (q ∷ qs)
      → D.get s key ≡ some []
      → each (set_if D key) (q ∷ qs) s ≡ done (rs, t)
      → (r : Reply) × (rs' : List Reply) × (rs ≡ r ∷ rs')
        × (r.response ≡ boolean true)
        × All IsRefusedWrite rs'
        × (D.get t key ≡ some q.value)
  set_if_once key q qs s t rs a g x =
      let (r, u, rs', first, later, er) = each-cons (set_if D key) q qs s x in
      let (e, put) = set_if_swaps key key [] q s u r a.0.lasts g first in
      let one : (r.response ≡ boolean true) × (D.get u key ≡ some q.value) =
        ground (arith, IsInitial-guard q [] a.0, bytes_equal_self key) in
      let rest = refused_after key q.value qs u t rs' a.0.value a.1 one.1 later in
      (r, rs', er, one.0, rest.0, rest.1)

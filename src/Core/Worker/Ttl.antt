-- ===== src/Core/Worker/Ttl.antt =====
-- The users whose time to live in a step of pkg/core/worker.go is looked at: `doCheckStepTTLTimeout`
-- triggers an event for each of them once, until the time to live is over.
use busybee.Prelude.{
  ℕ, zero, suc, ◌≤◌, ◌≡◌, refl, sym, ap, ◌∙◌, Bool, not, ◌&&◌, true, false, List, [], ◌∷◌, ◌||◌,
  ◌==◌, length, length-take, take, arith, if◌then◌else◌, Bool-cases, inl, inr,
}
use busybee.Prelude.Int.{ℤ, pos, ◌-ℤ◌, eq_ℤ, ltb_ℤ, wrap_int64}
use busybee.Util.Roaring.{Roaring, cardinality, is_in}

-- `triggerInfo`
pub record TriggerInfo (B : Type 0) : Type 0 where
  pub first_ts : ℤ
  pub already : B

-- `maxTriggerCount`
abbrev pub max_trigger_count : ℕ
max_trigger_count = 256

module _ {B : Type 0} (R : Roaring B) where
  -- `maybeReset`, at a time
  unfoldable pub maybe_reset : ℤ → ℤ → TriggerInfo B → TriggerInfo B
  maybe_reset now ttl info =
      let first = if eq_ℤ info.first_ts (pos 0) then now else info.first_ts in
      if ltb_ℤ ttl (wrap_int64 (now -ℤ first))
      then record { first_ts = now; already = R.new }
      else record info { first_ts = first }

  abbrev pub add_each : List ℕ → B → B
  add_each [] b = b
  add_each (x ∷ xs) b = add_each xs (R.add b x)

  -- For a step with a time to live: the users to trigger, and the info afterwards.
  unfoldable pub check_step_ttl : ℤ → ℤ → B → TriggerInfo B → List ℕ × TriggerInfo B
  unfolding maybe_reset
  check_step_ttl now ttl current info =
      if cardinality R current == 0
      then ([], info)
      else (let info' = maybe_reset now ttl info in
          let picked =
            take max_trigger_count (R.to_array (R.and_not (R.or R.new current) info'.already)) in
          (picked, record info' { already = add_each picked info'.already }))

  is_in-take : (x n : ℕ) (xs : List ℕ) → is_in x (take n xs) ≡ true → is_in x xs ≡ true
  is_in-take x zero xs h = cc
  is_in-take x (suc n) [] h = cc
  is_in-take x (suc n) (y ∷ ys) h = elim (Bool-cases (y == x)) [
    | inl e ↦ ground (arith, e)
    | inr f ↦ ground (arith, f, h, is_in-take x n ys (ground (arith, f, h)))
  ]

  contains-add_each :
      (xs : List ℕ) (b : B) (x : ℕ) → R.contains (add_each xs b) x ≡ R.contains b x || is_in x xs
  contains-add_each [] b x = ground arith
  contains-add_each (y ∷ ys) b x =
      ground (arith, contains-add_each ys (R.add b y) x, R.contains-add b y x)

  left_over :
      (current already : B) (x : ℕ)
      → R.contains (R.and_not (R.or R.new current) already) x ≡ true
      → (R.contains current x ≡ true) × (R.contains already x ≡ false)
  left_over current already x h =
      let a = R.contains-and_not (R.or R.new current) already x in
      let o = R.contains-or R.new current x in
      (ground (arith, h, a, o, R.contains-new x), ground (arith, h, a, o))

  first_256 : (xs : List ℕ) → length (take max_trigger_count xs) ≤ 256
  first_256 xs = omega (arith, length-take max_trigger_count xs)

  -- whether the time to live is over, from the first check since the last time that it was
  abbrev pub is_over : ℤ → ℤ → TriggerInfo B → Bool
  is_over now ttl info =
      ltb_ℤ ttl (wrap_int64 (now -ℤ (if eq_ℤ info.first_ts (pos 0) then now else info.first_ts)))

  contains-maybe_reset :
      (now ttl : ℤ) (info : TriggerInfo B) (x : ℕ)
      → R.contains (maybe_reset now ttl info).already x
        ≡ not (is_over now ttl info) && R.contains info.already x
  unfolding maybe_reset
  contains-maybe_reset now ttl info x = elim (Bool-cases (is_over now ttl info)) [
    | inl y ↦ rw y (R.contains-new x)
    | inr n ↦ rw n refl
  ]

  -- A check that triggers a user triggers at most 256 of them; the user is in the step, and was not
  -- remembered unless the time to live is over. Remembered afterwards are just the users that are
  -- triggered and, if the time to live is not over, those that were before.
  pub ttl_triggers_once :
      (now ttl : ℤ) (current : B) (info : TriggerInfo B) (x y : ℕ)
      → let check = check_step_ttl now ttl current info in
        is_in x check.0 ≡ true
        → (R.contains current x ≡ true)
          × (not (is_over now ttl info) && R.contains info.already x ≡ false)
          × (R.contains check.1.already y
              ≡ (not (is_over now ttl info) && R.contains info.already y) || is_in y check.0)
          × (length check.0 ≤ 256)
  unfolding check_step_ttl
  ttl_triggers_once now ttl current info x y h = elim (Bool-cases (cardinality R current == 0)) [
    | inl e ↦ let bad : false ≡ true = rw (e, check_step_ttl) at h in cc
    | inr n ↦
        let info' = maybe_reset now ttl info in
        let left = R.and_not (R.or R.new current) info'.already in
        let inside = is_in-take x 256 (R.to_array left) (rw (n, check_step_ttl) at h) in
        let (here, fresh) =
          left_over current info'.already x (sym (R.is_in-to_array left x) ∙ inside) in
        (
          here,
          sym (contains-maybe_reset now ttl info x) ∙ fresh,
          rw (n, check_step_ttl)
              (contains-add_each (take max_trigger_count (R.to_array left)) info'.already y
                ∙ ap (λ b. b || is_in y (take max_trigger_count (R.to_array left)))
                    (contains-maybe_reset now ttl info y)),
          rw (n, check_step_ttl) (first_256 (R.to_array left)),
        )
  ]

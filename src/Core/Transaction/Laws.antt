-- ===== src/Core/Transaction/Laws.antt =====
-- Where the users of a change are, after pkg/core/transcation.go has carried it out.
use busybee.Prelude.{
  ℕ, zero, suc, ◌+◌, ◌≡◌, refl, sym, ap, ◌∙◌, Bool, true, some, List, Bytes, get_elem?,
  get_elem?-set_self, get_elem?-lt, set, arith, Option-cases, Bool-cases, inl, inr,
}
use busybee.Util.Roaring.{Roaring}
use busybee.Core.Crowd.{Who, ChangedCtx, appended, removed, append_to, remove_from}
use busybee.Core.Holders.{
  bit, holders, holders-set, is_among, holders-le, contains-removed, contains-appended,
}
use busybee.Core.Transaction.{
  Routes, Transaction, Acted, acted, panicked, looping, ◌>>=◌, at, find, index_of, add_changed,
  follow_directs, remove_from_step, move_to_step, maybe_trigger_direct_steps, own_users,
  step_changed,
}

-- Inversion of an action that goes well.
pub bind-acted :
    {A B : Type 0} (m : Acted A) (f : A → Acted B) {b : B}
    → (m >>= f) ≡ acted b
    → (a : A) × (m ≡ acted a) × (f a ≡ acted b)
bind-acted (acted a) f h = (a, refl, h)
bind-acted panicked f h = cc
bind-acted looping f h = cc

pub acted-injective : {A : Type 0} {a b : A} → ◌≡◌ {A = Acted A} (acted a) (acted b) → a ≡ b
acted-injective h = ground arith

pub at-acted :
    {A : Type 0} (xs : List A) (i : ℕ) {x : A} → at xs i ≡ acted x → get_elem? xs i ≡ some x
at-acted xs i h = elim (Option-cases (get_elem? xs i)) [
  | inl n ↦ ground (arith, n, h)
  | inr (y, e) ↦ ground (arith, e, h)
]

module _ {B : Type 0} (R : Roaring B) where
  pub remove_from_step-acted :
      (i : ℕ) (who : Who B) (tran : Transaction B) {r : Transaction B × Bool}
      → remove_from_step R i who tran ≡ acted r
      → (b : B) × (get_elem? tran.step_crowds i ≡ some b)
        × (r.0.step_crowds ≡ set tran.step_crowds i (removed R who b))
  unfolding remove_from_step remove_from
  remove_from_step-acted i who tran h =
      let (b, e, k) = bind-acted (at tran.step_crowds i) _ h in
      (b, at-acted tran.step_crowds i e, ap (λ r. r.0.step_crowds) (sym (acted-injective k)))

  pub move_to_step-acted :
      (i : ℕ) (who : Who B) (tran : Transaction B) {r : Transaction B × Bool}
      → move_to_step R i who tran ≡ acted r
      → (b : B) × (get_elem? tran.step_crowds i ≡ some b)
        × (r.0.step_crowds ≡ set tran.step_crowds i (appended R who b))
  unfolding move_to_step append_to
  move_to_step-acted i who tran h =
      let (b, e, k) = bind-acted (at tran.step_crowds i) _ h in
      (b, at-acted tran.step_crowds i e, ap (λ r. r.0.step_crowds) (sym (acted-injective k)))

  -- a user is in the crowd at an index
  abbrev pub IsAt : List B → ℕ → ℕ → Type 0
  IsAt crowds i x = (b : B) × (get_elem? crowds i ≡ some b) × (R.contains b x ≡ true)

  -- A hop takes users out of one crowd and puts them into another.
  hop-holders :
      (i j : ℕ) (who : Who B) (x : ℕ) (cs ds es : List B) (b c : B)
      → get_elem? cs i ≡ some b
      → ds ≡ set cs i (removed R who b)
      → get_elem? ds j ≡ some c
      → es ≡ set ds j (appended R who c)
      → (is_among R who x ≡ true → (R.contains b x ≡ true) × (holders R x cs ≡ 1))
      → holders R x es ≡ holders R x cs
  hop-holders i j who x cs ds es b c e d f g h =
      let ra = contains-removed R who b x in
      let aa = contains-appended R who c x in
      let hd : holders R x ds + bit (R.contains b x)
          ≡ holders R x cs + bit (R.contains (removed R who b) x) =
        rw d (holders-set R x cs i b (removed R who b) e) in
      let he : holders R x es + bit (R.contains c x)
          ≡ holders R x ds + bit (R.contains (appended R who c) x) =
        rw g (holders-set R x ds j c (appended R who c) f) in
      elim (Bool-cases (is_among R who x)) [
        | inl y ↦ ground (arith, y, h y, ra, aa, hd, he, holders-le R x ds j c f)
        | inr n ↦ ground (arith, n, ra, aa, hd, he)
      ]

  hop-IsAt :
      (j : ℕ) (who : Who B) (x : ℕ) (ds es : List B) (c : B)
      → get_elem? ds j ≡ some c
      → es ≡ set ds j (appended R who c)
      → is_among R who x ≡ true
      → IsAt es j x
  hop-IsAt j who x ds es c f g y = (
    appended R who c,
    rw g (get_elem?-set_self ds j (appended R who c) (get_elem?-lt ds j c f)),
    ground (arith, y, contains-appended R who c x),
  )

  follow_directs-step_crowds :
      (fuel : ℕ) (w : Routes B) (who : Who B) (from_step to_step : Bytes) (tran : Transaction B)
      {r : Bytes × Transaction B}
      → follow_directs R fuel w who from_step to_step tran ≡ acted r
      → r.1.step_crowds ≡ tran.step_crowds
  unfolding follow_directs add_changed
  follow_directs-step_crowds zero w who from_step to_step tran h = cc
  follow_directs-step_crowds (suc fuel) w who from_step to_step tran h =
      let (ttl, e, k) = bind-acted (at w.ttls (index_of w.step_indexs to_step)) _ h in
      elim (Option-cases (find to_step w.direct_nexts)) [
        | inl n ↦ ap (λ r. r.1.step_crowds) (sym (acted-injective (rw n at k)))
        | inr (next, y) ↦ follow_directs-step_crowds fuel w who to_step next _ (rw y at k)
      ]

  -- who a change takes is in the crowd at an index and in no other
  abbrev pub IsTakenFrom : Who B → List B → ℕ → ℕ → Type 0
  IsTakenFrom who crowds i x = is_among R who x ≡ true → IsAt crowds i x × (holders R x crowds ≡ 1)

  one_of :
      (who : Who B) (crowds : List B) (i x : ℕ) (b : B)
      → get_elem? crowds i ≡ some b
      → IsTakenFrom who crowds i x
      → is_among R who x ≡ true
      → (R.contains b x ≡ true) × (holders R x crowds ≡ 1)
  one_of who crowds i x b e t y = let ((c, f, k), one) = t y in (ground (arith, e, f, k), one)

  hop :
      (i j : ℕ) (who : Who B) (tran : Transaction B) (x : ℕ) (left moved : Transaction B × Bool)
      → remove_from_step R i who tran ≡ acted left
      → move_to_step R j who left.0 ≡ acted moved
      → IsTakenFrom who tran.step_crowds i x
      → (holders R x moved.0.step_crowds ≡ holders R x tran.step_crowds)
        × IsTakenFrom who moved.0.step_crowds j x
  hop i j who tran x left moved h k taken =
      let (b, e, d) = remove_from_step-acted i who tran h in
      let (c, f, g) = move_to_step-acted j who left.0 k in
      let same =
        hop-holders i j who x tran.step_crowds left.0.step_crowds moved.0.step_crowds b c e d f g
          (one_of who tran.step_crowds i x b e taken) in
      (
        same,
        λ y. (hop-IsAt j who x left.0.step_crowds moved.0.step_crowds c f g y, same ∙ (taken y).1),
      )

  maybe_trigger_direct_steps-holders :
      (fuel : ℕ) (w : Routes B) (current : ℕ) (ctx : ChangedCtx B) (tran : Transaction B) (x : ℕ)
      {t : Transaction B}
      → maybe_trigger_direct_steps R fuel w current ctx tran ≡ acted t
      → IsTakenFrom ctx.who tran.step_crowds current x
      → holders R x t.step_crowds ≡ holders R x tran.step_crowds
  unfolding maybe_trigger_direct_steps
  maybe_trigger_direct_steps-holders fuel w current ctx tran x {t} h taken =
      elim (Option-cases (find ctx.to_step w.direct_nexts)) [
        | inl n ↦
            ap (λ r. holders R x r.step_crowds)
              (sym (acted-injective (rw (n, maybe_trigger_direct_steps) at h)))
        | inr (next, y) ↦
            let (last, e, k) =
              bind-acted (follow_directs R fuel w ctx.who ctx.to_step next tran) _
                (rw (y, maybe_trigger_direct_steps) at h) in
            let (left, e1, k1) = bind-acted (remove_from_step R current ctx.who last.1) _ k in
            let (moved, e2, k2) =
              bind-acted (move_to_step R (index_of w.step_indexs last.0) ctx.who left.0) _ k1 in
            let same = follow_directs-step_crowds fuel w ctx.who ctx.to_step next tran e in
            let (kept, at_last) =
              hop current (index_of w.step_indexs last.0) ctx.who last.1 x left moved e1 e2
                (rw same taken) in
            ap (λ r. holders R x r.step_crowds) (sym (acted-injective k2))
            ∙ kept
            ∙ ap (holders R x) same
      ]

  -- If the users whom a change takes, cut down to the worker's own, are in the crowd of the step
  -- that they leave and in no other, each user is in as many crowds after the change as before.
  pub step_changed-holders :
      (fuel : ℕ) (w : Routes B) (given : ChangedCtx B) (tran : Transaction B) (x : ℕ)
      {t : Transaction B}
      → step_changed R fuel w given tran ≡ acted t
      → IsTakenFrom
          (own_users R w given.who)
          tran.step_crowds
          (index_of w.step_indexs given.from_step)
          x
      → holders R x t.step_crowds ≡ holders R x tran.step_crowds
  unfolding step_changed add_changed
  step_changed-holders fuel w given tran x {t} h taken =
      let who = own_users R w given.who in
      let to_idx = index_of w.step_indexs given.to_step in
      let (left, e1, k1) =
        bind-acted (remove_from_step R (index_of w.step_indexs given.from_step) who tran) _ h in
      let (moved, e2, k2) = bind-acted (move_to_step R to_idx who left.0) _ k1 in
      let (kept, at_last) =
        hop (index_of w.step_indexs given.from_step) to_idx who tran x left moved e1 e2 taken in
      elim (Bool-cases moved.1) [
        | inl y ↦
            let (ttl, e3, k3) = bind-acted (at w.ttls to_idx) _ (rw y at k2) in
            maybe_trigger_direct_steps-holders fuel w to_idx (record given { who = who; ttl = ttl })
              _ x k3 at_last
            ∙ kept
        | inr n ↦ ap (λ r. holders R x r.step_crowds) (sym (acted-injective (rw n at k2))) ∙ kept
      ]

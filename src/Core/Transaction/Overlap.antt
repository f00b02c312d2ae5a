-- ===== src/Core/Transaction/Overlap.antt =====
-- What a change of pkg/core/transcation.go makes of a crowd that is not all in the step it leaves, as
-- a timer's expression over all users of the workflow may have.
use busybee.Prelude.{
  ℕ, zero, suc, [], ◌∷◌, ◌+◌, ◌≡◌, sym, ap, ◌∙◌, true, false, Option, none, some, List, get_elem?,
  set, arith, Bool-cases, inl, inr,
}
use busybee.Util.Roaring.{Roaring}
use busybee.Core.Crowd.{Who, ChangedCtx, appended, removed}
use busybee.Core.Holders.{bit, holders, holders-set, is_among, contains-removed, contains-appended}
use busybee.Core.Transaction.{
  Routes, Transaction, acted, at, find, index_of, add_changed, remove_from_step, move_to_step,
  maybe_trigger_direct_steps, own_users, step_changed,
}
use busybee.Core.Transaction.Laws.{
  bind-acted, acted-injective, remove_from_step-acted, move_to_step-acted,
}

same_elem : {A : Type 0} {o : Option A} {a b : A} → o ≡ some a → o ≡ some b → b ≡ a
same_elem e f = ground (arith, e, f)

module _ {B : Type 0} (R : Roaring B) where
  set-lacks :
      (x : ℕ) (cs : List B) (i j : ℕ) (v c c' : B)
      → R.contains v x ≡ false
      → get_elem? cs j ≡ some c
      → R.contains c x ≡ false
      → get_elem? (set cs i v) j ≡ some c'
      → R.contains c' x ≡ false
  set-lacks x [] i j v c c' nv e nc f = ground (arith, e)
  set-lacks x (d ∷ cs) zero zero v c c' nv e nc f = ground (arith, nv, f)
  set-lacks x (d ∷ cs) zero (suc j) v c c' nv e nc f = ground (arith, e, nc, f)
  set-lacks x (d ∷ cs) (suc i) zero v c c' nv e nc f = ground (arith, e, nc, f)
  set-lacks x (d ∷ cs) (suc i) (suc j) v c c' nv e nc f = set-lacks x cs i j v c c' nv e nc f

  doubled :
      (i j : ℕ) (who : Who B) (x : ℕ) (cs ds es : List B) (b c c' : B)
      → get_elem? cs i ≡ some b
      → R.contains b x ≡ false
      → ds ≡ set cs i (removed R who b)
      → get_elem? cs j ≡ some c
      → R.contains c x ≡ false
      → get_elem? ds j ≡ some c'
      → es ≡ set ds j (appended R who c')
      → is_among R who x ≡ true
      → holders R x cs ≡ 1
      → holders R x es ≡ 2
  doubled i j who x cs ds es b c c' eb nb d ec nc f g y one =
      let nv : R.contains (removed R who b) x ≡ false =
        ground (arith, contains-removed R who b x, nb) in
      let nc' = set-lacks x cs i j (removed R who b) c c' nv ec nc (rw d at f) in
      let hd : holders R x ds + bit (R.contains b x)
          ≡ holders R x cs + bit (R.contains (removed R who b) x) =
        rw d (holders-set R x cs i b (removed R who b) eb) in
      let he : holders R x es + bit (R.contains c' x)
          ≡ holders R x ds + bit (R.contains (appended R who c') x) =
        rw g (holders-set R x ds j c' (appended R who c') f) in
      ground (arith, y, one, nb, nv, nc', hd, he, contains-appended R who c' x)

  -- A user of the worker that a change takes, that is in one crowd, and that neither the step that
  -- the change leaves nor the step that it enters holds, is in two crowds afterwards, if the step
  -- entered is not direct.
  pub overlap_doubles :
      (fuel : ℕ) (w : Routes B) (given : ChangedCtx B) (tran t : Transaction B) (x : ℕ) (b c : B)
      → step_changed R fuel w given tran ≡ acted t
      → find given.to_step w.direct_nexts ≡ none
      → is_among R (own_users R w given.who) x ≡ true
      → holders R x tran.step_crowds ≡ 1
      → get_elem? tran.step_crowds (index_of w.step_indexs given.from_step) ≡ some b
      → R.contains b x ≡ false
      → get_elem? tran.step_crowds (index_of w.step_indexs given.to_step) ≡ some c
      → R.contains c x ≡ false
      → holders R x t.step_crowds ≡ 2
  unfolding step_changed add_changed maybe_trigger_direct_steps
  overlap_doubles fuel w given tran t x b c h last y one eb nb ec nc =
      let who = own_users R w given.who in
      let from_idx = index_of w.step_indexs given.from_step in
      let to_idx = index_of w.step_indexs given.to_step in
      let (left, e1, k1) = bind-acted (remove_from_step R from_idx who tran) _ h in
      let (moved, e2, k2) = bind-acted (move_to_step R to_idx who left.0) _ k1 in
      let (b', f1, d) = remove_from_step-acted R from_idx who tran e1 in
      let (c', f2, g) = move_to_step-acted R to_idx who left.0 e2 in
      let two =
        doubled from_idx to_idx who x tran.step_crowds left.0.step_crowds moved.0.step_crowds b c c'
          eb nb (d ∙ ap (λ v. set tran.step_crowds from_idx (removed R who v)) (same_elem eb f1)) ec
          nc f2 g y one in
      elim (Bool-cases moved.1) [
        | inl yes' ↦
            let (ttl, e3, k3) = bind-acted (at w.ttls to_idx) _ (rw yes' at k2) in
            ap (λ r. holders R x r.step_crowds)
              (sym (acted-injective (rw (last, maybe_trigger_direct_steps) at k3)))
            ∙ two
        | inr n ↦ ap (λ r. holders R x r.step_crowds) (sym (acted-injective (rw n at k2))) ∙ two
      ]

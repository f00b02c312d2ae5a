-- ===== src/Core/Worker/Events/Laws.antt =====
-- How the tests of a worker of pkg/core/worker.go for its events agree, and what its offsets are.
use busybee.Prelude.{
  ℕ, zero, suc, ◌≡◌, refl, ap, ◌∙◌, Bool, true, false, not, Option, none, some, List, [], ◌∷◌, ◌==◌,
  ◌&&◌, leb, arith, Option-cases, inl, inr, if◌then◌else◌,
}
use busybee.Util.Roaring.{Roaring}
use busybee.Core.Worker.Events.{Item, change_offset_action, offset_of, set_offset}

-- an item that only moves an offset
abbrev pub only_moves_offset : {X : Type 0} → Item X → Bool
only_moves_offset (change_offset_action p offset) = true
only_moves_offset _ = false

-- whether what is put, if anything, does more than move an offset
abbrev pub does_more : {X : Type 0} → Option (Item X) → Option Bool
does_more none = none
does_more (some i) = some (not (only_moves_offset i))

-- the offset of a partition, 0 if there is none
abbrev pub offset_or_zero : List (ℕ × ℕ) → ℕ → ℕ
offset_or_zero m p = elim (offset_of m p) [ none ↦ 0 | some v ↦ v ]

-- the offsets of the items that were handled, one after the other
abbrev pub set_offsets : List (ℕ × ℕ) → List (ℕ × ℕ) → List (ℕ × ℕ)
unfolding set_offset
set_offsets [] m = m
set_offsets ((p, n) ∷ es) m = set_offsets es (set_offset p n m)

-- the highest offset of a partition's items
abbrev pub highest : ℕ → List (ℕ × ℕ) → ℕ → ℕ
highest p [] n = n
highest p ((q, k) ∷ es) n = highest p es (if q == p && leb n k then k else n)

offset_or_zero-set_offset :
    (p q n : ℕ) (m : List (ℕ × ℕ))
    → offset_or_zero (set_offset q n m) p
      ≡ (if q == p && leb (offset_or_zero m p) n then n else offset_or_zero m p)
unfolding set_offset
offset_or_zero-set_offset p q zero m = ground arith
offset_or_zero-set_offset p q (suc n) m = elim (Option-cases (offset_of m q)) [
  | inl e ↦ grind (arith, e)
  | inr (v, e) ↦ grind (arith, e)
]

-- A worker keeps for each partition the highest of the offset that it had and the offsets of the
-- items that it has handled since, in whatever order.
pub offsets_highest :
    (p : ℕ) (es m : List (ℕ × ℕ))
    → offset_or_zero (set_offsets es m) p ≡ highest p es (offset_or_zero m p)
unfolding set_offsets
offsets_highest p [] m = refl
offsets_highest p ((q, n) ∷ es) m =
    offsets_highest p es (set_offset q n m) ∙ ap (highest p es) (offset_or_zero-set_offset p q n m)

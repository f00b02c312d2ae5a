-- ===== src/Storage/Engine.antt =====
-- The storage engine below `pkg/storage` (`DataStorage` of beehive), which is not code of this
-- repository: an interface with the laws of a key-value map. Handlers are actions over a store of
-- it; `fatal` is `log.Fatalf` or a panic, which ends the process.
pub mod Memory
use busybee.Prelude.{
  bytes_equal, if◌then◌else◌, arith, ◌≡◌, refl, sym, ap, ◌∙◌, ◌≢◌, Bool, true, false, Option, none,
  some, List, [], ◌∷◌, Bytes,
}
use busybee.Prelude.Int.{ℤ, pos}

-- One entry of a `WriteBatch`, and what a batch makes of a key's value: later entries win.
pub data WriteOp : Type 0 where
  put : Bytes → Bytes → WriteOp
  put_with_ttl : Bytes → Bytes → ℤ → WriteOp
  erase : Bytes → WriteOp

abbrev pub overlay : WriteOp → Bytes → Option Bytes → Option Bytes
overlay (put k v) j old = if bytes_equal k j then some v else old
overlay (put_with_ttl k v ttl) j old = if bytes_equal k j then some v else old
overlay (erase k) j old = if bytes_equal k j then some [] else old

abbrev pub overlay_all : List WriteOp → Bytes → Option Bytes → Option Bytes
overlay_all [] j old = old
overlay_all (op ∷ ops) j old = overlay_all ops j (overlay op j old)

-- `Get` returns an empty value for a missing key; `none` is an error of the engine.
pub record DataStorage (S : Type 0) : Type 0 where
  pub get : S → Bytes → Option Bytes
  pub set : S → Bytes → Bytes → Option S
  -- `SetWithTTL`; the value can be read until the given number of seconds, if not 0, is over
  pub set_with_ttl : S → Bytes → Bytes → ℤ → Option S
  pub delete : S → Bytes → Option S
  -- `Write`, all entries or none
  pub write : S → List WriteOp → Option S
  pub get-write :
      (s t : S) (ops : List WriteOp) (j : Bytes)
      → write s ops ≡ some t
      → get t j ≡ overlay_all ops j (get s j)
  pub get-set_self : (s t : S) (k v : Bytes) → set s k v ≡ some t → get t k ≡ some v
  pub get-set_ne : (s t : S) (k v j : Bytes) → set s k v ≡ some t → j ≢ k → get t j ≡ get s j
  -- the time passes between operations, so what is kept of a value is said for no time to live only
  pub get-set_with_ttl_self :
      (s t : S) (k v : Bytes) → set_with_ttl s k v (pos 0) ≡ some t → get t k ≡ some v
  pub get-set_with_ttl_ne :
      (s t : S) (k v j : Bytes) (ttl : ℤ)
      → set_with_ttl s k v ttl ≡ some t
      → j ≢ k
      → get t j ≡ get s j
  pub get-delete_self : (s t : S) (k : Bytes) → delete s k ≡ some t → get t k ≡ some []
  pub get-delete_ne : (s t : S) (k j : Bytes) → delete s k ≡ some t → j ≢ k → get t j ≡ get s j

-- an engine that does not fail
pub record IsWorking {S : Type 0} (D : DataStorage S) : Type 0 where
  pub reads : (s : S) (k : Bytes) → (v : Bytes) × (D.get s k ≡ some v)
  pub sets : (s : S) (k v : Bytes) → (t : S) × (D.set s k v ≡ some t)
  pub deletes : (s : S) (k : Bytes) → (t : S) × (D.delete s k ≡ some t)
  pub writes : (s : S) (ops : List WriteOp) → (t : S) × (D.write s ops ≡ some t)

pub data Outcome (A : Type 0) : Type 0 where
  done : A → Outcome A
  fatal : Outcome A

-- an action over a store
abbrev pub M : Type 0 → Type 0 → Type 0
M S A = S → Outcome (A × S)

abbrev pub pure : {S A : Type 0} → A → M S A
pure a s = done (a, s)

abbrev pub stop : {S A : Type 0} → M S A
stop s = fatal

-- a computation that panics on `none`
abbrev pub unless_panic : {S A : Type 0} → Option A → M S A
unless_panic none s = fatal
unless_panic (some a) s = done (a, s)

-- an index or slice bound that panics when it is out of range
abbrev pub in_range : {S : Type 0} → Bool → M S (Unit {0})
in_range true s = done (tt, s)
in_range false s = fatal

infixl 5 ◌>>=◌ ◌>>◌
abbrev pub ◌>>=◌ : {S A B : Type 0} → M S A → (A → M S B) → M S B
◌>>=◌ m f s = elim (m s) [ done (a, t) ↦ f a t | fatal ↦ fatal ]

abbrev pub ◌>>◌ : {S B : Type 0} → M S (Unit {0}) → M S B → M S B
m >> k = m >>= λ _. k

module _ {S : Type 0} (D : DataStorage S) where
  -- `value, err := store.Get(key); if err != nil { log.Fatalf(…) }`
  abbrev pub load : Bytes → M S Bytes
  load k s = elim (D.get s k) [ none ↦ fatal | some v ↦ done (v, s) ]

  -- `err = store.Set(key, value); if err != nil { log.Fatalf(…) }`
  abbrev pub save : Bytes → Bytes → M S (Unit {0})
  save k v s = elim (D.set s k v) [ none ↦ fatal | some t ↦ done (tt, t) ]

  -- `err = store.Write(wb, false); if err != nil { log.Fatalf(…) }`
  abbrev pub write_batch : List WriteOp → M S (Unit {0})
  write_batch ops s = elim (D.write s ops) [ none ↦ fatal | some t ↦ done (tt, t) ]

  abbrev pub remove : Bytes → M S (Unit {0})
  remove k s = elim (D.delete s k) [ none ↦ fatal | some t ↦ done (tt, t) ]

  -- `err = store.SetWithTTL(key, value, ttl); if err != nil { log.Fatalf(…) }`
  abbrev pub save_with_ttl : Bytes → Bytes → ℤ → M S (Unit {0})
  save_with_ttl k v ttl s = elim (D.set_with_ttl s k v ttl) [ none ↦ fatal | some t ↦ done (tt, t) ]

-- Inversion of an action that returns.
pub >>=-eq-done :
    {S A B : Type 0} (m : M S A) (f : A → M S B) (s : S) {b : B} {t : S}
    → (m >>= f) s ≡ done (b, t)
    → (a : A) × (u : S) × (m s ≡ done (a, u)) × (f a u ≡ done (b, t))
>>=-eq-done {S} {A} {B} m f s {b} {t} h = go (m s) refl h
  where
    go :
        (o : Outcome (A × S))
        → m s ≡ o
        → elim o [ done (a, u) ↦ f a u | fatal ↦ fatal ] ≡ done (b, t)
        → (a : A) × (u : S) × (m s ≡ done (a, u)) × (f a u ≡ done (b, t))
    go (done (a, u)) e h = (a, u, e, h)
    go fatal e h = cc

pub done-injective :
    {S A : Type 0} {a b : A} {s t : S}
    → ◌≡◌ {A = Outcome (A × S)} (done (a, s)) (done (b, t))
    → (b ≡ a) × (t ≡ s)
done-injective h = (ground arith, ground arith)

-- The log applies its requests one after the other.
unfoldable pub each : {S A B : Type 0} → (A → M S B) → List A → M S (List B)
each f [] = pure []
each f (x ∷ xs) = do r ← f x; rs ← each f xs; pure (r ∷ rs)

pub each-nil :
    {S A B : Type 0} (f : A → M S B) {s t : S} {rs : List B}
    → each f [] s ≡ done (rs, t)
    → (rs ≡ []) × (t ≡ s)
unfolding each
each-nil f h = done-injective h

pub each-cons :
    {S A B : Type 0} (f : A → M S B) (x : A) (xs : List A) (s : S) {t : S} {rs : List B}
    → each f (x ∷ xs) s ≡ done (rs, t)
    → (r : B) × (u : S) × (rs' : List B) × (f x s ≡ done (r, u))
      × (each f xs u ≡ done (rs', t))
      × (rs ≡ r ∷ rs')
unfolding each
each-cons {B = B} f x xs s {t} {rs} h =
    let (r, u, p, q) =
      >>=-eq-done (f x) (λ r. each f xs >>= λ rs. pure {A = List B} (r ∷ rs)) s h in
    let (rs', t', p', q') = >>=-eq-done (each f xs) (λ rs. pure {A = List B} (r ∷ rs)) u q in
    let (e, e') = done-injective q' in (r, u, rs', p, p' ∙ ap (λ v. done (rs', v)) (sym e'), e)

-- ===== src/Expr/Run.antt =====
-- How an expression runs: it answers with a value, an error or a panic, and changes bitmaps in
-- place. A bitmap is the address of an object of a heap; address 0 is the package's `emptyBM`.
use busybee.Prelude.{ℕ, Option, none, some, List, [], ◌∷◌, ◌++◌, length, get_elem?, set}

abbrev pub Heap : Type 0 → Type 0
Heap B = List B

pub data Answer (B A : Type 0) : Type 0 where
  ok : A → Heap B → Answer B A
  -- an `error` is returned
  err : Heap B → Answer B A
  -- a panic or `log.Fatalf`
  crash : Answer B A

abbrev pub Run : Type 0 → Type 0 → Type 0
Run B A = Heap B → Answer B A

module _ {B A : Type 0} where
  abbrev pub ret : A → Run B A
  ret a h = ok a h

  abbrev pub fail : Run B A
  fail h = err h

  -- an error where there is no value
  abbrev pub or_fail : Option A → Run B A
  or_fail none h = err h
  or_fail (some a) h = ok a h

  -- a panic where there is no value
  abbrev pub or_die : Option A → Run B A
  or_die none h = crash
  or_die (some a) h = ok a h

infixl 5 ◌>>=◌ ◌>>◌
abbrev pub ◌>>=◌ : {B A C : Type 0} → Run B A → (A → Run B C) → Run B C
◌>>=◌ m f h = elim (m h) [ ok a h' ↦ f a h' | err h' ↦ err h' | crash ↦ crash ]

abbrev pub ◌>>◌ : {B C : Type 0} → Run B (Unit {0}) → Run B C → Run B C
m >> k = m >>= λ _. k

-- the address of `emptyBM`
abbrev pub empty_bm : ℕ
empty_bm = 0

module _ {B : Type 0} where
  abbrev pub read : ℕ → Run B B
  read a h = elim (get_elem? h a) [ none ↦ crash | some b ↦ ok b h ]

  abbrev pub write : ℕ → B → Run B (Unit {0})
  write a b h = ok tt (set h a b)

  -- a new object
  abbrev pub alloc : B → Run B ℕ
  alloc b h = ok (length h) (h ++ (b ∷ []))

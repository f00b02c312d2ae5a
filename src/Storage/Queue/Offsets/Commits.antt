-- ===== src/Storage/Queue/Offsets/Commits.antt =====
-- What the commits of a consumer leave as its offset: `queueCommit` of
-- pkg/storage/cmd_handler_queue.go.
use busybee.Prelude.{
  ℕ, ◌<◌, ◌≡◌, refl, false, Option, none, some, List, [], ◌∷◌, ◌++◌, Bytes, is_empty, length, leb,
  if◌then◌else◌, arith, All, Bool-cases, inl, inr,
}
use busybee.Prelude.Int.{ℤ}
use busybee.Storage.Engine.{DataStorage, M, done, each, each-nil, each-cons}
use busybee.Storage.Wire.{Wire, u64_mod}
use busybee.Storage.Keys.{committed_offset_key}
use busybee.Storage.Reply.{Reply}
use busybee.Storage.Queue.Offsets.{queue_commit, load_last_completed_offset}

-- the higher one of an offset, if there is one, and another
abbrev pub raised : Option ℕ → ℕ → ℕ
raised none n = n
raised (some m) n = if leb n m then m else n

abbrev pub highest : Option ℕ → List (ℤ × ℕ) → Option ℕ
highest o [] = o
highest o (c ∷ cs) = highest (some (raised o c.1)) cs

abbrev pub FitsOffset : ℤ × ℕ → Type 0
FitsOffset c = c.1 < u64_mod

module _ {S : Type 0} (D : DataStorage S) (W : Wire) where
  -- a commit at a time
  abbrev pub commit_at : Bytes → Bytes → ℤ × ℕ → M S Reply
  commit_at key consumer c = queue_commit D W c.0 key consumer c.1

  -- what the store holds as a consumer's offset: nothing, or the offset and what follows it
  pub data Committed (s : S) (key consumer : Bytes) : Option ℕ → Type 0 where
    missing : D.get s (committed_offset_key key consumer) ≡ some [] → Committed s key consumer none
    present :
        (n : ℕ) (rest : Bytes)
        → D.get s (committed_offset_key key consumer) ≡ some (W.uint64_to_bytes n ++ rest)
        → n < u64_mod
        → Committed s key consumer (some n)

  is_empty-uint64 : (n : ℕ) (rest : Bytes) → is_empty (W.uint64_to_bytes n ++ rest) ≡ false
  is_empty-uint64 n rest = go (W.uint64_to_bytes n) (W.length-uint64 n)
    where
      go : (xs : Bytes) → length xs ≡ 8 → is_empty (xs ++ rest) ≡ false
      go [] h = absurd (omega arith)
      go (x ∷ xs) h = refl

  commit_raises :
      (key consumer : Bytes) (c : ℤ × ℕ) (o : Option ℕ) (s t : S) (r : Reply)
      → Committed s key consumer o
      → FitsOffset c
      → commit_at key consumer c s ≡ done (r, t)
      → Committed t key consumer (some (raised o c.1))
  unfolding queue_commit load_last_completed_offset
  commit_raises key consumer c none s t r (missing g) f x =
      present c.1 (W.int64_to_bytes c.0)
        (ground (
          arith,
          D.get-set_self s t (committed_offset_key key consumer)
              (W.uint64_to_bytes c.1 ++ W.int64_to_bytes c.0),
        ))
        f
  commit_raises key consumer c (some _) s t r (present n rest g h) f x =
      elim (Bool-cases (leb c.1 n)) [
        | inl y ↦
            rw y (
              present n rest (ground (arith, is_empty-uint64 n rest, W.uint64_roundtrip n rest h))
                h)
        | inr lower ↦ rw lower (
            present c.1 (W.int64_to_bytes c.0)
              (ground (
                arith,
                is_empty-uint64 n rest,
                W.uint64_roundtrip n rest h,
                D.get-set_self s t (committed_offset_key key consumer)
                    (W.uint64_to_bytes c.1 ++ W.int64_to_bytes c.0),
              ))
              f)
      ]

  -- After any sequence of commits of a consumer that return (their offsets fit `uint64`), the
  -- consumer's stored offset is the highest of the one it had and the committed ones: a late or
  -- repeated commit never moves it back.
  pub commits_keep_highest :
      (key consumer : Bytes) (cs : List (ℤ × ℕ)) (o : Option ℕ) (s t : S) (rs : List Reply)
      → Committed s key consumer o
      → All FitsOffset cs
      → each (commit_at key consumer) cs s ≡ done (rs, t)
      → Committed t key consumer (highest o cs)
  commits_keep_highest key consumer [] o s t rs c f x =
      let (er, et) = each-nil (commit_at key consumer) x in rw et c
  commits_keep_highest key consumer (q ∷ qs) o s t rs c f x =
      let (r, u, rs', first, later, er) = each-cons (commit_at key consumer) q qs s x in
      commits_keep_highest key consumer qs (some (raised o q.1)) u t rs'
        (commit_raises key consumer q o s u r c f.0 first) f.1 later

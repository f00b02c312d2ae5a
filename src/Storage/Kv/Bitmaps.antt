-- ===== src/Storage/Kv/Bitmaps.antt =====
-- The reads of stored bitmaps in pkg/storage/cmd_handler_kv.go. A value that is no bitmap ends the
-- process.
pub mod Laws
use busybee.Prelude.{
  ℕ, zero, suc, ◌+◌, Bool, true, false, Option, none, some, List, [], ◌∷◌, Bytes, is_empty, length,
  ltb, leb, ◌==◌, if◌then◌else◌,
}
use busybee.Util.Roaring.{Roaring, cardinality}
use busybee.Storage.Engine.{DataStorage, M, pure, load, unless_panic, ◌>>=◌}
use busybee.Storage.Reply.{Response, boolean, count, ids}

-- `AdvanceIfNeeded`
unfoldable pub advance : ℕ → List ℕ → List ℕ
advance start [] = []
advance start (x ∷ xs) = let rest = advance start xs in if ltb x start then rest else x ∷ xs

-- the loop of `bmrange`, which tests the limit after it has taken a value
unfoldable pub take_until : ℕ → ℕ → List ℕ → List ℕ
take_until limit taken [] = []
take_until limit taken (x ∷ xs) =
    let rest = take_until limit (taken + 1) xs in if leb limit (taken + 1) then x ∷ [] else x ∷ rest

module _ {S B : Type 0} (D : DataStorage S) (R : Roaring B) where
  -- The reads change nothing; the response is that of `r.Value`.
  unfoldable pub bmcontains : Bytes → List ℕ → M S Response
  bmcontains key values = do
    value ← load D key
    if is_empty value then pure (boolean false) else (do
      bm ← unless_panic (R.unmarshal value)
      pure (boolean (cardinality R (R.and bm (R.add_many R.new values)) == length values)))

  unfoldable pub bmcount : Bytes → M S Response
  bmcount key = do
    value ← load D key
    if is_empty value
        then pure (count 0)
        else (do bm ← unless_panic (R.unmarshal value); pure (count (cardinality R bm)))

  unfoldable pub bmrange : Bytes → ℕ → ℕ → M S Response
  unfolding advance take_until
  bmrange key start limit = do
    value ← load D key
    if is_empty value then pure (ids []) else (do
      bm ← unless_panic (R.unmarshal value)
      pure (ids (take_until limit 0 (advance start (R.to_array bm)))))

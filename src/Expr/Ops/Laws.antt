-- ===== src/Expr/Ops/Laws.antt =====
-- How the operators of pkg/expr/cmp.go agree with each other, and what they do to `emptyBM`.
use busybee.Prelude.{
  ℕ, ◌≡◌, ap, ◌↔◌, inl, inr, refl, Bool, true, not, some, List, [], ◌∷◌, ◌||◌, Bytes, bytes_equal,
  bytes_equal_self, bytes_equal→eq, bytes_compare, is_lt, is_gt, get_elem?, arith, Any,
}
use busybee.Prelude.Int.{ℤ, eq_ℤ, ltb_ℤ}
use busybee.Util.Roaring.{Roaring}
use busybee.Expr.Run.{Heap, Answer, ok, err, Run, ret, empty_bm}
use busybee.Expr.Value.{
  Text, Value, str, regexp, bitmap, boolean, strings, bm_type, by_value_type, to_string, to_regexp,
}
use busybee.Expr.Ops.{on_both, equal, not_equal, lt, le, gt, ge, match, not_match}
use busybee.Expr.Ops.Logic.{logic_or, op_in, op_not_in, has_string, membership}

-- the opposite truth value; errors stay
abbrev pub negated : {Re B : Type 0} → Answer B (Value Re) → Answer B (Value Re)
negated (ok (boolean b) h) = ok (boolean (not b)) h
negated a = a

module _ {Re B : Type 0} (T : Text Re) (R : Roaring B) where
  on_both-negated :
      (p : Bytes → Bytes → Bool) (q : ℤ → ℤ → Bool) (left : Value Re) (right : Run B (Value Re))
      (h : Heap B)
      → (on_both T R (λ a b. boolean (not (p a b))) (λ a b. boolean (not (q a b))) left right h
          ≡ negated (on_both T R (λ a b. boolean (p a b)) (λ a b. boolean (q a b)) left right h))
        × (on_both T R (λ a b. boolean (p a b)) (λ a b. boolean (q a b)) left right h
            ≡ negated (
                on_both T R
                  (λ a b. boolean (not (p a b)))
                  (λ a b. boolean (not (q a b)))
                  left
                  right
                  h))
  on_both-negated p q left right h = go left (right h)
    where
      go :
          (l : Value Re) (o : Answer B (Value Re))
          → (on_both T R (λ a b. boolean (not (p a b))) (λ a b. boolean (not (q a b))) l (λ _. o) h
              ≡ negated
                  (on_both T R (λ a b. boolean (p a b)) (λ a b. boolean (q a b)) l (λ _. o) h))
            × (on_both T R (λ a b. boolean (p a b)) (λ a b. boolean (q a b)) l (λ _. o) h
                ≡ negated (
                    on_both T R
                      (λ a b. boolean (not (p a b)))
                      (λ a b. boolean (not (q a b)))
                      l
                      (λ _. o)
                      h))
      go l o = (ground arith, ground arith)

  membership-negated :
      (left : Value Re) (right : Run B (Value Re)) (h : Heap B)
      → membership T R not left right h ≡ negated (membership T R (λ b. b) left right h)
  membership-negated left right h = go left (right h)
    where
      go :
          (l : Value Re) (o : Answer B (Value Re))
          → membership T R not l (λ _. o) h ≡ negated (membership T R (λ b. b) l (λ _. o) h)
      go l o = ground arith

  -- Whatever the operands are, and whether or not they make an error: `!=` answers the opposite of
  -- `==`, `>=` of `<`, `>` of `<=`, and `!in` of `in`, and leaves the same bitmaps.
  pub comparisons_negate :
      (left : Value Re) (right : Run B (Value Re)) (h : Heap B)
      → (not_equal T R left right h ≡ negated (equal T R left right h))
        × (ge T R left right h ≡ negated (lt T R left right h))
        × (gt T R left right h ≡ negated (le T R left right h))
        × (op_not_in T R left right h ≡ negated (op_in T R left right h))
  unfolding equal not_equal lt le gt ge op_in op_not_in
  comparisons_negate left right h = (
    (on_both-negated bytes_equal (λ a b. eq_ℤ a b) left right h).0,
    (on_both-negated (λ a b. is_lt (bytes_compare a b)) (λ a b. ltb_ℤ a b) left right h).0,
    (on_both-negated (λ a b. is_gt (bytes_compare a b)) (λ a b. ltb_ℤ b a) left right h).1,
    membership-negated left right h,
  )

  -- `!~` refuses a regular expression on its right, where `~` takes one.
  pub not_match_refuses :
      (s : Bytes) (re : Re) (h : Heap B)
      → (match T R (str s) (ret (regexp re)) h ≡ ok (boolean (T.match_string re s)) h)
        × (not_match T R (str s) (ret (regexp re)) h ≡ err h)
  unfolding match not_match to_regexp to_string
  not_match_refuses s re h = (refl, refl)

  -- `||` on the bitmap of an empty value adds the right bitmap's ids to the package's `emptyBM`, and
  -- every empty value that is read as a bitmap afterwards has them.
  pub or_pollutes :
      (a : ℕ) (e b : B) (h : Heap B)
      → get_elem? h empty_bm ≡ some e
      → get_elem? h a ≡ some b
      → (h' : Heap B) × (c : B) × (logic_or T R (bitmap empty_bm) (ret (bitmap a)) h
          ≡ ok (bitmap empty_bm) h')
        × (by_value_type T R [] bm_type h' ≡ ok (bitmap empty_bm) h')
        × (get_elem? h' empty_bm ≡ some c)
        × ((x : ℕ) → R.contains c x ≡ R.contains e x || R.contains b x)
  unfolding logic_or by_value_type
  or_pollutes a e b [] g k = absurd (ground arith)
  or_pollutes a e b (z ∷ h) g k =
      (R.or e b ∷ h, R.or e b, ground arith, refl, refl, R.contains-or e b)

  has_string-Any : (v : Bytes) (xs : List Bytes) → has_string T R v xs ≡ true → Any (λ x. v ≡ x) xs
  unfolding has_string
  has_string-Any v [] e = absurd (ground arith)
  has_string-Any v (x ∷ xs) e = ground (arith, bytes_equal→eq v x, has_string-Any v xs)

  Any-has_string : (v : Bytes) (xs : List Bytes) → Any (λ x. v ≡ x) xs → has_string T R v xs ≡ true
  unfolding has_string
  Any-has_string v [] m = elim m [ ]
  Any-has_string v (x ∷ xs) (inl e) = ground (arith, bytes_equal_self v)
  Any-has_string v (x ∷ xs) (inr m) = ground (arith, Any-has_string v xs m)

  -- Membership of a text in a list is equality with one of its elements.
  pub in_iff :
      (v : Bytes) (xs : List Bytes) (h : Heap B)
      → (op_in T R (str v) (ret (strings xs)) h ≡ ok (boolean true) h) ↔ Any (λ x. v ≡ x) xs
  unfolding op_in
  in_iff v xs h = (
    λ e. has_string-Any v xs (ground arith),
    λ m. ap (λ b. ok (boolean b) h) (Any-has_string v xs m),
  )

-- ===== src/Metadata/Bound.antt =====
-- internal/metadata/store.go: `prefixUpperBound`, and the range scan that stands for a prefix.
use telegram_s.Base.{
  ℕ, ◌+◌, ◌≡◌, refl, sym, ap, ◌∙◌, inl, inr, Bool-cases, Bool, false, not, ◌&&◌, ◌||◌, [], ◌∷◌,
  ◌++◌, reverse, arith, ltb, ◌==◌, if◌then◌else◌,
}
use mathlib.Core.List.{reverse-cons, reverse-reverse}
use telegram_s.Base.Bytes.{Bytes, IsText, less, has_prefix, is_empty}

-- The loop from the end of the prefix, over the prefix turned round.
unfoldable pub bound_back : Bytes → Bytes
bound_back [] = []
bound_back (c ∷ before) =
    let rest = bound_back before in if c == 255 then rest else reverse ((c + 1) ∷ before)

unfoldable pub prefix_upper_bound : Bytes → Bytes
unfolding bound_back
prefix_upper_bound prefix = bound_back (reverse prefix)

-- The conditions that a prefix adds to the query.
unfoldable pub in_prefix_range : Bytes → Bytes → Bool
unfolding prefix_upper_bound
in_prefix_range prefix key =
    is_empty prefix
    || (not (less key prefix)
        && (is_empty (prefix_upper_bound prefix) || less key (prefix_upper_bound prefix)))

append-nonempty : (xs : Bytes) (c : ℕ) → is_empty (xs ++ c ∷ []) ≡ false
append-nonempty [] c = refl
append-nonempty (x ∷ xs) c = refl

-- The bound from the front.
upper : Bytes → Bytes
upper [] = []
upper (c ∷ p) =
    let rest = upper p in
    if is_empty rest then (if c == 255 then [] else (c + 1) ∷ []) else c ∷ rest

upper-append :
    (xs : Bytes) (c : ℕ)
    → upper (xs ++ c ∷ []) ≡ (if c == 255 then upper xs else xs ++ (c + 1) ∷ [])
unfolding upper
upper-append [] c = ground arith
upper-append (x ∷ xs) c = elim (Bool-cases (c == 255)) [
  | inl top ↦ rw (upper-append xs c, top) refl
  | inr below ↦ rw (upper-append xs c) (rw below (rw (append-nonempty xs (c + 1)) refl))
]

bound_back-upper : (r : Bytes) → bound_back r ≡ upper (reverse r)
unfolding bound_back
bound_back-upper [] = unfold upper in refl
bound_back-upper (c ∷ r) =
    ap (λ b. if c == 255 then b else reverse ((c + 1) ∷ r)) (bound_back-upper r)
    ∙ ap (λ b. if c == 255 then upper (reverse r) else b) (reverse-cons (c + 1) r)
    ∙ sym (upper-append (reverse r) c)
    ∙ ap upper (sym (reverse-cons c r))

prefix_upper_bound-upper : (p : Bytes) → prefix_upper_bound p ≡ upper p
unfolding prefix_upper_bound
prefix_upper_bound-upper p = bound_back-upper (reverse p) ∙ ap upper (reverse-reverse p)

less-nil : (key : Bytes) → less key [] ≡ false
unfolding less
less-nil [] = refl
less-nil (d ∷ key) = refl

upper-range :
    (p key : Bytes)
    → IsText key
    → (not (less key p) && (is_empty (upper p) || less key (upper p))) ≡ has_prefix p key
unfolding upper less has_prefix
upper-range [] [] t = refl
upper-range [] (d ∷ key) t = refl
upper-range (c ∷ p) [] t = refl
upper-range (c ∷ p) (d ∷ key) (byte, t) =
    let ih = upper-range p key t in range_step (upper p) (less key p) (has_prefix p key) ih
  where
    range_step :
        (rest : Bytes) (lower prefixed : Bool)
        → (not lower && (is_empty rest || less key rest)) ≡ prefixed
        → (not (ltb d c || (d == c && lower))
            && (is_empty
                  (if is_empty rest then (if c == 255 then [] else (c + 1) ∷ []) else c ∷ rest)
                || less
                    (d ∷ key)
                    (if is_empty rest then (if c == 255 then [] else (c + 1) ∷ []) else c ∷ rest)))
          ≡ (c == d && prefixed)
    range_step [] lower prefixed ih = ground (arith, less-nil key)
    range_step (x ∷ rest) lower prefixed ih = ground arith

-- The range scan that stands for a prefix finds exactly the keys that start with it.
pub in_prefix_range-prefix :
    (prefix key : Bytes) → IsText key → in_prefix_range prefix key ≡ has_prefix prefix key
unfolding in_prefix_range
in_prefix_range-prefix [] key t = unfold has_prefix in refl
in_prefix_range-prefix (c ∷ p) key t =
    ap (λ hi. not (less key (c ∷ p)) && (is_empty hi || less key hi))
      (prefix_upper_bound-upper (c ∷ p))
    ∙ upper-range (c ∷ p) key t

-- ===== src/Metadata/Table.antt =====
-- What the queries of internal/metadata/store.go use of SQL: rows in order, conditions, and keys.
use telegram_s.Base.{
  ◌≡◌, refl, ap, ◌∙◌, Bool, true, false, not, ◌&&◌, Bool-cases, inl, inr, List, [], ◌∷◌, ◌++◌,
  arith, if◌then◌else◌, filter, All,
}
use telegram_s.Base.Bytes.{Bytes, equal, equal_refl, equal_eq}

-- WHERE bucket = ? AND key = ?
unfoldable pub is_at : Bytes → Bytes → Bytes → Bytes → Bool
is_at bucket key b k = equal b bucket && equal k key

pub is_at_refl : (b k : Bytes) → is_at b k b k ≡ true
unfolding is_at
is_at_refl b k = ground (arith, equal_refl b, equal_refl k)

pub is_at-same : (b k r s : Bytes) → is_at b k r s ≡ true → (r ≡ b) × (s ≡ k)
unfolding is_at
is_at-same b k r s h = (equal_eq r b (ground arith), equal_eq s k (ground arith))

-- A row of one place is not of another.
pub is_at-elsewhere :
    (b k x y r s : Bytes) → is_at b k x y ≡ false → is_at x y r s ≡ true → is_at b k r s ≡ false
is_at-elsewhere b k x y r s h e =
    let (same_bucket, same_key) = is_at-same x y r s e in
    ap (λ z. is_at b k z s) same_bucket ∙ ap (is_at b k x) same_key ∙ h

pub is_at-apart :
    (b k x y r s : Bytes) → is_at b k x y ≡ false → is_at b k r s ≡ true → is_at x y r s ≡ false
is_at-apart b k x y r s h e = elim (Bool-cases (is_at x y r s)) [
  | inr f ↦ f
  | inl t ↦ absurd (let f = is_at-elsewhere b k x y r s h t in ground arith)
]

module _ {A : Type 0} where
  -- ORDER BY: `before` is the order of the sort key; rows that it does not tell apart stay in order.
  unfoldable pub insert_sorted : (A → A → Bool) → A → List A → List A
  insert_sorted before x [] = x ∷ []
  insert_sorted before x (y ∷ ys) =
      let rest = insert_sorted before x ys in if before y x then y ∷ rest else x ∷ y ∷ ys

  unfoldable pub order_by : (A → A → Bool) → List A → List A
  unfolding insert_sorted
  order_by before [] = []
  order_by before (x ∷ xs) = insert_sorted before x (order_by before xs)

  -- The rows are in order when none comes before the one it follows.
  abbrev pub IsOrdered : (A → A → Bool) → List A → Type 0
  IsOrdered before [] = Unit
  IsOrdered before (x ∷ []) = Unit
  IsOrdered before (x ∷ y ∷ ys) = (before y x ≡ false) × IsOrdered before (y ∷ ys)

  pub order_by-same :
      (before : A → A → Bool) (xs : List A) → IsOrdered before xs → order_by before xs ≡ xs
  unfolding order_by
  order_by-same before [] h = refl
  order_by-same before (x ∷ []) h = refl
  order_by-same before (x ∷ y ∷ ys) (h, hs) =
      ap (insert_sorted before x) (order_by-same before (y ∷ ys) hs) ∙ rw h refl

  pub filter-append :
      (p : A → Bool) (xs ys : List A) → filter p (xs ++ ys) ≡ filter p xs ++ filter p ys
  filter-append p [] ys = refl
  filter-append p (x ∷ xs) ys = ground (arith, filter-append p xs ys)

  pub filter-All : (p : A → Bool) (xs : List A) → All (λ x. p x ≡ true) xs → filter p xs ≡ xs
  filter-All p [] h = refl
  filter-All p (x ∷ xs) (h, hs) = ground (arith, filter-All p xs hs)

  pub filter-none : (p : A → Bool) (xs : List A) → All (λ x. p x ≡ false) xs → filter p xs ≡ []
  filter-none p [] h = refl
  filter-none p (x ∷ xs) (h, hs) = ground (arith, filter-none p xs hs)

  -- DELETE: the rows that are left.
  abbrev pub delete_where : (A → Bool) → List A → List A
  delete_where p xs = filter (λ x. not (p x)) xs

  pub filter-delete_where : (p : A → Bool) (xs : List A) → filter p (delete_where p xs) ≡ []
  filter-delete_where p [] = refl
  filter-delete_where p (x ∷ xs) = ground (arith, filter-delete_where p xs)

  -- A deletion of other rows does not change a query.
  pub filter-delete_other :
      (p q : A → Bool) (xs : List A)
      → ((x : A) → q x ≡ true → p x ≡ false)
      → filter q (delete_where p xs) ≡ filter q xs
  filter-delete_other p q [] h = refl
  filter-delete_other p q (x ∷ xs) h = ground (arith, h x, filter-delete_other p q xs h)

  pub delete_where-true :
      (p : A → Bool) (x : A) (xs : List A)
      → p x ≡ true
      → delete_where p (x ∷ xs) ≡ delete_where p xs
  delete_where-true p x xs h = ground arith

  pub delete_where-false :
      (p : A → Bool) (x : A) (xs : List A)
      → p x ≡ false
      → delete_where p (x ∷ xs) ≡ x ∷ delete_where p xs
  delete_where-false p x xs h = ground arith

  -- A query inside what was deleted finds nothing.
  pub filter-delete_within :
      (p q : A → Bool) (xs : List A)
      → ((x : A) → q x ≡ true → p x ≡ true)
      → filter q (delete_where p xs) ≡ []
  filter-delete_within p q [] h = refl
  filter-delete_within p q (x ∷ xs) h = ground (arith, h x, filter-delete_within p q xs h)

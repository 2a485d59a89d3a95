-- ===== src/Base/Slices.antt =====
-- The algebra of `take` and `drop`, and half-open slices `s[lo:hi]` of a list.
use telegram_s.Base.{
  ℕ, zero, suc, ◌+◌, ◌-◌, ◌≤◌, min, ◌≡◌, refl, sym, ap, ◌∙◌, List, [], ◌∷◌, ◌++◌, arith, length,
  take, drop, length-take, length-drop,
}

module _ {ℓ} {A : Type ℓ} where
  pub take-nil : (n : ℕ) → take {A = A} n [] ≡ []
  take-nil zero = refl
  take-nil (suc n) = refl

  pub drop-nil : (n : ℕ) → drop {A = A} n [] ≡ []
  drop-nil zero = refl
  drop-nil (suc n) = refl

  pub take_all : (n : ℕ) (xs : List A) → length xs ≤ n → take n xs ≡ xs
  take_all zero [] h = refl
  take_all zero (x ∷ xs) h = absurd (omega arith)
  take_all (suc n) [] h = refl
  take_all (suc n) (x ∷ xs) h = ap (◌∷◌ x) (take_all n xs (omega arith))

  pub drop_all : (n : ℕ) (xs : List A) → length xs ≤ n → drop n xs ≡ []
  drop_all zero [] h = refl
  drop_all zero (x ∷ xs) h = absurd (omega arith)
  drop_all (suc n) [] h = refl
  drop_all (suc n) (x ∷ xs) h = drop_all n xs (omega arith)

  -- Equal bounds cut alike.
  pub take_eq : (xs : List A) {m n : ℕ} → m ≡ n → take m xs ≡ take n xs
  take_eq xs e = ap (λ k. take k xs) e

  pub drop_eq : (xs : List A) {m n : ℕ} → m ≡ n → drop m xs ≡ drop n xs
  drop_eq xs e = ap (λ k. drop k xs) e

  drop-drop-suc : (a : ℕ) (x : A) (xs : List A) (n : ℕ) → n ≡ suc a → drop n (x ∷ xs) ≡ drop a xs
  drop-drop-suc a x xs zero h = absurd (omega arith)
  drop-drop-suc a x xs (suc n) h = ap (λ k. drop k xs) (omega arith)

  pub drop-drop : (a b : ℕ) (xs : List A) → drop a (drop b xs) ≡ drop (b + a) xs
  drop-drop a zero xs = ap (λ k. drop k xs) (omega arith)
  drop-drop a (suc b) [] = drop-nil a ∙ sym (drop-nil (suc b + a))
  drop-drop a (suc b) (x ∷ xs) =
      drop-drop a b xs ∙ sym (drop-drop-suc (b + a) x xs (suc b + a) (omega arith))

  pub take-suc : (a : ℕ) (x : A) (xs : List A) (n : ℕ) → n ≡ suc a → take n (x ∷ xs) ≡ x ∷ take a xs
  take-suc a x xs zero h = absurd (omega arith)
  take-suc a x xs (suc n) h = ap (λ k. x ∷ take k xs) (omega arith)

  pub take_add : (a b : ℕ) (xs : List A) → take (a + b) xs ≡ take a xs ++ take b (drop a xs)
  take_add zero b xs = ap (λ k. take k xs) (omega arith)
  take_add (suc a) b [] = take-nil (suc a + b) ∙ sym (take-nil b)
  take_add (suc a) b (x ∷ xs) =
      take-suc (a + b) x xs (suc a + b) (omega arith) ∙ ap (◌∷◌ x) (take_add a b xs)

  pub take-take : (a b : ℕ) (xs : List A) → a ≤ b → take a (take b xs) ≡ take a xs
  take-take zero b xs h = refl
  take-take (suc a) zero xs h = absurd (omega arith)
  take-take (suc a) (suc b) [] h = refl
  take-take (suc a) (suc b) (x ∷ xs) h = ap (◌∷◌ x) (take-take a b xs (omega arith))

  pub drop-take : (a b : ℕ) (xs : List A) → drop a (take (a + b) xs) ≡ take b (drop a xs)
  drop-take zero b xs = ap (λ k. take k xs) (omega arith)
  drop-take (suc a) b [] = ap (drop (suc a)) (take-nil (suc a + b)) ∙ sym (take-nil b)
  drop-take (suc a) b (x ∷ xs) =
      ap (drop (suc a)) (take-suc (a + b) x xs (suc a + b) (omega arith)) ∙ drop-take a b xs

  pub take-append : (xs ys : List A) → take (length xs) (xs ++ ys) ≡ xs
  take-append [] ys = refl
  take-append (x ∷ xs) ys = ap (◌∷◌ x) (take-append xs ys)

  pub drop-append : (xs ys : List A) → drop (length xs) (xs ++ ys) ≡ ys
  drop-append [] ys = refl
  drop-append (x ∷ xs) ys = drop-append xs ys

  pub take-take-min : (a b : ℕ) (xs : List A) → take a (take b xs) ≡ take (min a b) xs
  take-take-min zero b xs = take_eq xs {m = 0} (omega arith)
  take-take-min (suc a) zero xs = take_eq xs {m = 0} (omega arith)
  take-take-min (suc a) (suc b) [] = sym (take-nil (min (suc a) (suc b)))
  take-take-min (suc a) (suc b) (x ∷ xs) =
      ap (◌∷◌ x) (take-take-min a b xs) ∙ sym (take-suc (min a b) x xs _ (omega arith))

  pub drop-take_sub : (a n : ℕ) (xs : List A) → drop a (take n xs) ≡ take (n - a) (drop a xs)
  drop-take_sub zero n xs = take_eq xs (omega arith)
  drop-take_sub (suc a) zero xs = take_eq (drop (suc a) xs) {m = 0} (omega arith)
  drop-take_sub (suc a) (suc n) [] = sym (take-nil (suc n - suc a))
  drop-take_sub (suc a) (suc n) (x ∷ xs) = drop-take_sub a n xs ∙ take_eq (drop a xs) (omega arith)

  -- s[lo:hi]
  abbrev pub slice : ℕ → ℕ → List A → List A
  slice lo hi xs = take (hi - lo) (drop lo xs)

  pub slice_join :
      (lo mid hi : ℕ) (xs : List A)
      → lo ≤ mid
      → mid ≤ hi
      → slice lo mid xs ++ slice mid hi xs ≡ slice lo hi xs
  slice_join lo mid hi xs h k =
      ap (λ t. slice lo mid xs ++ take (hi - mid) t)
        (sym (drop-drop (mid - lo) lo xs ∙ drop_eq xs (omega arith)))
      ∙ sym (take_add (mid - lo) (hi - mid) (drop lo xs))
      ∙ take_eq (drop lo xs) (omega arith)

  pub length-slice : (lo hi : ℕ) (xs : List A) → hi ≤ length xs → length (slice lo hi xs) ≡ hi - lo
  length-slice lo hi xs h = omega (arith, length-take (hi - lo) (drop lo xs), length-drop lo xs)

  pub slice_empty : (lo hi : ℕ) (xs : List A) → hi ≤ lo → slice lo hi xs ≡ []
  slice_empty lo hi xs h = take_eq (drop lo xs) {n = 0} (omega arith)

  -- Cutting past the end of the list is cutting at its end.
  pub slice_past :
      (lo hi : ℕ) (xs : List A) → length xs ≤ hi → slice lo hi xs ≡ slice lo (length xs) xs
  slice_past lo hi xs h =
      take_all (hi - lo) (drop lo xs) (omega (arith, length-drop lo xs))
      ∙ sym (take_all (length xs - lo) (drop lo xs) (omega (arith, length-drop lo xs)))

  -- s[lo:hi][a:b] is s[lo+a:lo+b].
  pub slice-slice :
      (lo hi a b : ℕ) (xs : List A)
      → lo + b ≤ hi
      → slice a b (slice lo hi xs) ≡ slice (lo + a) (lo + b) xs
  slice-slice lo hi a b xs h =
      ap (take (b - a))
        (drop-take_sub a (hi - lo) (drop lo xs) ∙ ap (take (hi - lo - a)) (drop-drop a lo xs))
      ∙ take-take-min (b - a) (hi - lo - a) (drop (lo + a) xs)
      ∙ take_eq (drop (lo + a) xs) (omega arith)

-- ===== src/S3api/Canonical/Order.antt =====
-- internal/s3api/handler.go: `canonicalQuery` and the order in which Go walks a map.
use mathlib.Core.Path.{subst}
use mathlib.Core.Logic.{∥∥₁_elim}
use native.Mathlib.Nat.{ℕ_set}
use mathlib.Core.List.{Perm, Permᴰ}
use telegram_s.Base.{
  ◌≡◌, refl, sym, ap, ◌∙◌, inl, inr, Bool, true, false, Bool-cases, not, List, [], ◌∷◌, ◌++◌, map,
  filter, arith, if◌then◌else◌,
}
use telegram_s.Base.Bytes.{Bytes, codes, equal, equal_eq, less}
use telegram_s.Metadata.Table.{insert_sorted, order_by}
use telegram_s.S3api.Canonical.{join, pair_less, encoded_pair, query_pairs, canonical_query}

less_asym : (a b : Bytes) → less a b ≡ true → less b a ≡ false
unfolding less
less_asym [] [] h = refl
less_asym [] (y ∷ ys) h = refl
less_asym (x ∷ xs) [] h = absurd (ground arith)
less_asym (x ∷ xs) (y ∷ ys) h = ground (arith, less_asym xs ys)

less_trans : (a b c : Bytes) → less a b ≡ true → less b c ≡ true → less a c ≡ true
unfolding less
less_trans [] [] c h k = k
less_trans [] (y ∷ ys) [] h k = absurd (ground arith)
less_trans [] (y ∷ ys) (z ∷ zs) h k = refl
less_trans (x ∷ xs) [] c h k = absurd (ground arith)
less_trans (x ∷ xs) (y ∷ ys) [] h k = absurd (ground arith)
less_trans (x ∷ xs) (y ∷ ys) (z ∷ zs) h k = ground (arith, less_trans xs ys zs)

less_total : (a b : Bytes) → less a b ≡ false → less b a ≡ false → equal a b ≡ true
unfolding less equal
less_total [] [] h k = refl
less_total [] (y ∷ ys) h k = absurd (ground arith)
less_total (x ∷ xs) [] h k = absurd (ground arith)
less_total (x ∷ xs) (y ∷ ys) h k = ground (arith, less_total xs ys)

less_irrefl : (a : Bytes) → less a a ≡ false
unfolding less
less_irrefl [] = refl
less_irrefl (x ∷ xs) = ground (arith, less_irrefl xs)

equal_comm : (a b : Bytes) → equal a b ≡ equal b a
unfolding equal
equal_comm [] [] = refl
equal_comm [] (y ∷ ys) = refl
equal_comm (x ∷ xs) [] = refl
equal_comm (x ∷ xs) (y ∷ ys) = ground (arith, equal_comm xs ys)

pair_less_asym : (p q : Bytes × Bytes) → pair_less p q ≡ true → pair_less q p ≡ false
pair_less_asym (a, b) (c, d) h = ground (arith, equal_comm a c, less_asym a c, less_asym b d)

pair_less_trans :
    (p q r : Bytes × Bytes) → pair_less p q ≡ true → pair_less q r ≡ true → pair_less p r ≡ true
pair_less_trans (a, b) (c, d) (e, f) h k = elim (Bool-cases (equal a c)) [
  | inl same ↦
      subst (λ x. pair_less (x, b) (e, f) ≡ true) (sym (equal_eq a c same))
        (ground (arith, less_trans b d f))
  | inr other ↦
      let first : less a c ≡ true = ground arith in
      elim (Bool-cases (equal c e)) [
        | inl same ↦
            subst (λ x. pair_less (a, b) (x, f) ≡ true) (equal_eq c e same) (rw other first)
        | inr apart ↦
            let next : less c e ≡ true = ground arith in
            let far = less_trans a c e first next in
            elim (Bool-cases (equal a e)) [
              | inr distinct ↦ rw distinct far
              | inl meet ↦ absurd (
                  let loop = subst (λ x. less a x ≡ true) (sym (equal_eq a e meet)) far in
                  let still = less_irrefl a in ground arith)
            ]
      ]
]

pair_less_total : (p q : Bytes × Bytes) → pair_less p q ≡ false → pair_less q p ≡ false → p ≡ q
pair_less_total (a, b) (c, d) h k =
    let names : equal a c ≡ true = ground (arith, equal_comm a c, less_total a c) in
    let values : equal b d ≡ true = ground (arith, equal_comm a c, less_total b d) in
    λ i. (equal_eq a c names i, equal_eq b d values i)

module _ {A : Type 0} (before : A → A → Bool)
    (before_asym : (p q : A) → before p q ≡ true → before q p ≡ false)
    (before_trans : (p q r : A) → before p q ≡ true → before q r ≡ true → before p r ≡ true)
    (before_total : (p q : A) → before p q ≡ false → before q p ≡ false → p ≡ q) where
  insert_first :
      (x z : A) (l : List A) → before z x ≡ false → insert_sorted before x (z ∷ l) ≡ x ∷ z ∷ l
  unfolding insert_sorted
  insert_first x z l h = rw h refl

  insert_later :
      (x z : A) (l : List A)
      → before z x ≡ true
      → insert_sorted before x (z ∷ l) ≡ z ∷ insert_sorted before x l
  unfolding insert_sorted
  insert_later x z l h = rw h refl

  in_front :
      (x y z : A) (l : List A)
      → before x y ≡ true
      → before z x ≡ false
      → insert_sorted before x (insert_sorted before y (z ∷ l)) ≡ x ∷ insert_sorted before y (z ∷ l)
  in_front x y z l h xz = elim (Bool-cases (before z y)) [
    | inl zy ↦
        ap (insert_sorted before x) (insert_later y z l zy)
        ∙ insert_first x z (insert_sorted before y l) xz
        ∙ ap (λ k. x ∷ k) (sym (insert_later y z l zy))
    | inr yz ↦
        ap (insert_sorted before x) (insert_first y z l yz)
        ∙ insert_first x y (z ∷ l) (before_asym x y h)
        ∙ ap (λ k. x ∷ k) (sym (insert_first y z l yz))
  ]

  insert_before :
      (x y : A) (l : List A)
      → before x y ≡ true
      → insert_sorted before x (insert_sorted before y l)
        ≡ insert_sorted before y (insert_sorted before x l)
  insert_before x y [] h = unfold insert_sorted in rw (before_asym x y h) (rw h refl)
  insert_before x y (z ∷ l) h = elim (Bool-cases (before z x)) [
    | inl zx ↦
        let zy = before_trans z x y zx h in
        ap (insert_sorted before x) (insert_later y z l zy)
        ∙ insert_later x z (insert_sorted before y l) zx
        ∙ ap (λ k. z ∷ k) (insert_before x y l h)
        ∙ sym (insert_later y z (insert_sorted before x l) zy)
        ∙ ap (insert_sorted before y) (sym (insert_later x z l zx))
    | inr xz ↦
        in_front x y z l h xz
        ∙ sym (insert_later y x (z ∷ l) h)
        ∙ ap (insert_sorted before y) (sym (insert_first x z l xz))
  ]

  insert_comm :
      (x y : A) (l : List A)
      → insert_sorted before x (insert_sorted before y l)
        ≡ insert_sorted before y (insert_sorted before x l)
  insert_comm x y l = elim (Bool-cases (before x y)) [
    | inl first ↦ insert_before x y l first
    | inr later ↦ elim (Bool-cases (before y x)) [
      | inl first ↦ sym (insert_before y x l first)
      | inr same ↦
          let e = before_total x y later same in
          subst
            (λ z.
              insert_sorted before x (insert_sorted before z l)
              ≡ insert_sorted before z (insert_sorted before x l))
            e refl
    ]
  ]

-- One turn of the loop over the parameters.
sorted_in : Bytes → Bytes × Bytes → List (Bytes × Bytes) → List (Bytes × Bytes)
sorted_in skip p l = if not (equal p.0 skip) then insert_sorted pair_less (encoded_pair p) l else l

abbrev sorted_pairs : Bytes → List (Bytes × Bytes) → List (Bytes × Bytes)
sorted_pairs skip values = order_by pair_less (query_pairs skip values)

sorted_pairs-cons :
    (skip : Bytes) (p : Bytes × Bytes) (values : List (Bytes × Bytes))
    → sorted_pairs skip (p ∷ values) ≡ sorted_in skip p (sorted_pairs skip values)
unfolding sorted_in order_by
sorted_pairs-cons skip p values =
    let rest = filter (λ q. not (equal q.0 skip)) values in
    elim (not (equal p.0 skip))
      as (λ b. order_by pair_less (map encoded_pair (elim b [ true ↦ p ∷ rest | false ↦ rest ])) ≡ (
        if b
        then insert_sorted pair_less (encoded_pair p) (sorted_pairs skip values)
        else sorted_pairs skip values)) [ true ↦ refl | false ↦ refl ]

sorted_in_comm :
    (skip : Bytes) (p q : Bytes × Bytes) (l : List (Bytes × Bytes))
    → sorted_in skip p (sorted_in skip q l) ≡ sorted_in skip q (sorted_in skip p l)
unfolding sorted_in
sorted_in_comm skip p q l = elim (Bool-cases (equal p.0 skip)) [
  | inl dropped ↦ rw dropped refl
  | inr kept ↦ rw kept (elim (Bool-cases (equal q.0 skip)) [
    | inl dropped ↦ rw dropped refl
    | inr both ↦ rw both (
        insert_comm pair_less pair_less_asym pair_less_trans pair_less_total (encoded_pair p)
          (encoded_pair q) l)
  ])
]

sorted_pairs-perm :
    (skip : Bytes) {xs ys : List (Bytes × Bytes)}
    → Permᴰ xs ys
    → sorted_pairs skip xs ≡ sorted_pairs skip ys
sorted_pairs-perm skip Permᴰ.nil = refl
sorted_pairs-perm skip (Permᴰ.cons {a} {b} {l₁} {l₂} e d) =
    sorted_pairs-cons skip a l₁
    ∙ ap (λ p. sorted_in skip p (sorted_pairs skip l₁)) e
    ∙ ap (sorted_in skip b) (sorted_pairs-perm skip d)
    ∙ sym (sorted_pairs-cons skip b l₂)
sorted_pairs-perm skip (Permᴰ.swap {a} {b} {a'} {b'} {l} e f) =
    sorted_pairs-cons skip a (b ∷ l)
    ∙ ap (sorted_in skip a) (sorted_pairs-cons skip b l)
    ∙ sorted_in_comm skip a b (sorted_pairs skip l)
    ∙ ap (λ p. sorted_in skip b (sorted_in skip p (sorted_pairs skip l))) e
    ∙ ap (λ p. sorted_in skip p (sorted_in skip b' (sorted_pairs skip l))) f
    ∙ ap (sorted_in skip a') (sym (sorted_pairs-cons skip b' l))
    ∙ sym (sorted_pairs-cons skip a' (b' ∷ l))
sorted_pairs-perm skip (Permᴰ.trans d e) = sorted_pairs-perm skip d ∙ sorted_pairs-perm skip e

-- The canonical query is the same in whatever order the parameters are visited, as the order in which
-- Go walks a map is not fixed: what a client has signed does not depend on it.
pub canonical_query-perm :
    (skip : Bytes) (xs ys : List (Bytes × Bytes))
    → Perm xs ys
    → canonical_query xs skip ≡ canonical_query ys skip
unfolding canonical_query
canonical_query-perm skip xs ys p = ∥∥₁_elim p (hlevel ℕ_set) (λ d.
    ap (λ l. join (codes "&") (map (λ p. p.0 ++ codes "=" ++ p.1) l)) (sorted_pairs-perm skip d))

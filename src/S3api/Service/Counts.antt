-- ===== src/S3api/Service/Counts.antt =====
-- How often a message is named by rows that are deleted, put in order or appended.
use telegram_s.Base.{
  ℕ, ◌+◌, ◌<◌, ◌≡◌, refl, ap, ◌∙◌, inl, inr, Bool, false, Bool-cases, List, [], ◌∷◌, map, arith,
  filter, ◌==◌, if◌then◌else◌, ==_iff,
}
use telegram_s.Storage.{Chunk, occurs}
use telegram_s.Metadata.Table.{insert_sorted, order_by, delete_where}
use telegram_s.S3api.Write.Stored.{hits, Apart}

occurs-insert_sorted :
    (before : Chunk → Chunk → Bool) (j : ℕ) (x : Chunk) (xs : List Chunk)
    → occurs j (insert_sorted before x xs) ≡ occurs j (x ∷ xs)
unfolding insert_sorted
occurs-insert_sorted before j x [] = refl
occurs-insert_sorted before j x (y ∷ ys) = elim (Bool-cases (before y x)) [
  | inl earlier ↦ rw earlier (omega (arith, occurs-insert_sorted before j x ys))
  | inr later ↦ rw later refl
]

pub occurs-order_by :
    (before : Chunk → Chunk → Bool) (j : ℕ) (cs : List Chunk)
    → occurs j (order_by before cs) ≡ occurs j cs
unfolding order_by
occurs-order_by before j [] = refl
occurs-order_by before j (c ∷ cs) =
    occurs-insert_sorted before j c (order_by before cs)
    ∙ ap (λ n. (if c.message_id == j then 1 else 0) + n) (occurs-order_by before j cs)

-- The rows that a query keeps and the rows that it drops.
pub occurs-split :
    {A : Type 0} (f : A → Chunk) (p : A → Bool) (j : ℕ) (rows : List A)
    → occurs j (map f (filter p rows)) + occurs j (map f (delete_where p rows))
      ≡ occurs j (map f rows)
occurs-split f p j [] = omega arith
occurs-split f p j (r ∷ rows) = ground (arith, occurs-split f p j rows)

pub occurs-hits : (j : ℕ) (cs : List Chunk) → hits j cs ≡ false → occurs j cs ≡ 0
occurs-hits j [] h = refl
occurs-hits j (c ∷ cs) h = ground (arith, occurs-hits j cs)

pub hits-occurs : (j : ℕ) (cs : List Chunk) → occurs j cs ≡ 0 → hits j cs ≡ false
hits-occurs j [] h = refl
hits-occurs j (c ∷ cs) h = ground (arith, hits-occurs j cs)

pub Apart-occurs :
    (j : ℕ) (olds news : List Chunk) → Apart olds news → 0 < occurs j olds → occurs j news ≡ 0
Apart-occurs j [] news h lt = absurd (omega arith)
Apart-occurs j (a ∷ olds) news (h, hs) lt = elim (Bool-cases (a.message_id == j)) [
  | inr other ↦ Apart-occurs j olds news hs (ground arith)
  | inl same ↦ occurs-hits j news (rw (← (==_iff a.message_id j).0 same) h)
]

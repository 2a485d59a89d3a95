-- ===== src/Metadata/Deleted.antt =====
-- `DeleteObject`, and what is read behind it.
use telegram_s.Base.{◌≡◌, ap, ◌∙◌, true, false, ◌&&◌, none, some, [], map, arith, ltb}
use telegram_s.Base.Bytes.{Bytes}
use telegram_s.Metadata.Table.{
  is_at, is_at-apart, order_by, order_by-same, filter-delete_where, filter-delete_other,
  filter-delete_within,
}
use telegram_s.Metadata.{
  Store, first, get_object, get_object_metadata, get_object_chunks, delete_object,
}
use telegram_s.Metadata.Objects.{view}

module _ (b k : Bytes) (s : Store) where
  deleted_object : get_object b k (delete_object b k s) ≡ none
  unfolding get_object delete_object
  deleted_object = ap first (
      filter-delete_within (λ o. is_at b k o.bucket o.key)
        (λ o. is_at b k o.bucket o.key && elim o.deleted_at [ none ↦ true | some t ↦ false ])
        s.objects (λ o h. ground arith))

  deleted_chunks : get_object_chunks b k (delete_object b k s) ≡ []
  unfolding get_object_chunks delete_object
  deleted_chunks =
      ap (λ rows. order_by (λ a b. ltb a.seq b.seq) (map (λ r. r.chunk) rows))
        (filter-delete_where (λ r. is_at b k r.bucket r.key) s.object_chunks)
      ∙ order_by-same (λ a b. ltb a.seq b.seq) [] tt

  deleted_metadata : get_object_metadata b k (delete_object b k s) ≡ []
  unfolding get_object_metadata delete_object
  deleted_metadata =
      ap (map (λ r. (r.name, r.value)))
        (filter-delete_where (λ r. is_at b k r.bucket r.key) s.object_metadata)

  spared_object :
      (x y : Bytes)
      → is_at x y b k ≡ false
      → get_object x y (delete_object b k s) ≡ get_object x y s
  unfolding get_object delete_object
  spared_object x y h = ap first (
      filter-delete_other (λ o. is_at b k o.bucket o.key)
        (λ o. is_at x y o.bucket o.key && elim o.deleted_at [ none ↦ true | some t ↦ false ])
        s.objects (λ o e. is_at-apart x y b k o.bucket o.key h (ground arith)))

  spared_chunks :
      (x y : Bytes)
      → is_at x y b k ≡ false
      → get_object_chunks x y (delete_object b k s) ≡ get_object_chunks x y s
  unfolding get_object_chunks delete_object
  spared_chunks x y h =
      ap (λ rows. order_by (λ a b. ltb a.seq b.seq) (map (λ r. r.chunk) rows))
        (filter-delete_other (λ r. is_at b k r.bucket r.key) (λ r. is_at x y r.bucket r.key)
          s.object_chunks (λ r. is_at-apart x y b k r.bucket r.key h))

  spared_metadata :
      (x y : Bytes)
      → is_at x y b k ≡ false
      → get_object_metadata x y (delete_object b k s) ≡ get_object_metadata x y s
  unfolding get_object_metadata delete_object
  spared_metadata x y h = ap (map (λ r. (r.name, r.value))) (
      filter-delete_other (λ r. is_at b k r.bucket r.key) (λ r. is_at x y r.bucket r.key)
        s.object_metadata (λ r. is_at-apart x y b k r.bucket r.key h))

-- A deleted object is not found and has no chunks and no metadata, and every other object is read
-- as before.
pub delete_object-view :
    (b k : Bytes) (s : Store)
    → (view b k (delete_object b k s) ≡ (none, [], []))
      × ((x y : Bytes) → is_at x y b k ≡ false → view x y (delete_object b k s) ≡ view x y s)
delete_object-view b k s = (
  λ i. (deleted_object b k s i, deleted_chunks b k s i, deleted_metadata b k s i),
  λ x y h i.
      (spared_object b k s x y h i, spared_chunks b k s x y h i, spared_metadata b k s x y h i),
)

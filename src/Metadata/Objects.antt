-- ===== src/Metadata/Objects.antt =====
-- Reading back what was written: `PutObject`, `GetObject` and `GetObjectChunks`.
use telegram_s.Base.{
  ℕ, ◌≡◌, refl, sym, ap, ◌∙◌, Bool, true, false, ◌&&◌, elim-some, Option, none, some, List, [], ◌∷◌,
  ◌++◌, map, arith, ltb, filter, append-nil,
}
use telegram_s.Base.Bytes.{Bytes}
use telegram_s.Storage.{Result, ok, err, Chunk, IsChunkMap}
use telegram_s.Metadata.Table.{
  is_at, is_at-elsewhere, is_at-apart, is_at_refl, order_by, order_by-same, delete_where,
  filter-append, filter-delete_where, filter-delete_other,
}
use telegram_s.Metadata.{
  Store, Object, MetadataRow, first, replace_object_chunks, replace_object_metadata, updated_row,
  upsert_object_row, stamped, put_object, get_object, get_object_metadata, get_object_chunks,
}
use telegram_s.Metadata.Rows.{
  rows_of, filter-rows_of, filter-rows_of_other, IsChunkMap-IsOrdered, replace_object_chunks-rows,
  AreNamed, chunks-rows_of,
}

-- The row that an upsert leaves: a new one, or the old one with the new values.
abbrev pub merged : Object → Option Object → Object
merged obj none = record obj { deleted_at = none }
merged obj (some old) = updated_row obj old

module _ (obj : Object) where
  abbrev live : Bytes → Bytes → Object → Bool
  live b k o = is_at b k o.bucket o.key && elim o.deleted_at [ none ↦ true | some t ↦ false ]

  upsert-first :
      (rows : List Object)
      → first (filter (live obj.bucket obj.key) (upsert_object_row obj rows))
        ≡ some (merged obj (first (filter (λ o. is_at obj.bucket obj.key o.bucket o.key) rows)))
  unfolding upsert_object_row
  upsert-first [] = ground (arith, is_at_refl obj.bucket obj.key)
  upsert-first (r ∷ rs) = ground (arith, upsert-first rs)

  upsert-other :
      (b k : Bytes) (rows : List Object)
      → is_at b k obj.bucket obj.key ≡ false
      → filter (live b k) (upsert_object_row obj rows) ≡ filter (live b k) rows
  unfolding upsert_object_row
  upsert-other b k [] h = ground arith
  upsert-other b k (r ∷ rs) h =
      ground (arith, upsert-other b k rs h, is_at-elsewhere b k obj.bucket obj.key r.bucket r.key h)

metadata_rows : (b k : Bytes) (kv : List (Bytes × Bytes)) → List MetadataRow
metadata_rows b k kv = map (λ p. record { bucket = b; key = k; name = p.0; value = p.1 }) kv

metadata_rows-read :
    (b k : Bytes) (kv : List (Bytes × Bytes))
    → map (λ r. (r.name, r.value)) (filter (λ r. is_at b k r.bucket r.key) (metadata_rows b k kv))
      ≡ kv
unfolding metadata_rows
metadata_rows-read b k [] = refl
metadata_rows-read b k ((n, v) ∷ kv) = ground (arith, is_at_refl b k, metadata_rows-read b k kv)

metadata_rows-other :
    (b k x y : Bytes) (kv : List (Bytes × Bytes))
    → is_at x y b k ≡ false
    → filter (λ r. is_at x y r.bucket r.key) (metadata_rows b k kv) ≡ []
unfolding metadata_rows
metadata_rows-other b k x y [] h = refl
metadata_rows-other b k x y ((n, v) ∷ kv) h = ground (arith, metadata_rows-other b k x y kv h)

abbrev pub find_row : Bytes → Bytes → List Object → Option Object
find_row b k rows = first (filter (λ o. is_at b k o.bucket o.key) rows)

module _ (now : ℕ) (obj : Object) (kv : List (Bytes × Bytes)) (chunks : List Chunk)
    (s : Store) where
  -- The store behind a write that goes through.
  abbrev put_store : Store
  put_store = record s {
    objects = upsert_object_row (stamped now obj) s.objects;
    object_chunks =
        delete_where (λ r. is_at obj.bucket obj.key r.bucket r.key) s.object_chunks
        ++ rows_of obj.bucket obj.key chunks;
    object_metadata = replace_object_metadata obj.bucket obj.key kv s.object_metadata;
  }

  put_object-store : IsChunkMap 0 0 chunks → put_object now obj kv chunks s ≡ ok put_store
  unfolding put_object
  put_object-store m =
      elim-some _ _ (replace_object_chunks obj.bucket obj.key chunks s.object_chunks)
        (replace_object_chunks-rows obj.bucket obj.key chunks s.object_chunks m)

  chunks_back :
      IsChunkMap 0 0 chunks
      → AreNamed chunks
      → get_object_chunks obj.bucket obj.key put_store ≡ chunks
  unfolding get_object_chunks
  chunks_back m named =
      ap (λ rows. order_by (λ a b. ltb a.seq b.seq) (map (λ r. r.chunk) rows))
        (filter-append (λ r. is_at obj.bucket obj.key r.bucket r.key)
            (delete_where (λ r. is_at obj.bucket obj.key r.bucket r.key) s.object_chunks)
            (rows_of obj.bucket obj.key chunks)
          ∙ ap
              (λ l.
                l
                ++ filter (λ r. is_at obj.bucket obj.key r.bucket r.key)
                    (rows_of obj.bucket obj.key chunks))
              (filter-delete_where (λ r. is_at obj.bucket obj.key r.bucket r.key) s.object_chunks)
          ∙ filter-rows_of obj.bucket obj.key chunks)
      ∙ ap (order_by (λ a b. ltb a.seq b.seq)) (chunks-rows_of obj.bucket obj.key chunks named)
      ∙ order_by-same (λ a b. ltb a.seq b.seq) chunks (IsChunkMap-IsOrdered 0 0 chunks m)

  metadata_back : get_object_metadata obj.bucket obj.key put_store ≡ kv
  unfolding get_object_metadata replace_object_metadata metadata_rows
  metadata_back =
      ap (map (λ r. (r.name, r.value))) (
        filter-append (λ r. is_at obj.bucket obj.key r.bucket r.key)
          (delete_where (λ r. is_at obj.bucket obj.key r.bucket r.key) s.object_metadata)
          (metadata_rows obj.bucket obj.key kv)
        ∙ ap
            (λ l.
              l
              ++ filter (λ r. is_at obj.bucket obj.key r.bucket r.key)
                  (metadata_rows obj.bucket obj.key kv))
            (filter-delete_where (λ r. is_at obj.bucket obj.key r.bucket r.key) s.object_metadata))
      ∙ metadata_rows-read obj.bucket obj.key kv

  object_back :
      get_object obj.bucket obj.key put_store
      ≡ some (merged (stamped now obj) (find_row obj.bucket obj.key s.objects))
  unfolding get_object
  object_back = upsert-first (stamped now obj) s.objects

  -- Another object.
  module _ (b k : Bytes) (other : is_at b k obj.bucket obj.key ≡ false) where
    apart : (r z : Bytes) → is_at b k r z ≡ true → is_at obj.bucket obj.key r z ≡ false
    apart r z h = is_at-apart b k obj.bucket obj.key r z other h

    object_other : get_object b k put_store ≡ get_object b k s
    unfolding get_object
    object_other = ap first (upsert-other (stamped now obj) b k s.objects other)

    chunks_other : get_object_chunks b k put_store ≡ get_object_chunks b k s
    unfolding get_object_chunks
    chunks_other =
        ap (λ rows. order_by (λ a b. ltb a.seq b.seq) (map (λ r. r.chunk) rows))
          (filter-append (λ r. is_at b k r.bucket r.key)
              (delete_where (λ r. is_at obj.bucket obj.key r.bucket r.key) s.object_chunks)
              (rows_of obj.bucket obj.key chunks)
            ∙ ap
                (λ l.
                  filter (λ r. is_at b k r.bucket r.key)
                    (delete_where (λ r. is_at obj.bucket obj.key r.bucket r.key) s.object_chunks)
                  ++ l)
                (filter-rows_of_other obj.bucket obj.key b k chunks other)
            ∙ append-nil _
            ∙ filter-delete_other (λ r. is_at obj.bucket obj.key r.bucket r.key)
                (λ r. is_at b k r.bucket r.key) s.object_chunks (λ r h. apart r.bucket r.key h))

    metadata_other : get_object_metadata b k put_store ≡ get_object_metadata b k s
    unfolding get_object_metadata replace_object_metadata metadata_rows
    metadata_other = ap (map (λ r. (r.name, r.value))) (
        filter-append (λ r. is_at b k r.bucket r.key)
          (delete_where (λ r. is_at obj.bucket obj.key r.bucket r.key) s.object_metadata)
          (metadata_rows obj.bucket obj.key kv)
        ∙ ap
            (λ l.
              filter (λ r. is_at b k r.bucket r.key)
                (delete_where (λ r. is_at obj.bucket obj.key r.bucket r.key) s.object_metadata)
              ++ l)
            (metadata_rows-other obj.bucket obj.key b k kv other)
        ∙ append-nil _
        ∙ filter-delete_other (λ r. is_at obj.bucket obj.key r.bucket r.key)
            (λ r. is_at b k r.bucket r.key) s.object_metadata (λ r h. apart r.bucket r.key h))

-- What a reader sees of one object.
abbrev pub view : Bytes → Bytes → Store → Option Object × List Chunk × List (Bytes × Bytes)
view b k s = (get_object b k s, get_object_chunks b k s, get_object_metadata b k s)

-- For chunks that are numbered from 0, lie one behind another from offset 0 on, and each name a
-- transport: a write of an object with these chunks goes through, whatever is stored, and then the
-- object is read back with just these chunks in order and just this metadata, its row is the written
-- one, with the creation time of the row that it replaces, if any, and every other object is read as
-- before.
pub put_object-view :
    (now : ℕ) (obj : Object) (kv : List (Bytes × Bytes)) (chunks : List Chunk) (s : Store)
    → IsChunkMap 0 0 chunks
    → AreNamed chunks
    → (s' : Store) × (put_object now obj kv chunks s ≡ ok s')
      × (view obj.bucket obj.key s'
          ≡ (some (merged (stamped now obj) (find_row obj.bucket obj.key s.objects)), chunks, kv))
      × ((b k : Bytes) → is_at b k obj.bucket obj.key ≡ false → view b k s' ≡ view b k s)
put_object-view now obj kv chunks s m named = (
  put_store now obj kv chunks s,
  put_object-store now obj kv chunks s m,
  λ i. (
    object_back now obj kv chunks s i,
    chunks_back now obj kv chunks s m named i,
    metadata_back now obj kv chunks s i,
  ),
  λ b k other i. (
    object_other now obj kv chunks s b k other i,
    chunks_other now obj kv chunks s b k other i,
    metadata_other now obj kv chunks s b k other i,
  ),
)

store_or : Store → Result Store → Store
store_or s (err e) = s
store_or s (ok s') = s'

-- The rows behind a write that goes through.
pub put_object-rows :
    (now : ℕ) (obj : Object) (kv : List (Bytes × Bytes)) (chunks : List Chunk) (s s' : Store)
    → IsChunkMap 0 0 chunks
    → put_object now obj kv chunks s ≡ ok s'
    → (s'.object_chunks
        ≡ delete_where (λ r. is_at obj.bucket obj.key r.bucket r.key) s.object_chunks
          ++ rows_of obj.bucket obj.key chunks)
      × (s'.multipart_part_chunks ≡ s.multipart_part_chunks)
unfolding store_or
put_object-rows now obj kv chunks s s' m h =
    let same : s' ≡ put_store now obj kv chunks s =
      ap (store_or s) (sym h ∙ put_object-store now obj kv chunks s m) in
    (ap (λ z. z.object_chunks) same, ap (λ z. z.multipart_part_chunks) same)

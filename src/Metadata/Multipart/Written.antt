-- ===== src/Metadata/Multipart/Written.antt =====
-- internal/metadata/store.go: reading back what `PutMultipartPart` wrote.
use mathlib.Core.Path.{subst}
use telegram_s.Base.{
  ℕ, ◌+◌, ◌<◌, ◌≡◌, refl, sym, ap, ◌∙◌, ◌⊎◌, inl, inr, Bool, true, false, ◌&&◌, Bool-cases,
  elim-some, some, List, [], ◌∷◌, ◌++◌, ◌>>=◌, map, arith, ltb, ◌==◌, any, filter, append_assoc,
  append-nil,
}
use telegram_s.Base.Bytes.{Bytes, equal_refl, equal_eq}
use telegram_s.Storage.{Result, ok, err, Chunk, IsChunkMap}
use telegram_s.Metadata.Table.{
  order_by, order_by-same, IsOrdered, delete_where, filter-append, filter-delete_where,
  filter-delete_other, delete_where-true, delete_where-false,
}
use telegram_s.Metadata.{
  get_object, get_object_chunks, get_object_metadata, Store, PartChunkRow, with_transport,
}
use telegram_s.Metadata.Objects.{view}
use telegram_s.Metadata.Rows.{AreNamed}
use telegram_s.Metadata.Multipart.{
  is_part, insert_part_chunk, insert_part_chunks, upsert_part, put_multipart_part,
  get_multipart_part_chunks,
}

-- A chunk as the row of a part keeps it.
abbrev pub kept : Chunk → Chunk
kept c = record c { offset = 0 }

module _ (id : Bytes) (part : ℕ) where
  abbrev pub of_part : PartChunkRow → Bool
  of_part r = is_part id part r.upload_id r.part_number

  pub row_of : Chunk → PartChunkRow
  row_of c = record {
    upload_id = id;
    part_number = part;
    chunk = record (with_transport c) { offset = 0 };
  }

  is_part_refl : (c : Chunk) → of_part (row_of c) ≡ true
  unfolding row_of
  is_part_refl c = ground (arith, equal_refl id)

  -- No row of the part has the number `seq` or a later one.
  Below : ℕ → List PartChunkRow → Type 0
  Below seq [] = Unit
  Below seq (r ∷ rs) = ((of_part r ≡ false) ⊎ (r.chunk.seq < seq)) × Below seq rs

  Below-suc : (seq : ℕ) (rs : List PartChunkRow) → Below seq rs → Below (seq + 1) rs
  unfolding Below
  Below-suc seq [] h = tt
  Below-suc seq (r ∷ rs) (inl e, hs) = (inl e, Below-suc seq rs hs)
  Below-suc seq (r ∷ rs) (inr lt, hs) = (inr (omega arith), Below-suc seq rs hs)

  Below-append :
      (seq : ℕ) (rs : List PartChunkRow) (r : PartChunkRow)
      → Below seq rs
      → r.chunk.seq < seq
      → Below seq (rs ++ r ∷ [])
  unfolding Below
  Below-append seq [] r h lt = (inr lt, tt)
  Below-append seq (x ∷ rs) r (h, hs) lt = (h, Below-append seq rs r hs lt)

  Below-free :
      (seq : ℕ) (rs : List PartChunkRow)
      → Below seq rs
      → any (λ r. is_part id part r.upload_id r.part_number && r.chunk.seq == seq) rs ≡ false
  unfolding Below
  Below-free seq [] h = refl
  Below-free seq (r ∷ rs) (inl e, hs) = ground (arith, Below-free seq rs hs)
  Below-free seq (r ∷ rs) (inr lt, hs) = ground (arith, Below-free seq rs hs)

  Below-deleted : (rs : List PartChunkRow) → Below 0 (delete_where of_part rs)
  unfolding Below
  Below-deleted [] = tt
  Below-deleted (r ∷ rs) = elim (Bool-cases (of_part r)) [
    | inl same ↦ subst (Below 0) (sym (delete_where-true of_part r rs same)) (Below-deleted rs)
    | inr other ↦
        subst (Below 0) (sym (delete_where-false of_part r rs other)) (inl other, Below-deleted rs)
  ]

  insert_part_chunk-free :
      (c : Chunk) (rows : List PartChunkRow)
      → any (λ r. is_part id part r.upload_id r.part_number && r.chunk.seq == c.seq) rows ≡ false
      → insert_part_chunk id part c rows ≡ some (rows ++ row_of c ∷ [])
  unfolding insert_part_chunk row_of
  insert_part_chunk-free c rows h = rw h refl

  insert_part_chunks-rows :
      (seq start : ℕ) (cs : List Chunk) (rows : List PartChunkRow)
      → IsChunkMap seq start cs
      → Below seq rows
      → insert_part_chunks id part cs rows ≡ some (rows ++ map row_of cs)
  unfolding insert_part_chunks row_of
  insert_part_chunks-rows seq start [] rows m h = ap some (sym (append-nil rows))
  insert_part_chunks-rows seq start (c ∷ cs) rows (n, o, m) h =
      let free =
        ap (λ n. any (λ r. is_part id part r.upload_id r.part_number && r.chunk.seq == n) rows) n
        ∙ Below-free seq rows h in
      let lt : (row_of c).chunk.seq < seq + 1 = omega arith in
      ap (λ o. o >>= insert_part_chunks id part cs) (insert_part_chunk-free c rows free)
      ∙ insert_part_chunks-rows (seq + 1) (start + c.size) cs (rows ++ row_of c ∷ []) m
          (Below-append (seq + 1) rows (row_of c) (Below-suc seq rows h) lt)
      ∙ ap some (append_assoc rows (row_of c ∷ []) (map row_of cs))

  filter-rows : (cs : List Chunk) → filter of_part (map row_of cs) ≡ map row_of cs
  filter-rows [] = refl
  filter-rows (c ∷ cs) = ground (arith, is_part_refl c, filter-rows cs)

  filter-rows_other :
      (x : Bytes) (n : ℕ) (cs : List Chunk)
      → is_part x n id part ≡ false
      → filter (λ r. is_part x n r.upload_id r.part_number) (map row_of cs) ≡ []
  unfolding row_of
  filter-rows_other x n [] h = refl
  filter-rows_other x n (c ∷ cs) h = ground (arith, filter-rows_other x n cs h)

  pub chunks-rows :
      (cs : List Chunk) → AreNamed cs → map (λ r. r.chunk) (map row_of cs) ≡ map kept cs
  unfolding row_of
  chunks-rows [] h = refl
  chunks-rows (c ∷ cs) (h, hs) = ground (arith, chunks-rows cs hs)

  IsOrdered-kept :
      (seq start : ℕ) (cs : List Chunk)
      → IsChunkMap seq start cs
      → IsOrdered (λ a b. ltb a.seq b.seq) (map kept cs)
  IsOrdered-kept seq start [] m = tt
  IsOrdered-kept seq start (c ∷ []) m = tt
  IsOrdered-kept seq start (c ∷ d ∷ cs) (n, o, m) =
      (ground arith, IsOrdered-kept (seq + 1) (start + c.size) (d ∷ cs) m)

  apart :
      (x : Bytes) (n : ℕ) (r : PartChunkRow)
      → is_part x n id part ≡ false
      → is_part x n r.upload_id r.part_number ≡ true
      → of_part r ≡ false
  apart x n r h e = elim (Bool-cases (is_part id part r.upload_id r.part_number)) [
    | inr f ↦ f
    | inl t ↦ absurd (
        let same_id : r.upload_id ≡ id = equal_eq r.upload_id id (ground arith) in
        let same_part : r.part_number ≡ part = ground arith in
        let e' = subst (λ k. is_part x n r.upload_id k ≡ true) same_part e in
        let e'' = subst (λ k. is_part x n k part ≡ true) same_id e' in ground arith)
  ]

  module _ (etag : Bytes) (size : ℕ) (cs : List Chunk) (s : Store) where
    put_part_store : Store
    put_part_store = record s {
      multipart_parts =
          upsert_part (record { upload_id = id; part_number = part; etag = etag; size = size })
            s.multipart_parts;
      multipart_part_chunks = delete_where of_part s.multipart_part_chunks ++ map row_of cs;
    }

    put_part-store :
        IsChunkMap 0 0 cs → put_multipart_part id part etag size cs s ≡ ok put_part_store
    unfolding put_multipart_part put_part_store
    put_part-store m =
        elim-some _ _ (insert_part_chunks id part cs (delete_where of_part s.multipart_part_chunks))
          (insert_part_chunks-rows 0 0 cs _ m (Below-deleted s.multipart_part_chunks))

    part_back :
        IsChunkMap 0 0 cs
        → AreNamed cs
        → get_multipart_part_chunks id part put_part_store ≡ map kept cs
    unfolding get_multipart_part_chunks put_part_store
    part_back m named =
        ap (λ rows. order_by (λ a b. ltb a.seq b.seq) (map (λ r. r.chunk) rows))
          (filter-append of_part (delete_where of_part s.multipart_part_chunks) (map row_of cs)
            ∙ ap (λ l. l ++ filter of_part (map row_of cs))
                (filter-delete_where of_part s.multipart_part_chunks)
            ∙ filter-rows cs)
        ∙ ap (order_by (λ a b. ltb a.seq b.seq)) (chunks-rows cs named)
        ∙ order_by-same (λ a b. ltb a.seq b.seq) (map kept cs) (IsOrdered-kept 0 0 cs m)

    part_other :
        (x : Bytes) (n : ℕ)
        → is_part x n id part ≡ false
        → get_multipart_part_chunks x n put_part_store ≡ get_multipart_part_chunks x n s
    unfolding get_multipart_part_chunks put_part_store
    part_other x n other =
        ap (λ rows. order_by (λ a b. ltb a.seq b.seq) (map (λ r. r.chunk) rows))
          (filter-append (λ r. is_part x n r.upload_id r.part_number)
              (delete_where of_part s.multipart_part_chunks) (map row_of cs)
            ∙ ap
                (λ l.
                  filter (λ r. is_part x n r.upload_id r.part_number)
                    (delete_where of_part s.multipart_part_chunks)
                  ++ l)
                (filter-rows_other x n cs other)
            ∙ append-nil _
            ∙ filter-delete_other of_part (λ r. is_part x n r.upload_id r.part_number)
                s.multipart_part_chunks (λ r. apart x n r other))

-- A write of a part with chunks that are numbered from 0 and name their transport goes through,
-- whatever was stored under its number before; then the part is read back with just these chunks in
-- order, without their offsets, and the chunks of every other part are read as before.
pub put_multipart_part-view :
    (id : Bytes) (part : ℕ) (etag : Bytes) (size : ℕ) (cs : List Chunk) (s : Store)
    → IsChunkMap 0 0 cs
    → AreNamed cs
    → (s' : Store) × (put_multipart_part id part etag size cs s ≡ ok s')
      × (get_multipart_part_chunks id part s' ≡ map kept cs)
      × ((x : Bytes) (n : ℕ)
          → is_part x n id part ≡ false
          → get_multipart_part_chunks x n s' ≡ get_multipart_part_chunks x n s)
put_multipart_part-view id part etag size cs s m named = (
  put_part_store id part etag size cs s,
  put_part-store id part etag size cs s m,
  part_back id part etag size cs s m named,
  part_other id part etag size cs s,
)

part_store_or : Store → Result Store → Store
part_store_or s (err e) = s
part_store_or s (ok s') = s'

-- The rows behind a write that goes through, and what it leaves alone.
pub put_multipart_part-rows :
    (id : Bytes) (part : ℕ) (etag : Bytes) (size : ℕ) (cs : List Chunk) (s s' : Store)
    → IsChunkMap 0 0 cs
    → put_multipart_part id part etag size cs s ≡ ok s'
    → (s'.multipart_part_chunks
        ≡ delete_where (of_part id part) s.multipart_part_chunks ++ map (row_of id part) cs)
      × (s'.object_chunks ≡ s.object_chunks)
      × ((b k : Bytes) → view b k s' ≡ view b k s)
unfolding part_store_or put_part_store get_object get_object_chunks get_object_metadata
put_multipart_part-rows id part etag size cs s s' m h =
    let same : s' ≡ put_part_store id part etag size cs s =
      ap (part_store_or s) (sym h ∙ put_part-store id part etag size cs s m) in
    (
      ap (λ z. z.multipart_part_chunks) same,
      ap (λ z. z.object_chunks) same,
      λ b k. ap (view b k) same,
    )

-- ===== src/Metadata/Multipart/Parts.antt =====
-- internal/metadata/store.go: a finalized upload is a PutObject and a DeleteMultipartUpload.
use telegram_s.Base.{
  ℕ, ◌≡◌, refl, ap, ◌∙◌, true, false, Option, none, some, List, [], map, arith, ltb, ◌==◌, ◌&&◌,
  ◌||◌,
}
use telegram_s.Base.Bytes.{Bytes, equal, equal_eq}
use telegram_s.Storage.{Result, ok, err, Chunk, IsChunkMap}
use telegram_s.Metadata.Table.{is_at, order_by, filter-delete_where, filter-delete_other}
use telegram_s.Metadata.Objects.{view, merged, find_row, put_object-view}
use telegram_s.Metadata.Rows.{AreNamed}
use telegram_s.Metadata.{
  MultipartUpload, MultipartPart, Store, Object, first, put_object, get_object, get_object_chunks,
  get_object_metadata, stamped,
}
use telegram_s.Metadata.Multipart.{
  get_multipart_upload, list_multipart_parts, all_multipart_chunks, get_multipart_upload_metadata,
  delete_multipart_upload, finalize_multipart_upload,
}

-- What there is of an upload.
abbrev pub upload_view :
    Bytes → Store → Option MultipartUpload × List MultipartPart × List Chunk × List (Bytes × Bytes)
upload_view upload_id s = (
  get_multipart_upload upload_id s,
  list_multipart_parts upload_id s,
  all_multipart_chunks upload_id s,
  get_multipart_upload_metadata upload_id s,
)

module _ (id : Bytes) (s : Store) where
  gone_upload : get_multipart_upload id (delete_multipart_upload id s) ≡ none
  unfolding get_multipart_upload delete_multipart_upload
  gone_upload = ap first (filter-delete_where (λ u. equal u.upload_id id) s.multipart_uploads)

  gone_parts : list_multipart_parts id (delete_multipart_upload id s) ≡ []
  unfolding list_multipart_parts delete_multipart_upload order_by
  gone_parts =
      ap (order_by (λ a b. ltb a.part_number b.part_number))
        (filter-delete_where (λ u. equal u.upload_id id) s.multipart_parts)

  gone_chunks : all_multipart_chunks id (delete_multipart_upload id s) ≡ []
  unfolding all_multipart_chunks delete_multipart_upload order_by
  gone_chunks =
      ap
        (λ rows.
          map (λ r. record r.chunk { seq = 0; size = 0; offset = 0 })
            (order_by
              (λ a b.
                ltb a.part_number b.part_number
                || (a.part_number == b.part_number && ltb a.chunk.seq b.chunk.seq))
              rows))
        (filter-delete_where (λ u. equal u.upload_id id) s.multipart_part_chunks)

  gone_metadata : get_multipart_upload_metadata id (delete_multipart_upload id s) ≡ []
  unfolding get_multipart_upload_metadata delete_multipart_upload
  gone_metadata =
      ap (map (λ r. (r.name, r.value)))
        (filter-delete_where (λ u. equal u.upload_id id) s.multipart_upload_metadata)

  module _ (x : Bytes) (h : equal x id ≡ false) where
    not_same : (y : Bytes) → equal y x ≡ true → equal y id ≡ false
    not_same y e = ap (λ z. equal z id) (equal_eq y x e) ∙ h

    kept_upload : get_multipart_upload x (delete_multipart_upload id s) ≡ get_multipart_upload x s
    unfolding get_multipart_upload delete_multipart_upload
    kept_upload = ap first (
        filter-delete_other (λ u. equal u.upload_id id) (λ u. equal u.upload_id x)
          s.multipart_uploads (λ u. not_same u.upload_id))

    kept_parts : list_multipart_parts x (delete_multipart_upload id s) ≡ list_multipart_parts x s
    unfolding list_multipart_parts delete_multipart_upload
    kept_parts = ap (order_by (λ a b. ltb a.part_number b.part_number)) (
        filter-delete_other (λ u. equal u.upload_id id) (λ u. equal u.upload_id x) s.multipart_parts
          (λ u. not_same u.upload_id))

    kept_chunks : all_multipart_chunks x (delete_multipart_upload id s) ≡ all_multipart_chunks x s
    unfolding all_multipart_chunks delete_multipart_upload
    kept_chunks =
        ap
          (λ rows.
            map (λ r. record r.chunk { seq = 0; size = 0; offset = 0 })
              (order_by
                (λ a b.
                  ltb a.part_number b.part_number
                  || (a.part_number == b.part_number && ltb a.chunk.seq b.chunk.seq))
                rows))
          (filter-delete_other (λ u. equal u.upload_id id) (λ u. equal u.upload_id x)
            s.multipart_part_chunks (λ u. not_same u.upload_id))

    kept_metadata :
        get_multipart_upload_metadata x (delete_multipart_upload id s)
        ≡ get_multipart_upload_metadata x s
    unfolding get_multipart_upload_metadata delete_multipart_upload
    kept_metadata = ap (map (λ r. (r.name, r.value))) (
        filter-delete_other (λ u. equal u.upload_id id) (λ u. equal u.upload_id x)
          s.multipart_upload_metadata (λ u. not_same u.upload_id))

view-delete_multipart_upload :
    (id b k : Bytes) (s : Store) → view b k (delete_multipart_upload id s) ≡ view b k s
unfolding delete_multipart_upload get_object get_object_chunks get_object_metadata
view-delete_multipart_upload id b k s = refl

-- Nothing is left of a deleted upload, every other upload is as before, and every object is read as
-- before.
pub delete_multipart_upload-view :
    (id : Bytes) (s : Store)
    → (upload_view id (delete_multipart_upload id s) ≡ (none, [], [], []))
      × ((x : Bytes)
          → equal x id ≡ false
          → upload_view x (delete_multipart_upload id s) ≡ upload_view x s)
      × ((b k : Bytes) → view b k (delete_multipart_upload id s) ≡ view b k s)
delete_multipart_upload-view id s = (
  λ i. (gone_upload id s i, gone_parts id s i, gone_chunks id s i, gone_metadata id s i),
  λ x h i. (
    kept_upload id s x h i,
    kept_parts id s x h i,
    kept_chunks id s x h i,
    kept_metadata id s x h i,
  ),
  λ b k. view-delete_multipart_upload id b k s,
)

-- A result with a change of its store.
abbrev pub and_then : Result Store → (Store → Store) → Result Store
and_then (err e) f = err e
and_then (ok s) f = ok (f s)

pub finalize-put_object :
    (now : ℕ) (obj : Object) (kv : List (Bytes × Bytes)) (chunks : List Chunk) (upload_id : Bytes)
    (s : Store)
    → finalize_multipart_upload now obj kv chunks upload_id s
      ≡ and_then (put_object now obj kv chunks s) (delete_multipart_upload upload_id)
unfolding finalize_multipart_upload put_object
finalize-put_object now obj kv chunks upload_id s = ground arith

-- A finalized upload whose chunks are numbered from 0 goes through: the object is read back with
-- just these chunks in order and this metadata, nothing is left of the upload, and every other
-- object is read as before.
pub finalize_multipart_upload-view :
    (now : ℕ) (obj : Object) (kv : List (Bytes × Bytes)) (chunks : List Chunk) (id : Bytes)
    (s : Store)
    → IsChunkMap 0 0 chunks
    → AreNamed chunks
    → (s' : Store) × (finalize_multipart_upload now obj kv chunks id s ≡ ok s')
      × (view obj.bucket obj.key s'
          ≡ (some (merged (stamped now obj) (find_row obj.bucket obj.key s.objects)), chunks, kv))
      × (upload_view id s' ≡ (none, [], [], []))
      × ((b k : Bytes) → is_at b k obj.bucket obj.key ≡ false → view b k s' ≡ view b k s)
finalize_multipart_upload-view now obj kv chunks id s m named =
    let (s', put, same, others) = put_object-view now obj kv chunks s m named in
    let (gone, _, views) = delete_multipart_upload-view id s' in
    (
      delete_multipart_upload id s',
      finalize-put_object now obj kv chunks id s
          ∙ ap (λ p. and_then p (delete_multipart_upload id)) put,
      views obj.bucket obj.key ∙ same,
      gone,
      λ b k other. views b k ∙ others b k other,
    )

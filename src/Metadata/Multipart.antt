-- ===== src/Metadata/Multipart.antt =====
-- internal/metadata/store.go: the statements over multipart uploads, their parts and their chunks. The
-- `offset` of a part's chunk is not a column, and is 0 here.
pub mod Parts
pub mod Written
use telegram_s.Base.{
  ◌>>=◌, ℕ, ◌+◌, Bool, ◌&&◌, ◌||◌, Option, none, some, List, [], ◌∷◌, ◌++◌, map, ◌==◌,
  if◌then◌else◌, any, filter, ltb,
}
use telegram_s.Base.Bytes.{Bytes, equal, less}
use telegram_s.Base.Time.{rfc3339_nano}
use telegram_s.Storage.{fault, Result, ok, err, Chunk}
use telegram_s.Metadata.Table.{order_by, delete_where}
use telegram_s.Metadata.{
  MultipartUpload, MultipartPart, PartChunkRow, Store, Object, first, with_transport,
  replace_object_chunks, replace_object_metadata, upsert_object_row, stamped,
}

-- CreateMultipartUpload
unfoldable pub create_multipart_upload : ℕ → Bytes → Bytes → Bytes → Bytes → Store → Result Store
create_multipart_upload now upload_id bucket key content_type s =
    if any (λ u. equal u.upload_id upload_id) s.multipart_uploads
    then err (fault 2)
    else ok (record s {
      multipart_uploads =
          s.multipart_uploads
          ++ record {
            upload_id = upload_id;
            bucket = bucket;
            key = key;
            content_type = content_type;
            created_at = now;
          }
            ∷ [];
    })

-- GetMultipartUpload; `none` is ErrNotFound.
unfoldable pub get_multipart_upload : Bytes → Store → Option MultipartUpload
get_multipart_upload upload_id s =
    first (filter (λ u. equal u.upload_id upload_id) s.multipart_uploads)

-- ListMultipartUploads: ORDER BY key, upload_id
unfoldable pub list_multipart_uploads : Bytes → Store → List MultipartUpload
list_multipart_uploads bucket s =
    order_by (λ a b. less a.key b.key || (equal a.key b.key && less a.upload_id b.upload_id))
      (filter (λ u. equal u.bucket bucket) s.multipart_uploads)

-- created_at < ?: the column is a text, and so is the time that it is compared with.
unfoldable pub is_earlier : ℕ → ℕ → Bool
is_earlier a b = less (rfc3339_nano a) (rfc3339_nano b)

-- StaleMultipartUploads: ORDER BY created_at
unfoldable pub stale_multipart_uploads : ℕ → Store → List MultipartUpload
unfolding is_earlier
stale_multipart_uploads before s =
    order_by (λ a b. is_earlier a.created_at b.created_at)
      (filter (λ u. is_earlier u.created_at before) s.multipart_uploads)

-- WHERE upload_id = ? AND part_number = ?
abbrev pub is_part : Bytes → ℕ → Bytes → ℕ → Bool
is_part upload_id part_number u n = equal u upload_id && n == part_number

-- GetMultipartPartChunks: ORDER BY seq
unfoldable pub get_multipart_part_chunks : Bytes → ℕ → Store → List Chunk
get_multipart_part_chunks upload_id part_number s =
    order_by (λ a b. ltb a.seq b.seq)
      (map (λ r. r.chunk)
        (filter (λ r. is_part upload_id part_number r.upload_id r.part_number)
          s.multipart_part_chunks))

-- INSERT … ON CONFLICT DO UPDATE on multipart_parts.
unfoldable pub upsert_part : MultipartPart → List MultipartPart → List MultipartPart
upsert_part p [] = p ∷ []
upsert_part p (r ∷ rs) =
    let rest = upsert_part p rs in
    if is_part p.upload_id p.part_number r.upload_id r.part_number then p ∷ rs else r ∷ rest

-- One INSERT into multipart_part_chunks.
unfoldable pub insert_part_chunk :
    Bytes → ℕ → Chunk → List PartChunkRow → Option (List PartChunkRow)
insert_part_chunk upload_id part_number c rows =
    if any (λ r. is_part upload_id part_number r.upload_id r.part_number && r.chunk.seq == c.seq)
      rows
    then none
    else some (
        rows
        ++ record {
          upload_id = upload_id;
          part_number = part_number;
          chunk = record (with_transport c) { offset = 0 };
        }
          ∷ [])

unfoldable pub insert_part_chunks :
    Bytes → ℕ → List Chunk → List PartChunkRow → Option (List PartChunkRow)
unfolding insert_part_chunk
insert_part_chunks upload_id part_number [] rows = some rows
insert_part_chunks upload_id part_number (c ∷ cs) rows = do
  rows' ← insert_part_chunk upload_id part_number c rows
  insert_part_chunks upload_id part_number cs rows'

-- PutMultipartPart
unfoldable pub put_multipart_part : Bytes → ℕ → Bytes → ℕ → List Chunk → Store → Result Store
unfolding upsert_part insert_part_chunks
put_multipart_part upload_id part_number etag size chunks s =
    let part : MultipartPart = record {
      upload_id = upload_id;
      part_number = part_number;
      etag = etag;
      size = size;
    } in
    elim (insert_part_chunks upload_id part_number chunks (
      delete_where (λ r. is_part upload_id part_number r.upload_id r.part_number)
        s.multipart_part_chunks)) [
          | none ↦ err (fault 3)
          | some rows ↦ ok (record s {
            multipart_parts = upsert_part part s.multipart_parts;
            multipart_part_chunks = rows;
          })
        ]

-- ListMultipartParts: ORDER BY part_number
unfoldable pub list_multipart_parts : Bytes → Store → List MultipartPart
list_multipart_parts upload_id s =
    order_by (λ a b. ltb a.part_number b.part_number)
      (filter (λ p. equal p.upload_id upload_id) s.multipart_parts)

-- AllMultipartChunks: ORDER BY part_number, seq; the query leaves the other fields zero.
unfoldable pub all_multipart_chunks : Bytes → Store → List Chunk
all_multipart_chunks upload_id s =
    map (λ r. record r.chunk { seq = 0; size = 0; offset = 0 })
      (order_by
        (λ a b.
          ltb a.part_number b.part_number
          || (a.part_number == b.part_number && ltb a.chunk.seq b.chunk.seq))
        (filter (λ r. equal r.upload_id upload_id) s.multipart_part_chunks))

-- PutMultipartUploadMetadata, of an upload that has none yet.
unfoldable pub put_multipart_upload_metadata : Bytes → List (Bytes × Bytes) → Store → Store
put_multipart_upload_metadata upload_id kv s = record s {
  multipart_upload_metadata =
      s.multipart_upload_metadata
      ++ map (λ p. record { upload_id = upload_id; name = p.0; value = p.1 }) kv;
}

unfoldable pub get_multipart_upload_metadata : Bytes → Store → List (Bytes × Bytes)
get_multipart_upload_metadata upload_id s =
    map (λ r. (r.name, r.value))
      (filter (λ r. equal r.upload_id upload_id) s.multipart_upload_metadata)

-- deleteMultipartTx, DeleteMultipartUpload
unfoldable pub delete_multipart_upload : Bytes → Store → Store
delete_multipart_upload upload_id s = record s {
  multipart_part_chunks = delete_where (λ r. equal r.upload_id upload_id) s.multipart_part_chunks;
  multipart_parts = delete_where (λ r. equal r.upload_id upload_id) s.multipart_parts;
  multipart_upload_metadata =
      delete_where (λ r. equal r.upload_id upload_id) s.multipart_upload_metadata;
  multipart_uploads = delete_where (λ u. equal u.upload_id upload_id) s.multipart_uploads;
}

-- FinalizeMultipartUpload
unfoldable pub finalize_multipart_upload :
    ℕ → Object → List (Bytes × Bytes) → List Chunk → Bytes → Store → Result Store
unfolding upsert_object_row replace_object_chunks replace_object_metadata delete_multipart_upload
finalize_multipart_upload now obj kv chunks upload_id s =
    elim (replace_object_chunks obj.bucket obj.key chunks s.object_chunks) [
      | none ↦ err (fault 1)
      | some rows ↦ ok (
          delete_multipart_upload upload_id (record s {
            objects = upsert_object_row (stamped now obj) s.objects;
            object_chunks = rows;
            object_metadata = replace_object_metadata obj.bucket obj.key kv s.object_metadata;
          }))
    ]

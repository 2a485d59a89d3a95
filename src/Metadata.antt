-- ===== src/Metadata.antt =====
-- internal/metadata/store.go: the tables of the metadata store and the statements over objects.
-- A transaction that meets a duplicate primary key is rolled back: its result is an error and the
-- store stays. A metadata.Chunk has the fields of a storage.Chunk, and is one here. Times are numbers.
pub mod Bound
pub mod Table
pub mod Rows
pub mod Objects
pub mod Deleted
pub mod Listing
pub mod Multipart
use telegram_s.Base.{
  ◌>>=◌, ℕ, ◌+◌, Bool, true, false, ◌&&◌, Option, none, some, List, [], ◌∷◌, ◌++◌, map, ◌==◌,
  if◌then◌else◌, any, filter, ltb,
}
use telegram_s.Base.Bytes.{Bytes, codes, equal, is_empty, less}
use telegram_s.Storage.{fault, Result, ok, err, Chunk}
use telegram_s.Metadata.Table.{is_at, order_by, delete_where}

pub record Bucket : Type 0 where
  pub name : Bytes
  pub created_at : ℕ

-- A row of `objects`; the Metadata map of the Go struct is the value that a write takes beside it.
pub record Object : Type 0 where
  pub bucket : Bytes
  pub key : Bytes
  pub size : ℕ
  pub etag : Bytes
  pub content_type : Bytes
  pub telegram_file_id : Bytes
  pub telegram_message_id : ℕ
  pub created_at : ℕ
  pub updated_at : ℕ
  pub deleted_at : Option ℕ

pub record ChunkRow : Type 0 where
  pub bucket : Bytes
  pub key : Bytes
  pub chunk : Chunk

pub record MetadataRow : Type 0 where
  pub bucket : Bytes
  pub key : Bytes
  pub name : Bytes
  pub value : Bytes

pub record MultipartUpload : Type 0 where
  pub upload_id : Bytes
  pub bucket : Bytes
  pub key : Bytes
  pub content_type : Bytes
  pub created_at : ℕ

pub record MultipartPart : Type 0 where
  pub upload_id : Bytes
  pub part_number : ℕ
  pub etag : Bytes
  pub size : ℕ

pub record PartChunkRow : Type 0 where
  pub upload_id : Bytes
  pub part_number : ℕ
  pub chunk : Chunk

pub record UploadMetadataRow : Type 0 where
  pub upload_id : Bytes
  pub name : Bytes
  pub value : Bytes

pub record Store : Type 0 where
  pub buckets : List Bucket
  pub objects : List Object
  pub object_chunks : List ChunkRow
  pub object_metadata : List MetadataRow
  pub multipart_uploads : List MultipartUpload
  pub multipart_parts : List MultipartPart
  pub multipart_part_chunks : List PartChunkRow
  pub multipart_upload_metadata : List UploadMetadataRow

abbrev pub empty_store : Store
empty_store = record {
  buckets = [];
  objects = [];
  object_chunks = [];
  object_metadata = [];
  multipart_uploads = [];
  multipart_parts = [];
  multipart_part_chunks = [];
  multipart_upload_metadata = [];
}

abbrev pub first : {A : Type 0} → List A → Option A
first [] = none
first (x ∷ xs) = some x

-- CreateBucket
unfoldable pub create_bucket : Bytes → ℕ → Store → Result Store
create_bucket name now s =
    if any (λ b. equal b.name name) s.buckets
    then err (fault 0)
    else ok (record s { buckets = s.buckets ++ record { name = name; created_at = now } ∷ [] })

-- DeleteBucket; `none` is ErrNotFound.
unfoldable pub delete_bucket : Bytes → Store → Option Store
delete_bucket name s =
    if any (λ b. equal b.name name) s.buckets
    then some (record s { buckets = delete_where (λ b. equal b.name name) s.buckets })
    else none

unfoldable pub bucket_exists : Bytes → Store → Bool
bucket_exists name s = any (λ b. equal b.name name) s.buckets

unfoldable pub list_buckets : Store → List Bucket
list_buckets s = order_by (λ a b. less a.name b.name) s.buckets

-- The row of a chunk; an empty transport is stored as "bot".
abbrev pub with_transport : Chunk → Chunk
with_transport c = record c {
  transport = if is_empty c.transport then codes "bot" else c.transport;
}

-- One INSERT into object_chunks.
unfoldable pub insert_chunk : Bytes → Bytes → Chunk → List ChunkRow → Option (List ChunkRow)
insert_chunk bucket key c rows =
    if any (λ r. is_at bucket key r.bucket r.key && r.chunk.seq == c.seq) rows
    then none
    else some (rows ++ record { bucket = bucket; key = key; chunk = with_transport c } ∷ [])

unfoldable pub insert_chunks : Bytes → Bytes → List Chunk → List ChunkRow → Option (List ChunkRow)
unfolding insert_chunk
insert_chunks bucket key [] rows = some rows
insert_chunks bucket key (c ∷ cs) rows = do
  rows' ← insert_chunk bucket key c rows
  insert_chunks bucket key cs rows'

-- replaceObjectChunksTx
unfoldable pub replace_object_chunks :
    Bytes → Bytes → List Chunk → List ChunkRow → Option (List ChunkRow)
unfolding insert_chunks
replace_object_chunks bucket key chunks rows =
    insert_chunks bucket key chunks (delete_where (λ r. is_at bucket key r.bucket r.key) rows)

-- replaceObjectMetadataTx; the names of a map are distinct.
unfoldable pub replace_object_metadata :
    Bytes → Bytes → List (Bytes × Bytes) → List MetadataRow → List MetadataRow
replace_object_metadata bucket key kv rows =
    delete_where (λ r. is_at bucket key r.bucket r.key) rows
    ++ map (λ p. record { bucket = bucket; key = key; name = p.0; value = p.1 }) kv

abbrev pub updated_row : Object → Object → Object
updated_row obj old = record old {
  size = obj.size;
  etag = obj.etag;
  content_type = obj.content_type;
  telegram_file_id = obj.telegram_file_id;
  telegram_message_id = obj.telegram_message_id;
  updated_at = obj.updated_at;
  deleted_at = none;
}

-- upsertObjectRowTx
unfoldable pub upsert_object_row : Object → List Object → List Object
upsert_object_row obj [] = record obj { deleted_at = none } ∷ []
upsert_object_row obj (r ∷ rs) =
    let rest = upsert_object_row obj rs in
    if is_at obj.bucket obj.key r.bucket r.key then updated_row obj r ∷ rs else r ∷ rest

-- The time stamps that a write sets; a creation time of 0 is the zero time.
abbrev pub stamped : ℕ → Object → Object
stamped now obj = record obj {
  created_at = if obj.created_at == 0 then now else obj.created_at;
  updated_at = now;
}

-- PutObject
unfoldable pub put_object : ℕ → Object → List (Bytes × Bytes) → List Chunk → Store → Result Store
unfolding upsert_object_row replace_object_chunks replace_object_metadata
put_object now obj kv chunks s =
    elim (replace_object_chunks obj.bucket obj.key chunks s.object_chunks) [
      | none ↦ err (fault 1)
      | some rows ↦ ok (record s {
        objects = upsert_object_row (stamped now obj) s.objects;
        object_chunks = rows;
        object_metadata = replace_object_metadata obj.bucket obj.key kv s.object_metadata;
      })
    ]

-- GetObject; `none` is ErrNotFound.
unfoldable pub get_object : Bytes → Bytes → Store → Option Object
get_object bucket key s = first (
    filter
      (λ o. is_at bucket key o.bucket o.key && elim o.deleted_at [ none ↦ true | some t ↦ false ])
      s.objects)

unfoldable pub get_object_metadata : Bytes → Bytes → Store → List (Bytes × Bytes)
get_object_metadata bucket key s =
    map (λ r. (r.name, r.value)) (filter (λ r. is_at bucket key r.bucket r.key) s.object_metadata)

-- GetObjectChunks: ORDER BY part_seq
unfoldable pub get_object_chunks : Bytes → Bytes → Store → List Chunk
get_object_chunks bucket key s =
    order_by (λ a b. ltb a.seq b.seq)
      (map (λ r. r.chunk) (filter (λ r. is_at bucket key r.bucket r.key) s.object_chunks))

-- DeleteObject
unfoldable pub delete_object : Bytes → Bytes → Store → Store
delete_object bucket key s = record s {
  object_chunks = delete_where (λ r. is_at bucket key r.bucket r.key) s.object_chunks;
  object_metadata = delete_where (λ r. is_at bucket key r.bucket r.key) s.object_metadata;
  objects = delete_where (λ r. is_at bucket key r.bucket r.key) s.objects;
}

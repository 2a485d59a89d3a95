-- ===== src/S3api/Write.antt =====
-- internal/s3api/handler.go: `putObject`, `deleteOneObject` and what they call. A Telegram clean-up
-- that fails is only logged. `etag_of` is the hex of the MD5 sum.
pub mod Stored
pub mod RoundTrip
pub mod Failed
use telegram_s.Base.{ℕ, not, Option, none, some, List, [], ◌∷◌, map, ◌==◌, if◌then◌else◌, length}
use telegram_s.Base.Bytes.{Bytes, codes, is_empty}
use telegram_s.Base.Int.{pos, negsuc, parse_int}
use telegram_s.Storage.{Error, malformed_chunked, Result, ok, err, Chunk, ref_of}
use telegram_s.Mtproto.Api.{Telegram}
use telegram_s.Mtproto.Delete.{delete_batch}
use telegram_s.Mtproto.Pool.{Remote}
use telegram_s.Mtproto.Split.{Body}
use telegram_s.Mtproto.Upload.{Options, upload_body}
use telegram_s.Metadata.{
  Store, Object, bucket_exists, get_object, get_object_chunks, put_object, delete_object,
}
use telegram_s.S3api.Chunked.{is_aws_chunked, decode}

-- What the handler reads of a request without x-amz-copy-source; `metadata` is what
-- captureObjectMetadata takes from the headers.
pub record PutRequest : Type 0 where
  pub content_type : Bytes
  pub content_encoding : Bytes
  pub content_sha256 : Bytes
  pub decoded_length : Bytes
  pub metadata : List (Bytes × Bytes)
  pub body : Body

pub data PutResponse : Type 0 where
  no_such_bucket : PutResponse
  incomplete_body : PutResponse
  invalid_argument : PutResponse
  upload_failed : Error → PutResponse
  internal_error : PutResponse
  created : Bytes → PutResponse

-- decodeUpload
unfoldable pub decode_upload : PutRequest → Body
decode_upload req =
    if is_aws_chunked req.content_encoding req.content_sha256 then decode req.body else req.body

-- validateDecodedSize: `none` is a size that is right.
unfoldable pub validate_decoded_size : Bytes → ℕ → Option PutResponse
validate_decoded_size declared got =
    if is_empty declared then none else elim (parse_int 10 declared) [
      | none ↦ some invalid_argument
      | some z ↦ elim z [
        | negsuc n ↦ some invalid_argument
        | pos want ↦ if want == got then none else some incomplete_body
      ]
    ]

-- The answer to an upload that failed.
abbrev pub upload_error : Error → PutResponse
upload_error malformed_chunked = incomplete_body
upload_error e = upload_failed e

abbrev pub first_message : List Chunk → ℕ
first_message [] = 0
first_message (c ∷ cs) = c.message_id

abbrev pub first_file : List Chunk → Bytes
first_file [] = []
first_file (c ∷ cs) = c.file_id

module _ (t : Telegram) (o : Options) where
  open t use {Channel}

  -- deleteChunks and reapSupersededChunks: a best-effort DeleteBatch, if there is anything to delete.
  unfoldable pub reap : List Chunk → Remote Channel → Remote Channel
  reap [] r = r
  reap (c ∷ cs) r = (delete_batch t o.bots o.visit (map ref_of (c ∷ cs)) r).1

  module _ (etag_of : Bytes → Bytes) (now : ℕ) (bucket key : Bytes) where
    abbrev pub new_object : PutRequest → Bytes → List Chunk → Object
    new_object req payload chunks = record {
      bucket = bucket;
      key = key;
      size = length payload;
      etag = etag_of payload;
      content_type =
          if is_empty req.content_type then codes "application/octet-stream" else req.content_type;
      telegram_file_id = first_file chunks;
      telegram_message_id = first_message chunks;
      created_at = 0;
      updated_at = 0;
      deleted_at = none;
    }

    abbrev pub Outcome : Type 0
    Outcome = PutResponse × Store × Remote Channel

    unfoldable pub put_stored : List Chunk → Bytes → Store → Remote Channel → Result Store → Outcome
    put_stored chunks etag s r (err e) = (internal_error, s, reap chunks r)
    put_stored chunks etag s r (ok s') = (created etag, s', reap (get_object_chunks bucket key s) r)

    unfoldable pub put_sized :
        PutRequest → Bytes → List Chunk → Store → Remote Channel → Option PutResponse → Outcome
    unfolding put_stored
    put_sized req payload chunks s r (some response) = (response, s, reap chunks r)
    put_sized req payload chunks s r none =
        put_stored chunks (etag_of payload) s r
          (put_object now (new_object req payload chunks) req.metadata chunks s)

    unfoldable pub put_uploaded :
        PutRequest → Bytes → Store → Result (List Chunk) × Remote Channel → Outcome
    unfolding put_sized
    put_uploaded req payload s (err e, r) = (upload_error e, s, r)
    put_uploaded req payload s (ok chunks, r) =
        put_sized req payload chunks s r (validate_decoded_size req.decoded_length (length payload))

    -- putObject; the content type of the upload is that of the object.
    unfoldable pub put_object_handler : PutRequest → Store → Remote Channel → Outcome
    unfolding put_uploaded decode_upload
    put_object_handler req s r =
        if not (bucket_exists bucket s)
        then (no_such_bucket, s, r)
        else put_uploaded req (decode_upload req).bytes s
            (upload_body t o key (new_object req [] []).content_type (decode_upload req) r)

  -- deleteOneObject
  unfoldable pub delete_one_object : Bytes → Bytes → Store → Remote Channel → Store × Remote Channel
  unfolding reap
  delete_one_object bucket key s r = elim (get_object bucket key s) [
    | none ↦ (s, r)
    | some obj ↦ (delete_object bucket key s, reap (get_object_chunks bucket key s) r)
  ]

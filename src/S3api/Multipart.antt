-- ===== src/S3api/Multipart.antt =====
-- internal/s3api/multipart.go: the handlers of multipart uploads. `etag_of` is the hex of the MD5
-- sum; the identifier of a new upload and the decoded XML of a request are arguments.
pub mod Assembled
pub mod Refusal
pub mod Ended
pub mod Uploaded
pub mod Loop
pub mod Accepted
use telegram_s.Base.{
  ◌>>=◌, ℕ, ◌+◌, not, ◌&&◌, ◌⊎◌, inl, inr, Option, none, some, List, [], ◌∷◌, ◌++◌, leb,
  if◌then◌else◌, length, reverse,
}
use telegram_s.Base.Bytes.{Bytes, codes, equal, is_empty}
use telegram_s.Base.Int.{pos, negsuc, parse_int}
use telegram_s.Storage.{Result, ok, err, Chunk}
use telegram_s.Mtproto.Api.{Telegram}
use telegram_s.Mtproto.Pool.{Remote}
use telegram_s.Mtproto.Upload.{Options, upload_body}
use telegram_s.Metadata.{Store, Object, MultipartUpload, bucket_exists, get_object_chunks}
use telegram_s.Metadata.Multipart.{
  create_multipart_upload, get_multipart_upload, get_multipart_part_chunks, put_multipart_part,
  list_multipart_parts, all_multipart_chunks, put_multipart_upload_metadata,
  get_multipart_upload_metadata, delete_multipart_upload, finalize_multipart_upload,
}
use telegram_s.S3api.Write.{
  PutRequest, PutResponse, no_such_bucket, invalid_argument, internal_error, created, decode_upload,
  validate_decoded_size, upload_error, first_file, first_message, reap,
}
use telegram_s.S3api.Assembly.{
  MultipartResponse, put_answer, no_such_upload, malformed_xml, completed, initiated, listed,
  no_content, CompletePart, decimal_digits, Assembly, assemble, start_assembly,
}

-- createMultipartUpload
unfoldable pub create_upload_handler :
    ℕ → Bytes → Bytes → Bytes → Bytes → List (Bytes × Bytes) → Store → MultipartResponse × Store
create_upload_handler now upload_id bucket key content_type kv s =
    let content_type =
      if is_empty content_type then codes "application/octet-stream" else content_type in
    if not (bucket_exists bucket s)
    then (put_answer no_such_bucket, s)
    else elim (create_multipart_upload now upload_id bucket key content_type s) [
      | err e ↦ (put_answer internal_error, s)
      | ok s' ↦ (initiated upload_id, put_multipart_upload_metadata upload_id kv s')
    ]

-- resolveUpload; `none` is NoSuchUpload.
unfoldable pub resolve_upload : Bytes → Bytes → Bytes → Store → Option MultipartUpload
resolve_upload bucket key upload_id s = do
  u ← get_multipart_upload upload_id s
  if equal u.bucket bucket && equal u.key key then some u else none

-- The part number of an upload request.
unfoldable pub part_number_of : Bytes → Option ℕ
part_number_of text = elim (parse_int 10 text) [
  | none ↦ none
  | some z ↦ elim z [ negsuc n ↦ none | pos n ↦ if leb 1 n && leb n 10000 then some n else none ]
]

-- abortUploadInternal
unfoldable pub abort_upload_internal :
    (t : Telegram) (o : Options)
    → Bytes
    → Store
    → Remote (Telegram.Channel t)
    → Store × Remote (Telegram.Channel t)
abort_upload_internal t o upload_id s r =
    (delete_multipart_upload upload_id s, reap t o (all_multipart_chunks upload_id s) r)

module _ (t : Telegram) (o : Options) (etag_of : Bytes → Bytes) (now : ℕ)
    (bucket key upload_id : Bytes) where
  open t use {Channel}

  abbrev pub PartOutcome : Type 0
  PartOutcome = MultipartResponse × Store × Remote Channel

  -- uploadPart without x-amz-copy-source
  unfoldable pub part_stored :
      Bytes → ℕ → List Chunk → Store → Remote Channel → Result Store → PartOutcome
  part_stored etag n chunks s r (err e) = (put_answer internal_error, s, reap t o chunks r)
  part_stored etag n chunks s r (ok s') =
      (put_answer (created etag), s', reap t o (get_multipart_part_chunks upload_id n s) r)

  unfoldable pub part_sized :
      Bytes → ℕ → List Chunk → Store → Remote Channel → Option PutResponse → PartOutcome
  unfolding part_stored
  part_sized payload n chunks s r (some response) = (put_answer response, s, reap t o chunks r)
  part_sized payload n chunks s r none =
      part_stored (etag_of payload) n chunks s r
        (put_multipart_part upload_id n (etag_of payload) (length payload) chunks s)

  unfoldable pub part_uploaded :
      PutRequest → Bytes → ℕ → Store → Result (List Chunk) × Remote Channel → PartOutcome
  unfolding part_sized
  part_uploaded req payload n s (err e, r) = (put_answer (upload_error e), s, r)
  part_uploaded req payload n s (ok chunks, r) =
      part_sized payload n chunks s r (validate_decoded_size req.decoded_length (length payload))

  unfoldable pub part_resolved :
      PutRequest → Store → Remote Channel → Option ℕ → Option MultipartUpload → PartOutcome
  unfolding part_uploaded
  part_resolved req s r none u = (put_answer invalid_argument, s, r)
  part_resolved req s r (some n) none = (no_such_upload, s, r)
  part_resolved req s r (some n) (some u) =
      part_uploaded req (decode_upload req).bytes n s
        (upload_body t o key u.content_type (decode_upload req) r)

  unfoldable pub upload_part : Bytes → PutRequest → Store → Remote Channel → PartOutcome
  unfolding part_resolved
  upload_part part_number req s r =
      part_resolved req s r (part_number_of part_number) (resolve_upload bucket key upload_id s)

  -- The object of a completed upload.
  abbrev pub assembled_object : MultipartUpload → ℕ → Assembly → Object
  assembled_object u parts a = record {
    bucket = bucket;
    key = key;
    size = a.total_size;
    etag = etag_of a.md5_concat ++ b'-' ∷ reverse (decimal_digits parts);
    content_type = u.content_type;
    telegram_file_id = first_file a.final_chunks;
    telegram_message_id = first_message a.final_chunks;
    created_at = 0;
    updated_at = 0;
    deleted_at = none;
  }

  unfoldable pub finish_stored : Bytes → Store → Remote Channel → Result Store → PartOutcome
  finish_stored etag s r (err e) = (put_answer internal_error, s, r)
  finish_stored etag s r (ok s') = (completed etag, s', reap t o (get_object_chunks bucket key s) r)

  unfoldable pub finish_complete :
      MultipartUpload → ℕ → Store → Remote Channel → MultipartResponse ⊎ Assembly → PartOutcome
  unfolding finish_stored
  finish_complete u parts s r (inl response) = (response, s, r)
  finish_complete u parts s r (inr a) = finish_stored (assembled_object u parts a).etag s r (
      finalize_multipart_upload now (assembled_object u parts a)
        (get_multipart_upload_metadata upload_id s) a.final_chunks upload_id s)

  unfoldable pub complete_resolved :
      Option (List CompletePart) → Store → Remote Channel → Option MultipartUpload → PartOutcome
  unfolding finish_complete assemble
  complete_resolved req s r none = (no_such_upload, s, r)
  complete_resolved none s r (some u) = (malformed_xml, s, r)
  complete_resolved (some []) s r (some u) = (malformed_xml, s, r)
  complete_resolved (some (cp ∷ cps)) s r (some u) =
      finish_complete u (length (cp ∷ cps)) s r
        (assemble upload_id s (list_multipart_parts upload_id s) (cp ∷ cps) start_assembly)

  -- completeMultipartUpload; a request without a decoded body is one whose XML does not parse.
  unfoldable pub complete_multipart_upload :
      Option (List CompletePart) → Store → Remote Channel → PartOutcome
  unfolding complete_resolved resolve_upload
  complete_multipart_upload req s r =
      complete_resolved req s r (resolve_upload bucket key upload_id s)

  -- abortMultipartUpload
  unfoldable pub abort_multipart_upload : Store → Remote Channel → PartOutcome
  unfolding abort_upload_internal
  abort_multipart_upload s r = elim (resolve_upload bucket key upload_id s) [
    | none ↦ (no_such_upload, s, r)
    | some u ↦ (
      no_content,
      (abort_upload_internal t o upload_id s r).0,
      (abort_upload_internal t o upload_id s r).1,
    )
  ]

-- listParts
unfoldable pub list_parts_handler : Bytes → Bytes → Bytes → Store → MultipartResponse
list_parts_handler bucket key upload_id s = elim (resolve_upload bucket key upload_id s) [
  | none ↦ no_such_upload
  | some u ↦ listed (list_multipart_parts upload_id s)
]

-- ===== src/S3api/Copy.antt =====
-- internal/s3api/copy.go, and `openObject` of handler.go. The bytes of the source are those that the
-- prefetch reader delivers, while the copy is uploaded as further messages of the same channel.
pub mod Copied
use telegram_s.Base.{
  ℕ, ◌+◌, ◌-◌, Bool, ◌||◌, Option, none, some, List, [], leb, ◌==◌, if◌then◌else◌, length, take,
  drop,
}
use telegram_s.Base.Bytes.{Bytes, codes, is_empty, index_byte, trim_prefix, equal_fold}
use telegram_s.Storage.{Error, Result, ok, err, Chunk}
use telegram_s.Reader.Source.{ChunkLoc, BotSource, Download, chunk, chunk_size}
use telegram_s.Reader.Buffer.{Status, more, eof, failed, Reader, prime, copy}
use telegram_s.Reader.Plan.{open_reader}
use telegram_s.Mtproto.Api.{Telegram}
use telegram_s.Mtproto.Pool.{Remote}
use telegram_s.Mtproto.Split.{Body}
use telegram_s.Mtproto.Upload.{Options, upload_body}
use telegram_s.Metadata.{
  Store, Object, MultipartUpload, get_object, get_object_chunks, get_object_metadata, put_object,
}
use telegram_s.Metadata.Multipart.{get_multipart_part_chunks, put_multipart_part}
use telegram_s.S3api.Range.{
  HttpRange, RangeResult, not_a_range, unsatisfiable, satisfiable, parse_byte_range,
}
use telegram_s.S3api.Read.{copy_buffer, plan_read}
use telegram_s.S3api.Write.{reap, first_file, first_message}
use telegram_s.S3api.Uri.{path_unescape}

-- What the handlers read of a request with x-amz-copy-source; `metadata` is what
-- captureObjectMetadata takes from the headers.
pub record CopyRequest : Type 0 where
  pub copy_source : Bytes
  pub copy_source_range : Bytes
  pub metadata_directive : Bytes
  pub content_type : Bytes
  pub metadata : List (Bytes × Bytes)

pub data CopyResponse : Type 0 where
  invalid_source : CopyResponse
  no_such_key : CopyResponse
  invalid_range : CopyResponse
  download_failed : Error → CopyResponse
  upload_failed : Error → CopyResponse
  internal_error : CopyResponse
  copied : Bytes → CopyResponse

-- What stands before the first `c`.
abbrev pub cut_before : ℕ → Bytes → Bytes
cut_before c s = elim (index_byte c s) [ none ↦ s | some i ↦ take i s ]

-- A segment that does not unescape is taken as it is.
abbrev pub unescaped : Bytes → Bytes
unescaped s = elim (path_unescape s) [ none ↦ s | some u ↦ u ]

abbrev pub named_source : Bytes → Bytes → Option (Bytes × Bytes)
named_source bucket key = if is_empty bucket || is_empty key then none else some (bucket, key)

split_source : Bytes → Option ℕ → Option (Bytes × Bytes)
split_source raw none = none
split_source raw (some slash) =
    if slash == 0 || slash + 1 == length raw
    then none
    else named_source (unescaped (take slash raw)) (unescaped (drop (slash + 1) raw))

-- parseCopySource
unfoldable pub parse_copy_source : Bytes → Option (Bytes × Bytes)
unfolding split_source
parse_copy_source header =
    let raw = trim_prefix (cut_before b'?' header) (codes "/") in
    if is_empty header then none else split_source raw (index_byte b'/' raw)

-- The bytes that a reader yields, and how they end.
abbrev pub body_of : Bytes → Status → Body
body_of bytes (failed e) = record { bytes = bytes; error = some e }
body_of bytes _ = record { bytes = bytes; error = none }

primed_body : ℕ → Status × Reader → Result Body
primed_body fuel (failed e, r) = err e
primed_body fuel (more, r) = let (b, s) = copy fuel copy_buffer r in ok (body_of b s)
primed_body fuel (eof, r) = let (b, s) = copy fuel copy_buffer r in ok (body_of b s)

module _ (download : Download) (stream_chunk_size : ℕ) where
  open_planned : Object → List ChunkLoc × ℕ × ℕ → Result Body
  unfolding primed_body
  open_planned obj (locs, start, end) =
      let src : BotSource = record {
        obj_size = obj.size;
        locs = locs;
        chunk_size = stream_chunk_size;
      } in
      if leb end start
      then ok (record { bytes = []; error = none })
      else primed_body (end - start + 1)
          (prime (open_reader (chunk download src) (chunk_size src) start end))

  -- openObject
  unfoldable pub open_object : Object → List Chunk → Option HttpRange → Result Body
  unfolding open_planned plan_read
  open_object obj chunks rng = open_planned obj (plan_read obj chunks rng)

abbrev pub replaces : CopyRequest → Bool
replaces req = equal_fold req.metadata_directive (codes "REPLACE")

abbrev pub copy_content_type : CopyRequest → Object → Bytes
copy_content_type req src =
    if replaces req
    then (if is_empty req.content_type then src.content_type else req.content_type)
    else src.content_type

abbrev pub copy_metadata : CopyRequest → Bytes → Bytes → Store → List (Bytes × Bytes)
copy_metadata req bucket key s =
    if replaces req then req.metadata else get_object_metadata bucket key s

module _ (t : Telegram) (o : Options) (download : Download) (stream_chunk_size : ℕ)
    (etag_of : Bytes → Bytes) where
  open t use {Channel}

  abbrev pub CopyOutcome : Type 0
  CopyOutcome = CopyResponse × Store × Remote Channel

  module _ (now : ℕ) (bucket key : Bytes) where
    abbrev pub copied_object : Bytes → Bytes → List Chunk → Object
    copied_object content_type payload chunks = record {
      bucket = bucket;
      key = key;
      size = length payload;
      etag = etag_of payload;
      content_type = content_type;
      telegram_file_id = first_file chunks;
      telegram_message_id = first_message chunks;
      created_at = 0;
      updated_at = 0;
      deleted_at = none;
    }

    unfoldable pub copy_stored :
        Bytes → List Chunk → Store → Remote Channel → Result Store → CopyOutcome
    copy_stored etag chunks s r (err e) = (internal_error, s, reap t o chunks r)
    copy_stored etag chunks s r (ok s') =
        (copied etag, s', reap t o (get_object_chunks bucket key s) r)

    unfoldable pub copy_uploaded :
        Bytes
        → List (Bytes × Bytes)
        → Bytes
        → Store
        → Result (List Chunk) × Remote Channel
        → CopyOutcome
    unfolding copy_stored
    copy_uploaded content_type meta payload s (err e, r) = (upload_failed e, s, r)
    copy_uploaded content_type meta payload s (ok chunks, r) =
        copy_stored (etag_of payload) chunks s r
          (put_object now (copied_object content_type payload chunks) meta chunks s)

    unfoldable pub copy_opened :
        Bytes → List (Bytes × Bytes) → Store → Remote Channel → Result Body → CopyOutcome
    unfolding copy_uploaded
    copy_opened content_type meta s r (err e) = (download_failed e, s, r)
    copy_opened content_type meta s r (ok body) =
        copy_uploaded content_type meta body.bytes s (upload_body t o key content_type body r)

    unfoldable pub copy_loaded :
        CopyRequest → Bytes → Bytes → Store → Remote Channel → Option Object → CopyOutcome
    unfolding copy_opened
    copy_loaded req src_bucket src_key s r none = (no_such_key, s, r)
    copy_loaded req src_bucket src_key s r (some src) =
        copy_opened (copy_content_type req src) (copy_metadata req src_bucket src_key s) s r
          (open_object download stream_chunk_size src (get_object_chunks src_bucket src_key s) none)

    unfoldable pub copy_parsed :
        CopyRequest → Store → Remote Channel → Option (Bytes × Bytes) → CopyOutcome
    unfolding copy_loaded
    copy_parsed req s r none = (invalid_source, s, r)
    copy_parsed req s r (some (src_bucket, src_key)) =
        copy_loaded req src_bucket src_key s r (get_object src_bucket src_key s)

    -- copyObject
    unfoldable pub copy_object : CopyRequest → Store → Remote Channel → CopyOutcome
    unfolding copy_parsed
    copy_object req s r = copy_parsed req s r (parse_copy_source req.copy_source)

  module _ (u : MultipartUpload) (part : ℕ) where
    unfoldable pub part_copy_stored :
        Bytes → List Chunk → Store → Remote Channel → Result Store → CopyOutcome
    part_copy_stored etag chunks s r (err e) = (internal_error, s, reap t o chunks r)
    part_copy_stored etag chunks s r (ok s') =
        (copied etag, s', reap t o (get_multipart_part_chunks u.upload_id part s) r)

    unfoldable pub part_copy_uploaded :
        Bytes → Store → Result (List Chunk) × Remote Channel → CopyOutcome
    unfolding part_copy_stored
    part_copy_uploaded payload s (err e, r) = (upload_failed e, s, r)
    part_copy_uploaded payload s (ok chunks, r) =
        part_copy_stored (etag_of payload) chunks s r
          (put_multipart_part u.upload_id part (etag_of payload) (length payload) chunks s)

    unfoldable pub part_copy_opened : Store → Remote Channel → Result Body → CopyOutcome
    unfolding part_copy_uploaded
    part_copy_opened s r (err e) = (download_failed e, s, r)
    part_copy_opened s r (ok body) =
        part_copy_uploaded body.bytes s (upload_body t o u.key u.content_type body r)

    unfoldable pub part_copy_ranged :
        Object → List Chunk → Store → Remote Channel → RangeResult → CopyOutcome
    unfolding part_copy_opened
    part_copy_ranged src chunks s r not_a_range = (invalid_range, s, r)
    part_copy_ranged src chunks s r unsatisfiable = (invalid_range, s, r)
    part_copy_ranged src chunks s r (satisfiable rng) =
        part_copy_opened s r (open_object download stream_chunk_size src chunks (some rng))

    unfoldable pub part_copy_loaded :
        CopyRequest → List Chunk → Store → Remote Channel → Option Object → CopyOutcome
    unfolding part_copy_ranged
    part_copy_loaded req chunks s r none = (no_such_key, s, r)
    part_copy_loaded req chunks s r (some src) =
        if is_empty req.copy_source_range
        then part_copy_opened s r (open_object download stream_chunk_size src chunks none)
        else part_copy_ranged src chunks s r (parse_byte_range req.copy_source_range src.size)

    unfoldable pub part_copy_parsed :
        CopyRequest → Store → Remote Channel → Option (Bytes × Bytes) → CopyOutcome
    unfolding part_copy_loaded
    part_copy_parsed req s r none = (invalid_source, s, r)
    part_copy_parsed req s r (some (src_bucket, src_key)) =
        part_copy_loaded req (get_object_chunks src_bucket src_key s) s r
          (get_object src_bucket src_key s)

    -- uploadPartCopy
    unfoldable pub upload_part_copy : CopyRequest → Store → Remote Channel → CopyOutcome
    unfolding part_copy_parsed
    upload_part_copy req s r = part_copy_parsed req s r (parse_copy_source req.copy_source)

-- ===== src/Tests/Handlers.antt =====
-- The handlers on a small store and channel.
use telegram_s.Base.{ℕ, ◌+◌, ◌≡◌, ◌≢◌, refl, false, none, some, [], ◌∷◌, arith, elim-some}
use telegram_s.Base.Bytes.{Bytes, codes, equal, index}
use telegram_s.Base.Int.{parse_int}
use telegram_s.Base.Slices.{slice}
use telegram_s.Storage.{fault, ok, err}
use telegram_s.Mtproto.Pool.{Remote, pick}
use telegram_s.Mtproto.Response.{extract_message_id, inspect_document_size}
use telegram_s.Mtproto.Split.{copy_limit}
use telegram_s.Mtproto.Upload.{Options, upload_body, upload_chunk, verify_uploaded_size}
use telegram_s.Metadata.{
  Store, Object, empty_store, bucket_exists, put_object, get_object, get_object_chunks,
}
use telegram_s.Metadata.Table.{is_at, order_by}
use telegram_s.S3api.Write.{
  PutRequest, PutResponse, created, incomplete_body, put_object_handler, validate_decoded_size,
  decode_upload, delete_one_object,
}
use telegram_s.S3api.Write.RoundTrip.{Holds, ReadsBack, put_object_handler-Holds, put_then_get}
use telegram_s.S3api.Write.Failed.{put_object_handler-failed, delete_one_object-view}
use telegram_s.S3api.Write.Stored.{hits, AreHeld}
use telegram_s.Metadata.Objects.{view}
use telegram_s.S3api.Chunked.{is_aws_chunked}
use telegram_s.S3api.Read.{get_object_handler}
use telegram_s.S3api.Read.Served.{answer, asked}
use telegram_s.S3api.Conditions.{Headers, conditional_status}
use telegram_s.Reader.Source.{Download}
use telegram_s.Tests.Channel.{Channel, memory, memory_laws, doc}

abbrev pub options : Options
options = record { bots = 2; chunk_size = 3; visit = λ gs. gs; filename = λ name seq. name }

abbrev pub request : PutRequest
request = record {
  content_type = [];
  content_encoding = [];
  content_sha256 = codes "UNSIGNED-PAYLOAD";
  decoded_length = codes "5";
  metadata = [];
  body = record { bytes = codes "hello"; error = none };
}

abbrev pub store : Store
store = record empty_store { buckets = record { name = codes "b"; created_at = 1 } ∷ [] }

abbrev pub remote : Remote Channel
remote = record { channel = []; stream_idx = 0; upload_idx = 0 }

abbrev pub after : PutResponse × Store × Remote Channel
after = put_object_handler memory options (λ d. d) 7 (codes "b") (codes "k") request store remote

created_after : after.0 ≡ created (codes "hello")
unfolding put_object_handler bucket_exists equal upload_body is_aws_chunked index copy_limit
    upload_chunk extract_message_id verify_uploaded_size pick inspect_document_size
    validate_decoded_size parse_int put_object is_at
created_after = refl

pub put_after :
    put_object_handler memory options (λ d. d) 7 (codes "b") (codes "k") request store remote
    ≡ (created (codes "hello"), after.1, after.2)
put_after i = (created_after i, after.1, after.2)

abbrev pub memory_download : Channel → Download
memory_download c ref off len = elim (doc c ref.message_id) [
  | none ↦ err (fault 9)
  | some d ↦ ok (slice off (off + len) d)
]

pub memory_reads : (c : Channel) → ReadsBack memory memory_laws c (memory_download c)
memory_reads c ref off len d h pos fits = elim-some _ _ (doc c ref.message_id) h

abbrev pub headers : Headers
headers = record {
  range = codes "bytes=1-3";
  if_range = [];
  if_match = [];
  if_none_match = [];
  if_modified_since = [];
  if_unmodified_since = [];
}

no_conditions : (obj : Object) → conditional_status (λ s. none) headers obj ≡ 0
unfolding conditional_status
no_conditions obj = refl

pub nothing_held :
    AreHeld memory memory_laws options
      (λ gs p. refl)
      remote.channel
      (get_object_chunks (codes "b") (codes "k") store)
unfolding get_object_chunks order_by
nothing_held = tt

put_then_get_example :
    (obj : Object) × (get_object (codes "b") (codes "k") after.1 ≡ some obj)
    × (obj.etag ≡ (decode_upload request).bytes)
    × (get_object_handler
          (memory_download after.2.channel)
          4
          (λ s. none)
          headers
          (codes "b")
          (codes "k")
          after.1
        ≡ answer (decode_upload request).bytes (asked (λ s. none) headers obj))
put_then_get_example =
    put_then_get memory memory_laws options (λ d. d) 7 (codes "b") (codes "k") request store after.1
      remote after.2 (codes "hello") (λ gs p. refl) (memory_download after.2.channel) 4 (λ s. none)
      headers (omega arith) nothing_held put_after (memory_reads after.2.channel)
      (λ obj h. no_conditions obj)

put_object_handler-Holds_example :
    ((decode_upload request).error ≡ none)
    × (codes "hello" ≡ (decode_upload request).bytes)
    × Holds memory memory_laws 3
        (codes "b")
        (codes "k")
        (decode_upload request).bytes
        (codes "hello")
        after.1
        after.2.channel
    × ((b k : Bytes)
        → is_at b k (codes "b") (codes "k") ≡ false
        → view b k after.1 ≡ view b k store)
put_object_handler-Holds_example =
    put_object_handler-Holds memory memory_laws options (λ d. d) 7 (codes "b") (codes "k") request
      store after.1 remote after.2 (codes "hello") (λ gs p. refl) (omega arith) nothing_held
      put_after

-- A request that declares more bytes than it brings, to a channel that holds a message.
abbrev short_request : PutRequest
short_request = record request { decoded_length = codes "9" }

abbrev older : Remote Channel
older = record remote { channel = some (codes "old") ∷ [] }

abbrev refused : PutResponse × Store × Remote Channel
refused =
    put_object_handler memory options (λ d. d) 7 (codes "b") (codes "k") short_request store older

refused_response : refused.0 ≡ incomplete_body
unfolding put_object_handler bucket_exists equal upload_body is_aws_chunked index copy_limit
    upload_chunk extract_message_id verify_uploaded_size pick inspect_document_size
    validate_decoded_size parse_int
refused_response = refl

put_object_handler-failed_example :
    (refused.1 ≡ store) × (doc refused.2.channel 0 ≡ some (codes "old"))
put_object_handler-failed_example =
    put_object_handler-failed memory memory_laws options (λ d. d) 7 (codes "b") (codes "k")
      short_request store refused.1 older refused.2 incomplete_body 0 (codes "old") (λ gs p. refl)
      (λ i. (refused_response i, refused.1, refused.2)) refl refl

delete_one_object-view_example :
    (get_object (codes "b") (codes "k") after.1 ≡ none
      → delete_one_object memory options (codes "b") (codes "k") after.1 after.2
        ≡ (after.1, after.2))
    × (get_object (codes "b") (codes "k") after.1 ≢ none
        → (view
              (codes "b")
              (codes "k")
              (delete_one_object memory options (codes "b") (codes "k") after.1 after.2).0
            ≡ (none, [], []))
          × ((b k : Bytes)
              → is_at b k (codes "b") (codes "k") ≡ false
              → view b k
                  (delete_one_object memory options (codes "b") (codes "k") after.1 after.2).0
                ≡ view b k after.1)
          × ((j : ℕ)
              → hits j (get_object_chunks (codes "b") (codes "k") after.1) ≡ false
              → doc
                  (delete_one_object memory options
                    (codes "b")
                    (codes "k")
                    after.1
                    after.2).1.channel
                  j
                ≡ doc after.2.channel j))
delete_one_object-view_example =
    delete_one_object-view memory memory_laws options (codes "b") (codes "k") after.1 after.2
      (λ gs p. refl)

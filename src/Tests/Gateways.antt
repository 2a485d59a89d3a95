-- ===== src/Tests/Gateways.antt =====
-- Bulk deletions and whole gateways on a small store and channel.
use telegram_s.Base.{
  ℕ, ◌≤◌, ◌<◌, ◌⊎◌, ◌+◌, ◌*◌, ◌^◌, ◌≡◌, refl, true, false, none, some, Option, [], ◌∷◌, arith,
  length, All, any, if◌then◌else◌,
}
use telegram_s.Base.Bytes.{Bytes, codes, equal, less, index, index_byte, trim_prefix}
use telegram_s.Base.Int.{parse_int}
use telegram_s.Mtproto.Pool.{Remote, pick}
use telegram_s.Mtproto.Response.{extract_message_id, inspect_document_size}
use telegram_s.Mtproto.Split.{copy_limit}
use telegram_s.Mtproto.Upload.{upload_body, upload_chunk, verify_uploaded_size}
use telegram_s.Metadata.{
  Store, Object, empty_store, bucket_exists, create_bucket, put_object, get_object,
}
use telegram_s.Metadata.Objects.{view}
use telegram_s.Metadata.Table.{is_at}
use telegram_s.S3api.Write.{put_object_handler, validate_decoded_size}
use telegram_s.S3api.Chunked.{is_aws_chunked}
use telegram_s.S3api.Read.{get_object_handler}
use telegram_s.S3api.Read.Served.{answer, asked}
use telegram_s.S3api.Conditions.{Headers, conditional_status}
use telegram_s.S3api.Uri.{path_unescape, aws_uri_encode, path_unescape-aws_uri_encode}
use telegram_s.S3api.Bulk.{
  DeleteRequest, DeleteResponse, deleted, delete_objects, sweep_stale_uploads,
}
use telegram_s.S3api.Bulk.Gone.{delete_objects-gone}
use telegram_s.S3api.Bulk.Swept.{is_among, Spares, sweep_stale_uploads-swept}
use telegram_s.Base.Time.{rfc3339_nano}
use telegram_s.Metadata.Multipart.{is_earlier, stale_multipart_uploads}
use telegram_s.Metadata.Multipart.Parts.{upload_view}
use telegram_s.S3api.Router.{put, delete, forbidden, route, get_value, has}
use telegram_s.S3api.Router
use telegram_s.S3api.Router.Public.{is_public, route-public}
use telegram_s.S3api.Service.{Gateway, Call, serve_http, request, Reach, here, next}
use telegram_s.S3api.Service.Good.{IsGood}
use telegram_s.S3api.Service.Invariant.{Reach-IsGood}
use telegram_s.S3api.Service.Unsigned.{serve_http-unsigned}
use telegram_s.S3api.Service.Readable.{IsGood-empty, Reach-readable}
use telegram_s.Tests.Copies.{no_copy}
use telegram_s.Tests.Channel.{Channel, memory, memory_laws, doc}
use telegram_s.Tests.Handlers.{options, remote, memory_download, memory_reads}
use telegram_s.Tests.Handlers

abbrev gateway : Gateway memory
gateway = record {
  options = options;
  etag_of = λ d. d;
  download = memory_download;
  stream_chunk_size = 4;
  endpoint_host = [];
  authorized = λ req. true;
}

-- PUT /b
abbrev put_bucket : Call
put_bucket = record {
  http = record { method = put; host = codes "h"; path = codes "/b"; query = [] };
  now = 1;
  new_id = [];
  content = Handlers.request;
  copy = no_copy;
  deletes = none;
  parts = none;
}

-- PUT /b/k
abbrev put_key : Call
put_key = record put_bucket {
  http = record { method = put; host = codes "h"; path = codes "/b/k"; query = [] };
  now = 7;
}

abbrev with_bucket : Store × Remote Channel
with_bucket = serve_http memory gateway put_bucket empty_store remote

abbrev with_key : Store × Remote Channel
with_key = serve_http memory gateway put_key with_bucket.0 with_bucket.1

reached : Reach memory gateway empty_store remote with_key.0 with_key.1
reached = next (next here (request put_bucket)) (request put_key)

Reach-IsGood_example : IsGood memory memory_laws options (λ gs p. refl) with_key.0 with_key.1
Reach-IsGood_example =
    Reach-IsGood memory memory_laws gateway (λ gs p. refl) (omega arith) reached
      (IsGood-empty memory memory_laws options (λ gs p. refl) remote)

-- No signature is accepted.
abbrev closed : Gateway memory
closed = record gateway { authorized = λ req. false }

serve_http-unsigned_example :
    serve_http memory closed put_key with_key.0 with_key.1 ≡ (with_key.0, with_key.1)
serve_http-unsigned_example = serve_http-unsigned memory closed put_key with_key.0 with_key.1 refl

abbrev found_row : Object
found_row = record {
  bucket = codes "b";
  key = codes "k";
  size = 5;
  etag = codes "hello";
  content_type = codes "application/octet-stream";
  telegram_file_id = [];
  telegram_message_id = 0;
  created_at = 7;
  updated_at = 7;
  deleted_at = none;
}

found_key : get_object (codes "b") (codes "k") with_key.0 ≡ some found_row
unfolding serve_http equal get_object route trim_prefix index_byte path_unescape bucket_exists
    create_bucket put_object_handler upload_body is_aws_chunked index copy_limit upload_chunk
    extract_message_id verify_uploaded_size pick inspect_document_size validate_decoded_size
    parse_int put_object is_at get_value has
found_key = refl

Reach-readable_example :
    (content : Bytes) × (length content ≡ 5)
    × ((parse_time : Bytes → Option ℕ) (hdr : Headers)
        → conditional_status parse_time hdr found_row ≡ 0
        → get_object_handler
            (memory_download with_key.1.channel)
            4
            parse_time
            hdr
            (codes "b")
            (codes "k")
            with_key.0
          ≡ answer content (asked parse_time hdr found_row))
Reach-readable_example =
    Reach-readable memory memory_laws gateway (λ gs p. refl) remote with_key.1 with_key.0
      (codes "b") (codes "k") found_row (memory_download with_key.1.channel) 4 (omega arith) reached
      found_key (memory_reads with_key.1.channel)

route-public_example : route (codes "s3.local") false put_key.http ≡ (
    if is_public (route (codes "s3.local") true put_key.http)
    then route (codes "s3.local") true put_key.http
    else forbidden)
route-public_example = route-public (codes "s3.local") put_key.http

path_unescape-aws_uri_encode_example :
    path_unescape (aws_uri_encode true (codes "a b/100%")) ≡ some (codes "a b/100%")
path_unescape-aws_uri_encode_example =
    path_unescape-aws_uri_encode true (codes "a b/100%") (ground arith)

abbrev two_keys : DeleteRequest
two_keys = record { quiet = false; keys = codes "k" ∷ codes "missing" ∷ [] }

abbrev swept_keys : DeleteResponse × Store × Remote Channel
swept_keys = delete_objects memory options (codes "b") (some two_keys) with_key.0 with_key.1

delete_objects-gone_example :
    ((1 ≤ 2) × (2 ≤ 1000)
      → (swept_keys.0 ≡ deleted two_keys.keys)
        × All (λ k. get_object (codes "b") k swept_keys.1 ≡ none) two_keys.keys
        × ((x y : Bytes)
            → any (λ k. is_at x y (codes "b") k) two_keys.keys ≡ false
            → view x y swept_keys.1 ≡ view x y with_key.0))
    × ((length two_keys.keys ≡ 0) ⊎ (1000 < 2)
        → (swept_keys.1 ≡ with_key.0) × (swept_keys.2 ≡ with_key.1))
delete_objects-gone_example =
    delete_objects-gone memory memory_laws options (codes "b") two_keys with_key.0 with_key.1
      (λ gs p. refl)

-- An upload that was begun at time 3.
abbrev with_upload : Store
with_upload = record empty_store {
  multipart_uploads =
      record {
        upload_id = codes "u";
        bucket = codes "b";
        key = codes "k";
        content_type = [];
        created_at = 3;
      }
      ∷ [];
}

abbrev swept_upload : Store × Remote Channel
swept_upload = sweep_stale_uploads memory options 10 20 with_upload remote

sweep_stale_uploads-swept_example :
    (stale_multipart_uploads 10 swept_upload.0 ≡ [])
    × ((x : Bytes)
        → is_among x (stale_multipart_uploads 10 with_upload) ≡ false
        → upload_view x swept_upload.0 ≡ upload_view x with_upload)
    × ((b k : Bytes) → view b k swept_upload.0 ≡ view b k with_upload)
    × ((j : ℕ)
        → Spares memory memory_laws options
            (λ gs p. refl)
            j
            (stale_multipart_uploads 10 with_upload)
            with_upload
        → doc swept_upload.1.channel j ≡ doc remote.channel j)
sweep_stale_uploads-swept_example =
    sweep_stale_uploads-swept memory memory_laws options 10 20 with_upload remote (λ gs p. refl)

-- A path that net/http has decoded is decoded once more, and what is no escape is lost.
stray_percent :
    route [] true (record { method = delete; host = codes "h"; path = codes "/b/100%"; query = [] })
    ≡ Router.delete_bucket (codes "b")
unfolding route equal trim_prefix index_byte path_unescape has
stray_percent = refl

-- A time with a fraction, and one without: 2021-03-04 05:06:07.
march_stamp : rfc3339_nano (1614834367 * 10 ^ 9 + 15 * 10 ^ 7) ≡ codes "2021-03-04T05:06:07.15Z"
unfolding rfc3339_nano
march_stamp = refl

-- Of two times in one second the later one may have the lower text: .1 is stored as "1Z".
text_order :
    (is_earlier (1614834367 * 10 ^ 9 + 10 ^ 8) (1614834367 * 10 ^ 9 + 15 * 10 ^ 7) ≡ false)
    × (is_earlier (1614834367 * 10 ^ 9 + 15 * 10 ^ 7) (1614834367 * 10 ^ 9 + 10 ^ 8) ≡ true)
unfolding is_earlier less rfc3339_nano
text_order = (refl, refl)

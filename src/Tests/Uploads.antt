-- ===== src/Tests/Uploads.antt =====
-- A multipart upload of two parts.
use mathlib.Core.Path.{subst}
use telegram_s.Base.{
  ℕ, ◌≡◌, refl, sym, ◌⊎◌, inl, inr, true, false, none, some, List, map, [], ◌∷◌, arith, length, ◌≤◌,
}
use telegram_s.Base.Bytes.{Bytes, codes, equal, trim_left, to_lower, index}
use telegram_s.Base.Int.{pos, digit_value, parse_int}
use telegram_s.Storage.{Chunk, IsChunkMap, total_size}
use telegram_s.Mtproto.Pool.{Remote, pick}
use telegram_s.Metadata.{Store, MultipartUpload, MultipartPart, PartChunkRow, empty_store}
use telegram_s.Metadata.Table.{order_by}
use telegram_s.Metadata.Objects.{view}
use telegram_s.Metadata.Multipart.{
  get_multipart_upload, list_multipart_parts, all_multipart_chunks, put_multipart_part,
  get_multipart_part_chunks, is_part,
}
use telegram_s.Metadata.Multipart.Written.{kept}
use telegram_s.Metadata.Multipart.Parts.{upload_view}
use telegram_s.S3api.Assembly.{CompletePart, hex_decode, no_content, MultipartResponse, put_answer}
use telegram_s.S3api.Multipart.{
  complete_multipart_upload, abort_multipart_upload, resolve_upload, upload_part, part_number_of,
}
use telegram_s.S3api.Multipart.Assembled.{pieces}
use telegram_s.S3api.Multipart.Refusal.{is_completed}
use telegram_s.S3api.Multipart.Ended.{
  Completed, Refused, complete_multipart_upload-ended, abort_multipart_upload-gone,
}
use telegram_s.S3api.Multipart.Accepted.{AreAcceptable, complete_multipart_upload-accepts}
use telegram_s.S3api.Write.{created, decode_upload, validate_decoded_size}
use telegram_s.S3api.Chunked.{is_aws_chunked}
use telegram_s.Mtproto.Upload.{upload_body, upload_chunk, verify_uploaded_size}
use telegram_s.Mtproto.Upload.Stored.{AreStored}
use telegram_s.Mtproto.Split.{copy_limit}
use telegram_s.Mtproto.Response.{extract_message_id, inspect_document_size}
use telegram_s.S3api.Multipart.Uploaded.{upload_part-stored}
use telegram_s.S3api.Write.Stored.{AreHeld, hits}
use telegram_s.Tests.Channel.{Channel, memory, memory_laws, doc}
use telegram_s.Tests.Handlers.{options, remote, request}

abbrev upload : MultipartUpload
upload = record {
  upload_id = codes "u";
  bucket = codes "b";
  key = codes "k";
  content_type = codes "text/plain";
  created_at = 1;
}

abbrev part_row : ℕ → Bytes → ℕ → MultipartPart
part_row n tag size = record { upload_id = codes "u"; part_number = n; etag = tag; size = size }

abbrev chunk_row : ℕ → ℕ → ℕ → PartChunkRow
chunk_row n message size = record {
  upload_id = codes "u";
  part_number = n;
  chunk = record {
    seq = 0;
    file_id = codes "mtproto";
    message_id = message;
    size = size;
    offset = 0;
    transport = codes "mtproto";
    bot_index = 0;
  };
}

abbrev uploading : Store
uploading = record empty_store {
  multipart_uploads = upload ∷ [];
  multipart_parts = part_row 2 (codes "cd") 2 ∷ part_row 1 (codes "ab") 5242880 ∷ [];
  multipart_part_chunks = chunk_row 2 7 2 ∷ chunk_row 1 8 5242880 ∷ [];
}

abbrev part_one : CompletePart
part_one = record { part_number = pos 1; etag = codes "\"AB\"" }

abbrev part_two : CompletePart
part_two = record { part_number = pos 2; etag = codes "cd" }

uploading_known : resolve_upload (codes "b") (codes "k") (codes "u") uploading ≡ some upload
unfolding resolve_upload get_multipart_upload equal
uploading_known = refl

uploading_parts :
    list_multipart_parts (codes "u") uploading
    ≡ part_row 1 (codes "ab") 5242880 ∷ part_row 2 (codes "cd") 2 ∷ []
unfolding list_multipart_parts order_by equal
uploading_parts = refl

acceptable :
    AreAcceptable 0
      (part_row 1 (codes "ab") 5242880 ∷ part_row 2 (codes "cd") 2 ∷ [])
      (part_one ∷ part_two ∷ [])
unfolding equal hex_decode trim_left to_lower digit_value
acceptable = (
  1,
  part_row 1 (codes "ab") 5242880,
  171 ∷ [],
  refl,
  omega arith,
  refl,
  refl,
  inr (omega arith),
  refl,
  (2, part_row 2 (codes "cd") 2, 205 ∷ [], refl, omega arith, refl, refl, inl refl, refl, tt),
)

complete_multipart_upload-accepts_example :
    is_completed
      (complete_multipart_upload memory options
        (λ d. d)
        7
        (codes "b")
        (codes "k")
        (codes "u")
        (some (part_one ∷ part_two ∷ []))
        uploading
        remote).0
    ≡ true
complete_multipart_upload-accepts_example =
    complete_multipart_upload-accepts memory options (λ d. d) 7 (codes "b") (codes "k") (codes "u")
      upload part_one (part_two ∷ []) uploading remote uploading_known (refl, (refl, tt))
      (subst (λ l. AreAcceptable 0 l (part_one ∷ part_two ∷ [])) (sym uploading_parts) acceptable)

complete_multipart_upload-ended_example :
    Completed memory options
      (λ d. d)
      7
      (codes "b")
      (codes "k")
      (codes "u")
      uploading
      remote
      (pieces (codes "u") uploading (part_one ∷ part_two ∷ []))
      (complete_multipart_upload memory options
        (λ d. d)
        7
        (codes "b")
        (codes "k")
        (codes "u")
        (some (part_one ∷ part_two ∷ []))
        uploading
        remote)
    ⊎ Refused memory options
        (λ d. d)
        7
        (codes "b")
        (codes "k")
        (codes "u")
        uploading
        remote
        (complete_multipart_upload memory options
          (λ d. d)
          7
          (codes "b")
          (codes "k")
          (codes "u")
          (some (part_one ∷ part_two ∷ []))
          uploading
          remote)
complete_multipart_upload-ended_example =
    complete_multipart_upload-ended memory options (λ d. d) 7 (codes "b") (codes "k") (codes "u")
      (some (part_one ∷ part_two ∷ [])) uploading remote (refl, (refl, tt))

abort_multipart_upload-gone_example :
    (s' : Store) × (r' : Remote Channel) × (abort_multipart_upload memory options
        (λ d. d)
        7
        (codes "b")
        (codes "k")
        (codes "u")
        uploading
        remote
      ≡ (no_content, s', r'))
    × (upload_view (codes "u") s' ≡ (none, [], [], []))
    × ((x : Bytes) → equal x (codes "u") ≡ false → upload_view x s' ≡ upload_view x uploading)
    × ((b k : Bytes) → view b k s' ≡ view b k uploading)
    × ((j : ℕ)
        → hits j (all_multipart_chunks (codes "u") uploading) ≡ false
        → doc r'.channel j ≡ doc remote.channel j)
abort_multipart_upload-gone_example =
    abort_multipart_upload-gone memory memory_laws options (λ d. d) 7 (codes "b") (codes "k")
      (codes "u") upload uploading remote (λ gs p. refl) uploading_known

abbrev new_chunks : List Chunk
new_chunks = (chunk_row 2 9 3).chunk ∷ record (chunk_row 2 10 4).chunk { seq = 1; offset = 3 } ∷ []

-- The first part of an upload that has none.
abbrev begun : Store
begun = record empty_store { multipart_uploads = upload ∷ [] }

abbrev part_after : MultipartResponse × Store × Remote Channel
part_after =
    upload_part memory options (λ d. d) 7 (codes "b") (codes "k") (codes "u") (codes "3") request
      begun remote

part_created : part_after.0 ≡ put_answer (created (codes "hello"))
unfolding upload_part resolve_upload get_multipart_upload part_number_of equal upload_body
    is_aws_chunked index copy_limit upload_chunk extract_message_id verify_uploaded_size pick
    inspect_document_size validate_decoded_size parse_int put_multipart_part decode_upload
part_created = refl

no_parts_held :
    (n : ℕ)
    → AreHeld memory memory_laws options
        (λ gs p. refl)
        remote.channel
        (get_multipart_part_chunks (codes "u") n begun)
unfolding get_multipart_part_chunks order_by
no_parts_held n = tt

upload_part-stored_example :
    (n : ℕ) × (chunks : List Chunk) × (1 ≤ n)
    × (n ≤ 10000)
    × (part_number_of (codes "3") ≡ some n)
    × ((decode_upload request).error ≡ none)
    × (codes "hello" ≡ (decode_upload request).bytes)
    × (get_multipart_part_chunks (codes "u") n part_after.1 ≡ map kept chunks)
    × IsChunkMap 0 0 chunks
    × (length (decode_upload request).bytes ≡ total_size chunks)
    × AreStored memory memory_laws 3 (decode_upload request).bytes part_after.2.channel chunks
    × ((x : Bytes) (m : ℕ)
        → is_part x m (codes "u") n ≡ false
        → get_multipart_part_chunks x m part_after.1 ≡ get_multipart_part_chunks x m begun)
upload_part-stored_example =
    upload_part-stored memory memory_laws options (λ d. d) 7 (codes "b") (codes "k") (codes "u")
      (codes "3") request (codes "hello") begun part_after.1 remote part_after.2 (λ gs p. refl)
      (omega arith) no_parts_held (λ i. (part_created i, part_after.1, part_after.2))

-- ===== src/Tests/Copies.antt =====
-- A copy on a small store and channel.
use telegram_s.Base.{◌≡◌, refl, ap, ◌∙◌, false, none, some, [], arith}
use telegram_s.Base.Bytes.{Bytes, codes, equal, index, index_byte, trim_prefix}
use telegram_s.Base.Int.{parse_int}
use telegram_s.Mtproto.Pool.{Remote, pick}
use telegram_s.Mtproto.Response.{extract_message_id, inspect_document_size}
use telegram_s.Mtproto.Split.{copy_limit}
use telegram_s.Mtproto.Upload.{upload_body, upload_chunk, verify_uploaded_size}
use telegram_s.Metadata.{Store, bucket_exists, put_object, get_object_chunks}
use telegram_s.Metadata.Objects.{view}
use telegram_s.Metadata.Table.{is_at, order_by}
use telegram_s.S3api.Write.{reap, put_object_handler, validate_decoded_size, decode_upload}
use telegram_s.S3api.Write.RoundTrip.{Holds, put_object_handler-Holds}
use telegram_s.S3api.Chunked.{is_aws_chunked}
use telegram_s.S3api.Uri.{path_unescape}
use telegram_s.S3api.Copy.{
  CopyRequest, CopyResponse, copied, parse_copy_source, copy_object, copy_uploaded,
  copy_content_type, copy_metadata,
}
use telegram_s.S3api.Copy.Copied.{copy_object-uploads, copy_object-Holds}
use telegram_s.S3api.Write.Stored.{AreHeld, Fresh}
use telegram_s.Tests.Channel.{Channel, memory, memory_laws}
use telegram_s.Tests.Handlers.{options, remote, memory_download, memory_reads}
use telegram_s.Tests.Handlers

abbrev pub no_copy : CopyRequest
no_copy = record {
  copy_source = [];
  copy_source_range = [];
  metadata_directive = [];
  content_type = [];
  metadata = [];
}

held_key :
    Holds memory memory_laws 3
      (codes "b")
      (codes "k")
      (codes "hello")
      (codes "hello")
      Handlers.after.1
      Handlers.after.2.channel
unfolding decode_upload is_aws_chunked equal index
held_key =
    (put_object_handler-Holds memory memory_laws options (λ d. d) 7 (codes "b") (codes "k")
      Handlers.request Handlers.store Handlers.after.1 remote Handlers.after.2 (codes "hello")
      (λ gs p. refl) (omega arith) Handlers.nothing_held Handlers.put_after).2

-- The copy of b/k to b/c.
abbrev copy_request : CopyRequest
copy_request = record no_copy { copy_source = codes "/b/k?versionId=null" }

abbrev copied_key : CopyResponse × Store × Remote Channel
copied_key =
    copy_object memory options (memory_download Handlers.after.2.channel) 4 (λ d. d) 9 (codes "b")
      (codes "c") copy_request Handlers.after.1 Handlers.after.2

copy_source : parse_copy_source (codes "/b/k?versionId=null") ≡ some (codes "b", codes "k")
unfolding parse_copy_source index_byte trim_prefix path_unescape
copy_source = refl

copy_stored_answer :
    (copy_uploaded memory options
      (memory_download Handlers.after.2.channel)
      4
      (λ d. d)
      9
      (codes "b")
      (codes "c")
      (copy_content_type copy_request held_key.row)
      (copy_metadata copy_request (codes "b") (codes "k") Handlers.after.1)
      (codes "hello")
      Handlers.after.1
      (upload_body memory options
        (codes "c")
        (copy_content_type copy_request held_key.row)
        (record { bytes = codes "hello"; error = none })
        Handlers.after.2)).0
    ≡ copied (codes "hello")
unfolding equal put_object_handler bucket_exists upload_body is_aws_chunked index copy_limit
    upload_chunk extract_message_id verify_uploaded_size pick inspect_document_size
    validate_decoded_size parse_int put_object is_at copy_uploaded reap get_object_chunks order_by
copy_stored_answer = refl

copy_answer : copied_key.0 ≡ copied (codes "hello")
copy_answer =
    ap (λ x. x.0)
      (copy_object-uploads memory memory_laws options (memory_download Handlers.after.2.channel) 4
        (λ d. d) 9 (codes "b") (codes "c") copy_request (codes "b") (codes "k") (codes "hello")
        (codes "hello") Handlers.after.1 Handlers.after.2 copy_source held_key
        (memory_reads Handlers.after.2.channel))
    ∙ copy_stored_answer

nothing_at :
    AreHeld memory memory_laws options
      (λ gs p. refl)
      Handlers.after.2.channel
      (get_object_chunks (codes "b") (codes "c") Handlers.after.1)
unfolding get_object_chunks order_by equal put_object_handler bucket_exists upload_body
    is_aws_chunked index copy_limit upload_chunk extract_message_id verify_uploaded_size pick
    inspect_document_size validate_decoded_size parse_int put_object is_at
nothing_at = tt

copy_object-Holds_example :
    (codes "hello" ≡ codes "hello")
    × Holds memory memory_laws 3
        (codes "b")
        (codes "c")
        (codes "hello")
        (codes "hello")
        copied_key.1
        copied_key.2.channel
    × Fresh memory memory_laws options
        (λ gs p. refl)
        Handlers.after.2.channel
        (get_object_chunks (codes "b") (codes "c") copied_key.1)
    × ((b k : Bytes)
        → is_at b k (codes "b") (codes "c") ≡ false
        → view b k copied_key.1 ≡ view b k Handlers.after.1)
copy_object-Holds_example =
    copy_object-Holds memory memory_laws options (memory_download Handlers.after.2.channel) 4
      (λ d. d) 9 (codes "b") (codes "c") copy_request (codes "b") (codes "k") (codes "hello")
      (codes "hello") (codes "hello") Handlers.after.1 copied_key.1 Handlers.after.2 copied_key.2
      (λ gs p. refl) (omega arith) copy_source held_key (memory_reads Handlers.after.2.channel)
      nothing_at (λ i. (copy_answer i, copied_key.1, copied_key.2))

-- ===== src/S3api/Copy/Copied.antt =====
-- internal/s3api/copy.go: the content of a copy.
use mathlib.Core.Path.{subst}
use telegram_s.Base.{
  ℕ, ◌+◌, ◌-◌, ◌≤◌, ◌<◌, ◌≡◌, refl, sym, ap, ◌∙◌, inl, inr, Bool, true, false, Bool-cases, none,
  some, List, [], map, arith, leb, length, leb→le,
}
use telegram_s.Base.Bytes.{Bytes}
use telegram_s.Base.Slices.{slice, take_all, slice_empty, length-slice}
use telegram_s.Storage.{Result, ok, err, Chunk, IsChunkMap, total_size}
use telegram_s.Reader.Source.{BotSource, Download}
use telegram_s.Reader.Source.Stitch.{Serves}
use telegram_s.Reader.Buffer.{Status, more, eof, failed, Reader}
use telegram_s.Reader.Buffer.Drain.{Pending, copy-pending}
use telegram_s.Reader.Buffer.Primed.{IsPrimed}
use telegram_s.Mtproto.Api.{Telegram}
use telegram_s.Mtproto.Laws.{TelegramLaws}
use telegram_s.Mtproto.Delete.Windows.{Walks}
use telegram_s.Mtproto.Pool.{Remote}
use telegram_s.Mtproto.Split.{Body}
use telegram_s.Mtproto.Upload.{Options, upload_body}
use telegram_s.Metadata.{Store, Object, get_object_chunks, put_object}
use telegram_s.Metadata.Objects.{view}
use telegram_s.Metadata.Table.{is_at}
use telegram_s.S3api.Read.{loc_of, copy_buffer, plan_read}
use telegram_s.S3api.Read.Served.{opened, prime-opened}
use telegram_s.S3api.Write.{reap}
use telegram_s.S3api.Write.Stored.{AreHeld, Fresh, upload-Fresh}
use telegram_s.S3api.Write.RoundTrip.{Holds, ReadsBack, Serves-stored, put-Holds}
use telegram_s.S3api.Copy.{
  CopyRequest, CopyResponse, copied, parse_copy_source, primed_body, open_planned, open_object,
  copied_object, copy_stored, copy_uploaded, copy_opened, copy_loaded, copy_parsed, copy_object,
  body_of, copy_content_type, copy_metadata,
}

primed_body-copied :
    (fuel : ℕ) (p : Pending) (a : Status × Reader) (body : Bytes)
    → p ≡ (body, eof)
    → length body < fuel
    → IsPrimed p a
    → primed_body fuel a ≡ ok (record { bytes = body; error = none })
unfolding primed_body
primed_body-copied fuel p (failed e, r) body h lt k = absurd (ground arith)
primed_body-copied fuel p (more, r) body h lt k =
    ap (λ (q : Pending). ok (body_of q.0 q.1))
      (copy-pending fuel copy_buffer r (omega arith) (rw (k ∙ h) lt) ∙ k ∙ h)
primed_body-copied fuel p (eof, r) body h lt k =
    ap (λ (q : Pending). ok (body_of q.0 q.1))
      (copy-pending fuel copy_buffer r (omega arith) (rw (k ∙ h) lt) ∙ k ∙ h)

module _ (download : Download) (stream_chunk_size : ℕ) (content : Bytes) (obj : Object)
    (chunks : List Chunk) (mapped : IsChunkMap 0 0 chunks)
    (whole_map : total_size chunks ≡ length content) (sized : obj.size ≡ length content)
    (serves : Serves download content (map loc_of chunks)) where
  open_planned-slice :
      (start end : ℕ)
      → end ≤ length content
      → open_planned download stream_chunk_size obj (map loc_of chunks, start, end)
        ≡ ok (record { bytes = slice start end content; error = none })
  unfolding open_planned
  open_planned-slice start end inside = elim (Bool-cases (leb end start)) [
    | inl empty ↦ rw empty (
        ap (λ b. ok (record { bytes = b; error = none }))
          (sym (slice_empty start end content (leb→le end start empty))))
    | inr some_bytes ↦ rw some_bytes (
        let src : BotSource = record {
          obj_size = obj.size;
          locs = map loc_of chunks;
          chunk_size = stream_chunk_size;
        } in
        let range : start ≤ end = ground arith in
        primed_body-copied (end - start + 1) _ _ (slice start end content)
          (opened download stream_chunk_size content obj chunks mapped whole_map sized serves src
            start end refl sized range inside)
          (omega (arith, length-slice start end content inside))
          (prime-opened download stream_chunk_size content obj chunks mapped whole_map sized serves
            src start end))
  ]

  -- The reader of a whole object yields its content.
  pub open_object-content :
      open_object download stream_chunk_size obj chunks none
      ≡ ok (record { bytes = content; error = none })
  unfolding open_object plan_read
  open_object-content =
      open_planned-slice 0 obj.size (omega arith)
      ∙ ap (λ b. ok (record { bytes = b; error = none }))
          (take_all (obj.size - 0) content (omega arith))

abbrev pub is_copied : CopyResponse → Bool
is_copied (copied etag) = true
is_copied _ = false

abbrev tag_of : CopyResponse → Bytes
tag_of (copied etag) = etag
tag_of _ = []

module _ (t : Telegram) (o : Options) (download : Download) (stream_chunk_size : ℕ)
    (etag_of : Bytes → Bytes) (now : ℕ) (bucket key : Bytes) (s s' : Store)
    (r' : Remote (Telegram.Channel t)) (etag : Bytes) where
  abbrev Answer : CopyResponse × Store × Remote (Telegram.Channel t) → Type 0
  Answer x = x ≡ (copied etag, s', r')

  -- What a handler that makes the copy has done with the payload.
  abbrev CopyDone : Bytes → Result (List Chunk) × Remote (Telegram.Channel t) → Bytes → Type 0
  CopyDone payload a content_type =
      (chunks : List Chunk) × (r1 : Remote (Telegram.Channel t)) × (meta : List (Bytes × Bytes))
      × (a ≡ (ok chunks, r1))
      × (etag ≡ etag_of payload)
      × (put_object now
            (copied_object t o download stream_chunk_size etag_of now bucket key content_type
              payload chunks)
            meta chunks s
          ≡ ok s')
      × (r' ≡ reap t o (get_object_chunks bucket key s) r1)

  copy_stored-Done :
      (payload content_type : Bytes) (meta : List (Bytes × Bytes)) (chunks : List Chunk)
      (r : Remote (Telegram.Channel t)) (p : Result Store)
      → put_object now
          (copied_object t o download stream_chunk_size etag_of now bucket key content_type payload
            chunks)
          meta
          chunks
          s
        ≡ p
      → Answer (
          copy_stored t o download stream_chunk_size etag_of now bucket key
            (etag_of payload)
            chunks
            s
            r
            p)
      → CopyDone payload (ok chunks, r) content_type
  unfolding copy_stored
  copy_stored-Done payload content_type meta chunks r (err e) q h =
      absurd (let no = ap (λ x. is_copied x.0) h in ground arith)
  copy_stored-Done payload content_type meta chunks r (ok s1) q h = (
    chunks,
    r,
    meta,
    refl,
    sym (ap (λ x. tag_of x.0) h),
    q ∙ ap (λ x. ok x.1) h,
    sym (ap (λ x. x.2) h),
  )

  copy_uploaded-Done :
      (payload content_type : Bytes) (meta : List (Bytes × Bytes))
      (a : Result (List Chunk) × Remote (Telegram.Channel t))
      → Answer (
          copy_uploaded t o download stream_chunk_size etag_of now bucket key content_type meta
            payload s a)
      → CopyDone payload a content_type
  unfolding copy_uploaded
  copy_uploaded-Done payload content_type meta (err e, r) h =
      absurd (let no = ap (λ x. is_copied x.0) h in ground arith)
  copy_uploaded-Done payload content_type meta (ok chunks, r) h =
      copy_stored-Done payload content_type meta chunks r _ refl h

-- A copy uploads the content of its source.
pub copy_object-uploads :
    (t : Telegram) (laws : TelegramLaws t) (o : Options) (download : Download)
    (stream_chunk_size : ℕ) (etag_of : Bytes → Bytes) (now : ℕ) (bucket key : Bytes)
    (req : CopyRequest) (src_bucket src_key payload src_etag : Bytes) (s : Store)
    (r : Remote (Telegram.Channel t))
    → parse_copy_source req.copy_source ≡ some (src_bucket, src_key)
    → (source : Holds t laws o.chunk_size src_bucket src_key payload src_etag s r.channel)
    → ReadsBack t laws r.channel download
    → copy_object t o download stream_chunk_size etag_of now bucket key req s r
      ≡ copy_uploaded t o download stream_chunk_size etag_of now bucket key
          (copy_content_type req source.row)
          (copy_metadata req src_bucket src_key s)
          payload
          s
          (upload_body t o key
            (copy_content_type req source.row)
            (record { bytes = payload; error = none })
            r)
unfolding copy_object copy_parsed copy_loaded copy_opened
copy_object-uploads t laws o download n etag_of now bucket key req src_bucket src_key payload
      src_etag s r parsed source reads =
    let src = source.row in
    let src_chunks = get_object_chunks src_bucket src_key s in
    let served =
      Serves-stored t laws o.chunk_size payload r.channel download 0 0 src_chunks reads
        source.mapped (let c = source.complete in omega arith) source.stored in
    let read_back =
      open_object-content download n payload src src_chunks source.mapped source.complete
        source.sized served in
    ap (copy_parsed t o download n etag_of now bucket key req s r) parsed
    ∙ ap (copy_loaded t o download n etag_of now bucket key req src_bucket src_key s r) source.found
    ∙ ap
        (copy_opened t o download n etag_of now bucket key (copy_content_type req src)
          (copy_metadata req src_bucket src_key s) s r)
        read_back

-- A copy that answers with a tag, of an object that holds a payload in messages that are read back as
-- they were sent, gives the object of the request the same payload: the tag is that of the payload,
-- the copy holds it just as an uploaded object does, and no message of the copy's chunks held a
-- document before, so that none is a message of the source. Every object at another place, the
-- source if it is at one, is read as before. The chunk size is not 0, and the messages of a version
-- that is replaced hold documents.
pub copy_object-Holds :
    (t : Telegram) (laws : TelegramLaws t) (o : Options) (download : Download)
    (stream_chunk_size : ℕ) (etag_of : Bytes → Bytes) (now : ℕ) (bucket key : Bytes)
    (req : CopyRequest) (src_bucket src_key payload src_etag etag : Bytes) (s s' : Store)
    (r r' : Remote (Telegram.Channel t)) (walks : Walks o.visit)
    → 0 < o.chunk_size
    → parse_copy_source req.copy_source ≡ some (src_bucket, src_key)
    → Holds t laws o.chunk_size src_bucket src_key payload src_etag s r.channel
    → ReadsBack t laws r.channel download
    → AreHeld t laws o walks r.channel (get_object_chunks bucket key s)
    → copy_object t o download stream_chunk_size etag_of now bucket key req s r
      ≡ (copied etag, s', r')
    → (etag ≡ etag_of payload)
      × Holds t laws o.chunk_size bucket key payload etag s' r'.channel
      × Fresh t laws o walks r.channel (get_object_chunks bucket key s')
      × ((b k : Bytes) → is_at b k bucket key ≡ false → view b k s' ≡ view b k s)
copy_object-Holds t laws o download n etag_of now bucket key req src_bucket src_key payload src_etag
      etag s s' r r' walks pos parsed source reads held h =
    let content_type = copy_content_type req source.row in
    let body : Body = record { bytes = payload; error = none } in
    let e =
      copy_object-uploads t laws o download n etag_of now bucket key req src_bucket src_key payload
        src_etag s r parsed source reads in
    let (chunks, r1, kv, up, tag, put, back) =
      copy_uploaded-Done t o download n etag_of now bucket key s s' r' etag payload content_type
        (copy_metadata req src_bucket src_key s) (upload_body t o key content_type body r)
        (sym e ∙ h) in
    let obj : Object =
      copied_object t o download n etag_of now bucket key content_type payload chunks in
    let (_, kept, there, others) =
      put-Holds t laws o now obj kv key content_type body chunks s s' r r1 r' walks pos held refl up
        put back in
    (
      tag,
      subst (λ e. Holds t laws o.chunk_size bucket key payload e s' r'.channel) (sym tag) there,
      subst (Fresh t laws o walks r.channel) (sym kept)
          (upload-Fresh t laws o walks chunks key content_type body r r1 up),
      others,
    )

-- ===== src/S3api/Write/RoundTrip.antt =====
-- A PUT that succeeds, and the GET behind it.
use mathlib.Core.Path.{subst}
use telegram_s.Base.{
  ℕ, zero, suc, ◌+◌, ◌≤◌, ◌<◌, ◌≡◌, refl, sym, ap, ◌∙◌, Bool, true, false, not, Option, none, some,
  List, [], ◌∷◌, map, arith, if◌then◌else◌, length,
}
use telegram_s.Base.Bytes.{Bytes}
use telegram_s.Base.Slices.{slice, slice-slice, length-slice}
use telegram_s.Storage.{Result, ok, err, Chunk, ChunkRef, ref_of, IsChunkMap, total_size}
use telegram_s.Reader.Source.{ChunkLoc, Download}
use telegram_s.Reader.Source.Stitch.{Serves}
use telegram_s.Mtproto.Api.{Telegram}
use telegram_s.Mtproto.Laws.{TelegramLaws}
use telegram_s.Mtproto.Delete.Windows.{Walks}
use telegram_s.Mtproto.Pool.{Remote}
use telegram_s.Mtproto.Split.{Body}
use telegram_s.Mtproto.Upload.{Options, upload_body}
use telegram_s.Mtproto.Upload.Stored.{upload_body-Stored, AreStored}
use telegram_s.Metadata.{
  Store, Object, bucket_exists, get_object, get_object_chunks, stamped, put_object,
}
use telegram_s.Metadata.Objects.{put_object-view, view, merged, find_row}
use telegram_s.Metadata.Table.{is_at}
use telegram_s.S3api.Conditions.{Headers, conditional_status}
use telegram_s.S3api.Read.{loc_of, get_object_handler}
use telegram_s.S3api.Read.Served.{answer, asked, get_object_handler-content}
use telegram_s.S3api.Write.{
  PutRequest, reap, created, no_such_bucket, decode_upload, new_object, put_uploaded,
  put_object_handler,
}
use telegram_s.S3api.Write.Stored.{
  is_created, AreHeld, Created, put_uploaded-Created, reap-Stored, upload-Apart, named,
}

-- The object is there, with the payload as its content, cut up over the messages of the channel.
pub record Holds (t : Telegram) (laws : TelegramLaws t) (chunk_size : ℕ)
    (bucket key payload etag : Bytes) (s : Store) (c : Telegram.Channel t) : Type 0 where
  pub row : Object
  pub found : get_object bucket key s ≡ some row
  pub sized : row.size ≡ length payload
  pub tagged : row.etag ≡ etag
  pub mapped : IsChunkMap 0 0 (get_object_chunks bucket key s)
  pub complete : total_size (get_object_chunks bucket key s) ≡ length payload
  pub stored : AreStored t laws chunk_size payload c (get_object_chunks bucket key s)

module _ (t : Telegram) (o : Options) (etag_of : Bytes → Bytes) (now : ℕ) (bucket key : Bytes)
    (req : PutRequest) where
  handler-Created :
      (s s' : Store) (r r' : Remote (Telegram.Channel t)) (etag : Bytes)
      → put_object_handler t o etag_of now bucket key req s r ≡ (created etag, s', r')
      → Created t o etag_of now bucket key req
          (decode_upload req).bytes
          s
          (upload_body t o key
            (new_object t o etag_of now bucket key req [] []).content_type
            (decode_upload req)
            r)
          etag
          s'
          r'
  unfolding put_object_handler
  handler-Created s s' r r' etag h = by_bucket (bucket_exists bucket s) h
    where
      by_bucket :
          (b : Bool)
          → (if not b
              then (no_such_bucket, s, r)
              else put_uploaded t o etag_of now bucket key req (decode_upload req).bytes s (
                  upload_body t o key
                    (new_object t o etag_of now bucket key req [] []).content_type
                    (decode_upload req)
                    r))
            ≡ (created etag, s', r')
          → Created t o etag_of now bucket key req
              (decode_upload req).bytes
              s
              (upload_body t o key
                (new_object t o etag_of now bucket key req [] []).content_type
                (decode_upload req)
                r)
              etag
              s'
              r'
      by_bucket false h = absurd (let no = ap (λ x. is_created x.0) h in ground arith)
      by_bucket true h =
          put_uploaded-Created t o etag_of now bucket key req (decode_upload req).bytes s s' r' etag
            _ h

pub merged-size :
    (obj : Object) (old : Option Object)
    → ((merged obj old).size ≡ obj.size) × ((merged obj old).etag ≡ obj.etag)
merged-size obj none = (refl, refl)
merged-size obj (some old) = (refl, refl)

abbrev pub stored_or : Store → Result Store → Store
stored_or s (err e) = s
stored_or s (ok s') = s'

-- An upload that is stored as an object, behind the clean-up of the version that it replaces.
pub put-Holds :
    (t : Telegram) (laws : TelegramLaws t) (o : Options) (now : ℕ) (obj : Object)
    (kv : List (Bytes × Bytes)) (name content_type : Bytes) (body : Body) (chunks : List Chunk)
    (s s' : Store) (r r1 r' : Remote (Telegram.Channel t)) (walks : Walks o.visit)
    → 0 < o.chunk_size
    → AreHeld t laws o walks r.channel (get_object_chunks obj.bucket obj.key s)
    → obj.size ≡ length body.bytes
    → upload_body t o name content_type body r ≡ (ok chunks, r1)
    → put_object now obj kv chunks s ≡ ok s'
    → r' ≡ reap t o (get_object_chunks obj.bucket obj.key s) r1
    → (body.error ≡ none)
      × (get_object_chunks obj.bucket obj.key s' ≡ chunks)
      × Holds t laws o.chunk_size obj.bucket obj.key body.bytes obj.etag s' r'.channel
      × ((b k : Bytes) → is_at b k obj.bucket obj.key ≡ false → view b k s' ≡ view b k s)
put-Holds t laws o now obj kv name content_type body chunks s s' r r1 r' walks pos held full up put
      back =
    let olds = get_object_chunks obj.bucket obj.key s in
    let (fine, size, mapped, stored) =
      upload_body-Stored t laws o name content_type body r r1 chunks pos up in
    let (s2, put2, seen, others) =
      put_object-view now obj kv chunks s mapped
        (named t laws o walks o.chunk_size body.bytes r1.channel chunks stored) in
    let same : s2 ≡ s' = ap (stored_or s) (sym put2 ∙ put) in
    let now_seen = ap (view obj.bucket obj.key) (sym same) ∙ seen in
    let there : get_object_chunks obj.bucket obj.key s' ≡ chunks = ap (λ v. v.1) now_seen in
    let (sz, et) = merged-size (stamped now obj) (find_row obj.bucket obj.key s.objects) in
    (
      fine,
      there,
      record {
        row = merged (stamped now obj) (find_row obj.bucket obj.key s.objects);
        found = ap (λ v. v.0) now_seen;
        sized = sz ∙ full;
        tagged = et;
        mapped = subst (IsChunkMap 0 0) (sym there) mapped;
        complete = ap total_size there ∙ sym size;
        stored = subst (AreStored t laws o.chunk_size body.bytes r'.channel) (sym there) (
            subst
              (λ (q : Remote (Telegram.Channel t)).
                AreStored t laws o.chunk_size body.bytes q.channel chunks)
              (sym back)
              (reap-Stored t laws o walks o.chunk_size body.bytes olds chunks r1
                (upload-Apart t laws o walks olds chunks name content_type body r r1 held up)
                stored));
      },
      λ b k other. ap (view b k) (sym same) ∙ others b k other,
    )

-- When a PUT answers 200, with a chunk size that is not 0, and each message of the version that it
-- replaces, if there is one, holds a document when it begins: the payload was read to its end
-- without an error, the ETag is that of the payload, the object is found with the payload's length
-- and this ETag, its chunk map covers the payload from its first byte to its last, and each message
-- of the map holds its part of the payload, also behind the clean-up of the version that was
-- replaced. Every other object is read as before.
pub put_object_handler-Holds :
    (t : Telegram) (laws : TelegramLaws t) (o : Options) (etag_of : Bytes → Bytes) (now : ℕ)
    (bucket key : Bytes) (req : PutRequest) (s s' : Store) (r r' : Remote (Telegram.Channel t))
    (etag : Bytes) (walks : Walks o.visit)
    → 0 < o.chunk_size
    → AreHeld t laws o walks r.channel (get_object_chunks bucket key s)
    → put_object_handler t o etag_of now bucket key req s r ≡ (created etag, s', r')
    → ((decode_upload req).error ≡ none)
      × (etag ≡ etag_of (decode_upload req).bytes)
      × Holds t laws o.chunk_size bucket key (decode_upload req).bytes etag s' r'.channel
      × ((b k : Bytes) → is_at b k bucket key ≡ false → view b k s' ≡ view b k s)
put_object_handler-Holds t laws o etag_of now bucket key req s s' r r' etag walks pos held h =
    let payload = (decode_upload req).bytes in
    let (chunks, r1, up, tag, put, back) =
      handler-Created t o etag_of now bucket key req s s' r r' etag h in
    let obj : Object = new_object t o etag_of now bucket key req payload chunks in
    let (fine, _, there, others) =
      put-Holds t laws o now obj req.metadata key _ (decode_upload req) chunks s s' r r1 r' walks
        pos held refl up put back in
    (
      fine,
      tag,
      subst (λ e. Holds t laws o.chunk_size bucket key payload e s' r'.channel) (sym tag) there,
      others,
    )

-- A download from the channel brings the range of the message's document.
abbrev pub ReadsBack : (t : Telegram) → TelegramLaws t → Telegram.Channel t → Download → Type 0
ReadsBack t laws c download =
    (ref : ChunkRef) (off len : ℕ) (d : Bytes)
    → TelegramLaws.content laws c ref.message_id ≡ some d
    → 0 < len
    → off + len ≤ length d
    → download ref off len ≡ ok (slice off (off + len) d)

abbrev loc_or : ChunkLoc → Option ChunkLoc → ChunkLoc
loc_or l none = l
loc_or l (some m) = m

module _ (t : Telegram) (laws : TelegramLaws t) (chunk_size : ℕ) (payload : Bytes)
    (c : Telegram.Channel t) (download : Download) where
  pub Serves-stored :
      (seq start : ℕ) (chunks : List Chunk)
      → ReadsBack t laws c download
      → IsChunkMap seq start chunks
      → start + total_size chunks ≤ length payload
      → AreStored t laws chunk_size payload c chunks
      → Serves download payload (map loc_of chunks)
  Serves-stored seq start [] reads m le s i l off len e pos fits = absurd (ground arith)
  Serves-stored seq start (ch ∷ chs) reads (n, o, m) le ((nonempty, small, by, held), s) zero l off
        len e pos fits =
      let same : loc_of ch ≡ l = ap (λ x. loc_or (loc_of ch) x) e in
      let size = length-slice ch.offset (ch.offset + ch.size) payload (omega arith) in
      subst
        (λ (l : ChunkLoc).
          off + len ≤ l.size
          → download l.ref off len ≡ ok (slice (l.offset + off) (l.offset + off + len) payload))
        same
        (λ fits.
          reads (ref_of ch) off len (slice ch.offset (ch.offset + ch.size) payload) held pos
            (omega arith)
          ∙ ap ok (
              slice-slice ch.offset (ch.offset + ch.size) off (off + len) payload (omega arith)
              ∙ ap (λ k. slice (ch.offset + off) k payload) (omega arith)))
        fits
  Serves-stored seq start (ch ∷ chs) reads (n, o, m) le (h, s) (suc i) l off len e pos fits =
      Serves-stored (seq + 1) (start + ch.size) chs reads m (omega arith) s i l off len e pos fits

-- A GET behind a PUT that answered 200, while the messages of the channel are read back as they were
-- sent: without a range the client gets exactly the payload that was uploaded, with a satisfiable
-- range exactly these bytes of it, when no precondition stops the GET. The chunk size is not 0, and
-- each message of the version that the PUT replaces, if there is one, holds a document when the PUT
-- begins.
pub put_then_get :
    (t : Telegram) (laws : TelegramLaws t) (o : Options) (etag_of : Bytes → Bytes) (now : ℕ)
    (bucket key : Bytes) (req : PutRequest) (s s' : Store) (r r' : Remote (Telegram.Channel t))
    (etag : Bytes) (walks : Walks o.visit) (download : Download) (stream_chunk_size : ℕ)
    (parse_time : Bytes → Option ℕ) (hdr : Headers)
    → 0 < o.chunk_size
    → AreHeld t laws o walks r.channel (get_object_chunks bucket key s)
    → put_object_handler t o etag_of now bucket key req s r ≡ (created etag, s', r')
    → ReadsBack t laws r'.channel download
    → ((obj : Object)
        → get_object bucket key s' ≡ some obj
        → conditional_status parse_time hdr obj ≡ 0)
    → (obj : Object) × (get_object bucket key s' ≡ some obj)
      × (obj.etag ≡ etag_of (decode_upload req).bytes)
      × (get_object_handler download stream_chunk_size parse_time hdr bucket key s'
          ≡ answer (decode_upload req).bytes (asked parse_time hdr obj))
put_then_get t laws o etag_of now bucket key req s s' r r' etag walks download n parse_time hdr pos
      held h reads go_on =
    let payload = (decode_upload req).bytes in
    let (fine, tag, there, others) =
      put_object_handler-Holds t laws o etag_of now bucket key req s s' r r' etag walks pos held
        h in
    (
      there.row,
      there.found,
      there.tagged ∙ tag,
      get_object_handler-content download n parse_time hdr bucket key s' there.row payload
          there.found there.mapped there.complete there.sized
          (Serves-stored t laws o.chunk_size payload r'.channel download 0 0
            (get_object_chunks bucket key s') reads there.mapped
            (let c = there.complete in omega arith) there.stored)
          (go_on there.row there.found),
    )

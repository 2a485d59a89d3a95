-- ===== src/S3api/Multipart/Uploaded.antt =====
-- internal/s3api/multipart.go: what `uploadPart` leaves behind when it succeeds.
use mathlib.Core.Path.{subst}
use telegram_s.Base.{
  ℕ, ◌<◌, ◌≤◌, ◌≡◌, refl, sym, ap, ◌∙◌, Bool, false, Option, none, some, List, [], map, arith,
  length,
}
use telegram_s.Base.Bytes.{Bytes}
use telegram_s.Storage.{Result, ok, err, Chunk, IsChunkMap, total_size}
use telegram_s.Mtproto.Api.{Telegram}
use telegram_s.Mtproto.Laws.{TelegramLaws}
use telegram_s.Mtproto.Delete.Windows.{Walks}
use telegram_s.Mtproto.Pool.{Remote}
use telegram_s.Mtproto.Upload.{Options, upload_body}
use telegram_s.Mtproto.Upload.Stored.{AreStored, upload_body-Stored}
use telegram_s.Metadata.{Store, MultipartUpload}
use telegram_s.Metadata.Multipart.{is_part, get_multipart_part_chunks, put_multipart_part}
use telegram_s.Metadata.Multipart.Written.{kept, put_multipart_part-view}
use telegram_s.S3api.Write.{
  PutRequest, PutResponse, created, decode_upload, validate_decoded_size, reap,
}
use telegram_s.S3api.Write.Stored.{
  AreHeld, is_created, is_created-upload_error, named, reap-Stored, upload-Apart, validate-never,
}
use telegram_s.S3api.Write.RoundTrip.{stored_or}
use telegram_s.S3api.Assembly.{MultipartResponse, put_answer}
use telegram_s.S3api.Multipart.{
  resolve_upload, part_number_of, part_stored, part_sized, part_uploaded, part_resolved,
  upload_part,
}

part_number_of-bounds :
    (text : Bytes) (n : ℕ) → part_number_of text ≡ some n → (1 ≤ n) × (n ≤ 10000)
unfolding part_number_of
part_number_of-bounds text n h = (ground arith, ground arith)

abbrev is_part_created : MultipartResponse → Bool
is_part_created (put_answer response) = is_created response
is_part_created _ = false

abbrev part_etag : MultipartResponse → Bytes
part_etag (put_answer (created etag)) = etag
part_etag _ = []

module _ (t : Telegram) (o : Options) (etag_of : Bytes → Bytes) (now : ℕ) (bucket key id : Bytes)
    (req : PutRequest) (etag : Bytes) (s s' : Store) (r' : Remote (Telegram.Channel t)) where
  abbrev Answer : MultipartResponse × Store × Remote (Telegram.Channel t) → Type 0
  Answer x = x ≡ (put_answer (created etag), s', r')

  -- What a handler that creates the part has done.
  abbrev PartCreated : Bytes → ℕ → Result (List Chunk) × Remote (Telegram.Channel t) → Type 0
  PartCreated payload n a =
      (chunks : List Chunk) × (r1 : Remote (Telegram.Channel t)) × (a ≡ (ok chunks, r1))
      × (etag ≡ etag_of payload)
      × (put_multipart_part id n (etag_of payload) (length payload) chunks s ≡ ok s')
      × (r' ≡ reap t o (get_multipart_part_chunks id n s) r1)

  part_stored-Created :
      (payload : Bytes) (n : ℕ) (chunks : List Chunk) (r : Remote (Telegram.Channel t))
      (p : Result Store)
      → put_multipart_part id n (etag_of payload) (length payload) chunks s ≡ p
      → Answer (part_stored t o etag_of now bucket key id (etag_of payload) n chunks s r p)
      → PartCreated payload n (ok chunks, r)
  unfolding part_stored
  part_stored-Created payload n chunks r (err e) q h =
      absurd (let no = ap (λ x. is_part_created x.0) h in ground arith)
  part_stored-Created payload n chunks r (ok s1) q h = (
    chunks,
    r,
    refl,
    sym (ap (λ x. part_etag x.0) h),
    q ∙ ap (λ x. ok x.1) h,
    sym (ap (λ x. x.2) h),
  )

  part_sized-Created :
      (payload : Bytes) (n : ℕ) (chunks : List Chunk) (r : Remote (Telegram.Channel t))
      (v : Option PutResponse)
      → ((response : PutResponse) → v ≡ some response → is_created response ≡ false)
      → Answer (part_sized t o etag_of now bucket key id payload n chunks s r v)
      → PartCreated payload n (ok chunks, r)
  unfolding part_sized
  part_sized-Created payload n chunks r (some response) never h =
      absurd
        (let no = ap (λ x. is_part_created x.0) h in let yes = never response refl in ground arith)
  part_sized-Created payload n chunks r none never h =
      part_stored-Created payload n chunks r _ refl h

  part_uploaded-Created :
      (payload : Bytes) (n : ℕ) (a : Result (List Chunk) × Remote (Telegram.Channel t))
      → Answer (part_uploaded t o etag_of now bucket key id req payload n s a)
      → PartCreated payload n a
  unfolding part_uploaded
  part_uploaded-Created payload n (err e, r) h = absurd (
      let no = ap (λ x. is_part_created x.0) h in
      let yes = is_created-upload_error e in ground arith)
  part_uploaded-Created payload n (ok chunks, r) h =
      part_sized-Created payload n chunks r
        (validate_decoded_size req.decoded_length (length payload))
        (validate-never req.decoded_length (length payload)) h

  part_resolved-Created :
      (r : Remote (Telegram.Channel t)) (number : Option ℕ) (u : Option MultipartUpload)
      → Answer (part_resolved t o etag_of now bucket key id req s r number u)
      → (n : ℕ) × (content_type : Bytes) × (number ≡ some n)
        × PartCreated
            (decode_upload req).bytes
            n
            (upload_body t o key content_type (decode_upload req) r)
  unfolding part_resolved
  part_resolved-Created r none u h =
      absurd (let no = ap (λ x. is_part_created x.0) h in ground arith)
  part_resolved-Created r (some n) none h =
      absurd (let no = ap (λ x. is_part_created x.0) h in ground arith)
  part_resolved-Created r (some n) (some u) h =
      (n, u.content_type, refl, part_uploaded-Created (decode_upload req).bytes n _ h)

-- When an upload of a part is answered with a tag, the part number is from 1 to 10000, the payload
-- was read to its end without an error, the tag is that of the payload, the part is read back with
-- chunks that cover the payload from its first byte to its last, the message of each holds its part
-- of the payload, also behind the clean-up of the part that was replaced, whose chunks had messages
-- that hold a document, and the chunks of every other part are read as before.
pub upload_part-stored :
    (t : Telegram) (laws : TelegramLaws t) (o : Options) (etag_of : Bytes → Bytes) (now : ℕ)
    (bucket key id part_number : Bytes) (req : PutRequest) (etag : Bytes) (s s' : Store)
    (r r' : Remote (Telegram.Channel t)) (walks : Walks o.visit)
    → 0 < o.chunk_size
    → ((n : ℕ) → AreHeld t laws o walks r.channel (get_multipart_part_chunks id n s))
    → upload_part t o etag_of now bucket key id part_number req s r
      ≡ (put_answer (created etag), s', r')
    → (n : ℕ) × (chunks : List Chunk) × (1 ≤ n)
      × (n ≤ 10000)
      × (part_number_of part_number ≡ some n)
      × ((decode_upload req).error ≡ none)
      × (etag ≡ etag_of (decode_upload req).bytes)
      × (get_multipart_part_chunks id n s' ≡ map kept chunks)
      × IsChunkMap 0 0 chunks
      × (length (decode_upload req).bytes ≡ total_size chunks)
      × AreStored t laws o.chunk_size (decode_upload req).bytes r'.channel chunks
      × ((x : Bytes) (m : ℕ)
          → is_part x m id n ≡ false
          → get_multipart_part_chunks x m s' ≡ get_multipart_part_chunks x m s)
unfolding upload_part
upload_part-stored t laws o etag_of now bucket key id text req etag s s' r r' walks pos held h =
    let payload = (decode_upload req).bytes in
    let (n, content_type, number, (chunks, r1, up, tag, put, back)) =
      part_resolved-Created t o etag_of now bucket key id req etag s s' r' r (part_number_of text)
        (resolve_upload bucket key id s) h in
    let (low, high) = part_number_of-bounds text n number in
    let (fine, size, mapped, stored) =
      upload_body-Stored t laws o key content_type (decode_upload req) r r1 chunks pos up in
    let (s2, put2, seen, others) =
      put_multipart_part-view id n (etag_of payload) (length payload) chunks s mapped
        (named t laws o walks o.chunk_size payload r1.channel chunks stored) in
    let same : s2 ≡ s' = ap (stored_or s) (sym put2 ∙ put) in
    let olds = get_multipart_part_chunks id n s in
    (
      n,
      chunks,
      low,
      high,
      number,
      fine,
      tag,
      ap (get_multipart_part_chunks id n) (sym same) ∙ seen,
      mapped,
      size,
      subst
          (λ (q : Remote (Telegram.Channel t)).
            AreStored t laws o.chunk_size payload q.channel chunks)
          (sym back)
          (reap-Stored t laws o walks o.chunk_size payload olds chunks r1
            (upload-Apart t laws o walks olds chunks key content_type (decode_upload req) r r1
              (held n) up)
            stored),
      λ x m other. ap (get_multipart_part_chunks x m) (sym same) ∙ others x m other,
    )

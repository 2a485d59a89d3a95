-- ===== src/S3api/Service/PartPuts.antt =====
-- internal/s3api: the store and the channel behind a part that is uploaded or copied.
use telegram_s.Base.{ℕ, ◌<◌, ◌≡◌, refl, inl, inr, Bool-cases, Option, none, some, List}
use telegram_s.Base.Bytes.{Bytes, is_empty}
use telegram_s.Storage.{Result, ok, err, Chunk}
use telegram_s.Reader.Source.{Download}
use telegram_s.Mtproto.Api.{Telegram}
use telegram_s.Mtproto.Laws.{TelegramLaws}
use telegram_s.Mtproto.Delete.Windows.{Walks}
use telegram_s.Mtproto.Pool.{Remote}
use telegram_s.Mtproto.Split.{Body}
use telegram_s.Mtproto.Upload.{Options}
use telegram_s.Metadata.{Store, Object, MultipartUpload}
use telegram_s.Metadata.Multipart.{put_multipart_part}
use telegram_s.S3api.Range.{RangeResult, not_a_range, unsatisfiable, satisfiable}
use telegram_s.S3api.Write.{PutRequest, PutResponse, decode_upload}
use telegram_s.S3api.Copy.{
  CopyRequest, part_copy_stored, part_copy_uploaded, part_copy_opened, part_copy_ranged,
  part_copy_loaded, part_copy_parsed, upload_part_copy,
}
use telegram_s.S3api.Multipart.{part_stored, part_sized, part_uploaded, part_resolved, upload_part}
use telegram_s.S3api.Service.Live.{Fresh}
use telegram_s.S3api.Service.Good.{IsMapped, IsGood, IsGood-refused}
use telegram_s.S3api.Service.Parts.{IsGood-part}
use telegram_s.S3api.Service.Puts.{Uploaded, upload_body-Uploaded}

module _ (t : Telegram) (laws : TelegramLaws t) (o : Options) (walks : Walks o.visit)
    (pos_size : 0 < o.chunk_size) where
  open t use {Channel}

  module _ (etag_of : Bytes → Bytes) (now : ℕ) (bucket key id : Bytes) where
    part_stored-IsGood :
        (payload etag : Bytes) (n size : ℕ) (chunks : List Chunk) (s : Store) (r : Remote Channel)
        (p : Result Store)
        → put_multipart_part id n etag size chunks s ≡ p
        → Fresh t laws o walks s r.channel payload chunks
        → IsMapped s
        → (let x = part_stored t o etag_of now bucket key id etag n chunks s r p in
            IsGood t laws o walks x.1 x.2)
    unfolding part_stored
    part_stored-IsGood payload etag n size chunks s r (err e) put f m =
        IsGood-refused t laws o walks s r payload chunks f m
    part_stored-IsGood payload etag n size chunks s r (ok s') put f m =
        IsGood-part t laws o walks id n etag payload size chunks s s' r f m put

    part_sized-IsGood :
        (payload : Bytes) (n : ℕ) (chunks : List Chunk) (s : Store) (r : Remote Channel)
        (refusal : Option PutResponse)
        → Fresh t laws o walks s r.channel payload chunks
        → IsMapped s
        → (let x = part_sized t o etag_of now bucket key id payload n chunks s r refusal in
            IsGood t laws o walks x.1 x.2)
    unfolding part_sized
    part_sized-IsGood payload n chunks s r (some response) f m =
        IsGood-refused t laws o walks s r payload chunks f m
    part_sized-IsGood payload n chunks s r none f m =
        part_stored-IsGood payload _ n _ chunks s r _ refl f m

    part_uploaded-IsGood :
        (req : PutRequest) (payload : Bytes) (n : ℕ) (s : Store)
        (a : Result (List Chunk) × Remote Channel)
        → Uploaded t laws o walks pos_size s payload a
        → (let x = part_uploaded t o etag_of now bucket key id req payload n s a in
            IsGood t laws o walks x.1 x.2)
    unfolding part_uploaded
    part_uploaded-IsGood req payload n s (err e, r) g = g
    part_uploaded-IsGood req payload n s (ok chunks, r) (f, m) =
        part_sized-IsGood payload n chunks s r _ f m

    part_resolved-IsGood :
        (req : PutRequest) (s : Store) (r : Remote Channel) (n : Option ℕ)
        (u : Option MultipartUpload)
        → IsGood t laws o walks s r
        → (let x = part_resolved t o etag_of now bucket key id req s r n u in
            IsGood t laws o walks x.1 x.2)
    unfolding part_resolved
    part_resolved-IsGood req s r none u g = g
    part_resolved-IsGood req s r (some n) none g = g
    part_resolved-IsGood req s r (some n) (some u) g =
        part_uploaded-IsGood req _ n s _ (
          upload_body-Uploaded t laws o walks pos_size key u.content_type (decode_upload req) s r g)

    pub upload_part-IsGood :
        (part_number : Bytes) (req : PutRequest) (s : Store) (r : Remote Channel)
        → IsGood t laws o walks s r
        → (let x = upload_part t o etag_of now bucket key id part_number req s r in
            IsGood t laws o walks x.1 x.2)
    unfolding upload_part
    upload_part-IsGood part_number req s r g = part_resolved-IsGood req s r _ _ g

  module _ (download : Download) (size : ℕ) (etag_of : Bytes → Bytes) (u : MultipartUpload)
      (n : ℕ) where
    part_copy_stored-IsGood :
        (payload etag : Bytes) (length_of : ℕ) (chunks : List Chunk) (s : Store)
        (r : Remote Channel) (p : Result Store)
        → put_multipart_part u.upload_id n etag length_of chunks s ≡ p
        → Fresh t laws o walks s r.channel payload chunks
        → IsMapped s
        → (let x = part_copy_stored t o download size etag_of u n etag chunks s r p in
            IsGood t laws o walks x.1 x.2)
    unfolding part_copy_stored
    part_copy_stored-IsGood payload etag length_of chunks s r (err e) put f m =
        IsGood-refused t laws o walks s r payload chunks f m
    part_copy_stored-IsGood payload etag length_of chunks s r (ok s') put f m =
        IsGood-part t laws o walks u.upload_id n etag payload length_of chunks s s' r f m put

    part_copy_uploaded-IsGood :
        (payload : Bytes) (s : Store) (a : Result (List Chunk) × Remote Channel)
        → Uploaded t laws o walks pos_size s payload a
        → (let x = part_copy_uploaded t o download size etag_of u n payload s a in
            IsGood t laws o walks x.1 x.2)
    unfolding part_copy_uploaded
    part_copy_uploaded-IsGood payload s (err e, r) g = g
    part_copy_uploaded-IsGood payload s (ok chunks, r) (f, m) =
        part_copy_stored-IsGood payload _ _ chunks s r _ refl f m

    part_copy_opened-IsGood :
        (s : Store) (r : Remote Channel) (body : Result Body)
        → IsGood t laws o walks s r
        → (let x = part_copy_opened t o download size etag_of u n s r body in
            IsGood t laws o walks x.1 x.2)
    unfolding part_copy_opened
    part_copy_opened-IsGood s r (err e) g = g
    part_copy_opened-IsGood s r (ok body) g =
        part_copy_uploaded-IsGood body.bytes s _
          (upload_body-Uploaded t laws o walks pos_size u.key u.content_type body s r g)

    part_copy_ranged-IsGood :
        (src : Object) (chunks : List Chunk) (s : Store) (r : Remote Channel) (range : RangeResult)
        → IsGood t laws o walks s r
        → (let x = part_copy_ranged t o download size etag_of u n src chunks s r range in
            IsGood t laws o walks x.1 x.2)
    unfolding part_copy_ranged
    part_copy_ranged-IsGood src chunks s r not_a_range g = g
    part_copy_ranged-IsGood src chunks s r unsatisfiable g = g
    part_copy_ranged-IsGood src chunks s r (satisfiable rng) g = part_copy_opened-IsGood s r _ g

    part_copy_loaded-IsGood :
        (req : CopyRequest) (chunks : List Chunk) (s : Store) (r : Remote Channel)
        (src : Option Object)
        → IsGood t laws o walks s r
        → (let x = part_copy_loaded t o download size etag_of u n req chunks s r src in
            IsGood t laws o walks x.1 x.2)
    unfolding part_copy_loaded
    part_copy_loaded-IsGood req chunks s r none g = g
    part_copy_loaded-IsGood req chunks s r (some src) g =
        elim (Bool-cases (is_empty req.copy_source_range)) [
          | inl whole ↦ rw whole (part_copy_opened-IsGood s r _ g)
          | inr ranged ↦ rw ranged (part_copy_ranged-IsGood src chunks s r _ g)
        ]

    part_copy_parsed-IsGood :
        (req : CopyRequest) (s : Store) (r : Remote Channel) (source : Option (Bytes × Bytes))
        → IsGood t laws o walks s r
        → (let x = part_copy_parsed t o download size etag_of u n req s r source in
            IsGood t laws o walks x.1 x.2)
    unfolding part_copy_parsed
    part_copy_parsed-IsGood req s r none g = g
    part_copy_parsed-IsGood req s r (some (src_bucket, src_key)) g =
        part_copy_loaded-IsGood req _ s r _ g

    pub upload_part_copy-IsGood :
        (req : CopyRequest) (s : Store) (r : Remote Channel)
        → IsGood t laws o walks s r
        → (let x = upload_part_copy t o download size etag_of u n req s r in
            IsGood t laws o walks x.1 x.2)
    unfolding upload_part_copy
    upload_part_copy-IsGood req s r g = part_copy_parsed-IsGood req s r _ g

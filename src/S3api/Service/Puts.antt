-- ===== src/S3api/Service/Puts.antt =====
-- internal/s3api: the store and the channel behind a PUT and behind a copy.
use telegram_s.Base.{
  ℕ, ◌<◌, ◌≡◌, refl, sym, ap, ◌∙◌, inl, inr, Bool-cases, Option, none, some, List,
}
use telegram_s.Base.Bytes.{Bytes}
use telegram_s.Storage.{Result, ok, err, Chunk}
use telegram_s.Reader.Source.{Download}
use telegram_s.Mtproto.Api.{Telegram}
use telegram_s.Mtproto.Laws.{TelegramLaws}
use telegram_s.Mtproto.Delete.Windows.{Walks}
use telegram_s.Mtproto.Pool.{Remote}
use telegram_s.Mtproto.Split.{Body}
use telegram_s.Mtproto.Upload.{Options, upload_body}
use telegram_s.Mtproto.Upload.Keeps.{upload_body-keeps}
use telegram_s.Metadata.{Store, Object, bucket_exists, put_object}
use telegram_s.S3api.Write.{
  PutRequest, PutResponse, put_stored, put_sized, put_uploaded, put_object_handler, new_object,
  decode_upload,
}
use telegram_s.S3api.Copy.{
  CopyRequest, copied_object, copy_stored, copy_uploaded, copy_opened, copy_loaded, copy_parsed,
  copy_object,
}
use telegram_s.S3api.Service.Live.{Fresh, upload_body-Fresh}
use telegram_s.S3api.Service.Good.{IsMapped, IsGood, IsGood-kept, IsGood-refused}
use telegram_s.S3api.Service.Stored.{IsGood-put}

module _ (t : Telegram) (laws : TelegramLaws t) (o : Options) (walks : Walks o.visit)
    (pos_size : 0 < o.chunk_size) where
  open t use {Channel}

  -- What an upload leaves for the handler that has called it.
  abbrev pub Uploaded : Store → Bytes → Result (List Chunk) × Remote Channel → Type 0
  Uploaded s payload (err e, r) = IsGood t laws o walks s r
  Uploaded s payload (ok news, r) = Fresh t laws o walks s r.channel payload news × IsMapped s

  pub upload_body-Uploaded :
      (name content_type : Bytes) (body : Body) (s : Store) (r : Remote Channel)
      → IsGood t laws o walks s r
      → Uploaded s body.bytes (upload_body t o name content_type body r)
  upload_body-Uploaded name content_type body s r g =
      by_result (upload_body t o name content_type body r) refl
    where
      by_result :
          (a : Result (List Chunk) × Remote Channel)
          → upload_body t o name content_type body r ≡ a
          → Uploaded s body.bytes a
      by_result (err e, r1) up =
          IsGood-kept t laws o walks s r r1
            (λ j d held.
              ap (λ a. TelegramLaws.content laws a.1.channel j) (sym up)
              ∙ upload_body-keeps t laws o name content_type body r j d walks held)
            g
      by_result (ok news, r1) up = (
        upload_body-Fresh t laws o walks s name content_type body r r1 news pos_size g.live
            g.distinct up,
        g.mapped,
      )

  module _ (etag_of : Bytes → Bytes) (now : ℕ) (bucket key : Bytes) where
    put_stored-IsGood :
        (req : PutRequest) (payload : Bytes) (chunks : List Chunk) (etag : Bytes) (s : Store)
        (r : Remote Channel) (p : Result Store)
        → put_object now
            (new_object t o etag_of now bucket key req payload chunks)
            req.metadata
            chunks
            s
          ≡ p
        → Fresh t laws o walks s r.channel payload chunks
        → IsMapped s
        → (let x = put_stored t o etag_of now bucket key chunks etag s r p in
            IsGood t laws o walks x.1 x.2)
    unfolding put_stored
    put_stored-IsGood req payload chunks etag s r (err e) put f m =
        IsGood-refused t laws o walks s r payload chunks f m
    put_stored-IsGood req payload chunks etag s r (ok s') put f m =
        IsGood-put t laws o walks now (new_object t o etag_of now bucket key req payload chunks)
          req.metadata payload chunks s s' r f m refl put

    put_sized-IsGood :
        (req : PutRequest) (payload : Bytes) (chunks : List Chunk) (s : Store) (r : Remote Channel)
        (refusal : Option PutResponse)
        → Fresh t laws o walks s r.channel payload chunks
        → IsMapped s
        → (let x = put_sized t o etag_of now bucket key req payload chunks s r refusal in
            IsGood t laws o walks x.1 x.2)
    unfolding put_sized
    put_sized-IsGood req payload chunks s r (some response) f m =
        IsGood-refused t laws o walks s r payload chunks f m
    put_sized-IsGood req payload chunks s r none f m =
        put_stored-IsGood req payload chunks _ s r _ refl f m

    put_uploaded-IsGood :
        (req : PutRequest) (payload : Bytes) (s : Store) (a : Result (List Chunk) × Remote Channel)
        → Uploaded s payload a
        → (let x = put_uploaded t o etag_of now bucket key req payload s a in
            IsGood t laws o walks x.1 x.2)
    unfolding put_uploaded
    put_uploaded-IsGood req payload s (err e, r) g = g
    put_uploaded-IsGood req payload s (ok chunks, r) (f, m) =
        put_sized-IsGood req payload chunks s r _ f m

    pub put_object_handler-IsGood :
        (req : PutRequest) (s : Store) (r : Remote Channel)
        → IsGood t laws o walks s r
        → (let x = put_object_handler t o etag_of now bucket key req s r in
            IsGood t laws o walks x.1 x.2)
    unfolding put_object_handler
    put_object_handler-IsGood req s r g = elim (Bool-cases (bucket_exists bucket s)) [
      | inr missing ↦ rw missing g
      | inl there ↦ rw there (
          put_uploaded-IsGood req (decode_upload req).bytes s _
            (upload_body-Uploaded key _ (decode_upload req) s r g))
    ]

    module _ (download : Download) (n : ℕ) where
      copy_stored-IsGood :
          (content_type : Bytes) (meta : List (Bytes × Bytes)) (payload etag : Bytes)
          (chunks : List Chunk) (s : Store) (r : Remote Channel) (p : Result Store)
          → put_object now
              (copied_object t o download n etag_of now bucket key content_type payload chunks)
              meta
              chunks
              s
            ≡ p
          → Fresh t laws o walks s r.channel payload chunks
          → IsMapped s
          → (let x = copy_stored t o download n etag_of now bucket key etag chunks s r p in
              IsGood t laws o walks x.1 x.2)
      unfolding copy_stored
      copy_stored-IsGood content_type meta payload etag chunks s r (err e) put f m =
          IsGood-refused t laws o walks s r payload chunks f m
      copy_stored-IsGood content_type meta payload etag chunks s r (ok s') put f m =
          IsGood-put t laws o walks now
            (copied_object t o download n etag_of now bucket key content_type payload chunks) meta
            payload chunks s s' r f m refl put

      copy_uploaded-IsGood :
          (content_type : Bytes) (meta : List (Bytes × Bytes)) (payload : Bytes) (s : Store)
          (a : Result (List Chunk) × Remote Channel)
          → Uploaded s payload a
          → (let x =
                copy_uploaded t o download n etag_of now bucket key content_type meta payload s a in
              IsGood t laws o walks x.1 x.2)
      unfolding copy_uploaded
      copy_uploaded-IsGood content_type meta payload s (err e, r) g = g
      copy_uploaded-IsGood content_type meta payload s (ok chunks, r) (f, m) =
          copy_stored-IsGood content_type meta payload _ chunks s r _ refl f m

      copy_opened-IsGood :
          (content_type : Bytes) (meta : List (Bytes × Bytes)) (s : Store) (r : Remote Channel)
          (body : Result Body)
          → IsGood t laws o walks s r
          → (let x = copy_opened t o download n etag_of now bucket key content_type meta s r body in
              IsGood t laws o walks x.1 x.2)
      unfolding copy_opened
      copy_opened-IsGood content_type meta s r (err e) g = g
      copy_opened-IsGood content_type meta s r (ok body) g =
          copy_uploaded-IsGood content_type meta body.bytes s _
            (upload_body-Uploaded key content_type body s r g)

      copy_loaded-IsGood :
          (req : CopyRequest) (src_bucket src_key : Bytes) (s : Store) (r : Remote Channel)
          (src : Option Object)
          → IsGood t laws o walks s r
          → (let x =
                copy_loaded t o download n etag_of now bucket key req src_bucket src_key s r src in
              IsGood t laws o walks x.1 x.2)
      unfolding copy_loaded
      copy_loaded-IsGood req src_bucket src_key s r none g = g
      copy_loaded-IsGood req src_bucket src_key s r (some src) g = copy_opened-IsGood _ _ s r _ g

      copy_parsed-IsGood :
          (req : CopyRequest) (s : Store) (r : Remote Channel) (source : Option (Bytes × Bytes))
          → IsGood t laws o walks s r
          → (let x = copy_parsed t o download n etag_of now bucket key req s r source in
              IsGood t laws o walks x.1 x.2)
      unfolding copy_parsed
      copy_parsed-IsGood req s r none g = g
      copy_parsed-IsGood req s r (some (src_bucket, src_key)) g =
          copy_loaded-IsGood req src_bucket src_key s r _ g

      pub copy_object-IsGood :
          (req : CopyRequest) (s : Store) (r : Remote Channel)
          → IsGood t laws o walks s r
          → (let x = copy_object t o download n etag_of now bucket key req s r in
              IsGood t laws o walks x.1 x.2)
      unfolding copy_object
      copy_object-IsGood req s r g = copy_parsed-IsGood req s r _ g

-- ===== src/S3api/Write/Failed.antt =====
-- A PUT that does not succeed, and a DELETE.
use mathlib.Core.Path.{subst}
use telegram_s.Base.{
  ℕ, ◌≡◌, ◌≢◌, refl, sym, ap, ◌∙◌, inl, inr, Bool, true, false, not, Option-cases, elim-none,
  elim-some, Option, none, some, List, [], arith, if◌then◌else◌, length,
}
use telegram_s.Base.Bytes.{Bytes}
use telegram_s.Storage.{Result, ok, err, Chunk}
use telegram_s.Mtproto.Api.{Telegram}
use telegram_s.Mtproto.Laws.{TelegramLaws}
use telegram_s.Mtproto.Delete.Windows.{Walks}
use telegram_s.Mtproto.Pool.{Remote}
use telegram_s.Mtproto.Upload.{Options, upload_body}
use telegram_s.Mtproto.Upload.Keeps.{Kept, upload_body-Kept}
use telegram_s.Metadata.{Store, Object, bucket_exists, get_object, get_object_chunks, delete_object}
use telegram_s.Metadata.Objects.{view}
use telegram_s.Metadata.Deleted.{delete_object-view}
use telegram_s.Metadata.Table.{is_at}
use telegram_s.S3api.Write.{
  PutRequest, PutResponse, no_such_bucket, decode_upload, validate_decoded_size, reap, new_object,
  put_stored, put_sized, put_uploaded, put_object_handler, delete_one_object,
}
use telegram_s.S3api.Write.Stored.{is_created, hits, mentioned-cleanup_ref, reap-others}

module _ (t : Telegram) (laws : TelegramLaws t) (o : Options) (walks : Walks o.visit)
    (etag_of : Bytes → Bytes) (now : ℕ) (bucket key : Bytes) (req : PutRequest) (j : ℕ)
    (d : Bytes) where
  open laws use {content}

  -- The store is as it was, and so is a message of before, or the object was created.
  abbrev Spared : Store → PutResponse × Store × Remote (Telegram.Channel t) → Type 0
  Spared s (response, s', r') =
      is_created response ≡ false → (s' ≡ s) × (content r'.channel j ≡ some d)

  put_stored-Spared :
      (s : Store) (etag : Bytes) (chunks : List Chunk) (r : Remote (Telegram.Channel t))
      (p : Result Store)
      → content r.channel j ≡ some d
      → hits j chunks ≡ false
      → Spared s (put_stored t o etag_of now bucket key chunks etag s r p)
  unfolding put_stored
  put_stored-Spared s etag chunks r (err e) held off failed =
      (refl, reap-others t laws o walks chunks r j off ∙ held)
  put_stored-Spared s etag chunks r (ok s1) held off failed = absurd (ground arith)

  put_sized-Spared :
      (s : Store) (payload : Bytes) (chunks : List Chunk) (r : Remote (Telegram.Channel t))
      (v : Option PutResponse)
      → content r.channel j ≡ some d
      → hits j chunks ≡ false
      → Spared s (put_sized t o etag_of now bucket key req payload chunks s r v)
  unfolding put_sized
  put_sized-Spared s payload chunks r (some response) held off failed =
      (refl, reap-others t laws o walks chunks r j off ∙ held)
  put_sized-Spared s payload chunks r none held off failed =
      put_stored-Spared s (etag_of payload) chunks r _ held off failed

  put_uploaded-Spared :
      (s : Store) (payload : Bytes) (a : Result (List Chunk) × Remote (Telegram.Channel t))
      → Kept t laws o j d a
      → Spared s (put_uploaded t o etag_of now bucket key req payload s a)
  unfolding put_uploaded
  put_uploaded-Spared s payload (err e, r) held failed = (refl, held)
  put_uploaded-Spared s payload (ok chunks, r) (held, off) failed =
      put_sized-Spared s payload chunks r
        (validate_decoded_size req.decoded_length (length payload)) held
        (sym (mentioned-cleanup_ref t o j chunks) ∙ off) failed

  put_object_handler-Spared :
      (s : Store) (r : Remote (Telegram.Channel t))
      → content r.channel j ≡ some d
      → Spared s (put_object_handler t o etag_of now bucket key req s r)
  unfolding put_object_handler
  put_object_handler-Spared s r held = by_bucket (bucket_exists bucket s)
    where
      by_bucket :
          (b : Bool)
          → Spared s (
              if not b
              then (no_such_bucket, s, r)
              else put_uploaded t o etag_of now bucket key req (decode_upload req).bytes s (
                  upload_body t o key
                    (new_object t o etag_of now bucket key req [] []).content_type
                    (decode_upload req)
                    r))
      by_bucket false failed = (refl, held)
      by_bucket true failed =
          put_uploaded-Spared s (decode_upload req).bytes _
            (upload_body-Kept t laws o key _ (decode_upload req) r j d walks held) failed

-- A PUT that does not answer 200, at whatever step it fails, changes nothing in the store, and every
-- message that the channel held before still holds its document: the version that it would have
-- replaced is still whole.
pub put_object_handler-failed :
    (t : Telegram) (laws : TelegramLaws t) (o : Options) (etag_of : Bytes → Bytes) (now : ℕ)
    (bucket key : Bytes) (req : PutRequest) (s s' : Store) (r r' : Remote (Telegram.Channel t))
    (response : PutResponse) (j : ℕ) (d : Bytes)
    → Walks o.visit
    → put_object_handler t o etag_of now bucket key req s r ≡ (response, s', r')
    → is_created response ≡ false
    → TelegramLaws.content laws r.channel j ≡ some d
    → (s' ≡ s) × (TelegramLaws.content laws r'.channel j ≡ some d)
put_object_handler-failed t laws o etag_of now bucket key req s s' r r' response j d walks h failed
      held =
    subst (Spared t laws o walks etag_of now bucket key req j d s) h
      (put_object_handler-Spared t laws o walks etag_of now bucket key req j d s r held) failed

-- A DELETE of an object that is there takes it out of the store and out of no other place, and
-- spares every message that is none of its chunks; a DELETE of a missing object does nothing.
pub delete_one_object-view :
    (t : Telegram) (laws : TelegramLaws t) (o : Options) (bucket key : Bytes) (s : Store)
    (r : Remote (Telegram.Channel t))
    → Walks o.visit
    → (get_object bucket key s ≡ none → delete_one_object t o bucket key s r ≡ (s, r))
      × (get_object bucket key s ≢ none
          → (view bucket key (delete_one_object t o bucket key s r).0 ≡ (none, [], []))
            × ((b k : Bytes)
                → is_at b k bucket key ≡ false
                → view b k (delete_one_object t o bucket key s r).0 ≡ view b k s)
            × ((j : ℕ)
                → hits j (get_object_chunks bucket key s) ≡ false
                → TelegramLaws.content laws (delete_one_object t o bucket key s r).1.channel j
                  ≡ TelegramLaws.content laws r.channel j))
delete_one_object-view t laws o bucket key s r walks = (
  λ missing. missed missing,
  λ present. elim (Option-cases (get_object bucket key s)) [
    | inl missing ↦ absurd (present missing)
    | inr (obj, found) ↦
        let e = deleted obj found in
        let (gone, others) = delete_object-view bucket key s in
        (
          ap (λ p. view bucket key p.0) e ∙ gone,
          λ b k other. ap (λ p. view b k p.0) e ∙ others b k other,
          λ j off.
              ap (λ p. TelegramLaws.content laws p.1.channel j) e
              ∙ reap-others t laws o walks (get_object_chunks bucket key s) r j off,
        )
  ],
)
  where
    missed : get_object bucket key s ≡ none → delete_one_object t o bucket key s r ≡ (s, r)
    missed h = unfold delete_one_object in (elim-none _ _ (get_object bucket key s) h)

    deleted :
        (obj : Object)
        → get_object bucket key s ≡ some obj
        → delete_one_object t o bucket key s r
          ≡ (delete_object bucket key s, reap t o (get_object_chunks bucket key s) r)
    deleted obj h = unfold delete_one_object in (elim-some _ _ (get_object bucket key s) h)

-- ===== src/S3api/Write/Stored.antt =====
-- What a PUT that succeeds leaves behind, in the store and in the channel.
use mathlib.Core.Path.{subst}
use telegram_s.Base.{
  ℕ, ◌≡◌, refl, sym, ap, ◌∙◌, Bool, true, false, Option, none, some, List, [], ◌∷◌, map, arith,
  ◌==◌, length, any,
}
use telegram_s.Base.Bytes.{Bytes, is_empty}
use telegram_s.Storage.{Error, Result, ok, err, Chunk, ref_of}
use telegram_s.Mtproto.Api.{Telegram}
use telegram_s.Mtproto.Laws.{TelegramLaws}
use telegram_s.Mtproto.Delete.Windows.{mentioned, Walks, content-delete_batch}
use telegram_s.Mtproto.Pool.{Remote}
use telegram_s.Mtproto.Split.{Body}
use telegram_s.Mtproto.Upload.{Options, upload_body, cleanup_ref}
use telegram_s.Mtproto.Upload.Keeps.{Kept, upload_body-Kept}
use telegram_s.Mtproto.Upload.Stored.{AreStored}
use telegram_s.Metadata.{Store, get_object_chunks, put_object}
use telegram_s.Metadata.Rows.{AreNamed}
use telegram_s.S3api.Write.{
  PutRequest, PutResponse, created, upload_error, validate_decoded_size, reap, new_object,
  put_stored, put_sized, put_uploaded,
}

-- One of the chunks is the message.
abbrev pub hits : ℕ → List Chunk → Bool
hits j cs = any (λ c. c.message_id == j) cs

mentioned-ref_of : (j : ℕ) (cs : List Chunk) → mentioned j (map ref_of cs) ≡ hits j cs
mentioned-ref_of j [] = refl
mentioned-ref_of j (c ∷ cs) = ground (arith, mentioned-ref_of j cs)

pub mentioned-cleanup_ref :
    (t : Telegram) (o : Options) (j : ℕ) (cs : List Chunk)
    → mentioned j (map (cleanup_ref t o) cs) ≡ hits j cs
mentioned-cleanup_ref t o j [] = refl
mentioned-cleanup_ref t o j (c ∷ cs) = ground (arith, mentioned-cleanup_ref t o j cs)

-- Chunks that share no message, seen from the other side.
abbrev pub Apart : List Chunk → List Chunk → Type 0
Apart [] news = Unit
Apart (a ∷ olds) news = (hits a.message_id news ≡ false) × Apart olds news

Apart-nil : (olds : List Chunk) → Apart olds []
Apart-nil [] = tt
Apart-nil (a ∷ olds) = (refl, Apart-nil olds)

Apart-head :
    (olds : List Chunk) (n : Chunk) (news : List Chunk)
    → Apart olds (n ∷ news)
    → hits n.message_id olds ≡ false
Apart-head [] n news h = refl
Apart-head (a ∷ olds) n news (h, hs) = ground (arith, Apart-head olds n news hs)

Apart-tail :
    (olds : List Chunk) (n : Chunk) (news : List Chunk) → Apart olds (n ∷ news) → Apart olds news
Apart-tail [] n news h = tt
Apart-tail (a ∷ olds) n news (h, hs) = (ground arith, Apart-tail olds n news hs)

module _ (t : Telegram) (laws : TelegramLaws t) (o : Options) (walks : Walks o.visit) where
  open laws use {content}

  -- Every chunk's message holds a document.
  abbrev pub AreHeld : Telegram.Channel t → List Chunk → Type 0
  AreHeld c [] = Unit
  AreHeld c (ch ∷ chs) = ((d : Bytes) × (content c ch.message_id ≡ some d)) × AreHeld c chs

  pub reap-others :
      (olds : List Chunk) (r : Remote (Telegram.Channel t)) (j : ℕ)
      → hits j olds ≡ false
      → content (reap t o olds r).channel j ≡ content r.channel j
  unfolding reap
  reap-others [] r j h = refl
  reap-others (c ∷ cs) r j h =
      (content-delete_batch t laws o.bots o.visit (map ref_of (c ∷ cs)) r j walks).0
        (mentioned-ref_of j (c ∷ cs) ∙ h)

  pub reap-Stored :
      (chunk_size : ℕ) (whole : Bytes) (olds news : List Chunk) (r : Remote (Telegram.Channel t))
      → Apart olds news
      → AreStored t laws chunk_size whole r.channel news
      → AreStored t laws chunk_size whole (reap t o olds r).channel news
  reap-Stored chunk_size whole olds [] r apart s = tt
  reap-Stored chunk_size whole olds (n ∷ news) r apart ((pos, le, by, held), s) = (
    (pos, le, by, reap-others olds r n.message_id (Apart-head olds n news apart) ∙ held),
    reap-Stored chunk_size whole olds news r (Apart-tail olds n news apart) s,
  )

  -- No chunk is a message that holds a document in the channel.
  abbrev pub Fresh : Telegram.Channel t → List Chunk → Type 0
  Fresh c chunks = (j : ℕ) (d : Bytes) → content c j ≡ some d → hits j chunks ≡ false

  pub upload-Fresh :
      (chunks : List Chunk) (name content_type : Bytes) (body : Body)
      (r r' : Remote (Telegram.Channel t))
      → upload_body t o name content_type body r ≡ (ok chunks, r')
      → Fresh r.channel chunks
  upload-Fresh chunks name content_type body r r' e j d held =
      sym (mentioned-cleanup_ref t o j chunks)
      ∙ (subst (Kept t laws o j d) e
          (upload_body-Kept t laws o name content_type body r j d walks held)).1

  pub upload-Apart :
      (olds chunks : List Chunk) (name content_type : Bytes) (body : Body)
      (r r' : Remote (Telegram.Channel t))
      → AreHeld r.channel olds
      → upload_body t o name content_type body r ≡ (ok chunks, r')
      → Apart olds chunks
  upload-Apart [] chunks name content_type body r r' h e = tt
  upload-Apart (a ∷ olds) chunks name content_type body r r' ((d, held), h) e = (
    upload-Fresh chunks name content_type body r r' e a.message_id d held,
    upload-Apart olds chunks name content_type body r r' h e,
  )

  pub named :
      (chunk_size : ℕ) (whole : Bytes) (c : Telegram.Channel t) (chunks : List Chunk)
      → AreStored t laws chunk_size whole c chunks
      → AreNamed chunks
  named chunk_size whole c [] s = tt
  named chunk_size whole c (ch ∷ chs) ((pos, le, by, held), s) =
      (ap is_empty by, named chunk_size whole c chs s)

abbrev pub is_created : PutResponse → Bool
is_created (created etag) = true
is_created _ = false

abbrev etag_in : PutResponse → Bytes
etag_in (created etag) = etag
etag_in _ = []

pub is_created-upload_error : (e : Error) → is_created (upload_error e) ≡ false
is_created-upload_error Error.malformed_chunked = refl
is_created-upload_error (Error.rpc x) = refl
is_created-upload_error (Error.transport x) = refl
is_created-upload_error (Error.fault x) = refl
is_created-upload_error Error.outside_chunk_map = refl
is_created-upload_error Error.exhausted = refl

pub validate-never :
    (declared : Bytes) (got : ℕ) (response : PutResponse)
    → validate_decoded_size declared got ≡ some response
    → is_created response ≡ false
unfolding validate_decoded_size
validate-never declared got response h = ground arith

module _ (t : Telegram) (o : Options) (etag_of : Bytes → Bytes) (now : ℕ) (bucket key : Bytes)
    (req : PutRequest) where
  -- What a handler that creates the object has done.
  abbrev pub Created :
      Bytes
      → Store
      → Result (List Chunk) × Remote (Telegram.Channel t)
      → Bytes
      → Store
      → Remote (Telegram.Channel t)
      → Type 0
  Created payload s a etag s' r' =
      (chunks : List Chunk) × (r1 : Remote (Telegram.Channel t)) × (a ≡ (ok chunks, r1))
      × (etag ≡ etag_of payload)
      × (put_object now (new_object t o etag_of now bucket key req payload chunks) req.metadata
            chunks s
          ≡ ok s')
      × (r' ≡ reap t o (get_object_chunks bucket key s) r1)

  put_stored-Created :
      (payload : Bytes) (s s' : Store) (chunks : List Chunk) (r r' : Remote (Telegram.Channel t))
      (etag : Bytes) (p : Result Store)
      → put_object now
          (new_object t o etag_of now bucket key req payload chunks)
          req.metadata
          chunks
          s
        ≡ p
      → put_stored t o etag_of now bucket key chunks (etag_of payload) s r p
        ≡ (created etag, s', r')
      → Created payload s (ok chunks, r) etag s' r'
  unfolding put_stored
  put_stored-Created payload s s' chunks r r' etag (err e) q h =
      absurd (let no = ap (λ x. is_created x.0) h in ground arith)
  put_stored-Created payload s s' chunks r r' etag (ok s1) q h = (
    chunks,
    r,
    refl,
    sym (ap (λ x. etag_in x.0) h),
    q ∙ ap (λ x. ok x.1) h,
    sym (ap (λ x. x.2) h),
  )

  put_sized-Created :
      (payload : Bytes) (s s' : Store) (chunks : List Chunk) (r r' : Remote (Telegram.Channel t))
      (etag : Bytes) (v : Option PutResponse)
      → ((response : PutResponse) → v ≡ some response → is_created response ≡ false)
      → put_sized t o etag_of now bucket key req payload chunks s r v ≡ (created etag, s', r')
      → Created payload s (ok chunks, r) etag s' r'
  unfolding put_sized
  put_sized-Created payload s s' chunks r r' etag (some response) never h =
      absurd (let no = ap (λ x. is_created x.0) h in let yes = never response refl in ground arith)
  put_sized-Created payload s s' chunks r r' etag none never h =
      put_stored-Created payload s s' chunks r r' etag _ refl h

  pub put_uploaded-Created :
      (payload : Bytes) (s s' : Store) (r' : Remote (Telegram.Channel t)) (etag : Bytes)
      (a : Result (List Chunk) × Remote (Telegram.Channel t))
      → put_uploaded t o etag_of now bucket key req payload s a ≡ (created etag, s', r')
      → Created payload s a etag s' r'
  unfolding put_uploaded
  put_uploaded-Created payload s s' r' etag (err e, r) h =
      absurd
        (let no = ap (λ x. is_created x.0) h in let yes = is_created-upload_error e in ground arith)
  put_uploaded-Created payload s s' r' etag (ok chunks, r) h =
      put_sized-Created payload s s' chunks r r' etag
        (validate_decoded_size req.decoded_length (length payload))
        (validate-never req.decoded_length (length payload)) h

-- ===== src/S3api/Service.antt =====
-- internal/s3api/handler.go: the gateway as a whole: `ServeHTTP` with the handlers that change the
-- store or the channel, `createBucket` and `deleteBucket` among them, and the ticks of
-- internal/s3api/janitor.go between the requests. A request is a step of its own.
mod Counts
mod Live
pub mod Good
mod Stored
mod Parts
mod Completed
mod Finished
pub mod Puts
pub mod PartPuts
pub mod Ends
pub mod Invariant
pub mod Readable
pub mod Unsigned
use telegram_s.Base.{ℕ, Bool, not, Option, none, some, List, [], ◌∷◌, if◌then◌else◌}
use telegram_s.Base.Bytes.{Bytes, is_empty}
use telegram_s.Base.Int.{pos}
use telegram_s.Storage.{Result, ok, err}
use telegram_s.Reader.Source.{Download}
use telegram_s.Mtproto.Api.{Telegram}
use telegram_s.Mtproto.Pool.{Remote}
use telegram_s.Mtproto.Upload.{Options}
use telegram_s.Metadata.{
  Store, Object, MultipartUpload, bucket_exists, create_bucket, delete_bucket,
}
use telegram_s.Metadata.Listing.{list_objects_page}
use telegram_s.S3api.Write.{PutRequest, put_object_handler, delete_one_object}
use telegram_s.S3api.Assembly.{CompletePart}
use telegram_s.S3api.Copy.{CopyRequest, copy_object, upload_part_copy}
use telegram_s.S3api.Multipart.{
  create_upload_handler, resolve_upload, part_number_of, upload_part, complete_multipart_upload,
  abort_multipart_upload,
}
use telegram_s.S3api.Bulk.{DeleteRequest, delete_objects, sweep_stale_uploads}
use telegram_s.S3api.Router.{HttpRequest, Action, route}
use telegram_s.S3api.Router

-- The configuration of a gateway, and what it calls: `download` reads from a channel, `authorized`
-- checks a signature.
pub record Gateway (t : Telegram) : Type 0 where
  pub options : Options
  pub etag_of : Bytes → Bytes
  pub download : Telegram.Channel t → Download
  pub stream_chunk_size : ℕ
  pub endpoint_host : Bytes
  pub authorized : HttpRequest → Bool

-- A request, the time at which it comes, the identifier that a new upload gets, and what the handlers
-- read of its headers and its body.
pub record Call : Type 0 where
  pub http : HttpRequest
  pub now : ℕ
  pub new_id : Bytes
  pub content : PutRequest
  pub copy : CopyRequest
  pub deletes : Option DeleteRequest
  pub parts : Option (List CompletePart)

abbrev pub result_or : Store → Result Store → Store
result_or s (err e) = s
result_or s (ok s') = s'

-- createBucket
unfoldable pub create_bucket_handler : ℕ → Bytes → Store → Store
create_bucket_handler now bucket s = result_or s (create_bucket bucket now s)

abbrev pub removed_or : Store → Option Store → Store
removed_or s none = s
removed_or s (some s') = s'

abbrev pub if_no_objects : Store → Store → List Object → Store
if_no_objects s s' [] = s'
if_no_objects s s' (x ∷ xs) = s

-- deleteBucket
unfoldable pub delete_bucket_handler : Bytes → Store → Store
delete_bucket_handler bucket s =
    if_no_objects s (removed_or s (delete_bucket bucket s))
      (list_objects_page
        (record { bucket = bucket; prefix = []; delimiter = []; after = []; max_keys = pos 1 })
        s).objects

module _ (t : Telegram) (g : Gateway t) where
  open t use {Channel}

  abbrev pub State : Type 0
  State = Store × Remote Channel

  -- What a handler leaves behind, its answer aside.
  abbrev pub effect : {R : Type 0} → R × Store × Remote Channel → State
  effect (response, s, r) = (s, r)

  -- putObject, with or without x-amz-copy-source
  unfoldable pub put_or_copy : Call → Bytes → Bytes → Store → Remote Channel → State
  put_or_copy c bucket key s r =
      if not (bucket_exists bucket s)
      then (s, r)
      else if is_empty c.copy.copy_source
      then effect (put_object_handler t g.options g.etag_of c.now bucket key c.content s r)
      else effect (
          copy_object t g.options (g.download r.channel) g.stream_chunk_size g.etag_of c.now bucket
            key c.copy s r)

  unfoldable pub part_copied :
      Call → Store → Remote Channel → Option ℕ → Option MultipartUpload → State
  part_copied c s r none u = (s, r)
  part_copied c s r (some n) none = (s, r)
  part_copied c s r (some n) (some u) = effect (
      upload_part_copy t g.options (g.download r.channel) g.stream_chunk_size g.etag_of u n c.copy s
        r)

  -- uploadPart, with or without x-amz-copy-source
  unfoldable pub upload_or_copy_part :
      Call → Bytes → Bytes → Bytes → Bytes → Store → Remote Channel → State
  unfolding part_copied
  upload_or_copy_part c bucket key id part_number s r =
      if is_empty c.copy.copy_source
      then effect (upload_part t g.options g.etag_of c.now bucket key id part_number c.content s r)
      else part_copied c s r (part_number_of part_number) (resolve_upload bucket key id s)

  -- What the handlers do to the store and the channel.
  unfoldable pub perform : Call → Action → Store → Remote Channel → State
  unfolding create_bucket_handler delete_bucket_handler put_or_copy upload_or_copy_part
  perform c (Router.create_bucket bucket) s r = (create_bucket_handler c.now bucket s, r)
  perform c (Router.delete_bucket bucket) s r = (delete_bucket_handler bucket s, r)
  perform c (Router.delete_objects bucket) s r =
      effect (delete_objects t g.options bucket c.deletes s r)
  perform c (Router.create_multipart_upload bucket key) s r = (
    (create_upload_handler c.now c.new_id bucket key c.content.content_type c.content.metadata s).1,
    r,
  )
  perform c (Router.upload_part bucket key id part_number) s r =
      upload_or_copy_part c bucket key id part_number s r
  perform c (Router.complete_multipart_upload bucket key id) s r =
      effect (complete_multipart_upload t g.options g.etag_of c.now bucket key id c.parts s r)
  perform c (Router.abort_multipart_upload bucket key id) s r =
      effect (abort_multipart_upload t g.options g.etag_of c.now bucket key id s r)
  perform c (Router.put_object bucket key) s r = put_or_copy c bucket key s r
  perform c (Router.delete_object bucket key) s r = delete_one_object t g.options bucket key s r
  perform c _ s r = (s, r)

  -- ServeHTTP
  unfoldable pub serve_http : Call → Store → Remote Channel → State
  unfolding perform
  serve_http c s r = perform c (route g.endpoint_host (g.authorized c.http) c.http) s r

  -- What comes to pass: a request, or a tick of the janitor.
  pub data Step (s : Store) (r : Remote Channel) : Store → Remote Channel → Type 0 where
    request : (c : Call) → Step s r (serve_http c s r).0 (serve_http c s r).1
    tick :
        (ttl now : ℕ)
        → Step s r
            (sweep_stale_uploads t g.options ttl now s r).0
            (sweep_stale_uploads t g.options ttl now s r).1

  pub data Reach (s : Store) (r : Remote Channel) : Store → Remote Channel → Type 0 where
    here : Reach s r s r
    next :
        {s1 s2 : Store} {r1 r2 : Remote Channel}
        → Reach s r s1 r1
        → Step s1 r1 s2 r2
        → Reach s r s2 r2

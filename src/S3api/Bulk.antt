-- ===== src/S3api/Bulk.antt =====
-- internal/s3api/deleteobjects.go, and the sweep of internal/s3api/janitor.go: many deletions, one
-- behind another. Deleting from the tables does not fail, so no key is reported as an error.
pub mod Gone
pub mod Swept
use telegram_s.Base.{
  ℕ, ◌-◌, Bool, Option, none, some, List, [], ◌∷◌, ltb, ◌==◌, if◌then◌else◌, length,
}
use telegram_s.Base.Bytes.{Bytes}
use telegram_s.Mtproto.Api.{Telegram}
use telegram_s.Mtproto.Pool.{Remote}
use telegram_s.Mtproto.Upload.{Options}
use telegram_s.Metadata.{Store, MultipartUpload}
use telegram_s.Metadata.Multipart.{stale_multipart_uploads}
use telegram_s.S3api.Write.{delete_one_object}
use telegram_s.S3api.Multipart.{abort_upload_internal}

pub record DeleteRequest : Type 0 where
  pub quiet : Bool
  pub keys : List Bytes

pub data DeleteResponse : Type 0 where
  malformed : DeleteResponse
  too_many_keys : DeleteResponse
  deleted : List Bytes → DeleteResponse

module _ (t : Telegram) (o : Options) where
  open t use {Channel}

  -- The loop over the keys.
  unfoldable pub delete_each : Bytes → List Bytes → Store → Remote Channel → Store × Remote Channel
  delete_each bucket [] s r = (s, r)
  delete_each bucket (k ∷ ks) s r =
      delete_each bucket ks (delete_one_object t o bucket k s r).0
        (delete_one_object t o bucket k s r).1

  unfoldable pub delete_decoded :
      Bytes
      → Option DeleteRequest
      → Store
      → Remote Channel
      → DeleteResponse × Store × Remote Channel
  unfolding delete_each
  delete_decoded bucket none s r = (malformed, s, r)
  delete_decoded bucket (some req) s r =
      if length req.keys == 0
      then (malformed, s, r)
      else if ltb 1000 (length req.keys)
      then (too_many_keys, s, r)
      else (
        deleted (if req.quiet then [] else req.keys),
        (delete_each bucket req.keys s r).0,
        (delete_each bucket req.keys s r).1,
      )

  -- deleteObjects; a request without a decoded body is one whose XML does not parse.
  unfoldable pub delete_objects :
      Bytes
      → Option DeleteRequest
      → Store
      → Remote Channel
      → DeleteResponse × Store × Remote Channel
  unfolding delete_decoded
  delete_objects bucket req s r = delete_decoded bucket req s r

  -- The loop over the stale uploads.
  unfoldable pub abort_each : List MultipartUpload → Store → Remote Channel → Store × Remote Channel
  unfolding abort_upload_internal
  abort_each [] s r = (s, r)
  abort_each (u ∷ us) s r =
      abort_each us (abort_upload_internal t o u.upload_id s r).0
        (abort_upload_internal t o u.upload_id s r).1

  -- sweepStaleMultipartUploads; before the time `ttl` there is nothing to sweep.
  unfoldable pub sweep_stale_uploads : ℕ → ℕ → Store → Remote Channel → Store × Remote Channel
  unfolding abort_each
  sweep_stale_uploads ttl now s r = abort_each (stale_multipart_uploads (now - ttl) s) s r

  -- RunMultipartJanitor over the times at which its ticker fires.
  unfoldable pub run_multipart_janitor :
      ℕ → ℕ → List ℕ → Store → Remote Channel → Store × Remote Channel
  unfolding sweep_stale_uploads
  run_multipart_janitor interval ttl [] s r = (s, r)
  run_multipart_janitor interval ttl (now ∷ ticks) s r =
      let rest =
        run_multipart_janitor interval ttl ticks (sweep_stale_uploads ttl now s r).0
          (sweep_stale_uploads ttl now s r).1 in
      if interval == 0 then (s, r) else rest

-- ===== src/S3api/Signature/Signed.antt =====
-- internal/s3api/handler.go: which requests `authorized` lets through.
use telegram_s.Base.{ℕ, ◌≡◌, ◌↔◌, refl, true, false, ◌||◌, Option, arith}
use telegram_s.Base.Bytes.{Bytes, codes, is_empty}
use telegram_s.S3api.Router.{get_value}
use telegram_s.S3api.Canonical.{SignedRequest}
use telegram_s.S3api.Signature.{Hashes, Keys, authorized}
use telegram_s.S3api.Signature.Presigned.{
  Presigned, authorized_presigned-made, Presigned-authorized,
}
use telegram_s.S3api.Signature.Header.{Headed, authorized_header-made, Headed-authorized}

-- A gateway without keys lets no request through. With its keys, a request with a signature in the
-- query is let through just when the signature is that of the secret key over the request, for a
-- credential of the access key, and the URL has not expired, its time of at most a week counted from
-- its date; one without, just when its Authorization header is so signed, with a date of at most a
-- quarter of an hour before or after now, where a signed Accept-Encoding may stand for `identity`.
pub authorized-Signed :
    (h : Hashes) (parse_time : Bytes → Option ℕ) (keys : Keys) (now : ℕ) (req : SignedRequest)
    → ((is_empty keys.secret_access_key || is_empty keys.access_key_id) ≡ true
        → authorized h parse_time keys now req ≡ false)
      × ((is_empty keys.secret_access_key || is_empty keys.access_key_id) ≡ false
          → is_empty (get_value (codes "X-Amz-Signature") req.query) ≡ false
          → (authorized h parse_time keys now req ≡ true) ↔ Presigned h parse_time keys now req)
      × ((is_empty keys.secret_access_key || is_empty keys.access_key_id) ≡ false
          → is_empty (get_value (codes "X-Amz-Signature") req.query) ≡ true
          → (authorized h parse_time keys now req ≡ true) ↔ Headed h parse_time keys now req)
unfolding authorized
authorized-Signed h parse_time keys now req = (
  λ no_keys. rw no_keys refl,
  λ keyed given. (
    λ e. authorized_presigned-made h parse_time keys now req (ground arith),
    λ p. rw keyed (rw given (Presigned-authorized h parse_time keys now req p)),
  ),
  λ keyed missing. (
    λ e. authorized_header-made h parse_time keys now req (ground arith),
    λ p. rw keyed (rw missing (Headed-authorized h parse_time keys now req p)),
  ),
)

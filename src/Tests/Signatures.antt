-- ===== src/Tests/Signatures.antt =====
-- Signatures with hashes that only tell their arguments apart.
use mathlib.Core.List.Perm
use telegram_s.Base.{ℕ, ◌≡◌, ◌↔◌, refl, true, false, ◌||◌, some, Option, [], ◌∷◌}
use telegram_s.Base.Bytes.{Bytes, codes, equal, is_empty, less, split_byte}
use telegram_s.Base.Int.{parse_int}
use telegram_s.S3api.Router.{get_value}
use telegram_s.S3api.Uri.{aws_uri_encode}
use telegram_s.Metadata.Table.{order_by}
use telegram_s.S3api.Canonical.{SignedRequest, canonical_query, hex_encode}
use telegram_s.S3api.Canonical.Order.{canonical_query-perm}
use telegram_s.S3api.Signature.{Hashes, Keys, authorized}
use telegram_s.S3api.Signature.Presigned.{Presigned}
use telegram_s.S3api.Signature.Header.{Headed}
use telegram_s.S3api.Signature.Signed.{authorized-Signed}

canonical_query-perm_example :
    canonical_query ((codes "uploads", []) ∷ (codes "a b", codes "/") ∷ []) []
    ≡ canonical_query ((codes "a b", codes "/") ∷ (codes "uploads", []) ∷ []) []
canonical_query-perm_example =
    canonical_query-perm [] ((codes "uploads", []) ∷ (codes "a b", codes "/") ∷ [])
      ((codes "a b", codes "/") ∷ (codes "uploads", []) ∷ [])
      (Perm.swap (codes "a b", codes "/") (codes "uploads", []) [])

canonical_query_test :
    canonical_query ((codes "uploads", []) ∷ (codes "a b", codes "/") ∷ []) []
    ≡ codes "a%20b=%2F&uploads="
unfolding canonical_query aws_uri_encode order_by less equal
canonical_query_test = refl

abbrev hashes : Hashes
hashes = record { sha256 = λ text. text; hmac_sha256 = λ key text. 171 ∷ [] }

abbrev keys : Keys
keys = record { access_key_id = codes "id"; secret_access_key = codes "secret" }

abbrev clock : Bytes → Option ℕ
clock text = some 1000000000

-- GET of a presigned URL, one second old.
abbrev presigned : SignedRequest
presigned = record {
  method = codes "GET";
  path = codes "/b";
  host = codes "h";
  query =
      (codes "X-Amz-Credential", codes "id/d/r/s3/aws4_request")
      ∷ (codes "X-Amz-SignedHeaders", codes "host")
      ∷ (codes "X-Amz-Date", codes "now")
      ∷ (codes "X-Amz-Expires", codes "60")
      ∷ (codes "X-Amz-Signature", codes "ab")
      ∷ [];
  header = λ name. [];
}

authorized-Signed_example :
    ((is_empty (codes "secret") || is_empty (codes "id")) ≡ true
      → authorized hashes clock keys 2000000000 presigned ≡ false)
    × ((is_empty (codes "secret") || is_empty (codes "id")) ≡ false
        → is_empty (get_value (codes "X-Amz-Signature") presigned.query) ≡ false
        → (authorized hashes clock keys 2000000000 presigned ≡ true)
          ↔ Presigned hashes clock keys 2000000000 presigned)
    × ((is_empty (codes "secret") || is_empty (codes "id")) ≡ false
        → is_empty (get_value (codes "X-Amz-Signature") presigned.query) ≡ true
        → (authorized hashes clock keys 2000000000 presigned ≡ true)
          ↔ Headed hashes clock keys 2000000000 presigned)
authorized-Signed_example = authorized-Signed hashes clock keys 2000000000 presigned

-- The signature is right, and so the URL is let through.
signed_url : authorized hashes clock keys 2000000000 presigned ≡ true
unfolding authorized get_value equal split_byte parse_int hex_encode
signed_url = refl

-- An hour later it has expired.
expired_url : authorized hashes clock keys 3600000000000 presigned ≡ false
unfolding authorized get_value equal split_byte parse_int
expired_url = refl

-- ===== src/S3api/Signature.antt =====
-- internal/s3api/handler.go: `authorized`, `authorizedPresigned` and the signatures of SigV4. The
-- hashes are arguments, and so is the parser of the time format. Times are nanoseconds.
pub mod Presigned
pub mod Header
pub mod Signed
use telegram_s.Base.{
  ℕ, ◌+◌, ◌-◌, ◌*◌, ◌/◌, Bool, true, false, not, ◌&&◌, ◌||◌, Option, none, some, List, [], ◌∷◌,
  ◌++◌, any, leb, ltb, if◌then◌else◌,
}
use telegram_s.Base.Bytes.{
  Bytes, codes, equal, is_empty, has_prefix, trim_prefix, trim_space, equal_fold, index_byte,
  split_byte,
}
use telegram_s.Base.Int.{ℤ, pos, negsuc, parse_int}
use telegram_s.Base.{take, drop}
use telegram_s.S3api.Router.{get_value}
use telegram_s.S3api.Canonical.{
  SignedRequest, newline, hex_encode, canonical_request, canonical_uri, canonical_query,
  canonical_headers_with,
}

-- crypto/sha256 and crypto/hmac.
pub record Hashes : Type 0 where
  pub sha256 : Bytes → Bytes
  pub hmac_sha256 : Bytes → Bytes → Bytes

pub record Keys : Type 0 where
  pub access_key_id : Bytes
  pub secret_access_key : Bytes

-- hasSigned
unfoldable pub has_signed : Bytes → Bytes → Bool
unfolding trim_space split_byte
has_signed signed_headers name =
    any (λ h. equal_fold (trim_space h) name) (split_byte b';' signed_headers)

-- The date, the region and the service of a credential.
pub record Scope : Type 0 where
  pub date : Bytes
  pub region : Bytes
  pub service : Bytes

scope_of : Keys → List Bytes → Option Scope
scope_of keys (id ∷ date ∷ region ∷ service ∷ last ∷ []) =
    if equal id keys.access_key_id
    then some (record { date = date; region = region; service = service })
    else none
scope_of keys _ = none

-- The five parts of a credential of this access key.
unfoldable pub parse_credential : Keys → Bytes → Option Scope
unfolding scope_of
parse_credential keys credential = scope_of keys (split_byte b'/' credential)

field_of : Bytes → Option ℕ → List (Bytes × Bytes)
field_of part none = []
field_of part (some i) = (take i part, drop (i + 1) part) ∷ []

-- parseAuthFields; of two fields of one name the later one counts, and stands first here.
unfoldable pub parse_auth_fields : List Bytes → List (Bytes × Bytes)
unfolding field_of
parse_auth_fields [] = []
parse_auth_fields (part ∷ parts) =
    parse_auth_fields parts ++ field_of (trim_space part) (index_byte b'=' (trim_space part))

abbrev pub second : ℕ
second = 1000000000

abbrev pub quarter : ℕ
quarter = 900 * second

abbrev pub header_hash : SignedRequest → Bytes
header_hash req =
    let hash = req.header (codes "X-Amz-Content-Sha256") in
    if is_empty hash then codes "UNSIGNED-PAYLOAD" else hash

module _ (h : Hashes) where
  -- stringToSign
  unfoldable pub string_to_sign : Bytes → Scope → Bytes → Bytes
  string_to_sign amz_date scope canon =
      codes "AWS4-HMAC-SHA256"
      ++ newline
      ++ amz_date
      ++ newline
      ++ scope.date
      ++ codes "/"
      ++ scope.region
      ++ codes "/"
      ++ scope.service
      ++ codes "/aws4_request"
      ++ newline
      ++ hex_encode (h.sha256 canon)

  -- sign
  unfoldable pub sign : Bytes → Scope → Bytes → Bytes
  sign secret scope text =
      let k_date = h.hmac_sha256 (codes "AWS4" ++ secret) scope.date in
      let k_region = h.hmac_sha256 k_date scope.region in
      let k_service = h.hmac_sha256 k_region scope.service in
      let k_signing = h.hmac_sha256 k_service (codes "aws4_request") in
      hex_encode (h.hmac_sha256 k_signing text)

  -- The signature that a request with this canonical query and these headers carries.
  unfoldable pub signature_of :
      Keys → SignedRequest → Scope → Bytes → Bytes → Bytes → Bytes → Bytes → Bytes
  unfolding string_to_sign sign
  signature_of keys req scope amz_date signed_headers query headers payload_hash =
      sign keys.secret_access_key scope (
        string_to_sign amz_date scope (
          canonical_request req.method (canonical_uri req.path) query headers signed_headers
            payload_hash))

  module _ (parse_time : Bytes → Option ℕ) (keys : Keys) (now : ℕ) (req : SignedRequest) where
    -- verifyHeaderSigWith
    unfoldable pub verify_header_sig_with :
        Bytes → Bytes → Scope → Bytes → List (Bytes × Bytes) → Bool
    unfolding signature_of
    verify_header_sig_with signed_headers amz_date scope signature override =
        equal
          (signature_of keys req scope amz_date signed_headers (canonical_query req.query [])
            (canonical_headers_with req signed_headers override) (header_hash req))
          signature

    abbrev pub identity : List (Bytes × Bytes)
    identity = (codes "accept-encoding", codes "identity") ∷ []

    -- The first check, and the one with the encoding that a proxy may have changed.
    unfoldable pub verify_header : Bytes → Bytes → Scope → Bytes → Bool
    unfolding verify_header_sig_with
    verify_header signed_headers amz_date scope signature =
        if verify_header_sig_with signed_headers amz_date scope signature []
        then true
        else if has_signed signed_headers (codes "accept-encoding")
            && not (equal_fold (req.header (codes "Accept-Encoding")) (codes "identity"))
        then verify_header_sig_with signed_headers amz_date scope signature identity
        else false

    pub header_at : Bytes → Bytes → Scope → Bytes → Option ℕ → Bool
    unfolding verify_header
    header_at signed_headers amz_date scope signature none = false
    header_at signed_headers amz_date scope signature (some at) =
        if ltb quarter (now - at) || ltb quarter (at - now)
        then false
        else verify_header signed_headers amz_date scope signature

    pub header_scope : Bytes → Bytes → Option Scope → Bool
    unfolding header_at
    header_scope signed_headers signature none = false
    header_scope signed_headers signature (some scope) =
        let amz_date = req.header (codes "X-Amz-Date") in
        if is_empty amz_date
        then false
        else header_at signed_headers amz_date scope signature (parse_time amz_date)

    pub header_fields : List (Bytes × Bytes) → Bool
    unfolding header_scope parse_credential
    header_fields fields =
        let credential = get_value (codes "Credential") fields in
        let signed_headers = get_value (codes "SignedHeaders") fields in
        let signature = get_value (codes "Signature") fields in
        if is_empty credential || is_empty signed_headers || is_empty signature
        then false
        else header_scope signed_headers signature (parse_credential keys credential)

    -- The part of `authorized` that reads the Authorization header.
    unfoldable pub authorized_header : Bool
    unfolding header_fields parse_auth_fields
    authorized_header =
        let auth = req.header (codes "Authorization") in
        if has_prefix (codes "AWS4-HMAC-SHA256 ") auth
        then header_fields
            (parse_auth_fields (split_byte b',' (trim_prefix auth (codes "AWS4-HMAC-SHA256 "))))
        else false

    pub presigned_at : Bytes → Bytes → Scope → Bytes → ℕ → Option ℕ → Bool
    unfolding signature_of
    presigned_at signed_headers amz_date scope provided exp none = false
    presigned_at signed_headers amz_date scope provided exp (some at) =
        if ltb (at + exp * second) now
        then false
        else equal
            (signature_of keys req scope amz_date signed_headers
              (canonical_query req.query (codes "X-Amz-Signature"))
              (canonical_headers_with req signed_headers []) (codes "UNSIGNED-PAYLOAD"))
            provided

    pub presigned_for : Bytes → Bytes → Scope → Bytes → Option ℤ → Bool
    unfolding presigned_at
    presigned_for signed_headers amz_date scope provided none = false
    presigned_for signed_headers amz_date scope provided (some (negsuc n)) = false
    presigned_for signed_headers amz_date scope provided (some (pos exp)) =
        if leb 1 exp && leb exp 604800
        then presigned_at signed_headers amz_date scope provided exp (parse_time amz_date)
        else false

    pub presigned_scope : Bytes → Bytes → Bytes → Bytes → Option Scope → Bool
    unfolding presigned_for
    presigned_scope signed_headers amz_date expires provided none = false
    presigned_scope signed_headers amz_date expires provided (some scope) =
        presigned_for signed_headers amz_date scope provided (parse_int 10 expires)

    -- authorizedPresigned
    unfoldable pub authorized_presigned : Bytes → Bool
    unfolding presigned_scope parse_credential
    authorized_presigned provided =
        let credential = get_value (codes "X-Amz-Credential") req.query in
        let signed_headers = get_value (codes "X-Amz-SignedHeaders") req.query in
        let amz_date = get_value (codes "X-Amz-Date") req.query in
        let expires = get_value (codes "X-Amz-Expires") req.query in
        if is_empty credential || is_empty signed_headers || is_empty amz_date || is_empty expires
        then false
        else presigned_scope signed_headers amz_date expires provided
            (parse_credential keys credential)

    -- authorized
    unfoldable pub authorized : Bool
    unfolding authorized_presigned authorized_header
    authorized =
        let sig = get_value (codes "X-Amz-Signature") req.query in
        if is_empty keys.secret_access_key || is_empty keys.access_key_id
        then false
        else if is_empty sig
        then authorized_header
        else authorized_presigned sig

-- ===== src/S3api/Canonical.antt =====
-- internal/s3api/handler.go: the canonical forms of SigV4.
pub mod Order
use telegram_s.Base.{
  ℕ, ◌+◌, ◌-◌, ◌/◌, ◌%◌, Bool, true, false, not, List, [], ◌∷◌, ◌++◌, map, filter, any, ltb,
  if◌then◌else◌,
}
use telegram_s.Base.Bytes.{Bytes, codes, equal, is_empty, less, is_space, to_lower, split_byte}
use telegram_s.Metadata.Table.{order_by}
use telegram_s.S3api.Uri.{aws_uri_encode}
use telegram_s.S3api.Router.{get_value}

-- What the signature covers of a request; `header` is Header.Get.
pub record SignedRequest : Type 0 where
  pub method : Bytes
  pub path : Bytes
  pub host : Bytes
  pub query : List (Bytes × Bytes)
  pub header : Bytes → Bytes

-- hex.EncodeToString
lower_hex : ℕ → ℕ
lower_hex d = if ltb d 10 then b'0' + d else b'a' + (d - 10)

unfoldable pub hex_encode : Bytes → Bytes
unfolding lower_hex
hex_encode [] = []
hex_encode (c ∷ s) = lower_hex (c / 16) ∷ lower_hex (c % 16) ∷ hex_encode s

-- strings.Join
unfoldable pub join : Bytes → List Bytes → Bytes
join sep [] = []
join sep (w ∷ []) = w
join sep (w ∷ v ∷ ws) = w ++ sep ++ join sep (v ∷ ws)

-- strings.Fields on ASCII text
words : Bytes → List Bytes
unfolding is_space split_byte
words s =
    filter (λ w. not (is_empty w)) (split_byte b' ' (map (λ c. if is_space c then b' ' else c) s))

abbrev pub newline : Bytes
newline = 10 ∷ []

-- canonicalRequest
unfoldable pub canonical_request : Bytes → Bytes → Bytes → Bytes → Bytes → Bytes → Bytes
unfolding join
canonical_request method path query headers signed_headers payload_hash = join newline (
    method
    ∷ (if is_empty path then codes "/" else path)
    ∷ query
    ∷ headers
    ∷ signed_headers
    ∷ payload_hash
    ∷ [])

-- canonicalURI
unfoldable pub canonical_uri : Bytes → Bytes
canonical_uri path = if is_empty path then codes "/" else aws_uri_encode false path

-- The order of sort.Slice.
abbrev pub pair_less : Bytes × Bytes → Bytes × Bytes → Bool
pair_less p q = if equal p.0 q.0 then less p.1 q.1 else less p.0 q.0

abbrev pub encoded_pair : Bytes × Bytes → Bytes × Bytes
encoded_pair p = (aws_uri_encode true p.0, aws_uri_encode true p.1)

abbrev pub query_pairs : Bytes → List (Bytes × Bytes) → List (Bytes × Bytes)
query_pairs skip values = map encoded_pair (filter (λ p. not (equal p.0 skip)) values)

-- canonicalQuery; the empty name to skip is that of a parameter without a name.
unfoldable pub canonical_query : List (Bytes × Bytes) → Bytes → Bytes
unfolding join
canonical_query values skip =
    join (codes "&")
      (map (λ p. p.0 ++ codes "=" ++ p.1) (order_by pair_less (query_pairs skip values)))

abbrev pub override_or : List (Bytes × Bytes) → Bytes → Bytes → Bytes
override_or override lower value =
    if any (λ p. equal p.0 lower) override then get_value lower override else value

header_line : SignedRequest → List (Bytes × Bytes) → Bytes → Bytes
unfolding join words
header_line req override name =
    let lower = map to_lower name in
    let value =
      override_or override lower
        (if equal lower (codes "host") then req.host else req.header name) in
    lower ++ codes ":" ++ join (codes " ") (words value) ++ newline

-- canonicalHeadersWith
unfoldable pub canonical_headers_with : SignedRequest → Bytes → List (Bytes × Bytes) → Bytes
unfolding header_line join
canonical_headers_with req signed_headers override =
    join [] (map (header_line req override) (split_byte b';' signed_headers))

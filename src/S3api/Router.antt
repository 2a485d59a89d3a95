-- ===== src/S3api/Router.antt =====
-- internal/s3api/handler.go: `ServeHTTP`, `splitBucketKey` and `parsePath`, and `isBucketSubresource`
-- of subresource.go. The path and the query are those that net/http has decoded; whether a request
-- is signed is an argument.
pub mod Public
use telegram_s.Base.{
  ℕ, ◌+◌, ◌-◌, Bool, true, false, not, ◌&&◌, ◌||◌, Option, none, some, List, [], ◌∷◌, if◌then◌else◌,
  any, map, length, take, drop, leb,
}
use telegram_s.Base.Bytes.{Bytes, codes, equal, is_empty, index_byte, trim_prefix, to_lower}
use telegram_s.S3api.Uri.{path_unescape}

pub data Method : Type 0 where
  get : Method
  head : Method
  put : Method
  post : Method
  delete : Method
  options : Method
  other : Bytes → Method

pub record HttpRequest : Type 0 where
  pub method : Method
  pub host : Bytes
  pub path : Bytes
  pub query : List (Bytes × Bytes)

-- The handler that a request comes to, with its arguments.
pub data Action : Type 0 where
  healthz : Action
  preflight : Action
  forbidden : Action
  list_buckets : Action
  bucket_subresource : Bytes → Action
  create_bucket : Bytes → Action
  head_bucket : Bytes → Action
  delete_bucket : Bytes → Action
  delete_objects : Bytes → Action
  create_multipart_upload : Bytes → Bytes → Action
  upload_part : Bytes → Bytes → Bytes → Bytes → Action
  complete_multipart_upload : Bytes → Bytes → Bytes → Action
  abort_multipart_upload : Bytes → Bytes → Bytes → Action
  list_parts : Bytes → Bytes → Bytes → Action
  put_object : Bytes → Bytes → Action
  get_object : Bytes → Bytes → Action
  head_object : Bytes → Bytes → Action
  delete_object : Bytes → Bytes → Action
  list_objects : Bytes → Action
  not_implemented : Action

-- url.Values.Has
unfoldable pub has : Bytes → List (Bytes × Bytes) → Bool
has name q = any (λ p. equal p.0 name) q

-- url.Values.Get
unfoldable pub get_value : Bytes → List (Bytes × Bytes) → Bytes
get_value name [] = []
get_value name ((k, v) ∷ q) = let rest = get_value name q in if equal k name then v else rest

abbrev pub bucket_subresource_keys : List Bytes
bucket_subresource_keys =
    codes "location"
    ∷ codes "versioning"
    ∷ codes "acl"
    ∷ codes "cors"
    ∷ codes "tagging"
    ∷ codes "policy"
    ∷ codes "lifecycle"
    ∷ codes "website"
    ∷ codes "encryption"
    ∷ codes "object-lock"
    ∷ codes "notification"
    ∷ codes "logging"
    ∷ codes "replication"
    ∷ codes "accelerate"
    ∷ codes "requestPayment"
    ∷ codes "uploads"
    ∷ codes "versions"
    ∷ codes "ownershipControls"
    ∷ codes "publicAccessBlock"
    ∷ codes "analytics"
    ∷ codes "metrics"
    ∷ codes "inventory"
    ∷ codes "intelligent-tiering"
    ∷ []

-- isBucketSubresource
unfoldable pub is_bucket_subresource : List (Bytes × Bytes) → Bool
unfolding has
is_bucket_subresource q = any (λ k. has k q) bucket_subresource_keys

-- What path_unescape leaves when its error is not looked at.
abbrev pub unescaped_or_empty : Bytes → Bytes
unescaped_or_empty s = elim (path_unescape s) [ none ↦ [] | some u ↦ u ]

split_path : Bytes → Option ℕ → Bytes × Bytes
split_path path none = (path, [])
split_path path (some slash) = (take slash path, unescaped_or_empty (drop (slash + 1) path))

-- parsePath
unfoldable pub parse_path : Bytes → Bytes × Bytes
unfolding split_path
parse_path path =
    let path = trim_prefix path (codes "/") in
    if is_empty path then ([], []) else split_path path (index_byte b'/' path)

-- strings.TrimSuffix behind strings.HasSuffix: `none` is a string without the suffix.
unfoldable pub cut_suffix : Bytes → Bytes → Option Bytes
cut_suffix s suffix =
    let rest = length s - length suffix in
    if leb (length suffix) (length s) && equal (drop rest s) suffix
    then some (take rest s)
    else none

-- The host of a request without its port, in lower case.
abbrev pub host_name : Bytes → Bytes
host_name host = map to_lower (elim (index_byte b':' host) [ none ↦ host | some i ↦ take i host ])

split_virtual : Bytes → Option Bytes → Bytes × Bytes
unfolding parse_path
split_virtual path none = parse_path path
split_virtual path (some bucket) = (bucket, unescaped_or_empty (trim_prefix path (codes "/")))

-- splitBucketKey; without an endpoint every bucket is in the path.
unfoldable pub split_bucket_key : Bytes → HttpRequest → Bytes × Bytes
unfolding split_virtual cut_suffix
split_bucket_key endpoint_host req =
    if is_empty endpoint_host || equal (host_name req.host) endpoint_host
    then split_virtual req.path none
    else split_virtual req.path (cut_suffix (host_name req.host) (b'.' ∷ endpoint_host))

abbrev pub is_read : Method → Bool
is_read get = true
is_read head = true
is_read _ = false

abbrev pub is_post : Method → Bool
is_post post = true
is_post _ = false

-- The cases on a bucket.
unfoldable pub dispatch_bucket : Method → Bytes → List (Bytes × Bytes) → Action
unfolding has is_bucket_subresource
dispatch_bucket put bucket q =
    if is_bucket_subresource q then bucket_subresource bucket else create_bucket bucket
dispatch_bucket head bucket q =
    if is_bucket_subresource q then bucket_subresource bucket else head_bucket bucket
dispatch_bucket delete bucket q =
    if is_bucket_subresource q then bucket_subresource bucket else delete_bucket bucket
dispatch_bucket post bucket q =
    if has (codes "delete") q then delete_objects bucket else not_implemented
dispatch_bucket get bucket q =
    if is_bucket_subresource q then bucket_subresource bucket else list_objects bucket
dispatch_bucket options bucket q =
    if is_bucket_subresource q then bucket_subresource bucket else not_implemented
dispatch_bucket (other m) bucket q =
    if is_bucket_subresource q then bucket_subresource bucket else not_implemented

-- The cases on an object.
unfoldable pub dispatch_object : Method → Bytes → Bytes → List (Bytes × Bytes) → Action
unfolding has get_value
dispatch_object method bucket key q = by_method method (get_value (codes "uploadId") q)
  where
    by_method : Method → Bytes → Action
    by_method post upload_id =
        if has (codes "uploads") q
        then create_multipart_upload bucket key
        else if is_empty upload_id
        then not_implemented
        else complete_multipart_upload bucket key upload_id
    by_method put upload_id =
        if is_empty upload_id || is_empty (get_value (codes "partNumber") q)
        then put_object bucket key
        else upload_part bucket key upload_id (get_value (codes "partNumber") q)
    by_method delete upload_id =
        if is_empty upload_id
        then delete_object bucket key
        else abort_multipart_upload bucket key upload_id
    by_method get upload_id =
        if is_empty upload_id then get_object bucket key else list_parts bucket key upload_id
    by_method head upload_id = head_object bucket key
    by_method options upload_id = not_implemented
    by_method (other m) upload_id = not_implemented

abbrev pub dispatch_root : Method → Action
dispatch_root get = list_buckets
dispatch_root _ = not_implemented

-- The switch of ServeHTTP.
unfoldable pub dispatch : Method → Bytes → Bytes → List (Bytes × Bytes) → Action
unfolding dispatch_bucket dispatch_object
dispatch method bucket key q =
    if is_empty bucket
    then dispatch_root method
    else if is_empty key
    then dispatch_bucket method bucket q
    else dispatch_object method bucket key q

public_or_signed : Bool → HttpRequest → Bytes × Bytes → Action
unfolding dispatch
public_or_signed authorized req (bucket, key) =
    if (is_read req.method && not (is_empty bucket) && not (is_empty key)) || authorized
    then dispatch req.method bucket key req.query
    else forbidden

routed : Method → Action → Action
routed options action = preflight
routed _ action = action

-- Where ServeHTTP sends a request.
unfoldable pub route : Bytes → Bool → HttpRequest → Action
unfolding public_or_signed split_bucket_key routed
route endpoint_host authorized req =
    if equal req.path (codes "/healthz")
    then healthz
    else routed req.method (public_or_signed authorized req (split_bucket_key endpoint_host req))

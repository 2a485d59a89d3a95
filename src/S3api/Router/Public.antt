-- ===== src/S3api/Router/Public.antt =====
-- internal/s3api/handler.go: which requests `ServeHTTP` answers without a signature.
use telegram_s.Base.{
  ◌≡◌, refl, ◌∙◌, Bool, true, false, not, ◌&&◌, Bool-cases, inl, inr, List, [], ◌∷◌, if◌then◌else◌,
  arith,
}
use telegram_s.Base.Bytes.{Bytes, codes, equal, is_empty}
use telegram_s.S3api.Router.{
  Method, get, head, put, post, delete, options, other, HttpRequest, Action, healthz, preflight,
  forbidden, list_parts, get_object, head_object, dispatch, dispatch_object, dispatch_bucket,
  dispatch_root, routed, public_or_signed, route, is_read, split_bucket_key,
}

-- The health probe, a preflight, and what reads one object or the parts of one upload.
abbrev pub is_public : Action → Bool
is_public healthz = true
is_public preflight = true
is_public (list_parts bucket key id) = true
is_public (get_object bucket key) = true
is_public (head_object bucket key) = true
is_public _ = false

dispatch_object-public :
    (method : Method) (bucket key : Bytes) (q : List (Bytes × Bytes))
    → is_public (dispatch_object method bucket key q) ≡ is_read method
unfolding dispatch_object
dispatch_object-public get bucket key q = ground arith
dispatch_object-public head bucket key q = refl
dispatch_object-public put bucket key q = ground arith
dispatch_object-public post bucket key q = ground arith
dispatch_object-public delete bucket key q = ground arith
dispatch_object-public options bucket key q = refl
dispatch_object-public (other m) bucket key q = refl

dispatch_bucket-public :
    (method : Method) (bucket : Bytes) (q : List (Bytes × Bytes))
    → is_public (dispatch_bucket method bucket q) ≡ false
unfolding dispatch_bucket
dispatch_bucket-public get bucket q = ground arith
dispatch_bucket-public head bucket q = ground arith
dispatch_bucket-public put bucket q = ground arith
dispatch_bucket-public post bucket q = ground arith
dispatch_bucket-public delete bucket q = ground arith
dispatch_bucket-public options bucket q = ground arith
dispatch_bucket-public (other m) bucket q = ground arith

dispatch_root-public : (method : Method) → is_public (dispatch_root method) ≡ false
dispatch_root-public get = refl
dispatch_root-public head = refl
dispatch_root-public put = refl
dispatch_root-public post = refl
dispatch_root-public delete = refl
dispatch_root-public options = refl
dispatch_root-public (other m) = refl

dispatch-public :
    (method : Method) (bucket key : Bytes) (q : List (Bytes × Bytes))
    → is_public (dispatch method bucket key q)
      ≡ (is_read method && not (is_empty bucket) && not (is_empty key))
unfolding dispatch
dispatch-public method [] key q = dispatch_root-public method ∙ ground arith
dispatch-public method (b ∷ bucket) [] q =
    dispatch_bucket-public method (b ∷ bucket) q ∙ ground arith
dispatch-public method (b ∷ bucket) (k ∷ key) q =
    dispatch_object-public method (b ∷ bucket) (k ∷ key) q ∙ ground arith

public_or_signed-public :
    (req : HttpRequest) (at : Bytes × Bytes)
    → public_or_signed false req at ≡ (
        if is_public (public_or_signed true req at)
        then public_or_signed true req at
        else forbidden)
unfolding public_or_signed
public_or_signed-public req (bucket, key) =
    let e = dispatch-public req.method bucket key req.query in ground arith

routed-public :
    (method : Method) (a b : Action)
    → a ≡ (if is_public b then b else forbidden)
    → routed method a ≡ (if is_public (routed method b) then routed method b else forbidden)
unfolding routed
routed-public get a b h = h
routed-public head a b h = h
routed-public put a b h = h
routed-public post a b h = h
routed-public delete a b h = h
routed-public options a b h = refl
routed-public (other m) a b h = h

-- Without a signature, ServeHTTP sends a request where it sends the same request with a signature
-- when that is the health probe, a preflight, the GET or HEAD of an object or the list of the parts
-- of an upload, and answers 403 to every other request.
pub route-public :
    (endpoint_host : Bytes) (req : HttpRequest)
    → route endpoint_host false req ≡ (
        if is_public (route endpoint_host true req)
        then route endpoint_host true req
        else forbidden)
unfolding route
route-public endpoint_host req = elim (Bool-cases (equal req.path (codes "/healthz"))) [
  | inl probe ↦ rw probe refl
  | inr there ↦ rw there (
      routed-public req.method _ _
        (public_or_signed-public req (split_bucket_key endpoint_host req)))
]

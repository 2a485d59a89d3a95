-- ===== src/S3api/Service/Invariant.antt =====
-- internal/s3api/handler.go: what holds of the store and the channel after any requests and ticks.
use telegram_s.Base.{
  ℕ, ◌<◌, ◌≡◌, refl, inl, inr, Bool-cases, Option, none, some, List, [], ◌∷◌, any,
}
use telegram_s.Base.Bytes.{Bytes, is_empty, equal}
use telegram_s.Mtproto.Api.{Telegram}
use telegram_s.Mtproto.Laws.{TelegramLaws}
use telegram_s.Mtproto.Delete.Windows.{Walks}
use telegram_s.Mtproto.Pool.{Remote}
use telegram_s.Metadata.{
  Store, Object, MultipartUpload, create_bucket, delete_bucket, bucket_exists, get_object,
  get_object_chunks, get_object_metadata,
}
use telegram_s.Metadata.Multipart.{create_multipart_upload, put_multipart_upload_metadata}
use telegram_s.S3api.Multipart.{create_upload_handler}
use telegram_s.S3api.Router.{Action, route}
use telegram_s.S3api.Router
use telegram_s.S3api.Service.{
  Gateway, Call, create_bucket_handler, delete_bucket_handler, result_or, removed_or, if_no_objects,
  put_or_copy, part_copied, upload_or_copy_part, perform, serve_http, Step, request, tick, Reach,
  here, next,
}
use telegram_s.S3api.Service.Good.{IsGood}
use telegram_s.S3api.Service.Puts.{put_object_handler-IsGood, copy_object-IsGood}
use telegram_s.S3api.Service.PartPuts.{upload_part-IsGood, upload_part_copy-IsGood}
use telegram_s.S3api.Service.Ends.{
  delete_one_object-IsGood, delete_objects-IsGood, sweep_stale_uploads-IsGood,
  abort_multipart_upload-IsGood, complete_multipart_upload-IsGood,
}

-- The tables that objects and messages stand in are the same.
SameRows : Store → Store → Type 0
SameRows s s' =
    (s'.objects ≡ s.objects)
    × (s'.object_chunks ≡ s.object_chunks)
    × (s'.multipart_part_chunks ≡ s.multipart_part_chunks)

create_bucket-SameRows :
    (bucket : Bytes) (now : ℕ) (s : Store) → SameRows s (result_or s (create_bucket bucket now s))
unfolding SameRows create_bucket
create_bucket-SameRows bucket now s = elim (Bool-cases (any (λ b. equal b.name bucket) s.buckets)) [
  | inl there ↦ rw there (refl, refl, refl)
  | inr missing ↦ rw missing (refl, refl, refl)
]

delete_bucket-SameRows :
    (bucket : Bytes) (s : Store) → SameRows s (removed_or s (delete_bucket bucket s))
unfolding SameRows delete_bucket
delete_bucket-SameRows bucket s = elim (Bool-cases (any (λ b. equal b.name bucket) s.buckets)) [
  | inl there ↦ rw there (refl, refl, refl)
  | inr missing ↦ rw missing (refl, refl, refl)
]

if_no_objects-SameRows :
    (s s' : Store) (xs : List Object) → SameRows s s' → SameRows s (if_no_objects s s' xs)
unfolding SameRows
if_no_objects-SameRows s s' [] h = h
if_no_objects-SameRows s s' (x ∷ xs) h = (refl, refl, refl)

create_upload_handler-SameRows :
    (now : ℕ) (id bucket key content_type : Bytes) (kv : List (Bytes × Bytes)) (s : Store)
    → SameRows s (create_upload_handler now id bucket key content_type kv s).1
unfolding SameRows create_upload_handler create_multipart_upload put_multipart_upload_metadata
create_upload_handler-SameRows now id bucket key content_type kv s =
    elim (Bool-cases (bucket_exists bucket s)) [
      | inr missing ↦ rw missing (refl, refl, refl)
      | inl there ↦
          rw there (elim (Bool-cases (any (λ u. equal u.upload_id id) s.multipart_uploads)) [
            | inl taken ↦ rw taken (refl, refl, refl)
            | inr free ↦ rw free (refl, refl, refl)
          ])
    ]

module _ (t : Telegram) (laws : TelegramLaws t) (g : Gateway t) (walks : Walks g.options.visit)
    (pos_size : 0 < g.options.chunk_size) where
  open t use {Channel}

  IsGood-SameRows :
      (s s' : Store) (r : Remote Channel)
      → SameRows s s'
      → IsGood t laws g.options walks s r
      → IsGood t laws g.options walks s' r
  unfolding SameRows get_object get_object_chunks get_object_metadata
  IsGood-SameRows s s' r (objects, chunks, parts) good = record {
    live = rw chunks (rw parts good.live);
    distinct = rw chunks (rw parts good.distinct);
    mapped = rw objects (rw chunks good.mapped);
  }

  put_or_copy-IsGood :
      (c : Call) (bucket key : Bytes) (s : Store) (r : Remote Channel)
      → IsGood t laws g.options walks s r
      → (let x = put_or_copy t g c bucket key s r in IsGood t laws g.options walks x.0 x.1)
  unfolding put_or_copy
  put_or_copy-IsGood c bucket key s r good = elim (Bool-cases (bucket_exists bucket s)) [
    | inr missing ↦ rw missing good
    | inl there ↦ rw there (elim (Bool-cases (is_empty c.copy.copy_source)) [
      | inl put ↦ rw put (
          put_object_handler-IsGood t laws g.options walks pos_size g.etag_of c.now bucket key
            c.content s r good)
      | inr copy ↦ rw copy (
          copy_object-IsGood t laws g.options walks pos_size g.etag_of c.now bucket key
            (g.download r.channel) g.stream_chunk_size c.copy s r good)
    ])
  ]

  part_copied-IsGood :
      (c : Call) (s : Store) (r : Remote Channel) (n : Option ℕ) (u : Option MultipartUpload)
      → IsGood t laws g.options walks s r
      → (let x = part_copied t g c s r n u in IsGood t laws g.options walks x.0 x.1)
  unfolding part_copied
  part_copied-IsGood c s r none u good = good
  part_copied-IsGood c s r (some n) none good = good
  part_copied-IsGood c s r (some n) (some u) good =
      upload_part_copy-IsGood t laws g.options walks pos_size (g.download r.channel)
        g.stream_chunk_size g.etag_of u n c.copy s r good

  upload_or_copy_part-IsGood :
      (c : Call) (bucket key id part_number : Bytes) (s : Store) (r : Remote Channel)
      → IsGood t laws g.options walks s r
      → (let x = upload_or_copy_part t g c bucket key id part_number s r in
          IsGood t laws g.options walks x.0 x.1)
  unfolding upload_or_copy_part
  upload_or_copy_part-IsGood c bucket key id part_number s r good =
      elim (Bool-cases (is_empty c.copy.copy_source)) [
        | inl put ↦ rw put (
            upload_part-IsGood t laws g.options walks pos_size g.etag_of c.now bucket key id
              part_number c.content s r good)
        | inr copy ↦ rw copy (part_copied-IsGood c s r _ _ good)
      ]

  perform-IsGood :
      (c : Call) (a : Action) (s : Store) (r : Remote Channel)
      → IsGood t laws g.options walks s r
      → (let x = perform t g c a s r in IsGood t laws g.options walks x.0 x.1)
  unfolding perform create_bucket_handler delete_bucket_handler
  perform-IsGood c (Router.create_bucket bucket) s r good =
      IsGood-SameRows s _ r (create_bucket-SameRows bucket c.now s) good
  perform-IsGood c (Router.delete_bucket bucket) s r good =
      IsGood-SameRows s _ r (if_no_objects-SameRows s _ _ (delete_bucket-SameRows bucket s)) good
  perform-IsGood c (Router.delete_objects bucket) s r good =
      delete_objects-IsGood t laws g.options walks bucket c.deletes s r good
  perform-IsGood c (Router.create_multipart_upload bucket key) s r good =
      IsGood-SameRows s _ r
        (create_upload_handler-SameRows c.now c.new_id bucket key c.content.content_type
          c.content.metadata s)
        good
  perform-IsGood c (Router.upload_part bucket key id part_number) s r good =
      upload_or_copy_part-IsGood c bucket key id part_number s r good
  perform-IsGood c (Router.complete_multipart_upload bucket key id) s r good =
      complete_multipart_upload-IsGood t laws g.options walks g.etag_of c.now bucket key id c.parts
        s r good
  perform-IsGood c (Router.abort_multipart_upload bucket key id) s r good =
      abort_multipart_upload-IsGood t laws g.options walks g.etag_of c.now bucket key id s r good
  perform-IsGood c (Router.put_object bucket key) s r good =
      put_or_copy-IsGood c bucket key s r good
  perform-IsGood c (Router.delete_object bucket key) s r good =
      delete_one_object-IsGood t laws g.options walks bucket key s r good
  perform-IsGood c Router.healthz s r good = good
  perform-IsGood c Router.preflight s r good = good
  perform-IsGood c Router.forbidden s r good = good
  perform-IsGood c Router.list_buckets s r good = good
  perform-IsGood c (Router.bucket_subresource bucket) s r good = good
  perform-IsGood c (Router.head_bucket bucket) s r good = good
  perform-IsGood c (Router.list_parts bucket key id) s r good = good
  perform-IsGood c (Router.get_object bucket key) s r good = good
  perform-IsGood c (Router.head_object bucket key) s r good = good
  perform-IsGood c (Router.list_objects bucket) s r good = good
  perform-IsGood c Router.not_implemented s r good = good

  Step-IsGood :
      {s : Store} {r : Remote Channel} {s' : Store} {r' : Remote Channel}
      → Step t g s r s' r'
      → IsGood t laws g.options walks s r
      → IsGood t laws g.options walks s' r'
  unfolding serve_http
  Step-IsGood {s} {r} {s'} {r'} (request c) good =
      perform-IsGood c (route g.endpoint_host (g.authorized c.http) c.http) s r good
  Step-IsGood {s} {r} {s'} {r'} (tick ttl now) good =
      sweep_stale_uploads-IsGood t laws g.options walks ttl now s r good

  -- Whatever requests and ticks of the janitor come to a gateway whose chunk size is not 0, from a
  -- store and a channel of which the invariant holds it holds again: every row of the store names a
  -- message that holds a document of the row's size, no two rows, be they of objects or of parts,
  -- name the same message, and every object that is found has a chunk map without a gap that adds
  -- up to its size.
  pub Reach-IsGood :
      {s : Store} {r : Remote Channel} {s' : Store} {r' : Remote Channel}
      → Reach t g s r s' r'
      → IsGood t laws g.options walks s r
      → IsGood t laws g.options walks s' r'
  Reach-IsGood here good = good
  Reach-IsGood (next reach step) good = Step-IsGood step (Reach-IsGood reach good)

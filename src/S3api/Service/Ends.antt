-- ===== src/S3api/Service/Ends.antt =====
-- internal/s3api: the store and the channel behind a completion, an abort and a deletion.
use telegram_s.Base.{
  ℕ, ◌≡◌, refl, inl, inr, Bool-cases, Option, none, some, List, [], ◌∷◌, length, ltb, ◌==◌, ◌⊎◌,
}
use telegram_s.Base.Bytes.{Bytes}
use telegram_s.Storage.{Result, ok, err}
use telegram_s.Mtproto.Api.{Telegram}
use telegram_s.Mtproto.Laws.{TelegramLaws}
use telegram_s.Mtproto.Delete.Windows.{Walks}
use telegram_s.Mtproto.Pool.{Remote}
use telegram_s.Mtproto.Upload.{Options}
use telegram_s.Metadata.{
  Store, Object, MultipartUpload, get_object, get_object_chunks, delete_object,
}
use telegram_s.Base.{◌-◌}
use telegram_s.Metadata.Multipart.{
  stale_multipart_uploads, finalize_multipart_upload, list_multipart_parts,
  get_multipart_upload_metadata,
}
use telegram_s.S3api.Write.{reap, delete_one_object}
use telegram_s.S3api.Multipart.{
  resolve_upload, assembled_object, finish_stored, finish_complete, complete_resolved,
  complete_multipart_upload, abort_multipart_upload, abort_upload_internal,
}
use telegram_s.S3api.Assembly.{
  no_such_upload, no_content, MultipartResponse, Assembly, CompletePart, assemble, start_assembly,
}
use telegram_s.S3api.Service.Good.{IsGood}
use telegram_s.S3api.Bulk.{
  DeleteRequest, delete_each, delete_decoded, delete_objects, abort_each, sweep_stale_uploads,
}
use telegram_s.S3api.Service.Stored.{IsGood-delete}
use telegram_s.S3api.Service.Parts.{IsGood-abort}
use telegram_s.S3api.Service.Finished.{IsGood-completed}

module _ (t : Telegram) (laws : TelegramLaws t) (o : Options) (walks : Walks o.visit) where
  open t use {Channel}

  pub delete_one_object-IsGood :
      (bucket key : Bytes) (s : Store) (r : Remote Channel)
      → IsGood t laws o walks s r
      → (let x = delete_one_object t o bucket key s r in IsGood t laws o walks x.0 x.1)
  unfolding delete_one_object
  delete_one_object-IsGood bucket key s r g = by_object (get_object bucket key s)
    where
      by_object :
          (found : Option Object)
          → (let x : Store × Remote Channel = elim found [
            | none ↦ (s, r)
            | some obj ↦ (delete_object bucket key s, reap t o (get_object_chunks bucket key s) r)
          ] in
              IsGood t laws o walks x.0 x.1)
      by_object none = g
      by_object (some obj) = IsGood-delete t laws o walks bucket key s r g

  delete_each-IsGood :
      (bucket : Bytes) (keys : List Bytes) (s : Store) (r : Remote Channel)
      → IsGood t laws o walks s r
      → (let x = delete_each t o bucket keys s r in IsGood t laws o walks x.0 x.1)
  unfolding delete_each
  delete_each-IsGood bucket [] s r g = g
  delete_each-IsGood bucket (k ∷ ks) s r g =
      delete_each-IsGood bucket ks _ _ (delete_one_object-IsGood bucket k s r g)

  pub delete_objects-IsGood :
      (bucket : Bytes) (req : Option DeleteRequest) (s : Store) (r : Remote Channel)
      → IsGood t laws o walks s r
      → (let x = delete_objects t o bucket req s r in IsGood t laws o walks x.1 x.2)
  unfolding delete_objects delete_decoded
  delete_objects-IsGood bucket none s r g = g
  delete_objects-IsGood bucket (some req) s r g = elim (Bool-cases (length req.keys == 0)) [
    | inl no_keys ↦ rw no_keys g
    | inr keys ↦ rw keys (elim (Bool-cases (ltb 1000 (length req.keys))) [
      | inl many ↦ rw many g
      | inr fine ↦ rw fine (delete_each-IsGood bucket req.keys s r g)
    ])
  ]

  abort_upload_internal-IsGood :
      (id : Bytes) (s : Store) (r : Remote Channel)
      → IsGood t laws o walks s r
      → (let x = abort_upload_internal t o id s r in IsGood t laws o walks x.0 x.1)
  unfolding abort_upload_internal
  abort_upload_internal-IsGood id s r g = IsGood-abort t laws o walks id s r g

  abort_each-IsGood :
      (us : List MultipartUpload) (s : Store) (r : Remote Channel)
      → IsGood t laws o walks s r
      → (let x = abort_each t o us s r in IsGood t laws o walks x.0 x.1)
  unfolding abort_each
  abort_each-IsGood [] s r g = g
  abort_each-IsGood (u ∷ us) s r g =
      abort_each-IsGood us _ _ (abort_upload_internal-IsGood u.upload_id s r g)

  pub sweep_stale_uploads-IsGood :
      (ttl now : ℕ) (s : Store) (r : Remote Channel)
      → IsGood t laws o walks s r
      → (let x = sweep_stale_uploads t o ttl now s r in IsGood t laws o walks x.0 x.1)
  unfolding sweep_stale_uploads
  sweep_stale_uploads-IsGood ttl now s r g =
      abort_each-IsGood (stale_multipart_uploads (now - ttl) s) s r g

  module _ (etag_of : Bytes → Bytes) (now : ℕ) (bucket key id : Bytes) where
    pub abort_multipart_upload-IsGood :
        (s : Store) (r : Remote Channel)
        → IsGood t laws o walks s r
        → (let x = abort_multipart_upload t o etag_of now bucket key id s r in
            IsGood t laws o walks x.1 x.2)
    unfolding abort_multipart_upload
    abort_multipart_upload-IsGood s r g = by_upload (resolve_upload bucket key id s)
      where
        by_upload :
            (u : Option MultipartUpload)
            → (let x : MultipartResponse × Store × Remote Channel = elim u [
              | none ↦ (no_such_upload, s, r)
              | some u ↦ (
                no_content,
                (abort_upload_internal t o id s r).0,
                (abort_upload_internal t o id s r).1,
              )
            ] in
                IsGood t laws o walks x.1 x.2)
        by_upload none = g
        by_upload (some u) = abort_upload_internal-IsGood id s r g

    finish_stored-IsGood :
        (u : MultipartUpload) (parts : ℕ) (cps : List CompletePart) (a : Assembly) (etag : Bytes)
        (s : Store) (r : Remote Channel) (p : Result Store)
        → assemble id s (list_multipart_parts id s) cps start_assembly ≡ inr a
        → finalize_multipart_upload now
            (assembled_object t o etag_of now bucket key id u parts a)
            (get_multipart_upload_metadata id s)
            a.final_chunks
            id
            s
          ≡ p
        → IsGood t laws o walks s r
        → (let x = finish_stored t o etag_of now bucket key id etag s r p in
            IsGood t laws o walks x.1 x.2)
    unfolding finish_stored
    finish_stored-IsGood u parts cps a etag s r (err e) built done g = g
    finish_stored-IsGood u parts cps a etag s r (ok s') built done g =
        IsGood-completed t laws o walks now
          (assembled_object t o etag_of now bucket key id u parts a)
          (get_multipart_upload_metadata id s) id (list_multipart_parts id s) cps a s s' r g built
          refl done

    finish_complete-IsGood :
        (u : MultipartUpload) (parts : ℕ) (cps : List CompletePart) (s : Store) (r : Remote Channel)
        (x : MultipartResponse ⊎ Assembly)
        → assemble id s (list_multipart_parts id s) cps start_assembly ≡ x
        → IsGood t laws o walks s r
        → (let y = finish_complete t o etag_of now bucket key id u parts s r x in
            IsGood t laws o walks y.1 y.2)
    unfolding finish_complete
    finish_complete-IsGood u parts cps s r (inl response) built g = g
    finish_complete-IsGood u parts cps s r (inr a) built g =
        finish_stored-IsGood u parts cps a _ s r _ built refl g

    complete_resolved-IsGood :
        (req : Option (List CompletePart)) (s : Store) (r : Remote Channel)
        (u : Option MultipartUpload)
        → IsGood t laws o walks s r
        → (let x = complete_resolved t o etag_of now bucket key id req s r u in
            IsGood t laws o walks x.1 x.2)
    unfolding complete_resolved
    complete_resolved-IsGood req s r none g = g
    complete_resolved-IsGood none s r (some u) g = g
    complete_resolved-IsGood (some []) s r (some u) g = g
    complete_resolved-IsGood (some (cp ∷ cps)) s r (some u) g =
        finish_complete-IsGood u (length (cp ∷ cps)) (cp ∷ cps) s r _ refl g

    pub complete_multipart_upload-IsGood :
        (req : Option (List CompletePart)) (s : Store) (r : Remote Channel)
        → IsGood t laws o walks s r
        → (let x = complete_multipart_upload t o etag_of now bucket key id req s r in
            IsGood t laws o walks x.1 x.2)
    unfolding complete_multipart_upload
    complete_multipart_upload-IsGood req s r g = complete_resolved-IsGood req s r _ g

-- ===== src/S3api/Multipart/Ended.antt =====
-- internal/s3api/multipart.go: how `completeMultipartUpload` and `abortMultipartUpload` end.
use mathlib.Core.Path.{subst}
use telegram_s.Base.{
  ℕ, ◌≡◌, refl, sym, ap, ◌∙◌, ◌⊎◌, inl, inr, false, Option, none, some, List, [], ◌∷◌, map, length,
  elim-some,
}
use telegram_s.Base.Bytes.{Bytes, equal}
use telegram_s.Storage.{Chunk, IsChunkMap, total_size}
use telegram_s.Mtproto.Api.{Telegram}
use telegram_s.Mtproto.Laws.{TelegramLaws}
use telegram_s.Mtproto.Delete.Windows.{Walks}
use telegram_s.Mtproto.Pool.{Remote}
use telegram_s.Mtproto.Upload.{Options}
use telegram_s.Metadata.{Store, Object, MultipartUpload, get_object_chunks, stamped}
use telegram_s.Metadata.Table.{is_at}
use telegram_s.Metadata.Objects.{view, merged, find_row}
use telegram_s.Metadata.Multipart.{
  list_multipart_parts, all_multipart_chunks, get_multipart_upload_metadata,
  delete_multipart_upload,
}
use telegram_s.Metadata.Multipart.Parts.{
  upload_view, delete_multipart_upload-view, finalize_multipart_upload-view,
}
use telegram_s.S3api.Write.{reap}
use telegram_s.S3api.Write.Stored.{hits, reap-others}
use telegram_s.S3api.Write.RoundTrip.{merged-size}
use telegram_s.S3api.Assembly.{
  MultipartResponse, completed, no_content, CompletePart, Assembly, start_assembly, assemble,
}
use telegram_s.S3api.Multipart.{
  assembled_object, finish_stored, finish_complete, complete_resolved, complete_multipart_upload,
  resolve_upload, abort_multipart_upload, PartOutcome,
}
use telegram_s.S3api.Multipart.Assembled.{
  PartsNamed, piece, pieces, IsAssembly, assemble-IsAssembly,
}
use telegram_s.S3api.Multipart.Refusal.{is_completed, IsRefusal, assemble-IsRefusal}

-- The parts that a request lists.
abbrev pub listed_parts : Option (List CompletePart) → List CompletePart
listed_parts none = []
listed_parts (some cps) = cps

module _ (t : Telegram) (o : Options) (etag_of : Bytes → Bytes) (now : ℕ)
    (bucket key upload_id : Bytes) (s : Store) (r : Remote (Telegram.Channel t)) where
  -- What a completion leaves: the pieces in one chunk map behind an object of their size, nothing
  -- of the upload, every other object, and a clean-up of the old version only.
  abbrev pub Completed : List Chunk → PartOutcome t o etag_of now bucket key upload_id → Type 0
  Completed wanted (response, s', r') =
      (chunks : List Chunk) × (obj : Object) × (response ≡ completed obj.etag)
      × IsChunkMap 0 0 chunks
      × (map piece chunks ≡ wanted)
      × (obj.size ≡ total_size chunks)
      × (view bucket key s' ≡ (some obj, chunks, get_multipart_upload_metadata upload_id s))
      × (upload_view upload_id s' ≡ (none, [], [], []))
      × ((b k : Bytes) → is_at b k bucket key ≡ false → view b k s' ≡ view b k s)
      × (r' ≡ reap t o (get_object_chunks bucket key s) r)

  -- An answer that is no completion, with nothing changed.
  abbrev pub Refused : PartOutcome t o etag_of now bucket key upload_id → Type 0
  Refused (response, s', r') = (is_completed response ≡ false) × (s' ≡ s) × (r' ≡ r)

  Ended : List Chunk → PartOutcome t o etag_of now bucket key upload_id → Type 0
  Ended wanted x = Completed wanted x ⊎ Refused x

  finish_complete-Ended :
      (u : MultipartUpload) (parts : ℕ) (wanted : List Chunk) (x : MultipartResponse ⊎ Assembly)
      → IsRefusal x
      → ((a : Assembly) → x ≡ inr a → IsAssembly a × (map piece a.final_chunks ≡ wanted))
      → Ended wanted (finish_complete t o etag_of now bucket key upload_id u parts s r x)
  unfolding finish_complete Ended
  finish_complete-Ended u parts wanted (inl response) h g = inr (h, refl, refl)
  finish_complete-Ended u parts wanted (inr a) h g =
      let ((mapped, named, _, size), same) = g a refl in
      let obj = assembled_object t o etag_of now bucket key upload_id u parts a in
      let kv = get_multipart_upload_metadata upload_id s in
      let old = find_row bucket key s.objects in
      let (s', e, seen, gone, others) =
        finalize_multipart_upload-view now obj kv a.final_chunks upload_id s mapped named in
      subst (λ p. Ended wanted (finish_stored t o etag_of now bucket key upload_id obj.etag s r p))
        (sym e)
        (inl (
          a.final_chunks,
          merged (stamped now obj) old,
          ap completed (sym (merged-size (stamped now obj) old).1),
          mapped,
          same,
          (merged-size (stamped now obj) old).0 ∙ size,
          seen,
          gone,
          others,
          refl,
        ))

  complete_resolved-Ended :
      (req : Option (List CompletePart)) (u : Option MultipartUpload)
      → PartsNamed s
      → Ended
          (pieces upload_id s (listed_parts req))
          (complete_resolved t o etag_of now bucket key upload_id req s r u)
  unfolding complete_resolved Ended
  complete_resolved-Ended req none named = inr (refl, refl, refl)
  complete_resolved-Ended none (some u) named = inr (refl, refl, refl)
  complete_resolved-Ended (some []) (some u) named = inr (refl, refl, refl)
  complete_resolved-Ended (some (cp ∷ cps)) (some u) named =
      let stored = list_multipart_parts upload_id s in
      finish_complete-Ended u (length (cp ∷ cps)) (pieces upload_id s (cp ∷ cps))
        (assemble upload_id s stored (cp ∷ cps) start_assembly)
        (assemble-IsRefusal upload_id s stored (cp ∷ cps) start_assembly)
        (λ a.
          assemble-IsAssembly upload_id s stored named (cp ∷ cps) start_assembly a
            (tt, tt, refl, refl))

-- A request to complete an upload, when every stored chunk of a part names its transport, either is
-- refused with the store and the channel unchanged, or it is answered with the tag of an object of
-- which holds: it is read back with one chunk map, contiguous and numbered from 0, of the chunks of
-- the listed parts in the order of the list, its size is the sum of their sizes, its metadata is what
-- the upload was created with, nothing is left of the upload, every other object is read as before,
-- and in the channel just the chunks of the version that it replaces are cleaned up.
pub complete_multipart_upload-ended :
    (t : Telegram) (o : Options) (etag_of : Bytes → Bytes) (now : ℕ) (bucket key upload_id : Bytes)
    (req : Option (List CompletePart)) (s : Store) (r : Remote (Telegram.Channel t))
    → PartsNamed s
    → Completed t o etag_of now bucket key upload_id s r
        (pieces upload_id s (listed_parts req))
        (complete_multipart_upload t o etag_of now bucket key upload_id req s r)
      ⊎ Refused t o etag_of now bucket key upload_id s r
          (complete_multipart_upload t o etag_of now bucket key upload_id req s r)
unfolding complete_multipart_upload Ended
complete_multipart_upload-ended t o etag_of now bucket key upload_id req s r named =
    complete_resolved-Ended t o etag_of now bucket key upload_id s r req
      (resolve_upload bucket key upload_id s) named

-- After an abort of an upload that is known, nothing is left of the upload, every other upload and
-- every object is as before, and a message that no chunk of the upload names keeps its content.
pub abort_multipart_upload-gone :
    (t : Telegram) (laws : TelegramLaws t) (o : Options) (etag_of : Bytes → Bytes) (now : ℕ)
    (bucket key upload_id : Bytes) (u : MultipartUpload) (s : Store)
    (r : Remote (Telegram.Channel t))
    → Walks o.visit
    → resolve_upload bucket key upload_id s ≡ some u
    → (s' : Store) × (r' : Remote (Telegram.Channel t)) × (abort_multipart_upload t o etag_of now
          bucket key upload_id s r
        ≡ (no_content, s', r'))
      × (upload_view upload_id s' ≡ (none, [], [], []))
      × ((x : Bytes) → equal x upload_id ≡ false → upload_view x s' ≡ upload_view x s)
      × ((b k : Bytes) → view b k s' ≡ view b k s)
      × ((j : ℕ)
          → hits j (all_multipart_chunks upload_id s) ≡ false
          → TelegramLaws.content laws r'.channel j ≡ TelegramLaws.content laws r.channel j)
unfolding abort_multipart_upload
abort_multipart_upload-gone t laws o etag_of now bucket key upload_id u s r walks known =
    let (gone, others, objects) = delete_multipart_upload-view upload_id s in
    let chunks = all_multipart_chunks upload_id s in
    (
      delete_multipart_upload upload_id s,
      reap t o chunks r,
      elim-some _ _ (resolve_upload bucket key upload_id s) known,
      gone,
      others,
      objects,
      reap-others t laws o walks chunks r,
    )

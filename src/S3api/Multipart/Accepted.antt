-- ===== src/S3api/Multipart/Accepted.antt =====
-- internal/s3api/multipart.go: the requests that `completeMultipartUpload` accepts.
use mathlib.Core.Path.{subst}
use telegram_s.Base.{
  ℕ, ◌<◌, ◌≤◌, ◌≡◌, refl, sym, ap, ◌∙◌, ◌⊎◌, inl, inr, true, false, not, ◌&&◌, some, List, [], ◌∷◌,
  ◌++◌, arith, ltb, leb, length, lt→leb,
}
use telegram_s.Base.Bytes.{equal_fold, Bytes}
use telegram_s.Base.Int.{ℤ, pos}
use telegram_s.Storage.{Chunk}
use telegram_s.Mtproto.Api.{Telegram}
use telegram_s.Mtproto.Pool.{Remote}
use telegram_s.Mtproto.Upload.{Options}
use telegram_s.Metadata.{Store, MultipartUpload, MultipartPart}
use telegram_s.Metadata.Multipart.{
  get_multipart_upload_metadata, get_multipart_part_chunks, list_multipart_parts,
}
use telegram_s.S3api.Assembly.{
  MultipartResponse, CompletePart, Assembly, start_assembly, append_chunks, accept_part, check_part,
  take_part, find_part, trim_quotes, min_part_size, hex_decode, assemble,
}
use telegram_s.S3api.Multipart.{
  assembled_object, finish_stored, finish_complete, complete_resolved, complete_multipart_upload,
  resolve_upload,
}
use telegram_s.Metadata.Multipart.Parts.{finalize_multipart_upload-view}
use telegram_s.S3api.Multipart.Assembled.{PartsNamed, assemble-IsAssembly}
use telegram_s.S3api.Multipart.Refusal.{is_completed}

-- The parts are listed in ascending order after `prev`, all are stored with the tag that is listed,
-- the hex of a sum, and all but the last have the minimal size.
abbrev pub AreAcceptable : ℕ → List MultipartPart → List CompletePart → Type 0
AreAcceptable prev stored [] = Unit
AreAcceptable prev stored (cp ∷ cps) =
    (n : ℕ) × (sp : MultipartPart) × (raw : Bytes) × (cp.part_number ≡ pos n)
    × (prev < n)
    × (find_part n stored ≡ some sp)
    × (equal_fold (trim_quotes cp.etag) sp.etag ≡ true)
    × ((length cps ≡ 0) ⊎ (min_part_size ≤ sp.size))
    × (hex_decode sp.etag ≡ some raw)
    × AreAcceptable n stored cps

pub append_chunks-prev_part :
    (cs : List Chunk) (a : Assembly) → (append_chunks cs a).prev_part ≡ a.prev_part
unfolding append_chunks
append_chunks-prev_part [] a = refl
append_chunks-prev_part (c ∷ cs) a = append_chunks-prev_part cs _

module _ (upload_id : Bytes) (s : Store) where
  passed : ℕ → Bytes → Assembly → Assembly
  passed n raw a =
      append_chunks (get_multipart_part_chunks upload_id n s)
        (record a { md5_concat = a.md5_concat ++ raw; prev_part = n })

  check_part-passed :
      (n : ℕ) (etag : Bytes) (rest : List CompletePart) (a : Assembly) (sp : MultipartPart)
      (raw : Bytes)
      → equal_fold (trim_quotes etag) sp.etag ≡ true
      → (length rest ≡ 0) ⊎ (min_part_size ≤ sp.size)
      → hex_decode sp.etag ≡ some raw
      → check_part upload_id s n etag rest a (some sp) ≡ inr (passed n raw a)
  unfolding check_part accept_part passed
  check_part-passed n etag rest a sp raw same big hex =
      let fits : (not (leb (length rest) 0) && ltb sp.size min_part_size) ≡ false = ground arith in
      rw same (rw fits (ap (accept_part upload_id s n a) hex))

  take_part-passed :
      (stored : List MultipartPart) (number : ℤ) (etag : Bytes) (rest : List CompletePart)
      (a : Assembly) (n : ℕ) (sp : MultipartPart) (raw : Bytes)
      → number ≡ pos n
      → a.prev_part < n
      → find_part n stored ≡ some sp
      → equal_fold (trim_quotes etag) sp.etag ≡ true
      → (length rest ≡ 0) ⊎ (min_part_size ≤ sp.size)
      → hex_decode sp.etag ≡ some raw
      → take_part upload_id s stored (record { part_number = number; etag = etag }) rest a
        ≡ inr (passed n raw a)
  unfolding take_part
  take_part-passed stored number etag rest a n sp raw num later found same big hex =
      let up : leb n a.prev_part ≡ false = lt→leb n a.prev_part later in
      rw num (
        rw up (
          ap (check_part upload_id s n etag rest a) found
          ∙ check_part-passed n etag rest a sp raw same big hex))

  assemble-passed :
      (stored : List MultipartPart) (cps : List CompletePart) (a : Assembly)
      → AreAcceptable a.prev_part stored cps
      → (a' : Assembly) × (assemble upload_id s stored cps a ≡ inr a')
  unfolding assemble passed
  assemble-passed stored [] a h = (a, refl)
  assemble-passed stored (cp ∷ cps) a (n, sp, raw, num, later, found, same, big, hex, hs) =
      let next = passed n raw a in
      let at_n : next.prev_part ≡ n = append_chunks-prev_part _ _ in
      let (a', e) =
        assemble-passed stored cps next (subst (λ m. AreAcceptable m stored cps) (sym at_n) hs) in
      let turn =
        take_part-passed stored cp.part_number cp.etag cps a n sp raw num later found same big
          hex in
      (
        a',
        ap
              (λ x. elim x as (λ _. MultipartResponse ⊎ Assembly) [
                | inl response ↦ inl response
                | inr b ↦ assemble upload_id s stored cps b
              ])
              turn
            ∙ e,
      )

module _ (t : Telegram) (o : Options) (etag_of : Bytes → Bytes) (now : ℕ)
    (bucket key upload_id : Bytes) (s : Store) (r : Remote (Telegram.Channel t)) where
  finish_complete-completed :
      (u : MultipartUpload) (cps : List CompletePart) (a : Assembly)
      → PartsNamed s
      → assemble upload_id s (list_multipart_parts upload_id s) cps start_assembly ≡ inr a
      → is_completed
          (finish_complete t o etag_of now bucket key upload_id u (length cps) s r (inr a)).0
        ≡ true
  unfolding finish_complete finish_stored
  finish_complete-completed u cps a named e =
      let ((mapped, chunks_named, _, _), _) =
        assemble-IsAssembly upload_id s (list_multipart_parts upload_id s) named cps start_assembly
          a (tt, tt, refl, refl) e in
      let obj = assembled_object t o etag_of now bucket key upload_id u (length cps) a in
      let (s', went, _, _, _) =
        finalize_multipart_upload-view now obj (get_multipart_upload_metadata upload_id s)
          a.final_chunks upload_id s mapped chunks_named in
      ap (λ p. is_completed (finish_stored t o etag_of now bucket key upload_id obj.etag s r p).0)
        went

-- A request to complete an upload that is known is answered with a completion when it lists at
-- least one part, in ascending order, when all of them are stored with the tag that it lists, the
-- hex of a sum, when all but the last have the minimal size, and when every stored chunk of a part
-- names its transport.
pub complete_multipart_upload-accepts :
    (t : Telegram) (o : Options) (etag_of : Bytes → Bytes) (now : ℕ) (bucket key upload_id : Bytes)
    (u : MultipartUpload) (cp : CompletePart) (cps : List CompletePart) (s : Store)
    (r : Remote (Telegram.Channel t))
    → resolve_upload bucket key upload_id s ≡ some u
    → PartsNamed s
    → AreAcceptable 0 (list_multipart_parts upload_id s) (cp ∷ cps)
    → is_completed
        (complete_multipart_upload t o etag_of now bucket key upload_id (some (cp ∷ cps)) s r).0
      ≡ true
unfolding complete_multipart_upload complete_resolved
complete_multipart_upload-accepts t o etag_of now bucket key upload_id u cp cps s r known named h =
    let (a, e) =
      assemble-passed upload_id s (list_multipart_parts upload_id s) (cp ∷ cps) start_assembly h in
    ap
      (λ v.
        is_completed
          (complete_resolved t o etag_of now bucket key upload_id (some (cp ∷ cps)) s r v).0)
      known
    ∙ ap
        (λ x.
          is_completed
            (finish_complete t o etag_of now bucket key upload_id u (length (cp ∷ cps)) s r x).0)
        e
    ∙ finish_complete-completed t o etag_of now bucket key upload_id s r u (cp ∷ cps) a named e

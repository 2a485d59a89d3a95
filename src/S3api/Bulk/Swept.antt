-- ===== src/S3api/Bulk/Swept.antt =====
-- internal/s3api/janitor.go: what a sweep leaves.
use mathlib.Core.Path.{subst}
use telegram_s.Base.{
  ℕ, ◌-◌, ◌≡◌, refl, sym, ap, ◌∙◌, inl, inr, Bool, true, false, Bool-cases, ◌||◌, List, [], ◌∷◌,
  arith, any, filter, All, not,
}
use telegram_s.Base.Bytes.{Bytes, equal, equal_refl, equal_eq}
use telegram_s.Mtproto.Api.{Telegram}
use telegram_s.Mtproto.Laws.{TelegramLaws}
use telegram_s.Mtproto.Delete.Windows.{Walks}
use telegram_s.Mtproto.Pool.{Remote}
use telegram_s.Mtproto.Upload.{Options}
use telegram_s.Metadata.{Store, MultipartUpload}
use telegram_s.Metadata.Objects.{view}
use telegram_s.Metadata.Table.{insert_sorted, order_by, delete_where}
use telegram_s.Metadata.Multipart.{
  is_earlier, stale_multipart_uploads, all_multipart_chunks, delete_multipart_upload,
}
use telegram_s.Metadata.Multipart.Parts.{upload_view, delete_multipart_upload-view}
use telegram_s.S3api.Write.Stored.{hits, reap-others}
use telegram_s.S3api.Multipart.{abort_upload_internal}
use telegram_s.S3api.Bulk.{abort_each, sweep_stale_uploads}

any-insert_sorted :
    (q : MultipartUpload → Bool) (before : MultipartUpload → MultipartUpload → Bool)
    (x : MultipartUpload) (xs : List MultipartUpload)
    → any q (insert_sorted before x xs) ≡ (q x || any q xs)
unfolding insert_sorted
any-insert_sorted q before x [] = ground arith
any-insert_sorted q before x (y ∷ ys) = ground (arith, any-insert_sorted q before x ys)

any-order_by :
    (q : MultipartUpload → Bool) (before : MultipartUpload → MultipartUpload → Bool)
    (xs : List MultipartUpload)
    → any q (order_by before xs) ≡ any q xs
unfolding order_by
any-order_by q before [] = refl
any-order_by q before (x ∷ xs) =
    any-insert_sorted q before x (order_by before xs)
    ∙ ap (λ b. q x || b) (any-order_by q before xs)
    ∙ ground arith

-- One of the uploads has the identifier.
abbrev pub is_among : Bytes → List MultipartUpload → Bool
is_among x us = any (λ u. equal x u.upload_id) us

-- Every row of which `p` holds is among the uploads.
abbrev Covered : (MultipartUpload → Bool) → List MultipartUpload → List MultipartUpload → Type 0
Covered p us rows = All (λ v. p v ≡ true → is_among v.upload_id us ≡ true) rows

Covered-more :
    (p : MultipartUpload → Bool) (u : MultipartUpload) (us rows : List MultipartUpload)
    → Covered p us rows
    → Covered p (u ∷ us) rows
Covered-more p u us [] h = tt
Covered-more p u us (v ∷ rows) (h, hs) =
    (λ e. (let g = h e in ground arith), Covered-more p u us rows hs)

filter-keep :
    (p : MultipartUpload → Bool) (v : MultipartUpload) (rows : List MultipartUpload)
    → p v ≡ true
    → filter p (v ∷ rows) ≡ v ∷ filter p rows
filter-keep p v rows h = ground arith

filter-skip :
    (p : MultipartUpload → Bool) (v : MultipartUpload) (rows : List MultipartUpload)
    → p v ≡ false
    → filter p (v ∷ rows) ≡ filter p rows
filter-skip p v rows h = ground arith

Covered-filter :
    (p : MultipartUpload → Bool) (rows : List MultipartUpload) → Covered p (filter p rows) rows
Covered-filter p [] = tt
Covered-filter p (v ∷ rows) = elim (Bool-cases (p v)) [
  | inl held ↦
      subst (λ us. Covered p us (v ∷ rows)) (sym (filter-keep p v rows held))
        (
          λ e. (let same = equal_refl v.upload_id in ground arith),
          Covered-more p v (filter p rows) rows (Covered-filter p rows),
        )
  | inr skipped ↦
      subst (λ us. Covered p us (v ∷ rows)) (sym (filter-skip p v rows skipped))
        (λ e. absurd (ground arith), Covered-filter p rows)
]

Covered-order_by :
    (p : MultipartUpload → Bool) (before : MultipartUpload → MultipartUpload → Bool)
    (us rows : List MultipartUpload)
    → Covered p us rows
    → Covered p (order_by before us) rows
Covered-order_by p before us [] h = tt
Covered-order_by p before us (v ∷ rows) (h, hs) = (
  λ e. any-order_by (λ u. equal v.upload_id u.upload_id) before us ∙ h e,
  Covered-order_by p before us rows hs,
)

Covered-delete :
    (p : MultipartUpload → Bool) (u : MultipartUpload) (us rows : List MultipartUpload)
    → Covered p (u ∷ us) rows
    → Covered p us (delete_where (λ v. equal v.upload_id u.upload_id) rows)
Covered-delete p u us [] h = tt
Covered-delete p u us (v ∷ rows) (h, hs) = elim (Bool-cases (equal v.upload_id u.upload_id)) [
  | inl same ↦
      subst (Covered p us)
        (sym (filter-skip (λ v. not (equal v.upload_id u.upload_id)) v rows (ground arith)))
        (Covered-delete p u us rows hs)
  | inr other ↦
      subst (Covered p us)
        (sym (filter-keep (λ v. not (equal v.upload_id u.upload_id)) v rows (ground arith)))
        (λ e. (let g = h e in ground arith), Covered-delete p u us rows hs)
]

Covered-nil :
    (p : MultipartUpload → Bool) (rows : List MultipartUpload)
    → Covered p [] rows
    → filter p rows ≡ []
Covered-nil p [] h = refl
Covered-nil p (v ∷ rows) (h, hs) = elim (Bool-cases (p v)) [
  | inl held ↦ absurd (let g = h held in ground arith)
  | inr skipped ↦ filter-skip p v rows skipped ∙ Covered-nil p rows hs
]

module _ (t : Telegram) (laws : TelegramLaws t) (o : Options) (walks : Walks o.visit) where
  open laws use {content}

  abort_each-stale :
      (p : MultipartUpload → Bool) (us : List MultipartUpload) (s : Store)
      (r : Remote (Telegram.Channel t))
      → Covered p us s.multipart_uploads
      → filter p (abort_each t o us s r).0.multipart_uploads ≡ []
  unfolding abort_each abort_upload_internal delete_multipart_upload
  abort_each-stale p [] s r h = Covered-nil p s.multipart_uploads h
  abort_each-stale p (u ∷ us) s r h =
      abort_each-stale p us _ _ (Covered-delete p u us s.multipart_uploads h)

  abort_each-upload :
      (us : List MultipartUpload) (s : Store) (r : Remote (Telegram.Channel t)) (x : Bytes)
      → is_among x us ≡ false
      → upload_view x (abort_each t o us s r).0 ≡ upload_view x s
  unfolding abort_each abort_upload_internal
  abort_each-upload [] s r x h = refl
  abort_each-upload (u ∷ us) s r x h =
      abort_each-upload us _ _ x (ground arith)
      ∙ (delete_multipart_upload-view u.upload_id s).1 x (ground arith)

  abort_each-view :
      (us : List MultipartUpload) (s : Store) (r : Remote (Telegram.Channel t)) (b k : Bytes)
      → view b k (abort_each t o us s r).0 ≡ view b k s
  unfolding abort_each abort_upload_internal
  abort_each-view [] s r b k = refl
  abort_each-view (u ∷ us) s r b k =
      abort_each-view us _ _ b k ∙ (delete_multipart_upload-view u.upload_id s).2 b k

  -- No chunk of the uploads is the message.
  abbrev pub Spares : ℕ → List MultipartUpload → Store → Type 0
  Spares j us s = All (λ u. hits j (all_multipart_chunks u.upload_id s) ≡ false) us

  Spares-delete :
      (j : ℕ) (id : Bytes) (us : List MultipartUpload) (s : Store)
      → Spares j us s
      → Spares j us (delete_multipart_upload id s)
  Spares-delete j id [] s h = tt
  Spares-delete j id (u ∷ us) s (h, hs) = (
    elim (Bool-cases (equal u.upload_id id)) [
      | inl same ↦
          ap (λ i. hits j (all_multipart_chunks i (delete_multipart_upload id s)))
            (equal_eq u.upload_id id same)
          ∙ ap (λ v. hits j v.2) (delete_multipart_upload-view id s).0
      | inr other ↦
          ap (λ v. hits j v.2) ((delete_multipart_upload-view id s).1 u.upload_id other) ∙ h
    ],
    Spares-delete j id us s hs,
  )

  abort_each-content :
      (us : List MultipartUpload) (s : Store) (r : Remote (Telegram.Channel t)) (j : ℕ)
      → Spares j us s
      → content (abort_each t o us s r).1.channel j ≡ content r.channel j
  unfolding abort_each abort_upload_internal
  abort_each-content [] s r j h = refl
  abort_each-content (u ∷ us) s r j (h, hs) =
      abort_each-content us _ _ j (Spares-delete j u.upload_id us s hs)
      ∙ reap-others t laws o walks (all_multipart_chunks u.upload_id s) r j h

none_left :
    (t : Telegram) (laws : TelegramLaws t) (o : Options) (walks : Walks o.visit) (cutoff : ℕ)
    (s : Store) (r : Remote (Telegram.Channel t))
    → stale_multipart_uploads cutoff (abort_each t o (stale_multipart_uploads cutoff s) s r).0 ≡ []
unfolding is_earlier stale_multipart_uploads order_by
none_left t laws o walks cutoff s r =
    let stale = λ (u : MultipartUpload). is_earlier u.created_at cutoff in
    let earlier = λ (a b : MultipartUpload). is_earlier a.created_at b.created_at in
    ap (order_by earlier) (
      abort_each-stale t laws o walks stale (order_by earlier (filter stale s.multipart_uploads)) s
        r
        (Covered-order_by stale earlier (filter stale s.multipart_uploads) s.multipart_uploads
          (Covered-filter stale s.multipart_uploads)))

-- After a sweep no upload is left whose creation time, as the text that is stored, is below the text
-- of the cutoff; every upload of another identifier than the swept ones and every object is as
-- before, and a message that no chunk of a swept upload names keeps its content.
pub sweep_stale_uploads-swept :
    (t : Telegram) (laws : TelegramLaws t) (o : Options) (ttl now : ℕ) (s : Store)
    (r : Remote (Telegram.Channel t)) (walks : Walks o.visit)
    → (stale_multipart_uploads (now - ttl) (sweep_stale_uploads t o ttl now s r).0 ≡ [])
      × ((x : Bytes)
          → is_among x (stale_multipart_uploads (now - ttl) s) ≡ false
          → upload_view x (sweep_stale_uploads t o ttl now s r).0 ≡ upload_view x s)
      × ((b k : Bytes) → view b k (sweep_stale_uploads t o ttl now s r).0 ≡ view b k s)
      × ((j : ℕ)
          → Spares t laws o walks j (stale_multipart_uploads (now - ttl) s) s
          → TelegramLaws.content laws (sweep_stale_uploads t o ttl now s r).1.channel j
            ≡ TelegramLaws.content laws r.channel j)
unfolding sweep_stale_uploads
sweep_stale_uploads-swept t laws o ttl now s r walks =
    let us = stale_multipart_uploads (now - ttl) s in
    (
      none_left t laws o walks (now - ttl) s r,
      abort_each-upload t laws o walks us s r,
      abort_each-view t laws o walks us s r,
      abort_each-content t laws o walks us s r,
    )

-- ===== src/S3api/Bulk/Gone.antt =====
-- internal/s3api/deleteobjects.go: what a bulk deletion leaves.
use telegram_s.Base.{
  ◌≡◌, refl, sym, ap, ◌∙◌, ◌⊎◌, inl, inr, Bool, false, Bool-cases, Option-cases, none, some, List,
  [], ◌∷◌, arith, any, All, length, ◌==◌, ltb, if◌then◌else◌, ◌≤◌, ◌<◌,
}
use telegram_s.Base.Bytes.{Bytes, equal_eq}
use telegram_s.Mtproto.Api.{Telegram}
use telegram_s.Mtproto.Laws.{TelegramLaws}
use telegram_s.Mtproto.Delete.Windows.{Walks}
use telegram_s.Mtproto.Pool.{Remote}
use telegram_s.Mtproto.Upload.{Options}
use telegram_s.Metadata.{Store, get_object}
use telegram_s.Metadata.Objects.{view}
use telegram_s.Metadata.Table.{is_at}
use telegram_s.S3api.Write.{delete_one_object}
use telegram_s.S3api.Write.Failed.{delete_one_object-view}
use telegram_s.S3api.Bulk.{DeleteRequest, deleted, delete_each, delete_objects}

module _ (t : Telegram) (laws : TelegramLaws t) (o : Options) (walks : Walks o.visit)
    (bucket : Bytes) where
  open laws use {content}

  -- One deletion, whether the object is there or not.
  one_gone :
      (k : Bytes) (s : Store) (r : Remote (Telegram.Channel t))
      → get_object bucket k (delete_one_object t o bucket k s r).0 ≡ none
  one_gone k s r = elim (Option-cases (get_object bucket k s)) [
    | inl missing ↦
        ap (λ p. get_object bucket k p.0)
          ((delete_one_object-view t laws o bucket k s r walks).0 missing)
        ∙ missing
    | inr (obj, found) ↦
        ap (λ v. v.0)
          ((delete_one_object-view t laws o bucket k s r walks).1
            (λ no. (let bad = sym found ∙ no in ground arith))).0
  ]

  one_other :
      (k : Bytes) (s : Store) (r : Remote (Telegram.Channel t)) (x y : Bytes)
      → is_at x y bucket k ≡ false
      → view x y (delete_one_object t o bucket k s r).0 ≡ view x y s
  one_other k s r x y other = elim (Option-cases (get_object bucket k s)) [
    | inl missing ↦
        ap (λ p. view x y p.0) ((delete_one_object-view t laws o bucket k s r walks).0 missing)
    | inr (obj, found) ↦
        ((delete_one_object-view t laws o bucket k s r walks).1
            (λ no. (let bad = sym found ∙ no in ground arith))).1
          x y other
  ]

  -- The key is on the list.
  abbrev pub lists : Bytes → Bytes → List Bytes → Bool
  lists x y ks = any (λ k. is_at x y bucket k) ks

  pub delete_each-other :
      (ks : List Bytes) (s : Store) (r : Remote (Telegram.Channel t)) (x y : Bytes)
      → lists x y ks ≡ false
      → view x y (delete_each t o bucket ks s r).0 ≡ view x y s
  unfolding delete_each
  delete_each-other [] s r x y h = refl
  delete_each-other (k ∷ ks) s r x y h =
      delete_each-other ks _ _ x y (ground arith) ∙ one_other k s r x y (ground arith)

  -- A deletion of other keys, or of the same, leaves a missing key missing.
  one_stays :
      (k y : Bytes) (s : Store) (r : Remote (Telegram.Channel t))
      → get_object bucket y s ≡ none
      → get_object bucket y (delete_one_object t o bucket k s r).0 ≡ none
  unfolding is_at
  one_stays k y s r h = elim (Bool-cases (is_at bucket y bucket k)) [
    | inr other ↦ ap (λ v. v.0) (one_other k s r bucket y other) ∙ h
    | inl same ↦
        ap (λ z. get_object bucket z (delete_one_object t o bucket k s r).0)
          (sym (equal_eq k y (ground arith)))
        ∙ one_gone k s r
  ]

  stays :
      (ks : List Bytes) (y : Bytes) (s : Store) (r : Remote (Telegram.Channel t))
      → get_object bucket y s ≡ none
      → get_object bucket y (delete_each t o bucket ks s r).0 ≡ none
  unfolding delete_each
  stays [] y s r h = h
  stays (k ∷ ks) y s r h = stays ks y _ _ (one_stays k y s r h)

  pub delete_each-gone :
      (ks : List Bytes) (s : Store) (r : Remote (Telegram.Channel t))
      → All (λ k. get_object bucket k (delete_each t o bucket ks s r).0 ≡ none) ks
  unfolding delete_each
  delete_each-gone [] s r = tt
  delete_each-gone (k ∷ ks) s r = (stays ks k _ _ (one_gone k s r), delete_each-gone ks _ _)

-- A bulk deletion of one to 1000 keys answers with all of them, or with none when it is asked to be
-- quiet; none of them is found afterwards, whether or not it was there and however often it is
-- listed, and every object that is not listed is read as before. A request without a key or with
-- more changes nothing.
pub delete_objects-gone :
    (t : Telegram) (laws : TelegramLaws t) (o : Options) (bucket : Bytes) (req : DeleteRequest)
    (s : Store) (r : Remote (Telegram.Channel t))
    → Walks o.visit
    → ((1 ≤ length req.keys) × (length req.keys ≤ 1000)
        → ((delete_objects t o bucket (some req) s r).0
            ≡ deleted (if req.quiet then [] else req.keys))
          × All
              (λ k. get_object bucket k (delete_objects t o bucket (some req) s r).1 ≡ none)
              req.keys
          × ((x y : Bytes)
              → any (λ k. is_at x y bucket k) req.keys ≡ false
              → view x y (delete_objects t o bucket (some req) s r).1 ≡ view x y s))
      × ((length req.keys ≡ 0) ⊎ (1000 < length req.keys)
          → ((delete_objects t o bucket (some req) s r).1 ≡ s)
            × ((delete_objects t o bucket (some req) s r).2 ≡ r))
unfolding delete_objects
delete_objects-gone t laws o bucket req s r walks = (
  λ fits.
      let some_key : (length req.keys == 0) ≡ false = ground arith in
      let few : ltb 1000 (length req.keys) ≡ false = ground arith in
      rw some_key (
        rw few (
          refl,
          delete_each-gone t laws o walks bucket req.keys s r,
          λ x y h. delete_each-other t laws o walks bucket req.keys s r x y h,
        )),
  λ refused. (ground arith, ground arith),
)

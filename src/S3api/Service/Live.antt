-- ===== src/S3api/Service/Live.antt =====
-- The documents of the messages that the rows of the store name, behind an upload and a clean-up.
use telegram_s.Base.{
  ℕ, ◌+◌, ◌≤◌, ◌<◌, ◌≡◌, sym, ap, ◌∙◌, inl, inr, Bool, true, false, Bool-cases, some, List, [], ◌∷◌,
  ◌++◌, map, arith, filter, ◌==◌, length, All,
}
use telegram_s.Base.Bytes.{Bytes}
use telegram_s.Base.Slices.{length-slice}
use telegram_s.Storage.{ok, Chunk, occurs, AreDistinct, IsChunkMap, total_size, transport_mtproto}
use telegram_s.Mtproto.Api.{Telegram}
use telegram_s.Mtproto.Laws.{TelegramLaws}
use telegram_s.Mtproto.Delete.Windows.{Walks}
use telegram_s.Mtproto.Pool.{Remote}
use telegram_s.Mtproto.Split.{Body}
use telegram_s.Mtproto.Upload.{Options, upload_body}
use telegram_s.Mtproto.Upload.Keeps.{upload_body-keeps}
use telegram_s.Mtproto.Upload.Stored.{AreStored, upload_body-Stored, upload_body-AreDistinct}
use telegram_s.Metadata.{Store}
use telegram_s.S3api.Write.{reap}
use telegram_s.S3api.Write.Stored.{Apart, AreHeld, reap-others, upload-Apart}
use telegram_s.S3api.Service.Counts.{hits-occurs, Apart-occurs}

-- The chunks of all rows, of objects and of parts.
abbrev pub object_rows : Store → List Chunk
object_rows s = map (λ r. r.chunk) s.object_chunks

abbrev pub part_rows : Store → List Chunk
part_rows s = map (λ r. r.chunk) s.multipart_part_chunks

abbrev pub rows : Store → List Chunk
rows s = object_rows s ++ part_rows s

pub All-append :
    {A : Type 0} (P : A → Type 0) (xs ys : List A) → All P xs → All P ys → All P (xs ++ ys)
All-append P [] ys hx hy = hy
All-append P (x ∷ xs) ys (h, hx) hy = (h, All-append P xs ys hx hy)

pub All-split :
    {A : Type 0} (P : A → Type 0) (xs ys : List A) → All P (xs ++ ys) → All P xs × All P ys
All-split P [] ys h = (tt, h)
All-split P (x ∷ xs) ys (h, hs) = ((h, (All-split P xs ys hs).0), (All-split P xs ys hs).1)

pub All-filter :
    {A : Type 0} (P : Chunk → Type 0) (f : A → Chunk) (p : A → Bool) (xs : List A)
    → All P (map f xs)
    → All P (map f (filter p xs))
All-filter P f p [] h = tt
All-filter P f p (x ∷ xs) (h, hs) =
    let rest = All-filter P f p xs hs in
    elim (p x) as (λ b. All P (map f (elim b [ true ↦ x ∷ filter p xs | false ↦ filter p xs ]))) [
      | true ↦ (h, rest)
      | false ↦ rest
    ]

module _ (t : Telegram) (laws : TelegramLaws t) (o : Options) (walks : Walks o.visit) where
  open laws use {content}

  -- The message of a chunk holds a document of the chunk's size.
  abbrev pub IsLive : Telegram.Channel t → Chunk → Type 0
  IsLive c ch =
      (0 < ch.size)
      × (ch.size ≤ o.chunk_size)
      × (ch.transport ≡ transport_mtproto)
      × ((d : Bytes) × (content c ch.message_id ≡ some d) × (length d ≡ ch.size))

  pub All-AreHeld :
      (c : Telegram.Channel t) (xs : List Chunk) → All (IsLive c) xs → AreHeld t laws o walks c xs
  All-AreHeld c [] h = tt
  All-AreHeld c (x ∷ xs) ((pos, le, by, (d, held, size)), hs) = ((d, held), All-AreHeld c xs hs)

  pub All-kept :
      (c c' : Telegram.Channel t) (xs : List Chunk)
      → ((j : ℕ) (d : Bytes) → content c j ≡ some d → content c' j ≡ some d)
      → All (IsLive c) xs
      → All (IsLive c') xs
  All-kept c c' [] keep h = tt
  All-kept c c' (x ∷ xs) keep ((pos, le, by, (d, held, size)), hs) =
      ((pos, le, by, (d, keep x.message_id d held, size)), All-kept c c' xs keep hs)

  -- A clean-up leaves the rows live that name none of its messages.
  pub All-reap :
      (olds xs : List Chunk) (r : Remote (Telegram.Channel t))
      → ((j : ℕ) → occurs j xs + occurs j olds ≤ 1)
      → All (IsLive r.channel) xs
      → All (IsLive (reap t o olds r).channel) xs
  All-reap olds [] r once h = tt
  All-reap olds (x ∷ xs) r once ((pos, le, by, (d, held, size)), hs) =
      let bound = once x.message_id in
      let off : occurs x.message_id olds ≡ 0 = ground arith in
      (
        (
          pos,
          le,
          by,
          (
            d,
            reap-others t laws o walks olds r x.message_id (hits-occurs x.message_id olds off)
                ∙ held,
            size,
          ),
        ),
        All-reap olds xs r (λ j. (let b = once j in omega arith)) hs,
      )

  All-AreStored :
      (whole : Bytes) (c : Telegram.Channel t) (seq start : ℕ) (xs : List Chunk)
      → IsChunkMap seq start xs
      → start + total_size xs ≤ length whole
      → AreStored t laws o.chunk_size whole c xs
      → All (IsLive c) xs
  All-AreStored whole c seq start [] m fits h = tt
  All-AreStored whole c seq start (x ∷ xs) (n, at, m) fits ((pos, le, by, held), hs) = (
    (
      pos,
      le,
      by,
      (_, held, length-slice x.offset (x.offset + x.size) whole (omega arith) ∙ omega arith),
    ),
    All-AreStored whole c (seq + 1) (start + x.size) xs m (omega arith) hs,
  )

  -- The store is as before and its rows are live, and so are new chunks that no row names.
  pub record Fresh (s : Store) (c : Telegram.Channel t) (payload : Bytes) (news : List Chunk)
      : Type 0 where
    pub live : All (IsLive c) (rows s)
    pub once : (j : ℕ) → occurs j (rows s) + occurs j news ≤ 1
    pub live_news : All (IsLive c) news
    pub mapped : IsChunkMap 0 0 news
    pub size : length payload ≡ total_size news

  both_once :
      (xs news : List Chunk)
      → AreDistinct xs
      → AreDistinct news
      → Apart xs news
      → (j : ℕ) → occurs j xs + occurs j news ≤ 1
  both_once xs news dx dn apart j =
      let bx = dx j in
      let bn = dn j in
      elim (Bool-cases (occurs j xs == 0)) [
        | inl zero_there ↦ ground arith
        | inr there ↦ let none_new = Apart-occurs j xs news apart (ground arith) in omega arith
      ]

  pub upload_body-Fresh :
      (s : Store) (name content_type : Bytes) (body : Body) (r r1 : Remote (Telegram.Channel t))
      (news : List Chunk)
      → 0 < o.chunk_size
      → All (IsLive r.channel) (rows s)
      → AreDistinct (rows s)
      → upload_body t o name content_type body r ≡ (ok news, r1)
      → Fresh s r1.channel body.bytes news
  upload_body-Fresh s name content_type body r r1 news pos live distinct up =
      let (fine, size, mapped, stored) =
        upload_body-Stored t laws o name content_type body r r1 news pos up in
      record {
        live =
            All-kept r.channel r1.channel (rows s)
              (λ j d held.
                ap (λ a. content a.1.channel j) (sym up)
                ∙ upload_body-keeps t laws o name content_type body r j d walks held)
              live;
        once =
            both_once (rows s) news distinct
              (upload_body-AreDistinct t laws o name content_type body r r1 news pos up)
              (upload-Apart t laws o walks (rows s) news name content_type body r r1
                (All-AreHeld r.channel (rows s) live) up);
        live_news = All-AreStored body.bytes r1.channel 0 0 news mapped (omega arith) stored;
        mapped = mapped;
        size = size;
      }

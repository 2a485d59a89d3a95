-- ===== src/S3api/Service/Parts.antt =====
-- A part that is written between two requests, and an upload that is aborted, with their clean-up.
use mathlib.Core.Path.{subst}
use telegram_s.Base.{
  ℕ, ◌+◌, ◌≡◌, refl, sym, ap, ◌∙◌, inl, inr, Bool, Bool-cases, List, [], ◌∷◌, ◌++◌, map, arith,
  filter, ◌==◌, if◌then◌else◌, All, ltb,
}
use telegram_s.Base.Bytes.{Bytes, equal}
use telegram_s.Storage.{ok, Chunk, occurs, occurs-append}
use telegram_s.Mtproto.Api.{Telegram}
use telegram_s.Mtproto.Laws.{TelegramLaws}
use telegram_s.Mtproto.Delete.Windows.{Walks}
use telegram_s.Mtproto.Pool.{Remote}
use telegram_s.Mtproto.Upload.{Options}
use telegram_s.Metadata.{Store, PartChunkRow}
use telegram_s.Metadata.Multipart.{
  get_multipart_part_chunks, put_multipart_part, all_multipart_chunks, delete_multipart_upload,
}
use telegram_s.Metadata.Multipart.Parts.{delete_multipart_upload-view}
use telegram_s.Metadata.Multipart.Written.{
  kept, of_part, row_of, chunks-rows, put_multipart_part-rows,
}
use telegram_s.Metadata.Table.{insert_sorted, order_by, delete_where}
use telegram_s.S3api.Write.{reap}
use telegram_s.S3api.Service.Counts.{occurs-order_by, occurs-split}
use telegram_s.S3api.Service.Live.{
  rows, object_rows, part_rows, All-append, All-split, All-filter, IsLive, Fresh,
}
use telegram_s.S3api.Service.Good.{
  MappedView, IsMapped, map-append, IsGood, IsGood-reaped, All-AreNamed,
}

occurs-insert_row :
    (before : PartChunkRow → PartChunkRow → Bool) (j : ℕ) (x : PartChunkRow)
    (xs : List PartChunkRow)
    → occurs j (map (λ r. r.chunk) (insert_sorted before x xs))
      ≡ occurs j (map (λ r. r.chunk) (x ∷ xs))
unfolding insert_sorted
occurs-insert_row before j x [] = refl
occurs-insert_row before j x (y ∷ ys) = elim (Bool-cases (before y x)) [
  | inl earlier ↦ rw earlier (omega (arith, occurs-insert_row before j x ys))
  | inr later ↦ rw later refl
]

occurs-order_rows :
    (before : PartChunkRow → PartChunkRow → Bool) (j : ℕ) (rs : List PartChunkRow)
    → occurs j (map (λ r. r.chunk) (order_by before rs)) ≡ occurs j (map (λ r. r.chunk) rs)
unfolding order_by
occurs-order_rows before j [] = refl
occurs-order_rows before j (r ∷ rs) =
    occurs-insert_row before j r (order_by before rs)
    ∙ ap (λ n. (if r.chunk.message_id == j then 1 else 0) + n) (occurs-order_rows before j rs)

-- The columns that AllMultipartChunks leaves out do not matter for the messages.
occurs-zeroed :
    (j : ℕ) (rs : List PartChunkRow)
    → occurs j (map (λ r. record r.chunk { seq = 0; size = 0; offset = 0 }) rs)
      ≡ occurs j (map (λ r. r.chunk) rs)
occurs-zeroed j [] = refl
occurs-zeroed j (r ∷ rs) =
    ap (λ n. (if r.chunk.message_id == j then 1 else 0) + n) (occurs-zeroed j rs)

occurs-ordered :
    (j : ℕ) (before : PartChunkRow → PartChunkRow → Bool) (rs : List PartChunkRow)
    → occurs j (map (λ r. record r.chunk { seq = 0; size = 0; offset = 0 }) (order_by before rs))
      ≡ occurs j (map (λ r. r.chunk) rs)
occurs-ordered j before rs = occurs-zeroed j (order_by before rs) ∙ occurs-order_rows before j rs

module _ (t : Telegram) (laws : TelegramLaws t) (o : Options) (walks : Walks o.visit) where
  occurs-part :
      (j : ℕ) (id : Bytes) (n : ℕ) (s : Store)
      → occurs j (get_multipart_part_chunks id n s)
          + occurs j (map (λ r. r.chunk) (delete_where (of_part id n) s.multipart_part_chunks))
        ≡ occurs j (part_rows s)
  unfolding get_multipart_part_chunks
  occurs-part j id n s =
      ap
        (λ m.
          m + occurs j (map (λ r. r.chunk) (delete_where (of_part id n) s.multipart_part_chunks)))
        (occurs-order_by (λ a b. ltb a.seq b.seq) j _)
      ∙ occurs-split (λ r. r.chunk) (of_part id n) j s.multipart_part_chunks

  All-kept_chunks :
      (c : Telegram.Channel t) (cs : List Chunk)
      → All (IsLive t laws o walks c) cs
      → All (IsLive t laws o walks c) (map kept cs)
  All-kept_chunks c [] h = tt
  All-kept_chunks c (x ∷ cs) (h, hs) = (h, All-kept_chunks c cs hs)

  occurs-kept : (j : ℕ) (cs : List Chunk) → occurs j (map kept cs) ≡ occurs j cs
  occurs-kept j [] = refl
  occurs-kept j (c ∷ cs) = ap (λ n. (if c.message_id == j then 1 else 0) + n) (occurs-kept j cs)

  -- An upload that is recorded as a part, behind the clean-up of the old one.
  pub IsGood-part :
      (id : Bytes) (n : ℕ) (etag payload : Bytes) (size : ℕ) (news : List Chunk) (s s' : Store)
      (r : Remote (Telegram.Channel t))
      → Fresh t laws o walks s r.channel payload news
      → IsMapped s
      → put_multipart_part id n etag size news s ≡ ok s'
      → IsGood t laws o walks s' (reap t o (get_multipart_part_chunks id n s) r)
  IsGood-part id n etag payload size news s s' r f m put =
      let named = All-AreNamed t laws o walks r.channel news f.live_news in
      let (new_rows, same_objects, views) =
        put_multipart_part-rows id n etag size news s s' f.mapped put in
      let kept_rows = map (λ r. r.chunk) (delete_where (of_part id n) s.multipart_part_chunks) in
      let shape : rows s' ≡ object_rows s ++ (kept_rows ++ map kept news) =
        ap (λ l. map (λ r. r.chunk) l ++ part_rows s') same_objects
        ∙ ap (λ l. object_rows s ++ map (λ r. r.chunk) l) new_rows
        ∙ ap (λ l. object_rows s ++ l)
            (map-append (λ r. r.chunk) _ (map (row_of id n) news)
              ∙ ap (λ l. kept_rows ++ l) (chunks-rows id n news named)) in
      let (live_objects, live_parts) = All-split _ (object_rows s) (part_rows s) f.live in
      IsGood-reaped t laws o walks s' r (get_multipart_part_chunks id n s)
        (subst (All (IsLive t laws o walks r.channel)) (sym shape) (
          All-append _ (object_rows s) (kept_rows ++ map kept news) live_objects (
            All-append _ kept_rows (map kept news)
              (All-filter _ (λ r. r.chunk) _ s.multipart_part_chunks live_parts)
              (All-kept_chunks r.channel news f.live_news))))
        (λ j.
          let b = f.once j in
          let counted = occurs-part j id n s in
          let same = occurs-kept j news in
          let e = ap (occurs j) shape in
          omega (
            arith,
            occurs-append j (object_rows s) (kept_rows ++ map kept news),
            occurs-append j kept_rows (map kept news),
            occurs-append j (object_rows s) (part_rows s),
          ))
        (λ b k. subst MappedView (sym (views b k)) (m b k))

  pub upload_rows : Bytes → Store → List Chunk
  upload_rows id s = map (λ r. r.chunk) (filter (λ r. equal r.upload_id id) s.multipart_part_chunks)

  other_rows : Bytes → Store → List Chunk
  other_rows id s =
      map (λ r. r.chunk) (delete_where (λ r. equal r.upload_id id) s.multipart_part_chunks)

  occurs-all_multipart_chunks :
      (j : ℕ) (id : Bytes) (s : Store)
      → occurs j (all_multipart_chunks id s) ≡ occurs j (upload_rows id s)
  unfolding all_multipart_chunks upload_rows
  occurs-all_multipart_chunks j id s = occurs-ordered j _ _

  -- An aborted upload, with its clean-up.
  pub IsGood-abort :
      (id : Bytes) (s : Store) (r : Remote (Telegram.Channel t))
      → IsGood t laws o walks s r
      → IsGood t laws o walks
          (delete_multipart_upload id s)
          (reap t o (all_multipart_chunks id s) r)
  unfolding other_rows upload_rows delete_multipart_upload
  IsGood-abort id s r g =
      let (live_objects, live_parts) = All-split _ (object_rows s) (part_rows s) g.live in
      let (_, _, views) = delete_multipart_upload-view id s in
      IsGood-reaped t laws o walks (delete_multipart_upload id s) r (all_multipart_chunks id s)
        (All-append _ (object_rows s) (other_rows id s) live_objects
          (All-filter _ (λ r. r.chunk) _ s.multipart_part_chunks live_parts))
        (λ j.
          let d = g.distinct j in
          let counted =
            occurs-split (λ r. r.chunk) (λ r. equal r.upload_id id) j s.multipart_part_chunks in
          let reaped = occurs-all_multipart_chunks j id s in
          omega (
            arith,
            occurs-append j (object_rows s) (other_rows id s),
            occurs-append j (object_rows s) (part_rows s),
          ))
        (λ b k. subst MappedView (sym (views b k)) (g.mapped b k))

-- ===== src/S3api/Service/Stored.antt =====
-- An object that is written or deleted between two requests, with its clean-up.
use mathlib.Core.Path.{subst}
use telegram_s.Base.{
  ℕ, ◌+◌, ◌≡◌, refl, sym, ap, ◌∙◌, Option, none, some, List, ◌++◌, map, arith, length, All, ltb,
}
use telegram_s.Base.Bytes.{Bytes}
use telegram_s.Storage.{Result, ok, err, Chunk, occurs, occurs-append, IsChunkMap, total_size}
use telegram_s.Mtproto.Api.{Telegram}
use telegram_s.Mtproto.Laws.{TelegramLaws}
use telegram_s.Mtproto.Delete.Windows.{Walks}
use telegram_s.Mtproto.Pool.{Remote}
use telegram_s.Mtproto.Upload.{Options}
use telegram_s.Metadata.{Store, Object, get_object_chunks, put_object, delete_object, stamped}
use telegram_s.Metadata.Objects.{view, find_row, put_object-view, put_object-rows}
use telegram_s.Metadata.Deleted.{delete_object-view}
use telegram_s.Metadata.Rows.{AreNamed, rows_of, chunks-rows_of}
use telegram_s.Metadata.Table.{is_at, delete_where}
use telegram_s.S3api.Write.{reap}
use telegram_s.S3api.Write.RoundTrip.{merged-size}
use telegram_s.S3api.Service.Counts.{occurs-order_by, occurs-split}
use telegram_s.S3api.Service.Live.{
  rows, object_rows, part_rows, All-append, All-split, All-filter, IsLive, Fresh,
}
use telegram_s.S3api.Service.Good.{
  MappedView, IsMapped, IsMapped-changed, map-append, IsGood, IsGood-reaped, All-AreNamed,
}

size_in : Option Object → ℕ
size_in none = 0
size_in (some obj) = obj.size

store_in : Store → Result Store → Store
store_in s (err e) = s
store_in s (ok s') = s'

-- A write of an object keeps the chunk maps without a gap.
pub IsMapped-put :
    (now : ℕ) (obj : Object) (kv : List (Bytes × Bytes)) (news : List Chunk) (s s' : Store)
    → IsChunkMap 0 0 news
    → AreNamed news
    → obj.size ≡ total_size news
    → put_object now obj kv news s ≡ ok s'
    → IsMapped s
    → IsMapped s'
unfolding size_in store_in
IsMapped-put now obj kv news s s' mapped named full put m =
    let (s2, put2, seen, others) = put_object-view now obj kv news s mapped named in
    let same : s2 ≡ s' = ap (store_in s) (sym put2 ∙ put) in
    let old = find_row obj.bucket obj.key s.objects in
    IsMapped-changed obj.bucket obj.key s s'
      (λ b k other. ap (view b k) (sym same) ∙ others b k other)
      (subst MappedView (sym (ap (view obj.bucket obj.key) (sym same) ∙ seen))
        (λ found e. (mapped, sym (ap size_in e) ∙ (merged-size (stamped now obj) old).0 ∙ full)))
      m

-- The chunks of an object, against the rows that are left.
pub occurs-object :
    (j : ℕ) (b k : Bytes) (s : Store)
    → occurs j (get_object_chunks b k s)
        + occurs j
            (map (λ r. r.chunk) (delete_where (λ r. is_at b k r.bucket r.key) s.object_chunks))
      ≡ occurs j (object_rows s)
unfolding get_object_chunks
occurs-object j b k s =
    ap
      (λ n.
        n
        + occurs j
            (map (λ r. r.chunk) (delete_where (λ r. is_at b k r.bucket r.key) s.object_chunks)))
      (occurs-order_by (λ a b. ltb a.seq b.seq) j _)
    ∙ occurs-split (λ r. r.chunk) (λ r. is_at b k r.bucket r.key) j s.object_chunks

module _ (t : Telegram) (laws : TelegramLaws t) (o : Options) (walks : Walks o.visit) where
  -- An upload that is recorded as an object, behind the clean-up of the old one.
  pub IsGood-put :
      (now : ℕ) (obj : Object) (kv : List (Bytes × Bytes)) (payload : Bytes) (news : List Chunk)
      (s s' : Store) (r : Remote (Telegram.Channel t))
      → Fresh t laws o walks s r.channel payload news
      → IsMapped s
      → obj.size ≡ length payload
      → put_object now obj kv news s ≡ ok s'
      → IsGood t laws o walks s' (reap t o (get_object_chunks obj.bucket obj.key s) r)
  IsGood-put now obj kv payload news s s' r f m full put =
      let named = All-AreNamed t laws o walks r.channel news f.live_news in
      let (new_rows, same_parts) = put_object-rows now obj kv news s s' f.mapped put in
      let kept_rows =
        map (λ r. r.chunk)
          (delete_where (λ r. is_at obj.bucket obj.key r.bucket r.key) s.object_chunks) in
      let shape : rows s' ≡ (kept_rows ++ news) ++ part_rows s =
        ap (λ l. map (λ r. r.chunk) l ++ part_rows s') new_rows
        ∙ ap (λ l. l ++ part_rows s')
            (map-append (λ r. r.chunk) _ (rows_of obj.bucket obj.key news)
              ∙ ap (λ l. kept_rows ++ l) (chunks-rows_of obj.bucket obj.key news named))
        ∙ ap (λ l. (kept_rows ++ news) ++ map (λ r. r.chunk) l) same_parts in
      let (live_objects, live_parts) = All-split _ (object_rows s) (part_rows s) f.live in
      let (s2, put2, seen, others) = put_object-view now obj kv news s f.mapped named in
      IsGood-reaped t laws o walks s' r (get_object_chunks obj.bucket obj.key s)
        (subst (All (IsLive t laws o walks r.channel)) (sym shape) (
          All-append _ (kept_rows ++ news) (part_rows s)
            (All-append _ kept_rows news
              (All-filter _ (λ r. r.chunk) _ s.object_chunks live_objects) f.live_news)
            live_parts))
        (λ j.
          let b = f.once j in
          let counted = occurs-object j obj.bucket obj.key s in
          let e = ap (occurs j) shape in
          omega (
            arith,
            occurs-append j (kept_rows ++ news) (part_rows s),
            occurs-append j kept_rows news,
            occurs-append j (object_rows s) (part_rows s),
          ))
        (IsMapped-put now obj kv news s s' f.mapped named (full ∙ f.size) put m)

  delete_object-rows :
      (b k : Bytes) (s : Store)
      → rows (delete_object b k s)
        ≡ map (λ r. r.chunk) (delete_where (λ r. is_at b k r.bucket r.key) s.object_chunks)
          ++ part_rows s
  unfolding delete_object
  delete_object-rows b k s = refl

  -- A deleted object, with its clean-up.
  pub IsGood-delete :
      (b k : Bytes) (s : Store) (r : Remote (Telegram.Channel t))
      → IsGood t laws o walks s r
      → IsGood t laws o walks (delete_object b k s) (reap t o (get_object_chunks b k s) r)
  IsGood-delete b k s r g =
      let kept_rows =
        map (λ r. r.chunk) (delete_where (λ r. is_at b k r.bucket r.key) s.object_chunks) in
      let (live_objects, live_parts) = All-split _ (object_rows s) (part_rows s) g.live in
      let (gone, others) = delete_object-view b k s in
      IsGood-reaped t laws o walks (delete_object b k s) r (get_object_chunks b k s)
        (subst (All (IsLive t laws o walks r.channel)) (sym (delete_object-rows b k s)) (
          All-append _ kept_rows (part_rows s)
            (All-filter _ (λ r. r.chunk) _ s.object_chunks live_objects) live_parts))
        (λ j.
          let d = g.distinct j in
          let counted = occurs-object j b k s in
          let e = ap (occurs j) (delete_object-rows b k s) in
          omega (
            arith,
            occurs-append j kept_rows (part_rows s),
            occurs-append j (object_rows s) (part_rows s),
          ))
        (IsMapped-changed b k s (delete_object b k s) others
          (subst MappedView (sym gone) (λ obj e. absurd (ground arith))) g.mapped)

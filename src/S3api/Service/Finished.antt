-- ===== src/S3api/Service/Finished.antt =====
-- What holds behind a completed upload.
use mathlib.Core.Path.{subst}
use telegram_s.Base.{ℕ, ◌≡◌, refl, sym, ap, ◌∙◌, inr, false, List, [], ◌∷◌, ◌++◌, map, arith, All}
use telegram_s.Base.Bytes.{Bytes, equal, is_empty}
use telegram_s.Storage.{Chunk, occurs, occurs-append}
use telegram_s.Mtproto.Api.{Telegram}
use telegram_s.Mtproto.Laws.{TelegramLaws}
use telegram_s.Mtproto.Delete.Windows.{Walks}
use telegram_s.Mtproto.Upload.{Options}
use telegram_s.Metadata.{Store, PartChunkRow, MultipartPart}
use telegram_s.S3api.Assembly.{Assembly, CompletePart, assemble, start_assembly}
use telegram_s.S3api.Service.Live.{
  rows, object_rows, part_rows, All-append, All-split, All-filter, IsLive,
}
use telegram_s.S3api.Service.Good.{
  MappedView, IsMapped, map-append, IsGood, IsGood-reaped, All-AreNamed,
}
use telegram_s.S3api.Service.Stored.{IsMapped-put, occurs-object}
use telegram_s.S3api.Multipart.Assembled.{assemble-IsAssembly}
use telegram_s.Metadata.{Object, put_object, get_object_chunks}
use telegram_s.Metadata.Table.{is_at, delete_where}
use telegram_s.Metadata.Multipart.{finalize_multipart_upload, delete_multipart_upload}
use telegram_s.Metadata.Multipart.Parts.{
  finalize-put_object, and_then, delete_multipart_upload-view,
}
use telegram_s.Metadata.Objects.{put_object-rows}
use telegram_s.Metadata.Rows.{rows_of, chunks-rows_of}
use telegram_s.S3api.Write.{reap}
use telegram_s.S3api.Write.RoundTrip.{stored_or}
use telegram_s.Mtproto.Pool.{Remote}
use telegram_s.Storage.{Result, ok, err, total_size, IsChunkMap}
use telegram_s.S3api.Service.Counts.{occurs-split}
use telegram_s.S3api.Service.Completed.{assemble-Taken}

-- What the transaction of a completion stores.
finalize-put :
    (now : ℕ) (obj : Object) (kv : List (Bytes × Bytes)) (chunks : List Chunk) (id : Bytes)
    (s s' : Store)
    → finalize_multipart_upload now obj kv chunks id s ≡ ok s'
    → (s1 : Store) × (put_object now obj kv chunks s ≡ ok s1) × (s' ≡ delete_multipart_upload id s1)
finalize-put now obj kv chunks id s s' h =
    by_put (put_object now obj kv chunks s) refl
      (sym (finalize-put_object now obj kv chunks id s) ∙ h)
  where
    by_put :
        (p : Result Store)
        → put_object now obj kv chunks s ≡ p
        → and_then p (delete_multipart_upload id) ≡ ok s'
        → (s1 : Store) × (put_object now obj kv chunks s ≡ ok s1)
          × (s' ≡ delete_multipart_upload id s1)
    by_put (err e) put h = absurd (ground arith)
    by_put (ok s1) put h = (s1, put, sym (ap (stored_or s') h))

delete_multipart_upload-rows :
    (id : Bytes) (s : Store)
    → rows (delete_multipart_upload id s)
      ≡ object_rows s
        ++ map (λ r. r.chunk) (delete_where (λ r. equal r.upload_id id) s.multipart_part_chunks)
unfolding delete_multipart_upload
delete_multipart_upload-rows id s = refl

module _ (t : Telegram) (laws : TelegramLaws t) (o : Options) (walks : Walks o.visit) where
  PartsNamed-live :
      (c : Telegram.Channel t) (rs : List PartChunkRow)
      → All (IsLive t laws o walks c) (map (λ r. r.chunk) rs)
      → All (λ r. is_empty r.chunk.transport ≡ false) rs
  PartsNamed-live c [] h = tt
  PartsNamed-live c (r ∷ rs) ((pos, le, by, d), hs) = (ap is_empty by, PartsNamed-live c rs hs)

  assembled_map :
      (c : Telegram.Channel t) (id : Bytes) (s : Store) (stored : List MultipartPart)
      (cps : List CompletePart) (a : Assembly)
      → All (IsLive t laws o walks c) (part_rows s)
      → assemble id s stored cps start_assembly ≡ inr a
      → IsChunkMap 0 0 a.final_chunks × (a.total_size ≡ total_size a.final_chunks)
  assembled_map c id s stored cps a live h =
      let ((mapped, _, _, sum), _) =
        assemble-IsAssembly id s stored (PartsNamed-live c s.multipart_part_chunks live) cps
          start_assembly a (tt, tt, refl, refl) h in
      (mapped, sum)

  -- A completed upload, behind the clean-up of the object that it replaces.
  pub IsGood-completed :
      (now : ℕ) (obj : Object) (kv : List (Bytes × Bytes)) (id : Bytes)
      (stored : List MultipartPart) (cps : List CompletePart) (a : Assembly) (s s' : Store)
      (r : Remote (Telegram.Channel t))
      → IsGood t laws o walks s r
      → assemble id s stored cps start_assembly ≡ inr a
      → obj.size ≡ a.total_size
      → finalize_multipart_upload now obj kv a.final_chunks id s ≡ ok s'
      → IsGood t laws o walks s' (reap t o (get_object_chunks obj.bucket obj.key s) r)
  IsGood-completed now obj kv id stored cps a s s' r g assembled full done =
      let news = a.final_chunks in
      let (live_objects, live_parts) = All-split _ (object_rows s) (part_rows s) g.live in
      let (live_news, among) =
        assemble-Taken t laws o walks r.channel id s stored cps a live_parts assembled in
      let named = All-AreNamed t laws o walks r.channel news live_news in
      let mapped = assembled_map r.channel id s stored cps a live_parts assembled in
      let (s1, put, back) = finalize-put now obj kv news id s s' done in
      let (new_rows, same_parts) = put_object-rows now obj kv news s s1 mapped.0 put in
      let kept_rows =
        map (λ r. r.chunk)
          (delete_where (λ r. is_at obj.bucket obj.key r.bucket r.key) s.object_chunks) in
      let other_parts =
        map (λ r. r.chunk) (delete_where (λ r. equal r.upload_id id) s.multipart_part_chunks) in
      let shape : rows s' ≡ (kept_rows ++ news) ++ other_parts =
        ap rows back
        ∙ delete_multipart_upload-rows id s1
        ∙ ap
            (λ l. object_rows s1 ++ map (λ r. r.chunk) (delete_where (λ r. equal r.upload_id id) l))
            same_parts
        ∙ ap (λ l. map (λ r. r.chunk) l ++ other_parts) new_rows
        ∙ ap (λ l. l ++ other_parts)
            (map-append (λ r. r.chunk) _ (rows_of obj.bucket obj.key news)
              ∙ ap (λ l. kept_rows ++ l) (chunks-rows_of obj.bucket obj.key news named)) in
      let (_, _, views) = delete_multipart_upload-view id s1 in
      let mapped1 =
        IsMapped-put now obj kv news s s1 mapped.0 named (full ∙ mapped.1) put g.mapped in
      IsGood-reaped t laws o walks s' r (get_object_chunks obj.bucket obj.key s)
        (subst (All (IsLive t laws o walks r.channel)) (sym shape) (
          All-append _ (kept_rows ++ news) other_parts
            (All-append _ kept_rows news
              (All-filter _ (λ r. r.chunk) _ s.object_chunks live_objects) live_news)
            (All-filter _ (λ r. r.chunk) _ s.multipart_part_chunks live_parts)))
        (λ j.
          let d = g.distinct j in
          let taken = among j in
          let counted = occurs-object j obj.bucket obj.key s in
          let split =
            occurs-split (λ r. r.chunk) (λ r. equal r.upload_id id) j s.multipart_part_chunks in
          let e = ap (occurs j) shape in
          omega (
            arith,
            occurs-append j (kept_rows ++ news) other_parts,
            occurs-append j kept_rows news,
            occurs-append j (object_rows s) (part_rows s),
          ))
        (subst IsMapped (sym back) (λ b k. subst MappedView (sym (views b k)) (mapped1 b k)))

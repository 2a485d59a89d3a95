-- ===== src/S3api/Service/Completed.antt =====
-- The messages that a completed upload takes over from its parts.
use mathlib.Core.Path.{subst}
use telegram_s.Base.{
  ℕ, ◌+◌, ◌≤◌, ◌<◌, ◌≡◌, sym, inl, inr, Bool, Bool-cases, ◌&&◌, List, [], ◌∷◌, ◌++◌, map, arith,
  filter, All, ltb, leb,
}
use telegram_s.Base.Bytes.{Bytes, equal}
use telegram_s.Storage.{Chunk, occurs, occurs-append}
use telegram_s.Mtproto.Api.{Telegram}
use telegram_s.Mtproto.Laws.{TelegramLaws}
use telegram_s.Mtproto.Delete.Windows.{Walks}
use telegram_s.Mtproto.Upload.{Options}
use telegram_s.Metadata.{Store, PartChunkRow, MultipartPart}
use telegram_s.Metadata.Table.{insert_sorted, order_by}
use telegram_s.Metadata.Multipart.{get_multipart_part_chunks, is_part}
use telegram_s.S3api.Assembly.{Assembly, CompletePart, append_chunks, assemble, start_assembly}
use telegram_s.S3api.Multipart.Accepted.{append_chunks-prev_part}
use telegram_s.S3api.Multipart.Loop.{assemble_inv}
use telegram_s.S3api.Service.Counts.{occurs-order_by}
use telegram_s.S3api.Service.Live.{part_rows, All-append, All-filter, IsLive}

-- The rows of an upload up to a part.
upto : Bytes → ℕ → PartChunkRow → Bool
upto id n r = equal r.upload_id id && leb r.part_number n

-- A part and those before it are among the parts up to it.
occurs-upto :
    (j : ℕ) (id : Bytes) (p n : ℕ) (rs : List PartChunkRow)
    → p < n
    → occurs j (map (λ r. r.chunk) (filter (upto id p) rs))
        + occurs j (map (λ r. r.chunk) (filter (λ r. is_part id n r.upload_id r.part_number) rs))
      ≤ occurs j (map (λ r. r.chunk) (filter (upto id n) rs))
unfolding upto
occurs-upto j id p n [] lt = omega arith
occurs-upto j id p n (r ∷ rs) lt = ground (arith, occurs-upto j id p n rs)

occurs-upload :
    (j : ℕ) (id : Bytes) (n : ℕ) (rs : List PartChunkRow)
    → occurs j (map (λ r. r.chunk) (filter (upto id n) rs))
      ≤ occurs j (map (λ r. r.chunk) (filter (λ r. equal r.upload_id id) rs))
unfolding upto
occurs-upload j id n [] = omega arith
occurs-upload j id n (r ∷ rs) = ground (arith, occurs-upload j id n rs)

occurs-append_chunks :
    (j : ℕ) (cs : List Chunk) (a : Assembly)
    → occurs j (append_chunks cs a).final_chunks ≡ occurs j a.final_chunks + occurs j cs
unfolding append_chunks
occurs-append_chunks j [] a = omega arith
occurs-append_chunks j (c ∷ cs) a =
    let placed : Chunk = record c { seq = a.seq; offset = a.total_size } in
    omega (
      arith,
      occurs-append_chunks j cs (record a {
        final_chunks = a.final_chunks ++ placed ∷ [];
        seq = a.seq + 1;
        total_size = a.total_size + c.size;
      }),
      occurs-append j a.final_chunks (placed ∷ []),
    )

module _ (t : Telegram) (laws : TelegramLaws t) (o : Options) (walks : Walks o.visit)
    (c : Telegram.Channel t) where
  All-append_chunks :
      (cs : List Chunk) (a : Assembly)
      → All (IsLive t laws o walks c) a.final_chunks
      → All (IsLive t laws o walks c) cs
      → All (IsLive t laws o walks c) (append_chunks cs a).final_chunks
  unfolding append_chunks
  All-append_chunks [] a h hs = h
  All-append_chunks (x ∷ cs) a h (hx, hs) =
      All-append_chunks cs _ (All-append _ a.final_chunks _ h (hx, tt)) hs

  All-insert_sorted :
      (before : Chunk → Chunk → Bool) (x : Chunk) (xs : List Chunk)
      → IsLive t laws o walks c x
      → All (IsLive t laws o walks c) xs
      → All (IsLive t laws o walks c) (insert_sorted before x xs)
  unfolding insert_sorted
  All-insert_sorted before x [] h hs = (h, tt)
  All-insert_sorted before x (y ∷ ys) h (hy, hs) = elim (Bool-cases (before y x)) [
    | inl e ↦ rw e (hy, All-insert_sorted before x ys h hs)
    | inr e ↦ rw e (h, (hy, hs))
  ]

  pub All-order_by :
      (before : Chunk → Chunk → Bool) (xs : List Chunk)
      → All (IsLive t laws o walks c) xs
      → All (IsLive t laws o walks c) (order_by before xs)
  unfolding order_by
  All-order_by before [] h = tt
  All-order_by before (x ∷ xs) (h, hs) =
      All-insert_sorted before x (order_by before xs) h (All-order_by before xs hs)

  All-part :
      (id : Bytes) (n : ℕ) (s : Store)
      → All (IsLive t laws o walks c) (part_rows s)
      → All (IsLive t laws o walks c) (get_multipart_part_chunks id n s)
  unfolding get_multipart_part_chunks
  All-part id n s h = All-order_by _ _ (All-filter _ (λ r. r.chunk) _ s.multipart_part_chunks h)

  occurs-part_chunks :
      (j : ℕ) (id : Bytes) (n : ℕ) (s : Store)
      → occurs j (get_multipart_part_chunks id n s)
        ≡ occurs j (
            map
              (λ r. r.chunk)
              (filter (λ r. is_part id n r.upload_id r.part_number) s.multipart_part_chunks))
  unfolding get_multipart_part_chunks
  occurs-part_chunks j id n s = occurs-order_by (λ a b. ltb a.seq b.seq) j _

  -- The chunks so far are live, and are among the rows of the parts so far.
  abbrev Taken : Bytes → Store → Assembly → Type 0
  Taken id s a =
      All (IsLive t laws o walks c) a.final_chunks
      × ((j : ℕ)
          → occurs j a.final_chunks
            ≤ occurs j (map (λ r. r.chunk) (filter (upto id a.prev_part) s.multipart_part_chunks)))

  Taken-part :
      (id : Bytes) (s : Store)
      → All (IsLive t laws o walks c) (part_rows s)
      → (n : ℕ) (raw : Bytes) (a : Assembly) → a.prev_part < n
      → Taken id s a
      → Taken id s (
          append_chunks
            (get_multipart_part_chunks id n s)
            (record a { md5_concat = a.md5_concat ++ raw; prev_part = n }))
  Taken-part id s live n raw a later (h, among) =
      let turned : Assembly = record a { md5_concat = a.md5_concat ++ raw; prev_part = n } in
      let cs = get_multipart_part_chunks id n s in
      (
        All-append_chunks cs turned h (All-part id n s live),
        subst
            (λ m.
              (j : ℕ)
              → occurs j (append_chunks cs turned).final_chunks
                ≤ occurs j (map (λ r. r.chunk) (filter (upto id m) s.multipart_part_chunks)))
            (sym (append_chunks-prev_part cs turned))
            (λ j.
              let had = among j in
              omega (
                arith,
                occurs-append_chunks j cs turned,
                occurs-part_chunks j id n s,
                occurs-upto j id a.prev_part n s.multipart_part_chunks later,
              )),
      )

  -- The chunks of an assembled upload are live, and are among those of its rows.
  pub assemble-Taken :
      (id : Bytes) (s : Store) (stored : List MultipartPart) (cps : List CompletePart)
      (a : Assembly)
      → All (IsLive t laws o walks c) (part_rows s)
      → assemble id s stored cps start_assembly ≡ inr a
      → All (IsLive t laws o walks c) a.final_chunks
        × ((j : ℕ)
            → occurs j a.final_chunks
              ≤ occurs j
                  (map (λ r. r.chunk) (filter (λ r. equal r.upload_id id) s.multipart_part_chunks)))
  assemble-Taken id s stored cps a live h =
      let (taken, among) =
        assemble_inv id s stored (Taken id s) (Taken-part id s live) cps start_assembly a
          (tt, λ j. omega arith) h in
      (
        taken,
        λ j.
            (let had = among j in
              omega (arith, occurs-upload j id a.prev_part s.multipart_part_chunks)),
      )

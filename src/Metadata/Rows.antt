-- ===== src/Metadata/Rows.antt =====
-- The rows of an object's chunks, inserted and read in order.
use telegram_s.Base.{
  ℕ, ◌+◌, ◌<◌, ◌≡◌, refl, sym, ap, ◌∙◌, ◌⊎◌, inl, inr, false, ◌&&◌, Bool-cases, some, List, [], ◌∷◌,
  ◌++◌, ◌>>=◌, map, arith, ltb, ◌==◌, any, filter, append_assoc, append-nil,
}
use mathlib.Core.Path.{subst}
use telegram_s.Base.Bytes.{Bytes, is_empty}
use telegram_s.Storage.{Chunk, IsChunkMap}
use telegram_s.Metadata.Table.{
  is_at, is_at_refl, IsOrdered, delete_where, delete_where-true, delete_where-false,
}
use telegram_s.Metadata.{
  ChunkRow, with_transport, insert_chunk, insert_chunks, replace_object_chunks,
}

-- The rows of chunks.
abbrev pub rows_of : Bytes → Bytes → List Chunk → List ChunkRow
rows_of bucket key [] = []
rows_of bucket key (c ∷ cs) =
    record { bucket = bucket; key = key; chunk = with_transport c } ∷ rows_of bucket key cs

-- No row of the object has the number `seq` or a later one.
abbrev pub Below : Bytes → Bytes → ℕ → List ChunkRow → Type 0
Below bucket key seq [] = Unit
Below bucket key seq (r ∷ rs) =
    ((is_at bucket key r.bucket r.key ≡ false) ⊎ (r.chunk.seq < seq)) × Below bucket key seq rs

Below-suc : (b k : Bytes) (seq : ℕ) (rs : List ChunkRow) → Below b k seq rs → Below b k (seq + 1) rs
Below-suc b k seq [] h = tt
Below-suc b k seq (r ∷ rs) (inl e, hs) = (inl e, Below-suc b k seq rs hs)
Below-suc b k seq (r ∷ rs) (inr lt, hs) = (inr (omega arith), Below-suc b k seq rs hs)

Below-append :
    (b k : Bytes) (seq : ℕ) (rs : List ChunkRow) (r : ChunkRow)
    → Below b k seq rs
    → r.chunk.seq < seq
    → Below b k seq (rs ++ r ∷ [])
Below-append b k seq [] r h lt = (inr lt, tt)
Below-append b k seq (x ∷ rs) r (h, hs) lt = (h, Below-append b k seq rs r hs lt)

Below-free :
    (b k : Bytes) (seq : ℕ) (rs : List ChunkRow)
    → Below b k seq rs
    → any (λ r. is_at b k r.bucket r.key && r.chunk.seq == seq) rs ≡ false
Below-free b k seq [] h = refl
Below-free b k seq (r ∷ rs) (inl e, hs) = ground (arith, Below-free b k seq rs hs)
Below-free b k seq (r ∷ rs) (inr lt, hs) = ground (arith, Below-free b k seq rs hs)

insert_chunk-free :
    (b k : Bytes) (c : Chunk) (rows : List ChunkRow)
    → any (λ r. is_at b k r.bucket r.key && r.chunk.seq == c.seq) rows ≡ false
    → insert_chunk b k c rows
      ≡ some (rows ++ record { bucket = b; key = k; chunk = with_transport c } ∷ [])
unfolding insert_chunk
insert_chunk-free b k c rows h = rw h refl

-- Numbered chunks are inserted without a conflict.
pub insert_chunks-rows :
    (b k : Bytes) (seq start : ℕ) (cs : List Chunk) (rows : List ChunkRow)
    → IsChunkMap seq start cs
    → Below b k seq rows
    → insert_chunks b k cs rows ≡ some (rows ++ rows_of b k cs)
unfolding insert_chunks
insert_chunks-rows b k seq start [] rows m h = ap some (sym (append-nil rows))
insert_chunks-rows b k seq start (c ∷ cs) rows (n, o, m) h =
    let row : ChunkRow = record { bucket = b; key = k; chunk = with_transport c } in
    let free =
      ap (λ n. any (λ r. is_at b k r.bucket r.key && r.chunk.seq == n) rows) n
      ∙ Below-free b k seq rows h in
    let ih =
      insert_chunks-rows b k (seq + 1) (start + c.size) cs (rows ++ row ∷ []) m
        (Below-append b k (seq + 1) rows row (Below-suc b k seq rows h) (omega arith)) in
    ap (λ o. o >>= insert_chunks b k cs) (insert_chunk-free b k c rows free)
    ∙ ih
    ∙ ap some (append_assoc rows (row ∷ []) (rows_of b k cs))

pub Below-deleted :
    (b k : Bytes) (rows : List ChunkRow)
    → Below b k 0 (delete_where (λ r. is_at b k r.bucket r.key) rows)
Below-deleted b k [] = tt
Below-deleted b k (r ∷ rs) = elim (Bool-cases (is_at b k r.bucket r.key)) [
  | inl same ↦ subst (Below b k 0) (sym (delete_where-true _ r rs same)) (Below-deleted b k rs)
  | inr other ↦
      subst (Below b k 0) (sym (delete_where-false _ r rs other)) (inl other, Below-deleted b k rs)
]

pub replace_object_chunks-rows :
    (b k : Bytes) (cs : List Chunk) (rows : List ChunkRow)
    → IsChunkMap 0 0 cs
    → replace_object_chunks b k cs rows
      ≡ some (delete_where (λ r. is_at b k r.bucket r.key) rows ++ rows_of b k cs)
unfolding replace_object_chunks
replace_object_chunks-rows b k cs rows m =
    insert_chunks-rows b k 0 0 cs _ m (Below-deleted b k rows)

pub filter-rows_of :
    (b k : Bytes) (cs : List Chunk)
    → filter (λ r. is_at b k r.bucket r.key) (rows_of b k cs) ≡ rows_of b k cs
filter-rows_of b k [] = refl
filter-rows_of b k (c ∷ cs) = ground (arith, is_at_refl b k, filter-rows_of b k cs)

pub filter-rows_of_other :
    (b k b' k' : Bytes) (cs : List Chunk)
    → is_at b' k' b k ≡ false
    → filter (λ r. is_at b' k' r.bucket r.key) (rows_of b k cs) ≡ []
filter-rows_of_other b k b' k' [] h = refl
filter-rows_of_other b k b' k' (c ∷ cs) h = ground (arith, filter-rows_of_other b k b' k' cs h)

-- Every chunk names its transport, as those of an upload do.
abbrev pub AreNamed : List Chunk → Type 0
AreNamed [] = Unit
AreNamed (c ∷ cs) = (is_empty c.transport ≡ false) × AreNamed cs

pub chunks-rows_of :
    (b k : Bytes) (cs : List Chunk) → AreNamed cs → map (λ r. r.chunk) (rows_of b k cs) ≡ cs
chunks-rows_of b k [] h = refl
chunks-rows_of b k (c ∷ cs) (h, hs) = ground (arith, chunks-rows_of b k cs hs)

pub IsChunkMap-IsOrdered :
    (seq start : ℕ) (cs : List Chunk)
    → IsChunkMap seq start cs
    → IsOrdered (λ a b. ltb a.seq b.seq) cs
IsChunkMap-IsOrdered seq start [] m = tt
IsChunkMap-IsOrdered seq start (c ∷ []) m = tt
IsChunkMap-IsOrdered seq start (c ∷ d ∷ cs) (n, o, m) =
    (ground arith, IsChunkMap-IsOrdered (seq + 1) (start + c.size) (d ∷ cs) m)

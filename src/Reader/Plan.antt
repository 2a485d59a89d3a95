-- ===== src/Reader/Plan.antt =====
-- internal/reader/reader.go: what `New` computes from the range, what a worker fetches for one
-- slot, how the drainer trims it, and what the drainer hands on.
pub mod Aligned
pub mod Whole
pub mod Race
use telegram_s.Base.{
  ℕ, zero, suc, ◌+◌, ◌-◌, ◌*◌, ◌/◌, ◌%◌, ◌^◌, none, some, List, [], ◌∷◌, leb, ltb, ◌==◌,
  if◌then◌else◌, length,
}
use telegram_s.Base.Bytes.{Bytes}
use telegram_s.Base.Slices.{slice}
use telegram_s.Storage.{Result, ok, err}
use telegram_s.Reader.Buffer.{Buffer, Reader, more}

-- The fields of `Reader` that `New` sets from the range.
pub record Plan : Type 0 where
  pub chunk_size : ℕ
  pub start : ℕ
  pub end : ℕ
  pub aligned_start : ℕ
  pub n_chunks : ℕ

abbrev pub align_up : ℕ → ℕ → ℕ
align_up end cs = let rem = end % cs in if rem == 0 then end else end + (cs - rem)

plan_of : ℕ → ℕ → ℕ → Plan
plan_of cs start end =
    if leb end start
    then record { chunk_size = cs; start = start; end = end; aligned_start = 0; n_chunks = 0 }
    else record {
      chunk_size = cs;
      start = start;
      end = end;
      aligned_start = start - start % cs;
      n_chunks = (align_up end cs - (start - start % cs)) / cs;
    }

-- `source_size` is the source's `ChunkSize`.
unfoldable pub plan : (ℕ → ℕ → ℕ) → ℕ → ℕ → Plan
unfolding plan_of
plan source_size start end =
    let end' = if ltb end start then start else end in
    let asked = source_size start end' in plan_of (if asked == 0 then 2 ^ 20 else asked) start end'

-- Where slot i begins.
abbrev pub slot_offset : Plan → ℕ → ℕ
slot_offset p i = p.aligned_start + i * p.chunk_size

-- A worker's `src.Chunk(off, r.chunkSize)` for slot i, as the buffer that it publishes.
buffer_of : Result Bytes → Buffer
buffer_of (ok body) = record { buf = body; offset = 0; error = none }
buffer_of (err e) = record { buf = []; offset = 0; error = some e }

unfoldable pub fetch : (ℕ → ℕ → Result Bytes) → Plan → ℕ → Buffer
unfolding buffer_of
fetch source p i = buffer_of (source (slot_offset p i) p.chunk_size)

-- b.buf[lo-chunkOff : hi-chunkOff] for the buffer of a slot at `off` and the range [start, end)
pub cut : ℕ → ℕ → ℕ → Bytes → Bytes
cut off start end buf =
    let lo = if ltb off start then start else off in
    let hi = if ltb end (off + length buf) then end else off + length buf in
    if leb hi lo then [] else slice (lo - off) (hi - off) buf

unfoldable pub trim_window : Plan → ℕ → Buffer → Buffer
unfolding cut
trim_window p i b = record b { buf = cut (slot_offset p i) p.start p.end b.buf }

-- The drainer over the slots from i on: an error is handed on and ends it.
unfoldable pub drain : Plan → (ℕ → Buffer) → ℕ → ℕ → List Buffer
unfolding trim_window
drain p slot i zero = []
drain p slot i (suc left) =
    let rest = drain p slot (i + 1) left in
    elim (slot i).error [ some e ↦ slot i ∷ [] | none ↦ trim_window p i (slot i) ∷ rest ]

-- `New`: the reader, with what its workers and its drainer deliver when each slot is fetched.
unfoldable pub open_reader : (ℕ → ℕ → Result Bytes) → (ℕ → ℕ → ℕ) → ℕ → ℕ → Reader
open_reader source source_size start end =
    let p = plan source_size start end in
    record { out = drain p (fetch source p) 0 p.n_chunks; cur = none; status = more }

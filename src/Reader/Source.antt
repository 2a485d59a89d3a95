-- ===== src/Reader/Source.antt =====
-- internal/reader/bot_source.go: the chunk source over a chunk map. A backend's range download is
-- an argument: what io.Copy reads from the reader that it returns, or its error.
pub mod Size
pub mod Locate
pub mod Stitch
use telegram_s.Base.{
  ℕ, zero, suc, ◌+◌, ◌-◌, ◌*◌, ◌/◌, ◌^◌, min, Bool, true, ◌&&◌, ◌||◌, Option, none, some, List, [],
  ◌++◌, ltb, leb, ◌==◌, if◌then◌else◌, length, take, get_elem?,
}
use telegram_s.Base.Bytes.{Bytes}
use telegram_s.Storage.{Result, ok, err, outside_chunk_map, exhausted, ChunkRef}

pub record ChunkLoc : Type 0 where
  pub ref : ChunkRef
  pub offset : ℕ
  pub size : ℕ

pub record BotSource : Type 0 where
  pub obj_size : ℕ
  pub locs : List ChunkLoc
  pub chunk_size : ℕ

-- for cs > 64<<10 && cs > span*2 && span > 0 { cs >>= 1 }
pub halve : ℕ → ℕ → ℕ → ℕ
halve zero cs span = cs
halve (suc fuel) cs span =
    let next = halve fuel (cs / 2) span in
    if ltb (64 * 2 ^ 10) cs && ltb (span * 2) cs && ltb 0 span then next else cs

abbrev pub configured : ℕ → ℕ
configured cs = if cs == 0 then 2 ^ 22 else cs

-- An int64 is below 2 ^ 63, so it is halved fewer than 63 times.
unfoldable pub chunk_size : BotSource → ℕ → ℕ → ℕ
chunk_size s start end = halve 63 (configured s.chunk_size) (end - start)

-- The loop of sort.Search over [i, j).
pub search_loop : ℕ → (ℕ → Bool) → ℕ → ℕ → ℕ
search_loop zero f i j = i
search_loop (suc fuel) f i j =
    let h = (i + j) / 2 in
    let right = search_loop fuel f (h + 1) j in
    let left = search_loop fuel f i h in if ltb i j then (if f h then left else right) else i

unfoldable pub sort_search : ℕ → (ℕ → Bool) → ℕ
sort_search n f = search_loop n f 0 n

-- s.locs[i].Offset > offset
abbrev pub offset_above : List ChunkLoc → ℕ → ℕ → Bool
offset_above locs offset i = elim (get_elem? locs i) [ none ↦ true | some l ↦ ltb offset l.offset ]

within_loc : ℕ → Option ChunkLoc → Option (ChunkLoc × ℕ)
within_loc offset none = none
within_loc offset (some l) =
    if leb (l.offset + l.size) offset then none else some (l, offset - l.offset)

loc_before : List ChunkLoc → ℕ → ℕ → Option (ChunkLoc × ℕ)
loc_before locs offset zero = none
loc_before locs offset (suc i) = within_loc offset (get_elem? locs i)

unfoldable pub locate : List ChunkLoc → ℕ → Option (ChunkLoc × ℕ)
unfolding within_loc loc_before
locate locs offset = loc_before locs offset (sort_search (length locs) (offset_above locs offset))

abbrev pub Download : Type 0
Download = ChunkRef → ℕ → ℕ → Result Bytes

-- One download within one message, and the rest of the loop on what it brought.
fetched : (ℕ → Bytes → Result Bytes) → ℕ → ℕ → Bytes → Result Bytes → Result Bytes
fetched rest want cur out (err e) = err e
fetched rest want cur out (ok body) =
    let got = take want body in
    let n = length got in
    let more = rest (cur + n) (out ++ got) in if n == 0 || ltb n want then ok (out ++ got) else more

from_loc :
    Download → (ℕ → Bytes → Result Bytes) → ℕ → ℕ → Bytes → Option (ChunkLoc × ℕ) → Result Bytes
from_loc download rest cur end out none = err outside_chunk_map
from_loc download rest cur end out (some (l, local)) =
    let want = min (l.offset + l.size) end - cur in
    fetched rest want cur out (download l.ref local want)

-- for cur < end { ... }; each round but the last reads a byte at least.
pub stitch : ℕ → Download → List ChunkLoc → ℕ → ℕ → Bytes → Result Bytes
unfolding fetched from_loc
stitch zero download locs cur end out = err exhausted
stitch (suc fuel) download locs cur end out =
    let round =
      from_loc download (λ c o. stitch fuel download locs c end o) cur end out (locate locs cur) in
    if ltb cur end then round else ok out

unfoldable pub chunk : Download → BotSource → ℕ → ℕ → Result Bytes
chunk download s offset limit =
    let end = min (offset + limit) s.obj_size in
    let out = stitch (end - offset + 1) download s.locs offset end [] in
    if leb s.obj_size offset then ok [] else out

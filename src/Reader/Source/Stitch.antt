-- ===== src/Reader/Source/Stitch.antt =====
-- `Chunk`: the loop that stitches the ranges of several messages together.
use telegram_s.Base.{
  ℕ, zero, suc, ◌+◌, ◌-◌, ◌≤◌, ◌<◌, min, ◌≡◌, sym, ap, ◌∙◌, ◌≢◌, Bool-cases, inl, inr, Option, none,
  some, List, [], ◌++◌, arith, ltb, leb, length, take, get_elem?, ltb→lt,
}
use telegram_s.Base.Bytes.{Bytes}
use telegram_s.Base.Slices.{slice, slice_join, length-slice, take_all, slice_empty}
use telegram_s.Storage.{Result, ok, err, exhausted, ChunkRef}
use telegram_s.Reader.Source.Locate.{IsContiguous, extent, locate-Located}
use telegram_s.Reader.Source.{
  ChunkLoc, BotSource, Download, fetched, from_loc, locate, stitch, chunk,
}

-- What the backend promises of the messages of one object: each holds its own part of the content,
-- and a download of a range inside it brings just that range.
abbrev pub Serves : Download → Bytes → List ChunkLoc → Type 0
Serves download content locs =
    (i : ℕ) (l : ChunkLoc) (off len : ℕ)
    → get_elem? locs i ≡ some l
    → 0 < len
    → off + len ≤ l.size
    → download l.ref off len ≡ ok (slice (l.offset + off) (l.offset + off + len) content)

module _ (rest : ℕ → Bytes → Result Bytes) where
  -- A download that brings all that was asked for goes on behind it.
  fetched_full :
      (want cur : ℕ) (out body : Bytes)
      → length body ≡ want
      → 0 < want
      → fetched rest want cur out (ok body) ≡ rest (cur + want) (out ++ body)
  unfolding fetched
  fetched_full want cur out body e pos = rw (take_all want body (omega arith)) (rw e (ground arith))

module _ (download : Download) (content : Bytes) (locs : List ChunkLoc)
    (gapless : IsContiguous 0 locs) (whole : extent locs ≡ length content)
    (serves : Serves download content locs) where
  from_some :
      (rest : ℕ → Bytes → Result Bytes) (start cur end : ℕ) (i : ℕ) (l : ChunkLoc)
      → get_elem? locs i ≡ some l
      → l.offset ≤ cur
      → cur < l.offset + l.size
      → start ≤ cur
      → cur < end
      → end ≤ length content
      → from_loc download rest cur end (slice start cur content) (some (l, cur - l.offset))
        ≡ rest (min (l.offset + l.size) end) (slice start (min (l.offset + l.size) end) content)
  unfolding from_loc
  from_some rest start cur end i l e lo hi a b c =
      let want = min (l.offset + l.size) end - cur in
      let back : l.offset + (cur - l.offset) ≡ cur = omega arith in
      let fwd : cur + want ≡ min (l.offset + l.size) end = omega arith in
      ap (fetched rest want cur (slice start cur content)) (
        serves i l (cur - l.offset) want e (omega arith) (omega arith)
        ∙ ap (λ n. ok (slice n (n + want) content)) back)
      ∙ fetched_full rest want cur (slice start cur content) (slice cur (cur + want) content)
          (length-slice cur (cur + want) content (omega arith) ∙ omega arith) (omega arith)
      ∙ ap (rest (cur + want)) (slice_join start cur (cur + want) content a (omega arith))
      ∙ ap (λ n. rest n (slice start n content)) fwd

  from_loc-slice :
      (rest : ℕ → Bytes → Result Bytes) (start cur end : ℕ)
      → start ≤ cur
      → cur < end
      → end ≤ length content
      → (next : ℕ) × (cur < next)
        × (next ≤ end)
        × (from_loc download rest cur end (slice start cur content) (locate locs cur)
            ≡ rest next (slice start next content))
  from_loc-slice rest start cur end a b c =
      let found = locate-Located locs cur gapless (omega arith) in
      let l = found.loc in
      let starts = found.starts in
      let ends = found.ends in
      (
        min (l.offset + l.size) end,
        omega arith,
        omega arith,
        ap (from_loc download rest cur end (slice start cur content)) found.result
            ∙ from_some rest start cur end found.index l found.at_index starts ends a b c,
      )

  stitch-slice :
      (fuel start cur end : ℕ)
      → start ≤ cur
      → cur ≤ end
      → end ≤ length content
      → end - cur < fuel
      → stitch fuel download locs cur end (slice start cur content) ≡ ok (slice start end content)
  unfolding stitch
  stitch-slice zero start cur end a b c f = absurd (omega arith)
  stitch-slice (suc fuel) start cur end a b c f = elim (Bool-cases (ltb cur end)) [
    | inr stop ↦ rw stop (ap (λ n. ok (slice start n content)) (ground arith))
    | inl go ↦
        let (next, lt, le, e) =
          from_loc-slice (λ c o. stitch fuel download locs c end o) start cur end a
            (ltb→lt cur end go) c in
        rw go (e ∙ stitch-slice fuel start next end (omega arith) le c (omega arith))
  ]

  pub chunk-slice :
      (s : BotSource) (offset limit : ℕ)
      → s.locs ≡ locs
      → s.obj_size ≡ length content
      → chunk download s offset limit
        ≡ ok (slice offset (min (offset + limit) (length content)) content)
  unfolding chunk
  chunk-slice s offset limit e n = elim (Bool-cases (leb s.obj_size offset)) [
    | inl past ↦ rw past (ap ok (sym (slice_empty _ _ content (ground arith))))
    | inr inside ↦ rw inside (
        rw (e, n)
          (ap
              (stitch (min (offset + limit) (length content) - offset + 1) download locs offset
                (min (offset + limit) (length content)))
              (sym (slice_empty offset offset content (omega arith)))
            ∙ stitch-slice _ offset offset (min (offset + limit) (length content)) (omega arith)
                (ground arith) (omega arith) (omega arith)))
  ]

fetched-ne-exhausted :
    (rest : ℕ → Bytes → Result Bytes) (want cur : ℕ) (out : Bytes) (r : Result Bytes)
    → r ≢ err exhausted
    → ((n : ℕ) (o : Bytes) → cur < n → rest n o ≢ err exhausted)
    → fetched rest want cur out r ≢ err exhausted
unfolding fetched
fetched-ne-exhausted rest want cur out (err e) h k = h
fetched-ne-exhausted rest want cur out (ok body) h k =
    ground (arith, k (cur + length (take want body)) (out ++ take want body))

-- Whatever the backend does, the loop does not run out of rounds.
module _ (download : Download)
    (answers : (r : ChunkRef) (o l : ℕ) → download r o l ≢ err exhausted) where
  from_loc-ne-exhausted :
      (rest : ℕ → Bytes → Result Bytes) (cur end : ℕ) (out : Bytes) (o : Option (ChunkLoc × ℕ))
      → ((n : ℕ) (o : Bytes) → cur < n → rest n o ≢ err exhausted)
      → from_loc download rest cur end out o ≢ err exhausted
  unfolding from_loc
  from_loc-ne-exhausted rest cur end out none k = λ e. cc
  from_loc-ne-exhausted rest cur end out (some (l, local)) k =
      fetched-ne-exhausted rest _ cur out _ (answers l.ref local _) k

  stitch-ne-exhausted :
      (fuel : ℕ) (locs : List ChunkLoc) (cur end : ℕ) (out : Bytes)
      → end - cur < fuel
      → stitch fuel download locs cur end out ≢ err exhausted
  unfolding stitch
  stitch-ne-exhausted zero locs cur end out f = absurd (omega arith)
  stitch-ne-exhausted (suc fuel) locs cur end out f = elim (Bool-cases (ltb cur end)) [
    | inr stop ↦ rw stop (λ e. cc)
    | inl go ↦ rw go (
        from_loc-ne-exhausted (λ c o. stitch fuel download locs c end o) cur end out
          (locate locs cur) (λ n o lt. stitch-ne-exhausted fuel locs n end o (ground arith)))
  ]

  -- `Chunk` always ends, with bytes or with an error of its own.
  pub chunk-ne-exhausted :
      (s : BotSource) (offset limit : ℕ) → chunk download s offset limit ≢ err exhausted
  unfolding chunk
  chunk-ne-exhausted s offset limit = elim (Bool-cases (leb s.obj_size offset)) [
    | inl past ↦ rw past (λ e. cc)
    | inr inside ↦ rw inside (stitch-ne-exhausted _ s.locs offset _ [] (omega arith))
  ]

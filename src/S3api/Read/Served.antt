-- ===== src/S3api/Read/Served.antt =====
-- A GET serves the content of the object.
use telegram_s.Base.{
  ℕ, ◌+◌, ◌-◌, ◌≤◌, ◌<◌, ◌≡◌, refl, sym, ap, ◌∙◌, inl, inr, Bool, true, false, Bool-cases, Option,
  some, List, [], ◌∷◌, map, arith, leb, if◌then◌else◌, not, ◌&&◌, length, leb→le, elim-some,
}
use telegram_s.Base.Bytes.{Bytes, is_empty}
use telegram_s.Base.Slices.{slice, take_all, slice_empty, length-slice}
use telegram_s.Storage.{Chunk, IsChunkMap, total_size}
use telegram_s.Reader.Source.{BotSource, Download, chunk, chunk_size}
use telegram_s.Reader.Source.Locate.{IsContiguous, extent}
use telegram_s.Reader.Source.Stitch.{Serves, chunk-slice}
use telegram_s.Reader.Buffer.{Status, more, eof, failed, Reader, prime}
use telegram_s.Reader.Buffer.Drain.{Pending, pending, copy-pending}
use telegram_s.Reader.Buffer.Primed.{IsPrimed, prime-IsPrimed}
use telegram_s.Reader.Plan.{open_reader}
use telegram_s.Reader.Plan.Whole.{pending-open_reader}
use telegram_s.Metadata.{Store, Object, get_object, get_object_chunks}
use telegram_s.S3api.Range.{
  HttpRange, RangeResult, not_a_range, unsatisfiable, satisfiable, parse_byte_range,
  parse_byte_range-bounds,
}
use telegram_s.S3api.Conditions.{Headers, conditional_status, if_range_allows}
use telegram_s.S3api.Read.{
  GetResponse, invalid_range, whole, partial, loc_of, copy_buffer, primed, stream_planned,
  stream_object, plan_read, answer_range, answer_object, get_object_handler,
}

-- The chunk map of an object, as the reader's map.
IsContiguous-map :
    (seq start : ℕ) (cs : List Chunk) → IsChunkMap seq start cs → IsContiguous start (map loc_of cs)
IsContiguous-map seq start [] m = tt
IsContiguous-map seq start (c ∷ cs) (n, o, m) =
    (o, IsContiguous-map (seq + 1) (start + c.size) cs m)

extent-map : (cs : List Chunk) → extent (map loc_of cs) ≡ total_size cs
extent-map [] = refl
extent-map (c ∷ cs) = omega (arith, extent-map cs)

primed-copied :
    (write_headers : Bytes → Status → GetResponse) (fuel : ℕ) (p : Pending) (a : Status × Reader)
    (body : Bytes)
    → p ≡ (body, eof)
    → length body < fuel
    → IsPrimed p a
    → primed write_headers fuel a ≡ write_headers body eof
unfolding primed
primed-copied write_headers fuel p (failed e, r) body h lt k = absurd (ground arith)
primed-copied write_headers fuel p (more, r) body h lt k =
    ap (λ (q : Pending). write_headers q.0 q.1)
      (copy-pending fuel copy_buffer r (omega arith) (rw (k ∙ h) lt) ∙ k ∙ h)
primed-copied write_headers fuel p (eof, r) body h lt k =
    ap (λ (q : Pending). write_headers q.0 q.1)
      (copy-pending fuel copy_buffer r (omega arith) (rw (k ∙ h) lt) ∙ k ∙ h)

-- What a range means for the content.
abbrev pub answer : Bytes → RangeResult → GetResponse
answer content unsatisfiable = invalid_range (length content)
answer content not_a_range = whole (length content) content eof
answer content (satisfiable b) = partial b (length content) (slice b.start (b.end + 1) content) eof

-- The range of a request, if it asks for one that applies.
abbrev pub asked : (Bytes → Option ℕ) → Headers → Object → RangeResult
asked parse_time h obj =
    if not (is_empty h.range) && if_range_allows parse_time h obj
    then parse_byte_range h.range obj.size
    else not_a_range

asked-InBounds :
    (parse_time : Bytes → Option ℕ) (h : Headers) (obj : Object) (b : HttpRange)
    → asked parse_time h obj ≡ satisfiable b
    → (b.start ≤ b.end) × (b.end < obj.size)
asked-InBounds parse_time h obj b e =
    used (not (is_empty h.range) && if_range_allows parse_time h obj) e
  where
    used :
        (c : Bool)
        → (if c then parse_byte_range h.range obj.size else not_a_range) ≡ satisfiable b
        → (b.start ≤ b.end) × (b.end < obj.size)
    used true e = parse_byte_range-bounds h.range obj.size b e
    used false e = absurd (ground arith)

module _ (download : Download) (stream_chunk_size : ℕ) (content : Bytes) (obj : Object)
    (chunks : List Chunk) (mapped : IsChunkMap 0 0 chunks)
    (whole_map : total_size chunks ≡ length content) (sized : obj.size ≡ length content)
    (serves : Serves download content (map loc_of chunks)) where
  pub opened :
      (src : BotSource) (start end : ℕ)
      → src.locs ≡ map loc_of chunks
      → src.obj_size ≡ length content
      → start ≤ end
      → end ≤ length content
      → pending (open_reader (chunk download src) (chunk_size src) start end)
        ≡ (slice start end content, eof)
  opened src start end same size range inside =
      pending-open_reader (chunk download src) (chunk_size src) content
        (λ off limit.
          chunk-slice download content (map loc_of chunks) (IsContiguous-map 0 0 chunks mapped)
            (extent-map chunks ∙ whole_map) serves src off limit same size)
        start end range inside

  pub prime-opened :
      (src : BotSource) (start end : ℕ)
      → IsPrimed
          (pending (open_reader (chunk download src) (chunk_size src) start end))
          (prime (open_reader (chunk download src) (chunk_size src) start end))
  unfolding open_reader
  prime-opened src start end = prime-IsPrimed _

  stream_planned-slice :
      (write_headers : Bytes → Status → GetResponse) (start end : ℕ)
      → end ≤ length content
      → stream_planned download stream_chunk_size obj write_headers (map loc_of chunks, start, end)
        ≡ write_headers (slice start end content) eof
  unfolding stream_planned
  stream_planned-slice write_headers start end inside = elim (Bool-cases (leb end start)) [
    | inl empty ↦ rw empty (
        ap (λ b. write_headers b eof)
          (sym (slice_empty start end content (leb→le end start empty))))
    | inr some_bytes ↦ rw some_bytes (
        let src : BotSource = record {
          obj_size = obj.size;
          locs = map loc_of chunks;
          chunk_size = stream_chunk_size;
        } in
        let range : start ≤ end = ground arith in
        primed-copied write_headers (end - start + 1) _ _ (slice start end content)
          (opened src start end refl sized range inside)
          (omega (arith, length-slice start end content inside)) (prime-opened src start end))
  ]

  answer_range-content :
      (r : RangeResult)
      → ((b : HttpRange) → r ≡ satisfiable b → (b.start ≤ b.end) × (b.end < obj.size))
      → answer_range download stream_chunk_size obj chunks r ≡ answer content r
  unfolding answer_range stream_object plan_read
  answer_range-content unsatisfiable h = ap invalid_range sized
  answer_range-content not_a_range h =
      stream_planned-slice (whole obj.size) 0 obj.size (omega arith)
      ∙ ap (λ n. whole n (slice 0 n content) eof) sized
      ∙ ap (λ b. whole (length content) b eof) (take_all (length content - 0) content (omega arith))
  answer_range-content (satisfiable b) h =
      let (first, last) = h b refl in
      stream_planned-slice (partial b obj.size) b.start (b.end + 1) (omega arith)
      ∙ ap (λ n. partial b n (slice b.start (b.end + 1) content) eof) sized

-- A GET of an object whose chunk map covers its content, behind a backend that serves each message,
-- when no precondition stops it: without a range that applies, the client gets the whole content and
-- its length, for a satisfiable range just the bytes of the range, for another one a 416, whatever
-- the buffering of the reader. The body ends with the end of the file, never with an error.
pub get_object_handler-content :
    (download : Download) (stream_chunk_size : ℕ) (parse_time : Bytes → Option ℕ) (h : Headers)
    (bucket key : Bytes) (s : Store) (obj : Object) (content : Bytes)
    → get_object bucket key s ≡ some obj
    → IsChunkMap 0 0 (get_object_chunks bucket key s)
    → total_size (get_object_chunks bucket key s) ≡ length content
    → obj.size ≡ length content
    → Serves download content (map loc_of (get_object_chunks bucket key s))
    → conditional_status parse_time h obj ≡ 0
    → get_object_handler download stream_chunk_size parse_time h bucket key s
      ≡ answer content (asked parse_time h obj)
unfolding get_object_handler answer_object
get_object_handler-content download n parse_time h bucket key s obj content found mapped whole_map
      sized serves go_on =
    elim-some _ _ (get_object bucket key s) found
    ∙ rw go_on (
        answer_range-content download n content obj (get_object_chunks bucket key s) mapped
          whole_map sized serves (asked parse_time h obj) (asked-InBounds parse_time h obj))

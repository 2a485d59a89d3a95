-- ===== src/S3api/Read.antt =====
-- internal/s3api/handler.go: `planRead`, `streamObject` and `getObject`.
pub mod Served
use telegram_s.Base.{
  ℕ, ◌+◌, ◌-◌, ◌*◌, ◌^◌, not, ◌&&◌, Option, none, some, List, [], map, leb, ◌==◌, if◌then◌else◌,
}
use telegram_s.Base.Bytes.{Bytes, is_empty}
use telegram_s.Storage.{Error, Chunk, ref_of}
use telegram_s.Reader.Source.{ChunkLoc, BotSource, Download, chunk, chunk_size}
use telegram_s.Reader.Buffer.{Status, more, eof, failed, Reader, prime, copy}
use telegram_s.Reader.Plan.{open_reader}
use telegram_s.Metadata.{Store, Object, get_object, get_object_chunks}
use telegram_s.S3api.Range.{
  HttpRange, RangeResult, not_a_range, unsatisfiable, satisfiable, parse_byte_range,
}
use telegram_s.S3api.Conditions.{Headers, conditional_status, if_range_allows}

-- The response, without the headers that come from the metadata: its status, what it says of the
-- range and of the length, and the body as the client gets it, with how it ends.
pub data GetResponse : Type 0 where
  no_such_key : GetResponse
  conditional : ℕ → GetResponse
  invalid_range : ℕ → GetResponse
  download_failed : Error → GetResponse
  whole : ℕ → Bytes → Status → GetResponse
  partial : HttpRange → ℕ → Bytes → Status → GetResponse

abbrev pub loc_of : Chunk → ChunkLoc
loc_of c = record { ref = ref_of c; offset = c.offset; size = c.size }

-- The locs, start and end of `planRead`.
unfoldable pub plan_read : Object → List Chunk → Option HttpRange → List ChunkLoc × ℕ × ℕ
plan_read obj chunks none = (map loc_of chunks, 0, obj.size)
plan_read obj chunks (some r) = (map loc_of chunks, r.start, r.end + 1)

-- The buffer of io.Copy.
abbrev pub copy_buffer : ℕ
copy_buffer = 32 * 2 ^ 10

-- A primed reader: a failure is a 502, anything else is copied behind the headers.
primed : (Bytes → Status → GetResponse) → ℕ → Status × Reader → GetResponse
primed write_headers fuel (failed e, r) = download_failed e
primed write_headers fuel (more, r) = let (b, s) = copy fuel copy_buffer r in write_headers b s
primed write_headers fuel (eof, r) = let (b, s) = copy fuel copy_buffer r in write_headers b s

module _ (download : Download) (stream_chunk_size : ℕ) where
  stream_planned : Object → (Bytes → Status → GetResponse) → List ChunkLoc × ℕ × ℕ → GetResponse
  unfolding primed
  stream_planned obj write_headers (locs, start, end) =
      let src : BotSource = record {
        obj_size = obj.size;
        locs = locs;
        chunk_size = stream_chunk_size;
      } in
      if leb end start
      then write_headers [] eof
      else primed write_headers (end - start + 1)
          (prime (open_reader (chunk download src) (chunk_size src) start end))

  -- streamObject
  unfoldable pub stream_object :
      Object → List Chunk → Option HttpRange → (Bytes → Status → GetResponse) → GetResponse
  unfolding stream_planned plan_read
  stream_object obj chunks rng write_headers =
      stream_planned obj write_headers (plan_read obj chunks rng)

  answer_range : Object → List Chunk → RangeResult → GetResponse
  unfolding stream_object
  answer_range obj chunks unsatisfiable = invalid_range obj.size
  answer_range obj chunks not_a_range = stream_object obj chunks none (whole obj.size)
  answer_range obj chunks (satisfiable r) = stream_object obj chunks (some r) (partial r obj.size)

  module _ (parse_time : Bytes → Option ℕ) where
    answer_object : Headers → List Chunk → Object → GetResponse
    unfolding answer_range
    answer_object h chunks obj =
        let st = conditional_status parse_time h obj in
        if not (st == 0)
        then conditional st
        else answer_range obj chunks (
            if not (is_empty h.range) && if_range_allows parse_time h obj
            then parse_byte_range h.range obj.size
            else not_a_range)

    unfoldable pub get_object_handler : Headers → Bytes → Bytes → Store → GetResponse
    unfolding answer_object
    get_object_handler h bucket key s = elim (get_object bucket key s) [
      | none ↦ no_such_key
      | some obj ↦ answer_object h (get_object_chunks bucket key s) obj
    ]

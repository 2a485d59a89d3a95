-- ===== src/Tests/Store.antt =====
-- The metadata store, the listing and the parsers of the handlers.
use telegram_s.Base.{
  ℕ, zero, suc, ◌+◌, ◌<◌, ◌≤◌, ◌≡◌, ◌≢◌, refl, sym, ap, ◌⊎◌, false, Option, none, some, List, [],
  ◌∷◌, map, arith, ◌==◌, if◌then◌else◌, ltb, take, length, any, All,
}
use mathlib.Core.Path.{subst}
use telegram_s.Base.Bytes.{
  Bytes, codes, equal, has_prefix, trim_space, index_byte, split_byte, trim_prefix,
}
use telegram_s.Base.Int.{pos, parse_int}
use telegram_s.Base.Slices.{slice}
use telegram_s.Storage.{ok, Chunk, total_size, IsChunkMap}
use telegram_s.Metadata.{
  Store, Object, empty_store, put_object, stamped, get_object, get_object_chunks,
}
use telegram_s.Metadata.Table.{is_at, order_by}
use telegram_s.Metadata.Bound.{in_prefix_range, in_prefix_range-prefix}
use telegram_s.Metadata.Objects.{view, merged, find_row, put_object-view}
use telegram_s.Metadata.Listing.{ListParams, list_objects_page, query, max_keys_of}
use telegram_s.Metadata.Listing.Rollup.{entries, objects_of, prefixes_of, list_objects_page-entries}
use telegram_s.Reader.Source.{Download, ChunkLoc}
use telegram_s.Reader.Source.Stitch.{Serves}
use telegram_s.S3api.Range.{HttpRange, satisfiable, parse_byte_range, parse_byte_range-bounds}
use telegram_s.S3api.Conditions.{
  Headers, etag_matches, conditional_status, Fails412, Is304, conditional_status-chain,
}
use telegram_s.S3api.Chunked.{decode, parse_size}
use telegram_s.S3api.Chunked.Frames.{Frame, framed, decode-framed, Announces}
use telegram_s.S3api.Read.{loc_of, get_object_handler}
use telegram_s.S3api.Read.Served.{answer, asked, get_object_handler-content}

abbrev object : Bytes → Object
object key = record {
  bucket = codes "b";
  key = key;
  size = 5;
  etag = codes "e";
  content_type = codes "text/plain";
  telegram_file_id = [];
  telegram_message_id = 8;
  created_at = 0;
  updated_at = 0;
  deleted_at = none;
}

abbrev chunk_of : ℕ → ℕ → ℕ → ℕ → Chunk
chunk_of seq id size offset = record {
  seq = seq;
  file_id = [];
  message_id = id;
  size = size;
  offset = offset;
  transport = codes "mtproto";
  bot_index = 0;
}

abbrev chunks : List Chunk
chunks = chunk_of 0 8 3 0 ∷ chunk_of 1 9 2 3 ∷ []

put_object-view_example :
    (s' : Store) × (put_object 4 (object (codes "k")) [] chunks empty_store ≡ ok s')
    × (view (codes "b") (codes "k") s' ≡ (
      some (merged (stamped 4 (object (codes "k"))) (find_row (codes "b") (codes "k") [])),
      chunks,
      [],
    ))
    × ((b k : Bytes)
        → is_at b k (codes "b") (codes "k") ≡ false
        → view b k s' ≡ view b k empty_store)
put_object-view_example =
    put_object-view 4 (object (codes "k")) [] chunks empty_store (refl, refl, (refl, refl, tt))
      (refl, (refl, tt))

abbrev filled : Store
filled = record empty_store {
  objects = object (codes "a/1") ∷ object (codes "c") ∷ object (codes "a/2") ∷ [];
}

abbrev params : ListParams
params = record {
  bucket = codes "b";
  prefix = [];
  delimiter = codes "/";
  after = [];
  max_keys = pos 1;
}

list_objects_page-entries_example :
    ((list_objects_page params filled).objects
      ≡ objects_of (take (max_keys_of (pos 1)) (entries params (query params filled) [])))
    × ((list_objects_page params filled).common_prefixes
        ≡ prefixes_of (take (max_keys_of (pos 1)) (entries params (query params filled) [])))
    × ((list_objects_page params filled).is_truncated
        ≡ ltb (max_keys_of (pos 1)) (length (entries params (query params filled) [])))
list_objects_page-entries_example = list_objects_page-entries params filled

in_prefix_range-prefix_example :
    in_prefix_range (codes "a/") (codes "a/1") ≡ has_prefix (codes "a/") (codes "a/1")
in_prefix_range-prefix_example =
    in_prefix_range-prefix (codes "a/") (codes "a/1")
      (omega arith, (omega arith, (omega arith, tt)))

abbrev some_range : HttpRange
some_range = record { start = 2; end = 9 }

parsed : parse_byte_range (codes "bytes= 2-40") 10 ≡ satisfiable some_range
unfolding parse_byte_range has_prefix trim_space index_byte parse_int
parsed = refl

parse_byte_range-bounds_example : (2 ≤ 9) × (9 < 10)
parse_byte_range-bounds_example = parse_byte_range-bounds (codes "bytes= 2-40") 10 some_range parsed

abbrev headers : Headers
headers = record {
  range = codes "bytes=-2";
  if_range = [];
  if_match = [];
  if_none_match = codes "\"x\"";
  if_modified_since = [];
  if_unmodified_since = [];
}

conditional_status-chain_example :
    ((conditional_status (λ s. none) headers (object []) ≡ 412)
      × Fails412 (λ s. none) headers (object []))
    ⊎ ((conditional_status (λ s. none) headers (object []) ≡ 304)
        × ¬ (Fails412 (λ s. none) headers (object []))
        × Is304 (λ s. none) headers (object []))
    ⊎ ((conditional_status (λ s. none) headers (object []) ≡ 0)
        × ¬ (Fails412 (λ s. none) headers (object []))
        × ¬ (Is304 (λ s. none) headers (object [])))
conditional_status-chain_example = conditional_status-chain (λ s. none) headers (object [])

abbrev frame : Frame
frame = record { line = codes "5;x=1\r"; content = codes "hello" }

clean : (line : Bytes) → any (λ c. c == 10) line ≡ false → All (λ c. c ≢ 10) line
clean [] h = tt
clean (c ∷ line) h = (λ e. ground arith, clean line (ground arith))

frame-Announces : Announces frame.line 5
unfolding parse_size parse_int trim_space index_byte
frame-Announces = (clean frame.line refl, omega arith, refl)

last-Announces : Announces (codes "0\r") 0
unfolding parse_size parse_int trim_space index_byte
last-Announces = (clean (codes "0\r") refl, omega arith, refl)

decode-framed_example :
    decode (record { bytes = framed (frame ∷ []) (codes "0\r") (codes "\r\n"); error = none })
    ≡ record { bytes = codes "hello"; error = none }
decode-framed_example =
    decode-framed (frame ∷ []) (codes "0\r") (codes "\r\n") none (omega arith, frame-Announces, tt)
      last-Announces

-- The store behind a PUT of "abcde" in two messages.
abbrev stored : Store
stored = record empty_store {
  objects = object (codes "k") ∷ [];
  object_chunks =
      record { bucket = codes "b"; key = codes "k"; chunk = chunk_of 0 8 3 0 }
      ∷ record { bucket = codes "b"; key = codes "k"; chunk = chunk_of 1 9 2 3 }
      ∷ [];
}

stored_object : get_object (codes "b") (codes "k") stored ≡ some (object (codes "k"))
unfolding get_object is_at equal
stored_object = refl

stored_chunks : get_object_chunks (codes "b") (codes "k") stored ≡ chunks
unfolding get_object_chunks is_at equal order_by
stored_chunks = refl

abbrev content : Bytes
content = codes "abcde"

abbrev download : Download
download r off len =
    if r.message_id == 8
    then ok (slice (0 + off) (0 + off + len) content)
    else ok (slice (3 + off) (3 + off + len) content)

abbrev or_else : Option ChunkLoc → ChunkLoc → ChunkLoc
or_else none l = l
or_else (some m) l = m

serves : Serves download content (map loc_of chunks)
serves zero l off len e nonempty fits =
    let first : loc_of (chunk_of 0 8 3 0) ≡ l = ap (λ x. or_else x l) e in
    subst (λ m. download m.ref off len ≡ ok (slice (m.offset + off) (m.offset + off + len) content))
      first refl
serves (suc zero) l off len e nonempty fits =
    let second : loc_of (chunk_of 1 9 2 3) ≡ l = ap (λ x. or_else x l) e in
    subst (λ m. download m.ref off len ≡ ok (slice (m.offset + off) (m.offset + off + len) content))
      second refl
serves (suc (suc i)) l off len e nonempty fits = absurd (ground arith)

goes_on : conditional_status (λ s. none) headers (object (codes "k")) ≡ 0
unfolding conditional_status etag_matches split_byte equal trim_space trim_prefix
goes_on = refl

get_object_handler-content_example :
    get_object_handler download 2 (λ s. none) headers (codes "b") (codes "k") stored
    ≡ answer content (asked (λ s. none) headers (object (codes "k")))
get_object_handler-content_example =
    get_object_handler-content download 2 (λ s. none) headers (codes "b") (codes "k") stored
      (object (codes "k")) content stored_object
      (subst (IsChunkMap 0 0) (sym stored_chunks) (refl, refl, (refl, refl, tt)))
      (ap total_size stored_chunks) refl
      (subst (λ cs. Serves download content (map loc_of cs)) (sym stored_chunks) serves) goes_on

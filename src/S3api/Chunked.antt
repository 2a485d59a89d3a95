-- ===== src/S3api/Chunked.antt =====
-- internal/s3api/chunked.go: the reader that takes the frames off an `aws-chunked` body. `decode` is
-- what a loop of `Read` until an error or the end brings, whatever the slices it reads into.
pub mod Frames
use telegram_s.Base.{
  ℕ, zero, suc, ◌+◌, ◌-◌, Bool, true, false, ◌||◌, ◌&&◌, Option, none, some, [], ◌∷◌, ◌++◌, map,
  leb, ltb, ◌==◌, if◌then◌else◌, length, take, drop, reverse,
}
use telegram_s.Base.Bytes.{
  Bytes, codes, index_byte, index, has_prefix, trim_space, trim_left, to_lower,
}
use telegram_s.Base.Int.{pos, negsuc, parse_int}
use telegram_s.Storage.{Error, malformed_chunked, exhausted, Result, ok, err}
use telegram_s.Mtproto.Split.{Body}

-- isAWSChunked, from the two headers
unfoldable pub is_aws_chunked : Bytes → Bytes → Bool
is_aws_chunked content_encoding content_sha256 =
    elim (index (codes "aws-chunked") (map to_lower content_encoding)) [
      | none ↦ false
      | some i ↦ true
    ]
    || has_prefix (codes "STREAMING-") content_sha256

-- The error of a stream that ends too early: the end of the file is malformed framing.
abbrev pub ended : Option Error → Error
ended none = malformed_chunked
ended (some e) = e

-- The size of bufio's buffer.
abbrev pub buffer_size : ℕ
buffer_size = 4096

-- strings.TrimRight(line, "\r\n")
abbrev pub trim_right : Bytes → Bytes
trim_right line = reverse (trim_left (λ c. c == 13 || c == 10) (reverse line))

-- readLine: up to the first '\n', which has to be in the buffer.
unfoldable pub read_line : Body → Result (Bytes × Body)
read_line br = elim (index_byte 10 (take buffer_size br.bytes)) [
  | some i ↦ ok (trim_right (take (i + 1) br.bytes), record br { bytes = drop (i + 1) br.bytes })
  | none ↦ if leb buffer_size (length br.bytes) then err malformed_chunked else err (ended br.error)
]

abbrev pub before_semicolon : Bytes → Bytes
before_semicolon line = elim (index_byte b';' line) [ none ↦ line | some i ↦ take i line ]

unfoldable pub parse_size : Bytes → Result ℕ
parse_size line = elim (parse_int 16 (trim_space (before_semicolon line))) [
  | none ↦ err malformed_chunked
  | some z ↦ elim z [ pos n ↦ ok n | negsuc n ↦ err malformed_chunked ]
]

sized : Body → Result ℕ → Result (ℕ × Body)
sized rest (err e) = err e
sized rest (ok n) = ok (n, rest)

sized_line : Result (Bytes × Body) → Result (ℕ × Body)
unfolding sized
sized_line (err e) = err e
sized_line (ok (line, rest)) = sized rest (parse_size line)

unfoldable pub read_chunk_size : Body → Result (ℕ × Body)
unfolding sized_line read_line
read_chunk_size br = sized_line (read_line br)

-- consumeCRLF: the stream behind the terminator.
unfoldable pub consume_crlf : Bytes → Option Error → Result Bytes
consume_crlf [] e = err (ended e)
consume_crlf (a ∷ []) e = err (ended e)
consume_crlf (a ∷ b ∷ rest) e = if a == 13 && b == 10 then ok rest else err malformed_chunked

-- What a frame brings before the next ones do.
with_frame : (Body → Body) → Bytes → Option Error → Result Bytes → Body
with_frame next bytes e (err x) = record { bytes = bytes; error = some x }
with_frame next bytes e (ok rest) =
    let tail = next (record { bytes = rest; error = e }) in
    record { bytes = bytes ++ tail.bytes; error = tail.error }

read_frame : (Body → Body) → Result (ℕ × Body) → Body
unfolding with_frame consume_crlf
read_frame next (err e) = record { bytes = []; error = some e }
read_frame next (ok (zero, br)) = record { bytes = []; error = none }
read_frame next (ok (suc n, br)) =
    if ltb (length br.bytes) (suc n)
    then record { bytes = br.bytes; error = some (ended br.error) }
    else with_frame next (take (suc n) br.bytes) br.error
        (consume_crlf (drop (suc n) br.bytes) br.error)

unfoldable pub decode_rounds : ℕ → Body → Body
unfolding read_frame read_chunk_size
decode_rounds zero br = record { bytes = []; error = some exhausted }
decode_rounds (suc fuel) br = read_frame (decode_rounds fuel) (read_chunk_size br)

-- Each frame takes at least the '\n' of its first line.
unfoldable pub decode : Body → Body
unfolding decode_rounds
decode br = decode_rounds (length br.bytes + 1) br

-- ===== src/S3api/Assembly.antt =====
-- internal/s3api/multipart.go: the answers of the handlers, and the loop of `completeMultipartUpload`
-- over the listed parts.
use telegram_s.Base.{
  ◌>>=◌, ℕ, zero, suc, ◌+◌, ◌*◌, not, ◌&&◌, ◌⊎◌, inl, inr, Option, none, some, List, [], ◌∷◌, ◌++◌,
  leb, ltb, ◌==◌, if◌then◌else◌, length, reverse, filter,
}
use telegram_s.Base.Bytes.{Bytes, equal_fold, trim_left}
use telegram_s.Base.Int.{ℤ, pos, negsuc}
use telegram_s.S3api.Uri.{hex_digit}
use telegram_s.Storage.{Chunk}
use telegram_s.Metadata.{Store, MultipartPart, first}
use telegram_s.Metadata.Multipart.{get_multipart_part_chunks}
use telegram_s.S3api.Write.{PutResponse}

-- `put_answer` holds the answers that a PutObject gives too.
pub data MultipartResponse : Type 0 where
  put_answer : PutResponse → MultipartResponse
  no_such_upload : MultipartResponse
  malformed_xml : MultipartResponse
  invalid_part_order : MultipartResponse
  invalid_part : MultipartResponse
  entity_too_small : MultipartResponse
  corrupt_part_etag : MultipartResponse
  completed : Bytes → MultipartResponse
  initiated : Bytes → MultipartResponse
  listed : List MultipartPart → MultipartResponse
  no_content : MultipartResponse

pub record CompletePart : Type 0 where
  pub part_number : ℤ
  pub etag : Bytes

abbrev pub min_part_size : ℕ
min_part_size = 5 * 1024 * 1024

-- hex.DecodeString
unfoldable pub hex_decode : Bytes → Option Bytes
unfolding hex_digit
hex_decode [] = some []
hex_decode (x ∷ []) = none
hex_decode (x ∷ y ∷ text) = do
  high ← hex_digit x
  low ← hex_digit y
  rest ← hex_decode text
  some ((high * 16 + low) ∷ rest)

-- strings.Trim(tag, `"`)
abbrev pub trim_quotes : Bytes → Bytes
trim_quotes tag = reverse (trim_left (λ c. c == b'"') (reverse (trim_left (λ c. c == b'"') tag)))

-- %d: the digits from the last one on, and the number after it.
abbrev pub next_number : Bytes → Bytes
next_number [] = b'1' ∷ []
next_number (d ∷ ds) = let rest = next_number ds in if d == b'9' then b'0' ∷ rest else (d + 1) ∷ ds

abbrev pub decimal_digits : ℕ → Bytes
decimal_digits zero = b'0' ∷ []
decimal_digits (suc n) = next_number (decimal_digits n)

-- The variables of the loop over the listed parts.
pub record Assembly : Type 0 where
  pub final_chunks : List Chunk
  pub md5_concat : Bytes
  pub total_size : ℕ
  pub seq : ℕ
  pub prev_part : ℕ

-- The inner loop: the chunks of one part go behind those before.
unfoldable pub append_chunks : List Chunk → Assembly → Assembly
append_chunks [] a = a
append_chunks (c ∷ cs) a = append_chunks cs (record a {
  final_chunks = a.final_chunks ++ record c { seq = a.seq; offset = a.total_size } ∷ [];
  seq = a.seq + 1;
  total_size = a.total_size + c.size;
})

abbrev pub find_part : ℕ → List MultipartPart → Option MultipartPart
find_part n stored = first (filter (λ p. p.part_number == n) stored)

-- The rest of one turn, from the decoded tag on.
unfoldable pub accept_part :
    Bytes → Store → ℕ → Assembly → Option Bytes → MultipartResponse ⊎ Assembly
accept_part upload_id s n a none = inl corrupt_part_etag
accept_part upload_id s n a (some raw) = inr (
    append_chunks (get_multipart_part_chunks upload_id n s)
      (record a { md5_concat = a.md5_concat ++ raw; prev_part = n }))

-- The rest of one turn, from the row of the part on.
unfoldable pub check_part :
    Bytes
    → Store
    → ℕ
    → Bytes
    → List CompletePart
    → Assembly
    → Option MultipartPart
    → MultipartResponse ⊎ Assembly
unfolding accept_part hex_decode
check_part upload_id s n etag rest a none = inl invalid_part
check_part upload_id s n etag rest a (some sp) =
    if not (equal_fold (trim_quotes etag) sp.etag)
    then inl invalid_part
    else if not (leb (length rest) 0) && ltb sp.size min_part_size
    then inl entity_too_small
    else accept_part upload_id s n a (hex_decode sp.etag)

-- One turn of the loop, `rest` being the parts that follow. Stored parts have distinct numbers.
unfoldable pub take_part :
    Bytes
    → Store
    → List MultipartPart
    → CompletePart
    → List CompletePart
    → Assembly
    → MultipartResponse ⊎ Assembly
unfolding check_part
take_part upload_id s stored cp rest a = elim cp.part_number [
  | negsuc n ↦ inl invalid_part_order
  | pos n ↦
      if leb n a.prev_part
      then inl invalid_part_order
      else check_part upload_id s n cp.etag rest a (find_part n stored)
]

unfoldable pub assemble :
    Bytes → Store → List MultipartPart → List CompletePart → Assembly → MultipartResponse ⊎ Assembly
unfolding take_part
assemble upload_id s stored [] a = inr a
assemble upload_id s stored (cp ∷ cps) a = elim (take_part upload_id s stored cp cps a) [
  | inl response ↦ inl response
  | inr a' ↦ assemble upload_id s stored cps a'
]

abbrev pub start_assembly : Assembly
start_assembly = record {
  final_chunks = [];
  md5_concat = [];
  total_size = 0;
  seq = 0;
  prev_part = 0;
}

-- ===== src/S3api/Multipart/Loop.antt =====
-- internal/s3api/multipart.go: the invariant rule of the loop of `completeMultipartUpload`.
use mathlib.Core.Path.{subst}
use telegram_s.Base.{
  ℕ, ◌<◌, ◌≡◌, refl, sym, Bool, true, false, ◌⊎◌, inl, inr, List, [], ◌∷◌, ◌++◌, arith, leb,
  if◌then◌else◌,
}
use telegram_s.Base.Bytes.{Bytes}
use telegram_s.Base.Int.{ℤ, pos, negsuc}
use telegram_s.Metadata.{Store, MultipartPart}
use telegram_s.Metadata.Multipart.{get_multipart_part_chunks}
use telegram_s.S3api.Assembly.{
  MultipartResponse, invalid_part_order, CompletePart, Assembly, append_chunks, take_part,
  find_part, assemble,
}
use telegram_s.S3api.Multipart.Assembled.{else-inr, unpaired, check_part-Passes}

passed_test :
    (b : Bool) (response : MultipartResponse) (y : MultipartResponse ⊎ Assembly) (a : Assembly)
    → (if b then inl response else y) ≡ inr a
    → b ≡ false
passed_test true response y a h = absurd (ground arith)
passed_test false response y a h = refl

-- What every turn keeps, each being for a part behind those before it.
module _ (upload_id : Bytes) (s : Store) (stored : List MultipartPart) (P : Assembly → Type 0)
    (keep : (n : ℕ) (raw : Bytes) (a : Assembly)
      → a.prev_part < n
      → P a
      → P (
          append_chunks
            (get_multipart_part_chunks upload_id n s)
            (record a { md5_concat = a.md5_concat ++ raw; prev_part = n }))) where
  turn_inv :
      (number : ℤ) (etag : Bytes) (rest : List CompletePart) (a a' : Assembly)
      → P a
      → take_part upload_id s stored (record { part_number = number; etag = etag }) rest a ≡ inr a'
      → P a'
  unfolding take_part
  turn_inv (negsuc n) etag rest a a' good h = absurd (ground arith)
  turn_inv (pos n) etag rest a a' good h =
      let later = passed_test (leb n a.prev_part) invalid_part_order _ a' h in
      let (raw, e) =
        check_part-Passes upload_id s n etag rest a a' (find_part n stored)
          (else-inr (leb n a.prev_part) invalid_part_order _ a' h) in
      subst P (sym e) (keep n raw a (ground arith) good)

  pub assemble_inv :
      (cps : List CompletePart) (a a' : Assembly)
      → P a
      → assemble upload_id s stored cps a ≡ inr a'
      → P a'
  unfolding assemble
  assemble_inv [] a a' good h = (let same : a ≡ a' = cc in subst P same good)
  assemble_inv (cp ∷ cps) a a' good h =
      let (a1, first, later) = unpaired _ (assemble upload_id s stored cps) a' h in
      assemble_inv cps a1 a' (turn_inv cp.part_number cp.etag cps a a1 good first) later

-- ===== src/S3api/Multipart/Refusal.antt =====
-- internal/s3api/multipart.go: the answers with which the loop over the listed parts stops.
use telegram_s.Base.{
  ℕ, ◌≡◌, refl, inl, inr, Bool, true, false, ◌&&◌, not, ◌⊎◌, Option, none, some, List, [], ◌∷◌, ltb,
  leb, if◌then◌else◌, length,
}
use telegram_s.Base.Bytes.{equal_fold, Bytes}
use telegram_s.Base.Int.{ℤ, pos, negsuc}
use telegram_s.Metadata.{Store, MultipartPart}
use telegram_s.S3api.Assembly.{
  MultipartResponse, completed, entity_too_small, invalid_part, invalid_part_order, CompletePart,
  Assembly, accept_part, check_part, take_part, find_part, trim_quotes, min_part_size, hex_decode,
  assemble,
}

abbrev pub is_completed : MultipartResponse → Bool
is_completed (completed etag) = true
is_completed _ = false

-- An answer of the loop is none of success.
abbrev pub IsRefusal : MultipartResponse ⊎ Assembly → Type 0
IsRefusal (inl response) = is_completed response ≡ false
IsRefusal (inr a) = Unit

else-IsRefusal :
    (b : Bool) (response : MultipartResponse) (y : MultipartResponse ⊎ Assembly)
    → is_completed response ≡ false
    → IsRefusal y
    → IsRefusal (if b then inl response else y)
else-IsRefusal true response y h hs = h
else-IsRefusal false response y h hs = hs

next-IsRefusal :
    (x : MultipartResponse ⊎ Assembly) (f : Assembly → MultipartResponse ⊎ Assembly)
    → IsRefusal x
    → ((a : Assembly) → IsRefusal (f a))
    → IsRefusal (elim x [ inl response ↦ inl response | inr a ↦ f a ])
next-IsRefusal (inl response) f h hs = h
next-IsRefusal (inr a) f h hs = hs a

module _ (upload_id : Bytes) (s : Store) where
  accept_part-IsRefusal :
      (n : ℕ) (a : Assembly) (raw : Option Bytes) → IsRefusal (accept_part upload_id s n a raw)
  unfolding accept_part
  accept_part-IsRefusal n a none = refl
  accept_part-IsRefusal n a (some raw) = tt

  check_part-IsRefusal :
      (n : ℕ) (etag : Bytes) (rest : List CompletePart) (a : Assembly)
      (found : Option MultipartPart)
      → IsRefusal (check_part upload_id s n etag rest a found)
  unfolding check_part
  check_part-IsRefusal n etag rest a none = refl
  check_part-IsRefusal n etag rest a (some sp) =
      else-IsRefusal (not (equal_fold (trim_quotes etag) sp.etag)) invalid_part _ refl (
        else-IsRefusal (not (leb (length rest) 0) && ltb sp.size min_part_size) entity_too_small _
          refl (accept_part-IsRefusal n a (hex_decode sp.etag)))

  take_part-IsRefusal :
      (stored : List MultipartPart) (number : ℤ) (etag : Bytes) (rest : List CompletePart)
      (a : Assembly)
      → IsRefusal
          (take_part upload_id s stored (record { part_number = number; etag = etag }) rest a)
  unfolding take_part
  take_part-IsRefusal stored (negsuc n) etag rest a = refl
  take_part-IsRefusal stored (pos n) etag rest a =
      else-IsRefusal (leb n a.prev_part) invalid_part_order _ refl
        (check_part-IsRefusal n etag rest a (find_part n stored))

  pub assemble-IsRefusal :
      (stored : List MultipartPart) (cps : List CompletePart) (a : Assembly)
      → IsRefusal (assemble upload_id s stored cps a)
  unfolding assemble
  assemble-IsRefusal stored [] a = tt
  assemble-IsRefusal stored (cp ∷ cps) a =
      next-IsRefusal (take_part upload_id s stored cp cps a) (assemble upload_id s stored cps)
        (take_part-IsRefusal stored cp.part_number cp.etag cps a) (assemble-IsRefusal stored cps)

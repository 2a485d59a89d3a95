-- ===== src/S3api/Conditions.antt =====
-- internal/s3api: `etagMatches` and `conditionalStatus` of objectmeta.go, and `ifRangeAllows` of
-- handler.go. `parse_time` is net/http's ParseTime, in seconds; a missing header is the empty text.
-- Times of objects are nanoseconds.
use telegram_s.Base.{
  ℕ, ◌/◌, ◌^◌, ◌≡◌, ◌⊎◌, Bool, true, false, not, ◌||◌, Option, none, some, arith, ltb, ◌==◌, any,
  if◌then◌else◌,
}
use telegram_s.Base.Bytes.{
  Bytes, codes, equal, has_prefix, is_empty, trim_space, trim, trim_prefix, split_byte,
}
use telegram_s.Metadata.{Object}

-- A request's headers, by the names that the handlers ask for.
pub record Headers : Type 0 where
  pub range : Bytes
  pub if_range : Bytes
  pub if_match : Bytes
  pub if_none_match : Bytes
  pub if_modified_since : Bytes
  pub if_unmodified_since : Bytes

-- strings.Trim(s, `"`)
abbrev unquoted : Bytes → Bytes
unquoted s = trim (λ c. c == b'"') s

token_matches : Bytes → Bytes → Bool
token_matches etag tok =
    equal tok (codes "*") || equal (unquoted (trim_prefix tok (codes "W/"))) etag

unfoldable pub etag_matches : Bytes → Bytes → Bool
unfolding token_matches
etag_matches header_val etag =
    any (λ tok. token_matches etag (trim_space tok)) (split_byte b',' header_val)

-- The last modification in whole seconds.
abbrev pub last_mod : Object → ℕ
last_mod obj = obj.updated_at / 10 ^ 9

pub modified_after : Object → Option ℕ → Bool
modified_after obj none = false
modified_after obj (some t) = ltb t (last_mod obj)

pub not_modified_after : Object → Option ℕ → Bool
not_modified_after obj none = false
not_modified_after obj (some t) = not (ltb t (last_mod obj))

module _ (parse_time : Bytes → Option ℕ) where
  -- The second half of the chain.
  modified_status : Headers → Object → ℕ
  unfolding not_modified_after
  modified_status h obj =
      if not (is_empty h.if_none_match)
      then (if etag_matches h.if_none_match obj.etag then 304 else 0)
      else if not (is_empty h.if_modified_since)
      then (if not_modified_after obj (parse_time h.if_modified_since) then 304 else 0)
      else 0

  -- 412, 304, or 0 to go on.
  unfoldable pub conditional_status : Headers → Object → ℕ
  unfolding modified_status modified_after
  conditional_status h obj =
      if not (is_empty h.if_match)
      then (if etag_matches h.if_match obj.etag then modified_status h obj else 412)
      else if not (is_empty h.if_unmodified_since)
      then (if modified_after obj (parse_time h.if_unmodified_since)
          then 412
          else modified_status h obj)
      else modified_status h obj

  unfoldable pub if_range_allows : Headers → Object → Bool
  unfolding not_modified_after
  if_range_allows h obj =
      let ir = trim_space h.if_range in
      if is_empty ir
      then true
      else if has_prefix (codes "\"") ir || has_prefix (codes "W/") ir
      then equal (unquoted (trim_prefix ir (codes "W/"))) obj.etag
      else not_modified_after obj (parse_time ir)

  -- What the four headers ask, as statements of the object.
  abbrev pub Fails412 : Headers → Object → Type 0
  Fails412 h obj =
      ((is_empty h.if_match ≡ false) × (etag_matches h.if_match obj.etag ≡ false))
      ⊎ ((is_empty h.if_match ≡ true)
          × (is_empty h.if_unmodified_since ≡ false)
          × (modified_after obj (parse_time h.if_unmodified_since) ≡ true))

  abbrev pub Is304 : Headers → Object → Type 0
  Is304 h obj =
      ((is_empty h.if_none_match ≡ false) × (etag_matches h.if_none_match obj.etag ≡ true))
      ⊎ ((is_empty h.if_none_match ≡ true)
          × (is_empty h.if_modified_since ≡ false)
          × (not_modified_after obj (parse_time h.if_modified_since) ≡ true))

  -- The preconditions are answered in the order of RFC 7232: 412 exactly when If-Match names no tag
  -- of the object or, without If-Match, the object changed after If-Unmodified-Since; else 304
  -- exactly when If-None-Match names its tag or, without it, the object has not changed after
  -- If-Modified-Since; else the request goes on.
  pub conditional_status-chain :
      (h : Headers) (obj : Object)
      → ((conditional_status h obj ≡ 412) × Fails412 h obj)
        ⊎ ((conditional_status h obj ≡ 304) × ¬ (Fails412 h obj) × Is304 h obj)
        ⊎ ((conditional_status h obj ≡ 0) × ¬ (Fails412 h obj) × ¬ (Is304 h obj))
  unfolding conditional_status modified_status
  conditional_status-chain h obj = ground arith

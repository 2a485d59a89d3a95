-- ===== src/S3api/Range.antt =====
-- internal/s3api/handler.go: `httpRange` and `parseByteRange`.
use telegram_s.Base.{
  ℕ, zero, suc, ◌+◌, ◌-◌, ◌≤◌, ◌<◌, ◌≡◌, ◌⊎◌, Bool, true, false, ◌||◌, Option, none, some, arith,
  ltb, leb, ◌==◌, if◌then◌else◌, take, drop,
}
use mathlib.Core.Path.{subst}
use telegram_s.Base.Bytes.{Bytes, codes, has_prefix, trim_space, is_empty, index_byte}
use telegram_s.Base.Int.{ℤ, pos, negsuc, parse_int}

-- An inclusive range.
pub record HttpRange : Type 0 where
  pub start : ℕ
  pub end : ℕ

abbrev pub range_length : HttpRange → ℕ
range_length r = r.end - r.start + 1

-- The three answers of `parseByteRange`: isRange = false, satisfiable = false, and a range.
pub data RangeResult : Type 0 where
  not_a_range : RangeResult
  unsatisfiable : RangeResult
  satisfiable : HttpRange → RangeResult

-- bytes=-N
suffix_range : Option ℤ → ℕ → RangeResult
suffix_range none size = not_a_range
suffix_range (some (negsuc n)) size = not_a_range
suffix_range (some (pos zero)) size = not_a_range
suffix_range (some (pos (suc n))) size =
    if size == 0
    then unsatisfiable
    else let m = if ltb size (suc n) then size else suc n in
      satisfiable (record { start = size - m; end = size - 1 })

-- start and end are known; `end` is -1 where the size is 0 and no end is given.
clip : ℕ → ℕ → ℕ → RangeResult
clip start end size =
    if size == 0 || leb size start
    then unsatisfiable
    else satisfiable (record { start = start; end = if leb size end then size - 1 else end })

end_given : ℕ → Option ℤ → ℕ → RangeResult
unfolding clip
end_given start none size = not_a_range
end_given start (some (negsuc n)) size = not_a_range
end_given start (some (pos n)) size = if ltb n start then not_a_range else clip start n size

from_start : Option ℤ → Bytes → ℕ → RangeResult
unfolding end_given
from_start none end_str size = not_a_range
from_start (some (negsuc n)) end_str size = not_a_range
from_start (some (pos start)) end_str size =
    if is_empty end_str
    then clip start (size - 1) size
    else end_given start (parse_int 10 end_str) size

at_dash : Option ℕ → Bytes → ℕ → RangeResult
unfolding from_start suffix_range
at_dash none spec size = not_a_range
at_dash (some dash) spec size =
    let start_str = trim_space (take dash spec) in
    let end_str = trim_space (drop (dash + 1) spec) in
    if is_empty start_str
    then suffix_range (parse_int 10 end_str) size
    else from_start (parse_int 10 start_str) end_str size

-- strings.Contains(spec, ",")
abbrev has_comma : Bytes → Bool
has_comma spec = elim (index_byte b',' spec) [ none ↦ false | some i ↦ true ]

unfoldable pub parse_byte_range : Bytes → ℕ → RangeResult
unfolding at_dash
parse_byte_range s size =
    let spec = trim_space (drop 6 s) in
    if has_prefix (codes "bytes=") s
    then (if is_empty spec || has_comma spec
        then not_a_range
        else at_dash (index_byte b'-' spec) spec size)
    else not_a_range

abbrev InBounds : ℕ → RangeResult → Type 0
InBounds size not_a_range = Unit
InBounds size unsatisfiable = Unit
InBounds size (satisfiable r) = (r.start ≤ r.end) × (r.end < size)

InBounds-if :
    (size : ℕ) (b : Bool) (x y : RangeResult)
    → InBounds size x
    → InBounds size y
    → InBounds size (if b then x else y)
InBounds-if size true x y h k = h
InBounds-if size false x y h k = k

suffix_range-InBounds : (o : Option ℤ) (size : ℕ) → InBounds size (suffix_range o size)
unfolding suffix_range
suffix_range-InBounds none size = tt
suffix_range-InBounds (some (negsuc n)) size = tt
suffix_range-InBounds (some (pos zero)) size = tt
suffix_range-InBounds (some (pos (suc n))) size = ground arith

clip-InBounds :
    (start end size : ℕ)
    → (0 < size → start ≤ end ⊎ (size ≤ start))
    → InBounds size (clip start end size)
unfolding clip
clip-InBounds start end size h = ground arith

end_given-InBounds : (start size : ℕ) (o : Option ℤ) → InBounds size (end_given start o size)
unfolding end_given
end_given-InBounds start size none = tt
end_given-InBounds start size (some (negsuc n)) = tt
end_given-InBounds start size (some (pos n)) = ground (arith, clip-InBounds start n size)

from_start-InBounds :
    (o : Option ℤ) (end_str : Bytes) (size : ℕ) → InBounds size (from_start o end_str size)
unfolding from_start
from_start-InBounds none end_str size = tt
from_start-InBounds (some (negsuc n)) end_str size = tt
from_start-InBounds (some (pos start)) end_str size =
    InBounds-if size (is_empty end_str) (clip start (size - 1) size)
      (end_given start (parse_int 10 end_str) size)
      (clip-InBounds start (size - 1) size (λ h. ground arith))
      (end_given-InBounds start size (parse_int 10 end_str))

at_dash-InBounds : (o : Option ℕ) (spec : Bytes) (size : ℕ) → InBounds size (at_dash o spec size)
unfolding at_dash
at_dash-InBounds none spec size = tt
at_dash-InBounds (some dash) spec size =
    InBounds-if size (is_empty (trim_space (take dash spec))) _ _
      (suffix_range-InBounds (parse_int 10 (trim_space (drop (dash + 1) spec))) size)
      (from_start-InBounds (parse_int 10 (trim_space (take dash spec)))
        (trim_space (drop (dash + 1) spec)) size)

-- Whatever the header says, a range that is answered with 206 lies inside the object: its first byte
-- is not behind its last, and its last is before the end of the object.
pub parse_byte_range-bounds :
    (s : Bytes) (size : ℕ) (r : HttpRange)
    → parse_byte_range s size ≡ satisfiable r
    → (r.start ≤ r.end) × (r.end < size)
unfolding parse_byte_range
parse_byte_range-bounds s size r h =
    let spec = trim_space (drop 6 s) in
    subst (InBounds size) h (
      InBounds-if size (has_prefix (codes "bytes=") s) _ not_a_range
        (InBounds-if size (is_empty spec || has_comma spec) not_a_range _ tt
          (at_dash-InBounds (index_byte b'-' spec) spec size))
        tt)

-- ===== src/Base/Int.antt =====
-- Signed integers over the native numbers, and strconv.ParseInt.
use telegram_s.Base.{
  ℕ, ◌+◌, ◌-◌, ◌*◌, ◌^◌, ◌≤◌, ◌≡◌, Bool, true, false, ◌&&◌, Option, none, some, [], ◌∷◌, arith, ltb,
  leb, ◌==◌, if◌then◌else◌,
}
use telegram_s.Base.Bytes.{Bytes}

-- `negsuc n` is -(n + 1).
pub data ℤ : Type 0 where
  pos : ℕ → ℤ
  negsuc : ℕ → ℤ

-- math.MaxInt64
abbrev pub max_int64 : ℕ
max_int64 = 2 ^ 63 - 1

-- The value of one digit; letters of both cases are digits from 10 on.
unfoldable pub digit_value : ℕ → Option ℕ
digit_value c =
    if leb b'0' c && leb c b'9'
    then some (c - b'0')
    else if leb b'a' c && leb c b'z'
    then some (c - b'a' + 10)
    else if leb b'A' c && leb c b'Z'
    then some (c - b'A' + 10)
    else none

-- The digits of `s` in base `base`, on top of `acc`; `none` at a byte that is no digit.
unfoldable pub parse_digits : ℕ → ℕ → Bytes → Option ℕ
unfolding digit_value
parse_digits base acc [] = some acc
parse_digits base acc (c ∷ s) = elim (digit_value c) [
  | none ↦ none
  | some d ↦ elim (ltb d base) [ true ↦ parse_digits base (acc * base + d) s | false ↦ none ]
]

unfoldable pub parse_magnitude : ℕ → Bytes → Option ℕ
unfolding parse_digits
parse_magnitude base [] = none
parse_magnitude base (c ∷ s) = parse_digits base 0 (c ∷ s)

abbrev signed : Option ℕ → Bool → Option ℤ
signed none negative = none
signed (some n) false = if leb n max_int64 then some (pos n) else none
signed (some n) true =
    if n == 0 then some (pos 0) else if leb n (max_int64 + 1) then some (negsuc (n - 1)) else none

-- strconv.ParseInt(s, base, 64); `none` is an error, of syntax or of range
unfoldable pub parse_int : ℕ → Bytes → Option ℤ
unfolding parse_magnitude
parse_int base [] = none
parse_int base (c ∷ s) =
    if c == b'+'
    then signed (parse_magnitude base s) false
    else if c == b'-'
    then signed (parse_magnitude base s) true
    else signed (parse_magnitude base (c ∷ s)) false

signed-le : (o : Option ℕ) (b : Bool) {n : ℕ} → signed o b ≡ some (pos n) → n ≤ max_int64
signed-le none b h = cc
signed-le (some m) false h = ground arith
signed-le (some m) true h = ground arith

-- A parsed number fits an int64.
pub parse_int-le : (base : ℕ) (s : Bytes) {n : ℕ} → parse_int base s ≡ some (pos n) → n ≤ max_int64
unfolding parse_int
parse_int-le base [] h = cc
parse_int-le base (c ∷ s) h = ground (
  arith,
  signed-le (parse_magnitude base s) false,
  signed-le (parse_magnitude base s) true,
  signed-le (parse_magnitude base (c ∷ s)) false,
)

-- ===== src/Base/Time.antt =====
-- What internal/metadata/store.go writes for a time: time.Time.Format(time.RFC3339Nano) in UTC. A
-- time is a number of nanoseconds since 1970-01-01 00:00, in a year of four digits.
use telegram_s.Base.{
  ℕ, zero, suc, ◌+◌, ◌-◌, ◌*◌, ◌/◌, ◌%◌, ◌^◌, ◌&&◌, [], ◌∷◌, ◌++◌, ◌==◌, ltb, leb, if◌then◌else◌,
}
use telegram_s.Base.Bytes.{Bytes, is_empty}

-- The last digits of a number, as many as asked for.
unfoldable pub digits : ℕ → ℕ → Bytes
digits zero n = []
digits (suc width) n = digits width (n / 10) ++ (b'0' + n % 10) ∷ []

-- Without the zeros at the end.
unfoldable pub trim_zeros : Bytes → Bytes
trim_zeros [] = []
trim_zeros (c ∷ cs) =
    let rest = trim_zeros cs in if c == b'0' && is_empty rest then [] else c ∷ rest

unfoldable pub fraction : ℕ → Bytes
unfolding digits trim_zeros
fraction ns = let f = trim_zeros (digits 9 ns) in if is_empty f then [] else b'.' ∷ f

-- The date of a day, for days counted from 0000-03-01: years begin in March, in cycles of 400 years.
unfoldable pub date : ℕ → Bytes
unfolding digits
date days =
    let doe = days % 146097 in
    let yoe = (doe - doe / 1460 + doe / 36524 - doe / 146096) / 365 in
    let doy = doe - (365 * yoe + yoe / 4 - yoe / 100) in
    let mp = (5 * doy + 2) / 153 in
    let day = doy - (153 * mp + 2) / 5 + 1 in
    let month = if ltb mp 10 then mp + 3 else mp - 9 in
    let year = yoe + days / 146097 * 400 + (if leb month 2 then 1 else 0) in
    digits 4 year ++ b'-' ∷ digits 2 month ++ b'-' ∷ digits 2 day

unfoldable pub rfc3339_nano : ℕ → Bytes
unfolding digits fraction date
rfc3339_nano now =
    let s = now / 10 ^ 9 in
    date (s / 86400 + 719468)
    ++ b'T' ∷ digits 2 (s / 3600 % 24)
    ++ b':' ∷ digits 2 (s / 60 % 60)
    ++ b':' ∷ digits 2 (s % 60)
    ++ fraction (now % 10 ^ 9)
    ++ b'Z' ∷ []

-- ===== src/Reader/Buffer.antt =====
-- internal/reader/buffer.go, and `Prime` and `Read` of internal/reader/reader.go. The delivery
-- channel is the list of the buffers that are still to come; its end is the closed channel.
pub mod Drain
pub mod Primed
use telegram_s.Base.{
  ℕ, zero, suc, ◌+◌, ◌-◌, Bool, true, false, Option, none, some, List, [], ◌∷◌, ◌++◌, leb, ltb,
  if◌then◌else◌, length, take, drop,
}
use telegram_s.Base.Bytes.{Bytes}
use telegram_s.Storage.{Error}

pub record Buffer : Type 0 where
  pub buf : Bytes
  pub offset : ℕ
  pub error : Option Error

unfoldable pub is_drained : Buffer → Bool
is_drained b = leb (length b.buf) b.offset

unfoldable pub bytes : Buffer → Bytes
bytes b = drop b.offset b.buf

unfoldable pub advance : ℕ → Buffer → Buffer
advance n b = record b {
  offset = if ltb (length b.buf) (b.offset + n) then length b.buf else b.offset + n;
}

-- What `Read` and `Prime` report beside the bytes.
pub data Status : Type 0 where
  more : Status
  eof : Status
  failed : Error → Status

pub record Reader : Type 0 where
  pub out : List Buffer
  pub cur : Option Buffer
  pub status : Status

-- What `Read` returns: the bytes, the status, and the reader behind it.
abbrev pub Outcome : Type 0
Outcome = Bytes × Status × Reader

first_buffer : Reader → List Buffer → Status × Reader
first_buffer r [] = (eof, r)
first_buffer r (b ∷ rest) = elim b.error [
  | none ↦ (more, record r { out = rest; cur = some b })
  | some e ↦ (failed e, record r { out = rest; status = failed e })
]

unfoldable pub prime : Reader → Status × Reader
unfolding first_buffer
prime r = elim r.cur [ none ↦ first_buffer r r.out | some b ↦ (more, r) ]

-- n := copy(p, r.cur.bytes()); r.cur.advance(n)
copy_out : ℕ → Buffer → List Buffer → Outcome
copy_out n b out =
    let got = take n (bytes b) in
    (got, more, record { out = out; cur = some (advance (length got) b); status = more })

-- The loop of `Read`, which passes over drained buffers.
pub read_out : ℕ → List Buffer → Outcome
unfolding copy_out
read_out n [] = ([], eof, record { out = []; cur = none; status = eof })
read_out n (b ∷ rest) = elim b.error [
  | some e ↦ ([], failed e, record { out = rest; cur = none; status = failed e })
  | none ↦ elim (is_drained b) [ true ↦ read_out n rest | false ↦ copy_out n b rest ]
]

read_cur : ℕ → Option Buffer → List Buffer → Outcome
read_cur n none out = read_out n out
read_cur n (some b) out = if is_drained b then read_out n out else copy_out n b out

read_status : Status → ℕ → Reader → Outcome
read_status more n r = read_cur n r.cur r.out
read_status eof n r = ([], eof, r)
read_status (failed e) n r = ([], failed e, r)

-- `Read` into a slice of n bytes
unfoldable pub read : ℕ → Reader → Outcome
unfolding read_status read_cur read_out copy_out is_drained bytes advance
read n r = read_status r.status n r

-- io.Copy: reads until the end or an error.
append_read : (Reader → Bytes × Status) → Bytes → Status → Reader → Bytes × Status
append_read rest b more r = let tail = rest r in (b ++ tail.0, tail.1)
append_read rest b eof r = (b, eof)
append_read rest b (failed e) r = (b, failed e)

unfoldable pub copy : ℕ → ℕ → Reader → Bytes × Status
unfolding append_read
copy zero n r = ([], more)
copy (suc fuel) n r = let (b, s, r') = read n r in append_read (λ q. copy fuel n q) b s r'

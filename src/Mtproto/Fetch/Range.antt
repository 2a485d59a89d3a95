-- ===== src/Mtproto/Fetch/Range.antt =====
-- `fetchRange` reads exactly the range asked for, whatever the alignment.
use telegram_s.Base.{
  ℕ, zero, suc, ◌+◌, ◌-◌, ◌%◌, ◌≤◌, ◌<◌, min, ◌≡◌, refl, sym, ap, ◌∙◌, inl, inr, true, Bool-cases,
  [], ◌∷◌, ◌++◌, arith, append-nil, ltb, leb, length, take, drop, lt→ltb, leb→le, length-drop,
}
use telegram_s.Base.Bytes.{Bytes}
use telegram_s.Base.Int.{max_int64}
use telegram_s.Base.Slices.{
  slice, take_all, take_eq, take-take-min, slice_join, length-slice, slice_past, slice_empty,
  slice-slice,
}
use telegram_s.Storage.{Error, Result, ok, err}
use telegram_s.Mtproto.Api.{FileResponse, file}
use telegram_s.Mtproto.Fetch.{
  mtproto_download_chunk, received, fetch_rounds, trim_range, trimmed, fetch_range,
}

-- The file behind a location, served up to a limit and up to its end, and only from an offset that
-- is a multiple of the limit: of the answer at another offset nothing is known.
abbrev pub ServesFile : (ℕ → Result FileResponse) → Bytes → Type 0
ServesFile get d =
    (cur : ℕ)
    → cur % mtproto_download_chunk ≡ 0
    → get cur ≡ ok (file (slice cur (cur + mtproto_download_chunk) d))

-- The offset of the next round is aligned as this one is, and so is the first one.
aligned_next :
    (cur : ℕ)
    → cur % mtproto_download_chunk ≡ 0
    → (cur + mtproto_download_chunk) % mtproto_download_chunk ≡ 0
aligned_next cur h = omega arith

aligned_first :
    (offset : ℕ) → (offset - offset % mtproto_download_chunk) % mtproto_download_chunk ≡ 0
aligned_first offset = omega arith

received-full :
    (next : ℕ → Bytes → Result Bytes) (cur : ℕ) (out body : Bytes)
    → mtproto_download_chunk ≤ length body
    → received next cur out (ok (file body)) ≡ next (cur + length body) (out ++ body)
unfolding received
received-full next cur out [] h = absurd (omega arith)
received-full next cur out (b ∷ bs) h = ground arith

received-short :
    (next : ℕ → Bytes → Result Bytes) (cur : ℕ) (out body : Bytes)
    → length body < mtproto_download_chunk
    → received next cur out (ok (file body)) ≡ ok (out ++ body)
unfolding received
received-short next cur out [] h = ap ok (sym (append-nil out))
received-short next cur out (b ∷ bs) h = ground arith

fetch_go :
    (fuel : ℕ) (get : ℕ → Result FileResponse) (end cur : ℕ) (out : Bytes)
    → ltb cur end ≡ true
    → fetch_rounds (suc fuel) get end cur out
      ≡ received (fetch_rounds fuel get end) cur out (get cur)
unfolding fetch_rounds
fetch_go fuel get end cur out go = ground arith

-- An error of the first call is the error of the whole fetch.
pub fetch_range-err :
    (get : ℕ → Result FileResponse) (offset end : ℕ) (e : Error)
    → offset < end
    → get (offset - offset % mtproto_download_chunk) ≡ err e
    → fetch_range get offset end ≡ err e
unfolding fetch_range
fetch_range-err get offset end e h failed =
    let lo = offset - offset % mtproto_download_chunk in
    ap (λ n. trimmed offset lo end (fetch_rounds n get end lo [])) {y = suc (end - lo)}
      (omega arith)
    ∙ ap (trimmed offset lo end) (
        fetch_go (end - lo) get end lo [] (lt→ltb lo end (omega arith))
        ∙ ap (received (fetch_rounds (end - lo) get end) lo []) failed
        ∙ unfold received in refl)
    ∙ unfold trimmed in refl

module _ (get : ℕ → Result FileResponse) (d : Bytes) (serves : ServesFile get d) where
  -- The rounds collect the file from where they start on, at least up to `end` and at most beyond it.
  fetch_rounds-slice :
      (fuel start cur end : ℕ)
      → start ≤ cur
      → cur ≤ length d
      → end - cur < fuel
      → cur % mtproto_download_chunk ≡ 0
      → (stop : ℕ) × (min end (length d) ≤ stop)
        × (cur ≤ stop)
        × (stop ≤ length d)
        × (fetch_rounds fuel get end cur (slice start cur d) ≡ ok (slice start stop d))
  unfolding fetch_rounds
  fetch_rounds-slice zero start cur end a b f z = absurd (omega arith)
  fetch_rounds-slice (suc fuel) start cur end a b f z = elim (Bool-cases (ltb cur end)) [
    | inr stop ↦ (cur, ground arith, omega arith, b, ground arith)
    | inl go ↦ elim (Bool-cases (leb (cur + mtproto_download_chunk) (length d))) [
      | inl full ↦
          let size = length-slice cur (cur + mtproto_download_chunk) d (ground arith) in
          let (stop, lo, on, hi, e) =
            fetch_rounds-slice fuel start (cur + mtproto_download_chunk) end (omega arith)
              (ground arith) (ground arith) (aligned_next cur z) in
          (
            stop,
            lo,
            omega arith,
            hi,
            fetch_go fuel get end cur (slice start cur d) go
                ∙ (ap (received (fetch_rounds fuel get end) cur (slice start cur d)) (serves cur z)
                    ∙ received-full (fetch_rounds fuel get end) cur (slice start cur d) _
                        (omega arith)
                    ∙ ap
                        (fetch_rounds fuel get end
                          (cur + length (slice cur (cur + mtproto_download_chunk) d)))
                        (slice_join start cur (cur + mtproto_download_chunk) d a (omega arith))
                    ∙ ap
                        (λ n.
                          fetch_rounds fuel get end n
                            (slice start (cur + mtproto_download_chunk) d))
                        (omega arith)
                    ∙ e),
          )
      | inr short ↦
          let past = slice_past cur (cur + mtproto_download_chunk) d (ground arith) in
          let size = length-slice cur (length d) d (omega arith) in
          (
            length d,
            omega arith,
            b,
            omega arith,
            fetch_go fuel get end cur (slice start cur d) go
                ∙ (ap (received (fetch_rounds fuel get end) cur (slice start cur d))
                      (serves cur z ∙ ap (λ s. ok (file s)) past)
                    ∙ received-short (fetch_rounds fuel get end) cur (slice start cur d) _
                        (ground arith)
                    ∙ ap ok (slice_join start cur (length d) d a b)),
          )
    ]
  ]

  fetch_rounds-past :
      (fuel cur end : ℕ)
      → length d ≤ cur
      → cur % mtproto_download_chunk ≡ 0
      → fetch_rounds (suc fuel) get end cur [] ≡ ok []
  fetch_rounds-past fuel cur end h z = elim (Bool-cases (ltb cur end)) [
    | inr stop ↦ unfold fetch_rounds in ground arith
    | inl go ↦
        fetch_go fuel get end cur [] go
        ∙ ap (received (fetch_rounds fuel get end) cur [])
            (serves cur z ∙ ap (λ s. ok (file s)) nothing)
        ∙ received-short (fetch_rounds fuel get end) cur [] [] (omega arith)
  ]
    where
      nothing : slice cur (cur + mtproto_download_chunk) d ≡ []
      nothing =
          slice_past cur (cur + mtproto_download_chunk) d (omega arith)
          ∙ slice_empty cur (length d) d h

  drop-slice :
      (lo hi off : ℕ)
      → lo ≤ off
      → off ≤ hi
      → hi ≤ length d
      → drop (off - lo) (slice lo hi d) ≡ slice off hi d
  drop-slice lo hi off a b c =
      let size = length-slice lo hi d c in
      sym (
        take_all (hi - off) (drop (off - lo) (slice lo hi d))
          (omega (arith, length-drop (off - lo) (slice lo hi d))))
      ∙ take_eq (drop (off - lo) (slice lo hi d)) (omega arith)
      ∙ slice-slice lo hi (off - lo) (hi - lo) d (omega arith)
      ∙ ap (λ n. slice n (lo + (hi - lo)) d) (omega arith)
      ∙ ap (λ n. slice off n d) (omega arith)

  take-slice :
      (off end stop : ℕ)
      → off ≤ stop
      → stop ≤ length d
      → min end (length d) ≤ stop
      → take (end - off) (slice off stop d) ≡ slice off (min end (length d)) d
  take-slice off end stop a b c =
      take-take-min (end - off) (stop - off) (drop off d) ∙ take_eq (drop off d) (omega arith)

  trim_range-slice :
      (offset aligned_start end stop : ℕ)
      → aligned_start ≤ offset
      → aligned_start ≤ stop
      → stop ≤ length d
      → min end (length d) ≤ stop
      → length d < max_int64
      → trim_range offset aligned_start end (slice aligned_start stop d)
        ≡ slice offset (min end (length d)) d
  unfolding trim_range
  trim_range-slice offset lo end stop a b c e fits =
      let size = length-slice lo stop d c in
      elim (Bool-cases (leb (length (slice lo stop d)) (offset - lo))) [
        | inl before ↦ rw before (sym (slice_empty offset (min end (length d)) d (ground arith)))
        | inr inside ↦ rw inside (elim (Bool-cases (ltb end max_int64)) [
          | inl bounded ↦ rw bounded (
              ap (take (end - offset)) (drop-slice lo stop offset a (ground arith) c)
              ∙ take-slice offset end stop (ground arith) c e)
          | inr unbounded ↦ rw unbounded (
              drop-slice lo stop offset a (ground arith) c
              ∙ ap (λ n. slice offset n d) (ground arith))
        ])
      ]

  -- `fetchRange` returns the bytes of the file from `offset` to `end`, or to the file's end where
  -- that comes first, and it needs no more rounds than it has.
  pub fetch_range-slice :
      (offset end : ℕ)
      → length d < max_int64
      → fetch_range get offset end ≡ ok (slice offset (min end (length d)) d)
  unfolding fetch_range trimmed
  fetch_range-slice offset end fits =
      let lo = offset - offset % mtproto_download_chunk in
      elim (Bool-cases (leb lo (length d))) [
        | inl inside ↦
            let (stop, enough, on, hi, e) =
              fetch_rounds-slice (end - lo + 1) lo lo end (omega arith)
                (leb→le lo (length d) inside) (omega arith) (aligned_first offset) in
            ap (λ s. trimmed offset lo end (fetch_rounds (end - lo + 1) get end lo s))
              (sym (slice_empty lo lo d (omega arith)))
            ∙ ap (trimmed offset lo end) e
            ∙ ap ok (trim_range-slice offset lo end stop (omega arith) on hi enough fits)
        | inr outside ↦
            ap (λ n. trimmed offset lo end (fetch_rounds n get end lo [])) {y = suc (end - lo)}
              (omega arith)
            ∙ ap (trimmed offset lo end)
                (fetch_rounds-past (end - lo) lo end (ground arith) (aligned_first offset))
            ∙ ap ok (unfold trim_range in ground arith)
            ∙ ap ok (sym (slice_empty offset (min end (length d)) d (ground arith)))
      ]

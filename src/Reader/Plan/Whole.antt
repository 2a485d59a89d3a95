-- ===== src/Reader/Plan/Whole.antt =====
-- The drained windows, in order, are the requested range of the content.
use telegram_s.Base.{
  ℕ, zero, suc, ◌+◌, ◌-◌, ◌≤◌, ◌<◌, min, max, ◌≡◌, refl, sym, ap, ◌∙◌, Bool-cases, inl, inr, none,
  List, [], ◌∷◌, ◌++◌, arith, leb, ltb, ltb→lt, ltb→le, if◌then◌else◌, elim-none, length,
  append-nil,
}
use telegram_s.Base.Bytes.{Bytes}
use telegram_s.Base.Slices.{slice, slice_join, slice_empty, slice-slice, length-slice}
use telegram_s.Storage.{Result, ok}
use telegram_s.Reader.Buffer.Drain.{Pending, pending_out, pending, copy-pending}
use telegram_s.Reader.Buffer.{Buffer, bytes, eof, copy}
use telegram_s.Reader.Source.{BotSource, Download, chunk, chunk_size}
use telegram_s.Reader.Source.Locate.{IsContiguous, extent}
use telegram_s.Reader.Source.Stitch.{Serves, chunk-slice}
use telegram_s.Reader.Plan.Aligned.{Covers, plan-Covers, plan_empty}
use telegram_s.Reader.Plan.{Plan, plan, open_reader, slot_offset, fetch, cut, trim_window, drain}

slice_eq : {a b c d : ℕ} (s : Bytes) → a ≡ c → b ≡ d → slice a b s ≡ slice c d s
slice_eq s p q = λ i. slice (p i) (q i) s

-- Windows that meet in `b`, each cut to [s, e).
windows_join :
    (s e a b c : ℕ) (content : Bytes)
    → a ≤ b
    → b ≤ c
    → s ≤ e
    → slice (max s a) (min e b) content ++ slice (max s b) (min e c) content
      ≡ slice (max s a) (min e c) content
windows_join s e a b c content p q r = elim (Bool-cases (leb b s)) [
  | inl before ↦
      ap (λ t. t ++ slice (max s b) (min e c) content)
        (slice_empty (max s a) (min e b) content (ground arith))
      ∙ slice_eq content (ground arith) refl
  | inr reached ↦ elim (Bool-cases (leb e b)) [
    | inl past ↦
        ap (λ t. slice (max s a) (min e b) content ++ t)
          (slice_empty (max s b) (min e c) content (ground arith))
        ∙ append-nil (slice (max s a) (min e b) content)
        ∙ slice_eq content refl (ground arith)
    | inr inside ↦
        ap (λ t. t ++ slice (max s b) (min e c) content)
          (slice_eq {d = b} content refl (ground arith))
        ∙ ap (λ t. slice (max s a) b content ++ t) (slice_eq {c = b} content (ground arith) refl)
        ∙ slice_join (max s a) b (min e c) content (ground arith) (ground arith)
  ]
]

-- The window of a buffer that is the content's part from `off` to `stop`.
cut-slice :
    (off stop s e : ℕ) (content : Bytes)
    → stop ≤ length content
    → cut off s e (slice off stop content) ≡ slice (max s off) (min e (max stop off)) content
unfolding cut
cut-slice off stop s e content le =
    let len = length-slice off stop content le in
    rw len
      (elim (Bool-cases (
        leb (if ltb e (off + (stop - off)) then e else off + (stop - off))
          (if ltb off s then s else off))) [
            | inl none_left ↦
                rw none_left
                  (sym (slice_empty (max s off) (min e (max stop off)) content (ground arith)))
            | inr some_left ↦ rw some_left (
                slice-slice off stop _ _ content (ground arith)
                ∙ slice_eq content (ground arith) (ground arith))
          ])

pending_fine :
    (b : Buffer) (rest : List Buffer)
    → b.error ≡ none
    → pending_out (b ∷ rest) ≡ (bytes b ++ (pending_out rest).0, (pending_out rest).1)
pending_fine b rest e = elim-none _ _ b.error e

module _ (source : ℕ → ℕ → Result Bytes) (content : Bytes) (p : Plan)
    (serves : (off limit : ℕ)
      → source off limit ≡ ok (slice off (min (off + limit) (length content)) content))
    (range : p.start ≤ p.end) (inside : p.end ≤ length content) where
  fetch-slice :
      (i : ℕ)
      → fetch source p i ≡ record {
        buf =
            slice (slot_offset p i) (min (slot_offset p i + p.chunk_size) (length content)) content;
        offset = 0;
        error = none;
      }
  unfolding fetch
  fetch-slice i = rw (serves (slot_offset p i) p.chunk_size, fetch)

  trim_buffer :
      (i : ℕ) (buf : Bytes)
      → bytes (trim_window p i (record { buf = buf; offset = 0; error = none }))
        ≡ cut (slot_offset p i) p.start p.end buf
  unfolding trim_window bytes
  trim_buffer i buf = refl

  window-slice :
      (i : ℕ)
      → bytes (trim_window p i (fetch source p i))
        ≡ slice (max p.start (slot_offset p i)) (min p.end (slot_offset p (i + 1))) content
  window-slice i =
      let off = slot_offset p i in
      ap (λ b. bytes (trim_window p i b)) (fetch-slice i)
      ∙ trim_buffer i (slice off (min (off + p.chunk_size) (length content)) content)
      ∙ cut-slice off (min (off + p.chunk_size) (length content)) p.start p.end content
          (omega arith)
      ∙ slice_eq content refl (omega arith)

  drain_fine :
      (left i : ℕ)
      → drain p (fetch source p) i (suc left)
        ≡ trim_window p i (fetch source p i) ∷ drain p (fetch source p) (i + 1) left
  unfolding drain
  drain_fine left i =
      elim-none _ _ (fetch source p i).error (ap (λ (b : Buffer). b.error) (fetch-slice i))

  trim_fine : (i : ℕ) → (trim_window p i (fetch source p i)).error ≡ none
  unfolding trim_window
  trim_fine i = ap (λ (b : Buffer). b.error) (fetch-slice i)

  drain-slice :
      (left i : ℕ)
      → pending_out (drain p (fetch source p) i left) ≡ (
        slice (max p.start (slot_offset p i)) (min p.end (slot_offset p (i + left))) content,
        eof,
      )
  unfolding drain
  drain-slice zero i = λ j. (
    sym
        (slice_empty (max p.start (slot_offset p i)) (min p.end (slot_offset p (i + 0))) content
          (omega arith))
        j,
    eof,
  )
  drain-slice (suc left) i =
      ap pending_out (drain_fine left i)
      ∙ pending_fine (trim_window p i (fetch source p i)) (drain p (fetch source p) (i + 1) left)
          (trim_fine i)
      ∙ ap (λ (q : Pending). (bytes (trim_window p i (fetch source p i)) ++ q.0, q.1))
          (drain-slice left (i + 1))
      ∙ (λ j. (joined j, eof))
    where
      joined :
          bytes (trim_window p i (fetch source p i))
            ++ slice
                (max p.start (slot_offset p (i + 1)))
                (min p.end (slot_offset p (i + 1 + left)))
                content
          ≡ slice (max p.start (slot_offset p i)) (min p.end (slot_offset p (i + suc left))) content
      joined =
          ap
            (λ t.
              t
              ++ slice (max p.start (slot_offset p (i + 1)))
                  (min p.end (slot_offset p (i + 1 + left))) content)
            (window-slice i)
          ∙ windows_join p.start p.end (slot_offset p i) (slot_offset p (i + 1))
              (slot_offset p (i + 1 + left)) content (omega arith) (omega arith) range
          ∙ slice_eq content refl (omega arith)

module _ (source : ℕ → ℕ → Result Bytes) (source_size : ℕ → ℕ → ℕ) (content : Bytes)
    (serves : (off limit : ℕ)
      → source off limit ≡ ok (slice off (min (off + limit) (length content)) content))
    (start end : ℕ) (range : start ≤ end) (inside : end ≤ length content) where
  covered :
      (p : Plan)
      → Covers p start end
      → pending_out (drain p (fetch source p) 0 p.n_chunks) ≡ (slice start end content, eof)
  covered p c =
      let s = c.starts in
      let e = c.ends in
      let f = c.first in
      let l = c.last in
      drain-slice source content p serves (omega arith) (omega arith) p.n_chunks 0
      ∙ ap (λ t. (t, eof)) (slice_eq content (omega arith) (omega arith))

  drain_none : (p : Plan) (n : ℕ) → n ≡ 0 → pending_out (drain p (fetch source p) 0 n) ≡ ([], eof)
  unfolding drain
  drain_none p zero e = refl
  drain_none p (suc n) e = absurd (omega arith)

  pub pending-open_reader :
      pending (open_reader source source_size start end) ≡ (slice start end content, eof)
  unfolding open_reader
  pending-open_reader = elim (Bool-cases (ltb start end)) [
    | inr empty ↦
        let p = plan source_size start end in
        drain_none p p.n_chunks (plan_empty source_size start end (ltb→le start end empty))
        ∙ ap (λ t. (t, eof)) (sym (slice_empty start end content (ltb→le start end empty)))
    | inl some_bytes ↦ covered _ (plan-Covers source_size start end (ltb→lt start end some_bytes))
  ]

  -- The reader of a range delivers the range.
  pub copy-open_reader :
      (fuel n : ℕ)
      → 0 < n
      → end - start < fuel
      → copy fuel n (open_reader source source_size start end) ≡ (slice start end content, eof)
  copy-open_reader fuel n h f =
      copy-pending fuel n (open_reader source source_size start end) h
        (rw pending-open_reader (omega (arith, length-slice start end content inside)))
      ∙ pending-open_reader

-- The chunk source of an object whose chunk map covers its content, behind a backend that serves
-- each message: whatever the window, the buffer size and the map, a read of [start, end) delivers
-- just these bytes of the content, and then the end of the file.
pub stream-slice :
    (download : Download) (s : BotSource) (content : Bytes) (start end n : ℕ)
    → IsContiguous 0 s.locs
    → extent s.locs ≡ length content
    → s.obj_size ≡ length content
    → Serves download content s.locs
    → start ≤ end
    → end ≤ length content
    → 0 < n
    → copy (end - start + 1) n (open_reader (chunk download s) (chunk_size s) start end)
      ≡ (slice start end content, eof)
stream-slice download s content start end n gapless whole size serves range inside h =
    copy-open_reader (chunk download s) (chunk_size s) content
      (λ off limit. chunk-slice download content s.locs gapless whole serves s off limit refl size)
      start end range inside (end - start + 1) n h (omega arith)

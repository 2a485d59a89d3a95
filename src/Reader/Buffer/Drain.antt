-- ===== src/Reader/Buffer/Drain.antt =====
-- `Read` in a loop delivers every byte of the buffers in order, up to the first error.
use telegram_s.Base.{
  ℕ, zero, suc, ◌+◌, ◌≤◌, ◌<◌, ◌≡◌, refl, sym, ap, ◌∙◌, ◌⊎◌, inl, inr, Bool, true, false,
  Bool-cases, Option, none, some, List, [], ◌∷◌, ◌++◌, arith, length, take, drop, length-drop,
  length-append, take-append-drop, length-take, append_assoc,
}
use telegram_s.Base.Bytes.{Bytes}
use telegram_s.Base.Slices.{drop-drop, drop_eq, drop_all}
use telegram_s.Storage.{Error}
use telegram_s.Reader.Buffer.{
  Buffer, is_drained, bytes, advance, Status, more, eof, failed, Reader, Outcome, copy_out,
  read_out, read_cur, read_status, read, append_read, copy,
}

-- The bytes of the buffers up to the first error, and how they end.
abbrev pub Pending : Type 0
Pending = Bytes × Status

abbrev pub pending_out : List Buffer → Pending
pending_out [] = ([], eof)
pending_out (b ∷ rest) = elim b.error [
  | some e ↦ ([], failed e)
  | none ↦ (bytes b ++ (pending_out rest).0, (pending_out rest).1)
]

abbrev pub pending_cur : Option Buffer → List Buffer → Pending
pending_cur none out = pending_out out
pending_cur (some b) out = (bytes b ++ (pending_out out).0, (pending_out out).1)

abbrev pub pending : Reader → Pending
pending r = elim r.status [
  | more ↦ pending_cur r.cur r.out
  | eof ↦ ([], eof)
  | failed e ↦ ([], failed e)
]

abbrev Progress : Pending → Bytes → Status → Reader → Type 0
Progress p b more r = (0 < length b) × (p.0 ≡ b ++ (pending r).0) × (p.1 ≡ (pending r).1)
Progress p b eof r = (b ≡ []) × (p.0 ≡ []) × (p.1 ≡ eof)
Progress p b (failed e) r = (b ≡ []) × (p.0 ≡ []) × (p.1 ≡ failed e)

abbrev Advances : Pending → Outcome → Type 0
Advances p o = Progress p o.0 o.1 o.2

drop_same :
    (i j : ℕ) (s : Bytes) → (i ≡ j) ⊎ ((length s ≤ i) × (length s ≤ j)) → drop i s ≡ drop j s
drop_same i j s (inl e) = drop_eq s e
drop_same i j s (inr (p, q)) = drop_all i s p ∙ sym (drop_all j s q)

-- Reading from a buffer leaves what was not read.
bytes-advance :
    (n : ℕ) (b : Buffer) → bytes (advance (length (take n (bytes b))) b) ≡ drop n (bytes b)
unfolding bytes advance
bytes-advance n b =
    drop_same _ (b.offset + n) b.buf
      (ground (arith, length-take n (drop b.offset b.buf), length-drop b.offset b.buf))
    ∙ sym (drop-drop n b.offset b.buf)

left : (b : Buffer) → is_drained b ≡ false → 0 < length (bytes b)
unfolding is_drained bytes
left b d = ground (arith, length-drop b.offset b.buf)

copy_out-Advances :
    (n : ℕ) (b : Buffer) (out : List Buffer)
    → 0 < n
    → is_drained b ≡ false
    → Advances (bytes b ++ (pending_out out).0, (pending_out out).1) (copy_out n b out)
unfolding copy_out
copy_out-Advances n b out h d = (
  omega (arith, length-take n (bytes b), left b d),
  ap (λ t. t ++ (pending_out out).0) (sym (take-append-drop n (bytes b)))
      ∙ append_assoc (take n (bytes b)) (drop n (bytes b)) (pending_out out).0
      ∙ ap (λ t. take n (bytes b) ++ (t ++ (pending_out out).0)) (sym (bytes-advance n b)),
  refl,
)

bytes-drained : (b : Buffer) → is_drained b ≡ true → bytes b ≡ []
unfolding is_drained bytes
bytes-drained b d = drop_all b.offset b.buf (ground arith)

read_out-Advances :
    (n : ℕ) (out : List Buffer) → 0 < n → Advances (pending_out out) (read_out n out)
unfolding read_out
read_out-Advances n [] h = (refl, refl, refl)
read_out-Advances n (b ∷ rest) h =
    first_cases b.error (is_drained b) refl (read_out-Advances n rest h)
  where
    Skips : Option Error → Bool → Type 0
    Skips e d =
        Advances
          (elim e [
            | some x ↦ ([], failed x)
            | none ↦ (bytes b ++ (pending_out rest).0, (pending_out rest).1)
          ])
          (elim e [
            | some x ↦ ([], failed x, record { out = rest; cur = none; status = failed x })
            | none ↦ elim d [ true ↦ read_out n rest | false ↦ copy_out n b rest ]
          ])

    first_cases :
        (e : Option Error) (d : Bool)
        → is_drained b ≡ d
        → Advances (pending_out rest) (read_out n rest)
        → Skips e d
    first_cases (some x) d q ih = (refl, refl, refl)
    first_cases none true q ih = rw (bytes-drained b q) ih
    first_cases none false q ih = copy_out-Advances n b rest h q

read_cur-Advances :
    (n : ℕ) (cur : Option Buffer) (out : List Buffer)
    → 0 < n
    → Advances (pending_cur cur out) (read_cur n cur out)
unfolding read_cur
read_cur-Advances n none out h = read_out-Advances n out h
read_cur-Advances n (some b) out h = elim (Bool-cases (is_drained b)) [
  | inl done ↦ rw (done, bytes-drained b done) (read_out-Advances n out h)
  | inr todo ↦ rw todo (copy_out-Advances n b out h todo)
]

-- One call of `Read` into a slice that is not empty either brings at least one byte, the next ones
-- of those that are pending, or reports the end or the error when nothing is pending before it.
pub read-Advances : (n : ℕ) (r : Reader) → 0 < n → Advances (pending r) (read n r)
unfolding read
read-Advances n r h = status_cases r.status refl
  where
    status_cases :
        (s : Status)
        → r.status ≡ s
        → Advances
            (elim s [
              | more ↦ pending_cur r.cur r.out
              | eof ↦ ([], eof)
              | failed e ↦ ([], failed e)
            ])
            (read_status s n r)
    status_cases more e = read_cur-Advances n r.cur r.out h
    status_cases eof e = (refl, refl, refl)
    status_cases (failed f) e = (refl, refl, refl)

append_read-pending :
    (rest : Reader → Pending) (p : Pending) (b : Bytes) (s : Status) (r : Reader)
    → Progress p b s r
    → (length (pending r).0 < length p.0 → rest r ≡ pending r)
    → append_read rest b s r ≡ p
unfolding append_read
append_read-pending rest p b more r (h, e, f) k =
    let shorter : length (pending r).0 < length p.0 =
      omega (arith, ap length e, length-append b (pending r).0) in
    ap (λ (q : Pending). (b ++ q.0, q.1)) (k shorter) ∙ λ i. (sym e i, sym f i)
append_read-pending rest p b eof r (h, e, f) k = λ i. ((h ∙ sym e) i, sym f i)
append_read-pending rest p b (failed x) r (h, e, f) k = λ i. ((h ∙ sym e) i, sym f i)

-- Copying with any buffer size delivers the pending bytes, all of them and in order, and then the
-- end or the first error.
pub copy-pending :
    (fuel n : ℕ) (r : Reader) → 0 < n → length (pending r).0 < fuel → copy fuel n r ≡ pending r
unfolding copy
copy-pending zero n r h f = absurd (omega arith)
copy-pending (suc fuel) n r h f =
    append_read-pending (λ q. copy fuel n q) (pending r) (read n r).0 (read n r).1 (read n r).2
      (read-Advances n r h) (λ lt. copy-pending fuel n (read n r).2 h (omega arith))

-- ===== src/S3api/Chunked/Frames.antt =====
-- Well-formed frames, and what is read from them.
use telegram_s.Base.{
  ℕ, zero, suc, ◌+◌, ◌≤◌, ◌<◌, ◌≡◌, ◌≢◌, refl, sym, ap, ◌∙◌, false, Option, none, some, List, [],
  ◌∷◌, ◌++◌, arith, ltb, length, take, drop, All, elim-some, length-append,
}
use telegram_s.Base.Bytes.{Bytes, index_byte}
use telegram_s.Base.Slices.{take-append, drop-append, take-suc, take_eq, drop_eq, drop-drop}
use telegram_s.Storage.{Error, ok}
use telegram_s.Mtproto.Split.{Body}
use telegram_s.S3api.Chunked.{
  buffer_size, trim_right, read_line, parse_size, sized, sized_line, read_chunk_size, consume_crlf,
  with_frame, read_frame, decode_rounds, decode,
}

pub record Frame : Type 0 where
  pub line : Bytes
  pub content : Bytes

-- A header line, without its '\n', that announces n bytes.
abbrev pub Announces : Bytes → ℕ → Type 0
Announces line n =
    All (λ c. c ≢ 10) line
    × (length line < buffer_size)
    × (parse_size (trim_right (line ++ 10 ∷ [])) ≡ ok n)

abbrev pub AreFrames : List Frame → Type 0
AreFrames [] = Unit
AreFrames (f ∷ fs) = (0 < length f.content) × Announces f.line (length f.content) × AreFrames fs

-- The frames, the header of the last one, and whatever comes behind it.
abbrev pub framed : List Frame → Bytes → Bytes → Bytes
framed [] last trailer = last ++ 10 ∷ trailer
framed (f ∷ fs) last trailer = f.line ++ 10 ∷ (f.content ++ 13 ∷ 10 ∷ framed fs last trailer)

abbrev pub payload : List Frame → Bytes
payload [] = []
payload (f ∷ fs) = f.content ++ payload fs

index_byte-line :
    (n : ℕ) (line rest : Bytes)
    → All (λ c. c ≢ 10) line
    → length line < n
    → index_byte 10 (take n (line ++ 10 ∷ rest)) ≡ some (length line)
unfolding index_byte
index_byte-line zero line rest h lt = absurd (omega arith)
index_byte-line (suc n) [] rest h lt = refl
index_byte-line (suc n) (c ∷ line) rest (ne, h) lt =
    ground (arith, index_byte-line n line rest h (omega arith))

take_line : (line rest : Bytes) → take (length line + 1) (line ++ 10 ∷ rest) ≡ line ++ 10 ∷ []
take_line [] rest = refl
take_line (c ∷ line) rest =
    take-suc (length line + 1) c (line ++ 10 ∷ rest) (suc (length line) + 1) (omega arith)
    ∙ ap (◌∷◌ c) (take_line line rest)

drop_line : (line rest : Bytes) → drop (length line + 1) (line ++ 10 ∷ rest) ≡ rest
drop_line line rest =
    sym (drop-drop 1 (length line) (line ++ 10 ∷ rest)) ∙ ap (drop 1) (drop-append line (10 ∷ rest))

read_line-line :
    (line rest : Bytes) (e : Option Error)
    → All (λ c. c ≢ 10) line
    → length line < buffer_size
    → read_line (record { bytes = line ++ 10 ∷ rest; error = e })
      ≡ ok (trim_right (line ++ 10 ∷ []), record { bytes = rest; error = e })
unfolding read_line
read_line-line line rest e h lt =
    elim-some _ _ (index_byte 10 (take buffer_size (line ++ 10 ∷ rest)))
      (index_byte-line buffer_size line rest h lt)
    ∙ λ i.
        ok (trim_right (take_line line rest i), record { bytes = drop_line line rest i; error = e })

read_chunk_size-line :
    (line rest : Bytes) (e : Option Error) (n : ℕ)
    → Announces line n
    → read_chunk_size (record { bytes = line ++ 10 ∷ rest; error = e })
      ≡ ok (n, record { bytes = rest; error = e })
unfolding read_chunk_size sized_line sized
read_chunk_size-line line rest e n (h, lt, size) =
    ap sized_line (read_line-line line rest e h lt)
    ∙ ap (sized (record { bytes = rest; error = e })) size

read_frame-data :
    (next : Body → Body) (chunk rest : Bytes) (e : Option Error) (n : ℕ)
    → n ≡ length chunk
    → 0 < n
    → read_frame next (ok (n, record { bytes = chunk ++ 13 ∷ 10 ∷ rest; error = e })) ≡ record {
      bytes = chunk ++ (next (record { bytes = rest; error = e })).bytes;
      error = (next (record { bytes = rest; error = e })).error;
    }
unfolding read_frame with_frame consume_crlf
read_frame-data next chunk rest e zero h pos = absurd (omega arith)
read_frame-data next chunk rest e (suc n) h pos =
    let enough : ltb (length (chunk ++ 13 ∷ 10 ∷ rest)) (suc n) ≡ false =
      ground (arith, length-append chunk (13 ∷ 10 ∷ rest)) in
    rw enough (
      ap (λ b. with_frame next b e (consume_crlf (drop (suc n) (chunk ++ 13 ∷ 10 ∷ rest)) e))
        (take_eq (chunk ++ 13 ∷ 10 ∷ rest) h ∙ take-append chunk (13 ∷ 10 ∷ rest))
      ∙ ap (λ b. with_frame next chunk e (consume_crlf b e))
          (drop_eq (chunk ++ 13 ∷ 10 ∷ rest) h ∙ drop-append chunk (13 ∷ 10 ∷ rest)))

decode_rounds-framed :
    (fuel : ℕ) (fs : List Frame) (last trailer : Bytes) (e : Option Error)
    → AreFrames fs
    → Announces last 0
    → length (framed fs last trailer) ≤ fuel
    → decode_rounds (suc fuel) (record { bytes = framed fs last trailer; error = e })
      ≡ record { bytes = payload fs; error = none }
unfolding decode_rounds
decode_rounds-framed fuel [] last trailer e h end lt =
    ap (read_frame (decode_rounds fuel)) (read_chunk_size-line last trailer e 0 end)
    ∙ unfold read_frame in refl
decode_rounds-framed zero (f ∷ fs) last trailer e (pos, line, h) end lt =
    absurd
      (omega (arith, length-append f.line (10 ∷ (f.content ++ 13 ∷ 10 ∷ framed fs last trailer))))
decode_rounds-framed (suc fuel) (f ∷ fs) last trailer e (pos, line, h) end lt =
    let tail = framed fs last trailer in
    let size = length-append f.line (10 ∷ (f.content ++ 13 ∷ 10 ∷ tail)) in
    let size' = length-append f.content (13 ∷ 10 ∷ tail) in
    ap (read_frame (decode_rounds (suc fuel)))
      (read_chunk_size-line f.line (f.content ++ 13 ∷ 10 ∷ tail) e (length f.content) line)
    ∙ read_frame-data (decode_rounds (suc fuel)) f.content tail e (length f.content) refl pos
    ∙ ap (λ (b : Body). record { bytes = f.content ++ b.bytes; error = b.error })
        (decode_rounds-framed fuel fs last trailer e h end (omega arith))

-- A body in well-formed frames decodes to the bytes of the frames, in order and without an error,
-- whatever the extensions in the header lines are and whatever stands behind the last header.
pub decode-framed :
    (fs : List Frame) (last trailer : Bytes) (e : Option Error)
    → AreFrames fs
    → Announces last 0
    → decode (record { bytes = framed fs last trailer; error = e })
      ≡ record { bytes = payload fs; error = none }
unfolding decode
decode-framed fs last trailer e h end =
    ap (λ n. decode_rounds n (record { bytes = framed fs last trailer; error = e }))
      {y = suc (length (framed fs last trailer))} (omega arith)
    ∙ decode_rounds-framed (length (framed fs last trailer)) fs last trailer e h end (omega arith)

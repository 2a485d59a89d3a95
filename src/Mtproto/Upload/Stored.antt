-- ===== src/Mtproto/Upload/Stored.antt =====
-- What a successful `Upload` leaves in the channel: the body, cut up.
use telegram_s.Base.{
  ℕ, zero, suc, ◌+◌, ◌≤◌, ◌<◌, min, ◌≡◌, refl, sym, ap, ◌∙◌, ◌≢◌, inl, inr, Bool-cases,
  Option-cases, Option, none, some, List, [], ◌∷◌, ◌++◌, arith, ltb, leb, length, take, drop,
  length-take, length-drop, length-append, ◌==◌, ==_iff,
}
use telegram_s.Base.Bytes.{Bytes}
use telegram_s.Base.Slices.{slice, take_all, take_eq, drop-drop}
use mathlib.Core.Path.{subst}
use telegram_s.Storage.{
  AreDistinct, occurs, occurs-append, Error, Result, ok, err, Chunk, IsChunkMap, total_size,
  transport_mtproto,
}
use telegram_s.Mtproto.Api.{Telegram}
use telegram_s.Mtproto.Laws.{TelegramLaws}
use telegram_s.Mtproto.Pool.{Remote, pick}
use telegram_s.Mtproto.Split.{Body, copy_limit}
use telegram_s.Mtproto.Upload.{
  Options, upload_chunk, uploaded, Round, went, broke, upload_answer, upload_on, upload_piece,
  after_round, upload_rounds, upload_body,
}
use telegram_s.Mtproto.Upload.Sent.{Holds, upload_chunk-Holds}
use telegram_s.Mtproto.Upload.Rounds.{
  copy_limit-short, copy_limit-full, after_failed, after_short, after_full,
}

pub IsChunkMap-append :
    (seq start : ℕ) (acc : List Chunk) (ch : Chunk)
    → IsChunkMap seq start acc
    → ch.seq ≡ seq + length acc
    → ch.offset ≡ start + total_size acc
    → IsChunkMap seq start (acc ++ ch ∷ [])
IsChunkMap-append seq start [] ch m s o = (omega arith, omega arith, tt)
IsChunkMap-append seq start (c ∷ acc) ch (a, b, m) s o =
    (a, b, IsChunkMap-append (seq + 1) (start + c.size) acc ch m (omega arith) (omega arith))

pub total_size-append :
    (acc : List Chunk) (ch : Chunk) → total_size (acc ++ ch ∷ []) ≡ total_size acc + ch.size
total_size-append [] ch = omega arith
total_size-append (c ∷ acc) ch = omega (arith, total_size-append acc ch)

module _ (t : Telegram) (laws : TelegramLaws t) (chunk_size : ℕ) (whole : Bytes) where
  open laws use {content}

  -- The chunk is of a size that is allowed, and its message holds its part of the body.
  abbrev pub IsStored : Telegram.Channel t → Chunk → Type 0
  IsStored c ch =
      (0 < ch.size)
      × (ch.size ≤ chunk_size)
      × (ch.transport ≡ transport_mtproto)
      × (content c ch.message_id ≡ some (slice ch.offset (ch.offset + ch.size) whole))

  abbrev pub AreStored : Telegram.Channel t → List Chunk → Type 0
  AreStored c [] = Unit
  AreStored c (ch ∷ chs) = IsStored c ch × AreStored c chs

  AreStored-later :
      (c c' : Telegram.Channel t) (id : ℕ) (body : Bytes) (acc : List Chunk)
      → Holds t laws c c' id body
      → AreStored c acc
      → AreStored c' acc
  AreStored-later c c' id body [] h s = tt
  AreStored-later c c' id body (ch ∷ acc) h ((pos, le, by, held), s) =
      let (fresh, there, others) = h in
      let ne : ch.message_id ≢ id = λ p. (let g = rw p at held in ground arith) in
      ((pos, le, by, others ch.message_id ne ∙ held), AreStored-later c c' id body acc h s)

  AreStored-append :
      (c : Telegram.Channel t) (acc : List Chunk) (ch : Chunk)
      → AreStored c acc
      → IsStored c ch
      → AreStored c (acc ++ ch ∷ [])
  AreStored-append c [] ch s h = (h, tt)
  AreStored-append c (a ∷ acc) ch (x, s) h = (x, AreStored-append c acc ch s h)

  -- The chunks that are stored when `offset` bytes of the body are.
  abbrev pub Stored : List Chunk → ℕ → ℕ → Telegram.Channel t → Type 0
  Stored acc seq offset c =
      (seq ≡ length acc)
      × (offset ≡ total_size acc)
      × IsChunkMap 0 0 acc
      × (AreStored c acc × AreDistinct acc)

  occurs-fresh :
      (c : Telegram.Channel t) (id : ℕ) (acc : List Chunk)
      → content c id ≡ none
      → AreStored c acc
      → occurs id acc ≡ 0
  occurs-fresh c id [] free s = refl
  occurs-fresh c id (ch ∷ acc) free ((pos, le, by, held), s) =
      let ne : ch.message_id ≢ id = λ p. (let g = rw p at held in ground arith) in
      ground (arith, occurs-fresh c id acc free s)

  AreDistinct-append :
      (c : Telegram.Channel t) (acc : List Chunk) (ch : Chunk)
      → content c ch.message_id ≡ none
      → AreStored c acc
      → AreDistinct acc
      → AreDistinct (acc ++ ch ∷ [])
  AreDistinct-append c acc ch free s d j =
      let zero_there = occurs-fresh c ch.message_id acc free s in
      let once = d j in
      elim (Bool-cases (ch.message_id == j)) [
        | inl same ↦
            let none_there : occurs j acc ≡ 0 =
              subst (λ i. occurs i acc ≡ 0) ((==_iff ch.message_id j).0 same) zero_there in
            ground (arith, occurs-append j acc (ch ∷ []))
        | inr other ↦ ground (arith, occurs-append j acc (ch ∷ []))
      ]

  Stored-append :
      (acc : List Chunk) (seq offset bot id : ℕ) (o : Options) (c c' : Telegram.Channel t)
      (got : Bytes)
      → Stored acc seq offset c
      → Holds t laws c c' id got
      → 0 < length got
      → length got ≤ chunk_size
      → got ≡ slice offset (offset + length got) whole
      → Stored
          (acc ++ uploaded t o id bot seq (length got) offset ∷ [])
          (seq + 1)
          (offset + length got)
          c'
  Stored-append acc seq offset bot id o c c' got (s, off, chunks, (stored, distinct)) h pos le is =
      let (fresh, there, others) = h in
      let ch = uploaded t o id bot seq (length got) offset in
      (
        omega (arith, length-append acc (ch ∷ [])),
        omega (arith, total_size-append acc ch),
        IsChunkMap-append 0 0 acc ch chunks (omega (arith, s)) (omega (arith, off)),
        (
          AreStored-append c' acc ch (AreStored-later c c' id got acc h stored)
              (pos, le, refl, there ∙ ap some is),
          AreDistinct-append c acc ch fresh stored distinct,
        ),
      )

-- A piece is a beginning of the body, and no longer than the limit.
copy_limit-take :
    (limit : ℕ) (body : Body)
    → ((copy_limit limit body).got ≡ take (length (copy_limit limit body).got) body.bytes)
      × (length (copy_limit limit body).got ≤ limit)
unfolding copy_limit
copy_limit-take limit body = elim (Bool-cases (leb limit (length body.bytes))) [
  | inl full ↦ rw full (
      let n = length-take limit body.bytes in
      (take_eq body.bytes (ground (arith, n)), ground (arith, n)))
  | inr short ↦ rw short (sym (take_all (length body.bytes) body.bytes (omega arith)), ground arith)
]

module _ (t : Telegram) (laws : TelegramLaws t) (o : Options) (whole : Bytes) where
  abbrev RoundStored : ℕ → ℕ → Bytes → Round t o → Type 0
  RoundStored seq offset got (went chunks next r) =
      (next ≡ offset + length got)
      × Stored t laws o.chunk_size whole chunks (seq + min 1 (length got)) next r.channel
  RoundStored seq offset got (broke e r) = Unit

  upload_answer-Stored :
      (bot : ℕ) (acc : List Chunk) (seq offset : ℕ) (name content_type got : Bytes)
      (r : Remote (Telegram.Channel t)) (a : Result ℕ × Telegram.Channel t)
      → upload_chunk t r.channel bot name content_type got ≡ a
      → Stored t laws o.chunk_size whole acc seq offset r.channel
      → 0 < length got
      → length got ≤ o.chunk_size
      → got ≡ slice offset (offset + length got) whole
      → RoundStored seq offset got (upload_answer t o bot acc seq (length got) offset r a)
  unfolding upload_answer
  upload_answer-Stored bot acc seq offset name content_type got r (err e, c) h s pos le is = tt
  upload_answer-Stored bot acc seq offset name content_type got r (ok id, c) h s pos le is =
      let (n, size, m, z) =
        Stored-append t laws o.chunk_size whole acc seq offset bot id o r.channel c got s
          (upload_chunk-Holds t laws r.channel c bot id name content_type got h) pos le is in
      (refl, (omega (arith, n), size, m, z))

  upload_piece-Stored :
      (name content_type : Bytes) (acc : List Chunk) (seq offset : ℕ) (got : Bytes)
      (r : Remote (Telegram.Channel t))
      → Stored t laws o.chunk_size whole acc seq offset r.channel
      → length got ≤ o.chunk_size
      → got ≡ slice offset (offset + length got) whole
      → RoundStored seq offset got (upload_piece t o name content_type acc seq offset got r)
  unfolding upload_piece upload_on pick
  upload_piece-Stored name content_type acc seq offset [] r (n, size, m, s) le is =
      (omega arith, (omega (arith, n), omega (arith, size), m, s))
  upload_piece-Stored name content_type acc seq offset (b ∷ bs) r s le is =
      upload_answer-Stored _ acc seq offset _ content_type (b ∷ bs) _ _ refl s (omega arith) le is

  -- What the rounds owe, from a body of which `offset` bytes are stored.
  abbrev Owes : Option Error → Result (List Chunk) × Remote (Telegram.Channel t) → Type 0
  Owes ended (err e, r) = Unit
  Owes ended (ok chunks, r) =
      (ended ≡ none)
      × Stored t laws o.chunk_size whole chunks (length chunks) (length whole) r.channel

  after_round-Owes :
      (next : ℕ
        → Body
        → List Chunk
        → ℕ
        → Remote (Telegram.Channel t)
        → Result (List Chunk) × Remote (Telegram.Channel t))
      (acc : List Chunk) (seq offset : ℕ) (body : Body) (round : Round t o)
      → 0 < o.chunk_size
      → body.bytes ≡ drop offset whole
      → offset ≤ length whole
      → ((seq offset : ℕ) (b : Body) (acc : List Chunk) (r : Remote (Telegram.Channel t))
          → b.error ≡ body.error
          → b.bytes ≡ drop offset whole
          → offset ≤ length whole
          → Stored t laws o.chunk_size whole acc seq offset r.channel
          → Owes body.error (next seq b acc offset r))
      → RoundStored seq offset (copy_limit o.chunk_size body).got round
      → Owes body.error (after_round t o next acc seq (copy_limit o.chunk_size body) round)
  after_round-Owes next acc seq offset body (broke e r) pos is le ih s = unfold after_round in tt
  after_round-Owes next acc seq offset body (went chunks off r) pos is le ih (at, (n, size, m, s)) =
      let piece = copy_limit o.chunk_size body in
      let left = length-drop offset whole in
      elim (Option-cases piece.failed) [
        | inr (e, failed) ↦ rw (after_failed t o next acc chunks seq off piece r e failed) tt
        | inl fine ↦ elim (Bool-cases (ltb (length piece.got) o.chunk_size)) [
          | inl short ↦
              let (got, ended) = copy_limit-short o.chunk_size body short in
              let count = ap length (got ∙ is) in
              rw (after_short t o next acc chunks seq off piece r fine short)
                (sym ended ∙ fine, (refl, omega arith, m, s))
          | inr full ↦
              let (fits, got, rest) = copy_limit-full o.chunk_size body full in
              let count = ap length got in
              let took = length-take o.chunk_size body.bytes in
              let have = ap length is in
              let fewer : off ≡ offset + o.chunk_size = omega arith in
              rw (after_full t o next acc chunks seq off piece r fine full) (
                ih (seq + 1) off piece.rest chunks r (ap (λ b. b.error) rest)
                  (ap (λ b. b.bytes) rest
                    ∙ ap (drop o.chunk_size) is
                    ∙ drop-drop o.chunk_size offset whole
                    ∙ ap (λ k. drop k whole) (sym fewer))
                  (omega arith) (omega arith, size, m, s))
        ]
      ]

  upload_rounds-Owes :
      (fuel : ℕ) (name content_type : Bytes) (seq : ℕ) (body : Body) (acc : List Chunk) (offset : ℕ)
      (r : Remote (Telegram.Channel t))
      → 0 < o.chunk_size
      → body.bytes ≡ drop offset whole
      → offset ≤ length whole
      → Stored t laws o.chunk_size whole acc seq offset r.channel
      → Owes body.error (upload_rounds t o fuel name content_type seq body acc offset r)
  unfolding upload_rounds
  upload_rounds-Owes zero name content_type seq body acc offset r pos is le s = tt
  upload_rounds-Owes (suc fuel) name content_type seq body acc offset r pos is le s =
      let piece = copy_limit o.chunk_size body in
      let (got, small) = copy_limit-take o.chunk_size body in
      after_round-Owes (upload_rounds t o fuel name content_type) acc seq offset body
        (upload_piece t o name content_type acc seq offset piece.got r) pos is le
        (λ seq off b acc r ended is le s.
          subst (λ e. Owes e (upload_rounds t o fuel name content_type seq b acc off r)) ended
            (upload_rounds-Owes fuel name content_type seq b acc off r pos is le s))
        (upload_piece-Stored name content_type acc seq offset piece.got r s small
          (got ∙ ap (take (length piece.got)) is ∙ take_eq (drop offset whole) (omega arith)))

upload_body-Owes :
    (t : Telegram) (laws : TelegramLaws t) (o : Options) (name content_type : Bytes) (body : Body)
    (r r' : Remote (Telegram.Channel t)) (chunks : List Chunk)
    → 0 < o.chunk_size
    → upload_body t o name content_type body r ≡ (ok chunks, r')
    → Owes t laws o body.bytes body.error (ok chunks, r')
unfolding upload_body
upload_body-Owes t laws o name content_type body r r' chunks pos h = rw h at (
    upload_rounds-Owes t laws o body.bytes (length body.bytes + 1) name content_type 0 body [] 0 r
      pos refl (omega arith) (refl, refl, tt, (tt, λ j. omega arith)))

-- When an upload with a chunk size that is not 0 reports success, the body was read to its end
-- without an error, the chunks are numbered from 0 and lie one behind another from offset 0 to the
-- body's length, each of a size between 1 and the chunk size and with the mtproto transport, and the
-- message of each holds exactly its part of the body. This takes the check of each message: a send
-- that Telegram answers without an error may have left no document or a short one.
pub upload_body-Stored :
    (t : Telegram) (laws : TelegramLaws t) (o : Options) (name content_type : Bytes) (body : Body)
    (r r' : Remote (Telegram.Channel t)) (chunks : List Chunk)
    → 0 < o.chunk_size
    → upload_body t o name content_type body r ≡ (ok chunks, r')
    → (body.error ≡ none)
      × (length body.bytes ≡ total_size chunks)
      × IsChunkMap 0 0 chunks
      × AreStored t laws o.chunk_size body.bytes r'.channel chunks
upload_body-Stored t laws o name content_type body r r' chunks pos h =
    let (ended, (n, size, m, s)) =
      upload_body-Owes t laws o name content_type body r r' chunks pos h in
    (ended, size, m, s.0)

-- The chunks of an upload are messages of their own.
pub upload_body-AreDistinct :
    (t : Telegram) (laws : TelegramLaws t) (o : Options) (name content_type : Bytes) (body : Body)
    (r r' : Remote (Telegram.Channel t)) (chunks : List Chunk)
    → 0 < o.chunk_size
    → upload_body t o name content_type body r ≡ (ok chunks, r')
    → AreDistinct chunks
upload_body-AreDistinct t laws o name content_type body r r' chunks pos h =
    let (ended, (n, size, m, s)) =
      upload_body-Owes t laws o name content_type body r r' chunks pos h in
    s.1

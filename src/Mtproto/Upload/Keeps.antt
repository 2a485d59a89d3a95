-- ===== src/Mtproto/Upload/Keeps.antt =====
-- `Upload` takes no message away that was there before.
use telegram_s.Base.{
  ℕ, zero, suc, ◌+◌, ◌≡◌, refl, ◌∙◌, ◌≢◌, Bool, true, false, ◌||◌, Option, none, some, List, [],
  ◌∷◌, ◌++◌, map, arith, ltb, ◌==◌, length,
}
use telegram_s.Base.Bytes.{Bytes}
use telegram_s.Storage.{Error, Result, ok, err, Chunk}
use telegram_s.Mtproto.Api.{Telegram}
use telegram_s.Mtproto.Laws.{TelegramLaws}
use telegram_s.Mtproto.Pool.{Remote, pick}
use telegram_s.Mtproto.Delete.Windows.{mentioned, Walks, content-delete_batch}
use telegram_s.Mtproto.Split.{Body, Piece, copy_limit}
use telegram_s.Mtproto.Upload.{
  Options, upload_chunk, cleanup, cleanup_ref, uploaded, Round, went, broke, upload_answer,
  upload_on, upload_piece, after_round, upload_rounds, upload_body,
}
use telegram_s.Mtproto.Upload.Sent.{upload_chunk-Holds, upload_chunk-kept}

mentioned-append :
    (t : Telegram) (o : Options) (j : ℕ) (acc : List Chunk) (ch : Chunk)
    → mentioned j (map (cleanup_ref t o) (acc ++ ch ∷ []))
      ≡ mentioned j (map (cleanup_ref t o) acc) || (ch.message_id == j)
mentioned-append t o j [] ch = ground arith
mentioned-append t o j (c ∷ acc) ch = ground (arith, mentioned-append t o j acc ch)

-- A message that was in the channel before.
module _ (t : Telegram) (laws : TelegramLaws t) (o : Options) (j : ℕ) (d : Bytes) where
  open laws use {content}

  abbrev Keeps : List Chunk → Remote (Telegram.Channel t) → Type 0
  Keeps acc r = (content r.channel j ≡ some d) × (mentioned j (map (cleanup_ref t o) acc) ≡ false)

  abbrev KeepsRound : List Chunk → Round t o → Type 0
  KeepsRound acc (went chunks offset r) = Keeps chunks r
  KeepsRound acc (broke e r) = Keeps acc r

  upload_answer-Keeps :
      (bot : ℕ) (acc : List Chunk) (seq size offset : ℕ) (name content_type data_ : Bytes)
      (r : Remote (Telegram.Channel t)) (a : Result ℕ × Telegram.Channel t)
      → upload_chunk t r.channel bot name content_type data_ ≡ a
      → Keeps acc r
      → KeepsRound acc (upload_answer t o bot acc seq size offset r a)
  unfolding upload_answer
  upload_answer-Keeps bot acc seq size offset name content_type data_ r (err e, c) h (held, off) =
      (rw h at (upload_chunk-kept t laws r.channel bot name content_type data_ j d held), off)
  upload_answer-Keeps bot acc seq size offset name content_type data_ r (ok id, c) h (held, off) =
      let (fresh, there, others) =
        upload_chunk-Holds t laws r.channel c bot id name content_type data_ h in
      let ne : j ≢ id = λ p. (let g = rw p at held in ground arith) in
      (
        others j ne ∙ held,
        mentioned-append t o j acc (uploaded t o id bot seq size offset) ∙ ground arith,
      )

  upload_piece-Keeps :
      (name content_type : Bytes) (acc : List Chunk) (seq offset : ℕ) (got : Bytes)
      (r : Remote (Telegram.Channel t))
      → Keeps acc r
      → KeepsRound acc (upload_piece t o name content_type acc seq offset got r)
  unfolding upload_piece upload_on pick
  upload_piece-Keeps name content_type acc seq offset [] r k = k
  upload_piece-Keeps name content_type acc seq offset (b ∷ bs) r k =
      upload_answer-Keeps _ acc seq _ offset _ content_type (b ∷ bs) _ _ refl k

  cleanup-Keeps :
      (acc : List Chunk) (r : Remote (Telegram.Channel t))
      → Walks o.visit
      → Keeps acc r
      → content (cleanup t o acc r).channel j ≡ some d
  unfolding cleanup
  cleanup-Keeps [] r walks (held, off) = held
  cleanup-Keeps (c ∷ cs) r walks (held, off) =
      (content-delete_batch t laws o.bots o.visit (map (cleanup_ref t o) (c ∷ cs)) r j walks).0 off
      ∙ held

  -- The message is still there, and none of the chunks that are returned is that message.
  abbrev pub Kept : Result (List Chunk) × Remote (Telegram.Channel t) → Type 0
  Kept (err e, r) = content r.channel j ≡ some d
  Kept (ok chunks, r) =
      (content r.channel j ≡ some d) × (mentioned j (map (cleanup_ref t o) chunks) ≡ false)

  after_round-Keeps :
      (next : ℕ
        → Body
        → List Chunk
        → ℕ
        → Remote (Telegram.Channel t)
        → Result (List Chunk) × Remote (Telegram.Channel t))
      (acc : List Chunk) (seq : ℕ) (piece : Piece) (round : Round t o)
      → Walks o.visit
      → ((seq : ℕ) (b : Body) (acc : List Chunk) (offset : ℕ) (r : Remote (Telegram.Channel t))
          → Keeps acc r
          → Kept (next seq b acc offset r))
      → KeepsRound acc round
      → Kept (after_round t o next acc seq piece round)
  unfolding after_round
  after_round-Keeps next acc seq piece (broke e r) walks ih k = cleanup-Keeps acc r walks k
  after_round-Keeps next acc seq piece (went chunks offset r) walks ih k =
      split piece.failed (ltb (length piece.got) o.chunk_size)
    where
      split :
          (e : Option Error) (b : Bool)
          → Kept (elim e as (λ e. Result (List Chunk) × Remote (Telegram.Channel t)) [
            | some e ↦ (err e, cleanup t o chunks r)
            | none ↦ elim b as (λ b. Result (List Chunk) × Remote (Telegram.Channel t)) [
              | true ↦ (ok chunks, r)
              | false ↦ next (seq + 1) piece.rest chunks offset r
            ]
          ])
      split (some e) b = cleanup-Keeps chunks r walks k
      split none true = k
      split none false = ih (seq + 1) piece.rest chunks offset r k

  upload_rounds-Keeps :
      (fuel : ℕ) (name content_type : Bytes) (seq : ℕ) (body : Body) (acc : List Chunk) (offset : ℕ)
      (r : Remote (Telegram.Channel t))
      → Walks o.visit
      → Keeps acc r
      → Kept (upload_rounds t o fuel name content_type seq body acc offset r)
  unfolding upload_rounds
  upload_rounds-Keeps zero name content_type seq body acc offset r walks k = k.0
  upload_rounds-Keeps (suc fuel) name content_type seq body acc offset r walks k =
      after_round-Keeps (upload_rounds t o fuel name content_type) acc seq
        (copy_limit o.chunk_size body)
        (upload_piece t o name content_type acc seq offset (copy_limit o.chunk_size body).got r)
        walks
        (λ seq b acc offset r k.
          upload_rounds-Keeps fuel name content_type seq b acc offset r walks k)
        (upload_piece-Keeps name content_type acc seq offset (copy_limit o.chunk_size body).got r k)

Kept-content :
    (t : Telegram) (laws : TelegramLaws t) (o : Options) (j : ℕ) (d : Bytes)
    (a : Result (List Chunk) × Remote (Telegram.Channel t))
    → Kept t laws o j d a
    → TelegramLaws.content laws a.1.channel j ≡ some d
Kept-content t laws o j d (err e, r) k = k
Kept-content t laws o j d (ok chunks, r) k = k.0

pub upload_body-Kept :
    (t : Telegram) (laws : TelegramLaws t) (o : Options) (name content_type : Bytes) (body : Body)
    (r : Remote (Telegram.Channel t)) (j : ℕ) (d : Bytes)
    → Walks o.visit
    → TelegramLaws.content laws r.channel j ≡ some d
    → Kept t laws o j d (upload_body t o name content_type body r)
unfolding upload_body
upload_body-Kept t laws o name content_type body r j d walks h =
    upload_rounds-Keeps t laws o j d (length body.bytes + 1) name content_type 0 body [] 0 r walks
      (h, refl)

-- However an upload ends, with its chunks or with an error and the clean-up behind it, every message
-- that the channel held before still holds the same document.
pub upload_body-keeps :
    (t : Telegram) (laws : TelegramLaws t) (o : Options) (name content_type : Bytes) (body : Body)
    (r : Remote (Telegram.Channel t)) (j : ℕ) (d : Bytes)
    → Walks o.visit
    → TelegramLaws.content laws r.channel j ≡ some d
    → TelegramLaws.content laws (upload_body t o name content_type body r).1.channel j ≡ some d
upload_body-keeps t laws o name content_type body r j d walks h =
    Kept-content t laws o j d (upload_body t o name content_type body r)
      (upload_body-Kept t laws o name content_type body r j d walks h)

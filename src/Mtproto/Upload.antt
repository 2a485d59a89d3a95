-- ===== src/Mtproto/Upload.antt =====
-- internal/storage/telegram/mtproto/upload.go: `Upload` and what it calls.
pub mod Sent
pub mod Rounds
pub mod Keeps
pub mod Stored
use telegram_s.Base.{
  ℕ, zero, suc, ◌+◌, true, false, Option, none, some, List, [], ◌∷◌, ◌++◌, map, ◌==◌, ltb,
  if◌then◌else◌, length,
}
use telegram_s.Base.Bytes.{Bytes}
use telegram_s.Storage.{
  Error, fault, exhausted, Result, ok, err, Chunk, ChunkRef, transport_mtproto,
}
use telegram_s.Mtproto.Api.{Telegram, Updates, Message, Messages, not_modified, modified}
use telegram_s.Mtproto.Delete.{BotBatch, delete_batch}
use telegram_s.Mtproto.Pool.{Remote, pick, upload}
use telegram_s.Mtproto.Response.{extract_message_id, inspect_document_size}
use telegram_s.Mtproto.Split.{Body, Piece, copy_limit}

-- The fields of `Storage` that `Upload` reads: the number of bots, the chunk size, and the order in
-- which the runtime walks a map. `filename` is chunkFilename(name, seq), which may read the clock.
pub record Options : Type 0 where
  pub bots : ℕ
  pub chunk_size : ℕ
  pub visit : List BotBatch → List BotBatch
  pub filename : Bytes → ℕ → Bytes

module _ (t : Telegram) where
  open t use {Channel, send_document, get_messages, delete_messages}

  delete_by_message_id : Channel → ℕ → ℕ → Channel
  delete_by_message_id c bot id = (delete_messages c bot (id ∷ [])).1

  -- The check of the first message of the answer.
  check_first : Channel → ℕ → ℕ → ℕ → List Message → Option Error × Channel
  unfolding delete_by_message_id
  check_first c bot id expected [] = (some (fault 2), delete_by_message_id c bot id)
  check_first c bot id expected (m ∷ ms) = elim (inspect_document_size m) [
    | none ↦ (some (fault 3), delete_by_message_id c bot id)
    | some size ↦
        if size == expected then (none, c) else (some (fault 4), delete_by_message_id c bot id)
  ]

  check_answer : Channel → ℕ → ℕ → ℕ → Result Messages → Option Error × Channel
  unfolding check_first
  check_answer c bot id expected (err e) = (some e, c)
  check_answer c bot id expected (ok not_modified) = (some (fault 1), delete_by_message_id c bot id)
  check_answer c bot id expected (ok (modified msgs)) = check_first c bot id expected msgs

  unfoldable pub verify_uploaded_size : Channel → ℕ → ℕ → ℕ → Option Error × Channel
  unfolding check_answer
  verify_uploaded_size c bot id expected = check_answer c bot id expected (get_messages c bot id)

  verified : ℕ → Option Error × Channel → Result ℕ × Channel
  verified id (none, c) = (ok id, c)
  verified id (some e, c) = (err e, c)

  sent_id : ℕ → ℕ → Option ℕ → Channel → Result ℕ × Channel
  unfolding verified
  sent_id bot total none c = (err (fault 0), c)
  sent_id bot total (some id) c = verified id (verify_uploaded_size c bot id total)

  sent : ℕ → ℕ → Result Updates × Channel → Result ℕ × Channel
  unfolding sent_id
  sent bot total (err e, c) = (err e, c)
  sent bot total (ok u, c) = sent_id bot total (extract_message_id u) c

  -- The message id of the chunk that `uploadChunk` returns is its only field that is set.
  unfoldable pub upload_chunk : Channel → ℕ → Bytes → Bytes → Bytes → Result ℕ × Channel
  unfolding sent
  upload_chunk c bot filename content_type body =
      sent bot (length body) (send_document c bot filename content_type body)

module _ (t : Telegram) (o : Options) where
  open t use {Channel}

  abbrev pub cleanup_ref : Chunk → ChunkRef
  cleanup_ref c = record {
    transport = transport_mtproto;
    bot_file_id = [];
    message_id = c.message_id;
    bot_index = c.bot_index;
  }

  unfoldable pub cleanup : List Chunk → Remote Channel → Remote Channel
  cleanup [] r = r
  cleanup (c ∷ cs) r = (delete_batch t o.bots o.visit (map cleanup_ref (c ∷ cs)) r).1

  abbrev uploaded : ℕ → ℕ → ℕ → ℕ → ℕ → Chunk
  uploaded id bot seq size offset = record {
    seq = seq;
    file_id = [];
    message_id = id;
    size = size;
    offset = offset;
    transport = transport_mtproto;
    bot_index = bot;
  }

  -- One round's chunk, if it read anything: the chunks so far, the offset and the pool behind it.
  pub data Round : Type 0 where
    went : List Chunk → ℕ → Remote Channel → Round
    broke : Error → Remote Channel → Round

  upload_answer : ℕ → List Chunk → ℕ → ℕ → ℕ → Remote Channel → Result ℕ × Channel → Round
  upload_answer bot acc seq size offset r (err e, c) = broke e (record r { channel = c })
  upload_answer bot acc seq size offset r (ok id, c) =
      went (acc ++ uploaded id bot seq size offset ∷ []) (offset + size) (record r { channel = c })

  upload_on : Bytes → Bytes → List Chunk → ℕ → ℕ → Bytes → ℕ × Remote Channel → Round
  unfolding upload_answer
  upload_on name content_type acc seq offset bytes (bot, r) =
      upload_answer bot acc seq (length bytes) offset r
        (upload_chunk t r.channel bot (o.filename name seq) content_type bytes)

  unfoldable pub upload_piece : Bytes → Bytes → List Chunk → ℕ → ℕ → Bytes → Remote Channel → Round
  unfolding upload_on
  upload_piece name content_type acc seq offset [] r = went acc offset r
  upload_piece name content_type acc seq offset (b ∷ bs) r =
      upload_on name content_type acc seq offset (b ∷ bs) (pick o.bots upload r)

  -- What follows a round: a failed upload or read cleans up, a short piece was the last one.
  unfoldable pub after_round :
      (ℕ → Body → List Chunk → ℕ → Remote Channel → Result (List Chunk) × Remote Channel)
      → List Chunk
      → ℕ
      → Piece
      → Round
      → Result (List Chunk) × Remote Channel
  after_round next acc seq piece (broke e r) = (err e, cleanup acc r)
  after_round next acc seq piece (went chunks offset r) = elim piece.failed [
    | some e ↦ (err e, cleanup chunks r)
    | none ↦ elim (ltb (length piece.got) o.chunk_size) [
      | true ↦ (ok chunks, r)
      | false ↦ next (seq + 1) piece.rest chunks offset r
    ]
  ]

  -- The rounds of the loop; `exhausted` is no error of the program.
  unfoldable pub upload_rounds :
      ℕ
      → Bytes
      → Bytes
      → ℕ
      → Body
      → List Chunk
      → ℕ
      → Remote Channel
      → Result (List Chunk) × Remote Channel
  unfolding after_round upload_piece
  upload_rounds zero name content_type seq body acc offset r = (err exhausted, r)
  upload_rounds (suc fuel) name content_type seq body acc offset r =
      let piece = copy_limit o.chunk_size body in
      after_round (upload_rounds fuel name content_type) acc seq piece
        (upload_piece name content_type acc seq offset piece.got r)

  -- Each round but the last takes `chunk_size` bytes, which a configuration has at least one of.
  unfoldable pub upload_body :
      Bytes → Bytes → Body → Remote Channel → Result (List Chunk) × Remote Channel
  unfolding upload_rounds
  upload_body name content_type body r =
      upload_rounds (length body.bytes + 1) name content_type 0 body [] 0 r

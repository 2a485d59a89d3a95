-- ===== src/Mtproto/Laws.antt =====
-- What the backend relies on of Telegram: which document a message of the channel holds, and what
-- the calls do to it.
use telegram_s.Base.{
  ℕ, ◌≡◌, ◌≢◌, Bool, true, false, Option, none, some, List, ◌∷◌, any, ◌==◌, length, take,
}
use telegram_s.Base.Bytes.{Bytes}
use telegram_s.Storage.{ok}
use telegram_s.Mtproto.Api.{Telegram, Updates, Message, modified}
use telegram_s.Mtproto.Response.{extract_message_id, inspect_document_size}

abbrev pub listed : ℕ → List ℕ → Bool
listed id ids = any (λ j. j == id) ids

pub record TelegramLaws (t : Telegram) : Type 1 where
  pub content : Telegram.Channel t → ℕ → Option Bytes
  -- A document that was sent without an error is a new message, and the other messages stay. The
  -- message may hold no document, or one that is short: of a document that it holds, no more is
  -- known than that it is a beginning of the bytes.
  pub sent :
      (c c' : Telegram.Channel t) (bot : ℕ) (name content_type body : Bytes) (u : Updates) (id : ℕ)
      → Telegram.send_document t c bot name content_type body ≡ (ok u, c')
      → extract_message_id u ≡ some id
      → (content c id ≡ none)
        × ((d : Bytes) → content c' id ≡ some d → d ≡ take (length d) body)
        × ((j : ℕ) → j ≢ id → content c' j ≡ content c j)
  -- The size that a message is reported with is the size of the document that it holds.
  pub sized :
      (c : Telegram.Channel t) (bot id size : ℕ) (m : Message) (ms : List Message)
      → Telegram.get_messages t c bot id ≡ ok (modified (m ∷ ms))
      → inspect_document_size m ≡ some size
      → (d : Bytes) × (content c id ≡ some d) × (length d ≡ size)
  -- However a send ends, it takes no message away.
  pub kept :
      (c : Telegram.Channel t) (bot : ℕ) (name content_type body : Bytes) (j : ℕ) (d : Bytes)
      → content c j ≡ some d
      → content (Telegram.send_document t c bot name content_type body).1 j ≡ some d
  -- A deletion that succeeds removes the listed messages.
  pub deleted :
      (c c' : Telegram.Channel t) (bot : ℕ) (ids : List ℕ) (j : ℕ)
      → Telegram.delete_messages t c bot ids ≡ (none, c')
      → listed j ids ≡ true
      → content c' j ≡ none
  -- No deletion brings a message back or touches one that is not listed.
  pub stays_deleted :
      (c : Telegram.Channel t) (bot : ℕ) (ids : List ℕ) (j : ℕ)
      → content c j ≡ none
      → content (Telegram.delete_messages t c bot ids).1 j ≡ none
  pub untouched :
      (c : Telegram.Channel t) (bot : ℕ) (ids : List ℕ) (j : ℕ)
      → listed j ids ≡ false
      → content (Telegram.delete_messages t c bot ids).1 j ≡ content c j

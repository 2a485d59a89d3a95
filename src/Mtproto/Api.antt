-- ===== src/Mtproto/Api.antt =====
-- What the backend calls of Telegram (github.com/gotd/td), as an interface. A bot is its index in
-- the pool; `Channel` is the storage channel as the calls change it. The responses are the cases
-- that the program tells apart.
use telegram_s.Base.{ℕ, Option, List}
use telegram_s.Base.Bytes.{Bytes}
use telegram_s.Storage.{Error, Result}

-- tg.UpdateClass; `none` is a message that is no *tg.Message.
pub data Update : Type 0 where
  new_channel_message : Option ℕ → Update
  new_message : Option ℕ → Update
  message_id_assigned : ℕ → Update
  other_update : Update

-- tg.UpdatesClass
pub data Updates : Type 0 where
  short_sent_message : ℕ → Updates
  updates : List Update → Updates
  updates_combined : List Update → Updates
  other_updates : Updates

-- The media of a *tg.Message: a document with its size and its location (the
-- InputDocumentFileLocation with its file reference, as a number), an empty document, or anything else.
pub data Media : Type 0 where
  document : ℕ → ℕ → Media
  empty_document : Media
  other_media : Media

-- tg.MessageClass
pub data Message : Type 0 where
  empty_message : Message
  service_message : Message
  message : ℕ → Media → Message

-- tg.MessagesMessagesClass
pub data Messages : Type 0 where
  not_modified : Messages
  modified : List Message → Messages

-- tg.UploadFileClass
pub data FileResponse : Type 0 where
  file : Bytes → FileResponse
  cdn_redirect : FileResponse

pub record Telegram : Type 1 where
  pub Channel : Type 0
  -- The upload of the file and the message that carries it: bot, file name, content type, bytes.
  pub send_document : Channel → ℕ → Bytes → Bytes → Bytes → Result Updates × Channel
  -- channels.getMessages for one message id
  pub get_messages : Channel → ℕ → ℕ → Result Messages
  -- upload.getFile: bot, location, offset, limit
  pub get_file : Channel → ℕ → ℕ → ℕ → ℕ → Result FileResponse
  -- channels.deleteMessages
  pub delete_messages : Channel → ℕ → List ℕ → Option Error × Channel

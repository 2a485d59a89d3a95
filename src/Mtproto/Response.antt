-- ===== src/Mtproto/Response.antt =====
-- internal/storage/telegram/mtproto/upload.go: how the responses of a send and of its check are
-- read.
use telegram_s.Base.{ℕ, Option, none, some, List, [], ◌∷◌}
use telegram_s.Mtproto.Api.{
  Update, new_channel_message, new_message, message_id_assigned, Updates, short_sent_message,
  updates, updates_combined, other_updates, Message, message, document,
}

unfoldable pub scan_for_message_id : List Update → Option ℕ
scan_for_message_id [] = none
scan_for_message_id (new_channel_message (some id) ∷ rest) = some id
scan_for_message_id (new_message (some id) ∷ rest) = some id
scan_for_message_id (message_id_assigned id ∷ rest) = some id
scan_for_message_id (_ ∷ rest) = scan_for_message_id rest

unfoldable pub extract_message_id : Updates → Option ℕ
unfolding scan_for_message_id
extract_message_id (short_sent_message id) = some id
extract_message_id (updates events) = scan_for_message_id events
extract_message_id (updates_combined events) = scan_for_message_id events
extract_message_id other_updates = none

unfoldable pub inspect_document_size : Message → Option ℕ
inspect_document_size (message id (document size location)) = some size
inspect_document_size _ = none

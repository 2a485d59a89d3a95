-- ===== src/Mtproto.antt =====
-- internal/storage/telegram/mtproto: the backend over Telegram's MTProto API.
pub mod Retry
pub mod Api
pub mod Response
pub mod Laws
pub mod Split
pub mod Pool
pub mod Delete
pub mod Upload
pub mod Fetch

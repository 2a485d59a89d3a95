-- ===== src/Mtproto/Pool.antt =====
-- internal/storage/telegram/mtproto/client.go: the pool of bots and its two round-robin counters.
-- A bot is its position, which is its Index.
use telegram_s.Base.{ℕ, ◌+◌, ◌%◌, Option, none, some, ltb, if◌then◌else◌}

pub data BotOp : Type 0 where
  stream : BotOp
  upload : BotOp

-- The counters beside what the calls change.
pub record Remote (C : Type 0) : Type 0 where
  pub channel : C
  pub stream_idx : ℕ
  pub upload_idx : ℕ

module _ {C : Type 0} where
  unfoldable pub pick : ℕ → BotOp → Remote C → ℕ × Remote C
  pick bots upload r = (r.upload_idx % bots, record r { upload_idx = r.upload_idx + 1 })
  pick bots stream r = (r.stream_idx % bots, record r { stream_idx = r.stream_idx + 1 })

unfoldable pub at : ℕ → ℕ → Option ℕ
at bots i = if ltb i bots then some i else none

-- ===== src/Storage.antt =====
-- internal/storage/storage.go: the chunks of an object, the locator of one Telegram message, and
-- what can go wrong below the handlers.
use telegram_s.Base.{ℕ, ◌+◌, ◌≤◌, ◌≡◌, List, [], ◌∷◌, ◌++◌, arith, ◌==◌, if◌then◌else◌}
use telegram_s.Base.Bytes.{Bytes, codes}

-- The errors that the handlers and the backend tell apart, as errors.Is and errors.As see them
-- through any wrapping. `rpc` is a tgerr.Error with its Type; `transport` is any other failure of a
-- call or of a reader, and `fault` an error that the program makes itself; their number stands for
-- the text.
pub data Error : Type 0 where
  malformed_chunked : Error
  rpc : Bytes → Error
  transport : ℕ → Error
  fault : ℕ → Error
  outside_chunk_map : Error
  exhausted : Error

pub data Result {ℓ} (A : Type ℓ) : Type ℓ where
  ok : A → Result A
  err : Error → Result A

pub record Chunk : Type 0 where
  pub seq : ℕ
  pub file_id : Bytes
  pub message_id : ℕ
  pub size : ℕ
  pub offset : ℕ
  pub transport : Bytes
  pub bot_index : ℕ

pub record ChunkRef : Type 0 where
  pub transport : Bytes
  pub bot_file_id : Bytes
  pub message_id : ℕ
  pub bot_index : ℕ

abbrev pub transport_mtproto : Bytes
transport_mtproto = codes "mtproto"

-- The locator of a chunk's message.
abbrev pub ref_of : Chunk → ChunkRef
ref_of c = record {
  transport = c.transport;
  bot_file_id = c.file_id;
  message_id = c.message_id;
  bot_index = c.bot_index;
}

abbrev pub total_size : List Chunk → ℕ
total_size [] = 0
total_size (c ∷ cs) = c.size + total_size cs

-- The chunks lie one behind another from `start` on, numbered from `seq` on.
abbrev pub IsChunkMap : ℕ → ℕ → List Chunk → Type 0
IsChunkMap seq start [] = Unit
IsChunkMap seq start (c ∷ cs) =
    (c.seq ≡ seq) × (c.offset ≡ start) × IsChunkMap (seq + 1) (start + c.size) cs

-- How often a message is one of the chunks.
abbrev pub occurs : ℕ → List Chunk → ℕ
occurs j [] = 0
occurs j (c ∷ cs) = (if c.message_id == j then 1 else 0) + occurs j cs

-- No two chunks share a message.
abbrev pub AreDistinct : List Chunk → Type 0
AreDistinct cs = (j : ℕ) → occurs j cs ≤ 1

pub occurs-append : (j : ℕ) (xs ys : List Chunk) → occurs j (xs ++ ys) ≡ occurs j xs + occurs j ys
occurs-append j [] ys = omega arith
occurs-append j (x ∷ xs) ys = omega (arith, occurs-append j xs ys)

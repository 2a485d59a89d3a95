-- ===== src/Mtproto/Split.antt =====
-- internal/storage/telegram/mtproto/upload.go: what the reads of `Upload` take from the body. A
-- body is the bytes that its reader yields and how it ends: by the end of the file, or by an error.
use telegram_s.Base.{ℕ, Option, none, [], leb, if◌then◌else◌, length, take, drop}
use telegram_s.Base.Bytes.{Bytes}
use telegram_s.Storage.{Error}

pub record Body : Type 0 where
  pub bytes : Bytes
  pub error : Option Error

pub record Piece : Type 0 where
  pub got : Bytes
  pub failed : Option Error
  pub rest : Body

-- io.CopyBuffer from io.LimitReader(body, limit): the error of the body shows only where the body
-- ends before the limit.
unfoldable pub copy_limit : ℕ → Body → Piece
copy_limit limit body =
    if leb limit (length body.bytes)
    then record {
      got = take limit body.bytes;
      failed = none;
      rest = record body { bytes = drop limit body.bytes };
    }
    else record { got = body.bytes; failed = body.error; rest = record body { bytes = [] } }

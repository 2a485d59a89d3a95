-- ===== src/Tests/Backend.antt =====
-- The backend over the channel in memory.
use telegram_s.Base.{
  ℕ, zero, suc, ◌+◌, ◌≡◌, min, refl, ◌⊎◌, inl, inr, Bool, true, false, none, some, List, [], ◌∷◌,
  ◌++◌, length, take, arith, ◌==◌, if◌then◌else◌,
}
use telegram_s.Base.Bytes.{Bytes, codes}
use telegram_s.Base.Slices.{slice}
use telegram_s.Storage.{
  Error, fault, rpc, transport, Result, ok, err, Chunk, ChunkRef, IsChunkMap, total_size,
}
use telegram_s.Mtproto.Api.{Telegram, updates, new_channel_message}
use telegram_s.Cache.{Cache, get, sweep, get-sweep}
use telegram_s.Mtproto.Pool.{Remote, pick}
use telegram_s.Mtproto.Response.{extract_message_id, inspect_document_size}
use telegram_s.Mtproto.Split.{Body, copy_limit}
use telegram_s.Mtproto.Upload.{Options, upload_chunk, verify_uploaded_size, upload_body}
use telegram_s.Mtproto.Upload.Stored.{upload_body-Stored, AreStored}
use telegram_s.Mtproto.Upload.Keeps.{upload_body-keeps}
use telegram_s.Mtproto.Delete.{delete_batch}
use telegram_s.Mtproto.Delete.Windows.{mentioned, content-delete_batch}
use telegram_s.Mtproto.Retry.{is_type, new_retry, handle, handle-Handled, Handled}
use telegram_s.Mtproto.Fetch.{
  Session, download_via_bot, with_fallback, fetch_location, find_location, is_membership_error,
}
use telegram_s.Mtproto.Fetch.Located.{Ready, download_via_bot-slice}
use telegram_s.Mtproto.Fetch.Fallback.{with_fallback-Brings}
use telegram_s.Tests.Channel.{Channel, memory, memory_laws, doc}

abbrev options : Options
options = record { bots = 2; chunk_size = 3; visit = λ gs. gs; filename = λ name seq. name }

abbrev body : Body
body = record { bytes = codes "hello!"; error = none }

abbrev remote : Remote Channel
remote = record { channel = some (codes "old") ∷ []; stream_idx = 0; upload_idx = 1 }

abbrev uploaded : Result (List Chunk) × Remote Channel
uploaded = upload_body memory options (codes "k") [] body remote

abbrev chunks_of : Result (List Chunk) → List Chunk
chunks_of (ok cs) = cs
chunks_of (err e) = []

upload_ok : uploaded.0 ≡ ok (chunks_of uploaded.0)
unfolding upload_body copy_limit upload_chunk extract_message_id verify_uploaded_size pick
    inspect_document_size
upload_ok = refl

upload_body-Stored_example :
    (body.error ≡ none)
    × (6 ≡ total_size (chunks_of uploaded.0))
    × IsChunkMap 0 0 (chunks_of uploaded.0)
    × AreStored memory memory_laws 3 (codes "hello!") uploaded.1.channel (chunks_of uploaded.0)
upload_body-Stored_example =
    upload_body-Stored memory memory_laws options (codes "k") [] body remote uploaded.1
      (chunks_of uploaded.0) (omega arith) (λ i. (upload_ok i, uploaded.1))

upload_body-keeps_example : doc uploaded.1.channel 0 ≡ some (codes "old")
upload_body-keeps_example =
    upload_body-keeps memory memory_laws options (codes "k") [] body remote 0 (codes "old")
      (λ gs p. refl) refl

abbrev old_ref : ChunkRef
old_ref = record { transport = codes "mtproto"; bot_file_id = []; message_id = 0; bot_index = 5 }

content-delete_batch_example :
    (mentioned 0 (old_ref ∷ []) ≡ false
      → doc (delete_batch memory 2 (λ gs. gs) (old_ref ∷ []) remote).1.channel 0
        ≡ doc remote.channel 0)
    × ((delete_batch memory 2 (λ gs. gs) (old_ref ∷ []) remote).0 ≡ none
        → mentioned 0 (old_ref ∷ []) ≡ true
        → doc (delete_batch memory 2 (λ gs. gs) (old_ref ∷ []) remote).1.channel 0 ≡ none)
content-delete_batch_example =
    content-delete_batch memory memory_laws 2 (λ gs. gs) (old_ref ∷ []) remote 0 (λ gs p. refl)

-- Two failures that are retried, and then the answer.
abbrev flaky : ℕ → Result ℕ
flaky zero = err (rpc (codes "RPC_CALL_FAIL"))
flaky (suc zero) = err (rpc (codes "Timedout"))
flaky (suc (suc n)) = ok n

handle-Handled_example : Handled (new_retry 5 []) flaky (handle (new_retry 5 []) flaky)
unfolding new_retry
handle-Handled_example = handle-Handled (new_retry 5 []) flaky (omega arith)

abbrev session : Session Channel
session = record {
  now = 5;
  loc_cache = record { items = λ k. none; default_ttl = 30 };
  remote = remote;
}

session-Ready : Ready memory 0 1 (codes "old") 3 session
unfolding fetch_location find_location get
session-Ready = ((0, refl, λ cur aligned. ground arith), tt)

download_via_bot-slice_example :
    (download_via_bot memory 1 0 1 3 session).0 ≡ ok (slice 1 (min 3 3) (codes "old"))
download_via_bot-slice_example =
    download_via_bot-slice memory 0 1 (codes "old") 3 1 (omega arith) (omega arith) session
      session-Ready

-- Bot 1 brings the bytes, every other bot a timeout.
abbrev one_bot : ℕ → ℕ → Result Bytes × ℕ
one_bot bot s = (if bot == 1 then ok (codes "x") else err (transport 1), s + 1)

one_bot_tries :
    (bot s : ℕ)
    → Unit {0}
    → Unit {0}
      × (((one_bot bot s).0 ≡ ok (codes "x"))
          ⊎ ((e : Error) × ((one_bot bot s).0 ≡ err e) × (is_membership_error e ≡ false)))
unfolding is_membership_error is_type
one_bot_tries bot s u = (tt, either (bot == 1))
  where
    either :
        (b : Bool)
        → ((if b then ok (codes "x") else err (transport 1)) ≡ ok (codes "x"))
          ⊎ ((e : Error) × ((if b then ok (codes "x") else err (transport 1)) ≡ err e)
              × (is_membership_error e ≡ false))
    either true = inl refl
    either false = inr (transport 1, refl, refl)

with_fallback-Brings_example : (with_fallback one_bot 3 2 0).0 ≡ ok (codes "x")
with_fallback-Brings_example =
    with_fallback-Brings one_bot (codes "x") (λ s. Unit {0}) 3 2 1 0 one_bot_tries (λ s u. refl)
      (omega arith) tt

abbrev cache : Cache ℕ ℕ
cache = record { items = λ k. some (record { value = k; expires_at = 10 }); default_ttl = 30 }

get-sweep_example :
    ((get (λ a b. a == b) 12 4 (sweep (λ a b. a == b) 11 cache)).0
      ≡ (get (λ a b. a == b) 12 4 cache).0)
    × ((get (λ a b. a == b) 12 4 (get (λ a b. a == b) 11 7 cache).1).0
        ≡ (get (λ a b. a == b) 12 4 cache).0)
get-sweep_example = get-sweep (λ a b. a == b) 11 12 4 7 cache (omega arith)

-- A channel that acknowledges every document and keeps two bytes of it: the check of the size finds
-- it out, and the message is deleted.
abbrev lossy : Telegram
lossy = record memory {
  send_document = λ c bot name content_type body.
      (ok (updates (new_channel_message (some (length c)) ∷ [])), c ++ some (take 2 body) ∷ []);
}

lossy_upload : upload_chunk lossy [] 0 [] [] (codes "hello") ≡ (err (fault 4), none ∷ [])
unfolding upload_chunk extract_message_id verify_uploaded_size inspect_document_size
lossy_upload = refl

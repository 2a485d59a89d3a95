-- ===== src/Mtproto/Fetch.antt =====
-- internal/storage/telegram/mtproto/download.go: the read of a range of one message.
pub mod Range
pub mod Located
pub mod Fallback
use telegram_s.Base.{
  ℕ, zero, suc, ◌+◌, ◌-◌, ◌%◌, ◌^◌, Bool, true, false, ◌&&◌, Option, none, some, List, [], ◌∷◌,
  ◌++◌, ltb, leb, ◌==◌, if◌then◌else◌, length, take, drop,
}
use telegram_s.Base.Bytes.{Bytes, codes}
use telegram_s.Base.Int.{ℤ, pos, negsuc, max_int64}
use telegram_s.Storage.{Error, fault, exhausted, Result, ok, err, ChunkRef}
use telegram_s.Cache.{Cache, get, set, delete}
use telegram_s.Mtproto.Api.{
  Telegram, Message, message, Messages, not_modified, modified, document, empty_document,
  other_media, FileResponse, file, cdn_redirect,
}
use telegram_s.Mtproto.Pool.{Remote, pick, at, stream}
use telegram_s.Mtproto.Retry.{is_type}

abbrev pub mtproto_download_chunk : ℕ
mtproto_download_chunk = 2 ^ 20

pub record DocLocationKey : Type 0 where
  pub message_id : ℕ
  pub bot_index : ℕ

abbrev pub same_key : DocLocationKey → DocLocationKey → Bool
same_key a b = a.message_id == b.message_id && a.bot_index == b.bot_index

unfoldable pub is_membership_error : Error → Bool
is_membership_error e =
    is_type e (codes "CHANNEL_PRIVATE" ∷ codes "CHAT_FORBIDDEN" ∷ codes "CHANNEL_INVALID" ∷ [])

-- FILE_REFERENCE_EXPIRED or FILE_REFERENCE_INVALID
unfoldable pub is_stale : Error → Bool
is_stale e = is_type e (codes "FILE_REFERENCE_EXPIRED" ∷ codes "FILE_REFERENCE_INVALID" ∷ [])

-- One response inside the loop of `fetchRange`: the bytes before it, and what the next rounds do.
unfoldable pub received :
    (ℕ → Bytes → Result Bytes) → ℕ → Bytes → Result FileResponse → Result Bytes
received next cur out (err e) = err e
received next cur out (ok cdn_redirect) = err (fault 0)
received next cur out (ok (file [])) = ok out
received next cur out (ok (file (b ∷ bs))) =
    if ltb (length (b ∷ bs)) mtproto_download_chunk
    then ok (out ++ b ∷ bs)
    else next (cur + length (b ∷ bs)) (out ++ b ∷ bs)

-- The loop; `get cur` is the response to the call at `cur`. Each round that goes on adds at least
-- one byte.
unfoldable pub fetch_rounds : ℕ → (ℕ → Result FileResponse) → ℕ → ℕ → Bytes → Result Bytes
unfolding received
fetch_rounds zero get end cur out = err exhausted
fetch_rounds (suc fuel) get end cur out = elim (ltb cur end) [
  | true ↦ received (fetch_rounds fuel get end) cur out (get cur)
  | false ↦ ok out
]

-- The cuts at both ends.
unfoldable pub trim_range : ℕ → ℕ → ℕ → Bytes → Bytes
trim_range offset aligned_start end full =
    if leb (length full) (offset - aligned_start)
    then []
    else if ltb end max_int64
    then take (end - offset) (drop (offset - aligned_start) full)
    else drop (offset - aligned_start) full

trimmed : ℕ → ℕ → ℕ → Result Bytes → Result Bytes
unfolding trim_range
trimmed offset aligned_start end (err e) = err e
trimmed offset aligned_start end (ok full) = ok (trim_range offset aligned_start end full)

-- fetchRange
unfoldable pub fetch_range : (ℕ → Result FileResponse) → ℕ → ℕ → Result Bytes
unfolding fetch_rounds trimmed
fetch_range get offset end =
    let aligned_start = offset - offset % mtproto_download_chunk in
    trimmed offset aligned_start end
      (fetch_rounds (end - aligned_start + 1) get end aligned_start [])

-- The first message of the answer that is the one asked for.
unfoldable pub find_location : ℕ → List Message → Result ℕ
find_location id [] = err (fault 1)
find_location id (message m media ∷ ms) =
    let rest = find_location id ms in
    if m == id
    then elim media [
      | document size location ↦ ok location
      | empty_document ↦ err (fault 2)
      | other_media ↦ err (fault 3)
    ]
    else rest
find_location id (_ ∷ ms) = find_location id ms

abbrev answered : ℕ → Result Messages → Result ℕ
answered id (err e) = err e
answered id (ok not_modified) = err (fault 4)
answered id (ok (modified ms)) = find_location id ms

-- What a download reads and changes: the locations found so far, and the counters of the pool. One
-- download takes place at one reading of the clock.
pub record Session (C : Type 0) : Type 0 where
  pub now : ℕ
  pub loc_cache : Cache DocLocationKey ℕ
  pub remote : Remote C

module _ (t : Telegram) where
  open t use {Channel, get_messages, get_file}

  -- fetchLocation
  unfoldable pub fetch_location : Channel → ℕ → ℕ → Result ℕ
  fetch_location c bot id = answered id (get_messages c bot id)

  stored_location : DocLocationKey → Session Channel → Result ℕ → Result ℕ × Session Channel
  stored_location key s (err e) = (err e, s)
  stored_location key s (ok location) =
      (ok location, record s { loc_cache = set same_key s.now key location 0 s.loc_cache })

  cached_or : DocLocationKey → Session Channel → Option ℕ → Result ℕ × Session Channel
  unfolding stored_location fetch_location
  cached_or key s (some location) = (ok location, s)
  cached_or key s none =
      stored_location key s (fetch_location s.remote.channel key.bot_index key.message_id)

  -- resolveLocation
  unfoldable pub resolve_location : ℕ → ℕ → Session Channel → Result ℕ × Session Channel
  unfolding cached_or
  resolve_location bot id s =
      let key : DocLocationKey = record { message_id = id; bot_index = bot } in
      let hit = get same_key s.now key s.loc_cache in
      cached_or key (record s { loc_cache = hit.1 }) hit.0

  fetch_from : ℕ → ℕ → ℕ → Result ℕ × Session Channel → Result Bytes × Session Channel
  fetch_from bot offset end (err e, s) = (err e, s)
  fetch_from bot offset end (ok location, s) = (
    fetch_range (λ cur. get_file s.remote.channel bot location cur mtproto_download_chunk) offset
        end,
    s,
  )

  -- A stale reference is dropped, found again, and tried once more.
  retry_stale : ℕ → ℕ → ℕ → ℕ → Result Bytes × Session Channel → Result Bytes × Session Channel
  unfolding fetch_from
  retry_stale bot id offset end (ok body, s) = (ok body, s)
  retry_stale bot id offset end (err e, s) = elim (is_stale e) [
    | false ↦ (err e, s)
    | true ↦ fetch_from bot offset end (
        resolve_location bot id (record s {
          loc_cache = delete same_key (record { message_id = id; bot_index = bot }) s.loc_cache;
        }))
  ]

  after_location : ℕ → ℕ → ℕ → ℕ → Result ℕ × Session Channel → Result Bytes × Session Channel
  unfolding retry_stale
  after_location bot id offset end (err e, s) = (err e, s)
  after_location bot id offset end (ok location, s) =
      retry_stale bot id offset end (fetch_from bot offset end (ok location, s))

  -- downloadViaBot
  unfoldable pub download_via_bot : ℕ → ℕ → ℕ → ℕ → Session Channel → Result Bytes × Session Channel
  unfolding after_location resolve_location
  download_via_bot bot id offset end s =
      after_location bot id offset end (resolve_location bot id s)

-- The fallback over the other bots, for whatever a try with one bot is.
module _ {S : Type 0} (via : ℕ → S → Result Bytes × S) where
  -- What follows a try: the bytes, an error that every bot would meet, or the next bot.
  unfoldable pub tried : (Error → S → Result Bytes × S) → Result Bytes × S → Result Bytes × S
  tried next (ok body, s) = (ok body, s)
  tried next (err e, s) = elim (is_membership_error e) [ true ↦ (err e, s) | false ↦ next e s ]

  -- `i` counts up to the size of the pool, `left` down.
  unfoldable pub fall_back : ℕ → ℕ → ℕ → Error → S → Result Bytes × S
  unfolding tried
  fall_back zero i primary last_err s = (err last_err, s)
  fall_back (suc left) i primary last_err s = elim (i == primary) [
    | true ↦ fall_back left (i + 1) primary last_err s
    | false ↦ tried (fall_back left (i + 1) primary) (via i s)
  ]

  -- The bot of the row first, then the others in order.
  unfoldable pub with_fallback : ℕ → ℕ → S → Result Bytes × S
  unfolding fall_back
  with_fallback bots primary s = tried (fall_back bots 0 primary) (via primary s)

module _ (t : Telegram) (bots : ℕ) where
  primary_of : Option ℕ → Session (Telegram.Channel t) → ℕ × Session (Telegram.Channel t)
  unfolding pick
  primary_of (some bot) s = (bot, s)
  primary_of none s = let (bot, r) = pick bots stream s.remote in (bot, record s { remote = r })

  end_of : ℕ → ℤ → ℕ
  end_of offset (pos zero) = max_int64
  end_of offset (pos (suc n)) = offset + suc n
  end_of offset (negsuc n) = max_int64

  download_with :
      ChunkRef
      → ℕ
      → ℤ
      → ℕ × Session (Telegram.Channel t)
      → Result Bytes × Session (Telegram.Channel t)
  unfolding with_fallback download_via_bot end_of
  download_with ref offset length (primary, s) =
      with_fallback (λ bot. download_via_bot t bot ref.message_id offset (end_of offset length))
        bots primary s

  -- DownloadRange; a length that is not positive reads to the end.
  unfoldable pub download_range :
      ChunkRef → ℤ → ℤ → Session (Telegram.Channel t) → Result Bytes × Session (Telegram.Channel t)
  unfolding download_with primary_of
  download_range ref (negsuc n) length s = (err (fault 5), s)
  download_range ref (pos offset) length s =
      download_with ref offset length (primary_of (at bots ref.bot_index) s)

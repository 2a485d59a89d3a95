-- ===== src/Mtproto/Fetch/Located.antt =====
-- The locations that a download finds: from the cache, from the channel, and again when the cached
-- one is stale.
use telegram_s.Base.{
  ℕ, ◌-◌, ◌%◌, ◌<◌, min, ◌≡◌, refl, sym, ap, ◌∙◌, ◌⊎◌, inl, inr, true, Option, none, some, arith,
  length,
}
use mathlib.Core.Path.{subst}
use telegram_s.Base.Bytes.{Bytes}
use telegram_s.Base.Int.{max_int64}
use telegram_s.Base.Slices.{slice}
use telegram_s.Storage.{Error, Result, ok, err}
use telegram_s.Cache.{get, delete, get-delete}
use telegram_s.Mtproto.Api.{Telegram}
use telegram_s.Mtproto.Fetch.{
  DocLocationKey, Session, same_key, mtproto_download_chunk, is_stale, fetch_location,
  stored_location, cached_or, resolve_location, fetch_from, retry_stale, after_location,
  download_via_bot, fetch_range,
}
use telegram_s.Mtproto.Fetch.Range.{ServesFile, fetch_range-slice, fetch_range-err}

-- One message that holds the document `d`, and the bot that reads it.
module _ (t : Telegram) (id bot : ℕ) (d : Bytes) (end : ℕ) where
  open t use {Channel, get_messages, get_file}

  -- The location serves the document.
  abbrev pub Good : Channel → ℕ → Type 0
  Good c location = ServesFile (λ cur. get_file c bot location cur mtproto_download_chunk) d

  -- The location's file reference has gone stale.
  abbrev pub Stale : Channel → ℕ → Type 0
  Stale c location =
      (cur : ℕ)
      → (e : Error) × (get_file c bot location cur mtproto_download_chunk ≡ err e)
        × (is_stale e ≡ true)

  abbrev pub Held : Option ℕ → Channel → Type 0
  Held none c = Unit
  Held (some location) c = Good c location ⊎ Stale c location

  -- The channel tells a location that serves the document, and the cache has none, or one that
  -- served it once.
  abbrev pub Ready : Session Channel → Type 0
  Ready s =
      ((location : ℕ) × (fetch_location t s.remote.channel bot id ≡ ok location)
        × Good s.remote.channel location)
      × Held (get same_key s.now (record { message_id = id; bot_index = bot }) s.loc_cache).0
          s.remote.channel

  abbrev key : DocLocationKey
  key = record { message_id = id; bot_index = bot }

  cached_or-miss :
      (s : Session Channel) (o : Option ℕ) (location : ℕ)
      → o ≡ none
      → fetch_location t s.remote.channel bot id ≡ ok location
      → ((cached_or t key s o).0 ≡ ok location) × ((cached_or t key s o).1.remote ≡ s.remote)
  unfolding cached_or stored_location
  cached_or-miss s none location m f = rw f (refl, refl)
  cached_or-miss s (some l) location m f = absurd (ground arith)

  resolve-miss :
      (s : Session Channel) (location : ℕ)
      → (get same_key s.now key s.loc_cache).0 ≡ none
      → fetch_location t s.remote.channel bot id ≡ ok location
      → ((resolve_location t bot id s).0 ≡ ok location)
        × ((resolve_location t bot id s).1.remote ≡ s.remote)
  unfolding resolve_location
  resolve-miss s location m f =
      cached_or-miss (record s { loc_cache = (get same_key s.now key s.loc_cache).1 })
        (get same_key s.now key s.loc_cache).0 location m f

  cached_or-hit :
      (s : Session Channel) (o : Option ℕ) (location : ℕ)
      → o ≡ some location
      → cached_or t key s o ≡ (ok location, s)
  unfolding cached_or
  cached_or-hit s none location h = absurd (ground arith)
  cached_or-hit s (some l) location h = ground arith

  get-deleted :
      (s : Session Channel) → (get same_key s.now key (delete same_key key s.loc_cache)).0 ≡ none
  get-deleted s = get-delete same_key s.now key s.loc_cache (ground arith)

  module _ (offset : ℕ) (ahead : offset < end) (fits : length d < max_int64) where
    fetch-Good :
        (s : Session Channel) (a : Result ℕ × Session Channel) (location : ℕ)
        → a.0 ≡ ok location
        → a.1.remote ≡ s.remote
        → Good s.remote.channel location
        → (fetch_from t bot offset end a).0 ≡ ok (slice offset (min end (length d)) d)
    unfolding fetch_from
    fetch-Good s (err e, s1) location h r good = absurd (ground arith)
    fetch-Good s (ok l, s1) location h r good =
        let same : l ≡ location = ground arith in
        ap
          (λ l.
            fetch_range (λ cur. get_file s1.remote.channel bot l cur mtproto_download_chunk) offset
              end)
          same
        ∙ ap
            (λ m.
              fetch_range (λ cur. get_file m.channel bot location cur mtproto_download_chunk) offset
                end)
            r
        ∙ fetch_range-slice
            (λ cur. get_file s.remote.channel bot location cur mtproto_download_chunk) d good offset
            end fits

    fetch-Stale :
        (c : Channel) (location : ℕ)
        → Stale c location
        → (e : Error) × (fetch_range
              (λ cur. get_file c bot location cur mtproto_download_chunk)
              offset
              end
            ≡ err e)
          × (is_stale e ≡ true)
    fetch-Stale c location stale =
        let (e, failed, expired) = stale (offset - offset % mtproto_download_chunk) in
        (
          e,
          fetch_range-err (λ cur. get_file c bot location cur mtproto_download_chunk) offset end e
              ahead failed,
          expired,
        )

    retry_fine :
        (a : Result Bytes × Session Channel) (body : Bytes)
        → a.0 ≡ ok body
        → (retry_stale t bot id offset end a).0 ≡ ok body
    unfolding retry_stale
    retry_fine (ok b, s) body h = h
    retry_fine (err e, s) body h = absurd (ground arith)

    retry_again :
        (s : Session Channel) (e : Error)
        → is_stale e ≡ true
        → retry_stale t bot id offset end (err e, s)
          ≡ fetch_from t bot offset end
              (resolve_location t bot id (record s { loc_cache = delete same_key key s.loc_cache }))
    unfolding retry_stale
    retry_again s e h = ground arith

    after_some :
        (a : Result ℕ × Session Channel) (location : ℕ)
        → a.0 ≡ ok location
        → after_location t bot id offset end a
          ≡ retry_stale t bot id offset end (fetch_from t bot offset end a)
    unfolding after_location
    after_some (ok l, s) location h = refl
    after_some (err e, s) location h = absurd (ground arith)

    retry_dropped :
        (s : Session Channel) (cached location : ℕ)
        → Stale s.remote.channel cached
        → fetch_location t s.remote.channel bot id ≡ ok location
        → Good s.remote.channel location
        → (retry_stale t bot id offset end (fetch_from t bot offset end (ok cached, s))).0
          ≡ ok (slice offset (min end (length d)) d)
    unfolding fetch_from
    retry_dropped s cached location stale f good =
        let (e, failed, expired) = fetch-Stale s.remote.channel cached stale in
        let s1 : Session Channel = record s { loc_cache = delete same_key key s.loc_cache } in
        let (found, same) = resolve-miss s1 location (get-deleted s) f in
        ap (λ r. (retry_stale t bot id offset end (r, s)).0) failed
        ∙ ap (λ a. a.0) (retry_again s e expired)
        ∙ fetch-Good s (resolve_location t bot id s1) location found same good

    via_cached :
        (s s1 : Session Channel) (cached : Option ℕ)
        → s1.remote ≡ s.remote
        → Held cached s.remote.channel
        → (location : ℕ) → fetch_location t s.remote.channel bot id ≡ ok location
        → Good s.remote.channel location
        → (after_location t bot id offset end (cached_or t key s1 cached)).0
          ≡ ok (slice offset (min end (length d)) d)
    via_cached s s1 none same held location f good =
        let f1 = ap (λ r. fetch_location t r.channel bot id) same ∙ f in
        let (found, kept) = cached_or-miss s1 none location refl f1 in
        ap (λ a. a.0) (after_some (cached_or t key s1 none) location found)
        ∙ retry_fine (fetch_from t bot offset end (cached_or t key s1 none))
            (slice offset (min end (length d)) d)
            (fetch-Good s (cached_or t key s1 none) location found (kept ∙ same) good)
    via_cached s s1 (some l) same (inl fine) location f good =
        ap (λ a. (after_location t bot id offset end a).0) (cached_or-hit s1 (some l) l refl)
        ∙ ap (λ a. a.0) (after_some (ok l, s1) l refl)
        ∙ retry_fine (fetch_from t bot offset end (ok l, s1)) (slice offset (min end (length d)) d)
            (fetch-Good s (ok l, s1) l refl same fine)
    via_cached s s1 (some l) same (inr stale) location f good =
        ap (λ a. (after_location t bot id offset end a).0) (cached_or-hit s1 (some l) l refl)
        ∙ ap (λ a. a.0) (after_some (ok l, s1) l refl)
        ∙ retry_dropped s1 l location (subst (λ r. Stale r.channel l) (sym same) stale)
            (ap (λ r. fetch_location t r.channel bot id) same ∙ f)
            (subst (λ r. Good r.channel location) (sym same) good)

    -- For a range that is not empty, a document below the greatest int64, and a message for which the
    -- channel tells a location that serves the document: a try with the bot brings the range, cut off
    -- at the end of the document, whether the cache has no location, one that serves the document, or
    -- one whose file reference is stale. A location serves the document if it answers at the offsets
    -- that are multiples of the limit; of its answers at other offsets nothing is assumed.
    pub download_via_bot-slice :
        (s : Session Channel)
        → Ready s
        → (download_via_bot t bot id offset end s).0 ≡ ok (slice offset (min end (length d)) d)
    unfolding download_via_bot resolve_location
    download_via_bot-slice s ((location, f, good), held) =
        via_cached s (record s { loc_cache = (get same_key s.now key s.loc_cache).1 })
          (get same_key s.now key s.loc_cache).0 refl held location f good

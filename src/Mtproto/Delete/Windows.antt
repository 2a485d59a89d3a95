-- ===== src/Mtproto/Delete/Windows.antt =====
-- Deletion in windows of at most 100 ids, and what a batch removes.
use telegram_s.Base.{
  ℕ, zero, suc, ◌≤◌, ◌<◌, ◌≡◌, refl, sym, ap, ◌∙◌, inl, inr, Bool, true, false, ◌||◌, Bool-cases,
  Option, none, some, List, [], ◌∷◌, ◌++◌, arith, ◌==◌, length, take, drop, any, All, length-take,
  length-drop, take-append-drop,
}
use telegram_s.Storage.{Error, ChunkRef}
use telegram_s.Mtproto.Api.{Telegram}
use telegram_s.Mtproto.Laws.{TelegramLaws, listed}
use telegram_s.Mtproto.Pool.{Remote, at, pick, stream}
use telegram_s.Mtproto.Delete.{
  delete_batch_size, windows, first_error, BotBatch, add_id, delete_windows, delete_for_bot, route,
  group, delete_groups, delete_batch,
}

abbrev pub joined : List (List ℕ) → List ℕ
joined [] = []
joined (w ∷ ws) = w ++ joined ws

abbrev pub Fits : List ℕ → Type 0
Fits w = (0 < length w) × (length w ≤ delete_batch_size)

-- The windows are the ids cut up in order, and each call deletes between 1 and 100 messages.
pub windows_cut :
    (fuel : ℕ) (ids : List ℕ)
    → length ids ≤ fuel
    → (joined (windows fuel ids) ≡ ids) × All Fits (windows fuel ids)
unfolding windows
windows_cut zero [] h = (refl, tt)
windows_cut zero (id ∷ ids) h = absurd (omega arith)
windows_cut (suc fuel) [] h = (refl, tt)
windows_cut (suc fuel) (id ∷ ids) h =
    let size = length-take delete_batch_size (id ∷ ids) in
    let left = length-drop delete_batch_size (id ∷ ids) in
    let (cut, fits) = windows_cut fuel (drop delete_batch_size (id ∷ ids)) (omega arith) in
    (
      ap (λ l. take delete_batch_size (id ∷ ids) ++ l) cut
          ∙ take-append-drop delete_batch_size (id ∷ ids),
      ((omega arith, omega arith), fits),
    )

any-append {ℓ} :
    {A : Type ℓ} (p : A → Bool) (xs ys : List A) → any p (xs ++ ys) ≡ any p xs || any p ys
any-append p [] ys = refl
any-append p (x ∷ xs) ys = ground (arith, any-append p xs ys)

listed-joined : (j : ℕ) (ws : List (List ℕ)) → listed j (joined ws) ≡ any (listed j) ws
listed-joined j [] = refl
listed-joined j (w ∷ ws) =
    any-append (λ i. i == j) w (joined ws) ∙ ground (arith, listed-joined j ws)

listed-windows : (j : ℕ) (ids : List ℕ) → any (listed j) (windows (length ids) ids) ≡ listed j ids
listed-windows j ids =
    sym (listed-joined j (windows (length ids) ids))
    ∙ ap (listed j) (windows_cut (length ids) ids (omega arith)).0

-- The id is in one of the batches; some reference names the message.
abbrev pub batched : ℕ → List BotBatch → Bool
batched j = any (λ b. listed j b.ids)

abbrev pub mentioned : ℕ → List ChunkRef → Bool
mentioned j = any (λ ref. ref.message_id == j)

batched-add_id :
    (j bot id : ℕ) (groups : List BotBatch)
    → batched j (add_id bot id groups) ≡ (id == j) || batched j groups
unfolding add_id
batched-add_id j bot id [] = ground arith
batched-add_id j bot id (b ∷ bs) =
    ground (arith, any-append (λ i. i == j) b.ids (id ∷ []), batched-add_id j bot id bs)

module _ (t : Telegram) (bots : ℕ) where
  batched-group :
      (j : ℕ) (refs : List ChunkRef) (r : Remote (Telegram.Channel t)) (groups : List BotBatch)
      → batched j (group t bots refs r groups).0 ≡ mentioned j refs || batched j groups
  unfolding group
  batched-group j [] r groups = refl
  batched-group j (ref ∷ refs) r groups =
      batched-group j refs _ (add_id _ ref.message_id groups)
      ∙ ground (arith, batched-add_id j (route t bots ref r).0 ref.message_id groups)

  channel-route :
      (ref : ChunkRef) (r : Remote (Telegram.Channel t))
      → (route t bots ref r).1.channel ≡ r.channel
  unfolding route
  channel-route ref r = option_cases (at bots ref.bot_index)
    where
      option_cases :
          (o : Option ℕ)
          → (elim o as (λ x. ℕ × Remote (Telegram.Channel t)) [
            | some i ↦ (i, r)
            | none ↦ pick bots stream r
          ]).1.channel
            ≡ r.channel
      option_cases none = unfold pick in refl
      option_cases (some i) = refl

  channel-group :
      (refs : List ChunkRef) (r : Remote (Telegram.Channel t)) (groups : List BotBatch)
      → (group t bots refs r groups).1.channel ≡ r.channel
  unfolding group
  channel-group [] r groups = refl
  channel-group (ref ∷ refs) r groups =
      channel-group refs (route t bots ref r).1 _ ∙ channel-route ref r

no_first_error : (e later : Option Error) → first_error e later ≡ none → (e ≡ none) × (later ≡ none)
no_first_error none later h = (refl, h)
no_first_error (some e) later h = cc

module _ (t : Telegram) (laws : TelegramLaws t) (j : ℕ) where
  open t use {Channel, delete_messages}
  open laws use {content, deleted, stays_deleted, untouched}

  delete_windows-stays :
      (ws : List (List ℕ)) (c : Channel) (bot : ℕ)
      → content c j ≡ none
      → content (delete_windows t c bot ws).1 j ≡ none
  unfolding delete_windows
  delete_windows-stays [] c bot h = h
  delete_windows-stays (w ∷ ws) c bot h = delete_windows-stays ws _ bot (stays_deleted c bot w j h)

  delete_windows-same :
      (ws : List (List ℕ)) (c : Channel) (bot : ℕ)
      → any (listed j) ws ≡ false
      → content (delete_windows t c bot ws).1 j ≡ content c j
  unfolding delete_windows
  delete_windows-same [] c bot h = refl
  delete_windows-same (w ∷ ws) c bot h =
      delete_windows-same ws _ bot (ground arith) ∙ untouched c bot w j (ground arith)

  delete_windows-gone :
      (ws : List (List ℕ)) (c : Channel) (bot : ℕ)
      → (delete_windows t c bot ws).0 ≡ none
      → any (listed j) ws ≡ true
      → content (delete_windows t c bot ws).1 j ≡ none
  unfolding delete_windows
  delete_windows-gone [] c bot e h = cc
  delete_windows-gone (w ∷ ws) c bot e h =
      let answer = delete_messages c bot w in
      let (fine, later) = no_first_error answer.0 (delete_windows t answer.1 bot ws).0 e in
      elim (Bool-cases (listed j w)) [
        | inl now ↦
            delete_windows-stays ws answer.1 bot
              (deleted c answer.1 bot w j (λ i. (fine i, answer.1)) now)
        | inr not_now ↦ delete_windows-gone ws answer.1 bot later (ground arith)
      ]

  -- The same for the batches of all bots.
  delete_groups-stays :
      (gs : List BotBatch) (c : Channel)
      → content c j ≡ none
      → content (delete_groups t c gs).1 j ≡ none
  unfolding delete_groups delete_for_bot
  delete_groups-stays [] c h = h
  delete_groups-stays (g ∷ gs) c h =
      delete_groups-stays gs _ (delete_windows-stays (windows (length g.ids) g.ids) c g.bot h)

  delete_groups-same :
      (gs : List BotBatch) (c : Channel)
      → batched j gs ≡ false
      → content (delete_groups t c gs).1 j ≡ content c j
  unfolding delete_groups delete_for_bot
  delete_groups-same [] c h = refl
  delete_groups-same (g ∷ gs) c h =
      delete_groups-same gs _ (ground arith)
      ∙ delete_windows-same (windows (length g.ids) g.ids) c g.bot
          (listed-windows j g.ids ∙ ground arith)

  delete_groups-gone :
      (gs : List BotBatch) (c : Channel)
      → (delete_groups t c gs).0 ≡ none
      → batched j gs ≡ true
      → content (delete_groups t c gs).1 j ≡ none
  unfolding delete_groups delete_for_bot
  delete_groups-gone [] c e h = cc
  delete_groups-gone (g ∷ gs) c e h =
      let ws = windows (length g.ids) g.ids in
      let answer = delete_windows t c g.bot ws in
      let (fine, later) = no_first_error answer.0 (delete_groups t answer.1 gs).0 e in
      elim (Bool-cases (listed j g.ids)) [
        | inl now ↦
            delete_groups-stays gs answer.1
              (delete_windows-gone ws c g.bot fine (listed-windows j g.ids ∙ now))
        | inr not_now ↦ delete_groups-gone gs answer.1 later (ground arith)
      ]

-- A walk over the map meets the entries of the map, in whatever order.
abbrev pub Walks : (List BotBatch → List BotBatch) → Type 0
Walks visit = (gs : List BotBatch) (p : BotBatch → Bool) → any p (visit gs) ≡ any p gs

-- Whatever the order of the batches and the number of bots: a batch deletion leaves every message
-- that no reference names as it was, also when it reports an error, and when it reports none, every
-- message that a reference names is gone.
pub content-delete_batch :
    (t : Telegram) (laws : TelegramLaws t) (bots : ℕ) (visit : List BotBatch → List BotBatch)
    (refs : List ChunkRef) (r : Remote (Telegram.Channel t)) (j : ℕ)
    → Walks visit
    → (mentioned j refs ≡ false
        → TelegramLaws.content laws (delete_batch t bots visit refs r).1.channel j
          ≡ TelegramLaws.content laws r.channel j)
      × ((delete_batch t bots visit refs r).0 ≡ none
          → mentioned j refs ≡ true
          → TelegramLaws.content laws (delete_batch t bots visit refs r).1.channel j ≡ none)
unfolding delete_batch
content-delete_batch t laws bots visit refs r j walks =
    let g = group t bots refs r [] in
    let in_groups : batched j (visit g.0) ≡ mentioned j refs =
      walks g.0 (λ b. listed j b.ids) ∙ batched-group t bots j refs r [] ∙ ground arith in
    (
      λ h.
          delete_groups-same t laws j (visit g.0) g.1.channel (in_groups ∙ h)
          ∙ ap (λ c. TelegramLaws.content laws c j) (channel-group t bots refs r []),
      λ fine h. delete_groups-gone t laws j (visit g.0) g.1.channel fine (in_groups ∙ h),
    )

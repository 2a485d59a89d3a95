-- ===== src/Mtproto/Delete.antt =====
-- internal/storage/telegram/mtproto/delete.go: batched deletion.
pub mod Windows
use telegram_s.Base.{
  ℕ, zero, suc, ◌+◌, ◌-◌, Option, none, some, List, [], ◌∷◌, ◌++◌, ◌==◌, if◌then◌else◌, length,
  take, drop,
}
use telegram_s.Storage.{Error, ChunkRef}
use telegram_s.Mtproto.Api.{Telegram}
use telegram_s.Mtproto.Pool.{Remote, pick, at, stream}

abbrev pub delete_batch_size : ℕ
delete_batch_size = 100

-- ids[start:start+100], ids[start+100:...], ...; the fuel is the number of ids.
unfoldable pub windows : ℕ → List ℕ → List (List ℕ)
windows zero ids = []
windows (suc fuel) [] = []
windows (suc fuel) (id ∷ ids) =
    take delete_batch_size (id ∷ ids) ∷ windows fuel (drop delete_batch_size (id ∷ ids))

-- The first error of two calls.
abbrev pub first_error : Option Error → Option Error → Option Error
first_error (some e) later = some e
first_error none later = later

-- The ids of one bot, in the order of the references.
pub record BotBatch : Type 0 where
  pub bot : ℕ
  pub ids : List ℕ

add_id : ℕ → ℕ → List BotBatch → List BotBatch
add_id bot id [] = record { bot = bot; ids = id ∷ [] } ∷ []
add_id bot id (b ∷ bs) =
    let rest = add_id bot id bs in
    if b.bot == bot then record b { ids = b.ids ++ id ∷ [] } ∷ bs else b ∷ rest

module _ (t : Telegram) where
  open t use {Channel, delete_messages}

  delete_windows : Channel → ℕ → List (List ℕ) → Option Error × Channel
  delete_windows c bot [] = (none, c)
  delete_windows c bot (w ∷ ws) =
      let (e, c') = delete_messages c bot w in
      let (later, c'') = delete_windows c' bot ws in (first_error e later, c'')

  unfoldable pub delete_for_bot : Channel → ℕ → List ℕ → Option Error × Channel
  unfolding delete_windows windows
  delete_for_bot c bot ids = delete_windows c bot (windows (length ids) ids)

  pub delete_groups : Channel → List BotBatch → Option Error × Channel
  delete_groups c [] = (none, c)
  delete_groups c (g ∷ gs) =
      let (e, c') = delete_for_bot c g.bot g.ids in
      let (later, c'') = delete_groups c' gs in (first_error e later, c'')

module _ (t : Telegram) (bots : ℕ) where
  open t use {Channel}

  route : ChunkRef → Remote Channel → ℕ × Remote Channel
  route ref r = elim (at bots ref.bot_index) [ some i ↦ (i, r) | none ↦ pick bots stream r ]

  pub group : List ChunkRef → Remote Channel → List BotBatch → List BotBatch × Remote Channel
  unfolding route add_id
  group [] r groups = (groups, r)
  group (ref ∷ refs) r groups =
      let (i, r') = route ref r in group refs r' (add_id i ref.message_id groups)

  -- `visit` is the order in which the runtime walks the map of the batches.
  unfoldable pub delete_batch :
      (List BotBatch → List BotBatch)
      → List ChunkRef
      → Remote Channel
      → Option Error × Remote Channel
  unfolding group delete_groups
  delete_batch visit refs r =
      let (groups, r') = group refs r [] in
      let (e, c) = delete_groups t r'.channel (visit groups) in (e, record r' { channel = c })

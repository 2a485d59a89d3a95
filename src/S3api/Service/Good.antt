-- ===== src/S3api/Service/Good.antt =====
-- The invariant of the store and the channel between two requests, behind an upload that is not
-- recorded.
use mathlib.Core.Path.{subst}
use telegram_s.Base.{
  ℕ, ◌+◌, ◌≤◌, ◌≡◌, refl, sym, ap, inl, inr, false, Bool-cases, Option, some, List, [], ◌∷◌, ◌++◌,
  map, arith, All,
}
use telegram_s.Base.Bytes.{Bytes, is_empty}
use telegram_s.Storage.{Chunk, occurs, AreDistinct, IsChunkMap, total_size}
use telegram_s.Mtproto.Api.{Telegram}
use telegram_s.Mtproto.Laws.{TelegramLaws}
use telegram_s.Mtproto.Delete.Windows.{Walks}
use telegram_s.Mtproto.Pool.{Remote}
use telegram_s.Mtproto.Upload.{Options}
use telegram_s.Metadata.{Store, Object}
use telegram_s.Metadata.Objects.{view}
use telegram_s.Metadata.Rows.{AreNamed}
use telegram_s.Metadata.Table.{is_at, is_at-same}
use telegram_s.S3api.Write.{reap}
use telegram_s.S3api.Service.Live.{rows, IsLive, All-kept, All-reap, Fresh}

-- An object that is found has a chunk map without a gap, of its size.
abbrev pub MappedView : Option Object × List Chunk × List (Bytes × Bytes) → Type 0
MappedView v = (obj : Object) → v.0 ≡ some obj → IsChunkMap 0 0 v.1 × (obj.size ≡ total_size v.1)

abbrev pub IsMapped : Store → Type 0
IsMapped s = (b k : Bytes) → MappedView (view b k s)

-- A change of one object keeps the others.
pub IsMapped-changed :
    (bucket key : Bytes) (s s' : Store)
    → ((b k : Bytes) → is_at b k bucket key ≡ false → view b k s' ≡ view b k s)
    → MappedView (view bucket key s')
    → IsMapped s
    → IsMapped s'
IsMapped-changed bucket key s s' others here m b k = elim (Bool-cases (is_at b k bucket key)) [
  | inr other ↦ subst MappedView (sym (others b k other)) (m b k)
  | inl same ↦
      let (same_bucket, same_key) = is_at-same b k bucket key same in
      subst (λ x. MappedView (view x k s')) same_bucket
        (subst (λ y. MappedView (view bucket y s')) same_key here)
]

pub map-append :
    {A B : Type 0} (f : A → B) (xs ys : List A) → map f (xs ++ ys) ≡ map f xs ++ map f ys
map-append f [] ys = refl
map-append f (x ∷ xs) ys = ap (λ l. f x ∷ l) (map-append f xs ys)

module _ (t : Telegram) (laws : TelegramLaws t) (o : Options) (walks : Walks o.visit) where
  open laws use {content}

  pub record IsGood (s : Store) (r : Remote (Telegram.Channel t)) : Type 0 where
    pub live : All (IsLive t laws o walks r.channel) (rows s)
    pub distinct : AreDistinct (rows s)
    pub mapped : IsMapped s

  -- Nothing is recorded, and no document is lost.
  pub IsGood-kept :
      (s : Store) (r r' : Remote (Telegram.Channel t))
      → ((j : ℕ) (d : Bytes) → content r.channel j ≡ some d → content r'.channel j ≡ some d)
      → IsGood s r
      → IsGood s r'
  IsGood-kept s r r' keep g = record {
    live = All-kept t laws o walks r.channel r'.channel (rows s) keep g.live;
    distinct = g.distinct;
    mapped = g.mapped;
  }

  -- An upload that is not recorded is cleaned up.
  pub IsGood-refused :
      (s : Store) (r : Remote (Telegram.Channel t)) (payload : Bytes) (news : List Chunk)
      → Fresh t laws o walks s r.channel payload news
      → IsMapped s
      → IsGood s (reap t o news r)
  IsGood-refused s r payload news f m = record {
    live = All-reap t laws o walks news (rows s) r f.once f.live;
    distinct = λ j. (let b = f.once j in omega arith);
    mapped = m;
  }

  -- The rows change, and the clean-up is of messages that they do not name.
  pub IsGood-reaped :
      (s : Store) (r : Remote (Telegram.Channel t)) (olds : List Chunk)
      → All (IsLive t laws o walks r.channel) (rows s)
      → ((j : ℕ) → occurs j (rows s) + occurs j olds ≤ 1)
      → IsMapped s
      → IsGood s (reap t o olds r)
  IsGood-reaped s r olds live once m = record {
    live = All-reap t laws o walks olds (rows s) r once live;
    distinct = λ j. (let b = once j in omega arith);
    mapped = m;
  }

  pub All-AreNamed :
      (c : Telegram.Channel t) (cs : List Chunk) → All (IsLive t laws o walks c) cs → AreNamed cs
  All-AreNamed c [] h = tt
  All-AreNamed c (x ∷ cs) ((pos, le, by, d), hs) = (ap is_empty by, All-AreNamed c cs hs)

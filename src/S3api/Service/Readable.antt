-- ===== src/S3api/Service/Readable.antt =====
-- internal/s3api/handler.go: a GET behind any run of a gateway.
use mathlib.Core.Path.{subst}
use telegram_s.Base.{
  ℕ, ◌+◌, ◌<◌, ◌≡◌, refl, sym, ap, ◌∙◌, Option, some, List, [], ◌∷◌, ◌++◌, arith, length,
  length-append, All, take, drop, append_assoc,
}
use telegram_s.Base.Bytes.{Bytes}
use telegram_s.Base.Slices.{slice, take-append, drop-append}
use telegram_s.Storage.{Chunk, IsChunkMap, total_size}
use telegram_s.Reader.Source.{Download}
use telegram_s.Mtproto.Api.{Telegram}
use telegram_s.Mtproto.Laws.{TelegramLaws}
use telegram_s.Mtproto.Delete.Windows.{Walks}
use telegram_s.Mtproto.Pool.{Remote}
use telegram_s.Mtproto.Upload.{Options}
use telegram_s.Mtproto.Upload.Stored.{AreStored}
use telegram_s.Metadata.{Store, Object, empty_store, get_object, get_object_chunks}
use telegram_s.S3api.Conditions.{Headers, conditional_status}
use telegram_s.S3api.Read.{get_object_handler}
use telegram_s.S3api.Read.Served.{answer, asked, get_object_handler-content}
use telegram_s.S3api.Write.RoundTrip.{ReadsBack, Serves-stored}
use telegram_s.S3api.Service.{Gateway, Reach}
use telegram_s.S3api.Service.Live.{rows, object_rows, part_rows, All-split, All-filter, IsLive}
use telegram_s.S3api.Service.Good.{IsGood}
use telegram_s.S3api.Service.Completed.{All-order_by}
use telegram_s.S3api.Service.Invariant.{Reach-IsGood}

-- What stands between a prefix and a suffix.
slice-append : (u d w : Bytes) → slice (length u) (length u + length d) (u ++ (d ++ w)) ≡ d
slice-append u d w =
    ap (λ k. take k (drop (length u) (u ++ (d ++ w)))) (omega arith)
    ∙ ap (take (length d)) (drop-append u (d ++ w))
    ∙ take-append d w

module _ (t : Telegram) (laws : TelegramLaws t) (o : Options) (walks : Walks o.visit)
    (c : Telegram.Channel t) where
  -- The documents of live chunks, one behind another.
  joined : (cs : List Chunk) → All (IsLive t laws o walks c) cs → Bytes
  joined [] h = []
  joined (x ∷ cs) ((pos, le, by, (d, held, size)), hs) = d ++ joined cs hs

  length-joined :
      (cs : List Chunk) (h : All (IsLive t laws o walks c) cs)
      → length (joined cs h) ≡ total_size cs
  unfolding joined
  length-joined [] h = refl
  length-joined (x ∷ cs) ((pos, le, by, (d, held, size)), hs) =
      length-append d (joined cs hs)
      ∙ ap (λ n. n + length (joined cs hs)) size
      ∙ ap (λ n. x.size + n) (length-joined cs hs)

  joined-AreStored :
      (u : Bytes) (seq start : ℕ) (cs : List Chunk) (h : All (IsLive t laws o walks c) cs)
      → IsChunkMap seq start cs
      → length u ≡ start
      → AreStored t laws o.chunk_size (u ++ joined cs h) c cs
  unfolding joined
  joined-AreStored u seq start [] h m at = tt
  joined-AreStored u seq start (x ∷ cs) ((pos, le, by, (d, held, size)), hs) (n, off, m) at =
      let rest = joined cs hs in
      let here : slice x.offset (x.offset + x.size) (u ++ (d ++ rest)) ≡ d =
        ap (λ k. slice k (k + x.size) (u ++ (d ++ rest))) (off ∙ sym at)
        ∙ ap (λ k. slice (length u) (length u + k) (u ++ (d ++ rest))) (sym size)
        ∙ slice-append u d rest in
      (
        (pos, le, by, held ∙ ap some (sym here)),
        subst (λ w. AreStored t laws o.chunk_size w c cs) (append_assoc u d rest)
            (joined-AreStored (u ++ d) (seq + 1) (start + x.size) cs hs m
              (length-append u d ∙ omega arith)),
      )

  object-IsLive :
      (b k : Bytes) (s : Store)
      → All (IsLive t laws o walks c) (rows s)
      → All (IsLive t laws o walks c) (get_object_chunks b k s)
  unfolding get_object_chunks
  object-IsLive b k s h = All-order_by t laws o walks c _ _ (
      All-filter _ (λ r. r.chunk) _ s.object_chunks (All-split _ (object_rows s) (part_rows s) h).0)

pub IsGood-empty :
    (t : Telegram) (laws : TelegramLaws t) (o : Options) (walks : Walks o.visit)
    (r : Remote (Telegram.Channel t))
    → IsGood t laws o walks empty_store r
unfolding get_object
IsGood-empty t laws o walks r = record {
  live = tt;
  distinct = λ j. omega arith;
  mapped = λ b k obj found. absurd (ground arith);
}

-- After any requests and ticks of the janitor on a gateway that starts with an empty store and whose
-- chunk size is not 0, an object that is found has a content of its size: while the messages of the
-- channel are read back as they were sent, a GET that no precondition stops answers with exactly
-- this content, or the bytes of it that a satisfiable range asks for, and never ends early.
pub Reach-readable :
    (t : Telegram) (laws : TelegramLaws t) (g : Gateway t) (walks : Walks g.options.visit)
    (r0 r : Remote (Telegram.Channel t)) (s : Store) (bucket key : Bytes) (obj : Object)
    (download : Download) (stream_chunk_size : ℕ)
    → 0 < g.options.chunk_size
    → Reach t g empty_store r0 s r
    → get_object bucket key s ≡ some obj
    → ReadsBack t laws r.channel download
    → (content : Bytes) × (length content ≡ obj.size)
      × ((parse_time : Bytes → Option ℕ) (hdr : Headers)
          → conditional_status parse_time hdr obj ≡ 0
          → get_object_handler download stream_chunk_size parse_time hdr bucket key s
            ≡ answer content (asked parse_time hdr obj))
Reach-readable t laws g walks r0 r s bucket key obj download n pos reach found reads =
    let good = Reach-IsGood t laws g walks pos reach (IsGood-empty t laws g.options walks r0) in
    let chunks = get_object_chunks bucket key s in
    let (mapped, size) = good.mapped bucket key obj found in
    let live = object-IsLive t laws g.options walks r.channel bucket key s good.live in
    let content = joined t laws g.options walks r.channel chunks live in
    let full = length-joined t laws g.options walks r.channel chunks live in
    let stored = joined-AreStored t laws g.options walks r.channel [] 0 0 chunks live mapped refl in
    (
      content,
      full ∙ sym size,
      λ parse_time hdr go_on.
          get_object_handler-content download n parse_time hdr bucket key s obj content found mapped
            (sym full) (size ∙ sym full)
            (Serves-stored t laws g.options.chunk_size content r.channel download 0 0 chunks reads
              mapped (omega arith) stored)
            go_on,
    )

-- ===== src/Tests/Reading.antt =====
-- The parallel reader over small chunk maps.
use telegram_s.Base.{
  ℕ, zero, suc, ◌+◌, ◌-◌, ◌<◌, ◌≤◌, ◌≡◌, ◌≢◌, refl, sym, ap, ◌∙◌, ◌⊎◌, true, false, Option, none,
  some, List, [], ◌∷◌, ◌++◌, arith, ◌==◌, if◌then◌else◌,
}
use telegram_s.Base.Bytes.{Bytes, codes}
use telegram_s.Base.Slices.{slice}
use telegram_s.Storage.{fault, exhausted, ok, err, ChunkRef}
use telegram_s.Reader.Source.{ChunkLoc, BotSource, Download, chunk, chunk_size}
use telegram_s.Reader.Source.Stitch.{Serves, chunk-ne-exhausted}
use telegram_s.Reader.Buffer.{Buffer, more, eof, Reader, copy}
use telegram_s.Reader.Plan.{Plan, open_reader, drain}
use telegram_s.Reader.Plan.Whole.{stream-slice}
use telegram_s.Reader.Plan.Race.{Race, Step, here, initial, delivered_in_order}
use telegram_s.Reader.Plan.Race.Progress.{
  no_deadlock, no_backpressure, Prefetched, work, Moves, MakesRoom,
}

abbrev ref : ℕ → ChunkRef
ref id = record { transport = codes "mtproto"; bot_file_id = []; message_id = id; bot_index = 0 }

-- Two messages: "abc" and "de".
abbrev locs : List ChunkLoc
locs =
    record { ref = ref 1; offset = 0; size = 3 } ∷ record { ref = ref 2; offset = 3; size = 2 } ∷ []

abbrev content : Bytes
content = codes "abcde"

abbrev source : BotSource
source = record { obj_size = 5; locs = locs; chunk_size = 2 }

abbrev download : Download
download r off len =
    if r.message_id == 1
    then ok (slice (0 + off) (0 + off + len) content)
    else ok (slice (3 + off) (3 + off + len) content)

serves : Serves download content locs
serves zero l off len e pos fits =
    ap (λ m. download m.ref off len) (sym (ap (λ x. or_else x) e))
    ∙ ap (λ m. ok (slice (m.offset + off) (m.offset + off + len) content)) (ap (λ x. or_else x) e)
  where
    or_else : Option ChunkLoc → ChunkLoc
    or_else none = record { ref = ref 1; offset = 0; size = 3 }
    or_else (some l) = l
serves (suc zero) l off len e pos fits =
    ap (λ m. download m.ref off len) (sym (ap (λ x. or_else x) e))
    ∙ ap (λ m. ok (slice (m.offset + off) (m.offset + off + len) content)) (ap (λ x. or_else x) e)
  where
    or_else : Option ChunkLoc → ChunkLoc
    or_else none = record { ref = ref 2; offset = 3; size = 2 }
    or_else (some l) = l
serves (suc (suc i)) l off len e pos fits = absurd (ground arith)

stream-slice_example :
    copy (4 - 1 + 1) 2 (open_reader (chunk download source) (chunk_size source) 1 4)
    ≡ (slice 1 4 content, eof)
stream-slice_example =
    stream-slice download source content 1 4 2 (refl, (refl, tt)) refl refl serves (omega arith)
      (omega arith) (omega arith)

chunk-ne-exhausted_example : chunk (λ r o l. err (fault 1)) source 2 2 ≢ err exhausted
chunk-ne-exhausted_example = chunk-ne-exhausted (λ r o l. err (fault 1)) (λ r o l e. cc) source 2 2

abbrev reader : Reader
reader = record {
  out = record { buf = codes "ab"; offset = 0; error = none } ∷ [];
  cur = none;
  status = more;
}

abbrev small : Plan
small = record { chunk_size = 2; start = 1; end = 4; aligned_start = 0; n_chunks = 2 }

abbrev slot : ℕ → Buffer
slot i = record { buf = codes "ab"; offset = 0; error = none }

delivered_in_order_example :
    ((rest : List Buffer) × ([] ++ rest ≡ drain small slot 0 2))
    × ((false ≡ true) ⊎ (initial.drained ≡ 2) → [] ≡ drain small slot 0 2)
    × (initial.received ++ initial.out ≡ [])
delivered_in_order_example = delivered_in_order small slot 1 2 here

no_deadlock_example :
    (0 < 2 → Moves small slot 1 2 initial)
    × (2 ≤ 0 → MakesRoom small slot 1 2 initial)
    × ((t : Race) → Step small slot 1 2 initial t → work small slot 1 2 t < 10)
no_deadlock_example = no_deadlock small slot 1 2 here (omega arith) (omega arith) refl (omega arith)

no_backpressure_example : (s : Race) × Prefetched small slot 1 2 2 s
no_backpressure_example = no_backpressure small slot 1 2 2 (omega arith) (omega arith)

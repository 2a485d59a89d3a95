-- ===== src/S3api/Multipart/Assembled.antt =====
-- internal/s3api/multipart.go: the chunk map that `completeMultipartUpload` puts together.
use mathlib.Core.Path.{subst}
use telegram_s.Base.{
  ℕ, ◌+◌, ◌≡◌, refl, sym, ap, ◌∙◌, inl, inr, Bool, true, false, Bool-cases, ◌&&◌, not, ◌⊎◌, Option,
  none, some, List, [], ◌∷◌, ◌++◌, map, arith, ltb, leb, if◌then◌else◌, length, length-append, All,
  filter, append_assoc, append-nil,
}
use telegram_s.Base.Bytes.{equal_fold, Bytes, is_empty}
use telegram_s.Base.Int.{ℤ, pos, negsuc}
use telegram_s.Storage.{Chunk, IsChunkMap, total_size}
use telegram_s.Mtproto.Upload.Stored.{IsChunkMap-append, total_size-append}
use telegram_s.Metadata.{Store, PartChunkRow, MultipartPart}
use telegram_s.Metadata.Table.{insert_sorted, order_by}
use telegram_s.Metadata.Rows.{AreNamed}
use telegram_s.Metadata.Multipart.{get_multipart_part_chunks}
use telegram_s.S3api.Assembly.{
  MultipartResponse, entity_too_small, invalid_part, invalid_part_order, CompletePart, Assembly,
  append_chunks, accept_part, check_part, take_part, find_part, trim_quotes, min_part_size,
  hex_decode, assemble,
}

-- A chunk without its place in the object.
abbrev pub piece : Chunk → Chunk
piece c = record c { seq = 0; offset = 0 }

-- The pieces of the part with a number.
abbrev pub number_pieces : Bytes → Store → ℤ → List Chunk
number_pieces upload_id s (pos n) = map piece (get_multipart_part_chunks upload_id n s)
number_pieces upload_id s (negsuc n) = []

-- The pieces of the listed parts, in the order of the list.
abbrev pub pieces : Bytes → Store → List CompletePart → List Chunk
pieces upload_id s [] = []
pieces upload_id s (cp ∷ cps) = number_pieces upload_id s cp.part_number ++ pieces upload_id s cps

-- Every chunk of a part names its transport.
abbrev pub PartsNamed : Store → Type 0
PartsNamed s = All (λ r. is_empty r.chunk.transport ≡ false) s.multipart_part_chunks

AreNamed-insert_sorted :
    (before : Chunk → Chunk → Bool) (c : Chunk) (cs : List Chunk)
    → is_empty c.transport ≡ false
    → AreNamed cs
    → AreNamed (insert_sorted before c cs)
unfolding insert_sorted
AreNamed-insert_sorted before c [] h hs = (h, tt)
AreNamed-insert_sorted before c (d ∷ cs) h (g, gs) = elim (Bool-cases (before d c)) [
  | inl t ↦ rw t (g, AreNamed-insert_sorted before c cs h gs)
  | inr f ↦ rw f (h, (g, gs))
]

AreNamed-order_by :
    (before : Chunk → Chunk → Bool) (cs : List Chunk) → AreNamed cs → AreNamed (order_by before cs)
unfolding order_by
AreNamed-order_by before [] h = tt
AreNamed-order_by before (c ∷ cs) (h, hs) =
    AreNamed-insert_sorted before c (order_by before cs) h (AreNamed-order_by before cs hs)

filter-true :
    (q : PartChunkRow → Bool) (r : PartChunkRow) (rows : List PartChunkRow)
    → q r ≡ true
    → filter q (r ∷ rows) ≡ r ∷ filter q rows
filter-true q r rows h = ground arith

filter-false :
    (q : PartChunkRow → Bool) (r : PartChunkRow) (rows : List PartChunkRow)
    → q r ≡ false
    → filter q (r ∷ rows) ≡ filter q rows
filter-false q r rows h = ground arith

AreNamed-filter :
    (q : PartChunkRow → Bool) (rows : List PartChunkRow)
    → All (λ r. is_empty r.chunk.transport ≡ false) rows
    → AreNamed (map (λ r. r.chunk) (filter q rows))
AreNamed-filter q [] h = tt
AreNamed-filter q (r ∷ rows) (h, hs) = elim (Bool-cases (q r)) [
  | inl t ↦
      subst (λ l. AreNamed (map (λ r. r.chunk) l)) (sym (filter-true q r rows t))
        (h, AreNamed-filter q rows hs)
  | inr f ↦
      subst (λ l. AreNamed (map (λ r. r.chunk) l)) (sym (filter-false q r rows f))
        (AreNamed-filter q rows hs)
]

part-AreNamed :
    (upload_id : Bytes) (n : ℕ) (s : Store)
    → PartsNamed s
    → AreNamed (get_multipart_part_chunks upload_id n s)
unfolding get_multipart_part_chunks
part-AreNamed upload_id n s h = AreNamed-order_by _ _ (AreNamed-filter _ s.multipart_part_chunks h)

AreNamed-append :
    (cs : List Chunk) (c : Chunk)
    → AreNamed cs
    → is_empty c.transport ≡ false
    → AreNamed (cs ++ c ∷ [])
AreNamed-append [] c h e = (e, tt)
AreNamed-append (d ∷ cs) c (h, hs) e = (h, AreNamed-append cs c hs e)

-- The chunks so far are a chunk map, and the counters count them.
abbrev pub IsAssembly : Assembly → Type 0
IsAssembly a =
    IsChunkMap 0 0 a.final_chunks
    × AreNamed a.final_chunks
    × (a.seq ≡ length a.final_chunks)
    × (a.total_size ≡ total_size a.final_chunks)

map-append : (cs : List Chunk) (c : Chunk) → map piece (cs ++ c ∷ []) ≡ map piece cs ++ piece c ∷ []
map-append [] c = refl
map-append (d ∷ cs) c = ap (λ l. piece d ∷ l) (map-append cs c)

append_chunks-IsAssembly :
    (cs : List Chunk) (a : Assembly)
    → IsAssembly a
    → AreNamed cs
    → IsAssembly (append_chunks cs a)
      × (map piece (append_chunks cs a).final_chunks ≡ map piece a.final_chunks ++ map piece cs)
unfolding append_chunks
append_chunks-IsAssembly [] a g h = (g, sym (append-nil _))
append_chunks-IsAssembly (c ∷ cs) a (m, named, n, sum) (h, hs) =
    let placed : Chunk = record c { seq = a.seq; offset = a.total_size } in
    let next : Assembly = record a {
      final_chunks = a.final_chunks ++ placed ∷ [];
      seq = a.seq + 1;
      total_size = a.total_size + c.size;
    } in
    let good : IsAssembly next = (
      IsChunkMap-append 0 0 a.final_chunks placed m (omega arith) (omega arith),
      AreNamed-append a.final_chunks placed named h,
      ap (λ k. k + 1) n ∙ sym (length-append a.final_chunks (placed ∷ [])),
      ap (λ k. k + c.size) sum ∙ sym (total_size-append a.final_chunks placed),
    ) in
    let (ih, same) = append_chunks-IsAssembly cs next good hs in
    (
      ih,
      same
          ∙ ap (λ l. l ++ map piece cs) (map-append a.final_chunks placed)
          ∙ append_assoc (map piece a.final_chunks) (piece placed ∷ []) (map piece cs),
    )

pub else-inr :
    (b : Bool) (response : MultipartResponse) (y : MultipartResponse ⊎ Assembly) (a : Assembly)
    → (if b then inl response else y) ≡ inr a
    → y ≡ inr a
else-inr true response y a h = absurd (ground arith)
else-inr false response y a h = h

-- A turn that is passed appends the chunks of its part.
abbrev pub Passes : Bytes → Store → ℕ → Assembly → Assembly → Type 0
Passes upload_id s n a a' =
    (raw : Bytes) × (a'
      ≡ append_chunks (get_multipart_part_chunks upload_id n s)
          (record a { md5_concat = a.md5_concat ++ raw; prev_part = n }))

accept_part-Passes :
    (upload_id : Bytes) (s : Store) (n : ℕ) (a a' : Assembly) (raw : Option Bytes)
    → accept_part upload_id s n a raw ≡ inr a'
    → Passes upload_id s n a a'
unfolding accept_part
accept_part-Passes upload_id s n a a' none h = absurd (ground arith)
accept_part-Passes upload_id s n a a' (some raw) h = (raw, cc)

pub check_part-Passes :
    (upload_id : Bytes) (s : Store) (n : ℕ) (etag : Bytes) (rest : List CompletePart)
    (a a' : Assembly) (found : Option MultipartPart)
    → check_part upload_id s n etag rest a found ≡ inr a'
    → Passes upload_id s n a a'
unfolding check_part
check_part-Passes upload_id s n etag rest a a' none h = absurd (ground arith)
check_part-Passes upload_id s n etag rest a a' (some sp) h =
    accept_part-Passes upload_id s n a a' (hex_decode sp.etag) (
      else-inr (not (leb (length rest) 0) && ltb sp.size min_part_size) entity_too_small _ a'
        (else-inr (not (equal_fold (trim_quotes etag) sp.etag)) invalid_part _ a' h))

Passes-IsAssembly :
    (upload_id : Bytes) (s : Store) (n : ℕ) (a a' : Assembly)
    → PartsNamed s
    → IsAssembly a
    → Passes upload_id s n a a'
    → IsAssembly a'
      × (map piece a'.final_chunks
          ≡ map piece a.final_chunks ++ map piece (get_multipart_part_chunks upload_id n s))
Passes-IsAssembly upload_id s n a a' named good (raw, e) =
    subst
      (λ z.
        IsAssembly z
        × (map piece z.final_chunks
            ≡ map piece a.final_chunks ++ map piece (get_multipart_part_chunks upload_id n s)))
      (sym e)
      (append_chunks-IsAssembly (get_multipart_part_chunks upload_id n s)
        (record a { md5_concat = a.md5_concat ++ raw; prev_part = n }) good
        (part-AreNamed upload_id n s named))

pub unpaired :
    (x : MultipartResponse ⊎ Assembly) (f : Assembly → MultipartResponse ⊎ Assembly) (a' : Assembly)
    → elim x [ inl response ↦ inl response | inr a ↦ f a ] ≡ inr a'
    → (a : Assembly) × (x ≡ inr a) × (f a ≡ inr a')
unpaired (inl response) f a' h = absurd (ground arith)
unpaired (inr a) f a' h = (a, refl, h)

module _ (upload_id : Bytes) (s : Store) (stored : List MultipartPart) (named : PartsNamed s) where
  turn-IsAssembly :
      (number : ℤ) (etag : Bytes) (rest : List CompletePart) (a a' : Assembly)
      → IsAssembly a
      → take_part upload_id s stored (record { part_number = number; etag = etag }) rest a ≡ inr a'
      → IsAssembly a'
        × (map piece a'.final_chunks ≡ map piece a.final_chunks ++ number_pieces upload_id s number)
  unfolding take_part
  turn-IsAssembly (negsuc n) etag rest a a' good h = absurd (ground arith)
  turn-IsAssembly (pos n) etag rest a a' good h = Passes-IsAssembly upload_id s n a a' named good (
      check_part-Passes upload_id s n etag rest a a' (find_part n stored)
        (else-inr (leb n a.prev_part) invalid_part_order _ a' h))

  pub assemble-IsAssembly :
      (cps : List CompletePart) (a a' : Assembly)
      → IsAssembly a
      → assemble upload_id s stored cps a ≡ inr a'
      → IsAssembly a'
        × (map piece a'.final_chunks ≡ map piece a.final_chunks ++ pieces upload_id s cps)
  unfolding assemble
  assemble-IsAssembly [] a a' good h =
      let same : a ≡ a' = cc in
      subst (λ z. IsAssembly z × (map piece z.final_chunks ≡ map piece a.final_chunks ++ [])) same
        (good, sym (append-nil _))
  assemble-IsAssembly (cp ∷ cps) a a' good h =
      let (a1, first, later) = unpaired _ (assemble upload_id s stored cps) a' h in
      let (good1, same1) = turn-IsAssembly cp.part_number cp.etag cps a a1 good first in
      let (good2, same2) = assemble-IsAssembly cps a1 a' good1 later in
      (
        good2,
        same2
            ∙ ap (λ l. l ++ pieces upload_id s cps) same1
            ∙ append_assoc (map piece a.final_chunks) (number_pieces upload_id s cp.part_number)
                (pieces upload_id s cps),
      )

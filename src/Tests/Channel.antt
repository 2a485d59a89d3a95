-- ===== src/Tests/Channel.antt =====
-- A channel in memory that keeps the laws of Telegram: message n is the n-th document sent.
use telegram_s.Base.{
  ℕ, zero, suc, ◌+◌, ◌≡◌, ◌≢◌, refl, sym, ap, ◌∙◌, true, false, Option, none, some, List, [], ◌∷◌,
  ◌++◌, arith, if◌then◌else◌, length, take, ◌%◌, ◌==◌,
}
use telegram_s.Base.Bytes.{Bytes, codes}
use telegram_s.Base.Slices.{slice, take_all}
use telegram_s.Storage.{rpc, Result, ok, err}
use telegram_s.Mtproto.Api.{
  Telegram, new_channel_message, Updates, updates, message, Message, Messages, document, modified,
  file,
}
use telegram_s.Mtproto.Laws.{TelegramLaws, listed}
use telegram_s.Mtproto.Response.{extract_message_id, inspect_document_size}

abbrev pub Channel : Type 0
Channel = List (Option Bytes)

abbrev pub doc : Channel → ℕ → Option Bytes
doc [] j = none
doc (x ∷ xs) zero = x
doc (x ∷ xs) (suc j) = doc xs j

abbrev pub erase : ℕ → List ℕ → Channel → Channel
erase n ids [] = []
erase n ids (x ∷ xs) = (if listed n ids then none else x) ∷ erase (n + 1) ids xs

-- The answer to getMessages for a message and the document that it holds.
abbrev pub found : ℕ → Option Bytes → Result Messages
found id none = ok (modified [])
found id (some d) = ok (modified (message id (document (length d) id) ∷ []))

abbrev pub memory : Telegram
memory = record {
  Channel = Channel;
  send_document = λ c bot name content_type body.
      (ok (updates (new_channel_message (some (length c)) ∷ [])), c ++ some body ∷ []);
  get_messages = λ c bot id. found id (doc c id);
  get_file = λ c bot location offset limit. elim (doc c location) [
    | none ↦ err (rpc (codes "LOCATION_INVALID"))
    | some d ↦
        if offset % limit == 0
        then ok (file (slice offset (offset + limit) d))
        else err (rpc (codes "OFFSET_INVALID"))
  ];
  delete_messages = λ c bot ids. (none, erase 0 ids c);
}

doc-sent :
    (c : Channel) (body : Bytes)
    → (doc c (length c) ≡ none) × (doc (c ++ some body ∷ []) (length c) ≡ some body)
doc-sent [] body = (refl, refl)
doc-sent (x ∷ c) body = doc-sent c body

doc-other :
    (c : Channel) (body : Bytes) (j : ℕ) → j ≢ length c → doc (c ++ some body ∷ []) j ≡ doc c j
doc-other [] body zero ne = absurd (ne refl)
doc-other [] body (suc j) ne = refl
doc-other (x ∷ c) body zero ne = refl
doc-other (x ∷ c) body (suc j) ne = doc-other c body j (λ e. ne (ap suc e))

pub doc-kept :
    (c : Channel) (body : Bytes) (j : ℕ) (d : Bytes)
    → doc c j ≡ some d
    → doc (c ++ some body ∷ []) j ≡ some d
doc-kept [] body j d h = absurd (ground arith)
doc-kept (x ∷ c) body zero d h = h
doc-kept (x ∷ c) body (suc j) d h = doc-kept c body j d h

doc-erase :
    (n : ℕ) (ids : List ℕ) (c : Channel) (j : ℕ)
    → doc (erase n ids c) j ≡ (if listed (n + j) ids then none else doc c j)
doc-erase n ids [] j = ground arith
doc-erase n ids (x ∷ c) zero = ap (λ k. if listed k ids then none else x) {y = n + 0} (omega arith)
doc-erase n ids (x ∷ c) (suc j) =
    doc-erase (n + 1) ids c j
    ∙ ap (λ k. if listed k ids then none else doc c j) {y = n + suc j} (omega arith)

abbrev update_id : Result Updates → Option ℕ
update_id (ok u) = extract_message_id u
update_id (err e) = none

pub memory_sent :
    (c c' : Channel) (bot : ℕ) (name content_type body : Bytes) (u : Updates) (id : ℕ)
    → Telegram.send_document memory c bot name content_type body ≡ (ok u, c')
    → extract_message_id u ≡ some id
    → (doc c id ≡ none)
      × ((d : Bytes) → doc c' id ≡ some d → d ≡ take (length d) body)
      × ((j : ℕ) → j ≢ id → doc c' j ≡ doc c j)
unfolding extract_message_id
memory_sent c c' bot name content_type body u id h x =
    let found = ap (λ p. update_id p.0) h ∙ x in
    let same : length c ≡ id = ground arith in
    let there : c ++ some body ∷ [] ≡ c' = ap (λ p. p.1) h in
    let (fresh, held) = doc-sent c body in
    (
      ap (doc c) (sym same) ∙ fresh,
      λ d e.
          let whole : some d ≡ some body =
            sym e
            ∙ ap (λ k. doc k id) (sym there)
            ∙ ap (doc (c ++ some body ∷ [])) (sym same)
            ∙ held in
          let all : d ≡ body = ground arith in
          all
          ∙ sym (take_all (length body) body (omega arith))
          ∙ ap (λ (k : Bytes). take (length k) body) (sym all),
      λ j ne. ap (λ k. doc k j) (sym there) ∙ doc-other c body j (λ e. ne (e ∙ same)),
    )

pub memory_sized :
    (id size : ℕ) (m : Message) (ms : List Message) (o : Option Bytes)
    → found id o ≡ ok (modified (m ∷ ms))
    → inspect_document_size m ≡ some size
    → (d : Bytes) × (o ≡ some d) × (length d ≡ size)
unfolding inspect_document_size
memory_sized id size m ms none h x = absurd (ground arith)
memory_sized id size m ms (some d) h x =
    let same : message id (document (length d) id) ≡ m = ground arith in
    (d, refl, let g = ap inspect_document_size same ∙ x in ground arith)

pub memory_deleted :
    (c c' : Channel) (bot : ℕ) (ids : List ℕ) (j : ℕ)
    → Telegram.delete_messages memory c bot ids ≡ (none, c')
    → listed j ids ≡ true
    → doc c' j ≡ none
memory_deleted c c' bot ids j h l =
    ap (λ p. doc p.1 j) (sym h)
    ∙ doc-erase 0 ids c j
    ∙ ap (λ k. if listed k ids then none else doc c j) {y = j} (omega arith)
    ∙ rw l refl

pub memory_stays :
    (c : Channel) (ids : List ℕ) (j : ℕ) → doc c j ≡ none → doc (erase 0 ids c) j ≡ none
memory_stays c ids j h = doc-erase 0 ids c j ∙ ground arith

pub memory_untouched :
    (c : Channel) (ids : List ℕ) (j : ℕ) → listed j ids ≡ false → doc (erase 0 ids c) j ≡ doc c j
memory_untouched c ids j l =
    doc-erase 0 ids c j
    ∙ ap (λ k. if listed k ids then none else doc c j) {y = j} (omega arith)
    ∙ rw l refl

abbrev pub memory_laws : TelegramLaws memory
memory_laws = record {
  content = doc;
  sent = memory_sent;
  sized = λ c bot id size m ms. memory_sized id size m ms (doc c id);
  kept = λ c bot name content_type body j d h. doc-kept c body j d h;
  deleted = memory_deleted;
  stays_deleted = λ c bot ids j h. memory_stays c ids j h;
  untouched = λ c bot ids j l. memory_untouched c ids j l;
}

-- ===== src/Mtproto/Upload/Sent.antt =====
-- What one `uploadChunk` does to the channel: the send, the check of its message, and what both leave.
use telegram_s.Base.{
  ℕ, ◌≡◌, refl, sym, ap, ◌∙◌, ◌≢◌, Option, none, some, List, [], ◌∷◌, arith, length, take,
}
use telegram_s.Base.Bytes.{Bytes}
use telegram_s.Base.Slices.{take_all}
use telegram_s.Storage.{Error, Result, ok, err}
use telegram_s.Mtproto.Api.{Telegram, Updates, Message, Messages, not_modified, modified}
use telegram_s.Mtproto.Laws.{TelegramLaws}
use telegram_s.Mtproto.Response.{extract_message_id, inspect_document_size}
use telegram_s.Mtproto.Upload.{
  delete_by_message_id, check_first, check_answer, verify_uploaded_size, verified, sent_id, sent,
  upload_chunk,
}

module _ (t : Telegram) (laws : TelegramLaws t) where
  open t use {Channel, send_document, get_messages, delete_messages}
  open laws use {content, sent as sent_law, sized, kept, untouched}

  -- The check deletes at most the message it checks.
  delete-others :
      (c : Channel) (bot id j : ℕ)
      → j ≢ id
      → content (delete_by_message_id t c bot id) j ≡ content c j
  unfolding delete_by_message_id
  delete-others c bot id j ne = untouched c bot (id ∷ []) j (ground arith)

  check_first-others :
      (c : Channel) (bot id expected : ℕ) (ms : List Message) (j : ℕ)
      → j ≢ id
      → content (check_first t c bot id expected ms).1 j ≡ content c j
  unfolding check_first
  check_first-others c bot id expected [] j ne = delete-others c bot id j ne
  check_first-others c bot id expected (m ∷ ms) j ne = ground (arith, delete-others c bot id j ne)

  check_answer-others :
      (c : Channel) (bot id expected : ℕ) (answer : Result Messages) (j : ℕ)
      → j ≢ id
      → content (check_answer t c bot id expected answer).1 j ≡ content c j
  unfolding check_answer
  check_answer-others c bot id expected (err e) j ne = refl
  check_answer-others c bot id expected (ok not_modified) j ne = delete-others c bot id j ne
  check_answer-others c bot id expected (ok (modified ms)) j ne =
      check_first-others c bot id expected ms j ne

  -- A check that passes changes nothing, and it has read a message with a document of the size.
  abbrev Passed : Channel → Channel → ℕ → Result Messages → Type 0
  Passed c c' expected answer =
      (m : Message) × (ms : List Message) × (answer ≡ ok (modified (m ∷ ms)))
      × (inspect_document_size m ≡ some expected)
      × (c ≡ c')

  check_answer-Passed :
      (c c' : Channel) (bot id expected : ℕ) (answer : Result Messages)
      → check_answer t c bot id expected answer ≡ (none, c')
      → Passed c c' expected answer
  unfolding check_answer check_first
  check_answer-Passed c c' bot id expected (err e) h = absurd (grind arith)
  check_answer-Passed c c' bot id expected (ok not_modified) h = absurd (grind arith)
  check_answer-Passed c c' bot id expected (ok (modified [])) h = absurd (grind arith)
  check_answer-Passed c c' bot id expected (ok (modified (m ∷ ms))) h =
      (m, ms, refl, ground arith, ground arith)

  ok_none :
      (id id' : ℕ) (v : Option Error × Channel) (c' : Channel)
      → verified t id v ≡ (ok id', c')
      → (id ≡ id') × (v ≡ (none, c'))
  unfolding verified
  ok_none id id' (none, c) c' h = (grind arith, ap (λ p. (none, p.1)) h)
  ok_none id id' (some e, c) c' h = absurd (ground arith)

  -- What a chunk's upload that succeeds has done to the channel.
  abbrev pub Holds : Channel → Channel → ℕ → Bytes → Type 0
  Holds c c' id body =
      (content c id ≡ none)
      × (content c' id ≡ some body)
      × ((j : ℕ) → j ≢ id → content c' j ≡ content c j)

  sent_id-Holds :
      (c c1 c' : Channel) (bot id : ℕ) (name content_type body : Bytes) (u : Updates) (o : Option ℕ)
      → send_document c bot name content_type body ≡ (ok u, c1)
      → extract_message_id u ≡ o
      → sent_id t bot (length body) o c1 ≡ (ok id, c')
      → Holds c c' id body
  unfolding sent_id verify_uploaded_size
  sent_id-Holds c c1 c' bot id name content_type body u none e x h = absurd (ground arith)
  sent_id-Holds c c1 c' bot id name content_type body u (some i) e x h =
      let (same, passed) =
        ok_none i id (check_answer t c1 bot i (length body) (get_messages c1 bot i)) c' h in
      let (m, ms, answer, size, there) =
        check_answer-Passed c1 c' bot i (length body) (get_messages c1 bot i) passed in
      let (fresh, short, others) =
        sent_law c c' bot name content_type body u id (e ∙ ap (λ d. (ok u, d)) there)
          (x ∙ ap some same) in
      let (d, held, whole) =
        sized c' bot id (length body) m ms
          (ap (λ c. get_messages c bot id) (sym there)
            ∙ ap (get_messages c1 bot) (sym same)
            ∙ answer)
          size in
      (
        fresh,
        held
            ∙ ap some (
                short d held
                ∙ ap (λ n. take n body) whole
                ∙ take_all (length body) body (omega arith)),
        others,
      )

  sent-Holds :
      (c c' : Channel) (bot id : ℕ) (name content_type body : Bytes) (a : Result Updates × Channel)
      → send_document c bot name content_type body ≡ a
      → sent t bot (length body) a ≡ (ok id, c')
      → Holds c c' id body
  unfolding sent
  sent-Holds c c' bot id name content_type body (err e, c1) a h = absurd (ground arith)
  sent-Holds c c' bot id name content_type body (ok u, c1) a h =
      sent_id-Holds c c1 c' bot id name content_type body u (extract_message_id u) a refl h

  pub upload_chunk-Holds :
      (c c' : Channel) (bot id : ℕ) (name content_type body : Bytes)
      → upload_chunk t c bot name content_type body ≡ (ok id, c')
      → Holds c c' id body
  unfolding upload_chunk
  upload_chunk-Holds c c' bot id name content_type body h =
      sent-Holds c c' bot id name content_type body (send_document c bot name content_type body)
        refl h

  verified-channel : (id : ℕ) (v : Option Error × Channel) → (verified t id v).1 ≡ v.1
  unfolding verified
  verified-channel id (none, c) = refl
  verified-channel id (some e, c) = refl

  sent_id-kept :
      (c c1 : Channel) (bot : ℕ) (name content_type body : Bytes) (u : Updates) (o : Option ℕ)
      (j : ℕ) (d : Bytes)
      → send_document c bot name content_type body ≡ (ok u, c1)
      → extract_message_id u ≡ o
      → content c j ≡ some d
      → content (sent_id t bot (length body) o c1).1 j ≡ some d
  unfolding sent_id verify_uploaded_size
  sent_id-kept c c1 bot name content_type body u none j d e x h =
      rw e at (kept c bot name content_type body j d h)
  sent_id-kept c c1 bot name content_type body u (some i) j d e x h =
      let (fresh, short, others) = sent_law c c1 bot name content_type body u i e x in
      let ne : j ≢ i = λ p. (let g = rw p at h in ground arith) in
      ap (λ c. content c j)
        (verified-channel i (check_answer t c1 bot i (length body) (get_messages c1 bot i)))
      ∙ check_answer-others c1 bot i (length body) (get_messages c1 bot i) j ne
      ∙ others j ne
      ∙ h

  sent-kept :
      (c : Channel) (bot : ℕ) (name content_type body : Bytes) (a : Result Updates × Channel)
      (j : ℕ) (d : Bytes)
      → send_document c bot name content_type body ≡ a
      → content c j ≡ some d
      → content (sent t bot (length body) a).1 j ≡ some d
  unfolding sent
  sent-kept c bot name content_type body (err e, c1) j d a h =
      rw a at (kept c bot name content_type body j d h)
  sent-kept c bot name content_type body (ok u, c1) j d a h =
      sent_id-kept c c1 bot name content_type body u (extract_message_id u) j d a refl h

  pub upload_chunk-kept :
      (c : Channel) (bot : ℕ) (name content_type body : Bytes) (j : ℕ) (d : Bytes)
      → content c j ≡ some d
      → content (upload_chunk t c bot name content_type body).1 j ≡ some d
  unfolding upload_chunk
  upload_chunk-kept c bot name content_type body j d h =
      sent-kept c bot name content_type body (send_document c bot name content_type body) j d refl h

-- ===== src/Reader/Plan/Race.antt =====
-- internal/reader/reader.go: the workers, the drainer and the consumer of one reader as interleaved
-- steps. A worker takes the next index of the counter, fetches it, and puts the buffer into that
-- index's own channel of capacity 1; the drainer takes the channels in order and sends to `out`,
-- which holds `out_buffers` buffers at most: a send to the full channel waits, so the drainer has no
-- step then. `Prime` and `Read` receive from `out`. `delivered` is all that was sent to `out`,
-- `received` all that was taken from it. The steps behind a call of `Close` are left out.
pub mod Accounts
pub mod Progress
use telegram_s.Base.{
  ℕ, zero, suc, ◌+◌, ◌-◌, ◌≤◌, ◌<◌, ◌≡◌, refl, sym, ap, ◌∙◌, ◌⊎◌, Bool-cases, inl, inr, Bool, true,
  false, none, some, List, [], ◌∷◌, ◌++◌, arith, ◌==◌, if◌then◌else◌, elim-none, elim-some,
  append_assoc, append-nil, length,
}
use telegram_s.Storage.{Error}
use telegram_s.Reader.Buffer.{Buffer}
use telegram_s.Reader.Plan.{Plan, trim_window, drain}

pub data Slot : Type 0 where
  free : Slot
  fetching : Slot
  ready : Buffer → Slot
  taken : Slot

pub record Race : Type 0 where
  pub next : ℕ
  pub busy : ℕ
  pub slots : ℕ → Slot
  pub drained : ℕ
  pub stopped : Bool
  pub out : List Buffer
  pub delivered : List Buffer
  pub received : List Buffer

abbrev update : (ℕ → Slot) → ℕ → Slot → ℕ → Slot
update f i v j = if j == i then v else f j

abbrev pub initial : Race
initial = record {
  next = 0;
  busy = 0;
  slots = λ i. free;
  drained = 0;
  stopped = false;
  out = [];
  delivered = [];
  received = [];
}

module _ (p : Plan) (slot : ℕ → Buffer) (workers out_buffers : ℕ) where
  pub data Step : Race → Race → Type 0 where
    claim :
        (s : Race)
        → s.next < p.n_chunks
        → s.busy < workers
        → Step s (record s {
          next = s.next + 1;
          busy = s.busy + 1;
          slots = update s.slots s.next fetching;
        })
    publish :
        (s : Race) (i : ℕ)
        → s.slots i ≡ fetching
        → Step s (record s { busy = s.busy - 1; slots = update s.slots i (ready (slot i)) })
    hand_on :
        (s : Race) (b : Buffer)
        → s.stopped ≡ false
        → s.drained < p.n_chunks
        → s.slots s.drained ≡ ready b
        → b.error ≡ none
        → length s.out < out_buffers
        → Step s (record s {
          slots = update s.slots s.drained taken;
          drained = s.drained + 1;
          out = s.out ++ trim_window p s.drained b ∷ [];
          delivered = s.delivered ++ trim_window p s.drained b ∷ [];
        })
    give_up :
        (s : Race) (b : Buffer) (e : Error)
        → s.stopped ≡ false
        → s.drained < p.n_chunks
        → s.slots s.drained ≡ ready b
        → b.error ≡ some e
        → length s.out < out_buffers
        → Step s (record s {
          slots = update s.slots s.drained taken;
          stopped = true;
          out = s.out ++ b ∷ [];
          delivered = s.delivered ++ b ∷ [];
        })
    receive :
        (s : Race) (b : Buffer) (rest : List Buffer)
        → s.out ≡ b ∷ rest
        → Step s (record s { out = rest; received = s.received ++ b ∷ [] })

  pub data Reach : Race → Type 0 where
    here : Reach initial
    next : {s t : Race} → Reach s → Step s t → Reach t

  -- What the drainer has sent is what it sends in order, up to the slot where it is.
  record Delivers (s : Race) : Type 0 where
    own : (i : ℕ) (b : Buffer) → s.slots i ≡ ready b → b ≡ slot i
    within : s.drained ≤ p.n_chunks
    going :
        s.stopped ≡ false
        → s.delivered ++ drain p slot s.drained (p.n_chunks - s.drained) ≡ drain p slot 0 p.n_chunks
    ended : s.stopped ≡ true → s.delivered ≡ drain p slot 0 p.n_chunks
    through : s.received ++ s.out ≡ s.delivered

  drain_step :
      (i left : ℕ)
      → 0 < left
      → (slot i).error ≡ none
      → drain p slot i left ≡ trim_window p i (slot i) ∷ drain p slot (i + 1) (left - 1)
  unfolding drain
  drain_step i zero h e = absurd (omega arith)
  drain_step i (suc left) h e =
      elim-none _ _ (slot i).error e
      ∙ ap (λ n. trim_window p i (slot i) ∷ drain p slot (i + 1) n) (omega arith)

  drain_stop :
      (i left : ℕ) (x : Error)
      → 0 < left
      → (slot i).error ≡ some x
      → drain p slot i left ≡ slot i ∷ []
  unfolding drain
  drain_stop i zero x h e = absurd (omega arith)
  drain_stop i (suc left) x h e = elim-some _ _ (slot i).error e

  Step-Delivers : {s t : Race} → Step s t → Delivers s → Delivers t
  Step-Delivers (claim s lt free_worker) d = record {
    own = λ i b e. ground (arith, d.own i b);
    within = d.within;
    going = d.going;
    ended = d.ended;
    through = d.through;
  }
  Step-Delivers (publish s i f) d = record {
    own = λ j b e. ground (arith, d.own j b);
    within = d.within;
    going = d.going;
    ended = d.ended;
    through = d.through;
  }
  Step-Delivers (hand_on s b going lt r fine room) d = record {
    own = λ j c e. ground (arith, d.own j c);
    within = omega arith;
    going = λ h.
        let same = d.own s.drained b r in
        append_assoc s.delivered (trim_window p s.drained b ∷ [])
          (drain p slot (s.drained + 1) (p.n_chunks - (s.drained + 1)))
        ∙ ap
            (λ c.
              s.delivered
              ++ (trim_window p s.drained c
                  ∷ drain p slot (s.drained + 1) (p.n_chunks - (s.drained + 1))))
            same
        ∙ ap
            (λ n.
              s.delivered
              ++ (trim_window p s.drained (slot s.drained) ∷ drain p slot (s.drained + 1) n))
            (omega arith)
        ∙ ap (λ l. s.delivered ++ l)
            (sym (
              drain_step s.drained (p.n_chunks - s.drained) (omega arith)
                (ap (λ (c : Buffer). c.error) (sym same) ∙ fine)))
        ∙ d.going going;
    ended = λ h. cc;
    through =
        sym (append_assoc s.received s.out (trim_window p s.drained b ∷ []))
        ∙ ap (λ l. l ++ trim_window p s.drained b ∷ []) d.through;
  }
  Step-Delivers (give_up s b x going lt r broken room) d = record {
    own = λ j c e. ground (arith, d.own j c);
    within = d.within;
    going = λ h. cc;
    ended = λ h.
        let same = d.own s.drained b r in
        ap (λ c. s.delivered ++ c ∷ []) same
        ∙ ap (λ l. s.delivered ++ l)
            (sym (
              drain_stop s.drained (p.n_chunks - s.drained) x (omega arith)
                (ap (λ (c : Buffer). c.error) (sym same) ∙ broken)))
        ∙ d.going going;
    through = sym (append_assoc s.received s.out (b ∷ [])) ∙ ap (λ l. l ++ b ∷ []) d.through;
  }
  Step-Delivers (receive s b rest e) d = record {
    own = d.own;
    within = d.within;
    going = d.going;
    ended = d.ended;
    through = append_assoc s.received (b ∷ []) rest ∙ ap (λ l. s.received ++ l) (sym e) ∙ d.through;
  }

  Reach-Delivers : {s : Race} → Reach s → Delivers s
  Reach-Delivers here = record {
    own = λ i b e. cc;
    within = omega arith;
    going = λ h. ap (λ n. drain p slot 0 n) (omega arith);
    ended = λ h. cc;
    through = refl;
  }
  Reach-Delivers (next r st) = Step-Delivers st (Reach-Delivers r)

  -- However the workers, the drainer and the consumer interleave, what has been delivered begins the
  -- sequence of the windows in order up to the first error, and is the whole of it when the drainer
  -- has given up or has passed the last slot; and it is what the consumer has received, followed by
  -- what waits in the channel between them.
  pub delivered_in_order :
      {s : Race}
      → Reach s
      → ((rest : List Buffer) × (s.delivered ++ rest ≡ drain p slot 0 p.n_chunks))
        × ((s.stopped ≡ true) ⊎ (s.drained ≡ p.n_chunks) → s.delivered ≡ drain p slot 0 p.n_chunks)
        × (s.received ++ s.out ≡ s.delivered)
  unfolding drain
  delivered_in_order {s} r =
      (begins (Bool-cases s.stopped), finished (Bool-cases s.stopped), d.through)
    where
      d : Delivers s
      d = Reach-Delivers r

      begins :
          (s.stopped ≡ true) ⊎ (s.stopped ≡ false)
          → (rest : List Buffer) × (s.delivered ++ rest ≡ drain p slot 0 p.n_chunks)
      begins (inl stop) = ([], append-nil s.delivered ∙ d.ended stop)
      begins (inr go) = (drain p slot s.drained (p.n_chunks - s.drained), d.going go)

      finished :
          (s.stopped ≡ true) ⊎ (s.stopped ≡ false)
          → (s.stopped ≡ true) ⊎ (s.drained ≡ p.n_chunks)
          → s.delivered ≡ drain p slot 0 p.n_chunks
      finished (inl stop) h = d.ended stop
      finished (inr go) (inl stop) = cc
      finished (inr go) (inr e) =
          sym (append-nil s.delivered)
          ∙ ap (λ n. s.delivered ++ drain p slot s.drained n) {x = 0} (omega arith)
          ∙ d.going go

-- ===== src/Reader/Plan/Race/Progress.antt =====
-- The race does not get stuck, and nothing but the number of slots bounds how far the workers run
-- ahead of the drainer.
use telegram_s.Base.{
  ℕ, zero, suc, ◌+◌, ◌≤◌, ◌<◌, ◌≡◌, refl, ap, Bool-cases, inl, inr, false, Option, none, some, List,
  [], ◌∷◌, length, length-append, ◌-◌, ◌*◌, if◌then◌else◌, arith, leb, leb→le, leb→lt,
}
use telegram_s.Storage.{Error}
use telegram_s.Reader.Buffer.{Buffer}
use telegram_s.Reader.Plan.{Plan, trim_window}
use telegram_s.Reader.Plan.Race.{
  Slot, free, fetching, ready, taken, Race, initial, Step, claim, publish, hand_on, give_up,
  receive, Reach, here, next,
}
use telegram_s.Reader.Plan.Race.Accounts.{
  is_fetching, count_taken, Accounts, count_move, Reach-Accounts,
}

module _ (p : Plan) (slot : ℕ → Buffer) (workers out_buffers : ℕ) where
  -- What is left to do, in steps: a claim and a publication for each slot that no worker has taken,
  -- the publications that are due, a send and a receipt for each slot that the drainer has not
  -- passed, the buffers in the channel, and an error that may come.
  abbrev pub work : Race → ℕ
  work s =
      2 * (p.n_chunks - s.next)
      + s.busy
      + 2 * (p.n_chunks - s.drained)
      + length s.out
      + (if s.stopped then 0 else 2)

  -- Whatever moves, less is left.
  work_falls :
      {s t : Race}
      → Step p slot workers out_buffers s t
      → Accounts p slot workers out_buffers s
      → work t < work s
  unfolding is_fetching
  work_falls (claim s lt f) a = omega arith
  work_falls (publish s i f) a =
      let due = count_move p slot workers out_buffers s i fetching (ready (slot i)) a f (λ e. cc) in
      omega arith
  work_falls (hand_on s b go lt r fine room) a =
      let size = length-append s.out (trim_window p s.drained b ∷ []) in omega arith
  work_falls (give_up s b x go lt r broken room) a =
      let size = length-append s.out (b ∷ []) in rw go (omega arith)
  work_falls (receive s b rest e) a = let size = ap length e in omega arith

  -- A worker or the drainer can move: a step after which the consumer has received no more.
  abbrev pub Moves : Race → Type 0
  Moves s = (t : Race) × Step p slot workers out_buffers s t × (t.received ≡ s.received)

  -- The consumer can take a buffer, and then there is room for the drainer's next one.
  abbrev pub MakesRoom : Race → Type 0
  MakesRoom s =
      (t : Race) × Step p slot workers out_buffers s t
      × (t.drained ≡ s.drained)
      × (length t.received ≡ length s.received + 1)
      × (length t.out < out_buffers)

  full_MakesRoom :
      (s : Race) (l : List Buffer)
      → s.out ≡ l
      → 0 < out_buffers
      → length s.out ≤ out_buffers
      → out_buffers ≤ length s.out
      → MakesRoom s
  full_MakesRoom s [] e pos fits full = absurd (let none_left = ap length e in omega arith)
  full_MakesRoom s (b ∷ rest) e pos fits full = (
    _,
    receive s b rest e,
    refl,
    length-append s.received (b ∷ []),
    let size = ap length e in omega arith,
  )

  -- With at least one worker and a channel to the consumer of capacity at least one, until the
  -- drainer has given up or has passed the last slot: while the channel has room, also when it is
  -- empty and the consumer waits, a worker or the drainer can move; when it is full, which blocks the
  -- drainer, the consumer can take a buffer, and then there is room. Every step lowers what is left to
  -- do, so the steps come to an end.
  pub no_deadlock :
      {s : Race}
      → Reach p slot workers out_buffers s
      → 0 < workers
      → 0 < out_buffers
      → s.stopped ≡ false
      → s.drained < p.n_chunks
      → (length s.out < out_buffers → Moves s)
        × (out_buffers ≤ length s.out → MakesRoom s)
        × ((t : Race) → Step p slot workers out_buffers s t → work t < work s)
  no_deadlock {s} r w pos go lt = (
    λ room. slot_cases room (s.slots s.drained) refl,
    full_MakesRoom s s.out refl pos a.fits,
    λ t st. work_falls st a,
  )
    where
      a : Accounts p slot workers out_buffers s
      a = Reach-Accounts p slot workers out_buffers r

      behind : s.slots s.drained ≡ free → s.next ≤ s.drained
      behind e = elim (Bool-cases (leb s.next s.drained)) [
        | inl le ↦ leb→le s.next s.drained le
        | inr past ↦ absurd (a.claimed s.drained (leb→lt s.next s.drained past) e)
      ]

      idle : s.slots s.drained ≡ free → s.busy < workers
      idle e = omega (
        arith,
        count_taken s.slots s.next (λ i h. a.front i (omega (arith, behind e))),
        a.in_flight,
      )

      error_cases :
          length s.out < out_buffers
          → (b : Buffer) → s.slots s.drained ≡ ready b
          → (o : Option Error) → b.error ≡ o
          → Moves s
      error_cases room b e none fine = (_, hand_on s b go lt e fine room, refl)
      error_cases room b e (some x) broken = (_, give_up s b x go lt e broken room, refl)

      slot_cases : length s.out < out_buffers → (v : Slot) → s.slots s.drained ≡ v → Moves s
      slot_cases room free e = (_, claim s (omega (arith, behind e)) (idle e), refl)
      slot_cases room fetching e = (_, publish s s.drained e, refl)
      slot_cases room (ready b) e = error_cases room b e b.error refl
      slot_cases room taken e = absurd (a.not_yet go s.drained (omega arith) e)

  -- The first k slots hold their buffers, and the drainer has taken none of them.
  pub record Prefetched (k : ℕ) (s : Race) : Type 0 where
    pub reached : Reach p slot workers out_buffers s
    pub claims : s.next ≡ k
    pub idle : s.busy ≡ 0
    pub held : (i : ℕ) → i < k → s.slots i ≡ ready (slot i)
    pub untouched : s.drained ≡ 0
    pub undelivered : s.delivered ≡ []

  prefetch :
      (k : ℕ) (s : Race)
      → 0 < workers
      → k < p.n_chunks
      → Prefetched k s
      → (t : Race) × Prefetched (suc k) t
  prefetch k s w lt h =
      let c = h.claims in
      let z = h.idle in
      (
        _,
        record {
          reached =
              next (next h.reached (claim s (omega arith) (omega arith)))
                (publish _ s.next (ground arith));
          claims = omega arith;
          idle = omega arith;
          held = λ i lt'. ground (arith, h.held i);
          untouched = h.untouched;
          undelivered = h.undelivered;
        },
      )

  -- The channels of the slots do not hold the workers back: even one worker can fetch every slot of
  -- the range before the drainer has taken the first.
  pub no_backpressure : (k : ℕ) → 0 < workers → k ≤ p.n_chunks → (s : Race) × Prefetched k s
  no_backpressure zero w h = (
    initial,
    record {
      reached = here;
      claims = refl;
      idle = refl;
      held = λ i lt. absurd (omega arith);
      untouched = refl;
      undelivered = refl;
    },
  )
  no_backpressure (suc k) w h =
      let (s, before) = no_backpressure k w (omega arith) in prefetch k s w (omega arith) before

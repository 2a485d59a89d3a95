-- ===== src/Reader/Plan/Race/Accounts.antt =====
-- What the slots, the counters and the channel of the race have to do with each other at any time.
use telegram_s.Base.{
  ℕ, zero, suc, ◌+◌, ◌≤◌, ◌<◌, ◌≡◌, ◌≢◌, refl, sym, ap, ◌∙◌, Bool-cases, inl, inr, false, List, [],
  ◌∷◌, ◌++◌, length, length-append, arith, ◌==◌, leb, leb→le, leb→lt,
}
use telegram_s.Reader.Buffer.{Buffer}
use telegram_s.Reader.Plan.{Plan}
use telegram_s.Reader.Plan.Race.{
  Slot, free, fetching, ready, taken, Race, update, Step, claim, publish, hand_on, give_up, receive,
  Reach, here, next,
}

unfoldable pub is_fetching : Slot → ℕ
is_fetching fetching = 1
is_fetching _ = 0

pub count : (ℕ → Slot) → ℕ → ℕ
count f zero = 0
count f (suc k) = is_fetching (f k) + count f k

count_beyond : (f : ℕ → Slot) (i k : ℕ) (v : Slot) → k ≤ i → count (update f i v) k ≡ count f k
unfolding count
count_beyond f i zero v h = refl
count_beyond f i (suc k) v h = ground (arith, count_beyond f i k v)

count_at :
    (f : ℕ → Slot) (i k : ℕ) (v : Slot)
    → i < k
    → count (update f i v) k + is_fetching (f i) ≡ count f k + is_fetching v
unfolding count
count_at f i zero v h = absurd (omega arith)
count_at f i (suc k) v h = elim (Bool-cases (k == i)) [
  | inl same ↦ ground (arith, count_beyond f i k v)
  | inr before ↦ rw before (omega (arith, count_at f i k v (ground arith)))
]

pub count_taken : (f : ℕ → Slot) (k : ℕ) → ((i : ℕ) → i < k → f i ≡ taken) → count f k ≡ 0
unfolding count is_fetching
count_taken f zero h = refl
count_taken f (suc k) h =
    rw (h k (omega arith)) (omega (arith, count_taken f k (λ i lt. h i (omega arith))))

module _ (p : Plan) (slot : ℕ → Buffer) (workers out_buffers : ℕ) where
  -- The slots before the drainer are taken, those that no worker has claimed are free, and `busy`
  -- counts those that are being fetched. The channel to the consumer holds what it has room for.
  pub record Accounts (s : Race) : Type 0 where
    pub front : (i : ℕ) → i < s.drained → s.slots i ≡ taken
    pub claimed : (i : ℕ) → i < s.next → s.slots i ≢ free
    pub unclaimed : (i : ℕ) → s.next ≤ i → s.slots i ≡ free
    pub not_yet : s.stopped ≡ false → (i : ℕ) → s.drained ≤ i → s.slots i ≢ taken
    pub in_flight : s.busy ≡ count s.slots s.next
    pub fits : length s.out ≤ out_buffers

  count_next : (f : ℕ → Slot) (k : ℕ) → count f (k + 1) ≡ is_fetching (f k) + count f k
  unfolding count
  count_next f k = ap (count f) {y = suc k} (omega arith)

  claimed_one : (i : ℕ) (f : ℕ → Slot) → is_fetching (update f i fetching i) ≡ 1
  unfolding is_fetching
  claimed_one i f = ground arith

  -- A slot that is not free any more has been claimed.
  claimed_before : (s : Race) → Accounts s → (i : ℕ) → s.slots i ≢ free → i < s.next
  claimed_before s a i h = elim (Bool-cases (leb s.next i)) [
    | inl beyond ↦ absurd (h (a.unclaimed i (leb→le s.next i beyond)))
    | inr below ↦ leb→lt s.next i below
  ]

  -- A claimed slot changes hands: the count changes as the slot does.
  pub count_move :
      (s : Race) (i : ℕ) (v w : Slot)
      → Accounts s
      → s.slots i ≡ v
      → v ≢ free
      → count (update s.slots i w) s.next + is_fetching v ≡ s.busy + is_fetching w
  count_move s i v w a e h =
      let at_i =
        count_at s.slots i s.next w (claimed_before s a i (λ free_i. h (sym e ∙ free_i))) in
      omega (arith, at_i, ap is_fetching e, a.in_flight)

  room_for :
      (l : List Buffer) (b : Buffer) → length l < out_buffers → length (l ++ b ∷ []) ≤ out_buffers
  room_for l b h = omega (arith, length-append l (b ∷ []))

  Step-Accounts : {s t : Race} → Step p slot workers out_buffers s t → Accounts s → Accounts t
  unfolding is_fetching
  Step-Accounts (claim s lt f) a = record {
    front = λ i h. ground (arith, a.front i, a.unclaimed i);
    claimed = λ i h. ground (arith, a.claimed i);
    unclaimed = λ i h. ground (arith, a.unclaimed i);
    not_yet = λ go i h. ground (arith, a.not_yet go i);
    in_flight = omega (
      arith,
      count_next (update s.slots s.next fetching) s.next,
      count_beyond s.slots s.next s.next fetching (omega arith),
      claimed_one s.next s.slots,
      a.in_flight,
    );
    fits = a.fits;
  }
  Step-Accounts (publish s i f) a = record {
    front = λ j h. ground (arith, a.front j);
    claimed = λ j h. ground (arith, a.claimed j);
    unclaimed = λ j h. ground (arith, a.unclaimed j);
    not_yet = λ go j h. ground (arith, a.not_yet go j);
    in_flight = omega (arith, count_move s i fetching (ready (slot i)) a f (λ e. cc));
    fits = a.fits;
  }
  Step-Accounts (hand_on s b go lt r fine room) a = record {
    front = λ j h. ground (arith, a.front j);
    claimed = λ j h. ground (arith, a.claimed j);
    unclaimed = λ j h. ground (arith, a.unclaimed j);
    not_yet = λ go' j h. ground (arith, a.not_yet go j);
    in_flight = omega (arith, count_move s s.drained (ready b) taken a r (λ e. cc));
    fits = room_for s.out _ room;
  }
  Step-Accounts (give_up s b x go lt r broken room) a = record {
    front = λ j h. ground (arith, a.front j);
    claimed = λ j h. ground (arith, a.claimed j);
    unclaimed = λ j h. ground (arith, a.unclaimed j);
    not_yet = λ stop. cc;
    in_flight = omega (arith, count_move s s.drained (ready b) taken a r (λ e. cc));
    fits = room_for s.out b room;
  }
  Step-Accounts (receive s b rest e) a = record {
    front = a.front;
    claimed = a.claimed;
    unclaimed = a.unclaimed;
    not_yet = a.not_yet;
    in_flight = a.in_flight;
    fits = let size = ap length e in omega (arith, a.fits);
  }

  pub Reach-Accounts : {s : Race} → Reach p slot workers out_buffers s → Accounts s
  unfolding count
  Reach-Accounts here = record {
    front = λ i h. absurd (omega arith);
    claimed = λ i h. absurd (omega arith);
    unclaimed = λ i h. refl;
    not_yet = λ go i h. λ e. cc;
    in_flight = refl;
    fits = omega arith;
  }
  Reach-Accounts (next r st) = Step-Accounts st (Reach-Accounts r)

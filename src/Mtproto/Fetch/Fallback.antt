-- ===== src/Mtproto/Fetch/Fallback.antt =====
-- `DownloadRange`: which bot's answer is taken.
use telegram_s.Base.{
  ℕ, zero, suc, ◌+◌, ◌≤◌, ◌<◌, ◌≡◌, sym, ap, ◌∙◌, ◌≢◌, ==_iff, ◌⊎◌, inl, inr, true, false,
  Bool-cases, arith, ◌==◌,
}
use telegram_s.Base.Bytes.{Bytes}
use telegram_s.Storage.{Error, Result, ok, err}
use telegram_s.Mtproto.Fetch.{is_membership_error, tried, fall_back, with_fallback}

module _ {S : Type 0} (via : ℕ → S → Result Bytes × S) where
  fall_back_skip :
      (left i primary : ℕ) (e : Error) (s : S)
      → (i == primary) ≡ true
      → fall_back via (suc left) i primary e s ≡ fall_back via left (i + 1) primary e s
  unfolding fall_back
  fall_back_skip left i primary e s h = ground arith

  fall_back_try :
      (left i primary : ℕ) (e : Error) (s : S)
      → (i == primary) ≡ false
      → fall_back via (suc left) i primary e s
        ≡ tried via (fall_back via left (i + 1) primary) (via i s)
  unfolding fall_back
  fall_back_try left i primary e s h = ground arith

module _ {S : Type 0} (via : ℕ → S → Result Bytes × S) (body : Bytes) (Fine : S → Type 0) where
  -- The bot brings the bytes from every state that is fine.
  abbrev pub Brings : ℕ → Type 0
  Brings bot = (s : S) → Fine s → (via bot s).0 ≡ ok body

  -- The bot brings the bytes, or an error that says nothing of the other bots; the state stays fine.
  abbrev pub Tries : ℕ → Type 0
  Tries bot =
      (s : S)
      → Fine s
      → Fine (via bot s).1
        × (((via bot s).0 ≡ ok body)
            ⊎ ((e : Error) × ((via bot s).0 ≡ err e) × (is_membership_error e ≡ false)))

  tried-Brings :
      (next : Error → S → Result Bytes × S) (a : Result Bytes × S)
      → Fine a.1
      → ((a.0 ≡ ok body) ⊎ ((e : Error) × (a.0 ≡ err e) × (is_membership_error e ≡ false)))
      → ((e : Error) (s : S) → Fine s → (next e s).0 ≡ ok body)
      → (tried via next a).0 ≡ ok body
  unfolding tried
  tried-Brings next (ok b, s) fine (inl e) k = e
  tried-Brings next (ok b, s) fine (inr (e, h, m)) k = absurd (ground arith)
  tried-Brings next (err x, s) fine (inl e) k = absurd (ground arith)
  tried-Brings next (err x, s) fine (inr (e, h, m)) k = ground (arith, k x s fine)

  tried-brought :
      (next : Error → S → Result Bytes × S) (a : Result Bytes × S)
      → a.0 ≡ ok body
      → (tried via next a).0 ≡ ok body
  unfolding tried
  tried-brought next (ok b, s) h = h
  tried-brought next (err x, s) h = absurd (ground arith)

  fall_back-Brings :
      (left i primary good : ℕ) (e : Error) (s : S)
      → ((bot : ℕ) → Tries bot)
      → Brings good
      → i ≤ good
      → good < i + left
      → good ≢ primary
      → Fine s
      → (fall_back via left i primary e s).0 ≡ ok body
  fall_back-Brings zero i primary good e s tries brings lo hi ne fine = absurd (omega arith)
  fall_back-Brings (suc left) i primary good e s tries brings lo hi ne fine =
      elim (Bool-cases (i == primary)) [
        | inl same ↦
            ap (λ a. a.0) (fall_back_skip via left i primary e s same)
            ∙ fall_back-Brings left (i + 1) primary good e s tries brings (ground arith)
                (omega arith) ne fine
        | inr other ↦
            ap (λ a. a.0) (fall_back_try via left i primary e s other)
            ∙ elim (Bool-cases (i == good)) [
              | inl here_it_is ↦
                  tried-brought (fall_back via left (i + 1) primary) (via i s)
                    (ap (λ b. (via b s).0) ((==_iff i good).0 here_it_is) ∙ brings s fine)
              | inr not_yet ↦
                  let (still, answer) = tries i s fine in
                  tried-Brings (fall_back via left (i + 1) primary) (via i s) still answer
                    (λ e s fine.
                      fall_back-Brings left (i + 1) primary good e s tries brings (ground arith)
                        (omega arith) ne fine)
            ]
      ]

  -- If one bot of the pool brings the bytes, and the tries of all the others end with the bytes or
  -- with an error that is no membership error, then the download brings the bytes, whichever bot it
  -- starts with.
  pub with_fallback-Brings :
      (bots primary good : ℕ) (s : S)
      → ((bot : ℕ) → Tries bot)
      → Brings good
      → good < bots
      → Fine s
      → (with_fallback via bots primary s).0 ≡ ok body
  unfolding with_fallback
  with_fallback-Brings bots primary good s tries brings lt fine =
      let (still, answer) = tries primary s fine in
      elim (Bool-cases (good == primary)) [
        | inl same ↦
            tried-brought (fall_back via bots 0 primary) (via primary s)
              (ap (λ b. (via b s).0) (sym ((==_iff good primary).0 same)) ∙ brings s fine)
        | inr other ↦
            tried-Brings (fall_back via bots 0 primary) (via primary s) still answer (λ e s fine.
              fall_back-Brings bots 0 primary good e s tries brings (omega arith) (omega arith)
                (ground arith) fine)
      ]

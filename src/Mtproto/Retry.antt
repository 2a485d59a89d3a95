-- ===== src/Mtproto/Retry.antt =====
-- internal/storage/telegram/mtproto/retry.go: the retry middleware. What the n-th call of the next
-- invoker returns is `next n`.
use mathlib.Core.Path.{subst}
use telegram_s.Base.{
  ℕ, zero, suc, ◌+◌, ◌≤◌, ◌<◌, ◌≡◌, refl, sym, ap, ◌∙◌, ◌-◌, ◌==◌, inl, inr, Bool, true, false,
  Bool-cases, List, [], ◌∷◌, ◌++◌, arith, if◌then◌else◌, any,
}
use telegram_s.Base.Bytes.{Bytes, codes, equal}
use telegram_s.Storage.{Error, rpc, fault, Result, ok, err}

abbrev pub retryable_types : List Bytes
retryable_types =
    codes "Timedout"
    ∷ codes "No workers running"
    ∷ codes "RPC_CALL_FAIL"
    ∷ codes "RPC_MCGET_FAIL"
    ∷ codes "WORKER_BUSY_TOO_LONG_RETRY"
    ∷ codes "memory limit exit"
    ∷ codes "connection dead"
    ∷ codes "engine was closed"
    ∷ codes "STORAGE_CHOOSE_VOLUME_FAILED"
    ∷ []

-- tgerr.Is(err, types...)
unfoldable pub is_type : Error → List Bytes → Bool
is_type (rpc typ) types = any (equal typ) types
is_type _ types = false

pub record RetryMiddleware : Type 0 where
  pub max : ℕ
  pub types : List Bytes

-- newRetry(max, extra...)
unfoldable pub new_retry : ℕ → List Bytes → RetryMiddleware
new_retry max extra = record { max = max; types = extra ++ retryable_types }

-- The result and the number of calls made.
abbrev pub Attempts : Type 0 → Type 0
Attempts A = Result A × ℕ

module _ {A : Type 0} (r : RetryMiddleware) (next : ℕ → Result A) where
  -- One attempt: `again` is the rest of the loop with this error as the last one.
  attempt : ℕ → (Error → Attempts A) → Result A → Attempts A
  attempt n again (ok a) = (ok a, suc n)
  attempt n again (err e) = let rest = again e in if is_type e r.types then rest else (err e, suc n)

  pub attempts : ℕ → ℕ → Error → Attempts A
  unfolding attempt
  attempts zero n last = (err last, n)
  attempts (suc left) n last = attempt n (λ e. attempts left (suc n) e) (next n)

  -- With no attempt at all the error wraps nil.
  unfoldable pub handle : Attempts A
  unfolding attempts
  handle = attempts r.max 0 (fault 0)

  -- The calls up to the n-th have failed in a way that is tried again.
  abbrev pub Retried : ℕ → Type 0
  Retried n = (k : ℕ) → k < n → (e : Error) × (next k ≡ err e) × (is_type e r.types ≡ true)

  -- How the loop ended: with the last call's own result, at most `max` calls, each before the last
  -- one failing with a retryable error, and short of `max` only on a result that is not retryable.
  pub record Handled (outcome : Attempts A) : Type 0 where
    pub bounded : outcome.1 ≤ r.max
    pub called : 0 < outcome.1
    pub own : outcome.0 ≡ next (outcome.1 - 1)
    pub retried : Retried (outcome.1 - 1)
    pub final : outcome.1 < r.max → (e : Error) → outcome.0 ≡ err e → is_type e r.types ≡ false

  attempt-Handled :
      (n left : ℕ) (again : Error → Attempts A) (o : Result A)
      → suc n + left ≡ r.max
      → Retried n
      → next n ≡ o
      → ((e : Error) → o ≡ err e → is_type e r.types ≡ true → Handled (again e))
      → Handled (attempt n again o)
  unfolding attempt
  attempt-Handled n left again (ok a) m h e k = record {
    bounded = omega arith;
    called = omega arith;
    own = sym e ∙ ap next (omega arith);
    retried = λ i lt. h i (omega arith);
    final = λ lt x q. cc;
  }
  attempt-Handled n left again (err x) m h e k = elim (Bool-cases (is_type x r.types)) [
    | inl more ↦ rw more (k x refl more)
    | inr stop ↦ rw stop (record {
      bounded = omega arith;
      called = omega arith;
      own = sym e ∙ ap next (omega arith);
      retried = λ i lt. h i (omega arith);
      final = λ lt y q. ground (arith, q, stop);
    })
  ]

  Retried-suc :
      (n : ℕ) (e : Error) → Retried n → next n ≡ err e → is_type e r.types ≡ true → Retried (suc n)
  Retried-suc n e h q t k lt = elim (Bool-cases (k == n)) [
    | inl same ↦ let k-eq : k ≡ n = ground arith in (e, ap next k-eq ∙ q, t)
    | inr less ↦ h k (ground arith)
  ]

  attempts-Handled :
      (left n : ℕ) (last : Error)
      → n + left ≡ r.max
      → 0 < n
      → Retried n
      → next (n - 1) ≡ err last
      → Handled (attempts left n last)
  unfolding attempts
  attempts-Handled zero n last m pos h e = record {
    bounded = omega arith;
    called = pos;
    own = sym e;
    retried = λ i lt. h i (omega arith);
    final = λ lt. absurd (omega arith);
  }
  attempts-Handled (suc left) n last m pos h e =
      attempt-Handled n left (λ x. attempts left (suc n) x) (next n) (omega arith) h refl
        (λ x q t.
          attempts-Handled left (suc n) x (omega arith) (omega arith) (Retried-suc n x h q t)
            (ap next (omega arith) ∙ q))

  first_attempt : (left : ℕ) → suc left ≡ r.max → Handled (attempts (suc left) 0 (fault 0))
  unfolding attempts
  first_attempt left m =
      attempt-Handled 0 left (λ x. attempts left 1 x) (next 0) (omega arith)
        (λ k lt. absurd (omega arith)) refl
        (λ x q t.
          attempts-Handled left 1 x (omega arith) (omega arith)
            (Retried-suc 0 x (λ k lt. absurd (omega arith)) q t) q)

  -- The middleware returns the result of its last call, makes at least one and at most `max` calls,
  -- repeats a call only after an error of a retryable type, and stops before `max` only on success
  -- or on an error of another type.
  pub handle-Handled : 0 < r.max → Handled handle
  unfolding handle
  handle-Handled pos =
      let e : r.max ≡ suc (r.max - 1) = omega arith in
      subst (λ m. Handled (attempts m 0 (fault 0))) (sym e) (first_attempt (r.max - 1) (sym e))

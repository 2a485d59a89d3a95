-- ===== src/Reader/Buffer/Primed.antt =====
-- `Prime`: nothing is lost before the first `Read`.
use telegram_s.Base.{◌≡◌, refl, Option, none, some, List, [], ◌∷◌, ◌++◌, drop}
use telegram_s.Storage.{Error}
use telegram_s.Reader.Buffer.{Buffer, Status, more, eof, failed, Reader, first_buffer, prime, bytes}
use telegram_s.Reader.Buffer.Drain.{pending, pending_out, Pending}

-- A failure is what the reader would report first; otherwise the same bytes are still to come.
abbrev pub IsPrimed : Pending → Status × Reader → Type 0
IsPrimed p (failed e, r) = p ≡ ([], failed e)
IsPrimed p (more, r) = pending r ≡ p
IsPrimed p (eof, r) = pending r ≡ p

-- Priming a fresh reader loses nothing: a failure is what `Read` would have reported first, and
-- otherwise the same bytes are still to come, with the same end.
pub prime-IsPrimed :
    (out : List Buffer)
    → IsPrimed (pending_out out) (prime (record { out = out; cur = none; status = more }))
unfolding prime first_buffer bytes
prime-IsPrimed [] = refl
prime-IsPrimed (b ∷ out) = first_cases b.error
  where
    first_cases :
        (e : Option Error)
        → IsPrimed
            (elim e as (λ e. Pending) [
              | some e ↦ ([], failed e)
              | none ↦ (drop b.offset b.buf ++ (pending_out out).0, (pending_out out).1)
            ])
            (elim e as (λ e. Status × Reader) [
              | none ↦ (more, record { out = out; cur = some b; status = more })
              | some e ↦ (failed e, record { out = out; cur = none; status = failed e })
            ])
    first_cases none = refl
    first_cases (some e) = refl

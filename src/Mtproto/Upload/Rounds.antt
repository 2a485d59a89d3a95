-- ===== src/Mtproto/Upload/Rounds.antt =====
-- The rounds of `Upload`: what a round reads and does next, and the number of rounds.
use telegram_s.Base.{
  ℕ, ◌+◌, ◌≤◌, ◌≡◌, refl, ◌∙◌, inl, inr, true, false, Bool-cases, elim-none, elim-some, none, some,
  List, arith, ltb, leb, length, take, drop, length-take,
}
use telegram_s.Base.Bytes.{Bytes}
use telegram_s.Storage.{Error, Result, ok, err, Chunk}
use telegram_s.Mtproto.Api.{Telegram}
use telegram_s.Mtproto.Pool.{Remote}
use telegram_s.Mtproto.Split.{Body, Piece, copy_limit}
use telegram_s.Mtproto.Upload.{Options, went, cleanup, after_round}

-- A read either fills the piece, and there are fewer bytes left, or it comes up short at the end.
pub copy_limit-short :
    (limit : ℕ) (body : Body)
    → ltb (length (copy_limit limit body).got) limit ≡ true
    → ((copy_limit limit body).got ≡ body.bytes) × ((copy_limit limit body).failed ≡ body.error)
unfolding copy_limit
copy_limit-short limit body h = elim (Bool-cases (leb limit (length body.bytes))) [
  | inl full ↦ absurd (let g = rw full at h in ground (arith, length-take limit body.bytes))
  | inr short ↦ rw short (refl, refl)
]

pub copy_limit-full :
    (limit : ℕ) (body : Body)
    → ltb (length (copy_limit limit body).got) limit ≡ false
    → (limit ≤ length body.bytes)
      × ((copy_limit limit body).got ≡ take limit body.bytes)
      × ((copy_limit limit body).rest ≡ record body { bytes = drop limit body.bytes })
unfolding copy_limit
copy_limit-full limit body h = elim (Bool-cases (leb limit (length body.bytes))) [
  | inl full ↦ rw full (ground arith, refl, refl)
  | inr short ↦ absurd (let g = rw short at h in ground arith)
]

-- What follows a round that went well, in its three cases.
module _ (t : Telegram) (o : Options)
    (next : ℕ
      → Body
      → List Chunk
      → ℕ
      → Remote (Telegram.Channel t)
      → Result (List Chunk) × Remote (Telegram.Channel t))
    (acc chunks : List Chunk) (seq offset : ℕ) (piece : Piece)
    (r : Remote (Telegram.Channel t)) where
  pub after_failed :
      (e : Error)
      → piece.failed ≡ some e
      → after_round t o next acc seq piece (went chunks offset r) ≡ (err e, cleanup t o chunks r)
  unfolding after_round
  after_failed e h = elim-some _ _ piece.failed h

  pub after_short :
      piece.failed ≡ none
      → ltb (length piece.got) o.chunk_size ≡ true
      → after_round t o next acc seq piece (went chunks offset r) ≡ (ok chunks, r)
  unfolding after_round
  after_short h short = elim-none _ _ piece.failed h ∙ rw short refl

  pub after_full :
      piece.failed ≡ none
      → ltb (length piece.got) o.chunk_size ≡ false
      → after_round t o next acc seq piece (went chunks offset r)
        ≡ next (seq + 1) piece.rest chunks offset r
  unfolding after_round
  after_full h full = elim-none _ _ piece.failed h ∙ rw full refl

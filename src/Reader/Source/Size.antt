-- ===== src/Reader/Source/Size.antt =====
-- `ChunkSize`: the halving loop ends by its own test, and what its result is between.
use telegram_s.Base.{ℕ, ◌*◌, ◌^◌, ◌≤◌, ◌≡◌, ◌⊎◌}

-- What a window `cs` of a range of `span` bytes becomes: within twice the span unless small.
abbrev pub Fits : ℕ → ℕ → Type 0
Fits cs span = (cs ≤ 64 * 2 ^ 10) ⊎ ((cs ≤ span * 2) ⊎ (span ≡ 0))

-- ===== src/Reader/Plan/Aligned.antt =====
-- What `New` plans: whole slots that cover the range, and no slot that lies outside it.
use native.Mathlib.Nat.{div-eq_of_eq-mul_left, mul-sub, mod-lt, mul-mod_left}
use telegram_s.Base.{
  ℕ, ◌+◌, ◌-◌, ◌*◌, ◌/◌, ◌%◌, ◌^◌, ◌≤◌, ◌<◌, ◌≡◌, refl, Bool-cases, inl, inr, arith, ap, ◌∙◌, ◌==◌,
  if◌then◌else◌, le→ltb, lt→leb,
}
use telegram_s.Reader.Plan.{Plan, plan, plan_of, align_up, slot_offset}

-- The slots begin at a multiple of the chunk size, in the slot that holds the first byte, and end
-- with the slot that holds the last one.
pub record Covers (p : Plan) (start end : ℕ) : Type 0 where
  pub starts : p.start ≡ start
  pub ends : p.end ≡ end
  pub positive : 0 < p.chunk_size
  pub aligned : p.aligned_start % p.chunk_size ≡ 0
  pub first : p.aligned_start ≤ start
  pub first_needed : start < p.aligned_start + p.chunk_size
  pub last : end ≤ slot_offset p p.n_chunks
  pub last_needed : slot_offset p p.n_chunks < end + p.chunk_size

align_down : (start cs : ℕ) → 0 < cs → start - start % cs ≡ start / cs * cs
align_down start cs h = grind arith

align_up-mul :
    (end cs : ℕ)
    → 0 < cs
    → (k : ℕ) × (align_up end cs ≡ k * cs) × (end ≤ k * cs) × (k * cs < end + cs)
align_up-mul end cs h = elim (Bool-cases (end % cs == 0)) [
  | inl e ↦ (end / cs, rw e (grind arith), grind arith, grind arith)
  | inr e ↦ (end / cs + 1, rw e (grind arith), grind arith, grind arith)
]

module _ (start end cs : ℕ) (h : 0 < cs) (lt : start < end) where
  -- The slots between two multiples of the chunk size.
  slots_between :
      (j k : ℕ)
      → start - start % cs ≡ j * cs
      → align_up end cs ≡ k * cs
      → start - start % cs ≤ align_up end cs
      → (start - start % cs) + (align_up end cs - (start - start % cs)) / cs * cs ≡ align_up end cs
  slots_between j k down up le =
      let count : (align_up end cs - (start - start % cs)) / cs ≡ k - j =
        div-eq_of_eq-mul_left h (omega (arith, mul-sub cs k j)) in
      let count' = ap (λ n. n * cs) count in omega (arith, mul-sub cs k j)

  plan_of-Covers : Covers (plan_of cs start end) start end
  unfolding plan_of
  plan_of-Covers =
      let (k, up, le, close) = align_up-mul end cs h in
      let down = align_down start cs h in
      let small = mod-lt start h in
      let sum = slots_between (start / cs) k down up (omega arith) in
      rw (lt→leb end start lt) (record {
        starts = refl;
        ends = refl;
        positive = h;
        aligned = ap (λ n. n % cs) down ∙ mul-mod_left (start / cs) cs;
        first = omega arith;
        first_needed = omega arith;
        last = omega arith;
        last_needed = omega arith;
      })

-- Whatever window the source asks for, the plan of a range that is not empty covers it with
-- aligned slots, the first and the last of which are needed.
pub plan-Covers :
    (source_size : ℕ → ℕ → ℕ) (start end : ℕ)
    → start < end
    → Covers (plan source_size start end) start end
unfolding plan
plan-Covers source_size start end lt =
    let asked = source_size start end in
    rw (le→ltb end start (omega arith))
      (plan_of-Covers start end (if asked == 0 then 2 ^ 20 else asked) (ground arith) lt)

-- An empty range has no slots.
pub plan_empty :
    (source_size : ℕ → ℕ → ℕ) (start end : ℕ)
    → end ≤ start
    → (plan source_size start end).n_chunks ≡ 0
unfolding plan plan_of
plan_empty source_size start end h = ground arith

-- ===== src/Reader/Source/Locate.antt =====
-- `locate`: sort.Search finds the first index, and the message before it holds the offset.
use telegram_s.Base.{
  ℕ, zero, suc, ◌+◌, ◌-◌, ◌/◌, ◌≤◌, ◌<◌, ◌≡◌, refl, Bool, true, false, Bool-cases, inl, inr, Option,
  none, some, List, [], ◌∷◌, arith, ltb, length, get_elem?, Option-cases,
}
use telegram_s.Reader.Source.{ChunkLoc, search_loop, sort_search, offset_above, locate, loc_before}

pub record IsFirst (f : ℕ → Bool) (r : ℕ) : Type 0 where
  pub before : (k : ℕ) → k < r → f k ≡ false
  pub from : (k : ℕ) → r ≤ k → f k ≡ true

module _ (f : ℕ → Bool) (mono : (a b : ℕ) → a ≤ b → f a ≡ true → f b ≡ true) where
  false_below : (h k : ℕ) → f h ≡ false → k < h + 1 → f k ≡ false
  false_below h k e lt = elim (Bool-cases (f k)) [
    | inl t ↦ absurd (ground (arith, mono k h))
    | inr e' ↦ e'
  ]

  search_loop-IsFirst :
      (fuel i j : ℕ)
      → j ≤ i + fuel
      → i ≤ j
      → ((k : ℕ) → k < i → f k ≡ false)
      → ((k : ℕ) → j ≤ k → f k ≡ true)
      → IsFirst f (search_loop fuel f i j)
  unfolding search_loop
  search_loop-IsFirst zero i j le ij lo hi = record {
    before = lo;
    from = λ k h. hi k (omega arith);
  }
  search_loop-IsFirst (suc fuel) i j le ij lo hi = elim (Bool-cases (ltb i j)) [
    | inr stop ↦ rw stop (record { before = lo; from = λ k h. hi k (ground arith) })
    | inl go ↦ rw go (elim (Bool-cases (f ((i + j) / 2))) [
      | inl t ↦ rw t (
          search_loop-IsFirst fuel i ((i + j) / 2) (ground arith) (ground arith) lo
            (λ k h. mono ((i + j) / 2) k h t))
      | inr e ↦ rw e (
          search_loop-IsFirst fuel ((i + j) / 2 + 1) j (ground arith) (ground arith)
            (λ k h. false_below ((i + j) / 2) k e h) hi)
    ])
  ]

  pub sort_search-IsFirst : (n : ℕ) → ((k : ℕ) → n ≤ k → f k ≡ true) → IsFirst f (sort_search n f)
  unfolding sort_search
  sort_search-IsFirst n hi =
      search_loop-IsFirst n 0 n (omega arith) (omega arith) (λ k h. absurd (omega arith)) hi

-- The messages lie one behind another from `start` on.
abbrev pub IsContiguous : ℕ → List ChunkLoc → Type 0
IsContiguous start [] = Unit
IsContiguous start (l ∷ ls) = (l.offset ≡ start) × IsContiguous (start + l.size) ls

abbrev pub extent : List ChunkLoc → ℕ
extent [] = 0
extent (l ∷ ls) = l.size + extent ls

-- Where the message behind number `i` begins, or the object ends.
abbrev Next : ℕ → List ChunkLoc → Option ChunkLoc → ChunkLoc → Type 0
Next start locs none l = l.offset + l.size ≡ start + extent locs
Next start locs (some m) l = m.offset ≡ l.offset + l.size

Next-cons :
    (start : ℕ) (x : ChunkLoc) (ls : List ChunkLoc) (o : Option ChunkLoc) (l : ChunkLoc)
    → Next (start + x.size) ls o l
    → Next start (x ∷ ls) o l
Next-cons start x ls none l h = omega arith
Next-cons start x ls (some m) l h = h

Next-of :
    (start : ℕ) (locs : List ChunkLoc) (i : ℕ) (l : ChunkLoc)
    → IsContiguous start locs
    → get_elem? locs i ≡ some l
    → Next start locs (get_elem? locs (suc i)) l
Next-of start [] i l c e = cc
Next-of start (x ∷ []) zero l c e = ground arith
Next-of start (x ∷ y ∷ ls) zero l c e = ground arith
Next-of start (x ∷ ls) (suc i) l c e =
    Next-cons start x ls (get_elem? ls (suc i)) l (Next-of (start + x.size) ls i l c.1 e)

offset_ge :
    (start : ℕ) (locs : List ChunkLoc) (i : ℕ) (l : ChunkLoc)
    → IsContiguous start locs
    → get_elem? locs i ≡ some l
    → start ≤ l.offset
offset_ge start [] i l c e = cc
offset_ge start (x ∷ ls) zero l c e = ground arith
offset_ge start (x ∷ ls) (suc i) l c e = omega (arith, offset_ge (start + x.size) ls i l c.1 e)

offset_above_mono :
    (start : ℕ) (locs : List ChunkLoc) (offset a b : ℕ)
    → IsContiguous start locs
    → a ≤ b
    → offset_above locs offset a ≡ true
    → offset_above locs offset b ≡ true
offset_above_mono start [] offset a b c le h = refl
offset_above_mono start (x ∷ ls) offset zero zero c le h = h
offset_above_mono start (x ∷ ls) offset (suc a) zero c le h = absurd (omega arith)
offset_above_mono start (x ∷ ls) offset zero (suc b) c le h = elim (Option-cases (get_elem? ls b)) [
  | inl e ↦ rw (e, offset_above)
  | inr (l, e) ↦ rw (e, offset_above) (ground (arith, offset_ge (start + x.size) ls b l c.1 e))
]
offset_above_mono start (x ∷ ls) offset (suc a) (suc b) c le h =
    offset_above_mono (start + x.size) ls offset a b c.1 (omega arith) h

get_elem?_past : (locs : List ChunkLoc) (k : ℕ) → length locs ≤ k → get_elem? locs k ≡ none
get_elem?_past [] k h = refl
get_elem?_past (x ∷ ls) zero h = absurd (omega arith)
get_elem?_past (x ∷ ls) (suc k) h = get_elem?_past ls k (omega arith)

-- What `locate` returns for an offset inside the object.
pub record Located (locs : List ChunkLoc) (offset : ℕ) : Type 0 where
  pub index : ℕ
  pub loc : ChunkLoc
  pub at_index : get_elem? locs index ≡ some loc
  pub starts : loc.offset ≤ offset
  pub ends : offset < loc.offset + loc.size
  pub result : locate locs offset ≡ some (loc, offset - loc.offset)

module _ (locs : List ChunkLoc) (offset : ℕ) (c : IsContiguous 0 locs)
    (h : offset < extent locs) where
  first : IsFirst (offset_above locs offset) (sort_search (length locs) (offset_above locs offset))
  first =
      sort_search-IsFirst (offset_above locs offset) (λ a b. offset_above_mono 0 locs offset a b c)
        (length locs) (λ k le. rw (get_elem?_past locs k le, offset_above))

  ends_of :
      (l : ChunkLoc) (o : Option ChunkLoc)
      → Next 0 locs o l
      → elim o [ none ↦ true | some m ↦ ltb offset m.offset ] ≡ true
      → offset < l.offset + l.size
  ends_of l none n t = omega arith
  ends_of l (some m) n t = ground arith

  Located-at :
      (i : ℕ)
      → IsFirst (offset_above locs offset) (suc i)
      → (o : Option ChunkLoc) → get_elem? locs i ≡ o
      → elim o [ none ↦ true | some m ↦ ltb offset m.offset ] ≡ false
      → sort_search (length locs) (offset_above locs offset) ≡ suc i
      → Located locs offset
  Located-at i f none e b s = cc
  Located-at i f (some l) e b s =
      let past =
        ends_of l (get_elem? locs (suc i)) (Next-of 0 locs i l c e)
          (f.from (suc i) (omega arith)) in
      record {
        index = i;
        loc = l;
        at_index = e;
        starts = ground arith;
        ends = past;
        result = unfold locate in rw (s, loc_before) (rw e (ground arith));
      }

  not_first :
      (ls : List ChunkLoc)
      → IsContiguous 0 ls
      → offset < extent ls
      → offset_above ls offset 0 ≡ false
  not_first [] c h = absurd (omega arith)
  not_first (x ∷ ls) c h = ground arith

  Located-from :
      (r : ℕ)
      → sort_search (length locs) (offset_above locs offset) ≡ r
      → IsFirst (offset_above locs offset) r
      → Located locs offset
  Located-from zero s f = cc (f.from 0 (omega arith), not_first locs c h)
  Located-from (suc i) s f = Located-at i f (get_elem? locs i) refl (f.before i (omega arith)) s

  -- Every offset below the end of a gapless chunk map is found, in the message that holds it.
  pub locate-Located : Located locs offset
  locate-Located = Located-from (sort_search (length locs) (offset_above locs offset)) refl first

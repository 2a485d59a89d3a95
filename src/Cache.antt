-- ===== src/Cache.antt =====
-- internal/cache/cache.go: the map whose entries expire. Times are numbers of nanoseconds; the map
-- is a function of its keys, and `same` is the equality of keys.
use telegram_s.Base.{
  ℕ, ◌+◌, ◌≤◌, ◌<◌, ◌≡◌, refl, Bool, true, false, Option, none, some, arith, ltb, ◌==◌,
  if◌then◌else◌,
}

pub record Entry (V : Type 0) : Type 0 where
  pub value : V
  pub expires_at : ℕ

pub record Cache (K V : Type 0) : Type 0 where
  pub items : K → Option (Entry V)
  pub default_ttl : ℕ

module _ {V : Type 0} where
  -- An entry that is past its time is dropped where it is met.
  unexpired : ℕ → Option (Entry V) → Option (Entry V)
  unexpired now none = none
  unexpired now (some e) = if ltb e.expires_at now then none else some e

  value_of : Option (Entry V) → Option V
  value_of none = none
  value_of (some e) = some e.value

module _ {K V : Type 0} (same : K → K → Bool) where
  -- Delete
  unfoldable pub delete : K → Cache K V → Cache K V
  delete key c = record c { items = λ k. if same key k then none else c.items k }

  -- Get: the value, and the cache behind it.
  unfoldable pub get : ℕ → K → Cache K V → Option V × Cache K V
  unfolding unexpired value_of
  get now key c = (
    value_of (unexpired now (c.items key)),
    record c { items = λ k. if same key k then unexpired now (c.items k) else c.items k },
  )

  -- Set; a ttl of 0 is the default one.
  unfoldable pub set : ℕ → K → V → ℕ → Cache K V → Cache K V
  set now key value ttl c = record c {
    items = λ k.
        if same key k
        then some
            (record { value = value; expires_at = now + (if ttl == 0 then c.default_ttl else ttl) })
        else c.items k;
  }

  -- One tick of the sweeper.
  unfoldable pub sweep : ℕ → Cache K V → Cache K V
  unfolding unexpired
  sweep now c = record c { items = λ k. unexpired now (c.items k) }

  unexpired_later :
      (now later : ℕ) (o : Option (Entry V))
      → now ≤ later
      → unexpired later (unexpired now o) ≡ unexpired later o
  unfolding unexpired
  unexpired_later now later none h = refl
  unexpired_later now later (some e) h = ground arith

  -- Neither a sweep nor a lookup of any key changes what a lookup at that time or later finds.
  pub get-sweep :
      (now later : ℕ) (key other : K) (c : Cache K V)
      → now ≤ later
      → ((get later key (sweep now c)).0 ≡ (get later key c).0)
        × ((get later key (get now other c).1).0 ≡ (get later key c).0)
  unfolding get sweep
  get-sweep now later key other c h =
      let e = unexpired_later now later (c.items key) h in (rw e refl, looked (same other key))
    where
      looked :
          (b : Bool)
          → value_of (unexpired later (if b then unexpired now (c.items key) else c.items key))
            ≡ value_of (unexpired later (c.items key))
      looked true = rw (unexpired_later now later (c.items key) h) refl
      looked false = refl

  -- What is set is found until its time is over, and not beyond; other keys are not touched, and a
  -- deleted key is not found.
  pub get-set :
      (now later ttl : ℕ) (key other : K) (value : V) (c : Cache K V)
      → same key key ≡ true
      → same key other ≡ false
      → 0 < ttl
      → (later ≤ now + ttl → (get later key (set now key value ttl c)).0 ≡ some value)
        × (now + ttl < later → (get later key (set now key value ttl c)).0 ≡ none)
        × ((get later other (set now key value ttl c)).0 ≡ (get later other c).0)
        × ((get later key (delete key c)).0 ≡ none)
        × ((get later other (delete key c)).0 ≡ (get later other c).0)
  unfolding get set delete unexpired value_of
  get-set now later ttl key other value c self diff pos = (
    λ h. rw self (ground arith),
    λ h. rw self (ground arith),
    rw diff refl,
    rw self refl,
    rw diff refl,
  )

  pub get-delete :
      (now : ℕ) (key : K) (c : Cache K V)
      → same key key ≡ true
      → (get now key (delete key c)).0 ≡ none
  unfolding get delete unexpired value_of
  get-delete now key c self = rw self refl

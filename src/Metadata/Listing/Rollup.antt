-- ===== src/Metadata/Listing/Rollup.antt =====
-- A page of a listing against the whole listing.
use telegram_s.Base.{
  ℕ, ◌+◌, ◌-◌, ◌≤◌, ◌<◌, ◌≡◌, refl, sym, ap, ◌∙◌, inl, inr, Bool, true, false, Bool-cases, Option,
  none, some, List, [], ◌∷◌, ◌++◌, arith, ltb, ◌==◌, if◌then◌else◌, take, length, append_assoc,
  append-nil,
}
use mathlib.Core.Path.{subst}
use telegram_s.Base.Slices.{take-nil, take_eq, take-suc}
use telegram_s.Base.Bytes.{Bytes}
use telegram_s.Metadata.{Store, Object}
use telegram_s.Metadata.Listing.{
  ListParams, ListPage, Scan, max_keys_of, query, common_prefix, member, scan_row, scan, empty_scan,
  list_objects_page, truncated, with_object, with_prefix, consumed,
}

-- One result of a listing.
pub data Entry : Type 0 where
  content : Object → Entry
  rolled : Bytes → Entry

-- The whole listing: each key, or the common prefix of a run of keys where it first shows up.
abbrev pub entries : ListParams → List Object → List Bytes → List Entry
entries p [] seen = []
entries p (o ∷ os) seen = elim (common_prefix p o.key) [
  | none ↦ content o ∷ entries p os seen
  | some cp ↦ elim (member cp seen) [
    | true ↦ entries p os seen
    | false ↦ rolled cp ∷ entries p os (cp ∷ seen)
  ]
]

abbrev pub objects_of : List Entry → List Object
objects_of [] = []
objects_of (content o ∷ es) = o ∷ objects_of es
objects_of (rolled cp ∷ es) = objects_of es

abbrev pub prefixes_of : List Entry → List Bytes
prefixes_of [] = []
prefixes_of (content o ∷ es) = prefixes_of es
prefixes_of (rolled cp ∷ es) = cp ∷ prefixes_of es

-- The page holds what the scan has, and what comes next up to the limit.
abbrev Shows : ℕ → Scan → List Entry → ListPage → Type 0
Shows max st es page =
    (page.objects ≡ st.page.objects ++ objects_of (take (max - st.count) es))
    × (page.common_prefixes ≡ st.page.common_prefixes ++ prefixes_of (take (max - st.count) es))
    × (page.is_truncated ≡ ltb (max - st.count) (length es))

Shows-end :
    (max : ℕ) (st : Scan)
    → st.page.is_truncated ≡ false
    → Shows max st [] (record st.page { next_after = [] })
Shows-end max st h = (
  sym (
      ap (λ l. st.page.objects ++ objects_of l) (take-nil (max - st.count))
      ∙ append-nil st.page.objects),
  sym (
      ap (λ l. st.page.common_prefixes ++ prefixes_of l) (take-nil (max - st.count))
      ∙ append-nil st.page.common_prefixes),
  ground arith,
)

-- A page that is full says that there is more.
Shows-full :
    (max : ℕ) (st : Scan) (e : Entry) (es : List Entry)
    → st.count ≡ max
    → Shows max st (e ∷ es) (truncated st.page)
Shows-full max st e es h = (
  sym (
      ap (λ l. st.page.objects ++ objects_of l) (take_eq (e ∷ es) {n = 0} (omega arith))
      ∙ append-nil st.page.objects),
  sym (
      ap (λ l. st.page.common_prefixes ++ prefixes_of l) (take_eq (e ∷ es) {n = 0} (omega arith))
      ∙ append-nil st.page.common_prefixes),
  ground arith,
)

Shows-content :
    (max : ℕ) (st : Scan) (o : Object) (es : List Entry) (page : ListPage)
    → st.count < max
    → Shows max (with_object o st) es page
    → Shows max st (content o ∷ es) page
Shows-content max st o es page lt (a, b, c) =
    let cut = take-suc (max - (st.count + 1)) (content o) es (max - st.count) (omega arith) in
    (
      a
          ∙ append_assoc st.page.objects (o ∷ []) _
          ∙ ap (λ l. st.page.objects ++ objects_of l) (sym cut),
      b ∙ ap (λ l. st.page.common_prefixes ++ prefixes_of l) (sym cut),
      c ∙ ground arith,
    )

Shows-rolled :
    (max : ℕ) (st : Scan) (o : Object) (cp : Bytes) (es : List Entry) (page : ListPage)
    → st.count < max
    → Shows max (with_prefix o cp st) es page
    → Shows max st (rolled cp ∷ es) page
Shows-rolled max st o cp es page lt (a, b, c) =
    let cut = take-suc (max - (st.count + 1)) (rolled cp) es (max - st.count) (omega arith) in
    (
      a ∙ ap (λ l. st.page.objects ++ objects_of l) (sym cut),
      b
          ∙ append_assoc st.page.common_prefixes (cp ∷ []) _
          ∙ ap (λ l. st.page.common_prefixes ++ prefixes_of l) (sym cut),
      c ∙ ground arith,
    )

module _ (p : ListParams) (max : ℕ) where
  scan_row-Shows :
      (rest : Scan → ListPage) (o : Object) (os : List Object) (st : Scan) (cp : Option Bytes)
      → st.count ≤ max
      → st.page.is_truncated ≡ false
      → ((st : Scan)
          → st.count ≤ max
          → st.page.is_truncated ≡ false
          → Shows max st (entries p os st.seen) (rest st))
      → Shows max st
          (elim cp as (λ cp. List Entry) [
            | none ↦ content o ∷ entries p os st.seen
            | some cp ↦ elim (member cp st.seen) [
              | true ↦ entries p os st.seen
              | false ↦ rolled cp ∷ entries p os (cp ∷ st.seen)
            ]
          ])
          (scan_row rest max o st cp)
  unfolding scan_row
  scan_row-Shows rest o os st none le open_ ih = elim (Bool-cases (st.count == max)) [
    | inl full ↦ rw full (Shows-full max st (content o) (entries p os st.seen) (ground arith))
    | inr room ↦ rw room (
        Shows-content max st o (entries p os st.seen) (rest (with_object o st)) (ground arith)
          (ih (with_object o st) (ground arith) open_))
  ]
  scan_row-Shows rest o os st (some cp) le open_ ih = known (member cp st.seen)
    where
      known :
          (b : Bool)
          → Shows max st
              (elim b as (λ b. List Entry) [
                | true ↦ entries p os st.seen
                | false ↦ rolled cp ∷ entries p os (cp ∷ st.seen)
              ])
              (if b
                then rest (consumed o st)
                else if st.count == max
                then truncated st.page
                else rest (with_prefix o cp st))
      known true = ih (consumed o st) le open_
      known false = elim (Bool-cases (st.count == max)) [
        | inl full ↦
            rw full (Shows-full max st (rolled cp) (entries p os (cp ∷ st.seen)) (ground arith))
        | inr room ↦ rw room (
            Shows-rolled max st o cp (entries p os (cp ∷ st.seen)) (rest (with_prefix o cp st))
              (ground arith) (ih (with_prefix o cp st) (ground arith) open_))
      ]

  scan-Shows :
      (os : List Object) (st : Scan)
      → st.count ≤ max
      → st.page.is_truncated ≡ false
      → Shows max st (entries p os st.seen) (scan p max os st)
  unfolding scan
  scan-Shows [] st le open_ = Shows-end max st open_
  scan-Shows (o ∷ os) st le open_ =
      scan_row-Shows (scan p max os) o os st (common_prefix p o.key) le open_ (scan-Shows os)

-- A page holds exactly the first results of the whole listing, as many as the limit allows, keys and
-- common prefixes each in their order, and it is marked as truncated exactly when there are more
-- results than that.
pub list_objects_page-entries :
    (p : ListParams) (s : Store)
    → (list_objects_page p s).objects
        ≡ objects_of (take (max_keys_of p.max_keys) (entries p (query p s) []))
      × ((list_objects_page p s).common_prefixes
          ≡ prefixes_of (take (max_keys_of p.max_keys) (entries p (query p s) [])))
      × ((list_objects_page p s).is_truncated
          ≡ ltb (max_keys_of p.max_keys) (length (entries p (query p s) [])))
unfolding list_objects_page
list_objects_page-entries p s =
    let max = max_keys_of p.max_keys in
    let es = entries p (query p s) [] in
    let page = scan p max (query p s) empty_scan in
    subst
      (λ n.
        (page.objects ≡ objects_of (take n es))
        × (page.common_prefixes ≡ prefixes_of (take n es))
        × (page.is_truncated ≡ ltb n (length es)))
      {x = max - 0} (omega arith) (scan-Shows p max (query p s) empty_scan (omega arith) refl)

-- ===== src/Metadata/Listing.antt =====
-- internal/metadata/store.go: `ListObjectsPage`.
pub mod Rollup
use telegram_s.Base.{
  ℕ, ◌+◌, Bool, true, false, ◌&&◌, ◌||◌, Option, none, some, List, [], ◌∷◌, ◌++◌, ltb, ◌==◌,
  if◌then◌else◌, any, filter, take, drop, length,
}
use telegram_s.Base.Bytes.{Bytes, equal, is_empty, less, index}
use telegram_s.Base.Int.{ℤ, pos, negsuc}
use telegram_s.Metadata.Bound.{in_prefix_range}
use telegram_s.Metadata.Table.{order_by}
use telegram_s.Metadata.{Store, Object}

pub record ListParams : Type 0 where
  pub bucket : Bytes
  pub prefix : Bytes
  pub delimiter : Bytes
  pub after : Bytes
  pub max_keys : ℤ

pub record ListPage : Type 0 where
  pub objects : List Object
  pub common_prefixes : List Bytes
  pub is_truncated : Bool
  pub next_after : Bytes

unfoldable pub max_keys_of : ℤ → ℕ
max_keys_of (pos n) = if n == 0 || ltb 1000 n then 1000 else n
max_keys_of (negsuc n) = 1000

-- The WHERE clause.
unfoldable pub is_listed : ListParams → Object → Bool
is_listed p o =
    equal o.bucket p.bucket
    && elim o.deleted_at [ none ↦ true | some t ↦ false ]
    && (is_empty p.after || less p.after o.key)
    && in_prefix_range p.prefix o.key

-- The rows of the query, in order of their keys.
unfoldable pub query : ListParams → Store → List Object
unfolding is_listed
query p s = order_by (λ a b. less a.key b.key) (filter (is_listed p) s.objects)

-- The common prefix that a key is rolled up into, if it is.
unfoldable pub common_prefix : ListParams → Bytes → Option Bytes
common_prefix p key =
    let rel = drop (length p.prefix) key in
    if is_empty p.delimiter then none else elim (index p.delimiter rel) [
      | none ↦ none
      | some idx ↦ some (p.prefix ++ take (idx + length p.delimiter) rel)
    ]

-- The variables of the loop.
pub record Scan : Type 0 where
  pub page : ListPage
  pub seen : List Bytes
  pub count : ℕ

abbrev pub member : Bytes → List Bytes → Bool
member cp seen = any (equal cp) seen

abbrev pub truncated : ListPage → ListPage
truncated page = record page { is_truncated = true }

abbrev pub with_object : Object → Scan → Scan
with_object o st = record st {
  page = record st.page { objects = st.page.objects ++ o ∷ []; next_after = o.key };
  count = st.count + 1;
}

abbrev pub with_prefix : Object → Bytes → Scan → Scan
with_prefix o cp st = record st {
  page = record st.page {
    common_prefixes = st.page.common_prefixes ++ cp ∷ [];
    next_after = o.key;
  };
  seen = cp ∷ st.seen;
  count = st.count + 1;
}

abbrev pub consumed : Object → Scan → Scan
consumed o st = record st { page = record st.page { next_after = o.key } }

-- One row; `rest` is the loop over the rows behind it.
unfoldable pub scan_row : (Scan → ListPage) → ℕ → Object → Scan → Option Bytes → ListPage
scan_row rest max o st none = if st.count == max then truncated st.page else rest (with_object o st)
scan_row rest max o st (some cp) =
    if member cp st.seen
    then rest (consumed o st)
    else if st.count == max
    then truncated st.page
    else rest (with_prefix o cp st)

unfoldable pub scan : ListParams → ℕ → List Object → Scan → ListPage
unfolding scan_row common_prefix
scan p max [] st = record st.page { next_after = [] }
scan p max (o ∷ os) st = scan_row (scan p max os) max o st (common_prefix p o.key)

abbrev pub empty_scan : Scan
empty_scan = record {
  page = record { objects = []; common_prefixes = []; is_truncated = false; next_after = [] };
  seen = [];
  count = 0;
}

unfoldable pub list_objects_page : ListParams → Store → ListPage
unfolding scan query max_keys_of
list_objects_page p s = scan p (max_keys_of p.max_keys) (query p s) empty_scan

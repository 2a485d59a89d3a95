-- ===== src/Base/Bytes.antt =====
-- Go strings and byte slices: lists of bytes, compared and searched byte by byte.
use Prim.Native.Char.{code}
use Prim.Native.String.{String}
use telegram_s.Base.{
  ℕ, suc, ◌+◌, ◌<◌, ◌≡◌, refl, Bool, true, false, ◌&&◌, ◌||◌, Option, none, some, List, [], ◌∷◌,
  arith, ltb, leb, ◌==◌, if◌then◌else◌, length, drop, All, reverse, map,
}

abbrev pub Bytes : Type 0
Bytes = List ℕ

abbrev pub IsByte : ℕ → Type 0
IsByte c = c < 256

abbrev pub IsText : Bytes → Type 0
IsText = All IsByte

-- The bytes of an ASCII literal.
abbrev pub codes : String → Bytes
codes String.[] = []
codes (String.◌∷◌ c s) = code c ∷ codes s

-- a == b on strings
unfoldable pub equal : Bytes → Bytes → Bool
equal [] [] = true
equal [] (w ∷ ws) = false
equal (v ∷ vs) [] = false
equal (v ∷ vs) (w ∷ ws) = v == w && equal vs ws

pub equal_refl : (u : Bytes) → equal u u ≡ true
unfolding equal
equal_refl [] = refl
equal_refl (v ∷ vs) = ground (arith, equal_refl vs)

pub equal_eq : (u w : Bytes) → equal u w ≡ true → u ≡ w
unfolding equal
equal_eq [] [] h = refl
equal_eq [] (w ∷ ws) h = ground arith
equal_eq (v ∷ vs) [] h = ground arith
equal_eq (v ∷ vs) (w ∷ ws) h = ground (arith, equal_eq vs ws)

-- a < b on strings, which is also SQLite's BINARY collation
unfoldable pub less : Bytes → Bytes → Bool
less [] [] = false
less [] (y ∷ ys) = true
less (x ∷ xs) [] = false
less (x ∷ xs) (y ∷ ys) = ltb x y || (x == y && less xs ys)

abbrev pub is_empty : Bytes → Bool
is_empty [] = true
is_empty (c ∷ s) = false

-- strings.HasPrefix(s, p), with the arguments turned round
unfoldable pub has_prefix : Bytes → Bytes → Bool
has_prefix [] s = true
has_prefix (c ∷ p) [] = false
has_prefix (c ∷ p) (d ∷ s) = c == d && has_prefix p s

-- strings.TrimPrefix(s, p)
unfoldable pub trim_prefix : Bytes → Bytes → Bytes
unfolding has_prefix
trim_prefix s p = if has_prefix p s then drop (length p) s else s

-- strings.IndexByte(s, c); `none` is -1
unfoldable pub index_byte : ℕ → Bytes → Option ℕ
index_byte c [] = none
index_byte c (d ∷ s) =
    let rest = index_byte c s in
    if d == c then some 0 else elim rest [ none ↦ none | some i ↦ some (suc i) ]

-- strings.Index(s, sep); `none` is -1
unfoldable pub index : Bytes → Bytes → Option ℕ
unfolding has_prefix
index sep [] = if is_empty sep then some 0 else none
index sep (d ∷ s) =
    let rest = index sep s in
    if has_prefix sep (d ∷ s) then some 0 else elim rest [ none ↦ none | some i ↦ some (suc i) ]

-- The ASCII white space of strings.TrimSpace and strings.Fields.
unfoldable pub is_space : ℕ → Bool
is_space c = c == b' ' || (leb 9 c && leb c 13)

unfoldable pub trim_left : (ℕ → Bool) → Bytes → Bytes
trim_left p [] = []
trim_left p (c ∷ s) = let rest = trim_left p s in if p c then rest else c ∷ s

unfoldable pub trim : (ℕ → Bool) → Bytes → Bytes
unfolding trim_left
trim p s = reverse (trim_left p (reverse (trim_left p s)))

-- strings.TrimSpace on ASCII text
unfoldable pub trim_space : Bytes → Bytes
unfolding trim is_space
trim_space = trim is_space

unfoldable pub to_lower : ℕ → ℕ
to_lower c = if leb b'A' c && leb c b'Z' then c + 32 else c

-- strings.EqualFold on ASCII text
abbrev pub equal_fold : Bytes → Bytes → Bool
equal_fold a b = equal (map to_lower a) (map to_lower b)

-- strings.Split(s, string(c)) at a single byte
unfoldable pub split_byte : ℕ → Bytes → List Bytes
split_byte c [] = [] ∷ []
split_byte c (d ∷ s) =
    let rest = split_byte c s in
    if d == c then [] ∷ rest else elim rest [ [] ↦ (d ∷ []) ∷ [] | w ∷ ws ↦ (d ∷ w) ∷ ws ]

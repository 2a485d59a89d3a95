-- ===== src/S3api/Uri.antt =====
-- internal/s3api/handler.go: `awsURIEncode`, and url.PathUnescape.
use telegram_s.Base.{
  ◌>>=◌, ℕ, ◌+◌, ◌-◌, ◌*◌, ◌/◌, ◌%◌, ◌<◌, ◌≡◌, refl, ap, ◌∙◌, Bool, true, false, not, ◌&&◌, ◌||◌,
  Bool-cases, inl, inr, Option, none, some, [], ◌∷◌, ◌++◌, arith, leb, ltb, ◌==◌, if◌then◌else◌,
}
use telegram_s.Base.Bytes.{Bytes, IsText}
use telegram_s.Base.Int.{digit_value}

-- One digit of encoding/hex and of net/url, in either case.
unfoldable pub hex_digit : ℕ → Option ℕ
unfolding digit_value
hex_digit c = do d ← digit_value c; if ltb d 16 then some d else none

unfoldable pub is_unreserved : ℕ → Bool
is_unreserved c =
    (leb b'A' c && leb c b'Z')
    || (leb b'a' c && leb c b'z')
    || (leb b'0' c && leb c b'9')
    || c == b'-'
    || c == b'.'
    || c == b'_'
    || c == b'~'

-- upperHex[d]
unfoldable pub upper_hex : ℕ → ℕ
upper_hex d = if ltb d 10 then b'0' + d else b'A' + (d - 10)

unfoldable pub encode_byte : Bool → ℕ → Bytes
unfolding is_unreserved upper_hex
encode_byte encode_slash c =
    if is_unreserved c || (c == b'/' && not encode_slash)
    then c ∷ []
    else b'%' ∷ upper_hex (c / 16) ∷ upper_hex (c % 16) ∷ []

-- awsURIEncode
unfoldable pub aws_uri_encode : Bool → Bytes → Bytes
unfolding encode_byte
aws_uri_encode encode_slash [] = []
aws_uri_encode encode_slash (c ∷ s) = encode_byte encode_slash c ++ aws_uri_encode encode_slash s

abbrev pub prepend : ℕ → Option Bytes → Option Bytes
prepend c none = none
prepend c (some s) = some (c ∷ s)

-- The byte of two digits in front of what is read behind them.
abbrev pub escaped : ℕ → ℕ → Option Bytes → Option Bytes
escaped x y rest = do high ← hex_digit x; low ← hex_digit y; prepend (high * 16 + low) rest

-- url.PathUnescape; `none` is an error
unfoldable pub path_unescape : Bytes → Option Bytes
unfolding hex_digit
path_unescape [] = some []
path_unescape (c ∷ []) = if c == b'%' then none else some (c ∷ [])
path_unescape (c ∷ x ∷ []) =
    let rest = path_unescape (x ∷ []) in if c == b'%' then none else prepend c rest
path_unescape (c ∷ x ∷ y ∷ s) = elim (c == b'%') [
  | true ↦ escaped x y (path_unescape s)
  | false ↦ prepend c (path_unescape (x ∷ y ∷ s))
]

hex_digit-upper_hex : (d : ℕ) → d < 16 → hex_digit (upper_hex d) ≡ some d
unfolding hex_digit upper_hex digit_value
hex_digit-upper_hex d h = ground arith

path_unescape-literal :
    (c : ℕ) (s : Bytes) → (c == b'%') ≡ false → path_unescape (c ∷ s) ≡ prepend c (path_unescape s)
unfolding path_unescape
path_unescape-literal c [] h = rw h refl
path_unescape-literal c (x ∷ []) h = rw h refl
path_unescape-literal c (x ∷ y ∷ s) h = ground arith

path_unescape-escaped :
    (x y : ℕ) (s : Bytes) → path_unescape (b'%' ∷ x ∷ y ∷ s) ≡ escaped x y (path_unescape s)
unfolding path_unescape
path_unescape-escaped x y s = refl

escaped-digits :
    (c : ℕ) (rest : Option Bytes)
    → c < 256
    → escaped (upper_hex (c / 16)) (upper_hex (c % 16)) rest ≡ prepend c rest
escaped-digits c rest byte =
    rw (hex_digit-upper_hex (c / 16) (omega arith))
      (rw (hex_digit-upper_hex (c % 16) (omega arith)) (ap (λ n. prepend n rest) (omega arith)))

path_unescape-encode_byte :
    (encode_slash : Bool) (c : ℕ) (s : Bytes)
    → c < 256
    → path_unescape (encode_byte encode_slash c ++ s) ≡ prepend c (path_unescape s)
unfolding encode_byte
path_unescape-encode_byte encode_slash c s byte =
    elim (Bool-cases (is_unreserved c || (c == b'/' && not encode_slash))) [
      | inl plain ↦ rw plain (path_unescape-literal c s (unfold is_unreserved in (ground arith)))
      | inr other ↦ rw other (
          path_unescape-escaped (upper_hex (c / 16)) (upper_hex (c % 16)) s
          ∙ escaped-digits c (path_unescape s) byte)
    ]

-- A string of bytes that is encoded for a query or for a path is read back by PathUnescape.
pub path_unescape-aws_uri_encode :
    (encode_slash : Bool) (s : Bytes)
    → IsText s
    → path_unescape (aws_uri_encode encode_slash s) ≡ some s
unfolding aws_uri_encode
path_unescape-aws_uri_encode encode_slash [] h = unfold path_unescape in refl
path_unescape-aws_uri_encode encode_slash (c ∷ s) (h, hs) =
    path_unescape-encode_byte encode_slash c (aws_uri_encode encode_slash s) h
    ∙ ap (prepend c) (path_unescape-aws_uri_encode encode_slash s hs)

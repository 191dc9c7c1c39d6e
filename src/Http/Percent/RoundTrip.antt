-- ===== src/Http/Percent/RoundTrip.antt =====
-- Texts through the percent encoding of backend/src/http.rs and back.
use tldr_tv.Prelude.{
  ℕ, ◌+◌, ◌*◌, ◌/◌, ◌%◌, ◌<◌, ◌≡◌, ◌∙◌, refl, ap, Bool, true, Option, none, some, [], ◌∷◌, ◌++◌,
  inl, inr, Bool-cases, nat_beq, ◌||◌, arith, All, All-append,
}
use tldr_tv.Prelude.Text.{Bytes, Text, utf8, utf8_char}
use tldr_tv.Json.RoundTrip.Scalars.{IsScalar}
use tldr_tv.Http.Percent.{
  idle, lossy_at, from_utf8_lossy, escaped_byte, unescape, percent_decode, hex, is_component,
  escape_bytes, percent_encode_component,
}

utf8_char-IsByte : (c : ℕ) → IsScalar c → All (λ b. b < 256) (utf8_char c)
utf8_char-IsByte c h = ground arith

utf8-IsByte : (s : Text) → All IsScalar s → All (λ b. b < 256) (utf8 s)
utf8-IsByte [] h = tt
utf8-IsByte (c ∷ s) (p, h) =
    All-append (λ b. b < 256) (utf8_char c) (utf8 s) (utf8_char-IsByte c p) (utf8-IsByte s h)

lossy-char :
    (c : ℕ) (rest : Bytes)
    → IsScalar c
    → lossy_at idle (utf8_char c ++ rest) ≡ c ∷ lossy_at idle rest
unfolding lossy_at
lossy-char c rest h = ground arith

pub lossy-utf8 : (s : Text) → All IsScalar s → from_utf8_lossy (utf8 s) ≡ s
unfolding lossy_at
lossy-utf8 [] h = refl
lossy-utf8 (c ∷ s) (p, h) = lossy-char c (utf8 s) p ∙ ap (λ t. c ∷ t) (lossy-utf8 s h)

escaped_byte-hex : (h l : ℕ) → h < 16 → l < 16 → escaped_byte (hex h) (hex l) ≡ some (h * 16 + l)
escaped_byte-hex h l small low = ground arith

unescape-literal :
    (plus : Bool) (c : ℕ) (rest : Bytes)
    → is_component c ≡ true
    → unescape plus (c ∷ rest) ≡ c ∷ unescape plus rest
unfolding unescape
unescape-literal plus c [] h = ground arith
unescape-literal plus c (a ∷ []) h = ground arith
unescape-literal plus c (a ∷ b ∷ rest) h = ground arith

-- an escape, once it is read
from_escape : Bool → Bytes → ℕ → ℕ → Option ℕ → Bytes
from_escape plus rest b c none = b'%' ∷ unescape plus (b ∷ c ∷ rest)
from_escape plus rest b c (some v) = v ∷ unescape plus rest

unescape-escape :
    (plus : Bool) (b : ℕ) (rest : Bytes)
    → b < 256
    → unescape plus (b'%' ∷ hex (b / 16) ∷ hex (b % 16) ∷ rest) ≡ b ∷ unescape plus rest
unfolding unescape from_escape
unescape-escape plus b rest small =
    let read = escaped_byte-hex (b / 16) (b % 16) (omega arith) (omega arith) in
    ap (from_escape plus rest (hex (b / 16)) (hex (b % 16))) read
    ∙ ap (λ v. v ∷ unescape plus rest) (omega arith)

unescape-escape_bytes :
    (plus : Bool) (bytes : Bytes)
    → All (λ b. b < 256) bytes
    → unescape plus (escape_bytes bytes) ≡ bytes
unfolding unescape escape_bytes
unescape-escape_bytes plus [] h = refl
unescape-escape_bytes plus (b ∷ bytes) (small, h) = elim (Bool-cases (is_component b)) [
  | inl e ↦ rw e (
      unescape-literal plus b (escape_bytes bytes) e
      ∙ ap (λ t. b ∷ t) (unescape-escape_bytes plus bytes h))
  | inr e ↦ rw e (
      unescape-escape plus b (escape_bytes bytes) small
      ∙ ap (λ t. b ∷ t) (unescape-escape_bytes plus bytes h))
]

-- A character that `encodeURIComponent` leaves, or the percent sign.
abbrev pub IsQuoted : ℕ → Type 0
IsQuoted c = (is_component c || nat_beq c b'%') ≡ true

hex-IsQuoted : (v : ℕ) → v < 16 → IsQuoted (hex v)
hex-IsQuoted v h = ground arith

utf8_char-ascii : (c : ℕ) → IsQuoted c → utf8_char c ≡ c ∷ []
utf8_char-ascii c h = ground arith

escape_bytes-IsQuoted :
    (bytes : Bytes) → All (λ b. b < 256) bytes → All IsQuoted (escape_bytes bytes)
unfolding escape_bytes
escape_bytes-IsQuoted [] h = tt
escape_bytes-IsQuoted (b ∷ bytes) (small, h) =
    let rest = escape_bytes-IsQuoted bytes h in
    elim (Bool-cases (is_component b)) [
      | inl e ↦ rw e (ground (arith, e), rest)
      | inr e ↦
          rw e (
            refl,
            (hex-IsQuoted (b / 16) (omega arith), (hex-IsQuoted (b % 16) (omega arith), rest)),
          )
    ]

utf8-ascii : (s : Text) → All IsQuoted s → utf8 s ≡ s
utf8-ascii [] h = refl
utf8-ascii (c ∷ s) (p, h) =
    ap (λ t. t ++ utf8 s) (utf8_char-ascii c p) ∙ ap (λ t. c ∷ t) (utf8-ascii s h)

-- An encoded text has only letters, digits, the percent sign and -_.!~*'() in it.
pub percent_encode_component-IsQuoted :
    (s : Text) → All IsScalar s → All IsQuoted (percent_encode_component s)
unfolding percent_encode_component
percent_encode_component-IsQuoted s h = escape_bytes-IsQuoted (utf8 s) (utf8-IsByte s h)

-- Decoding an encoded text gives the text, in a form as in a cookie or a path.
pub percent_decode-percent_encode_component :
    (s : Text) (plus_as_space : Bool)
    → All IsScalar s
    → percent_decode (percent_encode_component s) plus_as_space ≡ s
unfolding percent_decode percent_encode_component
percent_decode-percent_encode_component s plus h =
    let bytes = utf8-IsByte s h in
    ap (λ t. from_utf8_lossy (unescape plus t))
      (utf8-ascii (escape_bytes (utf8 s)) (escape_bytes-IsQuoted (utf8 s) bytes))
    ∙ ap from_utf8_lossy (unescape-escape_bytes plus (utf8 s) bytes)
    ∙ lossy-utf8 s h

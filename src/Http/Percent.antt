-- ===== src/Http/Percent.antt =====
-- The percent encoding of backend/src/http.rs, and what it uses of the standard library:
-- `String::from_utf8_lossy`, as the automaton that reads UTF-8 byte by byte.
pub mod RoundTrip
use tldr_tv.Prelude.{
  ℕ, zero, suc, ◌+◌, ◌-◌, ◌*◌, ◌/◌, ◌%◌, Bool, true, false, ◌&&◌, ◌||◌, Option, none, some, List,
  [], ◌∷◌, ◌++◌, ◌==◌, list_eq, nat_eq, ltb, nat_beq, if◌then◌else◌, ◌and_then◌,
}
use tldr_tv.Prelude.Text.{Bytes, Text, utf8, within, is_ascii_alphanumeric}
use tldr_tv.Json.Parser.Scan.{replacement}
use tldr_tv.Crypto.Base64.{hex_val}

-- `expects n lo hi acc`: n bytes are missing, the next one within lo and hi
pub data Utf8 : Type 0 where
  idle : Utf8
  expects : ℕ → ℕ → ℕ → ℕ → Utf8

abbrev pub lead : ℕ → Text × Utf8
lead b =
    if ltb b 0x80
    then (b ∷ [], idle)
    else if within 0xc2 0xdf b
    then ([], expects 1 0x80 0xbf (b - 0xc0))
    else if within 0xe0 0xef b
    then (
      [],
      expects 2 (if nat_beq b 0xe0 then 0xa0 else 0x80) (if nat_beq b 0xed then 0x9f else 0xbf)
          (b - 0xe0),
    )
    else if within 0xf0 0xf4 b
    then (
      [],
      expects 3 (if nat_beq b 0xf0 then 0x90 else 0x80) (if nat_beq b 0xf4 then 0x8f else 0xbf)
          (b - 0xf0),
    )
    else (replacement ∷ [], idle)

abbrev pub continue : ℕ → ℕ → Text × Utf8
continue zero acc = (acc ∷ [], idle)
continue (suc zero) acc = (acc ∷ [], idle)
continue (suc (suc n)) acc = ([], expects (suc n) 0x80 0xbf acc)

abbrev pub step : Utf8 → ℕ → Text × Utf8
step idle b = lead b
step (expects n lo hi acc) b =
    if within lo hi b
    then continue n (acc * 64 + (b - 0x80))
    else (replacement ∷ (lead b).0, (lead b).1)

unfoldable pub lossy_at : Utf8 → Bytes → Text
lossy_at idle [] = []
lossy_at (expects n lo hi acc) [] = replacement ∷ []
lossy_at state (b ∷ bytes) = (step state b).0 ++ lossy_at (step state b).1 bytes

abbrev pub from_utf8_lossy : Bytes → Text
from_utf8_lossy bytes = lossy_at idle bytes

-- `std::str::from_utf8`: the lossy text has these bytes exactly if they are valid
abbrev pub str_from_utf8 : Bytes → Option Text
str_from_utf8 b = let s = from_utf8_lossy b in if utf8 s == b then some s else none

-- the byte of an escape, unless it is malformed
abbrev pub escaped_byte : ℕ → ℕ → Option ℕ
escaped_byte b c = hex_val b and_then λ h. hex_val c and_then λ l. some (h * 16 + l)

abbrev pub literal : Bool → ℕ → ℕ
literal plus_as_space c = if plus_as_space && nat_beq c b'+' then b' ' else c

-- the loop of `percent_decode`
unfoldable pub unescape : Bool → Bytes → Bytes
unescape plus [] = []
unescape plus (a ∷ []) = literal plus a ∷ []
unescape plus (a ∷ b ∷ []) = literal plus a ∷ unescape plus (b ∷ [])
unescape plus (a ∷ b ∷ c ∷ rest) = elim (nat_beq a b'%') [
  | true ↦ elim (escaped_byte b c) [
    | none ↦ a ∷ unescape plus (b ∷ c ∷ rest)
    | some v ↦ v ∷ unescape plus rest
  ]
  | false ↦ literal plus a ∷ unescape plus (b ∷ c ∷ rest)
]

unfoldable pub percent_decode : Text → Bool → Text
unfolding unescape lossy_at
percent_decode s plus_as_space = from_utf8_lossy (unescape plus_as_space (utf8 s))

-- HEX[v]
abbrev pub hex : ℕ → ℕ
hex v = if ltb v 10 then b'0' + v else b'A' + (v - 10)

-- the characters that `encodeURIComponent` leaves
abbrev pub is_component : ℕ → Bool
is_component c =
    is_ascii_alphanumeric c
    || nat_beq c b'-'
    || nat_beq c b'_'
    || nat_beq c b'.'
    || nat_beq c b'!'
    || nat_beq c b'~'
    || nat_beq c b'*'
    || nat_beq c b'\''
    || nat_beq c b'('
    || nat_beq c b')'

-- the loop of `percent_encode_component`
unfoldable pub escape_bytes : Bytes → Text
escape_bytes [] = []
escape_bytes (b ∷ bytes) =
    (if is_component b then b ∷ [] else b'%' ∷ hex (b / 16) ∷ hex (b % 16) ∷ [])
    ++ escape_bytes bytes

unfoldable pub percent_encode_component : Text → Text
unfolding escape_bytes
percent_encode_component s = escape_bytes (utf8 s)

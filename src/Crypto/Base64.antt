-- ===== src/Crypto/Base64.antt =====
-- The codecs of backend/src/crypto.rs: hex, base64 and base64url. Shifted parts that share no bit
-- are joined by `+`.
pub mod RoundTrip
use mathlib.Core.Option
use tldr_tv.Prelude.{
  ◌and_then◌, ℕ, zero, suc, ◌+◌, ◌-◌, ◌*◌, ◌/◌, ◌%◌, ◌<◌, ◌≡◌, Bool, true, false, ◌&&◌, ◌||◌,
  Option, none, some, List, [], ◌∷◌, ◌++◌, nat_beq, length, get_elem?, is_nil, if◌then◌else◌,
}
use tldr_tv.Prelude.Text.{Bytes, Text, codes, utf8, within}

abbrev pub hex_val : ℕ → Option ℕ
hex_val c =
    if within b'0' b'9' c
    then some (c - b'0')
    else if within b'a' b'f' c
    then some (c - b'a' + 10)
    else if within b'A' b'F' c
    then some (c - b'A' + 10)
    else none

-- the loop of `hex_decode`; a byte that is left over was refused before
abbrev hex_pairs : Bytes → Option Bytes
hex_pairs (a ∷ b ∷ rest) = hex_val a and_then λ hi.
    hex_val b and_then λ lo. hex_pairs rest and_then λ out. some ((hi * 16 + lo) ∷ out)
hex_pairs _ = some []

unfoldable pub hex_decode : Text → Option Bytes
hex_decode s = let b = utf8 s in if nat_beq (length b % 2) 0 then hex_pairs b else none

abbrev pub b64_std : Text
b64_std = codes "ABCDEFGHIJKLMNOPQRSTUVWXYZabcdefghijklmnopqrstuvwxyz0123456789+/"

abbrev pub b64_url : Text
b64_url = codes "ABCDEFGHIJKLMNOPQRSTUVWXYZabcdefghijklmnopqrstuvwxyz0123456789-_"

-- alphabet[n]
abbrev pub letter : Text → ℕ → ℕ
letter alphabet n = Option.get_or (get_elem? alphabet n) 0

abbrev padding : Bool → Text
padding pad = if pad then b'=' ∷ [] else []

-- the letter of the 6 bits of `n` from bit `2 ^ shift` on, given as a power
abbrev pub sextet : Text → ℕ → ℕ → ℕ
sextet alphabet n power = letter alphabet (n / power % 64)

unfoldable pub b64_encode_with : Bytes → Text → Bool → Text
b64_encode_with [] alphabet pad = []
b64_encode_with (b0 ∷ []) alphabet pad =
    let n = b0 * 65536 in
    sextet alphabet n 262144 ∷ sextet alphabet n 4096 ∷ padding pad ++ padding pad
b64_encode_with (b0 ∷ b1 ∷ []) alphabet pad =
    let n = b0 * 65536 + b1 * 256 in
    sextet alphabet n 262144 ∷ sextet alphabet n 4096 ∷ sextet alphabet n 64 ∷ padding pad
b64_encode_with (b0 ∷ b1 ∷ b2 ∷ rest) alphabet pad =
    let n = b0 * 65536 + b1 * 256 + b2 in
    sextet alphabet n 262144
    ∷ sextet alphabet n 4096
    ∷ sextet alphabet n 64
    ∷ sextet alphabet n 1
    ∷ b64_encode_with rest alphabet pad

abbrev pub b64_val : ℕ → Option ℕ
b64_val c =
    if within b'A' b'Z' c
    then some (c - b'A')
    else if within b'a' b'z' c
    then some (c - b'a' + 26)
    else if within b'0' b'9' c
    then some (c - b'0' + 52)
    else if nat_beq c b'+' || nat_beq c b'-'
    then some 62
    else if nat_beq c b'/' || nat_beq c b'_'
    then some 63
    else none

-- `s.trim_end_matches('=')`
abbrev pub trim_padding : Text → Text
trim_padding [] = []
trim_padding (c ∷ s) =
    let rest = trim_padding s in if nat_beq c b'=' && is_nil rest then [] else c ∷ rest

-- the loop of `b64_decode_any` over groups of 4
unfoldable pub b64_groups : Bytes → Option Bytes
b64_groups [] = some []
b64_groups (a ∷ []) = b64_val a and_then λ v. some []
b64_groups (a ∷ b ∷ []) = b64_val a and_then λ v.
    b64_val b and_then λ w. let n = v * 262144 + w * 4096 in some (n / 65536 % 256 ∷ [])
b64_groups (a ∷ b ∷ c ∷ []) = b64_val a and_then λ v. b64_val b and_then λ w.
    b64_val c and_then λ x.
    let n = v * 262144 + w * 4096 + x * 64 in some (n / 65536 % 256 ∷ n / 256 % 256 ∷ [])
b64_groups (a ∷ b ∷ c ∷ d ∷ rest) = b64_val a and_then λ v. b64_val b and_then λ w.
    b64_val c and_then λ x. b64_val d and_then λ y.
    let n = v * 262144 + w * 4096 + x * 64 + y in
    b64_groups rest and_then λ out. some (n / 65536 % 256 ∷ n / 256 % 256 ∷ n % 256 ∷ out)

unfoldable pub b64_decode_any : Text → Option Bytes
unfolding b64_groups
b64_decode_any s =
    let b = utf8 (trim_padding s) in if nat_beq (length b % 4) 1 then none else b64_groups b

abbrev pub base64url_encode : Bytes → Text
base64url_encode bytes = b64_encode_with bytes b64_url false

abbrev pub base64url_decode : Text → Option Bytes
base64url_decode s = b64_decode_any s

abbrev pub base64_encode : Bytes → Text
base64_encode bytes = b64_encode_with bytes b64_std true

abbrev pub base64_decode : Text → Option Bytes
base64_decode s = b64_decode_any s

-- ===== src/Crypto.antt =====
-- The byte helpers of backend/src/crypto.rs that the routes use.
pub mod Compare
mod Tests
mod Examples
pub mod Base64
pub mod Sha256
use mathlib.Core.Option
use tldr_tv.Prelude.{
  ℕ, zero, suc, ◌+◌, ◌-◌, ◌/◌, ◌%◌, bit_and, bit_or, bit_xor, Bool, false, not, Option, none, some,
  List, [], ◌∷◌, ◌++◌, ltb, nat_beq, length, get_elem?, set, take, drop, if◌then◌else◌,
}
use tldr_tv.Prelude.Text.{Bytes, Text, codes}

-- HEX_CHARS[nibble]
abbrev pub hex_char : ℕ → ℕ
hex_char nibble = Option.get_or (get_elem? (codes "0123456789abcdef") nibble) 0

abbrev pub hex_encode : Bytes → Text
hex_encode [] = []
hex_encode (b ∷ bytes) = hex_char (b / 16) ∷ hex_char (bit_and b 0x0f) ∷ hex_encode bytes

-- the loop of `ct_eq`, which ends with the shorter text
abbrev pub difference : ℕ → Bytes → Bytes → ℕ
difference diff (a ∷ xs) (b ∷ ys) = difference (bit_or diff (bit_xor a b)) xs ys
difference diff _ _ = diff

unfoldable pub ct_eq : Bytes → Bytes → Bool
ct_eq a b = if not (nat_beq (length a) (length b)) then false else nat_beq (difference 0 a b) 0

-- The random source: what each read of `/dev/urandom` comes to, in order. A read of more bytes
-- than there are fails, as does one past the end of the list.
abbrev pub Random : Type 0
Random = List (Option Bytes)

abbrev pub exactly : ℕ → Option Bytes → Option Bytes
exactly n none = none
exactly n (some bytes) = if ltb (length bytes) n then none else some (take n bytes)

abbrev pub random_bytes : ℕ → Random → Option Bytes × Random
random_bytes n [] = (none, [])
random_bytes n (r ∷ rest) = (exactly n r, rest)

abbrev pub at : Bytes → ℕ → ℕ
at b i = Option.get_or (get_elem? b i) 0

-- `&h[from..to]`
abbrev pub slice : Text → ℕ → ℕ → Text
slice h from to = take (to - from) (drop from h)

-- what `random_uuid_v4` makes of its 16 bytes
pub uuid_of : Bytes → Text
uuid_of bytes =
    let b = set bytes 6 (bit_or (bit_and (at bytes 6) 0x0f) 0x40) in
    let b' = set b 8 (bit_or (bit_and (at b 8) 0x3f) 0x80) in
    let h = hex_encode b' in
    slice h 0 8
    ++ b'-' ∷ slice h 8 12
    ++ b'-' ∷ slice h 12 16
    ++ b'-' ∷ slice h 16 20
    ++ b'-' ∷ slice h 20 32

pub random_uuid_v4 : Random → Option Text × Random
unfolding uuid_of
random_uuid_v4 random =
    let (bytes, rest) = random_bytes 16 random in
    (elim bytes [ none ↦ none | some b ↦ some (uuid_of b) ], rest)

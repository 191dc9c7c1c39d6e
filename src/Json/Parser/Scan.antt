-- ===== src/Json/Parser/Scan.antt =====
-- The parts of the parser of backend/src/json.rs that read a literal, a string or a number.
use tldr_tv.Prelude.{
  ◌and_then◌, ℕ, zero, suc, ◌+◌, ◌-◌, ◌*◌, Bool, ◌&&◌, ◌||◌, not, Option, none, some, [], ◌∷◌, ◌++◌,
  ◌==◌, list_eq, nat_eq, nat_beq, ltb, leb, length, take, drop, if◌then◌else◌,
}
use tldr_tv.Prelude.Text.{Bytes, Text, codes, within, utf8_char, text_starts_with, is_ascii_digit}
use tldr_tv.Prelude.Exec.{Exec, ok, err, ◌>>=◌, ◌>>◌}
use tldr_tv.Json.{Json, num}
use tldr_tv.Json.Decimal.{parse_f64}

pub record ParseError : Type 0 where
  pub at : ℕ
  pub msg : Text

-- `out_of_fuel` is none of the program's errors.
pub data Stop : Type 0 where
  failed : ParseError → Stop
  out_of_fuel : Stop

abbrev pub Parser : Type 0 → Type 0
Parser A = Exec Bytes Stop A

abbrev pub fail : {A : Type 0} → ℕ → Text → Parser A
fail len msg b = (err (failed (record { at = len - length b; msg = msg })), b)

abbrev pub is_ws : ℕ → Bool
is_ws c = nat_beq c b' ' || nat_beq c 0x09 || nat_beq c 0x0a || nat_beq c 0x0d

unfoldable pub ws : Bytes → Bytes
ws [] = []
ws (c ∷ b) = let rest = ws b in if is_ws c then rest else c ∷ b

abbrev pub lit : ℕ → Text → Parser (Unit {0})
lit len word b =
    if text_starts_with word b
    then (ok tt, drop (length word) b)
    else fail len (codes "bad literal") b

-- the nibble of a hex digit
abbrev pub nibble : ℕ → Option ℕ
nibble d =
    if within b'0' b'9' d
    then some (d - b'0')
    else if within b'a' b'f' d
    then some (d - b'a' + 10)
    else if within b'A' b'F' d
    then some (d - b'A' + 10)
    else none

-- The loop of `hex4`. The low four bits of `v << 4` are 0, so `| nib` adds.
abbrev pub nibbles : ℕ → Bytes → Option ℕ
nibbles v [] = some v
nibbles v (d ∷ ds) = nibble d and_then λ nib. nibbles (v * 16 + nib) ds

abbrev pub hex4 : ℕ → Parser ℕ
hex4 len b =
    if ltb (length b) 4
    then fail len (codes "truncated \\u escape") b
    else elim (nibbles 0 (take 4 b)) [
      | none ↦ fail len (codes "bad hex digit") b
      | some v ↦ (ok v, drop 4 b)
    ]

abbrev pub is_high : ℕ → Bool
is_high c = within 0xd800 0xdbff c

abbrev pub is_low : ℕ → Bool
is_low c = within 0xdc00 0xdfff c

-- a Unicode scalar value: `char::from_u32` takes these
abbrev pub is_scalar : ℕ → Bool
is_scalar c = leb c 0x10ffff && not (within 0xd800 0xdfff c)

abbrev pub replacement : ℕ
replacement = 0xfffd

abbrev pub from_u32 : ℕ → Text → ℕ → Parser ℕ
from_u32 len msg c b = if is_scalar c then (ok c, b) else fail len msg b

-- the character of the pair, or U+FFFD and a step back to `save`
abbrev pub join_pair : ℕ → ℕ → Bytes → ℕ → Parser ℕ
join_pair len hi save lo b =
    if is_low lo
    then from_u32 len (codes "bad surrogate pair") (0x10000 + (hi - 0xd800) * 1024 + (lo - 0xdc00))
        b
    else (ok replacement, save)

abbrev pub after_high : ℕ → ℕ → Parser ℕ
after_high len hi b =
    if text_starts_with (codes "\\u") b
    then (hex4 len >>= join_pair len hi b) (drop 2 b)
    else (ok replacement, b)

abbrev pub code_point : ℕ → ℕ → Parser ℕ
code_point len hi b =
    if is_high hi
    then after_high len hi b
    else if is_low hi
    then (ok replacement, b)
    else from_u32 len (codes "bad code point") hi b

abbrev pub unicode_escape : ℕ → Parser ℕ
unicode_escape len = hex4 len >>= code_point len

-- the escape behind a backslash
unfoldable pub escape : ℕ → Parser ℕ
escape len [] = fail len (codes "unterminated escape") []
escape len (e ∷ b) =
    if nat_beq e b'"'
    then (ok b'"', b)
    else if nat_beq e b'\\'
    then (ok b'\\', b)
    else if nat_beq e b'/'
    then (ok b'/', b)
    else if nat_beq e b'b'
    then (ok 0x08, b)
    else if nat_beq e b'f'
    then (ok 0x0c, b)
    else if nat_beq e b'n'
    then (ok 0x0a, b)
    else if nat_beq e b'r'
    then (ok 0x0d, b)
    else if nat_beq e b't'
    then (ok 0x09, b)
    else if nat_beq e b'u'
    then unicode_escape len b
    else fail len (codes "bad escape") b

abbrev pub utf8_len : ℕ → ℕ
utf8_len lead =
    if leb lead 0x7f
    then 1
    else if within 0xc0 0xdf lead
    then 2
    else if within 0xe0 0xef lead
    then 3
    else 4

-- the number whose encoding a chunk may be
abbrev pub payload : Bytes → ℕ
payload (a ∷ []) = a
payload (a ∷ b ∷ []) = (a - 0xc0) * 64 + (b - 0x80)
payload (a ∷ b ∷ c ∷ []) = (a - 0xe0) * 4096 + (b - 0x80) * 64 + (c - 0x80)
payload (a ∷ b ∷ c ∷ d ∷ []) =
    (a - 0xf0) * 262144 + (b - 0x80) * 4096 + (c - 0x80) * 64 + (d - 0x80)
payload _ = 0

-- `std::str::from_utf8` of a chunk as long as its first byte tells: it is the encoding of one
-- scalar value, or it is refused.
abbrev pub from_utf8 : Bytes → Option ℕ
from_utf8 chunk =
    let c = payload chunk in if is_scalar c && utf8_char c == chunk then some c else none

-- one scalar copied verbatim
unfoldable pub scalar : ℕ → Parser ℕ
scalar len [] = fail len (codes "truncated UTF-8") []
scalar len (c ∷ b) =
    if ltb (length (c ∷ b)) (utf8_len c)
    then fail len (codes "truncated UTF-8") (c ∷ b)
    else elim (from_utf8 (take (utf8_len c) (c ∷ b))) [
      | none ↦ fail len (codes "invalid UTF-8") (c ∷ b)
      | some ch ↦ (ok ch, drop (utf8_len c) (c ∷ b))
    ]

-- the loop of `string`; a round costs a unit of fuel
unfoldable pub chars : ℕ → ℕ → Text → Parser Text
unfolding escape scalar
chars len zero out b = (err out_of_fuel, b)
chars len (suc f) out [] = fail len (codes "unterminated string") []
chars len (suc f) out (c ∷ b) =
    let escaped = (escape len >>= λ ch. chars len f (out ++ ch ∷ [])) b in
    let copied = (scalar len >>= λ ch. chars len f (out ++ ch ∷ [])) (c ∷ b) in
    if nat_beq c b'"'
    then (ok out, b)
    else if nat_beq c b'\\'
    then escaped
    else if ltb c 0x20
    then fail len (codes "raw control char in string") (c ∷ b)
    else copied

-- `string`, behind its opening quote: a round takes a byte at least
unfoldable pub string : ℕ → Parser Text
unfolding chars
string len b = chars len (suc (length b)) [] b

unfoldable pub skip_digits : Bytes → Bytes
skip_digits [] = []
skip_digits (c ∷ b) = let rest = skip_digits b in if is_ascii_digit c then rest else c ∷ b

abbrev pub skip_minus : Parser (Unit {0})
skip_minus [] = (ok tt, [])
skip_minus (c ∷ b) = if nat_beq c b'-' then (ok tt, b) else (ok tt, c ∷ b)

-- one digit at least
abbrev pub digits_or : ℕ → Text → Parser (Unit {0})
digits_or len msg [] = fail len msg []
digits_or len msg (c ∷ b) =
    if is_ascii_digit c then (ok tt, skip_digits b) else fail len msg (c ∷ b)

abbrev pub int_part : ℕ → Parser (Unit {0})
int_part len [] = fail len (codes "bad number") []
int_part len (c ∷ b) =
    if nat_beq c b'0' then (ok tt, b) else digits_or len (codes "bad number") (c ∷ b)

abbrev pub frac_part : ℕ → Parser (Unit {0})
frac_part len [] = (ok tt, [])
frac_part len (c ∷ b) =
    if nat_beq c b'.' then digits_or len (codes "bad fraction") b else (ok tt, c ∷ b)

abbrev pub skip_sign : Bytes → Bytes
skip_sign [] = []
skip_sign (c ∷ b) = if nat_beq c b'+' || nat_beq c b'-' then b else c ∷ b

abbrev pub exp_part : ℕ → Parser (Unit {0})
exp_part len [] = (ok tt, [])
exp_part len (c ∷ b) =
    if nat_beq c b'e' || nat_beq c b'E'
    then digits_or len (codes "bad exponent") (skip_sign b)
    else (ok tt, c ∷ b)

unfoldable pub scan_number : ℕ → Parser (Unit {0})
unfolding skip_digits
scan_number len = skip_minus >> int_part len >> frac_part len >> exp_part len

-- The text that was scanned is ASCII and of `f64`'s grammar: neither conversion of it fails.
unfoldable pub number : ℕ → Parser Json
unfolding scan_number parse_f64
number len b =
    (scan_number len >> λ rest. (ok (num (parse_f64 (take (length b - length rest) b))), rest)) b

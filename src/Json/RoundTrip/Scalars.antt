-- ===== src/Json/RoundTrip/Scalars.antt =====
-- Characters of backend/src/json.rs in UTF-8 and in hexadecimal.
use tldr_tv.Prelude.{
  ℕ, suc, ◌+◌, ◌*◌, ◌/◌, ◌%◌, ◌<◌, ◌≡◌, refl, ap, true, false, inl, inr, some, [], ◌∷◌, ◌++◌, arith,
  Bool-cases, ==_refl, append_assoc, nat_beq, ltb, length, length-append, take, drop, every, All,
  list_eq, nat_eq,
}
use tldr_tv.Prelude.Text.{Bytes, Text, utf8, utf8_char}
use tldr_tv.Prelude.Exec.{ok}
use tldr_tv.Json.Print.{hex_digit}
use tldr_tv.Json.Parser.Scan.{
  nibble, hex4, is_scalar, utf8_len, payload, from_utf8, code_point, escape, scalar, chars,
}

-- A Rust `char` is a scalar value.
abbrev pub IsScalar : ℕ → Type 0
IsScalar c = is_scalar c ≡ true

-- the characters of a concrete text
pub every-IsScalar : (s : Text) → every is_scalar s ≡ true → All IsScalar s
every-IsScalar [] h = tt
every-IsScalar (c ∷ s) h = (ground (arith, h), every-IsScalar s (ground (arith, h)))

pub utf8-append : (s t : Text) → utf8 (s ++ t) ≡ utf8 s ++ utf8 t
utf8-append [] t = refl
utf8-append (c ∷ s) t = simp (utf8-append s t, append_assoc)

pub take-append : (xs ys : Bytes) → take (length xs) (xs ++ ys) ≡ xs
take-append [] ys = refl
take-append (x ∷ xs) ys = ap (λ zs. x ∷ zs) (take-append xs ys)

pub drop-append : (xs ys : Bytes) → drop (length xs) (xs ++ ys) ≡ ys
drop-append [] ys = refl
drop-append (x ∷ xs) ys = drop-append xs ys

payload-utf8_char : (c : ℕ) → payload (utf8_char c) ≡ c
payload-utf8_char c = ground arith

from_utf8-utf8_char : (c : ℕ) → IsScalar c → from_utf8 (utf8_char c) ≡ some c
from_utf8-utf8_char c h = rw (payload-utf8_char c, h, ==_refl (utf8_char c)) refl

-- How the encoding of a character that is written raw begins.
abbrev pub IsPlain : ℕ → Type 0
IsPlain b = (nat_beq b b'"' ≡ false) × (nat_beq b b'\\' ≡ false) × (ltb b 0x20 ≡ false)

pub utf8_char-first :
    (c : ℕ)
    → IsPlain c
    → (b : ℕ) × (bs : Bytes) × (utf8_char c ≡ b ∷ bs)
      × (utf8_len b ≡ length (utf8_char c))
      × IsPlain b
utf8_char-first c h = elim (Bool-cases (ltb c 0x80)) [
  | inl e ↦ (c, [], ground arith, ground arith, h)
  | inr e ↦ elim (Bool-cases (ltb c 0x800)) [
    | inl e2 ↦ (0xc0 + c / 64, (0x80 + c % 64) ∷ [], ground arith, ground arith, ground arith)
    | inr e2 ↦ elim (Bool-cases (ltb c 0x10000)) [
      | inl e3 ↦ (
        0xe0 + c / 4096,
        (0x80 + c / 64 % 64) ∷ (0x80 + c % 64) ∷ [],
        ground arith,
        ground arith,
        ground arith,
      )
      | inr e3 ↦ (
        0xf0 + c / 262144,
        (0x80 + c / 4096 % 64) ∷ (0x80 + c / 64 % 64) ∷ (0x80 + c % 64) ∷ [],
        ground arith,
        ground arith,
        ground arith,
      )
    ]
  ]
]

pub scalar-utf8_char :
    (len c b : ℕ) (bs rest : Bytes)
    → IsScalar c
    → utf8_char c ≡ b ∷ bs
    → utf8_len b ≡ length (utf8_char c)
    → scalar len (b ∷ bs ++ rest) ≡ (ok c, rest)
unfolding scalar
scalar-utf8_char len c b bs rest h first size =
    let whole : (b ∷ bs) ++ rest ≡ utf8_char c ++ rest = rw first refl in
    let taken : take (utf8_len b) ((b ∷ bs) ++ rest) ≡ utf8_char c =
      rw (whole, size) (take-append (utf8_char c) rest) in
    let dropped : drop (utf8_len b) ((b ∷ bs) ++ rest) ≡ rest =
      rw (whole, size) (drop-append (utf8_char c) rest) in
    let long : ltb (length ((b ∷ bs) ++ rest)) (utf8_len b) ≡ false =
      rw size (rw (ap length whole) (ground (arith, length-append (utf8_char c) rest))) in
    rw (long, taken, from_utf8-utf8_char c h, dropped) refl

pub chars_raw :
    (len f : ℕ) (out : Text) (b : ℕ) (bs : Bytes) (c : ℕ) (rest : Bytes)
    → IsPlain b
    → scalar len (b ∷ bs) ≡ (ok c, rest)
    → chars len (suc f) out (b ∷ bs) ≡ chars len f (out ++ c ∷ []) rest
unfolding chars
chars_raw len f out b bs c rest (p, q, r) e = rw (p, q, r, e) refl

pub chars_escaped :
    (len f : ℕ) (out : Text) (bs : Bytes) (c : ℕ) (rest : Bytes)
    → escape len bs ≡ (ok c, rest)
    → chars len (suc f) out (b'\\' ∷ bs) ≡ chars len f (out ++ c ∷ []) rest
unfolding chars
chars_escaped len f out bs c rest e = rw e refl

nibble-hex_digit : (n : ℕ) → n < 16 → nibble (hex_digit n) ≡ some n
nibble-hex_digit n h = ground arith

pub utf8_char-hex_digit : (n : ℕ) → n < 16 → utf8_char (hex_digit n) ≡ hex_digit n ∷ []
utf8_char-hex_digit n h = ground arith

pub hex4-digits :
    (len a b c d : ℕ) (rest : Bytes)
    → a < 16
    → b < 16
    → c < 16
    → d < 16
    → hex4 len (hex_digit a ∷ hex_digit b ∷ hex_digit c ∷ hex_digit d ∷ rest)
      ≡ (ok (((a * 16 + b) * 16 + c) * 16 + d), rest)
hex4-digits len a b c d rest ha hb hc hd =
    let long : ltb (suc (suc (suc (suc (length rest))))) 4 ≡ false = ground arith in
    rw
      (
        long,
        nibble-hex_digit a ha,
        nibble-hex_digit b hb,
        nibble-hex_digit c hc,
        nibble-hex_digit d hd,
      )
      (ap (λ v. (ok v, rest)) (omega arith))

pub code_point-control :
    (len c : ℕ) (rest : Bytes) → c < 0x20 → code_point len c rest ≡ (ok c, rest)
code_point-control len c rest h = ground arith

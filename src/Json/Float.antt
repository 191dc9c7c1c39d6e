-- ===== src/Json/Float.antt =====
-- `f64`: the three fields of an IEEE 754 binary64 number, and its conversions from and to `i64`.
pub mod Exact
use tldr_tv.Prelude.{
  ℕ, zero, suc, ◌+◌, ◌-◌, ◌*◌, ◌/◌, ◌%◌, ◌^◌, Bool, true, false, ◌&&◌, ◌||◌, max, ltb, leb, nat_beq,
  if◌then◌else◌,
}
use tldr_tv.Prelude.Int.{ℤ, pos, negsuc}

pub record Float64 : Type 0 where
  pub negative : Bool
  pub exponent : ℕ
  pub fraction : ℕ

abbrev pub is_finite : Float64 → Bool
is_finite x = ltb x.exponent 2047

-- The magnitude of a finite number is `scaled x / 2 ^ 1075`; that of a subnormal one has no
-- leading bit.
abbrev pub scaled : Float64 → ℕ
scaled x = (if nat_beq x.exponent 0 then x.fraction else 2 ^ 52 + x.fraction) * 2 ^ max x.exponent 1

-- `x.fract() == 0.0`
unfoldable pub is_integral : Float64 → Bool
is_integral x = is_finite x && nat_beq (scaled x % 2 ^ 1075) 0

-- `x as i64`, which saturates
unfoldable pub to_i64 : Float64 → ℤ
to_i64 x =
    let m = scaled x / 2 ^ 1075 in
    if nat_beq m 0
    then pos 0
    else if x.negative
    then negsuc ((if ltb (2 ^ 63) m then 2 ^ 63 else m) - 1)
    else pos (if leb (2 ^ 63) m then 2 ^ 63 - 1 else m)

-- the number of bits of `n`; one round drops a bit
unfoldable pub bits_on : ℕ → ℕ → ℕ
bits_on zero n = 0
bits_on (suc fuel) n = let rest = bits_on fuel (n / 2) in if nat_beq n 0 then 0 else suc rest

-- `n / 2 ^ drop` rounded to the nearest number, ties to the even one
abbrev rounded : ℕ → ℕ → ℕ
rounded n drop =
    let q = n / 2 ^ drop in
    let r = n % 2 ^ drop in
    let up = ltb (2 ^ drop) (2 * r) || (nat_beq (2 ^ drop) (2 * r) && nat_beq (q % 2) 1) in
    if up then q + 1 else q

abbrev pub of_magnitude : Bool → ℕ → ℕ → Float64
of_magnitude negative bits n =
    let q = rounded n (bits - 53) in
    if nat_beq n 0
    then record { negative = false; exponent = 0; fraction = 0 }
    else if leb bits 53
    then record {
      negative = negative;
      exponent = 1022 + bits;
      fraction = n * 2 ^ (53 - bits) - 2 ^ 52;
    }
    else if leb (2 ^ 53) q
    then record { negative = negative; exponent = 1023 + bits; fraction = 0 }
    else record { negative = negative; exponent = 1022 + bits; fraction = q - 2 ^ 52 }

-- `v as f64` for an `i64`
unfoldable pub of_i64 : ℤ → Float64
unfolding bits_on
of_i64 (pos n) = of_magnitude false (bits_on 64 n) n
of_i64 (negsuc n) = of_magnitude true (bits_on 64 (suc n)) (suc n)

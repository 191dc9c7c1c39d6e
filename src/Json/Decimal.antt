-- ===== src/Json/Decimal.antt =====
-- The standard library's conversions between `f64` and decimal text, which backend/src/json.rs
-- calls: `str::parse::<f64>` and `Display`. Both are exact on the rational number behind the text.
pub mod Whole
use tldr_tv.Prelude.{
  ℕ, zero, suc, ◌+◌, ◌-◌, ◌*◌, ◌/◌, ◌%◌, ◌^◌, Bool, true, false, ◌&&◌, ◌||◌, not, Option, none,
  some, [], ◌∷◌, ◌++◌, some_passes, is_nil, every, ltb, leb, nat_beq, length, take, drop,
  if◌then◌else◌,
}
use tldr_tv.Prelude.Text.{Text, codes, decimal, is_ascii_digit, split_once, text_starts_with}
use tldr_tv.Json.Float.{Float64, is_integral, is_finite, scaled}

-- the number of bits of `n`; a round drops one
abbrev bits_under : ℕ → ℕ → ℕ
bits_under zero n = 0
bits_under (suc fuel) n = elim (nat_beq n 0) [ true ↦ 0 | false ↦ suc (bits_under fuel (n / 2)) ]

-- `n / d` rounded to the nearest number, ties to the even one
abbrev nearest : ℕ → ℕ → ℕ
nearest n d =
    let q = n / d in
    let r = n % d in if ltb d (2 * r) || (nat_beq d (2 * r) && nat_beq (q % 2) 1) then q + 1 else q

-- `q * 2 ^ drop` units of the least subnormal number, for a `q` of 53 bits, or of fewer at no drop
abbrev of_units : Bool → ℕ → ℕ → Float64
of_units negative q drop =
    if ltb q (2 ^ 52)
    then record { negative = negative; exponent = 0; fraction = q }
    else if leb 2046 drop || (nat_beq drop 2045 && leb (2 ^ 53) q)
    then record { negative = negative; exponent = 2047; fraction = 0 }
    else if leb (2 ^ 53) q
    then record { negative = negative; exponent = drop + 2; fraction = 0 }
    else record { negative = negative; exponent = drop + 1; fraction = q - 2 ^ 52 }

-- the number nearest to `n / d`
abbrev of_ratio : Bool → ℕ → ℕ → Float64
of_ratio negative n d =
    let units = n * 2 ^ 1074 / d in
    let dropped = bits_under units units - 53 in
    of_units negative (nearest (n * 2 ^ 1074) (d * 2 ^ dropped)) dropped

abbrev pub digits_value : ℕ → Text → ℕ
digits_value v [] = v
digits_value v (c ∷ s) = digits_value (v * 10 + (c - b'0')) s

abbrev pub unsigned_of_digits : ℕ → Text → Option ℕ
unsigned_of_digits bits s =
    let n = digits_value 0 s in
    if is_nil s || not (every is_ascii_digit s)
    then none
    else if ltb n (2 ^ bits)
    then some n
    else none

-- `parse` to an unsigned integer of `bits` bits: decimal digits, with an optional plus sign
abbrev pub parse_unsigned : ℕ → Text → Option ℕ
parse_unsigned bits [] = none
parse_unsigned bits (c ∷ s) =
    if nat_beq c b'+' then unsigned_of_digits bits s else unsigned_of_digits bits (c ∷ s)

-- the text before `sep` and the text after it, which is empty where there is no `sep`
abbrev cut_at : ℕ → Text → Text × Text
cut_at sep s = elim (split_once sep s) [ none ↦ (s, []) | some parts ↦ parts ]

abbrev cut_exponent : Text → Text × Text
cut_exponent s = elim (split_once b'e' s) [ none ↦ cut_at b'E' s | some parts ↦ parts ]

-- `m * 10 ^ (e - scale)`, where `e` is the exponent with its sign
abbrev of_decimal : Bool → ℕ → ℕ → Bool → ℕ → Float64
of_decimal negative m scale below e =
    if below
    then of_ratio negative m (10 ^ (scale + e))
    else of_ratio negative (m * 10 ^ e) (10 ^ scale)

abbrev exponent_part : Text → Bool × ℕ
exponent_part s =
    if text_starts_with (codes "-") s
    then (true, digits_value 0 (drop 1 s))
    else if text_starts_with (codes "+") s
    then (false, digits_value 0 (drop 1 s))
    else (false, digits_value 0 s)

-- `text.parse::<f64>()` on a text of the number grammar of JSON, where it does not fail
unfoldable pub parse_f64 : Text → Float64
parse_f64 text =
    let negative = text_starts_with (codes "-") text in
    let unsigned = if negative then drop 1 text else text in
    let (mantissa, e) = cut_exponent unsigned in
    let (whole, fraction) = cut_at b'.' mantissa in
    let (below, power) = exponent_part e in
    of_decimal negative (digits_value 0 (whole ++ fraction)) (length fraction) below power

abbrev zeros : ℕ → Text
zeros zero = []
zeros (suc n) = b'0' ∷ zeros n

-- the largest `k` with `10 ^ k` at most `a / b`, searched downwards
abbrev magnitude_under : ℕ → ℕ → ℕ → ℕ
magnitude_under zero a b = 0
magnitude_under (suc k) a b = elim (ltb a (b * 10 ^ suc k)) [
  | true ↦ magnitude_under k a b
  | false ↦ suc k
]

abbrev pub same_float : Float64 → Float64 → Bool
same_float x y =
    nat_beq x.exponent y.exponent
    && nat_beq x.fraction y.fraction
    && (if x.negative then y.negative else not y.negative)

-- Of the two multiples of `down / up` around `a / b`, the nearer one that reads back as `x`; the
-- upper one at a tie.
abbrev candidate : Float64 → ℕ → ℕ → ℕ → ℕ → Option ℕ
candidate x a b up down =
    let lower = a * up / (b * down) in
    let rest = a * up % (b * down) in
    let reads_lower = same_float (of_ratio x.negative (lower * down) up) x in
    let reads_upper = same_float (of_ratio x.negative (suc lower * down) up) x in
    if reads_lower && reads_upper
    then some (if leb (b * down) (2 * rest) then suc lower else lower)
    else if reads_lower
    then some lower
    else if reads_upper
    then some (suc lower)
    else none

-- A number with a point: its digits without the point, and the number of digits behind it.
abbrev with_point : ℕ → ℕ → Text
with_point m places =
    let digits = decimal m in
    let padded = zeros (suc places - length digits) ++ digits in
    let whole = length padded - places in
    if nat_beq places 0 then digits else take whole padded ++ b'.' ∷ drop whole padded

-- the fewest places that read back, from `places` on; 1074 places are exact
abbrev fewest_places : Float64 → ℕ → ℕ → ℕ → ℕ → Text
fewest_places x a b zero places = with_point (a * 10 ^ places / b) places
fewest_places x a b (suc fuel) places = elim (candidate x a b (10 ^ places) 1) [
  | none ↦ fewest_places x a b fuel (suc places)
  | some m ↦ with_point m places
]

-- the most zeros at the end that read back, from `k` downwards
abbrev most_zeros : Float64 → ℕ → ℕ → ℕ → Text
most_zeros x a b zero = fewest_places x a b 1074 0
most_zeros x a b (suc k) = elim (candidate x a b 1 (10 ^ suc k)) [
  | none ↦ most_zeros x a b k
  | some m ↦ decimal m ++ zeros (suc k)
]

-- `format!("{x}")` of a finite number that is not 0: the shortest digits that read back, always
-- written out without an exponent.
unfoldable pub display : Float64 → Text
display x =
    let a = scaled x in
    let b = 2 ^ 1075 in
    let digits = most_zeros x a b (suc (magnitude_under 309 a b)) in
    if x.negative then b'-' ∷ digits else digits

-- `x.abs() < 1e21`
abbrev below_1e21 : Float64 → Bool
below_1e21 x = ltb (scaled x) (10 ^ 21 * 2 ^ 1075)

-- `format!("{}", x as i128)` of an integral number below 10 ^ 21
abbrev display_integer : Float64 → Text
display_integer x =
    let digits = decimal (scaled x / 2 ^ 1075) in if x.negative then b'-' ∷ digits else digits

-- `repr.replacen('e', "e+", 1)`
abbrev replace_first : Text → Text
replace_first repr = elim (split_once b'e' repr) [
  | none ↦ repr
  | some (front, back) ↦ front ++ codes "e+" ++ back
]

-- `.replace("e+-", "e-")`
abbrev replace_signs : Text → Text
replace_signs (c ∷ d ∷ e ∷ s) =
    let rest = replace_signs (d ∷ e ∷ s) in
    let behind = replace_signs s in
    if nat_beq c b'e' && nat_beq d b'+' && nat_beq e b'-' then b'e' ∷ b'-' ∷ behind else c ∷ rest
replace_signs s = s

unfoldable pub format_number : Float64 → Text
unfolding is_integral display
format_number x =
    let repr = display x in
    if not (is_finite x)
    then codes "null"
    else if nat_beq (scaled x) 0
    then codes "0"
    else if is_integral x && below_1e21 x
    then display_integer x
    else if some_passes (nat_beq b'e') repr
    then replace_signs (replace_first repr)
    else repr

-- ===== src/Json/Float/Exact.antt =====
-- Whole numbers below 2 ^ 53 as `f64`: they are kept exactly.
use native.Mathlib.Omega.{pow_step}
use native.Mathlib.Nat.{pow-le-pow_right, mul_assoc, mul-le-mul_right, add-sub_of_le}
use tldr_tv.Prelude.{
  ℕ, zero, suc, ◌+◌, ◌-◌, ◌*◌, ◌/◌, ◌%◌, ◌^◌, ◌≤◌, ◌<◌, ◌≡◌, ◌∙◌, refl, sym, ap, subst, Bool, true,
  false, Bool-cases, inl, inr, arith, ltb, leb, leb→le, leb_false→lt, lt→ltb, le→leb, nat_beq,
  nat_beq_iff, if◌then◌else◌, max,
}
use tldr_tv.Prelude.Int.{pos, negsuc}
use tldr_tv.Json.Float.{
  Float64, is_finite, scaled, is_integral, to_i64, bits_on, of_magnitude, of_i64,
}

bits_on-zero : (fuel : ℕ) → bits_on fuel 0 ≡ 0
unfolding bits_on
bits_on-zero zero = refl
bits_on-zero (suc fuel) = refl

-- The k with 2 ^ k ≤ n < 2 ^ (k + 1) is one less than the number of bits.
bits_on_lem :
    (fuel n : ℕ)
    → n < 2 ^ fuel
    → 1 ≤ n
    → (k : ℕ) × (bits_on fuel n ≡ suc k) × (2 ^ k ≤ n) × (n < 2 * 2 ^ k)
unfolding bits_on
bits_on_lem zero n small some = absurd (omega arith)
bits_on_lem (suc fuel) n small some =
    let double = pow_step 2 fuel in
    elim (Bool-cases (leb n 1)) [
      | inl one ↦
          let le = leb→le n 1 one in
          let is : n ≡ 1 = omega arith in
          (0, ap (bits_on (suc fuel)) is ∙ ap suc (bits_on-zero fuel), omega arith, omega arith)
      | inr more ↦
          let gt = leb_false→lt n 1 more in
          let (k, bits, least, most) = bits_on_lem fuel (n / 2) (omega arith) (omega arith) in
          let twice = pow_step 2 k in
          let positive : nat_beq n 0 ≡ false = ground arith in
          (suc k, rw positive (ap suc bits), omega arith, omega arith)
    ]

pow_add : (a b : ℕ) → 2 ^ a * 2 ^ b ≡ 2 ^ (a + b)
pow_add zero b = let same : zero + b ≡ b = omega arith in omega arith ∙ ap (λ m. 2 ^ m) (sym same)
pow_add (suc a) b =
    let same : suc a + b ≡ suc (a + b) = omega arith in
    ap (λ x. x * 2 ^ b) (pow_step 2 a)
    ∙ mul_assoc 2 (2 ^ a) (2 ^ b)
    ∙ ap (λ x. 2 * x) (pow_add a b)
    ∙ sym (pow_step 2 (a + b))
    ∙ ap (λ m. 2 ^ m) (sym same)

abbrev normal : ℕ → ℕ → Float64
normal e f = record { negative = false; exponent = e; fraction = f }

scaled-normal : (e f : ℕ) → 1 ≤ e → scaled (normal e f) ≡ (2 ^ 52 + f) * 2 ^ e
scaled-normal e f h =
    let large : nat_beq e 0 ≡ false = ground arith in
    let same : max e 1 ≡ e = omega arith in rw (large, same) refl

of_magnitude-normal :
    (k n : ℕ)
    → suc k ≤ 53
    → 1 ≤ n
    → of_magnitude false (suc k) n ≡ normal (1022 + suc k) (n * 2 ^ (53 - suc k) - 2 ^ 52)
of_magnitude-normal k n few some =
    let positive : nat_beq n 0 ≡ false = ground arith in
    let short : leb (suc k) 53 ≡ true = le→leb (suc k) 53 few in rw (positive, short) refl

-- The fraction and the exponent make up the number.
shifted :
    (k j n : ℕ)
    → k + j ≡ 52
    → 2 ^ k ≤ n
    → (2 ^ 52 + (n * 2 ^ j - 2 ^ 52)) * 2 ^ (1023 + k) ≡ n * 2 ^ 1075
shifted k j n whole least =
    let least' : 2 ^ 52 ≤ n * 2 ^ j =
      subst (λ x. x ≤ n * 2 ^ j) (pow_add k j ∙ ap (λ m. 2 ^ m) whole)
        (mul-le-mul_right (2 ^ j) least) in
    let sum : j + (1023 + k) ≡ 1075 = omega arith in
    ap (λ x. x * 2 ^ (1023 + k)) (add-sub_of_le least')
    ∙ mul_assoc n (2 ^ j) (2 ^ (1023 + k))
    ∙ ap (λ x. n * x) (pow_add j (1023 + k) ∙ ap (λ m. 2 ^ m) sum)

scaled-of_magnitude :
    (k n : ℕ)
    → suc k ≤ 53
    → 2 ^ k ≤ n
    → 1 ≤ n
    → scaled (of_magnitude false (suc k) n) ≡ n * 2 ^ 1075
scaled-of_magnitude k n few least some =
    let e : 1022 + suc k ≡ 1023 + k = omega arith in
    let j = 53 - suc k in
    let sum : k + (53 - suc k) ≡ 52 = omega arith in
    ap scaled (of_magnitude-normal k n few some)
    ∙ scaled-normal (1022 + suc k) (n * 2 ^ j - 2 ^ 52) (omega arith)
    ∙ ap (λ x. (2 ^ 52 + (n * 2 ^ j - 2 ^ 52)) * 2 ^ x) e
    ∙ shifted k j n sum least

few_bits : (k n : ℕ) → 2 ^ k ≤ n → n < 2 ^ 53 → suc k ≤ 53
few_bits k n least small = elim (Bool-cases (leb (suc k) 53)) [
  | inl few ↦ leb→le (suc k) 53 few
  | inr many ↦
      let gt = leb_false→lt (suc k) 53 many in
      let pow : 2 ^ 53 ≤ 2 ^ k =
        pow-le-pow_right {n = 2} (omega arith) {i = 53} {j = k} (omega arith) in
      absurd (omega arith)
]

-- a float that is the whole number n
pub record IsWhole (n : ℕ) (x : Float64) : Type 0 where
  pub value : scaled x ≡ n * 2 ^ 1075
  pub finite : is_finite x ≡ true
  pub positive : x.negative ≡ false

normal-IsWhole :
    (k n : ℕ) → suc k ≤ 53 → 2 ^ k ≤ n → 1 ≤ n → IsWhole n (of_magnitude false (suc k) n)
normal-IsWhole k n few least some = record {
  value = scaled-of_magnitude k n few least some;
  finite =
      ap is_finite (of_magnitude-normal k n few some) ∙ lt→ltb (1022 + suc k) 2047 (omega arith);
  positive = ap (λ (x : Float64). x.negative) (of_magnitude-normal k n few some);
}

some_bits : (n : ℕ) → n < 2 ^ 53 → 1 ≤ n → IsWhole n (of_i64 (pos n))
unfolding of_i64
some_bits n small some =
    let (k, bits, least, most) = bits_on_lem 64 n (omega arith) some in
    subst (λ b. IsWhole n (of_magnitude false b n)) (sym bits)
      (normal-IsWhole k n (few_bits k n least small) least some)

zero-IsWhole : IsWhole 0 (of_i64 (pos 0))
unfolding of_i64
zero-IsWhole = record { value = refl; finite = refl; positive = refl }

-- `v as f64` keeps a number below 2 ^ 53.
pub of_i64-IsWhole : (n : ℕ) → n < 2 ^ 53 → IsWhole n (of_i64 (pos n))
of_i64-IsWhole n small = elim (Bool-cases (leb 1 n)) [
  | inl some ↦ some_bits n small (leb→le 1 n some)
  | inr none ↦
      let lt = leb_false→lt 1 n none in
      let is : 0 ≡ n = omega arith in subst (λ m. IsWhole m (of_i64 (pos m))) is zero-IsWhole
]

pub quotient : (n : ℕ) (x : Float64) → IsWhole n x → scaled x / 2 ^ 1075 ≡ n
quotient n x h =
    let exact : n * 2 ^ 1075 / 2 ^ 1075 ≡ n = omega arith in ap (λ m. m / 2 ^ 1075) h.value ∙ exact

pub IsWhole-is_integral : (n : ℕ) (x : Float64) → IsWhole n x → is_integral x ≡ true
unfolding is_integral
IsWhole-is_integral n x h =
    let exact : n * 2 ^ 1075 % 2 ^ 1075 ≡ 0 = omega arith in
    let rest : nat_beq (scaled x % 2 ^ 1075) 0 ≡ true =
      ap (λ m. nat_beq (m % 2 ^ 1075) 0) h.value ∙ ap (λ m. nat_beq m 0) exact in
    rw (h.finite, rest) refl

saturated :
    (n : ℕ) (sign : Bool)
    → n < 2 ^ 53
    → sign ≡ false
    → (if nat_beq n 0
        then pos 0
        else if sign
        then negsuc ((if ltb (2 ^ 63) n then 2 ^ 63 else n) - 1)
        else pos (if leb (2 ^ 63) n then 2 ^ 63 - 1 else n))
      ≡ pos n
saturated n sign small h =
    let fits : leb (2 ^ 63) n ≡ false = ground arith in
    elim (Bool-cases (nat_beq n 0)) [
      | inl none ↦ rw none (ap pos (sym ((nat_beq_iff n 0).0 none)))
      | inr some ↦ rw (some, h, fits) refl
    ]

pub IsWhole-to_i64 : (n : ℕ) (x : Float64) → n < 2 ^ 53 → IsWhole n x → to_i64 x ≡ pos n
unfolding to_i64
IsWhole-to_i64 n x small h =
    ap
      (λ m.
        if nat_beq m 0
        then pos 0
        else if x.negative
        then negsuc ((if ltb (2 ^ 63) m then 2 ^ 63 else m) - 1)
        else pos (if leb (2 ^ 63) m then 2 ^ 63 - 1 else m))
      (quotient n x h)
    ∙ saturated n x.negative small h.positive

pub IsWhole-below :
    (n : ℕ) (x : Float64) (bound : ℕ)
    → n < bound
    → IsWhole n x
    → ltb (scaled x) (bound * 2 ^ 1075) ≡ true
IsWhole-below n x bound less h =
    ap (λ m. ltb m (bound * 2 ^ 1075)) h.value
    ∙ lt→ltb (n * 2 ^ 1075) (bound * 2 ^ 1075) (omega arith)

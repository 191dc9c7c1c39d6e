-- ===== src/Http/Reader/Hex.antt =====
-- Hexadecimal digits that backend/src/http.rs writes, read.

use native.Mathlib.Nat.{pow-suc}
use tldr_tv.Prelude.{
  ℕ, zero, suc, ◌+◌, ◌*◌, ◌/◌, ◌%◌, ◌^◌, ◌≤◌, ◌<◌, ◌≡◌, ◌∙◌, refl, sym, ap, subst, true, ◌||◌,
  Option, some, [], ◌∷◌, ◌++◌, list_eq, nat_eq, arith, either, inl, inr, Bool-cases, ltb, ltb→lt,
  ltb_false→le, length, All, ◌and_then◌,
}
use tldr_tv.Prelude.Text.{Text, within}
use tldr_tv.Crypto.Base64.{hex_val}
use tldr_tv.Http.Writer.{lower_hex, hex_onto}
use tldr_tv.Http.Reader.{hex_value}

abbrev pub IsHex : ℕ → Type 0
IsHex c = (within b'0' b'9' c || within b'a' b'f' c) ≡ true

lower_hex-IsHex : (v : ℕ) → v < 16 → IsHex (lower_hex v)
lower_hex-IsHex v h = ground arith

hex_val-lower_hex : (v : ℕ) → v < 16 → hex_val (lower_hex v) ≡ some v
hex_val-lower_hex v h = ground arith

-- What holds of a last digit and of one more digit holds of all digits.
pub hex_onto_cases :
    (P : ℕ → Text → Text → Type 0)
    → ((n : ℕ) (cur : Text) → n < 16 → P n cur (lower_hex n ∷ cur))
    → ((n : ℕ) (cur s : Text) → 16 ≤ n → P (n / 16) (lower_hex (n % 16) ∷ cur) s → P n cur s)
    → (fuel n : ℕ) (cur : Text) → n ≤ fuel
    → P n cur (hex_onto fuel n cur)
unfolding hex_onto
hex_onto_cases P last more zero n cur h =
    let zero_is : n ≡ 0 = omega arith in
    subst (λ m. P m cur (lower_hex (m % 16) ∷ cur)) (sym zero_is) (last 0 cur (omega arith))
hex_onto_cases P last more (suc fuel) n cur h =
    either (P n cur) (ltb n 16) (hex_onto fuel (n / 16) (lower_hex (n % 16) ∷ cur))
      (lower_hex n ∷ cur)
      (λ e. more n cur (hex_onto fuel (n / 16) (lower_hex (n % 16) ∷ cur)) (ltb_false→le n 16 e) (
        hex_onto_cases P last more fuel (n / 16) (lower_hex (n % 16) ∷ cur)
          (omega (arith, ltb_false→le n 16 e))))
      (λ e. last n cur (ltb→lt n 16 e))

-- the digits of a number
abbrev pub digits : ℕ → Text
digits n = hex_onto n n []

pub hex_onto-append :
    (fuel n : ℕ) (cur more : Text) → hex_onto fuel n (cur ++ more) ≡ hex_onto fuel n cur ++ more
unfolding hex_onto
hex_onto-append zero n cur more = refl
hex_onto-append (suc fuel) n cur more = elim (Bool-cases (ltb n 16)) [
  | inl e ↦ rw (hex_onto, e) refl
  | inr e ↦ rw (hex_onto, e) (hex_onto-append fuel (n / 16) (lower_hex (n % 16) ∷ cur) more)
]

pub hex_onto-IsHex :
    (fuel n : ℕ) (cur : Text) → n ≤ fuel → All IsHex cur → All IsHex (hex_onto fuel n cur)
hex_onto-IsHex =
    hex_onto_cases (λ n cur s. All IsHex cur → All IsHex s)
      (λ n cur lt h. (lower_hex-IsHex n lt, h))
      (λ n cur s ge rest h. rest (lower_hex-IsHex (n % 16) (omega arith), h))

pub hex_value-hex_onto :
    (fuel n : ℕ) (cur : Text) → n ≤ fuel → hex_value 0 (hex_onto fuel n cur) ≡ hex_value n cur
hex_value-hex_onto =
    hex_onto_cases (λ n cur s. hex_value 0 s ≡ hex_value n cur)
      (λ n cur lt. digit_read 0 n cur lt ∙ ap (λ v. hex_value v cur) (omega arith))
      (λ n cur s ge rest.
        rest
        ∙ digit_read (n / 16) (n % 16) cur (omega arith)
        ∙ ap (λ v. hex_value v cur) (omega arith))
  where
    digit_read :
        (v d : ℕ) (cur : Text)
        → d < 16
        → hex_value v (lower_hex d ∷ cur) ≡ hex_value (v * 16 + d) cur
    digit_read v d cur lt =
        ap (λ (o : Option ℕ). o and_then λ d. hex_value (v * 16 + d) cur) (hex_val-lower_hex d lt)

pub length-hex_onto :
    (fuel n : ℕ) (cur : Text) (k : ℕ)
    → n ≤ fuel
    → n < 16 ^ suc k
    → length (hex_onto fuel n cur) ≤ suc k + length cur
length-hex_onto fuel n cur k h lt =
    hex_onto_cases (λ n cur s. (k : ℕ) → n < 16 ^ suc k → length s ≤ suc k + length cur)
      (λ n cur lt k small. omega arith)
      (λ n cur s ge rest k small. one_more n cur s k ge rest small) fuel n cur h k lt
  where
    one_more :
        (n : ℕ) (cur s : Text) (k : ℕ)
        → 16 ≤ n
        → ((k : ℕ) → n / 16 < 16 ^ suc k → length s ≤ suc k + suc (length cur))
        → n < 16 ^ suc k
        → length s ≤ suc k + length cur
    one_more n cur s zero ge rest small = absurd (omega arith)
    one_more n cur s (suc k) ge rest small =
        let power = pow-suc 16 (suc k) in omega (arith, rest k (omega (arith, power)))

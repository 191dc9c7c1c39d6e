-- ===== src/Crypto/Compare.antt =====
-- The comparison of secrets, `ct_eq` of backend/src/crypto.rs.
use Prim.Native.Nat.{digits, differ, bit_or-bitwise, bit_xor-bitwise}
use tldr_tv.Prelude.{
  ℕ, zero, suc, ◌/◌, ◌%◌, ◌≤◌, ◌≡◌, refl, ◌↔◌, max, bit_or, bit_xor, true, [], ◌∷◌, arith, length,
}
use tldr_tv.Prelude.Text.{Bytes}
use tldr_tv.Crypto.{ct_eq, difference}

differ-zero : (x y : ℕ) → (differ x y ≡ 0) ↔ (x ≡ y)
differ-zero zero y = ground arith
differ-zero (suc x) zero = ground arith
differ-zero (suc x) (suc y) = ground (arith, differ-zero x y)

xor_digits-zero : (n a b : ℕ) → a ≤ n → (digits (λ b. b) differ n a b ≡ 0) ↔ (a ≡ b)
xor_digits-zero zero zero b h = ground arith
xor_digits-zero zero (suc a) b h = absurd (omega arith)
xor_digits-zero (suc n) zero b h = ground arith
xor_digits-zero (suc n) (suc a) b h =
    ground
      (arith, xor_digits-zero n (suc a / 2) (b / 2) (omega arith), differ-zero (suc a % 2) (b % 2))

or_digits-zero : (n a b : ℕ) → a ≤ n → digits (λ b. b) max n a b ≡ 0 → (a ≡ 0) × (b ≡ 0)
or_digits-zero zero zero b h q = (refl, q)
or_digits-zero zero (suc a) b h q = absurd (omega arith)
or_digits-zero (suc n) zero b h q = (refl, q)
or_digits-zero (suc n) (suc a) b h q =
    let ih = or_digits-zero n (suc a / 2) (b / 2) (omega arith) (omega arith) in ground arith

bit_xor-zero : (a b : ℕ) → (bit_xor a b ≡ 0) ↔ (a ≡ b)
bit_xor-zero a b = rw (bit_xor-bitwise a b) (xor_digits-zero a a b (omega arith))

bit_or-zero : (a b : ℕ) → bit_or a b ≡ 0 → (a ≡ 0) × (b ≡ 0)
bit_or-zero a b q = or_digits-zero a a b (omega arith) (rw (bit_or-bitwise a b) at q)

zero-bit_or : (b : ℕ) → bit_or 0 b ≡ b
zero-bit_or b = bit_or-bitwise 0 b

difference-zero :
    (diff : ℕ) (a b : Bytes) → length a ≡ length b → difference diff a b ≡ 0 → (diff ≡ 0) × (a ≡ b)
difference-zero diff [] [] len q = (q, refl)
difference-zero diff [] (y ∷ b) len q = absurd (omega arith)
difference-zero diff (x ∷ a) [] len q = absurd (omega arith)
difference-zero diff (x ∷ a) (y ∷ b) len q =
    let (both, rest) = difference-zero (bit_or diff (bit_xor x y)) a b (omega arith) q in
    let (d, xy) = bit_or-zero diff (bit_xor x y) both in
    let same = (bit_xor-zero x y).0 xy in (d, cc)

difference_refl : (a : Bytes) → difference 0 a a ≡ 0
difference_refl [] = refl
difference_refl (x ∷ a) =
    let same = (bit_xor-zero x x).1 refl in rw (zero-bit_or (bit_xor x x), same) (difference_refl a)

-- The constant-time comparison of any two byte strings answers whether they are equal.
pub ct_eq_iff : (a b : Bytes) → (ct_eq a b ≡ true) ↔ (a ≡ b)
unfolding ct_eq
ct_eq_iff a b = (
  λ q. (difference-zero 0 a b (ground arith) (ground arith)).1,
  λ q. rw q (ground (arith, difference_refl b)),
)

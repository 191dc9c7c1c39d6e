-- ===== src/Json/Decimal/Whole.antt =====
-- The text of a whole number, as `format_number` of backend/src/json.rs writes it.
use tldr_tv.Prelude.{
  ℕ, ◌*◌, ◌/◌, ◌^◌, ◌<◌, ◌≡◌, ◌∙◌, refl, sym, ap, Bool, true, false, Bool-cases, inl, inr, arith,
  nat_beq, nat_beq_iff, ◌∷◌, not, ◌&&◌, if◌then◌else◌,
}
use tldr_tv.Prelude.Text.{Text, codes, decimal}
use tldr_tv.Json.Float.{Float64, scaled, is_finite, is_integral}
use tldr_tv.Json.Float.Exact.{IsWhole, IsWhole-is_integral, IsWhole-below, quotient}
use tldr_tv.Json.Decimal.{format_number, display_integer, below_1e21}

integer_text :
    (finite none integral below : Bool) (whole other : Text)
    → finite ≡ true
    → none ≡ false
    → integral ≡ true
    → below ≡ true
    → (if not finite
        then codes "null"
        else if none
        then codes "0"
        else if integral && below
        then whole
        else other)
      ≡ whole
integer_text finite none integral below whole other f z i b = rw (f, z, i, b) refl

zero_text :
    (finite none : Bool) (other : Text)
    → finite ≡ true
    → none ≡ true
    → (if not finite then codes "null" else if none then codes "0" else other) ≡ codes "0"
zero_text finite none other f z = rw (f, z) refl

display_integer-decimal : (n : ℕ) (x : Float64) → IsWhole n x → display_integer x ≡ decimal n
display_integer-decimal n x h =
    ap
      (λ (b : Bool).
        if b then b'-' ∷ decimal (scaled x / 2 ^ 1075) else decimal (scaled x / 2 ^ 1075))
      h.positive
    ∙ ap decimal (quotient n x h)

pub format_number-decimal :
    (n : ℕ) (x : Float64) → n < 2 ^ 53 → IsWhole n x → format_number x ≡ decimal n
unfolding format_number
format_number-decimal n x small h = elim (Bool-cases (nat_beq n 0)) [
  | inl none ↦
      let is : n ≡ 0 = (nat_beq_iff n 0).0 none in
      let no_bits : nat_beq (scaled x) 0 ≡ true =
        ap (λ m. nat_beq m 0) (h.value ∙ ap (λ m. m * 2 ^ 1075) is) in
      zero_text (is_finite x) (nat_beq (scaled x) 0) _ h.finite no_bits ∙ ap decimal (sym is)
  | inr some ↦
      let bits : nat_beq (n * 2 ^ 1075) 0 ≡ false = ground arith in
      let some_bits : nat_beq (scaled x) 0 ≡ false = ap (λ m. nat_beq m 0) h.value ∙ bits in
      integer_text (is_finite x) (nat_beq (scaled x) 0) (is_integral x) (below_1e21 x)
        (display_integer x) _ h.finite some_bits (IsWhole-is_integral n x h)
        (IsWhole-below n x (10 ^ 21) (omega arith) h)
      ∙ display_integer-decimal n x h
]

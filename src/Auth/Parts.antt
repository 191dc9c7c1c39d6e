-- ===== src/Auth/Parts.antt =====
-- The parts of a token of backend/src/auth.rs: the split at the dots, and the bytes of the claims.

use tldr_tv.Prelude.{
  ℕ, zero, suc, ◌+◌, ◌%◌, ◌<◌, ◌≡◌, ◌∙◌, refl, sym, ap, subst, true, false, Option, none, some, [],
  ◌∷◌, ◌++◌, inl, inr, Bool-cases, ltb→lt, ◌/◌, arith, append_assoc, ltb, All, All-append, All-map,
  every,
}
use tldr_tv.Prelude.Text.{Text, codes, utf8, utf8_char, split_onto, digits_onto}
use tldr_tv.Prelude.Splits.{IsNot, split_onto-part, split_onto-last}
use tldr_tv.Prelude.Int.{ℤ, pos, negsuc}
use tldr_tv.Json.{str}
use tldr_tv.Json.Print.{stringify, write_value, write_string, write_char, write_chars, hex_digit}
use tldr_tv.Json.RoundTrip.Scalars.{IsScalar}
use tldr_tv.Json.RoundTrip.Chars.{write_char-cases}
use tldr_tv.Crypto.Base64.RoundTrip.{IsLetter, IsByte}
use tldr_tv.Auth.{signing_input, body_json, int_text, user_member}

undotted : (s : Text) → All IsLetter s → All (IsNot b'.') s
undotted = All-map (λ c letter. ground arith)

pub split-token :
    (head body sig : Text)
    → All IsLetter head
    → All IsLetter body
    → All IsLetter sig
    → split_onto b'.' [] (signing_input head body ++ b'.' ∷ sig) ≡ head ∷ body ∷ sig ∷ []
split-token head body sig hh hb hs =
    ap (split_onto b'.' []) (append_assoc head (b'.' ∷ body) (b'.' ∷ sig))
    ∙ split_onto-part b'.' head (body ++ b'.' ∷ sig) [] (undotted head hh)
    ∙ ap (λ t. head ∷ t) (split_onto-part b'.' body sig [] (undotted body hb))
    ∙ ap (λ t. head ∷ body ∷ t) (split_onto-last b'.' sig [] (undotted sig hs))

-- a code point that UTF-8 has bytes for
abbrev IsPoint : ℕ → Type 0
IsPoint c = c < 0x110000

utf8_char-IsByte : (c : ℕ) → IsPoint c → All IsByte (utf8_char c)
utf8_char-IsByte c h = ground arith

utf8-IsByte : (s : Text) → All IsPoint s → All IsByte (utf8 s)
utf8-IsByte [] h = tt
utf8-IsByte (c ∷ s) (p, h) =
    All-append IsByte (utf8_char c) (utf8 s) (utf8_char-IsByte c p) (utf8-IsByte s h)

hex_digit-IsPoint : (n : ℕ) → n < 16 → IsPoint (hex_digit n)
hex_digit-IsPoint n h = ground arith

scalar-IsPoint : (c : ℕ) → IsScalar c → IsPoint c
scalar-IsPoint c h = ground arith

write_char-IsPoint : (c : ℕ) → IsScalar c → All IsPoint (write_char c)
write_char-IsPoint =
    write_char-cases (λ c s. IsScalar c → All IsPoint s) (λ h. (omega arith, (omega arith, tt)))
      (λ h. (omega arith, (omega arith, tt))) (λ h. (omega arith, (omega arith, tt)))
      (λ h. (omega arith, (omega arith, tt))) (λ h. (omega arith, (omega arith, tt)))
      (λ h. (omega arith, (omega arith, tt))) (λ h. (omega arith, (omega arith, tt)))
      (λ c low h. (
        omega arith,
        (
          omega arith,
          (
            hex_digit-IsPoint (c / 4096) (omega arith),
            (
              hex_digit-IsPoint (c / 256 % 16) (omega arith),
              (
                hex_digit-IsPoint (c / 16 % 16) (omega arith),
                (hex_digit-IsPoint (c % 16) (omega arith), tt),
              ),
            ),
          ),
        ),
      ))
      (λ c plain h. (scalar-IsPoint c h, tt))

write_chars-IsPoint : (s : Text) → All IsScalar s → All IsPoint (write_chars s)
unfolding write_chars
write_chars-IsPoint [] h = (omega arith, tt)
write_chars-IsPoint (c ∷ s) (p, h) =
    All-append IsPoint (write_char c) (write_chars s) (write_char-IsPoint c p)
      (write_chars-IsPoint s h)

digits_last :
    (f n : ℕ) (cur : Text) → ltb n 10 ≡ true → digits_onto (suc f) n cur ≡ (b'0' + n) ∷ cur
digits_last f n cur e = rw (digits_onto, e) refl

digits_more :
    (f n : ℕ) (cur : Text)
    → ltb n 10 ≡ false
    → digits_onto (suc f) n cur ≡ digits_onto f (n / 10) ((b'0' + n % 10) ∷ cur)
digits_more f n cur e = rw (digits_onto, e) refl

digits-IsPoint : (f n : ℕ) (cur : Text) → All IsPoint cur → All IsPoint (digits_onto f n cur)
digits-IsPoint zero n cur h = (omega arith, h)
digits-IsPoint (suc f) n cur h = elim (Bool-cases (ltb n 10)) [
  | inl e ↦ subst (All IsPoint) (sym (digits_last f n cur e)) (omega (arith, ltb→lt n 10 e), h)
  | inr e ↦
      subst (All IsPoint) (sym (digits_more f n cur e))
        (digits-IsPoint f (n / 10) ((b'0' + n % 10) ∷ cur) (omega arith, h))
]

int_text-IsPoint : (e : ℤ) → All IsPoint (int_text e)
int_text-IsPoint (pos n) = digits-IsPoint n n [] tt
int_text-IsPoint (negsuc n) = (omega arith, digits-IsPoint (suc n) (suc n) [] tt)

points : (s : Text) → every (λ c. ltb c 0x110000) s ≡ true → All IsPoint s
points [] h = tt
points (c ∷ s) h = (ground (arith, h), points s (ground (arith, h)))

text-IsPoint : (u : Text) → All IsScalar u → All IsPoint (user_member u)
unfolding stringify write_value write_string
text-IsPoint u h =
    All-append IsPoint (codes "{\"userID\":") (stringify (str u))
      (points (codes "{\"userID\":") refl) (omega arith, write_chars-IsPoint u h)

pub body_json-IsByte :
    (u : Text) (e : Option ℤ)
    → All IsScalar u
    → All IsByte (utf8 (body_json (record { user_id = u; exp = e })))
unfolding body_json
body_json-IsByte u none h =
    utf8-IsByte (user_member u ++ codes "}")
      (All-append IsPoint (user_member u) (codes "}") (text-IsPoint u h) (points (codes "}") refl))
body_json-IsByte u (some e) h =
    let start = user_member u ++ codes ",\"exp\":" in
    utf8-IsByte (start ++ int_text e ++ codes "}") (
      All-append IsPoint (start ++ int_text e) (codes "}")
        (All-append IsPoint start (int_text e)
          (All-append IsPoint (user_member u) (codes ",\"exp\":") (text-IsPoint u h)
            (points (codes ",\"exp\":") refl))
          (int_text-IsPoint e))
        (points (codes "}") refl))

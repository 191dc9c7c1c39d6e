-- ===== src/Auth/RoundTrip.antt =====
-- Tokens of backend/src/auth.rs, signed and verified.

use tldr_tv.Prelude.{
  ℕ, ◌^◌, ◌<◌, ◌≤◌, ◌≡◌, ◌∙◌, refl, ap, Bool, ◌&&◌, if◌then◌else◌, true, false, Option, none, some,
  [], ◌∷◌, arith, append_assoc, nat_beq, length, is_nil, All,
}
use tldr_tv.Prelude.Text.{Bytes, Text, codes, utf8}
use tldr_tv.Prelude.Int.{ℤ, pos, negsuc}
use tldr_tv.Prelude.Exec.{Outcome, ok, err}
use tldr_tv.Json.{Json, Members, str, num, obj_of, member, no_member}
use tldr_tv.Json.Print.{stringify, write_value, write_string, write_char, write_chars}
use tldr_tv.Json.RoundTrip.Scalars.{IsScalar, every-IsScalar}
use tldr_tv.Json.RoundTrip.{parse_object}
use tldr_tv.Json.RoundTrip.Written.{IsWritable, HasWritable, insert_all, members_height}
use tldr_tv.Json.Parser.Scan.{Stop}
use tldr_tv.Json.Decimal.{format_number}
use tldr_tv.Json.Float.{Float64, of_i64, to_i64}
use tldr_tv.Json.Float.Exact.{of_i64-IsWhole, IsWhole-below, IsWhole-is_integral, IsWhole-to_i64}
use tldr_tv.Json.Decimal.Whole.{format_number-decimal}
use tldr_tv.Crypto.{ct_eq}
use tldr_tv.Crypto.Compare.{ct_eq_iff}
use tldr_tv.Crypto.Base64.{b64_encode_with, base64url_encode, b64_url}
use tldr_tv.Crypto.Base64.RoundTrip.{
  IsByte, b64_encode_with-letters, b64_url-Decodes, base64url_decode-base64url_encode,
}
use tldr_tv.Crypto.Sha256.{hmac_sha256}
use tldr_tv.Crypto.Sha256.Lengths.{length-hmac_sha256}
use tldr_tv.Auth.{
  JwtPayload, JwtError, jwt_sign, jwt_verify, verify_split, verify_parts, from_body, from_bytes,
  from_claims, signature, signing_input, with_exp, body_json, int_text, claimed_exp, header_text,
  is_expired,
}
use tldr_tv.Auth.Parts.{split-token, body_json-IsByte}

-- An expiry that a token can carry: absent, or a time below 2 ^ 53 whose decimal text the JSON parser
-- reads as the `f64` that it is.
abbrev pub IsClaim : Option ℤ → Type 0
IsClaim none = Unit
IsClaim (some (negsuc n)) = Unit
IsClaim (some (pos n)) = (n < 2 ^ 53) × IsWritable (num (of_i64 (pos n)))

claimed :
    (below integral : Bool) (e : ℤ)
    → below ≡ true
    → integral ≡ true
    → (if below && integral then ok (some e) else err JwtError.malformed) ≡ ok (some e)
claimed below integral e b i = rw (b, i) refl

claimed_exp-of_i64 :
    (n : ℕ) → n < 2 ^ 53 → claimed_exp (some (num (of_i64 (pos n)))) ≡ ok (some (pos n))
unfolding claimed_exp
claimed_exp-of_i64 n small =
    let x = of_i64 (pos n) in
    let whole = of_i64-IsWhole n small in
    claimed _ _ (to_i64 x) (IsWhole-below n x (2 ^ 53) small whole) (IsWhole-is_integral n x whole)
    ∙ ap (λ (e : ℤ). ok (some e)) (IsWhole-to_i64 n x small whole)

-- the claims, as they are written
abbrev claims : Text → Option Float64 → Members
claims u none = member (codes "userID") (str u) no_member
claims u (some x) = member (codes "userID") (str u) (member (codes "exp") (num x) no_member)

written_none :
    (u : Text) → body_json (record { user_id = u; exp = none }) ≡ stringify (obj_of (claims u none))
unfolding body_json stringify write_value write_string write_chars write_char
written_none u = refl

written_some :
    (u : Text) (e : ℤ) (x : Float64)
    → format_number x ≡ int_text e
    → body_json (record { user_id = u; exp = some e }) ≡ stringify (obj_of (claims u (some x)))
unfolding body_json stringify write_value write_string write_chars write_char
written_some u e x same = simp (same, append_assoc)

from_bytes-claims :
    (now : ℕ) (u : Text) (o : Option Float64)
    → HasWritable (claims u o)
    → from_bytes now (utf8 (stringify (obj_of (claims u o))))
      ≡ from_claims now (obj_of (insert_all no_member (claims u o)))
from_bytes-claims now u o h =
    ap
      (λ (r : Outcome Stop Json). elim r [
        | ok decoded ↦ from_claims now decoded
        | err e ↦ err JwtError.malformed
      ])
      (parse_object (claims u o) h (shallow u o))
  where
    shallow : (u : Text) (o : Option Float64) → members_height (claims u o) ≤ 128
    shallow u none = omega arith
    shallow u (some x) = omega arith

from_bytes-body :
    (now : ℕ) (u : Text) (e : Option ℤ)
    → All IsScalar u
    → IsClaim e
    → is_expired now e ≡ false
    → from_bytes now (utf8 (body_json (record { user_id = u; exp = e })))
      ≡ ok (record { user_id = u; exp = e })
unfolding claimed_exp
from_bytes-body now u none h claim current =
    ap (λ t. from_bytes now (utf8 t)) (written_none u)
    ∙ from_bytes-claims now u none (every-IsScalar (codes "userID") refl, (h, tt))
from_bytes-body now u (some (negsuc n)) h claim current = absurd cc
from_bytes-body now u (some (pos n)) h (small, reads) current =
    let x = of_i64 (pos n) in
    let same = format_number-decimal n x small (of_i64-IsWhole n small) in
    ap (λ t. from_bytes now (utf8 t)) (written_some u (pos n) x same)
    ∙ from_bytes-claims now u (some x) (
      every-IsScalar (codes "userID") refl,
      (h, (every-IsScalar (codes "exp") refl, (reads, tt))),
    )
    ∙ ap (with_exp now u) (claimed_exp-of_i64 n small)
    ∙ rw current refl

not_nil : (s : Text) → 1 ≤ length s → is_nil s ≡ false
not_nil [] h = absurd (omega arith)
not_nil (c ∷ s) h = refl

length-base64url_encode : (b : Bytes) → 1 ≤ length b → 1 ≤ length (base64url_encode b)
unfolding b64_encode_with
length-base64url_encode [] h = absurd (omega arith)
length-base64url_encode (a ∷ []) h = omega arith
length-base64url_encode (a ∷ b ∷ []) h = omega arith
length-base64url_encode (a ∷ b ∷ c ∷ rest) h = omega arith

some_body :
    (u : Text) (e : Option ℤ) → 1 ≤ length (utf8 (body_json (record { user_id = u; exp = e })))
unfolding body_json
some_body u none = omega arith
some_body u (some e) = omega arith

from_body-encoded :
    (now : ℕ) (b : Bytes) → All IsByte b → from_body now (base64url_encode b) ≡ from_bytes now b
unfolding from_body
from_body-encoded now b h =
    ap
      (λ (o : Option Bytes). elim o [
        | none ↦ err JwtError.malformed
        | some raw ↦ from_bytes now raw
      ])
      (base64url_decode-base64url_encode b h)

verify_parts-signed :
    (now : ℕ) (secret head body : Text)
    → is_nil head ≡ false
    → is_nil body ≡ false
    → verify_parts now secret head body (signature secret (signing_input head body))
      ≡ from_body now body
verify_parts-signed now secret head body hh hb =
    let sig = signature secret (signing_input head body) in
    let hs : is_nil sig ≡ false = not_nil sig (
      length-base64url_encode (hmac_sha256 (utf8 secret) (utf8 (signing_input head body)))
        (omega (arith, length-hmac_sha256 (utf8 secret) (utf8 (signing_input head body))))) in
    let same : ct_eq (utf8 sig) (utf8 sig) ≡ true = (ct_eq_iff (utf8 sig) (utf8 sig)).1 refl in
    let size : nat_beq (length (utf8 sig)) (length (utf8 sig)) ≡ true = ground arith in
    rw (hh, hb, hs, size, same) refl

-- A token that was signed is accepted under the same secret and answers what was signed, for a user
-- id of Unicode scalar values and a clock that is not past the expiry, if the expiry is absent, or a
-- time below 2 ^ 53 whose decimal text the JSON parser reads as the f64 of that value.
pub jwt_verify-jwt_sign :
    (now : ℕ) (u : Text) (e : Option ℤ) (secret : Text)
    → All IsScalar u
    → IsClaim e
    → is_expired now e ≡ false
    → let p : JwtPayload = record { user_id = u; exp = e } in
      jwt_verify now (jwt_sign p secret) secret ≡ ok p
unfolding jwt_verify jwt_sign
jwt_verify-jwt_sign now u e secret h claim current =
    let p : JwtPayload = record { user_id = u; exp = e } in
    let head = base64url_encode (utf8 header_text) in
    let body = base64url_encode (utf8 (body_json p)) in
    let sig = signature secret (signing_input head body) in
    let letters = λ (b : Bytes). b64_encode_with-letters b64_url b64_url-Decodes b in
    ap (verify_split now secret) (
      split-token head body sig (letters (utf8 header_text)) (letters (utf8 (body_json p)))
        (letters (hmac_sha256 (utf8 secret) (utf8 (signing_input head body)))))
    ∙ verify_parts-signed now secret head body
        (not_nil head (length-base64url_encode (utf8 header_text) (omega arith)))
        (not_nil body (length-base64url_encode (utf8 (body_json p)) (some_body u e)))
    ∙ from_body-encoded now (utf8 (body_json p)) (body_json-IsByte u e h)
    ∙ from_bytes-body now u e h claim current

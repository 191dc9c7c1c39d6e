-- ===== src/Auth.antt =====
-- The session tokens of backend/src/auth.rs. The clock is an argument, in seconds.
pub mod Tokens
pub mod Parts
pub mod RoundTrip
mod Examples
use tldr_tv.Prelude.{
  ℕ, suc, ◌+◌, ◌*◌, ◌^◌, Bool, true, false, ◌&&◌, ◌||◌, not, Option, none, some, List, [], ◌∷◌,
  ◌++◌, ltb, nat_beq, length, is_nil, if◌then◌else◌,
}
use tldr_tv.Prelude.Text.{Bytes, Text, codes, utf8, split_onto, decimal}
use tldr_tv.Prelude.Int.{ℤ, pos, negsuc, int_ltb, int_is_zero}
use tldr_tv.Prelude.Exec.{Outcome, ok, err}
use tldr_tv.Json.{Json, null, num, str, get, get_str}
use tldr_tv.Json.Float.{Float64, scaled, is_integral, to_i64}
use tldr_tv.Json.Print.{stringify}
use tldr_tv.Json.Parser.{parse}
use tldr_tv.Crypto.{ct_eq}
use tldr_tv.Crypto.Base64.{base64url_encode, base64url_decode, b64_encode_with, b64_decode_any}
use tldr_tv.Crypto.Sha256.{hmac_sha256}

pub record JwtPayload : Type 0 where
  pub user_id : Text
  pub exp : Option ℤ

pub data JwtError : Type 0 where
  malformed bad_signature expired : JwtError

abbrev pub header_text : Text
header_text = codes "{\"alg\":\"HS256\",\"typ\":\"JWT\"}"

-- `format!("{exp}")`
abbrev pub int_text : ℤ → Text
int_text (pos n) = decimal n
int_text (negsuc n) = b'-' ∷ decimal (suc n)

abbrev pub user_member : Text → Text
user_member user_id = codes "{\"userID\":" ++ stringify (str user_id)

unfoldable pub body_json : JwtPayload → Text
body_json p = elim p.exp [
  | some exp ↦ user_member p.user_id ++ codes ",\"exp\":" ++ int_text exp ++ codes "}"
  | none ↦ user_member p.user_id ++ codes "}"
]

-- the text that is signed
abbrev pub signing_input : Text → Text → Text
signing_input head body = head ++ b'.' ∷ body

abbrev pub signature : Text → Text → Text
signature secret input = base64url_encode (hmac_sha256 (utf8 secret) (utf8 input))

unfoldable pub jwt_sign : JwtPayload → Text → Text
unfolding b64_encode_with hmac_sha256 body_json
jwt_sign payload secret =
    let head = base64url_encode (utf8 header_text) in
    let body = base64url_encode (utf8 (body_json payload)) in
    let input = signing_input head body in input ++ b'.' ∷ signature secret input

-- `v.abs() < MAX_SAFE_EXP`
abbrev below_max_safe : Float64 → Bool
below_max_safe v = ltb (scaled v) (2 ^ 53 * 2 ^ 1075)

unfoldable pub claimed_exp : Option Json → Outcome JwtError (Option ℤ)
unfolding is_integral to_i64
claimed_exp none = ok none
claimed_exp (some null) = ok none
claimed_exp (some (num v)) =
    if below_max_safe v && is_integral v then ok (some (to_i64 v)) else err JwtError.malformed
claimed_exp (some _) = err JwtError.malformed

-- An `exp` of 0 is not checked.
abbrev pub is_expired : ℕ → Option ℤ → Bool
is_expired now none = false
is_expired now (some exp) = not (int_is_zero exp) && int_ltb exp (pos now)

abbrev pub with_exp : ℕ → Text → Outcome JwtError (Option ℤ) → Outcome JwtError JwtPayload
with_exp now user_id (err e) = err e
with_exp now user_id (ok exp) =
    if is_expired now exp
    then err JwtError.expired
    else ok (record { user_id = user_id; exp = exp })

abbrev pub from_claims : ℕ → Json → Outcome JwtError JwtPayload
from_claims now decoded = elim (get_str decoded (codes "userID")) [
  | none ↦ err JwtError.malformed
  | some user_id ↦ with_exp now user_id (claimed_exp (get decoded (codes "exp")))
]

abbrev pub from_bytes : ℕ → Bytes → Outcome JwtError JwtPayload
from_bytes now raw = elim (parse raw) [
  | err e ↦ err JwtError.malformed
  | ok decoded ↦ from_claims now decoded
]

-- what is done once the signature is found good
unfoldable pub from_body : ℕ → Text → Outcome JwtError JwtPayload
unfolding b64_decode_any parse
from_body now body = elim (base64url_decode body) [
  | none ↦ err JwtError.malformed
  | some raw ↦ from_bytes now raw
]

abbrev pub verify_parts : ℕ → Text → Text → Text → Text → Outcome JwtError JwtPayload
verify_parts now secret head body sig =
    let expected = signature secret (signing_input head body) in
    if is_nil head || is_nil body || is_nil sig
    then err JwtError.malformed
    else if not (nat_beq (length (utf8 sig)) (length (utf8 expected)))
        || not (ct_eq (utf8 sig) (utf8 expected))
    then err JwtError.bad_signature
    else from_body now body

abbrev pub verify_split : ℕ → Text → List Text → Outcome JwtError JwtPayload
verify_split now secret (head ∷ body ∷ sig ∷ []) = verify_parts now secret head body sig
verify_split now secret _ = err JwtError.malformed

unfoldable pub jwt_verify : ℕ → Text → Text → Outcome JwtError JwtPayload
unfolding b64_encode_with hmac_sha256 from_body ct_eq
jwt_verify now token secret = verify_split now secret (split_onto b'.' [] token)

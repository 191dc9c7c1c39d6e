-- ===== src/Auth/Tokens.antt =====
-- Which tokens `jwt_verify` of backend/src/auth.rs accepts.
use tldr_tv.Prelude.{
  ℕ, ◌≤◌, ◌⊎◌, arith, ◌++◌, ◌≡◌, ◌∙◌, refl, ap, sym, Bool, Option, true, false, ◌||◌, not, none,
  some, List, [], ◌∷◌, nat_beq, length, is_nil, if◌then◌else◌,
}
use tldr_tv.Prelude.Text.{Text, codes, utf8, split_onto}
use tldr_tv.Json.{get, get_str}
use tldr_tv.Json.Parser.{parse}
use tldr_tv.Prelude.Int.{ℤ, pos, negsuc}
use tldr_tv.Crypto.Base64.{base64url_encode, base64url_decode}
use tldr_tv.Crypto.Sha256.{hmac_sha256}
use tldr_tv.Prelude.Exec.{Outcome, ok, err}
use tldr_tv.Crypto.{ct_eq}
use tldr_tv.Crypto.Compare.{ct_eq_iff}
use tldr_tv.Auth.{
  JwtPayload, JwtError, jwt_verify, verify_split, verify_parts, from_body, signature, signing_input,
  is_expired, from_bytes, from_claims, with_exp, claimed_exp,
}

-- An expiry that is absent, or 0, or not before the time.
abbrev pub IsCurrent : ℕ → Option ℤ → Type 0
IsCurrent now none = Unit
IsCurrent now (some (pos n)) = (n ≡ 0) ⊎ (now ≤ n)
IsCurrent now (some (negsuc n)) = ⊥

is_expired-IsCurrent : (now : ℕ) (e : Option ℤ) → is_expired now e ≡ false → IsCurrent now e
is_expired-IsCurrent now none h = tt
is_expired-IsCurrent now (some (pos n)) h = ground arith
is_expired-IsCurrent now (some (negsuc n)) h = cc

-- The token is three parts, the third of them signs the other two, and the expiry is not over.
pub record Accepted (now : ℕ) (secret token : Text) (p : JwtPayload) : Type 0 where
  pub head : Text
  pub body : Text
  pub sig : Text
  pub parts : split_onto b'.' [] token ≡ head ∷ body ∷ sig ∷ []
  pub signed :
      utf8 sig ≡ utf8 (base64url_encode (hmac_sha256 (utf8 secret) (utf8 (head ++ b'.' ∷ body))))
  pub current : IsCurrent now p.exp

if_expired-current :
    (now : ℕ) (user_id : Text) (exp : Option ℤ) (b : Bool) (p : JwtPayload)
    → is_expired now exp ≡ b
    → (if b then err JwtError.expired else ok (record { user_id = user_id; exp = exp })) ≡ ok p
    → is_expired now p.exp ≡ false
if_expired-current now user_id exp true p e h = cc
if_expired-current now user_id exp false p e h = ap (is_expired now) (ap exp_of (sym h)) ∙ e
  where
    exp_of : Outcome JwtError JwtPayload → Option ℤ
    exp_of (ok p) = p.exp
    exp_of (err e) = exp

with_exp-current :
    (now : ℕ) (user_id : Text) (r : Outcome JwtError (Option ℤ)) (p : JwtPayload)
    → with_exp now user_id r ≡ ok p
    → is_expired now p.exp ≡ false
with_exp-current now user_id (err e) p h = cc
with_exp-current now user_id (ok exp) p h =
    if_expired-current now user_id exp (is_expired now exp) p refl h

option_ok :
    {A B : Type 0} (o : Option A) (e : JwtError) (f : A → Outcome JwtError B) (b : B)
    → (elim o [ none ↦ err e | some a ↦ f a ]) ≡ ok b
    → (a : A) × (f a ≡ ok b)
option_ok none e f b h = cc
option_ok (some a) e f b h = (a, h)

outcome_ok :
    {S A B : Type 0} (r : Outcome S A) (e : JwtError) (f : A → Outcome JwtError B) (b : B)
    → (elim r [ err s ↦ err e | ok a ↦ f a ]) ≡ ok b
    → (a : A) × (f a ≡ ok b)
outcome_ok (err s) e f b h = cc
outcome_ok (ok a) e f b h = (a, h)

from_body-current :
    (now : ℕ) (body : Text) (p : JwtPayload)
    → from_body now body ≡ ok p
    → is_expired now p.exp ≡ false
unfolding from_body
from_body-current now body p h =
    let (raw, q) = option_ok (base64url_decode body) JwtError.malformed (from_bytes now) p h in
    let (decoded, r) = outcome_ok (parse raw) JwtError.malformed (from_claims now) p q in
    let (user_id, t) =
      option_ok (get_str decoded (codes "userID")) JwtError.malformed
        (λ u. with_exp now u (claimed_exp (get decoded (codes "exp")))) p r in
    with_exp-current now user_id (claimed_exp (get decoded (codes "exp"))) p t

passed :
    (a b c : Bool) (f : Outcome JwtError JwtPayload) (p : JwtPayload)
    → (if a
        then err JwtError.malformed
        else if not b || not c
        then err JwtError.bad_signature
        else f)
      ≡ ok p
    → (c ≡ true) × (f ≡ ok p)
passed true b c f p h = cc
passed false false c f p h = cc
passed false true false f p h = cc
passed false true true f p h = (refl, h)

verify_parts-Accepted :
    (now : ℕ) (secret token head body sig : Text) (p : JwtPayload)
    → split_onto b'.' [] token ≡ head ∷ body ∷ sig ∷ []
    → verify_parts now secret head body sig ≡ ok p
    → Accepted now secret token p
verify_parts-Accepted now secret token head body sig p parts h =
    let expected = signature secret (signing_input head body) in
    let (same, rest) =
      passed (is_nil head || is_nil body || is_nil sig)
        (nat_beq (length (utf8 sig)) (length (utf8 expected))) (ct_eq (utf8 sig) (utf8 expected))
        (from_body now body) p h in
    record {
      head = head;
      body = body;
      sig = sig;
      parts = parts;
      signed = (ct_eq_iff (utf8 sig) (utf8 expected)).0 same;
      current = is_expired-IsCurrent now p.exp (from_body-current now body p rest);
    }

verify_split-Accepted :
    (now : ℕ) (secret token : Text) (parts : List Text) (p : JwtPayload)
    → split_onto b'.' [] token ≡ parts
    → verify_split now secret parts ≡ ok p
    → Accepted now secret token p
verify_split-Accepted now secret token [] p e h = cc
verify_split-Accepted now secret token (a ∷ []) p e h = cc
verify_split-Accepted now secret token (a ∷ b ∷ []) p e h = cc
verify_split-Accepted now secret token (a ∷ b ∷ c ∷ []) p e h =
    verify_parts-Accepted now secret token a b c p e h
verify_split-Accepted now secret token (a ∷ b ∷ c ∷ d ∷ rest) p e h = cc

-- Every token that is accepted has three parts, the third is the base64url text of the HMAC of the
-- first two under the secret, and the expiry that is answered is absent, 0, or not before the clock.
pub jwt_verify-Accepted :
    (now : ℕ) (token secret : Text) (p : JwtPayload)
    → jwt_verify now token secret ≡ ok p
    → Accepted now secret token p
unfolding jwt_verify
jwt_verify-Accepted now token secret p h =
    verify_split-Accepted now secret token (split_onto b'.' [] token) p refl h

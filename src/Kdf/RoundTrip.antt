-- ===== src/Kdf/RoundTrip.antt =====
-- Which stored hashes backend/src/kdf.rs accepts, and that it accepts what it writes.
use tldr_tv.Prelude.{
  ℕ, zero, suc, ◌≤◌, ◌≡◌, ◌∙◌, refl, ap, Bool, true, false, Option, none, some, [], ◌∷◌, ◌++◌,
  arith, ltb, All, All-map, ◌and_then◌, length, take,
}
use tldr_tv.Prelude.Text.{Bytes, Text, codes, utf8, split_onto}
use tldr_tv.Prelude.Splits.{IsNot, split_onto-part, split_onto-last}
use tldr_tv.Prelude.Exec.{Outcome, ok, err}
use tldr_tv.Crypto.{Random, exactly}
use tldr_tv.Crypto.Compare.{ct_eq_iff}
use tldr_tv.Crypto.Base64.{b64_url, base64url_encode, base64url_decode}
use tldr_tv.Crypto.Base64.RoundTrip.{
  IsByte, IsLetter, b64_url-Decodes, b64_encode_with-letters, base64url_decode-base64url_encode,
}
use tldr_tv.Kdf.Scrypt.{ScryptError, scrypt, derive}
use tldr_tv.Kdf.Keys.{pbkdf2_hmac_sha256-IsByte}
use tldr_tv.Kdf.{
  HashError, current_params, within_limits, parsed_fields, parse_fields, parse_scrypt_hash, encoded,
  hash_with, hash_password, matches_key, verify_parsed, verify_password, is_outdated, needs_rehash,
}

undollared : (s : Text) → All IsLetter s → All (IsNot b'$') s
undollared = All-map (λ c letter. ground arith)

split_fields :
    (salt key : Text)
    → All IsLetter salt
    → All IsLetter key
    → split_onto b'$' [] (codes "16384$8$1$" ++ salt ++ b'$' ∷ key)
      ≡ codes "16384" ∷ codes "8" ∷ codes "1" ∷ salt ∷ key ∷ []
split_fields salt key hs hk =
    ap (λ t. codes "16384" ∷ codes "8" ∷ codes "1" ∷ t)
      (split_onto-part b'$' salt key [] (undollared salt hs)
        ∙ ap (λ t. salt ∷ t) (split_onto-last b'$' key [] (undollared key hk)))

-- the key of a new hash
abbrev new_key : Text → Bytes → Bytes
new_key password salt = derive (utf8 password) salt 16384 8 1 64 256 1024

scrypt_current :
    (password : Text) (salt : Bytes)
    → scrypt (utf8 password) salt 16384 8 1 64 ≡ ok (new_key password salt)
unfolding scrypt
scrypt_current password salt = refl

decoded :
    (salt key : Bytes)
    → All IsByte salt
    → All IsByte key
    → parsed_fields current_params (base64url_encode salt) (base64url_encode key)
      ≡ some (record { params = current_params; salt = salt; key = key })
unfolding within_limits
decoded salt key hs hk =
    ap
      (λ (o : Option Bytes). o and_then λ s. base64url_decode (base64url_encode key) and_then λ k.
        some (record { params = current_params; salt = s; key = k }))
      (base64url_decode-base64url_encode salt hs)
    ∙ ap
        (λ (o : Option Bytes).
          o and_then λ k. some (record { params = current_params; salt = salt; key = k }))
        (base64url_decode-base64url_encode key hk)

parse_scrypt_hash-encoded :
    (salt key : Bytes)
    → All IsByte salt
    → All IsByte key
    → parse_scrypt_hash (encoded current_params salt key)
      ≡ some (record { params = current_params; salt = salt; key = key })
unfolding parse_scrypt_hash
parse_scrypt_hash-encoded salt key hs hk =
    ap parse_fields (
      split_fields (base64url_encode salt) (base64url_encode key)
        (b64_encode_with-letters b64_url b64_url-Decodes salt)
        (b64_encode_with-letters b64_url b64_url-Decodes key))
    ∙ decoded salt key hs hk

verified :
    (bcrypt_verify : Text → Text → Bool) (password : Text) (salt key : Bytes)
    → key ≡ new_key password salt
    → All IsByte salt
    → All IsByte key
    → verify_password bcrypt_verify password (encoded current_params salt key) ≡ true
unfolding verify_password
verified bcrypt_verify password salt key same hs hk =
    ap (verify_parsed password) (parse_scrypt_hash-encoded salt key hs hk)
    ∙ ap (matches_key key) (scrypt_current password salt)
    ∙ (ct_eq_iff key (new_key password salt)).1 same

outdated :
    (salt key : Bytes)
    → All IsByte salt
    → All IsByte key
    → needs_rehash (encoded current_params salt key) ≡ false
unfolding needs_rehash
outdated salt key hs hk = ap is_outdated (parse_scrypt_hash-encoded salt key hs hk)

take-IsByte : (n : ℕ) (b : Bytes) → All IsByte b → All IsByte (take n b)
take-IsByte zero b h = tt
take-IsByte (suc n) [] h = tt
take-IsByte (suc n) (x ∷ b) (p, h) = (p, take-IsByte n b h)

exactly_long : (bytes : Bytes) → 16 ≤ length bytes → exactly 16 (some bytes) ≡ some (take 16 bytes)
exactly_long bytes long =
    let enough : ltb (length bytes) 16 ≡ false = ground arith in rw enough refl

hashed :
    (password : Text) (bytes : Bytes) (rest : Random)
    → 16 ≤ length bytes
    → let salt = take 16 bytes in
      hash_password password (some bytes ∷ rest)
      ≡ (ok (encoded current_params salt (new_key password salt)), rest)
unfolding hash_password
hashed password bytes rest long =
    let salt = take 16 bytes in
    ap
      (λ (o : Option Bytes).
        (elim o [ none ↦ err HashError.random | some s ↦ hash_with password s ], rest))
      (exactly_long bytes long)
    ∙ ap
        (λ (r : Outcome ScryptError Bytes). (
          elim r [
            | err e ↦ err (HashError.scrypt_failed e)
            | ok key ↦ ok (encoded current_params salt key)
          ],
          rest,
        ))
        (scrypt_current password salt)

-- If the random source gives at least 16 bytes, then a password is hashed, the hash verifies under
-- that password, and it is not due to be written again.
pub verify_password-hash_password :
    (bcrypt_verify : Text → Text → Bool) (password : Text) (bytes : Bytes) (rest : Random)
    → 16 ≤ length bytes
    → All IsByte bytes
    → (stored : Text) × (hash_password password (some bytes ∷ rest) ≡ (ok stored, rest))
      × (verify_password bcrypt_verify password stored ≡ true)
      × (needs_rehash stored ≡ false)
unfolding hash_password
verify_password-hash_password bcrypt_verify password bytes rest long h =
    let salt = take 16 bytes in
    let key = new_key password salt in
    let hs = take-IsByte 16 bytes h in
    let hk = pbkdf2_hmac_sha256-IsByte (utf8 password) _ 64 in
    (
      encoded current_params salt key,
      hashed password bytes rest long,
      verified bcrypt_verify password salt key refl hs hk,
      outdated salt key hs hk,
    )

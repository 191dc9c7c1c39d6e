-- ===== src/Kdf.antt =====
-- Password hashes of backend/src/kdf.rs; the child Scrypt has the key derivation. The verifier of
-- legacy bcrypt hashes, a port of a vendored library, is a parameter, and the random source a list
-- of reads.
pub mod Scrypt
pub mod Keys
pub mod Limits
pub mod RoundTrip
mod Examples
use mathlib.Core.Option
use tldr_tv.Prelude.{
  ℕ, zero, suc, ◌+◌, ◌*◌, ◌^◌, Bool, true, false, not, ◌&&◌, ◌||◌, Option, none, some, List, [],
  ◌∷◌, ◌++◌, ltb, leb, nat_beq, drop, is_nil, if◌then◌else◌, ◌and_then◌,
}
use tldr_tv.Prelude.Text.{Bytes, Text, codes, utf8, decimal, split_onto, text_starts_with}
use tldr_tv.Prelude.Exec.{Outcome, ok, err}
use tldr_tv.Json.Decimal.{parse_unsigned}
use tldr_tv.Crypto.{Random, random_bytes, ct_eq}
use tldr_tv.Crypto.Base64.{base64url_encode, base64url_decode}
use tldr_tv.Kdf.Scrypt.{ScryptError, scrypt, is_power_of_two, checked_mul}

abbrev pub scrypt_salt_len : ℕ
scrypt_salt_len = 16

abbrev pub scrypt_key_len : ℕ
scrypt_key_len = 64

abbrev pub scrypt_n : ℕ
scrypt_n = 16384

abbrev pub scrypt_r : ℕ
scrypt_r = 8

abbrev pub scrypt_p : ℕ
scrypt_p = 1

abbrev pub scrypt_max_stored_memory : ℕ
scrypt_max_stored_memory = 256 * 1024 * 1024

abbrev pub scrypt_max_stored_p : ℕ
scrypt_max_stored_p = 16

pub record ScryptParams : Type 0 where
  pub n : ℕ
  pub r : ℕ
  pub p : ℕ

abbrev pub current_params : ScryptParams
current_params = record { n = scrypt_n; r = scrypt_r; p = scrypt_p }

-- the derived equality of `ScryptParams`
abbrev pub same_params : ScryptParams → ScryptParams → Bool
same_params a b = nat_beq a.n b.n && nat_beq a.r b.r && nat_beq a.p b.p

abbrev pub fits : Option ℕ → Bool
fits none = false
fits (some bytes) = leb bytes scrypt_max_stored_memory

abbrev pub working_set : ScryptParams → Option ℕ
working_set s = checked_mul 128 s.n and_then λ v. checked_mul v s.r

unfoldable pub within_limits : ScryptParams → Bool
within_limits s =
    if nat_beq s.p 0 || ltb scrypt_max_stored_p s.p
    then false
    else if nat_beq s.r 0 || ltb s.n 2 || not (is_power_of_two s.n)
    then false
    else fits (working_set s)

pub record ParsedHash : Type 0 where
  pub params : ScryptParams
  pub salt : Bytes
  pub key : Bytes

abbrev parse_u32 : Text → Option ℕ
parse_u32 s = parse_unsigned 32 s

abbrev pub parsed_fields : ScryptParams → Text → Text → Option ParsedHash
parsed_fields params salt_b64 key_b64 =
    if not (within_limits params)
    then none
    else base64url_decode salt_b64 and_then λ salt. base64url_decode key_b64 and_then λ key.
        some (record { params = params; salt = salt; key = key })

abbrev pub parse_fields : List Text → Option ParsedHash
parse_fields (salt ∷ key ∷ []) = parsed_fields (record { n = 16384; r = 8; p = 1 }) salt key
parse_fields (n ∷ r ∷ p ∷ salt ∷ key ∷ []) = parse_u32 n and_then λ n. parse_u32 r and_then λ r.
    parse_u32 p and_then λ p. parsed_fields (record { n = n; r = r; p = p }) salt key
parse_fields _ = none

unfoldable pub parse_scrypt_hash : Text → Option ParsedHash
unfolding within_limits
parse_scrypt_hash stored =
    if text_starts_with (codes "scrypt$") stored
    then parse_fields (split_onto b'$' [] (drop 7 stored))
    else none

pub data HashError : Type 0 where
  random : HashError
  scrypt_failed : ScryptError → HashError

-- the text of a hash
abbrev pub encoded : ScryptParams → Bytes → Bytes → Text
encoded s salt key =
    codes "scrypt$"
    ++ decimal s.n
    ++ b'$' ∷ decimal s.r
    ++ b'$' ∷ decimal s.p
    ++ b'$' ∷ base64url_encode salt
    ++ b'$' ∷ base64url_encode key

abbrev pub hash_with : Text → Bytes → Outcome HashError Text
hash_with password salt =
    elim (scrypt (utf8 password) salt scrypt_n scrypt_r scrypt_p scrypt_key_len) [
      | err e ↦ err (scrypt_failed e)
      | ok key ↦ ok (encoded current_params salt key)
    ]

unfoldable pub hash_password : Text → Random → Outcome HashError Text × Random
unfolding scrypt
hash_password password source =
    let (salt, rest) = random_bytes scrypt_salt_len source in
    (elim salt [ none ↦ err random | some s ↦ hash_with password s ], rest)

abbrev pub matches_key : Bytes → Outcome ScryptError Bytes → Bool
matches_key key (err e) = false
matches_key key (ok candidate) = ct_eq key candidate

abbrev pub verify_parsed : Text → Option ParsedHash → Bool
verify_parsed password none = false
verify_parsed password (some h) =
    matches_key h.key
      (scrypt (utf8 password) h.salt h.params.n h.params.r h.params.p scrypt_key_len)

unfoldable pub verify_password : (Text → Text → Bool) → Text → Text → Bool
unfolding parse_scrypt_hash scrypt ct_eq
verify_password bcrypt_verify password stored =
    if text_starts_with (codes "scrypt$") stored
    then verify_parsed password (parse_scrypt_hash stored)
    else if text_starts_with (codes "$2") stored
    then bcrypt_verify password stored
    else false

abbrev pub is_outdated : Option ParsedHash → Bool
is_outdated none = true
is_outdated (some parsed) = not (same_params parsed.params current_params)

unfoldable pub needs_rehash : Text → Bool
unfolding parse_scrypt_hash
needs_rehash stored = is_outdated (parse_scrypt_hash stored)

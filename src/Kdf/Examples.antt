-- ===== src/Kdf/Examples.antt =====
-- Published test vectors and concrete hashes of backend/src/kdf.rs.
use tldr_tv.Prelude.{◌≡◌, refl, arith, true, false, none, some, [], ◌∷◌}
use tldr_tv.Prelude.Text.{Text, Bytes, codes}
use tldr_tv.Prelude.Exec.{Outcome, ok, err}
use tldr_tv.Crypto.{hex_encode}
use tldr_tv.Crypto.Base64.{hex_decode, b64_decode_any, b64_groups}
use tldr_tv.Crypto.Sha256.{zeroed, hmac_sha256, sha256, update, finalize, compress, whole_blocks}
use tldr_tv.Kdf.Scrypt.{
  salsa20_8, le_words, le_bytes, iterate_prf, pbkdf2_blocks, pbkdf2_hmac_sha256, ScryptError,
  scrypt, block_mix, ro_mix,
}
use tldr_tv.Kdf.{
  ParsedHash, within_limits, parse_scrypt_hash, hash_password, verify_password, needs_rehash,
}
use tldr_tv.Kdf.RoundTrip.{verify_password-hash_password}

abbrev unhex : Text → Bytes
unhex s = elim (hex_decode s) [ none ↦ [] | some b ↦ b ]

abbrev key_text : Outcome ScryptError Bytes → Text
key_text (err e) = []
key_text (ok key) = hex_encode key

salsa_vector :
    hex_encode (
      le_bytes (
        salsa20_8 (
          le_words (
            unhex (
              codes
                "7e879a214f3ec9867ca940e641718f26baee555b8c61c1b50df846116dcd3b1dee24f319df9b3d8514121e4b5ac5aa3276021d2909c74829edebc68db8b8c25e")))))
    ≡ codes
        "a41f859c6608cc993b81cacb020cef05044b2181a2fd337dfd7b1c6396682f29b4393168e3c9e6bcfe6bc5b7a06d96bae424cc102c91745c24ad673dc7618f81"
unfolding salsa20_8 hex_decode
salsa_vector = refl

two_iterations :
    hex_encode (pbkdf2_hmac_sha256 (codes "password") (codes "salt") 2 32)
    ≡ codes "ae4d0c95af6b46d32d0adff928f06dd02a303f8ef3c251dfd6e2d85a95474c43"
unfolding pbkdf2_hmac_sha256 pbkdf2_blocks iterate_prf hmac_sha256 sha256 update finalize compress
    whole_blocks
two_iterations = refl

scrypt_vector :
    key_text (scrypt [] [] 16 1 1 64)
    ≡ codes
        "77d6576238657b203b19ca42c18a0497f16b4844e3074ae8dfdffa3fede21442fcd0069ded0948f8326a753a0fc81f17e8d3e0fb2e0d3628cf35e20c38d18906"
unfolding scrypt ro_mix block_mix salsa20_8 pbkdf2_hmac_sha256 pbkdf2_blocks iterate_prf hmac_sha256
    sha256 update finalize compress whole_blocks
scrypt_vector = refl

foreign : verify_password (λ password stored. true) (codes "secret") (codes "md5$abc") ≡ false
unfolding verify_password
foreign = refl

-- a hash of the older form, without parameters
abbrev legacy : Text
legacy = codes "scrypt$AAECAw$BAUG"

abbrev legacy_hash : ParsedHash
legacy_hash = record {
  params = record { n = 16384; r = 8; p = 1 };
  salt = 0 ∷ 1 ∷ 2 ∷ 3 ∷ [];
  key = 4 ∷ 5 ∷ 6 ∷ [];
}

costly : parse_scrypt_hash (codes "scrypt$1048576$8$1$AAECAw$BAUG") ≡ none
unfolding parse_scrypt_hash within_limits b64_decode_any b64_groups
costly = refl

verify_password-hash_password_example :
    (stored : Text) × (hash_password (codes "secret") (some (zeroed 20) ∷ []) ≡ (ok stored, []))
    × (verify_password (λ password stored. false) (codes "secret") stored ≡ true)
    × (needs_rehash stored ≡ false)
verify_password-hash_password_example =
    verify_password-hash_password (λ password stored. false) (codes "secret") (zeroed 20) []
      (omega arith) (ground arith)

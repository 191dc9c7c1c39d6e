-- ===== src/Crypto/Examples.antt =====
-- Concrete inputs of the codecs and hashes of backend/src/crypto.rs.
use tldr_tv.Prelude.{◌≡◌, arith, some, [], ◌∷◌, ◌++◌}
use tldr_tv.Prelude.Text.{joined, Bytes, codes}
use tldr_tv.Crypto.Base64.{base64url_encode, base64url_decode}
use tldr_tv.Crypto.Base64.RoundTrip.{base64url_decode-base64url_encode}
use tldr_tv.Crypto.Sha256.{new, finalize, zeroed, hmac_sha256, xor_all}
use tldr_tv.Crypto.Sha256.Stream.{digest, feed, finalize-feed}
use tldr_tv.Crypto.Sha256.Hmac.{rfc2104_key, hmac_sha256-digest}

abbrev bytes : Bytes
bytes = 0 ∷ 255 ∷ 16 ∷ 128 ∷ []

base64url_decode-base64url_encode_example : base64url_decode (base64url_encode bytes) ≡ some bytes
base64url_decode-base64url_encode_example =
    base64url_decode-base64url_encode bytes
      (omega arith, (omega arith, (omega arith, (omega arith, tt))))

finalize-feed_example :
    finalize (feed new (codes "ab" ∷ [] ∷ zeroed 70 ∷ []))
    ≡ digest (joined (codes "ab" ∷ [] ∷ zeroed 70 ∷ []))
finalize-feed_example = finalize-feed (codes "ab" ∷ [] ∷ zeroed 70 ∷ [])

hmac_sha256-digest_example :
    hmac_sha256 (zeroed 80) (codes "msg")
    ≡ digest (
        xor_all 0x5c (rfc2104_key (zeroed 80))
        ++ digest (xor_all 0x36 (rfc2104_key (zeroed 80)) ++ codes "msg"))
hmac_sha256-digest_example = hmac_sha256-digest (zeroed 80) (codes "msg")

-- ===== src/Crypto/Tests.antt =====
-- Published test vectors at the codecs and hashes of backend/src/crypto.rs.
use tldr_tv.Prelude.{◌≡◌, refl, some}
use tldr_tv.Prelude.Text.{codes}
use tldr_tv.Crypto.{hex_encode}
use tldr_tv.Crypto.Base64.{
  hex_decode, b64_encode_with, b64_decode_any, base64_encode, base64url_decode,
}
use tldr_tv.Crypto.Sha256.{sha256, compress}

padded_base64 : base64_encode (codes "foob") ≡ codes "Zm9vYg=="
unfolding b64_encode_with
padded_base64 = refl

url_decoded : base64url_decode (codes "Zm9vYmE") ≡ some (codes "fooba")
unfolding b64_decode_any
url_decoded = refl

hex_decoded : hex_decode (codes "00fF") ≡ some (codes "\0ÿ")
unfolding hex_decode
hex_decoded = refl

abc :
    hex_encode (sha256 (codes "abc"))
    ≡ codes "ba7816bf8f01cfea414140de5dae2223b00361a396177a9cb410ff61f20015ad"
unfolding sha256 compress
abc = refl

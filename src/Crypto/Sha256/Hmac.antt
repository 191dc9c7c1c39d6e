-- ===== src/Crypto/Sha256/Hmac.antt =====
-- HMAC-SHA-256 of backend/src/crypto.rs against RFC 2104.
use tldr_tv.Prelude.{◌-◌, ◌≡◌, ◌∙◌, ap, [], ◌∷◌, ◌++◌, append-nil, length, ltb, if◌then◌else◌}
use tldr_tv.Prelude.Text.{Bytes}
use tldr_tv.Crypto.Sha256.{
  sha256_block_len, new, update, finalize, sha256, block_key, xor_all, zeroed, hmac_sha256,
}
use tldr_tv.Crypto.Sha256.Stream.{digest, finalize-feed}

-- The key of RFC 2104: hashed where it is longer than a block, and filled up with zeros.
abbrev pub rfc2104_key : Bytes → Bytes
rfc2104_key key =
    let k = if ltb sha256_block_len (length key) then digest key else key in
    k ++ zeroed (sha256_block_len - length k)

sha256-digest : (m : Bytes) → sha256 m ≡ digest m
unfolding sha256
sha256-digest m = finalize-feed (m ∷ []) ∙ ap digest (append-nil m)

two-digest : (a b : Bytes) → finalize (update (update new a) b) ≡ digest (a ++ b)
two-digest a b = finalize-feed (a ∷ b ∷ []) ∙ ap (λ t. digest (a ++ t)) (append-nil b)

block_key-rfc2104_key : (key : Bytes) → block_key key ≡ rfc2104_key key
block_key-rfc2104_key key =
    ap
      (λ d.
        let k = if ltb sha256_block_len (length key) then d else key in
        k ++ zeroed (sha256_block_len - length k))
      (sha256-digest key)

-- The streaming HMAC of any key and message is that of RFC 2104 on whole messages.
pub hmac_sha256-digest :
    (key msg : Bytes)
    → hmac_sha256 key msg
      ≡ digest (xor_all 0x5c (rfc2104_key key) ++ digest (xor_all 0x36 (rfc2104_key key) ++ msg))
unfolding hmac_sha256
hmac_sha256-digest key msg =
    let k = block_key key in
    two-digest (xor_all 0x5c k) (finalize (update (update new (xor_all 0x36 k)) msg))
    ∙ ap (λ d. digest (xor_all 0x5c k ++ d)) (two-digest (xor_all 0x36 k) msg)
    ∙ ap (λ k. digest (xor_all 0x5c k ++ digest (xor_all 0x36 k ++ msg)))
        (block_key-rfc2104_key key)

-- ===== src/Crypto/Sha256/Lengths.antt =====
-- The lengths of digests and tags of backend/src/crypto.rs.
use tldr_tv.Prelude.{
  ℕ, zero, suc, ◌*◌, ◌≡◌, ◌∙◌, refl, ap, inl, inr, [], ◌∷◌, arith, length, Bool-cases, ltb, take,
  drop,
}
use tldr_tv.Prelude.Text.{Bytes}
use tldr_tv.Crypto.Sha256.{
  Words, round, rounds, add_words, compress, whole_blocks, be_bytes32, be_words, schedule, k256,
  h256_init, finalize, hmac_sha256, block_key, xor_all, new, update,
}
use tldr_tv.Crypto.Sha256.Stream.{digest, padded, finalize-feed}

length-round : (k w : ℕ) (s : Words) → length (round k w s) ≡ length s
length-round k w [] = refl
length-round k w (a ∷ []) = refl
length-round k w (a ∷ b ∷ []) = refl
length-round k w (a ∷ b ∷ c ∷ []) = refl
length-round k w (a ∷ b ∷ c ∷ d ∷ []) = refl
length-round k w (a ∷ b ∷ c ∷ d ∷ e ∷ []) = refl
length-round k w (a ∷ b ∷ c ∷ d ∷ e ∷ f ∷ []) = refl
length-round k w (a ∷ b ∷ c ∷ d ∷ e ∷ f ∷ g ∷ []) = refl
length-round k w (a ∷ b ∷ c ∷ d ∷ e ∷ f ∷ g ∷ h ∷ []) = refl
length-round k w (a ∷ b ∷ c ∷ d ∷ e ∷ f ∷ g ∷ h ∷ i ∷ s) = refl

length-rounds : (ks ws s : Words) → length (rounds ks ws s) ≡ length s
length-rounds [] ws s = refl
length-rounds (k ∷ ks) [] s = refl
length-rounds (k ∷ ks) (w ∷ ws) s = length-rounds ks ws (round k w s) ∙ length-round k w s

length-add_words : (xs ys : Words) → length ys ≡ length xs → length (add_words xs ys) ≡ length xs
length-add_words [] ys h = refl
length-add_words (x ∷ xs) [] h = absurd (omega arith)
length-add_words (x ∷ xs) (y ∷ ys) h = ap suc (length-add_words xs ys (omega arith))

length-compress : (s : Words) (block : Bytes) → length (compress s block) ≡ length s
unfolding compress
length-compress s block =
    let mixed = rounds k256 (schedule 48 16 (be_words block)) s in
    length-add_words s mixed (length-rounds k256 (schedule 48 16 (be_words block)) s)

length-whole_blocks : (f : ℕ) (s : Words) (m : Bytes) → length (whole_blocks f s m).0 ≡ length s
unfolding whole_blocks
length-whole_blocks zero s m = refl
length-whole_blocks (suc f) s m = elim (Bool-cases (ltb (length m) 64)) [
  | inl e ↦ rw e refl
  | inr e ↦
      rw e
        (length-whole_blocks f (compress s (take 64 m)) (drop 64 m) ∙ length-compress s (take 64 m))
]

length-be_bytes32 : (s : Words) → length (be_bytes32 s) ≡ 4 * length s
length-be_bytes32 [] = refl
length-be_bytes32 (x ∷ s) = omega (arith, length-be_bytes32 s)

length-digest : (m : Bytes) → length (digest m) ≡ 32
unfolding digest
length-digest m =
    let blocks = whole_blocks (length (padded m)) h256_init (padded m) in
    omega (
      arith,
      length-be_bytes32 blocks.0,
      length-whole_blocks (length (padded m)) h256_init (padded m),
    )

-- An HMAC tag has 32 bytes, for every key and message.
pub length-hmac_sha256 : (key msg : Bytes) → length (hmac_sha256 key msg) ≡ 32
unfolding hmac_sha256
length-hmac_sha256 key msg =
    let k = block_key key in
    let inner = finalize (update (update new (xor_all 0x36 k)) msg) in
    let outer = xor_all 0x5c k ∷ inner ∷ [] in ap length (finalize-feed outer) ∙ length-digest _

-- ===== src/Kdf/Keys.antt =====
-- The length and the bytes of the keys that backend/src/kdf.rs derives.
use tldr_tv.Prelude.{
  ℕ, zero, suc, ◌+◌, ◌-◌, ◌≤◌, ◌<◌, ◌≡◌, ◌∙◌, refl, ap, min, max, List, [], ◌∷◌, ◌++◌, arith,
  either, ltb, ltb→lt, ltb_false→le, length, length-append, take, All, All-append,
}
use tldr_tv.Prelude.Text.{Bytes}
use tldr_tv.Crypto.Base64.RoundTrip.{IsByte}
use tldr_tv.Crypto.Sha256.{Words, be_bytes32, finalize, hmac_sha256}
use tldr_tv.Crypto.Sha256.Blocks.{length-take}
use tldr_tv.Crypto.Sha256.Lengths.{length-hmac_sha256}
use tldr_tv.Kdf.Scrypt.{xor_bytes, iterate_prf, pbkdf2_block, pbkdf2_blocks, pbkdf2_hmac_sha256}

length-xor_bytes : (xs ys : List ℕ) → length (xor_bytes xs ys) ≡ length xs
length-xor_bytes [] ys = refl
length-xor_bytes (a ∷ xs) [] = refl
length-xor_bytes (a ∷ xs) (b ∷ ys) = ap suc (length-xor_bytes xs ys)

length-iterate_prf : (n : ℕ) (password u t : Bytes) → length (iterate_prf n password u t) ≡ length t
unfolding iterate_prf
length-iterate_prf zero password u t = refl
length-iterate_prf (suc n) password u t =
    let next = hmac_sha256 password u in
    length-iterate_prf n password next (xor_bytes t next) ∙ length-xor_bytes t next

length-pbkdf2_block :
    (password salt : Bytes) (iterations i : ℕ)
    → length (pbkdf2_block password salt iterations i) ≡ 32
length-pbkdf2_block password salt iterations i =
    let u = hmac_sha256 password (salt ++ be_bytes32 (i ∷ [])) in
    length-iterate_prf (iterations - 1) password u u
    ∙ length-hmac_sha256 password (salt ++ be_bytes32 (i ∷ []))

grown :
    (out t : Bytes) (dk_len : ℕ)
    → length t ≡ 32
    → length out < dk_len
    → let out' = out ++ take (min (dk_len - length out) (length t)) t in
      (length out' ≤ dk_len) × (length out < length out')
grown out t dk_len size short =
    let n = min (dk_len - length out) (length t) in
    let added = length-append out (take n t) in
    let taken = length-take n t in
    (omega (arith, added, taken, size), omega (arith, added, taken, size))

-- What holds of the key if it is long enough, and of the rest of the loop if it is not, holds of
-- the loop.
pbkdf2_blocks_cases :
    (P : Bytes → Type 0) (fuel : ℕ) (password salt : Bytes) (iterations dk_len i : ℕ) (out : Bytes)
    → (dk_len ≤ length out → P out)
    → (length out < dk_len
        → let t = pbkdf2_block password salt iterations i in
          P (
            pbkdf2_blocks fuel password salt iterations dk_len
              (i + 1)
              (out ++ take (min (dk_len - length out) (length t)) t)))
    → P (pbkdf2_blocks (suc fuel) password salt iterations dk_len i out)
unfolding pbkdf2_blocks
pbkdf2_blocks_cases P fuel password salt iterations dk_len i out done more =
    let t = pbkdf2_block password salt iterations i in
    either P (ltb (length out) dk_len) out
      (pbkdf2_blocks fuel password salt iterations dk_len (i + 1)
        (out ++ take (min (dk_len - length out) (length t)) t))
      (λ e. done (ltb_false→le (length out) dk_len e)) (λ e. more (ltb→lt (length out) dk_len e))

length-pbkdf2_blocks :
    (fuel : ℕ) (password salt : Bytes) (iterations dk_len i : ℕ) (out : Bytes)
    → length out ≤ dk_len
    → dk_len ≤ length out + fuel
    → length (pbkdf2_blocks fuel password salt iterations dk_len i out) ≡ dk_len
unfolding pbkdf2_blocks
length-pbkdf2_blocks zero password salt iterations dk_len i out le enough = omega arith
length-pbkdf2_blocks (suc fuel) password salt iterations dk_len i out le enough =
    let t = pbkdf2_block password salt iterations i in
    pbkdf2_blocks_cases (λ key. length key ≡ dk_len) fuel password salt iterations dk_len i out
      (λ long. omega arith)
      (λ short.
        let (most, more) =
          grown out t dk_len (length-pbkdf2_block password salt iterations i) short in
        length-pbkdf2_blocks fuel password salt iterations dk_len (i + 1)
          (out ++ take (min (dk_len - length out) (length t)) t) most (omega arith))

-- A derived key is exactly as long as it was asked for.
pub length-pbkdf2_hmac_sha256 :
    (password salt : Bytes) (iterations dk_len : ℕ)
    → length (pbkdf2_hmac_sha256 password salt iterations dk_len) ≡ dk_len
unfolding pbkdf2_hmac_sha256
length-pbkdf2_hmac_sha256 password salt iterations dk_len =
    length-pbkdf2_blocks dk_len password salt (max iterations 1) dk_len 1 [] (omega arith)
      (omega arith)

be_bytes32-IsByte : (s : Words) → All IsByte (be_bytes32 s)
be_bytes32-IsByte [] = tt
be_bytes32-IsByte (x ∷ s) =
    (omega arith, (omega arith, (omega arith, (omega arith, be_bytes32-IsByte s))))

hmac_sha256-IsByte : (key msg : Bytes) → All IsByte (hmac_sha256 key msg)
unfolding hmac_sha256 finalize
hmac_sha256-IsByte key msg = be_bytes32-IsByte _

take-All : {A : Type 0} (P : A → Type 0) (n : ℕ) (xs : List A) → All P xs → All P (take n xs)
take-All P zero xs h = tt
take-All P (suc n) [] h = tt
take-All P (suc n) (x ∷ xs) (p, h) = (p, take-All P n xs h)

pbkdf2_blocks-IsByte :
    (fuel : ℕ) (password salt : Bytes) (dk_len i : ℕ) (out : Bytes)
    → All IsByte out
    → All IsByte (pbkdf2_blocks fuel password salt 1 dk_len i out)
unfolding pbkdf2_blocks iterate_prf
pbkdf2_blocks-IsByte zero password salt dk_len i out h = h
pbkdf2_blocks-IsByte (suc fuel) password salt dk_len i out h =
    let t = hmac_sha256 password (salt ++ be_bytes32 (i ∷ [])) in
    let n = min (dk_len - length out) (length t) in
    pbkdf2_blocks_cases (All IsByte) fuel password salt 1 dk_len i out (λ long. h)
      (λ short. pbkdf2_blocks-IsByte fuel password salt dk_len (i + 1) (out ++ take n t) (
        All-append IsByte out (take n t) h
          (take-All IsByte n t (hmac_sha256-IsByte password (salt ++ be_bytes32 (i ∷ []))))))

pub pbkdf2_hmac_sha256-IsByte :
    (password salt : Bytes) (dk_len : ℕ) → All IsByte (pbkdf2_hmac_sha256 password salt 1 dk_len)
unfolding pbkdf2_hmac_sha256
pbkdf2_hmac_sha256-IsByte password salt dk_len =
    pbkdf2_blocks-IsByte dk_len password salt dk_len 1 [] tt

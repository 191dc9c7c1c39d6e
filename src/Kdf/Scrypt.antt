-- ===== src/Kdf/Scrypt.antt =====
-- PBKDF2 and scrypt of backend/src/kdf.rs. A `u32` is a number below `2 ^ 32`, and `usize` has 64
-- bits; the buffer `v` of `ro_mix` is the list of its blocks.
use mathlib.Core.Option
use tldr_tv.Prelude.{
  ℕ, zero, suc, ◌+◌, ◌-◌, ◌*◌, ◌/◌, ◌%◌, ◌^◌, bit_and, bit_xor, min, max, Bool, true, false, not,
  ◌||◌, Option, none, some, List, [], ◌∷◌, ◌++◌, ltb, nat_beq, length, get_elem?, set, take, drop,
  if◌then◌else◌, ◌and_then◌,
}
use tldr_tv.Prelude.Text.{Bytes}
use tldr_tv.Prelude.Exec.{Outcome, ok, err}
use tldr_tv.Crypto.Sha256.{Words, word_at, add32, be_bytes32, hmac_sha256}

-- `*acc ^= *byte` over both, which ends with the shorter one
abbrev pub xor_bytes : List ℕ → List ℕ → List ℕ
xor_bytes (a ∷ xs) (b ∷ ys) = bit_xor a b ∷ xor_bytes xs ys
xor_bytes xs _ = xs

-- the loop over the iterations behind the first
unfoldable pub iterate_prf : ℕ → Bytes → Bytes → Bytes → Bytes
iterate_prf zero password u t = t
iterate_prf (suc left) password u t =
    let next = hmac_sha256 password u in iterate_prf left password next (xor_bytes t next)

abbrev pub pbkdf2_block : Bytes → Bytes → ℕ → ℕ → Bytes
pbkdf2_block password salt iterations block_index =
    let u = hmac_sha256 password (salt ++ be_bytes32 (block_index ∷ [])) in
    iterate_prf (iterations - 1) password u u

-- The loop of `pbkdf2_hmac_sha256`. Each round adds at least one byte.
unfoldable pub pbkdf2_blocks : ℕ → Bytes → Bytes → ℕ → ℕ → ℕ → Bytes → Bytes
unfolding iterate_prf
pbkdf2_blocks zero password salt iterations dk_len block_index out = out
pbkdf2_blocks (suc fuel) password salt iterations dk_len block_index out =
    elim (ltb (length out) dk_len) [
      | false ↦ out
      | true ↦
          let t = pbkdf2_block password salt iterations block_index in
          pbkdf2_blocks fuel password salt iterations dk_len (block_index + 1)
            (out ++ take (min (dk_len - length out) (length t)) t)
    ]

unfoldable pub pbkdf2_hmac_sha256 : Bytes → Bytes → ℕ → ℕ → Bytes
unfolding pbkdf2_blocks
pbkdf2_hmac_sha256 password salt iterations dk_len =
    pbkdf2_blocks dk_len password salt (max iterations 1) dk_len 1 []

pub data ScryptError : Type 0 where
  invalid_n invalid_block_or_parallelism invalid_key_length overflow : ScryptError

abbrev pub rotate_left : ℕ → ℕ → ℕ
rotate_left x n = x * 2 ^ n % 2 ^ 32 + x / 2 ^ (32 - n)

-- `t[i] ^= t[j].wrapping_add(t[k]).rotate_left(n)`
abbrev pub mix_word : Words → ℕ × ℕ × ℕ × ℕ → Words
mix_word t (i, j, k, n) =
    set t i (bit_xor (word_at t i) (rotate_left (add32 (word_at t j) (word_at t k)) n))

abbrev pub column_round : List (ℕ × ℕ × ℕ × ℕ)
column_round =
    (4, 0, 12, 7)
    ∷ (8, 4, 0, 9)
    ∷ (12, 8, 4, 13)
    ∷ (0, 12, 8, 18)
    ∷ (9, 5, 1, 7)
    ∷ (13, 9, 5, 9)
    ∷ (1, 13, 9, 13)
    ∷ (5, 1, 13, 18)
    ∷ (14, 10, 6, 7)
    ∷ (2, 14, 10, 9)
    ∷ (6, 2, 14, 13)
    ∷ (10, 6, 2, 18)
    ∷ (3, 15, 11, 7)
    ∷ (7, 3, 15, 9)
    ∷ (11, 7, 3, 13)
    ∷ (15, 11, 7, 18)
    ∷ []

abbrev pub row_round : List (ℕ × ℕ × ℕ × ℕ)
row_round =
    (1, 0, 3, 7)
    ∷ (2, 1, 0, 9)
    ∷ (3, 2, 1, 13)
    ∷ (0, 3, 2, 18)
    ∷ (6, 5, 4, 7)
    ∷ (7, 6, 5, 9)
    ∷ (4, 7, 6, 13)
    ∷ (5, 4, 7, 18)
    ∷ (11, 10, 9, 7)
    ∷ (8, 11, 10, 9)
    ∷ (9, 8, 11, 13)
    ∷ (10, 9, 8, 18)
    ∷ (12, 15, 14, 7)
    ∷ (13, 12, 15, 9)
    ∷ (14, 13, 12, 13)
    ∷ (15, 14, 13, 18)
    ∷ []

abbrev pub mix_words : Words → List (ℕ × ℕ × ℕ × ℕ) → Words
mix_words t [] = t
mix_words t (m ∷ ms) = mix_words (mix_word t m) ms

abbrev pub double_rounds : ℕ → Words → Words
double_rounds zero t = t
double_rounds (suc n) t = double_rounds n (mix_words (mix_words t column_round) row_round)

abbrev pub add_each : Words → Words → Words
add_each (x ∷ xs) (y ∷ ys) = add32 x y ∷ add_each xs ys
add_each _ _ = []

unfoldable pub salsa20_8 : Words → Words
salsa20_8 x = add_each x (double_rounds 4 x)

-- The loop of `block_mix` from block i on: the even and the odd results.
abbrev pub mix_blocks : ℕ → ℕ → Words → Words → Words × Words
mix_blocks zero i x input = ([], [])
mix_blocks (suc left) i x input =
    let y = salsa20_8 (xor_bytes x (take 16 (drop (i * 16) input))) in
    let (evens, odds) = mix_blocks left (i + 1) y input in
    if nat_beq (i % 2) 0 then (y ++ evens, odds) else (evens, y ++ odds)

unfoldable pub block_mix : Words → ℕ → Words
unfolding salsa20_8
block_mix input r =
    let (evens, odds) = mix_blocks (2 * r) 0 (take 16 (drop ((2 * r - 1) * 16) input)) input in
    evens ++ odds

-- the first loop of `ro_mix`: the blocks written to `v`, and `b`
abbrev pub fill : ℕ → ℕ → Words → List Words → List Words × Words
fill zero r b v = (v, b)
fill (suc left) r b v = fill left r (block_mix b r) (v ++ b ∷ [])

-- the second loop
abbrev pub look_back : ℕ → ℕ → ℕ → Words → List Words → Words
look_back zero n r b v = b
look_back (suc left) n r b v =
    let j = bit_and (word_at b (32 * r - 16)) (n - 1) in
    look_back left n r (block_mix (xor_bytes b (Option.get_or (get_elem? v j) [])) r) v

unfoldable pub ro_mix : Words → ℕ → ℕ → Words
unfolding block_mix
ro_mix b n r = let (v, c) = fill n r b [] in look_back n n r c v

-- `n.is_power_of_two()`, by the exponents below `bits`
abbrev pub is_power_below : ℕ → ℕ → Bool
is_power_below zero n = false
is_power_below (suc bits) n = nat_beq n (2 ^ bits) || is_power_below bits n

abbrev pub is_power_of_two : ℕ → Bool
is_power_of_two n = is_power_below 32 n

abbrev pub checked_mul : ℕ → ℕ → Option ℕ
checked_mul a b = let c = a * b in if ltb c (2 ^ 64) then some c else none

-- the sizes of `b` in words and bytes, if no size overflows
abbrev pub sizes : ℕ → ℕ → ℕ → Option (ℕ × ℕ)
sizes n r p = checked_mul 32 r and_then λ block_words. checked_mul block_words p and_then λ b_words.
    checked_mul block_words n and_then λ v_words. checked_mul b_words 4 and_then λ b_bytes.
    checked_mul v_words 4 and_then λ v_bytes. some (block_words, b_bytes)

-- `u32::from_le_bytes` over `chunks_exact(4)`
abbrev pub le_words : Bytes → Words
le_words (a ∷ b ∷ c ∷ d ∷ rest) = (a + b * 2 ^ 8 + c * 2 ^ 16 + d * 2 ^ 24) ∷ le_words rest
le_words _ = []

abbrev pub le_bytes : Words → Bytes
le_bytes [] = []
le_bytes (x ∷ xs) = x % 256 ∷ x / 2 ^ 8 % 256 ∷ x / 2 ^ 16 % 256 ∷ x / 2 ^ 24 % 256 ∷ le_bytes xs

-- `ro_mix` on each of the p slices
abbrev pub mix_slices : ℕ → ℕ → ℕ → ℕ → Words → Words
mix_slices zero block_words n r b = []
mix_slices (suc p) block_words n r b =
    ro_mix (take block_words b) n r ++ mix_slices p block_words n r (drop block_words b)

abbrev pub derive : Bytes → Bytes → ℕ → ℕ → ℕ → ℕ → ℕ → ℕ → Bytes
derive password salt n r p dk_len block_words b_bytes =
    let b = le_words (pbkdf2_hmac_sha256 password salt 1 b_bytes) in
    pbkdf2_hmac_sha256 password (le_bytes (mix_slices p block_words n r b)) 1 dk_len

unfoldable pub scrypt : Bytes → Bytes → ℕ → ℕ → ℕ → ℕ → Outcome ScryptError Bytes
unfolding pbkdf2_hmac_sha256 ro_mix
scrypt password salt n r p dk_len =
    if ltb n 2 || not (is_power_of_two n)
    then err invalid_n
    else if nat_beq r 0 || nat_beq p 0
    then err invalid_block_or_parallelism
    else if nat_beq dk_len 0
    then err invalid_key_length
    else elim (sizes n r p) [
      | none ↦ err overflow
      | some (block_words, b_bytes) ↦ ok (derive password salt n r p dk_len block_words b_bytes)
    ]

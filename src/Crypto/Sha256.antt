-- ===== src/Crypto/Sha256.antt =====
-- SHA-256 and HMAC-SHA-256 of backend/src/crypto.rs. A `u32` is a number below `2 ^ 32`; arrays are
-- lists of their length.
pub mod Blocks
pub mod Buffer
pub mod Stream
pub mod Lengths
pub mod Hmac
use mathlib.Core.Option
use tldr_tv.Prelude.{
  ℕ, zero, suc, ◌+◌, ◌-◌, ◌*◌, ◌/◌, ◌%◌, ◌^◌, bit_and, bit_xor, min, Bool, true, false, Option,
  List, [], ◌∷◌, ◌++◌, map, ltb, leb, nat_beq, length, get_elem?, take, drop, is_nil, if◌then◌else◌,
}
use tldr_tv.Prelude.Text.{Bytes}

abbrev pub Words : Type 0
Words = List ℕ

abbrev pub k256 : Words
k256 =
    0x428a2f98 ∷ 0x71374491 ∷ 0xb5c0fbcf ∷ 0xe9b5dba5 ∷ 0x3956c25b ∷ 0x59f111f1 ∷ 0x923f82a4
    ∷ 0xab1c5ed5 ∷ 0xd807aa98 ∷ 0x12835b01 ∷ 0x243185be ∷ 0x550c7dc3 ∷ 0x72be5d74 ∷ 0x80deb1fe
    ∷ 0x9bdc06a7 ∷ 0xc19bf174 ∷ 0xe49b69c1 ∷ 0xefbe4786 ∷ 0x0fc19dc6 ∷ 0x240ca1cc ∷ 0x2de92c6f
    ∷ 0x4a7484aa ∷ 0x5cb0a9dc ∷ 0x76f988da ∷ 0x983e5152 ∷ 0xa831c66d ∷ 0xb00327c8 ∷ 0xbf597fc7
    ∷ 0xc6e00bf3 ∷ 0xd5a79147 ∷ 0x06ca6351 ∷ 0x14292967 ∷ 0x27b70a85 ∷ 0x2e1b2138 ∷ 0x4d2c6dfc
    ∷ 0x53380d13 ∷ 0x650a7354 ∷ 0x766a0abb ∷ 0x81c2c92e ∷ 0x92722c85 ∷ 0xa2bfe8a1 ∷ 0xa81a664b
    ∷ 0xc24b8b70 ∷ 0xc76c51a3 ∷ 0xd192e819 ∷ 0xd6990624 ∷ 0xf40e3585 ∷ 0x106aa070 ∷ 0x19a4c116
    ∷ 0x1e376c08 ∷ 0x2748774c ∷ 0x34b0bcb5 ∷ 0x391c0cb3 ∷ 0x4ed8aa4a ∷ 0x5b9cca4f ∷ 0x682e6ff3
    ∷ 0x748f82ee ∷ 0x78a5636f ∷ 0x84c87814 ∷ 0x8cc70208 ∷ 0x90befffa ∷ 0xa4506ceb ∷ 0xbef9a3f7
    ∷ 0xc67178f2 ∷ []

abbrev pub h256_init : Words
h256_init =
    0x6a09e667 ∷ 0xbb67ae85 ∷ 0x3c6ef372 ∷ 0xa54ff53a ∷ 0x510e527f ∷ 0x9b05688c ∷ 0x1f83d9ab
    ∷ 0x5be0cd19 ∷ []

abbrev pub sha256_block_len : ℕ
sha256_block_len = 64

abbrev pub sha256_digest_len : ℕ
sha256_digest_len = 32

pub record Sha256 : Type 0 where
  pub state : Words
  pub buf : Bytes
  pub buf_len : ℕ
  pub total_len : ℕ

-- `[0u8; n]`
abbrev pub zeroed : ℕ → Bytes
zeroed zero = []
zeroed (suc n) = 0 ∷ zeroed n

abbrev pub word_at : Words → ℕ → ℕ
word_at w i = Option.get_or (get_elem? w i) 0

-- `wrapping_add`
abbrev pub add32 : ℕ → ℕ → ℕ
add32 a b = (a + b) % 2 ^ 32

-- `rotate_right`: the two shifted parts share no bit
abbrev pub rotate_right : ℕ → ℕ → ℕ
rotate_right x n = x / 2 ^ n + x * 2 ^ (32 - n) % 2 ^ 32

abbrev pub xor3 : ℕ → ℕ → ℕ → ℕ
xor3 a b c = bit_xor (bit_xor a b) c

-- `u32::from_be_bytes` of the bytes of a block, four at a time
abbrev pub be_words : Bytes → Words
be_words (a ∷ b ∷ c ∷ d ∷ rest) = (a * 2 ^ 24 + b * 2 ^ 16 + c * 2 ^ 8 + d) ∷ be_words rest
be_words _ = []

-- the rounds of the message schedule, from `i` on
abbrev pub schedule : ℕ → ℕ → Words → Words
schedule zero i w = w
schedule (suc n) i w =
    let x = word_at w (i - 15) in
    let y = word_at w (i - 2) in
    let s0 = xor3 (rotate_right x 7) (rotate_right x 18) (x / 2 ^ 3) in
    let s1 = xor3 (rotate_right y 17) (rotate_right y 19) (y / 2 ^ 10) in
    let next = add32 (add32 (add32 (word_at w (i - 16)) s0) (word_at w (i - 7))) s1 in
    schedule n (suc i) (w ++ next ∷ [])

abbrev pub not32 : ℕ → ℕ
not32 e = 2 ^ 32 - 1 - e

-- one round on the eight working words
abbrev pub round : ℕ → ℕ → Words → Words
round k w (a ∷ b ∷ c ∷ d ∷ e ∷ f ∷ g ∷ h ∷ []) =
    let s1 = xor3 (rotate_right e 6) (rotate_right e 11) (rotate_right e 25) in
    let ch = bit_xor (bit_and e f) (bit_and (not32 e) g) in
    let t1 = add32 (add32 (add32 (add32 h s1) ch) k) w in
    let s0 = xor3 (rotate_right a 2) (rotate_right a 13) (rotate_right a 22) in
    let maj = xor3 (bit_and a b) (bit_and a c) (bit_and b c) in
    let t2 = add32 s0 maj in add32 t1 t2 ∷ a ∷ b ∷ c ∷ add32 d t1 ∷ e ∷ f ∷ g ∷ []
round k w words = words

abbrev pub rounds : Words → Words → Words → Words
rounds (k ∷ ks) (w ∷ ws) words = rounds ks ws (round k w words)
rounds _ _ words = words

abbrev pub add_words : Words → Words → Words
add_words (x ∷ xs) (y ∷ ys) = add32 x y ∷ add_words xs ys
add_words _ _ = []

unfoldable pub compress : Words → Bytes → Words
compress state block = add_words state (rounds k256 (schedule 48 16 (be_words block)) state)

abbrev pub new : Sha256
new = record { state = h256_init; buf = zeroed sha256_block_len; buf_len = 0; total_len = 0 }

-- `buf[from..from + bytes.len()].copy_from_slice(bytes)`
abbrev pub write_at : Bytes → ℕ → Bytes → Bytes
write_at buf from bytes = take from buf ++ bytes ++ drop (from + length bytes) buf

-- The loop over whole blocks: the state and what is left. Each round takes 64 bytes.
unfoldable pub whole_blocks : ℕ → Words → Bytes → Words × Bytes
whole_blocks zero state rest = (state, rest)
whole_blocks (suc fuel) state rest =
    let more = whole_blocks fuel (compress state (take 64 rest)) (drop 64 rest) in
    if ltb (length rest) 64 then (state, rest) else more

-- the end of `update`: what is left becomes the partial block
abbrev pub keep_rest : Sha256 → Words × Bytes → Sha256
keep_rest h (state, rest) =
    if is_nil rest
    then record { state = state; buf = h.buf; buf_len = h.buf_len; total_len = h.total_len }
    else record {
      state = state;
      buf = write_at h.buf 0 rest;
      buf_len = length rest;
      total_len = h.total_len;
    }

abbrev pub absorb : Sha256 → Bytes → Sha256
absorb h rest = keep_rest h (whole_blocks (length rest) h.state rest)

-- Top up a partial block with `n` bytes. A full block is compressed.
abbrev pub topped : Sha256 → Bytes → ℕ → Sha256 × Bytes
topped h rest n =
    let buf = write_at h.buf h.buf_len (take n rest) in
    let buf_len = h.buf_len + n in
    if nat_beq buf_len sha256_block_len
    then (
      record { state = compress h.state buf; buf = buf; buf_len = 0; total_len = h.total_len },
      drop n rest,
    )
    else (
      record { state = h.state; buf = buf; buf_len = buf_len; total_len = h.total_len },
      drop n rest,
    )

abbrev pub top_up : Sha256 → Bytes → Sha256 × Bytes
top_up h rest = topped h rest (min (length rest) (sha256_block_len - h.buf_len))

-- `total_len.wrapping_add(data.len())`
abbrev pub count_bytes : Sha256 → Bytes → Sha256
count_bytes h bytes = record {
  state = h.state;
  buf = h.buf;
  buf_len = h.buf_len;
  total_len = (h.total_len + length bytes) % 2 ^ 64;
}

abbrev pub update_counted : Sha256 → Bytes → Sha256
update_counted h bytes =
    let (h', rest) = top_up h bytes in if ltb 0 h.buf_len then absorb h' rest else absorb h bytes

unfoldable pub update : Sha256 → Bytes → Sha256
unfolding whole_blocks
update h bytes = update_counted (count_bytes h bytes) bytes

-- `u64::to_be_bytes`
abbrev pub be_bytes64 : ℕ → Bytes
be_bytes64 n =
    n / 2 ^ 56 % 256
    ∷ n / 2 ^ 48 % 256
    ∷ n / 2 ^ 40 % 256
    ∷ n / 2 ^ 32 % 256
    ∷ n / 2 ^ 24 % 256
    ∷ n / 2 ^ 16 % 256
    ∷ n / 2 ^ 8 % 256
    ∷ n % 256
    ∷ []

abbrev pub be_bytes32 : Words → Bytes
be_bytes32 [] = []
be_bytes32 (x ∷ xs) =
    x / 2 ^ 24 % 256 ∷ x / 2 ^ 16 % 256 ∷ x / 2 ^ 8 % 256 ∷ x % 256 ∷ be_bytes32 xs

-- the padding: 0x80, zeros up to 56 bytes mod 64, and the number of bits
abbrev pub padding_of : ℕ → ℕ → Bytes
padding_of buf_len bit_len =
    let pad_len = if ltb buf_len 56 then 56 - buf_len else 120 - buf_len in
    0x80 ∷ zeroed (pad_len - 1) ++ be_bytes64 bit_len

abbrev pub forget_length : Sha256 → Sha256
forget_length h = record { state = h.state; buf = h.buf; buf_len = h.buf_len; total_len = 0 }

unfoldable pub finalize : Sha256 → Bytes
unfolding update
finalize h =
    let bit_len = h.total_len * 8 % 2 ^ 64 in
    be_bytes32 (update (forget_length h) (padding_of h.buf_len bit_len)).state

unfoldable pub sha256 : Bytes → Bytes
unfolding finalize
sha256 bytes = finalize (update new bytes)

abbrev pub xor_all : ℕ → Bytes → Bytes
xor_all c = map (bit_xor c)

-- the key, hashed where it is longer than a block, and filled with zeros
abbrev pub block_key : Bytes → Bytes
block_key key =
    let hashed = sha256 key in
    let k = if ltb sha256_block_len (length key) then hashed else key in
    k ++ zeroed (sha256_block_len - length k)

unfoldable pub hmac_sha256 : Bytes → Bytes → Bytes
unfolding finalize update sha256
hmac_sha256 key msg =
    let k = block_key key in
    let inner = finalize (update (update new (xor_all 0x36 k)) msg) in
    finalize (update (update new (xor_all 0x5c k)) inner)

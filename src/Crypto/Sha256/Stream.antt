-- ===== src/Crypto/Sha256/Stream.antt =====
-- The streaming hasher of backend/src/crypto.rs against the hash of a whole message.
use tldr_tv.Prelude.{
  ℕ, ◌+◌, ◌-◌, ◌*◌, ◌%◌, ◌^◌, ◌≡◌, ◌∙◌, refl, sym, ap, ap₂, subst, min, inl, inr, List, [], ◌∷◌,
  ◌++◌, arith, Bool-cases, append_assoc, append-nil, ltb, nat_beq, length, length-append, ltb→lt,
  ltb_false→le,
}
use tldr_tv.Prelude.Text.{Bytes, joined}
use tldr_tv.Crypto.Sha256.{
  Words, Sha256, h256_init, new, whole_blocks, keep_rest, absorb, topped, top_up, count_bytes,
  update, update_counted, forget_length, padding_of, be_bytes32, finalize,
}
use tldr_tv.Crypto.Sha256.Blocks.{blocks_fuel, blocks_append, length-blocks}
use tldr_tv.Crypto.Sha256.Buffer.{
  Holds, update_held, update_empty, forget_length-Holds, update-After,
}

-- The hash of a whole message, padded as FIPS 180-4 says: what is left of its last block is
-- `length m % 64` bytes long.
abbrev pub padded : Bytes → Bytes
padded m = m ++ padding_of (length m % 64) (length m % 2 ^ 64 * 8 % 2 ^ 64)

unfoldable pub digest : Bytes → Bytes
digest m = be_bytes32 (whole_blocks (length (padded m)) h256_init (padded m)).0

-- The hasher has taken in the message `m`.
abbrev Took : Sha256 → Bytes → Type 0
Took h m =
    let end = whole_blocks (length m) h256_init m in
    Holds h end.0 end.1 × (h.total_len ≡ length m % 2 ^ 64)

total_len-keep_rest : (h : Sha256) (p : Words × Bytes) → (keep_rest h p).total_len ≡ h.total_len
total_len-keep_rest h (st, []) = refl
total_len-keep_rest h (st, c ∷ r) = refl

total_len-topped : (h : Sha256) (d : Bytes) (n : ℕ) → (topped h d n).0.total_len ≡ h.total_len
total_len-topped h d n = elim (Bool-cases (nat_beq (h.buf_len + n) 64)) [
  | inl e ↦ rw e refl
  | inr e ↦ rw e refl
]

total_len-absorb : (h : Sha256) (d : Bytes) → (absorb h d).total_len ≡ h.total_len
total_len-absorb h d = total_len-keep_rest h (whole_blocks (length d) h.state d)

total_len-update_counted : (h : Sha256) (d : Bytes) → (update_counted h d).total_len ≡ h.total_len
total_len-update_counted h d = elim (Bool-cases (ltb 0 h.buf_len)) [
  | inr e ↦
      ap (λ h. h.total_len) (update_empty h d (omega (arith, ltb_false→le 0 h.buf_len e)))
      ∙ total_len-absorb h d
  | inl e ↦
      ap (λ h. h.total_len) (update_held h d (ltb→lt 0 h.buf_len e))
      ∙ total_len-absorb (top_up h d).0 (top_up h d).1
      ∙ total_len-topped h d (min (length d) (64 - h.buf_len))
]

total_len-update :
    (h : Sha256) (d : Bytes) → (update h d).total_len ≡ (h.total_len + length d) % 2 ^ 64
unfolding update
total_len-update h d = total_len-update_counted (count_bytes h d) d

-- what hashing a message in two parts comes to
cut :
    (m d : Bytes)
    → let end = whole_blocks (length m) h256_init m in
      whole_blocks (length (m ++ d)) h256_init (m ++ d)
      ≡ whole_blocks (length (end.1 ++ d)) end.0 (end.1 ++ d)
cut m d =
    let size = length (m ++ d) in
    let end = whole_blocks (length m) h256_init m in
    let left : length end.1 ≡ length m % 64 = length-blocks (length m) h256_init m (omega arith) in
    blocks_append size (length m) size h256_init m d (omega arith) (omega arith) (omega arith)
    ∙ blocks_fuel size (length (end.1 ++ d)) end.0 (end.1 ++ d)
        (omega (arith, left, length-append m d, length-append end.1 d)) (omega arith)

update-Took : (h : Sha256) (m d : Bytes) → Took h m → Took (update h d) (m ++ d)
update-Took h m d (holds, total) =
    let end = whole_blocks (length m) h256_init m in
    (
      subst (λ e. Holds (update h d) e.0 e.1) (sym (cut m d)) (update-After h end.0 end.1 d holds),
      total_len-update h d ∙ omega (arith, total, length-append m d),
    )

-- the chunks one after the other
abbrev pub feed : Sha256 → List Bytes → Sha256
feed h [] = h
feed h (d ∷ ds) = feed (update h d) ds

feed-Took :
    (h : Sha256) (m : Bytes) (ds : List Bytes) → Took h m → Took (feed h ds) (m ++ joined ds)
feed-Took h m [] took = subst (Took h) (sym (append-nil m)) took
feed-Took h m (d ∷ ds) took =
    subst (Took (feed (update h d) ds)) (append_assoc m d (joined ds))
      (feed-Took (update h d) (m ++ d) ds (update-Took h m d took))

new-Took : Took new []
unfolding whole_blocks
new-Took =
    (record { same = refl; size = refl; held = refl; room = refl; partial = omega arith }, refl)

finalize-Took : (h : Sha256) (m : Bytes) → Took h m → finalize h ≡ digest m
unfolding finalize digest
finalize-Took h m (holds, total) =
    let end = whole_blocks (length m) h256_init m in
    let pad = padding_of h.buf_len (h.total_len * 8 % 2 ^ 64) in
    let same_pad : pad ≡ padding_of (length m % 64) (length m % 2 ^ 64 * 8 % 2 ^ 64) =
      ap₂ padding_of (holds.size ∙ length-blocks (length m) h256_init m (omega arith))
        (ap (λ n. n * 8 % 2 ^ 64) total) in
    let taken =
      update-After (forget_length h) end.0 end.1 pad (forget_length-Holds h end.0 end.1 holds) in
    ap be_bytes32 (taken.same ∙ ap (λ e. e.0) (sym (cut m pad)))
    ∙ ap (λ p. be_bytes32 (whole_blocks (length (m ++ p)) h256_init (m ++ p)).0) same_pad

-- A message that is fed in any chunks has the digest of the whole message, padded and compressed
-- block by block.
pub finalize-feed : (chunks : List Bytes) → finalize (feed new chunks) ≡ digest (joined chunks)
finalize-feed chunks =
    finalize-Took (feed new chunks) (joined chunks) (feed-Took new [] chunks new-Took)

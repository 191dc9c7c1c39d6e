-- ===== src/Crypto/Sha256/Buffer.antt =====
-- The buffer of the hasher of backend/src/crypto.rs.
use tldr_tv.Prelude.{
  ℕ, suc, ◌+◌, ◌-◌, ◌≤◌, ◌<◌, ◌≡◌, ◌∙◌, refl, sym, ap, ap₂, subst, min, true, false, inl, inr, [],
  ◌∷◌, ◌++◌, arith, Bool-cases, append-nil, ltb, nat_beq, length, length-append, take, drop, ltb→lt,
  ltb_false→le, le→ltb_false, lt→ltb,
}
use tldr_tv.Prelude.Text.{Bytes}
use tldr_tv.Crypto.Sha256.{
  Words, Sha256, compress, whole_blocks, keep_rest, absorb, topped, top_up, count_bytes, update,
  update_counted, forget_length, write_at,
}
use tldr_tv.Crypto.Sha256.Blocks.{
  take-append-ge, drop-append-ge, length-drop, length-take, take_whole, blocks_short, blocks_long,
  blocks_fuel, length-blocks,
}

-- The hasher has compressed the whole blocks of a message into `st` and holds `r`, what is left.
pub record Holds (h : Sha256) (st : Words) (r : Bytes) : Type 0 where
  pub same : h.state ≡ st
  pub size : h.buf_len ≡ length r
  pub held : take (length r) h.buf ≡ r
  pub room : length h.buf ≡ 64
  pub partial : length r < 64

length-write_at :
    (buf : Bytes) (from : ℕ) (b : Bytes)
    → length buf ≡ 64
    → from + length b ≤ 64
    → length (write_at buf from b) ≡ 64
length-write_at buf from b h le = omega (
  arith,
  length-append (take from buf ++ b) (drop (from + length b) buf),
  length-append (take from buf) b,
  length-take from buf,
  length-drop (from + length b) buf,
)

take-write_at :
    (buf : Bytes) (r b : Bytes)
    → take (length r) buf ≡ r
    → take (length (r ++ b)) (write_at buf (length r) b) ≡ r ++ b
take-write_at buf r b held =
    ap (λ t. take (length (r ++ b)) ((t ++ b) ++ drop (length r + length b) buf)) held
    ∙ take-append-ge (length (r ++ b)) 0 (r ++ b) (drop (length r + length b) buf) (omega arith)
    ∙ append-nil (r ++ b)

-- the end of `update`, of which nothing is buffered before
keep_rest-Holds :
    (h : Sha256) (st : Words) (r : Bytes)
    → h.buf_len ≡ 0
    → length h.buf ≡ 64
    → length r < 64
    → Holds (keep_rest h (st, r)) st r
keep_rest-Holds h st [] empty room small = record {
  same = refl;
  size = empty;
  held = refl;
  room = room;
  partial = small;
}
keep_rest-Holds h st (c ∷ r) empty room small = record {
  same = refl;
  size = refl;
  held = take-write_at h.buf [] (c ∷ r) refl;
  room = length-write_at h.buf 0 (c ∷ r) room (omega arith);
  partial = small;
}

-- hashing `rest` with nothing buffered
absorb-Holds :
    (h : Sha256) (rest : Bytes)
    → h.buf_len ≡ 0
    → length h.buf ≡ 64
    → let end = whole_blocks (length rest) h.state rest in Holds (absorb h rest) end.0 end.1
absorb-Holds h rest empty room =
    let end = whole_blocks (length rest) h.state rest in
    keep_rest-Holds h end.0 end.1 empty room
      (omega (arith, length-blocks (length rest) h.state rest (omega arith)))

pub update_held :
    (h : Sha256) (d : Bytes)
    → 0 < h.buf_len
    → update_counted h d ≡ absorb (top_up h d).0 (top_up h d).1
update_held h d held = rw (lt→ltb 0 h.buf_len held) refl

pub update_empty : (h : Sha256) (d : Bytes) → h.buf_len ≡ 0 → update_counted h d ≡ absorb h d
update_empty h d empty = rw (le→ltb_false 0 h.buf_len (omega arith)) refl

drop_whole : (xs : Bytes) → drop (length xs) xs ≡ []
drop_whole [] = refl
drop_whole (x ∷ xs) = drop_whole xs

topped_short :
    (h : Sha256) (d b rest : Bytes) (n : ℕ)
    → take n d ≡ b
    → drop n d ≡ rest
    → nat_beq (h.buf_len + n) 64 ≡ false
    → topped h d n ≡ (
      record {
        state = h.state;
        buf = write_at h.buf h.buf_len b;
        buf_len = h.buf_len + n;
        total_len = h.total_len;
      },
      rest,
    )
topped_short h d b rest n p q room = rw (room, p, q) refl

topped_full :
    (h : Sha256) (d : Bytes) (n : ℕ)
    → nat_beq (h.buf_len + n) 64 ≡ true
    → topped h d n ≡ (
        let buf = write_at h.buf h.buf_len (take n d) in
        (
          record { state = compress h.state buf; buf = buf; buf_len = 0; total_len = h.total_len },
          drop n d,
        ))
topped_full h d n full = rw full refl

-- what hashing `d` behind the buffered bytes comes to
abbrev After : Sha256 → Words → Bytes → Bytes → Type 0
After h st r d = let end = whole_blocks (length (r ++ d)) st (r ++ d) in Holds h end.0 end.1

nil_of_length : (xs : Bytes) → length xs ≡ 0 → xs ≡ []
nil_of_length [] h = refl
nil_of_length (x ∷ xs) h = absurd (omega arith)

absorb_nil : (h : Sha256) → absorb h [] ≡ h
unfolding whole_blocks
absorb_nil h = refl

module _ (h : Sha256) (st : Words) (r : Bytes) (holds : Holds h st r) (d : Bytes) where
  held_with : (b : Bytes) → take (length (r ++ b)) (write_at h.buf h.buf_len b) ≡ r ++ b
  held_with b =
      ap (λ i. take (length (r ++ b)) (write_at h.buf i b)) holds.size
      ∙ take-write_at h.buf r b holds.held

  -- the buffered bytes and all of the new ones do not fill a block
  short-After : 0 < length r → length r + length d < 64 → After (update_counted h d) st r d
  short-After some_held short =
      let n : min (length d) (64 - h.buf_len) ≡ length d = omega (arith, holds.size) in
      let room : nat_beq (h.buf_len + length d) 64 ≡ false = ground (arith, holds.size) in
      let h' : Sha256 = record {
        state = h.state;
        buf = write_at h.buf h.buf_len d;
        buf_len = h.buf_len + length d;
        total_len = h.total_len;
      } in
      let parts : top_up h d ≡ (h', []) =
        ap (topped h d) n
        ∙ topped_short h d d [] (length d) (take_whole (length d) d (omega arith)) (drop_whole d)
            room in
      let code : update_counted h d ≡ h' =
        update_held h d (omega (arith, holds.size))
        ∙ ap (λ p. absorb p.0 p.1) parts
        ∙ absorb_nil h' in
      let kept : Holds h' st (r ++ d) = record {
        same = holds.same;
        size = omega (arith, holds.size, length-append r d);
        held = held_with d;
        room = length-write_at h.buf h.buf_len d holds.room (omega (arith, holds.size));
        partial = omega (arith, length-append r d);
      } in
      let end = blocks_short (length (r ++ d)) st (r ++ d) (omega (arith, length-append r d)) in
      subst (λ h'. After h' st r d) (sym code) (subst (λ e. Holds h' e.0 e.1) (sym end) kept)

  -- they fill a block, which is compressed before the rest
  full-After : 0 < length r → 64 ≤ length r + length d → After (update_counted h d) st r d
  full-After some_held long =
      let k = 64 - h.buf_len in
      let n : min (length d) k ≡ k = omega (arith, holds.size) in
      let full : nat_beq (h.buf_len + k) 64 ≡ true = ground (arith, holds.size, holds.partial) in
      let buf = write_at h.buf h.buf_len (take k d) in
      let h' : Sha256 = record {
        state = compress h.state buf;
        buf = buf;
        buf_len = 0;
        total_len = h.total_len;
      } in
      let parts : top_up h d ≡ (h', drop k d) = ap (topped h d) n ∙ topped_full h d k full in
      let code : update_counted h d ≡ absorb h' (drop k d) =
        update_held h d (omega (arith, holds.size)) ∙ ap (λ p. absorb p.0 p.1) parts in
      let taken : length (take k d) ≡ k = omega (arith, length-take k d, holds.size) in
      let whole : length buf ≡ 64 =
        length-write_at h.buf h.buf_len (take k d) holds.room (omega (arith, holds.size, taken)) in
      let block : take 64 (r ++ d) ≡ buf =
        take-append-ge 64 k r d (omega (arith, holds.size, holds.partial))
        ∙ sym (held_with (take k d))
        ∙ take_whole (length (r ++ take k d)) buf
            (omega (arith, whole, taken, holds.size, length-append r (take k d))) in
      let rest : drop 64 (r ++ d) ≡ drop k d =
        drop-append-ge 64 k r d (omega (arith, holds.size, holds.partial)) in
      let size = length (r ++ d) in
      let end : whole_blocks size st (r ++ d)
          ≡ whole_blocks (length (drop k d)) h'.state (drop k d) =
        blocks_fuel size (suc size) st (r ++ d) (omega arith) (omega arith)
        ∙ blocks_long size st (r ++ d) (omega (arith, length-append r d))
        ∙ ap₂ (λ b t. whole_blocks size (compress st b) t) block rest
        ∙ ap (λ w. whole_blocks size (compress w buf) (drop k d)) (sym holds.same)
        ∙ blocks_fuel size (length (drop k d)) (compress h.state buf) (drop k d)
            (omega (arith, length-drop k d, length-append r d)) (omega arith) in
      subst (λ h'. After h' st r d) (sym code)
        (subst (λ e. Holds (absorb h' (drop k d)) e.0 e.1) (sym end)
          (absorb-Holds h' (drop k d) refl whole))

  -- nothing is buffered
  empty-After : length r ≡ 0 → After (update_counted h d) st r d
  empty-After none_held =
      let end : whole_blocks (length (r ++ d)) st (r ++ d) ≡ whole_blocks (length d) h.state d =
        ap₂ (λ t w. whole_blocks (length (t ++ d)) w (t ++ d)) (nil_of_length r none_held)
          (sym holds.same) in
      subst (λ h'. After h' st r d) (sym (update_empty h d (omega (arith, holds.size))))
        (subst (λ e. Holds (absorb h d) e.0 e.1) (sym end)
          (absorb-Holds h d (omega (arith, holds.size)) holds.room))

  update_counted-After : After (update_counted h d) st r d
  update_counted-After = elim (Bool-cases (ltb 0 (length r))) [
    | inr e ↦ empty-After (omega (arith, ltb_false→le 0 (length r) e))
    | inl e ↦
        let held = ltb→lt 0 (length r) e in
        elim (Bool-cases (ltb (length r + length d) 64)) [
          | inl short ↦ short-After held (ltb→lt (length r + length d) 64 short)
          | inr long ↦ full-After held (ltb_false→le (length r + length d) 64 long)
        ]
  ]

-- A field that the buffer does not depend on.
count_bytes-Holds :
    (h : Sha256) (st : Words) (r d : Bytes) → Holds h st r → Holds (count_bytes h d) st r
count_bytes-Holds h st r d holds = record {
  same = holds.same;
  size = holds.size;
  held = holds.held;
  room = holds.room;
  partial = holds.partial;
}

pub forget_length-Holds :
    (h : Sha256) (st : Words) (r : Bytes) → Holds h st r → Holds (forget_length h) st r
forget_length-Holds h st r holds = record {
  same = holds.same;
  size = holds.size;
  held = holds.held;
  room = holds.room;
  partial = holds.partial;
}

pub update-After :
    (h : Sha256) (st : Words) (r d : Bytes) → Holds h st r → After (update h d) st r d
unfolding update
update-After h st r d holds =
    update_counted-After (count_bytes h d) st r (count_bytes-Holds h st r d holds) d

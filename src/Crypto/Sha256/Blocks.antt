-- ===== src/Crypto/Sha256/Blocks.antt =====
-- The loop of `update` over the whole blocks of a message, in backend/src/crypto.rs.
use tldr_tv.Prelude.{
  ℕ, zero, suc, ◌+◌, ◌-◌, ◌%◌, ◌≤◌, ◌<◌, ◌≡◌, ◌∙◌, refl, sym, ap, ap₂, subst, min, inl, inr, [],
  ◌∷◌, ◌++◌, arith, Bool-cases, ltb, length, length-append, take, drop, ltb→lt, ltb_false→le,
  le→ltb_false, lt→ltb,
}
use tldr_tv.Prelude.Text.{Bytes}
use tldr_tv.Crypto.Sha256.{Words, compress, whole_blocks}

pub take-append-le : (n : ℕ) (xs ys : Bytes) → n ≤ length xs → take n (xs ++ ys) ≡ take n xs
take-append-le zero xs ys h = refl
take-append-le (suc n) [] ys h = absurd (omega arith)
take-append-le (suc n) (x ∷ xs) ys h = ap (λ t. x ∷ t) (take-append-le n xs ys (omega arith))

pub take-append-ge :
    (n k : ℕ) (xs ys : Bytes) → n ≡ length xs + k → take n (xs ++ ys) ≡ xs ++ take k ys
take-append-ge n k [] ys h = ap (λ i. take i ys) (omega arith)
take-append-ge zero k (x ∷ xs) ys h = absurd (omega arith)
take-append-ge (suc n) k (x ∷ xs) ys h = ap (λ t. x ∷ t) (take-append-ge n k xs ys (omega arith))

pub drop-append-le : (n : ℕ) (xs ys : Bytes) → n ≤ length xs → drop n (xs ++ ys) ≡ drop n xs ++ ys
drop-append-le zero xs ys h = refl
drop-append-le (suc n) [] ys h = absurd (omega arith)
drop-append-le (suc n) (x ∷ xs) ys h = drop-append-le n xs ys (omega arith)

pub drop-append-ge : (n k : ℕ) (xs ys : Bytes) → n ≡ length xs + k → drop n (xs ++ ys) ≡ drop k ys
drop-append-ge n k [] ys h = ap (λ i. drop i ys) (omega arith)
drop-append-ge zero k (x ∷ xs) ys h = absurd (omega arith)
drop-append-ge (suc n) k (x ∷ xs) ys h = drop-append-ge n k xs ys (omega arith)

pub length-drop : (n : ℕ) (xs : Bytes) → length (drop n xs) ≡ length xs - n
length-drop zero xs = omega arith
length-drop (suc n) [] = omega arith
length-drop (suc n) (x ∷ xs) = omega (arith, length-drop n xs)

pub length-take : (n : ℕ) (xs : Bytes) → length (take n xs) ≡ min n (length xs)
length-take zero xs = omega arith
length-take (suc n) [] = omega arith
length-take (suc n) (x ∷ xs) = omega (arith, length-take n xs)

pub take_whole : (n : ℕ) (xs : Bytes) → length xs ≤ n → take n xs ≡ xs
take_whole zero [] h = refl
take_whole zero (x ∷ xs) h = absurd (omega arith)
take_whole (suc n) [] h = refl
take_whole (suc n) (x ∷ xs) h = ap (λ t. x ∷ t) (take_whole n xs (omega arith))

pub blocks_short : (f : ℕ) (st : Words) (m : Bytes) → length m < 64 → whole_blocks f st m ≡ (st, m)
unfolding whole_blocks
blocks_short zero st m h = refl
blocks_short (suc f) st m h = rw (lt→ltb (length m) 64 h) refl

pub blocks_long :
    (f : ℕ) (st : Words) (m : Bytes)
    → 64 ≤ length m
    → whole_blocks (suc f) st m ≡ whole_blocks f (compress st (take 64 m)) (drop 64 m)
unfolding whole_blocks
blocks_long f st m h = rw (le→ltb_false (length m) 64 h) refl

-- With enough fuel the fuel does not matter.
pub blocks_fuel :
    (f g : ℕ) (st : Words) (m : Bytes)
    → length m ≤ f
    → length m ≤ g
    → whole_blocks f st m ≡ whole_blocks g st m
blocks_fuel zero g st m hf hg =
    blocks_short zero st m (omega arith) ∙ sym (blocks_short g st m (omega arith))
blocks_fuel (suc f) zero st m hf hg =
    blocks_short (suc f) st m (omega arith) ∙ sym (blocks_short zero st m (omega arith))
blocks_fuel (suc f) (suc g) st m hf hg = elim (Bool-cases (ltb (length m) 64)) [
  | inl e ↦
      let short = ltb→lt (length m) 64 e in
      blocks_short (suc f) st m short ∙ sym (blocks_short (suc g) st m short)
  | inr e ↦
      let long = ltb_false→le (length m) 64 e in
      blocks_long f st m long
      ∙ blocks_fuel f g (compress st (take 64 m)) (drop 64 m) (omega (arith, length-drop 64 m))
          (omega (arith, length-drop 64 m))
      ∙ sym (blocks_long g st m long)
]

-- A message can be cut anywhere: the second part is hashed behind what was left of the first.
pub blocks_append :
    (f g k : ℕ) (st : Words) (m d : Bytes)
    → length (m ++ d) ≤ f
    → length m ≤ g
    → length (m ++ d) ≤ k
    → whole_blocks f st (m ++ d)
      ≡ whole_blocks k (whole_blocks g st m).0 ((whole_blocks g st m).1 ++ d)
blocks_append f zero k st m d hf hg hk =
    subst (λ r. whole_blocks f st (m ++ d) ≡ whole_blocks k r.0 (r.1 ++ d))
      (sym (blocks_short zero st m (omega arith))) (blocks_fuel f k st (m ++ d) hf hk)
blocks_append zero (suc g) k st m d hf hg hk =
    subst (λ r. whole_blocks zero st (m ++ d) ≡ whole_blocks k r.0 (r.1 ++ d))
      (sym (blocks_short (suc g) st m (omega (arith, length-append m d))))
      (blocks_fuel zero k st (m ++ d) hf hk)
blocks_append (suc f) (suc g) k st m d hf hg hk = elim (Bool-cases (ltb (length m) 64)) [
  | inl e ↦
      subst (λ r. whole_blocks (suc f) st (m ++ d) ≡ whole_blocks k r.0 (r.1 ++ d))
        (sym (blocks_short (suc g) st m (ltb→lt (length m) 64 e)))
        (blocks_fuel (suc f) k st (m ++ d) hf hk)
  | inr e ↦
      let long = ltb_false→le (length m) 64 e in
      let st1 = compress st (take 64 m) in
      let sizes = length-append (drop 64 m) d in
      blocks_long f st (m ++ d) (omega (arith, length-append m d))
      ∙ ap₂ (λ b r. whole_blocks f (compress st b) r) (take-append-le 64 m d long)
          (drop-append-le 64 m d long)
      ∙ blocks_append f g k st1 (drop 64 m) d
          (omega (arith, sizes, length-drop 64 m, length-append m d))
          (omega (arith, length-drop 64 m))
          (omega (arith, sizes, length-drop 64 m, length-append m d))
      ∙ sym (ap (λ r. whole_blocks k r.0 (r.1 ++ d)) (blocks_long g st m long))
]

pub length-blocks :
    (f : ℕ) (st : Words) (m : Bytes) → length m ≤ f → length (whole_blocks f st m).1 ≡ length m % 64
length-blocks zero st m hf =
    ap (λ r. length r.1) (blocks_short zero st m (omega arith)) ∙ omega arith
length-blocks (suc f) st m hf = elim (Bool-cases (ltb (length m) 64)) [
  | inl e ↦
      let short = ltb→lt (length m) 64 e in
      ap (λ r. length r.1) (blocks_short (suc f) st m short) ∙ omega (arith, short)
  | inr e ↦
      let long = ltb_false→le (length m) 64 e in
      ap (λ r. length r.1) (blocks_long f st m long)
      ∙ length-blocks f (compress st (take 64 m)) (drop 64 m) (omega (arith, length-drop 64 m))
      ∙ omega (arith, length-drop 64 m)
]

-- ===== src/Crypto/Base64/RoundTrip.antt =====
-- What base64 and base64url of backend/src/crypto.rs write, decoded.
use tldr_tv.Prelude.{
  ℕ, ◌+◌, ◌*◌, ◌/◌, ◌%◌, ◌<◌, ◌≡◌, ◌∙◌, refl, ap, ap₂, Bool, true, false, ◌&&◌, ◌||◌, not, Option,
  none, some, [], ◌∷◌, arith, nat_beq, nat_beq_iff, ltb, length, All, holds_below, holds_below-lt,
}
use tldr_tv.Prelude.Text.{Bytes, Text, utf8}
use tldr_tv.Crypto.Base64.{
  b64_url, b64_std, letter, sextet, b64_val, b64_encode_with, b64_groups, b64_decode_any,
  trim_padding, base64url_encode, base64url_decode,
}

answers : Option ℕ → ℕ → Bool
answers none k = false
answers (some v) k = nat_beq v k

answers_some : (o : Option ℕ) (k : ℕ) → answers o k ≡ true → o ≡ some k
unfolding answers
answers_some none k h = cc
answers_some (some v) k h = ap some ((nat_beq_iff v k).0 h)

-- A letter is ASCII and is none of the padding, the dot and the dollar sign.
abbrev pub IsLetter : ℕ → Type 0
IsLetter c =
    (nat_beq c b'=' ≡ false) × ((nat_beq c b'.' || nat_beq c b'$') ≡ false) × (ltb c 0x80 ≡ true)

-- An alphabet whose letters decode to their places.
abbrev pub Decodes : Text → Type 0
Decodes alphabet =
    (k : ℕ) → k < 64 → (b64_val (letter alphabet k) ≡ some k) × IsLetter (letter alphabet k)

letter_test : Text → ℕ → Bool
unfolding answers
letter_test alphabet k =
    let c = letter alphabet k in
    answers (b64_val c) k
    && (not (nat_beq c b'=') && (not (nat_beq c b'.' || nat_beq c b'$') && ltb c 0x80))

all_four :
    (a b c d : Bool)
    → (a && (not b && (not c && d))) ≡ true
    → (a ≡ true) × (b ≡ false) × (c ≡ false) × (d ≡ true)
all_four true false false true h = (refl, refl, refl, refl)
all_four false b c d h = cc
all_four true true c d h = cc
all_four true false true d h = cc
all_four true false false false h = cc

alphabet-Decodes :
    (alphabet : Text) → holds_below 64 (letter_test alphabet) ≡ true → Decodes alphabet
unfolding letter_test
alphabet-Decodes alphabet h k lt =
    let test = holds_below-lt 64 (letter_test alphabet) h k lt in
    let c = letter alphabet k in
    let (value, unpadded, undotted, low) =
      all_four (answers (b64_val c) k) (nat_beq c b'=') (nat_beq c b'.' || nat_beq c b'$')
        (ltb c 0x80) test in
    (answers_some (b64_val c) k value, (unpadded, undotted, low))

pub b64_url-Decodes : Decodes b64_url
unfolding letter_test answers
b64_url-Decodes = alphabet-Decodes b64_url refl

b64_std-Decodes : Decodes b64_std
unfolding letter_test answers
b64_std-Decodes = alphabet-Decodes b64_std refl

pub utf8-letters : (s : Text) → All IsLetter s → utf8 s ≡ s
utf8-letters [] h = refl
utf8-letters (c ∷ s) ((p, dot, q), rest) = rw q (ap (λ t. c ∷ t) (utf8-letters s rest))

trim-letters : (s : Text) → All IsLetter s → trim_padding s ≡ s
trim-letters [] h = refl
trim-letters (c ∷ s) ((p, dot, q), rest) = rw p (ap (λ t. c ∷ t) (trim-letters s rest))

abbrev pub IsByte : ℕ → Type 0
IsByte b = b < 256

groups_step :
    (a b c d v w x y : ℕ) (rest out : Bytes)
    → b64_val a ≡ some v
    → b64_val b ≡ some w
    → b64_val c ≡ some x
    → b64_val d ≡ some y
    → b64_groups rest ≡ some out
    → b64_groups (a ∷ b ∷ c ∷ d ∷ rest) ≡ (
        let n = v * 262144 + w * 4096 + x * 64 + y in
        some (n / 65536 % 256 ∷ n / 256 % 256 ∷ n % 256 ∷ out))
unfolding b64_groups
groups_step a b c d v w x y rest out p q r s e = rw (p, q, r, s) (rw e refl)

module _ (alphabet : Text) (decodes : Decodes alphabet) where
  pub b64_encode_with-letters :
      (bytes : Bytes) → All IsLetter (b64_encode_with bytes alphabet false)
  unfolding b64_encode_with
  b64_encode_with-letters [] = tt
  b64_encode_with-letters (a ∷ []) =
      ((decodes _ (omega arith)).1, ((decodes _ (omega arith)).1, tt))
  b64_encode_with-letters (a ∷ b ∷ []) = (
    (decodes _ (omega arith)).1,
    ((decodes _ (omega arith)).1, ((decodes _ (omega arith)).1, tt)),
  )
  b64_encode_with-letters (a ∷ b ∷ c ∷ rest) = (
    (decodes _ (omega arith)).1,
    (
      (decodes _ (omega arith)).1,
      ((decodes _ (omega arith)).1, ((decodes _ (omega arith)).1, b64_encode_with-letters rest)),
    ),
  )

  length-b64_encode_with :
      (bytes : Bytes) → nat_beq (length (b64_encode_with bytes alphabet false) % 4) 1 ≡ false
  unfolding b64_encode_with
  length-b64_encode_with [] = refl
  length-b64_encode_with (a ∷ []) = refl
  length-b64_encode_with (a ∷ b ∷ []) = refl
  length-b64_encode_with (a ∷ b ∷ c ∷ rest) = ground (arith, length-b64_encode_with rest)

  value : (n power : ℕ) → b64_val (sextet alphabet n power) ≡ some (n / power % 64)
  value n power = (decodes (n / power % 64) (omega arith)).0

  b64_groups-b64_encode_with :
      (bytes : Bytes)
      → All IsByte bytes
      → b64_groups (b64_encode_with bytes alphabet false) ≡ some bytes
  unfolding b64_encode_with b64_groups
  b64_groups-b64_encode_with [] h = refl
  b64_groups-b64_encode_with (a ∷ []) (ha, h) =
      rw (value (a * 65536) 262144, value (a * 65536) 4096) (ap (λ x. some (x ∷ [])) (omega arith))
  b64_groups-b64_encode_with (a ∷ b ∷ []) (ha, (hb, h)) =
      let n = a * 65536 + b * 256 in
      rw (value n 262144, value n 4096, value n 64)
        (ap₂ (λ x y. some (x ∷ y ∷ [])) (omega arith) (omega arith))
  b64_groups-b64_encode_with (a ∷ b ∷ c ∷ rest) (ha, (hb, (hc, h))) =
      let n = a * 65536 + b * 256 + c in
      let ih = b64_groups-b64_encode_with rest h in
      groups_step (sextet alphabet n 262144) (sextet alphabet n 4096) (sextet alphabet n 64)
        (sextet alphabet n 1) (n / 262144 % 64) (n / 4096 % 64) (n / 64 % 64) (n / 1 % 64)
        (b64_encode_with rest alphabet false) rest (value n 262144) (value n 4096) (value n 64)
        (value n 1) ih
      ∙ ap₂ (λ x t. some (x ∷ t)) (omega arith)
          (ap₂ (λ y z. y ∷ z ∷ rest) (omega arith) (omega arith))

-- base64url text decodes to the bytes it was made of.
pub base64url_decode-base64url_encode :
    (bytes : Bytes) → All IsByte bytes → base64url_decode (base64url_encode bytes) ≡ some bytes
unfolding b64_decode_any
base64url_decode-base64url_encode bytes h =
    let letters = b64_encode_with-letters b64_url b64_url-Decodes bytes in
    let text = base64url_encode bytes in
    rw (trim-letters text letters) (
      rw (utf8-letters text letters) (
        rw (length-b64_encode_with b64_url b64_url-Decodes bytes)
          (b64_groups-b64_encode_with b64_url b64_url-Decodes bytes h)))

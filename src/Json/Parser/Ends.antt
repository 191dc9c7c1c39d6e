-- ===== src/Json/Parser/Ends.antt =====
-- The end of every run of the parser of backend/src/json.rs: its parts.
use tldr_tv.Prelude.{
  ℕ, zero, suc, ◌+◌, ◌≤◌, ◌<◌, ◌≢◌, inl, inr, [], ◌∷◌, ◌++◌, arith, Bool-cases, Option-cases,
  length, take, drop,
}
use tldr_tv.Prelude.Text.{Bytes, Text, codes, text_starts_with}
use tldr_tv.Prelude.Exec.{Outcome, ok, err, continue, ◌>>=◌, ◌>>◌}
use tldr_tv.Json.Parser.Scan.{
  Stop, out_of_fuel, Parser, ws, lit, hex4, escape, utf8_len, unicode_escape, after_high,
  code_point, join_pair, nibbles, scalar, from_utf8, chars, string, scan_number, number,
  skip_digits, skip_minus, skip_sign, digits_or, int_part, frac_part, exp_part,
}

-- A run that did not stop for want of fuel and leaves fewer than `n` bytes if it succeeds.
abbrev pub Ends : {A : Type 0} → ℕ → Outcome Stop A × Bytes → Type 0
Ends n (ok a, b) = length b < n
Ends n (err e, b) = e ≢ out_of_fuel

module _ {A B : Type 0} where
  continue-Ends :
      (n k : ℕ) (r : Outcome Stop A) (b : Bytes) (f : A → Parser B)
      → Ends n (r, b)
      → ((a : A) (b : Bytes) → length b < n → Ends k (f a b))
      → Ends k (continue r f b)
  continue-Ends n k (ok a) b f h rest = rest a b h
  continue-Ends n k (err e) b f h rest = h

  pub bind-Ends :
      (n k : ℕ) (m : Parser A) (f : A → Parser B) (s : Bytes)
      → Ends n (m s)
      → ((a : A) (b : Bytes) → length b < n → Ends k (f a b))
      → Ends k ((m >>= f) s)
  bind-Ends n k m f s h rest = continue-Ends n k (m s).0 (m s).1 f h rest

pub weaken-Ends : {A : Type 0} (n k : ℕ) (r : Outcome Stop A × Bytes) → Ends n r → n ≤ k → Ends k r
weaken-Ends n k (ok a, b) h le = omega arith
weaken-Ends n k (err e, b) h le = h

pub length-ws-le : (b : Bytes) → length (ws b) ≤ length b
unfolding ws
length-ws-le [] = omega arith
length-ws-le (c ∷ b) = ground (arith, length-ws-le b)

length-skip_digits-le : (b : Bytes) → length (skip_digits b) ≤ length b
unfolding skip_digits
length-skip_digits-le [] = omega arith
length-skip_digits-le (c ∷ b) = ground (arith, length-skip_digits-le b)

length-drop-le : (n : ℕ) (b : Bytes) → length (drop n b) ≤ length b
length-drop-le zero b = omega arith
length-drop-le (suc n) [] = omega arith
length-drop-le (suc n) (c ∷ b) = omega (arith, length-drop-le n b)

pub lit-Ends :
    (len c : ℕ) (word : Text) (d : ℕ) (b : Bytes)
    → Ends (suc (length b)) (lit len (c ∷ word) (d ∷ b))
lit-Ends len c word d b = ground (arith, length-drop-le (length word) b)

hex4-Ends : (len : ℕ) (b : Bytes) → Ends (suc (length b)) (hex4 len b)
hex4-Ends len b = elim (Option-cases (nibbles 0 (take 4 b))) [
  | inl e ↦ rw e (ground arith)
  | inr (v, e) ↦ rw e (ground (arith, length-drop-le 4 b))
]

join_pair-Ends :
    (len hi : ℕ) (save : Bytes) (lo : ℕ) (b : Bytes)
    → length b ≤ length save
    → Ends (suc (length save)) (join_pair len hi save lo b)
join_pair-Ends len hi save lo b h = ground arith

after_high-Ends : (len hi : ℕ) (b : Bytes) → Ends (suc (length b)) (after_high len hi b)
after_high-Ends len hi b =
    let hex =
      weaken-Ends (suc (length (drop 2 b))) (suc (length b)) (hex4 len (drop 2 b))
        (hex4-Ends len (drop 2 b)) (omega (arith, length-drop-le 2 b)) in
    let paired =
      bind-Ends (suc (length b)) (suc (length b)) (hex4 len) (join_pair len hi b) (drop 2 b) hex
        λ lo rest h. join_pair-Ends len hi b lo rest (omega arith) in
    elim (Bool-cases (text_starts_with (codes "\\u") b)) [
      | inl e ↦ rw e paired
      | inr e ↦ rw e (omega arith)
    ]

code_point-Ends : (len hi : ℕ) (b : Bytes) → Ends (suc (length b)) (code_point len hi b)
code_point-Ends len hi b = ground (arith, after_high-Ends len hi b)

unicode_escape-Ends : (len : ℕ) (b : Bytes) → Ends (suc (length b)) (unicode_escape len b)
unicode_escape-Ends len b =
    bind-Ends (suc (length b)) (suc (length b)) (hex4 len) (code_point len) b (hex4-Ends len b)
      λ hi rest h.
        weaken-Ends (suc (length rest)) (suc (length b)) (code_point len hi rest)
          (code_point-Ends len hi rest) (omega arith)

escape-Ends : (len : ℕ) (b : Bytes) → Ends (suc (length b)) (escape len b)
unfolding escape
escape-Ends len [] = ground arith
escape-Ends len (e ∷ b) = ground (arith, weak_unicode)
  where
    weak_unicode : Ends (suc (suc (length b))) (unicode_escape len b)
    weak_unicode =
        weaken-Ends (suc (length b)) (suc (suc (length b))) (unicode_escape len b)
          (unicode_escape-Ends len b) (omega arith)

drop-shorter : (n : ℕ) (c : ℕ) (b : Bytes) → 0 < n → length (drop n (c ∷ b)) ≤ length b
drop-shorter zero c b h = absurd (omega arith)
drop-shorter (suc n) c b h = length-drop-le n b

utf8_len_pos : (c : ℕ) → 0 < utf8_len c
utf8_len_pos c = ground arith

scalar-Ends : (len c : ℕ) (b : Bytes) → Ends (suc (length b)) (scalar len (c ∷ b))
unfolding scalar
scalar-Ends len c b = elim (Option-cases (from_utf8 (take (utf8_len c) (c ∷ b)))) [
  | inl e ↦ rw e (ground arith)
  | inr (ch, e) ↦ rw e (ground (arith, drop-shorter (utf8_len c) c b (utf8_len_pos c)))
]

chars-Ends :
    (len f : ℕ) (out : Text) (b : Bytes) → length b < f → Ends (suc (length b)) (chars len f out b)
unfolding chars
chars-Ends len zero out b h = absurd (omega arith)
chars-Ends len (suc f) out [] h = ground arith
chars-Ends len (suc f) out (c ∷ b) h =
    let go : (ch : ℕ) (rest : Bytes)
        → length rest < suc (length b)
        → Ends (suc (suc (length b))) (chars len f (out ++ ch ∷ []) rest) =
      λ ch rest le.
        weaken-Ends (suc (length rest)) (suc (suc (length b))) (chars len f (out ++ ch ∷ []) rest)
          (chars-Ends len f (out ++ ch ∷ []) rest (omega arith)) (omega arith) in
    let next = λ (ch : ℕ). chars len f (out ++ ch ∷ []) in
    let escaped =
      bind-Ends (suc (length b)) (suc (suc (length b))) (escape len) next b (escape-Ends len b)
        go in
    let copied =
      bind-Ends (suc (length b)) (suc (suc (length b))) (scalar len) next (c ∷ b)
        (scalar-Ends len c b) go in
    ground arith

pub string-Ends : (len : ℕ) (b : Bytes) → Ends (suc (length b)) (string len b)
unfolding string
string-Ends len b = chars-Ends len (suc (length b)) [] b (omega arith)

digits_or-Ends : (len : ℕ) (msg : Text) (b : Bytes) → Ends (length b + 0) (digits_or len msg b)
digits_or-Ends len msg [] = ground arith
digits_or-Ends len msg (c ∷ b) = ground (arith, length-skip_digits-le b)

int_part-Ends : (len : ℕ) (b : Bytes) → Ends (length b) (int_part len b)
int_part-Ends len [] = ground arith
int_part-Ends len (c ∷ b) = ground (arith, digits_or-Ends len (codes "bad number") (c ∷ b))

skip_sign-le : (b : Bytes) → length (skip_sign b) ≤ length b
skip_sign-le [] = omega arith
skip_sign-le (c ∷ b) = ground arith

frac_part-Ends : (len : ℕ) (b : Bytes) → Ends (suc (length b)) (frac_part len b)
frac_part-Ends len [] = omega arith
frac_part-Ends len (c ∷ b) =
    let digits =
      weaken-Ends (length b + 0) (suc (suc (length b))) (digits_or len (codes "bad fraction") b)
        (digits_or-Ends len (codes "bad fraction") b) (omega arith) in
    ground arith

exp_part-Ends : (len : ℕ) (b : Bytes) → Ends (suc (length b)) (exp_part len b)
exp_part-Ends len [] = omega arith
exp_part-Ends len (c ∷ b) =
    let digits =
      weaken-Ends (length (skip_sign b) + 0) (suc (suc (length b)))
        (digits_or len (codes "bad exponent") (skip_sign b))
        (digits_or-Ends len (codes "bad exponent") (skip_sign b)) (omega (arith, skip_sign-le b)) in
    ground arith

skip_minus-Ends : (b : Bytes) → Ends (suc (length b)) (skip_minus b)
skip_minus-Ends [] = omega arith
skip_minus-Ends (c ∷ b) = ground arith

scan_number-Ends : (len : ℕ) (b : Bytes) → Ends (length b) (scan_number len b)
unfolding scan_number
scan_number-Ends len b =
    bind-Ends (length b) (length b) ((skip_minus >> int_part len) >> frac_part len)
      (λ _. exp_part len) b
      (bind-Ends (length b) (length b) (skip_minus >> int_part len) (λ _. frac_part len) b
        (bind-Ends (suc (length b)) (length b) skip_minus (λ _. int_part len) b (skip_minus-Ends b)
          λ _ rest h.
            weaken-Ends (length rest) (length b) (int_part len rest) (int_part-Ends len rest)
              (omega arith))
        λ _ rest h.
          weaken-Ends (suc (length rest)) (length b) (frac_part len rest) (frac_part-Ends len rest)
            (omega arith))
      λ _ rest h.
        weaken-Ends (suc (length rest)) (length b) (exp_part len rest) (exp_part-Ends len rest)
          (omega arith)

pub number-Ends : (len : ℕ) (b : Bytes) → Ends (length b) (number len b)
unfolding number
number-Ends len b =
    bind-Ends (length b) (length b) (scan_number len) _ b (scan_number-Ends len b) λ _ rest h. h

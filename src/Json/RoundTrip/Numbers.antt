-- ===== src/Json/RoundTrip/Numbers.antt =====
-- Numbers of backend/src/json.rs in front of other input.
use tldr_tv.Prelude.{
  ℕ, ◌-◌, ◌≡◌, refl, ap, ap₂, sym, ◌∙◌, true, false, ◌||◌, [], ◌∷◌, ◌++◌, arith, append-nil,
  nat_beq, length, length-append, take, Bool,
}
use tldr_tv.Prelude.Text.{Bytes, codes, is_ascii_digit}
use tldr_tv.Prelude.Exec.{ok, ◌>>◌, bind_to, bind_ok}
use tldr_tv.Json.{Json, num}
use tldr_tv.Json.Decimal.{parse_f64}
use tldr_tv.Json.Float.{Float64}
use tldr_tv.Json.RoundTrip.Scalars.{take-append}
use tldr_tv.Json.Parser.Scan.{
  Parser, scan_number, number, skip_digits, skip_minus, skip_sign, digits_or, int_part, frac_part,
  exp_part,
}

abbrev continues_number : ℕ → Bool
continues_number c = is_ascii_digit c || nat_beq c b'.' || nat_beq c b'e' || nat_beq c b'E'

-- No number goes on with this input.
abbrev pub Stops : Bytes → Type 0
Stops [] = Unit
Stops (c ∷ b) = continues_number c ≡ false

-- What `p` leaves of an input it also leaves when more is behind the input.
abbrev Extends : Bytes → Parser (Unit {0}) → Type 0
Extends rest p = (b b' : Bytes) → p b ≡ (ok tt, b') → p (b ++ rest) ≡ (ok tt, b' ++ rest)

skip_digits-stop : (rest : Bytes) → Stops rest → skip_digits rest ≡ rest
unfolding skip_digits
skip_digits-stop [] h = refl
skip_digits-stop (c ∷ b) h = ground arith

skip_digits-append : (b rest : Bytes) → Stops rest → skip_digits (b ++ rest) ≡ skip_digits b ++ rest
unfolding skip_digits
skip_digits-append [] rest h = skip_digits-stop rest h
skip_digits-append (c ∷ b) rest h = ground (arith, skip_digits-append b rest h)

frac_part-stop : (len : ℕ) (rest : Bytes) → Stops rest → frac_part len rest ≡ (ok tt, rest)
frac_part-stop len [] h = refl
frac_part-stop len (c ∷ b) h = ground arith

exp_part-stop : (len : ℕ) (rest : Bytes) → Stops rest → exp_part len rest ≡ (ok tt, rest)
exp_part-stop len [] h = refl
exp_part-stop len (c ∷ b) h = ground arith

module _ (len : ℕ) (rest : Bytes) (h : Stops rest) where
  digits_or-Extends : (msg : _) → Extends rest (digits_or len msg)
  digits_or-Extends msg [] b' e = cc
  digits_or-Extends msg (c ∷ b) b' e = ground (arith, skip_digits-append b rest h)

  int_part-Extends : Extends rest (int_part len)
  int_part-Extends [] b' e = cc
  int_part-Extends (c ∷ b) b' e = ground (arith, skip_digits-append b rest h)

  frac_part-Extends : Extends rest (frac_part len)
  frac_part-Extends [] b' e =
      frac_part-stop len rest h ∙ ap (λ t. (ok tt, t ++ rest)) (ap (λ r. r.1) e)
  frac_part-Extends (c ∷ b) b' e = ground (arith, digits_or-Extends (codes "bad fraction") b b')

  signed_digits-Extends : Extends rest (λ b. digits_or len (codes "bad exponent") (skip_sign b))
  signed_digits-Extends [] b' e = cc
  signed_digits-Extends (c ∷ b) b' e = ground (
    arith,
    digits_or-Extends (codes "bad exponent") b b',
    digits_or-Extends (codes "bad exponent") (c ∷ b) b',
  )

  exp_part-Extends : Extends rest (exp_part len)
  exp_part-Extends [] b' e =
      exp_part-stop len rest h ∙ ap (λ t. (ok tt, t ++ rest)) (ap (λ r. r.1) e)
  exp_part-Extends (c ∷ b) b' e = ground (arith, signed_digits-Extends b b')

  signed_int-Extends : Extends rest (skip_minus >> int_part len)
  signed_int-Extends [] b' e = cc
  signed_int-Extends (c ∷ b) b' e =
      ground (arith, int_part-Extends b b', int_part-Extends (c ∷ b) b')

  bind-Extends : (p q : Parser (Unit {0})) → Extends rest p → Extends rest q → Extends rest (p >> q)
  bind-Extends p q first second b b' e =
      let (a, done, goes_on) = bind_ok p (λ _. q) b tt (ap (λ r. r.0) e) in
      let before : p b ≡ (ok tt, (p b).1) = ap (λ r. (r, (p b).1)) done in
      bind_to p (λ _. q) (b ++ rest) tt ((p b).1 ++ rest) (first b (p b).1 before)
      ∙ second (p b).1 b' (sym goes_on ∙ e)

  scan_number-Extends : Extends rest (scan_number len)
  unfolding scan_number
  scan_number-Extends =
      bind-Extends ((skip_minus >> int_part len) >> frac_part len) (exp_part len)
        (bind-Extends (skip_minus >> int_part len) (frac_part len) signed_int-Extends
          frac_part-Extends)
        exp_part-Extends

take-whole : (xs ys : Bytes) → take (length (xs ++ ys) - length ys) (xs ++ ys) ≡ xs
take-whole xs ys =
    let n : length (xs ++ ys) - length ys ≡ length xs = omega (arith, length-append xs ys) in
    rw n (take-append xs ys)

take_all : (xs : Bytes) → take (length xs - length {A = ℕ} []) xs ≡ xs
take_all xs =
    let n : length xs - 0 ≡ length xs = omega arith in
    rw n (ap (take (length xs)) (sym (append-nil xs)) ∙ take-append xs [])

-- what `number` answers for the input `b` and what is left of it
abbrev answer : Bytes → Unit {0} → Parser Json
answer b _ rest = (ok (num (parse_f64 (take (length b - length rest) b))), rest)

-- A number that is read to the end of its text is read the same in front of other input.
pub number-append :
    (len : ℕ) (x : Float64) (b rest : Bytes)
    → number len b ≡ (ok (num x), [])
    → Stops rest
    → number len (b ++ rest) ≡ (ok (num x), rest)
unfolding number
number-append len x b rest e h =
    let (a, done, goes_on) = bind_ok (scan_number len) (answer b) b (num x) (ap (λ r. r.0) e) in
    let end : (scan_number len b).1 ≡ [] = ap (λ r. r.1) (sym goes_on ∙ e) in
    let alone : scan_number len b ≡ (ok tt, []) = ap₂ (λ r t. (r, t)) done end in
    let value : ok (num (parse_f64 b)) ≡ ok (num x) =
      ap (λ t. ok (num (parse_f64 t))) (sym (take_all b))
      ∙ ap (λ r. r.0) (sym (bind_to (scan_number len) (answer b) b tt [] alone) ∙ e) in
    bind_to (scan_number len) (answer (b ++ rest)) (b ++ rest) tt rest
      (scan_number-Extends len rest h b [] alone)
    ∙ ap (λ t. (ok (num (parse_f64 t)), rest)) (take-whole b rest)
    ∙ ap (λ r. (r, rest)) value

-- how the text of a number begins
pub number-first :
    (len : ℕ) (x : Float64) (b rest : Bytes)
    → number len b ≡ (ok (num x), [])
    → (c : ℕ) × (bs : Bytes) × (b ≡ c ∷ bs) × ((nat_beq c b'-' || is_ascii_digit c) ≡ true)
unfolding number scan_number
number-first len x [] rest e = cc
number-first len x (c ∷ bs) rest e = (c, bs, refl, ground arith)

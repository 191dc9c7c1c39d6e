-- ===== src/Json/RoundTrip/Chars.antt =====
-- Strings of backend/src/json.rs, written and read.
use tldr_tv.Prelude.{
  ℕ, zero, suc, ◌+◌, ◌*◌, ◌/◌, ◌%◌, ◌≤◌, ◌<◌, ◌≡◌, ◌∙◌, refl, ap, true, [], ◌∷◌, ◌++◌, arith,
  append_assoc, append-nil, nat_beq, ltb, length, length-append, All, list_eq, nat_eq, nat_beq_iff,
  ltb→lt, subst, sym, ite_cases,
}
use tldr_tv.Prelude.Text.{Bytes, Text, utf8, utf8_char}
use tldr_tv.Prelude.Exec.{ok, bind_to}
use tldr_tv.Json.Print.{write_char, write_chars, hex4_text}
use tldr_tv.Json.Parser.Scan.{hex4, code_point, escape, chars, string}
use tldr_tv.Json.RoundTrip.Scalars.{
  IsScalar, utf8-append, IsPlain, utf8_char-first, scalar-utf8_char, chars_raw, chars_escaped,
  utf8_char-hex_digit, hex4-digits, code_point-control,
}

-- the escape of a control character
escape-control :
    (len c : ℕ) (rest : Bytes)
    → c < 0x20
    → escape len (utf8 (b'u' ∷ hex4_text c) ++ rest) ≡ (ok c, rest)
unfolding escape
escape-control len c rest h =
    let sum : ((c / 4096 * 16 + c / 256 % 16) * 16 + c / 16 % 16) * 16 + c % 16 ≡ c = omega arith in
    let text : utf8 (hex4_text c) ++ rest ≡ hex4_text c ++ rest =
      rw
        (
          utf8_char-hex_digit (c / 4096) (omega arith),
          utf8_char-hex_digit (c / 256 % 16) (omega arith),
          utf8_char-hex_digit (c / 16 % 16) (omega arith),
          utf8_char-hex_digit (c % 16) (omega arith),
        )
        refl in
    let digits : hex4 len (hex4_text c ++ rest) ≡ (ok _, rest) =
      hex4-digits len (c / 4096) (c / 256 % 16) (c / 16 % 16) (c % 16) rest (omega arith)
        (omega arith) (omega arith) (omega arith) in
    let read : hex4 len (utf8 (hex4_text c) ++ rest) ≡ (ok c, rest) =
      ap (hex4 len) text ∙ digits ∙ ap (λ v. (ok v, rest)) sum in
    bind_to (hex4 len) (code_point len) (utf8 (hex4_text c) ++ rest) c rest read
    ∙ code_point-control len c rest h

-- One round of the reader takes the character that one round of the writer wrote.
abbrev Reads : ℕ → Text → Type 0
Reads c written =
    (len f : ℕ) (out : Text) (rest : Bytes)
    → chars len (suc f) out (utf8 written ++ rest) ≡ chars len f (out ++ c ∷ []) rest

raw-Reads : (c : ℕ) → IsScalar c → IsPlain c → Reads c (c ∷ [])
raw-Reads c h plain len f out rest =
    let (b, bs, first, size, plain') = utf8_char-first c plain in
    rw (append-nil (utf8_char c), first)
      (chars_raw len f out b (bs ++ rest) c rest plain'
        (scalar-utf8_char len c b bs rest h first size))

-- a two-character escape
short-Reads :
    (c e : ℕ)
    → ((len : ℕ) (rest : Bytes) → escape len (e ∷ rest) ≡ (ok c, rest))
    → ltb e 0x80 ≡ true
    → Reads c (b'\\' ∷ e ∷ [])
short-Reads c e reads low len f out rest =
    rw low (chars_escaped len f out (e ∷ rest) c rest (reads len rest))

control-Reads : (c : ℕ) → c < 0x20 → Reads c (b'\\' ∷ b'u' ∷ hex4_text c)
control-Reads c h len f out rest =
    chars_escaped len f out (utf8 (b'u' ∷ hex4_text c) ++ rest) c rest (escape-control len c rest h)

-- the text of a character with a short escape, and of any other
pub write_char-cases :
    (P : ℕ → Text → Type 0)
    → P b'"' (b'\\' ∷ b'"' ∷ [])
    → P b'\\' (b'\\' ∷ b'\\' ∷ [])
    → P 0x0a (b'\\' ∷ b'n' ∷ [])
    → P 0x0d (b'\\' ∷ b'r' ∷ [])
    → P 0x09 (b'\\' ∷ b't' ∷ [])
    → P 0x08 (b'\\' ∷ b'b' ∷ [])
    → P 0x0c (b'\\' ∷ b'f' ∷ [])
    → ((c : ℕ) → c < 0x20 → P c (b'\\' ∷ b'u' ∷ hex4_text c))
    → ((c : ℕ) → IsPlain c → P c (c ∷ []))
    → (c : ℕ) → P c (write_char c)
unfolding write_char
write_char-cases P quote back n r t b f control plain c =
    ite_cases (P c) (nat_beq c b'"') _ _ (λ e. here b'"' _ e quote)
      λ e0.
        ite_cases (P c) (nat_beq c b'\\') _ _ (λ e. here b'\\' _ e back)
          λ e1.
            ite_cases (P c) (nat_beq c 0x0a) _ _ (λ e. here 0x0a _ e n)
              λ e2.
                ite_cases (P c) (nat_beq c 0x0d) _ _ (λ e. here 0x0d _ e r)
                  λ e3.
                    ite_cases (P c) (nat_beq c 0x09) _ _ (λ e. here 0x09 _ e t)
                      λ e4.
                        ite_cases (P c) (nat_beq c 0x08) _ _ (λ e. here 0x08 _ e b)
                          λ e5.
                            ite_cases (P c) (nat_beq c 0x0c) _ _ (λ e. here 0x0c _ e f)
                              λ e6.
                                ite_cases (P c) (ltb c 0x20) _ _ (λ e. control c (ltb→lt c 0x20 e))
                                  λ e7. plain c (e0, e1, e7)
  where
    here : (d : ℕ) (s : Text) → nat_beq c d ≡ true → P d s → P c s
    here d s e p = subst (λ x. P x s) (sym ((nat_beq_iff c d).0 e)) p

write_char-Reads : (c : ℕ) → IsScalar c → Reads c (write_char c)
unfolding escape
write_char-Reads c =
    write_char-cases (λ c s. IsScalar c → Reads c s)
      (λ h. short-Reads b'"' b'"' (λ len rest. refl) refl)
      (λ h. short-Reads b'\\' b'\\' (λ len rest. refl) refl)
      (λ h. short-Reads 0x0a b'n' (λ len rest. refl) refl)
      (λ h. short-Reads 0x0d b'r' (λ len rest. refl) refl)
      (λ h. short-Reads 0x09 b't' (λ len rest. refl) refl)
      (λ h. short-Reads 0x08 b'b' (λ len rest. refl) refl)
      (λ h. short-Reads 0x0c b'f' (λ len rest. refl) refl) (λ c low h. control-Reads c low)
      (λ c plain h. raw-Reads c h plain) c

length-write_char : (c : ℕ) → 1 ≤ length (write_char c)
unfolding write_char
length-write_char c = ground arith

chars-write_chars :
    (s : Text) (len f : ℕ) (out : Text) (rest : Bytes)
    → All IsScalar s
    → length s < f
    → chars len f out (utf8 (write_chars s) ++ rest) ≡ (ok (out ++ s), rest)
unfolding write_chars chars
chars-write_chars s len zero out rest h enough = absurd (omega arith)
chars-write_chars [] len (suc f) out rest h enough = rw (append-nil out) refl
chars-write_chars (c ∷ s) len (suc f) out rest (first, others) enough =
    let split : utf8 (write_char c ++ write_chars s) ++ rest
        ≡ utf8 (write_char c) ++ (utf8 (write_chars s) ++ rest) =
      rw (utf8-append (write_char c) (write_chars s))
        (append_assoc (utf8 (write_char c)) (utf8 (write_chars s)) rest) in
    let read = write_char-Reads c first len f out (utf8 (write_chars s) ++ rest) in
    let more = chars-write_chars s len f (out ++ c ∷ []) rest others (omega arith) in
    let joined : (out ++ c ∷ []) ++ s ≡ out ++ c ∷ s = append_assoc out (c ∷ []) s in
    ap (chars len (suc f) out) split ∙ read ∙ more ∙ ap (λ t. (ok t, rest)) joined

length-utf8-le : (s : Text) → length s ≤ length (utf8 s)
length-utf8-le [] = omega arith
length-utf8-le (c ∷ s) =
    let first : 1 ≤ length (utf8_char c) = ground arith in
    omega (arith, length-utf8-le s, length-append (utf8_char c) (utf8 s))

length-write_chars : (s : Text) → length s < length (write_chars s)
unfolding write_chars
length-write_chars [] = omega arith
length-write_chars (c ∷ s) =
    omega (
      arith,
      length-write_chars s,
      length-write_char c,
      length-append (write_char c) (write_chars s),
    )

-- The reader of strings takes a written string off the front of any input.
pub string-write_chars :
    (s : Text) (len : ℕ) (rest : Bytes)
    → All IsScalar s
    → string len (utf8 (write_chars s) ++ rest) ≡ (ok s, rest)
unfolding string
string-write_chars s len rest h =
    chars-write_chars s len (suc (length (utf8 (write_chars s) ++ rest))) [] rest h (
      omega (
        arith,
        length-append (utf8 (write_chars s)) rest,
        length-utf8-le (write_chars s),
        length-write_chars s,
      ))

-- ===== src/Http/Reader/Ends.antt =====
-- The end of the parts of `read_request` of backend/src/http.rs.
use tldr_tv.Prelude.{
  some_passes, ◌==◌, list_eq, nat_eq, ℕ, zero, suc, ◌+◌, ◌≤◌, ◌<◌, ◌≡◌, ◌≢◌, refl, Bool, true,
  false, ◌&&◌, ◌||◌, not, Option, none, some, List, [], ◌∷◌, arith, inl, inr, Bool-cases, ltb,
  nat_beq, length, is_nil, if◌then◌else◌,
}
use tldr_tv.Prelude.Text.{Bytes, Text, codes, trim, eq_ignore_ascii_case}
use tldr_tv.Json.Decimal.{parse_unsigned}
use tldr_tv.Prelude.Exec.{Outcome, ok, err, continue, raise, ◌>>=◌}
use tldr_tv.Crypto.Sha256.Blocks.{length-drop}
use tldr_tv.Http.{first_header}
use tldr_tv.Http.Reader.{
  get_all, Ending, closed, stalled, broken, Socket, Config, ReadStop, out_of_fuel, Reader, bad,
  cut_line, unfinished, line_from, read_line_limited, missing, read_exact_timed, trim_eol, or_bad,
  chunk_size, read_trailer, read_data, read_chunked, read_sized, read_encoded, read_body,
}

-- A run that did not stop for want of fuel, with what holds of its value and of the number of bytes
-- that are left.
abbrev pub Ends : {A : Type 0} → (A → ℕ → Type 0) → Outcome ReadStop A × Socket → Type 0
Ends Q (ok a, s) = Q a (length s.bytes)
Ends Q (err e, s) = e ≢ out_of_fuel

module _ {A B : Type 0} where
  continue-Ends :
      (Q : A → ℕ → Type 0) (R : B → ℕ → Type 0) (r : Outcome ReadStop A) (s : Socket)
      (f : A → Reader B)
      → Ends Q (r, s)
      → ((a : A) (s : Socket) → Q a (length s.bytes) → Ends R (f a s))
      → Ends R (continue r f s)
  continue-Ends Q R (ok a) s f h rest = rest a s h
  continue-Ends Q R (err e) s f h rest = h

  pub bind-Ends :
      (Q : A → ℕ → Type 0) (R : B → ℕ → Type 0) (m : Reader A) (f : A → Reader B) (s : Socket)
      → Ends Q (m s)
      → ((a : A) (s : Socket) → Q a (length s.bytes) → Ends R (f a s))
      → Ends R ((m >>= f) s)
  bind-Ends Q R m f s h rest = continue-Ends Q R (m s).0 (m s).1 f h rest

pub if-Ends :
    {A : Type 0} (Q : A → ℕ → Type 0) (b : Bool) (m n : Reader A) (s : Socket)
    → (b ≡ true → Ends Q (m s))
    → (b ≡ false → Ends Q (n s))
    → Ends Q ((if b then m else n) s)
if-Ends Q true m n s taken other = taken refl
if-Ends Q false m n s taken other = other refl

-- A line and what is left are no longer than what was there.
abbrev pub Leaves : Socket → Bytes × ℕ → ℕ → Type 0
Leaves s got n = n + length got.0 ≤ length s.bytes

-- No more is left than what was there.
abbrev pub Within : {A : Type 0} → Socket → A → ℕ → Type 0
Within s a n = n ≤ length s.bytes

pub or_bad-Ends : {A : Type 0} (o : Option A) (s : Socket) → Ends (Within s) (or_bad o s)
or_bad-Ends none s = λ h. cc
or_bad-Ends (some a) s = omega arith

-- A line and what is behind it make up the bytes.
Cuts : Bytes → Option (Bytes × Bytes) → Type 0
Cuts b none = Unit
Cuts b (some (line, rest)) = length rest + length line ≡ length b

-- one more byte before a line
cons_line : ℕ → Option (Bytes × Bytes) → Option (Bytes × Bytes)
cons_line c none = none
cons_line c (some (line, rest)) = some (c ∷ line, rest)

cons_line-Cuts :
    (c : ℕ) (b : Bytes) (o : Option (Bytes × Bytes)) → Cuts b o → Cuts (c ∷ b) (cons_line c o)
unfolding Cuts cons_line
cons_line-Cuts c b none h = tt
cons_line-Cuts c b (some (line, rest)) h = omega arith

cut_line-Cuts : (b : Bytes) → Cuts b (cut_line b)
unfolding Cuts cons_line
cut_line-Cuts [] = tt
cut_line-Cuts (c ∷ b) = elim (Bool-cases (nat_beq c 10)) [
  | inl e ↦ rw e (omega arith)
  | inr e ↦ rw e (cons_line-Cuts c b (cut_line b) (cut_line-Cuts b))
]

unfinished-Ends :
    (e : Ending) (started : Bool) (used : ℕ) (b : Bytes) (s : Socket)
    → Ends
        (λ got n. n + length got.0 ≤ length b)
        (unfinished e started used b, record s { bytes = [] })
unfinished-Ends closed started used [] s = omega arith
unfinished-Ends closed started used (c ∷ b) s = λ h. cc
unfinished-Ends stalled true used b s = λ h. cc
unfinished-Ends stalled false used b s = λ h. cc
unfinished-Ends broken started used b s = λ h. cc

line_from-Ends :
    (used max : ℕ) (started : Bool) (s : Socket) (o : Option (Bytes × Bytes))
    → Cuts s.bytes o
    → Ends (Leaves s) (line_from used max started s o)
unfolding Cuts
line_from-Ends used max started s none h =
    elim (Bool-cases (not (is_nil s.bytes) && ltb max (used + length s.bytes))) [
      | inl e ↦ rw e (λ h. cc)
      | inr e ↦ rw e (unfinished-Ends s.ending started used s.bytes s)
    ]
line_from-Ends used max started s (some (line, rest)) h =
    elim (Bool-cases (ltb max (used + length line))) [
      | inl e ↦ rw e (λ h. cc)
      | inr e ↦ rw e (omega arith)
    ]

pub read_line_limited-Ends :
    (used max : ℕ) (started : Bool) (s : Socket)
    → Ends (Leaves s) (read_line_limited used max started s)
unfolding read_line_limited
read_line_limited-Ends used max started s =
    line_from-Ends used max started s (cut_line s.bytes) (cut_line-Cuts s.bytes)

missing-Ends : (e : Ending) → missing e ≢ out_of_fuel
missing-Ends closed = λ h. cc
missing-Ends stalled = λ h. cc
missing-Ends broken = λ h. cc

pub read_exact_timed-Ends : (n : ℕ) (s : Socket) → Ends (Within s) (read_exact_timed n s)
unfolding read_exact_timed
read_exact_timed-Ends n s = elim (Bool-cases (ltb (length s.bytes) n)) [
  | inl e ↦ rw e (missing-Ends s.ending)
  | inr e ↦ rw e (omega (arith, length-drop n s.bytes))
]

pub weaken-Ends :
    {A : Type 0} (Q R : A → ℕ → Type 0) (r : Outcome ReadStop A × Socket)
    → ((a : A) (n : ℕ) → Q a n → R a n)
    → Ends Q r
    → Ends R r
weaken-Ends Q R (ok a, s) f h = f a (length s.bytes) h
weaken-Ends Q R (err e, s) f h = h

pub some_bytes : (b : Bytes) → is_nil b ≡ false → 1 ≤ length b
some_bytes [] h = cc
some_bytes (c ∷ b) h = omega arith

read_trailer-Ends :
    (fuel : ℕ) (cfg : Config) (used : ℕ) (s : Socket)
    → length s.bytes < fuel
    → Ends (Within s) (read_trailer fuel cfg used s)
read_trailer-Ends zero cfg used s h = absurd (omega arith)
read_trailer-Ends (suc fuel) cfg used s h =
    bind-Ends (Leaves s) (Within s) (read_line_limited used cfg.max_header_bytes true) _ s
      (read_line_limited-Ends used cfg.max_header_bytes true s)
      (λ got s' left.
        if-Ends (Within s) (is_nil got.0) _ _ s' (λ e h. cc)
          (λ e.
            if-Ends (Within s) (is_nil (trim_eol got.0)) _ _ s' (λ e. omega arith)
              (λ e'.
                weaken-Ends (Within s') (Within s) (read_trailer fuel cfg got.1 s')
                  (λ a n h. omega arith)
                  (read_trailer-Ends fuel cfg got.1 s' (omega (arith, some_bytes got.0 e))))))

read_data-Ends :
    (cfg : Config) (out : Bytes) (size : ℕ) (s : Socket)
    → Ends (Within s) (read_data cfg out size s)
read_data-Ends cfg out size s =
    if-Ends (Within s) (ltb cfg.max_body_bytes size || ltb cfg.max_body_bytes (length out + size)) _
      _ s (λ e h. cc)
      (λ e.
        bind-Ends (Within s) (Within s) (read_exact_timed size) _ s (read_exact_timed-Ends size s)
          (λ chunk s1 left1.
            bind-Ends (Within s1) (Within s) (read_exact_timed 2) _ s1 (read_exact_timed-Ends 2 s1)
              (λ crlf s2 left2.
                if-Ends (Within s) (crlf == codes "\r\n") _ _ s2 (λ e. omega arith) (λ e h. cc))))

read_chunked-Ends :
    (fuel : ℕ) (cfg : Config) (used : ℕ) (out : Bytes) (s : Socket)
    → length s.bytes < fuel
    → Ends (Within s) (read_chunked fuel cfg used out s)
unfolding read_chunked
read_chunked-Ends zero cfg used out s h = absurd (omega arith)
read_chunked-Ends (suc fuel) cfg used out s h =
    bind-Ends (Leaves s) (Within s) (read_line_limited 0 1024 true) _ s
      (read_line_limited-Ends 0 1024 true s)
      (λ got s1 left.
        if-Ends (Within s) (is_nil got.0) _ _ s1 (λ e h. cc)
          (λ e.
            bind-Ends (Within s1) (Within s) (or_bad (chunk_size got.0)) _ s1
              (or_bad-Ends (chunk_size got.0) s1)
              (λ size s2 left2.
                if-Ends (Within s) (nat_beq size 0) _ _ s2
                  (λ e'.
                    bind-Ends (Within s2) (Within s) (read_trailer fuel cfg used) _ s2
                      (read_trailer-Ends fuel cfg used s2 (omega (arith, some_bytes got.0 e)))
                      (λ u s3 left3. omega arith))
                  (λ e'.
                    bind-Ends (Within s2) (Within s) (read_data cfg out size) _ s2
                      (read_data-Ends cfg out size s2)
                      (λ longer s3 left3.
                        weaken-Ends (Within s3) (Within s) (read_chunked fuel cfg used longer s3)
                          (λ a n h. omega arith)
                          (read_chunked-Ends fuel cfg used longer s3
                            (omega (arith, some_bytes got.0 e))))))))

read_sized-Ends :
    (cfg : Config) (lens : List Text) (s : Socket) → Ends (Within s) (read_sized cfg lens s)
read_sized-Ends cfg [] s = omega arith
read_sized-Ends cfg (v ∷ lens) s =
    if-Ends (Within s) (some_passes (λ w. not (w == v)) lens) _ _ s (λ e h. cc)
      (λ e.
        let len = parse_unsigned 64 (trim v) in
        bind-Ends (Within s) (Within s) (or_bad len) _ s (or_bad-Ends len s) (λ len s1 left1.
          if-Ends (Within s) (ltb cfg.max_body_bytes len) _ _ s1 (λ e h. cc)
            (λ e.
              weaken-Ends (Within s1) (Within s) (read_exact_timed len s1) (λ a n h. omega arith)
                (read_exact_timed-Ends len s1))))

pub read_body-Ends :
    (fuel : ℕ) (cfg : Config) (headers : List (Text × Text)) (used : ℕ) (s : Socket)
    → length s.bytes < fuel
    → Ends (Within s) (read_body fuel cfg headers used s)
unfolding read_body
read_body-Ends fuel cfg headers used s h =
    body-Ends (first_header (codes "transfer-encoding") headers)
  where
    lens : List Text
    lens = get_all (codes "content-length") headers

    framed : Option Text → Reader Bytes
    framed none = read_sized cfg lens
    framed (some te) = if not (is_nil lens) then raise bad else read_encoded fuel cfg used te

    body-Ends : (te : Option Text) → Ends (Within s) (framed te s)
    body-Ends none = read_sized-Ends cfg lens s
    body-Ends (some te) =
        if-Ends (Within s) (not (is_nil lens)) _ _ s (λ e h. cc)
          (λ e.
            if-Ends (Within s) (not (eq_ignore_ascii_case (trim te) (codes "chunked"))) _ _ s
              (λ e h. cc) (λ e. read_chunked-Ends fuel cfg used [] s h))

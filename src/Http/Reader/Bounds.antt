-- ===== src/Http/Reader/Bounds.antt =====
-- The bodies that backend/src/http.rs reads.
use tldr_tv.Prelude.{
  ℕ, zero, suc, ◌+◌, ◌≤◌, ◌≡◌, ◌⊎◌, refl, Bool, true, false, ◌||◌, not, Option, none, some, List,
  [], ◌∷◌, ◌==◌, list_eq, nat_eq, arith, inl, inr, Bool-cases, or_false, ltb_false→le, some_passes,
  ltb, nat_beq, length, length-append, is_nil, if◌then◌else◌,
}
use tldr_tv.Prelude.Text.{Bytes, Text, codes, trim, eq_ignore_ascii_case}
use tldr_tv.Prelude.Exec.{Outcome, ok, err, continue, raise, ◌>>=◌}
use tldr_tv.Json.Decimal.{parse_unsigned}
use tldr_tv.Crypto.Sha256.Blocks.{length-take}
use tldr_tv.Http.{first_header}
use tldr_tv.Http.Reader.{
  Socket, Config, ReadStop, Reader, bad, read_line_limited, read_exact_timed, or_bad, read_data,
  read_chunked, chunk_size, read_trailer, read_sized, read_encoded, read_body, get_all,
}

-- A value, if it is answered, is of the kind.
abbrev pub Yields : {A : Type 0} → (A → Type 0) → Outcome ReadStop A × Socket → Type 0
Yields P (ok a, s) = P a
Yields P (err e, s) = Unit

module _ {A B : Type 0} (P : A → Type 0) (Q : B → Type 0) where
  continue-Yields :
      (r : Outcome ReadStop A) (s : Socket) (f : A → Reader B)
      → Yields P (r, s)
      → ((a : A) (s : Socket) → P a → Yields Q (f a s))
      → Yields Q (continue r f s)
  continue-Yields (ok a) s f h rest = rest a s h
  continue-Yields (err e) s f h rest = tt

  pub bind-Yields :
      (m : Reader A) (f : A → Reader B) (s : Socket)
      → Yields P (m s)
      → ((a : A) (s : Socket) → P a → Yields Q (f a s))
      → Yields Q ((m >>= f) s)
  bind-Yields m f s h rest = continue-Yields (m s).0 (m s).1 f h rest

abbrev Anything : {A : Type 0} → A → Type 0
Anything a = Unit

anything : {A : Type 0} (r : Outcome ReadStop A × Socket) → Yields Anything r
anything (ok a, s) = tt
anything (err e, s) = tt

-- code whose first part may answer anything
pub skip-Yields :
    {A B : Type 0} (Q : B → Type 0) (m : Reader A) (f : A → Reader B) (s : Socket)
    → ((a : A) (s : Socket) → Yields Q (f a s))
    → Yields Q ((m >>= f) s)
skip-Yields Q m f s rest = bind-Yields Anything Q m f s (anything (m s)) (λ a s h. rest a s)

unless-Yields :
    {A : Type 0} (Q : A → Type 0) (b : Bool) (e : ReadStop) (n : Reader A) (s : Socket)
    → (b ≡ false → Yields Q (n s))
    → Yields Q ((if b then raise e else n) s)
unless-Yields Q true e n s h = tt
unless-Yields Q false e n s h = h refl

pub if-Yields :
    {A : Type 0} (Q : A → Type 0) (b : Bool) (m n : Reader A) (s : Socket)
    → Yields Q (m s)
    → Yields Q (n s)
    → Yields Q ((if b then m else n) s)
if-Yields Q true m n s h k = h
if-Yields Q false m n s h k = k

weaken-Yields :
    {A : Type 0} (P Q : A → Type 0) (r : Outcome ReadStop A × Socket)
    → ((a : A) → P a → Q a)
    → Yields P r
    → Yields Q r
weaken-Yields P Q (ok a, s) f h = f a h
weaken-Yields P Q (err e, s) f h = tt

abbrev AtMost : ℕ → Bytes → Type 0
AtMost n b = length b ≤ n

read_exact_timed-AtMost : (n : ℕ) (s : Socket) → Yields (AtMost n) (read_exact_timed n s)
unfolding read_exact_timed
read_exact_timed-AtMost n s = elim (Bool-cases (ltb (length s.bytes) n)) [
  | inl e ↦ rw e tt
  | inr e ↦ rw e (omega (arith, length-take n s.bytes))
]

read_data-AtMost :
    (cfg : Config) (out : Bytes) (size : ℕ) (s : Socket)
    → Yields (AtMost cfg.max_body_bytes) (read_data cfg out size s)
read_data-AtMost cfg out size s =
    let P = AtMost cfg.max_body_bytes in
    unless-Yields P (ltb cfg.max_body_bytes size || ltb cfg.max_body_bytes (length out + size)) _ _
      s
      (λ e.
        let (one, both) =
          or_false (ltb cfg.max_body_bytes size) (ltb cfg.max_body_bytes (length out + size)) e in
        bind-Yields (AtMost size) P (read_exact_timed size) _ s (read_exact_timed-AtMost size s)
          (λ chunk s1 short. skip-Yields P (read_exact_timed 2) _ s1 (λ crlf s2.
            if-Yields P (crlf == codes "\r\n") _ _ s2
              (omega (
                arith,
                length-append out chunk,
                ltb_false→le (cfg.max_body_bytes) (length out + size) both,
              ))
              tt)))

read_chunked-AtMost :
    (fuel : ℕ) (cfg : Config) (used : ℕ) (out : Bytes) (s : Socket)
    → length out ≤ cfg.max_body_bytes
    → Yields (AtMost cfg.max_body_bytes) (read_chunked fuel cfg used out s)
unfolding read_chunked
read_chunked-AtMost zero cfg used out s h = tt
read_chunked-AtMost (suc fuel) cfg used out s h =
    let P = AtMost cfg.max_body_bytes in
    skip-Yields P (read_line_limited 0 1024 true) _ s (λ got s1.
      unless-Yields P (is_nil got.0) _ _ s1 (λ e.
        skip-Yields P (or_bad (chunk_size got.0)) _ s1 (λ size s2.
          if-Yields P (nat_beq size 0) _ _ s2
            (skip-Yields P (read_trailer fuel cfg used) _ s2 (λ u s3. h))
            (bind-Yields P P (read_data cfg out size) _ s2 (read_data-AtMost cfg out size s2)
              (λ longer s3 short. read_chunked-AtMost fuel cfg used longer s3 short)))))

-- The header says in at most one way how long the body is.
abbrev pub IsUnambiguous : List (Text × Text) → Type 0
IsUnambiguous headers =
    (first_header (codes "transfer-encoding") headers ≡ none)
    ⊎ (get_all (codes "content-length") headers ≡ [])

-- a body with what its header says of its length
abbrev pub Framed : Config → List (Text × Text) → Bytes → Type 0
Framed cfg headers body = (length body ≤ cfg.max_body_bytes) × IsUnambiguous headers

read_sized-AtMost :
    (cfg : Config) (lens : List Text) (s : Socket)
    → Yields (AtMost cfg.max_body_bytes) (read_sized cfg lens s)
read_sized-AtMost cfg [] s = omega arith
read_sized-AtMost cfg (v ∷ lens) s =
    let P = AtMost cfg.max_body_bytes in
    unless-Yields P (some_passes (λ w. not (w == v)) lens) _ _ s (λ e.
      skip-Yields P (or_bad (parse_unsigned 64 (trim v))) _ s (λ len s1.
        unless-Yields P (ltb cfg.max_body_bytes len) _ _ s1 (λ small.
          weaken-Yields (AtMost len) P (read_exact_timed len s1)
            (λ b short. omega (arith, ltb_false→le cfg.max_body_bytes len small))
            (read_exact_timed-AtMost len s1))))

-- the two ways to read a body
framed : ℕ → Config → ℕ → List Text → Option Text → Reader Bytes
framed fuel cfg used lens none = read_sized cfg lens
framed fuel cfg used lens (some te) =
    if not (is_nil lens) then raise bad else read_encoded fuel cfg used te

nil_of : (lens : List Text) → not (is_nil lens) ≡ false → lens ≡ []
nil_of [] h = refl
nil_of (v ∷ lens) h = cc

framed-Framed :
    (fuel : ℕ) (cfg : Config) (headers : List (Text × Text)) (used : ℕ) (te : Option Text)
    (s : Socket)
    → first_header (codes "transfer-encoding") headers ≡ te
    → Yields
        (Framed cfg headers)
        (framed fuel cfg used (get_all (codes "content-length") headers) te s)
unfolding framed
framed-Framed fuel cfg headers used none s absent =
    let lens = get_all (codes "content-length") headers in
    weaken-Yields (AtMost cfg.max_body_bytes) (Framed cfg headers) (read_sized cfg lens s)
      (λ b short. (short, inl absent)) (read_sized-AtMost cfg lens s)
framed-Framed fuel cfg headers used (some te) s present =
    let lens = get_all (codes "content-length") headers in
    unless-Yields (Framed cfg headers) (not (is_nil lens)) _ _ s (λ alone.
      unless-Yields (Framed cfg headers) (not (eq_ignore_ascii_case (trim te) (codes "chunked"))) _
        _ s
        (λ chunked.
          weaken-Yields (AtMost cfg.max_body_bytes) (Framed cfg headers)
            (read_chunked fuel cfg used [] s) (λ b short. (short, inr (nil_of lens alone)))
            (read_chunked-AtMost fuel cfg used [] s (omega arith))))

pub read_body-Framed :
    (fuel : ℕ) (cfg : Config) (headers : List (Text × Text)) (used : ℕ) (s : Socket)
    → Yields (Framed cfg headers) (read_body fuel cfg headers used s)
unfolding read_body framed
read_body-Framed fuel cfg headers used s =
    framed-Framed fuel cfg headers used (first_header (codes "transfer-encoding") headers) s refl

-- ===== src/Http/Reader/Termination.antt =====
-- The end of every run of `read_request` of backend/src/http.rs.
use tldr_tv.Prelude.{
  or_false, every, ◌==◌, list_eq, nat_eq, ℕ, zero, suc, ◌<◌, ◌≤◌, ◌≢◌, Bool, true, false, ◌||◌, not,
  Option, none, some, List, [], ◌∷◌, ◌++◌, arith, inl, inr, Bool-cases, length, is_nil,
  if◌then◌else◌,
}
use tldr_tv.Prelude.Text.{Bytes, Text, codes, utf8, split_onto}
use tldr_tv.Prelude.Exec.{Outcome, ok, err, lift, ◌>>◌}
use tldr_tv.Http.Percent.{str_from_utf8}
use tldr_tv.Http.Reader.{
  Parsed, RequestLine, http_version, request_parts, request_line, is_token_byte, refuse_target,
  answer_expect, expects, header_field, is_folded, Socket, Config, ReadStop, refused, out_of_fuel,
  bad, read_line_limited, trim_eol, or_bad, read_body, skip_stray_lines, read_headers, read_rest,
  read_request, read_fuel,
}
use tldr_tv.Http.Wire.{HttpError, parse_target}
use tldr_tv.Http.Reader.Ends.{
  Ends, bind-Ends, if-Ends, weaken-Ends, Leaves, Within, or_bad-Ends, read_line_limited-Ends,
  some_bytes, read_body-Ends,
}

skip_stray_lines-Ends :
    (fuel : ℕ) (cfg : Config) (used : ℕ) (s : Socket)
    → length s.bytes < fuel
    → Ends (Leaves s) (skip_stray_lines fuel cfg used s)
unfolding skip_stray_lines
skip_stray_lines-Ends zero cfg used s h = absurd (omega arith)
skip_stray_lines-Ends (suc fuel) cfg used s h =
    bind-Ends (Leaves s) (Leaves s) (read_line_limited used cfg.max_header_bytes false) _ s
      (read_line_limited-Ends used cfg.max_header_bytes false s)
      (λ got s1 left.
        if-Ends (Leaves s) (is_nil got.0 || not (is_nil (trim_eol got.0))) _ _ s1 (λ e. left)
          (λ e.
            weaken-Ends (Leaves s1) (Leaves s) (skip_stray_lines fuel cfg got.1 s1)
              (λ a n h. omega arith)
              (skip_stray_lines-Ends fuel cfg got.1 s1
                (omega (arith, some_bytes got.0 (or_false _ _ e).0)))))

read_headers-Ends :
    (fuel : ℕ) (cfg : Config) (used : ℕ) (fields : List (Text × Text)) (s : Socket)
    → length s.bytes < fuel
    → Ends (Within s) (read_headers fuel cfg used fields s)
unfolding read_headers
read_headers-Ends zero cfg used fields s h = absurd (omega arith)
read_headers-Ends (suc fuel) cfg used fields s h =
    bind-Ends (Leaves s) (Within s) (read_line_limited used cfg.max_header_bytes true) _ s
      (read_line_limited-Ends used cfg.max_header_bytes true s)
      (λ got s1 left.
        if-Ends (Within s) (is_nil got.0) _ _ s1 (λ e h. cc)
          (λ e.
            if-Ends (Within s) (is_nil (trim_eol got.0)) _ _ s1 (λ e'. omega arith)
              (λ e'.
                if-Ends (Within s) (is_folded (trim_eol got.0)) _ _ s1 (λ e h. cc)
                  (λ folded.
                    bind-Ends (Within s1) (Within s) (or_bad (header_field (trim_eol got.0))) _ s1
                      (or_bad-Ends (header_field (trim_eol got.0)) s1)
                      (λ field s2 left2.
                        weaken-Ends (Within s2) (Within s)
                          (read_headers fuel cfg got.1 (fields ++ field ∷ []) s2)
                          (λ a n h. omega arith)
                          (read_headers-Ends fuel cfg got.1 (fields ++ field ∷ []) s2
                            (omega (arith, some_bytes got.0 e))))))))

abbrev Fueled : {A : Type 0} → Outcome ReadStop A → Type 0
Fueled (ok a) = Unit
Fueled (err e) = e ≢ out_of_fuel

http_version-Fueled : (m t v : Text) → Fueled (http_version m t v)
http_version-Fueled m t v = elim (Bool-cases (v == codes "HTTP/1.1")) [
  | inl e ↦ rw e tt
  | inr e ↦ rw e (last (v == codes "HTTP/1.0"))
]
  where
    last :
        (b : Bool)
        → Fueled {A = RequestLine} (
            if b
            then ok (record { method = m; target = t; http_11 = false })
            else err (refused (record { status = 505; msg = codes "HTTP Version Not Supported" })))
    last true = tt
    last false = λ h. cc

request_parts-Fueled : (parts : List Text) → Fueled (request_parts parts)
request_parts-Fueled [] = λ h. cc
request_parts-Fueled (m ∷ []) = λ h. cc
request_parts-Fueled (m ∷ t ∷ []) = λ h. cc
request_parts-Fueled (m ∷ t ∷ v ∷ []) =
    elim (Bool-cases (is_nil m || is_nil t || not (every is_token_byte (utf8 m)))) [
      | inl e ↦ rw e (λ h. cc)
      | inr e ↦ rw e (http_version-Fueled m t v)
    ]
request_parts-Fueled (m ∷ t ∷ v ∷ w ∷ rest) = λ h. cc

request_line-Fueled : (line : Bytes) → Fueled (request_line line)
request_line-Fueled line = from_text (str_from_utf8 (trim_eol line))
  where
    from_text :
        (o : Option Text)
        → Fueled {A = RequestLine}
            (elim o [ none ↦ err bad | some text ↦ request_parts (split_onto b' ' [] text) ])
    from_text none = λ h. cc
    from_text (some text) = request_parts-Fueled (split_onto b' ' [] text)

refuse_target-Fueled : {A : Type 0} (r : Outcome HttpError A) → Fueled (refuse_target r)
refuse_target-Fueled (ok a) = tt
refuse_target-Fueled (err e) = λ h. cc

lift-Ends :
    {A : Type 0} (r : Outcome ReadStop A) (s : Socket) → Fueled r → Ends (Within s) (lift r s)
lift-Ends (ok a) s h = omega arith
lift-Ends (err e) s h = h

answer_expect-Ends :
    (headers : List (Text × Text)) (s : Socket) → Ends (Within s) (answer_expect headers s)
answer_expect-Ends headers s =
    if-Ends (Within s) (expects headers) _ _ s (λ e. omega arith) (λ e. omega arith)

read_rest-Ends :
    (fuel : ℕ) (cfg : Config) (used : ℕ) (line : RequestLine) (s : Socket)
    → length s.bytes < fuel
    → Ends (Within s) (read_rest fuel cfg used line s)
read_rest-Ends fuel cfg used line s h =
    let target = refuse_target (parse_target line.target) in
    bind-Ends (Within s) (Within s) (lift target) _ s
      (lift-Ends target s (refuse_target-Fueled (parse_target line.target)))
      (λ t s1 left1.
        bind-Ends (Within s1) (Within s) (read_headers fuel cfg used []) _ s1
          (read_headers-Ends fuel cfg used [] s1 (omega arith))
          (λ head s2 left2.
            let body = read_body fuel cfg head.0 head.1 in
            bind-Ends (Within s2) (Within s) (answer_expect head.0 >> body) _ s2
              (bind-Ends (Within s2) (Within s2) (answer_expect head.0) (λ u. body) s2
                (answer_expect-Ends head.0 s2)
                (λ u s3 left3.
                  weaken-Ends (Within s3) (Within s2) (body s3) (λ a n h. omega arith)
                    (read_body-Ends fuel cfg head.0 head.1 s3 (omega arith))))
              (λ body s4 left4. omega arith)))

-- A request takes a byte at least.
abbrev pub Shrinks : Socket → Option Parsed → ℕ → Type 0
Shrinks s none n = n ≤ length s.bytes
Shrinks s (some p) n = n < length s.bytes

Shrinks-less : (s : Socket) (a : Option Parsed) (n : ℕ) → n < length s.bytes → Shrinks s a n
Shrinks-less s none n h = omega arith
Shrinks-less s (some p) n h = h

Within-Shrinks : (s : Socket) (a : Option Parsed) (n : ℕ) → Shrinks s a n → Within s a n
Within-Shrinks s none n h = h
Within-Shrinks s (some p) n h = omega arith

pub read_request-Shrinks :
    (cfg : Config) (s : Socket) → Ends (Shrinks s) (read_request (read_fuel s) cfg s)
unfolding read_request
read_request-Shrinks cfg s =
    bind-Ends (Leaves s) (Shrinks s) (skip_stray_lines (read_fuel s) cfg 0) _ s
      (skip_stray_lines-Ends (read_fuel s) cfg 0 s (omega arith))
      (λ got s1 left.
        if-Ends (Shrinks s) (is_nil got.0) _ _ s1 (λ e. omega arith)
          (λ e.
            let taken = some_bytes got.0 e in
            bind-Ends (Within s1) (Shrinks s) (lift (request_line got.0)) _ s1
              (lift-Ends (request_line got.0) s1 (request_line-Fueled got.0))
              (λ line s2 left2.
                weaken-Ends (Within s2) (Shrinks s) (read_rest (read_fuel s) cfg got.1 line s2)
                  (λ a n h. Shrinks-less s a n (omega arith))
                  (read_rest-Ends (read_fuel s) cfg got.1 line s2 (omega arith)))))

-- Reading a request ends on every connection: the fuel of one unit for each byte and one more never
-- runs out, and what is left is no longer than what was there.
pub read_request-Ends :
    (cfg : Config) (s : Socket) → Ends (Within s) (read_request (read_fuel s) cfg s)
read_request-Ends cfg s =
    weaken-Ends (Shrinks s) (Within s) (read_request (read_fuel s) cfg s) (Within-Shrinks s)
      (read_request-Shrinks cfg s)

-- ===== src/Http/Reader/WellFormed.antt =====
-- Which requests `read_request` of backend/src/http.rs accepts.
use tldr_tv.Prelude.{
  ℕ, ◌≤◌, ◌≡◌, ◌⊎◌, refl, sym, ap, subst, true, Option, none, some, [], ◌==◌, ==_iff, list_eq,
  nat_eq, inl, inr, Bool-cases, length, is_nil,
}
use tldr_tv.Prelude.Text.{Text, codes}
use tldr_tv.Prelude.Exec.{Outcome, ok, err, ok_inj, lift, ◌>>◌}
use tldr_tv.Http.Wire.{HttpError, parse_target}
use tldr_tv.Http.Wire.Target.{Contained, parse_target-Contained}
use tldr_tv.Http.Reader.{
  Socket, Config, ReadStop, Parsed, RequestLine, read_body, read_headers, read_rest, read_request,
  refuse_target, answer_expect, request_line, skip_stray_lines,
}
use tldr_tv.Http.Reader.Bounds.{
  Yields, bind-Yields, skip-Yields, if-Yields, IsUnambiguous, Framed, read_body-Framed,
}

-- The body is within its bound, the header says in at most one way how long it is, and the path
-- stays below the root, if it is not *.
pub record WellFormed (cfg : Config) (p : Parsed) : Type 0 where
  pub bounded : length p.req.body ≤ cfg.max_body_bytes
  pub unambiguous : IsUnambiguous p.req.headers
  pub contained : (p.req.path ≡ codes "*") ⊎ Contained p.req.path

abbrev IsTarget : Text × Text × Text → Type 0
IsTarget target = (target.1 ≡ codes "*") ⊎ Contained target.1

starred :
    (target raw path query : Text)
    → (target == codes "*") ≡ true
    → parse_target target ≡ ok (raw, path, query)
    → path ≡ codes "*"
unfolding parse_target
starred target raw path query star h =
    let same = (==_iff target (codes "*")).0 star in
    let h' : ok (codes "*", codes "*", []) ≡ ok (raw, path, query) =
      subst (λ t. parse_target t ≡ ok (raw, path, query)) same h in
    sym (
      ap (λ (t : Text × Text × Text). t.1)
        (ok_inj (ok (codes "*", codes "*", [])) (codes "*", codes "*", []) (raw, path, query) refl
          h'))

parse_target-IsTarget :
    (target raw path query : Text)
    → parse_target target ≡ ok (raw, path, query)
    → IsTarget (raw, path, query)
parse_target-IsTarget target raw path query h = elim (Bool-cases (target == codes "*")) [
  | inl star ↦ inl (starred target raw path query star h)
  | inr plain ↦ inr (parse_target-Contained target raw path query plain h).2
]

lift-IsTarget :
    (target : Text) (s : Socket) → Yields IsTarget (lift (refuse_target (parse_target target)) s)
lift-IsTarget target s = go (parse_target target) refl
  where
    go :
        (r : Outcome HttpError (Text × Text × Text))
        → parse_target target ≡ r
        → Yields IsTarget (lift (refuse_target r) s)
    go (ok (raw, path, query)) h = parse_target-IsTarget target raw path query h
    go (err e) h = tt

abbrev IsRequest : Config → Option Parsed → Type 0
IsRequest cfg none = Unit
IsRequest cfg (some p) = WellFormed cfg p

read_rest-IsRequest :
    (fuel : ℕ) (cfg : Config) (used : ℕ) (line : RequestLine) (s : Socket)
    → Yields (IsRequest cfg) (read_rest fuel cfg used line s)
read_rest-IsRequest fuel cfg used line s =
    bind-Yields IsTarget (IsRequest cfg) (lift (refuse_target (parse_target line.target))) _ s
      (lift-IsTarget line.target s)
      (λ target s1 contained.
        skip-Yields (IsRequest cfg) (read_headers fuel cfg used []) _ s1 (λ head s2.
          let body = read_body fuel cfg head.0 head.1 in
          bind-Yields (Framed cfg head.0) (IsRequest cfg) (answer_expect head.0 >> body) _ s2
            (skip-Yields (Framed cfg head.0) (answer_expect head.0) (λ u. body) s2
              (λ u s3. read_body-Framed fuel cfg head.0 head.1 s3))
            (λ body s3 (bounded, unambiguous). record {
              bounded = bounded;
              unambiguous = unambiguous;
              contained = contained;
            })))

answered :
    (cfg : Config) (p : Parsed) (r : Outcome ReadStop (Option Parsed) × Socket)
    → Yields (IsRequest cfg) r
    → r.0 ≡ ok (some p)
    → WellFormed cfg p
answered cfg p (ok none, s) h q = cc
answered cfg p (ok (some p'), s) h q =
    subst (IsRequest cfg) (ok_inj (ok (some p')) (some p') (some p) refl q) h
answered cfg p (err e, s) h q = cc

-- In a request that is read, the body is no longer than the bound, Content-Length and
-- Transfer-Encoding do not both stand in the header, and the path, if it is not *, has neither a
-- NUL nor a segment "..".
pub read_request-WellFormed :
    (fuel : ℕ) (cfg : Config) (s : Socket) (p : Parsed)
    → (read_request fuel cfg s).0 ≡ ok (some p)
    → WellFormed cfg p
unfolding read_request
read_request-WellFormed fuel cfg s p q =
    answered cfg p (read_request fuel cfg s)
      (skip-Yields (IsRequest cfg) (skip_stray_lines fuel cfg 0) _ s (λ got s1.
        if-Yields (IsRequest cfg) (is_nil got.0) _ _ s1 tt (
          skip-Yields (IsRequest cfg) (lift (request_line got.0)) _ s1
            (λ line s2. read_rest-IsRequest fuel cfg got.1 line s2))))
      q

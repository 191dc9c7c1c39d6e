-- ===== src/Http/Connection/Ends.antt =====
-- What the handler gets from `handle_connection` of backend/src/http.rs.
use tldr_tv.Prelude.{
  ℕ, zero, suc, ◌<◌, ◌≡◌, ◌∙◌, ◌≢◌, refl, sym, ap, either, Bool, true, false, not, ◌&&◌, Option,
  none, some, arith, length, if◌then◌else◌,
}
use tldr_tv.Prelude.Exec.{Outcome, ok, err}
use tldr_tv.Http.{Request}
use tldr_tv.Http.Reader.{
  Socket, Config, ReadStop, refused, out_of_fuel, Parsed, read_request, read_fuel,
}
use tldr_tv.Http.Reader.Ends.{Ends}
use tldr_tv.Http.Reader.Termination.{Shrinks, read_request-Shrinks}
use tldr_tv.Http.Reader.WellFormed.{WellFormed, read_request-WellFormed}
use tldr_tv.Http.Connection.{
  Service, Served, with_peer, keeps, respond, reply_of, ran_out, after_read, serve_from,
  handle_connection,
}

-- The socket u has what is left of s once the requests so far are read.
pub data Follows (cfg : Config) (s : Socket) : Socket → Type 0 where
  first : Follows cfg s s
  after :
      {t u : Socket} (p : Parsed)
      → Follows cfg s t
      → (read_request (read_fuel t) cfg t).0 ≡ ok (some p)
      → u.bytes ≡ (read_request (read_fuel t) cfg t).1.bytes
      → u.ending ≡ (read_request (read_fuel t) cfg t).1.ending
      → Follows cfg s u

-- What becomes of the state of the handler, from request n on: it is called for the requests one
-- behind the other, until none is read, a response cannot be written, or the connection is not kept.
pub data Runs {H : Type 0} (cfg : Config) (v : Service H) : ℕ → H → Socket → H → Type 0 where
  over :
      {n : ℕ} {k : H} {t : Socket}
      → ((p : Parsed) → (read_request (read_fuel t) cfg t).0 ≢ ok (some p))
      → Runs cfg v n k t k
  last :
      {n : ℕ} {k : H} {t : Socket} (p : Parsed)
      → (read_request (read_fuel t) cfg t).0 ≡ ok (some p)
      → (v.writes n && (p.keep_alive && not (v.stopped n))) ≡ false
      → Runs cfg v n k t (v.handler k (record p.req { peer_ip = v.peer_ip })).1
  more :
      {n : ℕ} {k j : H} {t : Socket} (p : Parsed) (u : Socket)
      → (read_request (read_fuel t) cfg t).0 ≡ ok (some p)
      → (v.writes n && (p.keep_alive && not (v.stopped n))) ≡ true
      → u.bytes ≡ (read_request (read_fuel t) cfg t).1.bytes
      → u.ending ≡ (read_request (read_fuel t) cfg t).1.ending
      → Runs cfg v (suc n) (v.handler k (record p.req { peer_ip = v.peer_ip })).1 u j
      → Runs cfg v n k t j

in_fuel : (e : ReadStop) → e ≢ out_of_fuel → not (ran_out e) ≡ true
in_fuel (refused e) h = refl
in_fuel out_of_fuel h = elim (h refl) [ ]

-- What a response changes of a socket, neither its bytes nor its ending reads.
unread :
    {A : Type 0} (f : Socket → A) (b : Bool) (s t : Socket)
    → f t ≡ f s
    → f (if b then t else s) ≡ f s
unread f true s t h = h
unread f false s t h = refl

module _ {H : Type 0} (cfg : Config) (v : Service H) where
  -- a request read off the connection s, behind those before it, with the address of the peer
  abbrev pub IsServed : Socket → Request → Type 0
  IsServed s req =
      (t : Socket) × Follows cfg s t
      × ((p : Parsed) × ((read_request (read_fuel t) cfg t).0 ≡ ok (some p))
          × WellFormed cfg p
          × (req ≡ record p.req { peer_ip = v.peer_ip }))

  -- The loop came to its end, in a state of the handler that satisfies P.
  abbrev pub Good : (H → Type 0) → Served H → Type 0
  Good P (ended, k, s) = (ended ≡ true) × P k

  -- Each served request keeps P.
  abbrev pub Keeps : (H → Type 0) → Socket → Type 0
  Keeps P s = (k : H) (req : Request) → IsServed s req → P k → P (v.handler k req).1

  -- the same of the whole of a run
  abbrev pub Ran : (H → Type 0) → ℕ → H → Socket → Served H → Type 0
  Ran P n k s r = Good P r × Runs cfg v n k s r.1

  unread_request :
      (s : Socket) (r : Outcome ReadStop (Option Parsed))
      → (read_request (read_fuel s) cfg s).0 ≡ r
      → ((p : Parsed) → r ≢ ok (some p))
      → (p : Parsed) → (read_request (read_fuel s) cfg s).0 ≢ ok (some p)
  unread_request s r q refuses p h = refuses p (sym q ∙ h)

  no_request :
      (e : ReadStop) (p : Parsed) → ◌≢◌ {A = Outcome ReadStop (Option Parsed)} (err e) (ok (some p))
  no_request e p h = cc

  closed_by_peer : (p : Parsed) → ◌≢◌ {A = Outcome ReadStop (Option Parsed)} (ok none) (ok (some p))
  closed_by_peer p h = cc

  after_read-Good :
      (P : H → Type 0) (s0 s : Socket) (n : ℕ) (k : H) (next : H → Socket → Served H)
      (r : Outcome ReadStop (Option Parsed)) (s1 : Socket)
      → Keeps P s0
      → Follows cfg s0 s
      → (read_request (read_fuel s) cfg s).0 ≡ r
      → (read_request (read_fuel s) cfg s).1 ≡ s1
      → Ends (Shrinks s) (r, s1)
      → P k
      → ((j : H) (t : Socket)
          → Follows cfg s0 t
          → length t.bytes < length s.bytes
          → P j
          → Ran P (suc n) j t (next j t))
      → Ran P n k s (after_read v n k next (r, s1))
  after_read-Good P s0 s n k next (err e) s1 keep follows q q1 ends now rest =
      ((in_fuel e ends, now), over (unread_request s (err e) q (no_request e)))
  after_read-Good P s0 s n k next (ok none) s1 keep follows q q1 ends now rest =
      ((refl, now), over (unread_request s (ok none) q closed_by_peer))
  after_read-Good P s0 s n k next (ok (some p)) s1 keep follows q q1 ends now rest =
      let good = read_request-WellFormed (read_fuel s) cfg s p q in
      let (answer, k') = v.handler k (with_peer v p) in
      let kept : P k' = keep k (with_peer v p) (s, follows, (p, q, good, refl)) now in
      let t = respond v n p (reply_of answer) s1 in
      let bytes : t.bytes ≡ s1.bytes = unread (λ (x : Socket). x.bytes) (v.writes n) s1 _ refl in
      let ending : t.ending ≡ s1.ending =
        unread (λ (x : Socket). x.ending) (v.writes n) s1 _ refl in
      let here : Follows cfg s0 t =
        after p follows q (bytes ∙ sym (ap (λ (x : Socket). x.bytes) q1))
          (ending ∙ sym (ap (λ (x : Socket). x.ending) q1)) in
      let same : length t.bytes ≡ length s1.bytes = ap length bytes in
      either (Ran P n k s) (v.writes n && keeps v n p) _ _ (λ ends'. ((refl, kept), last p q ends'))
        (λ goes_on.
          let (done, runs) = rest k' t here (omega arith) kept in
          (
            done,
            more p t q goes_on (bytes ∙ sym (ap (λ (x : Socket). x.bytes) q1))
                (ending ∙ sym (ap (λ (x : Socket). x.ending) q1)) runs,
          ))

  serve_from-Good :
      (P : H → Type 0) (s0 : Socket) (fuel n : ℕ) (k : H) (s : Socket)
      → Keeps P s0
      → Follows cfg s0 s
      → length s.bytes < fuel
      → P k
      → Ran P n k s (serve_from fuel cfg v n k s)
  unfolding serve_from
  serve_from-Good P s0 zero n k s keep follows h now = elim (none_below (length s.bytes) h) [ ]
    where
      none_below : (n : ℕ) → n < 0 → ⊥
      none_below n h = omega arith
  serve_from-Good P s0 (suc fuel) n k s keep follows h now =
      let read = read_request (read_fuel s) cfg s in
      after_read-Good P s0 s n k (serve_from fuel cfg v (suc n)) read.0 read.1 keep follows refl
        refl (read_request-Shrinks cfg s) now
        (λ j t later less. serve_from-Good P s0 fuel (suc n) j t keep later (omega arith))

  -- Serving a connection comes to its end, whatever the peer sends and the handler answers. The
  -- handler is called for the requests that are read off the connection, one behind the other, until
  -- none is read, a response cannot be written, or the connection is not kept; each of these requests
  -- is well-formed and has the address of the peer: a property of the handler's state that holds at
  -- first and that every call with such a request keeps holds in the end.
  pub handle_connection-Good :
      (P : H → Type 0) (k : H) (s : Socket)
      → Keeps P s
      → P k
      → Good P (handle_connection cfg v k s) × Runs cfg v 0 k s (handle_connection cfg v k s).1
  unfolding handle_connection
  handle_connection-Good P k s keep now =
      serve_from-Good P s (read_fuel s) 0 k s keep first (omega arith) now

-- ===== src/Http/Connection.antt =====
-- The loop of backend/src/http.rs over the requests of one connection.
pub mod Ends
use tldr_tv.Prelude.{
  ℕ, zero, suc, Bool, true, false, not, ◌&&◌, ◌||◌, Option, none, some, List, [], ◌∷◌, ◌++◌, ◌==◌,
  list_eq, nat_eq, nat_beq, length, if◌then◌else◌,
}
use tldr_tv.Prelude.Text.{Text, codes, utf8}
use tldr_tv.Prelude.Exec.{Outcome, ok, err}
use tldr_tv.Http.{Request}
use tldr_tv.Http.Wire.{HttpError}
use tldr_tv.Http.Reader.{
  Socket, Config, ReadStop, refused, out_of_fuel, Parsed, read_request, read_fuel,
}
use tldr_tv.Http.Writer.{Reply, write_response}

-- What is around a connection. `handler` may change a state of the program, and `none` is a panic.
-- The others have the number of the request first: `stopped` says whether the server shuts down by
-- then, and `writes` whether the response can be written; a part of a response that fails is left
-- out. Each response has a body of its own.
pub record Service (H : Type 0) : Type 0 where
  pub handler : H → Request → Option Reply × H
  pub stopped : ℕ → Bool
  pub writes : ℕ → Bool
  pub date : ℕ → Text
  pub peer_ip : Text

abbrev pub text_reply : ℕ → Text → Reply
text_reply status msg = record {
  status = status;
  headers = (codes "Content-Type", codes "text/plain; charset=UTF-8") ∷ [];
  body = utf8 msg;
}

abbrev pub ran_out : ReadStop → Bool
ran_out out_of_fuel = true
ran_out (refused e) = false

abbrev pub reply_of : Option Reply → Reply
reply_of (some res) = res
reply_of none = text_reply 500 (codes "Internal Server Error")

-- whether the loop came to its end, the state of the handler, and the socket
abbrev pub Served : Type 0 → Type 0
Served H = Bool × H × Socket

module _ {H : Type 0} where
  abbrev pub with_peer : Service H → Parsed → Request
  with_peer v p = record p.req { peer_ip = v.peer_ip }

  abbrev pub keeps : Service H → ℕ → Parsed → Bool
  keeps v n p = p.keep_alive && not (v.stopped n)

  abbrev pub respond : Service H → ℕ → Parsed → Reply → Socket → Socket
  respond v n p res s =
      if v.writes n
      then record s {
        sent =
            s.sent
            ++ write_response (v.date n) res (p.req.method == codes "HEAD") (keeps v n p) p.http_11;
      }
      else s

  abbrev pub refuse : Service H → ℕ → ReadStop → Socket → Socket
  refuse v n out_of_fuel s = s
  refuse v n (refused e) s = if nat_beq e.status 0 || not (v.writes n) then s else record s {
    sent = s.sent ++ write_response (v.date n) (text_reply e.status e.msg) false false true;
  }

  -- a round of the loop behind its `read_request`, with what the further rounds do
  abbrev pub after_read :
      Service H
      → ℕ
      → H
      → (H → Socket → Served H)
      → Outcome ReadStop (Option Parsed) × Socket
      → Served H
  after_read v n k next (err e, s) = (not (ran_out e), k, refuse v n e s)
  after_read v n k next (ok none, s) = (true, k, s)
  after_read v n k next (ok (some p), s) =
      let (answer, k') = v.handler k (with_peer v p) in
      let s' = respond v n p (reply_of answer) s in
      elim (v.writes n && keeps v n p) [ false ↦ (true, k', s') | true ↦ next k' s' ]

  -- The loop, from request n on. It has a round for each request.
  unfoldable pub serve_from : ℕ → Config → Service H → ℕ → H → Socket → Served H
  serve_from zero cfg v n k s = (false, k, s)
  serve_from (suc fuel) cfg v n k s =
      after_read v n k (serve_from fuel cfg v (suc n)) (read_request (read_fuel s) cfg s)

  unfoldable pub handle_connection : Config → Service H → H → Socket → Served H
  handle_connection cfg v k s = serve_from (read_fuel s) cfg v 0 k s

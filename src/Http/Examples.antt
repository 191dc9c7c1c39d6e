-- ===== src/Http/Examples.antt =====
-- Concrete cookies and targets of backend/src/http.rs.
use tldr_tv.Prelude.{
  All, [], List, ◌∷◌, ap, ◌≡◌, refl, some, none, true, false, map, ◌==◌, list_eq, nat_eq,
  if◌then◌else◌,
}
use tldr_tv.Prelude.Text.{Text, codes, trim, trim_start, is_whitespace}
use tldr_tv.Prelude.Exec.{ok, err}
use tldr_tv.Json.RoundTrip.Scalars.{every-IsScalar}
use tldr_tv.Http.{Request, Cookie, SameSite}
use tldr_tv.Http.Wire.Cookies.{cookie-named_value, cookie_hidden}
use tldr_tv.Http.Writer.{write_response}
use tldr_tv.Http.Reader.{
  Config, Socket, Parsed, RequestLine, closed, stalled, bad, parsed_request, read_request,
  read_fuel, skip_stray_lines, read_headers, read_body, read_chunked, read_line_limited,
  read_exact_timed, chunk_size,
}
use tldr_tv.Http.Reader.WellFormed.{WellFormed, read_request-WellFormed}
use tldr_tv.Http.Percent.{
  unescape, lossy_at, percent_decode, percent_encode_component, escape_bytes,
}
use tldr_tv.Http.Wire.{cookie, named_value, query_param, to_header_value, parse_target, bad_request}
use tldr_tv.Http.Connection.{Service, text_reply, serve_from, handle_connection}
use tldr_tv.Http.Connection.Ends.{Good, IsServed, Runs, handle_connection-Good}

malformed : percent_decode (codes "100%zz%4") false ≡ codes "100%zz%4"
unfolding percent_decode unescape lossy_at
malformed = refl

form : query_param (codes "a=1&q=x+%C3%A9") (codes "q") ≡ some (codes "x é")
unfolding query_param unescape lossy_at
form = refl

absolute :
    parse_target (codes "http://host/a%20b?c=d") ≡ ok (codes "/a%20b", codes "/a b", codes "c=d")
unfolding parse_target unescape lossy_at
absolute = refl

traversal : parse_target (codes "/a/%2e%2e/b") ≡ err bad_request
unfolding parse_target unescape lossy_at
traversal = refl

second : cookie (codes "a=1; b=%C3%A9") (codes "b") ≡ some (codes "é")
unfolding cookie unescape lossy_at trim trim_start is_whitespace
second = refl

abbrev session_cookie : Cookie
session_cookie = record {
  name = codes "token";
  value = codes "a;b é";
  http_only = true;
  secure = true;
  same_site = SameSite.strict;
  path = codes "/";
  max_age = some 60;
}

set_cookie :
    to_header_value session_cookie
    ≡ codes "token=a%3Bb%20%C3%A9; Max-Age=60; Path=/; HttpOnly; Secure; SameSite=Strict"
unfolding to_header_value percent_encode_component escape_bytes
set_cookie = refl

cookie-named_value_example :
    cookie (named_value session_cookie) (codes "token") ≡ some (codes "a;b é")
unfolding is_whitespace
cookie-named_value_example =
    cookie-named_value session_cookie (refl, (refl, (refl, (refl, (refl, tt)))))
      (every-IsScalar (codes "a;b é") refl)

cookie_hidden_example : cookie (codes "flag; token=abc") (codes "token") ≡ none
unfolding is_whitespace
cookie_hidden_example =
    cookie_hidden (codes "flag") (codes " token=abc") (codes "token")
      (refl, (refl, (refl, (refl, tt))))

abbrev limits : Config
limits = record { max_body_bytes = 64; max_header_bytes = 256 }

abbrev posted : Socket
posted = record {
  bytes =
      codes
        "\r\nPOST /a%20b?c=d HTTP/1.1\r\nHost: x\r\nTransfer-Encoding: chunked\r\n\r\n5\r\nhello\r\n0\r\n\r\nGET";
  ending = stalled;
  sent = [];
}

abbrev posted_headers : List (Text × Text)
posted_headers = (codes "Host", codes "x") ∷ (codes "Transfer-Encoding", codes "chunked") ∷ []

abbrev posted_line : RequestLine
posted_line = record { method = codes "POST"; target = codes "/a%20b?c=d"; http_11 = true }

abbrev posted_request : Parsed
posted_request =
    parsed_request posted_line (codes "/a%20b", codes "/a b", codes "c=d") posted_headers
      (codes "hello")

request_read :
    read_request (read_fuel posted) limits posted
    ≡ (ok (some posted_request), record posted { bytes = codes "GET" })
unfolding read_request skip_stray_lines read_headers read_body read_chunked read_line_limited
    read_exact_timed chunk_size parse_target unescape lossy_at trim trim_start is_whitespace
request_read = refl

both_lengths :
    (read_request 9 limits (record {
      bytes =
          codes
            "POST / HTTP/1.1\r\nContent-Length: 1\r\nTransfer-Encoding: chunked\r\n\r\n0\r\n\r\n";
      ending = closed;
      sent = [];
    })).0
    ≡ err bad
unfolding read_request skip_stray_lines read_headers read_body read_chunked read_line_limited
    read_exact_timed chunk_size parse_target unescape lossy_at trim trim_start is_whitespace
both_lengths = refl

read_request-WellFormed_example : WellFormed limits posted_request
read_request-WellFormed_example =
    read_request-WellFormed (read_fuel posted) limits posted posted_request
      (ap (λ r. r.0) request_read)

-- The state of the handler is the list of its requests.
abbrev service : Service (List Request)
service = record {
  handler = λ seen req.
      (if req.path == codes "/a b" then some (text_reply 200 (codes "hi")) else none, req ∷ seen);
  stopped = λ n. false;
  writes = λ n. true;
  date = λ n. codes "now";
  peer_ip = codes "1";
}

-- One request is served, and the time-out that comes inside the next one is answered.
one_served :
    map (λ (r : Request). r.path) (handle_connection limits service [] posted).1 ≡ codes "/a b" ∷ []
unfolding handle_connection serve_from write_response read_request skip_stray_lines read_headers
    read_body read_chunked read_line_limited read_exact_timed chunk_size parse_target unescape
    lossy_at trim trim_start is_whitespace
one_served = refl

handle_connection-Good_example :
    Good limits service
      (All (IsServed limits service posted))
      (handle_connection limits service [] posted)
    × Runs limits service 0 [] posted (handle_connection limits service [] posted).1
handle_connection-Good_example =
    handle_connection-Good limits service (All (IsServed limits service posted)) [] posted
      (λ seen req is all. (is, all)) tt

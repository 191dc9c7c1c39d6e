-- ===== src/Http/Reader.antt =====
-- How backend/src/http.rs reads a request from a connection. A `Socket` has the bytes that will
-- still come, what happens behind them, and what was sent; the clock runs out only behind the
-- bytes. Loops run on fuel, of which a line takes one unit.
pub mod Ends
pub mod Termination
pub mod Bounds
pub mod WellFormed
pub mod Hex
pub mod Chunks
use tldr_tv.Prelude.{
  ℕ, zero, suc, ◌+◌, ◌-◌, ◌*◌, ◌^◌, Bool, true, false, ◌&&◌, ◌||◌, not, Option, none, some, List,
  [], ◌∷◌, ◌++◌, ◌==◌, list_eq, nat_eq, map, reverse, keep, some_passes, every, ltb, leb, nat_beq,
  length, take, drop, is_nil, if◌then◌else◌, ◌and_then◌,
}
use tldr_tv.Prelude.Text.{
  Bytes, Text, codes, utf8, trim, split_onto, split_once, is_ascii_alphanumeric,
  eq_ignore_ascii_case, to_ascii_lowercase,
}
use tldr_tv.Prelude.Exec.{Outcome, ok, err, Exec, pure, raise, lift, ◌>>=◌, ◌>>◌}
use tldr_tv.Json.Decimal.{parse_unsigned}
use tldr_tv.Crypto.Base64.{hex_val}
use tldr_tv.Http.{Request, first_header}
use tldr_tv.Http.Percent.{str_from_utf8, lossy_at}
use tldr_tv.Http.Wire.{HttpError, bad_request, parse_target, cookie}

-- The peer closes, sends nothing until a time-out, or the socket fails.
pub data Ending : Type 0 where
  closed stalled broken : Ending

pub record Socket : Type 0 where
  pub bytes : Bytes
  pub ending : Ending
  pub sent : Bytes

pub record Config : Type 0 where
  pub max_body_bytes : ℕ
  pub max_header_bytes : ℕ

-- `out_of_fuel` is none of the program's errors.
pub data ReadStop : Type 0 where
  refused : HttpError → ReadStop
  out_of_fuel : ReadStop

abbrev pub Reader : Type 0 → Type 0
Reader A = Exec Socket ReadStop A

abbrev pub bad : ReadStop
bad = refused bad_request

abbrev pub close : ReadStop
close = refused (record { status = 0; msg = [] })

abbrev pub too_large : ReadStop
too_large = refused (record { status = 413; msg = codes "Payload Too Large" })

abbrev pub header_too_large : ReadStop
header_too_large = refused (record { status = 431; msg = codes "Request Header Fields Too Large" })

abbrev pub timed_out : Bool → ReadStop
timed_out started =
    if started then refused (record { status = 408; msg = codes "Request Timeout" }) else close

-- up to the first line feed, with it, and what is behind it
abbrev pub cut_line : Bytes → Option (Bytes × Bytes)
cut_line [] = none
cut_line (c ∷ b) =
    if nat_beq c 10
    then some (c ∷ [], b)
    else elim (cut_line b) [ none ↦ none | some (line, rest) ↦ some (c ∷ line, rest) ]

-- a line that does not come to its end
abbrev pub unfinished : Ending → Bool → ℕ → Bytes → Outcome ReadStop (Bytes × ℕ)
unfinished closed started used b = if is_nil b then ok ([], used) else err close
unfinished stalled started used b = err (timed_out started)
unfinished broken started used b = err close

abbrev pub line_from :
    ℕ → ℕ → Bool → Socket → Option (Bytes × Bytes) → Outcome ReadStop (Bytes × ℕ) × Socket
line_from used max started s (some (line, rest)) =
    if ltb max (used + length line)
    then (err header_too_large, s)
    else (ok (line, used + length line), record s { bytes = rest })
line_from used max started s none =
    if not (is_nil s.bytes) && ltb max (used + length s.bytes)
    then (err header_too_large, s)
    else (unfinished s.ending started used s.bytes, record s { bytes = [] })

-- The line with its terminator, which is empty where the peer has closed, and the bytes used.
unfoldable pub read_line_limited : ℕ → ℕ → Bool → Reader (Bytes × ℕ)
read_line_limited used max started s = line_from used max started s (cut_line s.bytes)

abbrev strip : ℕ → Bytes → Bytes
strip c [] = []
strip c (d ∷ b) = if nat_beq d c then b else d ∷ b

abbrev pub trim_eol : Bytes → Bytes
trim_eol line = reverse (strip 13 (strip 10 (reverse line)))

abbrev pub missing : Ending → ReadStop
missing closed = close
missing stalled = timed_out true
missing broken = close

unfoldable pub read_exact_timed : ℕ → Reader Bytes
read_exact_timed n s =
    if ltb (length s.bytes) n
    then (err (missing s.ending), record s { bytes = [] })
    else (ok (take n s.bytes), record s { bytes = drop n s.bytes })

abbrev pub or_bad : {A : Type 0} → Option A → Reader A
or_bad none = raise bad
or_bad (some a) = pure a

abbrev pub hex_value : ℕ → Text → Option ℕ
hex_value v [] = some v
hex_value v (c ∷ s) = hex_val c and_then λ d. hex_value (v * 16 + d) s

abbrev hex_of_digits : Text → Option ℕ
hex_of_digits s =
    if is_nil s then none else hex_value 0 s and_then λ n. if ltb n (2 ^ 64) then some n else none

-- `usize::from_str_radix(s, 16)`
abbrev pub usize_from_hex : Text → Option ℕ
usize_from_hex [] = none
usize_from_hex (c ∷ s) = if nat_beq c b'+' then hex_of_digits s else hex_of_digits (c ∷ s)

abbrev pub before_semicolon : Bytes → Bytes
before_semicolon b = elim (split_once b';' b) [ none ↦ b | some (size, extension) ↦ size ]

unfoldable pub chunk_size : Bytes → Option ℕ
unfolding lossy_at trim
chunk_size line =
    str_from_utf8 (before_semicolon (trim_eol line)) and_then λ s. usize_from_hex (trim s)

abbrev pub max_chunk_line : ℕ
max_chunk_line = 1024

-- the loop over the trailer
abbrev pub read_trailer : ℕ → Config → ℕ → Reader Unit
read_trailer zero cfg used = raise out_of_fuel
read_trailer (suc fuel) cfg used = read_line_limited used cfg.max_header_bytes true >>= λ got.
    if is_nil got.0
    then raise close
    else if is_nil (trim_eol got.0)
    then pure tt
    else read_trailer fuel cfg got.1

-- the bytes of a chunk, which end in a line end
abbrev pub take_data : Bytes → ℕ → Reader Bytes
take_data out size = read_exact_timed size >>= λ chunk.
    read_exact_timed 2 >>= λ crlf. if crlf == codes "\r\n" then pure (out ++ chunk) else raise bad

-- one chunk behind its size
abbrev pub read_data : Config → Bytes → ℕ → Reader Bytes
read_data cfg out size =
    if ltb cfg.max_body_bytes size || ltb cfg.max_body_bytes (length out + size)
    then raise too_large
    else take_data out size

unfoldable pub read_chunked : ℕ → Config → ℕ → Bytes → Reader Bytes
read_chunked zero cfg used out = raise out_of_fuel
read_chunked (suc fuel) cfg used out = read_line_limited 0 max_chunk_line true >>= λ got.
    if is_nil got.0
    then raise close
    else or_bad (chunk_size got.0) >>= λ size.
        if nat_beq size 0
        then read_trailer fuel cfg used >> pure out
        else read_data cfg out size >>= λ longer. read_chunked fuel cfg used longer

-- `Headers::get_all`
abbrev pub get_all : Text → List (Text × Text) → List Text
get_all name headers =
    map (λ field. field.1) (keep (λ field. eq_ignore_ascii_case field.0 name) headers)

abbrev pub read_sized : Config → List Text → Reader Bytes
read_sized cfg [] = pure []
read_sized cfg (v ∷ lens) =
    if some_passes (λ w. not (w == v)) lens
    then raise bad
    else or_bad (parse_unsigned 64 (trim v)) >>= λ len.
        if ltb cfg.max_body_bytes len then raise too_large else read_exact_timed len

abbrev pub not_implemented : ReadStop
not_implemented = refused (record { status = 501; msg = codes "Not Implemented" })

abbrev pub read_encoded : ℕ → Config → ℕ → Text → Reader Bytes
read_encoded fuel cfg used te =
    if not (eq_ignore_ascii_case (trim te) (codes "chunked"))
    then raise not_implemented
    else read_chunked fuel cfg used []

unfoldable pub read_body : ℕ → Config → List (Text × Text) → ℕ → Reader Bytes
unfolding read_chunked trim
read_body fuel cfg headers used =
    let lens = get_all (codes "content-length") headers in
    elim (first_header (codes "transfer-encoding") headers) [
      | none ↦ read_sized cfg lens
      | some te ↦ if not (is_nil lens) then raise bad else read_encoded fuel cfg used te
    ]

abbrev pub is_token_byte : ℕ → Bool
is_token_byte c = is_ascii_alphanumeric c || some_passes (nat_beq c) (codes "!#$%&'*+-.^_`|~")

-- the loop over stray line ends before the request line; an empty line where the peer has closed
unfoldable pub skip_stray_lines : ℕ → Config → ℕ → Reader (Bytes × ℕ)
skip_stray_lines zero cfg used = raise out_of_fuel
skip_stray_lines (suc fuel) cfg used = read_line_limited used cfg.max_header_bytes false >>= λ got.
    if is_nil got.0 || not (is_nil (trim_eol got.0))
    then pure got
    else skip_stray_lines fuel cfg got.1

pub record RequestLine : Type 0 where
  pub method : Text
  pub target : Text
  pub http_11 : Bool

abbrev pub http_version : Text → Text → Text → Outcome ReadStop RequestLine
http_version method target version =
    if version == codes "HTTP/1.1"
    then ok (record { method = method; target = target; http_11 = true })
    else if version == codes "HTTP/1.0"
    then ok (record { method = method; target = target; http_11 = false })
    else err (refused (record { status = 505; msg = codes "HTTP Version Not Supported" }))

abbrev pub request_parts : List Text → Outcome ReadStop RequestLine
request_parts (method ∷ target ∷ version ∷ []) =
    if is_nil method || is_nil target || not (every is_token_byte (utf8 method))
    then err bad
    else http_version method target version
request_parts _ = err bad

abbrev pub request_line : Bytes → Outcome ReadStop RequestLine
request_line line = elim (str_from_utf8 (trim_eol line)) [
  | none ↦ err bad
  | some text ↦ request_parts (split_onto b' ' [] text)
]

abbrev pub header_field : Bytes → Option (Text × Text)
header_field raw = str_from_utf8 raw and_then λ text. split_once b':' text and_then λ field.
    if is_nil field.0 || not (every is_token_byte (utf8 field.0))
    then none
    else some (field.0, trim field.1)

abbrev pub is_folded : Bytes → Bool
is_folded [] = false
is_folded (c ∷ raw) = nat_beq c b' ' || nat_beq c 9

-- the loop over the header block
unfoldable pub read_headers : ℕ → Config → ℕ → List (Text × Text) → Reader (List (Text × Text) × ℕ)
unfolding lossy_at trim
read_headers zero cfg used fields = raise out_of_fuel
read_headers (suc fuel) cfg used fields =
    read_line_limited used cfg.max_header_bytes true >>= λ got.
    if is_nil got.0
    then raise close
    else if is_nil (trim_eol got.0)
    then pure (fields, got.1)
    else if is_folded (trim_eol got.0)
    then raise bad
    else or_bad (header_field (trim_eol got.0)) >>= λ field.
        read_headers fuel cfg got.1 (fields ++ field ∷ [])

abbrev has_token : Text → Text → Bool
has_token conn t = some_passes (λ x. trim x == t) (split_onto b',' [] conn)

abbrev text_or : Option Text → Text
text_or none = []
text_or (some s) = s

abbrev pub keeps_alive : Bool → List (Text × Text) → Bool
keeps_alive http_11 headers =
    let conn = map to_ascii_lowercase (text_or (first_header (codes "connection") headers)) in
    if has_token conn (codes "close")
    then false
    else if http_11
    then true
    else has_token conn (codes "keep-alive")

abbrev expects : List (Text × Text) → Bool
expects headers = elim (first_header (codes "expect") headers) [
  | none ↦ false
  | some e ↦ eq_ignore_ascii_case e (codes "100-continue")
]

abbrev pub send : Bytes → Reader Unit
send b s = (ok tt, record s { sent = s.sent ++ b })

abbrev pub answer_expect : List (Text × Text) → Reader Unit
answer_expect headers =
    if expects headers then send (codes "HTTP/1.1 100 Continue\r\n\r\n") else pure tt

pub record Parsed : Type 0 where
  pub req : Request
  pub raw_path : Text
  pub query : Text
  pub http_11 : Bool
  pub keep_alive : Bool

abbrev upper : ℕ → ℕ
upper c = if leb b'a' c && leb c b'z' then c - 32 else c

abbrev pub parsed_request : RequestLine → Text × Text × Text → List (Text × Text) → Bytes → Parsed
parsed_request line (raw_path, path, query) headers body = record {
  req = record {
    method = map upper line.method;
    path = path;
    headers = headers;
    body = body;
    peer_ip = [];
    cookie = λ name. first_header (codes "cookie") headers and_then λ raw. cookie raw name;
  };
  raw_path = raw_path;
  query = query;
  http_11 = line.http_11;
  keep_alive = keeps_alive line.http_11 headers;
}

abbrev pub refuse_target : {A : Type 0} → Outcome HttpError A → Outcome ReadStop A
refuse_target (ok a) = ok a
refuse_target (err e) = err (refused e)

-- `read_request` behind its request line
abbrev pub read_rest : ℕ → Config → ℕ → RequestLine → Reader (Option Parsed)
read_rest fuel cfg used line = lift (refuse_target (parse_target line.target)) >>= λ target.
    read_headers fuel cfg used [] >>= λ head.
    answer_expect head.0 >> read_body fuel cfg head.0 head.1 >>= λ body.
    pure (some (parsed_request line target head.0 body))

unfoldable pub read_request : ℕ → Config → Reader (Option Parsed)
unfolding skip_stray_lines read_headers read_body parse_target cookie
read_request fuel cfg = skip_stray_lines fuel cfg 0 >>= λ got.
    if is_nil got.0
    then pure none
    else lift (request_line got.0) >>= λ line. read_rest fuel cfg got.1 line

-- a unit for each byte and one more
abbrev pub read_fuel : Socket → ℕ
read_fuel s = suc (length s.bytes)

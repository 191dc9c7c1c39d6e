-- ===== src/Http/Writer.antt =====
-- How backend/src/http.rs writes responses. What is written is a text of bytes; the date of a response
-- is an argument. A file that grows is the list of what each poll sees of it.
use tldr_tv.Prelude.{
  ℕ, zero, suc, ◌+◌, ◌-◌, ◌/◌, ◌%◌, ◌^◌, min, Bool, true, false, not, ◌&&◌, ◌||◌, Option, none,
  some, List, [], ◌∷◌, ◌++◌, some_passes, ltb, leb, nat_beq, length, take, drop, if◌then◌else◌,
}
use tldr_tv.Prelude.Text.{Bytes, Text, codes, utf8, decimal, within, eq_ignore_ascii_case}

abbrev pub lower_hex : ℕ → ℕ
lower_hex v = if ltb v 10 then b'0' + v else b'a' + (v - 10)

-- the digits of `{:x}`; a round drops one
unfoldable pub hex_onto : ℕ → ℕ → Text → Text
hex_onto zero n cur = lower_hex (n % 16) ∷ cur
hex_onto (suc fuel) n cur = elim (ltb n 16) [
  | true ↦ lower_hex n ∷ cur
  | false ↦ hex_onto fuel (n / 16) (lower_hex (n % 16) ∷ cur)
]

unfoldable pub write_chunk : Bytes → Bytes
unfolding hex_onto
write_chunk chunk = hex_onto (length chunk) (length chunk) (13 ∷ 10 ∷ (chunk ++ 13 ∷ 10 ∷ []))

pub record GrowingFileState : Type 0 where
  pub done : Bool
  pub failed : Bool

pub data GrowingFileAction : Type 0 where
  write end wait : GrowingFileAction

abbrev pub growing_file_next : ℕ → ℕ → Option GrowingFileState → GrowingFileAction
growing_file_next offset size state =
    if ltb offset size then GrowingFileAction.write else elim state [
      | none ↦ GrowingFileAction.end
      | some s ↦
          if s.failed
          then GrowingFileAction.end
          else if s.done && leb size offset
          then GrowingFileAction.end
          else GrowingFileAction.wait
    ]

-- what a poll sees: the file, and the state beside it
pub record Poll : Type 0 where
  pub content : Bytes
  pub state : Option GrowingFileState

abbrev framed : Bool → Bytes → Bytes
framed use_chunked chunk = if use_chunked then write_chunk chunk else chunk

-- The loop of `write_growing_file`; it also ends where the polls do.
unfoldable pub tail : Bool → ℕ → ℕ → ℕ → ℕ → List Poll → Bytes
unfolding write_chunk
tail use_chunked poll_ms max_idle_ms offset idle_ms [] = []
tail use_chunked poll_ms max_idle_ms offset idle_ms (p ∷ polls) =
    let size = length p.content in
    elim (growing_file_next offset size p.state) [
      | write ↦
          framed use_chunked (take (size - offset) (drop offset p.content))
          ++ tail use_chunked poll_ms max_idle_ms size 0 polls
      | end ↦ []
      | wait ↦ elim (leb max_idle_ms idle_ms) [
        | true ↦ []
        | false ↦
            tail use_chunked poll_ms max_idle_ms offset (min (idle_ms + poll_ms) (2 ^ 64 - 1)) polls
      ]
    ]

-- the body of `write_growing_file`
abbrev pub growing_body : Bool → ℕ → ℕ → List Poll → Bytes
growing_body use_chunked poll_ms max_idle_ms polls =
    tail use_chunked poll_ms max_idle_ms 0 0 polls ++ (if use_chunked then write_chunk [] else [])

pub record Reply : Type 0 where
  pub status : ℕ
  pub headers : List (Text × Text)
  pub body : Bytes

abbrev phrases : List (ℕ × Text)
phrases =
    (100, codes "Continue")
    ∷ (101, codes "Switching Protocols")
    ∷ (200, codes "OK")
    ∷ (201, codes "Created")
    ∷ (202, codes "Accepted")
    ∷ (204, codes "No Content")
    ∷ (206, codes "Partial Content")
    ∷ (301, codes "Moved Permanently")
    ∷ (302, codes "Found")
    ∷ (303, codes "See Other")
    ∷ (304, codes "Not Modified")
    ∷ (307, codes "Temporary Redirect")
    ∷ (308, codes "Permanent Redirect")
    ∷ (400, codes "Bad Request")
    ∷ (401, codes "Unauthorized")
    ∷ (402, codes "Payment Required")
    ∷ (403, codes "Forbidden")
    ∷ (404, codes "Not Found")
    ∷ (405, codes "Method Not Allowed")
    ∷ (406, codes "Not Acceptable")
    ∷ (408, codes "Request Timeout")
    ∷ (409, codes "Conflict")
    ∷ (410, codes "Gone")
    ∷ (411, codes "Length Required")
    ∷ (413, codes "Payload Too Large")
    ∷ (414, codes "URI Too Long")
    ∷ (415, codes "Unsupported Media Type")
    ∷ (422, codes "Unprocessable Entity")
    ∷ (423, codes "Locked")
    ∷ (428, codes "Precondition Required")
    ∷ (429, codes "Too Many Requests")
    ∷ (431, codes "Request Header Fields Too Large")
    ∷ (500, codes "Internal Server Error")
    ∷ (501, codes "Not Implemented")
    ∷ (502, codes "Bad Gateway")
    ∷ (503, codes "Service Unavailable")
    ∷ (504, codes "Gateway Timeout")
    ∷ (505, codes "HTTP Version Not Supported")
    ∷ []

abbrev phrase_in : ℕ → List (ℕ × Text) → Text
phrase_in status [] = codes "Unknown"
phrase_in status ((code, phrase) ∷ rest) =
    if nat_beq status code then phrase else phrase_in status rest

abbrev pub reason_phrase : ℕ → Text
reason_phrase status = phrase_in status phrases

abbrev pub reserved_headers : List Text
reserved_headers =
    codes "content-length" ∷ codes "connection" ∷ codes "transfer-encoding" ∷ codes "date" ∷ []

abbrev breaks_line : Text → Bool
breaks_line s = some_passes (λ c. nat_beq c 13 || nat_beq c 10) s

-- whether a header of a handler is written
abbrev pub is_kept : Text × Text → Bool
is_kept (k, v) =
    not (some_passes (eq_ignore_ascii_case k) reserved_headers)
    && not (breaks_line k || breaks_line v)

abbrev pub header_lines : List (Text × Text) → Text
header_lines [] = []
header_lines ((k, v) ∷ headers) =
    (if is_kept (k, v) then k ++ codes ": " ++ v ++ codes "\r\n" else []) ++ header_lines headers

abbrev pub is_bodyless : ℕ → Bool
is_bodyless status = within 100 199 status || nat_beq status 204 || nat_beq status 304

abbrev status_line : Bool → ℕ → Text
status_line http_11 status =
    (if http_11 then codes "HTTP/1.1" else codes "HTTP/1.0")
    ++ b' ' ∷ decimal status
    ++ b' ' ∷ reason_phrase status
    ++ codes "\r\n"

abbrev head_lines : Text → Bool → ℕ → Bool → Text
head_lines date http_11 status keep_alive =
    status_line http_11 status
    ++ codes "Date: "
    ++ date
    ++ codes "\r\n"
    ++ (if keep_alive then codes "Connection: keep-alive\r\n" else codes "Connection: close\r\n")

-- `write_response` of a response with a body of its own
unfoldable pub write_response : Text → Reply → Bool → Bool → Bool → Bytes
write_response date res head_only keep_alive http_11 =
    let bodyless = is_bodyless res.status in
    utf8 (
      head_lines date http_11 res.status keep_alive
      ++ (if bodyless
          then []
          else codes "Content-Length: " ++ decimal (length res.body) ++ codes "\r\n")
      ++ header_lines res.headers
      ++ codes "\r\n")
    ++ (if not bodyless && not head_only then res.body else [])

-- `write_growing_file`
unfoldable pub write_growing_file : Text → Reply → ℕ → ℕ → List Poll → Bool → Bool → Bool → Bytes
unfolding tail
write_growing_file date res poll_ms max_idle_ms polls head_only keep_alive http_11 =
    utf8 (
      head_lines date http_11 res.status (keep_alive && http_11)
      ++ (if http_11 then codes "Transfer-Encoding: chunked\r\n" else [])
      ++ header_lines res.headers
      ++ codes "\r\n")
    ++ (if head_only then [] else growing_body http_11 poll_ms max_idle_ms polls)

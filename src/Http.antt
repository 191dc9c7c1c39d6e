-- ===== src/Http.antt =====
-- Requests, responses and cookies of backend/src/http.rs, as the routes see them. A JSON body is
-- kept as its value, before it is written out, and a cookie as its attributes.
pub mod Percent
pub mod Wire
pub mod Writer
pub mod Reader
pub mod Connection
mod Examples
use tldr_tv.Prelude.{ℕ, Bool, Option, none, some, List, [], ◌∷◌, ◌++◌, if◌then◌else◌}
use tldr_tv.Prelude.Text.{Bytes, Text, codes, eq_ignore_ascii_case}
use tldr_tv.Json.{Json}

-- `cookie` answers what `Request::cookie` reads from the Cookie header, by name.
pub record Request : Type 0 where
  pub method : Text
  pub path : Text
  pub headers : List (Text × Text)
  pub body : Bytes
  pub peer_ip : Text
  pub cookie : Text → Option Text

-- `Headers::get`
abbrev pub first_header : Text → List (Text × Text) → Option Text
first_header name [] = none
first_header name ((k, v) ∷ headers) =
    if eq_ignore_ascii_case k name then some v else first_header name headers

abbrev pub header : Request → Text → Option Text
header req name = first_header name req.headers

pub data SameSite : Type 0 where
  strict lax anywhere : SameSite

pub record Cookie : Type 0 where
  pub name : Text
  pub value : Text
  pub http_only : Bool
  pub secure : Bool
  pub same_site : SameSite
  pub path : Text
  pub max_age : Option ℕ

pub data Body : Type 0 where
  json_body : Json → Body
  text_body : Text → Body
  no_body : Body

pub record Response : Type 0 where
  pub status : ℕ
  pub body : Body
  pub headers : List (Text × Text)
  pub cookies : List Cookie

abbrev pub json : ℕ → Json → Response
json status v = record {
  status = status;
  body = json_body v;
  headers = (codes "Content-Type", codes "application/json") ∷ [];
  cookies = [];
}

abbrev pub text : ℕ → Text → Response
text status body = record {
  status = status;
  body = text_body body;
  headers = (codes "Content-Type", codes "text/plain; charset=UTF-8") ∷ [];
  cookies = [];
}

abbrev pub empty : ℕ → Response
empty status = record { status = status; body = no_body; headers = []; cookies = [] }

-- `Response::header` and `Response::cookie`
abbrev pub add_header : Text → Text → Response → Response
add_header name value res = record res { headers = res.headers ++ (name, value) ∷ [] }

abbrev pub add_cookie : Cookie → Response → Response
add_cookie c res = record res { cookies = res.cookies ++ c ∷ [] }

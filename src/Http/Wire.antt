-- ===== src/Http/Wire.antt =====
-- How backend/src/http.rs reads cookies, query parameters and request targets, and writes cookies.
pub mod Cookies
pub mod Target
use tldr_tv.Prelude.{
  ℕ, zero, suc, ◌+◌, Bool, true, false, ◌&&◌, ◌||◌, not, Option, none, some, List, [], ◌∷◌, ◌++◌,
  ◌==◌, list_eq, nat_eq, nat_beq, is_nil, every, some_passes, if◌then◌else◌, drop,
}
use tldr_tv.Prelude.Text.{
  Text, codes, decimal, trim, split_onto, split_once, text_starts_with, is_ascii_alphanumeric,
}
use tldr_tv.Prelude.Exec.{Outcome, ok, err}
use tldr_tv.Http.{Cookie, SameSite, strict, lax, anywhere}
use tldr_tv.Http.Percent.{percent_decode, percent_encode_component}

-- the loop of `Request::cookie`
abbrev pub cookie_in : Text → List Text → Option Text
cookie_in name [] = none
cookie_in name (pair ∷ pairs) = elim (split_once b'=' (trim pair)) [
  | none ↦ none
  | some (k, v) ↦
      if trim k == name then some (percent_decode (trim v) false) else cookie_in name pairs
]

-- `Request::cookie` behind its look-up of the header
unfoldable pub cookie : Text → Text → Option Text
unfolding percent_decode trim
cookie raw name = cookie_in name (split_onto b';' [] raw)

abbrev key_value : Text → Text × Text
key_value pair = elim (split_once b'=' pair) [ none ↦ (pair, []) | some kv ↦ kv ]

-- the loop of `Request::query_param`
abbrev pub param_in : Text → List Text → Option Text
param_in name [] = none
param_in name (pair ∷ pairs) =
    if not (is_nil pair) && percent_decode (key_value pair).0 true == name
    then some (percent_decode (key_value pair).1 true)
    else param_in name pairs

unfoldable pub query_param : Text → Text → Option Text
unfolding percent_decode
query_param query name = param_in name (split_onto b'&' [] query)

abbrev pub same_site_str : SameSite → Text
same_site_str strict = codes "Strict"
same_site_str lax = codes "Lax"
same_site_str anywhere = codes "None"

abbrev pub named_value : Cookie → Text
named_value c = c.name ++ b'=' ∷ percent_encode_component c.value

unfoldable pub to_header_value : Cookie → Text
unfolding percent_encode_component
to_header_value c =
    named_value c
    ++ (elim c.max_age [ none ↦ [] | some age ↦ codes "; Max-Age=" ++ decimal age ])
    ++ (if is_nil c.path then [] else codes "; Path=" ++ c.path)
    ++ (if c.http_only then codes "; HttpOnly" else [])
    ++ (if c.secure then codes "; Secure" else [])
    ++ codes "; SameSite="
    ++ same_site_str c.same_site

pub record HttpError : Type 0 where
  pub status : ℕ
  pub msg : Text

abbrev pub bad_request : HttpError
bad_request = record { status = 400; msg = codes "Bad Request" }

-- what stands before the first "://" and behind it
abbrev pub split_scheme : Text → Option (Text × Text)
split_scheme [] = none
split_scheme (c ∷ s) =
    let rest = split_scheme s in
    if text_starts_with (codes "://") (c ∷ s)
    then some ([], drop 3 (c ∷ s))
    else elim rest [ none ↦ none | some (a, b) ↦ some (c ∷ a, b) ]

abbrev from_slash : Text → Text
from_slash [] = codes "/"
from_slash (c ∷ s) = if nat_beq c b'/' then c ∷ s else from_slash s

abbrev pub without_authority : Text → Text
without_authority target = elim (split_scheme target) [
  | none ↦ target
  | some (scheme, after) ↦ if every is_ascii_alphanumeric scheme then from_slash after else target
]

abbrev pub path_and_query : Text → Text × Text
path_and_query rest = elim (split_once b'?' rest) [ none ↦ (rest, []) | some (p, q) ↦ (p, q) ]

abbrev pub climbs : Text → Bool
climbs path =
    some_passes (λ c. nat_beq c 0) path
    || some_passes (λ seg. seg == codes "..") (split_onto b'/' [] path)

abbrev pub decoded_target : Text → Text → Text → Outcome HttpError (Text × Text × Text)
decoded_target raw_path query path =
    if climbs path then err bad_request else ok (raw_path, path, query)

abbrev pub origin_form : Text → Text → Outcome HttpError (Text × Text × Text)
origin_form raw_path query =
    if not (text_starts_with (codes "/") raw_path)
    then err bad_request
    else decoded_target raw_path query (percent_decode raw_path false)

unfoldable pub parse_target : Text → Outcome HttpError (Text × Text × Text)
unfolding percent_decode
parse_target target =
    if target == codes "*"
    then ok (codes "*", codes "*", [])
    else let parts = path_and_query (without_authority target) in origin_form parts.0 parts.1

-- ===== src/Routes/Session.antt =====
-- Who a request is from: the session and CSRF checks, the cookies, and the client's address.
use mathlib.Core.Option
use tldr_tv.Prelude.{
  ℕ, ◌+◌, ◌-◌, ◌*◌, ◌/◌, Bool, true, false, not, ◌&&◌, ◌||◌, Option, none, some, List, [], ◌∷◌, ltb,
  nat_beq, is_nil, length, get_elem?, keep, map, if◌then◌else◌, ◌==◌, list_eq, nat_eq,
}
use tldr_tv.Prelude.Text.{Text, codes, utf8, decimal, trim, split_onto, is_ascii_digit}
use tldr_tv.Prelude.Int.{pos}
use tldr_tv.Prelude.Exec.{Outcome, ok, err, ◌>>=◌, ◌>>◌}
use tldr_tv.Json.{obj, s, i}
use tldr_tv.Crypto.{ct_eq}
use tldr_tv.Http.{Request, Response, Cookie, SameSite, header, add_header, add_cookie}
use tldr_tv.Stores.Csrf
use tldr_tv.Stores.Csrf.{CsrfEntry, token_expiry_ms}
use tldr_tv.Stores.RateLimit.{check_and_record}
use tldr_tv.Auth.{JwtError}
use tldr_tv.Routes.{
  App, World, Handler, json_res, err_json, generate_csrf_token, token_expiration_days,
}

abbrev pub token_cookie : App → Text → Cookie
token_cookie app jwt = record {
  name = codes "token";
  value = jwt;
  http_only = true;
  secure = app.prod;
  same_site = SameSite.strict;
  path = codes "/";
  max_age = some (token_expiration_days * 24 * 60 * 60);
}

abbrev pub csrf_cookie : App → Text → Cookie
csrf_cookie app token = record {
  name = codes "csrf_token";
  value = token;
  http_only = false;
  secure = app.prod;
  same_site = SameSite.lax;
  path = codes "/";
  max_age = some (token_expiry_ms / 1000);
}

abbrev pub delete_token_cookie : App → Cookie
delete_token_cookie app = record (token_cookie app []) { max_age = some 0 }

abbrev pub delete_csrf_cookie : App → Cookie
delete_csrf_cookie app = record (csrf_cookie app []) { max_age = some 0 }

unfoldable pub set_csrf : App → Text → Text → World → World
unfolding Csrf.set
set_csrf app user_id token w = record w { csrf = Csrf.set w.csrf user_id token app.now_ms }

unfoldable pub remove_csrf : Text → World → World
unfolding Csrf.remove
remove_csrf user_id w = record w { csrf = Csrf.remove w.csrf user_id }

abbrev pub set_auth_cookies : App → Response → Text → Text → Handler Response
set_auth_cookies app res user_id jwt = generate_csrf_token >>= λ csrf w. (
  ok (add_cookie (csrf_cookie app csrf) (add_cookie (token_cookie app jwt) res)),
  set_csrf app user_id csrf w,
)

abbrev pub verified : Outcome JwtError Text → Outcome Response Text
verified (ok user_id) = ok user_id
verified (err JwtError.expired) = err (err_json 401 (codes "Token expired"))
verified (err e) = err (err_json 401 (codes "Invalid token"))

unfoldable pub require_auth : App → Request → Handler Text
require_auth app req w = elim app.jwt_secret [
  | none ↦ (err (err_json 503 (codes "Authentication service unavailable")), w)
  | some secret ↦ elim (req.cookie (codes "token")) [
    | none ↦ (err (err_json 401 (codes "Unauthorized")), w)
    | some token ↦ (verified (app.jwt_verify token secret), w)
  ]
]

abbrev pub csrf_refused : Response
csrf_refused = err_json 403 (codes "Invalid CSRF token")

abbrev pub csrf_expired : Response
csrf_expired = err_json 403 (codes "CSRF token expired")

-- `csrf_retry`: it answers the request, with a new token if one could be minted.
abbrev pub retry_with : App → Text → Outcome Response Text → Handler Unit
retry_with app user_id (ok token) w =
    (err (add_cookie (csrf_cookie app token) csrf_expired), set_csrf app user_id token w)
retry_with app user_id (err e) w = (err csrf_expired, remove_csrf user_id w)

abbrev pub csrf_retry : App → Text → Handler Unit
csrf_retry app user_id w = let (r, w') = generate_csrf_token w in retry_with app user_id r w'

abbrev pub csrf_exempt : Request → Bool
csrf_exempt req =
    req.method == codes "GET" || req.path == codes "/api/signup" || req.path == codes "/api/signin"

-- the token on record against the header
unfoldable pub check_token : App → Text → Text → CsrfEntry → Handler Unit
unfolding ct_eq
check_token app user_id csrf_header stored w =
    if not (nat_beq (length (utf8 csrf_header)) (length (utf8 stored.token)))
      || not (ct_eq (utf8 csrf_header) (utf8 stored.token))
    then (err csrf_refused, w)
    else if ltb token_expiry_ms (app.now_ms - stored.timestamp)
    then csrf_retry app user_id w
    else (ok tt, w)

unfoldable pub check_header : App → Text → Text → Handler Unit
unfolding Csrf.get
check_header app user_id csrf_header w = elim (Csrf.get w.csrf user_id) [
  | none ↦ csrf_retry app user_id w
  | some stored ↦ check_token app user_id csrf_header stored w
]

unfoldable pub require_csrf : App → Request → Text → Handler Unit
require_csrf app req user_id w =
    if csrf_exempt req then (ok tt, w) else elim (header req (codes "x-csrf-token")) [
      | none ↦ (err csrf_refused, w)
      | some csrf_header ↦
          if is_nil user_id then (err csrf_refused, w) else check_header app user_id csrf_header w
    ]

-- How the routes that change something begin: who is signed in, then the CSRF check.
abbrev pub as_user : App → Request → (Text → Handler Response) → Handler Response
as_user app req f = require_auth app req >>= λ user_id. require_csrf app req user_id >> f user_id

-- `parse::<usize>` of decimal digits, on 64 bits
abbrev pub parse_digits : ℕ → Text → Option ℕ
parse_digits acc [] = some acc
parse_digits acc (c ∷ cs) =
    let n = acc * 10 + (c - b'0') in
    let rest = parse_digits n cs in
    if is_ascii_digit c && ltb n 0x10000000000000000 then rest else none

pub parse_usize : Text → Option ℕ
parse_usize [] = none
parse_usize (c ∷ []) = if is_ascii_digit c then some (c - b'0') else none
parse_usize (c ∷ d ∷ cs) =
    if nat_beq c b'+' then parse_digits 0 (d ∷ cs) else parse_digits 0 (c ∷ d ∷ cs)

unfoldable pub hops : App → ℕ
unfolding trim parse_usize
hops app = elim app.trust_proxy [ none ↦ 0 | some v ↦ Option.get_or (parse_usize (trim v)) 0 ]

unfoldable pub forwarded_chain : Text → List Text
unfolding trim
forwarded_chain xff = keep (λ part. not (is_nil part)) (map trim (split_onto b',' [] xff))

-- `chain.len().checked_sub(hops).and_then(|i| chain.get(i))`
abbrev pub from_right : ℕ → List Text → Option Text
from_right n chain = if ltb (length chain) n then none else get_elem? chain (length chain - n)

unfoldable pub client_ip : App → Request → Text
client_ip app req =
    let n = hops app in
    if ltb 0 n
    then elim (header req (codes "x-forwarded-for")) [
      | none ↦ req.peer_ip
      | some xff ↦ Option.get_or (from_right n (forwarded_chain xff)) req.peer_ip
    ]
    else req.peer_ip

abbrev pub rate_limited : ℕ → Response
rate_limited secs = add_header (codes "Retry-After") (decimal secs) (
    json_res 429 (
      obj (
        (codes "error", s (codes "Too many authentication attempts. Try again later."))
        ∷ (codes "retryAfter", i (pos secs))
        ∷ [])))

unfoldable pub enforce_auth_rate_limit : App → Request → Handler Unit
unfolding client_ip check_and_record
enforce_auth_rate_limit app req w =
    let (store, status) = check_and_record w.auth_rate (client_ip app req) app.now_ms in
    (
      if status.limited then err (rate_limited status.retry_after_secs) else ok tt,
      record w { auth_rate = store },
    )

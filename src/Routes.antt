-- ===== src/Routes.antt =====
-- backend/src/routes.rs: what the handlers share. `App` is the part of `AppState` that does not
-- change, with the environment and the services the handlers call: the JSON parser, the tokens
-- of auth.rs, the passwords of kdf.rs and the Stripe worker. Their modules are interfaces here.
-- The clock stands still while one request is served. `World` is what a request may change.
pub mod Session
pub mod Account
pub mod Signin
pub mod Profile
pub mod Usage
pub mod Billing
pub mod Webhook
pub mod Dispatch
pub mod Guards
pub mod Credentials
pub mod Replay
pub mod Ownership
pub mod Metering
mod Examples
use tldr_tv.Prelude.{
  ℕ, ◌+◌, ◌*◌, ◌/◌, Bool, true, false, Option, none, some, List, [], ◌∷◌, if◌then◌else◌, ◌≡◌, refl,
}
use tldr_tv.Prelude.Text.{Bytes, Text, codes, text_starts_with}
use tldr_tv.Prelude.Int.{ℤ, pos}
use tldr_tv.Prelude.Exec.{Outcome, ok, err, Exec}
use tldr_tv.Json.{Json, obj, s, i}
use tldr_tv.Crypto.{Random, random_bytes, random_uuid_v4, hex_encode}
use tldr_tv.Auth.{JwtError}
use tldr_tv.Http.{Request, Response, json, text}
use tldr_tv.Db.{Db, DbError, DbExec}
use tldr_tv.Stores.Csrf.{CsrfStore}
use tldr_tv.Stores.Lockout.{LockoutStore}
use tldr_tv.Stores.RateLimit.{RateLimitStore}

pub data StripeError : Type 0 where
  timeout busy other : StripeError

pub record CheckoutParams : Type 0 where
  pub customer_email : Text
  pub price_id : Text
  pub success_url : Text
  pub cancel_url : Text
  pub app_name : Option Text

pub record CheckoutSession : Type 0 where
  pub url : Option Text
  pub id : Text
  pub customer : Option Text

pub record PortalSession : Type 0 where
  pub url : Option Text
  pub id : Text

-- What the Stripe worker answers to each call while the request is served.
pub record Stripe : Type 0 where
  pub customer_email : Text → Outcome StripeError (Option Text)
  pub retrieve_subscription : Text → Outcome StripeError Json
  pub price_id_for_lookup_key : Text → Outcome StripeError (Option Text)
  pub create_checkout_session : CheckoutParams → Outcome StripeError CheckoutSession
  pub create_portal_session : Text → Text → Outcome StripeError PortalSession

pub record App : Type 0 where
  pub prod : Bool
  pub integration_test : Bool
  pub jwt_secret : Option Text
  pub cors_origins : List Text
  pub port : ℕ
  pub frontend_url : Option Text
  pub app_name : Option Text
  pub trust_proxy : Option Text
  pub free_usage_limit : ℤ
  pub stripe : Option Stripe
  pub stripe_endpoint_secret : Option Text
  pub stripe_lookup_keys : List Text
  pub now_ms : ℕ
  pub parse : Bytes → Option Json
  pub jwt_sign : Text → ℕ → Text → Text
  pub jwt_verify : Text → Text → Outcome JwtError Text
  pub hash_password : Text → Option Text
  pub verify_password : Text → Text → Bool
  pub needs_rehash : Text → Bool
  pub to_lowercase : Text → Text
  pub construct_event : Bytes → Text → Text → Option Json
  pub iso_from_secs : ℤ → Text

abbrev pub now_secs : App → ℕ
now_secs app = app.now_ms / 1000

pub record World : Type 0 where
  pub csrf : CsrfStore
  pub lockout : LockoutStore
  pub auth_rate : RateLimitStore
  pub db : Db
  pub random : Random

-- A part of a handler: it may answer the request early.
abbrev pub Handler : Type 0 → Type 0
Handler A = Exec World Response A

abbrev pub with_db : {A : Type 0} → DbExec A → Handler (Outcome DbError A)
with_db m w = let (r, db) = m w.db in (ok r, record w { db = db })

-- The `match` on the answer of a database call: what to do with a value, and with an error.
abbrev pub on_db : {A B : Type 0} → DbExec A → (DbError → Handler B) → (A → Handler B) → Handler B
on_db m on_err on_ok w =
    let (r, db) = m w.db in
    elim r [ ok a ↦ on_ok a (record w { db = db }) | err e ↦ on_err e (record w { db = db }) ]

pub on_db_ok :
    {A B : Type 0} (m : DbExec A) (on_err : DbError → Handler B) (on_ok : A → Handler B) (w : World)
    (a : A)
    → (m w.db).0 ≡ ok a
    → on_db m on_err on_ok w ≡ on_ok a (record w { db = (m w.db).1 })
on_db_ok m on_err on_ok w a q = rw (on_db, q) refl

abbrev pub answered : Outcome Response Response × World → Response × World
answered (ok res, w) = (res, w)
answered (err res, w) = (res, w)

-- the response of a handler, early or not
abbrev pub run : Handler Response → World → Response × World
run m w = answered (m w)

abbrev pub not_found : Response
not_found = text 404 (codes "404 Not Found")

abbrev pub json_res : ℕ → Json → Response
json_res status v = json status v

abbrev pub err_json : ℕ → Text → Response
err_json status msg = json_res status (obj ((codes "error", s msg) ∷ []))

abbrev pub db_err : Response
db_err = err_json 500 (codes "Server error")

abbrev pub stripe_err : Text → StripeError → Response
stripe_err log_msg timeout = err_json 504 (codes "Payment provider timed out")
stripe_err log_msg busy = err_json 503 (codes "Payment provider busy")
stripe_err log_msg other =
    if text_starts_with (codes "Portal") log_msg
    then err_json 500 (codes "Stripe portal failed")
    else if text_starts_with (codes "Checkout") log_msg
    then err_json 500 (codes "Stripe session failed")
    else err_json 500 (codes "Stripe request failed")

abbrev pub optional : Option Text → Json
optional none = Json.null
optional (some v) = s v

abbrev pub optional_int : Option ℤ → Json
optional_int none = Json.null
optional_int (some v) = i v

abbrev pub parse_json_body : App → Request → Handler Json
parse_json_body app req w = elim (app.parse req.body) [
  | none ↦ (err (err_json 400 (codes "Invalid request body")), w)
  | some v ↦ (ok v, w)
]

abbrev pub token_or_error : Option Bytes → Outcome Response Text
token_or_error none = err (err_json 500 (codes "Server error"))
token_or_error (some b) = ok (hex_encode b)

abbrev pub generate_csrf_token : Handler Text
generate_csrf_token w =
    let (bytes, rest) = random_bytes 32 w.random in
    (token_or_error bytes, record w { random = rest })

abbrev pub id_or_error : Option Text → Outcome Response Text
id_or_error none = err (err_json 500 (codes "Server error"))
id_or_error (some id) = ok id

abbrev pub generate_uuid : Handler Text
generate_uuid w =
    let (id, rest) = random_uuid_v4 w.random in (id_or_error id, record w { random = rest })

-- TOKEN_EXPIRATION_DAYS, and auth.rs: `token_expire_timestamp`
abbrev pub token_expiration_days : ℕ
token_expiration_days = 30

abbrev pub token_expire_timestamp : App → ℕ → ℕ
token_expire_timestamp app days = now_secs app + days * 24 * 60 * 60

abbrev pub generate_token : App → Text → Handler Text
generate_token app user_id w = elim app.jwt_secret [
  | none ↦ (err (err_json 500 (codes "Server error")), w)
  | some secret ↦
      (ok (app.jwt_sign user_id (token_expire_timestamp app token_expiration_days) secret), w)
]

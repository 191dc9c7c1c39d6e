-- ===== src/Routes/Account.antt =====
-- The sign-up route of backend/src/routes.rs, and how the routes show an account.
use tldr_tv.Prelude.{Bool, Option, none, some, List, [], ◌∷◌, ◌++◌, if◌then◌else◌}
use tldr_tv.Prelude.Text.{Text, codes, trim}
use tldr_tv.Prelude.Int.{pos}
use tldr_tv.Prelude.Exec.{ok, err, pure, ◌>>=◌, ◌>>◌}
use tldr_tv.Json.{Json, obj, s, i, get_str}
use tldr_tv.Http.{Request, Response}
use tldr_tv.Validation.{validate_email, validate_password, validate_name, escape_html}
use tldr_tv.Db.{DbError, Subscription, User, is_duplicate}
use tldr_tv.Db.Pool.{create_account}
use tldr_tv.Routes.{
  App, World, Handler, on_db, run, json_res, err_json, db_err, optional_int, parse_json_body,
  generate_uuid, generate_token, token_expire_timestamp, token_expiration_days,
}
use tldr_tv.Routes.Session.{enforce_auth_rate_limit, set_auth_cookies}

-- `let Some(v) = .. else { return res; }`
abbrev pub or_answer : {A : Type 0} → Option A → Response → Handler A
or_answer none res w = (err res, w)
or_answer (some a) res w = (ok a, w)

abbrev pub answer_unless : Bool → Response → Handler Unit
answer_unless b res w = (if b then ok tt else err res, w)

abbrev pub subscription_json : Subscription → Json
subscription_json sub = obj (
    (codes "stripeID", s sub.stripe_id)
    ∷ (codes "expires", optional_int sub.expires)
    ∷ (codes "status", s sub.status)
    ∷ [])

abbrev pub subscription_member : Option Subscription → List (Text × Json)
subscription_member none = []
subscription_member (some sub) = (codes "subscription", subscription_json sub) ∷ []

abbrev pub usage_member : User → List (Text × Json)
usage_member u = elim u.usage [
  | none ↦ []
  | some usage ↦
      (
        codes "usage",
        obj ((codes "count", i usage.count) ∷ (codes "reset_at", optional_int usage.reset_at) ∷ []),
      )
      ∷ []
]

abbrev pub user_json : User → Json
user_json u = obj (
    (codes "_id", s u.id)
    ∷ (codes "email", s u.email)
    ∷ (codes "name", s u.name)
    ∷ (codes "created_at", i u.created_at)
    ∷ (subscription_member u.subscription ++ usage_member u))

abbrev pub bad_email : Response
bad_email = err_json 400 (codes "Invalid email format or length")

abbrev pub bad_password : Response
bad_password = err_json 400 (codes "Password must be 6-72 characters")

abbrev pub bad_name : Response
bad_name = err_json 400 (codes "Name required (max 100 characters)")

abbrev pub duplicate_account : Response
duplicate_account = err_json 400 (codes "Unable to create account with provided credentials")

-- `email.to_lowercase().trim()`
unfoldable pub normalized : App → Text → Text
unfolding trim
normalized app email = trim (app.to_lowercase email)

pub record Fields : Type 0 where
  pub email : Text
  pub password : Text
  pub name : Text

-- the fields of the sign-up body, as they were sent
unfoldable pub signup_fields : App → Request → Handler Fields
unfolding validate_email validate_password validate_name
signup_fields app req = do
  body ← parse_json_body app req
  email ← or_answer (get_str body (codes "email")) bad_email
  password ← or_answer (get_str body (codes "password")) bad_password
  name ← or_answer (get_str body (codes "name")) bad_name
  answer_unless (validate_email email) bad_email
  answer_unless (validate_password password) bad_password
  answer_unless (validate_name name) bad_name
  pure (record { email = email; password = password; name = name })

-- what a failed `create_account` answers
abbrev pub creation_failed : DbError → Handler Unit
creation_failed e w = (err (if is_duplicate e then duplicate_account else db_err), w)

abbrev pub new_user : App → Text → Text → Text → User
new_user app id email name = record {
  id = id;
  email = email;
  name = name;
  created_at = pos app.now_ms;
  subscription = none;
  usage = none;
}

unfoldable pub created_json : App → Text → Text → Text → Json
unfolding trim
created_json app id email name = obj (
    (codes "id", s id)
    ∷ (codes "email", s email)
    ∷ (codes "name", s (trim name))
    ∷ (codes "tokenExpires", i (pos (token_expire_timestamp app token_expiration_days)))
    ∷ [])

unfoldable pub signup_handler : App → Request → Handler Response
unfolding enforce_auth_rate_limit trim validate_email validate_password validate_name escape_html
    create_account
signup_handler app req = do
  enforce_auth_rate_limit app req
  fields ← signup_fields app req
  hash ← or_answer (app.hash_password fields.password) (err_json 500 (codes "Server error"))
  insert_id ← generate_uuid
  on_db
      (create_account
        (new_user app insert_id (normalized app fields.email) (escape_html (trim fields.name)))
        (record { email = normalized app fields.email; password = hash; user_id = insert_id }))
      creation_failed (λ _. pure tt)
  token ← generate_token app insert_id
  set_auth_cookies app
      (json_res 201
        (created_json app insert_id (normalized app fields.email) (escape_html (trim fields.name))))
      insert_id token

unfoldable pub signup : App → Request → World → Response × World
unfolding signup_handler
signup app req = run (signup_handler app req)

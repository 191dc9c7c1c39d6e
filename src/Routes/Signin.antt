-- ===== src/Routes/Signin.antt =====
-- The sign-in route of backend/src/routes.rs.
use tldr_tv.Prelude.{ℕ, not, Option, none, some, [], ◌∷◌, ◌++◌, if◌then◌else◌}
use tldr_tv.Prelude.Text.{Text, codes, decimal}
use tldr_tv.Prelude.Int.{pos}
use tldr_tv.Prelude.Exec.{ok, err, pure, raise, ◌>>=◌, ◌>>◌}
use tldr_tv.Json.{Json, obj, s, i, get_str}
use tldr_tv.Http.{Request, Response, add_header}
use tldr_tv.Validation.{validate_email}
use tldr_tv.Db.{User, AuthRecord, by_email}
use tldr_tv.Db.Pool.{find_user, find_auth, update_auth_password}
use tldr_tv.Stores.Lockout.{LockStatus, is_locked, record_failure, clear}
use tldr_tv.Routes.{
  App, World, Handler, on_db, run, json_res, err_json, db_err, parse_json_body, generate_token,
  token_expire_timestamp, token_expiration_days,
}
use tldr_tv.Routes.Session.{client_ip, enforce_auth_rate_limit, set_auth_cookies}
use tldr_tv.Routes.Account.{or_answer, answer_unless, subscription_member, normalized}

abbrev pub invalid_credentials : ℕ → Response
invalid_credentials status = err_json status (codes "Invalid credentials")

unfoldable pub check_lockout : App → Text → Text → Handler LockStatus
unfolding is_locked
check_lockout app email ip w =
    let (store, status) = is_locked w.lockout email ip app.now_ms in
    (ok status, record w { lockout = store })

abbrev pub locked_out : ℕ → Response
locked_out remaining_time = add_header (codes "Retry-After") (decimal remaining_time) (
    json_res 429 (
      obj (
        (codes "error", s (codes "Account temporarily locked. Try again later."))
        ∷ (codes "retryAfter", i (pos remaining_time))
        ∷ [])))

-- a failed sign-in: it is recorded, and answered like any other
unfoldable pub refuse_signin : {A : Type 0} → App → Text → Text → Handler A
unfolding record_failure
refuse_signin app email ip w =
    let (store, locked) = record_failure w.lockout email ip app.now_ms in
    (err (invalid_credentials 401), record w { lockout = store })

unfoldable pub known_account : App → Text → Text → Option AuthRecord → Handler AuthRecord
unfolding record_failure
known_account app email ip none = refuse_signin app email ip
known_account app email ip (some auth) = pure auth

unfoldable pub check_password : App → Text → Text → Text → AuthRecord → Handler Unit
unfolding record_failure
check_password app email ip password auth w =
    let refused = refuse_signin app email ip w in
    if app.verify_password password auth.password then (ok tt, w) else refused

-- A failure to rehash is logged only.
unfoldable pub rehash : App → Text → Text → AuthRecord → Handler Unit
unfolding update_auth_password
rehash app email password auth w =
    if app.needs_rehash auth.password
    then elim (app.hash_password password) [
      | none ↦ (ok tt, w)
      | some new_hash ↦
          let (r, db) = update_auth_password email new_hash w.db in (ok tt, record w { db = db })
    ]
    else (ok tt, w)

unfoldable pub clear_lockout : Text → Text → World → World
unfolding clear
clear_lockout email ip w = record w { lockout = clear w.lockout email ip }

abbrev pub signed_in_json : App → User → Json
signed_in_json app user = obj (
    (codes "id", s user.id)
    ∷ (codes "email", s user.email)
    ∷ (codes "name", s user.name)
    ∷ (subscription_member user.subscription
        ++ (codes "tokenExpires", i (pos (token_expire_timestamp app token_expiration_days))) ∷ []))

-- what follows a right password
unfoldable pub open_session : App → Text → Text → User → Handler Response
unfolding clear
open_session app email ip user w =
    (do
      token ← generate_token app user.id
      set_auth_cookies app (json_res 200 (signed_in_json app user)) user.id token)
      (clear_lockout email ip w)

-- the sign-in of an email and a password that are well-formed
unfoldable pub authenticate : App → Text → Text → Text → Handler Response
unfolding is_locked record_failure clear find_auth find_user update_auth_password
authenticate app email ip password = do
  lock ← check_lockout app email ip
  answer_unless (not lock.locked) (locked_out lock.remaining_time)
  found ← on_db (find_auth email) (λ _. raise db_err) pure
  auth ← known_account app email ip found
  check_password app email ip password auth
  rehash app email password auth
  user ← on_db (find_user (by_email email)) (λ _. raise db_err) pure
  user' ← or_answer user (invalid_credentials 401)
  open_session app email ip user'

unfoldable pub signin_handler : App → Request → Handler Response
unfolding enforce_auth_rate_limit validate_email client_ip authenticate
signin_handler app req = do
  enforce_auth_rate_limit app req
  body ← parse_json_body app req
  email ← or_answer (get_str body (codes "email")) (invalid_credentials 400)
  password ← or_answer (get_str body (codes "password")) (invalid_credentials 400)
  answer_unless (validate_email email) (invalid_credentials 400)
  authenticate app (normalized app email) (client_ip app req) password

unfoldable pub signin : App → Request → World → Response × World
unfolding signin_handler
signin app req = run (signin_handler app req)

-- ===== src/Routes/Profile.antt =====
-- The sign-out and profile routes of backend/src/routes.rs.
use tldr_tv.Prelude.{ℕ, Option, none, some, [], ◌∷◌, nat_beq, if◌then◌else◌}
use tldr_tv.Prelude.Text.{Text, codes, trim}
use tldr_tv.Prelude.Exec.{ok, err, pure, raise, ◌>>=◌, ◌>>◌}
use tldr_tv.Json.{Json, obj, s, get, get_str, as_str}
use tldr_tv.Http.{Request, Response, add_cookie}
use tldr_tv.Validation.{validate_name, escape_html}
use tldr_tv.Db.{User, by_id}
use tldr_tv.Db.Pool.{find_user, update_user_set_name}
use tldr_tv.Stores.Csrf.{remove}
use tldr_tv.Routes.{App, World, Handler, on_db, run, json_res, err_json, db_err, parse_json_body}
use tldr_tv.Routes.Session.{
  require_auth, require_csrf, as_user, remove_csrf, delete_token_cookie, delete_csrf_cookie,
}
use tldr_tv.Routes.Account.{or_answer, user_json}

abbrev pub signed_out : App → Response
signed_out app = add_cookie (delete_csrf_cookie app) (
    add_cookie (delete_token_cookie app)
      (json_res 200 (obj ((codes "message", s (codes "Signed out successfully")) ∷ []))))

unfoldable pub signout_handler : App → Request → Handler Response
unfolding require_auth require_csrf remove
signout_handler app req = as_user app req λ user_id w. (ok (signed_out app), remove_csrf user_id w)

unfoldable pub signout : App → Request → World → Response × World
unfolding signout_handler
signout app req = run (signout_handler app req)

abbrev pub user_missing : Response
user_missing = err_json 404 (codes "User not found")

unfoldable pub me_get_handler : App → Request → Handler Response
unfolding require_auth find_user
me_get_handler app req = do
  user_id ← require_auth app req
  user ← on_db (find_user (by_id user_id)) (λ _. raise db_err) pure
  user' ← or_answer user user_missing
  pure (json_res 200 (user_json user'))

unfoldable pub me_get : App → Request → World → Response × World
unfolding me_get_handler
me_get app req = run (me_get_handler app req)

abbrev pub update_failed : Response
update_failed = err_json 500 (codes "Failed to update user")

abbrev pub name_refused : Response
name_refused = err_json 400 (codes "Name must be 1-100 characters")

-- a `name` member, if there is one, is a valid name
unfoldable pub check_name : Option Json → Handler Unit
unfolding validate_name
check_name none w = (ok tt, w)
check_name (some v) w = elim (as_str v) [
  | none ↦ (err name_refused, w)
  | some name ↦ if validate_name name then (ok tt, w) else (err name_refused, w)
]

unfoldable pub find_or_answer : Text → Handler User
unfolding find_user
find_or_answer user_id = do
  user ← on_db (find_user (by_id user_id)) (λ _. raise update_failed) pure
  or_answer user user_missing

-- what follows the update of that many rows
unfoldable pub updated : Text → ℕ → Handler Response
unfolding find_user
updated user_id changed w =
    let shown = (find_or_answer user_id >>= λ u. pure (json_res 200 (user_json u))) w in
    if nat_beq changed 0 then (ok (err_json 400 (codes "No changes made")), w) else shown

unfoldable pub rename : App → Request → Text → Handler Response
unfolding find_user validate_name update_user_set_name escape_html trim
rename app req user_id = do
  body ← parse_json_body app req
  check_name (get body (codes "name"))
  found ← find_or_answer user_id
  name ← or_answer (get_str body (codes "name")) (err_json 400 (codes "No valid fields to update"))
  changed ←
      on_db (update_user_set_name user_id (escape_html (trim name))) (λ _. raise update_failed) pure
  updated user_id changed

unfoldable pub me_put_handler : App → Request → Handler Response
unfolding require_auth require_csrf rename
me_put_handler app req = as_user app req (rename app req)

unfoldable pub me_put : App → Request → World → Response × World
unfolding me_put_handler
me_put app req = run (me_put_handler app req)

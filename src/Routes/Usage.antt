-- ===== src/Routes/Usage.antt =====
-- The free-tier quota route of backend/src/routes.rs.
use tldr_tv.Prelude.{
  ℕ, ◌+◌, ◌*◌, Bool, true, false, not, ◌&&◌, ◌||◌, Option, none, some, [], ◌∷◌, if◌then◌else◌, ◌==◌,
  list_eq, nat_eq,
}
use mathlib.Core.Option
use tldr_tv.Prelude.Text.{Text, codes}
use tldr_tv.Prelude.Int.{ℤ, pos, negsuc, int_ltb, ◌+ℤ◌, neg, max_zero}
use tldr_tv.Prelude.Exec.{ok, err, pure, raise, ◌>>=◌, ◌>>◌}
use tldr_tv.Json.{Json, obj, s, i, get_str}
use tldr_tv.Http.{Request, Response}
use tldr_tv.Db.{Subscription, User, by_id}
use tldr_tv.Db
use tldr_tv.Db.Pool.{find_user, reset_usage_window, consume_usage}
use tldr_tv.Routes.{App, World, Handler, on_db, run, now_secs, json_res, err_json, db_err}
use tldr_tv.Routes.Session.{require_auth, require_csrf, as_user}
use tldr_tv.Routes.Account.{or_answer, answer_unless}

abbrev pub resolve_usage : User → Db.Usage
resolve_usage user = Option.get_or user.usage (record { count = pos 0; reset_at = none })

abbrev pub unexpired : App → Option ℤ → Bool
unexpired app none = true
unexpired app (some e) = int_ltb (pos (now_secs app)) e

abbrev pub is_subscriber : App → Subscription → Bool
is_subscriber app sub = sub.status == codes "active" && unexpired app sub.expires

abbrev pub sub_expires_iso : App → Subscription → Json
sub_expires_iso app sub = elim sub.expires [
  | none ↦ Json.null
  | some secs ↦ s (app.iso_from_secs secs)
]

-- USAGE_WINDOW_SECS
abbrev pub usage_window_secs : ℕ
usage_window_secs = 30 * 24 * 60 * 60

abbrev pub usage_limit_reached : ℤ → Response
usage_limit_reached limit = json_res 429 (
    obj (
      (codes "error", s (codes "Usage limit reached"))
      ∷ (codes "remaining", i (pos 0))
      ∷ (codes "total", i limit)
      ∷ (codes "isSubscriber", Json.bool false)
      ∷ []))

abbrev pub status_json : App → Subscription → Json
status_json app sub =
    obj ((codes "status", s sub.status) ∷ (codes "expiresAt", sub_expires_iso app sub) ∷ [])

abbrev pub unlimited : App → Subscription → Response
unlimited app sub = json_res 200 (
    obj (
      (codes "remaining", i (negsuc 0))
      ∷ (codes "total", i (negsuc 0))
      ∷ (codes "isSubscriber", Json.bool true)
      ∷ (codes "subscription", status_json app sub)
      ∷ []))

-- a subscriber is answered at once
abbrev pub answer_subscriber : App → Option Subscription → Handler Unit
answer_subscriber app none w = (ok tt, w)
answer_subscriber app (some sub) w =
    if is_subscriber app sub then (err (unlimited app sub), w) else (ok tt, w)

-- `usage.reset_at.map(|r| now > r).unwrap_or(true)`
abbrev pub window_over : ℕ → Option ℤ → Bool
window_over now none = true
window_over now (some r) = int_ltb r (pos now)

abbrev pub some_or_limit : ℤ → Option ℤ → Handler ℤ
some_or_limit limit none = raise (usage_limit_reached limit)
some_or_limit limit (some count) = pure count

-- The count to show: of a new window, after this request is counted, or as it is.
unfoldable pub count_usage : App → Text → Db.Usage → Bool → Handler ℤ
unfolding reset_usage_window consume_usage
count_usage app user_id usage is_tracking w =
    let now = now_secs app in
    let limit = app.free_usage_limit in
    let fresh =
      on_db (reset_usage_window user_id (pos (now + usage_window_secs)) is_tracking)
        (λ _. raise db_err) pure w in
    let consumed =
      on_db (consume_usage user_id limit) (λ _. raise db_err) (some_or_limit limit) w in
    if window_over now usage.reset_at
    then fresh
    else if is_tracking
    then consumed
    else (ok usage.count, w)

abbrev pub usage_json : App → Option Subscription → ℤ → Json
usage_json app sub count =
    let limit = app.free_usage_limit in
    obj (
      (codes "remaining", i (max_zero (limit +ℤ neg count)))
      ∷ (codes "total", i limit)
      ∷ (codes "isSubscriber", Json.bool false)
      ∷ (codes "used", i count)
      ∷ (codes "subscription", elim sub [ none ↦ Json.null | some p ↦ status_json app p ])
      ∷ [])

-- the work for a user that is known
unfoldable pub meter : App → User → Text → Bool → Handler Response
unfolding reset_usage_window consume_usage
meter app user user_id is_tracking = do
  answer_subscriber app user.subscription
  answer_unless (not (is_tracking && int_ltb app.free_usage_limit (pos 1)))
      (usage_limit_reached app.free_usage_limit)
  count ← count_usage app user_id (resolve_usage user) is_tracking
  pure (json_res 200 (usage_json app user.subscription count))

abbrev pub look_up_user : Text → Handler (Option User)
look_up_user user_id = on_db (find_user (by_id user_id)) (λ _. raise db_err) pure

abbrev pub user_or_404 : Option User → Handler User
user_or_404 user = or_answer user (err_json 404 (codes "User not found"))

abbrev pub meter_found : App → Text → Bool → Option User → Handler Response
meter_found app user_id is_tracking user =
    user_or_404 user >>= λ user'. meter app user' user_id is_tracking

abbrev pub bad_operation : Response
bad_operation = err_json 400 (codes "Invalid operation. Must be 'check' or 'track'")

abbrev pub operate : App → Text → Text → Handler Response
operate app user_id operation =
    let is_tracking = operation == codes "track" in
    answer_unless (operation == codes "check" || is_tracking) bad_operation
    >> (look_up_user user_id >>= meter_found app user_id is_tracking)

unfoldable pub usage_for : App → Request → Text → Handler Response
usage_for app req user_id = or_answer (app.parse req.body) db_err >>= λ body.
    operate app user_id (Option.get_or (get_str body (codes "operation")) [])

unfoldable pub usage_handler : App → Request → Handler Response
unfolding require_auth require_csrf usage_for
usage_handler app req = as_user app req (usage_for app req)

unfoldable pub usage : App → Request → World → Response × World
unfolding usage_handler
usage app req = run (usage_handler app req)

-- ===== src/Routes/Dispatch.antt =====
-- The dispatcher, the health check and the cleanups of backend/src/routes.rs.
use tldr_tv.Prelude.{
  ℕ, ◌*◌, Bool, false, ◌&&◌, ◌||◌, not, none, some, List, [], ◌∷◌, if◌then◌else◌, ◌==◌, list_eq,
  nat_eq, every, is_nil, nat_beq,
}
use tldr_tv.Prelude.Text.{
  Text, codes, text_starts_with, split_onto, rsplit_once, is_ascii_alphanumeric,
}
use tldr_tv.Prelude.Int.{pos, sub_ℕ}
use tldr_tv.Prelude.Exec.{ok, err}
use tldr_tv.Json.{obj, s, i}
use tldr_tv.Http.{Request, Response}
use tldr_tv.Db.Pool.{ping, prune_webhook_events}
use tldr_tv.Stores.Csrf
use tldr_tv.Stores.Lockout
use tldr_tv.Stores.RateLimit
use tldr_tv.Routes.{App, World, json_res, err_json, not_found}
use tldr_tv.Routes.Account.{signup}
use tldr_tv.Routes.Signin.{signin}
use tldr_tv.Routes.Profile.{signout, me_get, me_put}
use tldr_tv.Routes.Usage.{usage}
use tldr_tv.Routes.Billing.{checkout, portal}
use tldr_tv.Routes.Webhook.{payment}

abbrev pub health_json : App → Text → Text → ℕ → Response
health_json app status database code = json_res code (
    obj (
      (codes "status", s status)
      ∷ (codes "database", s database)
      ∷ (codes "timestamp", i (pos app.now_ms))
      ∷ []))

unfoldable pub health : App → World → Response × World
unfolding ping
health app w =
    let (r, db) = ping w.db in
    (
      elim r [
        | ok _ ↦ health_json app (codes "ok") (codes "connected") 200
        | err e ↦ health_json app (codes "degraded") (codes "unavailable") 503
      ],
      record w { db = db },
    )

-- The answer to an error nothing else handles.
abbrev pub unhandled : App → Text → Response
unhandled app message =
    if app.prod then err_json 500 (codes "Internal server error") else err_json 500 message

-- Where a request goes. The routes of guides.rs and the static files are modules of their own.
pub data Target : Type 0 where
  to_payment to_health to_error_test to_signup to_signin to_signout to_me_get to_me_put to_usage
        to_checkout to_portal to_fetch_url to_tts_once to_list_guides to_create_guide
        to_guide_by_slug to_media to_static to_not_found :
      Target

abbrev pub is_route : Request → Text → Text → Bool
is_route req method path = req.method == method && req.path == path

abbrev pub is_read : Request → Bool
is_read req = req.method == codes "GET" || req.method == codes "HEAD"

unfoldable pub target : App → Request → Target
target app req =
    if is_route req (codes "POST") (codes "/api/payment")
    then Target.to_payment
    else if is_route req (codes "GET") (codes "/api/health")
    then Target.to_health
    else if is_route req (codes "GET") (codes "/api/__integration_error_test__")
        && app.integration_test
    then Target.to_error_test
    else if is_route req (codes "POST") (codes "/api/signup")
    then Target.to_signup
    else if is_route req (codes "POST") (codes "/api/signin")
    then Target.to_signin
    else if is_route req (codes "POST") (codes "/api/signout")
    then Target.to_signout
    else if is_route req (codes "GET") (codes "/api/me")
    then Target.to_me_get
    else if is_route req (codes "PUT") (codes "/api/me")
    then Target.to_me_put
    else if is_route req (codes "POST") (codes "/api/usage")
    then Target.to_usage
    else if is_route req (codes "POST") (codes "/api/checkout")
    then Target.to_checkout
    else if is_route req (codes "POST") (codes "/api/portal")
    then Target.to_portal
    else if is_route req (codes "POST") (codes "/api/fetch-url")
    then Target.to_fetch_url
    else if is_route req (codes "POST") (codes "/api/tts")
    then Target.to_tts_once
    else if is_route req (codes "GET") (codes "/api/guides")
    then Target.to_list_guides
    else if is_route req (codes "POST") (codes "/api/guides")
    then Target.to_create_guide
    else if text_starts_with (codes "/api/guides/") req.path
    then Target.to_guide_by_slug
    else if is_read req
        && (text_starts_with (codes "/audio/") req.path
            || text_starts_with (codes "/images/") req.path)
    then Target.to_media
    else if text_starts_with (codes "/api/") req.path
    then Target.to_not_found
    else if is_read req
    then Target.to_static
    else Target.to_not_found

-- The dispatcher; `elsewhere` serves the routes that are not modelled.
unfoldable pub dispatch :
    (Target → Request → World → Response × World) → App → Request → World → Response × World
unfolding target signup signin signout me_get me_put usage checkout portal payment health
dispatch elsewhere app req w = elim (target app req) [
  | to_payment ↦ payment app req w
  | to_health ↦ health app w
  | to_error_test ↦ (unhandled app (codes "Intentional integration test error"), w)
  | to_signup ↦ signup app req w
  | to_signin ↦ signin app req w
  | to_signout ↦ signout app req w
  | to_me_get ↦ me_get app req w
  | to_me_put ↦ me_put app req w
  | to_usage ↦ usage app req w
  | to_checkout ↦ checkout app req w
  | to_portal ↦ portal app req w
  | to_not_found ↦ (not_found, w)
  | to_fetch_url ↦ elsewhere Target.to_fetch_url req w
  | to_tts_once ↦ elsewhere Target.to_tts_once req w
  | to_list_guides ↦ elsewhere Target.to_list_guides req w
  | to_create_guide ↦ elsewhere Target.to_create_guide req w
  | to_guide_by_slug ↦ elsewhere Target.to_guide_by_slug req w
  | to_media ↦ elsewhere Target.to_media req w
  | to_static ↦ elsewhere Target.to_static req w
]

abbrev pub last_part : List Text → Text
last_part [] = []
last_part (p ∷ []) = p
last_part (p ∷ q ∷ ps) = last_part (q ∷ ps)

pub has_extension : Text → Bool
has_extension path = elim (rsplit_once b'.' (last_part (split_onto b'/' [] path))) [
  | none ↦ false
  | some (stem, ext) ↦
      not (is_nil ext) && every (λ c. is_ascii_alphanumeric c || nat_beq c b'_') ext
]

pub run_csrf_cleanup : App → World → World
run_csrf_cleanup app w = record w { csrf = (Csrf.cleanup w.csrf app.now_ms).0 }

-- WEBHOOK_RETENTION_DAYS
abbrev pub webhook_retention_days : ℕ
webhook_retention_days = 30

pub run_webhook_cleanup : App → World → World
unfolding prune_webhook_events
run_webhook_cleanup app w =
    let cutoff = sub_ℕ app.now_ms (webhook_retention_days * 24 * 60 * 60 * 1000) in
    let (r, db) = prune_webhook_events cutoff w.db in record w { db = db }

pub run_lockout_cleanup : App → World → World
run_lockout_cleanup app w = record w {
  lockout = (Lockout.cleanup w.lockout app.now_ms).0;
  auth_rate = (RateLimit.cleanup w.auth_rate app.now_ms).0;
}

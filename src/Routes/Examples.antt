-- ===== src/Routes/Examples.antt =====
-- The theorems on the database, the secrets and the routes at concrete requests.
use tldr_tv.Prelude.{
  arith, ◌≡◌, ◌↔◌, ◌⊎◌, refl, true, false, none, some, [], ◌∷◌, ◌++◌, ◌==◌, list_eq, nat_eq,
}
use tldr_tv.Prelude.Text.{Text, codes}
use tldr_tv.Prelude.Int.{pos}
use tldr_tv.Prelude.Exec.{ok, err}
use tldr_tv.Json.{Json, obj, s}
use tldr_tv.HashMap.{lookup, remove}
use tldr_tv.Crypto.{ct_eq}
use tldr_tv.Http.{Request, empty}
use tldr_tv.Db.{Db, DbError, Tables, User, UserRow, AuthRecord, WebhookEvent, statement}
use tldr_tv.Stores.Lockout.Streak.{fail_at}
use tldr_tv.Http.{Response}
use tldr_tv.Db.Statements.{user_from_row}
use tldr_tv.Db.Pool.{create_account, consume_usage, find_user, find_auth, find_webhook_event}
use tldr_tv.Db.Laws.{create_account_atomic, with_account}
use tldr_tv.Db.Quota.{Consumed, consume_usage-Consumed}
use tldr_tv.Stores.Csrf
use tldr_tv.Stores.Lockout.{is_locked, record_failure}
use tldr_tv.Routes.{App, World, StripeError, Stripe}
use tldr_tv.Routes.Session.{require_auth, require_csrf, check_header, check_token}
use tldr_tv.Routes.Signin.{
  authenticate, invalid_credentials, check_lockout, known_account, check_password, rehash,
  open_session, clear_lockout,
}
use tldr_tv.Routes.Credentials.{
  Verified, authenticate_ok, authenticate_locked, authenticate_rejected,
}
use tldr_tv.Routes.Billing.{redirect_origin, portal_handler, portal_for, open_portal, authorized}
use tldr_tv.Routes.Guards.{HasToken, require_csrf_iff, SafeOrigin, redirect_origin-SafeOrigin}
use tldr_tv.Routes.Ownership.{Passed, Owns, portal_handler_owner}
use tldr_tv.Routes.Usage.{usage_for}
use tldr_tv.Routes.Metering.{Metered, usage_for-Metered}
use tldr_tv.Routes.Webhook.{handle_event}
use tldr_tv.Routes.Replay.{handle_event_seen, handle_event_lost, second_fails, event_row}

abbrev stripe : Stripe
stripe = record {
  customer_email = λ id. ok (some (codes "a@b.co"));
  retrieve_subscription = λ id. err StripeError.timeout;
  price_id_for_lookup_key = λ k. ok none;
  create_checkout_session = λ p. err StripeError.busy;
  create_portal_session = λ c u. ok (record { url = none; id = codes "bps_1" });
}

abbrev body : Json
body = obj ((codes "customerID", s (codes "cus_1")) ∷ [])

-- The token of a user is the user's id, and a password is stored as it is.
abbrev app : App
app = record {
  prod = true;
  integration_test = false;
  jwt_secret = some (codes "k");
  cors_origins = codes "https://a.com" ∷ [];
  port = 8000;
  frontend_url = none;
  app_name = none;
  trust_proxy = none;
  free_usage_limit = pos 2;
  stripe = some stripe;
  stripe_endpoint_secret = some (codes "w");
  stripe_lookup_keys = [];
  now_ms = 1000;
  parse = λ b. some body;
  jwt_sign = λ user_id exp secret. user_id;
  jwt_verify = λ token secret. ok token;
  hash_password = λ p. some p;
  verify_password = λ p h. p == h;
  needs_rehash = λ h. false;
  to_lowercase = λ t. t;
  construct_event = λ b sig secret. none;
  iso_from_secs = λ t. [];
}

abbrev row : UserRow
row = record {
  id = codes "u1";
  email = codes "a@b.co";
  name = codes "A";
  created_at = pos 5;
  subscription_stripe_id = some (codes "cus_1");
  subscription_expires = none;
  subscription_status = some (codes "active");
  usage_count = some (pos 1);
  usage_reset_at = none;
}

abbrev auth : AuthRecord
auth = record { email = codes "a@b.co"; password = codes "secret"; user_id = codes "u1" }

abbrev seen : WebhookEvent
seen = record { event_id = codes "evt_1"; event_type = codes "x"; processed_at = pos 1 }

abbrev tables : Tables
tables = record { users = row ∷ []; auths = auth ∷ []; webhook_events = seen ∷ [] }

abbrev db : Db
db = record { tables = tables; faults = [] }

abbrev world : World
world = record {
  csrf = (codes "u1", record { token = codes "t0"; timestamp = 900 }) ∷ [];
  lockout = [];
  auth_rate = [];
  db = db;
  random = some (codes "0123456789abcdef0123456789abcdef") ∷ [];
}

abbrev locked_world : World
locked_world = record world {
  lockout =
      (
        (codes "a@b.co", codes "1"),
        record { attempts = 5; locked_until = some 5000; last_attempt = 900 },
      )
      ∷ [];
}

abbrev request : Request
request = record {
  method = codes "POST";
  path = codes "/api/portal";
  headers = (codes "X-CSRF-Token", codes "t0") ∷ [];
  body = [];
  peer_ip = codes "1";
  cookie = λ name. some (codes "u1");
}

abbrev user : User
user = record {
  id = codes "u2";
  email = codes "c@d.co";
  name = codes "C";
  created_at = pos 5;
  subscription = none;
  usage = none;
}

abbrev auth_2 : AuthRecord
auth_2 = record { email = codes "c@d.co"; password = codes "p"; user_id = codes "u2" }

create_account_atomic_example :
    (((create_account user auth_2 db).0 ≡ ok tt)
      × ((create_account user auth_2 db).1.tables ≡ with_account user auth_2 db.tables))
    ⊎ ((e : DbError) × ((create_account user auth_2 db).0 ≡ err e)
        × ((create_account user auth_2 db).1.tables ≡ db.tables))
create_account_atomic_example = create_account_atomic user auth_2 db

consume_usage-Consumed_example :
    Consumed
      (pos 2)
      (consume_usage (codes "u1") (pos 2) db).0
      (consume_usage (codes "u1") (pos 2) db).1.tables
consume_usage-Consumed_example = consume_usage-Consumed (codes "u1") (pos 2) db (refl, tt)

redirect_origin-SafeOrigin_example :
    SafeOrigin app (redirect_origin app (some (codes "https://evil.com")))
redirect_origin-SafeOrigin_example =
    redirect_origin-SafeOrigin app (some (codes "https://evil.com"))

require_csrf_iff_example :
    ((require_csrf app request (codes "u1") world).0 ≡ ok tt)
    ↔ HasToken app request (codes "u1") world
require_csrf_iff_example = require_csrf_iff app request (codes "u1") world refl

portal_handler_owner_example :
    (user_id : Text) × Passed app request world user_id × Owns app request world.db.tables user_id
unfolding portal_handler portal_for open_portal authorized ct_eq require_auth require_csrf
    check_header check_token lookup find_user statement user_from_row Csrf.get
portal_handler_owner_example = portal_handler_owner app request world _ refl

abbrev failing_world : World
failing_world = record world {
  lockout = fail_at [] (codes "a@b.co") (codes "1") (1 ∷ 2 ∷ 3 ∷ 4 ∷ 5 ∷ []);
}

authenticate_locked_example :
    (res : Response) × (authenticate app (codes "a@b.co") (codes "1") (codes "secret") failing_world
      ≡ (
        err res,
        record failing_world {
          lockout = (is_locked failing_world.lockout (codes "a@b.co") (codes "1") app.now_ms).0;
        },
      ))
    × (res.status ≡ 429)
unfolding lookup
authenticate_locked_example =
    authenticate_locked app (codes "a@b.co") (codes "1") (codes "secret") failing_world [] 1
      (2 ∷ 3 ∷ 4 ∷ 5 ∷ []) (record { is_map = tt; size = omega arith }) refl
      (omega arith, (omega arith, (omega arith, (omega arith, tt)))) (omega arith) (omega arith)
      refl (omega arith)

authenticate_rejected_example :
    authenticate app (codes "a@b.co") (codes "1") (codes "wrong") world ≡ (
      err (invalid_credentials 401),
      record world {
        lockout =
            (record_failure
              (is_locked world.lockout (codes "a@b.co") (codes "1") app.now_ms).0
              (codes "a@b.co")
              (codes "1")
              app.now_ms).0;
        db = (find_auth (codes "a@b.co") world.db).1;
      },
    )
unfolding lookup is_locked find_auth statement
authenticate_rejected_example =
    authenticate_rejected app (codes "a@b.co") (codes "1") (codes "wrong") world (some auth) refl
      refl refl

authenticate_ok_example : Verified app (codes "a@b.co") (codes "1") (codes "secret") world
unfolding lookup is_locked find_auth find_user statement authenticate user_from_row remove
    check_lockout known_account check_password rehash open_session clear_lockout
authenticate_ok_example =
    authenticate_ok app (codes "a@b.co") (codes "1") (codes "secret") world _ refl

abbrev event : Text → Json
event id = obj (
    (codes "id", s id)
    ∷ (codes "type", s (codes "customer.subscription.updated"))
    ∷ (codes "data", obj ((codes "object", obj ((codes "customer", s (codes "cus_1")) ∷ [])) ∷ []))
    ∷ [])

handle_event_seen_example :
    ((handle_event app (event (codes "evt_1")) world).0 ≡ ok (empty 200))
    × ((handle_event app (event (codes "evt_1")) world).1.db.tables ≡ world.db.tables)
unfolding find_webhook_event statement
handle_event_seen_example =
    handle_event_seen app (event (codes "evt_1")) (codes "evt_1") seen world refl refl (some seen)
      refl

handle_event_lost_example :
    let (answer, after) =
      handle_event app
        (event (codes "evt_2"))
        (second_fails world tables (codes "disk I/O error")) in
    let (again, later) = handle_event app (event (codes "evt_2")) after in
    (answer ≡ ok (empty 200))
    × (after.db.tables ≡ record tables {
      webhook_events = tables.webhook_events ++ event_row app (codes "evt_2") ∷ [];
    })
    × (again ≡ ok (empty 200))
    × (later.db.tables ≡ after.db.tables)
handle_event_lost_example =
    handle_event_lost app (event (codes "evt_2")) (codes "evt_2") (codes "cus_1") (codes "a@b.co")
      (codes "disk I/O error") world tables refl refl refl refl refl

usage_for-Metered_example :
    Metered app.free_usage_limit (usage_for app request (codes "u1") world).1
usage_for-Metered_example = usage_for-Metered app request (codes "u1") world refl (refl, tt)

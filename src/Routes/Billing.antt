-- ===== src/Routes/Billing.antt =====
-- The Stripe checkout and billing-portal routes of backend/src/routes.rs, with the origin checks
-- of backend/src/state.rs.
use tldr_tv.Prelude.{
  ◌and_then◌, Bool, false, Option, none, some, List, [], ◌∷◌, ◌++◌, is_nil, some_passes,
  if◌then◌else◌, ◌==◌, list_eq, nat_eq,
}
use tldr_tv.Prelude.Text.{Text, codes, decimal, trim, utf8}
use tldr_tv.Prelude.Exec.{Outcome, ok, err, pure, raise, ◌>>=◌, ◌>>◌}
use tldr_tv.Json.{Json, obj, s, get_str}
use tldr_tv.Crypto.{ct_eq}
use tldr_tv.Http.{Request, Response, header}
use tldr_tv.Db.{User, by_id}
use tldr_tv.Db.Pool.{find_user}
use tldr_tv.Routes.{
  App, World, Handler, Stripe, StripeError, CheckoutParams, CheckoutSession, PortalSession, on_db,
  run, json_res, err_json, stripe_err, optional,
}
use tldr_tv.Routes.Session.{require_auth, require_csrf, as_user}
use tldr_tv.Routes.Account.{or_answer, answer_unless}

abbrev pub find_origin : Text → List Text → Option Text
find_origin candidate [] = none
find_origin candidate (allowed ∷ rest) =
    if allowed == candidate then some allowed else find_origin candidate rest

unfoldable pub allowed_origin : List Text → Option Text → Option Text
unfolding trim
allowed_origin cors_origins none = none
allowed_origin cors_origins (some request_origin) =
    let candidate = trim request_origin in
    if is_nil candidate then none else find_origin candidate cors_origins

abbrev pub or_localhost : App → Option Text → Text
or_localhost app none = codes "http://localhost:" ++ decimal app.port
or_localhost app (some origin) = origin

unfoldable pub redirect_origin : App → Option Text → Text
unfolding allowed_origin
redirect_origin app request_origin = elim app.frontend_url [
  | some url ↦ url
  | none ↦ or_localhost app (allowed_origin app.cors_origins request_origin)
]

abbrev pub not_configured : Response
not_configured = err_json 503 (codes "Stripe is not configured")

-- the answer of the Stripe worker, an error as a response
abbrev pub on_stripe : {A : Type 0} → Text → Outcome StripeError A → Handler A
on_stripe log_msg (ok a) w = (ok a, w)
on_stripe log_msg (err e) w = (err (stripe_err log_msg e), w)

abbrev pub email_is : Text → Option User → Bool
email_is email none = false
email_is email (some u) = u.email == email

abbrev pub checkout_json : CheckoutSession → Json
checkout_json session = obj (
    (codes "url", optional session.url)
    ∷ (codes "id", s session.id)
    ∷ (codes "customerID", optional session.customer)
    ∷ [])

unfoldable pub checkout_params : App → Request → Text → Text → CheckoutParams
unfolding redirect_origin
checkout_params app req email price_id =
    let origin = redirect_origin app (header req (codes "origin")) in
    record {
      customer_email = email;
      price_id = price_id;
      success_url = origin ++ codes "/app/payment?success=true";
      cancel_url = origin ++ codes "/app/payment?canceled=true";
      app_name = app.app_name;
    }

abbrev pub session_failed : Response
session_failed = err_json 500 (codes "Stripe session failed")

abbrev pub missing_fields : Response
missing_fields = err_json 400 (codes "Missing email or lookup_key")

unfoldable pub checkout_for : App → Request → Text → Handler Response
unfolding find_user redirect_origin
checkout_for app req user_id = do
  stripe ← or_answer app.stripe not_configured
  body ← or_answer (app.parse req.body) session_failed
  email ← or_answer (get_str body (codes "email")) missing_fields
  lookup_key ← or_answer (get_str body (codes "lookup_key")) missing_fields
  answer_unless (some_passes (λ allowed. allowed == lookup_key) app.stripe_lookup_keys)
      (err_json 400 (codes "Unknown lookup_key"))
  user ← on_db (find_user (by_id user_id)) (λ _. raise session_failed) pure
  answer_unless (email_is email user) (err_json 403 (codes "Email mismatch"))
  price ← on_stripe (codes "Checkout session error") (stripe.price_id_for_lookup_key lookup_key)
  price_id ← or_answer price (err_json 400 (codes "No price found for lookup_key: " ++ lookup_key))
  session ←
      on_stripe (codes "Checkout session error")
        (stripe.create_checkout_session (checkout_params app req email price_id))
  pure (json_res 200 (checkout_json session))

unfoldable pub checkout_handler : App → Request → Handler Response
unfolding require_auth require_csrf checkout_for
checkout_handler app req = as_user app req (checkout_for app req)

unfoldable pub checkout : App → Request → World → Response × World
unfolding checkout_handler
checkout app req = run (checkout_handler app req)

-- the Stripe customer on record for the account, if it is not blank
abbrev pub stored_id : Option User → Option Text
stored_id user = user and_then λ u.
    u.subscription and_then λ sub. if is_nil sub.stripe_id then none else some sub.stripe_id

unfoldable pub authorized : Option User → Text → Bool
unfolding ct_eq
authorized user customer_id = elim (stored_id user) [
  | none ↦ false
  | some id ↦ ct_eq (utf8 id) (utf8 customer_id)
]

abbrev pub portal_json : PortalSession → Json
portal_json session = obj ((codes "url", optional session.url) ∷ (codes "id", s session.id) ∷ [])

abbrev pub portal_failed : Response
portal_failed = err_json 500 (codes "Stripe portal failed")

abbrev pub unauthorized_customer : Response
unauthorized_customer = err_json 403 (codes "Unauthorized customerID")

-- the portal for a customer that the caller asks for
unfoldable pub open_portal : App → Request → Stripe → Text → Option User → Handler Response
unfolding authorized redirect_origin
open_portal app req stripe customer_id user = do
  answer_unless (authorized user customer_id) unauthorized_customer
  session ← on_stripe (codes "Portal session error") (
      stripe.create_portal_session customer_id
        (redirect_origin app (header req (codes "origin")) ++ codes "/app/payment?portal=return"))
  pure (json_res 200 (portal_json session))

unfoldable pub portal_for : App → Request → Text → Handler Response
unfolding find_user authorized redirect_origin
portal_for app req user_id = do
  stripe ← or_answer app.stripe not_configured
  body ← or_answer (app.parse req.body) portal_failed
  customer_id ←
      or_answer (get_str body (codes "customerID")) (err_json 400 (codes "Missing customerID"))
  user ← on_db (find_user (by_id user_id)) (λ _. raise portal_failed) pure
  open_portal app req stripe customer_id user

unfoldable pub portal_handler : App → Request → Handler Response
unfolding require_auth require_csrf portal_for
portal_handler app req = as_user app req (portal_for app req)

unfoldable pub portal : App → Request → World → Response × World
unfolding portal_handler
portal app req = run (portal_handler app req)

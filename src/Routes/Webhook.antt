-- ===== src/Routes/Webhook.antt =====
-- The Stripe webhook of backend/src/routes.rs. Logging changes no state and is left out.
use mathlib.Core.Option
use tldr_tv.Prelude.{
  ◌and_then◌, Bool, true, false, ◌||◌, Option, none, some, [], if◌then◌else◌, ◌==◌, list_eq, nat_eq,
}
use tldr_tv.Prelude.Text.{Text, codes}
use tldr_tv.Prelude.Int.{ℤ, pos}
use tldr_tv.Prelude.Exec.{Outcome, ok, err, pure, raise, ◌>>=◌, ◌>>◌}
use tldr_tv.Json.{Json, obj, get, get_str, get_i64, find_member, as_obj, as_arr, first_item}
use tldr_tv.Http.{Request, Response, header, empty}
use tldr_tv.Db.{Subscription, User, WebhookEvent, by_email}
use tldr_tv.Db.Pool.{find_user, update_user_subscription, find_webhook_event, insert_webhook_event}
use tldr_tv.Routes.{App, World, Handler, Stripe, StripeError, with_db, on_db, run, err_json}
use tldr_tv.Routes.Account.{or_answer}
use tldr_tv.Routes.Billing.{not_configured}

abbrev pub or_else : {A : Type 0} → Option A → Option A → Option A
or_else none b = b
or_else (some a) b = some a

abbrev pub period_end : Json → Option ℤ
period_end v = or_else (get_i64 v (codes "current_period_end")) (
    get v (codes "items")
    and_then as_obj
    and_then find_member (codes "data")
    and_then as_arr
    and_then first_item
    and_then λ entry. get_i64 entry (codes "current_period_end"))

abbrev pub build_sub_patch : Text → Json → Subscription
build_sub_patch stripe_id stripe_sub = record {
  stripe_id = stripe_id;
  expires = period_end stripe_sub;
  status = Option.get_or (get_str stripe_sub (codes "status")) [];
}

-- `apply_sub_patch`: whether the subscription was written
unfoldable pub patch_user : Subscription → Option User → Handler Bool
unfolding update_user_subscription
patch_user sub none w = (ok false, w)
patch_user sub (some u) w =
    on_db (update_user_subscription u.id sub) (λ _. pure false) (λ _. pure true) w

unfoldable pub apply_sub_patch : Text → Subscription → Handler Bool
unfolding find_user update_user_subscription
apply_sub_patch email sub = on_db (find_user (by_email email)) (λ _. pure false) (patch_user sub)

abbrev pub resolve_customer_email : App → Text → Outcome StripeError (Option Text)
resolve_customer_email app stripe_id = elim app.stripe [
  | none ↦ ok none
  | some stripe ↦ stripe.customer_email stripe_id
]

abbrev pub is_subscription_event : Text → Bool
is_subscription_event event_type =
    event_type == codes "customer.subscription.deleted"
    || event_type == codes "customer.subscription.updated"
    || event_type == codes "customer.subscription.created"

abbrev pub email_or_bad_request : Outcome StripeError (Option Text) → Handler Text
email_or_bad_request (ok (some email)) = pure email
email_or_bad_request _ = raise (empty 400)

unfoldable pub on_subscription_event : App → Json → Handler Unit
unfolding apply_sub_patch
on_subscription_event app payload = do
  stripe_id ← or_answer (get_str payload (codes "customer")) (empty 400)
  email ← email_or_bad_request (resolve_customer_email app stripe_id)
  apply_sub_patch email (build_sub_patch stripe_id payload)
  pure tt

-- The subscription is read from Stripe, then the patch goes to the address; with no address
-- there is nothing to do.
unfoldable pub patch_for : Text → Json → Outcome StripeError (Option Text) → Handler Unit
unfolding apply_sub_patch
patch_for stripe_id sub_json (ok (some email)) =
    apply_sub_patch email (build_sub_patch stripe_id sub_json) >> pure tt
patch_for stripe_id sub_json (ok none) = pure tt
patch_for stripe_id sub_json (err e) = raise (empty 500)

abbrev pub retrieve : Stripe → Text → (Json → Handler Unit) → Handler Unit
retrieve stripe subscription_id next = elim (stripe.retrieve_subscription subscription_id) [
  | ok sub_json ↦ next sub_json
  | err e ↦ raise (empty 500)
]

-- the address the session carries, or else the one on record at Stripe
abbrev pub session_email : App → Json → Text → Outcome StripeError (Option Text)
session_email app payload stripe_id = elim (get_str payload (codes "customer_email")) [
  | some email ↦ ok (some (app.to_lowercase email))
  | none ↦ resolve_customer_email app stripe_id
]

-- `if let (Some(stripe), Some(stripe_id), Some(subscription_id)) = ..`
abbrev pub if_all :
    Option Stripe → Option Text → Option Text → (Stripe → Text → Text → Handler Unit) → Handler Unit
if_all (some stripe) (some stripe_id) (some subscription_id) f = f stripe stripe_id subscription_id
if_all _ _ _ f = pure tt

unfoldable pub on_checkout_completed : App → Json → Handler Unit
unfolding apply_sub_patch
on_checkout_completed app payload =
    if_all app.stripe (get_str payload (codes "customer")) (get_str payload (codes "subscription"))
      λ stripe stripe_id subscription_id.
        retrieve stripe subscription_id
          λ sub_json. patch_for stripe_id sub_json (session_email app payload stripe_id)

abbrev pub invoice_subscription : Json → Option Text
invoice_subscription payload = or_else (get_str payload (codes "subscription")) (
    get payload (codes "parent") and_then (λ p. get p (codes "subscription_details")) and_then λ d.
    get_str d (codes "subscription"))

unfoldable pub on_invoice_paid : App → Json → Handler Unit
unfolding apply_sub_patch
on_invoice_paid app payload =
    if_all app.stripe (get_str payload (codes "customer")) (invoice_subscription payload)
      λ stripe stripe_id subscription_id.
        retrieve stripe subscription_id
          λ sub_json. patch_for stripe_id sub_json (resolve_customer_email app stripe_id)

unfoldable pub look_up : Outcome StripeError (Option Text) → Handler Unit
unfolding find_user
look_up (ok (some email)) = on_db (find_user (by_email email)) (λ _. raise (empty 500)) λ _. pure tt
look_up _ = pure tt

unfoldable pub on_payment_failed : App → Json → Handler Unit
unfolding find_user
on_payment_failed app payload = elim (get_str payload (codes "customer")) [
  | none ↦ pure tt
  | some stripe_id ↦ look_up (resolve_customer_email app stripe_id)
]

abbrev pub when : Bool → Handler Unit → Handler Unit
when b m w = let r = m w in if b then r else (ok tt, w)

unfoldable pub process_webhook : App → Text → Json → Handler Unit
unfolding apply_sub_patch find_user
process_webhook app event_type payload = do
  when (is_subscription_event event_type) (on_subscription_event app payload)
  when (event_type == codes "checkout.session.completed") (on_checkout_completed app payload)
  when (event_type == codes "invoice.paid") (on_invoice_paid app payload)
  when (event_type == codes "invoice.payment_failed") (on_payment_failed app payload)

-- `event.data.object`, or an empty object
abbrev pub event_object : Json → Json
event_object event =
    Option.get_or (get event (codes "data") and_then λ d. get d (codes "object")) (obj [])

-- Applied, then recorded; a failure to record is logged only.
unfoldable pub apply_and_record : App → Text → Text → Json → Handler Response
unfolding process_webhook insert_webhook_event
apply_and_record app event_id event_type event = do
  process_webhook app event_type (event_object event)
  with_db (insert_webhook_event event_id event_type (pos app.now_ms))
  pure (empty 200)

-- an event seen before is acknowledged and skipped
unfoldable pub unless_seen : App → Text → Text → Json → Option WebhookEvent → Handler Response
unfolding process_webhook insert_webhook_event
unless_seen app event_id event_type event (some seen) = pure (empty 200)
unless_seen app event_id event_type event none = apply_and_record app event_id event_type event

-- what follows the signature check
unfoldable pub handle_event : App → Json → Handler Response
unfolding find_webhook_event process_webhook insert_webhook_event
handle_event app event = do
  event_id ← or_answer (get_str event (codes "id")) (empty 400)
  on_db (find_webhook_event event_id) (λ _. raise (empty 500))
      (unless_seen app event_id (Option.get_or (get_str event (codes "type")) []) event)

unfoldable pub payment_handler : App → Request → Handler Response
unfolding handle_event
payment_handler app req = do
  or_answer app.stripe not_configured
  signature ←
      or_answer (header req (codes "stripe-signature")) (err_json 400 (codes "Missing signature"))
  secret ← or_answer app.stripe_endpoint_secret not_configured
  event ← or_answer (app.construct_event req.body signature secret) (empty 400)
  handle_event app event

unfoldable pub payment : App → Request → World → Response × World
unfolding payment_handler
payment app req = run (payment_handler app req)

-- ===== src/Routes/Replay.antt =====
-- The webhook of backend/src/routes.rs: events that come again, and failing look-ups.
use mathlib.Core.Option
use tldr_tv.Prelude.{
  ◌≡◌, refl, sym, ap, ◌∙◌, Bool, true, false, arith, some_passes, Option, none, some, List, [], ◌∷◌,
  ◌++◌, ==_iff, list_eq, nat_eq,
}
use tldr_tv.Prelude.Text.{Text, codes}
use tldr_tv.Prelude.Int.{pos}
use tldr_tv.Prelude.Exec.{Outcome, ok, err, ok_inj, raise}
use tldr_tv.Json.{Json, get_str}
use tldr_tv.Http.{Response, empty}
use tldr_tv.Db.{Db, DbError, Tables, WebhookEvent, by_email, statement}
use tldr_tv.Db.Statements.{first_row, has_event_id, insert_event_row}
use tldr_tv.Db.Pool.{find_webhook_event, find_user, insert_webhook_event}
use tldr_tv.Db.Laws.{statement_ok}
use tldr_tv.Routes.{App, World, on_db_ok}
use tldr_tv.Routes.Webhook.{
  handle_event, process_webhook, unless_seen, apply_and_record, event_object,
  resolve_customer_email, on_subscription_event, apply_sub_patch,
}

find_webhook_event_lem :
    (event_id : Text) (db : Db) (found : Option WebhookEvent)
    → (find_webhook_event event_id db).0 ≡ ok found
    → (first_row (has_event_id event_id) db.tables.webhook_events ≡ found)
      × ((find_webhook_event event_id db).1.tables ≡ db.tables)
unfolding find_webhook_event
find_webhook_event_lem event_id db found q =
    let (answer, same) =
      statement_ok (λ (t : Tables). (ok (first_row (has_event_id event_id) t.webhook_events), t)) db
        found q in
    (ok_inj _ _ found refl answer, same)

-- An event whose id is on record, if it can be looked up, is answered 200 and changes no table:
-- nothing of it is applied again.
pub handle_event_seen :
    (app : App) (event : Json) (event_id : Text) (seen : WebhookEvent) (w : World)
    → get_str event (codes "id") ≡ some event_id
    → first_row (has_event_id event_id) w.db.tables.webhook_events ≡ some seen
    → (found : Option WebhookEvent) → (find_webhook_event event_id w.db).0 ≡ ok found
    → ((handle_event app event w).0 ≡ ok (empty 200))
      × ((handle_event app event w).1.db.tables ≡ w.db.tables)
unfolding handle_event unless_seen
handle_event_seen app event event_id seen w id_q row_q found found_q =
    let (answer, same) = find_webhook_event_lem event_id w.db found found_q in
    let is_seen : (find_webhook_event event_id w.db).0 ≡ ok (some seen) =
      found_q ∙ ap ok (sym answer ∙ row_q) in
    rw (handle_event, id_q, is_seen) (refl, same)

-- An update of a subscription whose user cannot be looked up is given up without an error.
patch_lost :
    (app : App) (payload : Json) (stripe_id email : Text) (e : DbError) (w : World)
    → get_str payload (codes "customer") ≡ some stripe_id
    → resolve_customer_email app stripe_id ≡ ok (some email)
    → (find_user (by_email email) w.db).0 ≡ err e
    → process_webhook app (codes "customer.subscription.updated") payload w
      ≡ (ok tt, record w { db = (find_user (by_email email) w.db).1 })
unfolding process_webhook on_subscription_event apply_sub_patch
patch_lost app payload stripe_id email e w c_q r_q f_q =
    rw (process_webhook, on_subscription_event, c_q, r_q, apply_sub_patch, f_q) refl

apply_and_record_lost :
    (app : App) (event_id event_type : Text) (event : Json) (w w' : World)
    → process_webhook app event_type (event_object event) w ≡ (ok tt, w')
    → apply_and_record app event_id event_type event w ≡ (
      ok (empty 200),
      record w' { db = (insert_webhook_event event_id event_type (pos app.now_ms) w'.db).1 },
    )
unfolding apply_and_record
apply_and_record_lost app event_id event_type event w w' q = rw (apply_and_record, q) refl

handle_event_new :
    (app : App) (event : Json) (event_id : Text) (w : World)
    → get_str event (codes "id") ≡ some event_id
    → (find_webhook_event event_id w.db).0 ≡ ok none
    → handle_event app event w
      ≡ apply_and_record app event_id
          (Option.get_or (get_str event (codes "type")) [])
          event
          (record w { db = (find_webhook_event event_id w.db).1 })
unfolding handle_event unless_seen
handle_event_new app event event_id w id_q new_q =
    rw (handle_event, id_q)
      (on_db_ok (find_webhook_event event_id) (λ _. raise (empty 500))
        (unless_seen app event_id (Option.get_or (get_str event (codes "type")) []) event) w none
        new_q)

-- How an update of a subscription ends if the database fails the look-up of the user.
handle_event_unapplied :
    (app : App) (event : Json) (event_id stripe_id email : Text) (e : DbError) (w : World)
    → get_str event (codes "id") ≡ some event_id
    → get_str event (codes "type") ≡ some (codes "customer.subscription.updated")
    → get_str (event_object event) (codes "customer") ≡ some stripe_id
    → resolve_customer_email app stripe_id ≡ ok (some email)
    → (find_webhook_event event_id w.db).0 ≡ ok none
    → (find_user (by_email email) (find_webhook_event event_id w.db).1).0 ≡ err e
    → handle_event app event w ≡ (
      ok (empty 200),
      record w {
        db =
            (insert_webhook_event event_id
              (codes "customer.subscription.updated")
              (pos app.now_ms)
              (find_user (by_email email) (find_webhook_event event_id w.db).1).1).1;
      },
    )
handle_event_unapplied app event event_id stripe_id email e w id_q type_q c_q r_q new_q f_q =
    let after = record w { db = (find_webhook_event event_id w.db).1 } in
    let updated = codes "customer.subscription.updated" in
    let lost = patch_lost app (event_object event) stripe_id email e after c_q r_q f_q in
    handle_event_new app event event_id w id_q new_q
    ∙ ap (λ t. apply_and_record app event_id (Option.get_or t []) event after) type_q
    ∙ apply_and_record_lost app event_id updated event after
        (record after { db = (find_user (by_email email) after.db).1 }) lost

first_row-passes :
    {A : Type 0} (p : A → Bool) (rows : List A)
    → first_row p rows ≡ none
    → some_passes p rows ≡ false
first_row-passes p [] h = refl
first_row-passes p (r ∷ rows) h = ground (arith, first_row-passes p rows)

first_row-append :
    {A : Type 0} (p : A → Bool) (rows : List A) (e : A)
    → p e ≡ true
    → first_row p rows ≡ none
    → first_row p (rows ++ e ∷ []) ≡ some e
first_row-append p [] e passes h = rw passes refl
first_row-append p (r ∷ rows) e passes h = ground (arith, first_row-append p rows e passes)

insert_event_row_new :
    (e : WebhookEvent) (t : Tables)
    → first_row (has_event_id e.event_id) t.webhook_events ≡ none
    → insert_event_row e t ≡ (ok tt, record t { webhook_events = t.webhook_events ++ e ∷ [] })
insert_event_row_new e t h = rw (first_row-passes (has_event_id e.event_id) t.webhook_events h) refl

-- the world with these tables, whose second statement from now on the driver fails
abbrev pub second_fails : World → Tables → Text → World
second_fails w t message = record w {
  db = record { tables = t; faults = none ∷ some message ∷ [] };
}

abbrev pub event_row : App → Text → WebhookEvent
event_row app event_id = record {
  event_id = event_id;
  event_type = codes "customer.subscription.updated";
  processed_at = pos app.now_ms;
}

-- If the driver fails one statement, the look-up of the user, then an update of a subscription, new
-- and of a customer whose email Stripe answers, is answered 200; its event goes on record as
-- processed, and no other row is changed, so that the subscription of no user is; and the event, if it
-- comes again, is answered 200 and changes no table.
pub handle_event_lost :
    (app : App) (event : Json) (event_id stripe_id email message : Text) (w : World) (t : Tables)
    → get_str event (codes "id") ≡ some event_id
    → get_str event (codes "type") ≡ some (codes "customer.subscription.updated")
    → get_str (event_object event) (codes "customer") ≡ some stripe_id
    → resolve_customer_email app stripe_id ≡ ok (some email)
    → first_row (has_event_id event_id) t.webhook_events ≡ none
    → let (answer, after) = handle_event app event (second_fails w t message) in
      let (again, later) = handle_event app event after in
      (answer ≡ ok (empty 200))
      × (after.db.tables
          ≡ record t { webhook_events = t.webhook_events ++ event_row app event_id ∷ [] })
      × (again ≡ ok (empty 200))
      × (later.db.tables ≡ after.db.tables)
unfolding find_webhook_event find_user insert_webhook_event statement
handle_event_lost app event event_id stripe_id email message w t id_q type_q c_q r_q new_q =
    let row = event_row app event_id in
    let run =
      handle_event_unapplied app event event_id stripe_id email (record { message = message })
        (second_fails w t message) id_q type_q c_q r_q (ap ok new_q) refl in
    let inserted = insert_event_row_new row t new_q in
    let found =
      first_row-append (has_event_id event_id) t.webhook_events row
        ((==_iff event_id event_id).1 refl) new_q in
    let left : World = record w {
      db = record {
        tables = record t { webhook_events = t.webhook_events ++ row ∷ [] };
        faults = [];
      };
    } in
    let ran : handle_event app event (second_fails w t message) ≡ (ok (empty 200), left) =
      run
      ∙ ap
          (λ (r : Outcome DbError Unit × Tables).
            (ok (empty 200), record w { db = record { tables = r.1; faults = [] } }))
          inserted in
    let (again, kept) =
      handle_event_seen app event event_id row left id_q found (some row) (ap ok found) in
    (
      ap (λ (r : Outcome Response Response × World). r.0) ran,
      ap (λ (r : Outcome Response Response × World). r.1.db.tables) ran,
      ap (λ (r : Outcome Response Response × World). (handle_event app event r.1).0) ran ∙ again,
      ap (λ (r : Outcome Response Response × World). (handle_event app event r.1).1.db.tables) ran
          ∙ kept
          ∙ sym (ap (λ (r : Outcome Response Response × World). r.1.db.tables) ran),
    )

-- ===== src/Db/Statements.antt =====
-- What the SQL statements of backend/src/db.rs do to the tables.
use mathlib.Core.Option
use tldr_tv.Prelude.{
  ℕ, Bool, ◌&&◌, Option, none, some, List, [], ◌∷◌, ◌++◌, keep, some_passes, length, is_nil,
  if◌then◌else◌, ◌==◌, list_eq, nat_eq,
}
use tldr_tv.Prelude.Text.{Text, codes}
use tldr_tv.Prelude.Int.{ℤ, pos, int_ltb, int_is_zero, ◌+ℤ◌}
use tldr_tv.Prelude.Exec.{Outcome, ok, err}
use tldr_tv.Db.{
  Tables, UserRow, User, AuthRecord, WebhookEvent, Subscription, Usage, UserQuery, by_id, by_email,
  DbError,
}

-- `UserQuery::clause` as a test on rows
abbrev pub clause : UserQuery → UserRow → Bool
clause (by_id id) row = row.id == id
clause (by_email email) row = row.email == email

abbrev pub subscription_from_row : UserRow → Option Subscription
subscription_from_row row = elim row.subscription_stripe_id [
  | none ↦ none
  | some stripe_id ↦
      if is_nil stripe_id
      then none
      else some (record {
        stripe_id = stripe_id;
        expires = row.subscription_expires;
        status = Option.get_or row.subscription_status [];
      })
]

abbrev pub nonzero : Option ℤ → Option ℤ
nonzero none = none
nonzero (some v) = if int_is_zero v then none else some v

abbrev pub usage_from_row : UserRow → Usage
usage_from_row row = record {
  count = Option.get_or row.usage_count (pos 0);
  reset_at = nonzero row.usage_reset_at;
}

unfoldable pub user_from_row : UserRow → User
user_from_row row = record {
  id = row.id;
  email = row.email;
  name = row.name;
  created_at = row.created_at;
  subscription = subscription_from_row row;
  usage = some (usage_from_row row);
}

-- the first row that a test admits
abbrev pub first_row : {A : Type 0} → (A → Bool) → List A → Option A
first_row p [] = none
first_row p (r ∷ rs) = if p r then some r else first_row p rs

-- the rows after an update of those that a test admits, and how many they are
abbrev pub update_rows : {A : Type 0} → (A → Bool) → (A → A) → List A → List A
update_rows p f [] = []
update_rows p f (r ∷ rs) = (if p r then f r else r) ∷ update_rows p f rs

abbrev pub changes : {A : Type 0} → (A → Bool) → List A → ℕ
changes p rs = length (keep p rs)

abbrev pub update_users : (UserRow → Bool) → (UserRow → UserRow) → Tables → Tables
update_users p f t = record t { users = update_rows p f t.users }

abbrev pub failed : {A : Type 0} → Text → Tables → Outcome DbError A × Tables
failed message t = (err (record { message = message }), t)

-- the row of a new user: the other columns take their defaults
abbrev pub user_row : User → UserRow
user_row u = record {
  id = u.id;
  email = u.email;
  name = u.name;
  created_at = u.created_at;
  subscription_stripe_id = none;
  subscription_expires = none;
  subscription_status = none;
  usage_count = some (pos 0);
  usage_reset_at = none;
}

-- INSERT INTO Users: `_id` is the primary key and `email` is unique.
abbrev pub insert_user_row : User → Tables → Outcome DbError Unit × Tables
insert_user_row u t =
    if some_passes (clause (by_id u.id)) t.users
    then failed (codes "UNIQUE constraint failed: Users._id") t
    else if some_passes (clause (by_email u.email)) t.users
    then failed (codes "UNIQUE constraint failed: Users.email") t
    else (ok tt, record t { users = t.users ++ user_row u ∷ [] })

abbrev pub has_email : Text → AuthRecord → Bool
has_email email a = a.email == email

-- INSERT INTO Auths: `email` is the primary key, and foreign keys are off.
abbrev pub insert_auth_row : AuthRecord → Tables → Outcome DbError Unit × Tables
insert_auth_row a t =
    if some_passes (has_email a.email) t.auths
    then failed (codes "UNIQUE constraint failed: Auths.email") t
    else (ok tt, record t { auths = t.auths ++ a ∷ [] })

abbrev pub has_event_id : Text → WebhookEvent → Bool
has_event_id event_id e = e.event_id == event_id

abbrev pub insert_event_row : WebhookEvent → Tables → Outcome DbError Unit × Tables
insert_event_row e t =
    if some_passes (has_event_id e.event_id) t.webhook_events
    then failed (codes "UNIQUE constraint failed: WebhookEvents.event_id") t
    else (ok tt, record t { webhook_events = t.webhook_events ++ e ∷ [] })

-- COALESCE(usage_count, 0)
abbrev pub used : UserRow → ℤ
used row = Option.get_or row.usage_count (pos 0)

-- usage_count = COALESCE(usage_count, 0) + delta
abbrev pub add_usage : ℤ → UserRow → UserRow
add_usage delta row = record row { usage_count = some (used row +ℤ delta) }

-- WHERE _id = ? AND COALESCE(usage_count, 0) < ?
abbrev pub below_limit : Text → ℤ → UserRow → Bool
below_limit id limit row = clause (by_id id) row && int_ltb (used row) limit

-- ===== src/Db.antt =====
-- The tables of backend/src/db.rs that hold accounts and webhook records. SQLite itself is not
-- under this repository's control: a statement is a function on the tables, and `faults` says of
-- each statement that comes whether the driver fails it, and with which message.
pub mod Statements
pub mod Pool
pub mod Laws
pub mod Quota
use tldr_tv.Prelude.{ℕ, Option, none, some, List, [], ◌∷◌, Bool, ◌||◌}
use tldr_tv.Prelude.Text.{Text, codes, text_contains}
use tldr_tv.Prelude.Int.{ℤ}
use tldr_tv.Prelude.Exec.{Outcome, ok, err, Exec}

pub record Subscription : Type 0 where
  pub stripe_id : Text
  pub expires : Option ℤ
  pub status : Text

pub record Usage : Type 0 where
  pub count : ℤ
  pub reset_at : Option ℤ

pub record User : Type 0 where
  pub id : Text
  pub email : Text
  pub name : Text
  pub created_at : ℤ
  pub subscription : Option Subscription
  pub usage : Option Usage

pub record AuthRecord : Type 0 where
  pub email : Text
  pub password : Text
  pub user_id : Text

pub record WebhookEvent : Type 0 where
  pub event_id : Text
  pub event_type : Text
  pub processed_at : ℤ

pub data UserQuery : Type 0 where
  by_id : Text → UserQuery
  by_email : Text → UserQuery

-- A row of `Users`. The columns that may be NULL are options, and a column holds values of its
-- declared type.
pub record UserRow : Type 0 where
  pub id : Text
  pub email : Text
  pub name : Text
  pub created_at : ℤ
  pub subscription_stripe_id : Option Text
  pub subscription_expires : Option ℤ
  pub subscription_status : Option Text
  pub usage_count : Option ℤ
  pub usage_reset_at : Option ℤ

pub record Tables : Type 0 where
  pub users : List UserRow
  pub auths : List AuthRecord
  pub webhook_events : List WebhookEvent

pub record Db : Type 0 where
  pub tables : Tables
  pub faults : List (Option Text)

pub record DbError : Type 0 where
  pub message : Text

-- Code on one connection.
abbrev pub DbExec : Type 0 → Type 0
DbExec A = Exec Db DbError A

abbrev pub run_on :
    {A : Type 0} → (Tables → Outcome DbError A × Tables) → Db → Outcome DbError A × Db
run_on f db = let (r, t) = f db.tables in (r, record db { tables = t })

abbrev pub on_fault :
    {A : Type 0}
    → (Tables → Outcome DbError A × Tables)
    → Db
    → List (Option Text)
    → Outcome DbError A × Db
on_fault f db [] = run_on f db
on_fault f db (none ∷ faults) = run_on f (record db { faults = faults })
on_fault f db (some message ∷ faults) =
    (err (record { message = message }), record db { faults = faults })

-- One statement: the driver fails it, or it does what it says to the tables.
unfoldable pub statement : {A : Type 0} → (Tables → Outcome DbError A × Tables) → DbExec A
statement f db = on_fault f db db.faults

-- `Pool::transaction`: BEGIN, the body, COMMIT; a failure puts back the tables BEGIN found.
abbrev pub roll_back : Tables → Db → Db
roll_back before db = record db { tables = before }

abbrev pub settled : {A : Type 0} → Tables → Outcome DbError A × Db → Outcome DbError A × Db
settled before (ok value, db) = (ok value, db)
settled before (err e, db) = (err e, roll_back before db)

unfoldable pub committed : {A : Type 0} → Tables → Outcome DbError A × Db → Outcome DbError A × Db
unfolding statement
committed before (ok value, db) = settled before (statement (λ t. (ok value, t)) db)
committed before (err e, db) = (err e, roll_back before db)

unfoldable pub begun : {A : Type 0} → DbExec A → Outcome DbError Unit × Db → Outcome DbError A × Db
unfolding statement
begun f (ok _, db) = committed db.tables (f db)
begun f (err e, db) = (err e, db)

unfoldable pub transaction : {A : Type 0} → DbExec A → DbExec A
unfolding statement
transaction f db = begun f (statement (λ t. (ok tt, t)) db)

-- routes.rs: `is_duplicate`
abbrev pub is_duplicate : DbError → Bool
is_duplicate e =
    text_contains (codes "UNIQUE constraint failed") e.message
    || text_contains (codes "duplicate key") e.message

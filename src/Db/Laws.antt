-- ===== src/Db/Laws.antt =====
-- Lemmas on the statements and transactions of backend/src/db.rs.
use tldr_tv.Prelude.{
  ◌≡◌, refl, sym, ap, ◌∙◌, Option, none, some, List, [], ◌∷◌, ◌++◌, arith, ◌⊎◌, inl, inr, list_eq,
  nat_eq,
}
use tldr_tv.Prelude.Text.{Text}
use tldr_tv.Prelude.Exec.{Outcome, ok, err, ◌>>=◌, bind_ok, ok_inj, Outcome-cases}
use tldr_tv.Db.{
  Db, Tables, DbError, DbExec, User, AuthRecord, statement, transaction, on_fault, settled,
  committed, begun,
}
use tldr_tv.Db.Statements.{insert_user_row, user_row, insert_auth_row}
use tldr_tv.Db.Pool.{insert_user_tx, insert_auth_tx, create_account}

-- What one statement comes to: the driver failed it and the tables are as they were, or it ran.
on_fault_lem :
    {A : Type 0} (f : Tables → Outcome DbError A × Tables) (db : Db) (faults : List (Option Text))
    → (((e : DbError) × ((on_fault f db faults).0 ≡ err e))
        × ((on_fault f db faults).1.tables ≡ db.tables))
      ⊎ (((on_fault f db faults).0 ≡ (f db.tables).0)
          × ((on_fault f db faults).1.tables ≡ (f db.tables).1))
on_fault_lem f db [] = inr (refl, refl)
on_fault_lem f db (none ∷ fs) = inr (refl, refl)
on_fault_lem f db (some m ∷ fs) = inl ((record { message = m }, refl), refl)

pub statement_lem :
    {A : Type 0} (f : Tables → Outcome DbError A × Tables) (db : Db)
    → (((e : DbError) × ((statement f db).0 ≡ err e)) × ((statement f db).1.tables ≡ db.tables))
      ⊎ (((statement f db).0 ≡ (f db.tables).0) × ((statement f db).1.tables ≡ (f db.tables).1))
unfolding statement
statement_lem f db = on_fault_lem f db db.faults

-- A statement that changes nothing.
noop_tables : {A : Type 0} (v : A) (db : Db) → (statement (λ t. (ok v, t)) db).1.tables ≡ db.tables
noop_tables v db = elim (statement_lem (λ t. (ok v, t)) db) [ inl (_, q) ↦ q | inr (_, q) ↦ q ]

settled_err :
    {A : Type 0} (before : Tables) (r : Outcome DbError A × Db) (e : DbError)
    → (settled before r).0 ≡ err e
    → (settled before r).1.tables ≡ before
settled_err before (ok v, db) e q = cc
settled_err before (err e', db) e q = refl

committed_err :
    {A : Type 0} (before : Tables) (r : Outcome DbError A × Db) (e : DbError)
    → (committed before r).0 ≡ err e
    → (committed before r).1.tables ≡ before
unfolding committed
committed_err before (ok v, db) e q = settled_err before (statement (λ t. (ok v, t)) db) e q
committed_err before (err e', db) e q = refl

begun_err :
    {A : Type 0} (f : DbExec A) (r : Outcome DbError Unit × Db) (e : DbError)
    → (begun f r).0 ≡ err e
    → (begun f r).1.tables ≡ r.1.tables
unfolding begun
begun_err f (ok _, db) e q = committed_err db.tables (f db) e q
begun_err f (err e', db) e q = refl

-- A transaction that fails, wherever it fails, leaves the tables as it found them.
pub transaction_atomic :
    {A : Type 0} (f : DbExec A) (db : Db) (e : DbError)
    → (transaction f db).0 ≡ err e
    → (transaction f db).1.tables ≡ db.tables
unfolding transaction
transaction_atomic f db e q = begun_err f (statement (λ t. (ok tt, t)) db) e q ∙ noop_tables tt db

settled_ok :
    {A : Type 0} (before : Tables) (r : Outcome DbError A × Db) (v : A)
    → (settled before r).0 ≡ ok v
    → (r.0 ≡ ok v) × ((settled before r).1.tables ≡ r.1.tables)
settled_ok before (ok w, db) v q = (q, refl)
settled_ok before (err e, db) v q = cc

-- A statement that comes to a value has run.
pub statement_ok :
    {A : Type 0} (f : Tables → Outcome DbError A × Tables) (db : Db) (v : A)
    → (statement f db).0 ≡ ok v
    → ((f db.tables).0 ≡ ok v) × ((statement f db).1.tables ≡ (f db.tables).1)
statement_ok f db v q = elim (statement_lem f db) [
  | inl ((e, failed), _) ↦ cc
  | inr (ran, left) ↦ (sym ran ∙ q, left)
]

-- A statement that only answers a value answers that value, if it answers one.
noop_ok : {A : Type 0} (w v : A) (db : Db) → (statement (λ t. (ok w, t)) db).0 ≡ ok v → w ≡ v
noop_ok w v db q =
    let (answer, _) = statement_ok (λ t. (ok w, t)) db v q in ok_inj (ok w) w v refl answer

committed_ok :
    {A : Type 0} (before : Tables) (r : Outcome DbError A × Db) (v : A)
    → (committed before r).0 ≡ ok v
    → (r.0 ≡ ok v) × ((committed before r).1.tables ≡ r.1.tables)
unfolding committed
committed_ok before (ok w, db) v q =
    let (answer, same) = settled_ok before (statement (λ t. (ok w, t)) db) v q in
    (ap ok (noop_ok w v db answer), same ∙ noop_tables w db)
committed_ok before (err e, db) v q = cc

-- What a successful transaction has done: its body ran on the tables it found.
abbrev pub Ran : {A : Type 0} → DbExec A → Tables → A → Tables → Type 0
Ran f before v after =
    (inside : Db) × (inside.tables ≡ before) × ((f inside).0 ≡ ok v) × (after ≡ (f inside).1.tables)

begun_ok :
    {A : Type 0} (f : DbExec A) (before : Tables) (v : A) (r : Outcome DbError Unit × Db)
    → (begun f r).0 ≡ ok v
    → r.1.tables ≡ before
    → Ran f before v (begun f r).1.tables
unfolding begun
begun_ok f before v (ok _, inside) p same =
    let (answer, left) = committed_ok inside.tables (f inside) v p in (inside, same, answer, left)
begun_ok f before v (err e, inside) p same = cc

pub transaction_ok :
    {A : Type 0} (f : DbExec A) (db : Db) (v : A)
    → (transaction f db).0 ≡ ok v
    → Ran f db.tables v (transaction f db).1.tables
unfolding transaction
transaction_ok f db v q =
    begun_ok f db.tables v (statement (λ t. (ok tt, t)) db) q (noop_tables tt db)

-- The tables after both rows of an account are added.
abbrev pub with_account : User → AuthRecord → Tables → Tables
with_account u a t = record t { users = t.users ++ user_row u ∷ []; auths = t.auths ++ a ∷ [] }

insert_user_row_ok :
    (u : User) (t : Tables)
    → (insert_user_row u t).0 ≡ ok tt
    → (insert_user_row u t).1 ≡ record t { users = t.users ++ user_row u ∷ [] }
insert_user_row_ok u t q = ground arith

insert_auth_row_ok :
    (a : AuthRecord) (t : Tables)
    → (insert_auth_row a t).0 ≡ ok tt
    → (insert_auth_row a t).1 ≡ record t { auths = t.auths ++ a ∷ [] }
insert_auth_row_ok a t q = ground arith

both_inserts :
    (u : User) (a : AuthRecord) (db : Db)
    → ((insert_user_tx u >>= λ _. insert_auth_tx a) db).0 ≡ ok tt
    → ((insert_user_tx u >>= λ _. insert_auth_tx a) db).1.tables ≡ with_account u a db.tables
unfolding insert_user_tx insert_auth_tx
both_inserts u a db q =
    let (x, first, split) = bind_ok (insert_user_tx u) (λ _. insert_auth_tx a) db tt q in
    let (user_ok, users) = statement_ok (insert_user_row u) db x first in
    let (auth_ok, auths) =
      statement_ok (insert_auth_row a) (insert_user_tx u db).1 tt (rw split at q) in
    let done = insert_user_row_ok u db.tables user_ok in
    ap (λ (r : Outcome DbError Unit × Db). r.1.tables) split
    ∙ auths
    ∙ insert_auth_row_ok a (insert_user_tx u db).1.tables auth_ok
    ∙ ap (λ (t : Tables). record t { auths = t.auths ++ a ∷ [] }) (users ∙ done)

-- Creating an account either adds both of its rows and nothing else, or answers an error and
-- changes no table.
pub create_account_atomic :
    (u : User) (a : AuthRecord) (db : Db)
    → (((create_account u a db).0 ≡ ok tt)
        × ((create_account u a db).1.tables ≡ with_account u a db.tables))
      ⊎ ((e : DbError) × ((create_account u a db).0 ≡ err e)
          × ((create_account u a db).1.tables ≡ db.tables))
unfolding create_account
create_account_atomic u a db =
    let body = insert_user_tx u >>= λ _. insert_auth_tx a in
    elim (Outcome-cases (create_account u a db).0) [
      | inl (_, q) ↦
          let (inside, same, answer, left) = transaction_ok body db tt q in
          inl (q, left ∙ both_inserts u a inside answer ∙ ap (with_account u a) same)
      | inr (e, q) ↦ inr (e, q, transaction_atomic body db e q)
    ]

-- ===== src/Routes/Metering.antt =====
-- The usage route of backend/src/routes.rs and the free limit.
use mathlib.Core.Option
use tldr_tv.Prelude.{
  ◌and_then◌, ◌+◌, ◌≡◌, refl, Bool, true, false, not, ◌&&◌, ◌||◌, ◌==◌, Option, none, some, List,
  [], ◌∷◌, arith, if◌then◌else◌, Bool-cases, inl, inr, All, list_eq, nat_eq,
}
use tldr_tv.Prelude.Text.{Text, codes}
use tldr_tv.Prelude.Int.{ℤ, pos, int_ltb}
use tldr_tv.Prelude.Exec.{ok, pure, raise, ◌>>=◌, ◌>>◌, Keeps, bind-Keeps, bind_ok, Outcome-cases}
use tldr_tv.Json.{get_str}
use tldr_tv.Http.{Request, Response}
use tldr_tv.Db
use tldr_tv.Db.{Db, DbError, DbExec, Tables, UserRow, User, UserQuery, Subscription, by_id}
use tldr_tv.Db.Statements.{update_rows, update_users, changes, clause, first_row, user_from_row}
use tldr_tv.Db.Pool.{find_user, reset_usage_window, consume_usage, run_update}
use tldr_tv.Db.Laws.{statement_lem, statement_ok, transaction_ok, transaction_atomic}
use tldr_tv.Db.Quota.{Within, Limited, consume_usage-Consumed}
use tldr_tv.Routes.{App, World, Handler, on_db, now_secs, db_err, err_json}
use tldr_tv.Routes.Account.{or_answer, answer_unless}
use tldr_tv.Routes.Usage.{
  usage_for, meter, count_usage, answer_subscriber, some_or_limit, window_over, usage_window_secs,
  operate, look_up_user, user_or_404, meter_found, bad_operation, usage_limit_reached,
  resolve_usage, is_subscriber,
}

-- the invariant, on the state of a handler
abbrev pub Metered : ℤ → World → Type 0
Metered limit w = Limited limit w.db.tables

find_user_tables : (q : UserQuery) (db : Db) → (find_user q db).1.tables ≡ db.tables
unfolding find_user
find_user_tables q db =
    elim (statement_lem
      (λ t. (ok (first_row (clause q) t.users and_then λ r. some (user_from_row r)), t)) db) [
        | inl (_, same) ↦ same
        | inr (_, same) ↦ same
      ]

update_rows-All :
    (limit : ℤ) (p : UserRow → Bool) (f : UserRow → UserRow) (rows : List UserRow)
    → ((r : UserRow) → Within limit (f r))
    → All (Within limit) rows
    → All (Within limit) (update_rows p f rows)
update_rows-All limit p f [] good h = h
update_rows-All limit p f (row ∷ rows) good (h, hs) = elim (Bool-cases (p row)) [
  | inl hit ↦ rw hit (good row, update_rows-All limit p f rows good hs)
  | inr other ↦ rw other (h, update_rows-All limit p f rows good hs)
]

abbrev restart : Text → ℤ → Bool → DbExec ℤ
unfolding run_update
restart user_id reset_at consume =
    let count = pos (if consume then 1 else 0) in
    run_update (clause (by_id user_id))
      (λ r. record r { usage_count = some count; usage_reset_at = some reset_at })
    >>= λ _. pure count

restart-Limited :
    (limit : ℤ) (user_id : Text) (reset_at : ℤ) (consume : Bool) (db : Db) (v : ℤ)
    → int_ltb limit (pos (if consume then 1 else 0)) ≡ false
    → Limited limit db.tables
    → (restart user_id reset_at consume db).0 ≡ ok v
    → Limited limit (restart user_id reset_at consume db).1.tables
unfolding restart run_update
restart-Limited limit user_id reset_at consume db v low h q =
    let count = pos (if consume then 1 else 0) in
    let change : UserRow → UserRow =
      λ r. record r { usage_count = some count; usage_reset_at = some reset_at } in
    let p = clause (by_id user_id) in
    let (n, first, split) = bind_ok (run_update p change) (λ _. pure count) db v q in
    let (_, left) =
      statement_ok (λ (t : Tables). (ok (changes p t.users), update_users p change t)) db n first in
    rw (split, left) (update_rows-All limit p change db.tables.users (λ r. low) h)

reset_usage_window-Limited :
    (limit : ℤ) (user_id : Text) (reset_at : ℤ) (consume : Bool) (db : Db)
    → int_ltb limit (pos (if consume then 1 else 0)) ≡ false
    → Limited limit db.tables
    → Limited limit (reset_usage_window user_id reset_at consume db).1.tables
unfolding reset_usage_window restart
reset_usage_window-Limited limit user_id reset_at consume db low h =
    let body = restart user_id reset_at consume in
    elim (Outcome-cases (reset_usage_window user_id reset_at consume db).0) [
      | inl (v, q) ↦
          let (inside, same, answer, left) = transaction_ok body db v q in
          rw left (restart-Limited limit user_id reset_at consume inside v low (rw same h) answer)
      | inr (e, q) ↦ rw (transaction_atomic body db e q) h
    ]

module _ (limit : ℤ) where
  on_db-Keeps :
      {A B : Type 0} (m : DbExec A) (on_err : DbError → Handler B) (on_ok : A → Handler B)
      → ((db : Db) → Limited limit db.tables → Limited limit (m db).1.tables)
      → ((e : DbError) → Keeps (Metered limit) (on_err e))
      → ((a : A) → Keeps (Metered limit) (on_ok a))
      → Keeps (Metered limit) (on_db m on_err on_ok)
  on_db-Keeps m on_err on_ok first bad good w h = elim (Outcome-cases (m w.db).0) [
    | inl (a, q) ↦ rw (on_db, q) (good a (record w { db = (m w.db).1 }) (first w.db h))
    | inr (e, q) ↦ rw (on_db, q) (bad e (record w { db = (m w.db).1 }) (first w.db h))
  ]

  or_answer-Keeps :
      {A : Type 0} (o : Option A) (res : Response) → Keeps (Metered limit) (or_answer o res)
  or_answer-Keeps none res w h = h
  or_answer-Keeps (some a) res w h = h

  answer_unless-Keeps : (b : Bool) (res : Response) → Keeps (Metered limit) (answer_unless b res)
  answer_unless-Keeps b res w h = h

  -- What follows a guard may rely on it.
  guarded-Keeps :
      {A : Type 0} (b : Bool) (res : Response) (m : Handler A)
      → (b ≡ true → Keeps (Metered limit) m)
      → Keeps (Metered limit) (answer_unless b res >> m)
  guarded-Keeps false res m keeps w h = h
  guarded-Keeps true res m keeps w h = keeps refl w h

  some_or_limit-Keeps : (o : Option ℤ) → Keeps (Metered limit) (some_or_limit limit o)
  some_or_limit-Keeps none w h = h
  some_or_limit-Keeps (some v) w h = h

answer_subscriber-Keeps :
    (limit : ℤ) (app : App) (sub : Option Subscription)
    → Keeps (Metered limit) (answer_subscriber app sub)
answer_subscriber-Keeps limit app none w h = h
answer_subscriber-Keeps limit app (some sub) w h = elim (Bool-cases (is_subscriber app sub)) [
  | inl active ↦ rw (answer_subscriber, active) h
  | inr over ↦ rw (answer_subscriber, over) h
]

-- A window can be opened: the limit is not negative, and at least 1 if the request counts.
room :
    (limit : ℤ) (is_tracking : Bool)
    → int_ltb limit (pos 0) ≡ false
    → not (is_tracking && int_ltb limit (pos 1)) ≡ true
    → int_ltb limit (pos (if is_tracking then 1 else 0)) ≡ false
room limit true low guard = ground arith
room limit false low guard = low

count_usage-Keeps :
    (app : App) (user_id : Text) (usage : Db.Usage) (is_tracking : Bool)
    → int_ltb app.free_usage_limit (pos (if is_tracking then 1 else 0)) ≡ false
    → Keeps (Metered app.free_usage_limit) (count_usage app user_id usage is_tracking)
unfolding count_usage
count_usage-Keeps app user_id usage is_tracking low w h =
    let limit = app.free_usage_limit in
    let reset_at = pos (now_secs app + usage_window_secs) in
    elim (Bool-cases (window_over (now_secs app) usage.reset_at)) [
      | inl over ↦
          rw (count_usage, over)
            (on_db-Keeps limit (reset_usage_window user_id reset_at is_tracking) (λ _. raise db_err)
              pure (λ db k. reset_usage_window-Limited limit user_id reset_at is_tracking db low k)
              (λ e v k. k) (λ a v k. k) w h)
      | inr open_ ↦ elim (Bool-cases is_tracking) [
        | inr check ↦ rw (count_usage, open_, check) h
        | inl track ↦
            rw (count_usage, open_, track)
              (on_db-Keeps limit (consume_usage user_id limit) (λ _. raise db_err)
                (some_or_limit limit) (λ db k. (consume_usage-Consumed user_id limit db k).limited)
                (λ e v k. k) (some_or_limit-Keeps limit) w h)
      ]
    ]

meter-Keeps :
    (app : App) (user : User) (user_id : Text) (is_tracking : Bool)
    → int_ltb app.free_usage_limit (pos 0) ≡ false
    → Keeps (Metered app.free_usage_limit) (meter app user user_id is_tracking)
unfolding meter
meter-Keeps app user user_id is_tracking low =
    let limit = app.free_usage_limit in
    bind-Keeps (Metered limit) (answer_subscriber app user.subscription) _
      (answer_subscriber-Keeps limit app user.subscription)
      (λ _.
        guarded-Keeps limit (not (is_tracking && int_ltb limit (pos 1))) (usage_limit_reached limit)
          _
          (λ guard.
            bind-Keeps (Metered limit) (count_usage app user_id (resolve_usage user) is_tracking) _
              (count_usage-Keeps app user_id (resolve_usage user) is_tracking
                (room limit is_tracking low guard))
              (λ count v k. k)))

operate-Keeps :
    (app : App) (user_id operation : Text)
    → int_ltb app.free_usage_limit (pos 0) ≡ false
    → Keeps (Metered app.free_usage_limit) (operate app user_id operation)
operate-Keeps app user_id operation low =
    let limit = app.free_usage_limit in
    let is_tracking = operation == codes "track" in
    let found-Keeps = λ (user : Option User).
      bind-Keeps (Metered limit) (user_or_404 user) (λ user'. meter app user' user_id is_tracking)
        (or_answer-Keeps limit user (err_json 404 (codes "User not found")))
        (λ user'. meter-Keeps app user' user_id is_tracking low) in
    let look_up-Keeps =
      on_db-Keeps limit (find_user (by_id user_id)) (λ _. raise db_err) pure
        (λ db k. rw (find_user_tables (by_id user_id) db) k) (λ e v k. k) (λ a v k. k) in
    guarded-Keeps limit (operation == codes "check" || is_tracking) bad_operation
      (look_up_user user_id >>= meter_found app user_id is_tracking)
      (λ _.
        bind-Keeps (Metered limit) (look_up_user user_id) (meter_found app user_id is_tracking)
          look_up-Keeps found-Keeps)

-- If the free limit is not negative and no user's count is above it, then no count is above it after
-- the usage route has served a signed-in user, whichever way it ends.
pub usage_for-Metered :
    (app : App) (req : Request) (user_id : Text) (w : World)
    → int_ltb app.free_usage_limit (pos 0) ≡ false
    → Metered app.free_usage_limit w
    → Metered app.free_usage_limit (usage_for app req user_id w).1
unfolding usage_for
usage_for-Metered app req user_id w low h =
    let limit = app.free_usage_limit in
    bind-Keeps (Metered limit) (or_answer (app.parse req.body) db_err)
      (λ body. operate app user_id (Option.get_or (get_str body (codes "operation")) []))
      (or_answer-Keeps limit (app.parse req.body) db_err)
      (λ body. operate-Keeps app user_id (Option.get_or (get_str body (codes "operation")) []) low)
      w h

-- ===== src/Db/Pool.antt =====
-- The account, usage and webhook operations of `Pool` in backend/src/db.rs.
use tldr_tv.Prelude.{◌and_then◌, ℕ, Bool, not, Option, none, some, keep, nat_beq, if◌then◌else◌}
use tldr_tv.Prelude.Text.{Text}
use tldr_tv.Prelude.Int.{ℤ, pos, int_ltb}
use tldr_tv.Prelude.Exec.{ok, pure, ◌>>=◌}
use tldr_tv.Db.{
  UserRow, User, AuthRecord, WebhookEvent, Subscription, Usage, UserQuery, by_id, DbExec, statement,
  transaction,
}
use tldr_tv.Db.Statements.{
  clause, user_from_row, first_row, changes, update_rows, update_users, insert_user_row,
  insert_auth_row, insert_event_row, has_email, has_event_id, add_usage, below_limit,
}

-- `UPDATE Users SET .. WHERE ..`: how many rows it changed
unfoldable pub run_update : (UserRow → Bool) → (UserRow → UserRow) → DbExec ℕ
unfolding statement
run_update p f = statement λ t. (ok (changes p t.users), update_users p f t)

unfoldable pub find_user : UserQuery → DbExec (Option User)
unfolding statement user_from_row
find_user q =
    statement λ t. (ok (first_row (clause q) t.users and_then λ r. some (user_from_row r)), t)

unfoldable pub insert_user_tx : User → DbExec Unit
unfolding statement
insert_user_tx u = statement (insert_user_row u)

unfoldable pub insert_auth_tx : AuthRecord → DbExec Unit
unfolding statement
insert_auth_tx a = statement (insert_auth_row a)

unfoldable pub insert_user : User → DbExec Unit
unfolding statement
insert_user u = insert_user_tx u

unfoldable pub update_user_set_name : Text → Text → DbExec ℕ
unfolding statement
update_user_set_name id name = run_update (clause (by_id id)) λ r. record r { name = name }

unfoldable pub update_user_subscription : Text → Subscription → DbExec ℕ
unfolding statement
update_user_subscription id sub = run_update (clause (by_id id)) λ r. record r {
  subscription_stripe_id = some sub.stripe_id;
  subscription_expires = sub.expires;
  subscription_status = some sub.status;
}

unfoldable pub update_user_usage : Text → Usage → DbExec ℕ
unfolding statement
update_user_usage id usage =
    run_update (clause (by_id id))
      λ r. record r { usage_count = some usage.count; usage_reset_at = usage.reset_at }

unfoldable pub increment_usage_count : Text → ℤ → DbExec ℕ
unfolding statement
increment_usage_count id delta = run_update (clause (by_id id)) (add_usage delta)

-- SELECT usage_count FROM Users WHERE _id = ?
unfoldable pub select_usage_count : Text → DbExec (Option ℤ)
unfolding statement
select_usage_count id =
    statement λ t. (ok (first_row (clause (by_id id)) t.users and_then λ r. r.usage_count), t)

unfoldable pub consume_usage : Text → ℤ → DbExec (Option ℤ)
unfolding statement transaction
consume_usage id limit = transaction (
    run_update (below_limit id limit) (add_usage (pos 1)) >>= λ changed.
    if nat_beq changed 0 then pure none else select_usage_count id)

unfoldable pub reset_usage_window : Text → ℤ → Bool → DbExec ℤ
unfolding statement transaction
reset_usage_window id reset_at consume =
    let count = pos (if consume then 1 else 0) in
    transaction (
      run_update (clause (by_id id))
        (λ r. record r { usage_count = some count; usage_reset_at = some reset_at })
      >>= λ _. pure count)

unfoldable pub delete_user : UserQuery → DbExec ℕ
unfolding statement
delete_user q = statement λ t.
    (ok (changes (clause q) t.users), record t { users = keep (λ r. not (clause q r)) t.users })

unfoldable pub find_auth : Text → DbExec (Option AuthRecord)
unfolding statement
find_auth email = statement λ t. (ok (first_row (has_email email) t.auths), t)

unfoldable pub insert_auth : AuthRecord → DbExec Unit
unfolding statement
insert_auth a = insert_auth_tx a

unfoldable pub create_account : User → AuthRecord → DbExec Unit
unfolding statement transaction
create_account u a = transaction (insert_user_tx u >>= λ _. insert_auth_tx a)

unfoldable pub update_auth_password : Text → Text → DbExec ℕ
unfolding statement
update_auth_password email password = statement λ t. (
  ok (changes (has_email email) t.auths),
  record t {
    auths = update_rows (has_email email) (λ a. record a { password = password }) t.auths;
  },
)

unfoldable pub find_webhook_event : Text → DbExec (Option WebhookEvent)
unfolding statement
find_webhook_event event_id =
    statement λ t. (ok (first_row (has_event_id event_id) t.webhook_events), t)

unfoldable pub insert_webhook_event : Text → Text → ℤ → DbExec Unit
unfolding statement
insert_webhook_event event_id event_type processed_at = statement (
    insert_event_row
      (record { event_id = event_id; event_type = event_type; processed_at = processed_at }))

unfoldable pub delete_webhook_event : Text → DbExec Unit
unfolding statement
delete_webhook_event event_id = statement λ t. (
  ok tt,
  record t { webhook_events = keep (λ e. not (has_event_id event_id e)) t.webhook_events },
)

unfoldable pub prune_webhook_events : ℤ → DbExec ℕ
unfolding statement
prune_webhook_events cutoff_ms = statement λ t. (
  ok (changes (λ (e : WebhookEvent). int_ltb e.processed_at cutoff_ms) t.webhook_events),
  record t {
    webhook_events =
        keep (λ (e : WebhookEvent). not (int_ltb e.processed_at cutoff_ms)) t.webhook_events;
  },
)

unfoldable pub ping : DbExec Unit
unfolding statement
ping = statement λ t. (ok tt, t)

-- ===== src/Routes/Credentials.antt =====
-- The sign-in of backend/src/routes.rs: the lockout and the password.
use tldr_tv.Prelude.{
  ℕ, suc, ◌+◌, ◌*◌, ◌^◌, ◌≤◌, ◌<◌, arith, length, List, ◌∷◌, pair_eq, ◌≡◌, ◌≢◌, inl, inr, refl, ap,
  ◌∙◌, true, false, Option, none, some, Bool-cases, Option-cases, list_eq, nat_eq,
}
use tldr_tv.Prelude.Text.{Text}
use tldr_tv.Prelude.Exec.{Outcome, ok, err, ok_inj, Outcome-cases}
use tldr_tv.Http.{Response}
use tldr_tv.Db.{Db, Tables, AuthRecord}
use tldr_tv.Db.Statements.{first_row, has_email}
use tldr_tv.Db.Pool.{find_auth}
use tldr_tv.Db.Laws.{statement_ok}
use tldr_tv.Stores.Lockout.{LockoutStore, key, is_locked, record_failure}
use tldr_tv.Stores.Lockout.Bounds.{IsBounded}
use tldr_tv.Stores.Lockout.Streak.{fail_at, Steady, last_of, is_locked-fail_at}
use tldr_tv.HashMap.{lookup}
use tldr_tv.Routes.{App, World}
use tldr_tv.Routes.Signin.{
  authenticate, check_lockout, locked_out, invalid_credentials, known_account, check_password,
  refuse_signin,
}

authenticate_refused :
    (app : App) (email ip password : Text) (w : World)
    → (is_locked w.lockout email ip app.now_ms).1.locked ≡ true
    → authenticate app email ip password w ≡ (
      err (locked_out (is_locked w.lockout email ip app.now_ms).1.remaining_time),
      record w { lockout = (is_locked w.lockout email ip app.now_ms).0 },
    )
unfolding authenticate check_lockout
authenticate_refused app email ip password w q = rw (authenticate, check_lockout, q) refl

-- After at least five failures of a client (fewer than 2^32), none more than fifteen minutes after the
-- one before, recorded one after the other from a store with distinct keys, at most 50,000 entries
-- and none for the client, a sign-in of that client within fifteen minutes of the last failure is
-- answered 429 whatever the password, and all that it changes is what the test of the lock does to the
-- lockout store.
pub authenticate_locked :
    (app : App) (email ip password : Text) (w : World) (store : LockoutStore) (t : ℕ) (ts : List ℕ)
    → IsBounded store
    → lookup (key email ip) store ≡ none
    → Steady t ts
    → suc (length ts) < 2 ^ 32
    → 5 ≤ suc (length ts)
    → w.lockout ≡ fail_at store email ip (t ∷ ts)
    → app.now_ms < last_of t ts + 15 * 60 * 1000
    → (res : Response) × (authenticate app email ip password w
        ≡ (err res, record w { lockout = (is_locked w.lockout email ip app.now_ms).0 }))
      × (res.status ≡ 429)
authenticate_locked app email ip password w store t ts b fresh steady small five failed soon =
    let locked : (is_locked w.lockout email ip app.now_ms).1.locked ≡ true =
      ap (λ l. (is_locked l email ip app.now_ms).1.locked) failed
      ∙ is_locked-fail_at store email ip t ts app.now_ms b fresh steady small
      ∙ ground arith in
    (_, authenticate_refused app email ip password w locked, refl)

-- the account of an email refuses a password: there is none, or the password does not verify
abbrev pub Rejects : App → Text → Option AuthRecord → Type 0
Rejects app password none = Unit
Rejects app password (some auth) = app.verify_password password auth.password ≡ false

-- For a client that is not locked out, if the account can be looked up, an unknown email and a wrong
-- password are answered alike, each counts as a failed attempt of the client, and nothing more is
-- done after the look-up.
pub authenticate_rejected :
    (app : App) (email ip password : Text) (w : World) (found : Option AuthRecord)
    → (is_locked w.lockout email ip app.now_ms).1.locked ≡ false
    → (find_auth email w.db).0 ≡ ok found
    → Rejects app password found
    → authenticate app email ip password w ≡ (
      err (invalid_credentials 401),
      record w {
        lockout =
            (record_failure (is_locked w.lockout email ip app.now_ms).0 email ip app.now_ms).0;
        db = (find_auth email w.db).1;
      },
    )
unfolding authenticate check_lockout known_account check_password refuse_signin
authenticate_rejected app email ip password w none q found_q h =
    rw (authenticate, check_lockout, q, found_q) refl
authenticate_rejected app email ip password w (some auth) q found_q h =
    rw (authenticate, check_lockout, q, found_q, check_password, h) refl

find_auth_ok :
    (email : Text) (db : Db) (found : Option AuthRecord)
    → (find_auth email db).0 ≡ ok found
    → first_row (has_email email) db.tables.auths ≡ found
unfolding find_auth
find_auth_ok email db found q =
    let (answer, _) =
      statement_ok (λ (t : Tables). (ok (first_row (has_email email) t.auths), t)) db found q in
    ok_inj _ _ found refl answer

-- The client is not locked out, and the password is the one of the account with this email.
pub record Verified (app : App) (email ip password : Text) (w : World) : Type 0 where
  pub auth : AuthRecord
  pub unlocked : (is_locked w.lockout email ip app.now_ms).1.locked ≡ false
  pub on_record : first_row (has_email email) w.db.tables.auths ≡ some auth
  pub password_ok : app.verify_password password auth.password ≡ true

answers_err :
    (r : Outcome Response Response × World) (e : Response) (w : World) (res : Response)
    → r ≡ (err e, w)
    → r.0 ≢ ok res
answers_err r e w res p q = cc

-- A sign-in that succeeds is of a client that is not locked out, with the password on record for
-- the email.
pub authenticate_ok :
    (app : App) (email ip password : Text) (w : World) (res : Response)
    → (authenticate app email ip password w).0 ≡ ok res
    → Verified app email ip password w
unfolding authenticate check_lockout
authenticate_ok app email ip password w res q =
    elim (Bool-cases (is_locked w.lockout email ip app.now_ms).1.locked) [
      | inl locked ↦
          absurd (answers_err _ _ _ res (authenticate_refused app email ip password w locked) q)
      | inr unlocked ↦ elim (Outcome-cases (find_auth email w.db).0) [
        | inr (e, failed) ↦
            absurd (let q' = rw (authenticate, check_lockout, unlocked, failed) at q in cc)
        | inl (found, found_q) ↦ elim (Option-cases found) [
          | inl unknown ↦ absurd (
              answers_err _ _ _ res
                (authenticate_rejected app email ip password w none unlocked
                  (found_q ∙ ap ok unknown) tt)
                q)
          | inr (auth, known) ↦
              let found' = found_q ∙ ap ok known in
              elim (Bool-cases (app.verify_password password auth.password)) [
                | inl right ↦ record {
                  auth = auth;
                  unlocked = unlocked;
                  on_record = find_auth_ok email w.db (some auth) found';
                  password_ok = right;
                }
                | inr wrong ↦ absurd (
                    answers_err _ _ _ res
                      (authenticate_rejected app email ip password w (some auth) unlocked found'
                        wrong)
                      q)
              ]
        ]
      ]
    ]

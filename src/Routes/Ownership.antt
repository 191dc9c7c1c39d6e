-- ===== src/Routes/Ownership.antt =====
-- The billing portal of backend/src/routes.rs: whose customer it opens.
use tldr_tv.Prelude.{
  ◌and_then◌, ◌≡◌, ◌↔◌, inl, inr, refl, sym, ap, ◌∙◌, Bool, true, false, Option, none, some, arith,
  Bool-cases, Option-cases, list_eq, nat_eq, subst,
}
use tldr_tv.Prelude.Text.{Text, codes, utf8}
use tldr_tv.Prelude.Exec.{Outcome, ok, ◌>>◌, bind_ok, ok_inj, Outcome-cases}
use tldr_tv.Json.{get_str}
use tldr_tv.Crypto.Compare.{ct_eq_iff}
use tldr_tv.Http.{Request, Response}
use tldr_tv.Db.{Db, Tables, User, by_id}
use tldr_tv.Db.Statements.{first_row, clause, user_from_row}
use tldr_tv.Db.Pool.{find_user}
use tldr_tv.Db.Laws.{statement_ok}
use tldr_tv.Routes.{App, World, Handler, Stripe}
use tldr_tv.Routes.Account.{or_answer, answer_unless}
use tldr_tv.Routes.Guards.{require_csrf_db}
use tldr_tv.Routes.Session.{require_auth, require_csrf, as_user}
use tldr_tv.Routes.Billing.{authorized, stored_id, open_portal, portal_handler, portal_for}

-- The customer is allowed only if it is, byte for byte, the one on record, which is not blank.
pub authorized_iff :
    (user : Option User) (customer_id : Text)
    → (authorized user customer_id ≡ true)
      ↔ ((id : Text) × (stored_id user ≡ some id) × (utf8 id ≡ utf8 customer_id))
unfolding authorized
authorized_iff user customer_id = (
  λ q. elim (Option-cases (stored_id user)) [
    | inl nothing ↦ absurd (ground arith)
    | inr (id, found) ↦
        (id, found, (ct_eq_iff (utf8 id) (utf8 customer_id)).0 (rw (authorized, found) at q))
  ],
  λ (id, found, same). rw (authorized, found) ((ct_eq_iff (utf8 id) (utf8 customer_id)).1 same),
)

answer_unless_ok :
    (b : Bool) (res : Response) (w : World) (u : Unit {0})
    → (answer_unless b res w).0 ≡ ok u
    → (b ≡ true) × ((answer_unless b res w).1 ≡ w)
answer_unless_ok false res w u q = cc
answer_unless_ok true res w u q = (refl, refl)

or_answer_ok :
    {A : Type 0} (o : Option A) (res : Response) (w : World) (a : A)
    → (or_answer o res w).0 ≡ ok a
    → (o ≡ some a) × ((or_answer o res w).1 ≡ w)
or_answer_ok none res w a q = cc
or_answer_ok (some b) res w a q = (ap some (ok_inj (ok b) b a refl q), refl)

require_auth_world : (app : App) (req : Request) (w : World) → (require_auth app req w).1 ≡ w
unfolding require_auth
require_auth_world app req w = elim (Option-cases app.jwt_secret) [
  | inl no_secret ↦ rw (require_auth, no_secret) refl
  | inr (secret, q) ↦ elim (Option-cases (req.cookie (codes "token"))) [
    | inl no_token ↦ rw (require_auth, q, no_token) refl
    | inr (token, p) ↦ rw (require_auth, q, p) refl
  ]
]

-- A portal that opens is that of the customer on record for the user.
open_portal_owner :
    (app : App) (req : Request) (stripe : Stripe) (customer_id : Text) (user : Option User)
    (w : World) (res : Response)
    → (open_portal app req stripe customer_id user w).0 ≡ ok res
    → authorized user customer_id ≡ true
unfolding open_portal
open_portal_owner app req stripe customer_id user w res q =
    elim (Bool-cases (authorized user customer_id)) [
      | inl allowed ↦ allowed
      | inr refused ↦ absurd (let q' = rw (open_portal, refused) at q in cc)
    ]

-- The customer on record for a user, by the tables.
abbrev pub customer_of : Tables → Text → Option Text
unfolding user_from_row
customer_of t user_id =
    stored_id (first_row (clause (by_id user_id)) t.users and_then λ r. some (user_from_row r))

-- The request has passed the checks of session and token, as this user.
pub record Passed (app : App) (req : Request) (w : World) (user_id : Text) : Type 0 where
  pub signed_in : (require_auth app req w).0 ≡ ok user_id
  pub passed_csrf : (require_csrf app req user_id w).0 ≡ ok tt

pub as_user_ok :
    (app : App) (req : Request) (f : Text → Handler Response) (w : World) (res : Response)
    → (as_user app req f w).0 ≡ ok res
    → (user_id : Text) × Passed app req w user_id
      × (as_user app req f w ≡ f user_id (require_csrf app req user_id w).1)
as_user_ok app req f w res q =
    let rest : Text → Handler Response = λ user_id. require_csrf app req user_id >> f user_id in
    let (user_id, signed_in, split) = bind_ok (require_auth app req) rest w res q in
    let split' = split ∙ ap (rest user_id) (require_auth_world app req w) in
    let q' = ap (λ (r : Outcome Response Response × World). r.0) (sym split') ∙ q in
    let (u, passed, last) = bind_ok (require_csrf app req user_id) (λ _. f user_id) w res q' in
    (user_id, record { signed_in = signed_in; passed_csrf = passed }, split' ∙ last)

find_user_ok :
    (user_id : Text) (db : Db) (user : Option User)
    → (find_user (by_id user_id) db).0 ≡ ok user
    → (first_row (clause (by_id user_id)) db.tables.users and_then λ r. some (user_from_row r))
      ≡ user
unfolding find_user
find_user_ok user_id db user q =
    let (answer, _) =
      statement_ok
        (λ (t : Tables).
          (ok (first_row (clause (by_id user_id)) t.users and_then λ r. some (user_from_row r)), t))
        db user q in
    ok_inj _ _ user refl answer

-- The customer the body of a request names, if it is that of the user.
pub record Owns (app : App) (req : Request) (t : Tables) (user_id : Text) : Type 0 where
  pub customer_id : Text
  pub stored : Text
  pub asked :
      (app.parse req.body and_then λ body. get_str body (codes "customerID")) ≡ some customer_id
  pub on_record : customer_of t user_id ≡ some stored
  pub same : utf8 stored ≡ utf8 customer_id

portal_for-Owns :
    (app : App) (req : Request) (user_id : Text) (w : World) (res : Response)
    → (portal_for app req user_id w).0 ≡ ok res
    → Owns app req w.db.tables user_id
unfolding portal_for customer_of open_portal
portal_for-Owns app req user_id w res q = elim (Option-cases app.stripe) [
  | inl off ↦ absurd (let q' = rw (portal_for, off) at q in cc)
  | inr (stripe, on) ↦ elim (Option-cases (app.parse req.body)) [
    | inl bad ↦ absurd (let q' = rw (portal_for, on, bad) at q in cc)
    | inr (body, parsed) ↦ elim (Option-cases (get_str body (codes "customerID"))) [
      | inl missing ↦ absurd (let q' = rw (portal_for, on, parsed, missing) at q in cc)
      | inr (customer_id, asked) ↦ elim (Outcome-cases (find_user (by_id user_id) w.db).0) [
        | inr (e, failed) ↦ absurd (let q' = rw (portal_for, on, parsed, asked, failed) at q in cc)
        | inl (user, found) ↦
            let allowed =
              open_portal_owner app req stripe customer_id user
                (record w { db = (find_user (by_id user_id) w.db).1 }) res
                (rw (portal_for, on, parsed, asked, found) at q) in
            let (stored, is_stored, same) = (authorized_iff user customer_id).0 allowed in
            record {
              customer_id = customer_id;
              stored = stored;
              asked = rw (parsed) asked;
              on_record = ap stored_id (find_user_ok user_id w.db user found) ∙ is_stored;
              same = same;
            }
      ]
    ]
  ]
]

-- A portal request that is served has passed the session check and the CSRF check as some user, and
-- the customer that its body names is, byte for byte, the one on record for that user.
pub portal_handler_owner :
    (app : App) (req : Request) (w : World) (res : Response)
    → (portal_handler app req w).0 ≡ ok res
    → (user_id : Text) × Passed app req w user_id × Owns app req w.db.tables user_id
unfolding portal_handler
portal_handler_owner app req w res q =
    let (user_id, passed, split) = as_user_ok app req (portal_for app req) w res q in
    let q' = ap (λ (r : Outcome Response Response × World). r.0) (sym split) ∙ q in
    let w' = (require_csrf app req user_id w).1 in
    (
      user_id,
      passed,
      subst (λ (db : Db). Owns app req db.tables user_id) (require_csrf_db app req user_id w)
          (portal_for-Owns app req user_id w' res q'),
    )

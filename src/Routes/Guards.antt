-- ===== src/Routes/Guards.antt =====
-- The CSRF check of backend/src/routes.rs and the redirect origin of backend/src/state.rs.
use tldr_tv.Prelude.{
  ◌≡◌, ◌≢◌, ◌↔◌, ◌⊎◌, inl, inr, refl, Bool, true, false, Option, none, some, List, [], ◌∷◌, ◌++◌,
  arith, Bool-cases, Option-cases, ◌==◌, list_eq, nat_eq, is_nil, some_passes, ==_refl,
}
use tldr_tv.Prelude.Text.{Text, codes, utf8, decimal, trim}
use tldr_tv.Prelude.Exec.{Outcome, ok, err}
use tldr_tv.Crypto.Compare.{ct_eq_iff}
use tldr_tv.Http.{Request, Response, header}
use tldr_tv.Stores.Csrf
use tldr_tv.Stores.Csrf.{CsrfEntry, fresh}
use tldr_tv.Routes.{App, World, generate_csrf_token}
use tldr_tv.Routes.Session.{
  require_csrf, check_token, check_header, csrf_retry, csrf_exempt, retry_with, set_csrf,
  remove_csrf,
}
use tldr_tv.Routes.Billing.{allowed_origin, redirect_origin, find_origin}

-- The request carries the token on record for the user, and that token has not expired.
pub record HasToken (app : App) (req : Request) (user_id : Text) (w : World) : Type 0 where
  pub sent : Text
  pub stored : CsrfEntry
  pub in_header : header req (codes "x-csrf-token") ≡ some sent
  pub known_user : is_nil user_id ≡ false
  pub on_record : Csrf.get w.csrf user_id ≡ some stored
  pub same_token : utf8 sent ≡ utf8 stored.token
  pub is_fresh : fresh app.now_ms stored ≡ true

retry_with_refuses :
    (app : App) (user_id : Text) (r : Outcome Response Text) (w : World)
    → (retry_with app user_id r w).0 ≢ ok tt
retry_with_refuses app user_id (ok token) w q = cc
retry_with_refuses app user_id (err e) w q = cc

retry_refuses : (app : App) (user_id : Text) (w : World) → (csrf_retry app user_id w).0 ≢ ok tt
retry_refuses app user_id w =
    let (r, w') = generate_csrf_token w in retry_with_refuses app user_id r w'

check_token_iff :
    (app : App) (user_id sent : Text) (stored : CsrfEntry) (w : World)
    → ((check_token app user_id sent stored w).0 ≡ ok tt)
      ↔ ((utf8 sent ≡ utf8 stored.token) × (fresh app.now_ms stored ≡ true))
unfolding check_token
check_token_iff app user_id sent stored w =
    ground (arith, ct_eq_iff (utf8 sent) (utf8 stored.token), retry_refuses app user_id w)

check_header_found :
    (app : App) (user_id sent : Text) (stored : CsrfEntry) (w : World)
    → Csrf.get w.csrf user_id ≡ some stored
    → check_header app user_id sent w ≡ check_token app user_id sent stored w
unfolding check_header Csrf.get
check_header_found app user_id sent stored w q = rw (check_header, q) refl

check_header_unknown :
    (app : App) (user_id sent : Text) (w : World)
    → Csrf.get w.csrf user_id ≡ none
    → check_header app user_id sent w ≡ csrf_retry app user_id w
unfolding check_header Csrf.get
check_header_unknown app user_id sent w q = rw (check_header, q) refl

-- What the request lacks is refused, whether or not it is then handed a new token.
passes-HasToken :
    (app : App) (req : Request) (user_id : Text) (w : World)
    → csrf_exempt req ≡ false
    → (require_csrf app req user_id w).0 ≡ ok tt
    → HasToken app req user_id w
unfolding require_csrf
passes-HasToken app req user_id w exempt q =
    elim (Option-cases (header req (codes "x-csrf-token"))) [
      | inl missing ↦ absurd (ground arith)
      | inr (sent, in_header) ↦ elim (Bool-cases (is_nil user_id)) [
        | inl nobody ↦ absurd (ground arith)
        | inr known ↦ elim (Option-cases (Csrf.get w.csrf user_id)) [
          | inl unknown ↦ absurd (
              retry_refuses app user_id w (
                rw (exempt, in_header, known, check_header_unknown app user_id sent w unknown) at
                  q))
          | inr (stored, found) ↦
              let (same, new) = (check_token_iff app user_id sent stored w).0 (
                rw (exempt, in_header, known, check_header_found app user_id sent stored w found) at
                  q) in
              record {
                sent = sent;
                stored = stored;
                in_header = in_header;
                known_user = known;
                on_record = found;
                same_token = same;
                is_fresh = new;
              }
        ]
      ]
    ]

HasToken-passes :
    (app : App) (req : Request) (user_id : Text) (w : World)
    → csrf_exempt req ≡ false
    → HasToken app req user_id w
    → (require_csrf app req user_id w).0 ≡ ok tt
unfolding require_csrf
HasToken-passes app req user_id w exempt h =
    rw
      (
        exempt,
        h.in_header,
        h.known_user,
        check_header_found app user_id h.sent h.stored w h.on_record,
      )
      ((check_token_iff app user_id h.sent h.stored w).1 (h.same_token, h.is_fresh))

-- The CSRF check lets a request that is not exempt pass exactly if its header carries the token
-- on record for the signed-in user and the token is not more than a day old.
pub require_csrf_iff :
    (app : App) (req : Request) (user_id : Text) (w : World)
    → csrf_exempt req ≡ false
    → ((require_csrf app req user_id w).0 ≡ ok tt) ↔ HasToken app req user_id w
require_csrf_iff app req user_id w exempt =
    (passes-HasToken app req user_id w exempt, HasToken-passes app req user_id w exempt)

retry_with_db :
    (app : App) (user_id : Text) (r : Outcome Response Text) (w : World)
    → (retry_with app user_id r w).1.db ≡ w.db
unfolding set_csrf remove_csrf
retry_with_db app user_id (ok token) w = refl
retry_with_db app user_id (err e) w = refl

csrf_retry_db : (app : App) (user_id : Text) (w : World) → (csrf_retry app user_id w).1.db ≡ w.db
csrf_retry_db app user_id w = let (r, w') = generate_csrf_token w in retry_with_db app user_id r w'

check_token_db :
    (app : App) (user_id sent : Text) (stored : CsrfEntry) (w : World)
    → (check_token app user_id sent stored w).1.db ≡ w.db
unfolding check_token
check_token_db app user_id sent stored w = ground (arith, csrf_retry_db app user_id w)

check_header_db :
    (app : App) (user_id sent : Text) (w : World) → (check_header app user_id sent w).1.db ≡ w.db
check_header_db app user_id sent w = elim (Option-cases (Csrf.get w.csrf user_id)) [
  | inl unknown ↦ rw (check_header_unknown app user_id sent w unknown) (csrf_retry_db app user_id w)
  | inr (stored, found) ↦
      rw (check_header_found app user_id sent stored w found)
        (check_token_db app user_id sent stored w)
]

-- The check does not touch the database.
pub require_csrf_db :
    (app : App) (req : Request) (user_id : Text) (w : World)
    → (require_csrf app req user_id w).1.db ≡ w.db
unfolding require_csrf
require_csrf_db app req user_id w = elim (Bool-cases (csrf_exempt req)) [
  | inl exempt ↦ rw (require_csrf, exempt) refl
  | inr guarded ↦ elim (Option-cases (header req (codes "x-csrf-token"))) [
    | inl missing ↦ rw (require_csrf, guarded, missing) refl
    | inr (sent, q) ↦ elim (Bool-cases (is_nil user_id)) [
      | inl nobody ↦ rw (require_csrf, guarded, q, nobody) refl
      | inr known ↦ rw (require_csrf, guarded, q, known) (check_header_db app user_id sent w)
    ]
  ]
]

-- the origin is in the list
abbrev pub listed : Text → List Text → Bool
listed o origins = some_passes (λ allowed. allowed == o) origins

find_origin-listed :
    (candidate : Text) (origins : List Text) (o : Text)
    → find_origin candidate origins ≡ some o
    → listed o origins ≡ true
find_origin-listed candidate [] o q = cc
find_origin-listed candidate (allowed ∷ rest) o q =
    ground (arith, find_origin-listed candidate rest o, ==_refl allowed)

-- Where a redirect may lead: the configured frontend; without one, an origin of the allow-list, or
-- else the server's own port on localhost.
abbrev pub SafeOrigin : App → Text → Type 0
SafeOrigin app origin =
    (app.frontend_url ≡ some origin)
    ⊎ (listed origin app.cors_origins ≡ true)
    ⊎ (origin ≡ codes "http://localhost:" ++ decimal app.port)

allowed_origin-listed :
    (origins : List Text) (request_origin : Option Text) (o : Text)
    → allowed_origin origins request_origin ≡ some o
    → listed o origins ≡ true
unfolding allowed_origin
allowed_origin-listed origins none o q = cc
allowed_origin-listed origins (some r) o q = elim (Bool-cases (is_nil (trim r))) [
  | inl blank ↦ absurd (ground arith)
  | inr sent ↦ find_origin-listed (trim r) origins o (rw sent at q)
]

-- Whatever the Origin header of a request says, the redirect goes to the configured frontend, to
-- an origin of the allow-list, or to localhost.
pub redirect_origin-SafeOrigin :
    (app : App) (request_origin : Option Text) → SafeOrigin app (redirect_origin app request_origin)
unfolding redirect_origin
redirect_origin-SafeOrigin app request_origin = elim (Option-cases app.frontend_url) [
  | inr (url, q) ↦ inl (rw q refl)
  | inl q ↦ elim (Option-cases (allowed_origin app.cors_origins request_origin)) [
    | inl none_allowed ↦ inr (inr (rw (q, none_allowed) refl))
    | inr (o, found) ↦
        inr (inl (rw (q, found) (allowed_origin-listed app.cors_origins request_origin o found)))
  ]
]

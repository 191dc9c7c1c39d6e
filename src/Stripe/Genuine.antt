-- ===== src/Stripe/Genuine.antt =====
-- Which webhooks `verify_signature` and `construct_event` of backend/src/stripe.rs accept.
use tldr_tv.Prelude.{
  ◌≡◌, refl, ap, Bool, true, false, Option, none, some, List, [], ◌∷◌, ◌++◌, is_nil, inl, inr, ◌⊎◌,
  Bool-cases, if◌then◌else◌,
}
use tldr_tv.Prelude.Text.{Bytes, Text, utf8}
use tldr_tv.Prelude.Int.{ℤ, int_ltb}
use tldr_tv.Prelude.Exec.{Outcome, ok, err, ok_inj}
use tldr_tv.Json.{Json}
use tldr_tv.Json.Parser.{parse}
use tldr_tv.Json.Parser.Scan.{Stop}
use tldr_tv.Crypto.{ct_eq, hex_encode}
use tldr_tv.Crypto.Compare.{ct_eq_iff}
use tldr_tv.Crypto.Sha256.{hmac_sha256}
use tldr_tv.Stripe.{
  SignatureError, StripeError, parse_sig_header, expected_signature, parse_i64, saturating_sub,
  saturating_abs, any_match, compare_all, check_age, check_timestamp, verify_header,
  verify_signature, stop_text, parse_event, construct_event,
}

-- One of the candidates has the bytes of the expected signature.
pub data Signs (expected : Bytes) : List Text → Type 0 where
  here : (s : Text) (rest : List Text) → utf8 s ≡ expected → Signs expected (s ∷ rest)
  there : (s : Text) (rest : List Text) → Signs expected rest → Signs expected (s ∷ rest)

-- The secret is set, the header has a time stamp that is no further from the clock than the
-- tolerance, and one of its v1 entries signs the time stamp and the payload under the secret.
pub record Genuine (payload : Bytes) (header secret : Text) (tolerance now : ℤ) : Type 0 where
  pub secret_set : is_nil secret ≡ false
  pub ts : Text
  pub ts_num : ℤ
  pub stamped : (parse_sig_header header).timestamp ≡ some ts
  pub numeric : parse_i64 ts ≡ some ts_num
  pub near : int_ltb tolerance (saturating_abs (saturating_sub now ts_num)) ≡ false
  pub signs :
      Signs
        (utf8 (hex_encode (hmac_sha256 (utf8 secret) (utf8 ts ++ b'.' ∷ payload))))
        (parse_sig_header header).v1

any_match-Signs :
    (matched : Bool) (expected : Bytes) (candidates : List Text)
    → any_match matched expected candidates ≡ true
    → (matched ≡ true) ⊎ Signs expected candidates
any_match-Signs matched expected [] h = inl h
any_match-Signs matched expected (s ∷ rest) h = elim (Bool-cases (ct_eq (utf8 s) expected)) [
  | inl e ↦ inr (Signs.here s rest ((ct_eq_iff (utf8 s) expected).0 e))
  | inr e ↦ elim (any_match-Signs matched expected rest (rw e at h)) [
    | inl m ↦ inl m
    | inr found ↦ inr (Signs.there s rest found)
  ]
]

compare_all-Signs :
    (expected : Text) (candidates : List Text)
    → compare_all expected candidates ≡ ok tt
    → Signs (utf8 expected) candidates
compare_all-Signs expected candidates h =
    elim (any_match-Signs false (utf8 expected) candidates (passes _ h)) [
      | inl e ↦ cc
      | inr found ↦ found
    ]
  where
    passes :
        (b : Bool)
        → (if b then ok tt else err SignatureError.no_matching_signature) ≡ ok tt
        → b ≡ true
    passes true q = refl
    passes false q = cc

-- a guard that was passed
guarded :
    (b : Bool) (e : SignatureError) (r : Outcome SignatureError (Unit {0}))
    → (if b then err e else r) ≡ ok tt
    → (b ≡ false) × (r ≡ ok tt)
guarded true e r h = cc
guarded false e r h = (refl, h)

present :
    {A : Type 0} (o : Option A) (e : SignatureError) (f : A → Outcome SignatureError (Unit {0}))
    → (elim o [ none ↦ err e | some a ↦ f a ]) ≡ ok tt
    → (a : A) × (o ≡ some a) × (f a ≡ ok tt)
present none e f h = cc
present (some a) e f h = (a, refl, h)

-- A signature is accepted only if the secret is set, the time stamp of the header is within the
-- tolerance of the clock, and one of the header's v1 entries is the HMAC text of time stamp and
-- payload under the secret.
pub verify_signature-Genuine :
    (payload : Bytes) (header secret : Text) (tolerance now : ℤ)
    → verify_signature payload header secret tolerance now ≡ ok tt
    → Genuine payload header secret tolerance now
unfolding verify_signature
verify_signature-Genuine payload header secret tolerance now h =
    let parsed = parse_sig_header header in
    let (secret_set, h1) =
      guarded (is_nil secret) SignatureError.empty_secret
        (verify_header payload secret tolerance now parsed) h in
    let stamp = λ (ts : Text).
      if is_nil ts
      then err SignatureError.missing_timestamp
      else check_timestamp payload secret tolerance now parsed.v1 ts in
    let (some_v1, h2) =
      guarded (is_nil parsed.v1) SignatureError.no_signatures
        (elim parsed.timestamp [ none ↦ err SignatureError.missing_timestamp | some ts ↦ stamp ts ])
        h1 in
    let (ts, stamped, h3) = present parsed.timestamp SignatureError.missing_timestamp stamp h2 in
    let (some_ts, h4) =
      guarded (is_nil ts) SignatureError.missing_timestamp
        (check_timestamp payload secret tolerance now parsed.v1 ts) h3 in
    let expected = expected_signature secret ts payload in
    let in_time =
      λ (n : ℤ). check_age (saturating_sub now n) tolerance (compare_all expected parsed.v1) in
    let (n, numeric, h5) = present (parse_i64 ts) SignatureError.invalid_timestamp in_time h4 in
    let age = saturating_sub now n in
    let (near, h6) =
      guarded (int_ltb tolerance (saturating_abs age))
        (SignatureError.timestamp_outside_tolerance age tolerance) (compare_all expected parsed.v1)
        h5 in
    record {
      secret_set = secret_set;
      ts = ts;
      ts_num = n;
      stamped = stamped;
      numeric = numeric;
      near = near;
      signs = compare_all-Signs expected parsed.v1 h6;
    }

verified_event :
    (r : Outcome SignatureError (Unit {0})) (payload : Bytes) (v : Json)
    → (elim r [ err e ↦ err (StripeError.signature e) | ok done ↦ parse_event payload ]) ≡ ok v
    → (r ≡ ok tt) × (parse payload ≡ ok v)
verified_event (err e) payload v h = cc
verified_event (ok tt) payload v h = (refl, parsed (parse payload) h)
  where
    parsed :
        (r : Outcome Stop Json)
        → (elim r [ err e ↦ err (StripeError.unparsed (stop_text e)) | ok w ↦ ok w ]) ≡ ok v
        → r ≡ ok v
    parsed (err e) q = cc
    parsed (ok w) q = ap ok (ok_inj (ok w) w v refl q)

-- An event is taken only from a payload whose signature is genuine, and it is that payload, parsed.
pub construct_event-Genuine :
    (now : ℤ) (payload : Bytes) (header secret : Text) (tolerance : ℤ) (v : Json)
    → construct_event now payload header secret tolerance ≡ ok v
    → Genuine payload header secret tolerance now × (parse payload ≡ ok v)
unfolding construct_event
construct_event-Genuine now payload header secret tolerance v h =
    let r = verify_signature payload header secret tolerance now in
    let (verified, parsed) = verified_event r payload v h in
    (verify_signature-Genuine payload header secret tolerance now verified, parsed)

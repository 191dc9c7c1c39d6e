-- ===== src/Http/Wire/Target.antt =====
-- Which paths `parse_target` of backend/src/http.rs lets through.
use tldr_tv.Prelude.{
  or_false, not-false, Eq, ==_iff, ◌≡◌, ◌≢◌, ◌∙◌, refl, sym, ap, subst, Bool, true, false, not,
  List, [], ◌∷◌, ◌==◌, nat_eq, list_eq, some_passes, All, if◌then◌else◌,
}
use tldr_tv.Prelude.Text.{Text, codes, split_onto, text_starts_with}
use tldr_tv.Prelude.Exec.{Outcome, ok, err, ok_inj}
use tldr_tv.Http.Percent.{percent_decode}
use tldr_tv.Http.Wire.{
  HttpError, bad_request, climbs, decoded_target, origin_form, parse_target, path_and_query,
  without_authority,
}

-- No NUL and no segment ".." is in the path.
pub record Contained (path : Text) : Type 0 where
  pub printable : All (λ c. c ≢ 0) path
  pub below : All (λ seg. seg ≢ codes "..") (split_onto b'/' [] path)

none_pass :
    {A : Type 0} ⦃e : Eq A⦄ (x : A) (xs : List A)
    → some_passes (λ y. y == x) xs ≡ false
    → All (λ y. y ≢ x) xs
none_pass x [] h = tt
none_pass x (y ∷ ys) h =
    let (other, rest) = or_false (y == x) (some_passes (λ z. z == x) ys) h in
    (λ same. cc ((==_iff y x).1 same, other), none_pass x ys rest)

climbs-Contained : (path : Text) → climbs path ≡ false → Contained path
climbs-Contained path h =
    let (zeros, dots) =
      or_false (some_passes (λ c. c == 0) path)
        (some_passes (λ seg. seg == codes "..") (split_onto b'/' [] path)) h in
    record {
      printable = none_pass 0 path zeros;
      below = none_pass (codes "..") (split_onto b'/' [] path) dots;
    }

guarded :
    {A : Type 0} (b : Bool) (e : HttpError) (r : Outcome HttpError A) (v : A)
    → (if b then err e else r) ≡ ok v
    → (b ≡ false) × (r ≡ ok v)
guarded true e r v h = cc
guarded false e r v h = (refl, h)

otherwise : {A : Type 0} (b : Bool) (t e v : A) → b ≡ false → (if b then t else e) ≡ v → e ≡ v
otherwise true t e v h q = cc
otherwise false t e v h q = q

origin_form-Contained :
    (raw_path q raw path query : Text)
    → origin_form raw_path q ≡ ok (raw, path, query)
    → (text_starts_with (codes "/") raw ≡ true) × (path ≡ percent_decode raw false) × Contained path
origin_form-Contained raw_path q raw path query h =
    let decoded = percent_decode raw_path false in
    let (slash, h1) =
      guarded (not (text_starts_with (codes "/") raw_path)) bad_request
        (decoded_target raw_path q decoded) (raw, path, query) h in
    let (stays, h2) =
      guarded (climbs decoded) bad_request (ok (raw_path, decoded, q)) (raw, path, query) h1 in
    let same =
      ok_inj (ok (raw_path, decoded, q)) (raw_path, decoded, q) (raw, path, query) refl h2 in
    let raw_same : raw_path ≡ raw = ap (λ t. t.0) same in
    let path_same : decoded ≡ path = ap (λ t. t.1) same in
    (
      subst (λ t. text_starts_with (codes "/") t ≡ true) raw_same
          (not-false (text_starts_with (codes "/") raw_path) slash),
      sym path_same ∙ ap (λ t. percent_decode t false) raw_same,
      subst Contained path_same (climbs-Contained decoded stays),
    )

-- A target other than * is accepted only if its path begins with a slash and, percent-decoded, has
-- neither a NUL nor a segment "..", however these are encoded; that decoded path is the answer.
pub parse_target-Contained :
    (target raw path query : Text)
    → (target == codes "*") ≡ false
    → parse_target target ≡ ok (raw, path, query)
    → (text_starts_with (codes "/") raw ≡ true) × (path ≡ percent_decode raw false) × Contained path
unfolding parse_target
parse_target-Contained target raw path query plain h =
    let parts = path_and_query (without_authority target) in
    origin_form-Contained parts.0 parts.1 raw path query (
      otherwise (target == codes "*") (ok (codes "*", codes "*", [])) (origin_form parts.0 parts.1)
        (ok (raw, path, query)) plain h)

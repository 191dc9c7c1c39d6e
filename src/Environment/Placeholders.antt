-- ===== src/Environment/Placeholders.antt =====
-- What `resolve_env_placeholders` of backend/src/config.rs makes of a template.

use tldr_tv.Prelude.{
  ℕ, zero, suc, ◌≤◌, ◌≡◌, ◌∙◌, refl, ap, true, Option, none, some, List, [], ◌∷◌, ◌++◌, arith,
  nat_beq, length, length-append, All,
}
use tldr_tv.Prelude.Text.{Text, split_once}
use tldr_tv.Prelude.Splits.{IsNot}
use tldr_tv.Environment.{Env, placeholder, expanded, resolve, resolve_env_placeholders}

-- A template is verbatim text and placeholders.
pub data Piece : Type 0 where
  verbatim placeholder_of : Text → Piece

abbrev pub IsPiece : Piece → Type 0
IsPiece (verbatim s) = All (IsNot b'$') s
IsPiece (placeholder_of name) = All (IsNot b'}') name

abbrev pub template : List Piece → Text
template [] = []
template (verbatim s ∷ ps) = s ++ template ps
template (placeholder_of name ∷ ps) = b'$' ∷ b'{' ∷ (name ++ b'}' ∷ template ps)

abbrev pub filled : Env → List Piece → Text
filled env [] = []
filled env (verbatim s ∷ ps) = s ++ filled env ps
filled env (placeholder_of name ∷ ps) = expanded env name ++ filled env ps

split_once-part :
    (sep : ℕ) (a b : Text) → All (IsNot sep) a → split_once sep (a ++ sep ∷ b) ≡ some (a, b)
split_once-part sep [] b h = let same : nat_beq sep sep ≡ true = ground arith in rw same refl
split_once-part sep (c ∷ a) b (other, h) = rw (other, split_once-part sep a b h) refl

-- a round of the loop, for what `placeholder` answers
abbrev one_round : ℕ → Env → ℕ → Text → Option (Text × Text) → Text
one_round fuel env c s o = elim o [
  | none ↦ c ∷ resolve fuel env s
  | some (name, rest) ↦ expanded env name ++ resolve fuel env rest
]

none_left : (n : ℕ) → suc n ≤ 0 → ⊥
none_left n h = omega arith

placeholder-other : (c : ℕ) (s : Text) → IsNot b'$' c → placeholder (c ∷ s) ≡ none
placeholder-other c [] h = refl
placeholder-other c (d ∷ s) h = rw h refl

resolve-verbatim :
    (fuel : ℕ) (env : Env) (s rest out : Text)
    → All (IsNot b'$') s
    → length (s ++ rest) ≤ fuel
    → ((f : ℕ) → length rest ≤ f → resolve f env rest ≡ out)
    → resolve fuel env (s ++ rest) ≡ s ++ out
unfolding resolve
resolve-verbatim fuel env [] rest out h enough rest_out = rest_out fuel enough
resolve-verbatim zero env (c ∷ s) rest out h enough rest_out =
    elim (none_left (length (s ++ rest)) enough) [ ]
resolve-verbatim (suc fuel) env (c ∷ s) rest out (other, h) enough rest_out =
    ap (one_round fuel env c (s ++ rest)) (placeholder-other c (s ++ rest) other)
    ∙ (ap (λ t. c ∷ t) (resolve-verbatim fuel env s rest out h (omega arith) rest_out))

resolve-template :
    (fuel : ℕ) (env : Env) (ps : List Piece)
    → All IsPiece ps
    → length (template ps) ≤ fuel
    → resolve fuel env (template ps) ≡ filled env ps
unfolding resolve
resolve-template zero env [] h enough = refl
resolve-template (suc fuel) env [] h enough = refl
resolve-template fuel env (verbatim s ∷ ps) (plain, h) enough =
    resolve-verbatim fuel env s (template ps) (filled env ps) plain enough
      (λ f left. resolve-template f env ps h left)
resolve-template zero env (placeholder_of name ∷ ps) h enough =
    elim (none_left (suc (length (name ++ b'}' ∷ template ps))) enough) [ ]
resolve-template (suc fuel) env (placeholder_of name ∷ ps) (closed_off, h) enough =
    let n = length-append name (b'}' ∷ template ps) in
    ap (one_round fuel env b'$' (b'{' ∷ (name ++ b'}' ∷ template ps)))
      (split_once-part b'}' name (template ps) closed_off)
    ∙ (ap (λ t. expanded env name ++ t) (resolve-template fuel env ps h (omega arith)))

-- In a template of text without dollar signs and of placeholders whose names have no closing brace,
-- each placeholder becomes the value of its variable, or stays as it is where none is set, and the
-- text stays as it is.
pub resolve_env_placeholders-template :
    (env : Env) (ps : List Piece)
    → All IsPiece ps
    → resolve_env_placeholders env (template ps) ≡ filled env ps
unfolding resolve_env_placeholders
resolve_env_placeholders-template env ps h =
    resolve-template (length (template ps)) env ps h (omega arith)

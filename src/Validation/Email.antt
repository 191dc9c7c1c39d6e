-- ===== src/Validation/Email.antt =====
-- `validate_email` of backend/src/validation.rs.
use mathlib.Core.Option
use tldr_tv.Prelude.{
  ℕ, ◌≤◌, ◌≡◌, ◌⊎◌, ◌||◌, refl, ap, Bool, true, not, List, All, leb→le, take, get_elem?,
  some_passes, Option, none, some, [], ◌∷◌, ◌++◌, arith, if◌then◌else◌, Bool-cases, conjuncts,
  Option-cases, inl, inr, every, nat_beq, nat_beq_iff, length,
}
use tldr_tv.Prelude.Text.{
  Bytes, Text, codes, utf8, rsplit_once, split_onto, is_ascii_alphanumeric, is_ascii_alphabetic,
}
use tldr_tv.Validation.{
  validate_email, valid_local_part, valid_domain_label, valid_tld, valid_labels, utf16_len, edged,
  interior,
}

-- no character is the separator
abbrev pub free_of : ℕ → Text → Bool
free_of sep s = every (λ c. not (nat_beq c sep)) s

-- The parts of a split at the last separator, if there is one.
abbrev pub Splits : ℕ → Text → Option (Text × Text) → Type 0
Splits sep s none = free_of sep s ≡ true
Splits sep s (some (a, b)) = (s ≡ a ++ sep ∷ b) × (free_of sep b ≡ true)

Splits-cons :
    (sep c : ℕ) (s : Text) (r : Option (Text × Text))
    → Splits sep s r
    → Splits sep (c ∷ s) (elim r [
      | some (a, b) ↦ some (c ∷ a, b)
      | none ↦ if nat_beq c sep then some ([], s) else none
    ])
Splits-cons sep c s (some (a, b)) (whole, last) = (ap (λ t. c ∷ t) whole, last)
Splits-cons sep c s none h = elim (Bool-cases (nat_beq c sep)) [
  | inl here ↦ rw here (ap (λ x. x ∷ s) ((nat_beq_iff c sep).0 here), h)
  | inr other ↦ rw other (ground arith)
]

rsplit_once-Splits : (sep : ℕ) (s : Text) → Splits sep s (rsplit_once sep s)
rsplit_once-Splits sep [] = refl
rsplit_once-Splits sep (c ∷ s) = Splits-cons sep c s (rsplit_once sep s) (rsplit_once-Splits sep s)

abbrev IsAlphanumeric : ℕ → Type 0
IsAlphanumeric c = is_ascii_alphanumeric c ≡ true

-- the first and the last of the characters, if there are any
abbrev First : (ℕ → Type 0) → Bytes → Type 0
First P [] = ⊥
First P (c ∷ s) = P c

abbrev Last : (ℕ → Type 0) → Bytes → Type 0
Last P [] = ⊥
Last P (c ∷ []) = P c
Last P (c ∷ d ∷ s) = Last P (d ∷ s)

-- Letters and digits at both edges, and P everywhere.
abbrev pub IsEdged : (ℕ → Type 0) → Bytes → Type 0
IsEdged P s = First IsAlphanumeric s × Last IsAlphanumeric s × All P s

abbrev pub OneOf : ℕ → Text → Type 0
OneOf c [] = ⊥
OneOf c (d ∷ s) = (c ≡ d) ⊎ OneOf c s

abbrev pub IsLocalChar : ℕ → Type 0
IsLocalChar c = IsAlphanumeric c ⊎ OneOf c (codes ".!#$%&'*+/=?^_`{|}~-")

abbrev pub IsLabelChar : ℕ → Type 0
IsLabelChar c = IsAlphanumeric c ⊎ (c ≡ b'-')

abbrev pub IsTld : Text → Type 0
IsTld s =
    (2 ≤ length (utf8 s))
    × (length (utf8 s) ≤ 63)
    × All (λ c. is_ascii_alphabetic c ≡ true) (utf8 s)

-- Labels, of which the last is a top-level domain.
abbrev AreLabels : List Text → Type 0
AreLabels [] = ⊥
AreLabels (tld ∷ []) = IsTld tld
AreLabels (label ∷ l ∷ ls) = IsEdged IsLabelChar (utf8 label) × AreLabels (l ∷ ls)

-- An address: a local part, the last @ and a domain of at least two labels, in at most 254 UTF-16 code
-- units.
pub record Address (email : Text) : Type 0 where
  pub local : Text
  pub domain : Text
  pub short : utf16_len email ≤ 254
  pub whole : email ≡ local ++ b'@' ∷ domain
  pub last_at : free_of b'@' domain ≡ true
  pub local_ok : IsEdged IsLocalChar (utf8 local)
  pub dotted : 2 ≤ length (split_onto b'.' [] domain)
  pub labels_ok : AreLabels (split_onto b'.' [] domain)

every-All :
    (p : ℕ → Bool) (P : ℕ → Type 0) (s : Bytes)
    → ((c : ℕ) → p c ≡ true → P c)
    → every p s ≡ true
    → All P s
every-All p P [] imply h = tt
every-All p P (c ∷ s) imply h =
    let (now, later) = conjuncts (p c) (every p s) h in (imply c now, every-All p P s imply later)

-- behind the first character: the last one, and those before it
rest_edged :
    (ok : ℕ → Bool) (P : ℕ → Type 0) (c : ℕ) (s : Bytes)
    → ((x : ℕ) → ok x ≡ true → P x)
    → ((x : ℕ) → IsAlphanumeric x → P x)
    → is_ascii_alphanumeric (Option.get_or (get_elem? (c ∷ s) (length s)) 0) ≡ true
    → every ok (take (length s) (c ∷ s)) ≡ true
    → Last IsAlphanumeric (c ∷ s) × All P (c ∷ s)
rest_edged ok P c [] imply alnum last inner = (last, (alnum c last, tt))
rest_edged ok P c (d ∷ s) imply alnum last inner =
    let (now, later) = conjuncts (ok c) (every ok (take (length s) (d ∷ s))) inner in
    let (edge, all) = rest_edged ok P d s imply alnum last later in (edge, (imply c now, all))

edged-IsEdged :
    (ok : ℕ → Bool) (P : ℕ → Type 0) (s : Bytes)
    → ((x : ℕ) → ok x ≡ true → P x)
    → ((x : ℕ) → IsAlphanumeric x → P x)
    → edged ok s ≡ true
    → IsEdged P s
edged-IsEdged ok P [] imply alnum h = absurd (cc)
edged-IsEdged ok P (c ∷ []) imply alnum h = (h, h, (alnum c h, tt))
edged-IsEdged ok P (c ∷ d ∷ s) imply alnum h =
    let (front, inner) = conjuncts _ _ h in
    let (first, last) = conjuncts _ _ front in
    let (edge, all) = rest_edged ok P d s imply alnum last inner in
    (first, edge, (alnum c first, all))

some_passes-OneOf : (c : ℕ) (s : Text) → some_passes (nat_beq c) s ≡ true → OneOf c s
some_passes-OneOf c [] h = absurd cc
some_passes-OneOf c (d ∷ s) h = elim (Bool-cases (nat_beq c d)) [
  | inl same ↦ inl ((nat_beq_iff c d).0 same)
  | inr other ↦ inr (some_passes-OneOf c s (rw other at h))
]

interior-IsLocalChar : (x : ℕ) → (is_ascii_alphanumeric x || interior x) ≡ true → IsLocalChar x
interior-IsLocalChar x h = elim (Bool-cases (is_ascii_alphanumeric x)) [
  | inl letter ↦ inl letter
  | inr other ↦ inr (some_passes-OneOf x (codes ".!#$%&'*+/=?^_`{|}~-") (rw other at h))
]

hyphen-IsLabelChar : (x : ℕ) → (is_ascii_alphanumeric x || nat_beq x b'-') ≡ true → IsLabelChar x
hyphen-IsLabelChar x h = elim (Bool-cases (is_ascii_alphanumeric x)) [
  | inl letter ↦ inl letter
  | inr other ↦ inr ((nat_beq_iff x b'-').0 (rw other at h))
]

valid_local_part-IsEdged :
    (local : Text) → valid_local_part local ≡ true → IsEdged IsLocalChar (utf8 local)
unfolding valid_local_part
valid_local_part-IsEdged local h =
    edged-IsEdged _ IsLocalChar (utf8 local) interior-IsLocalChar (λ x letter. inl letter) h

valid_domain_label-IsEdged :
    (label : Text) → valid_domain_label label ≡ true → IsEdged IsLabelChar (utf8 label)
unfolding valid_domain_label
valid_domain_label-IsEdged label h =
    edged-IsEdged _ IsLabelChar (utf8 label) hyphen-IsLabelChar (λ x letter. inl letter) h

valid_tld-IsTld : (s : Text) → valid_tld s ≡ true → IsTld s
valid_tld-IsTld s h =
    let (sizes, letters) = conjuncts _ _ h in
    let (least, most) = conjuncts _ _ sizes in
    (
      leb→le 2 (length (utf8 s)) least,
      leb→le (length (utf8 s)) 63 most,
      every-All is_ascii_alphabetic _ (utf8 s) (λ c letter. letter) letters,
    )

valid_labels-AreLabels : (ls : List Text) → valid_labels ls ≡ true → AreLabels ls
valid_labels-AreLabels [] h = absurd cc
valid_labels-AreLabels (tld ∷ []) h = valid_tld-IsTld tld h
valid_labels-AreLabels (label ∷ l ∷ ls) h =
    let (now, later) = conjuncts (valid_domain_label label) (valid_labels (l ∷ ls)) h in
    (valid_domain_label-IsEdged label now, valid_labels-AreLabels (l ∷ ls) later)

-- An email that the rule accepts has at most 254 UTF-16 code units, and is cut at its last @ into a
-- local part, which begins and ends with a letter or a digit and has only letters, digits and
-- .!#$%&'*+/=?^_`{|}~- in it, and a domain of at least two labels, of which the last has 2 to 63
-- letters, and each other begins and ends with a letter or a digit and has only letters, digits and
-- hyphens in it.
pub validate_email-Address : (email : Text) → validate_email email ≡ true → Address email
unfolding validate_email
validate_email-Address email q = elim (Option-cases (rsplit_once b'@' email)) [
  | inl no_at ↦ absurd (ground arith)
  | inr ((local, domain), found) ↦
      let (whole, last) = rw found at (rsplit_once-Splits b'@' email) in
      record {
        local = local;
        domain = domain;
        short = ground arith;
        whole = whole;
        last_at = last;
        local_ok = valid_local_part-IsEdged local (ground arith);
        dotted = ground arith;
        labels_ok = valid_labels-AreLabels (split_onto b'.' [] domain) (ground arith);
      }
]

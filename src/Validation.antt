-- ===== src/Validation.antt =====
-- backend/src/validation.rs: HTML escaping and the rules for the fields of an account.
pub mod Escaping
pub mod Email
mod Examples
use mathlib.Core.Option
use tldr_tv.Prelude.{
  ℕ, ◌+◌, ◌-◌, ◌&&◌, ◌||◌, Bool, true, false, not, Option, none, some, List, [], ◌∷◌, ◌++◌, reverse,
  suc, leb, ltb, nat_beq, is_nil, every, some_passes, length, get_elem?, take, if◌then◌else◌,
}
use tldr_tv.Prelude.Text.{
  Bytes, Text, codes, utf8, trim, is_ascii_alphanumeric, is_ascii_alphabetic, split_onto,
  rsplit_once,
}

-- one character of `escape_html`
abbrev pub escape_char : ℕ → Text
escape_char c =
    if nat_beq c b'&'
    then codes "&amp;"
    else if nat_beq c b'<'
    then codes "&lt;"
    else if nat_beq c b'>'
    then codes "&gt;"
    else if nat_beq c b'"'
    then codes "&quot;"
    else if nat_beq c b'\''
    then codes "&#x27;"
    else if nat_beq c b'/'
    then codes "&#x2F;"
    else c ∷ []

unfoldable pub escape_html : Text → Text
escape_html [] = []
escape_html (c ∷ s) = escape_char c ++ escape_html s

-- `char::len_utf16` summed up
unfoldable pub utf16_len : Text → ℕ
utf16_len [] = 0
utf16_len (c ∷ s) = (if ltb c 0x10000 then 1 else 2) + utf16_len s

-- `INTERIOR.contains(c)`
abbrev pub interior : ℕ → Bool
interior c = some_passes (nat_beq c) (codes ".!#$%&'*+/=?^_`{|}~-")

-- The bytes of a local part or a label: alphanumeric at both edges, `ok` between them.
abbrev pub edged : (ℕ → Bool) → Bytes → Bool
edged ok [] = false
edged ok (b ∷ []) = is_ascii_alphanumeric b
edged ok (b ∷ c ∷ bs) =
    is_ascii_alphanumeric b
    && is_ascii_alphanumeric (Option.get_or (get_elem? (b ∷ c ∷ bs) (suc (length bs))) 0)
    && every ok (take (length bs) (c ∷ bs))

unfoldable pub valid_local_part : Text → Bool
valid_local_part local = edged (λ c. is_ascii_alphanumeric c || interior c) (utf8 local)

unfoldable pub valid_domain_label : Text → Bool
valid_domain_label label = edged (λ c. is_ascii_alphanumeric c || nat_beq c b'-') (utf8 label)

-- the last of the labels
abbrev pub valid_tld : Text → Bool
valid_tld tld =
    leb 2 (length (utf8 tld)) && leb (length (utf8 tld)) 63 && every is_ascii_alphabetic (utf8 tld)

-- the loop over `head` and the test of `tld`
abbrev pub valid_labels : List Text → Bool
valid_labels [] = false
valid_labels (tld ∷ []) = valid_tld tld
valid_labels (label ∷ l ∷ ls) = valid_domain_label label && valid_labels (l ∷ ls)

unfoldable pub validate_email : Text → Bool
unfolding utf16_len
validate_email email =
    if is_nil email || ltb 254 (utf16_len email) then false else elim (rsplit_once b'@' email) [
      | none ↦ false
      | some (local, domain) ↦
          if not (valid_local_part local) || is_nil domain
          then false
          else (let labels = split_onto b'.' [] domain in
              if ltb (length labels) 2 then false else valid_labels labels)
    ]

unfoldable pub validate_password : Text → Bool
unfolding utf16_len
validate_password password =
    let len = utf16_len password in not (is_nil password) && leb 6 len && leb len 72

unfoldable pub validate_name : Text → Bool
unfolding utf16_len
validate_name name = not (is_nil name) && not (is_nil (trim name)) && leb (utf16_len name) 100

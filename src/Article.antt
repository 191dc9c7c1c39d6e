-- ===== src/Article.antt =====
-- The test of backend/src/article.rs that a URL is public before it is fetched.
pub mod Authority
mod Examples
use tldr_tv.Prelude.{
  ℕ, ◌+◌, ◌-◌, ◌*◌, Bool, true, false, not, ◌&&◌, ◌||◌, Option, none, some, List, [], ◌∷◌, reverse,
  map, if◌then◌else◌, ◌==◌, list_eq, nat_eq, nat_beq, leb, ltb, is_nil, every, length, drop,
}
use tldr_tv.Prelude.Text.{
  Text, codes, utf8, trim, split_onto, rsplit_once, text_starts_with, within, is_ascii_digit,
  to_ascii_lowercase,
}
use tldr_tv.Prelude.Exec.{Outcome, ok, err}

pub data UrlError : Type 0 where
  invalid blocked : UrlError

-- what stands before the first character that passes the test
abbrev pub until : (ℕ → Bool) → Text → Text
until stop [] = []
until stop (c ∷ s) = let rest = until stop s in if stop c then [] else c ∷ rest

abbrev pub strip_prefix : Text → Text → Option Text
strip_prefix prefix s = if text_starts_with prefix s then some (drop (length prefix) s) else none

abbrev pub ends_with : Text → Text → Bool
ends_with suffix s = text_starts_with (reverse suffix) (reverse s)

abbrev pub after_user : Text → Text
after_user after_scheme = elim (rsplit_once b'@' after_scheme) [
  | none ↦ after_scheme
  | some (user, host) ↦ host
]

abbrev pub ends_authority : ℕ → Bool
ends_authority c = nat_beq c b'/' || nat_beq c b'?' || nat_beq c b'#'

-- `host_port`, without its brackets or its port
abbrev pub without_port : Text → Text
without_port [] = []
without_port (c ∷ s) =
    if nat_beq c b'[' then until (λ d. nat_beq d b']') s else until (λ d. nat_beq d b':') (c ∷ s)

-- The source answers `Some` on every path.
unfoldable pub host_of : Text → Text
host_of after_scheme = without_port (until ends_authority (after_user after_scheme))

abbrev pub is_bracket : ℕ → Bool
is_bracket c = nat_beq c b'[' || nat_beq c b']'

abbrev pub skip_brackets : Text → Text
skip_brackets [] = []
skip_brackets (c ∷ s) = let rest = skip_brackets s in if is_bracket c then rest else c ∷ s

-- `trim_matches` of brackets
abbrev pub trim_brackets : Text → Text
trim_brackets s = reverse (skip_brackets (reverse (skip_brackets s)))

abbrev pub number_onto : ℕ → Text → ℕ
number_onto n [] = n
number_onto n (c ∷ s) = number_onto (n * 10 + (c - b'0')) s

-- one part of `parse_v4`, parsed as a `u8`
abbrev pub octet : Text → Option ℕ
octet part =
    let n = number_onto 0 part in
    if is_nil part || ltb 3 (length (utf8 part)) || not (every is_ascii_digit (utf8 part))
    then none
    else if leb n 255
    then some n
    else none

pub record Ipv4 : Type 0 where
  pub a : ℕ
  pub b : ℕ
  pub c : ℕ
  pub d : ℕ

abbrev pub quad : Option ℕ → Option ℕ → Option ℕ → Option ℕ → Option Ipv4
quad (some a) (some b) (some c) (some d) = some (record { a = a; b = b; c = c; d = d })
quad _ _ _ _ = none

abbrev pub quad_of : List Text → Option Ipv4
quad_of (p ∷ q ∷ r ∷ s ∷ []) = quad (octet p) (octet q) (octet r) (octet s)
quad_of _ = none

unfoldable pub parse_v4 : Text → Option Ipv4
parse_v4 host = quad_of (split_onto b'.' [] host)

abbrev pub is_private_v4 : Ipv4 → Bool
is_private_v4 ip =
    nat_beq ip.a 10
    || nat_beq ip.a 127
    || nat_beq ip.a 0
    || (nat_beq ip.a 169 && nat_beq ip.b 254)
    || (nat_beq ip.a 172 && within 16 31 ip.b)
    || (nat_beq ip.a 192 && nat_beq ip.b 168)

unfoldable pub is_blocked_host : Text → Bool
unfolding parse_v4
is_blocked_host raw =
    let host = map to_ascii_lowercase (trim_brackets raw) in
    host == codes "localhost"
    || ends_with (codes ".localhost") host
    || ends_with (codes ".local") host
    || host == codes "metadata.google.internal"
    || host == codes "0.0.0.0"
    || host == codes "::1"
    || elim (parse_v4 host) [ none ↦ false | some ip ↦ is_private_v4 ip ]

-- what follows the scheme
unfoldable pub judge : Text → Text → Outcome UrlError Text
unfolding host_of is_blocked_host
judge trimmed rest =
    let host = host_of rest in
    if is_nil rest || text_starts_with (codes "/") rest
    then err UrlError.invalid
    else if is_nil host || is_blocked_host host
    then err UrlError.blocked
    else ok trimmed

abbrev pub after_scheme : Text → Option Text
after_scheme s = elim (strip_prefix (codes "https://") s) [
  | some rest ↦ some rest
  | none ↦ strip_prefix (codes "http://") s
]

unfoldable pub public_http_url : Text → Outcome UrlError Text
unfolding trim judge
public_http_url raw = elim (after_scheme (trim raw)) [
  | none ↦ err UrlError.invalid
  | some rest ↦ judge (trim raw) rest
]

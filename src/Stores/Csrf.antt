-- ===== src/Stores/Csrf.antt =====
-- `CsrfStore` of backend/src/stores.rs.
pub mod Laws
use tldr_tv.Prelude.{ℕ, ◌+◌, ◌-◌, ◌*◌, Bool, Option, [], leb, nat_beq, length, list_eq, nat_eq}
use tldr_tv.Prelude.Text.{Text}
use tldr_tv.HashMap
use tldr_tv.HashMap.{HashMap, lookup, retain}
use tldr_tv.Stores.Eviction.{evict_oldest_entries}

-- CSRF_TOKEN_EXPIRY_MS
abbrev pub token_expiry_ms : ℕ
token_expiry_ms = 24 * 60 * 60 * 1000

-- CSRF_MAX_ENTRIES
abbrev pub max_entries : ℕ
max_entries = 50_000

pub record CsrfEntry : Type 0 where
  pub token : Text
  pub timestamp : ℕ

abbrev pub CsrfStore : Type 0
CsrfStore = HashMap Text CsrfEntry

abbrev pub new : CsrfStore
new = []

unfoldable pub get : CsrfStore → Text → Option CsrfEntry
get store user_id = lookup user_id store

unfoldable pub set : CsrfStore → Text → Text → ℕ → CsrfStore
set store user_id token now_ms =
    HashMap.insert user_id (record { token = token; timestamp = now_ms }) store

unfoldable pub remove : CsrfStore → Text → CsrfStore
remove store user_id = HashMap.remove user_id store

pub len : CsrfStore → ℕ
len store = length store

pub is_empty : CsrfStore → Bool
unfolding len
is_empty store = nat_beq (len store) 0

-- `now_ms - e.timestamp <= CSRF_TOKEN_EXPIRY_MS`: a timestamp ahead of the clock is fresh too.
abbrev pub fresh : ℕ → CsrfEntry → Bool
fresh now_ms e = leb (now_ms - e.timestamp) token_expiry_ms

-- The store, and how many entries had expired.
pub cleanup : CsrfStore → ℕ → CsrfStore × ℕ
cleanup store now_ms =
    let live = retain (fresh now_ms) store in
    (evict_oldest_entries live max_entries (λ e. e.timestamp), length store - length live)

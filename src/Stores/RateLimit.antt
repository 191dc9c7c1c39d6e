-- ===== src/Stores/RateLimit.antt =====
-- `RateLimitStore` of backend/src/stores.rs: a sliding window of request times per address.
pub mod Window
use tldr_tv.Prelude.{
  ℕ, ◌+◌, ◌-◌, ◌*◌, ◌/◌, ◌&&◌, Bool, true, false, not, max, Option, none, some, List, [], ◌∷◌, ◌++◌,
  leb, ltb, length, keep, is_nil, get_elem?, list_eq, nat_eq, if◌then◌else◌,
}
use mathlib.Core.Option
use tldr_tv.Prelude.Text.{Text}
use tldr_tv.HashMap.{HashMap, lookup, insert, contains_key}
use tldr_tv.Stores.Eviction.{evict_oldest_entries}

-- AUTH_RATE_WINDOW_MS
abbrev pub window_ms : ℕ
window_ms = 15 * 60 * 1000

-- AUTH_RATE_LIMIT
abbrev pub limit : ℕ
limit = 20

-- AUTH_RATE_MAX_ENTRIES
abbrev pub max_entries : ℕ
max_entries = 50_000

pub record RateLimitStatus : Type 0 where
  pub limited : Bool
  pub retry_after_secs : ℕ

abbrev pub RateLimitStore : Type 0
RateLimitStore = HashMap Text (List ℕ)

abbrev pub new : RateLimitStore
new = []

-- `times.first().copied().unwrap_or(d)`
abbrev pub first_or : ℕ → List ℕ → ℕ
first_or d times = Option.get_or (get_elem? times 0) d

-- `t > window_start` with `window_start = now_ms - AUTH_RATE_WINDOW_MS`, which may be negative
abbrev pub in_window : ℕ → ℕ → Bool
in_window now_ms t = ltb now_ms (t + window_ms)

abbrev pub refused : ℕ → List ℕ → RateLimitStatus
refused now_ms times = record {
  limited = true;
  retry_after_secs = max ((first_or now_ms times + window_ms - now_ms + 999) / 1000) 1;
}

abbrev pub admitted : RateLimitStatus
admitted = record { limited = false; retry_after_secs = 0 }

-- the window of the address after its old times are dropped, and what to do with it
pub decide : List ℕ → ℕ → List ℕ × RateLimitStatus
decide times now_ms =
    if leb limit (length times)
    then (times, refused now_ms times)
    else (times ++ now_ms ∷ [], admitted)

abbrev pub bounded_store : RateLimitStore → Text → RateLimitStore
bounded_store store ip =
    let room = evict_oldest_entries store (max_entries - 1) (first_or 0) in
    let full = leb max_entries (length store) in
    if not (contains_key ip store) && full then room else store

unfoldable pub check_and_record : RateLimitStore → Text → ℕ → RateLimitStore × RateLimitStatus
unfolding decide
check_and_record store ip now_ms =
    let room = bounded_store store ip in
    let times = keep (in_window now_ms) (Option.get_or (lookup ip room) []) in
    let (times', status) = decide times now_ms in (insert ip times' room, status)

-- the `retain` of `cleanup`: it shortens each window and drops those that are empty then
pub expire : ℕ → RateLimitStore → RateLimitStore
expire now_ms [] = []
expire now_ms ((ip, times) ∷ store) =
    let left = keep (in_window now_ms) times in
    if is_nil left then expire now_ms store else (ip, left) ∷ expire now_ms store

pub cleanup : RateLimitStore → ℕ → RateLimitStore × ℕ
unfolding expire
cleanup store now_ms =
    let live = expire now_ms store in
    let kept = evict_oldest_entries live max_entries (first_or 0) in
    (if ltb max_entries (length live) then kept else live, length store - length live)

pub len : RateLimitStore → ℕ
len store = length store

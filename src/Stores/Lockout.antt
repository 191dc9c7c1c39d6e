-- ===== src/Stores/Lockout.antt =====
-- `LockoutStore` of backend/src/stores.rs: failed sign-ins per email and client address.
pub mod Bounds
pub mod Record
pub mod Streak
use tldr_tv.Prelude.{
  ℕ, ◌+◌, ◌-◌, ◌*◌, ◌/◌, ◌%◌, ◌^◌, Bool, true, false, Option, none, some, [], leb, ltb, nat_beq,
  length, list_eq, nat_eq, pair_eq, if◌then◌else◌,
}
use mathlib.Core.Option
use tldr_tv.Prelude.Text.{Text}
use tldr_tv.HashMap.{HashMap, lookup, insert, remove, retain, contains_key}
use tldr_tv.Stores.Eviction.{evict_oldest_entries}

-- LOCKOUT_THRESHOLD
abbrev pub threshold : ℕ
threshold = 5

-- LOCKOUT_DURATION_MS
abbrev pub duration_ms : ℕ
duration_ms = 15 * 60 * 1000

-- LOCKOUT_MAX_ENTRIES
abbrev pub max_entries : ℕ
max_entries = 50_000

-- LOCKOUT_ATTEMPT_WINDOW_MS
abbrev pub attempt_window_ms : ℕ
attempt_window_ms = 15 * 60 * 1000

pub record LoginAttempt : Type 0 where
  pub attempts : ℕ
  pub locked_until : Option ℕ
  pub last_attempt : ℕ

pub record LockStatus : Type 0 where
  pub locked : Bool
  pub remaining_time : ℕ

abbrev pub Key : Type 0
Key = Text × Text

abbrev pub LockoutStore : Type 0
LockoutStore = HashMap Key LoginAttempt

abbrev pub new : LockoutStore
new = []

abbrev pub key : Text → Text → Key
key email peer_ip = (email, peer_ip)

abbrev pub unlocked : LockStatus
unlocked = record { locked = false; remaining_time = 0 }

-- the match on `record.locked_until`
abbrev pub check_lock : LockoutStore → Key → ℕ → Option ℕ → LockoutStore × LockStatus
check_lock store k now_ms none = (store, unlocked)
check_lock store k now_ms (some until) =
    if ltb now_ms until
    then (store, record { locked = true; remaining_time = (until - now_ms + 999) / 1000 })
    else (remove k store, unlocked)

unfoldable pub is_locked : LockoutStore → Text → Text → ℕ → LockoutStore × LockStatus
is_locked store email peer_ip now_ms =
    let k = key email peer_ip in
    elim (lookup k store) [
      | none ↦ (store, unlocked)
      | some r ↦ check_lock store k now_ms r.locked_until
    ]

-- the ranking of `evict`
abbrev pub rank : LoginAttempt → ℕ
rank r = Option.get_or r.locked_until r.last_attempt

pub evict : LockoutStore → ℕ → LockoutStore
evict store max = evict_oldest_entries store max rank

pub make_room : LockoutStore → LockoutStore
unfolding evict
make_room store = if leb max_entries (length store) then evict store (max_entries - 1) else store

-- `map.entry(key).or_insert(..)`
abbrev pub entry_or_new : LockoutStore → Key → ℕ → LoginAttempt
entry_or_new store k now_ms =
    Option.get_or (lookup k store)
      (record { attempts = 0; locked_until = none; last_attempt = now_ms })

-- `now_ms - record.last_attempt > LOCKOUT_ATTEMPT_WINDOW_MS`
abbrev pub stale : LoginAttempt → ℕ → Bool
stale r now_ms = ltb attempt_window_ms (now_ms - r.last_attempt)

-- The record after one more failure. `attempts` is a `u32`.
pub count_failure : LoginAttempt → ℕ → LoginAttempt
count_failure r now_ms =
    let r' = if stale r now_ms then record r { attempts = 0; locked_until = none } else r in
    let attempts = (r'.attempts + 1) % 2 ^ 32 in
    record {
      attempts = attempts;
      locked_until =
          if leb threshold attempts then some (now_ms + duration_ms) else r'.locked_until;
      last_attempt = now_ms;
    }

unfoldable pub record_failure : LockoutStore → Text → Text → ℕ → LockoutStore × Bool
unfolding make_room count_failure
record_failure store email peer_ip now_ms =
    let k = key email peer_ip in
    let room = if contains_key k store then store else make_room store in
    let r = count_failure (entry_or_new room k now_ms) now_ms in
    (insert k r room, leb threshold r.attempts)

unfoldable pub clear : LockoutStore → Text → Text → LockoutStore
clear store email peer_ip = remove (key email peer_ip) store

pub len : LockoutStore → ℕ
len store = length store

pub is_empty : LockoutStore → Bool
unfolding len
is_empty store = nat_beq (len store) 0

-- what `cleanup` retains: live locks, and counters inside the attempt window
abbrev pub is_current : ℕ → LoginAttempt → Bool
is_current now_ms r = elim r.locked_until [
  | some until ↦ ltb now_ms until
  | none ↦ leb (now_ms - r.last_attempt) attempt_window_ms
]

pub cleanup : LockoutStore → ℕ → LockoutStore × ℕ
unfolding evict
cleanup store now_ms =
    let live = retain (is_current now_ms) store in
    (evict live max_entries, length store - length live)

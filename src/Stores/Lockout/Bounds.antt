-- ===== src/Stores/Lockout/Bounds.antt =====
-- The size of `LockoutStore` in backend/src/stores.rs, and what it evicts.
use tldr_tv.Prelude.{
  List, [], ◌∷◌, ℕ, ◌-◌, ◌≤◌, ◌<◌, ◌≡◌, ◌≢◌, none, some, arith, inl, inr, Bool-cases, Option-cases,
  ==_iff, list_eq, nat_eq, pair_eq, length, leb,
}
use tldr_tv.Prelude.Text.{Text}
use tldr_tv.HashMap.{
  IsMap, lookup, retain, contains_key, lookup-insert, retain-IsMap, insert-IsMap, remove-IsMap,
  length-insert, length-remove,
}
use tldr_tv.Stores.Eviction.Laws.{Evicts, evict_oldest_entries-Evicts}
use tldr_tv.Stores.Lockout.{
  LoginAttempt, LockoutStore, Key, key, max_entries, rank, is_current, is_locked, evict, make_room,
  record_failure, clear, new, cleanup, entry_or_new, count_failure,
}

-- The invariant of the store.
pub record IsBounded (store : LockoutStore) : Type 0 where
  pub is_map : IsMap store
  pub size : length store ≤ max_entries

evict-Evicts :
    (store : LockoutStore) (max : ℕ) → IsMap store → Evicts store max rank (evict store max)
unfolding evict
evict-Evicts store max m = evict_oldest_entries-Evicts store max rank m

-- One slot is free afterwards.
pub make_room_lem :
    (store : LockoutStore)
    → IsBounded store
    → IsMap (make_room store) × (length (make_room store) < max_entries)
unfolding make_room
make_room_lem store b = elim (Bool-cases (leb max_entries (length store))) [
  | inl full ↦
      let ev = evict-Evicts store (max_entries - 1) b.is_map in
      rw full (ev.is_map, omega (arith, ev.size))
  | inr room ↦ rw room (b.is_map, ground arith)
]

pub record_failure-IsBounded :
    (store : LockoutStore) (email ip : Text) (now_ms : ℕ)
    → IsBounded store
    → IsBounded (record_failure store email ip now_ms).0
unfolding record_failure
record_failure-IsBounded store email ip now_ms b =
    let k = key email ip in
    elim (Bool-cases (contains_key k store)) [
      | inl old ↦ rw old (record {
        is_map = insert-IsMap k _ store b.is_map;
        size = ground (
          arith,
          b.size,
          length-insert k (count_failure (entry_or_new store k now_ms) now_ms) store,
        );
      })
      | inr fresh ↦
          let (m, size) = make_room_lem store b in
          rw fresh (record {
            is_map = insert-IsMap k _ (make_room store) m;
            size = ground (
              arith,
              length-insert k (count_failure (entry_or_new (make_room store) k now_ms) now_ms)
                  (make_room store),
            );
          })
    ]

is_locked-IsBounded :
    (store : LockoutStore) (email ip : Text) (now_ms : ℕ)
    → IsBounded store
    → IsBounded (is_locked store email ip now_ms).0
unfolding is_locked
is_locked-IsBounded store email ip now_ms b = record {
  is_map = ground (arith, remove-IsMap (key email ip) store b.is_map);
  size = ground (arith, length-remove (key email ip) store);
}

clear-IsBounded :
    (store : LockoutStore) (email ip : Text) → IsBounded store → IsBounded (clear store email ip)
unfolding clear
clear-IsBounded store email ip b = record {
  is_map = remove-IsMap (key email ip) store b.is_map;
  size = ground (arith, b.size, length-remove (key email ip) store);
}

cleanup-IsBounded :
    (store : LockoutStore) (now_ms : ℕ) → IsBounded store → IsBounded (cleanup store now_ms).0
unfolding cleanup
cleanup-IsBounded store now_ms b =
    let ev =
      evict-Evicts (retain (is_current now_ms) store) max_entries (retain-IsMap _ store b.is_map) in
    record { is_map = ev.is_map; size = omega (arith, ev.size) }

-- A call of a method that may change the store.
pub data Call : Type 0 where
  check failure : Text → Text → ℕ → Call
  forget : Text → Text → Call
  sweep : ℕ → Call

pub call : LockoutStore → Call → LockoutStore
call store (check email ip now_ms) = (is_locked store email ip now_ms).0
call store (failure email ip now_ms) = (record_failure store email ip now_ms).0
call store (forget email ip) = clear store email ip
call store (sweep now_ms) = (cleanup store now_ms).0

pub calls : LockoutStore → List Call → LockoutStore
calls store [] = store
calls store (c ∷ cs) = calls (call store c) cs

call-IsBounded : (store : LockoutStore) (c : Call) → IsBounded store → IsBounded (call store c)
unfolding call
call-IsBounded store (check email ip now_ms) b = is_locked-IsBounded store email ip now_ms b
call-IsBounded store (failure email ip now_ms) b = record_failure-IsBounded store email ip now_ms b
call-IsBounded store (forget email ip) b = clear-IsBounded store email ip b
call-IsBounded store (sweep now_ms) b = cleanup-IsBounded store now_ms b

calls-IsBounded_from :
    (cs : List Call) (store : LockoutStore) → IsBounded store → IsBounded (calls store cs)
unfolding calls
calls-IsBounded_from [] store b = b
calls-IsBounded_from (c ∷ cs) store b =
    calls-IsBounded_from cs (call store c) (call-IsBounded store c b)

-- After any sequence of method calls on a new store, no key stands twice and there are at most
-- 50,000 records.
pub calls-IsBounded : (cs : List Call) → IsBounded (calls new cs)
calls-IsBounded cs = calls-IsBounded_from cs new (record { is_map = tt; size = omega arith })

-- The record is locked at this time.
abbrev pub IsLive : ℕ → LoginAttempt → Type 0
IsLive now_ms r = (until : ℕ) × (r.locked_until ≡ some until) × (now_ms < until)

outranks-IsLive :
    (now_ms : ℕ) (v w : LoginAttempt)
    → IsLive now_ms w
    → v.last_attempt ≤ now_ms
    → rank w ≤ rank v
    → IsLive now_ms v
outranks-IsLive now_ms v w (until, q, later) past le = elim (Option-cases v.locked_until) [
  | inl n ↦ absurd (ground arith)
  | inr (u, s) ↦ (u, s, ground arith)
]

make_room_evicts_locks_last :
    (store : LockoutStore) (now_ms : ℕ) (j k : Key) (w v : LoginAttempt)
    → IsBounded store
    → ((i : Key) (r : LoginAttempt) → lookup i store ≡ some r → r.last_attempt ≤ now_ms)
    → lookup j store ≡ some w
    → IsLive now_ms w
    → lookup j (make_room store) ≡ none
    → lookup k (make_room store) ≡ some v
    → IsLive now_ms v
unfolding make_room
make_room_evicts_locks_last store now_ms j k w v b past was live gone stays =
    elim (Bool-cases (leb max_entries (length store))) [
      | inl full ↦
          let ev = evict-Evicts store (max_entries - 1) b.is_map in
          let gone' = rw (full, make_room) at gone in
          let stays' = rw (full, make_room) at stays in
          outranks-IsLive now_ms v w live (past k v (ev.kept k v stays'))
            (ev.oldest k j v w stays' was gone')
      | inr room ↦ let gone' = rw (room, make_room) at gone in cc
    ]

-- A failure recorded when no record is dated ahead of the clock evicts a live lock only if every
-- record that it leaves, but the one that it writes, is a live lock too.
pub record_failure_evicts_locks_last :
    (store : LockoutStore) (email ip : Text) (now_ms : ℕ) (j k : Key) (w v : LoginAttempt)
    → IsBounded store
    → ((i : Key) (r : LoginAttempt) → lookup i store ≡ some r → r.last_attempt ≤ now_ms)
    → lookup j store ≡ some w
    → IsLive now_ms w
    → lookup j (record_failure store email ip now_ms).0 ≡ none
    → lookup k (record_failure store email ip now_ms).0 ≡ some v
    → k ≢ key email ip
    → IsLive now_ms v
unfolding record_failure
record_failure_evicts_locks_last store email ip now_ms j k w v b past was live gone stays other =
    let n = key email ip in
    let at = λ (m : LockoutStore) (i : Key).
      lookup-insert n i (count_failure (entry_or_new m n now_ms) now_ms) m in
    elim (Bool-cases (contains_key n store)) [
      | inl old ↦
          let gone' = rw (old, record_failure) at gone in absurd (ground (arith, at store j))
      | inr fresh ↦
          let gone' = rw (fresh, record_failure) at gone in
          let stays' = rw (fresh, record_failure) at stays in
          make_room_evicts_locks_last store now_ms j k w v b past was live
            (ground (arith, at (make_room store) j))
            (ground (arith, at (make_room store) k, ==_iff n k))
    ]

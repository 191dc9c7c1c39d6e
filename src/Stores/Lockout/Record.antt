-- ===== src/Stores/Lockout/Record.antt =====
-- Single records of `LockoutStore` in backend/src/stores.rs.
use tldr_tv.Prelude.{
  ℕ, ◌+◌, ◌-◌, ◌*◌, ◌≤◌, ◌<◌, ◌≡◌, ◌≢◌, true, false, none, some, arith, inl, inr, Bool-cases,
  ==_iff, list_eq, nat_eq, pair_eq, length, lt→leb_false,
}
use tldr_tv.Prelude.Text.{Text}
use tldr_tv.HashMap.{IsMap, lookup, contains_key, lookup-insert, lookup-remove, contains_key-false}
use tldr_tv.Stores.Eviction.Laws.{evict_oldest_entries-none}
use tldr_tv.Stores.Lockout.{
  LoginAttempt, LockoutStore, Key, key, max_entries, rank, is_locked, evict, make_room,
  record_failure, entry_or_new, count_failure,
}

-- Making room brings no record in.
make_room-lookup-none :
    (store : LockoutStore) (k : Key)
    → IsMap store
    → lookup k store ≡ none
    → lookup k (make_room store) ≡ none
unfolding make_room evict
make_room-lookup-none store k m q =
    ground (arith, evict_oldest_entries-none store (max_entries - 1) rank k m q)

-- In a store with distinct keys, a failure counts up the client's own record, or a new one, whatever
-- had to be evicted for it.
pub record_failure_here :
    (store : LockoutStore) (email ip : Text) (now_ms : ℕ)
    → IsMap store
    → lookup (key email ip) (record_failure store email ip now_ms).0
      ≡ some (count_failure (entry_or_new store (key email ip) now_ms) now_ms)
unfolding record_failure
record_failure_here store email ip now_ms m =
    let n = key email ip in
    let at =
      λ (s : LockoutStore). lookup-insert n n (count_failure (entry_or_new s n now_ms) now_ms) s in
    elim (Bool-cases (contains_key n store)) [
      | inl old ↦ rw old (ground (arith, at store, ==_iff n n))
      | inr fresh ↦
          let was = contains_key-false n store fresh in
          let is = make_room-lookup-none store n m was in
          rw fresh (ground (arith, at (make_room store), ==_iff n n))
    ]

-- In a store with fewer than 50,000 entries, a failure of one client leaves the record of every
-- other as it is.
pub record_failure_elsewhere :
    (store : LockoutStore) (email ip : Text) (now_ms : ℕ) (j : Key)
    → length store < max_entries
    → j ≢ key email ip
    → lookup j (record_failure store email ip now_ms).0 ≡ lookup j store
unfolding record_failure
record_failure_elsewhere store email ip now_ms j room ne =
    let n = key email ip in
    let spare : make_room store ≡ store =
      unfold make_room in ground (arith, lt→leb_false max_entries (length store)) in
    rw spare (
      ground (
        arith,
        lookup-insert n j (count_failure (entry_or_new store n now_ms) now_ms) store,
        ==_iff n j,
      ))

-- A client whose record is locked until a later time is answered that it is locked, with the time left
-- in seconds, rounded up, and the store is unchanged.
pub is_locked_live :
    (store : LockoutStore) (email ip : Text) (now_ms until : ℕ) (r : LoginAttempt)
    → lookup (key email ip) store ≡ some r
    → r.locked_until ≡ some until
    → now_ms < until
    → ((is_locked store email ip now_ms).1.locked ≡ true)
      × (until ≤ now_ms + (is_locked store email ip now_ms).1.remaining_time * 1000)
      × (now_ms + (is_locked store email ip now_ms).1.remaining_time * 1000 < until + 1000)
      × ((is_locked store email ip now_ms).0 ≡ store)
unfolding is_locked
is_locked_live store email ip now_ms until r q u later =
    (ground arith, ground arith, ground arith, ground arith)

-- In a store with distinct keys, a lock that has run out is forgotten with its counter, and the client
-- is answered that it is not locked.
pub is_locked_expired :
    (store : LockoutStore) (email ip : Text) (now_ms until : ℕ) (r : LoginAttempt)
    → IsMap store
    → lookup (key email ip) store ≡ some r
    → r.locked_until ≡ some until
    → until ≤ now_ms
    → ((is_locked store email ip now_ms).1.locked ≡ false)
      × (lookup (key email ip) (is_locked store email ip now_ms).0 ≡ none)
unfolding is_locked
is_locked_expired store email ip now_ms until r m q u over =
    let n = key email ip in (ground arith, ground (arith, lookup-remove n n store m, ==_iff n n))

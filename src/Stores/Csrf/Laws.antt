-- ===== src/Stores/Csrf/Laws.antt =====
-- What `CsrfStore` of backend/src/stores.rs remembers.
use tldr_tv.Prelude.{
  ℕ, ◌+◌, ◌≤◌, ◌≡◌, true, none, some, arith, if◌then◌else◌, ◌==◌, list_eq, nat_eq, length,
}
use tldr_tv.Prelude.Text.{Text}
use tldr_tv.HashMap.{
  IsMap, retain, lookup-retain, retain-IsMap, length-retain-le, lookup-insert, lookup-remove,
}
use tldr_tv.Stores.Eviction.Laws.{evict_oldest_entries-Evicts, evict_oldest_entries_fits}
use tldr_tv.Stores.Csrf.{CsrfEntry, CsrfStore, max_entries, fresh, get, set, remove, cleanup}

-- What a cleanup leaves: at most `max_entries` entries of the store, all of them fresh; nothing
-- fresh is lost while the fresh entries fit; and every expired entry is counted.
pub record Cleaned (store : CsrfStore) (now_ms : ℕ) (left : CsrfStore) (cleaned : ℕ) : Type 0 where
  pub is_map : IsMap left
  pub bounded : length left ≤ max_entries
  pub only_fresh :
      (u : Text) (c : CsrfEntry)
      → get left u ≡ some c
      → (get store u ≡ some c) × (fresh now_ms c ≡ true)
  pub keeps_fresh :
      (u : Text) (c : CsrfEntry)
      → length (retain (fresh now_ms) store) ≤ max_entries
      → get store u ≡ some c
      → fresh now_ms c ≡ true
      → get left u ≡ some c
  pub counted : cleaned + length (retain (fresh now_ms) store) ≡ length store

-- A cleanup of a store with distinct users leaves only fresh tokens of the store, at most 50,000 of
-- them, drops no fresh token while the fresh ones are at most 50,000, and returns the number of
-- expired ones.
pub cleanup-Cleaned :
    (store : CsrfStore) (now_ms : ℕ)
    → IsMap store
    → Cleaned store now_ms (cleanup store now_ms).0 (cleanup store now_ms).1
unfolding cleanup get
cleanup-Cleaned store now_ms m =
    let live = retain (fresh now_ms) store in
    let stamp = λ (c : CsrfEntry). c.timestamp in
    let ev = evict_oldest_entries-Evicts live max_entries stamp (retain-IsMap _ store m) in
    record {
      is_map = ev.is_map;
      bounded = omega (arith, ev.size);
      only_fresh = λ u c q. ground (arith, ev.kept u c q, lookup-retain (fresh now_ms) u store m);
      keeps_fresh = λ u c fits q f.
          rw (evict_oldest_entries_fits live max_entries stamp fits)
            (ground (arith, lookup-retain (fresh now_ms) u store m));
      counted = omega (arith, length-retain-le (fresh now_ms) store);
    }

-- After a token is stored for a user, that token is read back for the user with its time, and any
-- other user has the token he had.
pub get-set :
    (store : CsrfStore) (u j token : Text) (now_ms : ℕ)
    → get (set store u token now_ms) j
      ≡ (if u == j then some (record { token = token; timestamp = now_ms }) else get store j)
unfolding get set
get-set store u j token now_ms = lookup-insert u j _ store

pub get-remove :
    (store : CsrfStore) (u j : Text)
    → IsMap store
    → get (remove store u) j ≡ (if u == j then none else get store j)
unfolding get remove
get-remove store u j m = lookup-remove u j store m

-- ===== src/Stores/RateLimit/Window.antt =====
-- The sliding window of `RateLimitStore` in backend/src/stores.rs.
use mathlib.Core.Option
use tldr_tv.Prelude.{
  ℕ, suc, ◌+◌, ◌-◌, ◌*◌, ◌≤◌, ◌<◌, ◌≡◌, ◌∙◌, refl, sym, ap, subst, not, ◌&&◌, ◌==◌, Option, inl,
  inr, Bool, true, false, none, List, [], ◌∷◌, ◌++◌, arith, if◌then◌else◌, Bool-cases, ==_iff,
  length, length-append, length-keep-le, keep, leb, list_eq, nat_eq, lt→leb_false,
}
use tldr_tv.Prelude.Text.{Text}
use tldr_tv.HashMap.{
  IsMap, lookup, contains_key, insert, lookup-insert, length-insert, insert-IsMap,
  contains_key-false,
}
use tldr_tv.Stores.Eviction.Laws.{evict_oldest_entries-Evicts, evict_oldest_entries-none}
use tldr_tv.Stores.RateLimit.{
  RateLimitStore, limit, max_entries, first_or, in_window, decide, bounded_store, check_and_record,
}

-- the times on record for the address
abbrev pub window_of : RateLimitStore → Text → List ℕ
window_of store ip = Option.get_or (lookup ip store) []

bounded_store_lem :
    (store : RateLimitStore) (ip : Text)
    → IsMap store
    → IsMap (bounded_store store ip) × (window_of (bounded_store store ip) ip ≡ window_of store ip)
bounded_store_lem store ip m = elim (Bool-cases (contains_key ip store)) [
  | inl old ↦ rw old (m, refl)
  | inr fresh ↦ elim (Bool-cases (leb max_entries (length store))) [
    | inr room ↦ rw (fresh, room) (m, refl)
    | inl full ↦
        let ev = evict_oldest_entries-Evicts store (max_entries - 1) (first_or 0) m in
        let was = contains_key-false ip store fresh in
        let is = evict_oldest_entries-none store (max_entries - 1) (first_or 0) ip m was in
        rw (fresh, full) (ev.is_map, rw (is, was))
  ]
]

-- The call as one step on the window of its address.
pub check_and_record_lem :
    (store : RateLimitStore) (ip : Text) (now_ms : ℕ)
    → IsMap store
    → IsMap (check_and_record store ip now_ms).0
      × (window_of (check_and_record store ip now_ms).0 ip
          ≡ (decide (keep (in_window now_ms) (window_of store ip)) now_ms).0)
      × ((check_and_record store ip now_ms).1
          ≡ (decide (keep (in_window now_ms) (window_of store ip)) now_ms).1)
unfolding check_and_record
check_and_record_lem store ip now_ms m =
    let (m', same) = bounded_store_lem store ip m in
    let times = keep (in_window now_ms) (window_of store ip) in
    rw same (
      insert-IsMap ip _ (bounded_store store ip) m',
      ground (
        arith,
        lookup-insert ip ip (decide times now_ms).0 (bounded_store store ip),
        ==_iff ip ip,
      ),
      refl,
    )

-- A window that has moved on keeps no more than it did.
keep-keep :
    (t u : ℕ) (ts : List ℕ)
    → t ≤ u
    → keep (in_window u) (keep (in_window t) ts) ≡ keep (in_window u) ts
keep-keep t u [] le = refl
keep-keep t u (x ∷ ts) le = ground (arith, keep-keep t u ts le)

keep-append : (p : ℕ → Bool) (xs ys : List ℕ) → keep p (xs ++ ys) ≡ keep p xs ++ keep p ys
keep-append p [] ys = refl
keep-append p (x ∷ xs) ys = ground (arith, keep-append p xs ys)

-- of these requests, each an address and a time, those of one address that are admitted, behind those
-- in `acc`
pub admitted_from : RateLimitStore → Text → List ℕ → List (Text × ℕ) → List ℕ
admitted_from store ip acc [] = acc
admitted_from store ip acc ((who, t) ∷ rs) =
    let (store', status) = check_and_record store who t in
    admitted_from store' ip (if who == ip && not status.limited then acc ++ t ∷ [] else acc) rs

-- The clock does not go back.
abbrev pub Ascending : ℕ → List (Text × ℕ) → Type 0
Ascending t [] = Unit
Ascending t ((who, u) ∷ rs) = (t ≤ u) × Ascending u rs

abbrev pub last_of : ℕ → List (Text × ℕ) → ℕ
last_of t [] = t
last_of t ((who, u) ∷ rs) = last_of u rs

-- the window on record is that of the requests admitted so far, as it was at a time t
record Tracks (store : RateLimitStore) (ip : Text) (t : ℕ) (acc : List ℕ) : Type 0 where
  is_map : IsMap store
  window : window_of store ip ≡ keep (in_window t) acc
  bounded : length (keep (in_window t) acc) ≤ limit

decide-Tracks :
    (t u : ℕ) (acc : List ℕ)
    → t ≤ u
    → length (keep (in_window t) acc) ≤ limit
    → let (times, status) = decide (keep (in_window u) (keep (in_window t) acc)) u in
      let acc' = if not status.limited then acc ++ u ∷ [] else acc in
      (times ≡ keep (in_window u) acc') × (length (keep (in_window u) acc') ≤ limit)
unfolding decide
decide-Tracks t u acc le b =
    let w = keep (in_window u) (keep (in_window t) acc) in
    let same : w ≡ keep (in_window u) acc = keep-keep t u acc le in
    let here : in_window u u ≡ true = ground arith in
    elim (Bool-cases (leb limit (length w))) [
      | inl full ↦
          rw full (same, ground (arith, length-keep-le (in_window u) (keep (in_window t) acc)))
      | inr room ↦
          let app = keep-append (in_window u) acc (u ∷ []) in
          rw room (ground arith, ground (arith, length-append (keep (in_window u) acc) (u ∷ [])))
    ]

own-Tracks :
    (store : RateLimitStore) (ip : Text) (t u : ℕ) (acc : List ℕ)
    → t ≤ u
    → Tracks store ip t acc
    → let (store', status) = check_and_record store ip u in
      Tracks store' ip u (if not status.limited then acc ++ u ∷ [] else acc)
own-Tracks store ip t u acc le k =
    let (m, window, status) = check_and_record_lem store ip u k.is_map in
    let (times, bounded) = decide-Tracks t u acc le k.bounded in
    record {
      is_map = m;
      window = ground (arith, window, status, times, k.window);
      bounded = ground (arith, status, bounded, k.window);
    }

window_of-insert :
    (who ip : Text) (times : List ℕ) (store : RateLimitStore)
    → (who == ip) ≡ false
    → window_of (insert who times store) ip ≡ window_of store ip
window_of-insert who ip times store other =
    ap (λ (o : Option (List ℕ)). Option.get_or o [])
      (rw other at (lookup-insert who ip times store))

-- With room in the store, a call touches the entry of its own address alone, and adds one at most.
check_and_record_room :
    (store : RateLimitStore) (who : Text) (u : ℕ)
    → length store < max_entries
    → (length (check_and_record store who u).0 ≤ suc (length store))
      × ((ip : Text)
          → (who == ip) ≡ false
          → window_of (check_and_record store who u).0 ip ≡ window_of store ip)
unfolding check_and_record
check_and_record_room store who u room =
    let all : leb max_entries (length store) ≡ false = lt→leb_false _ _ room in
    let times = (decide (keep (in_window u) (window_of store who)) u).0 in
    elim (Bool-cases (contains_key who store)) [
      | inl old ↦ rw old (
        ground (arith, length-insert who times store),
        λ ip other. window_of-insert who ip times store other,
      )
      | inr fresh ↦
          rw (fresh, all)
            (
              ground (arith, length-insert who times store),
              λ ip other. window_of-insert who ip times store other,
            )
    ]

other-Tracks :
    (store : RateLimitStore) (ip who : Text) (t u : ℕ) (acc : List ℕ)
    → length store < max_entries
    → (who == ip) ≡ false
    → Tracks store ip t acc
    → Tracks (check_and_record store who u).0 ip t acc
other-Tracks store ip who t u acc room other k = record {
  is_map = (check_and_record_lem store who u k.is_map).0;
  window = (check_and_record_room store who u room).1 ip other ∙ k.window;
  bounded = k.bounded;
}

admitted_from-bounded :
    (rs : List (Text × ℕ)) (store : RateLimitStore) (ip : Text) (t now : ℕ) (acc : List ℕ)
    → t ≤ now
    → Ascending now rs
    → length store + length rs ≤ max_entries
    → Tracks store ip t acc
    → length (keep (in_window (last_of now rs)) (admitted_from store ip acc rs)) ≤ limit
unfolding admitted_from
admitted_from-bounded [] store ip t now acc le a size k =
    let same = keep-keep t now acc le in
    let fewer = length-keep-le (in_window now) (keep (in_window t) acc) in
    let most = k.bounded in ground arith
admitted_from-bounded ((who, u) ∷ rs) store ip t now acc le a size k =
    let room : length store < max_entries = omega (arith, size) in
    let grown = (check_and_record_room store who u room).0 in
    elim (Bool-cases (who == ip)) [
      | inr other ↦ rw other (
          admitted_from-bounded rs (check_and_record store who u).0 ip t u acc
            (omega (arith, le, a.0)) a.1 (omega (arith, size, grown))
            (other-Tracks store ip who t u acc room other k))
      | inl same ↦
          let is : who ≡ ip = (==_iff who ip).0 same in
          let here =
            subst
              (λ x.
                Tracks (check_and_record store x u).0 ip u
                  (if not (check_and_record store x u).1.limited then acc ++ u ∷ [] else acc))
              (sym is) (own-Tracks store ip t u acc (omega (arith, le, a.0)) k) in
          rw same (
            admitted_from-bounded rs (check_and_record store who u).0 ip u u
              (if not (check_and_record store who u).1.limited then acc ++ u ∷ [] else acc)
              (omega arith) a.1 (omega (arith, size, grown)) here)
    ]

-- In a store with distinct keys and none for the address, of the requests that come from any
-- addresses at times that never go back, at most 20 of the address are admitted within the fifteen
-- minutes up to the last of them, if the entries of the store and the requests are together no more
-- than 50,000, so that no window is evicted.
pub admitted_from-le-limit :
    (store : RateLimitStore) (ip : Text) (rs : List (Text × ℕ))
    → IsMap store
    → lookup ip store ≡ none
    → Ascending 0 rs
    → length store + length rs ≤ max_entries
    → length (keep (in_window (last_of 0 rs)) (admitted_from store ip [] rs)) ≤ limit
admitted_from-le-limit store ip rs m q a size =
    admitted_from-bounded rs store ip 0 0 [] (omega arith) a size
      (record { is_map = m; window = rw q; bounded = omega arith })

-- The oldest request has left the window, so there is room for one.
waited_decide :
    (v : List ℕ) (now_ms later : ℕ)
    → length v ≤ limit
    → (decide v now_ms).1.limited ≡ true
    → now_ms + (decide v now_ms).1.retry_after_secs * 1000 ≤ later
    → (decide (keep (in_window later) (decide v now_ms).0) later).1.limited ≡ false
unfolding decide
waited_decide [] now_ms later b lim wait = ground arith
waited_decide (x ∷ r) now_ms later b lim wait = elim (Bool-cases (leb limit (suc (length r)))) [
  | inr room ↦ let lim' = rw room at lim in cc
  | inl full ↦
      let wait' = rw full at wait in
      let out : in_window later x ≡ false = ground arith in
      let small : leb limit (length (keep (in_window later) r)) ≡ false =
        lt→leb_false _ _ (omega (arith, b, length-keep-le (in_window later) r)) in
      rw (full, out, small)
]

refused-decide :
    (w : List ℕ) (now_ms later : ℕ)
    → length w ≤ limit
    → (decide (keep (in_window now_ms) w) now_ms).1.limited ≡ true
    → now_ms + (decide (keep (in_window now_ms) w) now_ms).1.retry_after_secs * 1000 ≤ later
    → (decide
        (keep (in_window later) (decide (keep (in_window now_ms) w) now_ms).0)
        later).1.limited
      ≡ false
unfolding decide
refused-decide w now_ms later b =
    waited_decide (keep (in_window now_ms) w) now_ms later
      (omega (arith, b, length-keep-le (in_window now_ms) w))

-- In a store with distinct keys and at most 20 times for the address, a refused client that waits for
-- the answered number of seconds is admitted, if no other request comes in between.
pub retry_after_admits :
    (store : RateLimitStore) (ip : Text) (now_ms later : ℕ)
    → IsMap store
    → length (window_of store ip) ≤ limit
    → (check_and_record store ip now_ms).1.limited ≡ true
    → now_ms + (check_and_record store ip now_ms).1.retry_after_secs * 1000 ≤ later
    → (check_and_record (check_and_record store ip now_ms).0 ip later).1.limited ≡ false
retry_after_admits store ip now_ms later m b lim wait =
    let (m', window, status) = check_and_record_lem store ip now_ms m in
    let (_, _, again) = check_and_record_lem (check_and_record store ip now_ms).0 ip later m' in
    rw (again, window)
      (refused-decide (window_of store ip) now_ms later b (rw status at lim) (rw status at wait))

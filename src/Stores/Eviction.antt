-- ===== src/Stores/Eviction.antt =====
-- `evict_oldest_entries`, `sift_up` and `sift_down` of backend/src/stores.rs. A heap is the `Vec`
-- of keys with timestamps. Timestamps are `config::now_ms()`, which is never negative. An index
-- out of bounds, a panic in the source, reads as timestamp 0 and writes nothing: the loops keep
-- their indices in bounds.
pub mod Array
pub mod Sift
pub mod Select
pub mod Laws
use tldr_tv.Prelude.{
  ℕ, zero, suc, ◌+◌, ◌-◌, ◌*◌, ◌/◌, ◌&&◌, Bool, true, false, Option, none, some, List, [], ◌∷◌,
  ◌++◌, ltb, leb, if◌then◌else◌, Eq, nat_beq, length, get_elem?, set,
}
use tldr_tv.HashMap.{HashMap, remove}

abbrev pub Heap : Type 0 → Type 0
Heap K = List (K × ℕ)

abbrev pub parent : ℕ → ℕ
parent i = (i - 1) / 2

module _ {K : Type 0} where
  -- `heap[i].1`
  abbrev pub stamp_at : Heap K → ℕ → ℕ
  stamp_at heap i = elim (get_elem? heap i) [ none ↦ 0 | some p ↦ p.1 ]

  -- `heap.swap(i, j)`
  abbrev pub swap_in : Heap K → ℕ → ℕ → Option (K × ℕ) → Option (K × ℕ) → Heap K
  swap_in heap i j (some p) (some q) = set (set heap i q) j p
  swap_in heap i j _ _ = heap

  pub swap : Heap K → ℕ → ℕ → Heap K
  swap heap i j = swap_in heap i j (get_elem? heap i) (get_elem? heap j)

  -- One round lowers `i`, so that `i` rounds are enough.
  pub sift_up_loop : ℕ → Heap K → ℕ → Heap K
  sift_up_loop zero heap i = heap
  sift_up_loop (suc fuel) heap i =
      let rest = sift_up_loop fuel (swap heap (parent i) i) (parent i) in
      let settled = leb (stamp_at heap i) (stamp_at heap (parent i)) in
      if ltb 0 i then (if settled then heap else rest) else heap

  pub sift_up : Heap K → ℕ → Heap K
  unfolding sift_up_loop swap
  sift_up heap start = sift_up_loop start heap start

  -- `j` if it is a child inside the heap with a greater timestamp, else `largest`
  abbrev pub larger : Heap K → ℕ → ℕ → ℕ
  larger heap largest j =
      if ltb j (length heap) && ltb (stamp_at heap largest) (stamp_at heap j) then j else largest

  pub largest_of : Heap K → ℕ → ℕ
  largest_of heap i = larger heap (larger heap i (2 * i + 1)) (2 * i + 1 + 1)

  -- One round raises `i`, so that as many rounds as the heap has entries are enough.
  pub sift_down_loop : ℕ → Heap K → ℕ → Heap K
  unfolding largest_of
  sift_down_loop zero heap i = heap
  sift_down_loop (suc fuel) heap i =
      let largest = largest_of heap i in
      let rest = sift_down_loop fuel (swap heap largest i) largest in
      if nat_beq largest i then heap else rest

  pub sift_down : Heap K → ℕ → Heap K
  unfolding sift_down_loop swap
  sift_down heap start = sift_down_loop (length heap) heap start

  -- the body of the loop over the store: keep the `count` smallest timestamps
  pub offer : ℕ → Heap K → K × ℕ → Heap K
  unfolding sift_up sift_down
  offer count heap (k, ts) =
      if ltb (length heap) count
      then (let pushed = heap ++ (k, ts) ∷ [] in sift_up pushed (length pushed - 1))
      else if ltb ts (stamp_at heap 0)
      then sift_down (set heap 0 (k, ts)) 0
      else heap

  pub select : ℕ → Heap K → List (K × ℕ) → Heap K
  unfolding offer
  select count heap [] = heap
  select count heap (p ∷ ps) = select count (offer count heap p) ps

module _ {K V : Type 0} ⦃e : Eq K⦄ where
  -- the store as it is iterated: its keys with their timestamps
  abbrev pub stamps : (V → ℕ) → HashMap K V → List (K × ℕ)
  stamps get_timestamp [] = []
  stamps get_timestamp ((k, v) ∷ m) = (k, get_timestamp v) ∷ stamps get_timestamp m

  pub remove_all : Heap K → HashMap K V → HashMap K V
  remove_all [] m = m
  remove_all ((k, ts) ∷ heap) m = remove_all heap (remove k m)

  pub evict_oldest_entries : HashMap K V → ℕ → (V → ℕ) → HashMap K V
  unfolding select remove_all
  evict_oldest_entries store max_entries get_timestamp =
      let remove_count = length store - max_entries in
      if ltb 0 remove_count
      then remove_all (select remove_count [] (stamps get_timestamp store)) store
      else store

-- ===== src/Stores/Eviction/Sift.antt =====
-- `sift_up` and `sift_down` of backend/src/stores.rs on max-heaps.
use mathlib.Core.List.{Permᴰ}
use mathlib.Core.Logic.{◌⊎◌, inl, inr}
use tldr_tv.Prelude.{
  ℕ, zero, suc, ◌+◌, ◌*◌, ◌≤◌, ◌<◌, ◌≡◌, ◌≢◌, arith, Bool-cases, nat_beq, leb, ltb, length,
}
use tldr_tv.Stores.Eviction.{
  Heap, stamp_at, swap, parent, sift_up_loop, sift_up, largest_of, sift_down_loop, sift_down,
}
use tldr_tv.Stores.Eviction.Array.{Permᴰ-refl, length-swap, swap-perm, stamp_at-swap}

-- No entry is newer than its parent.
abbrev pub IsHeap : {K : Type 0} → Heap K → Type 0
IsHeap h = (c : ℕ) → 0 < c → c < length h → stamp_at h c ≤ stamp_at h (parent c)

-- `h'` is a heap of the entries of `h`.
abbrev pub Restores : {K : Type 0} → Heap K → Heap K → Type 0
Restores h h' = IsHeap h' × Permᴰ h' h

child_cases : (i c : ℕ) → 0 < c → parent c ≡ i → (c ≡ 2 * i + 1) ⊎ (c ≡ 2 * i + 1 + 1)
child_cases i c p e = ground arith

module _ {K : Type 0} where
  -- only the edge above `i` may be out of order
  pub record Rising (h : Heap K) (i : ℕ) : Type 0 where
    pub inside : i < length h
    pub edges : (c : ℕ) → 0 < c → c < length h → c ≢ i → stamp_at h c ≤ stamp_at h (parent c)
    pub bridged :
        (c : ℕ) → 0 < c → c < length h → parent c ≡ i → 0 < i → stamp_at h c ≤ stamp_at h (parent i)

  swap-Rising :
      (h : Heap K) (i : ℕ)
      → 0 < i
      → Rising h i
      → stamp_at h (parent i) < stamp_at h i
      → Rising (swap h (parent i) i) (parent i)
  swap-Rising h i pos r lt =
      let size = length-swap h (parent i) i in
      let at = stamp_at-swap h (parent i) i (omega (arith, r.inside)) r.inside in
      record {
        inside = omega (arith, size, r.inside);
        edges = λ c p q ne.
            ground (arith, at c, at (parent c), r.edges c, r.edges (parent i), r.bridged c);
        bridged = λ c p q e pp.
            ground (arith, at c, at (parent (parent i)), r.edges c, r.edges (parent i));
      }

  sift_up_loop_lem :
      (fuel : ℕ) (h : Heap K) (i : ℕ) → i ≤ fuel → Rising h i → Restores h (sift_up_loop fuel h i)
  unfolding sift_up_loop
  sift_up_loop_lem zero h i f r = (λ c p q. r.edges c p q (omega arith), Permᴰ-refl h)
  sift_up_loop_lem (suc fuel) h i f r = elim (Bool-cases (ltb 0 i)) [
    | inr e ↦
        let at_root : i ≡ 0 = ground arith in
        rw e (λ c p q. r.edges c p q (omega (arith, at_root)), Permᴰ-refl h)
    | inl e ↦ elim (Bool-cases (leb (stamp_at h i) (stamp_at h (parent i)))) [
      | inl s ↦ rw (e, s) (λ c p q. ground (arith, r.edges c), Permᴰ-refl h)
      | inr s ↦
          let pos : 0 < i = ground arith in
          let (heap, perm) =
            sift_up_loop_lem fuel (swap h (parent i) i) (parent i) (omega arith)
              (swap-Rising h i pos r (ground arith)) in
          rw (e, s)
            (heap, Permᴰ.trans perm (swap-perm h (parent i) i (omega (arith, r.inside)) r.inside))
    ]
  ]

  -- An entry at the end of a heap rises to its place.
  pub sift_up_lem : (h : Heap K) (i : ℕ) → Rising h i → Restores h (sift_up h i)
  unfolding sift_up
  sift_up_lem h i r = sift_up_loop_lem i h i (omega arith) r

  -- only the edges below `i` may be out of order
  pub record Sinking (h : Heap K) (i : ℕ) : Type 0 where
    pub edges : (c : ℕ) → 0 < c → c < length h → parent c ≢ i → stamp_at h c ≤ stamp_at h (parent c)
    pub bridged :
        (c : ℕ) → 0 < c → c < length h → parent c ≡ i → 0 < i → stamp_at h c ≤ stamp_at h (parent i)

  -- what the search among `i` and its children finds
  record IsLargest (h : Heap K) (i m : ℕ) : Type 0 where
    place : (m ≡ i) ⊎ ((m ≡ 2 * i + 1) ⊎ (m ≡ 2 * i + 2))
    inside : m ≢ i → m < length h
    top : stamp_at h i ≤ stamp_at h m
    greater : m ≢ i → stamp_at h i < stamp_at h m
    above : (c : ℕ) → 0 < c → c < length h → parent c ≡ i → stamp_at h c ≤ stamp_at h m

  largest_of-IsLargest : (h : Heap K) (i : ℕ) → IsLargest h i (largest_of h i)
  unfolding largest_of
  largest_of-IsLargest h i = record {
    place = ground arith;
    inside = ground arith;
    top = ground arith;
    greater = ground arith;
    above = λ c p q e. ground (arith, child_cases i c p e);
  }

  swap-Sinking :
      (h : Heap K) (i m : ℕ)
      → i < length h
      → Sinking h i
      → IsLargest h i m
      → m ≢ i
      → Sinking (swap h m i) m
  swap-Sinking h i m hi s l ne =
      let size = length-swap h m i in
      let at = stamp_at-swap h m i (l.inside ne) hi in
      record {
        edges = λ c p q r.
            ground
              (arith, at c, at (parent c), s.edges c, s.bridged c, s.bridged m, l.above c, l.place);
        bridged = λ c p q r t. ground (arith, at c, at (parent m), s.edges c, l.place);
      }

  sift_down_loop_lem :
      (fuel : ℕ) (h : Heap K) (i : ℕ)
      → length h ≤ i + fuel
      → Sinking h i
      → Restores h (sift_down_loop fuel h i)
  unfolding sift_down_loop
  sift_down_loop_lem zero h i f s = (λ c p q. ground (arith, s.edges c), Permᴰ-refl h)
  sift_down_loop_lem (suc fuel) h i f s =
      let l = largest_of-IsLargest h i in
      let m = largest_of h i in
      elim (Bool-cases (nat_beq m i)) [
        | inl e ↦
            let same : m ≡ i = ground arith in
            rw e (λ c p q. ground (arith, s.edges c, l.above c), Permᴰ-refl h)
        | inr e ↦
            let ne : m ≢ i = ground arith in
            let hi : i < length h = ground (arith, l.place, l.inside ne) in
            let (heap, perm) =
              sift_down_loop_lem fuel (swap h m i) m (ground (arith, l.place, length-swap h m i))
                (swap-Sinking h i m hi s l ne) in
            rw e (heap, Permᴰ.trans perm (swap-perm h m i (l.inside ne) hi))
      ]

  -- A replaced entry sinks to its place.
  pub sift_down_lem : (h : Heap K) (i : ℕ) → Sinking h i → Restores h (sift_down h i)
  unfolding sift_down
  sift_down_lem h i s = sift_down_loop_lem (length h) h i (omega arith) s

  -- The root of a heap is its newest entry.
  root_newest_below :
      (h : Heap K) → IsHeap h → (n i : ℕ) → i < n → i < length h → stamp_at h i ≤ stamp_at h 0
  root_newest_below h heap zero i b l = absurd (omega arith)
  root_newest_below h heap (suc n) zero b l = omega arith
  root_newest_below h heap (suc n) (suc i) b l = omega (
    arith,
    heap (suc i) (omega arith) l,
    root_newest_below h heap n (parent (suc i)) (omega arith) (omega arith),
  )

  pub root_newest : (h : Heap K) → IsHeap h → (i : ℕ) → i < length h → stamp_at h i ≤ stamp_at h 0
  root_newest h heap i l = root_newest_below h heap (suc i) i (omega arith) l

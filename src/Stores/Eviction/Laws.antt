-- ===== src/Stores/Eviction/Laws.antt =====
-- What `evict_oldest_entries` does to a map.

use tldr_tv.Prelude.{
  ℕ, suc, ◌+◌, ◌-◌, ◌≤◌, ◌<◌, min, ◌≡◌, refl, ap, inl, inr, true, none, some, List, [], ◌∷◌, arith,
  Bool-cases, Option-cases, if◌then◌else◌, ltb, length, Eq, ==_iff, length-append,
}
use tldr_tv.HashMap.{
  HashMap, IsMap, lookup, remove, contains_key, lookup-remove, remove-IsMap, length-remove,
}
use tldr_tv.HashMap.Permute.{lookup-append, IsMap-append, lookup-permᴰ}
use tldr_tv.Stores.Eviction.{Heap, stamp_at, stamps, remove_all, evict_oldest_entries}
use tldr_tv.Stores.Eviction.Sift.{root_newest}
use tldr_tv.Stores.Eviction.Select.{
  AtLeast, AtMost, Selected, select-Selected, length-permᴰ, AtMost-of_stamps,
}

-- The outcome: a map of at most `max_entries` entries of the store, and no entry that went is newer
-- than one that stayed.
pub record Evicts {K V : Type 0} ⦃e : Eq K⦄ (store : HashMap K V) (max_entries : ℕ)
    (get_timestamp : V → ℕ) (left : HashMap K V) : Type 0 where
  pub is_map : IsMap left
  pub size : length left ≡ min (length store) max_entries
  pub kept : (k : K) (v : V) → lookup k left ≡ some v → lookup k store ≡ some v
  pub oldest :
      (k j : K) (v w : V)
      → lookup k left ≡ some v
      → lookup j store ≡ some w
      → lookup j left ≡ none
      → get_timestamp w ≤ get_timestamp v

module _ {K : Type 0} ⦃e : Eq K⦄ where
  AtLeast-lookup : (t : ℕ) (l : Heap K) (k : K) (b : ℕ) → AtLeast t l → lookup k l ≡ some b → t ≤ b
  unfolding lookup
  AtLeast-lookup t [] k b h q = cc
  AtLeast-lookup t ((j, s) ∷ l) k b h q = ground (arith, AtLeast-lookup t l k b)

  AtMost-lookup : (t : ℕ) (l : Heap K) (k : K) (b : ℕ) → AtMost t l → lookup k l ≡ some b → b ≤ t
  unfolding lookup
  AtMost-lookup t [] k b h q = cc
  AtMost-lookup t ((j, s) ∷ l) k b h q = ground (arith, AtMost-lookup t l k b)

  -- When there are enough entries to fill it, the heap has `count` entries.
  length-Selected :
      (count : ℕ) (seen heap : Heap K)
      → Selected count seen heap
      → count ≤ length seen
      → length heap ≡ count
  length-Selected count seen heap s enough = elim (Bool-cases (ltb (length heap) count)) [
    | inr full ↦ ground (arith, s.bounded)
    | inl room ↦
        let none_skipped = s.filled (ground arith) in
        omega (
          arith,
          s.bounded,
          length-permᴰ s.splits,
          length-append heap s.skipped,
          ap (λ (l : List (K × ℕ)). length l) none_skipped,
        )
  ]

module _ {K V : Type 0} ⦃e : Eq K⦄ where
  lookup-stamps :
      (ts : V → ℕ) (k : K) (m : HashMap K V)
      → lookup k (stamps ts m) ≡ elim (lookup k m) [ none ↦ none | some v ↦ some (ts v) ]
  unfolding lookup
  lookup-stamps ts k [] = refl
  lookup-stamps ts k ((j, w) ∷ m) = ground (arith, lookup-stamps ts k m)

  stamps-IsMap : (ts : V → ℕ) (m : HashMap K V) → IsMap m → IsMap (stamps ts m)
  stamps-IsMap ts [] h = tt
  stamps-IsMap ts ((j, w) ∷ m) h =
      (ground (arith, lookup-stamps ts j m, h.0), stamps-IsMap ts m h.1)

  length-stamps : (ts : V → ℕ) (m : HashMap K V) → length (stamps ts m) ≡ length m
  length-stamps ts [] = refl
  length-stamps ts ((j, w) ∷ m) = ap suc (length-stamps ts m)

  remove_all_lem :
      (heap : Heap K) (m : HashMap K V)
      → IsMap m
      → IsMap (remove_all heap m)
        × ((j : K)
            → lookup j (remove_all heap m) ≡ (if contains_key j heap then none else lookup j m))
  unfolding remove_all contains_key
  remove_all_lem [] m h = (h, λ j. refl)
  remove_all_lem ((k, t) ∷ heap) m h =
      let (left, at) = remove_all_lem heap (remove k m) (remove-IsMap k m h) in
      (left, λ j. ground (arith, at j, lookup-remove k j m h))

  contains_key_pos : (k : K) (m : HashMap K V) → contains_key k m ≡ true → 0 < length m
  unfolding contains_key lookup
  contains_key_pos k [] h = cc
  contains_key_pos k (p ∷ m) h = omega arith

  -- The keys that are still to go are in the map without `k`.
  length-remove_all_step :
      (k : K) (t : ℕ) (heap : Heap K) (m : HashMap K V)
      → IsMap m
      → IsMap ((k, t) ∷ heap)
      → ((j : K) → contains_key j ((k, t) ∷ heap) ≡ true → contains_key j m ≡ true)
      → (j : K) → contains_key j heap ≡ true
      → contains_key j (remove k m) ≡ true
  unfolding contains_key lookup
  length-remove_all_step k t heap m hm hh sub j c =
      ground (arith, sub j, lookup-remove k j m hm, ==_iff k j)

  length-remove_all :
      (heap : Heap K) (m : HashMap K V)
      → IsMap m
      → IsMap heap
      → ((k : K) → contains_key k heap ≡ true → contains_key k m ≡ true)
      → length (remove_all heap m) + length heap ≡ length m
  unfolding remove_all
  length-remove_all [] m hm hh sub = omega arith
  length-remove_all ((k, t) ∷ heap) m hm hh sub =
      let here : contains_key k m ≡ true =
        sub k (unfold contains_key lookup in ground (arith, ==_iff k k)) in
      omega (
        arith,
        length-remove_all heap (remove k m) (remove-IsMap k m hm) hh.1
            (λ j c. length-remove_all_step k t heap m hm hh sub j c),
        rw here at (length-remove k m),
        contains_key_pos k m here,
      )

  -- Removing the selected keys evicts.
  remove_all-Evicts :
      (store : HashMap K V) (max_entries : ℕ) (ts : V → ℕ) (heap : Heap K)
      → IsMap store
      → max_entries < length store
      → Selected (length store - max_entries) (stamps ts store) heap
      → Evicts store max_entries ts (remove_all heap store)
  unfolding contains_key
  remove_all-Evicts store max_entries ts heap hm over s =
      let (both, same) = lookup-permᴰ s.splits (stamps-IsMap ts store hm) in
      let (apart, disjoint) = IsMap-append heap s.skipped both in
      let (left, at) = remove_all_lem heap store hm in
      let size = length-stamps ts store in
      let below = AtMost-of_stamps (stamp_at heap 0) heap (root_newest heap s.ordered) in
      record {
        is_map = left;
        size = omega (
          arith,
          length-remove_all heap store hm apart (λ j c.
              ground (arith, same j, lookup-append j heap s.skipped, lookup-stamps ts j store)),
          length-Selected (length store - max_entries) (stamps ts store) heap s
              (omega (arith, size)),
        );
        kept = λ k v q. ground (arith, at k);
        oldest = λ k j v w stays was gone. ground (
          arith,
          at k,
          at j,
          same k,
          same j,
          lookup-stamps ts k store,
          lookup-stamps ts j store,
          lookup-append k heap s.skipped,
          lookup-append j heap s.skipped,
          AtLeast-lookup (stamp_at heap 0) s.skipped k (ts v) s.oldest,
          AtMost-lookup (stamp_at heap 0) heap j (ts w) below,
        );
      }

  -- In a store with distinct keys, the eviction leaves as many entries as there were, or `max_entries`
  -- if that is less; each is as it was, and no entry that is dropped is newer than one that is kept.
  pub evict_oldest_entries-Evicts :
      (store : HashMap K V) (max_entries : ℕ) (ts : V → ℕ)
      → IsMap store
      → Evicts store max_entries ts (evict_oldest_entries store max_entries ts)
  unfolding evict_oldest_entries
  evict_oldest_entries-Evicts store max_entries ts hm =
      elim (Bool-cases (ltb 0 (length store - max_entries))) [
        | inl over ↦ rw over (
            remove_all-Evicts store max_entries ts _ hm (ground arith)
              (select-Selected _ (stamps ts store) (ground arith)))
        | inr fits ↦ rw fits (record {
          is_map = hm;
          size = ground arith;
          kept = λ k v q. q;
          oldest = λ k j v w stays was gone. cc;
        })
      ]

  -- A store within the limit is left as it is.
  pub evict_oldest_entries_fits :
      (store : HashMap K V) (max_entries : ℕ) (ts : V → ℕ)
      → length store ≤ max_entries
      → evict_oldest_entries store max_entries ts ≡ store
  unfolding evict_oldest_entries
  evict_oldest_entries_fits store max_entries ts fits = ground arith

  -- Evicting brings no entry in.
  pub evict_oldest_entries-none :
      (store : HashMap K V) (max_entries : ℕ) (ts : V → ℕ) (k : K)
      → IsMap store
      → lookup k store ≡ none
      → lookup k (evict_oldest_entries store max_entries ts) ≡ none
  evict_oldest_entries-none store max_entries ts k m q =
      let ev = evict_oldest_entries-Evicts store max_entries ts m in
      elim (Option-cases (lookup k (evict_oldest_entries store max_entries ts))) [
        | inl gone ↦ gone
        | inr (v, stays) ↦ ground (arith, ev.kept k v)
      ]

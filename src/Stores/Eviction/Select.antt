-- ===== src/Stores/Eviction/Select.antt =====
-- The loop of `evict_oldest_entries` in backend/src/stores.rs over a heap of entries.
use mathlib.Core.List.{Permᴰ}
use tldr_tv.Prelude.{
  ℕ, suc, ◌-◌, ◌≤◌, ◌<◌, ◌≡◌, refl, ◌∙◌, ap, sym, inl, inr, append-nil, append_assoc, List, [], ◌∷◌,
  ◌++◌, arith, Bool-cases, ltb, length, length-append, length-set, set, All,
}
use tldr_tv.Stores.Eviction.{Heap, stamp_at, parent, sift_up, sift_down, offer, select}
use tldr_tv.Stores.Eviction.Array.{Permᴰ-refl, stamp_at-set, stamp_at-append}
use tldr_tv.Stores.Eviction.Sift.{IsHeap, Rising, Sinking, sift_up_lem, sift_down_lem, root_newest}

module _ {K : Type 0} where
  pub length-permᴰ : {a b : Heap K} → Permᴰ a b → length a ≡ length b
  length-permᴰ Permᴰ.nil = refl
  length-permᴰ (Permᴰ.cons _ p) = ap suc (length-permᴰ p)
  length-permᴰ (Permᴰ.swap _ _) = refl
  length-permᴰ (Permᴰ.trans p q) = length-permᴰ p ∙ length-permᴰ q

  pub append-permᴰ : {a b : Heap K} (r : Heap K) → Permᴰ a b → Permᴰ (a ++ r) (b ++ r)
  append-permᴰ r Permᴰ.nil = Permᴰ-refl r
  append-permᴰ r (Permᴰ.cons e p) = Permᴰ.cons e (append-permᴰ r p)
  append-permᴰ r (Permᴰ.swap {l = l} e f) = Permᴰ.swap e f
  append-permᴰ r (Permᴰ.trans p q) = Permᴰ.trans (append-permᴰ r p) (append-permᴰ r q)

  pub middle-permᴰ : (a : Heap K) (x : K × ℕ) (b : Heap K) → Permᴰ (a ++ x ∷ b) (x ∷ a ++ b)
  middle-permᴰ [] x b = Permᴰ-refl (x ∷ b)
  middle-permᴰ (y ∷ a) x b =
      Permᴰ.trans (Permᴰ.cons refl (middle-permᴰ a x b)) (Permᴰ.swap refl refl)

  Permᴰ-symm : {a b : Heap K} → Permᴰ a b → Permᴰ b a
  Permᴰ-symm Permᴰ.nil = Permᴰ.nil
  Permᴰ-symm (Permᴰ.cons e p) = Permᴰ.cons (sym e) (Permᴰ-symm p)
  Permᴰ-symm (Permᴰ.swap e f) = Permᴰ.swap (sym f) (sym e)
  Permᴰ-symm (Permᴰ.trans p q) = Permᴰ.trans (Permᴰ-symm q) (Permᴰ-symm p)

  -- Every entry of the list is at most, or at least, as new as `t`.
  abbrev pub AtMost : ℕ → Heap K → Type 0
  AtMost t = All (λ p. p.1 ≤ t)

  abbrev pub AtLeast : ℕ → Heap K → Type 0
  AtLeast t = All (λ p. t ≤ p.1)

  AtMost-perm : (t : ℕ) {a b : Heap K} → Permᴰ a b → AtMost t b → AtMost t a
  AtMost-perm t Permᴰ.nil h = tt
  AtMost-perm t (Permᴰ.cons e p) h = (rw e h.0, AtMost-perm t p h.1)
  AtMost-perm t (Permᴰ.swap e f) h = (rw e h.1.0, (rw f h.0, h.1.1))
  AtMost-perm t (Permᴰ.trans p q) h = AtMost-perm t p (AtMost-perm t q h)

  pub AtMost-of_stamps :
      (t : ℕ) (h : Heap K) → ((i : ℕ) → i < length h → stamp_at h i ≤ t) → AtMost t h
  AtMost-of_stamps t [] f = tt
  AtMost-of_stamps t (x ∷ h) f =
      (f 0 (omega arith), AtMost-of_stamps t h λ i l. f (suc i) (omega arith))

  AtLeast-mono : (s t : ℕ) (h : Heap K) → s ≤ t → AtLeast t h → AtLeast s h
  AtLeast-mono s t [] le h = tt
  AtLeast-mono s t (x ∷ r) le h = (omega (arith, h.0), AtLeast-mono s t r le h.1)

  -- `heap` holds the oldest of the entries `seen`, at most `count` of them.
  pub record Selected (count : ℕ) (seen heap : Heap K) : Type 0 where
    pub skipped : List (K × ℕ)
    pub splits : Permᴰ (heap ++ skipped) seen
    pub ordered : IsHeap heap
    pub bounded : length heap ≤ count
    pub filled : length heap < count → skipped ≡ []
    pub oldest : AtLeast (stamp_at heap 0) skipped

  push-Rising : (heap : Heap K) (p : K × ℕ) → IsHeap heap → Rising (heap ++ p ∷ []) (length heap)
  push-Rising heap p h =
      let size = length-append heap (p ∷ []) in
      record {
        inside = omega (arith, size);
        edges = λ c q r ne. ground (
          arith,
          size,
          h c,
          stamp_at-append heap (p ∷ []) c,
          stamp_at-append heap (p ∷ []) (parent c),
        );
        bridged = λ c q r e pos. absurd (omega (arith, size));
      }

  replace-Sinking :
      (heap : Heap K) (p : K × ℕ) → 0 < length heap → IsHeap heap → Sinking (set heap 0 p) 0
  replace-Sinking heap p pos h =
      let at = λ (j : ℕ). stamp_at-set heap 0 j p pos in
      record {
        edges = λ c q r ne. ground (arith, length-set heap 0 p, h c, at c, at (parent c));
        bridged = λ c q r e z. absurd (omega arith);
      }

  AtMost-stamp_at : (t : ℕ) (h : Heap K) → AtMost t h → stamp_at h 0 ≤ t
  AtMost-stamp_at t [] a = omega arith
  AtMost-stamp_at t (x ∷ h) a = a.0

  -- A heap with room takes the entry.
  push-Selected :
      (count : ℕ) (seen heap : Heap K) (p : K × ℕ)
      → length heap < count
      → Selected count seen heap
      → Selected count (p ∷ seen) (sift_up (heap ++ p ∷ []) (length heap))
  push-Selected count seen heap p room s =
      let (ordered, perm) = sift_up_lem _ (length heap) (push-Rising heap p s.ordered) in
      let same = rw (s.filled room) at s.splits in
      let all = append-permᴰ [] perm in
      let step : Permᴰ ((heap ++ p ∷ []) ++ []) (p ∷ (heap ++ [])) =
        rw append_assoc (middle-permᴰ heap p []) in
      record {
        skipped = [];
        splits = Permᴰ.trans all (Permᴰ.trans step (Permᴰ.cons refl same));
        ordered = ordered;
        bounded = omega (arith, length-permᴰ perm, length-append heap (p ∷ []));
        filled = λ _. refl;
        oldest = tt;
      }

  -- An older entry takes the place of the root.
  replace-Selected :
      (count : ℕ) (seen heap : Heap K) (p : K × ℕ)
      → 0 < length heap
      → count ≤ length heap
      → p.1 < stamp_at heap 0
      → Selected count seen heap
      → Selected count (p ∷ seen) (sift_down (set heap 0 p) 0)
  replace-Selected count seen [] p pos full older s = absurd (omega arith)
  replace-Selected count seen (q ∷ r) p pos full older s =
      let (ordered, perm) = sift_down_lem _ 0 (replace-Sinking (q ∷ r) p pos s.ordered) in
      let all = AtMost-of_stamps q.1 (q ∷ r) (root_newest (q ∷ r) s.ordered) in
      let below = AtMost-perm q.1 perm (omega (arith, older), all.1) in
      record {
        skipped = q ∷ s.skipped;
        splits = Permᴰ.trans (append-permᴰ (q ∷ s.skipped) perm) (
            Permᴰ.trans (middle-permᴰ (p ∷ r) q s.skipped)
              (Permᴰ.trans (Permᴰ.swap refl refl) (Permᴰ.cons refl s.splits)));
        ordered = ordered;
        bounded = omega (arith, length-permᴰ perm, s.bounded);
        filled = λ h. absurd (omega (arith, length-permᴰ perm));
        oldest = (
          AtMost-stamp_at q.1 _ below,
          AtLeast-mono _ q.1 s.skipped (AtMost-stamp_at q.1 _ below) s.oldest,
        );
      }

  -- A newer entry is skipped.
  skip-Selected :
      (count : ℕ) (seen heap : Heap K) (p : K × ℕ)
      → count ≤ length heap
      → stamp_at heap 0 ≤ p.1
      → Selected count seen heap
      → Selected count (p ∷ seen) heap
  skip-Selected count seen heap p full newer s = record {
    skipped = p ∷ s.skipped;
    splits = Permᴰ.trans (middle-permᴰ heap p s.skipped) (Permᴰ.cons refl s.splits);
    ordered = s.ordered;
    bounded = s.bounded;
    filled = λ h. absurd (omega arith);
    oldest = (newer, s.oldest);
  }

  offer-Selected :
      (count : ℕ) (seen heap : Heap K) (p : K × ℕ)
      → 0 < count
      → Selected count seen heap
      → Selected count (p ∷ seen) (offer count heap p)
  unfolding offer
  offer-Selected count seen heap (k, ts) pos s = elim (Bool-cases (ltb (length heap) count)) [
    | inl room ↦
        let last : length (heap ++ (k, ts) ∷ []) - 1 ≡ length heap =
          omega (arith, length-append heap ((k, ts) ∷ [])) in
        rw (room, last) (push-Selected count seen heap (k, ts) (ground arith) s)
    | inr full ↦ elim (Bool-cases (ltb ts (stamp_at heap 0))) [
      | inl older ↦
          rw (full, older)
            (replace-Selected count seen heap (k, ts) (ground arith) (ground arith) (ground arith)
              s)
      | inr newer ↦
          rw (full, newer) (skip-Selected count seen heap (k, ts) (ground arith) (ground arith) s)
    ]
  ]

  select-Selected_from :
      (count : ℕ) (ps seen heap : Heap K)
      → 0 < count
      → Selected count seen heap
      → (all : Heap K) × Permᴰ all (seen ++ ps) × Selected count all (select count heap ps)
  unfolding select
  select-Selected_from count [] seen heap pos s = (seen, rw append-nil (Permᴰ-refl seen), s)
  select-Selected_from count (p ∷ ps) seen heap pos s =
      let (all, perm, done) =
        select-Selected_from count ps (p ∷ seen) (offer count heap p) pos
          (offer-Selected count seen heap p pos s) in
      (all, Permᴰ.trans perm (Permᴰ-symm (middle-permᴰ seen p ps)), done)

  -- The heap that the loop over the store ends with holds the oldest entries of the store.
  pub select-Selected :
      (count : ℕ) (ps : Heap K) → 0 < count → Selected count ps (select count [] ps)
  select-Selected count ps pos =
      let (all, perm, s) = select-Selected_from count ps [] [] pos (record {
        skipped = [];
        splits = Permᴰ.nil;
        ordered = λ c p q. absurd (omega arith);
        bounded = omega arith;
        filled = λ _. refl;
        oldest = tt;
      }) in
      record {
        skipped = s.skipped;
        splits = Permᴰ.trans s.splits perm;
        ordered = s.ordered;
        bounded = s.bounded;
        filled = s.filled;
        oldest = s.oldest;
      }

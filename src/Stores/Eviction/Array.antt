-- ===== src/Stores/Eviction/Array.antt =====
-- Heaps as arrays: reads after writes, and what permutes the entries.
use mathlib.Core.List.{Permᴰ}
use tldr_tv.Prelude.{
  ℕ, zero, suc, ◌<◌, ◌≡◌, ◌∙◌, refl, Option, none, some, [], ◌∷◌, ◌++◌, arith, if◌then◌else◌,
  nat_beq, length, length-set, get_elem?, set,
}
use tldr_tv.Stores.Eviction.{Heap, stamp_at, swap_in, swap}

module _ {K : Type 0} where
  pub Permᴰ-refl : (h : Heap K) → Permᴰ h h
  Permᴰ-refl [] = Permᴰ.nil
  Permᴰ-refl (x ∷ h) = Permᴰ.cons refl (Permᴰ-refl h)

  pub get_elem?_lt : (h : Heap K) (i : ℕ) → i < length h → (p : K × ℕ) × (get_elem? h i ≡ some p)
  get_elem?_lt [] i l = absurd (omega arith)
  get_elem?_lt (x ∷ h) zero l = (x, refl)
  get_elem?_lt (x ∷ h) (suc i) l = get_elem?_lt h i (omega arith)

  pub stamp_at-set :
      (h : Heap K) (i j : ℕ) (p : K × ℕ)
      → i < length h
      → stamp_at (set h i p) j ≡ (if nat_beq i j then p.1 else stamp_at h j)
  stamp_at-set [] i j p l = absurd (omega arith)
  stamp_at-set (x ∷ h) zero zero p l = refl
  stamp_at-set (x ∷ h) (suc i) (suc j) p l = ground (arith, stamp_at-set h i j p)
  stamp_at-set (x ∷ h) i j p l = ground arith

  pub stamp_at-append : (h r : Heap K) (i : ℕ) → i < length h → stamp_at (h ++ r) i ≡ stamp_at h i
  stamp_at-append [] r i l = absurd (omega arith)
  stamp_at-append (x ∷ h) r zero l = refl
  stamp_at-append (x ∷ h) r (suc i) l = stamp_at-append h r i (omega arith)

  pub set-perm :
      (h : Heap K) (i : ℕ) (p q : K × ℕ) → get_elem? h i ≡ some p → Permᴰ (p ∷ set h i q) (q ∷ h)
  set-perm [] i p q g = cc
  set-perm (x ∷ h) zero p q g = Permᴰ.swap (cc) refl
  set-perm (x ∷ h) (suc i) p q g =
      Permᴰ.trans (Permᴰ.swap refl refl)
        (Permᴰ.trans (Permᴰ.cons refl (set-perm h i p q g)) (Permᴰ.swap refl refl))

  length-swap_in :
      (h : Heap K) (i j : ℕ) (a b : Option (K × ℕ)) → length (swap_in h i j a b) ≡ length h
  length-swap_in h i j (some p) (some q) = length-set (set h i q) j p ∙ length-set h i q
  length-swap_in h i j (some p) none = refl
  length-swap_in h i j none b = refl

  pub length-swap : (h : Heap K) (i j : ℕ) → length (swap h i j) ≡ length h
  unfolding swap
  length-swap h i j = length-swap_in h i j (get_elem? h i) (get_elem? h j)

  -- Two crossed writes permute the entries.
  set_set-perm :
      (h : Heap K) (i j : ℕ) (p q : K × ℕ)
      → get_elem? h i ≡ some p
      → get_elem? h j ≡ some q
      → Permᴰ (set (set h i q) j p) h
  set_set-perm [] i j p q gi gj = cc
  set_set-perm (x ∷ h) zero zero p q gi gj = Permᴰ.cons (cc) (Permᴰ-refl h)
  set_set-perm (x ∷ h) zero (suc j) p q gi gj =
      Permᴰ.trans (set-perm h j q p gj) (Permᴰ.cons (cc) (Permᴰ-refl h))
  set_set-perm (x ∷ h) (suc i) zero p q gi gj =
      Permᴰ.trans (set-perm h i p q gi) (Permᴰ.cons (cc) (Permᴰ-refl h))
  set_set-perm (x ∷ h) (suc i) (suc j) p q gi gj = Permᴰ.cons refl (set_set-perm h i j p q gi gj)

  module _ (h : Heap K) (i j : ℕ) (hi : i < length h) (hj : j < length h) where
    pub swap-perm : Permᴰ (swap h i j) h
    unfolding swap
    swap-perm =
        let (p, gi) = get_elem?_lt h i hi in
        let (q, gj) = get_elem?_lt h j hj in rw (gi, gj) (set_set-perm h i j p q gi gj)

    pub stamp_at-swap :
        (c : ℕ)
        → stamp_at (swap h i j) c ≡ (
            if nat_beq j c
            then stamp_at h i
            else if nat_beq i c
            then stamp_at h j
            else stamp_at h c)
    unfolding swap
    stamp_at-swap c =
        let (p, gi) = get_elem?_lt h i hi in
        let (q, gj) = get_elem?_lt h j hj in
        rw (gi, gj)
          (ground (arith, stamp_at-set (set h i q) j c p, stamp_at-set h i c q, length-set h i q))

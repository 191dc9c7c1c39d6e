-- ===== src/HashMap/Permute.antt =====
-- Maps that are put together or listed in another order.
use mathlib.Core.List.{Permᴰ}
use mathlib.Core.Path.{subst₂}
use tldr_tv.Prelude.{◌≡◌, refl, ◌∙◌, sym, none, some, [], ◌∷◌, ◌++◌, arith, Eq, ==_iff}
use tldr_tv.HashMap.{HashMap, IsMap, lookup}

module _ {K V : Type 0} ⦃e : Eq K⦄ where
  pub lookup-append :
      (k : K) (a b : HashMap K V)
      → lookup k (a ++ b) ≡ elim (lookup k a) [ none ↦ lookup k b | some v ↦ some v ]
  unfolding lookup
  lookup-append k [] b = refl
  lookup-append k ((j, w) ∷ a) b = ground (arith, lookup-append k a b)

  pub IsMap-append :
      (a b : HashMap K V)
      → IsMap (a ++ b)
      → IsMap a × ((k : K) (v : V) → lookup k a ≡ some v → lookup k b ≡ none)
  unfolding lookup
  IsMap-append [] b h = (tt, λ k v q. cc)
  IsMap-append ((j, w) ∷ a) b h =
      let (left, apart) = IsMap-append a b h.1 in
      (
        (ground (arith, lookup-append j a b, h.0), left),
        λ k v q.
            ground (arith, ==_iff j k, apart k v, lookup-append k a b, lookup-append j a b, h.0),
      )

  lookup-swap :
      (k j : K) (v w : V) (l : HashMap K V)
      → IsMap ((j, w) ∷ (k, v) ∷ l)
      → IsMap ((k, v) ∷ (j, w) ∷ l)
        × ((i : K) → lookup i ((k, v) ∷ (j, w) ∷ l) ≡ lookup i ((j, w) ∷ (k, v) ∷ l))
  unfolding lookup
  lookup-swap k j v w l h = (
    ground (arith, ==_iff j k, ==_iff k j),
    λ i. ground (arith, ==_iff j k, ==_iff k j, ==_iff k i, ==_iff j i),
  )

  pub lookup-permᴰ :
      {a b : HashMap K V} → Permᴰ a b → IsMap b → IsMap a × ((k : K) → lookup k a ≡ lookup k b)
  unfolding lookup
  lookup-permᴰ Permᴰ.nil h = (tt, λ k. refl)
  lookup-permᴰ (Permᴰ.cons {b = (k, v)} q p) h =
      let (left, same) = lookup-permᴰ p h.1 in
      rw q ((same k ∙ h.0, left), λ i. ground (arith, same i))
  lookup-permᴰ (Permᴰ.swap {a' = (j, w)} {b' = (k, v)} {l = l} q r) h =
      subst₂
        (λ x y.
          IsMap (x ∷ y ∷ l) × ((i : K) → lookup i (x ∷ y ∷ l) ≡ lookup i ((j, w) ∷ (k, v) ∷ l)))
        (sym q) (sym r) (lookup-swap k j v w l h)
  lookup-permᴰ (Permᴰ.trans p q) h =
      let (mid, same) = lookup-permᴰ q h in
      let (left, again) = lookup-permᴰ p mid in (left, λ k. again k ∙ same k)

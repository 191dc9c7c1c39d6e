-- ===== src/HashMap.antt =====
-- `std::collections::HashMap` as the list of its entries in the order of iteration. The order is
-- whatever the list says: nothing below chooses one, and the theorems hold for every order.
pub mod Permute
use tldr_tv.Prelude.{
  ◌+◌, ◌-◌, ◌≤◌, ◌≡◌, refl, Bool, true, false, Option, none, some, List, [], ◌∷◌, arith,
  if◌then◌else◌, Eq, ◌==◌, ==_iff, length,
}

abbrev pub HashMap : Type 0 → Type 0 → Type 0
HashMap K V = List (K × V)

module _ {K V : Type 0} ⦃e : Eq K⦄ where
  -- `get`
  unfoldable pub lookup : K → HashMap K V → Option V
  lookup sought [] = none
  lookup sought ((k, v) ∷ rest) = if k == sought then some v else lookup sought rest

  unfoldable pub contains_key : K → HashMap K V → Bool
  unfolding lookup
  contains_key k m = elim (lookup k m) [ none ↦ false | some v ↦ true ]

  unfoldable pub insert : K → V → HashMap K V → HashMap K V
  insert new value [] = (new, value) ∷ []
  insert new value ((k, v) ∷ rest) =
      if k == new then (new, value) ∷ rest else (k, v) ∷ insert new value rest

  unfoldable pub remove : K → HashMap K V → HashMap K V
  remove old [] = []
  remove old ((k, v) ∷ rest) = if k == old then rest else (k, v) ∷ remove old rest

  -- `retain`, on the values
  unfoldable pub retain : (V → Bool) → HashMap K V → HashMap K V
  retain p [] = []
  retain p ((j, w) ∷ m) = if p w then (j, w) ∷ retain p m else retain p m

  -- No key stands twice.
  abbrev pub IsMap : HashMap K V → Type 0
  IsMap [] = Unit
  IsMap ((k, v) ∷ m) = (lookup k m ≡ none) × IsMap m

  pub lookup-insert :
      (new sought : K) (value : V) (m : HashMap K V)
      → lookup sought (insert new value m) ≡ (if new == sought then some value else lookup sought m)
  unfolding insert lookup
  lookup-insert new sought value [] = refl
  lookup-insert new sought value ((k, v) ∷ rest) =
      ground (
        arith,
        ==_iff k new,
        ==_iff k sought,
        ==_iff new sought,
        lookup-insert new sought value rest,
      )

  pub lookup-remove :
      (k j : K) (m : HashMap K V)
      → IsMap m
      → lookup j (remove k m) ≡ (if k == j then none else lookup j m)
  unfolding lookup remove
  lookup-remove k j [] h = ground arith
  lookup-remove k j ((i, w) ∷ m) h =
      ground (arith, ==_iff i k, ==_iff i j, ==_iff k j, lookup-remove k j m h.1)

  pub lookup-retain :
      (p : V → Bool) (j : K) (m : HashMap K V)
      → IsMap m
      → lookup j (retain p m)
        ≡ elim (lookup j m) [ none ↦ none | some v ↦ if p v then some v else none ]
  unfolding lookup retain
  lookup-retain p j [] h = refl
  lookup-retain p j ((i, w) ∷ m) h = ground (arith, ==_iff i j, lookup-retain p j m h.1)

  pub insert-IsMap : (k : K) (v : V) (m : HashMap K V) → IsMap m → IsMap (insert k v m)
  unfolding lookup insert
  insert-IsMap k v [] h = (refl, tt)
  insert-IsMap k v ((i, w) ∷ m) h =
      ground (arith, ==_iff i k, ==_iff k i, lookup-insert k i v m, insert-IsMap k v m h.1)

  pub remove-IsMap : (k : K) (m : HashMap K V) → IsMap m → IsMap (remove k m)
  unfolding lookup remove
  remove-IsMap k [] h = tt
  remove-IsMap k ((i, w) ∷ m) h =
      ground (arith, ==_iff k i, lookup-remove k i m h.1, remove-IsMap k m h.1)

  pub retain-IsMap : (p : V → Bool) (m : HashMap K V) → IsMap m → IsMap (retain p m)
  unfolding lookup retain
  retain-IsMap p [] h = tt
  retain-IsMap p ((i, w) ∷ m) h = ground (arith, lookup-retain p i m h.1, retain-IsMap p m h.1)

  pub length-insert :
      (k : K) (v : V) (m : HashMap K V)
      → length (insert k v m) ≡ (if contains_key k m then length m else length m + 1)
  unfolding contains_key insert
  length-insert k v [] = refl
  length-insert k v ((i, w) ∷ m) = ground (arith, length-insert k v m)

  pub length-remove :
      (k : K) (m : HashMap K V)
      → length (remove k m) ≡ (if contains_key k m then length m - 1 else length m)
  unfolding contains_key remove
  length-remove k [] = refl
  length-remove k ((i, w) ∷ []) = ground arith
  length-remove k ((i, w) ∷ (p ∷ m)) = ground (arith, length-remove k (p ∷ m))

  pub length-retain-le : (p : V → Bool) (m : HashMap K V) → length (retain p m) ≤ length m
  unfolding retain
  length-retain-le p [] = omega arith
  length-retain-le p ((i, w) ∷ m) = ground (arith, length-retain-le p m)

  pub contains_key-false : (k : K) (m : HashMap K V) → contains_key k m ≡ false → lookup k m ≡ none
  unfolding contains_key
  contains_key-false k m h = ground arith

-- ===== src/Assoc.antt =====
-- `std::unordered_map` with string keys, as an association list. The program looks up, inserts,
-- assigns and erases; the order of entries is observed by no property.
use occase.Base.{
  ◌≡◌, refl, List, [], ◌∷◌, Option, none, some, Str, str_eq, str_eq_iff, arith, if◌then◌else◌,
  maybe,
}

module _ {ℓ} {V : Type ℓ} where
  -- `find`
  unfoldable pub lookup : Str → List (Str × V) → Option V
  lookup k [] = none
  lookup k ((j, v) ∷ m) = if str_eq j k then some v else lookup k m

  -- `m[k] = v`
  pub assign : Str → V → List (Str × V) → List (Str × V)
  assign k v [] = (k, v) ∷ []
  assign k v ((j, w) ∷ m) = if str_eq j k then (k, v) ∷ m else (j, w) ∷ assign k v m

  -- `erase`
  pub erase : Str → List (Str × V) → List (Str × V)
  erase k [] = []
  erase k ((j, v) ∷ m) = let rest = erase k m in if str_eq j k then rest else (j, v) ∷ rest

  -- `insert` keeps the entry that is there.
  unfoldable pub insert : Str → V → List (Str × V) → List (Str × V)
  insert k v m = maybe (lookup k m) (assign k v m) (λ w. m)

  pub lookup-assign :
      (k j : Str) (v : V) (m : List (Str × V))
      → lookup j (assign k v m) ≡ (if str_eq k j then some v else lookup j m)
  unfolding lookup assign
  lookup-assign k j v [] = refl
  lookup-assign k j v ((i, w) ∷ m) =
      ground (arith, str_eq_iff k j, str_eq_iff i k, str_eq_iff i j, lookup-assign k j v m)

  pub lookup-erase :
      (k j : Str) (m : List (Str × V))
      → lookup j (erase k m) ≡ (if str_eq k j then none else lookup j m)
  unfolding lookup erase
  lookup-erase k j [] = ground arith
  lookup-erase k j ((i, w) ∷ m) =
      ground (arith, str_eq_iff k j, str_eq_iff i k, str_eq_iff i j, lookup-erase k j m)

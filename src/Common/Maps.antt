-- ===== src/Common/Maps.antt =====
-- Maps with text keys: `HashMap` as an association list with its entries in insertion order, and
-- `BTreeMap` as one sorted by key.
use Prim.Native.Nat.{Ordering}
use Prim.Native.String.{String, compare}
use mathlib.Core.Path.{◌≡◌, refl, subst}
use mathlib.Core.List.{List, [], ◌∷◌}
use mathlib.Core.Option.{Option, none, some}
use native.Mathlib.Omega.{arith}
use text.Mathlib.TextEquality.{eq_iff, path_by_compare}
use mathlib.Core.Logic.{inl, inr}
use apisnap.Common.Tests.{str_eq, if◌then◌else◌, Bool-cases}
use apisnap.Common.Lists.{for_each, append-eq-nil}

abbrev pub Dict {ℓ} : Type ℓ → Type ℓ
Dict V = List (String × V)

module _ {ℓ} {V : Type ℓ} where
  abbrev pub lookup : String → Dict V → Option V
  lookup k [] = none
  lookup k ((j, v) ∷ m) = if str_eq j k then some v else lookup k m

  abbrev pub keys : Dict V → List String
  keys [] = []
  keys ((k, v) ∷ m) = k ∷ keys m

  -- `map.insert(k, v)`: a key that is there keeps its place and takes the new value.
  unfoldable pub insert : String → V → Dict V → Dict V
  insert k v [] = (k, v) ∷ []
  insert k v ((j, w) ∷ m) = if str_eq j k then (j, v) ∷ m else (j, w) ∷ insert k v m

  -- `map.remove(k)`
  unfoldable pub erase : String → Dict V → Dict V
  erase k [] = []
  erase k ((j, w) ∷ m) = let rest = erase k m in if str_eq j k then rest else (j, w) ∷ rest

  -- `BTreeMap::insert`
  unfoldable pub btree_insert : String → V → Dict V → Dict V
  btree_insert k v [] = (k, v) ∷ []
  btree_insert k v ((j, w) ∷ m) =
      let rest = btree_insert k v m in
      elim (compare k j) [
        | Ordering.lt ↦ (k, v) ∷ (j, w) ∷ m
        | Ordering.eq ↦ (j, v) ∷ m
        | Ordering.gt ↦ (j, w) ∷ rest
      ]

  pub lookup-insert :
      (k j : String) (v : V) (m : Dict V)
      → lookup j (insert k v m) ≡ (if str_eq k j then some v else lookup j m)
  unfolding insert
  lookup-insert k j v [] = refl
  lookup-insert k j v ((i, w) ∷ m) =
      ground (arith, eq_iff k j, eq_iff i k, eq_iff i j, lookup-insert k j v m)

  pub lookup-erase :
      (k j : String) (m : Dict V) → lookup j (erase k m) ≡ (if str_eq k j then none else lookup j m)
  unfolding erase
  lookup-erase k j [] = ground arith
  lookup-erase k j ((i, w) ∷ m) =
      ground (arith, eq_iff k j, eq_iff i k, eq_iff i j, lookup-erase k j m)

  pub lookup-btree_insert :
      (k j : String) (v : V) (m : Dict V)
      → lookup j (btree_insert k v m) ≡ (if str_eq k j then some v else lookup j m)
  unfolding btree_insert
  lookup-btree_insert k j v [] = refl
  lookup-btree_insert k j v ((i, w) ∷ m) =
      ground (arith, path_by_compare k i, eq_iff k j, eq_iff i j, lookup-btree_insert k j v m)

-- No key has two entries, as in a map.
abbrev pub Distinct : {V : Type 0} → Dict V → Type 0
Distinct [] = Unit
Distinct ((k, v) ∷ m) = (lookup k m ≡ none) × Distinct m

module _ {ℓ κ} {V : Type ℓ} {B : Type κ} where
  -- What a loop over the keys of a map pushes for a key that is there.
  pub for_each-keys-eq-nil :
      (m : Dict V) (f : String → List B) (k : String) (v : V)
      → for_each (keys m) f ≡ []
      → lookup k m ≡ some v
      → f k ≡ []
  for_each-keys-eq-nil [] f k v h e = cc
  for_each-keys-eq-nil ((j, w) ∷ m) f k v h e =
      let both = append-eq-nil (f j) (for_each (keys m) f) h in
      elim (Bool-cases (str_eq j k)) [
        | inl same ↦ subst (λ x. f x ≡ []) ((eq_iff j k).0 same) both.0
        | inr differ ↦ for_each-keys-eq-nil m f k v both.1 (ground (arith, e))
      ]

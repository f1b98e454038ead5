-- ===== src/Fuzz/Mutator/Visits.antt =====
-- The recursion over a body reaches every place of it, however deep.
use apisnap.Common.{
  ℕ, zero, suc, ◌+◌, ◌≡◌, refl, sym, ap, subst, subst₂, ◌∙◌, inl, inr, String, some, List, [], ◌∷◌,
  ℤ, In, In-append_left, In-append_right, map, keys, lookup, get_elem?, str_eq, eq_iff, arith,
  at_index, Option-cases, Bool-cases,
}
use apisnap.Json.{Value, array, object, Items, nil, cons, Fields, end, field, items, entries}
use apisnap.Fuzz.Paths.{PathSeg, key, index, key_path, child_path}
use apisnap.Fuzz.Paths.Print.{path_below}
use apisnap.Fuzz.Edit.Lens.{child_at, at_path, at_path_step}
use apisnap.Fuzz.Mutator.{
  MutationCase, mutate_recursive, mutate_items, mutate_fields, generate_mutations,
}
use apisnap.Fuzz.Mutator.{missing_keys, null_keys}

pub In-map : {A B : Type 0} (f : A → B) (x : A) (xs : List A) → In x xs → In (f x) (map f xs)
In-map f x [] h = absurd h
In-map f x (y ∷ xs) (inl e) = inl (ap f e)
In-map f x (y ∷ xs) (inr h) = inr (In-map f x xs h)

pub In-map_cases :
    {A B : Type 0} (f : A → B) (y : B) (xs : List A)
    → In y (map f xs)
    → (x : A) × In x xs × (f x ≡ y)
In-map_cases f y [] h = absurd h
In-map_cases f y (x ∷ xs) (inl e) = (x, inl refl, sym e)
In-map_cases f y (x ∷ xs) (inr h) = let (z, listed, e) = In-map_cases f y xs h in (z, inr listed, e)

module _ {N : Type 0} (from_i64 : ℤ → N) (root : Value N) where
  mutate_fields_visits :
      (fs : Fields N) (k path : String) (v : Value N) (c : MutationCase N)
      → lookup k (entries fs) ≡ some v
      → In c (mutate_recursive from_i64 root v (key_path path k))
      → In c (mutate_fields from_i64 root fs path)
  unfolding mutate_recursive
  mutate_fields_visits end k path v c h m = cc
  mutate_fields_visits (field j u fs) k path v c h m = elim (Bool-cases (str_eq j k)) [
    | inl same ↦
        In-append_left c (mutate_recursive from_i64 root u (key_path path j))
          (mutate_fields from_i64 root fs path)
          (subst₂ (λ x y. In c (mutate_recursive from_i64 root x (key_path path y)))
            (sym (ground (arith, same, h))) (sym ((eq_iff j k).0 same)) m)
    | inr other ↦
        In-append_right c (mutate_recursive from_i64 root u (key_path path j))
          (mutate_fields from_i64 root fs path)
          (mutate_fields_visits fs k path v c (ground (arith, other, h)) m)
  ]

  mutate_items_visits :
      (vs : Items N) (n i : ℕ) (path : String) (v : Value N) (c : MutationCase N)
      → get_elem? (items vs) i ≡ some v
      → In c (mutate_recursive from_i64 root v (at_index path (n + i)))
      → In c (mutate_items from_i64 root vs n path)
  unfolding mutate_recursive
  mutate_items_visits nil n i path v c h m = cc
  mutate_items_visits (cons u vs) n zero path v c h m =
      In-append_left c (mutate_recursive from_i64 root u (at_index path n))
        (mutate_items from_i64 root vs (suc n) path)
        (subst₂ (λ x y. In c (mutate_recursive from_i64 root x (at_index path y)))
          (ground (arith, h)) (omega arith) m)
  mutate_items_visits (cons u vs) n (suc i) path v c h m =
      In-append_right c (mutate_recursive from_i64 root u (at_index path n))
        (mutate_items from_i64 root vs (suc n) path)
        (mutate_items_visits vs (suc n) i path v c h
          (subst (λ y. In c (mutate_recursive from_i64 root v (at_index path y))) (omega arith) m))

  mutate_child_visits :
      (s : PathSeg) (path : String) (v u : Value N) (c : MutationCase N)
      → child_at s v ≡ some u
      → In c (mutate_recursive from_i64 root u (child_path path s))
      → In c (mutate_recursive from_i64 root v path)
  unfolding mutate_recursive
  mutate_child_visits (key k) path (object fs) u c e there =
      In-append_right c (missing_keys from_i64 root path (keys (entries fs))) _ (
        In-append_right c (null_keys from_i64 root path (keys (entries fs))) _
          (mutate_fields_visits fs k path u c e there))
  mutate_child_visits (index i) path (array vs) u c e there = inr (
      mutate_items_visits vs 0 i path u c e (
        subst (λ y. In c (mutate_recursive from_i64 root u (at_index path y))) (omega arith) there))
  mutate_child_visits (key k) path (array vs) u c e there = cc
  mutate_child_visits (index i) path (object fs) u c e there = cc
  mutate_child_visits _ path _ u c e there = cc

  -- The recursion reaches every place.
  mutate_recursive_visits :
      (p : List PathSeg) (path : String) (v w : Value N) (c : MutationCase N)
      → at_path p v ≡ some w
      → In c (mutate_recursive from_i64 root w (path_below path p))
      → In c (mutate_recursive from_i64 root v path)
  unfolding mutate_recursive at_path
  mutate_recursive_visits [] path v w c h m =
      subst (λ x. In c (mutate_recursive from_i64 root x path)) (sym (ground (arith, h))) m
  mutate_recursive_visits (s ∷ p) path v w c h m = elim (Option-cases (child_at s v)) [
    | inl missing ↦ absurd (ground (arith, missing, h))
    | inr (u, e) ↦
        mutate_child_visits s path v u c e
          (mutate_recursive_visits p (child_path path s) u w c (sym (at_path_step s p v u e) ∙ h) m)
  ]

  -- A case of the body itself is a case of the whole run.
  pub generate_mutations_visits :
      (p : List PathSeg) (w : Value N) (c : MutationCase N)
      → at_path p root ≡ some w
      → In c (mutate_recursive from_i64 root w (path_below "$" p))
      → In c (generate_mutations from_i64 root)
  unfolding generate_mutations
  generate_mutations_visits p w c h m = inr (inr (mutate_recursive_visits p "$" root w c h m))

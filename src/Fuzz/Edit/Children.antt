-- ===== src/Fuzz/Edit/Children.antt =====
-- The edits of one object or array: what each does to its children. A removal moves the last entry,
-- which no lookup tells where the keys are distinct, as those of a map are.
use apisnap.Common.{
  Distinct, ℕ, zero, suc, ◌≡◌, ◌≢◌, refl, ap, String, none, some, List, [], ◌∷◌, Dict, lookup,
  insert, lookup-insert, get_elem?, str_eq, eq_iff, eq_refl, arith, if◌then◌else◌,
}
use apisnap.Json.{
  entries-from_entries, items-from_list, Value, array, object, Fields, entries, items,
}
use apisnap.Fuzz.Paths.{PathSeg, key, index}
use apisnap.Fuzz.Edit.{update_index, last_first, swap_remove, put_child, remove_child}
use apisnap.Fuzz.Edit.Lens.{child_at, get-update_index_other}

module _ {A : Type 0} where
  lookup-last_first :
      (k : String) (v : A) (m : Dict A) (j : String)
      → Distinct ((k, v) ∷ m)
      → lookup j (last_first (k, v) m) ≡ lookup j ((k, v) ∷ m)
  lookup-last_first k v [] j h = refl
  lookup-last_first k v ((i, w) ∷ m) j (fresh, distinct) =
      go (last_first (i, w) m) (λ x. lookup-last_first i w m x distinct)
    where
      go :
          (l : Dict A)
          → ((x : String) → lookup x l ≡ lookup x ((i, w) ∷ m))
          → lookup j (elim l [ [] ↦ [] | e ∷ rest ↦ e ∷ (k, v) ∷ rest ])
            ≡ lookup j ((k, v) ∷ (i, w) ∷ m)
      go [] same = absurd (ground (arith, eq_refl i, same i))
      go ((x, u) ∷ rest) same =
          ground (arith, same j, same k, fresh, eq_iff x j, eq_iff k j, eq_iff x k)

  lookup-swap_remove :
      (k j : String) (m : Dict A)
      → Distinct m
      → lookup j (swap_remove k m) ≡ (if str_eq k j then none else lookup j m)
  lookup-swap_remove k j [] h = ground arith
  lookup-swap_remove k j ((i, v) ∷ []) h = ground (arith, eq_iff i k, eq_iff i j, eq_iff k j)
  lookup-swap_remove k j ((i, v) ∷ (x, w) ∷ m) (fresh, distinct) = ground (
    arith,
    eq_iff i k,
    eq_iff i j,
    eq_iff k j,
    eq_iff x k,
    eq_iff x j,
    fresh,
    lookup-swap_remove k j ((x, w) ∷ m) distinct,
    lookup-last_first x w m j distinct,
  )

module _ {A : Type 0} where
  get-update_index_set :
      (i : ℕ) (r w : A) (vs : List A)
      → get_elem? vs i ≡ some w
      → get_elem? (update_index i (λ _. r) vs) i ≡ some r
  get-update_index_set i r w [] h = cc
  get-update_index_set zero r w (v ∷ vs) h = refl
  get-update_index_set (suc i) r w (v ∷ vs) h = get-update_index_set i r w vs h

module _ {N : Type 0} where
  pub child_at-put_child :
      (s : PathSeg) (r o w : Value N)
      → child_at s o ≡ some w
      → child_at s (put_child s r o) ≡ some r
  unfolding put_child
  child_at-put_child (key k) r (object fs) w h =
      rw (entries-from_entries (insert k r (entries fs)))
        (ground (arith, eq_refl k, lookup-insert k k r (entries fs)))
  child_at-put_child (index i) r (array vs) w h =
      rw (items-from_list (update_index i (λ _. r) (items vs)))
        (get-update_index_set i r w (items vs) h)
  child_at-put_child (key k) r (array vs) w h = cc
  child_at-put_child (index i) r (object fs) w h = cc
  child_at-put_child _ r _ w h = cc

  pub child_at-put_child_other :
      (s : PathSeg) (r o : Value N) (t : PathSeg)
      → s ≢ t
      → child_at t (put_child s r o) ≡ child_at t o
  unfolding put_child
  child_at-put_child_other (key k) r (object fs) (key j) h =
      rw (entries-from_entries (insert k r (entries fs)))
        (ground (arith, eq_iff k j, lookup-insert k j r (entries fs), different))
    where
      different : k ≢ j
      different e = h (ap key e)
  child_at-put_child_other (index i) r (array vs) (index j) h =
      rw (items-from_list (update_index i (λ _. r) (items vs)))
        (get-update_index_other i j (λ _. r) (items vs) (λ e. h (ap index e)))
  child_at-put_child_other (key k) r (object fs) (index j) h = refl
  child_at-put_child_other (index i) r (array vs) (key j) h = refl
  child_at-put_child_other (key k) r (array vs) t h = refl
  child_at-put_child_other (index i) r (object fs) t h = refl
  child_at-put_child_other _ r _ t h = refl

  pub child_at-remove_child :
      (k : String) (fs : Fields N)
      → Distinct (entries fs)
      → child_at (key k) (remove_child (key k) (object fs)) ≡ none
  unfolding remove_child
  child_at-remove_child k fs h =
      rw (entries-from_entries (swap_remove k (entries fs)))
        (ground (arith, eq_refl k, lookup-swap_remove k k (entries fs) h))

  pub child_at-remove_child_other :
      (k : String) (fs : Fields N) (t : PathSeg)
      → Distinct (entries fs)
      → key k ≢ t
      → child_at t (remove_child (key k) (object fs)) ≡ child_at t (object fs)
  unfolding remove_child
  child_at-remove_child_other k fs (key j) distinct h =
      rw (entries-from_entries (swap_remove k (entries fs)))
        (ground (arith, eq_iff k j, lookup-swap_remove k j (entries fs) distinct, different))
    where
      different : k ≢ j
      different e = h (ap key e)
  child_at-remove_child_other k fs (index j) distinct h = refl

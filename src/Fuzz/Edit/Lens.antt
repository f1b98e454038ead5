-- ===== src/Fuzz/Edit/Lens.antt =====
-- What stands at a path after an edit, and what the edit leaves alone.
use apisnap.Common.{
  ℕ, zero, suc, ◌≡◌, ◌≢◌, ◌⊎◌, refl, ap, ◌∙◌, inl, inr, String, Option, none, some, List, [], ◌∷◌,
  ◌++◌, Dict, lookup, get_elem?, ◌==◌, str_eq, eq_iff, eq_refl, arith, Option-cases, Bool-cases,
  if◌then◌else◌,
}
use apisnap.Json.{entries-from_entries, items-from_list, Value, array, object, entries, items}
use apisnap.Fuzz.Paths.{PathSeg, key, index}
use apisnap.Fuzz.Edit.{update_key, update_index, step_down, edit_at}

module _ {N : Type 0} where
  -- `root[k1][i2]…`, where it is there.
  abbrev pub child_at : PathSeg → Value N → Option (Value N)
  child_at (key k) (object fs) = lookup k (entries fs)
  child_at (index i) (array vs) = get_elem? (items vs) i
  child_at _ _ = none

  unfoldable pub at_path : List PathSeg → Value N → Option (Value N)
  at_path [] v = some v
  at_path (s ∷ segments) v = elim (child_at s v) [ none ↦ none | some w ↦ at_path segments w ]

-- The paths part: at some place they go to different children of one value.
abbrev pub Diverge : List PathSeg → List PathSeg → Type 0
Diverge (s ∷ p) (t ∷ q) = (s ≢ t) ⊎ Diverge p q
Diverge _ _ = ⊥

same_segment : (s t : PathSeg) → (s ≡ t) ⊎ (s ≢ t)
same_segment (key k) (key j) = elim (Bool-cases (str_eq k j)) [
  | inl same ↦ inl (ap key ((eq_iff k j).0 same))
  | inr other ↦ inr (λ e. ground (arith, other, eq_iff k j, e))
]
same_segment (index i) (index j) = elim (Bool-cases (i == j)) [
  | inl same ↦ inl (ap index (ground (arith, same)))
  | inr other ↦ inr (λ e. ground (arith, other, e))
]
same_segment (key k) (index j) = inr (λ e. cc)
same_segment (index i) (key j) = inr (λ e. cc)

module _ {A : Type 0} where
  funext : {B : Type 0} (f g : A → B) → ((x : A) → f x ≡ g x) → f ≡ g
  funext f g h = λ i x. h x i

  map_some : (A → A) → Option A → Option A
  map_some f none = none
  map_some f (some v) = some (f v)

  lookup-update_key :
      (k j : String) (f : A → A) (m : Dict A)
      → lookup j (update_key k f m) ≡ (if str_eq k j then map_some f (lookup j m) else lookup j m)
  unfolding map_some
  lookup-update_key k j f [] = ground arith
  lookup-update_key k j f ((i, v) ∷ m) =
      ground (arith, eq_iff k j, eq_iff i k, eq_iff i j, lookup-update_key k j f m)

  get-update_index :
      (i : ℕ) (f : A → A) (vs : List A)
      → get_elem? (update_index i f vs) i ≡ map_some f (get_elem? vs i)
  unfolding map_some
  get-update_index i f [] = refl
  get-update_index zero f (v ∷ vs) = refl
  get-update_index (suc i) f (v ∷ vs) = get-update_index i f vs

  pub get-update_index_other :
      (i j : ℕ) (f : A → A) (vs : List A)
      → i ≢ j
      → get_elem? (update_index i f vs) j ≡ get_elem? vs j
  get-update_index_other i j f [] h = refl
  get-update_index_other zero zero f (v ∷ vs) h = absurd (h refl)
  get-update_index_other zero (suc j) f (v ∷ vs) h = refl
  get-update_index_other (suc i) zero f (v ∷ vs) h = refl
  get-update_index_other (suc i) (suc j) f (v ∷ vs) h =
      get-update_index_other i j f vs (λ e. h (ap suc e))

module _ {N : Type 0} where
  child_at-step_down :
      (s : PathSeg) (f : Value N → Value N) (v : Value N)
      → child_at s (step_down s f v) ≡ map_some f (child_at s v)
  unfolding step_down map_some
  child_at-step_down (key k) f (object fs) =
      rw (entries-from_entries (update_key k f (entries fs)))
        (ground (arith, eq_refl k, lookup-update_key k k f (entries fs)))
  child_at-step_down (index i) f (array vs) =
      rw (items-from_list (update_index i f (items vs))) (get-update_index i f (items vs))
  child_at-step_down _ f _ = refl

  child_at-step_down_other :
      (s t : PathSeg) (f : Value N → Value N) (v : Value N)
      → s ≢ t
      → child_at t (step_down s f v) ≡ child_at t v
  unfolding step_down
  child_at-step_down_other (key k) (key j) f (object fs) h =
      rw (entries-from_entries (update_key k f (entries fs)))
        (ground (arith, eq_iff k j, lookup-update_key k j f (entries fs), different))
    where
      different : k ≢ j
      different e = h (ap key e)
  child_at-step_down_other (index i) (index j) f (array vs) h =
      rw (items-from_list (update_index i f (items vs)))
        (get-update_index_other i j f (items vs) (λ e. h (ap index e)))
  child_at-step_down_other (key k) (index j) f (object fs) h = refl
  child_at-step_down_other (index i) (key j) f (array vs) h = refl
  child_at-step_down_other _ _ f _ h = refl

  -- The edit of the child `last` of what stands at `path`.
  pub edit_below : (PathSeg → Value N → Value N) → List PathSeg → PathSeg → Value N → Value N
  edit_below edit [] last v = edit last v
  edit_below edit (s ∷ path) last v = step_down s (edit_below edit path last) v

  -- It is what the loop of the code does on the whole path.
  pub edit_at_lem :
      (edit : PathSeg → Value N → Value N) (path : List PathSeg) (last : PathSeg)
      (v other : Value N)
      → (elim (path ++ last ∷ []) [ [] ↦ other | s ∷ segments ↦ edit_at edit s segments v ])
        ≡ edit_below edit path last v
  unfolding edit_at edit_below
  edit_at_lem edit [] last v other = refl
  edit_at_lem edit (s ∷ []) last v other = refl
  edit_at_lem edit (s ∷ t ∷ path) last v other =
      ap (λ f. step_down s f v)
        (funext (λ w. edit_at edit t (path ++ last ∷ []) w) (edit_below edit (t ∷ path) last)
          (λ w. edit_at_lem edit (t ∷ path) last w other))

  -- What stands at the place of the edit is what the edit made of what stood above.
  pub at_path-edit_below :
      (edit : PathSeg → Value N → Value N) (path below : List PathSeg) (last : PathSeg)
      (v o : Value N)
      → at_path path v ≡ some o
      → at_path (path ++ below) (edit_below edit path last v) ≡ at_path below (edit last o)
  unfolding at_path edit_below map_some
  at_path-edit_below edit [] below last v o h = ground (arith, h)
  at_path-edit_below edit (s ∷ path) below last v o h = elim (Option-cases (child_at s v)) [
    | inl missing ↦ absurd (ground (arith, missing, h))
    | inr (w, e) ↦ ground (
      arith,
      e,
      child_at-step_down s (edit_below edit path last) v,
      at_path-edit_below edit path below last w o (ground (arith, e, h)),
    )
  ]

  pub at_path_step :
      (s : PathSeg) (path : List PathSeg) (v w : Value N)
      → child_at s v ≡ some w
      → at_path (s ∷ path) v ≡ at_path path w
  unfolding at_path
  at_path_step s path v w e = ground (arith, e)

  -- Where the edit changes nothing but the child `last`, nothing changes but at that path and below.
  pub at_path-edit_below_other :
      (edit : PathSeg → Value N → Value N) (path q : List PathSeg) (last : PathSeg) (v : Value N)
      → ((o : Value N) (t : PathSeg)
          → at_path path v ≡ some o
          → last ≢ t
          → child_at t (edit last o) ≡ child_at t o)
      → Diverge (path ++ last ∷ []) q
      → at_path q (edit_below edit path last v) ≡ at_path q v
  unfolding at_path edit_below map_some
  at_path-edit_below_other edit [] [] last v h d = absurd d
  at_path-edit_below_other edit [] (t ∷ q) last v h (inl differ) = ground (arith, h v t refl differ)
  at_path-edit_below_other edit [] (t ∷ q) last v h (inr d) = absurd d
  at_path-edit_below_other edit (s ∷ path) [] last v h d = absurd d
  at_path-edit_below_other edit (s ∷ path) (t ∷ q) last v h (inl differ) =
      ground (arith, child_at-step_down_other s t (edit_below edit path last) v differ)
  at_path-edit_below_other edit (s ∷ path) (t ∷ q) last v h (inr d) = elim (same_segment s t) [
    | inr differ ↦ ground (arith, child_at-step_down_other s t (edit_below edit path last) v differ)
    | inl same ↦ elim (Option-cases (child_at s v)) [
      | inl missing ↦
          ground (arith, same, missing, child_at-step_down s (edit_below edit path last) v)
      | inr (w, e) ↦ ground (
        arith,
        same,
        e,
        child_at-step_down s (edit_below edit path last) v,
        at_path-edit_below_other edit path q last w
            (λ o u there. h o u (at_path_step s path v w e ∙ there)) d,
      )
    ]
  ]

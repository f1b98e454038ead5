-- ===== src/Fuzz/Edit.antt =====
-- src/fuzz/mutator.rs: a value is put, or taken away, at a path. The loop that moves `current` down the
-- tree is the recursion on the segments.
pub mod Lens
pub mod Children
use apisnap.Common.{
  ℕ, zero, suc, String, Bool, true, false, Option, none, some, List, [], ◌∷◌, Dict, insert, str_eq,
  ltb, length, if◌then◌else◌,
}
use apisnap.Json.{
  Value, null, bool, number, string, array, object, Fields, Items, entries, items, from_entries,
  from_list,
}
use apisnap.Fuzz.Paths.{PathSeg, key, index, parse_json_path}

module _ {A : Type 0} where
  -- `map.get_mut(k)`, with what is then done to it; nothing is done where it is missing.
  abbrev pub update_key : String → (A → A) → Dict A → Dict A
  update_key k f [] = []
  update_key k f ((j, v) ∷ m) = if str_eq j k then (j, f v) ∷ m else (j, v) ∷ update_key k f m

  -- `arr.get_mut(idx)`, likewise; and `arr[idx] = ..` in bounds.
  abbrev pub update_index : ℕ → (A → A) → List A → List A
  update_index i f [] = []
  update_index zero f (v ∷ vs) = f v ∷ vs
  update_index (suc i) f (v ∷ vs) = v ∷ update_index i f vs

  abbrev pub remove_index : ℕ → List A → List A
  remove_index i [] = []
  remove_index zero (v ∷ vs) = vs
  remove_index (suc i) (v ∷ vs) = v ∷ remove_index i vs

  -- The last entry goes to the front of the others.
  abbrev pub last_first : String × A → Dict A → Dict A
  last_first e [] = e ∷ []
  last_first e (f ∷ m) = elim (last_first f m) [ [] ↦ [] | l ∷ rest ↦ l ∷ e ∷ rest ]

  -- `map.remove(k)`: with the feature `preserve_order` the last entry takes the removed one's place.
  abbrev pub swap_remove : String → Dict A → Dict A
  swap_remove k [] = []
  swap_remove k ((j, v) ∷ m) =
      if str_eq j k
      then elim m [ [] ↦ [] | e ∷ rest ↦ last_first e rest ]
      else (j, v) ∷ swap_remove k m

module _ {N : Type 0} where
  -- What is done to the object or array above the last segment.
  unfoldable pub put_child : PathSeg → Value N → Value N → Value N
  unfolding insert
  put_child (key k) replacement (object fs) =
      object (from_entries (insert k replacement (entries fs)))
  put_child (index idx) replacement (array vs) =
      array (from_list (update_index idx (λ _. replacement) (items vs)))
  put_child _ replacement current = current

  unfoldable pub remove_child : PathSeg → Value N → Value N
  remove_child (key k) (object fs) = object (from_entries (swap_remove k (entries fs)))
  remove_child (index idx) (array vs) = array (from_list (remove_index idx (items vs)))
  remove_child _ current = current

  -- A step down, where there is a child.
  unfoldable pub step_down : PathSeg → (Value N → Value N) → Value N → Value N
  step_down (key k) f (object fs) = object (from_entries (update_key k f (entries fs)))
  step_down (index idx) f (array vs) = array (from_list (update_index idx f (items vs)))
  step_down _ f current = current

  unfoldable pub edit_at :
      (PathSeg → Value N → Value N) → PathSeg → List PathSeg → Value N → Value N
  unfolding step_down
  edit_at edit seg [] current = edit seg current
  edit_at edit seg (next ∷ segments) current = step_down seg (edit_at edit next segments) current

  unfoldable pub replace_path_in_ast : Value N → String → Value N → Value N
  unfolding parse_json_path edit_at put_child
  replace_path_in_ast root path replacement = elim (parse_json_path path) [
    | [] ↦ replacement
    | seg ∷ segments ↦ edit_at (λ s. put_child s replacement) seg segments root
  ]

  unfoldable pub remove_path_in_ast : Value N → String → Value N
  unfolding parse_json_path edit_at remove_child
  remove_path_in_ast root path = elim (parse_json_path path) [
    | [] ↦ root
    | seg ∷ segments ↦ edit_at remove_child seg segments root
  ]

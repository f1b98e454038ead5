-- ===== src/Engine/Differ/Sound.antt =====
-- The differ finds no difference only between trees that are the same.
use apisnap.Common.{
  at_index, ℕ, zero, suc, ◌≡◌, subst, ◌↔◌, inl, inr, String, true, false, none, some, List, [], ◌∷◌,
  Dict, lookup, keys, length, for_each, for_each-keys-eq-nil, append-eq-nil, ltb, str_eq, ◌<>◌,
  arith, eq_iff, Bool-cases, Option-cases, if◌then◌else◌, ◌==◌,
}
use apisnap.Json.{Numbers, Value, null, bool, number, string, array, object, Items, items, entries}
use apisnap.Engine.Differ.{
  DiffKind, DiffOptions, array_mode, normalized, value_type_name, removed_at, added_at, common_at,
  diff_objects, diff_pairs, diff_ordered, diff_variants, diff_recursive,
}
use apisnap.Engine.Differ.Same.{
  Same, same_null, same_bool, same_string, same_number, same_array, same_set, same_object,
  SamePairs, pairs_nil, pairs_cons, SameAll, all_nil, all_cons,
}
use apisnap.Engine.Differ.Claims.{mode_cases, NoDiffs, diff_array_as_set-eq-nil}

module _ (J : Numbers) (nfc : String → String) (options : DiffOptions J.F64)
    (rec : Value J.Number → Value J.Number → String → List (DiffKind J.Number))
    (ih : (v w : Value J.Number) (path : String)
      → rec v w path ≡ []
      → Same J nfc options v w path) where
  open J use {Number}

  NoDiffs-SameAll :
      (path : String) (es ws : List (Value Number))
      → NoDiffs rec path es ws
      → SameAll J nfc options es ws path
  NoDiffs-SameAll path [] [] h = all_nil
  NoDiffs-SameAll path [] (w ∷ ws) h = absurd h
  NoDiffs-SameAll path (e ∷ es) [] h = absurd h
  NoDiffs-SameAll path (e ∷ es) (w ∷ ws) (h, hs) =
      all_cons (ih e w path h) (NoDiffs-SameAll path es ws hs)

  diff_pairs-SamePairs :
      (path : String) (i : ℕ) (es ws : List (Value Number))
      → length es ≡ length ws
      → diff_pairs rec path i es ws ≡ []
      → SamePairs J nfc options i es ws path
  unfolding diff_pairs
  diff_pairs-SamePairs path i [] [] l h = pairs_nil
  diff_pairs-SamePairs path i [] (w ∷ ws) l h = absurd (omega arith)
  diff_pairs-SamePairs path i (e ∷ es) [] l h = absurd (omega arith)
  diff_pairs-SamePairs path i (e ∷ es) (w ∷ ws) l h =
      let (first, rest) = append-eq-nil (rec e w (at_index path i)) _ h in
      pairs_cons (ih e w (at_index path i) first)
        (diff_pairs-SamePairs path (suc i) es ws (omega arith) rest)

  diff_ordered-SamePairs :
      (path : String) (es ws : List (Value Number))
      → diff_ordered rec path es ws ≡ []
      → SamePairs J nfc options zero es ws path
  unfolding diff_ordered
  diff_ordered-SamePairs path es ws h =
      let (lengths, more) = append-eq-nil (if length es == length ws then [] else _) _ h in
      let (pairs, _) = append-eq-nil (diff_pairs rec path 0 es ws) _ more in
      diff_pairs-SamePairs path 0 es ws (ground (arith, lengths)) pairs

  diff_objects-SameKeys :
      (path : String) (e a : Dict (Value Number))
      → diff_objects rec path e a ≡ []
      → (key : String) → (lookup key e ≡ none) ↔ (lookup key a ≡ none)
  unfolding diff_objects removed_at added_at
  diff_objects-SameKeys path e a h key =
      let (removals, more) = append-eq-nil (for_each (keys e) (removed_at path e a)) _ h in
      let (additions, _) = append-eq-nil (for_each (keys a) (added_at path e a)) _ more in
      (
        λ gone. elim (Option-cases (lookup key a)) [
          | inl missing ↦ missing
          | inr (v, there) ↦ absurd (
              ground (
                arith,
                for_each-keys-eq-nil a (added_at path e a) key v additions there,
                gone,
                there,
              ))
        ],
        λ gone. elim (Option-cases (lookup key e)) [
          | inl missing ↦ missing
          | inr (v, there) ↦ absurd (
              ground (
                arith,
                for_each-keys-eq-nil e (removed_at path e a) key v removals there,
                gone,
                there,
              ))
        ],
      )

  diff_objects-Same :
      (path : String) (e a : Dict (Value Number))
      → diff_objects rec path e a ≡ []
      → (key : String) (v w : Value Number) → lookup key e ≡ some v
      → lookup key a ≡ some w
      → Same J nfc options v w (path <> "." <> key)
  unfolding diff_objects common_at
  diff_objects-Same path e a h key v w hv hw =
      let (removals, more) = append-eq-nil (for_each (keys e) (removed_at path e a)) _ h in
      let (additions, common) = append-eq-nil (for_each (keys a) (added_at path e a)) _ more in
      ih v w (path <> "." <> key)
        (ground (arith, for_each-keys-eq-nil e (common_at rec path e a) key v common hv, hv, hw))

  arrays-Same :
      (path : String) (vs ws : Items Number)
      → diff_variants J nfc options rec (array vs) (array ws) path ≡ []
      → Same J nfc options (array vs) (array ws) path
  unfolding diff_variants
  arrays-Same path vs ws h = elim (mode_cases (array_mode options path)) [
    | inl in_order ↦
        same_array in_order
          (diff_ordered-SamePairs path (items vs) (items ws) (ground (arith, h, in_order)))
    | inr as_set ↦
        let (chosen, all, p) =
          diff_array_as_set-eq-nil rec path (items vs) (items ws) (ground (arith, h, as_set)) in
        same_set chosen as_set p (NoDiffs-SameAll path (items vs) chosen all)
  ]

  diff_variants-Same :
      (v w : Value Number) (path : String)
      → str_eq (value_type_name v) (value_type_name w) ≡ true
      → diff_variants J nfc options rec v w path ≡ []
      → Same J nfc options v w path
  unfolding diff_variants value_type_name
  diff_variants-Same null null path t h = same_null
  diff_variants-Same (bool true) (bool true) path t h = same_bool
  diff_variants-Same (bool false) (bool false) path t h = same_bool
  diff_variants-Same (number m) (number n) path t h = same_number (ground (arith, h))
  diff_variants-Same (string r) (string s) path t h =
      subst (λ x. Same J nfc options (string r) (string x) path) (ground (arith, h, eq_iff r s))
        same_string
  diff_variants-Same (array vs) (array ws) path t h = arrays-Same path vs ws h
  diff_variants-Same (object vs) (object ws) path t h =
      same_object
        (diff_objects-SameKeys path (normalized nfc options.normalize_unicode_keys (entries vs))
          (normalized nfc options.normalize_unicode_keys (entries ws)) h)
        (diff_objects-Same path (normalized nfc options.normalize_unicode_keys (entries vs))
          (normalized nfc options.normalize_unicode_keys (entries ws)) h)
  diff_variants-Same (bool _) (bool _) path t h = absurd (cc h)
  diff_variants-Same _ _ path t h = absurd (cc t)

module _ (J : Numbers) (nfc : String → String) (options : DiffOptions J.F64) where
  open J use {Number}

  -- Whatever the fuel and the depth at which it starts, the recursion reports nothing only for
  -- trees that are the same.
  pub diff_recursive-Same :
      (fuel depth : ℕ) (v w : Value Number) (path : String)
      → diff_recursive J nfc options fuel depth v w path ≡ []
      → Same J nfc options v w path
  unfolding diff_recursive
  diff_recursive-Same zero depth v w path h = absurd (cc h)
  diff_recursive-Same (suc fuel) depth v w path h =
      elim (Bool-cases (ltb options.max_depth depth)) [
        | inl deep ↦ absurd (ground (arith, h, deep))
        | inr fine ↦ elim (Bool-cases (str_eq (value_type_name v) (value_type_name w))) [
          | inl t ↦
              diff_variants-Same J nfc options (diff_recursive J nfc options fuel (suc depth))
                (λ x y p. diff_recursive-Same fuel (suc depth) x y p) v w path t
                (ground (arith, h, fine, t))
          | inr f ↦ absurd (ground (arith, h, fine, f))
        ]
      ]

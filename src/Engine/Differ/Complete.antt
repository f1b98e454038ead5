-- ===== src/Engine/Differ/Complete.antt =====
-- Trees that are the same are reported as such: any two where no array is compared as a set, and a
-- tree and itself in every mode.
use mathlib.Core.Option.{some-injective}
use apisnap.Common.{
  at_index, ℕ, zero, suc, ◌+◌, ◌≤◌, ◌<◌, ◌≡◌, ◌↔◌, ◌⊎◌, refl, sym, ap, subst, inl, inr, ◌∙◌, String,
  Bool, true, false, ◌&&◌, List, [], ◌∷◌, length, All, ◌<>◌, arith, eq_iff, eq_refl, le→ltb_false,
  Bool-cases,
}
use apisnap.Json.{
  Numbers, Value, null, bool, number, string, array, object, items, entries, nesting, nesting_items,
  nesting_fields,
}
use apisnap.Config.{ordered}
use apisnap.Engine.Differ.{
  DiffKind, DiffOptions, array_mode, numbers_match, normalized, value_type_name, diff_pairs,
  diff_ordered, diff_variants, diff_recursive, compare_json_ast,
}
use apisnap.Engine.Differ.Same.{
  Same, same_null, same_bool, same_string, same_number, same_array, same_set, same_object,
  SamePairs, pairs_nil, pairs_cons,
}
use apisnap.Engine.Differ.Claims.{mode_cases}
use apisnap.Engine.Differ.Sound.{diff_recursive-Same}
use apisnap.Engine.Differ.Depth.{items-AtMost, normalized-AtMost}
use apisnap.Engine.Differ.Alike.{
  diff_objects-eq-nil, diff_array_as_set_self, diff_ordered_self, All-map,
}

module _ (J : Numbers) (nfc : String → String) (options : DiffOptions J.F64) where
  open J use {Number}

  variants_self :
      (rec : Value Number → Value Number → String → List (DiffKind Number)) (n : ℕ)
      → ((x : Number) → numbers_match J options.float_epsilon x x ≡ true)
      → ((v : Value Number) (p : String) → nesting v < n → rec v v p ≡ [])
      → (v : Value Number) (path : String) → nesting v ≤ n
      → diff_variants J nfc options rec v v path ≡ []
  unfolding diff_variants nesting
  variants_self rec n numbers ih null path h = refl
  variants_self rec n numbers ih (bool true) path h = refl
  variants_self rec n numbers ih (bool false) path h = refl
  variants_self rec n numbers ih (number x) path h = rw (numbers x)
  variants_self rec n numbers ih (string s) path h = rw (eq_refl s)
  variants_self rec n numbers ih (array vs) path h =
      let below = items-AtMost (nesting_items vs) vs (omega arith) in
      elim (mode_cases (array_mode options path)) [
        | inl in_order ↦
            rw (in_order, diff_variants)
              (diff_ordered_self rec path (items vs)
                (λ p. All-map (items vs) (λ v b. ih v p (omega arith)) below))
        | inr as_set ↦
            rw (as_set, diff_variants)
              (diff_array_as_set_self rec path (items vs)
                (All-map (items vs) (λ v b. ih v path (omega arith)) below))
      ]
  variants_self rec n numbers ih (object fs) path h =
      let m = normalized nfc options.normalize_unicode_keys (entries fs) in
      diff_objects-eq-nil rec path m m (λ key. (λ e. e, λ e. e))
        (λ key v w hv hw.
          subst (λ x. rec v x (path <> "." <> key) ≡ []) (some-injective v w (sym hv ∙ hw))
            (ih v (path <> "." <> key) (
              omega (
                arith,
                normalized-AtMost nfc options.normalize_unicode_keys (nesting_fields fs) fs
                    (omega arith) key v hv,
              ))))

  diff_recursive_self :
      (n depth : ℕ)
      → ((x : Number) → numbers_match J options.float_epsilon x x ≡ true)
      → n + depth ≤ options.max_depth
      → (v : Value Number) (path : String) → nesting v ≤ n
      → diff_recursive J nfc options (suc n) depth v v path ≡ []
  unfolding diff_recursive
  diff_recursive_self zero depth numbers room v path h =
      rw (le→ltb_false options.max_depth depth (omega arith), eq_refl (value_type_name v))
        (variants_self (diff_recursive J nfc options zero (suc depth)) zero numbers
          (λ x p below. absurd (omega arith)) v path h)
  diff_recursive_self (suc n) depth numbers room v path h =
      rw (le→ltb_false options.max_depth depth (omega arith), eq_refl (value_type_name v))
        (variants_self (diff_recursive J nfc options (suc n) (suc depth)) (suc n) numbers
          (λ x p below. diff_recursive_self n (suc depth) numbers (omega arith) x p (omega arith)) v
          path h)

  SamePairs-diff :
      (rec : Value Number → Value Number → String → List (DiffKind Number)) (n : ℕ)
      → ((v w : Value Number) (p : String)
          → nesting v < n
          → Same J nfc options v w p
          → rec v w p ≡ [])
      → (i : ℕ) (vs ws : List (Value Number)) (path : String) → All (λ v. nesting v < n) vs
      → SamePairs J nfc options i vs ws path
      → (diff_pairs rec path i vs ws ≡ []) × (length vs ≡ length ws)
  unfolding diff_pairs
  SamePairs-diff rec n ih i _ _ path h pairs_nil = (refl, refl)
  SamePairs-diff rec n ih i (v ∷ vs) (w ∷ ws) path h (pairs_cons s ss) =
      let (rest, same_length) = SamePairs-diff rec n ih (suc i) vs ws path h.1 ss in
      (rw (ih v w (at_index path i) h.0 s, rest), ap suc same_length)

  -- One node of trees that are the same, where arrays are compared in order.
  variants-Same :
      (rec : Value Number → Value Number → String → List (DiffKind Number)) (n : ℕ)
      → ((p : String) → array_mode options p ≡ ordered)
      → ((v w : Value Number) (p : String)
          → nesting v < n
          → Same J nfc options v w p
          → rec v w p ≡ [])
      → (v w : Value Number) (path : String) → nesting v ≤ n
      → Same J nfc options v w path
      → (diff_variants J nfc options rec v w path ≡ []) × (value_type_name v ≡ value_type_name w)
  unfolding diff_variants nesting value_type_name
  variants-Same rec n modes ih _ _ path h same_null = (refl, refl)
  variants-Same rec n modes ih (bool true) _ path h same_bool = (refl, refl)
  variants-Same rec n modes ih (bool false) _ path h same_bool = (refl, refl)
  variants-Same rec n modes ih _ _ path h (same_string {s = s}) = (rw (eq_refl s), refl)
  variants-Same rec n modes ih _ _ path h (same_number e) = (rw e, refl)
  variants-Same rec n modes ih (array vs) (array ws) path h (same_array m pairs) =
      let below = items-AtMost (nesting_items vs) vs (omega arith) in
      let (none_in_pairs, same_length) =
        SamePairs-diff rec n ih zero (items vs) (items ws) path
          (All-map (items vs) (λ v b. omega arith) below) pairs in
      (
        rw (m, diff_variants) (unfold diff_ordered in ground (arith, none_in_pairs, same_length)),
        refl,
      )
  variants-Same rec n modes ih (array vs) (array ws) path h (same_set chosen m p all) =
      absurd (cc (modes path, m))
  variants-Same rec n modes ih (object vs) (object ws) path h (same_object same_keys same) = (
    diff_objects-eq-nil rec path _ _ same_keys (λ key v w hv hw.
        ih v w (path <> "." <> key)
          (omega (
            arith,
            normalized-AtMost nfc options.normalize_unicode_keys (nesting_fields vs) vs
                (omega arith) key v hv,
          ))
          (same key v w hv hw)),
    refl,
  )

  Same-diff_recursive :
      (n depth : ℕ)
      → ((p : String) → array_mode options p ≡ ordered)
      → n + depth ≤ options.max_depth
      → (v w : Value Number) (path : String) → nesting v ≤ n
      → Same J nfc options v w path
      → diff_recursive J nfc options (suc n) depth v w path ≡ []
  unfolding diff_recursive
  Same-diff_recursive zero depth modes room v w path h s =
      let (none_found, type) =
        variants-Same (diff_recursive J nfc options zero (suc depth)) zero modes
          (λ x y p below _. absurd (omega arith)) v w path h s in
      rw (le→ltb_false options.max_depth depth (omega arith), (eq_iff _ _).1 type) none_found
  Same-diff_recursive (suc n) depth modes room v w path h s =
      let (none_found, type) =
        variants-Same (diff_recursive J nfc options (suc n) (suc depth)) (suc n) modes
          (λ x y p below t.
            Same-diff_recursive n (suc depth) modes (omega arith) x y p (omega arith) t)
          v w path h s in
      rw (le→ltb_false options.max_depth depth (omega arith), (eq_iff _ _).1 type) none_found

  module _ (value_eq : Value Number → Value Number → Bool) where
    -- Whatever the options, arrays compared as sets included, and whatever the crate's `==` of
    -- trees: the comparison reports nothing only for trees that `==` accepts with the bypass on, or
    -- that are the same.
    pub compare_json_ast_sound :
        (v w : Value Number)
        → compare_json_ast J nfc options value_eq v w ≡ []
        → (((options.fast_hash_bypass && value_eq v w) ≡ true) ⊎ Same J nfc options v w "$")
    unfolding compare_json_ast
    compare_json_ast_sound v w h = elim (Bool-cases (options.fast_hash_bypass && value_eq v w)) [
      | inl equal ↦ inl equal
      | inr differ ↦
          inr (diff_recursive-Same J nfc options (suc options.max_depth) 0 v w "$" (rw differ at h))
    ]

    -- With every array compared in order, and an expected tree nested no deeper than `max_depth`,
    -- the comparison reports nothing exactly when `==` accepts the trees with the bypass on, or
    -- they are the same.
    pub compare_json_ast-eq-nil_iff :
        (v w : Value Number)
        → ((p : String) → array_mode options p ≡ ordered)
        → nesting v ≤ options.max_depth
        → (compare_json_ast J nfc options value_eq v w ≡ [])
          ↔ (((options.fast_hash_bypass && value_eq v w) ≡ true) ⊎ Same J nfc options v w "$")
    unfolding compare_json_ast
    compare_json_ast-eq-nil_iff v w modes h = (
      compare_json_ast_sound v w,
      λ either. elim (Bool-cases (options.fast_hash_bypass && value_eq v w)) [
        | inl equal ↦ rw equal
        | inr differ ↦ rw differ (elim either [
          | inl equal ↦ absurd (cc (equal, differ))
          | inr s ↦ Same-diff_recursive options.max_depth 0 modes (omega arith) v w "$" h s
        ])
      ],
    )

    -- A response that did not change passes under all options, array modes included, if numbers
    -- match themselves and the tree is nested no deeper than `max_depth`.
    pub compare_json_ast_self :
        (v : Value Number)
        → ((x : Number) → numbers_match J options.float_epsilon x x ≡ true)
        → nesting v ≤ options.max_depth
        → compare_json_ast J nfc options value_eq v v ≡ []
    unfolding compare_json_ast
    compare_json_ast_self v numbers h =
        elim (Bool-cases (options.fast_hash_bypass && value_eq v v)) [
          | inl equal ↦ rw equal
          | inr differ ↦
              rw differ (diff_recursive_self options.max_depth 0 numbers (omega arith) v "$" h)
        ]

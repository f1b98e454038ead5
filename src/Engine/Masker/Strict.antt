-- ===== src/Engine/Masker/Strict.antt =====
-- Strict mode: what a masked tree may still show.
use apisnap.Common.{
  ℕ, zero, suc, ◌≡◌, refl, ◌⊎◌, inl, inr, String, true, false, ◌&&◌, Option, none, some, List, [],
  ◌∷◌, ◌++◌, ltb, Bool-cases,
}
use apisnap.Json.{
  Value, null, bool, number, string, array, object, Items, nil, cons, Fields, end, field,
}
use apisnap.Engine.Masker.Segments.{PathSegment, root, key, index, segments_to_string_path}
use apisnap.Engine.Masker.{
  Patterns, MaskContext, str_contains, is_leaf, match_tokenized_rule, guarded, mask_recursive,
  mask_items, mask_fields, mask_number, has_time_hint, mask_value, redacted, depth_exceeded,
}

module _ {N : Type 0} (allow : List String) where
  -- A leaf is at a path of the allow list, or is one of the two placeholders.
  abbrev pub SafeLeaf : Value N → List PathSegment → Type 0
  SafeLeaf v segs =
      (str_contains allow (segments_to_string_path segs) ≡ true)
      ⊎ ((v ≡ string redacted) ⊎ (v ≡ string depth_exceeded))

  -- All strings, numbers and booleans of a tree are safe, each at its own path.
  unfoldable mutual
    pub IsSafe : Value N → List PathSegment → Type 0
    IsSafe null segs = Unit
    IsSafe (bool b) segs = SafeLeaf (bool b) segs
    IsSafe (number n) segs = SafeLeaf (number n) segs
    IsSafe (string s) segs = SafeLeaf (string s) segs
    IsSafe (array vs) segs = AreSafe vs zero segs
    IsSafe (object fs) segs = AreSafeFields fs segs

    pub AreSafe : Items N → ℕ → List PathSegment → Type 0
    AreSafe nil idx segs = Unit
    AreSafe (cons v vs) idx segs = IsSafe v (segs ++ index idx ∷ []) × AreSafe vs (suc idx) segs

    pub AreSafeFields : Fields N → List PathSegment → Type 0
    AreSafeFields end segs = Unit
    AreSafeFields (field k v fs) segs = IsSafe v (segs ++ key k ∷ []) × AreSafeFields fs segs

module _ {N : Type 0} (R : Patterns N) (ctx : MaskContext R.Regex)
    (strict : ctx.strict_pii_mode ≡ true)
    (no_rules : (segs : List PathSegment) → match_tokenized_rule ctx segs ≡ none) where
  abbrev Allowed : List PathSegment → Type 0
  Allowed segs = str_contains ctx.unmask_allow_list (segments_to_string_path segs) ≡ true

  guarded-IsSafe :
      (v inner : Value N) (segs : List PathSegment) (depth : ℕ)
      → ((is_leaf v ≡ false) ⊎ Allowed segs → IsSafe ctx.unmask_allow_list inner segs)
      → IsSafe ctx.unmask_allow_list (guarded R ctx v segs depth inner) segs
  unfolding guarded IsSafe
  guarded-IsSafe v inner segs depth h = elim (Bool-cases (ltb ctx.max_depth depth)) [
    | inl deep ↦ rw deep (inr (inr refl))
    | inr fine ↦
        rw (fine, no_rules segs, strict)
          (elim (Bool-cases (is_leaf v)) [
            | inl is ↦
                elim (Bool-cases
                  (str_contains ctx.unmask_allow_list (segments_to_string_path segs))) [
                    | inl allowed ↦ rw (is, allowed) (h (inr allowed))
                    | inr hidden ↦ rw (is, hidden) (inr (inl refl))
                  ]
            | inr other ↦ rw other (h (inl other))
          ])
  ]

  leaf-Allowed :
      (v : Value N) (segs : List PathSegment)
      → is_leaf v ≡ true
      → (is_leaf v ≡ false) ⊎ Allowed segs
      → Allowed segs
  leaf-Allowed v segs is (inl other) = absurd (cc (is, other))
  leaf-Allowed v segs is (inr allowed) = allowed

  mask_number-IsSafe :
      (n : N) (parent_key : Option String) (segs : List PathSegment)
      → Allowed segs
      → IsSafe ctx.unmask_allow_list (mask_number R ctx n parent_key) segs
  unfolding mask_number IsSafe
  mask_number-IsSafe n parent_key segs allowed =
      elim (Bool-cases (
        ctx.enable_builtin_heuristics
        && (has_time_hint R parent_key && R.is_unix_epoch (R.show_number n)))) [
          | inl epoch ↦ rw epoch (inl allowed)
          | inr other ↦ rw other (inl allowed)
        ]

  mutual
    unfolding mask_recursive IsSafe is_leaf

    mask_recursive-IsSafe :
        (v : Value N) (segs : List PathSegment) (parent_key : Option String) (depth : ℕ)
        → IsSafe ctx.unmask_allow_list (mask_recursive R ctx v segs parent_key depth) segs
    mask_recursive-IsSafe null segs parent_key depth = guarded-IsSafe null null segs depth (λ _. tt)
    mask_recursive-IsSafe (bool b) segs parent_key depth =
        guarded-IsSafe (bool b) (bool b) segs depth (λ h. inl (leaf-Allowed (bool b) segs refl h))
    mask_recursive-IsSafe (number n) segs parent_key depth =
        guarded-IsSafe (number n) (mask_number R ctx n parent_key) segs depth
          (λ h. mask_number-IsSafe n parent_key segs (leaf-Allowed (number n) segs refl h))
    mask_recursive-IsSafe (string s) segs parent_key depth =
        guarded-IsSafe (string s) _ segs depth (λ h. inl (leaf-Allowed (string s) segs refl h))
    mask_recursive-IsSafe (array vs) segs parent_key depth =
        guarded-IsSafe (array vs) (array (mask_items R ctx vs zero segs parent_key (suc depth)))
          segs depth (λ _. mask_items-AreSafe vs zero segs parent_key (suc depth))
    mask_recursive-IsSafe (object fs) segs parent_key depth =
        guarded-IsSafe (object fs) (object (mask_fields R ctx fs segs (suc depth))) segs depth
          (λ _. mask_fields-AreSafe fs segs (suc depth))

    mask_items-AreSafe :
        (vs : Items N) (idx : ℕ) (segs : List PathSegment) (parent_key : Option String) (depth : ℕ)
        → AreSafe ctx.unmask_allow_list (mask_items R ctx vs idx segs parent_key depth) idx segs
    mask_items-AreSafe nil idx segs parent_key depth = tt
    mask_items-AreSafe (cons v vs) idx segs parent_key depth = (
      mask_recursive-IsSafe v (segs ++ index idx ∷ []) parent_key depth,
      mask_items-AreSafe vs (suc idx) segs parent_key depth,
    )

    mask_fields-AreSafe :
        (fs : Fields N) (segs : List PathSegment) (depth : ℕ)
        → AreSafeFields ctx.unmask_allow_list (mask_fields R ctx fs segs depth) segs
    mask_fields-AreSafe end segs depth = tt
    mask_fields-AreSafe (field k v fs) segs depth = (
      mask_recursive-IsSafe v (segs ++ key k ∷ []) (some k) depth,
      mask_fields-AreSafe fs segs depth,
    )

  -- In strict mode, where no custom rule applies, every string, number and boolean of a masked tree
  -- is at a path of the allow list, or is one of the placeholders `<REDACTED>` and
  -- `<DEPTH_EXCEEDED>`.
  pub mask_value-IsSafe :
      (v : Value N) → IsSafe ctx.unmask_allow_list (mask_value R ctx v) (root ∷ [])
  unfolding mask_value
  mask_value-IsSafe v = mask_recursive-IsSafe v (root ∷ []) none 0

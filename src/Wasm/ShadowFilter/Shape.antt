-- ===== src/Wasm/ShadowFilter/Shape.antt =====
-- What the comparison of structures means, position by position.
use apisnap.Common.{
  ℕ, zero, suc, ◌≡◌, refl, ap, subst, arith, ==_iff, String, Bool, true, false, ◌&&◌, ◌||◌, not,
  Option, none, some, List, [], ◌∷◌, Dict, lookup, length, get_elem?, ◌==◌, str_eq, eq_iff,
  Bool-cases, Option-cases, inl, inr, if◌then◌else◌,
}
use apisnap.Json.{Value, array, object, Items, nil, cons, Fields, end, field, items, entries}
use apisnap.Wasm.ShadowFilter.{
  has_keys, same_keys, structurally_drifted, any_drifted, any_item_drifted,
}

-- A step down into a tree.
pub data Step : Type 0 where
  to_key : String → Step
  to_index : ℕ → Step

-- What stands at a position.
pub data Kind : Type 0 where
  nothing leaf an_object : Kind
  an_array : ℕ → Kind

or_false : (a b : Bool) → (a || b) ≡ false → (a ≡ false) × (b ≡ false)
or_false true b h = absurd (cc h)
or_false false b h = (refl, h)

not-false : (a : Bool) → not a ≡ false → a ≡ true
not-false true h = refl
not-false false h = absurd (cc h)

kept : (a b : Bool) → (if a then b else true) ≡ false → (a ≡ true) × (b ≡ false)
kept true b h = (refl, h)
kept false b h = absurd (cc h)

and_second : (a b : Bool) → (a && b) ≡ true → b ≡ true
and_second true b h = h
and_second false b h = absurd (cc h)

module _ {N : Type 0} where
  abbrev pub child : Step → Value N → Option (Value N)
  child (to_key k) (object fs) = lookup k (entries fs)
  child (to_index i) (array vs) = get_elem? (items vs) i
  child _ _ = none

  abbrev pub kind : Value N → Kind
  kind (object fs) = an_object
  kind (array vs) = an_array (length (items vs))
  kind _ = leaf

  abbrev pub kind_at : List Step → Value N → Kind
  kind_at [] v = kind v
  kind_at (s ∷ path) v = elim (child s v) [ none ↦ nothing | some w ↦ kind_at path w ]

  drifted-kind : (a b : Value N) → structurally_drifted a b ≡ false → kind a ≡ kind b
  unfolding structurally_drifted
  drifted-kind (array vs) (array ws) h =
      ap an_array ((==_iff _ _).0 (not-false _ (or_false _ _ h).0))
  drifted-kind (object fs) (object gs) h = refl
  drifted-kind a (array ws) h = cc h
  drifted-kind a (object gs) h = cc h
  drifted-kind a b h = cc h

  has_keys-none :
      (a b : Dict (Value N)) (k : String)
      → has_keys a b ≡ true
      → lookup k b ≡ none
      → lookup k a ≡ none
  has_keys-none [] b k h e = refl
  has_keys-none ((j, v) ∷ a) b k h e = ground (arith, h, e, eq_iff j k, has_keys-none a b k)

  any_drifted-lookup :
      (fs : Fields N) (bo : Dict (Value N)) (k : String) (v : Value N)
      → any_drifted fs bo ≡ false
      → lookup k (entries fs) ≡ some v
      → (w : Value N) × (lookup k bo ≡ some w) × (structurally_drifted v w ≡ false)
  unfolding structurally_drifted
  any_drifted-lookup end bo k v h e = absurd (cc e)
  any_drifted-lookup (field j av ao) bo k v h e = elim (Option-cases (lookup j bo)) [
    | inl missing ↦ absurd (cc (rw (missing, any_drifted) at h))
    | inr (bv, there) ↦
        let (alike, rest) =
          or_false (structurally_drifted av bv) (any_drifted ao bo)
            (rw (there, any_drifted) at h) in
        elim (Bool-cases (str_eq j k)) [
          | inl same ↦
              let is : some av ≡ some v = rw same at e in
              (
                bv,
                subst (λ x. lookup x bo ≡ some bv) ((eq_iff j k).0 same) there,
                subst
                    (λ (o : Option (Value N)). elim o [
                      | none ↦ ⊥
                      | some x ↦ structurally_drifted x bv ≡ false
                    ])
                    is alike,
              )
          | inr differ ↦ any_drifted-lookup ao bo k v rest (rw differ at e)
        ]
  ]

  -- What the two trees have one step down: nothing, or trees that have not drifted apart either.
  abbrev Alike : Option (Value N) → Option (Value N) → Type 0
  Alike none none = Unit
  Alike (some v) (some w) = structurally_drifted v w ≡ false
  Alike _ _ = ⊥

  any_item_drifted-get_elem? :
      (vs : Items N) (ws : List (Value N)) (i : ℕ)
      → any_item_drifted vs ws ≡ false
      → length (items vs) ≡ length ws
      → Alike (get_elem? (items vs) i) (get_elem? ws i)
  unfolding structurally_drifted
  any_item_drifted-get_elem? nil [] i h e = tt
  any_item_drifted-get_elem? nil (w ∷ ws) i h e = absurd (omega (arith, e))
  any_item_drifted-get_elem? (cons v vs) [] i h e = absurd (omega (arith, e))
  any_item_drifted-get_elem? (cons v vs) (w ∷ ws) zero h e =
      (or_false (structurally_drifted v w) (any_item_drifted vs ws) h).0
  any_item_drifted-get_elem? (cons v vs) (w ∷ ws) (suc i) h e =
      any_item_drifted-get_elem? vs ws i
        (or_false (structurally_drifted v w) (any_item_drifted vs ws) h).1 (omega (arith, e))

  fields-Alike :
      (fs gs : Fields N) (k : String)
      → structurally_drifted (object fs) (object gs) ≡ false
      → Alike (lookup k (entries fs)) (lookup k (entries gs))
  unfolding structurally_drifted
  fields-Alike fs gs k h =
      let (keys_match, alike) =
        kept (same_keys (entries fs) (entries gs)) (any_drifted fs (entries gs)) h in
      let back =
        and_second (has_keys (entries fs) (entries gs)) (has_keys (entries gs) (entries fs))
          keys_match in
      elim (Option-cases (lookup k (entries fs))) [
        | inl missing ↦ rw (missing, has_keys-none (entries gs) (entries fs) k back missing) tt
        | inr (v, there) ↦
            let (w, found, same) = any_drifted-lookup fs (entries gs) k v alike there in
            rw (there, found) same
      ]

  child-Alike :
      (s : Step) (a b : Value N) → structurally_drifted a b ≡ false → Alike (child s a) (child s b)
  unfolding structurally_drifted
  child-Alike (to_key k) (object fs) (object gs) h = fields-Alike fs gs k h
  child-Alike (to_index i) (object fs) (object gs) h = tt
  child-Alike (to_index i) (array vs) (array ws) h =
      let (sizes, alike) =
        or_false (not (length (items vs) == length (items ws))) (any_item_drifted vs (items ws))
          h in
      any_item_drifted-get_elem? vs (items ws) i alike ((==_iff _ _).0 (not-false _ sizes))
  child-Alike (to_key k) (array vs) (array ws) h = tt
  child-Alike s a (array ws) h = absurd (cc h)
  child-Alike s a (object gs) h = absurd (cc h)
  child-Alike s (array vs) b h = absurd (cc h)
  child-Alike s (object fs) b h = absurd (cc h)
  child-Alike (to_key k) a b h = tt
  child-Alike (to_index i) a b h = tt

  -- If the comparison finds no drift, then at every position, however deep, the two trees have the
  -- same: nothing, a leaf, an object, or an array of the same length.
  pub structurally_drifted-kind_at :
      (path : List Step) (a b : Value N)
      → structurally_drifted a b ≡ false
      → kind_at path a ≡ kind_at path b
  structurally_drifted-kind_at [] a b h = drifted-kind a b h
  structurally_drifted-kind_at (s ∷ path) a b h =
      go (structurally_drifted-kind_at path) (child s a) (child s b) (child-Alike s a b h)
    where
      go :
          ((v w : Value N) → structurally_drifted v w ≡ false → kind_at path v ≡ kind_at path w)
          → (v w : Option (Value N)) → Alike v w
          → (elim v [ none ↦ nothing | some x ↦ kind_at path x ])
            ≡ (elim w [ none ↦ nothing | some x ↦ kind_at path x ])
      go ih none none h = refl
      go ih none (some w) h = absurd h
      go ih (some v) none h = absurd h
      go ih (some v) (some w) h = ih v w h

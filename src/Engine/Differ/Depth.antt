-- ===== src/Engine/Differ/Depth.antt =====
-- The nesting of what the recursion descends into, and the fuel that it needs.
use mathlib.Core.Path.{fun_ext}
use apisnap.Common.{
  ℕ, zero, suc, ◌+◌, ◌≤◌, ◌<◌, ◌≡◌, refl, ap, inl, inr, String, Bool, some, [], ◌∷◌, Dict, lookup,
  btree_insert, lookup-btree_insert, All, str_eq, arith, if◌then◌else◌, Bool-cases,
}
use apisnap.Json.{
  Numbers, Value, Items, Fields, nil, cons, end, field, items, entries, nesting, nesting_items,
  nesting_fields,
}
use apisnap.Engine.Differ.{DiffOptions, collect_from, normalized, diff_recursive}

module _ {N : Type 0} where
  abbrev pub AtMost : ℕ → Dict (Value N) → Type 0
  AtMost n m = (k : String) (v : Value N) → lookup k m ≡ some v → nesting v ≤ n

  btree_insert-AtMost :
      (n : ℕ) (k : String) (v : Value N) (m : Dict (Value N))
      → nesting v ≤ n
      → AtMost n m
      → AtMost n (btree_insert k v m)
  btree_insert-AtMost n k v m h hm j w e = elim (Bool-cases (str_eq k j)) [
    | inl same ↦ ground (arith, lookup-btree_insert k j v m, same, e, ap nesting {x = v} {y = w})
    | inr differ ↦ hm j w (ground (arith, lookup-btree_insert k j v m, differ, e))
  ]

  collect_from-AtMost :
      (nfc : String → String) (normalize : Bool) (n : ℕ) (m acc : Dict (Value N))
      → All (λ (k, v). nesting v ≤ n) m
      → AtMost n acc
      → AtMost n (collect_from nfc normalize m acc)
  unfolding collect_from
  collect_from-AtMost nfc normalize n [] acc h ha = ha
  collect_from-AtMost nfc normalize n ((k, v) ∷ m) acc (h, hs) ha =
      collect_from-AtMost nfc normalize n m _ hs
        (btree_insert-AtMost n (if normalize then nfc k else k) v acc h ha)

  entries-AtMost :
      (n : ℕ) (fs : Fields N) → nesting_fields fs ≤ n → All (λ (k, v). nesting v ≤ n) (entries fs)
  unfolding nesting
  entries-AtMost n end h = tt
  entries-AtMost n (field k v fs) h = (omega arith, entries-AtMost n fs (omega arith))

  pub items-AtMost :
      (n : ℕ) (vs : Items N) → nesting_items vs ≤ n → All (λ v. nesting v ≤ n) (items vs)
  unfolding nesting
  items-AtMost n nil h = tt
  items-AtMost n (cons v vs) h = (omega arith, items-AtMost n vs (omega arith))

  pub normalized-AtMost :
      (nfc : String → String) (normalize : Bool) (n : ℕ) (fs : Fields N)
      → nesting_fields fs ≤ n
      → AtMost n (normalized nfc normalize (entries fs))
  normalized-AtMost nfc normalize n fs h =
      collect_from-AtMost nfc normalize n (entries fs) [] (entries-AtMost n fs h) (λ k v e. cc e)

module _ (J : Numbers) (nfc : String → String) (options : DiffOptions J.F64) where
  open J use {Number}

  -- The guard on the depth ends the recursion before its fuel: any two amounts of fuel that reach
  -- beyond `max_depth` give the same differences.
  pub diff_recursive-fuel :
      (f g depth : ℕ) (v w : Value Number) (path : String)
      → options.max_depth < depth + f
      → options.max_depth < depth + g
      → diff_recursive J nfc options f depth v w path
        ≡ diff_recursive J nfc options g depth v w path
  unfolding diff_recursive
  diff_recursive-fuel zero zero depth v w path hf hg = refl
  diff_recursive-fuel zero (suc g) depth v w path hf hg = ground arith
  diff_recursive-fuel (suc f) zero depth v w path hf hg = ground arith
  diff_recursive-fuel (suc f) (suc g) depth v w path hf hg =
      let same : diff_recursive J nfc options f (suc depth)
          ≡ diff_recursive J nfc options g (suc depth) =
        fun_ext λ x.
          fun_ext λ y.
            fun_ext λ p. diff_recursive-fuel f g (suc depth) x y p (omega arith) (omega arith) in
      rw same refl

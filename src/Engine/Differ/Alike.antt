-- ===== src/Engine/Differ/Alike.antt =====
-- The cases of `diff_recursive` on a value and itself, and on objects without a difference.
use mathlib.Core.List.{append-nil, append_assoc}
use apisnap.Common.{
  at_index, ℕ, suc, ◌≡◌, ◌↔◌, refl, inl, inr, String, Bool, true, false, none, some, List, [], ◌∷◌,
  ◌++◌, Dict, lookup, keys, for_each-eq-nil, All, ◌<>◌, arith, Option-cases,
}
use apisnap.Json.{Value}
use apisnap.Engine.Differ.{
  DiffKind, removed_at, added_at, common_at, diff_objects, diff_pairs, diff_ordered, claim,
  claim_all, unclaimed, none_matched, diff_array_as_set,
}

module _ {N : Type 0} (rec : Value N → Value N → String → List (DiffKind N)) (path : String) where
  -- Objects with the same keys, at whose common keys nothing is reported.
  pub diff_objects-eq-nil :
      (e a : Dict (Value N))
      → ((key : String) → (lookup key e ≡ none) ↔ (lookup key a ≡ none))
      → ((key : String) (v w : Value N)
          → lookup key e ≡ some v
          → lookup key a ≡ some w
          → rec v w (path <> "." <> key) ≡ [])
      → diff_objects rec path e a ≡ []
  unfolding diff_objects
  diff_objects-eq-nil e a same_keys same =
      let removals = for_each-eq-nil (keys e) (removed_at path e a) (λ key. at_removed key) in
      let additions = for_each-eq-nil (keys a) (added_at path e a) (λ key. at_added key) in
      let common = for_each-eq-nil (keys e) (common_at rec path e a) (λ key. at_common key) in
      rw (removals, additions, common)
    where
      at_removed : (key : String) → removed_at path e a key ≡ []
      at_removed key = ground (arith, (same_keys key).1)

      at_added : (key : String) → added_at path e a key ≡ []
      at_added key = ground (arith, (same_keys key).0)

      at_common : (key : String) → common_at rec path e a key ≡ []
      at_common key = elim (Option-cases (lookup key e)) [
        | inl missing ↦ ground (arith, missing)
        | inr (v, hv) ↦ elim (Option-cases (lookup key a)) [
          | inl missing ↦ ground (arith, missing, hv)
          | inr (w, hw) ↦ ground (arith, hv, hw, same key v w hv hw)
        ]
      ]

  marks : List (Value N) → List Bool
  marks [] = []
  marks (w ∷ ws) = true ∷ marks ws

  -- With a prefix taken, an item that does not differ from itself claims itself.
  claim_self :
      (taken : List (Value N)) (e : Value N) (rest : List (Value N)) (matched : List Bool)
      → rec e e path ≡ []
      → claim rec path e (taken ++ e ∷ rest) (marks taken ++ false ∷ matched)
        ≡ some (marks taken ++ true ∷ matched)
  unfolding claim marks
  claim_self [] e rest matched h = rw h
  claim_self (t ∷ taken) e rest matched h = rw (claim_self taken e rest matched h)

  marks-snoc :
      (taken : List (Value N)) (e : Value N) → marks (taken ++ e ∷ []) ≡ marks taken ++ true ∷ []
  unfolding marks
  marks-snoc [] e = refl
  marks-snoc (t ∷ taken) e = rw (marks-snoc taken e)

  unclaimed-marks : (es : List (Value N)) → unclaimed path es (marks es) ≡ []
  unfolding unclaimed marks
  unclaimed-marks [] = refl
  unclaimed-marks (e ∷ es) = unclaimed-marks es

  claim_all_self :
      (taken es : List (Value N))
      → All (λ e. rec e e path ≡ []) es
      → claim_all rec path es (taken ++ es) (marks taken ++ none_matched es)
        ≡ ([], marks (taken ++ es))
  unfolding claim_all marks
  claim_all_self taken [] h = simp append-nil
  claim_all_self taken (e ∷ es) (h, hs) =
      let ih = claim_all_self (taken ++ e ∷ []) es hs in
      rw (claim_self taken e es (none_matched es) h, claim_all)
        (simp (append_assoc, marks-snoc taken e) at ih)

  diff_pairs_self :
      (i : ℕ) (es : List (Value N))
      → ((p : String) → All (λ e. rec e e p ≡ []) es)
      → diff_pairs rec path i es es ≡ []
  unfolding diff_pairs
  diff_pairs_self i [] h = refl
  diff_pairs_self i (e ∷ es) h =
      rw ((h (at_index path i)).0, diff_pairs_self (suc i) es (λ p. (h p).1))

  pub diff_array_as_set_self :
      (es : List (Value N))
      → All (λ e. rec e e path ≡ []) es
      → diff_array_as_set rec path es es ≡ []
  unfolding diff_array_as_set marks
  diff_array_as_set_self es h = rw (claim_all_self [] es h) (unclaimed-marks es)

  pub diff_ordered_self :
      (es : List (Value N))
      → ((p : String) → All (λ e. rec e e p ≡ []) es)
      → diff_ordered rec path es es ≡ []
  unfolding diff_ordered
  diff_ordered_self es h = rw (diff_pairs_self 0 es h) (ground arith)

pub All-map :
    {A : Type 0} {P Q : A → Type 0} (xs : List A) → ((x : A) → P x → Q x) → All P xs → All Q xs
All-map [] f h = tt
All-map (x ∷ xs) f (h, hs) = (f x h, All-map xs f hs)

-- ===== src/Engine/Differ/Claims.antt =====
-- The comparison of arrays as sets: which items are claimed, and when nothing is left.
use mathlib.Core.List.{Perm, append-nil}
use mathlib.Core.List.Perm
use apisnap.Common.{
  ◌≡◌, refl, ap, subst, subst₂, ◌⊎◌, inl, inr, String, Bool, true, false, some, List, [], ◌∷◌, ◌++◌,
  append-eq-nil, is_empty-nil, is_empty, arith, Bool-cases, Option-cases,
}
use apisnap.Json.{Value}
use apisnap.Config.{ArrayDiffMode, ordered, set}
use apisnap.Engine.Differ.{DiffKind, claim, claim_all, unclaimed, none_matched, diff_array_as_set}

pub mode_cases : (m : ArrayDiffMode) → (m ≡ ordered) ⊎ (m ≡ set)
mode_cases ordered = inl refl
mode_cases set = inr refl

-- The items of an array that are not marked.
abbrev pub free : {A : Type 0} → List A → List Bool → List A
free (a ∷ rest) (true ∷ matched) = free rest matched
free (a ∷ rest) (false ∷ matched) = a ∷ free rest matched
free _ _ = []

free-none_matched : {N : Type 0} (ws : List (Value N)) → free ws (none_matched ws) ≡ ws
free-none_matched [] = refl
free-none_matched (w ∷ ws) = ap (λ l. w ∷ l) (free-none_matched ws)

abbrev Claimed :
    {N : Type 0}
    → (Value N → Value N → String → List (DiffKind N))
    → String
    → Value N
    → List (Value N)
    → List Bool
    → List Bool
    → Type 0
Claimed {N} rec path e ws matched matched' =
    (w : Value N) × (rec e w path ≡ []) × Perm (w ∷ free ws matched') (free ws matched)

module _ {N : Type 0} (rec : Value N → Value N → String → List (DiffKind N)) (path : String) where
  skip_marked :
      (e w : Value N) (ws : List (Value N)) (matched m : List Bool)
      → Claimed rec path e ws matched m
      → Claimed rec path e (w ∷ ws) (true ∷ matched) (true ∷ m)
  skip_marked e w ws matched m c = c

  skip_free :
      (e w : Value N) (ws : List (Value N)) (matched m : List Bool)
      → Claimed rec path e ws matched m
      → Claimed rec path e (w ∷ ws) (false ∷ matched) (false ∷ m)
  skip_free e w ws matched m (x, d, p) =
      (x, d, Perm.trans (Perm.swap w x (free ws m)) (Perm.cons w p))

  -- A claimed item has no difference, and was free.
  claim_lem :
      (e : Value N) (ws : List (Value N)) (matched matched' : List Bool)
      → claim rec path e ws matched ≡ some matched'
      → Claimed rec path e ws matched matched'
  unfolding claim
  claim_lem e [] matched matched' h = cc
  claim_lem e (w ∷ ws) [] matched' h = cc
  claim_lem e (w ∷ ws) (true ∷ matched) matched' h =
      elim (Option-cases (claim rec path e ws matched)) [
        | inl stuck ↦ absurd (ground (arith, stuck))
        | inr (m, found) ↦
            subst (Claimed rec path e (w ∷ ws) (true ∷ matched)) {x = true ∷ m}
              (ground (arith, found))
              (skip_marked e w ws matched m (claim_lem e ws matched m found))
      ]
  claim_lem e (w ∷ ws) (false ∷ matched) matched' h = elim (Bool-cases (is_empty (rec e w path))) [
    | inl same ↦
        subst (Claimed rec path e (w ∷ ws) (false ∷ matched)) {x = true ∷ matched}
          (ground (arith, same))
          (w, is_empty-nil (rec e w path) same, Perm.refl (w ∷ free ws matched))
    | inr differ ↦ elim (Option-cases (claim rec path e ws matched)) [
      | inl stuck ↦ absurd (ground (arith, stuck, differ))
      | inr (m, found) ↦
          subst (Claimed rec path e (w ∷ ws) (false ∷ matched)) {x = false ∷ m}
            (ground (arith, found, differ))
            (skip_free e w ws matched m (claim_lem e ws matched m found))
    ]
  ]

-- `Matched` pairs the expected items with the items that they claimed.
abbrev pub NoDiffs :
    {N : Type 0}
    → (Value N → Value N → String → List (DiffKind N))
    → String
    → List (Value N)
    → List (Value N)
    → Type 0
NoDiffs rec path [] [] = Unit
NoDiffs rec path (e ∷ es) (w ∷ ws) = (rec e w path ≡ []) × NoDiffs rec path es ws
NoDiffs rec path _ _ = ⊥

module _ {N : Type 0} (rec : Value N → Value N → String → List (DiffKind N)) (path : String) where
  claim_all_lem :
      (es ws : List (Value N)) (matched : List Bool)
      → (claim_all rec path es ws matched).0 ≡ []
      → (chosen : List (Value N)) × NoDiffs rec path es chosen
        × Perm (chosen ++ free ws (claim_all rec path es ws matched).1) (free ws matched)
  unfolding claim_all
  claim_all_lem [] ws matched h = ([], tt, Perm.refl (free ws matched))
  claim_all_lem (e ∷ es) ws matched h = elim (Option-cases (claim rec path e ws matched)) [
    | inl stuck ↦ absurd (ground (arith, stuck))
    | inr (m, found) ↦
        let (w, same, p) = claim_lem rec path e ws matched m found in
        let (chosen, all, q) = claim_all_lem es ws m (rw (found, claim_all) at h) in
        (w ∷ chosen, (same, all), rw (found, claim_all) (Perm.trans (Perm.cons w q) p))
  ]

  unclaimed-eq-nil :
      (ws : List (Value N)) (matched : List Bool)
      → unclaimed path ws matched ≡ []
      → free ws matched ≡ []
  unfolding unclaimed
  unclaimed-eq-nil [] matched h = refl
  unclaimed-eq-nil (w ∷ ws) [] h = refl
  unclaimed-eq-nil (w ∷ ws) (true ∷ matched) h = unclaimed-eq-nil ws matched h
  unclaimed-eq-nil (w ∷ ws) (false ∷ matched) h = absurd (cc h)

  -- No difference as sets: the expected items, in their order, are a permutation of the actual.
  pub diff_array_as_set-eq-nil :
      (es ws : List (Value N))
      → diff_array_as_set rec path es ws ≡ []
      → (chosen : List (Value N)) × NoDiffs rec path es chosen × Perm chosen ws
  unfolding diff_array_as_set
  diff_array_as_set-eq-nil es ws h =
      let (out, rest) = append-eq-nil (claim_all rec path es ws (none_matched ws)).0 _ h in
      let (chosen, all, p) = claim_all_lem es ws (none_matched ws) out in
      let left = unclaimed-eq-nil ws (claim_all rec path es ws (none_matched ws)).1 rest in
      (
        chosen,
        all,
        subst (λ l. Perm l ws) (append-nil chosen)
            (subst₂ (λ a b. Perm (chosen ++ a) b) left (free-none_matched ws) p),
      )

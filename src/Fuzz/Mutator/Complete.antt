-- ===== src/Fuzz/Mutator/Complete.antt =====
-- The cases that a body has: at every place of it, however deep, those for the value that is there.
use apisnap.Common.{
  Distinct, ◌≡◌, refl, sym, subst, ◌∙◌, inl, inr, String, Option, none, some, List, [], ◌∷◌, ◌++◌,
  ℤ, All, In, In-append_left, In-append_right, map, keys, lookup, Dict, str_eq, eq_iff, arith,
  Option-cases, Bool-cases,
}
use apisnap.Json.{Value, null, bool, number, string, array, object, nil, Fields, entries}
use apisnap.Fuzz.Paths.{PathSeg, key, child_path}
use apisnap.Fuzz.Paths.Print.{PlainSegment, path_below}
use apisnap.Fuzz.Edit.{replace_path_in_ast, remove_path_in_ast}
use apisnap.Fuzz.Edit.Lens.{child_at, at_path, at_path_step}
use apisnap.Fuzz.Mutator.{
  MutationCase, missing_key, null_key, mutate_recursive, mutate_items, generate_mutations,
}
use apisnap.Fuzz.Mutator.{
  string_cases, number_cases, empty_array_case, repeat_a, missing_keys, null_keys,
}
use apisnap.Fuzz.Mutator.Places.{OnlyAt, replace_path_in_ast-OnlyAt, remove_path_in_ast-OnlyAt}
use apisnap.Common.{negsuc, pos, ◌-◌, ◌^◌}
use apisnap.Fuzz.Mutator.Visits.{In-map, In-map_cases, generate_mutations_visits}

path_below_snoc :
    (path : String) (p : List PathSeg) (s : PathSeg)
    → path_below path (p ++ s ∷ []) ≡ child_path (path_below path p) s
path_below_snoc path [] s = refl
path_below_snoc path (t ∷ p) s = path_below_snoc (child_path path t) p s

In-keys : {A : Type 0} (k : String) (w : A) (m : Dict A) → lookup k m ≡ some w → In k (keys m)
In-keys k w [] h = cc
In-keys k w ((j, v) ∷ m) h = elim (Bool-cases (str_eq j k)) [
  | inl same ↦ inl (sym ((eq_iff j k).0 same))
  | inr other ↦ inr (In-keys k w m (ground (arith, other, h)))
]

module _ {N : Type 0} (from_i64 : ℤ → N) (root : Value N) where
  -- Some case has `r` (nothing, where it is `none`) at the path, and is the body beside it.
  abbrev pub HasCase : List PathSeg → Option (Value N) → Type 0
  HasCase p r =
      (c : MutationCase N) × In c (generate_mutations from_i64 root)
      × OnlyAt p r root c.mutated_body

  -- For each key of each object of the body, at any depth, one case lacks this key, and in it
  -- everything beside the key is as in the body. The keys on the way are not empty and have no dot
  -- and no opening bracket, the indices fit in 64 bits, and the object's keys are distinct.
  pub generate_mutations-missing_key :
      (p : List PathSeg) (k : String) (fs : Fields N) (w : Value N)
      → All PlainSegment (p ++ key k ∷ [])
      → at_path p root ≡ some (object fs)
      → lookup k (entries fs) ≡ some w
      → Distinct (entries fs)
      → HasCase (p ++ key k ∷ []) none
  unfolding missing_key mutate_recursive
  generate_mutations-missing_key p k fs w plain there present distinct = (
    missing_key from_i64 root (path_below "$" p) k,
    generate_mutations_visits from_i64 root p (object fs) _ there (
        In-append_left _ (missing_keys from_i64 root (path_below "$" p) (keys (entries fs))) _ (
          In-map (missing_key from_i64 root (path_below "$" p)) k (keys (entries fs))
            (In-keys k w (entries fs) present))),
    subst (λ path. OnlyAt (p ++ key k ∷ []) none root (remove_path_in_ast root path))
        (path_below_snoc "$" p (key k))
        (remove_path_in_ast-OnlyAt root p k fs plain there distinct),
  )

  at_path_snoc :
      (p : List PathSeg) (s : PathSeg) (v o : Value N)
      → at_path p v ≡ some o
      → at_path (p ++ s ∷ []) v ≡ child_at s o
  unfolding at_path
  at_path_snoc [] s v o h = ground (arith, h)
  at_path_snoc (t ∷ p) s v o h = elim (Option-cases (child_at t v)) [
    | inl missing ↦ absurd (ground (arith, missing, h))
    | inr (u, e) ↦
        at_path_step t (p ++ s ∷ []) v u e ∙ at_path_snoc p s u o (sym (at_path_step t p v u e) ∙ h)
  ]

  -- Likewise, one case has null in place of the key's value.
  pub generate_mutations-null_key :
      (p : List PathSeg) (k : String) (fs : Fields N) (w : Value N)
      → All PlainSegment (p ++ key k ∷ [])
      → at_path p root ≡ some (object fs)
      → lookup k (entries fs) ≡ some w
      → HasCase (p ++ key k ∷ []) (some null)
  unfolding null_key mutate_recursive
  generate_mutations-null_key p k fs w plain there present = (
    null_key from_i64 root (path_below "$" p) k,
    generate_mutations_visits from_i64 root p (object fs) _ there (
        In-append_right _ (missing_keys from_i64 root (path_below "$" p) (keys (entries fs))) _ (
          In-append_left _ (null_keys from_i64 root (path_below "$" p) (keys (entries fs))) _ (
            In-map (null_key from_i64 root (path_below "$" p)) k (keys (entries fs))
              (In-keys k w (entries fs) present)))),
    subst (λ path. OnlyAt (p ++ key k ∷ []) (some null) root (replace_path_in_ast root path null))
        (path_below_snoc "$" p (key k))
        (replace_path_in_ast-OnlyAt root p (key k) null w plain
          (at_path_snoc p (key k) root (object fs) there ∙ present)),
  )

  -- The values that are tried in place of a value of each kind.
  abbrev pub probes : Value N → List (Value N)
  probes (string s) =
      string "' OR '1'='1 --"
      ∷ string "<script>alert('xss')</script>"
      ∷ string ""
      ∷ string (repeat_a 16384)
      ∷ []
  probes (number n) =
      number (from_i64 (pos (2 ^ 63 - 1)))
      ∷ number (from_i64 (negsuc 0))
      ∷ number (from_i64 (pos 0))
      ∷ []
  probes (array vs) = array nil ∷ []
  probes _ = []

  ProbeCase : String → Value N → Value N → Type 0
  ProbeCase path w r =
      (c : MutationCase N) × In c (mutate_recursive from_i64 root w path)
      × (c.mutated_body ≡ replace_path_in_ast root path r)

  -- Cases whose bodies are the body with each of the values.
  listed-ProbeCase :
      (path : String) (w r : Value N) (rs : List (Value N)) (cs : List (MutationCase N))
      → ((c : MutationCase N) → In c cs → In c (mutate_recursive from_i64 root w path))
      → map (λ x. replace_path_in_ast root path x) rs ≡ map (λ c. c.mutated_body) cs
      → In r rs
      → ProbeCase path w r
  unfolding ProbeCase
  listed-ProbeCase path w r rs cs among same h =
      let (c, listed, e) =
        In-map_cases (λ c. c.mutated_body) (replace_path_in_ast root path r) cs
          (subst (λ l. In (replace_path_in_ast root path r) l) same
            (In-map (λ x. replace_path_in_ast root path x) r rs h)) in
      (c, among c listed, e)

  probes-ProbeCase : (path : String) (w r : Value N) → In r (probes w) → ProbeCase path w r
  unfolding mutate_recursive replace_path_in_ast
  probes-ProbeCase path (string s) r h =
      listed-ProbeCase path (string s) r (probes (string s)) (string_cases from_i64 root path)
        (λ c there. there) refl h
  probes-ProbeCase path (number n) r h =
      listed-ProbeCase path (number n) r (probes (number n)) (number_cases from_i64 root path)
        (λ c there. there) refl h
  probes-ProbeCase path (array vs) r h =
      listed-ProbeCase path (array vs) r (probes (array vs))
        (empty_array_case from_i64 root path ∷ [])
        (λ c there.
          In-append_left c (empty_array_case from_i64 root path ∷ [])
            (mutate_items from_i64 root vs 0 path) there)
        refl h
  probes-ProbeCase path null r h = absurd h
  probes-ProbeCase path (bool b) r h = absurd h
  probes-ProbeCase path (object fs) r h = absurd h

  -- At each place of the body below its root with a text, a number or an array, each value that is
  -- tried for this kind stands in one case, with everything beside the place as in the body. The
  -- keys on the way are not empty and have no dot and no opening bracket, the indices fit in 64
  -- bits.
  pub generate_mutations-probes :
      (p : List PathSeg) (s : PathSeg) (w r : Value N)
      → All PlainSegment (p ++ s ∷ [])
      → at_path (p ++ s ∷ []) root ≡ some w
      → In r (probes w)
      → HasCase (p ++ s ∷ []) (some r)
  unfolding ProbeCase
  generate_mutations-probes p s w r plain there tried =
      let (c, listed, e) = probes-ProbeCase (path_below "$" (p ++ s ∷ [])) w r tried in
      (
        c,
        generate_mutations_visits from_i64 root (p ++ s ∷ []) w c there listed,
        subst (λ x. OnlyAt (p ++ s ∷ []) (some r) root x) (sym e)
            (replace_path_in_ast-OnlyAt root p s r w plain there),
      )

-- ===== src/Fuzz/Mutator/Places.antt =====
-- An edit at the path that is written for a place of the body changes that place only.
use apisnap.Common.{
  Distinct, ◌≡◌, ◌≢◌, refl, sym, ap, subst, ◌∙◌, inl, inr, String, Option, none, some, List, [],
  ◌∷◌, ◌++◌, All, arith, Option-cases,
}
use apisnap.Json.{Value, object, Fields, entries}
use apisnap.Fuzz.Paths.{PathSeg, key}
use apisnap.Fuzz.Paths.Print.{PlainSegment, path_below, parse_json_path-path_below}
use apisnap.Fuzz.Edit.{put_child, remove_child, edit_at, replace_path_in_ast, remove_path_in_ast}
use apisnap.Fuzz.Edit.Lens.{
  child_at, at_path, at_path_step, Diverge, edit_below, edit_at_lem, at_path-edit_below,
  at_path-edit_below_other,
}
use apisnap.Fuzz.Edit.Children.{
  child_at-put_child, child_at-put_child_other, child_at-remove_child, child_at-remove_child_other,
}

module _ {N : Type 0} where
  -- The replacement stands at the path, and beside the path everything is as it was.
  abbrev pub OnlyAt : List PathSeg → Option (Value N) → Value N → Value N → Type 0
  OnlyAt p r before after =
      (at_path p after ≡ r)
      × ((q : List PathSeg) → Diverge p q → at_path q after ≡ at_path q before)

  parent :
      (p : List PathSeg) (s : PathSeg) (v w : Value N)
      → at_path (p ++ s ∷ []) v ≡ some w
      → (o : Value N) × (at_path p v ≡ some o) × (child_at s o ≡ some w)
  unfolding at_path
  parent [] s v w h = (v, refl, ground (arith, h))
  parent (t ∷ p) s v w h = elim (Option-cases (child_at t v)) [
    | inl missing ↦ absurd (ground (arith, missing, h))
    | inr (u, e) ↦
        let (o, below, there) = parent p s u w (sym (at_path_step t (p ++ s ∷ []) v u e) ∙ h) in
        (o, at_path_step t p v u e ∙ below, there)
  ]

  single : (s : PathSeg) (v : Value N) → at_path (s ∷ []) v ≡ child_at s v
  unfolding at_path
  single s v = ground arith

  replace_path_in_ast_lem :
      (root : Value N) (p : List PathSeg) (s : PathSeg) (r : Value N)
      → All PlainSegment (p ++ s ∷ [])
      → edit_below (λ t. put_child t r) p s root
        ≡ replace_path_in_ast root (path_below "$" (p ++ s ∷ [])) r
  unfolding replace_path_in_ast
  replace_path_in_ast_lem root p s r plain = sym (
      ap (λ l. elim l [ [] ↦ r | t ∷ segments ↦ edit_at (λ u. put_child u r) t segments root ])
        (parse_json_path-path_below (p ++ s ∷ []) plain)
      ∙ edit_at_lem (λ t. put_child t r) p s root r)

  remove_path_in_ast_lem :
      (root : Value N) (p : List PathSeg) (s : PathSeg)
      → All PlainSegment (p ++ s ∷ [])
      → edit_below remove_child p s root ≡ remove_path_in_ast root (path_below "$" (p ++ s ∷ []))
  unfolding remove_path_in_ast
  remove_path_in_ast_lem root p s plain = sym (
      ap (λ l. elim l [ [] ↦ root | t ∷ segments ↦ edit_at remove_child t segments root ])
        (parse_json_path-path_below (p ++ s ∷ []) plain)
      ∙ edit_at_lem remove_child p s root root)

  pub replace_path_in_ast-OnlyAt :
      (root : Value N) (p : List PathSeg) (s : PathSeg) (r w : Value N)
      → All PlainSegment (p ++ s ∷ [])
      → at_path (p ++ s ∷ []) root ≡ some w
      → OnlyAt
          (p ++ s ∷ [])
          (some r)
          root
          (replace_path_in_ast root (path_below "$" (p ++ s ∷ [])) r)
  replace_path_in_ast-OnlyAt root p s r w plain there =
      subst (λ v. OnlyAt (p ++ s ∷ []) (some r) root v) (replace_path_in_ast_lem root p s r plain)
        (let (o, up, down) = parent p s root w there in
          (
            at_path-edit_below (λ t. put_child t r) p (s ∷ []) s root o up
                ∙ single s (put_child s r o)
                ∙ child_at-put_child s r o w down,
            λ q d.
                at_path-edit_below_other (λ t. put_child t r) p q s root
                  (λ o2 t _ differ. child_at-put_child_other s r o2 t differ) d,
          ))

  pub remove_path_in_ast-OnlyAt :
      (root : Value N) (p : List PathSeg) (k : String) (fs : Fields N)
      → All PlainSegment (p ++ key k ∷ [])
      → at_path p root ≡ some (object fs)
      → Distinct (entries fs)
      → OnlyAt
          (p ++ key k ∷ [])
          none
          root
          (remove_path_in_ast root (path_below "$" (p ++ key k ∷ [])))
  remove_path_in_ast-OnlyAt root p k fs plain there distinct =
      subst (λ v. OnlyAt (p ++ key k ∷ []) none root v)
        (remove_path_in_ast_lem root p (key k) plain)
        (
          at_path-edit_below remove_child p (key k ∷ []) (key k) root (object fs) there
              ∙ single (key k) (remove_child (key k) (object fs))
              ∙ child_at-remove_child k fs distinct,
          λ q d.
              at_path-edit_below_other remove_child p q (key k) root
                (λ o t at differ. others o t (sym at ∙ there) differ) d,
        )
    where
      others :
          (o : Value N) (t : PathSeg)
          → some o ≡ some (object fs)
          → key k ≢ t
          → child_at t (remove_child (key k) o) ≡ child_at t o
      others o t same differ =
          subst (λ x. child_at t (remove_child (key k) x) ≡ child_at t x) (sym is)
            (child_at-remove_child_other k fs t distinct differ)
        where
          is : o ≡ object fs
          is = ap (λ x. elim x [ none ↦ object fs | some y ↦ y ]) same

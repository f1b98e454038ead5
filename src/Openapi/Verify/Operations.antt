-- ===== src/Openapi/Verify/Operations.antt =====
-- The operation that a generated document has at a path and a method.
use apisnap.Common.{
  ◌≡◌, sym, ap, subst, ◌∙◌, inl, inr, Bool, ◌&&◌, String, Option, none, some, [], Dict, lookup,
  insert, lookup-insert, str_eq, eq_iff, eq_refl, show_ℕ, arith, Option-cases, Bool-cases,
  if◌then◌else◌,
}
use apisnap.Json.{
  entries-from_entries, Numbers, Value, string, object, Fields, entries, from_entries,
}
use apisnap.Config.{EndpointConfig}
use apisnap.Snapshot.Files.{SnapshotFile}
use apisnap.Openapi.Infer.{json, infer_schema_from_value}
use apisnap.Openapi.Generate.{
  operation_of, responses_of, with_request_body, with_parameters, add_operation,
}
use apisnap.Openapi.Verify.{find_schema, get_key, and_then}

module _ {N : Type 0} where
  abbrev pub operation_at : Dict (Value N) → String → String → Option (Value N)
  operation_at paths p m = and_then (lookup p paths) (λ item. get_key m item)

  -- The path items are objects.
  pub ObjectItems : Dict (Value N) → Type 0
  ObjectItems paths =
      (p : String) (v : Value N) → lookup p paths ≡ some v → (fs : Fields N) × (v ≡ object fs)

module _ (J : Numbers) (is_int : J.Number → Bool) where
  pub empty-ObjectItems : ObjectItems {N = J.Number} []
  unfolding ObjectItems
  empty-ObjectItems p v h = cc

  add_operation-none :
      (p m : String) (op : Value J.Number) (paths : Dict (Value J.Number))
      → lookup p paths ≡ none
      → insert p (json (insert m op [])) paths ≡ add_operation J is_int p m op paths
  unfolding add_operation
  add_operation-none p m op paths h = ground (arith, h)

  add_operation-object :
      (p m : String) (op : Value J.Number) (paths : Dict (Value J.Number)) (fs : Fields J.Number)
      → lookup p paths ≡ some (object fs)
      → insert p (json (insert m op (entries fs))) paths ≡ add_operation J is_int p m op paths
  unfolding add_operation
  add_operation-object p m op paths fs h = ground (arith, h)

  operation_at-insert :
      (p m q n : String) (op : Value J.Number) (item : Dict (Value J.Number))
      (paths : Dict (Value J.Number))
      → operation_at (insert p (json (insert m op item)) paths) q n ≡ (
          if str_eq p q
          then (if str_eq m n then some op else lookup n item)
          else operation_at paths q n)
  operation_at-insert p m q n op item paths = ground (
    arith,
    lookup-insert p q (json (insert m op item)) paths,
    lookup-insert m n op item,
    entries-from_entries (insert m op item),
  )

  pub operation_at-add_operation :
      (p m q n : String) (op : Value J.Number) (paths : Dict (Value J.Number))
      → ObjectItems paths
      → operation_at (add_operation J is_int p m op paths) q n
        ≡ (if str_eq p q && str_eq m n then some op else operation_at paths q n)
  unfolding ObjectItems
  operation_at-add_operation p m q n op paths ok_items = elim (Option-cases (lookup p paths)) [
    | inl missing ↦
        ap (λ d. operation_at d q n) (sym (add_operation-none p m op paths missing))
        ∙ operation_at-insert p m q n op [] paths
        ∙ ground (arith, missing, eq_iff p q)
    | inr (v, there) ↦
        let (fs, is) = ok_items p v there in
        let at : lookup p paths ≡ some (object fs) = there ∙ ap some is in
        ap (λ d. operation_at d q n) (sym (add_operation-object p m op paths fs at))
        ∙ operation_at-insert p m q n op (entries fs) paths
        ∙ ground (arith, at, eq_iff p q)
  ]

  insert-ObjectItems :
      (p : String) (item : Dict (Value J.Number)) (paths : Dict (Value J.Number))
      → ObjectItems paths
      → ObjectItems (insert p (json item) paths)
  unfolding ObjectItems
  insert-ObjectItems p item paths ok_items q v h = elim (Bool-cases (str_eq p q)) [
    | inl same ↦ (from_entries item, ground (arith, h, same, lookup-insert p q (json item) paths))
    | inr other ↦ ok_items q v (ground (arith, h, other, lookup-insert p q (json item) paths))
  ]

  pub add_operation-ObjectItems :
      (p m : String) (op : Value J.Number) (paths : Dict (Value J.Number))
      → ObjectItems paths
      → ObjectItems (add_operation J is_int p m op paths)
  unfolding ObjectItems
  add_operation-ObjectItems p m op paths ok_items = elim (Option-cases (lookup p paths)) [
    | inl missing ↦
        subst ObjectItems (add_operation-none p m op paths missing)
          (insert-ObjectItems p (insert m op []) paths ok_items)
    | inr (v, there) ↦
        let (fs, is) = ok_items p v there in
        subst ObjectItems (add_operation-object p m op paths fs (there ∙ ap some is))
          (insert-ObjectItems p (insert m op (entries fs)) paths ok_items)
  ]

  responses-operation_of :
      (ep : EndpointConfig J) (snapshot : SnapshotFile J.Number)
      → get_key "responses" (json (operation_of J is_int ep snapshot))
        ≡ some (responses_of J is_int snapshot)
  unfolding operation_of
  responses-operation_of ep snapshot =
      ap (λ m. lookup "responses" m) (entries-from_entries (operation_of J is_int ep snapshot))
      ∙ lookup-insert "responses" "responses" (responses_of J is_int snapshot) (
          with_request_body J is_int ep.body (
            with_parameters J is_int ep.query_params
              (insert "operationId" (string ep.name) (insert "summary" (string ep.name) []))))

  pub find_schema-operation_at :
      (paths : Dict (Value J.Number)) (ep : EndpointConfig J) (snapshot : SnapshotFile J.Number)
      (p m : String)
      → operation_at paths p m ≡ some (json (operation_of J is_int ep snapshot))
      → find_schema paths p m snapshot.metadata.status_code
        ≡ some (infer_schema_from_value is_int snapshot.masked_body)
  unfolding find_schema operation_of
  find_schema-operation_at paths ep snapshot p m h =
      ground (
        arith,
        h,
        responses-operation_of ep snapshot,
        eq_refl (show_ℕ snapshot.metadata.status_code),
      )

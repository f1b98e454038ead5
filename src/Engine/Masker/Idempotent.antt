-- ===== src/Engine/Masker/Idempotent.antt =====
-- Masking what is already masked changes nothing.
use apisnap.Common.{
  ℕ, zero, suc, ◌≡◌, refl, ap, ap₂, ◌⊎◌, inl, inr, String, Bool, true, false, not, ◌&&◌, Option,
  none, some, List, [], ◌∷◌, ◌++◌, ltb, arith, Bool-cases, Option-cases, if◌then◌else◌,
}
use apisnap.Json.{
  Value, null, bool, number, string, array, object, Items, nil, cons, Fields, end, field,
}
use apisnap.Config.{CustomMaskRule}
use apisnap.Engine.Masker.Segments.{PathSegment, root, key, index, segments_to_string_path}
use apisnap.Engine.Masker.{
  Patterns, MaskContext, str_contains, is_leaf, is_masked_token, ends_with_gt, match_tokenized_rule,
  apply_custom_rule, guarded, mask_recursive, mask_items, mask_fields, mask_text, mask_string,
  mask_number, has_time_hint, mask_value, masked_epoch, masked_uuid, masked_jwt, masked_object_id,
  masked_ssn, masked_credit_card, masked_email, masked_timestamp, is_credit_card_luhn,
}

-- A text that stays, or is a token.
abbrev Settled : String → String → Type 0
Settled s x = (x ≡ s) ⊎ (is_masked_token x ≡ true)

Settled-if :
    (b : Bool) (s token rest : String)
    → is_masked_token token ≡ true
    → Settled s rest
    → Settled s (if b then token else rest)
Settled-if true s token rest h r = inr h
Settled-if false s token rest h r = r

module _ {N : Type 0} (R : Patterns N) (ctx : MaskContext R.Regex)
    (plain : (segs : List PathSegment) (rule : CustomMaskRule)
      → match_tokenized_rule ctx segs ≡ some rule
      → rule.pattern ≡ none) where
  mask_text-Settled : (s : String) → Settled s (mask_text R s)
  unfolding mask_text is_masked_token ends_with_gt
  mask_text-Settled s = Settled-if (R.is_uuid s) s masked_uuid _ refl (
      Settled-if (R.is_jwt s) s masked_jwt _ refl (
        Settled-if (R.is_object_id s) s masked_object_id _ refl (
          Settled-if (R.is_ssn s) s masked_ssn _ refl (
            Settled-if (is_credit_card_luhn s) s masked_credit_card _ refl (
              Settled-if (R.is_email s) s masked_email _ refl
                (Settled-if (R.is_iso8601 s) s masked_timestamp _ refl (inl refl)))))))

  mask_string-again : (s : String) → mask_string R ctx (mask_string R ctx s) ≡ mask_string R ctx s
  unfolding mask_string
  mask_string-again s = elim (Bool-cases ctx.enable_builtin_heuristics) [
    | inr off ↦ rw off
    | inl on ↦ ground (arith, mask_text-Settled s)
  ]

  -- What a guarded value is left as, it stays as, if what the match on its variant makes does.
  module _ (segs : List PathSegment) (parent_key : Option String) (depth : ℕ) where
    abbrev Stays : Value N → Type 0
    Stays w = mask_recursive R ctx w segs parent_key depth ≡ w

    guarded-Stays :
        (v inner : Value N)
        → is_leaf inner ≡ is_leaf v
        → mask_recursive R ctx inner segs parent_key depth ≡ guarded R ctx inner segs depth inner
        → Stays (guarded R ctx v segs depth inner)
    unfolding guarded mask_recursive is_leaf apply_custom_rule
    guarded-Stays v inner same again = elim (Bool-cases (ltb ctx.max_depth depth)) [
      | inl deep ↦ rw deep (rw deep)
      | inr fine ↦ elim (Option-cases (match_tokenized_rule ctx segs)) [
        | inr (rule, matched) ↦
            rw (fine, matched, plain segs rule matched)
              (rw (fine, matched, plain segs rule matched))
        | inl none_matched ↦
            rw (fine, none_matched)
              (elim (Bool-cases (
                ctx.strict_pii_mode
                && (is_leaf v
                    && not (str_contains ctx.unmask_allow_list (segments_to_string_path segs))))) [
                      | inl hidden ↦ rw hidden (ground (arith, fine, none_matched, hidden))
                      | inr shown ↦
                          rw shown (ground (arith, fine, none_matched, shown, again, same))
                    ])
      ]
    ]

  mask_string-epoch : mask_string R ctx masked_epoch ≡ masked_epoch
  unfolding mask_string is_masked_token
  mask_string-epoch = ground arith

  number-Stays :
      (n : N) (segs : List PathSegment) (parent_key : Option String) (depth : ℕ)
      → Stays segs parent_key depth
          (guarded R ctx (number n) segs depth (mask_number R ctx n parent_key))
  unfolding mask_number is_leaf mask_recursive
  number-Stays n segs parent_key depth =
      elim (Bool-cases (
        ctx.enable_builtin_heuristics
        && (has_time_hint R parent_key && R.is_unix_epoch (R.show_number n)))) [
          | inl epoch ↦ rw epoch (
              guarded-Stays segs parent_key depth (number n) (string masked_epoch) refl
                (rw mask_string-epoch))
          | inr other ↦
              rw other (guarded-Stays segs parent_key depth (number n) (number n) refl (rw other))
        ]

  mutual
    unfolding mask_recursive is_leaf

    mask_recursive-again :
        (v : Value N) (segs : List PathSegment) (parent_key : Option String) (depth : ℕ)
        → mask_recursive R ctx (mask_recursive R ctx v segs parent_key depth) segs parent_key depth
          ≡ mask_recursive R ctx v segs parent_key depth
    mask_recursive-again null segs parent_key depth =
        guarded-Stays segs parent_key depth null null refl refl
    mask_recursive-again (bool b) segs parent_key depth =
        guarded-Stays segs parent_key depth (bool b) (bool b) refl refl
    mask_recursive-again (number n) segs parent_key depth = number-Stays n segs parent_key depth
    mask_recursive-again (string s) segs parent_key depth =
        guarded-Stays segs parent_key depth (string s) (string (mask_string R ctx s)) refl
          (rw mask_string-again)
    mask_recursive-again (array vs) segs parent_key depth =
        guarded-Stays segs parent_key depth (array vs) _ refl (
          ap
            (λ ws.
              guarded R ctx (array (mask_items R ctx vs zero segs parent_key (suc depth))) segs
                depth (array ws))
            (mask_items-again vs zero segs parent_key (suc depth)))
    mask_recursive-again (object fs) segs parent_key depth =
        guarded-Stays segs parent_key depth (object fs) _ refl (
          ap
            (λ gs.
              guarded R ctx (object (mask_fields R ctx fs segs (suc depth))) segs depth (object gs))
            (mask_fields-again fs segs (suc depth)))

    mask_items-again :
        (vs : Items N) (idx : ℕ) (segs : List PathSegment) (parent_key : Option String) (depth : ℕ)
        → mask_items R ctx (mask_items R ctx vs idx segs parent_key depth) idx segs parent_key depth
          ≡ mask_items R ctx vs idx segs parent_key depth
    mask_items-again nil idx segs parent_key depth = refl
    mask_items-again (cons v vs) idx segs parent_key depth =
        ap₂ cons (mask_recursive-again v (segs ++ index idx ∷ []) parent_key depth)
          (mask_items-again vs (suc idx) segs parent_key depth)

    mask_fields-again :
        (fs : Fields N) (segs : List PathSegment) (depth : ℕ)
        → mask_fields R ctx (mask_fields R ctx fs segs depth) segs depth
          ≡ mask_fields R ctx fs segs depth
    mask_fields-again end segs depth = refl
    mask_fields-again (field k v fs) segs depth =
        ap₂ (field k) (mask_recursive-again v (segs ++ key k ∷ []) (some k) depth)
          (mask_fields-again fs segs depth)

  -- If every custom rule that applies somewhere replaces the whole value (it has no pattern), then
  -- masking a masked tree again changes nothing, in strict mode or not and at any depth.
  pub mask_value_idem : (v : Value N) → mask_value R ctx (mask_value R ctx v) ≡ mask_value R ctx v
  unfolding mask_value
  mask_value_idem v = mask_recursive-again v (root ∷ []) none 0

-- ===== src/Witnesses/Rules.antt =====
-- The theorems on the rule cache, the precedence of overrides, card numbers, the secret scan, the
-- encryption, the approvals and the shadow filter, applied.
use apisnap.Common.{
  ℕ, ◌≡◌, ◌≢◌, ◌<>◌, refl, arith, String, true, false, Option, none, some, List, [], ◌∷◌, ◌++◌, ◌⊎◌,
  In, map, ◌↔◌, sym, lookup, ok,
}
use apisnap.Config.{CustomMaskRule, MaskingConfig, default_masking}
use apisnap.Crypto.{Aes256Gcm, SnapshotEncryptor, encrypt, decrypt}
use apisnap.Crypto.Roundtrip.{IsAead, decrypt-encrypt}
use apisnap.Engine.JitRule.{
  as_bytes, rule_hashes, fnv1a_hash, ruleset_bytes, compute_ruleset_hash, new_engine,
}
use apisnap.Engine.JitRule.Lookup.{last_index, any_extends}
use apisnap.Engine.JitRule.Cache.{IsFaithful, NoCollision}
use apisnap.Engine.Masker.{rule_paths}
use apisnap.Engine.Masker.Segments.{root, key, index, parse_json_path_to_segments, segments_match}
use apisnap.Engine.Masker.Luhn.{is_credit_card_luhn}
use apisnap.Engine.Masker.Secrets.{
  scan_unmasked_secrets, strings_of, IsClean, scan_unmasked_secrets_iff,
}
use apisnap.Snapshot.Approvals.{
  ApprovalLedger, absent, holds, written, load_from_dir, approve, is_approved, consume_approval,
}
use apisnap.Snapshot.Approvals.Lifecycle.{approve-consume_approval}
use apisnap.Json.{Value, number}
use apisnap.Wasm.ShadowFilter.{new_session, structurally_drifted, check_structural_drift}
use apisnap.Wasm.ShadowFilter.Stream.{Chunk, receive, check_structural_drift-receive}
use apisnap.Witnesses.Data.{user, user_reordered, patterns}

-- Two rule sets, with different hashes.
abbrev Configured : List String → Type 0
Configured p = (p ≡ "$.a" ∷ []) ⊎ (p ≡ "$.b" ∷ "$.c" ∷ [])

Configured-NoCollision : NoCollision Configured
unfolding compute_ruleset_hash
Configured-NoCollision = record { distinct = λ p q hp hq e. ground (arith, hp, hq, e) }

new-IsFaithful : IsFaithful Configured new_engine
new-IsFaithful = record { origin = λ h f e. absurd (cc e) }

joined : ruleset_bytes ("$.a" ∷ "$.b" ∷ []) ≡ ruleset_bytes ("$.a$.b" ∷ [])
unfolding as_bytes
joined = refl

abbrev global_name : CustomMaskRule
global_name = record { json_path = "$.user.name"; replacement = "G"; pattern = none }

abbrev override_name : CustomMaskRule
override_name = record { json_path = "$.user.name"; replacement = "O"; pattern = none }

abbrev global_item : CustomMaskRule
global_item = record { json_path = "$.users[0]"; replacement = "G"; pattern = none }

abbrev override_item : CustomMaskRule
override_item = record { json_path = "$.users[0]"; replacement = "O"; pattern = none }

abbrev with_rule : CustomMaskRule → MaskingConfig
with_rule rule = record default_masking { custom_rules = rule ∷ [] }

name_last :
    last_index 0
      (map rule_hashes (rule_paths patterns (global_name ∷ override_name ∷ [])))
      (map fnv1a_hash ("user" ∷ "name" ∷ []))
    ≡ some 1
unfolding rule_hashes fnv1a_hash
name_last = refl

name_alone :
    any_extends
      (map rule_hashes (rule_paths patterns (global_name ∷ override_name ∷ [])))
      (map fnv1a_hash ("user" ∷ "name" ∷ []))
    ≡ false
unfolding rule_hashes fnv1a_hash
name_alone = refl

item_matches :
    segments_match (parse_json_path_to_segments "$.users[0]") (root ∷ key "users" ∷ index 0 ∷ [])
    ≡ true
unfolding segments_match parse_json_path_to_segments
item_matches = refl

-- A card number for tests.
passes : is_credit_card_luhn ("4111 1111 1111 11" <> "11") ≡ true
unfolding is_credit_card_luhn
passes = refl

scan_unmasked_secrets_iff_example :
    (scan_unmasked_secrets patterns user ≡ ok tt)
    ↔ ((s path : String) → In (s, path) (strings_of user "$") → IsClean patterns s)
scan_unmasked_secrets_iff_example = scan_unmasked_secrets_iff patterns user

-- A cipher that puts the key before the text.
abbrev toy_aes : Aes256Gcm
toy_aes = record { seal = λ k nonce text. ok text; unseal = λ k nonce sealed. ok sealed }

toy-IsAead : IsAead toy_aes
toy-IsAead = record { unseal-seal = λ k nonce text sealed e. sym e }

abbrev encryptor : SnapshotEncryptor
encryptor = record { key = 1 ∷ 2 ∷ [] }

abbrev nonce : List ℕ
nonce = 0 ∷ 1 ∷ 2 ∷ 3 ∷ 4 ∷ 5 ∷ 6 ∷ 7 ∷ 8 ∷ 9 ∷ 10 ∷ 11 ∷ []

encrypted : encrypt toy_aes encryptor nonce (65 ∷ 66 ∷ []) ≡ ok (nonce ++ 65 ∷ 66 ∷ [])
unfolding encrypt
encrypted = refl

decrypt-encrypt_example : decrypt toy_aes encryptor (nonce ++ 65 ∷ 66 ∷ []) ≡ ok (65 ∷ 66 ∷ [])
decrypt-encrypt_example =
    decrypt-encrypt toy_aes toy-IsAead encryptor nonce (65 ∷ 66 ∷ []) (nonce ++ 65 ∷ 66 ∷ []) refl
      encrypted

abbrev no_trim : String → String
no_trim s = s

abbrev no_hex : String → Option (List ℕ)
no_hex s = none

approve-consume_approval_example :
    (approvals' : ApprovalLedger) × (left : ApprovalLedger) × (load_from_dir
        (approve written "now" "get_user" "ann" "planned" [] absent).2
      ≡ some approvals')
    × (consume_approval written "get_user" approvals' (holds approvals') ≡ (
      some (record {
        endpoint_name = "get_user";
        approved_by = "ann";
        reason = "planned";
        approved_at = "now";
      }),
      left,
      holds left,
    ))
    × (is_approved "get_user" left ≡ false)
    × ((other : String) → other ≢ "get_user" → lookup other left ≡ lookup other [])
approve-consume_approval_example =
    approve-consume_approval "now" "get_user" "ann" "planned" [] absent

not_drifted : structurally_drifted user user_reordered ≡ false
unfolding structurally_drifted
not_drifted = refl

abbrev chunk : String → List ℕ → Chunk
chunk role bytes = record { role = role; bytes = bytes; end_of_stream = false }

-- A parser that reads the first byte as a number.
abbrev first_byte : List ℕ → Option (Value ℕ)
first_byte [] = none
first_byte (b ∷ bytes) = some (number b)

-- The baseline in two chunks around the candidate's, and in one chunk behind it.
check_structural_drift-receive_example :
    check_structural_drift first_byte (
      receive
        (chunk "baseline" (1 ∷ []) ∷ chunk "candidate" (9 ∷ []) ∷ chunk "baseline" (2 ∷ []) ∷ [])
        (new_session 1))
    ≡ check_structural_drift first_byte
        (receive (chunk "candidate" (9 ∷ []) ∷ chunk "baseline" (1 ∷ 2 ∷ []) ∷ []) (new_session 2))
check_structural_drift-receive_example =
    check_structural_drift-receive first_byte 1 2
      (chunk "baseline" (1 ∷ []) ∷ chunk "candidate" (9 ∷ []) ∷ chunk "baseline" (2 ∷ []) ∷ [])
      (chunk "candidate" (9 ∷ []) ∷ chunk "baseline" (1 ∷ 2 ∷ []) ∷ []) refl refl

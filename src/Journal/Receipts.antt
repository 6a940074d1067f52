-- ===== src/Journal/Receipts.antt =====
-- engine/publication-journal.ts, the stored receipts: parsing, building, loading, and the create-only
-- write that falls back to the receipt that is there.
use governed_learning_loop.Prelude.{
  ℕ, String, Bool, not, ◌||◌, Option, none, some, List, [], ◌∷◌, ◌++◌, map, ltb, ◌!=◌, String_eq,
  ℕ_eq,
}
use governed_learning_loop.Diagnostics.{
  Result, ok, throw, ◌>>=◌, ◌>>◌, throw_if, failure, diagnostic,
}
use governed_learning_loop.Json.{
  Json, num, natural, str, obj, fields_of, optional_member, Runtime, ◌⋯◌,
  sha256_hex_of_canonical_json,
}
use governed_learning_loop.Json.Parse.{
  Parse, invalid, parse_id, parse_durable_id, parse_digest_at, read_fields, req, schema_version_1,
}
use governed_learning_loop.Store.{StoredRecord}
use governed_learning_loop.Action.{Action, ◌>>=◌ as and_then, lift, pure}
use governed_learning_loop.Semantic.{is_none_left}
use governed_learning_loop.Engine.{store_corrupt, Creation, was_created}
use governed_learning_loop.Engine.Load.{load_stored_record, create_only}
use governed_learning_loop.Publication.{
  PreparedEffect, PublicationPlan, PublicationReceipt, publication_plan_id_for,
  publication_effect_idempotency_key, publication_receipt_mismatch_reasons,
}
use governed_learning_loop.Publication.Parse.{parse_publication_receipt}

abbrev pub receipt_kind_name : String
receipt_kind_name = "publication-receipt"

abbrev pub max_effect_index : ℕ
max_effect_index = 1000

pub record StoredPublicationReceipt : Type 0 where
  pub id : String
  pub plan_id : String
  pub plan_digest : String
  pub intervention_id : String
  pub effect_id : String
  pub effect_index : ℕ
  pub idempotency_key : String
  pub receipt : PublicationReceipt
  pub receipt_digest : String

abbrev pub receipt_id_for : String → String
receipt_id_for idempotency_key = "receipt-" ⋯ idempotency_key

abbrev pub intervention_id_for : String → String
intervention_id_for plan_digest = "intervention-" ⋯ plan_digest

unfoldable pub receipt_json : PublicationReceipt → Json
receipt_json r = obj (
    fields_of (
      ("destinationId", str r.destination_id)
      ∷ ("effectId", str r.effect_id)
      ∷ ("target", str r.target)
      ∷ (optional_member "expectedBase" r.expected_base
          ++ (optional_member "finalVersion" r.final_version
              ++ (("payloadDigest", str r.payload_digest)
                  ∷ ("idempotencyKey", str r.idempotency_key)
                  ∷ ("appliedAt", str r.applied_at)
                  ∷ [])))))

-- The members that a stored receipt and its digest share.
abbrev content_members : StoredPublicationReceipt → List (String × Json)
content_members s =
    ("planId", str s.plan_id)
    ∷ ("planDigest", str s.plan_digest)
    ∷ ("interventionId", str s.intervention_id)
    ∷ ("effectId", str s.effect_id)
    ∷ ("effectIndex", num (natural s.effect_index))
    ∷ ("idempotencyKey", str s.idempotency_key)
    ∷ ("receipt", receipt_json s.receipt)
    ∷ []

unfoldable pub stored_receipt_content : StoredPublicationReceipt → Json
stored_receipt_content s =
    obj (fields_of (("domain", str "publication-receipt:v1") ∷ content_members s))

-- `toJsonValue(receipt)`
unfoldable pub stored_receipt_json : StoredPublicationReceipt → Json
stored_receipt_json s = obj (
    fields_of (
      ("schemaVersion", num (natural 1))
      ∷ ("id", str s.id)
      ∷ (content_members s ++ (("receiptDigest", str s.receipt_digest) ∷ []))))

unfoldable pub parse_effect_index_at : Parse ℕ
parse_effect_index_at (num (natural n)) = do throw_if (not (ltb n max_effect_index)) invalid; ok n
parse_effect_index_at _ = throw invalid

module _ (rt : Runtime) where
  -- Whether a stored receipt fails to bind its plan, effect and key.
  unfoldable pub is_unbound : StoredPublicationReceipt → Bool
  is_unbound s =
      s.id != receipt_id_for s.idempotency_key
      || (s.idempotency_key != publication_effect_idempotency_key rt s.plan_digest s.effect_id
          || (s.plan_id != publication_plan_id_for rt s.plan_digest
              || (s.intervention_id != intervention_id_for s.plan_digest
                  || (s.receipt.idempotency_key != s.idempotency_key
                      || s.receipt.effect_id != s.effect_id))))

  unfoldable pub parse_stored_publication_receipt : Parse StoredPublicationReceipt
  parse_stored_publication_receipt input = do
    fields ← read_fields input
    schema_version_1 fields
    plan_id ← req fields "planId" parse_durable_id
    plan_digest ← req fields "planDigest" parse_digest_at
    intervention_id ← req fields "interventionId" parse_durable_id
    effect_id ← req fields "effectId" parse_id
    effect_index ← req fields "effectIndex" parse_effect_index_at
    idempotency_key ← req fields "idempotencyKey" parse_durable_id
    receipt ← req fields "receipt" (parse_publication_receipt rt)
    id ← req fields "id" parse_durable_id
    receipt_digest ← req fields "receiptDigest" parse_digest_at
    let stored : StoredPublicationReceipt = record {
      id = id;
      plan_id = plan_id;
      plan_digest = plan_digest;
      intervention_id = intervention_id;
      effect_id = effect_id;
      effect_index = effect_index;
      idempotency_key = idempotency_key;
      receipt = receipt;
      receipt_digest = receipt_digest;
    }
    throw_if (is_unbound stored) (failure "schema.corrupt")
    throw_if (receipt_digest != sha256_hex_of_canonical_json rt (stored_receipt_content stored))
        (failure "schema.corrupt")
    ok stored

  unfoldable pub build_stored_publication_receipt :
      PublicationPlan
      → PreparedEffect
      → ℕ
      → String
      → PublicationReceipt
      → Result StoredPublicationReceipt
  build_stored_publication_receipt plan effect effect_index idempotency_key receipt =
      let content : StoredPublicationReceipt = record {
        id = receipt_id_for idempotency_key;
        plan_id = plan.id;
        plan_digest = plan.plan_digest;
        intervention_id = intervention_id_for plan.plan_digest;
        effect_id = effect.id;
        effect_index = effect_index;
        idempotency_key = idempotency_key;
        receipt = receipt;
        receipt_digest = "";
      } in
      parse_stored_publication_receipt (
        stored_receipt_json (record content {
          receipt_digest = sha256_hex_of_canonical_json rt (stored_receipt_content content);
        }))

  -- What `loadStoredPublicationReceipt` makes of the stored record.
  unfoldable pub receipt_of :
      String → Option StoredRecord → Result (Option StoredPublicationReceipt)
  receipt_of receipt_id none = ok none
  receipt_of receipt_id (some stored) = do
    receipt ← parse_stored_publication_receipt stored.value
    throw_if (receipt.id != receipt_id) store_corrupt
    ok (some receipt)

  unfoldable pub load_stored_publication_receipt : String → Action (Option StoredPublicationReceipt)
  load_stored_publication_receipt receipt_id =
      and_then (load_stored_record rt receipt_kind_name receipt_id)
        λ stored. lift (receipt_of receipt_id stored)

  abbrev mismatches :
      StoredPublicationReceipt → PublicationPlan → PreparedEffect → String → List String
  mismatches stored plan effect idempotency_key =
      publication_receipt_mismatch_reasons stored.receipt (record {
        destination_id = plan.destination_id;
        effect = effect;
        idempotency_key = idempotency_key;
      })

  unfoldable pub assert_stored_receipt_binds :
      StoredPublicationReceipt → PublicationPlan → PreparedEffect → ℕ → String → Result (Unit {0})
  assert_stored_receipt_binds stored plan effect effect_index idempotency_key =
      throw_if
        (stored.plan_digest != plan.plan_digest
          || (stored.effect_index != effect_index
              || (stored.idempotency_key != idempotency_key
                  || not (is_none_left (mismatches stored plan effect idempotency_key)))))
        (record {
          code = "store.corrupt";
          diagnostics =
              diagnostic "store.corrupt"
              ∷ map (λ _. diagnostic "publication.receipt_mismatch")
                  (mismatches stored plan effect idempotency_key);
        })

  -- The receipt that is there, when it binds the same effect.
  unfoldable pub existing_receipt :
      StoredPublicationReceipt
      → PublicationPlan
      → PreparedEffect
      → Option StoredPublicationReceipt
      → Result StoredPublicationReceipt
  existing_receipt receipt plan effect none = throw store_corrupt
  existing_receipt receipt plan effect (some stored) = do
    assert_stored_receipt_binds stored plan effect receipt.effect_index receipt.idempotency_key
    ok stored

  unfoldable pub after_creation :
      StoredPublicationReceipt
      → PublicationPlan
      → PreparedEffect
      → Creation
      → Action StoredPublicationReceipt
  after_creation receipt plan effect was_created = pure receipt
  after_creation receipt plan effect _ =
      and_then (load_stored_publication_receipt receipt.id)
        λ stored. lift (existing_receipt receipt plan effect stored)

  unfoldable pub ensure_stored_publication_receipt :
      StoredPublicationReceipt → PublicationPlan → PreparedEffect → Action StoredPublicationReceipt
  unfolding after_creation
  ensure_stored_publication_receipt receipt plan effect =
      and_then
        (create_only rt receipt_kind_name receipt.id (stored_receipt_json receipt)
          ("publication-receipt/" ⋯ receipt.id))
        λ status. after_creation receipt plan effect status

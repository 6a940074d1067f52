-- ===== src/Publication/Parse.antt =====
-- records/publication.ts: the parsers of plans, bindings and receipts.
use governed_learning_loop.Prelude.{
  ℕ, String, Bool, true, false, not, Option, none, some, List, [], ◌∷◌, map, if◌then◌else◌, ◌!=◌,
  String_eq,
}
use governed_learning_loop.Diagnostics.{Result, ok, ◌>>=◌, ◌>>◌, throw_if, failure}
use governed_learning_loop.Json.{Json, Fields, Runtime, ◌⋯◌, sha256_hex_of_canonical_json}
use governed_learning_loop.Json.Parse.{
  Parse, invalid, parse_id, parse_durable_id, parse_digest_at, parse_bounded_text,
  parse_bounded_array, parse_nullable, parse_one_of, parse_canonical_timestamp_at, read_fields, req,
  opt, schema_version_1,
}
use governed_learning_loop.Intervention.Parse.{assert_unique_ids}
use governed_learning_loop.Semantic.{
  parse_detector_ref_at, parse_pack_ref_at, parse_lens_ref_at, assert_sorted_unique, is_none_left,
}
use governed_learning_loop.Publication.{
  EffectClass, proposal, context, external, authority, PublicationAction, publish, disable,
  rollback, compensate, RiskTier, t0, t1, t2, t3, AfterEffectSemantics, disable_after,
  rollback_after, compensate_after, irreversible, PreparedEffect, LineageDerivation,
  PublicationLineage, PublicationPlan, AuthorizationBinding, PublicationReceipt,
  publication_plan_digest, publication_plan_id_for,
}

abbrev pub effect_classes : List (String × EffectClass)
effect_classes =
    ("proposal", proposal)
    ∷ ("context", context)
    ∷ ("external", external)
    ∷ ("authority", authority)
    ∷ []

abbrev pub publication_actions : List (String × PublicationAction)
publication_actions =
    ("publish", publish)
    ∷ ("disable", disable)
    ∷ ("rollback", rollback)
    ∷ ("compensate", compensate)
    ∷ []

abbrev pub risk_tiers : List (String × RiskTier)
risk_tiers = ("T0", t0) ∷ ("T1", t1) ∷ ("T2", t2) ∷ ("T3", t3) ∷ []

pub data AfterEffectKind : Type 0 where
  disable_kind rollback_kind compensate_kind irreversible_kind : AfterEffectKind

abbrev after_effect_kinds : List (String × AfterEffectKind)
after_effect_kinds =
    ("disable", disable_kind)
    ∷ ("rollback", rollback_kind)
    ∷ ("compensate", compensate_kind)
    ∷ ("irreversible", irreversible_kind)
    ∷ []

abbrev pub max_effects_per_plan : ℕ
max_effects_per_plan = 100

-- `parseJson`, on a value that is JSON already.
abbrev parse_json : Parse Json
parse_json input = ok input

unfoldable pub after_effect_of : Fields → AfterEffectKind → Result AfterEffectSemantics
after_effect_of fields irreversible_kind = do
  rationale ← req fields "rationale" (parse_bounded_text 10000)
  ok (irreversible rationale)
after_effect_of fields disable_kind = do
  payload ← req fields "payload" parse_json
  ok (disable_after payload)
after_effect_of fields rollback_kind = do
  payload ← req fields "payload" parse_json
  ok (rollback_after payload)
after_effect_of fields compensate_kind = do
  payload ← req fields "payload" parse_json
  ok (compensate_after payload)

unfoldable pub parse_after_effect_at : Parse AfterEffectSemantics
unfolding after_effect_of
parse_after_effect_at input = do
  fields ← read_fields input
  kind ← req fields "kind" (parse_one_of after_effect_kinds)
  after_effect_of fields kind

module _ (rt : Runtime) where
  unfoldable pub parse_prepared_effect_at : Parse PreparedEffect
  unfolding read_fields
  parse_prepared_effect_at input = do
    fields ← read_fields input
    id ← req fields "id" parse_id
    kind ← req fields "kind" parse_id
    target ← req fields "target" parse_durable_id
    expected_base ← opt fields "expectedBase" parse_id
    payload ← req fields "payload" parse_json
    payload_digest ← req fields "payloadDigest" parse_digest_at
    throw_if (payload_digest != sha256_hex_of_canonical_json rt payload) (failure "schema.corrupt")
    after_effect ← req fields "afterEffect" parse_after_effect_at
    ok (record {
      id = id;
      kind = kind;
      target = target;
      expected_base = expected_base;
      payload = payload;
      payload_digest = payload_digest;
      after_effect = after_effect;
    })

  unfoldable pub parse_lineage_derivation_at : Parse LineageDerivation
  unfolding read_fields
  parse_lineage_derivation_at input = do
    fields ← read_fields input
    id ← req fields "id" parse_durable_id
    digest ← req fields "digest" parse_digest_at
    throw_if (id != ("insight-" ⋯ digest)) (failure "schema.corrupt")
    detector ← req fields "detector" parse_detector_ref_at
    lens ← req fields "lens" parse_lens_ref_at
    pack ← req fields "pack" (parse_nullable parse_pack_ref_at)
    ok (record { id = id; digest = digest; detector = detector; lens = lens; pack = pack })

  unfoldable pub parse_publication_lineage_at : Parse PublicationLineage
  unfolding read_fields
  parse_publication_lineage_at input = do
    fields ← read_fields input
    parent ← opt fields "parentInterventionId" parse_durable_id
    scope ← req fields "scopeDigest" parse_digest_at
    policy ← req fields "scopePolicyDigest" parse_digest_at
    revision ← req fields "registryRevision" parse_digest_at
    destination ← req fields "destinationRegistrationDigest" parse_digest_at
    derivation ← req fields "derivation" (parse_nullable parse_lineage_derivation_at)
    ok (record {
      scope_digest = scope;
      scope_policy_digest = policy;
      registry_revision = revision;
      destination_registration_digest = destination;
      derivation = derivation;
      parent_intervention_id = parent;
    })

  abbrev effect_ids : List PreparedEffect → List String
  effect_ids effects = map (λ (e : PreparedEffect). e.id) effects

  unfoldable pub parse_effects_at : Parse (List PreparedEffect)
  parse_effects_at input = do
    effects ← parse_bounded_array parse_prepared_effect_at max_effects_per_plan input
    throw_if (is_none_left effects) invalid
    assert_unique_ids (effect_ids effects)
    ok effects

  abbrev pub is_publish : PublicationAction → Bool
  is_publish publish = true
  is_publish _ = false

  abbrev pub is_absent : Option String → Bool
  is_absent none = true
  is_absent (some _) = false

  -- `(action === "publish") !== (parentInterventionId === undefined)`
  unfoldable pub is_parent_mismatched : PublicationAction → Option String → Bool
  is_parent_mismatched action parent =
      if is_publish action then not (is_absent parent) else is_absent parent

  unfoldable pub parse_publication_plan : Parse PublicationPlan
  unfolding read_fields is_parent_mismatched
  parse_publication_plan input = do
    fields ← read_fields input
    schema_version_1 fields
    candidate_id ← req fields "candidateId" parse_durable_id
    candidate_digest ← req fields "candidateDigest" parse_digest_at
    destination_id ← req fields "destinationId" parse_id
    action ← req fields "action" (parse_one_of publication_actions)
    effect_class ← req fields "effectClass" (parse_one_of effect_classes)
    effective_risk ← req fields "effectiveRisk" (parse_one_of risk_tiers)
    effects ← req fields "effects" parse_effects_at
    lineage ← req fields "lineage" parse_publication_lineage_at
    policy_digest ← req fields "policyDigest" parse_digest_at
    throw_if (is_parent_mismatched action lineage.parent_intervention_id) invalid
    plan_digest ← req fields "planDigest" parse_digest_at
    let content : PublicationPlan = record {
      id = "";
      candidate_id = candidate_id;
      candidate_digest = candidate_digest;
      destination_id = destination_id;
      action = action;
      effect_class = effect_class;
      effective_risk = effective_risk;
      effects = effects;
      lineage = lineage;
      plan_digest = plan_digest;
      policy_digest = policy_digest;
      created_at = "";
    }
    throw_if (plan_digest != publication_plan_digest rt content) (failure "schema.corrupt")
    id ← req fields "id" parse_durable_id
    throw_if (id != publication_plan_id_for rt plan_digest) (failure "schema.corrupt")
    created_at ← req fields "createdAt" (parse_canonical_timestamp_at rt)
    ok (record content { id = id; created_at = created_at })

  unfoldable pub parse_authorization_binding : Parse AuthorizationBinding
  unfolding read_fields
  parse_authorization_binding input = do
    fields ← read_fields input
    expected_bases ← req fields "expectedBases" (parse_bounded_array parse_id max_effects_per_plan)
    assert_sorted_unique rt expected_bases
    plan_digest ← req fields "planDigest" parse_digest_at
    candidate_digest ← req fields "candidateDigest" parse_digest_at
    destination_id ← req fields "destinationId" parse_id
    effect_class ← req fields "effectClass" (parse_one_of effect_classes)
    effective_risk ← req fields "effectiveRisk" (parse_one_of risk_tiers)
    action ← req fields "action" (parse_one_of publication_actions)
    policy_digest ← req fields "policyDigest" parse_digest_at
    closure ← req fields "lineageClosureDigest" parse_digest_at
    ok (record {
      plan_digest = plan_digest;
      candidate_digest = candidate_digest;
      destination_id = destination_id;
      effect_class = effect_class;
      effective_risk = effective_risk;
      action = action;
      expected_bases = expected_bases;
      policy_digest = policy_digest;
      lineage_closure_digest = closure;
    })

  unfoldable pub parse_publication_receipt : Parse PublicationReceipt
  unfolding read_fields
  parse_publication_receipt input = do
    fields ← read_fields input
    destination_id ← req fields "destinationId" parse_id
    effect_id ← req fields "effectId" parse_id
    target ← req fields "target" parse_durable_id
    expected_base ← opt fields "expectedBase" parse_id
    final_version ← opt fields "finalVersion" parse_id
    payload_digest ← req fields "payloadDigest" parse_digest_at
    idempotency_key ← req fields "idempotencyKey" parse_durable_id
    applied_at ← req fields "appliedAt" (parse_canonical_timestamp_at rt)
    ok (record {
      destination_id = destination_id;
      effect_id = effect_id;
      target = target;
      expected_base = expected_base;
      final_version = final_version;
      payload_digest = payload_digest;
      idempotency_key = idempotency_key;
      applied_at = applied_at;
    })

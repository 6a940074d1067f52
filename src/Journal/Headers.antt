-- ===== src/Journal/Headers.antt =====
-- engine/publication-journal.ts: the header of an intervention. Its builder takes the time that the
-- source reads from the clock as an argument.
use governed_learning_loop.Prelude.{
  String, ◌||◌, Option, none, some, List, [], ◌∷◌, ◌++◌, ◌==◌, ◌!=◌, String_eq, Option_eq,
}
use governed_learning_loop.Diagnostics.{Result, ok, throw, ◌>>=◌, ◌>>◌, throw_if, failure}
use governed_learning_loop.Json.{
  Json, null, num, natural, str, obj, fields_of, Runtime, ◌⋯◌, sha256_hex_of_canonical_json,
}
use governed_learning_loop.Json.Parse.{
  Parse, parse_id, parse_durable_id, parse_digest_at, parse_canonical_timestamp_at, parse_nullable,
  parse_one_of, read_fields, req, schema_version_1,
}
use governed_learning_loop.Store.{StoredRecord}
use governed_learning_loop.Action.{Action, ◌>>=◌ as and_then, lift, pure}
use governed_learning_loop.Engine.{store_corrupt, record_digest, Creation, was_created}
use governed_learning_loop.Engine.Load.{load_stored_record, create_only}
use governed_learning_loop.Publication.{
  PublicationAction, EffectClass, PublicationPlan, action_text, effect_class_text,
  publication_plan_id_for,
}
use governed_learning_loop.Publication.Parse.{
  publication_actions, effect_classes, is_parent_mismatched,
}
use governed_learning_loop.Journal.Receipts.{intervention_id_for}
use governed_learning_loop.Journal.Consumption.{authorization_consumption_id_for}

abbrev pub header_kind_name : String
header_kind_name = "intervention"

pub record InterventionHeader : Type 0 where
  pub id : String
  pub candidate_id : String
  pub candidate_digest : String
  pub plan_id : String
  pub plan_digest : String
  pub destination_id : String
  pub action : PublicationAction
  pub effect_class : EffectClass
  pub scope_digest : String
  pub parent_intervention_id : Option String
  pub authorization_id : String
  pub created_at : String
  pub header_digest : String

abbrev pub nullable_text : Option String → Json
nullable_text none = null
nullable_text (some s) = str s

-- The members of a header but the time and the digest, by which two headers of a plan are compared.
abbrev bound_members : InterventionHeader → List (String × Json)
bound_members h =
    ("candidateId", str h.candidate_id)
    ∷ ("candidateDigest", str h.candidate_digest)
    ∷ ("planId", str h.plan_id)
    ∷ ("planDigest", str h.plan_digest)
    ∷ ("destinationId", str h.destination_id)
    ∷ ("action", str (action_text h.action))
    ∷ ("effectClass", str (effect_class_text h.effect_class))
    ∷ ("scopeDigest", str h.scope_digest)
    ∷ ("parentInterventionId", nullable_text h.parent_intervention_id)
    ∷ ("authorizationId", str h.authorization_id)
    ∷ []

unfoldable pub header_content : InterventionHeader → Json
header_content h = obj (
    fields_of (
      ("domain", str "intervention-header:v1")
      ∷ (bound_members h ++ (("createdAt", str h.created_at) ∷ []))))

unfoldable pub header_json : InterventionHeader → Json
header_json h = obj (
    fields_of (
      ("schemaVersion", num (natural 1))
      ∷ ("id", str h.id)
      ∷ (bound_members h
          ++ (("createdAt", str h.created_at) ∷ ("headerDigest", str h.header_digest) ∷ []))))

unfoldable pub header_bound_json : InterventionHeader → Json
header_bound_json h =
    obj (fields_of (("schemaVersion", num (natural 1)) ∷ ("id", str h.id) ∷ bound_members h))

module _ (rt : Runtime) where
  unfoldable pub parse_intervention_header : Parse InterventionHeader
  unfolding is_parent_mismatched
  parse_intervention_header input = do
    fields ← read_fields input
    schema_version_1 fields
    candidate_id ← req fields "candidateId" parse_durable_id
    candidate_digest ← req fields "candidateDigest" parse_digest_at
    plan_id ← req fields "planId" parse_durable_id
    plan_digest ← req fields "planDigest" parse_digest_at
    destination_id ← req fields "destinationId" parse_id
    action ← req fields "action" (parse_one_of publication_actions)
    effect_class ← req fields "effectClass" (parse_one_of effect_classes)
    scope_digest ← req fields "scopeDigest" parse_digest_at
    parent ← req fields "parentInterventionId" (parse_nullable parse_durable_id)
    authorization_id ← req fields "authorizationId" parse_durable_id
    created_at ← req fields "createdAt" (parse_canonical_timestamp_at rt)
    id ← req fields "id" parse_durable_id
    header_digest ← req fields "headerDigest" parse_digest_at
    let header : InterventionHeader = record {
      id = id;
      candidate_id = candidate_id;
      candidate_digest = candidate_digest;
      plan_id = plan_id;
      plan_digest = plan_digest;
      destination_id = destination_id;
      action = action;
      effect_class = effect_class;
      scope_digest = scope_digest;
      parent_intervention_id = parent;
      authorization_id = authorization_id;
      created_at = created_at;
      header_digest = header_digest;
    }
    throw_if
        (id != intervention_id_for plan_digest
          || (plan_id != publication_plan_id_for rt plan_digest
              || authorization_id != authorization_consumption_id_for plan_digest))
        (failure "schema.corrupt")
    throw_if (is_parent_mismatched rt action parent) (failure "schema.corrupt")
    throw_if (parent == some id) (failure "schema.corrupt")
    throw_if (header_digest != sha256_hex_of_canonical_json rt (header_content header))
        (failure "schema.corrupt")
    ok header

  unfoldable pub build_intervention_header : String → PublicationPlan → Result InterventionHeader
  build_intervention_header now plan =
      let content : InterventionHeader = record {
        id = intervention_id_for plan.plan_digest;
        candidate_id = plan.candidate_id;
        candidate_digest = plan.candidate_digest;
        plan_id = plan.id;
        plan_digest = plan.plan_digest;
        destination_id = plan.destination_id;
        action = plan.action;
        effect_class = plan.effect_class;
        scope_digest = plan.lineage.scope_digest;
        parent_intervention_id = plan.lineage.parent_intervention_id;
        authorization_id = authorization_consumption_id_for plan.plan_digest;
        created_at = now;
        header_digest = "";
      } in
      parse_intervention_header (
        header_json (record content {
          header_digest = sha256_hex_of_canonical_json rt (header_content content);
        }))

  unfoldable pub header_of : String → Option StoredRecord → Result (Option InterventionHeader)
  header_of intervention_id none = ok none
  header_of intervention_id (some stored) = do
    header ← parse_intervention_header stored.value
    throw_if (header.id != intervention_id) store_corrupt
    ok (some header)

  unfoldable pub load_intervention_header : String → Action (Option InterventionHeader)
  load_intervention_header intervention_id =
      and_then (load_stored_record rt header_kind_name intervention_id)
        λ stored. lift (header_of intervention_id stored)

  unfoldable pub existing_header :
      InterventionHeader → Option InterventionHeader → Result InterventionHeader
  existing_header header none = throw store_corrupt
  existing_header header (some stored) = do
    throw_if
        (record_digest rt (header_bound_json stored) != record_digest rt (header_bound_json header))
        store_corrupt
    ok stored

  unfoldable pub after_header_creation : InterventionHeader → Creation → Action InterventionHeader
  after_header_creation header was_created = pure header
  after_header_creation header _ =
      and_then (load_intervention_header header.id) λ stored. lift (existing_header header stored)

  unfoldable pub ensure_intervention_header : InterventionHeader → Action InterventionHeader
  unfolding after_header_creation
  ensure_intervention_header header =
      and_then
        (create_only rt header_kind_name header.id (header_json header)
          ("intervention/" ⋯ header.id))
        λ status. after_header_creation header status

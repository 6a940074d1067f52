-- ===== src/Journal/Scopes.antt =====
-- engine/publication-journal.ts: the membership of an intervention in the index of its scope.
use governed_learning_loop.Prelude.{
  String, ◌||◌, Option, none, some, List, [], ◌∷◌, ◌++◌, ◌!=◌, String_eq,
}
use governed_learning_loop.Diagnostics.{Result, ok, throw, ◌>>=◌, ◌>>◌, throw_if, failure}
use governed_learning_loop.Json.{
  Json, num, natural, str, obj, fields_of, Runtime, ◌⋯◌, sha256_hex_of_canonical_json,
}
use governed_learning_loop.Json.Parse.{
  Parse, parse_id, parse_durable_id, parse_digest_at, parse_nullable, parse_non_empty_text,
  parse_one_of, read_fields, req, schema_version_1,
}
use governed_learning_loop.Store.{
  RecordKey, StoredRecord, WriteResult, updated, conflict, create_call,
}
use governed_learning_loop.Action.{Action, ◌>>=◌ as and_then, lift, store_get, store_call}
use governed_learning_loop.Engine.{store_corrupt, record_digest}
use governed_learning_loop.Publication.{PublicationAction, action_text}
use governed_learning_loop.Publication.Parse.{publication_actions}
use governed_learning_loop.Journal.Headers.{InterventionHeader, nullable_text}

abbrev pub scope_index_kind : String
scope_index_kind = "intervention-scope-index"

abbrev pub intervention_scope_namespace : String → String
intervention_scope_namespace scope_digest = "learning-intervention-scope-" ⋯ scope_digest

pub record InterventionScopeMembership : Type 0 where
  pub scope_digest : String
  pub intervention_id : String
  pub candidate_id : String
  pub candidate_digest : String
  pub destination_id : String
  pub action : PublicationAction
  pub parent_intervention_id : Option String
  pub index_digest : String

-- The members that a membership and its digest share.
abbrev membership_members : InterventionScopeMembership → List (String × Json)
membership_members m =
    ("scopeDigest", str m.scope_digest)
    ∷ ("interventionId", str m.intervention_id)
    ∷ ("candidateId", str m.candidate_id)
    ∷ ("candidateDigest", str m.candidate_digest)
    ∷ ("destinationId", str m.destination_id)
    ∷ ("action", str (action_text m.action))
    ∷ ("parentInterventionId", nullable_text m.parent_intervention_id)
    ∷ []

unfoldable pub membership_content : InterventionScopeMembership → Json
membership_content m =
    obj (fields_of (("domain", str "intervention-scope-membership:v1") ∷ membership_members m))

unfoldable pub membership_json : InterventionScopeMembership → Json
membership_json m = obj (
    fields_of (
      ("schemaVersion", num (natural 1))
      ∷ (membership_members m ++ (("indexDigest", str m.index_digest) ∷ []))))

abbrev pub membership_key : InterventionScopeMembership → RecordKey
membership_key m = record {
  namespace = intervention_scope_namespace m.scope_digest;
  kind = scope_index_kind;
  id = m.intervention_id;
}

module _ (rt : Runtime) where
  unfoldable pub parse_intervention_scope_membership : Parse InterventionScopeMembership
  parse_intervention_scope_membership input = do
    fields ← read_fields input
    schema_version_1 fields
    scope ← req fields "scopeDigest" parse_digest_at
    intervention ← req fields "interventionId" parse_durable_id
    candidate ← req fields "candidateId" parse_durable_id
    candidate_digest ← req fields "candidateDigest" parse_digest_at
    destination ← req fields "destinationId" parse_id
    action ← req fields "action" (parse_one_of publication_actions)
    parent ← req fields "parentInterventionId" (parse_nullable parse_durable_id)
    index_digest ← req fields "indexDigest" parse_digest_at
    let membership : InterventionScopeMembership = record {
      scope_digest = scope;
      intervention_id = intervention;
      candidate_id = candidate;
      candidate_digest = candidate_digest;
      destination_id = destination;
      action = action;
      parent_intervention_id = parent;
      index_digest = index_digest;
    }
    throw_if (index_digest != sha256_hex_of_canonical_json rt (membership_content membership))
        (failure "schema.corrupt")
    ok membership

  unfoldable pub build_intervention_scope_membership :
      InterventionHeader → Result InterventionScopeMembership
  build_intervention_scope_membership header =
      let content : InterventionScopeMembership = record {
        scope_digest = header.scope_digest;
        intervention_id = header.id;
        candidate_id = header.candidate_id;
        candidate_digest = header.candidate_digest;
        destination_id = header.destination_id;
        action = header.action;
        parent_intervention_id = header.parent_intervention_id;
        index_digest = "";
      } in
      parse_intervention_scope_membership (
        membership_json (record content {
          index_digest = sha256_hex_of_canonical_json rt (membership_content content);
        }))

  unfoldable pub parse_stored_membership :
      StoredRecord → String → Result InterventionScopeMembership
  parse_stored_membership stored scope_digest = do
    digest ← parse_non_empty_text (str stored.digest)
    id ← parse_non_empty_text (str stored.key.id)
    namespace ← parse_non_empty_text (str stored.key.namespace)
    kind ← parse_non_empty_text (str stored.key.kind)
    throw_if
        (namespace != intervention_scope_namespace scope_digest
          || (kind != scope_index_kind || digest != record_digest rt stored.value))
        store_corrupt
    membership ← parse_intervention_scope_membership stored.value
    throw_if (membership.scope_digest != scope_digest || membership.intervention_id != id)
        store_corrupt
    ok membership

  -- The check of what is read back.
  unfoldable pub preserved : InterventionScopeMembership → Option StoredRecord → Result (Unit {0})
  preserved membership none = throw store_corrupt
  preserved membership (some stored) = do
    reloaded ← parse_stored_membership stored membership.scope_digest
    throw_if (reloaded.index_digest != membership.index_digest) store_corrupt

  unfoldable pub after_membership_creation :
      InterventionScopeMembership → WriteResult → Action (Unit {0})
  after_membership_creation membership (updated n) = lift (throw store_corrupt)
  after_membership_creation membership (conflict n) = lift (throw store_corrupt)
  after_membership_creation membership _ =
      and_then (store_get rt (membership_key membership))
        λ stored. lift (preserved membership stored)

  unfoldable pub ensure_intervention_scope_membership :
      InterventionScopeMembership → Action (Unit {0})
  unfolding after_membership_creation
  ensure_intervention_scope_membership membership =
      and_then
        (store_call (
          create_call (membership_key membership) (membership_json membership)
            (record_digest rt (membership_json membership))
            ("intervention-scope/" ⋯ membership.scope_digest ⋯ "/" ⋯ membership.intervention_id)))
        λ result. after_membership_creation membership result

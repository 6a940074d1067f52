-- ===== src/Intervention/Parse.antt =====
-- records/intervention.ts: the JSON form of a transition, its content digest and id, and the parsers
-- of a transition and of the folded record.
use governed_learning_loop.Prelude.{
  ℕ, String, Bool, true, false, not, ◌&&◌, ◌||◌, Option, none, some, List, [], ◌∷◌, any, map, ◌==◌,
  String_eq, Option_eq,
}
use governed_learning_loop.Diagnostics.{Result, ok, throw, ◌>>=◌, ◌>>◌, throw_if, failure}
use governed_learning_loop.Json.{
  Json, num, str, arr, obj, end, field, natural, of_list, Runtime, ◌⋯◌,
  sha256_hex_of_canonical_json,
}
use governed_learning_loop.Json.Parse.{
  Parse, invalid, parse_one_of, read_fields, req, opt, schema_version_1, parse_durable_id,
  parse_bounded_array, parse_canonical_timestamp_at,
}
use governed_learning_loop.Intervention.{
  Publication, Authorization, Activation, Validation, unpublished, published, failed, rolled_back,
  not_required, pending, authorized, revoked, expired, inactive, active, disabled, untested,
  invalid as invalid_verdict, inconclusive, improved, regressed, InterventionState,
  InterventionTransition, TransitionKind, fail, is_empty, intervention_state_invalid_reasons,
  intervention_transition_kind, Publication_eq, Authorization_eq, Validation_eq,
}

abbrev pub publication_states : List (String × Publication)
publication_states =
    ("unpublished", unpublished)
    ∷ ("published", published)
    ∷ ("failed", failed)
    ∷ ("rolled_back", rolled_back)
    ∷ []

abbrev pub authorization_states : List (String × Authorization)
authorization_states =
    ("not_required", not_required)
    ∷ ("pending", pending)
    ∷ ("authorized", authorized)
    ∷ ("revoked", revoked)
    ∷ ("expired", expired)
    ∷ []

abbrev pub activation_states : List (String × Activation)
activation_states = ("inactive", inactive) ∷ ("active", active) ∷ ("disabled", disabled) ∷ []

abbrev pub validation_states : List (String × Validation)
validation_states =
    ("untested", untested)
    ∷ ("invalid", invalid_verdict)
    ∷ ("inconclusive", inconclusive)
    ∷ ("improved", improved)
    ∷ ("regressed", regressed)
    ∷ []

abbrev pub publication_text : Publication → String
publication_text unpublished = "unpublished"
publication_text published = "published"
publication_text failed = "failed"
publication_text rolled_back = "rolled_back"

abbrev pub authorization_text : Authorization → String
authorization_text not_required = "not_required"
authorization_text pending = "pending"
authorization_text authorized = "authorized"
authorization_text revoked = "revoked"
authorization_text expired = "expired"

abbrev pub activation_text : Activation → String
activation_text inactive = "inactive"
activation_text active = "active"
activation_text disabled = "disabled"

abbrev pub validation_text : Validation → String
validation_text untested = "untested"
validation_text invalid_verdict = "invalid"
validation_text inconclusive = "inconclusive"
validation_text improved = "improved"
validation_text regressed = "regressed"

unfoldable pub parse_intervention_state_at : Parse InterventionState
unfolding read_fields
parse_intervention_state_at input = do
  fields ← read_fields input
  p ← req fields "publication" (parse_one_of publication_states)
  a ← req fields "authorization" (parse_one_of authorization_states)
  c ← req fields "activation" (parse_one_of activation_states)
  v ← req fields "validation" (parse_one_of validation_states)
  let state : InterventionState = record {
    publication = p;
    authorization = a;
    activation = c;
    validation = v;
  }
  throw_if (not (is_empty (intervention_state_invalid_reasons state))) invalid
  ok state

-- The loop of `assertUniqueIds`, with the ids seen so far.
abbrev pub has_duplicate : List String → List String → Bool
has_duplicate seen [] = false
has_duplicate seen (value ∷ values) =
    any (λ s. s == value) seen || has_duplicate (value ∷ seen) values

unfoldable pub assert_unique_ids : List String → Result (Unit {0})
assert_unique_ids values = throw_if (has_duplicate [] values) invalid

abbrev pub max_intervention_references : ℕ
max_intervention_references = 1000

unfoldable pub parse_reference_ids_at : Parse (List String)
unfolding assert_unique_ids
parse_reference_ids_at input = do
  ids ← parse_bounded_array parse_durable_id max_intervention_references input
  assert_unique_ids ids
  ok ids

unfoldable pub state_content : InterventionState → Json
state_content s = obj (
    field "publication" (str (publication_text s.publication)) (
      field "authorization" (str (authorization_text s.authorization)) (
        field "activation" (str (activation_text s.activation))
          (field "validation" (str (validation_text s.validation)) end))))

abbrev pub strings : List String → Json
strings ids = arr (of_list (map str ids))

module _ (rt : Runtime) where
  unfoldable pub intervention_transition_digest : InterventionTransition → String
  intervention_transition_digest t = sha256_hex_of_canonical_json rt (
      obj (
        field "domain" (str "intervention-transition:v1") (
          field "interventionId" (str t.intervention_id) (
            field "from" (state_content t.from) (
              field "to" (state_content t.to) (
                field "evidenceIds" (strings t.evidence_ids)
                  (field "occurredAt" (str t.occurred_at) end)))))))

  unfoldable pub intervention_transition_id_for : InterventionTransition → String
  intervention_transition_id_for t = "transition-" ⋯ intervention_transition_digest t

  abbrev pub is_fail : TransitionKind → Bool
  is_fail fail = true
  is_fail _ = false

  -- The checks that follow the reading of the fields, up to the id.
  abbrev pub check_kind : Option TransitionKind → List String → Result (Unit {0})
  check_kind none evidence = throw invalid
  check_kind (some kind) evidence = throw_if (not (is_fail kind) && is_empty evidence) invalid

  unfoldable pub parse_intervention_transition : Parse InterventionTransition
  unfolding read_fields
  parse_intervention_transition input = do
    fields ← read_fields input
    schema_version_1 fields
    intervention_id ← req fields "interventionId" parse_durable_id
    from ← req fields "from" parse_intervention_state_at
    to ← req fields "to" parse_intervention_state_at
    evidence_ids ← req fields "evidenceIds" parse_reference_ids_at
    occurred_at ← req fields "occurredAt" (parse_canonical_timestamp_at rt)
    check_kind (intervention_transition_kind from to) evidence_ids
    id ← req fields "id" parse_durable_id
    let transition : InterventionTransition = record {
      id = id;
      intervention_id = intervention_id;
      from = from;
      to = to;
      evidence_ids = evidence_ids;
      occurred_at = occurred_at;
    }
    throw_if (not (id == intervention_transition_id_for transition)) (failure "schema.corrupt")
    ok transition

-- `toJsonValue(transition)`
unfoldable pub transition_json : InterventionTransition → Json
transition_json t = obj (
    field "schemaVersion" (num (natural 1)) (
      field "id" (str t.id) (
        field "interventionId" (str t.intervention_id) (
          field "from" (state_content t.from) (
            field "to" (state_content t.to) (
              field "evidenceIds" (strings t.evidence_ids)
                (field "occurredAt" (str t.occurred_at) end)))))))

pub record InterventionRecord : Type 0 where
  pub id : String
  pub candidate_id : String
  pub plan_id : String
  pub parent_intervention_id : Option String
  pub state : InterventionState
  pub publication_receipt_ids : List String
  pub authorization_ids : List String
  pub evaluation_ids : List String
  pub latest_transition_id : String

-- The structural rules of `parseInterventionRecord`, on the fields that it has read.
unfoldable pub check_intervention_record : InterventionRecord → Result InterventionRecord
check_intervention_record r = do
  throw_if (r.parent_intervention_id == some r.id) invalid
  throw_if (r.state.publication == published && is_empty r.publication_receipt_ids) invalid
  throw_if (r.state.authorization == authorized && is_empty r.authorization_ids) invalid
  throw_if (not (r.state.validation == untested) && is_empty r.evaluation_ids) invalid
  ok r

unfoldable pub parse_intervention_record : Parse InterventionRecord
unfolding read_fields check_intervention_record
parse_intervention_record input = do
  fields ← read_fields input
  schema_version_1 fields
  id ← req fields "id" parse_durable_id
  candidate_id ← req fields "candidateId" parse_durable_id
  plan_id ← req fields "planId" parse_durable_id
  parent ← opt fields "parentInterventionId" parse_durable_id
  state ← req fields "state" parse_intervention_state_at
  receipts ← req fields "publicationReceiptIds" parse_reference_ids_at
  authorizations ← req fields "authorizationIds" parse_reference_ids_at
  evaluations ← req fields "evaluationIds" parse_reference_ids_at
  latest ← req fields "latestTransitionId" parse_durable_id
  check_intervention_record (record {
    id = id;
    candidate_id = candidate_id;
    plan_id = plan_id;
    parent_intervention_id = parent;
    state = state;
    publication_receipt_ids = receipts;
    authorization_ids = authorizations;
    evaluation_ids = evaluations;
    latest_transition_id = latest;
  })

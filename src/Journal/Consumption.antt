-- ===== src/Journal/Consumption.antt =====
-- engine/publication-journal.ts: the consumption of an authorization. Its builder takes the time that
-- the source reads from the clock as an argument.
use governed_learning_loop.Prelude.{
  String, Bool, true, false, ◌||◌, Option, none, some, List, [], ◌∷◌, ◌++◌, ◌!=◌, String_eq,
  Option_eq,
}
use governed_learning_loop.Diagnostics.{Result, ok, throw, ◌>>=◌, ◌>>◌, throw_if, failure}
use governed_learning_loop.Json.{
  Json, num, natural, str, obj, fields_of, optional_member, Runtime, ◌⋯◌,
  sha256_hex_of_canonical_json,
}
use governed_learning_loop.Json.Parse.{
  Parse, parse_durable_id, parse_digest_at, parse_canonical_timestamp_at, read_fields, req, opt,
  schema_version_1,
}
use governed_learning_loop.Store.{StoredRecord}
use governed_learning_loop.Action.{Action, ◌>>=◌ as and_then, lift, pure}
use governed_learning_loop.Review.{
  PrincipalRef, PrincipalKind, human, agent, service, parse_principal_ref_at,
}
use governed_learning_loop.Engine.{store_corrupt, Creation, was_created}
use governed_learning_loop.Engine.Load.{load_stored_record, create_only}
use governed_learning_loop.Publication.{PublicationPlan, publication_plan_id_for}

abbrev pub authorization_kind_name : String
authorization_kind_name = "publication-authorization"

abbrev pub authorization_consumption_id_for : String → String
authorization_consumption_id_for plan_digest = "authorization-" ⋯ plan_digest

pub record ConsumedAuthorization : Type 0 where
  pub id : String
  pub principal : PrincipalRef
  pub principal_attestation_digest : String
  pub binding_digest : String
  pub authorized_at : String
  pub expires_at : Option String

pub record AuthorizationConsumption : Type 0 where
  pub id : String
  pub plan_id : String
  pub plan_digest : String
  pub binding_digest : String
  pub authorization : ConsumedAuthorization
  pub registry_revision : String
  pub policy_digest : String
  pub consumed_at : String
  pub consumption_digest : String

abbrev principal_kind_text : PrincipalKind → String
principal_kind_text human = "human"
principal_kind_text agent = "agent"
principal_kind_text service = "service"

abbrev principal_json : PrincipalRef → Json
principal_json p = obj (
    fields_of (
      ("id", str p.id)
      ∷ ("kind", str (principal_kind_text p.kind))
      ∷ ("independenceDomain", str p.independence_domain)
      ∷ []))

abbrev authorization_json : ConsumedAuthorization → Json
authorization_json a = obj (
    fields_of (
      ("id", str a.id)
      ∷ ("principal", principal_json a.principal)
      ∷ ("principalAttestationDigest", str a.principal_attestation_digest)
      ∷ ("bindingDigest", str a.binding_digest)
      ∷ ("authorizedAt", str a.authorized_at)
      ∷ optional_member "expiresAt" a.expires_at))

-- The members that a consumption and its digest share.
abbrev consumption_members : AuthorizationConsumption → List (String × Json)
consumption_members c =
    ("planId", str c.plan_id)
    ∷ ("planDigest", str c.plan_digest)
    ∷ ("bindingDigest", str c.binding_digest)
    ∷ ("authorization", authorization_json c.authorization)
    ∷ ("registryRevision", str c.registry_revision)
    ∷ ("policyDigest", str c.policy_digest)
    ∷ ("consumedAt", str c.consumed_at)
    ∷ []

unfoldable pub consumption_content : AuthorizationConsumption → Json
consumption_content c =
    obj (fields_of (("domain", str "publication-authorization:v1") ∷ consumption_members c))

unfoldable pub consumption_json : AuthorizationConsumption → Json
consumption_json c = obj (
    fields_of (
      ("schemaVersion", num (natural 1))
      ∷ ("id", str c.id)
      ∷ (consumption_members c ++ (("consumptionDigest", str c.consumption_digest) ∷ []))))

module _ (rt : Runtime) where
  unfoldable pub parse_consumed_authorization_at : Parse ConsumedAuthorization
  parse_consumed_authorization_at input = do
    fields ← read_fields input
    expires_at ← opt fields "expiresAt" (parse_canonical_timestamp_at rt)
    id ← req fields "id" parse_durable_id
    principal ← req fields "principal" parse_principal_ref_at
    attestation ← req fields "principalAttestationDigest" parse_digest_at
    binding ← req fields "bindingDigest" parse_digest_at
    authorized_at ← req fields "authorizedAt" (parse_canonical_timestamp_at rt)
    ok (record {
      id = id;
      principal = principal;
      principal_attestation_digest = attestation;
      binding_digest = binding;
      authorized_at = authorized_at;
      expires_at = expires_at;
    })

  unfoldable pub parse_authorization_consumption : Parse AuthorizationConsumption
  parse_authorization_consumption input = do
    fields ← read_fields input
    schema_version_1 fields
    plan_id ← req fields "planId" parse_durable_id
    plan_digest ← req fields "planDigest" parse_digest_at
    binding ← req fields "bindingDigest" parse_digest_at
    authorization ← req fields "authorization" parse_consumed_authorization_at
    revision ← req fields "registryRevision" parse_digest_at
    policy ← req fields "policyDigest" parse_digest_at
    consumed_at ← req fields "consumedAt" (parse_canonical_timestamp_at rt)
    id ← req fields "id" parse_durable_id
    digest ← req fields "consumptionDigest" parse_digest_at
    let consumption : AuthorizationConsumption = record {
      id = id;
      plan_id = plan_id;
      plan_digest = plan_digest;
      binding_digest = binding;
      authorization = authorization;
      registry_revision = revision;
      policy_digest = policy;
      consumed_at = consumed_at;
      consumption_digest = digest;
    }
    throw_if
        (id != authorization_consumption_id_for plan_digest
          || plan_id != publication_plan_id_for rt plan_digest)
        (failure "schema.corrupt")
    throw_if (authorization.binding_digest != binding) (failure "schema.corrupt")
    throw_if (digest != sha256_hex_of_canonical_json rt (consumption_content consumption))
        (failure "schema.corrupt")
    ok consumption

  unfoldable pub build_authorization_consumption :
      String
      → String
      → String
      → PublicationPlan
      → String
      → ConsumedAuthorization
      → Result AuthorizationConsumption
  build_authorization_consumption registry_revision policy_digest now plan binding_digest
        authorization =
      let content : AuthorizationConsumption = record {
        id = authorization_consumption_id_for plan.plan_digest;
        plan_id = plan.id;
        plan_digest = plan.plan_digest;
        binding_digest = binding_digest;
        authorization = authorization;
        registry_revision = registry_revision;
        policy_digest = policy_digest;
        consumed_at = now;
        consumption_digest = "";
      } in
      parse_authorization_consumption (
        consumption_json (record content {
          consumption_digest = sha256_hex_of_canonical_json rt (consumption_content content);
        }))

  unfoldable pub consumption_of :
      String → Option StoredRecord → Result (Option AuthorizationConsumption)
  consumption_of plan_digest none = ok none
  consumption_of plan_digest (some stored) = do
    consumption ← parse_authorization_consumption stored.value
    throw_if (consumption.plan_digest != plan_digest) store_corrupt
    ok (some consumption)

  unfoldable pub load_authorization_consumption : String → Action (Option AuthorizationConsumption)
  load_authorization_consumption plan_digest =
      and_then
        (load_stored_record rt authorization_kind_name
          (authorization_consumption_id_for plan_digest))
        λ stored. lift (consumption_of plan_digest stored)

  -- The consumption that is there, with whether it was there before.
  unfoldable pub existing_consumption :
      AuthorizationConsumption
      → Option AuthorizationConsumption
      → Result (AuthorizationConsumption × Bool)
  existing_consumption consumption none = throw store_corrupt
  existing_consumption consumption (some stored) = do
    throw_if
        (stored.plan_id != consumption.plan_id
          || (stored.binding_digest != consumption.binding_digest
              || (stored.registry_revision != consumption.registry_revision
                  || stored.policy_digest != consumption.policy_digest)))
        store_corrupt
    ok (stored, true)

  unfoldable pub after_consumption_creation :
      AuthorizationConsumption → Creation → Action (AuthorizationConsumption × Bool)
  after_consumption_creation consumption was_created = pure (consumption, false)
  after_consumption_creation consumption _ =
      and_then (load_authorization_consumption consumption.plan_digest)
        λ stored. lift (existing_consumption consumption stored)

  unfoldable pub ensure_authorization_consumption :
      AuthorizationConsumption → Action (AuthorizationConsumption × Bool)
  unfolding after_consumption_creation
  ensure_authorization_consumption consumption =
      and_then
        (create_only rt authorization_kind_name consumption.id (consumption_json consumption)
          ("publication-authorization/" ⋯ consumption.id))
        λ status. after_consumption_creation consumption status

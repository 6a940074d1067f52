-- ===== src/Publication.antt =====
-- records/publication.ts: publication plans, authorization bindings and receipts.
pub mod Parse
pub mod Bound
pub mod Bases
mod Tests
use governed_learning_loop.Prelude.{
  ℕ, String, Bool, true, false, not, ◌&&◌, ◌||◌, Option, none, some, List, [], ◌∷◌, ◌++◌, map, any,
  if◌then◌else◌, ◌==◌, ◌!=◌, String_eq, Option_eq,
}
use governed_learning_loop.Json.{
  Json, null, str, arr, obj, of_list, fields_of, optional_member, Runtime, ◌⋯◌,
  sha256_hex_of_canonical_json,
}
use governed_learning_loop.Semantic.{DetectorRef, LensRef, PackRef}

pub data EffectClass : Type 0 where
  proposal context external authority : EffectClass

pub data PublicationAction : Type 0 where
  publish disable rollback compensate : PublicationAction

pub data RiskTier : Type 0 where
  t0 t1 t2 t3 : RiskTier

abbrev pub effect_class_text : EffectClass → String
effect_class_text proposal = "proposal"
effect_class_text context = "context"
effect_class_text external = "external"
effect_class_text authority = "authority"

abbrev pub action_text : PublicationAction → String
action_text publish = "publish"
action_text disable = "disable"
action_text rollback = "rollback"
action_text compensate = "compensate"

abbrev pub risk_text : RiskTier → String
risk_text t0 = "T0"
risk_text t1 = "T1"
risk_text t2 = "T2"
risk_text t3 = "T3"

pub data AfterEffectSemantics : Type 0 where
  disable_after rollback_after compensate_after : Json → AfterEffectSemantics
  irreversible : String → AfterEffectSemantics

pub record PreparedEffect : Type 0 where
  pub id : String
  pub kind : String
  pub target : String
  pub expected_base : Option String
  pub payload : Json
  pub payload_digest : String
  pub after_effect : AfterEffectSemantics

pub record LineageDerivation : Type 0 where
  pub id : String
  pub digest : String
  pub detector : DetectorRef
  pub lens : LensRef
  pub pack : Option PackRef

pub record PublicationLineage : Type 0 where
  pub scope_digest : String
  pub scope_policy_digest : String
  pub registry_revision : String
  pub destination_registration_digest : String
  pub derivation : Option LineageDerivation
  pub parent_intervention_id : Option String

pub record PublicationPlan : Type 0 where
  pub id : String
  pub candidate_id : String
  pub candidate_digest : String
  pub destination_id : String
  pub action : PublicationAction
  pub effect_class : EffectClass
  pub effective_risk : RiskTier
  pub effects : List PreparedEffect
  pub lineage : PublicationLineage
  pub plan_digest : String
  pub policy_digest : String
  pub created_at : String

pub record AuthorizationBinding : Type 0 where
  pub plan_digest : String
  pub candidate_digest : String
  pub destination_id : String
  pub effect_class : EffectClass
  pub effective_risk : RiskTier
  pub action : PublicationAction
  pub expected_bases : List String
  pub policy_digest : String
  pub lineage_closure_digest : String

pub record PublicationReceipt : Type 0 where
  pub destination_id : String
  pub effect_id : String
  pub target : String
  pub expected_base : Option String
  pub final_version : Option String
  pub payload_digest : String
  pub idempotency_key : String
  pub applied_at : String

abbrev detector_json : DetectorRef → Json
detector_json r = obj (
    fields_of (
      ("id", str r.id)
      ∷ ("version", str r.version)
      ∷ ("registrationDigest", str r.registration_digest)
      ∷ []))

abbrev lens_json : LensRef → Json
lens_json r = obj (
    fields_of (
      ("id", str r.id)
      ∷ ("version", str r.version)
      ∷ ("registrationDigest", str r.registration_digest)
      ∷ []))

abbrev pack_json : Option PackRef → Json
pack_json none = null
pack_json (some r) = obj (
    fields_of (
      ("id", str r.id)
      ∷ ("version", str r.version)
      ∷ ("manifestDigest", str r.manifest_digest)
      ∷ []))

abbrev after_effect_json : AfterEffectSemantics → Json
after_effect_json (disable_after payload) =
    obj (fields_of (("kind", str "disable") ∷ ("payload", payload) ∷ []))
after_effect_json (rollback_after payload) =
    obj (fields_of (("kind", str "rollback") ∷ ("payload", payload) ∷ []))
after_effect_json (compensate_after payload) =
    obj (fields_of (("kind", str "compensate") ∷ ("payload", payload) ∷ []))
after_effect_json (irreversible rationale) =
    obj (fields_of (("kind", str "irreversible") ∷ ("rationale", str rationale) ∷ []))

unfoldable pub effect_content : PreparedEffect → Json
effect_content e = obj (
    fields_of (
      ("id", str e.id)
      ∷ ("kind", str e.kind)
      ∷ ("target", str e.target)
      ∷ (optional_member "expectedBase" e.expected_base
          ++ (("payload", e.payload)
              ∷ ("payloadDigest", str e.payload_digest)
              ∷ ("afterEffect", after_effect_json e.after_effect)
              ∷ []))))

abbrev derivation_content : Option LineageDerivation → Json
derivation_content none = null
derivation_content (some d) = obj (
    fields_of (
      ("id", str d.id)
      ∷ ("digest", str d.digest)
      ∷ ("detector", detector_json d.detector)
      ∷ ("lens", lens_json d.lens)
      ∷ ("pack", pack_json d.pack)
      ∷ []))

unfoldable pub lineage_content : PublicationLineage → Json
lineage_content l = obj (
    fields_of (
      ("scopeDigest", str l.scope_digest)
      ∷ ("scopePolicyDigest", str l.scope_policy_digest)
      ∷ ("registryRevision", str l.registry_revision)
      ∷ ("destinationRegistrationDigest", str l.destination_registration_digest)
      ∷ ("derivation", derivation_content l.derivation)
      ∷ optional_member "parentInterventionId" l.parent_intervention_id))

abbrev strings : List String → Json
strings texts = arr (of_list (map str texts))

module _ (rt : Runtime) where
  unfoldable pub publication_plan_digest : PublicationPlan → String
  publication_plan_digest p = sha256_hex_of_canonical_json rt (
      obj (
        fields_of (
          ("domain", str "publication-plan:v1")
          ∷ ("candidateId", str p.candidate_id)
          ∷ ("candidateDigest", str p.candidate_digest)
          ∷ ("destinationId", str p.destination_id)
          ∷ ("action", str (action_text p.action))
          ∷ ("effectClass", str (effect_class_text p.effect_class))
          ∷ ("effectiveRisk", str (risk_text p.effective_risk))
          ∷ ("effects", arr (of_list (map effect_content p.effects)))
          ∷ ("policyDigest", str p.policy_digest)
          ∷ ("lineage", lineage_content p.lineage)
          ∷ [])))

  abbrev pub publication_plan_id_for : String → String
  publication_plan_id_for plan_digest = "plan-" ⋯ plan_digest

  unfoldable pub publication_lineage_closure_digest : String → PublicationLineage → String
  publication_lineage_closure_digest candidate_digest lineage = sha256_hex_of_canonical_json rt (
      obj (
        fields_of (
          ("domain", str "publication-lineage-closure:v1")
          ∷ ("candidateDigest", str candidate_digest)
          ∷ ("lineage", lineage_content lineage)
          ∷ [])))

  unfoldable pub authorization_binding_digest : AuthorizationBinding → String
  authorization_binding_digest b = sha256_hex_of_canonical_json rt (
      obj (
        fields_of (
          ("domain", str "authorization-binding:v1")
          ∷ ("planDigest", str b.plan_digest)
          ∷ ("candidateDigest", str b.candidate_digest)
          ∷ ("destinationId", str b.destination_id)
          ∷ ("effectClass", str (effect_class_text b.effect_class))
          ∷ ("effectiveRisk", str (risk_text b.effective_risk))
          ∷ ("action", str (action_text b.action))
          ∷ ("expectedBases", strings b.expected_bases)
          ∷ ("policyDigest", str b.policy_digest)
          ∷ ("lineageClosureDigest", str b.lineage_closure_digest)
          ∷ [])))

  -- The set of the effects' bases, in the order of insertion, and its members sorted.
  abbrev pub add_base : Option String → List String → List String
  add_base none bases = bases
  add_base (some b) bases = if any (λ c. c == b) bases then bases else bases ++ b ∷ []

  unfoldable pub collect_bases : List String → List PreparedEffect → List String
  collect_bases bases [] = bases
  collect_bases bases (e ∷ effects) = collect_bases (add_base e.expected_base bases) effects

  unfoldable pub insert_base : String → List String → List String
  insert_base b [] = b ∷ []
  insert_base b (c ∷ cs) =
      let rest = insert_base b cs in if rt.before b c then b ∷ c ∷ cs else c ∷ rest

  unfoldable pub sort_bases : List String → List String
  sort_bases [] = []
  sort_bases (b ∷ bs) = insert_base b (sort_bases bs)

  unfoldable pub expected_bases_of : List PreparedEffect → List String
  expected_bases_of effects = sort_bases (collect_bases [] effects)

  unfoldable pub authorization_binding_for_plan : PublicationPlan → AuthorizationBinding
  authorization_binding_for_plan p = record {
    plan_digest = p.plan_digest;
    candidate_digest = p.candidate_digest;
    destination_id = p.destination_id;
    effect_class = p.effect_class;
    effective_risk = p.effective_risk;
    action = p.action;
    expected_bases = expected_bases_of p.effects;
    policy_digest = p.policy_digest;
    lineage_closure_digest = publication_lineage_closure_digest p.candidate_digest p.lineage;
  }

  unfoldable pub publication_effect_idempotency_key : String → String → String
  publication_effect_idempotency_key plan_digest effect_id = sha256_hex_of_canonical_json rt (
      obj (
        fields_of (
          ("domain", str "publication-effect-idempotency:v1")
          ∷ ("planDigest", str plan_digest)
          ∷ ("effectId", str effect_id)
          ∷ [])))

pub record ExpectedEffect : Type 0 where
  pub destination_id : String
  pub effect : PreparedEffect
  pub idempotency_key : String

-- The fields that the reasons name.
abbrev field_if : Bool → String → List String
field_if true name = name ∷ []
field_if false name = []

unfoldable pub publication_receipt_mismatch_reasons :
    PublicationReceipt → ExpectedEffect → List String
publication_receipt_mismatch_reasons r e =
    field_if (r.destination_id != e.destination_id) "destinationId"
    ++ (field_if (r.effect_id != e.effect.id) "effectId"
        ++ (field_if (r.target != e.effect.target) "target"
            ++ (field_if (r.payload_digest != e.effect.payload_digest) "payloadDigest"
                ++ (field_if (r.idempotency_key != e.idempotency_key) "idempotencyKey"
                    ++ field_if (r.expected_base != e.effect.expected_base) "expectedBase"))))

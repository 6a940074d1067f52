-- ===== src/Detectors/Policy.antt =====
-- reference-detectors/evaluate.ts, `parseReferenceDetectorPolicy`: the policy of a registered
-- detector. It starts from the registration that `parseDetectorRegistration` has returned.
pub mod Bounds
use governed_learning_loop.Prelude.{
  ℕ, String, Bool, true, false, not, ◌&&◌, ◌||◌, Option, none, some, List, [], ◌∷◌, if◌then◌else◌,
  ◌==◌, ◌!=◌, String_eq, ℕ_eq, nat_eq, Eq, Option_eq, ◌≡◌, ◌↔◌, arith,
}
use governed_learning_loop.Diagnostics.{
  Result, ok, throw, ◌>>=◌, ◌>>◌, throw_if, failure, LearningLoopError,
}
use governed_learning_loop.Json.{Json, bool, Fields, Runtime, sha256_hex_of_canonical_json}
use governed_learning_loop.Json.Parse.{
  Parse, invalid, parse_one_of, parse_bounded_array, read_fields, req,
}
use governed_learning_loop.Detectors.{
  TrafficClass, TrafficClass_eq, traffic_classes, primary, delegated, automated, reviewer, guardian,
  benchmark, replay, parse_positive_integer, parse_basis_points,
}
use governed_learning_loop.Detectors.Polling.{PollingPolicy}
use governed_learning_loop.Detectors.Context.{ContextPolicy}
use governed_learning_loop.Detectors.Tooling.{ToolingPolicy}
use governed_learning_loop.Detectors.Redirection.{RedirectionPolicy}

pub data ReferenceDetectorFamily : Type 0 where
  coordination_attribution_integrity repeated_status_polling context_pressure_compaction :
      ReferenceDetectorFamily
  tool_use_concentration coordination_fanout attributed_human_redirection : ReferenceDetectorFamily

abbrev pub family_code : ReferenceDetectorFamily → ℕ
family_code coordination_attribution_integrity = 0
family_code repeated_status_polling = 1
family_code context_pressure_compaction = 2
family_code tool_use_concentration = 3
family_code coordination_fanout = 4
family_code attributed_human_redirection = 5

abbrev family_beq : ReferenceDetectorFamily → ReferenceDetectorFamily → Bool
family_beq a b = nat_eq (family_code a) (family_code b)

pub family_beq_iff : (a b : ReferenceDetectorFamily) → (family_beq a b ≡ true) ↔ (a ≡ b)
family_beq_iff a b = ground arith

instance abbrev pub ReferenceDetectorFamily_eq : Eq ReferenceDetectorFamily
ReferenceDetectorFamily_eq = record { test = family_beq; agrees = family_beq_iff }

abbrev pub detector_families : List (String × ReferenceDetectorFamily)
detector_families =
    ("coordination_attribution_integrity", coordination_attribution_integrity)
    ∷ ("repeated_status_polling", repeated_status_polling)
    ∷ ("context_pressure_compaction", context_pressure_compaction)
    ∷ ("tool_use_concentration", tool_use_concentration)
    ∷ ("coordination_fanout", coordination_fanout)
    ∷ ("attributed_human_redirection", attributed_human_redirection)
    ∷ []

pub record FanoutPolicy : Type 0 where
  pub minimum_descendants : ℕ
  pub minimum_direct_children : ℕ

-- The traffic class of the two coordination families is always `delegated`.
pub data ReferenceDetectorPolicy : Type 0 where
  integrity_policy : ReferenceDetectorPolicy
  polling_policy : PollingPolicy → ReferenceDetectorPolicy
  context_policy : ContextPolicy → ReferenceDetectorPolicy
  tooling_policy : ToolingPolicy → ReferenceDetectorPolicy
  fanout_policy : FanoutPolicy → ReferenceDetectorPolicy
  redirection_policy : RedirectionPolicy → ReferenceDetectorPolicy

abbrev pub policy_family : ReferenceDetectorPolicy → ReferenceDetectorFamily
policy_family integrity_policy = coordination_attribution_integrity
policy_family (polling_policy p) = repeated_status_polling
policy_family (context_policy p) = context_pressure_compaction
policy_family (tooling_policy p) = tool_use_concentration
policy_family (fanout_policy p) = coordination_fanout
policy_family (redirection_policy p) = attributed_human_redirection

-- The members of a detector registration that the policy is read from.
pub record DetectorRegistration : Type 0 where
  pub configuration : Json
  pub configuration_digest : String
  pub thresholds : Option Json
  pub threshold_digest : Option String

abbrev pub policy_invalid : LearningLoopError
policy_invalid = failure "detector.implementation_invalid"

abbrev pub is_given : Option Json → Bool
is_given none = false
is_given (some v) = true

abbrev pub require_thresholds : Option Json → Result Fields
require_thresholds none = throw policy_invalid
require_thresholds (some thresholds) = read_fields thresholds

unfoldable pub parse_true : Parse (Unit {0})
parse_true (bool true) = ok tt
parse_true _ = throw invalid

-- `parseOneOf` of one literal.
abbrev pub parse_literal : String → Parse (Unit {0})
parse_literal text = parse_one_of ((text, tt) ∷ [])

abbrev pub same_classes : List TrafficClass → List TrafficClass → Bool
same_classes [] [] = true
same_classes (a ∷ left) (b ∷ right) = a == b && same_classes left right
same_classes _ _ = false

abbrev pub excluded_classes : List TrafficClass
excluded_classes = automated ∷ benchmark ∷ delegated ∷ guardian ∷ replay ∷ reviewer ∷ []

unfoldable pub exact_excluded_traffic : Parse (Unit {0})
exact_excluded_traffic input = do
  values ← parse_bounded_array (parse_one_of traffic_classes) 7 input
  throw_if (not (same_classes values excluded_classes)) policy_invalid

unfoldable pub parse_integrity : DetectorRegistration → Fields → Result ReferenceDetectorPolicy
parse_integrity registration fields = do
  req fields "algorithm" (parse_literal "closed-parent-graph-integrity")
  req fields "closedPopulationRequired" parse_true
  req fields "trafficClass" (parse_literal "delegated")
  throw_if (is_given registration.thresholds) policy_invalid
  ok integrity_policy

unfoldable pub parse_polling : Fields → Fields → Result ReferenceDetectorPolicy
parse_polling fields thresholds = do
  req fields "algorithm" (parse_literal "consecutive-unchanged-keyed-target")
  eligible ← req fields "eligibleTrafficClass" (parse_one_of traffic_classes)
  req fields "progressBreaksRun" parse_true
  polls ← req thresholds "minimumConsecutiveUnchangedPolls" parse_positive_integer
  ok (
      polling_policy
        (record { eligible_traffic_class = eligible; minimum_consecutive_unchanged_polls = polls }))

unfoldable pub parse_context : Fields → Fields → Result ReferenceDetectorPolicy
parse_context fields thresholds = do
  req fields "algorithm" (parse_literal "ordered-utilization-and-explicit-compaction")
  req fields "compactionInferenceFromTokenDrop" (parse_literal "forbidden")
  eligible ← req fields "eligibleTrafficClass" (parse_one_of traffic_classes)
  high ← req thresholds "highUtilizationBasisPoints" parse_basis_points
  samples ← req thresholds "minimumConsecutiveHighSamples" parse_positive_integer
  compactions ← req thresholds "minimumExplicitCompactions" parse_positive_integer
  ok (
      context_policy (record {
        eligible_traffic_class = eligible;
        high_utilization_basis_points = high;
        minimum_consecutive_high_samples = samples;
        minimum_explicit_compactions = compactions;
      }))

unfoldable pub parse_tooling : Fields → Fields → Result ReferenceDetectorPolicy
parse_tooling fields thresholds = do
  req fields "algorithm" (parse_literal "complete-operation-denominator")
  req fields "eligibleIntent" (parse_literal "tool")
  eligible ← req fields "eligibleTrafficClass" (parse_one_of traffic_classes)
  share ← req thresholds "dominantOperationClassBasisPoints" parse_basis_points
  operations ← req thresholds "minimumCompletedOperations" parse_positive_integer
  signatures ← req thresholds "minimumRepeatedSignatureCount" parse_positive_integer
  ok (
      tooling_policy (record {
        eligible_traffic_class = eligible;
        dominant_operation_class_basis_points = share;
        minimum_completed_operations = operations;
        minimum_repeated_signature_count = signatures;
      }))

unfoldable pub parse_fanout : Fields → Fields → Result ReferenceDetectorPolicy
parse_fanout fields thresholds = do
  req fields "algorithm" (parse_literal "closed-parent-graph-fanout")
  req fields "closedPopulationRequired" parse_true
  req fields "trafficClass" (parse_literal "delegated")
  descendants ← req thresholds "minimumDescendants" parse_positive_integer
  children ← req thresholds "minimumDirectChildren" parse_positive_integer
  ok (
      fanout_policy
        (record { minimum_descendants = descendants; minimum_direct_children = children }))

unfoldable pub parse_redirection : Fields → Fields → Result ReferenceDetectorPolicy
parse_redirection fields thresholds = do
  req fields "algorithm" (parse_literal "exact-cited-human-to-agent-pairs")
  eligible ← req fields "eligibleTrafficClass" (parse_one_of traffic_classes)
  req fields "excludedTrafficClasses" exact_excluded_traffic
  episodes ← req thresholds "minimumDistinctEpisodes" parse_positive_integer
  pairs ← req thresholds "minimumExactPairs" parse_positive_integer
  ok (
      redirection_policy (record {
        eligible_traffic_class = eligible;
        minimum_distinct_episodes = episodes;
        minimum_exact_pairs = pairs;
      }))

-- The families that need thresholds.
unfoldable pub parse_with_thresholds :
    ReferenceDetectorFamily → Fields → Fields → Result ReferenceDetectorPolicy
parse_with_thresholds repeated_status_polling fields thresholds = parse_polling fields thresholds
parse_with_thresholds context_pressure_compaction fields thresholds =
    parse_context fields thresholds
parse_with_thresholds tool_use_concentration fields thresholds = parse_tooling fields thresholds
parse_with_thresholds coordination_fanout fields thresholds = parse_fanout fields thresholds
parse_with_thresholds _ fields thresholds = parse_redirection fields thresholds

unfoldable pub parse_family_policy :
    ReferenceDetectorFamily → DetectorRegistration → Fields → Result ReferenceDetectorPolicy
parse_family_policy coordination_attribution_integrity registration fields =
    parse_integrity registration fields
parse_family_policy family registration fields = do
  thresholds ← require_thresholds registration.thresholds
  parse_with_thresholds family fields thresholds

abbrev pub threshold_digest_of : Runtime → Option Json → Option String → Bool
threshold_digest_of rt none digest = true
threshold_digest_of rt (some thresholds) digest =
    digest == some (sha256_hex_of_canonical_json rt thresholds)

unfoldable pub parse_reference_detector_policy :
    Runtime → ReferenceDetectorFamily → DetectorRegistration → Result ReferenceDetectorPolicy
parse_reference_detector_policy rt expected registration = do
  throw_if
      (registration.configuration_digest
        != sha256_hex_of_canonical_json rt registration.configuration)
      policy_invalid
  throw_if (not (threshold_digest_of rt registration.thresholds registration.threshold_digest))
      policy_invalid
  fields ← read_fields registration.configuration
  family ← req fields "family" (parse_one_of detector_families)
  throw_if (family != expected) policy_invalid
  req fields "closedEpisodePopulation" parse_true
  req fields "singleSourcePopulation" parse_true
  parse_family_policy family registration fields

-- ===== src/Detectors/Policy/Bounds.antt =====
-- What `parseReferenceDetectorPolicy` promises of the policy that it returns.
use governed_learning_loop.Prelude.{
  ◌≤◌, ◌≡◌, ◌∙◌, refl, Bool, true, false, not, arith, String_eq, ℕ_eq, ==_iff,
}
use governed_learning_loop.Diagnostics.{
  failure, Ensures, returns, Ensures-bind, Ensures-bind', Ensures-call, Ensures-guard, Ensures-map,
}
use governed_learning_loop.Json.{Json, Fields, Runtime, sha256_hex_of_canonical_json}
use governed_learning_loop.Json.Texts.{Ensures-req}
use governed_learning_loop.Detectors.{
  parse_nonnegative_integer, parse_positive_integer, parse_basis_points,
}
use governed_learning_loop.Detectors.Policy.{
  ReferenceDetectorFamily, ReferenceDetectorPolicy, integrity_policy, polling_policy,
  context_policy, tooling_policy, fanout_policy, redirection_policy, policy_family,
  DetectorRegistration, parse_integrity, parse_polling, parse_context, parse_tooling, parse_fanout,
  parse_redirection, parse_with_thresholds, parse_family_policy, parse_reference_detector_policy,
  threshold_digest_of, coordination_attribution_integrity, repeated_status_polling,
  context_pressure_compaction, tool_use_concentration, coordination_fanout,
  attributed_human_redirection, ReferenceDetectorFamily_eq, policy_invalid,
}

-- Thresholds are positive, and shares are at most 10,000 basis points.
abbrev pub IsBounded : ReferenceDetectorPolicy → Type 0
IsBounded integrity_policy = Unit
IsBounded (polling_policy p) = 1 ≤ p.minimum_consecutive_unchanged_polls
IsBounded (context_policy p) =
    (p.high_utilization_basis_points ≤ 10000)
    × (1 ≤ p.minimum_consecutive_high_samples)
    × (1 ≤ p.minimum_explicit_compactions)
IsBounded (tooling_policy p) =
    (p.dominant_operation_class_basis_points ≤ 10000)
    × (1 ≤ p.minimum_completed_operations)
    × (1 ≤ p.minimum_repeated_signature_count)
IsBounded (fanout_policy p) = (1 ≤ p.minimum_descendants) × (1 ≤ p.minimum_direct_children)
IsBounded (redirection_policy p) = (1 ≤ p.minimum_distinct_episodes) × (1 ≤ p.minimum_exact_pairs)

positive : (j : Json) → Ensures (λ n. 1 ≤ n) (parse_positive_integer j)
unfolding parse_positive_integer
positive j = Ensures-bind (Ensures-call (parse_nonnegative_integer j)) λ n _.
    Ensures-guard _ (failure "detector.implementation_invalid") λ e. returns n (ground (arith, e))

at_most_all : (j : Json) → Ensures (λ n. n ≤ 10000) (parse_basis_points j)
unfolding parse_basis_points
at_most_all j =
    Ensures-bind (Ensures-call (parse_nonnegative_integer j))
      λ n _. Ensures-guard _ (failure "detector.result_invalid") λ e. returns n (ground (arith, e))

record IsPolicyOf (family : ReferenceDetectorFamily) (p : ReferenceDetectorPolicy) : Type 0 where
  same_family : policy_family p ≡ family
  bounded : IsBounded p

integrity_sound :
    (r : DetectorRegistration) (fs : Fields)
    → Ensures (IsPolicyOf coordination_attribution_integrity) (parse_integrity r fs)
unfolding parse_integrity
integrity_sound r fs = Ensures-bind' (Ensures-call _) λ _ _. Ensures-bind' (Ensures-call _) λ _ _.
    Ensures-bind' (Ensures-call _) λ _ _.
      Ensures-guard _ policy_invalid
        λ _. returns integrity_policy (record { same_family = refl; bounded = tt })

polling_sound :
    (fs ts : Fields) → Ensures (IsPolicyOf repeated_status_polling) (parse_polling fs ts)
unfolding parse_polling
polling_sound fs ts = Ensures-bind' (Ensures-call _) λ _ _. Ensures-bind (Ensures-call _) λ _ _.
    Ensures-bind' (Ensures-call _) λ _ _.
      Ensures-bind (Ensures-req ts "minimumConsecutiveUnchangedPolls" positive)
        λ n p. returns _ (record { same_family = refl; bounded = p })

context_sound :
    (fs ts : Fields) → Ensures (IsPolicyOf context_pressure_compaction) (parse_context fs ts)
unfolding parse_context
context_sound fs ts = Ensures-bind' (Ensures-call _) λ _ _. Ensures-bind' (Ensures-call _) λ _ _.
    Ensures-bind (Ensures-call _) λ _ _.
      Ensures-bind (Ensures-req ts "highUtilizationBasisPoints" at_most_all) λ h a.
        Ensures-bind (Ensures-req ts "minimumConsecutiveHighSamples" positive) λ n p.
          Ensures-bind (Ensures-req ts "minimumExplicitCompactions" positive)
            λ m q. returns _ (record { same_family = refl; bounded = (a, p, q) })

tooling_sound : (fs ts : Fields) → Ensures (IsPolicyOf tool_use_concentration) (parse_tooling fs ts)
unfolding parse_tooling
tooling_sound fs ts = Ensures-bind' (Ensures-call _) λ _ _. Ensures-bind' (Ensures-call _) λ _ _.
    Ensures-bind (Ensures-call _) λ _ _.
      Ensures-bind (Ensures-req ts "dominantOperationClassBasisPoints" at_most_all) λ h a.
        Ensures-bind (Ensures-req ts "minimumCompletedOperations" positive) λ n p.
          Ensures-bind (Ensures-req ts "minimumRepeatedSignatureCount" positive)
            λ m q. returns _ (record { same_family = refl; bounded = (a, p, q) })

fanout_sound : (fs ts : Fields) → Ensures (IsPolicyOf coordination_fanout) (parse_fanout fs ts)
unfolding parse_fanout
fanout_sound fs ts = Ensures-bind' (Ensures-call _) λ _ _. Ensures-bind' (Ensures-call _) λ _ _.
    Ensures-bind' (Ensures-call _) λ _ _.
      Ensures-bind (Ensures-req ts "minimumDescendants" positive) λ n p.
        Ensures-bind (Ensures-req ts "minimumDirectChildren" positive)
          λ m q. returns _ (record { same_family = refl; bounded = (p, q) })

redirection_sound :
    (fs ts : Fields) → Ensures (IsPolicyOf attributed_human_redirection) (parse_redirection fs ts)
unfolding parse_redirection
redirection_sound fs ts = Ensures-bind' (Ensures-call _) λ _ _. Ensures-bind (Ensures-call _) λ _ _.
    Ensures-bind' (Ensures-call _) λ _ _.
      Ensures-bind (Ensures-req ts "minimumDistinctEpisodes" positive) λ n p.
        Ensures-bind (Ensures-req ts "minimumExactPairs" positive)
          λ m q. returns _ (record { same_family = refl; bounded = (p, q) })

family_sound :
    (family : ReferenceDetectorFamily) (r : DetectorRegistration) (fs : Fields)
    → Ensures (IsPolicyOf family) (parse_family_policy family r fs)
unfolding parse_family_policy parse_with_thresholds
family_sound coordination_attribution_integrity r fs = integrity_sound r fs
family_sound repeated_status_polling r fs =
    Ensures-bind (Ensures-call _) λ ts _. polling_sound fs ts
family_sound context_pressure_compaction r fs =
    Ensures-bind (Ensures-call _) λ ts _. context_sound fs ts
family_sound tool_use_concentration r fs = Ensures-bind (Ensures-call _) λ ts _. tooling_sound fs ts
family_sound coordination_fanout r fs = Ensures-bind (Ensures-call _) λ ts _. fanout_sound fs ts
family_sound attributed_human_redirection r fs =
    Ensures-bind (Ensures-call _) λ ts _. redirection_sound fs ts

-- What is known of a policy that the parser returns.
pub record IsRegistered (rt : Runtime) (expected : ReferenceDetectorFamily)
    (r : DetectorRegistration) (p : ReferenceDetectorPolicy) : Type 0 where
  pub family_expected : policy_family p ≡ expected
  pub thresholds_bounded : IsBounded p
  pub configuration_digested :
      r.configuration_digest ≡ sha256_hex_of_canonical_json rt r.configuration
  pub thresholds_digested : threshold_digest_of rt r.thresholds r.threshold_digest ≡ true

not-false : {b : Bool} → not b ≡ false → b ≡ true
not-false {b} h = ground arith

-- A policy that the parser returns is of the expected family, its minimums are positive and its
-- shares at most 10,000 basis points, and the registration's digests are those of its configuration
-- and of its thresholds, where it has any.
pub parse-IsRegistered :
    (rt : Runtime) (expected : ReferenceDetectorFamily) (r : DetectorRegistration)
    → Ensures (IsRegistered rt expected r) (parse_reference_detector_policy rt expected r)
unfolding parse_reference_detector_policy
parse-IsRegistered rt expected r = Ensures-guard _ policy_invalid λ c.
    Ensures-guard _ policy_invalid λ t. Ensures-bind (Ensures-call _) λ fs _.
      Ensures-bind (Ensures-call _) λ family _. Ensures-guard _ policy_invalid λ same.
        Ensures-bind' (Ensures-call _) λ _ _. Ensures-bind' (Ensures-call _) λ _ _.
          Ensures-map (family_sound family r fs) λ p h. record {
            family_expected = h.same_family ∙ (==_iff family expected).0 (not-false same);
            thresholds_bounded = h.bounded;
            configuration_digested = (==_iff r.configuration_digest _).0 (not-false c);
            thresholds_digested = not-false t;
          }

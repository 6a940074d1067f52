-- ===== src/Detectors/Tests.antt =====
-- reference-detectors/evaluate.ts on an example: two consecutive unchanged polls.
use governed_learning_loop.Prelude.{
  ℕ, String, ◌≤◌, ◌*◌, ◌≡◌, ◌↔◌, ◌⊎◌, refl, true, false, Option, some, [], ◌∷◌, length, arith,
}
use governed_learning_loop.Diagnostics.{Ensures}
use governed_learning_loop.Json.{bool, num, str, obj, end, field, natural, Runtime}
use governed_learning_loop.Detectors.{primary, status_poll, unchanged, tool, succeeded}
use governed_learning_loop.Detectors.Tooling.{ToolingPolicy, tooling_draft, signatures, classes}
use governed_learning_loop.Detectors.Tooling.Counts.{occurrences, tooling_detects_iff}
use governed_learning_loop.Detectors.Coordination.{Parents, cycle_count, depth_from_root}
use governed_learning_loop.Detectors.Coordination.Fuel.{
  cycle_count-returns, depth_from_root-returns,
}
use governed_learning_loop.Detectors.Policy.{
  DetectorRegistration, coordination_fanout, parse_reference_detector_policy,
}
use governed_learning_loop.Detectors.Policy.Bounds.{IsRegistered, parse-IsRegistered}
use governed_learning_loop.Detectors.Polling.{
  OperationEntry, PollingPolicy, polling_draft, polling_loop, polling_start,
}
use governed_learning_loop.Detectors.Polling.Runs.{RunIn}
use governed_learning_loop.Detectors.Polling.Winner.{detects_iff}

abbrev poll : ℕ → OperationEntry
poll n = record {
  episode_id = "episode";
  sequence = n;
  record_id = "record";
  reference_digest = "digest";
  intent = status_poll;
  state = unchanged;
  operation_class = "status";
  target_keyed_digest = "target";
  signature_keyed_digest = "signature";
  traffic_class = primary;
}

abbrev two_polls : PollingPolicy
two_polls = record { eligible_traffic_class = primary; minimum_consecutive_unchanged_polls = 2 }

detects_iff_example :
    ((polling_draft two_polls
        (polling_loop primary polling_start (poll 4 ∷ poll 5 ∷ [])).winning_refs).condition_detected
      ≡ true)
    ↔ ((r : RunIn primary (poll 4 ∷ poll 5 ∷ [])) × (2 ≤ length r.run))
detects_iff_example = detects_iff two_polls (poll 4 ∷ poll 5 ∷ []) (omega arith)

abbrev tool_call : ℕ → OperationEntry
tool_call n = record (poll n) { intent = tool; state = succeeded; signature_keyed_digest = "same" }

abbrev repeated_tools : ToolingPolicy
repeated_tools = record {
  eligible_traffic_class = primary;
  dominant_operation_class_basis_points = 9000;
  minimum_completed_operations = 2;
  minimum_repeated_signature_count = 2;
}

tooling_detects_iff_example :
    ((tooling_draft repeated_tools (tool_call 1 ∷ tool_call 2 ∷ [])).condition_detected ≡ true) ↔ (
      (2 ≤ length (tool_call 1 ∷ tool_call 2 ∷ []))
      × (((s : String) × (2 ≤ occurrences s (signatures (tool_call 1 ∷ tool_call 2 ∷ []))))
          ⊎ ((c : String) × (9000 * length (tool_call 1 ∷ tool_call 2 ∷ [])
                ≤ occurrences c (classes (tool_call 1 ∷ tool_call 2 ∷ [])) * 10000))))
tooling_detects_iff_example =
    tooling_detects_iff repeated_tools (tool_call 1 ∷ tool_call 2 ∷ []) (omega arith)

-- Two episodes that are each other's parent.
abbrev two_cycle : Parents
two_cycle = ("a", some "b") ∷ ("b", some "a") ∷ []

one_cycle : cycle_count two_cycle ≡ some 1
unfolding cycle_count
one_cycle = refl

cycle_count-returns_example : (n : ℕ) × (cycle_count two_cycle ≡ some n)
cycle_count-returns_example = cycle_count-returns two_cycle

depth_from_root-returns_example : (r : Option ℕ) × (depth_from_root two_cycle "root" "a" ≡ some r)
depth_from_root-returns_example = depth_from_root-returns two_cycle "root" "a"

abbrev plain_runtime : Runtime
plain_runtime = record {
  sha256 = λ _. "digest";
  quote = λ s. s;
  number_text = λ _. "0";
  before = λ _ _. false;
  is_timestamp = λ _. true;
}

abbrev registration : DetectorRegistration
registration = record {
  configuration = obj (
      field "family" (str "coordination_fanout") (
        field "closedEpisodePopulation" (bool true) (
          field "singleSourcePopulation" (bool true) (
            field "algorithm" (str "closed-parent-graph-fanout") (
              field "closedPopulationRequired" (bool true)
                (field "trafficClass" (str "delegated") end))))));
  configuration_digest = "digest";
  thresholds = some (
      obj (
        field "minimumDescendants" (num (natural 3))
          (field "minimumDirectChildren" (num (natural 2)) end)));
  threshold_digest = some "digest";
}

parse-IsRegistered_example :
    Ensures
      (IsRegistered plain_runtime coordination_fanout registration)
      (parse_reference_detector_policy plain_runtime coordination_fanout registration)
parse-IsRegistered_example = parse-IsRegistered plain_runtime coordination_fanout registration

-- ===== src/Detectors/Tooling.antt =====
-- reference-detectors/evaluate.ts, `evaluateTooling`: how often one signature, and one class of
-- operation, stands among the completed tool operations.
--
-- A policy has positive thresholds, so that the share of the dominant class is taken of at least one
-- operation.
pub mod Counts
use governed_learning_loop.Prelude.{
  ℕ, String, ◌+◌, ◌*◌, ◌/◌, Bool, true, false, ◌&&◌, List, [], ◌∷◌, map, keep, length, ltb,
  if◌then◌else◌, ◌==◌, String_eq,
}
use governed_learning_loop.Diagnostics.{Result, ok, ◌>>=◌}
use governed_learning_loop.Json.{str, num, obj, end, field, natural, Runtime}
use governed_learning_loop.Detectors.{
  TrafficClass, TrafficClass_eq, OperationIntent_eq, tool, DetectorWindow, DetectorResultDraft,
  negative_draft, positive_draft,
}
use governed_learning_loop.Detectors.Polling.{OperationEntry, sorted_operations}

pub record ToolingPolicy : Type 0 where
  pub eligible_traffic_class : TrafficClass
  pub dominant_operation_class_basis_points : ℕ
  pub minimum_completed_operations : ℕ
  pub minimum_repeated_signature_count : ℕ

abbrev pub is_tool : TrafficClass → OperationEntry → Bool
is_tool eligible entry = entry.traffic_class == eligible && entry.intent == tool

-- `counts.set(key, (counts.get(key) ?? 0) + 1)`
unfoldable pub count_key : String → List (String × ℕ) → List (String × ℕ)
count_key key [] = (key, 1) ∷ []
count_key key ((k, n) ∷ counts) =
    let rest = (k, n) ∷ count_key key counts in if k == key then (k, n + 1) ∷ counts else rest

unfoldable pub count_keys : List String → List (String × ℕ) → List (String × ℕ)
count_keys [] counts = counts
count_keys (key ∷ keys) counts = count_keys keys (count_key key counts)

-- `Math.max(0, ...counts.values())`
unfoldable pub largest : List (String × ℕ) → ℕ
largest [] = 0
largest ((k, n) ∷ counts) = let rest = largest counts in if ltb rest n then n else rest

abbrev pub signatures : List OperationEntry → List String
signatures tools = map (λ (t : OperationEntry). t.signature_keyed_digest) tools

abbrev pub classes : List OperationEntry → List String
classes tools = map (λ (t : OperationEntry). t.operation_class) tools

-- What `evaluateTooling` makes of the eligible operations.
unfoldable pub tooling_draft : ToolingPolicy → List OperationEntry → DetectorResultDraft
unfolding count_keys largest
tooling_draft policy tools =
    let repeated_signature_count = largest (count_keys (signatures tools) []) in
    let dominant_class_count = largest (count_keys (classes tools) []) in
    let dominant_class_basis_points = dominant_class_count * 10000 / length tools in
    if ltb (length tools) policy.minimum_completed_operations
    then negative_draft
    else if ltb repeated_signature_count policy.minimum_repeated_signature_count
        && ltb dominant_class_basis_points policy.dominant_operation_class_basis_points
    then negative_draft
    else positive_draft (record {
      learning_class = "mechanical_execution";
      statement = "The configured repeated or concentrated tool-use condition was observed.";
      evidence_reference_digests = map (λ (t : OperationEntry). t.reference_digest) tools;
      content = obj (
          field "family" (str "tool_use_concentration") (
            field "completedOperations" (num (natural (length tools))) (
              field "maximumRepeatedSignatureCount" (num (natural repeated_signature_count)) (
                field "dominantOperationClassBasisPoints"
                  (num (natural dominant_class_basis_points)) end))));
      is_structural = false;
      missing_capabilities = [];
    })

unfoldable pub evaluate_tooling :
    Runtime → DetectorWindow → ToolingPolicy → Result DetectorResultDraft
evaluate_tooling rt window policy = do
  operations ← sorted_operations rt window
  ok (tooling_draft policy (keep (is_tool policy.eligible_traffic_class) operations))

-- ===== src/Detectors/Evaluate.antt =====
-- reference-detectors/evaluate.ts, `evaluateReferenceDetector`: the dispatch on the policy's family.
use governed_learning_loop.Diagnostics.{Result, ◌>>◌}
use governed_learning_loop.Json.{Runtime}
use governed_learning_loop.Detectors.{
  DetectorWindow, DetectorResultDraft, assert_single_source_population,
}
use governed_learning_loop.Detectors.Policy.{
  ReferenceDetectorPolicy, integrity_policy, polling_policy, context_policy, tooling_policy,
  fanout_policy, redirection_policy,
}
use governed_learning_loop.Detectors.Polling.{evaluate_polling}
use governed_learning_loop.Detectors.Context.{evaluate_context}
use governed_learning_loop.Detectors.Tooling.{evaluate_tooling}
use governed_learning_loop.Detectors.Coordination.Analysis.{
  evaluate_attribution_integrity, evaluate_fanout,
}
use governed_learning_loop.Detectors.Redirection.{evaluate_redirection}

abbrev pub evaluate_family :
    Runtime → ReferenceDetectorPolicy → DetectorWindow → Result DetectorResultDraft
evaluate_family rt integrity_policy window = evaluate_attribution_integrity window
evaluate_family rt (polling_policy p) window = evaluate_polling rt window p
evaluate_family rt (context_policy p) window = evaluate_context rt window p
evaluate_family rt (tooling_policy p) window = evaluate_tooling rt window p
evaluate_family rt (fanout_policy p) window = evaluate_fanout window p
evaluate_family rt (redirection_policy p) window = evaluate_redirection rt window p

unfoldable pub evaluate_reference_detector :
    Runtime → ReferenceDetectorPolicy → DetectorWindow → Result DetectorResultDraft
evaluate_reference_detector rt policy window = do
  assert_single_source_population window
  evaluate_family rt policy window

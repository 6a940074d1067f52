-- ===== src/Detectors/Coordination/Analysis.antt =====
-- reference-detectors/evaluate.ts, `analyzeCoordination`, `evaluateAttributionIntegrity` and
-- `evaluateFanout`.
use governed_learning_loop.Prelude.{
  ℕ, String, ◌+◌, Bool, true, false, not, ◌&&◌, ◌||◌, Option, none, some, List, [], ◌∷◌, ◌++◌, ltb,
  if◌then◌else◌, ◌==◌, ◌!=◌, String_eq, ℕ_eq, Option_eq,
}
use governed_learning_loop.Diagnostics.{Result, ok, throw, ◌>>=◌, ◌>>◌, throw_if}
use governed_learning_loop.Json.{str, num, obj, end, field, natural}
use governed_learning_loop.Detectors.{
  TrafficClass_eq, delegated, DetectorWindow, Identity, resolved, unresolved, PopulationEpisode,
  DetectorResultDraft, negative_draft, positive_draft, observation_entries, parse_all,
  result_invalid,
}
use governed_learning_loop.Detectors.Policy.{FanoutPolicy}
use governed_learning_loop.Detectors.Coordination.{
  CoordinationMarker, CoordinationAnalysis, parse_coordination_marker, Parents, has_parent_entry,
  parent_of, cycle_count, depth_from_root,
}

-- The map of the population, refused where an identity is unresolved or stands twice.
abbrev pub add_parent : Identity → Parents → Result Parents
add_parent unresolved parents = throw result_invalid
add_parent (resolved source_id id parent) parents =
    if has_parent_entry id parents then throw result_invalid else ok (parents ++ (id, parent) ∷ [])

unfoldable pub collect_parents : Parents → List PopulationEpisode → Result Parents
collect_parents parents [] = ok parents
collect_parents parents (episode ∷ episodes) = do
  next ← add_parent episode.identity parents
  collect_parents next episodes

-- How many entries satisfy a test.
abbrev pub count_entries : (String → Option String → Bool) → Parents → ℕ
count_entries test [] = 0
count_entries test ((id, parent) ∷ entries) =
    let rest = count_entries test entries in if test id parent then rest + 1 else rest

abbrev pub is_root_broken : String → Parents → Bool
is_root_broken root parents = not (has_parent_entry root parents) || parent_of root parents != none

abbrev pub is_orphan : String → String → Option String → Bool
is_orphan root id parent = id != root && parent == none

abbrev pub lacks_parent : Parents → Option String → Bool
lacks_parent parents none = false
lacks_parent parents (some parent) = not (has_parent_entry parent parents)

abbrev pub is_missing : String → Parents → String → Option String → Bool
is_missing root parents id parent = id != root && lacks_parent parents parent

abbrev pub is_direct_child : String → Parents → String → Option String → Bool
is_direct_child root parents id parent = id != root && parent_of id parents == some root

-- The depth of an id, where it has one.
abbrev pub depth_or_none : Option (Option ℕ) → Option ℕ
depth_or_none none = none
depth_or_none (some d) = d

abbrev pub depth_of : String → Parents → String → Option ℕ
depth_of root parents id =
    if id == root then none else depth_or_none (depth_from_root parents root id)

abbrev pub has_depth : Option ℕ → Bool
has_depth none = false
has_depth (some d) = true

abbrev pub deeper : ℕ → Option ℕ → ℕ
deeper m none = m
deeper m (some d) = if ltb m d then d else m

abbrev pub deepest : String → Parents → ℕ → Parents → ℕ
deepest root parents m [] = m
deepest root parents m ((id, p) ∷ entries) =
    deepest root parents (deeper m (depth_of root parents id)) entries

abbrev pub count_or_zero : Option ℕ → ℕ
count_or_zero none = 0
count_or_zero (some n) = n

-- What `analyzeCoordination` computes of the graph.
unfoldable pub analyze_graph : List String → String → Parents → CoordinationAnalysis
unfolding cycle_count depth_from_root
analyze_graph marker_refs root parents = record {
  marker_refs = marker_refs;
  broken_roots =
      (if is_root_broken root parents then 1 else 0) + count_entries (is_orphan root) parents;
  missing_parents = count_entries (is_missing root parents) parents;
  cycles = count_or_zero (cycle_count parents);
  direct_children = count_entries (is_direct_child root parents) parents;
  descendants = count_entries (λ id p. has_depth (depth_of root parents id)) parents;
  maximum_depth = deepest root parents 0 parents;
}

-- Exactly one marker, which asserts a closed population of delegated traffic.
abbrev pub only_marker : List CoordinationMarker → Result CoordinationMarker
only_marker (marker ∷ []) =
    if not marker.closed_population || marker.traffic_class != delegated
    then throw result_invalid
    else ok marker
only_marker _ = throw result_invalid

unfoldable pub analyze_coordination : DetectorWindow → Result CoordinationAnalysis
unfolding parse_coordination_marker
analyze_coordination window = do
  markers ←
      parse_all parse_coordination_marker
        (observation_entries window ("reference.coordination.population.v1" ∷ []))
  marker ← only_marker markers
  parents ← collect_parents [] window.episodes
  ok (analyze_graph (marker.reference_digest ∷ []) marker.episode_id parents)

abbrev pub is_intact : CoordinationAnalysis → Bool
is_intact graph = graph.broken_roots == 0 && (graph.missing_parents == 0 && graph.cycles == 0)

unfoldable pub integrity_draft : CoordinationAnalysis → DetectorResultDraft
integrity_draft graph =
    if is_intact graph
    then negative_draft
    else positive_draft (record {
      learning_class = "system_meta";
      statement =
          "A closed coordination population contains structurally invalid attribution lineage.";
      evidence_reference_digests = graph.marker_refs;
      content = obj (
          field "family" (str "coordination_attribution_integrity") (
            field "brokenRootCount" (num (natural graph.broken_roots)) (
              field "missingParentCount" (num (natural graph.missing_parents))
                (field "cycleCount" (num (natural graph.cycles)) end))));
      is_structural = true;
      missing_capabilities = [];
    })

unfoldable pub evaluate_attribution_integrity : DetectorWindow → Result DetectorResultDraft
evaluate_attribution_integrity window = do
  graph ← analyze_coordination window
  ok (integrity_draft graph)

unfoldable pub fanout_draft : FanoutPolicy → CoordinationAnalysis → DetectorResultDraft
fanout_draft policy graph =
    if ltb graph.direct_children policy.minimum_direct_children
      || ltb graph.descendants policy.minimum_descendants
    then negative_draft
    else positive_draft (record {
      learning_class = "system_meta";
      statement =
          "The configured coordination fan-out condition was observed in a closed attributed population.";
      evidence_reference_digests = graph.marker_refs;
      content = obj (
          field "family" (str "coordination_fanout") (
            field "directChildren" (num (natural graph.direct_children)) (
              field "descendants" (num (natural graph.descendants))
                (field "maximumDepth" (num (natural graph.maximum_depth)) end))));
      is_structural = false;
      missing_capabilities = [];
    })

unfoldable pub evaluate_fanout : DetectorWindow → FanoutPolicy → Result DetectorResultDraft
evaluate_fanout window policy = do
  graph ← analyze_coordination window
  throw_if (not (is_intact graph)) result_invalid
  ok (fanout_draft policy graph)

-- ===== src/Detectors/Coordination.antt =====
-- reference-detectors/evaluate.ts, the coordination families: the parent graph of a closed
-- population, its cycles and its depths.
--
-- The `Map` from episode ids to parents is the list of its entries in the order of insertion. The
-- loops that follow parents run on fuel: one or two more than the number of entries.
pub mod Fuel
pub mod Analysis
use governed_learning_loop.Prelude.{
  ℕ, zero, suc, String, ◌+◌, Bool, true, false, not, ◌&&◌, ◌||◌, Option, none, some, List, [], ◌∷◌,
  ◌++◌, map, any, length, ltb, if◌then◌else◌, ◌==◌, ◌!=◌, String_eq, ℕ_eq, Option_eq,
}
use governed_learning_loop.Diagnostics.{Result, ok, throw, ◌>>=◌, ◌>>◌, throw_if}
use governed_learning_loop.Json.{str, num, obj, end, field, natural}
use governed_learning_loop.Json.Parse.{parse_one_of, parse_bool, read_fields, req}
use governed_learning_loop.Detectors.{
  TrafficClass, TrafficClass_eq, traffic_classes, delegated, ObservationEntry, DetectorWindow,
  Identity, resolved, unresolved, PopulationEpisode, DetectorResultDraft, negative_draft,
  positive_draft, observation_entries, parse_all, result_invalid,
}
use governed_learning_loop.Detectors.Policy.{FanoutPolicy}

pub record CoordinationMarker : Type 0 where
  pub episode_id : String
  pub reference_digest : String
  pub closed_population : Bool
  pub traffic_class : TrafficClass

pub record CoordinationAnalysis : Type 0 where
  pub marker_refs : List String
  pub broken_roots : ℕ
  pub missing_parents : ℕ
  pub cycles : ℕ
  pub direct_children : ℕ
  pub descendants : ℕ
  pub maximum_depth : ℕ

unfoldable pub parse_coordination_marker : ObservationEntry → Result CoordinationMarker
parse_coordination_marker entry = do
  fields ← read_fields entry.content
  closed ← req fields "closedPopulation" parse_bool
  traffic ← req fields "trafficClass" (parse_one_of traffic_classes)
  ok (record {
    episode_id = entry.episode_id;
    reference_digest = entry.reference_digest;
    closed_population = closed;
    traffic_class = traffic;
  })

abbrev pub Parents : Type 0
Parents = List (String × Option String)

-- `parents.has(id)`
abbrev pub has_parent_entry : String → Parents → Bool
has_parent_entry id [] = false
has_parent_entry id ((k, p) ∷ parents) = k == id || has_parent_entry id parents

-- `parents.get(id)`
abbrev pub parent_of : String → Parents → Option String
parent_of id [] = none
parent_of id ((k, p) ∷ parents) = let rest = parent_of id parents in if k == id then p else rest

abbrev pub is_in : String → List String → Bool
is_in id ids = any (λ s. s == id) ids

-- One walk of `cycleCount` from `current`: the ids on its path, and whether it came back to one of
-- them; nothing if the fuel runs out.
unfoldable pub walk_at :
    (Option String → List String → Option (List String × Bool))
    → Parents
    → List String
    → List String
    → String
    → Option (List String × Bool)
walk_at go parents completed path current =
    let later = go (parent_of current parents) (current ∷ path) in
    if not (has_parent_entry current parents) || is_in current completed
    then some (path, false)
    else if is_in current path
    then some (path, true)
    else later

unfoldable pub walk :
    ℕ → Parents → List String → Option String → List String → Option (List String × Bool)
walk zero parents completed current path = none
walk (suc fuel) parents completed none path = some (path, false)
walk (suc fuel) parents completed (some current) path =
    walk_at (walk fuel parents completed) parents completed path current

abbrev pub after_walk : ℕ → List String → Option (List String × Bool) → Option (ℕ × List String)
after_walk cycles completed none = none
after_walk cycles completed (some (path, back)) =
    some ((if back then cycles + 1 else cycles), path ++ completed)

abbrev pub visit : ℕ → Parents → String → ℕ → List String → Option (ℕ × List String)
visit fuel parents start cycles completed =
    if is_in start completed
    then some (cycles, completed)
    else after_walk cycles completed (walk fuel parents completed (some start) [])

abbrev pub visit_next : (ℕ → List String → Option ℕ) → Option (ℕ × List String) → Option ℕ
visit_next go none = none
visit_next go (some (cycles, completed)) = go cycles completed

-- The loop of `cycleCount` over the keys.
unfoldable pub count_cycles : ℕ → Parents → Parents → ℕ → List String → Option ℕ
count_cycles fuel parents [] cycles completed = some cycles
count_cycles fuel parents ((start, p) ∷ starts) cycles completed =
    visit_next (count_cycles fuel parents starts) (visit fuel parents start cycles completed)

unfoldable pub cycle_count : Parents → Option ℕ
unfolding count_cycles walk walk_at
cycle_count parents = count_cycles (length parents + 1) parents parents 0 []

-- `depthFromRoot`: the outer `none` is a run out of fuel, the inner one `undefined`.
unfoldable pub depth_from :
    ℕ → Parents → String → Option String → List String → ℕ → Option (Option ℕ)
depth_from zero parents root current seen depth = none
depth_from (suc fuel) parents root none seen depth = some none
depth_from (suc fuel) parents root (some current) seen depth =
    let later =
      depth_from fuel parents root (parent_of current parents) (current ∷ seen) (depth + 1) in
    if current == root then some (some depth) else if is_in current seen then some none else later

unfoldable pub depth_from_root : Parents → String → String → Option (Option ℕ)
unfolding depth_from
depth_from_root parents root id = depth_from (length parents + 2) parents root (some id) [] 0

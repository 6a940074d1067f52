-- ===== src/Detectors/Context.antt =====
-- reference-detectors/evaluate.ts, `evaluateContext`: runs of high context utilization, and explicit
-- compactions.
use governed_learning_loop.Prelude.{
  ℕ, String, false, ◌&&◌, Option, none, some, List, [], ◌∷◌, ◌++◌, map, length, ltb, leb,
  if◌then◌else◌, ◌==◌, String_eq, ℕ_eq, Option_eq,
}
use governed_learning_loop.Diagnostics.{Result, ok, ◌>>=◌, ◌>>◌, throw_if}
use governed_learning_loop.Json.{str, num, obj, end, field, natural, Runtime}
use governed_learning_loop.Json.Parse.{parse_one_of, read_fields, req}
use governed_learning_loop.Detectors.{
  TrafficClass, TrafficClass_eq, traffic_classes, ObservationEntry, DetectorWindow,
  DetectorResultDraft, negative_draft, positive_draft, parse_nonnegative_integer,
  parse_basis_points, observation_entries, parse_all, result_invalid,
}
use governed_learning_loop.Detectors.Order.{
  Sequenced, sort_sequenced, assert_unique_sequences, sorted_set,
}
use governed_learning_loop.Detectors.Polling.{breaks_sequence, longer}

pub record ContextUtilizationEntry : Type 0 where
  pub episode_id : String
  pub sequence : ℕ
  pub record_id : String
  pub reference_digest : String
  pub utilization_basis_points : ℕ
  pub traffic_class : TrafficClass

pub record ContextCompactionEntry : Type 0 where
  pub episode_id : String
  pub sequence : ℕ
  pub record_id : String
  pub reference_digest : String
  pub before_utilization_basis_points : ℕ
  pub after_utilization_basis_points : ℕ
  pub traffic_class : TrafficClass

unfoldable pub parse_context_utilization : ObservationEntry → Result ContextUtilizationEntry
parse_context_utilization entry = do
  fields ← read_fields entry.content
  sequence ← req fields "sequence" parse_nonnegative_integer
  utilization ← req fields "utilizationBasisPoints" parse_basis_points
  traffic ← req fields "trafficClass" (parse_one_of traffic_classes)
  ok (record {
    episode_id = entry.episode_id;
    sequence = sequence;
    record_id = entry.record_id;
    reference_digest = entry.reference_digest;
    utilization_basis_points = utilization;
    traffic_class = traffic;
  })

unfoldable pub parse_context_compaction : ObservationEntry → Result ContextCompactionEntry
parse_context_compaction entry = do
  fields ← read_fields entry.content
  sequence ← req fields "sequence" parse_nonnegative_integer
  before ← req fields "beforeUtilizationBasisPoints" parse_basis_points
  after ← req fields "afterUtilizationBasisPoints" parse_basis_points
  traffic ← req fields "trafficClass" (parse_one_of traffic_classes)
  throw_if (leb before after) result_invalid
  ok (record {
    episode_id = entry.episode_id;
    sequence = sequence;
    record_id = entry.record_id;
    reference_digest = entry.reference_digest;
    before_utilization_basis_points = before;
    after_utilization_basis_points = after;
    traffic_class = traffic;
  })

pub data ContextEvent : Type 0 where
  utilization : ContextUtilizationEntry → ContextEvent
  compaction : ContextCompactionEntry → ContextEvent

abbrev pub event_episode : ContextEvent → String
event_episode (utilization e) = e.episode_id
event_episode (compaction e) = e.episode_id

abbrev pub event_sequence : ContextEvent → ℕ
event_sequence (utilization e) = e.sequence
event_sequence (compaction e) = e.sequence

abbrev pub event_record : ContextEvent → String
event_record (utilization e) = e.record_id
event_record (compaction e) = e.record_id

abbrev pub event_traffic : ContextEvent → TrafficClass
event_traffic (utilization e) = e.traffic_class
event_traffic (compaction e) = e.traffic_class

abbrev pub sequenced_utilization : Sequenced ContextUtilizationEntry
sequenced_utilization = record {
  episode_id = λ e. e.episode_id;
  sequence = λ e. e.sequence;
  record_id = λ e. e.record_id;
}

abbrev pub sequenced_compactions : Sequenced ContextCompactionEntry
sequenced_compactions = record {
  episode_id = λ e. e.episode_id;
  sequence = λ e. e.sequence;
  record_id = λ e. e.record_id;
}

abbrev pub sequenced_events : Sequenced ContextEvent
sequenced_events = record {
  episode_id = event_episode;
  sequence = event_sequence;
  record_id = event_record;
}

-- The events of a window in order. The sequences are those of the events, so that one sort serves
-- the check and the loop.
unfoldable pub context_events : Runtime → DetectorWindow → Result (List ContextEvent)
unfolding parse_context_utilization parse_context_compaction
context_events rt window = do
  samples ←
      parse_all parse_context_utilization
        (observation_entries window ("reference.context.utilization.v1" ∷ []))
  reductions ←
      parse_all parse_context_compaction
        (observation_entries window ("reference.context.compaction.v1" ∷ []))
  let events = sort_sequenced rt sequenced_events (
      map utilization (sort_sequenced rt sequenced_utilization samples)
      ++ map compaction (sort_sequenced rt sequenced_compactions reductions))
  assert_unique_sequences rt sequenced_events events
  ok events

-- The variables of the loop.
pub record ContextState : Type 0 where
  pub current_episode : Option String
  pub previous_sequence : Option ℕ
  pub pressure_refs : List String
  pub winning_pressure_refs : List String
  pub maximum_utilization_basis_points : ℕ
  pub eligible_utilization : List ContextUtilizationEntry
  pub eligible_compactions : List ContextCompactionEntry

unfoldable pub context_start : ContextState
context_start = record {
  current_episode = none;
  previous_sequence = none;
  pressure_refs = [];
  winning_pressure_refs = [];
  maximum_utilization_basis_points = 0;
  eligible_utilization = [];
  eligible_compactions = [];
}

pub record ContextPolicy : Type 0 where
  pub eligible_traffic_class : TrafficClass
  pub high_utilization_basis_points : ℕ
  pub minimum_consecutive_high_samples : ℕ
  pub minimum_explicit_compactions : ℕ

abbrev pub larger : ℕ → ℕ → ℕ
larger m n = if ltb m n then n else m

-- An eligible event, with the run that it continues.
unfoldable pub eligible_step :
    ContextPolicy → List String → ContextState → ContextEvent → ContextState
eligible_step policy refs s (compaction e) = record s {
  eligible_compactions = s.eligible_compactions ++ e ∷ [];
  pressure_refs = [];
}
eligible_step policy refs s (utilization e) =
    let pressure =
      if leb policy.high_utilization_basis_points e.utilization_basis_points
      then refs ++ e.reference_digest ∷ []
      else [] in
    record s {
      eligible_utilization = s.eligible_utilization ++ e ∷ [];
      maximum_utilization_basis_points =
          larger s.maximum_utilization_basis_points e.utilization_basis_points;
      pressure_refs = pressure;
      winning_pressure_refs = longer pressure s.winning_pressure_refs;
    }

unfoldable pub context_step : ContextPolicy → ContextState → ContextEvent → ContextState
unfolding eligible_step
context_step policy s event =
    let breaks =
      breaks_sequence s.current_episode s.previous_sequence (event_episode event)
        (event_sequence event) in
    let refs = if breaks then [] else s.pressure_refs in
    let t = record s {
      current_episode = some (event_episode event);
      previous_sequence = some (event_sequence event);
    } in
    let eligible = eligible_step policy refs t event in
    if event_traffic event == policy.eligible_traffic_class
    then eligible
    else record t { pressure_refs = [] }

unfoldable pub context_loop : ContextPolicy → ContextState → List ContextEvent → ContextState
context_loop policy s [] = s
context_loop policy s (event ∷ events) = context_loop policy (context_step policy s event) events

unfoldable pub context_draft : Runtime → ContextPolicy → ContextState → DetectorResultDraft
context_draft rt policy s =
    if ltb (length s.winning_pressure_refs) policy.minimum_consecutive_high_samples
      && ltb (length s.eligible_compactions) policy.minimum_explicit_compactions
    then negative_draft
    else positive_draft (record {
      learning_class = "system_meta";
      statement = "The configured explicit context-pressure or compaction condition was observed.";
      evidence_reference_digests = sorted_set rt (
          map (λ (e : ContextUtilizationEntry). e.reference_digest) s.eligible_utilization
          ++ map (λ (e : ContextCompactionEntry). e.reference_digest) s.eligible_compactions);
      content = obj (
          field "family" (str "context_pressure_compaction") (
            field "longestHighPressureRun" (num (natural (length s.winning_pressure_refs))) (
              field "explicitCompactions" (num (natural (length s.eligible_compactions))) (
                field "maximumUtilizationBasisPoints"
                  (num (natural s.maximum_utilization_basis_points)) end))));
      is_structural = false;
      missing_capabilities = [];
    })

unfoldable pub evaluate_context :
    Runtime → DetectorWindow → ContextPolicy → Result DetectorResultDraft
evaluate_context rt window policy = do
  events ← context_events rt window
  ok (context_draft rt policy (context_loop policy context_start events))

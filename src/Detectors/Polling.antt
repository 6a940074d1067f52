-- ===== src/Detectors/Polling.antt =====
-- reference-detectors/evaluate.ts: operations, and `evaluatePolling`, which looks for the longest
-- run of consecutive unchanged status polls of one target.
pub mod Runs
pub mod Winner
use governed_learning_loop.Prelude.{
  ℕ, String, ◌+◌, Bool, true, false, not, ◌&&◌, ◌||◌, Option, none, some, List, [], ◌∷◌, ◌++◌,
  length, ltb, if◌then◌else◌, ◌==◌, ◌!=◌, String_eq, ℕ_eq, Option_eq,
}
use governed_learning_loop.Diagnostics.{Result, ok, ◌>>=◌, ◌>>◌}
use governed_learning_loop.Json.{str, num, obj, end, field, natural, Runtime}
use governed_learning_loop.Json.Parse.{parse_one_of, read_fields, req, parse_id, parse_digest_at}
use governed_learning_loop.Detectors.{
  TrafficClass, OperationIntent, OperationState, status_poll, unchanged, TrafficClass_eq,
  OperationIntent_eq, OperationState_eq, traffic_classes, operation_intents, operation_states,
  ObservationEntry, DetectorWindow, DetectorResultDraft, negative_draft, positive_draft,
  parse_nonnegative_integer, observation_entries, parse_all,
}
use governed_learning_loop.Detectors.Order.{Sequenced, sort_sequenced, assert_unique_sequences}

pub record OperationEntry : Type 0 where
  pub episode_id : String
  pub sequence : ℕ
  pub record_id : String
  pub reference_digest : String
  pub intent : OperationIntent
  pub state : OperationState
  pub operation_class : String
  pub target_keyed_digest : String
  pub signature_keyed_digest : String
  pub traffic_class : TrafficClass

abbrev pub sequenced_operations : Sequenced OperationEntry
sequenced_operations = record {
  episode_id = λ e. e.episode_id;
  sequence = λ e. e.sequence;
  record_id = λ e. e.record_id;
}

unfoldable pub parse_operation : ObservationEntry → Result OperationEntry
parse_operation entry = do
  fields ← read_fields entry.content
  sequence ← req fields "sequence" parse_nonnegative_integer
  intent ← req fields "intent" (parse_one_of operation_intents)
  state ← req fields "state" (parse_one_of operation_states)
  operation_class ← req fields "operationClass" parse_id
  target ← req fields "targetKeyedDigest" parse_digest_at
  signature ← req fields "signatureKeyedDigest" parse_digest_at
  traffic ← req fields "trafficClass" (parse_one_of traffic_classes)
  ok (record {
    episode_id = entry.episode_id;
    sequence = sequence;
    record_id = entry.record_id;
    reference_digest = entry.reference_digest;
    intent = intent;
    state = state;
    operation_class = operation_class;
    target_keyed_digest = target;
    signature_keyed_digest = signature;
    traffic_class = traffic;
  })

-- The operations of a window in order, once their sequences are known to be unique.
unfoldable pub sorted_operations : Runtime → DetectorWindow → Result (List OperationEntry)
unfolding parse_operation
sorted_operations rt window = do
  parsed ←
      parse_all parse_operation
        (observation_entries window ("reference.operation.completed.v1" ∷ []))
  let operations = sort_sequenced rt sequenced_operations parsed
  assert_unique_sequences rt sequenced_operations operations
  ok operations

-- The variables of the loop.
pub record PollingState : Type 0 where
  pub current_episode : Option String
  pub current_target : Option String
  pub previous_sequence : Option ℕ
  pub current_refs : List String
  pub winning_refs : List String

unfoldable pub polling_start : PollingState
polling_start = record {
  current_episode = none;
  current_target = none;
  previous_sequence = none;
  current_refs = [];
  winning_refs = [];
}

-- Whether an entry does not follow directly on the one before it.
abbrev pub breaks_sequence : Option String → Option ℕ → String → ℕ → Bool
breaks_sequence current_episode none episode_id sequence = true
breaks_sequence current_episode (some previous) episode_id sequence =
    current_episode != some episode_id || sequence != previous + 1

abbrev pub is_unchanged_poll : TrafficClass → OperationEntry → Bool
is_unchanged_poll eligible o =
    o.traffic_class == eligible && (o.intent == status_poll && o.state == unchanged)

abbrev pub extend_run : Option String → List String → OperationEntry → List String
extend_run target refs o =
    if target == some o.target_keyed_digest
    then refs ++ o.reference_digest ∷ []
    else o.reference_digest ∷ []

abbrev pub longer : List String → List String → List String
longer current winning = if ltb (length winning) (length current) then current else winning

unfoldable pub polling_step : TrafficClass → PollingState → OperationEntry → PollingState
polling_step eligible s o =
    let breaks = breaks_sequence s.current_episode s.previous_sequence o.episode_id o.sequence in
    let target = if breaks then none else s.current_target in
    let refs = if breaks then [] else s.current_refs in
    let extended = extend_run target refs o in
    let t = record s { current_episode = some o.episode_id; previous_sequence = some o.sequence } in
    if is_unchanged_poll eligible o
    then record t {
      current_target = some o.target_keyed_digest;
      current_refs = extended;
      winning_refs = longer extended s.winning_refs;
    }
    else record t { current_target = none; current_refs = [] }

unfoldable pub polling_loop : TrafficClass → PollingState → List OperationEntry → PollingState
polling_loop eligible s [] = s
polling_loop eligible s (o ∷ os) = polling_loop eligible (polling_step eligible s o) os

pub record PollingPolicy : Type 0 where
  pub eligible_traffic_class : TrafficClass
  pub minimum_consecutive_unchanged_polls : ℕ

-- The draft for the run that won.
unfoldable pub polling_draft : PollingPolicy → List String → DetectorResultDraft
polling_draft policy winning_refs =
    if ltb (length winning_refs) policy.minimum_consecutive_unchanged_polls
    then negative_draft
    else positive_draft (record {
      learning_class = "mechanical_execution";
      statement = "The configured consecutive unchanged status-poll condition was observed.";
      evidence_reference_digests = winning_refs;
      content = obj (
          field "family" (str "repeated_status_polling")
            (field "longestConsecutiveRun" (num (natural (length winning_refs))) end));
      is_structural = false;
      missing_capabilities = [];
    })

unfoldable pub evaluate_polling :
    Runtime → DetectorWindow → PollingPolicy → Result DetectorResultDraft
evaluate_polling rt window policy = do
  operations ← sorted_operations rt window
  let final = polling_loop policy.eligible_traffic_class polling_start operations
  ok (polling_draft policy final.winning_refs)

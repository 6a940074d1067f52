-- ===== src/Journal/Evaluations.antt =====
-- engine/publication-journal.ts: the index of an intervention's evaluations.
use governed_learning_loop.Prelude.{
  ℕ, zero, suc, String, Bool, ◌||◌, Option, none, some, List, [], ◌∷◌, length, leb, find_first,
  ◌==◌, ◌!=◌, String_eq,
}
use governed_learning_loop.Diagnostics.{Result, ok, ◌>>=◌, ◌>>◌, throw_if, failure}
use governed_learning_loop.Json.{Json, str, obj, fields_of, Runtime, ◌⋯◌}
use governed_learning_loop.Json.Parse.{
  Parse, parse_id, parse_durable_id, parse_bounded_array, parse_one_of, read_fields, req,
}
use governed_learning_loop.Store.{
  StoredRecord, StreamEntry, MemoryStore, WriteResult, conflict, append_call,
}
use governed_learning_loop.Action.{Action, ◌>>=◌ as and_then, lift, pure, raise, store_call}
use governed_learning_loop.Intervention.{
  Validation, invalid as invalid_verdict, inconclusive, improved, regressed,
}
use governed_learning_loop.Engine.{record_key, record_digest, store_corrupt, stored_record_in}
use governed_learning_loop.Engine.Load.{load_stored_record}
use governed_learning_loop.Journal.{parse_stream_entry_at, corrupt_if_thrown}

abbrev pub evaluation_index_kind : String
evaluation_index_kind = "intervention-evaluation"

abbrev pub evaluation_kind_name : String
evaluation_kind_name = "experiment-evaluation"

abbrev pub max_evaluations_per_intervention : ℕ
max_evaluations_per_intervention = 1000

pub record InterventionEvaluationEntry : Type 0 where
  pub evaluation_id : String
  pub experiment_id : String
  pub intervention_id : String

pub record EvaluationIndex : Type 0 where
  pub entries : List InterventionEvaluationEntry
  pub revision : ℕ

unfoldable pub evaluation_entry_json : InterventionEvaluationEntry → Json
evaluation_entry_json e = obj (
    fields_of (
      ("evaluationId", str e.evaluation_id)
      ∷ ("experimentId", str e.experiment_id)
      ∷ ("interventionId", str e.intervention_id)
      ∷ []))

unfoldable pub parse_evaluation_entry_at : Parse InterventionEvaluationEntry
parse_evaluation_entry_at input = do
  fields ← read_fields input
  evaluation ← req fields "evaluationId" parse_durable_id
  experiment ← req fields "experimentId" parse_id
  intervention ← req fields "interventionId" parse_durable_id
  ok (record {
    evaluation_id = evaluation;
    experiment_id = experiment;
    intervention_id = intervention;
  })

abbrev pub entries_in : Option EvaluationIndex → List InterventionEvaluationEntry
entries_in none = []
entries_in (some index) = index.entries

abbrev index_revision : Option EvaluationIndex → Option ℕ
index_revision none = none
index_revision (some index) = some index.revision

module _ (rt : Runtime) where
  -- Whether an entry of the stream does not bind its evaluation.
  unfoldable pub is_misbound : String → StreamEntry → InterventionEvaluationEntry → Bool
  is_misbound intervention_id entry value =
      entry.id != value.evaluation_id
      || (entry.digest != record_digest rt (evaluation_entry_json value)
          || value.intervention_id != intervention_id)

  unfoldable pub evaluation_entries :
      String → List StreamEntry → Result (List InterventionEvaluationEntry)
  evaluation_entries intervention_id [] = ok []
  evaluation_entries intervention_id (entry ∷ raw) = do
    value ← parse_evaluation_entry_at entry.value
    throw_if (is_misbound intervention_id entry value) store_corrupt
    rest ← evaluation_entries intervention_id raw
    ok (value ∷ rest)

  unfoldable pub index_of : String → Option StoredRecord → Result (Option EvaluationIndex)
  index_of intervention_id none = ok none
  index_of intervention_id (some stored) = do
    raw ← parse_bounded_array parse_stream_entry_at max_evaluations_per_intervention stored.value
    entries ← evaluation_entries intervention_id raw
    ok (some (record { entries = entries; revision = stored.revision }))

  -- What `loadEvaluationIndex` returns in one state of the store.
  unfoldable pub index_in : String → MemoryStore → Result (Option EvaluationIndex)
  index_in intervention_id s = do
    stored ← stored_record_in rt evaluation_index_kind intervention_id s
    index_of intervention_id stored

  unfoldable pub load_evaluation_index : String → Action (Option EvaluationIndex)
  load_evaluation_index intervention_id =
      and_then (load_stored_record rt evaluation_index_kind intervention_id)
        λ stored. lift (index_of intervention_id stored)

  abbrev pub entry_for :
      List InterventionEvaluationEntry → String → Option InterventionEvaluationEntry
  entry_for entries evaluation_id =
      find_first (λ (e : InterventionEvaluationEntry). e.evaluation_id == evaluation_id) entries

  unfoldable pub after_index_append : Action (Unit {0}) → WriteResult → Action (Unit {0})
  after_index_append retry (conflict revision) = retry
  after_index_append retry _ = pure tt

  unfoldable pub index_entry :
      Action (Unit {0})
      → InterventionEvaluationEntry
      → Option EvaluationIndex
      → Option InterventionEvaluationEntry
      → Action (Unit {0})
  unfolding after_index_append
  index_entry retry entry index (some present) =
      lift (throw_if (present.experiment_id != entry.experiment_id) store_corrupt)
  index_entry retry entry index none =
      and_then
        (lift (
          throw_if (leb max_evaluations_per_intervention (length (entries_in index)))
            (failure "experiment.limit_exceeded")))
        λ _.
          and_then
            (store_call (
              append_call (record_key evaluation_index_kind entry.intervention_id)
                (index_revision index)
                (record {
                  id = entry.evaluation_id;
                  digest = record_digest rt (evaluation_entry_json entry);
                  value = evaluation_entry_json entry;
                }
                  ∷ [])
                ("intervention-evaluation/" ⋯ entry.intervention_id ⋯ "/" ⋯ entry.evaluation_id)))
            λ result. after_index_append retry result

  -- The loop of `ensureInterventionEvaluationIndexed`, by the attempts that are left.
  unfoldable pub index_attempts : InterventionEvaluationEntry → ℕ → Action (Unit {0})
  unfolding index_entry
  index_attempts entry zero = raise (failure "store.conflict")
  index_attempts entry (suc left) = and_then (load_evaluation_index entry.intervention_id) λ index.
      index_entry (index_attempts entry left) entry index
        (entry_for (entries_in index) entry.evaluation_id)

  unfoldable pub ensure_intervention_evaluation_indexed :
      InterventionEvaluationEntry → Action (Unit {0})
  ensure_intervention_evaluation_indexed entry = index_attempts entry 8

pub record BoundEvaluation : Type 0 where
  pub id : String
  pub experiment_id : String
  pub verdict : Validation

abbrev experiment_verdicts : List (String × Validation)
experiment_verdicts =
    ("invalid", invalid_verdict)
    ∷ ("inconclusive", inconclusive)
    ∷ ("improved", improved)
    ∷ ("regressed", regressed)
    ∷ []

unfoldable pub read_evaluation : String → Json → Result BoundEvaluation
read_evaluation intervention_id value = do
  fields ← read_fields value
  id ← req fields "id" parse_durable_id
  experiment ← req fields "experimentId" parse_id
  verdict ← req fields "verdict" (parse_one_of experiment_verdicts)
  intervention ← req fields "interventionId" parse_durable_id
  throw_if (intervention != intervention_id) store_corrupt
  ok (record { id = id; experiment_id = experiment; verdict = verdict })

module _ (rt : Runtime) where
  -- The evaluations of the entries whose record exists.
  unfoldable pub bound_evaluations :
      String
      → List (InterventionEvaluationEntry × Option StoredRecord)
      → Result (List BoundEvaluation)
  bound_evaluations intervention_id [] = ok []
  bound_evaluations intervention_id ((entry, none) ∷ rest) = bound_evaluations intervention_id rest
  bound_evaluations intervention_id ((entry, some stored) ∷ rest) = do
    bound ← corrupt_if_thrown (read_evaluation intervention_id stored.value)
    throw_if (bound.id != entry.evaluation_id || bound.experiment_id != entry.experiment_id)
        store_corrupt
    evaluations ← bound_evaluations intervention_id rest
    ok (bound ∷ evaluations)

  -- The records of the entries, one after the other.
  unfoldable pub load_evaluation_records :
      List InterventionEvaluationEntry
      → Action (List (InterventionEvaluationEntry × Option StoredRecord))
  load_evaluation_records [] = pure []
  load_evaluation_records (entry ∷ entries) =
      and_then (load_stored_record rt evaluation_kind_name entry.evaluation_id)
        λ stored. and_then (load_evaluation_records entries) λ rest. pure ((entry, stored) ∷ rest)

  unfoldable pub load_intervention_evaluations : String → Action (List BoundEvaluation)
  load_intervention_evaluations intervention_id =
      and_then (load_evaluation_index rt intervention_id) λ index.
        and_then (load_evaluation_records (entries_in index))
          λ records. lift (bound_evaluations intervention_id records)

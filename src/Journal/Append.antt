-- ===== src/Journal/Append.antt =====
-- engine/publication-journal.ts, `loadTransitionStream` and `appendInterventionTransition`: the
-- loop that reloads, appends at the revision it has read, and tries again on a conflict.
use governed_learning_loop.Prelude.{ℕ, zero, suc, String, Option, none, some, List, [], ◌∷◌, last?}
use governed_learning_loop.Diagnostics.{throw_if, failure}
use governed_learning_loop.Json.{Runtime, ◌⋯◌}
use governed_learning_loop.Store.{WriteResult, conflict, append_call}
use governed_learning_loop.Intervention.{
  InterventionState, InterventionTransition, intervention_transition_kind,
}
use governed_learning_loop.Action.{Action, ◌>>=◌, ◌>>◌, lift, raise, store_call, read_clock}
use governed_learning_loop.Engine.{record_key, store_corrupt}
use governed_learning_loop.Engine.Load.{load_stored_record}
use governed_learning_loop.Journal.{
  TransitionStream, transition_kind_name, stream_of, transitions_in, revision_in, current_state_of,
  is_illegal, head_expected, head_at, built_transition, entry_of,
}

abbrev pub max_append_attempts : ℕ
max_append_attempts = 8

module _ (rt : Runtime) (clock : ℕ → String) where
  unfoldable pub load_transition_stream : String → Action (Option TransitionStream)
  load_transition_stream intervention_id = do
    stored ← load_stored_record rt transition_kind_name intervention_id
    lift (stream_of rt intervention_id stored)

  abbrev pub append_operation : String → InterventionTransition → String
  append_operation intervention_id t = "intervention-transition/" ⋯ intervention_id ⋯ "/" ⋯ t.id

  -- What follows the store's answer: the next attempt, or the reload.
  unfoldable pub after_append :
      Action InterventionTransition
      → String
      → InterventionState
      → WriteResult
      → Action InterventionTransition
  after_append retry intervention_id target (conflict revision) = retry
  after_append retry intervention_id target _ = do
    reloaded ← load_transition_stream intervention_id
    lift (head_at target (last? (transitions_in reloaded)))

  unfoldable pub append_target :
      Action InterventionTransition
      → String
      → List String
      → Option TransitionStream
      → Option InterventionState
      → Action InterventionTransition
  unfolding after_append
  append_target retry intervention_id evidence_ids stream none =
      lift (head_expected (last? (transitions_in stream)))
  append_target retry intervention_id evidence_ids stream (some target) = do
    lift (
        throw_if (is_illegal (intervention_transition_kind (current_state_of stream) target))
          store_corrupt)
    occurred_at ← read_clock clock
    transition ← lift (
        built_transition rt intervention_id (current_state_of stream) target evidence_ids
          occurred_at)
    result ← store_call (
        append_call (record_key transition_kind_name intervention_id) (revision_in stream)
          (entry_of rt transition ∷ []) (append_operation intervention_id transition))
    after_append retry intervention_id target result

  module _ (intervention_id : String) (next : InterventionState → Option InterventionState)
      (evidence_ids : List String) where
    -- The loop, by the attempts that are left.
    unfoldable pub append_attempts : ℕ → Action InterventionTransition
    unfolding append_target
    append_attempts zero = raise (failure "store.conflict")
    append_attempts (suc left) = do
      stream ← load_transition_stream intervention_id
      append_target (append_attempts left) intervention_id evidence_ids stream
          (next (current_state_of stream))

    unfoldable pub append_intervention_transition : Action InterventionTransition
    append_intervention_transition = append_attempts max_append_attempts

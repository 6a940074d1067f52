-- ===== src/Journal.antt =====
-- engine/publication-journal.ts: the durable journal of a publication. This file holds the stream of
-- an intervention's transitions: how it is read, and `appendInterventionTransition`.
pub mod Append
pub mod Legal
pub mod Entries
pub mod Loads
pub mod Reads
pub mod Receipts
pub mod Scopes
pub mod Scoped
pub mod Bound
pub mod Headers
pub mod Consumption
pub mod Consumed
pub mod Evaluations
pub mod Fold
pub mod Indexed
pub mod Folded
pub mod Refines
pub mod Solo
mod Tests
pub mod Grows
pub mod Ceiling
pub mod Overfull
pub mod Settled
use governed_learning_loop.Prelude.{
  ℕ, zero, suc, String, Bool, true, false, not, ◌&&◌, ◌||◌, Option, none, some, List, [], ◌∷◌, map,
  last?, if◌then◌else◌, ◌==◌, ◌!=◌, String_eq,
}
use governed_learning_loop.Diagnostics.{
  Result, ok, throw, ◌>>=◌, ◌>>◌, throw_if, failure, LearningLoopError, diagnostic,
}
use governed_learning_loop.Json.{Json, str, arr, Runtime, ◌⋯◌}
use governed_learning_loop.Json.Parse.{
  Parse, parse_non_empty_text, parse_bounded_array, read_fields, req,
}
use governed_learning_loop.Store.{StoredRecord, StreamEntry, MemoryStore}
use governed_learning_loop.Intervention.{
  InterventionState, InterventionTransition, initial_intervention_state, same_intervention_state,
  intervention_transition_kind, TransitionKind,
}
use governed_learning_loop.Intervention.Parse.{
  parse_intervention_transition, transition_json, intervention_transition_id_for,
}
use governed_learning_loop.Engine.{record_digest, store_corrupt, stored_record_in}

abbrev pub parse_unknown : Parse Json
parse_unknown input = ok input

unfoldable pub parse_stream_entry_at : Parse StreamEntry
parse_stream_entry_at input = do
  fields ← read_fields input
  id ← req fields "id" parse_non_empty_text
  digest ← req fields "digest" parse_non_empty_text
  value ← req fields "value" parse_unknown
  ok (record { id = id; digest = digest; value = value })

-- `corrupt(message, error.diagnostics)` around a parser that throws.
abbrev pub corrupt_if_thrown {ℓ} : {A : Type ℓ} → Result A → Result A
corrupt_if_thrown (ok a) = ok a
corrupt_if_thrown (throw e) =
    throw
      (record { code = "store.corrupt"; diagnostics = diagnostic "store.corrupt" ∷ e.diagnostics })

abbrev pub max_transitions_per_intervention : ℕ
max_transitions_per_intervention = 1000

abbrev pub transition_kind_name : String
transition_kind_name = "intervention-transition"

pub record TransitionStream : Type 0 where
  pub transitions : List InterventionTransition
  pub revision : ℕ

module _ (rt : Runtime) where
  -- Whether a transition does not continue the stream at its entry.
  unfoldable pub is_out_of_place :
      String → InterventionState → StreamEntry → InterventionTransition → Bool
  is_out_of_place intervention_id expected_from entry t =
      entry.id != t.id
      || (entry.digest != record_digest rt (transition_json t)
          || (t.intervention_id != intervention_id
              || not (same_intervention_state t.from expected_from)))

  -- The loop of `transitionEntries`.
  unfoldable pub transitions_of :
      String → InterventionState → List StreamEntry → Result (List InterventionTransition)
  transitions_of intervention_id expected_from [] = ok []
  transitions_of intervention_id expected_from (entry ∷ entries) = do
    transition ← corrupt_if_thrown (parse_intervention_transition rt entry.value)
    throw_if (is_out_of_place intervention_id expected_from entry transition) store_corrupt
    rest ← transitions_of intervention_id transition.to entries
    ok (transition ∷ rest)

  unfoldable pub transition_entries : Json → String → Result (List InterventionTransition)
  unfolding parse_stream_entry_at
  transition_entries value intervention_id = do
    entries ← parse_bounded_array parse_stream_entry_at max_transitions_per_intervention value
    transitions_of intervention_id initial_intervention_state entries

  unfoldable pub stream_of : String → Option StoredRecord → Result (Option TransitionStream)
  stream_of intervention_id none = ok none
  stream_of intervention_id (some stored) = do
    transitions ← transition_entries stored.value intervention_id
    ok (some (record { transitions = transitions; revision = stored.revision }))

  -- What `loadTransitionStream` returns in one state of the store.
  unfoldable pub stream_in : String → MemoryStore → Result (Option TransitionStream)
  stream_in intervention_id s = do
    stored ← stored_record_in rt transition_kind_name intervention_id s
    stream_of intervention_id stored

  -- `parseInterventionTransition({ schemaVersion: 1, id, ...content })`, for the content that an
  -- append writes.
  unfoldable pub built_transition :
      String
      → InterventionState
      → InterventionState
      → List String
      → String
      → Result InterventionTransition
  built_transition intervention_id from to evidence_ids occurred_at =
      let content : InterventionTransition = record {
        id = "";
        intervention_id = intervention_id;
        from = from;
        to = to;
        evidence_ids = evidence_ids;
        occurred_at = occurred_at;
      } in
      parse_intervention_transition rt
        (transition_json (record content { id = intervention_transition_id_for rt content }))

  abbrev pub entry_of : InterventionTransition → StreamEntry
  entry_of t = record {
    id = t.id;
    digest = record_digest rt (transition_json t);
    value = transition_json t;
  }

abbrev pub transitions_in : Option TransitionStream → List InterventionTransition
transitions_in none = []
transitions_in (some stream) = stream.transitions

abbrev pub revision_in : Option TransitionStream → Option ℕ
revision_in none = none
revision_in (some stream) = some stream.revision

abbrev pub state_after : Option InterventionTransition → InterventionState
state_after none = initial_intervention_state
state_after (some t) = t.to

unfoldable pub current_state_of : Option TransitionStream → InterventionState
current_state_of stream = state_after (last? (transitions_in stream))

abbrev pub is_illegal : Option TransitionKind → Bool
is_illegal none = true
is_illegal (some kind) = false

-- The checks on the head of a stream: that there is one, and that it lands on the target.
unfoldable pub head_expected : Option InterventionTransition → Result InterventionTransition
head_expected none = throw store_corrupt
head_expected (some head) = ok head

unfoldable pub head_at :
    InterventionState → Option InterventionTransition → Result InterventionTransition
head_at target none = throw store_corrupt
head_at target (some head) =
    if same_intervention_state head.to target then ok head else throw store_corrupt

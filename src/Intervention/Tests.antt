-- ===== src/Intervention/Tests.antt =====
-- records/intervention.ts on examples: one history, and one transition as it is persisted.
use governed_learning_loop.Prelude.{
  ne_of_eq-false, ◌≡◌, ◌↔◌, refl, inr, true, false, some, [], ◌∷◌, arith,
}
use governed_learning_loop.Diagnostics.{ok, Ensures}
use governed_learning_loop.Json.{Runtime, sha256_hex_of_canonical_json}
use governed_learning_loop.Intervention.{
  InterventionState, InterventionTransition, authorize, publish, published, authorized, active,
  initial_intervention_state, intervention_transition_kind, intervention_state_invalid_reasons,
  authorize_allowed, activate_kind,
}
use governed_learning_loop.Intervention.Table.{IsSound, Edge, kind_iff}
use governed_learning_loop.Intervention.History.{
  Chain, here, next, IsLawful, Keeps, Chain-IsLawful, Chain-Keeps,
}
use governed_learning_loop.Intervention.Parse.{
  parse_intervention_transition, transition_json, intervention_transition_id_for,
  intervention_transition_digest,
}
use governed_learning_loop.Intervention.RoundTrip.{
  IsWellFormed, parse-transition_json, parse-IsWellFormed,
}

abbrev pub ready : InterventionState
ready = record initial_intervention_state { authorization = authorized }

abbrev pub in_force : InterventionState
in_force = record ready { publication = published; activation = active }

pub first_step : intervention_transition_kind initial_intervention_state ready ≡ some authorize
unfolding intervention_transition_kind intervention_state_invalid_reasons authorize_allowed
first_step = refl

second_step : intervention_transition_kind ready in_force ≡ some publish
unfolding intervention_transition_kind intervention_state_invalid_reasons activate_kind
second_step = refl

kind_iff_example :
    (intervention_transition_kind ready in_force ≡ some publish)
    ↔ (IsSound ready × Edge publish ready in_force × IsSound in_force)
kind_iff_example = kind_iff ready in_force publish

published_history : Chain initial_intervention_state in_force
published_history = next (next here first_step) second_step

Chain-IsLawful_example : IsLawful in_force
Chain-IsLawful_example = Chain-IsLawful published_history

Chain-Keeps_example : Keeps initial_intervention_state in_force
Chain-Keeps_example = Chain-Keeps published_history

abbrev pub plain_runtime : Runtime
plain_runtime = record {
  sha256 = λ _. "00000000000000000000000000000000000000000000000000000000000000aa";
  quote = λ s. s;
  number_text = λ _. "0";
  before = λ _ _. false;
  is_timestamp = λ _. true;
}

abbrev pub publishing : InterventionTransition
publishing = record {
  id = "transition-00000000000000000000000000000000000000000000000000000000000000aa";
  intervention_id = "intervention-1";
  from = ready;
  to = in_force;
  evidence_ids = "receipt-1" ∷ [];
  occurred_at = "2026-01-01T00:00:00.000Z";
}

publishing-IsWellFormed : IsWellFormed plain_runtime publishing
unfolding intervention_transition_id_for intervention_transition_digest sha256_hex_of_canonical_json
publishing-IsWellFormed = record {
  id_durable = record {
    nonempty = ne_of_eq-false publishing.id "" refl;
    short = omega arith;
    printable = refl;
  };
  intervention_durable = record {
    nonempty = ne_of_eq-false "intervention-1" "" refl;
    short = omega arith;
    printable = refl;
  };
  references = record {
    durable = (
      record {
        nonempty = ne_of_eq-false "receipt-1" "" refl;
        short = omega arith;
        printable = refl;
      },
      tt,
    );
    few = omega arith;
    distinct = refl;
  };
  occurs = ne_of_eq-false publishing.occurred_at "" refl;
  dated = refl;
  legal = (publish, second_step, inr (λ e. cc));
  addressed = refl;
}

parse-transition_json_example :
    parse_intervention_transition plain_runtime (transition_json publishing) ≡ ok publishing
parse-transition_json_example =
    parse-transition_json plain_runtime publishing publishing-IsWellFormed

parse-IsWellFormed_example :
    Ensures
      (IsWellFormed plain_runtime)
      (parse_intervention_transition plain_runtime (transition_json publishing))
parse-IsWellFormed_example = parse-IsWellFormed plain_runtime (transition_json publishing)

-- ===== src/Journal/Tests.antt =====
-- engine/publication-journal.ts on examples: the first transition of an intervention, and the records
-- of its publication.
use governed_learning_loop.Prelude.{
  ne_of_eq-false, ℕ, zero, suc, ◌≡◌, refl, inr, if◌then◌else◌, Option, none, some, List, [], ◌∷◌,
  length, All, arith, String,
}
use governed_learning_loop.Diagnostics.{Ensures}
use governed_learning_loop.Json.{null, ◌⋯◌}
use governed_learning_loop.Json.Texts.{IsDurableId}
use governed_learning_loop.Store.{
  StreamEntry, Cell, MemoryStore, create_store, get_cell, stream_form, same_key, append_call,
  create_call, tombstone_call, Call,
}
use governed_learning_loop.Store.Runs.{run}
use governed_learning_loop.Intervention.{
  InterventionState, InterventionTransition, authorize, initial_intervention_state,
  same_intervention_state, improved, intervention_transition_kind,
}
use governed_learning_loop.Intervention.Tests.{plain_runtime, ready, first_step, publishing}
use governed_learning_loop.Action.{World}
use governed_learning_loop.Action.Laws.{Yields}
use governed_learning_loop.Engine.{record_key}
use governed_learning_loop.Review.{human}
use governed_learning_loop.Publication.{
  publish, context, t1, irreversible, PreparedEffect, PublicationPlan,
}
use governed_learning_loop.Journal.{transition_kind_name, stream_in, entry_of}
use governed_learning_loop.Journal.Append.{append_intervention_transition}
use governed_learning_loop.Journal.Legal.{end_state, IsLegal, stream_in-IsLegal}
use governed_learning_loop.Journal.Settled.{SettledIn, append_intervention_transition-SettledIn}
use governed_learning_loop.Journal.Refines.{absent}
use governed_learning_loop.Journal.Solo.{transition_for, HasDurableDigests, Represents, IsReady}
use governed_learning_loop.Journal.Grows.{Grown, append-Grown}
use governed_learning_loop.Journal.Overfull.{IsOverfull, long, IsOverfull-NoStream}
use governed_learning_loop.Journal.Scopes.{
  InterventionScopeMembership, ensure_intervention_scope_membership,
}
use governed_learning_loop.Journal.Scoped.{Indexed, ensure-Indexed}
use governed_learning_loop.Journal.Receipts.{
  StoredPublicationReceipt, parse_stored_publication_receipt, stored_receipt_json,
  ensure_stored_publication_receipt,
}
use governed_learning_loop.Journal.Bound.{
  IsBoundReceipt, parse-IsBoundReceipt, BindsPlan, Ensured, ensure-Ensured,
}
use governed_learning_loop.Journal.Consumption.{
  AuthorizationConsumption, authorization_kind_name, consumption_json,
  ensure_authorization_consumption,
}
use governed_learning_loop.Journal.Headers.{
  InterventionHeader, header_json, parse_intervention_header,
}
use governed_learning_loop.Journal.Consumed.{
  IsBoundHeader, parse-IsBoundHeader, Consumed, ensure-Consumed,
}
use governed_learning_loop.Journal.Evaluations.{
  BoundEvaluation, InterventionEvaluationEntry, evaluation_index_kind, evaluation_entry_json,
  index_in,
}
use governed_learning_loop.Journal.Indexed.{IsBoundIndex, index_in-IsBoundIndex}
use governed_learning_loop.Journal.Fold.{FoldedIds, fold_transitions}
use governed_learning_loop.Journal.Folded.{FoldedInto, fold_transitions-All}

abbrev clock : ℕ → String
clock n = "2026-01-01T00:00:00.000Z"

-- Authorize, unless that is done.
unfoldable to_ready : InterventionState → Option InterventionState
to_ready s = if same_intervention_state s ready then none else some ready

abbrev stream_cell : List StreamEntry → Cell
stream_cell entries = record {
  key = record_key transition_kind_name "intervention-1";
  form = stream_form entries;
  revision = 1;
  last_operation_id = "op-1";
  insertion_index = 0;
}

abbrev store_of : List StreamEntry → MemoryStore
store_of entries = record {
  cells = stream_cell entries ∷ [];
  namespace_write_counts = λ _. 1;
  next_insertion_index = 1;
}

-- The first transition of the intervention, as another writer wrote it.
abbrev authorizing : InterventionTransition
authorizing = record publishing {
  from = initial_intervention_state;
  to = ready;
  evidence_ids = "authorization-1" ∷ [];
}

stream_in-IsLegal_example :
    Ensures (IsLegal plain_runtime "intervention-1") (
      stream_in plain_runtime "intervention-1" (store_of (entry_of plain_runtime authorizing ∷ [])))
stream_in-IsLegal_example =
    stream_in-IsLegal plain_runtime "intervention-1"
      (store_of (entry_of plain_runtime authorizing ∷ []))

-- Another writer authorizes between the read and the append, whose second attempt finds that done.
abbrev contended : World
contended = record {
  store = create_store;
  others =
      []
      ∷ (append_call (record_key transition_kind_name "intervention-1") none
            (entry_of plain_runtime authorizing ∷ []) "op-2"
          ∷ [])
      ∷ [];
  ticks = 0;
}

append_intervention_transition-SettledIn_example :
    Yields
      (λ t v. SettledIn plain_runtime "intervention-1" to_ready create_store v.store t)
      (append_intervention_transition plain_runtime clock "intervention-1" to_ready
        ("authorization-1" ∷ [])
        contended)
append_intervention_transition-SettledIn_example =
    append_intervention_transition-SettledIn plain_runtime clock "intervention-1" to_ready
      ("authorization-1" ∷ []) contended

hex_digests : HasDurableDigests plain_runtime clock "intervention-1"
hex_digests = record {
  nonempty = λ x. ne_of_eq-false (plain_runtime.sha256 x) "" refl;
  durable = λ x. record {
    nonempty = ne_of_eq-false ("transition-" ⋯ plain_runtime.sha256 x) "" refl;
    short = omega arith;
    printable = refl;
  };
}

durable_intervention : IsDurableId "intervention-1"
durable_intervention = record {
  nonempty = ne_of_eq-false "intervention-1" "" refl;
  short = omega arith;
  printable = refl;
}

nothing_yet : Represents plain_runtime clock "intervention-1" create_store []
unfolding create_store get_cell
nothing_yet = record { cell = none; found = refl; holds = absent; history = tt; few = omega arith }

ready_asked : to_ready (end_state initial_intervention_state []) ≡ some ready
unfolding to_ready end_state same_intervention_state
ready_asked = refl

ready_first :
    IsReady plain_runtime clock "intervention-1" nothing_yet.cell [] ready
      ("authorization-1" ∷ [])
      (clock 0)
unfolding end_state nothing_yet
ready_first = record {
  legal = (authorize, first_step, inr (λ e. cc));
  references = record {
    durable = (
      record {
        nonempty = ne_of_eq-false "authorization-1" "" refl;
        short = omega arith;
        printable = refl;
      },
      tt,
    );
    few = omega arith;
    distinct = refl;
  };
  occurs = ne_of_eq-false (clock 0) "" refl;
  dated = refl;
  new_id = refl;
  new_operation = λ e. cc;
}

append-Grown_example :
    Grown plain_runtime clock "intervention-1" to_ready ("authorization-1" ∷ []) create_store 0 [] (
      transition_for plain_runtime "intervention-1"
        (end_state initial_intervention_state [])
        ready
        ("authorization-1" ∷ [])
        (clock 0))
append-Grown_example =
    append-Grown plain_runtime clock "intervention-1" hex_digests durable_intervention to_ready
      ("authorization-1" ∷ []) create_store 0 [] nothing_yet ready ready_asked ready_first
      (omega arith)

abbrev repeated : ℕ → StreamEntry → List StreamEntry
repeated zero e = []
repeated (suc n) e = e ∷ repeated n e

length-repeated : (n : ℕ) (e : StreamEntry) → length (repeated n e) ≡ n
length-repeated zero e = refl
length-repeated (suc n) e = omega (arith, length-repeated n e)

full_stream :
    IsOverfull plain_runtime "intervention-1"
      (store_of (repeated 1001 (entry_of plain_runtime publishing)))
unfolding get_cell same_key
full_stream = record {
  cell = stream_cell (repeated 1001 (entry_of plain_runtime publishing));
  found = refl;
  form = long (omega (arith, length-repeated 1001 (entry_of plain_runtime publishing)));
}

abbrev later_calls : List Call
later_calls =
    tombstone_call (record_key transition_kind_name "intervention-1") 1 "overfull" "op-9" ∷ []

IsOverfull-NoStream_example :
    Ensures
      (λ stream. stream ≡ none)
      (stream_in plain_runtime "intervention-1"
        (run later_calls (store_of (repeated 1001 (entry_of plain_runtime publishing)))))
IsOverfull-NoStream_example =
    IsOverfull-NoStream plain_runtime "intervention-1"
      (store_of (repeated 1001 (entry_of plain_runtime publishing))) later_calls full_stream

abbrev hex : String
hex = "00000000000000000000000000000000000000000000000000000000000000aa"

abbrev effect : PreparedEffect
effect = record {
  id = "effect-1";
  kind = "file";
  target = "docs/rules.md";
  expected_base = none;
  payload = null;
  payload_digest = hex;
  after_effect = irreversible "published text stays";
}

abbrev plan : PublicationPlan
plan = record {
  id = "plan-00000000000000000000000000000000000000000000000000000000000000aa";
  candidate_id = "candidate-1";
  candidate_digest = hex;
  destination_id = "repository";
  action = publish;
  effect_class = context;
  effective_risk = t1;
  effects = effect ∷ [];
  lineage = record {
    scope_digest = hex;
    scope_policy_digest = hex;
    registry_revision = hex;
    destination_registration_digest = hex;
    derivation = none;
    parent_intervention_id = none;
  };
  plan_digest = hex;
  policy_digest = hex;
  created_at = clock 0;
}

abbrev stored_receipt : StoredPublicationReceipt
stored_receipt = record {
  id = "receipt-00000000000000000000000000000000000000000000000000000000000000aa";
  plan_id = plan.id;
  plan_digest = hex;
  intervention_id = "intervention-00000000000000000000000000000000000000000000000000000000000000aa";
  effect_id = "effect-1";
  effect_index = 0;
  idempotency_key = hex;
  receipt = record {
    destination_id = "repository";
    effect_id = "effect-1";
    target = "docs/rules.md";
    expected_base = none;
    final_version = some "v1";
    payload_digest = hex;
    idempotency_key = hex;
    applied_at = clock 0;
  };
  receipt_digest = hex;
}

parse-IsBoundReceipt_example :
    Ensures
      (IsBoundReceipt plain_runtime)
      (parse_stored_publication_receipt plain_runtime (stored_receipt_json stored_receipt))
parse-IsBoundReceipt_example =
    parse-IsBoundReceipt plain_runtime (stored_receipt_json stored_receipt)

receipt_of_plan : BindsPlan plain_runtime plan effect 0 hex stored_receipt
receipt_of_plan = record {
  same_plan = refl;
  same_index = refl;
  same_key = refl;
  proved = record {
    destination = refl;
    effect = refl;
    target = refl;
    payload = refl;
    key = refl;
    base = refl;
  };
}

ensure-Ensured_example :
    Yields
      (Ensured plain_runtime stored_receipt plan effect create_store)
      (ensure_stored_publication_receipt plain_runtime stored_receipt plan effect contended)
ensure-Ensured_example =
    ensure-Ensured plain_runtime stored_receipt plan effect receipt_of_plan contended

abbrev consumption : AuthorizationConsumption
consumption = record {
  id = "authorization-00000000000000000000000000000000000000000000000000000000000000aa";
  plan_id = plan.id;
  plan_digest = hex;
  binding_digest = hex;
  authorization = record {
    id = "approval-1";
    principal = record { id = "ada"; kind = human; independence_domain = "people" };
    principal_attestation_digest = hex;
    binding_digest = hex;
    authorized_at = clock 0;
    expires_at = none;
  };
  registry_revision = hex;
  policy_digest = hex;
  consumed_at = clock 0;
  consumption_digest = hex;
}

-- Another writer consumes the authorization before the call does.
abbrev consumed_before : World
consumed_before = record {
  store = create_store;
  others =
      (create_call (record_key authorization_kind_name consumption.id)
          (consumption_json (record consumption { consumed_at = clock 1 })) hex "op-2"
        ∷ [])
      ∷ [];
  ticks = 0;
}

ensure-Consumed_example :
    Yields
      (Consumed plain_runtime consumption create_store)
      (ensure_authorization_consumption plain_runtime consumption consumed_before)
ensure-Consumed_example = ensure-Consumed plain_runtime consumption consumed_before

abbrev header : InterventionHeader
header = record {
  id = stored_receipt.intervention_id;
  candidate_id = "candidate-1";
  candidate_digest = hex;
  plan_id = plan.id;
  plan_digest = hex;
  destination_id = "repository";
  action = publish;
  effect_class = context;
  scope_digest = hex;
  parent_intervention_id = none;
  authorization_id = consumption.id;
  created_at = clock 0;
  header_digest = hex;
}

parse-IsBoundHeader_example :
    Ensures
      (IsBoundHeader plain_runtime)
      (parse_intervention_header plain_runtime (header_json header))
parse-IsBoundHeader_example = parse-IsBoundHeader plain_runtime (header_json header)

abbrev evaluations : List BoundEvaluation
evaluations =
    record { id = "evaluation-1"; experiment_id = "experiment-1"; verdict = improved } ∷ []

abbrev no_ids : FoldedIds
no_ids = record { receipt_ids = []; authorization_ids = [] }

abbrev validating : InterventionTransition
validating = record publishing {
  from = publishing.to;
  to = record publishing.to { validation = improved };
  evidence_ids = "evaluation-1" ∷ [];
}

fold_transitions-All_example :
    Ensures
      (λ new.
        All
          (λ t. FoldedInto evaluations new t (intervention_transition_kind t.from t.to))
          (publishing ∷ validating ∷ []))
      (fold_transitions evaluations no_ids (publishing ∷ validating ∷ []))
fold_transitions-All_example =
    fold_transitions-All evaluations no_ids (publishing ∷ validating ∷ [])

abbrev membership : InterventionScopeMembership
membership = record {
  scope_digest = hex;
  intervention_id = header.id;
  candidate_id = "candidate-1";
  candidate_digest = hex;
  destination_id = "repository";
  action = publish;
  parent_intervention_id = none;
  index_digest = hex;
}

ensure-Indexed_example :
    Yields
      (λ _ v. Indexed plain_runtime membership create_store v.store)
      (ensure_intervention_scope_membership plain_runtime membership contended)
ensure-Indexed_example = ensure-Indexed plain_runtime membership contended

abbrev evaluation_entry : InterventionEvaluationEntry
evaluation_entry = record {
  evaluation_id = "evaluation-1";
  experiment_id = "experiment-1";
  intervention_id = "intervention-1";
}

abbrev index_store : MemoryStore
index_store = record {
  cells =
      record {
        key = record_key evaluation_index_kind "intervention-1";
        form = stream_form (
            record {
              id = "evaluation-1";
              digest = hex;
              value = evaluation_entry_json evaluation_entry;
            }
            ∷ []);
        revision = 1;
        last_operation_id = "op-1";
        insertion_index = 0;
      }
      ∷ [];
  namespace_write_counts = λ _. 1;
  next_insertion_index = 1;
}

index_in-IsBoundIndex_example :
    Ensures
      (IsBoundIndex plain_runtime "intervention-1")
      (index_in plain_runtime "intervention-1" index_store)
index_in-IsBoundIndex_example = index_in-IsBoundIndex plain_runtime "intervention-1" index_store

-- ===== src/Journal/Fold.antt =====
-- engine/publication-journal.ts: the fold of an intervention's journal into its record.
use governed_learning_loop.Prelude.{
  ℕ, ◌+◌, String, Bool, true, Option, none, some, List, [], ◌∷◌, ◌++◌, map, any, last?,
  if◌then◌else◌, ◌==◌, ◌!=◌, String_eq,
}
use governed_learning_loop.Diagnostics.{Result, ok, throw, ◌>>=◌, ◌>>◌, throw_if}
use governed_learning_loop.Json.{Json, num, natural, str, obj, fields_of, optional_member, Runtime}
use governed_learning_loop.Action.{Action, ◌>>=◌ as and_then, lift, pure}
use governed_learning_loop.Intervention.{
  InterventionState, InterventionTransition, TransitionKind, authorize, publish, fail, validate,
  Validation, Validation_eq, intervention_transition_kind,
}
use governed_learning_loop.Intervention.Parse.{
  InterventionRecord, parse_intervention_record, state_content, strings,
}
use governed_learning_loop.Engine.{store_corrupt}
use governed_learning_loop.Publication.{
  PreparedEffect, PublicationPlan, publication_effect_idempotency_key,
}
use governed_learning_loop.Journal.{transitions_in, current_state_of}
use governed_learning_loop.Journal.Append.{load_transition_stream}
use governed_learning_loop.Journal.Evaluations.{BoundEvaluation, load_intervention_evaluations}
use governed_learning_loop.Journal.Headers.{InterventionHeader, load_intervention_header}
use governed_learning_loop.Journal.Receipts.{
  StoredPublicationReceipt, load_stored_publication_receipt, assert_stored_receipt_binds,
}

-- `for (const id of ids) set.add(id)`
unfoldable pub add_ids : List String → List String → List String
add_ids set [] = set
add_ids set (id ∷ ids) = add_ids (if any (λ s. s == id) set then set else set ++ id ∷ []) ids

-- `verdictByEvaluation.get(id)`: of several evaluations of one id, the last one counts.
abbrev or_else {ℓ} : {A : Type ℓ} → Option A → Option A → Option A
or_else none other = other
or_else (some a) other = some a

unfoldable pub verdict_of : List BoundEvaluation → String → Option Validation
verdict_of [] id = none
verdict_of (e ∷ evaluations) id =
    or_else (verdict_of evaluations id) (if e.id == id then some e.verdict else none)

abbrev pub is_not_verdict : Option Validation → Validation → Bool
is_not_verdict none landed = true
is_not_verdict (some verdict) landed = verdict != landed

-- The check of what a validate edge cites.
unfoldable pub check_cited : List BoundEvaluation → Validation → List String → Result (Unit {0})
check_cited evaluations landed [] = ok tt
check_cited evaluations landed (id ∷ ids) = do
  throw_if (is_not_verdict (verdict_of evaluations id) landed) store_corrupt
  check_cited evaluations landed ids

pub record FoldedIds : Type 0 where
  pub receipt_ids : List String
  pub authorization_ids : List String

-- One step of the loop of `foldRecord`.
unfoldable pub fold_transition :
    List BoundEvaluation
    → FoldedIds
    → InterventionTransition
    → Option TransitionKind
    → Result FoldedIds
fold_transition evaluations ids t (some authorize) =
    ok (record ids { authorization_ids = add_ids ids.authorization_ids t.evidence_ids })
fold_transition evaluations ids t (some publish) =
    ok (record ids { receipt_ids = add_ids ids.receipt_ids t.evidence_ids })
fold_transition evaluations ids t (some fail) =
    ok (record ids { receipt_ids = add_ids ids.receipt_ids t.evidence_ids })
fold_transition evaluations ids t (some validate) = do
  check_cited evaluations t.to.validation t.evidence_ids
  ok ids
fold_transition evaluations ids t _ = ok ids

unfoldable pub fold_transitions :
    List BoundEvaluation → FoldedIds → List InterventionTransition → Result FoldedIds
unfolding fold_transition
fold_transitions evaluations ids [] = ok ids
fold_transitions evaluations ids (t ∷ ts) = do
  next ← fold_transition evaluations ids t (intervention_transition_kind t.from t.to)
  fold_transitions evaluations next ts

unfoldable pub folded_json :
    InterventionHeader → InterventionTransition → List BoundEvaluation → FoldedIds → Json
folded_json h last evaluations ids = obj (
    fields_of (
      ("schemaVersion", num (natural 1))
      ∷ ("id", str h.id)
      ∷ ("candidateId", str h.candidate_id)
      ∷ ("planId", str h.plan_id)
      ∷ (optional_member "parentInterventionId" h.parent_intervention_id
          ++ (("state", state_content last.to)
              ∷ ("publicationReceiptIds", strings ids.receipt_ids)
              ∷ ("authorizationIds", strings ids.authorization_ids)
              ∷ ("evaluationIds", strings (map (λ (e : BoundEvaluation). e.id) evaluations))
              ∷ ("latestTransitionId", str last.id)
              ∷ []))))

unfoldable pub fold_from :
    InterventionHeader
    → List InterventionTransition
    → List BoundEvaluation
    → Option InterventionTransition
    → Result InterventionRecord
fold_from header transitions evaluations none = throw store_corrupt
fold_from header transitions evaluations (some last) = do
  ids ←
      fold_transitions evaluations (record { receipt_ids = []; authorization_ids = [] }) transitions
  parse_intervention_record (folded_json header last evaluations ids)

unfoldable pub fold_record :
    InterventionHeader
    → List InterventionTransition
    → List BoundEvaluation
    → Result InterventionRecord
unfolding fold_from
fold_record header transitions evaluations =
    fold_from header transitions evaluations (last? transitions)

pub record InterventionFold : Type 0 where
  pub header : InterventionHeader
  pub transitions : List InterventionTransition
  pub state : InterventionState
  pub folded : Option InterventionRecord

module _ (rt : Runtime) (clock : ℕ → String) where
  unfoldable pub evaluations_for :
      String → List InterventionTransition → Action (List BoundEvaluation)
  evaluations_for intervention_id [] = pure []
  evaluations_for intervention_id (_ ∷ _) = load_intervention_evaluations rt intervention_id

  unfoldable pub record_for :
      InterventionHeader
      → List InterventionTransition
      → List BoundEvaluation
      → Result (Option InterventionRecord)
  record_for header [] evaluations = ok none
  record_for header (t ∷ ts) evaluations = do
    r ← fold_record header (t ∷ ts) evaluations
    ok (some r)

  unfoldable pub fold_of_header :
      String → Option InterventionHeader → Action (Option InterventionFold)
  fold_of_header intervention_id none = pure none
  fold_of_header intervention_id (some header) =
      and_then (load_transition_stream rt clock intervention_id) λ stream.
        and_then (evaluations_for intervention_id (transitions_in stream)) λ evaluations.
          and_then (lift (record_for header (transitions_in stream) evaluations)) λ folded. pure (
            some (record {
              header = header;
              transitions = transitions_in stream;
              state = current_state_of stream;
              folded = folded;
            }))

  unfoldable pub load_intervention_fold : String → Action (Option InterventionFold)
  unfolding fold_of_header
  load_intervention_fold intervention_id =
      and_then (load_intervention_header rt intervention_id)
        λ header. fold_of_header intervention_id header

  -- `effectsById.get(id)`, with the effect's index; of several effects of one id, the last one counts.
  abbrev effect_at : ℕ → List PreparedEffect → String → Option (PreparedEffect × ℕ)
  effect_at i [] id = none
  effect_at i (e ∷ effects) id =
      or_else (effect_at (i + 1) effects id) (if e.id == id then some (e, i) else none)

  unfoldable pub cited_receipt :
      InterventionRecord
      → PublicationPlan
      → Option StoredPublicationReceipt
      → Result StoredPublicationReceipt
  cited_receipt folded plan none = throw store_corrupt
  cited_receipt folded plan (some stored) = cited (effect_at 0 plan.effects stored.effect_id)
    where
      cited : Option (PreparedEffect × ℕ) → Result StoredPublicationReceipt
      cited none = throw store_corrupt
      cited (some (effect, index)) = do
        throw_if (stored.intervention_id != folded.id) store_corrupt
        assert_stored_receipt_binds rt stored plan effect index
            (publication_effect_idempotency_key rt plan.plan_digest effect.id)
        ok stored

  unfoldable pub load_cited_receipts :
      InterventionRecord → PublicationPlan → List String → Action (List StoredPublicationReceipt)
  load_cited_receipts folded plan [] = pure []
  load_cited_receipts folded plan (id ∷ ids) =
      and_then (load_stored_publication_receipt rt id) λ stored.
        and_then (lift (cited_receipt folded plan stored))
          λ receipt. and_then (load_cited_receipts folded plan ids) λ rest. pure (receipt ∷ rest)

  unfoldable pub load_fold_receipts :
      InterventionRecord → PublicationPlan → Action (List StoredPublicationReceipt)
  load_fold_receipts folded plan = load_cited_receipts folded plan folded.publication_receipt_ids

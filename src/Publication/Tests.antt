-- ===== src/Publication/Tests.antt =====
-- records/publication.ts on examples: a plan of one effect, and a receipt of it.
use governed_learning_loop.Prelude.{
  ◌≡◌, ◌↔◌, Option, some, List, [], ◌∷◌, ◌==◌, String_eq, Option_eq, any, String,
}
use governed_learning_loop.Diagnostics.{ok, Ensures}
use governed_learning_loop.Json.{Json, null, num, natural, str, arr, obj, cons, nil, fields_of}
use governed_learning_loop.Json.Tests.{code_order, plain_runtime as code_runtime}
use governed_learning_loop.Intervention.Tests.{plain_runtime}
use governed_learning_loop.Semantic.{assert_sorted_unique}
use governed_learning_loop.Publication.{
  irreversible, PreparedEffect, PublicationReceipt, ExpectedEffect,
  publication_receipt_mismatch_reasons, expected_bases_of,
}
use governed_learning_loop.Publication.Parse.{parse_publication_plan}
use governed_learning_loop.Publication.Bound.{
  IsBoundPlan, parse-IsBoundPlan, BindsEffect, mismatch_reasons_iff,
}
use governed_learning_loop.Publication.Bases.{expected_bases_lem}

abbrev hex : String
hex = "00000000000000000000000000000000000000000000000000000000000000aa"

abbrev effect_input : Json
effect_input = obj (
    fields_of (
      ("id", str "effect-1")
      ∷ ("kind", str "file")
      ∷ ("target", str "docs/rules.md")
      ∷ ("payload", null)
      ∷ ("payloadDigest", str hex)
      ∷ ("afterEffect", obj (fields_of (("kind", str "disable") ∷ ("payload", null) ∷ [])))
      ∷ []))

abbrev lineage_input : Json
lineage_input = obj (
    fields_of (
      ("scopeDigest", str hex)
      ∷ ("scopePolicyDigest", str hex)
      ∷ ("registryRevision", str hex)
      ∷ ("destinationRegistrationDigest", str hex)
      ∷ ("derivation", null)
      ∷ []))

abbrev plan_input : Json
plan_input = obj (
    fields_of (
      ("schemaVersion", num (natural 1))
      ∷ ("candidateId", str "candidate-1")
      ∷ ("candidateDigest", str hex)
      ∷ ("destinationId", str "repository")
      ∷ ("action", str "publish")
      ∷ ("effectClass", str "context")
      ∷ ("effectiveRisk", str "T1")
      ∷ ("effects", arr (cons effect_input nil))
      ∷ ("lineage", lineage_input)
      ∷ ("policyDigest", str hex)
      ∷ ("planDigest", str hex)
      ∷ ("id", str "plan-00000000000000000000000000000000000000000000000000000000000000aa")
      ∷ ("createdAt", str "2026-01-01T00:00:00.000Z")
      ∷ []))

parse-IsBoundPlan_example :
    Ensures (IsBoundPlan plain_runtime) (parse_publication_plan plain_runtime plan_input)
parse-IsBoundPlan_example = parse-IsBoundPlan plain_runtime plan_input

abbrev effect_on : String → Option String → PreparedEffect
effect_on id base = record {
  id = id;
  kind = "file";
  target = "docs/rules.md";
  expected_base = base;
  payload = null;
  payload_digest = hex;
  after_effect = irreversible "published text stays";
}

abbrev applied : PublicationReceipt
applied = record {
  destination_id = "repository";
  effect_id = "effect-1";
  target = "docs/rules.md";
  expected_base = some "v1";
  final_version = some "v2";
  payload_digest = hex;
  idempotency_key = hex;
  applied_at = "2026-01-01T00:00:00.000Z";
}

abbrev expected : ExpectedEffect
expected = record {
  destination_id = "repository";
  effect = effect_on "effect-1" (some "v1");
  idempotency_key = hex;
}

mismatch_reasons_iff_example :
    (publication_receipt_mismatch_reasons applied expected ≡ []) ↔ BindsEffect applied expected
mismatch_reasons_iff_example = mismatch_reasons_iff applied expected

abbrev three_effects : List PreparedEffect
three_effects =
    effect_on "effect-1" (some "v2")
    ∷ effect_on "effect-2" (some "v1")
    ∷ effect_on "effect-3" (some "v2")
    ∷ []

expected_bases_lem_example :
    (assert_sorted_unique code_runtime (expected_bases_of code_runtime three_effects) ≡ ok tt)
    × ((b : String)
        → any (λ c. c == b) (expected_bases_of code_runtime three_effects)
          ≡ any (λ (e : PreparedEffect). e.expected_base == some b) three_effects)
expected_bases_lem_example = expected_bases_lem code_runtime code_order three_effects

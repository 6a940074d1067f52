-- ===== src/Semantic/Constraints.antt =====
-- records/semantic-shared.ts: the constraints of a lens on episode classes and on lenses.
use governed_learning_loop.Prelude.{ℕ, String, Bool, not, List, [], ◌∷◌, map}
use governed_learning_loop.Diagnostics.{Result, ok, ◌>>=◌, ◌>>◌, throw_if}
use governed_learning_loop.Json.{Fields, Runtime}
use governed_learning_loop.Json.Parse.{
  Parse, invalid, parse_bounded_array, parse_id, parse_one_of, read_fields, req,
}
use governed_learning_loop.Semantic.{
  LensRef, parse_lens_ref_at, lens_ref_key, assert_sorted_unique, assert_unique_ref_versions,
  is_none_left,
}

abbrev max_set_values : ℕ
max_set_values = 1000

pub data ClassMode : Type 0 where
  any_mode include_mode : ClassMode

pub data EpisodeClasses : Type 0 where
  any_class : EpisodeClasses
  included : List String → EpisodeClasses

abbrev episode_class_modes : List (String × ClassMode)
episode_class_modes = ("any", any_mode) ∷ ("include", include_mode) ∷ []

pub data ConstraintMode : Type 0 where
  independent_mode required_mode : ConstraintMode

pub data LensSelection : Type 0 where
  any_registered allowlist : LensSelection

pub data LensConstraint : Type 0 where
  independent : LensConstraint
  required : LensSelection → List LensRef → LensConstraint

abbrev lens_constraint_modes : List (String × ConstraintMode)
lens_constraint_modes = ("independent", independent_mode) ∷ ("required", required_mode) ∷ []

abbrev lens_selections : List (String × LensSelection)
lens_selections = ("any_registered", any_registered) ∷ ("allowlist", allowlist) ∷ []

-- The checks of a selection against its registrations.
abbrev is_mismatched {ℓ} : {A : Type ℓ} → LensSelection → List A → Bool
is_mismatched any_registered registrations = not (is_none_left registrations)
is_mismatched allowlist registrations = is_none_left registrations

module _ (rt : Runtime) where
  unfoldable pub classes_of_mode : Fields → ClassMode → Result EpisodeClasses
  classes_of_mode fields any_mode = ok any_class
  classes_of_mode fields include_mode = do
    values ← req fields "values" (parse_bounded_array parse_id max_set_values)
    throw_if (is_none_left values) invalid
    assert_sorted_unique rt values
    ok (included values)

  unfoldable pub parse_episode_classes_at : Parse EpisodeClasses
  unfolding classes_of_mode
  parse_episode_classes_at input = do
    fields ← read_fields input
    mode ← req fields "mode" (parse_one_of episode_class_modes)
    classes_of_mode fields mode

  unfoldable pub constraint_of_mode : Fields → ConstraintMode → Result LensConstraint
  constraint_of_mode fields independent_mode = ok independent
  constraint_of_mode fields required_mode = do
    selection ← req fields "selection" (parse_one_of lens_selections)
    registrations ←
        req fields "registrations" (parse_bounded_array parse_lens_ref_at max_set_values)
    assert_sorted_unique rt (map (lens_ref_key rt) registrations)
    assert_unique_ref_versions rt (map (λ (r : LensRef). (r.id, r.version)) registrations)
    throw_if (is_mismatched selection registrations) invalid
    ok (required selection registrations)

  unfoldable pub parse_lens_constraint_at : Parse LensConstraint
  unfolding constraint_of_mode
  parse_lens_constraint_at input = do
    fields ← read_fields input
    mode ← req fields "mode" (parse_one_of lens_constraint_modes)
    constraint_of_mode fields mode

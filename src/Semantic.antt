-- ===== src/Semantic.antt =====
-- records/semantic-shared.ts: versions, the references to detectors, packs and lenses, learning
-- classes, and the checks on set-like arrays. The text rules are in Json/Parse.
pub mod Constraints
use Prim.Native.String
use governed_learning_loop.Prelude.{
  ℕ, String, Bool, true, false, not, ◌&&◌, ◌||◌, Option, none, some, List, [], ◌∷◌, any, all,
  length, map, ltb, leb, if◌then◌else◌, ◌==◌, ◌!=◌, String_eq, ℕ_eq,
}
use governed_learning_loop.Diagnostics.{Result, ok, throw, ◌>>=◌, ◌>>◌, throw_if, failure}
use governed_learning_loop.Json.{
  Json, bool, str, arr, of_list, Runtime, canonical_json_text, sha256_hex_of_canonical_json,
}
use governed_learning_loop.Json.Parse.{
  Parse, invalid, codes, parse_bounded_text, parse_bounded_array, parse_id, parse_digest_at,
  parse_one_of, read_fields, req,
}

-- `text.split(separator)`, on code units.
abbrev cons_first : ℕ → List (List ℕ) → List (List ℕ)
cons_first c [] = (c ∷ []) ∷ []
cons_first c (part ∷ parts) = (c ∷ part) ∷ parts

abbrev pub split_on : ℕ → List ℕ → List (List ℕ)
split_on separator [] = [] ∷ []
split_on separator (c ∷ cs) =
    let parts = split_on separator cs in if c == separator then [] ∷ parts else cons_first c parts

abbrev pub is_digit : ℕ → Bool
is_digit c = leb b'0' c && leb c b'9'

abbrev is_identifier_code : ℕ → Bool
is_identifier_code c =
    is_digit c || ((leb b'A' c && leb c b'Z') || ((leb b'a' c && leb c b'z') || c == b'-'))

abbrev pub is_none_left {ℓ} : {A : Type ℓ} → List A → Bool
is_none_left [] = true
is_none_left (_ ∷ _) = false

abbrev starts_with_zero : List ℕ → Bool
starts_with_zero [] = false
starts_with_zero (c ∷ cs) = c == b'0'

-- One identifier of `validIdentifiers`.
abbrev is_valid_identifier : Bool → List ℕ → Bool
is_valid_identifier reject_zero part =
    not (is_none_left part)
    && (all is_identifier_code part
        && not
            (reject_zero && (all is_digit part && (ltb 1 (length part) && starts_with_zero part))))

unfoldable pub valid_identifiers : List ℕ → Bool → Bool
valid_identifiers value reject_zero =
    not (is_none_left value) && all (is_valid_identifier reject_zero) (split_on b'.' value)

-- `/^(0|[1-9][0-9]*)$/`
unfoldable pub is_core_number : List ℕ → Bool
is_core_number part =
    not (is_none_left part)
    && (all is_digit part && not (starts_with_zero part && ltb 1 (length part)))

-- The text before the first dash, and what follows it, if there is a dash.
abbrev pub dash_split : List ℕ → List ℕ × Option (List ℕ)
dash_split [] = ([], none)
dash_split (c ∷ cs) =
    let rest = dash_split cs in if c == b'-' then ([], some cs) else (c ∷ rest.0, rest.1)

abbrev invalid_if_some : Bool → Option (List ℕ) → Bool
invalid_if_some reject_zero none = false
invalid_if_some reject_zero (some value) = not (valid_identifiers value reject_zero)

abbrev is_bad_core : List ℕ × Option (List ℕ) → Bool
is_bad_core (core, prerelease) =
    let parts = split_on b'.' core in
    not (length parts == 3)
    || (any (λ part. not (is_core_number part)) parts || invalid_if_some true prerelease)

-- The checks that follow `version.split("+")`.
unfoldable pub is_bad_version : List (List ℕ) → Bool
is_bad_version [] = true
is_bad_version (core ∷ []) = is_bad_core (dash_split core)
is_bad_version (core ∷ build ∷ []) =
    not (valid_identifiers build false) || is_bad_core (dash_split core)
is_bad_version _ = true

unfoldable pub parse_sem_ver : Parse String
unfolding is_bad_version
parse_sem_ver input = do
  version ← parse_bounded_text 200 input
  throw_if (is_bad_version (split_on b'+' (codes version))) invalid
  ok version

pub record DetectorRef : Type 0 where
  pub id : String
  pub version : String
  pub registration_digest : String

pub record PackRef : Type 0 where
  pub id : String
  pub version : String
  pub manifest_digest : String

pub record LensRef : Type 0 where
  pub id : String
  pub version : String
  pub registration_digest : String

unfoldable pub parse_detector_ref_at : Parse DetectorRef
unfolding read_fields
parse_detector_ref_at input = do
  fields ← read_fields input
  id ← req fields "id" parse_id
  version ← req fields "version" parse_sem_ver
  digest ← req fields "registrationDigest" parse_digest_at
  ok (record { id = id; version = version; registration_digest = digest })

unfoldable pub parse_pack_ref_at : Parse PackRef
unfolding read_fields
parse_pack_ref_at input = do
  fields ← read_fields input
  id ← req fields "id" parse_id
  version ← req fields "version" parse_sem_ver
  digest ← req fields "manifestDigest" parse_digest_at
  ok (record { id = id; version = version; manifest_digest = digest })

unfoldable pub parse_lens_ref_at : Parse LensRef
unfolding read_fields
parse_lens_ref_at input = do
  fields ← read_fields input
  id ← req fields "id" parse_id
  version ← req fields "version" parse_sem_ver
  digest ← req fields "registrationDigest" parse_digest_at
  ok (record { id = id; version = version; registration_digest = digest })

abbrev learning_classes : List String
learning_classes =
    "mechanical_execution" ∷ "human_agent_interaction" ∷ "role_craft" ∷ "system_meta" ∷ []

abbrev has_host_prefix : List ℕ → Bool
has_host_prefix (h ∷ o ∷ s ∷ t ∷ c ∷ _ ∷ _) =
    h == b'h' && (o == b'o' && (s == b's' && (t == b't' && c == b':')))
has_host_prefix _ = false

unfoldable pub parse_learning_class_at : Parse String
parse_learning_class_at input = do
  value ← parse_id input
  if any (λ k. value == k) learning_classes || has_host_prefix (codes value)
      then ok value
      else throw invalid

abbrev pub is_object : Json → Bool
is_object (Json.obj _) = true
is_object _ = false

unfoldable pub parse_json_object : Parse Json
parse_json_object input = do throw_if (not (is_object input)) invalid; ok input

module _ (rt : Runtime) where
  unfoldable pub canonical_key : Json → String
  canonical_key value = canonical_json_text rt value

  unfoldable pub digest_of : Json → String
  digest_of value = sha256_hex_of_canonical_json rt value

  abbrev triple_key : String → String → String → String
  triple_key a b c = canonical_key (arr (of_list (str a ∷ str b ∷ str c ∷ [])))

  unfoldable pub detector_ref_key : DetectorRef → String
  detector_ref_key value = triple_key value.id value.version value.registration_digest

  unfoldable pub pack_ref_key : PackRef → String
  pack_ref_key value = triple_key value.id value.version value.manifest_digest

  unfoldable pub lens_ref_key : LensRef → String
  lens_ref_key value = triple_key value.id value.version value.registration_digest

  -- `assertSortedUnique`, on the keys of its values.
  abbrev pub is_not_after : Option String → String → Bool
  is_not_after none key = false
  is_not_after (some previous) key = not (rt.before previous key)

  unfoldable pub sorted_after : Option String → List String → Result (Unit {0})
  sorted_after previous [] = ok tt
  sorted_after previous (key ∷ keys) = do
    throw_if (is_not_after previous key) invalid
    sorted_after (some key) keys

  unfoldable pub assert_sorted_unique : List String → Result (Unit {0})
  assert_sorted_unique keys = sorted_after none keys

  -- `assertUniqueRefVersions`, on the ids and versions of its values, with those that it has seen.
  unfoldable pub unique_versions : List String → List (String × String) → Result (Unit {0})
  unique_versions seen [] = ok tt
  unique_versions seen ((id, version) ∷ rest) = do
    let key : String = canonical_key (arr (of_list (str id ∷ str version ∷ [])))
    throw_if (any (λ k. k == key) seen) invalid
    unique_versions (key ∷ seen) rest

  unfoldable pub assert_unique_ref_versions : List (String × String) → Result (Unit {0})
  assert_unique_ref_versions values = unique_versions [] values

  unfoldable pub verify_json_digest : Json → String → Result (Unit {0})
  verify_json_digest value digest = throw_if (digest != digest_of value) (failure "schema.corrupt")

  abbrev is_null : Json → Bool
  is_null Json.null = true
  is_null _ = false

  -- The digest is absent where the source has a null one.
  unfoldable pub verify_nullable_json_digest : Json → Option String → Result (Unit {0})
  verify_nullable_json_digest value none = throw_if (not (is_null value)) invalid
  verify_nullable_json_digest value (some digest) = do
    throw_if (is_null value) invalid
    verify_json_digest value digest

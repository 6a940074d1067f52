-- ===== src/Engine.antt =====
-- engine/context.ts: record keys and digests, the checks of what the store hands out, loading a
-- record, and create-only writes.
--
-- The model's store hands out typed records and results, so that of `parseStoredRecordAt` the checks
-- for empty texts remain, and `parseWriteResult` has nothing to refuse.
pub mod Load
pub mod Created
pub mod Pages
use governed_learning_loop.Prelude.{
  ℕ, String, Bool, true, false, not, ◌&&◌, ◌||◌, Option, none, some, List, [], ◌∷◌, map, any,
  length, ltb, if◌then◌else◌, ◌==◌, ◌!=◌, String_eq,
}
use governed_learning_loop.Diagnostics.{
  Result, ok, throw, ◌>>=◌, ◌>>◌, throw_if, failure, LearningLoopError,
}
use governed_learning_loop.Json.{
  Json, str, arr, of_list, elems, Runtime, sha256_hex_of_canonical_json,
}
use governed_learning_loop.Json.Parse.{
  Parse, parse_non_empty_text, parse_array_of, read_fields, req,
}
use governed_learning_loop.Store.{
  RecordKey, StoredRecord, MemoryStore, WriteResult, created, updated, exists_same, conflict,
}
use governed_learning_loop.Store.Reading.{get}

abbrev pub record_namespace : String
record_namespace = "learning"

abbrev pub record_key : String → String → RecordKey
record_key kind id = record { namespace = record_namespace; kind = kind; id = id }

abbrev pub store_corrupt : LearningLoopError
store_corrupt = failure "store.corrupt"

abbrev pub strings : List String → Json
strings texts = arr (of_list (map str texts))

abbrev pub stream_kinds : List String
stream_kinds =
    "episode-identity" ∷ "episode-outcome" ∷ "source-revision" ∷ "derivation-execution"
    ∷ "derivation-recurrence" ∷ "detector-recurrence-group-candidate" ∷ "candidate-review"
    ∷ "candidate-recurrence-admission" ∷ "detector-recurrence-group" ∷ "intervention-transition"
    ∷ "episode-exposure" ∷ "intervention-evaluation" ∷ []

-- `Array.isArray(value) && value.length > ceiling`
abbrev pub exceeds : ℕ → Json → Bool
exceeds ceiling (arr xs) = ltb ceiling (length (elems xs))
exceeds ceiling _ = false

abbrev pub is_array : Json → Bool
is_array (arr xs) = true
is_array _ = false

unfoldable pub parse_stream_entry_id_at : Parse String
unfolding parse_non_empty_text
parse_stream_entry_id_at input = do fields ← read_fields input; req fields "id" parse_non_empty_text

-- The ceilings of the streams that have one, by kind; a recurrence group's comes apart.
abbrev pub stream_ceilings : List (String × ℕ)
stream_ceilings =
    ("derivation-recurrence", 5000)
    ∷ ("detector-recurrence-group-candidate", 5000)
    ∷ ("candidate-review", 5001)
    ∷ ("candidate-recurrence-admission", 5000)
    ∷ ("intervention-transition", 1000)
    ∷ ("episode-exposure", 1000)
    ∷ ("intervention-evaluation", 1000)
    ∷ []

abbrev pub is_above_ceiling : List (String × ℕ) → String → Json → Bool
is_above_ceiling [] kind value = false
is_above_ceiling ((k, ceiling) ∷ rest) kind value =
    (kind == k && exceeds ceiling value) || is_above_ceiling rest kind value

abbrev pub assert_recurrence_group : Json → Result (Unit {0})
assert_recurrence_group value = do
  throw_if (not (is_array value)) store_corrupt
  throw_if (exceeds 5000 value) (failure "detector.limit_exceeded")

module _ (rt : Runtime) where
  abbrev pub record_digest : Json → String
  record_digest value = sha256_hex_of_canonical_json rt value

  abbrev pub stream_ids_digest : Json → Result String
  stream_ids_digest value = do
    ids ← parse_array_of parse_stream_entry_id_at value
    ok (sha256_hex_of_canonical_json rt (strings ids))

  unfoldable pub expected_stored_digest : String → Json → Result String
  unfolding parse_stream_entry_id_at
  expected_stored_digest kind value = do
    throw_if (is_above_ceiling stream_ceilings kind value) store_corrupt
    if kind == "detector-recurrence-group" then assert_recurrence_group value else ok tt
    if any (λ k. kind == k) stream_kinds then stream_ids_digest value else ok (record_digest value)

  abbrev pub is_foreign_id : Option String → String → Bool
  is_foreign_id none key_id = false
  is_foreign_id (some id) key_id = key_id != id

  unfoldable pub assert_record_location : StoredRecord → String → Option String → Result (Unit {0})
  unfolding expected_stored_digest
  assert_record_location stored kind id = do
    throw_if
        (stored.key.namespace != record_namespace
          || (stored.key.kind != kind || is_foreign_id id stored.key.id))
        store_corrupt
    expected ← expected_stored_digest kind stored.value
    throw_if (stored.digest != expected) store_corrupt

-- `parseStoredRecordAt`
unfoldable pub parse_stored_record_at : StoredRecord → Result StoredRecord
unfolding parse_non_empty_text
parse_stored_record_at stored = do
  namespace ← parse_non_empty_text (str stored.key.namespace)
  kind ← parse_non_empty_text (str stored.key.kind)
  id ← parse_non_empty_text (str stored.key.id)
  digest ← parse_non_empty_text (str stored.digest)
  ok stored

module _ (rt : Runtime) where
  -- What `loadStoredRecord` makes of the store's answer.
  unfoldable pub checked_option :
      String → String → Option StoredRecord → Result (Option StoredRecord)
  unfolding parse_stored_record_at assert_record_location
  checked_option kind id none = ok none
  checked_option kind id (some raw) = do
    stored ← parse_stored_record_at raw
    assert_record_location rt stored kind (some id)
    ok (some stored)

  unfoldable pub stored_record_in : String → String → MemoryStore → Result (Option StoredRecord)
  unfolding checked_option
  stored_record_in kind id s = checked_option kind id (get rt (record_key kind id) s)

-- What `createOnly` reports.
pub data Creation : Type 0 where
  was_created was_same was_conflict : Creation

unfoldable pub creation_of : WriteResult → Result Creation
creation_of (created n) = ok was_created
creation_of (updated n) = throw store_corrupt
creation_of (exists_same n) = ok was_same
creation_of (conflict o) = ok was_conflict

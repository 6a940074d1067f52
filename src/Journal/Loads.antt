-- ===== src/Journal/Loads.antt =====
-- engine/publication-journal.ts, `loadTransitionStream`: what a stored stream loads as, from the
-- form in which the store holds it.
use governed_learning_loop.Prelude.{
  String, ◌≡◌, ◌≢◌, ◌≤◌, refl, ap, none, some, List, map, length, arith, String_eq, ==_refl,
  ne_of_eq-false,
}
use governed_learning_loop.Diagnostics.{ok, ◌>>=◌, ◌>>◌}
use governed_learning_loop.Json.{Runtime, sha256_hex_of_canonical_json}
use governed_learning_loop.Store.{
  RecordKey, StoredRecord, StreamEntry, Cell, MemoryStore, value_form, stream_form, tombstone_form,
  get_cell,
}
use governed_learning_loop.Store.Invariant.{get_cell-key}
use governed_learning_loop.Store.Reading.{get, to_stored_record, stream_digest}
use governed_learning_loop.Intervention.{InterventionTransition, initial_intervention_state}
use governed_learning_loop.Engine.{
  record_key, expected_stored_digest, assert_record_location, parse_stored_record_at,
  checked_option, stored_record_in,
}
use governed_learning_loop.Journal.{transition_kind_name, stream_of, stream_in, entry_of}
use governed_learning_loop.Journal.Legal.{IsHistory}
use governed_learning_loop.Journal.Entries.{
  text_back, stream_json, expected_back, history-IsReadable, length-map-entry_of, entries_load,
}

module _ (rt : Runtime) where
  module _ (id : String) where
    -- The intervention's cell holds the stream of these transitions.
    pub record HoldsIn (s : MemoryStore) (ts : List InterventionTransition) : Type 0 where
      pub cell : Cell
      pub found : get_cell (record_key transition_kind_name id) s.cells ≡ some cell
      pub form : cell.form ≡ stream_form (map (entry_of rt) ts)

    pub get_found :
        (key : RecordKey) (s : MemoryStore) {c : Cell}
        → get_cell key s.cells ≡ some c
        → get rt key s ≡ to_stored_record rt c
    unfolding get
    get_found key s found =
        ap (λ o. elim o [ none ↦ none | some cell ↦ to_stored_record rt cell ]) found

    pub stream_record :
        (c : Cell) {es : List StreamEntry}
        → c.form ≡ stream_form es
        → to_stored_record rt c
          ≡ some (record {
            key = c.key;
            value = stream_json rt es;
            revision = c.revision;
            digest = stream_digest rt es;
          })
    unfolding to_stored_record
    stream_record c form =
        ap
          (λ f. elim f [
            | value_form value digest ↦
                some (record { key = c.key; value = value; revision = c.revision; digest = digest })
            | stream_form entries ↦ some (record {
              key = c.key;
              value = stream_json rt entries;
              revision = c.revision;
              digest = stream_digest rt entries;
            })
            | tombstone_form _ ↦ none
          ])
          form

    pub dead_record :
        (c : Cell) {reason : String} → c.form ≡ tombstone_form reason → to_stored_record rt c ≡ none
    unfolding to_stored_record
    dead_record c form =
        ap
          (λ f. elim f [
            | value_form value digest ↦
                some (record { key = c.key; value = value; revision = c.revision; digest = digest })
            | stream_form entries ↦ some (record {
              key = c.key;
              value = stream_json rt entries;
              revision = c.revision;
              digest = stream_digest rt entries;
            })
            | tombstone_form _ ↦ none
          ])
          form

    abbrev key : RecordKey
    key = record_key transition_kind_name id

    pub get_absent : (s : MemoryStore) → get_cell key s.cells ≡ none → get rt key s ≡ none
    unfolding get
    get_absent s found =
        ap (λ o. elim o [ none ↦ none | some cell ↦ to_stored_record rt cell ]) found

    record_parsed :
        (raw : StoredRecord)
        → raw.key ≡ key
        → id ≢ ""
        → raw.digest ≢ ""
        → parse_stored_record_at raw ≡ ok raw
    unfolding parse_stored_record_at ◌>>=◌
    record_parsed raw k ne digest_ne =
        let named : raw.key.namespace ≡ "learning" = ap (λ (x : RecordKey). x.namespace) k in
        let kinded : raw.key.kind ≡ transition_kind_name = ap (λ (x : RecordKey). x.kind) k in
        let same_id : raw.key.id ≡ id = ap (λ (x : RecordKey). x.id) k in
        rw
          (
            named,
            kinded,
            same_id,
            text_back "learning" (ne_of_eq-false "learning" "" refl),
            text_back transition_kind_name (ne_of_eq-false transition_kind_name "" refl),
            text_back id ne,
            text_back raw.digest digest_ne,
          )
          refl

    record_located :
        (raw : StoredRecord)
        → raw.key ≡ key
        → expected_stored_digest rt transition_kind_name raw.value ≡ ok raw.digest
        → assert_record_location rt raw transition_kind_name (some id) ≡ ok tt
    unfolding assert_record_location ◌>>=◌ ◌>>◌
    record_located raw k expected =
        let named : raw.key.namespace ≡ "learning" = ap (λ (x : RecordKey). x.namespace) k in
        let kinded : raw.key.kind ≡ transition_kind_name = ap (λ (x : RecordKey). x.kind) k in
        let same_id : raw.key.id ≡ id = ap (λ (x : RecordKey). x.id) k in
        rw (named, kinded, same_id, ==_refl id, expected, ==_refl raw.digest) refl

    record_checked :
        (raw : StoredRecord)
        → raw.key ≡ key
        → id ≢ ""
        → raw.digest ≢ ""
        → expected_stored_digest rt transition_kind_name raw.value ≡ ok raw.digest
        → checked_option rt transition_kind_name id (some raw) ≡ ok (some raw)
    unfolding checked_option ◌>>=◌ ◌>>◌
    record_checked raw k ne digest_ne expected =
        rw (record_parsed raw k ne digest_ne, record_located raw k expected) refl

    -- A stored history of at most 1,000 transitions loads as just these transitions, at the revision
    -- of its cell, if digests are not empty.
    pub HoldsIn-stream_in :
        ((x : String) → rt.sha256 x ≢ "")
        → id ≢ ""
        → (s : MemoryStore) (ts : List InterventionTransition) (h : HoldsIn s ts)
        → IsHistory rt id initial_intervention_state ts
        → length ts ≤ 1000
        → stream_in rt id s ≡ ok (some (record { transitions = ts; revision = h.cell.revision }))
    unfolding stream_in stored_record_in stream_of ◌>>=◌ sha256_hex_of_canonical_json stream_digest
    HoldsIn-stream_in hashed ne s ts h history few =
        let es : List StreamEntry = map (entry_of rt) ts in
        let short : length es ≤ 1000 = omega (arith, length-map-entry_of rt id ts, few) in
        let keyed : h.cell.key ≡ key = get_cell-key key s.cells {c = h.cell} h.found in
        let raw : StoredRecord = record {
          key = h.cell.key;
          value = stream_json rt es;
          revision = h.cell.revision;
          digest = stream_digest rt es;
        } in
        rw
          (
            get_found key s h.found,
            stream_record h.cell h.form,
            record_checked raw keyed ne (hashed _) (
                expected_back rt es
                  (history-IsReadable rt id hashed initial_intervention_state ts history) short),
            entries_load rt id hashed ts history few,
          )
          refl

    pub nothing_in : (s : MemoryStore) → get_cell key s.cells ≡ none → stream_in rt id s ≡ ok none
    unfolding stream_in stored_record_in checked_option stream_of ◌>>=◌
    nothing_in s found = rw (get_absent s found) refl

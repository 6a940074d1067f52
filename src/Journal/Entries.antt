-- ===== src/Journal/Entries.antt =====
-- engine/publication-journal.ts, `transitionEntries`: reading back the entries of a stream.
use governed_learning_loop.Prelude.{
  ℕ, String, ◌≡◌, ◌≢◌, ◌≤◌, refl, ap, false, List, [], ◌∷◌, map, length, ltb, arith, String_eq,
  ==_iff, ==_refl, eq_iff, All,
}
use governed_learning_loop.Diagnostics.{ok, ◌>>=◌, ◌>>◌}
use governed_learning_loop.Json.{Json, str, arr, of_list, Runtime, sha256_hex_of_canonical_json}
use governed_learning_loop.Json.Parse.{
  parse_non_empty_text, parse_text, parse_array_of, parse_bounded_array, read_fields, traverse,
}
use governed_learning_loop.Json.Texts.{elems-of_list}
use governed_learning_loop.Store.{StreamEntry}
use governed_learning_loop.Store.Reading.{stream_digest, entry_json}
use governed_learning_loop.Intervention.{
  InterventionState, InterventionTransition, initial_intervention_state,
}
use governed_learning_loop.Intervention.Parse.{transition_json}
use governed_learning_loop.Intervention.RoundTrip.{parse-transition_json}
use governed_learning_loop.Engine.{record_digest, expected_stored_digest, parse_stream_entry_id_at}
use governed_learning_loop.Journal.{
  transition_kind_name, parse_stream_entry_at, is_out_of_place, transitions_of, transition_entries,
  entry_of,
}
use governed_learning_loop.Journal.Legal.{IsHistory, same_state_iff}

pub text_back : (s : String) → s ≢ "" → parse_non_empty_text (str s) ≡ ok s
unfolding parse_non_empty_text parse_text ◌>>=◌ ◌>>◌
text_back s h = ground (arith, eq_iff s "")

-- Whether an entry of a stream reads back.
abbrev pub IsReadable : StreamEntry → Type 0
IsReadable e = (e.id ≢ "") × (e.digest ≢ "")

ltb-≤ : (n m : ℕ) → n ≤ m → ltb m n ≡ false
ltb-≤ n m h = ground (arith, h)

module _ (rt : Runtime) where
  entry_back : (e : StreamEntry) → IsReadable e → parse_stream_entry_at (entry_json rt e) ≡ ok e
  unfolding parse_stream_entry_at read_fields ◌>>=◌
  entry_back e h = rw (text_back e.id h.0, text_back e.digest h.1) refl

  entry_id_back :
      (e : StreamEntry) → IsReadable e → parse_stream_entry_id_at (entry_json rt e) ≡ ok e.id
  unfolding parse_stream_entry_id_at read_fields ◌>>=◌ ◌>>◌
  entry_id_back e h = text_back e.id h.0

  entries_back :
      (es : List StreamEntry)
      → All IsReadable es
      → traverse parse_stream_entry_at (map (entry_json rt) es) ≡ ok es
  unfolding ◌>>=◌
  entries_back [] h = refl
  entries_back (e ∷ es) (h, hs) = rw (entry_back e h, entries_back es hs) refl

  entry_ids_back :
      (es : List StreamEntry)
      → All IsReadable es
      → traverse parse_stream_entry_id_at (map (entry_json rt) es)
        ≡ ok (map (λ (e : StreamEntry). e.id) es)
  unfolding ◌>>=◌
  entry_ids_back [] h = refl
  entry_ids_back (e ∷ es) (h, hs) = rw (entry_id_back e h, entry_ids_back es hs) refl

  map-map_id :
      (es : List StreamEntry)
      → map str (map (λ (e : StreamEntry). e.id) es) ≡ map (λ (e : StreamEntry). str e.id) es
  map-map_id [] = refl
  map-map_id (e ∷ es) = ap (λ xs. str e.id ∷ xs) (map-map_id es)

  pub length-map_entry : (es : List StreamEntry) → length (map (entry_json rt) es) ≡ length es
  length-map_entry [] = refl
  length-map_entry (e ∷ es) = omega (arith, length-map_entry es)

  abbrev pub stream_json : List StreamEntry → Json
  stream_json es = arr (of_list (map (entry_json rt) es))

  few_entries :
      (es : List StreamEntry)
      → length es ≤ 1000
      → ltb 1000 (length (map (entry_json rt) es)) ≡ false
  few_entries es h = rw (length-map_entry es) (ltb-≤ (length es) 1000 h)

  pub expected_back :
      (es : List StreamEntry)
      → All IsReadable es
      → length es ≤ 1000
      → expected_stored_digest rt transition_kind_name (stream_json es) ≡ ok (stream_digest rt es)
  unfolding expected_stored_digest parse_array_of stream_digest ◌>>=◌ ◌>>◌
  expected_back es h few =
      rw
        (
          elems-of_list (map (entry_json rt) es),
          few_entries es few,
          entry_ids_back es h,
          map-map_id es,
        )
        refl

  module _ (id : String) where
    in_place_back :
        (from : InterventionState) (t : InterventionTransition)
        → t.intervention_id ≡ id
        → t.from ≡ from
        → is_out_of_place rt id from (entry_of rt t) t ≡ false
    unfolding is_out_of_place
    in_place_back from t i f =
        rw
          (
            ==_refl t.id,
            ==_refl (record_digest rt (transition_json t)),
            (==_iff t.intervention_id id).1 i,
            (same_state_iff t.from from).1 f,
          )
          refl

    transitions_back :
        (from : InterventionState) (ts : List InterventionTransition)
        → IsHistory rt id from ts
        → transitions_of rt id from (map (entry_of rt) ts) ≡ ok ts
    unfolding transitions_of ◌>>=◌ ◌>>◌
    transitions_back from [] h = refl
    transitions_back from (t ∷ ts) (i, f, w, h) =
        rw (parse-transition_json rt t w, in_place_back from t i f, transitions_back t.to ts h) refl

    pub history-IsReadable :
        ((x : String) → rt.sha256 x ≢ "")
        → (from : InterventionState) (ts : List InterventionTransition) → IsHistory rt id from ts
        → All IsReadable (map (entry_of rt) ts)
    unfolding sha256_hex_of_canonical_json
    history-IsReadable hashed from [] h = tt
    history-IsReadable hashed from (t ∷ ts) (i, f, w, h) =
        ((w.id_durable.nonempty, hashed _), history-IsReadable hashed t.to ts h)

    pub length-map-entry_of :
        (ts : List InterventionTransition) → length (map (entry_of rt) ts) ≡ length ts
    length-map-entry_of [] = refl
    length-map-entry_of (t ∷ ts) = omega (arith, length-map-entry_of ts)

    pub entries_load :
        ((x : String) → rt.sha256 x ≢ "")
        → (ts : List InterventionTransition) → IsHistory rt id initial_intervention_state ts
        → length ts ≤ 1000
        → transition_entries rt (stream_json (map (entry_of rt) ts)) id ≡ ok ts
    unfolding transition_entries parse_bounded_array ◌>>=◌ ◌>>◌
    entries_load hashed ts h few =
        let es : List StreamEntry = map (entry_of rt) ts in
        let short : length es ≤ 1000 = omega (arith, length-map-entry_of ts, few) in
        rw
          (
            elems-of_list (map (entry_json rt) es),
            few_entries es short,
            entries_back es (history-IsReadable hashed initial_intervention_state ts h),
            transitions_back initial_intervention_state ts h,
          )
          refl

-- ===== src/Journal/Overfull.antt =====
-- engine/context.ts, `expectedStoredDigest`, and engine/publication-journal.ts: a stream of
-- transitions above the ceiling that loading has.
use governed_learning_loop.Prelude.{
  ℕ, String, ◌≡◌, ◌<◌, refl, sym, ◌∙◌, subst, true, Option, none, some, List, map, length,
  length-append, ltb, arith,
}
use governed_learning_loop.Diagnostics.{
  Result, throw, ◌>>=◌, ◌>>◌, LearningLoopError, Ensures, returns, throws, Ensures-bind,
  Ensures-bind', Ensures-call, Ensures-guard, Ensures-map,
}
use governed_learning_loop.Json.{Runtime}
use governed_learning_loop.Json.Texts.{elems-of_list}
use governed_learning_loop.Store.{
  StoredRecord, StreamEntry, Cell, Form, stream_form, tombstone_form, MemoryStore, get_cell, Call,
}
use governed_learning_loop.Store.Runs.{
  run, run-Successor, FormGrowth, stream_grown, stream_dead, still_dead,
}
use governed_learning_loop.Store.Reading.{entry_json, get}
use governed_learning_loop.Engine.{
  expected_stored_digest, assert_record_location, parse_stored_record_at, checked_option,
  stored_record_in, store_corrupt,
}
use governed_learning_loop.Journal.{TransitionStream, transition_kind_name, stream_of, stream_in}
use governed_learning_loop.Journal.Loads.{get_found, stream_record, dead_record}
use governed_learning_loop.Journal.Entries.{length-map_entry, stream_json}
use governed_learning_loop.Journal.Refines.{stream_key}

module _ (rt : Runtime) (id : String) where
  long_entries :
      (es : List StreamEntry) → 1000 < length es → ltb 1000 (length (map (entry_json rt) es)) ≡ true
  long_entries es h = rw (length-map_entry rt es) (above (length es) h)
    where
      above : (n : ℕ) → 1000 < n → ltb 1000 n ≡ true
      above n h = ground (arith, h)

  no_digest :
      (es : List StreamEntry)
      → 1000 < length es
      → expected_stored_digest rt transition_kind_name (stream_json rt es) ≡ throw store_corrupt
  unfolding expected_stored_digest ◌>>=◌ ◌>>◌
  no_digest es h = rw (elems-of_list (map (entry_json rt) es), long_entries es h) refl

  unchanged : (raw : StoredRecord) → Ensures (λ stored. stored ≡ raw) (parse_stored_record_at raw)
  unfolding parse_stored_record_at
  unchanged raw = Ensures-bind (Ensures-call _) λ _ _. Ensures-bind (Ensures-call _) λ _ _.
      Ensures-bind (Ensures-call _) λ _ _. Ensures-bind (Ensures-call _) λ _ _. returns raw refl

  refused :
      (raw : StoredRecord) {e : LearningLoopError}
      → expected_stored_digest rt transition_kind_name raw.value ≡ throw e
      → Ensures (λ _. ⊥) (assert_record_location rt raw transition_kind_name (some id))
  unfolding assert_record_location
  refused raw {e} h = Ensures-guard _ store_corrupt λ _.
      Ensures-bind (subst (λ r. Ensures (λ (_ : String). ⊥) r) (sym h) (throws e))
        λ _ impossible. absurd impossible

  never_loads :
      (raw : StoredRecord) {e : LearningLoopError}
      → expected_stored_digest rt transition_kind_name raw.value ≡ throw e
      → Ensures
          (λ (_ : Option StoredRecord). ⊥)
          (checked_option rt transition_kind_name id (some raw))
  unfolding checked_option
  never_loads raw {e} h = Ensures-bind (unchanged raw) λ stored same.
      Ensures-bind'
        (refused stored (
          subst
            (λ (x : StoredRecord). expected_stored_digest rt transition_kind_name x.value ≡ throw e)
            (sym same) h))
        λ _ impossible. absurd impossible

  abbrev NoStream : Result (Option TransitionStream) → Type 0
  NoStream r = Ensures (λ stream. stream ≡ none) r

  stream_in-NoStream :
      (s : MemoryStore) (o : Option StoredRecord)
      → get rt (stream_key rt id) s ≡ o
      → Ensures (λ stored. stored ≡ none) (checked_option rt transition_kind_name id o)
      → NoStream (stream_in rt id s)
  unfolding stream_in stored_record_in stream_of
  stream_in-NoStream s o got h =
      Ensures-bind
        (subst
          (λ x. Ensures (λ stored. stored ≡ none) (checked_option rt transition_kind_name id x))
          (sym got) h)
        λ stored none_stored. rw none_stored (returns none refl)

  -- A cell with a stream above the ceiling, or a tombstone.
  pub data NeverLoads : Form → Type 0 where
    long : {es : List StreamEntry} → 1000 < length es → NeverLoads (stream_form es)
    dead : {reason : String} → NeverLoads (tombstone_form reason)

  grown-NeverLoads : {f g : Form} → NeverLoads f → FormGrowth f g → NeverLoads g
  grown-NeverLoads (long {es} h) (stream_grown more e) =
      long (subst (λ l. 1000 < length l) (sym e) (omega (arith, length-append es more, h)))
  grown-NeverLoads (long h) stream_dead = dead
  grown-NeverLoads dead still_dead = dead

  cell-NoStream :
      (s : MemoryStore) (c : Cell) (f : Form)
      → get_cell (stream_key rt id) s.cells ≡ some c
      → c.form ≡ f
      → NeverLoads f
      → NoStream (stream_in rt id s)
  unfolding checked_option
  cell-NoStream s c (stream_form es) found form (long h) =
      stream_in-NoStream s _
        (get_found rt id (stream_key rt id) s found ∙ stream_record rt id c form)
        (Ensures-map (never_loads _ (no_digest es h)) λ _ impossible. absurd impossible)
  cell-NoStream s c f found form (dead {reason}) =
      stream_in-NoStream s none
        (get_found rt id (stream_key rt id) s found ∙ dead_record rt id c form) (returns none refl)

  -- A key whose stream is above the ceiling, or dead.
  pub record IsOverfull (s : MemoryStore) : Type 0 where
    pub cell : Cell
    pub found : get_cell (stream_key rt id) s.cells ≡ some cell
    pub form : NeverLoads cell.form

  -- Once an intervention's stream has more than 1,000 entries, whatever calls any writers make of the
  -- store afterwards, loading the stream throws, or finds none, if it has been made a tombstone.
  pub IsOverfull-NoStream :
      (s : MemoryStore) (calls : List Call)
      → IsOverfull s
      → Ensures (λ stream. stream ≡ none) (stream_in rt id (run calls s))
  IsOverfull-NoStream s calls h =
      let later = run-Successor (stream_key rt id) h.cell s calls h.found in
      cell-NoStream (run calls s) later.cell later.cell.form later.found refl
        (grown-NeverLoads h.form later.growth)

  pub IsOverfull-run :
      (s : MemoryStore) (calls : List Call) → IsOverfull s → IsOverfull (run calls s)
  IsOverfull-run s calls h =
      let later = run-Successor (stream_key rt id) h.cell s calls h.found in
      record { cell = later.cell; found = later.found; form = grown-NeverLoads h.form later.growth }

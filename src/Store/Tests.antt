-- ===== src/Store/Tests.antt =====
-- testing/in-memory-store.ts on examples: a record, a stream, and a retry.
use governed_learning_loop.Prelude.{
  ne_of_eq-false, ◌≡◌, refl, inr, none, some, List, [], ◌∷◌, arith,
}
use governed_learning_loop.Diagnostics.{ok}
use governed_learning_loop.Json.{null, str}
use governed_learning_loop.Store.{
  RecordKey, StreamEntry, updated, exists_same, conflict, Cell, MemoryStore, create_store, Call,
  compare_and_set_call, append_call, tombstone_call, call, get_cell, compare_and_set, same_key,
  value_form, stream_form, compare_and_set_found, compare_and_set_at,
}
use governed_learning_loop.Store.Invariant.{IsOrdered}
use governed_learning_loop.Store.Steps.{Outcome, call-Outcome}
use governed_learning_loop.Store.Runs.{run, run-IsOrdered, Successor, run-Successor}
use governed_learning_loop.Store.Conflicts.{compare_and_set_once}
use governed_learning_loop.Store.Retries.{Wrote, call_retry}
use governed_learning_loop.Store.Listing.{collect, collect_all}

abbrev signal_key : RecordKey
signal_key = record { namespace = "learning"; kind = "signal"; id = "s1" }

abbrev stream_key : RecordKey
stream_key = record { namespace = "learning"; kind = "receipts"; id = "r1" }

abbrev entry : StreamEntry
entry = record { id = "e1"; digest = "d1"; value = null }

abbrev signal_cell : Cell
signal_cell = record {
  key = signal_key;
  form = value_form (str "first") "d1";
  revision = 1;
  last_operation_id = "op-1";
  insertion_index = 0;
}

-- A store that holds one record.
abbrev one_record : MemoryStore
one_record = record {
  cells = signal_cell ∷ [];
  namespace_write_counts = λ _. 1;
  next_insertion_index = 1;
}

abbrev later_calls : List Call
later_calls =
    append_call stream_key none (entry ∷ []) "op-2"
    ∷ compare_and_set_call signal_key 1 (str "second") "d2" "op-3"
    ∷ tombstone_call signal_key 2 "withdrawn" "op-4"
    ∷ []

one_record-found : get_cell signal_key one_record.cells ≡ some signal_cell
unfolding get_cell same_key
one_record-found = refl

call-Outcome_example :
    Outcome signal_key one_record
      (call (tombstone_call signal_key 1 "withdrawn" "op-2") one_record).0
      (call (tombstone_call signal_key 1 "withdrawn" "op-2") one_record).1
call-Outcome_example = call-Outcome (tombstone_call signal_key 1 "withdrawn" "op-2") one_record

run-IsOrdered_example : IsOrdered (run later_calls create_store)
run-IsOrdered_example = run-IsOrdered later_calls

run-Successor_example :
    Successor signal_cell (get_cell signal_key (run later_calls one_record).cells)
run-Successor_example = run-Successor signal_key signal_cell one_record later_calls one_record-found

first_update : (compare_and_set signal_key 1 (str "second") "d2" "op-2" one_record).1 ≡ updated 2
unfolding compare_and_set compare_and_set_found compare_and_set_at get_cell same_key
first_update = refl

compare_and_set_once_example :
    let t = (compare_and_set signal_key 1 (str "second") "d2" "op-2" one_record).0 in
    compare_and_set signal_key 1 (str "third") "d3" "op-3" t ≡ (t, conflict (some 2))
compare_and_set_once_example =
    compare_and_set_once signal_key 1 2 (str "second") (str "third") "d2" "d3" "op-2" "op-3"
      one_record (ne_of_eq-false "op-2" "op-3" refl) first_update

Wrote-update :
    Wrote (call (compare_and_set_call signal_key 1 (str "second") "d2" "op-2") one_record) 2
unfolding call
Wrote-update = inr first_update

call_retry_example :
    let c = compare_and_set_call signal_key 1 (str "second") "d2" "op-2" in
    call c (call c one_record).0 ≡ ((call c one_record).0, exists_same 2)
call_retry_example =
    call_retry (compare_and_set_call signal_key 1 (str "second") "d2" "op-2") one_record 2
      Wrote-update

abbrev stream_cell : Cell
stream_cell = record {
  key = stream_key;
  form = stream_form (entry ∷ []);
  revision = 1;
  last_operation_id = "op-2";
  insertion_index = 1;
}

-- Two records, so that a reader of pages of one follows a cursor.
abbrev two_records : MemoryStore
two_records = record {
  cells = signal_cell ∷ stream_cell ∷ [];
  namespace_write_counts = λ _. 2;
  next_insertion_index = 2;
}

collect_all_example :
    collect "learning" none two_records 1 3 none ≡ ok (signal_cell ∷ stream_cell ∷ [])
collect_all_example =
    collect_all "learning" none two_records 1 3 (omega arith) (omega arith) (omega arith)

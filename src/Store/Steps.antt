-- ===== src/Store/Steps.antt =====
-- testing/in-memory-store.ts: what one call of a writing method does.
use governed_learning_loop.Prelude.{
  ℕ, String, ◌+◌, ◌≡◌, inl, inr, refl, Bool, true, false, Option, none, some, List, ◌++◌,
  if◌then◌else◌, Option-cases, ◌∙◌,
}
use governed_learning_loop.Json.{Json}
use governed_learning_loop.Store.{
  RecordKey, Cell, MemoryStore, Form, value_form, stream_form, tombstone_form, StreamEntry,
  get_cell, set_cell, write_cell, add_cell, WriteResult, created, updated, exists_same, conflict,
  Call, create_call, compare_and_set_call, append_call, tombstone_call, call, create, create_at,
  compare_and_set, compare_and_set_at, append, append_at, append_new, tombstone, tombstone_at,
}
use governed_learning_loop.Store.Invariant.{
  get_cell-key, IsOrdered, set_cell-IsRising, set_cell-IsRising_new,
}

abbrev pub call_key : Call → RecordKey
call_key (create_call key value digest op) = key
call_key (compare_and_set_call key expected value digest op) = key
call_key (append_call key expected entries op) = key
call_key (tombstone_call key expected reason op) = key

-- What an update may do to the form of a cell.
pub data FormStep : Form → Form → Type 0 where
  rewritten : {v w : Json} {d e : String} → FormStep (value_form v d) (value_form w e)
  extended :
      {es : List StreamEntry} (more : List StreamEntry)
      → FormStep (stream_form es) (stream_form (es ++ more))
  dead_value : {v : Json} {d r : String} → FormStep (value_form v d) (tombstone_form r)
  dead_stream : {es : List StreamEntry} {r : String} → FormStep (stream_form es) (tombstone_form r)

pub record CellStep (c d : Cell) : Type 0 where
  pub key_kept : d.key ≡ c.key
  pub revision_next : d.revision ≡ c.revision + 1
  pub index_kept : d.insertion_index ≡ c.insertion_index
  pub form_step : FormStep c.form d.form

-- How the two stores around a call are related, by the result that the call gave.
pub data Outcome (key : RecordKey) (s t : MemoryStore) : WriteResult → Type 0 where
  was_created :
      (c : Cell)
      → get_cell key s.cells ≡ none
      → c.key ≡ key
      → c.revision ≡ 1
      → c.insertion_index ≡ s.next_insertion_index
      → t.cells ≡ set_cell c s.cells
      → t.next_insertion_index ≡ s.next_insertion_index + 1
      → Outcome key s t (created 1)
  was_updated :
      (c d : Cell)
      → get_cell key s.cells ≡ some c
      → c.key ≡ key
      → CellStep c d
      → t.cells ≡ set_cell d s.cells
      → t.next_insertion_index ≡ s.next_insertion_index
      → Outcome key s t (updated (c.revision + 1))
  was_same :
      (c : Cell) → get_cell key s.cells ≡ some c → t ≡ s → Outcome key s t (exists_same c.revision)
  was_refused :
      (c : Cell)
      → get_cell key s.cells ≡ some c
      → t ≡ s
      → Outcome key s t (conflict (some c.revision))
  was_missing : get_cell key s.cells ≡ none → t ≡ s → Outcome key s t (conflict none)

abbrev OutcomeOf : RecordKey → MemoryStore → MemoryStore × WriteResult → Type 0
OutcomeOf key s r = Outcome key s r.0 r.1

outcome_if :
    {key : RecordKey} {s : MemoryStore} (b : Bool) (m n : MemoryStore × WriteResult)
    → OutcomeOf key s m
    → OutcomeOf key s n
    → OutcomeOf key s (if b then m else n)
outcome_if true m n hm hn = hm
outcome_if false m n hm hn = hn

module _ (key : RecordKey) (s : MemoryStore) where
  add-Outcome :
      (form : Form) (op : String)
      → get_cell key s.cells ≡ none
      → Outcome key s (add_cell key form op s) (created 1)
  unfolding add_cell
  add-Outcome form op g = was_created _ g refl refl refl refl refl

  module _ (c : Cell) (g : get_cell key s.cells ≡ some c) where
    write-Outcome :
        (form : Form) (op : String)
        → FormStep c.form form
        → Outcome key s
            (write_cell
              (record c { form = form; revision = c.revision + 1; last_operation_id = op })
              s)
            (updated (c.revision + 1))
    unfolding write_cell
    write-Outcome form op step =
        was_updated c (record c { form = form; revision = c.revision + 1; last_operation_id = op })
          g (get_cell-key key s.cells g)
          (record { key_kept = refl; revision_next = refl; index_kept = refl; form_step = step })
          refl refl

    create_outcome :
        (value : Json) (digest op : String)
        → OutcomeOf key s (create_at (some c) key value digest op s)
    unfolding create_at
    create_outcome value digest op =
        outcome_if _ (s, exists_same c.revision) (s, conflict (some c.revision)) (was_same c g refl)
          (was_refused c g refl)

    compare_and_set_outcome :
        (form : Form) (expected : ℕ) (value : Json) (digest op : String)
        → form ≡ c.form
        → OutcomeOf key s (compare_and_set_at form c expected value digest op s)
    unfolding compare_and_set_at
    compare_and_set_outcome (value_form v d) expected value digest op e =
        outcome_if _ _ _ (write-Outcome (value_form value digest) op (rw (← e) rewritten))
          (outcome_if _ _ _ (was_same c g refl) (was_refused c g refl))
    compare_and_set_outcome _ expected value digest op e = was_refused c g refl

    append_outcome :
        (form : Form) (expected : Option ℕ) (entries : List StreamEntry) (op : String)
        → form ≡ c.form
        → OutcomeOf key s (append_at form c expected entries op s)
    unfolding append_at
    append_outcome (stream_form known) expected entries op e =
        outcome_if _ _ _ (was_same c g refl) (
          outcome_if _ _ _ (was_refused c g refl) (
            outcome_if _ _ _ (was_refused c g refl)
              (write-Outcome (stream_form (known ++ entries)) op (rw (← e) (extended entries)))))
    append_outcome _ expected entries op e = was_refused c g refl

    tombstone_outcome :
        (form : Form) (expected : ℕ) (reason op : String)
        → form ≡ c.form
        → OutcomeOf key s (tombstone_at form c expected reason op s)
    unfolding tombstone_at
    tombstone_outcome (value_form v d) expected reason op e =
        outcome_if _ _ _ (was_refused c g refl)
          (write-Outcome (tombstone_form reason) op (rw (← e) dead_value))
    tombstone_outcome (stream_form es) expected reason op e =
        outcome_if _ _ _ (was_refused c g refl)
          (write-Outcome (tombstone_form reason) op (rw (← e) dead_stream))
    tombstone_outcome (tombstone_form r) expected reason op e =
        outcome_if _ _ _ (was_same c g refl) (was_refused c g refl)

append_new_outcome :
    (key : RecordKey) (s : MemoryStore) (expected : Option ℕ) (entries : List StreamEntry)
    (op : String)
    → get_cell key s.cells ≡ none
    → OutcomeOf key s (append_new expected key entries op s)
append_new_outcome key s none entries op g = add-Outcome key s (stream_form entries) op g
append_new_outcome key s (some n) entries op g = was_missing g refl

-- Every call either adds a cell of revision 1 at a key that had none, replaces the live cell of its
-- key by one with the next revision, the same insertion index and a permitted form (a stream is only
-- extended), or leaves the whole store as it was; the result tells which, with the revision.
pub call-Outcome : (c : Call) (s : MemoryStore) → Outcome (call_key c) s (call c s).0 (call c s).1
unfolding call create create_at compare_and_set append tombstone
call-Outcome (create_call key value digest op) s = elim (Option-cases (get_cell key s.cells)) [
  | inl g ↦ rw g (add-Outcome key s (value_form value digest) op g)
  | inr (c, g) ↦ rw g (create_outcome key s c g value digest op)
]
call-Outcome (compare_and_set_call key expected value digest op) s =
    elim (Option-cases (get_cell key s.cells)) [
      | inl g ↦ rw g (was_missing g refl)
      | inr (c, g) ↦ rw g (compare_and_set_outcome key s c g c.form expected value digest op refl)
    ]
call-Outcome (append_call key expected entries op) s = elim (Option-cases (get_cell key s.cells)) [
  | inl g ↦ rw g (append_new_outcome key s expected entries op g)
  | inr (c, g) ↦ rw g (append_outcome key s c g c.form expected entries op refl)
]
call-Outcome (tombstone_call key expected reason op) s =
    elim (Option-cases (get_cell key s.cells)) [
      | inl g ↦ rw g (was_missing g refl)
      | inr (c, g) ↦ rw g (tombstone_outcome key s c g c.form expected reason op refl)
    ]

pub Outcome-IsOrdered :
    {key : RecordKey} {s t : MemoryStore} {r : WriteResult}
    → Outcome key s t r
    → IsOrdered s
    → IsOrdered t
Outcome-IsOrdered {key} {s} (was_created c g k r i tc tn) h =
    rw (tc, tn) (set_cell-IsRising_new 0 s.next_insertion_index c s.cells (rw k g) i h)
Outcome-IsOrdered {key} {s} (was_updated c d g k step tc tn) h =
    rw (tc, tn)
      (set_cell-IsRising 0 s.next_insertion_index key c d s.cells g (step.key_kept ∙ k)
        step.index_kept h)
Outcome-IsOrdered (was_same c g e) h = rw e h
Outcome-IsOrdered (was_refused c g e) h = rw e h
Outcome-IsOrdered (was_missing g e) h = rw e h

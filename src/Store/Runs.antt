-- ===== src/Store/Runs.antt =====
-- testing/in-memory-store.ts: what any sequence of calls keeps.
use governed_learning_loop.Prelude.{
  String, ◌≤◌, ◌≡◌, refl, Bool, true, false, Option, none, some, List, [], ◌∷◌, ◌++◌, arith,
  if◌then◌else◌, append_assoc, append-nil, sym, ap, ◌∙◌, subst,
}
use governed_learning_loop.Json.{Json}
use governed_learning_loop.Store.{
  RecordKey, Cell, MemoryStore, Form, value_form, stream_form, tombstone_form, StreamEntry,
  same_key, get_cell, WriteResult, Call, call, create_store,
}
use governed_learning_loop.Store.Invariant.{same_key_iff, get_cell-set_cell, IsOrdered}
use governed_learning_loop.Store.Steps.{
  Outcome, was_created, was_updated, was_same, was_refused, was_missing, CellStep, FormStep,
  rewritten, extended, dead_value, dead_stream, call-Outcome, Outcome-IsOrdered,
}

-- The cells of one key before and after some calls.
pub data Evolves : Option Cell → Option Cell → Type 0 where
  unchanged : {o : Option Cell} → Evolves o o
  appeared : {c : Cell} → c.revision ≡ 1 → Evolves none (some c)
  stepped : {c d : Cell} → CellStep c d → Evolves (some c) (some d)

Outcome-Evolves :
    {key : RecordKey} {s t : MemoryStore} {r : WriteResult} (j : RecordKey)
    → Outcome key s t r
    → Evolves (get_cell j s.cells) (get_cell j t.cells)
Outcome-Evolves {key} {s} j (was_created c g k r i tc tn) =
    rw (tc, get_cell-set_cell j c s.cells) (split (same_key c.key j) refl)
  where
    split :
        (b : Bool)
        → same_key c.key j ≡ b
        → Evolves (get_cell j s.cells) (if b then some c else get_cell j s.cells)
    split false e = unchanged
    split true e =
        subst (λ a. Evolves (get_cell a s.cells) (some c)) (sym k ∙ (same_key_iff c.key j).0 e)
          (rw g (appeared r))
Outcome-Evolves {key} {s} j (was_updated c d g k step tc tn) =
    rw (tc, get_cell-set_cell j d s.cells) (split (same_key d.key j) refl)
  where
    split :
        (b : Bool)
        → same_key d.key j ≡ b
        → Evolves (get_cell j s.cells) (if b then some d else get_cell j s.cells)
    split false e = unchanged
    split true e =
        subst (λ a. Evolves (get_cell a s.cells) (some d))
          (sym k ∙ (sym step.key_kept ∙ (same_key_iff d.key j).0 e)) (rw g (stepped step))
Outcome-Evolves j (was_same c g e) = rw e unchanged
Outcome-Evolves j (was_refused c g e) = rw e unchanged
Outcome-Evolves j (was_missing g e) = rw e unchanged

-- The store after a sequence of calls, by any number of writers in any order.
unfoldable pub run : List Call → MemoryStore → MemoryStore
run [] s = s
run (c ∷ calls) s = run calls (call c s).0

pub run-IsOrdered_from :
    (calls : List Call) (s : MemoryStore) → IsOrdered s → IsOrdered (run calls s)
unfolding run
run-IsOrdered_from [] s h = h
run-IsOrdered_from (c ∷ calls) s h =
    run-IsOrdered_from calls (call c s).0 (Outcome-IsOrdered (call-Outcome c s) h)

-- Whatever calls are made of a new store, the insertion indexes of its cells rise strictly along the
-- list of cells and stay below the next one to be given.
pub run-IsOrdered : (calls : List Call) → IsOrdered (run calls create_store)
unfolding create_store
run-IsOrdered calls = run-IsOrdered_from calls create_store (omega arith)

-- What the form of a key's cell may become through any number of steps: a value is rewritten, a
-- stream extended, each of them replaced by a tombstone, and a tombstone nothing else.
pub data FormGrowth : Form → Form → Type 0 where
  value_kept : {v w : Json} {d e : String} → FormGrowth (value_form v d) (value_form w e)
  stream_grown :
      {es fs : List StreamEntry} (more : List StreamEntry)
      → fs ≡ es ++ more
      → FormGrowth (stream_form es) (stream_form fs)
  value_dead : {v : Json} {d r : String} → FormGrowth (value_form v d) (tombstone_form r)
  stream_dead :
      {es : List StreamEntry} {r : String} → FormGrowth (stream_form es) (tombstone_form r)
  still_dead : {r : String} → FormGrowth (tombstone_form r) (tombstone_form r)

growth_refl : (f : Form) → FormGrowth f f
growth_refl (value_form v d) = value_kept
growth_refl (stream_form es) = stream_grown [] (sym (append-nil es))
growth_refl (tombstone_form r) = still_dead

growth_step : {f g h : Form} → FormGrowth f g → FormStep g h → FormGrowth f h
growth_step value_kept rewritten = value_kept
growth_step value_kept dead_value = value_dead
growth_step (stream_grown {es} more e) (extended newer) =
    stream_grown (more ++ newer) (ap (λ l. l ++ newer) e ∙ append_assoc es more newer)
growth_step (stream_grown more e) dead_stream = stream_dead
growth_step (value_dead) x = elim x [ ]
growth_step (stream_dead) x = elim x [ ]
growth_step (still_dead) x = elim x [ ]

-- From a cell `c`, calls lead to a cell of the same key.
pub record Successor (c : Cell) (o : Option Cell) : Type 0 where
  pub cell : Cell
  pub found : o ≡ some cell
  pub revision_grown : c.revision ≤ cell.revision
  pub index_kept : cell.insertion_index ≡ c.insertion_index
  pub growth : FormGrowth c.form cell.form

Successor-step : {c : Cell} {o p : Option Cell} → Evolves o p → Successor c o → Successor c p
Successor-step unchanged h = h
Successor-step (appeared r) h = absurd (none-ne-some h.found)
  where
    none-ne-some : {d : Cell} → none ≡ some d → ⊥
    none-ne-some e = cc
Successor-step {c} (stepped {c = e} {d = d} step) h = record {
  cell = d;
  found = refl;
  revision_grown =
      omega (arith, step.revision_next, ap (λ (x : Cell). x.revision) same, h.revision_grown);
  index_kept = step.index_kept ∙ (ap (λ (x : Cell). x.insertion_index) same ∙ h.index_kept);
  growth =
      growth_step (subst (λ (x : Cell). FormGrowth c.form x.form) (sym same) h.growth)
        step.form_step;
}
  where
    same : e ≡ h.cell
    same = let f = h.found in cc

run-Successor' :
    (key : RecordKey) (c : Cell) (calls : List Call) (s : MemoryStore)
    → Successor c (get_cell key s.cells)
    → Successor c (get_cell key (run calls s).cells)
unfolding run
run-Successor' key c [] s h = h
run-Successor' key c (call' ∷ calls) s h =
    run-Successor' key c calls (call call' s).0
      (Successor-step (Outcome-Evolves key (call-Outcome call' s)) h)

pub run-Successor :
    (key : RecordKey) (c : Cell) (s : MemoryStore) (calls : List Call)
    → get_cell key s.cells ≡ some c
    → Successor c (get_cell key (run calls s).cells)
run-Successor key c s calls g = run-Successor' key c calls s (record {
  cell = c;
  found = g;
  revision_grown = omega arith;
  index_kept = refl;
  growth = growth_refl c.form;
})

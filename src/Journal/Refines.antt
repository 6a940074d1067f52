-- ===== src/Journal/Refines.antt =====
-- engine/publication-journal.ts, `appendInterventionTransition`: the store's append to a stream that
-- stands for a list of transitions.
use governed_learning_loop.Prelude.{
  ℕ, String, ◌+◌, ◌≡◌, ◌≢◌, inl, inr, refl, sym, ap, true, false, Bool, Option, none, some, List,
  [], ◌∷◌, ◌++◌, map, any, ◌==◌, String_eq, Option_eq, ℕ_eq, ==_iff, ==_refl,
}
use governed_learning_loop.Json.{Runtime}
use governed_learning_loop.Store.{
  RecordKey, Cell, MemoryStore, WriteResult, created, updated, Form, stream_form, get_cell,
  write_cell, add_cell, append, append_found, append_at, has_id,
}
use governed_learning_loop.Store.Invariant.{get_cell-key, get_cell-set_cell, same_key_refl}
use governed_learning_loop.Store.Retries.{Wrote}
use governed_learning_loop.Intervention.{InterventionState, InterventionTransition}
use governed_learning_loop.Intervention.RoundTrip.{IsWellFormed}
use governed_learning_loop.Engine.{record_key}
use governed_learning_loop.Journal.{TransitionStream, transition_kind_name, revision_in, entry_of}
use governed_learning_loop.Journal.Legal.{IsHistory, end_state}
use governed_learning_loop.Journal.Loads.{HoldsIn}

module _ (rt : Runtime) (id : String) where
  abbrev pub stream_key : RecordKey
  stream_key = record_key transition_kind_name id

  -- The cell that stands for a list of transitions: none for the empty list.
  pub data CellOf : Option Cell → List InterventionTransition → Type 0 where
    absent : CellOf none []
    present :
        {c : Cell} {ts : List InterventionTransition}
        → c.form ≡ stream_form (map (entry_of rt) ts)
        → CellOf (some c) ts

  abbrev pub last_operation : Option Cell → Option String
  last_operation none = none
  last_operation (some c) = some c.last_operation_id

  map-append :
      (ts us : List InterventionTransition)
      → map (entry_of rt) (ts ++ us) ≡ map (entry_of rt) ts ++ map (entry_of rt) us
  map-append [] us = refl
  map-append (t ∷ ts) us = ap (λ l. entry_of rt t ∷ l) (map-append ts us)

  pub IsHistory-snoc :
      (from : InterventionState) (ts : List InterventionTransition) (t : InterventionTransition)
      → IsHistory rt id from ts
      → t.intervention_id ≡ id
      → t.from ≡ end_state from ts
      → IsWellFormed rt t
      → IsHistory rt id from (ts ++ t ∷ [])
  unfolding end_state
  IsHistory-snoc from [] t h i f w = (i, f, w, tt)
  IsHistory-snoc from (u ∷ ts) t (ui, uf, uw, h) i f w =
      (ui, uf, uw, IsHistory-snoc u.to ts t h i f w)

  -- What an accepted append leaves.
  pub record Appended (ts : List InterventionTransition) (r : MemoryStore × WriteResult)
      : Type 0 where
    pub holds : HoldsIn rt id r.0 ts
    pub revision : ℕ
    pub wrote : Wrote r revision

  added-Appended :
      (t : InterventionTransition) (op : String) (s : MemoryStore)
      → Appended (t ∷ []) (add_cell stream_key (stream_form (entry_of rt t ∷ [])) op s, created 1)
  unfolding add_cell write_cell
  added-Appended t op s =
      let c : Cell = record {
        key = stream_key;
        form = stream_form (entry_of rt t ∷ []);
        revision = 1;
        last_operation_id = op;
        insertion_index = s.next_insertion_index;
      } in
      record {
        holds = record {
          cell = c;
          found = rw (get_cell-set_cell stream_key c s.cells, same_key_refl stream_key) refl;
          form = refl;
        };
        revision = 1;
        wrote = inl refl;
      }

  written-Appended :
      (c : Cell) (ts : List InterventionTransition) (t : InterventionTransition) (op : String)
      (s : MemoryStore)
      → c.key ≡ stream_key
      → Appended (ts ++ t ∷ []) (
        write_cell
            (record c {
              form = stream_form (map (entry_of rt) ts ++ entry_of rt t ∷ []);
              revision = c.revision + 1;
              last_operation_id = op;
            })
            s,
        updated (c.revision + 1),
      )
  unfolding write_cell
  written-Appended c ts t op s k =
      let d : Cell = record c {
        form = stream_form (map (entry_of rt) ts ++ entry_of rt t ∷ []);
        revision = c.revision + 1;
        last_operation_id = op;
      } in
      record {
        holds = record {
          cell = d;
          found = rw (get_cell-set_cell stream_key d s.cells, k, same_key_refl stream_key) refl;
          form = ap stream_form (sym (map-append ts (t ∷ [])));
        };
        revision = c.revision + 1;
        wrote = inr refl;
      }

  abbrev pub stream_for : Option Cell → List InterventionTransition → Option TransitionStream
  stream_for none ts = none
  stream_for (some c) ts = some (record { transitions = ts; revision = c.revision })

  ==-false : (a b : String) → some a ≢ some b → (a == b) ≡ false
  ==-false a b ne = split (a == b) refl
    where
      split : (x : Bool) → (a == b) ≡ x → x ≡ false
      split true e = absurd (ne (ap some ((==_iff a b).0 e)))
      split false e = refl

  pub append-Appended :
      (s : MemoryStore) (o : Option Cell) (ts : List InterventionTransition)
      (t : InterventionTransition) (op : String)
      → get_cell stream_key s.cells ≡ o
      → CellOf o ts
      → last_operation o ≢ some op
      → any (has_id (map (entry_of rt) ts)) (entry_of rt t ∷ []) ≡ false
      → Appended
          (ts ++ t ∷ [])
          (append stream_key (revision_in (stream_for o ts)) (entry_of rt t ∷ []) op s)
  unfolding append append_found append_at
  append-Appended s none ts t op found absent fresh unknown = rw found (added-Appended t op s)
  append-Appended s (some c) ts t op found (present form) fresh unknown = rw found (at c.form form)
    where
      at :
          (f : Form)
          → f ≡ stream_form (map (entry_of rt) ts)
          → Appended (ts ++ t ∷ []) (append_at f c (some c.revision) (entry_of rt t ∷ []) op s)
      at f e =
          rw (e, ==-false c.last_operation_id op fresh, ==_refl (some c.revision), unknown)
            (written-Appended c ts t op s (get_cell-key stream_key s.cells {c = c} found))

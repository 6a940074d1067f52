-- ===== src/Engine/Created.antt =====
-- engine/context.ts, `createOnly` among other writers: what its answer tells of the store.
use governed_learning_loop.Prelude.{
  String, ◌≡◌, refl, Bool, true, false, Option, none, some, if◌then◌else◌,
}
use governed_learning_loop.Json.{Json, Runtime}
use governed_learning_loop.Store.{
  RecordKey, Cell, MemoryStore, WriteResult, get_cell, value_form, create, create_at, add_cell,
  write_cell, call, exists_same, conflict,
}
use governed_learning_loop.Store.Invariant.{get_cell-set_cell, same_key_refl}
use governed_learning_loop.Action.{World, continue, ◌>>=◌, lift, interfere, store_call}
use governed_learning_loop.Action.Laws.{Yields, returned, Later, interfere-Later}
use governed_learning_loop.Engine.{
  record_key, record_digest, Creation, was_created, was_same, was_conflict, creation_of,
}
use governed_learning_loop.Engine.Load.{create_only}

-- The key had no cell until this call, which is what leads to the store and put the value there.
pub record WrittenNow (key : RecordKey) (value : Json) (digest : String) (start now : MemoryStore)
    : Type 0 where
  pub before : MemoryStore
  pub since : Later start before
  pub missing : get_cell key before.cells ≡ none
  pub operation_id : String
  pub written : now ≡ (create key value digest operation_id before).0
  pub cell : Cell
  pub found : get_cell key now.cells ≡ some cell
  pub holds : cell.form ≡ value_form value digest

-- The key has a cell already.
pub record TakenNow (key : RecordKey) (start now : MemoryStore) : Type 0 where
  pub since : Later start now
  pub cell : Cell
  pub found : get_cell key now.cells ≡ some cell

-- What each answer of `createOnly` says of the store that it leaves.
pub data Attempted (key : RecordKey) (value : Json) (digest : String) (start now : MemoryStore)
    : Creation → Type 0 where
  wrote : WrittenNow key value digest start now → Attempted key value digest start now was_created
  found_same : TakenNow key start now → Attempted key value digest start now was_same
  found_other : TakenNow key start now → Attempted key value digest start now was_conflict

module _ (key : RecordKey) (value : Json) (digest op : String) (start : MemoryStore) where
  abbrev Answers : MemoryStore × WriteResult → World → Type 0
  Answers r w =
      Yields (λ status v. Attempted key value digest start v.store status)
        (lift (creation_of r.1) (record w { store = r.0 }))

  create-WrittenNow :
      (s : MemoryStore)
      → Later start s
      → get_cell key s.cells ≡ none
      → WrittenNow key value digest start (add_cell key (value_form value digest) op s)
  unfolding add_cell write_cell create create_at
  create-WrittenNow s since g = record {
    before = s;
    since = since;
    missing = g;
    operation_id = op;
    written = rw g refl;
    cell = record {
      key = key;
      form = value_form value digest;
      revision = 1;
      last_operation_id = op;
      insertion_index = s.next_insertion_index;
    };
    found = rw (get_cell-set_cell key _ s.cells, same_key_refl key) refl;
    holds = refl;
  }

  create_at-Answers :
      (o : Option Cell) (w : World)
      → Later start w.store
      → get_cell key w.store.cells ≡ o
      → Answers (create_at o key value digest op w.store) w
  unfolding create_at creation_of
  create_at-Answers none w since g =
      returned was_created _ (wrote (create-WrittenNow w.store since g))
  create_at-Answers (some c) w since g = split _
    where
      taken : TakenNow key start w.store
      taken = record { since = since; cell = c; found = g }

      split :
          (b : Bool)
          → Answers
              (if b
                then (w.store, exists_same c.revision)
                else (w.store, conflict (some c.revision)))
              w
      split true = returned was_same _ (found_same taken)
      split false = returned was_conflict _ (found_other taken)

module _ (rt : Runtime) (kind id : String) (value : Json) (op : String) where
  -- An answer `created` comes with the value in a cell that the key did not have, any other with the
  -- cell that the key had.
  pub create_only-Attempted :
      (w : World)
      → Yields
          (λ status v.
            Attempted (record_key kind id) value (record_digest rt value) w.store v.store status)
          (create_only rt kind id value op w)
  unfolding create_only ◌>>=◌ continue store_call call create
  create_only-Attempted w =
      create_at-Answers (record_key kind id) value (record_digest rt value) op w.store _
        (interfere w) (interfere-Later w) refl

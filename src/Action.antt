-- ===== src/Action.antt =====
-- How the engine runs (engine/context.ts and every module of engine/ that awaits the store): an
-- action reads and writes the store of ports/store.ts, may throw, and reads the clock.
--
-- Other writers share the store. Before each call that an action makes, the next batch of their
-- calls takes effect: a world fixes these batches, and a theorem over every world is one over every
-- interleaving.
pub mod Laws
use governed_learning_loop.Prelude.{ℕ, ◌+◌, Option, List, [], ◌∷◌}
use governed_learning_loop.Diagnostics.{Result, ok, throw, LearningLoopError}
use governed_learning_loop.Json.{Runtime}
use governed_learning_loop.Store.{RecordKey, StoredRecord, WriteResult, MemoryStore, Call, call}
use governed_learning_loop.Store.Runs.{run}
use governed_learning_loop.Store.Reading.{get, list, ListQuery, ListPage}

pub record World : Type 0 where
  pub store : MemoryStore
  pub others : List (List Call)
  pub ticks : ℕ

abbrev pub Action {ℓ} : Type ℓ → Type ℓ
Action A = World → Result A × World

-- Go on with a value, or pass an error on; what was written stays written.
unfoldable pub continue {ℓ κ} :
    {A : Type ℓ} {B : Type κ} → Result A → (A → Action B) → World → Result B × World
continue (ok a) f w = f a w
continue (throw e) f w = (throw e, w)

infixl 5 ◌>>=◌ ◌>>◌
unfoldable pub ◌>>=◌ {ℓ κ} : {A : Type ℓ} {B : Type κ} → Action A → (A → Action B) → Action B
unfolding continue
◌>>=◌ m f w = continue (m w).0 f (m w).1

unfoldable pub ◌>>◌ {ℓ} : {B : Type ℓ} → Action (Unit {0}) → Action B → Action B
unfolding ◌>>=◌
m >> k = m >>= λ _. k

abbrev pub lift {ℓ} : {A : Type ℓ} → Result A → Action A
lift r w = (r, w)

abbrev pub pure {ℓ} : {A : Type ℓ} → A → Action A
pure a = lift (ok a)

abbrev pub raise {ℓ} : {A : Type ℓ} → LearningLoopError → Action A
raise e = lift (throw e)

-- The next batch of the other writers' calls.
abbrev take_turn : List (List Call) → World → World
take_turn [] w = w
take_turn (calls ∷ rest) w = record w { store = run calls w.store; others = rest }

unfoldable pub interfere : World → World
interfere w = take_turn w.others w

-- `await store.get(key)`
unfoldable pub store_get : Runtime → RecordKey → Action (Option StoredRecord)
store_get rt key w = (ok (get rt key (interfere w).store), interfere w)

-- `await store.list(query)`
unfoldable pub store_list : ListQuery → Action ListPage
store_list query w = (list query (interfere w).store, interfere w)

-- `await store.create(...)` and the like
unfoldable pub store_call : Call → Action WriteResult
store_call c w = (
  ok (call c (interfere w).store).1,
  record (interfere w) { store = (call c (interfere w).store).0 },
)

-- `clock.now()`
unfoldable pub read_clock {ℓ} : {T : Type ℓ} → (ℕ → T) → Action T
read_clock clock w = (ok (clock w.ticks), record w { ticks = w.ticks + 1 })

-- ===== src/Store.antt =====
-- ports/store.ts and testing/in-memory-store.ts: the storage port, and the in-memory store that
-- states its semantics. Each method returns the new store with its result.
--
-- A revision is the number whose decimal text the source hands out and compares. The `Map` from key
-- texts to cells is the list of its cells, in the order in which the keys were first set.
pub mod Invariant
pub mod Steps
pub mod Runs
pub mod Reading
pub mod Listing
pub mod Conflicts
pub mod Retries
mod Tests
use governed_learning_loop.Prelude.{
  ℕ, suc, String, ◌+◌, Bool, true, false, not, ◌&&◌, ◌||◌, Option, none, some, List, [], ◌∷◌, ◌++◌,
  map, any, keep, take, length, last?, ltb, leb, if◌then◌else◌, ◌==◌, String_eq, Option_eq, ℕ_eq,
}
use governed_learning_loop.Diagnostics.{Result, ok, throw, failure}
use governed_learning_loop.Json.{
  Json, str, arr, obj, end, field, of_list, Runtime, sha256_hex_of_canonical_json,
}

pub record RecordKey : Type 0 where
  pub namespace : String
  pub kind : String
  pub id : String

pub record StoredRecord : Type 0 where
  pub key : RecordKey
  pub value : Json
  pub revision : ℕ
  pub digest : String

pub record StreamEntry : Type 0 where
  pub id : String
  pub digest : String
  pub value : Json

pub data WriteResult : Type 0 where
  created updated exists_same : ℕ → WriteResult
  conflict : Option ℕ → WriteResult

-- What tells `RecordCell`, `StreamCell` and `TombstoneCell` apart.
pub data Form : Type 0 where
  value_form : Json → String → Form
  stream_form : List StreamEntry → Form
  tombstone_form : String → Form

pub record Cell : Type 0 where
  pub key : RecordKey
  pub form : Form
  pub revision : ℕ
  pub last_operation_id : String
  pub insertion_index : ℕ

pub record MemoryStore : Type 0 where
  pub cells : List Cell
  pub namespace_write_counts : String → ℕ
  pub next_insertion_index : ℕ

-- `cellId(a) === cellId(b)`
unfoldable pub same_key : RecordKey → RecordKey → Bool
same_key a b = a.namespace == b.namespace && (a.kind == b.kind && a.id == b.id)

-- `cells.get(cellId(key))`
unfoldable pub get_cell : RecordKey → List Cell → Option Cell
get_cell key [] = none
get_cell key (c ∷ cells) =
    let rest = get_cell key cells in if same_key c.key key then some c else rest

-- `cells.set(cellId(cell.key), cell)`
unfoldable pub set_cell : Cell → List Cell → List Cell
set_cell cell [] = cell ∷ []
set_cell cell (c ∷ cells) =
    let rest = set_cell cell cells in if same_key c.key cell.key then cell ∷ cells else c ∷ rest

unfoldable pub bump_namespace : String → (String → ℕ) → String → ℕ
bump_namespace namespace counts n = if n == namespace then counts n + 1 else counts n

-- The store with a changed cell of a known key, and with a new cell.
unfoldable pub write_cell : Cell → MemoryStore → MemoryStore
write_cell cell s = record s {
  cells = set_cell cell s.cells;
  namespace_write_counts = bump_namespace cell.key.namespace s.namespace_write_counts;
}

unfoldable pub add_cell : RecordKey → Form → String → MemoryStore → MemoryStore
unfolding write_cell
add_cell key form operation_id s =
    record (write_cell
      (record {
        key = key;
        form = form;
        revision = 1;
        last_operation_id = operation_id;
        insertion_index = s.next_insertion_index;
      })
      s) { next_insertion_index = s.next_insertion_index + 1 }

unfoldable pub create_store : MemoryStore
create_store = record { cells = []; namespace_write_counts = λ _. 0; next_insertion_index = 0 }

abbrev is_value_with : String → Form → Bool
is_value_with digest (value_form v d) = d == digest
is_value_with digest _ = false

-- The branches of `create`, on the cell that the key had.
unfoldable pub create_at :
    Option Cell → RecordKey → Json → String → String → MemoryStore → MemoryStore × WriteResult
create_at (some existing) key value digest operation_id s =
    if is_value_with digest existing.form
    then (s, exists_same existing.revision)
    else (s, conflict (some existing.revision))
create_at none key value digest operation_id s =
    (add_cell key (value_form value digest) operation_id s, created 1)

unfoldable pub create : RecordKey → Json → String → String → MemoryStore → MemoryStore × WriteResult
create key value digest operation_id s =
    create_at (get_cell key s.cells) key value digest operation_id s

unfoldable pub compare_and_set_at :
    Form → Cell → ℕ → Json → String → String → MemoryStore → MemoryStore × WriteResult
compare_and_set_at (value_form v d) cell expected value digest operation_id s =
    if cell.revision == expected
    then (
      write_cell
          (record cell {
            form = value_form value digest;
            revision = cell.revision + 1;
            last_operation_id = operation_id;
          })
          s,
      updated (cell.revision + 1),
    )
    else if cell.last_operation_id == operation_id && d == digest
    then (s, exists_same cell.revision)
    else (s, conflict (some cell.revision))
compare_and_set_at _ cell expected value digest operation_id s = (s, conflict (some cell.revision))

unfoldable pub compare_and_set_found :
    Option Cell → ℕ → Json → String → String → MemoryStore → MemoryStore × WriteResult
compare_and_set_found none expected value digest operation_id s = (s, conflict none)
compare_and_set_found (some cell) expected value digest operation_id s =
    compare_and_set_at cell.form cell expected value digest operation_id s

unfoldable pub compare_and_set :
    RecordKey → ℕ → Json → String → String → MemoryStore → MemoryStore × WriteResult
unfolding compare_and_set_found
compare_and_set key expected value digest operation_id s =
    compare_and_set_found (get_cell key s.cells) expected value digest operation_id s

abbrev pub has_id : List StreamEntry → StreamEntry → Bool
has_id known entry = any (λ k. k.id == entry.id) known

unfoldable pub append_at :
    Form → Cell → Option ℕ → List StreamEntry → String → MemoryStore → MemoryStore × WriteResult
append_at (stream_form known) cell expected entries operation_id s =
    if cell.last_operation_id == operation_id
    then (s, exists_same cell.revision)
    else if not (expected == some cell.revision)
    then (s, conflict (some cell.revision))
    else if any (has_id known) entries
    then (s, conflict (some cell.revision))
    else (
      write_cell
          (record cell {
            form = stream_form (known ++ entries);
            revision = cell.revision + 1;
            last_operation_id = operation_id;
          })
          s,
      updated (cell.revision + 1),
    )
append_at _ cell expected entries operation_id s = (s, conflict (some cell.revision))

abbrev pub append_new :
    Option ℕ → RecordKey → List StreamEntry → String → MemoryStore → MemoryStore × WriteResult
append_new (some _) stream entries operation_id s = (s, conflict none)
append_new none stream entries operation_id s =
    (add_cell stream (stream_form entries) operation_id s, created 1)

unfoldable pub append_found :
    Option Cell
    → RecordKey
    → Option ℕ
    → List StreamEntry
    → String
    → MemoryStore
    → MemoryStore × WriteResult
append_found none stream expected entries operation_id s =
    append_new expected stream entries operation_id s
append_found (some cell) stream expected entries operation_id s =
    append_at cell.form cell expected entries operation_id s

unfoldable pub append :
    RecordKey → Option ℕ → List StreamEntry → String → MemoryStore → MemoryStore × WriteResult
unfolding append_found
append stream expected entries operation_id s =
    append_found (get_cell stream s.cells) stream expected entries operation_id s

unfoldable pub tombstone_live : Cell → ℕ → String → String → MemoryStore → MemoryStore × WriteResult
tombstone_live cell expected reason operation_id s =
    if not (cell.revision == expected) then (s, conflict (some cell.revision)) else (
      write_cell
          (record cell {
            form = tombstone_form reason;
            revision = cell.revision + 1;
            last_operation_id = operation_id;
          })
          s,
      updated (cell.revision + 1),
    )

unfoldable pub tombstone_at :
    Form → Cell → ℕ → String → String → MemoryStore → MemoryStore × WriteResult
unfolding tombstone_live
tombstone_at (tombstone_form _) cell expected reason operation_id s =
    if cell.last_operation_id == operation_id
    then (s, exists_same cell.revision)
    else (s, conflict (some cell.revision))
tombstone_at _ cell expected reason operation_id s =
    tombstone_live cell expected reason operation_id s

unfoldable pub tombstone_found :
    Option Cell → ℕ → String → String → MemoryStore → MemoryStore × WriteResult
tombstone_found none expected reason operation_id s = (s, conflict none)
tombstone_found (some cell) expected reason operation_id s =
    tombstone_at cell.form cell expected reason operation_id s

unfoldable pub tombstone : RecordKey → ℕ → String → String → MemoryStore → MemoryStore × WriteResult
unfolding tombstone_found
tombstone key expected reason operation_id s =
    tombstone_found (get_cell key s.cells) expected reason operation_id s

-- The call of a method that writes.
pub data Call : Type 0 where
  create_call : RecordKey → Json → String → String → Call
  compare_and_set_call : RecordKey → ℕ → Json → String → String → Call
  append_call : RecordKey → Option ℕ → List StreamEntry → String → Call
  tombstone_call : RecordKey → ℕ → String → String → Call

unfoldable pub call : Call → MemoryStore → MemoryStore × WriteResult
call (create_call key value digest op) s = create key value digest op s
call (compare_and_set_call key expected value digest op) s =
    compare_and_set key expected value digest op s
call (append_call stream expected entries op) s = append stream expected entries op s
call (tombstone_call key expected reason op) s = tombstone key expected reason op s

-- ===== src/Store/Reading.antt =====
-- testing/in-memory-store.ts, `get` and `list`: the records that the store hands out, and its pages.
use governed_learning_loop.Prelude.{
  ℕ, String, Bool, true, false, ◌&&◌, Option, none, some, List, [], ◌∷◌, map, keep, take, length,
  last?, ltb, leb, if◌then◌else◌, ◌==◌, String_eq, Option_eq, ℕ_eq,
}
use governed_learning_loop.Diagnostics.{Result, ok, throw, failure}
use governed_learning_loop.Json.{
  Json, str, arr, obj, end, field, of_list, Runtime, sha256_hex_of_canonical_json,
}
use governed_learning_loop.Store.{
  RecordKey, StoredRecord, StreamEntry, Form, value_form, stream_form, tombstone_form, Cell,
  MemoryStore, get_cell,
}

module _ (rt : Runtime) where
  unfoldable pub stream_digest : List StreamEntry → String
  stream_digest entries =
      sha256_hex_of_canonical_json rt (arr (of_list (map (λ e. str e.id) entries)))

  abbrev pub entry_json : StreamEntry → Json
  entry_json e =
      obj (field "id" (str e.id) (field "digest" (str e.digest) (field "value" e.value end)))

  -- `toStoredRecord(cell)`, with nothing for a tombstone.
  unfoldable pub to_stored_record : Cell → Option StoredRecord
  to_stored_record c = elim c.form [
    | value_form value digest ↦
        some (record { key = c.key; value = value; revision = c.revision; digest = digest })
    | stream_form entries ↦ some (record {
      key = c.key;
      value = arr (of_list (map entry_json entries));
      revision = c.revision;
      digest = stream_digest entries;
    })
    | tombstone_form _ ↦ none
  ]

  unfoldable pub get : RecordKey → MemoryStore → Option StoredRecord
  get key s = elim (get_cell key s.cells) [ none ↦ none | some cell ↦ to_stored_record cell ]

-- A cursor is the insertion index that its text reads as, or a text that is refused.
pub data Cursor : Type 0 where
  index : ℕ → Cursor
  unrecognized : Cursor

pub record ListQuery : Type 0 where
  pub namespace : String
  pub kind : Option String
  pub cursor : Option Cursor
  pub limit : ℕ

pub record ListPage : Type 0 where
  pub cells : List Cell
  pub next_cursor : Option ℕ
  pub snapshot_revision : ℕ

abbrev pub is_live : Form → Bool
is_live (tombstone_form _) = false
is_live _ = true

abbrev pub after : Option ℕ → ℕ → Bool
after none i = true
after (some j) i = ltb j i

abbrev pub kind_fits : Option String → String → Bool
kind_fits none k = true
kind_fits (some kind) k = k == kind

abbrev pub is_listed : String → Option String → Option ℕ → Cell → Bool
is_listed namespace kind after_index c =
    is_live c.form
    && (c.key.namespace == namespace
        && (kind_fits kind c.key.kind && after after_index c.insertion_index))

-- The stable sort by insertion index.
abbrev pub insert_cell : Cell → List Cell → List Cell
insert_cell c [] = c ∷ []
insert_cell c (d ∷ cells) =
    let rest = insert_cell c cells in
    if leb c.insertion_index d.insertion_index then c ∷ d ∷ cells else d ∷ rest

abbrev pub sort_cells : List Cell → List Cell
sort_cells [] = []
sort_cells (c ∷ cells) = insert_cell c (sort_cells cells)

abbrev pub cursor_after : Bool → Option Cell → Option ℕ
cursor_after true (some c) = some c.insertion_index
cursor_after _ _ = none

-- A page holds its cells; `toStoredRecord` turns each of them into the record that is handed out.
unfoldable pub page_after : Option ℕ → ListQuery → MemoryStore → ListPage
page_after after_index query s =
    let live = sort_cells (keep (is_listed query.namespace query.kind after_index) s.cells) in
    let page = take query.limit live in
    record {
      cells = page;
      next_cursor = cursor_after (ltb (length page) (length live)) (last? page);
      snapshot_revision = s.namespace_write_counts query.namespace;
    }

abbrev list_from : Option Cursor → ListQuery → MemoryStore → Result ListPage
list_from none query s = ok (page_after none query s)
list_from (some (index i)) query s = ok (page_after (some i) query s)
list_from (some unrecognized) query s = throw (failure "schema.invalid")

unfoldable pub list : ListQuery → MemoryStore → Result ListPage
list query s =
    if ltb query.limit 1 then throw (failure "schema.invalid") else list_from query.cursor query s

-- ===== src/Engine/Pages.antt =====
-- engine/context.ts: `parseStoredPageAt`, `iterateRecordPages` and `readRecordKindRevision`, which
-- read the store page by page.
--
-- A consumer pulls pages from the generator; `pulls` is how many it asks for at most. A page keeps
-- its cells, whose records are checked.
pub mod Cells
pub mod Covers
pub mod Stable
pub mod Returns
mod Tests
use governed_learning_loop.Prelude.{
  ℕ, zero, suc, String, Bool, true, false, Option, none, some, List, [], ◌∷◌, length, any, ltb,
  ◌==◌, ℕ_eq,
}
use governed_learning_loop.Diagnostics.{Result, ok, ◌>>=◌ as and_then, ◌>>◌ as and_also, throw_if}
use governed_learning_loop.Json.{Runtime}
use governed_learning_loop.Store.{StoredRecord, Cell}
use governed_learning_loop.Store.Reading.{
  Cursor, index, unrecognized, ListQuery, ListPage, to_stored_record,
}
use governed_learning_loop.Action.{Action, ◌>>=◌, ◌>>◌, lift, pure, store_list}
use governed_learning_loop.Engine.{
  record_namespace, store_corrupt, parse_stored_record_at, assert_record_location,
}

-- What a consumer has pulled, and whether the generator had returned by then.
pub record Pulled : Type 0 where
  pub pages : List ListPage
  pub finished : Bool

-- The cursor of the options, if any; one that `list` does not recognize is refused before it counts.
abbrev pub seen_at_first : Option Cursor → List ℕ
seen_at_first (some (index i)) = i ∷ []
seen_at_first _ = []

abbrev with_record : Option StoredRecord → List StoredRecord → List StoredRecord
with_record none records = records
with_record (some r) records = r ∷ records

module _ (rt : Runtime) where
  -- `page.map((cell) => toStoredRecord(cell))`
  abbrev pub records_of : List Cell → List StoredRecord
  records_of [] = []
  records_of (c ∷ cells) = with_record (to_stored_record rt c) (records_of cells)

  abbrev pub parse_records : List StoredRecord → Result (Unit {0})
  parse_records [] = ok tt
  parse_records (r ∷ records) = and_then (parse_stored_record_at r) λ _. parse_records records

  unfoldable pub parse_stored_page_at : ListPage → ℕ → Result ListPage
  parse_stored_page_at page limit =
      and_also (throw_if (ltb limit (length (records_of page.cells))) store_corrupt)
        (and_also (parse_records (records_of page.cells)) (ok page))

  abbrev pub assert_locations : String → List StoredRecord → Result (Unit {0})
  assert_locations kind [] = ok tt
  assert_locations kind (r ∷ records) =
      and_also (assert_record_location rt r kind none) (assert_locations kind records)

  -- A page that the store handed out, with its records checked.
  unfoldable pub checked_page : String → ℕ → ListPage → Result ListPage
  checked_page kind limit raw =
      and_then (parse_stored_page_at raw limit)
        λ page. and_also (assert_locations kind (records_of page.cells)) (ok page)

  module _ (kind : String) (limit : ℕ) where
    abbrev pub kind_query : Option Cursor → ListQuery
    kind_query cursor = record {
      namespace = record_namespace;
      kind = some kind;
      cursor = cursor;
      limit = limit;
    }

    -- On to the next page, unless there is none or its cursor was seen before.
    unfoldable pub next_pages :
        (List ℕ → Option Cursor → Action Pulled) → List ℕ → Option ℕ → Action Pulled
    next_pages more seen none = pure (record { pages = []; finished = true })
    next_pages more seen (some i) = do
      lift (throw_if (any (λ j. j == i) seen) store_corrupt)
      more (i ∷ seen) (some (index i))

    -- The loop, by the pages that may still be pulled.
    unfoldable pub pull_pages : ℕ → List ℕ → Option Cursor → Action Pulled
    unfolding next_pages
    pull_pages zero seen cursor = pure (record { pages = []; finished = false })
    pull_pages (suc pulls) seen cursor = do
      raw ← store_list (kind_query cursor)
      page ← lift (checked_page kind limit raw)
      rest ← next_pages (pull_pages pulls) seen page.next_cursor
      pure (record { pages = page ∷ rest.pages; finished = rest.finished })

    unfoldable pub iterate_record_pages : ℕ → Option Cursor → Action Pulled
    iterate_record_pages pulls cursor = pull_pages pulls (seen_at_first cursor) cursor

  unfoldable pub read_record_kind_revision : String → Action ℕ
  read_record_kind_revision kind = do
    raw ← store_list (kind_query kind 1 none)
    page ← lift (checked_page kind 1 raw)
    pure page.snapshot_revision

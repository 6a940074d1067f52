-- ===== src/Engine/Pages/Tests.antt =====
-- engine/context.ts, `iterateRecordPages` on examples: two records read one by one, alone and while
-- another writer adds a third.
use governed_learning_loop.Prelude.{ℕ, String, refl, none, [], ◌∷◌, All, arith}
use governed_learning_loop.Diagnostics.{◌>>=◌, ◌>>◌}
use governed_learning_loop.Json.{str, sha256_hex_of_canonical_json}
use governed_learning_loop.Store.{Cell, MemoryStore, value_form, create_call, tombstone_call}
use governed_learning_loop.Store.Reading.{to_stored_record}
use governed_learning_loop.Intervention.Tests.{plain_runtime}
use governed_learning_loop.Action.{World}
use governed_learning_loop.Action.Laws.{Yields}
use governed_learning_loop.Engine.{
  record_key, parse_stored_record_at, assert_record_location, expected_stored_digest,
}
use governed_learning_loop.Engine.Pages.{iterate_record_pages}
use governed_learning_loop.Engine.Pages.Covers.{CoversFrom, shown}
use governed_learning_loop.Engine.Pages.Stable.{iterate-CoversFrom}
use governed_learning_loop.Engine.Pages.Returns.{IsAccepted, Returns, quiet, iterate-Returns}

abbrev hex : String
hex = "00000000000000000000000000000000000000000000000000000000000000aa"

abbrev receipt_cell : String → ℕ → Cell
receipt_cell id i = record {
  key = record_key "publication-receipt" id;
  form = value_form (str id) hex;
  revision = 1;
  last_operation_id = id;
  insertion_index = i;
}

abbrev two_receipts : MemoryStore
two_receipts = record {
  cells = receipt_cell "r-1" 0 ∷ receipt_cell "r-2" 1 ∷ [];
  namespace_write_counts = λ _. 2;
  next_insertion_index = 2;
}

-- After the first page another writer adds a receipt and withdraws the first.
abbrev changing : World
changing = record {
  store = two_receipts;
  others =
      []
      ∷ (create_call (record_key "publication-receipt" "r-3") (str "r-3") hex "op-3"
          ∷ tombstone_call (record_key "publication-receipt" "r-1") 1 "withdrawn" "op-4"
          ∷ [])
      ∷ [];
  ticks = 0;
}

iterate-CoversFrom_example :
    Yields
      (CoversFrom "publication-receipt" none two_receipts)
      (iterate_record_pages plain_runtime "publication-receipt" 1 5 none changing)
iterate-CoversFrom_example =
    iterate-CoversFrom plain_runtime "publication-receipt" 1 (omega arith) 5 changing (omega arith)

receipts-IsAccepted :
    All
      (IsAccepted plain_runtime "publication-receipt")
      (shown "publication-receipt" none two_receipts)
unfolding parse_stored_record_at assert_record_location expected_stored_digest to_stored_record
    ◌>>=◌ ◌>>◌ sha256_hex_of_canonical_json
receipts-IsAccepted = (
  record { stored = _; handed = refl; parses = refl; located = refl },
  (record { stored = _; handed = refl; parses = refl; located = refl }, tt),
)

iterate-Returns_example :
    Returns "publication-receipt" two_receipts 0 none
      (iterate_record_pages plain_runtime "publication-receipt" 1 3 none (quiet two_receipts 0))
iterate-Returns_example =
    iterate-Returns plain_runtime "publication-receipt" 1 (omega arith) two_receipts 0 (omega arith)
      3 receipts-IsAccepted (omega arith)

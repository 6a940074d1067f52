-- ===== src/Store/Conflicts.antt =====
-- testing/in-memory-store.ts: contenders and retries, the two cases that expected revisions and
-- operation ids are there for.
use governed_learning_loop.Prelude.{
  ℕ, String, ◌+◌, ◌≡◌, ◌≢◌, refl, Option, none, some, arith, eq_iff, ◌==◌, String_eq, ℕ_eq,
  Bool-cases, inl, inr,
}
use governed_learning_loop.Json.{Json}
use governed_learning_loop.Store.{
  RecordKey, Cell, MemoryStore, Form, value_form, get_cell, write_cell, updated, conflict,
  compare_and_set, compare_and_set_found, compare_and_set_at,
}
use governed_learning_loop.Store.Invariant.{same_key_refl, get_cell-key, get_cell-set_cell}

-- A cell that was just written is the one that its key has.
pub get_cell-write_cell :
    (key : RecordKey) (cell : Cell) (s : MemoryStore)
    → cell.key ≡ key
    → get_cell key (write_cell cell s).cells ≡ some cell
unfolding write_cell
get_cell-write_cell key cell s e = rw (get_cell-set_cell key cell s.cells, e, same_key_refl key)

update_refused :
    (key : RecordKey) (expected : ℕ) (w x : Json) (e y op' : String) (c : Cell) (s : MemoryStore)
    → c.key ≡ key
    → c.form ≡ value_form x y
    → c.last_operation_id ≢ op'
    → c.revision ≢ expected
    → compare_and_set key expected w e op' (write_cell c s)
      ≡ (write_cell c s, conflict (some c.revision))
unfolding compare_and_set compare_and_set_at
update_refused key expected w x e y op' c s k f ne r =
    rw (get_cell-write_cell key c s k) (simp f (ground (arith, eq_iff c.last_operation_id op')))

once_at :
    (key : RecordKey) (expected n : ℕ) (v w : Json) (d e op op' : String) (c : Cell)
    (s : MemoryStore) (form : Form)
    → c.key ≡ key
    → op ≢ op'
    → (compare_and_set_at form c expected v d op s).1 ≡ updated n
    → let t = (compare_and_set_at form c expected v d op s).0 in
      compare_and_set key expected w e op' t ≡ (t, conflict (some n))
unfolding compare_and_set_at
once_at key expected n v w d e op op' c s (value_form x y) k ne h =
    elim (Bool-cases (c.revision == expected)) [
      | inl same ↦
          let next : c.revision + 1 ≡ n = ground arith in
          let newer : c.revision + 1 ≢ expected = ground arith in
          rw (same, ← next)
            (update_refused key expected w v e d op'
              (record c {
                form = value_form v d;
                revision = c.revision + 1;
                last_operation_id = op;
              })
              s k refl ne newer)
      | inr other ↦ absurd (ground arith)
    ]
once_at key expected n v w d e op op' c s _ k ne h = absurd (ground arith)

-- Of two compare-and-set calls of one key with one expected revision, if the first updates then the
-- second, under another operation id, is refused with the new revision and changes nothing.
pub compare_and_set_once :
    (key : RecordKey) (expected n : ℕ) (v w : Json) (d e op op' : String) (s : MemoryStore)
    → op ≢ op'
    → (compare_and_set key expected v d op s).1 ≡ updated n
    → let t = (compare_and_set key expected v d op s).0 in
      compare_and_set key expected w e op' t ≡ (t, conflict (some n))
unfolding compare_and_set
compare_and_set_once key expected n v w d e op op' s ne = by_cell (get_cell key s.cells) refl
  where
    by_cell :
        (o : Option Cell)
        → get_cell key s.cells ≡ o
        → (compare_and_set_found o expected v d op s).1 ≡ updated n
        → let t = (compare_and_set_found o expected v d op s).0 in
          compare_and_set key expected w e op' t ≡ (t, conflict (some n))
    by_cell none g h = absurd (ground arith)
    by_cell (some c) g h =
        once_at key expected n v w d e op op' c s c.form (get_cell-key key s.cells g) ne h

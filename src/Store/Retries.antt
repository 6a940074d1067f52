-- ===== src/Store/Retries.antt =====
-- testing/in-memory-store.ts: sending a call again.
use governed_learning_loop.Prelude.{
  ℕ, String, ◌+◌, ◌≡◌, ◌≢◌, ◌⊎◌, refl, Bool, true, false, Option, none, some, List, ◌++◌, arith,
  if◌then◌else◌, eq_iff, ◌==◌, String_eq, ℕ_eq, Option_eq, inl, inr, ==_refl, subst,
}
use governed_learning_loop.Json.{Json}
use governed_learning_loop.Store.{
  RecordKey, Cell, MemoryStore, Form, value_form, stream_form, tombstone_form, StreamEntry,
  get_cell, write_cell, add_cell, WriteResult, created, updated, exists_same, conflict, Call,
  create_call, compare_and_set_call, append_call, tombstone_call, call, create, create_at,
  compare_and_set, compare_and_set_found, compare_and_set_at, append, append_found, append_at,
  append_new, tombstone, tombstone_found, tombstone_at, tombstone_live,
}
use governed_learning_loop.Store.Invariant.{get_cell-key}
use governed_learning_loop.Store.Conflicts.{get_cell-write_cell}

abbrev pub Wrote : MemoryStore × WriteResult → ℕ → Type 0
Wrote r n = (r.1 ≡ created n) ⊎ (r.1 ≡ updated n)

abbrev Repeats : Call → MemoryStore → ℕ → Type 0
Repeats c t n = call c t ≡ (t, exists_same n)

module _ (key : RecordKey) (op : String) (c : Cell) (s : MemoryStore) (k : c.key ≡ key)
    (l : c.last_operation_id ≡ op) where
  again_create :
      (v : Json) (d : String)
      → c.form ≡ value_form v d
      → Repeats (create_call key v d op) (write_cell c s) c.revision
  unfolding call create create_at
  again_create v d f = rw (get_cell-write_cell key c s k) (simp f (rw (==_refl d) refl))

  again_compare_and_set :
      (expected : ℕ) (v : Json) (d : String)
      → c.form ≡ value_form v d
      → c.revision ≢ expected
      → Repeats (compare_and_set_call key expected v d op) (write_cell c s) c.revision
  unfolding call compare_and_set compare_and_set_at
  again_compare_and_set expected v d f r =
      rw (get_cell-write_cell key c s k)
        (simp f (ground (arith, eq_iff c.last_operation_id op, eq_iff d d)))

  again_append :
      (expected : Option ℕ) (entries known : List StreamEntry)
      → c.form ≡ stream_form known
      → Repeats (append_call key expected entries op) (write_cell c s) c.revision
  unfolding call append append_at
  again_append expected entries known f =
      rw (get_cell-write_cell key c s k) (simp f (ground (arith, eq_iff c.last_operation_id op)))

  again_tombstone :
      (expected : ℕ) (reason : String)
      → c.form ≡ tombstone_form reason
      → Repeats (tombstone_call key expected reason op) (write_cell c s) c.revision
  unfolding call tombstone tombstone_at
  again_tombstone expected reason f =
      rw (get_cell-write_cell key c s k) (simp f (ground (arith, eq_iff c.last_operation_id op)))

-- If `r` is the answer of `c` and says that it wrote, sending `c` again changes nothing.
record RetryOf (c : Call) (r : MemoryStore × WriteResult) (n : ℕ) : Type 0 where
  repeats : Wrote r n → Repeats c r.0 n

revision_of :
    (c : Call) (t : MemoryStore) {r : WriteResult} (m n : ℕ)
    → (r ≡ created m) ⊎ (r ≡ updated m)
    → Repeats c t m
    → RetryOf c (t, r) n
revision_of c t m n e h = record {
  repeats = λ w. let same : m ≡ n = ground arith in subst (Repeats c t) same h;
}

retry_if :
    (c : Call) (n : ℕ) (b : Bool) (p q : MemoryStore × WriteResult)
    → RetryOf c p n
    → RetryOf c q n
    → RetryOf c (if b then p else q) n
retry_if c n true p q hp hq = hp
retry_if c n false p q hp hq = hq

retry_on :
    (c : Call) (n : ℕ) (b : Bool) (p q : MemoryStore × WriteResult)
    → (b ≡ true → RetryOf c p n)
    → RetryOf c q n
    → RetryOf c (if b then p else q) n
retry_on c n true p q hp hq = hp refl
retry_on c n false p q hp hq = hq

module _ (key : RecordKey) (op : String) (s : MemoryStore) (n : ℕ) where
  refused_no_retry : (c : Call) (t : MemoryStore) (o : Option ℕ) → RetryOf c (t, conflict o) n
  refused_no_retry c t o = record { repeats = λ w. absurd (ground arith) }

  same_no_retry : (c : Call) (t : MemoryStore) (m : ℕ) → RetryOf c (t, exists_same m) n
  same_no_retry c t m = record { repeats = λ w. absurd (ground arith) }

  created_retry :
      (c : Call) (form : Form)
      → Repeats c (add_cell key form op s) 1
      → RetryOf c (add_cell key form op s, created 1) n
  created_retry c form h = revision_of _ _ 1 n (inl refl) h

  compare_and_set_retry :
      (c : Cell) (form : Form) (expected : ℕ) (v : Json) (d : String)
      → c.key ≡ key
      → RetryOf
          (compare_and_set_call key expected v d op)
          (compare_and_set_at form c expected v d op s)
          n
  unfolding compare_and_set_at
  compare_and_set_retry c (value_form x y) expected v d k =
      retry_on _ _ (c.revision == expected) _ _
        (λ same. revision_of _ _ (c.revision + 1) n (inr refl) (
          again_compare_and_set key op
            (record c { form = value_form v d; revision = c.revision + 1; last_operation_id = op })
            s k refl expected v d refl (ground arith)))
        (retry_if _ _ _ _ _ (same_no_retry _ s c.revision) (refused_no_retry _ s (some c.revision)))
  compare_and_set_retry c _ expected v d k = refused_no_retry _ s (some c.revision)

  append_retry :
      (c : Cell) (form : Form) (expected : Option ℕ) (entries : List StreamEntry)
      → c.key ≡ key
      → RetryOf (append_call key expected entries op) (append_at form c expected entries op s) n
  unfolding append_at
  append_retry c (stream_form known) expected entries k =
      retry_if _ _ _ _ _ (same_no_retry _ s c.revision) (
        retry_if _ _ _ _ _ (refused_no_retry _ s (some c.revision)) (
          retry_if _ _ _ _ _ (refused_no_retry _ s (some c.revision)) (
            revision_of _ _ (c.revision + 1) n (inr refl) (
              again_append key op
                (record c {
                  form = stream_form (known ++ entries);
                  revision = c.revision + 1;
                  last_operation_id = op;
                })
                s k refl expected entries (known ++ entries) refl))))
  append_retry c _ expected entries k = refused_no_retry _ s (some c.revision)

  tombstone_live_retry :
      (c : Cell) (expected : ℕ) (reason : String)
      → c.key ≡ key
      → RetryOf (tombstone_call key expected reason op) (tombstone_live c expected reason op s) n
  unfolding tombstone_live
  tombstone_live_retry c expected reason k =
      retry_if _ _ _ _ _ (refused_no_retry _ s (some c.revision)) (
        revision_of _ _ (c.revision + 1) n (inr refl) (
          again_tombstone key op
            (record c {
              form = tombstone_form reason;
              revision = c.revision + 1;
              last_operation_id = op;
            })
            s k refl expected reason refl))

  tombstone_retry :
      (c : Cell) (form : Form) (expected : ℕ) (reason : String)
      → c.key ≡ key
      → RetryOf (tombstone_call key expected reason op) (tombstone_at form c expected reason op s) n
  unfolding tombstone_at
  tombstone_retry c (tombstone_form r) expected reason k =
      retry_if _ _ _ _ _ (same_no_retry _ s c.revision) (refused_no_retry _ s (some c.revision))
  tombstone_retry c _ expected reason k = tombstone_live_retry c expected reason k

abbrev new_cell : RecordKey → Form → String → MemoryStore → Cell
new_cell key form op s = record {
  key = key;
  form = form;
  revision = 1;
  last_operation_id = op;
  insertion_index = s.next_insertion_index;
}

abbrev advanced : MemoryStore → MemoryStore
advanced s = record s { next_insertion_index = s.next_insertion_index + 1 }

create_call_retry :
    (key : RecordKey) (v : Json) (d op : String) (s : MemoryStore) (n : ℕ) (o : Option Cell)
    → RetryOf (create_call key v d op) (create_at o key v d op s) n
unfolding create_at add_cell
create_call_retry key v d op s n none =
    created_retry key op s n _ (value_form v d)
      (again_create key op (new_cell key (value_form v d) op s) (advanced s) refl refl v d refl)
create_call_retry key v d op s n (some c) =
    retry_if _ _ _ _ _ (same_no_retry key op s n _ s c.revision)
      (refused_no_retry key op s n _ s (some c.revision))

append_new_retry :
    (key : RecordKey) (expected : Option ℕ) (entries : List StreamEntry) (op : String)
    (s : MemoryStore) (n : ℕ)
    → RetryOf (append_call key expected entries op) (append_new expected key entries op s) n
unfolding add_cell
append_new_retry key none entries op s n = created_retry key op s n _ (stream_form entries) (
    again_append key op (new_cell key (stream_form entries) op s) (advanced s) refl refl none
      entries entries refl)
append_new_retry key (some e) entries op s n = refused_no_retry key op s n _ s none

call-RetryOf : (c : Call) (s : MemoryStore) (n : ℕ) → RetryOf c (call c s) n
unfolding call create compare_and_set append tombstone
call-RetryOf (create_call key v d op) s n = create_call_retry key v d op s n (get_cell key s.cells)
call-RetryOf (compare_and_set_call key expected v d op) s n = by_cell (get_cell key s.cells) refl
  where
    by_cell :
        (o : Option Cell)
        → get_cell key s.cells ≡ o
        → RetryOf
            (compare_and_set_call key expected v d op)
            (compare_and_set_found o expected v d op s)
            n
    by_cell none g = refused_no_retry key op s n _ s none
    by_cell (some c) g =
        compare_and_set_retry key op s n c c.form expected v d (get_cell-key key s.cells g)
call-RetryOf (append_call key expected entries op) s n = by_cell (get_cell key s.cells) refl
  where
    by_cell :
        (o : Option Cell)
        → get_cell key s.cells ≡ o
        → RetryOf (append_call key expected entries op) (append_found o key expected entries op s) n
    by_cell none g = append_new_retry key expected entries op s n
    by_cell (some c) g =
        append_retry key op s n c c.form expected entries (get_cell-key key s.cells g)
call-RetryOf (tombstone_call key expected reason op) s n = by_cell (get_cell key s.cells) refl
  where
    by_cell :
        (o : Option Cell)
        → get_cell key s.cells ≡ o
        → RetryOf (tombstone_call key expected reason op) (tombstone_found o expected reason op s) n
    by_cell none g = refused_no_retry key op s n _ s none
    by_cell (some c) g =
        tombstone_retry key op s n c c.form expected reason (get_cell-key key s.cells g)

-- A call that wrote, sent again under its operation id before any other call, answers `exists_same`
-- with the revision of the first answer and changes nothing, whichever method it is.
pub call_retry :
    (c : Call) (s : MemoryStore) (n : ℕ)
    → Wrote (call c s) n
    → call c (call c s).0 ≡ ((call c s).0, exists_same n)
call_retry c s n w = (call-RetryOf c s n).repeats w

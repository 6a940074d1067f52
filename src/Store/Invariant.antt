-- ===== src/Store/Invariant.antt =====
-- testing/in-memory-store.ts: the laws of the map of cells, and the order of insertion indexes.
use governed_learning_loop.Prelude.{
  ℕ, ◌+◌, ◌≤◌, ◌≡◌, ◌↔◌, refl, true, none, some, List, [], ◌∷◌, arith, if◌then◌else◌, eq_iff,
}
use governed_learning_loop.Store.{RecordKey, Cell, MemoryStore, same_key, get_cell, set_cell}

pub same_key_iff : (a b : RecordKey) → (same_key a b ≡ true) ↔ (a ≡ b)
unfolding same_key
same_key_iff a b =
    ground (arith, eq_iff a.namespace b.namespace, eq_iff a.kind b.kind, eq_iff a.id b.id)

pub same_key_refl : (a : RecordKey) → same_key a a ≡ true
same_key_refl a = (same_key_iff a a).1 refl

pub get_cell-key :
    (key : RecordKey) (cells : List Cell) {c : Cell} → get_cell key cells ≡ some c → c.key ≡ key
unfolding get_cell
get_cell-key key [] h = cc
get_cell-key key (d ∷ cells) {c} h =
    ground (arith, (same_key_iff d.key key).0, get_cell-key key cells {c = c})

-- A write of one key is seen at that key and at no other.
pub get_cell-set_cell :
    (j : RecordKey) (cell : Cell) (cells : List Cell)
    → get_cell j (set_cell cell cells)
      ≡ (if same_key cell.key j then some cell else get_cell j cells)
unfolding get_cell set_cell
get_cell-set_cell j cell [] = refl
get_cell-set_cell j cell (c ∷ cells) = ground (
  arith,
  same_key_iff c.key cell.key,
  same_key_iff c.key j,
  same_key_iff cell.key j,
  get_cell-set_cell j cell cells,
)

-- The insertion indexes rise along the list, from `lo` on and below `hi`.
abbrev pub IsRising : ℕ → ℕ → List Cell → Type 0
IsRising lo hi [] = lo ≤ hi
IsRising lo hi (c ∷ cells) = (lo ≤ c.insertion_index) × IsRising (c.insertion_index + 1) hi cells

abbrev pub IsOrdered : MemoryStore → Type 0
IsOrdered s = IsRising 0 s.next_insertion_index s.cells

pub set_cell-IsRising :
    (lo hi : ℕ) (key : RecordKey) (old cell : Cell) (cells : List Cell)
    → get_cell key cells ≡ some old
    → cell.key ≡ key
    → cell.insertion_index ≡ old.insertion_index
    → IsRising lo hi cells
    → IsRising lo hi (set_cell cell cells)
unfolding get_cell set_cell
set_cell-IsRising lo hi key old cell [] g k e h = cc
set_cell-IsRising lo hi key old cell (c ∷ cells) g k e h =
    let ih = set_cell-IsRising (c.insertion_index + 1) hi key old cell cells in
    ground (arith, same_key_iff c.key key, same_key_iff c.key cell.key, ih)

pub set_cell-IsRising_new :
    (lo hi : ℕ) (cell : Cell) (cells : List Cell)
    → get_cell cell.key cells ≡ none
    → cell.insertion_index ≡ hi
    → IsRising lo hi cells
    → IsRising lo (hi + 1) (set_cell cell cells)
unfolding get_cell set_cell
set_cell-IsRising_new lo hi cell [] g e h = omega arith
set_cell-IsRising_new lo hi cell (c ∷ cells) g e h =
    ground (arith, set_cell-IsRising_new (c.insertion_index + 1) hi cell cells)

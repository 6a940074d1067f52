-- ===== src/Engine/Pages/Covers.antt =====
-- engine/context.ts, `iterateRecordPages`: what the pages pulled from a position on cover, from one
-- page and from those after it.
use governed_learning_loop.Prelude.{
  ℕ, String, ◌+◌, ◌≤◌, ◌≡◌, inl, inr, refl, sym, ap, ◌∙◌, subst, Bool, true, false, Option, none,
  some, ◌&&◌, append-nil, List, [], ◌∷◌, ◌++◌, last?, arith, String_eq, ==_iff, ℕ_eq, ◌==◌,
}
use governed_learning_loop.Store.{RecordKey, Cell, MemoryStore, Form, get_cell}
use governed_learning_loop.Store.Invariant.{get_cell-key, IsOrdered}
use governed_learning_loop.Store.Reading.{ListPage, is_listed, is_live, after, kind_fits}
use governed_learning_loop.Store.Runs.{
  FormGrowth, value_kept, stream_grown, value_dead, stream_dead, still_dead, Successor,
  run-Successor, run-IsOrdered_from,
}
use governed_learning_loop.Action.{World}
use governed_learning_loop.Action.Laws.{Later, Later-trans}
use governed_learning_loop.Engine.{record_key, record_namespace}
use governed_learning_loop.Engine.Pages.{Pulled}
use governed_learning_loop.Engine.Pages.Cells.{
  In, RisesFrom, IsRising-RisesFrom, RisesFrom-raise, RisesFrom-append, RisesFrom-prefix, In-append,
  In-left, In-right, keep-In, In-keep, get_cell-In,
}
use governed_learning_loop.Store.Listing.{live, live-IsRising}

-- A cell that is live later was live before.
live_before : {f g : Form} → FormGrowth f g → is_live g ≡ true → is_live f ≡ true
live_before value_kept h = refl
live_before (stream_grown more e) h = refl
live_before value_dead h = cc
live_before stream_dead h = cc
live_before still_dead h = h

Later-Successor :
    {s t : MemoryStore} (key : RecordKey) (c : Cell)
    → Later s t
    → get_cell key s.cells ≡ some c
    → Successor c (get_cell key t.cells)
Later-Successor {s} key c later g =
    subst (λ (t : MemoryStore). Successor c (get_cell key t.cells)) (sym later.runs)
      (run-Successor key c s later.calls g)

pub Later-IsOrdered : {s t : MemoryStore} → Later s t → IsOrdered s → IsOrdered t
Later-IsOrdered {s} later o = subst IsOrdered (sym later.runs) (run-IsOrdered_from later.calls s o)

-- The cell of the key later on, in terms of any cell that is found there.
same_cell :
    {s t : MemoryStore} (key : RecordKey) (c d : Cell)
    → Later s t
    → get_cell key s.cells ≡ some c
    → get_cell key t.cells ≡ some d
    → (d.insertion_index ≡ c.insertion_index) × FormGrowth c.form d.form
same_cell key c d later g h =
    let next = Later-Successor key c later g in
    let same : next.cell ≡ d = let f = next.found in cc in
    subst (λ (x : Cell). (x.insertion_index ≡ c.insertion_index) × FormGrowth c.form x.form) same
      (next.index_kept, next.growth)

abbrev pub bound : Option ℕ → ℕ
bound none = 0
bound (some i) = i + 1

pub after-bound : (a : Option ℕ) (i : ℕ) → after a i ≡ true → bound a ≤ i
after-bound none i h = omega arith
after-bound (some j) i h = ground arith

-- The cells that the pages hold, in the order in which they are handed out.
abbrev pub cells_of : List ListPage → List Cell
cells_of [] = []
cells_of (page ∷ pages) = page.cells ++ cells_of pages

both : {a b : Bool} → a ≡ true → b ≡ true → (a && b) ≡ true
both h k = rw (h, k) refl

right_part : (a b : Bool) → (a && b) ≡ true → b ≡ true
right_part true b h = h
right_part false b h = cc

module _ (kind : String) where
  -- The cells of the kind that `list` shows after a position.
  abbrev pub shown : Option ℕ → MemoryStore → List Cell
  shown a s = live record_namespace (some kind) a s.cells

  pub listed-after :
      (a : Option ℕ) (c : Cell) (s : MemoryStore)
      → In c (shown a s)
      → after a c.insertion_index ≡ true
  listed-after a c s i = right_part (kind_fits (some kind) c.key.kind) _ (
      right_part (c.key.namespace == record_namespace) _ (
        right_part (is_live c.form) _
          (In-keep (is_listed record_namespace (some kind) a) s.cells i)))

  shown-RisesFrom : (a : Option ℕ) (s : MemoryStore) → IsOrdered s → RisesFrom (bound a) (shown a s)
  shown-RisesFrom a s o =
      RisesFrom-raise 0 (bound a) (shown a s)
        (IsRising-RisesFrom 0 s.next_insertion_index (shown a s)
          (live-IsRising record_namespace (some kind) s 1 a o))
        λ c i. after-bound a c.insertion_index (listed-after a c s i)

  shown-In :
      (a : Option ℕ) (s : MemoryStore) (id : String) (d : Cell)
      → get_cell (record_key kind id) s.cells ≡ some d
      → is_live d.form ≡ true
      → after a d.insertion_index ≡ true
      → In d (shown a s)
  shown-In a s id d g alive behind =
      let key = get_cell-key (record_key kind id) s.cells g in
      keep-In (is_listed record_namespace (some kind) a) s.cells
        (get_cell-In (record_key kind id) s.cells g)
        (both alive (
          both
            ((==_iff d.key.namespace record_namespace).1 (ap (λ (k : RecordKey). k.namespace) key))
            (both ((==_iff d.key.kind kind).1 (ap (λ (k : RecordKey). k.kind) key)) behind)))

  -- What a consumer has who started after a position: its cells lie after it and their insertion
  -- indexes rise; and once the generator has returned, they hold a cell of every key of the kind that
  -- had a cell after that position at the start and has a live one at the end.
  pub record CoversFrom (a : Option ℕ) (start : MemoryStore) (p : Pulled) (end : World)
      : Type 0 where
    pub later : Later start end.store
    pub rising : RisesFrom (bound a) (cells_of p.pages)
    pub complete :
        p.finished ≡ true
        → (id : String) (c d : Cell) → get_cell (record_key kind id) start.cells ≡ some c
        → after a c.insertion_index ≡ true
        → get_cell (record_key kind id) end.store.cells ≡ some d
        → is_live d.form ≡ true
        → (e : Cell) × In e (cells_of p.pages) × (e.key ≡ record_key kind id)

  module _ (a : Option ℕ) (start : MemoryStore) (page : ListPage) (u : World)
      (since : Later start u.store) (ordered : IsOrdered u.store) where
    pub last_page-CoversFrom :
        page.cells ≡ shown a u.store
        → CoversFrom a start (record { pages = page ∷ []; finished = true }) u
    last_page-CoversFrom e = record {
      later = since;
      rising =
          subst (RisesFrom (bound a)) (sym e ∙ sym (append-nil page.cells))
            (shown-RisesFrom a u.store ordered);
      complete = λ fin id c d g behind h alive.
          let (same, growth) = same_cell (record_key kind id) c d since g h in
          let seen =
            shown-In a u.store id d h alive (subst (λ i. after a i ≡ true) (sym same) behind) in
          (
            d,
            In-left [] (subst (In d) (sym e) seen),
            get_cell-key (record_key kind id) u.store.cells h,
          );
    }

    pub more_pages-CoversFrom :
        (l : Cell) (rest : Pulled) (z : World)
        → last? page.cells ≡ some l
        → page.cells ++ shown (some l.insertion_index) u.store ≡ shown a u.store
        → CoversFrom (some l.insertion_index) u.store rest z
        → CoversFrom a start (record { pages = page ∷ rest.pages; finished = rest.finished }) z
    more_pages-CoversFrom l rest z e whole h = record {
      later = Later-trans since h.later;
      rising =
          RisesFrom-append (bound a) page.cells (cells_of rest.pages) l
            (RisesFrom-prefix (bound a) page.cells (shown (some l.insertion_index) u.store)
              (subst (RisesFrom (bound a)) (sym whole) (shown-RisesFrom a u.store ordered)))
            e h.rising;
      complete = λ fin id c d g behind k alive.
          let next = Later-Successor (record_key kind id) c since g in
          let (_, growth) = same_cell (record_key kind id) next.cell d h.later next.found k in
          let seen =
            shown-In a u.store id next.cell next.found (live_before growth alive)
              (subst (λ i. after a i ≡ true) (sym next.index_kept) behind) in
          elim (In-append page.cells _ (subst (In next.cell) (sym whole) seen)) [
            | inl i ↦ (
              next.cell,
              In-left (cells_of rest.pages) i,
              get_cell-key (record_key kind id) u.store.cells next.found,
            )
            | inr i ↦
                let (x, j, key) =
                  h.complete fin id next.cell d next.found
                    (listed-after (some l.insertion_index) next.cell u.store i) k alive in
                (x, In-right page.cells j, key)
          ];
    }

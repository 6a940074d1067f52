-- ===== src/Store/Listing.antt =====
-- testing/in-memory-store.ts, `list`: how a page divides the live cells, and a reader that follows
-- the cursors.
use governed_learning_loop.Prelude.{
  ℕ, zero, suc, String, ◌+◌, ◌≤◌, ◌<◌, ◌≡◌, refl, sym, ap, ◌∙◌, Bool, true, false, Option, none,
  some, List, [], ◌∷◌, ◌++◌, arith, keep, take, drop, last?, length, ltb, inl, inr,
  take-append-drop, append-nil, subst, All, ◌⊎◌, String_eq,
}
use governed_learning_loop.Store.{Cell, MemoryStore}
use governed_learning_loop.Diagnostics.{Result, ok, ◌>>=◌}
use governed_learning_loop.Store.Reading.{
  is_listed, after, sort_cells, insert_cell, page_after, Cursor, index, ListQuery, ListPage, list,
}
use governed_learning_loop.Store.Invariant.{IsRising, IsOrdered}

IsRising-lower :
    (lo mid hi : ℕ) (cells : List Cell) → lo ≤ mid → IsRising mid hi cells → IsRising lo hi cells
IsRising-lower lo mid hi [] l h = omega arith
IsRising-lower lo mid hi (c ∷ cells) l h = (omega arith, h.1)

keep-IsRising :
    (p : Cell → Bool) (lo hi : ℕ) (cells : List Cell)
    → IsRising lo hi cells
    → IsRising lo hi (keep p cells)
keep-IsRising p lo hi [] h = h
keep-IsRising p lo hi (c ∷ cells) h =
    let ih = keep-IsRising p (c.insertion_index + 1) hi cells h.1 in
    let ih' = IsRising-lower lo (c.insertion_index + 1) hi (keep p cells) (omega arith) ih in
    ground arith

insert_cell-IsRising :
    (c : Cell) (hi : ℕ) (cells : List Cell)
    → IsRising (c.insertion_index + 1) hi cells
    → insert_cell c cells ≡ c ∷ cells
insert_cell-IsRising c hi [] h = refl
insert_cell-IsRising c hi (d ∷ cells) h = ground arith

-- A list whose indexes rise is sorted already.
sort_cells-IsRising :
    (lo hi : ℕ) (cells : List Cell) → IsRising lo hi cells → sort_cells cells ≡ cells
sort_cells-IsRising lo hi [] h = refl
sort_cells-IsRising lo hi (c ∷ cells) h =
    rw (sort_cells-IsRising (c.insertion_index + 1) hi cells h.1)
      (insert_cell-IsRising c hi cells h.1)

abbrev beyond : ℕ → Cell → Bool
beyond i d = ltb i d.insertion_index

keep-beyond_all :
    (i lo hi : ℕ) (cells : List Cell)
    → i < lo
    → IsRising lo hi cells
    → keep (beyond i) cells ≡ cells
keep-beyond_all i lo hi [] l h = refl
keep-beyond_all i lo hi (c ∷ cells) l h =
    let ih = keep-beyond_all i (c.insertion_index + 1) hi cells (omega arith) h.1 in ground arith

last?-IsRising :
    (lo hi n : ℕ) (cells : List Cell) (c : Cell)
    → IsRising lo hi cells
    → last? (take n cells) ≡ some c
    → lo ≤ c.insertion_index
last?-IsRising lo hi zero cells c h e = cc
last?-IsRising lo hi (suc n) [] c h e = cc
last?-IsRising lo hi (suc zero) (d ∷ cells) c h e = ground arith
last?-IsRising lo hi (suc (suc n)) (d ∷ []) c h e = ground arith
last?-IsRising lo hi (suc (suc n)) (d ∷ d' ∷ cells) c h e =
    let ih = last?-IsRising (d.insertion_index + 1) hi (suc n) (d' ∷ cells) c h.1 e in omega arith

-- What lies beyond the last cell of a page is what the page left.
keep-beyond_last :
    (lo hi n : ℕ) (cells : List Cell) (c : Cell)
    → IsRising lo hi cells
    → last? (take n cells) ≡ some c
    → keep (beyond c.insertion_index) cells ≡ drop n cells
keep-beyond_last lo hi zero cells c h e = cc
keep-beyond_last lo hi (suc n) [] c h e = refl
keep-beyond_last lo hi (suc zero) (d ∷ cells) c h e =
    let all =
      keep-beyond_all c.insertion_index (d.insertion_index + 1) hi cells (ground arith) h.1 in
    ground arith
keep-beyond_last lo hi (suc (suc n)) (d ∷ []) c h e = ground arith
keep-beyond_last lo hi (suc (suc n)) (d ∷ d' ∷ cells) c h e =
    let ih = keep-beyond_last (d.insertion_index + 1) hi (suc n) (d' ∷ cells) c h.1 e in
    let low = last?-IsRising (d.insertion_index + 1) hi (suc n) (d' ∷ cells) c h.1 e in
    skip d (d' ∷ cells) low ∙ ih
  where
    skip :
        (d : Cell) (rest : List Cell)
        → d.insertion_index + 1 ≤ c.insertion_index
        → keep (beyond c.insertion_index) (d ∷ rest) ≡ keep (beyond c.insertion_index) rest
    skip d rest l = ground arith

last?-All :
    (P : Cell → Type 0) (n : ℕ) (cells : List Cell) (c : Cell)
    → All P cells
    → last? (take n cells) ≡ some c
    → P c
last?-All P zero cells c h e = cc
last?-All P (suc n) [] c h e = cc
last?-All P (suc zero) (d ∷ cells) c h e = let f : d ≡ c = cc in subst P f h.0
last?-All P (suc (suc n)) (d ∷ []) c h e = let f : d ≡ c = cc in subst P f h.0
last?-All P (suc (suc n)) (d ∷ d' ∷ cells) c h e = last?-All P (suc n) (d' ∷ cells) c h.1 e

last?-cases :
    (n : ℕ) (cells : List Cell)
    → 1 ≤ n
    → (take n cells ≡ cells) × (ltb (length (take n cells)) (length cells) ≡ false)
      ⊎ ((c : Cell) × (last? (take n cells) ≡ some c)
          × (ltb (length (take n cells)) (length cells) ≡ true)
          × (length (drop n cells) < length cells))
last?-cases zero cells h = absurd (omega arith)
last?-cases (suc n) [] h = inl (refl, refl)
last?-cases (suc zero) (d ∷ []) h = inl (refl, refl)
last?-cases (suc zero) (d ∷ d' ∷ cells) h = inr (d, refl, ground arith, omega arith)
last?-cases (suc (suc n)) (d ∷ []) h = inl (refl, refl)
last?-cases (suc (suc n)) (d ∷ d' ∷ cells) h =
    elim (last?-cases (suc n) (d' ∷ cells) (omega arith)) [
      | inl (e, f) ↦ inl (ap (λ l. d ∷ l) e, ground arith)
      | inr (c, e, f, g) ↦ inr (c, e, ground arith, omega arith)
    ]

-- On to the next page, while there is a cursor.
abbrev follow : Option ℕ → (Option Cursor → Result (List Cell)) → Result (List Cell)
follow none rest = ok []
follow (some i) rest = rest (some (index i))

-- The position after which a page starts.
abbrev pub position : Option ℕ → Option Cursor
position none = none
position (some i) = some (index i)

module _ (namespace : String) (kind : Option String) where
  abbrev pub live : Option ℕ → List Cell → List Cell
  live a cells = keep (is_listed namespace kind a) cells

  live-beyond :
      (a : Option ℕ) (i : ℕ) (cells : List Cell)
      → after a i ≡ true
      → live (some i) cells ≡ keep (beyond i) (live a cells)
  live-beyond a i [] h = refl
  live-beyond none i (c ∷ cells) h = ground (arith, live-beyond none i cells h)
  live-beyond (some j) i (c ∷ cells) h = ground (arith, live-beyond (some j) i cells h)

  live-All_after :
      (a : Option ℕ) (cells : List Cell)
      → All (λ c. after a c.insertion_index ≡ true) (live a cells)
  live-All_after a [] = tt
  live-All_after a (c ∷ cells) = let ih = live-All_after a cells in ground arith

  module _ (s : MemoryStore) (limit : ℕ) where
    abbrev pub query_from : Option Cursor → ListQuery
    query_from cursor = record {
      namespace = namespace;
      kind = kind;
      cursor = cursor;
      limit = limit;
    }

    -- The cells that a reader has collected who calls `list` with the cursor of the page before, from
    -- a first cursor on and while a page has a next one, for at most `fuel` pages.
    unfoldable pub collect : ℕ → Option Cursor → Result (List Cell)
    collect zero cursor = ok []
    collect (suc fuel) cursor = do
      page ← list (query_from cursor) s
      rest ← follow page.next_cursor (collect fuel)
      ok (page.cells ++ rest)

    -- At a page size of at least one `list` answers a cursor with the page after its position.
    pub list-page_after :
        (a : Option ℕ)
        → 1 ≤ limit
        → list (query_from (position a)) s ≡ ok (page_after a (query_from (position a)) s)
    unfolding list
    list-page_after none l = ground arith
    list-page_after (some i) l = ground arith

    -- How a page divides the cells that lie after its position: it is all of them, or its cursor is
    -- the index of its last cell, and what lies after that is the rest.
    pub data Divides (a : Option ℕ) (page : ListPage) : Type 0 where
      final : page.cells ≡ live a s.cells → page.next_cursor ≡ none → Divides a page
      partial :
          (c : Cell)
          → last? page.cells ≡ some c
          → page.next_cursor ≡ some c.insertion_index
          → page.cells ++ live (some c.insertion_index) s.cells ≡ live a s.cells
          → length (live (some c.insertion_index) s.cells) < length (live a s.cells)
          → Divides a page

    pub live-IsRising :
        (a : Option ℕ) → IsOrdered s → IsRising 0 s.next_insertion_index (live a s.cells)
    live-IsRising a o =
        keep-IsRising (is_listed namespace kind a) 0 s.next_insertion_index s.cells o

    pub page_after-Divides :
        (a : Option ℕ)
        → IsOrdered s
        → 1 ≤ limit
        → Divides a (page_after a (query_from (position a)) s)
    unfolding page_after
    page_after-Divides a o l = rw sorted (elim (last?-cases limit (live a s.cells) l) [
      | inl (e, f) ↦ final e (rw f refl)
      | inr (c, e, f, g) ↦
          let rest =
            keep-beyond_last 0 s.next_insertion_index limit (live a s.cells) c (live-IsRising a o)
              e in
          let seen =
            last?-All (λ d. after a d.insertion_index ≡ true) limit (live a s.cells) c
              (live-All_after a s.cells) e in
          let left = live-beyond a c.insertion_index s.cells seen ∙ rest in
          partial c e (rw (f, e) refl) (rw left (take-append-drop limit (live a s.cells)))
            (subst (λ x. length x < length (live a s.cells)) (sym left) g)
    ])
      where
        sorted : sort_cells (live a s.cells) ≡ live a s.cells
        sorted = sort_cells-IsRising 0 s.next_insertion_index (live a s.cells) (live-IsRising a o)

    collect-live :
        (fuel : ℕ) (a : Option ℕ)
        → IsOrdered s
        → 1 ≤ limit
        → length (live a s.cells) < fuel
        → collect fuel (position a) ≡ ok (live a s.cells)
    unfolding collect ◌>>=◌
    collect-live zero a o l h = elim h [ ]
    collect-live (suc fuel) a o l h = rw (list-page_after a l) (elim (page_after-Divides a o l) [
      | final e f ↦ rw (f, e, append-nil) refl
      | partial c e f whole g ↦
          rw (f, collect-live fuel (some c.insertion_index) o l (omega arith), whole) refl
    ])

    pub collect_all :
        (fuel : ℕ)
        → IsOrdered s
        → 1 ≤ limit
        → length (live none s.cells) < fuel
        → collect fuel none ≡ ok (live none s.cells)
    collect_all fuel o l h = collect-live fuel none o l h

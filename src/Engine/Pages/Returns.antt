-- ===== src/Engine/Pages/Returns.antt =====
-- engine/context.ts, `iterateRecordPages` when no one writes.
use governed_learning_loop.Prelude.{
  ℕ, zero, suc, String, ◌+◌, ◌≤◌, ◌<◌, ◌≡◌, refl, sym, ap, ◌∙◌, subst, true, false, Option, none,
  some, List, [], ◌∷◌, ◌++◌, length, take, any, All, arith, append-nil, ltb, ◌==◌, ℕ_eq,
}
use governed_learning_loop.Diagnostics.{Result, ok, ◌>>=◌ as and_then, ◌>>◌ as and_also}
use governed_learning_loop.Json.{Runtime}
use governed_learning_loop.Store.{StoredRecord, Cell, MemoryStore}
use governed_learning_loop.Store.Invariant.{IsOrdered}
use governed_learning_loop.Store.Reading.{Cursor, index, ListPage, page_after, to_stored_record}
use governed_learning_loop.Store.Listing.{
  position, Divides, final, partial, page_after-Divides, list-page_after,
}
use governed_learning_loop.Action.{
  World, Action, ◌>>=◌, ◌>>◌, continue, pure, interfere, store_list,
}
use governed_learning_loop.Engine.{record_namespace, parse_stored_record_at, assert_record_location}
use governed_learning_loop.Engine.Pages.{
  Pulled, kind_query, records_of, parse_records, parse_stored_page_at, assert_locations,
  checked_page, next_pages, pull_pages, iterate_record_pages,
}
use governed_learning_loop.Engine.Pages.Cells.{In, In-left, last?-In}
use governed_learning_loop.Engine.Pages.Covers.{shown, bound, cells_of, listed-after, after-bound}

All-left : (P : Cell → Type 0) (xs ys : List Cell) → All P (xs ++ ys) → All P xs
All-left P [] ys h = tt
All-left P (x ∷ xs) ys h = (h.0, All-left P xs ys h.1)

All-right : (P : Cell → Type 0) (xs ys : List Cell) → All P (xs ++ ys) → All P ys
All-right P [] ys h = h
All-right P (x ∷ xs) ys h = All-right P xs ys h.1

length-take_le : (n : ℕ) (cells : List Cell) → length (take n cells) ≤ n
length-take_le zero cells = omega arith
length-take_le (suc n) [] = omega arith
length-take_le (suc n) (c ∷ cells) = omega (arith, length-take_le n cells)

abbrev AllBelow : ℕ → List ℕ → Type 0
AllBelow n seen = All (λ (j : ℕ). j < n) seen

AllBelow-raise : (m n : ℕ) (seen : List ℕ) → m ≤ n → AllBelow m seen → AllBelow n seen
AllBelow-raise m n [] l h = tt
AllBelow-raise m n (j ∷ seen) l h = (omega arith, AllBelow-raise m n seen l h.1)

not_seen : (m i : ℕ) (seen : List ℕ) → m ≤ i → AllBelow m seen → any (λ j. j == i) seen ≡ false
not_seen m i [] l h = refl
not_seen m i (j ∷ seen) l h = let ih = not_seen m i seen l h.1 in ground arith

-- The world of a reader while no one writes.
abbrev pub quiet : MemoryStore → ℕ → World
quiet s n = record { store = s; others = []; ticks = n }

-- The generator has returned, in the world in which it began, and its pages hold exactly the live
-- cells of the kind after the position.
pub record Returns (kind : String) (s : MemoryStore) (n : ℕ) (a : Option ℕ)
    (r : Result Pulled × World) : Type 0 where
  pub pages : List ListPage
  pub result : r ≡ (ok (record { pages = pages; finished = true }), quiet s n)
  pub all_live : cells_of pages ≡ shown kind a s

module _ (rt : Runtime) (kind : String) where
  -- A cell whose record passes the engine's checks.
  pub record IsAccepted (c : Cell) : Type 0 where
    pub stored : StoredRecord
    pub handed : to_stored_record rt c ≡ some stored
    pub parses : parse_stored_record_at stored ≡ ok stored
    pub located : assert_record_location rt stored kind none ≡ ok tt

  records-accepted :
      (cells : List Cell)
      → All IsAccepted cells
      → (parse_records rt (records_of rt cells) ≡ ok tt)
        × (assert_locations rt kind (records_of rt cells) ≡ ok tt)
        × (length (records_of rt cells) ≡ length cells)
  unfolding and_then and_also
  records-accepted [] h = (refl, refl, refl)
  records-accepted (c ∷ cells) h =
      let (a, b, d) = records-accepted cells h.1 in
      let first = h.0 in rw (first.handed, first.parses, first.located) (a, b, omega arith)

  accepted-checked :
      (limit : ℕ) (page : ListPage)
      → All IsAccepted page.cells
      → length page.cells ≤ limit
      → checked_page rt kind limit page ≡ ok page
  unfolding checked_page parse_stored_page_at and_then and_also
  accepted-checked limit page h l =
      let (a, b, d) = records-accepted page.cells h in
      let short : ltb limit (length (records_of rt page.cells)) ≡ false = ground arith in
      rw (short, a, b) refl

  module _ (limit : ℕ) (positive : 1 ≤ limit) (s : MemoryStore) (n : ℕ) (o : IsOrdered s) where
    cells-IsAccepted :
        (a : Option ℕ) (page : ListPage)
        → Divides record_namespace (some kind) s limit a page
        → All IsAccepted (shown kind a s)
        → All IsAccepted page.cells
    cells-IsAccepted a page (final e f) h = subst (All IsAccepted) (sym e) h
    cells-IsAccepted a page (partial l e f whole g) h =
        All-left IsAccepted page.cells _ (subst (All IsAccepted) (sym whole) h)

    abbrev page_at : Option ℕ → ListPage
    page_at a = page_after a (kind_query rt kind limit (position a)) s

    short_page : (a : Option ℕ) → length (page_at a).cells ≤ limit
    unfolding page_after
    short_page a = length-take_le limit _

    next_pages-Returns :
        (more : List ℕ → Option Cursor → Action Pulled) (seen : List ℕ) (a : Option ℕ)
        (page : ListPage) (next : Option ℕ)
        → page.next_cursor ≡ next
        → AllBelow (bound a) seen
        → All IsAccepted (shown kind a s)
        → Divides record_namespace (some kind) s limit a page
        → ((i : ℕ)
            → All IsAccepted (shown kind (some i) s)
            → AllBelow (i + 1) (i ∷ seen)
            → length (shown kind (some i) s) < length (shown kind a s)
            → Returns kind s n (some i) (more (i ∷ seen) (some (index i)) (quiet s n)))
        → Returns kind s n a (
            (next_pages rt kind limit more seen next >>= λ rest.
            pure (record { pages = page ∷ rest.pages; finished = rest.finished }))
              (quiet s n))
    unfolding next_pages ◌>>=◌ ◌>>◌ continue
    next_pages-Returns more seen a page none e below accepted (final whole f) again = record {
      pages = page ∷ [];
      result = refl;
      all_live = append-nil page.cells ∙ whole;
    }
    next_pages-Returns more seen a page (some i) e below accepted (final whole f) again = cc
    next_pages-Returns more seen a page none e below accepted (partial l h f whole g) again = cc
    next_pages-Returns more seen a page (some i) e below accepted (partial l h f whole g) again =
        let same : l.insertion_index ≡ i = cc in
        let behind =
          listed-after kind a l s (subst (In l) whole (In-left _ (last?-In page.cells h))) in
        let low : bound a ≤ i =
          subst (λ k. bound a ≤ k) same (after-bound a l.insertion_index behind) in
        let rest =
          again i
            (subst (λ k. All IsAccepted (shown kind (some k) s)) same
              (All-right IsAccepted page.cells _ (subst (All IsAccepted) (sym whole) accepted)))
            (omega arith, AllBelow-raise (bound a) (i + 1) seen (omega arith) below)
            (subst (λ k. length (shown kind (some k) s) < length (shown kind a s)) same g) in
        record {
          pages = page ∷ rest.pages;
          result = rw (not_seen (bound a) i seen low below, rest.result) refl;
          all_live =
              ap (λ cells. page.cells ++ cells) rest.all_live
              ∙ subst (λ k. page.cells ++ shown kind (some k) s ≡ shown kind a s) same whole;
        }

    pull-Returns :
        (pulls : ℕ) (seen : List ℕ) (a : Option ℕ)
        → All IsAccepted (shown kind a s)
        → length (shown kind a s) < pulls
        → AllBelow (bound a) seen
        → Returns kind s n a (pull_pages rt kind limit pulls seen (position a) (quiet s n))
    unfolding pull_pages store_list ◌>>=◌ continue interfere
    pull-Returns zero seen a accepted enough below = elim enough [ ]
    pull-Returns (suc pulls) seen a accepted enough below =
        rw
          (
            list-page_after record_namespace (some kind) s limit a positive,
            accepted-checked limit (page_at a) (cells-IsAccepted a (page_at a) divides accepted)
                (short_page a),
          )
          (next_pages-Returns (pull_pages rt kind limit pulls) seen a (page_at a)
            (page_at a).next_cursor refl below accepted divides
            λ i kept below' fewer. pull-Returns pulls (i ∷ seen) (some i) kept (omega arith) below')
      where
        divides : Divides record_namespace (some kind) s limit a (page_at a)
        divides = page_after-Divides record_namespace (some kind) s limit a o positive

    -- While no one writes, in a store with rising insertion indexes whose live cells of the kind pass
    -- the engine's checks, and at a page size of at least one: a consumer of `iterateRecordPages` who
    -- may pull more pages than there are such cells sees the generator return. It throws nothing, so
    -- that no cursor comes twice, leaves the world as it was, and hands out exactly those cells in
    -- insertion order.
    pub iterate-Returns :
        (pulls : ℕ)
        → All IsAccepted (shown kind none s)
        → length (shown kind none s) < pulls
        → Returns kind s n none (iterate_record_pages rt kind limit pulls none (quiet s n))
    unfolding iterate_record_pages
    iterate-Returns pulls accepted enough = pull-Returns pulls [] none accepted enough tt

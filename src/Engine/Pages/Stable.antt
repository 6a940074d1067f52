-- ===== src/Engine/Pages/Stable.antt =====
-- engine/context.ts, `iterateRecordPages` among other writers: the loop over its pages.
use governed_learning_loop.Prelude.{
  ℕ, zero, suc, String, ◌≤◌, ◌≡◌, refl, sym, ◌∙◌, subst, Option, none, some, List, [], ◌∷◌,
  String_eq, any, ℕ_eq, ◌==◌,
}
use governed_learning_loop.Diagnostics.{
  Ensures, returns, Ensures-bind, Ensures-bind', Ensures-call, Ensures-map, throw_if,
}
use governed_learning_loop.Json.{Runtime}
use governed_learning_loop.Store.{MemoryStore}
use governed_learning_loop.Store.Invariant.{IsOrdered}
use governed_learning_loop.Store.Reading.{Cursor, index, ListPage, page_after}
use governed_learning_loop.Action.{
  World, Action, ◌>>=◌, ◌>>◌, continue, lift, pure, interfere, store_list,
}
use governed_learning_loop.Action.Laws.{
  Yields, returned, Yields-bind, Yields-lift, Later, Later-refl, interfere-Later,
}
use governed_learning_loop.Engine.{record_namespace, store_corrupt}
use governed_learning_loop.Engine.Pages.{
  Pulled, kind_query, checked_page, parse_stored_page_at, next_pages, pull_pages,
  iterate_record_pages,
}
use governed_learning_loop.Store.Listing.{
  position, Divides, final, partial, page_after-Divides, list-page_after,
}
use governed_learning_loop.Engine.Pages.Covers.{
  CoversFrom, Later-IsOrdered, last_page-CoversFrom, more_pages-CoversFrom,
}

module _ (rt : Runtime) (kind : String) (limit : ℕ) (positive : 1 ≤ limit) where
  -- What one call of `list` returns, at the moment that it reads.
  record Shown (a : Option ℕ) (start : MemoryStore) (page : ListPage) (w : World) : Type 0 where
    since : Later start w.store
    is_page : page ≡ page_after a (kind_query rt kind limit (position a)) w.store

  list-Shown :
      (a : Option ℕ) (w : World)
      → Yields (Shown a w.store) (store_list (kind_query rt kind limit (position a)) w)
  unfolding store_list
  list-Shown a w =
      rw (list-page_after record_namespace (some kind) (interfere w).store limit a positive)
        (returned _ (interfere w) (record { since = interfere-Later w; is_page = refl }))

  checked-Same : (raw : ListPage) → Ensures (λ page. page ≡ raw) (checked_page rt kind limit raw)
  unfolding checked_page parse_stored_page_at
  checked-Same raw =
      Ensures-bind
        (Ensures-bind' (Ensures-call _) λ _ _.
          Ensures-bind' {Q = λ _. Unit {0}} (Ensures-map (Ensures-call _) λ _ _. tt)
            λ _ _. returns raw refl)
        λ page same. Ensures-bind' (Ensures-call _) λ _ _. returns page same

  -- Past the check of the cursor.
  next-Yields :
      {P : Pulled → World → Type 0} (more : List ℕ → Option Cursor → Action Pulled) (seen : List ℕ)
      (i : ℕ) (u : World)
      → Yields P (more (i ∷ seen) (some (index i)) u)
      → Yields P (next_pages rt kind limit more seen (some i) u)
  unfolding next_pages ◌>>◌
  next-Yields {P} more seen i u again =
      Yields-bind (lift (throw_if (any (λ j. j == i) seen) store_corrupt)) _ u
        (Yields-lift _ u (Ensures-call _))
        λ _ v (_, same). subst (λ z. Yields P (more (i ∷ seen) (some (index i)) z)) (sym same) again

  page-CoversFrom :
      (more : List ℕ → Option Cursor → Action Pulled) (seen : List ℕ) (a : Option ℕ)
      (start : MemoryStore) (page : ListPage) (u : World) (next : Option ℕ)
      → Later start u.store
      → IsOrdered u.store
      → page.next_cursor ≡ next
      → Divides record_namespace (some kind) u.store limit a page
      → ((i : ℕ) → Yields (CoversFrom kind (some i) u.store) (more (i ∷ seen) (some (index i)) u))
      → Yields (CoversFrom kind a start) (
          (next_pages rt kind limit more seen next >>= λ rest.
          pure (record { pages = page ∷ rest.pages; finished = rest.finished }))
            u)
  unfolding next_pages ◌>>=◌ continue
  page-CoversFrom more seen a start page u none since ordered e (final all f) again =
      returned _ u (last_page-CoversFrom kind a start page u since ordered all)
  page-CoversFrom more seen a start page u (some i) since ordered e (final all f) again = cc
  page-CoversFrom more seen a start page u none since ordered e (partial l h f whole g) again = cc
  page-CoversFrom more seen a start page u (some i) since ordered e (partial l h f whole g) again =
      let same : i ≡ l.insertion_index = cc in
      Yields-bind (next_pages rt kind limit more seen (some i)) _ u
        (next-Yields more seen i u (again i))
        λ rest z covers. returned _ z (
          more_pages-CoversFrom kind a start page u since ordered l rest z h whole
            (subst (λ k. CoversFrom kind (some k) u.store rest z) same covers))

  pull-CoversFrom :
      (pulls : ℕ) (seen : List ℕ) (a : Option ℕ) (w : World)
      → IsOrdered w.store
      → Yields (CoversFrom kind a w.store) (pull_pages rt kind limit pulls seen (position a) w)
  unfolding pull_pages
  pull-CoversFrom zero seen a w o = returned _ w (record {
    later = Later-refl w.store;
    rising = tt;
    complete = λ fin id c d g behind h alive. absurd (cc);
  })
  pull-CoversFrom (suc pulls) seen a w o =
      Yields-bind (store_list (kind_query rt kind limit (position a))) _ w (list-Shown a w)
        λ raw v shown.
          Yields-bind (lift (checked_page rt kind limit raw)) _ v
            (Yields-lift _ v (checked-Same raw))
            λ page u (kept, same).
              let since : Later w.store u.store =
                subst (λ (z : World). Later w.store z.store) (sym same) shown.since in
              let is_page : page ≡ page_after a (kind_query rt kind limit (position a)) u.store =
                kept
                ∙ subst
                    (λ (z : World).
                      raw ≡ page_after a (kind_query rt kind limit (position a)) z.store)
                    (sym same) shown.is_page in
              let ordered = Later-IsOrdered since o in
              page-CoversFrom (pull_pages rt kind limit pulls) seen a w.store page u
                page.next_cursor since ordered refl
                (subst (Divides record_namespace (some kind) u.store limit a) (sym is_page) (
                  page_after-Divides record_namespace (some kind) u.store limit a ordered positive))
                λ i. pull-CoversFrom pulls (i ∷ seen) (some i) u ordered

  -- Whatever other writers do between the calls of `list`, at a page size of at least one and in a
  -- store with rising insertion indexes, unless `iterateRecordPages` throws: the cells of the pages
  -- that a consumer has pulled have strictly rising insertion indexes, so that none comes twice,
  -- whether the generator has returned or not; and once it has returned, every key of the kind that
  -- had a cell when the reading began and has a live one at its end is the key of a cell in the pages.
  pub iterate-CoversFrom :
      (pulls : ℕ) (w : World)
      → IsOrdered w.store
      → Yields (CoversFrom kind none w.store) (iterate_record_pages rt kind limit pulls none w)
  unfolding iterate_record_pages
  iterate-CoversFrom pulls w o = pull-CoversFrom pulls [] none w o

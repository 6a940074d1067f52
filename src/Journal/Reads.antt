-- ===== src/Journal/Reads.antt =====
-- engine/context.ts, `loadStoredRecord`, and engine/publication-journal.ts, `loadTransitionStream`,
-- among other writers: the moment of a read.
use governed_learning_loop.Prelude.{ℕ, String, ◌≡◌, sym, subst}
use governed_learning_loop.Diagnostics.{Result, ok, Ensures-call}
use governed_learning_loop.Json.{Runtime}
use governed_learning_loop.Store.{MemoryStore}
use governed_learning_loop.Action.{World, continue, ◌>>=◌, interfere, store_get}
use governed_learning_loop.Action.Laws.{
  Yields, Yields-bind, Yields-map, Yields-lift, Later, interfere-Later,
}
use governed_learning_loop.Engine.{stored_record_in}
use governed_learning_loop.Engine.Load.{load_stored_record}
use governed_learning_loop.Journal.{transition_kind_name, stream_of, stream_in}
use governed_learning_loop.Journal.Append.{load_transition_stream}
use governed_learning_loop.Journal.Legal.{stream_in_of}

-- What a read returns is what the store held at that moment.
pub record ReadAt {ℓ} {A : Type ℓ} (in_store : MemoryStore → Result A) (start : MemoryStore) (a : A)
    (w : World) : Type ℓ where
  pub now : in_store w.store ≡ ok a
  pub since : Later start w.store

module _ (rt : Runtime) where
  pub load_stored-ReadAt :
      (kind id : String) (w : World)
      → Yields (ReadAt (stored_record_in rt kind id) w.store) (load_stored_record rt kind id w)
  unfolding load_stored_record ◌>>=◌ continue store_get stored_record_in
  load_stored-ReadAt kind id w =
      Yields-map
        (Yields-lift _ (interfere w)
          (Ensures-call (stored_record_in rt kind id (interfere w).store)))
        λ a v (now, same). record {
          now = subst (λ u. stored_record_in rt kind id u.store ≡ ok a) (sym same) now;
          since = subst (λ u. Later w.store u.store) (sym same) (interfere-Later w);
        }

  module _ (clock : ℕ → String) (id : String) where
    pub load_stream-ReadAt :
        (w : World)
        → Yields (ReadAt (stream_in rt id) w.store) (load_transition_stream rt clock id w)
    unfolding load_transition_stream
    load_stream-ReadAt w =
        Yields-bind (load_stored_record rt transition_kind_name id) _ w
          (load_stored-ReadAt transition_kind_name id w)
          λ stored v read.
            Yields-map (Yields-lift _ v (Ensures-call (stream_of rt id stored)))
              λ stream u (e, same). record {
                now =
                    subst (λ z. stream_in rt id z.store ≡ ok stream) (sym same)
                      (stream_in_of rt id v.store read.now e);
                since = subst (λ z. Later w.store z.store) (sym same) read.since;
              }

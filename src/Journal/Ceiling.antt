-- ===== src/Journal/Ceiling.antt =====
-- engine/publication-journal.ts, `appendInterventionTransition` on a stream that is as long as
-- loading allows.
use governed_learning_loop.Prelude.{
  ℕ, String, ◌+◌, ◌≡◌, ◌<◌, sym, ◌∙◌, subst, Option, none, some, List, [], ◌∷◌, length,
  length-append, last?, arith,
}
use governed_learning_loop.Diagnostics.{Result, ok, Ensures, throws, of_ensures}
use governed_learning_loop.Json.{Runtime}
use governed_learning_loop.Json.Texts.{IsDurableId}
use governed_learning_loop.Store.{MemoryStore}
use governed_learning_loop.Intervention.{
  InterventionState, InterventionTransition, initial_intervention_state,
}
use governed_learning_loop.Action.{World, Action, ◌>>=◌, lift}
use governed_learning_loop.Action.Laws.{
  Yields, returned, threw, Yields-bind, Moves, Moves-bind, Moves-get, Moves-lift,
}
use governed_learning_loop.Engine.Load.{load_stored_record}
use governed_learning_loop.Journal.{TransitionStream, stream_in, transitions_in, head_at}
use governed_learning_loop.Journal.Append.{load_transition_stream, append_intervention_transition}
use governed_learning_loop.Journal.Legal.{end_state}
use governed_learning_loop.Journal.Loads.{HoldsIn}
use governed_learning_loop.Journal.Entries.{length-map-entry_of}
use governed_learning_loop.Journal.Reads.{load_stream-ReadAt}
use governed_learning_loop.Journal.Solo.{
  alone, HasDurableDigests, Represents, IsReady, acknowledged,
}
use governed_learning_loop.Journal.Grows.{append-Written}
use governed_learning_loop.Journal.Overfull.{
  NeverLoads, long, IsOverfull, IsOverfull-NoStream, IsOverfull-run,
}

module _ (rt : Runtime) (clock : ℕ → String) (id : String) where
  load-Moves : Moves (load_transition_stream rt clock id)
  unfolding load_transition_stream load_stored_record
  load-Moves = Moves-bind _ _ (Moves-bind _ _ (Moves-get rt _) λ _. Moves-lift _) λ _. Moves-lift _

  abbrev reload : InterventionState → Action InterventionTransition
  reload target = load_transition_stream rt clock id >>= λ reloaded.
      lift (head_at target (last? (transitions_in reloaded)))

  no_head :
      (target : InterventionState) (stream : Option TransitionStream) (w : World)
      → stream ≡ none
      → Yields (λ _ _. ⊥) (lift (head_at target (last? (transitions_in stream))) w)
  unfolding head_at
  no_head target stream w e = rw e (threw _ w)

  reload_refused :
      (target : InterventionState) (w : World)
      → IsOverfull rt id w.store
      → Yields (λ _ _. ⊥) (reload target w)
  reload_refused target w full =
      Yields-bind (load_transition_stream rt clock id) _ w (load_stream-ReadAt rt clock id w)
        λ stream v at. no_head target stream v (
          of_ensures (IsOverfull-NoStream rt id w.store at.since.calls full)
            (subst (λ z. stream_in rt id z ≡ ok stream) at.since.runs at.now))

  reload_full :
      (target : InterventionState) (w : World)
      → IsOverfull rt id w.store
      → IsOverfull rt id (reload target w).1.store
  reload_full target w full =
      let later =
        (Moves-bind _ (λ reloaded. lift (head_at target (last? (transitions_in reloaded))))
            load-Moves λ _. Moves-lift _).at
          w in
      subst (IsOverfull rt id) (sym later.runs) (IsOverfull-run rt id w.store later.calls full)

  Yields-throws :
      {r : Result InterventionTransition × World} → Yields (λ _ _. ⊥) r → Ensures (λ _. ⊥) r.0
  Yields-throws (returned a w impossible) = absurd impossible
  Yields-throws (threw e w) = throws e

  holds-IsOverfull :
      (s : MemoryStore) (ts : List InterventionTransition)
      → HoldsIn rt id s ts
      → 1000 < length ts
      → IsOverfull rt id s
  holds-IsOverfull s ts h few = record {
    cell = h.cell;
    found = h.found;
    form =
        subst (NeverLoads rt id) (sym h.form)
          (long (omega (arith, length-map-entry_of rt id ts, few)));
  }

  -- An append to a full stream: it throws, although the store has taken the transition.
  pub record Overflown (r : Result InterventionTransition × World) : Type 0 where
    pub throws : Ensures (λ _. ⊥) r.0
    pub full : IsOverfull rt id r.1.store

  -- On a stream of exactly 1,000 transitions, a legal append without other writers is written and then
  -- throws, and it leaves a stream above the ceiling of loading, which never loads again.
  pub append-Overflown :
      HasDurableDigests rt clock id
      → IsDurableId id
      → (next : InterventionState → Option InterventionState) (evidence_ids : List String)
        (s : MemoryStore) (n : ℕ) (ts : List InterventionTransition)
        (h : Represents rt clock id s ts) (target : InterventionState)
      → next (end_state initial_intervention_state ts) ≡ some target
      → IsReady rt clock id h.cell ts target evidence_ids (clock n)
      → length ts ≡ 1000
      → Overflown (append_intervention_transition rt clock id next evidence_ids (alone s n))
  append-Overflown digests durable next evidence_ids s n ts h target asked ready at_ceiling =
      let done =
        append-Written rt clock id digests durable next evidence_ids s n ts h target asked ready in
      let w : World = alone done.answer.0 (n + 1) in
      let full : IsOverfull rt id w.store =
        holds-IsOverfull done.answer.0 _ done.appended.holds
          (omega (arith, length-append ts (_ ∷ []), at_ceiling)) in
      let ends : append_intervention_transition rt clock id next evidence_ids (alone s n)
          ≡ reload target w =
        done.follows
        ∙ acknowledged rt clock id _ target done.answer done.appended.revision done.appended.wrote
            w in
      subst Overflown (sym ends) (record {
        throws = Yields-throws (reload_refused target w full);
        full = reload_full target w full;
      })

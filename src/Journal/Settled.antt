-- ===== src/Journal/Settled.antt =====
-- engine/publication-journal.ts, `appendInterventionTransition` among other writers.
use governed_learning_loop.Prelude.{
  ℕ, zero, suc, String, ◌≡◌, refl, sym, subst, true, false, Bool, Option, none, some, List, [], ◌∷◌,
  last?, if◌then◌else◌,
}
use governed_learning_loop.Diagnostics.{
  Result, ok, throw, LearningLoopError, Ensures, returns, throws, throw_if,
}
use governed_learning_loop.Json.{Runtime}
use governed_learning_loop.Store.{
  MemoryStore, WriteResult, conflict, created, updated, exists_same, append_call,
}
use governed_learning_loop.Intervention.{
  InterventionState, InterventionTransition, intervention_transition_kind, same_intervention_state,
}
use governed_learning_loop.Action.{World, Action, ◌>>=◌, ◌>>◌, lift, store_call, read_clock}
use governed_learning_loop.Action.Laws.{
  Yields, threw, Yields-bind, Yields-map, Yields-lift, Later, Later-refl, Later-trans, Yields-Moves,
  Moves-clock, Moves-lift, Moves-call,
}
use governed_learning_loop.Engine.{record_key, store_corrupt}
use governed_learning_loop.Journal.{
  TransitionStream, transition_kind_name, stream_in, transitions_in, current_state_of, state_after,
  is_illegal, head_expected, head_at, built_transition, entry_of, revision_in,
}
use governed_learning_loop.Journal.Append.{
  max_append_attempts, load_transition_stream, after_append, append_target, append_attempts,
  append_operation, append_intervention_transition,
}
use governed_learning_loop.Journal.Legal.{same_state_iff}
use governed_learning_loop.Journal.Reads.{ReadAt, load_stream-ReadAt}

module _ (rt : Runtime) (id : String) (next : InterventionState → Option InterventionState) where
  -- An edge that a call asks for: from the current state of the stream that it read at an earlier
  -- moment, to the target that `next` gave for it.
  pub record Asked (start now : MemoryStore) (target : InterventionState) : Type 0 where
    pub earlier : MemoryStore
    pub since : Later start earlier
    pub until : Later earlier now
    pub stream : Option TransitionStream
    pub loaded : stream_in rt id earlier ≡ ok stream
    pub asked : next (current_state_of stream) ≡ some target
    pub legal : is_illegal (intervention_transition_kind (current_state_of stream) target) ≡ false

  -- Why a transition is what the caller asked for: nothing is left to do in the state that it leads
  -- to, or it leads to the target of an edge that the call asked for.
  pub data Landed (start now : MemoryStore) : InterventionState → Type 0 where
    already : {reached : InterventionState} → next reached ≡ none → Landed start now reached
    moved : {reached : InterventionState} → Asked start now reached → Landed start now reached

  -- A moment of the call at which the stream was sound and the transition was its head.
  pub record SettledIn (start end : MemoryStore) (t : InterventionTransition) : Type 0 where
    pub moment : MemoryStore
    pub since : Later start moment
    pub until : Later moment end
    pub stream : Option TransitionStream
    pub loaded : stream_in rt id moment ≡ ok stream
    pub is_head : last? (transitions_in stream) ≡ some t
    pub landed : Landed start moment t.to

  head_expected-Head :
      (head : Option InterventionTransition) → Ensures (λ t. head ≡ some t) (head_expected head)
  unfolding head_expected
  head_expected-Head none = throws _
  head_expected-Head (some t) = returns t refl

  head_at-Head :
      (target : InterventionState) (head : Option InterventionTransition)
      → Ensures (λ t. (head ≡ some t) × (t.to ≡ target)) (head_at target head)
  unfolding head_at
  head_at-Head target none = throws _
  head_at-Head target (some t) = split (same_intervention_state t.to target) refl
    where
      split :
          (b : Bool)
          → same_intervention_state t.to target ≡ b
          → Ensures
              (λ u. (some t ≡ some u) × (u.to ≡ target))
              (if b then ok t else throw store_corrupt)
      split true e = returns t (refl, (same_state_iff t.to target).0 e)
      split false e = throws _

  throw_if-False :
      (refused : Bool) (e : LearningLoopError) → Ensures (λ _. refused ≡ false) (throw_if refused e)
  throw_if-False true e = throws e
  throw_if-False false e = returns tt refl

  module _ (clock : ℕ → String) (start : MemoryStore) where
    abbrev Settles : Result InterventionTransition × World → Type 0
    Settles r = Yields (λ t v. SettledIn start v.store t) r

    -- From a read whose head is the transition.
    settle :
        {stream : Option TransitionStream} {read : World}
        → ReadAt (stream_in rt id) start stream read
        → (t : InterventionTransition) (v : World) → v ≡ read
        → last? (transitions_in stream) ≡ some t
        → Landed start read.store t.to
        → SettledIn start v.store t
    settle {stream} {read} at t v same head landed = record {
      moment = read.store;
      since = at.since;
      until = subst (λ u. Later read.store u.store) (sym same) (Later-refl read.store);
      stream = stream;
      loaded = at.now;
      is_head = head;
      landed = landed;
    }

    Asked-Later :
        {now after : MemoryStore} (target : InterventionState)
        → Asked start now target
        → Later now after
        → Asked start after target
    Asked-Later target a later = record {
      earlier = a.earlier;
      since = a.since;
      until = Later-trans a.until later;
      stream = a.stream;
      loaded = a.loaded;
      asked = a.asked;
      legal = a.legal;
    }

    reload-Settles :
        (target : InterventionState) (w : World)
        → Asked start w.store target
        → Settles (
            (load_transition_stream rt clock id >>= λ stream.
            lift (head_at target (last? (transitions_in stream))))
              w)
    reload-Settles target w a =
        Yields-bind (load_transition_stream rt clock id) _ w (load_stream-ReadAt rt clock id w)
          λ stream v at.
            Yields-map (Yields-lift _ v (head_at-Head target (last? (transitions_in stream))))
              λ t u ((head, reached), same).
                settle
                  (record {
                    now = at.now;
                    since = Later-trans (Later-trans a.since a.until) at.since;
                  })
                  t u same head
                  (moved
                    (subst (Asked start v.store) (sym reached) (Asked-Later target a at.since)))

    after-Settles :
        (retry : Action InterventionTransition) (target : InterventionState) (result : WriteResult)
        (w : World)
        → ((v : World) → Later start v.store → Settles (retry v))
        → Asked start w.store target
        → Settles (after_append rt clock retry id target result w)
    unfolding after_append
    after-Settles retry target (conflict revision) w again a = again w (Later-trans a.since a.until)
    after-Settles retry target (created n) w again a = reload-Settles target w a
    after-Settles retry target (updated n) w again a = reload-Settles target w a
    after-Settles retry target (exists_same n) w again a = reload-Settles target w a

    target-Settles :
        (retry : Action InterventionTransition) (evidence_ids : List String)
        (stream : Option TransitionStream) (target : Option InterventionState) (w : World)
        → ((v : World) → Later start v.store → Settles (retry v))
        → ReadAt (stream_in rt id) start stream w
        → next (current_state_of stream) ≡ target
        → Settles (append_target rt clock retry id evidence_ids stream target w)
    unfolding append_target current_state_of ◌>>◌
    target-Settles retry evidence_ids stream none w again at asked =
        Yields-map (Yields-lift _ w (head_expected-Head (last? (transitions_in stream))))
          λ t v (head, same).
            settle at t v same head (already (subst (λ h. next (state_after h) ≡ none) head asked))
    target-Settles retry evidence_ids stream (some target) w again at asked =
        Yields-bind
          (lift (
            throw_if (is_illegal (intervention_transition_kind (current_state_of stream) target))
              store_corrupt))
          _ w (Yields-lift _ w (throw_if-False _ store_corrupt))
          λ _ v (legal, same).
            let since : Later w.store v.store =
              subst (λ u. Later w.store u.store) (sym same) (Later-refl w.store) in
            Yields-Moves w.store (read_clock clock) _ v (Moves-clock clock) since
              λ occurred_at v1 since1.
                Yields-Moves w.store
                  (lift (
                    built_transition rt id (current_state_of stream) target evidence_ids
                      occurred_at))
                  _ v1 (Moves-lift _) since1
                  λ transition v2 since2.
                    Yields-Moves w.store
                      (store_call (
                        append_call (record_key transition_kind_name id) (revision_in stream)
                          (entry_of rt transition ∷ []) (append_operation rt clock id transition)))
                      _ v2 (Moves-call _) since2
                      λ result v3 since3. after-Settles retry target result v3 again (record {
                        earlier = w.store;
                        since = at.since;
                        until = since3;
                        stream = stream;
                        loaded = at.now;
                        asked = asked;
                        legal = legal;
                      })

    attempts-Settles :
        (evidence_ids : List String) (left : ℕ) (w : World)
        → Later start w.store
        → Settles (append_attempts rt clock id next evidence_ids left w)
    unfolding append_attempts
    attempts-Settles evidence_ids zero w since = threw _ w
    attempts-Settles evidence_ids (suc left) w since =
        Yields-bind (load_transition_stream rt clock id) _ w (load_stream-ReadAt rt clock id w)
          λ stream v at.
            target-Settles (append_attempts rt clock id next evidence_ids left) evidence_ids stream
              (next (current_state_of stream)) v (attempts-Settles evidence_ids left)
              (record { now = at.now; since = Later-trans since at.since }) refl

-- Whatever other writers do between the calls, if `appendInterventionTransition` returns a
-- transition, there was a moment of the call at which the intervention's stream loaded with that
-- transition as its head, and the transition is what was asked for: `next` has nothing left to do in
-- the state that it leads to, or it leads by a legal edge to the target that `next` gave for the
-- current state of the stream that the call had read before. The store at the end comes from the one at that moment, and that from the first, by calls alone.
pub append_intervention_transition-SettledIn :
    (rt : Runtime) (clock : ℕ → String) (id : String)
    (next : InterventionState → Option InterventionState) (evidence_ids : List String) (w : World)
    → Yields
        (λ t v. SettledIn rt id next w.store v.store t)
        (append_intervention_transition rt clock id next evidence_ids w)
unfolding append_intervention_transition
append_intervention_transition-SettledIn rt clock id next evidence_ids w =
    attempts-Settles rt id next clock w.store evidence_ids max_append_attempts w
      (Later-refl w.store)

-- ===== src/Journal/Grows.antt =====
-- engine/publication-journal.ts, `appendInterventionTransition` when no other writer interferes, as an
-- operation on lists of transitions.
use governed_learning_loop.Prelude.{
  ℕ, String, ◌+◌, ◌≡◌, ◌≢◌, ◌≤◌, refl, sym, ap, ◌∙◌, false, Option, none, some, List, [], ◌∷◌, ◌++◌,
  length, length-append, arith,
}
use governed_learning_loop.Diagnostics.{ok}
use governed_learning_loop.Json.{Runtime}
use governed_learning_loop.Json.Texts.{IsDurableId}
use governed_learning_loop.Store.{Cell, MemoryStore, WriteResult, append, call}
use governed_learning_loop.Intervention.{
  InterventionState, InterventionTransition, initial_intervention_state,
  intervention_transition_kind,
}
use governed_learning_loop.Intervention.RoundTrip.{IsWellFormed}
use governed_learning_loop.Action.{Action, continue, ◌>>=◌, ◌>>◌, interfere, store_call, read_clock}
use governed_learning_loop.Journal.{
  TransitionStream, stream_in, revision_in, current_state_of, entry_of, built_transition,
  is_illegal,
}
use governed_learning_loop.Journal.Append.{
  append_operation, after_append, append_target, append_attempts, append_intervention_transition,
}
use governed_learning_loop.Journal.Legal.{IsHistory, end_state, end_state-initial}
use governed_learning_loop.Journal.Loads.{HoldsIn, HoldsIn-stream_in}
use governed_learning_loop.Journal.Refines.{
  stream_key, CellOf, absent, present, stream_for, Appended, append-Appended, IsHistory-snoc,
}
use governed_learning_loop.Journal.Solo.{
  alone, transition_for, HasDurableDigests, Represents, IsReady, load_alone, Represents-load,
  transition_for-IsWellFormed, built-transition_for, acknowledged, reload_alone,
}

module _ (rt : Runtime) (clock : ℕ → String) (id : String) where
  -- The transitions after an append.
  Represents-append :
      (t : MemoryStore) (ts : List InterventionTransition) (u : InterventionTransition)
      → HoldsIn rt id t (ts ++ u ∷ [])
      → IsHistory rt id initial_intervention_state (ts ++ u ∷ [])
      → length ts + 1 ≤ 1000
      → Represents rt clock id t (ts ++ u ∷ [])
  Represents-append t ts u holds history room = record {
    cell = some holds.cell;
    found = holds.found;
    holds = present holds.form;
    history = history;
    few = omega (arith, length-append ts (u ∷ []), room);
  }

  written :
      HasDurableDigests rt clock id
      → id ≢ ""
      → (retry : Action InterventionTransition) (n : ℕ) (ts : List InterventionTransition)
        (u : InterventionTransition) (target : InterventionState) (r : MemoryStore × WriteResult)
      → Appended rt id (ts ++ u ∷ []) r
      → IsHistory rt id initial_intervention_state (ts ++ u ∷ [])
      → length ts + 1 ≤ 1000
      → u.to ≡ target
      → after_append rt clock retry id target r.1 (alone r.0 n) ≡ (ok u, alone r.0 n)
  written digests ne retry n ts u target r a history room to =
      acknowledged rt clock id retry target r a.revision a.wrote (alone r.0 n)
      ∙ reload_alone rt clock id target u ts r.0 n a.holds.cell.revision to (
          HoldsIn-stream_in rt id digests.nonempty ne r.0 (ts ++ u ∷ []) a.holds history
            (omega (arith, length-append ts (u ∷ []), room)))

  -- The branch of `append_target` that writes, with what it is given.
  target_alone :
      (retry : Action InterventionTransition) (evidence_ids : List String)
      (stream : Option TransitionStream) (target : InterventionState) (u : InterventionTransition)
      (s : MemoryStore) (n : ℕ)
      → is_illegal (intervention_transition_kind (current_state_of stream) target) ≡ false
      → built_transition rt id (current_state_of stream) target evidence_ids (clock n) ≡ ok u
      → append_target rt clock retry id evidence_ids stream (some target) (alone s n)
        ≡ after_append rt clock retry id target
            (append
              (stream_key rt id)
              (revision_in stream)
              (entry_of rt u ∷ [])
              (append_operation rt clock id u)
              s).1
            (alone
              (append
                (stream_key rt id)
                (revision_in stream)
                (entry_of rt u ∷ [])
                (append_operation rt clock id u)
                s).0
              (n + 1))
  unfolding append_target ◌>>=◌ ◌>>◌ continue read_clock store_call interfere call
  target_alone retry evidence_ids stream target u s n legal built = rw (legal, built) refl

  current_of :
      (o : Option Cell) (ts : List InterventionTransition)
      → CellOf rt id o ts
      → current_state_of (stream_for rt id o ts) ≡ end_state initial_intervention_state ts
  unfolding current_state_of end_state
  current_of none ts absent = refl
  current_of (some c) ts (present form) = sym (end_state-initial ts)

  enter :
      (next : InterventionState → Option InterventionState) (evidence_ids : List String)
      (s : MemoryStore) (n : ℕ) {stream : Option TransitionStream} {target : InterventionState}
      → stream_in rt id s ≡ ok stream
      → next (current_state_of stream) ≡ some target
      → append_intervention_transition rt clock id next evidence_ids (alone s n)
        ≡ append_target rt clock
            (append_attempts rt clock id next evidence_ids 7)
            id
            evidence_ids
            stream
            (some target)
            (alone s n)
  unfolding append_intervention_transition append_attempts ◌>>=◌ continue
  enter next evidence_ids s n h asked = rw (load_alone rt clock id s n h, asked) refl

  -- What an append has done when the store answers.
  pub record Written (next : InterventionState → Option InterventionState)
      (evidence_ids : List String) (s : MemoryStore) (n : ℕ) (ts : List InterventionTransition)
      (target : InterventionState) (u : InterventionTransition) : Type 0 where
    pub answer : MemoryStore × WriteResult
    pub appended : Appended rt id (ts ++ u ∷ []) answer
    pub history : IsHistory rt id initial_intervention_state (ts ++ u ∷ [])
    pub lands : u.to ≡ target
    pub follows :
        append_intervention_transition rt clock id next evidence_ids (alone s n)
        ≡ after_append rt clock
            (append_attempts rt clock id next evidence_ids 7)
            id
            target
            answer.1
            (alone answer.0 (n + 1))

  -- Up to the store's answer, an append makes the transition and writes it at the stream's revision.
  pub append-Written :
      HasDurableDigests rt clock id
      → IsDurableId id
      → (next : InterventionState → Option InterventionState) (evidence_ids : List String)
        (s : MemoryStore) (n : ℕ) (ts : List InterventionTransition)
        (h : Represents rt clock id s ts) (target : InterventionState)
      → next (end_state initial_intervention_state ts) ≡ some target
      → IsReady rt clock id h.cell ts target evidence_ids (clock n)
      → Written next evidence_ids s n ts target (
          transition_for rt id
            (end_state initial_intervention_state ts)
            target
            evidence_ids
            (clock n))
  unfolding transition_for
  append-Written digests durable next evidence_ids s n ts h target asked ready =
      let stream : Option TransitionStream = stream_for rt id h.cell ts in
      let from : InterventionState = end_state initial_intervention_state ts in
      let u : InterventionTransition = transition_for rt id from target evidence_ids (clock n) in
      let w : IsWellFormed rt u =
        transition_for-IsWellFormed rt clock id digests durable from target evidence_ids (clock n)
          ready.legal ready.references ready.occurs ready.dated in
      let current : current_state_of stream ≡ from = current_of h.cell ts h.holds in
      let legal : is_illegal (intervention_transition_kind (current_state_of stream) target)
          ≡ false =
        ap is_illegal (ap (λ x. intervention_transition_kind x target) current ∙ ready.legal.1) in
      let built : built_transition rt id (current_state_of stream) target evidence_ids (clock n)
          ≡ ok u =
        ap (λ x. built_transition rt id x target evidence_ids (clock n)) current
        ∙ built-transition_for rt clock id from target evidence_ids (clock n) w in
      record {
        answer =
            append (stream_key rt id) (revision_in stream) (entry_of rt u ∷ [])
              (append_operation rt clock id u) s;
        appended =
            append-Appended rt id s h.cell ts u (append_operation rt clock id u) h.found h.holds
              ready.new_operation ready.new_id;
        history = IsHistory-snoc rt id initial_intervention_state ts u h.history refl refl w;
        lands = refl;
        follows =
            enter next evidence_ids s n
              (Represents-load rt clock id digests durable.nonempty s ts h)
              (ap next current ∙ asked)
            ∙ target_alone (append_attempts rt clock id next evidence_ids 7) evidence_ids stream
                target u s n legal built;
      }

  -- What an append leaves: the transition that it returns, at the end of those that there were.
  pub record Grown (next : InterventionState → Option InterventionState)
      (evidence_ids : List String) (s : MemoryStore) (n : ℕ) (ts : List InterventionTransition)
      (t : InterventionTransition) : Type 0 where
    pub after : MemoryStore
    pub result :
        append_intervention_transition rt clock id next evidence_ids (alone s n)
        ≡ (ok t, alone after (n + 1))
    pub represents : Represents rt clock id after (ts ++ t ∷ [])

  -- If no other writer interferes, `appendInterventionTransition` implements appending to a list: for
  -- a store that represents the transitions `ts`, and a target that `next` gives for the state in
  -- which they end, reached by a legal edge with evidence, with room in the stream, it returns the
  -- transition to that target and leaves a store that represents `ts` with it at the end. Digests are
  -- taken not to be empty, and the transition's id and operation to be new.
  pub append-Grown :
      HasDurableDigests rt clock id
      → IsDurableId id
      → (next : InterventionState → Option InterventionState) (evidence_ids : List String)
        (s : MemoryStore) (n : ℕ) (ts : List InterventionTransition)
        (h : Represents rt clock id s ts) (target : InterventionState)
      → next (end_state initial_intervention_state ts) ≡ some target
      → IsReady rt clock id h.cell ts target evidence_ids (clock n)
      → length ts + 1 ≤ 1000
      → Grown next evidence_ids s n ts (
          transition_for rt id
            (end_state initial_intervention_state ts)
            target
            evidence_ids
            (clock n))
  append-Grown digests durable next evidence_ids s n ts h target asked ready room =
      let done = append-Written digests durable next evidence_ids s n ts h target asked ready in
      record {
        after = done.answer.0;
        result =
            done.follows
            ∙ written digests durable.nonempty (append_attempts rt clock id next evidence_ids 7)
                (n + 1) ts _ target done.answer done.appended done.history room done.lands;
        represents = Represents-append done.answer.0 ts _ done.appended.holds done.history room;
      }

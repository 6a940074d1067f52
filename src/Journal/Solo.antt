-- ===== src/Journal/Solo.antt =====
-- engine/publication-journal.ts, `appendInterventionTransition` when no other writer interferes: the
-- steps of one attempt, and the relation between a store and the transitions that it represents.
use governed_learning_loop.Prelude.{
  ℕ, String, ◌≡◌, ◌≢◌, ◌≤◌, ◌⊎◌, inl, inr, refl, true, false, Option, none, some, List, [], ◌∷◌,
  ◌++◌, map, length, any, last?, last?-append,
}
use governed_learning_loop.Diagnostics.{ok}
use governed_learning_loop.Json.{Runtime, ◌⋯◌, sha256_hex_of_canonical_json}
use governed_learning_loop.Json.Texts.{IsDurableId}
use governed_learning_loop.Store.{Cell, MemoryStore, WriteResult, get_cell, has_id}
use governed_learning_loop.Store.Retries.{Wrote}
use governed_learning_loop.Intervention.{
  InterventionState, InterventionTransition, TransitionKind, fail, initial_intervention_state,
  intervention_transition_kind,
}
use governed_learning_loop.Intervention.Parse.{
  intervention_transition_id_for, intervention_transition_digest,
}
use governed_learning_loop.Intervention.RoundTrip.{
  IsWellFormed, IsReferences, parse-transition_json,
}
use governed_learning_loop.Action.{World, Action, continue, ◌>>=◌, lift, interfere, store_get}
use governed_learning_loop.Engine.{stored_record_in}
use governed_learning_loop.Engine.Load.{load_stored_record}
use governed_learning_loop.Journal.{
  TransitionStream, stream_in, transitions_in, entry_of, built_transition, head_at,
}
use governed_learning_loop.Journal.Append.{append_operation, load_transition_stream, after_append}
use governed_learning_loop.Journal.Legal.{IsHistory, end_state, same_state_iff, stream_in_parts}
use governed_learning_loop.Journal.Loads.{HoldsIn-stream_in, nothing_in}
use governed_learning_loop.Journal.Refines.{
  stream_key, CellOf, absent, present, last_operation, stream_for,
}

-- The world of a writer that is alone.
abbrev pub alone : MemoryStore → ℕ → World
alone s n = record { store = s; others = []; ticks = n }

-- The transition that an append writes.
unfoldable pub transition_for :
    Runtime
    → String
    → InterventionState
    → InterventionState
    → List String
    → String
    → InterventionTransition
transition_for rt id from to evidence_ids at =
    let content : InterventionTransition = record {
      id = "";
      intervention_id = id;
      from = from;
      to = to;
      evidence_ids = evidence_ids;
      occurred_at = at;
    } in
    record content { id = intervention_transition_id_for rt content }

module _ (rt : Runtime) (clock : ℕ → String) (id : String) where
  pub load_alone :
      (s : MemoryStore) (n : ℕ) {stream : Option TransitionStream}
      → stream_in rt id s ≡ ok stream
      → load_transition_stream rt clock id (alone s n) ≡ (ok stream, alone s n)
  unfolding load_transition_stream load_stored_record ◌>>=◌ continue store_get interfere
      stored_record_in
  load_alone s n h = let (stored, found, read) = stream_in_parts rt id s h in rw (found, read) refl

  -- The store holds these transitions for the intervention, and they are a history of at most 1,000.
  pub record Represents (s : MemoryStore) (ts : List InterventionTransition) : Type 0 where
    pub cell : Option Cell
    pub found : get_cell (stream_key rt id) s.cells ≡ cell
    pub holds : CellOf rt id cell ts
    pub history : IsHistory rt id initial_intervention_state ts
    pub few : length ts ≤ 1000

  -- What is taken from SHA-256: a digest is not empty, and with the prefix of an id short enough.
  pub record HasDurableDigests : Type 0 where
    pub nonempty : (x : String) → rt.sha256 x ≢ ""
    pub durable : (x : String) → IsDurableId ("transition-" ⋯ rt.sha256 x)

  pub Represents-load :
      HasDurableDigests
      → id ≢ ""
      → (s : MemoryStore) (ts : List InterventionTransition) (h : Represents s ts)
      → stream_in rt id s ≡ ok (stream_for rt id h.cell ts)
  Represents-load digests ne s ts h = by_cell h.cell h.found ts h.holds h.history h.few
    where
      by_cell :
          (o : Option Cell)
          → get_cell (stream_key rt id) s.cells ≡ o
          → (ts : List InterventionTransition) → CellOf rt id o ts
          → IsHistory rt id initial_intervention_state ts
          → length ts ≤ 1000
          → stream_in rt id s ≡ ok (stream_for rt id o ts)
      by_cell none found ts absent history few = nothing_in rt id s found
      by_cell (some c) found ts (present form) history few =
          HoldsIn-stream_in rt id digests.nonempty ne s ts
            (record { cell = c; found = found; form = form }) history few

  -- What an append of a transition to `target` takes to succeed: a legal edge, with evidence unless
  -- it is a failure, a date, and an id and an operation that it does not have yet.
  pub record IsReady (cell : Option Cell) (ts : List InterventionTransition)
      (target : InterventionState) (evidence_ids : List String) (at : String) : Type 0 where
    pub legal :
        (k : TransitionKind) × (intervention_transition_kind
            (end_state initial_intervention_state ts)
            target
          ≡ some k)
        × ((k ≡ fail) ⊎ (evidence_ids ≢ []))
    pub references : IsReferences evidence_ids
    pub occurs : at ≢ ""
    pub dated : rt.is_timestamp at ≡ true
    pub new_id :
        any (has_id (map (entry_of rt) ts)) (
          entry_of rt
            (transition_for rt id (end_state initial_intervention_state ts) target evidence_ids at)
          ∷ [])
        ≡ false
    pub new_operation :
        last_operation rt id cell
        ≢ some (
            append_operation rt clock id (
              transition_for rt id
                (end_state initial_intervention_state ts)
                target
                evidence_ids
                at))

  pub transition_for-IsWellFormed :
      HasDurableDigests
      → IsDurableId id
      → (from target : InterventionState) (evidence_ids : List String) (at : String)
      → (k : TransitionKind) × (intervention_transition_kind from target ≡ some k)
        × ((k ≡ fail) ⊎ (evidence_ids ≢ []))
      → IsReferences evidence_ids
      → at ≢ ""
      → rt.is_timestamp at ≡ true
      → IsWellFormed rt (transition_for rt id from target evidence_ids at)
  unfolding transition_for intervention_transition_id_for intervention_transition_digest
      sha256_hex_of_canonical_json
  transition_for-IsWellFormed digests durable from target evidence_ids at legal references occurs
        dated =
      record {
        id_durable = digests.durable _;
        intervention_durable = durable;
        references = references;
        occurs = occurs;
        dated = dated;
        legal = legal;
        addressed = refl;
      }

  pub built-transition_for :
      (from target : InterventionState) (evidence_ids : List String) (at : String)
      → IsWellFormed rt (transition_for rt id from target evidence_ids at)
      → built_transition rt id from target evidence_ids at
        ≡ ok (transition_for rt id from target evidence_ids at)
  unfolding built_transition transition_for
  built-transition_for from target evidence_ids at w =
      parse-transition_json rt (transition_for rt id from target evidence_ids at) w

  pub acknowledged :
      (retry : Action InterventionTransition) (target : InterventionState)
      (r : MemoryStore × WriteResult) (n : ℕ)
      → Wrote r n
      → (w : World)
      → after_append rt clock retry id target r.1 w
        ≡ (load_transition_stream rt clock id >>= λ reloaded.
              lift (head_at target (last? (transitions_in reloaded))))
            w
  unfolding after_append
  acknowledged retry target r n (inl e) w = rw e refl
  acknowledged retry target r n (inr e) w = rw e refl

  head_back :
      (target : InterventionState) (t : InterventionTransition)
      → t.to ≡ target
      → head_at target (some t) ≡ ok t
  unfolding head_at
  head_back target t e = rw ((same_state_iff t.to target).1 e) refl

  pub reload_alone :
      (target : InterventionState) (t : InterventionTransition) (ts : List InterventionTransition)
      (s : MemoryStore) (n revision : ℕ)
      → t.to ≡ target
      → stream_in rt id s ≡ ok (some (record { transitions = ts ++ t ∷ []; revision = revision }))
      → (load_transition_stream rt clock id >>= λ reloaded.
            lift (head_at target (last? (transitions_in reloaded))))
          (alone s n)
        ≡ (ok t, alone s n)
  unfolding ◌>>=◌ continue
  reload_alone target t ts s n revision e h =
      rw (load_alone s n h, last?-append ts t, head_back target t e) refl

-- ===== src/Journal/Legal.antt =====
-- What a loaded stream of transitions satisfies, in whatever state the store is.
use governed_learning_loop.Prelude.{
  String, Bool, ◌&&◌, ◌≡◌, ◌↔◌, refl, sym, subst, true, false, Option, none, some, List, [], ◌∷◌,
  last?, arith, String_eq, ==_iff,
}
use governed_learning_loop.Diagnostics.{
  Result, ok, ◌>>=◌, >>=-eq-ok, Ensures, returns, throws, Ensures-bind, Ensures-call, Ensures-guard,
}
use governed_learning_loop.Json.{Json, Runtime}
use governed_learning_loop.Store.{StoredRecord, StreamEntry, MemoryStore}
use governed_learning_loop.Intervention.{
  InterventionState, InterventionTransition, initial_intervention_state, same_intervention_state,
  publication_beq_iff, authorization_beq_iff, activation_beq_iff, validation_beq_iff,
}
use governed_learning_loop.Intervention.History.{Chain, here, next}
use governed_learning_loop.Intervention.Parse.{parse_intervention_transition}
use governed_learning_loop.Intervention.RoundTrip.{IsWellFormed, parse-IsWellFormed}
use governed_learning_loop.Engine.{store_corrupt, stored_record_in}
use governed_learning_loop.Journal.{
  TransitionStream, transition_kind_name, corrupt_if_thrown, is_out_of_place, transitions_of,
  transition_entries, stream_of, stream_in, transitions_in, state_after, current_state_of,
}

all_true_iff :
    (a b c d : Bool)
    → ((a && (b && (c && d))) ≡ true) ↔ ((a ≡ true) × (b ≡ true) × (c ≡ true) × (d ≡ true))
all_true_iff a b c d = ground arith

state_of_fields :
    (s t : InterventionState)
    → (s.publication ≡ t.publication)
    → (s.authorization ≡ t.authorization)
    → (s.activation ≡ t.activation)
    → (s.validation ≡ t.validation)
    → s ≡ t
state_of_fields s t p a c v i = record {
  publication = p i;
  authorization = a i;
  activation = c i;
  validation = v i;
}

same_state-≡ : (s t : InterventionState) → same_intervention_state s t ≡ true → s ≡ t
unfolding same_intervention_state
same_state-≡ s t e =
    let (p, a, c, v) = (all_true_iff _ _ _ _).0 e in
    state_of_fields s t ((publication_beq_iff s.publication t.publication).0 p)
      ((authorization_beq_iff s.authorization t.authorization).0 a)
      ((activation_beq_iff s.activation t.activation).0 c)
      ((validation_beq_iff s.validation t.validation).0 v)

same_state_refl : (s : InterventionState) → same_intervention_state s s ≡ true
unfolding same_intervention_state
same_state_refl s = (all_true_iff _ _ _ _).1 (
  (publication_beq_iff s.publication s.publication).1 refl,
  (authorization_beq_iff s.authorization s.authorization).1 refl,
  (activation_beq_iff s.activation s.activation).1 refl,
  (validation_beq_iff s.validation s.validation).1 refl,
)

pub same_state_iff : (s t : InterventionState) → (same_intervention_state s t ≡ true) ↔ (s ≡ t)
same_state_iff s t =
    (same_state-≡ s t, λ e. subst (λ u. same_intervention_state s u ≡ true) e (same_state_refl s))

-- The state in which transitions end.
unfoldable pub end_state : InterventionState → List InterventionTransition → InterventionState
end_state from [] = from
end_state from (t ∷ ts) = end_state t.to ts

pub end_state-last? :
    (from : InterventionState) (t : InterventionTransition) (ts : List InterventionTransition)
    → end_state from (t ∷ ts) ≡ state_after (last? (t ∷ ts))
unfolding end_state
end_state-last? from t [] = refl
end_state-last? from t (u ∷ ts) = end_state-last? t.to u ts

pub end_state-initial :
    (ts : List InterventionTransition)
    → end_state initial_intervention_state ts ≡ state_after (last? ts)
unfolding end_state
end_state-initial [] = refl
end_state-initial (t ∷ ts) = end_state-last? initial_intervention_state t ts

module _ (rt : Runtime) (id : String) where
  -- Well-formed transitions of one intervention, each from the state in which the one before ends.
  abbrev pub IsHistory : InterventionState → List InterventionTransition → Type 0
  IsHistory from [] = Unit
  IsHistory from (t ∷ ts) =
      (t.intervention_id ≡ id) × (t.from ≡ from) × IsWellFormed rt t × IsHistory t.to ts

  pub IsHistory-Chain :
      {s : InterventionState} (from : InterventionState) (ts : List InterventionTransition)
      → IsHistory from ts
      → Chain s from
      → Chain s (end_state from ts)
  unfolding end_state
  IsHistory-Chain from [] h c = c
  IsHistory-Chain {s} from (t ∷ ts) (i, f, w, h) c =
      IsHistory-Chain t.to ts h (next (subst (λ x. Chain s x) (sym f) c) w.legal.1)

  corrupt_if_thrown-IsWellFormed :
      (j : Json)
      → Ensures (IsWellFormed rt) (corrupt_if_thrown (parse_intervention_transition rt j))
  corrupt_if_thrown-IsWellFormed j =
      pass (parse_intervention_transition rt j) (parse-IsWellFormed rt j)
    where
      pass :
          (r : Result InterventionTransition)
          → Ensures (IsWellFormed rt) r
          → Ensures (IsWellFormed rt) (corrupt_if_thrown r)
      pass r (returns t w) = returns t w
      pass r (throws e) = throws _

  in_place :
      (from : InterventionState) (entry : StreamEntry) (t : InterventionTransition)
      → is_out_of_place rt id from entry t ≡ false
      → (t.intervention_id ≡ id) × (t.from ≡ from)
  unfolding is_out_of_place
  in_place from entry t h = ground (arith, ==_iff t.intervention_id id, same_state_iff t.from from)

  transitions_of-IsHistory :
      (from : InterventionState) (entries : List StreamEntry)
      → Ensures (IsHistory from) (transitions_of rt id from entries)
  unfolding transitions_of
  transitions_of-IsHistory from [] = returns [] tt
  transitions_of-IsHistory from (entry ∷ entries) =
      Ensures-bind (corrupt_if_thrown-IsWellFormed entry.value) λ t w.
        Ensures-guard _ store_corrupt λ e.
          Ensures-bind (transitions_of-IsHistory t.to entries) λ ts h.
            let (same_id, linked) = in_place from entry t e in
            returns (t ∷ ts) (same_id, linked, w, h)

  transition_entries-IsHistory :
      (value : Json)
      → Ensures (IsHistory initial_intervention_state) (transition_entries rt value id)
  unfolding transition_entries
  transition_entries-IsHistory value =
      Ensures-bind (Ensures-call _)
        λ entries _. transitions_of-IsHistory initial_intervention_state entries

  -- A stream as it is loaded: its transitions, and that they lead from the initial state to the
  -- current one by edges of the legal-transition table.
  pub record IsLegal (stream : Option TransitionStream) : Type 0 where
    pub history : IsHistory initial_intervention_state (transitions_in stream)
    pub chain : Chain initial_intervention_state (current_state_of stream)

  pub IsHistory-IsLegal :
      (stream : Option TransitionStream)
      → IsHistory initial_intervention_state (transitions_in stream)
      → IsLegal stream
  unfolding current_state_of
  IsHistory-IsLegal stream h = record {
    history = h;
    chain =
        subst (λ x. Chain initial_intervention_state x) (end_state-initial (transitions_in stream))
          (IsHistory-Chain initial_intervention_state (transitions_in stream) h here);
  }

  pub stream_of-IsLegal : (stored : Option StoredRecord) → Ensures IsLegal (stream_of rt id stored)
  unfolding stream_of
  stream_of-IsLegal none = returns none (IsHistory-IsLegal none tt)
  stream_of-IsLegal (some stored) =
      Ensures-bind (transition_entries-IsHistory stored.value)
        λ ts h. returns _ (IsHistory-IsLegal _ h)

  -- In whatever state the store is, a stream of transitions that loads at all consists of well-formed
  -- transitions of that intervention, each from the state in which the one before it ends, and leads
  -- by edges of the legal-transition table from the initial state to the current one.
  pub stream_in-IsLegal : (s : MemoryStore) → Ensures IsLegal (stream_in rt id s)
  unfolding stream_in
  stream_in-IsLegal s = Ensures-bind (Ensures-call _) λ stored _. stream_of-IsLegal stored

  pub stream_in_of :
      (s : MemoryStore) {stored : Option StoredRecord} {stream : Option TransitionStream}
      → stored_record_in rt transition_kind_name id s ≡ ok stored
      → stream_of rt id stored ≡ ok stream
      → stream_in rt id s ≡ ok stream
  unfolding stream_in ◌>>=◌
  stream_in_of s p q = rw (p, q) refl

  pub stream_in_parts :
      (s : MemoryStore) {stream : Option TransitionStream}
      → stream_in rt id s ≡ ok stream
      → (stored : Option StoredRecord) × (stored_record_in rt transition_kind_name id s ≡ ok stored)
        × (stream_of rt id stored ≡ ok stream)
  unfolding stream_in
  stream_in_parts s h = >>=-eq-ok _ _ h

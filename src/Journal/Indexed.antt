-- ===== src/Journal/Indexed.antt =====
-- engine/publication-journal.ts, `loadEvaluationIndex`: what an index that loads holds.
use governed_learning_loop.Prelude.{
  suc, String, ◌≡◌, ◌≤◌, refl, ap, Option, none, some, List, [], ◌∷◌, length, All, String_eq, arith,
}
use governed_learning_loop.Diagnostics.{
  Result, ok, throw, Ensures, returns, throws, Ensures-bind, Ensures-call, Ensures-guard,
}
use governed_learning_loop.Json.{Json, Runtime}
use governed_learning_loop.Json.Texts.{Ensures-bounded}
use governed_learning_loop.Store.{StoredRecord, StreamEntry, MemoryStore}
use governed_learning_loop.Engine.{store_corrupt}
use governed_learning_loop.Publication.Bound.{same_text}
use governed_learning_loop.Journal.{parse_stream_entry_at}
use governed_learning_loop.Journal.Bound.{parts_false}
use governed_learning_loop.Journal.Evaluations.{
  InterventionEvaluationEntry, EvaluationIndex, entries_in, is_misbound, evaluation_entries,
  index_of, index_in, max_evaluations_per_intervention,
}

module _ (rt : Runtime) (id : String) where
  -- The entries of a stream that bind evaluations of the intervention, in their order.
  pub data Entered : List StreamEntry → List InterventionEvaluationEntry → Type 0 where
    nothing : Entered [] []
    entered :
        {entry : StreamEntry} {value : InterventionEvaluationEntry} {raw : List StreamEntry}
        {values : List InterventionEvaluationEntry}
        → entry.id ≡ value.evaluation_id
        → value.intervention_id ≡ id
        → Entered raw values
        → Entered (entry ∷ raw) (value ∷ values)

  entries-Entered : (raw : List StreamEntry) → Ensures (Entered raw) (evaluation_entries rt id raw)
  unfolding evaluation_entries is_misbound
  entries-Entered [] = returns [] nothing
  entries-Entered (entry ∷ raw) = Ensures-bind (Ensures-call _) λ value _.
      Ensures-guard _ store_corrupt λ e. Ensures-bind (entries-Entered raw) λ values h.
        let (first, rest) = parts_false _ _ e in
        returns (value ∷ values) (entered (same_text first) (same_text (parts_false _ _ rest).1) h)

  Entered-length :
      {raw : List StreamEntry} {values : List InterventionEvaluationEntry}
      → Entered raw values
      → length values ≡ length raw
  Entered-length nothing = refl
  Entered-length (entered e i h) = ap suc (Entered-length h)

  Entered-All :
      {raw : List StreamEntry} {values : List InterventionEvaluationEntry}
      → Entered raw values
      → All (λ (v : InterventionEvaluationEntry). v.intervention_id ≡ id) values
  Entered-All nothing = tt
  Entered-All (entered e i h) = (i, Entered-All h)

  -- What an index holds: at most 1,000 evaluations, all of the intervention.
  pub record IsBoundIndex (index : Option EvaluationIndex) : Type 0 where
    pub few : length (entries_in index) ≤ 1000
    pub own : All (λ (v : InterventionEvaluationEntry). v.intervention_id ≡ id) (entries_in index)

  index_of-IsBoundIndex :
      (stored : Option StoredRecord) → Ensures IsBoundIndex (index_of rt id stored)
  unfolding index_of
  index_of-IsBoundIndex none = returns none (record { few = omega arith; own = tt })
  index_of-IsBoundIndex (some stored) =
      Ensures-bind (Ensures-bounded max_evaluations_per_intervention stored.value read_back)
        λ raw (_, few). Ensures-bind (entries-Entered raw) λ values h.
          returns _ (record { few = omega (arith, Entered-length h, few); own = Entered-All h })
    where
      any_entry : (r : Result StreamEntry) → Ensures (λ _. Unit {0}) r
      any_entry (ok a) = returns a tt
      any_entry (throw e) = throws e

      read_back : (j : Json) → Ensures (λ _. Unit {0}) (parse_stream_entry_at j)
      read_back j = any_entry (parse_stream_entry_at j)

  -- In whatever state the store is, an index of evaluations that loads holds at most 1,000 of them,
  -- all of the intervention that it is the index of.
  pub index_in-IsBoundIndex : (s : MemoryStore) → Ensures IsBoundIndex (index_in rt id s)
  unfolding index_in
  index_in-IsBoundIndex s = Ensures-bind (Ensures-call _) λ stored _. index_of-IsBoundIndex stored

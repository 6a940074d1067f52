-- ===== src/Intervention/RoundTrip.antt =====
-- Reading back the JSON form of a transition: the parser of records/intervention.ts accepts exactly
-- the transitions that are well formed.
use governed_learning_loop.Prelude.{
  String, ◌≡◌, ◌≢◌, ◌≤◌, ◌⊎◌, inl, inr, refl, true, false, not, List, [], ◌∷◌, some, length, map,
  arith, All, Bool, Option, none, ltb, String_eq, eq_iff,
}
use governed_learning_loop.Diagnostics.{
  ok, ◌>>=◌, ◌>>◌, throw_if, Ensures, returns, throws, Ensures-bind, Ensures-call, Ensures-guard,
  Ensures-map, Ensures-bind', failure,
}
use governed_learning_loop.Json.{Json, str, arr, Runtime, elems}
use governed_learning_loop.Json.Parse.{
  invalid, parse_durable_id, parse_bounded_array, parse_canonical_timestamp_at, parse_one_of,
  traverse,
}
use governed_learning_loop.Json.Texts.{
  Ensures-req, IsDurableId, parse_durable_id_ok, parse_durable_id_sound, elems-of_list,
  traverse_durable_sound, traverse_durable_ok,
}
use governed_learning_loop.Intervention.{
  InterventionState, InterventionTransition, TransitionKind, fail, is_empty, Publication,
  Authorization, Activation, Validation, unpublished, not_required, inactive, untested,
  intervention_state_invalid_reasons, intervention_transition_kind,
}
use governed_learning_loop.Intervention.Table.{IsSound, invalid_reasons_iff, kind_iff}
use governed_learning_loop.Intervention.Parse.{
  publication_states, authorization_states, activation_states, validation_states, publication_text,
  authorization_text, activation_text, validation_text, parse_intervention_state_at, has_duplicate,
  parse_reference_ids_at, state_content, strings, intervention_transition_id_for, check_kind,
  parse_intervention_transition, transition_json,
}

publication_back :
    (p : Publication) → parse_one_of publication_states (str (publication_text p)) ≡ ok p
unfolding parse_one_of
publication_back unpublished = refl
publication_back _ = refl

authorization_back :
    (a : Authorization) → parse_one_of authorization_states (str (authorization_text a)) ≡ ok a
unfolding parse_one_of
authorization_back not_required = refl
authorization_back _ = refl

activation_back : (a : Activation) → parse_one_of activation_states (str (activation_text a)) ≡ ok a
unfolding parse_one_of
activation_back inactive = refl
activation_back _ = refl

validation_back : (v : Validation) → parse_one_of validation_states (str (validation_text v)) ≡ ok v
unfolding parse_one_of
validation_back untested = refl
validation_back _ = refl

not-not : {b : Bool} → not b ≡ false → b ≡ true
not-not {b} h = ground arith

pub state_back :
    (s : InterventionState) → IsSound s → parse_intervention_state_at (state_content s) ≡ ok s
unfolding parse_intervention_state_at state_content ◌>>=◌ ◌>>◌
state_back s h = rw (
  publication_back s.publication,
  authorization_back s.authorization,
  activation_back s.activation,
  validation_back s.validation,
  (invalid_reasons_iff s).1 h,
)

pub record IsReferences (ids : List String) : Type 0 where
  pub durable : All IsDurableId ids
  pub few : length ids ≤ 1000
  pub distinct : has_duplicate [] ids ≡ false

length-map_str : (ids : List String) → length (map str ids) ≡ length ids
length-map_str [] = refl
length-map_str (s ∷ ids) = omega (arith, length-map_str ids)

references_back :
    (ids : List String) → IsReferences ids → parse_reference_ids_at (strings ids) ≡ ok ids
unfolding parse_reference_ids_at parse_bounded_array ◌>>=◌ ◌>>◌
references_back ids h = rw (
  elems-of_list (map str ids),
  length-map_str ids,
  few_enough,
  traverse_durable_ok ids h.durable,
  h.distinct,
)
  where
    few_enough : ltb 1000 (length ids) ≡ false
    few_enough = ground (arith, h.few)

checked-IsSound :
    (r : InterventionState)
    → Ensures IsSound
        (throw_if (not (is_empty (intervention_state_invalid_reasons r))) invalid >> ok r)
checked-IsSound r =
    Ensures-guard _ invalid {k = ok r} (λ e. returns r ((invalid_reasons_iff r).0 (not-not e)))

state-IsSound : (j : Json) → Ensures IsSound (parse_intervention_state_at j)
unfolding parse_intervention_state_at
state-IsSound j = Ensures-bind (Ensures-call _) λ fs _. Ensures-bind (Ensures-call _) λ p _.
    Ensures-bind (Ensures-call _) λ a _.
      Ensures-bind (Ensures-call _) λ c _. Ensures-bind (Ensures-call _) λ v _. checked-IsSound _

bounded_elems :
    (xs : List Json)
    → ltb 1000 (length xs) ≡ false
    → Ensures (λ ids. All IsDurableId ids × (length ids ≤ 1000)) (traverse parse_durable_id xs)
bounded_elems xs e =
    Ensures-map (Ensures-call _)
      λ ids h. let (durable, same) = traverse_durable_sound xs ids h in (durable, ground arith)

bounded_sound :
    (j : Json)
    → Ensures
        (λ ids. All IsDurableId ids × (length ids ≤ 1000))
        (parse_bounded_array parse_durable_id 1000 j)
unfolding parse_bounded_array
bounded_sound (arr xs) = Ensures-guard _ invalid (λ e. bounded_elems (elems xs) e)
bounded_sound _ = throws invalid

IsReferences-sound : (j : Json) → Ensures IsReferences (parse_reference_ids_at j)
unfolding parse_reference_ids_at
IsReferences-sound j = Ensures-bind (bounded_sound j) λ ids b.
    Ensures-guard _ invalid λ e. returns ids (record { durable = b.0; few = b.1; distinct = e })

durable_sound : (j : Json) → Ensures IsDurableId (parse_durable_id j)
durable_sound j = Ensures-map (Ensures-call _) λ s h. (parse_durable_id_sound j s h).1

module _ (rt : Runtime) where
  -- What the parser requires of a transition, and promises of it.
  pub record IsWellFormed (t : InterventionTransition) : Type 0 where
    pub id_durable : IsDurableId t.id
    pub intervention_durable : IsDurableId t.intervention_id
    pub references : IsReferences t.evidence_ids
    pub occurs : t.occurred_at ≢ ""
    pub dated : rt.is_timestamp t.occurred_at ≡ true
    pub legal :
        (k : TransitionKind) × (intervention_transition_kind t.from t.to ≡ some k)
        × ((k ≡ fail) ⊎ (t.evidence_ids ≢ []))
    pub addressed : t.id ≡ intervention_transition_id_for rt t

  timestamp_eq :
      (j : Json) (s : String)
      → parse_canonical_timestamp_at rt j ≡ ok s
      → (s ≢ "") × (rt.is_timestamp s ≡ true)
  unfolding parse_canonical_timestamp_at ◌>>=◌ ◌>>◌
  timestamp_eq (str r) s h = ground (arith, eq_iff r "", eq_iff s "")
  timestamp_eq _ s h = cc

  timestamp_back :
      (s : String)
      → s ≢ ""
      → rt.is_timestamp s ≡ true
      → parse_canonical_timestamp_at rt (str s) ≡ ok s
  unfolding parse_canonical_timestamp_at ◌>>=◌ ◌>>◌
  timestamp_back s e h = ground (arith, eq_iff s "")

  timestamp_sound :
      (j : Json)
      → Ensures (λ s. (s ≢ "") × (rt.is_timestamp s ≡ true)) (parse_canonical_timestamp_at rt j)
  unfolding parse_canonical_timestamp_at ◌>>=◌ ◌>>◌
  timestamp_sound j = Ensures-map (Ensures-call _) (timestamp_eq j)

  kind_checked :
      (k : TransitionKind) (ids : List String)
      → (k ≡ fail) ⊎ (ids ≢ [])
      → check_kind rt (some k) ids ≡ ok tt
  kind_checked k ids h = ground arith

  -- Parsing the JSON form of a well-formed transition gives the transition back.
  pub parse-transition_json :
      (t : InterventionTransition)
      → IsWellFormed t
      → parse_intervention_transition rt (transition_json t) ≡ ok t
  unfolding parse_intervention_transition transition_json ◌>>=◌ ◌>>◌
  parse-transition_json t h =
      let (k, legal, evident) = h.legal in
      let (sound, _, sound') = (kind_iff t.from t.to k).0 legal in
      rw (
        parse_durable_id_ok t.intervention_id h.intervention_durable,
        state_back t.from sound,
        state_back t.to sound',
        references_back t.evidence_ids h.references,
        timestamp_back t.occurred_at h.occurs h.dated,
        legal,
        kind_checked k t.evidence_ids evident,
        parse_durable_id_ok t.id h.id_durable,
        (eq_iff t.id (intervention_transition_id_for rt t)).1 h.addressed,
      )

  kind_evident :
      (o : Option TransitionKind) (ids : List String)
      → Ensures
          (λ _. (k : TransitionKind) × (o ≡ some k) × ((k ≡ fail) ⊎ (ids ≢ [])))
          (check_kind rt o ids)
  kind_evident none ids = throws invalid
  kind_evident (some fail) ids = returns tt (fail, refl, inl refl)
  kind_evident (some k) [] = throws invalid
  kind_evident (some k) (i ∷ ids) = returns tt (k, refl, inr (λ e. cc))

  -- Whatever JSON value the parser accepts, the transition that it returns is well formed: its pair
  -- of states is in the legal-transition table, only a `fail` edge has no evidence, its evidence ids
  -- are distinct and at most 1,000, and its id is that of its content digest.
  pub parse-IsWellFormed : (j : Json) → Ensures IsWellFormed (parse_intervention_transition rt j)
  unfolding parse_intervention_transition
  parse-IsWellFormed j = Ensures-bind (Ensures-call _) λ fs _. Ensures-bind' (Ensures-call _) λ _ _.
      Ensures-bind (Ensures-req fs "interventionId" durable_sound) λ i di.
        Ensures-bind (Ensures-req fs "from" state-IsSound) λ from _.
          Ensures-bind (Ensures-req fs "to" state-IsSound) λ to _.
            Ensures-bind (Ensures-req fs "evidenceIds" IsReferences-sound) λ ids r.
              Ensures-bind (Ensures-req fs "occurredAt" timestamp_sound) λ at d.
                Ensures-bind' (kind_evident _ ids) λ _ k.
                  Ensures-bind (Ensures-req fs "id" durable_sound) λ id did.
                    Ensures-guard _ (failure "schema.corrupt") λ e. returns _ (record {
                      id_durable = did;
                      intervention_durable = di;
                      references = r;
                      occurs = d.0;
                      dated = d.1;
                      legal = k;
                      addressed = (eq_iff _ _).0 (not-not e);
                    })

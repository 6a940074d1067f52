-- ===== src/Intervention/Table.antt =====
-- What the legal-transition table of records/intervention.ts permits, stated without its tests.
use governed_learning_loop.Prelude.{
  inl, inr, false, ◌==◌, ◌!=◌, Option, ◌≡◌, ◌≢◌, ◌↔◌, ◌⊎◌, true, some, arith, Bool, refl, none,
  if◌then◌else◌,
}
use governed_learning_loop.Intervention.{
  InterventionState, TransitionKind, authorize, publish, fail, disable, rollback, validate,
  unpublished, published, failed, rolled_back, not_required, pending, authorized, inactive, active,
  disabled, untested, intervention_state_invalid_reasons, intervention_transition_kind,
  Validation_eq, Authorization_eq, activate_kind, validate_allowed, authorize_allowed, is_empty,
  Authorization, Publication,
}

-- The structural invariant of one state.
pub record IsSound (s : InterventionState) : Type 0 where
  pub active_published : s.activation ≡ active → s.publication ≡ published
  pub pending_unpublished : s.authorization ≡ pending → s.publication ≡ unpublished
  pub pending_inactive : s.authorization ≡ pending → s.activation ≡ inactive
  pub rolled_back_disabled : s.publication ≡ rolled_back → s.activation ≡ disabled

abbrev pub Permitted : Authorization → Type 0
Permitted a = (a ≡ authorized) ⊎ (a ≡ not_required)

abbrev pub Applied : Publication → Type 0
Applied p = (p ≡ published) ⊎ (p ≡ failed)

-- What each kind of edge requires of the state it leaves, and the state it lands on.
abbrev pub Edge : TransitionKind → InterventionState → InterventionState → Type 0
Edge authorize s t = (s.authorization ≡ pending) × (t ≡ record s { authorization = authorized })
Edge publish s t =
    Permitted s.authorization
    × ((s.publication ≡ unpublished) ⊎ (s.publication ≡ failed))
    × (s.activation ≡ inactive)
    × (t.activation ≢ disabled)
    × (t ≡ record s { publication = published; activation = t.activation })
Edge fail s t =
    Permitted s.authorization
    × (s.publication ≡ unpublished)
    × (s.activation ≡ inactive)
    × (t ≡ record s { publication = failed })
Edge disable s t =
    Permitted s.authorization
    × Applied s.publication
    × (s.activation ≢ disabled)
    × (t ≡ record s { activation = disabled })
Edge rollback s t =
    Permitted s.authorization
    × Applied s.publication
    × (t ≡ record s { publication = rolled_back; activation = disabled })
Edge validate s t =
    (s.authorization ≢ pending)
    × (t.validation ≢ untested)
    × (t.validation ≢ s.validation)
    × (t ≡ record s { validation = t.validation })

pub invalid_reasons_iff :
    (s : InterventionState) → (is_empty (intervention_state_invalid_reasons s) ≡ true) ↔ IsSound s
unfolding intervention_state_invalid_reasons
invalid_reasons_iff s = ground arith

Edge-IsSound : (k : TransitionKind) (s t : InterventionState) → IsSound s → Edge k s t → IsSound t
Edge-IsSound authorize s t h e = ground arith
Edge-IsSound publish s t h e = ground arith
Edge-IsSound fail s t h e = ground arith
Edge-IsSound disable s t h e = ground arith
Edge-IsSound rollback s t h e = ground arith
Edge-IsSound validate s t h e = ground arith

kind-IsSound :
    (s t : InterventionState) (k : TransitionKind)
    → intervention_transition_kind s t ≡ some k
    → IsSound s × IsSound t
unfolding intervention_transition_kind
kind-IsSound s t k h = ground (arith, (invalid_reasons_iff s).0, (invalid_reasons_iff t).0)

ladder_range :
    (refused a b c d : Bool)
    → let k =
        if refused
        then none
        else if a
        then some publish
        else if b
        then some fail
        else if c
        then some disable
        else if d
        then some rollback
        else none in
      (k ≢ some authorize) × (k ≢ some validate)
ladder_range refused a b c d = ground arith

module _ (s t : InterventionState) (v : s.validation ≡ t.validation) where
  publish-Edge : activate_kind s t ≡ some publish → Edge publish s t
  unfolding activate_kind
  publish-Edge h = ground arith

  fail-Edge : activate_kind s t ≡ some fail → Edge fail s t
  unfolding activate_kind
  fail-Edge h = ground arith

  disable-Edge : activate_kind s t ≡ some disable → Edge disable s t
  unfolding activate_kind
  disable-Edge h = ground arith

  rollback-Edge : activate_kind s t ≡ some rollback → Edge rollback s t
  unfolding activate_kind
  rollback-Edge h = ground arith

  authorize-Edge : activate_kind s t ≡ some authorize → Edge authorize s t
  unfolding activate_kind
  authorize-Edge h = absurd ((ladder_range _ _ _ _ _).0 h)

  validate-Edge : activate_kind s t ≡ some validate → Edge validate s t
  unfolding activate_kind
  validate-Edge h = absurd ((ladder_range _ _ _ _ _).1 h)

  activate_kind-Edge : (k : TransitionKind) → activate_kind s t ≡ some k → Edge k s t
  activate_kind-Edge authorize h = authorize-Edge h
  activate_kind-Edge publish h = publish-Edge h
  activate_kind-Edge fail h = fail-Edge h
  activate_kind-Edge disable h = disable-Edge h
  activate_kind-Edge rollback h = rollback-Edge h
  activate_kind-Edge validate h = validate-Edge h

activate_kind_complete :
    (s t : InterventionState) (k : TransitionKind)
    → k ≢ authorize
    → k ≢ validate
    → IsSound s
    → Edge k s t
    → activate_kind s t ≡ some k
unfolding activate_kind
activate_kind_complete s t authorize na nv i e = absurd (na refl)
activate_kind_complete s t publish na nv i e = ground arith
activate_kind_complete s t fail na nv i e = ground arith
activate_kind_complete s t disable na nv i e = ground arith
activate_kind_complete s t rollback na nv i e = ground arith
activate_kind_complete s t validate na nv i e = absurd (nv refl)

validate_allowed-Edge :
    (s t : InterventionState)
    → (s.validation != t.validation) ≡ true
    → validate_allowed s t ≡ true
    → Edge validate s t
unfolding validate_allowed
validate_allowed-Edge s t v h = ground arith

authorize_allowed-Edge :
    (s t : InterventionState)
    → (s.validation != t.validation) ≡ false
    → (s.authorization == pending) ≡ true
    → authorize_allowed s t ≡ true
    → Edge authorize s t
unfolding authorize_allowed
authorize_allowed-Edge s t v p h = ground arith

same_validation :
    (s t : InterventionState) → (s.validation != t.validation) ≡ false → s.validation ≡ t.validation
same_validation s t h = ground arith

choose_cases :
    (unsound moved validates starts authorizes : Bool) (k : TransitionKind)
    (rest : Option TransitionKind)
    → (if unsound
        then none
        else if moved
        then (if validates then some validate else none)
        else if starts
        then (if authorizes then some authorize else none)
        else rest)
      ≡ some k
    → ((k ≡ validate) × (moved ≡ true) × (validates ≡ true))
      ⊎ (((k ≡ authorize) × (moved ≡ false) × (starts ≡ true) × (authorizes ≡ true))
          ⊎ ((moved ≡ false) × (rest ≡ some k)))
choose_cases unsound moved validates starts authorizes k rest h = ground arith

kind_Edge :
    (s t : InterventionState) (k : TransitionKind)
    → intervention_transition_kind s t ≡ some k
    → Edge k s t
unfolding intervention_transition_kind
kind_Edge s t k h =
    elim (choose_cases _ (s.validation != t.validation) (validate_allowed s t)
      (s.authorization == pending) (authorize_allowed s t) k (activate_kind s t) h) [
        | inl (e, v, a) ↦ rw e (validate_allowed-Edge s t v a)
        | inr (inl (e, v, p, a)) ↦ rw e (authorize_allowed-Edge s t v p a)
        | inr (inr (v, e)) ↦ activate_kind-Edge s t (same_validation s t v) k e
      ]

kind_complete :
    (s t : InterventionState) (k : TransitionKind)
    → IsSound s
    → Edge k s t
    → intervention_transition_kind s t ≡ some k
unfolding intervention_transition_kind validate_allowed authorize_allowed
kind_complete s t authorize i e =
    ground
      (arith, (invalid_reasons_iff s).1, (invalid_reasons_iff t).1, Edge-IsSound authorize s t i e)
kind_complete s t validate i e =
    ground
      (arith, (invalid_reasons_iff s).1, (invalid_reasons_iff t).1, Edge-IsSound validate s t i e)
kind_complete s t publish i e = ground (
  arith,
  (invalid_reasons_iff s).1,
  (invalid_reasons_iff t).1,
  Edge-IsSound publish s t i e,
  activate_kind_complete s t publish,
)
kind_complete s t fail i e = ground (
  arith,
  (invalid_reasons_iff s).1,
  (invalid_reasons_iff t).1,
  Edge-IsSound fail s t i e,
  activate_kind_complete s t fail,
)
kind_complete s t disable i e = ground (
  arith,
  (invalid_reasons_iff s).1,
  (invalid_reasons_iff t).1,
  Edge-IsSound disable s t i e,
  activate_kind_complete s t disable,
)
kind_complete s t rollback i e = ground (
  arith,
  (invalid_reasons_iff s).1,
  (invalid_reasons_iff t).1,
  Edge-IsSound rollback s t i e,
  activate_kind_complete s t rollback,
)

-- The table gives a kind to a pair of states exactly when the first is structurally sound and the
-- pair is an edge of that kind; the state that the edge lands on is then sound as well.
pub kind_iff :
    (s t : InterventionState) (k : TransitionKind)
    → (intervention_transition_kind s t ≡ some k) ↔ (IsSound s × Edge k s t × IsSound t)
kind_iff s t k = (
  λ h. ((kind-IsSound s t k h).0, kind_Edge s t k h, (kind-IsSound s t k h).1),
  λ e. kind_complete s t k e.0 e.1,
)

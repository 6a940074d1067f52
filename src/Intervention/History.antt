-- ===== src/Intervention/History.antt =====
-- Histories of one intervention: what holds of every state that legal transitions reach.
use governed_learning_loop.Prelude.{◌≡◌, ◌≢◌, ◌⊎◌, some, arith}
use governed_learning_loop.Intervention.{
  InterventionState, TransitionKind, authorize, publish, fail, disable, rollback, validate, pending,
  authorized, unpublished, published, rolled_back, active, disabled, untested,
  initial_intervention_state, intervention_transition_kind,
}
use governed_learning_loop.Intervention.Table.{IsSound, Edge, kind_iff}

-- The states that a chain of legal transitions joins.
pub data Chain (s : InterventionState) : InterventionState → Type 0 where
  here : Chain s s
  next :
      {t u : InterventionState} {k : TransitionKind}
      → Chain s t
      → intervention_transition_kind t u ≡ some k
      → Chain s u

-- What the four dimensions of a reached state say of one another.
pub record IsLawful (s : InterventionState) : Type 0 where
  pub sound : IsSound s
  pub pending_or_authorized : (s.authorization ≡ pending) ⊎ (s.authorization ≡ authorized)
  pub published_authorized : s.publication ≢ unpublished → s.authorization ≡ authorized
  pub active_published : s.activation ≡ active → s.publication ≡ published
  pub active_authorized : s.activation ≡ active → s.authorization ≡ authorized
  pub validated_authorized : s.validation ≢ untested → s.authorization ≡ authorized

Edge-IsLawful :
    (k : TransitionKind) (s t : InterventionState)
    → IsSound t
    → Edge k s t
    → IsLawful s
    → IsLawful t
Edge-IsLawful authorize s t i e h = ground arith
Edge-IsLawful publish s t i e h = ground arith
Edge-IsLawful fail s t i e h = ground arith
Edge-IsLawful disable s t i e h = ground arith
Edge-IsLawful rollback s t i e h = ground arith
Edge-IsLawful validate s t i e h = ground arith

initial-IsLawful : IsLawful initial_intervention_state
initial-IsLawful = ground arith

-- Every state that legal transitions reach from the initial one is structurally sound; its
-- authorization is pending or authorized and never another value; and it is authorized whenever it
-- has left `unpublished`, is active (it is then published too), or carries any verdict.
pub Chain-IsLawful : {s : InterventionState} → Chain initial_intervention_state s → IsLawful s
Chain-IsLawful here = initial-IsLawful
Chain-IsLawful (next {t} {u} {k} r e) =
    let (_, edge, sound) = (kind_iff t u k).0 e in Edge-IsLawful k t u sound edge (Chain-IsLawful r)

-- What no legal transition undoes.
pub record Keeps (s t : InterventionState) : Type 0 where
  pub stays_disabled : s.activation ≡ disabled → t.activation ≡ disabled
  pub stays_rolled_back : s.publication ≡ rolled_back → t.publication ≡ rolled_back
  pub stays_published_or_rolled_back :
      s.publication ≡ published → (t.publication ≡ published) ⊎ (t.publication ≡ rolled_back)
  pub stays_authorized : s.authorization ≢ pending → t.authorization ≡ s.authorization
  pub stays_tested : s.validation ≢ untested → t.validation ≢ untested

Edge-Keeps : (k : TransitionKind) (s t u : InterventionState) → Edge k t u → Keeps s t → Keeps s u
Edge-Keeps authorize s t u e h = ground arith
Edge-Keeps publish s t u e h = ground arith
Edge-Keeps fail s t u e h = ground arith
Edge-Keeps disable s t u e h = ground arith
Edge-Keeps rollback s t u e h = ground arith
Edge-Keeps validate s t u e h = ground arith

Keeps-refl : (s : InterventionState) → Keeps s s
Keeps-refl s = ground arith

-- Along legal transitions a disabled intervention stays disabled, a rolled-back one rolled back, a
-- published one published until it is rolled back, a decided authorization as it is, and a tested
-- intervention never returns to `untested`.
pub Chain-Keeps : {s t : InterventionState} → Chain s t → Keeps s t
Chain-Keeps {s} here = Keeps-refl s
Chain-Keeps {s} (next {t} {u} {k} r e) = Edge-Keeps k s t u ((kind_iff t u k).0 e).1 (Chain-Keeps r)

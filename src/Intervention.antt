-- ===== src/Intervention.antt =====
-- records/intervention.ts: the four dimensions of an intervention's state, the structural
-- invariant, the legal-transition table, and the parser's rules for a transition.
pub mod Table
pub mod Parse
pub mod RoundTrip
pub mod Tests
pub mod History
use governed_learning_loop.Prelude.{
  ℕ, String, ◌≡◌, ◌↔◌, Bool, true, false, ◌&&◌, ◌||◌, not, Option, none, some, List, [], ◌∷◌, ◌++◌,
  arith, if◌then◌else◌, length, nat_eq, Eq, ◌==◌, ◌!=◌,
}
use governed_learning_loop.Diagnostics.{Diagnostic, diagnostic}

pub data Publication : Type 0 where
  unpublished published failed rolled_back : Publication

pub data Authorization : Type 0 where
  not_required pending authorized revoked expired : Authorization

pub data Activation : Type 0 where
  inactive active disabled : Activation

pub data Validation : Type 0 where
  untested invalid inconclusive improved regressed : Validation

abbrev publication_code : Publication → ℕ
publication_code unpublished = 0
publication_code published = 1
publication_code failed = 2
publication_code rolled_back = 3

abbrev authorization_code : Authorization → ℕ
authorization_code not_required = 0
authorization_code pending = 1
authorization_code authorized = 2
authorization_code revoked = 3
authorization_code expired = 4

abbrev activation_code : Activation → ℕ
activation_code inactive = 0
activation_code active = 1
activation_code disabled = 2

abbrev validation_code : Validation → ℕ
validation_code untested = 0
validation_code invalid = 1
validation_code inconclusive = 2
validation_code improved = 3
validation_code regressed = 4

abbrev publication_beq : Publication → Publication → Bool
publication_beq a b = nat_eq (publication_code a) (publication_code b)

abbrev authorization_beq : Authorization → Authorization → Bool
authorization_beq a b = nat_eq (authorization_code a) (authorization_code b)

abbrev activation_beq : Activation → Activation → Bool
activation_beq a b = nat_eq (activation_code a) (activation_code b)

abbrev validation_beq : Validation → Validation → Bool
validation_beq a b = nat_eq (validation_code a) (validation_code b)

pub publication_beq_iff : (a b : Publication) → (publication_beq a b ≡ true) ↔ (a ≡ b)
publication_beq_iff a b = ground arith

pub authorization_beq_iff : (a b : Authorization) → (authorization_beq a b ≡ true) ↔ (a ≡ b)
authorization_beq_iff a b = ground arith

pub activation_beq_iff : (a b : Activation) → (activation_beq a b ≡ true) ↔ (a ≡ b)
activation_beq_iff a b = ground arith

pub validation_beq_iff : (a b : Validation) → (validation_beq a b ≡ true) ↔ (a ≡ b)
validation_beq_iff a b = ground arith

instance abbrev pub Publication_eq : Eq Publication
Publication_eq = record { test = publication_beq; agrees = publication_beq_iff }

instance abbrev pub Authorization_eq : Eq Authorization
Authorization_eq = record { test = authorization_beq; agrees = authorization_beq_iff }

instance abbrev pub Activation_eq : Eq Activation
Activation_eq = record { test = activation_beq; agrees = activation_beq_iff }

instance abbrev pub Validation_eq : Eq Validation
Validation_eq = record { test = validation_beq; agrees = validation_beq_iff }

pub record InterventionState : Type 0 where
  pub publication : Publication
  pub authorization : Authorization
  pub activation : Activation
  pub validation : Validation

pub data TransitionKind : Type 0 where
  authorize publish fail disable rollback validate : TransitionKind

-- `Omit<InterventionTransition, "schemaVersion" | "id">` together with the id.
pub record InterventionTransition : Type 0 where
  pub id : String
  pub intervention_id : String
  pub from : InterventionState
  pub to : InterventionState
  pub evidence_ids : List String
  pub occurred_at : String

abbrev pub initial_intervention_state : InterventionState
initial_intervention_state = record {
  publication = unpublished;
  authorization = pending;
  activation = inactive;
  validation = untested;
}

abbrev reason_if : Bool → List Diagnostic
reason_if b = if b then diagnostic "schema.invalid" ∷ [] else []

unfoldable pub intervention_state_invalid_reasons : InterventionState → List Diagnostic
intervention_state_invalid_reasons s =
    reason_if (s.activation == active && s.publication != published)
    ++ (reason_if
          (s.authorization == pending && (s.publication != unpublished || s.activation != inactive))
        ++ reason_if (s.publication == rolled_back && s.activation != disabled))

unfoldable pub permits_publication : Authorization → Bool
permits_publication a = a == authorized || a == not_required

unfoldable pub applied_publication : Publication → Bool
applied_publication p = p == published || p == failed

unfoldable pub same_intervention_state : InterventionState → InterventionState → Bool
same_intervention_state l r =
    l.publication == r.publication
    && (l.authorization == r.authorization
        && (l.activation == r.activation && l.validation == r.validation))

abbrev is_empty {ℓ} : {A : Type ℓ} → List A → Bool
is_empty [] = true
is_empty (_ ∷ _) = false

-- The edges of the table that move publication and activation.
unfoldable pub activate_kind : InterventionState → InterventionState → Option TransitionKind
unfolding permits_publication applied_publication
activate_kind from to =
    if from.authorization != to.authorization || not (permits_publication from.authorization)
    then none
    else if (from.publication == unpublished || from.publication == failed)
        && (from.activation == inactive
            && (to.publication == published
                && (to.activation == active || to.activation == inactive)))
    then some publish
    else if from.publication == unpublished
        && (from.activation == inactive && (to.publication == failed && to.activation == inactive))
    then some fail
    else if applied_publication from.publication
        && (from.publication == to.publication
            && ((from.activation == active || from.activation == inactive)
                && to.activation == disabled))
    then some disable
    else if applied_publication from.publication
        && (to.publication == rolled_back && to.activation == disabled)
    then some rollback
    else none

-- The test of the `validate` edge, and that of the `authorize` edge.
unfoldable pub validate_allowed : InterventionState → InterventionState → Bool
validate_allowed from to =
    to.validation != untested
    && (from.authorization != pending
        && (from.publication == to.publication
            && (from.authorization == to.authorization && from.activation == to.activation)))

unfoldable pub authorize_allowed : InterventionState → InterventionState → Bool
authorize_allowed from to =
    to.authorization == authorized
    && (from.publication == unpublished
        && (to.publication == unpublished
            && (from.activation == inactive && to.activation == inactive)))

unfoldable pub intervention_transition_kind :
    InterventionState → InterventionState → Option TransitionKind
intervention_transition_kind from to =
    if not (is_empty (intervention_state_invalid_reasons from))
      || not (is_empty (intervention_state_invalid_reasons to))
    then none
    else if from.validation != to.validation
    then (if validate_allowed from to then some validate else none)
    else if from.authorization == pending
    then (if authorize_allowed from to then some authorize else none)
    else activate_kind from to

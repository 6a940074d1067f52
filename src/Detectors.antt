-- ===== src/Detectors.antt =====
-- reference-detectors/evaluate.ts: the detection window, the parsed observations and the draft that
-- every evaluator shares. The evaluators of the families are the child modules.
--
-- Of a draft, the members that every evaluator leaves null or empty are left out, and so are the
-- fixed texts of the interpretation and of the applicability.
pub mod Order
pub mod Polling
pub mod Context
pub mod Tooling
pub mod Redirection
pub mod Policy
pub mod Coordination
pub mod Evaluate
mod Tests
use governed_learning_loop.Prelude.{
  ℕ, String, ◌+◌, ◌≡◌, ◌↔◌, Bool, true, false, not, ◌&&◌, ◌||◌, Option, none, some, List, [], ◌∷◌,
  ◌++◌, map, any, keep, all, length, ltb, leb, if◌then◌else◌, arith, nat_eq, Eq, ◌==◌, ◌!=◌,
  String_eq, ℕ_eq,
}
use governed_learning_loop.Diagnostics.{
  Result, ok, throw, ◌>>=◌, ◌>>◌, throw_if, failure, LearningLoopError,
}
use governed_learning_loop.Json.{
  Json, null, bool, num, str, arr, obj, natural, Number, other, Runtime,
}
use governed_learning_loop.Json.Parse.{
  Parse, parse_finite_number, parse_one_of, parse_bool, read_fields, req, parse_id, parse_digest_at,
  parse_nullable,
}

pub data TrafficClass : Type 0 where
  primary delegated automated reviewer guardian benchmark replay : TrafficClass

pub data OperationIntent : Type 0 where
  status_poll wait tool progress : OperationIntent

pub data OperationState : Type 0 where
  unchanged changed succeeded failed unknown : OperationState

pub data TurnActor : Type 0 where
  human agent : TurnActor

abbrev traffic_code : TrafficClass → ℕ
traffic_code primary = 0
traffic_code delegated = 1
traffic_code automated = 2
traffic_code reviewer = 3
traffic_code guardian = 4
traffic_code benchmark = 5
traffic_code replay = 6

abbrev intent_code : OperationIntent → ℕ
intent_code status_poll = 0
intent_code wait = 1
intent_code tool = 2
intent_code progress = 3

abbrev state_code : OperationState → ℕ
state_code unchanged = 0
state_code changed = 1
state_code succeeded = 2
state_code failed = 3
state_code unknown = 4

abbrev actor_code : TurnActor → ℕ
actor_code human = 0
actor_code agent = 1

abbrev traffic_beq : TrafficClass → TrafficClass → Bool
traffic_beq a b = nat_eq (traffic_code a) (traffic_code b)

abbrev intent_beq : OperationIntent → OperationIntent → Bool
intent_beq a b = nat_eq (intent_code a) (intent_code b)

abbrev state_beq : OperationState → OperationState → Bool
state_beq a b = nat_eq (state_code a) (state_code b)

abbrev actor_beq : TurnActor → TurnActor → Bool
actor_beq a b = nat_eq (actor_code a) (actor_code b)

pub traffic_beq_iff : (a b : TrafficClass) → (traffic_beq a b ≡ true) ↔ (a ≡ b)
traffic_beq_iff a b = ground arith

pub intent_beq_iff : (a b : OperationIntent) → (intent_beq a b ≡ true) ↔ (a ≡ b)
intent_beq_iff a b = ground arith

pub state_beq_iff : (a b : OperationState) → (state_beq a b ≡ true) ↔ (a ≡ b)
state_beq_iff a b = ground arith

pub actor_beq_iff : (a b : TurnActor) → (actor_beq a b ≡ true) ↔ (a ≡ b)
actor_beq_iff a b = ground arith

instance abbrev pub TrafficClass_eq : Eq TrafficClass
TrafficClass_eq = record { test = traffic_beq; agrees = traffic_beq_iff }

instance abbrev pub OperationIntent_eq : Eq OperationIntent
OperationIntent_eq = record { test = intent_beq; agrees = intent_beq_iff }

instance abbrev pub OperationState_eq : Eq OperationState
OperationState_eq = record { test = state_beq; agrees = state_beq_iff }

instance abbrev pub TurnActor_eq : Eq TurnActor
TurnActor_eq = record { test = actor_beq; agrees = actor_beq_iff }

abbrev pub traffic_classes : List (String × TrafficClass)
traffic_classes =
    ("primary", primary)
    ∷ ("delegated", delegated)
    ∷ ("automated", automated)
    ∷ ("reviewer", reviewer)
    ∷ ("guardian", guardian)
    ∷ ("benchmark", benchmark)
    ∷ ("replay", replay)
    ∷ []

abbrev pub operation_intents : List (String × OperationIntent)
operation_intents =
    ("status_poll", status_poll) ∷ ("wait", wait) ∷ ("tool", tool) ∷ ("progress", progress) ∷ []

abbrev pub operation_states : List (String × OperationState)
operation_states =
    ("unchanged", unchanged)
    ∷ ("changed", changed)
    ∷ ("succeeded", succeeded)
    ∷ ("failed", failed)
    ∷ ("unknown", unknown)
    ∷ []

abbrev pub turn_actors : List (String × TurnActor)
turn_actors = ("human", human) ∷ ("agent", agent) ∷ []

-- One entry of `window.evidence` that is an observation, with its reference.
pub record ObservationEntry : Type 0 where
  pub record_id : String
  pub episode_id : String
  pub kind : String
  pub content : Json
  pub reference_digest : String

pub data Evidence : Type 0 where
  observation : ObservationEntry → Evidence
  measurement : Evidence

-- `episode.view.identity` and whether the episode is closed.
pub data Identity : Type 0 where
  resolved : (source_id episode_id : String) → (parent_episode_id : Option String) → Identity
  unresolved : Identity

pub record PopulationEpisode : Type 0 where
  pub identity : Identity
  pub is_closed : Bool

pub record DetectorWindow : Type 0 where
  pub evidence : List Evidence
  pub source_profiles : List String
  pub episodes : List PopulationEpisode

pub record Insight : Type 0 where
  pub learning_class : String
  pub statement : String
  pub evidence_reference_digests : List String
  pub content : Json
  pub is_structural : Bool
  pub missing_capabilities : List String

pub record DetectorResultDraft : Type 0 where
  pub condition_detected : Bool
  pub insights : List Insight

unfoldable pub negative_draft : DetectorResultDraft
negative_draft = record { condition_detected = false; insights = [] }

unfoldable pub positive_draft : Insight → DetectorResultDraft
positive_draft insight = record { condition_detected = true; insights = insight ∷ [] }

abbrev pub result_invalid : LearningLoopError
result_invalid = failure "detector.result_invalid"

-- A sequence is a natural number below 2 ^ 53.
unfoldable pub parse_nonnegative_integer : Parse ℕ
parse_nonnegative_integer (num (natural n)) =
    if ltb n 9007199254740992 then ok n else throw result_invalid
parse_nonnegative_integer (num (other _)) = throw result_invalid
parse_nonnegative_integer _ = throw (failure "schema.invalid")

unfoldable pub parse_basis_points : Parse ℕ
parse_basis_points input = do
  value ← parse_nonnegative_integer input
  throw_if (ltb 10000 value) result_invalid
  ok value

unfoldable pub parse_positive_integer : Parse ℕ
parse_positive_integer input = do
  value ← parse_nonnegative_integer input
  throw_if (value == 0) (failure "detector.implementation_invalid")
  ok value

abbrev pub observation_of : List String → Evidence → List ObservationEntry
observation_of kinds (observation e) = if any (λ k. k == e.kind) kinds then e ∷ [] else []
observation_of kinds measurement = []

abbrev pub observations_of : List String → List Evidence → List ObservationEntry
observations_of kinds [] = []
observations_of kinds (e ∷ es) = observation_of kinds e ++ observations_of kinds es

unfoldable pub observation_entries : DetectorWindow → List String → List ObservationEntry
observation_entries window kinds = observations_of kinds window.evidence

-- `entries.map(parse)`, which throws at the first entry that does not parse.
abbrev pub parse_all {ℓ} :
    {T : Type ℓ} → (ObservationEntry → Result T) → List ObservationEntry → Result (List T)
parse_all parse [] = ok []
parse_all parse (e ∷ es) = do v ← parse e; vs ← parse_all parse es; ok (v ∷ vs)

abbrev is_from : String → Identity → Bool
is_from source_id (resolved s e p) = s == source_id
is_from source_id unresolved = false

abbrev pub is_exact_episode : String → PopulationEpisode → Bool
is_exact_episode source_id episode = is_from source_id episode.identity && episode.is_closed

abbrev assert_exact_episodes : List String → List PopulationEpisode → Result (Unit {0})
assert_exact_episodes (source_id ∷ []) episodes =
    throw_if (not (all (is_exact_episode source_id) episodes)) result_invalid
assert_exact_episodes _ episodes = throw result_invalid

unfoldable pub assert_single_source_population : DetectorWindow → Result (Unit {0})
assert_single_source_population window =
    assert_exact_episodes window.source_profiles window.episodes

-- ===== src/Detectors/Redirection.antt =====
-- reference-detectors/evaluate.ts, `evaluateRedirection`: pairs of a human correction and the agent
-- turn of the same episode that it cites.
use governed_learning_loop.Prelude.{
  ℕ, String, ◌+◌, Bool, false, ◌&&◌, ◌||◌, Option, none, some, List, [], ◌∷◌, length, ltb, leb,
  find_first, if◌then◌else◌, ◌==◌, ◌!=◌, String_eq, ℕ_eq,
}
use governed_learning_loop.Diagnostics.{Result, ok, throw, ◌>>=◌, ◌>>◌}
use governed_learning_loop.Json.{str, num, obj, end, field, natural, Runtime}
use governed_learning_loop.Json.Parse.{parse_one_of, parse_bool, parse_nullable, read_fields, req}
use governed_learning_loop.Detectors.{
  TrafficClass, TrafficClass_eq, traffic_classes, TurnActor, TurnActor_eq, turn_actors, human,
  agent, ObservationEntry, DetectorWindow, DetectorResultDraft, negative_draft, positive_draft,
  parse_nonnegative_integer, observation_entries, parse_all, result_invalid,
}
use governed_learning_loop.Detectors.Order.{
  Sequenced, sort_sequenced, assert_unique_sequences, add_text, sort_texts,
}

pub record InteractionTurn : Type 0 where
  pub episode_id : String
  pub sequence : ℕ
  pub record_id : String
  pub reference_digest : String
  pub actor : TurnActor
  pub correction : Bool
  pub reply_to_sequence : Option ℕ
  pub traffic_class : TrafficClass

abbrev pub sequenced_turns : Sequenced InteractionTurn
sequenced_turns = record {
  episode_id = λ e. e.episode_id;
  sequence = λ e. e.sequence;
  record_id = λ e. e.record_id;
}

unfoldable pub parse_interaction_turn : ObservationEntry → Result InteractionTurn
parse_interaction_turn entry = do
  fields ← read_fields entry.content
  sequence ← req fields "sequence" parse_nonnegative_integer
  actor ← req fields "actor" (parse_one_of turn_actors)
  correction ← req fields "correction" parse_bool
  reply_to ← req fields "replyToSequence" (parse_nullable parse_nonnegative_integer)
  traffic ← req fields "trafficClass" (parse_one_of traffic_classes)
  ok (record {
    episode_id = entry.episode_id;
    sequence = sequence;
    record_id = entry.record_id;
    reference_digest = entry.reference_digest;
    actor = actor;
    correction = correction;
    reply_to_sequence = reply_to;
    traffic_class = traffic;
  })

unfoldable pub sorted_turns : Runtime → DetectorWindow → Result (List InteractionTurn)
unfolding parse_interaction_turn
sorted_turns rt window = do
  parsed ←
      parse_all parse_interaction_turn
        (observation_entries window ("reference.interaction.turn.v1" ∷ []))
  let turns = sort_sequenced rt sequenced_turns parsed
  assert_unique_sequences rt sequenced_turns turns
  ok turns

-- The variables of the loop; the two sets hold their members in the order of insertion.
pub record RedirectionState : Type 0 where
  pub pair_refs : List String
  pub episodes : List String
  pub pair_count : ℕ

unfoldable pub redirection_start : RedirectionState
redirection_start = record { pair_refs = []; episodes = []; pair_count = 0 }

pub record RedirectionPolicy : Type 0 where
  pub eligible_traffic_class : TrafficClass
  pub minimum_distinct_episodes : ℕ
  pub minimum_exact_pairs : ℕ

-- A turn is at a position of an episode; the positions are unique, so that the first such turn is
-- the one that the source's map holds.
abbrev pub is_at : String → ℕ → InteractionTurn → Bool
is_at episode_id sequence turn = turn.episode_id == episode_id && turn.sequence == sequence

abbrev pub counts_as_correction : TrafficClass → InteractionTurn → Bool
counts_as_correction eligible turn =
    turn.traffic_class == eligible && (turn.actor == human && turn.correction)

module _ (rt : Runtime) where
  -- A correction, with the turn that it cites.
  unfoldable pub count_pair :
      RedirectionPolicy
      → RedirectionState
      → InteractionTurn
      → InteractionTurn
      → Result RedirectionState
  count_pair policy s turn target =
      if leb turn.sequence target.sequence
      then throw result_invalid
      else if target.traffic_class != policy.eligible_traffic_class || target.actor != agent
      then ok s
      else ok (record {
        pair_refs =
            add_text rt (add_text rt s.pair_refs target.reference_digest) turn.reference_digest;
        episodes = add_text rt s.episodes turn.episode_id;
        pair_count = s.pair_count + 1;
      })

  unfoldable pub count_cited :
      RedirectionPolicy
      → RedirectionState
      → InteractionTurn
      → Option InteractionTurn
      → Result RedirectionState
  unfolding count_pair
  count_cited policy s turn none = throw result_invalid
  count_cited policy s turn (some target) = count_pair policy s turn target

  abbrev pub count_reply :
      RedirectionPolicy
      → List InteractionTurn
      → RedirectionState
      → InteractionTurn
      → Option ℕ
      → Result RedirectionState
  count_reply policy turns s turn none = ok s
  count_reply policy turns s turn (some reply_to) =
      count_cited policy s turn (find_first (is_at turn.episode_id reply_to) turns)

  unfoldable pub redirection_step :
      RedirectionPolicy
      → List InteractionTurn
      → RedirectionState
      → InteractionTurn
      → Result RedirectionState
  unfolding count_cited
  redirection_step policy turns s turn =
      if counts_as_correction policy.eligible_traffic_class turn
      then count_reply policy turns s turn turn.reply_to_sequence
      else ok s

  unfoldable pub redirection_loop :
      RedirectionPolicy
      → List InteractionTurn
      → RedirectionState
      → List InteractionTurn
      → Result RedirectionState
  redirection_loop policy turns s [] = ok s
  redirection_loop policy turns s (turn ∷ rest) = do
    t ← redirection_step policy turns s turn
    redirection_loop policy turns t rest

  unfoldable pub redirection_draft : RedirectionPolicy → RedirectionState → DetectorResultDraft
  redirection_draft policy s =
      if ltb s.pair_count policy.minimum_exact_pairs
        || ltb (length s.episodes) policy.minimum_distinct_episodes
      then negative_draft
      else positive_draft (record {
        learning_class = "human_agent_interaction";
        statement =
            "The configured exact human-to-agent cited redirection condition was observed across distinct episodes.";
        evidence_reference_digests = sort_texts rt s.pair_refs;
        content = obj (
            field "family" (str "attributed_human_redirection") (
              field "citedPairCount" (num (natural s.pair_count))
                (field "distinctEpisodeCount" (num (natural (length s.episodes))) end)));
        is_structural = false;
        missing_capabilities = "interaction.cited_turn_review" ∷ [];
      })

  unfoldable pub evaluate_redirection :
      DetectorWindow → RedirectionPolicy → Result DetectorResultDraft
  evaluate_redirection window policy = do
    turns ← sorted_turns rt window
    s ← redirection_loop policy turns redirection_start turns
    ok (redirection_draft policy s)

-- ===== src/Detectors/Polling/Winner.antt =====
-- `evaluatePolling`: the references that win are those of a run, and of a longest one.
use governed_learning_loop.Prelude.{
  suc, String, ◌≤◌, ◌≡◌, ◌↔◌, ◌⊎◌, refl, sym, ap, ◌∙◌, Bool, true, false, Option, none, some, List,
  [], ◌∷◌, ◌++◌, map, length, arith, eq_iff, append_assoc, append-nil, Bool-cases, inl, inr, ltb,
  if◌then◌else◌, ◌==◌, String_eq, Option_eq,
}
use mathlib.Core.List.{map-append}
use governed_learning_loop.Detectors.{TrafficClass, negative_draft, positive_draft}
use governed_learning_loop.Detectors.Polling.{
  OperationEntry, PollingState, PollingPolicy, polling_start, polling_step, polling_loop,
  is_unchanged_poll, longer, extend_run, breaks_sequence, polling_draft,
}
use governed_learning_loop.Detectors.Polling.Runs.{
  Follows, IsRun, single, longer_by, RunIn, run-le_winning,
}

abbrev refs_of : List OperationEntry → List String
refs_of = map (λ o. o.reference_digest)

module _ (eligible : TrafficClass) where
  -- The run that the operations seen so far end with, when the loop holds its references.
  record CurrentRun (seen : List OperationEntry) (s : PollingState) : Type 0 where
    before : List OperationEntry
    run : List OperationEntry
    last : OperationEntry
    splits : seen ≡ before ++ run
    is_run : IsRun eligible run last
    episode : s.current_episode ≡ some last.episode_id
    target : s.current_target ≡ some last.target_keyed_digest
    sequence : s.previous_sequence ≡ some last.sequence
    refs : s.current_refs ≡ refs_of run

  abbrev Winner : List OperationEntry → List String → Type 0
  Winner seen winning = (winning ≡ []) ⊎ ((r : RunIn eligible seen) × (winning ≡ refs_of r.run))

  record Tracks (seen : List OperationEntry) (s : PollingState) : Type 0 where
    current : (s.current_refs ≡ []) ⊎ CurrentRun seen s
    winner : Winner seen s.winning_refs

  module _ (seen : List OperationEntry) (o : OperationEntry)
      (e : is_unchanged_poll eligible o ≡ true) where
    -- What the step makes of the references that it keeps.
    abbrev Extended : PollingState → List String → Type 0
    Extended s refs =
        (before : List OperationEntry) × (run : List OperationEntry) × (seen ++ o ∷ []
          ≡ before ++ run)
        × IsRun eligible run o
        × (refs ≡ refs_of run)

    fresh_run :
        (s : PollingState) (refs : List String) → refs ≡ o.reference_digest ∷ [] → Extended s refs
    fresh_run s refs h = (seen, o ∷ [], refl, single o e refl, h)

    extend_empty : (target : Option String) → extend_run target [] o ≡ o.reference_digest ∷ []
    extend_empty target = ground arith

    grown_run :
        (s : PollingState) (c : CurrentRun seen s)
        → breaks_sequence s.current_episode s.previous_sequence o.episode_id o.sequence ≡ false
        → (c.last.target_keyed_digest == o.target_keyed_digest) ≡ true
        → Extended s (s.current_refs ++ o.reference_digest ∷ [])
    grown_run s c b t =
        (c.before, c.run ++ o ∷ [], split, longer_by o c.is_run follows e refl, refs)
      where
        split : seen ++ o ∷ [] ≡ c.before ++ (c.run ++ o ∷ [])
        split = ap (λ l. l ++ o ∷ []) c.splits ∙ append_assoc c.before c.run (o ∷ [])

        near :
            breaks_sequence (some c.last.episode_id) (some c.last.sequence) o.episode_id o.sequence
            ≡ false
        near = rw (c.episode, c.sequence) at b

        follows : Follows c.last o
        follows = ground (
          arith,
          near,
          eq_iff c.last.episode_id o.episode_id,
          eq_iff c.last.target_keyed_digest o.target_keyed_digest,
        )

        refs : s.current_refs ++ o.reference_digest ∷ [] ≡ refs_of (c.run ++ o ∷ [])
        refs = ap (λ l. l ++ o.reference_digest ∷ []) c.refs ∙ sym (map-append _ c.run (o ∷ []))

    step-Extended :
        (s : PollingState)
        → (s.current_refs ≡ []) ⊎ CurrentRun seen s
        → Extended s (polling_step eligible s o).current_refs
    unfolding polling_step
    step-Extended s c = rw e (
        by_break (breaks_sequence s.current_episode s.previous_sequence o.episode_id o.sequence)
          refl c)
      where
        by_target :
            (cr : CurrentRun seen s) (b : Bool)
            → breaks_sequence s.current_episode s.previous_sequence o.episode_id o.sequence ≡ false
            → (cr.last.target_keyed_digest == o.target_keyed_digest) ≡ b
            → Extended s
                (if b then s.current_refs ++ o.reference_digest ∷ [] else o.reference_digest ∷ [])
        by_target cr true kept t = grown_run s cr kept t
        by_target cr false kept t = fresh_run s _ refl

        by_break :
            (b : Bool)
            → breaks_sequence s.current_episode s.previous_sequence o.episode_id o.sequence ≡ b
            → (s.current_refs ≡ []) ⊎ CurrentRun seen s
            → Extended s (
                extend_run
                  (if b then none else s.current_target)
                  (if b then [] else s.current_refs)
                  o)
        by_break true broken c = fresh_run s _ refl
        by_break false kept (inl empty) = rw empty (fresh_run s _ (extend_empty s.current_target))
        by_break false kept (inr cr) =
            rw cr.target
              (by_target cr (cr.last.target_keyed_digest == o.target_keyed_digest) kept refl)

  Winner-append :
      (seen : List OperationEntry) (o : OperationEntry) (w : List String)
      → Winner seen w
      → Winner (seen ++ o ∷ []) w
  Winner-append seen o w (inl h) = inl h
  Winner-append seen o w (inr (r, h)) = inr (
    record {
      before = r.before;
      run = r.run;
      last = r.last;
      behind = r.behind ++ o ∷ [];
      splits = split;
      is_run = r.is_run;
    },
    h,
  )
    where
      split : seen ++ o ∷ [] ≡ r.before ++ (r.run ++ (r.behind ++ o ∷ []))
      split = ap (λ l. l ++ o ∷ []) r.splits ∙ simp append_assoc

  Winner-longer :
      (seen : List OperationEntry) (xs ys : List String)
      → Winner seen xs
      → Winner seen ys
      → Winner seen (longer xs ys)
  Winner-longer seen xs ys hx hy = elim (Bool-cases (ltb (length ys) (length xs))) [
    | inl more ↦ rw more hx
    | inr no_more ↦ rw no_more hy
  ]

  step-Tracks_poll :
      (seen : List OperationEntry) (o : OperationEntry) (s : PollingState)
      → is_unchanged_poll eligible o ≡ true
      → Tracks seen s
      → Tracks (seen ++ o ∷ []) (polling_step eligible s o)
  unfolding polling_step
  step-Tracks_poll seen o s e h =
      let (before, run, split, is_run, refs) = step-Extended seen o e s h.current in
      let extended : Winner (seen ++ o ∷ []) (polling_step eligible s o).current_refs = inr (
        record {
          before = before;
          run = run;
          last = o;
          behind = [];
          splits = split ∙ ap (λ l. before ++ l) (sym (append-nil run));
          is_run = is_run;
        },
        refs,
      ) in
      record {
        current = inr (record {
          before = before;
          run = run;
          last = o;
          splits = split;
          is_run = is_run;
          episode = rw e refl;
          target = rw e refl;
          sequence = rw e refl;
          refs = refs;
        });
        winner = rw e (
            Winner-longer (seen ++ o ∷ []) _ s.winning_refs (rw e at extended)
              (Winner-append seen o s.winning_refs h.winner));
      }

  step-Tracks :
      (seen : List OperationEntry) (o : OperationEntry) (s : PollingState)
      → Tracks seen s
      → Tracks (seen ++ o ∷ []) (polling_step eligible s o)
  unfolding polling_step
  step-Tracks seen o s h = elim (Bool-cases (is_unchanged_poll eligible o)) [
    | inl e ↦ step-Tracks_poll seen o s e h
    | inr e ↦ record {
      current = inl (rw e refl);
      winner = rw e (Winner-append seen o s.winning_refs h.winner);
    }
  ]

  loop-Tracks :
      (seen rest : List OperationEntry) (s : PollingState)
      → Tracks seen s
      → Tracks (seen ++ rest) (polling_loop eligible s rest)
  unfolding polling_loop
  loop-Tracks seen [] s h = rw append-nil h
  loop-Tracks seen (o ∷ rest) s h =
      rw (sym (append_assoc seen (o ∷ []) rest))
        (loop-Tracks (seen ++ o ∷ []) rest (polling_step eligible s o) (step-Tracks seen o s h))

  start-Tracks : Tracks [] polling_start
  unfolding polling_start
  start-Tracks = record { current = inl refl; winner = inl refl }

length-refs_of : (l : List OperationEntry) → length (refs_of l) ≡ length l
length-refs_of [] = refl
length-refs_of (o ∷ l) = ap suc (length-refs_of l)

-- A policy with a positive minimum detects its condition exactly when the ordered operations hold a
-- run, with nothing between its members, of at least that many unchanged status polls of the policy's
-- eligible traffic class, of one target in one episode with consecutive sequence numbers.
pub detects_iff :
    (policy : PollingPolicy) (ops : List OperationEntry)
    → 1 ≤ policy.minimum_consecutive_unchanged_polls
    → let eligible = policy.eligible_traffic_class in
      ((polling_draft policy
          (polling_loop eligible polling_start ops).winning_refs).condition_detected
        ≡ true)
      ↔ ((r : RunIn eligible ops) × (policy.minimum_consecutive_unchanged_polls ≤ length r.run))
unfolding polling_draft positive_draft negative_draft
detects_iff policy ops h = (detected, λ r. found r)
  where
    winning : List String
    winning = (polling_loop policy.eligible_traffic_class polling_start ops).winning_refs

    tracks : Winner policy.eligible_traffic_class ops winning
    tracks =
        (loop-Tracks policy.eligible_traffic_class [] ops polling_start
          (start-Tracks policy.eligible_traffic_class)).winner

    enough :
        (polling_draft policy winning).condition_detected ≡ true
        → policy.minimum_consecutive_unchanged_polls ≤ length winning
    enough d = ground arith

    detected :
        (polling_draft policy winning).condition_detected ≡ true
        → (r : RunIn policy.eligible_traffic_class ops)
          × (policy.minimum_consecutive_unchanged_polls ≤ length r.run)
    detected d = elim tracks [
      | inl empty ↦ absurd (omega (arith, enough d, ap (λ (l : List String). length l) empty))
      | inr (r, same) ↦ (
        r,
        omega (arith, enough d, ap (λ (l : List String). length l) same, length-refs_of r.run),
      )
    ]

    found :
        (r : RunIn policy.eligible_traffic_class ops) × (policy.minimum_consecutive_unchanged_polls
            ≤ length r.run)
        → (polling_draft policy winning).condition_detected ≡ true
    found (r, m) = ground (arith, run-le_winning policy.eligible_traffic_class ops r)

-- ===== src/Detectors/Polling/Runs.antt =====
-- `evaluatePolling` against its specification: the runs of unchanged polls.
use governed_learning_loop.Prelude.{
  ℕ, String, ◌+◌, ◌≤◌, ◌≡◌, refl, true, false, Option, some, List, [], ◌∷◌, ◌++◌, length, arith,
  eq_iff, length-append,
}
use governed_learning_loop.Detectors.{TrafficClass}
use governed_learning_loop.Detectors.Polling.{
  OperationEntry, PollingState, polling_start, polling_step, polling_loop, is_unchanged_poll,
  longer, extend_run, breaks_sequence,
}

-- `o` directly follows `p` in its episode, with the same target.
pub record Follows (p o : OperationEntry) : Type 0 where
  pub same_episode : p.episode_id ≡ o.episode_id
  pub same_target : p.target_keyed_digest ≡ o.target_keyed_digest
  pub next_sequence : o.sequence ≡ p.sequence + 1

module _ (eligible : TrafficClass) where
  -- A run of unchanged polls of the eligible traffic class, with its last one.
  pub data IsRun : List OperationEntry → OperationEntry → Type 0 where
    single :
        {l : List OperationEntry} (o : OperationEntry)
        → is_unchanged_poll eligible o ≡ true
        → l ≡ o ∷ []
        → IsRun l o
    longer_by :
        {l m : List OperationEntry} {p : OperationEntry} (o : OperationEntry)
        → IsRun l p
        → Follows p o
        → is_unchanged_poll eligible o ≡ true
        → m ≡ l ++ o ∷ []
        → IsRun m o

  -- A run that stands in a list of operations with nothing between.
  pub record RunIn (ops : List OperationEntry) : Type 0 where
    pub before : List OperationEntry
    pub run : List OperationEntry
    pub last : OperationEntry
    pub behind : List OperationEntry
    pub splits : ops ≡ before ++ (run ++ behind)
    pub is_run : IsRun run last

  loop-append :
      (s : PollingState) (xs ys : List OperationEntry)
      → polling_loop eligible s (xs ++ ys) ≡ polling_loop eligible (polling_loop eligible s xs) ys
  unfolding polling_loop
  loop-append s [] ys = refl
  loop-append s (x ∷ xs) ys = loop-append (polling_step eligible s x) xs ys

  step-winning_mono :
      (s : PollingState) (o : OperationEntry)
      → length s.winning_refs ≤ length (polling_step eligible s o).winning_refs
  unfolding polling_step
  step-winning_mono s o = ground arith

  loop-winning_mono :
      (s : PollingState) (ops : List OperationEntry)
      → length s.winning_refs ≤ length (polling_loop eligible s ops).winning_refs
  unfolding polling_loop
  loop-winning_mono s [] = omega arith
  loop-winning_mono s (o ∷ ops) =
      omega (arith, step-winning_mono s o, loop-winning_mono (polling_step eligible s o) ops)

  -- The loop has just seen `o`, the last of a run of `n`.
  record AtRun (n : ℕ) (o : OperationEntry) (s : PollingState) : Type 0 where
    episode : s.current_episode ≡ some o.episode_id
    target : s.current_target ≡ some o.target_keyed_digest
    sequence : s.previous_sequence ≡ some o.sequence
    current : n ≤ length s.current_refs
    winning : n ≤ length s.winning_refs

  extend_run-pos :
      (target : Option String) (refs : List String) (o : OperationEntry)
      → 1 ≤ length (extend_run target refs o)
  extend_run-pos target refs o = ground (arith, length-append refs (o.reference_digest ∷ []))

  longer_bounds :
      (xs ys : List String)
      → (length xs ≤ length (longer xs ys)) × (length ys ≤ length (longer xs ys))
  longer_bounds xs ys = ground arith

  step-AtRun_one :
      (s : PollingState) (o : OperationEntry)
      → is_unchanged_poll eligible o ≡ true
      → AtRun 1 o (polling_step eligible s o)
  unfolding polling_step
  step-AtRun_one s o e = rw e (record {
    episode = refl;
    target = refl;
    sequence = refl;
    current = extend_run-pos _ _ o;
    winning = omega (arith, extend_run-pos _ _ o, longer_bounds _ _);
  })

  step-AtRun :
      (n : ℕ) (p o : OperationEntry) (s : PollingState)
      → AtRun n p s
      → Follows p o
      → is_unchanged_poll eligible o ≡ true
      → AtRun (n + 1) o (polling_step eligible s o)
  unfolding polling_step
  step-AtRun n p o s a f e =
      let kept : breaks_sequence s.current_episode s.previous_sequence o.episode_id o.sequence
          ≡ false =
        rw (a.episode, a.sequence)
          (ground (arith, eq_iff p.episode_id o.episode_id, f.same_episode, f.next_sequence)) in
      let grown : n + 1 ≤ length (extend_run s.current_target s.current_refs o) = rw a.target (
        ground (
          arith,
          eq_iff p.target_keyed_digest o.target_keyed_digest,
          f.same_target,
          a.current,
          length-append s.current_refs (o.reference_digest ∷ []),
        )) in
      rw (e, kept)
        (record {
          episode = refl;
          target = refl;
          sequence = refl;
          current = grown;
          winning = omega (
            arith,
            grown,
            longer_bounds (extend_run s.current_target s.current_refs o) s.winning_refs,
          );
        })

  run-AtRun :
      (s : PollingState) {run : List OperationEntry} {last : OperationEntry}
      → IsRun run last
      → AtRun (length run) last (polling_loop eligible s run)
  unfolding polling_loop
  run-AtRun s (single o e l) = rw l (step-AtRun_one s o e)
  run-AtRun s (longer_by {l} {m} {p} o r f e same) =
      rw (same, loop-append s l (o ∷ []), length-append l (o ∷ []))
        (step-AtRun (length l) p o (polling_loop eligible s l) (run-AtRun s r) f e)

  -- Every run in the operations is at most as long as the one that wins.
  pub run-le_winning :
      (ops : List OperationEntry) (r : RunIn ops)
      → length r.run ≤ length (polling_loop eligible polling_start ops).winning_refs
  run-le_winning ops r =
      let s = polling_loop eligible polling_start r.before in
      let t = polling_loop eligible s r.run in
      rw
        (
          r.splits,
          loop-append polling_start r.before (r.run ++ r.behind),
          loop-append s r.run r.behind,
        )
        (omega (arith, (run-AtRun s r.is_run).winning, loop-winning_mono t r.behind))

-- ===== src/Journal/Scoped.antt =====
-- engine/publication-journal.ts, `ensureInterventionScopeMembership` among other writers.
use governed_learning_loop.Prelude.{
  String, ◌≡◌, refl, sym, subst, Bool, true, false, Option, none, some, String_eq,
}
use governed_learning_loop.Diagnostics.{
  Result, ok, failure, throw_if, LearningLoopError, Ensures, returns, throws, Ensures-bind,
  Ensures-bind', Ensures-call, Ensures-guard, Ensures-map,
}
use governed_learning_loop.Json.{Json, Runtime, sha256_hex_of_canonical_json}
use governed_learning_loop.Store.{
  StoredRecord, MemoryStore, WriteResult, created, updated, exists_same, conflict,
}
use governed_learning_loop.Store.Reading.{get}
use governed_learning_loop.Action.{World, continue, ◌>>=◌, lift, interfere, store_get, store_call}
use governed_learning_loop.Action.Laws.{
  Yields, threw, Yields-map, Yields-lift, Yields-Moves, Later, Later-refl, Later-trans, Moves-call,
  interfere-Later,
}
use governed_learning_loop.Engine.{store_corrupt}
use governed_learning_loop.Publication.Bound.{same_text}
use governed_learning_loop.Journal.Bound.{parts_false}
use governed_learning_loop.Journal.Scopes.{
  InterventionScopeMembership, membership_content, membership_key,
  parse_intervention_scope_membership, parse_stored_membership, preserved,
  after_membership_creation, ensure_intervention_scope_membership,
}

module _ (rt : Runtime) where
  -- A membership that is bound by its digest, in a scope.
  pub record IsBoundMembership (scope_digest : String) (m : InterventionScopeMembership)
      : Type 0 where
    pub digested : m.index_digest ≡ sha256_hex_of_canonical_json rt (membership_content m)
    pub in_scope : m.scope_digest ≡ scope_digest

  parse-digested :
      (j : Json)
      → Ensures
          (λ m. m.index_digest ≡ sha256_hex_of_canonical_json rt (membership_content m))
          (parse_intervention_scope_membership rt j)
  unfolding parse_intervention_scope_membership
  parse-digested j = Ensures-bind (Ensures-call _) λ fields _. Ensures-bind' (Ensures-call _) λ _ _.
      Ensures-bind (Ensures-call _) λ scope _. Ensures-bind (Ensures-call _) λ intervention _.
        Ensures-bind (Ensures-call _) λ candidate _.
          Ensures-bind (Ensures-call _) λ candidate_digest _.
            Ensures-bind (Ensures-call _) λ destination _. Ensures-bind (Ensures-call _) λ action _.
              Ensures-bind (Ensures-call _) λ parent _.
                Ensures-bind (Ensures-call _) λ digest _.
                  Ensures-guard _ (failure "schema.corrupt") λ e. returns _ (same_text e)

  stored-IsBoundMembership :
      (stored : StoredRecord) (scope_digest : String)
      → Ensures (IsBoundMembership scope_digest) (parse_stored_membership rt stored scope_digest)
  unfolding parse_stored_membership
  stored-IsBoundMembership stored scope_digest = Ensures-bind (Ensures-call _) λ digest _.
      Ensures-bind (Ensures-call _) λ id _. Ensures-bind (Ensures-call _) λ namespace _.
        Ensures-bind (Ensures-call _) λ kind _. Ensures-guard _ store_corrupt λ _.
          Ensures-bind (parse-digested stored.value) λ m digested.
            Ensures-guard _ store_corrupt λ e.
              returns m (record { digested = digested; in_scope = same_text (parts_false _ _ e).0 })

  module _ (membership : InterventionScopeMembership) where
    -- The store holds a membership of the same digest under the membership's key.
    pub record Preserved (stored : Option StoredRecord) : Type 0 where
      pub raw : StoredRecord
      pub found : stored ≡ some raw
      pub reloaded : InterventionScopeMembership
      pub parsed : parse_stored_membership rt raw membership.scope_digest ≡ ok reloaded
      pub bound : IsBoundMembership membership.scope_digest reloaded
      pub same_digest : reloaded.index_digest ≡ membership.index_digest

    guarded :
        (refused : Bool) (e : LearningLoopError)
        → Ensures (λ _. refused ≡ false) (throw_if refused e)
    guarded true e = throws e
    guarded false e = returns tt refl

    preserved-Preserved :
        (stored : Option StoredRecord)
        → Ensures (λ _. Preserved stored) (preserved rt membership stored)
    unfolding preserved
    preserved-Preserved none = throws store_corrupt
    preserved-Preserved (some raw) =
        Ensures-bind
          (with_call (parse_stored_membership rt raw membership.scope_digest)
            (stored-IsBoundMembership raw membership.scope_digest))
          λ reloaded (parsed, bound). Ensures-map (guarded _ store_corrupt) λ _ e. record {
            raw = raw;
            found = refl;
            reloaded = reloaded;
            parsed = parsed;
            bound = bound;
            same_digest = same_text e;
          }
      where
        with_call :
            (r : Result InterventionScopeMembership)
            → Ensures (IsBoundMembership membership.scope_digest) r
            → Ensures (λ m. (r ≡ ok m) × IsBoundMembership membership.scope_digest m) r
        with_call r (returns m h) = returns m (refl, h)
        with_call r (throws e) = throws e

    -- A moment of the call at which the store held the membership.
    pub record Indexed (start end : MemoryStore) : Type 0 where
      pub since : Later start end
      pub held : Preserved (get rt (membership_key membership) end)

    reread-Indexed :
        (start : MemoryStore) (w : World)
        → Later start w.store
        → Yields
            (λ _ v. Indexed start v.store)
            ((store_get rt (membership_key membership) >>= λ stored.
                lift (preserved rt membership stored))
              w)
    unfolding ◌>>=◌ continue store_get
    reread-Indexed start w since =
        Yields-map
          (Yields-lift _ (interfere w)
            (preserved-Preserved (get rt (membership_key membership) (interfere w).store)))
          λ _ v (held, same). record {
            since =
                subst (λ u. Later start u.store) (sym same) (Later-trans since (interfere-Later w));
            held =
                subst (λ u. Preserved (get rt (membership_key membership) u.store)) (sym same) held;
          }

    after-Indexed :
        (start : MemoryStore) (result : WriteResult) (w : World)
        → Later start w.store
        → Yields (λ _ v. Indexed start v.store) (after_membership_creation rt membership result w)
    unfolding after_membership_creation
    after-Indexed start (updated n) w since = threw _ w
    after-Indexed start (conflict n) w since = threw _ w
    after-Indexed start (created n) w since = reread-Indexed start w since
    after-Indexed start (exists_same n) w since = reread-Indexed start w since

    -- Whatever other writers do between the calls, when `ensureInterventionScopeMembership` returns,
    -- the store holds under the membership's key a record that parses, in its scope, as a membership
    -- bound by its own digest, which is the digest of the one that was given.
    pub ensure-Indexed :
        (w : World)
        → Yields
            (λ _ v. Indexed w.store v.store)
            (ensure_intervention_scope_membership rt membership w)
    unfolding ensure_intervention_scope_membership
    ensure-Indexed w =
        Yields-Moves w.store (store_call _) _ w (Moves-call _) (Later-refl w.store)
          λ result v since. after-Indexed w.store result v since

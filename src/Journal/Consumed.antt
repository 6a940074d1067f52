-- ===== src/Journal/Consumed.antt =====
-- engine/publication-journal.ts: what consuming an authorization and parsing a header promise.
use governed_learning_loop.Prelude.{
  String, ◌≡◌, ◌≢◌, ◌↔◌, refl, sym, subst, Bool, true, false, Option, none, some, ◌==◌, String_eq,
  Option_eq, ==_iff,
}
use governed_learning_loop.Diagnostics.{
  ok, failure, Ensures, returns, throws, Ensures-bind, Ensures-bind', Ensures-call, Ensures-guard,
}
use governed_learning_loop.Json.{Json, Runtime, ◌⋯◌, sha256_hex_of_canonical_json}
use governed_learning_loop.Store.{StoredRecord, MemoryStore}
use governed_learning_loop.Action.{World, ◌>>=◌, lift}
use governed_learning_loop.Action.Laws.{
  Yields, returned, Yields-bind, Yields-map, Yields-lift, Later, Later-refl, Later-trans,
}
use governed_learning_loop.Engine.{
  record_key, record_digest, stored_record_in, store_corrupt, Creation, was_created, was_same,
  was_conflict,
}
use governed_learning_loop.Engine.Load.{load_stored_record, create_only}
use governed_learning_loop.Engine.Created.{
  WrittenNow, TakenNow, Attempted, wrote, found_same, found_other, create_only-Attempted,
}
use governed_learning_loop.Publication.{publish, publication_plan_id_for}
use governed_learning_loop.Publication.Bound.{same_text, parent_matches}
use governed_learning_loop.Journal.Receipts.{intervention_id_for}
use governed_learning_loop.Journal.Bound.{parts_false}
use governed_learning_loop.Journal.Consumption.{
  AuthorizationConsumption, authorization_kind_name, authorization_consumption_id_for,
  consumption_json, consumption_of, load_authorization_consumption, existing_consumption,
  after_consumption_creation, ensure_authorization_consumption,
}
use governed_learning_loop.Journal.Headers.{
  InterventionHeader, header_content, parse_intervention_header,
}
use governed_learning_loop.Journal.Reads.{load_stored-ReadAt}

module _ (rt : Runtime) where
  -- What a header binds.
  pub record IsBoundHeader (h : InterventionHeader) : Type 0 where
    pub identified : h.id ≡ intervention_id_for h.plan_digest
    pub planned : h.plan_id ≡ publication_plan_id_for rt h.plan_digest
    pub authorized : h.authorization_id ≡ authorization_consumption_id_for h.plan_digest
    pub reversing : (h.action ≡ publish) ↔ (h.parent_intervention_id ≡ none)
    pub foreign_parent : h.parent_intervention_id ≢ some h.id
    pub digested : h.header_digest ≡ sha256_hex_of_canonical_json rt (header_content h)

  apart : (o : Option String) (s : String) → (o == some s) ≡ false → o ≢ some s
  apart o s e h = let k : (o == some s) ≡ true = (==_iff o (some s)).1 h in cc

  -- Whatever JSON value `parseInterventionHeader` accepts, the header that it returns is bound: its
  -- id, plan and authorization are those of its plan digest, it has a parent just when its action is
  -- not `publish`, it is not its own parent, and its digest is that of its content.
  pub parse-IsBoundHeader : (j : Json) → Ensures IsBoundHeader (parse_intervention_header rt j)
  unfolding parse_intervention_header
  parse-IsBoundHeader j = Ensures-bind (Ensures-call _) λ fields _.
      Ensures-bind' (Ensures-call _) λ _ _. Ensures-bind (Ensures-call _) λ candidate _.
        Ensures-bind (Ensures-call _) λ candidate_digest _. Ensures-bind (Ensures-call _) λ plan _.
          Ensures-bind (Ensures-call _) λ plan_digest _.
            Ensures-bind (Ensures-call _) λ destination _. Ensures-bind (Ensures-call _) λ action _.
              Ensures-bind (Ensures-call _) λ effect_class _.
                Ensures-bind (Ensures-call _) λ scope _. Ensures-bind (Ensures-call _) λ parent _.
                  Ensures-bind (Ensures-call _) λ authorization _.
                    Ensures-bind (Ensures-call _) λ created _. Ensures-bind (Ensures-call _) λ id _.
                      Ensures-bind (Ensures-call _) λ digest _.
                        Ensures-guard _ (failure "schema.corrupt") λ ids.
                          Ensures-guard _ (failure "schema.corrupt") λ matched.
                            Ensures-guard _ (failure "schema.corrupt") λ own.
                              Ensures-guard _ (failure "schema.corrupt") λ digested.
                                let (a, rest) = parts_false _ _ ids in
                                let (b, c) = parts_false _ _ rest in
                                returns _ (record {
                                  identified = same_text a;
                                  planned = same_text b;
                                  authorized = same_text c;
                                  reversing = parent_matches rt action parent matched;
                                  foreign_parent = apart parent id own;
                                  digested = same_text digested;
                                })

  module _ (consumption : AuthorizationConsumption) where
    -- A consumption of the same plan, binding, registry and policy.
    pub record Agrees (c : AuthorizationConsumption) : Type 0 where
      pub same_plan : c.plan_id ≡ consumption.plan_id
      pub same_binding : c.binding_digest ≡ consumption.binding_digest
      pub same_registry : c.registry_revision ≡ consumption.registry_revision
      pub same_policy : c.policy_digest ≡ consumption.policy_digest

    -- A moment of a call at which the store held a consumption.
    pub record HeldConsumption (start : MemoryStore) (held : Option AuthorizationConsumption)
        (end : World) : Type 0 where
      pub since : Later start end.store
      pub stored : Option StoredRecord
      pub found :
          stored_record_in rt authorization_kind_name
            (authorization_consumption_id_for consumption.plan_digest)
            end.store
          ≡ ok stored
      pub read : consumption_of rt consumption.plan_digest stored ≡ ok held

    -- What the call returns: the consumption itself, marked new, when this call wrote it at a key that
    -- had no cell; or, marked as there before, the one that is read at a key that had a cell already.
    pub data Consumed (start : MemoryStore) : AuthorizationConsumption × Bool → World → Type 0 where
      first :
          {end : World}
          → WrittenNow
              (record_key authorization_kind_name consumption.id)
              (consumption_json consumption)
              (record_digest rt (consumption_json consumption))
              start
              end.store
          → Consumed start (consumption, false) end
      before :
          {end : World} {held : AuthorizationConsumption} (moment : MemoryStore)
          → TakenNow (record_key authorization_kind_name consumption.id) start moment
          → HeldConsumption moment (some held) end
          → Agrees held
          → Consumed start (held, true) end

    load-HeldConsumption :
        (start : MemoryStore) (w : World)
        → Later start w.store
        → Yields
            (HeldConsumption start)
            (load_authorization_consumption rt consumption.plan_digest w)
    unfolding load_authorization_consumption
    load-HeldConsumption start w since =
        let id : String = authorization_consumption_id_for consumption.plan_digest in
        Yields-bind (load_stored_record rt authorization_kind_name id) _ w
          (load_stored-ReadAt rt authorization_kind_name id w)
          λ stored v at.
            Yields-map
              (Yields-lift _ v (Ensures-call (consumption_of rt consumption.plan_digest stored)))
              λ held u (read, same). record {
                since = Later-trans since (subst (λ z. Later w.store z.store) (sym same) at.since);
                stored = stored;
                found =
                    subst (λ z. stored_record_in rt authorization_kind_name id z.store ≡ ok stored)
                      (sym same) at.now;
                read = read;
              }

    existing-Agrees :
        (held : Option AuthorizationConsumption)
        → Ensures
            (λ (r : AuthorizationConsumption × Bool). (held ≡ some r.0) × (r.1 ≡ true) × Agrees r.0)
            (existing_consumption rt consumption held)
    unfolding existing_consumption
    existing-Agrees none = throws store_corrupt
    existing-Agrees (some c) = Ensures-guard _ store_corrupt λ e.
        let (a, h1) = parts_false _ _ e in
        let (b, h2) = parts_false _ _ h1 in
        let (p, q) = parts_false _ _ h2 in
        returns (c, true)
          (
            refl,
            refl,
            record {
              same_plan = same_text a;
              same_binding = same_text b;
              same_registry = same_text p;
              same_policy = same_text q;
            },
          )

    reload-Consumed :
        (start : MemoryStore) (w : World)
        → TakenNow (record_key authorization_kind_name consumption.id) start w.store
        → Yields (Consumed start) (
            (load_authorization_consumption rt consumption.plan_digest >>= λ held.
            lift (existing_consumption rt consumption held))
              w)
    reload-Consumed start w taken =
        Yields-bind (load_authorization_consumption rt consumption.plan_digest) _ w
          (load-HeldConsumption w.store w (Later-refl w.store))
          λ held v at.
            Yields-map (Yields-lift _ v (existing-Agrees held)) λ r u ((is_r, was, agrees), same).
              subst (λ b. Consumed start (r.0, b) u) (sym was)
                (before w.store taken
                  (subst (HeldConsumption w.store (some r.0)) (sym same)
                    (subst (λ o. HeldConsumption w.store o v) is_r at))
                  agrees)

    created-Consumed :
        (start : MemoryStore) (status : Creation) (w : World)
        → Attempted
            (record_key authorization_kind_name consumption.id)
            (consumption_json consumption)
            (record_digest rt (consumption_json consumption))
            start
            w.store
            status
        → Yields (Consumed start) (after_consumption_creation rt consumption status w)
    unfolding after_consumption_creation
    created-Consumed start was_created w (wrote now) = returned (consumption, false) w (first now)
    created-Consumed start was_same w (found_same taken) = reload-Consumed start w taken
    created-Consumed start was_conflict w (found_other taken) = reload-Consumed start w taken

    -- Whatever other writers do between the calls, `ensureAuthorizationConsumption` returns either the
    -- consumption itself, marked as new, only where the call wrote it at a key that had no cell until
    -- then; or, where the key had a cell when the call tried to write, one marked as there before,
    -- which the store held for the plan at the read after and which agrees in plan, binding, registry
    -- revision and policy.
    pub ensure-Consumed :
        (w : World) → Yields (Consumed w.store) (ensure_authorization_consumption rt consumption w)
    unfolding ensure_authorization_consumption
    ensure-Consumed w =
        Yields-bind
          (create_only rt authorization_kind_name consumption.id (consumption_json consumption)
            ("publication-authorization/" ⋯ consumption.id))
          _ w (create_only-Attempted rt _ _ _ _ w)
          λ status v attempt. created-Consumed w.store status v attempt

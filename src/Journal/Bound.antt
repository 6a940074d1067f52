-- ===== src/Journal/Bound.antt =====
-- engine/publication-journal.ts: what a stored receipt binds, and what
-- `ensureStoredPublicationReceipt` returns among other writers.
use governed_learning_loop.Prelude.{
  ℕ, String, ◌≡◌, refl, sym, subst, Bool, true, false, ◌||◌, Option, none, some, List, [], ◌∷◌,
  ◌!=◌, String_eq, ℕ_eq, ==_iff,
}
use governed_learning_loop.Diagnostics.{
  ok, throw_if, failure, Ensures, returns, throws, Ensures-bind, Ensures-bind', Ensures-call,
  Ensures-guard, Ensures-map, LearningLoopError,
}
use governed_learning_loop.Json.{Json, Runtime, ◌⋯◌, sha256_hex_of_canonical_json}
use governed_learning_loop.Store.{StoredRecord, MemoryStore}
use governed_learning_loop.Action.{World, ◌>>=◌, lift}
use governed_learning_loop.Action.Laws.{
  Yields, returned, Yields-bind, Yields-map, Yields-lift, Later, Later-refl, Later-trans,
}
use governed_learning_loop.Semantic.{is_none_left}
use governed_learning_loop.Engine.{
  record_key, record_digest, stored_record_in, store_corrupt, Creation, was_created, was_same,
  was_conflict,
}
use governed_learning_loop.Engine.Load.{load_stored_record, create_only}
use governed_learning_loop.Engine.Created.{
  WrittenNow, TakenNow, Attempted, wrote, found_same, found_other, create_only-Attempted,
}
use governed_learning_loop.Publication.{
  PreparedEffect, PublicationPlan, publication_plan_id_for, publication_effect_idempotency_key,
}
use governed_learning_loop.Publication.Bound.{
  BindsEffect, mismatch_reasons_iff, same_text, equal_of,
}
use governed_learning_loop.Journal.Receipts.{
  StoredPublicationReceipt, receipt_kind_name, receipt_id_for, intervention_id_for,
  stored_receipt_json, stored_receipt_content, is_unbound, parse_stored_publication_receipt,
  receipt_of, load_stored_publication_receipt, assert_stored_receipt_binds, existing_receipt,
  after_creation, ensure_stored_publication_receipt,
}
use governed_learning_loop.Journal.Reads.{load_stored-ReadAt}

pub parts_false : (x y : Bool) → (x || y) ≡ false → (x ≡ false) × (y ≡ false)
parts_false true y h = cc
parts_false false y h = (refl, h)

module _ (rt : Runtime) where
  -- What a stored receipt binds by itself.
  pub record IsBoundReceipt (s : StoredPublicationReceipt) : Type 0 where
    pub identified : s.id ≡ receipt_id_for s.idempotency_key
    pub keyed : s.idempotency_key ≡ publication_effect_idempotency_key rt s.plan_digest s.effect_id
    pub planned : s.plan_id ≡ publication_plan_id_for rt s.plan_digest
    pub intervened : s.intervention_id ≡ intervention_id_for s.plan_digest
    pub receipt_key : s.receipt.idempotency_key ≡ s.idempotency_key
    pub receipt_effect : s.receipt.effect_id ≡ s.effect_id
    pub digested : s.receipt_digest ≡ sha256_hex_of_canonical_json rt (stored_receipt_content s)

  bound_of :
      (s : StoredPublicationReceipt)
      → is_unbound rt s ≡ false
      → (s.receipt_digest != sha256_hex_of_canonical_json rt (stored_receipt_content s)) ≡ false
      → IsBoundReceipt s
  unfolding is_unbound
  bound_of s h d =
      let (a, h1) = parts_false _ _ h in
      let (b, h2) = parts_false _ _ h1 in
      let (c, h3) = parts_false _ _ h2 in
      let (e, h4) = parts_false _ _ h3 in
      let (f, g) = parts_false _ _ h4 in
      record {
        identified = same_text a;
        keyed = same_text b;
        planned = same_text c;
        intervened = same_text e;
        receipt_key = same_text f;
        receipt_effect = same_text g;
        digested = same_text d;
      }

  -- Whatever JSON value `parseStoredPublicationReceipt` accepts, the receipt that it returns is bound:
  -- its id is that of its idempotency key, the key is that of its plan's digest and effect, its plan
  -- and intervention are those of that digest, the destination's receipt carries the same key and
  -- effect, and its digest is that of its content.
  pub parse-IsBoundReceipt :
      (j : Json) → Ensures IsBoundReceipt (parse_stored_publication_receipt rt j)
  unfolding parse_stored_publication_receipt
  parse-IsBoundReceipt j = Ensures-bind (Ensures-call _) λ fields _.
      Ensures-bind' (Ensures-call _) λ _ _. Ensures-bind (Ensures-call _) λ plan _.
        Ensures-bind (Ensures-call _) λ plan_digest _.
          Ensures-bind (Ensures-call _) λ intervention _. Ensures-bind (Ensures-call _) λ effect _.
            Ensures-bind (Ensures-call _) λ index _. Ensures-bind (Ensures-call _) λ key _.
              Ensures-bind (Ensures-call _) λ receipt _. Ensures-bind (Ensures-call _) λ id _.
                Ensures-bind (Ensures-call _) λ digest _.
                  Ensures-guard _ (failure "schema.corrupt") λ unbound.
                    Ensures-guard _ (failure "schema.corrupt")
                      λ digested. returns _ (bound_of _ unbound digested)

  -- A stored receipt is the one of an effect of a plan, at its index and under its key.
  pub record BindsPlan (plan : PublicationPlan) (effect : PreparedEffect) (index : ℕ) (key : String)
      (s : StoredPublicationReceipt) : Type 0 where
    pub same_plan : s.plan_digest ≡ plan.plan_digest
    pub same_index : s.effect_index ≡ index
    pub same_key : s.idempotency_key ≡ key
    pub proved :
        BindsEffect s.receipt
          (record { destination_id = plan.destination_id; effect = effect; idempotency_key = key })

  module _ (plan : PublicationPlan) (effect : PreparedEffect) (index : ℕ) (key : String) where
    none_left : {reasons : List String} → is_none_left reasons ≡ true → reasons ≡ []
    none_left {reasons = []} h = refl
    none_left {reasons = r ∷ rs} h = cc

    assert-BindsPlan :
        (s : StoredPublicationReceipt)
        → Ensures
            (λ _. BindsPlan plan effect index key s)
            (assert_stored_receipt_binds rt s plan effect index key)
    unfolding assert_stored_receipt_binds
    assert-BindsPlan s = Ensures-map (guarded _ _) λ _ h.
        let (a, h1) = parts_false _ _ h in
        let (b, h2) = parts_false _ _ h1 in
        let (c, d) = parts_false _ _ h2 in
        record {
          same_plan = same_text a;
          same_index = (==_iff s.effect_index index).0 (equal_of b);
          same_key = same_text c;
          proved = (mismatch_reasons_iff _ _).0 (none_left (equal_of d));
        }
      where
        guarded :
            (refused : Bool) (e : LearningLoopError)
            → Ensures (λ _. refused ≡ false) (throw_if refused e)
        guarded true e = throws e
        guarded false e = returns tt refl

  -- A moment of a call at which the store held a receipt.
  pub record HeldReceipt (start : MemoryStore) (id : String)
      (held : Option StoredPublicationReceipt) (end : World) : Type 0 where
    pub since : Later start end.store
    pub stored : Option StoredRecord
    pub found : stored_record_in rt receipt_kind_name id end.store ≡ ok stored
    pub read : receipt_of rt id stored ≡ ok held

  load-HeldReceipt :
      (start : MemoryStore) (id : String) (w : World)
      → Later start w.store
      → Yields (HeldReceipt start id) (load_stored_publication_receipt rt id w)
  unfolding load_stored_publication_receipt
  load-HeldReceipt start id w since =
      Yields-bind (load_stored_record rt receipt_kind_name id) _ w
        (load_stored-ReadAt rt receipt_kind_name id w)
        λ stored v at.
          Yields-map (Yields-lift _ v (Ensures-call (receipt_of rt id stored)))
            λ held u (read, same). record {
              since = Later-trans since (subst (λ z. Later w.store z.store) (sym same) at.since);
              stored = stored;
              found =
                  subst (λ z. stored_record_in rt receipt_kind_name id z.store ≡ ok stored)
                    (sym same) at.now;
              read = read;
            }

  module _ (receipt : StoredPublicationReceipt) (plan : PublicationPlan)
      (effect : PreparedEffect) where
    -- The key under which the receipt is created, and its value there.
    abbrev pub ReceiptWritten : MemoryStore → MemoryStore → Type 0
    ReceiptWritten start now =
        WrittenNow (record_key receipt_kind_name receipt.id) (stored_receipt_json receipt)
          (record_digest rt (stored_receipt_json receipt)) start now

    -- Where a returned receipt comes from: this call wrote it at a key that had no cell, or the key
    -- had a cell when the call tried to, and the receipt is the one read there afterwards.
    pub data Source (start : MemoryStore) : StoredPublicationReceipt → World → Type 0 where
      written : {end : World} → ReceiptWritten start end.store → Source start receipt end
      canonical :
          {r : StoredPublicationReceipt} {end : World} (moment : MemoryStore)
          → TakenNow (record_key receipt_kind_name receipt.id) start moment
          → HeldReceipt moment receipt.id (some r) end
          → Source start r end

    pub record Ensured (start : MemoryStore) (r : StoredPublicationReceipt) (end : World)
        : Type 0 where
      pub binds : BindsPlan plan effect receipt.effect_index receipt.idempotency_key r
      pub source : Source start r end

    existing-BindsPlan :
        (held : Option StoredPublicationReceipt)
        → Ensures
            (λ r.
              (held ≡ some r)
              × BindsPlan plan effect receipt.effect_index receipt.idempotency_key r)
            (existing_receipt rt receipt plan effect held)
    unfolding existing_receipt
    existing-BindsPlan none = throws store_corrupt
    existing-BindsPlan (some s) =
        Ensures-bind' (assert-BindsPlan plan effect receipt.effect_index receipt.idempotency_key s)
          λ _ binds. returns s (refl, binds)

    reload-Ensured :
        (start : MemoryStore) (w : World)
        → TakenNow (record_key receipt_kind_name receipt.id) start w.store
        → Yields (Ensured start) (
            (load_stored_publication_receipt rt receipt.id >>= λ held.
            lift (existing_receipt rt receipt plan effect held))
              w)
    reload-Ensured start w taken =
        Yields-bind (load_stored_publication_receipt rt receipt.id) _ w
          (load-HeldReceipt w.store receipt.id w (Later-refl w.store))
          λ held v at.
            Yields-map (Yields-lift _ v (existing-BindsPlan held)) λ r u ((is_r, binds), same).
              record {
                binds = binds;
                source = canonical w.store taken (
                    subst (HeldReceipt w.store receipt.id (some r)) (sym same)
                      (subst (λ o. HeldReceipt w.store receipt.id o v) is_r at));
              }

    created-Ensured :
        (start : MemoryStore) (status : Creation) (w : World)
        → BindsPlan plan effect receipt.effect_index receipt.idempotency_key receipt
        → Attempted
            (record_key receipt_kind_name receipt.id)
            (stored_receipt_json receipt)
            (record_digest rt (stored_receipt_json receipt))
            start
            w.store
            status
        → Yields (Ensured start) (after_creation rt receipt plan effect status w)
    unfolding after_creation
    created-Ensured start was_created w binds (wrote now) =
        returned receipt w (record { binds = binds; source = written now })
    created-Ensured start was_same w binds (found_same taken) = reload-Ensured start w taken
    created-Ensured start was_conflict w binds (found_other taken) = reload-Ensured start w taken

    -- Whatever other writers do between the calls, for a receipt that binds an effect of a plan, what
    -- `ensureStoredPublicationReceipt` returns binds the same plan, effect, index and key. It is the
    -- receipt itself only where the call wrote it, at a key that had no cell until then; where the
    -- key had a cell when the call tried to write, it is what the store held there at the read after.
    pub ensure-Ensured :
        BindsPlan plan effect receipt.effect_index receipt.idempotency_key receipt
        → (w : World)
        → Yields (Ensured w.store) (ensure_stored_publication_receipt rt receipt plan effect w)
    unfolding ensure_stored_publication_receipt
    ensure-Ensured binds w =
        Yields-bind
          (create_only rt receipt_kind_name receipt.id (stored_receipt_json receipt)
            ("publication-receipt/" ⋯ receipt.id))
          _ w (create_only-Attempted rt _ _ _ _ w)
          λ status v attempt. created-Ensured w.store status v binds attempt

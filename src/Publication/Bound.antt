-- ===== src/Publication/Bound.antt =====
-- records/publication.ts: what a parsed plan binds, and when a receipt binds an effect.
use governed_learning_loop.Prelude.{
  String, ◌≡◌, ◌≢◌, ◌≤◌, ◌↔◌, refl, sym, Bool, true, false, not, Option, none, List, [], ◌∷◌, ◌++◌,
  map, length, All, arith, Eq, ◌!=◌, String_eq, Option_eq, ==_iff,
}
use governed_learning_loop.Diagnostics.{
  failure, Ensures, returns, Ensures-bind, Ensures-bind', Ensures-call, Ensures-guard,
}
use governed_learning_loop.Json.{Json, Runtime, sha256_hex_of_canonical_json}
use governed_learning_loop.Json.Parse.{invalid}
use governed_learning_loop.Json.Texts.{Ensures-req, Ensures-bounded}
use governed_learning_loop.Intervention.Parse.{has_duplicate, assert_unique_ids}
use governed_learning_loop.Semantic.{is_none_left}
use governed_learning_loop.Publication.{
  PublicationAction, publish, PreparedEffect, PublicationPlan, PublicationReceipt, ExpectedEffect,
  publication_plan_digest, publication_plan_id_for, publication_receipt_mismatch_reasons, field_if,
}
use governed_learning_loop.Publication.Parse.{
  parse_prepared_effect_at, parse_effects_at, parse_publication_plan, is_parent_mismatched,
  max_effects_per_plan,
}

pub equal_of : {x : Bool} → not x ≡ false → x ≡ true
equal_of {x = true} e = refl
equal_of {x = false} e = sym e

pub same_text : {a b : String} → (a != b) ≡ false → a ≡ b
same_text {a} {b} e = (==_iff a b).0 (equal_of e)

module _ (rt : Runtime) where
  abbrev pub IsPayloadBound : PreparedEffect → Type 0
  IsPayloadBound e = e.payload_digest ≡ sha256_hex_of_canonical_json rt e.payload

  pub record AreEffects (effects : List PreparedEffect) : Type 0 where
    pub bound : All IsPayloadBound effects
    pub few : length effects ≤ 100
    pub present : effects ≢ []
    pub distinct : has_duplicate [] (map (λ (e : PreparedEffect). e.id) effects) ≡ false

  -- What a plan binds: its id is its digest, the digest is that of its content, and each payload is
  -- bound by its digest; it names the intervention that it reverses just when it does not publish.
  pub record IsBoundPlan (p : PublicationPlan) : Type 0 where
    pub identified : p.id ≡ publication_plan_id_for rt p.plan_digest
    pub digested : p.plan_digest ≡ publication_plan_digest rt p
    pub reversing : (p.action ≡ publish) ↔ (p.lineage.parent_intervention_id ≡ none)
    pub effects : AreEffects p.effects

  effect-IsPayloadBound : (j : Json) → Ensures IsPayloadBound (parse_prepared_effect_at rt j)
  unfolding parse_prepared_effect_at
  effect-IsPayloadBound j = Ensures-bind (Ensures-call _) λ fields _.
      Ensures-bind (Ensures-call _) λ id _. Ensures-bind (Ensures-call _) λ kind _.
        Ensures-bind (Ensures-call _) λ target _. Ensures-bind (Ensures-call _) λ base _.
          Ensures-bind (Ensures-call _) λ payload _. Ensures-bind (Ensures-call _) λ digest _.
            Ensures-guard _ (failure "schema.corrupt")
              λ e. Ensures-bind (Ensures-call _) λ after _. returns _ (same_text e)

  effects-AreEffects : (j : Json) → Ensures AreEffects (parse_effects_at rt j)
  unfolding parse_effects_at assert_unique_ids
  effects-AreEffects j =
      Ensures-bind (Ensures-bounded max_effects_per_plan j effect-IsPayloadBound)
        λ effects (bound, few). Ensures-guard _ invalid λ left. Ensures-guard _ invalid λ distinct.
          returns effects (record {
            bound = bound;
            few = few;
            present = some_left effects left;
            distinct = distinct;
          })
    where
      some_left : (effects : List PreparedEffect) → is_none_left effects ≡ false → effects ≢ []
      some_left [] e n = cc
      some_left (x ∷ xs) e n = cc

  pub parent_matches :
      (action : PublicationAction) (parent : Option String)
      → is_parent_mismatched rt action parent ≡ false
      → (action ≡ publish) ↔ (parent ≡ none)
  unfolding is_parent_mismatched
  parent_matches action parent e = ground arith

  -- Whatever JSON value `parsePublicationPlan` accepts, the plan that it returns is bound: its id is
  -- the id of its digest, its digest is that of its own content, it has one to 100 effects with
  -- distinct ids, each bound to its payload by the payload's digest, and it names a parent
  -- intervention just when its action is not `publish`.
  pub parse-IsBoundPlan : (j : Json) → Ensures IsBoundPlan (parse_publication_plan rt j)
  unfolding parse_publication_plan publication_plan_digest
  parse-IsBoundPlan j = Ensures-bind (Ensures-call _) λ fields _.
      Ensures-bind' (Ensures-call _) λ _ _. Ensures-bind (Ensures-call _) λ candidate _.
        Ensures-bind (Ensures-call _) λ candidate_digest _.
          Ensures-bind (Ensures-call _) λ destination _. Ensures-bind (Ensures-call _) λ action _.
            Ensures-bind (Ensures-call _) λ effect_class _. Ensures-bind (Ensures-call _) λ risk _.
              Ensures-bind (Ensures-req fields "effects" effects-AreEffects) λ effects are.
                Ensures-bind (Ensures-call _) λ lineage _. Ensures-bind (Ensures-call _) λ policy _.
                  Ensures-guard _ invalid λ parent. Ensures-bind (Ensures-call _) λ digest _.
                    Ensures-guard _ (failure "schema.corrupt") λ digested.
                      Ensures-bind (Ensures-call _) λ id _.
                        Ensures-guard _ (failure "schema.corrupt") λ identified.
                          Ensures-bind (Ensures-call _) λ created _. returns _ (record {
                            identified = same_text identified;
                            digested = same_text digested;
                            reversing = parent_matches action lineage.parent_intervention_id parent;
                            effects = are;
                          })

-- A receipt and an effect agree in everything that binds them.
pub record BindsEffect (r : PublicationReceipt) (e : ExpectedEffect) : Type 0 where
  pub destination : r.destination_id ≡ e.destination_id
  pub effect : r.effect_id ≡ e.effect.id
  pub target : r.target ≡ e.effect.target
  pub payload : r.payload_digest ≡ e.effect.payload_digest
  pub key : r.idempotency_key ≡ e.idempotency_key
  pub base : r.expected_base ≡ e.effect.expected_base

no_reason :
    (b : Bool) (name : String) {rest : List String}
    → field_if b name ++ rest ≡ []
    → (b ≡ false) × (rest ≡ [])
no_reason true name h = cc
no_reason false name h = (refl, h)

no_last_reason : (b : Bool) (name : String) → field_if b name ≡ [] → b ≡ false
no_last_reason true name h = cc
no_last_reason false name h = refl

differs-false : {A : Type 0} ⦃q : Eq A⦄ {a b : A} → a ≡ b → (a != b) ≡ false
differs-false {a} {b} h = rw ((==_iff a b).1 h) refl

-- `publicationReceiptMismatchReasons` is empty just when the receipt names the expected destination,
-- effect, target, payload, idempotency key and base.
pub mismatch_reasons_iff :
    (r : PublicationReceipt) (e : ExpectedEffect)
    → (publication_receipt_mismatch_reasons r e ≡ []) ↔ BindsEffect r e
unfolding publication_receipt_mismatch_reasons
mismatch_reasons_iff r e = (forward, backward)
  where
    forward : publication_receipt_mismatch_reasons r e ≡ [] → BindsEffect r e
    forward h =
        let (d, h1) = no_reason _ "destinationId" h in
        let (f, h2) = no_reason _ "effectId" h1 in
        let (t, h3) = no_reason _ "target" h2 in
        let (p, h4) = no_reason _ "payloadDigest" h3 in
        let (k, h5) = no_reason _ "idempotencyKey" h4 in
        record {
          destination = same_text d;
          effect = same_text f;
          target = same_text t;
          payload = same_text p;
          key = same_text k;
          base =
              (==_iff r.expected_base e.effect.expected_base).0
                (equal_of (no_last_reason _ "expectedBase" h5));
        }

    backward : BindsEffect r e → publication_receipt_mismatch_reasons r e ≡ []
    backward b =
        rw
          (
            differs-false b.destination,
            differs-false b.effect,
            differs-false b.target,
            differs-false b.payload,
            differs-false b.key,
            differs-false b.base,
          )
          refl

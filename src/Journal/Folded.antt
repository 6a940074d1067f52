-- ===== src/Journal/Folded.antt =====
-- engine/publication-journal.ts, `foldRecord`: what its loop has checked and collected.
use governed_learning_loop.Prelude.{
  String, ◌≡◌, refl, sym, ap, Bool, true, false, not, ◌||◌, Option, none, some, List, [], ◌∷◌, ◌++◌,
  any, All, if◌then◌else◌, ◌==◌, String_eq, ==_iff, ==_refl, arith,
}
use governed_learning_loop.Diagnostics.{
  Ensures, returns, Ensures-bind, Ensures-bind', Ensures-guard, Ensures-map,
}
use governed_learning_loop.Intervention.{
  InterventionTransition, TransitionKind, authorize, publish, fail, validate, disable, rollback,
  Validation, Validation_eq, intervention_transition_kind,
}
use governed_learning_loop.Engine.{store_corrupt}
use governed_learning_loop.Journal.Evaluations.{BoundEvaluation}
use governed_learning_loop.Journal.Fold.{
  add_ids, verdict_of, check_cited, is_not_verdict, FoldedIds, fold_transition, fold_transitions,
}

abbrev pub has_id_in : List String → String → Bool
has_id_in set id = any (λ s. s == id) set

has_id_in-append :
    (set : List String) (x id : String)
    → has_id_in (set ++ x ∷ []) id ≡ (has_id_in set id || x == id)
has_id_in-append [] x id = ground arith
has_id_in-append (s ∷ set) x id = ground (arith, has_id_in-append set x id)

add_one-kept :
    (set : List String) (x id : String)
    → has_id_in set id ≡ true
    → has_id_in (if has_id_in set x then set else set ++ x ∷ []) id ≡ true
add_one-kept set x id h = ground (arith, has_id_in-append set x id)

add_one-has :
    (set : List String) (x : String)
    → has_id_in (if has_id_in set x then set else set ++ x ∷ []) x ≡ true
add_one-has set x = ground (arith, has_id_in-append set x x, ==_refl x)

add_ids-kept :
    (set ids : List String) (id : String)
    → has_id_in set id ≡ true
    → has_id_in (add_ids set ids) id ≡ true
unfolding add_ids
add_ids-kept set [] id h = h
add_ids-kept set (x ∷ ids) id h =
    add_ids-kept (if has_id_in set x then set else set ++ x ∷ []) ids id (add_one-kept set x id h)

add_ids-All : (set ids : List String) → All (λ id. has_id_in (add_ids set ids) id ≡ true) ids
unfolding add_ids
add_ids-All set [] = tt
add_ids-All set (x ∷ ids) = (
  add_ids-kept (if has_id_in set x then set else set ++ x ∷ []) ids x (add_one-has set x),
  add_ids-All (if has_id_in set x then set else set ++ x ∷ []) ids,
)

module _ (evaluations : List BoundEvaluation) where
  -- What the fold has made of the evidence of one transition, by the kind of its edge.
  abbrev pub FoldedInto : FoldedIds → InterventionTransition → Option TransitionKind → Type 0
  FoldedInto ids t (some authorize) =
      All (λ id. has_id_in ids.authorization_ids id ≡ true) t.evidence_ids
  FoldedInto ids t (some publish) = All (λ id. has_id_in ids.receipt_ids id ≡ true) t.evidence_ids
  FoldedInto ids t (some fail) = All (λ id. has_id_in ids.receipt_ids id ≡ true) t.evidence_ids
  FoldedInto ids t (some validate) =
      All (λ id. verdict_of evaluations id ≡ some t.to.validation) t.evidence_ids
  FoldedInto ids t _ = Unit

  verdict_found : (o : Option Validation) (v : Validation) → is_not_verdict o v ≡ false → o ≡ some v
  verdict_found none v h = cc
  verdict_found (some w) v h = ap some ((==_iff w v).0 (equal (w == v) h))
    where
      equal : (x : Bool) → not x ≡ false → x ≡ true
      equal true e = refl
      equal false e = sym e

  cited-All :
      (landed : Validation) (ids : List String)
      → Ensures
          (λ _. All (λ id. verdict_of evaluations id ≡ some landed) ids)
          (check_cited evaluations landed ids)
  unfolding check_cited
  cited-All landed [] = returns tt tt
  cited-All landed (id ∷ ids) = Ensures-guard _ store_corrupt λ e.
      Ensures-map (cited-All landed ids)
        λ _ rest. (verdict_found (verdict_of evaluations id) landed e, rest)

  -- The collected ids only grow.
  record Kept (old new : FoldedIds) : Type 0 where
    receipts :
        (id : String) → has_id_in old.receipt_ids id ≡ true → has_id_in new.receipt_ids id ≡ true
    authorizations :
        (id : String)
        → has_id_in old.authorization_ids id ≡ true
        → has_id_in new.authorization_ids id ≡ true

  Kept-refl : (ids : FoldedIds) → Kept ids ids
  Kept-refl ids = record { receipts = λ id h. h; authorizations = λ id h. h }

  All-map :
      {P Q : String → Type 0} (ids : List String)
      → ((id : String) → P id → Q id)
      → All P ids
      → All Q ids
  All-map [] k h = tt
  All-map (id ∷ ids) k (h, hs) = (k id h, All-map ids k hs)

  FoldedInto-Kept :
      {old new : FoldedIds} (t : InterventionTransition) (kind : Option TransitionKind)
      → Kept old new
      → FoldedInto old t kind
      → FoldedInto new t kind
  FoldedInto-Kept t (some authorize) k h = All-map t.evidence_ids k.authorizations h
  FoldedInto-Kept t (some publish) k h = All-map t.evidence_ids k.receipts h
  FoldedInto-Kept t (some fail) k h = All-map t.evidence_ids k.receipts h
  FoldedInto-Kept t (some validate) k h = h
  FoldedInto-Kept t (some disable) k h = h
  FoldedInto-Kept t (some rollback) k h = h
  FoldedInto-Kept t none k h = h

  step-FoldedInto :
      (ids : FoldedIds) (t : InterventionTransition) (kind : Option TransitionKind)
      → Ensures
          (λ new. Kept ids new × FoldedInto new t kind)
          (fold_transition evaluations ids t kind)
  unfolding fold_transition
  step-FoldedInto ids t (some authorize) = returns _ (
    record {
      receipts = λ id h. h;
      authorizations = add_ids-kept ids.authorization_ids t.evidence_ids;
    },
    add_ids-All ids.authorization_ids t.evidence_ids,
  )
  step-FoldedInto ids t (some publish) = returns _ (
    record { receipts = add_ids-kept ids.receipt_ids t.evidence_ids; authorizations = λ id h. h },
    add_ids-All ids.receipt_ids t.evidence_ids,
  )
  step-FoldedInto ids t (some fail) = returns _ (
    record { receipts = add_ids-kept ids.receipt_ids t.evidence_ids; authorizations = λ id h. h },
    add_ids-All ids.receipt_ids t.evidence_ids,
  )
  step-FoldedInto ids t (some validate) =
      Ensures-bind' (cited-All t.to.validation t.evidence_ids) λ _ h. returns ids (Kept-refl ids, h)
  step-FoldedInto ids t (some disable) = returns ids (Kept-refl ids, tt)
  step-FoldedInto ids t (some rollback) = returns ids (Kept-refl ids, tt)
  step-FoldedInto ids t none = returns ids (Kept-refl ids, tt)

  abbrev kind_of : InterventionTransition → Option TransitionKind
  kind_of t = intervention_transition_kind t.from t.to

  fold-Kept :
      (ids : FoldedIds) (ts : List InterventionTransition)
      → Ensures
          (λ new. Kept ids new × All (λ t. FoldedInto new t (kind_of t)) ts)
          (fold_transitions evaluations ids ts)
  unfolding fold_transitions
  fold-Kept ids [] = returns ids (Kept-refl ids, tt)
  fold-Kept ids (t ∷ ts) = Ensures-bind (step-FoldedInto ids t (kind_of t)) λ next (k, h).
      Ensures-map (fold-Kept next ts) λ new (later, hs). (
        record {
          receipts = λ id e. later.receipts id (k.receipts id e);
          authorizations = λ id e. later.authorizations id (k.authorizations id e);
        },
        (FoldedInto-Kept t (kind_of t) later h, hs),
      )

  -- When the loop of `foldRecord` returns, it has collected the evidence of every authorize edge among
  -- the authorizations and of every publish or fail edge among the receipts, and each evaluation that
  -- a validate edge cites is one of the evaluations, with the verdict on which the edge lands.
  pub fold_transitions-All :
      (ids : FoldedIds) (ts : List InterventionTransition)
      → Ensures
          (λ new. All (λ t. FoldedInto new t (intervention_transition_kind t.from t.to)) ts)
          (fold_transitions evaluations ids ts)
  fold_transitions-All ids ts = Ensures-map (fold-Kept ids ts) λ new (k, h). h

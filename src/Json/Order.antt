-- ===== src/Json/Order.antt =====
-- canonical/canonical-json.ts: the canonical text depends on no order in which members were written.
use governed_learning_loop.Prelude.{
  String, ◌≡◌, ◌≢◌, refl, ap, ◌∙◌, true, false, List, [], ◌∷◌, arith,
}
use governed_learning_loop.Json.{
  Json, arr, obj, Items, nil, cons, Fields, end, field, Runtime, ◌⋯◌, insert_member, member_texts,
  canonical_json_text, items_text, sorted_members, sha256_hex_of_canonical_json,
}

-- The order of texts that `sort` uses is strict and total.
pub record IsTextOrder (rt : Runtime) : Type 0 where
  pub before_trans :
      (a b c : String) → rt.before a b ≡ true → rt.before b c ≡ true → rt.before a c ≡ true
  pub before_asymm : (a b : String) → rt.before a b ≡ true → rt.before b a ≡ false
  pub before_total : (a b : String) → a ≢ b → rt.before a b ≡ false → rt.before b a ≡ true

-- Values that differ only in the order of members, at any depth.
mutual
  pub data Same : Json → Json → Type 0 where
    same : (v : Json) → Same v v
    same_items : {xs ys : Items} → SameItems xs ys → Same (arr xs) (arr ys)
    same_members : {fs gs : Fields} → SameMembers fs gs → Same (obj fs) (obj gs)

  pub data SameItems : Items → Items → Type 0 where
    no_items : SameItems nil nil
    and_item :
        {v w : Json} {xs ys : Items}
        → Same v w
        → SameItems xs ys
        → SameItems (cons v xs) (cons w ys)

  pub data SameMembers : Fields → Fields → Type 0 where
    no_members : SameMembers end end
    and_member :
        {v w : Json} {fs gs : Fields} (k : String)
        → Same v w
        → SameMembers fs gs
        → SameMembers (field k v fs) (field k w gs)
    swap_members :
        (k j : String) (v w : Json) (fs : Fields)
        → k ≢ j
        → SameMembers (field k v (field j w fs)) (field j w (field k v fs))
    then_members : {fs gs hs : Fields} → SameMembers fs gs → SameMembers gs hs → SameMembers fs hs

module _ (rt : Runtime) (o : IsTextOrder rt) where
  insert_member_comm :
      (k j t u : String) (ms : List (String × String))
      → k ≢ j
      → insert_member rt k t (insert_member rt j u ms)
        ≡ insert_member rt j u (insert_member rt k t ms)
  insert_member_comm k j t u [] d =
      ground (arith, o.before_asymm k j, o.before_asymm j k, o.before_total k j d)
  insert_member_comm k j t u ((i, w) ∷ ms) d = ground (
    arith,
    o.before_asymm k j,
    o.before_asymm j k,
    o.before_total k j d,
    o.before_trans k j i,
    o.before_trans j k i,
    insert_member_comm k j t u ms d,
  )

  mutual
    unfolding canonical_json_text

    Same-text : {v w : Json} → Same v w → canonical_json_text rt v ≡ canonical_json_text rt w
    Same-text (same v) = refl
    Same-text (same_items e) = ap (λ t. "[" ⋯ t ⋯ "]") (SameItems-text e)
    Same-text (same_members e) = ap (λ ms. "{" ⋯ member_texts rt ms ⋯ "}") (same_sorted e)

    SameItems-text : {xs ys : Items} → SameItems xs ys → items_text rt xs ≡ items_text rt ys
    SameItems-text no_items = refl
    SameItems-text (and_item e no_items) = Same-text e
    SameItems-text (and_item e (and_item f es)) =
        λ i. Same-text e i ⋯ "," ⋯ SameItems-text (and_item f es) i

    same_sorted : {fs gs : Fields} → SameMembers fs gs → sorted_members rt fs ≡ sorted_members rt gs
    same_sorted no_members = refl
    same_sorted (and_member k e es) = λ i. insert_member rt k (Same-text e i) (same_sorted es i)
    same_sorted (swap_members k j v w fs d) =
        insert_member_comm k j (canonical_json_text rt v) (canonical_json_text rt w)
          (sorted_members rt fs) d
    same_sorted (then_members d e) = same_sorted d ∙ same_sorted e

  -- Two JSON values that differ only in the order of their members, at any depth, have one canonical
  -- text and one digest, where the order of texts that sorts the members is strict and total.
  pub digest_order_free :
      {v w : Json}
      → Same v w
      → (canonical_json_text rt v ≡ canonical_json_text rt w)
        × (sha256_hex_of_canonical_json rt v ≡ sha256_hex_of_canonical_json rt w)
  unfolding sha256_hex_of_canonical_json
  digest_order_free e = (Same-text e, ap rt.sha256 (Same-text e))

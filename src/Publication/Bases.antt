-- ===== src/Publication/Bases.antt =====
-- records/publication.ts, `authorizationBindingForPlan`: the bases that a binding expects.
use governed_learning_loop.Prelude.{
  String, ◌≡◌, refl, sym, ap, ◌∙◌, Bool, true, false, not, ◌||◌, Option, none, some, List, [], ◌∷◌,
  ◌++◌, any, arith, if◌then◌else◌, ◌==◌, String_eq, Option_eq, ==_iff, ne_of_eq-false, subst,
}
use governed_learning_loop.Diagnostics.{ok, ◌>>=◌, ◌>>◌}
use governed_learning_loop.Json.{Runtime}
use governed_learning_loop.Json.Order.{IsTextOrder}
use governed_learning_loop.Semantic.{assert_sorted_unique, sorted_after, is_not_after}
use governed_learning_loop.Publication.{
  PreparedEffect, collect_bases, add_base, insert_base, sort_bases, expected_bases_of,
}

abbrev has_text : String → List String → Bool
has_text b bases = any (λ c. c == b) bases

abbrev has_base : String → List PreparedEffect → Bool
has_base b effects = any (λ (e : PreparedEffect). e.expected_base == some b) effects

has_text-append :
    (b c : String) (bases : List String)
    → has_text b (bases ++ c ∷ []) ≡ (has_text b bases || c == b)
has_text-append b c [] = ground arith
has_text-append b c (d ∷ bases) = ground (arith, has_text-append b c bases)

or_false : (x : Bool) → (x || false) ≡ x
or_false true = refl
or_false false = refl

or_assoc : (x y z : Bool) → ((x || y) || z) ≡ (x || (y || z))
or_assoc true y z = refl
or_assoc false y z = refl

abbrev Distinct : List String → Type 0
Distinct [] = Unit
Distinct (c ∷ cs) = (has_text c cs ≡ false) × Distinct cs

parts_false : (x y : Bool) → (x || y) ≡ false → (x ≡ false) × (y ≡ false)
parts_false true y h = cc
parts_false false y h = (refl, h)

eq_swap : (a b : String) → (a == b) ≡ false → (b == a) ≡ false
eq_swap a b h = by (b == a) refl
  where
    by : (x : Bool) → (b == a) ≡ x → x ≡ false
    by true e = let k : (a == b) ≡ true = (==_iff a b).1 (sym ((==_iff b a).0 e)) in cc
    by false e = refl

Distinct-append :
    (b : String) (bases : List String)
    → Distinct bases
    → has_text b bases ≡ false
    → Distinct (bases ++ b ∷ [])
Distinct-append b [] d h = (refl, tt)
Distinct-append b (c ∷ cs) (dc, d) h =
    let (first, later) = parts_false (c == b) (has_text b cs) h in
    (has_text-append c b cs ∙ rw (dc, eq_swap c b first) refl, Distinct-append b cs d later)

module _ (rt : Runtime) where
  add_base-has :
      (b : String) (o : Option String) (bases : List String)
      → has_text b (add_base rt o bases) ≡ (has_text b bases || o == some b)
  add_base-has b none bases = ground arith
  add_base-has b (some c) bases = by_presence (has_text c bases) refl
    where
      same_present :
          (c ≡ b) → has_text c bases ≡ true → has_text b bases ≡ (has_text b bases || c == b)
      same_present e h =
          let k : has_text b bases ≡ true = subst (λ x. has_text x bases ≡ true) e h in rw k refl

      already :
          (x : Bool)
          → (c == b) ≡ x
          → has_text c bases ≡ true
          → has_text b bases ≡ (has_text b bases || c == b)
      already true e h = same_present ((==_iff c b).0 e) h
      already false e h = rw e (sym (or_false (has_text b bases)))

      by_presence :
          (x : Bool)
          → has_text c bases ≡ x
          → has_text b (if x then bases else bases ++ c ∷ []) ≡ (has_text b bases || c == b)
      by_presence true e = already (c == b) refl e
      by_presence false e = has_text-append b c bases

  insert_base-has :
      (b c : String) (bases : List String)
      → has_text b (insert_base rt c bases) ≡ (c == b || has_text b bases)
  unfolding insert_base
  insert_base-has b c [] = refl
  insert_base-has b c (d ∷ bases) = ground (arith, insert_base-has b c bases)

  sort_bases-has :
      (b : String) (bases : List String) → has_text b (sort_bases rt bases) ≡ has_text b bases
  unfolding sort_bases
  sort_bases-has b [] = refl
  sort_bases-has b (c ∷ bases) =
      insert_base-has b c (sort_bases rt bases) ∙ ap (λ x. c == b || x) (sort_bases-has b bases)

  collect_bases-has :
      (b : String) (bases : List String) (effects : List PreparedEffect)
      → has_text b (collect_bases rt bases effects) ≡ (has_text b bases || has_base b effects)
  unfolding collect_bases
  collect_bases-has b bases [] = ground arith
  collect_bases-has b bases (e ∷ effects) =
      collect_bases-has b (add_base rt e.expected_base bases) effects
      ∙ (ap (λ x. x || has_base b effects) (add_base-has b e.expected_base bases)
          ∙ or_assoc (has_text b bases) (e.expected_base == some b) (has_base b effects))

  add_base-Distinct :
      (o : Option String) (bases : List String) → Distinct bases → Distinct (add_base rt o bases)
  add_base-Distinct none bases d = d
  add_base-Distinct (some b) bases d = by_presence (has_text b bases) refl
    where
      by_presence :
          (x : Bool) → has_text b bases ≡ x → Distinct (if x then bases else bases ++ b ∷ [])
      by_presence true e = d
      by_presence false e = Distinct-append b bases d e

  collect_bases-Distinct :
      (bases : List String) (effects : List PreparedEffect)
      → Distinct bases
      → Distinct (collect_bases rt bases effects)
  unfolding collect_bases
  collect_bases-Distinct bases [] d = d
  collect_bases-Distinct bases (e ∷ effects) d =
      collect_bases-Distinct (add_base rt e.expected_base bases) effects
        (add_base-Distinct e.expected_base bases d)

  abbrev Rising : Option String → List String → Type 0
  Rising previous [] = Unit
  Rising previous (c ∷ cs) = (is_not_after rt previous c ≡ false) × Rising (some c) cs

  Rising-sorted_after :
      (previous : Option String) (keys : List String)
      → Rising previous keys
      → sorted_after rt previous keys ≡ ok tt
  unfolding sorted_after ◌>>=◌ ◌>>◌
  Rising-sorted_after previous [] h = refl
  Rising-sorted_after previous (c ∷ cs) (h, hs) = rw (h, Rising-sorted_after (some c) cs hs) refl

  module _ (o : IsTextOrder rt) where
    insert_base-Rising :
        (previous : Option String) (b : String) (cs : List String)
        → Rising previous cs
        → is_not_after rt previous b ≡ false
        → has_text b cs ≡ false
        → Rising previous (insert_base rt b cs)
    unfolding insert_base
    insert_base-Rising previous b [] h first new = (first, tt)
    insert_base-Rising previous b (c ∷ cs) (hc, hs) first new =
        let (differ, later) = parts_false (c == b) (has_text b cs) new in
        place (rt.before b c) refl (insert_base-Rising (some c) b cs hs) differ later
      where
        place :
            (x : Bool)
            → rt.before b c ≡ x
            → (is_not_after rt (some c) b ≡ false
                → has_text b cs ≡ false
                → Rising (some c) (insert_base rt b cs))
            → (c == b) ≡ false
            → has_text b cs ≡ false
            → Rising previous (if x then b ∷ c ∷ cs else c ∷ insert_base rt b cs)
        place true e rest differ later = (first, (ap not e, hs))
        place false e rest differ later = (
          hc,
          rest (ap not (o.before_total b c (λ s. ne_of_eq-false c b differ (sym s)) e)) later,
        )

    sort_bases-Rising : (bases : List String) → Distinct bases → Rising none (sort_bases rt bases)
    unfolding sort_bases
    sort_bases-Rising [] d = tt
    sort_bases-Rising (b ∷ bases) (db, d) =
        insert_base-Rising none b (sort_bases rt bases) (sort_bases-Rising bases d) refl
          (sort_bases-has b bases ∙ db)

    -- The bases that the binding of a plan expects are in the form that `parseAuthorizationBinding`
    -- demands, sorted and without duplicates, and a text is one of them just when it is the expected
    -- base of some effect of the plan, where the order of texts is strict and total.
    pub expected_bases_lem :
        (effects : List PreparedEffect)
        → (assert_sorted_unique rt (expected_bases_of rt effects) ≡ ok tt)
          × ((b : String)
              → any (λ c. c == b) (expected_bases_of rt effects)
                ≡ any (λ (e : PreparedEffect). e.expected_base == some b) effects)
    unfolding assert_sorted_unique expected_bases_of
    expected_bases_lem effects = (
      Rising-sorted_after none _ (sort_bases-Rising _ (collect_bases-Distinct [] effects tt)),
      λ b. sort_bases-has b (collect_bases rt [] effects) ∙ collect_bases-has b [] effects,
    )

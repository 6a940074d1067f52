-- ===== src/Json/Tests.antt =====
-- canonical/canonical-json.ts on an example: two orders of the members of one object. The order of
-- texts is that of their code points, which satisfies what the theorems ask of an order.
use Prim.Native.Char.{code}
use text.Mathlib.TextEquality.{Char-path}
use governed_learning_loop.Prelude.{
  ℕ, ne_of_eq-false, ◌≡◌, ◌≢◌, refl, Bool, true, false, List, [], ◌∷◌, arith, ltb, String,
  if◌then◌else◌,
}
use governed_learning_loop.Json.{
  Json, null, bool, obj, end, field, Runtime, canonical_json_text, sha256_hex_of_canonical_json,
}
use governed_learning_loop.Json.Order.{IsTextOrder, same_members, swap_members, digest_order_free}

abbrev codes : String → List ℕ
codes String.[] = []
codes (String.◌∷◌ c s) = code c ∷ codes s

codes_injective : (s t : String) → codes s ≡ codes t → s ≡ t
codes_injective String.[] String.[] e = refl
codes_injective String.[] (String.◌∷◌ d t) e = cc
codes_injective (String.◌∷◌ c s) String.[] e = cc
codes_injective (String.◌∷◌ c s) (String.◌∷◌ d t) e =
    λ i. String.◌∷◌ (Char-path c d heads i) (codes_injective s t tails i)
  where
    heads : code c ≡ code d
    heads = cc

    tails : codes s ≡ codes t
    tails = cc

abbrev earlier : List ℕ → List ℕ → Bool
earlier _ [] = false
earlier [] (n ∷ ns) = true
earlier (m ∷ ms) (n ∷ ns) =
    let rest = earlier ms ns in if ltb m n then true else if ltb n m then false else rest

earlier_trans :
    (ls ms ns : List ℕ) → earlier ls ms ≡ true → earlier ms ns ≡ true → earlier ls ns ≡ true
earlier_trans ls ms [] h k = k
earlier_trans ls [] (n ∷ ns) h k = cc
earlier_trans [] (m ∷ ms) (n ∷ ns) h k = refl
earlier_trans (l ∷ ls) (m ∷ ms) (n ∷ ns) h k = ground (arith, earlier_trans ls ms ns)

earlier_asymm : (ms ns : List ℕ) → earlier ms ns ≡ true → earlier ns ms ≡ false
earlier_asymm [] ns h = refl
earlier_asymm (m ∷ ms) [] h = cc
earlier_asymm (m ∷ ms) (n ∷ ns) h = ground (arith, earlier_asymm ms ns)

earlier_total : (ms ns : List ℕ) → ms ≢ ns → earlier ms ns ≡ false → earlier ns ms ≡ true
earlier_total [] [] d h = absurd (d refl)
earlier_total [] (n ∷ ns) d h = cc
earlier_total (m ∷ ms) [] d h = refl
earlier_total (m ∷ ms) (n ∷ ns) d h = ground (arith, earlier_total ms ns)

abbrev pub plain_runtime : Runtime
plain_runtime = record {
  sha256 = λ s. s;
  quote = λ s. s;
  number_text = λ _. "0";
  before = λ s t. earlier (codes s) (codes t);
  is_timestamp = λ _. true;
}

pub code_order : IsTextOrder plain_runtime
code_order = record {
  before_trans = λ a b c. earlier_trans (codes a) (codes b) (codes c);
  before_asymm = λ a b. earlier_asymm (codes a) (codes b);
  before_total = λ a b d. earlier_total (codes a) (codes b) (λ e. d (codes_injective a b e));
}

abbrev left : Json
left = obj (field "b" null (field "a" (bool true) end))

abbrev right : Json
right = obj (field "a" (bool true) (field "b" null end))

digest_order_free_example :
    (canonical_json_text plain_runtime left ≡ canonical_json_text plain_runtime right)
    × (sha256_hex_of_canonical_json plain_runtime left
        ≡ sha256_hex_of_canonical_json plain_runtime right)
digest_order_free_example =
    digest_order_free plain_runtime code_order
      (same_members (swap_members "b" "a" null (bool true) end (ne_of_eq-false "b" "a" refl)))

-- ===== src/Json/Texts.antt =====
-- The text rules of records/semantic-shared.ts, stated without the parsers.
use governed_learning_loop.Prelude.{
  ℕ, suc, ltb, String, ◌≡◌, ◌≢◌, ◌≤◌, refl, false, List, [], ◌∷◌, length, map, arith, eq_iff, All,
  ap, String_eq, Option, none, some,
}
use governed_learning_loop.Diagnostics.{
  ok, ◌>>=◌, ◌>>◌, >>=-eq-ok, Ensures, returns, throws, Ensures-bind, Ensures-guard, Ensures-map,
}
use governed_learning_loop.Json.{Json, str, arr, elems, of_list, Fields, get_field}
use governed_learning_loop.Json.Parse.{
  Parse, utf16_length, has_control_character, parse_durable_id, parse_bounded_text, traverse, req,
  parse_present, invalid, parse_bounded_array,
}

pub record IsBoundedText (maximum : ℕ) (s : String) : Type 0 where
  pub nonempty : s ≢ ""
  pub short : utf16_length s ≤ maximum
  pub printable : has_control_character s ≡ false

pub parse_bounded_text_ok :
    (m : ℕ) (s : String) → IsBoundedText m s → parse_bounded_text m (str s) ≡ ok s
unfolding parse_bounded_text ◌>>=◌ ◌>>◌
parse_bounded_text_ok m s h = ground (arith, eq_iff s "")

pub parse_bounded_text_sound :
    (m : ℕ) (j : Json) (s : String)
    → parse_bounded_text m j ≡ ok s
    → (j ≡ str s) × IsBoundedText m s
unfolding parse_bounded_text ◌>>=◌ ◌>>◌
parse_bounded_text_sound m (str t) s h = ground (arith, eq_iff t "", eq_iff s "")
parse_bounded_text_sound m _ s h = cc

abbrev pub IsDurableId : String → Type 0
IsDurableId = IsBoundedText 4096

pub parse_durable_id_ok : (s : String) → IsDurableId s → parse_durable_id (str s) ≡ ok s
unfolding parse_durable_id
parse_durable_id_ok s h = parse_bounded_text_ok 4096 s h

pub parse_durable_id_sound :
    (j : Json) (s : String) → parse_durable_id j ≡ ok s → (j ≡ str s) × IsDurableId s
unfolding parse_durable_id
parse_durable_id_sound j s h = parse_bounded_text_sound 4096 j s h

pub elems-of_list : (xs : List Json) → elems (of_list xs) ≡ xs
elems-of_list [] = refl
elems-of_list (x ∷ xs) = ap (λ ys. x ∷ ys) (elems-of_list xs)

pub traverse_durable_ok :
    (ids : List String) → All IsDurableId ids → traverse parse_durable_id (map str ids) ≡ ok ids
unfolding ◌>>=◌
traverse_durable_ok [] h = refl
traverse_durable_ok (s ∷ ids) (h, hs) =
    rw (parse_durable_id_ok s h, traverse_durable_ok ids hs) refl

pub traverse_durable_sound :
    (xs : List Json) (ids : List String)
    → traverse parse_durable_id xs ≡ ok ids
    → All IsDurableId ids × (length ids ≡ length xs)
unfolding ◌>>=◌
traverse_durable_sound [] ids h = ground arith
traverse_durable_sound (x ∷ xs) ids h =
    let (s, e, h1) = >>=-eq-ok _ _ h in
    let (rest, f, h2) = >>=-eq-ok _ _ h1 in
    let (all_rest, same) = traverse_durable_sound xs rest f in
    let (_, durable) = parse_durable_id_sound x s e in ground arith

-- A required field satisfies what its parser promises.
pub Ensures-req :
    {T : Type 0} {P : T → Type 0} {parse : Parse T} (fields : Fields) (key : String)
    → ((j : Json) → Ensures P (parse j))
    → Ensures P (req fields key parse)
Ensures-req {P} {parse} fields key h = present (get_field key fields)
  where
    present : (o : Option Json) → Ensures P (parse_present parse o)
    present none = throws invalid
    present (some j) = h j

-- Elements of an array satisfy what their parser promises, and are no more than the maximum.
Ensures-traverse :
    {T : Type 0} {P : T → Type 0} {parse : Parse T} (xs : List Json)
    → ((j : Json) → Ensures P (parse j))
    → Ensures (λ ts. All P ts × (length ts ≡ length xs)) (traverse parse xs)
Ensures-traverse [] h = returns [] (tt, refl)
Ensures-traverse (x ∷ xs) h = Ensures-bind (h x) λ t p.
    Ensures-bind (Ensures-traverse xs h) λ ts (ps, same). returns (t ∷ ts) ((p, ps), ap suc same)

pub Ensures-bounded :
    {T : Type 0} {P : T → Type 0} {parse : Parse T} (maximum : ℕ) (j : Json)
    → ((j : Json) → Ensures P (parse j))
    → Ensures (λ ts. All P ts × (length ts ≤ maximum)) (parse_bounded_array parse maximum j)
unfolding parse_bounded_array
Ensures-bounded maximum (arr xs) h = Ensures-guard _ invalid λ e.
    Ensures-map (Ensures-traverse (elems xs) h)
      λ ts (all, same). (all, not_above (length ts) (length (elems xs)) same e)
  where
    not_above : (n m : ℕ) → n ≡ m → ltb maximum m ≡ false → n ≤ maximum
    not_above n m same e = ground (arith, same)
Ensures-bounded maximum _ h = throws invalid

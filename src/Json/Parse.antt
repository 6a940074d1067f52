-- ===== src/Json/Parse.antt =====
-- parse/toolkit.ts: unknown-first parsers. A parser takes a JSON value and returns a typed value or
-- throws; the path that a diagnostic carries is left out.
use Prim.Native.Char.{code}
use governed_learning_loop.Prelude.{
  ℕ, String, ◌+◌, Bool, false, not, ◌&&◌, ◌||◌, Option, none, some, List, [], ◌∷◌, ltb, leb,
  if◌then◌else◌, ◌==◌, String_eq, ℕ_eq, length, all,
}
use governed_learning_loop.Diagnostics.{
  Result, ok, throw, ◌>>=◌, ◌>>◌, throw_if, failure, LearningLoopError,
}
use governed_learning_loop.Json.{
  Json, null, bool, num, str, arr, obj, Fields, Number, natural, elems, get_field, Runtime,
}

abbrev pub Parse {ℓ} : Type ℓ → Type ℓ
Parse T = Json → Result T

abbrev pub invalid : LearningLoopError
invalid = failure "schema.invalid"

unfoldable pub parse_text : Parse String
parse_text (str s) = ok s
parse_text _ = throw invalid

unfoldable pub parse_non_empty_text : Parse String
unfolding parse_text
parse_non_empty_text input = do value ← parse_text input; throw_if (value == "") invalid; ok value

unfoldable pub parse_finite_number : Parse Number
parse_finite_number (num n) = ok n
parse_finite_number _ = throw invalid

unfoldable pub parse_bool : Parse Bool
parse_bool (bool b) = ok b
parse_bool _ = throw invalid

-- `parseOneOf(values)`; the table gives the constructor that stands for each literal.
abbrev pub find_literal {ℓ} : {T : Type ℓ} → List (String × T) → String → Option T
find_literal [] s = none
find_literal ((k, v) ∷ rest) s = if k == s then some v else find_literal rest s

abbrev pub or_invalid {ℓ} : {T : Type ℓ} → Option T → Result T
or_invalid none = throw invalid
or_invalid (some v) = ok v

unfoldable pub parse_one_of {ℓ} : {T : Type ℓ} → List (String × T) → Parse T
parse_one_of values (str s) = or_invalid (find_literal values s)
parse_one_of values _ = throw invalid

-- `input.map(parse)`
abbrev pub traverse {ℓ} : {T : Type ℓ} → Parse T → List Json → Result (List T)
traverse parse [] = ok []
traverse parse (x ∷ xs) = do v ← parse x; vs ← traverse parse xs; ok (v ∷ vs)

unfoldable pub parse_array_of {ℓ} : {T : Type ℓ} → Parse T → Parse (List T)
parse_array_of element (arr xs) = traverse element (elems xs)
parse_array_of element _ = throw invalid

unfoldable pub read_fields : Parse Fields
read_fields (obj fs) = ok fs
read_fields _ = throw invalid

abbrev pub parse_present {ℓ} : {T : Type ℓ} → Parse T → Option Json → Result T
parse_present parse none = throw invalid
parse_present parse (some v) = parse v

abbrev parse_optional {ℓ} : {T : Type ℓ} → Parse T → Option Json → Result (Option T)
parse_optional parse none = ok none
parse_optional parse (some v) = do t ← parse v; ok (some t)

-- `fields.req(key, parse)`
abbrev pub req {ℓ} : {T : Type ℓ} → Fields → String → Parse T → Result T
req fields key parse = parse_present parse (get_field key fields)

-- `fields.opt(key, parse)`
abbrev pub opt {ℓ} : {T : Type ℓ} → Fields → String → Parse T → Result (Option T)
opt fields key parse = parse_optional parse (get_field key fields)

abbrev is_one : Option Json → Bool
is_one (some (num (natural n))) = n == 1
is_one _ = false

abbrev pub schema_version_1 : Fields → Result (Unit {0})
schema_version_1 fields =
    throw_if (not (is_one (get_field "schemaVersion" fields)))
      (failure "schema.unsupported_version")

-- records/semantic-shared.ts. A text's `length` counts UTF-16 code units.
abbrev pub utf16_length : String → ℕ
utf16_length String.[] = 0
utf16_length (String.◌∷◌ c s) = (if ltb (code c) 65536 then 1 else 2) + utf16_length s

abbrev pub has_control_character : String → Bool
has_control_character String.[] = false
has_control_character (String.◌∷◌ c s) =
    (ltb (code c) 0x20 || code c == 0x7f) || has_control_character s

unfoldable pub parse_bounded_text : ℕ → Parse String
unfolding parse_non_empty_text
parse_bounded_text maximum_length input = do
  value ← parse_non_empty_text input
  throw_if (ltb maximum_length (utf16_length value)) invalid
  throw_if (has_control_character value) invalid
  ok value

unfoldable pub parse_id : Parse String
unfolding parse_bounded_text
parse_id = parse_bounded_text 1000

unfoldable pub parse_durable_id : Parse String
unfolding parse_bounded_text
parse_durable_id = parse_bounded_text 4096

abbrev is_lower_hex : ℕ → Bool
is_lower_hex c = (leb b'0' c && leb c b'9') || (leb b'a' c && leb c b'f')

abbrev pub codes : String → List ℕ
codes String.[] = []
codes (String.◌∷◌ c s) = code c ∷ codes s

-- `/^[0-9a-f]{64}$/`
abbrev pub is_digest : String → Bool
is_digest s = length (codes s) == 64 && all is_lower_hex (codes s)

unfoldable pub parse_digest_at : Parse String
unfolding parse_non_empty_text
parse_digest_at input = do
  digest ← parse_non_empty_text input
  throw_if (not (is_digest digest)) invalid
  ok digest

unfoldable pub parse_canonical_timestamp_at : Runtime → Parse String
unfolding parse_non_empty_text
parse_canonical_timestamp_at rt input = do
  value ← parse_non_empty_text input
  throw_if (not (rt.is_timestamp value)) invalid
  ok value

unfoldable pub parse_nullable {ℓ} : {T : Type ℓ} → Parse T → Parse (Option T)
parse_nullable parse null = ok none
parse_nullable parse input = do t ← parse input; ok (some t)

unfoldable pub parse_bounded_array {ℓ} : {T : Type ℓ} → Parse T → ℕ → Parse (List T)
parse_bounded_array parse maximum (arr xs) = do
  throw_if (ltb maximum (length (elems xs))) invalid
  traverse parse (elems xs)
parse_bounded_array parse maximum _ = throw invalid

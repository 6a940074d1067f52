-- ===== src/Json.antt =====
-- canonical/json.ts and canonical/canonical-json.ts: the JSON values, their canonical text and
-- their digest; parse/toolkit.ts and the text rules of records/semantic-shared.ts are in `Parse`.
pub mod Parse
pub mod Order
pub mod Texts
pub mod Tests
use Prim.Native.String
use Prim.Native.Char.{code}
use governed_learning_loop.Prelude.{
  ℕ, String, ◌+◌, Bool, true, false, Option, none, some, List, [], ◌∷◌, if◌then◌else◌, ◌==◌,
  String_eq,
}

-- A finite number: a natural one, or any other by its text.
pub data Number : Type 0 where
  natural : ℕ → Number
  other : String → Number

mutual
  pub data Json : Type 0 where
    null : Json
    bool : Bool → Json
    num : Number → Json
    str : String → Json
    arr : Items → Json
    obj : Fields → Json

  pub data Items : Type 0 where
    nil : Items
    cons : Json → Items → Items

  -- The own properties of a plain object, in their order.
  pub data Fields : Type 0 where
    end : Fields
    field : String → Json → Fields → Fields

abbrev pub of_list : List Json → Items
of_list [] = nil
of_list (x ∷ xs) = cons x (of_list xs)

abbrev pub elems : Items → List Json
elems nil = []
elems (cons x xs) = x ∷ elems xs

-- An object literal, from its members in order; an optional member spreads to nothing when absent.
abbrev pub fields_of : List (String × Json) → Fields
fields_of [] = end
fields_of ((k, v) ∷ rest) = field k v (fields_of rest)

abbrev pub optional_member : String → Option String → List (String × Json)
optional_member k none = []
optional_member k (some s) = (k, str s) ∷ []

-- `record[key]`
abbrev pub get_field : String → Fields → Option Json
get_field key end = none
get_field key (field k v fs) = if k == key then some v else get_field key fs

-- What the program takes from the language's runtime: SHA-256 in hexadecimal, `JSON.stringify` of a
-- text and of a number, the order of texts by UTF-16 code units, and whether a text is the
-- rendering of a date by `toISOString`.
pub record Runtime : Type 0 where
  pub sha256 : String → String
  pub quote : String → String
  pub number_text : Number → String
  pub before : String → String → Bool
  pub is_timestamp : String → Bool

infixr 66 ◌⋯◌
abbrev pub ◌⋯◌ : String → String → String
a ⋯ b = String.◌++◌ a b

module _ (rt : Runtime) where
  abbrev bool_text : Bool → String
  bool_text true = "true"
  bool_text false = "false"

  -- `Object.keys(value).sort()`, with the texts of the members carried along.
  abbrev pub insert_member : String → String → List (String × String) → List (String × String)
  insert_member k t [] = (k, t) ∷ []
  insert_member k t ((j, u) ∷ ms) =
      let later = (j, u) ∷ insert_member k t ms in
      if rt.before k j then (k, t) ∷ (j, u) ∷ ms else later

  abbrev pub member_texts : List (String × String) → String
  member_texts [] = ""
  member_texts ((k, t) ∷ []) = rt.quote k ⋯ ":" ⋯ t
  member_texts ((k, t) ∷ m ∷ ms) = rt.quote k ⋯ ":" ⋯ t ⋯ "," ⋯ member_texts (m ∷ ms)

  unfoldable mutual
    pub canonical_json_text : Json → String
    canonical_json_text null = "null"
    canonical_json_text (bool b) = bool_text b
    canonical_json_text (num n) = rt.number_text n
    canonical_json_text (str s) = rt.quote s
    canonical_json_text (arr xs) = "[" ⋯ items_text xs ⋯ "]"
    canonical_json_text (obj fs) = "{" ⋯ member_texts (sorted_members fs) ⋯ "}"

    -- The texts of the elements, joined by commas.
    pub items_text : Items → String
    items_text nil = ""
    items_text (cons x nil) = canonical_json_text x
    items_text (cons x (cons y ys)) = canonical_json_text x ⋯ "," ⋯ items_text (cons y ys)

    pub sorted_members : Fields → List (String × String)
    sorted_members end = []
    sorted_members (field k v fs) = insert_member k (canonical_json_text v) (sorted_members fs)

  unfoldable pub sha256_hex_of_canonical_json : Json → String
  sha256_hex_of_canonical_json value = rt.sha256 (canonical_json_text value)

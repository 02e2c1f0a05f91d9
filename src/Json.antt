-- ===== src/Json.antt =====
-- JSON documents as encoding/json reads them (a json.RawMessage and the values of a
-- map[string]any), with the two ways in which the code looks a member up.
use aceryx.Prelude.{
  ℕ, ◌+◌, String, Bool, true, false, ◌&&◌, Option, none, some, leb, nat_eq, ◌==◌, if◌then◌else◌,
  List, [], ◌∷◌,
}
use Prim.Native.Char.{code}

-- `num` is a number that is a natural one; any other keeps the text of its literal.
mutual
  pub data Json : Type 0 where
    null : Json
    bool : Bool → Json
    num : ℕ → Json
    decimal : String → Json
    str : String → Json
    arr : Items → Json
    obj : Fields → Json

  pub data Items : Type 0 where
    nil : Items
    cons : Json → Items → Items

  pub data Fields : Type 0 where
    end : Fields
    field : String → Json → Fields → Fields

-- A json.RawMessage: of length 0, not JSON, or a document.
pub data RawMessage : Type 0 where
  empty malformed : RawMessage
  document : Json → RawMessage

-- `v, ok := m[key]` after the object was decoded into a map: the last member of the name counts.
unfoldable pub member : String → Fields → Option Json
member key end = none
member key (field name value rest) = elim (member key rest) [
  | none ↦ if name == key then some value else none
  | some later ↦ some later
]

-- An ASCII letter in lower case.
abbrev pub lower_code : ℕ → ℕ
lower_code c = if leb b'A' c && leb c b'Z' then c + 32 else c

-- strings.ToLower on one character, so far as a comparison with ASCII text sees it: besides the capital
-- letters, the dotted I and the Kelvin sign turn into ASCII letters.
abbrev pub lower_rune : ℕ → ℕ
lower_rune c = if nat_eq c 0x130 then b'i' else if nat_eq c 0x212A then b'k' else lower_code c

unfoldable pub lower_codes : String → List ℕ
lower_codes String.[] = []
lower_codes (String.◌∷◌ c s) = lower_rune (code c) ∷ lower_codes s

-- Equality under ASCII case folding, as encoding/json matches a struct's tag. (Its two foldings
-- outside ASCII touch the letters k and s alone, which no tag here has.)
unfoldable pub equal_fold : String → String → Bool
equal_fold String.[] String.[] = true
equal_fold String.[] (String.◌∷◌ d t) = false
equal_fold (String.◌∷◌ c s) String.[] = false
equal_fold (String.◌∷◌ c s) (String.◌∷◌ d t) =
    nat_eq (lower_code (code c)) (lower_code (code d)) && equal_fold s t

-- What a string field of a struct holds after Unmarshal: `none` is an UnmarshalTypeError.
abbrev pub set_string : String → Json → Option String
set_string held null = some held
set_string held (str s) = some s
set_string held _ = none

-- The members are taken in order, and each that matches the tag is stored.
unfoldable pub string_field : String → String → Fields → Option String
string_field tag held end = some held
string_field tag held (field name value rest) =
    if equal_fold name tag
    then elim (set_string held value) [ none ↦ none | some s ↦ string_field tag s rest ]
    else string_field tag held rest

-- ===== src/Tasks/Paths.antt =====
-- internal/tasks/task_forms.go: the values at dotted paths of a map[string]any. A map that was
-- stored in another is not written to through its first name.
pub mod Laws
use aceryx.Prelude.{String, Bool, Option, none, some, List, [], ◌∷◌, nat_eq, ◌==◌, if◌then◌else◌}
use aceryx.Json.{Json, Fields, end, obj}
use aceryx.CaseData.{get, set, object_in}
use Prim.Native.Char.{Char, code}

abbrev begin_first : Char → List String → List String
begin_first c [] = String.◌∷◌ c "" ∷ []
begin_first c (word ∷ words) = String.◌∷◌ c word ∷ words

-- strings.Split(path, ".")
unfoldable pub split_dots : String → List String
split_dots String.[] = "" ∷ []
split_dots (String.◌∷◌ c rest) =
    let parts = split_dots rest in if nat_eq (code c) b'.' then "" ∷ parts else begin_first c parts

-- The loop of getAtPath.
unfoldable pub get_at_parts : List String → Json → Option Json
get_at_parts [] cur = some cur
get_at_parts (part ∷ rest) (obj fields) = elim (get part fields) [
  | none ↦ none
  | some value ↦ get_at_parts rest value
]
get_at_parts (part ∷ rest) _ = none

unfoldable pub get_at_path : Fields → String → Option Json
get_at_path fields path = get_at_parts (split_dots path) (obj fields)

-- The loop of setAtPath: a value on the way that is no map is replaced by an empty one.
unfoldable pub set_at_parts : List String → Json → Fields → Fields
set_at_parts [] value cur = cur
set_at_parts (part ∷ []) value cur = set part value cur
set_at_parts (part ∷ next ∷ rest) value cur =
    set part (obj (set_at_parts (next ∷ rest) value (object_in (get part cur)))) cur

unfoldable pub set_at_path : Fields → String → Json → Fields
set_at_path fields path value = set_at_parts (split_dots path) value fields

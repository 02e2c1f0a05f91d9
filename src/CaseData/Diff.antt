-- ===== src/CaseData/Diff.antt =====
-- internal/cases/merge.go: ComputeFieldDiff, what changed between two data of a case, by dotted paths.
-- Where two members flatten to one path, the later one counts, which Go leaves open.
pub mod Laws
use aceryx.Prelude.{String, Bool, Option, none, some, List, [], ◌∷◌, ◌++◌, map, ◌==◌, if◌then◌else◌}
use aceryx.Prelude.Map.{Map, lookup, insert, delete}
use aceryx.Json.{Json, null, bool, num, decimal, str, arr, obj, Fields, end, field}
use Prim.Native.String

-- An absent value is nil, as null is.
pub record FieldDiff : Type 0 where
  pub before : Json
  pub after : Json

abbrev pub next_path : String → String → String
next_path prefix k = if prefix == "" then k else String.◌++◌ prefix (String.◌++◌ "." k)

unfoldable mutual
  pub flatten_map : String → Json → Map Json → Map Json
  flatten_map prefix (obj fields) out = flatten_fields prefix fields out
  flatten_map prefix null out = insert prefix null out
  flatten_map prefix (bool b) out = insert prefix (bool b) out
  flatten_map prefix (num n) out = insert prefix (num n) out
  flatten_map prefix (decimal text) out = insert prefix (decimal text) out
  flatten_map prefix (str s) out = insert prefix (str s) out
  flatten_map prefix (arr items) out = insert prefix (arr items) out

  pub flatten_fields : String → Fields → Map Json → Map Json
  flatten_fields prefix end out = out
  flatten_fields prefix (field k v rest) out =
      flatten_fields prefix rest (flatten_map (next_path prefix k) v out)

abbrev pub flattened : Fields → Map Json
flattened fields = flatten_map "" (obj fields) []

abbrev pub paths_of : Map Json → List String
paths_of m = map (λ entry. entry.0) m

-- `deep_equal` is reflect.DeepEqual.
module _ (deep_equal : Json → Json → Bool) where
  -- The entry of a path, if there is one, from its two values.
  unfoldable pub difference : Option Json → Option Json → Option FieldDiff
  difference none none = none
  difference none (some after) = some (record { before = null; after = after })
  difference (some before) none = some (record { before = before; after = null })
  difference (some before) (some after) =
      if deep_equal before after then none else some (record { before = before; after = after })

  abbrev pub put : String → Option FieldDiff → Map FieldDiff → Map FieldDiff
  put path none diff = diff
  put path (some entry) diff = insert path entry diff

  -- The loop over the paths of both sides.
  unfoldable pub diff_paths : Map Json → Map Json → List String → Map FieldDiff → Map FieldDiff
  diff_paths lb la [] diff = diff
  diff_paths lb la (path ∷ rest) diff =
      diff_paths lb la rest (put path (difference (lookup path lb) (lookup path la)) diff)

  unfoldable pub compute_field_diff : Fields → Fields → Map FieldDiff
  compute_field_diff before after =
      let lb = flattened before in
      let la = flattened after in delete "" (diff_paths lb la (paths_of lb ++ paths_of la) [])

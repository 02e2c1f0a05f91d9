-- ===== src/CaseData.antt =====
-- internal/cases/merge.go: how a patch is merged into the data of a case. A map[string]any is an
-- object without the copies that cloneMap makes, which no caller can tell apart here.
pub mod Merge
pub mod Diff
mod Tests
use aceryx.Prelude.{String, Option, none, some, ◌==◌, if◌then◌else◌}
use aceryx.Json.{Json, null, obj, Fields, end, field}

-- v, ok := m[key]
unfoldable pub get : String → Fields → Option Json
get key end = none
get key (field name value rest) = if name == key then some value else get key rest

-- m[key] = value
unfoldable pub set : String → Json → Fields → Fields
set key value end = field key value end
set key value (field name held rest) =
    let kept = set key value rest in
    if name == key then field name value rest else field name held kept

-- out[k].(map[string]any), and the empty map where it is none.
abbrev pub object_in : Option Json → Fields
object_in (some (obj fields)) = fields
object_in _ = end

unfoldable mutual
  -- The loop over the patch, on the map `out`; `DeepMerge(base, patch)` starts with a copy of base.
  pub deep_merge : Fields → Fields → Fields
  deep_merge out end = out
  deep_merge out (field k pv rest) = deep_merge (set k (merged (get k out) pv) out) rest

  -- The new value of a key, from the old one and the patch's.
  pub merged : Option Json → Json → Json
  merged old (obj pm) = obj (deep_merge (object_in old) pm)
  merged old pv = pv

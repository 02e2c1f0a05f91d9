-- ===== src/CaseData/Merge.antt =====
-- What a merged object holds.
use aceryx.Prelude.{
  String, ◌≡◌, refl, ap, ◌∙◌, subst, inl, inr, Bool, true, false, Option, none, some, List, [], ◌∷◌,
  ◌==◌, if◌then◌else◌, arith, eq_iff, text_cases, text_eq_self, Bool-cases, Option-cases,
  some-injective,
}
use aceryx.Json.{Json, null, bool, num, decimal, str, arr, obj, Fields, end, field}
use aceryx.CaseData.{get, set, object_in, deep_merge, merged}

pub get-set :
    (key other : String) (value : Json) (m : Fields)
    → get other (set key value m) ≡ (if key == other then some value else get other m)
unfolding get set
get-set key other value end = refl
get-set key other value (field name held rest) =
    ground
      (arith, get-set key other value rest, eq_iff name key, eq_iff name other, eq_iff key other)

get-set_ne : {k j : String} (v : Json) (m : Fields) → ¬ (k ≡ j) → get j (set k v m) ≡ get j m
get-set_ne {k} {j} v m ne = ground (arith, get-set k j v m, eq_iff k j)

-- A map has each key once, at every depth.
unfoldable mutual
  pub Distinct : Fields → Type 0
  Distinct end = Unit
  Distinct (field k v rest) = (get k rest ≡ none) × (DistinctIn v × Distinct rest)

  pub DistinctIn : Json → Type 0
  DistinctIn (obj fields) = Distinct fields
  DistinctIn _ = Unit

-- The value of a key after the merge, from the two of before.
abbrev pub merged_at : Option Json → Option Json → Option Json
merged_at old none = old
merged_at old (some pv) = some (merged old pv)

-- A merge gives each key the value that the patch and the old value of that key determine, in
-- whatever order the patch's keys are gone through.
pub get-deep_merge :
    (base patch : Fields) (k : String)
    → Distinct patch
    → get k (deep_merge base patch) ≡ merged_at (get k base) (get k patch)
unfolding deep_merge get Distinct
get-deep_merge base end k d = refl
get-deep_merge base (field name pv rest) k d =
    let next = set name (merged (get name base) pv) base in
    let later = get-deep_merge next rest k d.1.1 in
    elim (text_cases name k) [
      | inl same ↦
          let gone : get k rest ≡ none = subst (λ n. get n rest ≡ none) same d.0 in
          let written : get k next ≡ some (merged (get k base) pv) =
            subst (λ n. get n next ≡ some (merged (get n base) pv)) same
              (get-set name name (merged (get name base) pv) base ∙ rw (text_eq_self name) refl) in
          later ∙ rw (gone, written, get, (eq_iff name k).1 same) refl
      | inr other ↦
          later ∙ rw (get-set_ne (merged (get name base) pv) base other.1, get, other.0) refl
    ]

-- The value at a path of keys.
abbrev pub value_at : List String → Json → Option Json
value_at [] v = some v
value_at (k ∷ ks) (obj fields) = elim (get k fields) [ none ↦ none | some v ↦ value_at ks v ]
value_at (k ∷ ks) _ = none

get-DistinctIn :
    (k : String) (fields : Fields) (v : Json)
    → Distinct fields
    → get k fields ≡ some v
    → DistinctIn v
unfolding get Distinct
get-DistinctIn k end v d h = cc h
get-DistinctIn k (field name held rest) v d h = elim (Bool-cases (name == k)) [
  | inl same ↦ subst DistinctIn (some-injective (rw (get, same) at h)) d.1.0
  | inr other ↦ get-DistinctIn k rest v d.1.1 (rw (get, other) at h)
]

abbrev pub is_object : Json → Bool
is_object (obj fields) = true
is_object _ = false

merged_plain : (old : Option Json) (v : Json) → is_object v ≡ false → merged old v ≡ v
unfolding merged
merged_plain old (obj fields) h = cc h
merged_plain old null h = refl
merged_plain old (bool b) h = refl
merged_plain old (num n) h = refl
merged_plain old (decimal text) h = refl
merged_plain old (str text) h = refl
merged_plain old (arr items) h = refl

-- The last keys of a path, looked up in a merged value.
leaf_below :
    (ks : List String) (old : Option Json) (v leaf : Json)
    → DistinctIn v
    → is_object leaf ≡ false
    → value_at ks v ≡ some leaf
    → value_at ks (merged old v) ≡ some leaf
unfolding merged Distinct
leaf_below [] old v leaf d plain h =
    ap some (merged_plain old v (ap is_object (some-injective h) ∙ plain)) ∙ h
leaf_below (k ∷ ks) old (obj pm) leaf d plain h = elim (Option-cases (get k pm)) [
  | inl missing ↦ cc (rw (value_at, missing) at h)
  | inr (v, found) ↦
      rw (value_at, get-deep_merge (object_in old) pm k d, found)
        (leaf_below ks (get k (object_in old)) v leaf (get-DistinctIn k pm v d found) plain
          (rw (value_at, found) at h))
]
leaf_below (k ∷ ks) old null leaf d plain h = cc h
leaf_below (k ∷ ks) old (bool b) leaf d plain h = cc h
leaf_below (k ∷ ks) old (num n) leaf d plain h = cc h
leaf_below (k ∷ ks) old (decimal text) leaf d plain h = cc h
leaf_below (k ∷ ks) old (str text) leaf d plain h = cc h
leaf_below (k ∷ ks) old (arr items) leaf d plain h = cc h

-- Whatever stands in a patch that is no object, a null included, stands at the same path in every
-- object into which the patch is merged.
pub deep_merge_leaf :
    (base patch : Fields) (path : List String) (leaf : Json)
    → Distinct patch
    → is_object leaf ≡ false
    → value_at path (obj patch) ≡ some leaf
    → value_at path (obj (deep_merge base patch)) ≡ some leaf
unfolding merged Distinct
deep_merge_leaf base patch path leaf d plain h =
    leaf_below path (some (obj base)) (obj patch) leaf d plain h

-- The patch sets neither the value at the path nor one above it.
pub data Untouched : List String → Fields → Type 0 where
  absent :
      {k : String} {ks : List String} {patch : Fields}
      → get k patch ≡ none
      → Untouched (k ∷ ks) patch
  below :
      {k j : String} {ks : List String} {patch pm : Fields}
      → get k patch ≡ some (obj pm)
      → Untouched (j ∷ ks) pm
      → Untouched (k ∷ j ∷ ks) patch

object_in_at :
    (old : Option Json) (j : String) (ks : List String)
    → value_at (j ∷ ks) (obj (object_in old))
      ≡ elim old [ none ↦ none | some v ↦ value_at (j ∷ ks) v ]
unfolding get
object_in_at none j ks = refl
object_in_at (some (obj fields)) j ks = refl
object_in_at (some null) j ks = refl
object_in_at (some (bool b)) j ks = refl
object_in_at (some (num n)) j ks = refl
object_in_at (some (decimal text)) j ks = refl
object_in_at (some (str text)) j ks = refl
object_in_at (some (arr items)) j ks = refl

-- A merge leaves the value at every path that the patch does not touch.
pub deep_merge_kept :
    (base patch : Fields) (path : List String)
    → Distinct patch
    → Untouched path patch
    → value_at path (obj (deep_merge base patch)) ≡ value_at path (obj base)
unfolding merged Distinct
deep_merge_kept base patch path d (absent {k} {ks} missing) =
    rw (value_at, get-deep_merge base patch k d, missing) refl
deep_merge_kept base patch path d (below {k} {j} {ks} {pm} found u) =
    rw (value_at, get-deep_merge base patch k d, found)
      (deep_merge_kept (object_in (get k base)) pm (j ∷ ks)
          (get-DistinctIn k patch (obj pm) d found) u
        ∙ object_in_at (get k base) j ks)

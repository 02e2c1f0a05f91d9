-- ===== src/Tasks/Paths/Laws.antt =====
-- internal/tasks/task_forms.go: setAtPath writes the value that getAtPath reads, and no other.
use aceryx.Prelude.{
  String, false, Option, none, some, List, [], ◌∷◌, nat_eq, ◌==◌, ◌≡◌, refl, ◌∙◌, inl, inr,
  Bool-cases, text_eq_self,
}
use aceryx.Json.{Json, Fields, obj}
use aceryx.CaseData.{get, set, object_in}
use aceryx.CaseData.Merge.{get-set}
use aceryx.Tasks.Paths.{split_dots, get_at_parts, get_at_path, set_at_parts, set_at_path}
use Prim.Native.Char.{code}

split_dots-nonempty :
    (s : String) → (word : String) × (words : List String) × (split_dots s ≡ word ∷ words)
unfolding split_dots
split_dots-nonempty String.[] = ("", [], refl)
split_dots-nonempty (String.◌∷◌ c rest) =
    let (word, words, e) = split_dots-nonempty rest in
    elim (Bool-cases (nat_eq (code c) b'.')) [
      | inl dot ↦ ("", split_dots rest, rw (dot, split_dots) refl)
      | inr other ↦ (String.◌∷◌ c word, words, rw (other, split_dots) (rw (e) refl))
    ]

get-set_self : (k : String) (v : Json) (m : Fields) → get k (set k v m) ≡ some v
get-set_self k v m = get-set k k v m ∙ rw (text_eq_self k) refl

get-set_other :
    (k j : String) (v : Json) (m : Fields) → (k == j) ≡ false → get j (set k v m) ≡ get j m
get-set_other k j v m differ = get-set k j v m ∙ rw (differ) refl

get-set_at_parts :
    (part : String) (rest : List String) (v : Json) (m : Fields)
    → get_at_parts (part ∷ rest) (obj (set_at_parts (part ∷ rest) v m)) ≡ some v
unfolding get_at_parts set_at_parts
get-set_at_parts part [] v m = rw (get_at_parts, get-set_self part v m) refl
get-set_at_parts part (next ∷ rest) v m =
    rw
      (
        get_at_parts,
        get-set_self part (obj (set_at_parts (next ∷ rest) v (object_in (get part m)))) m,
      )
      (get-set_at_parts next rest v (object_in (get part m)))

-- Two paths that part at some key.
pub data Apart : List String → List String → Type 0 where
  parted : {k j : String} {ks js : List String} → (k == j) ≡ false → Apart (k ∷ ks) (j ∷ js)
  deeper : {k : String} {ks js : List String} → Apart ks js → Apart (k ∷ ks) (k ∷ js)

-- What is read at the path of a map that is made where none was.
get_at-object_in :
    (j : String) (js : List String) (held : Option Json)
    → get_at_parts (j ∷ js) (obj (object_in held))
      ≡ elim held [ none ↦ none | some v ↦ get_at_parts (j ∷ js) v ]
unfolding get_at_parts get
get_at-object_in j js none = refl
get_at-object_in j js (some (obj fields)) = refl
get_at-object_in j js (some _) = refl

get_at-set_at-Apart :
    {ps qs : List String}
    → Apart ps qs
    → (v : Json) (m : Fields)
    → get_at_parts qs (obj (set_at_parts ps v m)) ≡ get_at_parts qs (obj m)
unfolding get_at_parts set_at_parts
get_at-set_at-Apart (parted {k} {j} {ks = []} {js} differ) v m =
    rw (get_at_parts, get-set_other k j v m differ) refl
get_at-set_at-Apart (parted {k} {j} {ks = next ∷ ks} {js} differ) v m =
    rw
      (
        get_at_parts,
        get-set_other k j (obj (set_at_parts (next ∷ ks) v (object_in (get k m)))) m differ,
      )
      refl
get_at-set_at-Apart (deeper {k} {ks = []} {js} a) v m = elim a [ ]
get_at-set_at-Apart (deeper {k} {ks = next ∷ ks} {js = []} a) v m = elim a [ ]
get_at-set_at-Apart (deeper {k} {ks = next ∷ ks} {js = j ∷ js} a) v m =
    let inner = obj (set_at_parts (next ∷ ks) v (object_in (get k m))) in
    rw (get_at_parts, get-set_self k inner m)
      (get_at-set_at-Apart a v (object_in (get k m)) ∙ get_at-object_in j js (get k m))

-- What setAtPath writes is read back at its path, and a read at a path that parts from it at some
-- key is what it was.
pub get_at_path-set_at_path :
    (fields : Fields) (path : String) (v : Json)
    → (get_at_path (set_at_path fields path v) path ≡ some v)
      × ((other : String)
          → Apart (split_dots path) (split_dots other)
          → get_at_path (set_at_path fields path v) other ≡ get_at_path fields other)
unfolding get_at_path set_at_path
get_at_path-set_at_path fields path v =
    (written path (split_dots-nonempty path), λ other a. get_at-set_at-Apart a v fields)
  where
    written :
        (p : String)
        → (word : String) × (words : List String) × (split_dots p ≡ word ∷ words)
        → get_at_parts (split_dots p) (obj (set_at_parts (split_dots p) v fields)) ≡ some v
    written p (word, words, e) = rw (e) (get-set_at_parts word words v fields)

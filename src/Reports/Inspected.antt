-- ===== src/Reports/Inspected.antt =====
-- internal/reports/validator.go: a query passes exactly where no part of its tree is forbidden.
use aceryx.Prelude.{
  String, Bool, true, false, not, ◌||◌, Result, ok, err, ◌>>◌, require, ◌==◌, eq_iff, ◌≡◌, refl,
  sym, subst₂, ◌↔◌, inl, inr, Bool-cases,
}
use aceryx.Json.{
  Json, null, bool, num, decimal, str, arr, obj, Items, nil, cons, Fields, end, field, lower_codes,
}
use aceryx.Workflows.Draft.{starts_with}
use aceryx.Reports.{
  SqlError, SqlInspector, contains_string, trimmed_text, check_range, extract_func_name,
  has_function, check_call, when_key, is_blocked_statement_node, disallowed_statement,
  schema_qualified, system_catalog, unapproved_view, unapproved_function, check_member,
  validate_node, validate_fields, validate_items,
}

-- A member of some object in a tree.
mutual
  pub data InTree (k : String) (v : Json) : Json → Type 0 where
    in_object : {fields : Fields} → InFields k v fields → InTree k v (obj fields)
    in_array : {items : Items} → InItems k v items → InTree k v (arr items)

  pub data InFields (k : String) (v : Json) : Fields → Type 0 where
    this : {n : String} {w : Json} {rest : Fields} → k ≡ n → v ≡ w → InFields k v (field n w rest)
    inside : {n : String} {w : Json} {rest : Fields} → InTree k v w → InFields k v (field n w rest)
    later :
        {n : String} {w : Json} {rest : Fields} → InFields k v rest → InFields k v (field n w rest)

  pub data InItems (k : String) (v : Json) : Items → Type 0 where
    head : {w : Json} {rest : Items} → InTree k v w → InItems k v (cons w rest)
    tail : {w : Json} {rest : Items} → InItems k v rest → InItems k v (cons w rest)

-- What a table or view that is read has to be, and a function that is called.
abbrev pub IsApprovedRange : SqlInspector → Json → Type 0
IsApprovedRange i (obj mv) =
    (trimmed_text "schemaname" mv ≡ "")
    × (starts_with (lower_codes (trimmed_text "relname" mv)) (lower_codes "pg_") ≡ false)
    × (contains_string i.views (lower_codes (trimmed_text "relname" mv)) ≡ true)
IsApprovedRange i _ = Unit

abbrev pub IsApprovedCall : SqlInspector → Json → Type 0
IsApprovedCall i (obj mv) =
    (extract_func_name mv == "" || has_function i.functions (extract_func_name mv)) ≡ true
IsApprovedCall i _ = Unit

pub record IsAllowed (i : SqlInspector) (k : String) (v : Json) : Type 0 where
  pub unblocked : is_blocked_statement_node k ≡ false
  pub range : k ≡ "RangeVar" → IsApprovedRange i v
  pub call : k ≡ "FuncCall" → IsApprovedCall i v

require_iff : (b : Bool) (e : SqlError) → (require b e ≡ ok tt) ↔ (b ≡ true)
require_iff true e = (λ h. refl, λ h. refl)
require_iff false e = (λ h. cc h, λ h. cc h)

require-not_iff : (b : Bool) (e : SqlError) → (require (not b) e ≡ ok tt) ↔ (b ≡ false)
require-not_iff true e = (λ h. cc h, λ h. cc h)
require-not_iff false e = (λ h. refl, λ h. refl)

then_iff :
    (first second : Result SqlError Unit)
    → ((first >> second) ≡ ok tt) ↔ ((first ≡ ok tt) × (second ≡ ok tt))
then_iff (ok u) second = (λ h. (refl, h), λ (_, h). h)
then_iff (err e) second = (λ h. cc h, λ (h, _). cc h)

when_key_iff :
    (k name : String) (check : Result SqlError Unit)
    → (when_key (k == name) check ≡ ok tt) ↔ (k ≡ name → check ≡ ok tt)
when_key_iff k name check = elim (Bool-cases (k == name)) [
  | inl e ↦ rw (e) (λ h same. h, λ f. f ((eq_iff k name).0 e))
  | inr e ↦ rw (e) (λ h same. cc ((eq_iff k name).1 same, e), λ f. refl)
]

check_range_iff : (i : SqlInspector) (v : Json) → (check_range i v ≡ ok tt) ↔ IsApprovedRange i v
unfolding check_range
check_range_iff i (obj mv) =
    let schema = trimmed_text "schemaname" mv in
    let rel = trimmed_text "relname" mv in
    let (s, s_back) = require_iff (schema == "") schema_qualified in
    let (p, p_back) =
      require-not_iff (starts_with (lower_codes rel) (lower_codes "pg_")) system_catalog in
    let (a, a_back) =
      require_iff (contains_string i.views (lower_codes rel)) (unapproved_view rel) in
    let (one, one_back) = then_iff (require (schema == "") schema_qualified) (
      require (not (starts_with (lower_codes rel) (lower_codes "pg_"))) system_catalog
      >> require (contains_string i.views (lower_codes rel)) (unapproved_view rel)) in
    let (two, two_back) =
      then_iff (require (not (starts_with (lower_codes rel) (lower_codes "pg_"))) system_catalog)
        (require (contains_string i.views (lower_codes rel)) (unapproved_view rel)) in
    (
      λ h. let (x, y) = one h in let (z, w) = two y in ((eq_iff schema "").0 (s x), p z, a w),
      λ (x, z, w). one_back (s_back ((eq_iff schema "").1 x), two_back (p_back z, a_back w)),
    )
check_range_iff i _ = (λ h. tt, λ h. refl)

check_call_iff : (i : SqlInspector) (v : Json) → (check_call i v ≡ ok tt) ↔ IsApprovedCall i v
unfolding check_call
check_call_iff i (obj mv) = require_iff _ (unapproved_function (extract_func_name mv))
check_call_iff i _ = (λ h. tt, λ h. refl)

check_member_iff :
    (i : SqlInspector) (k : String) (v : Json) → (check_member i k v ≡ ok tt) ↔ IsAllowed i k v
unfolding check_member
check_member_iff i k v =
    let (b, b_back) = require-not_iff (is_blocked_statement_node k) disallowed_statement in
    let (r, r_back) = when_key_iff k "RangeVar" (check_range i v) in
    let (c, c_back) = when_key_iff k "FuncCall" (check_call i v) in
    let (range, range_back) = check_range_iff i v in
    let (call, call_back) = check_call_iff i v in
    let (one, one_back) =
      then_iff (require (not (is_blocked_statement_node k)) disallowed_statement) (
        when_key (k == "RangeVar") (check_range i v)
        >> when_key (k == "FuncCall") (check_call i v)) in
    let (two, two_back) =
      then_iff (when_key (k == "RangeVar") (check_range i v))
        (when_key (k == "FuncCall") (check_call i v)) in
    (
      λ h.
          let (x, y) = one h in
          let (z, w) = two y in
          record {
            unblocked = b x;
            range = λ same. range (r z same);
            call = λ same. call (c w same);
          },
      λ allowed. one_back (
        b_back allowed.unblocked,
        two_back (
          r_back (λ same. range_back (allowed.range same)),
          c_back (λ same. call_back (allowed.call same)),
        ),
      ),
    )

mutual
  unfolding validate_node validate_fields validate_items

  node_sound :
      (i : SqlInspector) (tree : Json)
      → validate_node i tree ≡ ok tt
      → {k : String} {v : Json} → InTree k v tree
      → IsAllowed i k v
  node_sound i (obj fields) h (in_object m) = fields_sound i fields h m
  node_sound i (arr items) h (in_array m) = items_sound i items h m
  node_sound i null h m = elim m [ ]
  node_sound i (bool b) h m = elim m [ ]
  node_sound i (num n) h m = elim m [ ]
  node_sound i (decimal text) h m = elim m [ ]
  node_sound i (str s) h m = elim m [ ]

  fields_sound :
      (i : SqlInspector) (fields : Fields)
      → validate_fields i fields ≡ ok tt
      → {k : String} {v : Json} → InFields k v fields
      → IsAllowed i k v
  fields_sound i end h m = elim m [ ]
  fields_sound i (field n w rest) h m =
      let (mine, more) = (then_iff (check_member i n w) _).0 h in
      let (below, after) = (then_iff (validate_node i w) (validate_fields i rest)).0 more in
      elim m [
        | this e f ↦ subst₂ (IsAllowed i) (sym e) (sym f) ((check_member_iff i n w).0 mine)
        | inside j ↦ node_sound i w below j
        | later j ↦ fields_sound i rest after j
      ]

  items_sound :
      (i : SqlInspector) (items : Items)
      → validate_items i items ≡ ok tt
      → {k : String} {v : Json} → InItems k v items
      → IsAllowed i k v
  items_sound i nil h m = elim m [ ]
  items_sound i (cons w rest) h m =
      let (below, after) = (then_iff (validate_node i w) (validate_items i rest)).0 h in
      elim m [ head j ↦ node_sound i w below j | tail j ↦ items_sound i rest after j ]

mutual
  unfolding validate_node validate_fields validate_items

  node_complete :
      (i : SqlInspector) (tree : Json)
      → ((k : String) (v : Json) → InTree k v tree → IsAllowed i k v)
      → validate_node i tree ≡ ok tt
  node_complete i (obj fields) f = fields_complete i fields (λ k v m. f k v (in_object m))
  node_complete i (arr items) f = items_complete i items (λ k v m. f k v (in_array m))
  node_complete i null f = refl
  node_complete i (bool b) f = refl
  node_complete i (num n) f = refl
  node_complete i (decimal text) f = refl
  node_complete i (str s) f = refl

  fields_complete :
      (i : SqlInspector) (fields : Fields)
      → ((k : String) (v : Json) → InFields k v fields → IsAllowed i k v)
      → validate_fields i fields ≡ ok tt
  fields_complete i end f = refl
  fields_complete i (field n w rest) f = (then_iff (check_member i n w) _).1 (
    (check_member_iff i n w).1 (f n w (this refl refl)),
    (then_iff (validate_node i w) (validate_fields i rest)).1 (
      node_complete i w (λ k v m. f k v (inside m)),
      fields_complete i rest (λ k v m. f k v (later m)),
    ),
  )

  items_complete :
      (i : SqlInspector) (items : Items)
      → ((k : String) (v : Json) → InItems k v items → IsAllowed i k v)
      → validate_items i items ≡ ok tt
  items_complete i nil f = refl
  items_complete i (cons w rest) f =
      (then_iff (validate_node i w) (validate_items i rest)).1 (
        node_complete i w (λ k v m. f k v (head m)),
        items_complete i rest (λ k v m. f k v (tail m)),
      )

-- The inspection of a parse tree passes just when every member of every object in it, however deep,
-- is allowed: its key is no forbidden kind of statement, a table that is read is an approved view
-- without a schema, and a function that is called is an allowed one.
pub validate_node_iff :
    (i : SqlInspector) (tree : Json)
    → (validate_node i tree ≡ ok tt) ↔ ((k : String) (v : Json) → InTree k v tree → IsAllowed i k v)
validate_node_iff i tree = (λ h k v m. node_sound i tree h m, node_complete i tree)

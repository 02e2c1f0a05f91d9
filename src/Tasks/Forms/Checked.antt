-- ===== src/Tasks/Forms/Checked.antt =====
-- internal/tasks/task_forms.go: a form's data passes exactly where each field has what is asked.
use aceryx.Prelude.{
  String, Bool, true, false, not, ◌&&◌, ◌||◌, Option, none, some, List, [], ◌∷◌, ◌++◌, All, ◌==◌,
  if◌then◌else◌, ◌≡◌, refl, ◌↔◌, ◌⊎◌, inl, inr, text_cases, eq_iff,
}
use aceryx.Json.{Json, str, Fields}
use aceryx.Workflows.Config.{is_object}
use aceryx.Workflows.Draft.{is_number}
use aceryx.Tasks.Paths.{get_at_path}
use aceryx.Tasks.Forms.{
  FormField, FormSchema, FormCode, ValidationError, reports, is_shorter, is_longer, byte_length,
  length_errors, FieldKind, string_kind, number_kind, integer_kind, boolean_kind, object_kind,
  other_kind, kind_of, is_string, is_boolean, is_below, is_above, range_errors, type_errors,
  value_errors, field_errors, each_field, validate_form_data, flatten_form_fields,
  form_field_data_path, is_empty_value, required_code, type_code,
}

nil-append_iff : {A : Type 0} (xs ys : List A) → (xs ++ ys ≡ []) ↔ ((xs ≡ []) × (ys ≡ []))
nil-append_iff [] ys = (λ h. (refl, h), λ h. h.1)
nil-append_iff (x ∷ xs) ys = (λ h. cc h, λ (h, _). cc h)

reports-nil_iff : (b : Bool) (key : String) (c : FormCode) → (reports b key c ≡ []) ↔ (b ≡ false)
reports-nil_iff true key c = (λ h. cc h, λ h. cc h)
reports-nil_iff false key c = (λ h. refl, λ h. refl)

-- A text is as long as the field allows; a value that is no text has no length.
abbrev pub HasLength : FormField → Json → Type 0
HasLength field (str s) =
    (is_shorter (byte_length s) field.min_length ≡ false)
    × (is_longer (byte_length s) field.max_length ≡ false)
HasLength field _ = Unit

length_errors-nil_iff :
    (field : FormField) (key : String) (v : Json)
    → (length_errors field key v ≡ []) ↔ HasLength field v
unfolding length_errors
length_errors-nil_iff field key (str s) = (
  λ h.
      let (a, b) = (nil-append_iff _ _).0 h in
      ((reports-nil_iff _ _ _).0 a, (reports-nil_iff _ _ _).0 b),
  λ (a, b). (nil-append_iff _ _).1 ((reports-nil_iff _ _ _).1 a, (reports-nil_iff _ _ _).1 b),
)
length_errors-nil_iff field key _ = (λ h. tt, λ h. refl)

module _ (at_most : Json → Json → Bool) (is_integral : Json → Bool) where
  abbrev pub InRange : FormField → Json → Type 0
  InRange field v =
      (is_below at_most is_integral v field.min ≡ false)
      × (is_above at_most is_integral v field.max ≡ false)

  -- A value of the field's type, in its range.
  abbrev pub HasType : FieldKind → FormField → Json → Type 0
  HasType string_kind field v = is_string v ≡ true
  HasType number_kind field v = (is_number v ≡ true) × InRange field v
  HasType integer_kind field v = (is_number v ≡ true) × (is_integral v ≡ true) × InRange field v
  HasType boolean_kind field v = is_boolean v ≡ true
  HasType object_kind field v = is_object v ≡ true
  HasType other_kind field v = Unit

  range_errors-nil_iff :
      (field : FormField) (key : String) (v : Json)
      → (range_errors at_most is_integral field key v ≡ []) ↔ InRange field v
  range_errors-nil_iff field key v = (
    λ h.
        let (a, b) = (nil-append_iff _ _).0 h in
        ((reports-nil_iff _ _ _).0 a, (reports-nil_iff _ _ _).0 b),
    λ (a, b). (nil-append_iff _ _).1 ((reports-nil_iff _ _ _).1 a, (reports-nil_iff _ _ _).1 b),
  )

  type_test_iff : (b : Bool) (key : String) → (reports (not b) key type_code ≡ []) ↔ (b ≡ true)
  type_test_iff true key = (λ h. refl, λ h. refl)
  type_test_iff false key = (λ h. cc h, λ h. cc h)

  number_iff :
      (b : Bool) (key : String) (rest : List ValidationError)
      → ((if not b then reports true key type_code else rest) ≡ []) ↔ ((b ≡ true) × (rest ≡ []))
  number_iff true key rest = (λ h. (refl, h), λ h. h.1)
  number_iff false key rest = (λ h. cc h, λ (h, _). cc h)

  integer_iff :
      (b c : Bool) (key : String) (rest : List ValidationError)
      → ((if not b || not c then reports true key type_code else rest) ≡ [])
        ↔ ((b ≡ true) × (c ≡ true) × (rest ≡ []))
  integer_iff true true key rest = (λ h. (refl, refl, h), λ (_, _, h). h)
  integer_iff true false key rest = (λ h. cc h, λ (_, h, _). cc h)
  integer_iff false c key rest = (λ h. cc h, λ (h, _, _). cc h)

  type_errors-nil_iff :
      (kind : FieldKind) (field : FormField) (key : String) (v : Json)
      → (type_errors at_most is_integral kind field key v ≡ []) ↔ HasType kind field v
  unfolding type_errors
  type_errors-nil_iff string_kind field key v = type_test_iff _ key
  type_errors-nil_iff number_kind field key v =
      let (into, out) =
        number_iff (is_number v) key (range_errors at_most is_integral field key v) in
      let (range, back) = range_errors-nil_iff field key v in
      (λ h. let (a, b) = into h in (a, range b), λ (a, b). out (a, back b))
  type_errors-nil_iff integer_kind field key v =
      let (into, out) =
        integer_iff (is_number v) (is_integral v) key
          (range_errors at_most is_integral field key v) in
      let (range, back) = range_errors-nil_iff field key v in
      (λ h. let (a, b, c) = into h in (a, b, range c), λ (a, b, c). out (a, b, back c))
  type_errors-nil_iff boolean_kind field key v = type_test_iff _ key
  type_errors-nil_iff object_kind field key v = type_test_iff _ key
  type_errors-nil_iff other_kind field key v = (λ h. tt, λ h. refl)

  -- What is asked of the value of a field, where the data has one and where not.
  abbrev pub ValueOk : FormField → Option Json → Type 0
  ValueOk field none = field.required ≡ false
  ValueOk field (some v) =
      ((field.required && is_empty_value v) ≡ false)
      × HasLength field v
      × HasType (kind_of field.type) field v

  -- A field without a key is not checked.
  abbrev pub FieldOk : Fields → FormField → Type 0
  FieldOk values field =
      (form_field_data_path field ≡ "")
      ⊎ (((form_field_data_path field == "") ≡ false)
          × ValueOk field (get_at_path values (form_field_data_path field)))

  required_iff :
      (b : Bool) (key : String) (rest : List ValidationError)
      → ((if b then reports true key required_code else rest) ≡ []) ↔ ((b ≡ false) × (rest ≡ []))
  required_iff true key rest = (λ h. cc h, λ (h, _). cc h)
  required_iff false key rest = (λ h. (refl, h), λ (_, h). h)

  value_errors-nil_iff :
      (field : FormField) (key : String) (held : Option Json)
      → (value_errors at_most is_integral field key held ≡ []) ↔ ValueOk field held
  value_errors-nil_iff field key none = reports-nil_iff field.required key required_code
  value_errors-nil_iff field key (some v) =
      let (into, out) = required_iff (field.required && is_empty_value v) key (
        length_errors field key v
        ++ type_errors at_most is_integral (kind_of field.type) field key v) in
      let (split, join) =
        nil-append_iff (length_errors field key v)
          (type_errors at_most is_integral (kind_of field.type) field key v) in
      let (sized, sized_back) = length_errors-nil_iff field key v in
      let (typed, typed_back) = type_errors-nil_iff (kind_of field.type) field key v in
      (
        λ h. let (a, b) = into h in let (l, t) = split b in (a, sized l, typed t),
        λ (a, l, t). out (a, join (sized_back l, typed_back t)),
      )

  field_errors-nil_iff :
      (values : Fields) (field : FormField)
      → (field_errors at_most is_integral values field ≡ []) ↔ FieldOk values field
  unfolding field_errors
  field_errors-nil_iff values field =
      let key = form_field_data_path field in
      let (into, out) = value_errors-nil_iff field key (get_at_path values key) in
      elim (text_cases key "") [
        | inl blank ↦ (λ h. inl blank, λ ok. rw ((eq_iff key "").1 blank, field_errors) refl)
        | inr (e, differs) ↦ (
          λ h. inr (e, into (rw (e, field_errors) at h)),
          λ ok.
              rw (e, field_errors)
                (elim ok [ inl blank ↦ absurd (differs blank) | inr (_, good) ↦ out good ]),
        )
      ]

  each_field-nil_iff :
      (values : Fields) (fields : List FormField)
      → (each_field at_most is_integral values fields ≡ []) ↔ All (FieldOk values) fields
  unfolding each_field
  each_field-nil_iff values [] = (λ h. tt, λ h. refl)
  each_field-nil_iff values (field ∷ rest) =
      let (split, join) =
        nil-append_iff (field_errors at_most is_integral values field)
          (each_field at_most is_integral values rest) in
      let (one, one_back) = field_errors-nil_iff values field in
      let (more, more_back) = each_field-nil_iff values rest in
      (λ h. let (a, b) = split h in (one a, more b), λ (a, b). join (one_back a, more_back b))

  -- ValidateFormData reports nothing just when each field that has a key has what it asks for: a
  -- value that is not empty where one is required, and where there is a value, its length in the
  -- field's bounds, its type the field's, and a number in its range.
  pub validate_form_data_iff :
      (schema : FormSchema) (values : Fields)
      → (validate_form_data at_most is_integral schema values ≡ [])
        ↔ All (FieldOk values) (flatten_form_fields schema)
  unfolding validate_form_data
  validate_form_data_iff schema values = each_field-nil_iff values (flatten_form_fields schema)

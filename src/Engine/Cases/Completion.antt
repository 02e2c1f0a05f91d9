-- ===== src/Engine/Cases/Completion.antt =====
-- The completion of a step: what it stores, and what a later evaluation reads of it.
use aceryx.Prelude.{
  ℕ, String, ◌≡◌, refl, sym, ap, subst, ◌↔◌, ◌⊎◌, inl, inr, true, false, none, some, Result, ok,
  err, >>=-eq-ok, >>=-eq-err, ok-injective, any, In, nat_eq, arith, ◌==◌, if◌then◌else◌, Bool-cases,
  eq_iff,
}
use aceryx.Json.{
  Json, num, obj, Fields, end, field, RawMessage, empty, malformed, document, string_field,
  equal_fold,
}
use aceryx.Engine.Types.{completed, StepResult}
use aceryx.Engine.Compute.{extract_outcome}
use aceryx.Engine.Store.{StepRow, CaseRow, Outcome, StoreError, step_not_active, is_active_step}
use aceryx.Engine.Results.{
  text_member, raw_member, marshal_result, audit_members, patch_members, write_members,
}
use aceryx.Engine.Cases.{Concat, completed_row, complete_step}
use aceryx.Engine.Cases.Rows.{update_where-In}
use aceryx.Engine.Cases.Writes.{complete_step_rows}

-- The members that are no `outcome` are passed over.
abbrev NoOutcome : Fields → Type 0
NoOutcome fields = (held : String) → string_field "outcome" held fields ≡ some held

text_member-NoOutcome :
    (name value : String) (rest : Fields)
    → equal_fold name "outcome" ≡ false
    → NoOutcome rest
    → NoOutcome (text_member name value rest)
unfolding string_field
text_member-NoOutcome name value rest other h held = elim (Bool-cases (value == "")) [
  | inl left_out ↦ rw left_out (h held)
  | inr kept ↦ rw (kept, other) (h held)
]

raw_member-NoOutcome :
    (name : String) (raw : RawMessage) (rest : Result StoreError Fields) {fields : Fields}
    → equal_fold name "outcome" ≡ false
    → ((f : Fields) → rest ≡ ok f → NoOutcome f)
    → raw_member name raw rest ≡ ok fields
    → NoOutcome fields
unfolding string_field
raw_member-NoOutcome name empty rest other h e held = h _ e held
raw_member-NoOutcome name malformed rest other h e held = cc e
raw_member-NoOutcome name (document value) rest other h e held =
    let (f, made, last) = >>=-eq-ok rest _ e in
    subst (λ x. string_field "outcome" held x ≡ some held) (ok-injective last)
      (rw other (h f made held))

audit_members-NoOutcome : (r : StepResult) → NoOutcome (audit_members r)
unfolding string_field equal_fold
audit_members-NoOutcome r =
    text_member-NoOutcome "audit_event_type" r.audit_event_type
      (if nat_eq r.attempts 0 then end else field "attempts" (num r.attempts) end) refl
      (λ held. elim (Bool-cases (nat_eq r.attempts 0)) [
        | inl none_made ↦ rw none_made refl
        | inr some_made ↦ rw some_made refl
      ])

write_members-NoOutcome :
    (r : StepResult) (fields : Fields) → write_members r ≡ ok fields → NoOutcome fields
unfolding string_field equal_fold
write_members-NoOutcome r fields h held =
    let (patch, made, last) = >>=-eq-ok (patch_members r) _ h in
    let before : NoOutcome patch =
      raw_member-NoOutcome "case_data_patch" r.case_data_patch _ refl
        (λ f e.
          raw_member-NoOutcome "execution_event" r.execution_event _ refl
            (λ g e'. subst NoOutcome (ok-injective e') (audit_members-NoOutcome r)) e)
        made in
    subst (λ x. string_field "outcome" held x ≡ some held) (ok-injective last)
      (elim (Bool-cases r.writes_case_data) [
        | inl writes ↦ rw writes (before held)
        | inr reads ↦ rw reads (before held)
      ])

outcome_read :
    (outcome : String) (fields : Fields)
    → NoOutcome fields
    → extract_outcome (document (obj (text_member "outcome" outcome fields))) ≡ outcome
unfolding extract_outcome string_field equal_fold
outcome_read outcome fields passed = elim (Bool-cases (outcome == "")) [
  | inl blank_text ↦
      rw (blank_text, extract_outcome, passed "") (sym ((eq_iff outcome "").0 blank_text))
  | inr kept ↦ rw (kept, extract_outcome, passed outcome) refl
]

-- What json.Marshal writes of a result holds its outcome, as extractOutcome reads it.
marshal_result_outcome :
    (r : StepResult) (j : Json) → marshal_result r ≡ ok j → extract_outcome (document j) ≡ r.outcome
unfolding marshal_result equal_fold
marshal_result_outcome r j h =
    let (fields, made, last) = >>=-eq-ok (raw_member "output" r.output (write_members r)) _ h in
    subst (λ x. extract_outcome (document x) ≡ r.outcome) (ok-injective last)
      (outcome_read r.outcome fields (
        raw_member-NoOutcome "output" r.output (write_members r) refl
          (λ f e. write_members-NoOutcome r f e) made))

-- A completion that succeeds leaves the row of the active step completed at the time of the call,
-- without an error, and with a result in which the next evaluation reads the outcome that the step
-- was completed with.
pub complete_step_outcome :
    (concat : Concat) (now : ℕ) (id : String) (r : StepResult) (c : CaseRow) (o : Outcome)
    (row : StepRow)
    → complete_step concat now id (some r) c ≡ ok o
    → In row c.steps
    → is_active_step id row ≡ true
    → (row' : StepRow) × In row' o.case_row.steps
      × (row'.step_id ≡ id)
      × (row'.state ≡ completed)
      × (row'.completed_at ≡ some now)
      × (row'.error ≡ none)
      × (extract_outcome row'.result ≡ r.outcome)
complete_step_outcome concat now id r c o row h i on =
    let (j, made, _, rows, _, _) = complete_step_rows concat now id (some r) c o h in
    (
      completed_row now r j row,
      subst (In (completed_row now r j row)) (sym rows)
          (update_where-In (is_active_step id) (completed_row now r j) c.steps on i),
      (eq_iff row.step_id id).0 (ground (arith, on)),
      refl,
      refl,
      refl,
      marshal_result_outcome r j made,
    )

-- A completion is refused just when the result holds a message that is not JSON, or when no row of
-- the step is active; and then with the error that says which.
pub complete_step_error :
    (concat : Concat) (now : ℕ) (id : String) (r : StepResult) (c : CaseRow) (e : StoreError)
    → (complete_step concat now id (some r) c ≡ err e) ↔ (
        (marshal_result r ≡ err e)
        ⊎ (((j : Json) × (marshal_result r ≡ ok j))
            × (any (is_active_step id) c.steps ≡ false)
            × (e ≡ step_not_active)))
unfolding complete_step
complete_step_error concat now id r c e = (
  λ h. elim (>>=-eq-err (marshal_result r) _ h) [
    | inl bad ↦ inl bad
    | inr (j, made, rest) ↦ elim (Bool-cases (any (is_active_step id) c.steps)) [
      | inl found ↦ cc (rw found at rest)
      | inr missing ↦ inr ((j, made), missing, cc (rw missing at rest))
    ]
  ],
  λ h. elim h [
    | inl bad ↦ rw bad refl
    | inr ((j, made), missing, same) ↦ rw (made, missing) (ap err (sym same))
  ],
)

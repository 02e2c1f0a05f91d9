-- ===== src/Tasks/Tests.antt =====
-- internal/tasks, on a case with two steps and a form with one field.
use aceryx.Prelude.{
  ℕ, ◌+◌, ◌*◌, String, Bool, true, false, Option, none, some, List, [], ◌∷◌, All, In, here, there,
  ok, err, contains, eq_iff, ◌≡◌, refl, sym, ap, ◌∙◌, ◌↔◌,
}
use aceryx.Prelude.Text.{trim_space, trim_left, trim_right}
use aceryx.Json.{Json, num, str, obj, Fields, end, field, empty, lower_codes, equal_fold}
use aceryx.Engine.Types.{State, active, completed}
use aceryx.CaseData.{get, set}
use aceryx.Tasks.Paths.{split_dots, get_at_parts, get_at_path, set_at_parts, set_at_path}
use aceryx.Tasks.Paths.Laws.{Apart, get_at_path-set_at_path}
use aceryx.Tasks.Forms.{
  FormField, FormSchema, validate_form_data, validate_action_requirements, each_field, field_errors,
  form_field_data_path, flatten_form_fields, layout_fields, is_empty_value, byte_length,
  length_errors, kind_of, same_codes, type_errors, action_for, requirement_errors, after_prefix,
  build_decision_patch, patch_fields,
}
use aceryx.Tasks.Forms.Checked.{FieldOk, validate_form_data_iff}
use aceryx.Tasks.Lifecycle.{TaskRow, TaskCase, already_claimed, update_rows, claim_task}
use aceryx.Tasks.Completion.{
  TaskDetail, await_task, payload_of, completed_row, form_errors, complete_read, complete_task,
}
use aceryx.Tasks.Lifecycle.Rows.{UniqueIds}
use aceryx.Tasks.Lifecycle.Claims.{claim_exclusive, complete_task-ok}
use aceryx.Tasks.Lifecycle.Completed.{still, then_step, claims, completed_task_stays}
use aceryx.Tasks.Sla.{UserLoad}

get_at_path-set_at_path_example :
    (get_at_path (set_at_path end "a.b" (num 1)) "a.b" ≡ some (num 1))
    × ((other : String)
        → Apart (split_dots "a.b") (split_dots other)
        → get_at_path (set_at_path end "a.b" (num 1)) other ≡ get_at_path end other)
get_at_path-set_at_path_example = get_at_path-set_at_path end "a.b" (num 1)

abbrev note : FormField
note = record {
  id = "note";
  bind = "decision.note";
  type = "string";
  required = true;
  min_length = none;
  max_length = none;
  min = none;
  max = none;
}

abbrev form : FormSchema
form = record { title = ""; layout = []; actions = []; fields = note ∷ [] }

abbrev noted : Fields
noted = field "note" (str "fine") end

abbrev any_order : Json → Json → Bool
any_order v w = true

abbrev any_number : Json → Bool
any_number v = true

validate_form_data_iff_example :
    (validate_form_data any_order any_number form noted ≡ [])
    ↔ All (FieldOk any_order any_number noted) (flatten_form_fields form)
validate_form_data_iff_example = validate_form_data_iff any_order any_number form noted

noted_passes : validate_form_data any_order any_number form noted ≡ []
unfolding validate_form_data each_field field_errors form_field_data_path flatten_form_fields
    layout_fields trim_space trim_left trim_right get_at_path get_at_parts split_dots get
    is_empty_value length_errors kind_of type_errors lower_codes same_codes byte_length after_prefix
noted_passes = refl

abbrev row : String → State → Option String → TaskRow
row id state who = record {
  step_id = id;
  state = state;
  assigned_to = who;
  role = "";
  draft_data = none;
  result = empty;
  completed_at = none;
  completions = [];
}

abbrev case_of : List TaskRow → TaskCase
case_of rows = record {
  tenant_id = "t";
  case_data = none;
  version = 1;
  updated_at = 0;
  steps = rows;
  audit = [];
}

abbrev open_case : TaskCase
open_case = case_of (row "review" active none ∷ row "intake" completed none ∷ [])

UniqueIds-two : (a b : TaskRow) → ¬ (a.step_id ≡ b.step_id) → UniqueIds (a ∷ b ∷ [])
UniqueIds-two a b differ r s (here e) (here f) same = e ∙ sym f
UniqueIds-two a b differ r s (here e) (there (here f)) same =
    absurd (differ (ap (λ x. x.step_id) (sym e) ∙ same ∙ ap (λ x. x.step_id) f))
UniqueIds-two a b differ r s (there (here e)) (here f) same =
    absurd (differ (ap (λ x. x.step_id) (sym f) ∙ sym same ∙ ap (λ x. x.step_id) e))
UniqueIds-two a b differ r s (there (here e)) (there (here f)) same = e ∙ sym f
UniqueIds-two a b differ r s (there (there i)) j same = elim i [ ]
UniqueIds-two a b differ r s (here e) (there (there j)) same = elim j [ ]
UniqueIds-two a b differ r s (there (here e)) (there (there j)) same = elim j [ ]

open_ids : UniqueIds open_case.steps
open_ids = UniqueIds-two _ _ (λ p. cc ((eq_iff "review" "intake").1 p))

abbrev nobody : String → String → String → Bool
nobody tenant principal role = false

abbrev claimed_case : TaskCase
claimed_case =
    record (case_of (row "review" active (some "ann") ∷ row "intake" completed none ∷ [])) {
      updated_at = 5;
      audit =
          record { step_id = "review"; actor = "ann"; actor_type = "human"; action = "claimed" }
          ∷ [];
    }

ann_claims : claim_task nobody 5 "t" "ann" "review" open_case ≡ ok claimed_case
unfolding claim_task update_rows
ann_claims = refl

claim_exclusive_example : claim_task nobody 6 "t" "bob" "review" claimed_case ≡ err already_claimed
claim_exclusive_example =
    claim_exclusive nobody 5 "t" "ann" "review" open_case claimed_case open_ids ann_claims 6 "bob"

completed_task_stays_example : In (row "intake" completed none) claimed_case.steps
completed_task_stays_example =
    completed_task_stays open_case claimed_case (row "intake" completed none) open_ids
      (then_step still (claims nobody 5 "t" "ann" "review" ann_claims)) (there (here refl)) refl

abbrev detail : TaskDetail
detail = record {
  step_type = "human_task";
  step_state = active;
  assigned_to = some "ann";
  form = "review";
  form_schema = form;
  outcomes = "approve" ∷ [];
  metadata = end;
}

abbrev reads : ℕ → Option TaskDetail
reads n = some detail

abbrev clock : ℕ → ℕ
clock n = 100 + n * 50000000

abbrev concat : Json → Json → Json
concat a b = b

abbrev finished_case : TaskCase
finished_case = record claimed_case {
  steps =
      completed_row 9 "approve" (some noted) (row "review" active (some "ann"))
      ∷ row "intake" completed none
      ∷ [];
  case_data = some (obj (field "decision" (obj noted) end));
  version = 2;
  updated_at = 9;
  audit =
      record { step_id = "review"; actor = "ann"; actor_type = "human"; action = "claimed" }
      ∷ record { step_id = "review"; actor = "ann"; actor_type = "human"; action = "completed" }
      ∷ [];
}

ann_completes :
    complete_task any_order any_number concat 9 "t" "ann" "review" "approve"
      (some noted)
      100
      reads
      clock
      claimed_case
    ≡ ok finished_case
unfolding complete_task await_task complete_read payload_of equal_fold update_rows
    build_decision_patch patch_fields after_prefix set_at_path set_at_parts split_dots get_at_path
    get_at_parts get set validate_form_data each_field field_errors form_field_data_path
    flatten_form_fields layout_fields trim_space trim_left trim_right is_empty_value length_errors
    kind_of type_errors lower_codes same_codes byte_length validate_action_requirements action_for
    requirement_errors
ann_completes = refl

complete_task-ok_example :
    (n : ℕ) × (d : TaskDetail) × (reads n ≡ some d)
    × (contains d.outcomes "approve" ≡ true)
    × (form_errors any_order any_number d "approve" (payload_of d "approve" (some noted)) ≡ [])
    × (claimed_case.tenant_id ≡ "t")
    × ((r : TaskRow) × In r claimed_case.steps
        × (r.step_id ≡ "review")
        × (r.state ≡ active)
        × (r.assigned_to ≡ some "ann")
        × In
            (completed_row 9 "approve" (payload_of d "approve" (some noted)) r)
            finished_case.steps)
complete_task-ok_example =
    complete_task-ok any_order any_number concat 9 "t" "ann" "review" "approve" (some noted) 100
      reads clock claimed_case finished_case ann_completes

abbrev busy : UserLoad
busy = record { principal_id = "ann"; active_count = 3; created_at = 1 }

abbrev idle : UserLoad
idle = record { principal_id = "bob"; active_count = 0; created_at = 2 }

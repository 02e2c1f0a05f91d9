-- ===== src/Engine/Recovery/Deeds.antt =====
-- internal/engine/recovery.go: what the loop of a recovery does with one step.
use aceryx.Prelude.{
  some-injective, arith, ℕ, String, ◌≡◌, ◌≢◌, refl, sym, ap, subst, ◌∙◌, ◌↔◌, ◌⊎◌, inl, inr, true,
  false, some, List, [], ◌∷◌, ok, In, here, there, In-append, In-append_left, ◌==◌, eq_iff,
  Bool-cases, Result-cases, text_cases,
}
use aceryx.Prelude.Map.{Map, lookup, insert, lookup-insert_self, lookup-insert_ne, lookup-empty}
use aceryx.Json.{RawMessage}
use aceryx.Engine.Types.{WorkflowStep, WorkflowAst}
use aceryx.Engine.Ast.{step_map, step_map_from}
use aceryx.Engine.Store.{Outcome}
use aceryx.Engine.Results.{zero_result}
use aceryx.Engine.Cases.{Concat, complete_step, fail_step}
use aceryx.Engine.Recovery.{
  dispatches, evaluates, Recovery, idempotent_step, has_bytes, dispatch, with_outcome,
  complete_stored, after_completion, recovery_message, recover_step,
}

-- A step that is executed again, where `result` is what its row holds: an integration that is marked
-- as idempotent, an agent without a result, or neither of these nor a human task.
pub data Repeats (step : WorkflowStep) (result : RawMessage) : Type 0 where
  idempotent : step.type ≡ "integration" → idempotent_step step ≡ true → Repeats step result
  unanswered : step.type ≡ "agent" → has_bytes result ≡ false → Repeats step result
  other_type :
      step.type ≢ "integration"
      → step.type ≢ "agent"
      → step.type ≢ "human_task"
      → Repeats step result

-- A test of two texts that fails.
differs : (s t : String) → (s == t) ≡ false → s ≢ t
differs s t h p = cc (h, (eq_iff s t).1 p)

is_text : (s t : String) → (s == t) ≡ true → s ≡ t
is_text s t h = (eq_iff s t).0 h

-- The request of an outcome is no execution.
pub with_outcome-In :
    (o : Outcome) (r : Recovery) (step : WorkflowStep)
    → In (dispatches step) (with_outcome o r).requests ↔ In (dispatches step) r.requests
with_outcome-In o r step = elim (Bool-cases o.evaluate) [
  | inr e ↦ rw (e) (λ i. i, λ i. i)
  | inl e ↦ rw (e) (
    λ i. elim (In-append r.requests i) [
      | inl before ↦ before
      | inr (here same) ↦ cc same
      | inr (there nothing) ↦ elim nothing [ ]
    ],
    In-append_left (evaluates ∷ []),
  )
]

pub with_outcome-case : (o : Outcome) (r : Recovery) → (with_outcome o r).case_row ≡ o.case_row
with_outcome-case o r = ground arith

-- The step of an id in the map has that id.
step_map_from-id :
    (m : Map WorkflowStep) (steps : List WorkflowStep) (k : String) (s : WorkflowStep)
    → ((t : WorkflowStep) → lookup k m ≡ some t → t.id ≡ k)
    → lookup k (step_map_from m steps) ≡ some s
    → s.id ≡ k
unfolding step_map_from
step_map_from-id m [] k s old h = old s h
step_map_from-id m (x ∷ rest) k s old h =
    step_map_from-id (insert x.id x m) rest k s
      (λ t e. elim (text_cases x.id k) [
        | inl same ↦
            let found : some x ≡ some t =
              sym (ap (λ j. lookup j (insert x.id x m)) (sym same) ∙ lookup-insert_self x.id x m)
              ∙ e in
            ap (λ y. y.id) (sym (some-injective found)) ∙ same
        | inr (_, ne) ↦ old t (sym (lookup-insert_ne x m ne) ∙ e)
      ])
      h

pub step_map-id :
    (ast : WorkflowAst) (k : String) (s : WorkflowStep)
    → lookup k (step_map ast) ≡ some s
    → s.id ≡ k
unfolding step_map
step_map-id ast k s = step_map_from-id [] ast.steps k s (λ t e. cc (lookup-empty k, e))

module _ (concat : Concat) (ast : WorkflowAst) (now : ℕ) where
  -- What the body of the loop does with a step, of the four that it can do.
  pub data Deed (step : WorkflowStep) (result : RawMessage) (r r' : Recovery) : Type 0 where
    repeated : Repeats step result → r' ≡ dispatch step r → Deed step result r r'
    refused :
        step.type ≡ "integration"
        → idempotent_step step ≡ false
        → r' ≡ with_outcome (fail_step now step.id recovery_message r.case_row) r
        → Deed step result r r'
    answered :
        (o : Outcome)
        → step.type ≡ "agent"
        → has_bytes result ≡ true
        → complete_step concat now step.id
            (some (record zero_result { output = result }))
            r.case_row
          ≡ ok o
        → r' ≡ with_outcome o r
        → Deed step result r r'
    rested : step.type ≢ "integration" → ¬ Repeats step result → r' ≡ r → Deed step result r r'

  pub not_repeated :
      (step : WorkflowStep) (result : RawMessage)
      → (step.type ≡ "integration") × (idempotent_step step ≡ false)
        ⊎ (((step.type ≡ "agent") × (has_bytes result ≡ true)) ⊎ (step.type ≡ "human_task"))
      → ¬ Repeats step result
  not_repeated step result (inl (t, b)) (idempotent u c) = cc (b, c)
  not_repeated step result (inl (t, b)) (unanswered u c) = cc (ap (λ x. x == "agent") (sym t ∙ u))
  not_repeated step result (inl (t, b)) (other_type u v w) = u t
  not_repeated step result (inr (inl (t, b))) (idempotent u c) =
      cc (ap (λ x. x == "agent") (sym t ∙ u))
  not_repeated step result (inr (inl (t, b))) (unanswered u c) = cc (b, c)
  not_repeated step result (inr (inl (t, b))) (other_type u v w) = v t
  not_repeated step result (inr (inr t)) (idempotent u c) =
      cc (ap (λ x. x == "integration") (sym t ∙ u))
  not_repeated step result (inr (inr t)) (unanswered u c) = cc (ap (λ x. x == "agent") (sym t ∙ u))
  not_repeated step result (inr (inr t)) (other_type u v w) = w t

  complete_stored-Deed :
      (step : WorkflowStep) (result : RawMessage) (r : Recovery)
      → step.type ≡ "agent"
      → has_bytes result ≡ true
      → Deed step result r (complete_stored concat now step.id result r)
  complete_stored-Deed step result r t b =
      elim (Result-cases (
        complete_step concat now step.id (some (record zero_result { output = result }))
          r.case_row)) [
            | inl (e, f) ↦
                subst (λ x. Deed step result r (after_completion r x)) (sym f)
                  (rested (λ u. cc (ap (λ x. x == "agent") (sym t ∙ u)))
                    (not_repeated step result (inr (inl (t, b)))) refl)
            | inr (o, f) ↦
                subst (λ x. Deed step result r (after_completion r x)) (sym f)
                  (answered o t b f refl)
          ]

  pub recover_step-Deed :
      (step : WorkflowStep) (result : RawMessage) (r : Recovery)
      → Deed step result r (recover_step concat now step result r)
  unfolding recover_step
  recover_step-Deed step result r = elim (Bool-cases (step.type == "integration")) [
    | inl remote ↦ elim (Bool-cases (idempotent_step step)) [
      | inl again ↦ rw (remote, again) (repeated (idempotent (is_text _ _ remote) again) refl)
      | inr once ↦ rw (remote, once) (refused (is_text _ _ remote) once refl)
    ]
    | inr near ↦ elim (Bool-cases (step.type == "agent")) [
      | inl agent ↦ elim (Bool-cases (has_bytes result)) [
        | inl kept ↦
            rw (near, agent, kept) (complete_stored-Deed step result r (is_text _ _ agent) kept)
        | inr nothing ↦
            rw (near, agent, nothing) (repeated (unanswered (is_text _ _ agent) nothing) refl)
      ]
      | inr other ↦ elim (Bool-cases (step.type == "human_task")) [
        | inl human ↦
            rw (near, other, human)
              (rested (differs _ _ near) (not_repeated step result (inr (inr (is_text _ _ human))))
                refl)
        | inr machine ↦
            rw (near, other, machine)
              (repeated (other_type (differs _ _ near) (differs _ _ other) (differs _ _ machine))
                refl)
      ]
    ]
  ]

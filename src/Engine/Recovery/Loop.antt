-- ===== src/Engine/Recovery/Loop.antt =====
-- internal/engine/recovery.go: what the loop of a recovery does over the active rows.
use aceryx.Prelude.{
  some-injective, ℕ, String, ◌≡◌, ◌≢◌, refl, sym, ap, subst, ◌∙◌, ◌↔◌, ◌⊎◌, inl, inr, Bool, false,
  Option, some, List, [], ◌∷◌, All, In, here, there, In-append, In-append_left, In-append_right,
  filter, fold, Bool-cases, Option-cases, text_cases,
}
use aceryx.Prelude.Map.{lookup}
use aceryx.Json.{Json, RawMessage}
use aceryx.Engine.Types.{WorkflowStep, WorkflowAst}
use aceryx.Engine.Ast.{step_map}
use aceryx.Engine.Compute.{Evaluator}
use aceryx.Engine.Store.{StepRow, Outcome, is_active_step, update_where}
use aceryx.Engine.Results.{zero_result}
use aceryx.Engine.Cases.{Concat, fail_step, failed_row}
use aceryx.Engine.Cases.Rows.{update_where-other}
use aceryx.Engine.Cases.Writes.{complete_step_rows}
use aceryx.Engine.Cases.History.{Reach, unmoved, then_step, completes, fails, Reach-trans}
use aceryx.Engine.Evaluate.Agrees.{DistinctRows}
use aceryx.Engine.Recovery.{
  dispatches, Recovery, with_outcome, recovery_message, recover_step, recover_row,
}
use aceryx.Engine.Recovery.Deeds.{
  Repeats, with_outcome-In, with_outcome-case, step_map-id, Deed, repeated, refused, answered,
  rested, not_repeated, recover_step-Deed,
}

pub All-both :
    {P Q R : StepRow → Type 0}
    → ((row : StepRow) → P row → Q row → R row)
    → (rows : List StepRow) → All P rows
    → All Q rows
    → All R rows
All-both f [] p q = tt
All-both f (row ∷ rows) p q = (f row p.0 q.0, All-both f rows p.1 q.1)

All-filter :
    (P : StepRow → Type 0) (test : StepRow → Bool) (rows : List StepRow)
    → All P rows
    → All P (filter test rows)
All-filter P test [] a = tt
All-filter P test (row ∷ rows) a = elim (Bool-cases (test row)) [
  | inl e ↦ rw (e) (a.0, All-filter P test rows a.1)
  | inr e ↦ rw (e) (All-filter P test rows a.1)
]

pub DistinctRows-filter :
    (test : StepRow → Bool) (rows : List StepRow)
    → DistinctRows rows
    → DistinctRows (filter test rows)
DistinctRows-filter test [] d = tt
DistinctRows-filter test (row ∷ rows) d = elim (Bool-cases (test row)) [
  | inl e ↦ rw (e) (
    All-filter (λ other. other.step_id ≢ row.step_id) test rows d.0,
    DistinctRows-filter test rows d.1,
  )
  | inr e ↦ rw (e) (DistinctRows-filter test rows d.1)
]

other_row : (row : StepRow) (id : String) → row.step_id ≢ id → is_active_step id row ≡ false
other_row row id ne = elim (text_cases row.step_id id) [
  | inl same ↦ absurd (ne same)
  | inr (e, _) ↦ rw (e) refl
]

module _ (concat : Concat) (ast : WorkflowAst) (evaluator : Option (Evaluator Json)) (now : ℕ) where
  -- What the body of the loop does to the case, to the requests, and to the rows of other steps.
  record Does (step : WorkflowStep) (result : RawMessage) (r r' : Recovery) : Type 0 where
    reached : Reach concat ast evaluator r.case_row r'.case_row
    requested :
        (s : WorkflowStep)
        → In (dispatches s) r'.requests
          ↔ (In (dispatches s) r.requests ⊎ ((s ≡ step) × Repeats step result))
    others :
        (row : StepRow) → row.step_id ≢ step.id → In row r.case_row.steps → In row r'.case_row.steps

  -- An UPDATE of the active row of the step.
  written :
      (step : WorkflowStep) (result : RawMessage) (r : Recovery) (o : Outcome)
      → ¬ Repeats step result
      → Reach concat ast evaluator r.case_row o.case_row
      → (change : StepRow → StepRow)
      → o.case_row.steps ≡ update_where (is_active_step step.id) change r.case_row.steps
      → Does step result r (with_outcome o r)
  written step result r o not_again reach change rows = record {
    reached = subst (Reach concat ast evaluator r.case_row) (sym (with_outcome-case o r)) reach;
    requested = λ s. (
      λ i. inl ((with_outcome-In o r s).0 i),
      λ h. elim h [
        | inl before ↦ (with_outcome-In o r s).1 before
        | inr (_, again) ↦ absurd (not_again again)
      ],
    );
    others = λ row ne i.
        subst (In row) (sym rows ∙ ap (λ x. x.steps) (sym (with_outcome-case o r))) (
          update_where-other (is_active_step step.id) change r.case_row.steps
            (other_row row step.id ne) i);
  }

  Deed-Does :
      (step : WorkflowStep) (result : RawMessage) (r r' : Recovery)
      → Deed concat ast now step result r r'
      → Does step result r r'
  unfolding fail_step
  Deed-Does step result r r' (repeated again e) = subst (Does step result r) (sym e) (record {
    reached = unmoved;
    requested = λ s. (
      λ i. elim (In-append r.requests i) [
        | inl before ↦ inl before
        | inr (here same) ↦ inr (cc same, again)
        | inr (there nothing) ↦ elim nothing [ ]
      ],
      λ h. elim h [
        | inl before ↦ In-append_left (dispatches step ∷ []) before
        | inr (same, _) ↦ In-append_right r.requests (here (ap dispatches same))
      ],
    );
    others = λ row ne i. i;
  })
  Deed-Does step result r r' (refused t once e) = subst (Does step result r) (sym e) (
      written step result r (fail_step now step.id recovery_message r.case_row)
        (not_repeated concat ast now step result (inl (t, once)))
        (then_step unmoved (fails now step.id recovery_message)) (failed_row now recovery_message)
        refl)
  Deed-Does step result r r' (answered o t kept f e) =
      let (j, _, _, rows, _, _) =
        complete_step_rows concat now step.id (some (record zero_result { output = result }))
          r.case_row o f in
      subst (Does step result r) (sym e) (
        written step result r o (not_repeated concat ast now step result (inr (inl (t, kept))))
          (then_step unmoved (completes now step.id _ o f)) _ rows)
  Deed-Does step result r r' (rested far not_again e) = subst (Does step result r) (sym e) (record {
    reached = unmoved;
    requested =
        λ s. (inl, λ h. elim h [ inl before ↦ before | inr (_, again) ↦ absurd (not_again again) ]);
    others = λ row ne i. i;
  })

  -- What the loop does over some rows.
  pub record DoesAll (rows : List StepRow) (r r' : Recovery) : Type 0 where
    pub reached : Reach concat ast evaluator r.case_row r'.case_row
    pub requested :
        (s : WorkflowStep)
        → In (dispatches s) r'.requests ↔ (
            In (dispatches s) r.requests
            ⊎ ((row : StepRow) × In row rows
                × (lookup row.step_id (step_map ast) ≡ some s)
                × Repeats s row.result))
    pub others :
        (row : StepRow)
        → All (λ x. row.step_id ≢ x.step_id) rows
        → In row r.case_row.steps
        → In row r'.case_row.steps

  pub recover_row-DoesAll :
      (row : StepRow) (r : Recovery)
      → DoesAll (row ∷ []) r (recover_row concat now (step_map ast) r row)
  unfolding recover_row
  recover_row-DoesAll row r = elim (Option-cases (lookup row.step_id (step_map ast))) [
    | inl missing ↦
        rw (missing, recover_row)
          (record {
            reached = unmoved;
            requested = λ s. (
              inl,
              λ h. elim h [
                | inl before ↦ before
                | inr (x, here e, found, _) ↦
                    cc (missing, found, ap (λ y. lookup y.step_id (step_map ast)) e)
                | inr (x, there nothing, _, _) ↦ elim nothing [ ]
              ],
            );
            others = λ x ne i. i;
          })
    | inr (step, found) ↦
        let does =
          Deed-Does step row.result r (recover_step concat now step row.result r)
            (recover_step-Deed concat ast now step row.result r) in
        rw (found, recover_row)
          (record {
            reached = does.reached;
            requested = λ s. (
              λ i. elim ((does.requested s).0 i) [
                | inl before ↦ inl before
                | inr (same, again) ↦ inr (
                  row,
                  here refl,
                  found ∙ ap some (sym same),
                  subst (λ x. Repeats x row.result) (sym same) again,
                )
              ],
              λ h. (does.requested s).1 (elim h [
                | inl before ↦ inl before
                | inr (x, here e, known, again) ↦
                    let same : some s ≡ some step =
                      sym known ∙ ap (λ y. lookup y.step_id (step_map ast)) e ∙ found in
                    inr (
                      some-injective same,
                      subst (Repeats step) (ap (λ y. y.result) e)
                          (subst (λ y. Repeats y x.result) (some-injective same) again),
                    )
                | inr (x, there nothing, _, _) ↦ elim nothing [ ]
              ]),
            );
            others =
                λ x ne i. does.others x (λ p. ne.0 (p ∙ step_map-id ast row.step_id step found)) i;
          })
  ]

  join_DoesAll :
      (row : StepRow) (rows : List StepRow) (r d r' : Recovery)
      → DoesAll (row ∷ []) r d
      → DoesAll rows d r'
      → DoesAll (row ∷ rows) r r'
  join_DoesAll row rows r d r' a b = record {
    reached = Reach-trans concat ast evaluator a.reached b.reached;
    requested = λ s. (
      λ i. elim ((b.requested s).0 i) [
        | inr (x, at, known, again) ↦ inr (x, there at, known, again)
        | inl then_there ↦ elim ((a.requested s).0 then_there) [
          | inl before ↦ inl before
          | inr (x, here e, known, again) ↦ inr (x, here e, known, again)
          | inr (x, there nothing, _, _) ↦ elim nothing [ ]
        ]
      ],
      λ h. (b.requested s).1 (elim h [
        | inl before ↦ inl ((a.requested s).1 (inl before))
        | inr (x, here e, known, again) ↦ inl ((a.requested s).1 (inr (x, here e, known, again)))
        | inr (x, there at, known, again) ↦ inr (x, at, known, again)
      ]),
    );
    others = λ x ne i. b.others x ne.1 (a.others x (ne.0, tt) i);
  }

  pub recover_rows-DoesAll :
      (rows : List StepRow) (r : Recovery)
      → DoesAll rows r (fold (recover_row concat now (step_map ast)) r rows)
  recover_rows-DoesAll [] r = record {
    reached = unmoved;
    requested = λ s. (inl, λ h. elim h [ inl before ↦ before | inr (x, at, _, _) ↦ elim at [ ] ]);
    others = λ x ne i. i;
  }
  recover_rows-DoesAll (row ∷ rows) r =
      let d = recover_row concat now (step_map ast) r row in
      join_DoesAll row rows r d (fold (recover_row concat now (step_map ast)) d rows)
        (recover_row-DoesAll row r) (recover_rows-DoesAll rows d)

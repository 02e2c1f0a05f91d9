-- ===== src/Engine/Retry/Exhausted.antt =====
-- internal/engine/execution_retry.go: what becomes of a step whose policy is exhausted.
use aceryx.Prelude.{
  and_left, ◌&&◌, nat_eq, ℕ, String, ◌≡◌, refl, sym, ap, ◌∙◌, inl, inr, Bool, true, false, some,
  List, [], ◌∷◌, ◌++◌, In, ◌==◌, eq_iff, arith, Bool-cases, Option-cases, some-injective,
}
use aceryx.Engine.Types.{State, WorkflowStep, failed, skipped, ready}
use aceryx.Engine.Policy.{default_error_policy_for_step}
use aceryx.Engine.Store.{StepRow, CaseRow, Outcome, is_active_step, update_where}
use aceryx.Engine.Compute.{is_pending}
use aceryx.Engine.Cases.{
  fail_step, failed_row, skip_step_terminal, skipped_row, activate_fallback_step, ready_row,
  is_live,
}
use aceryx.Engine.Cases.Rows.{update_where-In, update_where-other}
use aceryx.Engine.Retry.{after_prefix, on_exhausted}
use Prim.Native.Char.{code}

-- A row of the id, in a state.
abbrev pub HasRow : String → State → List StepRow → Type 0
HasRow id s rows = (row : StepRow) × In row rows × (row.step_id ≡ id) × (row.state ≡ s)

-- A row of the id that has ended in a state with an error.
abbrev pub EndsIn : String → State → String → List StepRow → Type 0
EndsIn id s message rows =
    (row : StepRow) × In row rows
    × (row.step_id ≡ id)
    × (row.state ≡ s)
    × (row.error ≡ some message)

-- The word that names a step to go on with, and the code points of a text.
abbrev pub goto : String → String
goto target =
    String.◌∷◌ "g" (String.◌∷◌ "o" (String.◌∷◌ "t" (String.◌∷◌ "o" (String.◌∷◌ ":" target))))

goto_pay : goto "pay" ≡ "goto:pay"
goto_pay = refl

unfoldable pub codes : String → List ℕ
codes String.[] = []
codes (String.◌∷◌ c s) = code c ∷ codes s

-- What is done with the active row of a step, by the policy's word for it: it is skipped; or it is
-- failed and the row of the step after `goto:` becomes ready, where it is pending; or, by any other
-- word, it is failed.
-- In the first two, and where the case is live, an evaluation is asked for.
pub record IsExhausted (step : WorkflowStep) (message : String) (c : CaseRow) (o : Outcome)
    : Type 0 where
  pub skips :
      (default_error_policy_for_step step.type step.error_policy).on_exhausted ≡ "skip"
      → (o.evaluate ≡ true) × EndsIn step.id skipped message o.case_row.steps
  pub diverts :
      (target : String)
      → (default_error_policy_for_step step.type step.error_policy).on_exhausted ≡ goto target
      → (o.evaluate ≡ true)
        × EndsIn step.id failed message o.case_row.steps
        × ((row : StepRow)
            → In row c.steps
            → row.step_id ≡ target
            → is_pending row.state ≡ true
            → HasRow target ready o.case_row.steps)
  pub fails :
      ¬ ((default_error_policy_for_step step.type step.error_policy).on_exhausted ≡ "skip")
      → ((target : String)
          → ¬ (
              codes (default_error_policy_for_step step.type step.error_policy).on_exhausted
              ≡ codes (goto target)))
      → (o.evaluate ≡ is_live c) × EndsIn step.id failed message o.case_row.steps

after_goto : (target : String) → after_prefix "goto:" (goto target) ≡ some target
unfolding after_prefix
after_goto target = refl

after_prefix-codes :
    (prefix s rest : String)
    → after_prefix prefix s ≡ some rest
    → codes s ≡ codes prefix ++ codes rest
unfolding after_prefix codes
after_prefix-codes String.[] s rest = λ h. ap codes (some-injective h)
after_prefix-codes (String.◌∷◌ p prefix) String.[] rest = λ h. cc h
after_prefix-codes (String.◌∷◌ p prefix) (String.◌∷◌ c s) rest =
    elim (Bool-cases (nat_eq (code p) (code c))) [
      | inr e ↦ rw (e) (λ h. cc h)
      | inl e ↦ rw (e) (λ h.
          let same : code c ≡ code p = ground arith in
          ap (λ k. k ∷ codes s) same ∙ ap (λ ks. code p ∷ ks) (after_prefix-codes prefix s rest h))
    ]

codes-goto : (target : String) → codes (goto target) ≡ codes "goto:" ++ codes target
unfolding codes
codes-goto target = refl

off_of : (b : Bool) → ¬ (b ≡ true) → b ≡ false
off_of b h = elim (Bool-cases b) [ inl e ↦ absurd (h e) | inr e ↦ e ]

head_code : String → ℕ
head_code String.[] = 0
head_code (String.◌∷◌ c s) = code c

goto_no_skip : (target : String) → ¬ (goto target ≡ "skip")
unfolding head_code
goto_no_skip target e = cc (ap head_code e)

goto_skips : (target : String) → (goto target == "skip") ≡ false
goto_skips target = off_of _ (λ h. goto_no_skip target ((eq_iff (goto target) "skip").0 h))

pending_off : (id : String) (r : StepRow) → is_pending r.state ≡ true → is_active_step id r ≡ false
pending_off id r h = ground (arith, h)

-- A row that an operation on the active row of the step changes.
changed_row :
    (id : String) (change : StepRow → StepRow) (rows : List StepRow) (row : StepRow)
    → In row rows
    → is_active_step id row ≡ true
    → ((r : StepRow) → (change r).step_id ≡ r.step_id)
    → In (change row) (update_where (is_active_step id) change rows) × ((change row).step_id ≡ id)
changed_row id change rows row i on keeps = (
  update_where-In (is_active_step id) change rows on i,
  keeps row ∙ (eq_iff row.step_id id).0 (and_left (row.step_id == id) _ on),
)

module _ (now : ℕ) (step : WorkflowStep) (attempts : ℕ) (message : String) (c : CaseRow)
    (row : StepRow) (i : In row c.steps) (on : is_active_step step.id row ≡ true) where
  failed_first : EndsIn step.id failed message (fail_step now step.id message c).case_row.steps
  unfolding fail_step
  failed_first =
      let (at, same) = changed_row step.id (failed_row now message) c.steps row i on (λ r. refl) in
      (failed_row now message row, at, same, refl, refl)

  live_first : (fail_step now step.id message c).evaluate ≡ is_live c
  unfolding fail_step
  live_first = refl

  skipped_first :
      EndsIn step.id skipped message (skip_step_terminal now step.id attempts message c).steps
  unfolding skip_step_terminal
  skipped_first =
      let (at, same) =
        changed_row step.id (skipped_row now attempts message) c.steps row i on (λ r. refl) in
      (skipped_row now attempts message row, at, same, refl, refl)

  -- The failed row stays when the row of another step becomes ready.
  failed_then :
      (target : String)
      → EndsIn step.id failed message
          (activate_fallback_step now target (fail_step now step.id message c).case_row).steps
  unfolding activate_fallback_step
  failed_then target =
      let (r, at, same, done, told) = failed_first in
      (
        r,
        update_where-other (λ x. x.step_id == target && is_pending x.state) ready_row _
            (rw (done) (ground arith)) at,
        same,
        done,
        told,
      )

  ready_then :
      (target : String) (r : StepRow)
      → In r c.steps
      → r.step_id ≡ target
      → is_pending r.state ≡ true
      → HasRow target ready
          (activate_fallback_step now target (fail_step now step.id message c).case_row).steps
  unfolding activate_fallback_step fail_step
  ready_then target r at same waits = (
    ready_row r,
    update_where-In (λ x. x.step_id == target && is_pending x.state) ready_row _
        (rw ((eq_iff r.step_id target).1 same, waits) refl)
        (update_where-other (is_active_step step.id) (failed_row now message) c.steps
          (pending_off step.id r waits) at),
    same,
    refl,
  )

  pub on_exhausted-IsExhausted :
      IsExhausted step message c (on_exhausted now step attempts message c)
  unfolding on_exhausted
  on_exhausted-IsExhausted =
      let action = (default_error_policy_for_step step.type step.error_policy).on_exhausted in
      record {
        skips = λ e. rw ((eq_iff action "skip").1 e) (refl, skipped_first);
        diverts = λ target e.
            let other : (action == "skip") ≡ false = ap (λ w. w == "skip") e ∙ goto_skips target in
            rw (other, ap (after_prefix "goto:") e ∙ after_goto target)
              (refl, failed_then target, ready_then target);
        fails = λ not_skip not_goto.
            let other : (action == "skip") ≡ false =
              off_of _ (λ h. not_skip ((eq_iff action "skip").0 h)) in
            elim (Option-cases (after_prefix "goto:" action)) [
              | inl plain ↦ rw (other, plain) (live_first, failed_first)
              | inr (target, found) ↦ absurd (
                  not_goto target
                    (after_prefix-codes "goto:" action target found ∙ sym (codes-goto target)))
            ];
      }

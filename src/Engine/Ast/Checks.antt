-- ===== src/Engine/Ast/Checks.antt =====
-- What the first two loops of ValidateAST establish: each step is well formed, and the map `byID`
-- holds the steps under their ids and nothing else.
use aceryx.Prelude.{
  String, ◌≡◌, refl, sym, ap, ◌∙◌, ◌≢◌, ◌⊎◌, inl, inr, none, some, List, [], ◌∷◌, ok, All, In, here,
  there, arith, eq_iff, text_cases,
}
use aceryx.Prelude.Map.{Map, lookup, insert, lookup-insert, lookup-insert_self, lookup-insert_ne}
use aceryx.Engine.Types.{WorkflowStep}
use aceryx.Engine.Ast.{normalized_join, check_steps}

abbrev pub IsStepOk : WorkflowStep → Type 0
IsStepOk s = (s.id ≢ "") × ((normalized_join s.join ≡ "all") ⊎ (normalized_join s.join ≡ "any"))

-- No later step has the id of an earlier one.
abbrev pub Distinct : List WorkflowStep → Type 0
Distinct [] = Unit
Distinct (s ∷ rest) = All (λ t. s.id ≢ t.id) rest × Distinct rest

pub record Checked (m m' : Map WorkflowStep) (steps : List WorkflowStep) : Type 0 where
  pub steps_ok : All IsStepOk steps
  pub found : All (λ s. lookup s.id m' ≡ some s) steps
  pub fresh : All (λ s. lookup s.id m ≡ none) steps
  pub distinct : Distinct steps
  pub kept : (k : String) (v : WorkflowStep) → lookup k m ≡ some v → lookup k m' ≡ some v
  pub origin :
      (k : String) (v : WorkflowStep)
      → lookup k m' ≡ some v
      → (lookup k m ≡ some v) ⊎ (In v steps × (v.id ≡ k))

pub check_steps-cons :
    (m : Map WorkflowStep) (s : WorkflowStep) (rest : List WorkflowStep) {m' : Map WorkflowStep}
    → check_steps m (s ∷ rest) ≡ ok m'
    → IsStepOk s × (lookup s.id m ≡ none) × (check_steps (insert s.id s m) rest ≡ ok m')
unfolding check_steps
check_steps-cons m s rest h = ground (
  arith,
  eq_iff s.id "",
  eq_iff (normalized_join s.join) "all",
  eq_iff (normalized_join s.join) "any",
)

-- A step that is not in the map after `s` was put there is not in it before, and is another.
pub fresh_before :
    (m : Map WorkflowStep) (s : WorkflowStep) (rest : List WorkflowStep)
    → All (λ t. lookup t.id (insert s.id s m) ≡ none) rest
    → All (λ t. s.id ≢ t.id) rest × All (λ t. lookup t.id m ≡ none) rest
fresh_before m s [] h = (tt, tt)
fresh_before m s (t ∷ rest) h =
    let (ne, old) = fresh_before m s rest h.1 in
    (
      (λ e. cc (h.0, lookup-insert s.id t.id s m, (eq_iff s.id t.id).1 e), ne),
      (ground (arith, h.0, lookup-insert s.id t.id s m), old),
    )

kept_of :
    (m : Map WorkflowStep) (s : WorkflowStep)
    → lookup s.id m ≡ none
    → (k : String) (v : WorkflowStep) → lookup k m ≡ some v
    → lookup k (insert s.id s m) ≡ some v
kept_of m s new k v e = elim (text_cases s.id k) [
  | inl p ↦ cc (new, e, ap (λ i. lookup i m) p)
  | inr q ↦ lookup-insert_ne s m q.1 ∙ e
]

origin_of :
    (m : Map WorkflowStep) (s : WorkflowStep) (rest : List WorkflowStep) (k : String)
    (v : WorkflowStep)
    → (lookup k (insert s.id s m) ≡ some v) ⊎ (In v rest × (v.id ≡ k))
    → (lookup k m ≡ some v) ⊎ (In v (s ∷ rest) × (v.id ≡ k))
origin_of m s rest k v (inr (i, e)) = inr (there i, e)
origin_of m s rest k v (inl h) = elim (text_cases s.id k) [
  | inl p ↦
      let same : s ≡ v = cc (lookup-insert_self s.id s m, ap (λ i. lookup i (insert s.id s m)) p) in
      inr (here (sym same), ap (λ t. t.id) (sym same) ∙ p)
  | inr q ↦ inl (sym (lookup-insert_ne s m q.1) ∙ h)
]

pub check_steps-Checked :
    (m : Map WorkflowStep) (steps : List WorkflowStep) (m' : Map WorkflowStep)
    → check_steps m steps ≡ ok m'
    → Checked m m' steps
unfolding check_steps
check_steps-Checked m [] m' h =
    let same : m ≡ m' = cc in
    record {
      steps_ok = tt;
      found = tt;
      fresh = tt;
      distinct = tt;
      kept = λ k v e. rw (← same) e;
      origin = λ k v e. inl (rw same e);
    }
check_steps-Checked m (s ∷ rest) m' h =
    let (fine, new, after) = check_steps-cons m s rest h in
    let c = check_steps-Checked (insert s.id s m) rest m' after in
    let (ne, old) = fresh_before m s rest c.fresh in
    record {
      steps_ok = (fine, c.steps_ok);
      found = (c.kept s.id s (lookup-insert_self s.id s m), c.found);
      fresh = (new, old);
      distinct = (ne, c.distinct);
      kept = λ k v e. c.kept k v (kept_of m s new k v e);
      origin = λ k v e. origin_of m s rest k v (c.origin k v e);
    }

still_fresh :
    (m : Map WorkflowStep) (s : WorkflowStep) (rest : List WorkflowStep)
    → All (λ t. s.id ≢ t.id) rest
    → All (λ t. lookup t.id m ≡ none) rest
    → All (λ t. lookup t.id (insert s.id s m) ≡ none) rest
still_fresh m s [] ne f = tt
still_fresh m s (t ∷ rest) ne f = (lookup-insert_ne s m ne.0 ∙ f.0, still_fresh m s rest ne.1 f.1)

-- Steps that are well formed, differ in their ids, and are new to the map pass the first loop.
pub check_steps_complete :
    (m : Map WorkflowStep) (steps : List WorkflowStep)
    → All IsStepOk steps
    → Distinct steps
    → All (λ s. lookup s.id m ≡ none) steps
    → (m' : Map WorkflowStep) × (check_steps m steps ≡ ok m')
unfolding check_steps
check_steps_complete m [] h d f = (m, refl)
check_steps_complete m (s ∷ rest) h d f =
    let (m', run) =
      check_steps_complete (insert s.id s m) rest h.1 d.1 (still_fresh m s rest d.0 f.1) in
    (
      m',
      ground (
        arith,
        run,
        h.0.1,
        eq_iff s.id "",
        eq_iff (normalized_join s.join) "all",
        eq_iff (normalized_join s.join) "any",
      ),
    )

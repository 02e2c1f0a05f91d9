-- ===== src/Engine/Ast/Search.antt =====
-- The depth-first search of ValidateAST: a step that it finishes stands on no cycle, a cycle that
-- it reports is there, and its fuel is enough.
pub mod Cycles
use mathlib.Core.WellFounded.{Acc}
use aceryx.Prelude.{
  ℕ, zero, suc, ◌<◌, ◌≤◌, String, ◌≡◌, refl, sym, ap, ◌∙◌, subst, ◌⊎◌, inl, inr, Bool, true, false,
  none, some, List, [], ◌∷◌, Result, ok, err, ◌>>=◌, >>=-eq-ok, All, In, here, there, all_in,
  All-map, count, count_mono, count_drop, arith, text_cases,
}
use aceryx.Prelude.Map.{Map, lookup, insert, lookup-insert_self, lookup-insert_ne}
use aceryx.Engine.Types.{WorkflowStep, EngineError, cycle_detected, out_of_fuel}
use aceryx.Engine.Ast.{Mark, unseen, entered, done, mark_of, deps_of, visit_each, visit}

mark-insert_self : (k : String) (x : Mark) (m : Map Mark) → mark_of (insert k x m) k ≡ x
mark-insert_self k x m = rw (lookup-insert_self k x m, mark_of)

mark-insert_ne :
    {k j : String} (x : Mark) (m : Map Mark) → ¬ (k ≡ j) → mark_of (insert k x m) j ≡ mark_of m j
mark-insert_ne x m ne = rw (lookup-insert_ne x m ne, mark_of)

module _ (by_id : Map WorkflowStep) where
  -- `Needs d k`: the step k lists d among its dependencies.
  abbrev pub Needs : String → String → Type 0
  Needs d k = In d (deps_of by_id k)

  -- `d` is reached from `k` in one step or more.
  pub data Below (d : String) : String → Type 0 where
    direct : {k : String} → Needs d k → Below d k
    further : {j k : String} → Needs j k → Below d j → Below d k

  Below-Needs : {d j k : String} → Needs d j → Below j k → Below d k
  Below-Needs n (direct m) = further m (direct n)
  Below-Needs n (further m b) = further m (Below-Needs n b)

  Acc-Below : {d k : String} → Acc Needs k → Below d k → Acc Needs d
  Acc-Below (Acc.intro _ h) (direct n) = h _ n
  Acc-Below (Acc.intro _ h) (further n b) = Acc-Below (h _ n) b

  -- What is accessible stands on no cycle.
  pub not-Below_of_Acc : {k : String} → Acc Needs k → ¬ Below k k
  not-Below_of_Acc (Acc.intro k h) (direct n) = not-Below_of_Acc (h k n) (direct n)
  not-Below_of_Acc (Acc.intro k h) (further {j} n b) = not-Below_of_Acc (h j n) (Below-Needs n b)

  -- One call of the search that succeeds.
  visit-eq-ok :
      (fuel : ℕ) (m : Map Mark) (k : String) (m' : Map Mark)
      → visit by_id (suc fuel) m k ≡ ok m'
      → ((mark_of m k ≡ done) × (m ≡ m'))
        ⊎ ((mark_of m k ≡ unseen)
            × ((n : Map Mark) × (visit_each
                    (visit by_id fuel)
                    (insert k entered m)
                    (deps_of by_id k)
                  ≡ ok n)
                × (insert k done n ≡ m')))
  unfolding visit
  visit-eq-ok fuel m k m' h = go (mark_of m k) refl
    where
      go :
          (x : Mark)
          → mark_of m k ≡ x
          → ((mark_of m k ≡ done) × (m ≡ m'))
            ⊎ ((mark_of m k ≡ unseen)
                × ((n : Map Mark) × (visit_each
                        (visit by_id fuel)
                        (insert k entered m)
                        (deps_of by_id k)
                      ≡ ok n)
                    × (insert k done n ≡ m')))
      go done e = inl (e, cc (rw (e, visit) at h))
      go entered e = cc (rw (e, visit) at h)
      go unseen e =
          let (n, run, last) = >>=-eq-ok _ _ (rw (e, visit) at h) in inr (e, (n, run, cc last))

  -- What is finished is accessible, and stays finished.
  record Sound (m : Map Mark) : Type 0 where
    finished : (k : String) → mark_of m k ≡ done → Acc Needs k

  record Extends (m m' : Map Mark) : Type 0 where
    still_done : (k : String) → mark_of m k ≡ done → mark_of m' k ≡ done
    no_newly_entered : (k : String) → mark_of m' k ≡ entered → mark_of m k ≡ entered
    no_newly_unseen : (k : String) → mark_of m' k ≡ unseen → mark_of m k ≡ unseen

  Extends-refl : (m : Map Mark) → Extends m m
  Extends-refl m = record {
    still_done = λ k e. e;
    no_newly_entered = λ k e. e;
    no_newly_unseen = λ k e. e;
  }

  Extends-trans : {m n o : Map Mark} → Extends m n → Extends n o → Extends m o
  Extends-trans a b = record {
    still_done = λ k e. b.still_done k (a.still_done k e);
    no_newly_entered = λ k e. a.no_newly_entered k (b.no_newly_entered k e);
    no_newly_unseen = λ k e. a.no_newly_unseen k (b.no_newly_unseen k e);
  }

  -- What a call on `k` that succeeds has done.
  abbrev Visited : Map Mark → String → Map Mark → Type 0
  Visited m k m' = Sound m' × (mark_of m' k ≡ done) × Extends m m'

  abbrev Visits : (Map Mark → String → Result EngineError (Map Mark)) → Type 0
  Visits f = (m : Map Mark) (k : String) (m' : Map Mark) → Sound m → f m k ≡ ok m' → Visited m k m'

  visit_each-Visited :
      (f : Map Mark → String → Result EngineError (Map Mark))
      → Visits f
      → (ids : List String) (m m' : Map Mark) → Sound m
      → visit_each f m ids ≡ ok m'
      → Sound m' × All (λ k. mark_of m' k ≡ done) ids × Extends m m'
  unfolding visit_each
  visit_each-Visited f each [] m m' s h =
      let e : m ≡ m' = cc in (rw (← e) s, tt, rw (← e) (Extends-refl m))
  visit_each-Visited f each (k ∷ ids) m m' s h =
      let (n, run, rest) = >>=-eq-ok (f m k) _ h in
      let (sn, dn, en) = each m k n s run in
      let (sm, dm, em) = visit_each-Visited f each ids n m' sn rest in
      (sm, (em.still_done k dn, dm), Extends-trans en em)

  Sound-enter : (m : Map Mark) (k : String) → Sound m → Sound (insert k entered m)
  Sound-enter m k s = record {
    finished = λ j e. elim (text_cases k j) [
      | inl p ↦ cc (e, mark-insert_self k entered m, ap (mark_of (insert k entered m)) p)
      | inr q ↦ s.finished j (sym (mark-insert_ne entered m q.1) ∙ e)
    ];
  }

  Sound-finish : (m : Map Mark) (k : String) → Acc Needs k → Sound m → Sound (insert k done m)
  Sound-finish m k a s = record {
    finished = λ j e. elim (text_cases k j) [
      | inl p ↦ subst (Acc Needs) p a
      | inr q ↦ s.finished j (sym (mark-insert_ne done m q.1) ∙ e)
    ];
  }

  -- Between the two marks on `k` only steps that were not seen are finished.
  Extends-finish :
      (m n : Map Mark) (k : String)
      → mark_of m k ≡ unseen
      → Extends (insert k entered m) n
      → Extends m (insert k done n)
  Extends-finish m n k new x = record {
    still_done = λ j e. elim (text_cases k j) [
      | inl p ↦ cc (e, new, ap (mark_of m) p)
      | inr q ↦ mark-insert_ne done n q.1 ∙ x.still_done j (mark-insert_ne entered m q.1 ∙ e)
    ];
    no_newly_entered = λ j e. elim (text_cases k j) [
      | inl p ↦ cc (e, mark-insert_self k done n, ap (mark_of (insert k done n)) p)
      | inr q ↦
          sym (mark-insert_ne entered m q.1)
          ∙ x.no_newly_entered j (sym (mark-insert_ne done n q.1) ∙ e)
    ];
    no_newly_unseen = λ j e. elim (text_cases k j) [
      | inl p ↦ cc (new, ap (mark_of m) p)
      | inr q ↦
          sym (mark-insert_ne entered m q.1)
          ∙ x.no_newly_unseen j (sym (mark-insert_ne done n q.1) ∙ e)
    ];
  }

  visit-Visited : (fuel : ℕ) → Visits (visit by_id fuel)
  unfolding visit
  visit-Visited zero m k m' s h = cc
  visit-Visited (suc fuel) m k m' s h = elim (visit-eq-ok fuel m k m' h) [
    | inl (old, same) ↦ (
      subst Sound same s,
      ap (λ x. mark_of x k) (sym same) ∙ old,
      subst (Extends m) same (Extends-refl m),
    )
    | inr (new, (n, run, last)) ↦
        let (sn, dn, en) =
          visit_each-Visited (visit by_id fuel) (visit-Visited fuel) (deps_of by_id k)
            (insert k entered m) n (Sound-enter m k s) run in
        let a : Acc Needs k =
          Acc.intro k (λ d need. sn.finished d (all_in (λ j. mark_of n j ≡ done) dn need)) in
        subst (Visited m k) last
          (Sound-finish n k a sn, mark-insert_self k done n, Extends-finish m n k new en)
  ]

  -- Every step that the search was started on and that it finished is accessible.
  pub visit_each-Acc :
      (fuel : ℕ) (ids : List String) (m' : Map Mark)
      → visit_each (visit by_id fuel) [] ids ≡ ok m'
      → All (Acc Needs) ids
  visit_each-Acc fuel ids m' h =
      let (s, d, _) =
        visit_each-Visited (visit by_id fuel) (visit-Visited fuel) ids [] m'
          (record { finished = λ k e. unfold lookup in cc e }) h in
      All-map (λ k e. s.finished k e) ids d

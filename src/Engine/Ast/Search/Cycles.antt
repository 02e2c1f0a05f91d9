-- ===== src/Engine/Ast/Search/Cycles.antt =====
-- A search of ValidateAST that fails has met a cycle: a step that is entered again is reached from
-- itself, and no call lacks fuel, since each call of a path enters another step.
use aceryx.Prelude.{
  ℕ, zero, suc, ◌<◌, ◌≤◌, String, ◌≡◌, refl, sym, ap, ◌∙◌, subst, inl, inr, Bool, true, false, List,
  [], ◌∷◌, Result, ok, err, ◌>>=◌, In, here, there, count, count_mono, count_drop, length,
  count-le-length, arith, text_cases,
}
use aceryx.Prelude.Map.{Map, lookup, insert}
use aceryx.Engine.Types.{WorkflowStep, EngineError, cycle_detected}
use aceryx.Engine.Ast.{Mark, unseen, entered, done, mark_of, deps_of, visit_each, visit}
use aceryx.Engine.Ast.Search.{
  Needs, Below, direct, Below-Needs, Sound, Extends, Extends-refl, Extends-trans, Sound-enter,
  visit-Visited, mark-insert_self, mark-insert_ne,
}

abbrev is_unseen : Mark → Bool
is_unseen unseen = true
is_unseen entered = false
is_unseen done = false

is_unseen→eq : (x : Mark) → is_unseen x ≡ true → x ≡ unseen
is_unseen→eq x h = ground arith

module _ (by_id : Map WorkflowStep) where
  -- A result of the search: marks, or a step on a cycle.
  abbrev pub Ends : Result EngineError (Map Mark) → Type 0
  Ends (ok m) = Unit
  Ends (err (cycle_detected k)) = Below by_id k k
  Ends (err _) = ⊥

  Ends-bind :
      (r : Result EngineError (Map Mark)) (f : Map Mark → Result EngineError (Map Mark))
      → Ends r
      → ((m : Map Mark) → r ≡ ok m → Ends (f m))
      → Ends (r >>= f)
  Ends-bind (ok m) f h k = k m refl
  Ends-bind (err (cycle_detected j)) f h k = h
  Ends-bind (err _) f h k = absurd h

  module _ (ids : List String)
      (closed : (k d : String) → In k ids → Needs by_id d k → In d ids) where
    abbrev unseen_count : Map Mark → ℕ
    unseen_count m = count (λ k. is_unseen (mark_of m k)) ids

    -- Every entered step leads down to `k`.
    abbrev Above : Map Mark → String → Type 0
    Above m k = (j : String) → mark_of m j ≡ entered → Below by_id k j

    unseen_count-Extends : (m n : Map Mark) → Extends by_id m n → unseen_count n ≤ unseen_count m
    unseen_count-Extends m n x =
        count_mono (λ k. is_unseen (mark_of n k)) (λ k. is_unseen (mark_of m k))
          (λ k e. ap is_unseen (x.no_newly_unseen k (is_unseen→eq (mark_of n k) e))) ids

    still_unseen :
        (m : Map Mark) (k j : String)
        → is_unseen (mark_of (insert k entered m) j) ≡ true
        → is_unseen (mark_of m j) ≡ true
    still_unseen m k j e = elim (text_cases k j) [
      | inl p ↦ cc (e, mark-insert_self k entered m, ap (mark_of (insert k entered m)) p)
      | inr q ↦ ap is_unseen (sym (mark-insert_ne entered m q.1)) ∙ e
    ]

    unseen_count-enter :
        (m : Map Mark) (k : String)
        → In k ids
        → mark_of m k ≡ unseen
        → unseen_count (insert k entered m) < unseen_count m
    unseen_count-enter m k i new =
        count_drop (λ j. is_unseen (mark_of (insert k entered m) j)) (λ j. is_unseen (mark_of m j))
          (λ j e. still_unseen m k j e) (ap is_unseen (mark-insert_self k entered m))
          (ap is_unseen new) i

    abbrev Terminates : ℕ → Type 0
    Terminates fuel =
        (m : Map Mark) (k : String)
        → Sound by_id m
        → In k ids
        → unseen_count m < fuel
        → Above m k
        → Ends (visit by_id fuel m k)

    visit_each-Ends :
        (fuel : ℕ)
        → Terminates fuel
        → (b : Map Mark) → unseen_count b < fuel
        → (ds : List String) → ((d : String) → In d ds → In d ids)
        → ((d j : String) → In d ds → mark_of b j ≡ entered → Below by_id d j)
        → (n : Map Mark) → Sound by_id n
        → Extends by_id b n
        → Ends (visit_each (visit by_id fuel) n ds)
    unfolding visit_each
    visit_each-Ends fuel ih b few [] known below n s x = tt
    visit_each-Ends fuel ih b few (d ∷ ds) known below n s x =
        Ends-bind (visit by_id fuel n d) _
          (ih n d s (known d (here refl)) (omega (arith, unseen_count-Extends b n x))
            (λ j e. below d j (here refl) (x.no_newly_entered j e)))
          λ n' run.
            let (s', _, x') = visit-Visited by_id fuel n d n' s run in
            visit_each-Ends fuel ih b few ds (λ e i. known e (there i))
              (λ e j i. below e j (there i)) n' s' (Extends-trans by_id x x')

    visit-Ends : (fuel : ℕ) → Terminates fuel
    unfolding visit
    visit-Ends zero m k s i few above = absurd (omega arith)
    visit-Ends (suc fuel) m k s i few above = go (mark_of m k) refl (visit-Ends fuel)
      where
        Needs-known : (d : String) → In d (deps_of by_id k) → In d ids
        Needs-known d n = closed k d i n

        below_entered :
            (d j : String)
            → In d (deps_of by_id k)
            → mark_of (insert k entered m) j ≡ entered
            → Below by_id d j
        below_entered d j n e = elim (text_cases k j) [
          | inl p ↦ subst (Below by_id d) p (direct n)
          | inr q ↦ Below-Needs by_id n (above j (sym (mark-insert_ne entered m q.1) ∙ e))
        ]

        go : (x : Mark) → mark_of m k ≡ x → Terminates fuel → Ends (visit by_id (suc fuel) m k)
        go done e ih = rw (e, visit) tt
        go entered e ih = rw (e, visit) (above k e)
        go unseen e ih =
            rw (e, visit)
              (Ends-bind (visit_each (visit by_id fuel) (insert k entered m) (deps_of by_id k)) _
                (visit_each-Ends fuel ih (insert k entered m)
                  (omega (arith, unseen_count-enter m k i e)) (deps_of by_id k) Needs-known
                  below_entered (insert k entered m) (Sound-enter by_id m k s)
                  (Extends-refl by_id (insert k entered m)))
                (λ n run. tt))

    -- A search from no marks, with a call more than there are steps: it succeeds or finds a cycle.
    pub visit_each-Ends_start :
        (ds : List String)
        → ((d : String) → In d ds → In d ids)
        → Ends (visit_each (visit by_id (suc (length ids))) [] ds)
    visit_each-Ends_start ds known =
        visit_each-Ends (suc (length ids)) (visit-Ends (suc (length ids))) []
          (omega (arith, count-le-length (λ k. is_unseen (mark_of [] k)) ids)) ds known
          (λ d j i e. unfold lookup in cc e) [] (record { finished = λ k e. unfold lookup in cc e })
          (Extends-refl by_id [])

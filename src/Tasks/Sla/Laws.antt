-- ===== src/Tasks/Sla/Laws.antt =====
-- internal/tasks: how the status of a deadline and the order of the inbox behave.
use aceryx.Prelude.{
  ℕ, ◌≤◌, true, false, Option, none, some, List, [], ◌∷◌, All, All-map, In, here, there, ◌≡◌, refl,
  sym, subst, ◌⊎◌, inl, inr, Bool-cases, arith,
}
use aceryx.Tasks.Sla.{
  started_status, sla_status, order_of, UserLoad, load_less, insert_load, sort_loads,
  select_least_loaded,
}

started_status_mono :
    (now later deadline : ℕ) (started : Option ℕ)
    → now ≤ later
    → order_of (started_status later deadline started)
      ≤ order_of (started_status now deadline started)
started_status_mono now later deadline none h = omega arith
started_status_mono now later deadline (some started) h = ground arith

-- A task's status only gets worse as time goes: from on_track to warning to breached.
pub sla_status_mono :
    (now later : ℕ) (deadline started : Option ℕ) (hours : ℕ)
    → now ≤ later
    → order_of (sla_status later deadline started hours)
      ≤ order_of (sla_status now deadline started hours)
unfolding sla_status
sla_status_mono now later none started hours h = omega arith
sla_status_mono now later (some deadline) started hours h =
    ground (arith, started_status_mono now later deadline started h)

-- A candidate that goes before another has no more active tasks.
load_less-le : (a b : UserLoad) → load_less a b ≡ true → a.active_count ≤ b.active_count
load_less-le a b h = ground arith

not_load_less-le : (a b : UserLoad) → load_less a b ≡ false → b.active_count ≤ a.active_count
not_load_less-le a b h = ground arith

-- The first of a list has no more active tasks than the others.
abbrev IsLeastFirst : List UserLoad → Type 0
IsLeastFirst [] = Unit
IsLeastFirst (c ∷ rest) = All (λ d. c.active_count ≤ d.active_count) rest

insert_load-All :
    (P : UserLoad → Type 0) (c : UserLoad) (rest : List UserLoad)
    → P c
    → All P rest
    → All P (insert_load c rest)
unfolding insert_load
insert_load-All P c [] p ps = (p, tt)
insert_load-All P c (d ∷ rest) p ps = elim (Bool-cases (load_less d c)) [
  | inl e ↦ rw (e, insert_load) (ps.0, insert_load-All P c rest p ps.1)
  | inr e ↦ rw (e, insert_load) (p, ps)
]

insert_load-IsLeastFirst :
    (c : UserLoad) (rest : List UserLoad) → IsLeastFirst rest → IsLeastFirst (insert_load c rest)
unfolding insert_load
insert_load-IsLeastFirst c [] h = tt
insert_load-IsLeastFirst c (d ∷ rest) h = elim (Bool-cases (load_less d c)) [
  | inl e ↦
      rw (e, insert_load)
        (insert_load-All (λ x. d.active_count ≤ x.active_count) c rest (load_less-le d c e) h)
  | inr e ↦
      let first = not_load_less-le d c e in
      rw (e, insert_load) (first, All-map (λ x k. omega (arith, first, k)) rest h)
]

In-insert_load :
    (c x : UserLoad) (rest : List UserLoad) → In x (insert_load c rest) → (x ≡ c) ⊎ In x rest
unfolding insert_load
In-insert_load c x [] (here e) = inl e
In-insert_load c x [] (there i) = elim i [ ]
In-insert_load c x (d ∷ rest) i = elim (Bool-cases (load_less d c)) [
  | inl e ↦ elim (rw (e, insert_load) at i) [
    | here same ↦ inr (here same)
    | there j ↦ elim (In-insert_load c x rest j) [ inl same ↦ inl same | inr k ↦ inr (there k) ]
  ]
  | inr e ↦ elim (rw (e, insert_load) at i) [ here same ↦ inl same | there j ↦ inr j ]
]

insert_load-All_inv :
    (P : UserLoad → Type 0) (c : UserLoad) (rest : List UserLoad)
    → All P (insert_load c rest)
    → P c × All P rest
unfolding insert_load
insert_load-All_inv P c [] h = h
insert_load-All_inv P c (d ∷ rest) h = elim (Bool-cases (load_less d c)) [
  | inl e ↦
      let ps = rw (e, insert_load) at h in
      let (p, qs) = insert_load-All_inv P c rest ps.1 in (p, (ps.0, qs))
  | inr e ↦ rw (e, insert_load) at h
]

loads_cases :
    (xs : List UserLoad) → (xs ≡ []) ⊎ ((c : UserLoad) × (rest : List UserLoad) × (xs ≡ c ∷ rest))
loads_cases [] = inl refl
loads_cases (c ∷ rest) = inr (c, rest, refl)

sort_loads-nonempty : (first : UserLoad) (rest : List UserLoad) → ¬ (sort_loads (first ∷ rest) ≡ [])
unfolding sort_loads
sort_loads-nonempty first rest h =
    (insert_load-All_inv (λ x. ⊥) first (sort_loads rest) (subst (All (λ x. ⊥)) (sym h) tt)).0

sort_loads-IsLeastFirst : (candidates : List UserLoad) → IsLeastFirst (sort_loads candidates)
unfolding sort_loads
sort_loads-IsLeastFirst [] = tt
sort_loads-IsLeastFirst (c ∷ rest) =
    insert_load-IsLeastFirst c (sort_loads rest) (sort_loads-IsLeastFirst rest)

In-sort_loads :
    (x : UserLoad) (candidates : List UserLoad) → In x (sort_loads candidates) → In x candidates
unfolding sort_loads
In-sort_loads x [] i = elim i [ ]
In-sort_loads x (c ∷ rest) i = elim (In-insert_load c x (sort_loads rest) i) [
  | inl same ↦ here same
  | inr j ↦ there (In-sort_loads x rest j)
]

sort_loads-All :
    (P : UserLoad → Type 0) (candidates : List UserLoad)
    → All P (sort_loads candidates)
    → All P candidates
unfolding sort_loads
sort_loads-All P [] h = tt
sort_loads-All P (c ∷ rest) h =
    let (first, more) = insert_load-All_inv P c (sort_loads rest) h in
    (first, sort_loads-All P rest more)

-- The user who is chosen is a candidate, and no candidate has fewer active tasks; one is chosen
-- where there is a candidate.
pub select_least_loaded-least :
    (first : UserLoad) (rest : List UserLoad)
    → (c : UserLoad) × (select_least_loaded (first ∷ rest) ≡ some c.principal_id)
      × In c (first ∷ rest)
      × All (λ d. c.active_count ≤ d.active_count) (first ∷ rest)
unfolding select_least_loaded
select_least_loaded-least first rest =
    let xs = first ∷ rest in
    elim (loads_cases (sort_loads xs)) [
      | inl e ↦ absurd (sort_loads-nonempty first rest e)
      | inr (c, later, e) ↦ (
        c,
        rw (select_least_loaded, e) refl,
        In-sort_loads c xs (subst (In c) (sym e) (here refl)),
        sort_loads-All (λ d. c.active_count ≤ d.active_count) xs
            (subst (All (λ d. c.active_count ≤ d.active_count)) (sym e)
              (omega arith, subst IsLeastFirst e (sort_loads-IsLeastFirst xs))),
      )
    ]

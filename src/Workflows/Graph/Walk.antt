-- ===== src/Workflows/Graph/Walk.antt =====
-- The breadth-first search of internal/workflows/publish_validation.go, over any graph: its fuel is
-- enough, and it visits exactly what a path of arrows leads to.
use aceryx.Prelude.{
  ℕ, zero, suc, ◌+◌, ◌≤◌, String, true, false, some, List, [], ◌∷◌, ◌++◌, length, contains, In,
  here, there, In-append, In-append_left, In-append_right, length-append, ◌==◌, eq_iff,
  if◌then◌else◌, ◌≡◌, refl, sym, ap, subst, ◌↔◌, ◌⊎◌, inl, inr, Bool-cases, arith,
}
use aceryx.Workflows.Graph.{walk, take_current}

-- What a path of arrows leads to from one of the roots.
pub data Reachable (next : String → List String) (roots : List String) : String → Type 0 where
  root : {v : String} → In v roots → Reachable next roots v
  arrow : {u v : String} → Reachable next roots u → In v (next u) → Reachable next roots v

pub contains→In : (xs : List String) (v : String) → contains xs v ≡ true → In v xs
contains→In [] v h = cc h
contains→In (x ∷ xs) v h = elim (Bool-cases (x == v)) [
  | inl e ↦ here (sym ((eq_iff x v).0 e))
  | inr e ↦ there (contains→In xs v (rw (e) at h))
]

pub In→contains : (xs : List String) (v : String) → In v xs → contains xs v ≡ true
In→contains [] v i = elim i [ ]
In→contains (x ∷ xs) v (here e) = ground (arith, (eq_iff x v).1 (sym e))
In→contains (x ∷ xs) v (there i) = ground (arith, In→contains xs v i)

-- The names differ.
abbrev pub Distinct : List String → Type 0
Distinct [] = Unit
Distinct (x ∷ xs) = (contains xs x ≡ false) × Distinct xs

-- The arrows that leave the nodes of `keys` that are not visited.
abbrev pub pending : (String → List String) → List String → List String → ℕ
pending next visited [] = 0
pending next visited (k ∷ keys) =
    (if contains visited k then 0 else length (next k)) + pending next visited keys

module _ (next : String → List String) where
  pending_mono :
      (visited : List String) (u : String) (keys : List String)
      → pending next (u ∷ visited) keys ≤ pending next visited keys
  pending_mono visited u [] = omega arith
  pending_mono visited u (k ∷ keys) = ground (arith, pending_mono visited u keys)

  -- A node that is visited takes its arrows out of the count.
  pending_drop :
      (visited : List String) (u : String)
      → contains visited u ≡ false
      → (keys : List String) → contains keys u ≡ true
      → pending next (u ∷ visited) keys + length (next u) ≤ pending next visited keys
  pending_drop visited u new [] h = cc h
  pending_drop visited u new (k ∷ keys) h = elim (Bool-cases (k == u)) [
    | inl e ↦ ground (
      arith,
      (eq_iff u k).1 (sym ((eq_iff k u).0 e)),
      pending_mono visited u keys,
      ap (λ j. contains visited j) ((eq_iff k u).0 e),
      ap (λ j. length (next j)) ((eq_iff k u).0 e),
    )
    | inr e ↦ ground (
      arith,
      pending_drop visited u new keys (rw (e) at h),
      pending_mono visited u (k ∷ []),
      eq_iff u k,
      eq_iff k u,
    )
  ]

  -- A round takes one from what is queued and left.
  fewer :
      (keys : List String)
      → ((u : String) → contains keys u ≡ false → length (next u) ≡ 0)
      → (visited : List String) (c : String) (rest : List String)
      → length (take_current next visited c rest).1
          + pending next (take_current next visited c rest).0 keys
        ≤ length rest + pending next visited keys
  fewer keys covered visited c rest = elim (Bool-cases (contains visited c)) [
    | inl e ↦ rw (e) (omega arith)
    | inr e ↦ elim (Bool-cases (contains keys c)) [
      | inl k ↦ rw (e) (omega (arith, length-append rest (next c), pending_drop visited c e keys k))
      | inr k ↦
          rw (e)
            (omega (arith, length-append rest (next c), pending_mono visited c keys, covered c k))
    ]
  ]

  -- The search ends where the entries of the queue and the arrows that are left are in the fuel.
  pub walk_ends :
      (keys : List String)
      → ((u : String) → contains keys u ≡ false → length (next u) ≡ 0)
      → (fuel : ℕ) (visited queue : List String) → length queue + pending next visited keys ≤ fuel
      → (t : List String) × (walk next fuel visited queue ≡ some t)
  unfolding walk
  walk_ends keys covered fuel visited [] h = (visited, refl)
  walk_ends keys covered zero visited (c ∷ rest) h = absurd (omega arith)
  walk_ends keys covered (suc fuel) visited (c ∷ rest) h =
      let after = take_current next visited c rest in
      walk_ends keys covered fuel after.0 after.1 (omega (arith, fewer keys covered visited c rest))

  -- What each round keeps holds at the end.
  pub walk_rule {ℓ} :
      (P : List String → List String → Type ℓ)
      → ((visited rest : List String) (c : String)
          → P visited (c ∷ rest)
          → P (take_current next visited c rest).0 (take_current next visited c rest).1)
      → (fuel : ℕ) (visited queue t : List String) → P visited queue
      → walk next fuel visited queue ≡ some t
      → P t []
  unfolding walk
  walk_rule P keep fuel visited [] t p h = subst (λ v. P v []) (cc h) p
  walk_rule P keep zero visited (c ∷ rest) t p h = cc h
  walk_rule P keep (suc fuel) visited (c ∷ rest) t p h =
      let after = take_current next visited c rest in
      walk_rule P keep fuel after.0 after.1 t (keep visited rest c p) h

module _ (next : String → List String) (roots : List String) where
  record Inv (visited queue : List String) : Type 0 where
    sound : (v : String) → contains visited v ≡ true → Reachable next roots v
    queued : (v : String) → In v queue → Reachable next roots v
    rooted : (r : String) → In r roots → (contains visited r ≡ true) ⊎ In r queue
    closed :
        (u v : String)
        → contains visited u ≡ true
        → In v (next u)
        → (contains visited v ≡ true) ⊎ In v queue
    distinct : Distinct visited

  Inv-start : Inv [] roots
  Inv-start = record {
    sound = λ v h. cc h;
    queued = λ v i. root i;
    rooted = λ r i. inr i;
    closed = λ u v h i. cc h;
    distinct = tt;
  }

  -- What was visited or queued is so after a round.
  moved :
      (visited rest : List String) (c v : String)
      → (contains visited v ≡ true) ⊎ In v (c ∷ rest)
      → (contains (c ∷ visited) v ≡ true) ⊎ In v (rest ++ next c)
  moved visited rest c v (inl h) = inl (ground arith)
  moved visited rest c v (inr (here e)) = inl (ground (arith, (eq_iff c v).1 (sym e)))
  moved visited rest c v (inr (there i)) = inr (In-append_left (next c) i)

  passed :
      (visited rest : List String) (c v : String)
      → contains visited c ≡ true
      → (contains visited v ≡ true) ⊎ In v (c ∷ rest)
      → (contains visited v ≡ true) ⊎ In v rest
  passed visited rest c v old (inl h) = inl h
  passed visited rest c v old (inr (here e)) =
      inl (subst (λ w. contains visited w ≡ true) (sym e) old)
  passed visited rest c v old (inr (there i)) = inr i

  Inv-round :
      (visited rest : List String) (c : String)
      → Inv visited (c ∷ rest)
      → Inv (take_current next visited c rest).0 (take_current next visited c rest).1
  Inv-round visited rest c h = elim (Bool-cases (contains visited c)) [
    | inl e ↦ rw (e) (record {
      sound = h.sound;
      queued = λ v i. h.queued v (there i);
      rooted = λ r i. passed visited rest c r e (h.rooted r i);
      closed = λ u v k i. passed visited rest c v e (h.closed u v k i);
      distinct = h.distinct;
    })
    | inr e ↦ rw (e) (record {
      sound = λ v k. elim (Bool-cases (c == v)) [
        | inl same ↦ subst (Reachable next roots) ((eq_iff c v).0 same) (h.queued c (here refl))
        | inr other ↦ h.sound v (rw (other) at k)
      ];
      queued = λ v i. elim (In-append rest i) [
        | inl j ↦ h.queued v (there j)
        | inr j ↦ arrow (h.queued c (here refl)) j
      ];
      rooted = λ r i. moved visited rest c r (h.rooted r i);
      closed = λ u v k i. elim (Bool-cases (c == u)) [
        | inl same ↦
            inr (In-append_right rest (subst (λ w. In v (next w)) (sym ((eq_iff c u).0 same)) i))
        | inr other ↦ moved visited rest c v (h.closed u v (rw (other) at k) i)
      ];
      distinct = (e, h.distinct);
    })
  ]

  complete :
      (t : List String) → Inv t [] → {v : String} → Reachable next roots v → contains t v ≡ true
  complete t h (root {v} i) = elim (h.rooted v i) [ inl k ↦ k | inr j ↦ elim j [ ] ]
  complete t h (arrow {u} {v} r i) = elim (h.closed u v (complete t h r) i) [
    | inl k ↦ k
    | inr j ↦ elim j [ ]
  ]

  pub walk_visits :
      (fuel : ℕ) (t : List String)
      → walk next fuel [] roots ≡ some t
      → Distinct t × ((v : String) → (contains t v ≡ true) ↔ Reachable next roots v)
  walk_visits fuel t h =
      let inv = walk_rule next Inv Inv-round fuel [] roots t Inv-start h in
      (inv.distinct, λ v. (inv.sound v, complete t inv))

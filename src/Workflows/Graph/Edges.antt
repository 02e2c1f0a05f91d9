-- ===== src/Workflows/Graph/Edges.antt =====
-- The adjacency maps of internal/workflows/publish_validation.go hold the arrows that were appended
-- to them, and no more of them than the fuel of the searches counts.
use aceryx.Prelude.{
  ◌≤◌, String, false, ◌||◌, none, some, List, [], ◌∷◌, ◌++◌, map, length, contains, In, here, there,
  In-append, In-append_left, In-append_right, ◌==◌, eq_iff, if◌then◌else◌, ◌≡◌, refl, sym, ap,
  subst, ◌↔◌, ◌⊎◌, inl, inr, Bool-cases, text_cases, arith,
}
use aceryx.Prelude.Map.{Map, lookup, insert, list_at, lookup-insert}
use aceryx.Workflows.Graph.{add_edge, add_edges, edge_count}
use aceryx.Workflows.Graph.Walk.{Distinct, pending}

abbrev pub keys : Map (List String) → List String
keys m = map (λ entry. entry.0) m

list_at-add_edge :
    (m : Map (List String)) (u v w : String)
    → list_at (add_edge m (u, v)) w ≡ (if u == w then list_at m u ++ v ∷ [] else list_at m w)
list_at-add_edge m u v w =
    rw (list_at, lookup-insert)
      (elim (Bool-cases (u == w)) [ inl e ↦ rw (e) refl | inr e ↦ rw (e) refl ])

add_edge_iff :
    (m : Map (List String)) (u v w x : String)
    → In x (list_at (add_edge m (u, v)) w)
      ↔ (In x (list_at m w) ⊎ (◌≡◌ {A = String × String} (w, x) (u, v)))
add_edge_iff m u v w x = (into, out)
  where
    into :
        In x (list_at (add_edge m (u, v)) w)
        → In x (list_at m w) ⊎ (◌≡◌ {A = String × String} (w, x) (u, v))
    into i = elim (text_cases u w) [
      | inl same ↦
          let j = subst (In x) (list_at-add_edge m u v w) i in
          elim (In-append (list_at m u) (rw ((eq_iff u w).1 same) at j)) [
            | inl old ↦ inl (subst (λ k. In x (list_at m k)) same old)
            | inr (here e) ↦ inr (cc (same, e))
            | inr (there k) ↦ elim k [ ]
          ]
      | inr (e, _) ↦ let j = subst (In x) (list_at-add_edge m u v w) i in inl (rw (e) at j)
    ]

    out :
        In x (list_at m w) ⊎ (◌≡◌ {A = String × String} (w, x) (u, v))
        → In x (list_at (add_edge m (u, v)) w)
    out (inl i) = subst (In x) (sym (list_at-add_edge m u v w)) (elim (text_cases u w) [
      | inl same ↦
          rw ((eq_iff u w).1 same)
            (In-append_left (v ∷ []) (subst (λ k. In x (list_at m k)) (sym same) i))
      | inr (e, _) ↦ rw (e) i
    ])
    out (inr e) = subst (In x) (sym (list_at-add_edge m u v w)) (
        rw ((eq_iff u w).1 (ap (λ p. p.0) (sym e)))
          (In-append_right (list_at m u) (here (ap (λ p. p.1) e))))

-- A map of arrows holds what it held and what is added.
pub add_edges_iff :
    (m : Map (List String)) (edges : List (String × String)) (w x : String)
    → In x (list_at (add_edges m edges) w) ↔ (In x (list_at m w) ⊎ In (w, x) edges)
add_edges_iff m [] w x = (inl, λ i. elim i [ inl j ↦ j | inr j ↦ elim j [ ] ])
add_edges_iff m (edge ∷ rest) w x =
    let (into, out) = add_edges_iff (add_edge m edge) rest w x in
    let (first, back) = add_edge_iff m edge.0 edge.1 w x in
    (
      λ i. elim (into i) [
        | inl j ↦ elim (first j) [ inl old ↦ inl old | inr e ↦ inr (here e) ]
        | inr j ↦ inr (there j)
      ],
      λ i. elim i [
        | inl old ↦ out (inl (back (inl old)))
        | inr (here e) ↦ out (inl (back (inr e)))
        | inr (there j) ↦ out (inr j)
      ],
    )

-- The keys of such a map differ.
contains-keys-insert :
    (k : String) (xs : List String) (m : Map (List String)) (u : String)
    → contains (keys (insert k xs m)) u ≡ (k == u || contains (keys m) u)
unfolding insert
contains-keys-insert k xs [] u = ground arith
contains-keys-insert k xs (entry ∷ rest) u =
    ground (arith, contains-keys-insert k xs rest u, eq_iff entry.0 k, eq_iff entry.0 u, eq_iff k u)

Distinct-insert :
    (k : String) (xs : List String) (m : Map (List String))
    → Distinct (keys m)
    → Distinct (keys (insert k xs m))
unfolding insert
Distinct-insert k xs [] d = (refl, tt)
Distinct-insert k xs (entry ∷ rest) d = elim (Bool-cases (entry.0 == k)) [
  | inl e ↦ rw (e) d
  | inr e ↦ rw (e) (
    ground (arith, contains-keys-insert k xs rest entry.0, eq_iff k entry.0, eq_iff entry.0 k, d.0),
    Distinct-insert k xs rest d.1,
  )
]

pub Distinct-add_edges :
    (m : Map (List String)) (edges : List (String × String))
    → Distinct (keys m)
    → Distinct (keys (add_edges m edges))
Distinct-add_edges m [] d = d
Distinct-add_edges m (edge ∷ rest) d =
    Distinct-add_edges (add_edge m edge) rest
      (Distinct-insert edge.0 (list_at m edge.0 ++ edge.1 ∷ []) m d)

-- Another entry does not change what is counted at the keys that differ from it.
pending-skip :
    (k : String) (xs : List String) (m : Map (List String)) (ks : List String)
    → contains ks k ≡ false
    → pending (list_at ((k, xs) ∷ m)) [] ks ≡ pending (list_at m) [] ks
unfolding lookup
pending-skip k xs m [] h = refl
pending-skip k xs m (j ∷ ks) h = elim (Bool-cases (k == j)) [
  | inl e ↦ ground (arith, eq_iff k j, eq_iff j k)
  | inr e ↦ rw (list_at, e) (omega (arith, pending-skip k xs m ks (ground arith)))
]

pending-edge_count :
    (m : Map (List String)) → Distinct (keys m) → pending (list_at m) [] (keys m) ≡ edge_count m
unfolding lookup edge_count
pending-edge_count [] d = refl
pending-edge_count (entry ∷ rest) d = omega (
  arith,
  pending-skip entry.0 entry.1 rest (keys rest) d.0,
  pending-edge_count rest d.1,
  ap
      (λ b. length (elim (if b then some entry.1 else lookup entry.0 rest) as (λ o. List String) [
        | none ↦ []
        | some xs ↦ xs
      ]))
      ((eq_iff entry.0 entry.0).1 refl),
)

pending_le :
    (f g : String → List String)
    → ((u : String) → length (f u) ≤ length (g u))
    → (visited ks : List String) → pending f visited ks ≤ pending g visited ks
pending_le f g h visited [] = omega arith
pending_le f g h visited (k ∷ ks) = ground (arith, h k, pending_le f g h visited ks)

-- Only keys have arrows.
list_at-uncovered :
    (m : Map (List String)) (u : String) → contains (keys m) u ≡ false → list_at m u ≡ []
unfolding lookup
list_at-uncovered [] u h = refl
list_at-uncovered (entry ∷ rest) u h = elim (Bool-cases (entry.0 == u)) [
  | inl e ↦ ground arith
  | inr e ↦ rw (list_at, e) (list_at-uncovered rest u (ground arith))
]

-- What a search over a part of a map's arrows needs of its fuel.
pub search_fits :
    (m : Map (List String)) (next : String → List String)
    → Distinct (keys m)
    → ((u : String) → length (next u) ≤ length (list_at m u))
    → ((u : String) → contains (keys m) u ≡ false → length (next u) ≡ 0)
      × (pending next [] (keys m) ≤ edge_count m)
search_fits m next d h = (
  λ u k. omega (arith, h u, ap length (list_at-uncovered m u k)),
  omega (arith, pending_le next (list_at m) h [] (keys m), pending-edge_count m d),
)

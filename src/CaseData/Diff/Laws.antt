-- ===== src/CaseData/Diff/Laws.antt =====
-- internal/cases/merge.go: the entries of ComputeFieldDiff.
use aceryx.Prelude.{
  String, Bool, true, false, Option, none, some, List, [], ◌∷◌, ◌++◌, ◌||◌, contains, ◌==◌, eq_iff,
  if◌then◌else◌, ◌≡◌, refl, sym, ap, subst, ◌∙◌, ◌⊎◌, ◌↔◌, some-injective, inl, inr, Bool-cases,
  arith,
}
use aceryx.Prelude.Map.{Map, lookup, lookup-insert, lookup-delete, lookup-empty, lookup-insert_self}
use aceryx.Json.{Json, null, Fields}
use aceryx.CaseData.Diff.{
  FieldDiff, flattened, paths_of, difference, put, diff_paths, compute_field_diff,
}

lookup-absent : (q : String) (m : Map Json) → contains (paths_of m) q ≡ false → lookup q m ≡ none
unfolding lookup
lookup-absent q [] h = refl
lookup-absent q (entry ∷ rest) h = ground (arith, h, lookup-absent q rest)

contains-append :
    (xs ys : List String) (q : String) → contains (xs ++ ys) q ≡ (contains xs q || contains ys q)
contains-append [] ys q = refl
contains-append (x ∷ xs) ys q = ground (arith, contains-append xs ys q)

if_same {ℓ} : {A : Type ℓ} (b : Bool) (a : A) → (if b then a else a) ≡ a
if_same true a = refl
if_same false a = refl

module _ (deep_equal : Json → Json → Bool) where
  lookup-put_self :
      (q : String) (entry : Option FieldDiff) (diff : Map FieldDiff)
      → (lookup q diff ≡ none) ⊎ (lookup q diff ≡ entry)
      → lookup q (put deep_equal q entry diff) ≡ entry
  lookup-put_self q none diff (inl e) = e
  lookup-put_self q none diff (inr e) = e
  lookup-put_self q (some e) diff h = lookup-insert_self q e diff

  lookup-put_ne :
      (q path : String) (entry : Option FieldDiff) (diff : Map FieldDiff)
      → (path == q) ≡ false
      → lookup q (put deep_equal path entry diff) ≡ lookup q diff
  lookup-put_ne q path none diff e = refl
  lookup-put_ne q path (some entry) diff e = rw (lookup-insert, e) refl

  -- A path that the loop passes has its difference, and any other what it had.
  lookup-diff_paths :
      (lb la : Map Json) (q : String) (paths : List String) (diff : Map FieldDiff)
      → (lookup q diff ≡ none) ⊎ (lookup q diff ≡ difference deep_equal (lookup q lb) (lookup q la))
      → lookup q (diff_paths deep_equal lb la paths diff) ≡ (
          if contains paths q
          then difference deep_equal (lookup q lb) (lookup q la)
          else lookup q diff)
  unfolding diff_paths
  lookup-diff_paths lb la q [] diff h = refl
  lookup-diff_paths lb la q (path ∷ rest) diff h =
      let mine = difference deep_equal (lookup q lb) (lookup q la) in
      let next =
        put deep_equal path (difference deep_equal (lookup path lb) (lookup path la)) diff in
      elim (Bool-cases (path == q)) [
        | inl e ↦
            let written : lookup q next ≡ mine =
              subst
                (λ p.
                  lookup q
                    (put deep_equal p (difference deep_equal (lookup p lb) (lookup p la)) diff)
                  ≡ mine)
                (sym ((eq_iff path q).0 e)) (lookup-put_self q mine diff h) in
            lookup-diff_paths lb la q rest next (inr written)
            ∙ rw (e, written) (if_same (contains rest q) mine)
        | inr e ↦
            let kept : lookup q next ≡ lookup q diff = lookup-put_ne q path _ diff e in
            lookup-diff_paths lb la q rest next
              (elim h [ inl g ↦ inl (kept ∙ g) | inr g ↦ inr (kept ∙ g) ])
            ∙ rw (e, kept) refl
      ]

  -- A path of neither side has no difference, nor an entry.
  diff_paths-flat :
      (lb la : Map Json) (path : String)
      → (if contains (paths_of lb ++ paths_of la) path
          then difference deep_equal (lookup path lb) (lookup path la)
          else lookup {V = FieldDiff} path [])
        ≡ difference deep_equal (lookup path lb) (lookup path la)
  unfolding difference
  diff_paths-flat lb la path = elim (Bool-cases (contains (paths_of lb ++ paths_of la) path)) [
    | inl e ↦ rw (e) refl
    | inr e ↦
        let both = sym (contains-append (paths_of lb) (paths_of la) path) ∙ e in
        let off_b : contains (paths_of lb) path ≡ false = ground (arith, both) in
        let off_a : contains (paths_of la) path ≡ false = ground (arith, both) in
        rw (e, lookup-absent path lb off_b, lookup-absent path la off_a) (lookup-empty path)
  ]

  -- The entry of a path, by the loop over the paths.
  lookup-compute_field_diff :
      (before after : Fields) (path : String)
      → lookup path (compute_field_diff deep_equal before after) ≡ (
          if "" == path
          then none
          else difference deep_equal
              (lookup path (flattened before))
              (lookup path (flattened after)))
  unfolding compute_field_diff
  lookup-compute_field_diff before after path =
      let lb = flattened before in
      let la = flattened after in
      let paths = paths_of lb ++ paths_of la in
      let mine = difference deep_equal (lookup path lb) (lookup path la) in
      let found : lookup path (diff_paths deep_equal lb la paths []) ≡ mine =
        lookup-diff_paths lb la path paths [] (inl (lookup-empty path))
        ∙ diff_paths-flat lb la path in
      lookup-delete "" path (diff_paths deep_equal lb la paths [])
      ∙ ap (λ v. if "" == path then none else v) found

  -- What changed at a path: it was added, removed, or has another value now.
  pub data Change : Option Json → Option Json → FieldDiff → Type 0 where
    added : (v : Json) → Change none (some v) (record { before = null; after = v })
    removed : (v : Json) → Change (some v) none (record { before = v; after = null })
    changed :
        (v w : Json)
        → deep_equal v w ≡ false
        → Change (some v) (some w) (record { before = v; after = w })

  difference-Change :
      (before after : Option Json) (d : FieldDiff)
      → difference deep_equal before after ≡ some d
      → Change before after d
  unfolding difference
  difference-Change none none d = λ h. cc h
  difference-Change none (some v) d = λ h. subst (Change none (some v)) (some-injective h) (added v)
  difference-Change (some v) none d =
      λ h. subst (Change (some v) none) (some-injective h) (removed v)
  difference-Change (some v) (some w) d = elim (Bool-cases (deep_equal v w)) [
    | inl e ↦ rw (e) (λ h. cc h)
    | inr e ↦ rw (e) (λ h. subst (Change (some v) (some w)) (some-injective h) (changed v w e))
  ]

  Change-difference :
      (before after : Option Json) (d : FieldDiff)
      → Change before after d
      → difference deep_equal before after ≡ some d
  unfolding difference
  Change-difference _ _ d (added v) = refl
  Change-difference _ _ d (removed v) = refl
  Change-difference _ _ d (changed v w e) = rw (e) refl

  -- ComputeFieldDiff has an entry for a path just when the path is not empty and the two flattened
  -- data differ there: only the data after have the path, and the entry holds nil and their value;
  -- only the data before have it, and it holds their value and nil; or both have it with values that
  -- are not deeply equal, and it holds the one before and the one after.
  pub compute_field_diff_iff :
      (before after : Fields) (path : String) (d : FieldDiff)
      → (lookup path (compute_field_diff deep_equal before after) ≡ some d) ↔ (
          (("" == path) ≡ false)
          × Change (lookup path (flattened before)) (lookup path (flattened after)) d)
  compute_field_diff_iff before after path d =
      let same = lookup-compute_field_diff before after path in
      elim (Bool-cases ("" == path)) [
        | inl e ↦ (λ h. cc (rw (e) at (sym same ∙ h)), λ (f, _). cc (e, f))
        | inr e ↦ (
          λ h. (e, difference-Change _ _ d (rw (e) at (sym same ∙ h))),
          λ (_, c). same ∙ rw (e) (Change-difference _ _ d c),
        )
      ]

-- ===== src/Tasks/Lifecycle/Rows.antt =====
-- internal/tasks: the rows that an UPDATE changes, and those that it leaves.
use aceryx.Prelude.{
  Bool, true, false, some, List, [], ◌∷◌, any, map, In, In-map, In-map_inv, here, there,
  if◌then◌else◌, ◌≡◌, refl, sym, ap, ◌∙◌, subst, inl, inr, Bool-cases,
}
use aceryx.Tasks.Lifecycle.{TaskRow, update_rows, find_row}

abbrev pub updated : (TaskRow → Bool) → (TaskRow → TaskRow) → TaskRow → TaskRow
updated test change row = if test row then change row else row

module _ (test : TaskRow → Bool) (change : TaskRow → TaskRow) where
  -- Each row is changed or left.
  update_rows-map :
      (rows : List TaskRow) → update_rows test change rows ≡ map (updated test change) rows
  unfolding update_rows
  update_rows-map [] = refl
  update_rows-map (r ∷ rows) = elim (Bool-cases (test r)) [
    | inl t ↦ rw (t, update_rows) (ap (λ rs. change r ∷ rs) (update_rows-map rows))
    | inr t ↦ rw (t, update_rows) (ap (λ rs. r ∷ rs) (update_rows-map rows))
  ]

  pub In-update_rows :
      (rows : List TaskRow) {row : TaskRow}
      → In row rows
      → In (updated test change row) (update_rows test change rows)
  In-update_rows rows {row} i =
      subst (In (updated test change row)) (sym (update_rows-map rows))
        (In-map (updated test change) i)

  pub In-update_rows_inv :
      (rows : List TaskRow) {row : TaskRow}
      → In row (update_rows test change rows)
      → (old : TaskRow) × In old rows × (row ≡ updated test change old)
  In-update_rows_inv rows {row} i =
      let (old, j, e) =
        In-map_inv (updated test change) rows (subst (In row) (update_rows-map rows) i) in
      (old, j, sym e)

pub updated-yes :
    (test : TaskRow → Bool) (change : TaskRow → TaskRow) (row : TaskRow)
    → test row ≡ true
    → updated test change row ≡ change row
updated-yes test change row t = rw (t) refl

pub updated-no :
    (test : TaskRow → Bool) (change : TaskRow → TaskRow) (row : TaskRow)
    → test row ≡ false
    → updated test change row ≡ row
updated-no test change row t = rw (t) refl

pub any-In :
    (test : TaskRow → Bool) (rows : List TaskRow)
    → any test rows ≡ true
    → (row : TaskRow) × In row rows × (test row ≡ true)
any-In test [] h = cc h
any-In test (r ∷ rows) h = elim (Bool-cases (test r)) [
  | inl t ↦ (r, here refl, t)
  | inr t ↦ let (row, i, e) = any-In test rows (rw (t) at h) in (row, there i, e)
]

pub find_row-some :
    (test : TaskRow → Bool) (rows : List TaskRow) {row : TaskRow}
    → find_row test rows ≡ some row
    → In row rows × (test row ≡ true)
unfolding find_row
find_row-some test [] h = cc h
find_row-some test (r ∷ rows) {row} h = elim (Bool-cases (test r)) [
  | inl t ↦
      let same : r ≡ row = cc (rw (t, find_row) at h) in
      (here (sym same), subst (λ x. test x ≡ true) same t)
  | inr t ↦ let (i, e) = find_row-some test rows (rw (t, find_row) at h) in (there i, e)
]

-- The ids of a case's steps differ, as the table demands.
abbrev pub UniqueIds : List TaskRow → Type 0
UniqueIds rows = (r s : TaskRow) → In r rows → In s rows → r.step_id ≡ s.step_id → r ≡ s

-- An update that keeps the ids.
pub UniqueIds-update_rows :
    (test : TaskRow → Bool) (change : TaskRow → TaskRow)
    → ((row : TaskRow) → (updated test change row).step_id ≡ row.step_id)
    → (rows : List TaskRow) → UniqueIds rows
    → UniqueIds (update_rows test change rows)
UniqueIds-update_rows test change keeps rows unique r s i j same =
    let (r0, i0, er) = In-update_rows_inv test change rows i in
    let (s0, j0, es) = In-update_rows_inv test change rows j in
    let olds =
      unique r0 s0 i0 j0
        (sym (ap (λ x. x.step_id) er ∙ keeps r0) ∙ same ∙ ap (λ x. x.step_id) es ∙ keeps s0) in
    er ∙ ap (updated test change) olds ∙ sym es

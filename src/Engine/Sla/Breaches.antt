-- ===== src/Engine/Sla/Breaches.antt =====
-- Which breaches a pass records, and when a tick of the monitor ends.
use aceryx.Prelude.{
  ℕ, zero, suc, ◌≤◌, ◌<◌, ◌≡◌, refl, sym, ap, ◌∙◌, subst, inl, inr, Bool, true, false, not, ◌&&◌,
  none, some, List, [], ◌∷◌, length, filter, In, here, there, ltb, nat_eq, arith, ◌==◌, Bool-cases,
  Option-cases, some-injective,
}
use aceryx.Engine.Sla.{
  TaskRow, is_overdue, take, sort_by_deadline, insert_by_deadline, find_row, record_sla_breach,
  Callback, record_each, check_overdue_tasks, monitor_tick,
}

-- A row of the table, of a live case, active and past its deadline.
pub record Breached (now id : ℕ) (table : List TaskRow) : Type 0 where
  pub row : TaskRow
  pub found : In row table
  pub same_id : row.id ≡ id
  pub live : (row.case_status == "cancelled") ≡ false
  pub overdue : is_overdue now row ≡ true

find_row-In :
    (id : ℕ) (table : List TaskRow) (row : TaskRow)
    → find_row id table ≡ some row
    → In row table × (row.id ≡ id)
unfolding find_row
find_row-In id [] row h = cc h
find_row-In id (x ∷ table) row h = elim (Bool-cases (nat_eq x.id id)) [
  | inl same ↦
      let e = some-injective (rw (find_row, same) at h) in
      (here (sym e), ap (λ (r : TaskRow). r.id) (sym e) ∙ ground (arith, same))
  | inr other ↦ let (i, e) = find_row-In id table row (rw (find_row, other) at h) in (there i, e)
]

record_sla_breach-Breached :
    (now id : ℕ) (table : List TaskRow)
    → record_sla_breach now id table ≡ true
    → Breached now id table
unfolding record_sla_breach
record_sla_breach-Breached now id table h = elim (Option-cases (find_row id table)) [
  | inl missing ↦ cc (rw (record_sla_breach, missing) at h)
  | inr (row, found) ↦
      let both : (not (row.case_status == "cancelled") && is_overdue now row) ≡ true =
        rw (record_sla_breach, found) at h in
      let (i, e) = find_row-In id table row found in
      record {
        row = row;
        found = i;
        same_id = e;
        live = left (row.case_status == "cancelled") (is_overdue now row) both;
        overdue = right (row.case_status == "cancelled") (is_overdue now row) both;
      }
]
  where
    left : (a b : Bool) → (not a && b) ≡ true → a ≡ false
    left true b h = cc h
    left false b h = refl

    right : (a b : Bool) → (not a && b) ≡ true → b ≡ true
    right true b h = cc h
    right false b h = h

-- With a callback that leaves the table as it is, a pass records breaches of that table only.
record_each-Breached :
    (now : ℕ) (escalate : Callback) (tasks table : List TaskRow) (id : ℕ)
    → ((task : TaskRow) → escalate task table ≡ table)
    → In id (record_each now escalate tasks table).1
    → Breached now id table
unfolding record_each
record_each-Breached now escalate [] table id kept i = elim i [ ]
record_each-Breached now escalate (task ∷ tasks) table id kept i =
    elim (Bool-cases (record_sla_breach now task.id table)) [
      | inr other ↦
          record_each-Breached now escalate tasks table id kept (rw (record_each, other) at i)
      | inl holds ↦
          go (rw (record_each, holds) at i)
            (λ j.
              record_each-Breached now escalate tasks table id kept
                (subst (λ t. In id (record_each now escalate tasks t).1) (kept task) j))
            (record_sla_breach-Breached now task.id table holds)
    ]
  where
    go :
        In id (task.id ∷ (record_each now escalate tasks (escalate task table)).1)
        → (In id (record_each now escalate tasks (escalate task table)).1 → Breached now id table)
        → Breached now task.id table
        → Breached now id table
    go (here e) later b = subst (λ k. Breached now k table) (sym e) b
    go (there j) later b = later j

-- Whatever a pass records, with a callback that leaves the table as it is, is a breach: a step of a
-- case that is not cancelled, active and past its deadline.
pub check_overdue_tasks-Breached :
    (now : ℕ) (escalate : Callback) (table : List TaskRow) (id : ℕ)
    → ((task : TaskRow) → escalate task table ≡ table)
    → In id (check_overdue_tasks now (some escalate) table).1.1
    → Breached now id table
unfolding check_overdue_tasks
check_overdue_tasks-Breached now escalate table id kept i =
    record_each-Breached now escalate (take 1000 (sort_by_deadline (filter (is_overdue now) table)))
      table id kept i

record_each_table :
    (now : ℕ) (escalate : Callback) (tasks table : List TaskRow)
    → ((task : TaskRow) → escalate task table ≡ table)
    → (record_each now escalate tasks table).0 ≡ table
unfolding record_each
record_each_table now escalate [] table kept = refl
record_each_table now escalate (task ∷ tasks) table kept =
    elim (Bool-cases (record_sla_breach now task.id table)) [
      | inr other ↦ rw (record_each, other) (record_each_table now escalate tasks table kept)
      | inl holds ↦
          rw (record_each, holds, kept task) (record_each_table now escalate tasks table kept)
    ]

length-insert_by_deadline :
    (row : TaskRow) (rows : List TaskRow) → length (insert_by_deadline row rows) ≡ suc (length rows)
unfolding insert_by_deadline
length-insert_by_deadline row [] = refl
length-insert_by_deadline row (other ∷ rows) = ground (arith, length-insert_by_deadline row rows)

length-sort_by_deadline : (rows : List TaskRow) → length (sort_by_deadline rows) ≡ length rows
unfolding sort_by_deadline
length-sort_by_deadline [] = refl
length-sort_by_deadline (row ∷ rows) =
    length-insert_by_deadline row (sort_by_deadline rows) ∙ ap suc (length-sort_by_deadline rows)

length-take_le : (n : ℕ) (rows : List TaskRow) → n ≤ length rows → length (take n rows) ≡ n
unfolding take
length-take_le zero rows h = refl
length-take_le (suc n) [] h = omega (arith, h)
length-take_le (suc n) (row ∷ rows) h = ap suc (length-take_le n rows (omega (arith, h)))

length-take_bound : (n : ℕ) (rows : List TaskRow) → length (take n rows) ≤ length rows
unfolding take
length-take_bound zero rows = omega arith
length-take_bound (suc n) [] = omega arith
length-take_bound (suc n) (row ∷ rows) = omega (arith, length-take_bound n rows)

-- While at least 1000 tasks are overdue, and the callback leaves the table as it is, a tick of the
-- monitor does not end: no number of passes is enough.
pub monitor_tick_stuck :
    (fuel now : ℕ) (escalate : Callback) (table : List TaskRow)
    → ((task : TaskRow) → escalate task table ≡ table)
    → 1000 ≤ length (filter (is_overdue now) table)
    → monitor_tick fuel now (some escalate) table ≡ none
unfolding monitor_tick check_overdue_tasks
monitor_tick_stuck zero now escalate table kept many = refl
monitor_tick_stuck (suc fuel) now escalate table kept many =
    let tasks = sort_by_deadline (filter (is_overdue now) table) in
    let full : length (take 1000 tasks) ≡ 1000 =
      length-take_le 1000 tasks
        (omega (arith, many, length-sort_by_deadline (filter (is_overdue now) table))) in
    let again : ltb (length (take 1000 tasks)) 1000 ≡ false = ground (arith, full) in
    rw
      (
        monitor_tick,
        again,
        record_each_table now escalate (take 1000 tasks) table kept,
        monitor_tick_stuck fuel now escalate table kept many,
      )
      refl

-- While fewer than 1000 tasks are overdue, a tick of the monitor is one pass.
pub monitor_tick_once :
    (now : ℕ) (escalate : Callback) (table : List TaskRow)
    → length (filter (is_overdue now) table) < 1000
    → monitor_tick 1 now (some escalate) table
      ≡ some (check_overdue_tasks now (some escalate) table).1
unfolding monitor_tick check_overdue_tasks
monitor_tick_once now escalate table few =
    let tasks = sort_by_deadline (filter (is_overdue now) table) in
    let last : ltb (length (take 1000 tasks)) 1000 ≡ true = ground (
      arith,
      few,
      length-take_bound 1000 tasks,
      length-sort_by_deadline (filter (is_overdue now) table),
    ) in
    rw (monitor_tick, last) refl

-- ===== src/Tasks/Lifecycle/Open.antt =====
-- internal/tasks/task_lifecycle.go: which tasks are open, and which can be claimed.
use aceryx.Prelude.{String, true, ◌&&◌, ◌==◌, eq_iff, ◌≡◌, refl, and_left, and_right}
use aceryx.Engine.Types.{State, active}
use aceryx.Engine.Store.{is_active}
use aceryx.Tasks.Lifecycle.{
  TaskRow, TaskCase, is_unassigned, is_open_task, Directory, is_eligible, is_claimable,
}

active_of : (s : State) → is_active s ≡ true → s ≡ active
active_of active h = refl
active_of _ h = cc h

-- An open task is of the id and the tenant, and active.
pub open_task :
    (tenant id : String) (c : TaskCase) (row : TaskRow)
    → is_open_task tenant id c row ≡ true
    → (row.step_id ≡ id) × (c.tenant_id ≡ tenant) × (row.state ≡ active)
open_task tenant id c row h =
    let two = and_left (row.step_id == id && c.tenant_id == tenant) (is_active row.state) h in
    (
      (eq_iff row.step_id id).0 (and_left (row.step_id == id) (c.tenant_id == tenant) two),
      (eq_iff c.tenant_id tenant).0 (and_right (row.step_id == id) (c.tenant_id == tenant) two),
      active_of row.state
          (and_right (row.step_id == id && c.tenant_id == tenant) (is_active row.state) h),
    )

pub claimable_open :
    (has_role : Directory) (tenant principal id : String) (c : TaskCase) (row : TaskRow)
    → is_claimable has_role tenant principal id c row ≡ true
    → is_open_task tenant id c row ≡ true
claimable_open has_role tenant principal id c row h =
    and_left (is_open_task tenant id c row) (is_unassigned row.assigned_to) (
      and_left (is_open_task tenant id c row && is_unassigned row.assigned_to)
        (is_eligible has_role tenant principal row) h)

pub claimable_free :
    (has_role : Directory) (tenant principal id : String) (c : TaskCase) (row : TaskRow)
    → is_claimable has_role tenant principal id c row ≡ true
    → is_unassigned row.assigned_to ≡ true
claimable_free has_role tenant principal id c row h =
    and_right (is_open_task tenant id c row) (is_unassigned row.assigned_to) (
      and_left (is_open_task tenant id c row && is_unassigned row.assigned_to)
        (is_eligible has_role tenant principal row) h)

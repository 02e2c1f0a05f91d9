-- ===== src/Tasks/Sla.antt =====
-- internal/tasks: the status of a task's deadline, the order of the inbox, and the choice of the
-- user who gets an escalated task. A time is a number of nanoseconds.
pub mod Laws
use aceryx.Prelude.{
  ℕ, ◌+◌, ◌-◌, ◌*◌, ◌/◌, String, Bool, true, false, not, ◌&&◌, ◌||◌, Option, none, some, List, [],
  ◌∷◌, ltb, leb, nat_eq, if◌then◌else◌,
}
use aceryx.Prelude.Int.{ℤ, ltb_ℤ}
use Prim.Native.String.{compare}
use Prim.Native.Nat.{Ordering}

pub data SlaStatus : Type 0 where
  breached warning on_track : SlaStatus

-- A quarter of an hour; the float64 product of SLAStatus is exact for the numbers of hours that a
-- time.Duration holds.
abbrev pub quarter_hour : ℕ
quarter_hour = 900000000000

-- The test where the deadline and the start are known: at most a quarter of the time remains.
abbrev pub last_quarter : ℕ → ℕ → ℕ → Bool
last_quarter now deadline started =
    ltb started deadline && leb (deadline - now) ((deadline - started) / 4)

abbrev pub started_status : ℕ → ℕ → Option ℕ → SlaStatus
started_status now deadline none = on_track
started_status now deadline (some started) =
    if last_quarter now deadline started then warning else on_track

-- `sla_hours` that are not positive are 0 here.
unfoldable pub sla_status : ℕ → Option ℕ → Option ℕ → ℕ → SlaStatus
sla_status now none started_at sla_hours = on_track
sla_status now (some deadline) started_at sla_hours =
    if ltb deadline now
    then breached
    else if ltb 0 sla_hours
    then (if leb deadline (now + quarter_hour * sla_hours) then warning else on_track)
    else started_status now deadline started_at

pub record InboxTask : Type 0 where
  pub step_id : String
  pub priority : ℤ
  pub started_at : Option ℕ
  pub sla_deadline : Option ℕ
  pub sla_hours : ℕ

abbrev pub order_of : SlaStatus → ℕ
order_of breached = 0
order_of warning = 1
order_of on_track = 2

abbrev pub status_of : ℕ → InboxTask → SlaStatus
status_of now t = sla_status now t.sla_deadline t.started_at t.sla_hours

-- s < t
abbrev pub text_less : String → String → Bool
text_less s t = elim (compare s t) [ Ordering.lt ↦ true | _ ↦ false ]

-- The last tests, by the start and the step's id.
abbrev pub start_less : Option ℕ → Option ℕ → Bool → Bool
start_less (some s) (some t) ids = ltb s t
start_less none (some t) ids = false
start_less (some s) none ids = true
start_less none none ids = ids

abbrev pub priority_less : InboxTask → InboxTask → Bool
priority_less a b =
    if ltb_ℤ a.priority b.priority || ltb_ℤ b.priority a.priority
    then ltb_ℤ b.priority a.priority
    else start_less a.started_at b.started_at (text_less a.step_id b.step_id)

-- Two deadlines, where one is there and not the other, or both and different.
abbrev pub deadline_less : Option ℕ → Option ℕ → Bool → Bool
deadline_less (some s) (some t) rest = if nat_eq s t then rest else ltb s t
deadline_less none (some t) rest = false
deadline_less (some s) none rest = true
deadline_less none none rest = rest

unfoldable pub inbox_less : ℕ → InboxTask → InboxTask → Bool
inbox_less now a b =
    if not (nat_eq (order_of (status_of now a)) (order_of (status_of now b)))
    then ltb (order_of (status_of now a)) (order_of (status_of now b))
    else deadline_less a.sla_deadline b.sla_deadline (priority_less a b)

pub record UserLoad : Type 0 where
  pub principal_id : String
  pub active_count : ℕ
  pub created_at : ℕ

abbrev pub load_less : UserLoad → UserLoad → Bool
load_less a b =
    if not (nat_eq a.active_count b.active_count)
    then ltb a.active_count b.active_count
    else if not (nat_eq a.created_at b.created_at)
    then ltb a.created_at b.created_at
    else text_less a.principal_id b.principal_id

-- sort.SliceStable: a candidate goes before the first of the later ones that is not less.
unfoldable pub insert_load : UserLoad → List UserLoad → List UserLoad
insert_load c [] = c ∷ []
insert_load c (d ∷ rest) =
    let later = insert_load c rest in if load_less d c then d ∷ later else c ∷ d ∷ rest

unfoldable pub sort_loads : List UserLoad → List UserLoad
sort_loads [] = []
sort_loads (c ∷ rest) = insert_load c (sort_loads rest)

-- `none` is uuid.Nil.
unfoldable pub select_least_loaded : List UserLoad → Option String
select_least_loaded candidates = elim (sort_loads candidates) [
  | [] ↦ none
  | c ∷ _ ↦ some c.principal_id
]

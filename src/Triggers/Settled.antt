-- ===== src/Triggers/Settled.antt =====
-- internal/triggers/manager.go: what holds of every instance between two calls of the manager.
use aceryx.Prelude.{
  ℕ, ◌+◌, ◌^◌, ◌≤◌, ◌<◌, String, true, false, ◌&&◌, none, some, List, [], ◌∷◌, Result, ok, err,
  fold, ◌==◌, ◌≡◌, refl, sym, ap, ◌∙◌, subst, inl, inr, Bool-cases, Option-cases, Result-cases,
  arith,
}
use aceryx.Prelude.Map.{lookup, insert, lookup-insert, lookup-insert_self, lookup-empty}
use aceryx.Prelude.Int.{pos}
use aceryx.Triggers.{
  starting, running, stopping, stopped, error_status, TriggerInstance, TriggerManagerConfig,
  ManagerError, set_status, Manager, Answer, start_trigger, StopAnswer, ended, timed_out,
  ended_badly, stop_instance, change_instance, stop, stop_all, restarted, after_stop, restart,
  next_backoff, back_off, changed_quietly, restart_with_backoff, is_running, has_run_for,
  reset_backoff, maybe_reset_backoff, Call, starts, stops, stops_all, restarts, backs_off, resets,
  call,
}
use aceryx.Triggers.Backoff.{next_backoff_bounds}

-- An instance between two calls: it runs since some time and has not ended, or it has ended; and
-- its wait is in the limit.
abbrev pub IsEndedOrRuns : TriggerInstance → Type 0
IsEndedOrRuns inst = elim inst.status [
  | running ↦ ((t : ℕ) × (inst.started_at ≡ some t)) × (inst.stopped_at ≡ none)
  | stopped ↦ (t : ℕ) × (inst.stopped_at ≡ some t)
  | error_status ↦ (t : ℕ) × (inst.stopped_at ≡ some t)
  | starting ↦ ⊥
  | stopping ↦ ⊥
]

abbrev pub WaitsWithin : ℕ → TriggerInstance → Type 0
WaitsWithin limit inst = (b : ℕ) × (inst.last_backoff ≡ pos b) × (b ≤ limit)

abbrev pub IsSettled : ℕ → TriggerInstance → Type 0
IsSettled limit inst = IsEndedOrRuns inst × WaitsWithin limit inst

abbrev pub AllSettled : ℕ → Manager → Type 0
AllSettled limit m =
    (id : String) (inst : TriggerInstance) → lookup id m ≡ some inst → IsSettled limit inst

module _ (limit : ℕ) where
  AllSettled-insert :
      (id : String) (inst : TriggerInstance) (m : Manager)
      → IsSettled limit inst
      → AllSettled limit m
      → AllSettled limit (insert id inst m)
  AllSettled-insert id inst m settled all other held h =
      let e = sym (lookup-insert id other inst m) ∙ h in
      elim (Bool-cases (id == other)) [
        | inl same ↦
            let one : inst ≡ held = cc (rw (same) at e) in subst (IsSettled limit) one settled
        | inr differs ↦ all other held (rw (differs) at e)
      ]

  AllSettled-change :
      (id : String) (change : TriggerInstance → TriggerInstance × Result ManagerError Unit)
      (m : Manager)
      → ((inst : TriggerInstance) → IsSettled limit inst → IsSettled limit (change inst).0)
      → AllSettled limit m
      → AllSettled limit (change_instance id change m).0
  AllSettled-change id change m keeps all = elim (Option-cases (lookup id m)) [
    | inl e ↦ rw (change_instance, e) all
    | inr (inst, e) ↦
        rw (change_instance, e)
          (AllSettled-insert id (change inst).0 m (keeps inst (all id inst e)) all)
  ]

  AllSettled-quiet :
      (id : String) (change : TriggerInstance → TriggerInstance) (m : Manager)
      → ((inst : TriggerInstance) → IsSettled limit inst → IsSettled limit (change inst))
      → AllSettled limit m
      → AllSettled limit (changed_quietly id change m)
  AllSettled-quiet id change m keeps all = elim (Option-cases (lookup id m)) [
    | inl e ↦ rw (changed_quietly, e) all
    | inr (inst, e) ↦
        rw (changed_quietly, e)
          (AllSettled-insert id (change inst) m (keeps inst (all id inst e)) all)
  ]

  stop_instance-IsSettled :
      (now : ℕ) (answer : StopAnswer) (inst : TriggerInstance)
      → WaitsWithin limit inst
      → IsSettled limit (stop_instance now answer inst).0
  unfolding stop_instance set_status
  stop_instance-IsSettled now ended inst w = ((now, refl), w)
  stop_instance-IsSettled now timed_out inst w = ((now, refl), w)
  stop_instance-IsSettled now (ended_badly text) inst w = ((now, refl), w)

  restarted-IsSettled :
      (now : ℕ) (start : Answer) (inst : TriggerInstance)
      → WaitsWithin limit inst
      → IsSettled limit (restarted now start inst).0
  unfolding restarted set_status
  restarted-IsSettled now none inst w = (((now, refl), refl), w)
  restarted-IsSettled now (some text) inst w = ((now, refl), w)

  after_stop-IsSettled :
      (now : ℕ) (start : Answer) (r : TriggerInstance × Result ManagerError Unit)
      → IsSettled limit r.0
      → IsSettled limit (after_stop now start r).0
  after_stop-IsSettled now start (inst, err e) s = s
  after_stop-IsSettled now start (inst, ok u) s = restarted-IsSettled now start inst s.1

  restart-AllSettled :
      (now : ℕ) (answer : StopAnswer) (start : Answer) (id : String) (m : Manager)
      → AllSettled limit m
      → AllSettled limit (restart now answer start id m).0
  unfolding restart
  restart-AllSettled now answer start id m all =
      AllSettled-change id _ m
        (λ inst s.
          after_stop-IsSettled now start (stop_instance now answer inst)
            (stop_instance-IsSettled now answer inst s.1))
        all

  stop-AllSettled :
      (now : ℕ) (answer : StopAnswer) (id : String) (m : Manager)
      → AllSettled limit m
      → AllSettled limit (stop now answer id m).0
  unfolding stop
  stop-AllSettled now answer id m all =
      AllSettled-change id (stop_instance now answer) m
        (λ inst s. stop_instance-IsSettled now answer inst s.1) all

  stop_all-AllSettled :
      (now : ℕ) (answers : String → StopAnswer) (ids : List String) (m : Manager)
      → AllSettled limit m
      → AllSettled limit (stop_all now answers ids m).0
  unfolding stop_all
  stop_all-AllSettled now answers [] m all = all
  stop_all-AllSettled now answers (id ∷ rest) m all =
      let first = stop-AllSettled now (answers id) id m all in
      elim (Result-cases (stop now (answers id) id m).1) [
        | inl (e, failed) ↦ rw (failed, stop_all) first
        | inr (u, passed) ↦ rw (passed, stop_all) (stop_all-AllSettled now answers rest _ first)
      ]

  start_trigger-AllSettled :
      (now : ℕ) (id : String) (checked answer : Answer) (m : Manager)
      → AllSettled limit m
      → AllSettled limit (start_trigger now id checked answer m).0
  unfolding start_trigger set_status
  start_trigger-AllSettled now id (some text) answer m all = all
  start_trigger-AllSettled now id none (some text) m all = all
  start_trigger-AllSettled now id none none m all =
      AllSettled-insert id _ m (((now, refl), refl), (0, refl, omega arith)) all

  module _ (config : TriggerManagerConfig) (at_limit : config.max_restart_backoff ≡ pos limit)
      (some_wait : 1 ≤ limit) (small : limit < 2 ^ 62) where
    back_off-IsSettled :
        (inst : TriggerInstance) → IsSettled limit inst → IsSettled limit (back_off config inst)
    back_off-IsSettled inst (status, (b, e, le)) =
        let (next, computed, _, fits, _, _) = next_backoff_bounds limit b some_wait small le in
        (
          status,
          (
            next,
            ap (λ l. next_backoff l inst.last_backoff) at_limit
                ∙ ap (next_backoff (pos limit)) e
                ∙ computed,
            fits,
          ),
        )

    reset_backoff-IsSettled :
        (now : ℕ) (inst : TriggerInstance)
        → IsSettled limit inst
        → IsSettled limit (reset_backoff config now inst)
    reset_backoff-IsSettled now inst s =
        elim (Bool-cases
          (is_running inst.status && has_run_for config.healthy_run_duration now inst.started_at)) [
            | inl e ↦ rw (e) (s.0, (0, refl, omega arith))
            | inr e ↦ rw (e) s
          ]

    call-AllSettled :
        (m : Manager) (c : Call) → AllSettled limit m → AllSettled limit (call config m c)
    unfolding call restart_with_backoff maybe_reset_backoff
    call-AllSettled m (starts now id checked answer) all =
        start_trigger-AllSettled now id checked answer m all
    call-AllSettled m (stops now answer id) all = stop-AllSettled now answer id m all
    call-AllSettled m (stops_all now answers ids) all = stop_all-AllSettled now answers ids m all
    call-AllSettled m (restarts now answer start id) all =
        restart-AllSettled now answer start id m all
    call-AllSettled m (backs_off now true answer start id) all =
        AllSettled-quiet id (back_off config) m back_off-IsSettled all
    call-AllSettled m (backs_off now false answer start id) all =
        restart-AllSettled now answer start id _
          (AllSettled-quiet id (back_off config) m back_off-IsSettled all)
    call-AllSettled m (resets now id) all =
        AllSettled-quiet id (reset_backoff config now) m (reset_backoff-IsSettled now) all

    calls-AllSettled :
        (calls : List Call) (m : Manager)
        → AllSettled limit m
        → AllSettled limit (fold (call config) m calls)
    calls-AllSettled [] m all = all
    calls-AllSettled (c ∷ rest) m all =
        calls-AllSettled rest (call config m c) (call-AllSettled m c all)

    -- After every sequence of calls on a new manager, whatever the runtime answers, each instance
    -- runs since some time and has not ended, or is stopped or failed and has ended at some time,
    -- and its wait before a restart is within MaxRestartBackoff, for a limit of at least 1 and below
    -- 2 ^ 62.
    pub calls-Settled : (calls : List Call) → AllSettled limit (fold (call config) [] calls)
    calls-Settled calls = calls-AllSettled calls [] (λ id inst h. cc (lookup-empty id, h))

-- An instance that restartWithBackoff restarts has its restarts counted twice, where the wait is not
-- cancelled and the runtime stops and starts the trigger without an error.
pub restart_counts_twice :
    (config : TriggerManagerConfig) (now : ℕ) (id : String) (m : Manager) (inst : TriggerInstance)
    → lookup id m ≡ some inst
    → (after : TriggerInstance) × (lookup id (restart_with_backoff config now false ended none id m)
        ≡ some after)
      × (after.status ≡ running)
      × (after.restart_count ≡ inst.restart_count + 2)
unfolding restart_with_backoff restart stop_instance restarted set_status
restart_counts_twice config now id m inst h =
    let waited = changed_quietly id (back_off config) m in
    let same : waited ≡ insert id (back_off config inst) m = rw (changed_quietly, h) refl in
    let found : lookup id waited ≡ some (back_off config inst) =
      ap (lookup id) same ∙ lookup-insert_self id (back_off config inst) m in
    let after = (after_stop now none (stop_instance now ended (back_off config inst))).0 in
    (after, rw (change_instance, found) (lookup-insert_self id after waited), refl, omega arith)

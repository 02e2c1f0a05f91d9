-- ===== src/Triggers/Tests.antt =====
-- internal/triggers/manager.go, on one trigger.
use aceryx.Prelude.{false, none, some, List, [], ◌∷◌, fold, refl, arith}
use aceryx.Prelude.Int.{pos}
use aceryx.Triggers.{TriggerManagerConfig, Call, starts, stops, backs_off, call, ended}
use aceryx.Triggers.Settled.{AllSettled, calls-Settled}

abbrev config : TriggerManagerConfig
config = record { max_restart_backoff = pos 60000000000; healthy_run_duration = 60000000000 }

abbrev calls : List Call
calls =
    starts 1 "a" none none ∷ backs_off 5 false ended (some "refused") "a" ∷ stops 9 ended "a" ∷ []

calls-Settled_example : AllSettled 60000000000 (fold (call config) [] calls)
calls-Settled_example = calls-Settled 60000000000 config refl (omega arith) (omega arith) calls

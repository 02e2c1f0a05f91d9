-- ===== src/Triggers/Startup/Tests.antt =====
-- internal/triggers/manager.go: the start of a trigger that delivers exactly once.
use aceryx.Prelude.{
  String, Bool, true, false, Option, none, some, List, [], ◌∷◌, Result, ok, err, ◌≡◌, refl, ◌==◌,
}
use aceryx.Prelude.Map.{lookup, insert}
use aceryx.Json.{Json, str, obj, Fields, end, field, RawMessage, document}
use aceryx.Triggers.{Manager, running, new_instance, set_status, start_trigger}
use aceryx.Triggers.Contract.{TriggerContract, ContractManifest, parse_trigger_contract}
use aceryx.Triggers.Startup.{Plugin, DriverInfo, StartError, start_checks, checked_answer}
use aceryx.Triggers.Startup.Started.{IsChecked, start_trigger-IsChecked}

abbrev contract : ContractManifest
contract = record {
  delivery = " exactly_once ";
  state = "";
  concurrency = "parallel";
  ordering = "unordered";
  checkpoint = none;
}

abbrev plugin : Plugin
plugin = record { is_trigger = true; trigger_contract = some contract }

abbrev config : RawMessage
config = document (obj (field "tenant_id" (str "t-1") (field "driver_id" (str "q") end)))

abbrev drivers : String → Result String DriverInfo
drivers id = ok (record { supports_exactly_once = false; id = "pgmq-main" })

abbrev words : StartError → String
words e = "refused"

abbrev started : Manager
started = ("a", set_status 4 running "" new_instance) ∷ []

starts :
    start_trigger 4 "a"
      (checked_answer words (start_checks some (some drivers) (some (ok plugin)) true config))
      none
      []
    ≡ (started, ok tt)
unfolding start_trigger start_checks parse_trigger_contract aceryx.Triggers.Contract.parse_given
    aceryx.Triggers.Contract.mode_or aceryx.Prelude.Text.trim_space aceryx.Prelude.Text.trim_right
    aceryx.Prelude.Text.trim_left aceryx.Triggers.Contract.mode_of
    aceryx.Triggers.Contract.check_interval aceryx.Triggers.Startup.trigger_config_meta
    aceryx.Json.string_field aceryx.Json.equal_fold aceryx.Triggers.Startup.check_delivery
    aceryx.Triggers.Startup.validate_startup aceryx.Triggers.Startup.is_supported
    aceryx.Workflows.Draft.contains_codes aceryx.Json.lower_codes aceryx.Workflows.Draft.starts_with
    insert
starts = refl

start_trigger-IsChecked_example :
    ((c : TriggerContract) × IsChecked some (some drivers) (some (ok plugin)) config c)
    × (lookup "a" started ≡ some (set_status 4 running "" new_instance))
start_trigger-IsChecked_example =
    start_trigger-IsChecked some (some drivers) words (some (ok plugin)) true config 4 "a" none []
      started starts

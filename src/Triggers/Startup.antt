-- ===== src/Triggers/Startup.antt =====
-- internal/triggers/manager.go and delivery.go: the checks that Start makes before a trigger runs.
pub mod Started
mod Tests
use aceryx.Prelude.{
  ℕ, String, Bool, true, false, not, ◌&&◌, ◌||◌, Option, none, some, List, [], ◌∷◌, Result, ok, err,
  ◌>>=◌, ◌>>◌, require, ◌==◌, if◌then◌else◌,
}
use aceryx.Prelude.Text.{trim_space}
use aceryx.Json.{Json, null, obj, Fields, RawMessage, empty, document, string_field, lower_codes}
use aceryx.Workflows.Draft.{contains_codes}
use aceryx.Triggers.{Answer}
use aceryx.Triggers.Delivery.{DeliveryMode, at_least_once, exactly_once, best_effort, other_mode}
use aceryx.Triggers.Contract.{
  TriggerContract, ContractManifest, ContractError, parse_trigger_contract,
}

pub record Plugin : Type 0 where
  pub is_trigger : Bool
  pub trigger_contract : Option ContractManifest

-- What is asked of the driver of a queue: whether it says that it supports exactly_once, and its id.
pub record DriverInfo : Type 0 where
  pub supports_exactly_once : Bool
  pub id : String

pub data StartError : Type 0 where
  no_runtime no_channel_id not_a_trigger no_tenant_id undecodable_config bad_tenant_id : StartError
  no_driver_id no_drivers driver_unsupported : StartError
  plugin_missing driver_missing : String → StartError
  bad_contract : ContractError → StartError

pub record TriggerConfigMeta : Type 0 where
  pub tenant_id : String
  pub driver_id : String

-- `parse` is uuid.Parse.
module _ (parse : String → Option String) where
  abbrev pub meta_of : Option String → Option String → Result StartError TriggerConfigMeta
  meta_of none driver = err undecodable_config
  meta_of (some tenant) none = err undecodable_config
  meta_of (some tenant) (some driver) =
      if tenant == "" then err no_tenant_id else elim (parse tenant) [
        | none ↦ err bad_tenant_id
        | some id ↦ ok (record { tenant_id = id; driver_id = driver })
      ]

  unfoldable pub trigger_config_meta : RawMessage → Result StartError TriggerConfigMeta
  trigger_config_meta empty = err no_tenant_id
  trigger_config_meta (document null) = err no_tenant_id
  trigger_config_meta (document (obj fields)) =
      meta_of (string_field "tenant_id" "" fields) (string_field "driver_id" "" fields)
  trigger_config_meta _ = err undecodable_config

abbrev pub is_exactly_once : DeliveryMode → Bool
is_exactly_once exactly_once = true
is_exactly_once _ = false

-- A driver of the database is known by its id.
unfoldable pub is_supported : DriverInfo → Bool
is_supported driver =
    driver.supports_exactly_once
    || contains_codes (lower_codes (trim_space driver.id)) (lower_codes "postgres")
    || contains_codes (lower_codes (trim_space driver.id)) (lower_codes "pgmq")

-- ValidateStartup
unfoldable pub validate_startup : DeliveryMode → Option DriverInfo → Result StartError Unit
validate_startup mode none = ok tt
validate_startup mode (some driver) =
    require (not (is_exactly_once mode) || is_supported driver) driver_unsupported

-- `Err` in the words of the caller.
abbrev pub found_or : {V : Type 0} → (String → StartError) → Result String V → Result StartError V
found_or missing (err text) = err (missing text)
found_or missing (ok v) = ok v

abbrev pub or_bad_contract :
    Result ContractError TriggerContract → Result StartError TriggerContract
or_bad_contract (err e) = err (bad_contract e)
or_bad_contract (ok c) = ok c

abbrev pub queue_of :
    Option (String → Result String DriverInfo) → String → Result StartError DriverInfo
queue_of none id = err no_drivers
queue_of (some get) id = found_or driver_missing (get id)

unfoldable pub check_delivery :
    Option (String → Result String DriverInfo)
    → TriggerConfigMeta
    → DeliveryMode
    → Result StartError Unit
check_delivery drivers meta exactly_once = do
  require (not (meta.driver_id == "")) no_driver_id
  driver ← queue_of drivers meta.driver_id
  validate_startup exactly_once (some driver)
check_delivery drivers meta _ = ok tt

-- The checks of Start: `plugin` is what the runtime answers, where there is one, and `drivers` the
-- registry of drivers, where there is one.
module _ (parse : String → Option String)
    (drivers : Option (String → Result String DriverInfo)) where
  unfoldable pub start_checks :
      Option (Result String Plugin) → Bool → RawMessage → Result StartError TriggerContract
  start_checks none has_channel config = err no_runtime
  start_checks (some answer) has_channel config = do
    require has_channel no_channel_id
    plugin ← found_or plugin_missing answer
    require plugin.is_trigger not_a_trigger
    contract ← or_bad_contract (parse_trigger_contract plugin.trigger_contract)
    meta ← trigger_config_meta parse config
    check_delivery drivers meta contract.delivery
    ok contract

-- The outcome of the checks as Start is told it, with the error's words by `words`.
abbrev pub checked_answer : (StartError → String) → Result StartError TriggerContract → Answer
checked_answer words (err e) = some (words e)
checked_answer words (ok contract) = none

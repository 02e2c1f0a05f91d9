-- ===== src/Triggers/Startup/Started.antt =====
-- internal/triggers/manager.go: a trigger that was started.
use aceryx.Prelude.{
  String, ℕ, Bool, true, not, Option, none, some, Result, ok, err, require, >>=-eq-ok, ok-injective,
  Result-cases, ◌==◌, ◌≡◌, sym, ap, ◌∙◌, inl, inr, require-ok,
}
use aceryx.Prelude.Map.{lookup, lookup-insert_self}
use aceryx.Json.{RawMessage}
use aceryx.Triggers.{Answer, Manager, running, new_instance, set_status, start_trigger}
use aceryx.Triggers.Delivery.{exactly_once}
use aceryx.Triggers.Contract.{TriggerContract, ContractError, parse_trigger_contract}
use aceryx.Triggers.Startup.{
  Plugin, DriverInfo, StartError, TriggerConfigMeta, trigger_config_meta, is_supported,
  validate_startup, queue_of, or_bad_contract, check_delivery, start_checks, checked_answer,
  found_or, plugin_missing, no_channel_id, not_a_trigger, no_driver_id, driver_unsupported,
}

check_delivery-ok :
    (drivers : Option (String → Result String DriverInfo)) (meta : TriggerConfigMeta)
    → check_delivery drivers meta exactly_once ≡ ok tt
    → (driver : DriverInfo) × (queue_of drivers meta.driver_id ≡ ok driver)
      × (is_supported driver ≡ true)
unfolding check_delivery validate_startup
check_delivery-ok drivers meta h =
    let (_, _, h1) = >>=-eq-ok (require (not (meta.driver_id == "")) no_driver_id) _ h in
    let (driver, found, h2) = >>=-eq-ok (queue_of drivers meta.driver_id) _ h1 in
    (driver, found, require-ok (is_supported driver) driver_unsupported h2)

or_bad_contract-ok :
    (parsed : Result ContractError TriggerContract) (contract : TriggerContract)
    → or_bad_contract parsed ≡ ok contract
    → parsed ≡ ok contract
or_bad_contract-ok (err e) contract h = cc h
or_bad_contract-ok (ok c) contract h = ap ok (ok-injective h)

found_or-ok :
    (answer : Result String Plugin) (p : Plugin)
    → found_or plugin_missing answer ≡ ok p
    → answer ≡ ok p
found_or-ok (err e) p h = cc h
found_or-ok (ok q) p h = ap ok (ok-injective h)

started-runs :
    (now : ℕ) (id : String) (answer : Answer) (m after : Manager)
    → start_trigger now id none answer m ≡ (after, ok tt)
    → lookup id after ≡ some (set_status now running "" new_instance)
unfolding start_trigger
started-runs now id (some text) m after h = cc (ap (λ p. p.1) h)
started-runs now id none m after h =
    ap (λ p. lookup id p.0) (sym h)
    ∙ lookup-insert_self id (set_status now running "" new_instance) m

module _ (parse : String → Option String)
    (drivers : Option (String → Result String DriverInfo)) where
  -- What a start rests on: a plugin for triggers with a contract that could be parsed, a
  -- configuration that names its tenant, and, where each message is to be delivered exactly once, a
  -- driver that supports it.
  pub record IsChecked (answer : Option (Result String Plugin)) (config : RawMessage)
      (contract : TriggerContract) : Type 0 where
    pub plugin : Plugin
    pub meta : TriggerConfigMeta
    pub found : answer ≡ some (ok plugin)
    pub is_trigger : plugin.is_trigger ≡ true
    pub parsed : parse_trigger_contract plugin.trigger_contract ≡ ok contract
    pub configured : trigger_config_meta parse config ≡ ok meta
    pub supported :
        contract.delivery ≡ exactly_once
        → (driver : DriverInfo) × (queue_of drivers meta.driver_id ≡ ok driver)
          × (is_supported driver ≡ true)

  start_checks-ok :
      (answer : Option (Result String Plugin)) (has_channel : Bool) (config : RawMessage)
      (contract : TriggerContract)
      → start_checks parse drivers answer has_channel config ≡ ok contract
      → IsChecked answer config contract
  unfolding start_checks
  start_checks-ok none has_channel config contract h = cc h
  start_checks-ok (some answer) has_channel config contract h =
      let (_, _, h1) = >>=-eq-ok (require has_channel no_channel_id) _ h in
      let (plugin, found, h2) = >>=-eq-ok (found_or plugin_missing answer) _ h1 in
      let (_, triggers, h3) = >>=-eq-ok (require plugin.is_trigger not_a_trigger) _ h2 in
      let (c, parsed, h4) =
        >>=-eq-ok (or_bad_contract (parse_trigger_contract plugin.trigger_contract)) _ h3 in
      let (meta, configured, h5) = >>=-eq-ok (trigger_config_meta parse config) _ h4 in
      let (nothing, delivery, h6) = >>=-eq-ok (check_delivery drivers meta c.delivery) _ h5 in
      let same = ok-injective h6 in
      record {
        plugin = plugin;
        meta = meta;
        found = ap some (found_or-ok answer plugin found);
        is_trigger = require-ok plugin.is_trigger not_a_trigger triggers;
        parsed =
            or_bad_contract-ok (parse_trigger_contract plugin.trigger_contract) c parsed
            ∙ ap ok same;
        configured = configured;
        supported = λ mode. check_delivery-ok drivers meta (
            ap (check_delivery drivers meta) (sym mode ∙ ap (λ x. x.delivery) (sym same))
            ∙ delivery);
      }

  -- A trigger that Start starts runs since then, and its plugin, contract, configuration and, for
  -- delivery exactly once, driver were checked.
  pub start_trigger-IsChecked :
      (words : StartError → String) (plugin : Option (Result String Plugin)) (has_channel : Bool)
      (config : RawMessage) (now : ℕ) (id : String) (answer : Answer) (m after : Manager)
      → start_trigger now id
          (checked_answer words (start_checks parse drivers plugin has_channel config))
          answer
          m
        ≡ (after, ok tt)
      → ((contract : TriggerContract) × IsChecked plugin config contract)
        × (lookup id after ≡ some (set_status now running "" new_instance))
  unfolding start_trigger
  start_trigger-IsChecked words plugin has_channel config now id answer m after =
      elim (Result-cases (start_checks parse drivers plugin has_channel config)) [
        | inl (e, g) ↦ rw (g) (λ h. cc (ap (λ p. p.1) h))
        | inr (contract, g) ↦ rw (g) (λ h. (
          (contract, start_checks-ok plugin has_channel config contract g),
          started-runs now id answer m after h,
        ))
      ]

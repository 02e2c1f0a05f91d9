-- ===== src/Triggers/Contract.antt =====
-- internal/triggers/contract.go, and the checks that Start of manager.go makes before a trigger runs.
use aceryx.Prelude.{
  String, Bool, true, false, ◌&&◌, Option, none, some, List, [], ◌∷◌, Result, ok, err, ◌>>=◌, ◌==◌,
  if◌then◌else◌,
}
use aceryx.Prelude.Int.{ℤ, pos, not_positive}
use aceryx.Prelude.Text.{trim_space}
use aceryx.Triggers.Delivery.{DeliveryMode, at_least_once, exactly_once, best_effort}

pub data StateMode : Type 0 where
  host_managed plugin_managed : StateMode

pub data ConcurrencyMode : Type 0 where
  single parallel : ConcurrencyMode

pub data OrderingMode : Type 0 where
  ordered unordered : OrderingMode

pub data CheckpointStrategy : Type 0 where
  per_message periodic on_shutdown : CheckpointStrategy

-- A contract whose words were found to be among those of the modes.
pub record TriggerContract : Type 0 where
  pub delivery : DeliveryMode
  pub state : StateMode
  pub concurrency : ConcurrencyMode
  pub ordering : OrderingMode
  pub strategy : CheckpointStrategy
  pub interval_ms : ℤ

-- The contract in a plugin's manifest.
pub record CheckpointManifest : Type 0 where
  pub strategy : String
  pub interval_ms : ℤ

pub record ContractManifest : Type 0 where
  pub delivery : String
  pub state : String
  pub concurrency : String
  pub ordering : String
  pub checkpoint : Option CheckpointManifest

pub data ContractError : Type 0 where
  invalid_delivery invalid_state invalid_concurrency invalid_ordering invalid_strategy :
      String → ContractError
  interval_not_positive : ContractError

abbrev pub default_trigger_contract : TriggerContract
default_trigger_contract = record {
  delivery = at_least_once;
  state = host_managed;
  concurrency = single;
  ordering = ordered;
  strategy = per_message;
  interval_ms = pos 5000;
}

-- `if v := Mode(strings.TrimSpace(word)); v != ""`, and the case of Validate on what is set then.
unfoldable pub mode_of :
    {Mode : Type 0}
    → List (String × Mode)
    → (String → ContractError)
    → String
    → Result ContractError Mode
mode_of [] invalid word = err (invalid word)
mode_of ((name, mode) ∷ rest) invalid word =
    let later = mode_of rest invalid word in if name == word then ok mode else later

unfoldable pub mode_or :
    {Mode : Type 0}
    → List (String × Mode)
    → (String → ContractError)
    → Mode
    → String
    → Result ContractError Mode
mode_or words invalid standard text =
    if trim_space text == "" then ok standard else mode_of words invalid (trim_space text)

abbrev pub delivery_words : List (String × DeliveryMode)
delivery_words =
    ("at_least_once", at_least_once)
    ∷ ("exactly_once", exactly_once)
    ∷ ("best_effort", best_effort)
    ∷ []

abbrev pub state_words : List (String × StateMode)
state_words = ("host_managed", host_managed) ∷ ("plugin_managed", plugin_managed) ∷ []

abbrev pub concurrency_words : List (String × ConcurrencyMode)
concurrency_words = ("single", single) ∷ ("parallel", parallel) ∷ []

abbrev pub ordering_words : List (String × OrderingMode)
ordering_words = ("ordered", ordered) ∷ ("unordered", unordered) ∷ []

abbrev pub strategy_words : List (String × CheckpointStrategy)
strategy_words =
    ("per_message", per_message) ∷ ("periodic", periodic) ∷ ("on_shutdown", on_shutdown) ∷ []

abbrev pub checkpoint_strategy : Option CheckpointManifest → Result ContractError CheckpointStrategy
checkpoint_strategy none = ok per_message
checkpoint_strategy (some given) =
    mode_or strategy_words invalid_strategy per_message given.strategy

abbrev pub interval_of : Option CheckpointManifest → ℤ
interval_of none = pos 5000
interval_of (some given) = if not_positive given.interval_ms then pos 5000 else given.interval_ms

abbrev pub is_periodic : CheckpointStrategy → Bool
is_periodic periodic = true
is_periodic _ = false

-- The last check of Validate.
unfoldable pub check_interval : TriggerContract → Result ContractError TriggerContract
check_interval c =
    if is_periodic c.strategy && not_positive c.interval_ms then err interval_not_positive else ok c

unfoldable pub parse_given : ContractManifest → Result ContractError TriggerContract
parse_given given = do
  delivery ← mode_or delivery_words invalid_delivery at_least_once given.delivery
  state ← mode_or state_words invalid_state host_managed given.state
  concurrency ← mode_or concurrency_words invalid_concurrency single given.concurrency
  ordering ← mode_or ordering_words invalid_ordering ordered given.ordering
  strategy ← checkpoint_strategy given.checkpoint
  check_interval (record {
    delivery = delivery;
    state = state;
    concurrency = concurrency;
    ordering = ordering;
    strategy = strategy;
    interval_ms = interval_of given.checkpoint;
  })

unfoldable pub parse_trigger_contract :
    Option ContractManifest → Result ContractError TriggerContract
parse_trigger_contract none = ok default_trigger_contract
parse_trigger_contract (some given) = parse_given given

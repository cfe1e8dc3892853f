-- ===== src/Execution/Tests.antt =====
-- Runs of the execution layer (src/execution) on concrete requests.
use tradingia.Prelude.{
  ℤ, pos, neg, ◌-ℤ◌, ◌≤ℤ◌, ◌≡◌, ◌≢◌, ◌↔◌, refl, true, false, Option, none, some, [], ◌∷◌,
}
use tradingia.Prelude.Result.{ok}
use tradingia.Execution.Domain.{
  Environment, AccountTradeMode, ReconciliationState, Side, OrderType, ActionKind, SymbolMetadata,
  OrderRequest,
}
use tradingia.Execution.QuoteFreshness.{Timestamp, QuoteFreshnessResult, validate_quote_freshness}
use tradingia.Execution.QuoteFreshness.Window.{IsInWindow, accepts_iff, accepted_measures}
use tradingia.Execution.Policy.{
  RealMoneyPolicy, PolicyContext, Reason, authorize_open, authorize_close, allow, deny, increases,
  reduces, open_reasons, decide, local_reasons, remote_reasons, open_account_reasons,
  reconciliation_reasons, position_reasons, volume_reasons, normalized_volume_matches_minimum,
}
use tradingia.Execution.Policy.Config.{
  ConfigValue, boolean, other, RawPolicy, IsFrozen, from_dict, from_dict-IsFrozen, require_true,
  require_boolean,
}
use tradingia.Execution.Policy.Open.{IsOpenable, authorize_open-allow_iff}
use tradingia.Execution.Policy.Close.{
  IsClosable, authorize_close-allow_iff, authorize_close_ignores, kill_switch_asymmetry,
}

abbrev metadata : SymbolMetadata
metadata = record {
  symbol = "EURUSD";
  volume_min = pos 1;
  volume_step = pos 1;
  volume_max = pos 500;
  contract_size = pos 100000;
  digits = pos 5;
  point = pos 1;
  tick_size = none;
  tick_value = none;
  currency_base = none;
  currency_profit = none;
  currency_margin = none;
  swap_long = none;
  swap_short = none;
  swap_mode = none;
  swap_rollover3days = none;
}

abbrev context : PolicyContext
context = record {
  local_environment = Environment.demo;
  remote_environment = Environment.demo;
  account_trade_mode = AccountTradeMode.demo;
  reconciliation_state = ReconciliationState.ok;
  kill_switch_active = false;
  current_position_count = some 0;
  symbol_metadata = some metadata;
  account_known = true;
}

abbrev request : ActionKind → OrderRequest
request kind = record {
  client_order_id = "42";
  symbol = "EURUSD";
  side = Side.buy;
  order_type = OrderType.market;
  volume = pos 1;
  action_kind = kind;
  limit_price = none;
  position_id = none;
}

abbrev policy : RealMoneyPolicy
policy = record {
  live_trading_enabled = false;
  max_initial_capital_usd = pos 100;
  max_additional_funding_usd = pos 0;
  max_simultaneous_positions = pos 1;
  minimum_volume_only = true;
  martingale_forbidden = true;
  averaging_down_forbidden = true;
  recovery_grid_forbidden = true;
  automatic_size_increase_forbidden = true;
  compounding_forbidden = true;
}

abbrev raw : RawPolicy
raw = record {
  live = record {
    live_trading_enabled = some (boolean false);
    max_initial_capital_usd = some (other (pos 100));
    max_additional_funding_usd = some (other (pos 0));
  };
  limits = record {
    minimum_volume_only = some (boolean true);
    max_simultaneous_positions = some (other (pos 1));
  };
  forbidden_behaviors = record {
    martingale = some (boolean true);
    averaging_down = some (boolean true);
    recovery_grid = some (boolean true);
    automatic_size_increase = some (boolean true);
    compounding = some (boolean true);
  };
}

-- `int` and `Decimal`, of a whole number: True is 1 to the first, the second refuses it
abbrev int_of : ConfigValue → Option ℤ
int_of (boolean true) = some (pos 1)
int_of (boolean false) = some (pos 0)
int_of (other n) = some n

abbrev decimal_of : ConfigValue → Option ℤ
decimal_of (boolean b) = none
decimal_of (other n) = some n

open_allowed : authorize_open context (request ActionKind.opening) policy ≡ ok allow
unfolding authorize_open open_reasons decide increases local_reasons remote_reasons
    open_account_reasons reconciliation_reasons position_reasons volume_reasons
    normalized_volume_matches_minimum
open_allowed = refl

-- every reason is listed, in the order of the checks
open_denied :
    authorize_open
      (record context { remote_environment = Environment.live; kill_switch_active = true })
      (request ActionKind.opening)
      policy
    ≡ ok (deny (Reason.remote_live ∷ Reason.kill_switch_active ∷ []))
unfolding authorize_open open_reasons decide increases local_reasons remote_reasons
    open_account_reasons reconciliation_reasons position_reasons volume_reasons
    normalized_volume_matches_minimum
open_denied = refl

authorize_open-allow_iff_example :
    (authorize_open context (request ActionKind.opening) policy ≡ ok allow)
    ↔ IsOpenable context (request ActionKind.opening) policy
unfolding increases
authorize_open-allow_iff_example =
    authorize_open-allow_iff context (request ActionKind.opening) policy refl

authorize_close-allow_iff_example :
    (authorize_close context (request ActionKind.close) policy ≡ ok allow)
    ↔ IsClosable context policy
unfolding reduces
authorize_close-allow_iff_example =
    authorize_close-allow_iff context (request ActionKind.close) policy refl

authorize_close_ignores_example :
    authorize_close
      (record context {
        kill_switch_active = true;
        current_position_count = none;
        symbol_metadata = none;
      })
      (request ActionKind.reduce)
      policy
    ≡ authorize_close context (request ActionKind.reduce) policy
authorize_close_ignores_example =
    authorize_close_ignores context (request ActionKind.reduce) policy true none none
      (request ActionKind.reduce) refl

kill_switch_asymmetry_example :
    (authorize_close context (request ActionKind.close) policy ≡ ok allow)
    × (authorize_close
          (record context { kill_switch_active = true })
          (request ActionKind.close)
          policy
        ≡ ok allow)
    × (authorize_open
          (record context { kill_switch_active = true })
          (request ActionKind.opening)
          policy
        ≢ ok allow)
unfolding increases reduces
kill_switch_asymmetry_example =
    kill_switch_asymmetry context (request ActionKind.opening) (request ActionKind.close) policy
      refl refl open_allowed

raw_accepted : from_dict int_of decimal_of raw ≡ ok policy
unfolding from_dict require_true require_boolean
raw_accepted = refl

from_dict-IsFrozen_example : IsFrozen int_of decimal_of raw policy
from_dict-IsFrozen_example = from_dict-IsFrozen int_of decimal_of raw policy raw_accepted

abbrev quote_at : Timestamp
quote_at = record { utc = pos 1000000; aware = true }

accepts_iff_example :
    ((r : QuoteFreshnessResult) × (validate_quote_freshness quote_at
          (pos 3000000)
          (pos 5000000)
          (pos 2000000)
        ≡ ok r))
    ↔ IsInWindow quote_at (pos 3000000) (pos 5000000) (pos 2000000)
accepts_iff_example = accepts_iff quote_at (pos 3000000) (pos 5000000) (pos 2000000)

abbrev skewed : QuoteFreshnessResult
skewed = record { age_seconds = neg (pos 500000); future_skew_seconds = pos 500000 }

skewed_accepted :
    validate_quote_freshness quote_at (pos 500000) (pos 5000000) (pos 2000000) ≡ ok skewed
unfolding validate_quote_freshness ◌-ℤ◌
skewed_accepted = refl

accepted_measures_example :
    (skewed.age_seconds ≡ pos 500000 -ℤ quote_at.utc)
    × (pos 0 ≤ℤ skewed.future_skew_seconds)
    × (skewed.age_seconds ≤ℤ pos 0 → skewed.future_skew_seconds ≡ neg skewed.age_seconds)
    × (pos 0 ≤ℤ skewed.age_seconds → skewed.future_skew_seconds ≡ pos 0)
accepted_measures_example =
    accepted_measures quote_at (pos 500000) (pos 5000000) (pos 2000000) skewed skewed_accepted

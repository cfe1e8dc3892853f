-- ===== src/FxBacktest/Config.antt =====
-- FxEngineConfig and its checks (src/fx/backtesting/engine.py).
use tradingia.Prelude.{
  ℤ, pos, ◌%◌, ◌-ℤ◌, leb_ℤ, ltb_ℤ, ◌==◌, abs, Bool, not, ◌||◌, Option, none, some,
}
use tradingia.Prelude.Result.{Result, ok, err, raise_if, ◌>>◌}
use tradingia.Execution.Domain.{Decimal, Name}
use tradingia.FxBacktest.Costs.{SlippageModel, CommissionModel, SwapModel}
use tradingia.FxBacktest.Rollover.{RolloverSchedule}

-- A configuration with no swap model is refused by __post_init__; this one has a model.
pub record FxEngineConfig : Type 0 where
  pub symbol : Name
  pub lots : Decimal
  pub contract_size : Decimal
  pub point : Decimal
  pub volume_min : Decimal
  pub volume_max : Decimal
  pub volume_step : Decimal
  pub currency_profit : Option Name
  pub account_currency : Option Name
  pub initial_balance : Decimal
  pub commission_model : CommissionModel
  pub slippage_model : SlippageModel
  pub swap_model : SwapModel
  pub rollover_schedule : Option RolloverSchedule
  pub terminate_on_insolvency : Bool

pub data InvalidConfig : Type 0 where
  lots_not_positive lots_out_of_range step_is_zero lots_off_step swap_model_missing : InvalidConfig

abbrev is_zero : ℤ → Bool
is_zero z = abs z == 0

-- __post_init__ of FxEngineConfig, with the swap model that was passed
unfoldable pub new_config : Option SwapModel → FxEngineConfig → Result InvalidConfig FxEngineConfig
new_config swap c = do
  raise_if (leb_ℤ c.lots (pos 0)) InvalidConfig.lots_not_positive
  raise_if (ltb_ℤ c.lots c.volume_min || ltb_ℤ c.volume_max c.lots) InvalidConfig.lots_out_of_range
  raise_if (is_zero c.volume_step) InvalidConfig.step_is_zero
  raise_if (not (abs (c.lots -ℤ c.volume_min) % abs c.volume_step == 0)) InvalidConfig.lots_off_step
  elim swap [
    | none ↦ err InvalidConfig.swap_model_missing
    | some model ↦ ok (record c { swap_model = model })
  ]

-- ===== src/FxBacktest/Pnl.antt =====
-- Gross profit and loss (src/fx/backtesting/pnl.py).
use tradingia.Prelude.{◌-ℤ◌, ◌*ℤ◌, ◌==◌, Bool, false, not, Option, none, some}
use tradingia.Prelude.Result.{Result, ok, err, raise_if, ◌>>=◌, ◌>>◌}
use tradingia.Execution.Domain.{Decimal, Name}
use tradingia.FxBacktest.Models.{PositionSide, BacktestError}

pub record GrossPnlInputs : Type 0 where
  pub side : PositionSide
  pub entry_execution_price : Decimal
  pub exit_execution_price : Decimal
  pub lots : Decimal
  pub contract_size : Decimal
  pub currency_profit : Option Name
  pub account_currency : Option Name

-- both are known and differ
abbrev pub currencies_differ : Option Name → Option Name → Bool
currencies_differ (some a) (some b) = not (a == b)
currencies_differ (some a) none = false
currencies_differ none b = false

unfoldable pub price_diff : PositionSide → Decimal → Decimal → Result BacktestError Decimal
price_diff PositionSide.long entry exit = ok (exit -ℤ entry)
price_diff PositionSide.short entry exit = ok (entry -ℤ exit)
price_diff PositionSide.flat entry exit = err BacktestError.side_not_directional

unfoldable pub compute_gross_pnl : GrossPnlInputs → Result BacktestError Decimal
unfolding price_diff
compute_gross_pnl i = do
  raise_if (currencies_differ i.currency_profit i.account_currency) BacktestError.currency_mismatch
  diff ← price_diff i.side i.entry_execution_price i.exit_execution_price
  ok (diff *ℤ (i.lots *ℤ i.contract_size))

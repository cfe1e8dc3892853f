-- ===== src/FxBacktest/Models.antt =====
-- The types of src/fx/backtesting/models.py, and the bar of src/fx/data/schema.py. Decimals are
-- integers: prices, lots, sizes and rates each count a quantum of their own, so that a product counts
-- the product of the quanta. Instants are microseconds since 1970.
use tradingia.Prelude.{ℕ, ℤ, pos, leb_ℤ, ltb_ℤ, ltb, ◌*ℤ◌, Bool, true, false, Option, ◌||◌}
use tradingia.Prelude.Result.{Result, ok, raise_if, ◌>>◌}
use tradingia.Execution.Domain.{Decimal, Name}

abbrev pub Instant : Type 0
Instant = ℕ

pub data PositionSide : Type 0 where
  flat long short : PositionSide

pub data TargetPosition : Type 0 where
  long short flat : TargetPosition

pub record FxBar : Type 0 where
  pub timestamp_utc : Instant
  pub open_price : Decimal
  pub high : Decimal
  pub low : Decimal
  pub close : Decimal
  pub tick_volume : Decimal
  pub real_volume : Option Decimal
  pub spread_points : Option ℤ

-- the exceptions that a run can raise, each by its message
pub data BacktestError : Type 0 where
  bar_price_not_positive point_not_positive spread_negative : BacktestError
  bid_ask_not_positive ask_below_bid : BacktestError
  side_not_directional lots_not_positive contract_size_not_positive : BacktestError
  bars_held_below_one currency_mismatch swap_required end_before_start : BacktestError
  lengths_differ too_few_bars : BacktestError

pub record Position : Type 0 where
  pub symbol : Name
  pub side : PositionSide
  pub lots : Decimal
  pub contract_size : Decimal
  pub open_time : Instant
  pub entry_bid : Decimal
  pub entry_ask : Decimal
  pub entry_execution_price : Decimal
  pub entry_spread_points : Option ℤ

abbrev pub is_flat : PositionSide → Bool
is_flat PositionSide.flat = true
is_flat _ = false

-- `Position(...)`, which runs __post_init__
unfoldable pub new_position : Position → Result BacktestError Position
new_position p = do
  raise_if (is_flat p.side) BacktestError.side_not_directional
  raise_if (leb_ℤ p.lots (pos 0)) BacktestError.lots_not_positive
  raise_if (leb_ℤ p.contract_size (pos 0)) BacktestError.contract_size_not_positive
  raise_if (leb_ℤ p.entry_bid (pos 0) || leb_ℤ p.entry_ask (pos 0))
      BacktestError.bid_ask_not_positive
  raise_if (ltb_ℤ p.entry_ask p.entry_bid) BacktestError.ask_below_bid
  ok p

unfoldable pub exposure : Position → Decimal
exposure p = p.lots *ℤ p.contract_size

pub record TradeResult : Type 0 where
  pub symbol : Name
  pub side : PositionSide
  pub lots : Decimal
  pub open_time : Instant
  pub close_time : Instant
  pub entry_execution_price : Decimal
  pub exit_execution_price : Decimal
  pub entry_bid : Decimal
  pub entry_ask : Decimal
  pub exit_bid : Decimal
  pub exit_ask : Decimal
  pub gross_pnl : Decimal
  pub spread_cost : Decimal
  pub slippage_cost : Decimal
  pub commission_cost : Decimal
  pub swap_cost : Decimal
  pub net_pnl : Decimal
  pub bars_held : ℕ

-- `TradeResult(...)`, which runs __post_init__
unfoldable pub new_trade : TradeResult → Result BacktestError TradeResult
new_trade t = do
  raise_if (is_flat t.side) BacktestError.side_not_directional
  raise_if (leb_ℤ t.lots (pos 0)) BacktestError.lots_not_positive
  raise_if (ltb t.bars_held 1) BacktestError.bars_held_below_one
  ok t

pub record AccountState : Type 0 where
  pub initial_balance : Decimal
  pub balance : Decimal
  pub realized_pnl : Decimal
  pub position : Option Position
  pub equity : Decimal

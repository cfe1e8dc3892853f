-- ===== src/FxBacktest/Legs.antt =====
-- The opening, the close and the valuation of a position: `_open`, `_close` and `_unrealized_pnl` of
-- FxBacktestEngine (src/fx/backtesting/engine.py).
use tradingia.Prelude.{ℕ, ◌+ℤ◌, ◌-ℤ◌, max, true, false}
use tradingia.Prelude.Result.{Result, ◌>>=◌}
use tradingia.Execution.Domain.{Decimal}
use tradingia.FxBacktest.Models.{
  PositionSide, FxBar, BacktestError, Position, new_position, TradeResult, new_trade,
}
use tradingia.FxBacktest.Costs.{cost_for_side}
use tradingia.FxBacktest.Execution.{BidAsk, reconstruct_bid_ask, compute_fill}
use tradingia.FxBacktest.Pnl.{compute_gross_pnl}
use tradingia.FxBacktest.Config.{FxEngineConfig}

-- the side of the quote on which a position of the side is opened, and the one on which it is closed
abbrev pub entry_side : PositionSide → BidAsk → Decimal
entry_side PositionSide.long b = b.ask
entry_side _ b = b.bid

abbrev pub exit_side : PositionSide → BidAsk → Decimal
exit_side PositionSide.long b = b.bid
exit_side _ b = b.ask

module _ (cfg : FxEngineConfig) where
  -- `_open`
  unfoldable pub open_position : PositionSide → FxBar → Result BacktestError Position
  open_position side bar = do
    fill ← compute_fill side true bar.open_price bar.spread_points cfg.point cfg.slippage_model
    new_position (record {
      symbol = cfg.symbol;
      side = side;
      lots = cfg.lots;
      contract_size = cfg.contract_size;
      open_time = bar.timestamp_utc;
      entry_bid = fill.bid;
      entry_ask = fill.ask;
      entry_execution_price = fill.execution_price;
      entry_spread_points = bar.spread_points;
    })

  -- compute_gross_pnl for a position between two prices
  unfoldable pub pnl_between : Position → Decimal → Decimal → Result BacktestError Decimal
  pnl_between p entry exit = compute_gross_pnl (record {
    side = p.side;
    entry_execution_price = entry;
    exit_execution_price = exit;
    lots = p.lots;
    contract_size = p.contract_size;
    currency_profit = cfg.currency_profit;
    account_currency = cfg.account_currency;
  })

  -- `_close`
  unfoldable pub close_position : Position → FxBar → ℕ → Decimal → Result BacktestError TradeResult
  close_position p bar bars_held swap_cost = do
    fill ← compute_fill p.side false bar.open_price bar.spread_points cfg.point cfg.slippage_model
    execution_pnl ← pnl_between p p.entry_execution_price fill.execution_price
    entry_no_slip ← reconstruct_bid_ask p.entry_bid p.entry_spread_points cfg.point
    exit_no_slip ← reconstruct_bid_ask fill.bid bar.spread_points cfg.point
    reference_pnl ← pnl_between p p.entry_bid fill.bid
    spread_only_pnl ←
        pnl_between p (entry_side p.side entry_no_slip) (exit_side p.side exit_no_slip)
    let spread_cost = reference_pnl -ℤ spread_only_pnl
    let slippage_cost = spread_only_pnl -ℤ execution_pnl
    let commission_cost =
        cost_for_side cfg.commission_model p.lots +ℤ cost_for_side cfg.commission_model p.lots
    new_trade (record {
      symbol = p.symbol;
      side = p.side;
      lots = p.lots;
      open_time = p.open_time;
      close_time = bar.timestamp_utc;
      entry_execution_price = p.entry_execution_price;
      exit_execution_price = fill.execution_price;
      entry_bid = p.entry_bid;
      entry_ask = p.entry_ask;
      exit_bid = fill.bid;
      exit_ask = fill.ask;
      gross_pnl = reference_pnl;
      spread_cost = spread_cost;
      slippage_cost = slippage_cost;
      commission_cost = commission_cost;
      swap_cost = swap_cost;
      net_pnl = reference_pnl -ℤ spread_cost -ℤ slippage_cost -ℤ commission_cost -ℤ swap_cost;
      bars_held = max bars_held 1;
    })

  -- `_unrealized_pnl`
  unfoldable pub unrealized_pnl : Position → FxBar → Result BacktestError Decimal
  unrealized_pnl p bar = do
    bid_ask ← reconstruct_bid_ask bar.close bar.spread_points cfg.point
    pnl_between p p.entry_execution_price (exit_side p.side bid_ask)

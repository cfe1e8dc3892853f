-- ===== src/FxBacktest/Execution.antt =====
-- Bid, ask and fills (src/fx/backtesting/execution.py).
use tradingia.Prelude.{
  ℤ, pos, ◌+ℤ◌, ◌*ℤ◌, leb_ℤ, ltb_ℤ, Bool, not, ◌||◌, Option, get_or, if◌then◌else◌,
}
use tradingia.Prelude.Result.{Result, ok, err, raise_if, ◌>>=◌, ◌>>◌}
use tradingia.Execution.Domain.{Decimal}
use tradingia.FxBacktest.Models.{PositionSide, BacktestError}
use tradingia.FxBacktest.Costs.{SlippageModel, slipped}

pub record BidAsk : Type 0 where
  pub bid : Decimal
  pub ask : Decimal

-- `Decimal(spread)`: points are counted in thousandths
unfoldable pub decimal_points : ℤ → Decimal
decimal_points n = n *ℤ pos 1000

unfoldable pub new_bid_ask : BidAsk → Result BacktestError BidAsk
new_bid_ask b = do
  raise_if (leb_ℤ b.bid (pos 0) || leb_ℤ b.ask (pos 0)) BacktestError.bid_ask_not_positive
  raise_if (ltb_ℤ b.ask b.bid) BacktestError.ask_below_bid
  ok b

unfoldable pub reconstruct_bid_ask : Decimal → Option ℤ → Decimal → Result BacktestError BidAsk
unfolding new_bid_ask
reconstruct_bid_ask bar_price spread_points point = do
  raise_if (leb_ℤ bar_price (pos 0)) BacktestError.bar_price_not_positive
  raise_if (leb_ℤ point (pos 0)) BacktestError.point_not_positive
  raise_if (ltb_ℤ (get_or spread_points (pos 0)) (pos 0)) BacktestError.spread_negative
  new_bid_ask (record {
    bid = bar_price;
    ask = bar_price +ℤ decimal_points (get_or spread_points (pos 0)) *ℤ point;
  })

pub record Fill : Type 0 where
  pub bid : Decimal
  pub ask : Decimal
  pub execution_price : Decimal

-- LONG open and SHORT close buy; `_is_buy_direction`
unfoldable pub is_buy_direction : PositionSide → Bool → Result BacktestError Bool
is_buy_direction PositionSide.long opening = ok opening
is_buy_direction PositionSide.short opening = ok (not opening)
is_buy_direction PositionSide.flat opening = err BacktestError.side_not_directional

-- `(side is LONG) == opening`
abbrev pays_ask : PositionSide → Bool → Bool
pays_ask PositionSide.long opening = opening
pays_ask _ opening = not opening

unfoldable pub compute_fill :
    PositionSide → Bool → Decimal → Option ℤ → Decimal → SlippageModel → Result BacktestError Fill
unfolding is_buy_direction
compute_fill side opening bar_open_price spread_points point slippage_model = do
  bid_ask ← reconstruct_bid_ask bar_open_price spread_points point
  is_buy ← is_buy_direction side opening
  ok (record {
    bid = bid_ask.bid;
    ask = bid_ask.ask;
    execution_price =
        slipped slippage_model (if pays_ask side opening then bid_ask.ask else bid_ask.bid) point
          is_buy;
  })

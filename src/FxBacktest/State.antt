-- ===== src/FxBacktest/State.antt =====
-- The variables of the loop in `run` (src/fx/backtesting/engine.py), and what a close does to them.
use tradingia.Prelude.{
  ℕ, pos, ◌+ℤ◌, leb_ℤ, Bool, true, false, ◌&&◌, Option, none, some, List, [], ◌∷◌, ◌++◌,
  if◌then◌else◌,
}
use tradingia.Execution.Domain.{Decimal}
use tradingia.FxBacktest.Models.{
  Instant, PositionSide, TargetPosition, FxBar, Position, TradeResult,
}
use tradingia.FxBacktest.Costs.{SwapModel}

-- (timestamp_utc, equity, held side)
pub record EquityPoint : Type 0 where
  pub timestamp : Instant
  pub equity : Decimal
  pub held : PositionSide

-- The variables of the loop. `termination` is the instant of the insolvency that ended it.
pub record LoopState : Type 0 where
  pub balance : Decimal
  pub realized_pnl : Decimal
  pub position : Option Position
  pub accrued_swap : Decimal
  pub open_bar_index : Option ℕ
  pub trades : List TradeResult
  pub equity_curve : List EquityPoint
  pub termination : Option Instant

unfoldable pub desired_side : TargetPosition → PositionSide
desired_side TargetPosition.long = PositionSide.long
desired_side TargetPosition.short = PositionSide.short
desired_side TargetPosition.flat = PositionSide.flat

abbrev pub side_of : Option Position → PositionSide
side_of none = PositionSide.flat
side_of (some p) = p.side

unfoldable pub same_side : PositionSide → PositionSide → Bool
same_side PositionSide.flat PositionSide.flat = true
same_side PositionSide.long PositionSide.long = true
same_side PositionSide.short PositionSide.short = true
same_side _ _ = false

abbrev pub is_no_swap : SwapModel → Bool
is_no_swap SwapModel.no_swap = true
is_no_swap _ = false

-- books a closed trade
unfoldable pub book : TradeResult → LoopState → LoopState
book trade st = record st {
  trades = st.trades ++ trade ∷ [];
  balance = st.balance +ℤ trade.net_pnl;
  realized_pnl = st.realized_pnl +ℤ trade.net_pnl;
  position = none;
  accrued_swap = pos 0;
}

-- the end of the run at a close that leaves nothing
unfoldable pub end_if_insolvent : Bool → FxBar → LoopState → LoopState
end_if_insolvent terminate bar st =
    if terminate && leb_ℤ st.balance (pos 0)
    then record st {
      equity_curve =
          st.equity_curve
          ++ record { timestamp = bar.timestamp_utc; equity = st.balance; held = PositionSide.flat }
            ∷ [];
      termination = some bar.timestamp_utc;
    }
    else st

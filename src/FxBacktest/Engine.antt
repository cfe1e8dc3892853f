-- ===== src/FxBacktest/Engine.antt =====
-- FxBacktestEngine (src/fx/backtesting/engine.py). One round of the loop in `run` is `step`; the
-- statements of its body are `accrue`, `rebalance` and `mark`, in that order.
use tradingia.Prelude.{
  ℕ, pos, suc, ◌-◌, ◌/◌, ◌+ℤ◌, ◌-ℤ◌, leb_ℤ, ltb, ◌==◌, Bool, not, ◌&&◌, Option, none, some, get_or,
  is_some, List, [], ◌∷◌, ◌++◌, length, if◌then◌else◌,
}
use tradingia.Prelude.Result.{Result, ok, err, ◌>>=◌}
use tradingia.Execution.Domain.{Decimal}
use tradingia.FxBacktest.Models.{
  Instant, PositionSide, TargetPosition, FxBar, BacktestError, Position, TradeResult, AccountState,
}
use tradingia.FxBacktest.Costs.{charge_for_crossing, day_length}
use tradingia.FxBacktest.Rollover.{crossings_between}
use tradingia.FxBacktest.Config.{FxEngineConfig}
use tradingia.FxBacktest.Legs.{open_position, close_position, unrealized_pnl}
use tradingia.FxBacktest.State.{
  EquityPoint, LoopState, desired_side, side_of, same_side, is_no_swap, book, end_if_insolvent,
}

module _ (cfg : FxEngineConfig) where
  -- the charges for a list of crossings
  unfoldable pub charge_all : Position → List Instant → Decimal → Decimal
  charge_all p [] accrued = accrued
  charge_all p (t ∷ ts) accrued =
      charge_all p ts (accrued +ℤ charge_for_crossing cfg.swap_model p.side p.lots t)

  -- the swap of an open position between two bars
  unfoldable pub accrue : Instant → Instant → Position → Decimal → Result BacktestError Decimal
  accrue prev now p accrued = elim cfg.rollover_schedule [
    | some schedule ↦ crossings_between schedule prev now >>= λ ts. ok (charge_all p ts accrued)
    | none ↦
        if not (is_no_swap cfg.swap_model) && not (now / day_length == prev / day_length)
        then err BacktestError.swap_required
        else ok accrued
  ]

  unfoldable pub accrue_open : Instant → FxBar → LoopState → Result BacktestError LoopState
  accrue_open prev bar st = elim st.position [
    | none ↦ ok st
    | some p ↦ accrue prev bar.timestamp_utc p st.accrued_swap >>= λ swap.
        ok (record st { accrued_swap = swap })
  ]

  -- closes what is open, and ends the run where that leaves nothing
  unfoldable pub close_leg : ℕ → FxBar → LoopState → Result BacktestError LoopState
  close_leg i bar st = elim st.position [
    | none ↦ ok st
    | some p ↦
        close_position cfg p bar (i - get_or st.open_bar_index i) st.accrued_swap >>= λ trade.
        ok (end_if_insolvent cfg.terminate_on_insolvency bar (book trade st))
  ]

  unfoldable pub open_leg : ℕ → FxBar → PositionSide → LoopState → Result BacktestError LoopState
  open_leg i bar PositionSide.flat st = ok st
  open_leg i bar side st = open_position cfg side bar >>= λ p.
      ok (record st { position = some p; open_bar_index = some i })

  -- the `if current_side != desired_side` block; a run that has ended opens nothing
  unfoldable pub rebalance : ℕ → FxBar → PositionSide → LoopState → Result BacktestError LoopState
  rebalance i bar side st =
      if same_side (side_of st.position) side
      then ok st
      else (close_leg i bar st >>= λ closed.
          if is_some closed.termination then ok closed else open_leg i bar side closed)

  unfoldable pub equity_at : FxBar → LoopState → Result BacktestError Decimal
  equity_at bar st = elim st.position [
    | none ↦ ok st.balance
    | some p ↦ unrealized_pnl cfg p bar >>= λ u. ok (st.balance +ℤ u -ℤ st.accrued_swap)
  ]

  -- the point of the curve, and the end of the run at an equity that is not positive
  unfoldable pub mark_equity : FxBar → PositionSide → Decimal → LoopState → LoopState
  mark_equity bar side equity st = record st {
    equity_curve =
        st.equity_curve
        ++ record {
          timestamp = bar.timestamp_utc;
          equity = equity;
          held = elim st.position [ none ↦ side | some p ↦ p.side ];
        }
          ∷ [];
    termination =
        if cfg.terminate_on_insolvency && leb_ℤ equity (pos 0)
        then some bar.timestamp_utc
        else st.termination;
  }

  unfoldable pub mark : FxBar → PositionSide → LoopState → Result BacktestError LoopState
  mark bar side st =
      if is_some st.termination
      then ok st
      else (equity_at bar st >>= λ equity. ok (mark_equity bar side equity st))

  -- one round of the loop: bar `i`, the instant of the bar before, and the target for it
  unfoldable pub step :
      ℕ → Instant → FxBar → TargetPosition → LoopState → Result BacktestError LoopState
  step i prev bar target st = do
    accrued ← accrue_open prev bar st
    rebalanced ← rebalance i bar (desired_side target) accrued
    mark bar (desired_side target) rebalanced

  -- the loop, until it breaks
  unfoldable pub run_loop :
      ℕ → Instant → List FxBar → List TargetPosition → LoopState → Result BacktestError LoopState
  run_loop i prev (bar ∷ bars) (target ∷ targets) st = step i prev bar target st >>= λ st'.
      elim st'.termination [
        | some t ↦ ok st'
        | none ↦ run_loop (suc i) bar.timestamp_utc bars targets st'
      ]
  run_loop i prev _ _ st = ok st

-- `list(signals[:-1])`
unfoldable pub all_but_last {ℓ} : {A : Type ℓ} → List A → List A
all_but_last [] = []
all_but_last (x ∷ []) = []
all_but_last (x ∷ y ∷ ys) = x ∷ all_but_last (y ∷ ys)

unfoldable pub shifted_targets : List TargetPosition → List TargetPosition
unfolding all_but_last
shifted_targets signals = TargetPosition.flat ∷ all_but_last signals

-- `bars[-1]`, of at least one bar
unfoldable pub last_bar : FxBar → List FxBar → FxBar
last_bar b [] = b
last_bar b (c ∷ bars) = last_bar c bars

-- `equity_curve[-1] = point`
unfoldable pub replace_last {ℓ} : {A : Type ℓ} → A → List A → List A
unfolding all_but_last
replace_last v xs = all_but_last xs ++ v ∷ []

unfoldable pub last_equity : Decimal → List EquityPoint → Decimal
last_equity d [] = d
last_equity d (p ∷ ps) = last_equity p.equity ps

pub record FxBacktestResult : Type 0 where
  pub trades : List TradeResult
  pub final_account : AccountState
  pub equity_curve : List EquityPoint
  pub termination : Option Instant

unfoldable pub insolvent : FxBacktestResult → Bool
insolvent r = is_some r.termination

module _ (cfg : FxEngineConfig) where
  abbrev pub initial_state : LoopState
  initial_state = record {
    balance = cfg.initial_balance;
    realized_pnl = pos 0;
    position = none;
    accrued_swap = pos 0;
    open_bar_index = none;
    trades = [];
    equity_curve = [];
    termination = none;
  }

  -- what is still open after the last bar is closed at it
  unfoldable pub close_at_end : ℕ → FxBar → LoopState → Result BacktestError LoopState
  close_at_end last bar st = elim st.termination [
    | some t ↦ ok st
    | none ↦ elim st.position [
      | none ↦ ok st
      | some p ↦ do
        trade ← close_position cfg p bar (last - get_or st.open_bar_index last) st.accrued_swap
        let booked = book trade st
        ok (record booked {
          equity_curve =
              replace_last
                (record {
                  timestamp = bar.timestamp_utc;
                  equity = booked.balance;
                  held = PositionSide.flat;
                })
                booked.equity_curve;
        })
    ]
  ]

  unfoldable pub result_of : LoopState → FxBacktestResult
  result_of st = record {
    trades = st.trades;
    final_account = record {
      initial_balance = cfg.initial_balance;
      balance = st.balance;
      realized_pnl = st.realized_pnl;
      position = st.position;
      equity = last_equity st.balance st.equity_curve;
    };
    equity_curve = st.equity_curve;
    termination = st.termination;
  }

  unfoldable pub run : List FxBar → List TargetPosition → Result BacktestError FxBacktestResult
  run bars signals =
      if not (length bars == length signals) then err BacktestError.lengths_differ else elim bars [
        | [] ↦ err BacktestError.too_few_bars
        | b ∷ rest ↦ if ltb (length (b ∷ rest)) 2 then err BacktestError.too_few_bars else (do
          looped ← run_loop cfg 0 b.timestamp_utc (b ∷ rest) (shifted_targets signals) initial_state
          ended ← close_at_end (length (b ∷ rest) - 1) (last_bar b rest) looped
          ok (result_of ended))
      ]

-- ===== src/FxBacktest/Tests.antt =====
-- Runs on concrete bars.
use tradingia.Prelude.{
  ℕ, ℤ, pos, negsuc, ◌+ℤ◌, ◌-ℤ◌, ◌*ℤ◌, none, some, List, [], ◌∷◌, ◌++◌, take, ◌≡◌, refl, inl, inr,
  ◌+◌, ◌*◌, ◌<◌, arith, true, ◌↔◌,
}
use tradingia.Prelude.Increasing.{Has, Increasing}
use tradingia.Prelude.Result.{Result, ok, err}
use tradingia.FxBacktest.Models.{
  Instant, PositionSide, TargetPosition, FxBar, Position, new_position, TradeResult, new_trade,
  exposure, BacktestError,
}
use tradingia.FxBacktest.Costs.{
  SlippageModel, points, slipped, CommissionModel, cost_for_side, half, SwapModel,
  charge_for_crossing, hour_length,
}
use tradingia.FxBacktest.Rollover.{
  RolloverSchedule, insert_sorted, sorted, crossings_of_day, crossings_from, crossings_between,
}
use tradingia.FxBacktest.Rollover.Scan.{IsCrossing}
use tradingia.FxBacktest.Rollover.Crossings.{
  IsSchedule, crossings_between-IsCrossing, crossings_between-append,
}
use tradingia.FxBacktest.Execution.{
  decimal_points, new_bid_ask, reconstruct_bid_ask, is_buy_direction, compute_fill,
}
use tradingia.FxBacktest.Pnl.{price_diff, compute_gross_pnl}
use tradingia.FxBacktest.Config.{FxEngineConfig}
use tradingia.FxBacktest.Legs.{open_position, pnl_between, close_position, unrealized_pnl}
use tradingia.FxBacktest.Prices.{spread_width, slip}
use tradingia.FxBacktest.Causal.{run-IsCausal}
use tradingia.FxBacktest.Books.{total_net, run-IsBalanced}
use tradingia.FxBacktest.Solvency.{EndsAtInsolvency, run-EndsAtInsolvency}
use tradingia.FxBacktest.Returns.{IsUsable}
use tradingia.FxBacktest.Total.{run-Returns}
use tradingia.FxBacktest.Accounting.{close_position-open_position}
use tradingia.FxBacktest.Engine.{
  FxBacktestResult, charge_all, accrue, accrue_open, close_leg, open_leg, rebalance, equity_at,
  mark_equity, mark, step, run_loop, all_but_last, shifted_targets, last_bar, replace_last,
  last_equity, close_at_end, result_of, run,
}
use tradingia.FxBacktest.State.{EquityPoint, desired_side, same_side, book, end_if_insolvent}

abbrev config : FxEngineConfig
config = record {
  symbol = 1;
  lots = pos 2;
  contract_size = pos 10;
  point = pos 1;
  volume_min = pos 1;
  volume_max = pos 100;
  volume_step = pos 1;
  currency_profit = some 5;
  account_currency = some 5;
  initial_balance = pos 60000;
  commission_model = CommissionModel.per_lot_round_turn (pos 40);
  slippage_model = SlippageModel.fixed_points_slippage (pos 200);
  swap_model = SwapModel.fixed_swap (pos 7);
  rollover_schedule = some (record { hours_utc = 21 ∷ 9 ∷ [] });
  terminate_on_insolvency = true;
}

-- a bar at an hour, from one price to another, with a spread of a point
abbrev bar_at : ℕ → ℕ → ℕ → FxBar
bar_at hour from to = record {
  timestamp_utc = hour * hour_length;
  open_price = pos from;
  high = pos (from + to);
  low = pos 1;
  close = pos to;
  tick_volume = pos 1;
  real_volume = none;
  spread_points = some (pos 1);
}

abbrev bars : List FxBar
bars =
    bar_at 20 110000 110000
    ∷ bar_at 21 110000 111000
    ∷ bar_at 22 111000 112000
    ∷ bar_at 23 112000 112500
    ∷ []

abbrev signals : List TargetPosition
signals =
    TargetPosition.long ∷ TargetPosition.long ∷ TargetPosition.short ∷ TargetPosition.flat ∷ []

abbrev empty_result : FxBacktestResult
empty_result = record {
  trades = [];
  final_account = record {
    initial_balance = pos 0;
    balance = pos 0;
    realized_pnl = pos 0;
    position = none;
    equity = pos 0;
  };
  equity_curve = [];
  termination = none;
}

abbrev returned : Result BacktestError FxBacktestResult → FxBacktestResult
returned (ok r) = r
returned (err e) = empty_result

abbrev result : FxBacktestResult
result = returned (run config bars signals)

abbrev map_equity : List EquityPoint → List ℤ
map_equity [] = []
map_equity (p ∷ ps) = p.equity ∷ map_equity ps

curve_of_result :
    map_equity result.equity_curve ≡ pos 60000 ∷ pos 56000 ∷ pos 76000 ∷ pos 43840 ∷ []
unfolding result_of last_equity run shifted_targets all_but_last last_bar replace_last close_at_end
    run_loop step mark mark_equity equity_at rebalance open_leg close_leg end_if_insolvent book
    accrue_open accrue charge_all same_side desired_side open_position pnl_between close_position
    unrealized_pnl compute_gross_pnl price_diff compute_fill is_buy_direction reconstruct_bid_ask
    new_bid_ask decimal_points crossings_between crossings_from crossings_of_day sorted
    insert_sorted charge_for_crossing cost_for_side half slipped points new_position new_trade
    exposure ◌+ℤ◌ ◌-ℤ◌ ◌*ℤ◌
curve_of_result = refl

-- the last signal and the one before it differ
abbrev other_signals : List TargetPosition
other_signals =
    TargetPosition.long ∷ TargetPosition.long ∷ TargetPosition.flat ∷ TargetPosition.short ∷ []

abbrev other_result : FxBacktestResult
other_result = returned (run config bars other_signals)

-- an account that the first mark empties
abbrev poor : FxEngineConfig
poor = record config { initial_balance = pos 3000 }

abbrev poor_result : FxBacktestResult
poor_result = returned (run poor bars signals)

runs :
    (run config bars signals ≡ ok result)
    × (run config bars other_signals ≡ ok other_result)
    × (run poor bars signals ≡ ok poor_result)
unfolding result_of last_equity run shifted_targets all_but_last last_bar replace_last close_at_end
    run_loop step mark mark_equity equity_at rebalance open_leg close_leg end_if_insolvent book
    accrue_open accrue charge_all same_side desired_side open_position pnl_between close_position
    unrealized_pnl compute_gross_pnl price_diff compute_fill is_buy_direction reconstruct_bid_ask
    new_bid_ask decimal_points crossings_between crossings_from crossings_of_day sorted
    insert_sorted charge_for_crossing cost_for_side half slipped points new_position new_trade
    exposure ◌+ℤ◌ ◌-ℤ◌ ◌*ℤ◌
runs = (refl, refl, refl)

poor_curve : map_equity poor_result.equity_curve ≡ pos 3000 ∷ negsuc 999 ∷ []
unfolding result_of last_equity run shifted_targets all_but_last last_bar replace_last close_at_end
    run_loop step mark mark_equity equity_at rebalance open_leg close_leg end_if_insolvent book
    accrue_open accrue charge_all same_side desired_side open_position pnl_between close_position
    unrealized_pnl compute_gross_pnl price_diff compute_fill is_buy_direction reconstruct_bid_ask
    new_bid_ask decimal_points crossings_between crossings_from crossings_of_day sorted
    insert_sorted charge_for_crossing cost_for_side half slipped points new_position new_trade
    exposure ◌+ℤ◌ ◌-ℤ◌ ◌*ℤ◌
poor_curve = refl

run-IsCausal_example : take 3 result.equity_curve ≡ take 3 other_result.equity_curve
run-IsCausal_example =
    run-IsCausal config bars signals other_signals 2 result other_result (omega arith) refl runs.0
      runs.1

run-IsBalanced_example :
    (result.final_account.balance ≡ pos 60000 +ℤ total_net result.trades)
    × (result.final_account.realized_pnl ≡ total_net result.trades)
    × (result.termination ≡ none → result.final_account.position ≡ none)
run-IsBalanced_example = run-IsBalanced config bars signals result runs.0

run-EndsAtInsolvency_example : EndsAtInsolvency poor_result
run-EndsAtInsolvency_example = run-EndsAtInsolvency poor refl bars signals poor_result runs.2

usable : (hour from to : ℕ) → 0 < from → 0 < to → IsUsable (bar_at hour from to)
usable hour from to h k = record {
  open_positive = omega (arith, h);
  close_positive = omega (arith, k);
  spread_known = omega arith;
}

run-Returns_example : (r : FxBacktestResult) × (run config bars signals ≡ ok r)
run-Returns_example =
    run-Returns config
      (record {
        lots_positive = omega arith;
        contract_positive = omega arith;
        point_positive = omega arith;
        same_currency = refl;
      })
      (inr (record { hours_utc = 21 ∷ 9 ∷ [] }, refl)) (bar_at 20 110000 110000)
      (bar_at 21 110000 111000) (bar_at 22 111000 112000 ∷ bar_at 23 112000 112500 ∷ []) signals
      (
        usable 20 110000 110000 (omega arith) (omega arith),
        (
          usable 21 110000 111000 (omega arith) (omega arith),
          (
            usable 22 111000 112000 (omega arith) (omega arith),
            (usable 23 112000 112500 (omega arith) (omega arith), tt),
          ),
        ),
      )
      (omega arith, (omega arith, (omega arith, (omega arith, tt)))) refl

abbrev opened : Position
opened = record {
  symbol = 1;
  side = PositionSide.long;
  lots = pos 2;
  contract_size = pos 10;
  open_time = 21 * hour_length;
  entry_bid = pos 110000;
  entry_ask = pos 111000;
  entry_execution_price = pos 111200;
  entry_spread_points = some (pos 1);
}

abbrev sold : TradeResult
sold = record {
  symbol = 1;
  side = PositionSide.long;
  lots = pos 2;
  open_time = 21 * hour_length;
  close_time = 23 * hour_length;
  entry_execution_price = pos 111200;
  exit_execution_price = pos 111800;
  entry_bid = pos 110000;
  entry_ask = pos 111000;
  exit_bid = pos 112000;
  exit_ask = pos 113000;
  gross_pnl = pos 40000;
  spread_cost = pos 20000;
  slippage_cost = pos 8000;
  commission_cost = pos 80;
  swap_cost = pos 14;
  net_pnl = pos 11906;
  bars_held = 2;
}

opens_and_closes :
    (open_position config PositionSide.long (bar_at 21 110000 111000) ≡ ok opened)
    × (close_position config opened (bar_at 23 112000 112500) 2 (pos 14) ≡ ok sold)
unfolding result_of last_equity run shifted_targets all_but_last last_bar replace_last close_at_end
    run_loop step mark mark_equity equity_at rebalance open_leg close_leg end_if_insolvent book
    accrue_open accrue charge_all same_side desired_side open_position pnl_between close_position
    unrealized_pnl compute_gross_pnl price_diff compute_fill is_buy_direction reconstruct_bid_ask
    new_bid_ask decimal_points crossings_between crossings_from crossings_of_day sorted
    insert_sorted charge_for_crossing cost_for_side half slipped points new_position new_trade
    exposure ◌+ℤ◌ ◌-ℤ◌ ◌*ℤ◌
opens_and_closes = (refl, refl)

close_position-open_position_example :
    let size = pos 2 *ℤ pos 10 in
    (pos 40000 ≡ (pos 112000 -ℤ pos 110000) *ℤ size)
    × (pos 20000 ≡ spread_width (some (pos 1)) (pos 1) *ℤ size)
    × (pos 8000
        ≡ (slip config.slippage_model (pos 1) +ℤ slip config.slippage_model (pos 1)) *ℤ size)
    × (pos 11906 ≡ (pos 111800 -ℤ pos 111200) *ℤ size -ℤ pos 80 -ℤ pos 14)
close_position-open_position_example =
    close_position-open_position config PositionSide.long (bar_at 21 110000 111000)
      (bar_at 23 112000 112500) 2 (pos 14) opened sold opens_and_closes.0 opens_and_closes.1

abbrev schedule : RolloverSchedule
schedule = record { hours_utc = 21 ∷ 9 ∷ [] }

schedule-IsSchedule : IsSchedule schedule
schedule-IsSchedule = (
  (λ m. elim m [ inl e ↦ omega (arith, e) | inr n ↦ n ], (λ m. m, tt)),
  (omega arith, (omega arith, tt)),
)

three_crossings :
    crossings_between schedule (20 * hour_length) (45 * hour_length)
    ≡ ok (21 * hour_length ∷ 33 * hour_length ∷ 45 * hour_length ∷ [])
unfolding result_of last_equity run shifted_targets all_but_last last_bar replace_last close_at_end
    run_loop step mark mark_equity equity_at rebalance open_leg close_leg end_if_insolvent book
    accrue_open accrue charge_all same_side desired_side open_position pnl_between close_position
    unrealized_pnl compute_gross_pnl price_diff compute_fill is_buy_direction reconstruct_bid_ask
    new_bid_ask decimal_points crossings_between crossings_from crossings_of_day sorted
    insert_sorted charge_for_crossing cost_for_side half slipped points new_position new_trade
    exposure ◌+ℤ◌ ◌-ℤ◌ ◌*ℤ◌
three_crossings = refl

crossings_between-IsCrossing_example :
    (xs : List Instant) × (crossings_between schedule (20 * hour_length) (45 * hour_length) ≡ ok xs)
    × Increasing xs
    × ((t : Instant) → Has t xs ↔ IsCrossing (21 ∷ 9 ∷ []) (20 * hour_length) (45 * hour_length) t)
crossings_between-IsCrossing_example =
    crossings_between-IsCrossing schedule schedule-IsSchedule (20 * hour_length) (45 * hour_length)
      (omega arith)

crossings_between-append_example :
    (xs : List Instant) × (ys : List Instant) × (crossings_between schedule
        (20 * hour_length)
        (33 * hour_length)
      ≡ ok xs)
    × (crossings_between schedule (33 * hour_length) (45 * hour_length) ≡ ok ys)
    × (crossings_between schedule (20 * hour_length) (45 * hour_length) ≡ ok (xs ++ ys))
crossings_between-append_example =
    crossings_between-append schedule schedule-IsSchedule (20 * hour_length) (33 * hour_length)
      (45 * hour_length) (omega arith) (omega arith)

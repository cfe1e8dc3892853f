-- ===== src/FxBacktest/Costs.antt =====
-- The cost models of src/fx/backtesting/costs.py: a constructor for each subclass.
use tradingia.Prelude.{
  ℕ, ℤ, pos, ◌+ℤ◌, ◌-ℤ◌, ◌*ℤ◌, ◌+◌, ◌/◌, ◌%◌, ltb_ℤ, leb, ◌==◌, Bool, true, false, not, Option,
  none, some, neg, abs, if◌then◌else◌,
}
use tradingia.Prelude.Result.{Result, ok, raise_if, ◌>>◌}
use tradingia.Execution.Domain.{Decimal}
use tradingia.FxBacktest.Models.{Instant, PositionSide}

pub data SlippageModel : Type 0 where
  zero_slippage : SlippageModel
  fixed_points_slippage : Decimal → SlippageModel

unfoldable pub points : SlippageModel → Decimal
points SlippageModel.zero_slippage = pos 0
points (SlippageModel.fixed_points_slippage slippage_points) = slippage_points

-- `apply`: against the trader, whichever way the fill goes
unfoldable pub slipped : SlippageModel → Decimal → Decimal → Bool → Decimal
slipped model price point is_buy =
    let offset = points model *ℤ point in if is_buy then price +ℤ offset else price -ℤ offset

pub data CommissionModel : Type 0 where
  no_commission : CommissionModel
  per_lot_per_side : Decimal → CommissionModel
  per_lot_round_turn : Decimal → CommissionModel

-- `/ 2`: exact where the product is even, as it is under a quantum that is fine enough
unfoldable pub half : ℤ → ℤ
half z = if ltb_ℤ z (pos 0) then neg (pos (abs z / 2)) else pos (abs z / 2)

unfoldable pub cost_for_side : CommissionModel → Decimal → Decimal
cost_for_side CommissionModel.no_commission lots = pos 0
cost_for_side (CommissionModel.per_lot_per_side rate_per_lot) lots = rate_per_lot *ℤ lots
cost_for_side (CommissionModel.per_lot_round_turn rate_per_lot) lots = half (rate_per_lot *ℤ lots)

pub data SwapModel : Type 0 where
  no_swap : SwapModel
  fixed_swap : Decimal → SwapModel
  side_aware_fixed_swap : Decimal → Decimal → Option ℕ → SwapModel

pub data CostConfigError : Type 0 where
  slippage_negative rate_negative weekday_out_of_range hour_out_of_range : CostConfigError

-- the __post_init__ of each class
unfoldable pub new_slippage : SlippageModel → Result CostConfigError SlippageModel
new_slippage SlippageModel.zero_slippage = ok SlippageModel.zero_slippage
new_slippage (SlippageModel.fixed_points_slippage p) =
    raise_if (ltb_ℤ p (pos 0)) CostConfigError.slippage_negative
    >> ok (SlippageModel.fixed_points_slippage p)

unfoldable pub new_commission : CommissionModel → Result CostConfigError CommissionModel
new_commission CommissionModel.no_commission = ok CommissionModel.no_commission
new_commission (CommissionModel.per_lot_per_side r) =
    raise_if (ltb_ℤ r (pos 0)) CostConfigError.rate_negative
    >> ok (CommissionModel.per_lot_per_side r)
new_commission (CommissionModel.per_lot_round_turn r) =
    raise_if (ltb_ℤ r (pos 0)) CostConfigError.rate_negative
    >> ok (CommissionModel.per_lot_round_turn r)

unfoldable pub new_swap : SwapModel → Result CostConfigError SwapModel
new_swap (SwapModel.side_aware_fixed_swap l s (some weekday)) =
    raise_if (not (leb weekday 6)) CostConfigError.weekday_out_of_range
    >> ok (SwapModel.side_aware_fixed_swap l s (some weekday))
new_swap model = ok model

-- microseconds in a day and in an hour
abbrev pub day_length : ℕ
day_length = 86400000000

abbrev pub hour_length : ℕ
hour_length = 3600000000

-- `datetime.weekday`: the first of January 1970 was a Thursday, which is 3
unfoldable pub weekday : Instant → ℕ
weekday t = (t / day_length + 3) % 7

abbrev is_long : PositionSide → Bool
is_long PositionSide.long = true
is_long _ = false

abbrev same_weekday : Option ℕ → ℕ → Bool
same_weekday none d = false
same_weekday (some w) d = w == d

unfoldable pub charge_for_crossing : SwapModel → PositionSide → Decimal → Instant → Decimal
unfolding weekday
charge_for_crossing SwapModel.no_swap side lots crossing_time = pos 0
charge_for_crossing (SwapModel.fixed_swap rate) side lots crossing_time = rate *ℤ lots
charge_for_crossing (SwapModel.side_aware_fixed_swap long_rate short_rate triple) side lots t =
    (if is_long side then long_rate else short_rate)
    *ℤ lots
    *ℤ (if same_weekday triple (weekday t) then pos 3 else pos 1)

-- ===== src/FxBacktest/Rollover.antt =====
-- RolloverSchedule (src/fx/backtesting/costs.py): the rollover instants between two bars.
mod Sorting
mod Days
pub mod Scan
pub mod Crossings
use tradingia.Prelude.{
  ℕ, ◌+◌, ◌-◌, ◌*◌, ◌/◌, ◌%◌, leb, ltb, Bool, true, false, ◌&&◌, List, [], ◌∷◌, ◌++◌, if◌then◌else◌,
  zero, suc, keep, map,
}
use tradingia.Prelude.Result.{Result, ok, err, raise_if, ◌>>=◌, ◌>>◌}
use tradingia.FxBacktest.Models.{Instant, BacktestError}
use tradingia.FxBacktest.Costs.{CostConfigError, day_length, hour_length}

-- `hours_utc`, a set of hours, as a list of its elements
pub record RolloverSchedule : Type 0 where
  pub hours_utc : List ℕ

unfoldable pub hours_in_range : List ℕ → Bool
hours_in_range [] = true
hours_in_range (h ∷ hs) = leb h 23 && hours_in_range hs

unfoldable pub new_schedule : RolloverSchedule → Result CostConfigError RolloverSchedule
unfolding hours_in_range
new_schedule s = if hours_in_range s.hours_utc then ok s else err CostConfigError.hour_out_of_range

-- `sorted`
unfoldable pub insert_sorted : ℕ → List ℕ → List ℕ
insert_sorted x [] = x ∷ []
insert_sorted x (y ∷ ys) = let rest = insert_sorted x ys in if leb x y then x ∷ y ∷ ys else y ∷ rest

unfoldable pub sorted : List ℕ → List ℕ
sorted [] = []
sorted (x ∷ xs) = insert_sorted x (sorted xs)

abbrev pub in_span : Instant → Instant → Instant → Bool
in_span start end candidate = ltb start candidate && leb candidate end

-- the inner `for`: the candidates of one day that lie after `start` and not after `end`
unfoldable pub crossings_of_day : List ℕ → Instant → Instant → Instant → List Instant
crossings_of_day [] start end day = []
crossings_of_day (h ∷ hs) start end day =
    let rest = crossings_of_day hs start end day in
    if in_span start end (day + h * hour_length) then (day + h * hour_length) ∷ rest else rest

-- the `while`, with fuel for each day
unfoldable pub crossings_from : ℕ → List ℕ → Instant → Instant → Instant → List Instant
crossings_from zero hs start end day = []
crossings_from (suc fuel) hs start end day =
    let rest = crossings_from fuel hs start end (day + day_length) in
    if leb day end then crossings_of_day hs start end day ++ rest else []

-- the midnight before
abbrev pub midnight : Instant → Instant
midnight t = t - t % day_length

-- one round for each day from the day of `start` to that of `end`, and one that ends the loop
abbrev pub days_spanned : Instant → Instant → ℕ
days_spanned start end = end / day_length - start / day_length + 2

unfoldable pub crossings_between :
    RolloverSchedule → Instant → Instant → Result BacktestError (List Instant)
crossings_between s start end =
    if ltb end start
    then err BacktestError.end_before_start
    else ok (
        sorted
          (crossings_from (days_spanned start end) (sorted s.hours_utc) start end (midnight start)))

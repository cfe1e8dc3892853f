-- ===== src/Bridge/ServerClock.antt =====
-- ServerClockOffset (mt5_bridge/server_clock.py): the offset of the broker's clock, learnt from live
-- ticks. Instants and durations are integer microseconds. The lock makes a call one step.
pub mod Offset
mod Tests
use tradingia.Prelude.{
  ℕ, ℤ, pos, neg, abs, ◌+ℤ◌, ◌-ℤ◌, ◌+◌, ◌*◌, ◌/◌, ◌-◌, ltb, leb, ltb_ℤ, ◌==◌, Bool, true, false,
  not, ◌&&◌, ◌||◌, Option, none, some, if◌then◌else◌,
}
use tradingia.Prelude.Result.{Result, ok, err}
use tradingia.Bridge.QuoteFreshness.{Timestamp, Microseconds}

-- HALF_HOUR_SECONDS
abbrev pub half_hour : ℕ
half_hour = 1800000000

-- MAX_BROKER_OFFSET_SECONDS
abbrev pub max_broker_offset : ℕ
max_broker_offset = 50400000000

-- CALIBRATION_RESIDUAL_TOLERANCE_SECONDS
abbrev pub residual_tolerance : ℕ
residual_tolerance = 5000000

pub data CalibrationError : Type 0 where
  not_aware implausible_offset implausible_change ambiguous : CalibrationError

pub record Calibration : Type 0 where
  pub offset : Microseconds
  pub calibrated_at_bridge_utc : Microseconds

-- `_calibration`
abbrev pub ServerClockOffset : Type 0
ServerClockOffset = Option Calibration

-- the nearest multiple of half an hour, halves away from zero
unfoldable pub nearest_half_hour : Microseconds → Microseconds
nearest_half_hour seconds =
    let units = (abs seconds + half_hour / 2) / half_hour in
    if ltb_ℤ seconds (pos 0) then neg (pos (units * half_hour)) else pos (units * half_hour)

unfoldable pub calibrate_initial : Microseconds → Microseconds → Result CalibrationError Calibration
calibrate_initial raw now =
    let measured = raw -ℤ now in
    let rounded = nearest_half_hour measured in
    if ltb max_broker_offset (abs rounded)
    then err implausible_offset
    else if ltb residual_tolerance (abs (measured -ℤ rounded))
    then err ambiguous
    else ok (record { offset = rounded; calibrated_at_bridge_utc = now })

-- a residual that looks like a clean change of the clock by half hours
unfoldable pub is_clean_change : Microseconds → Bool
is_clean_change residual =
    not (abs (nearest_half_hour residual) == 0)
    && leb (abs (residual -ℤ nearest_half_hour residual)) residual_tolerance

-- the corrected instant, and the calibration after the call
unfoldable pub correct_known :
    Calibration
    → Microseconds
    → Microseconds
    → Result CalibrationError Microseconds × ServerClockOffset
correct_known current raw now =
    let corrected = raw -ℤ current.offset in
    let residual = corrected -ℤ now in
    let new_offset = current.offset +ℤ nearest_half_hour residual in
    if is_clean_change residual
    then (if ltb max_broker_offset (abs new_offset)
        then (err implausible_change, some current)
        else (
          ok (raw -ℤ new_offset),
          some (record { offset = new_offset; calibrated_at_bridge_utc = now }),
        ))
    else (ok corrected, some current)

abbrev calibrated :
    Microseconds
    → Result CalibrationError Calibration
    → Result CalibrationError Microseconds × ServerClockOffset
calibrated raw (ok c) = (ok (raw -ℤ c.offset), some c)
calibrated raw (err e) = (err e, none)

unfoldable pub to_utc :
    Timestamp
    → Timestamp
    → ServerClockOffset
    → Result CalibrationError Microseconds × ServerClockOffset
to_utc raw now clock = if not (raw.aware && now.aware) then (err not_aware, clock) else elim clock [
  | none ↦ calibrated raw.utc (calibrate_initial raw.utc now.utc)
  | some current ↦ correct_known current raw.utc now.utc
]

unfoldable pub current_offset : ServerClockOffset → Option Microseconds
current_offset none = none
current_offset (some c) = some c.offset

unfoldable pub reset : ServerClockOffset → ServerClockOffset
reset clock = none

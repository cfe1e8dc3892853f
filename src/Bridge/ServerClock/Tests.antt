-- ===== src/Bridge/ServerClock/Tests.antt =====
-- Runs of ServerClockOffset (mt5_bridge/server_clock.py) on ticks of a broker at UTC+3.
use tradingia.Prelude.{pos, ◌-ℤ◌, ◌≡◌, refl, true, none, some, arith}
use tradingia.Prelude.Result.{ok, err}
use tradingia.Bridge.QuoteFreshness.{Timestamp}
use tradingia.Bridge.ServerClock.{
  Calibration, to_utc, calibrate_initial, nearest_half_hour, CalibrationError,
}
use tradingia.Bridge.ServerClock.Offset.{IsSound, to_utc-IsSound, stale_tick_stays}

abbrev now : Timestamp
now = record { utc = pos 90000000000; aware = true }

-- three hours ahead, and two seconds late
abbrev raw : Timestamp
raw = record { utc = pos 100798000000; aware = true }

abbrev three_hours : Calibration
three_hours = record { offset = pos 10800000000; calibrated_at_bridge_utc = pos 90000000000 }

first_call : to_utc raw now none ≡ (ok (pos 89998000000), some three_hours)
unfolding to_utc calibrate_initial nearest_half_hour ◌-ℤ◌
first_call = refl

-- a first tick that is ten minutes old leaves the offset unknown
stale_first_call :
    to_utc (record { utc = pos 100200000000; aware = true }) now none
    ≡ (err CalibrationError.ambiguous, none)
unfolding to_utc calibrate_initial nearest_half_hour ◌-ℤ◌
stale_first_call = refl

to_utc-IsSound_example : IsSound (to_utc raw now (some three_hours)).1
to_utc-IsSound_example =
    to_utc-IsSound raw now (some three_hours) (record { half_hours = refl; bounded = ground arith })

-- ten minutes old
abbrev old : Timestamp
old = record { utc = pos 100200000000; aware = true }

stale_tick_stays_example :
    to_utc old now (some three_hours) ≡ (ok (old.utc -ℤ three_hours.offset), some three_hours)
unfolding ◌-ℤ◌
stale_tick_stays_example = stale_tick_stays old now three_hours (refl, refl) (ground arith)

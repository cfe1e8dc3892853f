-- ===== src/Bridge/ServerClock/Offset.antt =====
-- What the learnt offset is (mt5_bridge/server_clock.py), and when it changes.
use tradingia.Prelude.{
  ℤ, pos, abs, ◌+ℤ◌, ◌-ℤ◌, ◌/◌, ◌%◌, not, if◌then◌else◌, ◌&&◌, ◌≤◌, ◌<◌, ◌≡◌, refl, Bool, true,
  false, none, some, arith, int_laws,
}
use tradingia.Prelude.Result.{Result, ok, err}
use tradingia.Bridge.QuoteFreshness.{Timestamp, Microseconds}
use tradingia.Bridge.ServerClock.{
  half_hour, max_broker_offset, residual_tolerance, CalibrationError, Calibration,
  ServerClockOffset, calibrated, nearest_half_hour, is_clean_change, calibrate_initial,
  correct_known, to_utc,
}

-- A learnt offset is a multiple of half an hour, of at most fourteen hours.
pub record IsPlausible (c : Calibration) : Type 0 where
  pub half_hours : abs c.offset % half_hour ≡ 0
  pub bounded : abs c.offset ≤ max_broker_offset

abbrev pub IsSound : ServerClockOffset → Type 0
IsSound none = Unit {0}
IsSound (some c) = IsPlausible c

nearest-mod : (z : Microseconds) → abs (nearest_half_hour z) % half_hour ≡ 0
unfolding nearest_half_hour
nearest-mod z = ground arith

-- the nearest half hour is at most a quarter of an hour away
nearest_close : (z : Microseconds) → abs (z -ℤ nearest_half_hour z) ≤ half_hour / 2
unfolding nearest_half_hour ◌-ℤ◌
nearest_close z = ground arith

-- less than a quarter of an hour is nearest to no change
nearest_zero : (z : Microseconds) → abs z < half_hour / 2 → nearest_half_hour z ≡ pos 0
unfolding nearest_half_hour
nearest_zero z h = ground arith

sum-mod :
    (a b : Microseconds)
    → abs a % half_hour ≡ 0
    → abs b % half_hour ≡ 0
    → abs (a +ℤ b) % half_hour ≡ 0
unfolding ◌+ℤ◌
sum-mod a b h k = ground arith

swap_sub : (a b c : ℤ) → a -ℤ c -ℤ b ≡ a -ℤ b -ℤ c
swap_sub a b c = omega int_laws

calibrate_initial-IsPlausible :
    (raw now : Microseconds) (c : Calibration)
    → calibrate_initial raw now ≡ ok c
    → IsPlausible c × (abs (raw -ℤ c.offset -ℤ now) ≤ residual_tolerance)
unfolding calibrate_initial
calibrate_initial-IsPlausible raw now c e =
    ground (arith, nearest-mod (raw -ℤ now), swap_sub raw now (nearest_half_hour (raw -ℤ now)))

correct_known-IsSound :
    (c : Calibration) (raw now : Microseconds) → IsPlausible c → IsSound (correct_known c raw now).1
unfolding correct_known
correct_known-IsSound c raw now h =
    let residual = raw -ℤ c.offset -ℤ now in
    ground (
      arith,
      nearest-mod residual,
      sum-mod c.offset (nearest_half_hour residual) h.half_hours (nearest-mod residual),
    )

fresh-IsSound :
    (raw now : Microseconds) (r : Result CalibrationError Calibration)
    → calibrate_initial raw now ≡ r
    → IsSound (calibrated raw r).1
fresh-IsSound raw now (ok c) e = (calibrate_initial-IsPlausible raw now c e).0
fresh-IsSound raw now (err x) e = _

choice-IsSound :
    (b : Bool) (x y : Result CalibrationError Microseconds × ServerClockOffset)
    → IsSound x.1
    → IsSound y.1
    → IsSound (if b then x else y).1
choice-IsSound true x y h k = h
choice-IsSound false x y h k = k

-- Whatever the tick and the bridge's clock say, a call keeps what has been learnt plausible: no
-- offset, or a multiple of half an hour of at most fourteen hours.
pub to_utc-IsSound :
    (raw now : Timestamp) (clock : ServerClockOffset)
    → IsSound clock
    → IsSound (to_utc raw now clock).1
unfolding to_utc
to_utc-IsSound raw now none h =
    choice-IsSound (not (raw.aware && now.aware)) _ _ h
      (fresh-IsSound raw.utc now.utc (calibrate_initial raw.utc now.utc) refl)
to_utc-IsSound raw now (some c) h =
    choice-IsSound (not (raw.aware && now.aware)) _ _ h (correct_known-IsSound c raw.utc now.utc h)

-- Once an offset is known, a tick that lies less than a quarter of an hour from the bridge's clock
-- after correction is corrected by that very offset, so that a stale tick stays stale, and the
-- calibration does not change.
pub stale_tick_stays :
    (raw now : Timestamp) (c : Calibration)
    → (raw.aware ≡ true) × (now.aware ≡ true)
    → abs (raw.utc -ℤ c.offset -ℤ now.utc) < half_hour / 2
    → to_utc raw now (some c) ≡ (ok (raw.utc -ℤ c.offset), some c)
unfolding to_utc correct_known is_clean_change
stale_tick_stays raw now c h close =
    ground (arith, nearest_zero (raw.utc -ℤ c.offset -ℤ now.utc) close)

-- ===== src/Execution/QuoteFreshness.antt =====
-- validate_quote_freshness of src/execution/quote_freshness.py. Instants and durations are integer microseconds: a Python
-- datetime has that resolution, and the thresholds are configured in seconds.
pub mod Window
use tradingia.Prelude.{ℤ, pos, neg, ◌-ℤ◌, ltb_ℤ, Bool, if◌then◌else◌}
use tradingia.Prelude.Result.{Result, ok, err}

abbrev pub Microseconds : Type 0
Microseconds = ℤ

-- A datetime: the instant it stands for, and whether it carries a time zone. For a naive one the
-- instant is never read.
pub record Timestamp : Type 0 where
  pub utc : Microseconds
  pub aware : Bool

pub data Reason : Type 0 where
  naive_timestamp future stale : Reason

pub record QuoteFreshnessResult : Type 0 where
  pub age_seconds : Microseconds
  pub future_skew_seconds : Microseconds

-- `now` is `now_utc`, or what the clock reads where that is None
unfoldable pub validate_quote_freshness :
    Timestamp → Microseconds → Microseconds → Microseconds → Result Reason QuoteFreshnessResult
validate_quote_freshness quote_timestamp now max_age_seconds max_future_skew_seconds =
    if quote_timestamp.aware
    then (let age_seconds = now -ℤ quote_timestamp.utc in
        if ltb_ℤ age_seconds (neg max_future_skew_seconds)
        then err future
        else if ltb_ℤ max_age_seconds age_seconds
        then err stale
        else ok (record {
          age_seconds = age_seconds;
          future_skew_seconds = if ltb_ℤ age_seconds (pos 0) then neg age_seconds else pos 0;
        }))
    else err naive_timestamp

-- ===== src/Bridge/QuoteFreshness/Copies.antt =====
-- The two copies of validate_quote_freshness, in src/execution/quote_freshness.py and in
-- mt5_bridge/quote_freshness.py, which are written apart and must agree.
use tradingia.Prelude.{ℤ, ◌≡◌, arith}
use tradingia.Prelude.Result.{Result, ok, err}
use tradingia.Execution.QuoteFreshness as Execution
use tradingia.Bridge.QuoteFreshness as Bridge

abbrev pub timestamp : Execution.Timestamp → Bridge.Timestamp
timestamp t = record { utc = t.utc; aware = t.aware }

abbrev reason : Execution.Reason → Bridge.Reason
reason Execution.Reason.naive_timestamp = Bridge.Reason.naive_timestamp
reason Execution.Reason.future = Bridge.Reason.future
reason Execution.Reason.stale = Bridge.Reason.stale

-- a result of the first copy as the second words it
abbrev pub translated :
    Result Execution.Reason Execution.QuoteFreshnessResult
    → Result Bridge.Reason Bridge.QuoteFreshnessResult
translated (ok r) =
    ok (record { age_seconds = r.age_seconds; future_skew_seconds = r.future_skew_seconds })
translated (err e) = err (reason e)

-- On the same quote, clock and thresholds, the two copies give the same answer: both accept with the
-- same measures, or both refuse for the same reason.
pub copies_agree :
    (t : Execution.Timestamp) (now max_age max_future_skew : ℤ)
    → Bridge.validate_quote_freshness (timestamp t) now max_age max_future_skew
      ≡ translated (Execution.validate_quote_freshness t now max_age max_future_skew)
unfolding Execution.validate_quote_freshness Bridge.validate_quote_freshness
copies_agree t now max_age max_future_skew = ground arith

-- ===== src/Execution/QuoteFreshness/Window.antt =====
-- Which quotes validate_quote_freshness (src/execution/quote_freshness.py) accepts.
use tradingia.Prelude.{pos, neg, ◌-ℤ◌, ◌≤ℤ◌, ◌≡◌, ◌↔◌, true, arith, ltb_ℤ, ◌+ℤ◌, if◌then◌else◌}
use tradingia.Prelude.Result.{ok}
use tradingia.Execution.QuoteFreshness.{
  Timestamp, QuoteFreshnessResult, Microseconds, validate_quote_freshness,
}

-- The quote is not too old, and not too far in the future.
pub record IsInWindow (t : Timestamp) (now max_age max_future_skew : Microseconds) : Type 0 where
  pub aware : t.aware ≡ true
  pub not_stale : now -ℤ t.utc ≤ℤ max_age
  pub not_future : neg max_future_skew ≤ℤ now -ℤ t.utc

-- A quote is accepted exactly when its timestamp has a time zone and its age lies between minus the
-- tolerated skew and the tolerated age.
pub accepts_iff :
    (t : Timestamp) (now max_age max_future_skew : Microseconds)
    → ((r : QuoteFreshnessResult) × (validate_quote_freshness t now max_age max_future_skew ≡ ok r))
      ↔ IsInWindow t now max_age max_future_skew
unfolding validate_quote_freshness
accepts_iff t now max_age max_future_skew = (
  λ (r, e). record { aware = ground arith; not_stale = ground arith; not_future = ground arith },
  λ h. (
    record {
      age_seconds = now -ℤ t.utc;
      future_skew_seconds = if ltb_ℤ (now -ℤ t.utc) (pos 0) then neg (now -ℤ t.utc) else pos 0;
    },
    ground arith,
  ),
)

-- What an accepted quote is reported with: its age, and as skew minus the age where the age is at
-- most 0, and 0 where it is not below 0; so the skew is never negative.
pub accepted_measures :
    (t : Timestamp) (now max_age max_future_skew : Microseconds) (r : QuoteFreshnessResult)
    → validate_quote_freshness t now max_age max_future_skew ≡ ok r
    → (r.age_seconds ≡ now -ℤ t.utc)
      × (pos 0 ≤ℤ r.future_skew_seconds)
      × (r.age_seconds ≤ℤ pos 0 → r.future_skew_seconds ≡ neg r.age_seconds)
      × (pos 0 ≤ℤ r.age_seconds → r.future_skew_seconds ≡ pos 0)
unfolding validate_quote_freshness ◌+ℤ◌
accepted_measures t now max_age max_future_skew r e =
    (ground arith, ground arith, ground arith, ground arith)

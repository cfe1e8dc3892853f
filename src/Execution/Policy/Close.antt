-- ===== src/Execution/Policy/Close.antt =====
-- What authorize_close (src/execution/policy.py) lets through, and what it does not look at.
use tradingia.Prelude.{ℕ, ◌≡◌, ◌≢◌, ◌↔◌, Bool, true, false, Option, [], arith}
use tradingia.Prelude.Result.{ok}
use tradingia.Execution.Domain.{
  Environment, AccountTradeMode, ReconciliationState, SymbolMetadata, OrderRequest,
}
use tradingia.Execution.Policy.{
  RealMoneyPolicy, PolicyContext, decide, allow, local_reasons, remote_reasons,
  close_account_reasons, reconciliation_reasons, close_reasons, authorize_close, authorize_open,
  reduces, increases,
}
use tradingia.Execution.Policy.Open.{no_reasons_of_allow, authorize_open-allow_iff}

-- What a closing needs: an identified venue that is not live, and a reconciled one.
pub record IsClosable (c : PolicyContext) (p : RealMoneyPolicy) : Type 0 where
  pub local_demo : c.local_environment ≡ Environment.demo
  pub remote_demo : c.remote_environment ≡ Environment.demo
  pub account : c.account_known ≡ true
  pub account_not_live : c.account_trade_mode ≢ AccountTradeMode.live
  pub account_identified : c.account_trade_mode ≢ AccountTradeMode.unknown
  pub reconciled : c.reconciliation_state ≡ ReconciliationState.ok
  pub demo_only : p.live_trading_enabled ≡ false

module _ (c : PolicyContext) (r : OrderRequest) (p : RealMoneyPolicy) where
  no_reasons_iff : (close_reasons c p ≡ []) ↔ IsClosable c p
  unfolding close_reasons local_reasons remote_reasons close_account_reasons reconciliation_reasons
  no_reasons_iff = (λ h. ground arith, λ h. ground arith)

  -- For an action that closes or reduces risk, authorize_close allows it exactly when the
  -- environments are DEMO, the account is known and neither LIVE nor UNKNOWN, reconciliation is
  -- OK, and live trading is off.
  pub authorize_close-allow_iff :
      reduces r.action_kind ≡ true → (authorize_close c r p ≡ ok allow) ↔ IsClosable c p
  unfolding authorize_close decide
  authorize_close-allow_iff k = (
    λ h. no_reasons_iff.0 (no_reasons_of_allow (close_reasons c p) (rw k at h)),
    λ h. rw (k, no_reasons_iff.1 h),
  )

  -- The decision on a closing is the same whatever the kill switch, the position count, the
  -- symbol's metadata and the requested volume are.
  pub authorize_close_ignores :
      (kill : Bool) (count : Option ℕ) (metadata : Option SymbolMetadata) (r' : OrderRequest)
      → r'.action_kind ≡ r.action_kind
      → authorize_close
          (record c {
            kill_switch_active = kill;
            current_position_count = count;
            symbol_metadata = metadata;
          })
          r'
          p
        ≡ authorize_close c r p
  unfolding authorize_close close_reasons
  authorize_close_ignores kill count metadata r' same = rw same

-- A context in which an opening is allowed also allows every closing; once the kill switch is on, it
-- still allows the closing and refuses the opening.
pub kill_switch_asymmetry :
    (c : PolicyContext) (r r' : OrderRequest) (p : RealMoneyPolicy)
    → increases r.action_kind ≡ true
    → reduces r'.action_kind ≡ true
    → authorize_open c r p ≡ ok allow
    → let stopped = record c { kill_switch_active = true } in
      (authorize_close c r' p ≡ ok allow)
      × (authorize_close stopped r' p ≡ ok allow)
      × (authorize_open stopped r p ≢ ok allow)
kill_switch_asymmetry c r r' p k k' h =
    let stopped : PolicyContext = record c { kill_switch_active = true } in
    let open_now = (authorize_open-allow_iff c r p k).0 h in
    (
      (authorize_close-allow_iff c r' p k').1 (ground arith),
      (authorize_close-allow_iff stopped r' p k').1 (ground arith),
      λ h'. cc (((authorize_open-allow_iff stopped r p k).0 h').no_kill_switch),
    )

-- ===== src/Execution/Policy/Open.antt =====
-- What authorize_open (src/execution/policy.py) lets through.
use tradingia.Prelude.{
  ℤ, pos, ◌≡◌, refl, ◌↔◌, ◌≤ℤ◌, ◌<ℤ◌, ℕ, Bool, true, false, Option, none, some, List, [], ◌∷◌, ◌++◌,
  arith,
}
use tradingia.Prelude.Result.{Result, ok}
use tradingia.Execution.Domain.{
  Decimal, Environment, AccountTradeMode, ReconciliationState, SymbolMetadata, OrderRequest,
}
use tradingia.Execution.Policy.{
  WrongActionKind, PolicyDecision, RealMoneyPolicy, PolicyContext, Reason, decide, allow, append_if,
  local_reasons, remote_reasons, open_account_reasons, reconciliation_reasons, position_reasons,
  volume_reasons, open_reasons, authorize_open, increases,
}

-- The size is positive, at most the symbol's maximum, and its minimum where only that is allowed.
pub record IsSized (minimum_only : Bool) (volume : Decimal) (m : SymbolMetadata) : Type 0 where
  pub minimal : minimum_only ≡ true → volume ≡ m.volume_min
  pub capped : volume ≤ℤ m.volume_max
  pub positive : pos 0 <ℤ volume

-- Every fact that an opening needs is known, and says DEMO.
pub record IsOpenable (c : PolicyContext) (r : OrderRequest) (p : RealMoneyPolicy) : Type 0 where
  pub demo_only : p.live_trading_enabled ≡ false
  pub local_demo : c.local_environment ≡ Environment.demo
  pub remote_demo : c.remote_environment ≡ Environment.demo
  pub account : c.account_known ≡ true
  pub account_demo : c.account_trade_mode ≡ AccountTradeMode.demo
  pub reconciled : c.reconciliation_state ≡ ReconciliationState.ok
  pub no_kill_switch : c.kill_switch_active ≡ false
  pub room : (n : ℕ) × (c.current_position_count ≡ some n) × (pos n <ℤ p.max_simultaneous_positions)
  pub sized :
      (m : SymbolMetadata) × (c.symbol_metadata ≡ some m) × IsSized p.minimum_volume_only r.volume m

append-eq-nil {ℓ} : {A : Type ℓ} (xs ys : List A) → xs ++ ys ≡ [] → (xs ≡ []) × (ys ≡ [])
append-eq-nil [] ys h = (refl, h)
append-eq-nil (x ∷ xs) ys h = cc

pub no_reasons_of_allow :
    (rs : List Reason)
    → ◌≡◌ {A = Result WrongActionKind PolicyDecision} (ok (decide rs)) (ok allow)
    → rs ≡ []
unfolding decide
no_reasons_of_allow [] h = refl
no_reasons_of_allow (r ∷ rs) h = cc

local-demo : (e : Environment) → local_reasons e ≡ [] → e ≡ Environment.demo
unfolding local_reasons
local-demo e h = ground arith

remote-demo : (e : Environment) → remote_reasons e ≡ [] → e ≡ Environment.demo
unfolding remote_reasons
remote-demo e h = ground arith

account-demo :
    (known : Bool) (m : AccountTradeMode)
    → open_account_reasons known m ≡ []
    → (known ≡ true) × (m ≡ AccountTradeMode.demo)
unfolding open_account_reasons
account-demo known m h = ground arith

reconciled-ok :
    (s : ReconciliationState) → reconciliation_reasons s ≡ [] → s ≡ ReconciliationState.ok
unfolding reconciliation_reasons
reconciled-ok s h = ground arith

room-left :
    (o : Option ℕ) (cap : ℤ) → position_reasons o cap ≡ [] → (n : ℕ) × (o ≡ some n) × (pos n <ℤ cap)
unfolding position_reasons
room-left none cap h = cc
room-left (some n) cap h = (n, refl, ground arith)

volume_reasons-IsSized :
    (minimum_only : Bool) (v : Decimal) (o : Option SymbolMetadata)
    → volume_reasons minimum_only v o ≡ []
    → (m : SymbolMetadata) × (o ≡ some m) × IsSized minimum_only v m
unfolding volume_reasons
volume_reasons-IsSized minimum_only v none h = cc
volume_reasons-IsSized minimum_only v (some m) h = (m, refl, ground arith)

module _ (c : PolicyContext) (r : OrderRequest) (p : RealMoneyPolicy) where
  open_reasons-IsOpenable : open_reasons c r p ≡ [] → IsOpenable c r p
  unfolding open_reasons
  open_reasons-IsOpenable h =
      let (h0, t0) =
        append-eq-nil (append_if p.live_trading_enabled Reason.live_trading_enabled) _ h in
      let (h1, t1) = append-eq-nil (local_reasons c.local_environment) _ t0 in
      let (h2, t2) = append-eq-nil (remote_reasons c.remote_environment) _ t1 in
      let (h3, t3) =
        append-eq-nil (open_account_reasons c.account_known c.account_trade_mode) _ t2 in
      let (h4, t4) = append-eq-nil (reconciliation_reasons c.reconciliation_state) _ t3 in
      let (h5, t5) =
        append-eq-nil (append_if c.kill_switch_active Reason.kill_switch_active) _ t4 in
      let (h6, h7) =
        append-eq-nil (position_reasons c.current_position_count p.max_simultaneous_positions) _
          t5 in
      record {
        demo_only = ground arith;
        local_demo = local-demo _ h1;
        remote_demo = remote-demo _ h2;
        account = (account-demo _ _ h3).0;
        account_demo = (account-demo _ _ h3).1;
        reconciled = reconciled-ok _ h4;
        no_kill_switch = ground arith;
        room = room-left _ _ h6;
        sized = volume_reasons-IsSized _ _ _ h7;
      }

  no_reasons_of_IsOpenable : IsOpenable c r p → open_reasons c r p ≡ []
  unfolding open_reasons local_reasons remote_reasons open_account_reasons reconciliation_reasons
      position_reasons volume_reasons
  no_reasons_of_IsOpenable h = ground arith

  -- For an action that opens or increases risk, authorize_open allows it exactly when every fact
  -- it needs is known and favourable: DEMO on all sides, reconciled, no kill switch, room for one
  -- more position, and a positive size that is the symbol's minimum where the policy says so.
  pub authorize_open-allow_iff :
      increases r.action_kind ≡ true → (authorize_open c r p ≡ ok allow) ↔ IsOpenable c r p
  unfolding authorize_open decide
  authorize_open-allow_iff k = (
    λ h. open_reasons-IsOpenable (no_reasons_of_allow (open_reasons c r p) (rw k at h)),
    λ h. rw (k, no_reasons_of_IsOpenable h),
  )

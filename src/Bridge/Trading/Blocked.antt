-- ===== src/Bridge/Trading/Blocked.antt =====
-- What keeps place_demo_order (mt5_bridge/trading.py) from sending anything.
use tradingia.Prelude.{ℕ, ◌≡◌, ◌≢◌, inl, inr}
use tradingia.Bridge.Backend.{Backend}
use tradingia.Bridge.Identity.{Hashing}
use tradingia.Bridge.Store.{ReconciliationState}
use tradingia.Bridge.Reconciliation.{run_reconciliation}
use tradingia.Bridge.Reconciliation.Report.{run_reconciliation_stores}
use tradingia.Bridge.Trading.{Env, World, DemoOrderRequest, place_demo_order}
use tradingia.Bridge.Trading.Gates.{IsGated, sent_or_IsGated}

module _ (h : Hashing) (env : Env) (request : DemoOrderRequest) where
  -- After a reconciliation whose state is not consistent, place_demo_order sends nothing, for
  -- whatever request.
  pub incomplete_rows_block_orders :
      (w : World) (b : Backend) (now : ℕ)
      → (run_reconciliation b now w.store).0.state ≢ ReconciliationState.consistent
      → let s = (run_reconciliation b now w.store).1 in
        (place_demo_order h env request (record w { store = s })).1.sent ≡ w.sent
  incomplete_rows_block_orders w b now bad =
      let after : World = record w { store = (run_reconciliation b now w.store).1 } in
      let blocked : IsGated h env request after.store
          → (run_reconciliation b now w.store).0.state ≡ ReconciliationState.consistent =
        λ gated.
          let (ready, chosen, checks, passed) = gated.chosen in
          let (report, last, good) = checks.reconciled in
          cc (run_reconciliation_stores b now w.store, last, good) in
      elim (sent_or_IsGated h env request after) [
        | inl same ↦ same
        | inr gated ↦ absurd (bad (blocked gated))
      ]

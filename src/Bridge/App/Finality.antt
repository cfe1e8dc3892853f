-- ===== src/Bridge/App/Finality.antt =====
-- What an ended request keeps over any session of the bridge (mt5_bridge/app.py).
use tradingia.Prelude.{ℕ, ◌≡◌, false, List, [], ◌∷◌, Option, some, arith}
use tradingia.Execution.Domain.{Name}
use tradingia.Bridge.Backend.{Backend}
use tradingia.Bridge.Identity.{Hashing}
use tradingia.Bridge.Store.{
  IdempotencyRecord, OrderState, is_incomplete, get_idempotency_record, set_kill_switch,
  transition_idempotency_state, append_journal, Outcome, no_outcome, ErrorCode,
}
use tradingia.Bridge.Store.Counts.{is_received_row, rows-update}
use tradingia.Bridge.Reconciliation.{run_reconciliation, resolve, resolve_received_attempt}
use tradingia.Bridge.Trading.{World, place_demo_order, close_demo_position}
use tradingia.Bridge.Trading.Final.{
  Kept, update_rows-Kept, not_received, place_demo_order-Kept, close_demo_position-Kept,
}
use tradingia.Bridge.Trading.Runs.{state_of_Ended}
use tradingia.Bridge.App.{
  Call, post_demo_order, post_demo_close, activate_kill_switch, deactivate_kill_switch,
  post_reconciliation_run, post_resolve_received, serve, serve_all, fresh_world,
}
use tradingia.Bridge.App.Session.{sent_at_most_once}

-- what resolve_received_attempt writes into the row
abbrev aborted : Outcome
aborted = record no_outcome { error_code = some ErrorCode.aborted_before_submission }

module _ (h : Hashing) (id : Name) (row : IdempotencyRecord)
    (over : is_incomplete row.state ≡ false) where
  resolve-Kept :
      (b : Backend) (magic : ℕ) (request_id : Option Name) (now journalled checked : ℕ) (j : Name)
      (w : World)
      → Kept id row over w
      → Kept id row over (record w {
        store = (resolve_received_attempt h b magic request_id now journalled checked j w.store).1;
      })
  unfolding resolve_received_attempt resolve transition_idempotency_state append_journal
      run_reconciliation
  resolve-Kept b magic request_id now journalled checked j w p =
      let t = w.store.idempotency in
      let shut = not_received row.state over in
      ground (
        arith,
        update_rows-Kept id row over (is_received_row j) OrderState.rejected aborted now t
            (ground arith) p.0,
        rows-update (is_received_row j) OrderState.rejected aborted now id t,
      )

  serve-Kept : (c : Call) (w : World) → Kept id row over w → Kept id row over (serve h c w).1
  unfolding serve
  serve-Kept (post_demo_order env request) w p =
      state_of_Ended (Kept id row over) (place_demo_order h env request w)
        ((place_demo_order-Kept id row over h env request).at w p)
  serve-Kept (post_demo_close env request) w p =
      state_of_Ended (Kept id row over) (close_demo_position h env request w)
        ((close_demo_position-Kept id row over h env request).at w p)
  serve-Kept (activate_kill_switch reason now) w p = unfold set_kill_switch in p
  serve-Kept (deactivate_kill_switch now) w p = unfold set_kill_switch in p
  serve-Kept (post_reconciliation_run b now) w p = unfold run_reconciliation in p
  serve-Kept (post_resolve_received b magic request_id now journalled checked j) w p =
      resolve-Kept b magic request_id now journalled checked j w p

  serve_all-Kept :
      (cs : List Call) (w : World) → Kept id row over w → Kept id row over (serve_all h cs w)
  unfolding serve_all
  serve_all-Kept [] w p = p
  serve_all-Kept (c ∷ cs) w p = serve_all-Kept cs (serve h c w).1 (serve-Kept c w p)

  -- In a session on a fresh store, once an id has a row that is neither RECEIVED nor SUBMITTED, that
  -- row stays as it is, with all its columns, whatever calls come after.
  pub ended_row_stays :
      (before after : List Call) (now : ℕ)
      → let w = serve_all h before (fresh_world now) in
        get_idempotency_record id w.store ≡ some row
        → get_idempotency_record id (serve_all h after w).store ≡ some row
  unfolding get_idempotency_record
  ended_row_stays before after now found =
      (serve_all-Kept after _ (found, (sent_at_most_once h id before now).1)).0

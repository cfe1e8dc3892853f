-- ===== src/Bridge/App/Session.antt =====
-- What holds over any session of the bridge (mt5_bridge/app.py).
use tradingia.Prelude.{ℕ, ◌+◌, ◌≤◌, ◌≡◌, List, [], ◌∷◌, Option, some, arith}
use tradingia.Execution.Domain.{Name}
use tradingia.Bridge.Backend.{Backend}
use tradingia.Bridge.Identity.{Hashing}
use tradingia.Bridge.Store.{
  BridgeStore, OrderState, same_state, Outcome, no_outcome, ErrorCode, init_schema, set_kill_switch,
  transition_idempotency_state, append_journal,
}
use tradingia.Bridge.Store.Counts.{
  rows_of, received_of, is_received_row, rows-update, received-update,
}
use tradingia.Bridge.Reconciliation.{run_reconciliation, resolve, resolve_received_attempt}
use tradingia.Bridge.Trading.{World, place_demo_order, close_demo_position}
use tradingia.Bridge.Trading.Room.{IsSafe, sent_of}
use tradingia.Bridge.Trading.Runs.{state_of_Ended}
use tradingia.Bridge.Trading.AtMostOnce.{place_demo_order-IsSafe, close_demo_position-IsSafe}
use tradingia.Bridge.App.{
  Call, post_demo_order, post_demo_close, activate_kill_switch, deactivate_kill_switch,
  post_reconciliation_run, post_resolve_received, serve, serve_all, fresh_world,
}

-- what resolve_received_attempt writes into the row
abbrev aborted : Outcome
aborted = record no_outcome { error_code = some ErrorCode.aborted_before_submission }

fresh-IsSafe : (id : Name) (now : ℕ) → IsSafe id (fresh_world now)
unfolding sent_of rows_of received_of init_schema
fresh-IsSafe id now = omega arith

module _ (h : Hashing) (id : Name) where
  resolve-counts :
      (b : Backend) (magic : ℕ) (request_id : Option Name) (now journalled checked : ℕ) (j : Name)
      (s : BridgeStore)
      → let s' = (resolve_received_attempt h b magic request_id now journalled checked j s).1 in
        (rows_of id s'.idempotency ≡ rows_of id s.idempotency)
        × (received_of id s'.idempotency ≤ received_of id s.idempotency)
  unfolding resolve_received_attempt resolve transition_idempotency_state append_journal
      run_reconciliation same_state
  resolve-counts b magic request_id now journalled checked j s = ground (
    arith,
    rows-update (is_received_row j) OrderState.rejected aborted now id s.idempotency,
    received-update (is_received_row j) OrderState.rejected aborted now id s.idempotency,
  )

  serve-IsSafe : (c : Call) (w : World) → IsSafe id w → IsSafe id (serve h c w).1
  unfolding serve
  serve-IsSafe (post_demo_order env request) w p =
      state_of_Ended (IsSafe id) (place_demo_order h env request w)
        ((place_demo_order-IsSafe id h env request).at w p)
  serve-IsSafe (post_demo_close env request) w p =
      state_of_Ended (IsSafe id) (close_demo_position h env request w)
        ((close_demo_position-IsSafe id h env request).at w p)
  serve-IsSafe (activate_kill_switch reason now) w p = unfold set_kill_switch in p
  serve-IsSafe (deactivate_kill_switch now) w p = unfold set_kill_switch in p
  serve-IsSafe (post_reconciliation_run b now) w p = unfold run_reconciliation in p
  serve-IsSafe (post_resolve_received b magic request_id now journalled checked j) w p =
      omega (arith, resolve-counts b magic request_id now journalled checked j w.store)

  serve_all-IsSafe : (cs : List Call) (w : World) → IsSafe id w → IsSafe id (serve_all h cs w)
  unfolding serve_all
  serve_all-IsSafe [] w p = p
  serve_all-IsSafe (c ∷ cs) w p = serve_all-IsSafe cs (serve h c w).1 (serve-IsSafe c w p)

  -- In any session on a fresh store, whatever the terminal answers, order_send is called at most
  -- once for a client_order_id, not at all while its row is RECEIVED, and the id has one row at most.
  pub sent_at_most_once :
      (cs : List Call) (now : ℕ)
      → let w = serve_all h cs (fresh_world now) in
        (sent_of id w.sent + received_of id w.store.idempotency ≤ 1)
        × (rows_of id w.store.idempotency ≤ 1)
  sent_at_most_once cs now =
      omega (arith, serve_all-IsSafe cs (fresh_world now) (fresh-IsSafe id now))

-- ===== src/Bridge/App.antt =====
-- The write endpoints of the bridge (mt5_bridge/app.py): which HTTP status each outcome has, and a
-- session as the sequence of calls that change state. A call stands here after authentication and
-- after its fields were parsed.
pub mod Finality
pub mod Session
use tradingia.Prelude.{ℕ, Bool, true, false, Option, none, List, [], ◌∷◌, if◌then◌else◌}
use tradingia.Prelude.Result.{Result, ok, err}
use tradingia.Execution.Domain.{Name}
use tradingia.Bridge.Backend.{Backend}
use tradingia.Bridge.Identity.{Hashing}
use tradingia.Bridge.Store.{BridgeStore, TradingCode, init_schema, set_kill_switch}
use tradingia.Bridge.Reconciliation.{run_reconciliation, resolve_received_attempt}
use tradingia.Bridge.Trading.{
  Failure, trading, conflict, backend_error, type_error, Env, World, DemoOrderRequest,
  DemoCloseRequest, place_demo_order, close_demo_position,
}

-- _TRADING_ERROR_STATUS
unfoldable pub trading_error_status : TradingCode → ℕ
trading_error_status TradingCode.not_demo = 403
trading_error_status TradingCode.autotrading_disabled = 403
trading_error_status TradingCode.kill_switch_active = 403
trading_error_status TradingCode.reconciliation_required = 409
trading_error_status TradingCode.symbol_not_tradable = 403
trading_error_status TradingCode.stale_quote = 409
trading_error_status TradingCode.order_check_failed = 422
trading_error_status TradingCode.order_send_failed = 502
trading_error_status TradingCode.position_not_found = 404
trading_error_status TradingCode.too_many_positions = 403
trading_error_status TradingCode.invalid_volume = 400

-- handle_unexpected_error
abbrev pub internal_error : ℕ
internal_error = 500

-- the classes in the `except` of post_demo_order
unfoldable pub post_demo_order_handles : TradingCode → Bool
post_demo_order_handles TradingCode.position_not_found = false
post_demo_order_handles _ = true

-- the classes in the `except` of post_demo_close
unfoldable pub post_demo_close_handles : TradingCode → Bool
post_demo_close_handles TradingCode.not_demo = true
post_demo_close_handles TradingCode.autotrading_disabled = true
post_demo_close_handles TradingCode.position_not_found = true
post_demo_close_handles TradingCode.stale_quote = true
post_demo_close_handles TradingCode.order_check_failed = true
post_demo_close_handles TradingCode.order_send_failed = true
post_demo_close_handles TradingCode.symbol_not_tradable = true
post_demo_close_handles _ = false

unfoldable pub failure_status : (TradingCode → Bool) → Failure → ℕ
unfolding trading_error_status
failure_status handles (trading code) =
    if handles code then trading_error_status code else internal_error
failure_status handles conflict = 409
failure_status handles backend_error = internal_error
failure_status handles type_error = internal_error

abbrev pub status : {A : Type 0} → (TradingCode → Bool) → Result Failure A → ℕ
status handles (ok a) = 200
status handles (err e) = failure_status handles e

-- one call of an endpoint that changes state, with what the outside answers to it
pub data Call : Type 0 where
  post_demo_order : Env → DemoOrderRequest → Call
  post_demo_close : Env → DemoCloseRequest → Call
  activate_kill_switch : Option Name → ℕ → Call
  deactivate_kill_switch : ℕ → Call
  post_reconciliation_run : Backend → ℕ → Call
  post_resolve_received : Backend → ℕ → Option Name → ℕ → ℕ → ℕ → Name → Call

abbrev pub resolution_status : {E A : Type 0} → Result E A → ℕ
resolution_status (ok a) = 200
resolution_status (err e) = 409

module _ (h : Hashing) where
  -- the status of the reply, and the state after it
  unfoldable pub serve : Call → World → ℕ × World
  serve (post_demo_order env request) w =
      let (r, w') = place_demo_order h env request w in (status post_demo_order_handles r, w')
  serve (post_demo_close env request) w =
      let (r, w') = close_demo_position h env request w in (status post_demo_close_handles r, w')
  serve (activate_kill_switch reason now) w =
      (200, record w { store = set_kill_switch true reason now w.store })
  serve (deactivate_kill_switch now) w =
      (200, record w { store = set_kill_switch false none now w.store })
  serve (post_reconciliation_run b now) w =
      (200, record w { store = (run_reconciliation b now w.store).1 })
  serve (post_resolve_received b magic request_id now journalled checked id) w =
      let (r, s) =
        resolve_received_attempt h b magic request_id now journalled checked id w.store in
      (resolution_status r, record w { store = s })

  unfoldable pub serve_all : List Call → World → World
  unfolding serve
  serve_all [] w = w
  serve_all (c ∷ cs) w = serve_all cs (serve c w).1

-- a bridge that starts on a fresh file
abbrev pub fresh_world : ℕ → World
fresh_world now = record { store = init_schema now; sent = [] }

-- ===== src/Bridge/Trading/Guards.antt =====
-- The checks of mt5_bridge/trading.py that stand before order_check. They read the backend and the
-- store and change neither.
use tradingia.Prelude.{
  ℕ, ◌==◌, leb, eqb_ℤ, Bool, true, false, not, Option, none, some, List, [], ◌∷◌, length,
  if◌then◌else◌,
}
use tradingia.Prelude.Result.{Result, ok, err, ◌>>=◌, ◌>>◌}
use tradingia.Execution.Domain.{Decimal, Name, Side}
use tradingia.Bridge.QuoteFreshness
use tradingia.Bridge.QuoteFreshness.{validate_quote_freshness}
use tradingia.Bridge.Backend.{
  BackendSymbolInfo, BackendTick, BackendPosition, MarketOrderType, TradeRequest,
}
use tradingia.Bridge.Store.{BridgeStore, TradingCode, ReconciliationState, get_kill_switch}
use tradingia.Bridge.Identity.{Hashing, build_mt5_comment}
use tradingia.Bridge.Reconciliation.{get_reconciliation_status}
use tradingia.Bridge.Trading.Monad.{Failure, trading, backend_error, Env}

pub record DemoOrderRequest : Type 0 where
  pub client_order_id : Name
  pub symbol : Name
  pub side : Side
  pub volume : Decimal

pub record DemoCloseRequest : Type 0 where
  pub client_order_id : Name
  pub position_id : ℕ

-- `flag is True`
abbrev pub is_true : Option Bool → Bool
is_true none = false
is_true (some b) = b

-- `code != 0` raises, and None is not 0
abbrev pub is_demo_code : Option ℕ → Bool
is_demo_code none = false
is_demo_code (some code) = code == 0

-- the value, or the TradingError that the code raises for its absence
abbrev pub found : {A : Type 0} → TradingCode → Option A → Result Failure A
found code none = err (trading code)
found code (some a) = ok a

-- a backend call whose MT5BackendError is not caught
abbrev pub answered : {A : Type 0} → Option A → Result Failure A
answered none = err backend_error
answered (some a) = ok a

abbrev pub refuse_unless : Bool → TradingCode → Result Failure (Unit {0})
refuse_unless true code = ok tt
refuse_unless false code = err (trading code)

unfoldable pub require_fresh_demo_account : Env → Result Failure (Unit {0})
require_fresh_demo_account env = do
  account ← found TradingCode.not_demo env.backend.account_info
  refuse_unless (is_demo_code account.trade_mode_code) TradingCode.not_demo
  refuse_unless env.backend.is_connected TradingCode.not_demo

unfoldable pub require_trading_permissions : Env → Result Failure (Unit {0})
require_trading_permissions env = do
  terminal ← found TradingCode.autotrading_disabled env.backend.terminal_info
  account ← found TradingCode.autotrading_disabled env.backend.account_info_again
  refuse_unless terminal.connected TradingCode.autotrading_disabled
  refuse_unless terminal.trade_allowed TradingCode.autotrading_disabled
  refuse_unless (is_true account.trade_allowed) TradingCode.autotrading_disabled
  refuse_unless (is_true account.trade_expert) TradingCode.autotrading_disabled

unfoldable pub require_symbol_tradable : Env → Name → Result Failure BackendSymbolInfo
require_symbol_tradable env symbol = do
  answer ← answered (env.backend.symbol_info symbol)
  info ← found TradingCode.symbol_not_tradable answer
  refuse_unless info.visible TradingCode.symbol_not_tradable
  refuse_unless (is_true info.trade_enabled) TradingCode.symbol_not_tradable
  ok info

abbrev pub fresh_or_stale :
    BackendTick
    → Result QuoteFreshness.Reason QuoteFreshness.QuoteFreshnessResult
    → Result Failure BackendTick
fresh_or_stale tick (ok r) = ok tick
fresh_or_stale tick (err reason) = err (trading TradingCode.stale_quote)

unfoldable pub require_fresh_quote : Env → Name → Result Failure BackendTick
require_fresh_quote env symbol = do
  answer ← answered (env.backend.symbol_info_tick symbol)
  tick ← found TradingCode.stale_quote answer
  fresh_or_stale tick (
      validate_quote_freshness tick.time_utc env.clock.quoted env.max_quote_age_seconds
        env.max_quote_future_skew_seconds)

abbrev pub is_consistent : ReconciliationState → Bool
is_consistent ReconciliationState.consistent = true
is_consistent _ = false

-- the quote that an order goes by, and the order itself
pub record Ready : Type 0 where
  pub tick : BackendTick
  pub reference_price : Decimal
  pub trade_request : TradeRequest

abbrev pub quoted_price : Side → BackendTick → Decimal
quoted_price Side.buy tick = tick.ask
quoted_price Side.sell tick = tick.bid

abbrev pub market_type : Side → MarketOrderType
market_type Side.buy = MarketOrderType.order_type_buy
market_type Side.sell = MarketOrderType.order_type_sell

abbrev pub opposite : Side → Side
opposite Side.buy = Side.sell
opposite Side.sell = Side.buy

-- `[p for p in positions if str(p.ticket) == position_id]`, its first
unfoldable pub find_position : ℕ → List BackendPosition → Option BackendPosition
find_position id [] = none
find_position id (p ∷ ps) = if p.ticket == id then some p else find_position id ps

module _ (h : Hashing) where
  -- the `try` block of place_demo_order, up to order_check
  unfoldable pub choose_order : Env → DemoOrderRequest → BridgeStore → Result Failure Ready
  unfolding build_mt5_comment get_kill_switch get_reconciliation_status
  choose_order env request s = do
    require_trading_permissions env
    refuse_unless (not (get_kill_switch s).active) TradingCode.kill_switch_active
    refuse_unless (is_consistent (get_reconciliation_status env.clock.status_read s).state)
        TradingCode.reconciliation_required
    positions ← answered env.backend.positions_get
    refuse_unless (not (leb env.max_positions (length positions))) TradingCode.too_many_positions
    symbol_info ← require_symbol_tradable env request.symbol
    refuse_unless (eqb_ℤ request.volume symbol_info.volume_min) TradingCode.invalid_volume
    tick ← require_fresh_quote env request.symbol
    ok (record {
      tick = tick;
      reference_price = quoted_price request.side tick;
      trade_request = record {
        symbol = request.symbol;
        volume = request.volume;
        order_type = market_type request.side;
        price = quoted_price request.side tick;
        deviation = env.deviation_points;
        magic = env.magic;
        comment = build_mt5_comment h request.client_order_id;
        position_ticket = none;
      };
    })

  -- the `try` block of close_demo_position, up to the context entry: the position, and the order
  -- on the other side that closes it whole
  unfoldable pub choose_close : Env → DemoCloseRequest → Result Failure (BackendPosition × Ready)
  unfolding build_mt5_comment
  choose_close env request = do
    require_trading_permissions env
    positions ← answered env.backend.positions_get
    position ← found TradingCode.position_not_found (find_position request.position_id positions)
    answer ← answered (env.backend.symbol_info position.symbol)
    info ← found TradingCode.symbol_not_tradable answer
    tick ← require_fresh_quote env position.symbol
    ok (
      position,
      record {
        tick = tick;
        reference_price = quoted_price (opposite position.side) tick;
        trade_request = record {
          symbol = position.symbol;
          volume = position.volume;
          order_type = market_type (opposite position.side);
          price = quoted_price (opposite position.side) tick;
          deviation = env.deviation_points;
          magic = env.magic;
          comment = build_mt5_comment h request.client_order_id;
          position_ticket = some position.ticket;
        };
      },
    )

-- ===== src/Bridge/Backend.antt =====
-- The boundary to the terminal (mt5_bridge/backend.py): plain data, and one call's answers.
-- The terminal itself is not part of the program. `Backend` holds what it answers to each call
-- that one request makes; `none` on the outside is a raised MT5BackendError.
use tradingia.Prelude.{ℕ, Bool, Option, List, zero, suc, none, some}
use tradingia.Execution.Domain.{Decimal, Name, Side}
use tradingia.Bridge.QuoteFreshness.{Timestamp}

pub data TradeModeName : Type 0 where
  demo contest live unknown : TradeModeName

unfoldable pub trade_mode_code_to_string : Option ℕ → TradeModeName
trade_mode_code_to_string none = unknown
trade_mode_code_to_string (some zero) = demo
trade_mode_code_to_string (some (suc zero)) = contest
trade_mode_code_to_string (some (suc (suc zero))) = live
trade_mode_code_to_string (some (suc (suc (suc n)))) = unknown

pub record BackendTerminalInfo : Type 0 where
  pub connected : Bool
  pub trade_allowed : Bool

pub record BackendAccountInfo : Type 0 where
  pub login : ℕ
  pub trade_mode_code : Option ℕ
  pub trade_allowed : Option Bool
  pub trade_expert : Option Bool

pub record BackendSymbolInfo : Type 0 where
  pub name : Name
  pub volume_min : Decimal
  pub volume_step : Decimal
  pub volume_max : Decimal
  pub trade_enabled : Option Bool
  pub visible : Bool

pub record BackendTick : Type 0 where
  pub symbol : Name
  pub time_utc : Timestamp
  pub bid : Decimal
  pub ask : Decimal

pub record BackendPosition : Type 0 where
  pub ticket : ℕ
  pub symbol : Name
  pub side : Side
  pub volume : Decimal
  pub price_open : Decimal
  pub magic : Option ℕ
  pub comment : Option Name

pub record BackendOrder : Type 0 where
  pub ticket : ℕ
  pub symbol : Name
  pub side : Side
  pub volume_initial : Decimal
  pub comment : Option Name
  pub magic : Option ℕ

-- ORDER_TYPE_BUY and ORDER_TYPE_SELL
pub data MarketOrderType : Type 0 where
  order_type_buy order_type_sell : MarketOrderType

pub record TradeRequest : Type 0 where
  pub symbol : Name
  pub volume : Decimal
  pub order_type : MarketOrderType
  pub price : Decimal
  pub deviation : ℕ
  pub magic : ℕ
  pub comment : Name
  pub position_ticket : Option ℕ

pub record TradeCheckResult : Type 0 where
  pub passed : Bool
  pub retcode : Option ℕ

pub record TradeSendResult : Type 0 where
  pub retcode : ℕ
  pub deal : Option ℕ
  pub order : Option ℕ
  pub volume : Option Decimal
  pub price : Option Decimal

abbrev pub trade_retcode_done : ℕ
trade_retcode_done = 10009

-- One answer for each call that a request makes: account_info is asked twice, and may change.
pub record Backend : Type 0 where
  pub account_info : Option BackendAccountInfo
  pub is_connected : Bool
  pub terminal_info : Option BackendTerminalInfo
  pub account_info_again : Option BackendAccountInfo
  pub positions_get : Option (List BackendPosition)
  pub orders_get : Option (List BackendOrder)
  pub symbol_info : Name → Option (Option BackendSymbolInfo)
  pub symbol_info_tick : Name → Option (Option BackendTick)
  pub order_check : TradeRequest → Option TradeCheckResult
  pub order_send : TradeRequest → Option TradeSendResult

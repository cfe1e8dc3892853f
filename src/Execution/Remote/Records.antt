-- ===== src/Execution/Remote/Records.antt =====
-- The records of src/execution/base.py that the client fills from an answer.
use Prim.Native.String.{String}
use tradingia.Prelude.{ℤ, Bool, Option, List}
use tradingia.Execution.Domain.{
  Decimal, AccountTradeMode, ReconciliationState, Side, OrderStatus, KillSwitchStatus,
}
use tradingia.Execution.QuoteFreshness.{Timestamp}
use tradingia.Execution.Remote.Json.{Json}

pub record Quote : Type 0 where
  pub symbol : String
  pub bid : Decimal
  pub ask : Decimal
  pub timestamp : Timestamp

pub record TerminalStatus : Type 0 where
  pub connected : Bool
  pub trade_allowed : Bool
  pub dlls_allowed : Option Bool
  pub name : Option String
  pub company : Option String
  pub build : Option ℤ

pub record AccountSummary : Type 0 where
  pub account_id : String
  pub trade_mode : AccountTradeMode
  pub balance : Decimal
  pub equity : Decimal
  pub currency : String
  pub trade_allowed : Option Bool
  pub trade_expert : Option Bool
  pub server : Option String

pub record Position : Type 0 where
  pub position_id : String
  pub symbol : String
  pub side : Side
  pub volume : Decimal
  pub open_price : Decimal

pub record ExecutionResult : Type 0 where
  pub client_order_id : String
  pub status : OrderStatus
  pub broker_order_id : Option Json
  pub deal_id : Option Json
  pub position_id : Option Json
  pub fill_price : Option Decimal
  pub filled_volume : Option Decimal
  pub requested_volume : Option Decimal
  pub observed_bid : Option Decimal
  pub observed_ask : Option Decimal
  pub reference_price : Option Decimal
  pub slippage : Option Decimal
  pub mt5_retcode : Option Json
  pub timestamp : Timestamp
  pub idempotent_replay : Bool
  pub error_message : Option Json

pub record CloseResult : Type 0 where
  pub client_order_id : String
  pub position_id : String
  pub status : OrderStatus
  pub closed_volume : Option Decimal
  pub observed_bid : Option Decimal
  pub observed_ask : Option Decimal
  pub reference_price : Option Decimal
  pub fill_price : Option Decimal
  pub slippage : Option Decimal
  pub deal_id : Option Json
  pub mt5_retcode : Option Json
  pub timestamp : Timestamp
  pub idempotent_replay : Bool
  pub error_message : Option Json

pub record KillSwitchState : Type 0 where
  pub status : KillSwitchStatus
  pub changed_at : Option Timestamp
  pub reason : Option Json

pub record ReconciliationReport : Type 0 where
  pub state : ReconciliationState
  pub checked_at : Timestamp
  pub details : List String

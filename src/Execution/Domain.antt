-- ===== src/Execution/Domain.antt =====
-- The execution vocabulary of src/execution/base.py.
-- A `Decimal` is an integer count of a fixed quantum. What is modelled apart from the HTTP client only
-- asks whether two texts are equal, and has numbers for them.
use Prim.Native.String.{String}
use tradingia.Prelude.{ℕ, ℤ, Option}

abbrev pub Decimal : Type 0
Decimal = ℤ

-- a text of which the program only asks whether it equals another
abbrev pub Name : Type 0
Name = ℕ

pub data Environment : Type 0 where
  demo live unknown : Environment

pub data AccountTradeMode : Type 0 where
  demo live contest unknown : AccountTradeMode

pub data ReconciliationState : Type 0 where
  ok mismatch unknown : ReconciliationState

pub data Side : Type 0 where
  buy sell : Side

pub data OrderType : Type 0 where
  market limit : OrderType

pub data ActionKind : Type 0 where
  opening increase close reduce : ActionKind

pub record SymbolMetadata : Type 0 where
  pub symbol : String
  pub volume_min : Decimal
  pub volume_step : Decimal
  pub volume_max : Decimal
  pub contract_size : Decimal
  pub digits : ℤ
  pub point : Decimal
  pub tick_size : Option Decimal
  pub tick_value : Option Decimal
  pub currency_base : Option String
  pub currency_profit : Option String
  pub currency_margin : Option String
  pub swap_long : Option Decimal
  pub swap_short : Option Decimal
  pub swap_mode : Option ℤ
  pub swap_rollover3days : Option ℤ

pub record OrderRequest : Type 0 where
  pub client_order_id : String
  pub symbol : String
  pub side : Side
  pub order_type : OrderType
  pub volume : Decimal
  pub action_kind : ActionKind
  pub limit_price : Option Decimal
  pub position_id : Option String

pub data OrderStatus : Type 0 where
  accepted filled rejected error : OrderStatus

pub data KillSwitchStatus : Type 0 where
  active inactive : KillSwitchStatus

-- ===== src/Bridge/Store/Rows.antt =====
-- The rows of the idempotency table (mt5_bridge/store.py), and the statements on them.
use tradingia.Prelude.{
  ℕ, ◌==◌, Bool, true, false, Option, none, some, List, [], ◌∷◌, coalesce, if◌then◌else◌,
}
use tradingia.Execution.Domain.{Decimal, Name}

pub data OrderState : Type 0 where
  received submitted filled rejected needs_reconciliation : OrderState

unfoldable pub same_state : OrderState → OrderState → Bool
same_state OrderState.received OrderState.received = true
same_state OrderState.submitted OrderState.submitted = true
same_state OrderState.filled OrderState.filled = true
same_state OrderState.rejected OrderState.rejected = true
same_state OrderState.needs_reconciliation OrderState.needs_reconciliation = true
same_state _ _ = false

-- `state IN ('received', 'submitted')`
unfoldable pub is_incomplete : OrderState → Bool
is_incomplete OrderState.received = true
is_incomplete OrderState.submitted = true
is_incomplete _ = false

-- the `code` of each subclass of TradingError
pub data TradingCode : Type 0 where
  not_demo autotrading_disabled kill_switch_active reconciliation_required : TradingCode
  symbol_not_tradable stale_quote order_check_failed order_send_failed : TradingCode
  position_not_found too_many_positions invalid_volume : TradingCode

pub data ErrorCode : Type 0 where
  trading : TradingCode → ErrorCode
  retcode : ℕ → ErrorCode
  aborted_before_submission : ErrorCode

-- The stored result of an order; Decimals and instants are stored as texts and read back.
pub record OrderPayload : Type 0 where
  pub client_order_id : Name
  pub broker_order_id : Option ℕ
  pub deal_id : Option ℕ
  pub position_id : Option ℕ
  pub requested_volume : Decimal
  pub filled_volume : Decimal
  pub observed_bid : Decimal
  pub observed_ask : Decimal
  pub reference_price : Decimal
  pub fill_price : Decimal
  pub slippage : Decimal
  pub mt5_retcode : ℕ
  pub timestamp : ℕ

pub record ClosePayload : Type 0 where
  pub client_order_id : Name
  pub position_id : ℕ
  pub closed_volume : Decimal
  pub observed_bid : Decimal
  pub observed_ask : Decimal
  pub reference_price : Decimal
  pub fill_price : Decimal
  pub slippage : Decimal
  pub deal_id : Option ℕ
  pub mt5_retcode : ℕ
  pub timestamp : ℕ

pub data ResultPayload : Type 0 where
  opened : OrderPayload → ResultPayload
  closed : ClosePayload → ResultPayload

pub record IdempotencyRecord : Type 0 where
  pub client_order_id : Name
  pub request_hash : ℕ
  pub state : OrderState
  pub created_at : ℕ
  pub updated_at : ℕ
  pub broker_order_id : Option ℕ
  pub deal_id : Option ℕ
  pub position_id : Option ℕ
  pub result_payload : Option ResultPayload
  pub error_code : Option ErrorCode

-- the optional columns of an UPDATE: COALESCE keeps the old value where one is None
pub record Outcome : Type 0 where
  pub broker_order_id : Option ℕ
  pub deal_id : Option ℕ
  pub position_id : Option ℕ
  pub result_payload : Option ResultPayload
  pub error_code : Option ErrorCode

abbrev pub no_outcome : Outcome
no_outcome = record {
  broker_order_id = none;
  deal_id = none;
  position_id = none;
  result_payload = none;
  error_code = none;
}

-- the row that begin_idempotent_request inserts
abbrev pub fresh_record : Name → ℕ → ℕ → IdempotencyRecord
fresh_record id hash now = record {
  client_order_id = id;
  request_hash = hash;
  state = OrderState.received;
  created_at = now;
  updated_at = now;
  broker_order_id = none;
  deal_id = none;
  position_id = none;
  result_payload = none;
  error_code = none;
}

abbrev pub update_row : OrderState → Outcome → ℕ → IdempotencyRecord → IdempotencyRecord
update_row new out now r = record r {
  state = new;
  updated_at = now;
  broker_order_id = coalesce out.broker_order_id r.broker_order_id;
  deal_id = coalesce out.deal_id r.deal_id;
  position_id = coalesce out.position_id r.position_id;
  result_payload = coalesce out.result_payload r.result_payload;
  error_code = coalesce out.error_code r.error_code;
}

-- `SELECT * ... WHERE client_order_id = ?`, its first row
unfoldable pub find_row : Name → List IdempotencyRecord → Option IdempotencyRecord
find_row id [] = none
find_row id (r ∷ rs) = if r.client_order_id == id then some r else find_row id rs

-- `UPDATE idempotency SET ... WHERE hit`
unfoldable pub update_rows :
    (IdempotencyRecord → Bool)
    → OrderState
    → Outcome
    → ℕ
    → List IdempotencyRecord
    → List IdempotencyRecord
update_rows hit new out now [] = []
update_rows hit new out now (r ∷ rs) =
    (if hit r then update_row new out now r else r) ∷ update_rows hit new out now rs

abbrev pub state_of : Option IdempotencyRecord → Option OrderState
state_of none = none
state_of (some r) = some r.state

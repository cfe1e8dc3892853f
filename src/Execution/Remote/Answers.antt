-- ===== src/Execution/Remote/Answers.antt =====
-- The bridge's answers as the client reads them: the `_parse_...` functions of
-- src/execution/mt5_remote.py, and the records of src/execution/base.py that they fill.
use Prim.Native.String.{String}
use tradingia.Prelude.{
  pos, leb_ℤ, ltb_ℤ, false, not, ◌||◌, Option, none, some, get_or, List, [], ◌∷◌, if◌then◌else◌,
}
use tradingia.Prelude.Result.{Result, ok, err, raise_if, ◌>>=◌, ◌>>◌}
use tradingia.Execution.Domain.{KillSwitchStatus, SymbolMetadata}
use tradingia.Execution.Remote.Json.{
  Json, Items, Fields, Python, lookup, given, is_text, str, truthy,
}
use tradingia.Execution.Remote.Values.{
  ClientError, require_mapping, require_field, parse_decimal, parse_optional_decimal,
  parse_utc_timestamp, parse_optional_timestamp, parse_trade_mode, parse_side, parse_order_status,
  parse_reconciliation_state, parse_bool, parse_optional_bool, parse_optional_text,
  parse_optional_int, parse_int, nonempty_text,
}
use tradingia.Execution.Remote.Records.{
  Quote, TerminalStatus, AccountSummary, Position, ExecutionResult, CloseResult, KillSwitchState,
  ReconciliationReport,
}

unfoldable pub parse_terminal : Fields → Result ClientError TerminalStatus
parse_terminal payload = do
  connected ← require_field payload "connected"
  trade_allowed ← require_field payload "trade_allowed"
  is_connected ← parse_bool connected
  is_allowed ← parse_bool trade_allowed
  dlls_allowed ← parse_optional_bool (lookup "dlls_allowed" payload)
  name ← parse_optional_text (lookup "name" payload)
  company ← parse_optional_text (lookup "company" payload)
  build ← parse_optional_int (lookup "build" payload)
  ok (record {
    connected = is_connected;
    trade_allowed = is_allowed;
    dlls_allowed = dlls_allowed;
    name = name;
    company = company;
    build = build;
  })

-- `details` may be missing, and is then empty
abbrev strs : Python → Items → List String
strs py Items.nil = []
strs py (Items.cons v vs) = str py v ∷ strs py vs

unfoldable pub parse_details : Python → Option Json → Result ClientError (List String)
parse_details py none = ok []
parse_details py (some (Json.array vs)) = ok (strs py vs)
parse_details py (some v) = err ClientError.protocol

abbrev kill_switch_status_of : Json → Result ClientError KillSwitchStatus
kill_switch_status_of v =
    if is_text "active" v
    then ok KillSwitchStatus.active
    else if is_text "inactive" v
    then ok KillSwitchStatus.inactive
    else err ClientError.protocol

-- the answer names the symbol that was asked for, or none
unfoldable pub check_symbol : Fields → String → Result ClientError (Unit {0})
check_symbol payload requested =
    raise_if (not (is_text requested (get_or (lookup "symbol" payload) (Json.string requested))))
      ClientError.protocol

module _ (py : Python) where
  unfoldable pub parse_account : Fields → Result ClientError AccountSummary
  parse_account payload = do
    account_id ← require_field payload "account_id" >>= nonempty_text
    currency ← require_field payload "currency" >>= nonempty_text
    balance ← require_field payload "balance" >>= parse_decimal py
    equity ← require_field payload "equity" >>= parse_decimal py
    server ← parse_optional_text (lookup "server" payload)
    trade_allowed ← parse_optional_bool (lookup "trade_allowed" payload)
    trade_expert ← parse_optional_bool (lookup "trade_expert" payload)
    ok (record {
      account_id = account_id;
      trade_mode = parse_trade_mode (lookup "trade_mode" payload);
      balance = balance;
      equity = equity;
      currency = currency;
      trade_allowed = trade_allowed;
      trade_expert = trade_expert;
      server = server;
    })

  unfoldable pub parse_quote : Fields → String → Result ClientError Quote
  unfolding check_symbol
  parse_quote payload requested = do
    check_symbol payload requested
    bid ← require_field payload "bid" >>= parse_decimal py
    ask ← require_field payload "ask" >>= parse_decimal py
    timestamp ← require_field payload "timestamp" >>= parse_utc_timestamp py
    raise_if (leb_ℤ bid (pos 0)) ClientError.protocol
    raise_if (leb_ℤ ask (pos 0)) ClientError.protocol
    raise_if (ltb_ℤ ask bid) ClientError.protocol
    ok (record { symbol = requested; bid = bid; ask = ask; timestamp = timestamp })

  unfoldable pub parse_symbol_metadata : Fields → String → Result ClientError SymbolMetadata
  unfolding check_symbol
  parse_symbol_metadata payload requested = do
    check_symbol payload requested
    volume_min ← require_field payload "volume_min" >>= parse_decimal py
    volume_step ← require_field payload "volume_step" >>= parse_decimal py
    volume_max ← require_field payload "volume_max" >>= parse_decimal py
    contract_size ← require_field payload "trade_contract_size" >>= parse_decimal py
    digits ← require_field payload "digits" >>= parse_int
    point ← require_field payload "point" >>= parse_decimal py
    raise_if (leb_ℤ volume_min (pos 0) || (leb_ℤ volume_step (pos 0) || leb_ℤ volume_max (pos 0)))
        ClientError.protocol
    raise_if (ltb_ℤ volume_max volume_min) ClientError.protocol
    tick_size ← parse_optional_decimal py (lookup "trade_tick_size" payload)
    tick_value ← parse_optional_decimal py (lookup "trade_tick_value" payload)
    swap_long ← parse_optional_decimal py (lookup "swap_long" payload)
    swap_short ← parse_optional_decimal py (lookup "swap_short" payload)
    swap_mode ← parse_optional_int (lookup "swap_mode" payload)
    swap_rollover3days ← parse_optional_int (lookup "swap_rollover3days" payload)
    currency_base ← parse_optional_text (lookup "currency_base" payload)
    currency_profit ← parse_optional_text (lookup "currency_profit" payload)
    currency_margin ← parse_optional_text (lookup "currency_margin" payload)
    ok (record {
      symbol = requested;
      volume_min = volume_min;
      volume_step = volume_step;
      volume_max = volume_max;
      contract_size = contract_size;
      digits = digits;
      point = point;
      tick_size = tick_size;
      tick_value = tick_value;
      currency_base = currency_base;
      currency_profit = currency_profit;
      currency_margin = currency_margin;
      swap_long = swap_long;
      swap_short = swap_short;
      swap_mode = swap_mode;
      swap_rollover3days = swap_rollover3days;
    })

  unfoldable pub parse_position : Fields → Result ClientError Position
  parse_position payload = do
    position_id ← require_field payload "position_id"
    symbol ← require_field payload "symbol"
    side ← require_field payload "side" >>= parse_side
    volume ← require_field payload "volume" >>= parse_decimal py
    open_price ← require_field payload "open_price" >>= parse_decimal py
    raise_if (leb_ℤ volume (pos 0)) ClientError.protocol
    ok (record {
      position_id = str py position_id;
      symbol = str py symbol;
      side = side;
      volume = volume;
      open_price = open_price;
    })

  unfoldable pub parse_position_items : Items → Result ClientError (List Position)
  parse_position_items Items.nil = ok []
  parse_position_items (Items.cons v vs) = do
    position ← require_mapping v >>= parse_position
    rest ← parse_position_items vs
    ok (position ∷ rest)

  unfoldable pub parse_positions : Fields → Result ClientError (List Position)
  parse_positions payload = require_field payload "positions" >>= λ items. elim items [
    | Json.array vs ↦ parse_position_items vs
    | _ ↦ err ClientError.protocol
  ]

  unfoldable pub parse_order_result : Fields → Result ClientError ExecutionResult
  parse_order_result payload = do
    client_order_id ← require_field payload "client_order_id"
    status ← parse_order_status (lookup "status" payload)
    fill_price ← parse_optional_decimal py (lookup "fill_price" payload)
    filled_volume ← parse_optional_decimal py (lookup "filled_volume" payload)
    requested_volume ← parse_optional_decimal py (lookup "requested_volume" payload)
    observed_bid ← parse_optional_decimal py (lookup "observed_bid" payload)
    observed_ask ← parse_optional_decimal py (lookup "observed_ask" payload)
    reference_price ← parse_optional_decimal py (lookup "reference_price" payload)
    slippage ← parse_optional_decimal py (lookup "slippage" payload)
    timestamp ← require_field payload "timestamp" >>= parse_utc_timestamp py
    ok (record {
      client_order_id = str py client_order_id;
      status = status;
      broker_order_id = given (lookup "broker_order_id" payload);
      deal_id = given (lookup "deal_id" payload);
      position_id = given (lookup "position_id" payload);
      fill_price = fill_price;
      filled_volume = filled_volume;
      requested_volume = requested_volume;
      observed_bid = observed_bid;
      observed_ask = observed_ask;
      reference_price = reference_price;
      slippage = slippage;
      mt5_retcode = given (lookup "mt5_retcode" payload);
      timestamp = timestamp;
      idempotent_replay = truthy (get_or (lookup "idempotent_replay" payload) (Json.boolean false));
      error_message = given (lookup "error_message" payload);
    })

  unfoldable pub parse_close_result : Fields → Result ClientError CloseResult
  parse_close_result payload = do
    client_order_id ← require_field payload "client_order_id"
    position_id ← require_field payload "position_id"
    status ← parse_order_status (lookup "status" payload)
    closed_volume ← parse_optional_decimal py (lookup "closed_volume" payload)
    observed_bid ← parse_optional_decimal py (lookup "observed_bid" payload)
    observed_ask ← parse_optional_decimal py (lookup "observed_ask" payload)
    reference_price ← parse_optional_decimal py (lookup "reference_price" payload)
    fill_price ← parse_optional_decimal py (lookup "fill_price" payload)
    slippage ← parse_optional_decimal py (lookup "slippage" payload)
    timestamp ← require_field payload "timestamp" >>= parse_utc_timestamp py
    ok (record {
      client_order_id = str py client_order_id;
      position_id = str py position_id;
      status = status;
      closed_volume = closed_volume;
      observed_bid = observed_bid;
      observed_ask = observed_ask;
      reference_price = reference_price;
      fill_price = fill_price;
      slippage = slippage;
      deal_id = given (lookup "deal_id" payload);
      mt5_retcode = given (lookup "mt5_retcode" payload);
      timestamp = timestamp;
      idempotent_replay = truthy (get_or (lookup "idempotent_replay" payload) (Json.boolean false));
      error_message = given (lookup "error_message" payload);
    })

  unfoldable pub parse_kill_switch_state : Fields → Result ClientError KillSwitchState
  parse_kill_switch_state payload = do
    status_raw ← require_field payload "status"
    status ← kill_switch_status_of status_raw
    changed_at ← parse_optional_timestamp py (lookup "changed_at" payload)
    ok (record {
      status = status;
      changed_at = changed_at;
      reason = given (lookup "reason" payload);
    })

  unfoldable pub parse_reconciliation_report : Fields → Result ClientError ReconciliationReport
  parse_reconciliation_report payload = do
    state_raw ← require_field payload "state"
    checked_at ← require_field payload "checked_at" >>= parse_utc_timestamp py
    details ← parse_details py (lookup "details" payload)
    ok (record {
      state = parse_reconciliation_state state_raw;
      checked_at = checked_at;
      details = details;
    })

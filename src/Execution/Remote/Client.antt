-- ===== src/Execution/Remote/Client.antt =====
-- MT5RemoteExecutionClient (src/execution/mt5_remote.py). The answers of the
-- wire are a parameter.
use Prim.Native.String.{String}
use Prim.Native.Char.{code}
use text.Mathlib.Text.{◌==◌, find?}
use tradingia.Prelude.{
  ℕ, leb, ltb, suc, ◌==◌ as eq, Bool, true, ◌||◌, ◌&&◌, Option, none, some, is_some, List, [], ◌∷◌,
  if◌then◌else◌,
}
use tradingia.Prelude.Result.{Result, ok, err}
use tradingia.Execution.Domain.{Side, SymbolMetadata, OrderRequest}
use tradingia.Execution.Remote.Json.{Json, Fields, Python}
use tradingia.Execution.Remote.Values.{ClientError}
use tradingia.Execution.Remote.Http.{get_json, post_json}
use tradingia.Execution.Remote.Answers.{
  parse_terminal, parse_account, parse_symbol_metadata, parse_quote, parse_positions,
  parse_order_result, parse_close_result, parse_kill_switch_state, parse_reconciliation_report,
}
use tradingia.Execution.Remote.Records.{
  Quote, TerminalStatus, AccountSummary, Position, ExecutionResult, CloseResult, KillSwitchState,
  ReconciliationReport,
}
use tradingia.Execution.Remote.Calls.{
  Endpoint, WriteEndpoint, Sent, Wire, Call, raising, answered, ◌>>=◌,
}

-- `str.isspace` of a character
unfoldable pub is_space : ℕ → Bool
is_space c =
    (leb 9 c && leb c 13)
    || ((leb 28 c && leb c 32)
        || (eq c 133
            || (eq c 160
                || (eq c 5760
                    || ((leb 8192 c && leb c 8202)
                        || (eq c 8232
                            || (eq c 8233 || (eq c 8239 || (eq c 8287 || eq c 12288)))))))))

-- `not symbol.strip()`
unfoldable pub is_blank : String → Bool
is_blank String.[] = true
is_blank (String.◌∷◌ c s) = let rest = is_blank s in is_space (code c) && rest

abbrev has : String → String → Bool
has part s = is_some (find? s part)

-- the empty symbol is blank
unfoldable pub validate_symbol_for_path : Python → String → Result ClientError String
validate_symbol_for_path py name =
    if is_blank name
    then err ClientError.value_error
    else if has "/" name || (has "\\" name || has ".." name)
    then err ClientError.value_error
    else ok (py.urlquote name)

abbrev pub side_value : Side → String
side_value Side.buy = "buy"
side_value Side.sell = "sell"

pub record CloseRequest : Type 0 where
  pub client_order_id : String
  pub position_id : String

module _ (wire : Wire) where
  abbrev py : Python
  py = wire.python

  unfoldable pub get_request : Endpoint → Call ClientError Fields
  get_request path = record { sent = Sent.get path ∷ []; outcome = get_json (wire.on_get path) }

  unfoldable pub post_request : WriteEndpoint → Fields → Call ClientError Fields
  post_request path body = record {
    sent = Sent.post path body ∷ [];
    outcome = post_json py (wire.on_post path body);
  }

  unfoldable pub terminal : Call ClientError TerminalStatus
  terminal = get_request Endpoint.terminal >>= λ payload. answered (parse_terminal payload)

  unfoldable pub account : Call ClientError AccountSummary
  account = get_request Endpoint.account >>= λ payload. answered (parse_account py payload)

  unfoldable pub symbol_metadata : String → Call ClientError SymbolMetadata
  symbol_metadata name = answered (validate_symbol_for_path py name) >>= λ safe_symbol.
      get_request (Endpoint.symbol_at safe_symbol) >>= λ payload.
      answered (parse_symbol_metadata py payload name)

  unfoldable pub quote : String → Call ClientError Quote
  quote name = answered (validate_symbol_for_path py name) >>= λ safe_symbol.
      get_request (Endpoint.quote_at safe_symbol) >>= λ payload.
      answered (parse_quote py payload name)

  unfoldable pub positions : Call ClientError (List Position)
  positions = get_request Endpoint.positions >>= λ payload. answered (parse_positions py payload)

  unfoldable pub kill_switch_status : Call ClientError KillSwitchState
  kill_switch_status =
      get_request Endpoint.kill_switch >>= λ payload. answered (parse_kill_switch_state py payload)

  unfoldable pub reconciliation_status : Call ClientError ReconciliationReport
  reconciliation_status = get_request Endpoint.reconciliation >>= λ payload.
      answered (parse_reconciliation_report py payload)

  -- the body names the order type and the action of no request: the path decides
  unfoldable pub order_body : OrderRequest → Fields
  order_body r = Fields.field "client_order_id" (Json.string r.client_order_id) (
      Fields.field "symbol" (Json.string r.symbol) (
        Fields.field "side" (Json.string (side_value r.side))
          (Fields.field "volume" (Json.string (py.str_of_decimal r.volume)) Fields.end)))

  unfoldable pub place_order : OrderRequest → Call ClientError ExecutionResult
  place_order r = post_request WriteEndpoint.demo_orders (order_body r) >>= λ payload.
      answered (parse_order_result py payload)

  unfoldable pub close_body : CloseRequest → Fields
  close_body r = Fields.field "client_order_id" (Json.string r.client_order_id) Fields.end

  unfoldable pub close_position : CloseRequest → Call ClientError CloseResult
  close_position r = answered (validate_symbol_for_path py r.position_id) >>= λ safe_position_id.
      post_request (WriteEndpoint.close_position_at safe_position_id) (close_body r) >>= λ payload.
      answered (parse_close_result py payload)

  abbrev reason_body : Option String → Fields
  reason_body none = Fields.end
  reason_body (some reason) = Fields.field "reason" (Json.string reason) Fields.end

  unfoldable pub activate_kill_switch : Option String → Call ClientError KillSwitchState
  activate_kill_switch reason =
      post_request WriteEndpoint.kill_switch_activate (reason_body reason) >>= λ payload.
      answered (parse_kill_switch_state py payload)

  unfoldable pub deactivate_kill_switch : Call ClientError KillSwitchState
  deactivate_kill_switch =
      post_request WriteEndpoint.kill_switch_deactivate Fields.end >>= λ payload.
      answered (parse_kill_switch_state py payload)

  unfoldable pub run_reconciliation : Call ClientError ReconciliationReport
  run_reconciliation = post_request WriteEndpoint.reconciliation_run Fields.end >>= λ payload.
      answered (parse_reconciliation_report py payload)

  -- `len` of a text counts its characters
  abbrev characters : String → ℕ
  characters String.[] = 0
  characters (String.◌∷◌ c s) = suc (characters s)

  unfoldable pub resolve_received_attempt : String → Call ClientError ReconciliationReport
  resolve_received_attempt id =
      if id == "" || ltb 128 (characters id)
      then raising ClientError.request
      else (post_request (WriteEndpoint.resolve_received (py.urlquote id))
            (Fields.field "confirm_abort_before_submission" (Json.boolean true) Fields.end)
          >>= λ payload. answered (parse_reconciliation_report py payload))

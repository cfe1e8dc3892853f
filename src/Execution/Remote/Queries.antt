-- ===== src/Execution/Remote/Queries.antt =====
-- The calls of MT5RemoteExecutionClient (src/execution/mt5_remote.py) that only inform.
use Prim.Native.String.{String}
use text.Mathlib.Text.{◌==◌}
use tradingia.Prelude.{ℕ, pos, leb, leb_ℤ, not, ◌&&◌, ◌||◌, List, if◌then◌else◌}
use tradingia.Execution.Domain.{Decimal, Side}
use tradingia.Execution.QuoteFreshness.{Timestamp}
use tradingia.Execution.Remote.Json.{Python}
use tradingia.Execution.Remote.Values.{ClientError, require_field, parse_decimal}
use tradingia.Execution.Remote.Listings.{
  HealthStatus, SymbolSummary, Order, HistoryResult, JournalEntry, TimeDiagnostics, parse_health,
  parse_symbols, parse_orders, parse_history, parse_journal, parse_time_diagnostics,
}
use tradingia.Execution.Remote.Calls.{Endpoint, Wire, Call, raising, returning, answered, ◌>>=◌}
use tradingia.Execution.Remote.Client.{get_request, validate_symbol_for_path, side_value}

pub data ExecutionTimeframe : Type 0 where
  m1 m5 m15 m30 h1 h4 d1 : ExecutionTimeframe

abbrev pub timeframe_value : ExecutionTimeframe → String
timeframe_value ExecutionTimeframe.m1 = "M1"
timeframe_value ExecutionTimeframe.m5 = "M5"
timeframe_value ExecutionTimeframe.m15 = "M15"
timeframe_value ExecutionTimeframe.m30 = "M30"
timeframe_value ExecutionTimeframe.h1 = "H1"
timeframe_value ExecutionTimeframe.h4 = "H4"
timeframe_value ExecutionTimeframe.d1 = "D1"

pub record HistoryRequest : Type 0 where
  pub symbol : String
  pub timeframe : ExecutionTimeframe
  pub start : Timestamp
  pub end : Timestamp

unfoldable pub check_api_version : String → String → Call ClientError (Unit {0})
check_api_version expected api_version =
    if not (api_version == expected) then raising ClientError.protocol else returning tt

module _ (wire : Wire) where
  abbrev py : Python
  py = wire.python

  unfoldable pub health : String → Call ClientError HealthStatus
  unfolding check_api_version
  health expected = get_request wire Endpoint.health >>= λ payload.
      answered (parse_health py payload) >>= λ status.
      check_api_version expected status.api_version >>= λ checked. returning status

  unfoldable pub symbols : Call ClientError (List SymbolSummary)
  symbols = get_request wire Endpoint.symbols >>= λ payload. answered (parse_symbols payload)

  unfoldable pub orders : Call ClientError (List Order)
  orders = get_request wire Endpoint.orders >>= λ payload. answered (parse_orders py payload)

  unfoldable pub history : HistoryRequest → Call ClientError HistoryResult
  history r = answered (validate_symbol_for_path py r.symbol) >>= λ safe_symbol.
      get_request wire (
        Endpoint.history_at safe_symbol (py.urlquote (py.isoformat r.start))
          (py.urlquote (py.isoformat r.end)) (py.urlquote (timeframe_value r.timeframe)))
      >>= λ payload. answered (parse_history py payload r.symbol)

  unfoldable pub journal : ℕ → Call ClientError (List JournalEntry)
  journal limit =
      if not (leb 1 limit && leb limit 1000)
      then raising ClientError.value_error
      else (get_request wire (Endpoint.journal_of limit) >>= λ payload.
          answered (parse_journal py payload))

  unfoldable pub profit_calc :
      String → Side → Decimal → Decimal → Decimal → Call ClientError Decimal
  profit_calc symbol side volume price_open price_close =
      if leb_ℤ volume (pos 0) || (leb_ℤ price_open (pos 0) || leb_ℤ price_close (pos 0))
      then raising ClientError.value_error
      else (answered (validate_symbol_for_path py symbol) >>= λ safe_symbol.
          get_request wire (
            Endpoint.profit_calc_at safe_symbol (py.urlquote (side_value side))
              (py.urlquote (py.str_of_decimal volume)) (py.urlquote (py.str_of_decimal price_open))
              (py.urlquote (py.str_of_decimal price_close)))
          >>= λ payload. answered (require_field payload "profit") >>= λ profit.
              answered (parse_decimal py profit))

  -- the symbol stands in the path as it was given
  unfoldable pub time_diagnostics : String → Timestamp → Call ClientError TimeDiagnostics
  time_diagnostics symbol linux_client_utc =
      get_request wire (Endpoint.time_diagnostics_at symbol) >>= λ payload.
      answered (parse_time_diagnostics py payload symbol linux_client_utc)

-- ===== src/Execution/Safe/Tests.antt =====
-- Runs of the client and of SafeExecutionService (src/execution) against concrete answers.
use Prim.Native.String.{String}
use text.Mathlib.Text.{◌==◌}
use tradingia.Prelude.{
  ℤ, All, pos, ◌<ℤ◌, ◌≤ℤ◌, ◌≡◌, refl, true, false, Option, none, some, [], ◌∷◌, if◌then◌else◌,
}
use tradingia.Prelude.Result.{ok}
use tradingia.Execution.Domain.{Decimal, Environment, Side}
use tradingia.Execution.Remote.Json.{Json, Items, Fields, Python, lookup}
use tradingia.Execution.Remote.Http.{Answer}
use tradingia.Execution.Remote.Answers.{parse_quote}
use tradingia.Execution.Remote.Records.{Quote}
use tradingia.Execution.Remote.Calls.{Endpoint, WriteEndpoint, Sent}
use tradingia.Execution.Remote.Reads.{posts}
use tradingia.Execution.Remote.Listings.{
  HistoryBar, HistoryResult, parse_history, parse_history_bar, parse_list, parse_all,
  times_increase,
}
use tradingia.Execution.Remote.History.{IsBar, Increasing, parse_history-Increasing}
use tradingia.Execution.Remote.Parsed.{Names, parse_quote-IsQuote}
use tradingia.Execution.Safe.{SafeExecutionService, safe_open}
use tradingia.Execution.Safe.Opening.{Guarded, safe_open-Guarded}
use tradingia.Prelude.{◌-ℤ◌}
use tradingia.Execution.QuoteFreshness.{validate_quote_freshness}
use tradingia.Execution.Policy.{
  authorize_open, decide, increases, local_reasons, normalized_volume_matches_minimum,
  open_account_reasons, open_reasons, position_reasons, reconciliation_reasons, remote_reasons,
  volume_reasons,
}
use tradingia.Execution.Remote.Answers.{
  check_symbol, parse_account, parse_details, parse_kill_switch_state, parse_order_result,
  parse_position, parse_position_items, parse_positions, parse_reconciliation_report,
  parse_symbol_metadata,
}
use tradingia.Execution.Remote.Calls.{◌>>=◌}
use tradingia.Execution.Remote.Client.{
  quote, validate_symbol_for_path, is_blank, is_space, get_request, account, kill_switch_status,
  order_body, place_order, positions, post_request, reconciliation_status, symbol_metadata,
}
use tradingia.Execution.Remote.Http.{
  get_json, error_code, lacks_error, oversized, post_json, post_rejected, post_response,
}
use tradingia.Execution.Remote.Json.{str, truthy}
use tradingia.Execution.Remote.Values.{
  require_mapping, require_field, parse_decimal, parse_utc_timestamp, nonempty_text, parse_int,
  parse_optional_bool, parse_optional_decimal, parse_optional_int, parse_optional_text,
  parse_optional_timestamp, parse_order_status, parse_reconciliation_state, parse_side,
  parse_trade_mode,
}
use tradingia.Execution.Safe.{
  check_quote_freshness, from_client, build_open_context, context_of, if_allowed, is_active,
  remote_environment_of,
}

-- enough of Python's library for the answers below
abbrev decimal_of : String → Option Decimal
decimal_of s =
    if s == "1.10000"
    then some (pos 110000)
    else if s == "1.10010"
    then some (pos 110010)
    else if s == "0.01"
    then some (pos 1)
    else none

abbrev python : Python
python = record {
  decimal_of = decimal_of;
  decimal_of_int = λ n. n;
  str_of_decimal = λ d. "0.01";
  str_of = λ v. "None";
  replace_zulu = λ s. s;
  fromisoformat = λ s.
      some (record { utc = if s == "later" then pos 20000000 else pos 10000000; aware = true });
  isoformat = λ t. "";
  urlquote = λ s. s;
  mentions_error = λ s. false;
}

abbrev text_field : String → String → Fields → Fields
text_field k v rest = Fields.field k (Json.string v) rest

abbrev quote_payload : Fields
quote_payload = text_field "symbol" "EURUSD" (
    text_field "bid" "1.10000"
      (text_field "ask" "1.10010" (text_field "timestamp" "2026-09-03T10:00:00+00:00" Fields.end)))

abbrev metadata_payload : Fields
metadata_payload = text_field "volume_min" "0.01" (
    text_field "volume_step" "0.01" (
      text_field "volume_max" "0.01" (
        text_field "trade_contract_size" "0.01"
          (text_field "point" "0.01" (Fields.field "digits" (Json.integer (pos 5)) Fields.end)))))

abbrev account_payload : Fields
account_payload = text_field "account_id" "1" (
    text_field "currency" "USD" (
      text_field "trade_mode" "demo"
        (text_field "balance" "0.01" (text_field "equity" "0.01" Fields.end))))

abbrev answer : Fields → Answer
answer payload =
    Answer.responded
      (record { status_code = 200; content_length = none; body = some (Json.object payload) })

abbrev on_get : Endpoint → Answer
on_get Endpoint.account = answer account_payload
on_get (Endpoint.symbol_at s) = answer metadata_payload
on_get (Endpoint.quote_at s) = answer quote_payload
on_get Endpoint.positions = answer (Fields.field "positions" (Json.array Items.nil) Fields.end)
on_get Endpoint.kill_switch = answer (text_field "status" "inactive" Fields.end)
on_get Endpoint.reconciliation =
    answer (text_field "state" "ok" (text_field "checked_at" "now" Fields.end))
on_get _ = Answer.timed_out

abbrev service : SafeExecutionService
service = record {
  wire = record { python = python; on_get = on_get; on_post = λ path body. Answer.timed_out };
  policy = record {
    live_trading_enabled = false;
    max_initial_capital_usd = pos 100;
    max_additional_funding_usd = pos 0;
    max_simultaneous_positions = pos 1;
    minimum_volume_only = true;
    martingale_forbidden = true;
    averaging_down_forbidden = true;
    recovery_grid_forbidden = true;
    automatic_size_increase_forbidden = true;
    compounding_forbidden = true;
  };
  local_environment = Environment.demo;
  now = pos 11000000;
}

abbrev order_fields : Fields
order_fields =
    text_field "client_order_id" "A1" (
      text_field "symbol" "EURUSD"
        (text_field "side" "buy" (text_field "volume" "0.01" Fields.end)))

order_written :
    posts (safe_open service "A1" "EURUSD" Side.buy (pos 1)).sent
    ≡ Sent.post WriteEndpoint.demo_orders order_fields ∷ []
unfolding ◌-ℤ◌ validate_quote_freshness authorize_open decide increases local_reasons
    normalized_volume_matches_minimum open_account_reasons open_reasons position_reasons
    reconciliation_reasons remote_reasons volume_reasons check_symbol parse_account parse_details
    parse_kill_switch_state parse_order_result parse_position parse_position_items parse_positions
    parse_reconciliation_report parse_symbol_metadata parse_quote ◌>>=◌ quote
    validate_symbol_for_path is_blank is_space get_request account kill_switch_status order_body
    place_order positions post_request reconciliation_status symbol_metadata get_json error_code
    lacks_error oversized post_json post_rejected post_response lookup str truthy require_mapping
    require_field parse_decimal parse_utc_timestamp nonempty_text parse_int parse_optional_bool
    parse_optional_decimal parse_optional_int parse_optional_text parse_optional_timestamp
    parse_order_status parse_reconciliation_state parse_side parse_trade_mode safe_open
    check_quote_freshness from_client build_open_context context_of if_allowed is_active
    remote_environment_of
order_written = refl

safe_open-Guarded_example :
    Guarded service "A1" "EURUSD" Side.buy
      (pos 1)
      (safe_open service "A1" "EURUSD" Side.buy (pos 1))
safe_open-Guarded_example = safe_open-Guarded service "A1" "EURUSD" Side.buy (pos 1)

abbrev read_quote : Quote
read_quote = record {
  symbol = "EURUSD";
  bid = pos 110000;
  ask = pos 110010;
  timestamp = record { utc = pos 10000000; aware = true };
}

quote_reads : parse_quote python quote_payload "EURUSD" ≡ ok read_quote
unfolding parse_quote check_symbol lookup require_field parse_decimal parse_utc_timestamp
quote_reads = refl

parse_quote-IsQuote_example :
    (read_quote.symbol ≡ "EURUSD")
    × Names quote_payload "EURUSD"
    × (pos 0 <ℤ read_quote.bid)
    × (read_quote.bid ≤ℤ read_quote.ask)
    × (read_quote.timestamp.aware ≡ true)
parse_quote-IsQuote_example =
    parse_quote-IsQuote python quote_payload "EURUSD" read_quote quote_reads

abbrev bar_payload : String → Fields
bar_payload time = text_field "timestamp" time (
    text_field "open" "1.10000" (
      text_field "high" "1.10010" (
        text_field "low" "1.10000"
          (text_field "close" "1.10010" (text_field "tick_volume" "0.01" Fields.end)))))

abbrev history_payload : Fields
history_payload =
    Fields.field "bars"
      (Json.array (
        Items.cons (Json.object (bar_payload "now"))
          (Items.cons (Json.object (bar_payload "later")) Items.nil)))
      Fields.end

abbrev bar_at : ℤ → HistoryBar
bar_at time = record {
  symbol = "EURUSD";
  timestamp = record { utc = time; aware = true };
  open_price = pos 110000;
  high = pos 110010;
  low = pos 110000;
  close = pos 110010;
  tick_volume = pos 1;
  real_volume = none;
  spread_points = none;
}

abbrev read_history : HistoryResult
read_history = record {
  symbol = "EURUSD";
  bars = bar_at (pos 10000000) ∷ bar_at (pos 20000000) ∷ [];
}

history_reads : parse_history python history_payload "EURUSD" ≡ ok read_history
unfolding parse_history parse_history_bar parse_list parse_all times_increase lookup require_field
    require_mapping parse_decimal parse_utc_timestamp parse_optional_decimal parse_optional_int
history_reads = refl

parse_history-Increasing_example :
    (read_history.symbol ≡ "EURUSD")
    × All (IsBar "EURUSD") read_history.bars
    × Increasing read_history.bars
parse_history-Increasing_example =
    parse_history-Increasing python history_payload "EURUSD" read_history history_reads

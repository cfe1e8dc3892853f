-- ===== src/Execution/Remote/Listings.antt =====
-- The answers that only inform: health, symbols, orders, history, journal and clocks, as
-- src/execution/mt5_remote.py reads them.
use Prim.Native.String.{String}
use tradingia.Prelude.{
  ℤ, pos, ◌-ℤ◌, leb_ℤ, ltb_ℤ, Bool, true, false, not, ◌||◌, Option, none, some, get_or, List, [],
  ◌∷◌, if◌then◌else◌,
}
use tradingia.Prelude.Result.{Result, ok, err, raise_if, ◌>>=◌, ◌>>◌}
use tradingia.Execution.Domain.{Decimal, Side, OrderStatus}
use tradingia.Execution.QuoteFreshness.{Timestamp, Microseconds}
use tradingia.Execution.Remote.Json.{Json, Items, Fields, Python, lookup, given, str}
use tradingia.Execution.Remote.Values.{
  ClientError, require_mapping, require_field, parse_decimal, parse_optional_decimal,
  parse_utc_timestamp, parse_optional_timestamp, parse_side, parse_order_status, parse_bool,
  parse_optional_bool, parse_optional_text, parse_optional_int, parse_int, nonempty_text,
}

pub record HealthStatus : Type 0 where
  pub bridge_alive : Bool
  pub terminal_connected : Bool
  pub server_time : Option Timestamp
  pub broker_name : Option String
  pub api_version : String
  pub bridge_version : Option String
  pub bridge_build : Option String
  pub bridge_time_utc : Option Timestamp

pub record SymbolSummary : Type 0 where
  pub symbol : String
  pub description : Option String
  pub visible : Bool
  pub trade_enabled : Option Bool

pub record Order : Type 0 where
  pub client_order_id : Option String
  pub symbol : String
  pub side : Side
  pub volume : Decimal
  pub status : OrderStatus
  pub broker_order_id : Option String

pub record HistoryBar : Type 0 where
  pub symbol : String
  pub timestamp : Timestamp
  pub open_price : Decimal
  pub high : Decimal
  pub low : Decimal
  pub close : Decimal
  pub tick_volume : Decimal
  pub real_volume : Option Decimal
  pub spread_points : Option ℤ

pub record HistoryResult : Type 0 where
  pub symbol : String
  pub bars : List HistoryBar

pub record JournalEntry : Type 0 where
  pub entry_id : ℤ
  pub request_id : Option String
  pub client_order_id : Option String
  pub timestamp : Timestamp
  pub action : String
  pub payload : Fields

-- durations in microseconds; the offset is the number that the bridge sent
pub record TimeDiagnostics : Type 0 where
  pub symbol : String
  pub linux_client_utc : Timestamp
  pub bridge_time_utc : Timestamp
  pub mt5_tick_time_utc : Option Timestamp
  pub bridge_client_skew_seconds : Microseconds
  pub tick_client_skew_seconds : Option Microseconds
  pub tick_bridge_skew_seconds : Option Microseconds
  pub quote_age_seconds_per_client : Option Microseconds
  pub quote_age_seconds_per_bridge : Option Microseconds
  pub server_clock_offset_seconds : Option Json

-- each item of a list, an object, through `f`
unfoldable pub parse_all {ℓ} :
    {A : Type ℓ} → (Fields → Result ClientError A) → Items → Result ClientError (List A)
parse_all f Items.nil = ok []
parse_all f (Items.cons v vs) = do a ← require_mapping v >>= f; rest ← parse_all f vs; ok (a ∷ rest)

unfoldable pub parse_list {ℓ} :
    {A : Type ℓ} → (Fields → Result ClientError A) → Json → Result ClientError (List A)
parse_list f (Json.array vs) = parse_all f vs
parse_list f v = err ClientError.protocol

unfoldable pub parse_symbol_summary : Fields → Result ClientError SymbolSummary
parse_symbol_summary payload = do
  symbol ← require_field payload "symbol" >>= nonempty_text
  description ← parse_optional_text (lookup "description" payload)
  visible ← require_field payload "visible" >>= parse_bool
  trade_enabled ← parse_optional_bool (lookup "trade_enabled" payload)
  ok (record {
    symbol = symbol;
    description = description;
    visible = visible;
    trade_enabled = trade_enabled;
  })

unfoldable pub parse_symbols : Fields → Result ClientError (List SymbolSummary)
parse_symbols payload = require_field payload "symbols" >>= parse_list parse_symbol_summary

-- a float, an integer or a boolean: all of them are numbers to Python
unfoldable pub parse_optional_number : Option Json → Result ClientError (Option Json)
parse_optional_number none = ok none
parse_optional_number (some Json.null) = ok none
parse_optional_number (some (Json.boolean b)) = ok (some (Json.boolean b))
parse_optional_number (some (Json.integer n)) = ok (some (Json.integer n))
parse_optional_number (some (Json.fraction s)) = ok (some (Json.fraction s))
parse_optional_number (some v) = err ClientError.protocol

abbrev between : Timestamp → Timestamp → Microseconds
between later earlier = later.utc -ℤ earlier.utc

unfoldable pub times_increase : List HistoryBar → Bool
times_increase [] = true
times_increase (b ∷ []) = true
times_increase (b ∷ c ∷ bars) =
    let rest = times_increase (c ∷ bars) in
    if leb_ℤ c.timestamp.utc b.timestamp.utc then false else rest

-- `high < max(open, close, low)` and `low > min(open, close, high)`
abbrev pub below_any : Decimal → Decimal → Decimal → Decimal → Bool
below_any x a b c = ltb_ℤ x a || (ltb_ℤ x b || ltb_ℤ x c)

abbrev pub above_any : Decimal → Decimal → Decimal → Decimal → Bool
above_any x a b c = ltb_ℤ a x || (ltb_ℤ b x || ltb_ℤ c x)

module _ (py : Python) where
  unfoldable pub parse_health : Fields → Result ClientError HealthStatus
  parse_health payload = do
    api_version ← require_field payload "api_version"
    alive ← require_field payload "bridge_alive"
    connected ← require_field payload "terminal_connected"
    bridge_alive ← parse_bool alive
    terminal_connected ← parse_bool connected
    server_time ← parse_optional_timestamp py (lookup "server_time" payload)
    broker_name ← parse_optional_text (lookup "broker_name" payload)
    bridge_version ← parse_optional_text (lookup "bridge_version" payload)
    bridge_build ← parse_optional_text (lookup "bridge_build" payload)
    bridge_time_utc ← parse_optional_timestamp py (lookup "bridge_time_utc" payload)
    ok (record {
      bridge_alive = bridge_alive;
      terminal_connected = terminal_connected;
      server_time = server_time;
      broker_name = broker_name;
      api_version = str py api_version;
      bridge_version = bridge_version;
      bridge_build = bridge_build;
      bridge_time_utc = bridge_time_utc;
    })

  abbrev str_given : Option Json → Option String
  str_given none = none
  str_given (some v) = some (str py v)

  -- the key must be there, and null says that the order is not one of the client's
  unfoldable pub parse_order : Fields → Result ClientError Order
  parse_order payload = do
    raw ← require_field payload "client_order_id"
    client_order_id ← parse_optional_text (some raw)
    symbol ← require_field payload "symbol"
    side ← require_field payload "side" >>= parse_side
    volume ← require_field payload "volume" >>= parse_decimal py
    status ← parse_order_status (lookup "status" payload)
    ok (record {
      client_order_id = client_order_id;
      symbol = str py symbol;
      side = side;
      volume = volume;
      status = status;
      broker_order_id = str_given (given (lookup "broker_order_id" payload));
    })

  unfoldable pub parse_orders : Fields → Result ClientError (List Order)
  parse_orders payload = require_field payload "orders" >>= parse_list parse_order

  unfoldable pub parse_history_bar : String → Fields → Result ClientError HistoryBar
  parse_history_bar symbol payload = do
    timestamp ← require_field payload "timestamp" >>= parse_utc_timestamp py
    open_price ← require_field payload "open" >>= parse_decimal py
    high ← require_field payload "high" >>= parse_decimal py
    low ← require_field payload "low" >>= parse_decimal py
    close ← require_field payload "close" >>= parse_decimal py
    tick_volume ← require_field payload "tick_volume" >>= parse_decimal py
    real_volume ← parse_optional_decimal py (lookup "real_volume" payload)
    spread ← parse_optional_int (lookup "spread" payload)
    raise_if (below_any high open_price close low) ClientError.protocol
    raise_if (above_any low open_price close high) ClientError.protocol
    ok (record {
      symbol = symbol;
      timestamp = timestamp;
      open_price = open_price;
      high = high;
      low = low;
      close = close;
      tick_volume = tick_volume;
      real_volume = real_volume;
      spread_points = spread;
    })

  unfoldable pub parse_history : Fields → String → Result ClientError HistoryResult
  parse_history payload requested = do
    bars ← require_field payload "bars" >>= parse_list (parse_history_bar requested)
    raise_if (not (times_increase bars)) ClientError.protocol
    ok (record { symbol = requested; bars = bars })

  unfoldable pub parse_journal_entry : Fields → Result ClientError JournalEntry
  parse_journal_entry item = do
    entry_id ← require_field item "id" >>= parse_int
    raise_if (leb_ℤ entry_id (pos 0)) ClientError.protocol
    request_id ← parse_optional_text (lookup "request_id" item)
    client_order_id ← parse_optional_text (lookup "client_order_id" item)
    action ← require_field item "action" >>= nonempty_text
    timestamp ← require_field item "timestamp" >>= parse_utc_timestamp py
    payload ← require_field item "payload" >>= require_mapping
    ok (record {
      entry_id = entry_id;
      request_id = request_id;
      client_order_id = client_order_id;
      timestamp = timestamp;
      action = action;
      payload = payload;
    })

  unfoldable pub parse_journal : Fields → Result ClientError (List JournalEntry)
  parse_journal payload = require_field payload "entries" >>= parse_list parse_journal_entry

  abbrev from_tick : (Timestamp → Microseconds) → Option Timestamp → Option Microseconds
  from_tick f none = none
  from_tick f (some t) = some (f t)

  -- a symbol in the answer is taken as it is, whatever was asked for
  unfoldable pub parse_time_diagnostics :
      Fields → String → Timestamp → Result ClientError TimeDiagnostics
  parse_time_diagnostics payload requested client = do
    bridge ← require_field payload "bridge_time_utc" >>= parse_utc_timestamp py
    tick ← parse_optional_timestamp py (lookup "mt5_tick_time_utc" payload)
    offset ← parse_optional_number (lookup "server_clock_offset_seconds" payload)
    ok (record {
      symbol = str py (get_or (lookup "symbol" payload) (Json.string requested));
      linux_client_utc = client;
      bridge_time_utc = bridge;
      mt5_tick_time_utc = tick;
      bridge_client_skew_seconds = between bridge client;
      tick_client_skew_seconds = from_tick (λ t. between t client) tick;
      tick_bridge_skew_seconds = from_tick (λ t. between t bridge) tick;
      quote_age_seconds_per_client = from_tick (λ t. between client t) tick;
      quote_age_seconds_per_bridge = from_tick (λ t. between bridge t) tick;
      server_clock_offset_seconds = offset;
    })

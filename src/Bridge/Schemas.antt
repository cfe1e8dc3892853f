-- ===== src/Bridge/Schemas.antt =====
-- The JSON bodies of the bridge's answers (mt5_bridge/schemas.py).
pub mod RoundTrip
mod Tests
use Prim.Native.String.{String}
use tradingia.Prelude.{ℕ, ℤ, Bool, true, false, Option, none, some, List, [], ◌∷◌}
use tradingia.Execution.Domain.{Decimal, Name, Side}
use tradingia.Execution.Remote.Json.{Json, Items, Fields}
use tradingia.Bridge.QuoteFreshness.{Microseconds, Timestamp}
use tradingia.Bridge.Backend.{
  TradeModeName, trade_mode_code_to_string, BackendAccountInfo, BackendTerminalInfo, BackendTick,
  BackendPosition, BackendOrder,
}

-- `str` of a decimal and of a number, `isoformat` of an instant in UTC, and the text for which a number
-- stands elsewhere in this model
pub record Printer : Type 0 where
  pub str_of_decimal : Decimal → String
  pub str_of_int : ℕ → String
  pub isoformat : Microseconds → String
  pub text_of : Name → String

abbrev api_version : String
api_version = "1"

abbrev nullable {ℓ} : {A : Type ℓ} → (A → Json) → Option A → Json
nullable f none = Json.null
nullable f (some a) = f a

-- one entry of the object
abbrev entry : String → Json → Fields → Fields
entry k v rest = Fields.field k v rest

abbrev pub side_text : Side → String
side_text Side.buy = "buy"
side_text Side.sell = "sell"

unfoldable pub classify_environment : BackendAccountInfo → String
classify_environment account = elim (trade_mode_code_to_string account.trade_mode_code) [
  | TradeModeName.demo ↦ "demo"
  | TradeModeName.live ↦ "live"
  | _ ↦ "unknown"
]

abbrev boolean_or_null : Option Bool → Json
boolean_or_null o = nullable Json.boolean o

abbrev text_or_null : Option String → Json
text_or_null o = nullable Json.string o

module _ (pr : Printer) where
  -- a naive time is taken for UTC
  unfoldable pub iso_utc : Timestamp → Json
  iso_utc t = Json.string (pr.isoformat t.utc)

  abbrev decimal : Decimal → Json
  decimal d = Json.string (pr.str_of_decimal d)

  unfoldable pub health_response :
      Bool
      → Bool
      → Option Timestamp
      → Option String
      → Option String
      → Option String
      → Option Timestamp
      → Fields
  unfolding iso_utc
  health_response alive connected server_time broker_name bridge_version bridge_build bridge_time =
      entry "api_version" (Json.string api_version) (
        entry "bridge_alive" (Json.boolean alive) (
          entry "terminal_connected" (Json.boolean connected) (
            entry "server_time" (nullable iso_utc server_time) (
              entry "broker_name" (text_or_null broker_name) (
                entry "bridge_version" (text_or_null bridge_version) (
                  entry "bridge_build" (text_or_null bridge_build)
                    (entry "bridge_time_utc" (nullable iso_utc bridge_time) Fields.end)))))))

  unfoldable pub quote_response : BackendTick → Fields
  unfolding iso_utc
  quote_response tick = entry "symbol" (Json.string (pr.text_of tick.symbol)) (
      entry "timestamp" (iso_utc tick.time_utc)
        (entry "bid" (decimal tick.bid) (entry "ask" (decimal tick.ask) Fields.end)))

  unfoldable pub position_response : BackendPosition → Fields
  position_response position = entry "position_id" (Json.string (pr.str_of_int position.ticket)) (
      entry "symbol" (Json.string (pr.text_of position.symbol)) (
        entry "side" (Json.string (side_text position.side)) (
          entry "volume" (decimal position.volume)
            (entry "open_price" (decimal position.price_open) Fields.end))))

  unfoldable pub position_items : List BackendPosition → Items
  position_items [] = Items.nil
  position_items (p ∷ ps) = Items.cons (Json.object (position_response p)) (position_items ps)

  unfoldable pub positions_response : List BackendPosition → Fields
  positions_response positions =
      entry "positions" (Json.array (position_items positions)) Fields.end

  -- an order is never claimed for a client, whoever placed it
  unfoldable pub order_response : BackendOrder → Fields
  order_response order = entry "client_order_id" Json.null (
      entry "symbol" (Json.string (pr.text_of order.symbol)) (
        entry "side" (Json.string (side_text order.side)) (
          entry "volume" (decimal order.volume_initial) (
            entry "status" (Json.string "accepted")
              (entry "broker_order_id" (Json.string (pr.str_of_int order.ticket)) Fields.end)))))

  unfoldable pub order_items : List BackendOrder → Items
  order_items [] = Items.nil
  order_items (o ∷ os) = Items.cons (Json.object (order_response o)) (order_items os)

  unfoldable pub orders_response : List BackendOrder → Fields
  orders_response orders = entry "orders" (Json.array (order_items orders)) Fields.end

  unfoldable pub profit_calc_response :
      String → String → Decimal → Decimal → Decimal → Decimal → Fields
  profit_calc_response symbol side volume price_open price_close profit =
      entry "symbol" (Json.string symbol) (
        entry "side" (Json.string side) (
          entry "volume" (decimal volume) (
            entry "price_open" (decimal price_open) (
              entry "price_close" (decimal price_close)
                (entry "profit" (decimal profit) Fields.end)))))

  unfoldable pub kill_switch_response : String → Timestamp → Option String → Fields
  kill_switch_response status changed_at reason =
      entry "status" (Json.string status)
        (entry "changed_at" (iso_utc changed_at) (entry "reason" (text_or_null reason) Fields.end))

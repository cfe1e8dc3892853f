-- ===== src/Execution/Remote/Values.antt =====
-- The parsers of single values in src/execution/mt5_remote.py. Messages are left out: the errors of the
-- module are the constructors of ClientError, with Python's own ValueError and TypeError.
use Prim.Native.String.{String}
use text.Mathlib.Text.{◌==◌}
use tradingia.Prelude.{ℕ, ℤ, Bool, not, Option, none, some, if◌then◌else◌}
use tradingia.Prelude.Result.{Result, ok, err, ◌>>=◌}
use tradingia.Execution.Domain.{
  Decimal, Environment, AccountTradeMode, ReconciliationState, Side, OrderStatus,
}
use tradingia.Execution.QuoteFreshness.{Timestamp}
use tradingia.Execution.Remote.Json.{Json, Fields, Python, lookup, is_text, has_text, ends_with_z}

pub data ClientError : Type 0 where
  transport timeout authentication request remote protocol : ClientError
  write_rejected : String → ℕ → ClientError
  value_error type_error : ClientError

unfoldable pub require_mapping : Json → Result ClientError Fields
require_mapping (Json.object payload) = ok payload
require_mapping v = err ClientError.protocol

unfoldable pub require_field : Fields → String → Result ClientError Json
require_field payload key = elim (lookup key payload) [
  | none ↦ err ClientError.protocol
  | some v ↦ ok v
]

abbrev pub or_protocol {ℓ} : {A : Type ℓ} → Option A → Result ClientError A
or_protocol none = err ClientError.protocol
or_protocol (some a) = ok a

-- a time without an offset is refused
abbrev pub aware_only : Timestamp → Result ClientError Timestamp
aware_only t = if not t.aware then err ClientError.protocol else ok t

module _ (py : Python) where
  -- a list or an object prints as no number
  unfoldable pub parse_decimal : Json → Result ClientError Decimal
  parse_decimal (Json.integer n) = ok (py.decimal_of_int n)
  parse_decimal (Json.fraction s) = or_protocol (py.decimal_of s)
  parse_decimal (Json.string s) = or_protocol (py.decimal_of s)
  parse_decimal _ = err ClientError.protocol

  unfoldable pub parse_optional_decimal : Option Json → Result ClientError (Option Decimal)
  unfolding parse_decimal
  parse_optional_decimal none = ok none
  parse_optional_decimal (some Json.null) = ok none
  parse_optional_decimal (some v) = parse_decimal v >>= λ d. ok (some d)

  unfoldable pub parse_utc_timestamp : Json → Result ClientError Timestamp
  parse_utc_timestamp (Json.string s) =
      or_protocol (py.fromisoformat (if ends_with_z s then py.replace_zulu s else s)) >>= aware_only
  parse_utc_timestamp _ = err ClientError.protocol

  unfoldable pub parse_optional_timestamp : Option Json → Result ClientError (Option Timestamp)
  unfolding parse_utc_timestamp
  parse_optional_timestamp none = ok none
  parse_optional_timestamp (some Json.null) = ok none
  parse_optional_timestamp (some v) = parse_utc_timestamp v >>= λ t. ok (some t)

unfoldable pub parse_environment : Option Json → Environment
parse_environment v =
    if has_text "demo" v
    then Environment.demo
    else if has_text "live" v
    then Environment.live
    else Environment.unknown

unfoldable pub parse_trade_mode : Option Json → AccountTradeMode
parse_trade_mode v =
    if has_text "demo" v
    then AccountTradeMode.demo
    else if has_text "live" v
    then AccountTradeMode.live
    else if has_text "contest" v
    then AccountTradeMode.contest
    else AccountTradeMode.unknown

unfoldable pub parse_side : Json → Result ClientError Side
parse_side v =
    if is_text "buy" v
    then ok Side.buy
    else if is_text "sell" v
    then ok Side.sell
    else err ClientError.protocol

abbrev status_of : String → OrderStatus
status_of s =
    if s == "accepted"
    then OrderStatus.accepted
    else if s == "filled"
    then OrderStatus.filled
    else if s == "rejected"
    then OrderStatus.rejected
    else OrderStatus.error

-- a list or an object cannot be a key of the mapping
unfoldable pub parse_order_status : Option Json → Result ClientError OrderStatus
parse_order_status (some (Json.string s)) = ok (status_of s)
parse_order_status (some (Json.array vs)) = err ClientError.type_error
parse_order_status (some (Json.object fs)) = err ClientError.type_error
parse_order_status _ = ok OrderStatus.error

-- `ReconciliationState(state_raw)`, and UNKNOWN where that raises ValueError
unfoldable pub parse_reconciliation_state : Json → ReconciliationState
parse_reconciliation_state v =
    if is_text "ok" v
    then ReconciliationState.ok
    else if is_text "mismatch" v
    then ReconciliationState.mismatch
    else ReconciliationState.unknown

unfoldable pub parse_bool : Json → Result ClientError Bool
parse_bool (Json.boolean b) = ok b
parse_bool _ = err ClientError.protocol

-- a value that may be missing or null, and is otherwise of the kind
unfoldable pub parse_optional_bool : Option Json → Result ClientError (Option Bool)
parse_optional_bool none = ok none
parse_optional_bool (some Json.null) = ok none
parse_optional_bool (some (Json.boolean b)) = ok (some b)
parse_optional_bool (some v) = err ClientError.protocol

unfoldable pub parse_optional_text : Option Json → Result ClientError (Option String)
parse_optional_text none = ok none
parse_optional_text (some Json.null) = ok none
parse_optional_text (some (Json.string s)) = ok (some s)
parse_optional_text (some v) = err ClientError.protocol

unfoldable pub parse_optional_int : Option Json → Result ClientError (Option ℤ)
parse_optional_int none = ok none
parse_optional_int (some Json.null) = ok none
parse_optional_int (some (Json.integer n)) = ok (some n)
parse_optional_int (some v) = err ClientError.protocol

unfoldable pub parse_int : Json → Result ClientError ℤ
parse_int (Json.integer n) = ok n
parse_int _ = err ClientError.protocol

unfoldable pub nonempty_text : Json → Result ClientError String
nonempty_text (Json.string s) = if s == "" then err ClientError.protocol else ok s
nonempty_text _ = err ClientError.protocol

-- ===== src/Execution/Safe.antt =====
-- SafeExecutionService (src/execution/safe_execution.py), over the client and a reading of the clock.
pub mod Guarded
pub mod Opening
mod Tests
use Prim.Native.String.{String}
use tradingia.Prelude.{
  ℕ, ℤ, pos, length, Bool, true, false, not, Option, none, some, List, [], ◌∷◌, ◌++◌, if◌then◌else◌,
}
use tradingia.Prelude.Result.{Result, ok, err}
use tradingia.Execution.Domain.{
  Decimal, Environment, AccountTradeMode, Side, OrderType, ActionKind, KillSwitchStatus,
  SymbolMetadata, OrderRequest,
}
use tradingia.Execution.Policy.{
  RealMoneyPolicy, PolicyContext, PolicyDecision, WrongActionKind, authorize_open, authorize_close,
}
use tradingia.Execution.QuoteFreshness.{
  Microseconds, Reason, QuoteFreshnessResult, validate_quote_freshness,
}
use tradingia.Execution.Remote.Values.{ClientError}
use tradingia.Execution.Remote.Records.{
  Quote, AccountSummary, Position, ExecutionResult, CloseResult, KillSwitchState,
  ReconciliationReport,
}
use tradingia.Execution.Remote.Calls.{Wire, Call, raising, returning, ◌>>=◌}
use tradingia.Execution.Remote.Client.{
  CloseRequest, account, symbol_metadata, positions, kill_switch_status, reconciliation_status,
  quote, place_order, close_position,
}

pub data SafeError : Type 0 where
  denied : PolicyDecision → SafeError
  quote_freshness : Reason → SafeError
  client : ClientError → SafeError
  wrong_action : WrongActionKind → SafeError

-- five seconds and one second
abbrev pub default_max_quote_age : Microseconds
default_max_quote_age = pos 5000000

abbrev pub default_max_quote_future_skew : Microseconds
default_max_quote_future_skew = pos 1000000

pub record SafeExecutionService : Type 0 where
  pub wire : Wire
  pub policy : RealMoneyPolicy
  pub local_environment : Environment
  pub now : Microseconds

abbrev with_error {κ} : {E : Type 0} {F : Type 0} {A : Type κ} → (E → F) → Result E A → Result F A
with_error g (ok a) = ok a
with_error g (err e) = err (g e)

-- what the client raises passes through
unfoldable pub from_client {κ} : {A : Type κ} → Call ClientError A → Call SafeError A
from_client m = record { sent = m.sent; outcome = with_error SafeError.client m.outcome }

unfoldable pub remote_environment_of : AccountTradeMode → Environment
remote_environment_of AccountTradeMode.demo = Environment.demo
remote_environment_of AccountTradeMode.live = Environment.live
remote_environment_of _ = Environment.unknown

unfoldable pub is_active : KillSwitchStatus → Bool
is_active KillSwitchStatus.active = true
is_active KillSwitchStatus.inactive = false

-- `if not decision.allowed: raise`, and then the write
unfoldable pub if_allowed {κ} :
    {A : Type κ} → Result WrongActionKind PolicyDecision → Call SafeError A → Call SafeError A
if_allowed (err e) write = raising (SafeError.wrong_action e)
if_allowed (ok decision) write =
    if not decision.allowed then raising (SafeError.denied decision) else write

abbrev fresh_or_raise : Result Reason QuoteFreshnessResult → Call SafeError (Unit {0})
fresh_or_raise (ok r) = returning tt
fresh_or_raise (err e) = raising (SafeError.quote_freshness e)

module _ (service : SafeExecutionService) where
  unfoldable pub context_of :
      AccountSummary
      → SymbolMetadata
      → List Position
      → KillSwitchState
      → ReconciliationReport
      → PolicyContext
  unfolding remote_environment_of is_active
  context_of account symbol_metadata positions kill_switch reconciliation = record {
    local_environment = service.local_environment;
    remote_environment = remote_environment_of account.trade_mode;
    account_trade_mode = account.trade_mode;
    reconciliation_state = reconciliation.state;
    kill_switch_active = is_active kill_switch.status;
    current_position_count = some (length positions);
    symbol_metadata = some symbol_metadata;
    account_known = true;
  }

  -- `_build_open_context`
  unfoldable pub build_open_context : String → Call SafeError PolicyContext
  build_open_context symbol = from_client (account service.wire) >>= λ a.
      from_client (symbol_metadata service.wire symbol) >>= λ m.
      from_client (positions service.wire) >>= λ p.
      from_client (kill_switch_status service.wire) >>= λ k.
      from_client (reconciliation_status service.wire) >>= λ r. returning (context_of a m p k r)

  -- `_check_quote_freshness`
  unfoldable pub check_quote_freshness : String → Call SafeError (Unit {0})
  check_quote_freshness symbol = from_client (quote service.wire symbol) >>= λ q. fresh_or_raise (
      validate_quote_freshness q.timestamp service.now default_max_quote_age
        default_max_quote_future_skew)

  abbrev pub open_request : String → String → Side → Decimal → OrderRequest
  open_request client_order_id symbol side volume = record {
    client_order_id = client_order_id;
    symbol = symbol;
    side = side;
    order_type = OrderType.market;
    volume = volume;
    action_kind = ActionKind.opening;
    limit_price = none;
    position_id = none;
  }

  unfoldable pub safe_open : String → String → Side → Decimal → Call SafeError ExecutionResult
  safe_open client_order_id symbol side volume = check_quote_freshness symbol >>= λ checked.
      build_open_context symbol >>= λ context.
      if_allowed
        (authorize_open context (open_request client_order_id symbol side volume) service.policy)
        (from_client (place_order service.wire (open_request client_order_id symbol side volume)))

  abbrev pub close_request : String → String → String → Side → Decimal → OrderRequest
  close_request client_order_id position_id symbol side volume = record {
    client_order_id = client_order_id;
    symbol = symbol;
    side = side;
    order_type = OrderType.market;
    volume = volume;
    action_kind = ActionKind.close;
    limit_price = none;
    position_id = some position_id;
  }

  unfoldable pub safe_close : String → String → String → Side → Decimal → Call SafeError CloseResult
  safe_close client_order_id position_id symbol side volume =
      build_open_context symbol >>= λ context.
      if_allowed
        (authorize_close context (close_request client_order_id position_id symbol side volume)
          service.policy)
        (from_client (
          close_position service.wire
            (record { client_order_id = client_order_id; position_id = position_id })))

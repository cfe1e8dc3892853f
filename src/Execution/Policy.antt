-- ===== src/Execution/Policy.antt =====
-- The fail-closed policy of src/execution/policy.py.
-- A reason is a constructor for each message that the code builds, with the values it shows.
pub mod Config
pub mod Open
pub mod Close
use tradingia.Prelude.{
  ℕ, ℤ, pos, leb, ltb_ℤ, leb_ℤ, eqb_ℤ, Bool, true, false, not, ◌&&◌, Option, none, some, List, [],
  ◌∷◌, ◌++◌, is_empty, if◌then◌else◌,
}
use tradingia.Prelude.Result.{Result, ok, err}
use tradingia.Execution.Domain.{
  Decimal, Environment, AccountTradeMode, ReconciliationState, ActionKind, SymbolMetadata,
  OrderRequest,
}

pub record RealMoneyPolicy : Type 0 where
  pub live_trading_enabled : Bool
  pub max_initial_capital_usd : Decimal
  pub max_additional_funding_usd : Decimal
  pub max_simultaneous_positions : ℤ
  pub minimum_volume_only : Bool
  pub martingale_forbidden : Bool
  pub averaging_down_forbidden : Bool
  pub recovery_grid_forbidden : Bool
  pub automatic_size_increase_forbidden : Bool
  pub compounding_forbidden : Bool

pub record PolicyContext : Type 0 where
  pub local_environment : Environment
  pub remote_environment : Environment
  pub account_trade_mode : AccountTradeMode
  pub reconciliation_state : ReconciliationState
  pub kill_switch_active : Bool
  pub current_position_count : Option ℕ
  pub symbol_metadata : Option SymbolMetadata
  pub account_known : Bool

pub data Reason : Type 0 where
  live_trading_enabled : Reason
  local_live local_unknown : Reason
  remote_live remote_unknown : Reason
  account_missing account_live account_unknown : Reason
  account_not_demo : AccountTradeMode → Reason
  reconciliation_not_ok : ReconciliationState → Reason
  kill_switch_active : Reason
  position_count_unknown : Reason
  too_many_positions : ℕ → ℤ → Reason
  metadata_missing : Reason
  volume_not_minimum : Decimal → Decimal → Reason
  volume_above_maximum : Decimal → Decimal → Reason
  volume_not_positive : Reason

pub record PolicyDecision : Type 0 where
  pub allowed : Bool
  pub reasons : List Reason

-- `authorize_open` and `authorize_close` raise ValueError on an action of the other kind.
pub data WrongActionKind : Type 0 where
  wrong_action_kind : ActionKind → WrongActionKind

abbrev pub deny : List Reason → PolicyDecision
deny rs = record { allowed = false; reasons = rs }

abbrev pub allow : PolicyDecision
allow = record { allowed = true; reasons = [] }

unfoldable pub increases : ActionKind → Bool
increases ActionKind.opening = true
increases ActionKind.increase = true
increases _ = false

unfoldable pub reduces : ActionKind → Bool
reduces ActionKind.close = true
reduces ActionKind.reduce = true
reduces _ = false

-- one `reasons.append` under a test
abbrev append_if : Bool → Reason → List Reason
append_if true r = r ∷ []
append_if false r = []

-- The `else` branch of the source's three-way test on an Environment is dead: there are three.
unfoldable pub local_reasons : Environment → List Reason
local_reasons Environment.live = local_live ∷ []
local_reasons Environment.unknown = local_unknown ∷ []
local_reasons Environment.demo = []

unfoldable pub remote_reasons : Environment → List Reason
remote_reasons Environment.live = remote_live ∷ []
remote_reasons Environment.unknown = remote_unknown ∷ []
remote_reasons Environment.demo = []

-- authorize_open asks for DEMO, so a contest account is refused
unfoldable pub open_account_reasons : Bool → AccountTradeMode → List Reason
open_account_reasons false mode = account_missing ∷ []
open_account_reasons true AccountTradeMode.live = account_live ∷ []
open_account_reasons true AccountTradeMode.unknown = account_unknown ∷ []
open_account_reasons true AccountTradeMode.contest = account_not_demo AccountTradeMode.contest ∷ []
open_account_reasons true AccountTradeMode.demo = []

-- authorize_close asks only that it be neither LIVE nor UNKNOWN
unfoldable pub close_account_reasons : Bool → AccountTradeMode → List Reason
close_account_reasons false mode = account_missing ∷ []
close_account_reasons true AccountTradeMode.live = account_live ∷ []
close_account_reasons true AccountTradeMode.unknown = account_unknown ∷ []
close_account_reasons true AccountTradeMode.contest = []
close_account_reasons true AccountTradeMode.demo = []

unfoldable pub reconciliation_reasons : ReconciliationState → List Reason
reconciliation_reasons ReconciliationState.ok = []
reconciliation_reasons s = reconciliation_not_ok s ∷ []

unfoldable pub position_reasons : Option ℕ → ℤ → List Reason
position_reasons none cap = position_count_unknown ∷ []
position_reasons (some n) cap = append_if (leb_ℤ cap (pos n)) (too_many_positions n cap)

unfoldable pub normalized_volume_matches_minimum : Decimal → SymbolMetadata → Bool
normalized_volume_matches_minimum volume metadata = eqb_ℤ volume metadata.volume_min

unfoldable pub volume_reasons : Bool → Decimal → Option SymbolMetadata → List Reason
unfolding normalized_volume_matches_minimum
volume_reasons minimum_only volume none = metadata_missing ∷ []
volume_reasons minimum_only volume (some m) =
    append_if (minimum_only && not (normalized_volume_matches_minimum volume m))
      (volume_not_minimum volume m.volume_min)
    ++ (append_if (ltb_ℤ m.volume_max volume) (volume_above_maximum volume m.volume_max)
        ++ append_if (leb_ℤ volume (pos 0)) volume_not_positive)

-- `if reasons: return deny(*reasons)`, and allow otherwise
unfoldable pub decide : List Reason → PolicyDecision
decide [] = allow
decide (r ∷ rs) = deny (r ∷ rs)

unfoldable pub open_reasons : PolicyContext → OrderRequest → RealMoneyPolicy → List Reason
open_reasons c r p =
    append_if p.live_trading_enabled live_trading_enabled
    ++ (local_reasons c.local_environment
        ++ (remote_reasons c.remote_environment
            ++ (open_account_reasons c.account_known c.account_trade_mode
                ++ (reconciliation_reasons c.reconciliation_state
                    ++ (append_if c.kill_switch_active kill_switch_active
                        ++ (position_reasons c.current_position_count p.max_simultaneous_positions
                            ++ volume_reasons p.minimum_volume_only r.volume c.symbol_metadata))))))

unfoldable pub authorize_open :
    PolicyContext → OrderRequest → RealMoneyPolicy → Result WrongActionKind PolicyDecision
unfolding increases
authorize_open c r p =
    if not (increases r.action_kind)
    then err (wrong_action_kind r.action_kind)
    else ok (decide (open_reasons c r p))

unfoldable pub close_reasons : PolicyContext → RealMoneyPolicy → List Reason
close_reasons c p =
    local_reasons c.local_environment
    ++ (remote_reasons c.remote_environment
        ++ (close_account_reasons c.account_known c.account_trade_mode
            ++ (reconciliation_reasons c.reconciliation_state
                ++ append_if p.live_trading_enabled live_trading_enabled)))

unfoldable pub authorize_close :
    PolicyContext → OrderRequest → RealMoneyPolicy → Result WrongActionKind PolicyDecision
unfolding reduces
authorize_close c r p =
    if not (reduces r.action_kind)
    then err (wrong_action_kind r.action_kind)
    else ok (decide (close_reasons c p))

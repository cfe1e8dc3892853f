-- ===== src/Bridge/Store.antt =====
-- BridgeStore (mt5_bridge/store.py): the idempotency table, the journal, the kill switch and the
-- last reconciliation. Each method is one transaction under the store's lock, so it is one function
-- from the store to the store. A table is the list of its rows, in the order of insertion.
pub mod Counts
pub mod Find
mod Journal
mod Rows
unfoldable pub use Journal.*
unfoldable pub use Rows.*
use tradingia.Prelude.{
  ℕ, ◌+◌, leb, ◌==◌, max, min, Bool, true, false, ◌&&◌, ◌||◌, Option, none, some, List, [], ◌∷◌,
  ◌++◌, coalesce, is_none, keep, take, length, if◌then◌else◌,
}
use mathlib.Core.List.{reverse}
use tradingia.Prelude.Result.{Result, ok, err}
use tradingia.Execution.Domain.{Name}

pub record KillSwitch : Type 0 where
  pub active : Bool
  pub changed_at : ℕ
  pub reason : Option Name

pub data ReconciliationState : Type 0 where
  consistent mismatch unknown : ReconciliationState

-- the lines of a report
pub data Detail : Type 0 where
  stuck : Name → OrderState → ℕ → Detail
  backend_unreachable not_run : Detail

pub record ReconciliationReport : Type 0 where
  pub state : ReconciliationState
  pub checked_at : ℕ
  pub details : List Detail

pub record BridgeStore : Type 0 where
  pub idempotency : List IdempotencyRecord
  pub journal : List JournalEntry
  pub kill_switch : KillSwitch
  pub reconciliation : Option ReconciliationReport

-- what `_init_schema` leaves in a fresh file
unfoldable pub init_schema : ℕ → BridgeStore
init_schema now = record {
  idempotency = [];
  journal = [];
  kill_switch = record { active = false; changed_at = now; reason = none };
  reconciliation = none;
}

pub data StoreError : Type 0 where
  conflict_error : StoreError
  state_error : Option OrderState → StoreError

unfoldable pub get_idempotency_record : Name → BridgeStore → Option IdempotencyRecord
get_idempotency_record id s = find_row id s.idempotency

unfoldable pub begin_idempotent_request :
    Name → ℕ → ℕ → BridgeStore → Result StoreError IdempotencyRecord × BridgeStore
begin_idempotent_request id hash now s = elim (find_row id s.idempotency) [
  | some existing ↦
      if existing.request_hash == hash then (ok existing, s) else (err conflict_error, s)
  | none ↦ (
    ok (fresh_record id hash now),
    record s { idempotency = s.idempotency ++ fresh_record id hash now ∷ [] },
  )
]

unfoldable pub update_idempotency_state :
    Name → OrderState → Outcome → ℕ → BridgeStore → BridgeStore
update_idempotency_state id state out now s = record s {
  idempotency = update_rows (λ r. r.client_order_id == id) state out now s.idempotency;
}

-- the row count of the UPDATE decides; the store has one row for an id, so it is 0 or 1
unfoldable pub transition_idempotency_state :
    Name
    → OrderState
    → OrderState
    → Outcome
    → ℕ
    → BridgeStore
    → Result StoreError (Unit {0}) × BridgeStore
transition_idempotency_state id expected new out now s =
    let hit = λ (r : IdempotencyRecord). r.client_order_id == id && same_state r.state expected in
    if length (keep hit s.idempotency) == 1
    then (ok tt, record s { idempotency = update_rows hit new out now s.idempotency })
    else (err (state_error (state_of (find_row id s.idempotency))), s)

unfoldable pub find_needs_reconciliation : BridgeStore → List IdempotencyRecord
find_needs_reconciliation s =
    keep (λ r. same_state r.state OrderState.needs_reconciliation) s.idempotency

unfoldable pub find_incomplete_at_startup : BridgeStore → List IdempotencyRecord
find_incomplete_at_startup s = keep (λ r. is_incomplete r.state) s.idempotency

unfoldable pub append_journal : JournalEntry → BridgeStore → BridgeStore
append_journal e s = record s { journal = s.journal ++ e ∷ [] }

-- newest first, between 1 and 1000 entries
unfoldable pub read_journal : ℕ → BridgeStore → List JournalEntry
read_journal limit s = take (max 1 (min limit 1000)) (reverse s.journal)

unfoldable pub read_journal_for_client_order_id : Name → BridgeStore → List JournalEntry
read_journal_for_client_order_id id s = keep (λ e. names_order id e.client_order_id) s.journal

unfoldable pub get_kill_switch : BridgeStore → KillSwitch
get_kill_switch s = s.kill_switch

unfoldable pub set_kill_switch : Bool → Option Name → ℕ → BridgeStore → BridgeStore
set_kill_switch active reason now s = record s {
  kill_switch = record { active = active; changed_at = now; reason = reason };
}

unfoldable pub get_last_reconciliation : BridgeStore → Option ReconciliationReport
get_last_reconciliation s = s.reconciliation

unfoldable pub set_last_reconciliation : ReconciliationReport → BridgeStore → BridgeStore
set_last_reconciliation r s = record s { reconciliation = some r }

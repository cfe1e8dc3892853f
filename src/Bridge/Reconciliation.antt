-- ===== src/Bridge/Reconciliation.antt =====
-- Reconciliation (mt5_bridge/reconciliation.py): it reports rows that never reached an end, and
-- resolves by hand only a row that is proved not to have been submitted.
pub mod Evidence
pub mod Report
pub mod Resolution
use tradingia.Prelude.{
  ℕ, ◌==◌, Bool, true, false, not, ◌&&◌, ◌||◌, Option, none, some, List, [], ◌∷◌, map, is_some,
  is_empty, keep, if◌then◌else◌,
}
use tradingia.Prelude.Result.{Result, ok, err}
use tradingia.Execution.Domain.{Name}
use tradingia.Bridge.Backend.{Backend, BackendPosition, BackendOrder}
use tradingia.Bridge.Identity.{Hashing, build_mt5_comment}
use tradingia.Bridge.Store.{
  BridgeStore, IdempotencyRecord, OrderState, no_outcome, ErrorCode, JournalAction, JournalPayload,
  Event, Detail, ReconciliationReport, ReconciliationState, same_state, get_idempotency_record,
  find_incomplete_at_startup, transition_idempotency_state, append_journal,
  read_journal_for_client_order_id, get_last_reconciliation, set_last_reconciliation,
}

pub data ReceivedResolutionError : Type 0 where
  does_not_exist : ReceivedResolutionError
  not_received : OrderState → ReceivedResolutionError
  has_identifiers : ReceivedResolutionError
  submission_evidence : ReceivedResolutionError
  backend_unavailable : ReceivedResolutionError
  identity_in_terminal : ReceivedResolutionError
  changed_concurrently : ReceivedResolutionError

-- no report yet is UNKNOWN
unfoldable pub get_reconciliation_status : ℕ → BridgeStore → ReconciliationReport
unfolding get_last_reconciliation
get_reconciliation_status now s = elim (get_last_reconciliation s) [
  | none ↦ record {
    state = ReconciliationState.unknown;
    checked_at = now;
    details = Detail.not_run ∷ [];
  }
  | some report ↦ report
]

abbrev pub detail_of : IdempotencyRecord → Detail
detail_of r = Detail.stuck r.client_order_id r.state r.created_at

-- the report on the rows that are incomplete
unfoldable pub report_on : ℕ → List IdempotencyRecord → ReconciliationReport
report_on now [] = record { state = ReconciliationState.consistent; checked_at = now; details = [] }
report_on now (r ∷ rs) = record {
  state = ReconciliationState.mismatch;
  checked_at = now;
  details = map detail_of (r ∷ rs);
}

-- whether positions_get and orders_get both answer
abbrev pub is_reachable : Backend → Bool
is_reachable b = is_some b.positions_get && is_some b.orders_get

-- one report, and the store that holds it
unfoldable pub run_reconciliation : Backend → ℕ → BridgeStore → ReconciliationReport × BridgeStore
unfolding find_incomplete_at_startup set_last_reconciliation report_on
run_reconciliation b now s =
    let report = if is_reachable b then report_on now (find_incomplete_at_startup s) else record {
      state = ReconciliationState.unknown;
      checked_at = now;
      details = Detail.backend_unreachable ∷ [];
    } in
    (report, set_last_reconciliation report s)

-- the actions that say an order may have left
abbrev pub is_unsafe_event : Event → Bool
is_unsafe_event Event.submitting = true
is_unsafe_event Event.crash_during_send = true
is_unsafe_event Event.filled = true
is_unsafe_event _ = false

abbrev pub is_unsafe_action : JournalAction → Bool
is_unsafe_action (JournalAction.at flow event) = is_unsafe_event event
is_unsafe_action JournalAction.received_resolved = false

abbrev pub is : ℕ → Option ℕ → Bool
is n none = false
is n (some m) = m == n

unfoldable pub has_identifiers_set : IdempotencyRecord → Bool
has_identifiers_set r =
    is_some r.broker_order_id
    || (is_some r.deal_id || (is_some r.position_id || is_some r.result_payload))

unfoldable pub in_terminal : ℕ → Name → List BackendPosition → List BackendOrder → Bool
in_terminal magic comment positions orders =
    not (is_empty (keep (λ p. is magic p.magic && is comment p.comment) positions))
    || not (is_empty (keep (λ o. is magic o.magic && is comment o.comment) orders))

-- the checks before the row is changed: the first that fails is raised
unfoldable pub may_resolve :
    Hashing → Backend → ℕ → Name → BridgeStore → Result ReceivedResolutionError (Unit {0})
may_resolve h b magic id s = elim (get_idempotency_record id s) [
  | none ↦ err does_not_exist
  | some r ↦
      if not (same_state r.state OrderState.received)
      then err (not_received r.state)
      else if has_identifiers_set r
      then err has_identifiers
      else if not
          (is_empty (keep (λ e. is_unsafe_action e.action) (read_journal_for_client_order_id id s)))
      then err submission_evidence
      else elim b.positions_get [
        | none ↦ err backend_unavailable
        | some positions ↦ elim b.orders_get [
          | none ↦ err backend_unavailable
          | some orders ↦
              if in_terminal magic (build_mt5_comment h id) positions orders
              then err identity_in_terminal
              else ok tt
        ]
      ]
]

-- the transition to REJECTED, its journal entry, and a fresh report
unfoldable pub resolve :
    Backend
    → Option Name
    → ℕ
    → ℕ
    → ℕ
    → Name
    → BridgeStore
    → Result ReceivedResolutionError ReconciliationReport × BridgeStore
resolve b request_id now journalled checked id s =
    let (moved, s') =
      transition_idempotency_state id OrderState.received OrderState.rejected
        (record no_outcome { error_code = some ErrorCode.aborted_before_submission }) now s in
    elim moved [
      | err e ↦ (err changed_concurrently, s')
      | ok _ ↦
          let (report, s'') = run_reconciliation b checked (
            append_journal
              (record {
                request_id = request_id;
                client_order_id = some id;
                timestamp_utc = journalled;
                action = JournalAction.received_resolved;
                payload = JournalPayload.resolution ErrorCode.aborted_before_submission;
              })
              s') in
          (ok report, s'')
    ]

unfoldable pub resolve_received_attempt :
    Hashing
    → Backend
    → ℕ
    → Option Name
    → ℕ
    → ℕ
    → ℕ
    → Name
    → BridgeStore
    → Result ReceivedResolutionError ReconciliationReport × BridgeStore
resolve_received_attempt h b magic request_id now journalled checked id s =
    elim (may_resolve h b magic id s) [
      | err e ↦ (err e, s)
      | ok _ ↦ resolve b request_id now journalled checked id s
    ]

-- ===== src/Bridge/Reconciliation/Resolution.antt =====
-- Which rows resolve_received_attempt (mt5_bridge/reconciliation.py) closes.
use tradingia.Prelude.{
  ℕ, ◌≤◌, ◌≡◌, ◌↔◌, refl, ap, true, Option, some, List, [], ◌∷◌, arith, keep, length, inl, inr,
}
use tradingia.Prelude.Result.{Result, ok, err, Result-cases}
use tradingia.Execution.Domain.{Name}
use tradingia.Bridge.Backend.{Backend}
use tradingia.Bridge.Identity.{Hashing}
use tradingia.Bridge.Store.{
  BridgeStore, IdempotencyRecord, OrderState, ReconciliationReport, Outcome, no_outcome, ErrorCode,
  same_state, find_row, update_rows, get_idempotency_record, transition_idempotency_state,
  append_journal,
}
use tradingia.Bridge.Store.Counts.{
  rows_of, received_of, received-le-rows, is_received_row, length-keep-received,
}
use tradingia.Bridge.Store.Find.{find_row-update, find_row_id, updated}
use tradingia.Bridge.Reconciliation.Evidence.{
  IsResolvable, may_resolve-IsResolvable, IsResolvable-may_resolve,
}
use tradingia.Bridge.Reconciliation.{
  ReceivedResolutionError, may_resolve, resolve, resolve_received_attempt, run_reconciliation,
}

received_of_found :
    (id : Name) (t : List IdempotencyRecord) (r : IdempotencyRecord)
    → find_row id t ≡ some r
    → r.state ≡ OrderState.received
    → 1 ≤ received_of id t
unfolding find_row received_of same_state
received_of_found id [] r e k = cc
received_of_found id (x ∷ t) r e k = ground (arith, received_of_found id t r)

row_hit :
    (id : Name) (r : IdempotencyRecord)
    → r.client_order_id ≡ id
    → r.state ≡ OrderState.received
    → is_received_row id r ≡ true
unfolding same_state
row_hit id r own received = ground arith

module _ (h : Hashing) (b : Backend) (magic : ℕ) (id : Name) (s : BridgeStore) where
  one_received :
      rows_of id s.idempotency ≤ 1
      → IsResolvable h b magic id s
      → length (keep (is_received_row id) s.idempotency) ≡ 1
  unfolding get_idempotency_record
  one_received few p =
      let (r, found, received, clean) = p.found in
      omega (
        arith,
        length-keep-received id s.idempotency,
        received-le-rows id s.idempotency,
        received_of_found id s.idempotency r found received,
      )

  -- the columns that a resolution writes
  abbrev aborted : Outcome
  aborted = record no_outcome { error_code = some ErrorCode.aborted_before_submission }

  module _ (request_id : Option Name) (now journalled checked : ℕ) where
    moves :
        rows_of id s.idempotency ≤ 1
        → IsResolvable h b magic id s
        → transition_idempotency_state id OrderState.received OrderState.rejected aborted now s ≡ (
          ok tt,
          record s {
            idempotency =
                update_rows (is_received_row id) OrderState.rejected aborted now s.idempotency;
          },
        )
    unfolding transition_idempotency_state
    moves few p = rw (one_received few p)

    -- the attempt's row after a resolution
    abbrev Resolved : Result ReceivedResolutionError ReconciliationReport × BridgeStore → Type 0
    Resolved x =
        ((report : ReconciliationReport) × (x.0 ≡ ok report))
        × (x.1.idempotency
            ≡ update_rows (is_received_row id) OrderState.rejected aborted now s.idempotency)

    resolve-Resolved :
        rows_of id s.idempotency ≤ 1
        → IsResolvable h b magic id s
        → Resolved (resolve b request_id now journalled checked id s)
    unfolding resolve run_reconciliation append_journal
    resolve-Resolved few p =
        rw (resolve, moves few p) ((_, refl), ap (λ x. x.1.idempotency) (moves few p))

    attempt-Resolved :
        rows_of id s.idempotency ≤ 1
        → IsResolvable h b magic id s
        → Resolved (resolve_received_attempt h b magic request_id now journalled checked id s)
    unfolding resolve_received_attempt
    attempt-Resolved few p =
        rw (resolve_received_attempt, IsResolvable-may_resolve h b magic id s p)
          (resolve-Resolved few p)

    resolved-IsResolvable :
        (report : ReconciliationReport)
        → (resolve_received_attempt h b magic request_id now journalled checked id s).0 ≡ ok report
        → IsResolvable h b magic id s
    unfolding resolve_received_attempt
    resolved-IsResolvable report e = elim (Result-cases (may_resolve h b magic id s)) [
      | inl (x, refused) ↦ ground (arith, refused)
      | inr (x, allowed) ↦ may_resolve-IsResolvable h b magic id s allowed
    ]

    -- For an id with at most one row, the attempt is resolved exactly when its row is RECEIVED with no
    -- order, deal, position or payload in its columns, no journal entry about it says that a
    -- submission began, crashed or was filled, and the terminal answers with positions and orders none
    -- of which has the magic number and the id's comment.
    pub resolves_iff :
        rows_of id s.idempotency ≤ 1
        → ((report : ReconciliationReport) × ((resolve_received_attempt h b magic request_id now
                journalled checked id s).0
              ≡ ok report))
          ↔ IsResolvable h b magic id s
    resolves_iff few =
        (λ (report, e). resolved-IsResolvable report e, λ p. (attempt-Resolved few p).0)

    -- For an id with at most one row, a resolution leaves that row REJECTED, with the code
    -- `aborted_before_submission`.
    pub resolved_row_is_rejected :
        (report : ReconciliationReport)
        → rows_of id s.idempotency ≤ 1
        → (resolve_received_attempt h b magic request_id now journalled checked id s).0 ≡ ok report
        → let s' = (resolve_received_attempt h b magic request_id now journalled checked id s).1 in
          (r : IdempotencyRecord) × (get_idempotency_record id s' ≡ some r)
          × (r.state ≡ OrderState.rejected)
          × (r.error_code ≡ some ErrorCode.aborted_before_submission)
    unfolding get_idempotency_record
    resolved_row_is_rejected report few e =
        let p = resolved-IsResolvable report e in
        let (r, found, received, clean) = p.found in
        let own = find_row_id id s.idempotency r found in
        let hits : is_received_row id r ≡ true = row_hit id r own received in
        (
          updated (is_received_row id) OrderState.rejected aborted now r,
          rw ((attempt-Resolved few p).1) (
              find_row-update (is_received_row id) OrderState.rejected aborted now id s.idempotency
                r found),
          rw hits,
          rw hits,
        )

    -- A resolution that is refused leaves the store as it was.
    pub refused_unchanged :
        (e : ReceivedResolutionError)
        → (resolve_received_attempt h b magic request_id now journalled checked id s).0 ≡ err e
        → (resolve_received_attempt h b magic request_id now journalled checked id s).1 ≡ s
    unfolding resolve_received_attempt resolve transition_idempotency_state
    refused_unchanged e k = ground arith

-- ===== src/Bridge/Trading.antt =====
-- The write path (mt5_bridge/trading.py): place_demo_order and close_demo_position, in the stages
-- of the source. A request is handled as a whole; what other requests do between its steps shows
-- only as the store that it starts from.
pub mod AtMostOnce
pub mod Blocked
pub mod Conflict
pub mod Final
pub mod Gates
pub mod Replay
pub mod Room
pub mod Chosen
pub mod Crash
pub mod Crashed
pub mod SendLog
pub mod Sent
pub mod Unflagged
pub mod Runs
mod Monad
mod Guards
mod Stages
unfoldable pub use Monad.*
unfoldable pub use Guards.*
unfoldable pub use Stages.*
use tradingia.Prelude.{
  ℕ, ◌==◌, ◌-ℤ◌, Bool, true, false, not, ◌&&◌, ◌||◌, Option, none, some, get_or, is_some,
  if◌then◌else◌,
}
use tradingia.Prelude.Result.{Result, ok, err}
use tradingia.Execution.Domain.{Decimal, Name, Side}
use tradingia.Bridge.Backend.{
  BackendTick, BackendPosition, TradeCheckResult, TradeSendResult, trade_retcode_done,
}
use tradingia.Bridge.Store.{
  OrderState, IdempotencyRecord, Outcome, no_outcome, TradingCode, ErrorCode, OrderPayload,
  ClosePayload, ResultPayload, Subject, QuoteAudit, JournalPayload, JournalAction, Flow, Event,
  is_incomplete, begin_idempotent_request, update_idempotency_state, transition_idempotency_state,
}
use tradingia.Bridge.Identity.{Hashing, open_fields, close_fields, compute_request_fingerprint}

-- `DemoOrderResult(**payload)`: the stored result of a closing has other fields
abbrev pub as_order : ResultPayload → Result Failure DemoOrderResult
as_order (ResultPayload.opened p) = ok (record { payload = p; idempotent_replay = true })
as_order (ResultPayload.closed p) = err type_error

abbrev pub as_close : ResultPayload → Result Failure DemoCloseResult
as_close (ResultPayload.opened p) = err type_error
as_close (ResultPayload.closed p) = ok (record { payload = p; idempotent_replay = true })

-- An earlier result is replayed, a row that is refused raises, and the rest goes on.
abbrev pub resume_or :
    {A : Type 0}
    → Env
    → Flow
    → Name
    → (ResultPayload → Result Failure A)
    → Action A
    → Resume
    → Action A
resume_or env flow id read go (replay state payload) = do
  journal env id (JournalAction.at flow Event.idempotent_replay) (JournalPayload.replayed state)
  lift (read payload)
resume_or env flow id read go refused = raise (trading TradingCode.reconciliation_required)
resume_or env flow id read go proceed = go

abbrev pub order_subject : DemoOrderRequest → Subject
order_subject request = Subject.opening request.symbol request.side request.volume

abbrev pub close_subject : DemoCloseRequest → BackendPosition → Subject
close_subject request p =
    Subject.closing request.position_id p.symbol p.side (opposite p.side) p.volume

module _ (h : Hashing) where
  unfoldable pub prepare_order : Env → DemoOrderRequest → Action Ready
  unfolding choose_order check_order
  prepare_order env request =
      reads (choose_order h env request)
      >>= check_order env Flow.place_order request.client_order_id (order_subject request)

  unfoldable pub place_new_order : Env → DemoOrderRequest → Action DemoOrderResult
  unfolding prepare_order terminalize_pre_submission_reject submit_order fill_order
  place_new_order env request = do
    ready ←
        except_trading (prepare_order env request)
          (terminalize_pre_submission_reject env Flow.place_order request.client_order_id)
    r ← submit_order env Flow.place_order request.client_order_id (order_subject request) ready
    fill_order env request (order_subject request) ready r

  unfoldable pub place_demo_order : Env → DemoOrderRequest → Action DemoOrderResult
  unfolding require_fresh_demo_account journal begin_idempotent_request resume place_new_order
  place_demo_order env request = do
    lift (require_fresh_demo_account env)
    journal env request.client_order_id (JournalAction.at Flow.place_order Event.begin)
        (JournalPayload.order_begun request.symbol request.side request.volume)
    row ←
        note_conflict
          (try_store conflict (
            begin_idempotent_request request.client_order_id
              (compute_request_fingerprint h
                (open_fields request.symbol request.side request.volume))
              env.clock.begun))
          (journal env request.client_order_id (JournalAction.at Flow.place_order Event.conflict)
            JournalPayload.message)
    resume_or env Flow.place_order request.client_order_id as_order (place_new_order env request)
        (resume row)

  unfoldable pub prepare_close : Env → DemoCloseRequest → Action (BackendPosition × Ready)
  unfolding choose_close check_order journal quote_audit_payload
  prepare_close env request = do
    chosen ← lift (choose_close h env request)
    journal env request.client_order_id (JournalAction.at Flow.close_position Event.context) (
        JournalPayload.close_context (close_subject request chosen.0) chosen.0.price_open
          (quote_audit_payload chosen.1.tick chosen.1.reference_price))
    ready ←
        check_order env Flow.close_position request.client_order_id (close_subject request chosen.0)
          chosen.1
    pure (chosen.0, ready)

  unfoldable pub close_now : Env → DemoCloseRequest → Action DemoCloseResult
  unfolding prepare_close terminalize_pre_submission_reject submit_order fill_close
  close_now env request = do
    chosen ←
        except_trading (prepare_close env request)
          (terminalize_pre_submission_reject env Flow.close_position request.client_order_id)
    r ←
        submit_order env Flow.close_position request.client_order_id
          (close_subject request chosen.0) chosen.1
    fill_close env request (close_subject request chosen.0) chosen.0 chosen.1 r

  unfoldable pub close_demo_position : Env → DemoCloseRequest → Action DemoCloseResult
  unfolding require_fresh_demo_account journal begin_idempotent_request resume close_now
  close_demo_position env request = do
    lift (require_fresh_demo_account env)
    journal env request.client_order_id (JournalAction.at Flow.close_position Event.begin)
        (JournalPayload.close_begun request.position_id)
    row ←
        note_conflict
          (try_store conflict (
            begin_idempotent_request request.client_order_id
              (compute_request_fingerprint h (close_fields request.position_id)) env.clock.begun))
          (journal env request.client_order_id (JournalAction.at Flow.close_position Event.conflict)
            JournalPayload.message)
    resume_or env Flow.close_position request.client_order_id as_close (close_now env request)
        (resume row)

-- ===== src/Bridge/Trading/Stages.antt =====
-- The stages of a write request (mt5_bridge/trading.py), from the row of its id to its result.
use tradingia.Prelude.{◌==◌, ◌-ℤ◌, Bool, false, not, Option, none, some, get_or, if◌then◌else◌}
use tradingia.Execution.Domain.{Decimal, Name, Side}
use tradingia.Bridge.Backend.{BackendTick, BackendPosition, TradeSendResult, trade_retcode_done}
use tradingia.Bridge.Store.{
  OrderState, IdempotencyRecord, Outcome, no_outcome, TradingCode, ErrorCode, OrderPayload,
  ClosePayload, ResultPayload, Subject, QuoteAudit, JournalPayload, JournalAction, Flow, Event,
  update_idempotency_state, transition_idempotency_state,
}
use tradingia.Bridge.Trading.Monad.{
  trading, Env, Action, pure, raise, ask, ◌>>=◌, ◌>>◌, with_store, try_store, raise_if, journal,
  log_send,
}
use tradingia.Bridge.Trading.Guards.{DemoOrderRequest, DemoCloseRequest, Ready, opposite}

-- the fields of the stored payload, and whether it is replayed
pub record DemoOrderResult : Type 0 where
  pub payload : OrderPayload
  pub idempotent_replay : Bool

pub record DemoCloseResult : Type 0 where
  pub payload : ClosePayload
  pub idempotent_replay : Bool

-- what the row of the request's id asks for
pub data Resume : Type 0 where
  replay : OrderState → ResultPayload → Resume
  refused : Resume
  proceed : Resume

abbrev resume_with : IdempotencyRecord → OrderState → Option ResultPayload → Resume
resume_with r OrderState.filled (some payload) = replay OrderState.filled payload
resume_with r OrderState.filled none = proceed
resume_with r OrderState.rejected (some payload) = replay OrderState.rejected payload
resume_with r OrderState.rejected none = refused
resume_with r OrderState.received payload =
    if r.updated_at == r.created_at then proceed else refused
resume_with r OrderState.submitted payload =
    if r.updated_at == r.created_at then proceed else refused
resume_with r OrderState.needs_reconciliation payload = proceed

unfoldable pub resume : IdempotencyRecord → Resume
resume r = resume_with r r.state r.result_payload

-- the try/except round the RECEIVED to SUBMITTED transition
abbrev pub enter_submitted : Name → Env → Action (Unit {0})
enter_submitted id env = try_store (trading TradingCode.reconciliation_required) (
    transition_idempotency_state id OrderState.received OrderState.submitted no_outcome
      env.clock.submitted)

-- _terminalize_pre_submission_reject, and the `raise` after it
unfoldable pub terminalize_pre_submission_reject :
    {A : Type 0} → Env → Flow → Name → TradingCode → Action A
unfolding transition_idempotency_state journal
terminalize_pre_submission_reject env flow id code = do
  try_store (trading TradingCode.reconciliation_required) (
      transition_idempotency_state id OrderState.received OrderState.rejected
        (record no_outcome { error_code = some (ErrorCode.trading code) }) env.clock.rejected)
  journal env id (JournalAction.at flow Event.pre_submit_rejected)
      (JournalPayload.pre_submit (ErrorCode.trading code))
  raise (trading code)

-- _quote_audit_payload
unfoldable pub quote_audit_payload : BackendTick → Decimal → QuoteAudit
quote_audit_payload tick reference_price = record {
  quote_timestamp = tick.time_utc.utc;
  observed_bid = tick.bid;
  observed_ask = tick.ask;
  spread = tick.ask -ℤ tick.bid;
  reference_price = reference_price;
}

-- order_check, its entry in the journal, and the refusal
unfoldable pub check_order : Env → Flow → Name → Subject → Ready → Action Ready
unfolding journal quote_audit_payload
check_order env flow id subject ready = do
  check ← ask (env.backend.order_check ready.trade_request)
  journal env id (JournalAction.at flow Event.order_check) (
      JournalPayload.checked subject (quote_audit_payload ready.tick ready.reference_price)
        check.passed check.retcode)
  raise_if (not check.passed) (trading TradingCode.order_check_failed)
  pure ready

-- an answer of order_send other than DONE rejects the row
unfoldable pub order_not_done :
    Env → Flow → Name → Subject → QuoteAudit → TradeSendResult → Action TradeSendResult
unfolding journal update_idempotency_state
order_not_done env flow id subject audit r = do
  with_store (
      update_idempotency_state id OrderState.rejected
        (record no_outcome { error_code = some (ErrorCode.retcode r.retcode) }) env.clock.recorded)
  journal env id (JournalAction.at flow Event.rejected)
      (JournalPayload.not_done subject audit r.retcode)
  raise (trading TradingCode.order_send_failed)

-- what the answer of order_send leads to; none is a raised MT5BackendError
unfoldable pub order_answered :
    Env → Flow → Name → Subject → QuoteAudit → Option TradeSendResult → Action TradeSendResult
unfolding order_not_done journal
order_answered env flow id subject audit none = do
  journal env id (JournalAction.at flow Event.crash_during_send) JournalPayload.message
  raise (trading TradingCode.order_send_failed)
order_answered env flow id subject audit (some r) =
    if r.retcode == trade_retcode_done then pure r else order_not_done env flow id subject audit r

-- From the submission boundary to the answer of order_send. The row is SUBMITTED before the call,
-- and stays so where the call raises.
unfoldable pub submit_order : Env → Flow → Name → Subject → Ready → Action TradeSendResult
unfolding transition_idempotency_state journal quote_audit_payload order_answered
submit_order env flow id subject ready = do
  enter_submitted id env
  journal env id (JournalAction.at flow Event.submitting)
      (JournalPayload.quoted subject (quote_audit_payload ready.tick ready.reference_price))
  log_send id ready.trade_request
  order_answered env flow id subject (quote_audit_payload ready.tick ready.reference_price)
      (env.backend.order_send ready.trade_request)

-- what a buyer pays above, or a seller gets below, the reference price
unfoldable pub adverse_slippage : Side → Decimal → Decimal → Decimal
adverse_slippage Side.buy reference_price fill_price = fill_price -ℤ reference_price
adverse_slippage Side.sell reference_price fill_price = reference_price -ℤ fill_price

unfoldable pub order_payload : Env → DemoOrderRequest → Ready → TradeSendResult → OrderPayload
unfolding adverse_slippage
order_payload env request ready r =
    let fill_price = get_or r.price ready.reference_price in
    record {
      client_order_id = request.client_order_id;
      broker_order_id = r.order;
      deal_id = r.deal;
      position_id = r.order;
      requested_volume = request.volume;
      filled_volume = get_or r.volume request.volume;
      observed_bid = ready.tick.bid;
      observed_ask = ready.tick.ask;
      reference_price = ready.reference_price;
      fill_price = fill_price;
      slippage = adverse_slippage request.side ready.reference_price fill_price;
      mt5_retcode = r.retcode;
      timestamp = env.clock.finished;
    }

unfoldable pub close_payload :
    Env → DemoCloseRequest → BackendPosition → Ready → TradeSendResult → ClosePayload
unfolding adverse_slippage
close_payload env request position ready r =
    let fill_price = get_or r.price ready.reference_price in
    record {
      client_order_id = request.client_order_id;
      position_id = request.position_id;
      closed_volume = position.volume;
      observed_bid = ready.tick.bid;
      observed_ask = ready.tick.ask;
      reference_price = ready.reference_price;
      fill_price = fill_price;
      slippage = adverse_slippage (opposite position.side) ready.reference_price fill_price;
      deal_id = r.deal;
      mt5_retcode = r.retcode;
      timestamp = env.clock.finished;
    }

-- the columns that a filled order writes
abbrev pub filled_columns : TradeSendResult → OrderPayload → Outcome
filled_columns r payload = record {
  broker_order_id = r.order;
  deal_id = r.deal;
  position_id = r.order;
  result_payload = some (ResultPayload.opened payload);
  error_code = none;
}

-- The row becomes FILLED, with its result, before the journal and the caller hear of it.
unfoldable pub fill_order :
    Env → DemoOrderRequest → Subject → Ready → TradeSendResult → Action DemoOrderResult
unfolding order_payload update_idempotency_state journal quote_audit_payload
fill_order env request subject ready r = do
  let payload = order_payload env request ready r
  with_store (
      update_idempotency_state request.client_order_id OrderState.filled (filled_columns r payload)
        env.clock.recorded)
  journal env request.client_order_id (JournalAction.at Flow.place_order Event.filled) (
      JournalPayload.done subject (quote_audit_payload ready.tick ready.reference_price)
        (ResultPayload.opened payload))
  pure (record { payload = payload; idempotent_replay = false })

unfoldable pub fill_close :
    Env
    → DemoCloseRequest
    → Subject
    → BackendPosition
    → Ready
    → TradeSendResult
    → Action DemoCloseResult
unfolding close_payload update_idempotency_state journal quote_audit_payload
fill_close env request subject position ready r = do
  let payload = close_payload env request position ready r
  with_store (
      update_idempotency_state request.client_order_id OrderState.filled
        (record {
          broker_order_id = none;
          deal_id = r.deal;
          position_id = some request.position_id;
          result_payload = some (ResultPayload.closed payload);
          error_code = none;
        })
        env.clock.recorded)
  journal env request.client_order_id (JournalAction.at Flow.close_position Event.filled) (
      JournalPayload.done subject (quote_audit_payload ready.tick ready.reference_price)
        (ResultPayload.closed payload))
  pure (record { payload = payload; idempotent_replay = false })

-- ===== src/Bridge/Tests.antt =====
-- Runs of the bridge (mt5_bridge) against a terminal that answers.
use tradingia.Prelude.{
  ◌≢◌, All, arith, List, ℕ, pos, ◌+◌, ◌-ℤ◌, ◌≤◌, ◌≡◌, refl, true, false, none, some, [], ◌∷◌, ◌↔◌,
}
use tradingia.Prelude.Result.{err, ok}
use tradingia.Execution.Domain.{Side}
use tradingia.Bridge.QuoteFreshness.{validate_quote_freshness}
use tradingia.Bridge.Backend.{
  BackendPosition, Backend, BackendAccountInfo, BackendSymbolInfo, BackendTick, MarketOrderType,
  TradeRequest, TradeSendResult,
}
use tradingia.Bridge.Identity.{
  Hashing, SemanticFields, open_fields, close_fields, compute_request_fingerprint,
  build_mt5_comment,
}
use tradingia.Bridge.Store.{
  init_schema, find_row, update_rows, same_state, is_incomplete, begin_idempotent_request,
  update_idempotency_state, transition_idempotency_state, append_journal, get_kill_switch,
  ReconciliationState, find_incomplete_at_startup, set_last_reconciliation, get_last_reconciliation,
  fresh_record, get_idempotency_record, OrderState, ErrorCode, ReconciliationReport, ResultPayload,
  read_journal_for_client_order_id, IdempotencyRecord, BridgeStore,
}
use tradingia.Bridge.Reconciliation.{
  run_reconciliation, report_on, get_reconciliation_status, ReceivedResolutionError,
}
use tradingia.Bridge.Trading.{
  Env, Clock, World, DemoOrderRequest, DemoOrderResult, place_demo_order, place_new_order,
  prepare_order, choose_order, require_fresh_demo_account, require_trading_permissions,
  require_symbol_tradable, require_fresh_quote, resume, submit_order, check_order, fill_order,
  order_payload, adverse_slippage, quote_audit_payload, journal, order_answered, log_send, ◌>>=◌,
  DemoCloseRequest, close_demo_position, Failure,
}
use tradingia.Bridge.Trading.Room.{sent_of}
use tradingia.Bridge.Trading.Gates.{IsGated, order_send-IsGated}
use tradingia.Bridge.Trading.Replay.{replay_after_success}
use tradingia.Bridge.Store.Counts.{rows_of, received_of}
use tradingia.Bridge.Trading.Blocked.{incomplete_rows_block_orders}
use tradingia.Bridge.Trading.Unflagged.{flagged, close_ignores_flags}
use tradingia.Bridge.Reconciliation.{
  resolve_received_attempt, may_resolve, resolve, has_identifiers_set, in_terminal,
}
use tradingia.Bridge.Reconciliation.Report.{
  Answers, IsSettled, Lines, run_reconciliation-consistent_iff, run_reconciliation_reports,
}
use tradingia.Bridge.Reconciliation.Evidence.{IsResolvable}
use tradingia.Bridge.Reconciliation.Resolution.{
  resolves_iff, resolved_row_is_rejected, refused_unchanged,
}
use tradingia.Bridge.App.Finality.{ended_row_stays}
use tradingia.Bridge.QuoteFreshness.Copies.{timestamp, translated, copies_agree}
use tradingia.Execution.QuoteFreshness as Execution
use tradingia.Bridge.Trading.Crashed.{Crashed, crash_leaves_submitted}
use tradingia.Bridge.Trading.Conflict.{other_request_conflicts}
use tradingia.Bridge.Trading.Chosen.{IsOrderFor, IsCloseOf}
use tradingia.Bridge.Trading.SendLog.{SentOne}
use tradingia.Bridge.Trading.Sent.{sent_order_is_requested, sent_close_is_whole}
use tradingia.Bridge.App.{
  post_demo_order, post_reconciliation_run, activate_kill_switch, serve_all, fresh_world, serve,
  Call,
}
use tradingia.Bridge.App.Session.{sent_at_most_once}

-- A stand-in for SHA-256 that tells these few requests apart.
abbrev digest : SemanticFields → ℕ
digest (open_fields symbol side volume) = symbol
digest (close_fields position) = 1000 + position

abbrev hashing : Hashing
hashing = record { sha256_of_fields = digest; order_tag = λ id. id }

abbrev account : BackendAccountInfo
account = record {
  login = 5;
  trade_mode_code = some 0;
  trade_allowed = some true;
  trade_expert = some true;
}

abbrev tick : BackendTick
tick = record {
  symbol = 7;
  time_utc = record { utc = pos 1000000; aware = true };
  bid = pos 110;
  ask = pos 112;
}

abbrev symbol : BackendSymbolInfo
symbol = record {
  name = 7;
  volume_min = pos 1;
  volume_step = pos 1;
  volume_max = pos 500;
  trade_enabled = some true;
  visible = true;
}

abbrev filled_at : TradeSendResult
filled_at = record {
  retcode = 10009;
  deal = some 70;
  order = some 71;
  volume = some (pos 1);
  price = some (pos 113);
}

abbrev terminal : Backend
terminal = record {
  account_info = some account;
  is_connected = true;
  terminal_info = some (record { connected = true; trade_allowed = true });
  account_info_again = some account;
  positions_get = some [];
  orders_get = some [];
  symbol_info = λ name. some (some symbol);
  symbol_info_tick = λ name. some (some tick);
  order_check = λ r. some (record { passed = true; retcode = some 0 });
  order_send = λ r. some filled_at;
}

abbrev clock : Clock
clock = record {
  begun = 10;
  journalled = λ action. 11;
  quoted = pos 1500000;
  status_read = 12;
  submitted = 13;
  rejected = 14;
  finished = 15;
  recorded = 16;
}

abbrev env : Env
env = record {
  backend = terminal;
  clock = clock;
  request_id = none;
  max_positions = 1;
  max_quote_age_seconds = pos 5000000;
  max_quote_future_skew_seconds = pos 2000000;
  deviation_points = 20;
  magic = 990001;
}

abbrev request : DemoOrderRequest
request = record { client_order_id = 42; symbol = 7; side = Side.buy; volume = pos 1 }

-- a store that was reconciled once
abbrev reconciled : World
reconciled = record {
  store = record {
    idempotency = [];
    journal = [];
    kill_switch = record { active = false; changed_at = 0; reason = none };
    reconciliation =
        some (record { state = ReconciliationState.consistent; checked_at = 1; details = [] });
  };
  sent = [];
}

abbrev order : TradeRequest
order = record {
  symbol = 7;
  volume = pos 1;
  order_type = MarketOrderType.order_type_buy;
  price = pos 112;
  deviation = 20;
  magic = 990001;
  comment = 42;
  position_ticket = none;
}

one_order_goes_out :
    (place_demo_order hashing env request reconciled).1.sent
    ≡ record { client_order_id = 42; request = order } ∷ []
unfolding place_demo_order place_new_order prepare_order choose_order require_fresh_demo_account
    require_trading_permissions require_symbol_tradable require_fresh_quote resume submit_order
    check_order fill_order order_payload adverse_slippage quote_audit_payload journal order_answered
    log_send ◌>>=◌ ◌-ℤ◌ validate_quote_freshness compute_request_fingerprint build_mt5_comment
    find_row update_rows same_state is_incomplete begin_idempotent_request update_idempotency_state
    transition_idempotency_state append_journal get_kill_switch find_incomplete_at_startup
    set_last_reconciliation get_last_reconciliation run_reconciliation report_on
    get_reconciliation_status init_schema
one_order_goes_out = refl

order_send-IsGated_example : IsGated hashing env request reconciled.store
order_send-IsGated_example =
    order_send-IsGated hashing env request reconciled λ same. cc (one_order_goes_out, same)

sent_at_most_once_example :
    let w =
      serve_all hashing
        (post_reconciliation_run terminal 1
          ∷ post_demo_order env request
          ∷ post_demo_order env request
          ∷ activate_kill_switch none 20
          ∷ [])
        (fresh_world 0) in
    (sent_of 42 w.sent + received_of 42 w.store.idempotency ≤ 1)
    × (rows_of 42 w.store.idempotency ≤ 1)
sent_at_most_once_example =
    sent_at_most_once hashing 42
      (post_reconciliation_run terminal 1
        ∷ post_demo_order env request
        ∷ post_demo_order env request
        ∷ activate_kill_switch none 20
        ∷ [])
      0

abbrev first_result : DemoOrderResult
first_result = record {
  payload = record {
    client_order_id = 42;
    broker_order_id = some 71;
    deal_id = some 70;
    position_id = some 71;
    requested_volume = pos 1;
    filled_volume = pos 1;
    observed_bid = pos 110;
    observed_ask = pos 112;
    reference_price = pos 112;
    fill_price = pos 113;
    slippage = pos 1;
    mt5_retcode = 10009;
    timestamp = 15;
  };
  idempotent_replay = false;
}

abbrev after_first : World
after_first = (place_demo_order hashing env request reconciled).1

first_run : place_demo_order hashing env request reconciled ≡ (ok first_result, after_first)
unfolding place_demo_order place_new_order prepare_order choose_order require_fresh_demo_account
    require_trading_permissions require_symbol_tradable require_fresh_quote resume submit_order
    check_order fill_order order_payload adverse_slippage quote_audit_payload journal order_answered
    log_send ◌>>=◌ ◌-ℤ◌ validate_quote_freshness compute_request_fingerprint build_mt5_comment
    find_row update_rows same_state is_incomplete begin_idempotent_request update_idempotency_state
    transition_idempotency_state append_journal get_kill_switch find_incomplete_at_startup
    set_last_reconciliation get_last_reconciliation run_reconciliation report_on
    get_reconciliation_status init_schema
first_run = refl

demo_account : require_fresh_demo_account env ≡ ok tt
unfolding require_fresh_demo_account
demo_account = refl

replay_after_success_example :
    let again = place_demo_order hashing env request after_first in
    (again.0 ≡ ok (record { payload = first_result.payload; idempotent_replay = true }))
    × (again.1.sent ≡ after_first.sent)
    × (again.1.store.idempotency ≡ after_first.store.idempotency)
replay_after_success_example =
    replay_after_success hashing env env request reconciled first_run demo_account

-- a row that never left RECEIVED
abbrev waiting : IdempotencyRecord
waiting = fresh_record 42 7 5

abbrev interrupted : BridgeStore
interrupted = record reconciled.store { idempotency = waiting ∷ [] }

run_reconciliation-consistent_iff_example :
    ((run_reconciliation terminal 9 interrupted).0.state ≡ ReconciliationState.consistent)
    ↔ Answers terminal × All IsSettled interrupted.idempotency
run_reconciliation-consistent_iff_example = run_reconciliation-consistent_iff terminal 9 interrupted

run_reconciliation_reports_example :
    let (report, s') = run_reconciliation terminal 9 interrupted in
    Lines interrupted.idempotency report.details
    × (get_reconciliation_status 10 s' ≡ report)
    × (s'.idempotency ≡ interrupted.idempotency)
    × (s'.journal ≡ interrupted.journal)
    × (s'.kill_switch ≡ interrupted.kill_switch)
run_reconciliation_reports_example =
    run_reconciliation_reports terminal 9 interrupted 10 ((_, refl), (_, refl))

mismatch_found : (run_reconciliation terminal 9 interrupted).0.state ≡ ReconciliationState.mismatch
unfolding run_reconciliation report_on find_incomplete_at_startup is_incomplete
mismatch_found = refl

incomplete_rows_block_orders_example :
    (place_demo_order hashing env request
      (record { store = (run_reconciliation terminal 9 interrupted).1; sent = [] })).1.sent
    ≡ []
incomplete_rows_block_orders_example =
    incomplete_rows_block_orders hashing env request (record { store = interrupted; sent = [] })
      terminal 9 λ good. cc (mismatch_found, good)

-- the same id, for another symbol
abbrev other_request : DemoOrderRequest
other_request = record request { symbol = 8 }

digests_differ : digest (open_fields 8 Side.buy (pos 1)) ≢ digest (open_fields 7 Side.buy (pos 1))
digests_differ e = absurd (omega (arith, e))

other_request_conflicts_example :
    let x = place_demo_order hashing env other_request after_first in
    (x.0 ≡ err Failure.conflict)
    × (x.1.sent ≡ after_first.sent)
    × (x.1.store.idempotency ≡ after_first.store.idempotency)
other_request_conflicts_example =
    other_request_conflicts hashing env env request other_request reconciled first_run refl
      digests_differ demo_account

abbrev close_request : DemoCloseRequest
close_request = record { client_order_id = 43; position_id = 71 }

close_ignores_flags_example :
    close_demo_position hashing env close_request
      (flagged (record { active = true; changed_at = 3; reason = none }) none reconciled)
    ≡ (
      (close_demo_position hashing env close_request reconciled).0,
      flagged
          (record { active = true; changed_at = 3; reason = none })
          none
          (close_demo_position hashing env close_request reconciled).1,
    )
close_ignores_flags_example =
    close_ignores_flags env hashing close_request
      (record { active = true; changed_at = 3; reason = none }) none reconciled

one_row : rows_of 42 interrupted.idempotency ≤ 1
unfolding rows_of
one_row = ground arith

resolves_iff_example :
    ((report : ReconciliationReport) × ((resolve_received_attempt hashing terminal 990001 none 20 21
          22 42 interrupted).0
        ≡ ok report))
    ↔ IsResolvable hashing terminal 990001 42 interrupted
resolves_iff_example = resolves_iff hashing terminal 990001 42 interrupted none 20 21 22 one_row

abbrev clean_report : ReconciliationReport
clean_report = record { state = ReconciliationState.consistent; checked_at = 22; details = [] }

resolved :
    (resolve_received_attempt hashing terminal 990001 none 20 21 22 42 interrupted).0
    ≡ ok clean_report
unfolding resolve_received_attempt may_resolve resolve has_identifiers_set in_terminal
    build_mt5_comment run_reconciliation report_on find_incomplete_at_startup is_incomplete
    set_last_reconciliation get_idempotency_record find_row update_rows same_state
    transition_idempotency_state append_journal read_journal_for_client_order_id
resolved = refl

resolved_row_is_rejected_example :
    (r : IdempotencyRecord) × (get_idempotency_record 42
        (resolve_received_attempt hashing terminal 990001 none 20 21 22 42 interrupted).1
      ≡ some r)
    × (r.state ≡ OrderState.rejected)
    × (r.error_code ≡ some ErrorCode.aborted_before_submission)
resolved_row_is_rejected_example =
    resolved_row_is_rejected hashing terminal 990001 42 interrupted none 20 21 22 clean_report
      one_row resolved

unknown_id :
    (resolve_received_attempt hashing terminal 990001 none 20 21 22 99 interrupted).0
    ≡ err ReceivedResolutionError.does_not_exist
unfolding resolve_received_attempt may_resolve get_idempotency_record find_row
unknown_id = refl

refused_unchanged_example :
    (resolve_received_attempt hashing terminal 990001 none 20 21 22 99 interrupted).1 ≡ interrupted
refused_unchanged_example =
    refused_unchanged hashing terminal 990001 99 interrupted none 20 21 22
      ReceivedResolutionError.does_not_exist unknown_id

-- the first order of a session, and what its row becomes
abbrev first_calls : List Call
first_calls = post_reconciliation_run terminal 1 ∷ post_demo_order env request ∷ []

abbrev filled_row : IdempotencyRecord
filled_row = record waiting {
  state = OrderState.filled;
  created_at = 10;
  updated_at = 16;
  broker_order_id = some 71;
  deal_id = some 70;
  position_id = some 71;
  result_payload = some (ResultPayload.opened first_result.payload);
}

row_is_filled :
    get_idempotency_record 42 (serve_all hashing first_calls (fresh_world 0)).store
    ≡ some filled_row
unfolding place_demo_order place_new_order prepare_order choose_order require_fresh_demo_account
    require_trading_permissions require_symbol_tradable require_fresh_quote resume submit_order
    check_order fill_order order_payload adverse_slippage quote_audit_payload journal order_answered
    log_send ◌>>=◌ ◌-ℤ◌ validate_quote_freshness compute_request_fingerprint build_mt5_comment
    find_row update_rows same_state is_incomplete begin_idempotent_request update_idempotency_state
    transition_idempotency_state append_journal get_kill_switch find_incomplete_at_startup
    set_last_reconciliation get_last_reconciliation run_reconciliation report_on
    get_reconciliation_status init_schema serve_all serve get_idempotency_record
row_is_filled = refl

filled_row_is_over : is_incomplete filled_row.state ≡ false
unfolding is_incomplete
filled_row_is_over = refl

ended_row_stays_example :
    get_idempotency_record 42
      (serve_all hashing
        (post_demo_order env other_request ∷ post_reconciliation_run terminal 30 ∷ [])
        (serve_all hashing first_calls (fresh_world 0))).store
    ≡ some filled_row
ended_row_stays_example =
    ended_row_stays hashing 42 filled_row filled_row_is_over first_calls
      (post_demo_order env other_request ∷ post_reconciliation_run terminal 30 ∷ []) 0 row_is_filled

abbrev linux_quote : Execution.Timestamp
linux_quote = record { utc = pos 1000000; aware = true }

copies_agree_example :
    validate_quote_freshness (timestamp linux_quote) (pos 9000000) (pos 5000000) (pos 2000000)
    ≡ translated
        (Execution.validate_quote_freshness linux_quote (pos 9000000) (pos 5000000) (pos 2000000))
copies_agree_example = copies_agree linux_quote (pos 9000000) (pos 5000000) (pos 2000000)

sent_order_is_requested_example :
    SentOne 42 (IsOrderFor env request) [] (place_demo_order hashing env request reconciled).1.sent
sent_order_is_requested_example = sent_order_is_requested hashing env request reconciled

-- the position that the first order opened
abbrev held : BackendPosition
held = record {
  ticket = 71;
  symbol = 7;
  side = Side.buy;
  volume = pos 1;
  price_open = pos 113;
  magic = some 990001;
  comment = some 42;
}

abbrev holding : Env
holding = record env { backend = record terminal { positions_get = some (held ∷ []) } }

sent_close_is_whole_example :
    SentOne 43
      (IsCloseOf holding close_request)
      []
      (close_demo_position hashing holding close_request reconciled).1.sent
sent_close_is_whole_example = sent_close_is_whole hashing holding close_request reconciled

abbrev crashing : Env
crashing = record env { backend = record terminal { order_send = λ r. none } }

absent_in_reconciled : find_row 42 reconciled.store.idempotency ≡ none
unfolding find_row
absent_in_reconciled = refl

crashing_order_goes_out :
    (place_demo_order hashing crashing request reconciled).1.sent
    ≡ record { client_order_id = 42; request = order } ∷ []
unfolding place_demo_order place_new_order prepare_order choose_order require_fresh_demo_account
    require_trading_permissions require_symbol_tradable require_fresh_quote resume submit_order
    check_order fill_order order_payload adverse_slippage quote_audit_payload journal order_answered
    log_send ◌>>=◌ ◌-ℤ◌ validate_quote_freshness compute_request_fingerprint build_mt5_comment
    find_row update_rows same_state is_incomplete begin_idempotent_request update_idempotency_state
    transition_idempotency_state append_journal get_kill_switch find_incomplete_at_startup
    set_last_reconciliation get_last_reconciliation run_reconciliation report_on
    get_reconciliation_status init_schema
crashing_order_goes_out = refl

crashing_sends : (place_demo_order hashing crashing request reconciled).1.sent ≢ reconciled.sent
crashing_sends none_sent = cc (crashing_order_goes_out, none_sent)

crash_leaves_submitted_example :
    Crashed request reconciled.sent (place_demo_order hashing crashing request reconciled)
crash_leaves_submitted_example =
    crash_leaves_submitted hashing crashing request (λ t. refl) reconciled absent_in_reconciled
      crashing_sends

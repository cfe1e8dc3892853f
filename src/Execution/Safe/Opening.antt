-- ===== src/Execution/Safe/Opening.antt =====
-- When safe_open (src/execution/safe_execution.py) sends an order, and which one, in the terms of what
-- the wire answers.
use Prim.Native.String.{String}
use tradingia.Prelude.{
  pos, neg, ◌≤ℤ◌, ◌<ℤ◌, ◌-ℤ◌, length, List, [], ◌∷◌, true, false, ◌≡◌, refl, sym, ap, ◌∙◌, ◌⊎◌, inl,
  inr, arith,
}
use tradingia.Prelude.Result.{ok, ok-injective}
use tradingia.Execution.Domain.{
  Decimal, Side, Environment, AccountTradeMode, ReconciliationState, KillSwitchStatus,
  SymbolMetadata, OrderRequest,
}
use tradingia.Execution.Policy.{PolicyContext}
use tradingia.Execution.Policy.Open.{IsSized, IsOpenable}
use tradingia.Execution.Remote.Json.{Json, Fields}
use tradingia.Execution.Remote.Records.{
  Quote, AccountSummary, Position, ExecutionResult, KillSwitchState, ReconciliationReport,
}
use tradingia.Execution.Remote.Calls.{WriteEndpoint, Sent, Call}
use tradingia.Execution.Remote.Client.{
  account, symbol_metadata, positions, kill_switch_status, reconciliation_status, quote,
  place_order, order_body, side_value,
}
use tradingia.Execution.Remote.Reads.{posts, from_ok, outcome_of_bind}
use tradingia.Execution.Safe.{
  SafeError, SafeExecutionService, from_client, build_open_context, context_of, safe_open,
  remote_environment_of, is_active, open_request,
}
use tradingia.Execution.Safe.Guarded.{IsCleared, safe_open-Decided, returned, from_client-ok}

-- The text that the bridge expects for a side.
abbrev pub Says : Side → String → Type 0
Says side text = (side ≡ Side.buy → text ≡ "buy") × (side ≡ Side.sell → text ≡ "sell")

module _ (service : SafeExecutionService) where
  -- The quote of the symbol was taken at most five seconds ago, and at most one second in the future.
  abbrev pub HasFreshQuote : String → Type 0
  HasFreshQuote symbol =
      (q : Quote) × ((quote service.wire symbol).outcome ≡ ok q)
      × (q.timestamp.aware ≡ true)
      × (service.now -ℤ q.timestamp.utc ≤ℤ pos 5000000)
      × (neg (pos 1000000) ≤ℤ service.now -ℤ q.timestamp.utc)

  -- What the service is configured with and what the bridge answers, where an order may go out.
  pub record MayOpen (symbol : String) (volume : Decimal) : Type 0 where
    pub fresh : HasFreshQuote symbol
    pub demo_only : service.policy.live_trading_enabled ≡ false
    pub local_demo : service.local_environment ≡ Environment.demo
    pub account_demo :
        (a : AccountSummary) × ((account service.wire).outcome ≡ ok a)
        × (a.trade_mode ≡ AccountTradeMode.demo)
    pub sized :
        (m : SymbolMetadata) × ((symbol_metadata service.wire symbol).outcome ≡ ok m)
        × IsSized service.policy.minimum_volume_only volume m
    pub room :
        (ps : List Position) × ((positions service.wire).outcome ≡ ok ps)
        × (pos (length ps) <ℤ service.policy.max_simultaneous_positions)
    pub switch_off :
        (k : KillSwitchState) × ((kill_switch_status service.wire).outcome ≡ ok k)
        × (k.status ≡ KillSwitchStatus.inactive)
    pub reconciled :
        (r : ReconciliationReport) × ((reconciliation_status service.wire).outcome ≡ ok r)
        × (r.state ≡ ReconciliationState.ok)

  -- the five answers of which the context is made
  record Answered (symbol : String) (c : PolicyContext) : Type 0 where
    a : AccountSummary
    m : SymbolMetadata
    ps : List Position
    k : KillSwitchState
    r : ReconciliationReport
    has_account : (account service.wire).outcome ≡ ok a
    has_metadata : (symbol_metadata service.wire symbol).outcome ≡ ok m
    has_positions : (positions service.wire).outcome ≡ ok ps
    has_switch : (kill_switch_status service.wire).outcome ≡ ok k
    has_report : (reconciliation_status service.wire).outcome ≡ ok r
    made : c ≡ context_of service a m ps k r

  context-Answered :
      (symbol : String) (c : PolicyContext)
      → (build_open_context service symbol).outcome ≡ ok c
      → Answered symbol c
  unfolding build_open_context
  context-Answered symbol c h =
      let w = service.wire in
      let (a, ha, h1) = outcome_of_bind (from_client (account w)) _ c h in
      let (m, hm, h2) = outcome_of_bind (from_client (symbol_metadata w symbol)) _ c h1 in
      let (ps, hp, h3) = outcome_of_bind (from_client (positions w)) _ c h2 in
      let (k, hk, h4) = outcome_of_bind (from_client (kill_switch_status w)) _ c h3 in
      let (r, hr, h5) = outcome_of_bind (from_client (reconciliation_status w)) _ c h4 in
      record {
        a = a;
        m = m;
        ps = ps;
        k = k;
        r = r;
        has_account = returned service (account w) a ha;
        has_metadata = returned service (symbol_metadata w symbol) m hm;
        has_positions = returned service (positions w) ps hp;
        has_switch = returned service (kill_switch_status w) k hk;
        has_report = returned service (reconciliation_status w) r hr;
        made = sym (ok-injective _ refl h5);
      }

  Answered-context :
      (symbol : String) (c : PolicyContext)
      → Answered symbol c
      → (build_open_context service symbol).outcome ≡ ok c
  unfolding build_open_context
  Answered-context symbol c x =
      let w = service.wire in
      (from_ok _ _ _ x.a (from_client-ok (account w) x.a x.has_account)).1
      ∙ (from_ok _ _ _ x.m (from_client-ok (symbol_metadata w symbol) x.m x.has_metadata)).1
      ∙ (from_ok _ _ _ x.ps (from_client-ok (positions w) x.ps x.has_positions)).1
      ∙ (from_ok _ _ _ x.k (from_client-ok (kill_switch_status w) x.k x.has_switch)).1
      ∙ (from_ok _ _ _ x.r (from_client-ok (reconciliation_status w) x.r x.has_report)).1
      ∙ ap ok (sym x.made)

  inactive : (s : KillSwitchStatus) → is_active s ≡ false → s ≡ KillSwitchStatus.inactive
  unfolding is_active
  inactive s h = ground arith

  module _ (client_order_id symbol : String) (side : Side) (volume : Decimal) where
    abbrev request : OrderRequest
    request = open_request service client_order_id symbol side volume

    IsCleared-MayOpen : IsCleared service request → MayOpen symbol volume
    unfolding context_of
    IsCleared-MayOpen cleared =
        let (q, quoted, window) = cleared.fresh in
        let x = context-Answered symbol cleared.context cleared.built in
        let openable : IsOpenable (context_of service x.a x.m x.ps x.k x.r) request service.policy =
          rw (x.made) at cleared.openable in
        let (n, count, room) = openable.room in
        let (m, metadata, sized) = openable.sized in
        let same : m ≡ x.m = ground arith in
        record {
          fresh = (q, quoted, window.aware, window.not_stale, window.not_future);
          demo_only = openable.demo_only;
          local_demo = openable.local_demo;
          account_demo = (x.a, x.has_account, openable.account_demo);
          sized = (x.m, x.has_metadata, rw same at sized);
          room = (x.ps, x.has_positions, ground arith);
          switch_off = (x.k, x.has_switch, inactive x.k.status openable.no_kill_switch);
          reconciled = (x.r, x.has_report, openable.reconciled);
        }

    MayOpen-IsCleared : MayOpen symbol volume → IsCleared service request
    unfolding context_of remote_environment_of is_active
    MayOpen-IsCleared may =
        let (q, quoted, aware, not_stale, not_future) = may.fresh in
        let (a, has_account, demo) = may.account_demo in
        let (m, has_metadata, sized) = may.sized in
        let (ps, has_positions, room) = may.room in
        let (k, has_switch, off) = may.switch_off in
        let (r, has_report, good) = may.reconciled in
        let c = context_of service a m ps k r in
        record {
          fresh =
              (q, quoted, record { aware = aware; not_stale = not_stale; not_future = not_future });
          context = c;
          built = Answered-context symbol c (record {
            a = a;
            m = m;
            ps = ps;
            k = k;
            r = r;
            has_account = has_account;
            has_metadata = has_metadata;
            has_positions = has_positions;
            has_switch = has_switch;
            has_report = has_report;
            made = refl;
          });
          openable = record {
            demo_only = may.demo_only;
            local_demo = may.local_demo;
            remote_demo = rw demo refl;
            account = refl;
            account_demo = demo;
            reconciled = good;
            no_kill_switch = rw off refl;
            room = (length ps, refl, room);
            sized = (m, refl, sized);
          };
        }

    -- the body of the order, with the text of its side
    abbrev pub body_for : String → Fields
    body_for text = Fields.field "client_order_id" (Json.string client_order_id) (
        Fields.field "symbol" (Json.string symbol) (
          Fields.field "side" (Json.string text) (
            Fields.field "volume" (Json.string (service.wire.python.str_of_decimal volume))
              Fields.end)))

    -- the client's answer to a placement of the order that was asked for
    abbrev pub AnsweredFor : Call SafeError ExecutionResult → Type 0
    AnsweredFor call =
        (r : OrderRequest) × (r.client_order_id ≡ client_order_id)
        × (r.symbol ≡ symbol)
        × (r.side ≡ side)
        × (r.volume ≡ volume)
        × (call.outcome ≡ (from_client (place_order service.wire r)).outcome)

    -- what a call has written, and whether it was allowed to
    abbrev pub Guarded : Call SafeError ExecutionResult → Type 0
    Guarded call =
        ((text : String) × Says side text
          × (posts call.sent ≡ Sent.post WriteEndpoint.demo_orders (body_for text) ∷ [])
          × AnsweredFor call
          × MayOpen symbol volume)
        ⊎ ((posts call.sent ≡ []) × (MayOpen symbol volume → ⊥))

    said : (s : Side) → Says s (side_value s)
    said s = (λ e. rw e refl, λ e. rw e refl)

    -- safe_open posts one order, with the id, symbol, side and volume that it was called with, and
    -- returns the client's answer to it, exactly when the quote is fresh, the service is configured for
    -- DEMO with live trading off, and the bridge answers with a DEMO account, metadata of the symbol
    -- that the volume fits, fewer positions than the policy's limit, a kill switch that is off and a
    -- reconciliation that is OK; otherwise it posts nothing.
    pub safe_open-Guarded : Guarded (safe_open service client_order_id symbol side volume)
    unfolding order_body
    safe_open-Guarded = elim (safe_open-Decided service client_order_id symbol side volume) [
      | inl (wrote, answered, cleared) ↦ inl (
        side_value side,
        said side,
        wrote,
        (request, refl, refl, refl, refl, answered),
        IsCleared-MayOpen cleared,
      )
      | inr (nothing, closed) ↦ inr (nothing, λ may. closed (MayOpen-IsCleared may))
    ]

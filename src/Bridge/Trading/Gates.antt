-- ===== src/Bridge/Trading/Gates.antt =====
-- What stands between a request to open and order_send (place_demo_order, mt5_bridge/trading.py).
use tradingia.Prelude.{
  ℕ, ◌<◌, ◌≡◌, ◌≢◌, refl, ◌⊎◌, inl, inr, Bool, true, false, not, Option, none, some, List, arith,
  length,
}
use tradingia.Prelude.Result.{Result, ok, err, Result-cases}
use tradingia.Execution.Domain.{Name}
use tradingia.Bridge.QuoteFreshness.{Reason, QuoteFreshnessResult, validate_quote_freshness}
use tradingia.Bridge.Backend.{
  BackendAccountInfo, BackendTerminalInfo, BackendSymbolInfo, BackendTick, BackendPosition,
  TradeCheckResult,
}
use tradingia.Bridge.Identity.{Hashing}
use tradingia.Bridge.Store.{
  BridgeStore, ReconciliationReport, ReconciliationState, TradingCode, Flow, JournalAction,
  JournalPayload, begin_idempotent_request,
}
use tradingia.Bridge.Trading.{
  Failure, Env, World, Action, Ready, Resume, replay, refused, proceed, resume, DemoOrderRequest,
  journal, choose_order, prepare_order, place_new_order, place_demo_order,
  terminalize_pre_submission_reject, require_fresh_demo_account, fresh_or_stale,
  require_trading_permissions, require_symbol_tradable, require_fresh_quote, resume_or, as_order,
  ◌>>=◌, reads, ask, raise_if, raise, pure, try_store,
}
use tradingia.Bridge.Trading.Runs.{
  Returns, Runs, Ended, state_of_Ended, Returns-bind, Returns-except, Returns-note, Returns-lift,
  Returns-fact,
}

-- The terminal and the account allow automated trading.
pub record IsPermitted (env : Env) : Type 0 where
  pub terminal :
      (t : BackendTerminalInfo) × (env.backend.terminal_info ≡ some t)
      × (t.connected ≡ true)
      × (t.trade_allowed ≡ true)
  pub account :
      (a : BackendAccountInfo) × (env.backend.account_info_again ≡ some a)
      × (a.trade_allowed ≡ some true)
      × (a.trade_expert ≡ some true)

-- Every check before order_check passes, with this quote.
pub record IsChosen (env : Env) (request : DemoOrderRequest) (s : BridgeStore) (ready : Ready)
    : Type 0 where
  pub permitted : IsPermitted env
  pub no_kill_switch : s.kill_switch.active ≡ false
  pub reconciled :
      (r : ReconciliationReport) × (s.reconciliation ≡ some r)
      × (r.state ≡ ReconciliationState.consistent)
  pub room :
      (ps : List BackendPosition) × (env.backend.positions_get ≡ some ps)
      × (length ps < env.max_positions)
  pub tradable :
      (i : BackendSymbolInfo) × (env.backend.symbol_info request.symbol ≡ some (some i))
      × (i.visible ≡ true)
      × (i.trade_enabled ≡ some true)
      × (request.volume ≡ i.volume_min)
  pub quoted : env.backend.symbol_info_tick request.symbol ≡ some (some ready.tick)
  pub fresh :
      (q : QuoteFreshnessResult) × (validate_quote_freshness ready.tick.time_utc env.clock.quoted
          env.max_quote_age_seconds env.max_quote_future_skew_seconds
        ≡ ok q)

permissions : (env : Env) → require_trading_permissions env ≡ ok tt → IsPermitted env
unfolding require_trading_permissions
permissions env h = record { terminal = ground arith; account = ground arith }

tradable_symbol :
    (env : Env) (symbol : Name) (i : BackendSymbolInfo)
    → require_symbol_tradable env symbol ≡ ok i
    → (env.backend.symbol_info symbol ≡ some (some i))
      × (i.visible ≡ true)
      × (i.trade_enabled ≡ some true)
unfolding require_symbol_tradable
tradable_symbol env symbol i h = ground arith

is_fresh :
    (tick : BackendTick) (r : Result Reason QuoteFreshnessResult)
    → fresh_or_stale tick r ≡ ok tick
    → (q : QuoteFreshnessResult) × (r ≡ ok q)
is_fresh tick (ok q) h = (q, refl)
is_fresh tick (err reason) h = cc

pub fresh_tick :
    (env : Env) (symbol : Name) (tick : BackendTick)
    → require_fresh_quote env symbol ≡ ok tick
    → (env.backend.symbol_info_tick symbol ≡ some (some tick))
      × ((q : QuoteFreshnessResult) × (validate_quote_freshness tick.time_utc env.clock.quoted
              env.max_quote_age_seconds env.max_quote_future_skew_seconds
            ≡ ok q))
unfolding require_fresh_quote
fresh_tick env symbol tick h =
    let shown : env.backend.symbol_info_tick symbol ≡ some (some tick) = ground arith in
    (shown, is_fresh tick _ (rw shown at h))

chosen_symbol :
    (h : Hashing) (env : Env) (request : DemoOrderRequest) (s : BridgeStore) (ready : Ready)
    → choose_order h env request s ≡ ok ready
    → (i : BackendSymbolInfo) × (require_symbol_tradable env request.symbol ≡ ok i)
      × (request.volume ≡ i.volume_min)
unfolding choose_order
chosen_symbol h env request s ready e =
    elim (Result-cases (require_symbol_tradable env request.symbol)) [
      | inl (x, no_symbol) ↦ absurd (ground arith)
      | inr (i, tradable) ↦ (i, tradable, ground arith)
    ]

chosen_quote :
    (h : Hashing) (env : Env) (request : DemoOrderRequest) (s : BridgeStore) (ready : Ready)
    → choose_order h env request s ≡ ok ready
    → require_fresh_quote env request.symbol ≡ ok ready.tick
unfolding choose_order
chosen_quote h env request s ready e = ground arith

pub choose_order-IsChosen :
    (h : Hashing) (env : Env) (request : DemoOrderRequest) (s : BridgeStore) (ready : Ready)
    → choose_order h env request s ≡ ok ready
    → IsChosen env request s ready
unfolding choose_order
choose_order-IsChosen h env request s ready e =
    let (i, tradable, minimal) = chosen_symbol h env request s ready e in
    let (shown, visible, enabled) = tradable_symbol env request.symbol i tradable in
    let (quoted, fresh) =
      fresh_tick env request.symbol ready.tick (chosen_quote h env request s ready e) in
    record {
      permitted = permissions env (ground arith);
      no_kill_switch = ground arith;
      reconciled = ground arith;
      room = ground arith;
      tradable = (i, shown, visible, enabled, minimal);
      quoted = quoted;
      fresh = fresh;
    }

-- All that place_demo_order has verified when it calls order_send.
pub record IsGated (h : Hashing) (env : Env) (request : DemoOrderRequest) (s : BridgeStore)
    : Type 0 where
  pub demo :
      (a : BackendAccountInfo) × (env.backend.account_info ≡ some a)
      × (a.trade_mode_code ≡ some 0)
      × (env.backend.is_connected ≡ true)
  pub chosen :
      (ready : Ready) × (choose_order h env request s ≡ ok ready)
      × IsChosen env request s ready
      × ((c : TradeCheckResult) × (env.backend.order_check ready.trade_request ≡ some c)
          × (c.passed ≡ true))

module _ (h : Hashing) (env : Env) (request : DemoOrderRequest) (w : World) where
  -- nothing sent since `w`, and the switches as they were
  abbrev Quiet : World → Type 0
  Quiet w' =
      (w'.sent ≡ w.sent)
      × (w'.store.kill_switch ≡ w.store.kill_switch)
      × (w'.store.reconciliation ≡ w.store.reconciliation)

  -- nothing sent, or everything verified
  abbrev Verified : World → Type 0
  Verified w' = (w'.sent ≡ w.sent) ⊎ IsGated h env request w.store

  journal-Quiet :
      {E : World → Type 0} (j : Name) (action : JournalAction) (payload : JournalPayload)
      → Runs Quiet (journal env j action payload) Quiet E
  unfolding journal
  journal-Quiet j action payload = record { at = λ w' q. q }

  begin-Quiet :
      (e : Failure) (j : Name) (hash now : ℕ)
      → Runs Quiet (try_store e (begin_idempotent_request j hash now)) Quiet Quiet
  unfolding begin_idempotent_request try_store
  begin-Quiet e j hash now = record { at = λ w' q. ground arith }

  -- once everything is verified, any action will do
  after_gates :
      {A : Type 0} (m : Action A) → Runs (λ _. IsGated h env request w.store) m Verified Verified
  after_gates {A} m = record { at = λ w' g. go g (m w') }
    where
      go :
          IsGated h env request w.store
          → (x : Result Failure A × World) → Ended (λ _. Verified) Verified x
      go g (ok a, w') = inr g
      go g (err e, w') = inr g

  terminalize-Quiet :
      {A : Type 0} (Q : A → World → Type 0) (flow : Flow) (j : Name) (code : TradingCode)
      → Returns Quiet (terminalize_pre_submission_reject env flow j code) Q Verified
  unfolding terminalize_pre_submission_reject ◌>>=◌
  terminalize-Quiet Q flow j code = record { at = λ w' q. ground arith }

  same_choice :
      (w' : World)
      → Quiet w'
      → choose_order h env request w'.store ≡ choose_order h env request w.store
  unfolding choose_order
  same_choice w' q = rw (q.1, q.2)

  choose-Quiet :
      Returns Quiet
        (reads (choose_order h env request))
        (λ ready w'. Quiet w' × (choose_order h env request w.store ≡ ok ready))
        Quiet
  unfolding reads
  choose-Quiet = record {
    at = λ w' q. elim (Result-cases (choose_order h env request w.store)) [
      | inl (e, failed) ↦ rw (same_choice w' q, failed) q
      | inr (ready, chosen) ↦ rw (same_choice w' q, chosen) (q, refl)
    ];
  }

  ask-Quiet :
      {A : Type 0} (o : Option A) → Returns Quiet (ask o) (λ a w'. Quiet w' × (o ≡ some a)) Quiet
  unfolding ask
  ask-Quiet none = record { at = λ w' q. q }
  ask-Quiet (some a) = record { at = λ w' q. (q, refl) }

  raise_if-Quiet :
      (b : Bool) (e : Failure)
      → Returns Quiet (raise_if (not b) e) (λ _ w'. Quiet w' × (b ≡ true)) Quiet
  unfolding raise_if
  raise_if-Quiet true e = record { at = λ w' q. (q, refl) }
  raise_if-Quiet false e = record { at = λ w' q. q }

  module _
      (demo : (a : BackendAccountInfo) × (env.backend.account_info ≡ some a)
        × (a.trade_mode_code ≡ some 0)
        × (env.backend.is_connected ≡ true)) where
    prepare_order-IsGated :
        Returns Quiet
          (prepare_order h env request)
          (λ ready w'. IsGated h env request w.store)
          Quiet
    unfolding prepare_order pure
    prepare_order-IsGated = Returns-bind _ _ choose-Quiet λ ready. Returns-fact _ λ chosen.
        Returns-bind _ _ (ask-Quiet (env.backend.order_check ready.trade_request)) λ check.
          Returns-fact _ λ checked.
            Returns-bind _ _ (journal-Quiet request.client_order_id _ _) λ _.
              Returns-bind _ _ (raise_if-Quiet check.passed _) λ _. Returns-fact _ λ passed.
                record {
                  at = λ w' q. record {
                    demo = demo;
                    chosen = (
                      ready,
                      chosen,
                      choose_order-IsChosen h env request w.store ready chosen,
                      (check, checked, passed),
                    );
                  };
                }

    place_new_order-Verified : Runs Quiet (place_new_order h env request) Verified Verified
    unfolding place_new_order
    place_new_order-Verified =
        Returns-bind _ _
          (Returns-except _ _ prepare_order-IsGated
            (terminalize-Quiet _ Flow.place_order request.client_order_id) (λ w' q. inl q.0))
          (λ ready. after_gates _)

    resume_or-Verified :
        (next : Resume)
        → Runs Quiet
            (resume_or env Flow.place_order request.client_order_id as_order
              (place_new_order h env request)
              next)
            Verified
            Verified
    unfolding raise
    resume_or-Verified (replay state payload) =
        Returns-bind _ _ (journal-Quiet request.client_order_id _ _)
          λ _. Returns-lift _ (λ a w' e q. inl q.0) (λ w' q. inl q.0)
    resume_or-Verified refused = record { at = λ w' q. inl q.0 }
    resume_or-Verified proceed = place_new_order-Verified

  demo_account :
      require_fresh_demo_account env ≡ ok tt
      → (a : BackendAccountInfo) × (env.backend.account_info ≡ some a)
        × (a.trade_mode_code ≡ some 0)
        × (env.backend.is_connected ≡ true)
  unfolding require_fresh_demo_account
  demo_account e = ground arith

  place_demo_order-Verified : Runs Quiet (place_demo_order h env request) Verified Verified
  unfolding place_demo_order
  place_demo_order-Verified =
      Returns-bind _ _
        (Returns-lift {Q = λ _ w'. Quiet w' × (require_fresh_demo_account env ≡ ok tt)} _
          (λ a w' e q. (q, e)) (λ w' q. inl q.0))
        λ _. Returns-fact _ λ e. Returns-bind _ _ (journal-Quiet request.client_order_id _ _) λ _.
          Returns-bind _ _
            (Returns-note _ _ (begin-Quiet _ request.client_order_id _ env.clock.begun)
              (record { at = λ w' q. inl q.0 }))
            λ row. resume_or-Verified (demo_account e) (resume row)

  pub sent_or_IsGated :
      ((place_demo_order h env request w).1.sent ≡ w.sent) ⊎ IsGated h env request w.store
  sent_or_IsGated =
      state_of_Ended Verified (place_demo_order h env request w)
        (place_demo_order-Verified.at w (refl, refl, refl))

  -- If a request to open has called order_send, then, as the bridge itself saw it in that request:
  -- the account was DEMO and connected, trading was permitted, the kill switch was off, the last
  -- reconciliation was OK, there was room for a position, the symbol was tradable and the volume
  -- its minimum, the quote was fresh by the bridge's clock, and order_check had passed.
  pub order_send-IsGated :
      (place_demo_order h env request w).1.sent ≢ w.sent → IsGated h env request w.store
  order_send-IsGated sends = elim sent_or_IsGated [
    | inl same ↦ absurd (sends same)
    | inr gated ↦ gated
  ]

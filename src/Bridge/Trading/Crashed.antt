-- ===== src/Bridge/Trading/Crashed.antt =====
-- An order that crashes in order_send, from the request on (place_demo_order, mt5_bridge/trading.py).
use tradingia.Prelude.{
  ◌≤◌, ◌≡◌, ◌≢◌, ◌⊎◌, refl, sym, ap, ◌∙◌, inl, inr, Bool, true, false, Option, none, some, List, [],
  ◌∷◌, ◌++◌, arith,
}
use tradingia.Prelude.Result.{Result, ok, err, Result-cases}
use tradingia.Bridge.Backend.{TradeRequest, TradeSendResult}
use tradingia.Bridge.Identity.{Hashing, open_fields, compute_request_fingerprint}
use tradingia.Bridge.Store.{
  BridgeStore, IdempotencyRecord, OrderState, TradingCode, Flow, Event, JournalAction,
  JournalPayload, find_row, fresh_record, begin_idempotent_request,
}
use tradingia.Bridge.Store.Counts.{
  rows_of, received_of, rows-insert, received-insert, rows_of_absent, received-le-rows,
}
use tradingia.Bridge.Trading.{
  Failure, Env, World, Action, Send, Ready, DemoOrderRequest, DemoOrderResult, ◌>>=◌, ask, raise_if,
  reads, pure, journal, resume, order_subject, prepare_order, place_new_order, place_demo_order,
  require_fresh_demo_account, except_trading, submit_order, fill_order, lift, note_conflict,
  try_store, relabel, conflict, proceed, as_order, resume_or, terminalize_pre_submission_reject,
}
use tradingia.Bridge.Trading.Runs.{Runs, Returns-bind, Returns-except}
use tradingia.Bridge.Trading.SendLog.{On, terminalize-On}
use tradingia.Bridge.Trading.Crash.{bind_ok, submit_order_crashed}

pair_cases :
    {A : Type 0} (x : Result Failure A × World)
    → ((a : A) × (w : World) × (x ≡ (ok a, w))) ⊎ ((e : Failure) × (w : World) × (x ≡ (err e, w)))
pair_cases (ok a, w) = inl (a, w, refl)
pair_cases (err e, w) = inr (e, w, refl)

bind_err :
    {A B : Type 0} (m : Action A) (f : A → Action B) (w : World) (e : Failure)
    → (m w).0 ≡ err e
    → (m >>= f) w ≡ (err e, (m w).1)
unfolding ◌>>=◌
bind_err m f w e h = ap (λ r. ((λ (_ : World). (r, (m w).1)) >>= f) w) h

module _ (before : List Send) (t : List IdempotencyRecord) where
  -- nothing sent, and the rows as they were
  abbrev Keeps : World → Type 0
  Keeps w = (w.sent ≡ before) × (w.store.idempotency ≡ t)

  abbrev Unsent : World → Type 0
  Unsent = On (λ sent. sent ≡ before)

  ask-Keeps : {A : Type 0} (o : Option A) → Runs Keeps (ask o) Keeps Unsent
  unfolding ask
  ask-Keeps none = record { at = λ w p. p.0 }
  ask-Keeps (some a) = record { at = λ w p. p }

  raise_if-Keeps : (b : Bool) (e : Failure) → Runs Keeps (raise_if b e) Keeps Unsent
  unfolding raise_if
  raise_if-Keeps true e = record { at = λ w p. p.0 }
  raise_if-Keeps false e = record { at = λ w p. p }

  reads-Keeps :
      {A : Type 0} (f : BridgeStore → Result Failure A) → Runs Keeps (reads f) Keeps Unsent
  unfolding reads
  reads-Keeps f = record {
    at = λ w p. elim (Result-cases (f w.store)) [
      | inl (e, failed) ↦ rw failed p.0
      | inr (a, passed) ↦ rw passed p
    ];
  }

  prepared-Keeps :
      (h : Hashing) (env : Env) (request : DemoOrderRequest)
      → Runs Keeps (prepare_order h env request) Keeps Unsent
  unfolding prepare_order pure journal
  prepared-Keeps h env request = Returns-bind _ _ (reads-Keeps _) λ ready.
      Returns-bind _ _ (ask-Keeps _) λ check.
        Returns-bind _ _ (record { at = λ w p. p })
          λ _. Returns-bind _ _ (raise_if-Keeps _ _) λ _. record { at = λ w p. p }

  ready_or_terminalized :
      (h : Hashing) (env : Env) (request : DemoOrderRequest)
      → Runs Keeps
          (except_trading
            (prepare_order h env request)
            (terminalize_pre_submission_reject env Flow.place_order request.client_order_id))
          Keeps
          Unsent
  ready_or_terminalized h env request =
      Returns-except _ _ (prepared-Keeps h env request)
        (λ code.
          terminalize-On (λ sent. sent ≡ before) _ env Flow.place_order request.client_order_id
            code)
        (λ w q. q)

-- the request failed with one more call logged, for its id, and its row is SUBMITTED
abbrev pub Crashed : DemoOrderRequest → List Send → Result Failure DemoOrderResult × World → Type 0
Crashed request before x =
    (x.0 ≡ err (Failure.trading TradingCode.order_send_failed))
    × ((t : TradeRequest) × (x.1.sent
          ≡ before ++ record { client_order_id = request.client_order_id; request = t } ∷ []))
    × ((r : IdempotencyRecord) × (find_row request.client_order_id x.1.store.idempotency ≡ some r)
        × (r.state ≡ OrderState.submitted))

module _ (h : Hashing) (env : Env) (request : DemoOrderRequest)
    (crashes : (t : TradeRequest) → env.backend.order_send t ≡ none) where
  abbrev Outcome : World → Result Failure DemoOrderResult × World → Type 0
  Outcome w x = (x.1.sent ≡ w.sent) ⊎ Crashed request w.sent x

  abbrev prepared : Action Ready
  prepared =
      except_trading (prepare_order h env request)
        (terminalize_pre_submission_reject env Flow.place_order request.client_order_id)

  abbrev submitted : Ready → Action TradeSendResult
  submitted ready =
      submit_order env Flow.place_order request.client_order_id (order_subject request) ready

  abbrev go_on : Ready → Action DemoOrderResult
  go_on ready = submitted ready >>= fill_order env request (order_subject request) ready

  go_on-Crashed :
      (before : List Send) (t : List IdempotencyRecord) (ready : Ready) (w : World)
      → Keeps before t w
      → received_of request.client_order_id t ≡ 1
      → rows_of request.client_order_id t ≤ 1
      → Crashed request before (go_on ready w)
  go_on-Crashed before t ready w (unsent, same) one few =
      let (r, found, state, failed, logged) =
        submit_order_crashed env Flow.place_order request.client_order_id (order_subject request)
          ready w (crashes ready.trade_request) (rw (sym same) at one) (rw (sym same) at few) in
      rw
        (bind_err (submitted ready) (fill_order env request (order_subject request) ready) w _
          failed)
        (
          refl,
          (
            ready.trade_request,
            logged
                ∙ ap
                    (λ s.
                      s
                      ++ record {
                        client_order_id = request.client_order_id;
                        request = ready.trade_request;
                      }
                        ∷ [])
                    unsent,
          ),
          (r, found, state),
        )

  new_order-Outcome :
      (w : World)
      → received_of request.client_order_id w.store.idempotency ≡ 1
      → rows_of request.client_order_id w.store.idempotency ≤ 1
      → Outcome w (place_new_order h env request w)
  unfolding place_new_order
  new_order-Outcome w one few =
      let t = w.store.idempotency in
      let kept = (ready_or_terminalized w.sent t h env request).at w (refl, refl) in
      elim (pair_cases (prepared w)) [
        | inl (ready, w', e) ↦
            let keeps : Keeps w.sent t w' = rw e at kept in
            inr (
              rw (bind_ok prepared go_on w w' ready e)
                (go_on-Crashed w.sent t ready w' keeps one few))
        | inr (x, w', e) ↦
            let unsent : Unsent w.sent t w' = rw e at kept in
            inl (
              ap (λ y. y.1.sent) (bind_err prepared go_on w x (ap (λ y. y.0) e))
              ∙ ap (λ y. y.1.sent) e
              ∙ unsent)
      ]

  abbrev fresh : IdempotencyRecord
  fresh =
      fresh_record request.client_order_id
        (compute_request_fingerprint h (open_fields request.symbol request.side request.volume))
        env.clock.begun

  fresh_proceeds : resume fresh ≡ proceed
  unfolding resume
  fresh_proceeds = ground arith

  abbrev insert : Action IdempotencyRecord
  insert = try_store conflict (
      begin_idempotent_request request.client_order_id
        (compute_request_fingerprint h (open_fields request.symbol request.side request.volume))
        env.clock.begun)

  abbrev note : Action (Unit {0})
  note =
      journal env request.client_order_id (JournalAction.at Flow.place_order Event.conflict)
        JournalPayload.message

  lifted :
      (w : World)
      → require_fresh_demo_account env ≡ ok tt
      → lift (require_fresh_demo_account env) w ≡ (ok tt, w)
  unfolding lift
  lifted w demo = ap (λ r. (r, w)) demo

  abbrev journalled : World → World
  journalled w = record w {
    store = record w.store {
      journal =
          w.store.journal
          ++ record {
            request_id = env.request_id;
            client_order_id = some request.client_order_id;
            timestamp_utc = env.clock.journalled (JournalAction.at Flow.place_order Event.begin);
            action = JournalAction.at Flow.place_order Event.begin;
            payload = JournalPayload.order_begun request.symbol request.side request.volume;
          }
            ∷ [];
    };
  }

  -- the world in which the row of a new id has been inserted
  abbrev begun : World → World
  begun w = record w {
    store = record w.store {
      idempotency = w.store.idempotency ++ fresh ∷ [];
      journal = (journalled w).store.journal;
    };
  }

  begin_new :
      (w : World)
      → find_row request.client_order_id w.store.idempotency ≡ none
      → begin_idempotent_request request.client_order_id fresh.request_hash env.clock.begun
          (journalled w).store
        ≡ (ok fresh, (begun w).store)
  unfolding begin_idempotent_request
  begin_new w absent = rw (begin_idempotent_request, absent) refl

  insert_new :
      (w : World)
      → find_row request.client_order_id w.store.idempotency ≡ none
      → insert (journalled w) ≡ (ok fresh, begun w)
  unfolding try_store
  insert_new w absent =
      ap (λ x. (relabel conflict x.0, record w { store = x.1 })) (begin_new w absent)

  inserted :
      (w : World)
      → find_row request.client_order_id w.store.idempotency ≡ none
      → note_conflict insert note (journalled w) ≡ (ok fresh, begun w)
  unfolding note_conflict
  inserted w absent =
      ap (λ x. note_conflict (λ (_ : World). x) note (journalled w)) (insert_new w absent)

  begins :
      (w : World)
      → require_fresh_demo_account env ≡ ok tt
      → find_row request.client_order_id w.store.idempotency ≡ none
      → place_demo_order h env request w ≡ place_new_order h env request (begun w)
  unfolding place_demo_order journal
  begins w demo absent =
      bind_ok (lift (require_fresh_demo_account env)) _ w w tt (lifted w demo)
      ∙ bind_ok (journal env request.client_order_id _ _) _ w (journalled w) tt refl
      ∙ bind_ok (note_conflict insert note) _ (journalled w) (begun w) fresh (inserted w absent)
      ∙ ap
          (λ next.
            resume_or env Flow.place_order request.client_order_id as_order
              (place_new_order h env request) next (begun w))
          fresh_proceeds

  undemonstrated :
      (w : World) (e : Failure)
      → require_fresh_demo_account env ≡ err e
      → (place_demo_order h env request w).1.sent ≡ w.sent
  unfolding place_demo_order ◌>>=◌
  undemonstrated w e failed = ground arith

  one_new :
      (w : World)
      → find_row request.client_order_id w.store.idempotency ≡ none
      → (received_of request.client_order_id (begun w).store.idempotency ≡ 1)
        × (rows_of request.client_order_id (begun w).store.idempotency ≤ 1)
  one_new w absent =
      let t = w.store.idempotency in
      let j = request.client_order_id in
      let none_yet = rows_of_absent j t absent in
      let rows = rows-insert j j fresh.request_hash env.clock.begun t in
      let received = received-insert j j fresh.request_hash env.clock.begun t in
      (ground (arith, received-le-rows j t), ground arith)

  -- Where order_send raises, whatever it is given, and the id has no row yet, a place_demo_order that
  -- calls order_send fails with `order_send_failed`, has logged one call for its id, and leaves the
  -- id's row SUBMITTED.
  pub crash_leaves_submitted :
      (w : World)
      → find_row request.client_order_id w.store.idempotency ≡ none
      → (place_demo_order h env request w).1.sent ≢ w.sent
      → Crashed request w.sent (place_demo_order h env request w)
  crash_leaves_submitted w absent sent = elim (Result-cases (require_fresh_demo_account env)) [
    | inl (e, failed) ↦ absurd (sent (undemonstrated w e failed))
    | inr (u, demo) ↦
        let same = begins w demo absent in
        let (one, few) = one_new w absent in
        elim (new_order-Outcome (begun w) one few) [
          | inl unsent ↦ absurd (sent (ap (λ x. x.1.sent) same ∙ unsent))
          | inr crashed ↦ rw same crashed
        ]
  ]

-- ===== src/Bridge/Trading/Final.antt =====
-- A row that is FILLED or REJECTED is never written again by the write path of mt5_bridge/trading.py.
use tradingia.Prelude.{
  ℕ, ◌≤◌, ◌≡◌, ◌≢◌, refl, ap, ◌∙◌, Bool, true, false, Option, none, some, List, [], ◌∷◌, Bool-cases,
  inl, inr, length, keep, ◌==◌, arith,
}
use tradingia.Prelude.Result.{Result}
use tradingia.Execution.Domain.{Name}
use tradingia.Bridge.Backend.{TradeRequest, TradeSendResult}
use tradingia.Bridge.Identity.{Hashing}
use tradingia.Bridge.Store.{
  BridgeStore, IdempotencyRecord, OrderState, Outcome, TradingCode, Flow, JournalAction,
  JournalPayload, Subject, QuoteAudit, ResultPayload, same_state, is_incomplete, find_row,
  update_rows, begin_idempotent_request, transition_idempotency_state, update_idempotency_state,
}
use tradingia.Bridge.Store.Counts.{
  rows_of, received_of, received-le-rows, rows-insert, rows-update, is_received_row,
  length-keep-received, rows_of_absent,
}
use tradingia.Bridge.Store.Find.{find_row-update, find_row-insert_ne, find_row_id, updated}
use tradingia.Bridge.Trading.{
  Failure, Env, World, Action, Ready, Resume, replay, refused, proceed, resume, resume_or, pure,
  raise, lift, reads, ask, raise_if, with_store, try_store, log_send, journal, DemoOrderRequest,
  DemoCloseRequest, check_order, submit_order, order_answered, order_not_done,
  terminalize_pre_submission_reject, fill_order, fill_close, prepare_order, prepare_close,
  place_new_order, close_now, place_demo_order, close_demo_position, quote_audit_payload,
}
use tradingia.Bridge.Trading.Runs.{
  Runs, Returns-lift, Returns-except, Returns-note, Returns-bind, Returns-fact,
}

pub not_received :
    (st : OrderState) → is_incomplete st ≡ false → same_state st OrderState.received ≡ false
unfolding is_incomplete same_state
not_received st over = ground arith

none_received :
    (id : Name) (t : List IdempotencyRecord) (row : IdempotencyRecord)
    → find_row id t ≡ some row
    → same_state row.state OrderState.received ≡ false
    → rows_of id t ≤ 1
    → received_of id t ≡ 0
unfolding find_row rows_of received_of
none_received id [] row found over few = refl
none_received id (x ∷ t) row found over few =
    ground (arith, received-le-rows id t, none_received id t row)

module _ (id : Name) (row : IdempotencyRecord) (over : is_incomplete row.state ≡ false) where
  -- the row is there, and the id's only one
  abbrev pub Kept : World → Type 0
  Kept w = (find_row id w.store.idempotency ≡ some row) × (rows_of id w.store.idempotency ≤ 1)

  pub update_rows-Kept :
      (hit : IdempotencyRecord → Bool) (new : OrderState) (out : Outcome) (now : ℕ)
      (t : List IdempotencyRecord)
      → hit row ≡ false
      → find_row id t ≡ some row
      → find_row id (update_rows hit new out now t) ≡ some row
  update_rows-Kept hit new out now t miss found =
      find_row-update hit new out now id t row found ∙ ap some (same miss)
    where
      same : hit row ≡ false → updated hit new out now row ≡ row
      same e = rw e

  pub journal-Kept :
      (env : Env) (j : Name) (action : JournalAction) (payload : JournalPayload)
      → Runs Kept (journal env j action payload) Kept Kept
  unfolding journal
  journal-Kept env j action payload = record { at = λ w p. p }

  log_send-Kept : (j : Name) (request : TradeRequest) → Runs Kept (log_send j request) Kept Kept
  unfolding log_send
  log_send-Kept j request = record { at = λ w p. p }

  update-Kept :
      (j : Name) (new : OrderState) (out : Outcome) (now : ℕ)
      → j ≢ id
      → Runs Kept (with_store (update_idempotency_state j new out now)) Kept Kept
  unfolding update_idempotency_state with_store
  update-Kept j new out now other = record {
    at = λ w p.
        let t = w.store.idempotency in
        let hit = λ (r : IdempotencyRecord). r.client_order_id == j in
        let own = find_row_id id t row p.0 in
        (
          update_rows-Kept hit new out now t (ground arith) p.0,
          ground (arith, rows-update hit new out now id t),
        );
  }

  -- a row that moves out of RECEIVED is another one
  pub transition-Kept :
      (e : Failure) (j : Name) (new : OrderState) (out : Outcome) (now : ℕ)
      → Runs Kept
          (try_store e (transition_idempotency_state j OrderState.received new out now))
          (λ w. Kept w × (j ≢ id))
          Kept
  unfolding transition_idempotency_state try_store
  transition-Kept e j new out now = record {
    at = λ w p.
        let t = w.store.idempotency in
        let shut = not_received row.state over in
        elim (Bool-cases (length (keep (is_received_row j) t) == 1)) [
          | inl moved ↦ rw moved (
            (
              update_rows-Kept (is_received_row j) new out now t (ground arith) p.0,
              ground (arith, rows-update (is_received_row j) new out now id t),
            ),
            λ same.
                let moved_row : received_of j t ≡ received_of id t =
                  ap (λ x. received_of x t) same in
                ground (arith, length-keep-received j t, none_received id t row p.0 shut p.1),
          )
          | inr stays ↦ rw stays p
        ];
  }

  begin-Kept :
      (e : Failure) (j : Name) (hash now : ℕ)
      → Runs Kept (try_store e (begin_idempotent_request j hash now)) Kept Kept
  unfolding begin_idempotent_request try_store
  begin-Kept e j hash now = record {
    at = λ w p.
        let t = w.store.idempotency in
        ground (
          arith,
          rows-insert id j hash now t,
          find_row-insert_ne id j hash now t,
          rows_of_absent j t,
        );
  }

  raise-Kept : {A : Type 0} (e : Failure) → Runs {A = A} Kept (raise e) Kept Kept
  unfolding raise
  raise-Kept e = record { at = λ w p. p }

  lift-Kept : {A : Type 0} (r : Result Failure A) → Runs Kept (lift r) Kept Kept
  lift-Kept r = Returns-lift r (λ a w e p. p) (λ w p. p)

  pure-Kept : {A : Type 0} (a : A) → Runs Kept (pure a) Kept Kept
  unfolding pure
  pure-Kept a = record { at = λ w p. p }

  ask-Kept : {A : Type 0} (o : Option A) → Runs Kept (ask o) Kept Kept
  unfolding ask
  ask-Kept none = record { at = λ w p. p }
  ask-Kept (some a) = record { at = λ w p. p }

  reads-Kept : {A : Type 0} (f : BridgeStore → Result Failure A) → Runs Kept (reads f) Kept Kept
  unfolding reads lift
  reads-Kept f = record { at = λ w p. (lift-Kept (f w.store)).at w p }

  raise_if-Kept : (b : Bool) (e : Failure) → Runs Kept (raise_if b e) Kept Kept
  unfolding raise_if
  raise_if-Kept true e = record { at = λ w p. p }
  raise_if-Kept false e = record { at = λ w p. p }

  terminalize-Kept :
      {A : Type 0} (env : Env) (flow : Flow) (j : Name) (code : TradingCode)
      → Runs {A = A} Kept (terminalize_pre_submission_reject env flow j code) Kept Kept
  unfolding terminalize_pre_submission_reject
  terminalize-Kept env flow j code =
      Returns-bind _ _ (transition-Kept _ j OrderState.rejected _ env.clock.rejected)
        λ _. Returns-fact _ λ other. Returns-bind _ _ (journal-Kept env j _ _) λ _. raise-Kept _

  check_order-Kept :
      (env : Env) (flow : Flow) (j : Name) (subject : Subject) (ready : Ready)
      → Runs Kept (check_order env flow j subject ready) Kept Kept
  unfolding check_order
  check_order-Kept env flow j subject ready = Returns-bind _ _ (ask-Kept _) λ _.
      Returns-bind _ _ (journal-Kept env j _ _)
        λ _. Returns-bind _ _ (raise_if-Kept _ _) λ _. pure-Kept _

  -- what follows writes to a row of another id
  order_answered-Kept :
      (env : Env) (flow : Flow) (j : Name) (subject : Subject) (audit : QuoteAudit)
      (answer : Option TradeSendResult)
      → j ≢ id
      → Runs Kept (order_answered env flow j subject audit answer) (λ w. Kept w × (j ≢ id)) Kept
  unfolding order_answered order_not_done raise pure
  order_answered-Kept env flow j subject audit none other =
      Returns-bind _ _ (journal-Kept env j _ _) λ _. record { at = λ w p. p }
  order_answered-Kept env flow j subject audit (some r) other =
      elim (Bool-cases (r.retcode == 10009)) [
        | inl done ↦ rw done (record { at = λ w p. (p, other) })
        | inr undone ↦ rw undone (
            Returns-bind _ _ (update-Kept j OrderState.rejected _ env.clock.recorded other)
              λ _. Returns-bind _ _ (journal-Kept env j _ _) λ _. record { at = λ w p. p })
      ]

  submit_order-Kept :
      (env : Env) (flow : Flow) (j : Name) (subject : Subject) (ready : Ready)
      → Runs Kept (submit_order env flow j subject ready) (λ w. Kept w × (j ≢ id)) Kept
  unfolding submit_order
  submit_order-Kept env flow j subject ready =
      Returns-bind _ _ (transition-Kept _ j OrderState.submitted _ env.clock.submitted) λ _.
        Returns-fact _ λ other. Returns-bind _ _ (journal-Kept env j _ _) λ _.
          Returns-bind _ _ (log_send-Kept j _) λ _.
            order_answered-Kept env flow j subject
              (quote_audit_payload ready.tick ready.reference_price)
              (env.backend.order_send ready.trade_request) other

  place_new_order-Kept :
      (h : Hashing) (env : Env) (request : DemoOrderRequest)
      → Runs Kept (place_new_order h env request) Kept Kept
  unfolding place_new_order prepare_order fill_order
  place_new_order-Kept h env request =
      Returns-bind _ _
        (Returns-except _ _
          (Returns-bind _ _ (reads-Kept _)
            λ ready. check_order-Kept env Flow.place_order request.client_order_id _ ready)
          (terminalize-Kept env Flow.place_order request.client_order_id) (λ w p. p))
        λ ready.
          Returns-bind _ _ (submit_order-Kept env Flow.place_order request.client_order_id _ ready)
            λ r. Returns-fact _ λ other.
              Returns-bind _ _
                (update-Kept request.client_order_id OrderState.filled _ env.clock.recorded other)
                λ _. Returns-bind _ _ (journal-Kept env _ _ _) λ _. pure-Kept _

  close_now-Kept :
      (h : Hashing) (env : Env) (request : DemoCloseRequest)
      → Runs Kept (close_now h env request) Kept Kept
  unfolding close_now prepare_close fill_close
  close_now-Kept h env request =
      Returns-bind _ _
        (Returns-except _ _
          (Returns-bind _ _ (lift-Kept _) λ chosen. Returns-bind _ _ (journal-Kept env _ _ _) λ _.
            Returns-bind _ _
              (check_order-Kept env Flow.close_position request.client_order_id _ chosen.1)
              λ ready. pure-Kept _)
          (terminalize-Kept env Flow.close_position request.client_order_id) (λ w p. p))
        λ chosen.
          Returns-bind _ _
            (submit_order-Kept env Flow.close_position request.client_order_id _ chosen.1)
            λ r. Returns-fact _ λ other.
              Returns-bind _ _
                (update-Kept request.client_order_id OrderState.filled _ env.clock.recorded other)
                λ _. Returns-bind _ _ (journal-Kept env _ _ _) λ _. pure-Kept _

  resume_or-Kept :
      {A : Type 0} (env : Env) (flow : Flow) (j : Name) (read : ResultPayload → Result Failure A)
      (go : Action A) (next : Resume)
      → Runs Kept go Kept Kept
      → Runs Kept (resume_or env flow j read go next) Kept Kept
  resume_or-Kept env flow j read go (replay state payload) runs =
      Returns-bind _ _ (journal-Kept env j _ _) λ _. lift-Kept _
  resume_or-Kept env flow j read go refused runs = raise-Kept _
  resume_or-Kept env flow j read go proceed runs = runs

  pub place_demo_order-Kept :
      (h : Hashing) (env : Env) (request : DemoOrderRequest)
      → Runs Kept (place_demo_order h env request) Kept Kept
  unfolding place_demo_order
  place_demo_order-Kept h env request = Returns-bind _ _ (lift-Kept _) λ _.
      Returns-bind _ _ (journal-Kept env _ _ _) λ _.
        Returns-bind _ _
          (Returns-note _ _ (begin-Kept _ request.client_order_id _ env.clock.begun)
            (journal-Kept env _ _ _))
          λ row'. resume_or-Kept env _ _ _ _ (resume row') (place_new_order-Kept h env request)

  pub close_demo_position-Kept :
      (h : Hashing) (env : Env) (request : DemoCloseRequest)
      → Runs Kept (close_demo_position h env request) Kept Kept
  unfolding close_demo_position
  close_demo_position-Kept h env request = Returns-bind _ _ (lift-Kept _) λ _.
      Returns-bind _ _ (journal-Kept env _ _ _) λ _.
        Returns-bind _ _
          (Returns-note _ _ (begin-Kept _ request.client_order_id _ env.clock.begun)
            (journal-Kept env _ _ _))
          λ row'. resume_or-Kept env _ _ _ _ (resume row') (close_now-Kept h env request)

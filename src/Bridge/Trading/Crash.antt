-- ===== src/Bridge/Trading/Crash.antt =====
-- The crash window of mt5_bridge/trading.py: order_send raises, so nobody knows whether it went out.
use tradingia.Prelude.{
  ◌≤◌, ◌≡◌, refl, inl, inr, ap, ◌∙◌, true, Option, none, some, List, [], ◌∷◌, ◌++◌, Bool-cases,
  ◌==◌, length, keep, arith,
}
use tradingia.Prelude.Result.{ok, err}
use tradingia.Execution.Domain.{Name}
use tradingia.Bridge.Backend.{TradeSendResult}
use tradingia.Bridge.Store.{
  IdempotencyRecord, OrderState, no_outcome, TradingCode, Event, JournalAction, JournalPayload,
  Flow, Subject, find_row, update_rows, transition_idempotency_state,
}
use tradingia.Bridge.Store.Counts.{
  rows_of, received_of, is_received_row, length-keep-received, received-le-rows,
}
use tradingia.Bridge.Store.Find.{find_row-update, updated}
use tradingia.Bridge.Trading.{
  Env, World, Action, Ready, try_store, log_send, journal, ◌>>=◌, ◌>>◌, submit_order,
  order_answered, quote_audit_payload, enter_submitted, Failure,
}

received_row :
    (id : Name) (t : List IdempotencyRecord)
    → received_of id t ≡ 1
    → rows_of id t ≤ 1
    → (r : IdempotencyRecord) × (find_row id t ≡ some r) × (is_received_row id r ≡ true)
unfolding find_row received_of rows_of
received_row id [] one few = absurd (omega arith)
received_row id (x ∷ t) one few = elim (Bool-cases (x.client_order_id == id)) [
  | inl here ↦ (x, ground arith, ground (arith, received-le-rows id t))
  | inr there ↦
      let (r, found, hit) = received_row id t (ground arith) (ground arith) in
      (r, ground arith, hit)
]

pub bind_ok :
    {A B : Type 0} (m : Action A) (f : A → Action B) (w w' : World) (a : A)
    → m w ≡ (ok a, w')
    → (m >>= f) w ≡ f a w'
unfolding ◌>>=◌
bind_ok m f w w' a e = ap (λ x. ((λ _. x) >>= f) w) e

module _ (env : Env) (flow : Flow) (j : Name) (subject : Subject) (ready : Ready) (w : World) where
  -- the world in which the row is SUBMITTED
  abbrev entered : World
  entered = record w {
    store = record w.store {
      idempotency =
          update_rows (is_received_row j) OrderState.submitted no_outcome env.clock.submitted
            w.store.idempotency;
    };
  }

  enters :
      (length (keep (is_received_row j) w.store.idempotency) == 1) ≡ true
      → enter_submitted j env w ≡ (ok tt, entered)
  unfolding try_store transition_idempotency_state
  enters moved = rw moved

  -- what comes after the transition, with the terminal's answer
  abbrev after_entering : Option TradeSendResult → Action TradeSendResult
  after_entering answer =
      journal env j (JournalAction.at flow Event.submitting)
        (JournalPayload.quoted subject (quote_audit_payload ready.tick ready.reference_price))
      >> (log_send j ready.trade_request
          >> order_answered env flow j subject
              (quote_audit_payload ready.tick ready.reference_price) answer)

  crashed :
      env.backend.order_send ready.trade_request ≡ none
      → (length (keep (is_received_row j) w.store.idempotency) == 1) ≡ true
      → submit_order env flow j subject ready w ≡ after_entering none entered
  unfolding submit_order
  crashed crash moved =
      bind_ok (enter_submitted j env)
        (λ _. after_entering (env.backend.order_send ready.trade_request)) w entered tt
        (enters moved)
      ∙ ap (λ answer. after_entering answer entered) crash

  pub submit_order_crashed :
      env.backend.order_send ready.trade_request ≡ none
      → received_of j w.store.idempotency ≡ 1
      → rows_of j w.store.idempotency ≤ 1
      → let x = submit_order env flow j subject ready w in
        (r : IdempotencyRecord) × (find_row j x.1.store.idempotency ≡ some r)
        × (r.state ≡ OrderState.submitted)
        × (x.0 ≡ err (Failure.trading TradingCode.order_send_failed))
        × (x.1.sent ≡ w.sent ++ record { client_order_id = j; request = ready.trade_request } ∷ [])
  unfolding order_answered journal ◌>>=◌
  submit_order_crashed crash one few =
      let t = w.store.idempotency in
      let (r, found, hit) = received_row j t one few in
      let moved : (length (keep (is_received_row j) t) == 1) ≡ true =
        ground (arith, length-keep-received j t) in
      rw (crashed crash moved) (
        updated (is_received_row j) OrderState.submitted no_outcome env.clock.submitted r,
        find_row-update (is_received_row j) OrderState.submitted no_outcome env.clock.submitted j t
            r found,
        rw hit,
        refl,
        refl,
      )

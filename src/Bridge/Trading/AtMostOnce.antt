-- ===== src/Bridge/Trading/AtMostOnce.antt =====
-- No client_order_id is ever sent twice: the invariant, kept by every request (mt5_bridge/trading.py,
-- mt5_bridge/reconciliation.py).
use tradingia.Prelude.{refl, ◌==◌, Option, none, some, Bool-cases, inl, inr}
use tradingia.Prelude.Result.{Result}
use tradingia.Execution.Domain.{Name}
use tradingia.Bridge.Backend.{TradeSendResult}
use tradingia.Bridge.Identity.{Hashing}
use tradingia.Bridge.Store.{
  OrderState, same_state, TradingCode, Flow, ResultPayload, Subject, QuoteAudit,
}
use tradingia.Bridge.Store.Counts.{one_if}
use tradingia.Bridge.Trading.Monad.{Failure, Env, Action}
use tradingia.Bridge.Trading.Guards.{DemoOrderRequest, DemoCloseRequest, Ready}
use tradingia.Bridge.Trading.Stages.{
  terminalize_pre_submission_reject, check_order, order_answered, submit_order, Resume, replay,
  refused, proceed, resume, quote_audit_payload,
}
use tradingia.Bridge.Trading.Runs.{Runs, Returns-except, Returns-note, Returns-bind}
use tradingia.Bridge.Trading.Room.{
  IsSafe, journal-HasRoom, update-IsSafe, log_send-IsSafe, transition-HasRoom, begin-IsSafe,
  raise-IsSafe, lift-IsSafe, pure-IsSafe, ask-IsSafe, reads-IsSafe, raise_if-IsSafe,
}
use tradingia.Bridge.Trading.{
  resume_or, place_new_order, place_demo_order, close_now, close_demo_position,
}

module _ (id : Name) where
  terminalize-IsSafe :
      {A : Type 0} (env : Env) (flow : Flow) (j : Name) (code : TradingCode)
      → Runs {A = A}
          (IsSafe id)
          (terminalize_pre_submission_reject env flow j code)
          (IsSafe id)
          (IsSafe id)
  unfolding terminalize_pre_submission_reject same_state
  terminalize-IsSafe env flow j code =
      Returns-bind _ _ (transition-HasRoom id _ j OrderState.rejected _ env.clock.rejected refl)
        λ _.
          Returns-bind _ _ (journal-HasRoom id (one_if (j == id)) env j _ _)
            λ _. raise-IsSafe id (one_if (j == id)) _

  check_order-IsSafe :
      (env : Env) (flow : Flow) (j : Name) (subject : Subject) (ready : Ready)
      → Runs (IsSafe id) (check_order env flow j subject ready) (IsSafe id) (IsSafe id)
  unfolding check_order
  check_order-IsSafe env flow j subject ready = Returns-bind _ _ (ask-IsSafe id _) λ _.
      Returns-bind _ _ (journal-HasRoom id 0 env j _ _)
        λ _. Returns-bind _ _ (raise_if-IsSafe id _ _) λ _. pure-IsSafe id _

  order_answered-IsSafe :
      (env : Env) (flow : Flow) (j : Name) (subject : Subject) (audit : QuoteAudit)
      (answer : Option TradeSendResult)
      → Runs (IsSafe id) (order_answered env flow j subject audit answer) (IsSafe id) (IsSafe id)
  unfolding order_answered same_state
  order_answered-IsSafe env flow j subject audit none =
      Returns-bind _ _ (journal-HasRoom id 0 env j _ _) λ _. raise-IsSafe id 0 _
  order_answered-IsSafe env flow j subject audit (some r) = elim (Bool-cases (r.retcode == 10009)) [
    | inl done ↦ rw done (pure-IsSafe id r)
    | inr other ↦ rw other (
        Returns-bind _ _ (update-IsSafe id j OrderState.rejected _ env.clock.recorded refl)
          λ _. Returns-bind _ _ (journal-HasRoom id 0 env j _ _) λ _. raise-IsSafe id 0 _)
  ]

  submit_order-IsSafe :
      (env : Env) (flow : Flow) (j : Name) (subject : Subject) (ready : Ready)
      → Runs (IsSafe id) (submit_order env flow j subject ready) (IsSafe id) (IsSafe id)
  unfolding submit_order same_state
  submit_order-IsSafe env flow j subject ready =
      Returns-bind _ _ (transition-HasRoom id _ j OrderState.submitted _ env.clock.submitted refl)
        λ _. Returns-bind _ _ (journal-HasRoom id (one_if (j == id)) env j _ _) λ _.
          Returns-bind _ _ (log_send-IsSafe id j _) λ _.
            order_answered-IsSafe env flow j subject
              (quote_audit_payload ready.tick ready.reference_price)
              (env.backend.order_send ready.trade_request)

  place_new_order-IsSafe :
      (h : Hashing) (env : Env) (request : DemoOrderRequest)
      → Runs (IsSafe id) (place_new_order h env request) (IsSafe id) (IsSafe id)
  unfolding place_new_order same_state
  place_new_order-IsSafe h env request =
      Returns-bind _ _
        (Returns-except _ _
          (Returns-bind _ _ (reads-IsSafe id _)
            λ ready. check_order-IsSafe env Flow.place_order request.client_order_id _ ready)
          (terminalize-IsSafe env Flow.place_order request.client_order_id) (λ w p. p))
        λ ready.
          Returns-bind _ _
            (submit_order-IsSafe env Flow.place_order request.client_order_id _ ready)
            λ r.
              Returns-bind _ _
                (update-IsSafe id request.client_order_id OrderState.filled _ env.clock.recorded
                  refl)
                λ _.
                  Returns-bind _ _ (journal-HasRoom id 0 env request.client_order_id _ _)
                    λ _. pure-IsSafe id _

  close_now-IsSafe :
      (h : Hashing) (env : Env) (request : DemoCloseRequest)
      → Runs (IsSafe id) (close_now h env request) (IsSafe id) (IsSafe id)
  unfolding close_now same_state
  close_now-IsSafe h env request =
      Returns-bind _ _
        (Returns-except _ _
          (Returns-bind _ _ (lift-IsSafe id _) λ chosen.
            Returns-bind _ _ (journal-HasRoom id 0 env request.client_order_id _ _) λ _.
              Returns-bind _ _
                (check_order-IsSafe env Flow.close_position request.client_order_id _ chosen.1)
                λ ready. pure-IsSafe id _)
          (terminalize-IsSafe env Flow.close_position request.client_order_id) (λ w p. p))
        λ chosen.
          Returns-bind _ _
            (submit_order-IsSafe env Flow.close_position request.client_order_id _ chosen.1)
            λ r.
              Returns-bind _ _
                (update-IsSafe id request.client_order_id OrderState.filled _ env.clock.recorded
                  refl)
                λ _.
                  Returns-bind _ _ (journal-HasRoom id 0 env request.client_order_id _ _)
                    λ _. pure-IsSafe id _

  resume_or-IsSafe :
      {A : Type 0} (env : Env) (flow : Flow) (j : Name) (read : ResultPayload → Result Failure A)
      (go : Action A) (next : Resume)
      → Runs (IsSafe id) go (IsSafe id) (IsSafe id)
      → Runs (IsSafe id) (resume_or env flow j read go next) (IsSafe id) (IsSafe id)
  resume_or-IsSafe env flow j read go (replay state payload) runs =
      Returns-bind _ _ (journal-HasRoom id 0 env j _ _) λ _. lift-IsSafe id _
  resume_or-IsSafe env flow j read go refused runs = raise-IsSafe id 0 _
  resume_or-IsSafe env flow j read go proceed runs = runs

  pub place_demo_order-IsSafe :
      (h : Hashing) (env : Env) (request : DemoOrderRequest)
      → Runs (IsSafe id) (place_demo_order h env request) (IsSafe id) (IsSafe id)
  unfolding place_demo_order
  place_demo_order-IsSafe h env request = Returns-bind _ _ (lift-IsSafe id _) λ _.
      Returns-bind _ _ (journal-HasRoom id 0 env request.client_order_id _ _) λ _.
        Returns-bind _ _
          (Returns-note _ _ (begin-IsSafe id _ request.client_order_id _ env.clock.begun)
            (journal-HasRoom id 0 env request.client_order_id _ _))
          λ row. resume_or-IsSafe env _ _ _ _ (resume row) (place_new_order-IsSafe h env request)

  pub close_demo_position-IsSafe :
      (h : Hashing) (env : Env) (request : DemoCloseRequest)
      → Runs (IsSafe id) (close_demo_position h env request) (IsSafe id) (IsSafe id)
  unfolding close_demo_position
  close_demo_position-IsSafe h env request = Returns-bind _ _ (lift-IsSafe id _) λ _.
      Returns-bind _ _ (journal-HasRoom id 0 env request.client_order_id _ _) λ _.
        Returns-bind _ _
          (Returns-note _ _ (begin-IsSafe id _ request.client_order_id _ env.clock.begun)
            (journal-HasRoom id 0 env request.client_order_id _ _))
          λ row. resume_or-IsSafe env _ _ _ _ (resume row) (close_now-IsSafe h env request)

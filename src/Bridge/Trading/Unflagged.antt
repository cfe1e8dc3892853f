-- ===== src/Bridge/Trading/Unflagged.antt =====
-- Actions that look neither at the kill switch nor at the reconciliation status, and
-- close_demo_position (mt5_bridge/trading.py) as one of them.
use tradingia.Prelude.{
  ℕ, ◌≡◌, refl, ap, ◌∙◌, Bool, true, false, Option, none, some, Bool-cases, inl, inr, length, keep,
  ◌==◌, ◌&&◌, if◌then◌else◌, arith,
}
use tradingia.Prelude.Result.{Result, ok, err}
use tradingia.Execution.Domain.{Name}
use tradingia.Bridge.Backend.{BackendPosition, TradeRequest, TradeSendResult, trade_retcode_done}
use tradingia.Bridge.Identity.{Hashing}
use tradingia.Bridge.Store.{
  OrderState, KillSwitch, ReconciliationReport, TradingCode, Outcome, Flow, JournalAction,
  JournalPayload, Subject, QuoteAudit, same_state, begin_idempotent_request,
  transition_idempotency_state, update_idempotency_state,
}
use tradingia.Bridge.Trading.{
  Failure, trading, conflict, backend_error, type_error, Env, World, Action, Ready, Resume, replay,
  refused, proceed, resume, resume_or, as_close, pure, raise, lift, ask, raise_if, with_store,
  try_store, except_trading, note_conflict, log_send, journal, ◌>>=◌, DemoCloseRequest, check_order,
  submit_order, order_answered, order_not_done, terminalize_pre_submission_reject, fill_close,
  quote_audit_payload, prepare_close, close_now, close_demo_position,
}

-- the world with another kill switch and another reconciliation status
abbrev pub flagged : KillSwitch → Option ReconciliationReport → World → World
flagged k report w = record w {
  store = record w.store { kill_switch = k; reconciliation = report };
}

abbrev pub flagged_after :
    {A : Type 0}
    → KillSwitch
    → Option ReconciliationReport
    → Result Failure A × World
    → Result Failure A × World
flagged_after k report x = (x.0, flagged k report x.1)

-- the action does the same, and leaves the two as they are
pub record IsUnflagged {A : Type 0} (m : Action A) : Type 0 where
  pub at :
      (k : KillSwitch) (report : Option ReconciliationReport) (w : World)
      → m (flagged k report w) ≡ flagged_after k report (m w)

module _ {A : Type 0} where
  IsUnflagged-lift : (r : Result Failure A) → IsUnflagged (lift r)
  unfolding lift
  IsUnflagged-lift r = record { at = λ k report w. refl }

  IsUnflagged-raise : (e : Failure) → IsUnflagged {A = A} (raise e)
  unfolding raise
  IsUnflagged-raise e = record { at = λ k report w. refl }

  IsUnflagged-pure : (a : A) → IsUnflagged (pure a)
  unfolding pure
  IsUnflagged-pure a = record { at = λ k report w. refl }

  IsUnflagged-if :
      (b : Bool) {m n : Action A} → IsUnflagged m → IsUnflagged n → IsUnflagged (if b then m else n)
  IsUnflagged-if true um un = um
  IsUnflagged-if false um un = un

  IsUnflagged-ask : (o : Option A) → IsUnflagged (ask o)
  unfolding ask
  IsUnflagged-ask none = record { at = λ k report w. refl }
  IsUnflagged-ask (some a) = record { at = λ k report w. refl }

  IsUnflagged-except :
      (m : Action A) (handler : TradingCode → Action A)
      → IsUnflagged m
      → ((code : TradingCode) → IsUnflagged (handler code))
      → IsUnflagged (except_trading m handler)
  unfolding except_trading
  IsUnflagged-except m handler um uh = record {
    at = λ k report w.
        ap (λ x. except_trading (λ _. x) handler x.1) (um.at k report w) ∙ go k report (m w);
  }
    where
      go :
          (k : KillSwitch) (report : Option ReconciliationReport) (x : Result Failure A × World)
          → except_trading (λ _. flagged_after k report x) handler x.1
            ≡ flagged_after k report (except_trading (λ _. x) handler x.1)
      go k report (ok a, w) = refl
      go k report (err (trading code), w) = (uh code).at k report w
      go k report (err conflict, w) = refl
      go k report (err backend_error, w) = refl
      go k report (err type_error, w) = refl

  IsUnflagged-note :
      (m : Action A) (note : Action (Unit {0}))
      → IsUnflagged m
      → IsUnflagged note
      → IsUnflagged (note_conflict m note)
  unfolding note_conflict
  IsUnflagged-note m note um un = record {
    at = λ k report w.
        ap (λ x. note_conflict (λ _. x) note x.1) (um.at k report w) ∙ go k report (m w);
  }
    where
      go :
          (k : KillSwitch) (report : Option ReconciliationReport) (x : Result Failure A × World)
          → note_conflict (λ _. flagged_after k report x) note x.1
            ≡ flagged_after k report (note_conflict (λ _. x) note x.1)
      go k report (ok a, w) = refl
      go k report (err e, w) = ap (λ x. (err e, x.1)) (un.at k report w)

IsUnflagged-bind :
    {A B : Type 0} (m : Action A) (f : A → Action B)
    → IsUnflagged m
    → ((a : A) → IsUnflagged (f a))
    → IsUnflagged (m >>= f)
unfolding ◌>>=◌
IsUnflagged-bind {A} {B} m f um uf = record {
  at = λ k report w. ap (λ x. ((λ _. x) >>= f) x.1) (um.at k report w) ∙ go k report (m w);
}
  where
    go :
        (k : KillSwitch) (report : Option ReconciliationReport) (x : Result Failure A × World)
        → ((λ _. flagged_after k report x) >>= f) x.1
          ≡ flagged_after k report (((λ _. x) >>= f) x.1)
    go k report (ok a, w) = (uf a).at k report w
    go k report (err e, w) = refl

module _ (env : Env) where
  IsUnflagged-journal :
      (id : Name) (action : JournalAction) (payload : JournalPayload)
      → IsUnflagged (journal env id action payload)
  unfolding journal
  IsUnflagged-journal id action payload = record { at = λ k report w. refl }

  IsUnflagged-raise_if : (b : Bool) (e : Failure) → IsUnflagged (raise_if b e)
  unfolding raise_if
  IsUnflagged-raise_if true e = record { at = λ k report w. refl }
  IsUnflagged-raise_if false e = record { at = λ k report w. refl }

  IsUnflagged-begin :
      (e : Failure) (id : Name) (hash now : ℕ)
      → IsUnflagged (try_store e (begin_idempotent_request id hash now))
  unfolding try_store begin_idempotent_request
  IsUnflagged-begin e id hash now = record { at = λ k report w. ground arith }

  IsUnflagged-transition :
      (e : Failure) (id : Name) (old new : OrderState) (out : Outcome) (now : ℕ)
      → IsUnflagged (try_store e (transition_idempotency_state id old new out now))
  unfolding try_store transition_idempotency_state
  IsUnflagged-transition e id old new out now = record {
    at = λ k report w.
        elim (Bool-cases (
          length (keep (λ r. r.client_order_id == id && same_state r.state old) w.store.idempotency)
          == 1)) [ inl moved ↦ rw moved | inr stays ↦ rw stays ];
  }

  IsUnflagged-update :
      (id : Name) (st : OrderState) (out : Outcome) (now : ℕ)
      → IsUnflagged (with_store (update_idempotency_state id st out now))
  unfolding with_store update_idempotency_state
  IsUnflagged-update id st out now = record { at = λ k report w. refl }

  IsUnflagged-log : (id : Name) (r : TradeRequest) → IsUnflagged (log_send id r)
  unfolding log_send
  IsUnflagged-log id r = record { at = λ k report w. refl }

  IsUnflagged-terminalize :
      {A : Type 0} (flow : Flow) (id : Name) (code : TradingCode)
      → IsUnflagged {A = A} (terminalize_pre_submission_reject env flow id code)
  unfolding terminalize_pre_submission_reject
  IsUnflagged-terminalize flow id code =
      IsUnflagged-bind _ _ (IsUnflagged-transition _ id _ _ _ _)
        λ _. IsUnflagged-bind _ _ (IsUnflagged-journal id _ _) λ _. IsUnflagged-raise _

  IsUnflagged-check :
      (flow : Flow) (id : Name) (subject : Subject) (ready : Ready)
      → IsUnflagged (check_order env flow id subject ready)
  unfolding check_order
  IsUnflagged-check flow id subject ready = IsUnflagged-bind _ _ (IsUnflagged-ask _) λ check.
      IsUnflagged-bind _ _ (IsUnflagged-journal id _ _)
        λ _. IsUnflagged-bind _ _ (IsUnflagged-raise_if _ _) λ _. IsUnflagged-pure ready

  IsUnflagged-not_done :
      (flow : Flow) (id : Name) (subject : Subject) (audit : QuoteAudit) (r : TradeSendResult)
      → IsUnflagged (order_not_done env flow id subject audit r)
  unfolding order_not_done
  IsUnflagged-not_done flow id subject audit r =
      IsUnflagged-bind _ _ (IsUnflagged-update id _ _ _)
        λ _. IsUnflagged-bind _ _ (IsUnflagged-journal id _ _) λ _. IsUnflagged-raise _

  IsUnflagged-answered :
      (flow : Flow) (id : Name) (subject : Subject) (audit : QuoteAudit)
      (r : Option TradeSendResult)
      → IsUnflagged (order_answered env flow id subject audit r)
  unfolding order_answered
  IsUnflagged-answered flow id subject audit none =
      IsUnflagged-bind _ _ (IsUnflagged-journal id _ _) λ _. IsUnflagged-raise _
  IsUnflagged-answered flow id subject audit (some r) =
      IsUnflagged-if (r.retcode == trade_retcode_done) (IsUnflagged-pure r)
        (IsUnflagged-not_done flow id subject audit r)

  IsUnflagged-submit :
      (flow : Flow) (id : Name) (subject : Subject) (ready : Ready)
      → IsUnflagged (submit_order env flow id subject ready)
  unfolding submit_order
  IsUnflagged-submit flow id subject ready =
      IsUnflagged-bind _ _ (IsUnflagged-transition _ id _ _ _ _) λ _.
        IsUnflagged-bind _ _ (IsUnflagged-journal id _ _) λ _.
          IsUnflagged-bind _ _ (IsUnflagged-log id _) λ _.
            IsUnflagged-answered flow id subject
              (quote_audit_payload ready.tick ready.reference_price)
              (env.backend.order_send ready.trade_request)

  IsUnflagged-fill :
      (request : DemoCloseRequest) (subject : Subject) (position : BackendPosition) (ready : Ready)
      (r : TradeSendResult)
      → IsUnflagged (fill_close env request subject position ready r)
  unfolding fill_close
  IsUnflagged-fill request subject position ready r =
      IsUnflagged-bind _ _ (IsUnflagged-update _ _ _ _)
        λ _. IsUnflagged-bind _ _ (IsUnflagged-journal _ _ _) λ _. IsUnflagged-pure _

  module _ (h : Hashing) (request : DemoCloseRequest) where
    IsUnflagged-prepare : IsUnflagged (prepare_close h env request)
    unfolding prepare_close
    IsUnflagged-prepare = IsUnflagged-bind _ _ (IsUnflagged-lift _) λ chosen.
        IsUnflagged-bind _ _ (IsUnflagged-journal _ _ _)
          λ _. IsUnflagged-bind _ _ (IsUnflagged-check _ _ _ chosen.1) λ ready. IsUnflagged-pure _

    IsUnflagged-close_now : IsUnflagged (close_now h env request)
    unfolding close_now
    IsUnflagged-close_now =
        IsUnflagged-bind _ _
          (IsUnflagged-except _ _ IsUnflagged-prepare λ code. IsUnflagged-terminalize _ _ code)
          λ chosen.
            IsUnflagged-bind _ _ (IsUnflagged-submit _ _ _ chosen.1)
              λ r. IsUnflagged-fill request _ chosen.0 chosen.1 r

    IsUnflagged-resume :
        (next : Resume)
        → IsUnflagged (
            resume_or env Flow.close_position request.client_order_id as_close
              (close_now h env request)
              next)
    IsUnflagged-resume (replay st payload) =
        IsUnflagged-bind _ _ (IsUnflagged-journal _ _ _) λ _. IsUnflagged-lift _
    IsUnflagged-resume refused = IsUnflagged-raise _
    IsUnflagged-resume proceed = IsUnflagged-close_now

    close_demo_position-IsUnflagged : IsUnflagged (close_demo_position h env request)
    unfolding close_demo_position
    close_demo_position-IsUnflagged = IsUnflagged-bind _ _ (IsUnflagged-lift _) λ _.
        IsUnflagged-bind _ _ (IsUnflagged-journal _ _ _) λ _.
          IsUnflagged-bind _ _
            (IsUnflagged-note _ _ (IsUnflagged-begin _ _ _ _) (IsUnflagged-journal _ _ _))
            λ row. IsUnflagged-resume (resume row)

    -- A closing does the same whatever the kill switch and the reconciliation status are: the same
    -- result, the same order_send calls, the same rows and journal; and it changes neither.
    pub close_ignores_flags :
        (k : KillSwitch) (report : Option ReconciliationReport) (w : World)
        → close_demo_position h env request (flagged k report w) ≡ (
          (close_demo_position h env request w).0,
          flagged k report (close_demo_position h env request w).1,
        )
    close_ignores_flags k report w = close_demo_position-IsUnflagged.at k report w

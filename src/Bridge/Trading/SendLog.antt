-- ===== src/Bridge/Trading/SendLog.antt =====
-- The log of order_send calls before and after an action of mt5_bridge/trading.py.
use tradingia.Prelude.{
  ℕ, ◌≡◌, ◌⊎◌, refl, ap, inl, inr, Bool, true, false, Option, none, some, List, [], ◌∷◌, ◌++◌,
  Bool-cases, ◌==◌,
}
use tradingia.Prelude.Result.{Result, ok, err}
use tradingia.Execution.Domain.{Name}
use tradingia.Bridge.Backend.{TradeRequest, TradeSendResult}
use tradingia.Bridge.Store.{
  BridgeStore, OrderState, Outcome, TradingCode, Flow, JournalAction, JournalPayload, Subject,
  QuoteAudit, ResultPayload, update_idempotency_state, StoreError,
}
use tradingia.Bridge.Trading.{
  Failure, Env, World, Action, Send, Ready, Resume, replay, refused, proceed, resume_or, pure,
  raise, lift, reads, ask, raise_if, with_store, try_store, relabel, log_send, journal, check_order,
  submit_order, order_answered, order_not_done, terminalize_pre_submission_reject,
  quote_audit_payload,
}
use tradingia.Bridge.Trading.Runs.{Returns, Runs, Returns-lift, Returns-bind, Ended}

-- What is said of the log of order_send calls alone, every action but `log_send` keeps.
module _ (P : List Send → Type 0) where
  abbrev pub On : World → Type 0
  On w = P w.sent

  pub journal-On :
      (env : Env) (j : Name) (action : JournalAction) (payload : JournalPayload)
      → Runs On (journal env j action payload) On On
  unfolding journal
  journal-On env j action payload = record { at = λ w p. p }

  pub update-On :
      (j : Name) (new : OrderState) (out : Outcome) (now : ℕ)
      → Runs On (with_store (update_idempotency_state j new out now)) On On
  unfolding with_store
  update-On j new out now = record { at = λ w p. p }

  pub try_store-On :
      {A : Type 0} (e : Failure) (f : BridgeStore → Result StoreError A × BridgeStore)
      → Runs On (try_store e f) On On
  unfolding try_store
  try_store-On {A} e f = record { at = λ w p. go w p (f w.store) }
    where
      go :
          (w : World)
          → On w
          → (x : Result StoreError A × BridgeStore)
          → Ended (λ _. On) On (relabel e x.0, record w { store = x.1 })
      go w p (ok a, s) = p
      go w p (err x, s) = p

  pub raise-On : {A : Type 0} (e : Failure) → Runs {A = A} On (raise e) On On
  unfolding raise
  raise-On e = record { at = λ w p. p }

  pub lift-On : {A : Type 0} (r : Result Failure A) → Runs On (lift r) On On
  lift-On r = Returns-lift r (λ a w e p. p) (λ w p. p)

  pub pure-On : {A : Type 0} (a : A) → Runs On (pure a) On On
  unfolding pure
  pure-On a = record { at = λ w p. p }

  pub ask-On : {A : Type 0} (o : Option A) → Runs On (ask o) On On
  unfolding ask
  ask-On none = record { at = λ w p. p }
  ask-On (some a) = record { at = λ w p. p }

  pub raise_if-On : (b : Bool) (e : Failure) → Runs On (raise_if b e) On On
  unfolding raise_if
  raise_if-On true e = record { at = λ w p. p }
  raise_if-On false e = record { at = λ w p. p }

  pub check_order-On :
      (env : Env) (flow : Flow) (j : Name) (subject : Subject) (ready : Ready)
      → Returns On (check_order env flow j subject ready) (λ r w. On w × (r ≡ ready)) On
  unfolding check_order pure
  check_order-On env flow j subject ready = Returns-bind _ _ (ask-On _) λ _.
      Returns-bind _ _ (journal-On env j _ _)
        λ _. Returns-bind _ _ (raise_if-On _ _) λ _. record { at = λ w p. (p, refl) }

  pub terminalize-On :
      {A : Type 0} (Q : A → World → Type 0) (env : Env) (flow : Flow) (j : Name)
      (code : TradingCode)
      → Returns On (terminalize_pre_submission_reject env flow j code) Q On
  unfolding terminalize_pre_submission_reject raise
  terminalize-On Q env flow j code =
      Returns-bind _ _ (try_store-On _ _)
        λ _. Returns-bind _ _ (journal-On env j _ _) λ _. record { at = λ w p. p }

  pub order_answered-On :
      (env : Env) (flow : Flow) (j : Name) (subject : Subject) (audit : QuoteAudit)
      (answer : Option TradeSendResult)
      → Runs On (order_answered env flow j subject audit answer) On On
  unfolding order_answered order_not_done
  order_answered-On env flow j subject audit none =
      Returns-bind _ _ (journal-On env j _ _) λ _. raise-On _
  order_answered-On env flow j subject audit (some r) = elim (Bool-cases (r.retcode == 10009)) [
    | inl done ↦ rw done (pure-On r)
    | inr undone ↦ rw undone (
        Returns-bind _ _ (update-On j OrderState.rejected _ env.clock.recorded)
          λ _. Returns-bind _ _ (journal-On env j _ _) λ _. raise-On _)
  ]

-- At most one more order_send, made for the id, of an order that fits.
abbrev pub SentOne : Name → (TradeRequest → Type 0) → List Send → List Send → Type 0
SentOne j Fits before after =
    (after ≡ before)
    ⊎ ((t : TradeRequest) × Fits t
        × (after ≡ before ++ record { client_order_id = j; request = t } ∷ []))

module _ (j : Name) (Fits : TradeRequest → Type 0) (before : List Send) where
  abbrev pub Quiet : List Send → Type 0
  Quiet after = after ≡ before

  abbrev pub One : List Send → Type 0
  One after = SentOne j Fits before after

  pub log_send-One : (t : TradeRequest) → Fits t → Runs (On Quiet) (log_send j t) (On One) (On One)
  unfolding log_send
  log_send-One t fits = record {
    at = λ w q. inr (t, fits, ap (λ x. x ++ record { client_order_id = j; request = t } ∷ []) q);
  }

  -- a raise before the submission sends nothing
  pub unsent-One :
      {A : Type 0} {Q : A → World → Type 0} (m : Action A)
      → Returns (On Quiet) m Q (On Quiet)
      → Returns (On Quiet) m Q (On One)
  unsent-One {A} {Q} m runs = record { at = λ w q. go (m w) (runs.at w q) }
    where
      go : (x : Result Failure A × World) → Ended Q (On Quiet) x → Ended Q (On One) x
      go (ok a, w) q = q
      go (err e, w) q = inl q

  pub submit_order-One :
      (env : Env) (flow : Flow) (subject : Subject) (ready : Ready)
      → Fits ready.trade_request
      → Runs (On Quiet) (submit_order env flow j subject ready) (On One) (On One)
  unfolding submit_order
  submit_order-One env flow subject ready fits =
      Returns-bind _ _ (unsent-One _ (try_store-On Quiet _ _)) λ _.
        Returns-bind _ _ (unsent-One _ (journal-On Quiet env j _ _)) λ _.
          Returns-bind _ _ (log_send-One ready.trade_request fits) λ _.
            order_answered-On One env flow j subject
              (quote_audit_payload ready.tick ready.reference_price)
              (env.backend.order_send ready.trade_request)

  -- the order that was chosen is the order that is checked
  pub check_order-Fits :
      (env : Env) (flow : Flow) (subject : Subject) (ready : Ready)
      → Fits ready.trade_request
      → Returns
          (On Quiet)
          (check_order env flow j subject ready)
          (λ r w. On Quiet w × Fits r.trade_request)
          (On Quiet)
  check_order-Fits env flow subject ready fits = record {
    at = λ w q.
        go (check_order env flow j subject ready w)
          ((check_order-On Quiet env flow j subject ready).at w q);
  }
    where
      go :
          (x : Result Failure Ready × World)
          → Ended (λ r w. On Quiet w × (r ≡ ready)) (On Quiet) x
          → Ended (λ r w. On Quiet w × Fits r.trade_request) (On Quiet) x
      go (ok r, w) (q, same) = (q, rw same fits)
      go (err e, w) q = q

  pub reads-Fits :
      (f : BridgeStore → Result Failure Ready)
      → ((s : BridgeStore) (ready : Ready) → f s ≡ ok ready → Fits ready.trade_request)
      → Returns (On Quiet) (reads f) (λ ready w. On Quiet w × Fits ready.trade_request) (On Quiet)
  unfolding reads
  reads-Fits f fits = record { at = λ w q. go w q (f w.store) (fits w.store) }
    where
      go :
          (w : World)
          → On Quiet w
          → (x : Result Failure Ready) → ((ready : Ready) → x ≡ ok ready → Fits ready.trade_request)
          → Ended (λ ready w'. On Quiet w' × Fits ready.trade_request) (On Quiet) (x, w)
      go w q (ok ready) k = (q, k ready refl)
      go w q (err e) k = q

  pub resume_or-One :
      {A : Type 0} (env : Env) (flow : Flow) (read : ResultPayload → Result Failure A)
      (go : Action A) (next : Resume)
      → Runs (On Quiet) go (On One) (On One)
      → Runs (On Quiet) (resume_or env flow j read go next) (On One) (On One)
  resume_or-One env flow read go (replay state payload) runs =
      Returns-bind _ _ (unsent-One _ (journal-On Quiet env j _ _))
        λ _. Returns-lift _ (λ a w e q. inl q) (λ w q. inl q)
  resume_or-One env flow read go refused runs = unfold raise in record { at = λ w q. inl q }
  resume_or-One env flow read go proceed runs = runs

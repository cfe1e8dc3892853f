-- ===== src/Bridge/Trading/Replay.antt =====
-- A result that was returned once is returned again, and nothing is sent for it
-- (place_demo_order, mt5_bridge/trading.py).
use tradingia.Prelude.{
  ℕ, ◌≡◌, refl, ◌==◌, ◌&&◌, length, keep, Bool, true, false, Option, none, some, List, arith,
  Bool-cases, inl, inr,
}
use tradingia.Prelude.Result.{Result, ok, err, Result-cases}
use tradingia.Execution.Domain.{Name}
use tradingia.Bridge.Backend.{TradeSendResult}
use tradingia.Bridge.Identity.{Hashing, open_fields, compute_request_fingerprint}
use tradingia.Bridge.Store.{
  BridgeStore, QuoteAudit, IdempotencyRecord, OrderState, Outcome, TradingCode, Flow, Subject,
  JournalAction, JournalPayload, ResultPayload, OrderPayload, find_row, update_rows, same_state,
  begin_idempotent_request, transition_idempotency_state,
}
use tradingia.Bridge.Store.Find.{find_row-insert_self, find_row-update, find_row_id, updated}
use tradingia.Bridge.Trading.{
  Failure, Env, World, Action, Ready, Resume, replay, refused, proceed, resume, DemoOrderRequest,
  DemoOrderResult, journal, prepare_order, place_new_order, submit_order, fill_order,
  filled_columns, order_payload, place_demo_order, terminalize_pre_submission_reject,
  require_fresh_demo_account, resume_or, order_subject, as_order, ◌>>=◌, reads, ask, raise_if,
  raise, pure, lift, try_store, log_send, order_answered, quote_audit_payload,
}
use tradingia.Bridge.Trading.Runs.{
  Returns, Runs, Ended, Returns-bind, Returns-except, Returns-note, Returns-weaken,
}

-- no demand on the state after a raise
abbrev Anything : World → Type 0
Anything w = Unit {0}

anything : {A : Type 0} {P : World → Type 0} (m : Action A) → Runs P m Anything Anything
anything {A} m = record { at = λ w p. go (m w) }
  where
    go : (x : Result Failure A × World) → Ended (λ _. Anything) Anything x
    go (ok a, w) = tt
    go (err e, w) = tt

module _ (id hash : ℕ) where
  -- the id's row is for this request
  abbrev HasRow : World → Type 0
  HasRow w =
      (r : IdempotencyRecord) × (find_row id w.store.idempotency ≡ some r) × (r.request_hash ≡ hash)

  begin-HasRow :
      (e : Failure) (now : ℕ)
      → Returns Anything
          (try_store e (begin_idempotent_request id hash now))
          (λ r w. (find_row id w.store.idempotency ≡ some r) × (r.request_hash ≡ hash))
          Anything
  unfolding begin_idempotent_request try_store
  begin-HasRow e now = record {
    at = λ w _. ground (arith, find_row-insert_self id hash now w.store.idempotency);
  }

  -- an UPDATE keeps the row's hash
  update_rows-HasRow :
      (hit : IdempotencyRecord → Bool) (new : OrderState) (out : Outcome) (now : ℕ)
      (t : List IdempotencyRecord) (r : IdempotencyRecord)
      → find_row id t ≡ some r
      → r.request_hash ≡ hash
      → (r' : IdempotencyRecord) × (find_row id (update_rows hit new out now t) ≡ some r')
        × (r'.request_hash ≡ hash)
  update_rows-HasRow hit new out now t r e same =
      (updated hit new out now r, find_row-update hit new out now id t r e, keeps (hit r) refl)
    where
      keeps : (b : Bool) → hit r ≡ b → (updated hit new out now r).request_hash ≡ hash
      keeps true h = rw h same
      keeps false h = rw h same

  journal-HasRow :
      (env : Env) (j : Name) (action : JournalAction) (payload : JournalPayload)
      → Runs HasRow (journal env j action payload) HasRow Anything
  unfolding journal
  journal-HasRow env j action payload = record { at = λ w p. p }

  transition-HasRow :
      (e : Failure) (j : Name) (old new : OrderState) (out : Outcome) (now : ℕ)
      → Runs HasRow (try_store e (transition_idempotency_state j old new out now)) HasRow Anything
  unfolding transition_idempotency_state try_store
  transition-HasRow e j old new out now = record {
    at = λ w p.
        let hit = λ (r : IdempotencyRecord). r.client_order_id == j && same_state r.state old in
        elim (Bool-cases (length (keep hit w.store.idempotency) == 1)) [
          | inl moved ↦
              rw moved (update_rows-HasRow hit new out now w.store.idempotency p.0 p.1 p.2)
          | inr stays ↦ rw stays tt
        ];
  }

  -- What a returned result leaves behind: the row replays it.
  abbrev Stored : DemoOrderResult → World → Type 0
  Stored result w =
      (r : IdempotencyRecord) × (st : OrderState) × (find_row id w.store.idempotency ≡ some r)
      × (r.request_hash ≡ hash)
      × (resume r ≡ replay st (ResultPayload.opened result.payload))

  -- the row that FILLED is written to
  fill-Stored :
      (env : Env) (request : DemoOrderRequest) (subject : Subject) (ready : Ready)
      (r : TradeSendResult)
      → request.client_order_id ≡ id
      → Returns HasRow (fill_order env request subject ready r) Stored Anything
  unfolding fill_order resume ◌>>=◌
  fill-Stored env request subject ready r e = record {
    at = λ w p.
        let t = w.store.idempotency in
        let hit = λ (x : IdempotencyRecord). x.client_order_id == request.client_order_id in
        let columns = filled_columns r (order_payload env request ready r) in
        let own : hit p.0 ≡ true = ground (arith, find_row_id id t p.0 p.1) in
        (
          updated hit OrderState.filled columns env.clock.recorded p.0,
          OrderState.filled,
          find_row-update hit OrderState.filled columns env.clock.recorded id t p.0 p.1,
          rw own p.2,
          rw own,
        );
  }

  -- a piece that leaves the store alone, and never returns without doing so
  ask-HasRow : {A : Type 0} (o : Option A) → Runs HasRow (ask o) HasRow Anything
  unfolding ask
  ask-HasRow none = record { at = λ w p. tt }
  ask-HasRow (some a) = record { at = λ w p. p }

  raise_if-HasRow : (b : Bool) (e : Failure) → Runs HasRow (raise_if b e) HasRow Anything
  unfolding raise_if
  raise_if-HasRow true e = record { at = λ w p. tt }
  raise_if-HasRow false e = record { at = λ w p. p }

  reads-HasRow :
      {A : Type 0} (f : BridgeStore → Result Failure A) → Runs HasRow (reads f) HasRow Anything
  unfolding reads
  reads-HasRow f = record {
    at = λ w p. elim (Result-cases (f w.store)) [
      | inl (e, failed) ↦ rw failed tt
      | inr (a, passed) ↦ rw passed p
    ];
  }

  raise-HasRow :
      {A : Type 0} {P : World → Type 0} (Q : A → World → Type 0) (e : Failure)
      → Returns P (raise e) Q Anything
  unfolding raise
  raise-HasRow Q e = record { at = λ w p. tt }

  -- what precedes the submission boundary returns only with the row in place
  prepare_order-HasRow :
      (h : Hashing) (env : Env) (request : DemoOrderRequest)
      → Runs HasRow (prepare_order h env request) HasRow Anything
  unfolding prepare_order pure
  prepare_order-HasRow h env request = Returns-bind _ _ (reads-HasRow _) λ ready.
      Returns-bind _ _ (ask-HasRow _) λ check.
        Returns-bind _ _ (journal-HasRow env request.client_order_id _ _)
          λ _. Returns-bind _ _ (raise_if-HasRow _ _) λ _. record { at = λ w p. p }

  never_returns :
      {A : Type 0} (Q : A → World → Type 0) (env : Env) (flow : Flow) (j : Name)
      (code : TradingCode)
      → Returns Anything (terminalize_pre_submission_reject env flow j code) Q Anything
  unfolding terminalize_pre_submission_reject
  never_returns Q env flow j code =
      Returns-bind _ _ (anything _) λ _. Returns-bind _ _ (anything _) λ _. raise-HasRow Q _

  order_answered-HasRow :
      (env : Env) (flow : Flow) (j : Name) (subject : Subject) (audit : QuoteAudit)
      (answer : Option TradeSendResult)
      → Runs HasRow (order_answered env flow j subject audit answer) HasRow Anything
  unfolding order_answered
  order_answered-HasRow env flow j subject audit none =
      Returns-bind _ _ (anything _) λ _. raise-HasRow _ _
  order_answered-HasRow env flow j subject audit (some r) = elim (Bool-cases (r.retcode == 10009)) [
    | inl done ↦ rw done (unfold pure in record { at = λ w p. p })
    | inr other ↦
        rw other
          (Returns-bind _ _ (anything _) λ _. Returns-bind _ _ (anything _) λ _. raise-HasRow _ _)
  ]

  submit_order-HasRow :
      (env : Env) (flow : Flow) (j : Name) (subject : Subject) (ready : Ready)
      → Runs HasRow (submit_order env flow j subject ready) HasRow Anything
  unfolding submit_order log_send
  submit_order-HasRow env flow j subject ready =
      Returns-bind _ _ (transition-HasRow _ j OrderState.received OrderState.submitted _ _) λ _.
        Returns-bind _ _ (journal-HasRow env j _ _) λ _.
          Returns-bind _ _ (record { at = λ w p. p })
            λ _.
              order_answered-HasRow env flow j subject
                (quote_audit_payload ready.tick ready.reference_price)
                (env.backend.order_send ready.trade_request)

  place_new_order-Stored :
      (h : Hashing) (env : Env) (request : DemoOrderRequest)
      → request.client_order_id ≡ id
      → Returns HasRow (place_new_order h env request) Stored Anything
  unfolding place_new_order
  place_new_order-Stored h env request e =
      Returns-bind _ _
        (Returns-except _ _ (prepare_order-HasRow h env request)
          (never_returns _ env Flow.place_order request.client_order_id) (λ w p. tt))
        λ ready.
          Returns-bind _ _
            (submit_order-HasRow env Flow.place_order request.client_order_id
              (order_subject request) ready)
            λ r. fill-Stored env request (order_subject request) ready r e

  resume_or-Stored :
      (h : Hashing) (env : Env) (request : DemoOrderRequest) (row : IdempotencyRecord)
      (next : Resume)
      → request.client_order_id ≡ id
      → resume row ≡ next
      → Returns
          (λ w. (find_row id w.store.idempotency ≡ some row) × (row.request_hash ≡ hash))
          (resume_or env Flow.place_order request.client_order_id as_order
            (place_new_order h env request)
            next)
          Stored
          Anything
  unfolding journal lift ◌>>=◌
  resume_or-Stored h env request row (replay st (ResultPayload.opened payload)) e eq = record {
    at = λ w p. (row, st, p.0, p.1, eq);
  }
  resume_or-Stored h env request row (replay st (ResultPayload.closed payload)) e eq = record {
    at = λ w p. tt;
  }
  resume_or-Stored h env request row refused e eq = raise-HasRow _ _
  resume_or-Stored h env request row proceed e eq =
      Returns-weaken _ (λ w p. (row, p.0, p.1)) (place_new_order-Stored h env request e)

place_demo_order-Stored :
    (h : Hashing) (env : Env) (request : DemoOrderRequest)
    → Returns Anything
        (place_demo_order h env request)
        (Stored request.client_order_id
          (compute_request_fingerprint h (open_fields request.symbol request.side request.volume)))
        Anything
unfolding place_demo_order
place_demo_order-Stored h env request =
    let hash =
      compute_request_fingerprint h (open_fields request.symbol request.side request.volume) in
    Returns-bind _ _ (anything _) λ _. Returns-bind _ _ (anything _) λ _.
      Returns-bind _ _
        (Returns-note _ _ (begin-HasRow request.client_order_id hash _ env.clock.begun)
          (anything _))
        λ row.
          resume_or-Stored request.client_order_id hash h env request row (resume row) refl refl

pub row_of_success :
    (h : Hashing) (env : Env) (request : DemoOrderRequest) (w w' : World) (result : DemoOrderResult)
    → place_demo_order h env request w ≡ (ok result, w')
    → Stored request.client_order_id
        (compute_request_fingerprint h (open_fields request.symbol request.side request.volume))
        result
        w'
row_of_success h env request w w' result e =
    rw e at ((place_demo_order-Stored h env request).at w tt)

-- a stored result is what the request returns
replays :
    (h : Hashing) (env : Env) (request : DemoOrderRequest) (w : World) (row : IdempotencyRecord)
    (st : OrderState) (payload : OrderPayload)
    → find_row request.client_order_id w.store.idempotency ≡ some row
    → row.request_hash
      ≡ compute_request_fingerprint h (open_fields request.symbol request.side request.volume)
    → resume row ≡ replay st (ResultPayload.opened payload)
    → require_fresh_demo_account env ≡ ok tt
    → let again = place_demo_order h env request w in
      (again.0 ≡ ok (record { payload = payload; idempotent_replay = true }))
      × (again.1.sent ≡ w.sent)
      × (again.1.store.idempotency ≡ w.store.idempotency)
unfolding place_demo_order begin_idempotent_request journal ◌>>=◌
replays h env request w row st payload found same stored demo =
    (ground arith, ground arith, ground arith)

-- After a request to open has returned a result, the same request, in any later environment that
-- passes the DEMO check, returns that result marked as a replay; it sends nothing and leaves the
-- idempotency table as it was.
pub replay_after_success :
    (h : Hashing) (first later : Env) (request : DemoOrderRequest) (w : World) {w' : World}
    {result : DemoOrderResult}
    → place_demo_order h first request w ≡ (ok result, w')
    → require_fresh_demo_account later ≡ ok tt
    → let again = place_demo_order h later request w' in
      (again.0 ≡ ok (record { payload = result.payload; idempotent_replay = true }))
      × (again.1.sent ≡ w'.sent)
      × (again.1.store.idempotency ≡ w'.store.idempotency)
replay_after_success h first later request w {w'} {result} e demo =
    let (row, st, found, same, stored) = row_of_success h first request w w' result e in
    replays h later request w' row st result.payload found same stored demo

-- ===== src/Bridge/Trading/Room.antt =====
-- Room for an order_send: what each piece of a request (mt5_bridge/trading.py) does to the counts of
-- an id's rows and order_send calls.
use tradingia.Prelude.{
  ℕ, ◌+◌, ◌≤◌, ◌≡◌, ◌==◌, Bool, true, false, Option, none, some, List, [], ◌∷◌, ◌++◌, arith, length,
  keep, Bool-cases, inl, inr,
}
use tradingia.Prelude.Result.{Result}
use tradingia.Execution.Domain.{Name}
use tradingia.Bridge.Backend.{TradeRequest}
use tradingia.Bridge.Store.{
  BridgeStore, IdempotencyRecord, OrderState, same_state, Outcome, JournalAction, JournalPayload,
  begin_idempotent_request, update_idempotency_state, transition_idempotency_state,
}
use tradingia.Bridge.Store.Counts.{
  one_if, rows_of, received_of, received-le-rows, rows-insert, received-insert, rows_of_absent,
  rows-update, received-update, is_received_row, length-keep-received, received-leave,
}
use tradingia.Bridge.Trading.Monad.{
  Failure, Env, World, Send, pure, raise, lift, ask, with_store, try_store, raise_if, reads,
  journal, log_send,
}
use tradingia.Bridge.Trading.Runs.{Runs, Returns-lift}

unfoldable pub sent_of : Name → List Send → ℕ
sent_of id [] = 0
sent_of id (s ∷ ss) = one_if (s.client_order_id == id) + sent_of id ss

sent-append :
    (id : Name) (ss : List Send) (s : Send)
    → sent_of id (ss ++ s ∷ []) ≡ sent_of id ss + one_if (s.client_order_id == id)
unfolding sent_of
sent-append id [] s = ground arith
sent-append id (x ∷ ss) s = ground (arith, sent-append id ss s)

-- With `spare` set to 1 there is room for one more order_send of the id.
abbrev pub HasRoom : Name → ℕ → World → Type 0
HasRoom id spare w =
    (sent_of id w.sent + received_of id w.store.idempotency + spare
      ≤ rows_of id w.store.idempotency)
    × (rows_of id w.store.idempotency ≤ 1)

-- Each id has at most one row, and at most one order_send, and none while the row is RECEIVED.
abbrev pub IsSafe : Name → World → Type 0
IsSafe id = HasRoom id 0

module _ (id : Name) where
  pub journal-HasRoom :
      (spare : ℕ) (env : Env) (j : Name) (action : JournalAction) (payload : JournalPayload)
      → Runs (HasRoom id spare) (journal env j action payload) (HasRoom id spare) (IsSafe id)
  unfolding journal
  journal-HasRoom spare env j action payload = record { at = λ w p. p }

  pub update-IsSafe :
      (j : Name) (new : OrderState) (out : Outcome) (now : ℕ)
      → same_state new OrderState.received ≡ false
      → Runs
          (IsSafe id)
          (with_store (update_idempotency_state j new out now))
          (IsSafe id)
          (IsSafe id)
  unfolding update_idempotency_state with_store
  update-IsSafe j new out now h = record {
    at = λ w p.
        let hit = λ (r : IdempotencyRecord). r.client_order_id == j in
        omega (
          arith,
          rows-update hit new out now id w.store.idempotency,
          received-update hit new out now id w.store.idempotency h,
        );
  }

  pub log_send-IsSafe :
      (j : Name) (request : TradeRequest)
      → Runs (HasRoom id (one_if (j == id))) (log_send j request) (IsSafe id) (IsSafe id)
  unfolding log_send
  log_send-IsSafe j request = record {
    at = λ w p.
        omega (arith, sent-append id w.sent (record { client_order_id = j; request = request }));
  }

  -- leaving RECEIVED makes room for one order_send of the id
  pub transition-HasRoom :
      (e : Failure) (j : Name) (new : OrderState) (out : Outcome) (now : ℕ)
      → same_state new OrderState.received ≡ false
      → Runs
          (IsSafe id)
          (try_store e (transition_idempotency_state j OrderState.received new out now))
          (HasRoom id (one_if (j == id)))
          (IsSafe id)
  unfolding transition_idempotency_state try_store
  transition-HasRoom e j new out now h = record {
    at = λ w p.
        let t = w.store.idempotency in
        elim (Bool-cases (length (keep (is_received_row j) t) == 1)) [
          | inl hit ↦ rw hit (
              ground (
                arith,
                rows-update (is_received_row j) new out now id t,
                received-update (is_received_row j) new out now id t h,
                received-leave j new out now t h,
                length-keep-received j t,
              ))
          | inr miss ↦ rw miss p
        ];
  }

  pub begin-IsSafe :
      (e : Failure) (j : Name) (hash now : ℕ)
      → Runs (IsSafe id) (try_store e (begin_idempotent_request j hash now)) (IsSafe id) (IsSafe id)
  unfolding begin_idempotent_request try_store
  begin-IsSafe e j hash now = record {
    at = λ w p.
        let t = w.store.idempotency in
        ground (
          arith,
          rows-insert id j hash now t,
          received-insert id j hash now t,
          rows_of_absent j t,
          received-le-rows id t,
        );
  }

  pub HasRoom-IsSafe : (spare : ℕ) (w : World) → HasRoom id spare w → IsSafe id w
  HasRoom-IsSafe spare w p = omega arith

  pub raise-IsSafe :
      {A : Type 0} (spare : ℕ) (e : Failure)
      → Runs {A = A} (HasRoom id spare) (raise e) (IsSafe id) (IsSafe id)
  unfolding raise
  raise-IsSafe spare e = record { at = HasRoom-IsSafe spare }

  pub lift-IsSafe :
      {A : Type 0} (r : Result Failure A) → Runs (IsSafe id) (lift r) (IsSafe id) (IsSafe id)
  lift-IsSafe r = Returns-lift r (λ a w e p. p) (λ w p. p)

  pub pure-IsSafe : {A : Type 0} (a : A) → Runs (IsSafe id) (pure a) (IsSafe id) (IsSafe id)
  unfolding pure
  pure-IsSafe a = record { at = λ w p. p }

  pub ask-IsSafe : {A : Type 0} (o : Option A) → Runs (IsSafe id) (ask o) (IsSafe id) (IsSafe id)
  unfolding ask
  ask-IsSafe none = record { at = λ w p. p }
  ask-IsSafe (some a) = record { at = λ w p. p }

  pub reads-IsSafe :
      {A : Type 0} (f : BridgeStore → Result Failure A)
      → Runs (IsSafe id) (reads f) (IsSafe id) (IsSafe id)
  unfolding reads lift
  reads-IsSafe f = record { at = λ w p. (lift-IsSafe (f w.store)).at w p }

  pub raise_if-IsSafe :
      (b : Bool) (e : Failure) → Runs (IsSafe id) (raise_if b e) (IsSafe id) (IsSafe id)
  unfolding raise_if
  raise_if-IsSafe true e = record { at = λ w p. p }
  raise_if-IsSafe false e = record { at = λ w p. p }

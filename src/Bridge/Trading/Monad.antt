-- ===== src/Bridge/Trading/Monad.antt =====
-- A write request's state and failures. The state is the store and the log of order_send calls;
-- what was written before a raise stays written.
use tradingia.Prelude.{ℕ, Bool, true, false, Option, none, some, List, [], ◌∷◌, ◌++◌}
use tradingia.Prelude.Result.{Result, ok, err}
use tradingia.Execution.Domain.{Name}
use tradingia.Bridge.QuoteFreshness.{Microseconds}
use tradingia.Bridge.Backend.{Backend, TradeRequest}
use tradingia.Bridge.Store.{
  BridgeStore, StoreError, JournalAction, JournalPayload, TradingCode, append_journal,
}

-- An order_send call: the request for which it was made, and what was sent.
pub record Send : Type 0 where
  pub client_order_id : Name
  pub request : TradeRequest

pub record World : Type 0 where
  pub store : BridgeStore
  pub sent : List Send

-- TradingError by its code, IdempotencyConflictError, MT5BackendError, and the TypeError of a
-- stored result that does not fit the kind of request.
pub data Failure : Type 0 where
  trading : TradingCode → Failure
  conflict : Failure
  backend_error : Failure
  type_error : Failure

-- `datetime.now` at each place where a request reads the clock
pub record Clock : Type 0 where
  pub begun : ℕ
  pub journalled : JournalAction → ℕ
  pub quoted : Microseconds
  pub status_read : ℕ
  pub submitted : ℕ
  pub rejected : ℕ
  pub finished : ℕ
  pub recorded : ℕ

pub record Env : Type 0 where
  pub backend : Backend
  pub clock : Clock
  pub request_id : Option Name
  pub max_positions : ℕ
  pub max_quote_age_seconds : Microseconds
  pub max_quote_future_skew_seconds : Microseconds
  pub deviation_points : ℕ
  pub magic : ℕ

abbrev pub Action : Type 0 → Type 0
Action A = World → Result Failure A × World

module _ {A : Type 0} where
  unfoldable pub pure : A → Action A
  pure a w = (ok a, w)

  unfoldable pub raise : Failure → Action A
  raise e w = (err e, w)

  unfoldable pub lift : Result Failure A → Action A
  lift r w = (r, w)

  -- a call of the backend that may raise MT5BackendError
  unfoldable pub ask : Option A → Action A
  unfolding pure raise
  ask none = raise backend_error
  ask (some a) = pure a

-- checks that only read the store
unfoldable pub reads : {A : Type 0} → (BridgeStore → Result Failure A) → Action A
reads f w = (f w.store, w)

unfoldable pub with_store : (BridgeStore → BridgeStore) → Action (Unit {0})
with_store f w = (ok tt, record w { store = f w.store })

abbrev pub relabel : {A : Type 0} → Failure → Result StoreError A → Result Failure A
relabel e (ok a) = ok a
relabel e (err x) = err e

-- a call of the store that may raise, with the failure that it becomes
unfoldable pub try_store :
    {A : Type 0} → Failure → (BridgeStore → Result StoreError A × BridgeStore) → Action A
try_store e f w = let (r, s) = f w.store in (relabel e r, record w { store = s })

unfoldable pub raise_if : Bool → Failure → Action (Unit {0})
unfolding pure raise
raise_if true e = raise e
raise_if false e = pure tt

-- `try: m  except TradingError as exc: handler(exc)`
unfoldable pub except_trading : {A : Type 0} → Action A → (TradingCode → Action A) → Action A
except_trading m handler w =
    let (r, w') = m w in
    elim r [
      | ok a ↦ (ok a, w')
      | err e ↦ elim e [
        | trading code ↦ handler code w'
        | conflict ↦ (err conflict, w')
        | backend_error ↦ (err backend_error, w')
        | type_error ↦ (err type_error, w')
      ]
    ]

-- `try: m  except IdempotencyConflictError: note; raise`
unfoldable pub note_conflict : {A : Type 0} → Action A → Action (Unit {0}) → Action A
note_conflict m note w =
    let (r, w') = m w in elim r [ ok a ↦ (ok a, w') | err e ↦ (err e, (note w').1) ]

-- `_journal`
unfoldable pub journal : Env → Name → JournalAction → JournalPayload → Action (Unit {0})
unfolding append_journal with_store
journal env id action payload = with_store (
    append_journal (record {
      request_id = env.request_id;
      client_order_id = some id;
      timestamp_utc = env.clock.journalled action;
      action = action;
      payload = payload;
    }))

-- `backend.order_send`, which leaves a trace whatever it answers
unfoldable pub log_send : Name → TradeRequest → Action (Unit {0})
log_send id request w =
    (ok tt, record w { sent = w.sent ++ record { client_order_id = id; request = request } ∷ [] })

infixl 5 ◌>>=◌ ◌>>◌
-- opening this opens the pieces that actions are built of
unfoldable pub ◌>>=◌ : {A B : Type 0} → Action A → (A → Action B) → Action B
unfolding pure raise lift ask reads with_store try_store raise_if except_trading note_conflict
    log_send
◌>>=◌ m f w = let (r, w') = m w in elim r [ ok a ↦ f a w' | err e ↦ (err e, w') ]

abbrev pub ◌>>◌ : {B : Type 0} → Action (Unit {0}) → Action B → Action B
m >> k = m >>= λ _. k

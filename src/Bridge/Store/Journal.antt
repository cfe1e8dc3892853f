-- ===== src/Bridge/Store/Journal.antt =====
-- The journal's entries (mt5_bridge/store.py, and the payloads that mt5_bridge/trading.py writes).
-- Texts of errors and comments are left out of the payloads; all other values are kept.
use tradingia.Prelude.{ℕ, ◌==◌, Bool, false, Option, none, some}
use tradingia.Execution.Domain.{Decimal, Name, Side}
use tradingia.Bridge.Store.Rows.{OrderState, ErrorCode, ResultPayload}

pub data Flow : Type 0 where
  place_order close_position : Flow

pub data Event : Type 0 where
  begin conflict idempotent_replay context order_check pre_submit_rejected : Event
  submitting crash_during_send rejected filled : Event

-- `at place_order begin` is the action "place_order.begin"
pub data JournalAction : Type 0 where
  at : Flow → Event → JournalAction
  received_resolved : JournalAction

-- what an order or a closing is about
pub data Subject : Type 0 where
  opening : Name → Side → Decimal → Subject
  closing : ℕ → Name → Side → Side → Decimal → Subject

pub record QuoteAudit : Type 0 where
  pub quote_timestamp : Decimal
  pub observed_bid : Decimal
  pub observed_ask : Decimal
  pub spread : Decimal
  pub reference_price : Decimal

pub data JournalPayload : Type 0 where
  order_begun : Name → Side → Decimal → JournalPayload
  close_begun : ℕ → JournalPayload
  message : JournalPayload
  replayed : OrderState → JournalPayload
  quoted : Subject → QuoteAudit → JournalPayload
  close_context : Subject → Decimal → QuoteAudit → JournalPayload
  checked : Subject → QuoteAudit → Bool → Option ℕ → JournalPayload
  pre_submit : ErrorCode → JournalPayload
  not_done : Subject → QuoteAudit → ℕ → JournalPayload
  done : Subject → QuoteAudit → ResultPayload → JournalPayload
  resolution : ErrorCode → JournalPayload

pub record JournalEntry : Type 0 where
  pub request_id : Option Name
  pub client_order_id : Option Name
  pub timestamp_utc : ℕ
  pub action : JournalAction
  pub payload : JournalPayload

-- `WHERE client_order_id = ?`, which a NULL does not match
abbrev pub names_order : Name → Option Name → Bool
names_order id none = false
names_order id (some j) = j == id

-- ===== src/Execution/Remote/Calls.antt =====
-- Calls of the client (src/execution/mt5_remote.py): the requests that one makes, in order, and what it
-- returns or raises.
use Prim.Native.String.{String}
use tradingia.Prelude.{ℕ, List, [], ◌++◌}
use tradingia.Prelude.Result.{Result, ok, err}
use tradingia.Execution.Remote.Json.{Fields, Python}
use tradingia.Execution.Remote.Http.{Answer}

-- the paths of the requests; a text is a segment that is already percent-encoded
pub data Endpoint : Type 0 where
  health terminal account symbols positions orders kill_switch reconciliation : Endpoint
  symbol_at quote_at time_diagnostics_at : String → Endpoint
  journal_of : ℕ → Endpoint
  history_at : String → String → String → String → Endpoint
  profit_calc_at : String → String → String → String → String → Endpoint

pub data WriteEndpoint : Type 0 where
  demo_orders kill_switch_activate kill_switch_deactivate reconciliation_run : WriteEndpoint
  close_position_at resolve_received : String → WriteEndpoint

pub data Sent : Type 0 where
  get : Endpoint → Sent
  post : WriteEndpoint → Fields → Sent

-- what the transport answers, and the local clock
pub record Wire : Type 0 where
  pub python : Python
  pub on_get : Endpoint → Answer
  pub on_post : WriteEndpoint → Fields → Answer

pub record Call {ℓ} (E : Type 0) (A : Type ℓ) : Type ℓ where
  pub sent : List Sent
  pub outcome : Result E A

module _ {E : Type 0} where
  abbrev pub raising {ℓ} : {A : Type ℓ} → E → Call E A
  raising e = record { sent = []; outcome = err e }

  abbrev pub returning {ℓ} : {A : Type ℓ} → A → Call E A
  returning a = record { sent = []; outcome = ok a }

  abbrev pub answered {ℓ} : {A : Type ℓ} → Result E A → Call E A
  answered r = record { sent = []; outcome = r }

  infixl 5 ◌>>=◌
  unfoldable pub ◌>>=◌ {ℓ κ} : {A : Type ℓ} {B : Type κ} → Call E A → (A → Call E B) → Call E B
  m >>= f = elim m.outcome [
    | err e ↦ record { sent = m.sent; outcome = err e }
    | ok a ↦ record { sent = m.sent ++ (f a).sent; outcome = (f a).outcome }
  ]

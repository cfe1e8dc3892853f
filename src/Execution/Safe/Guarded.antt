-- ===== src/Execution/Safe/Guarded.antt =====
-- What safe_open (src/execution/safe_execution.py) sends, and when.
use Prim.Native.String.{String}
use tradingia.Prelude.{List, [], ◌∷◌, true, ◌≡◌, refl, ap, ◌∙◌, ◌⊎◌, inl, inr, arith}
use tradingia.Prelude.Result.{Result, ok, err, Result-cases, ok-injective}
use tradingia.Execution.Domain.{Decimal, Side, OrderRequest}
use tradingia.Execution.Policy.{
  PolicyContext, PolicyDecision, WrongActionKind, Reason, authorize_open, allow, deny, decide,
  open_reasons, increases,
}
use tradingia.Execution.Policy.Open.{IsOpenable, authorize_open-allow_iff}
use tradingia.Execution.QuoteFreshness.{QuoteFreshnessResult}
use tradingia.Execution.QuoteFreshness.Window.{IsInWindow, accepts_iff}
use tradingia.Execution.Remote.Records.{Quote, ExecutionResult}
use tradingia.Execution.Remote.Calls.{WriteEndpoint, Sent, Call, ◌>>=◌}
use tradingia.Execution.Remote.Client.{
  account, symbol_metadata, positions, kill_switch_status, reconciliation_status, quote,
  place_order, order_body,
}
use tradingia.Execution.Remote.Reads.{
  Reads, posts, Reads-bind, from_ok, posts_from_err, posts_from_ok, account-Reads,
  symbol_metadata-Reads, quote-Reads, positions-Reads, kill_switch_status-Reads,
  reconciliation_status-Reads, posts-place_order, outcome_of_bind, not_both,
}
use tradingia.Execution.Safe.{
  SafeError, SafeExecutionService, from_client, with_error, if_allowed, fresh_or_raise,
  build_open_context, check_quote_freshness, open_request, safe_open, default_max_quote_age,
  default_max_quote_future_skew,
}

from_client-Reads {κ} : {A : Type κ} (m : Call _ A) → Reads m → Reads (from_client m)
unfolding from_client
from_client-Reads m h = h

fresh_or_raise-Reads : (r : Result _ QuoteFreshnessResult) → Reads (fresh_or_raise r)
fresh_or_raise-Reads (ok r) = refl
fresh_or_raise-Reads (err e) = refl

-- what the client returns goes through
pub from_client-ok {κ} :
    {A : Type κ} (m : Call _ A) (a : A) → m.outcome ≡ ok a → (from_client m).outcome ≡ ok a
unfolding from_client
from_client-ok m a h = rw h refl

denied_not_allowed :
    (x : Reason) (xs : List Reason) (r : Result WrongActionKind PolicyDecision)
    → r ≡ ok (deny (x ∷ xs))
    → r ≡ ok allow
    → ⊥
denied_not_allowed x xs r h k = ground (arith, ok-injective r h k)

module _ (service : SafeExecutionService) where
  build_open_context-Reads : (symbol : String) → Reads (build_open_context service symbol)
  unfolding build_open_context
  build_open_context-Reads symbol =
      let w = service.wire in
      Reads-bind _ (from_client (account w)) (from_client-Reads (account w) (account-Reads w)) λ a.
        Reads-bind _ (from_client (symbol_metadata w symbol))
          (from_client-Reads (symbol_metadata w symbol) (symbol_metadata-Reads w symbol))
          λ m.
            Reads-bind _ (from_client (positions w))
              (from_client-Reads (positions w) (positions-Reads w))
              λ p.
                Reads-bind _ (from_client (kill_switch_status w))
                  (from_client-Reads (kill_switch_status w) (kill_switch_status-Reads w))
                  λ k.
                    Reads-bind _ (from_client (reconciliation_status w))
                      (from_client-Reads (reconciliation_status w) (reconciliation_status-Reads w))
                      λ r. refl

  check_quote_freshness-Reads : (symbol : String) → Reads (check_quote_freshness service symbol)
  unfolding check_quote_freshness
  check_quote_freshness-Reads symbol =
      Reads-bind _ (from_client (quote service.wire symbol))
        (from_client-Reads (quote service.wire symbol) (quote-Reads service.wire symbol))
        λ q. fresh_or_raise-Reads _

  -- the quote that the client returns is neither too old nor too far in the future
  abbrev pub IsFresh : String → Type 0
  IsFresh symbol =
      (q : Quote) × ((quote service.wire symbol).outcome ≡ ok q)
      × IsInWindow q.timestamp service.now default_max_quote_age default_max_quote_future_skew

  -- everything that an order waits for
  pub record IsCleared (r : OrderRequest) : Type 0 where
    pub fresh : IsFresh r.symbol
    pub context : PolicyContext
    pub built : (build_open_context service r.symbol).outcome ≡ ok context
    pub openable : IsOpenable context r service.policy

  accepted :
      (r : Result _ QuoteFreshnessResult)
      → (fresh_or_raise r).outcome ≡ ok tt
      → (a : QuoteFreshnessResult) × (r ≡ ok a)
  accepted (ok a) h = (a, refl)
  accepted (err e) h = ground arith

  unwrapped {κ} :
      {A : Type κ} (r : Result _ A) (a : A) → with_error SafeError.client r ≡ ok a → r ≡ ok a
  unwrapped (ok b) a h = ap ok (ok-injective (ok b) refl h)
  unwrapped (err e) a h = ground arith

  pub returned {κ} :
      {A : Type κ} (m : Call _ A) (a : A) → (from_client m).outcome ≡ ok a → m.outcome ≡ ok a
  unfolding from_client
  returned m a h = unwrapped m.outcome a h

  check-IsFresh :
      (symbol : String) → (check_quote_freshness service symbol).outcome ≡ ok tt → IsFresh symbol
  unfolding check_quote_freshness
  check-IsFresh symbol h =
      let (q, quoted, checked) = outcome_of_bind (from_client (quote service.wire symbol)) _ tt h in
      (
        q,
        returned (quote service.wire symbol) q quoted,
        (accepts_iff q.timestamp service.now default_max_quote_age default_max_quote_future_skew).0
            (accepted _ checked),
      )

  IsFresh-check :
      (symbol : String) → IsFresh symbol → (check_quote_freshness service symbol).outcome ≡ ok tt
  unfolding check_quote_freshness
  IsFresh-check symbol (q, quoted, window) =
      let (r, valid) =
        (accepts_iff q.timestamp service.now default_max_quote_age default_max_quote_future_skew).1
          window in
      (from_ok _ _ _ q (from_client-ok (quote service.wire symbol) q quoted)).1
      ∙ ap (λ v. (fresh_or_raise v).outcome) valid

  authorize_open_lem :
      (c : PolicyContext) (r : OrderRequest)
      → increases r.action_kind ≡ true
      → authorize_open c r service.policy ≡ ok (decide (open_reasons c r service.policy))
  unfolding authorize_open
  authorize_open_lem c r k = rw k refl

  -- the write, for a decision
  if_allowed-cases {κ} :
      {A : Type κ} (c : PolicyContext) (r : OrderRequest) (write : Call SafeError A)
      (rs : List Reason)
      → increases r.action_kind ≡ true
      → authorize_open c r service.policy ≡ ok (decide rs)
      → ((if_allowed (authorize_open c r service.policy) write ≡ write)
          × IsOpenable c r service.policy)
        ⊎ ((posts (if_allowed (authorize_open c r service.policy) write).sent ≡ [])
            × (IsOpenable c r service.policy → ⊥))
  unfolding if_allowed decide
  if_allowed-cases c r write [] k e =
      inl (rw e refl, (authorize_open-allow_iff c r service.policy k).0 e)
  if_allowed-cases c r write (x ∷ xs) k e = inr (
    rw e refl,
    λ openable.
        denied_not_allowed x xs _ e ((authorize_open-allow_iff c r service.policy k).1 openable),
  )

  module _ (client_order_id symbol : String) (side : Side) (volume : Decimal) where
    abbrev request : OrderRequest
    request = open_request service client_order_id symbol side volume

    -- the two ends of safe_open: it wrote the order that was asked for, or nothing
    abbrev pub Decided : Call SafeError ExecutionResult → Type 0
    Decided call =
        ((posts call.sent
            ≡ Sent.post WriteEndpoint.demo_orders (order_body service.wire request) ∷ [])
          × (call.outcome ≡ (from_client (place_order service.wire request)).outcome)
          × IsCleared request)
        ⊎ ((posts call.sent ≡ []) × (IsCleared request → ⊥))

    through :
        (m n : Call SafeError ExecutionResult)
        → posts m.sent ≡ posts n.sent
        → m.outcome ≡ n.outcome
        → Decided n
        → Decided m
    through m n e e' (inl (wrote, answered, cleared)) = inl (e ∙ wrote, e' ∙ answered, cleared)
    through m n e e' (inr (nothing, closed)) = inr (e ∙ nothing, closed)

    abbrev write : Call SafeError ExecutionResult
    write = from_client (place_order service.wire request)

    posts-write :
        posts write.sent
        ≡ Sent.post WriteEndpoint.demo_orders (order_body service.wire request) ∷ []
    unfolding from_client
    posts-write = posts-place_order service.wire request

    abbrev if_open : PolicyContext → Call SafeError ExecutionResult
    if_open context = if_allowed (authorize_open context request service.policy) write

    opening-Decided : IsFresh symbol → Decided (build_open_context service symbol >>= if_open)
    unfolding increases
    opening-Decided fresh =
        let built = build_open_context service symbol in
        let reads = build_open_context-Reads symbol in
        elim (Result-cases built.outcome) [
          | inl (e, failed) ↦ inr (
            posts_from_err if_open built e reads failed,
            λ cleared. not_both _ failed cleared.built,
          )
          | inr (c, done) ↦
              let same = posts_from_ok if_open built c reads done in
              let outcome = (from_ok if_open built.sent built.outcome c done).1 in
              elim (if_allowed-cases c request write (open_reasons c request service.policy) refl
                (authorize_open_lem c request refl)) [
                  | inl (allowed, openable) ↦ inl (
                    same ∙ ap (λ m. posts m.sent) allowed ∙ posts-write,
                    outcome ∙ ap (λ m. m.outcome) allowed,
                    record { fresh = fresh; context = c; built = done; openable = openable },
                  )
                  | inr (nothing, closed) ↦ inr (
                    same ∙ nothing,
                    λ cleared. closed (rw (ok-injective _ cleared.built done) at cleared.openable),
                  )
                ]
        ]

    -- the two ends, in the terms of the service's own context and request
    pub safe_open-Decided : Decided (safe_open service client_order_id symbol side volume)
    unfolding safe_open
    safe_open-Decided =
        let check = check_quote_freshness service symbol in
        let reads = check_quote_freshness-Reads symbol in
        let next = λ (u : Unit {0}). build_open_context service symbol >>= if_open in
        elim (Result-cases check.outcome) [
          | inl (e, stale) ↦ inr (
            posts_from_err next check e reads stale,
            λ cleared. not_both _ stale (IsFresh-check symbol cleared.fresh),
          )
          | inr (u, checked) ↦
              through (check >>= next) (next u) (posts_from_ok next check u reads checked)
                (from_ok next check.sent check.outcome u checked).1
                (opening-Decided (check-IsFresh symbol checked))
        ]

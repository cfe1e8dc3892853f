-- ===== src/Execution/Remote/Reads.antt =====
-- Which calls of the client (src/execution/mt5_remote.py) only read.
use Prim.Native.String.{String}
use tradingia.Prelude.{List, [], ◌∷◌, ◌++◌, ◌≡◌, refl, sym, ap, ◌∙◌, inl, inr, arith}
use tradingia.Prelude.Result.{Result, ok, err, Result-cases, ok-injective, err-injective}
use tradingia.Execution.Domain.{OrderRequest}
use tradingia.Execution.Remote.Calls.{Endpoint, WriteEndpoint, Sent, Wire, Call, answered, ◌>>=◌}
use tradingia.Execution.Remote.Client.{
  get_request, post_request, account, symbol_metadata, quote, positions, kill_switch_status,
  reconciliation_status, place_order, order_body,
}

-- the writes among what was sent
abbrev pub posts : List Sent → List Sent
posts [] = []
posts (Sent.get path ∷ rest) = posts rest
posts (Sent.post path body ∷ rest) = Sent.post path body ∷ posts rest

pub posts-append : (xs ys : List Sent) → posts (xs ++ ys) ≡ posts xs ++ posts ys
posts-append [] ys = refl
posts-append (Sent.get path ∷ xs) ys = posts-append xs ys
posts-append (Sent.post path body ∷ xs) ys = ap (λ t. Sent.post path body ∷ t) (posts-append xs ys)

module _ {E : Type 0} where
  abbrev pub Reads {ℓ} : {A : Type ℓ} → Call E A → Type 0
  Reads m = posts m.sent ≡ []

  module _ {ℓ κ} {A : Type ℓ} {B : Type κ} (f : A → Call E B) where
    pub from_err :
        (sent : List Sent) (r : Result E A) (e : E)
        → r ≡ err e
        → ((record { sent = sent; outcome = r } >>= f).sent ≡ sent)
          × ((record { sent = sent; outcome = r } >>= f).outcome ≡ err e)
    unfolding ◌>>=◌
    from_err sent (ok a) e h = absurd (ground arith)
    from_err sent (err e') e h = (refl, ap err (err-injective (err e') refl h))

    pub from_ok :
        (sent : List Sent) (r : Result E A) (a : A)
        → r ≡ ok a
        → ((record { sent = sent; outcome = r } >>= f).sent ≡ sent ++ (f a).sent)
          × ((record { sent = sent; outcome = r } >>= f).outcome ≡ (f a).outcome)
    unfolding ◌>>=◌
    from_ok sent (ok b) a h =
        let e = ok-injective (ok b) refl h in
        (ap (λ x. sent ++ (f x).sent) e, ap (λ x. (f x).outcome) e)
    from_ok sent (err e) a h = absurd (ground arith)

    -- a call that reads and then fails, and one that reads and then goes on
    pub posts_from_err :
        (m : Call E A) (e : E) → Reads m → m.outcome ≡ err e → posts (m >>= f).sent ≡ []
    posts_from_err m e reads h = ap posts (from_err m.sent m.outcome e h).0 ∙ reads

    pub posts_from_ok :
        (m : Call E A) (a : A)
        → Reads m
        → m.outcome ≡ ok a
        → posts (m >>= f).sent ≡ posts (f a).sent
    posts_from_ok m a reads h =
        ap posts (from_ok m.sent m.outcome a h).0
        ∙ posts-append m.sent (f a).sent
        ∙ ap (λ t. t ++ posts (f a).sent) reads

    pub Reads-bind : (m : Call E A) → Reads m → ((a : A) → Reads (f a)) → Reads (m >>= f)
    Reads-bind m reads next = elim (Result-cases m.outcome) [
      | inl (e, h) ↦ posts_from_err m e reads h
      | inr (a, h) ↦ posts_from_ok m a reads h ∙ next a
    ]

module _ (wire : Wire) where
  get_request-Reads : (path : Endpoint) → Reads (get_request wire path)
  unfolding get_request
  get_request-Reads path = refl

  pub account-Reads : Reads (account wire)
  unfolding account
  account-Reads =
      Reads-bind _ (get_request wire Endpoint.account) (get_request-Reads _) λ payload. refl

  pub symbol_metadata-Reads : (name : String) → Reads (symbol_metadata wire name)
  unfolding symbol_metadata
  symbol_metadata-Reads name = Reads-bind _ (answered _) refl λ safe.
      Reads-bind _ (get_request wire (Endpoint.symbol_at safe)) (get_request-Reads _)
        λ payload. refl

  pub quote-Reads : (name : String) → Reads (quote wire name)
  unfolding quote
  quote-Reads name = Reads-bind _ (answered _) refl λ safe.
      Reads-bind _ (get_request wire (Endpoint.quote_at safe)) (get_request-Reads _) λ payload. refl

  pub positions-Reads : Reads (positions wire)
  unfolding positions
  positions-Reads =
      Reads-bind _ (get_request wire Endpoint.positions) (get_request-Reads _) λ payload. refl

  pub kill_switch_status-Reads : Reads (kill_switch_status wire)
  unfolding kill_switch_status
  kill_switch_status-Reads =
      Reads-bind _ (get_request wire Endpoint.kill_switch) (get_request-Reads _) λ payload. refl

  pub reconciliation_status-Reads : Reads (reconciliation_status wire)
  unfolding reconciliation_status
  reconciliation_status-Reads =
      Reads-bind _ (get_request wire Endpoint.reconciliation) (get_request-Reads _) λ payload. refl

  -- place_order writes once, whatever it is answered
  pub posts-place_order :
      (r : OrderRequest)
      → posts (place_order wire r).sent
        ≡ Sent.post WriteEndpoint.demo_orders (order_body wire r) ∷ []
  unfolding place_order post_request
  posts-place_order r =
      elim (Result-cases
        (post_request wire WriteEndpoint.demo_orders (order_body wire r)).outcome) [
          | inl (e, h) ↦ ap posts (from_err _ _ _ e h).0
          | inr (payload, h) ↦ ap posts (from_ok _ _ _ payload h).0
        ]

pub not_both {ℓ κ} :
    {E : Type ℓ} {A : Type κ} (r : Result E A) {e : E} {a : A} → r ≡ err e → r ≡ ok a → ⊥
not_both r h k = ground arith

-- A chain of calls that returns has a first call that returns.
pub outcome_of_bind {ℓ κ} :
    {E : Type 0} {A : Type ℓ} {B : Type κ} (m : Call E A) (f : A → Call E B) (b : B)
    → (m >>= f).outcome ≡ ok b
    → (a : A) × (m.outcome ≡ ok a) × ((f a).outcome ≡ ok b)
outcome_of_bind m f b h = elim (Result-cases m.outcome) [
  | inl (e, failed) ↦ absurd (not_both _ (from_err f m.sent m.outcome e failed).1 h)
  | inr (a, returned) ↦ (a, returned, sym (from_ok f m.sent m.outcome a returned).1 ∙ h)
]

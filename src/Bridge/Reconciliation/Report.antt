-- ===== src/Bridge/Reconciliation/Report.antt =====
-- What run_reconciliation (mt5_bridge/reconciliation.py) reports.
use tradingia.Prelude.{
  ℕ, ◌≡◌, ◌≢◌, ◌⊎◌, ◌↔◌, refl, inl, inr, Bool, true, false, some, List, [], ◌∷◌, map, keep, arith,
  All, All-keep, keep-All, Option-cases,
}
use tradingia.Bridge.Backend.{Backend, BackendPosition, BackendOrder}
use tradingia.Bridge.Store.{
  BridgeStore, IdempotencyRecord, OrderState, Detail, ReconciliationState, is_incomplete,
  find_incomplete_at_startup, set_last_reconciliation, get_last_reconciliation,
}
use tradingia.Bridge.Reconciliation.{
  detail_of, report_on, run_reconciliation, get_reconciliation_status,
}

-- both listings of the terminal answer
abbrev pub Answers : Backend → Type 0
Answers b =
    ((ps : List BackendPosition) × (b.positions_get ≡ some ps))
    × ((os : List BackendOrder) × (b.orders_get ≡ some os))

-- the request of the row reached an end, or waits for a decision by hand
abbrev pub IsSettled : IdempotencyRecord → Type 0
IsSettled r = (r.state ≢ OrderState.received) × (r.state ≢ OrderState.submitted)

-- The lines that a table asks for: one for each row that is RECEIVED or SUBMITTED, in order, with
-- the row's id, state and time of creation.
pub data Lines : List IdempotencyRecord → List Detail → Type 0 where
  no_rows : Lines [] []
  line :
      {rs : List IdempotencyRecord} {ds : List Detail} (r : IdempotencyRecord)
      → (r.state ≡ OrderState.received) ⊎ (r.state ≡ OrderState.submitted)
      → Lines rs ds
      → Lines (r ∷ rs) (Detail.stuck r.client_order_id r.state r.created_at ∷ ds)
  no_line :
      {rs : List IdempotencyRecord} {ds : List Detail} (r : IdempotencyRecord)
      → IsSettled r
      → Lines rs ds
      → Lines (r ∷ rs) ds

IsSettled-iff : (r : IdempotencyRecord) → (is_incomplete r.state ≡ false) ↔ IsSettled r
unfolding is_incomplete
IsSettled-iff r = (ground arith, ground arith)

unsettled :
    (st : OrderState)
    → is_incomplete st ≡ true
    → (st ≡ OrderState.received) ⊎ (st ≡ OrderState.submitted)
unfolding is_incomplete
unsettled st e = ground arith

incomplete-Lines :
    (rs : List IdempotencyRecord) → Lines rs (map detail_of (keep (λ r. is_incomplete r.state) rs))
incomplete-Lines [] = Lines.no_rows
incomplete-Lines (r ∷ rs) = go (is_incomplete r.state) refl (incomplete-Lines rs)
  where
    go :
        (b : Bool)
        → is_incomplete r.state ≡ b
        → Lines rs (map detail_of (keep (λ x. is_incomplete x.state) rs))
        → Lines (r ∷ rs) (map detail_of (keep (λ x. is_incomplete x.state) (r ∷ rs)))
    go true e rest = rw e (Lines.line r (unsettled r.state e) rest)
    go false e rest = rw e (Lines.no_line r ((IsSettled-iff r).0 e) rest)

report_on-consistent :
    (now : ℕ) (rows : List IdempotencyRecord)
    → (report_on now rows).state ≡ ReconciliationState.consistent
    → rows ≡ []
unfolding report_on
report_on-consistent now [] h = refl
report_on-consistent now (r ∷ rs) h = cc

report_on-details :
    (now : ℕ) (rows : List IdempotencyRecord) → (report_on now rows).details ≡ map detail_of rows
unfolding report_on
report_on-details now [] = refl
report_on-details now (r ∷ rs) = refl

module _ (b : Backend) (now : ℕ) (s : BridgeStore) where
  all-IsSettled_iff : (find_incomplete_at_startup s ≡ []) ↔ All IsSettled s.idempotency
  unfolding find_incomplete_at_startup
  all-IsSettled_iff = (
    All-keep IsSettled _ s.idempotency λ r. (IsSettled-iff r).0,
    keep-All IsSettled _ s.idempotency λ r. (IsSettled-iff r).1,
  )

  -- A reconciliation is consistent exactly when both listings of the terminal answer and no row of
  -- the table is RECEIVED or SUBMITTED.
  pub run_reconciliation-consistent_iff :
      ((run_reconciliation b now s).0.state ≡ ReconciliationState.consistent)
      ↔ Answers b × All IsSettled s.idempotency
  unfolding run_reconciliation
  run_reconciliation-consistent_iff = (
    λ e. elim (Option-cases b.positions_get) [
      | inl silent ↦ absurd (ground arith)
      | inr (ps, positions) ↦ elim (Option-cases b.orders_get) [
        | inl silent ↦ absurd (ground arith)
        | inr (os, orders) ↦ (
          ((ps, positions), (os, orders)),
          all-IsSettled_iff.0 (report_on-consistent now _ (rw (positions, orders) at e)),
        )
      ]
    ],
    λ (((ps, positions), (os, orders)), settled).
        rw (positions, orders, all-IsSettled_iff.1 settled) (unfold report_on in refl),
  )

  pub run_reconciliation_stores :
      (run_reconciliation b now s).1.reconciliation ≡ some (run_reconciliation b now s).0
  unfolding run_reconciliation set_last_reconciliation
  run_reconciliation_stores = refl

  -- Where both listings of the terminal answer, the report has a line with the id, the state and the
  -- creation for every row that is RECEIVED or SUBMITTED and for no other, in the table's order; the
  -- status that is read later is the report of this run, and the run changes neither the rows nor the
  -- journal nor the kill switch.
  pub run_reconciliation_reports :
      (later : ℕ)
      → Answers b
      → let (report, s') = run_reconciliation b now s in
        Lines s.idempotency report.details
        × (get_reconciliation_status later s' ≡ report)
        × (s'.idempotency ≡ s.idempotency)
        × (s'.journal ≡ s.journal)
        × (s'.kill_switch ≡ s.kill_switch)
  unfolding run_reconciliation set_last_reconciliation get_reconciliation_status
      get_last_reconciliation find_incomplete_at_startup
  run_reconciliation_reports later ((ps, positions), (os, orders)) = (
    rw (positions, orders, report_on-details now) (incomplete-Lines s.idempotency),
    refl,
    refl,
    refl,
    refl,
  )

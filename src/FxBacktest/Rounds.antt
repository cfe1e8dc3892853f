-- ===== src/FxBacktest/Rounds.antt =====
-- A round of the engine's loop (src/fx/backtesting/engine.py) as moves, and what it adds to the curve.
use tradingia.Prelude.{
  ℕ, Bool, true, none, some, is_some, [], ◌∷◌, ◌++◌, ◌&&◌, leb_ℤ, pos, ◌≡◌, refl, sym, ap, ◌∙◌, ◌⊎◌,
  inl, inr, Bool-cases, if-split, arith,
}
use tradingia.Prelude.Result.{ok, >>=-ok, ok-injective}
use tradingia.Execution.Domain.{Decimal}
use tradingia.FxBacktest.Models.{Instant, PositionSide, TargetPosition, FxBar}
use tradingia.FxBacktest.Config.{FxEngineConfig}
use tradingia.FxBacktest.Engine.{accrue_open, close_leg, rebalance, mark_equity, mark, step}
use tradingia.FxBacktest.State.{
  LoopState, book, end_if_insolvent, EquityPoint, same_side, side_of, desired_side,
}
use tradingia.FxBacktest.Moves.{
  Move, Moves, Moves-trans, at_end, one, accrue_open_lem, close_leg_lem, open_leg_lem, mark_lem,
}

-- a close or an opening: the curve is left as it is, or the run has ended and it has one point more
abbrev Settled : LoopState → LoopState → Type 0
Settled st st' =
    ((st'.termination ≡ none) × (st'.equity_curve ≡ st.equity_curve))
    ⊎ ((is_some st'.termination ≡ true)
        × ((p : EquityPoint) × (st'.equity_curve ≡ st.equity_curve ++ p ∷ [])))

end_if_insolvent-Settled :
    (terminate : Bool) (bar : FxBar) (st : LoopState)
    → st.termination ≡ none
    → Settled st (end_if_insolvent terminate bar st)
unfolding end_if_insolvent
end_if_insolvent-Settled terminate bar st live =
    elim (Bool-cases (terminate && leb_ℤ st.balance (pos 0))) [
      | inl e ↦ rw e (inr (refl, (_, refl)))
      | inr e ↦ rw e (inl (live, refl))
    ]

module _ (cfg : FxEngineConfig) where
  moved : {a b c : LoopState} → b ≡ c → Moves cfg a b × Settled a b → Moves cfg a c × Settled a c
  moved e h = rw (sym e) h

  stays :
      (a : LoopState) {b : LoopState} → a.termination ≡ none → a ≡ b → Moves cfg a b × Settled a b
  stays a live e = moved e (Moves.done a, inl (live, refl))

  close_leg-Settled :
      (i : ℕ) (bar : FxBar) (st : LoopState) {st' : LoopState}
      → st.termination ≡ none
      → close_leg cfg i bar st ≡ ok st'
      → Moves cfg st st' × Settled st st'
  unfolding book
  close_leg-Settled i bar st live h = elim (close_leg_lem cfg i bar st h) [
    | inl (e, same) ↦ (at_end cfg same (Moves.done st), rw (sym same) (inl (live, refl)))
    | inr (p, held, trade, e, priced, same) ↦ (
      one cfg same (Move.closed st p bar held trade live e priced),
      rw (sym same) (end_if_insolvent-Settled cfg.terminate_on_insolvency bar (book trade st) live),
    )
  ]

  rebalance-Settled :
      (i : ℕ) (bar : FxBar) (side : PositionSide) (st : LoopState) {st' : LoopState}
      → st.termination ≡ none
      → rebalance cfg i bar side st ≡ ok st'
      → Moves cfg st st' × Settled st st'
  unfolding rebalance
  rebalance-Settled i bar side st live h =
      elim (if-split (same_side (side_of st.position) side) _ _ h) [
        | inl (e, h') ↦ stays st live (ok-injective (ok st) refl h')
        | inr (e, h') ↦
            let closed = >>=-ok (close_leg cfg i bar st) _ h' in
            let first = close_leg-Settled i bar st live closed.1 in
            elim (if-split (is_some closed.0.termination) _ _ closed.2) [
              | inl (ended, h2) ↦ moved (ok-injective (ok closed.0) refl h2) first
              | inr (running, h2) ↦ elim first.1 [
                | inr (ended, grown) ↦ absurd (ground arith)
                | inl (live', same) ↦ elim (open_leg_lem cfg i bar side closed.0 h2) [
                  | inl (flat, e2) ↦ moved e2 first
                  | inr (p, priced, e2) ↦ (
                    Moves-trans first.0
                        (one cfg e2 (Move.opened closed.0 p i bar side live' priced)),
                    rw (sym e2) (inl (live', same)),
                  )
                ]
              ]
            ]
      ]

  abbrev point : FxBar → PositionSide → LoopState → Decimal → EquityPoint
  point bar side st equity = record {
    timestamp = bar.timestamp_utc;
    equity = equity;
    held = elim st.position [ none ↦ side | some p ↦ p.side ];
  }

  mark-grows :
      (bar : FxBar) (side : PositionSide) (st mid : LoopState) {st' : LoopState}
      → Moves cfg st mid × Settled st mid
      → mark cfg bar side mid ≡ ok st'
      → Moves cfg st st' × ((p : EquityPoint) × (st'.equity_curve ≡ st.equity_curve ++ p ∷ []))
  unfolding mark mark_equity
  mark-grows bar side st mid {st' = st'} (moves, inl (live, same)) h =
      let marked = mark_lem cfg bar side mid live h in
      (
        Moves-trans moves (one cfg marked.2 (Move.marked mid bar side marked.0 live marked.1)),
        (
          _,
          sym (ap (λ s. s.equity_curve) marked.2)
              ∙ ap (λ c. c ++ point bar side mid marked.0 ∷ []) same,
        ),
      )
  mark-grows bar side st mid (moves, inr (ended, (p, grown))) h =
      let same = ok-injective (ok mid) refl (rw ended at h) in
      (at_end cfg same moves, (p, sym (ap (λ s. s.equity_curve) same) ∙ grown))

  -- a round leaves the loop's variables by moves, and one more point on the curve
  pub step-Moves :
      (i : ℕ) (prev : Instant) (bar : FxBar) (target : TargetPosition) (st : LoopState)
      {st' : LoopState}
      → st.termination ≡ none
      → step cfg i prev bar target st ≡ ok st'
      → Moves cfg st st' × ((p : EquityPoint) × (st'.equity_curve ≡ st.equity_curve ++ p ∷ []))
  unfolding step
  step-Moves i prev bar target st live h =
      let side = desired_side target in
      let swapped = >>=-ok (accrue_open cfg prev bar st) _ h in
      let swap = accrue_open_lem cfg prev bar st swapped.1 in
      let live' = sym (ap (λ s. s.termination) swap.1) ∙ live in
      let balanced = >>=-ok (rebalance cfg i bar side swapped.0) _ swapped.2 in
      let settled = rebalance-Settled i bar side swapped.0 live' balanced.1 in
      let grown = mark-grows bar side swapped.0 balanced.0 settled balanced.2 in
      (
        Moves-trans (one cfg swap.1 (Move.accrued st swap.0 live)) grown.0,
        (grown.1.0, grown.1.1 ∙ ap (λ s. s.equity_curve ++ grown.1.0 ∷ []) (sym swap.1)),
      )

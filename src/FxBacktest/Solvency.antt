-- ===== src/FxBacktest/Solvency.antt =====
-- The end of a run at an equity that is not positive (src/fx/backtesting/engine.py).
use tradingia.Prelude.{
  ℕ, ℤ, pos, ◌<ℤ◌, ◌≤ℤ◌, none, some, List, [], ◌∷◌, ◌++◌, ◌≡◌, refl, sym, ap, ◌∙◌, ◌⊎◌, inl, inr,
  true, false, Bool-cases, leb_ℤ, arith, All,
}
use tradingia.Prelude.Result.{ok}
use tradingia.Execution.Domain.{Decimal}
use tradingia.FxBacktest.Models.{FxBar, TargetPosition}
use tradingia.FxBacktest.Config.{FxEngineConfig}
use tradingia.FxBacktest.Engine.{
  FxBacktestResult, mark_equity, initial_state, result_of, run, last_equity, all_but_last,
  replace_last,
}
use tradingia.FxBacktest.State.{LoopState, EquityPoint, book, end_if_insolvent}
use tradingia.FxBacktest.Moves.{Move, Moves}
use tradingia.FxBacktest.Ended.{Ended, run_lem, no_bars}
use tradingia.FxBacktest.Loop.{run_loop-Moves}

abbrev pub IsPositive : EquityPoint → Type 0
IsPositive p = pos 0 <ℤ p.equity

-- before the end of the run every point is positive; its end is a point that is not, at that instant
abbrev Solvent : LoopState → Type 0
Solvent st =
    ((st.termination ≡ none) × All IsPositive st.equity_curve)
    ⊎ ((front : List EquityPoint) × (end : EquityPoint) × (st.equity_curve ≡ front ++ end ∷ [])
        × All IsPositive front
        × (end.equity ≤ℤ pos 0)
        × (st.termination ≡ some end.timestamp))

All-append {ℓ κ} :
    {A : Type ℓ} (P : A → Type κ) (xs ys : List A) → All P xs → All P ys → All P (xs ++ ys)
All-append P [] ys h k = k
All-append P (x ∷ xs) ys (p, h) k = (p, All-append P xs ys h k)

-- a live run stays live through what leaves the curve as it is
live-All : (st : LoopState) → st.termination ≡ none → Solvent st → All IsPositive st.equity_curve
live-All st live (inl (e, h)) = h
live-All st live (inr (front, end, e, h, low, ended)) = absurd (ground arith)

not_positive : (a : ℤ) → leb_ℤ a (pos 0) ≡ true → a ≤ℤ pos 0
not_positive a h = ground arith

positive : (a : ℤ) → leb_ℤ a (pos 0) ≡ false → pos 0 <ℤ a
positive a h = ground arith

module _ (cfg : FxEngineConfig) (guarded : cfg.terminate_on_insolvency ≡ true) where
  end_if_insolvent-Solvent :
      (bar : FxBar) (st : LoopState)
      → st.termination ≡ none
      → All IsPositive st.equity_curve
      → Solvent (end_if_insolvent cfg.terminate_on_insolvency bar st)
  unfolding end_if_insolvent
  end_if_insolvent-Solvent bar st live h = elim (Bool-cases (leb_ℤ st.balance (pos 0))) [
    | inl e ↦ rw (guarded, e) (inr (st.equity_curve, _, refl, h, not_positive st.balance e, refl))
    | inr e ↦ rw (guarded, e) (inl (live, h))
  ]

  mark_equity-Solvent :
      (bar : FxBar) (side : _) (equity : Decimal) (st : LoopState)
      → st.termination ≡ none
      → All IsPositive st.equity_curve
      → Solvent (mark_equity cfg bar side equity st)
  unfolding mark_equity
  mark_equity-Solvent bar side equity st live h = elim (Bool-cases (leb_ℤ equity (pos 0))) [
    | inl e ↦ rw (guarded, e) (inr (st.equity_curve, _, refl, h, not_positive equity e, refl))
    | inr e ↦
        rw (guarded, e)
          (inl (live, All-append IsPositive st.equity_curve _ h (positive equity e, tt)))
  ]

  Move-Solvent : {a b : LoopState} → Move cfg a b → Solvent a → Solvent b
  unfolding book
  Move-Solvent (Move.accrued st swap live) h = h
  Move-Solvent (Move.closed st p bar held trade live e priced) h =
      end_if_insolvent-Solvent bar (book trade st) live (live-All st live h)
  Move-Solvent (Move.opened st p i bar side live priced) h = h
  Move-Solvent (Move.marked st bar side equity live e) h =
      mark_equity-Solvent bar side equity st live (live-All st live h)

  Moves-Solvent : {a b : LoopState} → Moves cfg a b → Solvent a → Solvent b
  Moves-Solvent (Moves.done st) h = h
  Moves-Solvent (Moves.more x xs) h = Moves-Solvent xs (Move-Solvent x h)

  All-all_but_last : (xs : List EquityPoint) → All IsPositive xs → All IsPositive (all_but_last xs)
  unfolding all_but_last
  All-all_but_last [] h = tt
  All-all_but_last (x ∷ []) h = tt
  All-all_but_last (x ∷ y ∷ ys) (p, h) = (p, All-all_but_last (y ∷ ys) h)

all_but_last-snoc {ℓ} : {A : Type ℓ} (xs : List A) (v : A) → all_but_last (xs ++ v ∷ []) ≡ xs
unfolding all_but_last
all_but_last-snoc [] v = refl
all_but_last-snoc (x ∷ []) v = refl
all_but_last-snoc (x ∷ y ∷ ys) v = ap (λ t. x ∷ t) (all_but_last-snoc (y ∷ ys) v)

last_equity-snoc :
    (d : Decimal) (xs : List EquityPoint) (p : EquityPoint)
    → last_equity d (xs ++ p ∷ []) ≡ p.equity
unfolding last_equity
last_equity-snoc d [] p = refl
last_equity-snoc d (x ∷ xs) p = last_equity-snoc x.equity xs p

-- a result whose run was ended at its first point that is not positive, or was not ended and had none
-- before its last
abbrev pub EndsAtInsolvency : FxBacktestResult → Type 0
EndsAtInsolvency r =
    ((r.termination ≡ none) × All IsPositive (all_but_last r.equity_curve))
    ⊎ ((front : List EquityPoint) × (end : EquityPoint) × (r.equity_curve ≡ front ++ end ∷ [])
        × All IsPositive front
        × (end.equity ≤ℤ pos 0)
        × (r.termination ≡ some end.timestamp)
        × (r.final_account.equity ≡ end.equity))

module _ (cfg : FxEngineConfig) (guarded : cfg.terminate_on_insolvency ≡ true) where
  result-EndsAtInsolvency : (st : LoopState) → Solvent st → EndsAtInsolvency (result_of cfg st)
  unfolding result_of
  result-EndsAtInsolvency st (inl (live, h)) =
      inl (live, All-all_but_last cfg guarded st.equity_curve h)
  result-EndsAtInsolvency st (inr (front, end, e, h, low, ended)) = inr (
    front,
    end,
    e,
    h,
    low,
    ended,
    ap (last_equity st.balance) e ∙ last_equity-snoc st.balance front end,
  )

  Ended-EndsAtInsolvency :
      (last : ℕ) (bar : FxBar) (st end : LoopState)
      → Ended cfg last bar st end
      → Solvent st
      → EndsAtInsolvency (result_of cfg end)
  unfolding result_of book replace_last
  Ended-EndsAtInsolvency last bar st _ (Ended.ended_early t e) h = result-EndsAtInsolvency st h
  Ended-EndsAtInsolvency last bar st _ (Ended.flat_at_end live e) h = result-EndsAtInsolvency st h
  Ended-EndsAtInsolvency last bar st _ (Ended.closed_at_end p held trade live e priced) h = inl (
    live,
    rw (all_but_last-snoc (all_but_last st.equity_curve) _)
        (All-all_but_last cfg guarded st.equity_curve (live-All st live h)),
  )

  -- When the configuration ends a run on insolvency and a run returns, then either it was not ended and
  -- every point of its curve before the last is positive; or it was ended, every point before the last
  -- is positive, and the last is not, stands at the instant of the end, and is the final equity.
  pub run-EndsAtInsolvency :
      (bars : List FxBar) (signals : List TargetPosition) (r : FxBacktestResult)
      → run cfg bars signals ≡ ok r
      → EndsAtInsolvency r
  run-EndsAtInsolvency [] signals r h = absurd (no_bars cfg signals h)
  run-EndsAtInsolvency (b ∷ rest) signals r h =
      let (looped, ended, same, loop, end, result) = run_lem cfg b rest signals h in
      let moves = run_loop-Moves cfg 0 b.timestamp_utc (b ∷ rest) _ (initial_state cfg) refl loop in
      let solvent = Moves-Solvent cfg guarded moves (inl (refl, tt)) in
      rw (sym result) (Ended-EndsAtInsolvency _ _ looped ended end solvent)

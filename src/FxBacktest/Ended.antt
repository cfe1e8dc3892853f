-- ===== src/FxBacktest/Ended.antt =====
-- What follows the loop of `run` (src/fx/backtesting/engine.py): the close of what is still open, and
-- the result.
use tradingia.Prelude.{
  ℕ, ◌-◌, ◌==◌, ltb, not, none, some, List, [], ◌∷◌, length, ◌≡◌, refl, sym, inl, inr, Option-split,
  if-split, arith,
}
use tradingia.Prelude.Result.{ok, >>=-ok, ok-injective}
use tradingia.FxBacktest.Models.{
  Instant, PositionSide, TargetPosition, FxBar, Position, TradeResult,
}
use tradingia.FxBacktest.Config.{FxEngineConfig}
use tradingia.FxBacktest.Legs.{close_position}
use tradingia.FxBacktest.Engine.{
  FxBacktestResult, run_loop, shifted_targets, replace_last, last_bar, initial_state, close_at_end,
  result_of, run,
}
use tradingia.FxBacktest.State.{LoopState, EquityPoint, book}

abbrev pub closing_point : FxBar → LoopState → EquityPoint
closing_point bar st = record {
  timestamp = bar.timestamp_utc;
  equity = st.balance;
  held = PositionSide.flat;
}

module _ (cfg : FxEngineConfig) where
  -- the three ways in which a run ends
  pub data Ended (last : ℕ) (bar : FxBar) (st : LoopState) : LoopState → Type 0 where
    ended_early : (t : Instant) → st.termination ≡ some t → Ended last bar st st
    flat_at_end : st.termination ≡ none → st.position ≡ none → Ended last bar st st
    closed_at_end :
        (p : Position) (held : ℕ) (trade : TradeResult)
        → st.termination ≡ none
        → st.position ≡ some p
        → close_position cfg p bar held st.accrued_swap ≡ ok trade
        → Ended last bar st (record (book trade st) {
          equity_curve =
              replace_last (closing_point bar (book trade st)) (book trade st).equity_curve;
        })

  at :
      {last : ℕ} {bar : FxBar} {st a b : LoopState}
      → a ≡ b
      → Ended last bar st a
      → Ended last bar st b
  at e h = rw (sym e) h

  pub close_at_end-Ended :
      (last : ℕ) (bar : FxBar) (st : LoopState) {end : LoopState}
      → close_at_end cfg last bar st ≡ ok end
      → Ended last bar st end
  unfolding close_at_end
  close_at_end-Ended last bar st h = elim (Option-split st.termination _ _ h) [
    | inr (t, ended, h') ↦ at (ok-injective (ok st) refl h') (Ended.ended_early t ended)
    | inl (live, h') ↦ elim (Option-split st.position _ _ h') [
      | inl (flat, h2) ↦ at (ok-injective (ok st) refl h2) (Ended.flat_at_end live flat)
      | inr (p, held, h2) ↦
          let found = >>=-ok (close_position cfg p bar _ st.accrued_swap) _ h2 in
          at (ok-injective (ok _) refl found.2) (Ended.closed_at_end p _ found.0 live held found.1)
    ]
  ]

  -- the bars and the signals of a run that returns, its loop and its end
  pub run_lem :
      (b : FxBar) (rest : List FxBar) (signals : List TargetPosition) {r : FxBacktestResult}
      → run cfg (b ∷ rest) signals ≡ ok r
      → (looped : LoopState) × (ended : LoopState) × (length (b ∷ rest) ≡ length signals)
        × (run_loop cfg 0 b.timestamp_utc (b ∷ rest) (shifted_targets signals) (initial_state cfg)
            ≡ ok looped)
        × Ended (length (b ∷ rest) - 1) (last_bar b rest) looped ended
        × (result_of cfg ended ≡ r)
  unfolding run
  run_lem b rest signals h = elim (if-split (not (length (b ∷ rest) == length signals)) _ _ h) [
    | inl (bad, h') ↦ absurd (ground arith)
    | inr (same, h') ↦ elim (if-split (ltb (length (b ∷ rest)) 2) _ _ h') [
      | inl (bad, h2) ↦ absurd (ground arith)
      | inr (enough, h2) ↦
          let loop =
            >>=-ok
              (run_loop cfg 0 b.timestamp_utc (b ∷ rest) (shifted_targets signals)
                (initial_state cfg))
              _ h2 in
          let end =
            >>=-ok (close_at_end cfg (length (b ∷ rest) - 1) (last_bar b rest) loop.0) _ loop.2 in
          (
            loop.0,
            end.0,
            ground arith,
            loop.1,
            close_at_end-Ended (length (b ∷ rest) - 1) (last_bar b rest) loop.0 end.1,
            ok-injective (ok _) refl end.2,
          )
    ]
  ]

  pub no_bars :
      (signals : List TargetPosition) {r : FxBacktestResult} → run cfg [] signals ≡ ok r → ⊥
  unfolding run
  no_bars signals h = elim (if-split (not (0 == length signals)) _ _ h) [
    | inl (bad, h') ↦ absurd (ground arith)
    | inr (same, h') ↦ absurd (ground arith)
  ]

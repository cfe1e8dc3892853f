-- ===== src/FxBacktest/Loop.antt =====
-- The loop of `run` (src/fx/backtesting/engine.py): its moves, the length of its curve, and the part
-- of the curve that is there already.
use tradingia.Prelude.{
  ℕ, suc, ◌+◌, Option, none, some, List, [], ◌∷◌, ◌++◌, length, length-append, append_assoc,
  append-nil, ◌≡◌, refl, sym, ap, ◌∙◌, ◌⊎◌, inl, inr, Option-split, arith,
}
use tradingia.Prelude.Result.{ok, >>=-ok, ok-injective}
use tradingia.FxBacktest.Models.{Instant, TargetPosition, FxBar}
use tradingia.FxBacktest.Config.{FxEngineConfig}
use tradingia.FxBacktest.Engine.{step, run_loop}
use tradingia.FxBacktest.State.{LoopState, EquityPoint}
use tradingia.FxBacktest.Moves.{Moves, Moves-trans, at_end}
use tradingia.FxBacktest.Rounds.{step-Moves}

pub running_or_ended : {o : Option Instant} {t : Instant} → o ≡ none → o ≡ some t → ⊥
running_or_ended e h = ground arith

module _ (cfg : FxEngineConfig) where
  -- a round, and then the end of the run or the rounds after it
  pub run_loop_lem :
      (i : ℕ) (prev : Instant) (bar : FxBar) (bars : List FxBar) (target : TargetPosition)
      (targets : List TargetPosition) (st : LoopState) {st' : LoopState}
      → run_loop cfg i prev (bar ∷ bars) (target ∷ targets) st ≡ ok st'
      → (mid : LoopState) × (step cfg i prev bar target st ≡ ok mid)
        × (((mid.termination ≡ none)
              × (run_loop cfg (suc i) bar.timestamp_utc bars targets mid ≡ ok st'))
            ⊎ ((t : Instant) × (mid.termination ≡ some t) × (mid ≡ st')))
  unfolding run_loop
  run_loop_lem i prev bar bars target targets st h =
      let found = >>=-ok (step cfg i prev bar target st) _ h in
      (
        found.0,
        found.1,
        elim (Option-split found.0.termination _ _ found.2) [
          | inl (live, h') ↦ inl (live, h')
          | inr (t, ended, h') ↦ inr (t, ended, ok-injective (ok found.0) refl h')
        ],
      )

  pub run_loop-Moves :
      (i : ℕ) (prev : Instant) (bars : List FxBar) (targets : List TargetPosition) (st : LoopState)
      {st' : LoopState}
      → st.termination ≡ none
      → run_loop cfg i prev bars targets st ≡ ok st'
      → Moves cfg st st'
  unfolding run_loop
  run_loop-Moves i prev (bar ∷ bars) (target ∷ targets) st live h =
      let (mid, round, rest) = run_loop_lem i prev bar bars target targets st h in
      let first = (step-Moves cfg i prev bar target st live round).0 in
      elim rest [
        | inl (live', h') ↦
            Moves-trans first (run_loop-Moves (suc i) bar.timestamp_utc bars targets mid live' h')
        | inr (t, ended, same) ↦ at_end cfg same first
      ]
  run_loop-Moves i prev [] targets st live h =
      at_end cfg (ok-injective (ok st) refl h) (Moves.done st)
  run_loop-Moves i prev (bar ∷ bars) [] st live h =
      at_end cfg (ok-injective (ok st) refl h) (Moves.done st)

  -- the curve of a loop's end begins with the one it started from
  pub run_loop-extends :
      (i : ℕ) (prev : Instant) (bars : List FxBar) (targets : List TargetPosition) (st : LoopState)
      {st' : LoopState}
      → st.termination ≡ none
      → run_loop cfg i prev bars targets st ≡ ok st'
      → (points : List EquityPoint) × (st'.equity_curve ≡ st.equity_curve ++ points)
  unfolding run_loop
  run_loop-extends i prev (bar ∷ bars) (target ∷ targets) st live h =
      let (mid, round, rest) = run_loop_lem i prev bar bars target targets st h in
      let (p, grown) = (step-Moves cfg i prev bar target st live round).1 in
      elim rest [
        | inl (live', h') ↦
            let (ps, more) = run_loop-extends (suc i) bar.timestamp_utc bars targets mid live' h' in
            (p ∷ ps, more ∙ ap (λ c. c ++ ps) grown ∙ append_assoc st.equity_curve (p ∷ []) ps)
        | inr (t, ended, same) ↦ (p ∷ [], ap (λ s. s.equity_curve) (sym same) ∙ grown)
      ]
  run_loop-extends i prev [] targets st live h =
      ([], ap (λ s. s.equity_curve) (sym (ok-injective (ok st) refl h)) ∙ sym (append-nil _))
  run_loop-extends i prev (bar ∷ bars) [] st live h =
      ([], ap (λ s. s.equity_curve) (sym (ok-injective (ok st) refl h)) ∙ sym (append-nil _))

  -- a loop that was not ended has recorded a point for each bar
  pub run_loop-length :
      (i : ℕ) (prev : Instant) (bars : List FxBar) (targets : List TargetPosition) (st : LoopState)
      {st' : LoopState}
      → st.termination ≡ none
      → length targets ≡ length bars
      → run_loop cfg i prev bars targets st ≡ ok st'
      → st'.termination ≡ none
      → length st'.equity_curve ≡ length st.equity_curve + length bars
  unfolding run_loop
  run_loop-length i prev (bar ∷ bars) (target ∷ targets) st live same h live2 =
      let (mid, round, rest) = run_loop_lem i prev bar bars target targets st h in
      let (p, grown) = (step-Moves cfg i prev bar target st live round).1 in
      let one_more = ap length grown ∙ length-append st.equity_curve (p ∷ []) in
      elim rest [
        | inl (live', h') ↦
            let later =
              run_loop-length (suc i) bar.timestamp_utc bars targets mid live' (omega (arith, same))
                h' live2 in
            omega (arith, later, one_more)
        | inr (t, ended, now) ↦
            absurd (running_or_ended live2 (ap (λ s. s.termination) (sym now) ∙ ended))
      ]
  run_loop-length i prev [] targets st live same h live2 =
      omega (arith, ap (λ s. length s.equity_curve) (ok-injective (ok st) refl h))
  run_loop-length i prev (bar ∷ bars) [] st live same h live2 = absurd (omega (arith, same))

-- ===== src/FxBacktest/Total.antt =====
-- That `run` returns (src/fx/backtesting/engine.py).
use tradingia.Prelude.{
  ℕ, suc, pos, ◌≤◌, ◌==◌, ◌/◌, ltb, leb_ℤ, Bool, true, false, not, ◌&&◌, none, some, is_some, List,
  [], ◌∷◌, length, All, Bool-cases, ◌≡◌, refl, ◌⊎◌, inl, inr, arith,
}
use mathlib.Core.Option.{some-injective}
use tradingia.Prelude.Result.{ok, err, Yields, Yields-bind, Yields-if, Yields-elim}
use tradingia.Execution.Domain.{Decimal}
use tradingia.FxBacktest.Models.{
  Instant, PositionSide, TargetPosition, FxBar, BacktestError, Position,
}
use tradingia.FxBacktest.Costs.{SwapModel, day_length}
use tradingia.FxBacktest.Rollover.{RolloverSchedule, crossings_between}
use tradingia.FxBacktest.Config.{FxEngineConfig}
use tradingia.FxBacktest.Engine.{
  FxBacktestResult, accrue, accrue_open, close_leg, open_leg, rebalance, equity_at, mark_equity,
  mark, step, run_loop, shifted_targets, last_bar, initial_state, close_at_end, run,
}
use tradingia.FxBacktest.State.{
  LoopState, book, end_if_insolvent, is_no_swap, same_side, side_of, desired_side,
}
use tradingia.FxBacktest.Returns.{
  Returns, IsPriced, IsUsable, IsHeld, open_position-Yields, unrealized_pnl-Returns,
  close_position-Returns,
}

-- swaps are not charged, or it is known when
abbrev pub IsTimed : FxEngineConfig → Type 0
IsTimed cfg =
    (cfg.swap_model ≡ SwapModel.no_swap)
    ⊎ ((s : RolloverSchedule) × (cfg.rollover_schedule ≡ some s))

-- bars in order, from an instant on
abbrev pub InOrder : Instant → List FxBar → Type 0
InOrder prev [] = Unit
InOrder prev (bar ∷ bars) = (prev ≤ bar.timestamp_utc) × InOrder bar.timestamp_utc bars

-- what is open is a position that was opened
abbrev Sound : LoopState → Type 0
Sound st = (p : Position) → st.position ≡ some p → IsHeld p

crossings_between-Returns :
    (s : RolloverSchedule) (prev now : Instant)
    → prev ≤ now
    → Returns (crossings_between s prev now)
unfolding crossings_between
crossings_between-Returns s prev now h =
    let in_order : ltb now prev ≡ false = ground arith in rw in_order (_, refl, tt)

charges_nothing :
    (m : SwapModel) (b : Bool) → m ≡ SwapModel.no_swap → (not (is_no_swap m) && b) ≡ true → ⊥
charges_nothing SwapModel.no_swap b e h = ground arith
charges_nothing (SwapModel.fixed_swap r) b e h = ground arith
charges_nothing (SwapModel.side_aware_fixed_swap l r t) b e h = ground arith

known :
    (cfg : FxEngineConfig) (b : Bool)
    → IsTimed cfg
    → cfg.rollover_schedule ≡ none
    → (not (is_no_swap cfg.swap_model) && b) ≡ true
    → ⊥
known cfg b (inl free) absent charged = charges_nothing cfg.swap_model b free charged
known cfg b (inr (s, present)) absent charged = ground arith

unopened : (st : LoopState) → st.position ≡ none → Sound st
unopened st e p h = absurd (ground arith)

holds : (p q : Position) → IsHeld p → some p ≡ some q → IsHeld q
holds p q held e = rw (some-injective p q e) at held

end_if_insolvent-Sound :
    (terminate : Bool) (bar : FxBar) (st : LoopState)
    → Sound st
    → Sound (end_if_insolvent terminate bar st)
unfolding end_if_insolvent
end_if_insolvent-Sound terminate bar st h =
    elim (Bool-cases (terminate && leb_ℤ st.balance (pos 0))) [ inl e ↦ rw e h | inr e ↦ rw e h ]

module _ (cfg : FxEngineConfig) (priced : IsPriced cfg) (timed : IsTimed cfg) where
  accrue-Returns :
      (prev now : Instant) (p : Position) (accrued : Decimal)
      → prev ≤ now
      → Returns (accrue cfg prev now p accrued)
  unfolding accrue
  accrue-Returns prev now p accrued h =
      Yields-elim _ cfg.rollover_schedule _ _
        (λ absent.
          Yields-if _
            (not (is_no_swap cfg.swap_model) && not (now / day_length == prev / day_length)) _ _
            (λ charged. absurd (known cfg _ timed absent charged)) λ quiet. (accrued, refl, tt))
        λ s present.
          Yields-bind _ _ _ _ (crossings_between-Returns s prev now h) λ ts u. (_, refl, tt)

  accrue_open-Yields :
      (prev : Instant) (bar : FxBar) (st : LoopState)
      → prev ≤ bar.timestamp_utc
      → Sound st
      → Yields Sound (accrue_open cfg prev bar st)
  unfolding accrue_open
  accrue_open-Yields prev bar st h sound =
      Yields-elim _ st.position _ _ (λ absent. (st, refl, sound))
        λ p held.
          Yields-bind _ _ _ _ (accrue-Returns prev bar.timestamp_utc p st.accrued_swap h)
            λ swap u. (_, refl, sound)

  close_leg-Yields :
      (i : ℕ) (bar : FxBar) (st : LoopState)
      → IsUsable bar
      → Sound st
      → Yields Sound (close_leg cfg i bar st)
  unfolding close_leg book
  close_leg-Yields i bar st usable sound =
      Yields-elim _ st.position _ _ (λ absent. (st, refl, sound))
        λ p held.
          Yields-bind _ _ _ _
            (close_position-Returns cfg priced p bar _ st.accrued_swap (sound p held) usable)
            λ trade u. (
              _,
              refl,
              end_if_insolvent-Sound cfg.terminate_on_insolvency bar (book trade st)
                  (unopened (book trade st) refl),
            )

  open_leg-Yields :
      (i : ℕ) (bar : FxBar) (side : PositionSide) (st : LoopState)
      → IsUsable bar
      → Sound st
      → Yields Sound (open_leg cfg i bar side st)
  unfolding open_leg
  open_leg-Yields i bar PositionSide.flat st usable sound = (st, refl, sound)
  open_leg-Yields i bar PositionSide.long st usable sound =
      Yields-bind _ _ _ _ (open_position-Yields cfg priced PositionSide.long bar refl usable)
        λ p held. (_, refl, λ q e. holds p q held e)
  open_leg-Yields i bar PositionSide.short st usable sound =
      Yields-bind _ _ _ _ (open_position-Yields cfg priced PositionSide.short bar refl usable)
        λ p held. (_, refl, λ q e. holds p q held e)

  rebalance-Yields :
      (i : ℕ) (bar : FxBar) (side : PositionSide) (st : LoopState)
      → IsUsable bar
      → Sound st
      → Yields Sound (rebalance cfg i bar side st)
  unfolding rebalance
  rebalance-Yields i bar side st usable sound =
      Yields-if _ (same_side (side_of st.position) side) _ _ (λ same. (st, refl, sound))
        λ differs. Yields-bind _ _ _ _ (close_leg-Yields i bar st usable sound) λ closed sound'.
          Yields-if _ (is_some closed.termination) _ _ (λ ended. (closed, refl, sound'))
            λ running. open_leg-Yields i bar side closed usable sound'

  equity_at-Returns :
      (bar : FxBar) (st : LoopState) → IsUsable bar → Sound st → Returns (equity_at cfg bar st)
  unfolding equity_at
  equity_at-Returns bar st usable sound =
      Yields-elim _ st.position _ _ (λ absent. (_, refl, tt))
        λ p held.
          Yields-bind _ _ _ _ (unrealized_pnl-Returns cfg priced p bar (sound p held) usable)
            λ u v. (_, refl, tt)

  mark-Yields :
      (bar : FxBar) (side : PositionSide) (st : LoopState)
      → IsUsable bar
      → Sound st
      → Yields Sound (mark cfg bar side st)
  unfolding mark mark_equity
  mark-Yields bar side st usable sound =
      Yields-if _ (is_some st.termination) _ _ (λ ended. (st, refl, sound))
        λ running.
          Yields-bind _ _ _ _ (equity_at-Returns bar st usable sound) λ equity u. (_, refl, sound)

  step-Yields :
      (i : ℕ) (prev : Instant) (bar : FxBar) (target : TargetPosition) (st : LoopState)
      → prev ≤ bar.timestamp_utc
      → IsUsable bar
      → Sound st
      → Yields Sound (step cfg i prev bar target st)
  unfolding step
  step-Yields i prev bar target st h usable sound =
      Yields-bind _ _ _ _ (accrue_open-Yields prev bar st h sound) λ st1 sound1.
        Yields-bind _ _ _ _ (rebalance-Yields i bar (desired_side target) st1 usable sound1)
          λ st2 sound2. mark-Yields bar (desired_side target) st2 usable sound2

  run_loop-Yields :
      (i : ℕ) (prev : Instant) (bars : List FxBar) (targets : List TargetPosition) (st : LoopState)
      → InOrder prev bars
      → All IsUsable bars
      → Sound st
      → Yields Sound (run_loop cfg i prev bars targets st)
  unfolding run_loop
  run_loop-Yields i prev (bar ∷ bars) (target ∷ targets) st (h, order) (usable, all) sound =
      Yields-bind _ _ _ _ (step-Yields i prev bar target st h usable sound) λ mid sound'.
        Yields-elim _ mid.termination _ _
          (λ running. run_loop-Yields (suc i) bar.timestamp_utc bars targets mid order all sound')
          λ t ended. (mid, refl, sound')
  run_loop-Yields i prev [] targets st order all sound = (st, refl, sound)
  run_loop-Yields i prev (bar ∷ bars) [] st order all sound = (st, refl, sound)

  close_at_end-Returns :
      (last : ℕ) (bar : FxBar) (st : LoopState)
      → IsUsable bar
      → Sound st
      → Returns (close_at_end cfg last bar st)
  unfolding close_at_end
  close_at_end-Returns last bar st usable sound =
      Yields-elim _ st.termination _ _
        (λ running.
          Yields-elim _ st.position _ _ (λ absent. (st, refl, tt))
            λ p held.
              Yields-bind _ _ _ _
                (close_position-Returns cfg priced p bar _ st.accrued_swap (sound p held) usable)
                λ trade u. (_, refl, tt))
        λ t ended. (st, refl, tt)

  last_bar-IsUsable :
      (b : FxBar) (rest : List FxBar) → All IsUsable (b ∷ rest) → IsUsable (last_bar b rest)
  unfolding last_bar
  last_bar-IsUsable b [] (usable, all) = usable
  last_bar-IsUsable b (c ∷ rest) (usable, all) = last_bar-IsUsable c rest all

  -- When lots, contract size and point are positive, the two currencies do not differ, swaps are not
  -- charged or a rollover schedule is given, and two bars or more have positive open and close prices,
  -- no negative spread and ordered timestamps, a run over a signal for each bar returns a result.
  pub run-Returns :
      (b c : FxBar) (rest : List FxBar) (signals : List TargetPosition)
      → All IsUsable (b ∷ c ∷ rest)
      → InOrder b.timestamp_utc (b ∷ c ∷ rest)
      → length (b ∷ c ∷ rest) ≡ length signals
      → (r : FxBacktestResult) × (run cfg (b ∷ c ∷ rest) signals ≡ ok r)
  unfolding run
  run-Returns b c rest signals all order same =
      let found =
        Yields-if (λ r. Unit {0}) (not (length (b ∷ c ∷ rest) == length signals))
          (err BacktestError.lengths_differ) _ (λ bad. absurd (ground arith))
          λ good.
            Yields-if _ (ltb (length (b ∷ c ∷ rest)) 2) (err BacktestError.too_few_bars) _
              (λ few. absurd (ground arith))
              λ enough.
                Yields-bind _ _ _ _
                  (run_loop-Yields 0 b.timestamp_utc (b ∷ c ∷ rest) (shifted_targets signals)
                    (initial_state cfg) order all (unopened (initial_state cfg) refl))
                  λ looped sound.
                    Yields-bind _ _ _ _
                      (close_at_end-Returns _ (last_bar b (c ∷ rest)) looped
                        (last_bar-IsUsable b (c ∷ rest) all) sound)
                      λ ended u. (_, refl, tt) in
      (found.0, found.1)
